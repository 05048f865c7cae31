-- ===== src/Build/Decision.antt =====
-- The decisions of a build: whether the build cache serves, whether building is required, and
-- whether it is suppressed.
use buildsyspp.Shared.{
  ℕ, ◌≡◌, refl, sym, ◌∙◌, Bool, true, false, Option-cases, Bool-cases, ◌⊎◌, inl, inr, List, [], ◌∷◌,
  ◌++◌, none, some, text, arith, Text, empty,
}
use buildsyspp.Host.{Host}
use buildsyspp.Effects.{Outcome, ok, throws, exhausted, pure, gets, ◌>>=◌, ◌>>◌}
use buildsyspp.Model.{Settings, Package, Sys}
use buildsyspp.Command.{allow_failure}
use buildsyspp.Files.Calls.{Act, command, run, exists, try_rename, try_remove, system_ok}
use buildsyspp.Package.Outputs.{staging_tar, install_tar}
use buildsyspp.Package.Info.{update_build_info}
use buildsyspp.Package.Cache.{
  cache_url, destination, CacheFile, cache_files, ff_file, ff_files, fetch_from, should_build,
  compare_command,
}

module _ (h : Host) (replace_all : Text → Text → Text → Text) (cfg : Settings)
    (pkgs : ℕ → Package) where
  abbrev tmp : CacheFile → Text
  tmp f = destination f ++ text ".tmp"

  -- The download of a file of the cache.
  abbrev pub wget : ℕ → Text → CacheFile → Act h Bool
  wget q hash f = run h (
      allow_failure (
        command h (pkgs q).pwd (text "wget") (
          text "-q"
          ∷ cache_url h replace_all cfg pkgs (pkgs q) hash f.rfile
          ∷ text "-O"
          ∷ tmp f
          ∷ [])))

  module _ (q : ℕ) (hash : Text) where
    -- The cache has all the files: each is downloaded, and moved to its place.
    pub data Served : List CacheFile → Sys h → Sys h → Type 0 where
      all_stored : {s : Sys h} → Served [] s s
      stored :
          {f : CacheFile} {fs : List CacheFile} {s t u : Sys h} {d : h.Disk}
          → wget q hash f s ≡ (ok true, t)
          → h.rename (tmp f) (destination f) t.disk ≡ some d
          → Served fs (record t { disk = d }) u
          → Served (f ∷ fs) s u

    -- The download of one of the files fails, or it cannot be moved, and what there is of it is
    -- removed if possible; the files before it are stored, and those behind it are not asked for.
    pub data Missed : List CacheFile → Sys h → Sys h → Type 0 where
      not_fetched :
          {f : CacheFile} {fs : List CacheFile} {s t : Sys h}
          → wget q hash f s ≡ (ok false, t)
          → Missed (f ∷ fs) s (try_remove h (tmp f) t).1
      not_moved :
          {f : CacheFile} {fs : List CacheFile} {s t : Sys h}
          → wget q hash f s ≡ (ok true, t)
          → h.rename (tmp f) (destination f) t.disk ≡ none
          → Missed (f ∷ fs) s (try_remove h (tmp f) t).1
      missed_later :
          {f : CacheFile} {fs : List CacheFile} {s t u : Sys h} {d : h.Disk}
          → wget q hash f s ≡ (ok true, t)
          → h.rename (tmp f) (destination f) t.disk ≡ some d
          → Missed fs (record t { disk = d }) u
          → Missed (f ∷ fs) s u

    removed :
        (path : Text) (s : Sys h)
        → (try_remove h path >> pure true) s ≡ (ok true, (try_remove h path s).1)
    unfolding try_remove ◌>>=◌ pure
    removed path s = elim (Option-cases (h.remove path s.disk)) [
      | inl e ↦ rw e refl
      | inr (d, e) ↦ rw e refl
    ]

    -- One file: it is not fetched, fetched and not moved, or stored.
    abbrev FileAsked : CacheFile → Sys h → Outcome Bool × Sys h → Type 0
    FileAsked f s r =
        ((t : Sys h) × (wget q hash f s ≡ (ok false, t))
          × (r ≡ (ok true, (try_remove h (tmp f) t).1)))
        ⊎ ((t : Sys h) × (wget q hash f s ≡ (ok true, t))
            × (((h.rename (tmp f) (destination f) t.disk ≡ none)
                  × (r ≡ (ok true, (try_remove h (tmp f) t).1)))
                ⊎ ((d : h.Disk) × (h.rename (tmp f) (destination f) t.disk ≡ some d)
                    × (r ≡ (ok false, record t { disk = d })))))

    wget_answers :
        (f : CacheFile) (s : Sys h) → (b : Bool) × ((t : Sys h) × (wget q hash f s ≡ (ok b, t)))
    unfolding run
    wget_answers f s = (_, (_, refl))

    ff_file-FileAsked :
        (f : CacheFile) (s : Sys h) → FileAsked f s (ff_file h replace_all cfg pkgs q hash f s)
    unfolding ff_file ◌>>=◌ try_rename pure
    ff_file-FileAsked f s = let w = wget_answers f s in fetched w.0 w.1.0 w.1.1
      where
        moved :
            (t : Sys h)
            → wget q hash f s ≡ (ok true, t)
            → FileAsked f s (ff_file h replace_all cfg pkgs q hash f s)
        moved t e = elim (Option-cases (h.rename (tmp f) (destination f) t.disk)) [
          | inl n ↦ inr (t, e, inl (n, rw (e, n, ff_file) (removed (tmp f) t)))
          | inr (d, n) ↦ inr (t, e, inr (d, n, rw (e, n, ff_file) refl))
        ]

        fetched :
            (b : Bool) (t : Sys h)
            → wget q hash f s ≡ (ok b, t)
            → FileAsked f s (ff_file h replace_all cfg pkgs q hash f s)
        fetched true t e = moved t e
        fetched false t e = inl (t, e, rw (e, ff_file) (removed (tmp f) t))

    -- What asking for files comes to: true where one is missed.
    abbrev Asked : List CacheFile → Sys h → Outcome Bool × Sys h → Type 0
    Asked fs s r =
        (t : Sys h) × ((Missed fs s t × (r ≡ (ok true, t))) ⊎ (Served fs s t × (r ≡ (ok false, t))))

    ff_files-Asked :
        (fs : List CacheFile) (s : Sys h) → Asked fs s (ff_files h replace_all cfg pkgs q hash fs s)
    unfolding ff_files ◌>>=◌ pure
    ff_files-Asked [] s = (s, inr (all_stored, refl))
    ff_files-Asked (f ∷ fs) s = elim (ff_file-FileAsked f s) [
      | inl (t, e, r) ↦ (_, inl (not_fetched e, rw (r, ff_files) refl))
      | inr (t, e, inl (n, r)) ↦ (_, inl (not_moved e n, rw (r, ff_files) refl))
      | inr (t, e, inr (d, n, r)) ↦
          let rest = ff_files-Asked fs (record t { disk = d }) in
          (
            rest.0,
            elim rest.1 [
              | inl (m, k) ↦ inl (missed_later e n m, rw (r, ff_files) k)
              | inr (m, k) ↦ inr (stored e n m, rw (r, ff_files) k)
            ],
          )
    ]

  -- A build-cache miss is never fatal. Without a build info hash the cache is not asked, and nothing
  -- changes. Otherwise the files are asked for in their order. If the download of one fails or it
  -- cannot be moved to its place, then `fetchFrom` returns true, to build locally, and has tried to
  -- remove what there is of that file. If all are downloaded and moved, then the build info file is
  -- moved too, and it returns false unless that throws.
  pub fetch_from_lem :
      (q : ℕ) (s : Sys h)
      → let hash = (s.progress q).buildinfo_hash in
        let r = fetch_from h replace_all cfg pkgs q s in
        ((empty hash ≡ true) × (r ≡ (ok true, s)))
        ⊎ ((empty hash ≡ false)
            × ((t : Sys h) × ((Missed q hash (cache_files (pkgs q)) s t × (r ≡ (ok true, t)))
                  ⊎ (Served q hash (cache_files (pkgs q)) s t
                      × (r ≡ (update_build_info h replace_all cfg pkgs q false >> pure false) t)))))
  unfolding fetch_from ◌>>=◌ gets
  fetch_from_lem q s = elim (Bool-cases (empty (s.progress q).buildinfo_hash)) [
    | inl e ↦ inl (e, rw e refl)
    | inr e ↦
        let asked = ff_files-Asked q (s.progress q).buildinfo_hash (cache_files (pkgs q)) s in
        inr (
          e,
          (
            asked.0,
            elim asked.1 [
              | inl (m, k) ↦ inl (m, rw (e, k, fetch_from) refl)
              | inr (m, k) ↦ inr (m, rw (e, k, fetch_from) refl)
            ],
          ),
        )
  ]

  -- After the comparison of the build info files.
  abbrev pub compared : ℕ → Sys h → Sys h
  compared q s = (system_ok h (compare_command h replace_all cfg pkgs q) s).1

  -- The state of the package when the new build info is the old one and both archives are there.
  abbrev pub IsKept : ℕ → Sys h → Type 0
  IsKept q s =
      (h.exists (install_tar (pkgs q)) s.disk ≡ true)
      × ((h.exists (staging_tar (pkgs q)) s.disk ≡ true)
          × ((system_ok h (compare_command h replace_all cfg pkgs q) s).0 ≡ ok true))

  -- The inversion of the tests.
  asked_cache :
      (q : ℕ) (s : Sys h) {t : Sys h}
      → should_build h replace_all cfg pkgs q s ≡ (ok false, t)
      → ((s.progress q).code_updated ≡ false)
        × (((pkgs q).install_files ≡ [])
            × (IsKept q s
                ⊎ ((empty cfg.build_cache ≡ false)
                    × (fetch_from h replace_all cfg pkgs q (compared q s) ≡ (ok false, t)))))
  unfolding should_build ◌>>=◌ system_ok exists
  asked_cache q s e = ground arith

  then_false :
      (m : Act h (Unit {0})) (u t : Sys h) → (m >> pure false) u ≡ (ok false, t) → m u ≡ (ok tt, t)
  unfolding ◌>>=◌ pure
  then_false m u t e = from_result (m u) refl e
    where
      from_result :
          (r : Outcome (Unit {0}) × Sys h)
          → m u ≡ r
          → ((λ (x : Sys h). r) >> pure false) u ≡ (ok false, t)
          → m u ≡ (ok tt, t)
      from_result (ok a, v) k e = cc
      from_result (throws x, v) k e = cc
      from_result (exhausted, v) k e = cc

  -- What the cache must have done where it serves a package in the state `s`, and ends in `t`.
  abbrev pub FromCache : ℕ → Sys h → Sys h → Type 0
  FromCache q s t =
      (empty (s.progress q).buildinfo_hash ≡ false)
      × ((u : Sys h) × (Served q (s.progress q).buildinfo_hash (cache_files (pkgs q)) s u
            × (update_build_info h replace_all cfg pkgs q false u ≡ (ok tt, t))))

  served :
      (q : ℕ) (s t : Sys h)
      → fetch_from h replace_all cfg pkgs q s ≡ (ok false, t)
      → FromCache q s t
  served q s t e = elim (fetch_from_lem q s) [
    | inl (k, r) ↦ cc
    | inr (k, (u, inl (m, r))) ↦ cc
    | inr (k, (u, inr (m, r))) ↦
        (k, (u, (m, then_false (update_build_info h replace_all cfg pkgs q false) u t (sym r ∙ e))))
  ]

  -- A package is skipped only if its code is not marked as updated, it has no install files of its
  -- own, and either both of its archives are there and its new build info is the old one, or there is
  -- a build cache, and under the package's build info hash, which is not empty, every file of the
  -- package was downloaded from it and moved to its place, and then the build info file too.
  pub should_build-eq-false :
      (q : ℕ) (s : Sys h) {t : Sys h}
      → should_build h replace_all cfg pkgs q s ≡ (ok false, t)
      → ((s.progress q).code_updated ≡ false)
        × (((pkgs q).install_files ≡ [])
            × (IsKept q s ⊎ ((empty cfg.build_cache ≡ false) × FromCache q (compared q s) t)))
  should_build-eq-false q s {t} e =
      let r = asked_cache q s e in
      (
        r.0,
        (r.1.0, elim r.1.1 [ inl k ↦ inl k | inr (k, f) ↦ inr (k, served q (compared q s) t f) ]),
      )
