-- ===== src/Depends/Reached.antt =====
-- The sets of packages that the traversals give, against the dependency relation.
use buildsyspp.Shared.{
  ℕ, zero, suc, ◌<◌, ◌≡◌, refl, Bool, true, false, not, ◌&&◌, ◌||◌, Bool-cases, ◌⊎◌, inl, inr, ◌↔◌,
  Option, some, List, [], ◌∷◌, arith, In, first, later, member, member-In,
}
use buildsyspp.Model.{PackageDepend, Package}
use buildsyspp.Depends.{
  targets, put_in, put_all, collect, get_depended_packages, get_staging_packages, Depends, IsRanked,
}

-- `e` is a dependency of `q`, or of a package that `q` reaches and that lets pass.
pub data Reaches (pkgs : ℕ → Package) (passes : ℕ → Bool) (q : ℕ) : ℕ → Type 0 where
  direct : {e : ℕ} → Depends pkgs q e → Reaches pkgs passes q e
  onward :
      {d e : ℕ}
      → Reaches pkgs passes q d
      → passes d ≡ true
      → Depends pkgs d e
      → Reaches pkgs passes q e

module _ (pkgs : ℕ → Package) (passes : ℕ → Bool) where
  pub Reaches-trans :
      {q d e : ℕ}
      → Depends pkgs q d
      → passes d ≡ true
      → Reaches pkgs passes d e
      → Reaches pkgs passes q e
  Reaches-trans dep p (direct m) = onward (direct dep) p m
  Reaches-trans dep p (onward r p' m) = onward (Reaches-trans dep p r) p' m

  -- What holds of the set `r` that comes out for the set `s`, when the dependencies in `now` are
  -- put in.
  record Visits (q : ℕ) (now : List ℕ) (s r : List ℕ) : Type 0 where
    grows : (e : ℕ) → In e s → In e r
    takes : (e : ℕ) → In e now → In e r
    closed :
        (x : ℕ)
        → In x r
        → In x s
          ⊎ ((passes x ≡ true → (e : ℕ) → Depends pkgs x e → In e r) × Reaches pkgs passes q x)

  abbrev Found : ℕ → List ℕ → List ℕ → Option (List ℕ) → Type 0
  Found q now s o = (r : List ℕ) × (o ≡ some r) × Visits q now s r

  abbrev all_of : ℕ → List ℕ
  all_of q = targets (pkgs q).depends

  -- One dependency that was not in the set before.
  put_new :
      (q d : ℕ) (s r : List ℕ)
      → Depends pkgs q d
      → passes d ≡ true
      → Visits d (all_of d) (d ∷ s) r
      → Visits q (d ∷ []) s r
  put_new q d s r dep p v = record {
    grows = λ e m. v.grows e (later m);
    takes = λ e m. v.grows e (only m);
    closed = λ x m. from_closed (v.closed x m);
  }
    where
      only : {e : ℕ} → In e (d ∷ []) → In e (d ∷ s)
      only first = first
      only (later m) = elim m [ ]

      from_closed :
          {x : ℕ}
          → In x (d ∷ s)
            ⊎ ((passes x ≡ true → (e : ℕ) → Depends pkgs x e → In e r) × Reaches pkgs passes d x)
          → In x s
            ⊎ ((passes x ≡ true → (e : ℕ) → Depends pkgs x e → In e r) × Reaches pkgs passes q x)
      from_closed (inl first) = inr (λ _ e m. v.takes e m, direct dep)
      from_closed (inl (later m)) = inl m
      from_closed (inr (c, reach)) = inr (c, Reaches-trans dep p reach)

  put_stop :
      (q d : ℕ) (s : List ℕ) → Depends pkgs q d → passes d ≡ false → Visits q (d ∷ []) s (d ∷ s)
  put_stop q d s dep p = record {
    grows = λ e m. later m;
    takes = λ e m. only m;
    closed = λ x m. split m;
  }
    where
      only : {e : ℕ} → In e (d ∷ []) → In e (d ∷ s)
      only first = first
      only (later m) = elim m [ ]

      split :
          {x : ℕ}
          → In x (d ∷ s)
          → In x s
            ⊎ ((passes x ≡ true → (e : ℕ) → Depends pkgs x e → In e (d ∷ s))
                × Reaches pkgs passes q x)
      split first = inr (λ t. cc, direct dep)
      split (later m) = inl m

  put_old : (q d : ℕ) (s : List ℕ) → In d s → Visits q (d ∷ []) s s
  put_old q d s m = record { grows = λ e k. k; takes = λ e k. only k; closed = λ x k. inl k }
    where
      only : {e : ℕ} → In e (d ∷ []) → In e s
      only first = m
      only (later k) = elim k [ ]

  put_then :
      (q d : ℕ) (ds s t r : List ℕ)
      → Visits q (d ∷ []) s t
      → Visits q ds t r
      → Visits q (d ∷ ds) s r
  put_then q d ds s t r v w = record {
    grows = λ e m. w.grows e (v.grows e m);
    takes = λ e m. each m;
    closed = λ x m. either (w.closed x m);
  }
    where
      each : {e : ℕ} → In e (d ∷ ds) → In e r
      each first = w.grows d (v.takes d first)
      each (later m) = w.takes _ m

      widen :
          {x : ℕ}
          → In x s
            ⊎ ((passes x ≡ true → (e : ℕ) → Depends pkgs x e → In e t) × Reaches pkgs passes q x)
          → In x s
            ⊎ ((passes x ≡ true → (e : ℕ) → Depends pkgs x e → In e r) × Reaches pkgs passes q x)
      widen (inl m) = inl m
      widen (inr (c, reach)) = inr (λ p e m. w.grows e (c p e m), reach)

      either :
          {x : ℕ}
          → In x t
            ⊎ ((passes x ≡ true → (e : ℕ) → Depends pkgs x e → In e r) × Reaches pkgs passes q x)
          → In x s
            ⊎ ((passes x ≡ true → (e : ℕ) → Depends pkgs x e → In e r) × Reaches pkgs passes q x)
      either (inl m) = widen (v.closed _ m)
      either (inr c) = inr c

  module _ (rank : ℕ → ℕ) (ranked : IsRanked pkgs rank) where
    put_in-Found :
        (visit : ℕ → List ℕ → Option (List ℕ)) (q d : ℕ) (s : List ℕ)
        → Found d (all_of d) (d ∷ s) (visit d (d ∷ s))
        → Depends pkgs q d
        → Found q (d ∷ []) s (put_in visit passes d s)
    put_in-Found visit q d s found dep = elim (Bool-cases (member d s)) [
      | inl e ↦ rw e (s, refl, put_old q d s (member-In d s e))
      | inr e ↦ elim (Bool-cases (passes d)) [
        | inl p ↦ rw (e, p) (found.0, found.1, put_new q d s found.0 dep p found.2)
        | inr p ↦ rw (e, p) (d ∷ s, refl, put_stop q d s dep p)
      ]
    ]

    put_all-Found :
        (visit : ℕ → List ℕ → Option (List ℕ)) (q : ℕ) (ds : List PackageDepend) (s : List ℕ)
        → ((d : ℕ) (t : List ℕ) → Depends pkgs q d → Found d (all_of d) t (visit d t))
        → ((d : ℕ) → In d (targets ds) → Depends pkgs q d)
        → Found q (targets ds) s (put_all visit passes ds s)
    unfolding put_all
    put_all-Found visit q [] s found part =
        (s, refl, record { grows = λ e m. m; takes = λ e m. elim m [ ]; closed = λ x m. inl m })
    put_all-Found visit q (d ∷ ds) s found part =
        let here = part d.target first in
        let (t, e, v) = put_in-Found visit q d.target s (found d.target (d.target ∷ s) here) here in
        let (r, e', w) = put_all-Found visit q ds t found (λ x m. part x (later m)) in
        (r, rw (e, put_all) e', put_then q d.target (targets ds) s t r v w)

    collect-Found :
        (fuel q : ℕ) (s : List ℕ)
        → rank q < fuel
        → Found q (all_of q) s (collect pkgs passes fuel q s)
    unfolding collect
    collect-Found zero q s h = absurd (omega arith)
    collect-Found (suc fuel) q s h =
        put_all-Found (λ d t. collect pkgs passes fuel d t) q (pkgs q).depends s
          (λ d t dep. collect-Found fuel d t (omega (arith, ranked q d dep))) (λ d m. m)

    collect_lem :
        (fuel q : ℕ)
        → rank q < fuel
        → (r : List ℕ) × (collect pkgs passes fuel q [] ≡ some r)
          × ((e : ℕ) → In e r ↔ Reaches pkgs passes q e)
    collect_lem fuel q h = (found.0, found.1, λ e. (sound e, complete))
      where
        found : Found q (all_of q) [] (collect pkgs passes fuel q [])
        found = collect-Found fuel q [] h

        visits : Visits q (all_of q) [] found.0
        visits = found.2

        sound : (e : ℕ) → In e found.0 → Reaches pkgs passes q e
        sound e m = elim (visits.closed e m) [ inl k ↦ elim k [ ] | inr c ↦ c.1 ]

        complete : {e : ℕ} → Reaches pkgs passes q e → In e found.0
        complete (direct m) = visits.takes _ m
        complete (onward {d = d} r p m) = elim (visits.closed d (complete r)) [
          | inl k ↦ elim k [ ]
          | inr c ↦ c.0 p _ m
        ]

-- Without a dependency loop the staging directory of a package is populated from exactly the
-- packages that it reaches by dependencies without going through a package that intercepts staging
-- (such a package itself is included); the traversal ends within a depth above the package's rank.
pub get_staging_packages-Reaches :
    (pkgs : ℕ → Package) (rank : ℕ → ℕ)
    → IsRanked pkgs rank
    → (fuel q : ℕ) → rank q < fuel
    → (r : List ℕ) × (get_staging_packages pkgs fuel q [] ≡ some r)
      × ((e : ℕ) → In e r ↔ Reaches pkgs (λ d. not (pkgs d).intercept_staging) q e)
unfolding get_staging_packages
get_staging_packages-Reaches pkgs rank ranked = collect_lem pkgs _ rank ranked

-- The same for the packages whose installed files are extracted: with the children left out these
-- are the direct dependencies, and otherwise those that are reached without going through a package
-- that intercepts installation, unless that is to be ignored.
pub get_depended_packages-Reaches :
    (pkgs : ℕ → Package) (rank : ℕ → ℕ)
    → IsRanked pkgs rank
    → (include_children ignore_intercept : Bool) (fuel q : ℕ) → rank q < fuel
    → (r : List ℕ) × (get_depended_packages pkgs include_children ignore_intercept fuel q []
        ≡ some r)
      × ((e : ℕ)
          → In e r
            ↔ Reaches pkgs
                (λ d. include_children && (ignore_intercept || not (pkgs d).intercept_install))
                q
                e)
unfolding get_depended_packages
get_depended_packages-Reaches pkgs rank ranked include_children ignore_intercept =
    collect_lem pkgs _ rank ranked
