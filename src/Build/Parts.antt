-- ===== src/Build/Parts.antt =====
-- The parts of Package::build: what they leave built.
use buildsyspp.Shared.{
  ℕ, zero, suc, ◌<◌, ◌≡◌, refl, Bool, true, false, not, ◌&&◌, ◌||◌, ◌⊎◌, inl, inr, List, [], ◌∷◌,
  arith, In, first, later, Text, if◌then◌else◌,
}
use buildsyspp.Host.{Host}
use buildsyspp.Effects.{pure, gets, ◌>>=◌}
use buildsyspp.Effects.Quiet.{IsQuiet, IsQuiet-bind, IsQuiet-pure, IsQuiet-if, IsQuiet-gets, quiet}
use buildsyspp.Command.{PackageCmd}
use buildsyspp.Model.{Settings, PackageDepend, Package, Progress}
use buildsyspp.Depends.{targets, Depends, IsRanked}
use buildsyspp.Files.Calls.{Act, seen, calls}
use buildsyspp.Fetch.Steps.{marks, fetch_all-IsQuiet}
use buildsyspp.Extraction.Steps.{
  prepare_new_extract_info-IsQuiet, extraction_required-IsQuiet, extract-IsQuiet,
}
use buildsyspp.Package.Steps.{
  prepare_build_dirs-IsQuiet, extract_install_depends-IsQuiet, package_new_staging-IsQuiet,
  package_new_install-IsQuiet, clean_staging-IsQuiet, clean-IsQuiet,
  update_build_info_hash_existing-IsQuiet, prepare_build_info-IsQuiet, write_fetch_info-IsQuiet,
  update_build_info-IsQuiet, should_build-IsQuiet,
}
use buildsyspp.Package.Outputs.{should_suppress_building}
use buildsyspp.Build.{
  run_commands, build_depends, build_local_depends, extract_if_required, conclude, make, finish,
  fetch_and_make, suppressed, not_required, prepare, build_here, build, already_built,
}
use buildsyspp.Build.Rules.{
  Builds, Both, Builds-bind, Builds-pure, Builds-if, Builds-quiet, Builds-set, Builds-map,
}

module _ (h : Host) (replace_all : Text → Text → Text → Text) (cfg : Settings)
    (pkgs : ℕ → Package) where
  run_commands-IsQuiet :
      (cs : List PackageCmd) → IsQuiet (seen h marks) (run_commands h replace_all cfg pkgs cs)
  unfolding run_commands
  run_commands-IsQuiet [] = search quiet
  run_commands-IsQuiet (c ∷ cs) =
      let rest = run_commands-IsQuiet cs in search (quiet, calls) depth 7

  extract_if_required-IsQuiet :
      (q : ℕ) → IsQuiet (seen h marks) (extract_if_required h replace_all cfg pkgs q)
  unfolding extract_if_required
  extract_if_required-IsQuiet q =
      search (quiet, extraction_required-IsQuiet, extract-IsQuiet) depth 7

  conclude-IsQuiet : (q : ℕ) → IsQuiet (seen h marks) (conclude h replace_all cfg pkgs q)
  unfolding conclude
  conclude-IsQuiet q = search (quiet, clean_staging-IsQuiet, update_build_info-IsQuiet) depth 7

  also :
      (m k : Act h Bool)
      → IsQuiet (seen h marks) m
      → IsQuiet (seen h marks) k
      → IsQuiet (seen h marks) (m >>= λ done. if done then k else pure false)
  also m k hm hk = IsQuiet-bind _ _ hm (λ done. IsQuiet-if done _ _ hk (IsQuiet-pure false))

  prepare-IsQuiet :
      (locally fetch_only : Bool) (q : ℕ)
      → IsQuiet (seen h marks) (prepare h replace_all cfg pkgs locally fetch_only q)
  unfolding prepare
  prepare-IsQuiet locally fetch_only q =
      search
        (
          quiet, clean-IsQuiet, prepare_new_extract_info-IsQuiet, write_fetch_info-IsQuiet,
          prepare_build_info-IsQuiet, should_build-IsQuiet,
        )
        depth 12

  -- If the action returns true, then `q` is built.
  abbrev pub OnTrue : (ℕ → Type 0) → Bool → ℕ → Type 0
  OnTrue P a e = (a ≡ true) × P e

  abbrev pub Just : ℕ → ℕ → Type 0
  Just q e = e ≡ q

  abbrev AllOf : List PackageDepend → ℕ → Type 0
  AllOf ds e = In e (targets ds)

  false_stop : {K P : ℕ → Type 0} → Builds pkgs h K (pure false) (OnTrue P)
  false_stop = Builds-pure pkgs h false _ (λ e c. absurd (differ c.0))
    where
      differ : false ≡ true → ⊥
      differ e = cc

  chain :
      {K P R : ℕ → Type 0} (m k : Act h Bool)
      → Builds pkgs h K m (OnTrue P)
      → ((L : ℕ → Type 0)
          → ((e : ℕ) → K e → L e)
          → ((e : ℕ) → P e → L e)
          → Builds pkgs h L k (OnTrue R))
      → Builds pkgs h K (m >>= λ done. if done then k else pure false) (OnTrue R)
  chain m k hm hk = Builds-bind pkgs h m _ _ _ hm λ done.
      Builds-if pkgs h done _ _ (λ t. hk _ (λ e l. inl l) (λ e p. inr (t, p))) (λ _. false_stop)

  -- A quiet action in such a chain.
  quietly :
      {K : ℕ → Type 0} (m : Act h Bool)
      → IsQuiet (seen h marks) m
      → Builds pkgs h K m (OnTrue (λ e. ⊥))
  quietly m hm = Builds-quiet pkgs h m _ hm (λ a e c. absurd c.1)

  silently :
      {K : ℕ → Type 0} {A : Type 0} (m : Act h A)
      → IsQuiet (seen h marks) m
      → Builds pkgs h K m (λ a e. ⊥)
  silently m hm = Builds-quiet pkgs h m _ hm (λ a e c. absurd c)

  then_true :
      {K : ℕ → Type 0} (m : Act h (Unit {0})) (q : ℕ)
      → Builds pkgs h K m (λ a e. e ≡ q)
      → Builds pkgs h K (m >>= λ _. pure true) (OnTrue (Just q))
  then_true m q hm = Builds-bind pkgs h m _ _ _ hm (λ u. Builds-pure pkgs h true _ (λ e c. inr c.1))

  module _ (rank : ℕ → ℕ) (ranked : IsRanked pkgs rank) where
    make-IsQuiet :
        (fuel q : ℕ) → rank q < fuel → IsQuiet (seen h marks) (make h replace_all cfg pkgs fuel q)
    unfolding make
    make-IsQuiet fuel q enough = also _ _ (extract_if_required-IsQuiet q) (
        also _ _ (prepare_build_dirs-IsQuiet h cfg pkgs rank ranked fuel q enough) (
          also _ _ (extract_install_depends-IsQuiet h cfg pkgs rank ranked fuel q enough) (
            also _ _ (run_commands-IsQuiet (pkgs q).commands) (
              also _ _ (package_new_staging-IsQuiet h cfg pkgs q)
                (also _ _ (package_new_install-IsQuiet h cfg pkgs q) (conclude-IsQuiet q))))))

    -- The steps that mark a package, once its dependencies are built.
    finish-Builds :
        {K : ℕ → Type 0} (q start : ℕ)
        → ((e : ℕ) → Depends pkgs q e → K e)
        → Builds pkgs h K (finish h replace_all cfg pkgs q start) (OnTrue (Just q))
    unfolding finish
    finish-Builds q start deps =
        Builds-bind pkgs h _ _ _ _ (silently _ (IsQuiet-gets _))
          (λ end. then_true _ q (Builds-set pkgs h q _ (λ r. refl) (λ e d. inl (deps e d))))

    fetch_and_make-Builds :
        {K : ℕ → Type 0} (fuel : ℕ) (fetch_only : Bool) (q : ℕ)
        → rank q < fuel
        → ((e : ℕ) → Depends pkgs q e → K e)
        → Builds pkgs h K
            (fetch_and_make h replace_all cfg pkgs fuel fetch_only q)
            (OnTrue (Just q))
    unfolding fetch_and_make
    fetch_and_make-Builds fuel fetch_only q enough deps =
        chain _ _ (quietly _ (fetch_all-IsQuiet h cfg q (pkgs q) (pkgs q).fetch)) λ L up _.
          Builds-bind pkgs h _ _ _ _ (silently _ (IsQuiet-gets _)) λ start.
            chain _ _
              (quietly _
                (IsQuiet-if fetch_only _ _ (IsQuiet-pure true) (make-IsQuiet fuel q enough)))
              (λ M up' _. finish-Builds q start (λ e d. up' e (inl (up e (deps e d)))))

    suppressed-Builds :
        {K : ℕ → Type 0} (q : ℕ)
        → ((e : ℕ) → Depends pkgs q e → K e)
        → Builds pkgs h K (suppressed h replace_all cfg pkgs q) (OnTrue (Just q))
    unfolding suppressed
    suppressed-Builds q deps =
        Builds-bind pkgs h _ _ _ _
          (silently _ (update_build_info_hash_existing-IsQuiet h replace_all cfg pkgs q))
          (λ _. then_true _ q (Builds-set pkgs h q _ (λ r. refl) (λ e d. inl (deps e d))))

    not_required-Builds :
        {K : ℕ → Type 0} (q : ℕ)
        → ((e : ℕ) → Depends pkgs q e → K e)
        → Builds pkgs h K (not_required h replace_all cfg pkgs q) (OnTrue (Just q))
    unfolding not_required
    not_required-Builds q deps = then_true _ q (Builds-set pkgs h q _ (λ r. refl) deps)

    build_depends-Builds :
        {K : ℕ → Type 0} (build_one : ℕ → Act h Bool) (ds : List PackageDepend)
        → ((d : ℕ)
            → In d (targets ds)
            → (L : ℕ → Type 0) → Builds pkgs h L (build_one d) (OnTrue (Just d)))
        → Builds pkgs h K (build_depends h replace_all cfg pkgs build_one ds) (OnTrue (AllOf ds))
    unfolding build_depends
    build_depends-Builds build_one [] each = Builds-pure pkgs h true _ (λ e c. elim c.1 [ ])
    build_depends-Builds {K} build_one (d ∷ ds) each =
        Builds-bind pkgs h _ _ _ _ (each d.target first K) λ done.
          Builds-if pkgs h done _ _
            (λ t.
              Builds-map pkgs h _ _ _ (build_depends-Builds build_one ds (λ x m. each x (later m)))
                (λ a e c. place t (c.0) (c.1)))
            (λ _. false_stop)
      where
        place :
            {a b : Bool} {e : ℕ}
            → a ≡ true
            → b ≡ true
            → In e (d.target ∷ targets ds)
            → Both pkgs h K (λ x. (a ≡ true) × (x ≡ d.target)) e ⊎ ((b ≡ true) × In e (targets ds))
        place t u first = inl (inr (t, refl))
        place t u (later m) = inr (u, m)

    build_local_depends-Builds :
        {K : ℕ → Type 0} (build_one : ℕ → Act h Bool) (ds : List PackageDepend)
        → ((d : ℕ)
            → In d (targets ds)
            → (L : ℕ → Type 0) → Builds pkgs h L (build_one d) (OnTrue (Just d)))
        → Builds pkgs h K
            (build_local_depends h replace_all cfg pkgs build_one ds)
            (OnTrue (λ e. ⊥))
    unfolding build_local_depends
    build_local_depends-Builds build_one [] each = Builds-pure pkgs h true _ (λ e c. absurd c.1)
    build_local_depends-Builds {K} build_one (d ∷ ds) each =
        chain _ _
          (Builds-if pkgs h d.locally _ _
            (λ _. Builds-map pkgs h _ _ _ (each d.target first K) (λ a e c. absurd c.1))
            (λ _. Builds-pure pkgs h true _ (λ e c. absurd c.1)))
          (λ L up _. build_local_depends-Builds build_one ds (λ x m. each x (later m)))

    build_here-Builds :
        {K : ℕ → Type 0} (build_local : ℕ → Act h Bool) (fuel : ℕ) (locally fetch_only : Bool)
        (q : ℕ)
        → rank q < fuel
        → ((d : ℕ)
            → Depends pkgs q d
            → (L : ℕ → Type 0) → Builds pkgs h L (build_local d) (OnTrue (Just d)))
        → ((e : ℕ) → Depends pkgs q e → K e)
        → Builds pkgs h K
            (build_here h replace_all cfg pkgs build_local fuel locally fetch_only q)
            (OnTrue (Just q))
    unfolding build_here
    build_here-Builds {K} build_local fuel locally fetch_only q enough each deps =
        Builds-if pkgs h (should_suppress_building cfg (pkgs q)) _ _ (λ _. suppressed-Builds q deps)
          λ _.
            Builds-bind pkgs h _ _ _ _ (silently _ (prepare-IsQuiet locally fetch_only q))
              λ required.
                Builds-if pkgs h required _ _
                  (λ _.
                    chain _ _ (build_local_depends-Builds build_local (pkgs q).depends each)
                      (λ L up _.
                        fetch_and_make-Builds fuel fetch_only q enough
                          (λ e d. up e (inl (deps e d)))))
                  (λ _. not_required-Builds q (λ e d. inl (deps e d)))

    already-Builds :
        {K : ℕ → Type 0} (locally : Bool) (q : ℕ)
        → Builds pkgs h K
            (gets (λ s. already_built h replace_all cfg pkgs locally (s.progress q)))
            (OnTrue (Just q))
    unfolding gets
    already-Builds locally q = record {
      run = λ s k. (k, λ e c. rw c.1 (shown locally (s.progress q) (k.local q) c.0));
    }
      where
        shown :
            (l : Bool) (r : Progress)
            → (r.was_built ≡ true → r.built ≡ true)
            → ((l && r.was_built) || (not l && r.built)) ≡ true
            → r.built ≡ true
        shown l r w e = ground arith

    pub build-Builds :
        (fuel : ℕ) (locally fetch_only : Bool) (q : ℕ)
        → rank q < fuel
        → (K : ℕ → Type 0)
        → Builds pkgs h K (build h replace_all cfg pkgs fuel locally fetch_only q) (OnTrue (Just q))
    unfolding build
    build-Builds zero locally fetch_only q enough K = absurd (omega arith)
    build-Builds (suc fuel) locally fetch_only q enough K =
        Builds-bind pkgs h _ _ _ _ (already-Builds locally q) λ already.
          Builds-if pkgs h already _ _ (λ t. Builds-pure pkgs h true _ (λ e c. inr (t, c.1)))
            λ _.
              chain _ _
                (build_depends-Builds _ (pkgs q).depends
                  (λ d m L. build-Builds fuel false fetch_only d (omega (arith, ranked q d m)) L))
                λ L up built.
                  build_here-Builds _ (suc fuel) locally fetch_only q enough
                    (λ d m M. build-Builds fuel true fetch_only d (omega (arith, ranked q d m)) M)
                    built
