-- ===== src/Build.antt =====
-- src/package.cpp: Package::build. The lock that a build holds is not modelled: within one thread
-- the calls nest along the dependencies, and a package that came to wait for itself would be one on
-- a dependency loop, which `fuel`, the depth of the nesting, makes an outcome of its own.
pub mod Rules
pub mod Parts
pub mod Complete
pub mod Decision
use buildsyspp.Shared.{
  ℕ, zero, suc, ◌+◌, ◌-◌, ◌≡◌, Bool, true, false, not, ◌&&◌, ◌||◌, Option, none, some, List, [],
  ◌∷◌, Text, if◌then◌else◌,
}
use buildsyspp.Host.{Host}
use buildsyspp.Effects.{Action, pure, gets, when, out_of_fuel, ◌>>=◌, ◌>>◌}
use buildsyspp.Command.{PackageCmd}
use buildsyspp.Model.{Settings, PackageDepend, Package, Progress, Sys, set_progress}
use buildsyspp.Files.Calls.{Act, run}
use buildsyspp.Fetch.{fetch_all}
use buildsyspp.Extraction.{prepare_new_extract_info, extraction_required, extract}
use buildsyspp.Package.Outputs.{
  should_suppress_building, prepare_build_dirs, extract_install_depends, package_new_staging,
  package_new_install, clean_staging, clean,
}
use buildsyspp.Package.Info.{
  update_build_info_hash_existing, prepare_build_info, write_fetch_info, update_build_info,
}
use buildsyspp.Package.Cache.{should_build}

module _ (h : Host) (replace_all : Text → Text → Text → Text) (cfg : Settings)
    (pkgs : ℕ → Package) where
  unfoldable pub run_commands : List PackageCmd → Act h Bool
  run_commands [] = pure true
  run_commands (c ∷ cs) = do
    done ← run h c
    let rest = run_commands cs
    if done then rest else pure false

  unfoldable pub set_built : ℕ → Act h (Unit {0})
  set_built q = set_progress h q (λ r. record r { built = true })

  unfoldable pub set_finished : ℕ → ℕ → Act h (Unit {0})
  set_finished q secs =
      set_progress h q
        (λ r. record r { run_secs = secs; building = false; built = true; was_built = true })

  -- Already built: pretend to build successfully.
  abbrev pub already_built : Bool → Progress → Bool
  already_built locally r = (locally && r.was_built) || (not locally && r.built)

  -- `if(!m) { return false; } k`
  abbrev pub and_also : Act h Bool → Act h Bool → Act h Bool
  and_also m k = m >>= λ done. if done then k else pure false

  -- The loop that builds the dependencies, with the call for one of them.
  unfoldable pub build_depends : (ℕ → Act h Bool) → List PackageDepend → Act h Bool
  build_depends build_one [] = pure true
  build_depends build_one (d ∷ ds) = and_also (build_one d.target) (build_depends build_one ds)

  -- The loop that builds those which must have been built locally.
  unfoldable pub build_local_depends : (ℕ → Act h Bool) → List PackageDepend → Act h Bool
  build_local_depends build_one [] = pure true
  build_local_depends build_one (d ∷ ds) =
      and_also (if d.locally then build_one d.target else pure true)
        (build_local_depends build_one ds)

  unfoldable pub extract_if_required : ℕ → Act h Bool
  extract_if_required q = do
    required ← extraction_required h replace_all cfg q (pkgs q)
    if required then extract h replace_all cfg q (pkgs q) else pure true

  unfoldable pub conclude : ℕ → Act h Bool
  conclude q = do
    clean_staging h cfg pkgs q
    update_build_info h replace_all cfg pkgs q true
    pure true

  -- The part that is skipped when buildsys only fetches.
  unfoldable pub make : ℕ → ℕ → Act h Bool
  unfolding run_commands extract_if_required conclude
  make fuel q = and_also (extract_if_required q) (
      and_also (prepare_build_dirs h cfg pkgs fuel q) (
        and_also (extract_install_depends h cfg pkgs fuel q) (
          and_also (run_commands (pkgs q).commands) (
            and_also (package_new_staging h cfg pkgs q)
              (and_also (package_new_install h cfg pkgs q) (conclude q))))))

  unfoldable pub finish : ℕ → ℕ → Act h Bool
  unfolding set_finished
  finish q start = do end ← gets (λ s. h.seconds s.disk); set_finished q (end - start); pure true

  unfoldable pub fetch_and_make : ℕ → Bool → ℕ → Act h Bool
  unfolding make finish
  fetch_and_make fuel fetch_only q = and_also (fetch_all h cfg q (pkgs q) (pkgs q).fetch) do
    start ← gets (λ s. h.seconds s.disk)
    and_also (if fetch_only then pure true else make fuel q) (finish q start)

  unfoldable pub suppressed : ℕ → Act h Bool
  unfolding set_built
  suppressed q = do update_build_info_hash_existing h replace_all cfg pkgs q; set_built q; pure true

  unfoldable pub not_required : ℕ → Act h Bool
  unfolding set_built
  not_required q = do set_built q; pure true

  -- What `build` does once the dependencies are built.
  unfoldable pub prepare : Bool → Bool → ℕ → Act h Bool
  prepare locally fetch_only q = do
    when (pkgs q).clean_before_build (clean h cfg pkgs q)
    prepare_new_extract_info h replace_all cfg q (pkgs q)
    write_fetch_info h replace_all cfg pkgs q
    when (not fetch_only) (prepare_build_info h replace_all cfg pkgs q)
    if locally then pure true else should_build h replace_all cfg pkgs q

  unfoldable pub build_here : (ℕ → Act h Bool) → ℕ → Bool → Bool → ℕ → Act h Bool
  unfolding suppressed not_required prepare build_local_depends fetch_and_make
  build_here build_local fuel locally fetch_only q =
      if should_suppress_building cfg (pkgs q) then suppressed q else do
        required ← prepare locally fetch_only q
        if required
            then and_also (build_local_depends build_local (pkgs q).depends)
                (fetch_and_make fuel fetch_only q)
            else not_required q

  unfoldable pub build : ℕ → Bool → Bool → ℕ → Act h Bool
  unfolding build_depends build_here
  build zero locally fetch_only q = out_of_fuel
  build (suc fuel) locally fetch_only q = do
    already ← gets (λ s. already_built locally (s.progress q))
    if already
        then pure true
        else and_also (build_depends (λ d. build fuel false fetch_only d) (pkgs q).depends)
            (build_here (λ d. build fuel true fetch_only d) (suc fuel) locally fetch_only q)
