-- ===== src/Package/Steps.antt =====
-- The steps of a build end, and leave alone what the other packages read of a package.
use buildsyspp.Shared.{
  ℕ, ◌<◌, ◌≡◌, refl, Bool, true, false, not, Option, none, some, List, [], ◌∷◌, Text,
}
use buildsyspp.Host.{Host}
use buildsyspp.Effects.Quiet.{IsQuiet, IsQuiet-bind, IsQuiet-pure, IsQuiet-if, quiet}
use buildsyspp.BuildInfo.{BuildDescription}
use buildsyspp.Model.{Settings, PackageDepend, Package, set_progress}
use buildsyspp.Depends.{get_staging_packages, get_depended_packages, IsRanked}
use buildsyspp.Depends.Reached.{get_staging_packages-Reaches, get_depended_packages-Reaches}
use buildsyspp.Files.Calls.{Act, seen, calls, run-IsQuiet, create_directories-IsQuiet}
use buildsyspp.Files.Searches.{searches}
use buildsyspp.Fetch.Steps.{marks, set_progress-IsQuiet, fetch_source_info-IsQuiet}
use buildsyspp.Extraction.Steps.{extraction_info-IsQuiet, extraction_source_info-IsQuiet}
use buildsyspp.Package.Outputs.{
  extract_staging, copy_out, extract_install, extract_each, known_set, clean_dir,
  prepare_build_dirs, extract_install_depends, package_new_staging, copy_in, package_new_install,
  clean_staging, clean,
}
use buildsyspp.Package.Info.{
  set_info_hash, update_build_info_hash_existing, update_build_info_hash, build_info,
  write_build_info_file, describe, add_depends, prepare_build_info, write_fetch_info,
  update_build_info,
}
use buildsyspp.Package.Cache.{CacheFile, ff_file, ff_files, fetch_from, should_build}

module _ (h : Host) (cfg : Settings) (pkgs : ℕ → Package) where
  extract_staging-IsQuiet :
      (dir : Text) (q : ℕ) → IsQuiet (seen h marks) (extract_staging h cfg pkgs dir q)
  unfolding extract_staging
  extract_staging-IsQuiet dir q = search calls

  copy_out-IsQuiet :
      (dir : Text) (p : Package) (fs : List Text)
      → IsQuiet (seen h marks) (copy_out h cfg pkgs dir p fs)
  unfolding copy_out
  copy_out-IsQuiet dir p [] = search quiet
  copy_out-IsQuiet dir p (f ∷ fs) =
      let rest = copy_out-IsQuiet dir p fs in search (quiet, calls) depth 7

  extract_install-IsQuiet :
      (dir : Text) (q : ℕ) → IsQuiet (seen h marks) (extract_install h cfg pkgs dir q)
  unfolding extract_install
  extract_install-IsQuiet dir q = by_files (pkgs q).install_files refl
    where
      by_files :
          (fs : List Text)
          → (pkgs q).install_files ≡ fs
          → IsQuiet (seen h marks) (extract_install h cfg pkgs dir q)
      by_files [] e = rw (e, extract_install) (search calls)
      by_files (f ∷ fs) e = rw (e, extract_install) (copy_out-IsQuiet dir (pkgs q) (f ∷ fs))

  extract_each-IsQuiet :
      (extract : ℕ → Act h Bool) (qs : List ℕ)
      → ((q : ℕ) → IsQuiet (seen h marks) (extract q))
      → IsQuiet (seen h marks) (extract_each h cfg pkgs extract qs)
  unfolding extract_each
  extract_each-IsQuiet extract [] each = search quiet
  extract_each-IsQuiet extract (q ∷ qs) each =
      let rest = extract_each-IsQuiet extract qs each in search (quiet, each) depth 9

  known_set-IsQuiet :
      (o : Option (List ℕ)) (r : List ℕ)
      → o ≡ some r
      → IsQuiet (seen h marks) (known_set h cfg pkgs o)
  known_set-IsQuiet none r e = cc
  known_set-IsQuiet (some packages) r e = IsQuiet-pure packages

  clean_dir-IsQuiet : (dir : Text) → IsQuiet (seen h marks) (clean_dir h cfg pkgs dir)
  unfolding clean_dir
  clean_dir-IsQuiet dir = search (quiet, calls)

  pub clean-IsQuiet : (q : ℕ) → IsQuiet (seen h marks) (clean h cfg pkgs q)
  unfolding clean
  clean-IsQuiet q = clean_dir-IsQuiet (pkgs q).bd.path

  module _ (rank : ℕ → ℕ) (ranked : IsRanked pkgs rank) where
    pub prepare_build_dirs-IsQuiet :
        (fuel q : ℕ) → rank q < fuel → IsQuiet (seen h marks) (prepare_build_dirs h cfg pkgs fuel q)
    unfolding prepare_build_dirs
    prepare_build_dirs-IsQuiet fuel q enough =
        let (r, e, _) = get_staging_packages-Reaches pkgs rank ranked fuel q enough in
        let set = known_set-IsQuiet (get_staging_packages pkgs fuel q []) r e in
        let each = extract_each-IsQuiet (extract_staging h cfg pkgs (pkgs q).bd.staging) in
        IsQuiet-bind _ _ (clean_dir-IsQuiet _) (λ _. IsQuiet-bind _ _ (clean_dir-IsQuiet _) (λ _.
          IsQuiet-bind _ _ (clean_dir-IsQuiet _)
            (λ _. IsQuiet-bind _ _ set (λ qs. each qs (extract_staging-IsQuiet _)))))

    pub extract_install_depends-IsQuiet :
        (fuel q : ℕ)
        → rank q < fuel
        → IsQuiet (seen h marks) (extract_install_depends h cfg pkgs fuel q)
    unfolding extract_install_depends
    extract_install_depends-IsQuiet fuel q enough =
        let deep = not (pkgs q).deps_extraction_direct_only in
        let (r, e, _) = get_depended_packages-Reaches pkgs rank ranked deep false fuel q enough in
        let set = known_set-IsQuiet (get_depended_packages pkgs deep false fuel q []) r e in
        let each = λ (qs : List ℕ).
          extract_each-IsQuiet (extract_install h cfg pkgs (pkgs q).deps_extraction) qs
            (extract_install-IsQuiet _) in
        IsQuiet-if _ _ _ (IsQuiet-pure true) (
          IsQuiet-bind _ _ (run-IsQuiet h marks _) (λ removed.
            IsQuiet-if removed _ _
              (IsQuiet-bind _ _ (create_directories-IsQuiet h marks _)
                (λ _. IsQuiet-bind _ _ set each))
              (IsQuiet-pure false)))

  pub package_new_staging-IsQuiet :
      (q : ℕ) → IsQuiet (seen h marks) (package_new_staging h cfg pkgs q)
  unfolding package_new_staging
  package_new_staging-IsQuiet q = search calls

  copy_in-IsQuiet :
      (p : Package) (fs : List Text) → IsQuiet (seen h marks) (copy_in h cfg pkgs p fs)
  unfolding copy_in
  copy_in-IsQuiet p [] = search quiet
  copy_in-IsQuiet p (f ∷ fs) = let rest = copy_in-IsQuiet p fs in search (quiet, calls) depth 7

  pub package_new_install-IsQuiet :
      (q : ℕ) → IsQuiet (seen h marks) (package_new_install h cfg pkgs q)
  unfolding package_new_install
  package_new_install-IsQuiet q = by_files (pkgs q).install_files refl
    where
      by_files :
          (fs : List Text)
          → (pkgs q).install_files ≡ fs
          → IsQuiet (seen h marks) (package_new_install h cfg pkgs q)
      by_files [] e = rw (e, package_new_install) (search calls)
      by_files (f ∷ fs) e = rw (e, package_new_install) (copy_in-IsQuiet (pkgs q) (f ∷ fs))

  pub clean_staging-IsQuiet : (q : ℕ) → IsQuiet (seen h marks) (clean_staging h cfg pkgs q)
  unfolding clean_staging
  clean_staging-IsQuiet q = search (quiet, calls)

module _ (h : Host) (replace_all : Text → Text → Text → Text) (cfg : Settings)
    (pkgs : ℕ → Package) where
  set_info_hash-IsQuiet :
      (q : ℕ) (hash : Text) → IsQuiet (seen h marks) (set_info_hash h replace_all cfg pkgs q hash)
  unfolding set_info_hash
  set_info_hash-IsQuiet q hash = set_progress-IsQuiet h q _ (λ r. refl)

  pub update_build_info_hash_existing-IsQuiet :
      (q : ℕ) → IsQuiet (seen h marks) (update_build_info_hash_existing h replace_all cfg pkgs q)
  unfolding update_build_info_hash_existing
  update_build_info_hash_existing-IsQuiet q = search (quiet, searches, set_info_hash-IsQuiet)

  update_build_info_hash-IsQuiet :
      (q : ℕ) → IsQuiet (seen h marks) (update_build_info_hash h replace_all cfg pkgs q)
  unfolding update_build_info_hash
  update_build_info_hash-IsQuiet q = search (quiet, searches, set_info_hash-IsQuiet)

  build_info-IsQuiet : (q : ℕ) → IsQuiet (seen h marks) (build_info h replace_all cfg pkgs q)
  unfolding build_info
  build_info-IsQuiet q = search (quiet, searches) depth 9

  write_build_info_file-IsQuiet :
      (q : ℕ) → IsQuiet (seen h marks) (write_build_info_file h replace_all cfg pkgs q)
  unfolding write_build_info_file
  write_build_info_file-IsQuiet q = search (quiet, calls, update_build_info_hash-IsQuiet) depth 9

  describe-IsQuiet :
      (q : ℕ) (f : BuildDescription → BuildDescription)
      → IsQuiet (seen h marks) (describe h replace_all cfg pkgs q f)
  unfolding describe
  describe-IsQuiet q f = set_progress-IsQuiet h q _ (λ r. refl)

  add_depends-IsQuiet :
      (q : ℕ) (ds : List PackageDepend)
      → IsQuiet (seen h marks) (add_depends h replace_all cfg pkgs q ds)
  unfolding add_depends
  add_depends-IsQuiet q [] = search quiet
  add_depends-IsQuiet q (d ∷ ds) =
      let rest = add_depends-IsQuiet q ds in
      search (quiet, build_info-IsQuiet, describe-IsQuiet) depth 9

  prepared-IsQuiet :
      (q : ℕ)
      → IsQuiet (seen h marks) (set_progress h q (λ r. record r { build_info_prepared = true }))
  prepared-IsQuiet q = set_progress-IsQuiet h q _ (λ r. refl)

  pub prepare_build_info-IsQuiet :
      (q : ℕ) → IsQuiet (seen h marks) (prepare_build_info h replace_all cfg pkgs q)
  unfolding prepare_build_info
  prepare_build_info-IsQuiet q =
      search
        (
          quiet, calls, extraction_info-IsQuiet, write_build_info_file-IsQuiet, describe-IsQuiet,
          add_depends-IsQuiet, prepared-IsQuiet,
        )
        depth 12

  pub write_fetch_info-IsQuiet :
      (q : ℕ) → IsQuiet (seen h marks) (write_fetch_info h replace_all cfg pkgs q)
  unfolding write_fetch_info
  write_fetch_info-IsQuiet q =
      search (quiet, calls, fetch_source_info-IsQuiet, extraction_source_info-IsQuiet) depth 9

  pub update_build_info-IsQuiet :
      (q : ℕ) (update_output_hash : Bool)
      → IsQuiet (seen h marks) (update_build_info h replace_all cfg pkgs q update_output_hash)
  unfolding update_build_info
  update_build_info-IsQuiet q update_output_hash = search (quiet, calls) depth 9

  ff_file-IsQuiet :
      (q : ℕ) (hash : Text) (f : CacheFile)
      → IsQuiet (seen h marks) (ff_file h replace_all cfg pkgs q hash f)
  unfolding ff_file
  ff_file-IsQuiet q hash f = search (quiet, calls) depth 9

  ff_files-IsQuiet :
      (q : ℕ) (hash : Text) (fs : List CacheFile)
      → IsQuiet (seen h marks) (ff_files h replace_all cfg pkgs q hash fs)
  unfolding ff_files
  ff_files-IsQuiet q hash [] = search quiet
  ff_files-IsQuiet q hash (f ∷ fs) =
      IsQuiet-bind _ _ (ff_file-IsQuiet q hash f)
        (λ failed. IsQuiet-if failed _ _ (IsQuiet-pure true) (ff_files-IsQuiet q hash fs))

  fetch_from-IsQuiet : (q : ℕ) → IsQuiet (seen h marks) (fetch_from h replace_all cfg pkgs q)
  unfolding fetch_from
  fetch_from-IsQuiet q = search (quiet, ff_files-IsQuiet, update_build_info-IsQuiet) depth 9

  pub should_build-IsQuiet :
      (q : ℕ) → IsQuiet (seen h marks) (should_build h replace_all cfg pkgs q)
  unfolding should_build
  should_build-IsQuiet q = search (quiet, calls, fetch_from-IsQuiet) depth 12
