-- ===== src/Package/Outputs.antt =====
-- src/package.cpp: the staging and install directories of a package and the archives made of them.
use buildsyspp.Shared.{
  ℕ, Bool, true, false, not, ◌&&◌, Option, none, some, List, [], ◌∷◌, ◌++◌, Text, text, empty,
  has_text, if◌then◌else◌,
}
use buildsyspp.Host.{Host}
use buildsyspp.Effects.{pure, when, out_of_fuel, ◌>>=◌, ◌>>◌}
use buildsyspp.Model.{Settings, Package}
use buildsyspp.Depends.{get_staging_packages, get_depended_packages}
use buildsyspp.Files.Calls.{Act, run, command, remove_all, create_directories}

-- TAR_CMD
abbrev pub tar_cmd : Text
tar_cmd = text "/bin/tar"

abbrev pub output_dir : Package → Text → Text
output_dir p kind = p.pwd ++ (text "/output/" ++ (p.ns_name ++ kind))

abbrev pub staging_tar : Package → Text
staging_tar p = output_dir p (text "/staging/" ++ (p.name ++ text ".tar"))

abbrev pub install_tar : Package → Text
install_tar p = output_dir p (text "/install/" ++ (p.name ++ text ".tar"))

abbrev pub installed_file : Package → Text → Text
installed_file p file = output_dir p (text "/install/" ++ file)

-- Package::is_forced_mode and Package::should_suppress_building
unfoldable pub is_forced_mode : Settings → Bool
is_forced_mode cfg = elim cfg.forced_packages [ [] ↦ false | n ∷ ns ↦ true ]

unfoldable pub should_suppress_building : Settings → Package → Bool
unfolding is_forced_mode
should_suppress_building cfg p = is_forced_mode cfg && not (has_text p.name cfg.forced_packages)

module _ (h : Host) (cfg : Settings) (pkgs : ℕ → Package) where
  abbrev pub extract_args : Text → List Text
  extract_args archive =
      text "--no-same-owner" ∷ text "-b" ∷ text "256" ∷ text "-xkf" ∷ archive ∷ []

  abbrev pub create_args : Text → List Text
  create_args archive =
      text "--numeric-owner" ∷ text "-b" ∷ text "256" ∷ text "-cf" ∷ archive ∷ text "." ∷ []

  unfoldable pub extract_staging : Text → ℕ → Act h Bool
  extract_staging dir q = run h (command h dir tar_cmd (extract_args (staging_tar (pkgs q))))

  -- The install files are copied one by one, up to the first that fails.
  unfoldable pub copy_out : Text → Package → List Text → Act h Bool
  copy_out dir p [] = pure true
  copy_out dir p (f ∷ fs) = do
    done ← run h (command h dir (text "cp") (installed_file p f ∷ f ∷ []))
    let rest = copy_out dir p fs
    if done then rest else pure false

  unfoldable pub extract_install : Text → ℕ → Act h Bool
  unfolding copy_out
  extract_install dir q = elim (pkgs q).install_files [
    | [] ↦ run h (command h dir tar_cmd (extract_args (install_tar (pkgs q))))
    | f ∷ fs ↦ copy_out dir (pkgs q) (f ∷ fs)
  ]

  -- The loop over a set of packages. In parallel every package is extracted, and the result says
  -- whether all were; otherwise the loop ends at the first that fails. The threads are taken to run
  -- one after the other.
  unfoldable pub extract_each : (ℕ → Act h Bool) → List ℕ → Act h Bool
  extract_each extract [] = pure true
  extract_each extract (q ∷ qs) = do
    done ← extract q
    let rest = extract_each extract qs
    let failed = (if cfg.extract_in_parallel then rest >> pure false else pure false)
    if done then rest else failed

  abbrev pub known_set : Option (List ℕ) → Act h (List ℕ)
  known_set none = out_of_fuel
  known_set (some packages) = pure packages

  unfoldable pub clean_dir : Text → Act h (Unit {0})
  clean_dir dir = do remove_all h dir; create_directories h dir

  unfoldable pub prepare_build_dirs : ℕ → ℕ → Act h Bool
  unfolding clean_dir extract_staging extract_each
  prepare_build_dirs fuel q = do
    clean_dir (pkgs q).bd.new_install
    clean_dir (pkgs q).bd.new_staging
    clean_dir (pkgs q).bd.staging
    packages ← known_set (get_staging_packages pkgs fuel q [])
    extract_each (extract_staging (pkgs q).bd.staging) packages

  unfoldable pub extract_install_depends : ℕ → ℕ → Act h Bool
  unfolding extract_install extract_each
  extract_install_depends fuel q = if empty (pkgs q).deps_extraction then pure true else do
    removed ←
        run h (command h (pkgs q).pwd (text "/bin/rm") (text "-fr" ∷ (pkgs q).deps_extraction ∷ []))
    if removed
        then (do
          create_directories h (pkgs q).deps_extraction
          packages ← known_set (
              get_depended_packages pkgs (not (pkgs q).deps_extraction_direct_only) false fuel q [])
          extract_each (extract_install (pkgs q).deps_extraction) packages)
        else pure false

  unfoldable pub package_new_staging : ℕ → Act h Bool
  package_new_staging q =
      run h (command h (pkgs q).bd.new_staging tar_cmd (create_args (staging_tar (pkgs q))))

  unfoldable pub copy_in : Package → List Text → Act h Bool
  copy_in p [] = pure true
  copy_in p (f ∷ fs) = do
    done ← run h (command h p.bd.new_install (text "cp") (f ∷ installed_file p f ∷ []))
    let rest = copy_in p fs
    if done then rest else pure false

  unfoldable pub package_new_install : ℕ → Act h Bool
  unfolding copy_in
  package_new_install q = elim (pkgs q).install_files [
    | [] ↦ run h (command h (pkgs q).bd.new_install tar_cmd (create_args (install_tar (pkgs q))))
    | f ∷ fs ↦ copy_in (pkgs q) (f ∷ fs)
  ]

  unfoldable pub clean_staging : ℕ → Act h (Unit {0})
  clean_staging q =
      when (not cfg.keep_staging && not (pkgs q).suppress_remove_staging)
        (remove_all h (pkgs q).bd.staging)

  -- BuildDir::clean
  unfoldable pub clean : ℕ → Act h (Unit {0})
  unfolding clean_dir
  clean q = clean_dir (pkgs q).bd.path
