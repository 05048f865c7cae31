-- ===== src/Package/Cache.antt =====
-- src/package.cpp: the build cache, and the decision whether a package has to be built.
use buildsyspp.Shared.{
  ℕ, Bool, true, false, not, ◌||◌, List, [], ◌∷◌, ◌++◌, Text, text, empty, if◌then◌else◌,
}
use buildsyspp.Host.{Host}
use buildsyspp.Effects.{pure, gets, ◌>>=◌, ◌>>◌}
use buildsyspp.Command.{allow_failure}
use buildsyspp.Model.{Settings, Package}
use buildsyspp.Files.Calls.{Act, run, command, exists, try_rename, try_remove, system_ok}
use buildsyspp.Package.Outputs.{staging_tar, install_tar}
use buildsyspp.Package.Info.{update_build_info}

-- A file of the cache, and where it goes: a directory, a name and an extension.
pub record CacheFile : Type 0 where
  pub rfile : Text
  pub path : Text
  pub fname : Text
  pub fext : Text

abbrev pub cache_file : Text → Text → Text → Text → CacheFile
cache_file rfile path fname fext = record { rfile = rfile; path = path; fname = fname; fext = fext }

abbrev pub destination : CacheFile → Text
destination f = f.path ++ b'/' ∷ (f.fname ++ f.fext)

-- NameSpace::getStagingDir and NameSpace::getInstallDir
abbrev pub staging_dir : Text → Text
staging_dir ns_name = text "output/" ++ (ns_name ++ text "/staging")

abbrev pub install_dir : Text → Text
install_dir ns_name = text "output/" ++ (ns_name ++ text "/install")

-- The files of `fetchFrom`; the last is asked for only if the output is hashed.
abbrev pub cache_files : Package → List CacheFile
cache_files p =
    cache_file (text "usable") (staging_dir p.ns_name) p.name (text ".tar.ff")
    ∷ cache_file (text "staging.tar") (staging_dir p.ns_name) p.name (text ".tar")
    ∷ cache_file (text "install.tar") (install_dir p.ns_name) p.name (text ".tar")
    ∷ (if p.hash_output
        then cache_file (text "output.info") p.bd.path (text ".output") (text ".info") ∷ []
        else [])

abbrev pub no_files : List Text → Bool
no_files [] = true
no_files (f ∷ fs) = false

module _ (h : Host) (replace_all : Text → Text → Text → Text) (cfg : Settings)
    (pkgs : ℕ → Package) where
  abbrev pub cache_url : Package → Text → Text → Text
  cache_url p hash rfile =
      cfg.build_cache ++ b'/' ∷ (p.ns_name ++ b'/' ∷ (p.name ++ b'/' ∷ (hash ++ b'/' ∷ rfile)))

  -- Package::ff_file: true on failure.
  unfoldable pub ff_file : ℕ → Text → CacheFile → Act h Bool
  ff_file q hash f = do
    let dest = destination f
    let tmp = dest ++ text ".tmp"
    fetched ← run h (
        allow_failure (
          command h (pkgs q).pwd (text "wget")
            (text "-q" ∷ cache_url (pkgs q) hash f.rfile ∷ text "-O" ∷ tmp ∷ [])))
    if fetched
        then (do
          stored ← try_rename h tmp dest
          if stored then pure false else (do try_remove h tmp; pure true))
        else (do try_remove h tmp; pure true)

  -- The loop over the files, up to the first failure.
  unfoldable pub ff_files : ℕ → Text → List CacheFile → Act h Bool
  unfolding ff_file
  ff_files q hash [] = pure false
  ff_files q hash (f ∷ fs) = do
    failed ← ff_file q hash f
    let rest = ff_files q hash fs
    if failed then pure true else rest

  -- Package::fetchFrom: true if the package was not there.
  unfoldable pub fetch_from : ℕ → Act h Bool
  unfolding ff_files
  fetch_from q = do
    hash ← gets (λ s. (s.progress q).buildinfo_hash)
    if empty hash then pure true else do
      failed ← ff_files q hash (cache_files (pkgs q))
      if failed
          then pure true
          else (do update_build_info h replace_all cfg pkgs q false; pure false)

  abbrev pub compare_command : ℕ → Text
  compare_command q =
      text "cmp -s "
      ++ ((pkgs q).bd.path
          ++ (text "/.build.info.new " ++ ((pkgs q).bd.path ++ text "/.build.info")))

  unfoldable pub should_build : ℕ → Act h Bool
  should_build q = do
    updated ← gets (λ s. (s.progress q).code_updated)
    if updated || not (no_files (pkgs q).install_files) then pure true else do
      installed ← exists h (install_tar (pkgs q))
      staged ← exists h (staging_tar (pkgs q))
      same ← system_ok h (compare_command q)
      if not same || (not installed || not staged)
          then (if empty cfg.build_cache then pure true else fetch_from q)
          else pure false
