-- ===== src/Samples.antt =====
-- A host, settings and packages to run the definitions on, and the theorems on them.
mod Schedules
mod Sources
mod Queues
mod Values
mod Scripts
mod Loops
mod Requires
mod Builds
use buildsyspp.Shared.{
  ℕ, zero, suc, ◌≡◌, ◌≢◌, refl, Bool, true, false, not, ◌==◌, ◌&&◌, ◌||◌, ◌⊎◌, inl, inr, ◌↔◌, some,
  none, List, [], ◌∷◌, ◌++◌, Text, starts_with, In, first, later, arith, Lacks, All, if◌then◌else◌,
}
use buildsyspp.Command.{
  PackageCmd, Status, exited, package_cmd, allow_failure, pipe_data, run_verdict, add_env,
}
use buildsyspp.Command.Env.{entries, entries-add_env}
use buildsyspp.Command.Output.{unlines, pipe_data_lem, run_verdict_lem}
use buildsyspp.BuildInfo.{new_description, print}
use buildsyspp.BuildInfo.Stability.{feature_value, add_all, visible, print-add_all_iff}
use buildsyspp.Host.{Host}
use buildsyspp.Effects.{ok, exhausted, pure, gets, ◌>>=◌, ◌>>◌}
use buildsyspp.Model.{Settings, BuildDir, PackageDepend, Package, Progress, Sys}
use buildsyspp.Depends.{IsRanked, Depends, get_staging_packages, get_depended_packages}
use buildsyspp.Depends.Reached.{
  Reaches, get_staging_packages-Reaches, get_depended_packages-Reaches,
}
use buildsyspp.Build.{build}
use buildsyspp.Files.Calls.{system_ok, exists, run, try_rename, rename}
use buildsyspp.Package.Outputs.{staging_tar, install_tar}
use buildsyspp.Package.Info.{update_build_info}
use buildsyspp.Package.Cache.{should_build, fetch_from, ff_files, ff_file, cache_files}
use buildsyspp.Build.Decision.{
  should_build-eq-false, fetch_from_lem, Missed, Served, compared, IsKept, FromCache,
}
use buildsyspp.Build.Complete.{IsConsistent, build_lem}

-- Every call succeeds, and a disk is a number of writes.
abbrev pub host : Host
host = record {
  Disk = ℕ;
  environ = [];
  run = λ pc d. (exited 0, d);
  system = λ c d. (0, d);
  popen = λ c d. (some ([], 0), d);
  exists = λ p d. true;
  is_directory = λ p d. true;
  read_file = λ p d. some [];
  write_file = λ p t d. some (suc d);
  rename = λ p q d. some (suc d);
  remove = λ p d. some (suc d);
  remove_all = λ p d. some (suc d);
  create_directories = λ p d. some (suc d);
  sha256 = λ t. [];
  seconds = λ d. d;
  cwd = some (b'/' ∷ b'w' ∷ []);
  list_directory = λ p d. some [];
}

abbrev pub keep_all : Text → Text → Text → Text
keep_all t a b = t

abbrev pub settings : Settings
settings = record {
  quiet_packages = false;
  keep_staging = false;
  extract_in_parallel = false;
  build_cache = [];
  clean_all_packages = false;
  overlays = [];
  forced_packages = [];
  tarball_cache = [];
  git_ref_if_able_pairs = [];
  ignored_features = [];
}

abbrev build_dir : BuildDir
build_dir = record {
  path = [];
  rpath = [];
  new_path = [];
  staging = [];
  new_staging = [];
  new_install = [];
}

abbrev pub package_with : List PackageDepend → Package
package_with depends = record {
  name = b'p' ∷ [];
  file = b'f' ∷ [];
  file_short = b'f' ∷ [];
  pwd = [];
  ns_name = b'n' ∷ [];
  bd = build_dir;
  depends = depends;
  commands = [];
  fetch = [];
  extraction = [];
  intercept_install = false;
  intercept_staging = false;
  deps_extraction = [];
  deps_extraction_direct_only = false;
  install_files = [];
  hash_output = false;
  suppress_remove_staging = false;
  clean_before_build = false;
}

-- Package 0 depends on package 1, which must be built locally.
abbrev pub packages : ℕ → Package
packages zero = package_with (record { target = 1; locally = true } ∷ [])
packages (suc q) = package_with []

abbrev pub rank : ℕ → ℕ
rank zero = 1
rank (suc q) = 0

pub packages-IsRanked : IsRanked packages rank
packages-IsRanked zero e first = omega arith
packages-IsRanked zero e (later m) = elim m [ ]
packages-IsRanked (suc q) e m = elim m [ ]

abbrev pub fresh : Progress
fresh = record {
  buildinfo_hash = [];
  build_description = new_description;
  build_info_prepared = false;
  built = false;
  building = false;
  was_built = false;
  code_updated = false;
  extracted = false;
  run_secs = 0;
}

abbrev pub start : Sys host
start = record {
  disk = 0;
  progress = λ q. fresh;
  dl_objects = [];
  gd_objects = [];
  unit_hash = λ u. [];
  unit_fetched = λ u. false;
}

start-IsConsistent : IsConsistent packages start.progress
start-IsConsistent = record {
  closed = λ q b e d. absurd (differ b);
  local = λ q b. absurd (differ b);
  known = λ e b. absurd b;
}
  where
    differ : false ≡ true → ⊥
    differ e = cc

build_lem_example :
    let r = build host keep_all settings packages 2 false false 0 start in
    (r.0 ≢ exhausted)
    × IsConsistent packages r.1.progress
    × ((e : ℕ) → false ≡ true → (r.1.progress e).built ≡ true)
    × (r.0 ≡ ok true
        → (r.1.progress 0).built ≡ true
          × ((e : ℕ) → Reaches packages (λ d. true) 0 e → (r.1.progress e).built ≡ true))
build_lem_example =
    build_lem host keep_all settings packages rank packages-IsRanked 2 false false 0 start
      (omega arith) start-IsConsistent

get_staging_packages-Reaches_example :
    (r : List ℕ) × (get_staging_packages packages 2 0 [] ≡ some r)
    × ((e : ℕ) → In e r ↔ Reaches packages (λ d. not (packages d).intercept_staging) 0 e)
get_staging_packages-Reaches_example =
    get_staging_packages-Reaches packages rank packages-IsRanked 2 0 (omega arith)

get_depended_packages-Reaches_example :
    (r : List ℕ) × (get_depended_packages packages true false 2 0 [] ≡ some r)
    × ((e : ℕ)
        → In e r
          ↔ Reaches packages (λ d. true && (false || not (packages d).intercept_install)) 0 e)
get_depended_packages-Reaches_example =
    get_depended_packages-Reaches packages rank packages-IsRanked true false 2 0 (omega arith)

abbrev sample_command : PackageCmd
sample_command = package_cmd ((b'B' ∷ b'=' ∷ []) ∷ (b'A' ∷ b'=' ∷ b'1' ∷ []) ∷ []) [] (b'm' ∷ [])

abbrev new_entry : Text
new_entry = b'A' ∷ b'=' ∷ b'2' ∷ []

entries-add_env_example :
    (entries (b'A' ∷ b'=' ∷ []) (add_env sample_command new_entry).envp ≡ new_entry ∷ [])
    × ((j : Text)
        → Lacks b'=' j
        → j ≢ b'A' ∷ []
        → entries (j ++ b'=' ∷ []) (add_env sample_command new_entry).envp
          ≡ entries (j ++ b'=' ∷ []) sample_command.envp)
unfolding package_cmd starts_with
entries-add_env_example =
    entries-add_env sample_command (b'A' ∷ []) (b'2' ∷ []) (ground arith) (ground arith)

pipe_data_lem_example :
    All (Lacks b'\n') (pipe_data [] (b'a' ∷ b'\n' ∷ b'b' ∷ []))
    × ((unlines (pipe_data [] (b'a' ∷ b'\n' ∷ b'b' ∷ [])) ≡ b'a' ∷ b'\n' ∷ b'b' ∷ [])
        ⊎ (unlines (pipe_data [] (b'a' ∷ b'\n' ∷ b'b' ∷ [])) ≡ b'a' ∷ b'\n' ∷ b'b' ∷ b'\n' ∷ []))
pipe_data_lem_example = pipe_data_lem (b'a' ∷ b'\n' ∷ b'b' ∷ [])

run_verdict_lem_example :
    (((run_verdict (allow_failure sample_command) (exited 2)).0 ≡ true) ↔ (exited 2 ≡ exited 0))
    × (((run_verdict (allow_failure sample_command) (exited 2)).1 ≡ []) ↔ (
        (exited 2 ≡ exited 0)
        ⊎ (((allow_failure sample_command).failure_expected ≡ true)
            × ((code : ℕ) × (exited 2 ≡ exited code)))))
run_verdict_lem_example = run_verdict_lem (allow_failure sample_command) (exited 2)

print-add_all_iff_example :
    let es = feature_value (b'f' ∷ []) (b'1' ∷ []) ∷ feature_value (b'x' ∷ []) (b'2' ∷ []) ∷ [] in
    let fs = feature_value (b'f' ∷ []) (b'1' ∷ []) ∷ [] in
    (print (add_all ((b'x' ∷ []) ∷ []) es new_description)
      ≡ print (add_all ((b'x' ∷ []) ∷ []) fs new_description))
    ↔ (visible ((b'x' ∷ []) ∷ []) es ≡ visible ((b'x' ∷ []) ∷ []) fs)
print-add_all_iff_example =
    print-add_all_iff ((b'x' ∷ []) ∷ [])
      (feature_value (b'f' ∷ []) (b'1' ∷ []) ∷ feature_value (b'x' ∷ []) (b'2' ∷ []) ∷ [])
      (feature_value (b'f' ∷ []) (b'1' ∷ []) ∷ []) (ground arith) (ground arith)

hashed : Sys host
hashed = record start { progress = λ q. record fresh { buildinfo_hash = b'0' ∷ [] } }

fetch_from_lem_example :
    let r = fetch_from host keep_all settings packages 0 hashed in
    ((false ≡ true) × (r ≡ (ok true, hashed)))
    ⊎ ((false ≡ false)
        × ((t : Sys host) × ((Missed host keep_all settings packages 0
                  (b'0' ∷ [])
                  (cache_files (packages 0))
                  hashed
                  t
                × (r ≡ (ok true, t)))
              ⊎ (Served host keep_all settings packages 0
                    (b'0' ∷ [])
                    (cache_files (packages 0))
                    hashed
                    t
                  × (r
                      ≡ (update_build_info host keep_all settings packages 0 false >> pure false)
                          t)))))
unfolding hashed
fetch_from_lem_example = fetch_from_lem host keep_all settings packages 0 hashed

-- The build info has changed, and the cache has the package.
abbrev changed : Host
changed = record host { system = λ c d. (1, d) }

abbrev cached : Settings
cached = record settings { build_cache = b'c' ∷ [] }

abbrev changed_start : Sys changed
changed_start = record {
  disk = 0;
  progress = λ q. record fresh { buildinfo_hash = b'h' ∷ [] };
  dl_objects = [];
  gd_objects = [];
  unit_hash = λ u. [];
  unit_fetched = λ u. false;
}

abbrev after_cache : Sys changed
after_cache = (should_build changed keep_all cached packages 0 changed_start).1

should_build-cached :
    should_build changed keep_all cached packages 0 changed_start ≡ (ok false, after_cache)
unfolding should_build ◌>>=◌ gets exists system_ok pure fetch_from ff_files ff_file run try_rename
    update_build_info rename run_verdict allow_failure
should_build-cached = refl

should_build-eq-false_example :
    (false ≡ false)
    × (((packages 0).install_files ≡ [])
        × (IsKept changed keep_all cached packages 0 changed_start
            ⊎ ((false ≡ false)
                × FromCache changed keep_all cached packages 0
                    (compared changed keep_all cached packages 0 changed_start)
                    after_cache)))
should_build-eq-false_example =
    should_build-eq-false changed keep_all cached packages 0 changed_start should_build-cached
