-- ===== src/Model.antt =====
-- The classes of src/include/buildsys.h and src/dir/builddir.hpp: what a package is once its file
-- is processed (`Package`), the fields that a build changes (`Progress`), the units, and the state
-- of a run.
-- A `Package *` is a number, and a `NameSpace *` the name of the namespace. A unit is its constant fields with a number, which stands for the object
-- that a pointer to it names; its other fields are kept in the state under that number.
use buildsyspp.Shared.{ℕ, ◌==◌, Bool, List, [], ◌∷◌, Text, text_eq, if◌then◌else◌}
use buildsyspp.Command.{PackageCmd}
use buildsyspp.BuildInfo.{BuildDescription}
use buildsyspp.Host.{Host}
use buildsyspp.Effects.{Action, modify}

-- The static members that the command line sets.
pub record Settings : Type 0 where
  pub quiet_packages : Bool
  pub keep_staging : Bool
  pub extract_in_parallel : Bool
  pub build_cache : Text
  pub clean_all_packages : Bool
  pub overlays : List Text
  pub forced_packages : List Text
  pub tarball_cache : Text
  pub git_ref_if_able_pairs : List (Text × Text)
  pub ignored_features : List Text

pub record BuildDir : Type 0 where
  pub path : Text
  pub rpath : Text
  pub new_path : Text
  pub staging : Text
  pub new_staging : Text
  pub new_install : Text

pub data FetchUnit : Type 0 where
  download : (id : ℕ) (fetch_uri filename : Text) → FetchUnit
  link : (fetch_uri : Text) → FetchUnit
  copy : (fetch_uri : Text) → FetchUnit

-- A compressed file is named by its path or by the unit that fetches it.
pub data Archive : Type 0 where
  of_file : Text → Archive
  of_fetch : FetchUnit → Archive

pub data GitMode : Type 0 where
  link_mode copy_mode : GitMode

-- `hash` is what the constructor has computed.
pub data ExtractionUnit : Type 0 where
  tar_unit : (id : ℕ) → Archive → ExtractionUnit
  zip_unit : (id : ℕ) → Archive → ExtractionUnit
  patch_unit : (level : Text) (patch_path uri fname_short hash : Text) → ExtractionUnit
  file_copy_unit : (uri fname_short hash : Text) → ExtractionUnit
  fetched_copy_unit : (id : ℕ) (fetched : FetchUnit) (fname_short : Text) → ExtractionUnit
  git_dir_unit : GitMode → (uri to_dir hash : Text) → ExtractionUnit
  git_unit : (id : ℕ) (remote local_dir refspec : Text) → ExtractionUnit

pub record PackageDepend : Type 0 where
  pub target : ℕ
  pub locally : Bool

pub record Package : Type 0 where
  pub name : Text
  pub file : Text
  pub file_short : Text
  pub pwd : Text
  pub ns_name : Text
  pub bd : BuildDir
  pub depends : List PackageDepend
  pub commands : List PackageCmd
  pub fetch : List FetchUnit
  pub extraction : List ExtractionUnit
  pub intercept_install : Bool
  pub intercept_staging : Bool
  pub deps_extraction : Text
  pub deps_extraction_direct_only : Bool
  pub install_files : List Text
  pub hash_output : Bool
  pub suppress_remove_staging : Bool
  pub clean_before_build : Bool

pub record Progress : Type 0 where
  pub buildinfo_hash : Text
  pub build_description : BuildDescription
  pub build_info_prepared : Bool
  pub built : Bool
  pub building : Bool
  pub was_built : Bool
  pub code_updated : Bool
  pub extracted : Bool
  pub run_secs : ℕ

module _ (h : Host) where
  pub record Sys : Type 0 where
    pub disk : h.Disk
    pub progress : ℕ → Progress
    pub dl_objects : List (Text × Text)
    pub gd_objects : List (Text × Text)
    pub unit_hash : ℕ → Text
    pub unit_fetched : ℕ → Bool

abbrev pub update {ℓ} : {A : Type ℓ} → (ℕ → A) → ℕ → A → ℕ → A
update f p a q = if q == p then a else f q

-- The package's fields that a build changes, in the state.
module _ (h : Host) where
  unfoldable pub set_progress : ℕ → (Progress → Progress) → Action (Sys h) (Unit {0})
  set_progress q f = modify (λ s. record s { progress = update s.progress q (f (s.progress q)) })

  unfoldable pub set_unit_hash : ℕ → Text → Action (Sys h) (Unit {0})
  set_unit_hash id hash = modify (λ s. record s { unit_hash = update s.unit_hash id hash })

-- The object of that name in a list of DLObject or GitDir holds a text; a new one holds none.
abbrev pub object_text : Text → List (Text × Text) → Text
object_text name [] = []
object_text name ((n, t) ∷ os) = if text_eq n name then t else object_text name os

unfoldable pub set_object : Text → Text → List (Text × Text) → List (Text × Text)
set_object name t [] = (name, t) ∷ []
set_object name t ((n, u) ∷ os) =
    if text_eq n name then (n, t) ∷ os else (n, u) ∷ set_object name t os

-- Source information for external tooling.
pub record FetchInfo : Type 0 where
  pub type : Text
  pub uri : Text
  pub path : Text
  pub ref : Text
  pub hash : Text
  pub hash_algorithm : Text
