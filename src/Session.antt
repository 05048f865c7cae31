-- ===== src/Session.antt =====
-- src/namespace.cpp, src/dir/builddir.cpp and the constructors of src/package.cpp: the state while
-- the scripts of the packages run, and the making of packages.
-- A `NameSpace *` is its name, and a `Package *` a number: `count` is the number of the package
-- that is made next, as `units` is that of the next unit.
pub mod Names
pub mod Index
pub mod Find
pub mod Map
use buildsyspp.Shared.{
  ℕ, zero, suc, ◌+◌, ◌≡◌, Bool, true, false, Option, none, some, List, [], ◌∷◌, ◌++◌, Text, text,
  text_eq, split_last, behind_last, before_text, if◌then◌else◌,
}
use buildsyspp.Host.{Host}
use buildsyspp.BuildInfo.{BuildDescription, new_description}
use buildsyspp.Effects.{Action, custom, pure, throw, gets, modify, from, when, ◌>>=◌, ◌>>◌}
use buildsyspp.Features.{FeatureMap}
use buildsyspp.Model.{Settings, BuildDir, Package, Progress, Sys, update, set_progress}
use buildsyspp.Files.{first_existing}
use buildsyspp.Files.Calls.{Act, create_directories}

pub record NameSpace : Type 0 where
  pub name : Text
  pub members : List ℕ

-- NameSpace::getStagingDir and NameSpace::getInstallDir are paths made of the name.
unfoldable pub staging_dir : Text → Text
staging_dir name = text "output/" ++ (name ++ text "/staging")

unfoldable pub install_dir : Text → Text
install_dir name = text "output/" ++ (name ++ text "/install")

-- The list of namespaces behind NameSpace::findNameSpace.
unfoldable pub with_name_space : Text → List NameSpace → List NameSpace
with_name_space name [] = record { name = name; members = [] } ∷ []
with_name_space name (ns ∷ nss) =
    if text_eq ns.name name then ns ∷ nss else ns ∷ with_name_space name nss

-- The packages of the namespace that a pointer names.
unfoldable pub members_of : Text → List NameSpace → List ℕ
members_of name [] = []
members_of name (ns ∷ nss) = if text_eq ns.name name then ns.members else members_of name nss

-- NameSpace::addPackage in the namespace that a pointer names.
unfoldable pub add_package : Text → ℕ → List NameSpace → List NameSpace
add_package name q [] = []
add_package name q (ns ∷ nss) =
    if text_eq ns.name name
    then record ns { members = ns.members ++ q ∷ [] } ∷ nss
    else ns ∷ add_package name q nss

-- NameSpace::for_each with NameSpace::for_each_package: the packages in the order of the calls.
unfoldable pub all_packages : List NameSpace → List ℕ
all_packages [] = []
all_packages (ns ∷ nss) = ns.members ++ all_packages nss

-- NameSpace::printNameSpaces
abbrev name_lines : List NameSpace → Text
name_lines [] = []
name_lines (ns ∷ nss) = ns.name ++ b'\n' ∷ name_lines nss

unfoldable pub print_name_spaces : List NameSpace → Text
print_name_spaces nss =
    b'\n' ∷ text "----BEGIN NAMESPACES----"
    ++ b'\n' ∷ (name_lines nss ++ (text "----END NAMESPACES----" ++ b'\n' ∷ []))

-- The loop of NameSpace::findPackage.
unfoldable pub find_named : (ℕ → Package) → Text → List ℕ → Option ℕ
find_named packages name [] = none
find_named packages name (q ∷ qs) =
    if text_eq (packages q).name name then some q else find_named packages name qs

module _ (h : Host) where
  pub record Session : Type 0 where
    pub sys : Sys h
    pub settings : Settings
    pub features : FeatureMap
    pub namespaces : List NameSpace
    pub packages : ℕ → Package
    pub count : ℕ
    pub units : ℕ

  abbrev pub Do : Type 0 → Type 0
  Do A = Action Session A

  abbrev pub put_sys {ℓ} : {A : Type ℓ} → Session → A × Sys h → A × Session
  put_sys s (a, t) = (a, record s { sys = t })

  -- An action on the state of the build.
  unfoldable pub on_sys : {A : Type 0} → Act h A → Do A
  on_sys m s = put_sys s (m s.sys)

  unfoldable pub set_package : ℕ → (Package → Package) → Do (Unit {0})
  set_package q f = modify (λ s. record s { packages = update s.packages q (f (s.packages q)) })

  -- The rest of the constructor of BuildDir, with `output/` and the two names.
  unfoldable pub make_dirs : Text → Text → Text → Act h BuildDir
  make_dirs pwd base out = do
    create_directories h out
    let path = base ++ text "/work"
    create_directories h path
    let new_path = base ++ text "/new"
    create_directories h new_path
    let staging = base ++ text "/staging"
    create_directories h staging
    let new_staging = base ++ text "/new/staging"
    create_directories h new_staging
    let new_install = base ++ text "/new/install"
    create_directories h new_install
    pure (record {
      path = path;
      rpath = out ++ text "/work";
      new_path = new_path;
      staging = staging;
      new_staging = new_staging;
      new_install = new_install;
    })

  -- The directories for the part of the package's name before its last slash.
  unfoldable pub sub_dirs : Text → Option (Text × Text) → Act h (Unit {0})
  sub_dirs out none = pure tt
  sub_dirs out (some (subpart, last)) = do
    create_directories h (out ++ (text "/staging/" ++ subpart))
    create_directories h (out ++ (text "/install/" ++ subpart))

  -- The constructor of BuildDir.
  unfoldable pub build_dir : Text → Text → Text → Act h BuildDir
  unfolding make_dirs sub_dirs
  build_dir pwd gname pname = do
    let out = text "output/" ++ gname
    create_directories h out
    create_directories h (out ++ text "/staging")
    create_directories h (out ++ text "/install")
    sub_dirs out (split_last b'/' pname)
    let dir = out ++ b'/' ∷ pname
    make_dirs pwd (pwd ++ b'/' ∷ dir) dir

  abbrev pub new_progress : Progress
  new_progress = record {
    buildinfo_hash = [];
    build_description = new_description;
    build_info_prepared = false;
    built = false;
    building = false;
    was_built = false;
    code_updated = false;
    extracted = false;
    run_secs = 0;
  }

  abbrev pub new_package : Settings → Text → Text → Text → Text → Text → BuildDir → Package
  new_package cfg ns_name name file_short file pwd bd = record {
    name = name;
    file = file;
    file_short = file_short;
    pwd = pwd;
    ns_name = ns_name;
    bd = bd;
    depends = [];
    commands = [];
    fetch = [];
    extraction = [];
    intercept_install = false;
    intercept_staging = false;
    deps_extraction = [];
    deps_extraction_direct_only = false;
    install_files = [];
    hash_output = false;
    suppress_remove_staging = false;
    clean_before_build = cfg.clean_all_packages;
  }

  -- Package::common_init, for a package with its names and files. The log is not modelled.
  unfoldable pub common_init : Text → Text → Text → Text → Do Package
  unfolding on_sys build_dir
  common_init ns_name name file_short file = do
    cfg ← gets (λ s. s.settings)
    pwd ← from h.cwd (custom (text "getcwd() failed: "))
    bd ← on_sys (build_dir pwd ns_name name)
    pure (new_package cfg ns_name name file_short file pwd bd)

  abbrev pub lua_files : List Text → Text → List Text
  lua_files [] name = []
  lua_files (ov ∷ ovs) name = (ov ++ b'/' ∷ name) ∷ lua_files ovs name

  -- The constructor of Package that looks for the file: in the overlays, in order.
  unfoldable pub found_package : Text → Text → Do Package
  unfolding common_init first_existing
  found_package ns_name name = do
    overlays ← gets (λ s. s.settings.overlays)
    let file_short = text "package/" ++ (name ++ b'/' ∷ (behind_last b'/' name ++ text ".lua"))
    there ← gets (λ s. first_existing h (lua_files overlays file_short) s.sys.disk)
    file ← from there (custom (text "Package not found: " ++ name))
    common_init ns_name name file_short file

  -- A package that is made becomes the next number and the last of its namespace.
  unfoldable pub register : Text → Package → Do ℕ
  register ns_name p s = pure s.count (record s {
    sys = record s.sys { progress = update s.sys.progress s.count new_progress };
    namespaces = add_package ns_name s.count s.namespaces;
    packages = update s.packages s.count p;
    count = suc s.count;
  })

  unfoldable pub find_name_space : Text → Do (Unit {0})
  find_name_space name = modify (λ s. record s { namespaces = with_name_space name s.namespaces })

  unfoldable pub find_package : Text → Text → Do ℕ
  unfolding found_package register
  find_package ns_name name = do
    found ← gets (λ s. find_named s.packages name (members_of ns_name s.namespaces))
    elim found [ some q ↦ pure q | none ↦ do p ← found_package ns_name name; register ns_name p ]

  -- The beginning of World::basePackage: the package of the file that the command line names.
  unfoldable pub make_base_package : Text → Do ℕ
  unfolding find_name_space common_init register
  make_base_package filename = do
    let pname = behind_last b'/' filename
    let nsname = before_text (text ".lua") pname
    find_name_space nsname
    p ← common_init nsname pname filename filename
    register nsname p
