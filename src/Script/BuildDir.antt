-- ===== src/Script/BuildDir.antt =====
-- src/interface/builddir.cpp and src/interface/fetchunit.cpp: the methods of the two kinds of
-- object, but for `fetch`.
use buildsyspp.Shared.{
  ℕ, suc, ◌==◌, leb, Bool, true, false, ◌||◌, ◌&&◌, List, [], ◌∷◌, ◌++◌, Text, text, text_eq,
  if◌then◌else◌, length, starts_with, ends_with, behind_last,
}
use buildsyspp.Host.{Host}
use buildsyspp.Command.{PackageCmd, add_arg, add_env, package_cmd, disable_logging, add_args}
use buildsyspp.Effects.{custom, pure, gets, require, ◌>>=◌, ◌>>◌}
use buildsyspp.Model.{BuildDir, ExtractionUnit, tar_unit, zip_unit, patch_unit, of_fetch, update}
use buildsyspp.Files.{hash_file, absolute_fetch_path}
use buildsyspp.Fetch.{relative_path}
use buildsyspp.Session.{Do, on_sys, set_package}
use buildsyspp.Lua.{
  Lua, Value, Table, end_table, entry, arg, as_string, as_boolean, as_table, as_level, to_text,
  check_argument, build_dir_of, fetch_unit_of,
}
use buildsyspp.Script.{expect, current, fetch_path}

-- Against a directory, unless it is absolute or in the download cache.
unfoldable pub path_in : Text → Text → Bool → Text
path_in base dir allow_dl =
    if starts_with (text "/") dir || allow_dl && starts_with (text "dl/") dir
    then dir
    else base ++ b'/' ∷ dir

unfoldable pub absolute_path : BuildDir → Text → Bool → Text
unfolding path_in
absolute_path d dir allow_dl = path_in d.path dir allow_dl

unfoldable pub relative_dir : BuildDir → Text → Bool → Text
unfolding path_in
relative_dir d dir allow_dl = path_in d.rpath dir allow_dl

module _ (h : Host) (lua : Lua) (q : ℕ) where
  -- The calls that a method begins with.
  abbrev pub self : Text → List Value → Do h Table
  self func args = expect h (as_table (arg 1 args)) (func ++ text "() must be called using : not .")

  unfoldable pub add_command : PackageCmd → Do h (Unit {0})
  unfolding set_package
  add_command pc = set_package h q (λ p. record p { commands = p.commands ++ pc ∷ [] })

  unfoldable pub add_extraction : ExtractionUnit → Do h (Unit {0})
  unfolding set_package
  add_extraction u = set_package h q (λ p. record p { extraction = p.extraction ++ u ∷ [] })

  -- A new unit, which has no hash and is not fetched.
  unfoldable pub new_unit : Do h ℕ
  new_unit s = pure s.units (record s {
    units = suc s.units;
    sys = record s.sys {
      unit_hash = update s.sys.unit_hash s.units [];
      unit_fetched = update s.sys.unit_fetched s.units false;
    };
  })

  unfoldable pub li_bd_restore : List Value → Do h (List Value)
  unfolding add_command
  li_bd_restore args = do
    require (leb 1 (length args)) (custom (text "restore() requires at least 2 arguments"))
    self (text "restore") args
    location ←
        expect h (to_text (arg 2 args)) (text "restore() expects a string as the first argument")
    method ←
        expect h (to_text (arg 3 args)) (text "restore() expects a string as the second argument")
    p ← current h q
    ptr ← check_argument (text "restore") (text "1") (text "BuildDir") (arg 1 args)
    require (text_eq method (text "copyfile")) (custom (text "Unsupported restore method"))
    cfg ← gets (λ s. s.settings)
    source ← on_sys h (absolute_fetch_path h cfg p location)
    add_command (
        add_args (package_cmd h.environ (build_dir_of lua ptr).path (text "cp"))
          (text "-pRLuf" ∷ behind_last b'/' location ∷ source ∷ []))
    pure []

  unfoldable pub li_bd_extract : List Value → Do h (List Value)
  unfolding add_extraction new_unit
  li_bd_extract args = do
    require (length args == 2) (custom (text "extract() requires exactly 1 argument"))
    self (text "extract") args
    t ← expect h (as_table (arg 2 args)) (text "extract() expects a table as the only argument")
    ptr ← check_argument (text "extract") (text "2") (text "FetchUnit") (arg 2 args)
    id ← new_unit
    let f = fetch_unit_of lua ptr
    add_extraction (
        if ends_with (text ".zip") (relative_path f)
        then zip_unit id (of_fetch f)
        else tar_unit id (of_fetch f))
    pure []

  -- The values of a table are strings, and are given to the command one by one.
  unfoldable pub each_string :
      Text → (PackageCmd → Text → PackageCmd) → Table → PackageCmd → Do h PackageCmd
  each_string message f end_table pc = pure pc
  each_string message f (entry k v rest) pc = do
    s ← expect h (as_string v) message
    each_string message f rest (f pc s)

  abbrev cmd_arguments : Text → Text
  cmd_arguments nth =
      text "cmd() requires a table of strings as the " ++ (nth ++ (text " argument" ++ b'\n' ∷ []))

  unfoldable pub li_bd_cmd : List Value → Do h (List Value)
  unfolding add_command each_string
  li_bd_cmd args = do
    require (leb 4 (length args)) (custom (text "cmd() requires at least 3 arguments"))
    require (leb (length args) 6) (custom (text "cmd() requires at most 5 arguments"))
    self (text "cmd") args
    in_dir ← expect h (to_text (arg 2 args)) (text "cmd() expects a string as the first argument")
    app ← expect h (to_text (arg 3 args)) (text "cmd() expects a string as the second argument")
    arguments ←
        expect h (as_table (arg 4 args))
          (text "cmd() expects a table of strings as the third argument")
    env ←
        if length args == 5
        then expect h (as_table (arg 5 args))
            (text "cmd() expects a table of strings as the fourth argument, if present")
        else pure end_table
    log_output ←
        if length args == 6
        then expect h (as_boolean (arg 6 args))
            (text "cmd() expects a boolean as the fifth argument, if present")
        else pure true
    ptr ← check_argument (text "cmd") (text "1") (text "BuildDir") (arg 1 args)
    p ← current h q
    let dir = relative_dir (build_dir_of lua ptr) in_dir true
    pc ←
        each_string (cmd_arguments (text "third")) add_arg arguments (package_cmd h.environ dir app)
    with_env ← each_string (cmd_arguments (text "fourth")) add_env env pc
    let logged = if log_output then with_env else disable_logging with_env
    add_command (add_env logged (text "BS_PACKAGE_NAME=" ++ p.name))
    pure []

  unfoldable pub add_patches : Text → Text → Table → Do h (Unit {0})
  unfolding add_extraction fetch_path hash_file
  add_patches level patch_path end_table = pure tt
  add_patches level patch_path (entry k v rest) = do
    fname ←
        expect h (as_string v)
          (text "patch() requires a table of strings as the third argument" ++ b'\n' ∷ [])
    uri ← fetch_path h q fname false
    hash ← on_sys h (hash_file h uri)
    add_extraction (patch_unit level patch_path uri fname hash)
    add_patches level patch_path rest

  unfoldable pub li_bd_patch : List Value → Do h (List Value)
  unfolding add_patches
  li_bd_patch args = do
    require (length args == 4) (custom (text "patch() requires exactly 3 arguments"))
    self (text "patch") args
    dir ← expect h (to_text (arg 2 args)) (text "patch() expects a string as the first argument")
    level ←
        expect h (as_level lua (arg 3 args))
          (text "patch() expects a number as the second argument")
    patches ←
        expect h (as_table (arg 4 args))
          (text "patch() expects a table of strings as the third argument")
    ptr ← check_argument (text "patch") (text "1") (text "BuildDir") (arg 1 args)
    add_patches level (relative_dir (build_dir_of lua ptr) dir true) patches
    pure []

  unfoldable pub li_bd_installfile : List Value → Do h (List Value)
  unfolding set_package
  li_bd_installfile args = do
    require (length args == 2) (custom (text "installfile() requires exactly 1 argument"))
    self (text "installfile") args
    file ←
        expect h (to_text (arg 2 args)) (text "installfile() expects a string as the only argument")
    set_package h q (λ p. record p { install_files = p.install_files ++ file ∷ [] })
    pure []
