-- ===== src/Script/Fetch.antt =====
-- src/interface/builddir.cpp: `fetch`, which gives the current package what it is built from.
use buildsyspp.Shared.{
  ℕ, ◌-◌, leb, Bool, false, not, Option, none, some, List, [], ◌∷◌, ◌++◌, Text, text, text_eq,
  if◌then◌else◌, length, empty, trim_right, behind_last, split_last, ends_with, take,
}
use buildsyspp.Host.{Host}
use buildsyspp.Effects.{custom, pure, throw, require, when, ◌>>=◌, ◌>>◌}
use buildsyspp.Model.{
  BuildDir, FetchUnit, download, link, copy, file_copy_unit, fetched_copy_unit, git_dir_unit,
  git_unit, link_mode, copy_mode,
}
use buildsyspp.Files.{hash_file}
use buildsyspp.Fetch.{force_updated}
use buildsyspp.Git.{git_hash}
use buildsyspp.Session.{Do, on_sys, set_package}
use buildsyspp.Lua.{
  Lua, Value, nil, boolean, number, string, table, pointer, other, Table, end_table, entry,
  to_fetch_unit, arg, as_string, as_table, top, check_argument, build_dir_of, object, add_methods,
}
use buildsyspp.Script.{expect, current, fetch_path, set_code_updated}
use buildsyspp.Script.BuildDir.{absolute_path, add_extraction, new_unit, self}

-- What the table of `fetch` asks for.
pub record Parameters : Type 0 where
  pub uri : Text
  pub to : Text
  pub method : Text
  pub filename : Text
  pub branch : Text
  pub reponame : Text
  pub listedonly : Bool
  pub copyto : Text

abbrev pub no_parameters : Parameters
no_parameters = record {
  uri = [];
  to = [];
  method = [];
  filename = [];
  branch = [];
  reponame = [];
  listedonly = false;
  copyto = [];
}

-- The field of that name is set, if there is one that holds a string.
unfoldable pub set_string : Text → Text → Parameters → Option Parameters
set_string key value f =
    if text_eq key (text "uri")
    then some (record f { uri = value })
    else if text_eq key (text "method")
    then some (record f { method = value })
    else if text_eq key (text "filename")
    then some (record f { filename = value })
    else if text_eq key (text "branch")
    then some (record f { branch = value })
    else if text_eq key (text "reponame")
    then some (record f { reponame = value })
    else if text_eq key (text "to")
    then some (record f { to = value })
    else if text_eq key (text "copyto")
    then some (record f { copyto = value })
    else none

-- The last component of the path, without slashes at the end and without `.git`.
unfoldable pub repo_name : Text → Option Text
repo_name uri = elim (split_last b'/' (trim_right b'/' uri)) [
  | none ↦ none
  | some (dir, name) ↦
      some (if ends_with (text ".git") name then take (length name - 4) name else name)
]

abbrev pub fetch_object : FetchUnit → Value
fetch_object u =
    object (text "FetchUnit") (to_fetch_unit u) (add_methods (text "path" ∷ []) end_table)

module _ (h : Host) (lua : Lua) (q : ℕ) where
  unfoldable pub fetch_string : Text → Text → Parameters → Do h Parameters
  unfolding set_string
  fetch_string key value f =
      if text_eq key (text "listedonly")
      then throw (custom (text "fetch() requires a boolean for the listedonly parameter"))
      else expect h (set_string key value f) (
          text "fetch() called with unknown key '" ++ (key ++ (text "' (" ++ (value ++ b')' ∷ []))))

  unfoldable pub fetch_boolean : Text → Bool → Parameters → Do h Parameters
  fetch_boolean key value f =
      if text_eq key (text "listedonly")
      then pure (record f { listedonly = value })
      else throw (custom (text "fetch() called with unknown key '" ++ (key ++ b'\'' ∷ [])))

  abbrev unknown_type : Text → Do h Parameters
  unknown_type key = throw (
      custom
        (text "fetch() key '" ++ (key ++ text "' has unknown value type (not string or bool)")))

  unfoldable pub fetch_entry : Text → Value → Parameters → Do h Parameters
  unfolding fetch_string fetch_boolean
  fetch_entry key (string value) f = fetch_string key value f
  fetch_entry key (boolean value) f = fetch_boolean key value f
  fetch_entry key nil f = unknown_type key
  fetch_entry key (number shown level) f = unknown_type key
  fetch_entry key (table t) f = unknown_type key
  fetch_entry key (pointer p) f = unknown_type key
  fetch_entry key other f = unknown_type key

  unfoldable pub fetch_parameters : Table → Parameters → Do h Parameters
  unfolding fetch_entry
  fetch_parameters end_table f = pure f
  fetch_parameters (entry k v rest) f = do
    key ← expect h (as_string k) (text "fetch() keys must be strings")
    next ← fetch_entry key v f
    fetch_parameters rest next

  -- Fetch::add, with the object that is returned.
  unfoldable pub add_fetch : FetchUnit → Do h (Option Value)
  unfolding set_package set_code_updated force_updated
  add_fetch u = do
    when (force_updated u) (set_code_updated h q)
    set_package h q (λ p. record p { fetch = p.fetch ++ u ∷ [] })
    pure (some (fetch_object u))

  unfoldable pub fetch_download : Parameters → Do h (Option Value)
  unfolding add_fetch new_unit add_extraction
  fetch_download f = do
    id ← new_unit h lua q
    let u = download id f.uri f.filename
    when (not (empty f.copyto))
        (do copied ← new_unit h lua q; add_extraction h lua q (fetched_copy_unit copied u f.copyto))
    add_fetch u

  unfoldable pub fetch_git : Parameters → Do h (Option Value)
  unfolding new_unit add_extraction repo_name
  fetch_git f = do
    reponame ←
        if empty f.reponame
        then expect h (repo_name f.uri) (text "fetch method = git failure parsing uri")
        else pure f.reponame
    let branch = if empty f.branch then text "origin/master" else f.branch
    p ← current h q
    id ← new_unit h lua q
    add_extraction h lua q (git_unit id f.uri (p.pwd ++ (text "/source/" ++ reponame)) branch)
    pure none

  unfoldable pub fetch_linkgit : Parameters → Do h (Option Value)
  unfolding add_extraction fetch_path git_hash
  fetch_linkgit f = do
    l ← fetch_path h q f.uri false
    hash ← on_sys h (git_hash h f.uri)
    add_extraction h lua q
        (git_dir_unit link_mode f.uri (behind_last b'/' (trim_right b'/' l)) hash)
    pure none

  unfoldable pub fetch_copyfile : Parameters → Do h (Option Value)
  unfolding add_extraction fetch_path hash_file
  fetch_copyfile f = do
    file_path ← fetch_path h q f.uri false
    hash ← on_sys h (hash_file h file_path)
    add_extraction h lua q (file_copy_unit file_path f.uri hash)
    pure none

  unfoldable pub fetch_copygit : Parameters → Do h (Option Value)
  unfolding add_extraction fetch_path git_hash
  fetch_copygit f = do
    src_path ← fetch_path h q f.uri false
    hash ← on_sys h (git_hash h src_path)
    add_extraction h lua q (git_dir_unit copy_mode src_path (text ".") hash)
    pure none

  unfoldable pub fetch_deps : BuildDir → Parameters → Do h (Option Value)
  unfolding set_package set_code_updated
  fetch_deps d f = do
    set_package h q (λ p. record p {
      deps_extraction = absolute_path d f.to false;
      deps_extraction_direct_only = f.listedonly;
    })
    set_code_updated h q
    pure none

  abbrev with_uri : Parameters → Do h (Option Value) → Do h (Option Value)
  with_uri f m = do
    require (not (empty f.uri))
        (custom (text "fetch method = " ++ (f.method ++ text " requires uri to be set")))
    m

  unfoldable pub fetch_method : BuildDir → Parameters → Do h (Option Value)
  unfolding fetch_download fetch_git fetch_linkgit fetch_copyfile fetch_copygit fetch_deps add_fetch
  fetch_method d f =
      if text_eq f.method (text "dl")
      then with_uri f (fetch_download f)
      else if text_eq f.method (text "git")
      then with_uri f (fetch_git f)
      else if text_eq f.method (text "linkgit")
      then with_uri f (fetch_linkgit f)
      else if text_eq f.method (text "link")
      then with_uri f (add_fetch (link f.uri))
      else if text_eq f.method (text "copyfile")
      then with_uri f (fetch_copyfile f)
      else if text_eq f.method (text "copygit")
      then with_uri f (fetch_copygit f)
      else if text_eq f.method (text "copy")
      then with_uri f (add_fetch (copy f.uri))
      else if text_eq f.method (text "deps")
      then fetch_deps d f
      else throw (custom (text "Unsupported fetch method"))

  -- Without an object to return, the value on top of the stack is: the last argument.
  unfoldable pub li_bd_fetch : List Value → Do h (List Value)
  unfolding fetch_parameters fetch_method
  li_bd_fetch args = do
    require (leb 1 (length args)) (custom (text "fetch() requires 1 argument"))
    self h lua q (text "fetch") args
    t ← expect h (as_table (arg 2 args)) (text "fetch() expects a table as the first argument")
    ptr ← check_argument (text "fetch_table") (text "1") (text "BuildDir") (arg 1 args)
    f ← fetch_parameters t no_parameters
    made ← fetch_method (build_dir_of lua ptr) f
    pure (elim made [ none ↦ top args | some object ↦ object ] ∷ [])
