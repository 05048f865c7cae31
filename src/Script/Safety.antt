-- ===== src/Script/Safety.antt =====
-- A package's script, whatever it is, changes its own package only, and makes new packages.
use buildsyspp.Shared.{ℕ, ◌<◌, List, [], ◌∷◌, Text}
use buildsyspp.Host.{Host}
use buildsyspp.Effects.Quiet.{IsQuiet, quiet}
use buildsyspp.Effects.Keeps.{Keeps, Keeps-bind, kept}
use buildsyspp.Files.Calls.{seen, calls as host_calls}
use buildsyspp.Git.{git_hash, git_hash_ref}
use buildsyspp.Model.{BuildDir, FetchUnit}
use buildsyspp.Lua.{
  Lua, Value, nil, boolean, number, string, table, pointer, other, Table, end_table, entry,
}
use buildsyspp.Session.{Session, on_sys}
use buildsyspp.Session.Find.{whole}
use buildsyspp.Script.Scope.{Registry, Scope, Keeps-on_sys}
use buildsyspp.Script.Kept.{
  change, describe-Keeps, set_code_updated-Keeps, current-Keeps, fetch_path-Keeps, hashed,
  checked-Keeps, new_unit-Keeps, add_extraction-Keeps,
}
use buildsyspp.Script.Listing.{list_files, li_bd_ls, li_fu_path}
use buildsyspp.Script.Fetch.{
  Parameters, fetch_string, fetch_boolean, fetch_entry, fetch_parameters, add_fetch, fetch_download,
  fetch_git, fetch_linkgit, fetch_copyfile, fetch_copygit, fetch_deps, fetch_method, li_bd_fetch,
}
use buildsyspp.Script.Run.{required, optionally_required, record_required}

module _ (E : Type 0) (h : Host) (lua : Lua) (z : Registry) (q : ℕ) (made : q < z.count) where
  abbrev HasScope : Session h → Type 0
  HasScope = Scope h z q

  list_files-IsQuiet :
      (name location : Text) (ovs entries : List Text)
      → IsQuiet (seen h whole) (list_files h name location ovs entries)
  unfolding list_files
  list_files-IsQuiet name location [] entries = search quiet
  list_files-IsQuiet name location (ov ∷ ovs) entries =
      let following = list_files-IsQuiet name location ovs in
      search (quiet, host_calls, following) depth 9

  pub li_bd_ls-Keeps : (args : List Value) → Keeps E HasScope (li_bd_ls h lua q args)
  unfolding li_bd_ls
  li_bd_ls-Keeps args = search (kept, current-Keeps, Keeps-on_sys, list_files-IsQuiet) depth 12

  pub li_fu_path-Keeps : (args : List Value) → Keeps E HasScope (li_fu_path h lua q args)
  unfolding li_fu_path
  li_fu_path-Keeps args = search (kept, checked-Keeps)

  fetch_entry-Keeps :
      (key : Text) (v : Value) (f : Parameters) → Keeps E HasScope (fetch_entry h lua q key v f)
  unfolding fetch_entry fetch_string fetch_boolean
  fetch_entry-Keeps key nil f = search kept
  fetch_entry-Keeps key (boolean b) f = search kept
  fetch_entry-Keeps key (number shown level) f = search kept
  fetch_entry-Keeps key (string s) f = search kept
  fetch_entry-Keeps key (table t) f = search kept
  fetch_entry-Keeps key (pointer p) f = search kept
  fetch_entry-Keeps key other f = search kept

  fetch_parameters-Keeps :
      (t : Table) (f : Parameters) → Keeps E HasScope (fetch_parameters h lua q t f)
  unfolding fetch_parameters
  fetch_parameters-Keeps end_table f = search kept
  fetch_parameters-Keeps (entry k v rest) f =
      Keeps-bind _ _ (search kept) (λ key.
        Keeps-bind _ _ (fetch_entry-Keeps key v f) (λ next. fetch_parameters-Keeps rest next))

  add_fetch-Keeps : (u : FetchUnit) → Keeps E HasScope (add_fetch h lua q u)
  unfolding add_fetch
  add_fetch-Keeps u = search (kept, set_code_updated-Keeps, change)

  fetch_download-Keeps : (f : Parameters) → Keeps E HasScope (fetch_download h lua q f)
  unfolding fetch_download
  fetch_download-Keeps f =
      search (kept, new_unit-Keeps, add_extraction-Keeps, add_fetch-Keeps) depth 9

  fetch_git-Keeps : (f : Parameters) → Keeps E HasScope (fetch_git h lua q f)
  unfolding fetch_git
  fetch_git-Keeps f = search (kept, current-Keeps, new_unit-Keeps, add_extraction-Keeps) depth 9

  git_hash-IsQuiet : (dir : Text) → IsQuiet (seen h whole) (git_hash h dir)
  unfolding git_hash git_hash_ref
  git_hash-IsQuiet dir = search (quiet, host_calls) depth 9

  git_hashed : (dir : Text) → Keeps E HasScope (on_sys h (git_hash h dir))
  git_hashed dir = Keeps-on_sys h z q (git_hash h dir) (git_hash-IsQuiet dir)

  fetch_linkgit-Keeps : (f : Parameters) → Keeps E HasScope (fetch_linkgit h lua q f)
  unfolding fetch_linkgit
  fetch_linkgit-Keeps f = search (kept, fetch_path-Keeps, git_hashed, add_extraction-Keeps)

  fetch_copyfile-Keeps : (f : Parameters) → Keeps E HasScope (fetch_copyfile h lua q f)
  unfolding fetch_copyfile
  fetch_copyfile-Keeps f = search (kept, fetch_path-Keeps, hashed, add_extraction-Keeps)

  fetch_copygit-Keeps : (f : Parameters) → Keeps E HasScope (fetch_copygit h lua q f)
  unfolding fetch_copygit
  fetch_copygit-Keeps f = search (kept, fetch_path-Keeps, git_hashed, add_extraction-Keeps)

  fetch_deps-Keeps : (d : BuildDir) (f : Parameters) → Keeps E HasScope (fetch_deps h lua q d f)
  unfolding fetch_deps
  fetch_deps-Keeps d f = search (kept, change, set_code_updated-Keeps)

  fetch_method-Keeps : (d : BuildDir) (f : Parameters) → Keeps E HasScope (fetch_method h lua q d f)
  unfolding fetch_method
  fetch_method-Keeps d f =
      search
        (
          kept, fetch_download-Keeps, fetch_git-Keeps, fetch_linkgit-Keeps, add_fetch-Keeps,
          fetch_copyfile-Keeps, fetch_copygit-Keeps, fetch_deps-Keeps,
        )
        depth 16

  pub li_bd_fetch-Keeps : (args : List Value) → Keeps E HasScope (li_bd_fetch h lua q args)
  unfolding li_bd_fetch
  li_bd_fetch-Keeps args =
      search (kept, checked-Keeps, fetch_parameters-Keeps, fetch_method-Keeps) depth 12

  pub required-Keeps : (args : List Value) → Keeps E HasScope (required h lua q args)
  unfolding required
  required-Keeps args = search (kept, fetch_path-Keeps) depth 9

  pub optionally_required-Keeps :
      (args : List Value) → Keeps E HasScope (optionally_required h lua q args)
  unfolding optionally_required
  optionally_required-Keeps args = search (kept, fetch_path-Keeps) depth 9

  pub record_required-Keeps :
      (fname file : Text) → Keeps E HasScope (record_required h lua q fname file)
  unfolding record_required
  record_required-Keeps fname file = search (kept, hashed, describe-Keeps)
