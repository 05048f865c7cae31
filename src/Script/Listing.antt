-- ===== src/Script/Listing.antt =====
-- src/interface/builddir.cpp with Package::listFiles, and src/interface/fetchunit.cpp: the methods
-- that only read.
use buildsyspp.Shared.{
  ℕ, suc, ◌==◌, Bool, not, ◌&&◌, List, [], ◌∷◌, ◌++◌, Text, text, if◌then◌else◌, length, has_text,
}
use buildsyspp.Host.{Host}
use buildsyspp.Effects.{custom, filesystem_error, pure, gets, from, require, ◌>>=◌, ◌>>◌}
use buildsyspp.Files.Calls.{Act, exists}
use buildsyspp.Fetch.{relative_path}
use buildsyspp.Session.{Do, on_sys}
use buildsyspp.Lua.{
  Lua, Value, number, string, table, Table, end_table, entry, arg, as_table, to_text,
  check_argument, fetch_unit_of,
}
use buildsyspp.Script.{expect, current}

-- The files among the names that are not in the list yet, at its end.
unfoldable pub add_new : (Text → Bool) → List Text → List Text → List Text
add_new is_file [] entries = entries
add_new is_file (f ∷ fs) entries =
    add_new is_file fs
      (if is_file f && not (has_text f entries) then entries ++ f ∷ [] else entries)

-- The table from 1 on. `show` is the text of a number.
abbrev pub numbered : (ℕ → Text) → ℕ → List Text → Table
numbered show i [] = end_table
numbered show i (f ∷ fs) = entry (number (show i) (show i)) (string f) (numbered show (suc i) fs)

module _ (h : Host) where
  unfoldable pub list_files : Text → Text → List Text → List Text → Act h (List Text)
  unfolding add_new exists
  list_files name location [] entries = pure entries
  list_files name location (ov ∷ ovs) entries = do
    let path = ov ++ (text "/package/" ++ (name ++ b'/' ∷ location))
    there ← exists h path
    next ←
        if there
        then (do
          listing ← gets (λ s. h.list_directory path s.disk)
          names ← from listing filesystem_error
          gets (λ s. add_new (λ f. not (h.is_directory (path ++ b'/' ∷ f) s.disk)) names entries))
        else pure entries
    list_files name location ovs next

  module _ (lua : Lua) (q : ℕ) where
    unfoldable pub li_bd_ls : List Value → Do h (List Value)
    unfolding list_files
    li_bd_ls args = do
      require (length args == 2) (custom (text "ls() requires exactly 1 argument"))
      expect h (as_table (arg 1 args)) (text "ls() must be called using : not .")
      location ← expect h (to_text (arg 2 args)) (text "ls() expects a string as the only argument")
      cfg ← gets (λ s. s.settings)
      p ← current h q
      entries ← on_sys h (list_files p.name location cfg.overlays [])
      pure (table (numbered lua.show 1 entries) ∷ [])

    unfoldable pub li_fu_path : List Value → Do h (List Value)
    unfolding relative_path
    li_fu_path args = do
      expect h (as_table (arg 1 args)) (text "fetch() must be called using : not .")
      ptr ← check_argument (text "path") (text "1") (text "FetchUnit") (arg 1 args)
      pure (string (relative_path (fetch_unit_of lua ptr)) ∷ [])
