-- ===== src/Script/Depend.antt =====
-- src/interface/toplevel.cpp: `depend`, which finds or makes the packages that are depended on.
use buildsyspp.Shared.{
  ℕ, ◌==◌, Bool, false, ◌||◌, Option, none, some, List, [], ◌∷◌, ◌++◌, Text, text, text_eq,
  if◌then◌else◌, length,
}
use buildsyspp.Host.{Host}
use buildsyspp.Effects.{custom, pure, throw, require, ◌>>=◌, ◌>>◌}
use buildsyspp.Model.{Package, PackageDepend}
use buildsyspp.Session.{Do, set_package, find_name_space, find_package}
use buildsyspp.Lua.{
  Value, nil, boolean, number, string, table, pointer, other, Table, end_table, entry, arg,
  as_string, as_boolean,
}
use buildsyspp.Script.{expect, current}

-- What the table of `depend` has asked for so far.
pub record Wanted : Type 0 where
  pub ns : Option Text
  pub locally : Bool
  pub package_names : List Text

abbrev pub nothing_wanted : Wanted
nothing_wanted = record { ns = none; locally = false; package_names = [] }

module _ (h : Host) (q : ℕ) where
  abbrev pub add_depend : PackageDepend → Package → Package
  add_depend d p = record p { depends = p.depends ++ d ∷ [] }

  unfoldable pub depend : Option Text → Bool → Text → Do h (Unit {0})
  unfolding find_package set_package current
  depend ns locally name = do
    p ← current h q
    target ← find_package h (elim ns [ none ↦ p.ns_name | some n ↦ n ]) name
    set_package h q (add_depend (record { target = target; locally = locally }))

  unfoldable pub depend_all : Option Text → Bool → List Text → Do h (Unit {0})
  unfolding depend
  depend_all ns locally [] = pure tt
  depend_all ns locally (name ∷ names) = do depend ns locally name; depend_all ns locally names

  abbrev not_names : Text
  not_names = text "depend() requires a single package name or table of package names" ++ b'\n' ∷ []

  unfoldable pub names_in : Table → List Text → Do h (List Text)
  names_in end_table names = pure names
  names_in (entry k v rest) names = do
    name ← expect h (as_string v) not_names
    names_in rest (names ++ name ∷ [])

  unfoldable pub names_of : Value → List Text → Do h (List Text)
  unfolding names_in
  names_of (string name) names = pure (names ++ name ∷ [])
  names_of (table t) names = names_in t names
  names_of nil names = throw (custom not_names)
  names_of (boolean b) names = throw (custom not_names)
  names_of (number shown level) names = throw (custom not_names)
  names_of (pointer p) names = throw (custom not_names)
  names_of other names = throw (custom not_names)

  -- One entry of the table.
  unfoldable pub depend_entry : Text → Value → Wanted → Do h Wanted
  unfolding names_of find_name_space
  depend_entry key v w =
      if text_eq key (text "package") || text_eq key (text "packages")
      then names_of v w.package_names >>= (λ names. pure (record w { package_names = names }))
      else if text_eq key (text "namespace")
      then (do
        n ←
            expect h (as_string v)
              (text "depend() requires a string for the namespace name" ++ b'\n' ∷ [])
        find_name_space h n
        pure (record w { ns = some n }))
      else if text_eq key (text "locally")
      then expect h (as_boolean v) (text "depend() requires a boolean for the locally parameter")
        >>= (λ b. pure (record w { locally = b }))
      else throw (custom (text "depend() called with unknown key '" ++ (key ++ b'\'' ∷ [])))

  unfoldable pub depend_table : Table → Wanted → Do h Wanted
  unfolding depend_entry
  depend_table end_table w = pure w
  depend_table (entry k v rest) w = do
    key ←
        expect h (as_string k) (text "depend() requires a table with strings as keys" ++ b'\n' ∷ [])
    next ← depend_entry key v w
    depend_table rest next

  unfoldable pub depend_named : Text → List Value → Do h (Unit {0})
  unfolding depend find_name_space
  depend_named name args =
      if length args == 2
      then (do
        n ←
            expect h (as_string (arg 2 args))
              (text "depend() takes a string as the second argument")
        find_name_space h n
        depend (some n) false name)
      else depend none false name

  unfoldable pub depend_on : Value → List Value → Do h (Unit {0})
  unfolding depend_named depend_table depend_all
  depend_on (string name) args = depend_named name args
  depend_on (table t) args = do
    w ← depend_table t nothing_wanted
    depend_all w.ns w.locally w.package_names
  depend_on nil args = throw (custom (text "depend() takes a string or a table of strings"))
  depend_on (boolean b) args = throw (custom (text "depend() takes a string or a table of strings"))
  depend_on (number shown level) args =
      throw (custom (text "depend() takes a string or a table of strings"))
  depend_on (pointer p) args = throw (custom (text "depend() takes a string or a table of strings"))
  depend_on other args = throw (custom (text "depend() takes a string or a table of strings"))

  unfoldable pub li_depend : List Value → Do h (List Value)
  unfolding depend_on
  li_depend args = do
    require (length args == 1 || length args == 2)
        (custom (text "depend() takes 1 argument or 2 arguments"))
    depend_on (arg 1 args) args
    pure []
