-- ===== src/Lua.antt =====
-- src/lua.hpp, src/exceptions.hpp and src/interface/luainterface.h: the values that a package's
-- script passes to the functions of the program, and what a script is to the program.
-- Lua itself is no code of the repository. A string is the bytes that `lua_tostring` gives, without
-- a NUL; a table is its entries in the order of `lua_next`.
use buildsyspp.Shared.{
  ℕ, zero, suc, Bool, false, Option, none, some, List, [], ◌∷◌, ◌++◌, Text, text, text_eq,
  if◌then◌else◌,
}
use buildsyspp.Effects.{
  Exception, custom, no_key, file_not_found, filesystem_error, out_of_range, Action, from, require,
  ◌>>=◌, ◌>>◌,
}
use buildsyspp.Model.{BuildDir, FetchUnit}

-- A light userdata: the objects that the program hands out.
pub data Pointer : Type 0 where
  to_build_dir : BuildDir → Pointer
  to_fetch_unit : FetchUnit → Pointer

mutual
  -- A number is its text and the text of its integral part; `other` is a function, a thread or a
  -- full userdata.
  pub data Value : Type 0 where
    nil : Value
    boolean : Bool → Value
    number : (shown level : Text) → Value
    string : Text → Value
    table : Table → Value
    pointer : Pointer → Value
    other : Value

  pub data Table : Type 0 where
    end_table : Table
    entry : (key value : Value) → Table → Table

-- The functions that interfaceSetup registers, and the methods of the two kinds of object.
pub data Function : Type 0 where
  f_builddir f_depend f_feature f_intercept f_keepstaging f_name f_package_name f_hashoutput
        f_require f_optionally_require f_overlayadd :
      Function
  bd_cmd bd_extract bd_fetch bd_installfile bd_ls bd_patch bd_restore : Function
  fu_path : Function

-- What a call comes back with: values, or an error of Lua with its message.
pub data Answer : Type 0 where
  values : List Value → Answer
  error : Text → Answer

-- A script between two calls of the program's functions. `S` is the state of Lua.
pub data Script (S : Type 0) : Type 0 where
  returns : S → List Value → Script S
  raises : S → Text → Script S
  calls : S → Function → List Value → (S → Answer → Script S) → Script S

-- `load` is luaL_dofile on a file of that name and content; `to_level` reads a string as a number
-- and gives the text of its integral part; `show` is the text of a number; `as_build_dir` and `as_fetch_unit` are what is read
-- through a pointer to an object of the other class; `filesystem_text` and `range_text` are the
-- messages of the standard library's exceptions.
pub record Lua : Type 1 where
  pub LuaState : Type 0
  pub new_state : LuaState
  pub load : LuaState → Text → Option Text → Script LuaState
  pub to_level : Text → Option Text
  pub show : ℕ → Text
  pub as_build_dir : FetchUnit → BuildDir
  pub as_fetch_unit : BuildDir → FetchUnit
  pub filesystem_text : Text
  pub range_text : Text

-- `what()` of an exception.
unfoldable pub what : Lua → Exception → Text
what lua (custom m) = m
what lua no_key = text "Key does not exist"
what lua (file_not_found file place) = place ++ (text ": File not found '" ++ (file ++ b'\'' ∷ []))
what lua filesystem_error = lua.filesystem_text
what lua out_of_range = lua.range_text

-- The value at an index of the stack, from 1. Beyond the top there is nothing, which fails every
-- test as `nil` does.
abbrev pub arg : ℕ → List Value → Value
arg n [] = nil
arg zero (v ∷ vs) = nil
arg (suc zero) (v ∷ vs) = v
arg (suc (suc n)) (v ∷ vs) = arg (suc n) vs

-- The value on top.
abbrev pub top : List Value → Value
top [] = nil
top (v ∷ []) = v
top (v ∷ w ∷ vs) = top (w ∷ vs)

-- lua_type(v) == LUA_TSTRING, with the string.
abbrev pub as_string : Value → Option Text
as_string (string s) = some s
as_string nil = none
as_string (boolean b) = none
as_string (number shown level) = none
as_string (table t) = none
as_string (pointer p) = none
as_string other = none

-- lua_isstring(v), which numbers pass too, with lua_tostring(v).
abbrev pub to_text : Value → Option Text
to_text (string s) = some s
to_text (number shown level) = some shown
to_text nil = none
to_text (boolean b) = none
to_text (table t) = none
to_text (pointer p) = none
to_text other = none

-- lua_isboolean(v) with lua_toboolean(v).
abbrev pub as_boolean : Value → Option Bool
as_boolean (boolean b) = some b
as_boolean nil = none
as_boolean (number shown level) = none
as_boolean (string s) = none
as_boolean (table t) = none
as_boolean (pointer p) = none
as_boolean other = none

-- lua_istable(v), with the table.
abbrev pub as_table : Value → Option Table
as_table (table t) = some t
as_table nil = none
as_table (boolean b) = none
as_table (number shown level) = none
as_table (string s) = none
as_table (pointer p) = none
as_table other = none

-- lua_islightuserdata(v) with lua_topointer(v).
abbrev pub as_pointer : Value → Option Pointer
as_pointer (pointer p) = some p
as_pointer nil = none
as_pointer (boolean b) = none
as_pointer (number shown level) = none
as_pointer (string s) = none
as_pointer (table t) = none
as_pointer other = none

-- lua_isnumber(v), with lua_tonumber(v) cast to an int.
abbrev pub as_level : Lua → Value → Option Text
as_level lua (number shown level) = some level
as_level lua (string s) = lua.to_level s
as_level lua nil = none
as_level lua (boolean b) = none
as_level lua (table t) = none
as_level lua (pointer p) = none
as_level lua other = none

abbrev is_key : Text → Option Text → Bool
is_key name none = false
is_key name (some k) = text_eq k name

-- lua_gettable with a string for the key.
unfoldable pub get_table : Text → Table → Value
get_table name end_table = nil
get_table name (entry key value rest) =
    if is_key name (as_string key) then value else get_table name rest

-- CREATE_TABLE, LUA_SET_TABLE_TYPE and LUA_ADD_TABLE_FUNC: an object with its methods.
abbrev pub add_methods : List Text → Table → Table
add_methods [] t = t
add_methods (m ∷ ms) t = entry (string m) other (add_methods ms t)

abbrev pub add_strings : List (Text × Text) → Table → Table
add_strings [] t = t
add_strings ((k, s) ∷ ss) t = entry (string k) (string s) (add_strings ss t)

abbrev pub object : Text → Pointer → Table → Value
object type p members =
    table
      (entry (string (text "data")) (pointer p) (entry (string type) (string (text "yes")) members))

abbrev pub yes : Option Text → Bool
yes none = false
yes (some s) = text_eq s (text "yes")

module _ {S : Type 0} where
  -- CHECK_ARGUMENT_TYPE; `place` is the text of the index.
  unfoldable pub check_argument : Text → Text → Text → Value → Action S Pointer
  unfolding get_table
  check_argument func place type v = do
    let named = λ (t : Text). t ++ (text " as argument " ++ place)
    t ← from (as_table v) (custom (named (func ++ (text "() requires a " ++ type))))
    require (yes (to_text (get_table type t)))
        (custom (named (func ++ (text "() requires an object of type " ++ type))))
    from (as_pointer (get_table (text "data") t)) (
        custom (
          func
          ++ (text "() requires data of argument "
              ++ (place ++ (text " to contain something of type " ++ type)))))

-- The casts of the pointer.
abbrev pub build_dir_of : Lua → Pointer → BuildDir
build_dir_of lua (to_build_dir bd) = bd
build_dir_of lua (to_fetch_unit f) = lua.as_build_dir f

abbrev pub fetch_unit_of : Lua → Pointer → FetchUnit
fetch_unit_of lua (to_fetch_unit f) = f
fetch_unit_of lua (to_build_dir bd) = lua.as_fetch_unit bd
