-- ===== src/Script/Run.antt =====
-- src/interface/toplevel.cpp, src/lua.cpp and Package::process: the running of a package's file,
-- and of the files that it requires.
use buildsyspp.Shared.{
  ℕ, zero, suc, ◌==◌, Bool, true, Option, none, some, List, [], ◌++◌, Text, text, length,
}
use buildsyspp.Host.{Host}
use buildsyspp.BuildInfo.{add_require_file, add_package_file}
use buildsyspp.Effects.{
  Outcome, ok, throws, exhausted, custom, file_not_found, pure, throw, gets, require,
  catch_not_found, out_of_fuel, ◌>>=◌, ◌>>◌,
}
use buildsyspp.Files.{hash_file}
use buildsyspp.Session.{Session, Do, on_sys}
use buildsyspp.Lua.{
  Lua, Value, Function, f_builddir, f_depend, f_feature, f_intercept, f_keepstaging, f_name,
  f_package_name, f_hashoutput, f_require, f_optionally_require, f_overlayadd, bd_cmd, bd_extract,
  bd_fetch, bd_installfile, bd_ls, bd_patch, bd_restore, fu_path, Answer, values, error, Script,
  returns, raises, calls, arg, to_text, what,
}
use buildsyspp.Script.{expect, current, describe, fetch_path}
use buildsyspp.Script.TopLevel.{
  li_name, li_package_name, li_feature, li_builddir, li_intercept, li_keepstaging, li_hashoutput,
  li_overlay_add,
}
use buildsyspp.Script.Depend.{li_depend}
use buildsyspp.Script.BuildDir.{
  li_bd_restore, li_bd_extract, li_bd_cmd, li_bd_patch, li_bd_installfile,
}
use buildsyspp.Script.Listing.{li_bd_ls, li_fu_path}
use buildsyspp.Script.Fetch.{li_bd_fetch}

module _ (h : Host) (lua : Lua) (q : ℕ) where
  -- The file that a `require` is for, with the name that is recorded.
  unfoldable pub required : List Value → Do h (Option (Text × Text))
  unfolding fetch_path
  required args = do
    require (length args == 1) (custom (text "require() takes 1 argument"))
    name ← expect h (to_text (arg 1 args)) (text "Argument to require() must be a string")
    let fname = name ++ text ".lua"
    relative_fname ← fetch_path h q fname true
    there ← gets (λ s. h.exists relative_fname s.sys.disk)
    require there (file_not_found (text "require") fname)
    pure (some (fname, relative_fname))

  -- None for a file that is not found, which is optional.
  unfoldable pub optionally_required : List Value → Do h (Option (Text × Text))
  unfolding fetch_path
  optionally_required args = do
    require (length args == 1) (custom (text "optionally_require() takes 1 argument"))
    name ←
        expect h (to_text (arg 1 args)) (text "Argument to optionally_require() must be a string")
    let fname = name ++ text ".lua"
    catch_not_found
        (fetch_path h q fname true >>= (λ relative_fname. pure (some (fname, relative_fname))))
        (pure none)

  unfoldable pub record_required : Text → Text → Do h (Unit {0})
  unfolding describe hash_file
  record_required fname relative_fname = do
    hash ← on_sys h (hash_file h relative_fname)
    describe h q (add_require_file fname hash)

  abbrev pub Vm : Type 0
  Vm = lua.LuaState

  -- lua_guard: an exception becomes an error of Lua.
  abbrev guarded :
      {A : Type 0}
      → (A → Do h (Vm × Answer))
      → Vm
      → Outcome A × Session h
      → Outcome (Vm × Answer) × Session h
  guarded f v (ok a, t) = f a t
  guarded f v (throws e, t) = (ok (v, error (what lua e)), t)
  guarded f v (exhausted, t) = (exhausted, t)

  unfoldable pub guard : {A : Type 0} → Vm → Do h A → (A → Do h (Vm × Answer)) → Do h (Vm × Answer)
  unfolding what
  guard v m f s = guarded f v (m s)

  -- `process` is Lua::processFile, which throws the message of an error.
  module _ (process : Vm → Text → Do h (Vm × Answer)) where
    unfoldable pub run_required : Text → Text → Vm × Answer → Do h (Vm × Answer)
    unfolding guard record_required
    run_required fname relative_fname (v, error message) =
        pure (v, error (what lua (custom message)))
    run_required fname relative_fname (v, values vs) =
        guard v (record_required fname relative_fname) (λ _. pure (v, values vs))

    unfoldable pub require_file : Vm → Option (Text × Text) → Do h (Vm × Answer)
    unfolding run_required
    require_file v none = pure (v, values [])
    require_file v (some (fname, relative_fname)) =
        process v relative_fname >>= run_required fname relative_fname

    -- A function that runs no file.
    unfoldable pub plain : Vm → Do h (List Value) → Do h (Vm × Answer)
    unfolding guard
    plain v m = guard v m (λ vs. pure (v, values vs))

    unfoldable pub call : Function → List Value → Vm → Do h (Vm × Answer)
    unfolding plain guard required optionally_required require_file
    call f_builddir args v = plain v (li_builddir h q args)
    call f_depend args v = plain v (li_depend h q args)
    call f_feature args v = plain v (li_feature h q args)
    call f_intercept args v = plain v (li_intercept h q args)
    call f_keepstaging args v = plain v (li_keepstaging h q args)
    call f_name args v = plain v (li_name h q args)
    call f_package_name args v = plain v (li_package_name h q args)
    call f_hashoutput args v = plain v (li_hashoutput h q args)
    call f_overlayadd args v = plain v (li_overlay_add h q args)
    call bd_cmd args v = plain v (li_bd_cmd h lua q args)
    call bd_extract args v = plain v (li_bd_extract h lua q args)
    call bd_fetch args v = plain v (li_bd_fetch h lua q args)
    call bd_installfile args v = plain v (li_bd_installfile h lua q args)
    call bd_ls args v = plain v (li_bd_ls h lua q args)
    call bd_patch args v = plain v (li_bd_patch h lua q args)
    call bd_restore args v = plain v (li_bd_restore h lua q args)
    call fu_path args v = plain v (li_fu_path h lua q args)
    call f_require args v = guard v (required args) (require_file v)
    call f_optionally_require args v = guard v (optionally_required args) (require_file v)

    unfoldable pub run_script : Script Vm → Do h (Vm × Answer)
    unfolding call
    run_script (returns v vs) = pure (v, values vs)
    run_script (raises v message) = pure (v, error message)
    run_script (calls v f args k) = do (w, a) ← call f args v; run_script (k w a)

  -- Lua::processFile on fuel: the depth of files that require files.
  unfoldable pub process_file : ℕ → Vm → Text → Do h (Vm × Answer)
  unfolding run_script
  process_file zero v filename = out_of_fuel
  process_file (suc fuel) v filename = do
    content ← gets (λ s. h.read_file filename s.sys.disk)
    run_script (process_file fuel) (lua.load v filename content)

  -- An error of the package's file is thrown again.
  unfoldable pub processed : Vm × Answer → Do h Bool
  processed (v, values vs) = pure true
  processed (v, error message) = throw (custom message)

  -- Package::process
  unfoldable pub process : ℕ → Do h Bool
  unfolding describe hash_file process_file processed
  process fuel = do
    p ← current h q
    hash ← on_sys h (hash_file h p.file)
    describe h q (add_package_file p.file_short hash)
    r ← process_file fuel lua.new_state p.file
    processed r
