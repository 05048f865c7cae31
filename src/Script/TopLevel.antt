-- ===== src/Script/TopLevel.antt =====
-- src/interface/toplevel.cpp: the functions that are no methods, but for those that run a file.
use buildsyspp.Shared.{
  ℕ, suc, ◌==◌, leb, Bool, true, false, ◌&&◌, List, [], ◌∷◌, ◌++◌, Text, text, text_eq,
  if◌then◌else◌, length,
}
use buildsyspp.Host.{Host}
use buildsyspp.BuildInfo.{add_feature_value, add_nil_feature_value}
use buildsyspp.Effects.{
  Outcome, ok, throws, exhausted, custom, no_key, file_not_found, filesystem_error, out_of_range,
  pure, throw, gets, modify, require, when, ◌>>=◌, ◌>>◌, out_of_fuel,
}
use buildsyspp.Features.{set_feature}
use buildsyspp.Model.{BuildDir}
use buildsyspp.Session.{Do, set_package}
use buildsyspp.Lua.{
  Value, nil, string, Table, end_table, entry, to_build_dir, arg, as_string, as_boolean, as_table,
  to_text, object, add_methods, add_strings,
}
use buildsyspp.Script.{expect, current, describe}
use buildsyspp.Script.Features.{get_feature_value}

-- The object that li_builddir_create completes.
unfoldable pub build_dir_object : BuildDir → Value
build_dir_object bd = object (text "BuildDir") (to_build_dir bd) (
    add_methods
      (text "cmd"
        ∷ text "extract"
        ∷ text "fetch"
        ∷ text "installfile"
        ∷ text "ls"
        ∷ text "patch"
        ∷ text "restore"
        ∷ [])
      (add_strings
        ((text "new_staging", bd.new_staging)
          ∷ (text "new_install", bd.new_install)
          ∷ (text "path", bd.path)
          ∷ (text "staging", bd.staging)
          ∷ [])
        end_table))

-- Package::add_overlay_path at the top: behind the first path, which is ".".
unfoldable pub add_overlay_top : Text → List Text → List Text
add_overlay_top path [] = path ∷ []
add_overlay_top path (ov ∷ ovs) = ov ∷ (path ∷ ovs)

module _ (h : Host) (q : ℕ) where
  unfoldable pub li_name : List Value → Do h (List Value)
  li_name args = do
    require (length args == 0) (custom (text "name() takes no arguments"))
    p ← current h q
    pure (string p.ns_name ∷ [])

  unfoldable pub li_package_name : List Value → Do h (List Value)
  li_package_name args = do
    require (length args == 0) (custom (text "package_name() takes no arguments"))
    p ← current h q
    pure (string p.name ∷ [])

  -- What becomes of a feature's value: it is returned, and added to the build description.
  unfoldable pub told : Text → Outcome Text → Do h (List Value)
  unfolding describe
  told key (ok value) = do
    ignored_features ← gets (λ s. s.settings.ignored_features)
    describe h q (add_feature_value ignored_features key value)
    pure (string value ∷ [])
  told key (throws no_key) = do describe h q (add_nil_feature_value key); pure (nil ∷ [])
  told key (throws (custom m)) = throw (custom m)
  told key (throws (file_not_found f w)) = throw (file_not_found f w)
  told key (throws filesystem_error) = throw filesystem_error
  told key (throws out_of_range) = throw out_of_range
  told key exhausted = out_of_fuel

  unfoldable pub read_feature : Text → Do h (List Value)
  unfolding told get_feature_value
  read_feature key = do
    p ← current h q
    value ← gets (λ s. get_feature_value (suc (suc (length p.name))) s.features p.name key)
    told key value

  unfoldable pub write_feature : Text → List Value → Do h (List Value)
  unfolding set_feature
  write_feature key args = do
    value ← expect h (as_string (arg 2 args)) (text "Second argument to feature() must be a string")
    override ←
        if length args == 3
        then expect h (as_boolean (arg 3 args))
            (text "Third argument to feature() must be boolean, if present")
        else pure false
    modify (λ s. record s { features = set_feature key value override s.features })
    pure []

  unfoldable pub li_feature : List Value → Do h (List Value)
  unfolding read_feature write_feature
  li_feature args = do
    require (leb 1 (length args) && leb (length args) 3)
        (custom (text "feature() takes 1 to 3 arguments"))
    key ← expect h (as_string (arg 1 args)) (text "First argument to feature() must be a string")
    if length args == 1 then read_feature key else write_feature key args

  unfoldable pub li_builddir : List Value → Do h (List Value)
  unfolding build_dir_object
  li_builddir args = do
    require (leb (length args) 1) (custom (text "builddir() takes 1 or no arguments"))
    clean_requested ←
        if length args == 1
        then expect h (as_boolean (arg 1 args))
            (text "builddir() expects a boolean as the first argument, if present")
        else pure false
    p ← current h q
    when clean_requested (set_package h q (λ r. record r { clean_before_build = true }))
    pure (build_dir_object p.bd ∷ [])

  -- The two flags, `install` and `staging`, after the entries of the table.
  unfoldable pub intercept_flags : Table → Bool → Bool → Do h (Bool × Bool)
  intercept_flags end_table install staging = pure (install, staging)
  intercept_flags (entry k v rest) install staging = do
    key ←
        expect h (as_string k)
          (text "intercept() requires a table with strings as keys" ++ b'\n' ∷ [])
    if text_eq key (text "staging")
        then expect h (as_boolean v)
            (text "intercept() requires a boolean argument to the staging parameter")
          >>= (λ b. intercept_flags rest install b)
        else if text_eq key (text "install")
        then expect h (as_boolean v)
            (text "intercept() requires a boolean argument to the install parameter")
          >>= (λ b. intercept_flags rest b staging)
        else throw (custom (text "intercept() called with unknown key '" ++ (key ++ b'\'' ∷ [])))

  unfoldable pub intercept_args : List Value → Do h (Bool × Bool)
  unfolding intercept_flags
  intercept_args [] = pure (true, false)
  intercept_args (v ∷ []) = do
    t ← expect h (as_table v) (text "intercept() requires a table as the first argument if present")
    intercept_flags t false false
  intercept_args (v ∷ w ∷ vs) = throw (custom (text "intercept() takes no or 1 argument(s)"))

  unfoldable pub li_intercept : List Value → Do h (List Value)
  unfolding intercept_args
  li_intercept args = do
    flags ← intercept_args args
    set_package h q (λ r. record r { intercept_install = flags.0; intercept_staging = flags.1 })
    pure []

  unfoldable pub li_keepstaging : List Value → Do h (List Value)
  li_keepstaging args = do
    require (length args == 0) (custom (text "keepstaging() takes no arguments"))
    set_package h q (λ r. record r { suppress_remove_staging = true })
    pure []

  unfoldable pub li_hashoutput : List Value → Do h (List Value)
  li_hashoutput args = do
    require (length args == 0) (custom (text "hashoutput() takes no arguments"))
    set_package h q (λ r. record r { hash_output = true })
    pure []

  unfoldable pub li_overlay_add : List Value → Do h (List Value)
  unfolding add_overlay_top
  li_overlay_add args = do
    require (length args == 1) (custom (text "overlayadd() takes 1 argument"))
    path ← expect h (to_text (arg 1 args)) (text "Argument to overlayadd() must be a string")
    modify (λ s. record s {
      settings = record s.settings { overlays = add_overlay_top path s.settings.overlays };
    })
    pure []
