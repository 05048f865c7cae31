-- ===== src/Script/Kept.antt =====
-- The functions that a script can call keep to its scope.
use buildsyspp.Shared.{
  Option, length, suc, arith, none, some, ℕ, ◌<◌, ◌≡◌, Bool, true, false, List, [], ◌∷◌, Text,
}
use buildsyspp.Host.{Host}
use buildsyspp.BuildInfo.{BuildDescription}
use buildsyspp.Command.{PackageCmd}
use buildsyspp.Effects.{pure}
use buildsyspp.Features.{value_of}
use buildsyspp.Script.Features.{get_feature_value_lem}
use buildsyspp.Effects.Keeps.{Keeps-gets_bind, Keeps, Keeps-bind, Keeps-modify, kept}
use buildsyspp.Files.{relative_fetch_path, absolute_fetch_path, hash_file}
use buildsyspp.Files.Searches.{
  relative_fetch_path-IsQuiet, absolute_fetch_path-IsQuiet, hash_file-IsQuiet,
}
use buildsyspp.Model.{Settings, Package, ExtractionUnit}
use buildsyspp.Lua.{Lua, Value, Table, end_table, entry, check_argument}
use buildsyspp.Session.{Session, on_sys, set_package}
use buildsyspp.Session.Find.{whole}
use buildsyspp.Script.{describe, set_code_updated, current, fetch_path}
use buildsyspp.Script.Scope.{
  Registry, IsSame, Scope, Keeps-set_package, Keeps-set_progress, Keeps-on_sys,
}
use buildsyspp.Script.TopLevel.{
  li_name, li_package_name, told, read_feature, write_feature, li_feature, li_builddir,
  intercept_flags, intercept_args, li_intercept, li_keepstaging, li_hashoutput, li_overlay_add,
}
use buildsyspp.Script.BuildDir.{
  add_command, add_extraction, new_unit, li_bd_restore, li_bd_extract, each_string, li_bd_cmd,
  add_patches, li_bd_patch, li_bd_installfile,
}

module _ (E : Type 0) (h : Host) (lua : Lua) (z : Registry) (q : ℕ) (made : q < z.count) where
  abbrev HasScope : Session h → Type 0
  HasScope = Scope h z q

  pub change :
      (f : Package → Package)
      → ((p : Package) → IsSame (f p) p)
      → ((p : Package) → (f p).depends ≡ p.depends)
      → Keeps E HasScope (set_package h q f)
  change f = Keeps-set_package h z q made f

  pub describe-Keeps : (f : BuildDescription → BuildDescription) → Keeps E HasScope (describe h q f)
  unfolding describe
  describe-Keeps f =
      Keeps-set_progress h z q made (λ r. record r { build_description = f r.build_description })
        (λ r n. n)

  pub set_code_updated-Keeps : Keeps E HasScope (set_code_updated h q)
  unfolding set_code_updated
  set_code_updated-Keeps =
      Keeps-set_progress h z q made (λ r. record r { code_updated = true }) (λ r n. n)

  pub current-Keeps : Keeps E HasScope (current h q)
  unfolding current
  current-Keeps = search kept

  pub fetch_path-Keeps :
      (location : Text) (also_root : Bool) → Keeps E HasScope (fetch_path h q location also_root)
  unfolding fetch_path
  fetch_path-Keeps location also_root = Keeps-bind _ _ (search kept) (λ cfg.
      Keeps-bind _ _ current-Keeps (λ p.
        Keeps-on_sys h z q (relative_fetch_path h cfg p location also_root)
          (relative_fetch_path-IsQuiet h whole cfg p location also_root)))

  pub li_name-Keeps : (args : List Value) → Keeps E HasScope (li_name h q args)
  unfolding li_name
  li_name-Keeps args = search (kept, current-Keeps)

  pub li_package_name-Keeps : (args : List Value) → Keeps E HasScope (li_package_name h q args)
  unfolding li_package_name
  li_package_name-Keeps args = search (kept, current-Keeps)

  told-Keeps : (key : Text) (o : Option Text) → Keeps E HasScope (told h q key (value_of o))
  unfolding told
  told-Keeps key none = search (kept, describe-Keeps)
  told-Keeps key (some value) = search (kept, describe-Keeps)

  -- The fuel is enough for the package's name.
  read_feature-Keeps : (key : Text) → Keeps E HasScope (read_feature h q key)
  unfolding read_feature
  read_feature-Keeps key = Keeps-bind _ _ current-Keeps (λ p. Keeps-gets_bind _ _ (λ s i.
      rw (get_feature_value_lem (suc (suc (length p.name))) s.features p.name key (omega arith))
        (told-Keeps key _)))

  pub write_feature-Keeps :
      (key : Text) (args : List Value) → Keeps E HasScope (write_feature h q key args)
  unfolding write_feature
  write_feature-Keeps key args = Keeps-bind _ _ (search kept) (λ value.
      Keeps-bind _ _ (search kept)
        (λ override. Keeps-bind _ _ (Keeps-modify _ (λ s i. i)) (λ _. search kept)))

  pub li_feature-Keeps : (args : List Value) → Keeps E HasScope (li_feature h q args)
  unfolding li_feature
  li_feature-Keeps args = search (kept, read_feature-Keeps, write_feature-Keeps) depth 9

  pub li_builddir-Keeps : (args : List Value) → Keeps E HasScope (li_builddir h q args)
  unfolding li_builddir
  li_builddir-Keeps args = search (kept, current-Keeps, change) depth 9

  pub intercept_flags-Keeps :
      (t : Table) (install staging : Bool)
      → Keeps E HasScope (intercept_flags h q t install staging)
  unfolding intercept_flags
  intercept_flags-Keeps end_table install staging = search kept
  intercept_flags-Keeps (entry k v rest) install staging =
      let following = intercept_flags-Keeps rest in search (kept, following) depth 9

  pub intercept_args-Keeps : (args : List Value) → Keeps E HasScope (intercept_args h q args)
  unfolding intercept_args
  intercept_args-Keeps [] = search kept
  intercept_args-Keeps (v ∷ []) = search (kept, intercept_flags-Keeps)
  intercept_args-Keeps (v ∷ w ∷ vs) = search kept

  pub li_intercept-Keeps : (args : List Value) → Keeps E HasScope (li_intercept h q args)
  unfolding li_intercept
  li_intercept-Keeps args = search (kept, intercept_args-Keeps, change)

  pub li_keepstaging-Keeps : (args : List Value) → Keeps E HasScope (li_keepstaging h q args)
  unfolding li_keepstaging
  li_keepstaging-Keeps args = search (kept, change)

  pub li_hashoutput-Keeps : (args : List Value) → Keeps E HasScope (li_hashoutput h q args)
  unfolding li_hashoutput
  li_hashoutput-Keeps args = search (kept, change)

  pub li_overlay_add-Keeps : (args : List Value) → Keeps E HasScope (li_overlay_add h q args)
  unfolding li_overlay_add
  li_overlay_add-Keeps args = Keeps-bind _ _ (search kept) (λ _.
      Keeps-bind _ _ (search kept)
        (λ path. Keeps-bind _ _ (Keeps-modify _ (λ s i. i)) (λ _. search kept)))

  pub add_command-Keeps : (pc : PackageCmd) → Keeps E HasScope (add_command h lua q pc)
  unfolding add_command
  add_command-Keeps pc = search change

  pub add_extraction-Keeps : (u : ExtractionUnit) → Keeps E HasScope (add_extraction h lua q u)
  unfolding add_extraction
  add_extraction-Keeps u = search change

  pub new_unit-Keeps : Keeps E HasScope (new_unit h lua q)
  unfolding new_unit pure
  new_unit-Keeps = record { after = λ s i. i; ends = λ s i e. cc }

  pub checked-Keeps :
      (func place type : Text) (v : Value) → Keeps E HasScope (check_argument func place type v)
  unfolding check_argument
  checked-Keeps func place type v = search kept

  pub resolved :
      (cfg : Settings) (p : Package) (location : Text)
      → Keeps E HasScope (on_sys h (absolute_fetch_path h cfg p location))
  resolved cfg p location =
      Keeps-on_sys h z q (absolute_fetch_path h cfg p location)
        (absolute_fetch_path-IsQuiet h whole cfg p location)

  pub li_bd_restore-Keeps : (args : List Value) → Keeps E HasScope (li_bd_restore h lua q args)
  unfolding li_bd_restore
  li_bd_restore-Keeps args =
      search (kept, checked-Keeps, current-Keeps, resolved, add_command-Keeps) depth 14

  pub li_bd_extract-Keeps : (args : List Value) → Keeps E HasScope (li_bd_extract h lua q args)
  unfolding li_bd_extract
  li_bd_extract-Keeps args =
      search (kept, checked-Keeps, new_unit-Keeps, add_extraction-Keeps) depth 9

  pub each_string-Keeps :
      (message : Text) (f : PackageCmd → Text → PackageCmd) (t : Table) (pc : PackageCmd)
      → Keeps E HasScope (each_string h lua q message f t pc)
  unfolding each_string
  each_string-Keeps message f end_table pc = search kept
  each_string-Keeps message f (entry k v rest) pc =
      Keeps-bind _ _ (search kept) (λ s. each_string-Keeps message f rest (f pc s))

  pub li_bd_cmd-Keeps : (args : List Value) → Keeps E HasScope (li_bd_cmd h lua q args)
  unfolding li_bd_cmd
  li_bd_cmd-Keeps args =
      search (kept, checked-Keeps, current-Keeps, each_string-Keeps, add_command-Keeps) depth 16

  pub hashed : (file : Text) → Keeps E HasScope (on_sys h (hash_file h file))
  hashed file = Keeps-on_sys h z q (hash_file h file) (hash_file-IsQuiet h whole file)

  pub add_patches-Keeps :
      (level patch_path : Text) (t : Table)
      → Keeps E HasScope (add_patches h lua q level patch_path t)
  unfolding add_patches
  add_patches-Keeps level patch_path end_table = search kept
  add_patches-Keeps level patch_path (entry k v rest) = Keeps-bind _ _ (search kept) (λ fname.
      Keeps-bind _ _ (fetch_path-Keeps fname false) (λ uri. Keeps-bind _ _ (hashed uri) (λ hash.
        Keeps-bind _ _ (add_extraction-Keeps _) (λ _. add_patches-Keeps level patch_path rest))))

  pub li_bd_patch-Keeps : (args : List Value) → Keeps E HasScope (li_bd_patch h lua q args)
  unfolding li_bd_patch
  li_bd_patch-Keeps args = search (kept, checked-Keeps, add_patches-Keeps) depth 12

  pub li_bd_installfile-Keeps :
      (args : List Value) → Keeps E HasScope (li_bd_installfile h lua q args)
  unfolding li_bd_installfile
  li_bd_installfile-Keeps args = search (kept, change) depth 9
