-- ===== src/Script.antt =====
-- src/interface: the functions that the script of a package calls, and the running of a script.
-- `q` is the current package, that of li_get_package.
pub mod Features
pub mod TopLevel
pub mod Depend
pub mod BuildDir
pub mod Listing
pub mod Fetch
pub mod Run
pub mod Scope
pub mod Found
pub mod Depended
pub mod Kept
pub mod Safety
pub mod Running
pub mod Ending
pub mod Sequence
pub mod Start
use buildsyspp.Shared.{
  ℕ, ◌==◌, Bool, true, false, Option, none, some, List, [], ◌∷◌, ◌++◌, Text, text,
}
use buildsyspp.Host.{Host}
use buildsyspp.BuildInfo.{BuildDescription}
use buildsyspp.Effects.{Exception, custom, Action, pure, gets, from, ◌>>=◌}
use buildsyspp.Model.{Package, set_progress}
use buildsyspp.Files.{relative_fetch_path}
use buildsyspp.Session.{Do, on_sys, set_package}
use buildsyspp.Lua.{Value}

module _ (h : Host) where
  -- An exception unless there is a value of the kind that is asked for.
  abbrev pub expect : {A : Type 0} → Option A → Text → Do h A
  expect o message = from o (custom message)

  module _ (q : ℕ) where
    unfoldable pub current : Do h Package
    unfolding gets
    current = gets (λ s. s.packages q)

    unfoldable pub describe : (BuildDescription → BuildDescription) → Do h (Unit {0})
    unfolding on_sys set_progress
    describe f =
        on_sys h (set_progress h q (λ r. record r { build_description = f r.build_description }))

    unfoldable pub set_code_updated : Do h (Unit {0})
    unfolding on_sys set_progress
    set_code_updated = on_sys h (set_progress h q (λ r. record r { code_updated = true }))

    -- Package::relative_fetch_path of the current package.
    unfoldable pub fetch_path : Text → Bool → Do h Text
    unfolding on_sys relative_fetch_path current
    fetch_path location also_root = do
      cfg ← gets (λ s. s.settings)
      p ← current
      on_sys h (relative_fetch_path h cfg p location also_root)
