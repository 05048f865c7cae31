-- ===== src/Files/Calls.antt =====
-- Calls of the operating system as actions on the state of a run. The log is not part of that
-- state: what a call writes to it is dropped here.
use buildsyspp.Shared.{ℕ, zero, suc, ◌≡◌, refl, Bool, true, false, Option, none, some, List, Text}
use buildsyspp.Command.{PackageCmd, package_cmd, add_args, run_verdict}
use buildsyspp.Host.{Host}
use buildsyspp.Effects.{Action, Outcome, ok, throws, filesystem_error, exhausted}
use buildsyspp.Effects.Quiet.{IsQuiet}
use buildsyspp.Model.{Progress, Sys}

abbrev is_zero : ℕ → Bool
is_zero zero = true
is_zero (suc n) = false

module _ (h : Host) where
  abbrev pub Act : Type 0 → Type 0
  Act A = Action (Sys h) A

  abbrev put_disk : Sys h → h.Disk → Sys h
  put_disk s d = record s { disk = d }

  -- PackageCmd::Run
  unfoldable pub run : PackageCmd → Act Bool
  run pc s = let (status, d) = h.run pc s.disk in (ok (run_verdict pc status).0, put_disk s d)

  -- A command that is made and given its arguments.
  abbrev pub command : Text → Text → List Text → PackageCmd
  command path app args = add_args (package_cmd h.environ path app) args

  -- std::system, compared with 0.
  unfoldable pub system_ok : Text → Act Bool
  system_ok cmd s = let (code, d) = h.system cmd s.disk in (ok (is_zero code), put_disk s d)

  unfoldable pub popen : Text → Act (Option (Text × ℕ))
  popen cmd s = let (answer, d) = h.popen cmd s.disk in (ok answer, put_disk s d)

  abbrev or_error : Sys h → Option h.Disk → Outcome (Unit {0}) × Sys h
  or_error s none = (throws filesystem_error, s)
  or_error s (some d) = (ok tt, put_disk s d)

  abbrev or_false : Sys h → Option h.Disk → Outcome Bool × Sys h
  or_false s none = (ok false, s)
  or_false s (some d) = (ok true, put_disk s d)

  -- The calls of std::filesystem that throw.
  unfoldable pub rename : Text → Text → Act (Unit {0})
  rename old new s = or_error s (h.rename old new s.disk)

  unfoldable pub remove : Text → Act (Unit {0})
  remove path s = or_error s (h.remove path s.disk)

  unfoldable pub remove_all : Text → Act (Unit {0})
  remove_all path s = or_error s (h.remove_all path s.disk)

  unfoldable pub create_directories : Text → Act (Unit {0})
  create_directories path s = or_error s (h.create_directories path s.disk)

  -- Those that take an std::error_code: the result says whether there was no error.
  unfoldable pub try_rename : Text → Text → Act Bool
  try_rename old new s = or_false s (h.rename old new s.disk)

  unfoldable pub try_remove : Text → Act Bool
  try_remove path s = or_false s (h.remove path s.disk)

  -- An std::ofstream that is opened, written and closed: whether it could be opened.
  unfoldable pub write_file : Text → Text → Act Bool
  write_file path bytes s = or_false s (h.write_file path bytes s.disk)

  unfoldable pub exists : Text → Act Bool
  exists path s = (ok (h.exists path s.disk), s)

  unfoldable pub is_directory : Text → Act Bool
  is_directory path s = (ok (h.is_directory path s.disk), s)

  -- None of these touches the packages.
  abbrev pub progress_of : Sys h → ℕ → Progress
  progress_of s = s.progress

  module _ {V : Type 0} (view : (ℕ → Progress) → V) where
    abbrev pub seen : Sys h → V
    seen s = view s.progress

    pub run-IsQuiet : (pc : PackageCmd) → IsQuiet seen (run pc)
    unfolding run
    run-IsQuiet pc = record { ends = λ s e. cc; same = λ s. refl }

    pub system_ok-IsQuiet : (cmd : Text) → IsQuiet seen (system_ok cmd)
    unfolding system_ok
    system_ok-IsQuiet cmd = record { ends = λ s e. cc; same = λ s. refl }

    pub popen-IsQuiet : (cmd : Text) → IsQuiet seen (popen cmd)
    unfolding popen
    popen-IsQuiet cmd = record { ends = λ s e. cc; same = λ s. refl }

    pub exists-IsQuiet : (path : Text) → IsQuiet seen (exists path)
    unfolding exists
    exists-IsQuiet path = record { ends = λ s e. cc; same = λ s. refl }

    pub is_directory-IsQuiet : (path : Text) → IsQuiet seen (is_directory path)
    unfolding is_directory
    is_directory-IsQuiet path = record { ends = λ s e. cc; same = λ s. refl }

    or_error-IsQuiet : (f : Sys h → Option h.Disk) → IsQuiet seen (λ (s : Sys h). or_error s (f s))
    or_error-IsQuiet f = record { ends = λ s. ends s (f s); same = λ s. same s (f s) }
      where
        ends : (s : Sys h) (o : Option h.Disk) → (or_error s o).0 ≡ exhausted → ⊥
        ends s none e = cc
        ends s (some d) e = cc

        same : (s : Sys h) (o : Option h.Disk) → seen (or_error s o).1 ≡ seen s
        same s none = refl
        same s (some d) = refl

    or_false-IsQuiet : (f : Sys h → Option h.Disk) → IsQuiet seen (λ (s : Sys h). or_false s (f s))
    or_false-IsQuiet f = record { ends = λ s. ends s (f s); same = λ s. same s (f s) }
      where
        ends : (s : Sys h) (o : Option h.Disk) → (or_false s o).0 ≡ exhausted → ⊥
        ends s none e = cc
        ends s (some d) e = cc

        same : (s : Sys h) (o : Option h.Disk) → seen (or_false s o).1 ≡ seen s
        same s none = refl
        same s (some d) = refl

    pub rename-IsQuiet : (old new : Text) → IsQuiet seen (rename old new)
    unfolding rename
    rename-IsQuiet old new = or_error-IsQuiet (λ s. h.rename old new s.disk)

    pub remove-IsQuiet : (path : Text) → IsQuiet seen (remove path)
    unfolding remove
    remove-IsQuiet path = or_error-IsQuiet (λ s. h.remove path s.disk)

    pub remove_all-IsQuiet : (path : Text) → IsQuiet seen (remove_all path)
    unfolding remove_all
    remove_all-IsQuiet path = or_error-IsQuiet (λ s. h.remove_all path s.disk)

    pub create_directories-IsQuiet : (path : Text) → IsQuiet seen (create_directories path)
    unfolding create_directories
    create_directories-IsQuiet path = or_error-IsQuiet (λ s. h.create_directories path s.disk)

    pub try_rename-IsQuiet : (old new : Text) → IsQuiet seen (try_rename old new)
    unfolding try_rename
    try_rename-IsQuiet old new = or_false-IsQuiet (λ s. h.rename old new s.disk)

    pub try_remove-IsQuiet : (path : Text) → IsQuiet seen (try_remove path)
    unfolding try_remove
    try_remove-IsQuiet path = or_false-IsQuiet (λ s. h.remove path s.disk)

    pub write_file-IsQuiet : (path bytes : Text) → IsQuiet seen (write_file path bytes)
    unfolding write_file
    write_file-IsQuiet path bytes = or_false-IsQuiet (λ s. h.write_file path bytes s.disk)

pub ruleset calls = (
  run-IsQuiet, system_ok-IsQuiet, popen-IsQuiet, exists-IsQuiet, is_directory-IsQuiet,
  rename-IsQuiet, remove-IsQuiet, remove_all-IsQuiet, create_directories-IsQuiet,
  try_rename-IsQuiet, try_remove-IsQuiet, write_file-IsQuiet,
)
