-- ===== src/Host.antt =====
-- The operating system as the program sees it.
-- Nothing here is code of the repository.
use buildsyspp.Shared.{ℕ, Bool, Option, List, Text}
use buildsyspp.Command.{PackageCmd, Status}

-- `none` is an error of the call. `run` is fork, exec and waitpid of a command; `system` is
-- std::system and gives its return value; `popen` gives the output of a command and the value of
-- pclose; `seconds` reads the clock; `cwd` is the
-- current directory; `list_directory` gives the names of the entries of a directory.
pub record Host : Type 1 where
  pub Disk : Type 0
  pub environ : List Text
  pub run : PackageCmd → Disk → Status × Disk
  pub system : Text → Disk → ℕ × Disk
  pub popen : Text → Disk → Option (Text × ℕ) × Disk
  pub exists : Text → Disk → Bool
  pub is_directory : Text → Disk → Bool
  pub read_file : Text → Disk → Option Text
  pub write_file : Text → Text → Disk → Option Disk
  pub rename : Text → Text → Disk → Option Disk
  pub remove : Text → Disk → Option Disk
  pub remove_all : Text → Disk → Option Disk
  pub create_directories : Text → Disk → Option Disk
  pub sha256 : Text → List ℕ
  pub seconds : Disk → ℕ
  pub cwd : Option Text
  pub list_directory : Text → Disk → Option (List Text)
