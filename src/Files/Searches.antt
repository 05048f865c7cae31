-- ===== src/Files/Searches.antt =====
-- The searches for files end, and leave the packages alone.
use buildsyspp.Shared.{ℕ, Bool, [], ◌∷◌, Text}
use buildsyspp.Host.{Host}
use buildsyspp.Effects.Quiet.{IsQuiet, quiet}
use buildsyspp.Model.{Settings, Package, Progress}
use buildsyspp.Files.{hash_file, relative_fetch_path, absolute_fetch_path, get_file_hash}
use buildsyspp.Files.Calls.{seen}

module _ (h : Host) {V : Type 0} (view : (ℕ → Progress) → V) where
  pub hash_file-IsQuiet : (fname : Text) → IsQuiet (seen h view) (hash_file h fname)
  unfolding hash_file
  hash_file-IsQuiet fname = search quiet

  pub relative_fetch_path-IsQuiet :
      (cfg : Settings) (p : Package) (location : Text) (also_root : Bool)
      → IsQuiet (seen h view) (relative_fetch_path h cfg p location also_root)
  unfolding relative_fetch_path
  relative_fetch_path-IsQuiet cfg p [] also_root = search quiet
  relative_fetch_path-IsQuiet cfg p (c ∷ rest) also_root = search quiet

  pub absolute_fetch_path-IsQuiet :
      (cfg : Settings) (p : Package) (location : Text)
      → IsQuiet (seen h view) (absolute_fetch_path h cfg p location)
  unfolding absolute_fetch_path
  absolute_fetch_path-IsQuiet cfg p location = search (quiet, relative_fetch_path-IsQuiet)

  pub get_file_hash-IsQuiet :
      (cfg : Settings) (p : Package) (filename : Text)
      → IsQuiet (seen h view) (get_file_hash h cfg p filename)
  unfolding get_file_hash
  get_file_hash-IsQuiet cfg p filename = search (quiet, relative_fetch_path-IsQuiet)

pub ruleset searches = (
  hash_file-IsQuiet, relative_fetch_path-IsQuiet, absolute_fetch_path-IsQuiet,
  get_file_hash-IsQuiet,
)
