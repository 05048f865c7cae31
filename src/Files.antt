-- ===== src/Files.antt =====
-- The calls of the operating system as actions, src/hash.cpp, and the search for files of
-- src/package.cpp.
pub mod Calls
pub mod Searches
pub mod Hex
use buildsyspp.Shared.{
  ℕ, ◌+◌, ◌/◌, ◌%◌, ◌≡◌, ◌==◌, Bool, true, false, ◌||◌, Option, none, some, List, [], ◌∷◌, ◌++◌,
  map, Text, text, text_eq, starts_with, split_first, if◌then◌else◌, ltb, empty,
}
use buildsyspp.Host.{Host}
use buildsyspp.Effects.{
  Action, Exception, file_not_found, out_of_range, pure, throw, gets, from, ◌>>=◌, ◌>>◌,
}
use buildsyspp.Model.{Settings, Package, Sys}

-- A hexadecimal digit, as `std::hex` prints it.
abbrev pub hex_digit : ℕ → ℕ
hex_digit n = if ltb n 10 then n + b'0' else n + 87

-- `std::setw(2)` with fill '0', for a byte.
unfoldable pub to_hex : List ℕ → Text
to_hex [] = []
to_hex (byte ∷ md_value) = hex_digit (byte / 16) ∷ hex_digit (byte % 16) ∷ to_hex md_value

-- `std::getline` until the end of the stream, from what is read of the line.
unfoldable pub get_lines : Text → Text → List Text
get_lines line [] = if empty line then [] else line ∷ []
get_lines line (c ∷ rest) =
    let longer = get_lines (line ++ c ∷ []) rest in
    let next = line ∷ get_lines [] rest in if c == b'\n' then next else longer

-- The first line `filename hash` of a digest file gives the hash.
unfoldable pub digest_hash : Text → List Text → Text
digest_hash filename [] = []
digest_hash filename (line ∷ lines) =
    let rest = digest_hash filename lines in
    elim (split_first b' ' line) [
      | none ↦ rest
      | some (fname, hash) ↦ if text_eq fname filename then hash else rest
    ]

abbrev pub digest_in : Text → Option Text → Text
digest_in filename none = []
digest_in filename (some bytes) = digest_hash filename (get_lines [] bytes)

module _ (h : Host) where
  -- A file that cannot be opened has the empty hash.
  unfoldable pub content_hash : Option Text → Text
  unfolding to_hex
  content_hash none = []
  content_hash (some bytes) = to_hex (h.sha256 bytes)

  unfoldable pub hash_file : Text → Action (Sys h) Text
  unfolding content_hash
  hash_file fname = gets (λ s. content_hash (h.read_file fname s.disk))

  unfoldable pub first_existing : List Text → h.Disk → Option Text
  first_existing [] d = none
  first_existing (path ∷ paths) d = if h.exists path d then some path else first_existing paths d

  -- The overlays in order, for a location that begins with '.'.
  unfoldable pub dot_paths : List Text → Text → List Text
  dot_paths [] location = []
  dot_paths (ov ∷ ovs) location = (ov ++ b'/' ∷ location) ∷ dot_paths ovs location

  -- In each overlay the package's directory, and then, if asked for, the overlay itself.
  unfoldable pub package_paths : List Text → Text → Text → Bool → List Text
  package_paths [] name location also_root = []
  package_paths (ov ∷ ovs) name location also_root =
      let rest = package_paths ovs name location also_root in
      (ov ++ (text "/package/" ++ (name ++ b'/' ∷ location)))
      ∷ (if also_root then (ov ++ b'/' ∷ location) ∷ rest else rest)

  unfoldable pub search_paths : Settings → Package → Text → Bool → List Text
  unfolding dot_paths package_paths
  search_paths cfg p [] also_root = []
  search_paths cfg p (c ∷ location) also_root =
      if c == b'.'
      then dot_paths cfg.overlays (c ∷ location)
      else package_paths cfg.overlays p.name (c ∷ location) also_root

  unfoldable pub relative_fetch_path : Settings → Package → Text → Bool → Action (Sys h) Text
  unfolding first_existing search_paths
  relative_fetch_path cfg p [] also_root = throw out_of_range
  relative_fetch_path cfg p (c ∷ rest) also_root =
      let location = c ∷ rest in
      if (c == b'/') || starts_with (text "dl/") location then pure location else do
        found ← gets (λ s. first_existing (search_paths cfg p location also_root) s.disk)
        from found (file_not_found location p.name)

  unfoldable pub absolute_fetch_path : Settings → Package → Text → Action (Sys h) Text
  absolute_fetch_path cfg p location = do
    path ← relative_fetch_path cfg p location false
    pure (p.pwd ++ b'/' ∷ path)

  -- The hash that the package's file `Digest` has for a file name, if any.
  unfoldable pub get_file_hash : Settings → Package → Text → Action (Sys h) Text
  unfolding digest_hash get_lines
  get_file_hash cfg p filename = do
    hashes_file ← relative_fetch_path cfg p (text "Digest") false
    content ← gets (λ s. h.read_file hashes_file s.disk)
    pure (digest_in filename content)
