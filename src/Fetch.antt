-- ===== src/Fetch.antt =====
-- src/fetch.cpp and the fetch units of src/include/buildsys.h. `q` is the number of the package `p`
-- to which a unit belongs.
pub mod Steps
pub mod Checked
use buildsyspp.Shared.{
  ℕ, ◌+◌, ◌≡◌, Bool, true, false, not, ◌&&◌, ◌||◌, Option, none, some, List, [], ◌∷◌, ◌++◌, Text,
  text, empty, text_eq, split_last, behind_last, trim_right, if◌then◌else◌,
}
use buildsyspp.Host.{Host}
use buildsyspp.Effects.{
  Action, custom, pure, throw, gets, modify, when, require, catch_not_found, ◌>>=◌, ◌>>◌,
}
use buildsyspp.Model.{
  Settings, FetchUnit, download, link, copy, Package, Progress, Sys, FetchInfo, object_text,
  set_object, set_progress, set_unit_hash,
}
use buildsyspp.Files.{hash_file, relative_fetch_path, absolute_fetch_path, get_file_hash}
use buildsyspp.Files.Calls.{Act, run, command, exists, remove, rename}

-- DownloadFetch::full_name: the name of the file to be downloaded.
unfoldable pub full_name : Text → Text → Text
full_name fetch_uri [] = elim (split_last b'/' fetch_uri) [ none ↦ [] | some (a, b) ↦ b ]
full_name fetch_uri (c ∷ filename) = c ∷ filename

unfoldable pub relative_path : FetchUnit → Text
unfolding full_name behind_last
relative_path (download id fetch_uri filename) = text "dl/" ++ full_name fetch_uri filename
relative_path (link fetch_uri) = behind_last b'/' fetch_uri
relative_path (copy fetch_uri) = behind_last b'/' fetch_uri

unfoldable pub force_updated : FetchUnit → Bool
force_updated (download id fetch_uri filename) = false
force_updated (link fetch_uri) = true
force_updated (copy fetch_uri) = true

abbrev pub sha256_name : Text → Text
sha256_name hash = if empty hash then [] else text "SHA-256"

module _ (h : Host) (cfg : Settings) (q : ℕ) (p : Package) where
  unfoldable pub set_code_updated : Act h (Unit {0})
  set_code_updated = set_progress h q (λ r. record r { code_updated = true })

  abbrev pub temporary : Text → Text
  temporary fullname = text "dl/" ++ (fullname ++ text ".tmp")

  -- One call of wget for a url, and the move of the file to its place.
  unfoldable pub wget : Text → Text → Act h Bool
  wget url fullname = do
    remove h (temporary fullname)
    run h
        (command h (text "dl") (text "wget") (url ∷ (text "-O" ++ (fullname ++ text ".tmp")) ∷ []))

  unfoldable pub promote : Text → Act h (Unit {0})
  promote fullname = rename h (temporary fullname) (text "dl/" ++ fullname)

  -- The file from the local tarball cache, if one is configured.
  unfoldable pub from_tarball_cache : Text → Act h Bool
  unfolding wget promote
  from_tarball_cache fullname = if empty cfg.tarball_cache then pure false else do
    hit ← wget (cfg.tarball_cache ++ b'/' ∷ fullname) fullname
    when hit (promote fullname)
    pure hit

  unfoldable pub from_upstream : Text → Text → Act h (Unit {0})
  unfolding wget promote
  from_upstream fetch_uri fullname = do
    fetched ← wget fetch_uri fullname
    require fetched (custom (text "Failed to fetch file"))
    promote fullname

  unfoldable pub retrieve : Text → Text → Act h (Unit {0})
  unfolding from_tarball_cache from_upstream
  retrieve fetch_uri fullname = do
    hit ← from_tarball_cache fullname
    when (not hit) (from_upstream fetch_uri fullname)

  abbrev pub dl_path : Text → Text
  dl_path fullname = p.pwd ++ (text "/dl/" ++ fullname)

  -- The last part of DownloadFetch::fetch: a file with another hash is removed.
  unfoldable pub check_hash : Text → Text → Act h Bool
  check_hash hash fullname = if empty hash then pure true else do
    found ← hash_file h (dl_path fullname)
    if text_eq hash found then pure true else do remove h (dl_path fullname); pure false

  unfoldable pub obtain : Text → Text → Text → Act h Bool
  unfolding retrieve check_hash
  obtain hash fetch_uri fullname = do
    present ← exists h (dl_path fullname)
    when (not present) (retrieve fetch_uri fullname)
    check_hash hash fullname

  unfoldable pub record_hash : Text → Text → Act h (Unit {0})
  record_hash fullname hash =
      modify (λ s. record s { dl_objects = set_object fullname hash s.dl_objects })

  -- A download that is not yet in the list of DLObjects is one with no hash.
  unfoldable pub download_fetch : ℕ → Text → Text → Act h Bool
  unfolding obtain record_hash
  download_fetch id fetch_uri filename = do
    let fullname = full_name fetch_uri filename
    hash ← gets (λ s. s.unit_hash id)
    recorded ← gets (λ s. object_text fullname s.dl_objects)
    if not (empty hash) && not (empty recorded) && not (text_eq recorded hash)
        then pure false
        else do
          when (not (empty hash) && empty recorded) (record_hash fullname hash)
          obtain hash fetch_uri fullname

  unfoldable pub download_hash : ℕ → Text → Text → Act h Text
  download_hash id fetch_uri filename = do
    hash ← get_file_hash h cfg p (full_name fetch_uri filename)
    require (not (empty hash)) (custom (text "Missing hash " ++ p.name))
    set_unit_hash h id hash
    pure hash

  -- After a failure the target is removed, and the link made again.
  unfoldable pub relink : Text → Act h Bool
  relink l = do
    let ln = command h p.bd.path (text "ln") (text "-sf" ∷ l ∷ text "." ∷ [])
    linked ← run h ln
    if linked then pure true else do
      let target = behind_last b'/' (trim_right b'/' l)
      removed ← run h (command h p.bd.path (text "rm") (text "-fr" ∷ target ∷ []))
      require removed (custom (text "Failed to ln (symbolically), could not remove target first"))
      again ← run h ln
      require again (custom (text "Failed to ln (symbolically), even after removing target first"))
      pure true

  unfoldable pub link_fetch : Text → Act h Bool
  unfolding relink
  link_fetch fetch_uri = do l ← relative_fetch_path h cfg p fetch_uri false; relink l

  unfoldable pub copy_fetch : Text → Act h Bool
  unfolding set_code_updated
  copy_fetch fetch_uri = do
    l ← absolute_fetch_path h cfg p fetch_uri
    copied ← run h (command h p.bd.path (text "cp") (text "-dpRuf" ∷ l ∷ text "." ∷ []))
    require copied (custom (text "Failed to copy (recursively)"))
    set_code_updated
    pure true

  unfoldable pub fetch_unit : FetchUnit → Act h Bool
  unfolding download_fetch link_fetch copy_fetch
  fetch_unit (download id fetch_uri filename) = download_fetch id fetch_uri filename
  fetch_unit (link fetch_uri) = link_fetch fetch_uri
  fetch_unit (copy fetch_uri) = copy_fetch fetch_uri

  unfoldable pub unit_hash_of : FetchUnit → Act h Text
  unfolding download_hash
  unit_hash_of (download id fetch_uri filename) = download_hash id fetch_uri filename
  unit_hash_of (link fetch_uri) = pure []
  unit_hash_of (copy fetch_uri) = pure []

  -- Fetch::fetch: the units in order, up to the first that fails.
  unfoldable pub fetch_all : List FetchUnit → Act h Bool
  unfolding fetch_unit
  fetch_all [] = pure true
  fetch_all (u ∷ us) = do
    fetched ← fetch_unit u
    let rest = fetch_all us
    if fetched then rest else pure false

  abbrev pub plain_info : Text → FetchUnit → Text → FetchInfo
  plain_info kind u uri = record {
    type = kind;
    uri = uri;
    path = relative_path u;
    ref = [];
    hash = [];
    hash_algorithm = [];
  }

  -- The hash that a download has, or that the digest file has for it.
  unfoldable pub known_hash : ℕ → Text → Act h Text
  known_hash id fullname = do
    hash ← gets (λ s. s.unit_hash id)
    if empty hash then catch_not_found (get_file_hash h cfg p fullname) (pure []) else pure hash

  unfoldable pub fetch_info : FetchUnit → Act h FetchInfo
  unfolding known_hash
  fetch_info (download id fetch_uri filename) = do
    hash ← known_hash id (full_name fetch_uri filename)
    pure (record (plain_info (text "download") (download id fetch_uri filename) fetch_uri) {
      hash = hash;
      hash_algorithm = sha256_name hash;
    })
  fetch_info (link fetch_uri) = pure (plain_info (text "link") (link fetch_uri) fetch_uri)
  fetch_info (copy fetch_uri) = pure (plain_info (text "copy") (copy fetch_uri) fetch_uri)

  unfoldable pub fetch_source_info : List FetchUnit → Act h (List FetchInfo)
  unfolding fetch_info
  fetch_source_info [] = pure []
  fetch_source_info (u ∷ us) = do
    source ← fetch_info u
    sources ← fetch_source_info us
    pure (source ∷ sources)
