-- ===== src/Extraction.antt =====
-- src/extraction.cpp and the extraction units of src/include/buildsys.h. `q` is the number of the
-- package `p` to which the units belong.
pub mod Steps
use buildsyspp.Shared.{
  ℕ, ◌+◌, ◌≡◌, ◌==◌, Bool, true, false, not, ◌&&◌, ◌||◌, Option, none, some, List, [], ◌∷◌, ◌++◌,
  Text, text, empty, starts_with, if◌then◌else◌,
}
use buildsyspp.Host.{Host}
use buildsyspp.Effects.{
  Action, Exception, custom, out_of_range, pure, throw, gets, when, require, from, ◌>>=◌, ◌>>◌,
}
use buildsyspp.Model.{
  Settings, FetchUnit, Archive, of_file, of_fetch, GitMode, ExtractionUnit, tar_unit, zip_unit,
  patch_unit, file_copy_unit, fetched_copy_unit, git_dir_unit, git_unit, Package, Progress, Sys,
  FetchInfo, set_unit_hash,
}
use buildsyspp.Files.{hash_file}
use buildsyspp.Files.Calls.{Act, run, command, system_ok, rename, write_file}
use buildsyspp.Fetch.{relative_path, unit_hash_of, fetch_info, sha256_name}
use buildsyspp.Git.{
  GitSource, git_unit_hash, git_fetch_info, git_extract, git_dir_extract, git_diff_hash, is_dirty,
  mode_name,
}

abbrev pub archive_uri : Archive → Text
archive_uri (of_file fname) = fname
archive_uri (of_fetch f) = relative_path f

abbrev pub git_source : ℕ → Text → Text → Text → GitSource
git_source id remote local_dir refspec = record {
  id = id;
  uri = remote;
  local_dir = local_dir;
  refspec = refspec;
}

-- A line of words with a space between them.
abbrev pub words : List Text → Text
words [] = []
words (w ∷ []) = w
words (w ∷ v ∷ ws) = w ++ b' ' ∷ words (v ∷ ws)

module _ (h : Host) (replace_all : Text → Text → Text → Text) (cfg : Settings) (q : ℕ)
    (p : Package) where
  -- CompressedFileExtractionUnit::HASH, which keeps what it finds.
  unfoldable pub archive_hash : ℕ → Archive → Act h Text
  archive_hash id a = do
    kept ← gets (λ s. s.unit_hash id)
    if empty kept
        then (do
          found ← elim a [
            | of_file fname ↦ hash_file h fname
            | of_fetch f ↦ unit_hash_of h cfg q p f
          ]
          set_unit_hash h id found
          pure found)
        else pure kept

  unfoldable pub fetched_copy_hash : ℕ → FetchUnit → Act h Text
  fetched_copy_hash id f = do
    kept ← gets (λ s. s.unit_hash id)
    if empty kept
        then (do found ← unit_hash_of h cfg q p f; set_unit_hash h id found; pure found)
        else pure kept

  -- The line of a git directory ends in the hash of its changes, if it has some.
  unfoldable pub print_git : Text → Text → Text → Text → Text → Act h Text
  print_git mode uri to_dir local_path hash = do
    dirty ← is_dirty h local_path
    changes ← if dirty then git_diff_hash h local_path else pure []
    pure (words (text "GitDir" ∷ mode ∷ uri ∷ to_dir ∷ hash ∷ changes ∷ []))

  -- ExtractionUnit::print, without the end of the line.
  unfoldable pub print_unit : ExtractionUnit → Act h Text
  unfolding archive_hash fetched_copy_hash print_git
  print_unit (tar_unit id a) = do
    hash ← archive_hash id a
    pure (words (text "TarFile" ∷ archive_uri a ∷ hash ∷ []))
  print_unit (zip_unit id a) = do
    hash ← archive_hash id a
    pure (words (text "ZipFile" ∷ archive_uri a ∷ hash ∷ []))
  print_unit (patch_unit level patch_path uri fname_short hash) =
      pure (words (text "PatchFile" ∷ level ∷ patch_path ∷ fname_short ∷ hash ∷ []))
  print_unit (file_copy_unit uri fname_short hash) =
      pure (words (text "FileCopy" ∷ fname_short ∷ hash ∷ []))
  print_unit (fetched_copy_unit id f fname_short) = do
    hash ← fetched_copy_hash id f
    pure (words (text "FetchedFileCopy" ∷ fname_short ∷ hash ∷ []))
  print_unit (git_dir_unit mode uri to_dir hash) =
      print_git (mode_name h replace_all cfg p mode) uri to_dir uri hash
  print_unit (git_unit id remote local_dir refspec) = do
    hash ← git_unit_hash h replace_all cfg p (git_source id remote local_dir refspec)
    print_git (text "fetch") remote [] local_dir hash

  -- Each line is flushed to the file before the next unit is printed.
  unfoldable pub print_all : Text → Text → List ExtractionUnit → Act h (Unit {0})
  unfolding print_unit
  print_all fname written [] = pure tt
  print_all fname written (u ∷ us) = do
    line ← print_unit u
    let content = written ++ (line ++ b'\n' ∷ [])
    write_file h fname content
    print_all fname content us

  unfoldable pub prepare_new_extract_info : Act h (Unit {0})
  unfolding print_all
  prepare_new_extract_info = do
    extracted ← gets (λ s. (s.progress q).extracted)
    let fname = p.bd.path ++ text "/.extraction.info.new"
    when (not extracted) (write_file h fname [] >> print_all fname [] p.extraction)

  unfoldable pub extraction_required : Act h Bool
  extraction_required = do
    extracted ← gets (λ s. (s.progress q).extracted)
    if extracted then pure false else do
      same ← system_ok h (
          text "cmp -s "
          ++ (p.bd.path
              ++ (text "/.extraction.info.new " ++ (p.bd.path ++ text "/.extraction.info"))))
      updated ← gets (λ s. (s.progress q).code_updated)
      pure (not same || updated)

  unfoldable pub run_or_throw : Text → List Text → Text → Act h Bool
  run_or_throw app args failure = do
    done ← run h (command h p.bd.path app args)
    require done (custom failure)
    pure true

  abbrev pub patch_args : Text → Text → List Text
  patch_args level uri = (text "-p" ++ level) ∷ text "-stN" ∷ text "-i" ∷ (p.pwd ++ b'/' ∷ uri) ∷ []

  -- A patch is tried before it is applied.
  unfoldable pub extract_patch : Text → Text → Text → Act h Bool
  extract_patch level patch_path uri = do
    fits ←
        run h (command h patch_path (text "patch") (patch_args level uri ++ text "--dry-run" ∷ []))
    require fits (custom (text "Will fail to patch"))
    patched ← run h (command h patch_path (text "patch") (patch_args level uri))
    require patched (custom (text "Truely failed to patch"))
    pure true

  abbrev pub from_root : Text → Text
  from_root path = if starts_with (text "/") path then path else p.pwd ++ b'/' ∷ path

  unfoldable pub copy_file : Text → Act h Bool
  unfolding run_or_throw
  copy_file path =
      run_or_throw (text "cp") (text "-pRLuf" ∷ from_root path ∷ text "." ∷ [])
        (text "Failed to copy file")

  unfoldable pub extract_unit : ExtractionUnit → Act h Bool
  unfolding run_or_throw extract_patch copy_file
  extract_unit (tar_unit id a) =
      run_or_throw (text "tar")
        (text "--no-same-owner" ∷ text "-xf" ∷ (p.pwd ++ b'/' ∷ archive_uri a) ∷ [])
        (text "Failed to extract file")
  extract_unit (zip_unit id a) =
      run_or_throw (text "unzip") (text "-o" ∷ (p.pwd ++ b'/' ∷ archive_uri a) ∷ [])
        (text "Failed to extract file")
  extract_unit (patch_unit level patch_path uri fname_short hash) =
      extract_patch level patch_path uri
  extract_unit (file_copy_unit uri fname_short hash) = do
    require (not (empty uri)) out_of_range
    copy_file uri
  extract_unit (fetched_copy_unit id f fname_short) = copy_file (relative_path f)
  extract_unit (git_dir_unit mode uri to_dir hash) =
      git_dir_extract h replace_all cfg p mode uri to_dir
  extract_unit (git_unit id remote local_dir refspec) =
      git_extract h replace_all cfg p (git_source id remote local_dir refspec)

  -- The units in order, up to the first that fails.
  unfoldable pub extract_units : List ExtractionUnit → Act h Bool
  unfolding extract_unit
  extract_units [] = pure true
  extract_units (u ∷ us) = do
    done ← extract_unit u
    let rest = extract_units us
    if done then rest else pure false

  unfoldable pub extract : Act h Bool
  unfolding extract_units
  extract = do
    done ← extract_units p.extraction
    if done
        then (do
          rename h (p.bd.path ++ text "/.extraction.info.new")
              (p.bd.path ++ text "/.extraction.info")
          pure true)
        else pure false

  -- Extraction::extractionInfo: the path of the file and the hash of the new one.
  unfoldable pub extraction_info : Act h (Text × Text)
  extraction_info = do
    let file_path = p.bd.rpath ++ text "/.extraction.info"
    hash ← hash_file h (file_path ++ text ".new")
    pure (file_path, hash)

  abbrev pub unit_info : Text → Text → Text → Text → FetchInfo
  unit_info kind uri path hash = record {
    type = kind;
    uri = uri;
    path = path;
    ref = [];
    hash = hash;
    hash_algorithm = sha256_name hash;
  }

  unfoldable pub archive_info : Text → ℕ → Archive → Act h FetchInfo
  unfolding archive_hash
  archive_info kind id (of_fetch f) = do
    source ← fetch_info h cfg q p f
    pure (record source { type = kind })
  archive_info kind id (of_file fname) = do
    hash ← archive_hash id (of_file fname)
    pure (unit_info kind fname [] hash)

  unfoldable pub extraction_fetch_info : ExtractionUnit → Act h FetchInfo
  unfolding archive_info
  extraction_fetch_info (tar_unit id a) = archive_info (text "TarFile") id a
  extraction_fetch_info (zip_unit id a) = archive_info (text "ZipFile") id a
  extraction_fetch_info (patch_unit level patch_path uri fname_short hash) =
      pure (unit_info (text "PatchFile") uri patch_path hash)
  extraction_fetch_info (file_copy_unit uri fname_short hash) =
      pure (unit_info (text "FileCopy") uri fname_short hash)
  extraction_fetch_info (fetched_copy_unit id f fname_short) = do
    source ← fetch_info h cfg q p f
    pure (record source { type = text "FetchedFileCopy"; path = fname_short })
  extraction_fetch_info (git_dir_unit mode uri to_dir hash) = pure (record {
    type = text "git-" ++ mode_name h replace_all cfg p mode;
    uri = uri;
    path = uri;
    ref = [];
    hash = hash;
    hash_algorithm = if empty hash then [] else text "SHA-1";
  })
  extraction_fetch_info (git_unit id remote local_dir refspec) =
      git_fetch_info h replace_all cfg p (git_source id remote local_dir refspec)

  -- Extraction::sourceInfo: units with neither uri nor path are left out.
  unfoldable pub extraction_source_info : List ExtractionUnit → Act h (List FetchInfo)
  unfolding extraction_fetch_info
  extraction_source_info [] = pure []
  extraction_source_info (u ∷ us) = do
    source ← extraction_fetch_info u
    sources ← extraction_source_info us
    pure (if not (empty source.uri) || not (empty source.path) then source ∷ sources else sources)
