-- ===== src/Extraction/Steps.antt =====
-- The extraction steps end, and change no package but for the mark that its code was updated.
use buildsyspp.Shared.{ℕ, false, List, [], ◌∷◌, Text}
use buildsyspp.Host.{Host}
use buildsyspp.Effects.Quiet.{IsQuiet, IsQuiet-bind, IsQuiet-pure, IsQuiet-if, quiet}
use buildsyspp.Model.{
  Settings, FetchUnit, Archive, of_file, of_fetch, ExtractionUnit, tar_unit, zip_unit, patch_unit,
  file_copy_unit, fetched_copy_unit, git_dir_unit, git_unit, Package,
}
use buildsyspp.Files.Calls.{seen, calls}
use buildsyspp.Files.Searches.{searches}
use buildsyspp.Fetch.Steps.{marks, set_unit_hash-IsQuiet, unit_hash_of-IsQuiet, fetch_info-IsQuiet}
use buildsyspp.Git.Steps.{
  git_diff_hash-IsQuiet, is_dirty-IsQuiet, git_unit_hash-IsQuiet, git_fetch_info-IsQuiet,
  git_extract-IsQuiet, git_dir_extract-IsQuiet,
}
use buildsyspp.Extraction.{
  archive_hash, fetched_copy_hash, print_git, print_unit, print_all, prepare_new_extract_info,
  extraction_required, run_or_throw, extract_patch, copy_file, extract_unit, extract_units, extract,
  extraction_info, archive_info, extraction_fetch_info, extraction_source_info,
}

module _ (h : Host) (replace_all : Text → Text → Text → Text) (cfg : Settings) (q : ℕ)
    (p : Package) where
  archive_hash-IsQuiet :
      (id : ℕ) (a : Archive) → IsQuiet (seen h marks) (archive_hash h replace_all cfg q p id a)
  unfolding archive_hash
  archive_hash-IsQuiet id (of_file fname) = search (quiet, searches, set_unit_hash-IsQuiet) depth 9
  archive_hash-IsQuiet id (of_fetch f) =
      search (quiet, unit_hash_of-IsQuiet, set_unit_hash-IsQuiet) depth 9

  fetched_copy_hash-IsQuiet :
      (id : ℕ) (f : FetchUnit)
      → IsQuiet (seen h marks) (fetched_copy_hash h replace_all cfg q p id f)
  unfolding fetched_copy_hash
  fetched_copy_hash-IsQuiet id f =
      search (quiet, unit_hash_of-IsQuiet, set_unit_hash-IsQuiet) depth 9

  print_git-IsQuiet :
      (mode uri to_dir local_path hash : Text)
      → IsQuiet (seen h marks) (print_git h replace_all cfg q p mode uri to_dir local_path hash)
  unfolding print_git
  print_git-IsQuiet mode uri to_dir local_path hash =
      search (quiet, is_dirty-IsQuiet, git_diff_hash-IsQuiet) depth 9

  print_unit-IsQuiet :
      (u : ExtractionUnit) → IsQuiet (seen h marks) (print_unit h replace_all cfg q p u)
  unfolding print_unit
  print_unit-IsQuiet (tar_unit id a) = search (quiet, archive_hash-IsQuiet)
  print_unit-IsQuiet (zip_unit id a) = search (quiet, archive_hash-IsQuiet)
  print_unit-IsQuiet (patch_unit level patch_path uri fname_short hash) = search quiet
  print_unit-IsQuiet (file_copy_unit uri fname_short hash) = search quiet
  print_unit-IsQuiet (fetched_copy_unit id f fname_short) =
      search (quiet, fetched_copy_hash-IsQuiet)
  print_unit-IsQuiet (git_dir_unit mode uri to_dir hash) = print_git-IsQuiet _ uri to_dir uri hash
  print_unit-IsQuiet (git_unit id remote local_dir refspec) =
      search (quiet, git_unit_hash-IsQuiet, print_git-IsQuiet)

  print_all-IsQuiet :
      (fname written : Text) (us : List ExtractionUnit)
      → IsQuiet (seen h marks) (print_all h replace_all cfg q p fname written us)
  unfolding print_all
  print_all-IsQuiet fname written [] = search quiet
  print_all-IsQuiet fname written (u ∷ us) =
      let rest = λ (w : Text). print_all-IsQuiet fname w us in
      search (quiet, calls, print_unit-IsQuiet, rest) depth 9

  pub prepare_new_extract_info-IsQuiet :
      IsQuiet (seen h marks) (prepare_new_extract_info h replace_all cfg q p)
  unfolding prepare_new_extract_info
  prepare_new_extract_info-IsQuiet = search (quiet, calls, print_all-IsQuiet) depth 9

  pub extraction_required-IsQuiet :
      IsQuiet (seen h marks) (extraction_required h replace_all cfg q p)
  unfolding extraction_required
  extraction_required-IsQuiet = search (quiet, calls) depth 9

  run_or_throw-IsQuiet :
      (app : Text) (args : List Text) (failure : Text)
      → IsQuiet (seen h marks) (run_or_throw h replace_all cfg q p app args failure)
  unfolding run_or_throw
  run_or_throw-IsQuiet app args failure = search (quiet, calls) depth 9

  copy_file-IsQuiet : (path : Text) → IsQuiet (seen h marks) (copy_file h replace_all cfg q p path)
  unfolding copy_file
  copy_file-IsQuiet path = run_or_throw-IsQuiet _ _ _

  extract_patch-IsQuiet :
      (level patch_path uri : Text)
      → IsQuiet (seen h marks) (extract_patch h replace_all cfg q p level patch_path uri)
  unfolding extract_patch
  extract_patch-IsQuiet level patch_path uri = search (quiet, calls) depth 12

  extract_unit-IsQuiet :
      (u : ExtractionUnit) → IsQuiet (seen h marks) (extract_unit h replace_all cfg q p u)
  unfolding extract_unit
  extract_unit-IsQuiet (tar_unit id a) = run_or_throw-IsQuiet _ _ _
  extract_unit-IsQuiet (zip_unit id a) = run_or_throw-IsQuiet _ _ _
  extract_unit-IsQuiet (patch_unit level patch_path uri fname_short hash) =
      extract_patch-IsQuiet level patch_path uri
  extract_unit-IsQuiet (file_copy_unit uri fname_short hash) = search (quiet, copy_file-IsQuiet)
  extract_unit-IsQuiet (fetched_copy_unit id f fname_short) = copy_file-IsQuiet _
  extract_unit-IsQuiet (git_dir_unit mode uri to_dir hash) =
      git_dir_extract-IsQuiet h replace_all cfg p mode uri to_dir
  extract_unit-IsQuiet (git_unit id remote local_dir refspec) =
      git_extract-IsQuiet h replace_all cfg p _

  extract_units-IsQuiet :
      (us : List ExtractionUnit) → IsQuiet (seen h marks) (extract_units h replace_all cfg q p us)
  unfolding extract_units
  extract_units-IsQuiet [] = search quiet
  extract_units-IsQuiet (u ∷ us) =
      IsQuiet-bind _ _ (extract_unit-IsQuiet u)
        (λ done. IsQuiet-if done _ _ (extract_units-IsQuiet us) (IsQuiet-pure false))

  pub extract-IsQuiet : IsQuiet (seen h marks) (extract h replace_all cfg q p)
  unfolding extract
  extract-IsQuiet = search (quiet, calls, extract_units-IsQuiet) depth 9

  pub extraction_info-IsQuiet : IsQuiet (seen h marks) (extraction_info h replace_all cfg q p)
  unfolding extraction_info
  extraction_info-IsQuiet = search (quiet, searches) depth 9

  archive_info-IsQuiet :
      (kind : Text) (id : ℕ) (a : Archive)
      → IsQuiet (seen h marks) (archive_info h replace_all cfg q p kind id a)
  unfolding archive_info
  archive_info-IsQuiet kind id (of_file fname) = search (quiet, archive_hash-IsQuiet)
  archive_info-IsQuiet kind id (of_fetch f) = search (quiet, fetch_info-IsQuiet)

  extraction_fetch_info-IsQuiet :
      (u : ExtractionUnit) → IsQuiet (seen h marks) (extraction_fetch_info h replace_all cfg q p u)
  unfolding extraction_fetch_info
  extraction_fetch_info-IsQuiet (tar_unit id a) = archive_info-IsQuiet _ id a
  extraction_fetch_info-IsQuiet (zip_unit id a) = archive_info-IsQuiet _ id a
  extraction_fetch_info-IsQuiet (patch_unit level patch_path uri fname_short hash) = search quiet
  extraction_fetch_info-IsQuiet (file_copy_unit uri fname_short hash) = search quiet
  extraction_fetch_info-IsQuiet (fetched_copy_unit id f fname_short) =
      search (quiet, fetch_info-IsQuiet)
  extraction_fetch_info-IsQuiet (git_dir_unit mode uri to_dir hash) = search quiet
  extraction_fetch_info-IsQuiet (git_unit id remote local_dir refspec) =
      git_fetch_info-IsQuiet h replace_all cfg p _

  pub extraction_source_info-IsQuiet :
      (us : List ExtractionUnit)
      → IsQuiet (seen h marks) (extraction_source_info h replace_all cfg q p us)
  unfolding extraction_source_info
  extraction_source_info-IsQuiet [] = search quiet
  extraction_source_info-IsQuiet (u ∷ us) =
      IsQuiet-bind _ _ (extraction_fetch_info-IsQuiet u)
        (λ source. IsQuiet-bind _ _ (extraction_source_info-IsQuiet us) (λ sources. IsQuiet-pure _))
