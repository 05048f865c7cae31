-- ===== src/Package/Info.antt =====
-- src/package.cpp: the build info, output info and fetch info files of a package.
use buildsyspp.Shared.{
  ℕ, Bool, true, not, ◌&&◌, List, [], ◌∷◌, ◌++◌, Text, text, empty, has_text, if◌then◌else◌,
}
use buildsyspp.Host.{Host}
use buildsyspp.Effects.{custom, pure, gets, when, require, ◌>>=◌, ◌>>◌}
use buildsyspp.BuildInfo.{
  BuildDescription, add_output_info_file, add_build_info_file, add_extraction_info_file, print,
}
use buildsyspp.Model.{Settings, PackageDepend, Package, FetchInfo, set_progress}
use buildsyspp.Files.{hash_file}
use buildsyspp.Files.Calls.{Act, exists, rename, write_file, system_ok}
use buildsyspp.Fetch.{fetch_source_info}
use buildsyspp.Extraction.{extraction_info, extraction_source_info}

-- Package::BuildInfoType
pub data BuildInfoType : Type 0 where
  output_type build_type : BuildInfoType

pub record InfoFile : Type 0 where
  pub type : BuildInfoType
  pub file_path : Text
  pub hash : Text

abbrev pub add_info_file : InfoFile → BuildDescription → BuildDescription
add_info_file f = elim f.type [
  | output_type ↦ add_output_info_file f.file_path f.hash
  | build_type ↦ add_build_info_file f.file_path f.hash
]

-- The key by which sources count as one, and the line for a source.
abbrev pub source_key : FetchInfo → Text
source_key i = i.uri ++ b'\n' ∷ (i.path ++ b'\n' ∷ (i.ref ++ b'\n' ∷ i.hash))

abbrev pub source_line : FetchInfo → Text
source_line i =
    i.type
    ++ b'\t'
      ∷ (i.uri
          ++ b'\t'
            ∷ (i.path
                ++ b'\t' ∷ (i.ref ++ b'\t' ∷ (i.hash ++ b'\t' ∷ (i.hash_algorithm ++ b'\n' ∷ [])))))

-- The sources that the loop of writeFetchInfo writes, after those with a key in `seen`.
unfoldable pub distinct_sources : List Text → List FetchInfo → List FetchInfo
distinct_sources seen [] = []
distinct_sources seen (i ∷ is) =
    let again = distinct_sources seen is in
    let new = i ∷ distinct_sources (source_key i ∷ seen) is in
    if has_text (source_key i) seen then again else new

abbrev pub source_lines : List FetchInfo → Text
source_lines [] = []
source_lines (i ∷ is) = source_line i ++ source_lines is

module _ (h : Host) (replace_all : Text → Text → Text → Text) (cfg : Settings)
    (pkgs : ℕ → Package) where
  abbrev pub info_path : ℕ → Text
  info_path q = (pkgs q).bd.path ++ text "/.build.info"

  abbrev pub new_info_path : ℕ → Text
  new_info_path q = (pkgs q).bd.path ++ text "/.build.info.new"

  unfoldable pub set_info_hash : ℕ → Text → Act h (Unit {0})
  set_info_hash q hash = set_progress h q (λ r. record r { buildinfo_hash = hash })

  unfoldable pub update_build_info_hash_existing : ℕ → Act h (Unit {0})
  unfolding set_info_hash
  update_build_info_hash_existing q = do hash ← hash_file h (info_path q); set_info_hash q hash

  unfoldable pub update_build_info_hash : ℕ → Act h (Unit {0})
  unfolding set_info_hash
  update_build_info_hash q = do hash ← hash_file h (new_info_path q); set_info_hash q hash

  -- Package::buildInfo
  unfoldable pub build_info : ℕ → Act h InfoFile
  build_info q =
      if (pkgs q).hash_output
      then (do
        let file_path = (pkgs q).bd.rpath ++ text "/.output.info"
        hash ← hash_file h file_path
        pure (record { type = output_type; file_path = file_path; hash = hash }))
      else do
        hash ← gets (λ s. (s.progress q).buildinfo_hash)
        pure (record {
          type = build_type;
          file_path = (pkgs q).bd.rpath ++ text "/.build.info";
          hash = hash;
        })

  unfoldable pub write_build_info_file : ℕ → Act h (Unit {0})
  unfolding update_build_info_hash
  write_build_info_file q = do
    description ← gets (λ s. (s.progress q).build_description)
    write_file h (new_info_path q) (print description)
    update_build_info_hash q

  unfoldable pub describe : ℕ → (BuildDescription → BuildDescription) → Act h (Unit {0})
  describe q f = set_progress h q (λ r. record r { build_description = f r.build_description })

  -- The build info files of the dependencies, in order.
  unfoldable pub add_depends : ℕ → List PackageDepend → Act h (Unit {0})
  unfolding describe build_info
  add_depends q [] = pure tt
  add_depends q (d ∷ ds) = do
    file ← build_info d.target
    require (not (empty file.hash)) (
        custom (
          text "build info for "
          ++ ((pkgs d.target).name ++ text " is empty; you probably need to build that package")))
    describe q (add_info_file file)
    add_depends q ds

  unfoldable pub prepare_build_info : ℕ → Act h (Unit {0})
  unfolding write_build_info_file describe add_depends
  prepare_build_info q = do
    prepared ← gets (λ s. (s.progress q).build_info_prepared)
    if prepared
        then (do there ← exists h (new_info_path q); when (not there) (write_build_info_file q))
        else do
          file ← extraction_info h replace_all cfg q (pkgs q)
          describe q (add_extraction_info_file file.0 file.1)
          add_depends q (pkgs q).depends
          write_build_info_file q
          set_progress h q (λ r. record r { build_info_prepared = true })

  -- If the file cannot be opened nothing is written.
  unfoldable pub write_fetch_info : ℕ → Act h (Unit {0})
  unfolding distinct_sources
  write_fetch_info q = do
    sources ← fetch_source_info h cfg q (pkgs q) (pkgs q).fetch
    extraction ← extraction_source_info h replace_all cfg q (pkgs q) (pkgs q).extraction
    write_file h ((pkgs q).bd.path ++ text "/.fetch.info")
        (source_lines (distinct_sources [] (sources ++ extraction)))
    pure tt

  abbrev pub output_command : ℕ → Text
  output_command q =
      text "cd "
      ++ ((pkgs q).bd.new_path
          ++ (text "; find -type f -exec sha256sum {} \\; | sort -k 2 > "
              ++ ((pkgs q).bd.path ++ text "/.output.info")))

  unfoldable pub update_build_info : ℕ → Bool → Act h (Unit {0})
  update_build_info q update_output_hash = do
    rename h (new_info_path q) (info_path q)
    if update_output_hash && (pkgs q).hash_output
        then (do
          done ← system_ok h (output_command q)
          require done (custom (text "Failed to compute output hash for " ++ (pkgs q).name)))
        else pure tt
