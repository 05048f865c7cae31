-- ===== src/Git.antt =====
-- src/extraction/git.cpp: the git directories that a package extracts, by their number and fields.
pub mod Steps
use buildsyspp.Shared.{
  ℕ, zero, suc, ◌+◌, ◌≡◌, ◌==◌, leb, Bool, true, false, not, ◌&&◌, ◌||◌, Option, none, some, List,
  [], ◌∷◌, ◌++◌, Text, text, empty, length, text_eq, split_first, starts_with, trim_right,
  if◌then◌else◌,
}
use buildsyspp.Host.{Host}
use buildsyspp.Effects.{
  Action, Exception, custom, pure, gets, modify, when, require, from, catch_not_found, ◌>>=◌, ◌>>◌,
}
use buildsyspp.Model.{
  Settings, GitMode, link_mode, copy_mode, Package, Progress, Sys, FetchInfo, object_text,
  set_object, update, set_unit_hash,
}
use buildsyspp.Files.{get_file_hash}
use buildsyspp.Files.Calls.{Act, run, command, system_ok, popen, is_directory}

-- `--git-local-mirror-map`: a prefix and its replacement, with one comma between them. The result
-- is the list of pairs with the new one.
unfoldable pub add_ref_if_able_pattern : Text → List (Text × Text) → Option (List (Text × Text))
add_ref_if_able_pattern pattern pairs = elim (split_first b',' pattern) [
  | none ↦ none
  | some (prefix, replacement) ↦ elim (split_first b',' replacement) [
    | some _ ↦ none
    | none ↦
        if empty prefix || empty replacement
        then none
        else some (pairs ++ (prefix, replacement) ∷ [])
  ]
]

-- `isxdigit`
abbrev pub is_hex_digit : ℕ → Bool
is_hex_digit c =
    (leb b'0' c && leb c b'9') || ((leb b'a' c && leb c b'f') || (leb b'A' c && leb c b'F'))

abbrev pub all_hex : Text → Bool
all_hex [] = true
all_hex (c ∷ s) = is_hex_digit c && all_hex s

unfoldable pub refspec_is_commitid : Text → Bool
refspec_is_commitid refspec = (length refspec == 40) && all_hex refspec

-- `replace_all` is that of boost.
module _ (replace_all : Text → Text → Text → Text) where
  unfoldable pub get_git_ref_dir : List (Text × Text) → Text → Text
  get_git_ref_dir [] remote = []
  get_git_ref_dir ((first, second) ∷ pairs) remote =
      if starts_with first remote
      then replace_all remote first second
      else get_git_ref_dir pairs remote

-- The text up to a NUL byte, as the std::string of a buffer, of at most `n` bytes.
abbrev pub c_string : ℕ → Text → Text
c_string zero s = []
c_string (suc n) [] = []
c_string (suc n) (c ∷ s) = if c == 0 then [] else c ∷ c_string n s

-- `res.erase(res.find_last_not_of(" \n\r\t") + 1)`
unfoldable pub trim_space : Text → Text
trim_space [] = []
trim_space (c ∷ s) =
    let rest = trim_space s in
    if ((c == b' ') || ((c == b'\n') || ((c == b'\r') || (c == b'\t')))) && empty rest
    then []
    else c ∷ rest

module _ (h : Host) where
  abbrev pub rev_parse_failed : Text → Text → Text
  rev_parse_failed gdir refspec = text "git rev-parse " ++ (refspec ++ (text " failed in " ++ gdir))

  unfoldable pub git_hash_ref : Text → Text → Act h Text
  git_hash_ref gdir refspec = do
    opened ← popen h (text "cd " ++ (gdir ++ (text " && git rev-parse " ++ refspec)))
    answer ← from opened (custom (text "git rev-parse ref failed"))
    require ((answer.1 == 0) && not (empty answer.0)) (custom (rev_parse_failed gdir refspec))
    pure (c_string 40 answer.0)

  unfoldable pub git_hash : Text → Act h Text
  unfolding git_hash_ref
  git_hash gdir = git_hash_ref gdir (text "HEAD")

  unfoldable pub git_diff_hash : Text → Act h Text
  git_diff_hash gdir = do
    opened ← popen h (text "cd " ++ (gdir ++ text " && git diff HEAD | sha1sum"))
    answer ← from opened (custom (text "git diff | sha1sum failed"))
    pure (c_string 40 answer.0)

  unfoldable pub git_remote : Text → Text → Act h Text
  git_remote gdir remote = do
    opened ← popen h (
        text "cd "
        ++ (gdir ++ (text " && git config --local --get remote." ++ (remote ++ text ".url"))))
    answer ← from opened (custom (text "git config --local --get remote. .url failed"))
    pure (trim_space (c_string 1024 answer.0))

  unfoldable pub is_dirty : Text → Act h Bool
  is_dirty local_path = do
    there ← is_directory h local_path
    if there
        then (do
          clean ← system_ok h (text "cd " ++ (local_path ++ text " && git diff --quiet HEAD"))
          pure (not clean))
        else pure false

-- A git repository that is fetched: its fields, but for `hash` and `fetched`.
pub record GitSource : Type 0 where
  pub id : ℕ
  pub uri : Text
  pub local_dir : Text
  pub refspec : Text

module _ (h : Host) (replace_all : Text → Text → Text → Text) (cfg : Settings) (p : Package) where
  unfoldable pub update_origin : GitSource → Act h (Unit {0})
  update_origin g = do
    remote_url ← git_remote h g.local_dir (text "origin")
    let verb = if empty remote_url then text "add" else text "set-url"
    if text_eq remote_url g.uri then pure tt else do
      set ←
          run h
            (command h g.local_dir (text "git") (text "remote" ∷ verb ∷ text "origin" ∷ g.uri ∷ []))
      require set (custom (text "Failed: git remote set-url origin"))
      fetched ←
          run h
            (command h g.local_dir (text "git") (text "fetch" ∷ text "origin" ∷ text "--tags" ∷ []))
      require fetched (custom (text "Failed: git fetch origin --tags"))

  -- The repository is there: fetch from its origin unless it has the commit.
  unfoldable pub refresh : GitSource → Act h (Unit {0})
  unfolding update_origin
  refresh g = do
    update_origin g
    has_commit ← system_ok h (
        text "cd "
        ++ (g.local_dir ++ (text "; git cat-file -e " ++ (g.refspec ++ text " 2>/dev/null"))))
    if has_commit then pure tt else do
      fetched ←
          run h
            (command h g.local_dir (text "git") (text "fetch" ∷ text "origin" ∷ text "--tags" ∷ []))
      require fetched (custom (text "Failed: git fetch origin --tags"))

  abbrev pub reference_args : Text → List Text
  reference_args local_ref_dir =
      if empty local_ref_dir then [] else text "--reference-if-able" ∷ local_ref_dir ∷ []

  unfoldable pub clone : GitSource → Act h (Unit {0})
  clone g = do
    let local_ref_dir = get_git_ref_dir replace_all cfg.git_ref_if_able_pairs g.uri
    cloned ← run h (
        command h p.pwd (text "git")
          (text "clone" ∷ text "-n" ∷ (reference_args local_ref_dir ++ g.uri ∷ g.local_dir ∷ [])))
    require cloned (custom (text "Failed to git clone"))

  -- A branch must be checked out already; anything else is checked out, but for HEAD.
  unfoldable pub check_out : GitSource → Act h (Unit {0})
  check_out g = if text_eq g.refspec (text "HEAD") then pure tt else do
    is_branch ← system_ok h (
        text "cd "
        ++ (g.local_dir ++ (text "; git show-ref --quiet --verify -- refs/heads/" ++ g.refspec)))
    if is_branch
        then (do
          head_hash ← git_hash_ref h g.local_dir (text "HEAD")
          branch_hash ← git_hash_ref h g.local_dir g.refspec
          require (text_eq head_hash branch_hash) (
              custom (
                text "Asked to use branch: "
                ++ (g.refspec
                    ++ (text ", but " ++ (g.local_dir ++ text " is off somewhere else"))))))
        else do
          switched ← run h (
              command h g.local_dir (text "git")
                (text "checkout" ∷ text "-q" ∷ text "--detach" ∷ g.refspec ∷ []))
          require switched (custom (text "Failed to checkout"))

  unfoldable pub set_fetched : ℕ → Bool → Act h (Unit {0})
  set_fetched id fetched =
      modify (λ s. record s { unit_fetched = update s.unit_fetched id fetched })

  -- The last part of GitExtractionUnit::fetch.
  unfoldable pub compare_hash : GitSource → Act h Bool
  unfolding set_fetched
  compare_hash g = do
    found ← git_hash h g.local_dir
    hash ← gets (λ s. s.unit_hash g.id)
    when (empty hash) (set_unit_hash h g.id found)
    let res = empty hash || text_eq hash found
    set_fetched g.id res
    pure res

  unfoldable pub record_refspec : GitSource → Act h (Unit {0})
  record_refspec g =
      modify (λ s. record s { gd_objects = set_object g.local_dir g.refspec s.gd_objects })

  unfoldable pub git_fetch : GitSource → Act h Bool
  unfolding refresh clone check_out compare_hash record_refspec
  git_fetch g = do
    recorded ← gets (λ s. object_text g.local_dir s.gd_objects)
    if not (empty recorded) && not (text_eq recorded g.refspec) then pure false else do
      when (empty recorded) (record_refspec g)
      there ← is_directory h g.local_dir
      if there then refresh g else clone g
      check_out g
      compare_hash g

  abbrev pub digest_name : GitSource → Text
  digest_name g = g.uri ++ b'#' ∷ g.refspec

  unfoldable pub git_unit_hash : GitSource → Act h Text
  unfolding git_fetch
  git_unit_hash g =
      if refspec_is_commitid g.refspec
      then (do set_unit_hash h g.id g.refspec; pure g.refspec)
      else do
        known ← catch_not_found (get_file_hash h cfg p (digest_name g)) (pure [])
        if empty known
            then (do git_fetch g; gets (λ s. s.unit_hash g.id))
            else do set_unit_hash h g.id known; pure known

  unfoldable pub git_fetch_info : GitSource → Act h FetchInfo
  git_fetch_info g = do
    hash ← gets (λ s. s.unit_hash g.id)
    known ←
        if empty hash
        then if refspec_is_commitid g.refspec
          then pure g.refspec
          else catch_not_found (get_file_hash h cfg p (digest_name g)) (pure [])
        else pure hash
    pure (record {
      type = text "git-fetch";
      uri = g.uri;
      path = g.local_dir;
      ref = g.refspec;
      hash = known;
      hash_algorithm = if empty known then [] else text "SHA-1";
    })

  unfoldable pub git_extract : GitSource → Act h Bool
  unfolding git_fetch
  git_extract g = do
    fetched ← gets (λ s. s.unit_fetched g.id)
    ready ← if fetched then pure true else git_fetch g
    if ready
        then (do
          copied ←
              run h (command h p.bd.path (text "cp") (text "-dpRuf" ∷ g.local_dir ∷ text "." ∷ []))
          require copied (custom (text "Failed to checkout"))
          pure true)
        else pure false

  -- The path that a linked or copied directory is given by: one that begins with '.' is below the
  -- working directory. `uri.at(0)` throws on an empty path.
  abbrev pub git_dir_path : Text → Option Text
  git_dir_path [] = none
  git_dir_path (c ∷ uri) = if c == b'.' then some (p.pwd ++ b'/' ∷ c ∷ uri) else some (c ∷ uri)

  abbrev pub mode_name : GitMode → Text
  mode_name link_mode = text "link"
  mode_name copy_mode = text "copy"

  abbrev pub mode_command : GitMode → Text → Text → Text × List Text
  mode_command link_mode from_path to_dir = (text "ln", text "-sfT" ∷ from_path ∷ to_dir ∷ [])
  mode_command copy_mode from_path to_dir = (text "cp", text "-dpRuf" ∷ from_path ∷ to_dir ∷ [])

  unfoldable pub git_dir_extract : GitMode → Text → Text → Act h Bool
  git_dir_extract mode uri to_dir = do
    from_path ← from (git_dir_path uri) Exception.out_of_range
    let (app, args) = mode_command mode from_path to_dir
    done ← run h (command h p.bd.path app args)
    require done (custom (text "Operation failed"))
    pure true
