-- ===== src/Git/Steps.antt =====
-- The git steps end, and leave the packages alone.
use buildsyspp.Shared.{ℕ, refl, Bool, Text}
use buildsyspp.Host.{Host}
use buildsyspp.Effects.Quiet.{IsQuiet, IsQuiet-modify, quiet}
use buildsyspp.Model.{Settings, GitMode, Package}
use buildsyspp.Files.Calls.{seen, calls}
use buildsyspp.Files.Searches.{searches}
use buildsyspp.Fetch.Steps.{marks, set_unit_hash-IsQuiet}
use buildsyspp.Git.{
  GitSource, git_hash_ref, git_hash, git_diff_hash, git_remote, is_dirty, update_origin, refresh,
  clone, check_out, set_fetched, compare_hash, record_refspec, git_fetch, git_unit_hash,
  git_fetch_info, git_extract, git_dir_extract,
}

module _ (h : Host) where
  git_hash_ref-IsQuiet :
      (gdir refspec : Text) → IsQuiet (seen h marks) (git_hash_ref h gdir refspec)
  unfolding git_hash_ref
  git_hash_ref-IsQuiet gdir refspec = search (quiet, calls) depth 9

  git_hash-IsQuiet : (gdir : Text) → IsQuiet (seen h marks) (git_hash h gdir)
  unfolding git_hash
  git_hash-IsQuiet gdir = search (quiet, calls) depth 9

  pub git_diff_hash-IsQuiet : (gdir : Text) → IsQuiet (seen h marks) (git_diff_hash h gdir)
  unfolding git_diff_hash
  git_diff_hash-IsQuiet gdir = search (quiet, calls) depth 9

  git_remote-IsQuiet : (gdir remote : Text) → IsQuiet (seen h marks) (git_remote h gdir remote)
  unfolding git_remote
  git_remote-IsQuiet gdir remote = search (quiet, calls) depth 9

  pub is_dirty-IsQuiet : (local_path : Text) → IsQuiet (seen h marks) (is_dirty h local_path)
  unfolding is_dirty
  is_dirty-IsQuiet local_path = search (quiet, calls) depth 9

module _ (h : Host) (replace_all : Text → Text → Text → Text) (cfg : Settings) (p : Package)
    (g : GitSource) where
  update_origin-IsQuiet : IsQuiet (seen h marks) (update_origin h replace_all cfg p g)
  unfolding update_origin
  update_origin-IsQuiet = search (quiet, calls, git_remote-IsQuiet) depth 12

  refresh-IsQuiet : IsQuiet (seen h marks) (refresh h replace_all cfg p g)
  unfolding refresh
  refresh-IsQuiet = search (quiet, calls, update_origin-IsQuiet) depth 12

  clone-IsQuiet : IsQuiet (seen h marks) (clone h replace_all cfg p g)
  unfolding clone
  clone-IsQuiet = search (quiet, calls) depth 9

  check_out-IsQuiet : IsQuiet (seen h marks) (check_out h replace_all cfg p g)
  unfolding check_out
  check_out-IsQuiet = search (quiet, calls, git_hash_ref-IsQuiet) depth 12

  compare_hash-IsQuiet : IsQuiet (seen h marks) (compare_hash h replace_all cfg p g)
  unfolding compare_hash
  compare_hash-IsQuiet =
      search (quiet, git_hash-IsQuiet, set_unit_hash-IsQuiet, set_fetched-IsQuiet) depth 9
    where
      set_fetched-IsQuiet :
          (id : ℕ) (b : Bool) → IsQuiet (seen h marks) (set_fetched h replace_all cfg p id b)
      set_fetched-IsQuiet id b = IsQuiet-modify _ (λ s. refl)

  record_refspec-IsQuiet : IsQuiet (seen h marks) (record_refspec h replace_all cfg p g)
  unfolding record_refspec
  record_refspec-IsQuiet = IsQuiet-modify _ (λ s. refl)

  pub git_fetch-IsQuiet : IsQuiet (seen h marks) (git_fetch h replace_all cfg p g)
  unfolding git_fetch
  git_fetch-IsQuiet =
      search
        (
          quiet, calls, refresh-IsQuiet, clone-IsQuiet, check_out-IsQuiet, compare_hash-IsQuiet,
          record_refspec-IsQuiet,
        )
        depth 12

  pub git_unit_hash-IsQuiet : IsQuiet (seen h marks) (git_unit_hash h replace_all cfg p g)
  unfolding git_unit_hash
  git_unit_hash-IsQuiet =
      search (quiet, calls, searches, git_fetch-IsQuiet, set_unit_hash-IsQuiet) depth 12

  pub git_fetch_info-IsQuiet : IsQuiet (seen h marks) (git_fetch_info h replace_all cfg p g)
  unfolding git_fetch_info
  git_fetch_info-IsQuiet = search (quiet, calls, searches) depth 12

  pub git_extract-IsQuiet : IsQuiet (seen h marks) (git_extract h replace_all cfg p g)
  unfolding git_extract
  git_extract-IsQuiet = search (quiet, calls, git_fetch-IsQuiet) depth 12

module _ (h : Host) (replace_all : Text → Text → Text → Text) (cfg : Settings) (p : Package) where
  pub git_dir_extract-IsQuiet :
      (mode : GitMode) (uri to_dir : Text)
      → IsQuiet (seen h marks) (git_dir_extract h replace_all cfg p mode uri to_dir)
  unfolding git_dir_extract
  git_dir_extract-IsQuiet mode uri to_dir = search (quiet, calls) depth 12
