-- ===== src/Fetch/Steps.antt =====
-- The fetching steps end, and change no package but for the mark that its code was updated.
use buildsyspp.Shared.{
  ℕ, ◌≡◌, ◌==◌, ==_iff, refl, Bool, Bool-cases, List, [], ◌∷◌, Text, inl, inr, arith,
}
use mathlib.Core.Path.{fun_ext}
use buildsyspp.Host.{Host}
use buildsyspp.Effects.Quiet.{IsQuiet, IsQuiet-modify, quiet}
use buildsyspp.Model.{
  Settings, FetchUnit, download, link, copy, Package, Progress, update, set_progress, set_unit_hash,
}
use buildsyspp.Files.Calls.{seen, calls}
use buildsyspp.Files.Searches.{searches}
use buildsyspp.Fetch.{
  set_code_updated, retrieve, check_hash, obtain, record_hash, download_fetch, link_fetch,
  copy_fetch, fetch_unit, unit_hash_of, fetch_all, fetch_info, fetch_source_info,
}

-- What the scheduler and the other packages read of a package.
pub record Marks : Type 0 where
  pub built : Bool
  pub was_built : Bool
  pub building : Bool

abbrev pub marks_of : Progress → Marks
marks_of r = record { built = r.built; was_built = r.was_built; building = r.building }

abbrev pub marks : (ℕ → Progress) → ℕ → Marks
marks f q = marks_of (f q)

pub marks-update :
    (f : ℕ → Progress) (q : ℕ) (r : Progress)
    → marks_of r ≡ marks_of (f q)
    → marks (update f q r) ≡ marks f
marks-update f q r e = fun_ext λ i. elim (Bool-cases (i == q)) [
  | inl same ↦ rw ((==_iff i q).0 same) (ground (arith, e))
  | inr other ↦ rw other refl
]

module _ (h : Host) where
  pub set_progress-IsQuiet :
      (q : ℕ) (f : Progress → Progress)
      → ((r : Progress) → marks_of (f r) ≡ marks_of r)
      → IsQuiet (seen h marks) (set_progress h q f)
  unfolding set_progress
  set_progress-IsQuiet q f keep =
      IsQuiet-modify _ (λ s. marks-update s.progress q (f (s.progress q)) (keep (s.progress q)))

  pub set_unit_hash-IsQuiet :
      (id : ℕ) (hash : Text) → IsQuiet (seen h marks) (set_unit_hash h id hash)
  unfolding set_unit_hash
  set_unit_hash-IsQuiet id hash = IsQuiet-modify _ (λ s. refl)

module _ (h : Host) (cfg : Settings) (q : ℕ) (p : Package) where
  pub set_code_updated-IsQuiet : IsQuiet (seen h marks) (set_code_updated h cfg q p)
  unfolding set_code_updated
  set_code_updated-IsQuiet = set_progress-IsQuiet h q _ (λ r. refl)

  retrieve-IsQuiet :
      (fetch_uri fullname : Text) → IsQuiet (seen h marks) (retrieve h cfg q p fetch_uri fullname)
  unfolding retrieve
  retrieve-IsQuiet fetch_uri fullname = search (quiet, calls) depth 12

  check_hash-IsQuiet :
      (hash fullname : Text) → IsQuiet (seen h marks) (check_hash h cfg q p hash fullname)
  unfolding check_hash
  check_hash-IsQuiet hash fullname = search (quiet, calls, searches) depth 9

  record_hash-IsQuiet :
      (fullname hash : Text) → IsQuiet (seen h marks) (record_hash h cfg q p fullname hash)
  unfolding record_hash
  record_hash-IsQuiet fullname hash = IsQuiet-modify _ (λ s. refl)

  obtain-IsQuiet :
      (hash fetch_uri fullname : Text)
      → IsQuiet (seen h marks) (obtain h cfg q p hash fetch_uri fullname)
  unfolding obtain
  obtain-IsQuiet hash fetch_uri fullname =
      search (quiet, calls, retrieve-IsQuiet, check_hash-IsQuiet) depth 9

  download_fetch-IsQuiet :
      (id : ℕ) (fetch_uri filename : Text)
      → IsQuiet (seen h marks) (download_fetch h cfg q p id fetch_uri filename)
  unfolding download_fetch
  download_fetch-IsQuiet id fetch_uri filename =
      search (quiet, obtain-IsQuiet, record_hash-IsQuiet) depth 9

  link_fetch-IsQuiet : (fetch_uri : Text) → IsQuiet (seen h marks) (link_fetch h cfg q p fetch_uri)
  unfolding link_fetch
  link_fetch-IsQuiet fetch_uri = search (quiet, calls, searches) depth 14

  copy_fetch-IsQuiet : (fetch_uri : Text) → IsQuiet (seen h marks) (copy_fetch h cfg q p fetch_uri)
  unfolding copy_fetch
  copy_fetch-IsQuiet fetch_uri = search (quiet, calls, searches, set_code_updated-IsQuiet) depth 12

  fetch_unit-IsQuiet : (u : FetchUnit) → IsQuiet (seen h marks) (fetch_unit h cfg q p u)
  unfolding fetch_unit
  fetch_unit-IsQuiet (download id fetch_uri filename) = download_fetch-IsQuiet id fetch_uri filename
  fetch_unit-IsQuiet (link fetch_uri) = link_fetch-IsQuiet fetch_uri
  fetch_unit-IsQuiet (copy fetch_uri) = copy_fetch-IsQuiet fetch_uri

  pub fetch_all-IsQuiet : (us : List FetchUnit) → IsQuiet (seen h marks) (fetch_all h cfg q p us)
  unfolding fetch_all
  fetch_all-IsQuiet [] = search quiet
  fetch_all-IsQuiet (u ∷ us) =
      let rest = fetch_all-IsQuiet us in search (quiet, fetch_unit-IsQuiet) depth 7

  pub unit_hash_of-IsQuiet : (u : FetchUnit) → IsQuiet (seen h marks) (unit_hash_of h cfg q p u)
  unfolding unit_hash_of
  unit_hash_of-IsQuiet (download id fetch_uri filename) =
      search (quiet, searches, set_unit_hash-IsQuiet) depth 9
  unit_hash_of-IsQuiet (link fetch_uri) = search quiet
  unit_hash_of-IsQuiet (copy fetch_uri) = search quiet

  pub fetch_info-IsQuiet : (u : FetchUnit) → IsQuiet (seen h marks) (fetch_info h cfg q p u)
  unfolding fetch_info
  fetch_info-IsQuiet (download id fetch_uri filename) = search (quiet, searches) depth 9
  fetch_info-IsQuiet (link fetch_uri) = search quiet
  fetch_info-IsQuiet (copy fetch_uri) = search quiet

  pub fetch_source_info-IsQuiet :
      (us : List FetchUnit) → IsQuiet (seen h marks) (fetch_source_info h cfg q p us)
  unfolding fetch_source_info
  fetch_source_info-IsQuiet [] = search quiet
  fetch_source_info-IsQuiet (u ∷ us) =
      let rest = fetch_source_info-IsQuiet us in search (quiet, fetch_info-IsQuiet) depth 7
