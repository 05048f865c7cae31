-- ===== src/Depends.antt =====
-- src/package.cpp: canBuild, getDependedPackages and getStagingPackages.
pub mod Reached
use buildsyspp.Shared.{
  ℕ, zero, suc, ◌≡◌, Bool, true, false, not, ◌&&◌, ◌||◌, Option, none, some, List, [], ◌∷◌, map,
  member, In, if◌then◌else◌, ◌<◌,
}
use buildsyspp.Model.{PackageDepend, Package, Progress}

abbrev pub targets : List PackageDepend → List ℕ
targets = map λ d. d.target

abbrev pub all_built : (ℕ → Progress) → List PackageDepend → Bool
all_built progress [] = true
all_built progress (d ∷ ds) = if (progress d.target).built then all_built progress ds else false

-- One step of the loop over the dependencies: a package that is not in the set is put in, and
-- `visit` goes on from there if the package lets pass.
abbrev pub put_in : (ℕ → List ℕ → Option (List ℕ)) → (ℕ → Bool) → ℕ → List ℕ → Option (List ℕ)
put_in visit passes d packages =
    if member d packages
    then some packages
    else if passes d
    then visit d (d ∷ packages)
    else some (d ∷ packages)

unfoldable pub put_all :
    (ℕ → List ℕ → Option (List ℕ)) → (ℕ → Bool) → List PackageDepend → List ℕ → Option (List ℕ)
put_all visit passes [] packages = some packages
put_all visit passes (d ∷ ds) packages = elim (put_in visit passes d.target packages) [
  | none ↦ none
  | some packages' ↦ put_all visit passes ds packages'
]

module _ (pkgs : ℕ → Package) where
  -- Package::canBuild
  unfoldable pub can_build : (ℕ → Progress) → ℕ → Bool
  can_build progress q = if (progress q).built then true else all_built progress (pkgs q).depends

  -- The recursion of the two functions below, to a depth of `fuel` packages.
  unfoldable pub collect : (ℕ → Bool) → ℕ → ℕ → List ℕ → Option (List ℕ)
  unfolding put_all
  collect passes zero q packages = none
  collect passes (suc fuel) q packages =
      put_all (λ d s. collect passes fuel d s) passes (pkgs q).depends packages

  unfoldable pub get_depended_packages :
      (include_children ignore_intercept : Bool) → ℕ → ℕ → List ℕ → Option (List ℕ)
  unfolding collect
  get_depended_packages include_children ignore_intercept =
      collect λ d. include_children && (ignore_intercept || not (pkgs d).intercept_install)

  unfoldable pub get_staging_packages : ℕ → ℕ → List ℕ → Option (List ℕ)
  unfolding collect
  get_staging_packages = collect λ d. not (pkgs d).intercept_staging

  abbrev pub Depends : ℕ → ℕ → Type 0
  Depends q e = In e (targets (pkgs q).depends)

  -- No dependency loop: every package ranks above its dependencies.
  abbrev pub IsRanked : (ℕ → ℕ) → Type 0
  IsRanked rank = (q e : ℕ) → Depends q e → rank e < rank q
