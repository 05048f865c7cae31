-- ===== src/World/Prepared.antt =====
-- What `basePackage` has found out of the packages when it builds them, or refuses to.
use buildsyspp.Shared.{
  ℕ, ◌≡◌, refl, ap, arith, Bool, true, false, Bool-cases, ◌⊎◌, inl, inr, List, [], ◌∷◌, In, first,
}
use buildsyspp.Model.{Package, Progress}
use buildsyspp.Depends.Reached.{Reaches}
use buildsyspp.Graph.{Edges, fill, get_cycled_packages}
use buildsyspp.Graph.Cycles.{IsBack, get_cycled_packages-Reaches}
use buildsyspp.World.{ℤ, State, prepare_build, is_empty}

empty_cases : (xs : List ℕ) → (xs ≡ []) ⊎ ((p : ℕ) × In p xs × (is_empty xs ≡ false))
empty_cases [] = inl refl
empty_cases (x ∷ xs) = inr (x, first, refl)

module _ (sort : List ℕ → Edges → List ℕ) (pkgs : ℕ → Package) (limit : ℤ) (keep_going : Bool)
    (base : ℕ) (back_edges : List ℕ → Edges → Edges) (parse_only : Bool) (progress : ℕ → Progress)
    (all : List ℕ) where
  abbrev pub cycled : List ℕ
  cycled = get_cycled_packages back_edges (fill sort pkgs all)

  -- What the preparation gives.
  abbrev pub prepared : Bool → Bool ⊎ State
  prepared failed =
      prepare_build sort pkgs limit keep_going base back_edges failed parse_only progress all

  pub prepared-no_loop : (failed : Bool) (s : State) → prepared failed ≡ inr s → cycled ≡ []
  unfolding prepare_build
  prepared-no_loop true s e = cc e
  prepared-no_loop false s e = elim (empty_cases cycled) [
    | inl k ↦ k
    | inr (p, m, k) ↦ absurd (ground (arith, k, e))
  ]

  -- A build is refused only when the processing of a package failed, or when a package reaches
  -- itself by dependencies.
  pub prepare_build-refused :
      (failed : Bool)
      → IsBack back_edges
      → prepared failed ≡ inl false
      → (failed ≡ true) ⊎ ((p : ℕ) × Reaches pkgs (λ d. true) p p)
  unfolding prepare_build
  prepare_build-refused true k e = inl refl
  prepare_build-refused false k e = elim (empty_cases cycled) [
    | inl n ↦ elim (Bool-cases parse_only) [
      | inl y ↦ absurd (ground (arith, ap is_empty n, y, e))
      | inr y ↦ absurd (ground (arith, ap is_empty n, y, e))
    ]
    | inr (p, m, n) ↦ inr (p, get_cycled_packages-Reaches sort pkgs back_edges all p k m)
  ]
