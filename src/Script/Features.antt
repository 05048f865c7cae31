-- ===== src/Script/Features.antt =====
-- src/interface/toplevel.cpp: the value of a feature for a package, which the parts of the package's
-- name can override.
use buildsyspp.Shared.{
  ℕ, zero, suc, ◌+◌, ◌<◌, ◌≡◌, ap, ◌∙◌, refl, ◌==◌, Option, none, some, List, [], ◌∷◌, ◌++◌, map,
  Text, split_last, split_last-shorter, if◌then◌else◌, length, Bool-cases, arith, or_here, inl, inr,
}
use buildsyspp.Effects.{
  Outcome, ok, throws, exhausted, no_key, custom, file_not_found, filesystem_error, out_of_range,
}
use buildsyspp.Features.{FeatureMap, find, get_feature, value_of}

-- `try { value } catch(NoKeyException) { next }`
abbrev catch_no_key : Outcome Text → Outcome Text → Outcome Text
catch_no_key (ok v) next = ok v
catch_no_key exhausted next = exhausted
catch_no_key (throws no_key) next = next
catch_no_key (throws (custom m)) next = throws (custom m)
catch_no_key (throws (file_not_found f w)) next = throws (file_not_found f w)
catch_no_key (throws filesystem_error) next = throws filesystem_error
catch_no_key (throws out_of_range) next = throws out_of_range

-- The recursion is on the part of the name before its last slash, which is shorter.
unfoldable pub get_feature_value : ℕ → FeatureMap → Text → Text → Outcome Text
unfolding get_feature
get_feature_value zero m package_name key = exhausted
get_feature_value (suc fuel) m [] key = get_feature key m
get_feature_value (suc fuel) m (c ∷ name) key =
    let package_name = c ∷ name in
    catch_no_key (get_feature (package_name ++ b':' ∷ key) m) (elim (split_last b'/' package_name) [
      | none ↦ get_feature_value fuel m [] key
      | some (parent, last) ↦ get_feature_value fuel m parent key
    ])

-- The names that enclose a package's name: what stands before each of its slashes, longest first.
abbrev pub parents : Text → List Text
parents [] = []
parents (c ∷ s) = map (λ p. c ∷ p) (parents s) ++ (if c == b'/' then [] ∷ [] else [])

abbrev pub qualified : Text → Text → Text
qualified key [] = key
qualified key (c ∷ name) = c ∷ (name ++ b':' ∷ key)

abbrev or_else : Option Text → Option Text → Option Text
or_else none r = r
or_else (some v) r = some v

abbrev pub first_of : FeatureMap → List Text → Option Text
first_of m [] = none
first_of m (k ∷ ks) = or_else (find k m) (first_of m ks)

-- The first parent is what `split_last` gives, and the others are its parents.
abbrev Heads : Option (Text × Text) → List Text → Type 0
Heads none ps = ps ≡ []
Heads (some (d, r)) ps = ps ≡ d ∷ parents d

Heads-or_here :
    (c : ℕ) (s : Text) (o : Option (Text × Text)) (ps : List Text)
    → Heads o ps
    → Heads (or_here (c == b'/') c s o) (map (λ p. c ∷ p) ps ++ (if c == b'/' then [] ∷ [] else []))
Heads-or_here c s none ps h = elim (Bool-cases (c == b'/')) [
  | inl e ↦ rw (h, e) refl
  | inr e ↦ rw (h, e) refl
]
Heads-or_here c s (some (d, r)) ps h = rw h refl

parents-split_last : (s : Text) → Heads (split_last b'/' s) (parents s)
unfolding split_last
parents-split_last [] = refl
parents-split_last (c ∷ s) =
    Heads-or_here c s (split_last b'/' s) (parents s) (parents-split_last s)

catch-value_of :
    (o r : Option Text) → catch_no_key (value_of o) (value_of r) ≡ value_of (or_else o r)
catch-value_of none r = refl
catch-value_of (some v) r = refl

or_else-none : (o : Option Text) → or_else o none ≡ o
or_else-none none = refl
or_else-none (some v) = refl

or_else_same : (o : Option Text) → or_else o (or_else o none) ≡ o
or_else_same none = refl
or_else_same (some v) = refl

-- The keys that are tried for a name.
abbrev pub keys : Text → Text → List Text
keys name key = map (qualified key) (name ∷ (parents name ++ [] ∷ []))

module _ (m : FeatureMap) (key : Text) (next : Text → Outcome Text) where
  fall_back :
      (o : Option (Text × Text)) (ps : List Text)
      → Heads o ps
      → ((d r : Text) → o ≡ some (d, r) → next d ≡ value_of (first_of m (keys d key)))
      → next [] ≡ value_of (find key m)
      → elim o [ none ↦ next [] | some (d, r) ↦ next d ]
        ≡ value_of (first_of m (map (qualified key) (ps ++ [] ∷ [])))
  fall_back none ps h step base = rw (h, or_else-none (find key m)) base
  fall_back (some (d, r)) ps h step base = rw h (step d r refl)

-- With fuel for more than the length of the package's name and one, the search ends. Its answer is
-- the value at the first key that is set: the feature under the package's name, under each name that
-- encloses it, longest first, and then by itself.
pub get_feature_value_lem :
    (fuel : ℕ) (m : FeatureMap) (name key : Text)
    → length name + 1 < fuel
    → get_feature_value fuel m name key ≡ value_of (first_of m (keys name key))
unfolding get_feature_value get_feature
get_feature_value_lem zero m name key enough = absurd (omega (arith, enough))
get_feature_value_lem (suc fuel) m [] key enough = rw (or_else_same (find key m)) refl
get_feature_value_lem (suc fuel) m (c ∷ name) key enough =
    rw
      (← catch-value_of (find (c ∷ (name ++ b':' ∷ key)) m)
        (first_of m (map (qualified key) (parents (c ∷ name) ++ [] ∷ []))))
      (ap (catch_no_key (value_of (find (c ∷ (name ++ b':' ∷ key)) m))) (
        fall_back m key (λ d. get_feature_value fuel m d key) (split_last b'/' (c ∷ name))
          (parents (c ∷ name)) (parents-split_last (c ∷ name))
          (λ d r e.
            get_feature_value_lem fuel m d key
              (omega (arith, split_last-shorter b'/' (c ∷ name) d r e, enough)))
          (get_feature_value_lem fuel m [] key (omega (arith, enough))
            ∙ ap value_of (or_else_same (find key m)))))
