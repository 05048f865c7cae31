-- ===== src/Features.antt =====
-- src/featuremap.cpp: FeatureMap. The std::map is the list of its entries in the order of the keys,
-- which is that of std::string, byte by byte.
pub mod Values
use buildsyspp.Shared.{
  ℕ, Bool, true, false, ◌&&◌, ◌||◌, ◌==◌, ltb, Option, none, some, List, [], ◌∷◌, ◌++◌, Text, text,
  text_eq, split_first, if◌then◌else◌,
}
use buildsyspp.Effects.{Exception, no_key, Outcome, ok, throws}

abbrev pub FeatureMap : Type 0
FeatureMap = List (Text × Text)

unfoldable pub text_less : Text → Text → Bool
text_less [] [] = false
text_less [] (d ∷ t) = true
text_less (c ∷ s) [] = false
text_less (c ∷ s) (d ∷ t) = ltb c d || c == d && text_less s t

unfoldable pub find : Text → FeatureMap → Option Text
find key [] = none
find key ((k, v) ∷ m) = if text_eq k key then some v else find key m

-- `features[key] = value` for a key that is there.
unfoldable pub overwrite : Text → Text → FeatureMap → FeatureMap
overwrite key value [] = []
overwrite key value ((k, v) ∷ m) =
    if text_eq k key then (k, value) ∷ m else (k, v) ∷ overwrite key value m

-- `features.insert` for a key that is not.
unfoldable pub insert : Text → Text → FeatureMap → FeatureMap
insert key value [] = (key, value) ∷ []
insert key value ((k, v) ∷ m) =
    if text_less key k then (key, value) ∷ ((k, v) ∷ m) else (k, v) ∷ insert key value m

unfoldable pub set_feature : Text → Text → Bool → FeatureMap → FeatureMap
unfolding overwrite insert
set_feature key value override m = elim (find key m) [
  | none ↦ insert key value m
  | some old ↦ if override then overwrite key value m else m
]

-- From a text `key=value`: false if it is not of that form.
unfoldable pub set_feature_from : Text → FeatureMap → Bool × FeatureMap
unfolding set_feature
set_feature_from kv m = elim (split_first b'=' kv) [
  | none ↦ (false, m)
  | some (key, value) ↦ (true, set_feature key value true m)
]

abbrev pub value_of : Option Text → Outcome Text
value_of none = throws no_key
value_of (some v) = ok v

unfoldable pub get_feature : Text → FeatureMap → Outcome Text
get_feature key m = value_of (find key m)

abbrev feature_lines : FeatureMap → Text
feature_lines [] = []
feature_lines ((k, v) ∷ m) = k ++ b'\t' ∷ (v ++ b'\n' ∷ feature_lines m)

unfoldable pub print_feature_values : FeatureMap → Text
print_feature_values m =
    b'\n' ∷ text "----BEGIN FEATURE VALUES----"
    ++ b'\n' ∷ (feature_lines m ++ (text "----END FEATURE VALUES----" ++ b'\n' ∷ []))
