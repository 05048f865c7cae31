-- ===== src/Samples/Values.antt =====
-- Features that are set, and the theorems on them.
use buildsyspp.Shared.{◌≡◌, ◌≢◌, true, false, [], ◌∷◌, Text, arith}
use buildsyspp.Effects.{ok}
use buildsyspp.Features.{FeatureMap, find, set_feature, set_feature_from, get_feature}
use buildsyspp.Features.Values.{chosen, get_feature-set_feature, set_feature_from_lem}

abbrev features : FeatureMap
features = (b'a' ∷ [], b'1' ∷ []) ∷ (b'c' ∷ [], b'3' ∷ []) ∷ []

get_feature-set_feature_example :
    (get_feature (b'b' ∷ []) (set_feature (b'b' ∷ []) (b'2' ∷ []) false features)
      ≡ ok (chosen false (b'2' ∷ []) (find (b'b' ∷ []) features)))
    × ((j : Text)
        → j ≢ b'b' ∷ []
        → get_feature j (set_feature (b'b' ∷ []) (b'2' ∷ []) false features)
          ≡ get_feature j features)
get_feature-set_feature_example = get_feature-set_feature (b'b' ∷ []) (b'2' ∷ []) false features

set_feature_from_lem_example :
    ((set_feature_from (b'a' ∷ b'=' ∷ b'4' ∷ []) features).0 ≡ true)
    × (get_feature (b'a' ∷ []) (set_feature_from (b'a' ∷ b'=' ∷ b'4' ∷ []) features).1
        ≡ ok (b'4' ∷ []))
    × ((j : Text)
        → j ≢ b'a' ∷ []
        → get_feature j (set_feature_from (b'a' ∷ b'=' ∷ b'4' ∷ []) features).1
          ≡ get_feature j features)
set_feature_from_lem_example = set_feature_from_lem (b'a' ∷ []) (b'4' ∷ []) features (ground arith)
