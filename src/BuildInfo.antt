-- ===== src/BuildInfo.antt =====
-- src/buildinfo.cpp and src/buildinfo.hpp: the description of a build, whose printed form decides
-- whether a package is built again.
pub mod Stability
use buildsyspp.Shared.{
  ◌≡◌, Bool, true, false, List, [], ◌∷◌, ◌++◌, if◌then◌else◌, Text, text, has_text,
}

-- The field `BUs`, in the order in which the units were added.
pub record BuildDescription : Type 0 where
  pub units : List Text

unfoldable pub push : BuildDescription → Text → BuildDescription
push d unit = record { units = d.units ++ unit ∷ [] }

abbrev pub new_description : BuildDescription
new_description = record { units = [] }

abbrev pub described : Text → Text → Text → Text
described tag name value = tag ++ (name ++ b' ' ∷ value)

-- `ignored_features` is the list that `set_ignored_features` has set.
unfoldable pub add_feature_value : List Text → Text → Text → BuildDescription → BuildDescription
unfolding push
add_feature_value ignored_features feature value d =
    if has_text feature ignored_features
    then d
    else push d (described (text "FeatureValue ") feature value)

unfoldable pub add_nil_feature_value : Text → BuildDescription → BuildDescription
unfolding push
add_nil_feature_value feature d = push d (text "FeatureNil " ++ feature)

unfoldable pub add_package_file : Text → Text → BuildDescription → BuildDescription
unfolding push
add_package_file fname hash d = push d (described (text "PackageFile ") fname hash)

unfoldable pub add_require_file : Text → Text → BuildDescription → BuildDescription
unfolding push
add_require_file fname hash d = push d (described (text "RequireFile ") fname hash)

unfoldable pub add_output_info_file : Text → Text → BuildDescription → BuildDescription
unfolding push
add_output_info_file fname hash d = push d (described (text "OutputInfoFile ") fname hash)

unfoldable pub add_build_info_file : Text → Text → BuildDescription → BuildDescription
unfolding push
add_build_info_file fname hash d = push d (described (text "BuildInfoFile ") fname hash)

unfoldable pub add_extraction_info_file : Text → Text → BuildDescription → BuildDescription
unfolding push
add_extraction_info_file fname hash d = push d (described (text "ExtractionInfoFile ") fname hash)

abbrev pub print_units : List Text → Text
print_units [] = []
print_units (u ∷ us) = u ++ b'\n' ∷ print_units us

unfoldable pub print : BuildDescription → Text
print d = print_units d.units
