-- ===== src/BuildInfo/Stability.antt =====
-- What a printed description determines, and what it does not depend on.
use buildsyspp.Shared.{
  ℕ, ◌≡◌, refl, ap, sym, ◌∙◌, List, [], ◌∷◌, ◌++◌, arith, Text, text, ◌↔◌, text_eq, has_text, Lacks,
  All, split_first, split_first-append, append_assoc, append-nil, if◌then◌else◌, Option, some, none,
  Bool-cases, inl, inr, map,
}
use buildsyspp.BuildInfo.{
  BuildDescription, new_description, described, add_feature_value, add_nil_feature_value,
  add_package_file, add_require_file, add_output_info_file, add_build_info_file,
  add_extraction_info_file, print, print_units,
}

-- A call that adds to a description.
pub data Entry : Type 0 where
  feature_value package_file require_file output_info build_info extraction_info :
      Text → Text → Entry
  nil_feature : Text → Entry

pub add : List Text → Entry → BuildDescription → BuildDescription
add ignored (feature_value f v) = add_feature_value ignored f v
add ignored (nil_feature f) = add_nil_feature_value f
add ignored (package_file f h) = add_package_file f h
add ignored (require_file f h) = add_require_file f h
add ignored (output_info f h) = add_output_info_file f h
add ignored (build_info f h) = add_build_info_file f h
add ignored (extraction_info f h) = add_extraction_info_file f h

pub add_all : List Text → List Entry → BuildDescription → BuildDescription
add_all ignored [] d = d
add_all ignored (e ∷ es) d = add_all ignored es (add ignored e d)

-- The entries that are not values of ignored features.
abbrev pub visible : List Text → List Entry → List Entry
visible ignored [] = []
visible ignored (feature_value f v ∷ es) =
    if has_text f ignored then visible ignored es else feature_value f v ∷ visible ignored es
visible ignored (nil_feature f ∷ es) = nil_feature f ∷ visible ignored es
visible ignored (package_file f h ∷ es) = package_file f h ∷ visible ignored es
visible ignored (require_file f h ∷ es) = require_file f h ∷ visible ignored es
visible ignored (output_info f h ∷ es) = output_info f h ∷ visible ignored es
visible ignored (build_info f h ∷ es) = build_info f h ∷ visible ignored es
visible ignored (extraction_info f h ∷ es) = extraction_info f h ∷ visible ignored es

unit : Entry → Text
unit (feature_value f v) = described (text "FeatureValue ") f v
unit (nil_feature f) = text "FeatureNil " ++ f
unit (package_file f h) = described (text "PackageFile ") f h
unit (require_file f h) = described (text "RequireFile ") f h
unit (output_info f h) = described (text "OutputInfoFile ") f h
unit (build_info f h) = described (text "BuildInfoFile ") f h
unit (extraction_info f h) = described (text "ExtractionInfoFile ") f h

-- Names hold neither a space nor a newline, and values no newline.
abbrev pub IsPlain : Entry → Type 0
IsPlain (nil_feature f) = Lacks b' ' f × Lacks b'\n' f
IsPlain (feature_value f v) = Lacks b' ' f × Lacks b'\n' f × Lacks b'\n' v
IsPlain (package_file f v) = Lacks b' ' f × Lacks b'\n' f × Lacks b'\n' v
IsPlain (require_file f v) = Lacks b' ' f × Lacks b'\n' f × Lacks b'\n' v
IsPlain (output_info f v) = Lacks b' ' f × Lacks b'\n' f × Lacks b'\n' v
IsPlain (build_info f v) = Lacks b' ' f × Lacks b'\n' f × Lacks b'\n' v
IsPlain (extraction_info f v) = Lacks b' ' f × Lacks b'\n' f × Lacks b'\n' v

abbrev with_value : (Text → Text → Entry) → Option (Text × Text) → Option Entry
with_value make none = none
with_value make (some (f, v)) = some (make f v)

abbrev decode_tagged : Option (Text × Text) → Option Entry
decode_tagged none = none
decode_tagged (some (tag, rest)) =
    if text_eq tag (text "FeatureValue")
    then with_value feature_value (split_first b' ' rest)
    else if text_eq tag (text "FeatureNil")
    then some (nil_feature rest)
    else if text_eq tag (text "PackageFile")
    then with_value package_file (split_first b' ' rest)
    else if text_eq tag (text "RequireFile")
    then with_value require_file (split_first b' ' rest)
    else if text_eq tag (text "OutputInfoFile")
    then with_value output_info (split_first b' ' rest)
    else if text_eq tag (text "BuildInfoFile")
    then with_value build_info (split_first b' ' rest)
    else with_value extraction_info (split_first b' ' rest)

-- A reader for the lines of a description.
decode : Text → Option Entry
decode line = decode_tagged (split_first b' ' line)

decode-unit : (e : Entry) → IsPlain e → decode (unit e) ≡ some e
unfolding decode unit text text_eq split_first
decode-unit (feature_value f v) h = ap (with_value feature_value) (split_first-append b' ' f v h.0)
decode-unit (nil_feature f) h = refl
decode-unit (package_file f v) h = ap (with_value package_file) (split_first-append b' ' f v h.0)
decode-unit (require_file f v) h = ap (with_value require_file) (split_first-append b' ' f v h.0)
decode-unit (output_info f v) h = ap (with_value output_info) (split_first-append b' ' f v h.0)
decode-unit (build_info f v) h = ap (with_value build_info) (split_first-append b' ' f v h.0)
decode-unit (extraction_info f v) h =
    ap (with_value extraction_info) (split_first-append b' ' f v h.0)

Lacks-append : (c : ℕ) (s t : Text) → Lacks c s → Lacks c t → Lacks c (s ++ t)
Lacks-append c [] t h k = k
Lacks-append c (x ∷ s) t h k = (h.0, Lacks-append c s t h.1 k)

described-Lacks :
    (tag f v : Text)
    → Lacks b'\n' tag
    → Lacks b'\n' f
    → Lacks b'\n' v
    → Lacks b'\n' (described tag f v)
described-Lacks tag f v ht hf hv =
    Lacks-append b'\n' tag _ ht (Lacks-append b'\n' f (b' ' ∷ v) hf ((λ e. omega arith), hv))

unit-Lacks : (e : Entry) → IsPlain e → Lacks b'\n' (unit e)
unfolding unit text
unit-Lacks (nil_feature f) h = Lacks-append b'\n' (text "FeatureNil ") f (omega arith) h.1
unit-Lacks (feature_value f v) h = described-Lacks (text "FeatureValue ") f v (omega arith) h.1 h.2
unit-Lacks (package_file f v) h = described-Lacks (text "PackageFile ") f v (omega arith) h.1 h.2
unit-Lacks (require_file f v) h = described-Lacks (text "RequireFile ") f v (omega arith) h.1 h.2
unit-Lacks (output_info f v) h = described-Lacks (text "OutputInfoFile ") f v (omega arith) h.1 h.2
unit-Lacks (build_info f v) h = described-Lacks (text "BuildInfoFile ") f v (omega arith) h.1 h.2
unit-Lacks (extraction_info f v) h =
    described-Lacks (text "ExtractionInfoFile ") f v (omega arith) h.1 h.2

abbrev some_unit : Entry → List Text → List Text
some_unit e us = unit e ∷ us

-- Adding entries appends the lines of the visible ones.
add-units :
    (ignored : List Text) (e : Entry) (d : BuildDescription)
    → (add ignored e d).units ≡ d.units ++ map unit (visible ignored (e ∷ []))
unfolding add unit add_feature_value add_nil_feature_value add_package_file add_require_file
    add_output_info_file add_build_info_file add_extraction_info_file
add-units ignored (feature_value f v) d = elim (Bool-cases (has_text f ignored)) [
  | inl e ↦ rw e (sym (append-nil d.units))
  | inr e ↦ rw e refl
]
add-units ignored (nil_feature f) d = refl
add-units ignored _ d = refl

visible-cons :
    (ignored : List Text) (e : Entry) (es : List Entry)
    → map unit (visible ignored (e ∷ [])) ++ map unit (visible ignored es)
      ≡ map unit (visible ignored (e ∷ es))
visible-cons ignored (feature_value f v) es = elim (Bool-cases (has_text f ignored)) [
  | inl e ↦ rw e refl
  | inr e ↦ rw e refl
]
visible-cons ignored _ es = refl

add_all-units :
    (ignored : List Text) (es : List Entry) (d : BuildDescription)
    → (add_all ignored es d).units ≡ d.units ++ map unit (visible ignored es)
unfolding add_all
add_all-units ignored [] d = sym (append-nil d.units)
add_all-units ignored (e ∷ es) d =
    add_all-units ignored es (add ignored e d)
    ∙ ap (λ us. us ++ map unit (visible ignored es)) (add-units ignored e d)
    ∙ append_assoc d.units _ _
    ∙ ap (◌++◌ d.units) (visible-cons ignored e es)

print_units-injective :
    (us vs : List Text)
    → All (Lacks b'\n') us
    → All (Lacks b'\n') vs
    → print_units us ≡ print_units vs
    → us ≡ vs
print_units-injective [] [] hu hv e = refl
print_units-injective [] ([] ∷ vs) hu hv e = cc
print_units-injective [] ((x ∷ v) ∷ vs) hu hv e = cc
print_units-injective ([] ∷ us) [] hu hv e = cc
print_units-injective ((x ∷ u) ∷ us) [] hu hv e = cc
print_units-injective (u ∷ us) (v ∷ vs) hu hv e =
    let cut : ◌≡◌ {A = Option (Text × Text)} (some (u, print_units us)) (some (v, print_units vs)) =
      sym (split_first-append b'\n' u (print_units us) hu.0)
      ∙ ap (split_first b'\n') e
      ∙ split_first-append b'\n' v (print_units vs) hv.0 in
    let heads : u ≡ v = ground arith in
    let tails : print_units us ≡ print_units vs = ground arith in
    cc (heads, print_units-injective us vs hu.1 hv.1 tails)

visible-IsPlain :
    (ignored : List Text) (es : List Entry) → All IsPlain es → All IsPlain (visible ignored es)
visible-IsPlain ignored [] h = tt
visible-IsPlain ignored (feature_value f v ∷ es) h = elim (Bool-cases (has_text f ignored)) [
  | inl e ↦ rw e (visible-IsPlain ignored es h.1)
  | inr e ↦ rw e (h.0, visible-IsPlain ignored es h.1)
]
visible-IsPlain ignored (_ ∷ es) h = (h.0, visible-IsPlain ignored es h.1)

units-Lacks : (es : List Entry) → All IsPlain es → All (Lacks b'\n') (map unit es)
units-Lacks [] h = tt
units-Lacks (e ∷ es) h = (unit-Lacks e h.0, units-Lacks es h.1)

abbrev decode_all : List Text → List (Option Entry)
decode_all = map decode

decode_all-units : (es : List Entry) → All IsPlain es → decode_all (map unit es) ≡ map some es
decode_all-units [] h = refl
decode_all-units (e ∷ es) h = cc (decode-unit e h.0, decode_all-units es h.1)

map-some-injective : (es fs : List Entry) → map some es ≡ map some fs → es ≡ fs
map-some-injective [] [] h = refl
map-some-injective [] (f ∷ fs) h = cc
map-some-injective (e ∷ es) [] h = cc
map-some-injective (e ∷ es) (f ∷ fs) h =
    let tails : map some es ≡ map some fs = ground arith in
    let heads : e ≡ f = ground arith in cc (heads, map-some-injective es fs tails)

print-add_all :
    (ignored : List Text) (es : List Entry)
    → print (add_all ignored es new_description) ≡ print_units (map unit (visible ignored es))
unfolding print
print-add_all ignored es = ap print_units (add_all-units ignored es new_description)

-- Two descriptions print alike exactly if the same entries were added in the same order, values of
-- ignored features apart. The entries are plain: names hold no space and no newline, values no
-- newline.
pub print-add_all_iff :
    (ignored : List Text) (es fs : List Entry)
    → All IsPlain es
    → All IsPlain fs
    → (print (add_all ignored es new_description) ≡ print (add_all ignored fs new_description))
      ↔ (visible ignored es ≡ visible ignored fs)
print-add_all_iff ignored es fs he hf = (there, back)
  where
    there :
        print (add_all ignored es new_description) ≡ print (add_all ignored fs new_description)
        → visible ignored es ≡ visible ignored fs
    there e = map-some-injective _ _ (
        sym (decode_all-units _ (visible-IsPlain ignored es he))
        ∙ ap decode_all (
            print_units-injective _ _ (units-Lacks _ (visible-IsPlain ignored es he))
              (units-Lacks _ (visible-IsPlain ignored fs hf))
              (sym (print-add_all ignored es) ∙ e ∙ print-add_all ignored fs))
        ∙ decode_all-units _ (visible-IsPlain ignored fs hf))

    back :
        visible ignored es ≡ visible ignored fs
        → print (add_all ignored es new_description) ≡ print (add_all ignored fs new_description)
    back e =
        print-add_all ignored es
        ∙ ap (λ xs. print_units (map unit xs)) e
        ∙ sym (print-add_all ignored fs)
