-- ===== src/Features/Values.antt =====
-- The values of features after one is set.
use buildsyspp.Shared.{
  ◌≡◌, ◌≢◌, refl, sym, ap, ◌∙◌, Bool, true, false, Bool-cases, Option-cases, inl, inr, Option, none,
  some, [], ◌∷◌, ◌++◌, arith, Text, text_eq, text_eq_sound, text_eq_refl, Lacks, split_first-append,
  if◌then◌else◌,
}
use buildsyspp.Effects.{ok}
use buildsyspp.Features.{
  FeatureMap, text_less, find, value_of, overwrite, insert, set_feature, set_feature_from,
  get_feature,
}

text_ne : (a b : Text) → a ≢ b → text_eq a b ≡ false
text_ne a b ne = elim (Bool-cases (text_eq a b)) [
  | inl e ↦ absurd (ne (text_eq_sound a b e))
  | inr e ↦ e
]

find-insert :
    (key value : Text) (m : FeatureMap)
    → find key m ≡ none
    → find key (insert key value m) ≡ some value
unfolding find insert
find-insert key value [] e = rw (text_eq_refl key) refl
find-insert key value ((k, v) ∷ m) e = elim (Bool-cases (text_less key k)) [
  | inl l ↦ rw (l, text_eq_refl key) refl
  | inr l ↦ ground (arith, find-insert key value m)
]

find-insert_ne :
    (key value j : Text) (m : FeatureMap)
    → text_eq key j ≡ false
    → find j (insert key value m) ≡ find j m
unfolding find insert
find-insert_ne key value j [] n = rw n refl
find-insert_ne key value j ((k, v) ∷ m) n = ground (arith, find-insert_ne key value j m n)

find-overwrite :
    (key value : Text) (m : FeatureMap) {old : Text}
    → find key m ≡ some old
    → find key (overwrite key value m) ≡ some value
unfolding find overwrite
find-overwrite key value [] e = cc
find-overwrite key value ((k, v) ∷ m) {old} e =
    ground (arith, find-overwrite key value m {old = old})

find-overwrite_ne :
    (key value j : Text) (m : FeatureMap)
    → text_eq key j ≡ false
    → find j (overwrite key value m) ≡ find j m
unfolding find overwrite
find-overwrite_ne key value j [] n = refl
find-overwrite_ne key value j ((k, v) ∷ m) n = elim (Bool-cases (text_eq k key)) [
  | inl e ↦ rw (e, ap (λ x. text_eq x j) (text_eq_sound k key e), n) refl
  | inr e ↦ ground (arith, find-overwrite_ne key value j m n)
]

-- The value that a feature has after it is set: the given one if it had none or may be overridden.
abbrev pub chosen : Bool → Text → Option Text → Text
chosen override value none = value
chosen override value (some old) = if override then value else old

find-set_feature :
    (key value : Text) (override : Bool) (m : FeatureMap)
    → find key (set_feature key value override m) ≡ some (chosen override value (find key m))
unfolding set_feature
find-set_feature key value override m = elim (Option-cases (find key m)) [
  | inl e ↦ rw (e, set_feature) (find-insert key value m e)
  | inr (old, e) ↦ rw (e, set_feature) (there override old e)
]
  where
    there :
        (o : Bool) (old : Text)
        → find key m ≡ some old
        → find key (if o then overwrite key value m else m) ≡ some (if o then value else old)
    there true old e = find-overwrite key value m e
    there false old e = e

find-set_feature_ne :
    (key value j : Text) (override : Bool) (m : FeatureMap)
    → text_eq key j ≡ false
    → find j (set_feature key value override m) ≡ find j m
unfolding set_feature
find-set_feature_ne key value j override m n = elim (Option-cases (find key m)) [
  | inl e ↦ rw (e, set_feature) (find-insert_ne key value j m n)
  | inr (old, e) ↦ rw (e, set_feature) (there override)
]
  where
    there : (o : Bool) → find j (if o then overwrite key value m else m) ≡ find j m
    there true = find-overwrite_ne key value j m n
    there false = refl

-- After a feature is set it has a value: the given one if it had none or may be overridden, and
-- otherwise the one that it had. The other features have what they had, or still none.
pub get_feature-set_feature :
    (key value : Text) (override : Bool) (m : FeatureMap)
    → let n = set_feature key value override m in
      (get_feature key n ≡ ok (chosen override value (find key m)))
      × ((j : Text) → j ≢ key → get_feature j n ≡ get_feature j m)
unfolding get_feature
get_feature-set_feature key value override m = (
  ap value_of (find-set_feature key value override m),
  λ j ne.
      ap value_of (find-set_feature_ne key value j override m (text_ne key j (λ e. ne (sym e)))),
)

-- The text `key=value` sets a feature whose key has no `=`, whatever value it had and whatever the
-- new value is.
pub set_feature_from_lem :
    (key value : Text) (m : FeatureMap)
    → Lacks b'=' key
    → let r = set_feature_from (key ++ b'=' ∷ value) m in
      (r.0 ≡ true)
      × (get_feature key r.1 ≡ ok value)
      × ((j : Text) → j ≢ key → get_feature j r.1 ≡ get_feature j m)
unfolding set_feature_from
set_feature_from_lem key value m lacks =
    rw (split_first-append b'=' key value lacks, set_feature_from)
      (let (a, b) = get_feature-set_feature key value true m in
        (refl, a ∙ ap ok (same (find key m)), b))
  where
    same : (o : Option Text) → chosen true value o ≡ value
    same none = refl
    same (some old) = refl
