-- ===== src/Package/Sources.antt =====
-- The sources that Package::writeFetchInfo writes.
use buildsyspp.Shared.{
  ◌≡◌, refl, sym, true, false, Bool-cases, ◌⊎◌, inl, inr, List, [], ◌∷◌, In, first, later, In-cons,
  Text, has_text, text_eq, text_eq_sound, text_eq_refl,
}
use buildsyspp.Model.{FetchInfo}
use buildsyspp.Package.Info.{source_key, distinct_sources}

-- The keys are distinct, and none of them is in `seen`.
abbrev pub AreDistinct : List Text → List FetchInfo → Type 0
AreDistinct seen [] = Unit
AreDistinct seen (i ∷ is) =
    (has_text (source_key i) seen ≡ false) × AreDistinct (source_key i ∷ seen) is

distinct_sources-AreDistinct :
    (seen : List Text) (is : List FetchInfo) → AreDistinct seen (distinct_sources seen is)
unfolding distinct_sources
distinct_sources-AreDistinct seen [] = tt
distinct_sources-AreDistinct seen (i ∷ is) = elim (Bool-cases (has_text (source_key i) seen)) [
  | inl e ↦ rw e (distinct_sources-AreDistinct seen is)
  | inr e ↦ rw e (e, distinct_sources-AreDistinct (source_key i ∷ seen) is)
]

distinct_sources_sound :
    (seen : List Text) (is : List FetchInfo) (i : FetchInfo)
    → In i (distinct_sources seen is)
    → In i is
unfolding distinct_sources
distinct_sources_sound seen [] i m = m
distinct_sources_sound seen (j ∷ is) i m = elim (Bool-cases (has_text (source_key j) seen)) [
  | inl e ↦ later (distinct_sources_sound seen is i (rw e at m))
  | inr e ↦ In-cons (distinct_sources_sound (source_key j ∷ seen) is i) (rw e at m)
]

has_text_first : (t : Text) (ts : List Text) → has_text t (t ∷ ts) ≡ true
unfolding has_text
has_text_first t ts = rw (text_eq_refl t) refl

has_text_nil : (t : Text) → has_text t [] ≡ true → ⊥
unfolding has_text
has_text_nil t e = cc

abbrev Kept : List Text → List FetchInfo → FetchInfo → Type 0
Kept seen r i =
    (has_text (source_key i) seen ≡ true)
    ⊎ ((j : FetchInfo) × In j r × (source_key j ≡ source_key i))

Kept-cons :
    (seen : List Text) (r : List FetchInfo) (x i : FetchInfo)
    → Kept (source_key x ∷ seen) r i
    → Kept seen (x ∷ r) i
unfolding has_text
Kept-cons seen r x i (inr (j, m, e)) = inr (j, later m, e)
Kept-cons seen r x i (inl t) = elim (Bool-cases (text_eq (source_key i) (source_key x))) [
  | inl same ↦ inr (x, first, sym (text_eq_sound (source_key i) (source_key x) same))
  | inr other ↦ inl (rw (has_text, other) at t)
]

distinct_sources_complete :
    (seen : List Text) (is : List FetchInfo) (i : FetchInfo)
    → In i is
    → Kept seen (distinct_sources seen is) i
unfolding distinct_sources
distinct_sources_complete seen [] i m = elim m [ ]
distinct_sources_complete seen (x ∷ is) i m = elim (Bool-cases (has_text (source_key x) seen)) [
  | inl e ↦ rw e (old m e (distinct_sources_complete seen is i))
  | inr e ↦ rw e (
      Kept-cons seen (distinct_sources (source_key x ∷ seen) is) x i
        (new m (distinct_sources_complete (source_key x ∷ seen) is i)))
]
  where
    old :
        {y i : FetchInfo} {r ys : List FetchInfo}
        → In i (y ∷ ys)
        → has_text (source_key y) seen ≡ true
        → (In i ys → Kept seen r i)
        → Kept seen r i
    old first e f = inl e
    old (later k) e f = f k

    new :
        {y i : FetchInfo} {r ys : List FetchInfo}
        → In i (y ∷ ys)
        → (In i ys → Kept (source_key y ∷ seen) r i)
        → Kept (source_key y ∷ seen) r i
    new {y} first f = inl (has_text_first (source_key y) seen)
    new (later k) f = f k

-- The sources that are written are among those that were collected, no two of them agree in uri,
-- path, ref and hash as joined by newlines, and each collected source agrees with one of them.
pub distinct_sources_lem :
    (is : List FetchInfo)
    → let r = distinct_sources [] is in
      AreDistinct [] r
      × ((i : FetchInfo) → In i r → In i is)
      × ((i : FetchInfo) → In i is → (j : FetchInfo) × In j r × (source_key j ≡ source_key i))
distinct_sources_lem is = (
  distinct_sources-AreDistinct [] is,
  distinct_sources_sound [] is,
  λ i m. kept i (distinct_sources_complete [] is i m),
)
  where
    kept :
        (i : FetchInfo)
        → Kept [] (distinct_sources [] is) i
        → (j : FetchInfo) × In j (distinct_sources [] is) × (source_key j ≡ source_key i)
    kept i (inl e) = absurd (has_text_nil (source_key i) e)
    kept i (inr k) = k
