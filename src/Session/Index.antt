-- ===== src/Session/Index.antt =====
-- The packages of a session are an index: each is in one namespace, once, under a name of its own.
use buildsyspp.Shared.{
  ℕ, suc, ◌+◌, ◌<◌, ◌≡◌, ◌≢◌, refl, sym, ◌∙◌, ◌⊎◌, inl, inr, Option, none, List, [], ◌∷◌, Text,
  text_eq, text_eq_iff, if◌then◌else◌, Bool-cases, In, first, later, In-append, In-append_left,
  In-append_right, arith, ◌↔◌, ltb,
}
use buildsyspp.Model.{Package, update}
use buildsyspp.Session.{
  NameSpace, with_name_space, members_of, add_package, all_packages, find_named,
}
use buildsyspp.Session.Names.{
  occurrences, Exists, members_of-with_name_space, all_packages-with_name_space,
  members_of-add_package, members_of-add_package_other, occurrences-add_package, find_named-not_In,
}

-- Every package that is made stands once in the namespaces, in its own one, and no two packages of a
-- namespace have one name.
pub record IsIndex (nss : List NameSpace) (packages : ℕ → Package) (count : ℕ) : Type 0 where
  pub once : (q : ℕ) → occurrences q (all_packages nss) ≡ (if ltb q count then 1 else 0)
  pub listed :
      (n : Text) (q : ℕ) → In q (members_of n nss) ↔ ((q < count) × ((packages q).ns_name ≡ n))
  pub keyed :
      (q r : ℕ)
      → q < count
      → r < count
      → (packages q).ns_name ≡ (packages r).ns_name
      → (packages q).name ≡ (packages r).name
      → q ≡ r

-- What NameSpace::findPackage looks up.
abbrev pub lookup : List NameSpace → (ℕ → Package) → Text → Text → Option ℕ
lookup nss packages n name = find_named packages name (members_of n nss)

pub IsIndex-nil : (packages : ℕ → Package) → IsIndex [] packages 0
unfolding all_packages members_of
IsIndex-nil packages = record {
  once = λ q. ground arith;
  listed = λ n q. (λ m. elim m [ ], λ k. absurd (omega (arith, k.0)));
  keyed = λ q r k. absurd (omega (arith, k));
}

pub IsIndex-with_name_space :
    (n : Text) (nss : List NameSpace) (packages : ℕ → Package) (count : ℕ)
    → IsIndex nss packages count
    → IsIndex (with_name_space n nss) packages count
IsIndex-with_name_space n nss packages count i = record {
  once = λ q. rw (all_packages-with_name_space n nss) (i.once q);
  listed = λ m q. rw (members_of-with_name_space m n nss) (i.listed m q);
  keyed = i.keyed;
}

-- A package keeps its names.
pub IsIndex-update :
    (nss : List NameSpace) (packages others : ℕ → Package) (count : ℕ)
    → ((q : ℕ)
        → ((others q).ns_name ≡ (packages q).ns_name) × ((others q).name ≡ (packages q).name))
    → IsIndex nss packages count
    → IsIndex nss others count
IsIndex-update nss packages others count same i = record {
  once = i.once;
  listed = λ n q. rw ((same q).0) (i.listed n q);
  keyed = λ q r a b e k.
      i.keyed q r a b (sym (same q).0 ∙ (e ∙ (same r).0)) (sym (same q).1 ∙ (k ∙ (same r).1));
}

-- The number that is made next.
update_here : (packages : ℕ → Package) (q : ℕ) (p : Package) → update packages q p q ≡ p
update_here packages q p = ground arith

update_other :
    (packages : ℕ → Package) (q r : ℕ) (p : Package) → r ≢ q → update packages q p r ≡ packages r
update_other packages q r p h = ground arith

below_or_last : (q count : ℕ) → q < suc count → (q < count) ⊎ (q ≡ count)
below_or_last q count k = ground arith

one_more :
    (q count : ℕ)
    → (if ltb q count then 1 else 0) + occurrences q (count ∷ [])
      ≡ (if ltb q (suc count) then 1 else 0)
one_more q count = ground arith

module _ (nss : List NameSpace) (packages : ℕ → Package) (count : ℕ) (p : Package)
    (i : IsIndex nss packages count) where
  abbrev grown : ℕ → Package
  grown = update packages count p

  -- The packages of a namespace after one more: those before, and the new one in its own.
  named_step :
      (n : Text) (q : ℕ)
      → ((q < suc count) × ((grown q).ns_name ≡ n))
        ↔ (((q < count) × ((packages q).ns_name ≡ n)) ⊎ ((q ≡ count) × (p.ns_name ≡ n)))
  named_step n q = ground arith

  last : {q r : ℕ} → In q (r ∷ []) → q ≡ r
  last first = refl
  last (later m) = elim m [ ]

  listed_step :
      (n : Text) (q : ℕ)
      → Exists p.ns_name nss
      → In q (members_of n (add_package p.ns_name count nss))
        ↔ (In q (members_of n nss) ⊎ ((q ≡ count) × (p.ns_name ≡ n)))
  listed_step n q there = elim (Bool-cases (text_eq p.ns_name n)) [
    | inl e ↦ by_name ((text_eq_iff p.ns_name n).0 e)
    | inr e ↦
        rw
          (members_of-add_package_other n p.ns_name count nss
            (λ k. cc (e, (text_eq_iff p.ns_name n).1 (sym k))))
          (inl, λ k. elim k [ inl m ↦ m | inr m ↦ cc (e, (text_eq_iff p.ns_name n).1 m.1) ])
  ]
    where
      by_name :
          p.ns_name ≡ n
          → In q (members_of n (add_package p.ns_name count nss))
            ↔ (In q (members_of n nss) ⊎ ((q ≡ count) × (p.ns_name ≡ n)))
      by_name k =
          rw (← k, members_of-add_package p.ns_name count nss there)
            (
              λ m. elim (In-append (members_of p.ns_name nss) m) [
                | inl l ↦ inl l
                | inr l ↦ inr (last l, refl)
              ],
              λ m. elim m [
                | inl l ↦ In-append_left (count ∷ []) l
                | inr l ↦ In-append_right (members_of p.ns_name nss) (rw l.0 first)
              ],
            )

  -- An older package of that namespace has another name.
  apart :
      (q : ℕ)
      → lookup nss packages p.ns_name p.name ≡ none
      → q < count
      → (packages q).ns_name ≡ p.ns_name
      → (packages q).name ≢ p.name
  apart q new k e =
      find_named-not_In packages p.name (members_of p.ns_name nss) new
        ((i.listed p.ns_name q).1 (k, e))

  grown_old : (q : ℕ) → q < count → grown q ≡ packages q
  grown_old q k = ground arith

  grown_last : grown count ≡ p
  grown_last = ground arith

  keyed_step :
      (q r : ℕ)
      → lookup nss packages p.ns_name p.name ≡ none
      → q < suc count
      → r < suc count
      → (grown q).ns_name ≡ (grown r).ns_name
      → (grown q).name ≡ (grown r).name
      → q ≡ r
  keyed_step q r new a b e k = elim (below_or_last q count a) [
    | inl c ↦ elim (below_or_last r count b) [
      | inl d ↦
          i.keyed q r c d (rw (grown_old q c, grown_old r d) at e)
            (rw (grown_old q c, grown_old r d) at k)
      | inr d ↦ absurd (
          apart q new c (rw (d, grown_old q c, grown_last) at e)
            (rw (d, grown_old q c, grown_last) at k))
    ]
    | inr c ↦ elim (below_or_last r count b) [
      | inl d ↦ absurd (
          apart r new d (sym (rw (c, grown_old r d, grown_last) at e))
            (sym (rw (c, grown_old r d, grown_last) at k)))
      | inr d ↦ c ∙ sym d
    ]
  ]

  pub IsIndex-register :
      Exists p.ns_name nss
      → lookup nss packages p.ns_name p.name ≡ none
      → IsIndex (add_package p.ns_name count nss) grown (suc count)
  IsIndex-register there new = record {
    once =
        λ q. rw (occurrences-add_package p.ns_name count q nss there, i.once q) (one_more q count);
    listed = λ n q. (
      λ m.
          (named_step n q).1 (elim ((listed_step n q there).0 m) [
            | inl l ↦ inl ((i.listed n q).0 l)
            | inr l ↦ inr l
          ]),
      λ m.
          (listed_step n q there).1
            (elim ((named_step n q).0 m) [ inl l ↦ inl ((i.listed n q).1 l) | inr l ↦ inr l ]),
    );
    keyed = λ q r. keyed_step q r new;
  }
