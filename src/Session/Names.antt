-- ===== src/Session/Names.antt =====
-- The packages of the namespaces of src/namespace.cpp as a map from two names to a number.
use buildsyspp.Shared.{
  ℕ, suc, ◌+◌, ◌≡◌, ◌≢◌, refl, sym, ◌∙◌, subst, ◌⊎◌, inl, inr, false, none, some, List, [], ◌∷◌,
  ◌++◌, Text, text_eq, text_eq_iff, if◌then◌else◌, Bool-cases, In, first, later, arith, ◌==◌,
}
use buildsyspp.Model.{Package}
use buildsyspp.Session.{
  NameSpace, with_name_space, members_of, add_package, all_packages, find_named,
}

-- How often a number stands in a list.
abbrev pub occurrences : ℕ → List ℕ → ℕ
occurrences q [] = 0
occurrences q (x ∷ xs) = if x == q then suc (occurrences q xs) else occurrences q xs

occurrences-append :
    (q : ℕ) (xs ys : List ℕ) → occurrences q (xs ++ ys) ≡ occurrences q xs + occurrences q ys
occurrences-append q [] ys = omega arith
occurrences-append q (x ∷ xs) ys = ground (arith, occurrences-append q xs ys)

-- A namespace of that name is in the list.
abbrev pub Exists : Text → List NameSpace → Type 0
Exists n [] = ⊥
Exists n (ns ∷ nss) = (ns.name ≡ n) ⊎ Exists n nss

pub with_name_space-Exists : (n : Text) (nss : List NameSpace) → Exists n (with_name_space n nss)
unfolding with_name_space
with_name_space-Exists n [] = inl refl
with_name_space-Exists n (ns ∷ nss) = elim (Bool-cases (text_eq ns.name n)) [
  | inl e ↦ rw e (inl ((text_eq_iff ns.name n).0 e))
  | inr e ↦ rw e (inr (with_name_space-Exists n nss))
]

pub members_of-with_name_space :
    (m n : Text) (nss : List NameSpace) → members_of m (with_name_space n nss) ≡ members_of m nss
unfolding with_name_space members_of
members_of-with_name_space m n [] = ground arith
members_of-with_name_space m n (ns ∷ nss) = elim (Bool-cases (text_eq ns.name n)) [
  | inl e ↦ rw e refl
  | inr e ↦ rw (e, members_of-with_name_space m n nss) refl
]

pub all_packages-with_name_space :
    (n : Text) (nss : List NameSpace) → all_packages (with_name_space n nss) ≡ all_packages nss
unfolding with_name_space all_packages
all_packages-with_name_space n [] = refl
all_packages-with_name_space n (ns ∷ nss) = elim (Bool-cases (text_eq ns.name n)) [
  | inl e ↦ rw e refl
  | inr e ↦ rw (e, all_packages-with_name_space n nss) refl
]

-- Behind a namespace of another name.
further :
    (n : Text) (ns : NameSpace) (nss : List NameSpace)
    → text_eq ns.name n ≡ false
    → Exists n (ns ∷ nss)
    → Exists n nss
further n ns nss e (inl k) = cc (e, (text_eq_iff ns.name n).1 k)
further n ns nss e (inr k) = k

pub members_of-add_package :
    (n : Text) (q : ℕ) (nss : List NameSpace)
    → Exists n nss
    → members_of n (add_package n q nss) ≡ members_of n nss ++ q ∷ []
unfolding add_package members_of
members_of-add_package n q [] h = absurd h
members_of-add_package n q (ns ∷ nss) h = elim (Bool-cases (text_eq ns.name n)) [
  | inl e ↦ rw (e, e) refl
  | inr e ↦ rw (e, e) (members_of-add_package n q nss (further n ns nss e h))
]

pub other_name : (m n : Text) → n ≢ m → text_eq n m ≡ false
other_name m n h = elim (Bool-cases (text_eq n m)) [
  | inl e ↦ absurd (h ((text_eq_iff n m).0 e))
  | inr e ↦ e
]

pub members_of-add_package_other :
    (m n : Text) (q : ℕ) (nss : List NameSpace)
    → m ≢ n
    → members_of m (add_package n q nss) ≡ members_of m nss
unfolding add_package members_of
members_of-add_package_other m n q [] h = refl
members_of-add_package_other m n q (ns ∷ nss) h = elim (Bool-cases (text_eq ns.name n)) [
  | inl e ↦ rw e (rw (other_name m ns.name (λ k. h (sym k ∙ (text_eq_iff ns.name n).0 e))) refl)
  | inr e ↦ rw (e, members_of-add_package_other m n q nss h) refl
]

pub occurrences-add_package :
    (n : Text) (q r : ℕ) (nss : List NameSpace)
    → Exists n nss
    → occurrences r (all_packages (add_package n q nss))
      ≡ occurrences r (all_packages nss) + occurrences r (q ∷ [])
unfolding add_package all_packages
occurrences-add_package n q r [] h = absurd h
occurrences-add_package n q r (ns ∷ nss) h = elim (Bool-cases (text_eq ns.name n)) [
  | inl e ↦ rw e (
      omega (
        arith,
        occurrences-append r (ns.members ++ q ∷ []) (all_packages nss),
        occurrences-append r ns.members (q ∷ []),
        occurrences-append r ns.members (all_packages nss),
      ))
  | inr e ↦ rw e (
      omega (
        arith,
        occurrences-add_package n q r nss (further n ns nss e h),
        occurrences-append r ns.members (all_packages nss),
        occurrences-append r ns.members (all_packages (add_package n q nss)),
      ))
]

pub In-Exists : (n : Text) (nss : List NameSpace) {q : ℕ} → In q (members_of n nss) → Exists n nss
unfolding members_of
In-Exists n [] m = elim m [ ]
In-Exists n (ns ∷ nss) m = elim (Bool-cases (text_eq ns.name n)) [
  | inl e ↦ inl ((text_eq_iff ns.name n).0 e)
  | inr e ↦ inr (In-Exists n nss (rw e at m))
]

pub find_named-In :
    (packages : ℕ → Package) (name : Text) (qs : List ℕ) (q : ℕ)
    → find_named packages name qs ≡ some q
    → In q qs × ((packages q).name ≡ name)
unfolding find_named
find_named-In packages name [] q h = cc
find_named-In packages name (r ∷ qs) q h = elim (Bool-cases (text_eq (packages r).name name)) [
  | inl e ↦
      subst (λ x. In x (r ∷ qs) × ((packages x).name ≡ name)) (cc (rw e at h))
        (first, (text_eq_iff (packages r).name name).0 e)
  | inr e ↦ let (m, k) = find_named-In packages name qs q (rw e at h) in (later m, k)
]

pub find_named-not_In :
    (packages : ℕ → Package) (name : Text) (qs : List ℕ)
    → find_named packages name qs ≡ none
    → {q : ℕ} → In q qs
    → (packages q).name ≢ name
unfolding find_named
find_named-not_In packages name [] h m = elim m [ ]
find_named-not_In packages name (r ∷ qs) h first =
    elim (Bool-cases (text_eq (packages r).name name)) [
      | inl e ↦ cc (rw e at h)
      | inr e ↦ λ k. cc (e, (text_eq_iff (packages r).name name).1 k)
    ]
find_named-not_In packages name (r ∷ qs) h (later m) =
    elim (Bool-cases (text_eq (packages r).name name)) [
      | inl e ↦ cc (rw e at h)
      | inr e ↦ find_named-not_In packages name qs (rw e at h) m
    ]

pub find_named-append :
    (packages : ℕ → Package) (name : Text) (qs : List ℕ) (q : ℕ)
    → find_named packages name (qs ++ q ∷ []) ≡ elim (find_named packages name qs) [
      | some r ↦ some r
      | none ↦ if text_eq (packages q).name name then some q else none
    ]
unfolding find_named
find_named-append packages name [] q = refl
find_named-append packages name (r ∷ qs) q = elim (Bool-cases (text_eq (packages r).name name)) [
  | inl e ↦ rw e refl
  | inr e ↦ rw (e, find_named-append packages name qs q) refl
]

pub Exists-add_package :
    (n m : Text) (q : ℕ) (nss : List NameSpace) → Exists m nss → Exists m (add_package n q nss)
unfolding add_package
Exists-add_package n m q [] h = h
Exists-add_package n m q (ns ∷ nss) h = elim (Bool-cases (text_eq ns.name n)) [
  | inl e ↦ rw e h
  | inr e ↦ rw e (elim h [ inl k ↦ inl k | inr k ↦ inr (Exists-add_package n m q nss k) ])
]

pub Exists-with_name_space :
    (n m : Text) (nss : List NameSpace) → Exists m nss → Exists m (with_name_space n nss)
unfolding with_name_space
Exists-with_name_space n m [] h = absurd h
Exists-with_name_space n m (ns ∷ nss) h = elim (Bool-cases (text_eq ns.name n)) [
  | inl e ↦ rw e h
  | inr e ↦ rw e (elim h [ inl k ↦ inl k | inr k ↦ inr (Exists-with_name_space n m nss k) ])
]
