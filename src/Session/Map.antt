-- ===== src/Session/Map.antt =====
-- NameSpace::findPackage as an operation of a map from two names to a package.
use buildsyspp.Shared.{
  ℕ, suc, ◌<◌, ◌≡◌, refl, sym, ap, subst, ◌∙◌, ◌⊎◌, inl, inr, true, ◌&&◌, Option, none, some, List,
  [], ◌∷◌, Text, text_eq, text_eq_iff, text_eq_refl, if◌then◌else◌, Bool-cases, In, first, later,
  arith,
}
use buildsyspp.Host.{Host}
use buildsyspp.Effects.{Outcome, ok, throws, exhausted, pure, gets, ◌>>=◌}
use buildsyspp.Model.{Package, update}
use buildsyspp.Session.{NameSpace, members_of, add_package, find_named, Session, find_package}
use buildsyspp.Session.Names.{
  Exists, members_of-add_package, members_of-add_package_other, find_named-append,
}
use buildsyspp.Session.Index.{IsIndex, IsIndex-register, lookup}
use buildsyspp.Session.Find.{Outside, outside, IsNew, Made, Ends, with_package, find_package-Ends}

-- A package of no namespace is at no name. `assign n name q` puts `q` at the two names.
abbrev pub Names : Type 0
Names = Text → Text → Option ℕ

abbrev pub assign : Text → Text → ℕ → Names → Names
assign n name q look m k = if text_eq n m && text_eq name k then some q else look m k

find_named-update :
    (packages : ℕ → Package) (c : ℕ) (p : Package) (k : Text) (qs : List ℕ)
    → ((r : ℕ) → In r qs → r < c)
    → find_named (update packages c p) k qs ≡ find_named packages k qs
unfolding find_named
find_named-update packages c p k [] below = refl
find_named-update packages c p k (r ∷ qs) below =
    rw (find_named-update packages c p k qs (λ x m. below x (later m)), older) refl
  where
    older : update packages c p r ≡ packages r
    older = let k = below r first in ground arith

module _ (nss : List NameSpace) (packages : ℕ → Package) (count : ℕ) (p : Package)
    (i : IsIndex nss packages count) where
  abbrev grown : ℕ → Package
  grown = update packages count p

  older : (m k : Text) → find_named grown k (members_of m nss) ≡ lookup nss packages m k
  older m k =
      find_named-update packages count p k (members_of m nss) (λ r l. ((i.listed m r).0 l).0)

  added :
      (o : Option ℕ) (k : Text)
      → (text_eq p.name k ≡ true → o ≡ none)
      → elim o [
        | some r ↦ some r
        | none ↦ if text_eq (grown count).name k then some count else none
      ]
        ≡ (if text_eq p.name k then some count else o)
  added none k h = ground arith
  added (some r) k h = elim (Bool-cases (text_eq p.name k)) [ inl e ↦ cc (h e) | inr e ↦ rw e refl ]

  in_its_own :
      (k : Text)
      → Exists p.ns_name nss
      → lookup nss packages p.ns_name p.name ≡ none
      → lookup (add_package p.ns_name count nss) grown p.ns_name k
        ≡ (if text_eq p.name k then some count else lookup nss packages p.ns_name k)
  in_its_own k there new =
      rw
        (
          members_of-add_package p.ns_name count nss there,
          find_named-append grown k (members_of p.ns_name nss) count,
          older p.ns_name k,
        )
        (added (lookup nss packages p.ns_name k) k (λ e. rw (← (text_eq_iff p.name k).0 e) new))

  lookup-register :
      (m k : Text)
      → Exists p.ns_name nss
      → lookup nss packages p.ns_name p.name ≡ none
      → lookup (add_package p.ns_name count nss) grown m k
        ≡ assign p.ns_name p.name count (lookup nss packages) m k
  lookup-register m k there new = elim (Bool-cases (text_eq p.ns_name m)) [
    | inl e ↦ rw e (
        subst
          (λ x.
            lookup (add_package p.ns_name count nss) grown x k
            ≡ (if text_eq p.name k then some count else lookup nss packages x k))
          ((text_eq_iff p.ns_name m).0 e) (in_its_own k there new))
    | inr e ↦
        rw
          (
            e,
            members_of-add_package_other m p.ns_name count nss
                (λ x. cc (e, (text_eq_iff p.ns_name m).1 (sym x))),
          )
          (older m k)
  ]

assign_same :
    (n name : Text) (q : ℕ) (look : Names) (m k : Text)
    → look n name ≡ some q
    → assign n name q look m k ≡ look m k
assign_same n name q look m k e = elim (Bool-cases (text_eq n m)) [
  | inl a ↦ elim (Bool-cases (text_eq name k)) [
    | inl b ↦ rw (a, b, ← (text_eq_iff n m).0 a, ← (text_eq_iff name k).0 b) (sym e)
    | inr b ↦ rw (a, b) refl
  ]
  | inr a ↦ rw a refl
]

module _ (h : Host) where
  -- The map of a session.
  abbrev pub names : Session h → Names
  names s = lookup s.namespaces s.packages

  abbrev pub HasIndex : Session h → Type 0
  HasIndex s = IsIndex s.namespaces s.packages s.count

  -- The map's operation: the package of the two names, which is put there if there is none.
  abbrev pub Answers : Session h → Text → Text → Outcome ℕ × Session h → Type 0
  Answers s n name (ok q, t) =
      HasIndex t
      × (((m k : Text) → names t m k ≡ assign n name q (names s) m k)
          × ((names s n name ≡ some q) ⊎ ((names s n name ≡ none) × (q ≡ s.count))))
  Answers s n name (throws e, t) = (names s n name ≡ none) × (outside h t ≡ outside h s)
  Answers s n name (exhausted, t) = ⊥

  HasIndex-outside :
      (s t : Session h) (o : Outside)
      → outside h t ≡ o
      → IsIndex o.namespaces o.packages o.count
      → HasIndex t
  HasIndex-outside s t o e i =
      subst (λ (x : Outside). IsIndex x.namespaces x.packages x.count) (sym e) i

  module _ (s : Session h) (n name : Text) (p : Package) (new : IsNew h n name p)
      (there : Exists n s.namespaces) (none_yet : names s n name ≡ none) (i : HasIndex s) where
    its_Exists : Exists p.ns_name s.namespaces
    its_Exists = subst (λ x. Exists x s.namespaces) (sym new.its_ns) there

    its_lookup : lookup s.namespaces s.packages p.ns_name p.name ≡ none
    its_lookup = rw (new.its_ns, new.its_name) none_yet

    pub IsIndex-with_package :
        IsIndex (add_package n s.count s.namespaces) (update s.packages s.count p) (suc s.count)
    IsIndex-with_package =
        subst
          (λ x.
            IsIndex (add_package x s.count s.namespaces) (update s.packages s.count p)
              (suc s.count))
          new.its_ns (IsIndex-register s.namespaces s.packages s.count p i its_Exists its_lookup)

    names-with_package :
        (m k : Text)
        → lookup (add_package n s.count s.namespaces) (update s.packages s.count p) m k
          ≡ assign n name s.count (names s) m k
    names-with_package m k =
        rw (← new.its_ns, ← new.its_name)
          (lookup-register s.namespaces s.packages s.count p i m k its_Exists its_lookup)

  Answers-Made :
      (s t : Session h) (n name : Text) (q : ℕ)
      → HasIndex s
      → Exists n s.namespaces
      → names s n name ≡ none
      → Made h s n name q t
      → Answers s n name (ok q, t)
  Answers-Made s t n name q i there none_yet made = (
    HasIndex-outside s t (with_package h s n made.p) made.shows
        (IsIndex-with_package s n name made.p made.is_new there none_yet i),
    (
      λ m k.
          ap (λ (o : Outside). lookup o.namespaces o.packages m k) made.shows
          ∙ (names-with_package s n name made.p made.is_new there none_yet i m k
              ∙ ap (λ x. assign n name x (names s) m k) (sym made.number_next)),
      inr (none_yet, made.number_next),
    ),
  )

  Answers-Ends :
      (s : Session h) (n name : Text) (r : Outcome ℕ × Session h)
      → HasIndex s
      → Exists n s.namespaces
      → Ends h s n name r
      → Answers s n name r
  Answers-Ends s n name (ok q, t) i there (inl (e, same)) =
      rw same (i, (λ m k. sym (assign_same n name q (names s) m k e), inl e))
  Answers-Ends s n name (ok q, t) i there (inr (e, made)) = Answers-Made s t n name q i there e made
  Answers-Ends s n name (throws e, t) i there k = k
  Answers-Ends s n name (exhausted, t) i there k = absurd k

  -- Where each package stands once under its names, a call gives the package of the two names, or
  -- the next number if there was none, and the map changes at these names only. A call that throws
  -- has found none and changes nothing but the disk. No call runs out of fuel.
  pub find_package-Answers :
      (s : Session h) (n name : Text)
      → HasIndex s
      → Exists n s.namespaces
      → Answers s n name (find_package h n name s)
  find_package-Answers s n name i there =
      Answers-Ends s n name (find_package h n name s) i there (find_package-Ends h s n name)

  find_package-known :
      (s : Session h) (n name : Text) (q : ℕ)
      → names s n name ≡ some q
      → find_package h n name s ≡ (ok q, s)
  unfolding find_package ◌>>=◌ gets pure
  find_package-known s n name q e = rw e refl

  -- A second call for the same names gives the same package, and changes nothing.
  pub find_package-find_package :
      (s t : Session h) (n name : Text) (q : ℕ)
      → HasIndex s
      → Exists n s.namespaces
      → find_package h n name s ≡ (ok q, t)
      → find_package h n name t ≡ (ok q, t)
  find_package-find_package s t n name q i there e =
      let (j, (shows, k)) = subst (Answers s n name) e (find_package-Answers s n name i there) in
      find_package-known t n name q (shows n name ∙ rw (text_eq_refl n, text_eq_refl name) refl)
