-- ===== src/Script/Scope.antt =====
-- What the running of a package's script may change: its own package, and new packages.
use buildsyspp.Shared.{
  ℕ, ◌<◌, ◌≤◌, ◌≡◌, ◌≢◌, refl, sym, ap, subst, false, ◌∙◌, inl, inr, List, [], Text, All, All-map,
  arith, ◌==◌, Bool-cases, ==_iff,
}
use buildsyspp.Host.{Host}
use buildsyspp.Effects.{modify}
use buildsyspp.Effects.Quiet.{IsQuiet}
use buildsyspp.Effects.Keeps.{Keeps, Keeps-modify}
use buildsyspp.Files.Calls.{Act, seen}
use buildsyspp.Model.{Package, PackageDepend, Progress, update, set_progress}
use buildsyspp.Session.{NameSpace, Session, Do, on_sys, set_package, find_name_space, new_progress}
use buildsyspp.Session.Index.{IsIndex, IsIndex-update, IsIndex-with_name_space}
use buildsyspp.Session.Find.{whole, outside, Outside, IsQuiet-on_sys}

-- The packages of a session, and what a run knows of them.
pub record Registry : Type 0 where
  pub namespaces : List NameSpace
  pub packages : ℕ → Package
  pub count : ℕ
  pub progress : ℕ → Progress

abbrev pub registry_of : Outside → Registry
registry_of o = record {
  namespaces = o.namespaces;
  packages = o.packages;
  count = o.count;
  progress = o.progress;
}

-- The fields that are fixed when a package is made.
pub record IsSame (p r : Package) : Type 0 where
  pub same_name : p.name ≡ r.name
  pub same_ns : p.ns_name ≡ r.ns_name
  pub same_file : p.file ≡ r.file
  pub same_file_short : p.file_short ≡ r.file_short
  pub same_pwd : p.pwd ≡ r.pwd
  pub same_bd : p.bd ≡ r.bd

abbrev pub Below : ℕ → List PackageDepend → Type 0
Below count ds = All (λ (d : PackageDepend). d.target < count) ds

pub Below-more : (a b : ℕ) (ds : List PackageDepend) → a ≤ b → Below a ds → Below b ds
Below-more a b ds le h =
    All-map (λ (d : PackageDepend). d.target < a) (λ d. d.target < b) ds
      (λ d k. omega (arith, k, le)) h

-- No thread has begun to build the package.
abbrev pub NotBuilt : Progress → Type 0
NotBuilt p = (p.built ≡ false) × (p.building ≡ false)

-- From `z` to `r`, where the script of the package `q` runs: every package stands once under its
-- names, what is depended on is a package, the packages that there were are as they were but for
-- `q`, which keeps the fields that the constructor sets, and the new packages depend on nothing and
-- are as they are made; no package is taken for built, and what is no package depends on nothing.
pub record InScope (empty_progress : Progress) (z : Registry) (q : ℕ) (r : Registry) : Type 0 where
  pub index : IsIndex r.namespaces r.packages r.count
  pub targets : (i : ℕ) → i < r.count → Below r.count (r.packages i).depends
  pub grows : z.count ≤ r.count
  pub untouched :
      (i : ℕ) → i < z.count → i ≢ q → (r.packages i ≡ z.packages i) × (r.progress i ≡ z.progress i)
  pub unprocessed :
      (i : ℕ)
      → z.count ≤ i
      → i < r.count
      → ((r.packages i).depends ≡ []) × (r.progress i ≡ empty_progress)
  pub own : IsSame (r.packages q) (z.packages q)
  pub unbuilt : ((i : ℕ) → NotBuilt (z.progress i)) → (i : ℕ) → NotBuilt (r.progress i)
  pub blank :
      ((i : ℕ) → z.count ≤ i → (z.packages i).depends ≡ [])
      → (i : ℕ) → r.count ≤ i
      → (r.packages i).depends ≡ []

pub update_cases :
    {A : Type 0} (P : ℕ → A → Type 0) (f : ℕ → A) (q i : ℕ) (a : A)
    → (i ≡ q → P i a)
    → (i ≢ q → P i (f i))
    → P i (update f q a i)
update_cases P f q i a here there = elim (Bool-cases (i == q)) [
  | inl e ↦ rw e (here ((==_iff i q).0 e))
  | inr e ↦ rw e (there (λ k. cc (e, (==_iff i q).1 k)))
]

pub update_other : {A : Type 0} (f : ℕ → A) (q i : ℕ) (a : A) → i ≢ q → update f q a i ≡ f i
update_other f q i a ne = update_cases (λ j x. x ≡ f j) f q i a (λ e. absurd (ne e)) (λ _. refl)

update_same : {A : Type 0} (f : ℕ → A) (q : ℕ) (a : A) → update f q a q ≡ a
update_same f q a = ground arith

IsSame-refl : (p : Package) → IsSame p p
IsSame-refl p = record {
  same_name = refl;
  same_ns = refl;
  same_file = refl;
  same_file_short = refl;
  same_pwd = refl;
  same_bd = refl;
}

IsSame-trans : (p r t : Package) → IsSame p r → IsSame r t → IsSame p t
IsSame-trans p r t a b = record {
  same_name = a.same_name ∙ b.same_name;
  same_ns = a.same_ns ∙ b.same_ns;
  same_file = a.same_file ∙ b.same_file;
  same_file_short = a.same_file_short ∙ b.same_file_short;
  same_pwd = a.same_pwd ∙ b.same_pwd;
  same_bd = a.same_bd ∙ b.same_bd;
}

module _ (h : Host) where
  abbrev pub registry : Session h → Registry
  registry s = registry_of (outside h s)

  module _ (z : Registry) (q : ℕ) where
    abbrev pub Scope : Session h → Type 0
    Scope s = InScope (new_progress h) z q (registry s)

    pub Scope-shows :
        (t : Session h) (o : Outside)
        → outside h t ≡ o
        → InScope (new_progress h) z q (registry_of o)
        → Scope t
    Scope-shows t o e i =
        subst (λ (x : Outside). InScope (new_progress h) z q (registry_of x)) (sym e) i

    pub Keeps-quiet : {A E : Type 0} (m : Do h A) → IsQuiet (outside h) m → Keeps E Scope m
    Keeps-quiet m k = record {
      after = λ s i. Scope-shows (m s).1 (outside h s) (k.same s) i;
      ends = λ s i e. absurd (k.ends s e);
    }

    pub Keeps-on_sys :
        {A E : Type 0} (m : Act h A) → IsQuiet (seen h whole) m → Keeps E Scope (on_sys h m)
    Keeps-on_sys m k = Keeps-quiet (on_sys h m) (IsQuiet-on_sys h m k)

    pub Keeps-find_name_space : {E : Type 0} (n : Text) → Keeps E Scope (find_name_space h n)
    unfolding find_name_space
    Keeps-find_name_space n = Keeps-modify _ (λ s i. record {
      index = IsIndex-with_name_space n s.namespaces s.packages s.count i.index;
      targets = i.targets;
      grows = i.grows;
      untouched = i.untouched;
      unprocessed = i.unprocessed;
      own = i.own;
      unbuilt = i.unbuilt;
      blank = i.blank;
    })

    module _ (made : q < z.count) where
      -- The current package, without what is fixed in it, may change as long as what it depends on
      -- is packages.
      pub Scope-set :
          (s : Session h) (p : Package)
          → Scope s
          → IsSame p (s.packages q)
          → Below s.count p.depends
          → InScope (new_progress h) z q (record (registry s) { packages = update s.packages q p })
      Scope-set s p i same below = record {
        index =
            IsIndex-update s.namespaces s.packages (update s.packages q p) s.count
              (λ r.
                update_cases
                  (λ j x. (x.ns_name ≡ (s.packages j).ns_name) × (x.name ≡ (s.packages j).name))
                  s.packages q r p (λ e. rw e (same.same_ns, same.same_name)) (λ e. (refl, refl)))
              i.index;
        targets = λ j lt.
            update_cases (λ j x. Below s.count x.depends) s.packages q j p (λ e. below)
              (λ e. i.targets j lt);
        grows = i.grows;
        untouched = λ j lt ne.
            (update_other s.packages q j p ne ∙ (i.untouched j lt ne).0, (i.untouched j lt ne).1);
        unprocessed = λ j ge lt. (
          ap (λ (x : Package). x.depends) (update_other s.packages q j p (omega (arith, made, ge)))
              ∙ (i.unprocessed j ge lt).0,
          (i.unprocessed j ge lt).1,
        );
        own =
            rw (update_same s.packages q p)
              (IsSame-trans p (s.packages q) (z.packages q) same i.own);
        unbuilt = i.unbuilt;
        blank = λ empty j ge.
            ap (λ (x : Package). x.depends)
              (update_other s.packages q j p (omega (arith, made, ge, i.grows)))
            ∙ i.blank empty j ge;
      }

      pub Keeps-set_package :
          {E : Type 0} (f : Package → Package)
          → ((p : Package) → IsSame (f p) p)
          → ((p : Package) → (f p).depends ≡ p.depends)
          → Keeps E Scope (set_package h q f)
      unfolding set_package
      Keeps-set_package f same depends = Keeps-modify _ (λ s i.
          Scope-set s (f (s.packages q)) i (same (s.packages q))
            (rw (depends (s.packages q)) (i.targets q (omega (arith, made, i.grows)))))

      pub Keeps-set_progress :
          {E : Type 0} (f : Progress → Progress)
          → ((p : Progress) → NotBuilt p → NotBuilt (f p))
          → Keeps E Scope (on_sys h (set_progress h q f))
      unfolding on_sys set_progress modify
      Keeps-set_progress f keeps = record {
        after = λ s i. record {
          index = i.index;
          targets = i.targets;
          grows = i.grows;
          untouched = λ j lt ne. (
            (i.untouched j lt ne).0,
            update_other s.sys.progress q j _ ne ∙ (i.untouched j lt ne).1,
          );
          unprocessed = λ j ge lt. (
            (i.unprocessed j ge lt).0,
            update_other s.sys.progress q j _ (omega (arith, made, ge)) ∙ (i.unprocessed j ge lt).1,
          );
          own = i.own;
          unbuilt = λ none_built j.
              update_cases (λ _ p. NotBuilt p) s.sys.progress q j (f (s.sys.progress q))
                (λ e. keeps (s.sys.progress q) (i.unbuilt none_built q))
                (λ ne. i.unbuilt none_built j);
          blank = i.blank;
        };
        ends = λ s i e. cc;
      }

  -- Before a script runs, where the packages are in order.
  pub Scope-start :
      (s : Session h) (q : ℕ)
      → IsIndex s.namespaces s.packages s.count
      → ((i : ℕ) → i < s.count → Below s.count (s.packages i).depends)
      → Scope (registry s) q s
  Scope-start s q index targets = record {
    index = index;
    targets = targets;
    grows = omega arith;
    untouched = λ i lt ne. (refl, refl);
    unprocessed = λ i ge lt. absurd (omega (arith, ge, lt));
    own = IsSame-refl (s.packages q);
    unbuilt = λ none_built. none_built;
    blank = λ empty. empty;
  }
