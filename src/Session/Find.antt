-- ===== src/Session/Find.antt =====
-- NameSpace::findPackage: what it finds or makes.
use buildsyspp.Shared.{
  ℕ, suc, ◌≡◌, ◌≢◌, refl, ap, ◌⊎◌, inl, inr, Option, none, some, List, [], Text, Option-cases,
}
use buildsyspp.Host.{Host}
use buildsyspp.Effects.{Outcome, ok, throws, exhausted, pure, gets, ◌>>=◌}
use buildsyspp.Effects.Quiet.{IsQuiet, quiet}
use buildsyspp.Effects.Keeps.{Gives, Gives-bind, Gives-pure}
use buildsyspp.Features.{FeatureMap}
use buildsyspp.Files.Calls.{Act, calls, seen}
use buildsyspp.Model.{Settings, Package, Progress, update}
use buildsyspp.Session.{
  NameSpace, add_package, Session, on_sys, make_dirs, sub_dirs, build_dir, common_init,
  found_package, register, find_package, new_progress,
}
use buildsyspp.Session.Index.{lookup}

-- A session without the disk and what is known of the units.
pub record Outside : Type 0 where
  pub settings : Settings
  pub features : FeatureMap
  pub namespaces : List NameSpace
  pub packages : ℕ → Package
  pub count : ℕ
  pub progress : ℕ → Progress

abbrev pub whole : (ℕ → Progress) → ℕ → Progress
whole f = f

module _ (h : Host) where
  abbrev pub outside : Session h → Outside
  outside s = record {
    settings = s.settings;
    features = s.features;
    namespaces = s.namespaces;
    packages = s.packages;
    count = s.count;
    progress = s.sys.progress;
  }

  with_progress : Session h → (ℕ → Progress) → Outside
  with_progress s f = record (outside s) { progress = f }

  pub IsQuiet-on_sys :
      {A : Type 0} (m : Act h A) → IsQuiet (seen h whole) m → IsQuiet outside (on_sys h m)
  unfolding on_sys
  IsQuiet-on_sys m q = record {
    ends = λ s. q.ends s.sys;
    same = λ s. ap (λ f. record (outside s) { progress = f }) (q.same s.sys);
  }

  sub_dirs-IsQuiet :
      (out : Text) (o : Option (Text × Text)) → IsQuiet (seen h whole) (sub_dirs h out o)
  unfolding sub_dirs
  sub_dirs-IsQuiet out none = search quiet
  sub_dirs-IsQuiet out (some (subpart, last)) = search (quiet, calls)

  make_dirs-IsQuiet : (pwd base out : Text) → IsQuiet (seen h whole) (make_dirs h pwd base out)
  unfolding make_dirs
  make_dirs-IsQuiet pwd base out = search (quiet, calls) depth 14

  build_dir-IsQuiet : (pwd n name : Text) → IsQuiet (seen h whole) (build_dir h pwd n name)
  unfolding build_dir
  build_dir-IsQuiet pwd n name = search (quiet, calls, sub_dirs-IsQuiet, make_dirs-IsQuiet) depth 12

  pub common_init-IsQuiet :
      (n name file_short file : Text) → IsQuiet outside (common_init h n name file_short file)
  unfolding common_init
  common_init-IsQuiet n name file_short file =
      search (quiet, IsQuiet-on_sys, build_dir-IsQuiet) depth 9

  found_package-IsQuiet : (n name : Text) → IsQuiet outside (found_package h n name)
  unfolding found_package
  found_package-IsQuiet n name = search (quiet, common_init-IsQuiet) depth 9

  -- A new package has the names that were asked for.
  pub record IsNew (n name : Text) (p : Package) : Type 0 where
    pub its_ns : p.ns_name ≡ n
    pub its_name : p.name ≡ name
    pub no_depends : p.depends ≡ []

  pub common_init-Gives :
      (n name file_short file : Text) → Gives (IsNew n name) (common_init h n name file_short file)
  unfolding common_init
  common_init-Gives n name file_short file = Gives-bind _ _ (λ cfg. Gives-bind _ _ (λ pwd.
      Gives-bind _ _
        (λ bd. Gives-pure _ (record { its_ns = refl; its_name = refl; no_depends = refl }))))

  found_package-Gives : (n name : Text) → Gives (IsNew n name) (found_package h n name)
  unfolding found_package
  found_package-Gives n name = search (Gives-bind, common_init-Gives)

  -- What shows of the session once `p` is the next package, of the namespace `n`.
  abbrev pub with_package : Session h → Text → Package → Outside
  with_package s n p = record (outside s) {
    namespaces = add_package n s.count s.namespaces;
    packages = update s.packages s.count p;
    count = suc s.count;
    progress = update s.sys.progress s.count (new_progress h);
  }

  pub record Made (s : Session h) (n name : Text) (q : ℕ) (t : Session h) : Type 0 where
    pub p : Package
    pub is_new : IsNew n name p
    pub number_next : q ≡ s.count
    pub shows : outside t ≡ with_package s n p

  -- How the call ends: with the package of those names, with a new one, or with nothing changed.
  abbrev pub Ends : Session h → Text → Text → Outcome ℕ × Session h → Type 0
  Ends s n name (ok q, t) =
      ((lookup s.namespaces s.packages n name ≡ some q) × (t ≡ s))
      ⊎ ((lookup s.namespaces s.packages n name ≡ none) × Made s n name q t)
  Ends s n name (throws e, t) =
      (lookup s.namespaces s.packages n name ≡ none) × (outside t ≡ outside s)
  Ends s n name (exhausted, t) = ⊥

  pub Ends-register :
      (s : Session h) (n name : Text) (r : Outcome Package × Session h)
      → lookup s.namespaces s.packages n name ≡ none
      → r.0 ≢ exhausted
      → ((p : Package) → r.0 ≡ ok p → IsNew n name p)
      → outside r.1 ≡ outside s
      → Ends s n name (((λ (_ : Session h). r) >>= (λ p. register h n p)) s)
  unfolding ◌>>=◌ register pure
  Ends-register s n name (ok p, t) none_yet e new same = inr (
    none_yet,
    record {
      p = p;
      is_new = new p refl;
      number_next = ap (λ (o : Outside). o.count) same;
      shows =
          ap
            (λ (o : Outside). record o {
              namespaces = add_package n o.count o.namespaces;
              packages = update o.packages o.count p;
              count = suc o.count;
              progress = update o.progress o.count (new_progress h);
            })
            same;
    },
  )
  Ends-register s n name (throws x, t) none_yet e new same = (none_yet, same)
  Ends-register s n name (exhausted, t) none_yet e new same = absurd (e refl)

  pub find_package-Ends : (s : Session h) (n name : Text) → Ends s n name (find_package h n name s)
  unfolding find_package ◌>>=◌ gets pure
  find_package-Ends s n name = elim (Option-cases (lookup s.namespaces s.packages n name)) [
    | inl e ↦ rw e (
        Ends-register s n name (found_package h n name s) e ((found_package-IsQuiet n name).ends s)
          ((found_package-Gives n name).result s) ((found_package-IsQuiet n name).same s))
    | inr (q, e) ↦ rw e (inl (e, refl))
  ]
