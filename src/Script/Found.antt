-- ===== src/Script/Found.antt =====
-- The dependency that `depend` adds: the package that it finds or makes is one of the session.
use buildsyspp.Shared.{
  ℕ, suc, ◌<◌, ◌≡◌, ◌≢◌, refl, ap, sym, subst, ◌∙◌, inl, inr, Bool, Option, none, some, List, [],
  ◌∷◌, Text, All-append, arith,
}
use buildsyspp.Host.{Host}
use buildsyspp.Effects.{Outcome, ok, throws, exhausted, modify, gets}
use buildsyspp.Effects.Leads.{Post, Post-map, Leads, Leads-pure, Leads-bind}
use buildsyspp.Model.{Package, PackageDepend}
use buildsyspp.Session.{NameSpace, members_of, Session, set_package, find_package, new_progress}
use buildsyspp.Session.Names.{Exists, Exists-add_package, In-Exists, find_named-In}
use buildsyspp.Session.Find.{Outside, outside, Made, Ends, find_package-Ends, IsNew, with_package}
use buildsyspp.Session.Map.{names, IsIndex-with_package}
use buildsyspp.Script.Scope.{
  NotBuilt, Registry, registry_of, InScope, IsSame, Scope, Scope-set, Scope-shows, update_cases,
  update_other, Below, Below-more,
}
use buildsyspp.Script.{current}
use buildsyspp.Script.Depend.{depend, depend_all, add_depend}

module _ (h : Host) (z : Registry) (q : ℕ) (made : q < z.count) where
  abbrev pub HasScope : Session h → Type 0
  HasScope = Scope h z q

  -- The namespace that is asked for is there.
  abbrev pub Known : Option Text → List NameSpace → Type 0
  Known none nss = Unit
  Known (some n) nss = Exists n nss

  abbrev pub IsReady : Option Text → Session h → Type 0
  IsReady ns s = HasScope s × Known ns s.namespaces

  older : (s : Session h) → HasScope s → (j : ℕ) → j < z.count → j ≢ s.count
  older s i j lt = omega (arith, lt, i.grows)

  scope-with_package :
      (s : Session h) (n name : Text) (p : Package)
      → HasScope s
      → Exists n s.namespaces
      → names h s n name ≡ none
      → IsNew h n name p
      → InScope (new_progress h) z q (registry_of (with_package h s n p))
  scope-with_package s n name p i there none_yet new = record {
    index = IsIndex-with_package h s n name p new there none_yet i.index;
    targets = λ j lt.
        update_cases (λ j x. Below (suc s.count) x.depends) s.packages s.count j p
          (λ e. rw new.no_depends tt)
          (λ ne.
            Below-more s.count (suc s.count) (s.packages j).depends (omega arith)
              (i.targets j (omega (arith, lt, ne))));
    grows = omega (arith, i.grows);
    untouched = λ j lt ne. (
      update_other s.packages s.count j p (older s i j lt) ∙ (i.untouched j lt ne).0,
      update_other s.sys.progress s.count j (new_progress h) (older s i j lt)
          ∙ (i.untouched j lt ne).1,
    );
    unprocessed = λ j ge lt. (
      update_cases (λ _ (x : Package). x.depends ≡ []) s.packages s.count j p (λ e. new.no_depends)
          (λ ne. (i.unprocessed j ge (omega (arith, lt, ne))).0),
      update_cases (λ _ x. x ≡ new_progress h) s.sys.progress s.count j (new_progress h) (λ e. refl)
          (λ ne. (i.unprocessed j ge (omega (arith, lt, ne))).1),
    );
    own = rw (update_other s.packages s.count q p (older s i q made)) i.own;
    unbuilt = λ none_built j.
        update_cases (λ _ p. NotBuilt p) s.sys.progress s.count j (new_progress h)
          (λ _. (refl, refl)) (λ _. i.unbuilt none_built j);
    blank = λ empty j ge.
        ap (λ (x : Package). x.depends) (update_other s.packages s.count j p (omega (arith, ge)))
        ∙ i.blank empty j (omega (arith, ge));
  }

  scope_made :
      (s t : Session h) (n name : Text) (target : ℕ)
      → HasScope s
      → Exists n s.namespaces
      → names h s n name ≡ none
      → Made h s n name target t
      → HasScope t
  scope_made s t n name target i there none_yet m =
      Scope-shows h z q t (with_package h s n m.p) m.shows
        (scope-with_package s n name m.p i there none_yet m.is_new)

  -- After `find_package`: the namespaces that were there still are, and the package is made.
  abbrev Found : Session h → ℕ → Session h → Type 0
  Found s target t =
      HasScope t
      × (((m : Text) → Exists m s.namespaces → Exists m t.namespaces) × (target < t.count))

  Found-by_Ends :
      (s : Session h) (n name : Text) (r : Outcome ℕ × Session h)
      → HasScope s
      → Exists n s.namespaces
      → Ends h s n name r
      → Post HasScope (Found s) r
  Found-by_Ends s n name (ok target, t) i there (inl (e, same)) = rw same (
    i,
    (
      λ m k. k,
      ((i.index.listed n target).0
          (find_named-In s.packages name (members_of n s.namespaces) target e).0).0,
    ),
  )
  Found-by_Ends s n name (ok target, t) i there (inr (e, m)) = (
    scope_made s t n name target i there e m,
    (
      λ n' k.
          subst (λ (o : Outside). Exists n' o.namespaces) (sym m.shows)
            (Exists-add_package n n' s.count s.namespaces k),
      subst (λ (o : Outside). target < o.count) (sym m.shows) (omega (arith, m.number_next)),
    ),
  )
  Found-by_Ends s n name (throws e, t) i there (none_yet, same) =
      Scope-shows h z q t (outside h s) same i
  Found-by_Ends s n name (exhausted, t) i there k = absurd k

  -- The package that is found, with the namespace that the script has asked for still there.
  abbrev Target : Option Text → ℕ → Session h → Type 0
  Target ns target s = IsReady ns s × (target < s.count)

  still_Known :
      (s : Session h) (ns : Option Text) (target : ℕ) (t : Session h)
      → Known ns s.namespaces
      → Found s target t
      → Known ns t.namespaces
  still_Known s none target t k f = tt
  still_Known s (some n) target t k f = f.1.0 n k

  -- The namespace that `depend` looks in.
  abbrev asked : Option Text → Package → Text
  asked ns p = elim ns [ none ↦ p.ns_name | some n ↦ n ]

  asked-Exists :
      (s : Session h) (ns : Option Text)
      → IsReady ns s
      → Exists (asked ns (s.packages q)) s.namespaces
  asked-Exists s none (i, k) =
      In-Exists (s.packages q).ns_name s.namespaces
        ((i.index.listed (s.packages q).ns_name q).1 (omega (arith, made, i.grows), refl))
  asked-Exists s (some n) (i, k) = k

  add_depend-IsSame : (d : PackageDepend) (p : Package) → IsSame (add_depend h q d p) p
  add_depend-IsSame d p = record {
    same_name = refl;
    same_ns = refl;
    same_file = refl;
    same_file_short = refl;
    same_pwd = refl;
    same_bd = refl;
  }

  add-Target :
      (ns : Option Text) (target : ℕ) (locally : Bool)
      → Leads
          (Target ns target)
          HasScope
          (λ _. IsReady ns)
          (set_package h q (add_depend h q (record { target = target; locally = locally })))
  unfolding set_package modify
  add-Target ns target locally = record {
    leads = λ s r. (
      Scope-set h z q made s _ r.0.0 (add_depend-IsSame _ (s.packages q)) (
          All-append (λ (d : PackageDepend). d.target < s.count) (s.packages q).depends _
            (r.0.0.targets q (omega (arith, made, r.0.0.grows))) (r.1, tt)),
      r.0.1,
    );
  }

  found-Target :
      (ns : Option Text) (name : Text) (p : Package)
      → Leads
          (λ s. IsReady ns s × (s.packages q ≡ p))
          HasScope
          (Target ns)
          (find_package h (asked ns p) name)
  found-Target ns name p = record {
    leads = λ s r. rw (← r.1) (
        Post-map HasScope (Found s) (Target ns) (find_package h (asked ns (s.packages q)) name s)
          (λ target t f. ((f.0, still_Known s ns target t r.0.1 f), f.1.1))
          (Found-by_Ends s (asked ns (s.packages q)) name
            (find_package h (asked ns (s.packages q)) name s) r.0.0 (asked-Exists s ns r.0)
            (find_package-Ends h s (asked ns (s.packages q)) name)));
  }

  pub depend-Leads :
      (ns : Option Text) (locally : Bool) (name : Text)
      → Leads (IsReady ns) HasScope (λ _. IsReady ns) (depend h q ns locally name)
  unfolding depend current gets
  depend-Leads ns locally name =
      Leads-bind (IsReady ns) HasScope (λ p s. IsReady ns s × (s.packages q ≡ p)) (λ _. IsReady ns)
        _ _ (record { leads = λ s r. (r, refl) })
        (λ p.
          Leads-bind _ HasScope (Target ns) (λ _. IsReady ns) _ _ (found-Target ns name p)
            (λ target. add-Target ns target locally))

  pub depend_all-Leads :
      (ns : Option Text) (locally : Bool) (wanted : List Text)
      → Leads (IsReady ns) HasScope (λ _. IsReady ns) (depend_all h q ns locally wanted)
  unfolding depend_all
  depend_all-Leads ns locally [] = Leads-pure _ _ _ tt (λ s r. r)
  depend_all-Leads ns locally (name ∷ wanted) =
      Leads-bind _ _ (λ _. IsReady ns) _ _ _ (depend-Leads ns locally name)
        (λ _. depend_all-Leads ns locally wanted)
