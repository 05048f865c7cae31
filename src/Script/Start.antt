-- ===== src/Script/Start.antt =====
-- The session when the first package is made.
use buildsyspp.Shared.{
  ℕ, suc, ◌≤◌, ◌<◌, ◌≡◌, refl, sym, subst, inl, inr, none, [], Text, text, arith, In, text_eq_refl,
  before_text, behind_last,
}
use buildsyspp.Host.{Host}
use buildsyspp.Effects.{Outcome, ok, throws, exhausted, modify, ◌>>=◌}
use buildsyspp.Lua.{Lua}
use buildsyspp.Model.{Package, PackageDepend}
use buildsyspp.Session.{
  Session, with_name_space, find_named, members_of, make_base_package, find_name_space, common_init,
  all_packages, new_progress,
}
use buildsyspp.Session.Names.{occurrences, with_name_space-Exists}
use buildsyspp.Session.Index.{IsIndex, IsIndex-nil, IsIndex-with_name_space, lookup}
use buildsyspp.Session.Find.{
  Outside, outside, Ends, Ends-register, with_package, common_init-IsQuiet, common_init-Gives,
}
use buildsyspp.Session.Map.{IsIndex-with_package}
use buildsyspp.Script.Scope.{Below, NotBuilt, update_cases}
use buildsyspp.Script.Sequence.{IsOrderly, IsBlank, Runs, Runs-occurrences}

module _ (h : Host) where
  -- No package is made, and no namespace.
  pub record IsEmpty (s : Session h) : Type 0 where
    pub no_namespaces : s.namespaces ≡ []
    pub no_packages : s.count ≡ 0

  abbrev begun : Session h → Text → Session h
  begun s n = record s { namespaces = with_name_space n s.namespaces }

  begun_IsIndex :
      (s : Session h) (n : Text)
      → IsEmpty s
      → IsIndex (with_name_space n s.namespaces) s.packages s.count
  begun_IsIndex s n e =
      IsIndex-with_name_space n s.namespaces s.packages s.count
        (rw (e.no_namespaces, e.no_packages) (IsIndex-nil s.packages))

  begun_lookup :
      (s : Session h) (n name : Text)
      → IsEmpty s
      → lookup (with_name_space n s.namespaces) s.packages n name ≡ none
  unfolding with_name_space members_of find_named
  begun_lookup s n name e = rw (e.no_namespaces, text_eq_refl n) refl

  IsOrderly-shows :
      (t : Session h) (o : Outside)
      → outside h t ≡ o
      → IsIndex o.namespaces o.packages o.count
      → ((i : ℕ) → i < o.count → Below o.count (o.packages i).depends)
      → IsOrderly h t
  IsOrderly-shows t o e i k = record {
    index = subst (λ (x : Outside). IsIndex x.namespaces x.packages x.count) (sym e) i;
    targets =
        subst (λ (x : Outside). (i : ℕ) → i < x.count → Below x.count (x.packages i).depends)
          (sym e) k;
  }

  IsOrderly-Ends :
      (s : Session h) (n name : Text) (r : Outcome ℕ × Session h)
      → IsEmpty s
      → Ends h (begun s n) n name r
      → IsOrderly h r.1
  IsOrderly-Ends s n name (ok q, t) e (inl (found, same)) = cc (found, begun_lookup s n name e)
  IsOrderly-Ends s n name (ok q, t) e (inr (none_yet, made)) =
      IsOrderly-shows t (with_package h (begun s n) n made.p) made.shows
        (IsIndex-with_package h (begun s n) n name made.p made.is_new
          (with_name_space-Exists n s.namespaces) none_yet (begun_IsIndex s n e))
        (λ i lt.
          update_cases (λ _ (x : Package). Below (suc s.count) x.depends) s.packages s.count i
            made.p (λ _. rw made.is_new.no_depends tt)
            (λ ne. absurd (omega (arith, lt, ne, e.no_packages))))
  IsOrderly-Ends s n name (throws x, t) e (none_yet, same) =
      IsOrderly-shows t (outside h (begun s n)) same (begun_IsIndex s n e)
        (λ i lt. absurd (omega (arith, lt, e.no_packages)))
  IsOrderly-Ends s n name (exhausted, t) e k = absurd k

  NotBuilt-Ends :
      (s : Session h) (n name : Text) (r : Outcome ℕ × Session h)
      → IsEmpty s
      → ((i : ℕ) → NotBuilt (s.sys.progress i))
      → Ends h (begun s n) n name r
      → (i : ℕ) → NotBuilt (r.1.sys.progress i)
  NotBuilt-Ends s n name (ok q, t) e fresh (inl (found, same)) = cc (found, begun_lookup s n name e)
  NotBuilt-Ends s n name (ok q, t) e fresh (inr (none_yet, made)) =
      subst (λ (x : Outside). (i : ℕ) → NotBuilt (x.progress i)) (sym made.shows)
        (λ i.
          update_cases (λ _ p. NotBuilt p) s.sys.progress s.count i (new_progress h)
            (λ _. (refl, refl)) (λ _. fresh i))
  NotBuilt-Ends s n name (throws x, t) e fresh (none_yet, same) =
      subst (λ (x : Outside). (i : ℕ) → NotBuilt (x.progress i)) (sym same) fresh
  NotBuilt-Ends s n name (exhausted, t) e fresh k = absurd k

  make_base_package-Ends :
      (s : Session h) (filename : Text)
      → IsEmpty s
      → (let pname = behind_last b'/' filename in
          let n = before_text (text ".lua") pname in
          Ends h (begun s n) n pname (make_base_package h filename s))
  unfolding make_base_package find_name_space modify ◌>>=◌
  make_base_package-Ends s filename e =
      let pname = behind_last b'/' filename in
      let n = before_text (text ".lua") pname in
      let m = common_init h n pname filename filename in
      Ends-register h (begun s n) n pname (m (begun s n)) (begun_lookup s n pname e)
        ((common_init-IsQuiet h n pname filename filename).ends (begun s n))
        ((common_init-Gives h n pname filename filename).result (begun s n))
        ((common_init-IsQuiet h n pname filename filename).same (begun s n))

  -- A session with no package in it is in order after the first, whether or not it can be made.
  pub make_base_package-IsOrderly :
      (s : Session h) (filename : Text) → IsEmpty s → IsOrderly h (make_base_package h filename s).1
  make_base_package-IsOrderly s filename e =
      IsOrderly-Ends s _ _ _ e (make_base_package-Ends s filename e)

  -- Nothing is taken for built after the base package is made.
  pub make_base_package-NotBuilt :
      (s : Session h) (filename : Text)
      → IsEmpty s
      → ((i : ℕ) → NotBuilt (s.sys.progress i))
      → (i : ℕ) → NotBuilt ((make_base_package h filename s).1.sys.progress i)
  make_base_package-NotBuilt s filename e fresh =
      NotBuilt-Ends s _ _ _ e fresh (make_base_package-Ends s filename e)

  IsBlank-Ends :
      (s : Session h) (n name : Text) (r : Outcome ℕ × Session h)
      → IsEmpty s
      → IsBlank h s
      → Ends h (begun s n) n name r
      → IsBlank h r.1
  IsBlank-Ends s n name (ok q, t) e empty (inl (found, same)) = cc (found, begun_lookup s n name e)
  IsBlank-Ends s n name (ok q, t) e empty (inr (none_yet, made)) =
      subst (λ (x : Outside). (i : ℕ) → x.count ≤ i → (x.packages i).depends ≡ []) (sym made.shows)
        (λ i ge.
          update_cases (λ _ (x : Package). x.depends ≡ []) s.packages s.count i made.p
            (λ _. made.is_new.no_depends) (λ _. empty i (omega (arith, ge))))
  IsBlank-Ends s n name (throws x, t) e empty (none_yet, same) =
      subst (λ (x : Outside). (i : ℕ) → x.count ≤ i → (x.packages i).depends ≡ []) (sym same) empty
  IsBlank-Ends s n name (exhausted, t) e empty k = absurd k

  pub make_base_package-IsBlank :
      (s : Session h) (filename : Text)
      → IsEmpty s
      → IsBlank h s
      → IsBlank h (make_base_package h filename s).1
  make_base_package-IsBlank s filename e empty =
      IsBlank-Ends s _ _ _ e empty (make_base_package-Ends s filename e)

  -- After the base package of an empty session is made and any packages are processed, in any order
  -- and with any scripts, every package that a package depends on stands once in the namespaces.
  pub make_base_package-occurrences :
      (lua : Lua) (s t : Session h) (filename : Text) (q : ℕ) (d : PackageDepend)
      → IsEmpty s
      → Runs h lua (make_base_package h filename s).1 t
      → q < t.count
      → In d (t.packages q).depends
      → occurrences d.target (all_packages t.namespaces) ≡ 1
  make_base_package-occurrences lua s t filename q d e runs made m =
      Runs-occurrences h lua (make_base_package h filename s).1 t q d
        (make_base_package-IsOrderly s filename e) runs made m
