-- ===== src/Script/Running.antt =====
-- The running of a script, function by function: it keeps to its scope, and ends where the files
-- that it requires do.
use buildsyspp.Shared.{ℕ, ◌<◌, ◌≡◌, refl, subst, Option, none, some, List, Text}
use buildsyspp.Host.{Host}
use buildsyspp.Effects.{Outcome, ok, throws, exhausted, pure}
use buildsyspp.Effects.Keeps.{Keeps, Holds, Holds-pure, Holds-bind}
use buildsyspp.Lua.{
  Lua, Value, Function, f_builddir, f_depend, f_feature, f_intercept, f_keepstaging, f_name,
  f_package_name, f_hashoutput, f_require, f_optionally_require, f_overlayadd, bd_cmd, bd_extract,
  bd_fetch, bd_installfile, bd_ls, bd_patch, bd_restore, fu_path, Answer, values, error, Script,
  returns, raises, calls, what,
}
use buildsyspp.Session.{Session, Do}
use buildsyspp.Script.Scope.{Registry, Scope}
use buildsyspp.Script.Depended.{li_depend-Keeps}
use buildsyspp.Script.Kept.{
  li_name-Keeps, li_package_name-Keeps, li_feature-Keeps, li_builddir-Keeps, li_intercept-Keeps,
  li_keepstaging-Keeps, li_hashoutput-Keeps, li_overlay_add-Keeps, li_bd_restore-Keeps,
  li_bd_extract-Keeps, li_bd_cmd-Keeps, li_bd_patch-Keeps, li_bd_installfile-Keeps,
}
use buildsyspp.Script.Safety.{
  li_bd_ls-Keeps, li_fu_path-Keeps, li_bd_fetch-Keeps, required-Keeps, optionally_required-Keeps,
  record_required-Keeps,
}
use buildsyspp.Script.Run.{
  required, optionally_required, guard, run_required, require_file, plain, call, run_script,
}

-- In whatever session, the files that a script requires satisfy `Good`; and its Lua states satisfy
-- `Sane`, as long as those do in which the files that it requires end.
module _ (h : Host) (lua : Lua) (q : ℕ) (Sane : lua.LuaState → Type 0) (Good : Text → Type 0) where
  abbrev pub file_of : Function → List Value → Do h (Option (Text × Text))
  file_of f args = elim f [
    | f_require ↦ required h lua q args
    | f_optionally_require ↦ optionally_required h lua q args
    | _ ↦ pure none
  ]

  abbrev pub Asks : Script lua.LuaState → Type 0
  Asks (returns v vs) = Sane v
  Asks (raises v message) = Sane v
  Asks (calls v f args k) =
      Sane v
      × (((s t : Session h) (fname file : Text)
            → file_of f args s ≡ (ok (some (fname, file)), t)
            → Good file)
          × ((w : lua.LuaState) (a : Answer) → Sane w → Asks (k w a)))

module _ (E : Type 0) (h : Host) (lua : Lua) (z : Registry) (q : ℕ) (made : q < z.count)
    (Sane : lua.LuaState → Type 0) where
  abbrev HasScope : Session h → Type 0
  HasScope = Scope h z q

  abbrev pub Ended : lua.LuaState × Answer → Type 0
  Ended r = Sane r.0

  abbrev pub RunsWell : Do h (lua.LuaState × Answer) → Type 0
  RunsWell = Holds E HasScope Ended

  guard-Holds :
      {A : Type 0} (v : lua.LuaState) (m : Do h A) (f : A → Do h (lua.LuaState × Answer))
      → Sane v
      → Keeps E HasScope m
      → ((a : A) (s t : Session h) → m s ≡ (ok a, t) → RunsWell (f a))
      → RunsWell (guard h lua q v m f)
  unfolding guard
  guard-Holds {A} v m f sane hm hf = record {
    keeps = record {
      after = λ s i. kept_from s (m s) (hm.after s i) (λ a t e. hf a s t e);
      ends = λ s i. ends_from s (m s) (hm.after s i) (hm.ends s i) (λ a t e. hf a s t e);
    };
    given = λ s i. given_from s (m s) (hm.after s i) (λ a t e. hf a s t e);
  }
    where
      kept_from :
          (s : Session h) (r : Outcome A × Session h)
          → HasScope r.1
          → ((a : A) (t : Session h) → r ≡ (ok a, t) → RunsWell (f a))
          → HasScope (guard h lua q v (λ _. r) f s).1
      kept_from s (ok a, t) i k = (k a t refl).keeps.after t i
      kept_from s (throws e, t) i k = i
      kept_from s (exhausted, t) i k = i

      ends_from :
          (s : Session h) (r : Outcome A × Session h)
          → HasScope r.1
          → (r.0 ≡ exhausted → E)
          → ((a : A) (t : Session h) → r ≡ (ok a, t) → RunsWell (f a))
          → (guard h lua q v (λ _. r) f s).0 ≡ exhausted
          → E
      ends_from s (ok a, t) i n k e = (k a t refl).keeps.ends t i e
      ends_from s (throws x, t) i n k e = cc
      ends_from s (exhausted, t) i n k e = n refl

      given_from :
          (s : Session h) (r : Outcome A × Session h)
          → HasScope r.1
          → ((a : A) (t : Session h) → r ≡ (ok a, t) → RunsWell (f a))
          → (b : lua.LuaState × Answer) (u : Session h) → guard h lua q v (λ _. r) f s ≡ (ok b, u)
          → Ended b
      given_from s (ok a, t) i k b u e = (k a t refl).given t i b u e
      given_from s (throws x, t) i k b u e =
          subst Ended {x = (v, error (what lua x))} {y = b} (cc e) sane
      given_from s (exhausted, t) i k b u e = cc

  module _ (Good : Text → Type 0) (process_one : lua.LuaState → Text → Do h (lua.LuaState × Answer))
      (one : (v : lua.LuaState) (file : Text)
        → Sane v
        → Good file
        → RunsWell (process_one v file)) where
    run_required-Holds :
        (fname file : Text) (r : lua.LuaState × Answer)
        → Ended r
        → RunsWell (run_required h lua q process_one fname file r)
    unfolding run_required
    run_required-Holds fname file (v, error message) sane = Holds-pure Ended _ sane
    run_required-Holds fname file (v, values vs) sane =
        guard-Holds v _ _ sane (record_required-Keeps E h lua z q made fname file)
          (λ _ s t e. Holds-pure Ended _ sane)

    require_file-Holds :
        (v : lua.LuaState) (o : Option (Text × Text))
        → Sane v
        → ((fname file : Text) → o ≡ some (fname, file) → Good file)
        → RunsWell (require_file h lua q process_one v o)
    unfolding require_file
    require_file-Holds v none sane good = Holds-pure Ended _ sane
    require_file-Holds v (some (fname, file)) sane good =
        Holds-bind Ended Ended _ _ (one v file sane (good fname file refl))
          (run_required-Holds fname file)

    plain-Holds :
        (v : lua.LuaState)
        → Sane v
        → (m : Do h (List Value)) → Keeps E HasScope m
        → RunsWell (plain h lua q process_one v m)
    unfolding plain
    plain-Holds v sane m k = guard-Holds v m _ sane k (λ vs s t e. Holds-pure Ended _ sane)

    find_and_run :
        (v : lua.LuaState) (m : Do h (Option (Text × Text)))
        → Sane v
        → Keeps E HasScope m
        → ((s t : Session h) (fname file : Text) → m s ≡ (ok (some (fname, file)), t) → Good file)
        → RunsWell (guard h lua q v m (require_file h lua q process_one v))
    find_and_run v m sane k good =
        guard-Holds v m _ sane k
          (λ o s t e. require_file-Holds v o sane (λ fname file x. good s t fname file (cc (e, x))))

    call-Holds :
        (f : Function) (args : List Value) (v : lua.LuaState)
        → Sane v
        → ((s t : Session h) (fname file : Text)
            → file_of h lua q Sane Good f args s ≡ (ok (some (fname, file)), t)
            → Good file)
        → RunsWell (call h lua q process_one f args v)
    unfolding call
    call-Holds f_builddir args v sane good =
        plain-Holds v sane _ (li_builddir-Keeps E h lua z q made args)
    call-Holds f_depend args v sane good = plain-Holds v sane _ (li_depend-Keeps h z q made args)
    call-Holds f_feature args v sane good =
        plain-Holds v sane _ (li_feature-Keeps E h lua z q made args)
    call-Holds f_intercept args v sane good =
        plain-Holds v sane _ (li_intercept-Keeps E h lua z q made args)
    call-Holds f_keepstaging args v sane good =
        plain-Holds v sane _ (li_keepstaging-Keeps E h lua z q made args)
    call-Holds f_name args v sane good = plain-Holds v sane _ (li_name-Keeps E h lua z q made args)
    call-Holds f_package_name args v sane good =
        plain-Holds v sane _ (li_package_name-Keeps E h lua z q made args)
    call-Holds f_hashoutput args v sane good =
        plain-Holds v sane _ (li_hashoutput-Keeps E h lua z q made args)
    call-Holds f_overlayadd args v sane good =
        plain-Holds v sane _ (li_overlay_add-Keeps E h lua z q made args)
    call-Holds bd_cmd args v sane good =
        plain-Holds v sane _ (li_bd_cmd-Keeps E h lua z q made args)
    call-Holds bd_extract args v sane good =
        plain-Holds v sane _ (li_bd_extract-Keeps E h lua z q made args)
    call-Holds bd_fetch args v sane good =
        plain-Holds v sane _ (li_bd_fetch-Keeps E h lua z q made args)
    call-Holds bd_installfile args v sane good =
        plain-Holds v sane _ (li_bd_installfile-Keeps E h lua z q made args)
    call-Holds bd_ls args v sane good = plain-Holds v sane _ (li_bd_ls-Keeps E h lua z q made args)
    call-Holds bd_patch args v sane good =
        plain-Holds v sane _ (li_bd_patch-Keeps E h lua z q made args)
    call-Holds bd_restore args v sane good =
        plain-Holds v sane _ (li_bd_restore-Keeps E h lua z q made args)
    call-Holds fu_path args v sane good =
        plain-Holds v sane _ (li_fu_path-Keeps E h lua z q made args)
    call-Holds f_require args v sane good =
        find_and_run v (required h lua q args) sane (required-Keeps E h lua z q made args) good
    call-Holds f_optionally_require args v sane good =
        find_and_run v (optionally_required h lua q args) sane
          (optionally_required-Keeps E h lua z q made args) good

    pub run_script-Holds :
        (p : Script lua.LuaState)
        → Asks h lua q Sane Good p
        → RunsWell (run_script h lua q process_one p)
    unfolding run_script
    run_script-Holds (returns v vs) asks = Holds-pure Ended _ asks
    run_script-Holds (raises v message) asks = Holds-pure Ended _ asks
    run_script-Holds (calls v f args k) asks =
        Holds-bind Ended Ended _ _ (call-Holds f args v asks.0 asks.1.0)
          (λ r sane. run_script-Holds (k r.0 r.1) (asks.1.1 r.0 r.1 sane))
