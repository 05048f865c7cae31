-- ===== src/Effects/Quiet.antt =====
-- Actions that end, and that leave a part of the state as it was: one rule for each way in which
-- actions are put together.
use buildsyspp.Shared.{◌≡◌, ◌≢◌, refl, ◌∙◌, Bool, true, false, Option, none, some, if◌then◌else◌}
use buildsyspp.Effects.{
  Exception, Outcome, ok, throws, exhausted, custom, no_key, file_not_found, filesystem_error,
  out_of_range, Action, pure, throw, gets, modify, ◌>>=◌, when, require, from, catch_not_found,
}

-- `m` does not run out of fuel, and what `view` shows of the state is the same afterwards.
pub record IsQuiet {S V A : Type 0} (view : S → V) (m : Action S A) : Type 0 where
  pub ends : (s : S) → (m s).0 ≢ exhausted
  pub same : (s : S) → view (m s).1 ≡ view s

module _ {S V A : Type 0} {view : S → V} where
  pub IsQuiet-pure : (a : A) → IsQuiet view (pure {S = S} a)
  unfolding pure
  IsQuiet-pure a = record { ends = λ s e. cc; same = λ s. refl }

  pub IsQuiet-throw : (e : Exception) → IsQuiet view (throw {S = S} {A = A} e)
  unfolding throw
  IsQuiet-throw e = record { ends = λ s h. cc; same = λ s. refl }

  pub IsQuiet-gets : (f : S → A) → IsQuiet view (gets f)
  unfolding gets
  IsQuiet-gets f = record { ends = λ s h. cc; same = λ s. refl }

  pub IsQuiet-if :
      (b : Bool) (m n : Action S A)
      → IsQuiet view m
      → IsQuiet view n
      → IsQuiet view (if b then m else n)
  IsQuiet-if true m n hm hn = hm
  IsQuiet-if false m n hm hn = hn

  pub IsQuiet-from : (o : Option A) (e : Exception) → IsQuiet view (from {S = S} o e)
  unfolding from
  IsQuiet-from none e = IsQuiet-throw e
  IsQuiet-from (some a) e = IsQuiet-pure a

  pub IsQuiet-catch :
      (m k : Action S A) → IsQuiet view m → IsQuiet view k → IsQuiet view (catch_not_found m k)
  unfolding catch_not_found
  IsQuiet-catch m k hm hk = record {
    ends = λ s. ends_from s (m s) (hm.ends s);
    same = λ s. same_from s (m s) (hm.same s);
  }
    where
      ends_from :
          (s : S) (r : Outcome A × S)
          → r.0 ≢ exhausted
          → (catch_not_found (λ _. r) k s).0 ≢ exhausted
      ends_from s (ok a, t) h = λ e. cc
      ends_from s (exhausted, t) h = h
      ends_from s (throws (file_not_found f w), t) h = hk.ends t
      ends_from s (throws (custom c), t) h = h
      ends_from s (throws no_key, t) h = h
      ends_from s (throws filesystem_error, t) h = h
      ends_from s (throws out_of_range, t) h = h

      same_from :
          (s : S) (r : Outcome A × S)
          → view r.1 ≡ view s
          → view (catch_not_found (λ _. r) k s).1 ≡ view s
      same_from s (ok a, t) h = h
      same_from s (exhausted, t) h = h
      same_from s (throws (file_not_found f w), t) h = hk.same t ∙ h
      same_from s (throws (custom c), t) h = h
      same_from s (throws no_key, t) h = h
      same_from s (throws filesystem_error, t) h = h
      same_from s (throws out_of_range, t) h = h

module _ {S V : Type 0} {view : S → V} where
  pub IsQuiet-modify : (f : S → S) → ((s : S) → view (f s) ≡ view s) → IsQuiet view (modify f)
  unfolding modify
  IsQuiet-modify f h = record { ends = λ s e. cc; same = h }

  pub IsQuiet-when : (c : Bool) (m : Action S (Unit {0})) → IsQuiet view m → IsQuiet view (when c m)
  unfolding when pure
  IsQuiet-when true m h = h
  IsQuiet-when false m h = IsQuiet-pure tt

  pub IsQuiet-require : (c : Bool) (e : Exception) → IsQuiet view (require {S = S} c e)
  unfolding require
  IsQuiet-require true e = IsQuiet-pure tt
  IsQuiet-require false e = IsQuiet-throw e

module _ {S V A B : Type 0} {view : S → V} where
  pub IsQuiet-bind :
      (m : Action S A) (f : A → Action S B)
      → IsQuiet view m
      → ((a : A) → IsQuiet view (f a))
      → IsQuiet view (m >>= f)
  unfolding ◌>>=◌
  IsQuiet-bind m f hm hf = record {
    ends = λ s. ends_from (m s) (hm.ends s);
    same = λ s. same_from s (m s) (hm.same s);
  }
    where
      ends_from : (r : Outcome A × S) → r.0 ≢ exhausted → (((λ (_ : S). r) >>= f) r.1).0 ≢ exhausted
      ends_from (ok a, t) h = (hf a).ends t
      ends_from (throws e, t) h = λ q. cc
      ends_from (exhausted, t) h = absurd (h refl)

      same_from :
          (s : S) (r : Outcome A × S)
          → view r.1 ≡ view s
          → view (((λ (_ : S). r) >>= f) s).1 ≡ view s
      same_from s (ok a, t) h = (hf a).same t ∙ h
      same_from s (throws e, t) h = h
      same_from s (exhausted, t) h = h

pub ruleset quiet = (
  IsQuiet-pure, IsQuiet-throw, IsQuiet-gets, IsQuiet-if, IsQuiet-from, IsQuiet-catch, IsQuiet-when,
  IsQuiet-require, IsQuiet-bind,
)
