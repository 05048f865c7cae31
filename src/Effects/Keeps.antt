-- ===== src/Effects/Keeps.antt =====
-- Actions that keep an invariant of the state, however they end: one rule for each way in which
-- actions are put together.
use buildsyspp.Shared.{refl, ◌≡◌, subst, Bool, true, false, Option, none, some, if◌then◌else◌}
use buildsyspp.Effects.{
  Exception, Outcome, ok, throws, exhausted, custom, no_key, file_not_found, filesystem_error,
  out_of_range, Action, pure, throw, out_of_fuel, gets, modify, ◌>>=◌, when, require, from,
  catch_not_found,
}

-- `E` is what running out of fuel shows; with the empty type, that the action ends.
pub record Keeps {S A : Type 0} (E : Type 0) (I : S → Type 0) (m : Action S A) : Type 0 where
  pub after : (s : S) → I s → I (m s).1
  pub ends : (s : S) → I s → (m s).0 ≡ exhausted → E

module _ {S A : Type 0} {E : Type 0} {I : S → Type 0} where
  pub Keeps-pure : (a : A) → Keeps E I (pure {S = S} a)
  unfolding pure
  Keeps-pure a = record { after = λ s i. i; ends = λ s i e. cc }

  pub Keeps-throw : (e : Exception) → Keeps E I (throw {S = S} {A = A} e)
  unfolding throw
  Keeps-throw e = record { after = λ s i. i; ends = λ s i e. cc }

  pub Keeps-out_of_fuel : E → Keeps E I (out_of_fuel {S = S} {A = A})
  unfolding out_of_fuel
  Keeps-out_of_fuel e = record { after = λ s i. i; ends = λ s i h. e }

  pub Keeps-gets : (f : S → A) → Keeps E I (gets f)
  unfolding gets
  Keeps-gets f = record { after = λ s i. i; ends = λ s i e. cc }

  pub Keeps-if :
      (b : Bool) (m n : Action S A) → Keeps E I m → Keeps E I n → Keeps E I (if b then m else n)
  Keeps-if true m n hm hn = hm
  Keeps-if false m n hm hn = hn

  pub Keeps-from : (o : Option A) (e : Exception) → Keeps E I (from {S = S} o e)
  unfolding from
  Keeps-from none e = Keeps-throw e
  Keeps-from (some a) e = Keeps-pure a

  pub Keeps-catch : (m k : Action S A) → Keeps E I m → Keeps E I k → Keeps E I (catch_not_found m k)
  unfolding catch_not_found
  Keeps-catch m k hm hk = record {
    after = λ s i. kept_from s (m s) (hm.after s i);
    ends = λ s i. ends_from s (m s) (hm.after s i) (hm.ends s i);
  }
    where
      kept_from : (s : S) (r : Outcome A × S) → I r.1 → I (catch_not_found (λ _. r) k s).1
      kept_from s (ok a, t) i = i
      kept_from s (exhausted, t) i = i
      kept_from s (throws (file_not_found f w), t) i = hk.after t i
      kept_from s (throws (custom c), t) i = i
      kept_from s (throws no_key, t) i = i
      kept_from s (throws filesystem_error, t) i = i
      kept_from s (throws out_of_range, t) i = i

      ends_from :
          (s : S) (r : Outcome A × S)
          → I r.1
          → (r.0 ≡ exhausted → E)
          → (catch_not_found (λ _. r) k s).0 ≡ exhausted
          → E
      ends_from s (ok a, t) i h e = h e
      ends_from s (exhausted, t) i h e = h e
      ends_from s (throws (file_not_found f w), t) i h e = hk.ends t i e
      ends_from s (throws (custom c), t) i h e = h e
      ends_from s (throws no_key, t) i h e = h e
      ends_from s (throws filesystem_error, t) i h e = h e
      ends_from s (throws out_of_range, t) i h e = h e

module _ {S : Type 0} {E : Type 0} {I : S → Type 0} where
  pub Keeps-modify : (f : S → S) → ((s : S) → I s → I (f s)) → Keeps E I (modify f)
  unfolding modify
  Keeps-modify f h = record { after = h; ends = λ s i e. cc }

  pub Keeps-when : (c : Bool) (m : Action S (Unit {0})) → Keeps E I m → Keeps E I (when c m)
  unfolding when pure
  Keeps-when true m h = h
  Keeps-when false m h = Keeps-pure tt

  pub Keeps-require : (c : Bool) (e : Exception) → Keeps E I (require {S = S} c e)
  unfolding require
  Keeps-require true e = Keeps-pure tt
  Keeps-require false e = Keeps-throw e

module _ {S A B : Type 0} {E : Type 0} {I : S → Type 0} where
  pub Keeps-bind :
      (m : Action S A) (f : A → Action S B)
      → Keeps E I m
      → ((a : A) → Keeps E I (f a))
      → Keeps E I (m >>= f)
  unfolding ◌>>=◌
  Keeps-bind m f hm hf = record {
    after = λ s i. kept_from s (m s) (hm.after s i);
    ends = λ s i. ends_from s (m s) (hm.after s i) (hm.ends s i);
  }
    where
      kept_from : (s : S) (r : Outcome A × S) → I r.1 → I (((λ (_ : S). r) >>= f) s).1
      kept_from s (ok a, t) i = (hf a).after t i
      kept_from s (throws e, t) i = i
      kept_from s (exhausted, t) i = i

      ends_from :
          (s : S) (r : Outcome A × S)
          → I r.1
          → (r.0 ≡ exhausted → E)
          → (((λ (_ : S). r) >>= f) s).0 ≡ exhausted
          → E
      ends_from s (ok a, t) i h e = (hf a).ends t i e
      ends_from s (throws x, t) i h e = cc
      ends_from s (exhausted, t) i h e = h refl

  -- What follows `gets` need only be looked at for the values that it gives.
  pub Keeps-gets_bind :
      (g : S → A) (f : A → Action S B)
      → ((s : S) → I s → Keeps E I (f (g s)))
      → Keeps E I (gets g >>= f)
  unfolding ◌>>=◌ gets
  Keeps-gets_bind g f hf = record {
    after = λ s i. (hf s i).after s i;
    ends = λ s i. (hf s i).ends s i;
  }

-- What an action returns, if it does.
pub record Gives {S A : Type 0} (Q : A → Type 0) (m : Action S A) : Type 0 where
  pub result : (s : S) (a : A) → (m s).0 ≡ ok a → Q a

module _ {S A : Type 0} {Q : A → Type 0} where
  pub Gives-pure : (a : A) → Q a → Gives Q (pure {S = S} a)
  unfolding pure
  Gives-pure a holds = record { result = λ s b e. subst Q (cc e) holds }

module _ {S A B : Type 0} {Q : A → Type 0} where
  pub Gives-bind :
      (m : Action S B) (f : B → Action S A) → ((b : B) → Gives Q (f b)) → Gives Q (m >>= f)
  unfolding ◌>>=◌
  Gives-bind m f hf = record { result = λ s. given_from (m s) s }
    where
      given_from : (r : Outcome B × S) (s : S) (a : A) → (((λ (_ : S). r) >>= f) s).0 ≡ ok a → Q a
      given_from (ok b, t) s a e = (hf b).result t a e
      given_from (throws x, t) s a e = cc
      given_from (exhausted, t) s a e = cc

-- The invariant is kept, and what is returned satisfies `Q`.
pub record Holds {S A : Type 0} (E : Type 0) (I : S → Type 0) (Q : A → Type 0) (m : Action S A)
    : Type 0 where
  pub keeps : Keeps E I m
  pub given : (s : S) → I s → (a : A) (t : S) → m s ≡ (ok a, t) → Q a

module _ {S A : Type 0} {E : Type 0} {I : S → Type 0} where
  pub Holds-pure : (Q : A → Type 0) (a : A) → Q a → Holds E I Q (pure {S = S} a)
  unfolding pure
  Holds-pure Q a holds = record { keeps = Keeps-pure a; given = λ s i b t e. subst Q (cc e) holds }

  pub Holds-keeps : (m : Action S A) → Keeps E I m → Holds E I (λ _. Unit) m
  Holds-keeps m k = record { keeps = k; given = λ s i a t e. tt }

module _ {S A B : Type 0} {E : Type 0} {I : S → Type 0} (P : A → Type 0) (Q : B → Type 0) where
  pub Holds-bind :
      (m : Action S A) (f : A → Action S B)
      → Holds E I P m
      → ((a : A) → P a → Holds E I Q (f a))
      → Holds E I Q (m >>= f)
  unfolding ◌>>=◌
  Holds-bind m f hm hf = record {
    keeps = record {
      after = λ s i. after_from (m s) (hm.keeps.after s i) (hm.given s i);
      ends = λ s i. ends_from (m s) (hm.keeps.after s i) (hm.keeps.ends s i) (hm.given s i);
    };
    given = λ s i. given_from (m s) (hm.keeps.after s i) (hm.given s i);
  }
    where
      after_from :
          (r : Outcome A × S)
          → I r.1
          → ((a : A) (t : S) → r ≡ (ok a, t) → P a)
          → I (((λ (_ : S). r) >>= f) r.1).1
      after_from (ok a, t) i g = (hf a (g a t refl)).keeps.after t i
      after_from (throws e, t) i g = i
      after_from (exhausted, t) i g = i

      ends_from :
          (r : Outcome A × S)
          → I r.1
          → (r.0 ≡ exhausted → E)
          → ((a : A) (t : S) → r ≡ (ok a, t) → P a)
          → (((λ (_ : S). r) >>= f) r.1).0 ≡ exhausted
          → E
      ends_from (ok a, t) i n g e = (hf a (g a t refl)).keeps.ends t i e
      ends_from (throws x, t) i n g e = cc
      ends_from (exhausted, t) i n g e = n refl

      given_from :
          (r : Outcome A × S)
          → I r.1
          → ((a : A) (t : S) → r ≡ (ok a, t) → P a)
          → (b : B) (u : S) → ((λ (_ : S). r) >>= f) r.1 ≡ (ok b, u)
          → Q b
      given_from (ok a, t) i g b u e = (hf a (g a t refl)).given t i b u e
      given_from (throws x, t) i g b u e = cc
      given_from (exhausted, t) i g b u e = cc

pub ruleset kept = (
  Keeps-pure, Keeps-throw, Keeps-gets, Keeps-if, Keeps-from, Keeps-catch, Keeps-when, Keeps-require,
  Keeps-bind,
)
