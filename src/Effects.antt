-- ===== src/Effects.antt =====
-- Actions: functions of a state that return, throw or run out of fuel, and leave a state in each
-- case, as a C++ exception does. The exceptions are those of src/exceptions.hpp, and the two of the
-- standard library that the code can meet.
pub mod Quiet
pub mod Keeps
pub mod Leads
use buildsyspp.Shared.{ℕ, ◌≡◌, refl, Bool, true, false, Option, none, some, Text, if◌then◌else◌}

pub data Exception : Type 0 where
  custom : Text → Exception
  no_key : Exception
  file_not_found : Text → Text → Exception
  filesystem_error : Exception
  out_of_range : Exception

pub data Outcome (A : Type 0) : Type 0 where
  ok : A → Outcome A
  throws : Exception → Outcome A
  exhausted : Outcome A

abbrev pub Action : Type 0 → Type 0 → Type 0
Action S A = S → Outcome A × S

module _ {S A : Type 0} where
  unfoldable pub pure : A → Action S A
  pure a s = (ok a, s)

  unfoldable pub throw : Exception → Action S A
  throw e s = (throws e, s)

  unfoldable pub out_of_fuel : Action S A
  out_of_fuel s = (exhausted, s)

  unfoldable pub gets : (S → A) → Action S A
  gets f s = (ok (f s), s)

module _ {S : Type 0} where
  unfoldable pub modify : (S → S) → Action S (Unit {0})
  modify f s = (ok tt, f s)

module _ {S A B : Type 0} where
  abbrev pub go_on : Outcome A → (A → Action S B) → Action S B
  go_on (ok a) f s = f a s
  go_on (throws e) f s = (throws e, s)
  go_on exhausted f s = (exhausted, s)

  infixl 5 ◌>>=◌ ◌>>◌
  unfoldable pub ◌>>=◌ : Action S A → (A → Action S B) → Action S B
  unfolding pure throw out_of_fuel gets modify
  ◌>>=◌ m f s = let (o, t) = m s in go_on o f t

  abbrev pub ◌>>◌ : Action S A → Action S B → Action S B
  m >> k = m >>= λ _. k

module _ {S : Type 0} where
  -- `if(c) { m }` before what follows.
  unfoldable pub when : Bool → Action S (Unit {0}) → Action S (Unit {0})
  unfolding pure
  when c m = if c then m else pure tt

  -- `if(!done) { throw e; }`
  unfoldable pub require : Bool → Exception → Action S (Unit {0})
  unfolding pure throw
  require c e = if c then pure tt else throw e

module _ {S A : Type 0} where
  -- A value, or an exception where there is none.
  unfoldable pub from : Option A → Exception → Action S A
  unfolding pure throw
  from none e = throw e
  from (some a) e = pure a

  abbrev handle_not_found : Outcome A × S → Action S A → Outcome A × S
  handle_not_found (ok a, t) k = (ok a, t)
  handle_not_found (exhausted, t) k = (exhausted, t)
  handle_not_found (throws (file_not_found f w), t) k = k t
  handle_not_found (throws (custom m), t) k = (throws (custom m), t)
  handle_not_found (throws no_key, t) k = (throws no_key, t)
  handle_not_found (throws filesystem_error, t) k = (throws filesystem_error, t)
  handle_not_found (throws out_of_range, t) k = (throws out_of_range, t)

  -- `try { m } catch(FileNotFoundException) { k }`
  unfoldable pub catch_not_found : Action S A → Action S A → Action S A
  catch_not_found m k s = handle_not_found (m s) k
