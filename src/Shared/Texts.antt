-- ===== src/Shared/Texts.antt =====
-- `std::string` as the list of its bytes, with the operations that the program uses.
use Prim.Native.Nat.{ℕ, ◌<◌}
use Prim.Native.Char.{code}
use Prim.Native.String.{String}
use mathlib.Core.Path.{◌≡◌, refl}
use mathlib.Core.Bool.{Bool, true, false, ◌||◌, ◌&&◌}
use mathlib.Core.Logic.{◌↔◌, ◌≢◌}
use mathlib.Core.Option.{Option, none, some}
use mathlib.Core.List.{List, [], ◌∷◌, ◌++◌}
use native.Mathlib.Omega.{arith}
use buildsyspp.Shared.Tests.{◌==◌, if◌then◌else◌}
use buildsyspp.Shared.Lists.{length}

abbrev pub Text : Type 0
Text = List ℕ

-- A literal. It stays shut, so that proofs see it as one name.
unfoldable pub text : String → Text
text String.[] = []
text (String.◌∷◌ c s) = code c ∷ text s

abbrev pub empty : Text → Bool
empty [] = true
empty (c ∷ s) = false

unfoldable pub text_eq : Text → Text → Bool
text_eq [] [] = true
text_eq [] (d ∷ t) = false
text_eq (c ∷ s) [] = false
text_eq (c ∷ s) (d ∷ t) = c == d && text_eq s t

pub text_eq_refl : (s : Text) → text_eq s s ≡ true
unfolding text_eq
text_eq_refl [] = refl
text_eq_refl (c ∷ s) = ground (arith, text_eq_refl s)

pub text_eq_sound : (s t : Text) → text_eq s t ≡ true → s ≡ t
unfolding text_eq
text_eq_sound [] [] h = refl
text_eq_sound [] (d ∷ t) h = cc
text_eq_sound (c ∷ s) [] h = cc
text_eq_sound (c ∷ s) (d ∷ t) h = ground (arith, text_eq_sound s t)

pub text_eq_iff : (s t : Text) → (text_eq s t ≡ true) ↔ (s ≡ t)
text_eq_iff s t = (text_eq_sound s t, λ e. rw e (text_eq_refl t))

-- `std::find` over a container of strings.
unfoldable pub has_text : Text → List Text → Bool
has_text t [] = false
has_text t (x ∷ xs) = text_eq t x || has_text t xs

abbrev pub in_front : ℕ → Option (Text × Text) → Option (Text × Text)
in_front x none = none
in_front x (some (a, b)) = some (x ∷ a, b)

abbrev pub or_here : Bool → ℕ → Text → Option (Text × Text) → Option (Text × Text)
or_here here x s none = if here then some ([], s) else none
or_here here x s (some (a, b)) = some (x ∷ a, b)

-- `s.find(c)` and the two substrings around it: what stands before the first `c`, and behind it.
unfoldable pub split_first : ℕ → Text → Option (Text × Text)
split_first c [] = none
split_first c (x ∷ s) = if x == c then some ([], s) else in_front x (split_first c s)

-- The same around the last `c`, `s.rfind(c)`.
unfoldable pub split_last : ℕ → Text → Option (Text × Text)
split_last c [] = none
split_last c (x ∷ s) = or_here (x == c) x s (split_last c s)

unfoldable pub starts_with : Text → Text → Bool
starts_with [] s = true
starts_with (c ∷ p) [] = false
starts_with (c ∷ p) (d ∷ s) = c == d && starts_with p s

unfoldable pub ends_with : Text → Text → Bool
ends_with p [] = empty p
ends_with p (c ∷ s) = text_eq (c ∷ s) p || ends_with p s

-- What stands before the first place where `p` begins, or all: `s.substr(0, s.find(p))`.
unfoldable pub before_text : Text → Text → Text
before_text p [] = []
before_text p (c ∷ s) = let rest = before_text p s in if starts_with p (c ∷ s) then [] else c ∷ rest

-- `c` does not stand in the text.
abbrev pub Lacks : ℕ → Text → Type 0
Lacks c [] = Unit
Lacks c (x ∷ s) = (x ≢ c) × Lacks c s

pub split_first-append : (c : ℕ) (a b : Text) → Lacks c a → split_first c (a ++ c ∷ b) ≡ some (a, b)
unfolding split_first
split_first-append c [] b h = ground arith
split_first-append c (x ∷ a) b h = ground (arith, split_first-append c a b h.1)

split_first-cons :
    (c x : ℕ) (s : Text) (r : Option (Text × Text))
    → ((a b : Text) → r ≡ some (a, b) → (s ≡ a ++ c ∷ b) × Lacks c a)
    → (a b : Text)
    → if◌then◌else◌ {A = Option (Text × Text)} (x == c) (some ([], s)) (in_front x r) ≡ some (a, b)
    → (x ∷ s ≡ a ++ c ∷ b) × Lacks c a
split_first-cons c x s none rest a b h = ground arith
split_first-cons c x s (some (d, e)) rest a b h = ground (arith, rest d e refl)

pub split_first_sound :
    (c : ℕ) (s a b : Text) → split_first c s ≡ some (a, b) → (s ≡ a ++ c ∷ b) × Lacks c a
unfolding split_first
split_first_sound c [] a b h = cc
split_first_sound c (x ∷ s) a b h =
    split_first-cons c x s (split_first c s) (λ d e k. split_first_sound c s d e k) a b h

split_last-cons :
    (c x : ℕ) (s : Text) (r : Option (Text × Text))
    → ((a b : Text) → r ≡ some (a, b) → length a < length s)
    → (a b : Text) → or_here (x == c) x s r ≡ some (a, b)
    → length a < length (x ∷ s)
split_last-cons c x s none rest a b h = ground arith
split_last-cons c x s (some (d, e)) rest a b h = ground (arith, rest d e refl)

pub split_last-shorter : (c : ℕ) (s a b : Text) → split_last c s ≡ some (a, b) → length a < length s
unfolding split_last
split_last-shorter c [] a b h = cc
split_last-shorter c (x ∷ s) a b h =
    split_last-cons c x s (split_last c s) (λ d e k. split_last-shorter c s d e k) a b h

-- What stands behind the last `c`, and the whole text if there is none: `s.substr(s.rfind(c) + 1)`.
unfoldable pub behind_last : ℕ → Text → Text
unfolding split_last
behind_last c s = elim (split_last c s) [ none ↦ s | some (a, b) ↦ b ]

-- Without the `c`s at the end: `s.erase(s.find_last_not_of(c) + 1)`.
unfoldable pub trim_right : ℕ → Text → Text
trim_right c [] = []
trim_right c (x ∷ s) = let rest = trim_right c s in if (x == c) && empty rest then [] else x ∷ rest
