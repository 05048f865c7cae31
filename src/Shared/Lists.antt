-- ===== src/Shared/Lists.antt =====
-- Lists of numbers as sets and sequences: membership by Boolean tests, as `std::find` gives it.
use Prim.Native.Nat.{ℕ, zero, suc, ◌+◌}
use mathlib.Core.Path.{◌≡◌, refl}
use mathlib.Core.Bool.{Bool, true, false, ◌||◌}
use mathlib.Core.Logic.{◌⊎◌, inl, inr}
use mathlib.Core.List.{List, [], ◌∷◌, ◌++◌}
use native.Mathlib.Omega.{arith}
use buildsyspp.Shared.Tests.{◌==◌, ==_iff, Bool-cases}

module _ {ℓ} {A : Type ℓ} where
  abbrev pub length : List A → ℕ
  length [] = 0
  length (x ∷ xs) = suc (length xs)

  abbrev pub take : ℕ → List A → List A
  take zero xs = []
  take (suc n) [] = []
  take (suc n) (x ∷ xs) = x ∷ take n xs

  pub length-append : (xs ys : List A) → length (xs ++ ys) ≡ length xs + length ys
  length-append [] ys = omega arith
  length-append (x ∷ xs) ys = omega (arith, length-append xs ys)

  -- Every entry satisfies `P`.
  abbrev pub All {κ} : (A → Type κ) → List A → Type κ
  All P [] = Unit
  All P (x ∷ xs) = P x × All P xs

  pub All-append {κ} : (P : A → Type κ) (xs ys : List A) → All P xs → All P ys → All P (xs ++ ys)
  All-append P [] ys h k = k
  All-append P (x ∷ xs) ys h k = (h.0, All-append P xs ys h.1 k)

  pub All-map {κ μ} :
      (P : A → Type κ) (Q : A → Type μ) (xs : List A) → ((x : A) → P x → Q x) → All P xs → All Q xs
  All-map P Q [] f h = tt
  All-map P Q (x ∷ xs) f h = (f x h.0, All-map P Q xs f h.1)

-- An entry of a list, as evidence.
pub data In {ℓ} {A : Type ℓ} (a : A) : List A → Type ℓ where
  first : {xs : List A} → In a (a ∷ xs)
  later : {x : A} {xs : List A} → In a xs → In a (x ∷ xs)

module _ {ℓ} {A : Type ℓ} where
  pub All-in {κ} : (P : A → Type κ) {a : A} {xs : List A} → All P xs → In a xs → P a
  All-in P h first = h.0
  All-in P h (later m) = All-in P h.1 m

  pub In-All {κ} : (P : A → Type κ) (xs : List A) → ((a : A) → In a xs → P a) → All P xs
  In-All P [] f = tt
  In-All P (x ∷ xs) f = (f x first, In-All P xs (λ a m. f a (later m)))

  pub In-cons : {a x : A} {xs ys : List A} → (In a xs → In a ys) → In a (x ∷ xs) → In a (x ∷ ys)
  In-cons f first = first
  In-cons f (later m) = later (f m)

  pub In-append_left : {a : A} {xs : List A} (ys : List A) → In a xs → In a (xs ++ ys)
  In-append_left ys first = first
  In-append_left ys (later m) = later (In-append_left ys m)

  pub In-append_right : {a : A} (xs : List A) {ys : List A} → In a ys → In a (xs ++ ys)
  In-append_right [] m = m
  In-append_right (x ∷ xs) m = later (In-append_right xs m)

  pub In-append : {a : A} (xs : List A) {ys : List A} → In a (xs ++ ys) → In a xs ⊎ In a ys
  In-append [] m = inr m
  In-append (x ∷ xs) first = inl first
  In-append (x ∷ xs) (later m) = elim (In-append xs m) [ inl l ↦ inl (later l) | inr r ↦ inr r ]

-- `std::find(begin, end, a) != end` over numbers.
abbrev pub member : ℕ → List ℕ → Bool
member a [] = false
member a (x ∷ xs) = a == x || member a xs

pub member-In : (a : ℕ) (xs : List ℕ) → member a xs ≡ true → In a xs
member-In a [] h = cc
member-In a (x ∷ xs) h = elim (Bool-cases (a == x)) [
  | inl e ↦ rw (← (==_iff a x).0 e) first
  | inr e ↦ later (member-In a xs (ground arith))
]

pub In-member : {a : ℕ} {xs : List ℕ} → In a xs → member a xs ≡ true
In-member {a} (first {xs = xs}) = ground arith
In-member {a} (later {x = x} {xs = xs} m) = ground (arith, In-member m)

pub member-append : (a : ℕ) (xs ys : List ℕ) → member a (xs ++ ys) ≡ (member a xs || member a ys)
member-append a [] ys = refl
member-append a (x ∷ xs) ys = ground (arith, member-append a xs ys)
