-- ===== src/Queue/Firm.antt =====
-- Where a package is on its way through the queue, and how it goes on when a thread does.
use buildsyspp.Shared.{
  ℕ, ◌≡◌, refl, sym, ap, subst, true, ◌⊎◌, inl, inr, List, [], ◌∷◌, ◌++◌, In, first, later,
  In-append_left, In-append_right, In-append,
}
use buildsyspp.Model.{PackageDepend}
use buildsyspp.Depends.{targets}
use buildsyspp.World.Sound.{In-swap}
use buildsyspp.Queue.{
  Place, processing, pushing, holding, Feeder, testing, popping, pausing, asleep, over, starting,
  Workers, Queue, roused,
}

-- The dependencies that a thread has yet to mark.
abbrev pub owes : Place → List ℕ
owes processing = []
owes (pushing ds) = targets ds
owes (holding d ds) = targets ds

abbrev pub Owed : Queue → ℕ → Type 0
Owed s e = (p : ℕ) × (a : Place) × In (p, a) s.workers × In e (owes a)

-- A package that is on its way to be processed, or has been, unless the world has failed.
pub data Firm (s : Queue) (d : ℕ) : Type 0 where
  by_failure : s.failed ≡ true → Firm s d
  by_queue : In d s.queue → Firm s d
  by_start : s.main ≡ starting d → Firm s d
  by_process : In (d, processing) s.workers → Firm s d
  by_hold : (p : ℕ) (ds : List PackageDepend) → In (p, holding d ds) s.workers → Firm s d
  by_end : In d s.processed → Firm s d

pub roused-starting : (m : Feeder) {p : ℕ} → m ≡ starting p → roused m ≡ starting p
roused-starting testing e = cc
roused-starting popping e = cc
roused-starting pausing e = cc
roused-starting asleep e = cc
roused-starting over e = cc
roused-starting (starting q) e = e

pub roused-over : (m : Feeder) → roused m ≡ over → m ≡ over
roused-over testing e = cc
roused-over popping e = cc
roused-over pausing e = cc
roused-over asleep e = cc
roused-over over e = e
roused-over (starting q) e = cc

pub In-drop :
    {A : Type 0} {z : A} (xs : List A) (x : A) (ys : List A)
    → In z (xs ++ x ∷ ys)
    → In z (xs ++ ys) ⊎ (z ≡ x)
In-drop {A} xs x ys m = elim (In-append xs m) [
  | inl l ↦ inl (In-append_left ys l)
  | inr r ↦ behind r
]
  where
    behind : {z : A} → In z (x ∷ ys) → In z (xs ++ ys) ⊎ (z ≡ x)
    behind first = inr refl
    behind (later k) = inl (In-append_right xs k)

-- From one state to the next, where a thread goes from `a` to `b`.
pub record Passes (s t : Queue) : Type 0 where
  pub failed : s.failed ≡ true → t.failed ≡ true
  pub queue : (d : ℕ) → In d s.queue → In d t.queue
  pub main : (d : ℕ) → s.main ≡ starting d → t.main ≡ starting d
  pub processed : (d : ℕ) → In d s.processed → In d t.processed

pub Firm-goes :
    (s t : Queue) (xs : Workers) (p : ℕ) (a b : Place) (ys : Workers)
    → Passes s t
    → s.workers ≡ xs ++ (p, a) ∷ ys
    → t.workers ≡ xs ++ (p, b) ∷ ys
    → (a ≡ processing → Firm t p)
    → ((d : ℕ) (ds : List PackageDepend) → a ≡ holding d ds → Firm t d)
    → (d : ℕ) → Firm s d
    → Firm t d
Firm-goes s t xs p a b ys h e e' f g d (by_failure x) = by_failure (h.failed x)
Firm-goes s t xs p a b ys h e e' f g d (by_queue m) = by_queue (h.queue d m)
Firm-goes s t xs p a b ys h e e' f g d (by_start x) = by_start (h.main d x)
Firm-goes s t xs p a b ys h e e' f g d (by_end m) = by_end (h.processed d m)
Firm-goes s t xs p a b ys h e e' f g d (by_process m) =
    elim (In-swap {A = ℕ × Place} xs (p, a) (p, b) ys (subst (In (d, processing)) e m)) [
      | inl k ↦ by_process (subst (In (d, processing)) (sym e') k)
      | inr k ↦ subst (Firm t) (sym (ap (λ z. z.0) k)) (f (sym (ap (λ z. z.1) k)))
    ]
Firm-goes s t xs p a b ys h e e' f g d (by_hold q ds m) =
    elim (In-swap {A = ℕ × Place} xs (p, a) (p, b) ys (subst (In (q, holding d ds)) e m)) [
      | inl k ↦ by_hold q ds (subst (In (q, holding d ds)) (sym e') k)
      | inr k ↦ g d ds (sym (ap (λ z. z.1) k))
    ]

pub Owed-goes :
    (s t : Queue) (xs : Workers) (p : ℕ) (a b : Place) (ys : Workers)
    → s.workers ≡ xs ++ (p, a) ∷ ys
    → t.workers ≡ xs ++ (p, b) ∷ ys
    → ((e : ℕ) → In e (owes a) → Firm t e ⊎ Owed t e)
    → (e : ℕ) → Owed s e
    → Firm t e ⊎ Owed t e
Owed-goes s t xs p a b ys e e' f x (q, c, m, k) =
    elim (In-swap {A = ℕ × Place} xs (p, a) (p, b) ys (subst (In (q, c)) e m)) [
      | inl l ↦ inr (q, c, subst (In (q, c)) (sym e') l, k)
      | inr l ↦ f x (subst (λ z. In x (owes z)) (ap (λ z. z.1) l) k)
    ]
