-- ===== src/Queue/Awake.antt =====
-- Whether the loop of process_packages sleeps for nothing.
use buildsyspp.Shared.{
  ℕ, ◌+◌, ◌≡◌, ◌≢◌, refl, Bool, ==_iff, Bool-cases, inl, inr, List, [], ◌∷◌, arith, length,
}
use buildsyspp.Model.{Package}
use buildsyspp.Queue.{
  Place, Feeder, testing, popping, pausing, asleep, over, starting, Workers, Queue, done, pop_from,
  pop, start, wait, push, roused, finish, process, mark, Step, tests, pops, starts, waits, wakes,
  processes, marks, pushes, finishes, begin, Reachable, begins, steps,
}
use buildsyspp.Queue.Complete.{Reachable-Covered}

-- The loop is asleep only where a package is started that is not finished.
abbrev Sleeps : Queue → Type 0
Sleeps s = s.main ≡ asleep → s.started ≢ s.finished

roused-asleep : (m : Feeder) → roused m ≢ asleep
roused-asleep testing e = cc e
roused-asleep popping e = cc e
roused-asleep pausing e = cc e
roused-asleep asleep e = cc e
roused-asleep over e = cc e
roused-asleep (starting p) e = cc e

pop_from-awake : (ps : List ℕ) (s : Queue) → (pop_from ps s).main ≢ asleep
pop_from-awake [] s e = cc e
pop_from-awake (p ∷ ps) s e = cc e

some_worker :
    (ws : Workers) → length ws ≢ 0 → (p : ℕ) × (a : Place) × (ys : Workers) × (ws ≡ (p, a) ∷ ys)
some_worker [] e = absurd (e refl)
some_worker ((p, a) ∷ ys) e = (p, a, ys, refl)

module _ (pkgs : ℕ → Package) (succeeds : ℕ → Bool) where
  Sleeps-Step : (s t : Queue) → Sleeps s → Step pkgs succeeds s t → Sleeps t
  unfolding pop start wait push finish process mark
  Sleeps-Step s t c (tests e) = elim (Bool-cases (done s)) [
    | inl k ↦ λ m. absurd (ground (arith, k, m))
    | inr k ↦ λ m. absurd (ground (arith, k, m))
  ]
  Sleeps-Step s t c (pops e) = λ m. absurd (pop_from-awake s.queue s m)
  Sleeps-Step s t c (starts p e) = λ m. cc m
  Sleeps-Step s t c (waits e) = λ m k. absurd (ground (arith, (==_iff s.started s.finished).1 k, m))
  Sleeps-Step s t c wakes = λ m. absurd (roused-asleep s.main m)
  Sleeps-Step s t c (processes xs p ys e) = elim (Bool-cases (succeeds p)) [
    | inl k ↦ rw k c
    | inr k ↦ rw k c
  ]
  Sleeps-Step s t c (marks xs p d ds ys e) = elim (Bool-cases (s.queued d.target)) [
    | inl k ↦ rw k c
    | inr k ↦ rw k c
  ]
  Sleeps-Step s t c (pushes xs p d ds ys e) = c
  Sleeps-Step s t c (finishes xs p ys e) = λ m. absurd (roused-asleep s.main m)

  module _ (base : ℕ) where
    Reachable-Sleeps : {s : Queue} → Reachable pkgs succeeds base s → Sleeps s
    unfolding begin
    Reachable-Sleeps begins = λ m. cc m
    Reachable-Sleeps (steps {s = s} {t} r k) = Sleeps-Step s t (Reachable-Sleeps r) k

    -- The loop of process_packages does not sleep for nothing: when it is in `wait`, a thread is there
    -- that has not finished, and there are as many threads as packages started and not finished.
    pub Reachable-asleep :
        (s : Queue)
        → Reachable pkgs succeeds base s
        → s.main ≡ asleep
        → ((p : ℕ) × (a : Place) × (ys : Workers) × (s.workers ≡ (p, a) ∷ ys))
          × (s.started ≡ s.finished + length s.workers)
    Reachable-asleep s r e =
        let counted = (Reachable-Covered pkgs succeeds base r).counted in
        (some_worker s.workers (λ k. Reachable-Sleeps r e (omega (arith, counted, k))), counted)
