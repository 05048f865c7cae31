-- ===== src/Samples/Queues.antt =====
-- A run of the package queue, and its theorem on it.
use buildsyspp.Shared.{ℕ, ◌≡◌, refl, Bool, true, false, [], ◌∷◌, ◌+◌, length, In, if◌then◌else◌}
use buildsyspp.Depends.Reached.{Reaches}
use buildsyspp.Queue.{
  Queue, Place, Workers, asleep, over, begin, done, pop, start, wait, finish, process, Reachable,
  begins, steps, tests, pops, starts, waits, processes, finishes, popping,
}
use buildsyspp.Queue.Awake.{Reachable-asleep}
use buildsyspp.Queue.Complete.{Reachable-processed}
use buildsyspp.Samples.{packages}

abbrev succeeds : ℕ → Bool
succeeds p = true

-- Package 1, which has no dependencies, as the base package.
abbrev popped : Queue
popped = pop (record (begin packages succeeds 1) { main = popping })

abbrev working : Queue
working = wait (start 1 popped)

abbrev processed : Queue
processed = process packages succeeds [] 1 [] working

abbrev finished : Queue
finished = record (finish processed) { workers = [] }

abbrev ended : Queue
ended = record finished { main = if done finished then over else popping }

queue-program : Unit {0}
unfolding begin done pop start wait finish process
queue-program = tt

working-Reachable : Reachable packages succeeds 1 working
unfolding queue-program
working-Reachable =
    steps (steps (steps (steps begins (tests refl)) (pops refl)) (starts 1 refl)) (waits refl)

working-asleep : working.main ≡ asleep
unfolding queue-program
working-asleep = refl

Reachable-asleep_example :
    ((p : ℕ) × (a : Place) × (ys : Workers) × (working.workers ≡ (p, a) ∷ ys))
    × (working.started ≡ working.finished + length working.workers)
Reachable-asleep_example =
    Reachable-asleep packages succeeds 1 working working-Reachable working-asleep

ended-Reachable : Reachable packages succeeds 1 ended
unfolding queue-program
ended-Reachable =
    steps (steps (steps working-Reachable (processes [] 1 [] refl)) (finishes [] 1 [] refl))
      (tests refl)

ended-over : ended.main ≡ over
unfolding queue-program
ended-over = refl

ended-failed : ended.failed ≡ false
unfolding queue-program
ended-failed = refl

Reachable-processed_example :
    In 1 ended.processed × ((e : ℕ) → Reaches packages (λ d. true) 1 e → In e ended.processed)
Reachable-processed_example =
    Reachable-processed packages succeeds 1 ended ended-Reachable ended-over ended-failed
