-- ===== src/Queue.antt =====
-- src/world.cpp and the class PackageQueue of src/include/buildsys.h: process_packages and
-- process_package, as steps that interleave. A step is one critical section of the queue, one change
-- of a package's flag `processing_queued`, or a whole Package::process. What a script does is a
-- parameter: which packages it succeeds for. Its dependencies are the fields of the package.
-- The base package is put in the queue without the flag, as in the source.
pub mod Firm
pub mod Covered
pub mod Complete
pub mod Awake
use buildsyspp.Shared.{
  ℕ, suc, ◌≡◌, Bool, true, false, not, ◌&&◌, ◌==◌, List, [], ◌∷◌, ◌++◌, if◌then◌else◌,
}
use buildsyspp.Model.{PackageDepend, Package, update}

-- Where a thread of process_package is: before the end of Package::process; in its loop with the
-- dependencies that are left; there with one that it has marked but not put in the queue.
pub data Place : Type 0 where
  processing : Place
  pushing : List PackageDepend → Place
  holding : ℕ → List PackageDepend → Place

-- Where process_packages is: before `done`, `pop`, `start` of a package, `wait`; in `wait`; at its
-- end.
pub data Feeder : Type 0 where
  testing popping pausing asleep over : Feeder
  starting : ℕ → Feeder

abbrev pub Workers : Type 0
Workers = List (ℕ × Place)

pub record Queue : Type 0 where
  pub queue : List ℕ
  pub started : ℕ
  pub finished : ℕ
  pub queued : ℕ → Bool
  pub processed : List ℕ
  pub failed : Bool
  pub workers : Workers
  pub main : Feeder

abbrev pub no_items : List ℕ → Bool
no_items [] = true
no_items (p ∷ ps) = false

-- PackageQueue::done
unfoldable pub done : Queue → Bool
done s = s.started == s.finished && no_items s.queue

-- PackageQueue::pop
abbrev pub pop_from : List ℕ → Queue → Queue
pop_from [] s = record s { main = pausing }
pop_from (p ∷ ps) s = record s { queue = ps; main = starting p }

unfoldable pub pop : Queue → Queue
pop s = pop_from s.queue s

-- PackageQueue::start, and the thread.
unfoldable pub start : ℕ → Queue → Queue
start p s = record s {
  started = suc s.started;
  workers = (p, processing) ∷ s.workers;
  main = pausing;
}

-- PackageQueue::wait
unfoldable pub wait : Queue → Queue
wait s = record s {
  main = if not (s.started == s.finished) && no_items s.queue then asleep else testing;
}

-- PackageQueue::push
unfoldable pub push : ℕ → Queue → Queue
push p s = record s { queue = s.queue ++ p ∷ [] }

abbrev pub roused : Feeder → Feeder
roused asleep = testing
roused testing = testing
roused popping = popping
roused pausing = pausing
roused over = over
roused (starting p) = starting p

-- PackageQueue::finish
unfoldable pub finish : Queue → Queue
finish s = record s { finished = suc s.finished; main = roused s.main }

module _ (pkgs : ℕ → Package) (succeeds : ℕ → Bool) where
  -- Package::process, as process_package handles it: the loop begins, or the world has failed.
  unfoldable pub process : Workers → ℕ → Workers → Queue → Queue
  process xs p ys s =
      if succeeds p
      then record s {
        processed = p ∷ s.processed;
        workers = xs ++ (p, pushing (pkgs p).depends) ∷ ys;
      }
      else record s { failed = true; workers = xs ++ (p, pushing []) ∷ ys }

  -- Package::setProcessingQueued for the next dependency.
  unfoldable pub mark : Workers → ℕ → ℕ → List PackageDepend → Workers → Queue → Queue
  mark xs p d ds ys s =
      if s.queued d
      then record s { workers = xs ++ (p, pushing ds) ∷ ys }
      else record s { queued = update s.queued d true; workers = xs ++ (p, holding d ds) ∷ ys }

  abbrev pub At : Queue → Workers → ℕ → Place → Workers → Type 0
  At s xs p a ys = s.workers ≡ xs ++ (p, a) ∷ ys

  pub data Step (s : Queue) : Queue → Type 0 where
    tests : s.main ≡ testing → Step s (record s { main = if done s then over else popping })
    pops : s.main ≡ popping → Step s (pop s)
    starts : (p : ℕ) → s.main ≡ starting p → Step s (start p s)
    waits : s.main ≡ pausing → Step s (wait s)
    wakes : Step s (record s { main = roused s.main })
    processes :
        (xs : Workers) (p : ℕ) (ys : Workers) → At s xs p processing ys → Step s (process xs p ys s)
    marks :
        (xs : Workers) (p : ℕ) (d : PackageDepend) (ds : List PackageDepend) (ys : Workers)
        → At s xs p (pushing (d ∷ ds)) ys
        → Step s (mark xs p d.target ds ys s)
    pushes :
        (xs : Workers) (p d : ℕ) (ds : List PackageDepend) (ys : Workers)
        → At s xs p (holding d ds) ys
        → Step s (record (push d s) { workers = xs ++ (p, pushing ds) ∷ ys })
    finishes :
        (xs : Workers) (p : ℕ) (ys : Workers)
        → At s xs p (pushing []) ys
        → Step s (record (finish s) { workers = xs ++ ys })

  unfoldable pub begin : ℕ → Queue
  begin base = record {
    queue = base ∷ [];
    started = 0;
    finished = 0;
    queued = λ p. false;
    processed = [];
    failed = false;
    workers = [];
    main = testing;
  }

  pub data Reachable (base : ℕ) : Queue → Type 0 where
    begins : Reachable base (begin base)
    steps : {s t : Queue} → Reachable base s → Step s t → Reachable base t
