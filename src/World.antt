-- ===== src/World.antt =====
-- src/world.cpp and the class World of src/include/buildsys.h: the loop of `basePackage` that
-- starts the build threads, `build_thread`, `packageFinished`, `setFailed` and `threadEnded`, as
-- steps that interleave. A step of the scheduler is the part of the loop between two points where
-- it lets go of the lock `cond_lock`; a step of a thread is one change of the flags that the others
-- read, or one critical section.
-- A `Package::build` of a thread shows here by the flags that it sets; the lock of the package is
-- left out, so that there are more interleavings than in the program. `cond` may wake the scheduler
-- at any time, as the standard allows.
pub mod Sound
pub mod Prepared
pub mod Loop
pub mod Listed
pub mod Invariant
pub mod Safety
use buildsyspp.Shared.{
  ℕ, zero, suc, ◌-◌, ◌≡◌, Bool, true, false, not, ◌&&◌, ◌||◌, Option, none, some, List, [], ◌∷◌,
  ◌++◌, ◌==◌, ltb, In, ◌⊎◌, inl, inr, if◌then◌else◌,
}
use buildsyspp.Model.{PackageDepend, Package, Progress, update}
use buildsyspp.Depends.Reached.{Reaches}
use buildsyspp.Graph.{Edges, Graph, fill, topological, delete_node, topo_next, get_cycled_packages}

-- A C++ `int`.
pub data ℤ : Type 0 where
  pos : ℕ → ℤ
  negsuc : ℕ → ℤ

-- Where a build thread is: in `build`; there between `building = false` and `built = true`; after a
-- successful `build`; after a failed one; before `threadEnded`.
pub data ThreadAt : Type 0 where
  working cleared succeeded failing ending : ThreadAt

-- Where the scheduler is: before the test of its loop; before its critical section; in `cond.wait`;
-- the same two places in the loop of `--keep-going`; or after its return.
pub data Main : Type 0 where
  checking entering waiting draining sleeping : Main
  left : Bool → Main

abbrev pub Threads : Type 0
Threads = List (ℕ × ThreadAt)

pub record State : Type 0 where
  pub progress : ℕ → Progress
  pub graph : Graph
  pub failed : Bool
  pub failed_packages : List ℕ
  pub threads_running : ℕ
  pub threads : Threads
  pub main : Main

abbrev pub woken : Main → Main
woken waiting = checking
woken sleeping = draining
woken checking = checking
woken entering = entering
woken draining = draining
woken (left b) = left b

-- `cond.notify_all()`
unfoldable pub notify : State → State
notify s = record s { main = woken s.main }

unfoldable pub set_failed : ℕ → State → State
unfolding notify
set_failed p s = notify (record s { failed_packages = s.failed_packages ++ p ∷ []; failed = true })

unfoldable pub thread_ended : State → State
unfolding notify
thread_ended s = notify (record s { threads_running = s.threads_running - 1 })

-- `threads_limit == 0 || threads_running < threads_limit`
unfoldable pub has_room : ℤ → ℕ → Bool
has_room (pos zero) running = true
has_room (pos (suc l)) running = ltb running (suc l)
has_room (negsuc l) running = false

abbrev pub set_flags : (Progress → Progress) → ℕ → State → State
set_flags f p s = record s { progress = update s.progress p (f (s.progress p)) }

abbrev pub mark_building : Bool → ℕ → State → State
mark_building b = set_flags (λ r. record r { building = b })

abbrev pub mark_built : ℕ → State → State
mark_built = set_flags (λ r. record r { built = true })

-- `empty`
abbrev pub is_empty : List ℕ → Bool
is_empty [] = true
is_empty (x ∷ xs) = false

module _ (topological_sort : List ℕ → Edges → List ℕ) (pkgs : ℕ → Package) where
  unfoldable pub package_finished : ℕ → State → State
  unfolding notify topological delete_node
  package_finished p s = notify (record s {
    graph = topological topological_sort pkgs (delete_node topological_sort pkgs p s.graph);
  })

  module _ (threads_limit : ℤ) (keep_going : Bool) (base : ℕ) where
    -- The test of the loop. Behind the loop comes that of `--keep-going`, or the return.
    unfoldable pub check : State → State
    check s = record s {
      main =
          if not s.failed && not (s.progress base).built
          then entering
          else if keep_going
          then draining
          else left (not s.failed);
    }

    abbrev pub next_package : State → Option ℕ
    next_package s =
        if has_room threads_limit s.threads_running
        then topo_next topological_sort pkgs s.progress s.graph
        else none

    unfoldable pub start_thread : ℕ → State → State
    start_thread p s = record (mark_building true p s) {
      threads_running = suc s.threads_running;
      threads = (p, working) ∷ s.threads;
      main = checking;
    }

    abbrev pub enter_with : Option ℕ → State → State
    enter_with none s = record s { main = waiting }
    enter_with (some p) s =
        if (s.progress p).building then record s { main = checking } else start_thread p s

    -- The critical section.
    unfoldable pub enter : State → State
    unfolding has_room start_thread
    enter s = enter_with (next_package s) s

    -- The test of the loop of `--keep-going`, and the return behind it.
    unfoldable pub drain : State → State
    drain s = record s {
      main =
          if not (s.progress base).built && not (s.threads_running == 0)
          then sleeping
          else left (not s.failed);
    }

    -- `basePackage` where it begins to build, with the packages of all namespaces.
    unfoldable pub begin : (ℕ → Progress) → List ℕ → State
    begin progress all = record {
      progress = progress;
      graph = topological topological_sort pkgs (fill topological_sort pkgs all);
      failed = false;
      failed_packages = [];
      threads_running = 0;
      threads = [];
      main = checking;
    }

    -- `basePackage` behind the processing of the packages: the result with which it returns before
    -- it builds, or the state in which it begins to build. `failed` is what the processing left.
    unfoldable pub prepare_build :
        (List ℕ → Edges → Edges) → Bool → Bool → (ℕ → Progress) → List ℕ → Bool ⊎ State
    prepare_build back_edges failed parse_only progress all =
        if failed
        then inl false
        else if not (is_empty (get_cycled_packages back_edges (fill topological_sort pkgs all)))
        then inl false
        else if parse_only
        then inl true
        else inr (begin progress all)

    -- A thread for `p` goes from one place to another.
    abbrev pub At : State → Threads → ℕ → ThreadAt → Threads → Type 0
    At s xs p a ys = s.threads ≡ xs ++ (p, a) ∷ ys

    abbrev pub goes : Threads → ℕ → ThreadAt → Threads → State → State
    goes xs p b ys s = record s { threads = xs ++ (p, b) ∷ ys }

    pub data Step (s : State) : State → Type 0 where
      checks : s.main ≡ checking → Step s (check s)
      enters : s.main ≡ entering → Step s (enter s)
      drains : s.main ≡ draining → Step s (drain s)
      wakes : Step s (notify s)
      -- The end of `build`, in its two writes.
      clears :
          (xs : Threads) (p : ℕ) (ys : Threads)
          → At s xs p working ys
          → Step s (goes xs p cleared ys (mark_building false p s))
      builds :
          (xs : Threads) (p : ℕ) (ys : Threads)
          → At s xs p cleared ys
          → Step s (goes xs p succeeded ys (mark_built p s))
      -- A package that is built already, is suppressed or need not be built.
      skips :
          (xs : Threads) (p : ℕ) (ys : Threads)
          → At s xs p working ys
          → Step s (goes xs p succeeded ys (mark_built p s))
      -- A package that is built, or built again, within the `build` of one that needs it.
      clears_needed :
          (xs : Threads) (p : ℕ) (ys : Threads) (d : ℕ)
          → At s xs p working ys
          → Reaches pkgs (λ q. true) p d
          → Step s (mark_building false d s)
      builds_needed :
          (xs : Threads) (p : ℕ) (ys : Threads) (d : ℕ)
          → At s xs p working ys
          → Reaches pkgs (λ q. true) p d
          → Step s (mark_built d s)
      -- `build` returns false or throws.
      fails :
          (xs : Threads) (p : ℕ) (ys : Threads)
          → At s xs p working ys
          → Step s (goes xs p failing ys s)
      finishes :
          (xs : Threads) (p : ℕ) (ys : Threads)
          → At s xs p succeeded ys
          → Step s (goes xs p ending ys (package_finished p s))
      reports :
          (xs : Threads) (p : ℕ) (ys : Threads)
          → At s xs p failing ys
          → Step s (goes xs p ending ys (set_failed p s))
      ends :
          (xs : Threads) (p : ℕ) (ys : Threads)
          → At s xs p ending ys
          → Step s (record (thread_ended s) { threads = xs ++ ys })

    pub data Reachable (progress : ℕ → Progress) (all : List ℕ) : State → Type 0 where
      begins : Reachable progress all (begin progress all)
      steps : {s t : State} → Reachable progress all s → Step s t → Reachable progress all t
