-- ===== src/World/Safety.antt =====
-- What the invariant gives for the states that the scheduler reaches.
use buildsyspp.Shared.{ℕ, suc, ◌≤◌, ◌≡◌, subst, Bool, true, false, ◌⊎◌, List, [], length, In}
use buildsyspp.Model.{Package, Progress}
use buildsyspp.Depends.{Depends, IsRanked}
use buildsyspp.Depends.Reached.{Reaches}
use buildsyspp.Graph.{Edges}
use buildsyspp.World.{ℤ, pos, ThreadAt, waiting, left, State, Reachable, begins, steps}
use buildsyspp.World.Loop.{IsNegative}
use buildsyspp.World.Listed.{IsSort}
use buildsyspp.World.Invariant.{Invariant, Invariant-begin, Invariant-Step, reached_built}

module _ (sort : List ℕ → Edges → List ℕ) (sorts : IsSort sort) (pkgs : ℕ → Package) (rank : ℕ → ℕ)
    (ranked : IsRanked pkgs rank) (limit : ℤ) (keep_going : Bool) (base : ℕ) where
  module _ (all : List ℕ) (base_in : In base all)
      (all_in : (p e : ℕ) → In p all → Depends pkgs p e → In e all) where
    module _ (progress : ℕ → Progress)
        (fresh : (q : ℕ) → ((progress q).built ≡ false) × ((progress q).building ≡ false)) where
      Reachable-Invariant :
          {s : State}
          → Reachable sort pkgs limit keep_going base progress all s
          → Invariant sort sorts pkgs rank ranked limit keep_going base all base_in all_in s
      Reachable-Invariant begins =
          Invariant-begin sort sorts pkgs rank ranked limit keep_going base all base_in all_in
            progress fresh
      Reachable-Invariant (steps {s = s} {t} r k) =
          Invariant-Step sort sorts pkgs rank ranked limit keep_going base all base_in all_in s t
            (Reachable-Invariant r) k

      -- Whatever the order of the steps: a build thread is only there for a package whose
      -- dependencies are all built, a built package has its dependencies built,
      -- `threads_running` is the number of threads, and under a positive limit there are never more
      -- threads than that. The packages have no dependency loop and are all in the graph, and none
      -- is built or building when the building begins.
      pub Reachable-ready :
          (s : State)
          → Reachable sort pkgs limit keep_going base progress all s
          → ((p : ℕ) (a : ThreadAt)
              → In (p, a) s.threads
              → (e : ℕ) → Depends pkgs p e
              → (s.progress e).built ≡ true)
            × ((q : ℕ)
                → (s.progress q).built ≡ true
                → (e : ℕ) → Depends pkgs q e
                → (s.progress e).built ≡ true)
            × (s.threads_running ≡ length s.threads)
            × ((l : ℕ) → limit ≡ pos (suc l) → length s.threads ≤ suc l)
      Reachable-ready s r =
          let h = Reachable-Invariant r in
          (
            h.sound.ready,
            h.sound.closed,
            h.loop.counted,
            λ l e. subst (λ n. n ≤ suc l) h.loop.counted (h.loop.bounded l e),
          )

      -- The scheduler does not wait for nothing: when it waits and no thread is there, then a
      -- package has failed, the base package is built, or the limit on threads is negative. The
      -- packages have no dependency loop and are all in the graph, and none is built or building
      -- when the building begins.
      pub Reachable-waits :
          (s : State)
          → Reachable sort pkgs limit keep_going base progress all s
          → s.main ≡ waiting
          → s.threads ≡ []
          → ((s.failed ≡ true) ⊎ ((s.progress base).built ≡ true)) ⊎ IsNegative limit
      Reachable-waits s r = (Reachable-Invariant r).loop.waits

      -- Success is never reported too early: when `basePackage` has returned true, the base package
      -- is built, and so is every package that it reaches by dependencies. The packages have no
      -- dependency loop and are all in the graph, and none is built or building when the building
      -- begins.
      pub Reachable-returns :
          (s : State)
          → Reachable sort pkgs limit keep_going base progress all s
          → s.main ≡ left true
          → ((s.progress base).built ≡ true)
            × ((e : ℕ) → Reaches pkgs (λ d. true) base e → (s.progress e).built ≡ true)
      Reachable-returns s r e =
          let h = Reachable-Invariant r in
          let b = h.loop.returns e in
          (
            b,
            reached_built sort sorts pkgs rank ranked limit keep_going base all base_in all_in
                s.progress h.sound.closed base (h.sound.closed base b),
          )
