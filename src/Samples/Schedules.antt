-- ===== src/Samples/Schedules.antt =====
-- Runs of the scheduler, and its theorems on them.
use buildsyspp.Shared.{
  ℕ, suc, ◌≤◌, ◌≡◌, refl, true, false, ◌⊎◌, none, some, List, [], ◌∷◌, length, In, first, later,
}
use buildsyspp.Model.{Progress}
use buildsyspp.Depends.{Depends, can_build}
use buildsyspp.Depends.Reached.{Reaches}
use buildsyspp.Graph.{
  Edges, fill, fill_nodes, fill_edges, clear_vertex, topological, delete_node, is_next, last_next,
  topo_next,
}
use buildsyspp.Graph.Next.{topo_next_lem}
use buildsyspp.World.{
  ℤ, pos, negsuc, ThreadAt, State, waiting, left, begin, check, enter, has_room, start_thread,
  notify, package_finished, thread_ended, goes, mark_built, Reachable, begins, steps, checks,
  enters, skips, finishes, ends, succeeded, ending,
}
use buildsyspp.World.Loop.{IsNegative}
use buildsyspp.World.Listed.{IsSort}
use buildsyspp.World.Safety.{Reachable-ready, Reachable-waits, Reachable-returns}
use buildsyspp.Samples.{packages, rank, packages-IsRanked, fresh}

abbrev pub in_order : List ℕ → Edges → List ℕ
in_order nodes edges = nodes

pub in_order-IsSort : IsSort in_order
in_order-IsSort = record { complete = λ nodes edges rank ranked p m. m }

abbrev none_built : ℕ → Progress
none_built q = fresh

abbrev alone : List ℕ
alone = 1 ∷ []

alone_closed : (p e : ℕ) → In p alone → Depends packages p e → In e alone
alone_closed p e first d = elim d [ ]
alone_closed p e (later m) d = elim m [ ]

-- One package, built with one thread at most, or with a negative limit.
abbrev Run : ℤ → State → Type 0
Run limit = Reachable in_order packages limit false 1 none_built alone

abbrev before : ℤ → State
before limit = begin in_order packages limit false 1 none_built alone

abbrev checked : ℤ → State
checked limit = check in_order packages limit false 1 (before limit)

abbrev entered : ℤ → State
entered limit = enter in_order packages limit false 1 (checked limit)

abbrev skipped : State
skipped = goes in_order packages (pos 1) false 1 [] 1 succeeded [] (mark_built 1 (entered (pos 1)))

abbrev finished : State
finished =
    goes in_order packages (pos 1) false 1 [] 1 ending []
      (package_finished in_order packages 1 skipped)

abbrev ended : State
ended = record (thread_ended finished) { threads = [] }

abbrev returned : State
returned = check in_order packages (pos 1) false 1 ended

run-program : Unit {0}
unfolding begin fill fill_nodes fill_edges topological check enter has_room start_thread topo_next
    last_next is_next can_build package_finished delete_node notify clear_vertex thread_ended
run-program = tt

entered-Run : (limit : ℤ) → Run limit (entered limit)
unfolding run-program
entered-Run limit = steps (steps begins (checks refl)) (enters refl)

returned-Run : Run (pos 1) returned
unfolding run-program
returned-Run =
    steps
      (steps (steps (steps (entered-Run (pos 1)) (skips [] 1 [] refl)) (finishes [] 1 [] refl))
        (ends [] 1 [] refl))
      (checks refl)

returned-left : returned.main ≡ left true
unfolding run-program
returned-left = refl

entered-waiting : (entered (negsuc 0)).main ≡ waiting
unfolding run-program
entered-waiting = refl

entered-threads : (entered (negsuc 0)).threads ≡ []
unfolding run-program
entered-threads = refl

topo_next_lem_example :
    ((p : ℕ)
      → topo_next in_order packages none_built (before (pos 1)).graph ≡ some p
      → In p (before (pos 1)).graph.c
        × ((none_built p).built ≡ false)
        × ((none_built p).building ≡ false)
        × ((e : ℕ) → Depends packages p e → (none_built e).built ≡ true))
    × (topo_next in_order packages none_built (before (pos 1)).graph ≡ none
        → (p : ℕ) → In p (before (pos 1)).graph.c
        → (((none_built p).built ≡ true) ⊎ ((none_built p).building ≡ true))
          ⊎ ((e : ℕ) × Depends packages p e × ((none_built e).built ≡ false)))
topo_next_lem_example = topo_next_lem in_order packages none_built (before (pos 1)).graph

Reachable-ready_example :
    ((p : ℕ) (a : ThreadAt)
      → In (p, a) (entered (pos 1)).threads
      → (e : ℕ) → Depends packages p e
      → ((entered (pos 1)).progress e).built ≡ true)
    × ((q : ℕ)
        → ((entered (pos 1)).progress q).built ≡ true
        → (e : ℕ) → Depends packages q e
        → ((entered (pos 1)).progress e).built ≡ true)
    × ((entered (pos 1)).threads_running ≡ length (entered (pos 1)).threads)
    × ((l : ℕ) → pos 1 ≡ pos (suc l) → length (entered (pos 1)).threads ≤ suc l)
Reachable-ready_example =
    Reachable-ready in_order in_order-IsSort packages rank packages-IsRanked (pos 1) false 1 alone
      first alone_closed none_built (λ q. (refl, refl)) (entered (pos 1)) (entered-Run (pos 1))

Reachable-waits_example :
    (((entered (negsuc 0)).failed ≡ true) ⊎ (((entered (negsuc 0)).progress 1).built ≡ true))
    ⊎ IsNegative (negsuc 0)
Reachable-waits_example =
    Reachable-waits in_order in_order-IsSort packages rank packages-IsRanked (negsuc 0) false 1
      alone first alone_closed none_built (λ q. (refl, refl)) (entered (negsuc 0))
      (entered-Run (negsuc 0)) entered-waiting entered-threads

Reachable-returns_example :
    ((returned.progress 1).built ≡ true)
    × ((e : ℕ) → Reaches packages (λ d. true) 1 e → (returned.progress e).built ≡ true)
Reachable-returns_example =
    Reachable-returns in_order in_order-IsSort packages rank packages-IsRanked (pos 1) false 1 alone
      first alone_closed none_built (λ q. (refl, refl)) returned returned-Run returned-left
