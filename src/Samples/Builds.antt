-- ===== src/Samples/Builds.antt =====
-- A base package, its script, and the build of the two packages with one thread at a time.
use buildsyspp.Shared.{
  ℕ, ◌≡◌, refl, true, false, List, [], ◌∷◌, text, inr, text_eq, split_last, behind_last,
  before_text, starts_with,
}
use buildsyspp.Effects.{require, from, ◌>>=◌}
use buildsyspp.Files.Calls.{create_directories}
use buildsyspp.Model.{Package}
use buildsyspp.Depends.{can_build}
use buildsyspp.Depends.Reached.{Reaches}
use buildsyspp.Graph.{
  get_cycled_packages, put_ends, fill, fill_nodes, fill_edges, clear_vertex, topological,
  delete_node, is_next, last_next, topo_next,
}
use buildsyspp.Session.{
  make_base_package, all_packages, find_named, members_of, add_package, with_name_space,
}
use buildsyspp.Script.Depend.{li_depend}
use buildsyspp.Script.Run.{process}
use buildsyspp.World.{
  pos, State, prepare_build, left, checking, entering, working, begin, check, enter, has_room,
  start_thread, notify, package_finished, thread_ended, goes, mark_built, Reachable, begins, steps,
  checks, enters, skips, finishes, ends, succeeded, ending,
}
use buildsyspp.Whole.{base_package-returns}
use buildsyspp.Samples.{host}
use buildsyspp.Samples.Loops.{search}
use buildsyspp.Samples.Loops.{search-IsSearch}
use buildsyspp.Samples.Schedules.{in_order, in_order-IsSort}
use buildsyspp.Samples.Scripts.{
  empty_session, empty_session-IsEmpty, file, lua, later_session, later_session_made,
  later_session-Runs,
}

abbrev made : ℕ → Package
made = later_session.packages

abbrev all : List ℕ
all = all_packages later_session.namespaces

abbrev Run : State → Type 0
Run = Reachable in_order made (pos 1) false 0 later_session.sys.progress all

abbrev before : State
before = begin in_order made (pos 1) false 0 later_session.sys.progress all

-- The next package, in a thread that comes to its end.
abbrev begun : State → State
begun s = enter in_order made (pos 1) false 0 (check in_order made (pos 1) false 0 s)

abbrev skipped : ℕ → State → State
skipped q s = goes in_order made (pos 1) false 0 [] q succeeded [] (mark_built q s)

abbrev finished : ℕ → State → State
finished q s =
    goes in_order made (pos 1) false 0 [] q ending [] (package_finished in_order made q s)

abbrev round : ℕ → State → State
round q s = record (thread_ended (finished q (skipped q (begun s)))) { threads = [] }

abbrev returned : State
returned = check in_order made (pos 1) false 0 (round 0 (round 1 before))

run-program : Unit {0}
unfolding begin fill fill_nodes fill_edges topological check enter has_room start_thread topo_next
    last_next is_next can_build package_finished delete_node notify clear_vertex thread_ended
    process make_base_package ◌>>=◌ from create_directories split_last behind_last li_depend require
    find_named members_of add_package with_name_space text_eq before_text starts_with text
    all_packages prepare_build get_cycled_packages put_ends
run-program = tt

round-Run :
    (q : ℕ) (s : State)
    → Run s
    → s.main ≡ checking
    → (check in_order made (pos 1) false 0 s).main ≡ entering
    → (begun s).threads ≡ (q, working) ∷ []
    → Run (round q s)
round-Run q s r c e w =
    steps
      (steps (steps (steps (steps r (checks c)) (enters e)) (skips [] q [] w))
        (finishes [] q [] refl))
      (ends [] q [] refl)

returned-Run : Run returned
unfolding run-program
returned-Run =
    steps (round-Run 0 (round 1 before) (round-Run 1 before begins refl refl refl) refl refl refl)
      (checks refl)

returned-left : returned.main ≡ left true
unfolding run-program
returned-left = refl

goes_on :
    prepare_build in_order made (pos 1) false 0 search false false later_session.sys.progress all
    ≡ inr before
unfolding run-program
goes_on = refl

base_package-returns_example :
    ((returned.progress 0).built ≡ true)
    × ((e : ℕ) → Reaches made (λ d. true) 0 e → (returned.progress e).built ≡ true)
base_package-returns_example =
    base_package-returns host lua empty_session later_session file empty_session-IsEmpty
      (λ i. (refl, refl)) (λ i ge. refl) later_session-Runs in_order search in_order-IsSort
      search-IsSearch (pos 1) false 0 false false before returned later_session_made goes_on
      returned-Run returned-left
