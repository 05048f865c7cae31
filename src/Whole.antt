-- ===== src/Whole.antt =====
-- src/world.cpp and src/package.cpp together: the packages that the scripts make, in the state in
-- which `basePackage` begins to build them.
use buildsyspp.Shared.{
  ℕ, ◌<◌, ◌≡◌, ◌≢◌, refl, Bool, true, List, [], ◌∷◌, Text, arith, ◌==◌, Bool-cases, ==_iff, In,
  first, later, inl, inr, subst, ltb, ltb→lt,
}
use buildsyspp.Host.{Host}
use buildsyspp.Lua.{Lua}
use buildsyspp.Model.{PackageDepend}
use buildsyspp.Depends.{Depends, IsRanked, targets}
use buildsyspp.Depends.Reached.{Reaches}
use buildsyspp.Graph.{Edges}
use buildsyspp.Session.{Session, make_base_package, all_packages}
use buildsyspp.Session.Names.{occurrences}
use buildsyspp.Script.Scope.{Below, NotBuilt}
use buildsyspp.Script.Sequence.{
  IsOrderly, IsBlank, Runs-IsBlank, Runs, Runs-IsOrderly, Runs-NotBuilt,
}
use buildsyspp.Script.Start.{
  IsEmpty, make_base_package-IsOrderly, make_base_package-NotBuilt, make_base_package-IsBlank,
}
use buildsyspp.World.{ℤ, State, left, Reachable, prepare_build}
use buildsyspp.World.Prepared.{prepared-no_loop}
use buildsyspp.Graph.Cycles.{IsSearch, get_cycled_packages-ranks}
use buildsyspp.World.Listed.{IsSort}
use buildsyspp.World.Safety.{Reachable-returns}

occurrences-In : (q : ℕ) (xs : List ℕ) → occurrences q xs ≢ 0 → In q xs
occurrences-In q [] h = absurd (h refl)
occurrences-In q (x ∷ xs) h = elim (Bool-cases (x == q)) [
  | inl e ↦ rw ((==_iff x q).0 e) first
  | inr e ↦ later (occurrences-In q xs (λ k. h (rw (e, k) refl)))
]

In-occurrences : {q : ℕ} {xs : List ℕ} → In q xs → occurrences q xs ≢ 0
In-occurrences {q} (first {xs = xs}) = λ e. ground arith
In-occurrences {q} (later {x = x} {xs = xs} m) = λ e. ground (arith, In-occurrences m)

targets-below :
    (count e : ℕ) (ds : List PackageDepend) → Below count ds → In e (targets ds) → e < count
targets-below count e [] k m = elim m [ ]
targets-below count e (d ∷ ds) k first = k.0
targets-below count e (d ∷ ds) k (later m) = targets-below count e ds k.1 m

module _ (h : Host) where
  made-In : (t : Session h) (q : ℕ) → IsOrderly h t → q < t.count → In q (all_packages t.namespaces)
  made-In t q o made = occurrences-In q (all_packages t.namespaces) (ground (arith, o.index.once q))

  In-made : (t : Session h) (q : ℕ) → IsOrderly h t → In q (all_packages t.namespaces) → q < t.count
  In-made t q o m = ground (arith, o.index.once q, In-occurrences m)

  Depends-In :
      (t : Session h) (p e : ℕ)
      → IsOrderly h t
      → In p (all_packages t.namespaces)
      → Depends t.packages p e
      → In e (all_packages t.namespaces)
  Depends-In t p e o m d =
      made-In t e o
        (targets-below t.count e (t.packages p).depends (o.targets p (In-made t p o m)) d)

  -- A package that is in no namespace depends on nothing, so that a rank of those that are in one is
  -- a rank of all.
  made-IsRanked :
      (t : Session h) (rank : ℕ → ℕ)
      → IsOrderly h t
      → IsBlank h t
      → ((p e : ℕ) → In p (all_packages t.namespaces) → Depends t.packages p e → rank e < rank p)
      → IsRanked t.packages rank
  made-IsRanked t rank o empty down p e d = elim (Bool-cases (ltb p t.count)) [
    | inl k ↦ down p e (made-In t p o (ltb→lt p t.count k)) d
    | inr k ↦
        elim (subst (λ (ds : List PackageDepend). In e (targets ds)) (empty p (ground (arith, k)))
          d) [ ]
  ]

  -- From no packages to success: the base package of an empty session is made, packages are
  -- processed in any order and with any scripts, the search of the graph library comes to no
  -- dependency loop, and `basePackage` begins to build, with the packages of all namespaces. Whatever
  -- the order of the steps of the scheduler and of its threads, when it has returned true, the package
  -- that was to be built is built, and so is every package that it reaches by dependencies. No
  -- package is built or building before the session, and the numbers without a package stand for what
  -- depends on nothing.
  pub base_package-returns :
      (lua : Lua) (s t : Session h) (filename : Text)
      → IsEmpty h s
      → ((i : ℕ) → NotBuilt (s.sys.progress i))
      → IsBlank h s
      → Runs h lua (make_base_package h filename s).1 t
      → (sort : List ℕ → Edges → List ℕ) (back_edges : List ℕ → Edges → Edges) → IsSort sort
      → IsSearch back_edges
      → (limit : ℤ) (keep_going : Bool) (base : ℕ) (failed parse_only : Bool) (v w : State)
      → base < t.count
      → prepare_build sort t.packages limit keep_going base back_edges failed parse_only
          t.sys.progress
          (all_packages t.namespaces)
        ≡ inr v
      → Reachable sort t.packages limit keep_going base t.sys.progress (all_packages t.namespaces) w
      → w.main ≡ left true
      → ((w.progress base).built ≡ true)
        × ((e : ℕ) → Reaches t.packages (λ d. true) base e → (w.progress e).built ≡ true)
  base_package-returns lua s t filename e fresh empty runs sort back_edges sorts searches limit
        keep_going base failed parse_only v w made goes_on reached returned =
      let first_package = (make_base_package h filename s).1 in
      let begun = make_base_package-IsOrderly h s filename e in
      let o = Runs-IsOrderly h lua first_package t begun runs in
      let all = all_packages t.namespaces in
      let r =
        get_cycled_packages-ranks sort t.packages back_edges all searches
          (λ p q. Depends-In t p q o)
          (prepared-no_loop sort t.packages limit keep_going base back_edges parse_only
            t.sys.progress all failed v goes_on) in
      let ranked =
        made-IsRanked t r.0 o
          (Runs-IsBlank h lua first_package t begun (make_base_package-IsBlank h s filename e empty)
            runs)
          r.1 in
      Reachable-returns sort sorts t.packages r.0 ranked limit keep_going base all
        (made-In t base o made) (λ p q. Depends-In t p q o) t.sys.progress
        (Runs-NotBuilt h lua first_package t begun (make_base_package-NotBuilt h s filename e fresh)
          runs)
        w reached returned
