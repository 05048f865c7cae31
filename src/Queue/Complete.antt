-- ===== src/Queue/Complete.antt =====
-- The steps of process_package, and what has been processed when the queue is done.
use buildsyspp.Shared.{
  ℕ, suc, ◌≡◌, refl, sym, ap, subst, ◌∙◌, Bool, true, false, Bool-cases, ◌⊎◌, inl, inr, List, [],
  ◌∷◌, ◌++◌, ◌==◌, ==_iff, arith, length, In, first, later, In-append_left, In-append_right,
}
use buildsyspp.Model.{PackageDepend, Package, update}
use buildsyspp.Depends.{targets, Depends}
use buildsyspp.Depends.Reached.{Reaches, direct, onward}
use buildsyspp.World.Sound.{In-middle}
use buildsyspp.World.Loop.{append-not_nil, length-middle}
use buildsyspp.Queue.{
  Place, processing, pushing, holding, over, starting, Workers, Queue, push, finish, roused,
  process, mark, Step, tests, pops, starts, waits, wakes, processes, marks, pushes, finishes, begin,
  Reachable, begins, steps,
}
use buildsyspp.Queue.Firm.{
  owes, Owed, Firm, by_failure, by_queue, by_start, by_process, by_hold, by_end, roused-starting,
  roused-over, In-drop, Passes, Firm-goes, Owed-goes,
}
use buildsyspp.Queue.Covered.{
  Due, Covered, Covered-next, Covered-place, Covered-tests, Covered-pops, Covered-starts,
  Covered-waits,
}

module _ (pkgs : ℕ → Package) (succeeds : ℕ → Bool) (base : ℕ) where
  Covered-goes :
      (s t : Queue) (xs : Workers) (p : ℕ) (a b : Place) (ys : Workers)
      → Covered pkgs succeeds base s
      → s.workers ≡ xs ++ (p, a) ∷ ys
      → t.workers ≡ xs ++ (p, b) ∷ ys
      → Passes s t
      → (t.started ≡ s.started) × (t.finished ≡ s.finished) × (t.main ≡ s.main)
      → (a ≡ processing → Firm t p)
      → ((d : ℕ) (ds : List PackageDepend) → a ≡ holding d ds → Firm t d)
      → ((e : ℕ) → In e (owes a) → Due pkgs succeeds base t e)
      → ((d : ℕ) → t.queued d ≡ true → (s.queued d ≡ true) ⊎ Firm t d)
      → ((p : ℕ)
          → In p t.processed
          → In p s.processed ⊎ ((e : ℕ) → Depends pkgs p e → Due pkgs succeeds base t e))
      → Covered pkgs succeeds base t
  Covered-goes s t xs p a b ys h e e' passes same f g owed new fresh =
      Covered-next pkgs succeeds base s t h (Firm-goes s t xs p a b ys passes e e' f g)
        (Owed-goes s t xs p a b ys e e' owed) new fresh
        (omega (
          arith,
          h.counted,
          same.0,
          same.1,
          ap length e,
          ap length e',
          length-middle xs (p, a) ys,
          length-middle xs (p, b) ys,
        ))
        (λ k. absurd (append-not_nil xs (p, a) ys (sym e ∙ (h.ended (sym same.2 ∙ k)).1)))

  Covered-processes :
      (s : Queue) (xs : Workers) (p : ℕ) (ys : Workers)
      → Covered pkgs succeeds base s
      → s.workers ≡ xs ++ (p, processing) ∷ ys
      → Covered pkgs succeeds base (process pkgs succeeds xs p ys s)
  unfolding process
  Covered-processes s xs p ys h e = elim (Bool-cases (succeeds p)) [
    | inl b ↦ rw b (
        Covered-goes s done_well xs p processing (pushing (pkgs p).depends) ys h e refl
          (record {
            failed = λ f. f;
            queue = λ d m. m;
            main = λ d m. m;
            processed = λ d m. later m;
          })
          (refl, refl, refl) (λ _. by_end first) (λ d ds k. cc) (λ x m. elim m [ ]) (λ d m. inl m)
          (λ x m. fresh m))
    | inr b ↦ rw b (
        Covered-goes s done_badly xs p processing (pushing []) ys h e refl
          (record { failed = λ f. refl; queue = λ d m. m; main = λ d m. m; processed = λ d m. m })
          (refl, refl, refl) (λ _. by_failure refl) (λ d ds k. cc) (λ x m. elim m [ ])
          (λ d m. inl m) (λ x m. inl m))
  ]
    where
      done_well : Queue
      done_well = record s {
        processed = p ∷ s.processed;
        workers = xs ++ (p, pushing (pkgs p).depends) ∷ ys;
      }

      done_badly : Queue
      done_badly = record s { failed = true; workers = xs ++ (p, pushing []) ∷ ys }

      fresh :
          {x : ℕ}
          → In x (p ∷ s.processed)
          → In x s.processed ⊎ ((e : ℕ) → Depends pkgs x e → Due pkgs succeeds base done_well e)
      fresh first = inr (λ e d.
          inr (p, pushing (pkgs p).depends, In-middle xs (p, pushing (pkgs p).depends) ys, d))
      fresh (later m) = inl m

  Covered-marks :
      (s : Queue) (xs : Workers) (p d : ℕ) (l : Bool) (ds : List PackageDepend) (ys : Workers)
      → Covered pkgs succeeds base s
      → s.workers ≡ xs ++ (p, pushing (record { target = d; locally = l } ∷ ds)) ∷ ys
      → Covered pkgs succeeds base (mark pkgs succeeds xs p d ds ys s)
  unfolding mark
  Covered-marks s xs p d l ds ys h e = elim (Bool-cases (s.queued d)) [
    | inl b ↦ rw b (
        Covered-goes s skipped xs p (pushing (record { target = d; locally = l } ∷ ds)) (pushing ds)
          ys h e refl passing (refl, refl, refl) (λ k. cc) (λ x xs' k. cc)
          (λ x m. skip m (
            Firm-goes s skipped xs p (pushing (record { target = d; locally = l } ∷ ds))
              (pushing ds) ys passing e refl (λ k. cc) (λ y ys' k. cc) d (h.known d b)))
          (λ x m. inl m) (λ x m. inl m))
    | inr b ↦ rw b (
        Covered-goes s held xs p (pushing (record { target = d; locally = l } ∷ ds)) (holding d ds)
          ys h e refl
          (record { failed = λ f. f; queue = λ x m. m; main = λ x m. m; processed = λ x m. m })
          (refl, refl, refl) (λ k. cc) (λ x xs' k. cc) (λ x m. hold m) (λ x m. new x m)
          (λ x m. inl m))
  ]
    where
      skipped : Queue
      skipped = record s { workers = xs ++ (p, pushing ds) ∷ ys }

      held : Queue
      held = record s { queued = update s.queued d true; workers = xs ++ (p, holding d ds) ∷ ys }

      passing : Passes s skipped
      passing = record { failed = λ f. f; queue = λ x m. m; main = λ x m. m; processed = λ x m. m }

      skip : {x : ℕ} → In x (d ∷ targets ds) → Firm skipped d → Due pkgs succeeds base skipped x
      skip first k = inl k
      skip (later m) k = inr (p, pushing ds, In-middle xs (p, pushing ds) ys, m)

      hold : {x : ℕ} → In x (d ∷ targets ds) → Due pkgs succeeds base held x
      hold first = inl (by_hold p ds (In-middle xs (p, holding d ds) ys))
      hold (later m) = inr (p, holding d ds, In-middle xs (p, holding d ds) ys, m)

      new : (x : ℕ) → update s.queued d true x ≡ true → (s.queued x ≡ true) ⊎ Firm held x
      new x m = elim (Bool-cases (x == d)) [
        | inl k ↦ inr (
            subst (Firm held) (sym ((==_iff x d).0 k))
              (by_hold p ds (In-middle xs (p, holding d ds) ys)))
        | inr k ↦ inl (rw k at m)
      ]

  Covered-pushes :
      (s : Queue) (xs : Workers) (p d : ℕ) (ds : List PackageDepend) (ys : Workers)
      → Covered pkgs succeeds base s
      → s.workers ≡ xs ++ (p, holding d ds) ∷ ys
      → Covered pkgs succeeds base (record (push d s) { workers = xs ++ (p, pushing ds) ∷ ys })
  unfolding push
  Covered-pushes s xs p d ds ys h e =
      Covered-goes s (record s { queue = s.queue ++ d ∷ []; workers = xs ++ (p, pushing ds) ∷ ys })
        xs p (holding d ds) (pushing ds) ys h e refl
        (record {
          failed = λ f. f;
          queue = λ x m. In-append_left _ m;
          main = λ x m. m;
          processed = λ x m. m;
        })
        (refl, refl, refl) (λ k. cc)
        (λ x xs' k. by_queue (In-append_right s.queue (subst (λ y. In y (d ∷ [])) (same k) first)))
        (λ x m. inr (p, pushing ds, In-middle xs (p, pushing ds) ys, m)) (λ x m. inl m)
        (λ x m. inl m)
    where
      same : {x : ℕ} {xs' : List PackageDepend} → holding d ds ≡ holding x xs' → d ≡ x
      same k = cc

  Covered-finishes :
      (s : Queue) (xs : Workers) (p : ℕ) (ys : Workers)
      → Covered pkgs succeeds base s
      → s.workers ≡ xs ++ (p, pushing []) ∷ ys
      → Covered pkgs succeeds base (record (finish s) { workers = xs ++ ys })
  unfolding finish
  Covered-finishes s xs p ys h e =
      Covered-next pkgs succeeds base s gone h (λ d k. firm k) (λ x k. owed k) (λ d m. inl m)
        (λ x m. inl m) (omega (arith, h.counted, ap length e, length-middle xs (p, pushing []) ys))
        (λ k.
          absurd
            (append-not_nil xs (p, pushing []) ys (sym e ∙ (h.ended (roused-over s.main k)).1)))
    where
      gone : Queue
      gone = record s { finished = suc s.finished; workers = xs ++ ys; main = roused s.main }

      rest :
          (z : ℕ × Place) → In z s.workers → In z (xs ++ ys) ⊎ ◌≡◌ {A = ℕ × Place} z (p, pushing [])
      rest z m = In-drop xs (p, pushing []) ys (subst (In z) e m)

      firm : {d : ℕ} → Firm s d → Firm gone d
      firm (by_failure x) = by_failure x
      firm (by_queue m) = by_queue m
      firm (by_start x) = by_start (roused-starting s.main x)
      firm {d} (by_process m) = elim (rest (d, processing) m) [
        | inl k ↦ by_process k
        | inr k ↦ absurd (other (ap (λ z. z.1) k))
      ]
        where
          other : processing ≡ pushing [] → ⊥
          other k = cc
      firm {d} (by_hold q ds m) = elim (rest (q, holding d ds) m) [
        | inl k ↦ by_hold q ds k
        | inr k ↦ absurd (other (ap (λ z. z.1) k))
      ]
        where
          other : holding d ds ≡ pushing [] → ⊥
          other k = cc
      firm (by_end m) = by_end m

      owed : {x : ℕ} → Owed s x → Due pkgs succeeds base gone x
      owed {x} (q, a, m, k) = elim (rest (q, a) m) [
        | inl r ↦ inr (q, a, r, k)
        | inr r ↦ absurd (nothing (subst (λ z. In x (owes z)) (ap (λ z. z.1) r) k))
      ]
        where
          nothing : In x [] → ⊥
          nothing j = elim j [ ]

  Covered-Step :
      (s t : Queue)
      → Covered pkgs succeeds base s
      → Step pkgs succeeds s t
      → Covered pkgs succeeds base t
  Covered-Step s t h (tests e) = Covered-tests pkgs succeeds base s h e
  Covered-Step s t h (pops e) = Covered-pops pkgs succeeds base s h e
  Covered-Step s t h (starts p e) = Covered-starts pkgs succeeds base s p h e
  Covered-Step s t h (waits e) = Covered-waits pkgs succeeds base s h e
  Covered-Step s t h wakes =
      Covered-place pkgs succeeds base s (roused s.main) h (λ d k. roused-starting s.main k)
        (λ k. h.ended (roused-over s.main k))
  Covered-Step s t h (processes xs p ys e) = Covered-processes s xs p ys h e
  Covered-Step s t h (marks xs p d ds ys e) = Covered-marks s xs p d.target d.locally ds ys h e
  Covered-Step s t h (pushes xs p d ds ys e) = Covered-pushes s xs p d ds ys h e
  Covered-Step s t h (finishes xs p ys e) = Covered-finishes s xs p ys h e

  Covered-begin : Covered pkgs succeeds base (begin pkgs succeeds base)
  unfolding begin
  Covered-begin = record {
    counted = refl;
    root = by_queue first;
    known = λ d k. cc;
    closed = λ p m. elim m [ ];
    ended = λ k. cc;
  }

  pub Reachable-Covered :
      {s : Queue} → Reachable pkgs succeeds base s → Covered pkgs succeeds base s
  Reachable-Covered begins = Covered-begin
  Reachable-Covered (steps {s = s} {t} r k) = Covered-Step s t (Reachable-Covered r) k

  -- When process_packages has ended and nothing has failed, the base package and every package that
  -- it reaches by dependencies have been processed, whatever the order of the steps.
  pub Reachable-processed :
      (s : Queue)
      → Reachable pkgs succeeds base s
      → s.main ≡ over
      → s.failed ≡ false
      → In base s.processed × ((e : ℕ) → Reaches pkgs (λ d. true) base e → In e s.processed)
  Reachable-processed s r e f = (processed_of base h.root, all)
    where
      h : Covered pkgs succeeds base s
      h = Reachable-Covered r

      processed_of : (d : ℕ) → Firm s d → In d s.processed
      processed_of d (by_failure x) = absurd (not_both x f)
        where
          not_both : {b : Bool} → b ≡ true → b ≡ false → ⊥
          not_both x y = cc
      processed_of d (by_queue m) = elim (subst (In d) (h.ended e).0 m) [ ]
      processed_of d (by_start x) = absurd (differ (sym e ∙ x))
        where
          differ : over ≡ starting d → ⊥
          differ k = cc
      processed_of d (by_process m) = elim (subst (In (d, processing)) (h.ended e).1 m) [ ]
      processed_of d (by_hold q ds m) = elim (subst (In (q, holding d ds)) (h.ended e).1 m) [ ]
      processed_of d (by_end m) = m

      due : (d : ℕ) → Due pkgs succeeds base s d → In d s.processed
      due d (inl k) = processed_of d k
      due d (inr (q, a, m, k)) = elim (subst (In (q, a)) (h.ended e).1 m) [ ]

      all : (d : ℕ) → Reaches pkgs (λ d. true) base d → In d s.processed
      all d (direct k) = due d (h.closed base (processed_of base h.root) d k)
      all d (onward {d = x} w t k) = due d (h.closed x (all x w) d k)
