-- ===== src/Queue/Covered.antt =====
-- The invariant of the queue, and the steps of process_packages.
use buildsyspp.Shared.{
  ℕ, ◌+◌, ◌≡◌, refl, sym, subst, ◌∙◌, Bool, true, not, ◌&&◌, Bool-cases, ◌⊎◌, inl, inr, List, [],
  ◌∷◌, ◌==◌, ==_iff, arith, length, In, first, later, if◌then◌else◌,
}
use buildsyspp.Model.{Package}
use buildsyspp.Depends.{Depends}
use buildsyspp.Queue.{
  Place, processing, holding, Feeder, testing, popping, pausing, asleep, over, starting, Workers,
  Queue, no_items, done, pop_from, pop, start, wait,
}
use buildsyspp.Queue.Firm.{Owed, Firm, by_failure, by_queue, by_start, by_process, by_hold, by_end}

module _ (pkgs : ℕ → Package) (succeeds : ℕ → Bool) (base : ℕ) where
  abbrev pub Due : Queue → ℕ → Type 0
  Due s e = Firm s e ⊎ Owed s e

  pub record Covered (s : Queue) : Type 0 where
    pub counted : s.started ≡ s.finished + length s.workers
    pub root : Firm s base
    pub known : (d : ℕ) → s.queued d ≡ true → Firm s d
    pub closed : (p : ℕ) → In p s.processed → (e : ℕ) → Depends pkgs p e → Due s e
    pub ended : s.main ≡ over → (s.queue ≡ []) × (s.workers ≡ [])

  pub Covered-next :
      (s t : Queue)
      → Covered s
      → ((d : ℕ) → Firm s d → Firm t d)
      → ((e : ℕ) → Owed s e → Due t e)
      → ((d : ℕ) → t.queued d ≡ true → (s.queued d ≡ true) ⊎ Firm t d)
      → ((p : ℕ) → In p t.processed → In p s.processed ⊎ ((e : ℕ) → Depends pkgs p e → Due t e))
      → t.started ≡ t.finished + length t.workers
      → (t.main ≡ over → (t.queue ≡ []) × (t.workers ≡ []))
      → Covered t
  Covered-next s t h firm owed new fresh count end = record {
    counted = count;
    root = firm base h.root;
    known = λ d e. elim (new d e) [ inl o ↦ firm d (h.known d o) | inr n ↦ n ];
    closed = λ p m e d. elim (fresh p m) [
      | inl o ↦ elim (h.closed p o e d) [ inl k ↦ inl (firm e k) | inr k ↦ owed e k ]
      | inr n ↦ n e d
    ];
    ended = end;
  }

  -- A step of the feeder: the threads go on.
  Firm-main :
      (s t : Queue)
      → (s.failed ≡ true → t.failed ≡ true)
      → ((d : ℕ) → In d s.queue → Firm t d)
      → ((d : ℕ) → s.main ≡ starting d → Firm t d)
      → ((z : ℕ × Place) → In z s.workers → In z t.workers)
      → ((d : ℕ) → In d s.processed → In d t.processed)
      → (d : ℕ) → Firm s d
      → Firm t d
  Firm-main s t f q m w p d (by_failure x) = by_failure (f x)
  Firm-main s t f q m w p d (by_queue x) = q d x
  Firm-main s t f q m w p d (by_start x) = m d x
  Firm-main s t f q m w p d (by_process x) = by_process (w (d, processing) x)
  Firm-main s t f q m w p d (by_hold r ds x) = by_hold r ds (w (r, holding d ds) x)
  Firm-main s t f q m w p d (by_end x) = by_end (p d x)

  Owed-main :
      (s t : Queue)
      → ((z : ℕ × Place) → In z s.workers → In z t.workers)
      → (e : ℕ) → Owed s e
      → Due t e
  Owed-main s t w e (p, a, m, k) = inr (p, a, w (p, a) m, k)

  -- The same queue, threads and packages with another place of the feeder.
  pub Covered-place :
      (s : Queue) (m : Feeder)
      → Covered s
      → ((d : ℕ) → s.main ≡ starting d → m ≡ starting d)
      → (m ≡ over → (s.queue ≡ []) × (s.workers ≡ []))
      → Covered (record s { main = m })
  Covered-place s m h same end =
      Covered-next s (record s { main = m }) h
        (Firm-main s (record s { main = m }) (λ f. f) (λ d k. by_queue k)
          (λ d k. by_start (same d k)) (λ z k. k) (λ d k. k))
        (Owed-main s (record s { main = m }) (λ z k. k)) (λ d e. inl e) (λ p k. inl k) h.counted end

  not_over : {m n : Feeder} → m ≡ n → ((n ≡ over) → ⊥) → m ≡ over → ⊥
  not_over e f k = f (sym e ∙ k)

  pub Covered-tests :
      (s : Queue)
      → Covered s
      → s.main ≡ testing
      → Covered (record s { main = if done s then over else popping })
  unfolding done
  Covered-tests s h e = elim (Bool-cases (s.started == s.finished && no_items s.queue)) [
    | inl b ↦ rw b (
        Covered-place s over h (λ d k. cc)
          (λ _. (
            no_item s.queue (ground arith),
            no_worker s.workers
                (omega (arith, h.counted, (==_iff s.started s.finished).0 (ground arith))),
          )))
    | inr b ↦ rw b (Covered-place s popping h (λ d k. cc) (λ k. cc))
  ]
    where
      no_item : (q : List ℕ) → no_items q ≡ true → q ≡ []
      no_item [] k = refl
      no_item (x ∷ q) k = cc

      no_worker : (ws : Workers) → length ws ≡ 0 → ws ≡ []
      no_worker [] k = refl
      no_worker (x ∷ ws) k = absurd (omega arith)

  pub Covered-pops : (s : Queue) → Covered s → s.main ≡ popping → Covered (pop s)
  unfolding pop
  Covered-pops s h e = by_items s.queue refl
    where
      by_items : (q : List ℕ) → s.queue ≡ q → Covered (pop_from q s)
      by_items [] k = Covered-place s pausing h (λ d m. cc) (λ m. cc)
      by_items (p ∷ ps) k =
          let t : Queue = record s { queue = ps; main = starting p } in
          Covered-next s t h
            (Firm-main s t (λ f. f) (λ d m. taken d (subst (In d) k m)) (λ d m. cc) (λ z m. m)
              (λ d m. m))
            (Owed-main s t (λ z m. m)) (λ d m. inl m) (λ x m. inl m) h.counted (λ m. cc)
        where
          taken : (d : ℕ) → In d (p ∷ ps) → Firm (record s { queue = ps; main = starting p }) d
          taken d first = by_start refl
          taken d (later m) = by_queue m

  pub Covered-starts : (s : Queue) (p : ℕ) → Covered s → s.main ≡ starting p → Covered (start p s)
  unfolding start
  Covered-starts s p h e =
      Covered-next s (start p s) h
        (Firm-main s (start p s) (λ f. f) (λ d m. by_queue m) (λ d m. begun d (sym e ∙ m))
          (λ z m. later m) (λ d m. m))
        (Owed-main s (start p s) (λ z m. later m)) (λ d m. inl m) (λ x m. inl m)
        (omega (arith, h.counted)) (λ m. cc)
    where
      begun : (d : ℕ) → starting p ≡ starting d → Firm (start p s) d
      begun d m =
          by_process (subst (λ x. In (x, processing) ((p, processing) ∷ s.workers)) (same m) first)
        where
          same : {a b : ℕ} → starting a ≡ starting b → a ≡ b
          same m' = cc

  pub Covered-waits : (s : Queue) → Covered s → s.main ≡ pausing → Covered (wait s)
  unfolding wait
  Covered-waits s h e = elim (Bool-cases (not (s.started == s.finished) && no_items s.queue)) [
    | inl b ↦ rw b (Covered-place s asleep h (λ d k. cc) (λ k. cc))
    | inr b ↦ rw b (Covered-place s testing h (λ d k. cc) (λ k. cc))
  ]
