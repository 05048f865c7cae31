-- ===== src/World/Invariant.antt =====
-- The invariant of the scheduler and its threads, through every step.
use buildsyspp.Shared.{
  ℕ, suc, ◌≡◌, refl, sym, ap, ◌∙◌, subst, Bool, true, false, Bool-cases, ◌⊎◌, inl, inr, Option,
  none, some, List, [], ◌∷◌, ◌++◌, ==_iff, arith, length, In,
}
use buildsyspp.Model.{Package, Progress, update}
use buildsyspp.Depends.{Depends, IsRanked}
use buildsyspp.Depends.Reached.{Reaches, direct, onward}
use buildsyspp.Graph.{Edges, topo_next}
use buildsyspp.Graph.Next.{is_next-true, last_next-some, last_next-none}
use buildsyspp.World.{
  ℤ, ThreadAt, working, cleared, succeeded, failing, ending, entering, waiting, Threads, State,
  notify, set_failed, thread_ended, has_room, package_finished, check, next_package, start_thread,
  enter_with, enter, drain, begin, Step, checks, enters, drains, wakes, clears, builds, skips,
  clears_needed, builds_needed, fails, finishes, reports, ends,
}
use buildsyspp.World.Sound.{
  Sound, is_active, Changes, Changes-none, Changes-cleared, Changes-built, Sound-changes,
  Sound-goes, Sound-ends, Sound-starts, started_built, is_next_lem, In-middle,
}
use buildsyspp.World.Loop.{
  Loop, Loop-begins, Loop-wakes, Loop-grows, Loop-goes, Loop-ends, Loop-place, Loop-starts,
  Loop-checks, Loop-drains, IsNegative, Decided, has_room_lem,
}
use buildsyspp.World.Listed.{IsSort, Listed, Listed-fill, Listed-delete_node}

pair : {ts us : Threads} {a b : Bool} → ts ≡ us → a ≡ b → ◌≡◌ {A = Threads × Bool} (ts, a) (us, b)
pair x y = rw (x, y) refl

not_both : {b : Bool} → b ≡ true → b ≡ false → ⊥
not_both x y = cc

update_self : (r : ℕ → Progress) (p : ℕ) (x : Progress) → update r p x p ≡ x
update_self r p x = rw ((==_iff p p).1 refl) refl

module _ (sort : List ℕ → Edges → List ℕ) (sorts : IsSort sort) (pkgs : ℕ → Package) (rank : ℕ → ℕ)
    (ranked : IsRanked pkgs rank) (limit : ℤ) (keep_going : Bool) (base : ℕ) where
  module _ (all : List ℕ) (base_in : In base all)
      (all_in : (p e : ℕ) → In p all → Depends pkgs p e → In e all) where
    pub record Invariant (s : State) : Type 0 where
      pub sound : Sound pkgs s.progress s.threads s.failed
      pub loop : Loop limit s.threads_running s.threads s.failed (s.progress base).built s.main
      pub graph : Listed sort sorts pkgs rank ranked all s.graph

    reached-In : (p e : ℕ) → In p all → Reaches pkgs (λ d. true) p e → In e all
    reached-In p e m (direct d) = all_in p e m d
    reached-In p e m (onward {d = x} r t d) = all_in x e (reached-In p x m r) d

    pub reached_built :
        (r : ℕ → Progress)
        → ((q : ℕ) → (r q).built ≡ true → (e : ℕ) → Depends pkgs q e → (r e).built ≡ true)
        → (q : ℕ) → ((e : ℕ) → Depends pkgs q e → (r e).built ≡ true)
        → (e : ℕ) → Reaches pkgs (λ d. true) q e
        → (r e).built ≡ true
    reached_built r closed q known e (direct d) = known e d
    reached_built r closed q known e (onward {d = x} w t d) =
        closed x (reached_built r closed q known x w) e d

    pub Invariant-begin :
        (progress : ℕ → Progress)
        → ((q : ℕ) → ((progress q).built ≡ false) × ((progress q).building ≡ false))
        → Invariant (begin sort pkgs limit keep_going base progress all)
    unfolding begin
    Invariant-begin progress fresh = record {
      sound = record {
        closed = λ q b e d. absurd (differs (fresh q).0 b);
        ready = λ p a m e d. elim m [ ];
        owned = λ p b. absurd (differs (fresh p).1 b);
      };
      loop = rw (fresh base).0 (Loop-begins limit);
      graph = Listed-fill sort sorts pkgs rank ranked all;
    }
      where
        differs : {b : Bool} → b ≡ false → b ≡ true → ⊥
        differs e f = cc

    -- With nothing running there is a package to start, unless the outcome is decided.
    next_package-Decided :
        (s : State)
        → Invariant s
        → next_package sort pkgs limit keep_going base s ≡ none
        → s.threads ≡ []
        → Decided s.failed (s.progress base).built ⊎ IsNegative limit
    unfolding topo_next
    next_package-Decided s h e n = elim (Bool-cases (has_room limit s.threads_running)) [
      | inr full ↦
          inr (has_room_lem limit (subst (λ r. has_room limit r ≡ false) none_running full))
      | inl room ↦
          inl (outcome (Bool-cases s.failed) (Bool-cases (s.progress base).built) (rw room at e))
    ]
      where
        none_running : s.threads_running ≡ 0
        none_running = h.loop.counted ∙ ap length n

        here : {p : ℕ} → (p ≡ base) ⊎ Reaches pkgs (λ d. true) base p → In p all
        here (inl same) = subst (λ x. In x all) (sym same) base_in
        here (inr r) = reached-In base _ base_in r

        absurd_next :
            s.failed ≡ false
            → (s.progress base).built ≡ false
            → topo_next sort pkgs s.progress s.graph ≡ none
            → ⊥
        absurd_next f b z =
            let sound = subst (λ x. Sound pkgs s.progress x.0 x.1) (pair n f) h.sound in
            let (p, k, w) =
              is_next_lem pkgs sort rank ranked sound (suc (rank base)) base (omega arith) b in
            not_both k (
              (last_next-none sort pkgs s.progress none s.graph.c z).1 p
                (h.graph.listed p (here w)))

        outcome :
            (s.failed ≡ true) ⊎ (s.failed ≡ false)
            → ((s.progress base).built ≡ true) ⊎ ((s.progress base).built ≡ false)
            → topo_next sort pkgs s.progress s.graph ≡ none
            → Decided s.failed (s.progress base).built
        outcome (inl f) b z = inl f
        outcome (inr f) (inl b) z = inr b
        outcome (inr f) (inr b) z = absurd (absurd_next f b z)

    not_none : {p : ℕ} → ◌≡◌ {A = Option ℕ} none (some p) → ⊥
    not_none e = cc

    Invariant-starts :
        (s : State)
        → Invariant s
        → (p : ℕ) → has_room limit s.threads_running ≡ true
        → topo_next sort pkgs s.progress s.graph ≡ some p
        → Invariant (enter_with sort pkgs limit keep_going base (some p) s)
    unfolding topo_next start_thread
    Invariant-starts s h p room z = elim (last_next-some sort pkgs s.progress none s.graph.c p z) [
      | inl e ↦ absurd (not_none e)
      | inr (m, next) ↦ rw (is_next-true sort pkgs s.progress p next).1 record {
        sound = Sound-starts pkgs sort p h.sound next;
        loop =
            Loop-grows limit (Loop-starts limit (p, working) room h.loop) (λ f. f)
              (started_built s.progress p base);
        graph = h.graph;
      }
    ]

    Invariant-enters :
        (s : State)
        → Invariant s
        → s.main ≡ entering
        → Invariant (enter sort pkgs limit keep_going base s)
    unfolding enter
    Invariant-enters s h e = by_next (next_package sort pkgs limit keep_going base s) refl
      where
        by_next :
            (o : Option ℕ)
            → next_package sort pkgs limit keep_going base s ≡ o
            → Invariant (enter_with sort pkgs limit keep_going base o s)
        by_next none z = record {
          sound = h.sound;
          loop =
              Loop-place limit waiting h.loop (λ _ n. next_package-Decided s h z n) (λ b. absurd b)
                (λ k. cc);
          graph = h.graph;
        }
        by_next (some p) z = elim (Bool-cases (has_room limit s.threads_running)) [
          | inr full ↦ absurd (not_none (rw full at z))
          | inl room ↦ Invariant-starts s h p room (rw room at z)
        ]

    -- A thread goes from one place to another, and flags change.
    moved :
        (s : State)
        → Invariant s
        → (xs : Threads) (p : ℕ) (a b : ThreadAt) (ys : Threads) → s.threads ≡ xs ++ (p, a) ∷ ys
        → (r : ℕ → Progress) (failed : Bool) → Changes pkgs s.progress r (λ q. q ≡ p)
        → (s.failed ≡ true → failed ≡ true)
        → ((is_active a ≡ true)
            → (r p).building ≡ true
            → ((r p).built ≡ true) ⊎ ((is_active b ≡ true) ⊎ (failed ≡ true)))
        → Sound pkgs r (xs ++ (p, b) ∷ ys) failed
          × Loop limit s.threads_running (xs ++ (p, b) ∷ ys) failed (r base).built s.main
    moved s h xs p a b ys e r failed c f keeps = (
      Sound-goes pkgs xs p a b ys (subst (λ ts. Sound pkgs s.progress ts s.failed) e h.sound) c f
          keeps,
      Loop-grows limit
          (Loop-goes limit xs (p, a) (p, b) ys
            (subst (λ ts. Loop limit s.threads_running ts s.failed (s.progress base).built s.main) e
              h.loop))
          f (c.grows base),
    )

    pub Invariant-Step :
        (s t : State) → Invariant s → Step sort pkgs limit keep_going base s t → Invariant t
    unfolding check drain notify set_failed thread_ended package_finished
    Invariant-Step s t h (checks e) = record {
      sound = h.sound;
      loop = Loop-checks limit keep_going h.loop;
      graph = h.graph;
    }
    Invariant-Step s t h (enters e) = Invariant-enters s h e
    Invariant-Step s t h (drains e) = record {
      sound = h.sound;
      loop = Loop-drains limit _ (
          subst (λ m. Loop limit s.threads_running s.threads s.failed (s.progress base).built m) e
            h.loop);
      graph = h.graph;
    }
    Invariant-Step s t h wakes = record {
      sound = h.sound;
      loop = Loop-wakes limit h.loop;
      graph = h.graph;
    }
    Invariant-Step s t h (clears xs p ys e) =
        let (a, b) =
          moved s h xs p working cleared ys e _ s.failed
            (Changes-cleared pkgs s.progress p (λ q. q ≡ p)) (λ f. f)
            (λ k b. absurd (not_both b (ap (λ x. x.building) (update_self s.progress p _)))) in
        record { sound = a; loop = b; graph = h.graph }
    Invariant-Step s t h (builds xs p ys e) =
        let (a, b) =
          moved s h xs p cleared succeeded ys e _ s.failed (Changes-built pkgs s.progress p)
            (λ f. f) (λ k b. inl (ap (λ x. x.built) (update_self s.progress p _))) in
        record { sound = a; loop = b; graph = h.graph }
    Invariant-Step s t h (skips xs p ys e) =
        let (a, b) =
          moved s h xs p working succeeded ys e _ s.failed (Changes-built pkgs s.progress p)
            (λ f. f) (λ k b. inl (ap (λ x. x.built) (update_self s.progress p _))) in
        record { sound = a; loop = b; graph = h.graph }
    Invariant-Step s t h (clears_needed xs p ys d e r) =
        let c = Changes-cleared pkgs s.progress d (λ q. ⊥) in
        record {
          sound = Sound-changes pkgs h.sound c (λ q n. absurd n);
          loop = Loop-grows limit h.loop (λ f. f) (c.grows base);
          graph = h.graph;
        }
    Invariant-Step s t h (builds_needed xs p ys d e r) =
        let c = Changes-built pkgs s.progress d in
        let ready =
          h.sound.ready p working
            (subst (In (p, working)) (sym e) (In-middle xs (p, working) ys)) in
        record {
          sound = Sound-changes pkgs h.sound c (λ q n.
              subst (λ x. (s.progress x).built ≡ true) (sym n)
                (reached_built s.progress h.sound.closed p ready d r));
          loop = Loop-grows limit h.loop (λ f. f) (c.grows base);
          graph = h.graph;
        }
    Invariant-Step s t h (fails xs p ys e) =
        let (a, b) =
          moved s h xs p working failing ys e s.progress s.failed
            (Changes-none pkgs s.progress (λ q. q ≡ p)) (λ f. f) (λ k b. inr (inl refl)) in
        record { sound = a; loop = b; graph = h.graph }
    Invariant-Step s t h (finishes xs p ys e) =
        let (a, b) =
          moved s h xs p succeeded ending ys e s.progress s.failed
            (Changes-none pkgs s.progress (λ q. q ≡ p)) (λ f. f) (λ k b. cc) in
        record {
          sound = a;
          loop = Loop-wakes limit b;
          graph = Listed-delete_node sort sorts pkgs rank ranked all s.graph p h.graph;
        }
    Invariant-Step s t h (reports xs p ys e) =
        let (a, b) =
          moved s h xs p failing ending ys e s.progress true
            (Changes-none pkgs s.progress (λ q. q ≡ p)) (λ f. refl) (λ k b. inr (inr refl)) in
        record { sound = a; loop = Loop-wakes limit b; graph = h.graph }
    Invariant-Step s t h (ends xs p ys e) = record {
      sound = Sound-ends pkgs xs p ys (subst (λ ts. Sound pkgs s.progress ts s.failed) e h.sound);
      loop =
          Loop-ends limit xs (p, ending) ys
            (subst (λ ts. Loop limit s.threads_running ts s.failed (s.progress base).built s.main) e
              h.loop);
      graph = h.graph;
    }
