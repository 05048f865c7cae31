-- ===== src/World/Loop.antt =====
-- What the scheduler's place in its loop has to do with the count of threads and with the outcome.
use buildsyspp.Shared.{
  ℕ, zero, suc, ◌-◌, ◌≤◌, ◌≡◌, refl, sym, ap, ◌∙◌, Bool, true, false, not, ◌&&◌, ◌⊎◌, inl, inr,
  List, [], ◌∷◌, ◌++◌, arith, length, length-append, if◌then◌else◌,
}
use buildsyspp.World.{
  ℤ, pos, negsuc, ThreadAt, Main, checking, entering, waiting, draining, sleeping, left, Threads,
  woken, has_room,
}

abbrev pub IsNegative : ℤ → Type 0
IsNegative (pos n) = ⊥
IsNegative (negsuc n) = Unit

abbrev pub Decided : Bool → Bool → Type 0
Decided failed built = (failed ≡ true) ⊎ (built ≡ true)

-- Behind the loop.
abbrev pub Behind : Main → Type 0
Behind checking = ⊥
Behind entering = ⊥
Behind waiting = ⊥
Behind draining = Unit
Behind sleeping = Unit
Behind (left b) = Unit

Behind-woken : (m : Main) → Behind (woken m) → Behind m
Behind-woken checking h = h
Behind-woken entering h = h
Behind-woken waiting h = h
Behind-woken draining h = h
Behind-woken sleeping h = tt
Behind-woken (left b) h = h

not_waiting : (m : Main) → woken m ≡ waiting → ⊥
not_waiting checking h = cc
not_waiting entering h = cc
not_waiting waiting h = cc
not_waiting draining h = cc
not_waiting sleeping h = cc
not_waiting (left b) h = cc

woken-left : (m : Main) {b : Bool} → woken m ≡ left b → m ≡ left b
woken-left checking h = cc
woken-left entering h = cc
woken-left waiting h = cc
woken-left draining h = cc
woken-left sleeping h = cc
woken-left (left c) h = h

pub append-not_nil : {A : Type 0} (xs : List A) (y : A) (ys : List A) → xs ++ y ∷ ys ≡ [] → ⊥
append-not_nil [] y ys h = cc
append-not_nil (x ∷ xs) y ys h = cc

pub length-middle :
    {A : Type 0} (xs : List A) (y : A) (ys : List A)
    → length (xs ++ y ∷ ys) ≡ suc (length (xs ++ ys))
length-middle xs y ys = omega (arith, length-append xs (y ∷ ys), length-append xs ys)

module _ (limit : ℤ) where
  abbrev pub Fits : ℕ → Type 0
  Fits running = (l : ℕ) → limit ≡ pos (suc l) → running ≤ suc l

  -- With failure and with the base package built or not.
  pub record Loop (running : ℕ) (ts : Threads) (failed built : Bool) (m : Main) : Type 0 where
    pub counted : running ≡ length ts
    pub bounded : Fits running
    pub waits : m ≡ waiting → ts ≡ [] → Decided failed built ⊎ IsNegative limit
    pub leaves : Behind m → Decided failed built
    pub returns : m ≡ left true → built ≡ true

  pub Loop-begins : Loop 0 [] false false checking
  Loop-begins = record {
    counted = refl;
    bounded = λ l e. omega arith;
    waits = λ e n. cc;
    leaves = λ b. absurd b;
    returns = λ e. cc;
  }

  pub Loop-wakes :
      {running : ℕ} {ts : Threads} {failed built : Bool} {m : Main}
      → Loop running ts failed built m
      → Loop running ts failed built (woken m)
  Loop-wakes {m = m} h = record {
    counted = h.counted;
    bounded = h.bounded;
    waits = λ e n. absurd (not_waiting m e);
    leaves = λ b. h.leaves (Behind-woken m b);
    returns = λ e. h.returns (woken-left m e);
  }

  Decided-grows :
      {failed failed' built built' : Bool}
      → (failed ≡ true → failed' ≡ true)
      → (built ≡ true → built' ≡ true)
      → Decided failed built
      → Decided failed' built'
  Decided-grows f b (inl e) = inl (f e)
  Decided-grows f b (inr e) = inr (b e)

  pub Loop-grows :
      {running : ℕ} {ts : Threads} {failed failed' built built' : Bool} {m : Main}
      → Loop running ts failed built m
      → (failed ≡ true → failed' ≡ true)
      → (built ≡ true → built' ≡ true)
      → Loop running ts failed' built' m
  Loop-grows {running} {ts} {failed} {failed'} {built} {built'} {m} h f b = record {
    counted = h.counted;
    bounded = h.bounded;
    waits = λ e n. elim (h.waits e n) [ inl d ↦ inl (Decided-grows f b d) | inr k ↦ inr k ];
    leaves = λ k. Decided-grows f b (h.leaves k);
    returns = λ e. b (h.returns e);
  }

  pub Loop-goes :
      {running : ℕ} {failed built : Bool} {m : Main} (xs : Threads) (x y : ℕ × ThreadAt)
      (ys : Threads)
      → Loop running (xs ++ x ∷ ys) failed built m
      → Loop running (xs ++ y ∷ ys) failed built m
  Loop-goes xs x y ys h = record {
    counted = h.counted ∙ (length-middle xs x ys ∙ sym (length-middle xs y ys));
    bounded = h.bounded;
    waits = λ e n. absurd (append-not_nil xs y ys n);
    leaves = h.leaves;
    returns = h.returns;
  }

  pub Loop-ends :
      {running : ℕ} {failed built : Bool} {m : Main} (xs : Threads) (x : ℕ × ThreadAt)
      (ys : Threads)
      → Loop running (xs ++ x ∷ ys) failed built m
      → Loop (running - 1) (xs ++ ys) failed built (woken m)
  Loop-ends {m = m} xs x ys h = record {
    counted = omega (arith, h.counted, length-middle xs x ys);
    bounded = λ l e. omega (arith, h.bounded l e);
    waits = λ e n. absurd (not_waiting m e);
    leaves = λ b. h.leaves (Behind-woken m b);
    returns = λ e. h.returns (woken-left m e);
  }

  -- A change of place within what has been decided.
  pub Loop-place :
      {running : ℕ} {ts : Threads} {failed built : Bool} {m : Main} (n : Main)
      → Loop running ts failed built m
      → (n ≡ waiting → ts ≡ [] → Decided failed built ⊎ IsNegative limit)
      → (Behind n → Decided failed built)
      → (n ≡ left true → built ≡ true)
      → Loop running ts failed built n
  Loop-place n h w l r = record {
    counted = h.counted;
    bounded = h.bounded;
    waits = w;
    leaves = l;
    returns = r;
  }

  pub Loop-starts :
      {running : ℕ} {ts : Threads} {failed built : Bool} {m : Main} (x : ℕ × ThreadAt)
      → has_room limit running ≡ true
      → Loop running ts failed built m
      → Loop (suc running) (x ∷ ts) failed built checking
  unfolding has_room
  Loop-starts {running} x room h = record {
    counted = ap suc h.counted;
    bounded = λ l e. fits limit l room e;
    waits = λ e n. cc;
    leaves = λ b. absurd b;
    returns = λ e. cc;
  }
    where
      fits : (i : ℤ) (l : ℕ) → has_room i running ≡ true → i ≡ pos (suc l) → suc running ≤ suc l
      fits (pos zero) l r e = cc
      fits (pos (suc k)) l r e = ground arith
      fits (negsuc k) l r e = cc

  -- With no threads there is room, unless the limit is negative.
  pub has_room_lem : has_room limit 0 ≡ false → IsNegative limit
  unfolding has_room
  has_room_lem e = room limit e
    where
      room : (i : ℤ) → has_room i 0 ≡ false → IsNegative i
      room (pos zero) r = cc
      room (pos (suc k)) r = ground arith
      room (negsuc k) r = tt

  module _ (keep_going : Bool) where
    -- The test of the loop.
    pub Loop-checks :
        {running : ℕ} {ts : Threads} {failed built : Bool} {m : Main}
        → Loop running ts failed built m
        → Loop running ts failed built (
            if not failed && not built
            then entering
            else if keep_going
            then draining
            else left (not failed))
    Loop-checks {failed = true} h = off keep_going h
      where
        off :
            {running : ℕ} {ts : Threads} {built : Bool} {m : Main} (k : Bool)
            → Loop running ts true built m
            → Loop running ts true built (if k then draining else left false)
        off true h' = Loop-place draining h' (λ e n. cc) (λ b. inl refl) (λ e. cc)
        off false h' = Loop-place (left false) h' (λ e n. cc) (λ b. inl refl) (λ e. cc)
    Loop-checks {failed = false} {built = true} h = off keep_going h
      where
        off :
            {running : ℕ} {ts : Threads} {m : Main} (k : Bool)
            → Loop running ts false true m
            → Loop running ts false true (if k then draining else left true)
        off true h' = Loop-place draining h' (λ e n. cc) (λ b. inr refl) (λ e. cc)
        off false h' = Loop-place (left true) h' (λ e n. cc) (λ b. inr refl) (λ e. refl)
    Loop-checks {failed = false} {built = false} h =
        Loop-place entering h (λ e n. cc) (λ b. absurd b) (λ e. cc)

  -- The test of the loop of `--keep-going`.
  pub Loop-drains :
      {running : ℕ} {ts : Threads} {failed built : Bool} (c : Bool)
      → Loop running ts failed built draining
      → Loop running ts failed built (if c then sleeping else left (not failed))
  Loop-drains true h = Loop-place sleeping h (λ e n. cc) (λ b. h.leaves tt) (λ e. cc)
  Loop-drains {failed = failed} {built} false h =
      Loop-place (left (not failed)) h (λ e n. cc) (λ b. h.leaves tt)
        (λ e. won failed (h.leaves tt) e)
    where
      won : (f : Bool) → Decided f built → left (not f) ≡ left true → built ≡ true
      won true d e = cc
      won false (inl x) e = cc
      won false (inr x) e = x
