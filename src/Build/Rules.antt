-- ===== src/Build/Rules.antt =====
-- What is known of the packages that are built, along an action: one rule for each way in which
-- actions are put together.
use buildsyspp.Shared.{
  ℕ, ◌≡◌, ◌≢◌, refl, sym, subst, ◌==◌, ==_iff, Bool, true, false, Bool-cases, ◌⊎◌, inl, inr,
  if◌then◌else◌,
}
use buildsyspp.Host.{Host}
use buildsyspp.Effects.{Outcome, ok, throws, exhausted, pure, modify, ◌>>=◌}
use buildsyspp.Effects.Quiet.{IsQuiet}
use buildsyspp.Model.{Package, Progress, Sys, update, set_progress}
use buildsyspp.Depends.{Depends}
use buildsyspp.Files.Calls.{Act, seen}
use buildsyspp.Fetch.Steps.{Marks, marks}

module _ (pkgs : ℕ → Package) where
  -- A built package has its dependencies built, and one that was built here is built. The packages
  -- in `K` are built.
  pub record Known (K : ℕ → Type 0) (m : ℕ → Marks) : Type 0 where
    pub closed : (q : ℕ) → (m q).built ≡ true → (e : ℕ) → Depends pkgs q e → (m e).built ≡ true
    pub local : (q : ℕ) → (m q).was_built ≡ true → (m q).built ≡ true
    pub known : (e : ℕ) → K e → (m e).built ≡ true

  module _ (h : Host) where
    abbrev pub now : Sys h → ℕ → Marks
    now = seen h marks

    -- The action ends, keeps what is known, and if it returns `a`, then the packages in `C a` are
    -- built.
    abbrev pub Ends : {A : Type 0} → (ℕ → Type 0) → (A → ℕ → Type 0) → Outcome A × Sys h → Type 0
    Ends K C (ok a, t) = Known K (now t) × ((e : ℕ) → C a e → (now t e).built ≡ true)
    Ends K C (throws x, t) = Known K (now t)
    Ends K C (exhausted, t) = ⊥

    pub record Builds {A : Type 0} (K : ℕ → Type 0) (m : Act h A) (C : A → ℕ → Type 0)
        : Type 0 where
      pub run : (s : Sys h) → Known K (now s) → Ends K C (m s)

    abbrev pub Both : (ℕ → Type 0) → (ℕ → Type 0) → ℕ → Type 0
    Both K D e = K e ⊎ D e

    widen :
        {K D : ℕ → Type 0} {m : ℕ → Marks}
        → Known K m
        → ((e : ℕ) → D e → (m e).built ≡ true)
        → Known (Both K D) m
    widen k d = record {
      closed = k.closed;
      local = k.local;
      known = λ e. elim [ inl l ↦ k.known e l | inr r ↦ d e r ];
    }

    narrow : {K D : ℕ → Type 0} {m : ℕ → Marks} → Known (Both K D) m → Known K m
    narrow k = record { closed = k.closed; local = k.local; known = λ e l. k.known e (inl l) }

    pub Builds-bind :
        {A B : Type 0} {K : ℕ → Type 0} (m : Act h A) (f : A → Act h B) (C : A → ℕ → Type 0)
        (D : B → ℕ → Type 0)
        → Builds K m C
        → ((a : A) → Builds (Both K (C a)) (f a) D)
        → Builds K (m >>= f) D
    unfolding ◌>>=◌
    Builds-bind {A} {B} {K} m f C D hm hf = record { run = λ s k. next (m s) (hm.run s k) }
      where
        after : (a : A) (r : Outcome B × Sys h) → Ends (Both K (C a)) D r → Ends K D r
        after a (ok b, t) e = (narrow e.0, e.1)
        after a (throws x, t) e = narrow e
        after a (exhausted, t) e = e

        next : (r : Outcome A × Sys h) → Ends K C r → Ends K D (((λ (_ : Sys h). r) >>= f) r.1)
        next (ok a, t) e = after a (f a t) ((hf a).run t (widen e.0 e.1))
        next (throws x, t) e = e
        next (exhausted, t) e = e

    pub Builds-pure :
        {A : Type 0} {K : ℕ → Type 0} (a : A) (C : A → ℕ → Type 0)
        → ((e : ℕ) → C a e → K e)
        → Builds K (pure a) C
    unfolding pure
    Builds-pure a C part = record { run = λ s k. (k, λ e c. k.known e (part e c)) }

    pub Builds-if :
        {A : Type 0} {K : ℕ → Type 0} {C : A → ℕ → Type 0} (b : Bool) (m n : Act h A)
        → (b ≡ true → Builds K m C)
        → (b ≡ false → Builds K n C)
        → Builds K (if b then m else n) C
    Builds-if true m n hm hn = hm refl
    Builds-if false m n hm hn = hn refl

    -- A quiet action changes nothing that is known.
    pub Builds-quiet :
        {A : Type 0} {K : ℕ → Type 0} (m : Act h A) (C : A → ℕ → Type 0)
        → IsQuiet (seen h marks) m
        → ((a : A) (e : ℕ) → C a e → K e)
        → Builds K m C
    Builds-quiet {A} {K} m C quiet part = record {
      run = λ s k. ending s (m s) (quiet.ends s) (quiet.same s) k;
    }
      where
        ending :
            (s : Sys h) (r : Outcome A × Sys h)
            → r.0 ≢ exhausted
            → now r.1 ≡ now s
            → Known K (now s)
            → Ends K C r
        ending s (ok a, t) n e k =
            let l = subst (Known K) (sym e) k in (l, λ x c. l.known x (part a x c))
        ending s (throws x, t) n e k = subst (Known K) (sym e) k
        ending s (exhausted, t) n e k = n refl

    -- What follows from what is known before and after is known after.
    pub Builds-map :
        {A : Type 0} {K : ℕ → Type 0} (m : Act h A) (C D : A → ℕ → Type 0)
        → Builds K m C
        → ((a : A) (e : ℕ) → D a e → K e ⊎ C a e)
        → Builds K m D
    Builds-map {A} {K} m C D hm part = record { run = λ s k. ending (m s) (hm.run s k) }
      where
        ending : (r : Outcome A × Sys h) → Ends K C r → Ends K D r
        ending (ok a, t) e = (e.0, λ x d. (widen e.0 e.1).known x (part a x d))
        ending (throws x, t) e = e
        ending (exhausted, t) e = e

    -- Marking a package as built, when its dependencies are known to be.
    pub Builds-set :
        {K : ℕ → Type 0} (q : ℕ) (f : Progress → Progress)
        → ((r : Progress) → (f r).built ≡ true)
        → ((e : ℕ) → Depends pkgs q e → K e)
        → Builds K (set_progress h q f) (λ _ e. e ≡ q)
    unfolding set_progress modify
    Builds-set {K} q f sets deps = record { run = λ s k. (kept s k, λ e same. here s e same) }
      where
        after : Sys h → ℕ → Marks
        after s = marks (update s.progress q (f (s.progress q)))

        here : (s : Sys h) (e : ℕ) → e ≡ q → (after s e).built ≡ true
        here s e same = elim (Bool-cases (e == q)) [
          | inl yes' ↦ rw yes' (sets (s.progress q))
          | inr no' ↦ absurd (differs no' ((==_iff e q).1 same))
        ]
          where
            differs : (e == q) ≡ false → (e == q) ≡ true → ⊥
            differs a b = cc

        grows : (s : Sys h) (e : ℕ) → (now s e).built ≡ true → (after s e).built ≡ true
        grows s e old = elim (Bool-cases (e == q)) [
          | inl yes' ↦ rw yes' (sets (s.progress q))
          | inr no' ↦ rw no' old
        ]

        kept : (s : Sys h) → Known K (now s) → Known K (after s)
        kept s k = record {
          closed = λ x b e dep. elim (Bool-cases (x == q)) [
            | inl yes' ↦
                grows s e
                  (k.known e (deps e (subst (λ y. Depends pkgs y e) ((==_iff x q).0 yes') dep)))
            | inr no' ↦ grows s e (k.closed x (rw no' at b) e dep)
          ];
          local = λ x w. elim (Bool-cases (x == q)) [
            | inl yes' ↦ here s x ((==_iff x q).0 yes')
            | inr no' ↦ rw no' (k.local x (rw no' at w))
          ];
          known = λ e l. grows s e (k.known e l);
        }
