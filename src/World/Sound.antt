-- ===== src/World/Sound.antt =====
-- What the flags of the packages and the build threads have to do with each other, through the
-- changes that the steps make.
use buildsyspp.Shared.{
  ℕ, zero, suc, ◌<◌, ◌≡◌, refl, sym, ap, subst, Bool, true, false, Bool-cases, ◌⊎◌, inl, inr, List,
  [], ◌∷◌, ◌++◌, ◌==◌, ==_iff, arith, In, first, later, In-append, In-append_left, In-append_right,
}
use buildsyspp.Model.{Package, Progress, update}
use buildsyspp.Depends.{can_build, Depends, IsRanked}
use buildsyspp.Depends.Reached.{Reaches, direct, Reaches-trans}
use buildsyspp.Graph.Next.{all_built-In, all_built-cases}
use buildsyspp.Graph.{Edges, is_next}
use buildsyspp.World.{ThreadAt, working, cleared, succeeded, failing, ending, Threads}

abbrev pub is_active : ThreadAt → Bool
is_active working = true
is_active cleared = false
is_active succeeded = false
is_active failing = true
is_active ending = false

abbrev pub Active : ℕ → Threads → Type 0
Active p ts = (a : ThreadAt) × (is_active a ≡ true) × In (p, a) ts

-- One entry of a list for another.
pub In-swap :
    {A : Type 0} {z : A} (xs : List A) (x y : A) (ys : List A)
    → In z (xs ++ x ∷ ys)
    → In z (xs ++ y ∷ ys) ⊎ (z ≡ x)
In-swap {A} xs x y ys m = elim (In-append xs m) [
  | inl l ↦ inl (In-append_left _ l)
  | inr r ↦ behind r
]
  where
    behind : {z : A} → In z (x ∷ ys) → In z (xs ++ y ∷ ys) ⊎ (z ≡ x)
    behind first = inr refl
    behind (later k) = inl (In-append_right xs (later k))

pub In-middle : {A : Type 0} (xs : List A) (x : A) (ys : List A) → In x (xs ++ x ∷ ys)
In-middle xs x ys = In-append_right xs first

pub started_built :
    (r : ℕ → Progress) (p q : ℕ)
    → (r q).built ≡ true
    → (update r p (record (r p) { building = true }) q).built ≡ true
started_built r p q b = elim (Bool-cases (q == p)) [
  | inl e ↦ rw e (rw ((==_iff q p).0 e) at b)
  | inr e ↦ rw e b
]

module _ (pkgs : ℕ → Package) where
  pub record Sound (r : ℕ → Progress) (ts : Threads) (failed : Bool) : Type 0 where
    pub closed : (q : ℕ) → (r q).built ≡ true → (e : ℕ) → Depends pkgs q e → (r e).built ≡ true
    pub ready :
        (p : ℕ) (a : ThreadAt) → In (p, a) ts → (e : ℕ) → Depends pkgs p e → (r e).built ≡ true
    pub owned :
        (p : ℕ) → (r p).building ≡ true → ((r p).built ≡ true) ⊎ (Active p ts ⊎ (failed ≡ true))

  -- A change of flags: what was built stays so, what is new is built when it may be, and nothing
  -- begins to be built.
  pub record Changes (r s : ℕ → Progress) (New : ℕ → Type 0) : Type 0 where
    pub grows : (q : ℕ) → (r q).built ≡ true → (s q).built ≡ true
    pub new : (q : ℕ) → (s q).built ≡ true → (r q).built ≡ true ⊎ New q
    pub old : (q : ℕ) → (s q).building ≡ true → (r q).building ≡ true

  pub Changes-none : (r : ℕ → Progress) (New : ℕ → Type 0) → Changes r r New
  Changes-none r New = record { grows = λ q b. b; new = λ q b. inl b; old = λ q b. b }

  pub Changes-cleared :
      (r : ℕ → Progress) (p : ℕ) (New : ℕ → Type 0)
      → Changes r (update r p (record (r p) { building = false })) New
  Changes-cleared r p New = record {
    grows = λ q b. elim (Bool-cases (q == p)) [
      | inl e ↦ rw e (rw ((==_iff q p).0 e) at b)
      | inr e ↦ rw e b
    ];
    new = λ q b. elim (Bool-cases (q == p)) [
      | inl e ↦ inl (rw ((==_iff q p).0 e) (rw e at b))
      | inr e ↦ inl (rw e at b)
    ];
    old = λ q b. ground arith;
  }

  pub Changes-built :
      (r : ℕ → Progress) (p : ℕ)
      → Changes r (update r p (record (r p) { built = true })) (λ q. q ≡ p)
  Changes-built r p = record {
    grows = λ q b. ground arith;
    new = λ q b. elim (Bool-cases (q == p)) [
      | inl e ↦ inr ((==_iff q p).0 e)
      | inr e ↦ inl (rw e at b)
    ];
    old = λ q b. elim (Bool-cases (q == p)) [
      | inl e ↦ rw ((==_iff q p).0 e) (rw e at b)
      | inr e ↦ rw e at b
    ];
  }

  -- A change that builds only what is built.
  pub Sound-changes :
      {r s : ℕ → Progress} {ts : Threads} {failed : Bool} {New : ℕ → Type 0}
      → Sound r ts failed
      → Changes r s New
      → ((q : ℕ) → New q → (r q).built ≡ true)
      → Sound s ts failed
  Sound-changes {r} {s} {ts} {failed} {New} h c known = record {
    closed = λ q b e d. c.grows e (h.closed q (before q (c.new q b)) e d);
    ready = λ p a m e d. c.grows e (h.ready p a m e d);
    owned = λ p b. elim (h.owned p (c.old p b)) [ inl t ↦ inl (c.grows p t) | inr t ↦ inr t ];
  }
    where
      before : (q : ℕ) → ((r q).built ≡ true) ⊎ New q → (r q).built ≡ true
      before q (inl b) = b
      before q (inr n) = known q n

  -- A thread goes from one place to another.
  pub Sound-goes :
      {r s : ℕ → Progress} {failed failed' : Bool} (xs : Threads) (p : ℕ) (a b : ThreadAt)
      (ys : Threads)
      → Sound r (xs ++ (p, a) ∷ ys) failed
      → Changes r s (λ q. q ≡ p)
      → (failed ≡ true → failed' ≡ true)
      → ((is_active a ≡ true)
          → (s p).building ≡ true
          → ((s p).built ≡ true) ⊎ ((is_active b ≡ true) ⊎ (failed' ≡ true)))
      → Sound s (xs ++ (p, b) ∷ ys) failed'
  Sound-goes {r} {s} {failed} {failed'} xs p a b ys h c fails keeps = record {
    closed = λ q t e d. c.grows e (elim (c.new q t) [
      | inl o ↦ h.closed q o e d
      | inr n ↦ h.ready p a (In-middle xs (p, a) ys) e (subst (λ x. Depends pkgs x e) n d)
    ]);
    ready = λ q k m e d. c.grows e (elim (In-swap {A = ℕ × ThreadAt} xs (p, b) (p, a) ys m) [
      | inl o ↦ h.ready q k o e d
      | inr n ↦
          h.ready p a (In-middle xs (p, a) ys) e (subst (λ x. Depends pkgs x e) (ap (λ z. z.0) n) d)
    ]);
    owned = λ q t. still q t (h.owned q (c.old q t));
  }
    where
      mine :
          (q : ℕ) (k : ThreadAt)
          → ◌≡◌ {A = ℕ × ThreadAt} (q, k) (p, a)
          → is_active k ≡ true
          → (s q).building ≡ true
          → ((s q).built ≡ true) ⊎ (Active q (xs ++ (p, b) ∷ ys) ⊎ (failed' ≡ true))
      mine q k n act t =
          elim (keeps (subst (λ z. is_active z ≡ true) (ap (λ z. z.1) n) act)
            (subst (λ z. (s z).building ≡ true) (ap (λ z. z.0) n) t)) [
              | inl u ↦ inl (subst (λ z. (s z).built ≡ true) (sym (ap (λ z. z.0) n)) u)
              | inr (inl u) ↦ inr (
                  inl (
                    subst (λ z. Active z (xs ++ (p, b) ∷ ys)) (sym (ap (λ z. z.0) n))
                      (b, u, In-middle xs (p, b) ys)))
              | inr (inr u) ↦ inr (inr u)
            ]

      still :
          (q : ℕ)
          → (s q).building ≡ true
          → ((r q).built ≡ true) ⊎ (Active q (xs ++ (p, a) ∷ ys) ⊎ (failed ≡ true))
          → ((s q).built ≡ true) ⊎ (Active q (xs ++ (p, b) ∷ ys) ⊎ (failed' ≡ true))
      still q t (inl u) = inl (c.grows q u)
      still q t (inr (inr u)) = inr (inr (fails u))
      still q t (inr (inl (k, act, m))) = elim (In-swap {A = ℕ × ThreadAt} xs (p, a) (p, b) ys m) [
        | inl o ↦ inr (inl (k, act, o))
        | inr n ↦ mine q k n act t
      ]

  -- A thread that is about to end goes away.
  pub Sound-ends :
      {r : ℕ → Progress} {failed : Bool} (xs : Threads) (p : ℕ) (ys : Threads)
      → Sound r (xs ++ (p, ending) ∷ ys) failed
      → Sound r (xs ++ ys) failed
  Sound-ends {r} {failed} xs p ys h = record {
    closed = h.closed;
    ready = λ q k m. h.ready q k (within m);
    owned = λ q t. elim (h.owned q t) [
      | inl u ↦ inl u
      | inr (inl (k, act, m)) ↦ inr (inl (k, act, other act m))
      | inr (inr u) ↦ inr (inr u)
    ];
  }
    where
      within : {z : ℕ × ThreadAt} → In z (xs ++ ys) → In z (xs ++ (p, ending) ∷ ys)
      within m = elim (In-append xs m) [
        | inl l ↦ In-append_left _ l
        | inr l ↦ In-append_right xs (later l)
      ]

      behind :
          {q : ℕ} {k : ThreadAt}
          → is_active k ≡ true
          → In (q, k) ((p, ending) ∷ ys)
          → In (q, k) (xs ++ ys)
      behind act first = cc
      behind act (later m) = In-append_right xs m

      other :
          {q : ℕ} {k : ThreadAt}
          → is_active k ≡ true
          → In (q, k) (xs ++ (p, ending) ∷ ys)
          → In (q, k) (xs ++ ys)
      other act m = elim (In-append xs m) [ inl l ↦ In-append_left _ l | inr l ↦ behind act l ]

  module _ (topological_sort : List ℕ → Edges → List ℕ) where
    abbrev pub next : (ℕ → Progress) → ℕ → Bool
    next = is_next topological_sort pkgs

    -- A package that is next gets a thread.
    pub Sound-starts :
        {r : ℕ → Progress} {ts : Threads} {failed : Bool} (p : ℕ)
        → Sound r ts failed
        → next r p ≡ true
        → Sound (update r p (record (r p) { building = true })) ((p, working) ∷ ts) failed
    unfolding is_next can_build
    Sound-starts {r} {ts} {failed} p h n = record {
      closed = λ q b e d. started_built r p e (h.closed q (ungrown q b) e d);
      ready = λ q a m e d. started_built r p e (needs q a m e d);
      owned = λ q t. elim (Bool-cases (q == p)) [
        | inl same ↦ inr (inl (working, refl, rw ((==_iff q p).0 same) first))
        | inr other ↦ elim (h.owned q (rw other at t)) [
          | inl b ↦ inl (started_built r p q b)
          | inr (inl (a, act, m)) ↦ inr (inl (a, act, later m))
          | inr (inr f) ↦ inr (inr f)
        ]
      ];
    }
      where
        ungrown :
            (q : ℕ)
            → (update r p (record (r p) { building = true }) q).built ≡ true
            → (r q).built ≡ true
        ungrown q b = elim (Bool-cases (q == p)) [
          | inl e ↦ rw ((==_iff q p).0 e) (rw e at b)
          | inr e ↦ rw e at b
        ]

        needs :
            (q : ℕ) (a : ThreadAt)
            → In (q, a) ((p, working) ∷ ts)
            → (e : ℕ) → Depends pkgs q e
            → (r e).built ≡ true
        needs q a first e d = all_built-In r (pkgs p).depends (ground arith) e d
        needs q a (later m) e d = h.ready q a m e d

    -- With no threads and no failure, a package that is not built needs one that is next.
    pub is_next_lem :
        (rank : ℕ → ℕ)
        → IsRanked pkgs rank
        → {r : ℕ → Progress} → Sound r [] false
        → (fuel q : ℕ) → rank q < fuel
        → (r q).built ≡ false
        → (p : ℕ) × (next r p ≡ true) × ((p ≡ q) ⊎ Reaches pkgs (λ d. true) q p)
    unfolding is_next can_build
    is_next_lem rank ranked h zero q enough u = absurd (omega arith)
    is_next_lem rank ranked {r} h (suc fuel) q enough u =
        elim (all_built-cases r (pkgs q).depends) [
          | inl all ↦ (q, rw (u, idle (Bool-cases (r q).building), all) refl, inl refl)
          | inr (e, m, v) ↦
              let (p, n, w) = is_next_lem rank ranked h fuel e (omega (arith, ranked q e m)) v in
              (p, n, inr (through m w))
        ]
      where
        idle : ((r q).building ≡ true) ⊎ ((r q).building ≡ false) → (r q).building ≡ false
        idle (inr no') = no'
        idle (inl t) = elim (h.owned q t) [
          | inl b ↦ cc
          | inr (inl (a, act, m)) ↦ elim m [ ]
          | inr (inr f) ↦ cc
        ]

        through :
            {e p : ℕ}
            → Depends pkgs q e
            → (p ≡ e) ⊎ Reaches pkgs (λ d. true) e p
            → Reaches pkgs (λ d. true) q p
        through m (inl same) = direct (subst (Depends pkgs q) (sym same) m)
        through m (inr w) = Reaches-trans pkgs (λ d. true) m refl w
