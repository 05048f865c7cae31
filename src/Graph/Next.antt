-- ===== src/Graph/Next.antt =====
-- The graph's lists through its operations, and the choice of the next package.
use buildsyspp.Shared.{
  ℕ, ◌≡◌, refl, subst, sym, true, false, ◌||◌, Bool-cases, ◌⊎◌, inl, inr, Option, none, some, List,
  [], ◌∷◌, ◌++◌, map, member, member-In, ◌==◌, arith, In, first, later, In-append_left,
  In-append_right, In-cons,
}
use buildsyspp.Model.{PackageDepend, Package, Progress}
use buildsyspp.Depends.{targets, all_built, can_build, Depends}
use buildsyspp.Graph.{
  Edges, Graph, clear_vertex, fill_nodes, fill_edges, is_next, last_next, topo_next,
}

pub In-fill_nodes : (ps nodes : List ℕ) (p : ℕ) → In p ps ⊎ In p nodes → In p (fill_nodes ps nodes)
unfolding fill_nodes
In-fill_nodes [] nodes p (inl m) = elim m [ ]
In-fill_nodes [] nodes p (inr m) = m
In-fill_nodes (x ∷ ps) nodes p h = elim (Bool-cases (member x nodes)) [
  | inl e ↦ rw e (In-fill_nodes ps nodes p (old e h))
  | inr e ↦ rw e (In-fill_nodes ps (nodes ++ x ∷ []) p (new h))
]
  where
    old : {y : ℕ} → member y nodes ≡ true → In p (y ∷ ps) ⊎ In p nodes → In p ps ⊎ In p nodes
    old e (inl first) = inr (member-In p nodes e)
    old e (inl (later m)) = inl m
    old e (inr m) = inr m

    new : {y : ℕ} → In p (y ∷ ps) ⊎ In p nodes → In p ps ⊎ In p (nodes ++ y ∷ [])
    new (inl first) = inr (In-append_right nodes first)
    new (inl (later m)) = inl m
    new (inr m) = inr (In-append_left _ m)

pub In-clear_vertex : (q : ℕ) (z : ℕ × ℕ) (es : Edges) → In z (clear_vertex q es) → In z es
unfolding clear_vertex
In-clear_vertex q z [] m = m
In-clear_vertex q z ((x, y) ∷ es) m = elim (Bool-cases (x == q || y == q)) [
  | inl e ↦ later (In-clear_vertex q z es (rw (e, clear_vertex) at m))
  | inr e ↦ In-cons (In-clear_vertex q z es) (rw (e, clear_vertex) at m)
]

pub all_built-In :
    (progress : ℕ → Progress) (ds : List PackageDepend)
    → all_built progress ds ≡ true
    → (e : ℕ) → In e (targets ds)
    → (progress e).built ≡ true
all_built-In progress [] h e m = elim m [ ]
all_built-In progress (d ∷ ds) h e first = ground arith
all_built-In progress (d ∷ ds) h e (later m) = all_built-In progress ds (ground arith) e m

pub all_built-cases :
    (progress : ℕ → Progress) (ds : List PackageDepend)
    → (all_built progress ds ≡ true) ⊎ ((e : ℕ) × In e (targets ds) × ((progress e).built ≡ false))
all_built-cases progress [] = inl refl
all_built-cases progress (d ∷ ds) = elim (Bool-cases (progress d.target).built) [
  | inl b ↦ elim (all_built-cases progress ds) [
    | inl r ↦ inl (rw b r)
    | inr (e, m, u) ↦ inr (e, later m, u)
  ]
  | inr b ↦ inr (d.target, first, b)
]

some_injective : {A : Type 0} {x y : A} → ◌≡◌ {A = Option A} (some x) (some y) → x ≡ y
some_injective e = cc

module _ (sort : List ℕ → Edges → List ℕ) (pkgs : ℕ → Package) where
  pub In-fill_edges_one :
      (p : ℕ) (ds : List PackageDepend) (rest : Edges) (a b : ℕ)
      → In (a, b) (map (λ d. (p, d.target)) ds ++ rest)
      → ((a ≡ p) × In b (targets ds)) ⊎ In (a, b) rest
  In-fill_edges_one p [] rest a b m = inr m
  In-fill_edges_one p (d ∷ ds) rest a b first = inl (refl, first)
  In-fill_edges_one p (d ∷ ds) rest a b (later m) = elim (In-fill_edges_one p ds rest a b m) [
    | inl (e, k) ↦ inl (e, later k)
    | inr k ↦ inr k
  ]

  -- An edge of the graph is a dependency.
  pub In-fill_edges :
      (ps : List ℕ) (a b : ℕ) → In (a, b) (fill_edges sort pkgs ps) → Depends pkgs a b
  unfolding fill_edges
  In-fill_edges [] a b m = elim m [ ]
  In-fill_edges (p ∷ ps) a b m = elim (In-fill_edges_one p (pkgs p).depends _ a b m) [
    | inl (e, k) ↦ subst (λ x. Depends pkgs x b) (sym e) k
    | inr k ↦ In-fill_edges ps a b k
  ]

  abbrev pub Next : (ℕ → Progress) → ℕ → Type 0
  Next r p = is_next sort pkgs r p ≡ true

  pub is_next-true :
      (r : ℕ → Progress) (p : ℕ)
      → is_next sort pkgs r p ≡ true
      → ((r p).built ≡ false)
        × ((r p).building ≡ false)
        × ((e : ℕ) → Depends pkgs p e → (r e).built ≡ true)
  unfolding is_next can_build
  is_next-true r p k =
      (ground arith, ground arith, λ e d. all_built-In r (pkgs p).depends (ground arith) e d)

  is_next-false :
      (r : ℕ → Progress) (p : ℕ)
      → is_next sort pkgs r p ≡ false
      → (((r p).built ≡ true) ⊎ ((r p).building ≡ true))
        ⊎ ((e : ℕ) × Depends pkgs p e × ((r e).built ≡ false))
  unfolding is_next can_build
  is_next-false r p k = elim (all_built-cases r (pkgs p).depends) [
    | inl all ↦ inl (ground arith)
    | inr u ↦ inr u
  ]

  pub last_next-some :
      (r : ℕ → Progress) (n : Option ℕ) (ps : List ℕ) (p : ℕ)
      → last_next sort pkgs r n ps ≡ some p
      → (n ≡ some p) ⊎ (In p ps × Next r p)
  unfolding last_next
  last_next-some r n [] p e = inl e
  last_next-some r n (q ∷ ps) p e = elim (Bool-cases (is_next sort pkgs r q)) [
    | inl yes' ↦ elim (last_next-some r (some q) ps p (rw yes' at e)) [
      | inl s ↦ inr (found s yes')
      | inr (m, k) ↦ inr (later m, k)
    ]
    | inr no' ↦ elim (last_next-some r n ps p (rw no' at e)) [
      | inl s ↦ inl s
      | inr (m, k) ↦ inr (later m, k)
    ]
  ]
    where
      found :
          {y : ℕ} {ys : List ℕ}
          → ◌≡◌ {A = Option ℕ} (some y) (some p)
          → is_next sort pkgs r y ≡ true
          → In p (y ∷ ys) × Next r p
      found {y} {ys} s k =
          let same = some_injective s in
          (subst (λ x. In p (x ∷ ys)) (sym same) first, subst (Next r) same k)

  pub last_next-none :
      (r : ℕ → Progress) (n : Option ℕ) (ps : List ℕ)
      → last_next sort pkgs r n ps ≡ none
      → (n ≡ none) × ((p : ℕ) → In p ps → is_next sort pkgs r p ≡ false)
  unfolding last_next
  last_next-none r n [] e = (e, λ p m. elim m [ ])
  last_next-none r n (q ∷ ps) e = elim (Bool-cases (is_next sort pkgs r q)) [
    | inl yes' ↦ absurd (not_none (last_next-none r (some q) ps (rw yes' at e)).0)
    | inr no' ↦ let rest = last_next-none r n ps (rw no' at e) in (rest.0, both no' rest.1)
  ]
    where
      not_none : {y : ℕ} → ◌≡◌ {A = Option ℕ} (some y) none → ⊥
      not_none s = cc

      both :
          {y : ℕ} {ys : List ℕ}
          → is_next sort pkgs r y ≡ false
          → ((p : ℕ) → In p ys → is_next sort pkgs r p ≡ false)
          → (p : ℕ) → In p (y ∷ ys)
          → is_next sort pkgs r p ≡ false
      both f g p first = f
      both f g p (later m) = g p m

  -- `topoNext` gives a package of the order that is not built, is not being built, and whose
  -- dependencies are built; it gives none only if the order has no such package.
  pub topo_next_lem :
      (r : ℕ → Progress) (g : Graph)
      → ((p : ℕ)
          → topo_next sort pkgs r g ≡ some p
          → In p g.c
            × ((r p).built ≡ false)
            × ((r p).building ≡ false)
            × ((e : ℕ) → Depends pkgs p e → (r e).built ≡ true))
        × (topo_next sort pkgs r g ≡ none
            → (p : ℕ) → In p g.c
            → (((r p).built ≡ true) ⊎ ((r p).building ≡ true))
              ⊎ ((e : ℕ) × Depends pkgs p e × ((r e).built ≡ false)))
  unfolding topo_next
  topo_next_lem r g = (
    λ p e. chosen p (last_next-some r none g.c p e),
    λ e p m. passed p ((last_next-none r none g.c e).1 p m),
  )
    where
      chosen :
          (p : ℕ)
          → (none ≡ some p) ⊎ (In p g.c × Next r p)
          → In p g.c
            × ((r p).built ≡ false)
            × ((r p).building ≡ false)
            × ((e : ℕ) → Depends pkgs p e → (r e).built ≡ true)
      chosen p (inl e) = cc
      chosen p (inr (m, k)) = let t = is_next-true r p k in (m, t.0, t.1, t.2)

      passed :
          (p : ℕ)
          → is_next sort pkgs r p ≡ false
          → (((r p).built ≡ true) ⊎ ((r p).building ≡ true))
            ⊎ ((e : ℕ) × Depends pkgs p e × ((r e).built ≡ false))
      passed p k = is_next-false r p k
