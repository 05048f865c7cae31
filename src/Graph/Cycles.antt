-- ===== src/Graph/Cycles.antt =====
-- Dependency loops, and what the search for back edges tells of them.
use buildsyspp.Shared.{
  ℕ, ◌<◌, ◌≡◌, refl, Bool, true, false, ◌⊎◌, inl, inr, List, [], ◌∷◌, ◌++◌, map, In, first, later,
  In-append, In-append_left, In-append_right, member, member-In, subst, sym, Bool-cases,
  if◌then◌else◌,
}
use buildsyspp.Model.{PackageDepend, Package}
use buildsyspp.Depends.{targets, Depends}
use buildsyspp.Depends.Reached.{Reaches, direct, onward, Reaches-trans}
use buildsyspp.Graph.{Edges, fill, fill_nodes, fill_edges, put, put_ends, get_cycled_packages}
use buildsyspp.Graph.Next.{In-fill_nodes, In-fill_edges, In-fill_edges_one}

-- A way along the edges, from the first package to the second.
pub data Way (edges : Edges) : ℕ → ℕ → Type 0 where
  stays : {a : ℕ} → Way edges a a
  leads : {a b c : ℕ} → In (a, b) edges → Way edges b c → Way edges a c

-- A back edge is an edge of the graph, to a vertex from which there is a way back.
pub record IsBack (back_edges : List ℕ → Edges → Edges) : Type 0 where
  pub edge :
      (nodes : List ℕ) (edges : Edges) (a b : ℕ)
      → In (a, b) (back_edges nodes edges)
      → In (a, b) edges
  pub back :
      (nodes : List ℕ) (edges : Edges) (a b : ℕ)
      → In (a, b) (back_edges nodes edges)
      → Way edges b a

-- A graph in which the search comes to no back edge has no loop: it has a rank that goes down along
-- its edges.
pub record IsSearch (back_edges : List ℕ → Edges → Edges) : Type 0 where
  pub ranks :
      (nodes : List ℕ) (edges : Edges)
      → ((a b : ℕ) → In (a, b) edges → In a nodes × In b nodes)
      → back_edges nodes edges ≡ []
      → (rank : ℕ → ℕ) × ((a b : ℕ) → In (a, b) edges → rank b < rank a)

In-one : {q p : ℕ} → In q (p ∷ []) → q ≡ p
In-one first = refl
In-one (later m) = elim m [ ]

abbrev put_by : Bool → ℕ → List ℕ → List ℕ
put_by there p ps = if there then ps else ps ++ p ∷ []

In-put_by : (there : Bool) (p q : ℕ) (ps : List ℕ) → In q (put_by there p ps) → In q ps ⊎ (q ≡ p)
In-put_by true p q ps m = inl m
In-put_by false p q ps m = elim (In-append ps m) [ inl k ↦ inl k | inr k ↦ inr (In-one k) ]

In-put : (p q : ℕ) (ps : List ℕ) → In q (put p ps) → In q ps ⊎ (q ≡ p)
In-put p q ps = In-put_by (member p ps) p q ps

put-keeps : (p q : ℕ) (ps : List ℕ) → In q ps → In q (put p ps)
put-keeps p q ps m = elim (Bool-cases (member p ps)) [
  | inl e ↦ rw e m
  | inr e ↦ rw e (In-append_left (p ∷ []) m)
]

put-takes : (p : ℕ) (ps : List ℕ) → In p (put p ps)
put-takes p ps = elim (Bool-cases (member p ps)) [
  | inl e ↦ rw e (member-In p ps e)
  | inr e ↦ rw e (In-append_right ps first)
]

put_ends-keeps : (ps : List ℕ) (es : Edges) (q : ℕ) → In q ps → In q (put_ends ps es)
unfolding put_ends
put_ends-keeps ps [] q m = m
put_ends-keeps ps ((a, b) ∷ es) q m =
    put_ends-keeps (put b (put a ps)) es q (put-keeps b q (put a ps) (put-keeps a q ps m))

In-put_ends :
    (ps : List ℕ) (es : Edges) (q : ℕ)
    → In q (put_ends ps es)
    → In q ps ⊎ ((a : ℕ) × (b : ℕ) × In (a, b) es × ((q ≡ a) ⊎ (q ≡ b)))
unfolding put_ends
In-put_ends ps [] q m = inl m
In-put_ends ps ((a, b) ∷ es) q m = elim (In-put_ends (put b (put a ps)) es q m) [
  | inr (x, y, k, e) ↦ inr (x, y, later k, e)
  | inl k ↦ elim (In-put b q (put a ps) k) [
    | inr e ↦ inr (a, b, first, inr e)
    | inl l ↦ elim (In-put a q ps l) [ inr e ↦ inr (a, b, first, inl e) | inl n ↦ inl n ]
  ]
]

put_ends-nil : (ps : List ℕ) (es : Edges) → put_ends ps es ≡ [] → es ≡ []
unfolding put_ends
put_ends-nil ps [] e = refl
put_ends-nil ps ((a, b) ∷ es) e =
    elim (subst (In a) e
      (put_ends-keeps (put b (put a ps)) es a (put-keeps b a (put a ps) (put-takes a ps)))) [ ]

module _ (sort : List ℕ → Edges → List ℕ) (pkgs : ℕ → Package) where
  In-edges_one :
      (p e : ℕ) (ds : List PackageDepend) (rest : Edges)
      → In e (targets ds)
      → In (p, e) (map (λ d. (p, d.target)) ds ++ rest)
  In-edges_one p e [] rest m = elim m [ ]
  In-edges_one p e (d ∷ ds) rest first = first
  In-edges_one p e (d ∷ ds) rest (later m) = later (In-edges_one p e ds rest m)

  -- A dependency of a package in the list is an edge of the graph.
  pub fill_edges-In :
      (p e : ℕ) (ps : List ℕ) → In p ps → Depends pkgs p e → In (p, e) (fill_edges sort pkgs ps)
  unfolding fill_edges
  fill_edges-In p e ps (first {xs = xs}) d = In-edges_one p e (pkgs p).depends _ d
  fill_edges-In p e ps (later {x = x} {xs = xs} m) d =
      In-append_right (map (λ d. (x, d.target)) (pkgs x).depends) (fill_edges-In p e xs m d)

  fill_edges-from : (ps : List ℕ) (a b : ℕ) → In (a, b) (fill_edges sort pkgs ps) → In a ps
  unfolding fill_edges
  fill_edges-from [] a b m = elim m [ ]
  fill_edges-from (p ∷ ps) a b m = elim (In-fill_edges_one sort pkgs p (pkgs p).depends _ a b m) [
    | inl (e, k) ↦ subst (λ x. In x (p ∷ ps)) (sym e) first
    | inr k ↦ later (fill_edges-from ps a b k)
  ]

  along-Reaches :
      (ps : List ℕ) (a b c : ℕ)
      → Depends pkgs a b
      → Way (fill_edges sort pkgs ps) b c
      → Reaches pkgs (λ q. true) a c
  along-Reaches ps a b c d stays = direct d
  along-Reaches ps a b c d (leads {b = x} m w) =
      Reaches-trans pkgs (λ q. true) d refl
        (along-Reaches ps b x c (In-fill_edges sort pkgs ps b x m) w)

  back-Reaches :
      (ps : List ℕ) (a b : ℕ)
      → Depends pkgs a b
      → Way (fill_edges sort pkgs ps) b a
      → Reaches pkgs (λ q. true) b b
  back-Reaches ps a b d stays = direct d
  back-Reaches ps a b d (leads {b = x} m w) =
      onward (along-Reaches ps b x a (In-fill_edges sort pkgs ps b x m) w) refl d

  module _ (back_edges : List ℕ → Edges → Edges) (all : List ℕ) where
    abbrev nodes : List ℕ
    nodes = fill_nodes all []

    abbrev edges : Edges
    edges = fill_edges sort pkgs all

    abbrev cycled : List ℕ
    cycled = get_cycled_packages back_edges (fill sort pkgs all)

    -- Every package that is said to be in a dependency loop reaches itself by dependencies.
    pub get_cycled_packages-Reaches :
        (p : ℕ) → IsBack back_edges → In p cycled → Reaches pkgs (λ q. true) p p
    unfolding get_cycled_packages fill
    get_cycled_packages-Reaches p k m = elim (In-put_ends [] (back_edges nodes edges) p m) [
      | inl n ↦ elim n [ ]
      | inr (a, b, n, e) ↦
          let d = In-fill_edges sort pkgs all a b (k.edge nodes edges a b n) in
          let w = k.back nodes edges a b n in
          elim e [
            | inl here ↦
                subst (λ x. Reaches pkgs (λ q. true) x x) (sym here) (along-Reaches all a b a d w)
            | inr there ↦
                subst (λ x. Reaches pkgs (λ q. true) x x) (sym there) (back-Reaches all a b d w)
          ]
    ]

    -- Where none is said to be in a loop, there is a rank of the packages.
    pub get_cycled_packages-ranks :
        IsSearch back_edges
        → ((p e : ℕ) → In p all → Depends pkgs p e → In e all)
        → cycled ≡ []
        → (rank : ℕ → ℕ) × ((p e : ℕ) → In p all → Depends pkgs p e → rank e < rank p)
    unfolding get_cycled_packages fill
    get_cycled_packages-ranks k closed none =
        let r =
          k.ranks nodes edges
            (λ a b m. (
              In-fill_nodes all [] a (inl (fill_edges-from all a b m)),
              In-fill_nodes all [] b (
                  inl (closed a b (fill_edges-from all a b m) (In-fill_edges sort pkgs all a b m))),
            ))
            (put_ends-nil [] (back_edges nodes edges) none) in
        (r.0, λ p e m d. r.1 p e (fill_edges-In p e all m d))
