-- ===== src/Graph.antt =====
-- src/graph.cpp: Internal_Graph. A vertex is the package that it stands for, and the vertices and
-- the edges of a graph are lists. The graph library is a parameter: `topological_sort` gives the
-- vertices of a graph without a loop in its order, from the vertices and the edges.
pub mod Next
pub mod Cycles
use buildsyspp.Shared.{
  ℕ, ◌≡◌, Bool, true, false, not, ◌&&◌, ◌||◌, Option, none, some, List, [], ◌∷◌, ◌++◌, map, member,
  In, ◌==◌, if◌then◌else◌,
}
use buildsyspp.Model.{PackageDepend, Package, Progress}
use buildsyspp.Depends.{can_build}

abbrev pub Edges : Type 0
Edges = List (ℕ × ℕ)

pub record Graph : Type 0 where
  pub nodes : List ℕ
  pub edges : Edges
  pub c : List ℕ

-- The edges of the graph without those of one vertex.
unfoldable pub clear_vertex : ℕ → Edges → Edges
clear_vertex q [] = []
clear_vertex q ((a, b) ∷ es) =
    if a == q || b == q then clear_vertex q es else (a, b) ∷ clear_vertex q es

-- The first loop of `fill`: a vertex for each package that has none.
unfoldable pub fill_nodes : List ℕ → List ℕ → List ℕ
fill_nodes [] nodes = nodes
fill_nodes (p ∷ ps) nodes = fill_nodes ps (if member p nodes then nodes else nodes ++ p ∷ [])

-- `insert` of a set of packages.
abbrev pub put : ℕ → List ℕ → List ℕ
put p ps = if member p ps then ps else ps ++ p ∷ []

-- `back_edge` of the visitor, for each back edge: both packages are put into the set.
unfoldable pub put_ends : List ℕ → Edges → List ℕ
put_ends ps [] = ps
put_ends ps ((a, b) ∷ es) = put_ends (put b (put a ps)) es

-- Internal_Graph::get_cycled_packages. The search of the graph library is a parameter, the back
-- edges that it comes to.
unfoldable pub get_cycled_packages : (List ℕ → Edges → Edges) → Graph → List ℕ
unfolding put_ends
get_cycled_packages back_edges g = put_ends [] (back_edges g.nodes g.edges)

module _ (topological_sort : List ℕ → Edges → List ℕ) (pkgs : ℕ → Package) where
  -- The second loop: an edge from each package to each of its dependencies.
  unfoldable pub fill_edges : List ℕ → Edges
  fill_edges [] = []
  fill_edges (p ∷ ps) = map (λ d. (p, d.target)) (pkgs p).depends ++ fill_edges ps

  -- Internal_Graph::fill on an empty graph, with the packages of all namespaces.
  unfoldable pub fill : List ℕ → Graph
  unfolding fill_nodes fill_edges
  fill all = record { nodes = fill_nodes all []; edges = fill_edges all; c = [] }

  unfoldable pub topological : Graph → Graph
  topological g = record g { c = topological_sort g.nodes g.edges }

  unfoldable pub delete_node : ℕ → Graph → Graph
  unfolding clear_vertex
  delete_node p g = record g { edges = clear_vertex p g.edges }

  -- The test of `topoNext`.
  unfoldable pub is_next : (ℕ → Progress) → ℕ → Bool
  is_next progress p =
      not (progress p).built && not (progress p).building && can_build pkgs progress p

  -- The loop of `topoNext`: the last package in the order that passes the test, or `n`.
  unfoldable pub last_next : (ℕ → Progress) → Option ℕ → List ℕ → Option ℕ
  unfolding is_next
  last_next progress n [] = n
  last_next progress n (p ∷ ps) = last_next progress (if is_next progress p then some p else n) ps

  unfoldable pub topo_next : (ℕ → Progress) → Graph → Option ℕ
  unfolding last_next
  topo_next progress g = last_next progress none g.c
