-- ===== src/World/Listed.antt =====
-- The graph of packages through the operations of the scheduler.
use buildsyspp.Shared.{ℕ, ◌<◌, inl, List, [], In}
use buildsyspp.Model.{Package}
use buildsyspp.Depends.{Depends, IsRanked}
use buildsyspp.Graph.{Edges, Graph, fill, topological, delete_node}
use buildsyspp.Graph.Next.{In-fill_nodes, In-clear_vertex, In-fill_edges}

-- What boost::topological_sort gives for a graph without a loop: every vertex.
pub record IsSort (sort : List ℕ → Edges → List ℕ) : Type 0 where
  pub complete :
      (nodes : List ℕ) (edges : Edges) (rank : ℕ → ℕ)
      → ((a b : ℕ) → In (a, b) edges → rank b < rank a)
      → (p : ℕ) → In p nodes
      → In p (sort nodes edges)

module _ (sort : List ℕ → Edges → List ℕ) (sorts : IsSort sort) (pkgs : ℕ → Package) (rank : ℕ → ℕ)
    (ranked : IsRanked pkgs rank) where
  -- The graph has every package, in its order too, and its edges are dependencies.
  pub record Listed (all : List ℕ) (g : Graph) : Type 0 where
    pub nodes : (p : ℕ) → In p all → In p g.nodes
    pub edged : (a b : ℕ) → In (a, b) g.edges → Depends pkgs a b
    pub listed : (p : ℕ) → In p all → In p g.c

  Listed-topological :
      (all : List ℕ) (g : Graph)
      → ((p : ℕ) → In p all → In p g.nodes)
      → ((a b : ℕ) → In (a, b) g.edges → Depends pkgs a b)
      → Listed all (topological sort pkgs g)
  unfolding topological
  Listed-topological all g n e = record {
    nodes = n;
    edged = e;
    listed = λ p m. sorts.complete g.nodes g.edges rank (λ a b k. ranked a b (e a b k)) p (n p m);
  }

  pub Listed-fill : (all : List ℕ) → Listed all (topological sort pkgs (fill sort pkgs all))
  unfolding fill
  Listed-fill all =
      Listed-topological all (fill sort pkgs all) (λ p m. In-fill_nodes all [] p (inl m))
        (In-fill_edges sort pkgs all)

  pub Listed-delete_node :
      (all : List ℕ) (g : Graph) (p : ℕ)
      → Listed all g
      → Listed all (topological sort pkgs (delete_node sort pkgs p g))
  unfolding delete_node
  Listed-delete_node all g p h =
      Listed-topological all (delete_node sort pkgs p g) h.nodes
        (λ a b m. h.edged a b (In-clear_vertex p (a, b) g.edges m))
