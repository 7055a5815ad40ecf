-- ===== src/Analysis/Fixpoint/Order.antt =====
-- What the worklist computation asks of its context: petgraph's documented behaviour, and an
-- order on the node values for which `merge` gives an upper bound.
use fkie_cad_cwe_checker.Prelude.{ℕ, ◌≡◌, ◌<◌, true, some, ◌∈◌, length, get_elem?, ◌⊎◌}
use fkie_cad_cwe_checker.Analysis.Fixpoint.{DiGraph, Context, Computation}
use fkie_cad_cwe_checker.Prelude.Key.{nat_ord}
use fkie_cad_cwe_checker.BTreeMap
use fkie_cad_cwe_checker.BTreeSet
use fkie_cad_cwe_checker.BTreeSet.Bounded.{Within}

-- `edges` lists the outgoing edges of a node, each edge has two nodes of the graph as its ends.
pub record IsDiGraph (g : DiGraph) : Type 0 where
  pub edge_exists : (n e : ℕ) → e ∈ g.edges n → (t : ℕ) × (g.edge_endpoints e ≡ some (n, t))
  pub edge_listed : (e s t : ℕ) → g.edge_endpoints e ≡ some (s, t) → e ∈ g.edges s
  pub ends_lt :
      (e s t : ℕ) → g.edge_endpoints e ≡ some (s, t) → (s < g.node_count) × (t < g.node_count)

pub record IsOrdered (C : Context) : Type 1 where
  pub Le : C.NodeValue → C.NodeValue → Type 0
  pub le_refl : (a : C.NodeValue) → Le a a
  pub le_trans : (a b c : C.NodeValue) → Le a b → Le b c → Le a c
  pub le-merge_left : (a b : C.NodeValue) → Le a (C.merge a b)
  pub le-merge_right : (a b : C.NodeValue) → Le b (C.merge a b)
  pub value_eq_sound : (a b : C.NodeValue) → C.value_eq a b ≡ true → a ≡ b

-- The priorities number the nodes of the graph, and the worklist holds priorities only.
pub record IsValid (C : Context) (c : Computation C) : Type 0 where
  pub priorities : length c.node_priority_list ≡ C.graph.node_count
  pub nodes : length c.priority_to_node_list ≡ C.graph.node_count
  pub node_of :
      (n p : ℕ)
      → get_elem? c.node_priority_list n ≡ some p
      → get_elem? c.priority_to_node_list p ≡ some n
  pub priority_of :
      (p n : ℕ)
      → get_elem? c.priority_to_node_list p ≡ some n
      → get_elem? c.node_priority_list n ≡ some p
  pub pending : Within 0 C.graph.node_count c.worklist

module _ (C : Context) (order : IsOrdered C) where
  open C use {NodeValue, graph, transfer}
  open order use {Le}

  -- What flows along the edge `e` from `s` to `t` is below the value at `t`.
  abbrev pub Flows : Computation C → ℕ → ℕ → ℕ → Type 0
  Flows c e s t =
      (x y : NodeValue)
      → BTreeMap.get s c.node_values ≡ some x
      → transfer x e ≡ some y
      → (z : NodeValue) × (BTreeMap.get t c.node_values ≡ some z) × Le y z

  -- The node `s` waits in the worklist.
  abbrev pub Waits : Computation C → ℕ → Type 0
  Waits c s =
      (p : ℕ) → get_elem? c.node_priority_list s ≡ some p → BTreeSet.contains p c.worklist ≡ true

  -- The values of `c'` are those of `c`, or above; a node with another value waits.
  pub record Extends (c c' : Computation C) : Type 0 where
    pub valid : IsValid C c'
    pub same_priorities : c'.node_priority_list ≡ c.node_priority_list
    pub same_nodes : c'.priority_to_node_list ≡ c.priority_to_node_list
    pub still_waits :
        (p : ℕ) → BTreeSet.contains p c.worklist ≡ true → BTreeSet.contains p c'.worklist ≡ true
    pub grows :
        (n : ℕ) (z : NodeValue)
        → BTreeMap.get n c.node_values ≡ some z
        → (z' : NodeValue) × (BTreeMap.get n c'.node_values ≡ some z') × Le z z'
    pub changed :
        (n p : ℕ)
        → get_elem? c.node_priority_list n ≡ some p
        → (BTreeSet.contains p c'.worklist ≡ true)
          ⊎ (BTreeMap.get n c'.node_values ≡ BTreeMap.get n c.node_values)
