-- ===== src/Analysis/Fixpoint.antt =====
-- src/cwe_checker_lib/src/analysis/fixpoint.rs: the generic worklist computation of fixpoints.
-- The graph is petgraph's `DiGraph`, of which the code uses the fields of `DiGraph` below; a node
-- or edge index is its number. `BTreeMap` also stands for the hash map of the node values, whose
-- order is never observed.
pub mod Order
pub mod Extends
pub mod Visits
pub mod Budget
pub mod Loop
pub mod Fixed
pub mod Enumeration
pub mod Init
pub mod Least
pub mod Ends
mod Tests
use fkie_cad_cwe_checker.Prelude.{
  ℕ, zero, suc, ◌+◌, ◌*◌, Bool, true, false, Option, none, some, List, [], ◌∷◌, ◌++◌, map, ltb,
  if◌then◌else◌, length, set, replicate,
}
use fkie_cad_cwe_checker.Prelude.Outcome.{Outcome, ok, out_of_fuel, ◌>>=◌, unwrap, index}
use fkie_cad_cwe_checker.Prelude.Key.{nat_ord}
use fkie_cad_cwe_checker.BTreeMap
use fkie_cad_cwe_checker.BTreeSet

-- `kosaraju_scc` is the result of petgraph's algorithm of that name on the graph.
pub record DiGraph : Type 0 where
  pub node_count : ℕ
  pub edges : ℕ → List ℕ
  pub edge_endpoints : ℕ → Option (ℕ × ℕ)
  pub kosaraju_scc : List (List ℕ)

pub record Context : Type 1 where
  pub NodeValue : Type 0
  pub value_eq : NodeValue → NodeValue → Bool
  pub graph : DiGraph
  pub merge : NodeValue → NodeValue → NodeValue
  pub transfer : NodeValue → ℕ → Option NodeValue

-- The position of the elements of `nodes`, from `i` on, as `enumerate` counts them.
pub node_to_index : ℕ → List ℕ → List (ℕ × ℕ) → List (ℕ × ℕ)
node_to_index i [] m = m
node_to_index i (node ∷ nodes) m = node_to_index (i + 1) nodes (BTreeMap.insert node i m)

pub concat : List (List ℕ) → List ℕ
concat [] = []
concat (xs ∷ xss) = xs ++ concat xss

-- The worklist that holds the priorities 0 to n - 1.
pub default_worklist : ℕ → ℕ → List ℕ → List ℕ
default_worklist zero i w = w
default_worklist (suc n) i w = default_worklist n (i + 1) (BTreeSet.insert i w)

module _ (C : Context) where
  open C use {NodeValue, value_eq, graph, merge, transfer}

  pub record Computation : Type 0 where
    pub node_priority_list : List ℕ
    pub priority_to_node_list : List ℕ
    pub worklist : List ℕ
    pub node_values : List (ℕ × NodeValue)

  -- The values when every one of the nodes 0 to n - 1 gets the default value.
  pub default_values : ℕ → ℕ → NodeValue → List (ℕ × NodeValue) → List (ℕ × NodeValue)
  default_values zero i v m = m
  default_values (suc n) i v m = default_values n (i + 1) v (BTreeMap.insert i v m)

  pub from_node_priority_list : Option NodeValue → List ℕ → Computation
  unfolding node_to_index default_worklist default_values
  from_node_priority_list default_value priority_sorted_nodes =
      let n = length priority_sorted_nodes in
      record {
        node_priority_list = map (λ e. e.1) (node_to_index 0 priority_sorted_nodes []);
        priority_to_node_list = priority_sorted_nodes;
        worklist = elim default_value [ none ↦ [] | some v ↦ default_worklist n 0 [] ];
        node_values = elim default_value [ none ↦ [] | some v ↦ default_values n 0 v [] ];
      }

  pub new : Option NodeValue → Computation
  unfolding from_node_priority_list concat
  new default_value = from_node_priority_list default_value (concat graph.kosaraju_scc)

  pub get_node_value : Computation → ℕ → Option NodeValue
  get_node_value c node = BTreeMap.get node c.node_values

  pub set_node_value : ℕ → NodeValue → Computation → Outcome Computation
  set_node_value node value c = do
    priority ← index c.node_priority_list node
    ok (record c {
      node_values = BTreeMap.insert node value c.node_values;
      worklist = BTreeSet.insert priority c.worklist;
    })

  pub merge_node_value : ℕ → NodeValue → Computation → Outcome Computation
  merge_node_value node value c = elim (BTreeMap.get node c.node_values) [
    | some old_value ↦
        let merged_value = merge value old_value in
        if value_eq merged_value old_value then ok c else set_node_value node merged_value c
    | none ↦ set_node_value node value c
  ]

  pub update_edge : ℕ → Computation → Outcome Computation
  update_edge edge c = do
    (start_node, end_node) ← unwrap (graph.edge_endpoints edge)
    elim (BTreeMap.get start_node c.node_values) [
      | none ↦ ok c
      | some start_val ↦ elim (transfer start_val edge) [
        | none ↦ ok c
        | some new_end_val ↦ merge_node_value end_node new_end_val c
      ]
    ]

  pub update_edges : List ℕ → Computation → Outcome Computation
  update_edges [] c = ok c
  update_edges (edge ∷ edges) c = update_edge edge c >>= update_edges edges

  pub update_node : ℕ → Computation → Outcome Computation
  update_node node c = update_edges (graph.edges node) c

  pub take_next_node_from_worklist : Computation → Outcome (Option ℕ × Computation)
  take_next_node_from_worklist c = elim (BTreeSet.last c.worklist) [
    | none ↦ ok (none, c)
    | some priority ↦ do
      node ← index c.priority_to_node_list priority
      ok (some node, record c { worklist = BTreeSet.remove priority c.worklist })
  ]

  -- The `while` loop: `steps` counts the visits, `non_stabilized` holds the nodes given up on.
  pub max_steps_loop : ℕ → ℕ → List ℕ → List ℕ → Computation → Outcome Computation
  max_steps_loop zero max_steps steps non_stabilized c = out_of_fuel
  max_steps_loop (suc fuel) max_steps steps non_stabilized c = elim (BTreeSet.last c.worklist) [
    | none ↦ ok (record c { worklist = non_stabilized })
    | some priority ↦ do
      let taken = record c { worklist = BTreeSet.remove priority c.worklist }
      node ← index c.priority_to_node_list priority
      count ← index steps node
      let visit = do
        next ← update_node node taken
        max_steps_loop fuel max_steps (set steps node (count + 1)) non_stabilized next
      let give_up =
          max_steps_loop fuel max_steps steps (BTreeSet.insert priority non_stabilized) taken
      if ltb count max_steps then visit else give_up
  ]

  -- Each round uses up one of the `max_steps` visits of a node, and may fill the worklist, or
  -- shortens the worklist.
  abbrev pub rounds : ℕ → ℕ
  rounds max_steps = graph.node_count * max_steps * (graph.node_count + 1) + graph.node_count + 1

  pub compute_with_max_steps : ℕ → Computation → Outcome Computation
  compute_with_max_steps max_steps c =
      max_steps_loop (rounds max_steps) max_steps (replicate graph.node_count 0) [] c

  -- The loop of `compute`, on fuel: it need not end.
  pub compute : ℕ → Computation → Outcome Computation
  compute zero c = out_of_fuel
  compute (suc fuel) c = do
    (next, taken) ← take_next_node_from_worklist c
    elim next [ none ↦ ok taken | some node ↦ update_node node taken >>= compute fuel ]

  pub has_stabilized : Computation → Bool
  has_stabilized c = elim c.worklist [ [] ↦ true | _ ∷ _ ↦ false ]

  pub nodes_of : List ℕ → List ℕ → Outcome (List ℕ)
  nodes_of nodes [] = ok []
  nodes_of nodes (priority ∷ rest) = do
    node ← index nodes priority
    others ← nodes_of nodes rest
    ok (node ∷ others)

  pub get_worklist : Computation → Outcome (List ℕ)
  get_worklist c = nodes_of c.priority_to_node_list c.worklist

  -- Marks the nodes of the given entries as not stabilized.
  pub mark_all : List (ℕ × NodeValue) → Computation → Outcome Computation
  mark_all [] c = ok c
  mark_all ((node, _) ∷ rest) c = do
    priority ← index c.node_priority_list node
    mark_all rest (record c { worklist = BTreeSet.insert priority c.worklist })

  -- `node_values_mut`: `f` is what the caller does to the values through the iterator.
  pub node_values_mut : (NodeValue → NodeValue) → Computation → Outcome Computation
  node_values_mut f c = do
    marked ← mark_all c.node_values c
    ok (record marked { node_values = map (λ (n, v). (n, f v)) c.node_values })
