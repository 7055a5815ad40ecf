-- ===== src/Analysis/Fixpoint/Init.antt =====
-- A new computation, and one whose starting values were set, is valid and settled.
use fkie_cad_cwe_checker.Analysis.Fixpoint.Enumeration.{
  node_to_index-IsSorted, index_map-IsDense, index_map-values, Within-default, contains-default,
  Enumerates,
}
use fkie_cad_cwe_checker.BTreeMap.Dense.{values, length-values}
use fkie_cad_cwe_checker.Prelude.{
  ℕ, ◌<◌, ◌≡◌, inl, inr, true, Option, none, some, List, [], arith, ltb, Bool-cases, Option-cases,
}
use fkie_cad_cwe_checker.Prelude.Lists.{length, get_elem?, get_elem?-lt, get_elem?-some}
use fkie_cad_cwe_checker.Prelude.Outcome.{ok}
use fkie_cad_cwe_checker.Prelude.Key.{nat_ord}
use fkie_cad_cwe_checker.BTreeMap
use fkie_cad_cwe_checker.BTreeSet
use fkie_cad_cwe_checker.BTreeMap.Laws.{get-insert}
use fkie_cad_cwe_checker.BTreeSet.Laws.{contains-insert}
use fkie_cad_cwe_checker.BTreeSet.Bounded.{Within, Within-insert}
use fkie_cad_cwe_checker.Analysis.Fixpoint.{
  Context, Computation, from_node_priority_list, node_to_index, set_node_value,
}
use fkie_cad_cwe_checker.Analysis.Fixpoint.Order.{IsOrdered, IsValid}
use fkie_cad_cwe_checker.Analysis.Fixpoint.Loop.{SettledBut}

module _ (C : Context) where
  open C use {NodeValue, graph}

  -- Every node that has a value waits in the worklist.
  pub record IsFresh (c : Computation C) : Type 0 where
    pub valid : IsValid C c
    pub waits :
        (s p : ℕ) (x : NodeValue)
        → BTreeMap.get s c.node_values ≡ some x
        → get_elem? c.node_priority_list s ≡ some p
        → BTreeSet.contains p c.worklist ≡ true

  module _ (nodes : List ℕ) (all : Enumerates graph.node_count nodes) where
    numbered-node_of :
        (m p : ℕ)
        → get_elem? (values (node_to_index 0 nodes [])) m ≡ some p
        → get_elem? nodes p ≡ some m
    numbered-node_of m p h = elim (Bool-cases (ltb m graph.node_count)) [
      | inl inside ↦
          let at = all.listed m (ground arith) in
          let here = index_map-values graph.node_count nodes all m in
          let same : all.position m ≡ p = ground arith in rw same at at
      | inr outside ↦
          let here = index_map-values graph.node_count nodes all m in absurd (ground arith)
    ]

    numbered-priority_of :
        (p m : ℕ)
        → get_elem? nodes p ≡ some m
        → get_elem? (values (node_to_index 0 nodes [])) m ≡ some p
    numbered-priority_of p m h =
        let inside = all.lt p m h in
        let same = all.once (all.position m) p m (all.listed m inside) h in
        ground (arith, index_map-values graph.node_count nodes all m)

    numbered-IsValid :
        (w : List ℕ) (vs : List (ℕ × NodeValue))
        → Within 0 graph.node_count w
        → IsValid C (record {
          node_priority_list = values (node_to_index 0 nodes []);
          priority_to_node_list = nodes;
          worklist = w;
          node_values = vs;
        })
    numbered-IsValid w vs inside = record {
      priorities =
          let sorted = node_to_index-IsSorted 0 nodes [] tt in
          let dense = index_map-IsDense graph.node_count nodes all in
          omega (
            arith,
            length-values 0 graph.node_count (node_to_index 0 nodes []) (omega arith) sorted dense,
          );
      nodes = all.count;
      node_of = numbered-node_of;
      priority_of = numbered-priority_of;
      pending = inside;
    }

  -- If the nodes of the graph are enumerated by the list, the new computation is fresh, with or
  -- without a default value.
  pub from_node_priority_list-IsFresh :
      (default_value : Option NodeValue) (nodes : List ℕ)
      → Enumerates graph.node_count nodes
      → IsFresh (from_node_priority_list C default_value nodes)
  unfolding from_node_priority_list BTreeMap.get
  from_node_priority_list-IsFresh none nodes all = record {
    valid = numbered-IsValid nodes all [] [] tt;
    waits = λ s p x h k. cc;
  }
  from_node_priority_list-IsFresh (some v) nodes all = record {
    valid =
        numbered-IsValid nodes all _ _
          (Within-default (length nodes) 0 graph.node_count [] (omega (arith, all.count)) tt);
    waits = λ s p x h k.
        let lt = get_elem?-lt nodes p (numbered-node_of nodes all s p k) in
        ground (arith, contains-default (length nodes) 0 p []);
  }

  -- Setting the value of a node of the graph does not panic, stores the value, and leaves the
  -- computation fresh.
  pub set_node_value-IsFresh :
      (n : ℕ) (v : NodeValue) (c : Computation C)
      → IsFresh c
      → n < graph.node_count
      → (c' : Computation C) × (set_node_value C n v c ≡ ok c')
        × IsFresh c'
        × (BTreeMap.get n c'.node_values ≡ some v)
  unfolding set_node_value
  set_node_value-IsFresh n v c fresh inside =
      let valid = fresh.valid in
      let (p, found) = get_elem?-some c.node_priority_list n (omega (arith, valid.priorities)) in
      let lt : p < graph.node_count =
        omega (arith, get_elem?-lt _ p (valid.node_of n p found), valid.nodes) in
      (
        record c {
          node_values = BTreeMap.insert n v c.node_values;
          worklist = BTreeSet.insert p c.worklist;
        },
        rw found,
        record {
          valid = record {
            priorities = valid.priorities;
            nodes = valid.nodes;
            node_of = valid.node_of;
            priority_of = valid.priority_of;
            pending = Within-insert 0 graph.node_count p c.worklist (omega arith) lt valid.pending;
          };
          waits = λ s q x h k. ground (
            arith,
            fresh.waits s q x,
            found,
            contains-insert p q c.worklist,
            get-insert n s v c.node_values,
          );
        },
        ground (arith, get-insert n n v c.node_values),
      )

  -- A fresh computation is settled, whatever the order on the values.
  pub IsFresh-SettledBut :
      (order : IsOrdered C) (c : Computation C) → IsFresh c → SettledBut C order [] c
  IsFresh-SettledBut order c fresh e s t p h k =
      elim (Option-cases (BTreeMap.get s c.node_values)) [
        | inl unknown ↦ inr (inr (λ x y a b. cc))
        | inr (x, known) ↦ inl (fresh.waits s p x known k)
      ]
