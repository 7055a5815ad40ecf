-- ===== src/Analysis/Fixpoint/Least.antt =====
-- The values of a computation of src/cwe_checker_lib/src/analysis/fixpoint.rs and the fixpoints above
-- its start values.
use fkie_cad_cwe_checker.Analysis.Fixpoint.Order.{IsDiGraph, IsValid, IsOrdered}
use fkie_cad_cwe_checker.Analysis.Fixpoint.Loop.{SettledBut, compute_with_max_steps-Computes}
use fkie_cad_cwe_checker.Analysis.Fixpoint.Fixed.{IsFixpoint, settled-IsFixpoint, stable-empty}
use fkie_cad_cwe_checker.Prelude.{
  ℕ, zero, suc, ◌+◌, ◌≡◌, inl, inr, some, List, [], ◌∷◌, arith, ltb, ◌==◌, Bool-cases, Option-cases,
  Option, none, true, refl,
}
use fkie_cad_cwe_checker.Prelude.Lists.{get_elem?, set, replicate}
use fkie_cad_cwe_checker.Prelude.Outcome.{>>=-eq-ok, ok}
use mathlib.Core.Path.{subst, subst₂}
use fkie_cad_cwe_checker.Prelude.Key.{nat_ord}
use fkie_cad_cwe_checker.BTreeMap
use fkie_cad_cwe_checker.BTreeSet
use fkie_cad_cwe_checker.BTreeMap.Laws.{get-insert}
use fkie_cad_cwe_checker.Analysis.Fixpoint.{
  Context, Computation, set_node_value, merge_node_value, update_edge, update_edges, update_node,
  max_steps_loop, compute_with_max_steps, rounds, has_stabilized,
}

module _ (C : Context) (order : IsOrdered C) where
  open C use {NodeValue, graph, transfer, merge}
  open order use {Le, le_refl, le_trans}

  -- A value below the value that a node has, if it has one.
  abbrev pub Under : NodeValue → Option NodeValue → Type 0
  Under z none = ⊥
  Under z (some b) = Le z b

  Under-trans : (a b : NodeValue) (o : Option NodeValue) → Le a b → Under b o → Under a o
  Under-trans a b none le h = h
  Under-trans a b (some c) le h = le_trans a b c le h

  -- A solution of the fixpoint problem: values for some of the nodes such that, for each edge, what
  -- flows from below the value at its start lies below the value at its end, and such that merges
  -- of values below a value stay below it.
  pub record IsSolution (bound : ℕ → Option NodeValue) : Type 0 where
    pub merge_below :
        (t : ℕ) (a b : NodeValue)
        → Under a (bound t)
        → Under b (bound t)
        → Under (merge a b) (bound t)
    pub flow_below :
        (e s t : ℕ) (x y : NodeValue)
        → graph.edge_endpoints e ≡ some (s, t)
        → Under x (bound s)
        → transfer x e ≡ some y
        → Under y (bound t)

  abbrev pub IsBelow : (ℕ → Option NodeValue) → Computation C → Type 0
  IsBelow bound c =
      (n : ℕ) (z : NodeValue) → BTreeMap.get n c.node_values ≡ some z → Under z (bound n)

  module _ (bound : ℕ → Option NodeValue) (solution : IsSolution bound) where
    set_node_value-IsBelow :
        (n : ℕ) (v : NodeValue) (c c' : Computation C)
        → IsBelow bound c
        → Under v (bound n)
        → set_node_value C n v c ≡ ok c'
        → IsBelow bound c'
    unfolding set_node_value
    set_node_value-IsBelow n v c c' below le h m z k =
        let stored : c'.node_values ≡ BTreeMap.insert n v c.node_values = ground arith in
        let found : BTreeMap.get m (BTreeMap.insert n v c.node_values) ≡ some z = rw stored at k in
        elim (Bool-cases (m == n)) [
          | inl same ↦
              let node : n ≡ m = ground arith in
              let value : v ≡ z = ground (arith, get-insert n m v c.node_values) in
              subst₂ (λ a b. Under a (bound b)) value node le
          | inr other ↦ below m z (ground (arith, get-insert n m v c.node_values))
        ]

    merge_node_value-IsBelow :
        (n : ℕ) (v : NodeValue) (c c' : Computation C)
        → IsBelow bound c
        → Under v (bound n)
        → merge_node_value C n v c ≡ ok c'
        → IsBelow bound c'
    unfolding merge_node_value
    merge_node_value-IsBelow n v c c' below le h =
        elim (Option-cases (BTreeMap.get n c.node_values)) [
          | inl e ↦ set_node_value-IsBelow n v c c' below le (ground arith)
          | inr (old, e) ↦ elim (Bool-cases (C.value_eq (merge v old) old)) [
            | inl same ↦ let idle : c ≡ c' = ground arith in subst (IsBelow bound) idle below
            | inr other ↦
                set_node_value-IsBelow n (merge v old) c c' below
                  (solution.merge_below n v old le (below n old e)) (ground arith)
          ]
        ]

    update_edge-IsBelow :
        (e : ℕ) (c c' : Computation C)
        → IsBelow bound c
        → update_edge C e c ≡ ok c'
        → IsBelow bound c'
    unfolding update_edge
    update_edge-IsBelow e c c' below h = elim (Option-cases (graph.edge_endpoints e)) [
      | inl a ↦ absurd (ground arith)
      | inr ((s, t), a) ↦ elim (Option-cases (BTreeMap.get s c.node_values)) [
        | inl b ↦ let idle : c ≡ c' = ground arith in subst (IsBelow bound) idle below
        | inr (x, b) ↦ elim (Option-cases (transfer x e)) [
          | inl d ↦ let idle : c ≡ c' = ground arith in subst (IsBelow bound) idle below
          | inr (y, d) ↦
              merge_node_value-IsBelow t y c c' below
                (solution.flow_below e s t x y a (below s x b) d) (ground arith)
        ]
      ]
    ]

    update_edges-IsBelow :
        (es : List ℕ) (c c' : Computation C)
        → IsBelow bound c
        → update_edges C es c ≡ ok c'
        → IsBelow bound c'
    unfolding update_edges
    update_edges-IsBelow [] c c' below h =
        let idle : c ≡ c' = ground arith in subst (IsBelow bound) idle below
    update_edges-IsBelow (e ∷ es) c c' below h =
        let (mid, first, rest) = >>=-eq-ok (update_edge C e c) (update_edges C es) h in
        update_edges-IsBelow es mid c' (update_edge-IsBelow e c mid below first) rest

    update_node-IsBelow :
        (n : ℕ) (c c' : Computation C)
        → IsBelow bound c
        → update_node C n c ≡ ok c'
        → IsBelow bound c'
    unfolding update_node
    update_node-IsBelow n c c' below h = update_edges-IsBelow (graph.edges n) c c' below h

    max_steps_loop-IsBelow :
        (fuel max_steps : ℕ) (steps given_up : List ℕ) (c c' : Computation C)
        → IsBelow bound c
        → max_steps_loop C fuel max_steps steps given_up c ≡ ok c'
        → IsBelow bound c'
    unfolding max_steps_loop
    max_steps_loop-IsBelow zero max_steps steps given_up c c' below h = absurd (ground arith)
    max_steps_loop-IsBelow (suc fuel) max_steps steps given_up c c' below h =
        elim (Option-cases (BTreeSet.last c.worklist)) [
          | inl e ↦
              let idle : c'.node_values ≡ c.node_values = ground arith in
              λ m z k. below m z (rw idle at k)
          | inr (p, e) ↦ elim (Option-cases (get_elem? c.priority_to_node_list p)) [
            | inl a ↦ absurd (ground arith)
            | inr (n, a) ↦ elim (Option-cases (get_elem? steps n)) [
              | inl b ↦ absurd (ground arith)
              | inr (count, b) ↦ elim (Bool-cases (ltb count max_steps)) [
                | inl more ↦
                    let steps' = set steps n (count + 1) in
                    let taken = record c { worklist = BTreeSet.remove p c.worklist } in
                    let (mid, first, rest) =
                      >>=-eq-ok (update_node C n taken)
                        (max_steps_loop C fuel max_steps steps' given_up) (ground arith) in
                    max_steps_loop-IsBelow fuel max_steps steps' given_up mid c'
                      (update_node-IsBelow n taken mid below first) rest
                | inr done ↦
                    max_steps_loop-IsBelow fuel max_steps steps (BTreeSet.insert p given_up)
                      (record c { worklist = BTreeSet.remove p c.worklist }) c' below (ground arith)
              ]
            ]
          ]
        ]

    -- If the values before the computation lie below a solution, so do the values after it.
    pub compute_with_max_steps-IsBelow :
        (max_steps : ℕ) (c c' : Computation C)
        → IsBelow bound c
        → compute_with_max_steps C max_steps c ≡ ok c'
        → IsBelow bound c'
    unfolding compute_with_max_steps
    compute_with_max_steps-IsBelow max_steps c c' below h =
        max_steps_loop-IsBelow (rounds C max_steps) max_steps (replicate graph.node_count 0) [] c c'
          below h

  -- The transfer functions are monotone, and `merge` gives the least upper bound.
  pub record IsMonotone : Type 0 where
    pub transfer_monotone :
        (e : ℕ) (x x' y : NodeValue)
        → Le x x'
        → transfer x e ≡ some y
        → (y' : NodeValue) × (transfer x' e ≡ some y') × Le y y'
    pub merge_least : (a b c : NodeValue) → Le a c → Le b c → Le (merge a b) c

  -- The nodes that have a value in `c` have one in `d`, above it.
  abbrev pub LiesBelow : Computation C → Computation C → Type 0
  LiesBelow c d =
      (n : ℕ) (z : NodeValue)
      → BTreeMap.get n c.node_values ≡ some z
      → (z' : NodeValue) × (BTreeMap.get n d.node_values ≡ some z') × Le z z'

  Under-of :
      (z : NodeValue) (o : Option NodeValue)
      → (z' : NodeValue) × (o ≡ some z') × Le z z'
      → Under z o
  Under-of z o (z', h, le) = rw h le

  of-Under :
      (z : NodeValue) (o : Option NodeValue)
      → Under z o
      → (z' : NodeValue) × (o ≡ some z') × Le z z'
  of-Under z none h = absurd h
  of-Under z (some z') h = (z', refl, h)

  Under-merge :
      (a b : NodeValue) (o : Option NodeValue)
      → IsMonotone
      → Under a o
      → Under b o
      → Under (merge a b) o
  Under-merge a b none mono h k = h
  Under-merge a b (some c) mono h k = mono.merge_least a b c h k

  fixpoint-IsSolution :
      (d : Computation C)
      → IsMonotone
      → IsFixpoint C order d
      → IsSolution (λ n. BTreeMap.get n d.node_values)
  fixpoint-IsSolution d mono fixed = record {
    merge_below = λ t a b h k. Under-merge a b (BTreeMap.get t d.node_values) mono h k;
    flow_below = λ e s t x y ends h k.
        let (x', found, le) = of-Under x (BTreeMap.get s d.node_values) h in
        let (y', moved, le') = mono.transfer_monotone e x x' y le k in
        let (z, there, le'') = fixed e s t ends x' y' found moved in
        Under-of y (BTreeMap.get t d.node_values) (z, there, le_trans y y' z le' le'');
  }

  -- On petgraph's graphs, for an ordered domain with monotone transfer functions and `merge` as its
  -- least upper bound, and from a valid and settled state: `compute_with_max_steps` returns a state
  -- whose values lie above the start values and below those of every fixpoint above the start values;
  -- so if that state has stabilized, it is a fixpoint itself, and the least one above the start values.
  pub compute_with_max_steps-IsLeast :
      (max_steps : ℕ) (c : Computation C)
      → IsDiGraph graph
      → IsMonotone
      → IsValid C c
      → SettledBut C order [] c
      → (c' : Computation C) × (compute_with_max_steps C max_steps c ≡ ok c')
        × LiesBelow c c'
        × ((d : Computation C) → IsFixpoint C order d → LiesBelow c d → LiesBelow c' d)
        × (has_stabilized C c' ≡ true → IsFixpoint C order c')
  compute_with_max_steps-IsLeast max_steps c g mono valid settled =
      let r = compute_with_max_steps-Computes C order max_steps c g valid settled in
      (
        r.next,
        r.returns,
        r.grows,
        (λ d fixed above n z h. of-Under z (BTreeMap.get n d.node_values) (
            compute_with_max_steps-IsBelow (λ n. BTreeMap.get n d.node_values)
              (fixpoint-IsSolution d mono fixed) max_steps c r.next
              (λ m x k. Under-of x (BTreeMap.get m d.node_values) (above m x k)) r.returns n z h)),
        (λ stable.
            settled-IsFixpoint C order r.next g r.valid r.settled
              (stable-empty C order r.next stable)),
      )
