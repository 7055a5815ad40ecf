-- ===== src/Analysis/Fixpoint/Visits.antt =====
-- What a visit of a node does: the flow of each of its edges is accounted for.
use fkie_cad_cwe_checker.Analysis.Fixpoint.Extends.{
  Extends-refl, Extends-trans, merge_node_value-Gives, Gives,
}
use fkie_cad_cwe_checker.Prelude.{
  ℕ, ◌≡◌, refl, sym, ◌∙◌, ◌⊎◌, inl, inr, true, some, List, [], ◌∷◌, arith, Option-cases,
}
use fkie_cad_cwe_checker.Prelude.Lists.{get_elem?, ◌∈◌}
use mathlib.Core.Path.{subst, subst₂}
use fkie_cad_cwe_checker.Prelude.Outcome.{Outcome, ok}
use fkie_cad_cwe_checker.Prelude.Key.{nat_ord}
use fkie_cad_cwe_checker.BTreeMap
use fkie_cad_cwe_checker.BTreeSet
use fkie_cad_cwe_checker.Analysis.Fixpoint.{
  Context, Computation, merge_node_value, update_edge, update_node, update_edges,
}
use fkie_cad_cwe_checker.Analysis.Fixpoint.Order.{IsDiGraph, IsOrdered, IsValid, Flows, Extends}

module _ (C : Context) (order : IsOrdered C) where
  open C use {NodeValue, graph, transfer}
  open order use {Le, le_trans}

  -- After `update_edge` the edge's flow is accounted for, or its start waits to be visited again.
  pub record Updates (c : Computation C) (e : ℕ) (r : Outcome (Computation C)) : Type 0 where
    pub next : Computation C
    pub returns : r ≡ ok next
    pub extends : Extends C order c next
    pub flows :
        (s t p : ℕ)
        → graph.edge_endpoints e ≡ some (s, t)
        → get_elem? c.node_priority_list s ≡ some p
        → (BTreeSet.contains p next.worklist ≡ true) ⊎ Flows C order next e s t

  Updates-intro :
      (c c' : Computation C) (e s t : ℕ)
      → graph.edge_endpoints e ≡ some (s, t)
      → Extends C order c c'
      → ((p : ℕ)
          → get_elem? c.node_priority_list s ≡ some p
          → (BTreeSet.contains p c'.worklist ≡ true) ⊎ Flows C order c' e s t)
      → Updates c e (ok c')
  Updates-intro c c' e s t ends x f = record {
    next = c';
    returns = refl;
    extends = x;
    flows = λ s' t' p h k.
        let from : s ≡ s' = ground arith in
        let to : t ≡ t' = ground arith in
        let waits : get_elem? c.node_priority_list s ≡ some p = rw from k in
        subst₂ (λ a b. (BTreeSet.contains p c'.worklist ≡ true) ⊎ Flows C order c' e a b) from to
          (f p waits);
  }

  update_edge-flow :
      (c : Computation C) (e s t : ℕ) (x y : NodeValue)
      → graph.edge_endpoints e ≡ some (s, t)
      → BTreeMap.get s c.node_values ≡ some x
      → transfer x e ≡ some y
      → (r : Outcome (Computation C)) → Gives C order c t y r
      → Updates c e r
  update_edge-flow c e s t x y ends a b r g = rw g.returns (
      Updates-intro c g.next e s t ends g.extends (λ p k. elim (g.extends.changed s p k) [
        | inl waits ↦ inl waits
        | inr same ↦ inr (λ x' y' h k'.
            let ex : x' ≡ x = cc in let ey : y ≡ y' = cc in (g.value, g.stored, rw ey at g.above))
      ]))

  pub update_edge-Updates :
      (c : Computation C) (e s t : ℕ)
      → IsDiGraph graph
      → IsValid C c
      → graph.edge_endpoints e ≡ some (s, t)
      → Updates c e (update_edge C e c)
  unfolding update_edge
  update_edge-Updates c e s t g valid ends =
      let idle = λ (f : Flows C order c e s t).
        Updates-intro c c e s t ends (Extends-refl C order c valid) (λ p k. inr f) in
      elim (Option-cases (BTreeMap.get s c.node_values)) [
        | inl a ↦ subst (Updates c e) (ground arith) (idle (λ x y h k. cc))
        | inr (x, a) ↦ elim (Option-cases (transfer x e)) [
          | inl b ↦ subst (Updates c e) (ground arith) (idle (λ x' y h k. cc))
          | inr (y, b) ↦ subst (Updates c e) (ground arith) (
              update_edge-flow c e s t x y ends a b (merge_node_value C t y c)
                (merge_node_value-Gives C order c t y valid (g.ends_lt e s t ends).1))
        ]
      ]

  pub Flows-Extends :
      (c c' : Computation C) (e s t p : ℕ)
      → get_elem? c.node_priority_list s ≡ some p
      → Extends C order c c'
      → Flows C order c e s t
      → (BTreeSet.contains p c'.worklist ≡ true) ⊎ Flows C order c' e s t
  Flows-Extends c c' e s t p k x f = elim (x.changed s p k) [
    | inl waits ↦ inl waits
    | inr same ↦ inr (λ a b h k'.
        let old = f a b (sym same ∙ h) k' in
        let new = x.grows t old.0 old.1 in (new.0, new.1, le_trans b old.0 new.0 old.2 new.2))
  ]

  -- After `update_edges` this holds of each of the edges.
  pub record Visits (c : Computation C) (es : List ℕ) (r : Outcome (Computation C)) : Type 0 where
    pub next : Computation C
    pub returns : r ≡ ok next
    pub extends : Extends C order c next
    pub flows :
        (e s t p : ℕ)
        → e ∈ es
        → graph.edge_endpoints e ≡ some (s, t)
        → get_elem? c.node_priority_list s ≡ some p
        → (BTreeSet.contains p next.worklist ≡ true) ⊎ Flows C order next e s t

  update_edges-Visits :
      (c : Computation C) (n : ℕ) (es : List ℕ)
      → IsDiGraph graph
      → IsValid C c
      → ((e : ℕ) → e ∈ es → (t : ℕ) × (graph.edge_endpoints e ≡ some (n, t)))
      → Visits c es (update_edges C es c)
  unfolding update_edges
  update_edges-Visits c n [] g valid known = record {
    next = c;
    returns = refl;
    extends = Extends-refl C order c valid;
    flows = λ e s t p m. absurd m;
  }
  update_edges-Visits c n (e ∷ es) g valid known =
      let here = known e (inl refl) in
      let one = update_edge-Updates c e n here.0 g valid here.1 in
      let rest = update_edges-Visits one.next n es g one.extends.valid (λ e' m. known e' (inr m)) in
      record {
        next = rest.next;
        returns = rw one.returns rest.returns;
        extends = Extends-trans C order c one.next rest.next one.extends rest.extends;
        flows = λ e' s t p m h k.
            let k' = one.extends.same_priorities in
            let waits : get_elem? one.next.node_priority_list s ≡ some p = rw k' k in
            elim m [
              | inr later ↦ rest.flows e' s t p later h waits
              | inl same ↦
                  let h' : graph.edge_endpoints e ≡ some (s, t) = rw same at h in
                  elim (one.flows s t p h' k) [
                    | inl w ↦ inl (rest.extends.still_waits p w)
                    | inr f ↦
                        subst
                          (λ a.
                            (BTreeSet.contains p rest.next.worklist ≡ true)
                            ⊎ Flows C order rest.next a s t)
                          (sym same) (Flows-Extends one.next rest.next e s t p waits rest.extends f)
                  ]
            ];
      }

  pub update_node-Visits :
      (c : Computation C) (n : ℕ)
      → IsDiGraph graph
      → IsValid C c
      → Visits c (graph.edges n) (update_node C n c)
  unfolding update_node
  update_node-Visits c n g valid = update_edges-Visits c n (graph.edges n) g valid (g.edge_exists n)
