-- ===== src/Analysis/Fixpoint/Loop.antt =====
-- The loop of `compute_with_max_steps`: it ends, and what it leaves is a fixpoint but for the
-- nodes of the final worklist.
use fkie_cad_cwe_checker.Analysis.Fixpoint.Visits.{Flows-Extends, update_node-Visits, Visits}
use fkie_cad_cwe_checker.Analysis.Fixpoint.Budget.{
  budget-set, budget-replicate, contains-empty, budget,
}
use fkie_cad_cwe_checker.Prelude.{
  ℕ, zero, suc, ◌+◌, ◌*◌, ◌<◌, ◌≡◌, refl, ◌∙◌, ◌⊎◌, inl, inr, true, some, List, [], arith, ltb,
  ◌==◌, Bool-cases, Option-cases,
}
use fkie_cad_cwe_checker.Prelude.Lists.{
  length, get_elem?, set, replicate, ◌∈◌, length-set, get_elem?-lt, get_elem?-some,
  length-replicate,
}
use mathlib.Core.Path.{subst}
use fkie_cad_cwe_checker.Prelude.Outcome.{Outcome, ok}
use fkie_cad_cwe_checker.Prelude.Key.{nat_ord}
use fkie_cad_cwe_checker.Analysis.Fixpoint.{
  rounds, compute_with_max_steps, max_steps_loop, Context, Computation,
}
use fkie_cad_cwe_checker.BTreeMap
use fkie_cad_cwe_checker.BTreeSet
use fkie_cad_cwe_checker.BTreeSet.Laws.{contains-insert, contains-remove, contains-last, last-none}
use fkie_cad_cwe_checker.BTreeSet.Bounded.{
  Within, Within-insert, Within-remove, Within-contains, length-Within, length-remove,
}
use fkie_cad_cwe_checker.Analysis.Fixpoint.Extends.{Extends-refl}
use fkie_cad_cwe_checker.Analysis.Fixpoint.Order.{IsOrdered, IsValid, Flows, Extends, IsDiGraph}

module _ (C : Context) (order : IsOrdered C) where
  open C use {NodeValue, graph}
  open order use {Le, le_refl, le_trans}

  -- Each edge's flow is accounted for, or its start waits, or was given up on.
  abbrev pub SettledBut : List ℕ → Computation C → Type 0
  SettledBut given_up c =
      (e s t p : ℕ)
      → graph.edge_endpoints e ≡ some (s, t)
      → get_elem? c.node_priority_list s ≡ some p
      → (BTreeSet.contains p c.worklist ≡ true)
        ⊎ ((BTreeSet.contains p given_up ≡ true) ⊎ Flows C order c e s t)

  -- A normal return of a valid state that is settled and lies above `c`.
  pub record Computes (c : Computation C) (r : Outcome (Computation C)) : Type 0 where
    pub next : Computation C
    pub returns : r ≡ ok next
    pub valid : IsValid C next
    pub settled : SettledBut [] next
    pub same_priorities : next.node_priority_list ≡ c.node_priority_list
    pub grows :
        (n : ℕ) (z : NodeValue)
        → BTreeMap.get n c.node_values ≡ some z
        → (z' : NodeValue) × (BTreeMap.get n next.node_values ≡ some z') × Le z z'

  -- What one visit of the node with priority `p` leaves, the edges of other nodes included.
  pub visit-SettledBut :
      (c : Computation C) (given_up : List ℕ) (p n : ℕ) (r : Outcome (Computation C))
      → IsDiGraph graph
      → IsValid C c
      → get_elem? c.priority_to_node_list p ≡ some n
      → SettledBut given_up c
      → (v : Visits C order
          (record c { worklist = BTreeSet.remove p c.worklist })
          (graph.edges n)
          r)
      → SettledBut given_up v.next
  visit-SettledBut c given_up p n r g valid here settled v e s t q h k =
      let old : get_elem? c.node_priority_list s ≡ some q = rw v.extends.same_priorities at k in
      elim (Bool-cases (q == p)) [
        | inl same ↦
            let q≡p : q ≡ p = ground arith in
            let there : get_elem? c.priority_to_node_list p ≡ some s =
              rw q≡p at (valid.node_of s q old) in
            let start : s ≡ n = cc in
            let listed : e ∈ graph.edges n = rw start at (g.edge_listed e s t h) in
            ground (arith, v.flows e s t q listed h old)
        | inr other ↦
            let after = Flows-Extends C order _ v.next e s t q old v.extends in
            elim (settled e s t q h old) [
              | inl waits ↦
                  inl (v.extends.still_waits q (ground (arith, contains-remove p q c.worklist)))
              | inr (inl given) ↦ inr (inl given)
              | inr (inr flows) ↦ elim (after flows) [ inl waits ↦ inl waits | inr f ↦ inr (inr f) ]
            ]
      ]

  give_up-SettledBut :
      (c : Computation C) (given_up : List ℕ) (p : ℕ)
      → SettledBut given_up c
      → SettledBut
          (BTreeSet.insert p given_up)
          (record c { worklist = BTreeSet.remove p c.worklist })
  give_up-SettledBut c given_up p settled e s t q h k =
      ground
        (arith, settled e s t q h k, contains-remove p q c.worklist, contains-insert p q given_up)

  compute-last :
      (c : Computation C) (given_up : List ℕ)
      → IsValid C c
      → Within 0 graph.node_count given_up
      → c.worklist ≡ []
      → SettledBut given_up c
      → Computes c (ok (record c { worklist = given_up }))
  compute-last c given_up valid bounded empty settled = record {
    next = record c { worklist = given_up };
    returns = refl;
    valid = record {
      priorities = valid.priorities;
      nodes = valid.nodes;
      node_of = valid.node_of;
      priority_of = valid.priority_of;
      pending = bounded;
    };
    settled = λ e s t p h k. elim (settled e s t p h k) [
      | inl waits ↦ absurd (contains-empty p c.worklist empty waits)
      | inr (inl given) ↦ inl given
      | inr (inr flows) ↦ inr (inr flows)
    ];
    same_priorities = refl;
    grows = λ n z h. (z, h, le_refl z);
  }

  abbrev pub taken : Computation C → ℕ → Computation C
  taken c p = record c { worklist = BTreeSet.remove p c.worklist }

  Computes-after :
      (c : Computation C) (p : ℕ) (c' : Computation C) (r : Outcome (Computation C))
      → Extends C order (taken c p) c'
      → Computes c' r
      → Computes c r
  Computes-after c p c' r x f = record {
    next = f.next;
    returns = f.returns;
    valid = f.valid;
    settled = f.settled;
    same_priorities = f.same_priorities ∙ x.same_priorities;
    grows = λ n z h.
        let u = x.grows n z h in
        let w = f.grows n u.0 u.1 in (w.0, w.1, le_trans z u.0 w.0 u.2 w.2);
  }

  pub take-IsValid :
      (c : Computation C) (p : ℕ)
      → IsValid C c
      → IsValid C (record c { worklist = BTreeSet.remove p c.worklist })
  take-IsValid c p v = record {
    priorities = v.priorities;
    nodes = v.nodes;
    node_of = v.node_of;
    priority_of = v.priority_of;
    pending = Within-remove 0 graph.node_count p c.worklist v.pending;
  }

  -- The measure of the loop: each visit uses up budget, and giving up shortens the worklist.
  abbrev measure : ℕ → List ℕ → List ℕ → ℕ
  measure max_steps steps worklist =
      budget max_steps steps * (graph.node_count + 1) + length worklist

  measure-visit :
      (max_steps n count : ℕ) (steps w w' : List ℕ)
      → get_elem? steps n ≡ some count
      → count < max_steps
      → Within 0 graph.node_count w'
      → measure max_steps (set steps n (count + 1)) w' < measure max_steps steps w
  measure-visit max_steps n count steps w w' h lt inside =
      let less = budget-set max_steps steps n count h lt in
      let short = length-Within 0 graph.node_count w' (omega arith) inside in rw less (omega arith)

  measure-give_up :
      (max_steps p : ℕ) (steps w : List ℕ)
      → Within 0 graph.node_count w
      → BTreeSet.contains p w ≡ true
      → measure max_steps steps (BTreeSet.remove p w) < measure max_steps steps w
  measure-give_up max_steps p steps w inside h =
      omega (arith, length-remove 0 graph.node_count p w inside h)

  -- With the measure below the fuel the loop returns.
  loop-Computes :
      (fuel max_steps : ℕ) (steps given_up : List ℕ) (c : Computation C)
      → IsDiGraph graph
      → IsValid C c
      → Within 0 graph.node_count given_up
      → length steps ≡ graph.node_count
      → SettledBut given_up c
      → measure max_steps steps c.worklist < fuel
      → Computes c (max_steps_loop C fuel max_steps steps given_up c)
  unfolding max_steps_loop
  loop-Computes zero max_steps steps given_up c g valid bounded size settled lt =
      absurd (omega arith)
  loop-Computes (suc fuel) max_steps steps given_up c g valid bounded size settled lt =
      elim (Option-cases (BTreeSet.last c.worklist)) [
        | inl e ↦
            subst (Computes c) (ground arith)
              (compute-last c given_up valid bounded (last-none c.worklist e) settled)
        | inr (p, e) ↦
            let waits = contains-last p c.worklist e in
            let inside = Within-contains 0 graph.node_count p c.worklist valid.pending waits in
            let (n, here) = get_elem?-some c.priority_to_node_list p (omega (arith, valid.nodes)) in
            let node_lt = get_elem?-lt c.node_priority_list n (valid.priority_of p n here) in
            let (count, seen) = get_elem?-some steps n (omega (arith, valid.priorities)) in
            elim (Bool-cases (ltb count max_steps)) [
              | inl more ↦
                  let v = update_node-Visits C order (taken c p) n g (take-IsValid c p valid) in
                  let steps' = set steps n (count + 1) in
                  let falls =
                    measure-visit max_steps n count steps c.worklist v.next.worklist seen
                      (ground arith) v.extends.valid.pending in
                  let rest =
                    loop-Computes fuel max_steps steps' given_up v.next g v.extends.valid bounded
                      (length-set steps n (count + 1) ∙ size)
                      (visit-SettledBut c given_up p n _ g valid here settled v) (omega arith) in
                  subst (Computes c) (ground (arith, v.returns))
                    (Computes-after c p v.next _ v.extends rest)
              | inr done ↦
                  let falls = measure-give_up max_steps p steps c.worklist valid.pending waits in
                  let rest =
                    loop-Computes fuel max_steps steps (BTreeSet.insert p given_up) (taken c p) g
                      (take-IsValid c p valid)
                      (Within-insert 0 graph.node_count p given_up (omega arith) inside.1 bounded)
                      size (give_up-SettledBut c given_up p settled) (omega arith) in
                  subst (Computes c) (ground arith) (
                    Computes-after c p (taken c p) _
                      (Extends-refl C order (taken c p) (take-IsValid c p valid)) rest)
            ]
      ]

  -- On petgraph's graphs and for an ordered domain, from a valid and settled state,
  -- `compute_with_max_steps` ends with no panic, in a valid state; every value is at least as high
  -- as before, and for every edge, if its start is not in the final worklist, what flows along it
  -- is below the value at its end.
  pub compute_with_max_steps-Computes :
      (max_steps : ℕ) (c : Computation C)
      → IsDiGraph graph
      → IsValid C c
      → SettledBut [] c
      → Computes c (compute_with_max_steps C max_steps c)
  unfolding compute_with_max_steps
  compute_with_max_steps-Computes max_steps c g valid settled =
      loop-Computes (rounds C max_steps) max_steps (replicate graph.node_count 0) [] c g valid tt
        (length-replicate graph.node_count 0) settled
        (rw (budget-replicate max_steps graph.node_count)
          (omega (arith, length-Within 0 graph.node_count c.worklist (omega arith) valid.pending)))
