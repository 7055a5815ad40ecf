-- ===== src/Analysis/Fixpoint/Fixed.antt =====
-- What a stabilized computation is: a fixpoint.
use fkie_cad_cwe_checker.Prelude.{ℕ, ◌≡◌, inl, inr, true, some, [], arith}
use fkie_cad_cwe_checker.Prelude.Lists.{get_elem?-some}
use fkie_cad_cwe_checker.Prelude.Outcome.{ok}
use fkie_cad_cwe_checker.Prelude.Key.{nat_ord}
use fkie_cad_cwe_checker.BTreeSet
use fkie_cad_cwe_checker.Analysis.Fixpoint.{
  Context, Computation, compute_with_max_steps, has_stabilized,
}
use fkie_cad_cwe_checker.Analysis.Fixpoint.Order.{IsDiGraph, IsOrdered, IsValid, Flows}
use fkie_cad_cwe_checker.Analysis.Fixpoint.Loop.{SettledBut, compute_with_max_steps-Computes}

module _ (C : Context) (order : IsOrdered C) where
  open C use {NodeValue, graph}
  open order use {Le}

  -- For every edge what flows along it is below the value at its end.
  abbrev pub IsFixpoint : Computation C → Type 0
  IsFixpoint c = (e s t : ℕ) → graph.edge_endpoints e ≡ some (s, t) → Flows C order c e s t

  pub stable-empty : (c : Computation C) → has_stabilized C c ≡ true → c.worklist ≡ []
  unfolding has_stabilized
  stable-empty c h = ground arith

  pub settled-IsFixpoint :
      (c : Computation C)
      → IsDiGraph graph
      → IsValid C c
      → SettledBut C order [] c
      → c.worklist ≡ []
      → IsFixpoint c
  unfolding BTreeSet.contains
  settled-IsFixpoint c g valid settled empty e s t h =
      let (p, k) =
        get_elem?-some c.node_priority_list s
          (omega (arith, g.ends_lt e s t h, valid.priorities)) in
      elim (settled e s t p h k) [
        | inl waits ↦ absurd (ground arith)
        | inr (inl none_given) ↦ absurd (ground arith)
        | inr (inr flows) ↦ flows
      ]

  -- On petgraph's graphs and for an ordered domain, from a valid and settled state,
  -- `compute_with_max_steps` returns some state; if that state has stabilized, it is a fixpoint:
  -- for every edge, the transfer of the value at its start is below the value at its end.
  pub compute-IsFixpoint :
      (max_steps : ℕ) (c : Computation C)
      → IsDiGraph graph
      → IsValid C c
      → SettledBut C order [] c
      → (c' : Computation C) × (compute_with_max_steps C max_steps c ≡ ok c')
        × (has_stabilized C c' ≡ true → IsFixpoint c')
  compute-IsFixpoint max_steps c g valid settled =
      let r = compute_with_max_steps-Computes C order max_steps c g valid settled in
      (
        r.next,
        r.returns,
        λ stable. settled-IsFixpoint r.next g r.valid r.settled (stable-empty r.next stable),
      )
