-- ===== src/Analysis/Fixpoint/Tests.antt =====
-- Runs of the fixpoint computation: shortest distances in a graph with three nodes, as in the
-- tests of fixpoint.rs.
use fkie_cad_cwe_checker.Analysis.Fixpoint.Ends.{IsDeep, compute-Ends}
use mathlib.Core.Path.{subst}
use fkie_cad_cwe_checker.Analysis.Fixpoint.Loop.{
  Computes, SettledBut, compute_with_max_steps-Computes,
}
use fkie_cad_cwe_checker.Analysis.Fixpoint.Fixed.{IsFixpoint, compute-IsFixpoint}
use fkie_cad_cwe_checker.Analysis.Fixpoint.Least.{
  IsMonotone, LiesBelow, compute_with_max_steps-IsLeast,
}
use fkie_cad_cwe_checker.Prelude.{
  ℕ, zero, suc, ◌+◌, ◌-◌, ◌≤◌, ◌<◌, ◌≡◌, refl, inl, inr, Option, none, some, List, [], ◌∷◌, arith,
  ◌==◌, Bool-cases, true, ==_iff,
}
use fkie_cad_cwe_checker.Prelude.Lists.{get_elem?, ◌∈◌}
use fkie_cad_cwe_checker.Prelude.Outcome.{ok}
use fkie_cad_cwe_checker.Prelude.Key.{nat_ord}
use fkie_cad_cwe_checker.BTreeMap
use fkie_cad_cwe_checker.BTreeSet
use Prim.Native.Nat.{min}
use fkie_cad_cwe_checker.Analysis.Fixpoint.{
  DiGraph, Context, Computation, from_node_priority_list, set_node_value, compute_with_max_steps,
  max_steps_loop, update_node, update_edges, update_edge, merge_node_value, has_stabilized, compute,
}
use fkie_cad_cwe_checker.Analysis.Fixpoint.Order.{IsDiGraph, IsOrdered}
use fkie_cad_cwe_checker.Analysis.Fixpoint.Enumeration.{Enumerates}
use fkie_cad_cwe_checker.Analysis.Fixpoint.Init.{
  IsFresh, from_node_priority_list-IsFresh, set_node_value-IsFresh, IsFresh-SettledBut,
}

abbrev out_edges : ℕ → List ℕ
out_edges zero = 0 ∷ 3 ∷ []
out_edges (suc zero) = 1 ∷ []
out_edges (suc (suc zero)) = 2 ∷ []
out_edges (suc (suc (suc n))) = []

abbrev ends : ℕ → Option (ℕ × ℕ)
ends zero = some (0, 1)
ends (suc zero) = some (1, 2)
ends (suc (suc zero)) = some (2, 0)
ends (suc (suc (suc zero))) = some (0, 2)
ends (suc (suc (suc (suc e)))) = none

abbrev weight : ℕ → ℕ
weight zero = 2
weight (suc zero) = 3
weight (suc (suc e)) = 10

abbrev triangle : DiGraph
triangle = record {
  node_count = 3;
  edges = out_edges;
  edge_endpoints = ends;
  kosaraju_scc = (2 ∷ 1 ∷ 0 ∷ []) ∷ [];
}

abbrev distances : Context
distances = record {
  NodeValue = ℕ;
  value_eq = ◌==◌;
  graph = triangle;
  merge = min;
  transfer = λ d e. some (d + weight e);
}

edge_exists : (n e : ℕ) → e ∈ out_edges n → (t : ℕ) × (ends e ≡ some (n, t))
edge_exists zero e m = elim (Bool-cases (e == 0)) [
  | inl a ↦ let same : e ≡ 0 = ground arith in rw same (1, refl)
  | inr a ↦ let same : e ≡ 3 = ground arith in rw same (2, refl)
]
edge_exists (suc zero) e m = let same : e ≡ 1 = ground arith in rw same (2, refl)
edge_exists (suc (suc zero)) e m = let same : e ≡ 2 = ground arith in rw same (0, refl)
edge_exists (suc (suc (suc n))) e m = absurd m

edge_listed : (e s t : ℕ) → ends e ≡ some (s, t) → e ∈ out_edges s
edge_listed zero s t h = let same : 0 ≡ s = ground arith in rw (← same) (inl refl)
edge_listed (suc zero) s t h = let same : 1 ≡ s = ground arith in rw (← same) (inl refl)
edge_listed (suc (suc zero)) s t h = let same : 2 ≡ s = ground arith in rw (← same) (inl refl)
edge_listed (suc (suc (suc zero))) s t h =
    let same : 0 ≡ s = ground arith in rw (← same) (inr (inl refl))
edge_listed (suc (suc (suc (suc e)))) s t h = absurd (ground arith)

ends_lt : (e s t : ℕ) → ends e ≡ some (s, t) → (s < 3) × (t < 3)
ends_lt zero s t h = ground arith
ends_lt (suc zero) s t h = ground arith
ends_lt (suc (suc zero)) s t h = ground arith
ends_lt (suc (suc (suc zero))) s t h = ground arith
ends_lt (suc (suc (suc (suc e)))) s t h = absurd (ground arith)

triangle-IsDiGraph : IsDiGraph triangle
triangle-IsDiGraph = record {
  edge_exists = edge_exists;
  edge_listed = edge_listed;
  ends_lt = ends_lt;
}

-- A smaller distance is more information: it stands higher.
abbrev by_distance : IsOrdered distances
by_distance = record {
  Le = λ a b. b ≤ a;
  le_refl = λ a. omega arith;
  le_trans = λ a b c h k. omega arith;
  le-merge_left = λ a b. omega arith;
  le-merge_right = λ a b. omega arith;
  value_eq_sound = λ a b h. (==_iff a b).0 h;
}

abbrev flip3 : ℕ → ℕ
flip3 x = 2 - x

abbrev scc_order : List ℕ
scc_order = 2 ∷ 1 ∷ 0 ∷ []

scc_lt : (i x : ℕ) → get_elem? scc_order i ≡ some x → (x < 3) × (i + x ≡ 2)
scc_lt zero x h = ground arith
scc_lt (suc zero) x h = ground arith
scc_lt (suc (suc zero)) x h = ground arith
scc_lt (suc (suc (suc i))) x h = absurd (ground arith)

scc_listed : (x : ℕ) → x < 3 → get_elem? scc_order (flip3 x) ≡ some x
scc_listed zero h = refl
scc_listed (suc zero) h = refl
scc_listed (suc (suc zero)) h = refl
scc_listed (suc (suc (suc x))) h = absurd (omega arith)

scc-Enumerates : Enumerates 3 scc_order
scc-Enumerates = record {
  count = refl;
  lt = λ i x h. (scc_lt i x h).0;
  once = λ i j x h k. omega (arith, scc_lt i x h, scc_lt j x k);
  position = flip3;
  listed = scc_listed;
}

abbrev empty : Computation distances
empty = from_node_priority_list distances none scc_order

empty-IsFresh : IsFresh distances empty
empty-IsFresh = from_node_priority_list-IsFresh distances none scc_order scc-Enumerates

-- Node 0 has distance 0.
abbrev started : Computation distances
started = record empty { node_values = BTreeMap.insert 0 0 []; worklist = BTreeSet.insert 2 [] }

set_node_value_run : set_node_value distances 0 0 empty ≡ ok started
unfolding set_node_value from_node_priority_list BTreeMap.insert BTreeSet.insert
set_node_value_run = refl

abbrev finished : Computation distances
finished = record empty { node_values = (0, 0) ∷ (1, 2) ∷ (2, 5) ∷ []; worklist = [] }

compute_run : compute_with_max_steps distances 5 started ≡ ok finished
unfolding compute_with_max_steps from_node_priority_list max_steps_loop update_node update_edges
    update_edge merge_node_value set_node_value BTreeMap.insert BTreeMap.get BTreeSet.insert
    BTreeSet.remove BTreeSet.last
compute_run = refl

started-IsFresh : IsFresh distances started
started-IsFresh =
    let s = set_node_value-IsFresh distances 0 0 empty empty-IsFresh (omega arith) in
    let same : s.0 ≡ started = ground (arith, s.1, set_node_value_run) in
    subst (IsFresh distances) same s.2

started-SettledBut : SettledBut distances by_distance [] started
started-SettledBut = IsFresh-SettledBut distances by_distance started started-IsFresh

compute_with_max_steps-Computes_example :
    Computes distances by_distance started (compute_with_max_steps distances 5 started)
compute_with_max_steps-Computes_example =
    compute_with_max_steps-Computes distances by_distance 5 started triangle-IsDiGraph
      (IsFresh.valid started-IsFresh) started-SettledBut

compute-IsFixpoint_example :
    (c' : Computation distances) × (compute_with_max_steps distances 5 started ≡ ok c')
    × (has_stabilized distances c' ≡ true → IsFixpoint distances by_distance c')
compute-IsFixpoint_example =
    compute-IsFixpoint distances by_distance 5 started triangle-IsDiGraph
      (IsFresh.valid started-IsFresh) started-SettledBut

distances-IsMonotone : IsMonotone distances by_distance
distances-IsMonotone = record {
  transfer_monotone = λ e x x' y le h. (x' + weight e, refl, ground arith);
  merge_least = λ a b c h k. omega arith;
}

compute_with_max_steps-IsLeast_example :
    (c' : Computation distances) × (compute_with_max_steps distances 5 started ≡ ok c')
    × LiesBelow distances by_distance started c'
    × ((d : Computation distances)
        → IsFixpoint distances by_distance d
        → LiesBelow distances by_distance started d
        → LiesBelow distances by_distance c' d)
    × (has_stabilized distances c' ≡ true → IsFixpoint distances by_distance c')
compute_with_max_steps-IsLeast_example =
    compute_with_max_steps-IsLeast distances by_distance 5 started triangle-IsDiGraph
      distances-IsMonotone (IsFresh.valid started-IsFresh) started-SettledBut

-- A distance can fall only finitely often.
abbrev distances-IsDeep : IsDeep distances
distances-IsDeep = record { depth = λ d. d; falls = λ a b h. ground arith }

compute-Ends_example :
    (fuel : ℕ) × (c' : Computation distances) × (compute distances fuel started ≡ ok c')
    × (has_stabilized distances c' ≡ true)
    × IsFixpoint distances by_distance c'
compute-Ends_example =
    compute-Ends distances by_distance distances-IsDeep started triangle-IsDiGraph
      (IsFresh.valid started-IsFresh) started-SettledBut
