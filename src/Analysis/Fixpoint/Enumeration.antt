-- ===== src/Analysis/Fixpoint/Enumeration.antt =====
-- Enumerations of the nodes of a graph, and the priorities that they give.
use fkie_cad_cwe_checker.BTreeMap.Dense.{IsDense, values, get_elem?-values}
use fkie_cad_cwe_checker.BTreeMap.{IsSorted}
use fkie_cad_cwe_checker.Prelude.{
  ℕ, zero, suc, ◌+◌, ◌≤◌, ◌<◌, ◌≡◌, refl, ap, ◌∙◌, ◌≢◌, inl, inr, ◌&&◌, ◌||◌, none, some, List, [],
  ◌∷◌, arith, ltb, leb, if◌then◌else◌, Bool-cases,
}
use fkie_cad_cwe_checker.Prelude.Lists.{length, get_elem?}
use fkie_cad_cwe_checker.Prelude.Key.{nat_ord}
use fkie_cad_cwe_checker.BTreeMap
use fkie_cad_cwe_checker.BTreeSet
use fkie_cad_cwe_checker.BTreeMap.Laws.{get-insert, insert-IsSorted}
use fkie_cad_cwe_checker.BTreeSet.Laws.{contains-insert}
use fkie_cad_cwe_checker.BTreeSet.Bounded.{Within, Within-insert}
use fkie_cad_cwe_checker.Analysis.Fixpoint.{node_to_index, default_worklist}

-- The nodes are 0, ..., n - 1, each listed once.
pub record Enumerates (n : ℕ) (nodes : List ℕ) : Type 0 where
  pub count : length nodes ≡ n
  pub lt : (i x : ℕ) → get_elem? nodes i ≡ some x → x < n
  pub once : (i j x : ℕ) → get_elem? nodes i ≡ some x → get_elem? nodes j ≡ some x → i ≡ j
  pub position : ℕ → ℕ
  pub listed : (x : ℕ) → x < n → get_elem? nodes (position x) ≡ some x

get-node_to_index_absent :
    (i : ℕ) (nodes : List ℕ) (m : List (ℕ × ℕ)) (x : ℕ)
    → ((k : ℕ) → get_elem? nodes k ≢ some x)
    → BTreeMap.get x (node_to_index i nodes m) ≡ BTreeMap.get x m
unfolding node_to_index
get-node_to_index_absent i [] m x absent = refl
get-node_to_index_absent i (y ∷ nodes) m x absent = ground (
  arith,
  absent 0,
  get-insert y x i m,
  get-node_to_index_absent (i + 1) nodes (BTreeMap.insert y i m) x (λ k. absent (suc k)),
)

-- Looking up a node in the map gives its position.
get-node_to_index :
    (i : ℕ) (nodes : List ℕ) (m : List (ℕ × ℕ)) (j x : ℕ)
    → ((k : ℕ) → get_elem? nodes k ≡ some x → k ≡ j)
    → get_elem? nodes j ≡ some x
    → BTreeMap.get x (node_to_index i nodes m) ≡ some (i + j)
unfolding node_to_index
get-node_to_index i [] m j x once h = cc
get-node_to_index i (y ∷ nodes) m zero x once h =
    let absent : (k : ℕ) → get_elem? nodes k ≢ some x = λ k e. omega (arith, once (suc k) e) in
    ground (
      arith,
      get-insert y x i m,
      get-node_to_index_absent (i + 1) nodes (BTreeMap.insert y i m) x absent,
    )
get-node_to_index i (y ∷ nodes) m (suc j) x once h =
    get-node_to_index (i + 1) nodes (BTreeMap.insert y i m) j x
      (λ k e. omega (arith, once (suc k) e)) h
    ∙ ap some (omega arith)

pub node_to_index-IsSorted :
    (i : ℕ) (nodes : List ℕ) (m : List (ℕ × ℕ)) → IsSorted m → IsSorted (node_to_index i nodes m)
unfolding node_to_index
node_to_index-IsSorted i [] m s = s
node_to_index-IsSorted i (y ∷ nodes) m s =
    node_to_index-IsSorted (i + 1) nodes (BTreeMap.insert y i m) (insert-IsSorted y i m s)

module _ (n : ℕ) (nodes : List ℕ) (all : Enumerates n nodes) where
  abbrev index_map : List (ℕ × ℕ)
  index_map = node_to_index 0 nodes []

  get-index_map :
      (x : ℕ) → BTreeMap.get x index_map ≡ (if ltb x n then some (all.position x) else none)
  unfolding BTreeMap.get
  get-index_map x = elim (Bool-cases (ltb x n)) [
    | inl inside ↦
        let at = all.listed x (ground arith) in
        let found =
          get-node_to_index 0 nodes [] (all.position x) x
            (λ k e. all.once k (all.position x) x e at) at in
        rw inside (found ∙ ap some (omega arith))
    | inr outside ↦
        let absent : (k : ℕ) → get_elem? nodes k ≢ some x = λ k e. ground (arith, all.lt k x e) in
        rw outside (get-node_to_index_absent 0 nodes [] x absent)
  ]

  pub index_map-IsDense : IsDense 0 n index_map
  index_map-IsDense x = ground (arith, get-index_map x)

  pub index_map-values :
      (x : ℕ) → get_elem? (values index_map) x ≡ (if ltb x n then some (all.position x) else none)
  index_map-values x =
      let sorted = node_to_index-IsSorted 0 nodes [] tt in
      let same : 0 + x ≡ x = omega arith in
      get_elem?-values 0 n index_map x sorted index_map-IsDense
      ∙ ap (λ i. BTreeMap.get i index_map) same
      ∙ get-index_map x

pub Within-default :
    (n i hi : ℕ) (w : List ℕ) → i + n ≤ hi → Within 0 hi w → Within 0 hi (default_worklist n i w)
unfolding default_worklist
Within-default zero i hi w h inside = inside
Within-default (suc n) i hi w h inside =
    Within-default n (i + 1) hi (BTreeSet.insert i w) (omega arith)
      (Within-insert 0 hi i w (omega arith) (omega arith) inside)

pub contains-default :
    (n i p : ℕ) (w : List ℕ)
    → BTreeSet.contains p (default_worklist n i w)
      ≡ (leb i p && ltb p (i + n) || BTreeSet.contains p w)
unfolding default_worklist
contains-default zero i p w = ground arith
contains-default (suc n) i p w =
    ground (arith, contains-default n (i + 1) p (BTreeSet.insert i w), contains-insert i p w)
