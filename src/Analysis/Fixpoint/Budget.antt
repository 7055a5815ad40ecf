-- ===== src/Analysis/Fixpoint/Budget.antt =====
-- The visits of nodes that are left.
-- nodes of the final worklist.
use fkie_cad_cwe_checker.Prelude.{
  ℕ, zero, suc, ◌+◌, ◌-◌, ◌*◌, ◌<◌, ◌≡◌, true, some, List, [], ◌∷◌, arith,
}
use fkie_cad_cwe_checker.Prelude.Lists.{get_elem?, set, replicate}
use fkie_cad_cwe_checker.Prelude.Key.{nat_ord}
use fkie_cad_cwe_checker.BTreeSet

-- The visits that are left, over all nodes.
pub budget : ℕ → List ℕ → ℕ
budget max_steps [] = 0
budget max_steps (s ∷ ss) = (max_steps - s) + budget max_steps ss

pub budget-set :
    (max_steps : ℕ) (ss : List ℕ) (i count : ℕ)
    → get_elem? ss i ≡ some count
    → count < max_steps
    → budget max_steps ss ≡ budget max_steps (set ss i (count + 1)) + 1
unfolding budget
budget-set m [] i count h lt = cc
budget-set m (s ∷ ss) zero count h lt = let same : s ≡ count = ground arith in omega arith
budget-set m (s ∷ ss) (suc i) count h lt = omega (arith, budget-set m ss i count h lt)

pub budget-replicate : (max_steps n : ℕ) → budget max_steps (replicate n 0) ≡ n * max_steps
unfolding budget
budget-replicate m zero = omega arith
budget-replicate m (suc n) = omega (arith, budget-replicate m n)

pub contains-empty : (p : ℕ) (w : List ℕ) → w ≡ [] → BTreeSet.contains p w ≡ true → ⊥
unfolding BTreeSet.contains
contains-empty p w e h = ground arith
