-- ===== src/BTreeSet/Bounded.antt =====
-- Sets of numbers below a bound: how many elements they can have.
use fkie_cad_cwe_checker.Prelude.{
  ℕ, ◌+◌, ◌≤◌, ◌<◌, ◌≡◌, refl, true, false, List, [], ◌∷◌, length, arith,
}
use fkie_cad_cwe_checker.Prelude.Key.{nat_ord}
use fkie_cad_cwe_checker.BTreeSet.{contains, insert, remove}

-- The elements ascend, from `lo` on, and stay below `hi`.
abbrev pub Within : ℕ → ℕ → List ℕ → Type 0
Within lo hi [] = Unit
Within lo hi (k ∷ s) = (lo ≤ k) × (k < hi) × Within (k + 1) hi s

pub Within-weaken : (lo lo' hi : ℕ) (s : List ℕ) → lo ≤ lo' → Within lo' hi s → Within lo hi s
Within-weaken lo lo' hi [] h w = tt
Within-weaken lo lo' hi (k ∷ s) h (a, b, c) = (omega arith, b, c)

pub Within-insert :
    (lo hi k : ℕ) (s : List ℕ) → lo ≤ k → k < hi → Within lo hi s → Within lo hi (insert k s)
unfolding insert
Within-insert lo hi k [] a b w = (a, b, tt)
Within-insert lo hi k (j ∷ s) a b (p, q, r) =
    ground (arith, Within-insert (j + 1) hi k s, Within-weaken (k + 1) (j + 1) hi s)

pub Within-remove : (lo hi k : ℕ) (s : List ℕ) → Within lo hi s → Within lo hi (remove k s)
unfolding remove
Within-remove lo hi k [] w = tt
Within-remove lo hi k (j ∷ s) (p, q, r) =
    ground (arith, Within-remove (j + 1) hi k s r, Within-weaken lo (j + 1) hi (remove k s))

pub length-Within : (lo hi : ℕ) (s : List ℕ) → lo ≤ hi → Within lo hi s → lo + length s ≤ hi
length-Within lo hi [] h w = omega arith
length-Within lo hi (k ∷ s) h (p, q, r) = omega (arith, length-Within (k + 1) hi s)

pub Within-contains :
    (lo hi k : ℕ) (s : List ℕ) → Within lo hi s → contains k s ≡ true → (lo ≤ k) × (k < hi)
unfolding contains
Within-contains lo hi k [] w h = ground arith
Within-contains lo hi k (j ∷ s) (p, q, r) h = ground (arith, Within-contains (j + 1) hi k s r)

Within-not-contains : (lo hi k : ℕ) (s : List ℕ) → Within lo hi s → k < lo → contains k s ≡ false
unfolding contains
Within-not-contains lo hi k [] w h = refl
Within-not-contains lo hi k (j ∷ s) (p, q, r) h =
    ground (arith, Within-not-contains (j + 1) hi k s r)

remove-absent : (lo hi k : ℕ) (s : List ℕ) → Within lo hi s → k < lo → remove k s ≡ s
unfolding remove
remove-absent lo hi k [] w h = refl
remove-absent lo hi k (j ∷ s) (p, q, r) h = ground (arith, remove-absent (j + 1) hi k s r)

pub length-remove :
    (lo hi k : ℕ) (s : List ℕ)
    → Within lo hi s
    → contains k s ≡ true
    → length (remove k s) + 1 ≡ length s
unfolding remove contains
length-remove lo hi k [] w h = ground arith
length-remove lo hi k (j ∷ s) (p, q, r) h =
    ground (arith, length-remove (j + 1) hi k s r, remove-absent (j + 1) hi k s r)
