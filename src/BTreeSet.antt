-- ===== src/BTreeSet.antt =====
-- The standard library's `BTreeSet`: its elements in ascending order.
pub mod Laws
pub mod Bounded
use fkie_cad_cwe_checker.Prelude.{
  Bool, false, Option, none, some, List, [], ◌∷◌, ◌||◌, if◌then◌else◌,
}
use fkie_cad_cwe_checker.Prelude.Key.{Ord, ◌=?◌}
use Prim.Native.Nat.{Ordering}

module _ {K : Type 0} ⦃o : Ord K⦄ where
  unfoldable pub contains : K → List K → Bool
  contains k [] = false
  contains k (j ∷ s) = k =? j || contains k s

  unfoldable pub insert : K → List K → List K
  insert k [] = k ∷ []
  insert k (j ∷ s) = elim (o.cmp k j) [
    | Ordering.lt ↦ k ∷ j ∷ s
    | Ordering.eq ↦ k ∷ s
    | Ordering.gt ↦ j ∷ insert k s
  ]

  unfoldable pub remove : K → List K → List K
  remove k [] = []
  remove k (j ∷ s) = if k =? j then remove k s else j ∷ remove k s

  unfoldable pub union : List K → List K → List K
  unfolding insert
  union [] t = t
  union (k ∷ s) t = insert k (union s t)

  unfoldable pub intersection : List K → List K → List K
  unfolding contains
  intersection [] t = []
  intersection (k ∷ s) t = if contains k t then k ∷ intersection s t else intersection s t

  -- `collect` of an iterator into a set.
  unfoldable pub from_list : List K → List K
  unfolding insert
  from_list [] = []
  from_list (k ∷ ks) = insert k (from_list ks)

-- `iter().next_back()`: the largest element.
unfoldable pub last : {K : Type 0} → List K → Option K
last [] = none
last (k ∷ []) = some k
last (k ∷ j ∷ s) = last (j ∷ s)
