-- ===== src/BTreeMap.antt =====
-- The standard library's `BTreeMap`: its pairs in ascending order of the keys.
pub mod Laws
pub mod Dense
pub mod Range
use fkie_cad_cwe_checker.Prelude.{◌≡◌, Option, none, some, List, [], ◌∷◌, if◌then◌else◌}
use fkie_cad_cwe_checker.Prelude.Key.{Ord, ◌=?◌}
use Prim.Native.Nat.{Ordering}

module _ {K V : Type 0} ⦃o : Ord K⦄ where
  unfoldable pub get : K → List (K × V) → Option V
  get k [] = none
  get k ((j, v) ∷ m) = if k =? j then some v else get k m

  unfoldable pub insert : K → V → List (K × V) → List (K × V)
  insert k v [] = (k, v) ∷ []
  insert k v ((j, w) ∷ m) = elim (o.cmp k j) [
    | Ordering.lt ↦ (k, v) ∷ (j, w) ∷ m
    | Ordering.eq ↦ (k, v) ∷ m
    | Ordering.gt ↦ (j, w) ∷ insert k v m
  ]

  unfoldable pub remove : K → List (K × V) → List (K × V)
  remove k [] = []
  remove k ((j, w) ∷ m) = if k =? j then remove k m else (j, w) ∷ remove k m

  -- `retain` with a closure that may also change the value: `none` drops the entry.
  unfoldable pub retain : (K → V → Option V) → List (K × V) → List (K × V)
  retain f [] = []
  retain f ((j, w) ∷ m) = elim (f j w) [ some v ↦ (j, v) ∷ retain f m | none ↦ retain f m ]

  -- Every key of `m` is above `k`, and the keys ascend.
  abbrev pub Above : K → List (K × V) → Type 0
  Above k [] = Unit
  Above k ((j, w) ∷ m) = (o.cmp k j ≡ Ordering.lt) × Above j m

  abbrev pub IsSorted : List (K × V) → Type 0
  IsSorted [] = Unit
  IsSorted ((j, w) ∷ m) = Above j m
