-- ===== src/BTreeMap/Range.antt =====
-- `BTreeMap::range` over maps with numbers as keys, and the removal of several keys.
use fkie_cad_cwe_checker.Prelude.{
  ℕ, ◌+◌, ◌≤◌, ◌<◌, ◌≡◌, refl, inl, inr, true, ◌&&◌, Option, none, some, List, [], ◌∷◌, arith, ltb,
  leb, ◌==◌, if◌then◌else◌, Bool-cases, Option-cases, is_some, Bool,
}
use fkie_cad_cwe_checker.Prelude.Key.{nat_ord}
use fkie_cad_cwe_checker.BTreeMap
use fkie_cad_cwe_checker.BTreeMap.Laws.{
  get-remove, get-Above, remove-IsSorted, Above-trans, Above-IsSorted,
}
use fkie_cad_cwe_checker.BTreeMap.{IsSorted, Above}

module _ {V : Type 0} where
  -- `range(..position).last()`
  unfoldable pub last_before : ℕ → List (ℕ × V) → Option (ℕ × V)
  last_before position [] = none
  last_before position ((k, v) ∷ m) =
      if ltb k position
      then elim (last_before position m) [ none ↦ some (k, v) | some e ↦ some e ]
      else none

  -- Whether the map has a root node. A map with entries has one. A map without entries has one if its
  -- entries were removed, and none if it never had any or is a clone of an empty map; its list of
  -- entries does not tell, so `empty_root` says it.
  unfoldable pub has_root : Bool → List (ℕ × V) → Bool
  has_root empty_root [] = empty_root
  has_root empty_root (_ ∷ _) = true

  -- The entries of `range(start..end)`, where the call does not panic.
  unfoldable pub range : ℕ → ℕ → List (ℕ × V) → List (ℕ × V)
  range start end [] = []
  range start end ((k, v) ∷ m) =
      if leb start k && ltb k end then (k, v) ∷ range start end m else range start end m

  -- Removes the keys of the entries.
  unfoldable pub remove_all : List (ℕ × V) → List (ℕ × V) → List (ℕ × V)
  remove_all [] m = m
  remove_all ((k, v) ∷ ks) m = remove_all ks (BTreeMap.remove k m)

  pub get-range :
      (start end k : ℕ) (m : List (ℕ × V))
      → IsSorted m
      → BTreeMap.get k (range start end m)
        ≡ (if leb start k && ltb k end then BTreeMap.get k m else none)
  unfolding range BTreeMap.get
  get-range start end k [] s = ground arith
  get-range start end k ((j, v) ∷ m) s =
      ground (arith, get-range start end k m (Above-IsSorted j m s), get-Above j m s)

  pub get-remove_all :
      (k : ℕ) (ks m : List (ℕ × V))
      → BTreeMap.get k (remove_all ks m)
        ≡ (if is_some (BTreeMap.get k ks) then none else BTreeMap.get k m)
  unfolding remove_all BTreeMap.get
  get-remove_all k [] m = refl
  get-remove_all k ((j, v) ∷ ks) m =
      ground (arith, get-remove_all k ks (BTreeMap.remove j m), get-remove j k m)

  pub remove_all-IsSorted : (ks m : List (ℕ × V)) → IsSorted m → IsSorted (remove_all ks m)
  unfolding remove_all
  remove_all-IsSorted [] m s = s
  remove_all-IsSorted ((j, v) ∷ ks) m s =
      remove_all-IsSorted ks (BTreeMap.remove j m) (remove-IsSorted j m s)

  -- Keys of the rest of a map lie above its first key.
  pub key-Above :
      (i k : ℕ) (m : List (ℕ × V)) → Above i m → is_some (BTreeMap.get k m) ≡ true → i < k
  key-Above i k m a h = let late = λ (le : k ≤ i). absent k i m le a in ground (arith, late)
    where
      absent : (k i : ℕ) (m : List (ℕ × V)) → k ≤ i → Above i m → BTreeMap.get k m ≡ none
      absent k i m le a = elim (Bool-cases (k == i)) [
        | inl e ↦ let same : k ≡ i = ground arith in rw same (get-Above i m a)
        | inr e ↦ get-Above k m (Above-trans k i m (ground arith) a)
      ]

  pub last_before-none :
      (position j : ℕ) (m : List (ℕ × V))
      → IsSorted m
      → last_before position m ≡ none
      → j < position
      → BTreeMap.get j m ≡ none
  unfolding last_before BTreeMap.get
  last_before-none position j [] s h lt = refl
  last_before-none position j ((i, w) ∷ m) s h lt =
      let late : position ≤ i = ground arith in
      let rest = get-Above j m (Above-trans j i m (ground arith) s) in ground arith

  -- The entry before a position is the one with the largest key below it.
  pub last_before-some :
      (position k : ℕ) (v : V) (m : List (ℕ × V))
      → IsSorted m
      → last_before position m ≡ some (k, v)
      → (k < position)
        × (BTreeMap.get k m ≡ some v)
        × ((j : ℕ) → j < position → is_some (BTreeMap.get j m) ≡ true → j < k + 1)
  unfolding last_before BTreeMap.get
  last_before-some position k v [] s h = absurd (ground arith)
  last_before-some position k v ((i, w) ∷ m) s h =
      let sorted = Above-IsSorted i m s in
      let early : i < position = ground arith in
      elim (Option-cases (last_before position m)) [
        | inl e ↦ (
          ground arith,
          ground arith,
          λ j lt found. let rest = last_before-none position j m sorted e lt in ground arith,
        )
        | inr ((k', v'), e) ↦
            let same : last_before position m ≡ some (k, v) = ground arith in
            let (below, there, largest) = last_before-some position k v m sorted same in
            let above = key-Above i k m s (ground arith) in
            (below, ground arith, λ j lt found. ground (arith, largest j lt))
      ]
