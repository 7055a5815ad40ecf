-- ===== src/AbstractDomain/MemRegion/Regions.antt =====
-- The invariant of a memory region: its elements are sorted, do not overlap, are not `Top`, have a
-- size, and end before the last address.
use fkie_cad_cwe_checker.Prelude.{
  ℕ, ◌+◌, ◌^◌, ◌≤◌, ◌<◌, ◌≡◌, ◌≢◌, inl, inr, true, false, none, some, List, arith, ltb,
  Option-cases,
}
use fkie_cad_cwe_checker.Prelude.Key.{nat_ord}
use fkie_cad_cwe_checker.BTreeMap
use fkie_cad_cwe_checker.BTreeMap.{IsSorted}
use fkie_cad_cwe_checker.BTreeMap.Range.{last_before, last_before-some, last_before-none}
use fkie_cad_cwe_checker.Prelude.Word64.{i64_add-size, i64_add}
use fkie_cad_cwe_checker.AbstractDomain.MemRegion.{ValueDomain, size_of, overlap_before}

module _ {T : Type 0} (d : ValueDomain T) where
  -- An element of a memory region at the offset.
  pub record Fits (k : ℕ) (v : T) : Type 0 where
    pub has_size : 0 < d.bytesize v
    pub small : d.bytesize v < 2 ^ 63
    pub ends : k + d.bytesize v < 2 ^ 64
    pub known : d.is_top v ≡ false

  -- Of two elements the first one ends before the second one starts.
  pub record IsValid (m : List (ℕ × T)) : Type 0 where
    pub sorted : IsSorted m
    pub fits : (k : ℕ) (v : T) → BTreeMap.get k m ≡ some v → Fits k v
    pub disjoint :
        (j k : ℕ) (v w : T)
        → BTreeMap.get j m ≡ some v
        → BTreeMap.get k m ≡ some w
        → j < k
        → j + d.bytesize v ≤ k

  -- A sorted map with some of the elements is valid too.
  pub IsValid-sub :
      (m out : List (ℕ × T))
      → IsValid m
      → IsSorted out
      → ((k : ℕ) (v : T) → BTreeMap.get k out ≡ some v → BTreeMap.get k m ≡ some v)
      → IsValid out
  IsValid-sub m out valid s sub = record {
    sorted = s;
    fits = λ k v h. valid.fits k v (sub k v h);
    disjoint = λ j k v w h h' lt. valid.disjoint j k v w (sub j v h) (sub k w h') lt;
  }

  -- The end of an element, as the code computes it.
  pub end_of : (k : ℕ) (v : T) → Fits k v → i64_add k (size_of d v) ≡ k + d.bytesize v
  end_of k v f = i64_add-size k (d.bytesize v) f.small f.ends

  -- The element that reaches past the position from below is the only one to do so.
  pub overlap_before-some :
      (position p : ℕ) (v : T) (m : List (ℕ × T))
      → IsValid m
      → overlap_before d position m ≡ some (p, v)
      → (BTreeMap.get p m ≡ some v)
        × (p < position)
        × (position < p + d.bytesize v)
        × ((k : ℕ) (w : T)
            → BTreeMap.get k m ≡ some w
            → k < position
            → k ≢ p
            → k + d.bytesize w ≤ position)
  unfolding overlap_before
  overlap_before-some position p v m valid h =
      let before : last_before position m ≡ some (p, v) = ground arith in
      let (lt, here, largest) = last_before-some position p v m valid.sorted before in
      let past : ltb position (i64_add p (size_of d v)) ≡ true = ground arith in
      let end = end_of p v (valid.fits p v here) in
      (
        here,
        lt,
        ground arith,
        λ k w there below other. ground (arith, largest k below, valid.disjoint k p w v there here),
      )

  pub overlap_before-none :
      (position k : ℕ) (w : T) (m : List (ℕ × T))
      → IsValid m
      → overlap_before d position m ≡ none
      → BTreeMap.get k m ≡ some w
      → k < position
      → k + d.bytesize w ≤ position
  unfolding overlap_before
  overlap_before-none position k w m valid h there below =
      elim (Option-cases (last_before position m)) [
        | inl e ↦ absurd (ground (arith, last_before-none position k m valid.sorted e below))
        | inr ((p, v), e) ↦
            let (lt, here, largest) = last_before-some position p v m valid.sorted e in
            let end = end_of p v (valid.fits p v here) in
            ground (arith, largest k below, valid.disjoint k p w v there here)
      ]
