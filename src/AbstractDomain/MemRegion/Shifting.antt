-- ===== src/AbstractDomain/MemRegion/Shifting.antt =====
-- The shift of all elements of a region by an offset.
use fkie_cad_cwe_checker.Prelude.{
  ℕ, ◌+◌, ◌-◌, ◌^◌, ◌≤◌, ◌<◌, ◌≡◌, sym, ◌∙◌, inl, inr, Option, none, some, List, [], ◌∷◌, arith,
  leb, ◌==◌, if◌then◌else◌, Bool-cases,
}
use mathlib.Core.Path.{subst}
use fkie_cad_cwe_checker.Prelude.Key.{nat_ord}
use fkie_cad_cwe_checker.BTreeMap
use fkie_cad_cwe_checker.BTreeMap.{IsSorted}
use fkie_cad_cwe_checker.BTreeMap.Laws.{get-insert, get-Above, Above-IsSorted, insert-IsSorted}
use fkie_cad_cwe_checker.Prelude.Word64.{i64_add, i64_zero}
use fkie_cad_cwe_checker.AbstractDomain.MemRegion.{
  ValueDomain, MemRegion, add_offsets, add_offset_to_all_indices,
}
use fkie_cad_cwe_checker.AbstractDomain.MemRegion.Regions.{IsValid}

-- An offset is held as its value plus 2 ^ 63, so `k + offset - 2 ^ 63` is the shifted index.
i64_add-no_wrap :
    (k offset : ℕ)
    → 2 ^ 63 ≤ k + offset
    → k + offset < 2 ^ 64 + 2 ^ 63
    → i64_add k offset ≡ k + offset - 2 ^ 63
unfolding i64_add
i64_add-no_wrap k offset h l = omega arith

module _ {T : Type 0} (d : ValueDomain T) where
  abbrev Stays : ℕ → List (ℕ × T) → Type 0
  Stays offset m =
      (k : ℕ) (v : T)
      → BTreeMap.get k m ≡ some v
      → (2 ^ 63 ≤ k + offset) × (k + offset < 2 ^ 64 + 2 ^ 63)

  abbrev shifted : ℕ → List (ℕ × T) → ℕ → Option T
  shifted offset m j =
      if leb offset (j + 2 ^ 63) then BTreeMap.get (j + 2 ^ 63 - offset) m else none

  get-add_offsets :
      (offset j : ℕ) (m new_values : List (ℕ × T))
      → IsSorted m
      → Stays offset m
      → BTreeMap.get j (add_offsets d offset m new_values)
        ≡ elim (shifted offset m j) [ some v ↦ some v | none ↦ BTreeMap.get j new_values ]
  unfolding add_offsets BTreeMap.get
  get-add_offsets offset j [] new_values s stays = ground arith
  get-add_offsets offset j ((k, v) ∷ m) new_values s stays =
      let (low, high) = stays k v (ground (arith, nat_ord.cmp_eq_iff k k)) in
      let place = i64_add-no_wrap k offset low high in
      let rest : Stays offset m = λ i w h. stays i w (ground (arith, get-Above k m s)) in
      get-add_offsets offset j m (BTreeMap.insert (i64_add k offset) v new_values)
        (Above-IsSorted k m s) rest
      ∙ ground (arith, place, get-Above k m s, get-insert (i64_add k offset) j v new_values)

  add_offsets-IsSorted :
      (offset : ℕ) (m new_values : List (ℕ × T))
      → IsSorted new_values
      → IsSorted (add_offsets d offset m new_values)
  unfolding add_offsets
  add_offsets-IsSorted offset [] new_values s = s
  add_offsets-IsSorted offset ((k, v) ∷ m) new_values s =
      add_offsets-IsSorted offset m (BTreeMap.insert (i64_add k offset) v new_values)
        (insert-IsSorted (i64_add k offset) v new_values s)

  -- Every element keeps its place among the addresses when it is shifted.
  pub record Shiftable (offset : ℕ) (m : List (ℕ × T)) : Type 0 where
    pub low : (k : ℕ) (v : T) → BTreeMap.get k m ≡ some v → 2 ^ 63 ≤ k + offset
    pub high :
        (k : ℕ) (v : T) → BTreeMap.get k m ≡ some v → k + d.bytesize v + offset < 2 ^ 64 + 2 ^ 63

  origin_of :
      (offset j : ℕ) (v : T) (m : List (ℕ × T))
      → shifted offset m j ≡ some v
      → (k : ℕ) × (BTreeMap.get k m ≡ some v) × (j + 2 ^ 63 ≡ k + offset)
  origin_of offset j v m h = elim (Bool-cases (leb offset (j + 2 ^ 63))) [
    | inl reaches ↦ (j + 2 ^ 63 - offset, ground arith, ground arith)
    | inr misses ↦ absurd (ground arith)
  ]

  shifted-IsValid :
      (out : List (ℕ × T)) (offset : ℕ) (m : List (ℕ × T))
      → IsValid d m
      → Shiftable offset m
      → IsSorted out
      → ((j : ℕ) → BTreeMap.get j out ≡ shifted offset m j)
      → IsValid d out
  shifted-IsValid out offset m valid fits s lookup = record {
    sorted = s;
    fits = λ j v h.
        let (k, there, from) = origin_of offset j v m (sym (lookup j) ∙ h) in
        let old = valid.fits k v there in
        record {
          has_size = old.has_size;
          small = old.small;
          ends = omega (arith, fits.high k v there, from);
          known = old.known;
        };
    disjoint = λ j k v w h h' lt.
        let (i, there, from) = origin_of offset j v m (sym (lookup j) ∙ h) in
        let (l, there', from') = origin_of offset k w m (sym (lookup k) ∙ h') in
        omega (arith, valid.disjoint i l v w there there' (omega arith), from, from');
  }

  -- If no element of a valid region leaves the addresses, shifting by an offset moves each element
  -- by the offset, adds no other, and leaves a valid region.
  pub add_offset_to_all_indices-IsValid :
      (offset : ℕ) (r : MemRegion T)
      → IsValid d r.values
      → Shiftable offset r.values
      → IsValid d (add_offset_to_all_indices d offset r).values
        × ((j : ℕ)
            → BTreeMap.get j (add_offset_to_all_indices d offset r).values ≡ (
                if leb offset (j + 2 ^ 63)
                then BTreeMap.get (j + 2 ^ 63 - offset) r.values
                else none))
  unfolding add_offset_to_all_indices BTreeMap.get
  add_offset_to_all_indices-IsValid offset r valid fits = elim (Bool-cases (offset == i64_zero)) [
    | inl zero ↦
        let same : r ≡ add_offset_to_all_indices d offset r = ground arith in
        (
          subst (λ x. IsValid d x.values) same valid,
          λ j. let back : j + 2 ^ 63 - offset ≡ j = ground arith in rw back (ground arith),
        )
    | inr moves ↦
        let out = add_offsets d offset r.values [] in
        let stays : Stays offset r.values =
          λ k v h. (fits.low k v h, omega (arith, fits.high k v h)) in
        let lookup : (j : ℕ) → BTreeMap.get j out ≡ shifted offset r.values j =
          λ j. get-add_offsets offset j r.values [] valid.sorted stays ∙ ground arith in
        let same : out ≡ (add_offset_to_all_indices d offset r).values = ground arith in
        (
          subst (IsValid d) same (
              shifted-IsValid out offset r.values valid fits
                (add_offsets-IsSorted offset r.values [] tt) lookup),
          λ j. subst (λ m. BTreeMap.get j m ≡ shifted offset r.values j) same (lookup j),
        )
  ]
