-- ===== src/AbstractDomain/MemRegion/Merging/Zip.antt =====
-- The elements of two regions, paired by their offset.
use fkie_cad_cwe_checker.Prelude.{
  ℕ, ◌+◌, ◌^◌, ◌≤◌, ◌<◌, ◌≡◌, refl, ◌∙◌, inl, inr, true, Option, none, some, List, [], ◌∷◌, arith,
  ltb, if◌then◌else◌, Option-cases, is_some, not, ap, Bool-cases,
}
use fkie_cad_cwe_checker.Prelude.Outcome.{ok}
use fkie_cad_cwe_checker.Prelude.Key.{nat_ord}
use Prim.Native.Nat.{max}
use fkie_cad_cwe_checker.BTreeMap
use fkie_cad_cwe_checker.BTreeMap.{IsSorted}
use fkie_cad_cwe_checker.BTreeMap.Laws.{
  get-insert, get-Above, Above-IsSorted, Above-trans, insert-IsSorted,
}
use fkie_cad_cwe_checker.Prelude.Word64.{as_i64, i64_add, i64_add-size, as_i64-lt}
use fkie_cad_cwe_checker.AbstractDomain.MemRegion.{ValueDomain, size_of}
use fkie_cad_cwe_checker.AbstractDomain.MemRegion.Regions.{Fits}
use fkie_cad_cwe_checker.AbstractDomain.MemRegion.Merging.{
  Zipped, zip_left, zip_right, next_index, is_free, compute_range_end,
}

module _ {T : Type 0} (d : ValueDomain T) where
  -- The entry of an offset, if one of the regions has an element there.
  abbrev pub pair : Option T → Option T → Option (Option T × Option T)
  pair none none = none
  pair none (some r) = some (none, some r)
  pair (some l) r = some (some l, r)

  get-zip_left :
      (k : ℕ) (self other : List (ℕ × T)) (zipped : Zipped d)
      → IsSorted self
      → BTreeMap.get k (zip_left d self other zipped) ≡ elim (BTreeMap.get k self) [
        | some l ↦ some (some l, BTreeMap.get k other)
        | none ↦ BTreeMap.get k zipped
      ]
  unfolding zip_left BTreeMap.get
  get-zip_left k [] other zipped s = refl
  get-zip_left k ((j, w) ∷ self) other zipped s =
      get-zip_left k self other (BTreeMap.insert j (some w, BTreeMap.get j other) zipped)
        (Above-IsSorted j self s)
      ∙ ground (arith, get-Above j self s, get-insert j k (some w, BTreeMap.get j other) zipped)

  get-zip_right :
      (k : ℕ) (other self : List (ℕ × T)) (zipped : Zipped d)
      → IsSorted other
      → BTreeMap.get k (zip_right d other self zipped) ≡ elim (BTreeMap.get k self) [
        | some l ↦ BTreeMap.get k zipped
        | none ↦ elim (BTreeMap.get k other) [
          | some r ↦ some (none, some r)
          | none ↦ BTreeMap.get k zipped
        ]
      ]
  unfolding zip_right BTreeMap.get
  get-zip_right k [] self zipped s = ground arith
  get-zip_right k ((j, w) ∷ other) self zipped s =
      get-zip_right k other self _ (Above-IsSorted j other s)
      ∙ ground (arith, get-Above j other s, get-insert j k (none, some w) zipped)

  zip_left-IsSorted :
      (self other : List (ℕ × T)) (zipped : Zipped d)
      → IsSorted zipped
      → IsSorted (zip_left d self other zipped)
  unfolding zip_left
  zip_left-IsSorted [] other zipped s = s
  zip_left-IsSorted ((j, w) ∷ self) other zipped s =
      zip_left-IsSorted self other _ (insert-IsSorted j (some w, BTreeMap.get j other) zipped s)

  zip_right-IsSorted :
      (other self : List (ℕ × T)) (zipped : Zipped d)
      → IsSorted zipped
      → IsSorted (zip_right d other self zipped)
  unfolding zip_right
  zip_right-IsSorted [] self zipped s = s
  zip_right-IsSorted ((j, w) ∷ other) self zipped s =
      zip_right-IsSorted other self _
        (elim (BTreeMap.get j self)
          as (λ m.
            IsSorted
              (if not (is_some m) then BTreeMap.insert j (none, some w) zipped else zipped)) [
                | none ↦ insert-IsSorted j (none, some w) zipped s
                | some _ ↦ s
              ])

  -- Both loops: each offset of either region, with the elements of both.
  abbrev pub zip : List (ℕ × T) → List (ℕ × T) → Zipped d
  zip self other = zip_right d other self (zip_left d self other [])

  pub get-zip :
      (k : ℕ) (self other : List (ℕ × T))
      → IsSorted self
      → IsSorted other
      → BTreeMap.get k (zip self other) ≡ pair (BTreeMap.get k self) (BTreeMap.get k other)
  unfolding BTreeMap.get
  get-zip k self other s t =
      get-zip_right k other self (zip_left d self other []) t
      ∙ ground (arith, get-zip_left k self other [] s)

  pub zip-IsSorted : (self other : List (ℕ × T)) → IsSorted (zip self other)
  zip-IsSorted self other =
      zip_right-IsSorted other self (zip_left d self other []) (zip_left-IsSorted self other [] tt)

  -- The elements of an entry, of which there is at least one, fit into a region.
  abbrev pub FitsPair : ℕ → Option T → Option T → Type 0
  FitsPair k none none = ⊥
  FitsPair k none (some r) = Fits d k r
  FitsPair k (some l) none = Fits d k l
  FitsPair k (some l) (some r) = Fits d k l × Fits d k r

  abbrev pub pair_size : Option T → Option T → ℕ
  pair_size none none = 0
  pair_size none (some r) = d.bytesize r
  pair_size (some l) none = d.bytesize l
  pair_size (some l) (some r) = max (d.bytesize l) (d.bytesize r)

  pub FitsPair-ends :
      (k : ℕ) (l r : Option T) → FitsPair k l r → (0 < pair_size l r) × (k + pair_size l r < 2 ^ 64)
  FitsPair-ends k none none h = absurd h
  FitsPair-ends k none (some r) h = (h.has_size, h.ends)
  FitsPair-ends k (some l) none h = (h.has_size, h.ends)
  FitsPair-ends k (some l) (some r) (h, h') =
      (omega (arith, h.has_size), omega (arith, h.ends, h'.ends))

  pub pair_size-small : (k : ℕ) (l r : Option T) → FitsPair k l r → pair_size l r < 2 ^ 63
  pair_size-small k none none h = absurd h
  pair_size-small k none (some r) h = h.small
  pair_size-small k (some l) none h = h.small
  pair_size-small k (some l) (some r) (h, h') = omega (arith, h.small, h'.small)

  pub compute_range_end-ok :
      (k : ℕ) (l r : Option T) → FitsPair k l r → compute_range_end d k l r ≡ ok (k + pair_size l r)
  unfolding compute_range_end
  compute_range_end-ok k none none h = absurd h
  compute_range_end-ok k none (some r) h = ap ok (i64_add-size k (d.bytesize r) h.small h.ends)
  compute_range_end-ok k (some l) none h = ap ok (i64_add-size k (d.bytesize l) h.small h.ends)
  compute_range_end-ok k (some l) (some r) (h, h') =
      let wide = as_i64-lt (d.bytesize l) h.small in
      let wide' = as_i64-lt (d.bytesize r) h'.small in
      let both : max (size_of d l) (size_of d r) ≡ as_i64 (max (d.bytesize l) (d.bytesize r)) =
        ground (
          arith,
          wide,
          wide',
          as_i64-lt (max (d.bytesize l) (d.bytesize r)) (omega (arith, h.small, h'.small)),
        ) in
      ap (λ e. ok (i64_add k e)) both
      ∙ ap ok (
          i64_add-size k (max (d.bytesize l) (d.bytesize r)) (omega (arith, h.small, h'.small))
            (omega (arith, h.ends, h'.ends)))

  next_index-none :
      (start j : ℕ) (p : Option T × Option T) (zipped : Zipped d)
      → next_index d start zipped ≡ none
      → BTreeMap.get j zipped ≡ some p
      → j < start
  unfolding next_index BTreeMap.get
  next_index-none start j p [] h k = ground arith
  next_index-none start j p ((i, w) ∷ zipped) h k = ground (arith, next_index-none start j p zipped)

  next_index-some :
      (start next j : ℕ) (p : Option T × Option T) (zipped : Zipped d)
      → IsSorted zipped
      → next_index d start zipped ≡ some next
      → BTreeMap.get j zipped ≡ some p
      → start ≤ j
      → next ≤ j
  unfolding next_index BTreeMap.get
  next_index-some start next j p [] s h k le = ground arith
  next_index-some start next j p ((i, w) ∷ zipped) s h k le = elim (Bool-cases (ltb j i)) [
    | inl below ↦
        absurd (ground (arith, get-Above j zipped (Above-trans j i zipped (ground arith) s)))
    | inr above ↦ ground (arith, next_index-some start next j p zipped (Above-IsSorted i zipped s))
  ]

  -- What `is_free` tests: the next entry starts behind the end.
  pub is_free-after :
      (k end j : ℕ) (p : Option T × Option T) (zipped : Zipped d)
      → IsSorted zipped
      → k + 1 < 2 ^ 64
      → is_free d k end zipped ≡ true
      → BTreeMap.get j zipped ≡ some p
      → k < j
      → end ≤ j
  unfolding is_free
  is_free-after k end j p zipped s small h there lt =
      let start = i64_add-size k 1 (omega arith) small in
      elim (Option-cases (next_index d (i64_add k (as_i64 1)) zipped)) [
        | inl e ↦ absurd (omega (arith, start, next_index-none _ j p zipped e there))
        | inr (next, e) ↦
            let behind = next_index-some _ next j p zipped s e there (omega (arith, start)) in
            ground arith
      ]
