-- ===== src/AbstractDomain/MemRegion/Overwriting.antt =====
-- Writes of unknown values: to one place, and to the whole region.
use fkie_cad_cwe_checker.Prelude.{Bool}
use fkie_cad_cwe_checker.Prelude.{
  ℕ, ◌+◌, ◌^◌, ◌<◌, ◌≡◌, refl, ◌∙◌, inl, inr, not, Option, none, some, List, [], ◌∷◌, map, arith,
  ◌==◌, if◌then◌else◌, Option-cases, Bool-cases, and_then,
}
use fkie_cad_cwe_checker.Prelude.Outcome.{Outcome, ok}
use fkie_cad_cwe_checker.Prelude.Key.{nat_ord}
use fkie_cad_cwe_checker.BTreeMap
use fkie_cad_cwe_checker.BTreeMap.{IsSorted, Above}
use fkie_cad_cwe_checker.BTreeMap.Laws.{get-retain, retain-IsSorted}
use fkie_cad_cwe_checker.Apint.{ApInt}
use fkie_cad_cwe_checker.AbstractDomain.MemRegion.{
  ValueDomain, MemRegion, store, merged_with_top, clear_top_values, mark_all_values_as_top,
  merge_write_top,
}
use fkie_cad_cwe_checker.AbstractDomain.MemRegion.Regions.{IsValid}
use fkie_cad_cwe_checker.AbstractDomain.MemRegion.Clear.{outside, clear_interval-Clears}
use fkie_cad_cwe_checker.AbstractDomain.MemRegion.Marking.{
  marked, KeepsSize, From-IsValid, get-store, store-IsSorted,
}

module _ {T : Type 0} (d : ValueDomain T) where
  abbrev all_merged : List (ℕ × T) → List (ℕ × T)
  all_merged m = map (λ (k, value). (k, merged_with_top d value)) m

  get-all_merged :
      (k : ℕ) (m : List (ℕ × T))
      → BTreeMap.get k (all_merged m)
        ≡ and_then (BTreeMap.get k m) (λ v. some (merged_with_top d v))
  unfolding BTreeMap.get
  get-all_merged k [] = refl
  get-all_merged k ((j, v) ∷ m) = ground (arith, get-all_merged k m)

  all_merged-Above : (k : ℕ) (m : List (ℕ × T)) → Above k m → Above k (all_merged m)
  all_merged-Above k [] a = tt
  all_merged-Above k ((j, v) ∷ m) (b, a) = (b, all_merged-Above j m a)

  all_merged-IsSorted : (m : List (ℕ × T)) → IsSorted m → IsSorted (all_merged m)
  all_merged-IsSorted [] s = tt
  all_merged-IsSorted ((j, v) ∷ m) s = all_merged-Above j m s

  -- Marking all values of a valid region merges each with `Top` and drops those that become `Top`.
  -- The region stays valid if merging with `Top` keeps the size of values.
  pub mark_all_values_as_top-IsValid :
      (r : MemRegion T)
      → KeepsSize d
      → IsValid d r.values
      → IsValid d (mark_all_values_as_top d r).values
        × ((k : ℕ)
            → BTreeMap.get k (mark_all_values_as_top d r).values
              ≡ and_then (BTreeMap.get k r.values) (marked d))
  unfolding mark_all_values_as_top clear_top_values
  mark_all_values_as_top-IsValid r keeps valid =
      let merged = all_merged r.values in
      let sorted = all_merged-IsSorted r.values valid.sorted in
      let keep : ℕ → T → Option T = λ _ value. if not (d.is_top value) then some value else none in
      let lookup : (k : ℕ)
          → BTreeMap.get k (BTreeMap.retain keep merged)
            ≡ and_then (BTreeMap.get k r.values) (marked d) =
        λ k. get-retain k keep merged sorted ∙ ground (arith, get-all_merged k r.values) in
      (
        From-IsValid d r.values (BTreeMap.retain keep merged) keeps valid
            (retain-IsSorted keep merged sorted)
            (λ k w h. elim (Option-cases (BTreeMap.get k r.values)) [
              | inl a ↦ absurd (ground (arith, lookup k))
              | inr (v, a) ↦ (v, a, inr (ground (arith, lookup k)))
            ]),
        lookup,
      )

  -- What a write of an unknown value of `size` bytes at `index` leaves under `k`: the element that
  -- is overwritten exactly is merged with `Top`, else the elements that share a byte with it go.
  abbrev pub overwritten : ℕ → ℕ → List (ℕ × T) → ℕ → Option T
  overwritten index size m k =
      let cleared = outside d index (index + size) k (BTreeMap.get k m) in
      elim (BTreeMap.get index m) [
        | none ↦ cleared
        | some v ↦
            if d.bytesize v == size
            then (if k == index then marked d v else BTreeMap.get k m)
            else cleared
      ]

  module _ (api : ApInt) where
    open api use {Bitvector, try_to_i64}

    pub record Overwrites (index size : ℕ) (r : MemRegion T) (result : Outcome (MemRegion T))
        : Type 0 where
      pub out : MemRegion T
      pub returns : result ≡ ok out
      pub same_size : out.address_bytesize ≡ r.address_bytesize
      pub valid : IsValid d out.values
      pub lookup : (k : ℕ) → BTreeMap.get k out.values ≡ overwritten index size r.values k

    -- A write of an unknown value to a valid region, at a position that is an offset and ending
    -- before the last address, does not panic. The element of that position and size is merged with
    -- `Top` and goes if it becomes `Top`; if there is none, the elements that share a byte with the
    -- written ones go. The region stays valid if merging with `Top` keeps the size of values.
    pub merge_write_top-Overwrites :
        (empty_root : Bool) (position : Bitvector) (index size : ℕ) (r : MemRegion T)
        → KeepsSize d
        → IsValid d r.values
        → try_to_i64 position ≡ some index
        → size < 2 ^ 63
        → index + size < 2 ^ 64
        → Overwrites index size r (merge_write_top d api empty_root position size r)
    unfolding merge_write_top
    merge_write_top-Overwrites empty_root position index size r keeps valid offset small ends =
        let c = clear_interval-Clears d empty_root index size r.values valid small ends in
        elim (Option-cases (BTreeMap.get index r.values)) [
          | inl a ↦ record {
            out = record { address_bytesize = r.address_bytesize; values = c.out };
            returns = ground (arith, offset, c.returns);
            same_size = refl;
            valid = c.valid;
            lookup = λ k. ground (arith, c.lookup k);
          }
          | inr (v, a) ↦ elim (Bool-cases (d.bytesize v == size)) [
            | inr differ ↦ record {
              out = record { address_bytesize = r.address_bytesize; values = c.out };
              returns = ground (arith, offset, c.returns);
              same_size = refl;
              valid = c.valid;
              lookup = λ k. ground (arith, c.lookup k);
            }
            | inl same ↦
                let values = store d index (merged_with_top d v) r.values in
                let found = λ (k : ℕ). get-store d index k (merged_with_top d v) r.values in
                record {
                  out = record { address_bytesize = r.address_bytesize; values = values };
                  returns = ground (arith, offset);
                  same_size = refl;
                  valid =
                      From-IsValid d r.values values keeps valid
                        (store-IsSorted d index (merged_with_top d v) r.values valid.sorted)
                        (λ k w h. elim (Bool-cases (k == index)) [
                          | inl here ↦ (v, ground arith, inr (ground (arith, found k)))
                          | inr other ↦ (w, ground (arith, found k), inl refl)
                        ]);
                  lookup = λ k. ground (arith, found k);
                }
          ]
        ]
