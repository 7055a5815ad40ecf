-- ===== src/AbstractDomain/MemRegion/Merging.antt =====
-- src/cwe_checker_lib/src/abstract_domain/mem_region.rs: the merge of two memory regions.
pub mod Zip
pub mod Loop
pub mod Above
pub mod Entries
pub mod Upper
use fkie_cad_cwe_checker.Prelude.{
  ℕ, Bool, true, not, ◌&&◌, Option, none, some, List, [], ◌∷◌, leb, ◌==◌, if◌then◌else◌, is_some,
}
use fkie_cad_cwe_checker.Prelude.Outcome.{Outcome, ok, panic, ◌>>=◌, ◌>>◌, assert, index}
use fkie_cad_cwe_checker.Prelude.Key.{nat_ord}
use fkie_cad_cwe_checker.BTreeMap
use Prim.Native.Nat.{max}
use fkie_cad_cwe_checker.Prelude.Word64.{i64_min, as_i64, i64_add}
use fkie_cad_cwe_checker.AbstractDomain.DomainMap.{map_eq}
use fkie_cad_cwe_checker.AbstractDomain.MemRegion.{ValueDomain, MemRegion, size_of}

module _ {T : Type 0} (d : ValueDomain T) where
  -- `merge_or_merge_with_top`, which panics if there is no value at all.
  pub merge_or_merge_with_top : Option T → Option T → Outcome (Option T)
  merge_or_merge_with_top none none = panic
  merge_or_merge_with_top (some elem) none =
      let merged = d.merge elem (d.new_top (d.bytesize elem)) in
      ok (if not (d.is_top merged) then some merged else none)
  merge_or_merge_with_top none (some elem) =
      let merged = d.merge elem (d.new_top (d.bytesize elem)) in
      ok (if not (d.is_top merged) then some merged else none)
  merge_or_merge_with_top (some left) (some right) =
      let merged = d.merge left right in
      ok
        (if d.bytesize left == d.bytesize right && not (d.is_top merged) then some merged else none)

  pub compute_range_end : ℕ → Option T → Option T → Outcome ℕ
  compute_range_end index none none = panic
  compute_range_end index (some elem) none = ok (i64_add index (size_of d elem))
  compute_range_end index none (some elem) = ok (i64_add index (size_of d elem))
  compute_range_end index (some left) (some right) =
      ok (i64_add index (max (size_of d left) (size_of d right)))

  abbrev pub Zipped : Type 0
  Zipped = List (ℕ × (Option T × Option T))

  pub zip_left : List (ℕ × T) → List (ℕ × T) → Zipped → Zipped
  zip_left [] other zipped = zipped
  zip_left ((index, elem) ∷ rest) other zipped =
      zip_left rest other (BTreeMap.insert index (some elem, BTreeMap.get index other) zipped)

  pub zip_right : List (ℕ × T) → List (ℕ × T) → Zipped → Zipped
  zip_right [] self zipped = zipped
  zip_right ((index, other_elem) ∷ rest) self zipped = zip_right rest self (
      if not (is_some (BTreeMap.get index self))
      then BTreeMap.insert index (none, some other_elem) zipped
      else zipped)

  -- `range(start..).next()`: the index of the first entry from `start` on.
  pub next_index : ℕ → Zipped → Option ℕ
  next_index start [] = none
  next_index start ((index, _) ∷ rest) =
      if leb start index then some index else next_index start rest

  -- Whether no subsequent element starts before `range_end`.
  pub is_free : ℕ → ℕ → Zipped → Bool
  unfolding next_index
  is_free index range_end zipped = elim (next_index (i64_add index (as_i64 1)) zipped) [
    | none ↦ true
    | some next ↦ leb range_end next
  ]

  pub merge_loop : Zipped → Zipped → ℕ → List (ℕ × T) → Outcome (List (ℕ × T))
  unfolding is_free merge_or_merge_with_top compute_range_end
  merge_loop zipped [] merged_range_end merged_values = ok merged_values
  merge_loop zipped ((index, (left, right)) ∷ rest) merged_range_end merged_values = do
    elem_range_end ← compute_range_end index left right
    next_values ←
        (if leb merged_range_end index && is_free index elem_range_end zipped
          then (do
            merged ← merge_or_merge_with_top left right
            ok (elim merged [
              | none ↦ merged_values
              | some v ↦ BTreeMap.insert index v merged_values
            ]))
          else ok merged_values)
    merge_loop zipped rest (max merged_range_end elem_range_end) next_values

  pub merge_inner : MemRegion T → MemRegion T → Outcome (MemRegion T)
  unfolding merge_loop zip_left zip_right
  merge_inner self other = do
    assert (self.address_bytesize == other.address_bytesize)
    let zipped = zip_right other.values self.values (zip_left self.values other.values [])
    merged_values ← merge_loop zipped zipped i64_min []
    ok (record { address_bytesize = self.address_bytesize; values = merged_values })

  pub region_eq : MemRegion T → MemRegion T → Bool
  region_eq a b = a.address_bytesize == b.address_bytesize && map_eq d.domain a.values b.values

  pub merge : MemRegion T → MemRegion T → Outcome (MemRegion T)
  unfolding merge_inner region_eq
  merge self other = if region_eq self other then ok self else merge_inner self other
