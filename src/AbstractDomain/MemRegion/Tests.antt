-- ===== src/AbstractDomain/MemRegion/Tests.antt =====
-- Memory regions at concrete values.
use fkie_cad_cwe_checker.Prelude.{true}
use fkie_cad_cwe_checker.Prelude.Outcome.{panic, ok}
use fkie_cad_cwe_checker.AbstractDomain.MemRegion.Refused.{Refuses, insert_at_byte_index-Refuses}
use fkie_cad_cwe_checker.AbstractDomain.MemRegion.Shifting.{Shiftable}
use fkie_cad_cwe_checker.AbstractDomain.MemRegion.Marking.{
  KeepsSize, Marks, mark_interval_values_as_top-Marks,
}
use fkie_cad_cwe_checker.AbstractDomain.MemRegion.{
  merged_with_top, mark_interval_values_as_top, mark_all_values_as_top, merge_write_top, MemRegion,
  clear_interval, insert_at_byte_index, add_offset_to_all_indices,
}
use fkie_cad_cwe_checker.AbstractDomain.MemRegion.Cells.{
  cells, offsets, origin, region, region-IsValid, at_offset, cells-IsAbstractDomain, cells-IsSized,
  larger, larger-IsValid, Cell, known, unknown,
}
use fkie_cad_cwe_checker.Prelude.{false, ◌<◌, ℕ, ◌+◌, ◌-◌, ◌^◌, ◌≡◌, refl, [], ◌∷◌, arith, ◌⊎◌}
use mathlib.Core.Path.{subst}
use fkie_cad_cwe_checker.Prelude.Key.{nat_ord}
use fkie_cad_cwe_checker.BTreeMap
use fkie_cad_cwe_checker.Prelude.Word64.{as_i64, i64_add}
use fkie_cad_cwe_checker.BTreeMap.Range.{has_root, range, remove_all, last_before}
use fkie_cad_cwe_checker.AbstractDomain.MemRegion
use fkie_cad_cwe_checker.AbstractDomain.MemRegion.Regions.{IsValid}
use fkie_cad_cwe_checker.AbstractDomain.MemRegion.Merging.Upper.{IsUpper, merge-IsUpper}
use fkie_cad_cwe_checker.AbstractDomain.MemRegion.Clear.{outside}
use fkie_cad_cwe_checker.AbstractDomain.MemRegion.Access.{
  Writes, insert_at_byte_index-Writes, get-add, remove-Clears,
}

insert_at_byte_index-Writes_example :
    Writes cells
      (known 2 5)
      origin
      region
      (insert_at_byte_index cells false (known 2 5) origin region)
insert_at_byte_index-Writes_example =
    insert_at_byte_index-Writes cells false (known 2 5) origin region region-IsValid (omega arith)
      (omega arith) (omega arith)

-- Four bytes up to the last address.
insert_at_byte_index-Refuses_example :
    (Refuses cells false (known 4 9) (2 ^ 64 - 4) region
      × (insert_at_byte_index cells false (known 4 9) (2 ^ 64 - 4) region ≡ panic))
    ⊎ (¬ (Refuses cells false (known 4 9) (2 ^ 64 - 4) region)
        × ((r' : MemRegion Cell) × (insert_at_byte_index cells false (known 4 9) (2 ^ 64 - 4) region
              ≡ ok r')))
insert_at_byte_index-Refuses_example =
    insert_at_byte_index-Refuses cells false (known 4 9) (2 ^ 64 - 4) region (omega arith)
      (omega arith)

-- They can be written to a region that never had an element, and not to one that lost its elements.
fresh_region :
    insert_at_byte_index cells false (known 4 9) (2 ^ 64 - 4) (MemRegion.new 8)
    ≡ ok (record (MemRegion.new 8) { values = (2 ^ 64 - 4, known 4 9) ∷ [] })
unfolding insert_at_byte_index has_root clear_interval as_i64 i64_add BTreeMap.insert
    BTreeMap.remove range remove_all last_before MemRegion.new
fresh_region = refl

emptied_region : insert_at_byte_index cells true (known 4 9) (2 ^ 64 - 4) (MemRegion.new 8) ≡ panic
unfolding insert_at_byte_index has_root clear_interval as_i64 i64_add range remove_all last_before
    MemRegion.new
emptied_region = refl

get-add_example :
    (r' : MemRegion Cell) × (MemRegion.add cells offsets false (known 4 9) origin region ≡ ok r')
    × (MemRegion.get cells offsets origin 4 r' ≡ ok (known 4 9))
get-add_example =
    get-add cells false offsets origin origin 4 (known 4 9) region (at_offset origin) region-IsValid
      (omega arith) (omega arith) (omega arith)

remove-Clears_example :
    (r' : MemRegion Cell) × (MemRegion.remove cells offsets false origin (origin + 3) region
      ≡ ok r')
    × IsValid cells r'.values
    × ((k : ℕ)
        → BTreeMap.get k r'.values
          ≡ outside cells origin (origin + 3) k (BTreeMap.get k region.values))
unfolding as_i64
remove-Clears_example =
    remove-Clears cells false offsets origin (origin + 3) origin 3 region (at_offset origin) refl
      region-IsValid (omega arith) (omega arith) (omega arith)

-- The write of two bytes at 1 overlaps the element at 2.
overwrites :
    insert_at_byte_index cells false (known 2 5) (origin + 1) region
    ≡ ok (record region { values = (origin + 1, known 2 5) ∷ [] })
unfolding insert_at_byte_index has_root clear_interval as_i64 i64_add BTreeMap.insert
    BTreeMap.remove range remove_all last_before
overwrites = refl

merge-IsUpper_example : IsUpper cells cells-IsAbstractDomain cells-IsSized region larger
merge-IsUpper_example =
    merge-IsUpper cells cells-IsAbstractDomain cells-IsSized region larger refl region-IsValid
      larger-IsValid

cells_keep : KeepsSize cells
unfolding merged_with_top
cells_keep (known s v) = refl
cells_keep (unknown s) = ground arith

mark_interval_values_as_top-Marks_example :
    Marks cells origin
      (origin + 3)
      region
      (mark_interval_values_as_top cells false origin (origin + 1) 2 region)
mark_interval_values_as_top-Marks_example =
    mark_interval_values_as_top-Marks cells false origin (origin + 1) 2 region cells_keep
      region-IsValid (omega arith) (omega arith) (omega arith)

-- The element at 2 moves down by 5, to -3.
region-Shiftable : Shiftable cells (origin - 5) region.values
unfolding BTreeMap.get
region-Shiftable = record {
  low = λ k v h. let place : origin + 2 ≡ k = ground arith in omega arith;
  high = λ k v h.
      let place : origin + 2 ≡ k = ground arith in
      let value : known 4 7 ≡ v = ground arith in
      subst (λ x. k + cells.bytesize x + (origin - 5) < 2 ^ 64 + 2 ^ 63) value (omega arith);
}
