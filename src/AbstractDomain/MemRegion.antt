-- ===== src/AbstractDomain/MemRegion.antt =====
-- src/cwe_checker_lib/src/abstract_domain/mem_region.rs: values at offsets of a memory region.
-- The `Arc` around the data is not modelled: it only makes clones cheap.
pub mod Regions
pub mod Merging
pub mod Clear
pub mod Access
pub mod Refused
pub mod Marking
pub mod Overwriting
pub mod Shifting
mod Cells
mod Tests
use fkie_cad_cwe_checker.Prelude.{
  ℕ, ◌*◌, Bool, true, false, not, ◌&&◌, Option, none, some, List, [], ◌∷◌, map, ltb, ◌==◌,
  if◌then◌else◌, and_then,
}
use fkie_cad_cwe_checker.Prelude.Outcome.{Outcome, ok, panic, ◌>>=◌, ◌>>◌, assert, unwrap, index}
use fkie_cad_cwe_checker.Prelude.Key.{nat_ord}
use fkie_cad_cwe_checker.BTreeMap
use fkie_cad_cwe_checker.Prelude.Word64.{i64_zero, as_i64, i64_add}
use fkie_cad_cwe_checker.BTreeMap.Range.{has_root, last_before, range, remove_all}
use fkie_cad_cwe_checker.Apint.{ApInt, byte_size_from}
use fkie_cad_cwe_checker.AbstractDomain.{AbstractDomain, HasTop, SizedDomain}

-- The traits that the values implement.
pub record ValueDomain (T : Type 0) : Type 0 where
  pub domain : AbstractDomain T
  pub open domain use *
  pub sized : SizedDomain T
  pub open sized use *
  pub has_top : HasTop T
  pub open has_top use *

pub record MemRegion (T : Type 0) : Type 0 where
  pub address_bytesize : ℕ
  pub values : List (ℕ × T)

pub new : {T : Type 0} → ℕ → MemRegion T
new address_bytesize = record { address_bytesize = address_bytesize; values = [] }

pub is_top : {T : Type 0} → MemRegion T → Bool
is_top r = elim r.values [ [] ↦ true | _ ∷ _ ↦ false ]

module _ {T : Type 0} (d : ValueDomain T) where
  pub top : MemRegion T → MemRegion T
  unfolding new
  top r = new r.address_bytesize

  -- `u64::from(elem.bytesize()) as i64`
  abbrev pub size_of : T → ℕ
  size_of v = as_i64 (d.bytesize v)

  -- The element before the position, if it reaches past it.
  pub overlap_before : ℕ → List (ℕ × T) → Option (ℕ × T)
  overlap_before position values = and_then (last_before position values) (λ (prev_pos, elem).
      if ltb position (i64_add prev_pos (size_of elem)) then some (prev_pos, elem) else none)

  -- The map's `range` panics if the end lies below the start, which it looks at only if the map has a
  -- root node.
  pub checked_range : Bool → ℕ → ℕ → List (ℕ × T) → Outcome (List (ℕ × T))
  checked_range rooted start end values =
      if ltb end start && rooted then panic else ok (range start end values)

  -- The first step: the element before the position goes if it reaches past it.
  pub clear_before : ℕ → List (ℕ × T) → List (ℕ × T)
  unfolding overlap_before
  clear_before position values = elim (overlap_before position values) [
    | none ↦ values
    | some (prev_pos, _) ↦ BTreeMap.remove prev_pos values
  ]

  -- `empty_root` is about the map if it is empty. The removals keep its root node.
  pub clear_interval : Bool → ℕ → ℕ → List (ℕ × T) → Outcome (List (ℕ × T))
  unfolding clear_before checked_range
  clear_interval empty_root position size values = do
    let cleared = clear_before position values
    intersecting_elements ←
        checked_range (has_root empty_root values) position (i64_add position size) cleared
    ok (remove_all intersecting_elements cleared)

  pub insert_at_byte_index : Bool → T → ℕ → MemRegion T → Outcome (MemRegion T)
  insert_at_byte_index empty_root value position r = do
    assert (ltb i64_zero (size_of value))
    cleared ← clear_interval empty_root position (size_of value) r.values
    ok (record r {
      values = if not (d.is_top value) then BTreeMap.insert position value cleared else cleared;
    })

  -- Replaces the value, or removes it if it is `Top`.
  pub store : ℕ → T → List (ℕ × T) → List (ℕ × T)
  store position value values =
      if d.is_top value
      then BTreeMap.remove position values
      else BTreeMap.insert position value values

  pub merged_with_top : T → T
  merged_with_top value = d.merge value (d.top value)

  pub merge_all_with_top : List (ℕ × T) → List (ℕ × T) → List (ℕ × T)
  unfolding store merged_with_top
  merge_all_with_top [] values = values
  merge_all_with_top ((index, elem) ∷ rest) values =
      merge_all_with_top rest (store index (merged_with_top elem) values)

  pub merge_before : ℕ → List (ℕ × T) → List (ℕ × T)
  unfolding overlap_before store merged_with_top
  merge_before start values = elim (overlap_before start values) [
    | none ↦ values
    | some (prev_pos, value) ↦ store prev_pos (merged_with_top value) values
  ]

  pub merge_values_intersecting_range_with_top : Bool → ℕ → ℕ → MemRegion T → Outcome (MemRegion T)
  unfolding merge_all_with_top merge_before checked_range
  merge_values_intersecting_range_with_top empty_root start end r = do
    let before = merge_before start r.values
    intersecting_elements ← checked_range (has_root empty_root r.values) start end before
    ok (record r { values = merge_all_with_top intersecting_elements before })

  pub mark_interval_values_as_top : Bool → ℕ → ℕ → ℕ → MemRegion T → Outcome (MemRegion T)
  mark_interval_values_as_top empty_root start end elem_size r =
      merge_values_intersecting_range_with_top empty_root start (i64_add end (as_i64 elem_size)) r

  pub clear_top_values : MemRegion T → MemRegion T
  clear_top_values r = record r {
    values =
        BTreeMap.retain (λ _ value. if not (d.is_top value) then some value else none) r.values;
  }

  pub mark_all_values_as_top : MemRegion T → MemRegion T
  unfolding clear_top_values merged_with_top
  mark_all_values_as_top r =
      clear_top_values
        (record r { values = map (λ (k, value). (k, merged_with_top value)) r.values })

  pub add_offsets : ℕ → List (ℕ × T) → List (ℕ × T) → List (ℕ × T)
  add_offsets offset [] new_values = new_values
  add_offsets offset ((index, value) ∷ rest) new_values =
      add_offsets offset rest (BTreeMap.insert (i64_add index offset) value new_values)

  pub add_offset_to_all_indices : ℕ → MemRegion T → MemRegion T
  unfolding add_offsets
  add_offset_to_all_indices offset r =
      if offset == i64_zero then r else record r { values = add_offsets offset r.values [] }

  -- The methods that take a position as a bitvector.
  module _ (api : ApInt) where
    open api use {Bitvector, width, try_to_i64}

    pub checked_position : Bitvector → MemRegion T → Outcome ℕ
    checked_position position r = do
      assert (byte_size_from (width position) == r.address_bytesize)
      unwrap (try_to_i64 position)

    pub add : Bool → T → Bitvector → MemRegion T → Outcome (MemRegion T)
    unfolding checked_position insert_at_byte_index
    add empty_root value position r = do
      index ← checked_position position r
      insert_at_byte_index empty_root value index r

    pub get : Bitvector → ℕ → MemRegion T → Outcome T
    unfolding checked_position
    get position size_in_bytes r = do
      index ← checked_position position r
      ok (elim (BTreeMap.get index r.values) [
        | none ↦ d.new_top size_in_bytes
        | some elem ↦ if d.bytesize elem == size_in_bytes then elem else d.new_top size_in_bytes
      ])

    pub get_unsized : Bitvector → MemRegion T → Outcome (Option T)
    unfolding checked_position
    get_unsized position r = do
      index ← checked_position position r
      ok (BTreeMap.get index r.values)

    pub remove : Bool → Bitvector → Bitvector → MemRegion T → Outcome (MemRegion T)
    unfolding checked_position clear_interval
    remove empty_root position size_in_bytes r = do
      index ← checked_position position r
      size ← unwrap (try_to_i64 size_in_bytes)
      assert (ltb i64_zero size)
      cleared ← clear_interval empty_root index size r.values
      ok (record r { values = cleared })

    pub merge_write_top : Bool → Bitvector → ℕ → MemRegion T → Outcome (MemRegion T)
    unfolding store merged_with_top clear_interval
    merge_write_top empty_root position size r = do
      index ← unwrap (try_to_i64 position)
      let clear = do
        cleared ← clear_interval empty_root index (as_i64 size) r.values
        ok (record r { values = cleared })
      elim (BTreeMap.get index r.values) [
        | none ↦ clear
        | some prev_value ↦
            if d.bytesize prev_value == size
            then ok (record r { values = store index (merged_with_top prev_value) r.values })
            else clear
      ]
