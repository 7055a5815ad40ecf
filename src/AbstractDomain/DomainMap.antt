-- ===== src/AbstractDomain/DomainMap.antt =====
-- src/cwe_checker_lib/src/abstract_domain/domain_map.rs: maps into an abstract domain, and the
-- strategies for merging two of them. The `Arc` and `PhantomData` around the map carry no data.
pub mod Lookup
pub mod Order
mod Tests
use fkie_cad_cwe_checker.Prelude.{
  Bool, true, false, ◌&&◌, Option, none, some, List, [], ◌∷◌, if◌then◌else◌,
}
use fkie_cad_cwe_checker.Prelude.Key.{Ord, ◌=?◌, nat_ord}
use fkie_cad_cwe_checker.BTreeMap
use fkie_cad_cwe_checker.AbstractDomain.{AbstractDomain, HasTop, merge_with}

-- A strategy is its `merge_map_with`: the new value of `map`.
abbrev pub MapMergeStrategy : Type 0 → Type 0 → Type 0
MapMergeStrategy K V = List (K × V) → List (K × V) → List (K × V)

-- A value that is kept unless it is `Top`.
abbrev pub unless_top : {V : Type 0} → AbstractDomain V → V → Option V
unless_top d v = if d.is_top v then none else some v

module _ {K V : Type 0} ⦃o : Ord K⦄ (d : AbstractDomain V) where
  -- `entry(key).and_modify(..).or_insert_with(..)`
  pub merge_entry : K → V → List (K × V) → List (K × V)
  merge_entry key value_other map' =
      BTreeMap.insert key
        (elim (BTreeMap.get key map') [
          | some value ↦ merge_with d value value_other
          | none ↦ value_other
        ])
        map'

  pub union_merge_map_with : MapMergeStrategy K V
  unfolding merge_entry
  union_merge_map_with map' [] = map'
  union_merge_map_with map' ((key, value_other) ∷ other) =
      union_merge_map_with (merge_entry key value_other map') other

  pub intersect_merge_map_with : MapMergeStrategy K V
  intersect_merge_map_with map' other =
      BTreeMap.retain
        (λ k value. elim (BTreeMap.get k other) [
          | none ↦ none
          | some value_other ↦ unless_top d (merge_with d value value_other)
        ])
        map'

  module _ (h : HasTop V) where
    -- The loop over the keys of `other` that are not in the map.
    pub add_missing : MapMergeStrategy K V
    add_missing map' [] = map'
    add_missing map' ((k, value_other) ∷ other) =
        add_missing
          (elim (BTreeMap.get k map') [
            | some _ ↦ map'
            | none ↦ elim (unless_top d (merge_with d (h.top value_other) value_other)) [
              | none ↦ map'
              | some merged_value ↦ BTreeMap.insert k merged_value map'
            ]
          ])
          other

    pub merge_top_merge_map_with : MapMergeStrategy K V
    unfolding add_missing
    merge_top_merge_map_with map' other =
        add_missing
          (BTreeMap.retain
            (λ key value. unless_top d (elim (BTreeMap.get key other) [
              | some value_other ↦ merge_with d value value_other
              | none ↦ merge_with d value (h.top value)
            ]))
            map')
          other

  -- The derived `==` of two maps.
  unfoldable pub map_eq : List (K × V) → List (K × V) → Bool
  map_eq [] [] = true
  map_eq [] (_ ∷ _) = false
  map_eq (_ ∷ _) [] = false
  map_eq ((j, v) ∷ l) ((k, w) ∷ m) = j =? k && d.eq v w && map_eq l m

  module _ (strategy : MapMergeStrategy K V) where
    pub domain_map_merge_with : List (K × V) → List (K × V) → List (K × V)
    unfolding map_eq
    domain_map_merge_with self other = if map_eq self other then self else strategy self other

    pub domain_map_merge : List (K × V) → List (K × V) → List (K × V)
    unfolding domain_map_merge_with
    domain_map_merge self other =
        if map_eq self other then self else domain_map_merge_with self other

-- A map is `Top` if it is empty.
pub domain_map_is_top : {K V : Type 0} → List (K × V) → Bool
domain_map_is_top [] = true
domain_map_is_top (_ ∷ _) = false
