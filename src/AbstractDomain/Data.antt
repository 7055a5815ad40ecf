-- ===== src/AbstractDomain/Data.antt =====
-- src/cwe_checker_lib/src/abstract_domain/data.rs and data/trait_impl.rs: values that are absolute,
-- or offsets to abstract identifiers, or unknown. `Identifier` is the type of identifiers.
pub mod Values
mod Tests
use fkie_cad_cwe_checker.Prelude.{
  ℕ, Bool, true, false, not, ◌&&◌, ◌||◌, Option, none, some, List, [], ◌∷◌, if◌then◌else◌, is_some,
}
use fkie_cad_cwe_checker.Prelude.Key.{Ord}
use fkie_cad_cwe_checker.BTreeMap
use fkie_cad_cwe_checker.BTreeSet

-- What is used of the trait `RegisterDomain` of the offsets: `add` is `bin_op` with `IntAdd`.
pub record RegisterDomain (T : Type 0) : Type 0 where
  pub bytesize : T → ℕ
  pub merge : T → T → T
  pub add : T → T → T

pub record DataDomain (Identifier T : Type 0) : Type 0 where
  pub size : ℕ
  pub relative_values : List (Identifier × T)
  pub absolute_value : Option T
  pub contains_top_values : Bool

abbrev pub is_nil : {A : Type 0} → List A → Bool
is_nil [] = true
is_nil (_ ∷ _) = false

module _ {Identifier T : Type 0} where
  pub is_empty : DataDomain Identifier T → Bool
  is_empty a =
      is_nil a.relative_values && not (is_some a.absolute_value) && not a.contains_top_values

  pub new_empty : ℕ → DataDomain Identifier T
  new_empty size = record {
    size = size;
    relative_values = [];
    absolute_value = none;
    contains_top_values = false;
  }

  pub new_top : ℕ → DataDomain Identifier T
  new_top bytesize = record {
    size = bytesize;
    relative_values = [];
    absolute_value = none;
    contains_top_values = true;
  }

  pub top : DataDomain Identifier T → DataDomain Identifier T
  unfolding new_top
  top a = new_top a.size

  pub is_top : DataDomain Identifier T → Bool
  is_top a = is_nil a.relative_values && not (is_some a.absolute_value) && a.contains_top_values

  pub get_if_absolute_value : DataDomain Identifier T → Option T
  get_if_absolute_value a =
      if is_nil a.relative_values && not a.contains_top_values then a.absolute_value else none

  pub get_if_absolute_value_or_top : DataDomain Identifier T → Option T
  get_if_absolute_value_or_top a = if is_nil a.relative_values then a.absolute_value else none

  abbrev pub only : List (Identifier × T) → Option (Identifier × T)
  only [] = none
  only (e ∷ []) = some e
  only (_ ∷ _ ∷ _) = none

  pub get_if_unique_target : DataDomain Identifier T → Option (Identifier × T)
  get_if_unique_target a =
      if not (is_some a.absolute_value) && not a.contains_top_values
      then only a.relative_values
      else none

module _ {T : Type 0} (r : RegisterDomain T) where
  pub merge_absolute : Option T → Option T → Option T
  merge_absolute (some left) (some right) = some (r.merge left right)
  merge_absolute (some val) none = some val
  merge_absolute none (some val) = some val
  merge_absolute none none = none

module _ {Identifier T : Type 0} ⦃o : Ord Identifier⦄ (r : RegisterDomain T) where
  pub from_value : T → DataDomain Identifier T
  from_value value = record {
    size = r.bytesize value;
    relative_values = [];
    absolute_value = some value;
    contains_top_values = false;
  }

  pub from_target : Identifier → T → DataDomain Identifier T
  from_target id offset = record {
    size = r.bytesize offset;
    relative_values = (id, offset) ∷ [];
    absolute_value = none;
    contains_top_values = false;
  }

  pub replace_abstract_id :
      Identifier → Identifier → T → DataDomain Identifier T → DataDomain Identifier T
  replace_abstract_id old_id new_id offset_adjustment a =
      elim (BTreeMap.get old_id a.relative_values) [
        | none ↦ a
        | some old_offset ↦ record a {
          relative_values =
              BTreeMap.insert new_id (r.add old_offset offset_adjustment)
                (BTreeMap.remove old_id a.relative_values);
        }
      ]

  pub remove_ids : List Identifier → DataDomain Identifier T → DataDomain Identifier T
  remove_ids ids_to_remove a = record a {
    relative_values =
        BTreeMap.retain
          (λ id offset. if BTreeSet.contains id ids_to_remove then none else some offset)
          a.relative_values;
  }

  -- The loop over the offsets of the other value.
  pub merge_offsets : List (Identifier × T) → List (Identifier × T) → List (Identifier × T)
  merge_offsets relative_values [] = relative_values
  merge_offsets relative_values ((id, offset_other) ∷ other) =
      merge_offsets
        (BTreeMap.insert id
          (elim (BTreeMap.get id relative_values) [
            | some offset ↦ r.merge offset offset_other
            | none ↦ offset_other
          ])
          relative_values)
        other

  pub merge : DataDomain Identifier T → DataDomain Identifier T → DataDomain Identifier T
  unfolding merge_offsets merge_absolute
  merge self other = record {
    size = self.size;
    relative_values = merge_offsets self.relative_values other.relative_values;
    absolute_value = merge_absolute r self.absolute_value other.absolute_value;
    contains_top_values = self.contains_top_values || other.contains_top_values;
  }
