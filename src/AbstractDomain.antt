-- ===== src/AbstractDomain.antt =====
-- src/cwe_checker_lib/src/abstract_domain/mod.rs: the traits of abstract domains, as records of
-- the methods that a type implements.
pub mod DomainMap
pub mod MemRegion
pub mod CharacterInclusion
pub mod Data
pub mod Interval
use fkie_cad_cwe_checker.Prelude.{ℕ, ◌≡◌, Bool, true, false, if◌then◌else◌, Bool-cases, inl, inr}

-- `eq` is the type's `PartialEq`.
pub record AbstractDomain (T : Type 0) : Type 0 where
  pub eq : T → T → Bool
  pub merge : T → T → T
  pub is_top : T → Bool

pub record HasTop (T : Type 0) : Type 0 where
  pub top : T → T

-- Sizes are in bytes.
pub record SizedDomain (T : Type 0) : Type 0 where
  pub bytesize : T → ℕ
  pub new_top : ℕ → T

-- The default method: the new value of `self`.
unfoldable pub merge_with : {T : Type 0} → AbstractDomain T → T → T → T
merge_with d self other = if d.eq self other then self else d.merge self other

-- What the methods promise: `eq` is equality, and `merge` gives an upper bound in an order.
pub record IsAbstractDomain {T : Type 0} (d : AbstractDomain T) : Type 1 where
  pub eq_sound : (a b : T) → d.eq a b ≡ true → a ≡ b
  pub Le : T → T → Type 0
  pub le_refl : (a : T) → Le a a
  pub le-merge_left : (a b : T) → Le a (d.merge a b)
  pub le-merge_right : (a b : T) → Le b (d.merge a b)

module _ {T : Type 0} {d : AbstractDomain T} (laws : IsAbstractDomain d) where
  open laws use {Le, eq_sound, le_refl, le-merge_left, le-merge_right}

  pub le-merge_with_left : (a b : T) → Le a (merge_with d a b)
  unfolding merge_with
  le-merge_with_left a b = elim (d.eq a b) as (λ e. Le a (if e then a else d.merge a b)) [
    | true ↦ le_refl a
    | false ↦ le-merge_left a b
  ]

  pub le-merge_with_right : (a b : T) → Le b (merge_with d a b)
  unfolding merge_with
  le-merge_with_right a b = elim (Bool-cases (d.eq a b)) [
    | inl same ↦ let e : a ≡ b = eq_sound a b same in rw (merge_with, same) (rw e (le_refl b))
    | inr other ↦ rw (merge_with, other) (le-merge_right a b)
  ]
