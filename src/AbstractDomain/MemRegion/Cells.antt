-- ===== src/AbstractDomain/MemRegion/Cells.antt =====
-- A small value domain, and memory regions over it.
use fkie_cad_cwe_checker.Prelude.{
  ℕ, ◌+◌, ◌^◌, ◌≡◌, refl, Bool, true, false, ◌&&◌, some, [], ◌∷◌, arith, ◌==◌, if◌then◌else◌, ◌⊎◌,
  inl, inr, ==_iff, Bool-cases,
}
use mathlib.Core.Path.{subst₂}
use fkie_cad_cwe_checker.Prelude.Key.{nat_ord}
use fkie_cad_cwe_checker.BTreeMap
use fkie_cad_cwe_checker.Apint.{ApInt, byte_size_from}
use fkie_cad_cwe_checker.AbstractDomain.MemRegion.{ValueDomain, MemRegion}
use fkie_cad_cwe_checker.AbstractDomain.MemRegion.Regions.{Fits, IsValid}
use fkie_cad_cwe_checker.AbstractDomain.{IsAbstractDomain}
use fkie_cad_cwe_checker.AbstractDomain.MemRegion.Merging.Above.{IsSized}
use fkie_cad_cwe_checker.AbstractDomain.MemRegion.Access.{Addresses}

-- A known value of some size, or an unknown one.
pub data Cell : Type 0 where
  known : ℕ → ℕ → Cell
  unknown : ℕ → Cell

abbrev pub size : Cell → ℕ
size (known s v) = s
size (unknown s) = s

abbrev pub is_unknown : Cell → Bool
is_unknown (known s v) = false
is_unknown (unknown s) = true

abbrev pub cell_eq : Cell → Cell → Bool
cell_eq (known s v) (known t w) = s == t && v == w
cell_eq (known s v) (unknown t) = false
cell_eq (unknown s) (known t w) = false
cell_eq (unknown s) (unknown t) = s == t

abbrev pub cells : ValueDomain Cell
cells = record {
  domain = record {
    eq = cell_eq;
    merge = λ a b. if cell_eq a b then a else unknown (size a);
    is_top = is_unknown;
  };
  sized = record { bytesize = size; new_top = unknown };
  has_top = record { top = λ a. unknown (size a) };
}

-- 64-bit bitvectors, each the offset that it stands for.
abbrev pub offsets : ApInt
offsets = record { Bitvector = ℕ; width = λ _. 64; try_to_i64 = some }

-- Offset 0.
abbrev pub origin : ℕ
origin = 2 ^ 63

abbrev pub region : MemRegion Cell
region = record { address_bytesize = 8; values = (origin + 2, known 4 7) ∷ [] }

pub region-IsValid : IsValid cells region.values
unfolding BTreeMap.get
region-IsValid = record {
  sorted = tt;
  fits = λ k v h.
      let place : origin + 2 ≡ k = ground arith in
      let value : known 4 7 ≡ v = ground arith in
      subst₂ (Fits cells) place value
        (record { has_size = omega arith; small = omega arith; ends = omega arith; known = refl });
  disjoint = λ j k v w h h' lt. absurd (ground arith);
}

pub at_offset : (n : ℕ) → Addresses cells offsets n n region
unfolding byte_size_from
at_offset n = record { width_fits = refl; offset = refl }

abbrev pub CellLe : Cell → Cell → Type 0
CellLe a b = (a ≡ b) ⊎ (is_unknown b ≡ true)

pub cell_eq_sound : (a b : Cell) → cell_eq a b ≡ true → a ≡ b
cell_eq_sound (known s v) (known t w) h = ground (arith, ==_iff s t, ==_iff v w)
cell_eq_sound (known s v) (unknown t) h = ground arith
cell_eq_sound (unknown s) (known t w) h = ground arith
cell_eq_sound (unknown s) (unknown t) h = ground (arith, ==_iff s t)

pub merge_left : (a b : Cell) → CellLe a (cells.merge a b)
merge_left a b = elim (Bool-cases (cell_eq a b)) [
  | inl same ↦ inl (ground arith)
  | inr differ ↦ inr (ground arith)
]

pub merge_right : (a b : Cell) → CellLe b (cells.merge a b)
merge_right a b = elim (Bool-cases (cell_eq a b)) [
  | inl same ↦ inl (ground (arith, cell_eq_sound a b))
  | inr differ ↦ inr (ground arith)
]

pub cells-IsAbstractDomain : IsAbstractDomain cells.domain
cells-IsAbstractDomain = record {
  eq_sound = cell_eq_sound;
  Le = CellLe;
  le_refl = λ a. inl refl;
  le-merge_left = merge_left;
  le-merge_right = merge_right;
}

pub cells-IsSized : IsSized cells
cells-IsSized = record { size_merge = λ a b h. ground arith; size_top = λ n. refl }

-- A region with one more element.
abbrev pub larger : MemRegion Cell
larger = record {
  address_bytesize = 8;
  values = (origin + 2, known 4 7) ∷ (origin + 8, known 2 1) ∷ [];
}

pub larger-IsValid : IsValid cells larger.values
unfolding BTreeMap.get
larger-IsValid = record {
  sorted = (refl, tt);
  fits = λ k v h. elim (Bool-cases (k == origin + 2)) [
    | inl first ↦
        let place : origin + 2 ≡ k = ground arith in
        let value : known 4 7 ≡ v = ground arith in
        subst₂ (Fits cells) place value
          (record { has_size = omega arith; small = omega arith; ends = omega arith; known = refl })
    | inr second ↦
        let place : origin + 8 ≡ k = ground arith in
        let value : known 2 1 ≡ v = ground arith in
        subst₂ (Fits cells) place value
          (record { has_size = omega arith; small = omega arith; ends = omega arith; known = refl })
  ];
  disjoint = λ j k v w h h' lt. ground arith;
}
