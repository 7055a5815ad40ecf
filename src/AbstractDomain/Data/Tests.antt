-- ===== src/AbstractDomain/Data/Tests.antt =====
-- A pointer and an absolute value, with spans of numbers as offsets.
use fkie_cad_cwe_checker.Prelude.{
  ℕ, ◌+◌, ◌≤◌, refl, inr, true, false, none, some, [], ◌∷◌, arith, ◌==◌,
}
use fkie_cad_cwe_checker.Prelude.Key.{nat_ord}
use Prim.Native.Nat.{min, max}
use fkie_cad_cwe_checker.BTreeMap
use fkie_cad_cwe_checker.AbstractDomain.Data.{
  RegisterDomain, DataDomain, merge, replace_abstract_id,
}
use fkie_cad_cwe_checker.AbstractDomain.Data.Values.{
  IsRegisterDomain, StandsFor, merge-StandsFor, replace_abstract_id-StandsFor,
}

record Span : Type 0 where
  low : ℕ
  high : ℕ

abbrev spans : RegisterDomain Span
spans = record {
  bytesize = λ _. 8;
  merge = λ a b. record { low = min a.low b.low; high = max a.high b.high };
  add = λ a b. record { low = a.low + b.low; high = a.high + b.high };
}

abbrev span_laws : IsRegisterDomain spans ℕ
span_laws = record {
  plus = λ x y. x + y;
  Contains = λ a x. (a.low ≤ x) × (x ≤ a.high);
  merge_left = λ a b x (l, h). (omega arith, omega arith);
  merge_right = λ a b x (l, h). (omega arith, omega arith);
  add_sound = λ a b x y (l, h) (l', h'). (omega arith, omega arith);
}

-- Offset 4 to 8 of identifier 1, or an absolute value from 10 to 12.
abbrev pointer : DataDomain ℕ Span
pointer = record {
  size = 8;
  relative_values = (1, record { low = 4; high = 8 }) ∷ [];
  absolute_value = none;
  contains_top_values = false;
}

abbrev number : DataDomain ℕ Span
number = record {
  size = 8;
  relative_values = [];
  absolute_value = some (record { low = 10; high = 12 });
  contains_top_values = false;
}

-- Identifier 2 has the base address 95, all others have 100.
abbrev base : ℕ → ℕ
base i = elim (i == 2) [ true ↦ 95 | false ↦ 100 ]

at_pointer : StandsFor spans span_laws base pointer 106
unfolding BTreeMap.get
at_pointer = inr (
    inr (record {
      id = 1;
      offset = record { low = 4; high = 8 };
      distance = 6;
      there = refl;
      within = (omega arith, omega arith);
      sum = refl;
    }))

merge-StandsFor_example : StandsFor spans span_laws base (merge spans number pointer) 106
merge-StandsFor_example =
    merge-StandsFor spans span_laws base number pointer 106 tt (inr at_pointer)

replace_abstract_id-StandsFor_example :
    StandsFor spans span_laws base
      (replace_abstract_id spans 1 2 (record { low = 5; high = 5 }) pointer)
      106
unfolding BTreeMap.get
replace_abstract_id-StandsFor_example =
    replace_abstract_id-StandsFor spans span_laws base base 1 2 (record { low = 5; high = 5 }) 5
      pointer 106 refl (omega arith, omega arith) (λ y. omega arith) (λ id h. refl) at_pointer
