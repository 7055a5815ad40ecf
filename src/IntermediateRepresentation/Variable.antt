-- ===== src/IntermediateRepresentation/Variable.antt =====
-- src/cwe_checker_lib/src/intermediate_representation/variable.rs: variables and their derived
-- order. A string is the list of its bytes, in whose order Rust compares strings.
use fkie_cad_cwe_checker.Prelude.{ℕ, ◌≡◌, refl, ◌↔◌, Bool, true, false, List, [], ◌∷◌, arith}
use fkie_cad_cwe_checker.Prelude.Key.{Ord, nat_ord, compare_eq, compare_gt, compare_trans}
use Prim.Native.Nat.{compare, Ordering}

pub record Variable : Type 0 where
  pub name : List ℕ
  pub size : ℕ
  pub is_temp : Bool

-- `Ordering::then`
unfoldable pub then : Ordering → Ordering → Ordering
then Ordering.lt o = Ordering.lt
then Ordering.eq o = o
then Ordering.gt o = Ordering.gt

unfoldable pub compare_string : List ℕ → List ℕ → Ordering
unfolding then
compare_string [] [] = Ordering.eq
compare_string [] (b ∷ t) = Ordering.lt
compare_string (a ∷ s) [] = Ordering.gt
compare_string (a ∷ s) (b ∷ t) = then (compare a b) (compare_string s t)

unfoldable pub compare_bool : Bool → Bool → Ordering
compare_bool false true = Ordering.lt
compare_bool true false = Ordering.gt
compare_bool true true = Ordering.eq
compare_bool false false = Ordering.eq

unfoldable pub compare_variable : Variable → Variable → Ordering
unfolding then
compare_variable a b =
    then (compare_string a.name b.name)
      (then (compare a.size b.size) (compare_bool a.is_temp b.is_temp))

compare_string_eq : (a b : List ℕ) → (compare_string a b ≡ Ordering.eq) ↔ (a ≡ b)
unfolding compare_string then
compare_string_eq [] [] = (λ _. refl, λ _. refl)
compare_string_eq [] (b ∷ t) = ground arith
compare_string_eq (a ∷ s) [] = ground arith
compare_string_eq (a ∷ s) (b ∷ t) = ground (arith, compare_eq a b, compare_string_eq s t)

compare_string_gt :
    (a b : List ℕ) → compare_string a b ≡ Ordering.gt → compare_string b a ≡ Ordering.lt
unfolding compare_string then
compare_string_gt [] [] h = ground arith
compare_string_gt [] (b ∷ t) h = ground arith
compare_string_gt (a ∷ s) [] h = ground arith
compare_string_gt (a ∷ s) (b ∷ t) h =
    ground (arith, compare_eq a b, compare_eq b a, compare_gt a b, compare_string_gt s t)

compare_string_trans :
    (a b c : List ℕ)
    → compare_string a b ≡ Ordering.lt
    → compare_string b c ≡ Ordering.lt
    → compare_string a c ≡ Ordering.lt
unfolding compare_string then
compare_string_trans [] [] c h k = ground arith
compare_string_trans [] (b ∷ t) [] h k = ground arith
compare_string_trans [] (b ∷ t) (c ∷ u) h k = refl
compare_string_trans (a ∷ s) [] c h k = ground arith
compare_string_trans (a ∷ s) (b ∷ t) [] h k = ground arith
compare_string_trans (a ∷ s) (b ∷ t) (c ∷ u) h k = ground (
  arith,
  compare_eq a b,
  compare_eq b c,
  compare_eq a c,
  compare_trans a b c,
  compare_string_trans s t u,
)

pub compare_variable_eq : (a b : Variable) → (compare_variable a b ≡ Ordering.eq) ↔ (a ≡ b)
unfolding compare_variable then compare_bool
compare_variable_eq a b = ground (arith, compare_string_eq a.name b.name, compare_eq a.size b.size)

pub compare_variable_gt :
    (a b : Variable) → compare_variable a b ≡ Ordering.gt → compare_variable b a ≡ Ordering.lt
unfolding compare_variable then compare_bool
compare_variable_gt a b h = ground (
  arith,
  compare_string_eq a.name b.name,
  compare_string_eq b.name a.name,
  compare_string_gt a.name b.name,
  compare_eq a.size b.size,
  compare_eq b.size a.size,
  compare_gt a.size b.size,
)

pub compare_variable_trans :
    (a b c : Variable)
    → compare_variable a b ≡ Ordering.lt
    → compare_variable b c ≡ Ordering.lt
    → compare_variable a c ≡ Ordering.lt
unfolding compare_variable then compare_bool
compare_variable_trans a b c h k = ground (
  arith,
  compare_string_eq a.name b.name,
  compare_string_eq b.name c.name,
  compare_string_eq a.name c.name,
  compare_string_trans a.name b.name c.name,
  compare_eq a.size b.size,
  compare_eq b.size c.size,
  compare_eq a.size c.size,
  compare_trans a.size b.size c.size,
)

instance abbrev pub variable_ord : Ord Variable
variable_ord = record {
  cmp = compare_variable;
  cmp_eq_iff = compare_variable_eq;
  cmp_gt = compare_variable_gt;
  cmp_trans = compare_variable_trans;
}
