-- ===== src/IntermediateRepresentation/Bitvector/Yields.antt =====
-- When a result of the code is a word of P-Code.
use fkie_cad_cwe_checker.Prelude.{
  ℕ, ◌+◌, ◌*◌, ◌%◌, ◌<◌, ◌≡◌, refl, ap, sym, ◌∙◌, Bool, true, false, not, ◌&&◌, ◌||◌, ltb, leb,
  Option, some, arith, if◌then◌else◌,
}
use mathlib.Core.Path.{ap₂}
use fkie_cad_cwe_checker.Prelude.Outcome.{Outcome, ok}
use fkie_cad_cwe_checker.Prelude.Powers.{sum_cases}
use fkie_cad_cwe_checker.Apint.{ApInt, byte_size_from}
use fkie_cad_cwe_checker.Apint.Arithmetic.{Arithmetic, IsArithmetic, Gives, is_negative}
use fkie_cad_cwe_checker.IntermediateRepresentation.Bitvector.{as_bit_length, ok_of, flag, ok_flag}
use fkie_cad_cwe_checker.IntermediateRepresentation.Expression.{BinOpType}
use fkie_cad_cwe_checker.IntermediateRepresentation.Expression.BinOpType.{
  piece, int_equal, int_not_equal, int_less, int_s_less, int_less_equal, int_s_less_equal, int_add,
  int_sub, int_carry, int_s_carry, int_x_or, int_and, int_or, int_left, int_right, bool_x_or,
  bool_and, bool_or,
}
use fkie_cad_cwe_checker.IntermediateRepresentation.Expression.Pcode.{Word, word, truth, Others}

-- The operations that are implemented as P-Code has them.
abbrev pub implemented : BinOpType → Bool
implemented op = elim op [
  | piece ↦ true
  | int_add ↦ true
  | int_sub ↦ true
  | int_carry ↦ true
  | int_s_carry ↦ true
  | int_left ↦ true
  | int_right ↦ true
  | int_and ↦ true
  | int_or ↦ true
  | int_x_or ↦ true
  | bool_and ↦ true
  | bool_or ↦ true
  | bool_x_or ↦ true
  | int_equal ↦ true
  | int_not_equal ↦ true
  | int_less ↦ true
  | int_less_equal ↦ true
  | int_s_less ↦ true
  | int_s_less_equal ↦ true
  | _ ↦ false
]

whole_bytes : (n : ℕ) → byte_size_from (as_bit_length n) ≡ n
unfolding byte_size_from
whole_bytes n = omega arith

-- A sum below one of its terms has wrapped around.
pub carry_at :
    (m x y d : ℕ) → x < m → y < m → d ≡ (x + y) % m → (ltb d x || ltb d y) ≡ leb m (x + y)
carry_at m x y d h k e = ground (arith, sum_cases m x y h k)

unfoldable pub overflows : ℕ → ℕ → ℕ → ℕ → ℕ → Bool
overflows m m' x y d =
    if is_negative m x
    then (is_negative m' y && not (is_negative m d))
    else if is_negative m' y
    then false
    else is_negative m d

-- The tests of the code for a signed overflow of a sum, and the flag of P-Code.
pub s_carry_at :
    (m half x y d : ℕ) (positive_x positive_y : Bool)
    → x < m
    → y < m
    → m ≡ 2 * half
    → d ≡ (x + y) % m
    → (0 < x → is_negative m x ≡ false → positive_x ≡ true)
    → (is_negative m x ≡ true → positive_x ≡ false)
    → (0 < y → is_negative m y ≡ false → positive_y ≡ true)
    → (is_negative m y ≡ true → positive_y ≡ false)
    → ((is_negative m d && (positive_x && positive_y))
        || (not (is_negative m d) && (is_negative m x && is_negative m y)))
      ≡ overflows m m x y d
unfolding is_negative overflows
s_carry_at m half x y d positive_x positive_y h k e q px nx py ny =
    ground (arith, sum_cases m x y h k)

-- Bitvectors of whole bytes, and their words.
abbrev pub IsWhole : (api : ApInt) → api.Bitvector → Type 0
IsWhole api b = (api.width b ≡ as_bit_length (byte_size_from (api.width b))) × (0 < api.width b)

abbrev pub word_of : (api : ApInt) → (api.Bitvector → ℕ) → api.Bitvector → Word
word_of api value b = word (byte_size_from (api.width b)) (value b)

module _ (api : ApInt) (a : Arithmetic api) (value : api.Bitvector → ℕ)
    (laws : IsArithmetic api a value) (others : Others) where
  -- The run returns a bitvector of whole bytes, whose word is `x`.
  abbrev pub Yields : Outcome (Option api.Bitvector) → Word → Type 0
  Yields run x =
      (b : api.Bitvector) × (run ≡ ok (some b)) × IsWhole api b × (word_of api value b ≡ x)

  pub stands :
      (b : api.Bitvector) (w m n : ℕ)
      → (api.width b ≡ w) × (value b ≡ n)
      → w ≡ as_bit_length m
      → 0 < m
      → IsWhole api b × (word_of api value b ≡ word m n)
  stands b w m n s h p =
      let size : byte_size_from (api.width b) ≡ m = ap byte_size_from (s.0 ∙ h) ∙ whole_bytes m in
      ((s.0 ∙ h ∙ ap as_bit_length (sym size), omega (arith, s.0)), ap₂ word size s.1)

  pub yields :
      (result : Option api.Bitvector) (w m n : ℕ)
      → Gives api value result w n
      → w ≡ as_bit_length m
      → 0 < m
      → Yields (ok_of api a result) (word m n)
  yields result w m n (b, p, s) h q =
      let (whole, v) = stands b w m n s h q in (b, ap (ok_of api a) p, whole, v)

  flag-Yields : (t : Bool) → Yields (flag api a t) (truth t)
  flag-Yields true =
      let (whole, v) =
        stands (a.from_u8 1) 8 1 1 (laws.from_u8-Stands 1 (omega arith)) refl (omega arith) in
      (a.from_u8 1, refl, whole, v)
  flag-Yields false =
      let (whole, v) =
        stands (a.from_u8 0) 8 1 0 (laws.from_u8-Stands 0 (omega arith)) refl (omega arith) in
      (a.from_u8 0, refl, whole, v)

  pub compared : (o : Option Bool) (t : Bool) → o ≡ some t → Yields (ok_flag api a o) (truth t)
  compared o t e = let (b, p, whole, v) = flag-Yields t in (b, ap (ok_flag api a) e ∙ p, whole, v)

  -- A run that ends in a flag.
  pub runs :
      (run : Outcome (Option api.Bitvector)) (t u : Bool)
      → run ≡ flag api a t
      → t ≡ u
      → Yields run (truth u)
  runs run t u e f = let (b, p, whole, v) = flag-Yields t in (b, e ∙ p, whole, v ∙ ap truth f)
