-- ===== src/IntermediateRepresentation/Expression/Pcode.antt =====
-- The values that P-Code gives to the integer and Boolean operations of expressions: a word is a size
-- in bytes and a number. The other operations, of which the functions on expressions know nothing,
-- compute any number of the size that the expression declares.
use fkie_cad_cwe_checker.Prelude.{
  ℕ, ◌+◌, ◌-◌, ◌*◌, ◌/◌, ◌%◌, ◌^◌, Bool, false, List, ltb, leb, ◌==◌, not, ◌&&◌, if◌then◌else◌,
}
use Prim.Native.Nat.{bit_and, bit_or, bit_xor}
use fkie_cad_cwe_checker.Prelude.Powers.{modulus}
use fkie_cad_cwe_checker.Apint.{ApInt, byte_size_from}
use fkie_cad_cwe_checker.Apint.Arithmetic.{is_negative, signed_order, complement, extend_sign}
use fkie_cad_cwe_checker.IntermediateRepresentation.Expression.{
  BinOpType, UnOpType, CastOpType, bin_op_size, un_op_size,
}
use fkie_cad_cwe_checker.IntermediateRepresentation.Expression.BinOpType.{
  piece, int_equal, int_not_equal, int_less, int_s_less, int_less_equal, int_s_less_equal, int_add,
  int_sub, int_carry, int_s_carry, int_s_borrow, int_x_or, int_and, int_or, int_left, int_right,
  bool_x_or, bool_and, bool_or,
}
use fkie_cad_cwe_checker.IntermediateRepresentation.Expression.UnOpType.{
  int_negate, int2_comp, bool_negate,
}
use fkie_cad_cwe_checker.IntermediateRepresentation.Expression.CastOpType.{int_z_ext, int_s_ext}
use fkie_cad_cwe_checker.IntermediateRepresentation.Expression.Semantics.{Meaning}

pub record Word : Type 0 where
  pub size : ℕ
  pub bits : ℕ

abbrev pub word : ℕ → ℕ → Word
word n b = record { size = n; bits = b }

abbrev pub truth : Bool → Word
truth b = word 1 (if b then 1 else 0)

unfoldable pub is_minus : Word → Bool
unfolding is_negative
is_minus x = is_negative (modulus x.size) x.bits

unfoldable pub order : Word → ℕ
unfolding signed_order is_negative
order x = signed_order (modulus x.size) x.bits

unfoldable pub plus : Word → Word → ℕ
plus x y = (x.bits + y.bits) % modulus x.size

unfoldable pub minus : Word → Word → ℕ
minus x y = (x.bits + (modulus x.size - y.bits)) % modulus x.size

-- The numbers of the other operations.
pub record Others : Type 0 where
  pub binary_bits : BinOpType → Word → Word → ℕ
  pub unary_bits : UnOpType → Word → ℕ
  pub cast_bits : CastOpType → ℕ → Word → ℕ
  pub unknown_bits : List ℕ → ℕ → ℕ

module _ (others : Others) where
  unfoldable pub binary_word : BinOpType → Word → Word → Word
  unfolding is_minus order plus minus
  binary_word op x y = elim op [
    | piece ↦ word (x.size + y.size) (x.bits * modulus y.size + y.bits)
    | int_equal ↦ truth (x.bits == y.bits)
    | int_not_equal ↦ truth (not (x.bits == y.bits))
    | int_less ↦ truth (ltb x.bits y.bits)
    | int_less_equal ↦ truth (leb x.bits y.bits)
    | int_s_less ↦ truth (ltb (order x) (order y))
    | int_s_less_equal ↦ truth (leb (order x) (order y))
    | int_add ↦ word x.size (plus x y)
    | int_sub ↦ word x.size (minus x y)
    | int_carry ↦ truth (leb (modulus x.size) (x.bits + y.bits))
    | int_s_carry ↦
        let result = is_minus (word x.size (plus x y)) in
        truth
          (if is_minus x then (is_minus y && not result) else if is_minus y then false else result)
    | int_s_borrow ↦
        let result = is_minus (word x.size (minus x y)) in
        truth (
          if is_minus x then (if is_minus y then false else not result) else (is_minus y && result))
    | int_and ↦ word x.size (bit_and x.bits y.bits)
    | int_or ↦ word x.size (bit_or x.bits y.bits)
    | int_x_or ↦ word x.size (bit_xor x.bits y.bits)
    | bool_and ↦ word 1 (bit_and x.bits y.bits)
    | bool_or ↦ word 1 (bit_or x.bits y.bits)
    | bool_x_or ↦ word 1 (bit_xor x.bits y.bits)
    | int_left ↦ word x.size (x.bits * 2 ^ y.bits % modulus x.size)
    | int_right ↦ word x.size (x.bits / 2 ^ y.bits)
    | other ↦
        (let size = bin_op_size other x.size y.size in
          word size (others.binary_bits other x y % modulus size))
  ]

  unfoldable pub unary_word : UnOpType → Word → Word
  unary_word op x = elim op [
    | int_negate ↦ word x.size (modulus x.size - 1 - x.bits)
    | int2_comp ↦ word x.size (complement (modulus x.size) x.bits)
    | bool_negate ↦ word x.size (if x.bits == 0 then 1 else 0)
    | other ↦
        (let size = un_op_size other x.size in word size (others.unary_bits other x % modulus size))
  ]

  unfoldable pub cast_word : CastOpType → ℕ → Word → Word
  cast_word op size x = elim op [
    | int_z_ext ↦ word size x.bits
    | int_s_ext ↦ word size (extend_sign (modulus x.size) (modulus size) x.bits)
    | other ↦ word size (others.cast_bits other size x % modulus size)
  ]

  unfoldable pub subpiece_word : ℕ → ℕ → Word → Word
  subpiece_word low_byte size x = word size (x.bits / modulus low_byte % modulus size)

  abbrev pub pcode : (api : ApInt) → (api.Bitvector → ℕ) → Meaning api.Bitvector
  pcode api value = record {
    Value = Word;
    constant = λ c. word (byte_size_from (api.width c)) (value c);
    binary = binary_word;
    unary = unary_word;
    converted = cast_word;
    unspecified =
        λ description size. word size (others.unknown_bits description size % modulus size);
    extracted = subpiece_word;
  }
