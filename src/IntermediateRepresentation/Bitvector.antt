-- ===== src/IntermediateRepresentation/Bitvector.antt =====
-- src/cwe_checker_lib/src/intermediate_representation/bitvector.rs: the operations on bitvectors that
-- the crate apint lacks. A run may panic; `none` is the error of an operation that is not
-- implemented, or of a division that fails.
pub mod Yields
pub mod Implements
pub mod Overflow
mod Tests
use fkie_cad_cwe_checker.Prelude.{
  ℕ, ◌+◌, ◌*◌, Bool, true, false, not, ◌&&◌, ◌||◌, ltb, ◌==◌, Option, some, none, if◌then◌else◌,
}
use fkie_cad_cwe_checker.Prelude.Outcome.{Outcome, ok, ◌>>=◌, ◌>>◌, assert, unwrap}
use fkie_cad_cwe_checker.Apint.{ApInt}
use fkie_cad_cwe_checker.Apint.Arithmetic.{Arithmetic}
use fkie_cad_cwe_checker.IntermediateRepresentation.Expression.{BinOpType, UnOpType, CastOpType}
use fkie_cad_cwe_checker.IntermediateRepresentation.Expression.BinOpType.{
  piece, int_equal, int_not_equal, int_less, int_s_less, int_less_equal, int_s_less_equal, int_add,
  int_sub, int_carry, int_s_carry, int_s_borrow, int_x_or, int_and, int_or, int_left, int_right,
  int_s_right, int_mult, int_div, int_rem, int_s_div, int_s_rem, bool_x_or, bool_and, bool_or,
}
use fkie_cad_cwe_checker.IntermediateRepresentation.Expression.UnOpType.{
  int_negate, int2_comp, bool_negate,
}
use fkie_cad_cwe_checker.IntermediateRepresentation.Expression.CastOpType.{
  int_z_ext, int_s_ext, pop_count, lz_count,
}

-- `ByteSize::as_bit_length`
abbrev pub as_bit_length : ℕ → ℕ
as_bit_length size = 8 * size

module _ (api : ApInt) (a : Arithmetic api) where
  -- `Ok` of an operation that panics when the crate's operation fails.
  abbrev pub ok_of : Option api.Bitvector → Outcome (Option api.Bitvector)
  ok_of result = do b ← unwrap result; ok (some b)

  -- `Bitvector::from(condition as u8)`
  abbrev pub from_bool : Bool → api.Bitvector
  from_bool b = a.from_u8 (if b then 1 else 0)

  abbrev pub flag : Bool → Outcome (Option api.Bitvector)
  flag b = ok (some (from_bool b))

  abbrev pub ok_flag : Option Bool → Outcome (Option api.Bitvector)
  ok_flag test = do b ← unwrap test; flag b

  unfoldable pub resize_unsigned : api.Bitvector → ℕ → Outcome api.Bitvector
  resize_unsigned b size =
      if ltb (api.width b) (as_bit_length size)
      then unwrap (a.zero_extend (as_bit_length size) b)
      else unwrap (a.truncate (as_bit_length size) b)

  unfoldable pub resize_signed : api.Bitvector → ℕ → Outcome api.Bitvector
  resize_signed b size =
      if ltb (api.width b) (as_bit_length size)
      then unwrap (a.sign_extend (as_bit_length size) b)
      else unwrap (a.truncate (as_bit_length size) b)

  abbrev resized_count : ℕ → ℕ → Outcome (Option api.Bitvector)
  unfolding resize_unsigned
  resized_count count width = do b ← resize_unsigned (a.from_u64 count) width; ok (some b)

  unfoldable pub cast_bitvector : api.Bitvector → CastOpType → ℕ → Outcome (Option api.Bitvector)
  unfolding resized_count
  cast_bitvector b kind width = elim kind [
    | int_z_ext ↦ ok_of (a.zero_extend (as_bit_length width) b)
    | int_s_ext ↦ ok_of (a.sign_extend (as_bit_length width) b)
    | pop_count ↦ resized_count (a.count_ones b) width
    | lz_count ↦ resized_count (a.leading_zeros b) width
    | _ ↦ ok none
  ]

  unfoldable pub subpiece_bitvector : api.Bitvector → ℕ → ℕ → Outcome api.Bitvector
  subpiece_bitvector b low_byte size = do
    shifted ← unwrap (a.checked_lshr (as_bit_length low_byte) b)
    unwrap (a.truncate (as_bit_length size) shifted)

  unfoldable pub un_op_bitvector : api.Bitvector → UnOpType → Outcome (Option api.Bitvector)
  un_op_bitvector b op = elim op [
    | int2_comp ↦ ok (some (a.neg b))
    | int_negate ↦ ok (some (a.into_bitnot b))
    | bool_negate ↦
        if a.is_zero b
        then ok (some (a.from_u8 1))
        else (assert (a.equal b (a.from_u8 1)) >> ok (some (a.from_u8 0)))
    | _ ↦ ok none
  ]

  unfoldable pub piece_bitvectors : api.Bitvector → api.Bitvector → Outcome (Option api.Bitvector)
  piece_bitvectors b rhs = do
    let new_bitwidth = api.width b + api.width rhs
    extended ← unwrap (a.zero_extend new_bitwidth b)
    upper_bits ← unwrap (a.checked_shl (api.width rhs) extended)
    lower_bits ← unwrap (a.zero_extend new_bitwidth rhs)
    ok_of (a.checked_bitor upper_bits lower_bits)

  unfoldable pub carry : api.Bitvector → api.Bitvector → Outcome (Option api.Bitvector)
  carry b rhs = do
    result ← unwrap (a.checked_add b rhs)
    below ← unwrap (a.checked_ult result b)
    below_rhs ← if below then ok true else unwrap (a.checked_ult result rhs)
    flag below_rhs

  -- The tests of the operands and the result for a signed overflow.
  abbrev pub carries : api.Bitvector → api.Bitvector → api.Bitvector → Bool
  carries b rhs result =
      (a.sign_bit result && (a.is_positive b && a.is_positive rhs))
      || (not (a.sign_bit result) && (a.sign_bit b && a.sign_bit rhs))

  unfoldable pub signed_carry : api.Bitvector → api.Bitvector → Outcome (Option api.Bitvector)
  signed_carry b rhs = do result ← unwrap (a.checked_add b rhs); flag (carries b rhs result)

  abbrev pub borrows : api.Bitvector → api.Bitvector → api.Bitvector → Bool
  borrows b rhs result =
      (a.sign_bit result && (not (a.is_positive b) && a.sign_bit rhs))
      || (a.is_positive result && (a.sign_bit b && a.is_positive rhs))

  unfoldable pub signed_borrow : api.Bitvector → api.Bitvector → Outcome (Option api.Bitvector)
  signed_borrow b rhs = do result ← unwrap (a.checked_sub b rhs); flag (borrows b rhs result)

  -- Multiplications and divisions are not implemented for more than 8 bytes.
  abbrev up_to_8_bytes :
      api.Bitvector → Outcome (Option api.Bitvector) → Outcome (Option api.Bitvector)
  up_to_8_bytes b result = if ltb 64 (api.width b) then ok none else result

  abbrev shift_amount : api.Bitvector → Outcome ℕ
  shift_amount rhs = unwrap (a.try_to_u64 rhs)

  unfoldable pub shift_left : api.Bitvector → api.Bitvector → Outcome (Option api.Bitvector)
  shift_left b rhs = do
    amount ← shift_amount rhs
    if ltb amount (api.width b)
        then ok_of (a.checked_shl amount b)
        else ok (some (a.zero_of (api.width b)))

  unfoldable pub shift_right : api.Bitvector → api.Bitvector → Outcome (Option api.Bitvector)
  shift_right b rhs = do
    amount ← shift_amount rhs
    if ltb amount (api.width b)
        then ok_of (a.checked_lshr amount b)
        else ok (some (a.zero_of (api.width b)))

  unfoldable pub shift_right_signed : api.Bitvector → api.Bitvector → Outcome (Option api.Bitvector)
  shift_right_signed b rhs = do
    amount ← shift_amount rhs
    if ltb amount (api.width b)
        then ok_of (a.checked_ashr amount b)
        else if a.sign_bit b
        then ok_of (a.checked_sub (a.zero_of (api.width b)) (a.one_of (api.width b)))
        else ok (some (a.zero_of (api.width b)))

  abbrev equality : Bool → api.Bitvector → api.Bitvector → Outcome (Option api.Bitvector)
  equality expected b rhs =
      assert (api.width b == api.width rhs)
      >> flag (if a.equal b rhs then expected else not expected)

  unfoldable pub bin_op_bitvector :
      api.Bitvector → BinOpType → api.Bitvector → Outcome (Option api.Bitvector)
  unfolding piece_bitvectors carry signed_carry signed_borrow shift_left shift_right
      shift_right_signed
  bin_op_bitvector b op rhs = elim op [
    | piece ↦ piece_bitvectors b rhs
    | int_add ↦ ok_of (a.checked_add b rhs)
    | int_sub ↦ ok_of (a.checked_sub b rhs)
    | int_carry ↦ carry b rhs
    | int_s_carry ↦ signed_carry b rhs
    | int_s_borrow ↦ signed_borrow b rhs
    | int_mult ↦ up_to_8_bytes b (ok_of (a.checked_mul b rhs))
    | int_div ↦ up_to_8_bytes b (ok (a.checked_udiv b rhs))
    | int_s_div ↦ up_to_8_bytes b (ok (a.checked_sdiv b rhs))
    | int_rem ↦ up_to_8_bytes b (ok (a.checked_urem b rhs))
    | int_s_rem ↦ up_to_8_bytes b (ok (a.checked_srem b rhs))
    | int_left ↦ shift_left b rhs
    | int_right ↦ shift_right b rhs
    | int_s_right ↦ shift_right_signed b rhs
    | int_and ↦ ok_of (a.checked_bitand b rhs)
    | bool_and ↦ ok_of (a.checked_bitand b rhs)
    | int_or ↦ ok_of (a.checked_bitor b rhs)
    | bool_or ↦ ok_of (a.checked_bitor b rhs)
    | int_x_or ↦ ok_of (a.checked_bitxor b rhs)
    | bool_x_or ↦ ok_of (a.checked_bitxor b rhs)
    | int_equal ↦ equality true b rhs
    | int_not_equal ↦ equality false b rhs
    | int_less ↦ ok_flag (a.checked_ult b rhs)
    | int_less_equal ↦ ok_flag (a.checked_ule b rhs)
    | int_s_less ↦ ok_flag (a.checked_slt b rhs)
    | int_s_less_equal ↦ ok_flag (a.checked_sle b rhs)
    | _ ↦ ok none
  ]

  abbrev checked_sge : api.Bitvector → api.Bitvector → Option Bool
  checked_sge b c = a.checked_sle c b

  -- `none` when the sum or difference overflows as signed integers.
  unfoldable pub signed_add_overflow_checked :
      api.Bitvector → api.Bitvector → Outcome (Option api.Bitvector)
  signed_add_overflow_checked b rhs = do
    result ← unwrap (a.checked_add b rhs)
    grows ← unwrap (a.checked_sle b result)
    let overflows = if a.sign_bit rhs then grows else not grows
    ok (if overflows then none else some result)

  unfoldable pub signed_sub_overflow_checked :
      api.Bitvector → api.Bitvector → Outcome (Option api.Bitvector)
  signed_sub_overflow_checked b rhs = do
    result ← unwrap (a.checked_sub b rhs)
    shrinks ← unwrap (checked_sge b result)
    let overflows = if a.sign_bit rhs then shrinks else not shrinks
    ok (if overflows then none else some result)

  unfoldable pub signed_mult_with_overflow_flag :
      api.Bitvector → api.Bitvector → Outcome (Option (api.Bitvector × Bool))
  signed_mult_with_overflow_flag b rhs =
      if a.is_zero b
      then ok (some (a.zero_of (api.width b), false))
      else if ltb 64 (api.width b)
      then ok none
      else do
        result ← unwrap (a.checked_mul b rhs)
        quotient ← unwrap (a.checked_sdiv result b)
        ok (some (result, not (a.equal quotient rhs)))
