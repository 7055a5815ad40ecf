-- ===== src/IntermediateRepresentation/Expression/Simplify/Typed.antt =====
-- Expressions whose operands have the sizes and the values that P-Code asks for, in a state of the
-- registers, and the size and the bound of their values.
use fkie_cad_cwe_checker.Prelude.Powers.{modulus_pos, piece-lt, modulus_le, modulus_add, modulus}
use fkie_cad_cwe_checker.Prelude.{
  ℕ, ◌+◌, ◌*◌, ◌^◌, ◌<◌, ◌≤◌, ◌≡◌, false, true, sym, arith, Bool, ◌%◌, ◌/◌, ◌==◌, ◌-◌,
  if◌then◌else◌,
}
use fkie_cad_cwe_checker.Apint.{ApInt, byte_size_from}
use fkie_cad_cwe_checker.IntermediateRepresentation.Variable.{Variable}
use fkie_cad_cwe_checker.IntermediateRepresentation.Expression.{
  BinOpType, UnOpType, CastOpType, Expression, bytesize, bin_op_size, un_op_size,
}
use fkie_cad_cwe_checker.IntermediateRepresentation.Expression.Expression.{
  var, const, bin_op, un_op, cast, unknown, subpiece,
}
use fkie_cad_cwe_checker.IntermediateRepresentation.Expression.BinOpType.{
  int_equal, int_not_equal, int_less, int_s_less, int_less_equal, int_s_less_equal, int_add,
  int_sub, int_carry, int_s_carry, int_s_borrow, int_x_or, int_and, int_or, int_left, int_right,
  bool_x_or, bool_and, bool_or, piece,
}
use fkie_cad_cwe_checker.IntermediateRepresentation.Expression.UnOpType.{
  int_negate, int2_comp, bool_negate,
}
use fkie_cad_cwe_checker.IntermediateRepresentation.Expression.CastOpType.{int_z_ext, int_s_ext}
use fkie_cad_cwe_checker.IntermediateRepresentation.Expression.Semantics.{evaluate}
use fkie_cad_cwe_checker.IntermediateRepresentation.Expression.Pcode.{
  Word, Others, pcode, subpiece_word, minus, plus, truth, cast_word, unary_word, binary_word, word,
}
use Prim.Native.Nat.{bit_and, bit_or, bit_xor}
use fkie_cad_cwe_checker.Apint.Arithmetic.{extend_sign-lt}
use native.Mathlib.Nat.{mod-lt, div-le_self}
use fkie_cad_cwe_checker.Prelude.Bits.{bit_and-lt, bit_or-lt, bit_xor-lt}
use mathlib.Core.Path.{◌∙◌, ap, sym, ap₂, subst, refl}

abbrev pub Fits : Word → Type 0
Fits x = x.bits < modulus x.size

abbrev pub IsBoolean : Word → Type 0
IsBoolean x = (x.size ≡ 1) × (x.bits ≤ 1)

abbrev pub SameSize : Word → Word → Type 0
SameSize x y = x.size ≡ y.size

-- What an operation asks of its operands.
unfoldable pub Operands : BinOpType → Word → Word → Type 0
Operands op x y = elim op [
  | int_equal ↦ SameSize x y
  | int_not_equal ↦ SameSize x y
  | int_less ↦ SameSize x y
  | int_s_less ↦ SameSize x y
  | int_less_equal ↦ SameSize x y
  | int_s_less_equal ↦ SameSize x y
  | int_add ↦ SameSize x y
  | int_sub ↦ SameSize x y
  | int_carry ↦ SameSize x y
  | int_s_carry ↦ SameSize x y
  | int_s_borrow ↦ SameSize x y
  | int_x_or ↦ SameSize x y
  | int_and ↦ SameSize x y
  | int_or ↦ SameSize x y
  | int_left ↦ y.bits < 2 ^ 64
  | int_right ↦ y.bits < 2 ^ 64
  | bool_x_or ↦ IsBoolean x × IsBoolean y
  | bool_and ↦ IsBoolean x × IsBoolean y
  | bool_or ↦ IsBoolean x × IsBoolean y
  | _ ↦ Unit {0}
]

unfoldable pub Operand : UnOpType → Word → Type 0
Operand op x = elim op [ bool_negate ↦ IsBoolean x | _ ↦ Unit {0} ]

unfoldable pub Extends : CastOpType → ℕ → Word → Type 0
Extends op size x = elim op [ int_z_ext ↦ x.size ≤ size | int_s_ext ↦ x.size ≤ size | _ ↦ Unit {0} ]

binary_word-size :
    (others : Others) (op : BinOpType) (x y : Word)
    → (binary_word others op x y).size ≡ bin_op_size op x.size y.size
unfolding binary_word bin_op_size
binary_word-size others op x y = ground arith

unary_word-size :
    (others : Others) (op : UnOpType) (x : Word)
    → (unary_word others op x).size ≡ un_op_size op x.size
unfolding unary_word un_op_size
unary_word-size others op x = ground arith

cast_word-size :
    (others : Others) (op : CastOpType) (n : ℕ) (x : Word) → (cast_word others op n x).size ≡ n
unfolding cast_word
cast_word-size others op n x = ground arith

bits-Fits : (n b : ℕ) → b < modulus n → Fits (word n b)
bits-Fits n b h = h

reduced-Fits : (n b : ℕ) → Fits (word n (b % modulus n))
reduced-Fits n b = mod-lt b (modulus_pos n)

truth-Fits : (b : Bool) → Fits (truth b)
unfolding modulus
truth-Fits b = ground arith

-- An operation on the digits stays within the size of its operands, and keeps Booleans.
digits-Fits :
    (f : ℕ → ℕ → ℕ)
    → ((w a b : ℕ) → a < 2 ^ w → b < 2 ^ w → f a b < 2 ^ w)
    → (x y : Word) → Fits x
    → Fits y
    → SameSize x y
    → Fits (word x.size (f x.bits y.bits))
unfolding modulus
digits-Fits f bound x y h k e =
    bound (8 * x.size) x.bits y.bits h (subst (λ n. y.bits < 2 ^ (8 * n)) (sym e) k)

pub digits-IsBoolean :
    (f : ℕ → ℕ → ℕ)
    → ((w a b : ℕ) → a < 2 ^ w → b < 2 ^ w → f a b < 2 ^ w)
    → (x y : Word) → IsBoolean x
    → IsBoolean y
    → IsBoolean (word 1 (f x.bits y.bits))
digits-IsBoolean f bound x y h k =
    (refl, omega (arith, bound 1 x.bits y.bits (omega (arith, h.1)) (omega (arith, k.1))))

pub IsBoolean-Fits : (x : Word) → IsBoolean x → Fits x
unfolding modulus
IsBoolean-Fits x h = subst (λ n. x.bits < 2 ^ (8 * n)) (sym h.0) (omega (arith, h.1))

piece-Fits :
    (x y : Word)
    → Fits x
    → Fits y
    → Fits (word (x.size + y.size) (x.bits * modulus y.size + y.bits))
piece-Fits x y h k =
    omega (
      arith,
      modulus_add x.size y.size,
      piece-lt x.bits y.bits (modulus y.size) (modulus x.size) h k,
    )

shifted-Fits : (x : Word) (k : ℕ) → Fits x → Fits (word x.size (x.bits / 2 ^ k))
shifted-Fits x k h = omega (arith, div-le_self x.bits (2 ^ k))

boolean_digits-Fits :
    (f : ℕ → ℕ → ℕ)
    → ((w a b : ℕ) → a < 2 ^ w → b < 2 ^ w → f a b < 2 ^ w)
    → (x y : Word) → IsBoolean x × IsBoolean y
    → Fits (word 1 (f x.bits y.bits))
boolean_digits-Fits f bound x y t =
    IsBoolean-Fits (word 1 (f x.bits y.bits)) (digits-IsBoolean f bound x y t.0 t.1)

binary_word-Fits :
    (others : Others) (op : BinOpType) (x y : Word)
    → Fits x
    → Fits y
    → Operands op x y
    → Fits (binary_word others op x y)
unfolding binary_word Operands plus minus
binary_word-Fits others piece x y h k t = piece-Fits x y h k
binary_word-Fits others int_and x y h k t = digits-Fits bit_and bit_and-lt x y h k t
binary_word-Fits others int_or x y h k t = digits-Fits bit_or bit_or-lt x y h k t
binary_word-Fits others int_x_or x y h k t = digits-Fits bit_xor bit_xor-lt x y h k t
binary_word-Fits others bool_and x y h k t = boolean_digits-Fits bit_and bit_and-lt x y t
binary_word-Fits others bool_or x y h k t = boolean_digits-Fits bit_or bit_or-lt x y t
binary_word-Fits others bool_x_or x y h k t = boolean_digits-Fits bit_xor bit_xor-lt x y t
binary_word-Fits others int_right x y h k t = shifted-Fits x y.bits h
binary_word-Fits others op x y h k t = ground (
  arith,
  truth-Fits true,
  truth-Fits false,
  reduced-Fits x.size (x.bits + y.bits),
  reduced-Fits x.size (x.bits + (modulus x.size - y.bits)),
  reduced-Fits x.size (x.bits * 2 ^ y.bits),
  reduced-Fits (bin_op_size op x.size y.size) (others.binary_bits op x y),
)

unary_word-Fits :
    (others : Others) (op : UnOpType) (x : Word)
    → Fits x
    → Operand op x
    → Fits (unary_word others op x)
unfolding unary_word Operand
unary_word-Fits others int_negate x h t = omega (arith, modulus_pos x.size)
unary_word-Fits others int2_comp x h t = reduced-Fits x.size (modulus x.size - x.bits)
unary_word-Fits others bool_negate x h t =
    IsBoolean-Fits (word x.size (if x.bits == 0 then 1 else 0)) (t.0, ground arith)
unary_word-Fits others op x h t =
    ground (arith, reduced-Fits (un_op_size op x.size) (others.unary_bits op x))

cast_word-Fits :
    (others : Others) (op : CastOpType) (n : ℕ) (x : Word)
    → Fits x
    → Extends op n x
    → Fits (cast_word others op n x)
unfolding cast_word Extends
cast_word-Fits others int_z_ext n x h t = omega (arith, modulus_le x.size n t)
cast_word-Fits others int_s_ext n x h t =
    extend_sign-lt (modulus x.size) (modulus n) x.bits h (modulus_le x.size n t)
cast_word-Fits others op n x h t = ground (arith, reduced-Fits n (others.cast_bits op n x))

bin_op_size-pos : (op : BinOpType) (n m : ℕ) → 0 < n → 0 < bin_op_size op n m
unfolding bin_op_size
bin_op_size-pos op n m h = ground arith

un_op_size-pos : (op : UnOpType) (n : ℕ) → 0 < n → 0 < un_op_size op n
unfolding un_op_size
un_op_size-pos op n h = ground arith

module _ (api : ApInt) (value : api.Bitvector → ℕ) (others : Others) (s : Variable → Word) where
  abbrev pub value_of : Expression api.Bitvector → Word
  value_of e = evaluate (pcode others api value) s e

  -- Sizes are positive, and constants consist of whole bytes.
  unfoldable pub IsTyped : Expression api.Bitvector → Type 0
  unfolding Operands Operand Extends
  IsTyped (var v) = ((s v).size ≡ v.size) × Fits (s v) × (0 < v.size)
  IsTyped (const c) = (api.width c ≡ 8 * byte_size_from (api.width c)) × (0 < api.width c)
  IsTyped (bin_op op lhs rhs) =
      IsTyped lhs × IsTyped rhs × Operands op (value_of lhs) (value_of rhs)
  IsTyped (un_op op arg) = IsTyped arg × Operand op (value_of arg)
  IsTyped (cast op size arg) = IsTyped arg × Extends op size (value_of arg) × (0 < size)
  IsTyped (unknown description size) = 0 < size
  IsTyped (subpiece low_byte size arg) =
      IsTyped arg × (low_byte + size ≤ (value_of arg).size) × (0 < size)

  pub value_of-Fits :
      ((c : api.Bitvector) → value c < 2 ^ api.width c)
      → (e : Expression api.Bitvector) → IsTyped e
      → Fits (value_of e)
  unfolding IsTyped evaluate modulus subpiece_word
  value_of-Fits bound (var v) h = h.1
  value_of-Fits bound (const c) h = subst (λ w. value c < 2 ^ w) h.0 (bound c)
  value_of-Fits bound (bin_op op lhs rhs) h =
      binary_word-Fits others op (value_of lhs) (value_of rhs) (value_of-Fits bound lhs h.0)
        (value_of-Fits bound rhs h.1) h.2
  value_of-Fits bound (un_op op arg) h =
      unary_word-Fits others op (value_of arg) (value_of-Fits bound arg h.0) h.1
  value_of-Fits bound (cast op size arg) h =
      cast_word-Fits others op size (value_of arg) (value_of-Fits bound arg h.0) h.1
  value_of-Fits bound (unknown description size) h = reduced-Fits size _
  value_of-Fits bound (subpiece low_byte size arg) h = reduced-Fits size _

  pub value_of-size :
      (e : Expression api.Bitvector) → IsTyped e → (value_of e).size ≡ bytesize api e
  unfolding IsTyped evaluate bytesize subpiece_word
  value_of-size (var v) h = h.0
  value_of-size (const c) h = refl
  value_of-size (bin_op op lhs rhs) h =
      binary_word-size others op (value_of lhs) (value_of rhs)
      ∙ ap₂ (bin_op_size op) (value_of-size lhs h.0) (value_of-size rhs h.1)
  value_of-size (un_op op arg) h =
      unary_word-size others op (value_of arg) ∙ ap (un_op_size op) (value_of-size arg h.0)
  value_of-size (cast op size arg) h = cast_word-size others op size (value_of arg)
  value_of-size (unknown description size) h = refl
  value_of-size (subpiece low_byte size arg) h = refl

  pub value_of-pos : (e : Expression api.Bitvector) → IsTyped e → 0 < (value_of e).size
  unfolding IsTyped evaluate subpiece_word
  value_of-pos (var v) h = omega (arith, h.0, h.2)
  value_of-pos (const c) h = omega (arith, h.0, h.1)
  value_of-pos (bin_op op lhs rhs) h =
      subst (λ n. 0 < n) (sym (binary_word-size others op (value_of lhs) (value_of rhs)))
        (bin_op_size-pos op (value_of lhs).size (value_of rhs).size (value_of-pos lhs h.0))
  value_of-pos (un_op op arg) h =
      subst (λ n. 0 < n) (sym (unary_word-size others op (value_of arg)))
        (un_op_size-pos op (value_of arg).size (value_of-pos arg h.0))
  value_of-pos (cast op size arg) h =
      subst (λ n. 0 < n) (sym (cast_word-size others op size (value_of arg))) h.2
  value_of-pos (unknown description size) h = h
  value_of-pos (subpiece low_byte size arg) h = h.2
