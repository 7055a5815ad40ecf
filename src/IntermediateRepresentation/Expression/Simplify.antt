-- ===== src/IntermediateRepresentation/Expression/Simplify.antt =====
-- src/cwe_checker_lib/src/intermediate_representation/expression/trivial_operation_substitution.rs:
-- rewriting an expression to a simpler one. An or-pattern whose alternatives swap the operands is
-- tried for the one order and then for the other, and the arms of a `match` are tried in turn.
pub mod Same
pub mod Typed
pub mod WordLaws
pub mod Comparisons
pub mod Pieces
pub mod Keeps
pub mod Folding
pub mod Shapes
pub mod EqualOperands
pub mod Constants
pub mod Joins
pub mod Differences
pub mod Borrows
pub mod Regroups
pub mod Casts
pub mod Correct
mod Tests
use fkie_cad_cwe_checker.Prelude.{
  ℕ, ◌+◌, Bool, true, false, not, ◌&&◌, ◌||◌, ◌==◌, Option, some, none, List, [], ◌∷◌,
  if◌then◌else◌,
}
use fkie_cad_cwe_checker.Prelude.Outcome.{Outcome, ok, panic, ◌>>=◌, unwrap}
use fkie_cad_cwe_checker.Apint.{ApInt, byte_size_from}
use fkie_cad_cwe_checker.Apint.Arithmetic.{Arithmetic}
use fkie_cad_cwe_checker.IntermediateRepresentation.Bitvector.{as_bit_length, bin_op_bitvector}
use fkie_cad_cwe_checker.IntermediateRepresentation.Expression.{
  BinOpType, UnOpType, CastOpType, Expression, bytesize,
}
use fkie_cad_cwe_checker.IntermediateRepresentation.Expression.Expression.{
  var, const, bin_op, un_op, cast, unknown, subpiece,
}
use fkie_cad_cwe_checker.IntermediateRepresentation.Expression.BinOpType.{
  piece, int_equal, int_not_equal, int_less, int_s_less, int_less_equal, int_s_less_equal, int_add,
  int_sub, int_s_borrow, int_x_or, int_and, int_or, int_left, int_right, bool_x_or, bool_and,
  bool_or,
}
use fkie_cad_cwe_checker.IntermediateRepresentation.Expression.UnOpType.{
  int_negate, int2_comp, bool_negate,
}
use fkie_cad_cwe_checker.IntermediateRepresentation.Expression.CastOpType.{int_z_ext, int_s_ext}
use fkie_cad_cwe_checker.IntermediateRepresentation.Expression.Simplify.Same.{
  same_bin_op, same_un_op, same_cast_op, same_expression,
}

abbrev pub or_else : {A : Type 0} → Option A → Option A → Option A
or_else (some x) other = some x
or_else none other = other

abbrev pub unwrap_or : {A : Type 0} → Option A → A → A
unwrap_or (some x) default = x
unwrap_or none default = default

abbrev pub either_order : {A B : Type 0} → (A → A → Option B) → A → A → Option B
either_order arm lhs rhs = or_else (arm lhs rhs) (arm rhs lhs)

-- The comparison that holds of the swapped operands when this one does not.
unfoldable pub negated : BinOpType → Option BinOpType
negated inner_op = elim inner_op [
  | int_equal ↦ some int_not_equal
  | int_not_equal ↦ some int_equal
  | int_less ↦ some int_less_equal
  | int_s_less ↦ some int_s_less_equal
  | int_less_equal ↦ some int_less
  | int_s_less_equal ↦ some int_s_less
  | _ ↦ none
]

abbrev pub absorbs_zero : BinOpType → Bool
absorbs_zero op = elim op [
  | int_or ↦ true
  | int_x_or ↦ true
  | bool_or ↦ true
  | bool_x_or ↦ true
  | _ ↦ false
]

abbrev pub absorbs_ones : BinOpType → Bool
absorbs_ones op = elim op [ int_and ↦ true | bool_and ↦ true | _ ↦ false ]

abbrev pub folds : BinOpType → Bool
folds op = elim op [
  | int_sub ↦ true
  | int_add ↦ true
  | int_right ↦ true
  | int_left ↦ true
  | _ ↦ false
]

abbrev pub extends : CastOpType → Bool
extends op = elim op [ int_s_ext ↦ true | int_z_ext ↦ true | _ ↦ false ]

abbrev pub is_involution : UnOpType → Bool
is_involution op = elim op [ int_negate ↦ true | bool_negate ↦ true | int2_comp ↦ true | _ ↦ false ]

module _ (api : ApInt) (a : Arithmetic api) where
  abbrev Expr : Type 0
  Expr = Expression api.Bitvector

  abbrev same : Expr → Expr → Bool
  same = same_expression api a

  unfoldable pub equal_operands : BinOpType → Expr → Option Expr
  equal_operands op lhs = elim op [
    | bool_and ↦ some lhs
    | bool_or ↦ some lhs
    | int_and ↦ some lhs
    | int_or ↦ some lhs
    | bool_x_or ↦ some (const (a.zero_of (as_bit_length (bytesize api lhs))))
    | int_x_or ↦ some (const (a.zero_of (as_bit_length (bytesize api lhs))))
    | int_equal ↦ some (const (a.one_of (as_bit_length 1)))
    | int_less_equal ↦ some (const (a.one_of (as_bit_length 1)))
    | int_s_less_equal ↦ some (const (a.one_of (as_bit_length 1)))
    | int_not_equal ↦ some (const (a.zero_of (as_bit_length 1)))
    | int_less ↦ some (const (a.zero_of (as_bit_length 1)))
    | int_s_less ↦ some (const (a.zero_of (as_bit_length 1)))
    | _ ↦ none
  ]

  unfoldable pub substitute_binop_for_lhs_equal_rhs : Expr → Expr
  unfolding equal_operands
  substitute_binop_for_lhs_equal_rhs (bin_op op lhs rhs) =
      if same lhs rhs
      then unwrap_or (equal_operands op lhs) (bin_op op lhs rhs)
      else bin_op op lhs rhs
  substitute_binop_for_lhs_equal_rhs e = e

  -- An arm for a constant as the one operand.
  abbrev Arm : Type 0
  Arm = api.Bitvector → Expr → Option Expr

  unfoldable pub constant_first : Arm → Expr → Expr → Option Expr
  constant_first arm (const bitvec) other = arm bitvec other
  constant_first arm _ other = none

  unfoldable pub with_constant : Arm → Expr → Expr → Option Expr
  unfolding constant_first
  with_constant arm lhs rhs = either_order (constant_first arm) lhs rhs

  abbrev on : Bool → Expr → Option Expr
  on guard e = if guard then some e else none

  unfoldable pub or_zero : BinOpType → Arm
  or_zero op bitvec other = on (a.is_zero bitvec && absorbs_zero op) other

  unfoldable pub and_ones : BinOpType → Arm
  and_ones op bitvec other = on (a.is_zero (a.into_bitnot bitvec) && absorbs_ones op) other

  unfoldable pub bool_with_constant : BinOpType → List Arm
  bool_with_constant op = elim op [
    | bool_and ↦
        (λ bitvec other. on (a.is_zero bitvec) (const bitvec))
        ∷ (λ bitvec other. on (a.is_one bitvec) other)
        ∷ []
    | bool_or ↦ (λ bitvec other. on (a.is_one bitvec) (const bitvec)) ∷ []
    | bool_x_or ↦ (λ bitvec other. on (a.is_one bitvec) (un_op bool_negate other)) ∷ []
    | _ ↦ []
  ]

  unfoldable pub first_arm : List Arm → Expr → Expr → Option Expr
  unfolding with_constant
  first_arm [] lhs rhs = none
  first_arm (arm ∷ arms) lhs rhs = or_else (with_constant arm lhs rhs) (first_arm arms lhs rhs)

  unfoldable pub substitute_and_xor_or_with_constant : Expr → Expr
  unfolding first_arm or_zero and_ones bool_with_constant
  substitute_and_xor_or_with_constant (bin_op op lhs rhs) =
      unwrap_or (first_arm (or_zero op ∷ and_ones op ∷ bool_with_constant op) lhs rhs)
        (bin_op op lhs rhs)
  substitute_and_xor_or_with_constant e = e

  -- `0 == x - y` becomes `x == y`: the comparison `op` with the constant, with its negation `opposite`.
  unfoldable pub difference_with_constant : BinOpType → BinOpType → Arm
  difference_with_constant op opposite bitvec (bin_op inner_op inner_lhs inner_rhs) =
      on (same_bin_op inner_op int_sub && (a.is_zero bitvec || a.is_one bitvec))
        (bin_op (if a.is_zero bitvec then op else opposite) inner_lhs inner_rhs)
  difference_with_constant op opposite bitvec _ = none

  -- `x < y or x == y` becomes `x <= y`: the comparison `outer` with the operands of the first one.
  unfoldable pub joined : BinOpType → BinOpType → BinOpType → Expr → Expr → Option Expr
  joined first second outer (bin_op op left right) (bin_op op' left' right') =
      on
        (same_bin_op op first
          && same_bin_op op' second
          && ((same left left' && same right right') || (same left right' && same right left')))
        (bin_op outer left right)
  joined first second outer _ _ = none

  unfoldable pub equivalent_comparison : BinOpType → Expr → Expr → Option Expr
  unfolding with_constant difference_with_constant joined
  equivalent_comparison op lhs rhs = elim op [
    | int_equal ↦ with_constant (difference_with_constant int_equal int_not_equal) lhs rhs
    | int_not_equal ↦ with_constant (difference_with_constant int_not_equal int_equal) lhs rhs
    | bool_or ↦
        or_else (either_order (joined int_s_less int_equal int_s_less_equal) lhs rhs)
          (either_order (joined int_less int_equal int_less_equal) lhs rhs)
    | bool_and ↦
        or_else (either_order (joined int_less_equal int_not_equal int_less) lhs rhs)
          (either_order (joined int_s_less_equal int_not_equal int_s_less) lhs rhs)
    | _ ↦ none
  ]

  unfoldable pub substitute_equivalent_comparison_ops : Expr → Expr
  unfolding equivalent_comparison
  substitute_equivalent_comparison_ops (bin_op op lhs rhs) =
      unwrap_or (equivalent_comparison op lhs rhs) (bin_op op lhs rhs)
  substitute_equivalent_comparison_ops e = e

  -- The operands of `(a - b) < 0`.
  unfoldable pub unpack_a_minus_b_less_than_zero : Expr → Option (Expr × Expr)
  unpack_a_minus_b_less_than_zero (bin_op op (bin_op inner_op lhs rhs) (const constant)) =
      if same_bin_op op int_s_less && (a.is_zero constant && same_bin_op inner_op int_sub)
      then some (lhs, rhs)
      else none
  unpack_a_minus_b_less_than_zero _ = none

  -- The operands of `a IntSBorrow b`.
  unfoldable pub unpack_a_intsborrow_b : Expr → Option (Expr × Expr)
  unpack_a_intsborrow_b (bin_op op lhs rhs) =
      if same_bin_op op int_s_borrow then some (lhs, rhs) else none
  unpack_a_intsborrow_b _ = none

  abbrev pub same_pair : Option (Expr × Expr) → Option (Expr × Expr) → Option (Expr × Expr)
  same_pair (some (a_left, b_left)) (some (a_right, b_right)) =
      if same a_left a_right && same b_left b_right then some (a_left, b_left) else none
  same_pair _ _ = none

  unfoldable pub sign_and_borrow : Expr → Expr → Option (Expr × Expr)
  unfolding unpack_a_minus_b_less_than_zero unpack_a_intsborrow_b
  sign_and_borrow lhs rhs = elim (unpack_a_minus_b_less_than_zero lhs) [
    | some pair ↦ same_pair (some pair) (unpack_a_intsborrow_b rhs)
    | none ↦ same_pair (unpack_a_intsborrow_b lhs) (unpack_a_minus_b_less_than_zero rhs)
  ]

  abbrev pub less_than : BinOpType → Option (Expr × Expr) → Option Expr
  less_than op none = none
  less_than op (some (expr_a, expr_b)) = elim op [
    | int_not_equal ↦ some (bin_op int_s_less expr_a expr_b)
    | int_equal ↦ some (bin_op int_s_less_equal expr_b expr_a)
    | _ ↦ none
  ]

  unfoldable pub substitute_complicated_a_less_than_b : Expr → Expr
  unfolding sign_and_borrow
  substitute_complicated_a_less_than_b (bin_op op lhs rhs) =
      unwrap_or (less_than op (sign_and_borrow lhs rhs)) (bin_op op lhs rhs)
  substitute_complicated_a_less_than_b e = e

  -- `bin_op(..).unwrap()`
  abbrev pub computed : api.Bitvector → BinOpType → api.Bitvector → Outcome Expr
  unfolding bin_op_bitvector
  computed left op right = do
    result ← bin_op_bitvector api a left op right
    b ← unwrap result
    ok (const b)

  -- `(left op middle) op const_right` for `op` the addition or the subtraction.
  unfoldable pub fold_constants : BinOpType → Expr → Expr → api.Bitvector → Outcome Expr
  unfolding computed
  fold_constants op left (const const_middle) const_right = do
    sum ← computed const_middle int_add const_right
    ok (bin_op op left sum)
  fold_constants op (const const_left) middle const_right =
      if same_bin_op op int_add
      then (do sum ← computed const_left int_add const_right; ok (bin_op op middle sum))
      else ok (bin_op op (bin_op op (const const_left) middle) (const const_right))
  fold_constants op left middle const_right =
      ok (bin_op op (bin_op op left middle) (const const_right))

  unfoldable pub substitute_arithmetics_with_constants : Expr → Outcome Expr
  unfolding computed fold_constants
  substitute_arithmetics_with_constants (bin_op op (const left) (const right)) =
      if folds op then computed left op right else ok (bin_op op (const left) (const right))
  substitute_arithmetics_with_constants (bin_op op (bin_op inner_op left middle) (const right)) =
      if (same_bin_op op int_sub || same_bin_op op int_add) && same_bin_op inner_op op
      then fold_constants op left middle right
      else ok (bin_op op (bin_op inner_op left middle) (const right))
  substitute_arithmetics_with_constants e = ok e

  unfoldable pub substitute_trivial_binops : Expr → Outcome Expr
  unfolding substitute_binop_for_lhs_equal_rhs substitute_and_xor_or_with_constant
      substitute_equivalent_comparison_ops substitute_complicated_a_less_than_b
      substitute_arithmetics_with_constants
  substitute_trivial_binops e = substitute_arithmetics_with_constants (
      substitute_complicated_a_less_than_b (
        substitute_equivalent_comparison_ops
          (substitute_and_xor_or_with_constant (substitute_binop_for_lhs_equal_rhs e))))

  -- The case of a subpiece that does not take its whole argument.
  unfoldable pub subpiece_of : ℕ → ℕ → Expr → Expr
  subpiece_of low_byte size (cast op cast_size inner_arg) =
      if (same_cast_op op int_z_ext || same_cast_op op int_s_ext)
        && (low_byte == 0 && size == bytesize api inner_arg)
      then inner_arg
      else subpiece low_byte size (cast op cast_size inner_arg)
  subpiece_of low_byte size (bin_op op lhs rhs) =
      if not (same_bin_op op piece)
      then subpiece low_byte size (bin_op op lhs rhs)
      else if low_byte == bytesize api rhs && size == bytesize api lhs
      then lhs
      else if low_byte == 0 && size == bytesize api rhs
      then rhs
      else subpiece low_byte size (bin_op op lhs rhs)
  subpiece_of low_byte size (subpiece inner_low_byte inner_size inner_arg) =
      subpiece (low_byte + inner_low_byte) size inner_arg
  subpiece_of low_byte size arg = subpiece low_byte size arg

  unfoldable pub substitute_subpiece : ℕ → ℕ → Expr → Expr
  unfolding subpiece_of
  substitute_subpiece low_byte size arg =
      if low_byte == 0 && size == bytesize api arg then arg else subpiece_of low_byte size arg

  unfoldable pub cast_of : CastOpType → ℕ → Expr → Expr
  cast_of op size (cast inner_op inner_size inner_arg) =
      if same_cast_op op inner_op
      then cast op size inner_arg
      else cast op size (cast inner_op inner_size inner_arg)
  cast_of op size arg = cast op size arg

  unfoldable pub substitute_cast : CastOpType → ℕ → Expr → Expr
  unfolding cast_of
  substitute_cast op size arg =
      if extends op && size == bytesize api arg
      then arg
      else if extends op
      then cast_of op size arg
      else cast op size arg

  unfoldable pub substitute_un_op : UnOpType → Expr → Expr
  unfolding negated
  substitute_un_op op (un_op inner_op inner_arg) =
      if same_un_op op inner_op && is_involution op
      then inner_arg
      else un_op op (un_op inner_op inner_arg)
  substitute_un_op op (bin_op inner_op inner_lhs inner_rhs) =
      if same_un_op op bool_negate
      then unwrap_or
          (elim (negated inner_op) [
            | some new_op ↦ some (bin_op new_op inner_rhs inner_lhs)
            | none ↦ none
          ])
          (un_op op (bin_op inner_op inner_lhs inner_rhs))
      else un_op op (bin_op inner_op inner_lhs inner_rhs)
  substitute_un_op op arg = un_op op arg

  unfoldable pub substitute_trivial_operations : Expr → Outcome Expr
  unfolding substitute_subpiece substitute_cast substitute_un_op substitute_trivial_binops
  substitute_trivial_operations (var v) = ok (var v)
  substitute_trivial_operations (const c) = ok (const c)
  substitute_trivial_operations (unknown description size) = ok (unknown description size)
  substitute_trivial_operations (subpiece low_byte size arg) = do
    substituted ← substitute_trivial_operations arg
    ok (substitute_subpiece low_byte size substituted)
  substitute_trivial_operations (cast op size arg) = do
    substituted ← substitute_trivial_operations arg
    ok (substitute_cast op size substituted)
  substitute_trivial_operations (un_op op arg) = do
    substituted ← substitute_trivial_operations arg
    ok (substitute_un_op op substituted)
  substitute_trivial_operations (bin_op op lhs rhs) = do
    lhs' ← substitute_trivial_operations lhs
    rhs' ← substitute_trivial_operations rhs
    substitute_trivial_binops (bin_op op lhs' rhs')
