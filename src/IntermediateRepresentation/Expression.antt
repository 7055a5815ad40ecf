-- ===== src/IntermediateRepresentation/Expression.antt =====
-- src/cwe_checker_lib/src/intermediate_representation/expression.rs: expressions, over the type of
-- bitvectors of the crate apint.
pub mod Semantics
pub mod Pcode
pub mod Simplify
use fkie_cad_cwe_checker.Prelude.{ℕ, ◌+◌, Option, none, some, List, [], ◌∷◌, ◌++◌, if◌then◌else◌}
use fkie_cad_cwe_checker.Prelude.Key.{◌=?◌}
use Prim.Native.Nat.{max}
use fkie_cad_cwe_checker.Apint.{ApInt, byte_size_from}
use fkie_cad_cwe_checker.IntermediateRepresentation.Variable.{Variable, variable_ord}

pub data BinOpType : Type 0 where
  piece : BinOpType
  int_equal int_not_equal int_less int_s_less int_less_equal int_s_less_equal : BinOpType
  int_add int_sub int_carry int_s_carry int_s_borrow : BinOpType
  int_x_or int_and int_or int_left int_right int_s_right : BinOpType
  int_mult int_div int_rem int_s_div int_s_rem : BinOpType
  bool_x_or bool_and bool_or : BinOpType
  float_equal float_not_equal float_less float_less_equal : BinOpType
  float_add float_sub float_mult float_div : BinOpType

pub data CastOpType : Type 0 where
  int_z_ext int_s_ext int2_float float2_float trunc pop_count lz_count : CastOpType

pub data UnOpType : Type 0 where
  int_negate int2_comp bool_negate : UnOpType
  float_negate float_abs float_sqrt float_ceil float_floor float_round float_na_n : UnOpType

pub data Expression (Bitvector : Type 0) : Type 0 where
  var : Variable → Expression Bitvector
  const : Bitvector → Expression Bitvector
  bin_op : BinOpType → Expression Bitvector → Expression Bitvector → Expression Bitvector
  un_op : UnOpType → Expression Bitvector → Expression Bitvector
  cast : CastOpType → ℕ → Expression Bitvector → Expression Bitvector
  unknown : List ℕ → ℕ → Expression Bitvector
  subpiece : ℕ → ℕ → Expression Bitvector → Expression Bitvector

-- The size of a result, from the sizes of the operands.
pub bin_op_size : BinOpType → ℕ → ℕ → ℕ
bin_op_size op lhs rhs = elim op [
  | piece ↦ lhs + rhs
  | int_equal ↦ 1
  | int_not_equal ↦ 1
  | int_less ↦ 1
  | int_s_less ↦ 1
  | int_less_equal ↦ 1
  | int_s_less_equal ↦ 1
  | int_carry ↦ 1
  | int_s_carry ↦ 1
  | int_s_borrow ↦ 1
  | bool_x_or ↦ 1
  | bool_or ↦ 1
  | bool_and ↦ 1
  | float_equal ↦ 1
  | float_not_equal ↦ 1
  | float_less ↦ 1
  | float_less_equal ↦ 1
  | _ ↦ lhs
]

pub un_op_size : UnOpType → ℕ → ℕ
un_op_size op arg = elim op [ float_na_n ↦ 1 | _ ↦ arg ]

unfoldable pub bytesize : (api : ApInt) → Expression api.Bitvector → ℕ
unfolding bin_op_size un_op_size
bytesize api (var v) = v.size
bytesize api (const c) = byte_size_from (api.width c)
bytesize api (bin_op op lhs rhs) = bin_op_size op (bytesize api lhs) (bytesize api rhs)
bytesize api (un_op op arg) = un_op_size op (bytesize api arg)
bytesize api (cast op size arg) = size
bytesize api (unknown description size) = size
bytesize api (subpiece low_byte size arg) = size

module _ {Bitvector : Type 0} where
  -- The constants of both sides, or of the one that has some.
  pub join_constants : Option (List Bitvector) → Option (List Bitvector) → Option (List Bitvector)
  join_constants none c = c
  join_constants (some c0) none = some c0
  join_constants (some c0) (some c1) = some (c0 ++ c1)

  pub referenced_constants : Expression Bitvector → Option (List Bitvector)
  unfolding join_constants
  referenced_constants (var v) = none
  referenced_constants (const c) = some (c ∷ [])
  referenced_constants (bin_op op lhs rhs) =
      join_constants (referenced_constants lhs) (referenced_constants rhs)
  referenced_constants (un_op op arg) = referenced_constants arg
  referenced_constants (cast op size arg) = referenced_constants arg
  referenced_constants (unknown description size) = none
  referenced_constants (subpiece low_byte size arg) = referenced_constants arg

  unfoldable pub input_vars : Expression Bitvector → List Variable
  input_vars (var v) = v ∷ []
  input_vars (const c) = []
  input_vars (bin_op op lhs rhs) = input_vars lhs ++ input_vars rhs
  input_vars (un_op op arg) = input_vars arg
  input_vars (cast op size arg) = input_vars arg
  input_vars (unknown description size) = []
  input_vars (subpiece low_byte size arg) = input_vars arg

  unfoldable pub substitute_input_var :
      Variable → Expression Bitvector → Expression Bitvector → Expression Bitvector
  substitute_input_var input_var replacement (var v) = if v =? input_var then replacement else var v
  substitute_input_var input_var replacement (const c) = const c
  substitute_input_var input_var replacement (bin_op op lhs rhs) =
      bin_op op (substitute_input_var input_var replacement lhs)
        (substitute_input_var input_var replacement rhs)
  substitute_input_var input_var replacement (un_op op arg) =
      un_op op (substitute_input_var input_var replacement arg)
  substitute_input_var input_var replacement (cast op size arg) =
      cast op size (substitute_input_var input_var replacement arg)
  substitute_input_var input_var replacement (unknown description size) = unknown description size
  substitute_input_var input_var replacement (subpiece low_byte size arg) =
      subpiece low_byte size (substitute_input_var input_var replacement arg)

  unfoldable pub recursion_depth : Expression Bitvector → ℕ
  recursion_depth (var v) = 0
  recursion_depth (const c) = 0
  recursion_depth (bin_op op lhs rhs) = max (recursion_depth lhs) (recursion_depth rhs) + 1
  recursion_depth (un_op op arg) = recursion_depth arg + 1
  recursion_depth (cast op size arg) = recursion_depth arg + 1
  recursion_depth (unknown description size) = 0
  recursion_depth (subpiece low_byte size arg) = recursion_depth arg + 1
