-- ===== src/IntermediateRepresentation/Expression/Simplify/Same.antt =====
-- The equality of expressions that src/cwe_checker_lib/src/intermediate_representation/expression.rs
-- derives, and that equal expressions are the same.
use fkie_cad_cwe_checker.Prelude.{
  ℕ, ◌≡◌, refl, ap, sym, ◌∙◌, Bool, true, false, ◌&&◌, ◌==◌, ==_iff, some, get_elem?, List, [], ◌∷◌,
  arith,
}
use fkie_cad_cwe_checker.Prelude.Key.{◌=?◌}
use fkie_cad_cwe_checker.Apint.{ApInt}
use fkie_cad_cwe_checker.Apint.Arithmetic.{Arithmetic}
use fkie_cad_cwe_checker.IntermediateRepresentation.Variable.{variable_ord}
use fkie_cad_cwe_checker.IntermediateRepresentation.Expression.{
  BinOpType, UnOpType, CastOpType, Expression,
}
use fkie_cad_cwe_checker.IntermediateRepresentation.Expression.Expression.{
  var, const, bin_op, un_op, cast, unknown, subpiece,
}
use fkie_cad_cwe_checker.IntermediateRepresentation.Expression.BinOpType.{
  piece, int_equal, int_not_equal, int_less, int_s_less, int_less_equal, int_s_less_equal, int_add,
  int_sub, int_carry, int_s_carry, int_s_borrow, int_x_or, int_and, int_or, int_left, int_right,
  int_s_right, int_mult, int_div, int_rem, int_s_div, int_s_rem, bool_x_or, bool_and, bool_or,
  float_equal, float_not_equal, float_less, float_less_equal, float_add, float_sub, float_mult,
  float_div,
}
use fkie_cad_cwe_checker.IntermediateRepresentation.Expression.UnOpType.{
  int_negate, int2_comp, bool_negate, float_negate, float_abs, float_sqrt, float_ceil, float_floor,
  float_round, float_na_n,
}
use fkie_cad_cwe_checker.IntermediateRepresentation.Expression.CastOpType.{
  int_z_ext, int_s_ext, int2_float, float2_float, trunc, pop_count, lz_count,
}

some_injective {ℓ} : {A : Type ℓ} (x y : A) → some x ≡ some y → x ≡ y
some_injective x y h = cc

-- The position of the operation in its declaration.
unfoldable pub bin_op_number : BinOpType → ℕ
bin_op_number piece = 0
bin_op_number int_equal = 1
bin_op_number int_not_equal = 2
bin_op_number int_less = 3
bin_op_number int_s_less = 4
bin_op_number int_less_equal = 5
bin_op_number int_s_less_equal = 6
bin_op_number int_add = 7
bin_op_number int_sub = 8
bin_op_number int_carry = 9
bin_op_number int_s_carry = 10
bin_op_number int_s_borrow = 11
bin_op_number int_x_or = 12
bin_op_number int_and = 13
bin_op_number int_or = 14
bin_op_number int_left = 15
bin_op_number int_right = 16
bin_op_number int_s_right = 17
bin_op_number int_mult = 18
bin_op_number int_div = 19
bin_op_number int_rem = 20
bin_op_number int_s_div = 21
bin_op_number int_s_rem = 22
bin_op_number bool_x_or = 23
bin_op_number bool_and = 24
bin_op_number bool_or = 25
bin_op_number float_equal = 26
bin_op_number float_not_equal = 27
bin_op_number float_less = 28
bin_op_number float_less_equal = 29
bin_op_number float_add = 30
bin_op_number float_sub = 31
bin_op_number float_mult = 32
bin_op_number float_div = 33

abbrev bin_ops : List BinOpType
bin_ops =
    piece ∷ int_equal ∷ int_not_equal ∷ int_less ∷ int_s_less ∷ int_less_equal ∷ int_s_less_equal
    ∷ int_add ∷ int_sub ∷ int_carry ∷ int_s_carry ∷ int_s_borrow ∷ int_x_or ∷ int_and ∷ int_or
    ∷ int_left ∷ int_right ∷ int_s_right ∷ int_mult ∷ int_div ∷ int_rem ∷ int_s_div ∷ int_s_rem
    ∷ bool_x_or ∷ bool_and ∷ bool_or ∷ float_equal ∷ float_not_equal ∷ float_less ∷ float_less_equal
    ∷ float_add ∷ float_sub ∷ float_mult ∷ float_div ∷ []

get_elem?-bin_op_number : (op : BinOpType) → get_elem? bin_ops (bin_op_number op) ≡ some op
unfolding bin_op_number
get_elem?-bin_op_number piece = refl
get_elem?-bin_op_number int_equal = refl
get_elem?-bin_op_number int_not_equal = refl
get_elem?-bin_op_number int_less = refl
get_elem?-bin_op_number int_s_less = refl
get_elem?-bin_op_number int_less_equal = refl
get_elem?-bin_op_number int_s_less_equal = refl
get_elem?-bin_op_number int_add = refl
get_elem?-bin_op_number int_sub = refl
get_elem?-bin_op_number int_carry = refl
get_elem?-bin_op_number int_s_carry = refl
get_elem?-bin_op_number int_s_borrow = refl
get_elem?-bin_op_number int_x_or = refl
get_elem?-bin_op_number int_and = refl
get_elem?-bin_op_number int_or = refl
get_elem?-bin_op_number int_left = refl
get_elem?-bin_op_number int_right = refl
get_elem?-bin_op_number int_s_right = refl
get_elem?-bin_op_number int_mult = refl
get_elem?-bin_op_number int_div = refl
get_elem?-bin_op_number int_rem = refl
get_elem?-bin_op_number int_s_div = refl
get_elem?-bin_op_number int_s_rem = refl
get_elem?-bin_op_number bool_x_or = refl
get_elem?-bin_op_number bool_and = refl
get_elem?-bin_op_number bool_or = refl
get_elem?-bin_op_number float_equal = refl
get_elem?-bin_op_number float_not_equal = refl
get_elem?-bin_op_number float_less = refl
get_elem?-bin_op_number float_less_equal = refl
get_elem?-bin_op_number float_add = refl
get_elem?-bin_op_number float_sub = refl
get_elem?-bin_op_number float_mult = refl
get_elem?-bin_op_number float_div = refl

unfoldable pub same_bin_op : BinOpType → BinOpType → Bool
unfolding bin_op_number
same_bin_op op op' = bin_op_number op == bin_op_number op'

pub same_bin_op_sound : (op op' : BinOpType) → same_bin_op op op' ≡ true → op ≡ op'
unfolding same_bin_op
same_bin_op_sound op op' h = some_injective op op' (
    sym (get_elem?-bin_op_number op)
    ∙ ap (get_elem? bin_ops) ((==_iff _ _).0 h)
    ∙ get_elem?-bin_op_number op')

-- The position of the operation in its declaration.
unfoldable pub un_op_number : UnOpType → ℕ
un_op_number int_negate = 0
un_op_number int2_comp = 1
un_op_number bool_negate = 2
un_op_number float_negate = 3
un_op_number float_abs = 4
un_op_number float_sqrt = 5
un_op_number float_ceil = 6
un_op_number float_floor = 7
un_op_number float_round = 8
un_op_number float_na_n = 9

abbrev un_ops : List UnOpType
un_ops =
    int_negate ∷ int2_comp ∷ bool_negate ∷ float_negate ∷ float_abs ∷ float_sqrt ∷ float_ceil
    ∷ float_floor ∷ float_round ∷ float_na_n ∷ []

get_elem?-un_op_number : (op : UnOpType) → get_elem? un_ops (un_op_number op) ≡ some op
unfolding un_op_number
get_elem?-un_op_number int_negate = refl
get_elem?-un_op_number int2_comp = refl
get_elem?-un_op_number bool_negate = refl
get_elem?-un_op_number float_negate = refl
get_elem?-un_op_number float_abs = refl
get_elem?-un_op_number float_sqrt = refl
get_elem?-un_op_number float_ceil = refl
get_elem?-un_op_number float_floor = refl
get_elem?-un_op_number float_round = refl
get_elem?-un_op_number float_na_n = refl

unfoldable pub same_un_op : UnOpType → UnOpType → Bool
unfolding un_op_number
same_un_op op op' = un_op_number op == un_op_number op'

pub same_un_op_sound : (op op' : UnOpType) → same_un_op op op' ≡ true → op ≡ op'
unfolding same_un_op
same_un_op_sound op op' h = some_injective op op' (
    sym (get_elem?-un_op_number op)
    ∙ ap (get_elem? un_ops) ((==_iff _ _).0 h)
    ∙ get_elem?-un_op_number op')

-- The position of the operation in its declaration.
unfoldable pub cast_op_number : CastOpType → ℕ
cast_op_number int_z_ext = 0
cast_op_number int_s_ext = 1
cast_op_number int2_float = 2
cast_op_number float2_float = 3
cast_op_number trunc = 4
cast_op_number pop_count = 5
cast_op_number lz_count = 6

abbrev cast_ops : List CastOpType
cast_ops = int_z_ext ∷ int_s_ext ∷ int2_float ∷ float2_float ∷ trunc ∷ pop_count ∷ lz_count ∷ []

get_elem?-cast_op_number : (op : CastOpType) → get_elem? cast_ops (cast_op_number op) ≡ some op
unfolding cast_op_number
get_elem?-cast_op_number int_z_ext = refl
get_elem?-cast_op_number int_s_ext = refl
get_elem?-cast_op_number int2_float = refl
get_elem?-cast_op_number float2_float = refl
get_elem?-cast_op_number trunc = refl
get_elem?-cast_op_number pop_count = refl
get_elem?-cast_op_number lz_count = refl

unfoldable pub same_cast_op : CastOpType → CastOpType → Bool
unfolding cast_op_number
same_cast_op op op' = cast_op_number op == cast_op_number op'

pub same_cast_op_sound : (op op' : CastOpType) → same_cast_op op op' ≡ true → op ≡ op'
unfolding same_cast_op
same_cast_op_sound op op' h = some_injective op op' (
    sym (get_elem?-cast_op_number op)
    ∙ ap (get_elem? cast_ops) ((==_iff _ _).0 h)
    ∙ get_elem?-cast_op_number op')

unfoldable pub same_description : List ℕ → List ℕ → Bool
same_description [] [] = true
same_description (a ∷ s) (b ∷ t) = a == b && same_description s t
same_description _ _ = false

same_description_sound : (s t : List ℕ) → same_description s t ≡ true → s ≡ t
unfolding same_description
same_description_sound [] [] h = refl
same_description_sound [] (b ∷ t) h = ground arith
same_description_sound (a ∷ s) [] h = ground arith
same_description_sound (a ∷ s) (b ∷ t) h = ground (arith, same_description_sound s t)

module _ (api : ApInt) (a : Arithmetic api) where
  unfoldable pub same_expression : Expression api.Bitvector → Expression api.Bitvector → Bool
  unfolding same_bin_op same_un_op same_cast_op same_description
  same_expression (var v) (var w) = v =? w
  same_expression (const c) (const d) = a.equal c d
  same_expression (bin_op op lhs rhs) (bin_op op' lhs' rhs') =
      same_bin_op op op' && (same_expression lhs lhs' && same_expression rhs rhs')
  same_expression (un_op op arg) (un_op op' arg') = same_un_op op op' && same_expression arg arg'
  same_expression (cast op size arg) (cast op' size' arg') =
      same_cast_op op op' && (size == size' && same_expression arg arg')
  same_expression (unknown description size) (unknown description' size') =
      same_description description description' && size == size'
  same_expression (subpiece low_byte size arg) (subpiece low_byte' size' arg') =
      low_byte == low_byte' && (size == size' && same_expression arg arg')
  same_expression _ _ = false

  pub same_expression_sound :
      ((c d : api.Bitvector) → a.equal c d ≡ true → c ≡ d)
      → (e f : Expression api.Bitvector) → same_expression e f ≡ true
      → e ≡ f
  unfolding same_expression
  same_expression_sound sound (var v) (var w) h = ground (arith, variable_ord.cmp_eq_iff v w)
  same_expression_sound sound (const c) (const d) h = ap const (sound c d h)
  same_expression_sound sound (bin_op op lhs rhs) (bin_op op' lhs' rhs') h = ground (
    arith,
    same_bin_op_sound op op',
    same_expression_sound sound lhs lhs',
    same_expression_sound sound rhs rhs',
  )
  same_expression_sound sound (un_op op arg) (un_op op' arg') h =
      ground (arith, same_un_op_sound op op', same_expression_sound sound arg arg')
  same_expression_sound sound (cast op size arg) (cast op' size' arg') h =
      ground (arith, same_cast_op_sound op op', same_expression_sound sound arg arg')
  same_expression_sound sound (unknown description size) (unknown description' size') h =
      ground (arith, same_description_sound description description')
  same_expression_sound sound (subpiece low_byte size arg) (subpiece low_byte' size' arg') h =
      ground (arith, same_expression_sound sound arg arg')
  same_expression_sound sound _ _ h = ground arith
