-- ===== src/IntermediateRepresentation/Expression/Semantics.antt =====
-- The values of expressions, over the meaning that P-Code gives to the operations, and what the
-- functions on expressions do to them.
use fkie_cad_cwe_checker.Prelude.{ℕ, ◌≡◌, refl, ap, true, List, [], ◌∷◌, ◌++◌, arith, if◌then◌else◌}
use fkie_cad_cwe_checker.Prelude.Key.{◌=?◌}
use fkie_cad_cwe_checker.BTreeSet
use mathlib.Core.Path.{ap₂}
use fkie_cad_cwe_checker.IntermediateRepresentation.Variable.{Variable, variable_ord}
use fkie_cad_cwe_checker.IntermediateRepresentation.Expression.{
  BinOpType, UnOpType, CastOpType, Expression, input_vars, substitute_input_var,
}
use fkie_cad_cwe_checker.IntermediateRepresentation.Expression.Expression.{
  var, const, bin_op, un_op, cast, unknown, subpiece,
}

-- The meaning of the operations: values, and what each operation computes. Evaluating an unknown
-- expression has no effects and depends on nothing but its description and size.
pub record Meaning (Bitvector : Type 0) : Type 1 where
  pub Value : Type 0
  pub constant : Bitvector → Value
  pub binary : BinOpType → Value → Value → Value
  pub unary : UnOpType → Value → Value
  pub converted : CastOpType → ℕ → Value → Value
  pub unspecified : List ℕ → ℕ → Value
  pub extracted : ℕ → ℕ → Value → Value

contains_self : (v : Variable) → BTreeSet.contains v (v ∷ []) ≡ true
unfolding BTreeSet.contains
contains_self v = ground (arith, variable_ord.cmp_eq_iff v v)

module _ {Bitvector : Type 0} (m : Meaning Bitvector) where
  abbrev pub Registers : Type 0
  Registers = Variable → m.Value

  unfoldable pub evaluate : Registers → Expression Bitvector → m.Value
  evaluate s (var v) = s v
  evaluate s (const c) = m.constant c
  evaluate s (bin_op op lhs rhs) = m.binary op (evaluate s lhs) (evaluate s rhs)
  evaluate s (un_op op arg) = m.unary op (evaluate s arg)
  evaluate s (cast op size arg) = m.converted op size (evaluate s arg)
  evaluate s (unknown description size) = m.unspecified description size
  evaluate s (subpiece low_byte size arg) = m.extracted low_byte size (evaluate s arg)

  abbrev pub assign : Variable → m.Value → Registers → Registers
  assign v value s w = if w =? v then value else s w

  contains-append-left :
      (v : Variable) (xs ys : List Variable)
      → BTreeSet.contains v xs ≡ true
      → BTreeSet.contains v (xs ++ ys) ≡ true
  unfolding BTreeSet.contains
  contains-append-left v [] ys h = ground arith
  contains-append-left v (x ∷ xs) ys h = ground (arith, contains-append-left v xs ys)

  contains-append-right :
      (v : Variable) (xs ys : List Variable)
      → BTreeSet.contains v ys ≡ true
      → BTreeSet.contains v (xs ++ ys) ≡ true
  unfolding BTreeSet.contains
  contains-append-right v [] ys h = h
  contains-append-right v (x ∷ xs) ys h = ground (arith, contains-append-right v xs ys h)

  -- The value of an expression depends on nothing but its input variables.
  pub evaluate-input_vars :
      (s t : Registers) (e : Expression Bitvector)
      → ((v : Variable) → BTreeSet.contains v (input_vars e) ≡ true → s v ≡ t v)
      → evaluate s e ≡ evaluate t e
  unfolding evaluate input_vars
  evaluate-input_vars s t (var v) h = h v (contains_self v)
  evaluate-input_vars s t (const c) h = refl
  evaluate-input_vars s t (bin_op op lhs rhs) h =
      ap₂ (m.binary op)
        (evaluate-input_vars s t lhs
          (λ v k. h v (contains-append-left v (input_vars lhs) (input_vars rhs) k)))
        (evaluate-input_vars s t rhs
          (λ v k. h v (contains-append-right v (input_vars lhs) (input_vars rhs) k)))
  evaluate-input_vars s t (un_op op arg) h = ap (m.unary op) (evaluate-input_vars s t arg h)
  evaluate-input_vars s t (cast op size arg) h =
      ap (m.converted op size) (evaluate-input_vars s t arg h)
  evaluate-input_vars s t (unknown description size) h = refl
  evaluate-input_vars s t (subpiece low_byte size arg) h =
      ap (m.extracted low_byte size) (evaluate-input_vars s t arg h)

  -- Substituting an expression for a variable has the value of the original after the expression's
  -- value has been assigned to the variable.
  pub evaluate-substitute_input_var :
      (s : Registers) (v : Variable) (r e : Expression Bitvector)
      → evaluate s (substitute_input_var v r e) ≡ evaluate (assign v (evaluate s r) s) e
  unfolding evaluate substitute_input_var
  evaluate-substitute_input_var s v r (var w) = ground arith
  evaluate-substitute_input_var s v r (const c) = refl
  evaluate-substitute_input_var s v r (bin_op op lhs rhs) =
      ap₂ (m.binary op) (evaluate-substitute_input_var s v r lhs)
        (evaluate-substitute_input_var s v r rhs)
  evaluate-substitute_input_var s v r (un_op op arg) =
      ap (m.unary op) (evaluate-substitute_input_var s v r arg)
  evaluate-substitute_input_var s v r (cast op size arg) =
      ap (m.converted op size) (evaluate-substitute_input_var s v r arg)
  evaluate-substitute_input_var s v r (unknown description size) = refl
  evaluate-substitute_input_var s v r (subpiece low_byte size arg) =
      ap (m.extracted low_byte size) (evaluate-substitute_input_var s v r arg)
