-- ===== src/IntermediateRepresentation/Expression/Simplify/Differences.antt =====
-- The rewriting of a comparison of a difference with a constant, and all of
-- `substitute_equivalent_comparison_ops`.
use fkie_cad_cwe_checker.Prelude.{
  ℕ, ◌≡◌, refl, ap, sym, ◌∙◌, inl, inr, Bool, true, false, not, ◌&&◌, ◌||◌, Option, some, arith,
  if◌then◌else◌,
}
use mathlib.Core.Path.{subst}
use fkie_cad_cwe_checker.Apint.{ApInt}
use fkie_cad_cwe_checker.Apint.Arithmetic.{Arithmetic, IsArithmetic}
use fkie_cad_cwe_checker.IntermediateRepresentation.Variable.{Variable}
use fkie_cad_cwe_checker.IntermediateRepresentation.Expression.{BinOpType, Expression}
use fkie_cad_cwe_checker.IntermediateRepresentation.Expression.Expression.{const, bin_op}
use fkie_cad_cwe_checker.IntermediateRepresentation.Expression.BinOpType.{
  int_equal, int_not_equal, int_less, int_s_less, int_less_equal, int_s_less_equal, int_sub,
  bool_and, bool_or,
}
use fkie_cad_cwe_checker.IntermediateRepresentation.Expression.Semantics.{evaluate}
use fkie_cad_cwe_checker.IntermediateRepresentation.Expression.Pcode.{Word, Others, binary_word}
use fkie_cad_cwe_checker.IntermediateRepresentation.Expression.Simplify.{
  or_else, either_order, constant_first, with_constant, difference_with_constant, joined,
  equivalent_comparison, substitute_equivalent_comparison_ops,
}
use fkie_cad_cwe_checker.IntermediateRepresentation.Expression.Simplify.Same.{
  same_bin_op, same_bin_op_sound,
}
use fkie_cad_cwe_checker.IntermediateRepresentation.Expression.Simplify.Typed.{
  Fits, Operands, SameSize, IsTyped, value_of, value_of-Fits,
}
use fkie_cad_cwe_checker.IntermediateRepresentation.Expression.Simplify.WordLaws.{commutes}
use fkie_cad_cwe_checker.IntermediateRepresentation.Expression.Simplify.Comparisons.{
  zero-equal, zero-not_equal, less_or_equal, signed_less_or_equal, less_equal_and_not,
  signed_less_equal_and_not, equal-swap, unequal-swap,
}
use fkie_cad_cwe_checker.IntermediateRepresentation.Expression.Simplify.Keeps.{
  on_some, or_else-some, Replaces, Keeps, Keeps-trans, bin_op-swap, unwrap_or-Keeps, Keeps-refl,
}
use fkie_cad_cwe_checker.IntermediateRepresentation.Expression.Simplify.Constants.{zero_value}
use fkie_cad_cwe_checker.IntermediateRepresentation.Expression.Simplify.Joins.{
  and-both, either_joined-Keeps,
}

abbrev compares : BinOpType → Bool
compares op = elim op [ int_equal ↦ true | int_not_equal ↦ true | _ ↦ false ]

module _ (api : ApInt) (a : Arithmetic api) where
  unfoldable pub difference_and_one : Expression api.Bitvector → Expression api.Bitvector → Bool
  difference_and_one (const c) (bin_op op lhs rhs) = same_bin_op op int_sub && a.is_one c
  difference_and_one _ _ = false

  -- Whether the operation tests a difference for being 1 or not.
  unfoldable pub compares_with_one :
      BinOpType → Expression api.Bitvector → Expression api.Bitvector → Bool
  unfolding difference_and_one
  compares_with_one op lhs rhs =
      compares op && (difference_and_one lhs rhs || difference_and_one rhs lhs)

  unfoldable pub avoids_one : Expression api.Bitvector → Bool
  unfolding compares_with_one
  avoids_one (bin_op op lhs rhs) = not (compares_with_one op lhs rhs)
  avoids_one e = true

module _ (api : ApInt) (a : Arithmetic api) (value : api.Bitvector → ℕ)
    (laws : IsArithmetic api a value) (others : Others) (s : Variable → Word) where
  abbrev Expr : Type 0
  Expr = Expression api.Bitvector

  abbrev V : Expr → Word
  V = value_of api value others s

  abbrev Goal : Expr → Expr → Type 0
  Goal = Replaces api value others s

  abbrev Typed : Expr → Type 0
  Typed = IsTyped api value others s

  fits : (e : Expr) → Typed e → Fits (V e)
  fits = value_of-Fits api value others s laws.value-lt

  -- What the comparison `op` with a difference is when the constant is zero.
  module _ (op opposite : BinOpType)
      (law : (x y z : Word)
        → Fits y
        → Fits z
        → SameSize y z
        → x.bits ≡ 0
        → binary_word others op x (binary_word others int_sub y z) ≡ binary_word others op y z)
      (operands : (x y : Word) → SameSize x y → Operands op x y) where
    zero_difference :
        (c : api.Bitvector) (left right : Expr)
        → a.is_zero c ≡ true
        → Keeps api value others s
            (bin_op op (const c) (bin_op int_sub left right))
            (bin_op op left right)
    unfolding IsTyped evaluate Operands
    zero_difference c left right z t = (
      (t.1.0, t.1.1, operands (V left) (V right) t.1.2),
      sym (
          law (V (const c)) (V left) (V right) (fits left t.1.0) (fits right t.1.1) t.1.2
            (zero_value api a value laws others s c z)),
    )

    difference_arm :
        (lhs rhs e' : Expr)
        → difference_and_one api a lhs rhs ≡ false
        → constant_first api a (difference_with_constant api a op opposite) lhs rhs ≡ some e'
        → Keeps api value others s (bin_op op lhs rhs) e'
    unfolding difference_and_one constant_first difference_with_constant
    difference_arm (const c) (bin_op inner left right) e' avoids h =
        let (guard, p) =
          on_some _ (bin_op (if a.is_zero c then op else opposite) left right) e' h in
        let (is_sub, zero_or_one) = and-both _ _ guard in
        let q : int_sub ≡ inner = sym (same_bin_op_sound inner int_sub is_sub) in
        let z : a.is_zero c ≡ true = ground arith in
        let r : bin_op op left right ≡ e' =
          ap (λ b. bin_op (if b then op else opposite) left right) (sym z) ∙ p in
        subst (λ f. Keeps api value others s (bin_op op (const c) (bin_op f left right)) e') q
          (subst (Keeps api value others s (bin_op op (const c) (bin_op int_sub left right))) r
            (zero_difference c left right z))
    difference_arm _ _ e' avoids h = cc

    difference-Keeps :
        commutes op ≡ true
        → (lhs rhs e' : Expr) → difference_and_one api a lhs rhs ≡ false
        → difference_and_one api a rhs lhs ≡ false
        → with_constant api a (difference_with_constant api a op opposite) lhs rhs ≡ some e'
        → Keeps api value others s (bin_op op lhs rhs) e'
    unfolding with_constant
    difference-Keeps c lhs rhs e' k l h =
        let arm : Expr → Expr → Option Expr =
          constant_first api a (difference_with_constant api a op opposite) in
        elim (or_else-some (arm lhs rhs) (arm rhs lhs) e' h) [
          | inl m ↦ difference_arm lhs rhs e' k m
          | inr m ↦
              Keeps-trans api value others s (bin_op op lhs rhs) (bin_op op rhs lhs) e'
                (bin_op-swap api value others s op lhs rhs c) (difference_arm rhs lhs e' l m)
        ]

  or_else-Keeps :
      (o p : Option Expr) (e e' : Expr)
      → (o ≡ some e' → Keeps api value others s e e')
      → (p ≡ some e' → Keeps api value others s e e')
      → or_else o p ≡ some e'
      → Keeps api value others s e e'
  or_else-Keeps o p e e' h k m = elim (or_else-some o p e' m) [ inl l ↦ h l | inr r ↦ k r ]

  equivalent_comparison-Keeps :
      (op : BinOpType) (lhs rhs e' : Expr)
      → compares_with_one api a op lhs rhs ≡ false
      → equivalent_comparison api a op lhs rhs ≡ some e'
      → Keeps api value others s (bin_op op lhs rhs) e'
  unfolding equivalent_comparison compares_with_one Operands
  equivalent_comparison-Keeps int_equal lhs rhs e' avoids h =
      difference-Keeps int_equal int_not_equal (zero-equal others) (λ x y k. k) refl lhs rhs e'
        (ground arith) (ground arith) h
  equivalent_comparison-Keeps int_not_equal lhs rhs e' avoids h =
      difference-Keeps int_not_equal int_equal (zero-not_equal others) (λ x y k. k) refl lhs rhs e'
        (ground arith) (ground arith) h
  equivalent_comparison-Keeps bool_or lhs rhs e' avoids h =
      or_else-Keeps (either_order (joined api a int_s_less int_equal int_s_less_equal) lhs rhs)
        (either_order (joined api a int_less int_equal int_less_equal) lhs rhs)
        (bin_op bool_or lhs rhs) e'
        (either_joined-Keeps api a value laws others s bool_or int_s_less int_equal int_s_less_equal
          (λ x y k. (k, k)) (signed_less_or_equal others) (equal-swap others) refl lhs rhs e')
        (either_joined-Keeps api a value laws others s bool_or int_less int_equal int_less_equal
          (λ x y k. (k, k)) (λ x y _ _ _. less_or_equal others x y) (equal-swap others) refl lhs rhs
          e')
        h
  equivalent_comparison-Keeps bool_and lhs rhs e' avoids h =
      or_else-Keeps (either_order (joined api a int_less_equal int_not_equal int_less) lhs rhs)
        (either_order (joined api a int_s_less_equal int_not_equal int_s_less) lhs rhs)
        (bin_op bool_and lhs rhs) e'
        (either_joined-Keeps api a value laws others s bool_and int_less_equal int_not_equal
          int_less (λ x y k. (k, k)) (λ x y _ _ _. less_equal_and_not others x y)
          (unequal-swap others) refl lhs rhs e')
        (either_joined-Keeps api a value laws others s bool_and int_s_less_equal int_not_equal
          int_s_less (λ x y k. (k, k)) (signed_less_equal_and_not others) (unequal-swap others) refl
          lhs rhs e')
        h
  equivalent_comparison-Keeps _ lhs rhs e' avoids h = cc

  pub substitute_equivalent_comparison_ops-Keeps :
      (e : Expr)
      → avoids_one api a e ≡ true
      → Keeps api value others s e (substitute_equivalent_comparison_ops api a e)
  unfolding substitute_equivalent_comparison_ops avoids_one
  substitute_equivalent_comparison_ops-Keeps (bin_op op lhs rhs) k =
      unwrap_or-Keeps api value others s (equivalent_comparison api a op lhs rhs)
        (bin_op op lhs rhs) (λ e' h. equivalent_comparison-Keeps op lhs rhs e' (ground arith) h)
  substitute_equivalent_comparison_ops-Keeps e k = Keeps-refl api value others s e
