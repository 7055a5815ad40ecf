-- ===== src/IntermediateRepresentation/Expression/Simplify/Joins.antt =====
-- The rewritings of combined comparisons, of comparisons of a difference, and of a sign and a borrow.
use fkie_cad_cwe_checker.Prelude.{
  ℕ, ◌≡◌, ap, sym, ◌∙◌, ◌⊎◌, inl, inr, Bool, true, ◌&&◌, ◌||◌, some, arith,
}
use mathlib.Core.Path.{subst}
use fkie_cad_cwe_checker.Apint.{ApInt}
use fkie_cad_cwe_checker.Apint.Arithmetic.{Arithmetic, IsArithmetic}
use fkie_cad_cwe_checker.IntermediateRepresentation.Variable.{Variable}
use fkie_cad_cwe_checker.IntermediateRepresentation.Expression.{BinOpType, Expression}
use fkie_cad_cwe_checker.IntermediateRepresentation.Expression.Expression.{bin_op}
use fkie_cad_cwe_checker.IntermediateRepresentation.Expression.Semantics.{evaluate}
use fkie_cad_cwe_checker.IntermediateRepresentation.Expression.Pcode.{Word, Others, binary_word}
use fkie_cad_cwe_checker.IntermediateRepresentation.Expression.Simplify.{either_order, joined}
use fkie_cad_cwe_checker.IntermediateRepresentation.Expression.Simplify.Same.{
  same_bin_op_sound, same_expression, same_expression_sound,
}
use fkie_cad_cwe_checker.IntermediateRepresentation.Expression.Simplify.Typed.{
  Fits, Operands, SameSize, IsTyped, value_of, value_of-Fits,
}
use fkie_cad_cwe_checker.IntermediateRepresentation.Expression.Simplify.WordLaws.{commutes}
use fkie_cad_cwe_checker.IntermediateRepresentation.Expression.Simplify.Keeps.{
  on_some, Replaces, Keeps, either_order-Keeps,
}

-- The four ways of the operands of two comparisons to be the same.
pub and-both : (b c : Bool) → b && c ≡ true → (b ≡ true) × (c ≡ true)
and-both b c h = ground arith

pub or-either : (b c : Bool) → b || c ≡ true → (b ≡ true) ⊎ (c ≡ true)
or-either b c h = ground arith

module _ (api : ApInt) (a : Arithmetic api) (value : api.Bitvector → ℕ)
    (laws : IsArithmetic api a value) (others : Others) (s : Variable → Word) where
  abbrev Expr : Type 0
  Expr = Expression api.Bitvector

  abbrev V : Expr → Word
  V = value_of api value others s

  abbrev Typed : Expr → Type 0
  Typed = IsTyped api value others s

  abbrev Goal : Expr → Expr → Type 0
  Goal = Replaces api value others s

  same_sound : (e f : Expr) → same_expression api a e f ≡ true → e ≡ f
  same_sound = same_expression_sound api a laws.equal_sound

  fits : (e : Expr) → Typed e → Fits (V e)
  fits = value_of-Fits api value others s laws.value-lt

  -- Two comparisons of the same operands, in this order or with those of the second one swapped.
  module _ (op first second outer : BinOpType)
      (operands : (x y : Word) → Operands first x y → SameSize x y × Operands outer x y)
      (law : (x y : Word)
        → Fits x
        → Fits y
        → SameSize x y
        → binary_word others op (binary_word others first x y) (binary_word others second x y)
          ≡ binary_word others outer x y)
      (swap : (x y : Word) → binary_word others second y x ≡ binary_word others second x y) where
    same_operands :
        (left right : Expr)
        → Keeps api value others s
            (bin_op op (bin_op first left right) (bin_op second left right))
            (bin_op outer left right)
    unfolding IsTyped evaluate
    same_operands left right t =
        let (size, typed) = operands (V left) (V right) t.0.2 in
        (
          (t.0.0, t.0.1, typed),
          sym (law (V left) (V right) (fits left t.0.0) (fits right t.0.1) size),
        )

    swapped_operands :
        (left right : Expr)
        → Keeps api value others s
            (bin_op op (bin_op first left right) (bin_op second right left))
            (bin_op outer left right)
    unfolding IsTyped evaluate
    swapped_operands left right t =
        let (size, typed) = operands (V left) (V right) t.0.2 in
        (
          (t.0.0, t.0.1, typed),
          sym (law (V left) (V right) (fits left t.0.0) (fits right t.0.1) size)
              ∙ ap (binary_word others op (binary_word others first (V left) (V right)))
                  (sym (swap (V left) (V right))),
        )

    joined-Keeps :
        (lhs rhs e' : Expr)
        → joined api a first second outer lhs rhs ≡ some e'
        → Keeps api value others s (bin_op op lhs rhs) e'
    unfolding joined
    joined-Keeps (bin_op op1 left right) (bin_op op2 left' right') e' h =
        let (guard, p) = on_some _ (bin_op outer left right) e' h in
        let (ops, operands) = and-both _ _ guard in
        let (is_first, is_second) = and-both _ _ ops in
        let q : first ≡ op1 = sym (same_bin_op_sound op1 first is_first) in
        let r : second ≡ op2 = sym (same_bin_op_sound op2 second is_second) in
        elim (or-either _ _ operands) [
          | inl same ↦
              let (on_left, on_right) = and-both _ _ same in
              let l : left ≡ left' = same_sound left left' on_left in
              let m : right ≡ right' = same_sound right right' on_right in
              let e : bin_op op (bin_op first left right) (bin_op second left right)
                  ≡ bin_op op (bin_op op1 left right) (bin_op op2 left' right') =
                cc in
              subst (λ f. Keeps api value others s f e') e
                (subst
                  (Keeps api value others s
                    (bin_op op (bin_op first left right) (bin_op second left right)))
                  p (same_operands left right))
          | inr swapped ↦
              let (on_left, on_right) = and-both _ _ swapped in
              let l : left ≡ right' = same_sound left right' on_left in
              let m : right ≡ left' = same_sound right left' on_right in
              let e : bin_op op (bin_op first left right) (bin_op second right left)
                  ≡ bin_op op (bin_op op1 left right) (bin_op op2 left' right') =
                cc in
              subst (λ f. Keeps api value others s f e') e
                (subst
                  (Keeps api value others s
                    (bin_op op (bin_op first left right) (bin_op second right left)))
                  p (swapped_operands left right))
        ]
    joined-Keeps _ _ e' h = cc

    pub either_joined-Keeps :
        commutes op ≡ true
        → (lhs rhs e' : Expr) → either_order (joined api a first second outer) lhs rhs ≡ some e'
        → Keeps api value others s (bin_op op lhs rhs) e'
    either_joined-Keeps c =
        either_order-Keeps api value others s op (joined api a first second outer) (λ _ _ _ _. c)
          joined-Keeps
