-- ===== src/IntermediateRepresentation/Expression/Simplify/Casts.antt =====
-- The rewritings of casts and of operations with one operand.
use fkie_cad_cwe_checker.Prelude.{
  ℕ, ◌≡◌, refl, ap, sym, ◌∙◌, true, ◌&&◌, ◌==◌, ==_iff, Option, some, none, arith,
}
use mathlib.Core.Path.{subst}
use fkie_cad_cwe_checker.Apint.{ApInt}
use fkie_cad_cwe_checker.Apint.Arithmetic.{Arithmetic, IsArithmetic}
use fkie_cad_cwe_checker.IntermediateRepresentation.Variable.{Variable}
use fkie_cad_cwe_checker.IntermediateRepresentation.Expression.{
  BinOpType, Expression, bytesize, UnOpType, CastOpType,
}
use fkie_cad_cwe_checker.IntermediateRepresentation.Expression.Expression.{bin_op, un_op, cast}
use fkie_cad_cwe_checker.IntermediateRepresentation.Expression.Semantics.{evaluate}
use fkie_cad_cwe_checker.IntermediateRepresentation.Expression.Pcode.{Word, Others, cast_word}
use fkie_cad_cwe_checker.IntermediateRepresentation.Expression.Simplify.{
  cast_of, substitute_cast, substitute_un_op, negated, extends, is_involution,
}
use fkie_cad_cwe_checker.IntermediateRepresentation.Expression.Simplify.Same.{
  same_un_op_sound, same_cast_op_sound,
}
use fkie_cad_cwe_checker.IntermediateRepresentation.Expression.Simplify.Typed.{
  Fits, IsTyped, value_of, value_of-Fits, value_of-size, Operand, Extends,
}
use fkie_cad_cwe_checker.IntermediateRepresentation.Expression.Simplify.Keeps.{
  some-path, Replaces, Keeps, if-Keeps, unwrap_or-Keeps, Keeps-refl,
}
use fkie_cad_cwe_checker.IntermediateRepresentation.Expression.Simplify.Joins.{and-both}
use fkie_cad_cwe_checker.IntermediateRepresentation.Expression.UnOpType.{
  int_negate, int2_comp, bool_negate,
}
use fkie_cad_cwe_checker.IntermediateRepresentation.Expression.CastOpType.{int_z_ext, int_s_ext}
use fkie_cad_cwe_checker.IntermediateRepresentation.Expression.Simplify.Pieces.{
  whole-cast, negated-Operands, int_negate-twice, int2_comp-twice, bool_negate-twice, negated-swap,
  z_ext-z_ext, s_ext-s_ext,
}

module _ (api : ApInt) (a : Arithmetic api) (value : api.Bitvector → ℕ)
    (laws : IsArithmetic api a value) (others : Others) (s : Variable → Word) where
  abbrev Expr : Type 0
  Expr = Expression api.Bitvector

  abbrev V : Expr → Word
  V = value_of api value others s

  abbrev Goal : Expr → Expr → Type 0
  Goal = Replaces api value others s

  abbrev Typed : Expr → Type 0
  Typed = IsTyped api value others s

  fits : (e : Expr) → Typed e → Fits (V e)
  fits = value_of-Fits api value others s laws.value-lt

  size_of : (e : Expr) → Typed e → bytesize api e ≡ (V e).size
  size_of e t = sym (value_of-size api value others s e t)

  -- An extension to the size of its operand.
  whole_extension :
      (op : CastOpType) (n : ℕ) (e : Expr)
      → (extends op && n == bytesize api e) ≡ true
      → Keeps api value others s (cast op n e) e
  unfolding IsTyped evaluate
  whole_extension op n e g t =
      let (is_extension, is_size) = and-both _ _ g in
      let size : n ≡ (V e).size = (==_iff _ _).0 is_size ∙ size_of e t.0 in
      (
        t.0,
        sym (ap (λ k. cast_word others op k (V e)) size ∙ whole-cast others op (V e) is_extension),
      )

  twice_extended :
      (op : CastOpType) (n n' : ℕ) (e : Expr)
      → extends op ≡ true
      → Keeps api value others s (cast op n (cast op n' e)) (cast op n e)
  unfolding IsTyped evaluate Extends cast_word
  twice_extended int_z_ext n n' e g t =
      ((t.0.0, omega (arith, t.0.1, t.1), t.2), sym (z_ext-z_ext others (V e) n n'))
  twice_extended int_s_ext n n' e g t = (
    (t.0.0, omega (arith, t.0.1, t.1), t.2),
    sym (s_ext-s_ext others (V e) n n' (fits e t.0.0) t.0.1 t.1),
  )
  twice_extended _ n n' e g t = ground arith

  cast_of-Keeps :
      (op : CastOpType) (n : ℕ) (e : Expr)
      → extends op ≡ true
      → Keeps api value others s (cast op n e) (cast_of api a op n e)
  unfolding cast_of
  cast_of-Keeps op n (cast op' n' e) g =
      if-Keeps api value others s _ (cast op n (cast op' n' e)) (cast op n e) _
        (λ same.
          subst (λ o. Keeps api value others s (cast op n (cast o n' e)) (cast op n e))
            (same_cast_op_sound op op' same) (twice_extended op n n' e g))
        (λ _. Keeps-refl api value others s (cast op n (cast op' n' e)))
  cast_of-Keeps op n e g = Keeps-refl api value others s (cast op n e)

  pub substitute_cast-Keeps :
      (op : CastOpType) (n : ℕ) (e : Expr)
      → Keeps api value others s (cast op n e) (substitute_cast api a op n e)
  unfolding substitute_cast
  substitute_cast-Keeps op n e =
      if-Keeps api value others s _ (cast op n e) e _ (whole_extension op n e) (λ _.
        if-Keeps api value others s _ (cast op n e) (cast_of api a op n e) (cast op n e)
          (cast_of-Keeps op n e) (λ _. Keeps-refl api value others s (cast op n e)))

  involution :
      (op : UnOpType) (e : Expr)
      → is_involution op ≡ true
      → Keeps api value others s (un_op op (un_op op e)) e
  unfolding IsTyped evaluate Operand
  involution int_negate e g t = (t.0.0, sym (int_negate-twice others (V e) (fits e t.0.0)))
  involution int2_comp e g t = (t.0.0, sym (int2_comp-twice others (V e) (fits e t.0.0)))
  involution bool_negate e g t = (t.0.0, sym (bool_negate-twice others (V e) t.0.1))
  involution _ e g t = ground arith

  negated_comparison :
      (op new_op : BinOpType) (lhs rhs : Expr)
      → negated op ≡ some new_op
      → Keeps api value others s (un_op bool_negate (bin_op op lhs rhs)) (bin_op new_op rhs lhs)
  unfolding IsTyped evaluate
  negated_comparison op new_op lhs rhs h t = (
    (t.0.1, t.0.0, negated-Operands op new_op (V lhs) (V rhs) h t.0.2),
    sym (negated-swap others op new_op (V lhs) (V rhs) h),
  )

  negated-some :
      (o : Option BinOpType) (op : BinOpType) (lhs rhs e' : Expr)
      → negated op ≡ o
      → elim o [ some new_op ↦ some (bin_op new_op rhs lhs) | none ↦ none ] ≡ some e'
      → Keeps api value others s (un_op bool_negate (bin_op op lhs rhs)) e'
  negated-some (some new_op) op lhs rhs e' h k =
      some-path (Keeps api value others s (un_op bool_negate (bin_op op lhs rhs))) _ e' k
        (negated_comparison op new_op lhs rhs h)
  negated-some none op lhs rhs e' h k = cc

  pub substitute_un_op-Keeps :
      (op : UnOpType) (e : Expr)
      → Keeps api value others s (un_op op e) (substitute_un_op api a op e)
  unfolding substitute_un_op
  substitute_un_op-Keeps op (un_op op' e) =
      if-Keeps api value others s _ (un_op op (un_op op' e)) e _
        (λ g.
          let (same, k) = and-both _ _ g in
          subst (λ o. Keeps api value others s (un_op op (un_op o e)) e)
            (same_un_op_sound op op' same) (involution op e k))
        (λ _. Keeps-refl api value others s (un_op op (un_op op' e)))
  substitute_un_op-Keeps op (bin_op op' lhs rhs) =
      if-Keeps api value others s _ (un_op op (bin_op op' lhs rhs)) _ _
        (λ g. unwrap_or-Keeps api value others s _ (un_op op (bin_op op' lhs rhs)) (λ e' h.
          subst (λ o. Keeps api value others s (un_op o (bin_op op' lhs rhs)) e')
            (sym (same_un_op_sound op bool_negate g))
            (negated-some (negated op') op' lhs rhs e' refl h)))
        (λ _. Keeps-refl api value others s (un_op op (bin_op op' lhs rhs)))
  substitute_un_op-Keeps op e = Keeps-refl api value others s (un_op op e)
