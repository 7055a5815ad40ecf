-- ===== src/IntermediateRepresentation/Expression/Simplify/Shapes.antt =====
-- The rewritings of subpieces, casts and operations with one operand.
use fkie_cad_cwe_checker.Prelude.{
  ℕ, ◌+◌, ◌≡◌, sym, ◌∙◌, inl, inr, Bool, true, false, not, ◌&&◌, ◌||◌, ◌==◌, ==_iff, arith,
  if◌then◌else◌,
}
use mathlib.Core.Path.{subst, ap₂}
use fkie_cad_cwe_checker.Apint.{ApInt}
use fkie_cad_cwe_checker.Apint.Arithmetic.{Arithmetic, IsArithmetic}
use fkie_cad_cwe_checker.IntermediateRepresentation.Variable.{Variable}
use fkie_cad_cwe_checker.IntermediateRepresentation.Expression.{
  BinOpType, Expression, bytesize, CastOpType,
}
use fkie_cad_cwe_checker.IntermediateRepresentation.Expression.Expression.{bin_op, cast, subpiece}
use fkie_cad_cwe_checker.IntermediateRepresentation.Expression.BinOpType.{piece}
use fkie_cad_cwe_checker.IntermediateRepresentation.Expression.Semantics.{evaluate}
use fkie_cad_cwe_checker.IntermediateRepresentation.Expression.Pcode.{
  Word, Others, binary_word, cast_word, subpiece_word,
}
use fkie_cad_cwe_checker.IntermediateRepresentation.Expression.Simplify.{
  subpiece_of, substitute_subpiece,
}
use fkie_cad_cwe_checker.IntermediateRepresentation.Expression.Simplify.Same.{
  same_bin_op_sound, same_cast_op, same_cast_op_sound,
}
use fkie_cad_cwe_checker.IntermediateRepresentation.Expression.Simplify.Typed.{
  Fits, IsTyped, value_of, value_of-Fits, value_of-size, Extends,
}
use fkie_cad_cwe_checker.IntermediateRepresentation.Expression.Simplify.Keeps.{
  Replaces, Keeps, if-Keeps, Keeps-refl,
}
use fkie_cad_cwe_checker.IntermediateRepresentation.Expression.Simplify.Joins.{and-both, or-either}
use fkie_cad_cwe_checker.IntermediateRepresentation.Expression.CastOpType.{int_z_ext, int_s_ext}
use fkie_cad_cwe_checker.IntermediateRepresentation.Expression.Simplify.Pieces.{
  whole-subpiece, subpiece-z_ext, subpiece-s_ext, subpiece-lhs, subpiece-rhs, subpiece-subpiece,
}

not-false : {b : Bool} → not b ≡ false → b ≡ true
not-false h = ground arith

module _ (api : ApInt) (a : Arithmetic api) (value : api.Bitvector → ℕ)
    (laws : IsArithmetic api a value) (others : Others) (s : Variable → Word) where
  abbrev Expr : Type 0
  Expr = Expression api.Bitvector

  abbrev V : Expr → Word
  V = value_of api value others s

  abbrev Goal : Expr → Expr → Type 0
  Goal = Replaces api value others s

  abbrev Typed : Expr → Type 0
  Typed = IsTyped api value others s

  fits : (e : Expr) → Typed e → Fits (V e)
  fits = value_of-Fits api value others s laws.value-lt

  size_of : (e : Expr) → Typed e → bytesize api e ≡ (V e).size
  size_of e t = sym (value_of-size api value others s e t)

  -- `low` and `n` are those of the whole of `e`.
  whole-Replaces :
      (low n : ℕ) (e : Expr)
      → (low == 0 && n == bytesize api e) ≡ true
      → Keeps api value others s (subpiece low n e) e
  unfolding IsTyped evaluate
  whole-Replaces low n e g t =
      let (is_low, is_size) = and-both _ _ g in
      let low_zero : low ≡ 0 = (==_iff _ _).0 is_low in
      let size : n ≡ (V e).size = (==_iff _ _).0 is_size ∙ size_of e t.0 in
      (
        t.0,
        sym (
            ap₂ (λ l k. subpiece_word others l k (V e)) low_zero size
            ∙ whole-subpiece others (V e) (fits e t.0)),
      )

  z_extension :
      (low n m : ℕ) (e : Expr)
      → (low == 0 && n == bytesize api e) ≡ true
      → Keeps api value others s (subpiece low n (cast int_z_ext m e)) e
  unfolding IsTyped evaluate
  z_extension low n m e g t =
      let (is_low, is_size) = and-both _ _ g in
      let low_zero : low ≡ 0 = (==_iff _ _).0 is_low in
      let size : n ≡ (V e).size = (==_iff _ _).0 is_size ∙ size_of e t.0.0 in
      (
        t.0.0,
        sym (
            ap₂ (λ l k. subpiece_word others l k (cast_word others int_z_ext m (V e))) low_zero size
            ∙ subpiece-z_ext others (V e) m (fits e t.0.0)),
      )

  s_extension :
      (low n m : ℕ) (e : Expr)
      → (low == 0 && n == bytesize api e) ≡ true
      → Keeps api value others s (subpiece low n (cast int_s_ext m e)) e
  unfolding IsTyped evaluate Extends
  s_extension low n m e g t =
      let (is_low, is_size) = and-both _ _ g in
      let low_zero : low ≡ 0 = (==_iff _ _).0 is_low in
      let size : n ≡ (V e).size = (==_iff _ _).0 is_size ∙ size_of e t.0.0 in
      (
        t.0.0,
        sym (
            ap₂ (λ l k. subpiece_word others l k (cast_word others int_s_ext m (V e))) low_zero size
            ∙ subpiece-s_ext others (V e) m (fits e t.0.0) t.0.1),
      )

  extension-Replaces :
      (low n m : ℕ) (op : CastOpType) (e : Expr)
      → (same_cast_op op int_z_ext || same_cast_op op int_s_ext) ≡ true
      → (low == 0 && n == bytesize api e) ≡ true
      → Keeps api value others s (subpiece low n (cast op m e)) e
  extension-Replaces low n m op e k g = elim (or-either _ _ k) [
    | inl z ↦
        subst (λ o. Keeps api value others s (subpiece low n (cast o m e)) e)
          (sym (same_cast_op_sound op int_z_ext z)) (z_extension low n m e g)
    | inr z ↦
        subst (λ o. Keeps api value others s (subpiece low n (cast o m e)) e)
          (sym (same_cast_op_sound op int_s_ext z)) (s_extension low n m e g)
  ]

  piece_lhs-Replaces :
      (low n : ℕ) (lhs rhs : Expr)
      → (low == bytesize api rhs && n == bytesize api lhs) ≡ true
      → Keeps api value others s (subpiece low n (bin_op piece lhs rhs)) lhs
  unfolding IsTyped evaluate
  piece_lhs-Replaces low n lhs rhs g t =
      let (is_low, is_size) = and-both _ _ g in
      let low_size : low ≡ (V rhs).size = (==_iff _ _).0 is_low ∙ size_of rhs t.0.1 in
      let size : n ≡ (V lhs).size = (==_iff _ _).0 is_size ∙ size_of lhs t.0.0 in
      (
        t.0.0,
        sym (
            ap₂ (λ l k. subpiece_word others l k (binary_word others piece (V lhs) (V rhs)))
              low_size size
            ∙ subpiece-lhs others (V lhs) (V rhs) (fits lhs t.0.0) (fits rhs t.0.1)),
      )

  piece_rhs-Replaces :
      (low n : ℕ) (lhs rhs : Expr)
      → (low == 0 && n == bytesize api rhs) ≡ true
      → Keeps api value others s (subpiece low n (bin_op piece lhs rhs)) rhs
  unfolding IsTyped evaluate
  piece_rhs-Replaces low n lhs rhs g t =
      let (is_low, is_size) = and-both _ _ g in
      let low_zero : low ≡ 0 = (==_iff _ _).0 is_low in
      let size : n ≡ (V rhs).size = (==_iff _ _).0 is_size ∙ size_of rhs t.0.1 in
      (
        t.0.1,
        sym (
            ap₂ (λ l k. subpiece_word others l k (binary_word others piece (V lhs) (V rhs)))
              low_zero size
            ∙ subpiece-rhs others (V lhs) (V rhs) (fits rhs t.0.1)),
      )

  pieces-Keeps :
      (low n : ℕ) (op : BinOpType) (lhs rhs : Expr)
      → op ≡ piece
      → Keeps api value others s (subpiece low n (bin_op op lhs rhs)) (
          if low == bytesize api rhs && n == bytesize api lhs
          then lhs
          else if low == 0 && n == bytesize api rhs
          then rhs
          else subpiece low n (bin_op op lhs rhs))
  pieces-Keeps low n op lhs rhs e =
      let whole : Expr = subpiece low n (bin_op op lhs rhs) in
      if-Keeps api value others s _ whole lhs _
        (λ g.
          subst (λ o. Keeps api value others s (subpiece low n (bin_op o lhs rhs)) lhs) (sym e)
            (piece_lhs-Replaces low n lhs rhs g))
        (λ _.
          if-Keeps api value others s _ whole rhs whole
            (λ g.
              subst (λ o. Keeps api value others s (subpiece low n (bin_op o lhs rhs)) rhs) (sym e)
                (piece_rhs-Replaces low n lhs rhs g))
            (λ _. Keeps-refl api value others s whole))

  inner_subpiece :
      (low n low' n' : ℕ) (e : Expr)
      → Keeps api value others s (subpiece low n (subpiece low' n' e)) (subpiece (low + low') n e)
  unfolding IsTyped evaluate subpiece_word
  inner_subpiece low n low' n' e t = (
    (t.0.0, omega (arith, t.0.1, t.1), t.2),
    sym (subpiece-subpiece others (V e) low n low' n' t.1),
  )

  subpiece_of-Keeps :
      (low n : ℕ) (e : Expr)
      → Keeps api value others s (subpiece low n e) (subpiece_of api a low n e)
  unfolding subpiece_of
  subpiece_of-Keeps low n (cast op m e) =
      if-Keeps api value others s _ (subpiece low n (cast op m e)) e _
        (λ g. let (k, l) = and-both _ _ g in extension-Replaces low n m op e k l)
        (λ _. Keeps-refl api value others s (subpiece low n (cast op m e)))
  subpiece_of-Keeps low n (bin_op op lhs rhs) =
      if-Keeps api value others s _ (subpiece low n (bin_op op lhs rhs))
        (subpiece low n (bin_op op lhs rhs)) _
        (λ _. Keeps-refl api value others s (subpiece low n (bin_op op lhs rhs)))
        (λ is_piece.
          pieces-Keeps low n op lhs rhs (same_bin_op_sound op piece (not-false is_piece)))
  subpiece_of-Keeps low n (subpiece low' n' e) = inner_subpiece low n low' n' e
  subpiece_of-Keeps low n e = Keeps-refl api value others s (subpiece low n e)

  pub substitute_subpiece-Keeps :
      (low n : ℕ) (e : Expr)
      → Keeps api value others s (subpiece low n e) (substitute_subpiece api a low n e)
  unfolding substitute_subpiece
  substitute_subpiece-Keeps low n e =
      if-Keeps api value others s _ (subpiece low n e) e (subpiece_of api a low n e)
        (whole-Replaces low n e) (λ _. subpiece_of-Keeps low n e)
