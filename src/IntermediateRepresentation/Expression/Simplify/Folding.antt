-- ===== src/IntermediateRepresentation/Expression/Simplify/Folding.antt =====
-- The computation of operations with constants.
use fkie_cad_cwe_checker.Prelude.{
  ℕ, ◌+◌, ◌-◌, ◌*◌, ◌^◌, ◌<◌, ◌≡◌, refl, ap, sym, ◌∙◌, inl, inr, true, Option, some, Bool-cases,
  ltb, ltb→lt, arith, ◌/◌, ◌%◌,
}
use mathlib.Core.Path.{subst}
use fkie_cad_cwe_checker.Apint.{ApInt, byte_size_from}
use fkie_cad_cwe_checker.Apint.Arithmetic.{Arithmetic, IsArithmetic, Gives}
use fkie_cad_cwe_checker.IntermediateRepresentation.Variable.{Variable}
use fkie_cad_cwe_checker.IntermediateRepresentation.Expression.{BinOpType, Expression}
use fkie_cad_cwe_checker.IntermediateRepresentation.Expression.Expression.{const, bin_op}
use fkie_cad_cwe_checker.IntermediateRepresentation.Expression.Semantics.{evaluate}
use fkie_cad_cwe_checker.IntermediateRepresentation.Expression.Pcode.{
  Word, word, Others, binary_word, minus, plus,
}
use fkie_cad_cwe_checker.IntermediateRepresentation.Expression.Simplify.Typed.{
  Fits, Operands, SameSize, IsTyped, value_of, value_of-Fits,
}
use fkie_cad_cwe_checker.IntermediateRepresentation.Expression.Simplify.Keeps.{Replaces}
use fkie_cad_cwe_checker.Prelude.Outcome.{Outcome, ok, ◌>>=◌, unwrap}
use fkie_cad_cwe_checker.Prelude.Powers.{shifted_left_out, shifted_right_out, modulus}
use fkie_cad_cwe_checker.IntermediateRepresentation.Bitvector.{
  bin_op_bitvector, shift_left, shift_right,
}
use fkie_cad_cwe_checker.IntermediateRepresentation.Expression.BinOpType.{
  int_add, int_left, int_right, int_sub,
}
use fkie_cad_cwe_checker.IntermediateRepresentation.Expression.Simplify.{computed, folds}
use fkie_cad_cwe_checker.IntermediateRepresentation.Expression.Simplify.WordLaws.{word_path}

module _ (api : ApInt) (a : Arithmetic api) (value : api.Bitvector → ℕ)
    (laws : IsArithmetic api a value) (others : Others) (s : Variable → Word) where
  abbrev Expr : Type 0
  Expr = Expression api.Bitvector

  abbrev V : Expr → Word
  V = value_of api value others s

  abbrev Goal : Expr → Expr → Type 0
  Goal = Replaces api value others s

  abbrev Typed : Expr → Type 0
  Typed = IsTyped api value others s

  fits : (e : Expr) → Typed e → Fits (V e)
  fits = value_of-Fits api value others s laws.value-lt

  -- The run returns an expression that replaces `e`.
  abbrev pub Returns : Expr → Outcome Expr → Type 0
  Returns e run = (e' : Expr) × (run ≡ ok e') × Goal e e'

  -- The operation on the constants returns the constant of the number `n`.
  abbrev Computes : api.Bitvector → BinOpType → api.Bitvector → ℕ → Type 0
  Computes l op r n =
      (c : api.Bitvector) × (computed api a l op r ≡ ok (const c))
      × (api.width c ≡ api.width l)
      × (value c ≡ n)

  widths :
      (l r : api.Bitvector)
      → Typed (const l)
      → Typed (const r)
      → SameSize (V (const l)) (V (const r))
      → api.width l ≡ api.width r
  unfolding IsTyped evaluate
  widths l r t u e = t.0 ∙ ap (λ n. 8 * n) e ∙ sym u.0

  -- What `computed` does with the result of the crate.
  abbrev returned : Option api.Bitvector → Outcome Expr
  returned result = do
    computed_result ← (unwrap result >>= (λ b. ok (some b)))
    c ← unwrap computed_result
    ok (const c)

  given :
      (l : api.Bitvector) (op : BinOpType) (r : api.Bitvector) (n : ℕ)
      (result : Option api.Bitvector)
      → computed api a l op r ≡ returned result
      → Gives api value result (api.width l) n
      → Computes l op r n
  given l op r n result e (c, p, w) = (c, e ∙ ap returned p, w.0, w.1)

  added :
      (l r : api.Bitvector)
      → api.width l ≡ api.width r
      → Computes l int_add r ((value l + value r) % 2 ^ api.width l)
  unfolding computed bin_op_bitvector
  added l r e = given l int_add r _ (a.checked_add l r) refl (laws.checked_add-Gives l r e)

  subtracted :
      (l r : api.Bitvector)
      → api.width l ≡ api.width r
      → Computes l int_sub r ((value l + (2 ^ api.width l - value r)) % 2 ^ api.width l)
  unfolding computed bin_op_bitvector
  subtracted l r e = given l int_sub r _ (a.checked_sub l r) refl (laws.checked_sub-Gives l r e)

  -- A shift by an amount that a `u64` can hold.
  shifted_left :
      (l r : api.Bitvector)
      → 0 < api.width l
      → value r < 2 ^ 64
      → Computes l int_left r (value l * 2 ^ value r % 2 ^ api.width l)
  unfolding computed bin_op_bitvector shift_left
  shifted_left l r p h = elim (Bool-cases (ltb (value r) (api.width l))) [
    | inl inside ↦
        given l int_left r _ (a.checked_shl (value r) l) (ground (arith, laws.try_to_u64_value r h))
          (laws.checked_shl-Gives (value r) l (ltb→lt (value r) (api.width l) inside))
    | inr outside ↦ (
      a.zero_of (api.width l),
      ground (arith, laws.try_to_u64_value r h),
      (laws.zero_of-Stands (api.width l) p).0,
      (laws.zero_of-Stands (api.width l) p).1
          ∙ sym (shifted_left_out (value l) (api.width l) (value r) (ground arith)),
    )
  ]

  shifted_right :
      (l r : api.Bitvector)
      → 0 < api.width l
      → value r < 2 ^ 64
      → Computes l int_right r (value l / 2 ^ value r)
  unfolding computed bin_op_bitvector shift_right
  shifted_right l r p h = elim (Bool-cases (ltb (value r) (api.width l))) [
    | inl inside ↦
        given l int_right r _ (a.checked_lshr (value r) l)
          (ground (arith, laws.try_to_u64_value r h))
          (laws.checked_lshr-Gives (value r) l (ltb→lt (value r) (api.width l) inside))
    | inr outside ↦ (
      a.zero_of (api.width l),
      ground (arith, laws.try_to_u64_value r h),
      (laws.zero_of-Stands (api.width l) p).0,
      (laws.zero_of-Stands (api.width l) p).1
          ∙ sym (
              shifted_right_out (value l) (api.width l) (value r) (laws.value-lt l) (ground arith)),
    )
  ]

  -- The constant is that of the operation on the words.
  computed-Returns :
      (op : BinOpType) (l r : api.Bitvector) (n : ℕ)
      → Typed (const l)
      → binary_word others op (V (const l)) (V (const r)) ≡ word (V (const l)).size n
      → Computes l op r n
      → Returns (bin_op op (const l) (const r)) (computed api a l op r)
  unfolding IsTyped evaluate
  computed-Returns op l r n t e (c, p, w, v) = (
    const c,
    p,
    (
      (w ∙ t.0 ∙ ap (λ k. 8 * byte_size_from k) (sym w), subst (λ k. 0 < k) (sym w) t.1),
      word_path _ _ (ap byte_size_from w) v ∙ sym e,
    ),
  )

  pub constants-Returns :
      (op : BinOpType) (l r : api.Bitvector)
      → folds op ≡ true
      → Typed (bin_op op (const l) (const r))
      → Returns (bin_op op (const l) (const r)) (computed api a l op r)
  unfolding IsTyped evaluate Operands binary_word plus minus modulus
  constants-Returns int_add l r f t =
      computed-Returns int_add l r _ t.0
        (ap (λ n. word (V (const l)).size ((value l + value r) % 2 ^ n)) (sym t.0.0))
        (added l r (widths l r t.0 t.1 t.2))
  constants-Returns int_sub l r f t =
      computed-Returns int_sub l r _ t.0
        (ap (λ n. word (V (const l)).size ((value l + (2 ^ n - value r)) % 2 ^ n)) (sym t.0.0))
        (subtracted l r (widths l r t.0 t.1 t.2))
  constants-Returns int_left l r f t =
      computed-Returns int_left l r _ t.0
        (ap (λ n. word (V (const l)).size (value l * 2 ^ value r % 2 ^ n)) (sym t.0.0))
        (shifted_left l r t.0.1 t.2)
  constants-Returns int_right l r f t =
      computed-Returns int_right l r _ t.0 refl (shifted_right l r t.0.1 t.2)
  constants-Returns _ l r f t = ground arith
