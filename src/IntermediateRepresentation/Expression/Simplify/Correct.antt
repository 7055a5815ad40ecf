-- ===== src/IntermediateRepresentation/Expression/Simplify/Correct.antt =====
-- The whole of `substitute_trivial_operations` returns, and keeps the value and the size of a typed
-- expression, unless it meets a comparison of a difference with the constant 1.
use fkie_cad_cwe_checker.IntermediateRepresentation.Expression.Simplify.Same.{same_bin_op}
use fkie_cad_cwe_checker.IntermediateRepresentation.Expression.Simplify.Comparisons.{
  difference-equal,
}
use fkie_cad_cwe_checker.Prelude.{
  ℕ, ◌+◌, ◌≤◌, ◌≡◌, refl, ap, sym, ◌∙◌, Bool, true, not, ◌&&◌, ◌==◌, arith, ◌↔◌,
}
use mathlib.Core.Path.{subst, ap₂}
use fkie_cad_cwe_checker.Prelude.Outcome.{Outcome, ok, ◌>>=◌}
use fkie_cad_cwe_checker.Apint.{ApInt}
use fkie_cad_cwe_checker.Apint.Arithmetic.{Arithmetic, IsArithmetic}
use fkie_cad_cwe_checker.IntermediateRepresentation.Variable.{Variable}
use fkie_cad_cwe_checker.IntermediateRepresentation.Expression.{BinOpType, Expression, bytesize}
use fkie_cad_cwe_checker.IntermediateRepresentation.Expression.Expression.{
  var, const, bin_op, un_op, cast, unknown, subpiece,
}
use fkie_cad_cwe_checker.IntermediateRepresentation.Expression.BinOpType.{
  int_equal, int_not_equal, int_sub,
}
use fkie_cad_cwe_checker.IntermediateRepresentation.Expression.Semantics.{evaluate}
use fkie_cad_cwe_checker.IntermediateRepresentation.Expression.Pcode.{
  Word, Others, binary_word, minus, unary_word, cast_word, subpiece_word, truth,
}
use fkie_cad_cwe_checker.IntermediateRepresentation.Expression.Simplify.{
  substitute_binop_for_lhs_equal_rhs, substitute_and_xor_or_with_constant,
  substitute_equivalent_comparison_ops, substitute_complicated_a_less_than_b,
  substitute_trivial_binops, substitute_trivial_operations, substitute_subpiece, substitute_cast,
  substitute_un_op, equivalent_comparison, with_constant, constant_first, difference_with_constant,
}
use fkie_cad_cwe_checker.IntermediateRepresentation.Expression.Simplify.Typed.{
  IsTyped, value_of, value_of-size, Operands, Operand, Extends, value_of-Fits,
}
use fkie_cad_cwe_checker.IntermediateRepresentation.Expression.Simplify.Keeps.{Replaces}
use fkie_cad_cwe_checker.IntermediateRepresentation.Expression.Simplify.Constants.{
  substitute_and_xor_or_with_constant-Keeps,
}
use fkie_cad_cwe_checker.IntermediateRepresentation.Expression.Simplify.EqualOperands.{
  substitute_binop_for_lhs_equal_rhs-Keeps,
}
use fkie_cad_cwe_checker.IntermediateRepresentation.Expression.Simplify.Joins.{and-both}
use fkie_cad_cwe_checker.IntermediateRepresentation.Expression.Simplify.Differences.{
  avoids_one, substitute_equivalent_comparison_ops-Keeps,
}
use fkie_cad_cwe_checker.IntermediateRepresentation.Expression.Simplify.Borrows.{
  substitute_complicated_a_less_than_b-Keeps,
}
use fkie_cad_cwe_checker.IntermediateRepresentation.Expression.Simplify.Folding.{Returns}
use fkie_cad_cwe_checker.IntermediateRepresentation.Expression.Simplify.Regroups.{
  substitute_arithmetics_with_constants-Returns,
}
use fkie_cad_cwe_checker.IntermediateRepresentation.Expression.Simplify.Shapes.{
  substitute_subpiece-Keeps,
}
use fkie_cad_cwe_checker.IntermediateRepresentation.Expression.Simplify.Casts.{
  substitute_cast-Keeps, substitute_un_op-Keeps,
}

-- The test of a difference `d` for being 1, and of its operands for being different.
one_difference-le :
    (x y d v : ℕ)
    → v ≡ 1
    → (d == 0) ≡ (x == y)
    → (truth (not (x == y))).bits ≡ (truth (v == d)).bits
    → d ≤ 1
one_difference-le x y d v h k l = ground arith

one_difference : (x y d v : ℕ) → v ≡ 1 → (d == 0) ≡ (x == y) → d ≤ 1 → not (x == y) ≡ (v == d)
one_difference x y d v h k l = ground arith

module _ (api : ApInt) (a : Arithmetic api) where
  -- What `substitute_equivalent_comparison_ops` is called with.
  abbrev prepared : Expression api.Bitvector → Expression api.Bitvector
  prepared e =
      substitute_and_xor_or_with_constant api a (substitute_binop_for_lhs_equal_rhs api a e)

  abbrev prepared_avoids :
      BinOpType → Outcome (Expression api.Bitvector) → Outcome (Expression api.Bitvector) → Bool
  prepared_avoids op (ok lhs) (ok rhs) = avoids_one api a (prepared (bin_op op lhs rhs))
  prepared_avoids op _ _ = true

  -- No comparison of a difference with 1 comes up in the run.
  unfoldable pub run_avoids_one : Expression api.Bitvector → Bool
  run_avoids_one (var v) = true
  run_avoids_one (const c) = true
  run_avoids_one (unknown description size) = true
  run_avoids_one (subpiece low_byte size arg) = run_avoids_one arg
  run_avoids_one (cast op size arg) = run_avoids_one arg
  run_avoids_one (un_op op arg) = run_avoids_one arg
  run_avoids_one (bin_op op lhs rhs) =
      (run_avoids_one lhs && run_avoids_one rhs)
      && prepared_avoids op (substitute_trivial_operations api a lhs)
          (substitute_trivial_operations api a rhs)

module _ (api : ApInt) (a : Arithmetic api) (value : api.Bitvector → ℕ)
    (laws : IsArithmetic api a value) (others : Others) (s : Variable → Word) where
  abbrev Expr : Type 0
  Expr = Expression api.Bitvector

  abbrev V : Expr → Word
  V = value_of api value others s

  abbrev Goal : Expr → Expr → Type 0
  Goal = Replaces api value others s

  abbrev Typed : Expr → Type 0
  Typed = IsTyped api value others s

  abbrev Run : Expr → Outcome Expr → Type 0
  Run = Returns api a value laws others s

  substitute_trivial_binops-Returns :
      (e : Expr)
      → avoids_one api a (prepared api a e) ≡ true
      → Typed e
      → Run e (substitute_trivial_binops api a e)
  unfolding substitute_trivial_binops
  substitute_trivial_binops-Returns e h t =
      let first : Expr = substitute_binop_for_lhs_equal_rhs api a e in
      let second : Expr = substitute_and_xor_or_with_constant api a first in
      let third : Expr = substitute_equivalent_comparison_ops api a second in
      let fourth : Expr = substitute_complicated_a_less_than_b api a third in
      let (typed1, v1) = substitute_binop_for_lhs_equal_rhs-Keeps api a value laws others s e t in
      let (typed2, v2) =
        substitute_and_xor_or_with_constant-Keeps api a value laws others s first typed1 in
      let (typed3, v3) =
        substitute_equivalent_comparison_ops-Keeps api a value laws others s second h typed2 in
      let (typed4, v4) =
        substitute_complicated_a_less_than_b-Keeps api a value laws others s third typed3 in
      let (e', r, replaced) =
        substitute_arithmetics_with_constants-Returns api a value laws others s fourth typed4 in
      (e', r, (replaced.0, replaced.1 ∙ v4 ∙ v3 ∙ v2 ∙ v1))

  -- A step on the substituted argument.
  then_step :
      (e arg : Expr) (step : Expr → Expr) (run : Outcome Expr)
      → Run arg run
      → ((arg' : Expr) → Goal arg arg' → Goal e (step arg'))
      → Run e (run >>= (λ substituted. ok (step substituted)))
  then_step e arg step run (arg', r, replaced) k =
      (step arg', ap (λ o. o >>= (λ z. ok (step z))) r, k arg' replaced)

  -- For every expression that is typed in the state of the registers, and in whose rewriting no
  -- comparison of a difference with the constant 1 comes up, the rewriting returns an expression
  -- that is typed in the state and has the value of the original.
  pub substitute_trivial_operations-Returns :
      (e : Expr)
      → run_avoids_one api a e ≡ true
      → Typed e
      → Run e (substitute_trivial_operations api a e)
  unfolding substitute_trivial_operations run_avoids_one IsTyped evaluate
  substitute_trivial_operations-Returns (var v) h t = (var v, refl, (t, refl))
  substitute_trivial_operations-Returns (const c) h t = (const c, refl, (t, refl))
  substitute_trivial_operations-Returns (unknown description size) h t =
      (unknown description size, refl, (t, refl))
  substitute_trivial_operations-Returns (subpiece low_byte size arg) h t =
      then_step (subpiece low_byte size arg) arg (substitute_subpiece api a low_byte size) _
        (substitute_trivial_operations-Returns arg h t.0)
        (λ arg' r.
          let (typed, v) =
            substitute_subpiece-Keeps api a value laws others s low_byte size arg'
              (r.0, subst (λ w. low_byte + size ≤ w.size) (sym r.1) t.1, t.2) in
          (typed, v ∙ ap (subpiece_word others low_byte size) r.1))
  substitute_trivial_operations-Returns (cast op size arg) h t =
      then_step (cast op size arg) arg (substitute_cast api a op size) _
        (substitute_trivial_operations-Returns arg h t.0)
        (λ arg' r.
          let (typed, v) =
            substitute_cast-Keeps api a value laws others s op size arg'
              (r.0, subst (Extends op size) (sym r.1) t.1, t.2) in
          (typed, v ∙ ap (cast_word others op size) r.1))
  substitute_trivial_operations-Returns (un_op op arg) h t =
      then_step (un_op op arg) arg (substitute_un_op api a op) _
        (substitute_trivial_operations-Returns arg h t.0)
        (λ arg' r.
          let (typed, v) =
            substitute_un_op-Keeps api a value laws others s op arg'
              (r.0, subst (Operand op) (sym r.1) t.1) in
          (typed, v ∙ ap (unary_word others op) r.1))
  substitute_trivial_operations-Returns (bin_op op lhs rhs) h t =
      let (avoid_operands, avoid_step) = and-both _ _ h in
      let (avoid_lhs, avoid_rhs) = and-both _ _ avoid_operands in
      let (lhs', p, l) = substitute_trivial_operations-Returns lhs avoid_lhs t.0 in
      let (rhs', q, r) = substitute_trivial_operations-Returns rhs avoid_rhs t.1 in
      let operands : Operands op (V lhs') (V rhs') =
        subst (λ w. Operands op w (V rhs')) (sym l.1)
          (subst (λ w. Operands op (V lhs) w) (sym r.1) t.2) in
      let (e', returned, replaced) =
        substitute_trivial_binops-Returns (bin_op op lhs' rhs')
          (sym (ap₂ (prepared_avoids api a op) p q) ∙ avoid_step) (l.0, r.0, operands) in
      (
        e',
        ap₂ (λ o o'. o >>= (λ x. o' >>= (λ y. substitute_trivial_binops api a (bin_op op x y)))) p q
            ∙ returned,
        (replaced.0, replaced.1 ∙ ap₂ (binary_word others op) l.1 r.1),
      )

  -- The expression that the rewriting returns for an expression that is typed in the state of the
  -- registers, and in whose rewriting no comparison of a difference with the constant 1 comes up, has
  -- the size in bytes of the original.
  pub bytesize-substitute_trivial_operations :
      (e : Expr)
      → run_avoids_one api a e ≡ true
      → Typed e
      → (e' : Expr) × (substitute_trivial_operations api a e ≡ ok e')
        × (bytesize api e' ≡ bytesize api e)
  bytesize-substitute_trivial_operations e h t =
      let (e', p, replaced) = substitute_trivial_operations-Returns e h t in
      (
        e',
        p,
        sym (value_of-size api value others s e' replaced.0)
            ∙ ap (λ w. w.size) replaced.1
            ∙ value_of-size api value others s e t,
      )

  -- For typed operands of the same size, and a constant that is 1 and not 0: the rewriting turns the
  -- test of their difference for being 1 into the test of the operands for being different, which
  -- has the value of the original exactly if the difference is 0 or 1.
  pub substitute_equivalent_comparison_ops-one :
      (c : api.Bitvector) (x y : Expr)
      → a.is_one c ≡ true
      → Typed x
      → Typed y
      → (V x).size ≡ (V y).size
      → (substitute_equivalent_comparison_ops api a
            (bin_op int_equal (const c) (bin_op int_sub x y))
          ≡ bin_op int_not_equal x y)
        × ((V (bin_op int_not_equal x y) ≡ V (bin_op int_equal (const c) (bin_op int_sub x y)))
            ↔ (minus (V x) (V y) ≤ 1))
  unfolding substitute_equivalent_comparison_ops equivalent_comparison with_constant constant_first
      difference_with_constant same_bin_op evaluate binary_word
  substitute_equivalent_comparison_ops-one c x y h t u e =
      let one : value c ≡ 1 = ground (arith, laws.is_one_iff c) in
      let zero : (minus (V x) (V y) == 0) ≡ ((V x).bits == (V y).bits) =
        difference-equal (V x) (V y) (value_of-Fits api value others s laws.value-lt x t)
          (value_of-Fits api value others s laws.value-lt y u) e in
      (
        ground (arith, laws.is_one_iff c, laws.is_zero_iff c),
        (
          λ q.
              one_difference-le (V x).bits (V y).bits (minus (V x) (V y)) (value c) one zero
                (ap (λ w. w.bits) q),
          λ k.
              ap truth
                (one_difference (V x).bits (V y).bits (minus (V x) (V y)) (value c) one zero k),
        ),
      )
