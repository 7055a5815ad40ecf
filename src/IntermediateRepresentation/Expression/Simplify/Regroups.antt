-- ===== src/IntermediateRepresentation/Expression/Simplify/Regroups.antt =====
-- The constants of two sums or of two differences are added, and all of
-- `substitute_arithmetics_with_constants`.
use fkie_cad_cwe_checker.Prelude.{
  ℕ, ◌≡◌, refl, ap, sym, ◌∙◌, inl, inr, Bool, true, false, ◌&&◌, ◌||◌, if◌then◌else◌,
}
use mathlib.Core.Path.{subst}
use fkie_cad_cwe_checker.Apint.{ApInt}
use fkie_cad_cwe_checker.Apint.Arithmetic.{Arithmetic, IsArithmetic}
use fkie_cad_cwe_checker.IntermediateRepresentation.Variable.{Variable}
use fkie_cad_cwe_checker.IntermediateRepresentation.Expression.{BinOpType, Expression}
use fkie_cad_cwe_checker.IntermediateRepresentation.Expression.Expression.{const, bin_op}
use fkie_cad_cwe_checker.IntermediateRepresentation.Expression.BinOpType.{int_sub, int_add}
use fkie_cad_cwe_checker.IntermediateRepresentation.Expression.Semantics.{evaluate}
use fkie_cad_cwe_checker.IntermediateRepresentation.Expression.Pcode.{
  Word, word, Others, binary_word,
}
use fkie_cad_cwe_checker.IntermediateRepresentation.Expression.Simplify.{
  computed, folds, fold_constants, substitute_arithmetics_with_constants,
}
use fkie_cad_cwe_checker.IntermediateRepresentation.Expression.Simplify.Same.{
  same_bin_op, same_bin_op_sound,
}
use fkie_cad_cwe_checker.IntermediateRepresentation.Expression.Simplify.Typed.{
  Fits, Operands, IsTyped, value_of, value_of-Fits,
}
use fkie_cad_cwe_checker.IntermediateRepresentation.Expression.Simplify.Comparisons.{
  minus-minus, plus-plus, plus-swap,
}
use fkie_cad_cwe_checker.IntermediateRepresentation.Expression.Simplify.Keeps.{Replaces}
use fkie_cad_cwe_checker.IntermediateRepresentation.Expression.Simplify.Joins.{and-both, or-either}
use fkie_cad_cwe_checker.Prelude.Outcome.{Outcome, ok, ◌>>=◌}
use fkie_cad_cwe_checker.IntermediateRepresentation.Expression.Simplify.WordLaws.{word_path}
use fkie_cad_cwe_checker.IntermediateRepresentation.Expression.Simplify.Folding.{
  Returns, constants-Returns,
}

module _ (api : ApInt) (a : Arithmetic api) (value : api.Bitvector → ℕ)
    (laws : IsArithmetic api a value) (others : Others) (s : Variable → Word) where
  abbrev Expr : Type 0
  Expr = Expression api.Bitvector

  abbrev V : Expr → Word
  V = value_of api value others s

  abbrev Goal : Expr → Expr → Type 0
  Goal = Replaces api value others s

  abbrev Typed : Expr → Type 0
  Typed = IsTyped api value others s

  fits : (e : Expr) → Typed e → Fits (V e)
  fits = value_of-Fits api value others s laws.value-lt

  abbrev Run : Expr → Outcome Expr → Type 0
  Run = Returns api a value laws others s

  -- The rewriting changes nothing.
  unchanged : (e : Expr) → Typed e → Run e (ok e)
  unchanged e t = (e, refl, (t, refl))

  -- With the sum of the constants `m` and `r`, the operation `op` of `x` and the sum replaces `e`.
  regrouped :
      (op : BinOpType) (x e : Expr) (m r : api.Bitvector)
      → Typed x
      → Typed (bin_op int_add (const m) (const r))
      → ((w : Word)
          → w ≡ binary_word others int_add (V (const m)) (V (const r))
          → Operands op (V x) w × (binary_word others op (V x) w ≡ V e))
      → Run e (computed api a m int_add r >>= (λ sum. ok (bin_op op x sum)))
  unfolding IsTyped evaluate
  regrouped op x e m r t u law =
      let (sum, p, replaced) = constants-Returns api a value laws others s int_add m r refl u in
      let (operands, w) = law (V sum) replaced.1 in
      (bin_op op x sum, ap (λ o. o >>= (λ z. ok (bin_op op x z))) p, ((t, replaced.0, operands), w))

  difference_of_difference :
      (x : Expr) (m r : api.Bitvector)
      → Typed (bin_op int_sub (bin_op int_sub x (const m)) (const r))
      → Run
          (bin_op int_sub (bin_op int_sub x (const m)) (const r))
          (computed api a m int_add r >>= (λ sum. ok (bin_op int_sub x sum)))
  unfolding IsTyped evaluate Operands binary_word
  difference_of_difference x m r t =
      regrouped int_sub x (bin_op int_sub (bin_op int_sub x (const m)) (const r)) m r t.0.0
        (t.0.1, t.1, sym t.0.2 ∙ t.2)
        (λ w e. (
          t.0.2 ∙ sym (ap (λ z. z.size) e),
          ap (λ z. binary_word others int_sub (V x) z) e
              ∙ ap (word (V x).size) (
                  sym (
                    minus-minus others (V x) (V (const m)) (fits x t.0.0) (fits (const m) t.0.1)
                      t.0.2 (V (const r)) (fits (const r) t.1) t.2)),
        ))

  sum_of_sum :
      (x : Expr) (m r : api.Bitvector)
      → Typed (bin_op int_add (bin_op int_add x (const m)) (const r))
      → Run
          (bin_op int_add (bin_op int_add x (const m)) (const r))
          (computed api a m int_add r >>= (λ sum. ok (bin_op int_add x sum)))
  unfolding IsTyped evaluate Operands binary_word
  sum_of_sum x m r t =
      regrouped int_add x (bin_op int_add (bin_op int_add x (const m)) (const r)) m r t.0.0
        (t.0.1, t.1, sym t.0.2 ∙ t.2)
        (λ w e. (
          t.0.2 ∙ sym (ap (λ z. z.size) e),
          ap (λ z. binary_word others int_add (V x) z) e
              ∙ ap (word (V x).size) (
                  sym (
                    plus-plus others (V x) (V (const m)) (fits x t.0.0) (fits (const m) t.0.1) t.0.2
                      (V (const r)) (fits (const r) t.1) t.2)),
        ))

  constant_first_sum :
      (x : Expr) (m r : api.Bitvector)
      → Typed (bin_op int_add (bin_op int_add (const m) x) (const r))
      → Run
          (bin_op int_add (bin_op int_add (const m) x) (const r))
          (computed api a m int_add r >>= (λ sum. ok (bin_op int_add x sum)))
  unfolding IsTyped evaluate Operands binary_word
  constant_first_sum x m r t =
      let swapped : binary_word others int_add (V x) (V (const m))
          ≡ binary_word others int_add (V (const m)) (V x) =
        word_path _ _ (sym t.0.2) (
          sym (plus-swap others (V (const m)) (V x) (fits (const m) t.0.0) (fits x t.0.1) t.0.2)) in
      let (e', p, replaced) = sum_of_sum x m r ((t.0.1, t.0.0, sym t.0.2), t.1, sym t.0.2 ∙ t.2) in
      (
        e',
        p,
        (replaced.0, replaced.1 ∙ ap (λ z. binary_word others int_add z (V (const r))) swapped),
      )

  fold_differences :
      (left middle : Expr) (r : api.Bitvector)
      → Typed (bin_op int_sub (bin_op int_sub left middle) (const r))
      → Run
          (bin_op int_sub (bin_op int_sub left middle) (const r))
          (fold_constants api a int_sub left middle r)
  unfolding fold_constants same_bin_op
  fold_differences left (const m) r t = difference_of_difference left m r t
  fold_differences (const l) middle r t =
      unchanged (bin_op int_sub (bin_op int_sub (const l) middle) (const r)) t
  fold_differences left middle r t =
      unchanged (bin_op int_sub (bin_op int_sub left middle) (const r)) t

  fold_sums :
      (left middle : Expr) (r : api.Bitvector)
      → Typed (bin_op int_add (bin_op int_add left middle) (const r))
      → Run
          (bin_op int_add (bin_op int_add left middle) (const r))
          (fold_constants api a int_add left middle r)
  unfolding fold_constants same_bin_op
  fold_sums left (const m) r t = sum_of_sum left m r t
  fold_sums (const l) middle r t = constant_first_sum middle l r t
  fold_sums left middle r t = unchanged (bin_op int_add (bin_op int_add left middle) (const r)) t

  if-Returns :
      (guard : Bool) (e : Expr) (run other : Outcome Expr)
      → (guard ≡ true → Run e run)
      → Run e other
      → Run e (if guard then run else other)
  if-Returns true e run other h k = h refl
  if-Returns false e run other h k = k

  nested :
      (op inner_op : BinOpType) (left middle : Expr) (r : api.Bitvector)
      → Typed (bin_op op (bin_op inner_op left middle) (const r))
      → (same_bin_op op int_sub || same_bin_op op int_add) && same_bin_op inner_op op ≡ true
      → Run
          (bin_op op (bin_op inner_op left middle) (const r))
          (fold_constants api a op left middle r)
  nested op inner_op left middle r t guard =
      let (one, is_same) = and-both _ _ guard in
      let same : op ≡ inner_op = sym (same_bin_op_sound inner_op op is_same) in
      let folded : (op' : BinOpType)
          → op' ≡ op
          → ((l m : Expr) (c : api.Bitvector)
              → Typed (bin_op op' (bin_op op' l m) (const c))
              → Run (bin_op op' (bin_op op' l m) (const c)) (fold_constants api a op' l m c))
          → Run (bin_op op (bin_op inner_op left middle) (const r))
              (fold_constants api a op left middle r) =
        λ op' e k.
          subst
            (λ i.
              Run (bin_op op (bin_op i left middle) (const r))
                (fold_constants api a op left middle r))
            same
            (subst
              (λ o.
                Typed (bin_op o (bin_op o left middle) (const r))
                → Run (bin_op o (bin_op o left middle) (const r))
                    (fold_constants api a o left middle r))
              e (k left middle r)
              (subst (λ i. Typed (bin_op op (bin_op i left middle) (const r))) (sym same) t)) in
      elim (or-either _ _ one) [
        | inl is_sub ↦ folded int_sub (sym (same_bin_op_sound op int_sub is_sub)) fold_differences
        | inr is_add ↦ folded int_add (sym (same_bin_op_sound op int_add is_add)) fold_sums
      ]

  pub substitute_arithmetics_with_constants-Returns :
      (e : Expr) → Typed e → Run e (substitute_arithmetics_with_constants api a e)
  unfolding substitute_arithmetics_with_constants
  substitute_arithmetics_with_constants-Returns (bin_op op (const l) (const r)) t =
      if-Returns (folds op) (bin_op op (const l) (const r)) (computed api a l op r)
        (ok (bin_op op (const l) (const r)))
        (λ f. constants-Returns api a value laws others s op l r f t)
        (unchanged (bin_op op (const l) (const r)) t)
  substitute_arithmetics_with_constants-Returns (bin_op op (bin_op inner_op left middle) (const r))
        t =
      if-Returns _ (bin_op op (bin_op inner_op left middle) (const r))
        (fold_constants api a op left middle r) _ (nested op inner_op left middle r t)
        (unchanged (bin_op op (bin_op inner_op left middle) (const r)) t)
  substitute_arithmetics_with_constants-Returns e t = unchanged e t
