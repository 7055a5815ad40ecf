-- ===== src/IntermediateRepresentation/Expression/Simplify/Constants.antt =====
-- The rewriting of an operation with one constant operand.
use fkie_cad_cwe_checker.IntermediateRepresentation.Expression.Expression.{const, un_op, bin_op}
use fkie_cad_cwe_checker.Prelude.{
  ℕ, ◌+◌, ◌^◌, ◌≡◌, refl, sym, inl, inr, Bool, true, ◌&&◌, Option, some, none, List, [], ◌∷◌, arith,
  if◌then◌else◌,
}
use mathlib.Core.Path.{subst}
use fkie_cad_cwe_checker.Prelude.Powers.{modulus}
use fkie_cad_cwe_checker.Apint.{ApInt, byte_size_from}
use fkie_cad_cwe_checker.Apint.Arithmetic.{Arithmetic, IsArithmetic}
use fkie_cad_cwe_checker.IntermediateRepresentation.Variable.{Variable}
use fkie_cad_cwe_checker.IntermediateRepresentation.Expression.{BinOpType}
use fkie_cad_cwe_checker.IntermediateRepresentation.Expression.BinOpType.{
  bool_x_or, bool_and, bool_or,
}
use fkie_cad_cwe_checker.IntermediateRepresentation.Expression.UnOpType.{bool_negate}
use fkie_cad_cwe_checker.IntermediateRepresentation.Expression.Semantics.{evaluate}
use fkie_cad_cwe_checker.IntermediateRepresentation.Expression.Pcode.{Word, Others}
use fkie_cad_cwe_checker.IntermediateRepresentation.Expression.Simplify.{
  constant_first, with_constant, or_zero, and_ones, bool_with_constant, first_arm,
  substitute_and_xor_or_with_constant, absorbs_zero, absorbs_ones,
}
use fkie_cad_cwe_checker.IntermediateRepresentation.Expression.Simplify.Typed.{
  IsTyped, value_of-Fits,
}
use fkie_cad_cwe_checker.IntermediateRepresentation.Expression.Simplify.WordLaws.{
  zero-neutral, ones-neutral, and_false, and_true, or_true, xor_true, commutes,
}
use fkie_cad_cwe_checker.IntermediateRepresentation.Expression.Simplify.Keeps.{
  on_some, or_else-some, Keeps, unwrap_or-Keeps, either_order-Keeps, Keeps-refl,
}
use fkie_cad_cwe_checker.IntermediateRepresentation.Expression.Simplify.EqualOperands.{
  Expr, V, Typed, Goal,
}

module _ (api : ApInt) (a : Arithmetic api) (value : api.Bitvector → ℕ)
    (laws : IsArithmetic api a value) (others : Others) (s : Variable → Word) where
  abbrev ArmKeeps :
      BinOpType
      → (api.Bitvector → Expr api a value laws others s → Option (Expr api a value laws others s))
      → Type 0
  ArmKeeps op arm =
      (c : api.Bitvector) (other e' : Expr api a value laws others s)
      → arm c other ≡ some e'
      → (commutes op ≡ true) × Keeps api value others s (bin_op op (const c) other) e'

  constant_first-Keeps :
      (op : BinOpType)
      (arm : api.Bitvector
        → Expr api a value laws others s
        → Option (Expr api a value laws others s))
      → ArmKeeps op arm
      → (lhs rhs e' : Expr api a value laws others s) → constant_first api a arm lhs rhs ≡ some e'
      → (commutes op ≡ true) × Keeps api value others s (bin_op op lhs rhs) e'
  unfolding constant_first
  constant_first-Keeps op arm k (const c) rhs e' h = k c rhs e' h
  constant_first-Keeps op arm k _ rhs e' h = cc

  pub with_constant-Keeps :
      (op : BinOpType)
      (arm : api.Bitvector
        → Expr api a value laws others s
        → Option (Expr api a value laws others s))
      → ArmKeeps op arm
      → (lhs rhs e' : Expr api a value laws others s) → with_constant api a arm lhs rhs ≡ some e'
      → Keeps api value others s (bin_op op lhs rhs) e'
  unfolding with_constant
  with_constant-Keeps op arm k =
      either_order-Keeps api value others s op (constant_first api a arm)
        (λ lhs rhs e' h. (constant_first-Keeps op arm k lhs rhs e' h).0)
        (λ lhs rhs e' h. (constant_first-Keeps op arm k lhs rhs e' h).1)

  -- An arm with a guard, which returns `e`.
  guarded :
      (op : BinOpType) (guard : Bool) (c : api.Bitvector)
      (other f e' : Expr api a value laws others s)
      → (guard ≡ true → commutes op ≡ true)
      → (guard ≡ true
          → Typed api a value laws others s (bin_op op (const c) other)
          → Goal api a value laws others s (bin_op op (const c) other) f)
      → (if guard then some f else none) ≡ some e'
      → (commutes op ≡ true) × Keeps api value others s (bin_op op (const c) other) e'
  guarded op guard c other f e' swaps k h =
      let (g, p) = on_some guard f e' h in
      (swaps g, λ t. subst (Goal api a value laws others s (bin_op op (const c) other)) p (k g t))

  zero-commutes : (op : BinOpType) → absorbs_zero op ≡ true → commutes op ≡ true
  zero-commutes op h = ground arith

  ones-commutes : (op : BinOpType) → absorbs_ones op ≡ true → commutes op ≡ true
  ones-commutes op h = ground arith

  and-left : (b c : Bool) → b && c ≡ true → b ≡ true
  and-left b c h = ground arith

  and-right : (b c : Bool) → b && c ≡ true → c ≡ true
  and-right b c h = ground arith

  pub zero_value : (c : api.Bitvector) → a.is_zero c ≡ true → value c ≡ 0
  zero_value c h = ground (arith, laws.is_zero_iff c)

  pub one_value : (c : api.Bitvector) → a.is_one c ≡ true → value c ≡ 1
  one_value c h = ground (arith, laws.is_one_iff c)

  ones_value :
      (c : api.Bitvector)
      → a.is_zero (a.into_bitnot c) ≡ true
      → Typed api a value laws others s (const c)
      → value c + 1 ≡ modulus (byte_size_from (api.width c))
  unfolding IsTyped modulus
  ones_value c h t =
      subst (λ n. value c + 1 ≡ 2 ^ n) t.0
        (omega
          (arith, zero_value (a.into_bitnot c) h, (laws.into_bitnot-Stands c).1, laws.value-lt c))

  or_zero-Keeps : (op : BinOpType) → ArmKeeps op (or_zero api a op)
  unfolding or_zero IsTyped evaluate
  or_zero-Keeps op c other e' h =
      guarded op (a.is_zero c && absorbs_zero op) c other other e'
        (λ g. zero-commutes op (and-right (a.is_zero c) (absorbs_zero op) g))
        (λ g t. (
          t.1,
          sym (
              zero-neutral others op (V api a value laws others s (const c))
                (V api a value laws others s other) (and-right (a.is_zero c) (absorbs_zero op) g)
                t.2 (zero_value c (and-left (a.is_zero c) (absorbs_zero op) g))),
        ))
        h

  and_ones-Keeps : (op : BinOpType) → ArmKeeps op (and_ones api a op)
  unfolding and_ones IsTyped evaluate
  and_ones-Keeps op c other e' h =
      let ones : Bool = a.is_zero (a.into_bitnot c) in
      guarded op (ones && absorbs_ones op) c other other e'
        (λ g. ones-commutes op (and-right ones (absorbs_ones op) g))
        (λ g t. (
          t.1,
          sym (
              ones-neutral others op (V api a value laws others s (const c))
                (V api a value laws others s other) (and-right ones (absorbs_ones op) g) t.2
                (value_of-Fits api value others s laws.value-lt other t.1)
                (ones_value c (and-left ones (absorbs_ones op) g) t.0)),
        ))
        h

  -- Every arm of a list keeps the value.
  AllKeep :
      BinOpType
      → List
          (api.Bitvector → Expr api a value laws others s → Option (Expr api a value laws others s))
      → Type 0
  AllKeep op [] = Unit {0}
  AllKeep op (arm ∷ arms) = ArmKeeps op arm × AllKeep op arms

  bool_with_constant-AllKeep : (op : BinOpType) → AllKeep op (bool_with_constant api a op)
  unfolding AllKeep bool_with_constant IsTyped evaluate
  bool_with_constant-AllKeep bool_and = (
    λ c other e' h.
        guarded bool_and (a.is_zero c) c other (const c) e' (λ _. refl)
          (λ g t. (
            t.0,
            sym (
                and_false others (V api a value laws others s (const c))
                  (V api a value laws others s other) t.2 (zero_value c g)),
          ))
          h,
    (
      λ c other e' h.
          guarded bool_and (a.is_one c) c other other e' (λ _. refl)
            (λ g t. (
              t.1,
              sym (
                  and_true others (V api a value laws others s (const c))
                    (V api a value laws others s other) t.2 (one_value c g)),
            ))
            h,
      tt,
    ),
  )
  bool_with_constant-AllKeep bool_or = (
    λ c other e' h.
        guarded bool_or (a.is_one c) c other (const c) e' (λ _. refl)
          (λ g t. (
            t.0,
            sym (
                or_true others (V api a value laws others s (const c))
                  (V api a value laws others s other) t.2 (one_value c g)),
          ))
          h,
    tt,
  )
  bool_with_constant-AllKeep bool_x_or = (
    λ c other e' h.
        guarded bool_x_or (a.is_one c) c other (un_op bool_negate other) e' (λ _. refl)
          (λ g t. (
            (t.1, t.2.1),
            sym (
                xor_true others (V api a value laws others s (const c))
                  (V api a value laws others s other) t.2 (one_value c g)),
          ))
          h,
    tt,
  )
  bool_with_constant-AllKeep _ = tt

  first_arm-Keeps :
      (op : BinOpType)
      (arms : List
        (api.Bitvector → Expr api a value laws others s → Option (Expr api a value laws others s)))
      → AllKeep op arms
      → (lhs rhs e' : Expr api a value laws others s) → first_arm api a arms lhs rhs ≡ some e'
      → Keeps api value others s (bin_op op lhs rhs) e'
  unfolding first_arm AllKeep
  first_arm-Keeps op [] k lhs rhs e' h = cc
  first_arm-Keeps op (arm ∷ arms) k lhs rhs e' h =
      elim (or_else-some (with_constant api a arm lhs rhs) (first_arm api a arms lhs rhs) e' h) [
        | inl l ↦ with_constant-Keeps op arm k.0 lhs rhs e' l
        | inr r ↦ first_arm-Keeps op arms k.1 lhs rhs e' r
      ]

  pub substitute_and_xor_or_with_constant-Keeps :
      (e : Expr api a value laws others s)
      → Keeps api value others s e (substitute_and_xor_or_with_constant api a e)
  unfolding substitute_and_xor_or_with_constant AllKeep
  substitute_and_xor_or_with_constant-Keeps (bin_op op lhs rhs) =
      let arms = or_zero api a op ∷ and_ones api a op ∷ bool_with_constant api a op in
      unwrap_or-Keeps api value others s (first_arm api a arms lhs rhs) (bin_op op lhs rhs) (
        first_arm-Keeps op arms
          (or_zero-Keeps op, (and_ones-Keeps op, bool_with_constant-AllKeep op)) lhs rhs)
  substitute_and_xor_or_with_constant-Keeps e = Keeps-refl api value others s e
