-- ===== src/AbstractDomain/Interval/Sound.antt =====
-- The sums and differences of intervals, and those of the bitvectors that they stand for.
use native.Mathlib.Nat.{le_of_mul-le-mul_right}
use fkie_cad_cwe_checker.IntermediateRepresentation.Bitvector.Overflow.{
  SumExact, SumOutside, DifferenceExact, DifferenceOutside,
  signed_sub_overflow_checked-DifferenceChecked, signed_add_overflow_checked-SumChecked,
}
use fkie_cad_cwe_checker.IntermediateRepresentation.Expression.{int_sub}
use fkie_cad_cwe_checker.Prelude.{
  ℕ, ◌+◌, ◌*◌, ◌%◌, ◌^◌, ◌<◌, ◌≡◌, ap, sym, ◌∙◌, arith, some, none, inl, inr, Option, ◌⊎◌, ◌-◌, ◌≤◌,
  zero, suc,
}
use mathlib.Core.Path.{subst, ap₂}
use fkie_cad_cwe_checker.Prelude.Outcome.{ok, ◌>>=◌}
use fkie_cad_cwe_checker.Apint.{ApInt}
use fkie_cad_cwe_checker.Apint.Arithmetic.{Arithmetic, IsArithmetic, Stands}
use fkie_cad_cwe_checker.Apint.Signed.{Bounds, IsBounds, Gcd}
use fkie_cad_cwe_checker.IntermediateRepresentation.Expression.BinOpType.{int_add}
use fkie_cad_cwe_checker.IntermediateRepresentation.Bitvector.{
  bin_op_bitvector, signed_add_overflow_checked, ok_of,
}
use fkie_cad_cwe_checker.IntermediateRepresentation.Bitvector.Yields.{IsWhole}
use fkie_cad_cwe_checker.AbstractDomain.Interval.{
  Strided, new_top, add, bytesize, unless_overflow, signed_sub_overflow_checked, strided, Outcome,
  sub,
}
use fkie_cad_cwe_checker.AbstractDomain.Interval.Represented.{
  Strides, Represents, integer-range, integer-sum, new_top-Represents, integer-difference,
}

-- A multiple of `s` and one of `t`, both multiples of `d`, sum up to one of `d`.
sum_of_multiples : (k l s t d u v : ℕ) → s ≡ u * d → t ≡ v * d → k * s + l * t ≡ (k * u + l * v) * d
sum_of_multiples k l s t d u v e f = omega (arith, ap (λ n. k * n) e, ap (λ n. l * n) f)

sum-Strides :
    (m is ie js je s t u v d ib ic rs re id : ℕ)
    → Strides is ie s ib
    → Strides js je t ic
    → s ≡ u * d
    → t ≡ v * d
    → rs + m ≡ is + js
    → re + m ≡ ie + je
    → id + m ≡ ib + ic
    → Strides rs re d id
sum-Strides m is ie js je s t u v d ib ic rs re id x y e f p q r =
    let (below, (k, z)) = x in
    let (below', (l, z')) = y in
    (
      omega (arith, below, below', q, r),
      (k * u + l * v, omega (arith, z, z', p, r, sum_of_multiples k l s t d u v e f)),
    )

-- A multiple of `t` below another one is a multiple of `t` away from it.
pub difference_of_multiples : (l n t : ℕ) → l * t ≤ n * t → l * t + (n - l) * t ≡ n * t
difference_of_multiples l n zero h = grind arith
difference_of_multiples l n (suc t) h =
    let below : l ≤ n = le_of_mul-le-mul_right h (omega arith) in
    let whole : l + (n - l) ≡ n = omega arith in omega (arith, ap (λ k. k * suc t) whole)

difference-Strides :
    (m is ie js je s t u v d ib ic rs re id : ℕ)
    → Strides is ie s ib
    → Strides js je t ic
    → Strides js je t je
    → s ≡ u * d
    → t ≡ v * d
    → rs + je ≡ is + m
    → re + js ≡ ie + m
    → id + ic ≡ ib + m
    → Strides rs re d id
difference-Strides m is ie js je s t u v d ib ic rs re id x y last e f p q r =
    let (below, (k, z)) = x in
    let (below', (l, z')) = y in
    let (reached, (n, z'')) = last in
    (
      omega (arith, below, z', q, r),
      (
        k * u + (n - l) * v,
        omega (
          arith,
          z,
          z',
          z'',
          p,
          r,
          difference_of_multiples l n t (omega (arith, below', z', z'')),
          sum_of_multiples k (n - l) s t d u v e f,
        ),
      ),
    )

module _ (api : ApInt) (a : Arithmetic api) (value : api.Bitvector → ℕ)
    (laws : IsArithmetic api a value) (bounds : Bounds api) (limits : IsBounds api bounds value)
    (g : Gcd) where
  -- The intervals are of the same size, in whole bytes.
  abbrev pub SameSize : Strided api a bounds g → Strided api a bounds g → Type 0
  SameSize i j =
      IsWhole api i.start
      × ((api.width i.end ≡ api.width i.start)
          × ((api.width j.start ≡ api.width i.start) × (api.width j.end ≡ api.width i.start)))

  -- The interval of two checked bounds stands for `d` if all values of the size do, and if the interval
  -- of the two bounds does when neither of them overflows.
  unless_overflow-Represents :
      (X Y : Type 0) (A B : api.Bitvector → Type 0) (i : Strided api a bounds g)
      (o o' : Outcome (Option api.Bitvector)) (stride : ℕ) (d : api.Bitvector)
      → IsWhole api i.start
      → api.width d ≡ api.width i.start
      → ((start : api.Bitvector) × (o ≡ ok (some start)) × A start) ⊎ ((o ≡ ok none) × X)
      → ((end : api.Bitvector) × (o' ≡ ok (some end)) × B end) ⊎ ((o' ≡ ok none) × Y)
      → ((start end : api.Bitvector)
          → A start
          → B end
          → Represents api value (strided api a bounds g start end stride) d)
      → (r : Strided api a bounds g) × (((o >>= (λ start. o' >>= (λ end.
              ok (unless_overflow api a bounds g (bytesize api a bounds g i) start end stride))))
            ≡ ok r)
          × Represents api value r d)
  unless_overflow-Represents X Y A B i o o' stride d whole width starts ends both =
      let result : Option api.Bitvector → Option api.Bitvector → Strided api a bounds g =
        λ start end. unless_overflow api a bounds g (bytesize api a bounds g i) start end stride in
      let run : (s e : Option api.Bitvector)
          → o ≡ ok s
          → o' ≡ ok e
          → (o >>= (λ start. o' >>= (λ end. ok (result start end)))) ≡ ok (result s e) =
        λ s e h k. ap₂ (λ start end. start >>= (λ s'. end >>= (λ e'. ok (result s' e')))) h k in
      let top : Represents api value (new_top api a bounds g (bytesize api a bounds g i)) d =
        new_top-Represents api a value laws bounds limits g (bytesize api a bounds g i) d
          (omega (arith, whole.0, whole.1)) (width ∙ whole.0) in
      elim starts [
        | inr (rs, out) ↦ elim ends [
          | inr (re, out') ↦ (result none none, (run none none rs re, top))
          | inl (end, re, more) ↦ (result none (some end), (run none (some end) rs re, top))
        ]
        | inl (start, rs, at) ↦ elim ends [
          | inr (re, out') ↦ (result (some start) none, (run (some start) none rs re, top))
          | inl (end, re, at') ↦ (
            result (some start) (some end),
            (run (some start) (some end) rs re, both start end at at'),
          )
        ]
      ]

  -- For intervals of the same size, in whole bytes: `add` does not panic, and its result has the sum
  -- that `bin_op` computes of each two bitvectors that the intervals stand for.
  pub add-Represents :
      (i j : Strided api a bounds g) (b c : api.Bitvector)
      → SameSize i j
      → Represents api value i b
      → Represents api value j c
      → (r : Strided api a bounds g) × ((d : api.Bitvector) × ((add api a bounds g i j ≡ ok r)
            × ((bin_op_bitvector api a b int_add c ≡ ok (some d)) × Represents api value r d)))
  unfolding add bin_op_bitvector
  add-Represents i j b c same x y =
      let w : ℕ = api.width i.start in
      let p : 0 < w = same.0.1 in
      let wb : api.width b ≡ w = x.0 in
      let wc : api.width c ≡ w = y.0 ∙ same.1.1.0 in
      let (d, q, s) = laws.checked_add-Gives b c (wb ∙ sym wc) in
      let sd : Stands api value d w ((value b + value c) % 2 ^ w) =
        subst (λ v. Stands api value d v ((value b + value c) % 2 ^ v)) wb s in
      let at_end : 2 ^ api.width i.end ≡ 2 ^ w = ap (λ v. 2 ^ v) same.1.0 in
      let (u, e) = g.divides_left i.stride j.stride in
      let (v, f) = g.divides_right i.stride j.stride in
      let (r, (run, represents)) =
        unless_overflow-Represents (SumOutside api value i.start j.start)
          (SumOutside api value i.end j.end) (SumExact api value i.start j.start)
          (SumExact api value i.end j.end) i (signed_add_overflow_checked api a i.start j.start)
          (signed_add_overflow_checked api a i.end j.end) (g.gcd i.stride j.stride) d same.0 sd.0
          (signed_add_overflow_checked-SumChecked api a value laws i.start j.start (sym same.1.1.0)
            p)
          (signed_add_overflow_checked-SumChecked api a value laws i.end j.end
            (same.1.0 ∙ sym same.1.1.1) (subst (λ v. 0 < v) (sym same.1.0) p))
          (λ start end (ws, es) (we, ee).
            let (low, high_start) = integer-range api a value laws start w ws p in
            let (low_end, high) = integer-range api a value laws end w (we ∙ same.1.0) p in
            let exact =
              integer-sum api a value laws b c d w wb wc p sd
                (omega (arith, x.1.1.1, y.1.1.1, es, low))
                (omega (arith, x.1.0, y.1.0, ee, at_end, high)) in
            (
              sd.0 ∙ sym ws,
              sum-Strides (2 ^ w) _ _ _ _ i.stride j.stride u v (g.gcd i.stride j.stride) _ _ _ _ _
                  x.1 y.1 e f es (omega (arith, ee, at_end)) exact,
            )) in
      (r, (d, (run, (ap (ok_of api a) q, represents))))

  -- For intervals of the same size, in whole bytes, the end of the second one a value of it: `sub` does
  -- not panic, and its result has the difference that `bin_op` computes of each two bitvectors that
  -- the intervals stand for.
  pub sub-Represents :
      (i j : Strided api a bounds g) (b c : api.Bitvector)
      → SameSize i j
      → Represents api value j j.end
      → Represents api value i b
      → Represents api value j c
      → (r : Strided api a bounds g) × ((d : api.Bitvector) × ((sub api a bounds g i j ≡ ok r)
            × ((bin_op_bitvector api a b int_sub c ≡ ok (some d)) × Represents api value r d)))
  unfolding sub bin_op_bitvector
  sub-Represents i j b c same last x y =
      let w : ℕ = api.width i.start in
      let p : 0 < w = same.0.1 in
      let wb : api.width b ≡ w = x.0 in
      let wc : api.width c ≡ w = y.0 ∙ same.1.1.0 in
      let (d, q, s) = laws.checked_sub-Gives b c (wb ∙ sym wc) in
      let sd : Stands api value d w ((value b + (2 ^ w - value c)) % 2 ^ w) =
        subst (λ v. Stands api value d v ((value b + (2 ^ v - value c)) % 2 ^ v)) wb s in
      let at_end : 2 ^ api.width i.end ≡ 2 ^ w = ap (λ v. 2 ^ v) same.1.0 in
      let (u, e) = g.divides_left i.stride j.stride in
      let (v, f) = g.divides_right i.stride j.stride in
      let (r, (run, represents)) =
        unless_overflow-Represents (DifferenceOutside api value i.start j.end)
          (DifferenceOutside api value i.end j.start) (DifferenceExact api value i.start j.end)
          (DifferenceExact api value i.end j.start) i
          (signed_sub_overflow_checked api a i.start j.end)
          (signed_sub_overflow_checked api a i.end j.start) (g.gcd i.stride j.stride) d same.0 sd.0
          (signed_sub_overflow_checked-DifferenceChecked api a value laws i.start j.end
            (sym same.1.1.1) p)
          (signed_sub_overflow_checked-DifferenceChecked api a value laws i.end j.start
            (same.1.0 ∙ sym same.1.1.0) (subst (λ v. 0 < v) (sym same.1.0) p))
          (λ start end (ws, es) (we, ee).
            let (low, high_start) = integer-range api a value laws start w ws p in
            let (low_end, high) = integer-range api a value laws end w (we ∙ same.1.0) p in
            let exact =
              integer-difference api a value laws b c d w wb wc p sd
                (omega (arith, x.1.1.1, y.1.0, es, low))
                (omega (arith, x.1.0, y.1.1.1, ee, at_end, high)) in
            (
              sd.0 ∙ sym ws,
              difference-Strides (2 ^ w) _ _ _ _ i.stride j.stride u v (g.gcd i.stride j.stride) _ _
                  _ _ _ x.1 y.1 last.1 e f es (omega (arith, ee, at_end)) exact,
            )) in
      (r, (d, (run, (ap (ok_of api a) q, represents))))
