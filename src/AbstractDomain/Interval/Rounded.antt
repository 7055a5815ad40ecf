-- ===== src/AbstractDomain/Interval/Rounded.antt =====
-- `round_up_to_stride_of` and `round_down_to_stride_of` of
-- src/cwe_checker_lib/src/abstract_domain/interval.rs.
use fkie_cad_cwe_checker.AbstractDomain.Interval.Widening.{
  round_up_to_stride_of, round_down_to_stride_of, ignores_stride, residue,
}
use fkie_cad_cwe_checker.AbstractDomain.Interval.Hints.{narrow}
use fkie_cad_cwe_checker.IntermediateRepresentation.Bitvector.{resize_unsigned, as_bit_length}
use fkie_cad_cwe_checker.IntermediateRepresentation.Bitvector.Overflow.{
  signed_add_overflow_checked-SumChecked, signed_sub_overflow_checked-DifferenceChecked, integer,
}
use fkie_cad_cwe_checker.Prelude.Powers.{pow_even}
use fkie_cad_cwe_checker.Prelude.Outcome.{ok}
use fkie_cad_cwe_checker.Apint.{ApInt}
use fkie_cad_cwe_checker.Apint.Arithmetic.{Arithmetic, IsArithmetic, is_negative, signed_order}
use fkie_cad_cwe_checker.Apint.Signed.{Bounds, IsBounds, Gcd}
use fkie_cad_cwe_checker.IntermediateRepresentation.Bitvector.Yields.{IsWhole}
use fkie_cad_cwe_checker.AbstractDomain.Interval.{Strided, bytesize}
use fkie_cad_cwe_checker.AbstractDomain.Interval.Excess.{resize_unsigned-Stands}
use fkie_cad_cwe_checker.AbstractDomain.Interval.Represented.{integer-width, integer-range}
use fkie_cad_cwe_checker.Prelude.{
  ℕ, ◌+◌, ◌-◌, ◌*◌, ◌/◌, ◌%◌, ◌^◌, ◌<◌, ◌≤◌, ◌≡◌, refl, ap, sym, ◌∙◌, arith, some, none, inl, inr,
  Option, Bool-cases,
}
use mathlib.Core.Path.{subst}
use native.Mathlib.Nat.{mod-eq_of_lt, pow-le-pow_right}
use fkie_cad_cwe_checker.AbstractDomain.Interval.Residue.{residue_lt, residue_least, residue_shift}

small_order : (m half n : ℕ) → m ≡ 2 * half → n < half → signed_order m n ≡ n + m
unfolding is_negative signed_order
small_order m half n e h = ground (arith, e, h)

module _ (api : ApInt) (a : Arithmetic api) (value : api.Bitvector → ℕ)
    (laws : IsArithmetic api a value) (bounds : Bounds api) (limits : IsBounds api bounds value)
    (g : Gcd) where
  -- The least integer of the width from that of `b` on that is at a multiple of the stride above the
  -- start, or nothing if there is none.
  abbrev pub Raised : Strided api a bounds g → api.Bitvector → Option api.Bitvector → Type 0
  Raised i b none =
      (n k : ℕ)
      → n ≡ integer api value i.start + k * i.stride
      → integer api value b ≤ n
      → 2 ^ api.width b + 2 ^ api.width b / 2 ≤ n
  Raised i b (some r) =
      (api.width r ≡ api.width b)
      × (integer api value b ≤ integer api value r)
      × ((n k : ℕ)
          → n ≡ integer api value i.start + k * i.stride
          → integer api value b ≤ n
          → integer api value r ≤ n)

  -- The greatest integer of the width up to that of `b` that is at a multiple of the stride below the end,
  -- or nothing if there is none.
  abbrev pub Cut : Strided api a bounds g → api.Bitvector → Option api.Bitvector → Type 0
  Cut i b none =
      (n k : ℕ)
      → n + k * i.stride ≡ integer api value i.end
      → n ≤ integer api value b
      → n < 2 ^ api.width b / 2
  Cut i b (some r) =
      (api.width r ≡ api.width b)
      × (integer api value r ≤ integer api value b)
      × ((n k : ℕ)
          → n + k * i.stride ≡ integer api value i.end
          → n ≤ integer api value b
          → n ≤ integer api value r)

  -- The difference that is added, as a bitvector of the interval's width.
  difference_bits :
      (q : ℕ) (i : Strided api a bounds g) (w : ℕ)
      → IsWhole api i.start
      → api.width i.start ≡ w
      → w ≤ 64
      → q < 2 ^ w / 2
      → (d : api.Bitvector) × ((resize_unsigned api a
              (a.from_u64 (q % 2 ^ 64))
              (bytesize api a bounds g i)
            ≡ ok d)
          × ((api.width d ≡ w) × (integer api value d ≡ q + 2 ^ w)))
  difference_bits q i w whole e l h =
      let below : 2 ^ w ≤ 2 ^ 64 = pow-le-pow_right (omega arith) l in
      let size : as_bit_length (bytesize api a bounds g i) ≡ w = sym whole.0 ∙ e in
      let fits : q % 2 ^ 64 ≡ q = mod-eq_of_lt (omega (arith, below, h)) in
      let (d, (run, s)) =
        resize_unsigned-Stands api a value laws bounds limits g (q % 2 ^ 64)
          (bytesize api a bounds g i) (omega (arith, fits, below, h))
          (subst (λ v. q % 2 ^ 64 < 2 ^ v) (sym size) (omega (arith, fits, h)))
          (omega (arith, whole.0, whole.1)) in
      (
        d,
        (
          run,
          (
            s.0 ∙ size,
            integer-width api a value laws d w (s.0 ∙ size)
                ∙ ap (signed_order (2 ^ w)) (s.1 ∙ fits)
                ∙ small_order (2 ^ w) (2 ^ w / 2) q (pow_even w (omega (arith, e, whole.1))) h,
          ),
        ),
      )

  -- The difference of two bitvectors at the stride, as the code computes it.
  abbrev StrideBits : Strided api a bounds g → api.Bitvector → api.Bitvector → ℕ → Type 0
  StrideBits i b c w =
      (x : ℕ) × ((y : ℕ) × ((d : api.Bitvector) × ((bounds.try_to_i128 b ≡ some x)
            × (bounds.try_to_i128 c ≡ some y)
            × (resize_unsigned api a (a.from_u64 (residue x y i.stride % 2 ^ 64))
                  (bytesize api a bounds g i)
                ≡ ok d)
            × (api.width d ≡ w)
            × (integer api value d
                ≡ residue (integer api value b) (integer api value c) i.stride + 2 ^ w))))

  stride_bits :
      (i : Strided api a bounds g) (b c : api.Bitvector) (w : ℕ)
      → IsWhole api i.start
      → api.width i.start ≡ w
      → api.width b ≡ w
      → api.width c ≡ w
      → w ≤ 64
      → 0 < i.stride
      → i.stride ≤ 2 ^ w / 2
      → StrideBits i b c w
  unfolding integer
  stride_bits i b c w whole e eb ec l p small =
      let (x, run, at) = limits.try_to_i128_total b (omega (arith, eb, l)) in
      let (y, run', at') = limits.try_to_i128_total c (omega (arith, ec, l)) in
      let shifted =
        residue_shift i.stride x y (integer api value b) (integer api value c) (2 ^ w) (2 ^ 127)
          (subst (λ v. x + 2 ^ v ≡ integer api value b + 2 ^ 127) eb at)
          (subst (λ v. y + 2 ^ v ≡ integer api value c + 2 ^ 127) ec at') in
      let (d, (run_d, (wd, id))) =
        difference_bits (residue x y i.stride) i w whole e l
          (omega (arith, residue_lt i.stride x y p, small)) in
      (x, (y, (d, (run, run', run_d, wd, id ∙ ap (λ q. q + 2 ^ w) shifted))))

  -- Where the stride is at most half of the values of the width, `round_up_to_stride_of` does not panic and
  -- gives the least integer from that of `b` on at the stride.
  pub round_up_to_stride_of-Raised :
      (b : api.Bitvector) (i : Strided api a bounds g)
      → IsWhole api i.start
      → api.width b ≡ api.width i.start
      → i.stride ≤ 2 ^ api.width b / 2
      → (o : Option api.Bitvector) × ((round_up_to_stride_of api a bounds g b i ≡ ok o)
          × Raised i b o)
  unfolding round_up_to_stride_of
  round_up_to_stride_of-Raised b i whole e small =
      elim (Bool-cases (ignores_stride api a bounds g i)) [
        | inl ignores ↦ (some b, (ground arith, (refl, omega arith, (λ n k h l. l))))
        | inr rounds ↦
            let w : ℕ = api.width b in
            let is : ℕ = integer api value i.start in
            let ib : ℕ = integer api value b in
            let p : 0 < i.stride = ground arith in
            let positive : 0 < w = omega (arith, e, whole.1) in
            let (x, (y, (d, (run_x, run_y, run_d, wd, id)))) =
              stride_bits i i.start b w whole (sym e) (sym e) refl
                (omega (arith, e, narrow api a value laws bounds limits g i whole rounds)) p
                small in
            let next : (n k : ℕ)
                → n ≡ is + k * i.stride
                → ib ≤ n
                → ib + residue is ib i.stride ≤ n =
              λ n k h l.
                omega (arith, residue_least i.stride is ib (n - ib) k p (omega (arith, h, l)), l) in
            let (low, high) = integer-range api a value laws b w refl positive in
            elim (signed_add_overflow_checked-SumChecked api a value laws b d (sym wd) positive) [
              | inl (r, run, (wr, exact)) ↦ (
                some r,
                (
                  ground (arith, run_x, run_y, run_d, run),
                  (
                    wr,
                    omega (arith, exact, id),
                    (λ n k h l. omega (arith, exact, id, next n k h l)),
                  ),
                ),
              )
              | inr (run, outside) ↦ (
                none,
                (
                  ground (arith, run_x, run_y, run_d, run),
                  (λ n k h l. elim outside [
                    | inl below ↦ absurd (omega (arith, below, low, id))
                    | inr above ↦ omega (arith, above, id, next n k h l)
                  ]),
                ),
              )
            ]
      ]

  -- Where the stride is at most half of the values of the width, `round_down_to_stride_of` does not panic
  -- and gives the greatest integer up to that of `b` at the stride.
  pub round_down_to_stride_of-Cut :
      (b : api.Bitvector) (i : Strided api a bounds g)
      → IsWhole api i.start
      → api.width i.end ≡ api.width i.start
      → api.width b ≡ api.width i.start
      → i.stride ≤ 2 ^ api.width b / 2
      → (o : Option api.Bitvector) × ((round_down_to_stride_of api a bounds g b i ≡ ok o)
          × Cut i b o)
  unfolding round_down_to_stride_of
  round_down_to_stride_of-Cut b i whole last e small =
      elim (Bool-cases (ignores_stride api a bounds g i)) [
        | inl ignores ↦ (some b, (ground arith, (refl, omega arith, (λ n k h l. l))))
        | inr rounds ↦
            let w : ℕ = api.width b in
            let ie : ℕ = integer api value i.end in
            let ib : ℕ = integer api value b in
            let p : 0 < i.stride = ground arith in
            let positive : 0 < w = omega (arith, e, whole.1) in
            let (x, (y, (d, (run_x, run_y, run_d, wd, id)))) =
              stride_bits i b i.end w whole (sym e) refl (last ∙ sym e)
                (omega (arith, e, narrow api a value laws bounds limits g i whole rounds)) p
                small in
            let previous : (n k : ℕ)
                → n + k * i.stride ≡ ie
                → n ≤ ib
                → n + residue ib ie i.stride ≤ ib =
              λ n k h l.
                omega (arith, residue_least i.stride ib ie (ib - n) k p (omega (arith, h, l)), l) in
            let (low, high) = integer-range api a value laws b w refl positive in
            elim (signed_sub_overflow_checked-DifferenceChecked api a value laws b d (sym wd)
              positive) [
                | inl (r, run, (wr, exact)) ↦ (
                  some r,
                  (
                    ground (arith, run_x, run_y, run_d, run),
                    (
                      wr,
                      omega (arith, exact, id),
                      (λ n k h l. omega (arith, exact, id, previous n k h l)),
                    ),
                  ),
                )
                | inr (run, outside) ↦ (
                  none,
                  (
                    ground (arith, run_x, run_y, run_d, run),
                    (λ n k h l. elim outside [
                      | inl below ↦ omega (arith, below, id, previous n k h l)
                      | inr above ↦ absurd (omega (arith, above, high, id))
                    ]),
                  ),
                )
              ]
      ]
