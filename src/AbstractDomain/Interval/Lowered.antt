-- ===== src/AbstractDomain/Interval/Lowered.antt =====
-- `adjust_end_to_value_in_stride` of
-- src/cwe_checker_lib/src/abstract_domain/interval/simple_interval.rs.
use fkie_cad_cwe_checker.Prelude.{
  ℕ, ◌+◌, ◌-◌, ◌*◌, ◌/◌, ◌%◌, ◌^◌, ◌<◌, ◌≤◌, ◌≡◌, ◌==◌, refl, ap, sym, ◌∙◌, arith, some, inl, inr,
  Option-cases, not, ◌&&◌, Bool-cases, if◌then◌else◌,
}
use mathlib.Core.Path.{subst}
use native.Mathlib.Nat.{div-add-mod}
use fkie_cad_cwe_checker.Prelude.Powers.{pow_even}
use fkie_cad_cwe_checker.Prelude.Outcome.{ok}
use fkie_cad_cwe_checker.Apint.{ApInt}
use fkie_cad_cwe_checker.Apint.Arithmetic.{Arithmetic, IsArithmetic, signed_order, Stands}
use fkie_cad_cwe_checker.Apint.Signed.{Bounds, IsBounds, Gcd}
use fkie_cad_cwe_checker.IntermediateRepresentation.Bitvector.Overflow.{integer}
use fkie_cad_cwe_checker.AbstractDomain.Interval.{
  Strided, strided, both, unless_single, adjust_end_to_value_in_stride,
}
use fkie_cad_cwe_checker.AbstractDomain.Interval.Represented.{
  Strides, Represents, integer-width, integer-range,
}
use fkie_cad_cwe_checker.AbstractDomain.Interval.Adjusted.{
  unknown_stride, unless_single-Strides, both_known,
}
use fkie_cad_cwe_checker.AbstractDomain.Interval.Excess.{
  IsOrderedInterval, subtracted_order, to_end-Strides, excess_bits, length-lt, stride-unless_single,
}

module _ (api : ApInt) (a : Arithmetic api) (value : api.Bitvector → ℕ)
    (laws : IsArithmetic api a value) (bounds : Bounds api) (limits : IsBounds api bounds value)
    (g : Gcd) where
  -- The interval starts like `i` and ends at or below it with one of its values, and stands for the bitvectors of `i` at strides above the start.
  abbrev pub EndsWithin : Strided api a bounds g → Strided api a bounds g → Type 0
  EndsWithin i r =
      (r.start ≡ i.start)
      × (api.width r.end ≡ api.width i.start)
      × (integer api value r.end ≤ integer api value i.end)
      × (r.stride ≤ i.stride)
      × Represents api value r r.end
      × ((b : api.Bitvector) (k : ℕ)
          → api.width b ≡ api.width i.start
          → integer api value b ≡ integer api value i.start + k * i.stride
          → integer api value b ≤ integer api value i.end
          → Represents api value r b)

  lowered_end :
      (i : Strided api a bounds g) (d : api.Bitvector)
      → IsOrderedInterval api a value laws bounds limits g i
      → 0 < i.stride
      → Stands api value d
          (api.width i.start)
          ((integer api value i.end - integer api value i.start) % i.stride)
      → (x : api.Bitvector) × ((a.checked_sub i.end d ≡ some x)
          × EndsWithin i (unless_single api a bounds g (strided api a bounds g i.start x i.stride)))
  lowered_end i d ordered positive sd =
      let w : ℕ = api.width i.start in
      let D : ℕ = integer api value i.end - integer api value i.start in
      let we : api.width i.end ≡ w = ordered.1.0 in
      let (x, q, sx) = laws.checked_sub-Gives i.end d (we ∙ sym sd.0) in
      let whole : i.stride * (D / i.stride) + D % i.stride ≡ D = div-add-mod D i.stride in
      let ie = integer-width api a value laws i.end w we in
      let (low, high) = integer-range api a value laws i.start w refl ordered.0.1 in
      let number : value x ≡ (value i.end + (2 ^ w - value d)) % 2 ^ w =
        sx.1 ∙ ap (λ v. (value i.end + (2 ^ v - value d)) % 2 ^ v) we in
      let moved : signed_order (2 ^ w) ((value i.end + (2 ^ w - value d)) % 2 ^ w) + value d
          ≡ signed_order (2 ^ w) (value i.end) =
        subtracted_order (2 ^ w) (2 ^ w / 2) (value i.end) (value d)
          (subst (λ v. value i.end < 2 ^ v) we (laws.value-lt i.end))
          (omega (arith, sd.1, whole, length-lt api a value laws bounds limits g i ordered))
          (pow_even w ordered.0.1) (omega (arith, ie, sd.1, whole, low, ordered.1.1)) in
      let ix = integer-width api a value laws x w (sx.0 ∙ we) in
      let at : integer api value x ≡ integer api value i.end - D % i.stride =
        omega (arith, ix, ap (signed_order (2 ^ w)) number, moved, ie, sd.1) in
      (
        x,
        (
          q,
          (
            refl,
            sx.0 ∙ we,
            omega (arith, at),
            stride-unless_single api a value laws bounds limits g
                (strided api a bounds g i.start x i.stride),
            (
              sx.0 ∙ we,
              unless_single-Strides api a value laws bounds limits g i.start x i.stride
                  (integer api value x)
                  (omega arith, (D / i.stride, omega (arith, at, whole, ordered.1.1))),
            ),
            (λ b k wb e l. (
              wb,
              unless_single-Strides api a value laws bounds limits g i.start x i.stride
                  (integer api value b)
                  (subst (λ n. Strides (integer api value i.start) n i.stride (integer api value b))
                    (sym at)
                    (to_end-Strides (integer api value i.start) (integer api value i.end) i.stride k
                      (integer api value b) positive e l)),
            )),
          ),
        ),
      )

  pub adjust_end_to_value_in_stride-Ends :
      (i : Strided api a bounds g)
      → IsOrderedInterval api a value laws bounds limits g i
      → (r : Strided api a bounds g) × ((adjust_end_to_value_in_stride api a bounds g i ≡ ok r)
          × EndsWithin i r)
  unfolding adjust_end_to_value_in_stride
  adjust_end_to_value_in_stride-Ends i ordered = elim (Bool-cases (i.stride == 0)) [
    | inl zero ↦
        let none_left : i.stride ≡ 0 = ground arith in
        (
          strided api a bounds g i.start i.start 0,
          (
            ground arith,
            (
              refl,
              refl,
              ordered.1.1,
              omega arith,
              (refl, (omega arith, (0, omega arith))),
              (λ b k w e l. (
                w,
                (
                  omega (arith, e, ap (λ x. k * x) none_left),
                  (0, omega (arith, e, ap (λ x. k * x) none_left)),
                ),
              )),
            ),
          ),
        )
    | inr positive ↦ elim (Bool-cases (i.stride == 1 && not (a.equal i.start i.end))) [
      | inl unit ↦
          let D : ℕ = integer api value i.end - integer api value i.start in
          let one : i.stride ≡ 1 = ground arith in
          (
            i,
            (
              ground arith,
              (
                refl,
                ordered.1.0,
                omega arith,
                omega arith,
                (ordered.1.0, (omega arith, (D, omega (arith, ap (λ x. D * x) one, ordered.1.1)))),
                (λ b k w e l. (w, (l, (k, e)))),
              ),
            ),
          )
      | inr general ↦
          elim (Option-cases
            (both api a bounds g (api.try_to_i64 i.start) (api.try_to_i64 i.end))) [
              | inl wide ↦ (
                strided api a bounds g i.start i.end (if a.equal i.start i.end then 0 else 1),
                (
                  ground arith,
                  (
                    refl,
                    ordered.1.0,
                    omega arith,
                    ground arith,
                    (
                      ordered.1.0,
                      unknown_stride api a value laws bounds limits g i.start i.end
                          (integer api value i.end) ordered.1.1 (omega arith),
                    ),
                    (λ b k w e l. (
                      w,
                      unknown_stride api a value laws bounds limits g i.start i.end
                          (integer api value b) (omega (arith, e)) l,
                    )),
                  ),
                ),
              )
              | inr ((start, end), known) ↦
                  let (h, k) = both_known api a value laws bounds limits g _ _ start end known in
                  let (d, (q, sd)) =
                    excess_bits api a value laws bounds limits g i start end ordered h k in
                  let (x, (q', within)) = lowered_end i d ordered (ground arith) sd in
                  (
                    unless_single api a bounds g (strided api a bounds g i.start x i.stride),
                    (ground (arith, known, q, q'), within),
                  )
            ]
    ]
  ]
