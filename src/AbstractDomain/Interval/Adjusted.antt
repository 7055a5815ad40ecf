-- ===== src/AbstractDomain/Interval/Adjusted.antt =====
-- `adjust_start_to_value_in_stride` of
-- src/cwe_checker_lib/src/abstract_domain/interval/simple_interval.rs.
use fkie_cad_cwe_checker.AbstractDomain.Interval.{
  adjust_start_to_value_in_stride, Strided, both, unless_single, strided,
}
use native.Mathlib.Nat.{div-add-mod}
use fkie_cad_cwe_checker.Prelude.{
  ℕ, ◌+◌, ◌-◌, ◌*◌, ◌/◌, ◌%◌, ◌^◌, ◌<◌, ◌≤◌, ◌≡◌, refl, ap, ◌∙◌, arith, some, inl, inr,
  below_or_not, ◌==◌, not, ◌&&◌, sym, Bool-cases, if◌then◌else◌, none, Option-cases, Option,
}
use mathlib.Core.Path.{subst}
use fkie_cad_cwe_checker.Prelude.Powers.{pow_even}
use fkie_cad_cwe_checker.Prelude.Outcome.{ok}
use fkie_cad_cwe_checker.Apint.{ApInt}
use fkie_cad_cwe_checker.Apint.Arithmetic.{Arithmetic, IsArithmetic, signed_order, Stands}
use fkie_cad_cwe_checker.Apint.Signed.{Bounds, IsBounds, Gcd}
use fkie_cad_cwe_checker.IntermediateRepresentation.Bitvector.{resize_unsigned, as_bit_length}
use fkie_cad_cwe_checker.IntermediateRepresentation.Bitvector.Overflow.{integer}
use fkie_cad_cwe_checker.AbstractDomain.Interval.Represented.{
  Strides, integer-width, integer-range, Represents,
}
use fkie_cad_cwe_checker.AbstractDomain.Interval.Excess.{
  added_order, from_start-Strides, single-Strides, IsOrderedInterval, length-lt, excess_bits,
  stride-unless_single,
}

module _ (api : ApInt) (a : Arithmetic api) (value : api.Bitvector → ℕ)
    (laws : IsArithmetic api a value) (bounds : Bounds api) (limits : IsBounds api bounds value)
    (g : Gcd) where
  -- The interval ends like `i` and starts at or above it, and stands for the bitvectors of `i` at strides
  -- below the end.
  abbrev pub StartsWithin : Strided api a bounds g → Strided api a bounds g → Type 0
  StartsWithin i r =
      (api.width r.start ≡ api.width i.start)
      × ((r.end ≡ i.end)
          × (integer api value i.start ≤ integer api value r.start)
          × (r.stride ≤ i.stride)
          × ((b : api.Bitvector) (k : ℕ)
              → api.width b ≡ api.width i.start
              → integer api value b + k * i.stride ≡ integer api value i.end
              → integer api value i.start ≤ integer api value b
              → Represents api value r b))

  -- With no stride known, all integers between the ends.
  pub unknown_stride :
      (start end : api.Bitvector) (n : ℕ)
      → integer api value start ≤ n
      → n ≤ integer api value end
      → Strides
          (integer api value start)
          (integer api value end)
          (if a.equal start end then 0 else 1)
          n
  unknown_stride start end n l u = elim (Bool-cases (a.equal start end)) [
    | inl same ↦
        let at : integer api value start ≡ integer api value end =
          ap (integer api value) (laws.equal_sound start end same) in
        rw same (u, (0, omega (arith, l, u, at)))
    | inr differs ↦ rw differs (u, (n - integer api value start, omega (arith, l)))
  ]

  -- A stride that is set to 0 when only one value is left.
  pub unless_single-Strides :
      (start end : api.Bitvector) (s n : ℕ)
      → Strides (integer api value start) (integer api value end) s n
      → Strides
          (integer api value start)
          (integer api value end)
          (if a.equal start end then 0 else s)
          n
  unless_single-Strides start end s n x = elim (Bool-cases (a.equal start end)) [
    | inl same ↦
        rw same
          (single-Strides _ _ s n x (ap (integer api value) (laws.equal_sound start end same)))
    | inr differs ↦ rw differs x
  ]

  pub both_known :
      (x y : Option ℕ) (start end : ℕ)
      → both api a bounds g x y ≡ some (start, end)
      → (x ≡ some start) × (y ≡ some end)
  both_known none y start end h = absurd (ground arith)
  both_known (some x) none start end h = absurd (ground arith)
  both_known (some x) (some y) start end h = (ground arith, ground arith)

  raised_start :
      (i : Strided api a bounds g) (d : api.Bitvector)
      → IsOrderedInterval api a value laws bounds limits g i
      → 0 < i.stride
      → Stands api value d
          (api.width i.start)
          ((integer api value i.end - integer api value i.start) % i.stride)
      → (x : api.Bitvector) × ((a.checked_add i.start d ≡ some x)
          × StartsWithin i (unless_single api a bounds g (strided api a bounds g x i.end i.stride)))
  raised_start i d ordered positive sd =
      let w : ℕ = api.width i.start in
      let D : ℕ = integer api value i.end - integer api value i.start in
      let (x, q, sx) = laws.checked_add-Gives i.start d (sym sd.0) in
      let whole : i.stride * (D / i.stride) + D % i.stride ≡ D = div-add-mod D i.stride in
      let is = integer-width api a value laws i.start w refl in
      let (low, high) = integer-range api a value laws i.end w ordered.1.0 ordered.0.1 in
      let moved : signed_order (2 ^ w) ((value i.start + value d) % 2 ^ w)
          ≡ signed_order (2 ^ w) (value i.start) + value d =
        added_order (2 ^ w) (2 ^ w / 2) (value i.start) (value d) (laws.value-lt i.start)
          (omega (arith, sd.1, whole, length-lt api a value laws bounds limits g i ordered))
          (pow_even w ordered.0.1) (omega (arith, is, sd.1, whole, high, ordered.1.1)) in
      let at : integer api value x ≡ integer api value i.start + D % i.stride =
        integer-width api a value laws x w sx.0
        ∙ ap (signed_order (2 ^ w)) sx.1
        ∙ moved
        ∙ omega (arith, is, sd.1) in
      (
        x,
        (
          q,
          (
            sx.0,
            (
              refl,
              omega (arith, at),
              stride-unless_single api a value laws bounds limits g
                  (strided api a bounds g x i.end i.stride),
              (λ b k wb e l. (
                wb ∙ sym sx.0,
                unless_single-Strides x i.end i.stride (integer api value b) (
                    subst (λ n. Strides n (integer api value i.end) i.stride (integer api value b))
                      (sym at)
                      (from_start-Strides (integer api value i.start) (integer api value i.end)
                        i.stride k (integer api value b) ordered.1.1 positive e l)),
              )),
            ),
          ),
        ),
      )

  pub adjust_start_to_value_in_stride-Starts :
      (i : Strided api a bounds g)
      → IsOrderedInterval api a value laws bounds limits g i
      → (r : Strided api a bounds g) × ((adjust_start_to_value_in_stride api a bounds g i ≡ ok r)
          × StartsWithin i r)
  unfolding adjust_start_to_value_in_stride
  adjust_start_to_value_in_stride-Starts i ordered = elim (Bool-cases (i.stride == 0)) [
    | inl zero ↦
        let none_left : i.stride ≡ 0 = ground arith in
        (
          strided api a bounds g i.end i.end 0,
          (
            ground arith,
            (
              ordered.1.0,
              (
                refl,
                ordered.1.1,
                omega arith,
                (λ b k w e l. (
                  w ∙ sym ordered.1.0,
                  (omega (arith, e), (0, omega (arith, e, ap (λ x. k * x) none_left))),
                )),
              ),
            ),
          ),
        )
    | inr positive ↦ elim (Bool-cases (i.stride == 1 && not (a.equal i.start i.end))) [
      | inl unit ↦
          let one : i.stride ≡ 1 = ground arith in
          (
            i,
            (
              ground arith,
              (
                refl,
                (
                  refl,
                  omega arith,
                  omega arith,
                  (λ b k w e l. (
                    w,
                    (
                      omega (arith, e),
                      (
                        integer api value b - integer api value i.start,
                        omega (
                          arith,
                          l,
                          ap (λ x. (integer api value b - integer api value i.start) * x) one,
                        ),
                      ),
                    ),
                  )),
                ),
              ),
            ),
          )
      | inr general ↦
          elim (Option-cases
            (both api a bounds g (api.try_to_i64 i.start) (api.try_to_i64 i.end))) [
              | inl wide ↦ (
                strided api a bounds g i.start i.end (if a.equal i.start i.end then 0 else 1),
                (
                  ground arith,
                  (
                    refl,
                    (
                      refl,
                      omega arith,
                      ground arith,
                      (λ b k w e l. (
                        w,
                        unknown_stride i.start i.end (integer api value b) l (omega (arith, e)),
                      )),
                    ),
                  ),
                ),
              )
              | inr ((start, end), known) ↦
                  let (h, k) = both_known _ _ start end known in
                  let (d, (q, sd)) =
                    excess_bits api a value laws bounds limits g i start end ordered h k in
                  let (x, (q', within)) = raised_start i d ordered (ground arith) sd in
                  (
                    unless_single api a bounds g (strided api a bounds g x i.end i.stride),
                    (ground (arith, known, q, q'), within),
                  )
            ]
    ]
  ]

  pub width-resize_unsigned :
      (n size : ℕ)
      → n < 2 ^ 64
      → 0 < size
      → (d : api.Bitvector) × ((resize_unsigned api a (a.from_u64 n) size ≡ ok d)
          × (api.width d ≡ as_bit_length size))
  unfolding resize_unsigned
  width-resize_unsigned n size h p =
      elim (below_or_not (api.width (a.from_u64 n)) (as_bit_length size)) [
        | inl wide ↦
            let (d, q, s) =
              laws.zero_extend-Gives (as_bit_length size) (a.from_u64 n) (omega arith) in
            (d, (ground (arith, q), s.0))
        | inr narrow ↦
            let (d, q, s) =
              laws.truncate-Gives (as_bit_length size) (a.from_u64 n) (omega (arith, p)) narrow in
            (d, (ground (arith, q), s.0))
      ]
