-- ===== src/AbstractDomain/Interval/Excess.antt =====
-- What is left over when the length of an interval is divided by its stride, for the adjustments in
-- src/cwe_checker_lib/src/abstract_domain/interval/simple_interval.rs.
use fkie_cad_cwe_checker.AbstractDomain.Interval.{byte_size_from, Strided, excess, unless_single}
use native.Mathlib.Nat.{le-div_iff_mul-le, mul-le-mul_right, mod-eq_of_lt, div-add-mod}
use fkie_cad_cwe_checker.AbstractDomain.Interval.Sound.{difference_of_multiples}
use fkie_cad_cwe_checker.Prelude.{
  ℕ, ◌+◌, ◌-◌, ◌*◌, ◌/◌, ◌%◌, ◌^◌, ◌<◌, ◌≤◌, ◌≡◌, refl, ap, ◌∙◌, arith, some, inl, inr,
  below_or_not, sym, Bool-cases,
}
use mathlib.Core.Path.{subst}
use fkie_cad_cwe_checker.Prelude.Powers.{sum_cases, difference_cases}
use fkie_cad_cwe_checker.Prelude.Outcome.{ok}
use fkie_cad_cwe_checker.Apint.{ApInt}
use fkie_cad_cwe_checker.Apint.Arithmetic.{
  Arithmetic, IsArithmetic, is_negative, signed_order, Stands,
}
use fkie_cad_cwe_checker.Apint.Signed.{Bounds, IsBounds, Gcd}
use fkie_cad_cwe_checker.IntermediateRepresentation.Bitvector.{resize_unsigned, as_bit_length}
use fkie_cad_cwe_checker.IntermediateRepresentation.Bitvector.Yields.{IsWhole}
use fkie_cad_cwe_checker.IntermediateRepresentation.Bitvector.Overflow.{integer}
use fkie_cad_cwe_checker.AbstractDomain.Interval.Represented.{Strides, integer-width, integer-range}

-- The integers of a number and of a greater one.
pub added_order :
    (m half x d : ℕ)
    → x < m
    → d < m
    → m ≡ 2 * half
    → signed_order m x + d < m + half
    → signed_order m ((x + d) % m) ≡ signed_order m x + d
unfolding is_negative signed_order
added_order m half x d h k e p = ground (arith, sum_cases m x d h k)

pub subtracted_order :
    (m half x d : ℕ)
    → x < m
    → d < m
    → m ≡ 2 * half
    → half + d ≤ signed_order m x
    → signed_order m ((x + (m - d)) % m) + d ≡ signed_order m x
unfolding is_negative signed_order
subtracted_order m half x d h k e p = ground (arith, difference_cases m x d h k)

-- The integers between the ends at strides below the end are those at strides above the start, when the
-- start is moved up by what is left over.
pub from_start-Strides :
    (start end s k n : ℕ)
    → start ≤ end
    → 0 < s
    → n + k * s ≡ end
    → start ≤ n
    → Strides (start + (end - start) % s) end s n
from_start-Strides start end s k n h p e l =
    let q : ℕ = (end - start) / s in
    let whole : s * q + (end - start) % s ≡ end - start = div-add-mod (end - start) s in
    let less : k ≤ q = (le-div_iff_mul-le p).1 (omega (arith, e, l, h)) in
    (
      omega (arith, e),
      (
        q - k,
        omega (arith, e, l, h, whole, difference_of_multiples k q s (mul-le-mul_right s less)),
      ),
    )

pub to_end-Strides :
    (start end s k n : ℕ)
    → 0 < s
    → n ≡ start + k * s
    → n ≤ end
    → Strides start (end - (end - start) % s) s n
to_end-Strides start end s k n p e l =
    let q : ℕ = (end - start) / s in
    let whole : s * q + (end - start) % s ≡ end - start = div-add-mod (end - start) s in
    let less : k ≤ q = (le-div_iff_mul-le p).1 (omega (arith, e, l)) in
    (omega (arith, e, l, whole, difference_of_multiples k q s (mul-le-mul_right s less)), (k, e))

-- The only value of an interval with equal ends.
pub single-Strides :
    (start end s n : ℕ) → Strides start end s n → start ≡ end → Strides start end 0 n
single-Strides start end s n (below, (k, e)) h = (below, (0, omega (arith, e, h, below)))

module _ (api : ApInt) (a : Arithmetic api) (value : api.Bitvector → ℕ)
    (laws : IsArithmetic api a value) (bounds : Bounds api) (limits : IsBounds api bounds value)
    (g : Gcd) where
  pub resize_unsigned-Stands :
      (n size : ℕ)
      → n < 2 ^ 64
      → n < 2 ^ as_bit_length size
      → 0 < size
      → (d : api.Bitvector) × ((resize_unsigned api a (a.from_u64 n) size ≡ ok d)
          × Stands api value d (as_bit_length size) n)
  unfolding resize_unsigned
  resize_unsigned-Stands n size h k p =
      let (width, number) = laws.from_u64-Stands n h in
      elim (below_or_not (api.width (a.from_u64 n)) (as_bit_length size)) [
        | inl wide ↦
            let (d, q, s) =
              laws.zero_extend-Gives (as_bit_length size) (a.from_u64 n) (omega arith) in
            (d, (ground (arith, q), (s.0, s.1 ∙ number)))
        | inr narrow ↦
            let (d, q, s) =
              laws.truncate-Gives (as_bit_length size) (a.from_u64 n) (omega (arith, p)) narrow in
            (
              d,
              (
                ground (arith, q),
                (s.0, s.1 ∙ ap (λ v. v % 2 ^ as_bit_length size) number ∙ mod-eq_of_lt k),
              ),
            )
      ]

  -- What is asked of the interval: ends of the same width in whole bytes, in their order.
  abbrev pub IsOrderedInterval : Strided api a bounds g → Type 0
  IsOrderedInterval i =
      IsWhole api i.start
      × ((api.width i.end ≡ api.width i.start)
          × (integer api value i.start ≤ integer api value i.end))

  -- The difference of the ends, where both are converted to an `i64`.
  length_excess :
      (i : Strided api a bounds g) (start end : ℕ)
      → IsOrderedInterval i
      → api.try_to_i64 i.start ≡ some start
      → api.try_to_i64 i.end ≡ some end
      → (integer api value i.end - integer api value i.start < 2 ^ 64)
        × (excess api a bounds g start end i.stride
            ≡ (integer api value i.end - integer api value i.start) % i.stride)
  length_excess i start end ordered h k =
      let w : ℕ = api.width i.start in
      let (lt, at) = limits.try_to_i64_sound i.start start h in
      let (lt', at') = limits.try_to_i64_sound i.end end k in
      let is = integer-width api a value laws i.start w refl in
      let ie = integer-width api a value laws i.end w ordered.1.0 in
      let at_end : end + 2 ^ w ≡ signed_order (2 ^ w) (value i.end) + 2 ^ 63 =
        subst (λ v. end + 2 ^ v ≡ signed_order (2 ^ v) (value i.end) + 2 ^ 63) ordered.1.0 at' in
      (
        omega (arith, is, ie, at, at_end, lt, lt', ordered.1.1),
        ap (λ x. x % i.stride) (omega (arith, is, ie, at, at_end, lt, lt', ordered.1.1)),
      )

  -- The length of an ordered interval is below the modulus.
  pub length-lt :
      (i : Strided api a bounds g)
      → IsOrderedInterval i
      → integer api value i.end - integer api value i.start < 2 ^ api.width i.start
  length-lt i ordered =
      let (low, high) =
        integer-range api a value laws i.start (api.width i.start) refl ordered.0.1 in
      let (low', high') =
        integer-range api a value laws i.end (api.width i.start) ordered.1.0 ordered.0.1 in
      omega arith

  pub excess_bits :
      (i : Strided api a bounds g) (start end : ℕ)
      → IsOrderedInterval i
      → api.try_to_i64 i.start ≡ some start
      → api.try_to_i64 i.end ≡ some end
      → (d : api.Bitvector) × ((resize_unsigned api a
              (a.from_u64 (excess api a bounds g start end i.stride))
              (byte_size_from (api.width i.end))
            ≡ ok d)
          × Stands api value d
              (api.width i.start)
              ((integer api value i.end - integer api value i.start) % i.stride))
  excess_bits i start end ordered h k =
      let w : ℕ = api.width i.start in
      let D : ℕ = integer api value i.end - integer api value i.start in
      let (small, left) = length_excess i start end ordered h k in
      let whole : i.stride * (D / i.stride) + D % i.stride ≡ D = div-add-mod D i.stride in
      let short = length-lt i ordered in
      let size : as_bit_length (byte_size_from (api.width i.end)) ≡ w =
        ap (λ v. as_bit_length (byte_size_from v)) ordered.1.0 ∙ sym ordered.0.0 in
      let (d, (q, s)) =
        resize_unsigned-Stands (D % i.stride) (byte_size_from (api.width i.end))
          (omega (arith, whole, small))
          (subst (λ v. D % i.stride < 2 ^ v) (sym size) (omega (arith, whole, short)))
          (omega (arith, size, ordered.0.1)) in
      (
        d,
        (
          ap (λ n. resize_unsigned api a (a.from_u64 n) (byte_size_from (api.width i.end))) left
              ∙ q,
          (s.0 ∙ size, s.1),
        ),
      )

  pub stride-unless_single :
      (i : Strided api a bounds g) → (unless_single api a bounds g i).stride ≤ i.stride
  stride-unless_single i = elim (Bool-cases (a.equal i.start i.end)) [
    | inl single ↦ ground arith
    | inr several ↦ ground arith
  ]
