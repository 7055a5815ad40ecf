-- ===== src/AbstractDomain/Interval/Represented.antt =====
-- The bitvectors that an interval of src/cwe_checker_lib/src/abstract_domain/interval/simple_interval.rs
-- stands for, and the signed integers of sums and differences.
use fkie_cad_cwe_checker.Prelude.{
  ℕ, ◌+◌, ◌-◌, ◌*◌, ◌/◌, ◌%◌, ◌^◌, ◌<◌, ◌≤◌, ◌≡◌, ap, sym, ◌∙◌, arith,
}
use mathlib.Core.Path.{subst}
use fkie_cad_cwe_checker.Prelude.Powers.{sum_cases, difference_cases, pow_even, pow_pos}
use fkie_cad_cwe_checker.Apint.{ApInt}
use fkie_cad_cwe_checker.Apint.Arithmetic.{
  Arithmetic, IsArithmetic, is_negative, signed_order, Stands,
}
use fkie_cad_cwe_checker.Apint.Signed.{Bounds, IsBounds, Gcd}
use fkie_cad_cwe_checker.IntermediateRepresentation.Bitvector.{as_bit_length}
use fkie_cad_cwe_checker.IntermediateRepresentation.Bitvector.Overflow.{integer, half}
use fkie_cad_cwe_checker.AbstractDomain.Interval.{Interval, new_top}

order_range :
    (m half x : ℕ)
    → x < m
    → m ≡ 2 * half
    → (half ≤ signed_order m x) × (signed_order m x < m + half)
unfolding is_negative signed_order
order_range m half x h e = (ground arith, ground arith)

sum_in_range :
    (m half x y d : ℕ)
    → x < m
    → y < m
    → m ≡ 2 * half
    → d ≡ (x + y) % m
    → m + half ≤ signed_order m x + signed_order m y
    → signed_order m x + signed_order m y < m + m + half
    → signed_order m d + m ≡ signed_order m x + signed_order m y
unfolding is_negative signed_order
sum_in_range m half x y d h k e q p r = ground (arith, sum_cases m x y h k)

difference_in_range :
    (m half x y d : ℕ)
    → x < m
    → y < m
    → m ≡ 2 * half
    → d ≡ (x + (m - y)) % m
    → signed_order m y + half ≤ signed_order m x + m
    → signed_order m x < signed_order m y + half
    → signed_order m d + signed_order m y ≡ signed_order m x + m
unfolding is_negative signed_order
difference_in_range m half x y d h k e q p r = ground (arith, difference_cases m x y h k)

order_least : (m half : ℕ) → m ≡ 2 * half → signed_order m half ≡ half
unfolding is_negative signed_order
order_least m half e = ground arith

order_greatest : (m half : ℕ) → m ≡ 2 * half → 0 < half → signed_order m (half - 1) + 1 ≡ m + half
unfolding is_negative signed_order
order_greatest m half e p = ground arith

-- The integers of the interval from `start` to `end` with the given stride.
abbrev pub Strides : ℕ → ℕ → ℕ → ℕ → Type 0
Strides start end stride n = (n ≤ end) × ((k : ℕ) × (n ≡ start + k * stride))

module _ (api : ApInt) (value : api.Bitvector → ℕ) where
  abbrev pub Represents : Interval api.Bitvector → api.Bitvector → Type 0
  Represents interval b =
      (api.width b ≡ api.width interval.start)
      × Strides (integer api value interval.start) (integer api value interval.end) interval.stride
          (integer api value b)

module _ (api : ApInt) (a : Arithmetic api) (value : api.Bitvector → ℕ)
    (laws : IsArithmetic api a value) where
  pub integer-width :
      (b : api.Bitvector) (w : ℕ)
      → api.width b ≡ w
      → integer api value b ≡ signed_order (2 ^ w) (value b)
  unfolding integer
  integer-width b w e = ap (λ v. signed_order (2 ^ v) (value b)) e

  pub integer-range :
      (b : api.Bitvector) (w : ℕ)
      → api.width b ≡ w
      → 0 < w
      → (2 ^ w / 2 ≤ integer api value b) × (integer api value b < 2 ^ w + 2 ^ w / 2)
  integer-range b w e p =
      subst (λ n. (2 ^ w / 2 ≤ n) × (n < 2 ^ w + 2 ^ w / 2)) (sym (integer-width b w e))
        (order_range (2 ^ w) (2 ^ w / 2) (value b)
          (subst (λ v. value b < 2 ^ v) e (laws.value-lt b)) (pow_even w p))

  pub integer-sum :
      (b c d : api.Bitvector) (w : ℕ)
      → api.width b ≡ w
      → api.width c ≡ w
      → 0 < w
      → Stands api value d w ((value b + value c) % 2 ^ w)
      → 2 ^ w + 2 ^ w / 2 ≤ integer api value b + integer api value c
      → integer api value b + integer api value c < 2 ^ w + 2 ^ w + 2 ^ w / 2
      → integer api value d + 2 ^ w ≡ integer api value b + integer api value c
  integer-sum b c d w e f p s =
      subst
        (λ n.
          2 ^ w + 2 ^ w / 2 ≤ n + integer api value c
          → n + integer api value c < 2 ^ w + 2 ^ w + 2 ^ w / 2
          → integer api value d + 2 ^ w ≡ n + integer api value c)
        (sym (integer-width b w e))
        (subst
          (λ n.
            2 ^ w + 2 ^ w / 2 ≤ signed_order (2 ^ w) (value b) + n
            → signed_order (2 ^ w) (value b) + n < 2 ^ w + 2 ^ w + 2 ^ w / 2
            → integer api value d + 2 ^ w ≡ signed_order (2 ^ w) (value b) + n)
          (sym (integer-width c w f))
          (λ l u.
            ap (λ n. n + 2 ^ w) (integer-width d w s.0)
            ∙ sum_in_range (2 ^ w) (2 ^ w / 2) (value b) (value c) (value d)
                (subst (λ v. value b < 2 ^ v) e (laws.value-lt b))
                (subst (λ v. value c < 2 ^ v) f (laws.value-lt c)) (pow_even w p) s.1 l u))

  pub integer-difference :
      (b c d : api.Bitvector) (w : ℕ)
      → api.width b ≡ w
      → api.width c ≡ w
      → 0 < w
      → Stands api value d w ((value b + (2 ^ w - value c)) % 2 ^ w)
      → integer api value c + 2 ^ w / 2 ≤ integer api value b + 2 ^ w
      → integer api value b < integer api value c + 2 ^ w / 2
      → integer api value d + integer api value c ≡ integer api value b + 2 ^ w
  integer-difference b c d w e f p s l u =
      let ib = integer-width b w e in
      let ic = integer-width c w f in
      let id = integer-width d w s.0 in
      let exact : signed_order (2 ^ w) (value d) + signed_order (2 ^ w) (value c)
          ≡ signed_order (2 ^ w) (value b) + 2 ^ w =
        difference_in_range (2 ^ w) (2 ^ w / 2) (value b) (value c) (value d)
          (subst (λ v. value b < 2 ^ v) e (laws.value-lt b))
          (subst (λ v. value c < 2 ^ v) f (laws.value-lt c)) (pow_even w p) s.1
          (omega (arith, ib, ic, l)) (omega (arith, ib, ic, u)) in
      omega (arith, ib, ic, id, exact)

  -- All bitvectors of the size.
  module _ (bounds : Bounds api) (limits : IsBounds api bounds value) (g : Gcd) where
    pub integer-signed_min_value :
        (w : ℕ) → 0 < w → integer api value (bounds.signed_min_value w) ≡ 2 ^ w / 2
    integer-signed_min_value w p =
        let least = limits.signed_min_value-Stands w p in
        integer-width (bounds.signed_min_value w) w least.0
        ∙ ap (signed_order (2 ^ w)) least.1
        ∙ order_least (2 ^ w) (2 ^ w / 2) (pow_even w p)

    pub new_top-Represents :
        (size : ℕ) (b : api.Bitvector)
        → 0 < size
        → api.width b ≡ as_bit_length size
        → Represents api value (new_top api a bounds g size) b
    new_top-Represents size b p e =
        let w : ℕ = as_bit_length size in
        let least = limits.signed_min_value-Stands w (omega arith) in
        let greatest = limits.signed_max_value-Stands w (omega arith) in
        let (low, high) = integer-range b w e (omega arith) in
        let start = integer-signed_min_value w (omega arith) in
        let end : integer api value (bounds.signed_max_value w) + 1 ≡ 2 ^ w + 2 ^ w / 2 =
          ap (λ n. n + 1)
            (integer-width (bounds.signed_max_value w) w greatest.0
              ∙ ap (signed_order (2 ^ w)) greatest.1)
          ∙ order_greatest (2 ^ w) (2 ^ w / 2) (pow_even w (omega arith))
              (omega (arith, pow_even w (omega arith), pow_pos w)) in
        (
          e ∙ sym least.0,
          (omega (arith, end, high), (integer api value b - 2 ^ w / 2, omega (arith, start, low))),
        )
