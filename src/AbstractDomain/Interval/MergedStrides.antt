-- ===== src/AbstractDomain/Interval/MergedStrides.antt =====
-- The strides of the merge of two intervals in
-- src/cwe_checker_lib/src/abstract_domain/interval/simple_interval.rs.
use fkie_cad_cwe_checker.Prelude.{
  ℕ, ◌+◌, ◌-◌, ◌*◌, ◌/◌, ◌%◌, ◌^◌, ◌<◌, ◌≤◌, ◌≡◌, refl, ap, sym, ◌∙◌, arith, some, inl, inr, leb,
  ltb, ◌⊎◌, below_or_not,
}
use mathlib.Core.Path.{subst, ap₂}
use fkie_cad_cwe_checker.Prelude.Powers.{difference_cases, pow_even}
use fkie_cad_cwe_checker.Prelude.Outcome.{ok, unwrap}
use fkie_cad_cwe_checker.Apint.{ApInt}
use fkie_cad_cwe_checker.Apint.Arithmetic.{
  Arithmetic, IsArithmetic, is_negative, signed_order, Stands,
}
use fkie_cad_cwe_checker.Apint.Signed.{Bounds, IsBounds, Gcd}
use fkie_cad_cwe_checker.IntermediateRepresentation.Bitvector.Overflow.{integer}
use fkie_cad_cwe_checker.AbstractDomain.Interval.{Strided, strided, greater, merged_stride}
use fkie_cad_cwe_checker.AbstractDomain.Interval.Represented.{Strides, Represents, integer-width}

difference_number :
    (m half x y d : ℕ)
    → x < m
    → y < m
    → m ≡ 2 * half
    → d ≡ (x + (m - y)) % m
    → signed_order m y ≤ signed_order m x
    → signed_order m y + d ≡ signed_order m x
unfolding is_negative signed_order
difference_number m half x y d h k e q p = ground (arith, difference_cases m x y h k)

-- A value of the one or the other interval, of which the second one starts `diff` above the first one.
merged-Strides :
    (low high diff s t g u v z end end' last n : ℕ)
    → low + diff ≡ high
    → s ≡ u * g
    → t ≡ v * g
    → diff ≡ z * g
    → end ≤ last
    → end' ≤ last
    → Strides low end s n ⊎ Strides high end' t n
    → Strides low last g n
merged-Strides low high diff s t g u v z end end' last n e f f' f'' l l' (inl (below, (k, h))) =
    (omega (arith, below, l), (k * u, omega (arith, h, ap (λ x. k * x) f)))
merged-Strides low high diff s t g u v z end end' last n e f f' f'' l l' (inr (below, (k, h))) =
    (omega (arith, below, l'), (z + k * v, omega (arith, h, e, f'', ap (λ x. k * x) f')))

unit-Strides :
    (low high diff s t end end' last n : ℕ)
    → low + diff ≡ high
    → end ≤ last
    → end' ≤ last
    → Strides low end s n ⊎ Strides high end' t n
    → Strides low last 1 n
unit-Strides low high diff s t end end' last n e l l' (inl (below, (k, h))) =
    (omega (arith, below, l), (k * s, omega (arith, h)))
unit-Strides low high diff s t end end' last n e l l' (inr (below, (k, h))) =
    (omega (arith, below, l'), (diff + k * t, omega (arith, h, e)))

module _ (api : ApInt) (a : Arithmetic api) (value : api.Bitvector → ℕ)
    (laws : IsArithmetic api a value) (bounds : Bounds api) (limits : IsBounds api bounds value)
    (g : Gcd) where
  pub sle_integer :
      (b c : api.Bitvector)
      → api.width b ≡ api.width c
      → a.checked_sle b c ≡ some (leb (integer api value b) (integer api value c))
  sle_integer b c e =
      laws.checked_sle_value b c e
      ∙ ap₂ (λ x y. some (leb x y)) (sym (integer-width api a value laws b (api.width b) refl))
          (sym (integer-width api a value laws c (api.width b) (sym e)))

  pub greater-integer :
      (b c : api.Bitvector)
      → api.width b ≡ api.width c
      → greater api a bounds g b c ≡ ok (ltb (integer api value c) (integer api value b))
  greater-integer b c e = ap unwrap (
      laws.checked_slt_value c b (sym e)
      ∙ ap₂ (λ x y. some (ltb x y)) (sym (integer-width api a value laws c (api.width c) refl))
          (sym (integer-width api a value laws b (api.width c) e)))

  -- The difference of two bitvectors in their signed order is the number of their difference.
  pub difference_value :
      (b c d : api.Bitvector)
      → api.width b ≡ api.width c
      → 0 < api.width b
      → Stands api value d (api.width b) ((value b + (2 ^ api.width b - value c)) % 2 ^ api.width b)
      → integer api value c ≤ integer api value b
      → integer api value c + value d ≡ integer api value b
  difference_value b c d e p s h =
      let w : ℕ = api.width b in
      let ib = integer-width api a value laws b w refl in
      let ic = integer-width api a value laws c w (sym e) in
      let exact : signed_order (2 ^ w) (value c) + value d ≡ signed_order (2 ^ w) (value b) =
        difference_number (2 ^ w) (2 ^ w / 2) (value b) (value c) (value d) (laws.value-lt b)
          (subst (λ v. value c < 2 ^ v) (sym e) (laws.value-lt c)) (pow_even w p) s.1
          (omega (arith, ib, ic, h)) in
      omega (arith, ib, ic, exact)

  pub integers_of_either :
      (low high : Strided api a bounds g) (b : api.Bitvector)
      → api.width high.start ≡ api.width low.start
      → Represents api value low b ⊎ Represents api value high b
      → (api.width b ≡ api.width low.start)
        × (Strides
              (integer api value low.start)
              (integer api value low.end)
              low.stride
              (integer api value b)
            ⊎ Strides
                (integer api value high.start)
                (integer api value high.end)
                high.stride
                (integer api value b))
  integers_of_either low high b w (inl (e, x)) = (e, inl x)
  integers_of_either low high b w (inr (e, x)) = (e ∙ w, inr x)

  pub swapped : {A B : Type 0} → A ⊎ B → B ⊎ A
  swapped (inl x) = inr x
  swapped (inr x) = inl x

  -- The merged interval starts at the lower of the two starts.
  pub from_low-Represents :
      (low high : Strided api a bounds g) (s t : ℕ) (d end b : api.Bitvector)
      → integer api value low.start + value d ≡ integer api value high.start
      → (u : ℕ) × (low.stride ≡ u * g.gcd (g.gcd s t) (value d))
      → (v : ℕ) × (high.stride ≡ v * g.gcd (g.gcd s t) (value d))
      → integer api value low.end ≤ integer api value end
      → integer api value high.end ≤ integer api value end
      → api.width high.start ≡ api.width low.start
      → Represents api value low b ⊎ Represents api value high b
      → Represents api value
          (strided api a bounds g low.start end (merged_stride api a bounds g s t (a.try_to_u64 d)))
          b
  from_low-Represents low high s t d end b e (u, f) (v, f') l l' w x =
      let (wb, y) = integers_of_either low high b w x in
      elim (below_or_not (value d) (2 ^ 64)) [
        | inl h ↦
            let (z, f'') = g.divides_right (g.gcd s t) (value d) in
            (
              wb,
              subst
                  (λ o.
                    Strides (integer api value low.start) (integer api value end)
                      (merged_stride api a bounds g s t o) (integer api value b))
                  (sym (laws.try_to_u64_value d h))
                  (merged-Strides _ _ (value d) low.stride high.stride (g.gcd (g.gcd s t) (value d))
                    u v z _ _ _ _ e f f' f'' l l' y),
            )
        | inr h ↦ (
          wb,
          subst
              (λ o.
                Strides (integer api value low.start) (integer api value end)
                  (merged_stride api a bounds g s t o) (integer api value b))
              (sym (laws.try_to_u64_none d h))
              (unit-Strides _ _ (value d) low.stride high.stride _ _ _ _ e l l' y),
        )
      ]

  pub common_divisor :
      (s t n : ℕ)
      → ((u : ℕ) × (s ≡ u * g.gcd (g.gcd s t) n)) × ((v : ℕ) × (t ≡ v * g.gcd (g.gcd s t) n))
  common_divisor s t n =
      let (u, e) = g.divides_left s t in
      let (v, f) = g.divides_right s t in
      let (w, h) = g.divides_left (g.gcd s t) n in
      ((u * w, omega (arith, e, ap (λ x. u * x) h)), (v * w, omega (arith, f, ap (λ x. v * x) h)))
