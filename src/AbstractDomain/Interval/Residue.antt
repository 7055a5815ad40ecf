-- ===== src/AbstractDomain/Interval/Residue.antt =====
-- The distance from a bound to the stride of an interval, for the rounding in
-- src/cwe_checker_lib/src/abstract_domain/interval.rs.
use fkie_cad_cwe_checker.AbstractDomain.Interval.Widening.{residue}
use fkie_cad_cwe_checker.Prelude.{
  ℕ, ◌+◌, ◌-◌, ◌*◌, ◌/◌, ◌%◌, ◌<◌, ◌≤◌, ◌≡◌, ap, ◌∙◌, arith, inl, inr, below_or_not,
}
use native.Mathlib.Nat.{
  div-add-mod, mod-lt, mod-eq_of_lt, mul-le-mul_right, add-mod_right, mod_self,
}

-- The multiples of `s` from `a * s + r` on, where `r` is not 0, start at the next one.
next_multiple : (a k r s : ℕ) → a * s + r ≤ k * s → 0 < r → a * s + s ≤ k * s
next_multiple a k r s h p = elim (below_or_not a k) [
  | inl above ↦ omega (arith, mul-le-mul_right s above)
  | inr below ↦ omega (arith, h, p, mul-le-mul_right s below)
]

wrapped_remainder : (n s : ℕ) → 0 < s → (n % s + s) % s ≡ n % s
wrapped_remainder n s p = add-mod_right (n % s) s ∙ mod-eq_of_lt (mod-lt n p)

residue_not_above : (s x y : ℕ) → 0 < s → y ≤ x → residue x y s ≡ (x - y) % s
residue_not_above s x y p h = ground (arith, h, wrapped_remainder (x - y) s p)

residue_multiple : (s x y : ℕ) → x < y → (y - x) % s ≡ 0 → residue x y s ≡ 0
residue_multiple s x y h e = ground (arith, h, ap (λ r. (s - r) % s) e, mod_self s)

residue_between : (s x y : ℕ) → 0 < s → x < y → 0 < (y - x) % s → residue x y s ≡ s - (y - x) % s
residue_between s x y p h k =
    ground (arith, h, mod-eq_of_lt {n = s - (y - x) % s} {m = s} (omega (arith, k, p)))

pub residue_lt : (s x y : ℕ) → 0 < s → residue x y s < s
residue_lt s x y p = elim (below_or_not x y) [
  | inr h ↦ ground (arith, h, mod-lt ((x - y) % s + s) p)
  | inl h ↦ ground (arith, h, mod-lt (s - (y - x) % s) p)
]

-- What leads from `y` to a multiple of `s` above `x` is at least the residue.
pub residue_least : (s x y d k : ℕ) → 0 < s → y + d ≡ x + k * s → residue x y s ≤ d
residue_least s x y d k p e = elim (below_or_not x y) [
  | inr h ↦
      let whole : s * ((x - y) / s) + (x - y) % s ≡ x - y = div-add-mod (x - y) s in
      let at = residue_not_above s x y p h in omega (arith, at, whole, e, h)
  | inl h ↦
      let whole : s * ((y - x) / s) + (y - x) % s ≡ y - x = div-add-mod (y - x) s in
      elim (below_or_not 0 ((y - x) % s)) [
        | inr zero ↦ let at = residue_multiple s x y h (omega (arith, zero)) in omega (arith, at)
        | inl left ↦
            let next =
              next_multiple ((y - x) / s) k ((y - x) % s) s (omega (arith, whole, e)) left in
            let at = residue_between s x y p h left in omega (arith, at, whole, e, h, next)
      ]
]

pub residue_shift :
    (s x y x' y' m c : ℕ) → x + m ≡ x' + c → y + m ≡ y' + c → residue x y s ≡ residue x' y' s
residue_shift s x y x' y' m c e f = elim (below_or_not x y) [
  | inr h ↦
      let same : x - y ≡ x' - y' = omega (arith, e, f) in
      ground (arith, h, e, f, ap (λ d. (d % s + s) % s) same)
  | inl h ↦
      let same : y - x ≡ y' - x' = omega (arith, e, f) in
      ground (arith, h, e, f, ap (λ d. (s - d % s) % s) same)
]
