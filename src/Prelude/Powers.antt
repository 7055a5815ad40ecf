-- ===== src/Prelude/Powers.antt =====
-- Sizes in bytes, and the numbers of so many bytes.
use Prim.Native.Nat.{ℕ, zero, suc, ◌+◌, ◌-◌, ◌*◌, ◌/◌, ◌%◌, ◌^◌, ◌≤◌, ◌<◌}
use mathlib.Core.Path.{◌≡◌, ap, sym, ◌∙◌, subst}
use mathlib.Core.Logic.{◌⊎◌, inl, inr}
use native.Mathlib.Omega.{arith}
use native.Mathlib.Nat.{
  pow-zero, pow-suc, div-add-mod, add-mul-div_left, mul-add-mod_self_right, mul-add-div_right,
  div-eq_of_lt, mod-eq_of_lt, pow-le-pow_right, mod-eq-sub-mod, mod-lt, mul-mod_left,
  div-div-eq-div-mul,
}

-- The count of the values of `s` bytes.
unfoldable pub modulus : ℕ → ℕ
modulus s = 2 ^ (8 * s)

+_zero : (m : ℕ) → m + 0 ≡ m
+_zero m = omega arith

pub pow_add : (b m n : ℕ) → b ^ (m + n) ≡ b ^ m * b ^ n
pow_add b m zero = ap (λ t. b ^ t) (+_zero m) ∙ omega (arith, ap (λ t. b ^ m * t) (pow-zero b))
pow_add b m (suc n) =
    subst (λ t. b ^ t ≡ b ^ m * b ^ suc n) (omega arith)
      (pow-suc b (m + n)
        ∙ omega (arith, ap (λ t. b ^ m * t) (pow-suc b n), ap (λ t. t * b) (pow_add b m n)))

pub modulus_add : (r s : ℕ) → modulus (r + s) ≡ modulus r * modulus s
unfolding modulus
modulus_add r s =
    subst (λ t. 2 ^ t ≡ 2 ^ (8 * r) * 2 ^ (8 * s)) (omega arith) (pow_add 2 (8 * r) (8 * s))

pub pow_pos : (n : ℕ) → 0 < 2 ^ n
pow_pos zero = omega (arith, pow-zero 2)
pow_pos (suc n) = omega (arith, pow-suc 2 n, pow_pos n)

pub modulus_pos : (s : ℕ) → 0 < modulus s
unfolding modulus
modulus_pos s = pow_pos (8 * s)

pub modulus-split : (r s : ℕ) → r ≤ s → modulus s ≡ modulus (s - r) * modulus r
modulus-split r s h =
    subst (λ t. modulus t ≡ modulus (s - r) * modulus r) (omega arith) (modulus_add (s - r) r)

-- A high and a low part.
pub piece-div : (x y m : ℕ) → y < m → (x * m + y) / m ≡ x
piece-div x y m h = mul-add-div_right (omega arith) x y ∙ omega (arith, div-eq_of_lt h)

pub piece-mod : (x y m : ℕ) → y < m → (x * m + y) % m ≡ y
piece-mod x y m h = mul-add-mod_self_right x m y ∙ mod-eq_of_lt h

pub piece-lt : (x y m n : ℕ) → x < n → y < m → x * m + y < n * m
piece-lt x y m n h k = grind arith

pub div-modulus : (n r s : ℕ) → n / modulus r / modulus s ≡ n / modulus (s + r)
div-modulus n r s =
    div-div-eq-div-mul n (modulus r) (modulus s) ∙ ap (λ t. n / t) (omega (arith, modulus_add s r))

-- Digits of a number that are kept by the remainder can be read from it.
pub mod-div-mod : (y a b c : ℕ) → 0 < a → y % (c * b * a) / a % b ≡ y / a % b
mod-div-mod y a b c h = sym (
    ap (λ t. t / a % b) (sym (div-add-mod y (c * b * a)) ∙ omega arith)
    ∙ ap (λ t. t % b) (add-mul-div_left (y % (c * b * a)) (y / (c * b * a) * c * b) h ∙ omega arith)
    ∙ mul-add-mod_self_right (y / (c * b * a) * c) b (y % (c * b * a) / a))

pub modulus_le : (r s : ℕ) → r ≤ s → modulus r ≤ modulus s
unfolding modulus
modulus_le r s h = pow-le-pow_right (omega arith) (omega arith)

suc-even : (n : ℕ) → 2 ^ suc n ≡ 2 * (2 ^ suc n / 2)
suc-even n = omega (arith, pow-suc 2 n)

sum_or_more : (m a b : ℕ) → (a + b < m) ⊎ (m ≤ a + b)
sum_or_more m a b = ground arith

pub modulus_even : (s : ℕ) → 0 < s → modulus s ≡ 2 * (modulus s / 2)
unfolding modulus
modulus_even s h = subst (λ n. 2 ^ n ≡ 2 * (2 ^ n / 2)) (omega arith) (suc-even (8 * s - 1))

-- A sum of two numbers below the modulus, and a difference.
pub sum_cases :
    (m a b : ℕ)
    → a < m
    → b < m
    → ((a + b < m) × ((a + b) % m ≡ a + b)) ⊎ ((m ≤ a + b) × ((a + b) % m ≡ a + b - m))
sum_cases m a b h k = elim (sum_or_more m a b) [
  | inl l ↦ inl (l, mod-eq_of_lt l)
  | inr l ↦ inr (l, mod-eq-sub-mod l ∙ mod-eq_of_lt (omega arith))
]

pub difference_cases :
    (m a b : ℕ)
    → a < m
    → b < m
    → ((b ≤ a) × ((a + (m - b)) % m ≡ a - b)) ⊎ ((a < b) × ((a + (m - b)) % m ≡ a + m - b))
difference_cases m a b h k = elim (sum_or_more b a 0) [
  | inl l ↦ inr (omega arith, mod-eq_of_lt (omega arith) ∙ omega arith)
  | inr l ↦
      inl (omega arith, mod-eq-sub-mod (omega arith) ∙ mod-eq_of_lt (omega arith) ∙ omega arith)
]

pub difference-difference :
    (m a b c : ℕ)
    → a < m
    → b < m
    → c < m
    → ((a + (m - b)) % m + (m - c)) % m ≡ (a + (m - (b + c) % m)) % m
difference-difference m a b c h k l =
    let p : (a + (m - b)) % m < m = mod-lt (a + (m - b)) (omega arith) in
    let q : (b + c) % m < m = mod-lt (b + c) (omega arith) in
    ground (
      arith,
      difference_cases m a b h k,
      sum_cases m b c k l,
      difference_cases m ((a + (m - b)) % m) c p l,
      difference_cases m a ((b + c) % m) h q,
    )

pub sum-sum : (m a b c : ℕ) → a < m → b < m → c < m → ((a + b) % m + c) % m ≡ (a + (b + c) % m) % m
sum-sum m a b c h k l =
    let p : (a + b) % m < m = mod-lt (a + b) (omega arith) in
    let q : (b + c) % m < m = mod-lt (b + c) (omega arith) in
    ground (
      arith,
      sum_cases m a b h k,
      sum_cases m b c k l,
      sum_cases m ((a + b) % m) c p l,
      sum_cases m a ((b + c) % m) h q,
    )

split_at : (w k : ℕ) → w ≤ k → k ≡ k - w + w
split_at w k h = omega arith

-- Shifting every digit out, to the left and to the right.
pub shifted_left_out : (x w k : ℕ) → w ≤ k → x * 2 ^ k % 2 ^ w ≡ 0
shifted_left_out x w k h =
    let split : x * 2 ^ k ≡ x * 2 ^ (k - w) * 2 ^ w =
      ap (λ n. x * 2 ^ n) (split_at w k h) ∙ omega (arith, ap (λ t. x * t) (pow_add 2 (k - w) w)) in
    ap (λ t. t % 2 ^ w) split ∙ mul-mod_left (x * 2 ^ (k - w)) (2 ^ w)

pub shifted_right_out : (x w k : ℕ) → x < 2 ^ w → w ≤ k → x / 2 ^ k ≡ 0
shifted_right_out x w k h l =
    let below : 2 ^ w ≤ 2 ^ k = pow-le-pow_right (omega arith) l in div-eq_of_lt (omega arith)

pub pow_even : (n : ℕ) → 0 < n → 2 ^ n ≡ 2 * (2 ^ n / 2)
pow_even zero h = absurd (omega arith)
pow_even (suc n) h = suc-even n
