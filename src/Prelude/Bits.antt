-- ===== src/Prelude/Bits.antt =====
-- Laws of the bitwise operations on numbers, whose digits are read from the lowest up.
use Prim.Native.Nat.{
  ℕ, zero, suc, ◌+◌, ◌*◌, ◌/◌, ◌%◌, ◌^◌, ◌≤◌, ◌<◌, min, max, differ, digits, bit_and, bit_or,
  bit_xor, bit_and-bitwise, bit_or-bitwise, bit_xor-bitwise,
}
use mathlib.Core.Path.{◌≡◌, refl, sym, ap, ◌∙◌}
use native.Mathlib.Omega.{arith}
use native.Mathlib.Nat.{pow-suc}

-- What the digits of the first operand are followed by is the operation on the digit 0.
module _ (z : ℕ → ℕ) (f : ℕ → ℕ → ℕ) (rest : (b : ℕ) → z b ≡ z (b / 2) * 2 + f 0 (b % 2)) where
  -- Any fuel from the first operand on gives the same digits.
  digits-fuel : (n m a b : ℕ) → a ≤ n → a ≤ m → digits z f n a b ≡ digits z f m a b
  digits-fuel zero zero a b p q = refl
  digits-fuel zero (suc m) zero b p q = refl
  digits-fuel zero (suc m) (suc a) b p q = absurd (omega arith)
  digits-fuel (suc n) zero zero b p q = refl
  digits-fuel (suc n) zero (suc a) b p q = absurd (omega arith)
  digits-fuel (suc n) (suc m) zero b p q = refl
  digits-fuel (suc n) (suc m) (suc a) b p q =
      omega (arith, digits-fuel n m (suc a / 2) (b / 2) (omega arith) (omega arith))

  digits_step :
      (a b : ℕ) → digits z f a a b ≡ digits z f (a / 2) (a / 2) (b / 2) * 2 + f (a % 2) (b % 2)
  digits_step zero b = rest b
  digits_step (suc a) b =
      omega (arith, digits-fuel a (suc a / 2) (suc a / 2) (b / 2) (omega arith) (omega arith))

pub bit_and_step : (a b : ℕ) → bit_and a b ≡ bit_and (a / 2) (b / 2) * 2 + min (a % 2) (b % 2)
bit_and_step a b = omega (
  arith,
  bit_and-bitwise a b,
  bit_and-bitwise (a / 2) (b / 2),
  digits_step (λ b. zero) min (λ b. omega arith) a b,
)

pub bit_or_step : (a b : ℕ) → bit_or a b ≡ bit_or (a / 2) (b / 2) * 2 + max (a % 2) (b % 2)
bit_or_step a b = omega (
  arith,
  bit_or-bitwise a b,
  bit_or-bitwise (a / 2) (b / 2),
  digits_step (λ b. b) max (λ b. omega arith) a b,
)

pub bit_xor_step : (a b : ℕ) → bit_xor a b ≡ bit_xor (a / 2) (b / 2) * 2 + differ (a % 2) (b % 2)
bit_xor_step a b = omega (
  arith,
  bit_xor-bitwise a b,
  bit_xor-bitwise (a / 2) (b / 2),
  digits_step (λ b. b) differ (λ b. omega arith) a b,
)

half-le : (a n : ℕ) → suc a ≤ suc n → suc a / 2 ≤ n
half-le a n h = omega arith

below-zero : (a : ℕ) → suc a ≤ 0 → ⊥
below-zero a h = omega arith

-- Both operands have no more than the fuel's digits.
module _ (op : ℕ → ℕ → ℕ) (digit : ℕ → ℕ → ℕ)
    (step : (a b : ℕ) → op a b ≡ op (a / 2) (b / 2) * 2 + digit (a % 2) (b % 2))
    (zeros : op 0 0 ≡ 0) where
  -- A law of the digits carries over to the numbers.
  same_operands :
      (result : ℕ → ℕ)
      → result 0 ≡ 0
      → ((a : ℕ) → result a ≡ result (a / 2) * 2 + digit (a % 2) (a % 2))
      → (n a : ℕ) → a ≤ n
      → op a a ≡ result a
  same_operands result base next zero zero h = zeros ∙ sym base
  same_operands result base next zero (suc a) h = absurd (below-zero a h)
  same_operands result base next (suc n) zero h = zeros ∙ sym base
  same_operands result base next (suc n) (suc a) h =
      step (suc a) (suc a)
      ∙ ap (λ t. t * 2 + digit (suc a % 2) (suc a % 2))
          (same_operands result base next n (suc a / 2) (half-le a n h))
      ∙ sym (next (suc a))

  symmetric :
      ((a b : ℕ) → digit (a % 2) (b % 2) ≡ digit (b % 2) (a % 2))
      → (n a b : ℕ) → a + b ≤ n
      → op a b ≡ op b a
  symmetric swap zero zero zero h = refl
  symmetric swap zero zero (suc b) h = absurd (omega arith)
  symmetric swap zero (suc a) b h = absurd (omega arith)
  symmetric swap (suc n) zero zero h = refl
  symmetric swap (suc n) zero (suc b) h = omega (
    arith,
    step 0 (suc b),
    step (suc b) 0,
    swap 0 (suc b),
    symmetric swap n 0 (suc b / 2) (omega arith),
  )
  symmetric swap (suc n) (suc a) b h = omega (
    arith,
    step (suc a) b,
    step b (suc a),
    swap (suc a) b,
    symmetric swap n (suc a / 2) (b / 2) (omega arith),
  )

  bounded :
      ((a b : ℕ) → digit (a % 2) (b % 2) ≤ 1) → (w a b : ℕ) → a < 2 ^ w → b < 2 ^ w → op a b < 2 ^ w
  bounded digit_bound zero zero zero h k = omega (arith, zeros)
  bounded digit_bound zero (suc a) b h k = absurd (omega arith)
  bounded digit_bound zero zero (suc b) h k = absurd (omega arith)
  bounded digit_bound (suc w) a b h k = omega (
    arith,
    step a b,
    digit_bound a b,
    bounded digit_bound w (a / 2) (b / 2) (omega arith) (omega arith),
  )

pub bit_and-same : (a : ℕ) → bit_and a a ≡ a
bit_and-same a =
    same_operands bit_and min bit_and_step refl (λ a. a) refl (λ a. omega arith) a a (omega arith)

pub bit_or-same : (a : ℕ) → bit_or a a ≡ a
bit_or-same a =
    same_operands bit_or max bit_or_step refl (λ a. a) refl (λ a. omega arith) a a (omega arith)

differ_same : (a : ℕ) → differ a a ≡ 0
differ_same zero = refl
differ_same (suc a) = differ_same a

differ_swap : (a b : ℕ) → differ a b ≡ differ b a
differ_swap zero zero = refl
differ_swap zero (suc b) = refl
differ_swap (suc a) zero = refl
differ_swap (suc a) (suc b) = differ_swap a b

differ_bound : (a b n : ℕ) → a ≤ n → b ≤ n → differ a b ≤ n
differ_bound zero b n h k = k
differ_bound (suc a) zero n h k = h
differ_bound (suc a) (suc b) n h k = differ_bound a b n (omega arith) (omega arith)

pub bit_xor-same : (a : ℕ) → bit_xor a a ≡ 0
bit_xor-same a =
    same_operands bit_xor differ bit_xor_step refl (λ a. 0) refl
      (λ a. omega (arith, differ_same (a % 2))) a a (omega arith)

pub bit_and_comm : (a b : ℕ) → bit_and a b ≡ bit_and b a
bit_and_comm a b =
    symmetric bit_and min bit_and_step refl (λ a b. omega arith) (a + b) a b (omega arith)

pub bit_or_comm : (a b : ℕ) → bit_or a b ≡ bit_or b a
bit_or_comm a b =
    symmetric bit_or max bit_or_step refl (λ a b. omega arith) (a + b) a b (omega arith)

pub bit_xor_comm : (a b : ℕ) → bit_xor a b ≡ bit_xor b a
bit_xor_comm a b =
    symmetric bit_xor differ bit_xor_step refl (λ a b. differ_swap (a % 2) (b % 2)) (a + b) a b
      (omega arith)

pub bit_and-lt : (w a b : ℕ) → a < 2 ^ w → b < 2 ^ w → bit_and a b < 2 ^ w
bit_and-lt = bounded bit_and min bit_and_step refl (λ a b. omega arith)

pub bit_or-lt : (w a b : ℕ) → a < 2 ^ w → b < 2 ^ w → bit_or a b < 2 ^ w
bit_or-lt = bounded bit_or max bit_or_step refl (λ a b. omega arith)

pub bit_xor-lt : (w a b : ℕ) → a < 2 ^ w → b < 2 ^ w → bit_xor a b < 2 ^ w
bit_xor-lt =
    bounded bit_xor differ bit_xor_step refl
      (λ a b. differ_bound (a % 2) (b % 2) 1 (omega arith) (omega arith))

pub bit_and-zero : (b : ℕ) → bit_and 0 b ≡ 0
bit_and-zero b = bit_and-bitwise 0 b

pub bit_or-zero : (b : ℕ) → bit_or 0 b ≡ b
bit_or-zero b = bit_or-bitwise 0 b

pub bit_xor-zero : (b : ℕ) → bit_xor 0 b ≡ b
bit_xor-zero b = bit_xor-bitwise 0 b

-- All digits of the mask are ones.
pub bit_and-mask : (w a m : ℕ) → a < 2 ^ w → m + 1 ≡ 2 ^ w → bit_and m a ≡ a
bit_and-mask zero zero m h k = bit_and_comm m 0 ∙ bit_and-zero m
bit_and-mask zero (suc a) m h k = absurd (omega arith)
bit_and-mask (suc w) a m h k =
    omega (arith, bit_and_step m a, bit_and-mask w (a / 2) (m / 2) (omega arith) (omega arith))

-- The low digits of a multiple of a power are free.
pub bit_or-shifted : (k x y : ℕ) → y < 2 ^ k → bit_or (x * 2 ^ k) y ≡ x * 2 ^ k + y
bit_or-shifted zero x zero h = bit_or_comm (x * 2 ^ 0) 0 ∙ bit_or-zero (x * 2 ^ 0) ∙ omega arith
bit_or-shifted zero x (suc y) h = absurd (omega arith)
bit_or-shifted (suc k) x y h =
    let double : x * 2 ^ suc k ≡ 2 * (x * 2 ^ k) = omega (arith, ap (λ t. x * t) (pow-suc 2 k)) in
    let half : x * 2 ^ suc k / 2 ≡ x * 2 ^ k = omega (arith, double) in
    let rest : bit_or (x * 2 ^ k) (y / 2) ≡ x * 2 ^ k + y / 2 =
      bit_or-shifted k x (y / 2) (omega (arith, pow-suc 2 k)) in
    bit_or_step (x * 2 ^ suc k) y
    ∙ ap (λ t. bit_or t (y / 2) * 2 + max (x * 2 ^ suc k % 2) (y % 2)) half
    ∙ omega (arith, rest, double)
