-- ===== src/Common/Bits.antt =====
-- The bit operations on numbers whose digits do not meet: a mask is a remainder, and joining a low
-- part to a shifted high part is a sum.
use Prim.Native.Nat.{
  ℕ, zero, suc, ◌+◌, ◌*◌, ◌/◌, ◌%◌, ◌^◌, ◌≤◌, ◌<◌, min, max, bit_and, bit_or, digits, bitwise,
  bit_and-bitwise, bit_or-bitwise,
}
use mathlib.Core.Path.{◌≡◌, refl}
use native.Mathlib.Omega.{arith}
use native.Mathlib.Nat.{pow-suc}

-- A digit-wise operation: `left` is what it makes of the second number behind the first's digits.
module _ (left : ℕ → ℕ) (digit : ℕ → ℕ → ℕ) where
  rounds_agree : (m n a b : ℕ) → a ≤ m → a ≤ n → digits left digit m a b ≡ digits left digit n a b
  rounds_agree (suc m) (suc n) (suc a) b h k =
      omega (arith, rounds_agree m n (suc a / 2) (b / 2) (omega arith) (omega arith))
  rounds_agree (suc m) (suc n) zero b h k = refl
  rounds_agree (suc m) zero zero b h k = refl
  rounds_agree zero (suc n) zero b h k = refl
  rounds_agree zero zero a b h k = refl
  rounds_agree (suc m) zero (suc a) b h k = absurd (omega arith)
  rounds_agree zero (suc n) (suc a) b h k = absurd (omega arith)

  -- The last digit, before all others.
  bitwise_last :
      (a b : ℕ)
      → left b ≡ left (b / 2) * 2 + digit 0 (b % 2)
      → bitwise left digit a b ≡ bitwise left digit (a / 2) (b / 2) * 2 + digit (a % 2) (b % 2)
  bitwise_last zero b h = h
  bitwise_last (suc a) b h =
      omega (arith, rounds_agree a (suc a / 2) (suc a / 2) (b / 2) (omega arith) (omega arith))

or_last : (a b : ℕ) → bit_or a b ≡ bit_or (a / 2) (b / 2) * 2 + max (a % 2) (b % 2)
or_last a b = omega (
  arith,
  bit_or-bitwise a b,
  bit_or-bitwise (a / 2) (b / 2),
  bitwise_last (λ c. c) max a b (omega arith),
)

and_last : (a b : ℕ) → bit_and a b ≡ bit_and (a / 2) (b / 2) * 2 + min (a % 2) (b % 2)
and_last a b = omega (
  arith,
  bit_and-bitwise a b,
  bit_and-bitwise (a / 2) (b / 2),
  bitwise_last (λ c. 0) min a b (omega arith),
)

or_nothing : (n a : ℕ) → a ≤ n → bit_or a 0 ≡ a
or_nothing n zero h = omega (arith, bit_or-bitwise 0 0)
or_nothing zero (suc a) h = absurd (omega arith)
or_nothing (suc n) (suc a) h =
    omega (arith, or_last (suc a) 0, or_nothing n (suc a / 2) (omega arith))

and_nothing : (n a : ℕ) → a ≤ n → bit_and a 0 ≡ 0
and_nothing n zero h = omega (arith, bit_and-bitwise 0 0)
and_nothing zero (suc a) h = absurd (omega arith)
and_nothing (suc n) (suc a) h =
    omega (arith, and_last (suc a) 0, and_nothing n (suc a / 2) (omega arith))

-- `a << k | b` for a `b` of k bits.
pub bit_or-shifted : (k a b : ℕ) → b < 2 ^ k → bit_or (a * 2 ^ k) b ≡ a * 2 ^ k + b
bit_or-shifted zero a b h =
    let none_left : b ≡ 0 = omega arith in
    rw none_left (omega (arith, or_nothing (a * 1) (a * 1) (omega arith)))
bit_or-shifted (suc k) a b h =
    let induction : bit_or (a * 2 ^ k) (b / 2) ≡ a * 2 ^ k + b / 2 =
      bit_or-shifted k a (b / 2) (omega (arith, pow-suc 2 k)) in
    let doubled : a * 2 ^ suc k ≡ 2 * (a * 2 ^ k) = rw (pow-suc 2 k) grind arith in
    let halves : a * 2 ^ suc k / 2 ≡ a * 2 ^ k = omega (arith, doubled) in
    omega (arith, doubled, rw halves at (or_last (a * 2 ^ suc k) b), induction)

and_nibble : (a : ℕ) → bit_and a 15 ≡ a % 16
and_nibble a = omega (
  arith,
  and_last a 15,
  and_last (a / 2) 7,
  and_last (a / 2 / 2) 3,
  and_last (a / 2 / 2 / 2) 1,
  and_nothing a (a / 2 / 2 / 2 / 2) (omega arith),
)

-- `a & 0xff`
pub bit_and-byte : (a : ℕ) → bit_and a 0xff ≡ a % 256
bit_and-byte a = omega (
  arith,
  and_last a 255,
  and_last (a / 2) 127,
  and_last (a / 2 / 2) 63,
  and_last (a / 2 / 2 / 2) 31,
  and_nibble (a / 2 / 2 / 2 / 2),
)
