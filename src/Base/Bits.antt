-- ===== src/Base/Bits.antt =====
-- The bitwise or of a number that was shifted and one below the shift is their sum.
use Prim.Native.Nat.{
  ℕ, zero, suc, ◌+◌, ◌*◌, ◌/◌, ◌%◌, ◌^◌, ◌≤◌, ◌<◌, max, bit_or, digits, bit_or-bitwise,
}
use mathlib.Core.Path.{◌≡◌, refl, ap, ap₂, sym, ◌∙◌}
use native.Mathlib.Omega.{arith}
use native.Mathlib.Nat.{pow-suc, mul_assoc}

-- The digit count that `digits` recurses on does not matter once it is large enough.
or_digits : ℕ → ℕ → ℕ → ℕ
or_digits n a b = digits (λ y. y) max n a b

or_digits_any : (n k a b : ℕ) → a ≤ n → a ≤ k → or_digits n a b ≡ or_digits k a b
unfolding or_digits
or_digits_any zero zero a b hn hk = refl
or_digits_any zero (suc k) zero b hn hk = refl
or_digits_any (suc n) zero zero b hn hk = refl
or_digits_any (suc n) (suc k) zero b hn hk = refl
or_digits_any zero k (suc a) b hn hk = absurd (omega arith)
or_digits_any (suc n) zero (suc a) b hn hk = absurd (omega arith)
or_digits_any (suc n) (suc k) (suc a) b hn hk =
    omega (arith, or_digits_any n k (suc a / 2) (b / 2) (omega arith) (omega arith))

bit_or-or_digits : (n a b : ℕ) → a ≤ n → bit_or a b ≡ or_digits n a b
unfolding or_digits
bit_or-or_digits n a b h = omega (arith, bit_or-bitwise a b, or_digits_any a n a b (omega arith) h)

-- The lowest digit and the others.
bit_or-halves :
    (a b : ℕ) → bit_or (suc a) b ≡ bit_or (suc a / 2) (b / 2) * 2 + max (suc a % 2) (b % 2)
unfolding or_digits
bit_or-halves a b = omega (
  arith,
  bit_or-or_digits (suc a) (suc a) b (omega arith),
  bit_or-or_digits a (suc a / 2) (b / 2) (omega arith),
)

zero-bit_or : (b : ℕ) → bit_or 0 b ≡ b
zero-bit_or b = bit_or-bitwise 0 b

bit_or-zero_under : (n a : ℕ) → a ≤ n → bit_or a 0 ≡ a
bit_or-zero_under n zero h = zero-bit_or 0
bit_or-zero_under zero (suc a) h = absurd (omega arith)
bit_or-zero_under (suc n) (suc a) h =
    omega (arith, bit_or-halves a 0, bit_or-zero_under n (suc a / 2) (omega arith))

bit_or-double : (a b : ℕ) → bit_or (a * 2) b ≡ bit_or a (b / 2) * 2 + b % 2
bit_or-double zero b = omega (arith, zero-bit_or b, zero-bit_or (b / 2))
bit_or-double (suc a) b = ap (λ n. bit_or n b) twice ∙ rw halves (rw lowest (omega arith))
  where
    twice : suc a * 2 ≡ suc (a * 2 + 1)
    twice = omega arith

    halves :
        bit_or (suc (a * 2 + 1)) b
        ≡ bit_or (suc (a * 2 + 1) / 2) (b / 2) * 2 + max (suc (a * 2 + 1) % 2) (b % 2)
    halves = bit_or-halves (a * 2 + 1) b

    lowest : suc (a * 2 + 1) / 2 ≡ suc a
    lowest = omega arith

-- A number that was shifted left by k, or one below 2^k, is their sum.
pub bit_or-shifted : (k a b : ℕ) → b < 2 ^ k → bit_or (a * 2 ^ k) b ≡ a * 2 ^ k + b
bit_or-shifted zero a b h =
    ap₂ bit_or once low ∙ (bit_or-zero_under a a (omega arith) ∙ omega arith)
  where
    once : a * 2 ^ 0 ≡ a
    once = omega arith

    low : b ≡ 0
    low = omega arith
bit_or-shifted (suc k) a b h =
    ap (λ n. bit_or n b) twice
    ∙ rw (bit_or-double (a * 2 ^ k) b)
        (omega (arith, twice, bit_or-shifted k a (b / 2) (omega (arith, pow-suc 2 k))))
  where
    twice : a * 2 ^ suc k ≡ a * 2 ^ k * 2
    twice = ap (λ p. a * p) (pow-suc 2 k) ∙ sym (mul_assoc a (2 ^ k) 2)
