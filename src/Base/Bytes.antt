-- ===== src/Base/Bytes.antt =====
-- Objects in memory: the little-endian bytes of unsigned and signed integers.
use Prim.Native.Nat.{ℕ, zero, suc, ◌+◌, ◌-◌, ◌*◌, ◌/◌, ◌%◌, ◌^◌, ◌<◌}
use mathlib.Core.Path.{◌≡◌, refl, ap}
use mathlib.Core.List.{List, [], ◌∷◌}
use native.Mathlib.Omega.{arith}
use native.Mathlib.Nat.{pow-suc}
use base_utilities_esp.Base.Tests.{ltb, if◌then◌else◌}
use base_utilities_esp.Base.Lists.{length}
use base_utilities_esp.Base.Int.{ℤ, pos, negsuc}

-- The bytes of an object of `w` bytes that holds `n`, lowest byte first.
unfoldable pub le_bytes : ℕ → ℕ → List ℕ
le_bytes zero n = []
le_bytes (suc w) n = (n % 256) ∷ le_bytes w (n / 256)

-- The unsigned value of bytes in memory, lowest byte first.
unfoldable pub le_value : List ℕ → ℕ
le_value [] = 0
le_value (b ∷ bs) = b + 256 * le_value bs

pub length-le_bytes : (w n : ℕ) → length (le_bytes w n) ≡ w
unfolding le_bytes
length-le_bytes zero n = refl
length-le_bytes (suc w) n = ap suc (length-le_bytes w (n / 256))

-- A value that fits its width is read back from its bytes.
pub le_value-le_bytes : (w n : ℕ) → n < 256 ^ w → le_value (le_bytes w n) ≡ n
unfolding le_value le_bytes
le_value-le_bytes zero n h = omega arith
le_value-le_bytes (suc w) n h = omega (arith, le_value-le_bytes w (n / 256) (quotient_fits w n h))
  where
    quotient_fits : (w n : ℕ) → n < 256 ^ suc w → n / 256 < 256 ^ w
    quotient_fits w n h = omega (arith, pow-suc 256 w)

-- The bit pattern of an `int32_t`, and the `int32_t` that a bit pattern stands for.
unfoldable pub i32_bits : ℤ → ℕ
i32_bits (pos n) = n % 2 ^ 32
i32_bits (negsuc n) = 2 ^ 32 - 1 - n % 2 ^ 32

unfoldable pub bits_i32 : ℕ → ℤ
bits_i32 n = if ltb n (2 ^ 31) then pos n else negsuc (2 ^ 32 - 1 - n)

abbrev pub InI32 : ℤ → Type 0
InI32 (pos n) = n < 2 ^ 31
InI32 (negsuc n) = n < 2 ^ 31

pub i32_bits-lt : (z : ℤ) → i32_bits z < 256 ^ 4
unfolding i32_bits
i32_bits-lt (pos n) = omega arith
i32_bits-lt (negsuc n) = omega arith

pub bits_i32-i32_bits : (z : ℤ) → InI32 z → bits_i32 (i32_bits z) ≡ z
unfolding bits_i32 i32_bits
bits_i32-i32_bits (pos n) h = ground arith
bits_i32-i32_bits (negsuc n) h = ground arith

pub bits_i32-pos : (n : ℕ) → n < 2 ^ 31 → bits_i32 (n % 2 ^ 32) ≡ pos n
unfolding bits_i32
bits_i32-pos n small = ground arith
