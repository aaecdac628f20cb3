-- ===== src/IpAddress.antt =====
-- include/IPAddress.hpp and src/IPAddress.cpp: IPv4 addresses. An address is the uint32_t `m_addr`, a
-- text is the list of its bytes.
pub mod Scan
pub mod RoundTrip
pub mod Equality
mod Tests
use Prim.Native.Nat.{bit_or}
use base_utilities_esp.Base.{
  ℕ, zero, suc, ◌+◌, ◌-◌, ◌*◌, ◌/◌, ◌%◌, ◌^◌, Bool, true, false, not, ◌&&◌, ◌||◌, Option, none,
  some, List, [], ◌∷◌, ◌++◌, take, ltb, leb, ◌==◌, if◌then◌else◌, ℤ, pos, negsuc, i32_bits, ◌>>=◌,
}
use Scan.{decimal, scan_int}

-- `x << k` on a uint32_t.
abbrev shift_left : ℕ → ℕ → ℕ
shift_left x k = x * 2 ^ k % 2 ^ 32

-- `a << 24 | b << 16 | c << 8 | d` on values of type uint32_t.
unfoldable pub join : (a b c d : ℕ) → ℕ
join a b c d = bit_or (bit_or (bit_or (shift_left a 24) (shift_left b 16)) (shift_left c 8)) d

-- IPAddress(uint8_t a, uint8_t b, uint8_t c, uint8_t d)
unfoldable pub from_bytes : (a b c d : ℕ) → ℕ
unfolding join
from_bytes a b c d = join a b c d

-- IPAddress(), and IPAddress(uint32_t addr)
abbrev pub make : ℕ
make = 0

abbrev pub from_raw : ℕ → ℕ
from_raw addr = addr

-- raw() and operator*
abbrev pub raw : ℕ → ℕ
raw addr = addr

-- operator== and operator!=
unfoldable pub equals : ℕ → ℕ → Bool
equals addr other = addr == other

unfoldable pub differs : ℕ → ℕ → Bool
differs addr other = not (addr == other)

-- `(m_addr >> k) & 0xFF`
unfoldable pub octet : ℕ → ℕ → ℕ
octet addr k = addr / 2 ^ k % 256

-- operator[]; a shift by a negative number, or by 32 and more, is undefined.
unfoldable pub get : ℕ → ℤ → Option ℕ
unfolding octet
get addr (pos index) = if ltb index 4 then some (octet addr (8 * (3 - index))) else none
get addr (negsuc n) = none

-- What snprintf prints, of which the buffer holds 15 characters.
unfoldable pub dotted : ℕ → List ℕ
unfolding octet
dotted addr =
    decimal 10 (octet addr 24)
    ++ 46
      ∷ (decimal 10 (octet addr 16)
          ++ 46 ∷ (decimal 10 (octet addr 8) ++ 46 ∷ decimal 10 (octet addr 0)))

unfoldable pub to_string : ℕ → List ℕ
to_string addr = take 15 (dotted addr)

-- A literal `.` of the format, then the rest of it.
unfoldable pub after_dot : List ℕ → Option (List ℕ)
after_dot [] = none
after_dot (c ∷ cs) = if c == 46 then some cs else none

-- The four numbers that sscanf reads by "%d.%d.%d.%d", if it reads all four.
unfoldable pub scan_four : List ℕ → Option (ℤ × ℤ × ℤ × ℤ)
unfolding after_dot
scan_four str = do
  (a, r₁) ← scan_int str
  (b, r₂) ← after_dot r₁ >>= scan_int
  (c, r₃) ← after_dot r₂ >>= scan_int
  (d, r₄) ← after_dot r₃ >>= scan_int
  some (a, b, c, d)

-- The numbers, whatever they are, are cast to uint32_t and put together.
unfoldable pub address_of : Option (ℤ × ℤ × ℤ × ℤ) → ℕ
address_of none = 0
address_of (some (a, b, c, d)) = join (i32_bits a) (i32_bits b) (i32_bits c) (i32_bits d)

unfoldable pub from_string : List ℕ → ℕ
from_string str = address_of (scan_four str)
