-- ===== src/IpAddress/Tests.antt =====
-- Addresses and their texts.
use base_utilities_esp.Base.{i32_bits, ◌≡◌, ◌↔◌, true, not, refl, some, [], ◌∷◌, pos, arith}
use base_utilities_esp.IpAddress.{
  to_string, dotted, octet, from_string, address_of, scan_four, after_dot, get, from_bytes, join,
  equals, differs, from_raw,
}
use base_utilities_esp.IpAddress.Equality.{equals-to_string}
use base_utilities_esp.IpAddress.Scan.{decimal, scan_int}
use base_utilities_esp.IpAddress.RoundTrip.{from_string-to_string, get-from_bytes}

-- 192.168.4.1
printed : to_string 0xc0a80401 ≡ 49 ∷ 57 ∷ 50 ∷ 46 ∷ 49 ∷ 54 ∷ 56 ∷ 46 ∷ 52 ∷ 46 ∷ 49 ∷ []
unfolding to_string dotted octet decimal
printed = refl

-- "1.2.3" is no address, and of "300.1.1.1" the first number loses a digit of its base.
three_numbers : from_string (49 ∷ 46 ∷ 50 ∷ 46 ∷ 51 ∷ []) ≡ 0
unfolding from_string address_of scan_four scan_int after_dot
three_numbers = refl

too_large : from_string (51 ∷ 48 ∷ 48 ∷ 46 ∷ 49 ∷ 46 ∷ 49 ∷ 46 ∷ 49 ∷ []) ≡ 0x2c010101
unfolding from_string address_of scan_four scan_int after_dot join i32_bits
too_large = refl

from_string-to_string_instance : from_string (to_string 0xc0a80401) ≡ 0xc0a80401
from_string-to_string_instance = from_string-to_string 0xc0a80401 (omega arith)

get-from_bytes_example :
    (get (from_bytes 192 168 4 1) (pos 0) ≡ some 192)
    × (get (from_bytes 192 168 4 1) (pos 1) ≡ some 168)
    × (get (from_bytes 192 168 4 1) (pos 2) ≡ some 4)
    × (get (from_bytes 192 168 4 1) (pos 3) ≡ some 1)
get-from_bytes_example =
    get-from_bytes 192 168 4 1 (omega arith) (omega arith) (omega arith) (omega arith)

equals-to_string_example :
    ((equals 0xc0a80401 0xc0a80402 ≡ true) ↔ (to_string 0xc0a80401 ≡ to_string 0xc0a80402))
    × (differs 0xc0a80401 0xc0a80402 ≡ not (equals 0xc0a80401 0xc0a80402))
    × (from_string (to_string (from_raw 0xc0a80401)) ≡ 0xc0a80401)
equals-to_string_example = equals-to_string 0xc0a80401 0xc0a80402 (omega arith) (omega arith)
