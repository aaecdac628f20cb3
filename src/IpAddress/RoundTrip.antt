-- ===== src/IpAddress/RoundTrip.antt =====
-- Bytes and texts of an IPv4 address.
use base_utilities_esp.Base.{
  ℕ, ◌+◌, ◌*◌, ◌%◌, ◌^◌, ◌≤◌, ◌<◌, ◌≡◌, refl, ap, ap₂, sym, ◌∙◌, some, List, [], ◌∷◌, ◌++◌,
  append-nil, length, length-append, take_all, pos, i32_bits, arith, bit_or-shifted,
}
use Prim.Native.Nat.{bit_or}
use base_utilities_esp.IpAddress.{
  join, from_bytes, octet, get, dotted, to_string, scan_four, address_of, from_string, after_dot,
}
use base_utilities_esp.IpAddress.Scan.{decimal, scan_int, scan_int-decimal, length-decimal}

octet-lt : (addr k : ℕ) → octet addr k < 256
unfolding octet
octet-lt addr k = omega arith

-- Four bytes put together make the number that has them as its digits to the base 256.
join_lem :
    (a b c d : ℕ)
    → a < 256
    → b < 256
    → c < 256
    → d < 256
    → join a b c d ≡ ((a * 256 + b) * 256 + c) * 256 + d
unfolding join
join_lem a b c d ha hb hc hd =
    let first : bit_or (a * 2 ^ 24) (b * 2 ^ 16) ≡ (a * 256 + b) * 2 ^ 16 =
      bit_or-shifted 24 a (b * 2 ^ 16) (omega arith) ∙ omega arith in
    let second : bit_or ((a * 256 + b) * 2 ^ 16) (c * 2 ^ 8) ≡ ((a * 256 + b) * 256 + c) * 2 ^ 8 =
      bit_or-shifted 16 (a * 256 + b) (c * 2 ^ 8) (omega arith) ∙ omega arith in
    let third : bit_or (((a * 256 + b) * 256 + c) * 2 ^ 8) d ≡ ((a * 256 + b) * 256 + c) * 256 + d =
      bit_or-shifted 8 ((a * 256 + b) * 256 + c) d (omega arith) in
    ap₂ bit_or
      (ap₂ bit_or (ap₂ bit_or (unshifted 24 a (omega arith)) (unshifted 16 b (omega arith)) ∙ first)
          (unshifted 8 c (omega arith))
        ∙ second)
      refl
    ∙ third
  where
    unshifted : (k x : ℕ) → x * 2 ^ k < 2 ^ 32 → x * 2 ^ k % 2 ^ 32 ≡ x * 2 ^ k
    unshifted k x lt = omega arith

scan_int-byte :
    (n : ℕ) (rest : List ℕ)
    → n < 256
    → scan_int (decimal 10 n ++ 46 ∷ rest) ≡ some (pos n, 46 ∷ rest)
scan_int-byte n rest lt = scan_int-decimal 9 n (46 ∷ rest) (omega arith) refl

scan_int-last : (n : ℕ) → n < 256 → scan_int (decimal 10 n) ≡ some (pos n, [])
scan_int-last n lt =
    ap scan_int (sym (append-nil (decimal 10 n))) ∙ scan_int-decimal 9 n [] (omega arith) refl

scan_four-dotted :
    (addr : ℕ)
    → scan_four (dotted addr)
      ≡ some (pos (octet addr 24), pos (octet addr 16), pos (octet addr 8), pos (octet addr 0))
unfolding scan_four dotted after_dot
scan_four-dotted addr =
    rw
      (
        scan_int-byte (octet addr 24)
            (decimal 10 (octet addr 16)
              ++ 46 ∷ (decimal 10 (octet addr 8) ++ 46 ∷ decimal 10 (octet addr 0)))
            (octet-lt addr 24),
        scan_int-byte (octet addr 16) (decimal 10 (octet addr 8) ++ 46 ∷ decimal 10 (octet addr 0))
            (octet-lt addr 16),
        scan_int-byte (octet addr 8) (decimal 10 (octet addr 0)) (octet-lt addr 8),
        scan_int-last (octet addr 0) (octet-lt addr 0),
      )
      refl

length-byte :
    (n : ℕ) (rest : List ℕ) → n < 256 → length (decimal 10 n ++ 46 ∷ rest) ≤ 4 + length rest
length-byte n rest lt = omega (
  arith,
  length-append (decimal 10 n) (46 ∷ rest),
  length-decimal 10 n 3 (omega arith) (omega arith),
)

-- What snprintf prints always fits the buffer of 16 characters.
length-dotted : (addr : ℕ) → length (dotted addr) ≤ 15
unfolding dotted
length-dotted addr =
    let after_third = decimal 10 (octet addr 0) in
    let after_second = decimal 10 (octet addr 8) ++ 46 ∷ after_third in
    let after_first = decimal 10 (octet addr 16) ++ 46 ∷ after_second in
    omega (
      arith,
      length-byte (octet addr 24) after_first (octet-lt addr 24),
      length-byte (octet addr 16) after_second (octet-lt addr 16),
      length-byte (octet addr 8) after_third (octet-lt addr 8),
      length-decimal 10 (octet addr 0) 3 (below_thousand (octet-lt addr 0)) (omega arith),
    )
  where
    below_thousand : {n : ℕ} → n < 256 → n < 10 ^ 3
    below_thousand lt = omega arith

pub to_string-dotted : (addr : ℕ) → to_string addr ≡ dotted addr
unfolding to_string
to_string-dotted addr = take_all 15 (dotted addr) (length-dotted addr)

i32_bits-small : (n : ℕ) → n < 256 → i32_bits (pos n) ≡ n
unfolding i32_bits
i32_bits-small n lt = omega arith

join-octets :
    (addr : ℕ)
    → addr < 2 ^ 32
    → join (octet addr 24) (octet addr 16) (octet addr 8) (octet addr 0) ≡ addr
unfolding octet
join-octets addr fits = omega (
  arith,
  join_lem (octet addr 24) (octet addr 16) (octet addr 8) (octet addr 0) (octet-lt addr 24)
      (octet-lt addr 16) (octet-lt addr 8) (octet-lt addr 0),
)

-- An address is read back from the text that is printed for it.
pub from_string-to_string : (addr : ℕ) → addr < 2 ^ 32 → from_string (to_string addr) ≡ addr
unfolding from_string address_of
from_string-to_string addr fits =
    ap address_of (ap scan_four (to_string-dotted addr) ∙ scan_four-dotted addr)
    ∙ (rw (cast 24, cast 16, cast 8, cast 0) (join-octets addr fits))
  where
    cast : (k : ℕ) → i32_bits (pos (octet addr k)) ≡ octet addr k
    cast k = i32_bits-small (octet addr k) (octet-lt addr k)

-- The four bytes that an address was made of are those that the index operator gives.
pub get-from_bytes :
    (a b c d : ℕ)
    → a < 256
    → b < 256
    → c < 256
    → d < 256
    → (get (from_bytes a b c d) (pos 0) ≡ some a)
      × (get (from_bytes a b c d) (pos 1) ≡ some b)
      × (get (from_bytes a b c d) (pos 2) ≡ some c)
      × (get (from_bytes a b c d) (pos 3) ≡ some d)
unfolding get from_bytes octet
get-from_bytes a b c d ha hb hc hd =
    let sum = join_lem a b c d ha hb hc hd in
    (
      ap some (omega (arith, sum)),
      ap some (omega (arith, sum)),
      ap some (omega (arith, sum)),
      ap some (omega (arith, sum)),
    )
