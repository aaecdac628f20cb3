-- ===== src/IpAddress/Scan.antt =====
-- The conversion %d of the standard library, printed and scanned, as src/IPAddress.cpp uses it.
use base_utilities_esp.Base.{
  ℕ, zero, suc, ◌+◌, ◌-◌, ◌*◌, ◌/◌, ◌%◌, ◌^◌, ◌≤◌, ◌<◌, Bool, true, false, ◌&&◌, ◌||◌, ◌≡◌, refl,
  ap, ◌∙◌, Option, none, some, List, [], ◌∷◌, ◌++◌, ltb, leb, ◌==◌, if◌then◌else◌, is_empty, length,
  length-append, ℤ, pos, negsuc, arith, Bool-cases, inl, inr,
}
use native.Mathlib.Nat.{pow-suc}

-- The digits of a number that is not negative; the first argument bounds their count.
unfoldable pub decimal : ℕ → ℕ → List ℕ
decimal zero n = []
decimal (suc k) n = if ltb n 10 then (48 + n) ∷ [] else decimal k (n / 10) ++ (48 + n % 10) ∷ []

abbrev is_digit : ℕ → Bool
is_digit c = leb 48 c && leb c 57

-- isspace in the C locale.
abbrev is_blank : ℕ → Bool
is_blank c = c == 32 || leb 9 c && leb c 13

abbrev skip_blanks : List ℕ → List ℕ
skip_blanks [] = []
skip_blanks (c ∷ cs) = if is_blank c then skip_blanks cs else c ∷ cs

-- Digits, and the text behind them.
abbrev scan_digits : ℕ → List ℕ → ℕ × List ℕ
scan_digits acc [] = (acc, [])
scan_digits acc (c ∷ cs) =
    if is_digit c then scan_digits (acc * 10 + (c - 48)) cs else (acc, c ∷ cs)

scan_unsigned : List ℕ → Option (ℕ × List ℕ)
scan_unsigned [] = none
scan_unsigned (c ∷ cs) = if is_digit c then some (scan_digits 0 (c ∷ cs)) else none

abbrev negate : ℕ → ℤ
negate zero = pos 0
negate (suc n) = negsuc n

scan_signed : List ℕ → Option (ℤ × List ℕ)
unfolding scan_unsigned
scan_signed [] = none
scan_signed (c ∷ cs) =
    if c == 45
    then elim (scan_unsigned cs) [ none ↦ none | some r ↦ some (negate r.0, r.1) ]
    else elim (scan_unsigned (if c == 43 then cs else c ∷ cs)) [
      | none ↦ none
      | some r ↦ some (pos r.0, r.1)
    ]

-- A number by %d and the text behind it. A number that no int holds has undefined behaviour there; it
-- is scanned here as it is.
unfoldable pub scan_int : List ℕ → Option (ℤ × List ℕ)
unfolding scan_signed
scan_int cs = scan_signed (skip_blanks cs)

all_digits : List ℕ → Bool
all_digits [] = true
all_digits (c ∷ cs) = is_digit c && all_digits cs

value : ℕ → List ℕ → ℕ
value acc [] = acc
value acc (c ∷ cs) = value (acc * 10 + (c - 48)) cs

-- A text whose first character is no digit.
abbrev pub ends_number : List ℕ → Bool
ends_number [] = true
ends_number (c ∷ cs) = ltb c 48

scan_digits-append :
    (acc : ℕ) (xs rest : List ℕ)
    → all_digits xs ≡ true
    → ends_number rest ≡ true
    → scan_digits acc (xs ++ rest) ≡ (value acc xs, rest)
unfolding all_digits value
scan_digits-append acc [] [] ok over = refl
scan_digits-append acc [] (c ∷ cs) ok over = ground arith
scan_digits-append acc (x ∷ xs) rest ok over =
    ground (arith, scan_digits-append (acc * 10 + (x - 48)) xs rest)

all_digits-append : (xs ys : List ℕ) → all_digits (xs ++ ys) ≡ (all_digits xs && all_digits ys)
unfolding all_digits
all_digits-append [] ys = refl
all_digits-append (x ∷ xs) ys = ground (arith, all_digits-append xs ys)

value-append :
    (acc : ℕ) (xs : List ℕ) (c : ℕ) → value acc (xs ++ c ∷ []) ≡ value acc xs * 10 + (c - 48)
unfolding value
value-append acc [] c = refl
value-append acc (x ∷ xs) c = value-append (acc * 10 + (x - 48)) xs c

all_digits-decimal : (k n : ℕ) → all_digits (decimal k n) ≡ true
unfolding decimal all_digits
all_digits-decimal zero n = refl
all_digits-decimal (suc k) n = elim (Bool-cases (ltb n 10)) [
  | inl small ↦ rw small (ground arith)
  | inr big ↦
      rw
        (
          big,
          all_digits-append (decimal k (n / 10)) ((48 + n % 10) ∷ []),
          all_digits-decimal k (n / 10),
        )
        (ground arith)
]

value-decimal : (k n : ℕ) → n < 10 ^ k → value 0 (decimal k n) ≡ n
unfolding decimal value
value-decimal zero n lt = omega arith
value-decimal (suc k) n lt = elim (Bool-cases (ltb n 10)) [
  | inl small ↦ rw small (omega arith)
  | inr big ↦
      rw (big, value-append 0 (decimal k (n / 10)) (48 + n % 10))
        (omega (arith, value-decimal k (n / 10) (omega (arith, pow-suc 10 k))))
]

scan_int-digits :
    (xs rest : List ℕ)
    → all_digits xs ≡ true
    → is_empty xs ≡ false
    → ends_number rest ≡ true
    → scan_int (xs ++ rest) ≡ some (pos (value 0 xs), rest)
unfolding scan_int scan_signed scan_unsigned all_digits value
scan_int-digits [] rest ok some_digit over = absurd (ground arith)
scan_int-digits (x ∷ xs) rest ok some_digit over =
    let digit : is_digit x ≡ true = ground arith in
    let digits : all_digits xs ≡ true = ground arith in
    let no_blank : is_blank x ≡ false = ground arith in
    let no_minus : (x == 45) ≡ false = ground arith in
    let no_plus : (x == 43) ≡ false = ground arith in
    rw
      (
        no_blank,
        no_minus,
        no_plus,
        digit,
        scan_digits-append (0 * 10 + (x - 48)) xs rest digits over,
      )
      refl

is_empty-snoc : (xs : List ℕ) (c : ℕ) → is_empty (xs ++ c ∷ []) ≡ false
is_empty-snoc [] c = refl
is_empty-snoc (x ∷ xs) c = refl

decimal-some : (k n : ℕ) → is_empty (decimal (suc k) n) ≡ false
unfolding decimal
decimal-some k n = elim (Bool-cases (ltb n 10)) [
  | inl small ↦ rw small refl
  | inr big ↦ rw (big, is_empty-snoc (decimal k (n / 10)) (48 + n % 10)) refl
]

-- A printed number is scanned back, up to the text behind it.
pub scan_int-decimal :
    (k n : ℕ) (rest : List ℕ)
    → n < 10 ^ suc k
    → ends_number rest ≡ true
    → scan_int (decimal (suc k) n ++ rest) ≡ some (pos n, rest)
scan_int-decimal k n rest lt over =
    scan_int-digits (decimal (suc k) n) rest (all_digits-decimal (suc k) n) (decimal-some k n) over
    ∙ ap (λ m. some (pos m, rest)) (value-decimal (suc k) n lt)

pub length-decimal : (k n w : ℕ) → n < 10 ^ w → 1 ≤ w → length (decimal k n) ≤ w
unfolding decimal
length-decimal zero n w lt one = omega arith
length-decimal (suc k) n zero lt one = absurd (omega arith)
length-decimal (suc k) n (suc zero) lt one = rw (below_ten n (omega arith)) (omega arith)
  where
    below_ten : (n : ℕ) → n < 10 → ltb n 10 ≡ true
    below_ten n lt = ground arith
length-decimal (suc k) n (suc (suc w)) lt one = elim (Bool-cases (ltb n 10)) [
  | inl small ↦ rw small (omega arith)
  | inr big ↦
      rw (big, length-append (decimal k (n / 10)) ((48 + n % 10) ∷ []))
        (omega (
          arith,
          length-decimal k (n / 10) (suc w) (omega (arith, pow-suc 10 (suc w))) (omega arith),
        ))
]
