-- ===== src/FileHandle/Modes.antt =====
-- The open modes of include/FileHandle.hpp and the flags of `open`, with newlib's values.
use Prim.Native.Nat.{bit_and, bit_or}
use base_utilities_esp.Base.{
  ℕ, zero, suc, ◌<◌, ◌≡◌, refl, Bool, true, false, not, arith, ◌==◌, if◌then◌else◌,
}

abbrev pub o_rdonly : ℕ
o_rdonly = 0

abbrev pub o_wronly : ℕ
o_wronly = 1

abbrev pub o_rdwr : ℕ
o_rdwr = 2

abbrev pub o_append : ℕ
o_append = 8

abbrev pub o_creat : ℕ
o_creat = 0x200

abbrev pub o_trunc : ℕ
o_trunc = 0x400

abbrev pub o_excl : ℕ
o_excl = 0x800

-- `if (mode & flag)`
unfoldable pub has_flag : ℕ → ℕ → Bool
has_flag mode flag = not (bit_and mode flag == 0)

-- One line `if (mode & flag) flags |= flag;`
unfoldable pub add_flag : ℕ → ℕ → ℕ → ℕ
unfolding has_flag
add_flag mode flag flags = if has_flag mode flag then bit_or flags flag else flags

unfoldable pub open_flags : ℕ → ℕ
unfolding add_flag
open_flags mode = add_flag mode o_excl (
    add_flag mode o_append (
      add_flag mode o_trunc (
        add_flag mode o_creat
          (add_flag mode o_rdwr (add_flag mode o_wronly (add_flag mode o_rdonly 0))))))

-- operator| and operator& of OpenMode.
unfoldable pub or_mode : ℕ → ℕ → ℕ
or_mode a b = bit_or a b

unfoldable pub and_mode : ℕ → ℕ → ℕ
and_mode a b = bit_and a b

-- The bits of all modes.
abbrev mode_mask : ℕ
mode_mask = 0xe0b

-- Two functions on words give the same word for every argument under a bound.
agree_under : (ℕ → ℕ) → (ℕ → ℕ) → ℕ → Bool
agree_under f g zero = true
agree_under f g (suc bound) = if f bound == g bound then agree_under f g bound else false

agree_under_lem :
    (f g : ℕ → ℕ) (bound : ℕ) → agree_under f g bound ≡ true → (m : ℕ) → m < bound → f m ≡ g m
unfolding agree_under
agree_under_lem f g zero h m lt = absurd (omega arith)
agree_under_lem f g (suc bound) h m lt = grind (arith, agree_under_lem f g bound)

mode_bits_agree : agree_under open_flags (λ m. bit_and m mode_mask) 4096 ≡ true
unfolding agree_under open_flags
mode_bits_agree = refl

-- For a mode of twelve bits the flags are the bits of the mode that name an open mode, and no other.
pub open_flags_lem : (m : ℕ) → m < 4096 → open_flags m ≡ bit_and m mode_mask
open_flags_lem m small =
    agree_under_lem open_flags (λ n. bit_and n mode_mask) 4096 mode_bits_agree m small
