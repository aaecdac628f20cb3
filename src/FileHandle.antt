-- ===== src/FileHandle.antt =====
-- include/FileHandle.hpp: the class FileHandle, with the system that it acts on as part of the
-- state. A method returns its result and the new state. Bytes are numbers; `off_t`, `ssize_t` and
-- `int` are integers of any size. The loops run on fuel, and `none` means that the fuel ran out.
pub mod Modes
pub mod Reads
pub mod Line
pub mod Lines
pub mod Words
pub mod Space
pub mod Directory
pub mod Calls
pub mod Runs
pub mod Content
pub mod Replies
pub mod Refine
pub mod Ledger
pub mod Owners
pub mod Touches
pub mod Histories
pub mod Descriptors
pub mod Reopen
mod Tests
use base_utilities_esp.Base.{
  ℕ, zero, suc, ◌+◌, ◌-◌, ◌^◌, String, Bool, true, false, not, ◌&&◌, ◌||◌, Option, none, some, List,
  [], ◌∷◌, ◌++◌, length, ltb, leb, ◌==◌, is_empty, if◌then◌else◌, ℤ, pos, negsuc, is_neg, ltb_ℤ,
  eqb_ℤ, minus_one, pos_part, ◌+ℤ◌, ◌-ℤ◌,
}
use base_utilities_esp.KvHandle.{resize, overwrite}
use base_utilities_esp.Posix.{Posix}
use Modes.{open_flags, has_flag, o_creat}

pub record File (P : Posix) : Type 0 where
  pub fd : ℤ
  pub world : P.World

-- SEEK_SET and SEEK_CUR
abbrev pub seek_set : ℕ
seek_set = 0

abbrev pub seek_cur : ℕ
seek_cur = 1

abbrev pub int_max : ℕ
int_max = 2 ^ 31 - 1

-- The char that a read put into a variable.
abbrev pub first : List ℕ → ℕ
first [] = 0
first (c ∷ cs) = c

-- std::isspace, in the C locale.
unfoldable pub is_space : ℕ → Bool
is_space c = c == 32 || (leb 9 c && leb c 13)

-- The lines of `available` from `file_size` and `current_pos` on.
unfoldable pub remaining : ℤ → ℤ → ℤ
unfolding ◌-ℤ◌
remaining file_size current_pos =
    if is_neg file_size || is_neg current_pos
    then minus_one
    else let rest = file_size -ℤ current_pos in
      if not (ltb_ℤ (pos 0) rest)
      then pos 0
      else if ltb_ℤ (pos int_max) rest
      then pos int_max
      else rest

module _ (P : Posix) where
  -- `FileHandle()`, on a system in some state.
  abbrev pub make : P.World → File P
  make w = record { fd = minus_one; world = w }

  unfoldable pub is_open : File P → Bool
  is_open f = not (is_neg f.fd)

  unfoldable pub close : File P → File P
  unfolding is_open
  close f = if is_open f then record { fd = minus_one; world = P.sys_close f.world f.fd } else f

  unfoldable pub start : String → ℕ → ℕ → File P → Bool × File P
  unfolding close is_open
  start path mode perm f =
      let closed = close f in
      let flags = open_flags mode in
      let (fd, w) =
        P.sys_open closed.world path flags (if has_flag flags o_creat then some perm else none) in
      let f' : File P = record { fd = fd; world = w } in (is_open f', f')

  -- The move constructor and move assignment, on descriptors in one system; `same` is
  -- `this == &other`. The result is the new handle and the descriptor that `other` is left with.
  unfoldable pub move : File P → File P × ℤ
  move other = (other, minus_one)

  unfoldable pub move_assign : Bool → File P → ℤ → File P × ℤ
  unfolding close
  move_assign same f other =
      if same then (f, other) else (record (close f) { fd = other }, minus_one)

  unfoldable pub size : File P → ℤ
  unfolding is_open
  size f =
      if not (is_open f)
      then minus_one
      else elim (P.fstat f.world f.fd) [ none ↦ minus_one | some n ↦ n ]

  unfoldable pub seek : ℤ → ℕ → File P → ℤ × File P
  unfolding is_open
  seek offset origin f =
      if not (is_open f)
      then (minus_one, f)
      else let (r, w) = P.lseek f.world f.fd offset origin in (r, record f { world = w })

  unfoldable pub tell : File P → ℤ × File P
  unfolding is_open
  tell f =
      if not (is_open f)
      then (minus_one, f)
      else let (r, w) = P.lseek f.world f.fd (pos 0) seek_cur in (r, record f { world = w })

  unfoldable pub available : File P → ℤ × File P
  unfolding is_open
  available f =
      if not (is_open f)
      then (minus_one, f)
      else let file_size = size f in
        let (current_pos, f') = tell f in (remaining file_size current_pos, f')

  unfoldable pub has_available : File P → Bool × File P
  has_available f = let (n, f') = available f in (ltb_ℤ (pos 0) n, f')

  unfoldable pub sync : File P → Bool × File P
  unfolding is_open
  sync f =
      if not (is_open f)
      then (false, f)
      else let (r, w) = P.fsync f.world f.fd in (eqb_ℤ r (pos 0), record f { world = w })

  -- The result, the bytes put into the buffer, and the new state.
  unfoldable pub read : ℕ → File P → ℤ × List ℕ × File P
  unfolding is_open
  read count f =
      if not (is_open f)
      then (minus_one, [], f)
      else let (n, bytes, w) = P.sys_read f.world f.fd count in (n, bytes, record f { world = w })

  unfoldable pub write : List ℕ → File P → ℤ × File P
  unfolding is_open
  write bytes f =
      if not (is_open f)
      then (minus_one, f)
      else let (n, w) = P.sys_write f.world f.fd bytes in (n, record f { world = w })

  -- The loop of `getline`: the last result of `read`, the line, and the new state.
  unfoldable pub getline_loop : ℕ → ℕ → List ℕ → File P → Option (ℤ × List ℕ × File P)
  getline_loop zero delimiter line f = none
  getline_loop (suc fuel) delimiter line f =
      let (n, bytes, f') = read 1 f in
      let c = first bytes in
      let more = getline_loop fuel delimiter (line ++ c ∷ []) f' in
      if eqb_ℤ n (pos 1)
      then (if c == delimiter then some (n, line, f') else more)
      else some (n, line, f')

  -- The line after the call is the caller's if the file is not open or empty.
  unfoldable pub getline : ℕ → ℕ → List ℕ → File P → Option (Bool × List ℕ × File P)
  unfolding is_open
  getline fuel delimiter line f =
      if not (is_open f) || not (ltb_ℤ (pos 0) (size f))
      then some (false, line, f)
      else elim (getline_loop fuel delimiter [] f) [
        | none ↦ none
        | some (n, line', f') ↦ some (not (is_empty line') || eqb_ℤ n (pos 1), line', f')
      ]

  -- The last lines of `read_all`, for a file of `count` bytes.
  unfoldable pub read_content : ℕ → File P → List ℕ × File P
  read_content count f =
      let (r, f') = seek (pos 0) seek_set f in
      let (n, bytes, f'') = read count f' in
      if not (ltb_ℤ (pos 0) n)
      then ([], f'')
      else (resize (pos_part n) (overwrite (resize count []) bytes), f'')

  unfoldable pub read_all : File P → List ℕ × File P
  unfolding is_open
  read_all f =
      if not (is_open f)
      then ([], f)
      else if not (ltb_ℤ (pos 0) (size f))
      then ([], f)
      else read_content (pos_part (size f)) f

  unfoldable pub write_string : List ℕ → File P → ℤ × File P
  write_string str f = write str f

  unfoldable pub newline : File P → ℤ × File P
  newline f = write (10 ∷ []) f

  unfoldable pub writeline : List ℕ → File P → ℤ × File P
  writeline str f =
      let (n, f') = write_string str f in
      if is_neg n then (n, f') else let (nl, f'') = newline f' in (n +ℤ nl, f'')

  -- `operator>>(T&)` and `operator<<(T)` for arithmetic types, on the bytes of the object.
  unfoldable pub extract : List ℕ → File P → List ℕ × File P
  extract value f = let (n, bytes, f') = read (length value) f in (overwrite value bytes, f')

  unfoldable pub insert : List ℕ → File P → File P
  insert value f = (write value f).1

  -- `operator<<` of a string_view or std::string, and of a C string that may be null.
  unfoldable pub insert_string : List ℕ → File P → File P
  insert_string str f = (write_string str f).1

  unfoldable pub insert_cstring : Option (List ℕ) → File P → File P
  insert_cstring none f = f
  insert_cstring (some str) f = (write str f).1

  -- The two loops of `operator>>(std::string&)`: the string, and the new state.
  unfoldable pub word_loop : ℕ → List ℕ → File P → Option (List ℕ × File P)
  word_loop zero str f = none
  word_loop (suc fuel) str f =
      let (n, bytes, f') = read 1 f in
      let c = first bytes in
      let more = word_loop fuel (str ++ c ∷ []) f' in
      if not (eqb_ℤ n (pos 1)) then some (str, f') else if is_space c then some (str, f') else more

  unfoldable pub skip_loop : ℕ → File P → Option (List ℕ × File P)
  skip_loop zero f = none
  skip_loop (suc fuel) f =
      let (n, bytes, f') = read 1 f in
      let c = first bytes in
      let more = skip_loop fuel f' in
      let word = word_loop fuel (c ∷ []) f' in
      if not (eqb_ℤ n (pos 1)) then some ([], f') else if not (is_space c) then word else more

  unfoldable pub extract_string : ℕ → File P → Option (List ℕ × File P)
  extract_string fuel f = skip_loop fuel f
