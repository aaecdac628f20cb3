-- ===== src/Posix.antt =====
-- The POSIX calls of include/FileHandle.hpp: a parameter. `Posix` has one function for each call,
-- over an unknown state of the system; `FileLaws` says what POSIX promises of an open regular file.
pub mod Memory
use base_utilities_esp.Base.{
  ℕ, ◌+◌, ◌≤◌, String, ◌≡◌, Option, some, List, [], ◌++◌, length, take, drop, ℤ, pos, pos_part,
}

-- `d_type` of a directory entry, and the type in `st_mode`.
pub data FileType : Type 0 where
  directory regular other : FileType

pub record Dirent : Type 0 where
  pub d_name : String
  pub d_type : FileType

-- `fstat` and `stat` give `none` where the call does not return 0. `sys_read` gives the result, the
-- bytes put into the buffer and the new state.
pub record Posix : Type 1 where
  pub World : Type 0
  pub Dir : Type 0
  pub sys_open : World → String → ℕ → Option ℕ → ℤ × World
  pub sys_close : World → ℤ → World
  pub fstat : World → ℤ → Option ℤ
  pub lseek : World → ℤ → ℤ → ℕ → ℤ × World
  pub fsync : World → ℤ → ℤ × World
  pub sys_read : World → ℤ → ℕ → ℤ × List ℕ × World
  pub sys_write : World → ℤ → List ℕ → ℤ × World
  pub opendir : World → String → Option Dir × World
  pub readdir : World → Dir → Option Dirent × World
  pub closedir : World → Dir → World
  pub stat : World → String → Option FileType
  pub access : World → String → ℤ
  pub unlink : World → String → ℤ × World
  pub sys_rename : World → String → String → ℤ × World

-- `At w fd before after`: `fd` is open on a regular file of the bytes `before ++ after`, and the
-- file offset stands between the two. A write may write less than it is given, or fail; what is
-- promised is that one which reports the full length at the end of the file appends the bytes.
pub record FileLaws (P : Posix) (At : P.World → ℤ → List ℕ → List ℕ → Type 0) : Type 0 where
  pub read_at :
      (w : P.World) (fd : ℤ) (before after : List ℕ) (n : ℕ)
      → At w fd before after
      → ((P.sys_read w fd n).0 ≡ pos (length (take n after)))
        × ((P.sys_read w fd n).1 ≡ take n after)
        × At (P.sys_read w fd n).2 fd (before ++ take n after) (drop n after)
  pub fstat_at :
      (w : P.World) (fd : ℤ) (before after : List ℕ)
      → At w fd before after
      → P.fstat w fd ≡ some (pos (length before + length after))
  pub rewind_at :
      (w : P.World) (fd : ℤ) (before after : List ℕ)
      → At w fd before after
      → ((P.lseek w fd (pos 0) 0).0 ≡ pos 0) × At (P.lseek w fd (pos 0) 0).1 fd [] (before ++ after)
  pub tell_at :
      (w : P.World) (fd : ℤ) (before after : List ℕ)
      → At w fd before after
      → ((P.lseek w fd (pos 0) 1).0 ≡ pos (length before))
        × At (P.lseek w fd (pos 0) 1).1 fd before after
  pub write_le :
      (w : P.World) (fd : ℤ) (bytes : List ℕ) → pos_part (P.sys_write w fd bytes).0 ≤ length bytes
  pub append_at :
      (w : P.World) (fd : ℤ) (before bytes : List ℕ)
      → At w fd before []
      → (P.sys_write w fd bytes).0 ≡ pos (length bytes)
      → At (P.sys_write w fd bytes).1 fd (before ++ bytes) []

-- For a descriptor without O_APPEND: what a write reports is what it put behind the offset, over the
-- bytes there and behind them all at the end; a write that fails puts nothing.
pub record WriteLaws (P : Posix) (At : P.World → ℤ → List ℕ → List ℕ → Type 0) : Type 0 where
  pub write_at :
      (w : P.World) (fd : ℤ) (before after bytes : List ℕ)
      → At w fd before after
      → let (n, w') = P.sys_write w fd bytes in
        At w' fd (before ++ take (pos_part n) bytes) (drop (pos_part n) after)
