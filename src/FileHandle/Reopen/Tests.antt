-- ===== src/FileHandle/Reopen/Tests.antt =====
-- Two lines, written and read through two opens of one file in memory.
use base_utilities_esp.Base.{ℕ, ◌≡◌, refl, some, List, [], ◌∷◌, ◌++◌, arith, minus_one, ◌+ℤ◌}
use base_utilities_esp.Posix.{Dirent}
use base_utilities_esp.Posix.Memory.{memory, memory-FileLaws, At, Disk}
use base_utilities_esp.FileHandle.{
  File, start, close, is_open, writeline, write_string, newline, write,
}
use base_utilities_esp.FileHandle.Modes.{open_flags, add_flag, has_flag}
use base_utilities_esp.FileHandle.Lines.{write_lines, read_lines}
use base_utilities_esp.FileHandle.Reopen.{PathLaws, reopened, reopen_lem}

abbrev Holds : Disk × List Dirent → List ℕ → Type 0
Holds w content = w.0.before ++ w.0.after ≡ content

memory-PathLaws : PathLaws memory "log.txt" At Holds
unfolding has_flag
memory-PathLaws = record {
  open_truncated = λ w flags n perm readable writable empties opened. ground (arith, empties);
  open_kept = λ w flags n perm content readable keeps holds opened. ground (arith, keeps, holds);
  close_at = λ w n b a at. rw (at.0, at.1) refl;
}

abbrev no_file : File memory
no_file = record { fd = minus_one; world = (record { before = 1 ∷ []; after = [] }, []) }

-- ReadWrite, Create and Truncate; then ReadOnly.
reopen_lem_example :
    (f' : File memory) × (read_lines memory 9 3
        (reopened memory "log.txt" 0x602 0 0 0 ((97 ∷ []) ∷ [] ∷ []) no_file).1
      ≡ some ((97 ∷ []) ∷ [] ∷ [], f'))
unfolding start close is_open open_flags add_flag has_flag write_lines writeline write_string
    newline write ◌+ℤ◌
reopen_lem_example =
    reopen_lem memory "log.txt" At Holds memory-FileLaws memory-PathLaws 9 3 0x602 0 0 0
      ((97 ∷ []) ∷ [] ∷ []) no_file refl refl refl refl refl ((refl, tt), (tt, tt)) (omega arith)
      (omega arith) (omega arith) refl refl refl
