-- ===== src/FileHandle/Tests.antt =====
-- Runs of a FileHandle over the system in memory, and the theorems at concrete inputs.
use base_utilities_esp.Base.{
  ℕ, ◌≡◌, refl, true, false, none, some, List, [], ◌∷◌, arith, replicate, pos, ◌+ℤ◌,
}
use base_utilities_esp.Posix.{Dirent, directory, regular}
use base_utilities_esp.Posix.Memory.{memory, memory-FileLaws, At}
use base_utilities_esp.FileHandle.{
  File, size, close, getline, getline_loop, read, writeline, write, write_string, newline, seek,
  seek_set, read_all, available, extract_string, is_space,
}
use base_utilities_esp.FileHandle.Modes.{open_flags, open_flags_lem}
use base_utilities_esp.FileHandle.Reads.{Positioned, close-close}
use base_utilities_esp.FileHandle.Line.{getline_lem, Leaves}
use base_utilities_esp.FileHandle.Lines.{
  write_lines, read_lines, read_lines-write_lines, writeline_lost_newline,
}
use base_utilities_esp.FileHandle.Words.{extract_string_lem}
use base_utilities_esp.FileHandle.Space.{available_lem, read_all_lem}
use base_utilities_esp.FileHandle.Directory.{listdir, listdir_lem}

abbrev entries : List Dirent
entries =
    record { d_name = "."; d_type = directory } ∷ record { d_name = "a"; d_type = regular } ∷ []

abbrev on_disk : List ℕ → List ℕ → File memory
on_disk before after = record {
  fd = pos 3;
  world = (record { before = before; after = after }, entries);
}

open_flags_lem_example : open_flags 0x202 ≡ 0x202
open_flags_lem_example = open_flags_lem 0x202 (omega arith)

-- `ab\ncd`, read from the start.
abbrev text_file : File memory
text_file = on_disk [] (97 ∷ 98 ∷ 10 ∷ 99 ∷ 100 ∷ [])

getline_lem_example :
    (f' : File memory) × (getline memory 9 10 [] text_file ≡ some (true, 97 ∷ 98 ∷ [], f'))
    × Leaves memory At f' (97 ∷ 98 ∷ 10 ∷ 99 ∷ 100 ∷ []) (99 ∷ 100 ∷ [])
getline_lem_example =
    getline_lem memory At memory-FileLaws 9 10 [] text_file [] (97 ∷ 98 ∷ 10 ∷ 99 ∷ 100 ∷ [])
      (refl, (refl, refl)) (omega arith) (omega arith)

abbrev two_lines : List (List ℕ)
two_lines = (97 ∷ []) ∷ [] ∷ []

read_lines-write_lines_example :
    (f' : File memory) × (read_lines memory 9 3
        (seek memory (pos 0) seek_set (write_lines memory two_lines (on_disk [] [])).1).1
      ≡ some (two_lines, f'))
unfolding write_lines writeline write_string newline write ◌+ℤ◌
read_lines-write_lines_example =
    read_lines-write_lines memory At memory-FileLaws 9 3 two_lines (on_disk [] [])
      (refl, (refl, refl)) ((refl, tt), (tt, tt)) (omega arith) refl (omega arith) (omega arith)

-- The last line has no newline, and the third call finds nothing.
read_lines_run :
    (elim (read_lines memory 9 3 text_file) [ none ↦ [] | some (lines, f) ↦ lines ])
    ≡ (97 ∷ 98 ∷ []) ∷ (99 ∷ 100 ∷ []) ∷ []
unfolding read_lines getline getline_loop read size
read_lines_run = refl

extract_string_lem_example :
    (f' : File memory) × (extract_string memory 9 (on_disk [] (32 ∷ 97 ∷ 98 ∷ 10 ∷ 99 ∷ []))
      ≡ some (97 ∷ 98 ∷ [], f'))
    × Leaves memory At f' (32 ∷ 97 ∷ 98 ∷ 10 ∷ 99 ∷ []) (99 ∷ [])
unfolding is_space
extract_string_lem_example =
    extract_string_lem memory At memory-FileLaws 9 (on_disk [] (32 ∷ 97 ∷ 98 ∷ 10 ∷ 99 ∷ [])) []
      (32 ∷ 97 ∷ 98 ∷ 10 ∷ 99 ∷ []) (refl, (refl, refl)) (omega arith)

available_lem_instance :
    ((available memory (on_disk (1 ∷ []) (2 ∷ 3 ∷ []))).0 ≡ pos 2)
    × Positioned memory At
        (available memory (on_disk (1 ∷ []) (2 ∷ 3 ∷ []))).1
        (1 ∷ [])
        (2 ∷ 3 ∷ [])
available_lem_instance =
    available_lem memory At memory-FileLaws (on_disk (1 ∷ []) (2 ∷ 3 ∷ [])) (1 ∷ []) (2 ∷ 3 ∷ [])
      (refl, (refl, refl))

read_all_lem_example :
    ((read_all memory (on_disk (1 ∷ []) (2 ∷ 3 ∷ []))).0 ≡ 1 ∷ 2 ∷ 3 ∷ [])
    × Positioned memory At (read_all memory (on_disk (1 ∷ []) (2 ∷ 3 ∷ []))).1 (1 ∷ 2 ∷ 3 ∷ []) []
read_all_lem_example =
    read_all_lem memory At memory-FileLaws (on_disk (1 ∷ []) (2 ∷ 3 ∷ [])) (1 ∷ []) (2 ∷ 3 ∷ [])
      (refl, (refl, refl)) (omega arith)

-- A disk with room for the string and not for the newline.
abbrev nearly_full : File memory
nearly_full = on_disk (replicate 63 7) []

writeline_lost_newline_instance : (writeline memory (1 ∷ []) nearly_full).0 +ℤ pos 1 ≡ pos 1
unfolding write
writeline_lost_newline_instance = writeline_lost_newline memory (1 ∷ []) nearly_full refl refl

listdir_lem_example :
    listdir memory 4 "/" text_file.world
    ≡ some (record { name = "a"; is_dir = false; is_regular = true } ∷ [], (text_file.world.0, []))
listdir_lem_example =
    listdir_lem memory 4 "/" text_file.world tt entries refl (refl, (refl, refl)) (omega arith)

close-close_instance : close memory (close memory text_file) ≡ close memory text_file
close-close_instance = (close-close memory text_file).0
