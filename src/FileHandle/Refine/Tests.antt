-- ===== src/FileHandle/Refine/Tests.antt =====
-- A sequence of calls on a file in memory.
use base_utilities_esp.Base.{ℕ, ◌≡◌, refl, true, false, some, List, [], ◌∷◌, pos, arith}
use base_utilities_esp.Posix.Memory.{memory, memory-FileLaws, memory-WriteLaws, At}
use base_utilities_esp.FileHandle.{
  File, read, size, tell, seek, getline, getline_loop, read_all, read_content, extract_string,
  skip_loop, word_loop, available, has_available, remaining, write, is_space,
}
use base_utilities_esp.FileHandle.Calls.{Call, Reply}
use base_utilities_esp.FileHandle.Runs.{call, run}
use base_utilities_esp.FileHandle.Content.{Content, Explains}
use base_utilities_esp.FileHandle.Replies.{Shows}
use base_utilities_esp.FileHandle.Refine.{run-refines}

abbrev on_disk : List ℕ → List ℕ → File memory
on_disk before after = record {
  fd = pos 3;
  world = (record { before = before; after = after }, []);
}

-- `ab\n c`, of which a byte is written over.
abbrev some_calls : List Call
some_calls =
    Call.getline 10 []
    ∷ Call.tell
    ∷ Call.write (120 ∷ [])
    ∷ Call.extract_string
    ∷ Call.has_available
    ∷ Call.read_all
    ∷ []

abbrev text : List ℕ
text = 97 ∷ 98 ∷ 10 ∷ 32 ∷ 99 ∷ []

some_replies :
    run memory 9 some_calls (on_disk [] text)
    ≡ some (
      Reply.line true (97 ∷ 98 ∷ [])
          ∷ Reply.count (pos 3)
          ∷ Reply.count (pos 1)
          ∷ Reply.text (99 ∷ [])
          ∷ Reply.flag false
          ∷ Reply.text (97 ∷ 98 ∷ 10 ∷ 120 ∷ 99 ∷ [])
          ∷ [],
      on_disk (97 ∷ 98 ∷ 10 ∷ 120 ∷ 99 ∷ []) [],
    )
unfolding run call read size tell seek getline getline_loop read_all read_content extract_string
    skip_loop word_loop available has_available remaining write is_space
some_replies = refl

run-refines_example :
    (rs : List Reply) × (f' : File memory) × (c' : Content) × (run memory 9 some_calls
        (on_disk [] text)
      ≡ some (rs, f'))
    × Explains some_calls (record { before = []; after = text }) rs c'
    × Shows memory At memory-FileLaws memory-WriteLaws f' c'
run-refines_example =
    run-refines memory At memory-FileLaws memory-WriteLaws 9 some_calls (on_disk [] text)
      (record { before = []; after = text }) (refl, (refl, refl)) (omega arith)
