-- ===== src/FileHandle/Runs.antt =====
-- What FileHandle does for a call, and for a sequence of calls.
use base_utilities_esp.Base.{ℕ, Option, none, some, List, [], ◌∷◌, pos}
use base_utilities_esp.Posix.{Posix}
use base_utilities_esp.FileHandle.{
  File, read, getline, read_all, extract_string, extract, seek, seek_set, tell, size, available,
  has_available, write, insert,
}
use base_utilities_esp.FileHandle.Calls.{Call, Reply}

module _ (P : Posix) where
  unfoldable pub call : ℕ → Call → File P → Option (Reply × File P)
  call fuel (Call.read n) f = let (r, bytes, f') = read P n f in some (Reply.counted r bytes, f')
  call fuel (Call.getline d line) f = elim (getline P fuel d line f) [
    | none ↦ none
    | some (found, line', f') ↦ some (Reply.line found line', f')
  ]
  call fuel Call.extract_string f = elim (extract_string P fuel f) [
    | none ↦ none
    | some (word, f') ↦ some (Reply.text word, f')
  ]
  call fuel (Call.extract value) f =
      let (value', f') = extract P value f in some (Reply.text value', f')
  call fuel Call.read_all f = let (content, f') = read_all P f in some (Reply.text content, f')
  call fuel Call.rewind f = let (r, f') = seek P (pos 0) seek_set f in some (Reply.count r, f')
  call fuel Call.tell f = let (r, f') = tell P f in some (Reply.count r, f')
  call fuel Call.size f = some (Reply.count (size P f), f)
  call fuel Call.available f = let (r, f') = available P f in some (Reply.count r, f')
  call fuel Call.has_available f = let (r, f') = has_available P f in some (Reply.flag r, f')
  call fuel (Call.write bytes) f = let (r, f') = write P bytes f in some (Reply.count r, f')
  call fuel (Call.insert bytes) f = some (Reply.no_reply, insert P bytes f)

  unfoldable pub run : ℕ → List Call → File P → Option (List Reply × File P)
  run fuel [] f = some ([], f)
  run fuel (c ∷ cs) f = elim (call fuel c f) [
    | none ↦ none
    | some (r, f') ↦ elim (run fuel cs f') [ none ↦ none | some (rs, f'') ↦ some (r ∷ rs, f'') ]
  ]
