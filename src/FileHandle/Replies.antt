-- ===== src/FileHandle/Replies.antt =====
-- One call on a FileHandle that is open: the reply is one that the file as bytes and an offset
-- allows.
use base_utilities_esp.Base.{
  ℕ, ◌+◌, ◌≤◌, ◌<◌, ◌≡◌, refl, false, not, ◌||◌, Option, some, List, [], ◌∷◌, ◌++◌, length, take,
  leb, is_empty, if◌then◌else◌, ℤ, pos, pos_part, ltb_ℤ, arith, length-append, append-nil,
}
use base_utilities_esp.KvHandle.{overwrite}
use base_utilities_esp.Posix.{Posix, FileLaws, WriteLaws}
use base_utilities_esp.FileHandle.{
  File, read, getline, read_all, extract, seek, seek_set, tell, available, has_available, write,
  insert, int_max,
}
use base_utilities_esp.FileHandle.Reads.{Positioned, read_lem, size_lem, rewind_lem, tell_lem}
use base_utilities_esp.FileHandle.Line.{line_of, has_delimiter, rest_of, getline_lem}
use base_utilities_esp.FileHandle.Words.{skip_spaces, word_of, behind_word, extract_string_lem}
use base_utilities_esp.FileHandle.Space.{available_lem, read_all_lem}
use base_utilities_esp.FileHandle.Calls.{Call, Reply}
use base_utilities_esp.FileHandle.Runs.{call, run}
use base_utilities_esp.FileHandle.Content.{Content, whole, move_on, overwritten, Allows}

any_left :
    (a : List ℕ)
    → ltb_ℤ (pos 0) (pos (if leb (length a) int_max then length a else int_max)) ≡ not (is_empty a)
any_left [] = refl
any_left (x ∷ a) = ground arith

module _ (P : Posix) (At : P.World → ℤ → List ℕ → List ℕ → Type 0) (L : FileLaws P At)
    (W : WriteLaws P At) where
  -- The handle is open on the file.
  abbrev pub Shows : File P → Content → Type 0
  Shows f c = Positioned P At f c.before c.after

  -- The result of a call that does what the file allows.
  abbrev pub Keeps : Call → Content → Option (Reply × File P) → Type 0
  Keeps k c o =
      (r : Reply) × (f' : File P) × (c' : Content) × (o ≡ some (r, f'))
      × Allows k c r c'
      × Shows f' c'

  -- An empty file, from which `getline` and `read_all` read nothing.
  getline-nil :
      (fuel d : ℕ) (line : List ℕ) (f : File P)
      → Positioned P At f [] []
      → getline P fuel d line f ≡ some (false, line, f)
  unfolding getline
  getline-nil fuel d line f h = ground (arith, size_lem P At L f [] [] h)

  read_all-nil : (f : File P) → Positioned P At f [] [] → read_all P f ≡ ([], f)
  unfolding read_all
  read_all-nil f h = ground (arith, size_lem P At L f [] [] h)

  getline_found :
      (fuel d : ℕ) (line : List ℕ) (f : File P) (b a : List ℕ)
      → Positioned P At f b a
      → 0 < length b + length a
      → is_empty (b ++ a) ≡ false
      → length a < fuel
      → Keeps
          (Call.getline d line)
          (record { before = b; after = a })
          (call P fuel (Call.getline d line) f)
  unfolding call
  getline_found fuel d line f b a h some_there nonempty enough =
      let (f', done, (b', at, same)) = getline_lem P At L fuel d line f b a h some_there enough in
      (
        Reply.line (not (is_empty (line_of d a)) || has_delimiter d a) (line_of d a),
        f',
        record { before = b'; after = rest_of d a },
        rw (done, call) refl,
        (rw nonempty refl, (same, refl)),
        at,
      )

  getline-Keeps :
      (fuel d : ℕ) (line : List ℕ) (f : File P) (b a : List ℕ)
      → Positioned P At f b a
      → length a < fuel
      → Keeps
          (Call.getline d line)
          (record { before = b; after = a })
          (call P fuel (Call.getline d line) f)
  unfolding call
  getline-Keeps fuel d line f [] [] h enough = (
    Reply.line false line,
    f,
    record { before = []; after = [] },
    rw (getline-nil fuel d line f h, call) refl,
    (refl, (refl, refl)),
    h,
  )
  getline-Keeps fuel d line f [] (x ∷ a) h enough =
      getline_found fuel d line f [] (x ∷ a) h (omega arith) refl enough
  getline-Keeps fuel d line f (x ∷ b) a h enough =
      getline_found fuel d line f (x ∷ b) a h (omega arith) refl enough

  word-Keeps :
      (fuel : ℕ) (f : File P) (c : Content)
      → Shows f c
      → length c.after < fuel
      → Keeps Call.extract_string c (call P fuel Call.extract_string f)
  unfolding call
  word-Keeps fuel f c h enough =
      let (f', run, (b, at, same)) = extract_string_lem P At L fuel f c.before c.after h enough in
      (
        Reply.text (word_of (skip_spaces c.after)),
        f',
        record { before = b; after = behind_word (skip_spaces c.after) },
        rw (run, call) refl,
        (refl, (same, refl)),
        at,
      )

  read_all_found :
      (fuel : ℕ) (f : File P) (b a : List ℕ)
      → Positioned P At f b a
      → 0 < length (b ++ a)
      → Keeps Call.read_all (record { before = b; after = a }) (call P fuel Call.read_all f)
  unfolding call
  read_all_found fuel f b a h some_there =
      let (r, at) = read_all_lem P At L f b a h some_there in
      (
        Reply.text (b ++ a),
        (read_all P f).1,
        record { before = b ++ a; after = [] },
        rw r refl,
        (refl, (append-nil (b ++ a), refl)),
        at,
      )

  read_all-Keeps :
      (fuel : ℕ) (f : File P) (b a : List ℕ)
      → Positioned P At f b a
      → Keeps Call.read_all (record { before = b; after = a }) (call P fuel Call.read_all f)
  unfolding call
  read_all-Keeps fuel f [] [] h = (
    Reply.text [],
    f,
    record { before = []; after = [] },
    rw (read_all-nil f h) refl,
    (refl, (refl, refl)),
    h,
  )
  read_all-Keeps fuel f [] (x ∷ a) h = read_all_found fuel f [] (x ∷ a) h (omega arith)
  read_all-Keeps fuel f (x ∷ b) a h = read_all_found fuel f (x ∷ b) a h (omega arith)

  write_lem :
      (f : File P) (c : Content) (bytes : List ℕ)
      → Shows f c
      → (pos_part (write P bytes f).0 ≤ length bytes)
        × Shows (write P bytes f).1 (overwritten (pos_part (write P bytes f).0) bytes c)
  unfolding write
  write_lem f c bytes h =
      rw (h.0, write)
        (L.write_le f.world f.fd bytes, (h.0, W.write_at f.world f.fd c.before c.after bytes h.1))

  pub call-Keeps :
      (fuel : ℕ) (k : Call) (f : File P) (c : Content)
      → Shows f c
      → length c.after < fuel
      → Keeps k c (call P fuel k f)
  unfolding call extract has_available insert
  call-Keeps fuel (Call.read n) f c h enough =
      let (r, bytes, at) = read_lem P At L f c.before c.after n h in
      (
        Reply.counted (pos (length (take n c.after))) (take n c.after),
        (read P n f).2,
        move_on n c,
        rw (r, bytes) refl,
        (refl, refl),
        at,
      )
  call-Keeps fuel (Call.getline d line) f c h enough =
      getline-Keeps fuel d line f c.before c.after h enough
  call-Keeps fuel Call.extract_string f c h enough = word-Keeps fuel f c h enough
  call-Keeps fuel (Call.extract value) f c h enough =
      let n = length value in
      let (r, bytes, at) = read_lem P At L f c.before c.after n h in
      (
        Reply.text (overwrite value (take n c.after)),
        (read P n f).2,
        move_on n c,
        rw bytes refl,
        (refl, refl),
        at,
      )
  call-Keeps fuel Call.read_all f c h enough = read_all-Keeps fuel f c.before c.after h
  call-Keeps fuel Call.rewind f c h enough =
      let (r, at) = rewind_lem P At L f c.before c.after h in
      (
        Reply.count (pos 0),
        (seek P (pos 0) seek_set f).1,
        record { before = []; after = whole c },
        rw r refl,
        (refl, (refl, refl)),
        at,
      )
  call-Keeps fuel Call.tell f c h enough =
      let (r, at) = tell_lem P At L f c.before c.after h in
      (Reply.count (pos (length c.before)), (tell P f).1, c, rw r refl, (refl, refl), at)
  call-Keeps fuel Call.size f c h enough = (
    Reply.count (pos (length (whole c))),
    f,
    c,
    rw (size_lem P At L f c.before c.after h, length-append c.before c.after) refl,
    (refl, refl),
    h,
  )
  call-Keeps fuel Call.available f c h enough =
      let (r, at) = available_lem P At L f c.before c.after h in
      (_, (available P f).1, c, rw r refl, (refl, refl), at)
  call-Keeps fuel Call.has_available f c h enough =
      let (r, at) = available_lem P At L f c.before c.after h in
      (
        Reply.flag (not (is_empty c.after)),
        (available P f).1,
        c,
        rw (r, any_left c.after) refl,
        (refl, refl),
        at,
      )
  call-Keeps fuel (Call.write bytes) f c h enough =
      let (le, at) = write_lem f c bytes h in
      (_, (write P bytes f).1, _, refl, ((write P bytes f).0, refl, le, refl), at)
  call-Keeps fuel (Call.insert bytes) f c h enough =
      let (le, at) = write_lem f c bytes h in
      (
        Reply.no_reply,
        (write P bytes f).1,
        _,
        refl,
        (pos_part (write P bytes f).0, refl, le, refl),
        at,
      )
