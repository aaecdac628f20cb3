-- ===== src/FileHandle/Content.antt =====
-- A file as FileHandle shows it: the bytes before the offset and the bytes behind it, and what each
-- call may reply and do to them.
use base_utilities_esp.Base.{
  ap, ◌∙◌, append_assoc, arith, length-append, take-append-drop, length-take-le, length-drop-le, ℕ,
  ◌+◌, ◌≤◌, ◌≡◌, false, not, ◌||◌, List, [], ◌∷◌, ◌++◌, length, take, drop, leb, is_empty,
  if◌then◌else◌, ℤ, pos, pos_part,
}
use base_utilities_esp.KvHandle.{overwrite}
use base_utilities_esp.FileHandle.{int_max}
use base_utilities_esp.FileHandle.Line.{line_of, has_delimiter, rest_of}
use base_utilities_esp.FileHandle.Words.{skip_spaces, word_of, behind_word}
use base_utilities_esp.FileHandle.Calls.{Call, Reply, to_write}

pub record Content : Type 0 where
  pub before : List ℕ
  pub after : List ℕ

abbrev pub whole : Content → List ℕ
whole c = c.before ++ c.after

-- The offset moves over n bytes.
abbrev pub move_on : ℕ → Content → Content
move_on n c = record { before = c.before ++ take n c.after; after = drop n c.after }

-- n bytes are written over those behind the offset, and behind them all at the end.
abbrev pub overwritten : ℕ → List ℕ → Content → Content
overwritten n bytes c = record { before = c.before ++ take n bytes; after = drop n c.after }

-- The file is as it was, and the bytes behind the offset are these.
abbrev pub GoesOnWith : List ℕ → Content → Content → Type 0
GoesOnWith rest c c' = (whole c' ≡ whole c) × (c'.after ≡ rest)

-- A call may give the reply, and leave the second state where it found the first.
abbrev pub Allows : Call → Content → Reply → Content → Type 0
Allows (Call.read n) c r c' =
    (r ≡ Reply.counted (pos (length (take n c.after))) (take n c.after)) × (c' ≡ move_on n c)
Allows (Call.getline d line) c r c' =
    (r ≡ (
      if is_empty (whole c)
      then Reply.line false line
      else Reply.line (not (is_empty (line_of d c.after)) || has_delimiter d c.after)
          (line_of d c.after)))
    × GoesOnWith (rest_of d c.after) c c'
Allows Call.extract_string c r c' =
    (r ≡ Reply.text (word_of (skip_spaces c.after)))
    × GoesOnWith (behind_word (skip_spaces c.after)) c c'
Allows (Call.extract value) c r c' =
    (r ≡ Reply.text (overwrite value (take (length value) c.after)))
    × (c' ≡ move_on (length value) c)
Allows Call.read_all c r c' = (r ≡ Reply.text (whole c)) × GoesOnWith [] c c'
Allows Call.rewind c r c' = (r ≡ Reply.count (pos 0)) × GoesOnWith (whole c) c c'
Allows Call.tell c r c' = (r ≡ Reply.count (pos (length c.before))) × (c' ≡ c)
Allows Call.size c r c' = (r ≡ Reply.count (pos (length (whole c)))) × (c' ≡ c)
Allows Call.available c r c' =
    let n = length c.after in
    (r ≡ Reply.count (pos (if leb n int_max then n else int_max))) × (c' ≡ c)
Allows Call.has_available c r c' = (r ≡ Reply.flag (not (is_empty c.after))) × (c' ≡ c)
Allows (Call.write bytes) c r c' =
    (n : ℤ) × (r ≡ Reply.count n)
    × (pos_part n ≤ length bytes)
    × (c' ≡ overwritten (pos_part n) bytes c)
Allows (Call.insert bytes) c r c' =
    (n : ℕ) × (r ≡ Reply.no_reply) × (n ≤ length bytes) × (c' ≡ overwritten n bytes c)

-- The same for a sequence of calls, one reply for each.
abbrev pub Explains : List Call → Content → List Reply → Content → Type 0
Explains [] c [] c' = c' ≡ c
Explains [] c (r ∷ rs) c' = ⊥
Explains (k ∷ ks) c [] c' = ⊥
Explains (k ∷ ks) c (r ∷ rs) c' = (mid : Content) × Allows k c r mid × Explains ks mid rs c'

-- The file after a call is no longer than before it and what the call was given to write.
length-move_on : (n : ℕ) (c : Content) → length (whole (move_on n c)) ≡ length (whole c)
length-move_on n c = ap length (
    append_assoc c.before (take n c.after) (drop n c.after)
    ∙ ap (λ x. c.before ++ x) (take-append-drop n c.after))

length-overwritten-le :
    (n : ℕ) (bytes : List ℕ) (c : Content)
    → length (whole (overwritten n bytes c)) ≤ length (whole c) + length bytes
length-overwritten-le n bytes c = omega (
  arith,
  length-append (c.before ++ take n bytes) (drop n c.after),
  length-append c.before (take n bytes),
  length-append c.before c.after,
  length-take-le n bytes,
  length-drop-le n c.after,
)

pub length-whole-le :
    (k : Call) (ks : List Call) (c : Content) (r : Reply) (c' : Content)
    → Allows k c r c'
    → length (whole c') + to_write ks ≤ length (whole c) + to_write (k ∷ ks)
length-whole-le (Call.read n) ks c r c' (reply, e) =
    omega (arith, ap (λ x. length (whole x)) e, length-move_on n c)
length-whole-le (Call.getline d line) ks c r c' (reply, (same, rest)) =
    omega (arith, ap length same)
length-whole-le Call.extract_string ks c r c' (reply, (same, rest)) = omega (arith, ap length same)
length-whole-le (Call.extract value) ks c r c' (reply, e) =
    omega (arith, ap (λ x. length (whole x)) e, length-move_on (length value) c)
length-whole-le Call.read_all ks c r c' (reply, (same, rest)) = omega (arith, ap length same)
length-whole-le Call.rewind ks c r c' (reply, (same, rest)) = omega (arith, ap length same)
length-whole-le Call.tell ks c r c' (reply, e) = omega (arith, ap (λ x. length (whole x)) e)
length-whole-le Call.size ks c r c' (reply, e) = omega (arith, ap (λ x. length (whole x)) e)
length-whole-le Call.available ks c r c' (reply, e) = omega (arith, ap (λ x. length (whole x)) e)
length-whole-le Call.has_available ks c r c' (reply, e) =
    omega (arith, ap (λ x. length (whole x)) e)
length-whole-le (Call.write bytes) ks c r c' (n, reply, le, e) =
    omega (arith, ap (λ x. length (whole x)) e, length-overwritten-le (pos_part n) bytes c)
length-whole-le (Call.insert bytes) ks c r c' (n, reply, le, e) =
    omega (arith, ap (λ x. length (whole x)) e, length-overwritten-le n bytes c)
