-- ===== src/FileHandle/Lines.antt =====
-- FileHandle::writeline and getline against each other.
use base_utilities_esp.Base.{
  ℕ, zero, suc, ◌+◌, ◌≤◌, ◌<◌, ◌≡◌, refl, sym, ap, ap₂, subst, ◌∙◌, Bool, true, false, ◌&&◌, Option,
  none, some, List, [], ◌∷◌, ◌++◌, append-nil, append_assoc, arith, length, length-append, ◌==◌,
  if◌then◌else◌, ℤ, pos, pos_part, is_neg, eqb_ℤ, ◌+ℤ◌,
}
use base_utilities_esp.Posix.{Posix, FileLaws}
use base_utilities_esp.FileHandle.{
  File, write, write_string, newline, writeline, getline, seek, seek_set,
}
use base_utilities_esp.FileHandle.Reads.{Positioned, append_lem, rewind_lem}
use base_utilities_esp.FileHandle.Line.{line_of, has_delimiter, rest_of, getline_lem}

-- The bytes of a file of lines.
abbrev pub unlines : List (List ℕ) → List ℕ
unlines [] = []
unlines (l ∷ ls) = l ++ 10 ∷ unlines ls

abbrev pub NoNewline : List ℕ → Type 0
NoNewline [] = Unit {0}
NoNewline (c ∷ l) = ((c == 10) ≡ false) × NoNewline l

abbrev pub AllNoNewline : List (List ℕ) → Type 0
AllNoNewline [] = Unit {0}
AllNoNewline (l ∷ ls) = NoNewline l × AllNoNewline ls

line_of-unlines : (l rest : List ℕ) → NoNewline l → line_of 10 (l ++ 10 ∷ rest) ≡ l
line_of-unlines [] rest h = refl
line_of-unlines (c ∷ l) rest h = rw h.0 (ap (◌∷◌ c) (line_of-unlines l rest h.1))

rest_of-unlines : (l rest : List ℕ) → NoNewline l → rest_of 10 (l ++ 10 ∷ rest) ≡ rest
rest_of-unlines [] rest h = refl
rest_of-unlines (c ∷ l) rest h = rw h.0 (rest_of-unlines l rest h.1)

has_delimiter-unlines : (l rest : List ℕ) → NoNewline l → has_delimiter 10 (l ++ 10 ∷ rest) ≡ true
has_delimiter-unlines [] rest h = refl
has_delimiter-unlines (c ∷ l) rest h = rw h.0 (has_delimiter-unlines l rest h.1)

eqb_sound : (x : ℤ) (n : ℕ) → eqb_ℤ x (pos n) ≡ true → x ≡ pos n
eqb_sound x n h = ground arith

-- A sum of a count of at most `n` and one of at most 1 is `n + 1` only if both are full.
full_sum :
    (n : ℕ) (x y : ℤ)
    → pos_part x ≤ n
    → pos_part y ≤ 1
    → is_neg x ≡ false
    → x +ℤ y ≡ pos (suc n)
    → (x ≡ pos n) × (y ≡ pos 1)
unfolding ◌+ℤ◌
full_sum n x y hx hy nonneg total = ground arith

module _ (P : Posix) where
  -- A client's loop that writes lines; it reports whether each call reported all its bytes.
  unfoldable pub write_lines : List (List ℕ) → File P → Bool × File P
  write_lines [] f = (true, f)
  write_lines (l ∷ ls) f =
      let (n, f') = writeline P l f in
      let (rest_done, f'') = write_lines ls f' in (eqb_ℤ n (pos (suc (length l))) && rest_done, f'')

  -- A client's loop `while (f.getline(line)) lines.push_back(line);`.
  unfoldable pub read_lines : ℕ → ℕ → File P → Option (List (List ℕ) × File P)
  read_lines fuel zero f = none
  read_lines fuel (suc rounds) f = elim (getline P fuel 10 [] f) [
    | none ↦ none
    | some (more, line, f') ↦
        let rest = read_lines fuel rounds f' in
        if more
        then elim rest [ none ↦ none | some (lines, f'') ↦ some (line ∷ lines, f'') ]
        else some ([], f')
  ]

  -- `writeline` when the string is written in full and the newline is not: the -1 of the second
  -- write is added, so the result is one less than the number of bytes written.
  pub writeline_lost_newline :
      (str : List ℕ) (f : File P)
      → (write P str f).0 ≡ pos (length str)
      → (write P (10 ∷ []) (write P str f).1).0 ≡ ℤ.negsuc 0
      → (writeline P str f).0 +ℤ pos 1 ≡ pos (length str)
  unfolding writeline write_string newline ◌+ℤ◌
  writeline_lost_newline str f full lost = ground arith

module _ (P : Posix) (At : P.World → ℤ → List ℕ → List ℕ → Type 0) (L : FileLaws P At) where
  write-le : (bytes : List ℕ) (f : File P) → pos_part (write P bytes f).0 ≤ length bytes
  unfolding write
  write-le bytes f = ground (arith, L.write_le f.world f.fd bytes)

  writeline_sum :
      (l : List ℕ) (f : File P)
      → is_neg (write P l f).0 ≡ false
      → writeline P l f ≡ (
        (write P l f).0 +ℤ (write P (10 ∷ []) (write P l f).1).0,
        (write P (10 ∷ []) (write P l f).1).1,
      )
  unfolding writeline write_string newline
  writeline_sum l f nonneg = rw nonneg

  writeline-nonneg :
      (l : List ℕ) (f : File P) (n : ℕ)
      → (writeline P l f).0 ≡ pos n
      → is_neg (write P l f).0 ≡ false
  unfolding writeline write_string newline
  writeline-nonneg l f n full = ground arith

  -- A line that was written in full stands at the end of the file, with its newline.
  writeline_full :
      (l : List ℕ) (f : File P) (b : List ℕ)
      → Positioned P At f b []
      → (writeline P l f).0 ≡ pos (suc (length l))
      → Positioned P At (writeline P l f).1 (b ++ l ++ 10 ∷ []) []
  writeline_full l f b h full =
      let f' = (write P l f).1 in
      let nonneg = writeline-nonneg l f (suc (length l)) full in
      let sum = writeline_sum l f nonneg in
      let parts =
        full_sum (length l) (write P l f).0 (write P (10 ∷ []) f').0 (write-le l f)
          (write-le (10 ∷ []) f') nonneg (ap (λ r. r.0) (sym sum) ∙ full) in
      let at =
        append_lem P At L f' (b ++ l) (10 ∷ []) (append_lem P At L f b l h parts.0) parts.1 in
      rw sum at

  pub write_lines_lem :
      (ls : List (List ℕ)) (f : File P) (b : List ℕ)
      → Positioned P At f b []
      → (write_lines P ls f).0 ≡ true
      → Positioned P At (write_lines P ls f).1 (b ++ unlines ls) []
  unfolding write_lines
  write_lines_lem [] f b h all = rw (append-nil b) h
  write_lines_lem (l ∷ ls) f b h all =
      let here : (writeline P l f).0 ≡ pos (suc (length l)) =
        ground (arith, eqb_sound (writeline P l f).0 (suc (length l))) in
      let rest : (write_lines P ls (writeline P l f).1).0 ≡ true = ground arith in
      subst (λ c. Positioned P At (write_lines P (l ∷ ls) f).1 c [])
        (append_assoc (b ++ l) (10 ∷ []) (unlines ls) ∙ append_assoc b l (10 ∷ unlines ls))
        (write_lines_lem ls (writeline P l f).1 (b ++ l ++ 10 ∷ []) (writeline_full l f b h here)
          rest)

  -- One line of a file of lines.
  getline-unlines :
      (fuel : ℕ) (l tail : List ℕ) (f : File P) (b : List ℕ)
      → NoNewline l
      → Positioned P At f b (l ++ 10 ∷ tail)
      → length (l ++ 10 ∷ tail) < fuel
      → (f' : File P) × (b' : List ℕ) × (getline P fuel 10 [] f ≡ some (true, l, f'))
        × Positioned P At f' b' tail
        × (0 < length b' + length tail)
  getline-unlines fuel l tail f b clean h enough =
      let size = length-append l (10 ∷ tail) in
      let (f', run, (b', at, same)) =
        getline_lem P At L fuel 10 [] f b (l ++ 10 ∷ tail) h (omega (arith, size)) enough in
      let rest = rest_of-unlines l tail clean in
      let same' : b' ++ tail ≡ b ++ (l ++ 10 ∷ tail) =
        subst (λ c. b' ++ c ≡ b ++ (l ++ 10 ∷ tail)) rest same in
      (
        f',
        b',
        run
            ∙ ap some (
                ap₂ (λ (found : Bool) (line : List ℕ). (found, line, f'))
                  (ground (arith, has_delimiter-unlines l tail clean))
                  (line_of-unlines l tail clean)),
        subst (λ c. Positioned P At f' b' c) rest at,
        omega
            (arith, ap length same', size, length-append b' tail, length-append b (l ++ 10 ∷ tail)),
      )

  -- From a place in a file of lines on, a client's loop reads the lines that are left.
  pub read_lines_lem :
      (fuel rounds : ℕ) (ls : List (List ℕ)) (f : File P) (b : List ℕ)
      → AllNoNewline ls
      → Positioned P At f b (unlines ls)
      → 0 < length b + length (unlines ls)
      → length (unlines ls) < fuel
      → length ls < rounds
      → (f' : File P) × (read_lines P fuel rounds f ≡ some (ls, f'))
  unfolding read_lines
  read_lines_lem fuel zero ls f b clean h nonempty enough more = absurd (omega arith)
  read_lines_lem fuel (suc rounds) [] f b clean h nonempty enough more =
      let (f', run, left) = getline_lem P At L fuel 10 [] f b [] h nonempty enough in
      (f', rw (run, read_lines))
  read_lines_lem fuel (suc rounds) (l ∷ ls) f b clean h nonempty enough more =
      let (f', b', run, at, room) = getline-unlines fuel l (unlines ls) f b clean.0 h enough in
      let (f'', rest) =
        read_lines_lem fuel rounds ls f' b' clean.1 at room
          (omega (arith, enough, length-append l (10 ∷ unlines ls))) (omega arith) in
      (f'', rw (run, read_lines, rest))

  -- One or more lines without newlines that are written to an empty file with `writeline`, each call reporting
  -- all its bytes, are what a loop of `getline` calls reads after a seek to the start, in order and
  -- with nothing behind them. Fuel for the bytes of the file and one round more than there are lines
  -- are enough for the loop to end.
  pub read_lines-write_lines :
      (fuel rounds : ℕ) (ls : List (List ℕ)) (f : File P)
      → Positioned P At f [] []
      → AllNoNewline ls
      → 0 < length ls
      → (write_lines P ls f).0 ≡ true
      → length (unlines ls) < fuel
      → length ls < rounds
      → (f' : File P) × (read_lines P fuel rounds (seek P (pos 0) seek_set (write_lines P ls f).1).1
          ≡ some (ls, f'))
  read_lines-write_lines fuel rounds [] f h clean some_lines written enough more =
      absurd (omega arith)
  read_lines-write_lines fuel rounds (l ∷ ls) f h clean some_lines written enough more =
      let at_end = write_lines_lem (l ∷ ls) f [] h written in
      let at_start = rewind_lem P At L (write_lines P (l ∷ ls) f).1 (unlines (l ∷ ls)) [] at_end in
      read_lines_lem fuel rounds (l ∷ ls) _ [] clean
        (subst (λ c. Positioned P At (seek P (pos 0) seek_set (write_lines P (l ∷ ls) f).1).1 [] c)
          (append-nil (unlines (l ∷ ls))) at_start.1)
        (omega (arith, length-append l (10 ∷ unlines ls))) enough more
