-- ===== src/FileHandle/Line.antt =====
-- FileHandle::getline on a regular file: the bytes up to the delimiter.
use base_utilities_esp.Base.{
  ℕ, zero, suc, ◌+◌, ◌<◌, ◌≡◌, Bool, true, false, not, ◌||◌, some, List, [], ◌∷◌, ◌++◌, Bool-cases,
  append-nil, append_assoc, ◌∙◌, arith, length, ◌==◌, is_empty, if◌then◌else◌, ℤ, pos, inl, inr,
}
use base_utilities_esp.Posix.{Posix, FileLaws}
use base_utilities_esp.FileHandle.{File, read, getline_loop, getline}
use base_utilities_esp.FileHandle.Reads.{Positioned, read_lem, size_lem}

-- The bytes before the first delimiter, whether there is one, and the bytes behind it.
abbrev pub line_of : ℕ → List ℕ → List ℕ
line_of d [] = []
line_of d (c ∷ a) = if c == d then [] else c ∷ line_of d a

abbrev pub has_delimiter : ℕ → List ℕ → Bool
has_delimiter d [] = false
has_delimiter d (c ∷ a) = if c == d then true else has_delimiter d a

abbrev pub rest_of : ℕ → List ℕ → List ℕ
rest_of d [] = []
rest_of d (c ∷ a) = if c == d then a else rest_of d a

-- A state from which the file goes on with `rest`, the file being as it was.
abbrev pub Leaves :
    (P : Posix) (At : P.World → ℤ → List ℕ → List ℕ → Type 0) → File P → List ℕ → List ℕ → Type 0
Leaves P At f content rest =
    (before : List ℕ) × Positioned P At f before rest × (before ++ rest ≡ content)

module _ (P : Posix) (At : P.World → ℤ → List ℕ → List ℕ → Type 0) (L : FileLaws P At) where
  getline_loop_lem :
      (fuel d : ℕ) (line : List ℕ) (f : File P) (b a : List ℕ)
      → Positioned P At f b a
      → length a < fuel
      → (f' : File P) × (getline_loop P fuel d line f
          ≡ some (if has_delimiter d a then pos 1 else pos 0, line ++ line_of d a, f'))
        × Leaves P At f' (b ++ a) (rest_of d a)
  unfolding getline_loop
  getline_loop_lem zero d line f b a h enough = absurd (omega arith)
  getline_loop_lem (suc fuel) d line f b [] h enough =
      let r = read_lem P At L f b [] 1 h in
      ((read P 1 f).2, rw (r.0, append-nil line), (b ++ [], r.2, append-nil (b ++ [])))
  getline_loop_lem (suc fuel) d line f b (c ∷ a) h enough =
      let r = read_lem P At L f b (c ∷ a) 1 h in
      elim (Bool-cases (c == d)) [
        | inl e ↦ (
          (read P 1 f).2,
          rw (r.0, r.1, e, append-nil line),
          (b ++ c ∷ [], rw e r.2, rw e (append_assoc b (c ∷ []) a)),
        )
        | inr e ↦
            let (f', run, (b', at, same)) =
              getline_loop_lem fuel d (line ++ c ∷ []) (read P 1 f).2 (b ++ c ∷ []) a r.2
                (omega arith) in
            (
              f',
              rw (r.0, r.1, e) (rw (← append_assoc line (c ∷ []) (line_of d a)) run),
              (b', rw e at, rw e (same ∙ append_assoc b (c ∷ []) a)),
            )
      ]

  -- On an open file that is not empty, with fuel for the bytes that are left, `getline` returns. The
  -- line is what stands before the next delimiter, or all that is left if there is none; the result
  -- is whether there was a delimiter or a byte; the offset moves behind the delimiter.
  pub getline_lem :
      (fuel d : ℕ) (line : List ℕ) (f : File P) (b a : List ℕ)
      → Positioned P At f b a
      → 0 < length b + length a
      → length a < fuel
      → (f' : File P) × (getline P fuel d line f
          ≡ some (not (is_empty (line_of d a)) || has_delimiter d a, line_of d a, f'))
        × Leaves P At f' (b ++ a) (rest_of d a)
  unfolding getline
  getline_lem fuel d line f b a h nonempty enough =
      let (f', run, left) = getline_loop_lem fuel d [] f b a h enough in
      (f', ground (arith, run, size_lem P At L f b a h), left)
