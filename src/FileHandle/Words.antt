-- ===== src/FileHandle/Words.antt =====
-- FileHandle::operator>>(std::string&): the next word of a regular file; and operator>> and
-- operator<< of a number.
use base_utilities_esp.Base.{
  ℕ, zero, suc, ◌<◌, ◌≡◌, ◌∙◌, Bool-cases, some, List, [], ◌∷◌, ◌++◌, append-nil, append_assoc,
  arith, length, if◌then◌else◌, ℤ, inl, inr,
}
use base_utilities_esp.Posix.{Posix, FileLaws}
use base_utilities_esp.FileHandle.{File, read, is_space, word_loop, skip_loop, extract_string}
use base_utilities_esp.FileHandle.Reads.{Positioned, read_lem}
use base_utilities_esp.FileHandle.Line.{Leaves}

-- The bytes from the first that is no space on; of those, the bytes before the next space; and the
-- bytes behind that space.
abbrev pub skip_spaces : List ℕ → List ℕ
skip_spaces [] = []
skip_spaces (c ∷ a) = if is_space c then skip_spaces a else c ∷ a

abbrev pub word_of : List ℕ → List ℕ
word_of [] = []
word_of (c ∷ a) = if is_space c then [] else c ∷ word_of a

abbrev pub behind_word : List ℕ → List ℕ
behind_word [] = []
behind_word (c ∷ a) = if is_space c then a else behind_word a

module _ (P : Posix) (At : P.World → ℤ → List ℕ → List ℕ → Type 0) (L : FileLaws P At) where
  word_loop_lem :
      (fuel : ℕ) (str : List ℕ) (f : File P) (b a : List ℕ)
      → Positioned P At f b a
      → length a < fuel
      → (f' : File P) × (word_loop P fuel str f ≡ some (str ++ word_of a, f'))
        × Leaves P At f' (b ++ a) (behind_word a)
  unfolding word_loop
  word_loop_lem zero str f b a h enough = absurd (omega arith)
  word_loop_lem (suc fuel) str f b [] h enough =
      let r = read_lem P At L f b [] 1 h in
      ((read P 1 f).2, rw (r.0, append-nil str), (b ++ [], r.2, append-nil (b ++ [])))
  word_loop_lem (suc fuel) str f b (c ∷ a) h enough =
      let r = read_lem P At L f b (c ∷ a) 1 h in
      elim (Bool-cases (is_space c)) [
        | inl e ↦ (
          (read P 1 f).2,
          rw (r.0, r.1, e, append-nil str),
          (b ++ c ∷ [], rw e r.2, rw e (append_assoc b (c ∷ []) a)),
        )
        | inr e ↦
            let (f', run, (b', at, same)) =
              word_loop_lem fuel (str ++ c ∷ []) (read P 1 f).2 (b ++ c ∷ []) a r.2 (omega arith) in
            (
              f',
              rw (r.0, r.1, e) (rw (← append_assoc str (c ∷ []) (word_of a)) run),
              (b', rw e at, rw e (same ∙ append_assoc b (c ∷ []) a)),
            )
      ]

  -- On an open file and with fuel for the bytes that are left, operator>> of a string returns. It gives the next word of the
  -- file, which is empty only if nothing but spaces is left, and moves the offset behind the space
  -- that ends the word.
  pub extract_string_lem :
      (fuel : ℕ) (f : File P) (b a : List ℕ)
      → Positioned P At f b a
      → length a < fuel
      → (f' : File P) × (extract_string P fuel f ≡ some (word_of (skip_spaces a), f'))
        × Leaves P At f' (b ++ a) (behind_word (skip_spaces a))
  unfolding extract_string skip_loop
  extract_string_lem zero f b a h enough = absurd (omega arith)
  extract_string_lem (suc fuel) f b [] h enough =
      let r = read_lem P At L f b [] 1 h in
      ((read P 1 f).2, rw r.0, (b ++ [], r.2, append-nil (b ++ [])))
  extract_string_lem (suc fuel) f b (c ∷ a) h enough =
      let r = read_lem P At L f b (c ∷ a) 1 h in
      elim (Bool-cases (is_space c)) [
        | inl e ↦
            let (f', run, (b', at, same)) =
              extract_string_lem fuel (read P 1 f).2 (b ++ c ∷ []) a r.2 (omega arith) in
            (f', rw (r.0, r.1, e) run, (b', rw e at, rw e (same ∙ append_assoc b (c ∷ []) a)))
        | inr e ↦
            let (f', run, (b', at, same)) =
              word_loop_lem fuel (c ∷ []) (read P 1 f).2 (b ++ c ∷ []) a r.2 (omega arith) in
            (
              f',
              rw (r.0, r.1, e) (rw e run),
              (b', rw (e, e) at, rw (e, e) (same ∙ append_assoc b (c ∷ []) a)),
            )
      ]
