-- ===== src/FileHandle/Space.antt =====
-- FileHandle::available and read_all on a regular file.
use base_utilities_esp.Base.{
  ℕ, ◌+◌, ◌<◌, ◌≡◌, refl, subst, true, ltb_ℤ, drop_all, drop, List, [], ◌++◌, arith, length,
  length-append, take_all, leb, if◌then◌else◌, ℤ, pos,
}
use base_utilities_esp.KvHandle.Stored.{resize-overwrite}
use base_utilities_esp.Posix.{Posix, FileLaws}
use base_utilities_esp.FileHandle.{
  File, int_max, remaining, available, seek, seek_set, read, read_content, read_all,
}
use base_utilities_esp.FileHandle.Reads.{Positioned, read_lem, size_lem, tell_lem, rewind_lem}

remaining_lem :
    (m n : ℕ) → remaining (pos (m + n)) (pos m) ≡ pos (if leb n int_max then n else int_max)
unfolding remaining
remaining_lem m n = ground arith

module _ (P : Posix) (At : P.World → ℤ → List ℕ → List ℕ → Type 0) (L : FileLaws P At) where
  -- `available` gives the number of bytes behind the offset, or the largest `int` if there are more,
  -- and leaves the offset where it is.
  pub available_lem :
      (f : File P) (b a : List ℕ)
      → Positioned P At f b a
      → ((available P f).0 ≡ pos (if leb (length a) int_max then length a else int_max))
        × Positioned P At (available P f).1 b a
  unfolding available
  available_lem f b a h =
      let t = tell_lem P At L f b a h in
      rw (h.0, available, size_lem P At L f b a h, t.0) (remaining_lem (length b) (length a), t.1)

  read_content_lem :
      (f : File P) (b a content : List ℕ)
      → Positioned P At f b a
      → b ++ a ≡ content
      → 0 < length content
      → ((read_content P (length content) f).0 ≡ content)
        × Positioned P At (read_content P (length content) f).1 content []
  unfolding read_content
  read_content_lem f b a content h whole nonempty =
      let n = length content in
      let rewound = (rewind_lem P At L f b a h).1 in
      let start = subst (λ c. Positioned P At (seek P (pos 0) seek_set f).1 [] c) whole rewound in
      let r = read_lem P At L (seek P (pos 0) seek_set f).1 [] content n start in
      let all = take_all n content (omega arith) in
      let none_left = drop_all n content (omega arith) in
      let some_read : ltb_ℤ (pos 0) (pos n) ≡ true = ground arith in
      rw (r.0, r.1, all, some_read)
        (
          resize-overwrite content,
          subst (λ x. Positioned P At (read P n (seek P (pos 0) seek_set f).1).2 content x)
              none_left
              (subst
                (λ x. Positioned P At (read P n (seek P (pos 0) seek_set f).1).2 x (drop n content))
                all r.2),
        )

  -- On an open file that is not empty, wherever the offset is, `read_all` gives all bytes of the file
  -- and leaves the offset at its end.
  pub read_all_lem :
      (f : File P) (b a : List ℕ)
      → Positioned P At f b a
      → 0 < length (b ++ a)
      → ((read_all P f).0 ≡ b ++ a) × Positioned P At (read_all P f).1 (b ++ a) []
  unfolding read_all
  read_all_lem f b a h nonempty =
      let some_there : ltb_ℤ (pos 0) (pos (length (b ++ a))) ≡ true = ground arith in
      rw (h.0, read_all, size_lem P At L f b a h, ← length-append b a, some_there)
        (read_content_lem f b a (b ++ a) h refl nonempty)
