-- ===== src/FileHandle/Reads.antt =====
-- A FileHandle that is open on a regular file: what one read, write, seek or question does.
use base_utilities_esp.Base.{
  ℕ, ◌+◌, ◌≡◌, false, List, [], ◌++◌, arith, length, take, drop, ℤ, pos, is_neg,
}
use base_utilities_esp.Posix.{Posix, FileLaws}
use base_utilities_esp.FileHandle.{File, read, write, size, seek, tell, seek_set, close, move}

-- The handle is open on a regular file of the bytes `before ++ after`, at the offset between them.
abbrev pub Positioned :
    (P : Posix) (At : P.World → ℤ → List ℕ → List ℕ → Type 0) → File P → List ℕ → List ℕ → Type 0
Positioned P At f before after = (is_neg f.fd ≡ false) × At f.world f.fd before after

module _ (P : Posix) (At : P.World → ℤ → List ℕ → List ℕ → Type 0) (L : FileLaws P At) where
  pub read_lem :
      (f : File P) (b a : List ℕ) (n : ℕ)
      → Positioned P At f b a
      → ((read P n f).0 ≡ pos (length (take n a)))
        × ((read P n f).1 ≡ take n a)
        × Positioned P At (read P n f).2 (b ++ take n a) (drop n a)
  unfolding read
  read_lem f b a n h =
      rw (h.0, read) (let r = L.read_at f.world f.fd b a n h.1 in (r.0, r.1, (h.0, r.2)))

  pub size_lem :
      (f : File P) (b a : List ℕ) → Positioned P At f b a → size P f ≡ pos (length b + length a)
  unfolding size
  size_lem f b a h = rw (h.0, size, L.fstat_at f.world f.fd b a h.1)

  pub rewind_lem :
      (f : File P) (b a : List ℕ)
      → Positioned P At f b a
      → ((seek P (pos 0) seek_set f).0 ≡ pos 0)
        × Positioned P At (seek P (pos 0) seek_set f).1 [] (b ++ a)
  unfolding seek
  rewind_lem f b a h =
      rw (h.0, seek) (let r = L.rewind_at f.world f.fd b a h.1 in (r.0, (h.0, r.1)))

  pub tell_lem :
      (f : File P) (b a : List ℕ)
      → Positioned P At f b a
      → ((tell P f).0 ≡ pos (length b)) × Positioned P At (tell P f).1 b a
  unfolding tell
  tell_lem f b a h = rw (h.0, tell) (let r = L.tell_at f.world f.fd b a h.1 in (r.0, (h.0, r.1)))

  pub append_lem :
      (f : File P) (b bytes : List ℕ)
      → Positioned P At f b []
      → (write P bytes f).0 ≡ pos (length bytes)
      → Positioned P At (write P bytes f).1 (b ++ bytes) []
  unfolding write
  append_lem f b bytes h = rw (h.0, write) λ full. (h.0, L.append_at f.world f.fd b bytes h.1 full)

-- A second `close` does nothing, and a handle that was moved from closes nothing: each descriptor is
-- closed by the handle that holds it, once.
pub close-close :
    (P : Posix) (f : File P)
    → (close P (close P f) ≡ close P f)
      × (close P (record f { fd = (move P f).1 }) ≡ record f { fd = (move P f).1 })
      × ((move P f).0 ≡ f)
unfolding close move
close-close P f = ground arith
