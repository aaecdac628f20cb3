-- ===== src/FileHandle/Reopen.antt =====
-- A file that is written, closed and opened again.
mod Tests
use base_utilities_esp.Base.{
  ℕ, ◌+◌, ◌<◌, String, ◌≡◌, refl, sym, ap, subst, ◌∙◌, Bool, true, false, not, Option, none, some,
  List, [], ◌∷◌, ◌++◌, length, if◌then◌else◌, ℤ, pos, negsuc, is_neg, arith, append-nil,
  length-append, ◌⊎◌, inl, inr,
}
use base_utilities_esp.Posix.{Posix, FileLaws}
use base_utilities_esp.FileHandle.{File, start, close, is_open}
use base_utilities_esp.FileHandle.Modes.{open_flags, has_flag, o_creat, o_wronly, o_rdwr, o_trunc}
use base_utilities_esp.FileHandle.Reads.{Positioned}
use base_utilities_esp.FileHandle.Lines.{
  unlines, AllNoNewline, write_lines, read_lines, write_lines_lem, read_lines_lem,
}

-- For a path of a regular file, or of none so far. `Holds w content`: the file has these bytes and no
-- descriptor of this process is open on it. An open with O_RDWR and O_TRUNC that succeeds gives a
-- descriptor on an empty file, one without O_WRONLY and O_TRUNC one at the start of the file, and what
-- stood in the file at a close stays there.
pub record PathLaws (P : Posix) (path : String) (At : P.World → ℤ → List ℕ → List ℕ → Type 0)
    (Holds : P.World → List ℕ → Type 0) : Type 0 where
  pub open_truncated :
      (w : P.World) (flags n : ℕ) (perm : Option ℕ)
      → has_flag flags o_wronly ≡ false
      → has_flag flags o_rdwr ≡ true
      → has_flag flags o_trunc ≡ true
      → (P.sys_open w path flags perm).0 ≡ pos n
      → At (P.sys_open w path flags perm).1 (pos n) [] []
  pub open_kept :
      (w : P.World) (flags n : ℕ) (perm : Option ℕ) (content : List ℕ)
      → has_flag flags o_wronly ≡ false
      → has_flag flags o_trunc ≡ false
      → Holds w content
      → (P.sys_open w path flags perm).0 ≡ pos n
      → At (P.sys_open w path flags perm).1 (pos n) [] content
  pub close_at :
      (w : P.World) (n : ℕ) (before after : List ℕ)
      → At w (pos n) before after
      → Holds (P.sys_close w (pos n)) (before ++ after)

sign-cases : (z : ℤ) → is_neg z ≡ false → (n : ℕ) × (z ≡ pos n)
sign-cases (pos n) h = (n, refl)
sign-cases (negsuc k) h = absurd (ground arith)

-- What a client writes to the file that it opens, and the second open after that.
module _ (P : Posix) (path : String) where
  abbrev pub write_from : ℕ → ℕ → List (List ℕ) → File P → Bool × File P
  write_from mode perm ls f = write_lines P ls (start P path mode perm f).1

  abbrev pub reopened : ℕ → ℕ → ℕ → ℕ → List (List ℕ) → File P → Bool × File P
  reopened mode mode' perm perm' ls f = start P path mode' perm' (write_from mode perm ls f).1

module _ (P : Posix) (path : String) (At : P.World → ℤ → List ℕ → List ℕ → Type 0)
    (Holds : P.World → List ℕ → Type 0) (L : FileLaws P At) (F : PathLaws P path At Holds) where
  -- What `open` hands to the system.
  abbrev given : ℕ → ℕ → Option ℕ
  given mode perm = if has_flag (open_flags mode) o_creat then some perm else none

  start_truncated :
      (mode perm : ℕ) (f : File P)
      → has_flag (open_flags mode) o_wronly ≡ false
      → has_flag (open_flags mode) o_rdwr ≡ true
      → has_flag (open_flags mode) o_trunc ≡ true
      → (start P path mode perm f).0 ≡ true
      → Positioned P At (start P path mode perm f).1 [] []
  unfolding start is_open
  start_truncated mode perm f readable writable empties opened =
      let w = (close P f).world in
      let held : is_neg (P.sys_open w path (open_flags mode) (given mode perm)).0 ≡ false =
        ground arith in
      let (n, e) = sign-cases _ held in
      (
        held,
        subst (λ z. At (P.sys_open w path (open_flags mode) (given mode perm)).1 z [] []) (sym e)
            (F.open_truncated w (open_flags mode) n (given mode perm) readable writable empties e),
      )

  start_kept :
      (mode perm : ℕ) (f : File P) (content : List ℕ)
      → has_flag (open_flags mode) o_wronly ≡ false
      → has_flag (open_flags mode) o_trunc ≡ false
      → Holds (close P f).world content
      → (start P path mode perm f).0 ≡ true
      → Positioned P At (start P path mode perm f).1 [] content
  unfolding start is_open
  start_kept mode perm f content readable keeps holds opened =
      let w = (close P f).world in
      let held : is_neg (P.sys_open w path (open_flags mode) (given mode perm)).0 ≡ false =
        ground arith in
      let (n, e) = sign-cases _ held in
      (
        held,
        subst (λ z. At (P.sys_open w path (open_flags mode) (given mode perm)).1 z [] content)
            (sym e)
            (F.open_kept w (open_flags mode) n (given mode perm) content readable keeps holds e),
      )

  close-Holds :
      (f : File P) (b a : List ℕ) → Positioned P At f b a → Holds (close P f).world (b ++ a)
  unfolding close is_open
  close-Holds f b a (held, at) =
      let (n, e) = sign-cases f.fd held in
      let stays = F.close_at f.world n b a (subst (λ z. At f.world z b a) e at) in
      rw (held, close) (subst (λ z. Holds (P.sys_close f.world z) (b ++ a)) (sym e) stays)

  -- One or more lines without newlines that are written with `writeline`, each call reporting all its bytes, to a
  -- file that was opened to be read and written and with Truncate, are what a loop of `getline` calls
  -- reads after the same handle was opened again on the same path, to be read and without Truncate:
  -- `open` closes the file first. Fuel for the bytes and one round more than there are lines suffice.
  pub reopen_lem :
      (fuel rounds mode mode' perm perm' : ℕ) (ls : List (List ℕ)) (f : File P)
      → has_flag (open_flags mode) o_wronly ≡ false
      → has_flag (open_flags mode) o_rdwr ≡ true
      → has_flag (open_flags mode) o_trunc ≡ true
      → has_flag (open_flags mode') o_wronly ≡ false
      → has_flag (open_flags mode') o_trunc ≡ false
      → AllNoNewline ls
      → 0 < length ls
      → length (unlines ls) < fuel
      → length ls < rounds
      → (start P path mode perm f).0 ≡ true
      → (write_from P path mode perm ls f).0 ≡ true
      → (reopened P path mode mode' perm perm' ls f).0 ≡ true
      → (f' : File P) × (read_lines P fuel rounds (reopened P path mode mode' perm perm' ls f).1
          ≡ some (ls, f'))
  reopen_lem fuel rounds mode mode' perm perm' [] f m₁ m₂ m₃ m₄ m₅ clean some_lines enough more
        opened written again =
      absurd (omega arith)
  reopen_lem fuel rounds mode mode' perm perm' (l ∷ ls) f m₁ m₂ m₃ m₄ m₅ clean some_lines enough
        more opened written again =
      let f₁ = (start P path mode perm f).1 in
      let f₂ = (write_lines P (l ∷ ls) f₁).1 in
      let empty = start_truncated mode perm f m₁ m₂ m₃ opened in
      let at_end = write_lines_lem P At L (l ∷ ls) f₁ [] empty written in
      let holds =
        subst (Holds (close P f₂).world) (append-nil (unlines (l ∷ ls)))
          (close-Holds f₂ (unlines (l ∷ ls)) [] at_end) in
      let at_start = start_kept mode' perm' f₂ (unlines (l ∷ ls)) m₄ m₅ holds again in
      read_lines_lem P At L fuel rounds (l ∷ ls) (start P path mode' perm' f₂).1 [] clean at_start
        (omega (arith, length-append l (10 ∷ unlines ls))) enough more
