-- ===== src/FileHandle/Ledger.antt =====
-- A record of what FileHandle has the system do with descriptors, and the descriptors that are open
-- after it. What the system answers is arbitrary. fstat changes nothing and is not recorded.
use base_utilities_esp.Base.{
  ℕ, String, ◌≡◌, Bool, true, false, not, ◌&&◌, Option, none, List, [], ◌∷◌, ◌==◌, if◌then◌else◌, ℤ,
  pos, negsuc, minus_one,
}
use base_utilities_esp.Posix.{Posix}

pub data Act : Type 0 where
  opened : ℕ → Act
  closed : ℤ → Act
  used : ℤ → Act

-- What the calls answer, by the acts before them, latest first.
pub record Answers : Type 0 where
  pub sys_open : List Act → String → ℕ → Option ℕ → ℤ
  pub fstat : List Act → ℤ → Option ℤ
  pub lseek : List Act → ℤ → ℤ → ℕ → ℤ
  pub fsync : List Act → ℤ → ℤ
  pub sys_read : List Act → ℤ → ℕ → ℤ × List ℕ
  pub sys_write : List Act → ℤ → List ℕ → ℤ

-- An open that fails gives no descriptor.
abbrev pub record_open : ℤ → List Act → List Act
record_open (pos n) w = Act.opened n ∷ w
record_open (negsuc k) w = w

abbrev pub ledger : Answers → Posix
ledger A = record {
  World = List Act;
  Dir = Unit {0};
  sys_open = λ w path flags perm. let fd = A.sys_open w path flags perm in (fd, record_open fd w);
  sys_close = λ w fd. Act.closed fd ∷ w;
  fstat = A.fstat;
  lseek = λ w fd offset whence. (A.lseek w fd offset whence, Act.used fd ∷ w);
  fsync = λ w fd. (A.fsync w fd, Act.used fd ∷ w);
  sys_read = λ w fd n. let (r, bytes) = A.sys_read w fd n in (r, bytes, Act.used fd ∷ w);
  sys_write = λ w fd bytes. (A.sys_write w fd bytes, Act.used fd ∷ w);
  opendir = λ w path. (none, w);
  readdir = λ w dir. (none, w);
  closedir = λ w dir. w;
  stat = λ w path. none;
  access = λ w path. minus_one;
  unlink = λ w path. (minus_one, w);
  sys_rename = λ w from to. (minus_one, w);
}

-- Whether a descriptor is open.
unfoldable pub lives : ℕ → List Act → Bool
lives n [] = false
lives n (Act.opened k ∷ w) = let before = lives n w in if k == n then true else before
lives n (Act.closed (pos k) ∷ w) = let before = lives n w in if k == n then false else before
lives n (Act.closed (negsuc k) ∷ w) = lives n w
lives n (Act.used fd ∷ w) = lives n w

abbrev pub is_live : ℤ → List Act → Bool
is_live (pos n) w = lives n w
is_live (negsuc k) w = false

-- A call is on a descriptor that is open.
abbrev pub permitted : Act → List Act → Bool
permitted (Act.opened n) w = not (lives n w)
permitted (Act.closed fd) w = is_live fd w
permitted (Act.used fd) w = is_live fd w

unfoldable pub orderly : List Act → Bool
orderly [] = true
orderly (a ∷ w) = permitted a w && orderly w

-- open gives a descriptor that is not open.
pub record OpenLaws (A : Answers) : Type 0 where
  pub fresh :
      (w : List Act) (path : String) (flags : ℕ) (perm : Option ℕ) (n : ℕ)
      → A.sys_open w path flags perm ≡ pos n
      → lives n w ≡ false
