-- ===== src/FileHandle/Histories.antt =====
-- Several FileHandles, and the histories of their methods, moves and destructions.
use base_utilities_esp.Base.{
  ℕ, ◌≡◌, true, false, Option, none, some, List, [], ◌==◌, is_neg, minus_one,
}
use base_utilities_esp.FileHandle.{File, close, start, move, move_assign, sync, seek, writeline}
use base_utilities_esp.FileHandle.Calls.{Method}
use base_utilities_esp.FileHandle.Runs.{call}
use base_utilities_esp.FileHandle.Ledger.{Act, Answers, ledger}
use base_utilities_esp.FileHandle.Owners.{Fds, put}

-- The object i in the system.
abbrev pub object : (A : Answers) → Fds → List Act → ℕ → File (ledger A)
object A fds w i = record { fd = fds i; world = w }

-- What a method leaves, if it returns with the fuel.
unfoldable pub perform : (A : Answers) → ℕ → Method → File (ledger A) → Option (File (ledger A))
perform A fuel (Method.start path mode perm) f = some (start (ledger A) path mode perm f).1
perform A fuel Method.close f = some (close (ledger A) f)
perform A fuel Method.sync f = some (sync (ledger A) f).1
perform A fuel (Method.seek offset origin) f = some (seek (ledger A) offset origin f).1
perform A fuel (Method.writeline str) f = some (writeline (ledger A) str f).1
perform A fuel (Method.call k) f = elim (call (ledger A) fuel k f) [
  | none ↦ none
  | some (r, g) ↦ some g
]

pub data Reachable (A : Answers) : Fds → List Act → Type 0 where
  begun : Reachable A (λ i. minus_one) []
  called :
      (i fuel : ℕ) (m : Method) (fds : Fds) (w : List Act) (g : File (ledger A))
      → Reachable A fds w
      → perform A fuel m (object A fds w i) ≡ some g
      → Reachable A (put i g.fd fds) g.world
  -- The object i is made from the object j.
  moved :
      (i j : ℕ) (fds : Fds) (w : List Act)
      → Reachable A fds w
      → is_neg (fds i) ≡ true
      → (i == j) ≡ false
      → Reachable A
          (put i
            (move (ledger A) (object A fds w j)).0.fd
            (put j (move (ledger A) (object A fds w j)).1 fds))
          w
  assigned :
      (i j : ℕ) (fds : Fds) (w : List Act)
      → Reachable A fds w
      → Reachable A
          (put i
            (move_assign (ledger A) (i == j) (object A fds w i) (fds j)).0.fd
            (put j (move_assign (ledger A) (i == j) (object A fds w i) (fds j)).1 fds))
          (move_assign (ledger A) (i == j) (object A fds w i) (fds j)).0.world
