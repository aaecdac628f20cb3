-- ===== src/FileHandle/Descriptors/Tests.antt =====
-- Two FileHandles: one is opened, moved to the other, and the other is opened again and closed.
use base_utilities_esp.Base.{
  ℕ, suc, ◌+◌, ◌≤◌, ◌≡◌, refl, true, false, none, List, [], ◌∷◌, pos, minus_one, is_neg, arith,
}
use base_utilities_esp.FileHandle.{File, start, close, move_assign, read}
use base_utilities_esp.FileHandle.Calls.{Call, Method}
use base_utilities_esp.FileHandle.Runs.{call}
use base_utilities_esp.FileHandle.Ledger.{Act, Answers, ledger, lives, OpenLaws}
use base_utilities_esp.FileHandle.Owners.{Fds, put, IsOwned}
use base_utilities_esp.FileHandle.Histories.{perform, Reachable}
use base_utilities_esp.FileHandle.Descriptors.{Reachable-IsOwned}

-- A number above those of all descriptors so far.
abbrev above : List Act → ℕ
above [] = 0
above (Act.opened k ∷ w) = suc (k + above w)
above (a ∷ w) = above w

lives-above : (w : List Act) (n : ℕ) → above w ≤ n → lives n w ≡ false
unfolding lives
lives-above [] n le = refl
lives-above (Act.opened k ∷ w) n le = ground (arith, lives-above w n)
lives-above (Act.closed (pos k) ∷ w) n le = ground (arith, lives-above w n)
lives-above (a ∷ w) n le = ground (arith, lives-above w n)

abbrev system : Answers
system = record {
  sys_open = λ w path flags perm. pos (above w);
  fstat = λ w fd. none;
  lseek = λ w fd offset whence. minus_one;
  fsync = λ w fd. pos 0;
  sys_read = λ w fd n. (pos 0, []);
  sys_write = λ w fd bytes. minus_one;
}

system-OpenLaws : OpenLaws system
system-OpenLaws = record { fresh = λ w path flags perm n e. lives-above w n (ground (arith, e)) }

abbrev no_files : Fds
no_files = λ i. minus_one

-- The object 0 is opened, and moved to the object 1 by assignment.
abbrev first_open : File (ledger system)
first_open = record { fd = pos 0; world = Act.opened 0 ∷ [] }

abbrev one_file : Fds
one_file = put 0 (pos 0) no_files

first_open-Reachable : Reachable system one_file (Act.opened 0 ∷ [])
unfolding perform start close
first_open-Reachable =
    Reachable.called 0 0 (Method.start "a" 1 0) no_files [] first_open Reachable.begun refl

abbrev handed_over : Fds
handed_over = put 1 (pos 0) (put 0 minus_one one_file)

handed_over-Reachable : Reachable system handed_over (Act.opened 0 ∷ [])
unfolding move_assign close
handed_over-Reachable = Reachable.assigned 1 0 one_file (Act.opened 0 ∷ []) first_open-Reachable

-- The object 1 reads, and is closed; a second close does nothing.
abbrev read_once : List Act
read_once = Act.used (pos 0) ∷ Act.opened 0 ∷ []

abbrev closed_once : List Act
closed_once = Act.closed (pos 0) ∷ read_once

abbrev after_read : Fds
after_read = put 1 (pos 0) handed_over

abbrev after_close : Fds
after_close = put 1 minus_one (put 1 minus_one after_read)

read_once-Reachable : Reachable system after_read read_once
unfolding perform call read
read_once-Reachable =
    Reachable.called 1 0 (Method.call (Call.read 4)) handed_over (Act.opened 0 ∷ [])
      (record { fd = pos 0; world = read_once }) handed_over-Reachable refl

after_close-Reachable : Reachable system after_close closed_once
unfolding perform close
after_close-Reachable =
    Reachable.called 1 0 Method.close (put 1 minus_one after_read) closed_once
      (record { fd = minus_one; world = closed_once })
      (Reachable.called 1 0 Method.close after_read read_once
        (record { fd = minus_one; world = closed_once }) read_once-Reachable refl)
      refl

Reachable-IsOwned_example :
    IsOwned after_close closed_once
    × (((i : ℕ) → is_neg (after_close i) ≡ true) → (n : ℕ) → lives n closed_once ≡ false)
Reachable-IsOwned_example =
    Reachable-IsOwned system system-OpenLaws after_close closed_once after_close-Reachable
