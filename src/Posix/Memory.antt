-- ===== src/Posix/Memory.antt =====
-- A system with one regular file of at most 64 bytes, opened as descriptor 3, and one directory.
use Prim.Native.Nat.{bit_and}
use base_utilities_esp.Base.{
  ◌==◌, ℕ, zero, suc, ◌+◌, ◌≤◌, ◌≡◌, refl, sym, ap, ◌∙◌, Option, none, some, List, [], ◌∷◌, ◌++◌,
  arith, str_eq, ltb, length, take, take_all, append-nil, Bool-cases, inl, inr, drop, if◌then◌else◌,
  ℤ, pos, pos_part, minus_one,
}
use base_utilities_esp.Posix.{regular, Dirent, Posix, FileLaws, WriteLaws}

pub record Disk : Type 0 where
  pub before : List ℕ
  pub after : List ℕ

abbrev disk_write : Disk → List ℕ → ℤ × Disk
disk_write d bytes = if ltb 64 (length d.before + length bytes) then (minus_one, d) else (
  pos (length bytes),
  record { before = d.before ++ bytes; after = drop (length bytes) d.after },
)

-- `lseek` to the start, or to where the offset is; any other call fails.
abbrev disk_seek : Disk → ℤ → ℕ → ℤ × Disk
disk_seek d (pos zero) zero = (pos 0, record { before = []; after = d.before ++ d.after })
disk_seek d (pos zero) (suc zero) = (pos (length d.before), d)
disk_seek d _ _ = (minus_one, d)

abbrev disk_list : List Dirent → Option Dirent × List Dirent
disk_list [] = (none, [])
disk_list (e ∷ es) = (some e, es)

-- The file when it is opened, with O_TRUNC and without.
abbrev pub emptied : Disk
emptied = record { before = []; after = [] }

abbrev pub rewound : Disk → Disk
rewound d = record { before = []; after = d.before ++ d.after }

abbrev pub memory : Posix
memory = record {
  World = Disk × List Dirent;
  Dir = Unit {0};
  sys_open = λ w path flags perm.
      if str_eq path "log.txt"
      then (pos 3, (if bit_and flags 0x400 == 0 then rewound w.0 else emptied, w.1))
      else (minus_one, w);
  sys_close = λ w fd. w;
  fstat = λ w fd. some (pos (length w.0.before + length w.0.after));
  lseek = λ w fd offset whence. let (r, d) = disk_seek w.0 offset whence in (r, (d, w.1));
  fsync = λ w fd. (pos 0, w);
  sys_read = λ w fd n. (
    pos (length (take n w.0.after)),
    take n w.0.after,
    (record { before = w.0.before ++ take n w.0.after; after = drop n w.0.after }, w.1),
  );
  sys_write = λ w fd bytes. let (r, d) = disk_write w.0 bytes in (r, (d, w.1));
  opendir = λ w path. (if str_eq path "/" then some tt else none, w);
  readdir = λ w dir. let (e, rest) = disk_list w.1 in (e, (w.0, rest));
  closedir = λ w dir. w;
  stat = λ w path. if str_eq path "log.txt" then some regular else none;
  access = λ w path. if str_eq path "log.txt" then pos 0 else minus_one;
  unlink = λ w path. (minus_one, w);
  sys_rename = λ w from to. (minus_one, w);
}

-- Where the one file stands.
abbrev pub At : Disk × List Dirent → ℤ → List ℕ → List ℕ → Type 0
At w fd before after = (w.0.before ≡ before) × (w.0.after ≡ after)

write_lem :
    (d : Disk) (bytes : List ℕ)
    → (pos_part (disk_write d bytes).0 ≤ length bytes)
      × ((disk_write d bytes).0 ≡ pos (length bytes)
          → (d.after ≡ [])
          → ((disk_write d bytes).1.before ≡ d.before ++ bytes)
            × ((disk_write d bytes).1.after ≡ []))
write_lem d [] = ground arith
write_lem d (x ∷ xs) = ground arith

pub memory-FileLaws : FileLaws memory At
memory-FileLaws = record {
  read_at = λ w fd b a n h. rw (h.0, h.1) (refl, refl, (refl, refl));
  fstat_at = λ w fd b a h. rw (h.0, h.1);
  rewind_at = λ w fd b a h. rw (h.0, h.1) (refl, (refl, refl));
  tell_at = λ w fd b a h. rw (h.0, h.1) (refl, (refl, refl));
  write_le = λ w fd bytes. (write_lem w.0 bytes).0;
  append_at = λ w fd b bytes h full.
      let done = (write_lem w.0 bytes).1 full h.1 in (done.0 ∙ ap (λ x. x ++ bytes) h.0, done.1);
}

write_at_lem :
    (d : Disk) (bytes : List ℕ)
    → let (n, d') = disk_write d bytes in
      (d'.before ≡ d.before ++ take (pos_part n) bytes) × (d'.after ≡ drop (pos_part n) d.after)
write_at_lem d bytes = elim (Bool-cases (ltb 64 (length d.before + length bytes))) [
  | inl full ↦ rw full (sym (append-nil d.before), refl)
  | inr room ↦ rw (room, take_all (length bytes) bytes (omega arith)) (refl, refl)
]

pub memory-WriteLaws : WriteLaws memory At
memory-WriteLaws = record {
  write_at = λ w fd b a bytes h.
      let (before, after) = write_at_lem w.0 bytes in rw (← h.0, ← h.1) (before, after);
}
