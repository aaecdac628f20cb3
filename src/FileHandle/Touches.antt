-- ===== src/FileHandle/Touches.antt =====
-- The methods of an open FileHandle make calls on its own descriptor and keep it.
use base_utilities_esp.Base.{
  ℕ, zero, suc, ◌≡◌, refl, subst, ◌∙◌, Bool, not, ◌||◌, Option, none, some, List, [], ◌∷◌, ◌++◌,
  ◌==◌, ltb_ℤ, eqb_ℤ, ℤ, pos, is_neg, Bool-cases, inl, inr, is_empty,
}
use base_utilities_esp.FileHandle.{
  File, read, write, seek, tell, sync, size, available, getline_loop, getline, read_content,
  read_all, write_string, newline, writeline, word_loop, skip_loop, extract_string, first, is_space,
  seek_set,
}
use base_utilities_esp.FileHandle.Ledger.{Answers, ledger}
use base_utilities_esp.FileHandle.Owners.{Extends, Extends-trans}

-- The same descriptor, and nothing but calls on it.
abbrev pub Touches : (A : Answers) → File (ledger A) → File (ledger A) → Type 0
Touches A f g = (g.fd ≡ f.fd) × Extends f.fd f.world g.world

module _ (A : Answers) where
  Touches-refl : (f : File (ledger A)) → Touches A f f
  Touches-refl f = (refl, Extends.here)

  Touches-trans : (f g h : File (ledger A)) → Touches A f g → Touches A g h → Touches A f h
  Touches-trans f g h (e, ext) (e', ext') = (
    e' ∙ e,
    Extends-trans f.fd f.world g.world h.world ext
        (subst (λ fd. Extends fd g.world h.world) e ext'),
  )

  pub read-Touches : (n : ℕ) (f : File (ledger A)) → Touches A f (read (ledger A) n f).2
  unfolding read
  read-Touches n f = elim (Bool-cases (is_neg f.fd)) [
    | inl closed ↦ rw (closed, read) (Touches-refl f)
    | inr held ↦ rw (held, read) (refl, Extends.more f.world held Extends.here)
  ]

  pub write-Touches :
      (bytes : List ℕ) (f : File (ledger A)) → Touches A f (write (ledger A) bytes f).1
  unfolding write
  write-Touches bytes f = elim (Bool-cases (is_neg f.fd)) [
    | inl closed ↦ rw (closed, write) (Touches-refl f)
    | inr held ↦ rw (held, write) (refl, Extends.more f.world held Extends.here)
  ]

  pub seek-Touches :
      (offset : ℤ) (origin : ℕ) (f : File (ledger A))
      → Touches A f (seek (ledger A) offset origin f).1
  unfolding seek
  seek-Touches offset origin f = elim (Bool-cases (is_neg f.fd)) [
    | inl closed ↦ rw (closed, seek) (Touches-refl f)
    | inr held ↦ rw (held, seek) (refl, Extends.more f.world held Extends.here)
  ]

  pub tell-Touches : (f : File (ledger A)) → Touches A f (tell (ledger A) f).1
  unfolding tell
  tell-Touches f = elim (Bool-cases (is_neg f.fd)) [
    | inl closed ↦ rw (closed, tell) (Touches-refl f)
    | inr held ↦ rw (held, tell) (refl, Extends.more f.world held Extends.here)
  ]

  pub sync-Touches : (f : File (ledger A)) → Touches A f (sync (ledger A) f).1
  unfolding sync
  sync-Touches f = elim (Bool-cases (is_neg f.fd)) [
    | inl closed ↦ rw (closed, sync) (Touches-refl f)
    | inr held ↦ rw (held, sync) (refl, Extends.more f.world held Extends.here)
  ]

  pub available-Touches : (f : File (ledger A)) → Touches A f (available (ledger A) f).1
  unfolding available
  available-Touches f = elim (Bool-cases (is_neg f.fd)) [
    | inl closed ↦ rw (closed, available) (Touches-refl f)
    | inr held ↦ rw (held, available) (tell-Touches f)
  ]

  read_content-Touches :
      (count : ℕ) (f : File (ledger A)) → Touches A f (read_content (ledger A) count f).1
  unfolding read_content
  read_content-Touches count f =
      let g = (seek (ledger A) (pos 0) seek_set f).1 in
      let reads = Touches-trans f g _ (seek-Touches (pos 0) seek_set f) (read-Touches count g) in
      elim (Bool-cases (ltb_ℤ (pos 0) (read (ledger A) count g).0)) [
        | inl found ↦ rw (found, read_content) reads
        | inr nothing ↦ rw (nothing, read_content) reads
      ]

  pub read_all-Touches : (f : File (ledger A)) → Touches A f (read_all (ledger A) f).1
  unfolding read_all
  read_all-Touches f = elim (Bool-cases (is_neg f.fd)) [
    | inl closed ↦ rw (closed, read_all) (Touches-refl f)
    | inr held ↦ elim (Bool-cases (ltb_ℤ (pos 0) (size (ledger A) f))) [
      | inl some_there ↦ rw (held, some_there, read_all) (read_content-Touches _ f)
      | inr empty ↦ rw (held, empty, read_all) (Touches-refl f)
    ]
  ]

  pub writeline-Touches :
      (str : List ℕ) (f : File (ledger A)) → Touches A f (writeline (ledger A) str f).1
  unfolding writeline write_string newline
  writeline-Touches str f =
      let g = (write (ledger A) str f).1 in
      elim (Bool-cases (is_neg (write (ledger A) str f).0)) [
        | inl failed ↦ rw (failed, writeline) (write-Touches str f)
        | inr done ↦
            rw (done, writeline)
              (Touches-trans f g _ (write-Touches str f) (write-Touches (10 ∷ []) g))
      ]

  -- What a loop leaves, if it ends.
  abbrev pub IfReturned {ℓ} : {X : Type ℓ} → File (ledger A) → Option (X × File (ledger A)) → Type 0
  IfReturned f none = Unit {0}
  IfReturned f (some (x, g)) = Touches A f g

  abbrev pub IfReturnedBoth {ℓ κ} :
      {X : Type ℓ} {Y : Type κ} → File (ledger A) → Option (X × Y × File (ledger A)) → Type 0
  IfReturnedBoth f none = Unit {0}
  IfReturnedBoth f (some (x, y, g)) = Touches A f g

  later {ℓ} :
      {X : Type ℓ} (f g : File (ledger A)) (o : Option (X × File (ledger A)))
      → Touches A f g
      → IfReturned g o
      → IfReturned f o
  later f g none t r = tt
  later f g (some (x, h)) t r = Touches-trans f g h t r

  later_both {ℓ κ} :
      {X : Type ℓ} {Y : Type κ} (f g : File (ledger A)) (o : Option (X × Y × File (ledger A)))
      → Touches A f g
      → IfReturnedBoth g o
      → IfReturnedBoth f o
  later_both f g none t r = tt
  later_both f g (some (x, y, h)) t r = Touches-trans f g h t r

  getline_loop-Touches :
      (fuel d : ℕ) (line : List ℕ) (f : File (ledger A))
      → IfReturnedBoth f (getline_loop (ledger A) fuel d line f)
  unfolding getline_loop
  getline_loop-Touches zero d line f = tt
  getline_loop-Touches (suc fuel) d line f =
      let (n, bytes, g) = read (ledger A) 1 f in
      let c = first bytes in
      let t = read-Touches 1 f in
      let goes_on = getline_loop-Touches fuel d (line ++ c ∷ []) g in
      elim (Bool-cases (eqb_ℤ n (pos 1))) [
        | inr over ↦ rw over t
        | inl byte ↦ elim (Bool-cases (c == d)) [
          | inl found ↦ rw (byte, found) t
          | inr more ↦ rw (byte, more) (later_both f g _ t goes_on)
        ]
      ]

  getline_end :
      (f : File (ledger A)) (o : Option (ℤ × List ℕ × File (ledger A)))
      → IfReturnedBoth f o
      → IfReturnedBoth {X = Bool} {Y = List ℕ} f (elim o [
        | none ↦ none
        | some (n, line, g) ↦ some (not (is_empty line) || eqb_ℤ n (pos 1), line, g)
      ])
  getline_end f none r = tt
  getline_end f (some (n, line, g)) r = r

  pub getline-Touches :
      (fuel d : ℕ) (line : List ℕ) (f : File (ledger A))
      → IfReturnedBoth f (getline (ledger A) fuel d line f)
  unfolding getline
  getline-Touches fuel d line f =
      let ended = getline_end f _ (getline_loop-Touches fuel d [] f) in
      elim (Bool-cases (is_neg f.fd)) [
        | inl closed ↦ rw (closed, getline) (Touches-refl f)
        | inr held ↦ elim (Bool-cases (ltb_ℤ (pos 0) (size (ledger A) f))) [
          | inl some_there ↦ rw (held, some_there, getline) ended
          | inr empty ↦ rw (held, empty, getline) (Touches-refl f)
        ]
      ]

  word_loop-Touches :
      (fuel : ℕ) (str : List ℕ) (f : File (ledger A))
      → IfReturned f (word_loop (ledger A) fuel str f)
  unfolding word_loop
  word_loop-Touches zero str f = tt
  word_loop-Touches (suc fuel) str f =
      let (n, bytes, g) = read (ledger A) 1 f in
      let c = first bytes in
      let t = read-Touches 1 f in
      let goes_on = word_loop-Touches fuel (str ++ c ∷ []) g in
      elim (Bool-cases (eqb_ℤ n (pos 1))) [
        | inr over ↦ rw over t
        | inl byte ↦ elim (Bool-cases (is_space c)) [
          | inl found ↦ rw (byte, found) t
          | inr more ↦ rw (byte, more) (later f g _ t goes_on)
        ]
      ]

  pub extract_string-Touches :
      (fuel : ℕ) (f : File (ledger A)) → IfReturned f (extract_string (ledger A) fuel f)
  unfolding extract_string skip_loop
  extract_string-Touches zero f = tt
  extract_string-Touches (suc fuel) f =
      let (n, bytes, g) = read (ledger A) 1 f in
      let c = first bytes in
      let t = read-Touches 1 f in
      let skips = extract_string-Touches fuel g in
      let word = word_loop-Touches fuel (c ∷ []) g in
      elim (Bool-cases (eqb_ℤ n (pos 1))) [
        | inr over ↦ rw over t
        | inl byte ↦ elim (Bool-cases (is_space c)) [
          | inl space ↦ rw (byte, space) (later f g _ t skips)
          | inr letter ↦ rw (byte, letter) (later f g _ t word)
        ]
      ]
