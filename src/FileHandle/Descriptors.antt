-- ===== src/FileHandle/Descriptors.antt =====
-- Which descriptors are open over any history of several FileHandles.
mod Tests
use base_utilities_esp.Base.{
  ℕ, String, ◌≡◌, refl, sym, subst, ◌∙◌, Bool, true, false, not, Option, none, some, List, [], ◌∷◌,
  ◌==◌, if◌then◌else◌, ℤ, pos, negsuc, is_neg, minus_one, arith, Bool-cases, inl, inr, ◌⊎◌,
}
use base_utilities_esp.FileHandle.{
  File, close, start, move, move_assign, sync, seek, writeline, is_open, extract, insert,
  has_available,
}
use base_utilities_esp.FileHandle.Modes.{open_flags, has_flag, o_creat}
use base_utilities_esp.FileHandle.Calls.{Call, Reply, Method}
use base_utilities_esp.FileHandle.Runs.{call}
use base_utilities_esp.FileHandle.Histories.{object, perform, Reachable}
use base_utilities_esp.FileHandle.Ledger.{
  Act, Answers, ledger, lives, orderly, record_open, OpenLaws,
}
use base_utilities_esp.FileHandle.Owners.{
  Fds, put, Extends, put_self, IsOwned, IsOwned-same, Extends-IsOwned, close-IsOwned, open-IsOwned,
  fail-IsOwned, take_over-IsOwned,
}
use base_utilities_esp.FileHandle.Touches.{
  Touches, IfReturned, IfReturnedBoth, read-Touches, write-Touches, seek-Touches, tell-Touches,
  sync-Touches, available-Touches, read_all-Touches, writeline-Touches, getline-Touches,
  extract_string-Touches,
}

sign-cases : (z : ℤ) → ((n : ℕ) × (z ≡ pos n)) ⊎ ((k : ℕ) × (z ≡ negsuc k))
sign-cases (pos n) = inl (n, refl)
sign-cases (negsuc k) = inr (k, refl)

module _ (A : Answers) (L : OpenLaws A) where
  -- What a method leaves is owned.
  abbrev Fine : Fds → ℕ → Option (File (ledger A)) → Type 0
  Fine fds i none = Unit {0}
  Fine fds i (some g) = IsOwned (put i g.fd fds) g.world

  Touches-Fine :
      (fds : Fds) (i : ℕ) (w : List Act) (g : File (ledger A))
      → IsOwned fds w
      → Touches A (object A fds w i) g
      → IsOwned (put i g.fd fds) g.world
  Touches-Fine fds i w g owned (e, ext) =
      IsOwned-same fds (put i g.fd fds) g.world (put_self fds i g.fd e)
        (Extends-IsOwned fds i w g.world owned ext)

  close-Fine :
      (fds : Fds) (i : ℕ) (w : List Act)
      → IsOwned fds w
      → let g = close (ledger A) (object A fds w i) in
        IsOwned (put i g.fd fds) g.world × (is_neg g.fd ≡ true)
  unfolding close
  close-Fine fds i w owned = elim (sign-cases (fds i)) [
    | inl (n, e) ↦ rw (e, close) (close-IsOwned fds i w owned n e, refl)
    | inr (k, e) ↦
        rw (e, close) (IsOwned-same fds _ w (put_self fds i (negsuc k) (sym e)) owned, refl)
  ]

  -- The descriptor of an object that has closed its own, after an open.
  opened-Fine :
      (fds : Fds) (i : ℕ) (old : ℤ) (v : List Act) (fd : ℤ)
      → IsOwned (put i old fds) v
      → is_neg old ≡ true
      → ((n : ℕ) → fd ≡ pos n → lives n v ≡ false)
      → IsOwned (put i fd fds) (record_open fd v)
  opened-Fine fds i old v (pos n) owned idle fresh =
      IsOwned-same (put i (pos n) (put i old fds)) _ _ (λ j. ground arith)
        (open-IsOwned (put i old fds) i v owned n (ground (arith, idle)) (fresh n refl))
  opened-Fine fds i old v (negsuc k) owned idle fresh =
      IsOwned-same (put i (negsuc k) (put i old fds)) _ _ (λ j. ground arith)
        (fail-IsOwned (put i old fds) i v owned k (ground (arith, idle)))

  start-Fine :
      (path : String) (mode perm : ℕ) (fds : Fds) (i : ℕ) (w : List Act)
      → IsOwned fds w
      → let g = (start (ledger A) path mode perm (object A fds w i)).1 in
        IsOwned (put i g.fd fds) g.world
  unfolding start
  start-Fine path mode perm fds i w owned =
      let closed = close (ledger A) (object A fds w i) in
      let (left, idle) = close-Fine fds i w owned in
      opened-Fine fds i closed.fd closed.world _ left idle (L.fresh closed.world path _ _)

  line-Fine :
      (fds : Fds) (i : ℕ) (w : List Act) (o : Option (Bool × List ℕ × File (ledger A)))
      → IsOwned fds w
      → IfReturnedBoth A (object A fds w i) o
      → let replied : Option (Reply × File (ledger A)) = elim o [
        | none ↦ none
        | some (found, line, g) ↦ some (Reply.line found line, g)
      ] in
        let left : Option (File (ledger A)) = elim replied [ none ↦ none | some (r, g) ↦ some g ] in
        Fine fds i left
  line-Fine fds i w none owned t = tt
  line-Fine fds i w (some (found, line, g)) owned t = Touches-Fine fds i w g owned t

  word-Fine :
      (fds : Fds) (i : ℕ) (w : List Act) (o : Option (List ℕ × File (ledger A)))
      → IsOwned fds w
      → IfReturned A (object A fds w i) o
      → let replied : Option (Reply × File (ledger A)) = elim o [
        | none ↦ none
        | some (word, g) ↦ some (Reply.text word, g)
      ] in
        let left : Option (File (ledger A)) = elim replied [ none ↦ none | some (r, g) ↦ some g ] in
        Fine fds i left
  word-Fine fds i w none owned t = tt
  word-Fine fds i w (some (word, g)) owned t = Touches-Fine fds i w g owned t

  call-Fine :
      (fuel : ℕ) (k : Call) (fds : Fds) (i : ℕ) (w : List Act)
      → IsOwned fds w
      → Fine fds i (perform A fuel (Method.call k) (object A fds w i))
  unfolding perform call extract insert has_available
  call-Fine fuel (Call.read n) fds i w owned = Touches-Fine fds i w _ owned (read-Touches A n _)
  call-Fine fuel (Call.getline d line) fds i w owned =
      line-Fine fds i w _ owned (getline-Touches A fuel d line _)
  call-Fine fuel Call.extract_string fds i w owned =
      word-Fine fds i w _ owned (extract_string-Touches A fuel _)
  call-Fine fuel (Call.extract value) fds i w owned =
      Touches-Fine fds i w _ owned (read-Touches A _ _)
  call-Fine fuel Call.read_all fds i w owned = Touches-Fine fds i w _ owned (read_all-Touches A _)
  call-Fine fuel Call.rewind fds i w owned = Touches-Fine fds i w _ owned (seek-Touches A _ _ _)
  call-Fine fuel Call.tell fds i w owned = Touches-Fine fds i w _ owned (tell-Touches A _)
  call-Fine fuel Call.size fds i w owned = Touches-Fine fds i w _ owned (refl, Extends.here)
  call-Fine fuel Call.available fds i w owned = Touches-Fine fds i w _ owned (available-Touches A _)
  call-Fine fuel Call.has_available fds i w owned =
      Touches-Fine fds i w _ owned (available-Touches A _)
  call-Fine fuel (Call.write bytes) fds i w owned =
      Touches-Fine fds i w _ owned (write-Touches A bytes _)
  call-Fine fuel (Call.insert bytes) fds i w owned =
      Touches-Fine fds i w _ owned (write-Touches A bytes _)

  perform-Fine :
      (fuel : ℕ) (m : Method) (fds : Fds) (i : ℕ) (w : List Act)
      → IsOwned fds w
      → Fine fds i (perform A fuel m (object A fds w i))
  unfolding perform
  perform-Fine fuel (Method.start path mode perm) fds i w owned =
      start-Fine path mode perm fds i w owned
  perform-Fine fuel Method.close fds i w owned = (close-Fine fds i w owned).0
  perform-Fine fuel Method.sync fds i w owned = Touches-Fine fds i w _ owned (sync-Touches A _)
  perform-Fine fuel (Method.seek offset origin) fds i w owned =
      Touches-Fine fds i w _ owned (seek-Touches A offset origin _)
  perform-Fine fuel (Method.writeline str) fds i w owned =
      Touches-Fine fds i w _ owned (writeline-Touches A str _)
  perform-Fine fuel (Method.call k) fds i w owned = call-Fine fuel k fds i w owned

  moved-IsOwned :
      (fds : Fds) (i j : ℕ) (w : List Act)
      → IsOwned fds w
      → is_neg (fds i) ≡ true
      → (i == j) ≡ false
      → let (g, left) = move (ledger A) (object A fds w j) in
        IsOwned (put i g.fd (put j left fds)) w
  unfolding move
  moved-IsOwned fds i j w owned idle apart = take_over-IsOwned fds i w owned j idle apart

  assigned-IsOwned :
      (fds : Fds) (i j : ℕ) (w : List Act)
      → IsOwned fds w
      → let (g, left) = move_assign (ledger A) (i == j) (object A fds w i) (fds j) in
        IsOwned (put i g.fd (put j left fds)) g.world
  unfolding move_assign
  assigned-IsOwned fds i j w owned = elim (Bool-cases (i == j)) [
    | inl same ↦ rw same (
        IsOwned-same fds _ w
          (λ k.
            put_self (put j (fds j) fds) i (fds i) (sym (put_self fds j (fds j) refl i)) k
            ∙ put_self fds j (fds j) refl k)
          owned)
    | inr apart ↦
        let closed = close (ledger A) (object A fds w i) in
        let (left, idle) = close-Fine fds i w owned in
        rw apart (
          IsOwned-same (put i (put i closed.fd fds j) (put j minus_one (put i closed.fd fds))) _ _
            (λ k. ground arith)
            (take_over-IsOwned (put i closed.fd fds) i closed.world left j (ground (arith, idle))
              apart))
  ]

  history-IsOwned : (fds : Fds) (w : List Act) → Reachable A fds w → IsOwned fds w
  unfolding lives orderly
  history-IsOwned fds w Reachable.begun = record {
    open_if_held = λ i n e. ground arith;
    held_if_open = λ n e. ground arith;
    held_once = λ i j n e e'. ground arith;
    in_order = refl;
  }
  history-IsOwned fds w (Reachable.called i fuel m fds' w' g r e) =
      subst (Fine fds' i) e (perform-Fine fuel m fds' i w' (history-IsOwned fds' w' r))
  history-IsOwned fds w (Reachable.moved i j fds' w' r idle apart) =
      moved-IsOwned fds' i j w' (history-IsOwned fds' w' r) idle apart
  history-IsOwned fds w (Reachable.assigned i j fds' w' r) =
      assigned-IsOwned fds' i j w' (history-IsOwned fds' w' r)

  -- Over any history of FileHandles that are made, opened, used, closed, moved and destroyed, whatever
  -- the system answers: each object that holds a descriptor holds an open one, no two objects hold the
  -- same, each open descriptor is held by an object, and every call was on a descriptor that was open,
  -- so none is closed twice or used after it was closed. Once no object holds one, none is open.
  pub Reachable-IsOwned :
      (fds : Fds) (w : List Act)
      → Reachable A fds w
      → IsOwned fds w × (((i : ℕ) → is_neg (fds i) ≡ true) → (n : ℕ) → lives n w ≡ false)
  Reachable-IsOwned fds w r =
      let owned = history-IsOwned fds w r in
      (
        owned,
        λ idle n. elim (Bool-cases (lives n w)) [
          | inr gone ↦ gone
          | inl open_still ↦
              let (i, held) = owned.held_if_open n open_still in
              absurd (ground (arith, idle i, held))
        ],
      )
