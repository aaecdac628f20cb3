-- ===== src/DelayExec/Ownership.antt =====
-- Who owns the contexts of delay_exec: what was allocated, released and run in any history.
use base_utilities_esp.Base.{
  ℕ, ◌+◌, ◌≤◌, Bool, true, false, ◌≡◌, refl, ap, List, [], ◌∷◌, ◌++◌, arith, ltb, if◌then◌else◌,
  ◌==◌, Bool-cases, inl, inr,
}
use base_utilities_esp.DelayExec.{
  Entry, Timer, Timers, no_timers, delay_exec, timer_callback, expire,
}

abbrev pub is_one : ℕ → ℕ → ℕ
is_one c k = if c == k then 1 else 0

-- How often a context was allocated, released and run, and how many timers wait with it.
abbrev pub allocated : ℕ → List Entry → ℕ
allocated c [] = 0
allocated c (Entry.allocate k ∷ t) = is_one c k + allocated c t
allocated c (e ∷ t) = allocated c t

abbrev pub released : ℕ → List Entry → ℕ
released c [] = 0
released c (Entry.release k ∷ t) = is_one c k + released c t
released c (e ∷ t) = released c t

abbrev pub times_run : ℕ → List Entry → ℕ
times_run c [] = 0
times_run c (Entry.run k ∷ t) = is_one c k + times_run c t
times_run c (e ∷ t) = times_run c t

abbrev pub times_waiting : ℕ → List Timer → ℕ
times_waiting c [] = 0
times_waiting c (t ∷ ts) = is_one c t.ctx + times_waiting c ts

times_waiting-append :
    (c : ℕ) (xs ys : List Timer)
    → times_waiting c (xs ++ ys) ≡ times_waiting c xs + times_waiting c ys
times_waiting-append c [] ys = omega arith
times_waiting-append c (x ∷ xs) ys = omega (arith, times_waiting-append c xs ys)

-- Calls of delay_exec, whatever the timer functions answer, and timers that run out, in any order.
pub data Reachable (ms_to_ticks : ℕ → ℕ) : Timers → Type 0 where
  initial : Reachable ms_to_ticks no_timers
  called :
      (created started callable : Bool) (delay_ms : ℕ) (s : Timers)
      → Reachable ms_to_ticks s
      → Reachable ms_to_ticks (delay_exec ms_to_ticks created started callable delay_ms s).1
  expired :
      (before : List Timer) (t : Timer) (after : List Timer) (s : Timers)
      → s.waiting ≡ before ++ t ∷ after
      → Reachable ms_to_ticks s
      → Reachable ms_to_ticks (expire before t after s)

-- One context over a history.
abbrev pub IsOwned : ℕ → Timers → Type 0
IsOwned c s =
    (allocated c s.past ≡ released c s.past + times_waiting c s.waiting)
    × (allocated c s.past ≤ (if ltb c s.next_ctx then 1 else 0))
    × (times_run c s.past ≤ released c s.past)

delay_exec-IsOwned :
    (ms_to_ticks : ℕ → ℕ) (created started callable : Bool) (delay_ms c : ℕ) (s : Timers)
    → IsOwned c s
    → IsOwned c (delay_exec ms_to_ticks created started callable delay_ms s).1
unfolding delay_exec
delay_exec-IsOwned f false started callable delay_ms c s owned = ground arith
delay_exec-IsOwned f true false callable delay_ms c s owned = ground arith
delay_exec-IsOwned f true true callable delay_ms c s owned = ground arith

expire-IsOwned :
    (c : ℕ) (before : List Timer) (t : Timer) (after : List Timer) (s : Timers)
    → s.waiting ≡ before ++ t ∷ after
    → IsOwned c s
    → IsOwned c (expire before t after s)
unfolding expire timer_callback
expire-IsOwned c before t after s e owned =
    let split = times_waiting-append c before (t ∷ after) in
    let rest = times_waiting-append c before after in
    let counted = ap (times_waiting c) e in
    elim (Bool-cases t.callable) [
      | inl runs ↦
          rw runs (omega (arith, owned.0, split, rest, counted), owned.1, omega (arith, owned.2))
      | inr empty ↦
          rw empty (omega (arith, owned.0, split, rest, counted), owned.1, omega (arith, owned.2))
    ]

pub Reachable-IsOwned : (f : ℕ → ℕ) (c : ℕ) (s : Timers) → Reachable f s → IsOwned c s
Reachable-IsOwned f c s Reachable.initial = (refl, omega arith, omega arith)
Reachable-IsOwned f c s (Reachable.called created started callable delay_ms t r) =
    delay_exec-IsOwned f created started callable delay_ms c t (Reachable-IsOwned f c t r)
Reachable-IsOwned f c s (Reachable.expired before x after t e r) =
    expire-IsOwned c before x after t e (Reachable-IsOwned f c t r)

-- Whatever the timer functions answer and in whatever order the timers run out: a context was released
-- at most once and its callback run at most once, and as often as it was allocated, it was released or
-- has a timer that waits with it; so nothing is left over once no timer waits.
pub released-Reachable :
    (f : ℕ → ℕ) (s : Timers) (c : ℕ)
    → Reachable f s
    → (released c s.past ≤ 1)
      × (times_run c s.past ≤ 1)
      × (allocated c s.past ≡ released c s.past + times_waiting c s.waiting)
      × (s.waiting ≡ [] → allocated c s.past ≡ released c s.past)
released-Reachable f s c r =
    let (all, once, runs) = Reachable-IsOwned f c s r in
    let one : (if ltb c s.next_ctx then 1 else 0) ≤ 1 = ground arith in
    (
      omega (arith, all, once, one),
      omega (arith, all, once, one, runs),
      all,
      λ over. omega (arith, all, ap (times_waiting c) over),
    )
