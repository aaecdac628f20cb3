-- ===== src/DelayExec/Fate.antt =====
-- What becomes of a callback that was handed to delay_exec.
use base_utilities_esp.Base.{
  ℕ, ◌+◌, ◌≤◌, ◌<◌, ◌^◌, ◌%◌, Bool, true, false, ◌&&◌, ◌≡◌, refl, ap, ◌∙◌, List, [], ◌∷◌, ◌++◌,
  arith, ltb, if◌then◌else◌, Bool-cases, inl, inr,
}
use base_utilities_esp.DelayExec.{
  Timer, Timers, delay_exec_function, delay_exec_function_chrono, delay_exec, timer_callback,
  expire,
}
use base_utilities_esp.DelayExec.Ownership.{
  Reachable, is_one, times_run, times_waiting, Reachable-IsOwned,
}

-- What may happen after a moment: calls of delay_exec and timers that run out, in any order.
pub data Later (ms_to_ticks : ℕ → ℕ) (s : Timers) : Timers → Type 0 where
  now : Later ms_to_ticks s s
  called :
      (created started callable : Bool) (delay_ms : ℕ) (t : Timers)
      → Later ms_to_ticks s t
      → Later ms_to_ticks s (delay_exec ms_to_ticks created started callable delay_ms t).1
  expired :
      (before : List Timer) (x : Timer) (after : List Timer) (t : Timers)
      → t.waiting ≡ before ++ x ∷ after
      → Later ms_to_ticks s t
      → Later ms_to_ticks s (expire before x after t)

-- The timers that wait, run out one after another, the first one first.
unfoldable pub drain : List Timer → Timers → Timers
drain [] s = s
drain (t ∷ ts) s = drain ts (expire [] t ts s)

-- How many timers wait to run the callback of a context.
abbrev runs_waiting : ℕ → List Timer → ℕ
runs_waiting c [] = 0
runs_waiting c (t ∷ ts) = (if t.callable then is_one c t.ctx else 0) + runs_waiting c ts

-- The runs of a callback that were and those that are to come.
abbrev runs : ℕ → Timers → ℕ
runs c s = times_run c s.past + runs_waiting c s.waiting

runs_waiting-append :
    (c : ℕ) (xs ys : List Timer) → runs_waiting c (xs ++ ys) ≡ runs_waiting c xs + runs_waiting c ys
runs_waiting-append c [] ys = omega arith
runs_waiting-append c (x ∷ xs) ys = omega (arith, runs_waiting-append c xs ys)

runs_waiting-le : (c : ℕ) (xs : List Timer) → runs_waiting c xs ≤ times_waiting c xs
runs_waiting-le c [] = omega arith
runs_waiting-le c (x ∷ xs) = elim (Bool-cases x.callable) [
  | inl y ↦ rw y (omega (arith, runs_waiting-le c xs))
  | inr n ↦ rw n (omega (arith, runs_waiting-le c xs))
]

-- A call for another context changes nothing.
delay_exec-runs :
    (f : ℕ → ℕ) (created started callable : Bool) (delay_ms c : ℕ) (s : Timers)
    → c < s.next_ctx
    → let t = (delay_exec f created started callable delay_ms s).1 in
      (runs c t ≡ runs c s) × (c < t.next_ctx)
unfolding delay_exec
delay_exec-runs f false started callable delay_ms c s h = (refl, omega arith)
delay_exec-runs f true false callable delay_ms c s h = (refl, omega arith)
delay_exec-runs f true true callable delay_ms c s h = (ground arith, omega arith)

expire-runs :
    (c : ℕ) (before : List Timer) (x : Timer) (after : List Timer) (s : Timers)
    → s.waiting ≡ before ++ x ∷ after
    → runs c (expire before x after s) ≡ runs c s
unfolding expire timer_callback
expire-runs c before x after s e =
    let split = runs_waiting-append c before (x ∷ after) in
    let joined = runs_waiting-append c before after in
    let counted = ap (runs_waiting c) e in
    elim (Bool-cases x.callable) [
      | inl y ↦ rw y (omega (arith, split, joined, counted, callable_runs x after y))
      | inr n ↦ rw n (omega (arith, split, joined, counted, empty_runs x after n))
    ]
  where
    callable_runs :
        (x : Timer) (after : List Timer)
        → x.callable ≡ true
        → runs_waiting c (x ∷ after) ≡ is_one c x.ctx + runs_waiting c after
    callable_runs x after y = rw y refl

    empty_runs :
        (x : Timer) (after : List Timer)
        → x.callable ≡ false
        → runs_waiting c (x ∷ after) ≡ runs_waiting c after
    empty_runs x after n = rw n (omega arith)

waiting-expire :
    (before : List Timer) (x : Timer) (after : List Timer) (t : Timers)
    → ((expire before x after t).waiting ≡ before ++ after)
      × ((expire before x after t).next_ctx ≡ t.next_ctx)
unfolding expire timer_callback
waiting-expire before x after t = elim (Bool-cases x.callable) [
  | inl y ↦ rw y (refl, refl)
  | inr n ↦ rw n (refl, refl)
]

-- Nothing that happens changes the runs of a context that is in use.
runs-Later :
    (f : ℕ → ℕ) (c : ℕ) (s t : Timers)
    → c < s.next_ctx
    → Later f s t
    → (runs c t ≡ runs c s) × (c < t.next_ctx)
runs-Later f c s t h Later.now = (refl, h)
runs-Later f c s t h (Later.called created started callable delay_ms u l) =
    let (same, used) = runs-Later f c s u h l in
    let (kept, used') = delay_exec-runs f created started callable delay_ms c u used in
    (kept ∙ same, used')
runs-Later f c s t h (Later.expired before x after u e l) =
    let (same, used) = runs-Later f c s u h l in
    (
      expire-runs c before x after u e ∙ same,
      omega (arith, used, (waiting-expire before x after u).1),
    )

drain-Later :
    (f : ℕ → ℕ) (ts : List Timer) (s t : Timers)
    → t.waiting ≡ ts
    → Later f s t
    → Later f s (drain ts t) × ((drain ts t).waiting ≡ [])
unfolding drain
drain-Later f [] s t e l = (l, e)
drain-Later f (x ∷ ts) s t e l =
    drain-Later f ts s _ (waiting-expire [] x ts t).0 (Later.expired [] x ts t e l)

unused : (n : ℕ) → (if ltb n n then 1 else 0) ≤ 0
unused n = ground arith

-- A context that is not in use yet has no runs.
runs-Reachable : (f : ℕ → ℕ) (s : Timers) → Reachable f s → runs s.next_ctx s ≡ 0
runs-Reachable f s r =
    let (all, once, ran) = Reachable-IsOwned f s.next_ctx s r in
    omega (arith, all, once, ran, unused s.next_ctx, runs_waiting-le s.next_ctx s.waiting)

-- Just after delay_exec, its own context has one run to come if it reported success and its callback
-- is callable, and none otherwise.
delay_exec-own :
    (f : ℕ → ℕ) (created started callable : Bool) (delay_ms : ℕ) (s : Timers)
    → runs s.next_ctx s ≡ 0
    → let (ok, t) = delay_exec f created started callable delay_ms s in
      (runs s.next_ctx t ≡ (if ok && callable then 1 else 0)) × (s.next_ctx < t.next_ctx)
unfolding delay_exec
delay_exec-own f false started callable delay_ms s none_yet = (none_yet, omega arith)
delay_exec-own f true false callable delay_ms s none_yet = (none_yet, omega arith)
delay_exec-own f true true true delay_ms s none_yet = (ground arith, omega arith)
delay_exec-own f true true false delay_ms s none_yet = (omega (arith, none_yet), omega arith)

runs-over : (c : ℕ) (s : Timers) → s.waiting ≡ [] → times_run c s.past ≡ runs c s
runs-over c s over = omega (arith, ap (runs_waiting c) over)

-- Whatever is called and runs out after a call of delay_exec, and whatever the timer functions
-- answer: once the timers that still wait have run out, no timer waits, and the callback of the call
-- has run exactly once if the call reported success and the callback is callable, and never otherwise.
pub times_run-drain :
    (f : ℕ → ℕ) (created started callable : Bool) (delay_ms : ℕ) (s t : Timers)
    → Reachable f s
    → let (ok, s₁) = delay_exec f created started callable delay_ms s in
      Later f s₁ t
      → (times_run s.next_ctx (drain t.waiting t).past ≡ (if ok && callable then 1 else 0))
        × ((drain t.waiting t).waiting ≡ [])
times_run-drain f created started callable delay_ms s t r later =
    let (own, used) = delay_exec-own f created started callable delay_ms s (runs-Reachable f s r) in
    let (end, over) = drain-Later f t.waiting _ t refl later in
    let kept = (runs-Later f s.next_ctx _ (drain t.waiting t) used end).0 in
    (runs-over s.next_ctx (drain t.waiting t) over ∙ kept ∙ own, over)

-- All four versions of delay_exec: with a count of milliseconds that an uint32_t holds, a version for a
-- duration does what the one for a number does, and so one statement says what becomes of their
-- callbacks; one for a function pointer has a callback that is callable.
pub times_run-drain_function :
    (f : ℕ → ℕ) (created started : Bool) (delay_ms : ℕ) (s t : Timers)
    → delay_ms < 2 ^ 32
    → Reachable f s
    → let (ok, s₁) = delay_exec_function_chrono f created started delay_ms s in
      Later f s₁ t
      → (delay_exec_function_chrono f created started delay_ms s
          ≡ delay_exec_function f created started delay_ms s)
        × (times_run s.next_ctx (drain t.waiting t).past ≡ (if ok then 1 else 0))
        × ((drain t.waiting t).waiting ≡ [])
unfolding delay_exec_function delay_exec_function_chrono
times_run-drain_function f created started delay_ms s t small r later =
    let fits : delay_ms % 2 ^ 32 ≡ delay_ms = omega arith in
    let (ran, over) = times_run-drain f created started true (delay_ms % 2 ^ 32) s t r later in
    (
      ap (λ n. delay_exec f created started true n s) fits,
      ran ∙ ap (λ b. if b then 1 else 0) (and_true _),
      over,
    )
  where
    and_true : (b : Bool) → (b && true) ≡ b
    and_true true = refl
    and_true false = refl
