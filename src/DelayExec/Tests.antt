-- ===== src/DelayExec/Tests.antt =====
-- Two delayed calls, of which one runs out.
use base_utilities_esp.Base.{ℕ, ◌+◌, ◌≤◌, ◌≡◌, refl, true, [], ◌∷◌}
use base_utilities_esp.DelayExec.{
  Timer, Timers, no_timers, delay_exec, expire, timer_callback, s_ticks, ms_ticks,
}
use base_utilities_esp.DelayExec.Fate.{Later, drain, times_run-drain}
use base_utilities_esp.DelayExec.Ownership.{
  Reachable, released, times_run, allocated, times_waiting, released-Reachable,
}

-- A tick is a millisecond.
abbrev same : ℕ → ℕ
same n = n

abbrev first : Timers
first = (delay_exec same true true true 100 no_timers).1

abbrev both : Timers
both = (delay_exec same true true true 50 first).1

abbrev second_timer : Timer
second_timer = record { ctx = 1; callable = true }

abbrev first_timer : Timer
first_timer = record { ctx = 0; callable = true }

abbrev one_left : Timers
one_left = expire [] second_timer (first_timer ∷ []) both

both_waiting : both.waiting ≡ second_timer ∷ first_timer ∷ []
unfolding delay_exec
both_waiting = refl

one_left-Reachable : Reachable same one_left
one_left-Reachable =
    Reachable.expired [] second_timer (first_timer ∷ []) both both_waiting (
      Reachable.called true true true 50 _
        (Reachable.called true true true 100 _ Reachable.initial))

one_left_run : times_run 1 one_left.past ≡ 1
unfolding delay_exec expire timer_callback
one_left_run = refl

-- A literal of seconds wraps around above 4294967 seconds.
long_wait : s_ticks same 4294968 ≡ ms_ticks same 704
unfolding s_ticks ms_ticks
long_wait = refl

released-Reachable_example :
    (released 1 one_left.past ≤ 1)
    × (times_run 1 one_left.past ≤ 1)
    × (allocated 1 one_left.past ≡ released 1 one_left.past + times_waiting 1 one_left.waiting)
    × (one_left.waiting ≡ [] → allocated 1 one_left.past ≡ released 1 one_left.past)
released-Reachable_example = released-Reachable same one_left 1 one_left-Reachable

one_left-Later : Later same both one_left
one_left-Later = Later.expired [] second_timer (first_timer ∷ []) both both_waiting Later.now

-- The callback of the second call, which ran out already.
times_run-drain_example :
    (times_run 1 (drain one_left.waiting one_left).past ≡ 1)
    × ((drain one_left.waiting one_left).waiting ≡ [])
unfolding delay_exec
times_run-drain_example =
    times_run-drain same true true true 50 first one_left
      (Reachable.called true true true 100 _ Reachable.initial) one_left-Later
