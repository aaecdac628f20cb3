-- ===== src/Thread/Stopping.antt =====
-- What Thread::stop deletes, and when it returns.
use base_utilities_esp.Base.{
  ℕ, zero, suc, ◌^◌, ◌≤◌, ◌<◌, Bool, true, false, ◌≡◌, refl, ap, ◌∙◌, ltb, none, some, is_some,
  arith, inl, inr, ◌⊎◌,
}
use base_utilities_esp.Rtos.{Rtos}
use base_utilities_esp.Thread.{
  Thread, Outcome, map_outcome, is_running, waits, wait_loop, delete_task, stop_task, stop,
}
use base_utilities_esp.Thread.Waiting.{
  Elapses, delayed, wait_loop_ends, wait_loop_lives, wait_loop_over,
}

module _ (R : Rtos) where
  -- The object in the wait.
  abbrev flagged : Thread → Thread
  flagged t = record t { should_stop = true }

  stop-waits :
      (fuel : ℕ) (t : Thread) (w : R.World) (timeout_ms h : ℕ)
      → t.task ≡ some h
      → 0 < timeout_ms
      → stop R fuel t w timeout_ms
        ≡ map_outcome
            (delete_task R)
            (wait_loop R fuel (flagged t) w (R.tick_count w) (R.ms_to_ticks timeout_ms))
  unfolding stop stop_task
  stop-waits fuel t w timeout_ms h e waiting =
      let positive : ltb 0 timeout_ms ≡ true = ground arith in rw (ap is_some e, positive) refl

  stop-at_once :
      (fuel : ℕ) (t : Thread) (w : R.World) (h : ℕ)
      → t.task ≡ some h
      → stop R fuel t w 0 ≡ Outcome.returned (delete_task R (flagged t, w))
  unfolding stop stop_task
  stop-at_once fuel t w h e = rw (ap is_some e) refl

  -- What `stop` returns when it has deleted the task of a handle.
  abbrev pub HasDeleted : ℕ → Outcome (Bool × Thread × R.World) → Type 0
  HasDeleted h o =
      (u : Thread) × (v : R.World) × (o ≡ Outcome.returned (true, u, R.task_delete v (some h)))
      × (u.task ≡ none)
      × (is_running u ≡ false)

  HasDeleted-delete_task :
      (o : Outcome (Bool × Thread × R.World)) (h : ℕ) (tw : Thread × R.World)
      → o ≡ Outcome.returned (delete_task R tw)
      → tw.0.task ≡ some h
      → HasDeleted h o
  unfolding delete_task is_running
  HasDeleted-delete_task o h tw e named = (
    record tw.0 { task = none },
    tw.1,
    e ∙ ap (λ g. Outcome.returned (true, record tw.0 { task = none }, R.task_delete tw.1 g)) named,
    refl,
    refl,
  )

  -- On a system whose tick count goes on, and for a timeout of at most 2^31 ticks, with fuel for the
  -- ticks of the timeout and one more: for an object without a task `stop` returns false and leaves it
  -- as it is. For one with a task, `stop` either returns true, has deleted that task, and the object
  -- has none and is not running, or it calls eTaskGetState with the null handle; it does not the
  -- latter without a timeout, nor if the task ends in none of the delays that the timeout has ticks.
  pub stop_lem :
      Elapses R
      → (fuel : ℕ) (t : Thread) (w : R.World) (timeout_ms : ℕ) → R.tick_count w < 2 ^ 32
      → R.ms_to_ticks timeout_ms ≤ 2 ^ 31
      → R.ms_to_ticks timeout_ms ≤ fuel
      → let o = stop R (suc fuel) t w timeout_ms in
        (t.task ≡ none → o ≡ Outcome.returned (false, t, w))
        × ((h : ℕ) → t.task ≡ some h → HasDeleted h o ⊎ (o ≡ Outcome.null_handle))
        × ((h : ℕ) → t.task ≡ some h → timeout_ms ≡ 0 → HasDeleted h o)
        × ((h : ℕ)
            → t.task ≡ some h
            → ((k : ℕ) → k ≤ R.ms_to_ticks timeout_ms → R.has_finished (delayed R k w) h ≡ false)
            → HasDeleted h o)
  unfolding stop
  stop_lem lasts fuel t w zero hs ht enough = (
    λ e. rw e refl,
    λ h e. inl (HasDeleted-delete_task _ h (flagged t, w) (stop-at_once (suc fuel) t w h e) e),
    λ h e none_given. HasDeleted-delete_task _ h (flagged t, w) (stop-at_once (suc fuel) t w h e) e,
    λ h e lives. HasDeleted-delete_task _ h (flagged t, w) (stop-at_once (suc fuel) t w h e) e,
  )
  stop_lem lasts fuel t w (suc ms) hs ht enough =
      let start = R.tick_count w in
      let ticks = R.ms_to_ticks (suc ms) in
      (
        λ e. rw e refl,
        λ h e.
            elim (wait_loop_ends R lasts fuel (flagged t) w start ticks h hs hs ht (omega arith)
              e) [
                | inl null ↦ inr (
                    stop-waits (suc fuel) t w (suc ms) h e (omega arith)
                    ∙ ap (map_outcome (delete_task R)) null)
                | inr (tw, ended, named) ↦ inl (
                    HasDeleted-delete_task _ h tw
                      (stop-waits (suc fuel) t w (suc ms) h e (omega arith)
                        ∙ ap (map_outcome (delete_task R)) ended)
                      named)
              ],
        λ h e none_given. absurd (omega arith),
        λ h e lives.
            let (v, ended) =
              wait_loop_lives R lasts fuel ticks (flagged t) w start ticks h hs hs ht (omega arith)
                enough e lives in
            HasDeleted-delete_task _ h (flagged t, v)
              (stop-waits (suc fuel) t w (suc ms) h e (omega arith)
                ∙ ap (map_outcome (delete_task R)) ended)
              e,
      )

  -- If the task ends in one of the delays in which `stop` waits for it, the next condition of the loop
  -- hands the null handle to eTaskGetState: whatever the timeout, for the first delay or a later one,
  -- with fuel for the delays until then and the round after them.
  pub stop_null_handle :
      (n fuel : ℕ) (t : Thread) (w : R.World) (timeout_ms h : ℕ)
      → n ≤ fuel
      → 0 < timeout_ms
      → t.task ≡ some h
      → ((k : ℕ)
          → k ≤ n
          → (waits R h (delayed R k w) (R.tick_count w) (R.ms_to_ticks timeout_ms) ≡ true)
            × (R.has_finished (delayed R k w) h ≡ false))
      → R.has_finished (delayed R (suc n) w) h ≡ true
      → stop R (suc (suc fuel)) t w timeout_ms ≡ Outcome.null_handle
  stop_null_handle n fuel t w timeout_ms h fits waiting e until over =
      stop-waits (suc (suc fuel)) t w timeout_ms h e waiting
      ∙ ap (map_outcome (delete_task R)) (
          wait_loop_over R n fuel (flagged t) w (R.tick_count w) (R.ms_to_ticks timeout_ms) h fits e
            (λ k le. (until k le).0) (λ k le. (until k le).1) over)
