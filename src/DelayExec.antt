-- ===== src/DelayExec.antt =====
-- include/DelayExec.hpp: delay_exec, its timer callback, and the literals for ticks. The context that
-- `new` makes is a number; the software timers of FreeRTOS are the contexts that they wait with.
pub mod Ownership
pub mod Fate
mod Tests
use base_utilities_esp.Base.{
  ℕ, suc, ◌*◌, ◌%◌, ◌^◌, Bool, true, false, not, List, [], ◌∷◌, if◌then◌else◌, ◌++◌,
}

pub data Entry : Type 0 where
  allocate : ℕ → Entry
  release : ℕ → Entry
  run : ℕ → Entry
  timer_create : (ctx ticks : ℕ) → Entry
  timer_delete : ℕ → Entry

-- A timer that was started, by its context, and whether the context's callback is callable.
pub record Timer : Type 0 where
  pub ctx : ℕ
  pub callable : Bool

pub record Timers : Type 0 where
  pub next_ctx : ℕ
  pub waiting : List Timer
  pub past : List Entry

abbrev pub no_timers : Timers
no_timers = record { next_ctx = 0; waiting = []; past = [] }

abbrev pub log : Entry → Timers → Timers
log e s = record s { past = e ∷ s.past }

-- delay_exec(callback, delay_ms), by whether the callback is callable, and whether xTimerCreate gives a
-- timer and xTimerStart pdPASS.
unfoldable pub delay_exec :
    (ms_to_ticks : ℕ → ℕ)
    → (created started callable : Bool) → (delay_ms : ℕ) → Timers
    → Bool × Timers
delay_exec ms_to_ticks created started callable delay_ms s =
    let ctx : ℕ = s.next_ctx in
    let s₁ : Timers = log (Entry.allocate ctx) (record s { next_ctx = suc ctx }) in
    if not created
    then (false, log (Entry.release ctx) s₁)
    else let s₂ : Timers = log (Entry.timer_create ctx (ms_to_ticks delay_ms)) s₁ in
      if not started
      then (false, log (Entry.release ctx) (log (Entry.timer_delete ctx) s₂))
      else (true, record s₂ { waiting = record { ctx = ctx; callable = callable } ∷ s₂.waiting })

-- The chrono version: the count of milliseconds is cast to uint32_t.
unfoldable pub delay_exec_chrono :
    (ms_to_ticks : ℕ → ℕ) → (created started callable : Bool) → (ms : ℕ) → Timers → Bool × Timers
delay_exec_chrono ms_to_ticks created started callable ms s =
    delay_exec ms_to_ticks created started callable (ms % 2 ^ 32) s

-- The versions for a function pointer and its argument: the closure that they make is callable.
unfoldable pub delay_exec_function :
    (ms_to_ticks : ℕ → ℕ) → (created started : Bool) → (delay_ms : ℕ) → Timers → Bool × Timers
delay_exec_function ms_to_ticks created started delay_ms s =
    delay_exec ms_to_ticks created started true delay_ms s

unfoldable pub delay_exec_function_chrono :
    (ms_to_ticks : ℕ → ℕ) → (created started : Bool) → (ms : ℕ) → Timers → Bool × Timers
delay_exec_function_chrono ms_to_ticks created started ms s =
    delay_exec_function ms_to_ticks created started (ms % 2 ^ 32) s

-- detail::delay_exec_timer_callback for a timer that ran out.
unfoldable pub timer_callback : Timer → Timers → Timers
timer_callback t s =
    let s₁ : Timers = if t.callable then log (Entry.run t.ctx) s else s in
    log (Entry.timer_delete t.ctx) (log (Entry.release t.ctx) s₁)

-- The timer service: a timer of one shot that ran out is not waiting when its callback is called.
unfoldable pub expire : List Timer → Timer → List Timer → Timers → Timers
unfolding timer_callback
expire before t after s = timer_callback t (record s { waiting = before ++ after })

-- The literals; pdMS_TO_TICKS is a parameter.
unfoldable pub ms_ticks : (ℕ → ℕ) → ℕ → ℕ
ms_ticks ms_to_ticks ms = ms_to_ticks (ms % 2 ^ 32)

unfoldable pub s_ticks : (ℕ → ℕ) → ℕ → ℕ
s_ticks ms_to_ticks s = ms_to_ticks (s * 1000 % 2 ^ 64 % 2 ^ 32)

-- The short literals, and the one that counts ticks.
unfoldable pub ms : (ℕ → ℕ) → ℕ → ℕ
ms ms_to_ticks n = ms_to_ticks (n % 2 ^ 32)

unfoldable pub s : (ℕ → ℕ) → ℕ → ℕ
s ms_to_ticks n = ms_to_ticks (n * 1000 % 2 ^ 64 % 2 ^ 32)

unfoldable pub ticks : ℕ → ℕ
ticks n = n % 2 ^ 32

-- Both versions of `delay`, by the ticks that vTaskDelay gets.
unfoldable pub delay_chrono : (ℕ → ℕ) → (ms : ℕ) → ℕ
delay_chrono ms_to_ticks ms = ms_to_ticks ms

unfoldable pub delay : ℕ → ℕ
delay ticks = ticks
