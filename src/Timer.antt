-- ===== src/Timer.antt =====
-- src/Timer.cpp and include/Timer.hpp: the class Timer over the vendored class Ticker. A null `m_ticker`
-- is `none`.
pub mod Activity
pub mod History
mod Tests
use base_utilities_esp.Base.{ℕ, ◌%◌, ◌^◌, Bool, true, false, Option, none, some}

pub record Ticker : Type 1 where
  pub State : Type 0
  pub make : State
  pub attach_ms : State → ℕ → State
  pub once_ms : State → ℕ → State
  pub detach : State → State
  pub active : State → Bool
  -- Time goes on, in which a callback may run.
  pub elapse : State → State

module _ (T : Ticker) where
  -- The field `m_ticker`.
  abbrev pub Timer : Type 0
  Timer = Option T.State

  abbrev pub make : Timer
  make = some T.make

  unfoldable pub start_periodic : Timer → ℕ → Bool × Timer
  start_periodic none period_ms = (false, none)
  start_periodic (some t) period_ms = (true, some (T.attach_ms t period_ms))

  unfoldable pub start_once : Timer → ℕ → Bool × Timer
  start_once none delay_ms = (false, none)
  start_once (some t) delay_ms = (true, some (T.once_ms t delay_ms))

  unfoldable pub stop : Timer → Bool × Timer
  stop none = (false, none)
  stop (some t) = (true, some (T.detach t))

  -- operator bool
  unfoldable pub is_active : Timer → Bool
  is_active none = false
  is_active (some t) = T.active t

  -- The versions for a duration, whose count of milliseconds is cast to uint32_t.
  unfoldable pub start_periodic_chrono : Timer → ℕ → Bool × Timer
  start_periodic_chrono t ms = start_periodic t (ms % 2 ^ 32)

  unfoldable pub start_once_chrono : Timer → ℕ → Bool × Timer
  start_once_chrono t ms = start_once t (ms % 2 ^ 32)

  -- ~Timer, which does not test `m_ticker`: through a null one a fault.
  unfoldable pub destroy : Timer → Option T.State
  destroy none = none
  destroy (some t) = some (T.detach t)

  unfoldable pub elapse : Timer → Timer
  elapse none = none
  elapse (some t) = some (T.elapse t)
