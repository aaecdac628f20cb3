-- ===== src/Timer/Activity.antt =====
-- When a Timer is active.
use base_utilities_esp.Base.{ℕ, true, false, ◌≡◌, refl, none, some}
use base_utilities_esp.Timer.{
  Ticker, Timer, start_periodic, start_once, start_periodic_chrono, start_once_chrono, stop,
  is_active,
}

-- What the class relies on: a ticker is active from a start on, until it is detached.
pub record TickerLaws (T : Ticker) : Type 0 where
  pub attached : (t : T.State) (ms : ℕ) → T.active (T.attach_ms t ms) ≡ true
  pub once : (t : T.State) (ms : ℕ) → T.active (T.once_ms t ms) ≡ true
  pub detached : (t : T.State) → T.active (T.detach t) ≡ false

-- What each start reports is whether the timer is active afterwards, for either unit of time, and after
-- stop, whatever it reports, it is not.
pub is_active-start :
    (T : Ticker) (L : TickerLaws T) (t : Timer T) (ms : ℕ)
    → (is_active T (start_periodic T t ms).1 ≡ (start_periodic T t ms).0)
      × (is_active T (start_once T t ms).1 ≡ (start_once T t ms).0)
      × (is_active T (start_periodic_chrono T t ms).1 ≡ (start_periodic_chrono T t ms).0)
      × (is_active T (start_once_chrono T t ms).1 ≡ (start_once_chrono T t ms).0)
      × (is_active T (stop T t).1 ≡ false)
unfolding is_active start_periodic start_once start_periodic_chrono start_once_chrono stop
is_active-start T L none ms = (refl, refl, refl, refl, refl)
is_active-start T L (some t) ms =
    (L.attached t ms, L.once t ms, L.attached t _, L.once t _, L.detached t)
