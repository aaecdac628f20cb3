-- ===== src/Timer/History.antt =====
-- A Timer over any sequence of calls and of time that passes.
use base_utilities_esp.Base.{
  ℕ, zero, suc, Bool, true, false, ◌≡◌, ◌≢◌, refl, none, some, List, [], ◌∷◌, arith,
}
use base_utilities_esp.Timer.{
  Ticker, Timer, make, start_periodic, start_once, start_periodic_chrono, start_once_chrono, stop,
  is_active, destroy, elapse,
}

pub data Call : Type 0 where
  periodic : ℕ → Call
  once : ℕ → Call
  periodic_chrono : ℕ → Call
  once_chrono : ℕ → Call
  stop_timer : Call
  wait : Call

-- What the class relies on, where `repeating` tells whether a ticker runs its callback again and
-- again: from attach_ms on it does, time does not end that, and it is active as long; a ticker that
-- was detached is not active, nor does it become so with time.
pub record PassageLaws (T : Ticker) (repeating : T.State → Bool) : Type 0 where
  pub attached : (t : T.State) (ms : ℕ) → repeating (T.attach_ms t ms) ≡ true
  pub lasting : (t : T.State) → repeating t ≡ true → repeating (T.elapse t) ≡ true
  pub repeats : (t : T.State) → repeating t ≡ true → T.active t ≡ true
  pub detached : (t : T.State) → T.active (T.detach t) ≡ false
  pub idle : (t : T.State) → T.active t ≡ false → T.active (T.elapse t) ≡ false

module _ (T : Ticker) where
  unfoldable pub call : Call → Timer T → Timer T
  call (periodic ms) t = (start_periodic T t ms).1
  call (once ms) t = (start_once T t ms).1
  call (periodic_chrono ms) t = (start_periodic_chrono T t ms).1
  call (once_chrono ms) t = (start_once_chrono T t ms).1
  call stop_timer t = (stop T t).1
  call wait t = elapse T t

  -- The calls, the first one first.
  unfoldable pub run : List Call → Timer T → Timer T
  unfolding call
  run [] t = t
  run (c ∷ cs) t = run cs (call c t)

  unfoldable pub waits : ℕ → Timer T → Timer T
  waits zero t = t
  waits (suc n) t = waits n (elapse T t)

  -- No call gives up the ticker.
  call-some : (c : Call) (t : T.State) → (u : T.State) × (call c (some t) ≡ some u)
  unfolding call start_periodic start_once start_periodic_chrono start_once_chrono stop elapse
  call-some (periodic ms) t = (_, refl)
  call-some (once ms) t = (_, refl)
  call-some (periodic_chrono ms) t = (_, refl)
  call-some (once_chrono ms) t = (_, refl)
  call-some stop_timer t = (_, refl)
  call-some wait t = (_, refl)

  run-some : (cs : List Call) (t : T.State) → (u : T.State) × (run cs (some t) ≡ some u)
  unfolding run
  run-some [] t = (t, refl)
  run-some (c ∷ cs) t = let (u, e) = call-some c t in let (v, f) = run-some cs u in (v, rw e f)

module _ (T : Ticker) (repeating : T.State → Bool) (L : PassageLaws T repeating) where
  waits-repeating :
      (n : ℕ) (t : T.State) → repeating t ≡ true → is_active T (waits T n (some t)) ≡ true
  unfolding waits elapse is_active
  waits-repeating zero t e = L.repeats t e
  waits-repeating (suc n) t e = waits-repeating n (T.elapse t) (L.lasting t e)

  waits-idle : (n : ℕ) (t : T.State) → T.active t ≡ false → is_active T (waits T n (some t)) ≡ false
  unfolding waits elapse is_active
  waits-idle zero t e = e
  waits-idle (suc n) t e = waits-idle n (T.elapse t) (L.idle t e)

  -- After any calls on a new Timer: the destructor does not fault, every start and stop reports true,
  -- a timer that is started periodically stays active however long one waits, and one that is stopped
  -- does not become active again.
  pub activity-run :
      (cs : List Call) (ms n : ℕ)
      → let t = run T cs (make T) in
        (destroy T t ≢ none)
        × ((start_periodic T t ms).0 ≡ true)
        × ((start_once T t ms).0 ≡ true)
        × ((stop T t).0 ≡ true)
        × (is_active T (waits T n (start_periodic T t ms).1) ≡ true)
        × (is_active T (waits T n (stop T t).1) ≡ false)
  unfolding start_periodic start_once stop destroy
  activity-run cs ms n =
      let (u, e) = run-some T cs T.make in
      rw e (
        λ f. ground (arith, f),
        refl,
        refl,
        refl,
        waits-repeating n (T.attach_ms u ms) (L.attached u ms),
        waits-idle n (T.detach u) (L.detached u),
      )
