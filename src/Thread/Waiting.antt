-- ===== src/Thread/Waiting.antt =====
-- The loop in which Thread::stop waits for its task.
use base_utilities_esp.Base.{
  ℕ, zero, suc, ◌+◌, ◌-◌, ◌%◌, ◌^◌, ◌≤◌, ◌<◌, true, false, ◌≡◌, refl, ap, Option, ◌∙◌, none, some,
  arith, Bool-cases, inl, inr, ◌⊎◌,
}
use base_utilities_esp.Rtos.{Rtos}
use base_utilities_esp.Thread.{Thread, Outcome, waits, seen, clear_finished, wait_loop, wait_round}

-- A delay of a tick lasts at least one tick, and less than half of the range of the tick count.
abbrev pub Elapses : Rtos → Type 0
Elapses R =
    (w : R.World)
    → (d : ℕ) × (1 ≤ d)
      × (d ≤ 2 ^ 31)
      × (R.tick_count (R.task_delay w 1) ≡ (R.tick_count w + d) % 2 ^ 32)

-- The ticks since `start`, on a count of 32 bits that may have wrapped around.
abbrev pub elapsed : ℕ → ℕ → ℕ
elapsed now start = (now + 2 ^ 32 - start) % 2 ^ 32

elapsed-add :
    (now start d ticks : ℕ)
    → start < 2 ^ 32
    → now < 2 ^ 32
    → elapsed now start < ticks
    → ticks ≤ 2 ^ 31
    → d ≤ 2 ^ 31
    → elapsed ((now + d) % 2 ^ 32) start ≡ elapsed now start + d
elapsed-add now start d ticks hs hn lt ht hd = omega arith

module _ (R : Rtos) where
  -- The system after some delays of a tick.
  abbrev pub delayed : ℕ → R.World → R.World
  delayed zero w = w
  delayed (suc k) w = delayed k (R.task_delay w 1)

  waits-lt :
      (h : ℕ) (w : R.World) (start ticks : ℕ)
      → waits R h w start ticks ≡ true
      → elapsed (R.tick_count w) start < ticks
  unfolding waits
  waits-lt h w start ticks more = ground arith

  -- A round, for what the handle is.
  wait_loop-suc :
      (fuel : ℕ) (t : Thread) (w : R.World) (start ticks : ℕ) (o : Option ℕ)
      → t.task ≡ o
      → let w₁ = R.task_delay w 1 in
        wait_loop R (suc fuel) t w start ticks
        ≡ wait_round R o t w start ticks (wait_loop R fuel (seen R w₁ t) w₁ start ticks)
  unfolding wait_loop
  wait_loop-suc fuel t w start ticks o e =
      let w₁ : R.World = R.task_delay w 1 in
      ap (λ p. wait_round R p t w start ticks (wait_loop R fuel (seen R w₁ t) w₁ start ticks)) e

  pub wait_loop-null :
      (fuel : ℕ) (t : Thread) (w : R.World) (start ticks : ℕ)
      → t.task ≡ none
      → wait_loop R (suc fuel) t w start ticks ≡ Outcome.null_handle
  unfolding wait_round
  wait_loop-null fuel t w start ticks e = wait_loop-suc fuel t w start ticks none e

  pub wait_loop-stop :
      (fuel : ℕ) (t : Thread) (w : R.World) (start ticks h : ℕ)
      → t.task ≡ some h
      → waits R h w start ticks ≡ false
      → wait_loop R (suc fuel) t w start ticks ≡ Outcome.returned (t, w)
  unfolding wait_round
  wait_loop-stop fuel t w start ticks h e over =
      wait_loop-suc fuel t w start ticks (some h) e ∙ rw over refl

  pub wait_loop-go :
      (fuel : ℕ) (t : Thread) (w : R.World) (start ticks h : ℕ)
      → t.task ≡ some h
      → waits R h w start ticks ≡ true
      → let w₁ = R.task_delay w 1 in
        wait_loop R (suc fuel) t w start ticks ≡ wait_loop R fuel (seen R w₁ t) w₁ start ticks
  unfolding wait_round
  wait_loop-go fuel t w start ticks h e more =
      wait_loop-suc fuel t w start ticks (some h) e ∙ rw more refl

  -- The task as other tasks leave it: the same handle, or none.
  task-seen :
      (w : R.World) (t : Thread) (h : ℕ)
      → t.task ≡ some h
      → ((seen R w t).task ≡ none) ⊎ ((seen R w t).task ≡ some h)
  unfolding seen clear_finished
  task-seen w t h e = elim (Bool-cases (R.has_finished w h)) [
    | inl over ↦ inl (rw (e, over) refl)
    | inr lives ↦ inr (rw (e, lives) refl)
  ]

  pub seen-lives :
      (w : R.World) (t : Thread) (h : ℕ)
      → t.task ≡ some h
      → R.has_finished w h ≡ false
      → seen R w t ≡ t
  unfolding seen clear_finished
  seen-lives w t h e lives =
      let same : clear_finished R w t.task ≡ t.task = rw (e, lives) refl in
      ap {A = Option ℕ} {B = Thread} (λ o. record t { task = o }) same

  pub task-seen_over :
      (w : R.World) (t : Thread) (h : ℕ)
      → t.task ≡ some h
      → R.has_finished w h ≡ true
      → (seen R w t).task ≡ none
  unfolding seen clear_finished
  task-seen_over w t h e over = rw (e, over) refl

  -- Whatever the task does: with fuel for the ticks that are left, and one round more, the loop ends
  -- with the task, or finds the null handle.
  pub wait_loop_ends :
      Elapses R
      → (fuel : ℕ) (t : Thread) (w : R.World) (start ticks h : ℕ) → start < 2 ^ 32
      → R.tick_count w < 2 ^ 32
      → ticks ≤ 2 ^ 31
      → ticks ≤ fuel + elapsed (R.tick_count w) start
      → t.task ≡ some h
      → (wait_loop R (suc fuel) t w start ticks ≡ Outcome.null_handle)
        ⊎ ((tw : Thread × R.World) × (wait_loop R (suc fuel) t w start ticks ≡ Outcome.returned tw)
            × (tw.0.task ≡ some h))
  wait_loop_ends lasts zero t w start ticks h hs hn ht enough e =
      elim (Bool-cases (waits R h w start ticks)) [
        | inl more ↦ absurd (omega (arith, waits-lt h w start ticks more))
        | inr over ↦ inr ((t, w), wait_loop-stop 0 t w start ticks h e over, e)
      ]
  wait_loop_ends lasts (suc fuel) t w start ticks h hs hn ht enough e =
      elim (Bool-cases (waits R h w start ticks)) [
        | inr over ↦ inr ((t, w), wait_loop-stop (suc fuel) t w start ticks h e over, e)
        | inl more ↦
            let w₁ : R.World = R.task_delay w 1 in
            let go = wait_loop-go (suc fuel) t w start ticks h e more in
            let lt = waits-lt h w start ticks more in
            let (d, least, most, tick) = lasts w in
            let later = elapsed-add (R.tick_count w) start d ticks hs hn lt ht most in
            elim (task-seen w₁ t h e) [
              | inl gone ↦ inl (go ∙ wait_loop-null fuel (seen R w₁ t) w₁ start ticks gone)
              | inr there ↦
                  elim (wait_loop_ends lasts fuel (seen R w₁ t) w₁ start ticks h hs
                    (omega (arith, tick)) ht (rw (tick, later) (omega arith)) there) [
                      | inl null ↦ inl (go ∙ null)
                      | inr (tw, ended, named) ↦ inr (tw, go ∙ ended, named)
                    ]
            ]
      ]

  -- If the task does not end in as many delays as there are ticks left, the loop ends with the object
  -- as it was.
  pub wait_loop_lives :
      Elapses R
      → (fuel left : ℕ) (t : Thread) (w : R.World) (start ticks h : ℕ) → start < 2 ^ 32
      → R.tick_count w < 2 ^ 32
      → ticks ≤ 2 ^ 31
      → ticks ≤ left + elapsed (R.tick_count w) start
      → left ≤ fuel
      → t.task ≡ some h
      → ((k : ℕ) → k ≤ left → R.has_finished (delayed k w) h ≡ false)
      → (v : R.World) × (wait_loop R (suc fuel) t w start ticks ≡ Outcome.returned (t, v))
  wait_loop_lives lasts fuel zero t w start ticks h hs hn ht enough fits e lives =
      elim (Bool-cases (waits R h w start ticks)) [
        | inl more ↦ absurd (omega (arith, waits-lt h w start ticks more))
        | inr over ↦ (w, wait_loop-stop fuel t w start ticks h e over)
      ]
  wait_loop_lives lasts zero (suc left) t w start ticks h hs hn ht enough fits e lives =
      absurd (omega arith)
  wait_loop_lives lasts (suc fuel) (suc left) t w start ticks h hs hn ht enough fits e lives =
      elim (Bool-cases (waits R h w start ticks)) [
        | inr over ↦ (w, wait_loop-stop (suc fuel) t w start ticks h e over)
        | inl more ↦
            let w₁ : R.World = R.task_delay w 1 in
            let lt = waits-lt h w start ticks more in
            let (d, least, most, tick) = lasts w in
            let later = elapsed-add (R.tick_count w) start d ticks hs hn lt ht most in
            let same = seen-lives w₁ t h e (lives 1 (omega arith)) in
            let (v, ended) =
              wait_loop_lives lasts fuel left t w₁ start ticks h hs (omega (arith, tick)) ht
                (rw (tick, later) (omega arith)) (omega arith) e
                (λ k le. lives (suc k) (omega arith)) in
            (
              v,
              wait_loop-go (suc fuel) t w start ticks h e more
                  ∙ ap (λ u. wait_loop R (suc fuel) u w₁ start ticks) same
                  ∙ ended,
            )
      ]

  -- If the task ends in the last of some delays, through which the loop waits, the loop finds the null
  -- handle.
  pub wait_loop_over :
      (n fuel : ℕ) (t : Thread) (w : R.World) (start ticks h : ℕ)
      → n ≤ fuel
      → t.task ≡ some h
      → ((k : ℕ) → k ≤ n → waits R h (delayed k w) start ticks ≡ true)
      → ((k : ℕ) → k ≤ n → R.has_finished (delayed k w) h ≡ false)
      → R.has_finished (delayed (suc n) w) h ≡ true
      → wait_loop R (suc (suc fuel)) t w start ticks ≡ Outcome.null_handle
  wait_loop_over zero fuel t w start ticks h fits e waiting lives over =
      let w₁ : R.World = R.task_delay w 1 in
      wait_loop-go (suc fuel) t w start ticks h e (waiting 0 (omega arith))
      ∙ wait_loop-null fuel (seen R w₁ t) w₁ start ticks (task-seen_over w₁ t h e over)
  wait_loop_over (suc n) zero t w start ticks h fits e waiting lives over = absurd (omega arith)
  wait_loop_over (suc n) (suc fuel) t w start ticks h fits e waiting lives over =
      let w₁ : R.World = R.task_delay w 1 in
      wait_loop-go (suc (suc fuel)) t w start ticks h e (waiting 0 (omega arith))
      ∙ ap (λ u. wait_loop R (suc (suc fuel)) u w₁ start ticks)
          (seen-lives w₁ t h e (lives 1 (omega arith)))
      ∙ wait_loop_over n fuel t w₁ start ticks h (omega arith) e
          (λ k le. waiting (suc k) (omega arith)) (λ k le. lives (suc k) (omega arith)) over
