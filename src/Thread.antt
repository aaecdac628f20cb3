-- ===== src/Thread.antt =====
-- include/Thread.hpp: the class Thread. A method takes the object and the system and returns its
-- result with both. The task of the object runs while a method waits in vTaskDelay: at its end it
-- clears `m_task`, which the method then sees.
pub mod Waiting
pub mod Stopping
pub mod Starting
pub mod Tasks
mod Tests
use base_utilities_esp.Base.{
  ℕ, zero, suc, ◌+◌, ◌-◌, ◌%◌, ◌^◌, String, Bool, true, false, not, ◌&&◌, Option, none, some, ltb,
  ◌==◌, if◌then◌else◌, is_some, List, [], ◌∷◌,
}
use base_utilities_esp.Rtos.{Rtos}

pub record Thread : Type 0 where
  pub task : Option ℕ
  pub should_stop : Bool
  pub name : String
  pub stack_size : ℕ
  pub priority : ℕ
  pub core : ℕ
  -- Whether a callback is set.
  pub callback : Bool

-- tskNO_AFFINITY
abbrev pub no_affinity : ℕ
no_affinity = 0x7fffffff

abbrev pub make : String → ℕ → ℕ → ℕ → Thread
make name stack_size priority core = record {
  task = none;
  should_stop = false;
  name = name;
  stack_size = stack_size;
  priority = priority;
  core = core;
  callback = false;
}

unfoldable pub is_running : Thread → Bool
is_running t = is_some t.task && not t.should_stop

-- What the task's code does in turn.
pub data Action : Type 0 where
  run_callback : Action
  delete_self : Action

-- `run()` of the class itself.
unfoldable pub run : Thread → List Action → List Action
run t rest = if t.callback then Action.run_callback ∷ rest else rest

-- `task_entry`: the object afterwards and what was done; for a null argument, a fault.
unfoldable pub task_entry : Option Thread → Option (Thread × List Action)
unfolding run
task_entry none = none
task_entry (some self) = some (record self { task = none }, run self (Action.delete_self ∷ []))

-- What becomes of a call of `stop`; `null_handle` is a call of eTaskGetState with a null handle.
pub data Outcome {ℓ} (A : Type ℓ) : Type ℓ where
  out_of_fuel : Outcome A
  null_handle : Outcome A
  returned : A → Outcome A

abbrev pub map_outcome {ℓ κ} : {A : Type ℓ} {B : Type κ} → (A → B) → Outcome A → Outcome B
map_outcome f Outcome.out_of_fuel = Outcome.out_of_fuel
map_outcome f Outcome.null_handle = Outcome.null_handle
map_outcome f (Outcome.returned a) = Outcome.returned (f a)

module _ (R : Rtos) where
  -- `m_task` as a method finds it after other tasks ran.
  unfoldable pub clear_finished : R.World → Option ℕ → Option ℕ
  clear_finished w none = none
  clear_finished w (some h) = if R.has_finished w h then none else some h

  unfoldable pub seen : R.World → Thread → Thread
  unfolding clear_finished
  seen w t = record t { task = clear_finished w t.task }

  -- The condition of the `while` of `stop`, for a handle that is not null; the tick count is a
  -- uint32_t.
  unfoldable pub waits : ℕ → R.World → (start ticks : ℕ) → Bool
  waits h w start ticks =
      not (R.is_deleted w h) && ltb ((R.tick_count w + 2 ^ 32 - start) % 2 ^ 32) ticks

  -- The test of the `while` and what follows: the rest of the loop, or the way out.
  unfoldable pub wait_round :
      Option ℕ
      → Thread
      → R.World
      → (start ticks : ℕ) → (rest : Outcome (Thread × R.World)) → Outcome (Thread × R.World)
  wait_round none t w start ticks rest = Outcome.null_handle
  wait_round (some h) t w start ticks rest =
      if waits h w start ticks then rest else Outcome.returned (t, w)

  unfoldable pub wait_loop : ℕ → Thread → R.World → (start ticks : ℕ) → Outcome (Thread × R.World)
  unfolding wait_round
  wait_loop zero t w start ticks = Outcome.out_of_fuel
  wait_loop (suc fuel) t w start ticks =
      let w₁ : R.World = R.task_delay w 1 in
      let rest = wait_loop fuel (seen w₁ t) w₁ start ticks in wait_round t.task t w start ticks rest

  -- `vTaskDelete(m_task); m_task = nullptr; return true;`
  unfoldable pub delete_task : Thread × R.World → Bool × Thread × R.World
  delete_task (t, w) = (true, record t { task = none }, R.task_delete w t.task)

  -- `stop` from the line that sets the flag on.
  unfoldable pub stop_task : ℕ → Thread → R.World → ℕ → Outcome (Bool × Thread × R.World)
  stop_task fuel t w timeout_ms =
      let t₁ : Thread = record t { should_stop = true } in
      if ltb 0 timeout_ms
      then map_outcome delete_task (wait_loop fuel t₁ w (R.tick_count w) (R.ms_to_ticks timeout_ms))
      else Outcome.returned (delete_task (t₁, w))

  unfoldable pub stop : ℕ → Thread → R.World → ℕ → Outcome (Bool × Thread × R.World)
  stop fuel t w timeout_ms =
      if is_some t.task then stop_task fuel t w timeout_ms else Outcome.returned (false, t, w)

  -- `stop()`, which does not wait.
  unfoldable pub stop_now : Thread → R.World → Bool × Thread × R.World
  stop_now t w =
      if is_some t.task then delete_task (record t { should_stop = true }, w) else (false, t, w)

  create : Thread → R.World → Option ℕ × R.World
  create t w =
      if t.core == no_affinity
      then R.task_create w t.name t.stack_size t.priority
      else R.task_create_pinned w t.name t.stack_size t.priority t.core

  -- `start(callback)`; the argument tells whether the callback given is callable.
  unfoldable pub start : Thread → R.World → Bool → Bool × Thread × R.World
  unfolding create
  start t w callback =
      let (stopped, t₁, w₁) = stop_now t w in
      let t₂ : Thread = record t₁ { should_stop = false; callback = callback } in
      let (h, w₂) = create t₂ w₁ in (is_some h, record t₂ { task = h }, w₂)

  -- `start(name, stack_size, priority, core, callback)`
  unfoldable pub start_with :
      Thread → R.World → String → (stack_size priority core : ℕ) → Bool → Bool × Thread × R.World
  start_with t w name stack_size priority core callback =
      let t₁ : Thread = record t {
        name = name;
        stack_size = stack_size;
        priority = priority;
        core = core;
      } in
      start t₁ w callback

  unfoldable pub get_free_stack : Thread → R.World → ℕ
  get_free_stack t w = elim t.task [ none ↦ 0 | some h ↦ R.stack_high_water_mark w h ]

  unfoldable pub task_priority : Option ℕ → ℕ → R.World → ℕ
  task_priority none own w = own
  task_priority (some h) own w = R.priority_get w h

  unfoldable pub get_priority : Thread → R.World → ℕ
  unfolding task_priority
  get_priority t w = task_priority t.task t.priority w

  unfoldable pub set_task_priority : Option ℕ → R.World → ℕ → R.World
  set_task_priority none w priority = w
  set_task_priority (some h) w priority = R.priority_set w h priority

  unfoldable pub set_priority : Thread → R.World → ℕ → Thread × R.World
  unfolding set_task_priority
  set_priority t w priority =
      (record t { priority = priority }, set_task_priority t.task w priority)
