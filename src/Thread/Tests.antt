-- ===== src/Thread/Tests.antt =====
-- A system of two numbers, the tick count and the priority of its one task, and the theorems on it.
use base_utilities_esp.Base.{
  ℕ, zero, suc, ◌+◌, ◌≤◌, ◌⊎◌, ◌/◌, ◌%◌, ◌^◌, true, false, ◌≡◌, refl, none, some, arith, ltb,
}
use base_utilities_esp.Rtos.{Rtos}
use base_utilities_esp.Thread.{
  Thread, Outcome, make, is_running, stop, start, waits, get_priority, set_priority,
}
use base_utilities_esp.Thread.Waiting.{Elapses, delayed}
use base_utilities_esp.Thread.Stopping.{HasDeleted, stop_lem, stop_null_handle}
use base_utilities_esp.Thread.Starting.{start_lem, get_priority-set_priority}

-- A tick is ten milliseconds; the task, of handle 1, ends at a given tick.
abbrev system : ℕ → Rtos
system last_tick = record {
  World = ℕ × ℕ;
  task_create = λ w name stack_size priority. (some 1, w);
  task_create_pinned = λ w name stack_size priority core. (none, w);
  task_delete = λ w h. w;
  is_deleted = λ w h. false;
  tick_count = λ w. w.0 % 2 ^ 32;
  task_delay = λ w n. (w.0 + n, w.1);
  ms_to_ticks = λ ms. ms / 10;
  priority_get = λ w h. w.1;
  priority_set = λ w h p. (w.0, p);
  stack_high_water_mark = λ w h. 512;
  has_finished = λ w h. ltb last_tick w.0;
}

abbrev endless : Rtos
endless = record (system 0) { has_finished = λ w h. false }

system-Elapses : (n : ℕ) → Elapses (system n)
system-Elapses n w = (1, omega arith, omega arith, omega arith)

endless-Elapses : Elapses endless
endless-Elapses w = (1, omega arith, omega arith, omega arith)

abbrev working : Thread
working = record (make "worker" 4096 1 0x7fffffff) { task = some 1 }

start_lem_instance :
    ((start endless working (3, 1) true).0 ≡ is_running (start endless working (3, 1) true).1)
    × ((h : ℕ)
        → working.task ≡ some h
        → start endless working (3, 1) true
          ≡ start endless (record working { task = none }) (3, 1) true)
start_lem_instance = start_lem endless working (3, 1) true

get_priority-set_priority_instance :
    get_priority endless
      (set_priority endless working (3, 1) 5).0
      (set_priority endless working (3, 1) 5).1
    ≡ 5
get_priority-set_priority_instance =
    get_priority-set_priority endless working (3, 1) 5 (λ v h. refl)

stop_lem_example :
    let o = stop endless 6 working (7, 1) 50 in
    (working.task ≡ none → o ≡ Outcome.returned (false, working, (7, 1)))
    × ((h : ℕ) → working.task ≡ some h → HasDeleted endless h o ⊎ (o ≡ Outcome.null_handle))
    × ((h : ℕ) → working.task ≡ some h → ◌≡◌ {A = ℕ} 50 0 → HasDeleted endless h o)
    × ((h : ℕ) → working.task ≡ some h → ((k : ℕ) → k ≤ 5 → false ≡ false) → HasDeleted endless h o)
stop_lem_example =
    stop_lem endless endless-Elapses 5 working (7, 1) 50 (omega arith) (omega arith) (omega arith)

-- The task that ends at tick 9 is waited for at ticks 7 and 8.
waits_two :
    (k : ℕ)
    → k ≤ 1
    → (waits (system 8) 1 (delayed (system 8) k (7, 1)) 7 5 ≡ true)
      × ((system 8).has_finished (delayed (system 8) k (7, 1)) 1 ≡ false)
unfolding waits
waits_two zero le = (refl, refl)
waits_two (suc zero) le = (refl, refl)
waits_two (suc (suc k)) le = absurd (omega arith)

stop_null_handle_example : stop (system 8) 6 working (7, 1) 50 ≡ Outcome.null_handle
stop_null_handle_example =
    stop_null_handle (system 8) 1 4 working (7, 1) 50 1 (omega arith) (omega arith) refl waits_two
      refl
