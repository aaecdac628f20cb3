-- ===== src/Thread/Tasks/Tests.antt =====
-- A thread that was started, and its stop.
use base_utilities_esp.Base.{ℕ, none, Bool, true, false, some, ◌≡◌, ◌≢◌, refl}
use base_utilities_esp.Rtos.{Rtos}
use base_utilities_esp.Thread.{no_affinity, start, stop_now}
use base_utilities_esp.Thread.Tasks.{
  Purpose, Owner, System, initial, created, Step, Reachable, Leads,
}
use base_utilities_esp.Thread.Tasks.Handle.{IsTracked, Reachable-IsTracked}
use base_utilities_esp.Thread.Tasks.Endless.{owner-Reachable}
use base_utilities_esp.Thread.Tasks.Alone.{owner_alone}

abbrev new_thread : System
new_thread = initial "worker" 4096 5 no_affinity

abbrev preparing : System
preparing = record new_thread { owner = Owner.prepares true }

abbrev creating : System
creating = record new_thread {
  thread = record new_thread.thread { callback = true };
  owner = Owner.creates;
}

-- The task 3 runs.
abbrev started : System
started = created (some 3) creating

started-Reachable : (ends : Bool) → Reachable ends started
started-Reachable ends =
    Reachable.stepped creating started
      (Reachable.stepped preparing creating
        (Reachable.stepped new_thread preparing (Reachable.constructed "worker" 4096 5 no_affinity)
          (Step.calls new_thread (Purpose.starting true) refl))
        (Step.prepares preparing true refl))
      (Step.creates creating (some 3) refl refl)

Reachable-IsTracked_example : IsTracked started
Reachable-IsTracked_example = Reachable-IsTracked true started (started-Reachable true)

owner-Reachable_example : (started.owner ≢ Owner.deleted) × (started.dangling ≡ false)
owner-Reachable_example = owner-Reachable started (started-Reachable false)

-- A system that gives the handle 4.
abbrev system : Rtos
system = record {
  World = ℕ;
  task_create = λ w name stack_size priority. (some 4, w);
  task_create_pinned = λ w name stack_size priority core. (none, w);
  task_delete = λ w h. w;
  is_deleted = λ w h. false;
  tick_count = λ w. w;
  task_delay = λ w n. w;
  ms_to_ticks = λ ms. ms;
  priority_get = λ w h. 5;
  priority_set = λ w h p. w;
  stack_high_water_mark = λ w h. 512;
  has_finished = λ w h. false;
}

owner_alone_instance :
    ((t : System) × Leads true started t
      × (t.owner ≡ Owner.rests)
      × (t.thread ≡ (stop_now system started.thread 0).1))
    × ((t : System) × Leads true started t
        × (t.owner ≡ Owner.rests)
        × (t.thread ≡ (start system started.thread 0 false).1))
unfolding created start stop_now base_utilities_esp.Thread.create
    base_utilities_esp.Thread.delete_task
owner_alone_instance = owner_alone system 0 true false started refl refl
