-- ===== src/Thread/Starting.antt =====
-- Thread::start, and the priority of a thread.
use base_utilities_esp.Base.{ℕ, Bool, ◌≡◌, refl, Option, none, some, arith}
use base_utilities_esp.Rtos.{Rtos}
use base_utilities_esp.Thread.{
  Thread, is_running, delete_task, stop_now, start, task_priority, set_task_priority, get_priority,
  set_priority,
}

module _ (R : Rtos) where
  -- `start` reports success exactly when the object is running afterwards; on an object that has a
  -- task, it first deletes that task, and is otherwise what it is on the stopped object.
  pub start_lem :
      (t : Thread) (w : R.World) (callback : Bool)
      → ((start R t w callback).0 ≡ is_running (start R t w callback).1)
        × ((h : ℕ)
            → t.task ≡ some h
            → start R t w callback
              ≡ start R (record t { task = none }) (R.task_delete w (some h)) callback)
  unfolding start is_running stop_now delete_task
  start_lem t w callback = (ground arith, λ h e. rw e refl)

  task_priority-set_task_priority :
      (w : R.World) (p : ℕ) (o : Option ℕ)
      → ((v : R.World) (h : ℕ) → R.priority_get (R.priority_set v h p) h ≡ p)
      → task_priority R o p (set_task_priority R o w p) ≡ p
  unfolding task_priority set_task_priority
  task_priority-set_task_priority w p none law = refl
  task_priority-set_task_priority w p (some h) law = law w h

  -- Where the system gives back a priority that was set, the priority of a thread after set_priority
  -- is the one that was set, with a task or without.
  pub get_priority-set_priority :
      (t : Thread) (w : R.World) (p : ℕ)
      → ((v : R.World) (h : ℕ) → R.priority_get (R.priority_set v h p) h ≡ p)
      → let (u, v) = set_priority R t w p in get_priority R u v ≡ p
  unfolding get_priority set_priority
  get_priority-set_priority t w p law = task_priority-set_task_priority w p t.task law
