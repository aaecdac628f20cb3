-- ===== src/Thread/Tasks.antt =====
-- start and stop of Thread next to the tasks that it creates, switched between any two accesses of
-- `m_task`: the owner is the task that calls the methods, and a worker is in `task_entry`.
pub mod Handle
pub mod Endless
pub mod Race
pub mod Alone
mod Tests
use base_utilities_esp.Base.{
  ℕ, Bool, true, false, not, ◌||◌, Option, none, some, ◌≡◌, ◌==◌, if◌then◌else◌, String,
}
use base_utilities_esp.Thread.{Thread, make}

-- A task by its handle: never created, in `run()`, past it, past `self->m_task = nullptr`, or deleted.
pub data Work : Type 0 where
  absent running ended cleared gone : Work

-- The task is in front of its assignment to `m_task`.
abbrev pub active : Work → Bool
active Work.running = true
active Work.ended = true
active w = false

abbrev pub exists : Work → Bool
exists Work.cleared = true
exists w = active w

-- Why the owner is in `stop`: it was called, or by `start` with that callback.
pub data Purpose : Type 0 where
  stopping : Purpose
  starting : (callback : Bool) → Purpose

-- What the owner does next. `erases` has the value of `m_task` that vTaskDelete was called with.
pub data Owner : Type 0 where
  rests : Owner
  enters : Purpose → Owner
  flags : Purpose → Owner
  waits : Purpose → Owner
  erases : Option ℕ → Purpose → Owner
  resets : Purpose → Owner
  prepares : (callback : Bool) → Owner
  creates : Owner
  deleted : Owner

-- `dangling`: vTaskDelete was called with the handle of a task that was deleted already.
pub record System : Type 0 where
  pub thread : Thread
  pub work : ℕ → Work
  pub owner : Owner
  pub dangling : Bool

abbrev pub initial : String → ℕ → ℕ → ℕ → System
initial name stack_size priority core = record {
  thread = make name stack_size priority core;
  work = λ h. Work.absent;
  owner = Owner.rests;
  dangling = false;
}

abbrev pub becomes : (ℕ → Work) → ℕ → Work → ℕ → Work
becomes work h w k = if h == k then w else work k

abbrev pub with_task : Option ℕ → System → System
with_task o s = record s { thread = record s.thread { task = o } }

abbrev pub after_stop : Purpose → Owner
after_stop Purpose.stopping = Owner.rests
after_stop (Purpose.starting callback) = Owner.prepares callback

-- The call of `stop`; and `start` with its own test, `if (m_task != nullptr)`, before it calls `stop`.
abbrev pub after_call : Option ℕ → Purpose → Owner
after_call o Purpose.stopping = Owner.enters Purpose.stopping
after_call none (Purpose.starting callback) = Owner.prepares callback
after_call (some h) (Purpose.starting callback) = Owner.enters (Purpose.starting callback)

-- `if (m_task == nullptr)` of `stop`.
abbrev pub after_test : Option ℕ → Purpose → Owner
after_test none p = after_stop p
after_test (some h) p = Owner.flags p

-- vTaskDelete: a null handle is the task that calls.
unfoldable pub erase : Option ℕ → Purpose → System → System
erase none p s = record s { owner = Owner.deleted }
erase (some h) p s = record s {
  work = becomes s.work h Work.gone;
  owner = Owner.resets p;
  dangling = s.dangling || not (exists (s.work h));
}

-- xTaskCreate, which writes the handle before the new task can run; none if it fails.
unfoldable pub created : Option ℕ → System → System
created none s = with_task none (record s { owner = Owner.rests })
created (some h) s =
    with_task (some h) (record s { work = becomes s.work h Work.running; owner = Owner.rests })

abbrev pub Free : Option ℕ → (ℕ → Work) → Type 0
Free none work = Unit
Free (some h) work = exists (work h) ≡ false

-- One step of the owner or of a worker. The wait of `stop` may end at any time. With `ends` false no
-- callback ever returns.
pub data Step (ends : Bool) : System → System → Type 0 where
  calls :
      (s : System) (p : Purpose)
      → s.owner ≡ Owner.rests
      → Step ends s (record s { owner = after_call s.thread.task p })
  tests :
      (s : System) (p : Purpose)
      → s.owner ≡ Owner.enters p
      → Step ends s (record s { owner = after_test s.thread.task p })
  flags :
      (s : System) (p : Purpose)
      → s.owner ≡ Owner.flags p
      → Step ends s
          (record s { thread = record s.thread { should_stop = true }; owner = Owner.waits p })
  loads :
      (s : System) (p : Purpose)
      → s.owner ≡ Owner.waits p
      → Step ends s (record s { owner = Owner.erases s.thread.task p })
  erases :
      (s : System) (o : Option ℕ) (p : Purpose)
      → s.owner ≡ Owner.erases o p
      → Step ends s (erase o p s)
  resets :
      (s : System) (p : Purpose)
      → s.owner ≡ Owner.resets p
      → Step ends s (with_task none (record s { owner = after_stop p }))
  prepares :
      (s : System) (c : Bool)
      → s.owner ≡ Owner.prepares c
      → Step ends s (record s {
        thread = record s.thread { should_stop = false; callback = c };
        owner = Owner.creates;
      })
  creates :
      (s : System) (o : Option ℕ)
      → s.owner ≡ Owner.creates
      → Free o s.work
      → Step ends s (created o s)
  returns :
      (s : System) (h : ℕ)
      → ends ≡ true
      → s.work h ≡ Work.running
      → Step ends s (record s { work = becomes s.work h Work.ended })
  clears :
      (s : System) (h : ℕ)
      → s.work h ≡ Work.ended
      → Step ends s (with_task none (record s { work = becomes s.work h Work.cleared }))
  leaves :
      (s : System) (h : ℕ)
      → s.work h ≡ Work.cleared
      → Step ends s (record s { work = becomes s.work h Work.gone })

pub data Reachable (ends : Bool) : System → Type 0 where
  constructed :
      (name : String) (stack_size priority core : ℕ)
      → Reachable ends (initial name stack_size priority core)
  stepped : (s t : System) → Reachable ends s → Step ends s t → Reachable ends t

-- The steps from one moment to a later one.
pub data Leads (ends : Bool) (s : System) : System → Type 0 where
  now : Leads ends s s
  later : (t u : System) → Leads ends s t → Step ends t u → Leads ends s u
