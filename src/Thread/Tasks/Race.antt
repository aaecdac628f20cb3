-- ===== src/Thread/Tasks/Race.antt =====
-- Thread with a callback that returns while its owner calls `stop`.
use base_utilities_esp.Base.{ℕ, true, none}
use base_utilities_esp.Thread.Tasks.{Work, Purpose, Owner, System, becomes, with_task}

-- The worker returns and clears `m_task`.
abbrev finished : ℕ → System → System
finished h s =
    let t : System = record s { work = becomes s.work h Work.ended } in
    with_task none (record t { work = becomes t.work h Work.cleared })

-- `stop` up to its wait.
abbrev waiting : System → System
waiting s = record s {
  thread = record s.thread { should_stop = true };
  owner = Owner.waits Purpose.stopping;
}

-- `stop` after its read of `m_task`; then the worker ends and deletes itself.
abbrev read_task : System → System
read_task s =
    let t : System = waiting s in record t { owner = Owner.erases t.thread.task Purpose.stopping }

abbrev ended_late : ℕ → System → System
ended_late h s =
    let t : System = finished h (read_task s) in record t { work = becomes t.work h Work.gone }
