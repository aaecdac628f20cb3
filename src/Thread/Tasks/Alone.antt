-- ===== src/Thread/Tasks/Alone.antt =====
-- The steps of the owner alone, next to the methods of Thread as a whole.
use base_utilities_esp.Base.{
  ℕ, Bool, true, false, Option, none, some, is_some, ◌≡◌, refl, sym, ap, ◌∙◌, subst, ◌==◌,
  Bool-cases, inl, inr, ==_iff,
}
use base_utilities_esp.Rtos.{Rtos}
use base_utilities_esp.Thread.{Thread, stop_now, delete_task, start}
use base_utilities_esp.Thread.Tasks.{
  Work, exists, Purpose, Owner, System, becomes, after_stop, after_test, erase, created, Free, Step,
  Leads, after_call,
}
use base_utilities_esp.Thread.Tasks.Handle.{becomes-here, becomes-other}

-- The tasks after `stop` of the task that is named.
abbrev stopped_work : Option ℕ → (ℕ → Work) → ℕ → Work
stopped_work none work = work
stopped_work (some h) work = becomes work h Work.gone

-- `stop()` without a wait, by the handle that the object has.
abbrev stopped : Option ℕ → Thread → Thread
stopped none t = t
stopped (some h) t = record t { should_stop = true; task = none }

stop_now-stopped :
    (R : Rtos) (t : Thread) (w : R.World) (o : Option ℕ)
    → t.task ≡ o
    → (stop_now R t w).1 ≡ stopped o t
unfolding stop_now delete_task
stop_now-stopped R t w none e = rw (ap is_some e) refl
stop_now-stopped R t w (some h) e = rw (ap is_some e) refl

stop-steps :
    (ends : Bool) (s₀ s : System) (p : Purpose) (o : Option ℕ)
    → Leads ends s₀ s
    → s.owner ≡ Owner.rests
    → s.thread.task ≡ o
    → (d : Bool) × Leads ends s₀ (record s {
      thread = stopped o s.thread;
      work = stopped_work o s.work;
      owner = after_stop p;
      dangling = d;
    })
unfolding erase
stop-steps ends s₀ s p none r rest e = (s.dangling, no_task p)
  where
    no_task : (p : Purpose) → Leads ends s₀ (record s { owner = after_stop p })
    no_task Purpose.stopping =
        let a : System = record s { owner = Owner.enters Purpose.stopping } in
        subst (λ o. Leads ends s₀ (record a { owner = after_test o Purpose.stopping })) e
          (Leads.later a _ (Leads.later s a r (Step.calls s Purpose.stopping rest))
            (Step.tests a Purpose.stopping refl))
    no_task (Purpose.starting c) =
        subst (λ o. Leads ends s₀ (record s { owner = after_call o (Purpose.starting c) })) e
          (Leads.later s _ r (Step.calls s (Purpose.starting c) rest))
stop-steps ends s₀ s p (some h) r rest e =
    let x : System = record s { owner = Owner.enters p } in
    let a : System = record s { owner = Owner.flags p } in
    let b : System = record s {
      thread = record s.thread { should_stop = true };
      owner = Owner.waits p;
    } in
    let c : System = record b { owner = Owner.erases (some h) p } in
    let called = entered p in
    let tested =
      subst (λ o. Leads ends s₀ (record s { owner = after_test o p })) e
        (Leads.later x _ called (Step.tests x p refl)) in
    let flagged = Leads.later a b tested (Step.flags a p refl) in
    let loaded =
      subst (λ o. Leads ends s₀ (record b { owner = Owner.erases o p })) e
        (Leads.later b _ flagged (Step.loads b p refl)) in
    let erased = Leads.later c (erase (some h) p c) loaded (Step.erases c (some h) p refl) in
    ((erase (some h) p c).dangling, Leads.later _ _ erased (Step.resets _ p refl))
  where
    entered : (p : Purpose) → Leads ends s₀ (record s { owner = Owner.enters p })
    entered Purpose.stopping = Leads.later s _ r (Step.calls s Purpose.stopping rest)
    entered (Purpose.starting callback) =
        subst (λ o. Leads ends s₀ (record s { owner = after_call o (Purpose.starting callback) })) e
          (Leads.later s _ r (Step.calls s (Purpose.starting callback) rest))

Free-stopped : (o c : Option ℕ) (work : ℕ → Work) → Free c work → Free c (stopped_work o work)
Free-stopped none c work free = free
Free-stopped (some h) none work free = tt
Free-stopped (some h) (some k) work free = elim (Bool-cases (h == k)) [
  | inl y ↦ ap exists (becomes-here work h k Work.gone ((==_iff h k).0 y))
  | inr n ↦ ap exists (becomes-other work h k Work.gone n) ∙ free
]

thread-created :
    (c : Option ℕ) (s : System)
    → ((created c s).thread ≡ record s.thread { task = c }) × ((created c s).owner ≡ Owner.rests)
unfolding created
thread-created none s = (refl, refl)
thread-created (some h) s = (refl, refl)

-- `start` from the fields on, to the object with the handle that FreeRTOS gives.
create-steps :
    (ends callback : Bool) (s₀ s : System) (c : Option ℕ)
    → Leads ends s₀ s
    → s.owner ≡ Owner.prepares callback
    → Free c s.work
    → (t : System) × Leads ends s₀ t
      × (t.owner ≡ Owner.rests)
      × (t.thread ≡ record s.thread { should_stop = false; callback = callback; task = c })
create-steps ends callback s₀ s c r at free =
    let a : System = record s {
      thread = record s.thread { should_stop = false; callback = callback };
      owner = Owner.creates;
    } in
    let prepared = Leads.later s a r (Step.prepares s callback at) in
    let (thread, owner) = thread-created c a in
    (created c a, Leads.later a (created c a) prepared (Step.creates a c refl free), owner, thread)

-- From any moment at which no method runs, the steps of the owner alone lead to what `stop()` makes of
-- the object, and to what `start(callback)` makes of it, if the handle that FreeRTOS gives is not
-- that of a task that still exists.
pub owner_alone :
    (R : Rtos) (w : R.World) (ends callback : Bool) (s : System)
    → s.owner ≡ Owner.rests
    → Free (start R s.thread w callback).1.task s.work
    → ((t : System) × Leads ends s t
        × (t.owner ≡ Owner.rests)
        × (t.thread ≡ (stop_now R s.thread w).1))
      × ((t : System) × Leads ends s t
          × (t.owner ≡ Owner.rests)
          × (t.thread ≡ (start R s.thread w callback).1))
unfolding start base_utilities_esp.Thread.create
owner_alone R w ends callback s rest free =
    let o = s.thread.task in
    let (d, after) = stop-steps ends s s Purpose.stopping o Leads.now rest refl in
    let (f, before) = stop-steps ends s s (Purpose.starting callback) o Leads.now rest refl in
    let c = (start R s.thread w callback).1.task in
    let made = create-steps ends callback s _ c before refl (Free-stopped o c s.work free) in
    let same =
      ap {A = Thread} {B = Thread}
        (λ u. record u { should_stop = false; callback = callback; task = c })
        (sym (stop_now-stopped R s.thread w o refl)) in
    (
      (_, after, refl, sym (stop_now-stopped R s.thread w o refl)),
      (made.0, made.1, made.2, made.3 ∙ same),
    )
