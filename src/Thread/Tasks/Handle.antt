-- ===== src/Thread/Tasks/Handle.antt =====
-- Which task `m_task` names, in any interleaving.
use base_utilities_esp.Base.{
  ℕ, Bool, true, false, Option, none, some, ◌≡◌, refl, sym, ap, ◌∙◌, ◌==◌, ==_iff, arith,
  Bool-cases, inl, inr, subst,
}
use base_utilities_esp.Thread.Tasks.{
  Work, active, Purpose, Owner, System, initial, becomes, with_task, after_stop, after_call,
  after_test, erase, created, Free, Step, Reachable,
}

-- A task in front of its assignment to `m_task` is the one that `m_task` names.
abbrev pub Named : System → Type 0
Named s = (h : ℕ) → active (s.work h) ≡ true → s.thread.task ≡ some h

-- `m_task` names such a task, if any.
abbrev pub Valid : System → Type 0
Valid s = (h : ℕ) → s.thread.task ≡ some h → active (s.work h) ≡ true

abbrev pub AtOwner : Owner → System → Type 0
AtOwner (Owner.erases o p) s = Valid s × ((h : ℕ) → active (s.work h) ≡ true → o ≡ some h)
AtOwner (Owner.resets p) s = (h : ℕ) → active (s.work h) ≡ false
AtOwner (Owner.prepares c) s = s.thread.task ≡ none
AtOwner Owner.creates s = s.thread.task ≡ none
AtOwner o s = Valid s

abbrev pub IsTracked : System → Type 0
IsTracked s = Named s × AtOwner s.owner s

-- No task is in front of its assignment, and `m_task` names none.
abbrev Quiet : System → Type 0
Quiet s = ((h : ℕ) → active (s.work h) ≡ false) × (s.thread.task ≡ none)

none-some : {A : Type 0} {o : Option ℕ} {h : ℕ} → o ≡ none → o ≡ some h → A
none-some e f = absurd (ground (arith, sym e ∙ f))

true-false : {A : Type 0} {b : Bool} → b ≡ true → b ≡ false → A
true-false e f = absurd (ground (arith, sym e ∙ f))

Quiet-IsTracked : (o : Owner) (s : System) → Quiet s → Named s × AtOwner o s
Quiet-IsTracked Owner.rests s (idle, e) = (λ h a. true-false a (idle h), λ h f. none-some e f)
Quiet-IsTracked (Owner.enters p) s (idle, e) = (λ h a. true-false a (idle h), λ h f. none-some e f)
Quiet-IsTracked (Owner.flags p) s (idle, e) = (λ h a. true-false a (idle h), λ h f. none-some e f)
Quiet-IsTracked (Owner.waits p) s (idle, e) = (λ h a. true-false a (idle h), λ h f. none-some e f)
Quiet-IsTracked (Owner.erases o p) s (idle, e) =
    (λ h a. true-false a (idle h), (λ h f. none-some e f, λ h a. true-false a (idle h)))
Quiet-IsTracked (Owner.resets p) s (idle, e) = (λ h a. true-false a (idle h), idle)
Quiet-IsTracked (Owner.prepares c) s (idle, e) = (λ h a. true-false a (idle h), e)
Quiet-IsTracked Owner.creates s (idle, e) = (λ h a. true-false a (idle h), e)
Quiet-IsTracked Owner.deleted s (idle, e) = (λ h a. true-false a (idle h), λ h f. none-some e f)

-- A step that leaves `m_task` and the active tasks as they are.
same-IsTracked :
    (o : Owner) (s t : System)
    → t.thread.task ≡ s.thread.task
    → ((h : ℕ) → active (t.work h) ≡ active (s.work h))
    → Named s × AtOwner o s
    → Named t × AtOwner o t
same-IsTracked o s t e same (named, at) = (λ h a. e ∙ named h (sym (same h) ∙ a), at_owner o at)
  where
    valid : Valid s → Valid t
    valid v h f = same h ∙ v h (sym e ∙ f)

    at_owner : (o : Owner) → AtOwner o s → AtOwner o t
    at_owner Owner.rests v = valid v
    at_owner (Owner.enters p) v = valid v
    at_owner (Owner.flags p) v = valid v
    at_owner (Owner.waits p) v = valid v
    at_owner (Owner.erases q p) (v, only) = (valid v, λ h a. only h (sym (same h) ∙ a))
    at_owner (Owner.resets p) idle = λ h. same h ∙ idle h
    at_owner (Owner.prepares c) f = e ∙ f
    at_owner Owner.creates f = e ∙ f
    at_owner Owner.deleted v = valid v

after_call-IsTracked :
    (o : Option ℕ) (p : Purpose) (s : System)
    → s.thread.task ≡ o
    → Named s
    → Valid s
    → Named s × AtOwner (after_call o p) s
after_call-IsTracked o Purpose.stopping s e named valid = (named, valid)
after_call-IsTracked none (Purpose.starting c) s e named valid = (named, e)
after_call-IsTracked (some h) (Purpose.starting c) s e named valid = (named, valid)

-- The test of `m_task` at the start of `stop`.
after_test-IsTracked :
    (o : Option ℕ) (p : Purpose) (s : System)
    → s.thread.task ≡ o
    → Named s
    → Valid s
    → Named s × AtOwner (after_test o p) s
after_test-IsTracked none Purpose.stopping s e named valid = (named, valid)
after_test-IsTracked none (Purpose.starting c) s e named valid = (named, e)
after_test-IsTracked (some h) p s e named valid = (named, valid)

same_number : {h k : ℕ} → ◌≡◌ {A = Option ℕ} (some h) (some k) → h ≡ k
same_number e = cc

pub becomes-here : (work : ℕ → Work) (h k : ℕ) (w : Work) → h ≡ k → becomes work h w k ≡ w
becomes-here work h k w e = rw ((==_iff h k).1 e) refl

pub becomes-other :
    (work : ℕ → Work) (h k : ℕ) (w : Work) → (h == k) ≡ false → becomes work h w k ≡ work k
becomes-other work h k w n = rw n refl

-- After the one task that may be in front of its assignment was deleted, none is.
erased_idle :
    (work : ℕ → Work) (h : ℕ)
    → ((k : ℕ) → active (work k) ≡ true → some h ≡ some k)
    → (k : ℕ) → active (becomes work h Work.gone k) ≡ false
erased_idle work h only k = elim (Bool-cases (h == k)) [
  | inl y ↦ rw y refl
  | inr n ↦ rw n (elim (Bool-cases (active (work k))) [
    | inl a ↦ true-false ((==_iff h k).1 (same_number (only k a))) n
    | inr idle ↦ idle
  ])
]

erase-IsTracked :
    (o : Option ℕ) (p : Purpose) (s : System)
    → Named s
    → AtOwner (Owner.erases o p) s
    → IsTracked (erase o p s)
unfolding erase
erase-IsTracked none p s named (valid, only) = (named, valid)
erase-IsTracked (some h) p s named (valid, only) =
    let idle = erased_idle s.work h only in (λ k a. true-false a (idle k), idle)

created-IsTracked :
    (o : Option ℕ) (s : System)
    → s.thread.task ≡ none
    → Free o s.work
    → Named s
    → IsTracked (created o s)
unfolding created
created-IsTracked none s e free named =
    Quiet-IsTracked Owner.rests (with_task none (record s { owner = Owner.rests }))
      (no_active s e named, refl)
  where
    no_active : (s : System) → s.thread.task ≡ none → Named s → (h : ℕ) → active (s.work h) ≡ false
    no_active s e named h = elim (Bool-cases (active (s.work h))) [
      | inl a ↦ none-some e (named h a)
      | inr idle ↦ idle
    ]
created-IsTracked (some h) s e free named = (
  λ k a. elim (Bool-cases (h == k)) [
    | inl y ↦ ap some ((==_iff h k).0 y)
    | inr n ↦ none-some e (named k (sym (ap active (becomes-other s.work h k Work.running n)) ∙ a))
  ],
  λ k f. ap active (becomes-here s.work h k Work.running (same_number f)),
)

-- The owner does not move, and one task goes from one of two like states to the other.
becomes-active :
    (s : System) (h : ℕ) (w : Work)
    → active (s.work h) ≡ active w
    → (k : ℕ) → active (becomes s.work h w k) ≡ active (s.work k)
becomes-active s h w e k = elim (Bool-cases (h == k)) [
  | inl y ↦
      ap active (becomes-here s.work h k w ((==_iff h k).0 y))
      ∙ sym e
      ∙ ap (λ j. active (s.work j)) ((==_iff h k).0 y)
  | inr n ↦ ap active (becomes-other s.work h k w n)
]

clears-Quiet :
    (s : System) (h : ℕ)
    → Named s
    → s.work h ≡ Work.ended
    → Quiet (with_task none (record s { work = becomes s.work h Work.cleared }))
clears-Quiet s h named e = (
  λ k. elim (Bool-cases (h == k)) [
    | inl y ↦ ap active (becomes-here s.work h k Work.cleared ((==_iff h k).0 y))
    | inr n ↦ ap active (becomes-other s.work h k Work.cleared n) ∙ other k n
  ],
  refl,
)
  where
    other : (k : ℕ) → (h == k) ≡ false → active (s.work k) ≡ false
    other k n = elim (Bool-cases (active (s.work k))) [
      | inl a ↦
          true-false ((==_iff h k).1 (same_number (sym (named h (ap active e)) ∙ named k a))) n
      | inr idle ↦ idle
    ]

-- What holds at the owner's point, by the point.
at : (s : System) (o : Owner) → s.owner ≡ o → AtOwner s.owner s → AtOwner o s
at s o e p = subst (λ x. AtOwner x s) e p

Step-IsTracked : (ends : Bool) (s t : System) → Step ends s t → IsTracked s → IsTracked t
Step-IsTracked ends s t (Step.calls u p e) (named, here) =
    let o = after_call u.thread.task p in
    same-IsTracked o u (record u { owner = o }) refl (λ h. refl)
      (after_call-IsTracked u.thread.task p u refl named (at u Owner.rests e here))
Step-IsTracked ends s t (Step.tests u p e) (named, here) =
    let o = after_test u.thread.task p in
    same-IsTracked o u (record u { owner = o }) refl (λ h. refl)
      (after_test-IsTracked u.thread.task p u refl named (at u (Owner.enters p) e here))
Step-IsTracked ends s t (Step.flags u p e) (named, here) = (named, at u (Owner.flags p) e here)
Step-IsTracked ends s t (Step.loads u p e) (named, here) =
    (named, (at u (Owner.waits p) e here, named))
Step-IsTracked ends s t (Step.erases u o p e) (named, here) =
    erase-IsTracked o p u named (at u (Owner.erases o p) e here)
Step-IsTracked ends s t (Step.resets u p e) (named, here) =
    Quiet-IsTracked (after_stop p) (with_task none (record u { owner = after_stop p }))
      (at u (Owner.resets p) e here, refl)
Step-IsTracked ends s t (Step.prepares u c e) (named, here) =
    (named, at u (Owner.prepares c) e here)
Step-IsTracked ends s t (Step.creates u o e free) (named, here) =
    created-IsTracked o u (at u Owner.creates e here) free named
Step-IsTracked ends s t (Step.returns u h may e) (named, here) =
    same-IsTracked u.owner u (record u { work = becomes u.work h Work.ended }) refl
      (becomes-active u h Work.ended (ap active e)) (named, here)
Step-IsTracked ends s t (Step.clears u h e) (named, here) =
    Quiet-IsTracked u.owner (with_task none (record u { work = becomes u.work h Work.cleared }))
      (clears-Quiet u h named e)
Step-IsTracked ends s t (Step.leaves u h e) (named, here) =
    same-IsTracked u.owner u (record u { work = becomes u.work h Work.gone }) refl
      (becomes-active u h Work.gone (ap active e)) (named, here)

-- However the owner and the workers are switched: a task that has not yet cleared `m_task` is the
-- one that `m_task` names, so there is at most one, and a task that ends clears no other's handle;
-- and while no method runs, `m_task` names such a task or is null.
pub Reachable-IsTracked : (ends : Bool) (s : System) → Reachable ends s → IsTracked s
Reachable-IsTracked ends s (Reachable.constructed name stack_size priority core) =
    Quiet-IsTracked Owner.rests (initial name stack_size priority core) (λ h. refl, refl)
Reachable-IsTracked ends s (Reachable.stepped u t r step) =
    Step-IsTracked ends u t step (Reachable-IsTracked ends u r)
