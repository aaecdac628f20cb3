-- ===== src/Thread/Tasks/Endless.antt =====
-- Thread with callbacks that never return: the owner stops their tasks.
use base_utilities_esp.Base.{
  ℕ, true, false, Option, none, some, ◌≡◌, ◌≢◌, refl, sym, ap, ◌∙◌, ◌==◌, ==_iff, arith, Bool-cases,
  inl, inr, subst, is_some,
}
use base_utilities_esp.Thread.Tasks.{
  Work, active, exists, Purpose, Owner, System, becomes, after_stop, after_call, after_test, erase,
  created, Step, Reachable,
}
use base_utilities_esp.Thread.Tasks.Handle.{
  IsTracked, Reachable-IsTracked, becomes-here, becomes-other, Valid, AtOwner,
}

-- No task has come to its end by itself.
abbrev Endless : System → Type 0
Endless s = (h : ℕ) → (s.work h ≢ Work.ended) × (s.work h ≢ Work.cleared)

-- Inside `stop` there is a task, and it is the one that is deleted.
abbrev AtOwnerSafe : Owner → System → Type 0
AtOwnerSafe (Owner.flags p) s = is_some s.thread.task ≡ true
AtOwnerSafe (Owner.waits p) s = is_some s.thread.task ≡ true
AtOwnerSafe (Owner.erases none p) s = ⊥
AtOwnerSafe (Owner.erases (some h) p) s = s.thread.task ≡ some h
AtOwnerSafe Owner.deleted s = ⊥
AtOwnerSafe o s = Unit

abbrev IsSafe : System → Type 0
IsSafe s = Endless s × AtOwnerSafe s.owner s × (s.dangling ≡ false)

exists-active : (w : Work) → active w ≡ true → exists w ≡ true
exists-active Work.absent e = absurd (ground arith)
exists-active Work.running e = refl
exists-active Work.ended e = refl
exists-active Work.cleared e = refl
exists-active Work.gone e = absurd (ground arith)

becomes-Endless :
    (s : System) (h : ℕ) (w : Work)
    → w ≢ Work.ended
    → w ≢ Work.cleared
    → Endless s
    → (k : ℕ) → (becomes s.work h w k ≢ Work.ended) × (becomes s.work h w k ≢ Work.cleared)
becomes-Endless s h w a b endless k = elim (Bool-cases (h == k)) [
  | inl y ↦
      let here = becomes-here s.work h k w ((==_iff h k).0 y) in
      (λ e. a (sym here ∙ e), λ e. b (sym here ∙ e))
  | inr n ↦
      let other = becomes-other s.work h k w n in
      (λ e. (endless k).0 (sym other ∙ e), λ e. (endless k).1 (sym other ∙ e))
]

after_stop-safe : (p : Purpose) (s : System) → AtOwnerSafe (after_stop p) s
after_stop-safe Purpose.stopping s = tt
after_stop-safe (Purpose.starting c) s = tt

after_call-safe : (o : Option ℕ) (p : Purpose) (s : System) → AtOwnerSafe (after_call o p) s
after_call-safe o Purpose.stopping s = tt
after_call-safe none (Purpose.starting c) s = tt
after_call-safe (some h) (Purpose.starting c) s = tt

after_test-safe :
    (o : Option ℕ) (p : Purpose) (s : System) → s.thread.task ≡ o → AtOwnerSafe (after_test o p) s
after_test-safe none p s e = after_stop-safe p s
after_test-safe (some h) p s e = ap is_some e

loaded-safe :
    (o : Option ℕ) (p : Purpose) (s : System)
    → s.thread.task ≡ o
    → is_some s.thread.task ≡ true
    → AtOwnerSafe (Owner.erases o p) s
loaded-safe none p s e there = absurd (ground (arith, sym (ap is_some e) ∙ there))
loaded-safe (some h) p s e there = e

-- A change of the owner's point only.
moved : (o x : Owner) (s : System) → AtOwnerSafe o s → AtOwnerSafe o (record s { owner = x })
moved (Owner.flags p) x s a = a
moved (Owner.waits p) x s a = a
moved (Owner.erases none p) x s a = a
moved (Owner.erases (some h) p) x s a = a
moved Owner.deleted x s a = a
moved Owner.rests x s a = tt
moved (Owner.enters p) x s a = tt
moved (Owner.resets p) x s a = tt
moved (Owner.prepares c) x s a = tt
moved Owner.creates x s a = tt

erase-IsSafe :
    (o : Option ℕ) (p : Purpose) (s : System)
    → Valid s
    → AtOwnerSafe (Owner.erases o p) s
    → Endless s
    → s.dangling ≡ false
    → IsSafe (erase o p s)
unfolding erase
erase-IsSafe none p s valid safe endless fine = absurd safe
erase-IsSafe (some h) p s valid safe endless fine = (
  becomes-Endless s h Work.gone (λ e. ground (arith, e)) (λ e. ground (arith, e)) endless,
  tt,
  rw (fine, exists-active (s.work h) (valid h safe)) refl,
)

created-IsSafe : (o : Option ℕ) (s : System) → Endless s → s.dangling ≡ false → IsSafe (created o s)
unfolding created
created-IsSafe none s endless fine = (endless, tt, fine)
created-IsSafe (some h) s endless fine = (
  becomes-Endless s h Work.running (λ e. ground (arith, e)) (λ e. ground (arith, e)) endless,
  tt,
  fine,
)

at : (s : System) (o : Owner) → s.owner ≡ o → AtOwnerSafe s.owner s → AtOwnerSafe o s
at s o e p = subst (λ x. AtOwnerSafe x s) e p

Step-IsSafe : (s t : System) → Step false s t → IsTracked s → IsSafe s → IsSafe t
Step-IsSafe s t (Step.calls u p e) tracked (endless, here, fine) =
    let o = after_call u.thread.task p in
    (endless, moved o o u (after_call-safe u.thread.task p u), fine)
Step-IsSafe s t (Step.tests u p e) tracked (endless, here, fine) =
    let o = after_test u.thread.task p in
    (endless, moved o o u (after_test-safe u.thread.task p u refl), fine)
Step-IsSafe s t (Step.flags u p e) tracked (endless, here, fine) =
    (endless, at u (Owner.flags p) e here, fine)
Step-IsSafe s t (Step.loads u p e) tracked (endless, here, fine) =
    let o = Owner.erases u.thread.task p in
    (endless, moved o o u (loaded-safe u.thread.task p u refl (at u (Owner.waits p) e here)), fine)
Step-IsSafe s t (Step.erases u o p e) (named, point) (endless, here, fine) =
    let valid = (subst (λ x. AtOwner x u) e point).0 in
    erase-IsSafe o p u valid (at u (Owner.erases o p) e here) endless fine
Step-IsSafe s t (Step.resets u p e) tracked (endless, here, fine) =
    (endless, after_stop-safe p _, fine)
Step-IsSafe s t (Step.prepares u c e) tracked (endless, here, fine) = (endless, tt, fine)
Step-IsSafe s t (Step.creates u o e free) tracked (endless, here, fine) =
    created-IsSafe o u endless fine
Step-IsSafe s t (Step.returns u h may e) tracked safe = absurd (ground (arith, may))
Step-IsSafe s t (Step.clears u h e) tracked (endless, here, fine) = absurd ((endless h).0 e)
Step-IsSafe s t (Step.leaves u h e) tracked (endless, here, fine) = absurd ((endless h).1 e)

Reachable-IsSafe : (s : System) → Reachable false s → IsSafe s
Reachable-IsSafe s (Reachable.constructed name stack_size priority core) =
    (λ h. (λ e. ground (arith, e), λ e. ground (arith, e)), tt, refl)
Reachable-IsSafe s (Reachable.stepped u t r step) =
    Step-IsSafe u t step (Reachable-IsTracked false u r) (Reachable-IsSafe u r)

alive : (o : Owner) (s : System) → AtOwnerSafe o s → o ≢ Owner.deleted
alive Owner.rests s a e = ground (arith, e)
alive (Owner.enters p) s a e = ground (arith, e)
alive (Owner.flags p) s a e = ground (arith, e)
alive (Owner.waits p) s a e = ground (arith, e)
alive (Owner.erases o p) s a e = ground (arith, e)
alive (Owner.resets p) s a e = ground (arith, e)
alive (Owner.prepares c) s a e = ground (arith, e)
alive Owner.creates s a e = ground (arith, e)
alive Owner.deleted s a e = absurd a

-- Where no callback returns by itself: however the tasks are switched, `stop` and `start` never
-- delete the task that calls them, and never call vTaskDelete for a task that is deleted already.
pub owner-Reachable :
    (s : System) → Reachable false s → (s.owner ≢ Owner.deleted) × (s.dangling ≡ false)
owner-Reachable s r =
    let (endless, here, fine) = Reachable-IsSafe s r in (alive s.owner s here, fine)
