-- ===== src/Kvdb/Refine.antt =====
-- A KVDB over any backend that encodes a map gives the replies that the specification allows.
use base_utilities_esp.Base.{
  String, ◌≡◌, refl, sym, ◌∙◌, ap, subst, Bool, true, false, Option, none, some, List, [], ◌∷◌,
  str_eq, if◌then◌else◌, is_some, Bool-cases, inl, inr, map_option,
}
use base_utilities_esp.KvHandle.Proxy.{Value, Kind, kind, InRange}
use base_utilities_esp.Kvdb.Impl.{ImplBase}
use base_utilities_esp.Kvdb.Proxy.{object}
use base_utilities_esp.Kvdb.Encoding.{Encoding}
use base_utilities_esp.Kvdb.Calls.{
  Defaults, Call, write, read, has_key, erase_key, erase_keys, commit_all, Reply, done, value,
  present, run, call_impl, run-call_impl, write_value, read_value,
}
use base_utilities_esp.Kvdb.Spec.{
  Slot, missing, holds, unknown, Contents, put, same_kind, same_kind_lem, expect, determined, next,
  Allows, Explains,
}

-- The values that a call writes are in the range of their types.
abbrev pub Writes : Call → Type 0
Writes (write k v) = InRange v
Writes c = Unit

abbrev pub AllWrite : List Call → Type 0
AllWrite [] = Unit
AllWrite (c ∷ cs) = Writes c × AllWrite cs

-- The replies of a run that did not fault are allowed.
abbrev pub Answered : Contents → List Call → Option (List Reply) → Type 0
Answered m cs none = ⊥
Answered m cs (some rs) = Explains m cs rs

chosen : {A : Type 0} {b : Bool} (x y : A) → b ≡ true → (if b then x else y) ≡ x
chosen x y e = rw e

not_chosen : {A : Type 0} {b : Bool} (x y : A) → b ≡ false → (if b then x else y) ≡ y
not_chosen x y e = rw e

module _ (I : ImplBase) (Stored : Type 0) (lookup : I.State → String → Option Stored)
    (encode : Value → Stored) where
  -- What an entry of the object is by the slot of its key.
  abbrev pub Fits : Slot → Option Stored → Type 0
  Fits missing o = o ≡ none
  Fits (holds v) o = InRange v × (o ≡ some (encode v))
  Fits unknown o = Unit

  -- The object is open and holds the contents.
  abbrev pub Holds : Contents → I.State → Type 0
  Holds m s = (I.is_open s ≡ true) × ((j : String) → Fits (m j) (lookup s j))

module _ (I : ImplBase) (Stored : Type 0) (lookup : I.State → String → Option Stored)
    (encode : Value → Stored) (E : Encoding I Stored lookup encode) where
  abbrev FitsIn : Slot → Option Stored → Type 0
  FitsIn = Fits I Stored lookup encode

  abbrev HeldBy : Contents → I.State → Type 0
  HeldBy = Holds I Stored lookup encode

  fits_same : (x : Slot) (o p : Option Stored) → p ≡ o → FitsIn x o → FitsIn x p
  fits_same x o p e f = subst (FitsIn x) (sym e) f

  -- One slot was replaced.
  fits_put :
      (m : Contents) (s : I.State) (k j : String) (x : Slot) (o p : Option Stored)
      → FitsIn (m j) (lookup s j)
      → (str_eq k j ≡ true → FitsIn x p)
      → (str_eq k j ≡ false → p ≡ lookup s j)
      → FitsIn (put m k x j) p
  unfolding put
  fits_put m s k j x o p f new old = elim (Bool-cases (str_eq k j)) [
    | inl y ↦ rw y (new y)
    | inr n ↦ rw n (fits_same (m j) _ p (old n) f)
  ]

  write-Holds :
      (m : Contents) (s : I.State) (k : String) (v : Value) (ok : Bool)
      → InRange v
      → HeldBy m s
      → (write_value I s k v).0 ≡ ok
      → HeldBy (next m (write k v) (done ok)) (write_value I s k v).1
  unfolding next
  write-Holds m s k v true r (ready, h) ok = (
    E.write_open s k v ready,
    λ j.
        fits_put m s k j (holds v) none _ (h j)
          (λ y. (r, E.write_done s k j v r ready ok ∙ chosen _ _ y))
          (E.write_other s k j v r ready),
  )
  write-Holds m s k v false r (ready, h) ok = (
    E.write_open s k v ready,
    λ j. fits_put m s k j unknown none _ (h j) (λ y. tt) (E.write_other s k j v r ready),
  )

  read-Holds :
      (m : Contents) (s : I.State) (k : String) (j : Kind) (D : Defaults)
      → HeldBy m s
      → HeldBy m (read_value I s k j D).1
  read-Holds m s k j D (ready, h) =
      (E.read_open s k j D ready, λ i. fits_same (m i) _ _ (E.read_same s k i j D) (h i))

  read-Allows :
      (x : Slot) (s : I.State) (k : String) (j : Kind) (D : Defaults)
      → I.is_open s ≡ true
      → FitsIn x (lookup s k)
      → Allows (expect x (read k j D)) (value (read_value I s k j D).0)
  unfolding expect
  read-Allows missing s k j D ready f = ap value (E.read_missing s k j D ready f)
  read-Allows unknown s k j D ready f = tt
  read-Allows (holds v) s k j D ready (r, f) = elim (Bool-cases (same_kind j (kind v))) [
    | inl y ↦ rw (y, same_kind_lem j (kind v) y) (ap value (E.read_found s k v D r ready f))
    | inr n ↦ rw n tt
  ]

  has-Allows :
      (x : Slot) (s : I.State) (k : String)
      → I.is_open s ≡ true
      → FitsIn x (lookup s k)
      → Allows (expect x (has_key k)) (present (I.has s k))
  unfolding expect
  has-Allows missing s k ready f = ap present (E.has_key s k ready ∙ ap is_some f)
  has-Allows unknown s k ready f = tt
  has-Allows (holds v) s k ready (r, f) = ap present (E.has_key s k ready ∙ ap is_some f)

  erase-Allows :
      (x : Slot) (s : I.State) (k : String)
      → I.is_open s ≡ true
      → FitsIn x (lookup s k)
      → Allows (expect x (erase_key k)) (done (I.erase s k).0)
  unfolding expect
  erase-Allows missing s k ready f = ap done (E.erase_missing s k ready f)
  erase-Allows unknown s k ready f = tt
  erase-Allows (holds v) s k ready f = tt

  erase-Holds :
      (m : Contents) (s : I.State) (k : String) (ok : Bool)
      → HeldBy m s
      → (I.erase s k).0 ≡ ok
      → HeldBy (next m (erase_key k) (done ok)) (I.erase s k).1
  unfolding next
  erase-Holds m s k true (ready, h) ok = (
    E.erase_open s k ready,
    λ j.
        fits_put m s k j missing none _ (h j) (λ y. E.erase_done s k j ready ok ∙ chosen _ _ y)
          (λ n. E.erase_done s k j ready ok ∙ not_chosen _ _ n),
  )
  erase-Holds m s k false (ready, h) ok =
      (E.erase_open s k ready, λ j. fits_same (m j) _ _ (E.erase_failed s k j ready ok) (h j))

  erase_all-Holds :
      (m : Contents) (s : I.State) (ok : Bool)
      → HeldBy m s
      → (I.erase_all s).0 ≡ ok
      → HeldBy (next m erase_keys (done ok)) (I.erase_all s).1
  unfolding next
  erase_all-Holds m s true (ready, h) ok =
      (E.erase_all_open s ready, λ j. E.erase_all_done s j ready ok)
  erase_all-Holds m s false (ready, h) ok = (E.erase_all_open s ready, λ j. tt)

  commit-Holds : (m : Contents) (s : I.State) → HeldBy m s → HeldBy m (I.commit s).1
  commit-Holds m s (ready, h) =
      (E.commit_open s ready, λ j. fits_same (m j) _ _ (E.commit_same s j) (h j))

  -- One call: its reply is allowed, and the object holds the contents after it.
  call_impl-refines :
      (m : Contents) (s : I.State) (c : Call)
      → Writes c
      → HeldBy m s
      → Allows (determined m c) (call_impl I s c).0
        × HeldBy (next m c (call_impl I s c).0) (call_impl I s c).1
  unfolding call_impl determined
  call_impl-refines m s (write k v) r h = (unfold expect in tt, write-Holds m s k v _ r h refl)
  call_impl-refines m s (read k j D) r h =
      (read-Allows (m k) s k j D h.0 (h.1 k), unfold next in read-Holds m s k j D h)
  call_impl-refines m s (has_key k) r h = (has-Allows (m k) s k h.0 (h.1 k), unfold next in h)
  call_impl-refines m s (erase_key k) r h =
      (erase-Allows (m k) s k h.0 (h.1 k), erase-Holds m s k _ h refl)
  call_impl-refines m s erase_keys r h = (unfold expect in tt, erase_all-Holds m s _ h refl)
  call_impl-refines m s commit_all r h = (unfold expect in tt, unfold next in commit-Holds m s h)

  Answered-cons :
      (m : Contents) (c : Call) (r : Reply) (cs : List Call) (o : Option (List Reply))
      → Allows (determined m c) r
      → Answered (next m c r) cs o
      → Answered m (c ∷ cs) (map_option (λ rs. r ∷ rs) o)
  unfolding Explains
  Answered-cons m c r cs none a b = b
  Answered-cons m c r cs (some rs) a b = (a, b)

  -- Any sequence of calls on an open database that holds the contents does not fault, and each
  -- reply is one that the specification allows.
  pub run-refines :
      (cs : List Call) (m : Contents) (s : I.State)
      → AllWrite cs
      → HeldBy m s
      → Answered m cs (run (some (object I s)) cs)
  unfolding run
  run-refines [] m s r h = unfold Explains in tt
  run-refines (c ∷ cs) m s (r, rs) h =
      let (allowed, holds') = call_impl-refines m s c r h in
      subst (Answered m (c ∷ cs)) (sym (run-call_impl I s c cs))
        (Answered-cons m c _ cs _ allowed (run-refines cs _ _ rs holds'))
