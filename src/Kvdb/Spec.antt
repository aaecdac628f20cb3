-- ===== src/Kvdb/Spec.antt =====
-- What a key-value database promises, as a map from keys to slots: which replies it allows.
use base_utilities_esp.Base.{
  ℕ, String, Bool, true, false, Option, none, some, List, [], ◌∷◌, str_eq, if◌then◌else◌, ◌==◌, ◌≡◌,
  refl, ap, ap₂, sym, ◌∙◌, ==_iff, subst,
}
use base_utilities_esp.KvHandle.Proxy.{
  Value, Kind, i32_kind, u32_kind, u8_kind, boolean_kind, string_kind, double_kind, float_kind,
  kind,
}
use base_utilities_esp.Kvdb.Calls.{
  default, Call, write, read, has_key, erase_key, erase_keys, Reply, done, value, present,
}

-- A key is missing, holds a value, or is in an unknown state after a write that failed.
pub data Slot : Type 0 where
  missing : Slot
  holds : Value → Slot
  unknown : Slot

abbrev pub Contents : Type 0
Contents = String → Slot

unfoldable pub put : Contents → String → Slot → Contents
put m k x j = if str_eq k j then x else m j

number : Kind → ℕ
number i32_kind = 0
number u32_kind = 1
number u8_kind = 2
number boolean_kind = 3
number string_kind = 4
number double_kind = 5
number float_kind = 6

unfoldable pub same_kind : Kind → Kind → Bool
unfolding number
same_kind k j = number k == number j

of_number : ℕ → Kind
of_number n =
    if n == 0
    then i32_kind
    else if n == 1
    then u32_kind
    else if n == 2
    then u8_kind
    else if n == 3
    then boolean_kind
    else if n == 4
    then string_kind
    else if n == 5
    then double_kind
    else float_kind

of_number-number : (k : Kind) → of_number (number k) ≡ k
unfolding of_number number
of_number-number i32_kind = refl
of_number-number u32_kind = refl
of_number-number u8_kind = refl
of_number-number boolean_kind = refl
of_number-number string_kind = refl
of_number-number double_kind = refl
of_number-number float_kind = refl

pub same_kind_lem : (k j : Kind) → same_kind k j ≡ true → k ≡ j
unfolding same_kind
same_kind_lem k j e =
    sym (of_number-number k)
    ∙ ap of_number ((==_iff (number k) (number j)).0 e)
    ∙ of_number-number j

-- The reply that the contents determine, if they do: a read of the type of the value that the key
-- holds gives that value, and a read of a missing key the default value; `has` tells whether the key
-- holds a value; a missing key cannot be erased. Whether a write succeeds is not determined.
unfoldable pub expect : Slot → Call → Option Reply
unfolding same_kind
expect missing (read k j D) = some (value (default j D))
expect (holds v) (read k j D) = if same_kind j (kind v) then some (value v) else none
expect missing (has_key k) = some (present false)
expect (holds v) (has_key k) = some (present true)
expect missing (erase_key k) = some (done false)
expect x c = none

abbrev key_slot : Contents → Call → Slot
key_slot m (read k j D) = m k
key_slot m (has_key k) = m k
key_slot m (erase_key k) = m k
key_slot m c = unknown

unfoldable pub determined : Contents → Call → Option Reply
unfolding expect
determined m c = expect (key_slot m c) c

-- The contents after a call that got the reply.
unfoldable pub next : Contents → Call → Reply → Contents
unfolding put
next m (write k v) (done true) = put m k (holds v)
next m (write k v) r = put m k unknown
next m (erase_key k) (done true) = put m k missing
next m erase_keys (done true) = λ k. missing
next m erase_keys r = λ k. unknown
next m c r = m

abbrev pub Allows : Option Reply → Reply → Type 0
Allows none r = Unit
Allows (some q) r = r ≡ q

-- The replies to a sequence of calls are allowed, by the contents at each of them.
unfoldable pub Explains : Contents → List Call → List Reply → Type 0
unfolding determined next
Explains m [] [] = Unit
Explains m (c ∷ cs) (r ∷ rs) = Allows (determined m c) r × Explains (next m c r) cs rs
Explains m _ _ = ⊥

abbrev keep : Option Reply → Reply → List Reply → List Reply
keep none r rs = r ∷ rs
keep (some q) r rs = rs

-- The replies that the contents do not determine.
unfoldable pub choices : Contents → List Call → List Reply → List Reply
unfolding determined next
choices m (c ∷ cs) (r ∷ rs) = keep (determined m c) r (choices (next m c r) cs rs)
choices m _ _ = []

List-inj : {A : Type 0} {x y : A} {xs ys : List A} → x ∷ xs ≡ y ∷ ys → (x ≡ y) × (xs ≡ ys)
List-inj e = (cc, cc)

same_head :
    (o : Option Reply) (r q : Reply) (rs qs : List Reply)
    → Allows o r
    → Allows o q
    → keep o r rs ≡ keep o q qs
    → (r ≡ q) × (rs ≡ qs)
same_head none r q rs qs a b e = List-inj e
same_head (some p) r q rs qs a b e = (a ∙ sym b, e)

-- The contents, the calls, and the replies that the contents leave open fix all replies.
pub Explains-determined :
    (m : Contents) (cs : List Call) (rs qs : List Reply)
    → Explains m cs rs
    → Explains m cs qs
    → choices m cs rs ≡ choices m cs qs
    → rs ≡ qs
unfolding Explains choices
Explains-determined m [] [] [] a b e = refl
Explains-determined m [] [] (q ∷ qs) a b e = absurd b
Explains-determined m [] (r ∷ rs) qs a b e = absurd a
Explains-determined m (c ∷ cs) [] qs a b e = absurd a
Explains-determined m (c ∷ cs) (r ∷ rs) [] a b e = absurd b
Explains-determined m (c ∷ cs) (r ∷ rs) (q ∷ qs) (a, later) (b, later₁) e =
    let (head, tail) = same_head (determined m c) r q _ _ a b e in
    ap₂ (◌∷◌) head (
      Explains-determined (next m c r) cs rs qs later
        (subst (λ x. Explains (next m c x) cs qs) (sym head) later₁)
        (tail ∙ ap (λ x. choices (next m c x) cs qs) (sym head)))
