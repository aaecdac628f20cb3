-- ===== src/Kvdb/Calls.antt =====
-- The calls of an open KVDB that read or change what it stores, and sequences of them.
use base_utilities_esp.Base.{
  ℕ, String, Bool, Option, none, some, map_option, List, [], ◌∷◌, ℤ, ◌≡◌, refl, ap, ◌>>=◌,
}
use base_utilities_esp.KvHandle.Proxy.{
  Value, i32, u32, u8, boolean, string, double, float, Kind, i32_kind, u32_kind, u8_kind,
  boolean_kind, string_kind, double_kind, float_kind,
}
use base_utilities_esp.Kvdb.Impl.{ImplBase}
use base_utilities_esp.Kvdb.{
  Kvdb, set_i32, set_u32, set_u8, set_bool, set_string, set_pod, get_i32, get_u32, get_u8, get_bool,
  get_string, get_pod, read_pod, has, erase, erase_all, commit,
}
use base_utilities_esp.Kvdb.Proxy.{store, object, as_value}

-- The `default_val` of a getter, for each type.
pub record Defaults : Type 0 where
  pub i32 : ℤ
  pub u32 : ℕ
  pub u8 : ℕ
  pub boolean : Bool
  pub string : List ℕ
  pub double : List ℕ
  pub float : List ℕ

abbrev pub default : Kind → Defaults → Value
default i32_kind D = i32 D.i32
default u32_kind D = u32 D.u32
default u8_kind D = u8 D.u8
default boolean_kind D = boolean D.boolean
default string_kind D = string D.string
default double_kind D = double D.double
default float_kind D = float D.float

-- The getter of a type.
unfoldable pub fetch : Kvdb → String → Kind → Defaults → Option (Value × Kvdb)
fetch db key i32_kind D = as_value i32 (get_i32 db key D.i32)
fetch db key u32_kind D = as_value u32 (get_u32 db key D.u32)
fetch db key u8_kind D = as_value u8 (get_u8 db key D.u8)
fetch db key boolean_kind D = as_value boolean (get_bool db key D.boolean)
fetch db key string_kind D = as_value string (get_string db key D.string)
fetch db key double_kind D = as_value double (get_pod db key 8 D.double)
fetch db key float_kind D = as_value float (get_pod db key 4 D.float)

pub data Call : Type 0 where
  write : String → Value → Call
  read : String → Kind → Defaults → Call
  has_key : String → Call
  erase_key : String → Call
  erase_keys : Call
  commit_all : Call

pub data Reply : Type 0 where
  done : Bool → Reply
  value : Value → Reply
  present : Bool → Reply

abbrev pub reply_with {ℓ} : {A : Type ℓ} → (A → Reply) → Option (A × Kvdb) → Option (Reply × Kvdb)
reply_with f none = none
reply_with f (some (a, db)) = some (f a, db)

abbrev reply_about : Kvdb → Option Bool → Option (Reply × Kvdb)
reply_about db none = none
reply_about db (some b) = some (present b, db)

unfoldable pub call : Kvdb → Call → Option (Reply × Kvdb)
unfolding fetch
call db (write key v) = reply_with done (store db key v)
call db (read key k D) = reply_with value (fetch db key k D)
call db (has_key key) = reply_about db (has db key)
call db (erase_key key) = reply_with done (erase db key)
call db erase_keys = reply_with done (erase_all db)
call db commit_all = reply_with done (commit db)

-- The replies to a sequence of calls; `none` if one of them faults.
unfoldable pub run : Kvdb → List Call → Option (List Reply)
run db [] = some []
run db (c ∷ cs) = call db c >>= λ x. map_option (λ rs. x.0 ∷ rs) (run x.1 cs)

-- The same on the object behind `m_impl`.
module _ (I : ImplBase) where
  unfoldable pub write_value : I.State → String → Value → Bool × I.State
  write_value s key (i32 z) = I.set_i32 s key z
  write_value s key (u32 n) = I.set_u32 s key n
  write_value s key (u8 n) = I.set_u8 s key n
  write_value s key (boolean b) = I.set_bool s key b
  write_value s key (string t) = I.set_string s key t
  write_value s key (double d) = I.set_blob s key d
  write_value s key (float d) = I.set_blob s key d

  abbrev pub tag : {A : Type 0} → (A → Value) → A × I.State → Value × I.State
  tag f (a, s) = (f a, s)

  unfoldable pub read_value : I.State → String → Kind → Defaults → Value × I.State
  read_value s key i32_kind D = tag i32 (I.get_i32 s key D.i32)
  read_value s key u32_kind D = tag u32 (I.get_u32 s key D.u32)
  read_value s key u8_kind D = tag u8 (I.get_u8 s key D.u8)
  read_value s key boolean_kind D = tag boolean (I.get_bool s key D.boolean)
  read_value s key string_kind D = tag string (I.get_string s key D.string)
  read_value s key double_kind D = tag double (read_pod (object I s) key 8 D.double)
  read_value s key float_kind D = tag float (read_pod (object I s) key 4 D.float)

  abbrev reply_of : {A : Type 0} → (A → Reply) → A × I.State → Reply × I.State
  reply_of f (a, s) = (f a, s)

  unfoldable pub call_impl : I.State → Call → Reply × I.State
  call_impl s (write key v) = reply_of done (write_value s key v)
  call_impl s (read key k D) = reply_of value (read_value s key k D)
  call_impl s (has_key key) = (present (I.has s key), s)
  call_impl s (erase_key key) = reply_of done (I.erase s key)
  call_impl s erase_keys = reply_of done (I.erase_all s)
  call_impl s commit_all = reply_of done (I.commit s)

  store-write_value :
      (s : I.State) (key : String) (v : Value)
      → store (some (object I s)) key v
        ≡ some ((write_value s key v).0, some (object I (write_value s key v).1))
  unfolding store write_value set_i32 set_u32 set_u8 set_bool set_string set_pod
  store-write_value s key (i32 z) = refl
  store-write_value s key (u32 n) = refl
  store-write_value s key (u8 n) = refl
  store-write_value s key (boolean b) = refl
  store-write_value s key (string t) = refl
  store-write_value s key (double d) = refl
  store-write_value s key (float d) = refl

  fetch-read_value :
      (s : I.State) (key : String) (k : Kind) (D : Defaults)
      → fetch (some (object I s)) key k D
        ≡ some ((read_value s key k D).0, some (object I (read_value s key k D).1))
  unfolding fetch read_value get_i32 get_u32 get_u8 get_bool get_string get_pod
  fetch-read_value s key i32_kind D = refl
  fetch-read_value s key u32_kind D = refl
  fetch-read_value s key u8_kind D = refl
  fetch-read_value s key boolean_kind D = refl
  fetch-read_value s key string_kind D = refl
  fetch-read_value s key double_kind D = refl
  fetch-read_value s key float_kind D = refl

  -- A call of the KVDB is the call of the object behind it, and does not fault.
  call-call_impl :
      (s : I.State) (c : Call)
      → call (some (object I s)) c ≡ some ((call_impl s c).0, some (object I (call_impl s c).1))
  unfolding call call_impl has erase erase_all commit
  call-call_impl s (write key v) = rw (store-write_value s key v)
  call-call_impl s (read key k D) = rw (fetch-read_value s key k D)
  call-call_impl s (has_key key) = refl
  call-call_impl s (erase_key key) = refl
  call-call_impl s erase_keys = refl
  call-call_impl s commit_all = refl

  pub run-call_impl :
      (s : I.State) (c : Call) (cs : List Call)
      → run (some (object I s)) (c ∷ cs)
        ≡ map_option (λ rs. (call_impl s c).0 ∷ rs) (run (some (object I (call_impl s c).1)) cs)
  unfolding run
  run-call_impl s c cs =
      ap (λ o. o >>= λ x. map_option (λ rs. x.0 ∷ rs) (run x.1 cs)) (call-call_impl s c)
