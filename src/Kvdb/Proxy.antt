-- ===== src/Kvdb/Proxy.antt =====
-- KVDB::Proxy, and that it gives back what was assigned, over any backend that keeps the contract.
use base_utilities_esp.Base.{
  ℕ, ◌≤◌, String, ◌≡◌, refl, subst, ap, Bool, true, false, Option, none, some, List, [], arith,
  ==_iff, replicate, length, pos,
}
use base_utilities_esp.KvHandle.Proxy.{
  Value, i32, u32, u8, boolean, string, double, float, Kind, i32_kind, u32_kind, u8_kind,
  boolean_kind, string_kind, double_kind, float_kind, kind, InRange,
}
use base_utilities_esp.KvHandle.Typed.{nonempty_of_length}
use base_utilities_esp.Flash.{FlashDb, FlashLaws}
use base_utilities_esp.Nvs.{Nvs, Entry, NvsLaws}
use base_utilities_esp.Kvdb.Impl.{ImplBase, FlashdbState, flashdb_impl, nvs_impl}
use base_utilities_esp.Kvdb.Contract.{Contract, flashdb_impl-Contract, nvs_impl-Contract}
use base_utilities_esp.Kvdb.{
  Object, Kvdb, set_i32, set_u32, set_u8, set_bool, set_string, set_pod, get_i32, get_u32, get_u8,
  get_bool, get_string, get_pod, read_pod,
}

-- The setter that `operator=` calls.
unfoldable pub store : Kvdb → String → Value → Option (Bool × Kvdb)
store db key (i32 z) = set_i32 db key z
store db key (u32 n) = set_u32 db key n
store db key (u8 n) = set_u8 db key n
store db key (boolean b) = set_bool db key b
store db key (string s) = set_string db key s
store db key (double d) = set_pod db key d
store db key (float d) = set_pod db key d

-- `operator=` drops what the setter returns.
unfoldable pub assign : Kvdb → String → Value → Option Kvdb
unfolding store
assign db key v = elim (store db key v) [ none ↦ none | some (done, db') ↦ some db' ]

abbrev pub as_value : {A : Type 0} → (A → Value) → Option (A × Kvdb) → Option (Value × Kvdb)
as_value f none = none
as_value f (some (a, db)) = some (f a, db)

-- The conversion operators: the getters, with their default values.
unfoldable pub convert : Kvdb → String → Kind → Option (Value × Kvdb)
convert db key i32_kind = as_value i32 (get_i32 db key (pos 0))
convert db key u32_kind = as_value u32 (get_u32 db key 0)
convert db key u8_kind = as_value u8 (get_u8 db key 0)
convert db key boolean_kind = as_value boolean (get_bool db key false)
convert db key string_kind = as_value string (get_string db key [])
convert db key double_kind = as_value double (get_pod db key 8 (replicate 8 0))
convert db key float_kind = as_value float (get_pod db key 4 (replicate 4 0))

module _ (I : ImplBase) where
  abbrev pub object : I.State → Object
  object s = record { impl = I; state = s }

  pub read_pod_found :
      (s : I.State) (k : String) (b d : List ℕ) (n : ℕ)
      → I.is_open s ≡ true
      → I.get_blob s k false n ≡ (true, b, n, s)
      → read_pod (object s) k n d ≡ (b, s)
  unfolding read_pod
  read_pod_found s k b d n ready found = rw (ready, read_pod, found, (==_iff n n).1 refl)

  pod_back :
      (C : Contract I) (s : I.State) (k : String) (b d : List ℕ) (n : ℕ)
      → length b ≡ n
      → 1 ≤ n
      → (I.set_blob s k b).0 ≡ true
      → read_pod (object (I.set_blob s k b).1) k n d ≡ (b, (I.set_blob s k b).1)
  pod_back C s k b d n len pos_n done =
      let back = C.blob_back s k b (nonempty_of_length n b len pos_n) done in
      read_pod_found _ k b d n back.0 (
        subst (λ m. I.get_blob (I.set_blob s k b).1 k false m ≡ (true, b, m, (I.set_blob s k b).1))
          len back.1)

pub some_pair :
    {a b : Bool} {x y : Kvdb}
    → ◌≡◌ {A = Option (Bool × Kvdb)} (some (a, x)) (some (b, y))
    → (a ≡ b) × (x ≡ y)
some_pair e = (cc, cc)

-- From what a read gives on the object that a setter left to the object of the statement.
transfer :
    (I : ImplBase) (r : Bool × I.State) (v : Value) (db : Kvdb)
    (read : Kvdb → Option (Value × Kvdb))
    → ◌≡◌ {A = Option (Bool × Kvdb)} (some (r.0, some (object I r.1))) (some (true, db))
    → (r.0 ≡ true → read (some (object I r.1)) ≡ some (v, some (object I r.1)))
    → (some (some (object I r.1)) ≡ some db) × (read db ≡ some (v, db))
transfer I r v db read e h =
    let (done, same) = some_pair e in
    (ap some same, subst (λ x. read x ≡ some (v, x)) same (h done))

-- On a backend that keeps the contract: if the setter behind `db[key] = v` reports success, then
-- `db[key] = v` does not fault, and the conversion of `db[key]` to the type of `v` afterwards gives
-- `v` and changes nothing, for every type and every value of it but the empty string.
pub convert-assign_of_Contract :
    (I : ImplBase) (C : Contract I) (s : I.State) (k : String) (v : Value) (db : Kvdb)
    → InRange v
    → store (some (object I s)) k v ≡ some (true, db)
    → (assign (some (object I s)) k v ≡ some db) × (convert db k (kind v) ≡ some (v, db))
unfolding assign store convert set_i32 set_u32 set_u8 set_bool set_string set_pod get_i32 get_u32
    get_u8 get_bool get_string get_pod
convert-assign_of_Contract I C s k (i32 z) db r e =
    transfer I (I.set_i32 s k z) (i32 z) db (λ x. convert x k i32_kind) e
      λ done. rw (C.i32_back s k z _ r done)
convert-assign_of_Contract I C s k (u32 n) db r e =
    transfer I (I.set_u32 s k n) (u32 n) db (λ x. convert x k u32_kind) e
      λ done. rw (C.u32_back s k n _ r done)
convert-assign_of_Contract I C s k (u8 n) db r e =
    transfer I (I.set_u8 s k n) (u8 n) db (λ x. convert x k u8_kind) e
      λ done. rw (C.u8_back s k n _ r done)
convert-assign_of_Contract I C s k (boolean b) db r e =
    transfer I (I.set_bool s k b) (boolean b) db (λ x. convert x k boolean_kind) e
      λ done. rw (C.bool_back s k b _ done)
convert-assign_of_Contract I C s k (string t) db r e =
    transfer I (I.set_string s k t) (string t) db (λ x. convert x k string_kind) e
      λ done. rw (C.string_back s k t _ r done)
convert-assign_of_Contract I C s k (double d) db r e =
    transfer I (I.set_blob s k d) (double d) db (λ x. convert x k double_kind) e
      λ done. rw (pod_back I C s k d _ 8 r (omega arith) done)
convert-assign_of_Contract I C s k (float d) db r e =
    transfer I (I.set_blob s k d) (float d) db (λ x. convert x k float_kind) e
      λ done. rw (pod_back I C s k d _ 4 r (omega arith) done)

-- On a KVDB over FlashDB and on one over NVS: if the setter behind `db[key] = v` reports success on
-- both, then `db[key] = v` faults on neither, and the conversion of `db[key]` to the type of `v`
-- afterwards gives `v` on both and changes nothing, for every type and every value of it but the
-- empty string; FlashDB keeps bytes only, and NVS has no bool, double or float.
pub convert-assign_backends :
    (F : FlashDb) (found : F.Db → String → Option (List ℕ)) (L : FlashLaws F found) (N : Nvs)
    (entry : N.State → String → Option Entry) (M : NvsLaws N entry) (s : FlashdbState F)
    (t : N.State) (k : String) (v : Value) (db db' : Kvdb)
    → InRange v
    → store (some (object (flashdb_impl F) s)) k v ≡ some (true, db)
    → store (some (object (nvs_impl N) t)) k v ≡ some (true, db')
    → (assign (some (object (flashdb_impl F) s)) k v ≡ some db)
      × (convert db k (kind v) ≡ some (v, db))
      × (assign (some (object (nvs_impl N) t)) k v ≡ some db')
      × (convert db' k (kind v) ≡ some (v, db'))
convert-assign_backends F found L N entry M s t k v db db' range done done' =
    let flash = flashdb_impl-Contract F found L in
    let (kept, back) = convert-assign_of_Contract (flashdb_impl F) flash s k v db range done in
    let nvs = nvs_impl-Contract N entry M in
    let (kept', back') = convert-assign_of_Contract (nvs_impl N) nvs t k v db' range done' in
    (kept, back, kept', back')
