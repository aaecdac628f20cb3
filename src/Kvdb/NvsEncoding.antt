-- ===== src/Kvdb/NvsEncoding.antt =====
-- KVDB::NVSImpl encodes a map: a value is an entry of its type, a bool a u8, a POD type a blob.
use base_utilities_esp.Base.{
  ℕ, String, ◌≡◌, refl, ◌∙◌, ap, Bool, true, false, Option, none, some, List, arith, str_eq, eq_iff,
  if◌then◌else◌, length, Bool-cases, inl, inr, subst,
}
use base_utilities_esp.KvHandle.Proxy.{
  Value, i32, u32, u8, boolean, string, double, float, Kind, i32_kind, u32_kind, u8_kind,
  boolean_kind, string_kind, double_kind, float_kind, kind, InRange,
}
use base_utilities_esp.Nvs
use base_utilities_esp.Nvs.{Nvs, Entry, NvsLaws}
use base_utilities_esp.Nvs.Map.{NvsMapLaws, set_entry}
use base_utilities_esp.Kvdb.Impl.{nvs_impl, nvs_set_bool, nvs_get_bool, nvs_get_blob}
use base_utilities_esp.Kvdb.{read_pod}
use base_utilities_esp.Kvdb.Proxy.{object, read_pod_found}
use base_utilities_esp.Kvdb.Calls.{Defaults, default, write_value, read_value}
use base_utilities_esp.Kvdb.Encoding.{Encoding}

abbrev pub entry : Value → Entry
entry (i32 z) = Nvs.i32 z
entry (u32 n) = Nvs.u32 n
entry (u8 n) = Nvs.u8 n
entry (boolean b) = Nvs.u8 (if b then 1 else 0)
entry (string t) = Nvs.text t
entry (double d) = Nvs.blob d
entry (float d) = Nvs.blob d

module _ (N : Nvs) (lookup : N.State → String → Option Entry) (L : NvsLaws N lookup)
    (M : NvsMapLaws N lookup) where
  write_value-set_entry :
      (s : N.State) (k : String) (v : Value)
      → write_value (nvs_impl N) s k v ≡ set_entry N s k (entry v)
  unfolding write_value nvs_set_bool
  write_value-set_entry s k (i32 z) = refl
  write_value-set_entry s k (u32 n) = refl
  write_value-set_entry s k (u8 n) = refl
  write_value-set_entry s k (boolean b) = refl
  write_value-set_entry s k (string t) = refl
  write_value-set_entry s k (double d) = refl
  write_value-set_entry s k (float d) = refl

  set_entry-found :
      (s : N.State) (k : String) (e : Entry)
      → (set_entry N s k e).0 ≡ true
      → lookup (set_entry N s k e).1 k ≡ some e
  set_entry-found s k (Nvs.i32 z) done = L.i32_set s k z done
  set_entry-found s k (Nvs.u32 n) done = L.u32_set s k n done
  set_entry-found s k (Nvs.u8 n) done = L.u8_set s k n done
  set_entry-found s k (Nvs.text t) done = L.text_set s k t done
  set_entry-found s k (Nvs.blob b) done = L.blob_set s k b done

  set_entry-done :
      (s : N.State) (k j : String) (e : Entry)
      → (set_entry N s k e).0 ≡ true
      → lookup (set_entry N s k e).1 j ≡ (if str_eq k j then some e else lookup s j)
  set_entry-done s k j e done = elim (Bool-cases (str_eq k j)) [
    | inl y ↦
        subst (λ i. lookup (set_entry N s k e).1 i ≡ some e) ((eq_iff k j).0 y)
          (set_entry-found s k e done)
        ∙ rw y refl
    | inr n ↦ M.set_other s k j e n ∙ rw n refl
  ]

  get_bool_found :
      (s : N.State) (k : String) (b d : Bool)
      → lookup s k ≡ some (entry (boolean b))
      → nvs_get_bool N s k d ≡ b
  unfolding nvs_get_bool
  get_bool_found s k true d found = rw (L.u8_get s k 1 (if d then 1 else 0) found)
  get_bool_found s k false d found = rw (L.u8_get s k 0 (if d then 1 else 0) found)

  pod_found :
      (s : N.State) (k : String) (b d : List ℕ) (n : ℕ)
      → length b ≡ n
      → N.is_open s ≡ true
      → lookup s k ≡ some (Nvs.blob b)
      → (read_pod (object (nvs_impl N) s) k n d).0 ≡ b
  unfolding nvs_get_blob
  pod_found s k b d n len ready found =
      ap (λ r. r.0)
        (read_pod_found (nvs_impl N) s k b d n ready (
          subst (λ m. nvs_get_blob N s k false m ≡ (true, b, m, s)) len
            (rw (L.blob_get s k b found))))

  pod_missing :
      (s : N.State) (k : String) (d : List ℕ) (n : ℕ)
      → N.is_open s ≡ true
      → lookup s k ≡ none
      → (read_pod (object (nvs_impl N) s) k n d).0 ≡ d
  unfolding read_pod nvs_get_blob
  pod_missing s k d n ready gone = ground (arith, M.blob_missing s k n gone)

  pod_same :
      (s : N.State) (k : String) (d : List ℕ) (n : ℕ)
      → (read_pod (object (nvs_impl N) s) k n d).1 ≡ s
  unfolding read_pod nvs_get_blob
  pod_same s k d n = ground arith

  read_found :
      (s : N.State) (k : String) (v : Value) (D : Defaults)
      → InRange v
      → N.is_open s ≡ true
      → lookup s k ≡ some (entry v)
      → (read_value (nvs_impl N) s k (kind v) D).0 ≡ v
  unfolding read_value
  read_found s k (i32 z) D r ready found = ap i32 (L.i32_get s k z _ found)
  read_found s k (u32 n) D r ready found = ap u32 (L.u32_get s k n _ found)
  read_found s k (u8 n) D r ready found = ap u8 (L.u8_get s k n _ found)
  read_found s k (boolean b) D r ready found = ap boolean (get_bool_found s k b _ found)
  read_found s k (string t) D r ready found = ap string (L.text_get s k t _ found)
  read_found s k (double d) D r ready found = ap double (pod_found s k d _ 8 r ready found)
  read_found s k (float d) D r ready found = ap float (pod_found s k d _ 4 r ready found)

  get_bool_missing :
      (s : N.State) (k : String) (d : Bool) → lookup s k ≡ none → nvs_get_bool N s k d ≡ d
  unfolding nvs_get_bool
  get_bool_missing s k true gone = rw (M.u8_missing s k 1 gone)
  get_bool_missing s k false gone = rw (M.u8_missing s k 0 gone)

  read_missing :
      (s : N.State) (k : String) (j : Kind) (D : Defaults)
      → N.is_open s ≡ true
      → lookup s k ≡ none
      → (read_value (nvs_impl N) s k j D).0 ≡ default j D
  unfolding read_value
  read_missing s k i32_kind D ready gone = ap i32 (M.i32_missing s k _ gone)
  read_missing s k u32_kind D ready gone = ap u32 (M.u32_missing s k _ gone)
  read_missing s k u8_kind D ready gone = ap u8 (M.u8_missing s k _ gone)
  read_missing s k boolean_kind D ready gone = ap boolean (get_bool_missing s k _ gone)
  read_missing s k string_kind D ready gone = ap string (M.text_missing s k _ gone)
  read_missing s k double_kind D ready gone = ap double (pod_missing s k _ 8 ready gone)
  read_missing s k float_kind D ready gone = ap float (pod_missing s k _ 4 ready gone)

  -- No getter changes the namespace.
  read_value-same :
      (s : N.State) (k : String) (j : Kind) (D : Defaults) → (read_value (nvs_impl N) s k j D).1 ≡ s
  unfolding read_value
  read_value-same s k i32_kind D = refl
  read_value-same s k u32_kind D = refl
  read_value-same s k u8_kind D = refl
  read_value-same s k boolean_kind D = refl
  read_value-same s k string_kind D = refl
  read_value-same s k double_kind D = pod_same s k _ 8
  read_value-same s k float_kind D = pod_same s k _ 4

  pub nvs_impl-Encoding : Encoding (nvs_impl N) Entry lookup entry
  nvs_impl-Encoding = record {
    write_done =
        λ s k j v r ready. rw (write_value-set_entry s k v) (set_entry-done s k j (entry v));
    write_other =
        λ s k j v r ready n. rw (write_value-set_entry s k v) (M.set_other s k j (entry v) n);
    write_open = λ s k v ready. rw (write_value-set_entry s k v) (M.set_open s k (entry v) ready);
    read_found = read_found;
    read_missing = read_missing;
    read_same = λ s k i j D. ap (λ t. lookup t i) (read_value-same s k j D);
    read_open = λ s k j D ready. ap N.is_open (read_value-same s k j D) ∙ ready;
    has_key = M.has_entry;
    erase_done = λ s k j ready. M.erase_done s k j;
    erase_failed = λ s k j ready. M.erase_failed s k j;
    erase_missing = λ s k ready. M.erase_missing s k;
    erase_open = M.erase_open;
    erase_all_done = λ s j ready. M.erase_all_done s j;
    erase_all_open = M.erase_all_open;
    commit_same = M.commit_same;
    commit_open = M.commit_open;
  }
