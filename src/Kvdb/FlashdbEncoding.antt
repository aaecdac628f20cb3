-- ===== src/Kvdb/FlashdbEncoding.antt =====
-- KVDB::FlashdbImpl encodes a map: a value is the bytes of its object.
use base_utilities_esp.Base.{
  ℕ, String, ◌≡◌, ◌≢◌, refl, ◌∙◌, ap, Bool, true, false, ◌&&◌, Option, none, some, List, [], arith,
  str_eq, if◌then◌else◌, is_some, length, le_bytes, i32_bits,
}
use base_utilities_esp.Flash.{FlashDb, FlashLaws}
use base_utilities_esp.KvHandle
use base_utilities_esp.KvHandle.{Handle}
use base_utilities_esp.KvHandle.Proxy.{
  Value, i32, u32, u8, boolean, string, double, float, Kind, i32_kind, u32_kind, u8_kind,
  boolean_kind, string_kind, double_kind, float_kind, kind, InRange,
}
use base_utilities_esp.KvHandle.Stored.{lookup-set_blob, lookup-erase, has_lem, get_blob_found}
use base_utilities_esp.KvHandle.Typed.{
  get_i32_found, get_u32_found, get_u8_found, get_bool_found, get_string_found, le_bytes-nonempty,
  nonempty_of_length,
}
use base_utilities_esp.KvHandle.Reads.{
  SameDb, get_i32-same, get_u32-same, get_u8-same, get_bool-same, get_string-same, get_blob-same,
  get_i32_missing, get_u32_missing, get_u8_missing, get_bool_missing, get_string_missing,
  get_blob_missing,
}
use base_utilities_esp.Kvdb.Impl.{FlashdbState, flashdb_impl, flashdb_get_blob, with_kv}
use base_utilities_esp.Kvdb.{read_pod}
use base_utilities_esp.Kvdb.Proxy.{object, read_pod_found}
use base_utilities_esp.Kvdb.Calls.{Defaults, default, write_value, read_value}
use base_utilities_esp.Kvdb.Encoding.{Encoding}

abbrev pub object_bytes : Value → List ℕ
object_bytes (i32 z) = le_bytes 4 (i32_bits z)
object_bytes (u32 n) = le_bytes 4 n
object_bytes (u8 n) = le_bytes 1 n
object_bytes (boolean b) = le_bytes 1 (if b then 1 else 0)
object_bytes (string t) = t
object_bytes (double d) = d
object_bytes (float d) = d

object_bytes-nonempty : (v : Value) → InRange v → object_bytes v ≢ []
object_bytes-nonempty (i32 z) r = le_bytes-nonempty 4 _ (omega arith)
object_bytes-nonempty (u32 n) r = le_bytes-nonempty 4 _ (omega arith)
object_bytes-nonempty (u8 n) r = le_bytes-nonempty 1 _ (omega arith)
object_bytes-nonempty (boolean b) r = le_bytes-nonempty 1 _ (omega arith)
object_bytes-nonempty (string t) r = r
object_bytes-nonempty (double d) r = nonempty_of_length 8 d r (omega arith)
object_bytes-nonempty (float d) r = nonempty_of_length 4 d r (omega arith)

module _ (F : FlashDb) (lookup : F.Db → String → Option (List ℕ)) (L : FlashLaws F lookup) where
  write_value-set_blob :
      (s : FlashdbState F) (k : String) (v : Value)
      → write_value (flashdb_impl F) s k v
        ≡ with_kv F s (KvHandle.set_blob F s.kv k (object_bytes v))
  unfolding write_value KvHandle.set_i32 KvHandle.set_u32 KvHandle.set_u8 KvHandle.set_bool
      KvHandle.set_string
  write_value-set_blob s k (i32 z) = refl
  write_value-set_blob s k (u32 n) = refl
  write_value-set_blob s k (u8 n) = refl
  write_value-set_blob s k (boolean b) = refl
  write_value-set_blob s k (string t) = refl
  write_value-set_blob s k (double d) = refl
  write_value-set_blob s k (float d) = refl

  set_blob-open :
      (h : Handle F) (k : String) (b : List ℕ)
      → h.initialized ≡ true
      → (KvHandle.set_blob F h k b).1.initialized ≡ true
  unfolding KvHandle.set_blob
  set_blob-open h k b ready = ground arith

  set_blob-done :
      (h : Handle F) (k j : String) (b : List ℕ)
      → b ≢ []
      → (KvHandle.set_blob F h k b).0 ≡ true
      → lookup (KvHandle.set_blob F h k b).1.kvdb j
        ≡ (if str_eq k j then some b else lookup h.kvdb j)
  set_blob-done h k j b nonempty done = rw (lookup-set_blob F lookup L h k j b nonempty, done) refl

  set_blob-other :
      (h : Handle F) (k j : String) (b : List ℕ)
      → b ≢ []
      → str_eq k j ≡ false
      → lookup (KvHandle.set_blob F h k b).1.kvdb j ≡ lookup h.kvdb j
  set_blob-other h k j b nonempty n = ground (arith, lookup-set_blob F lookup L h k j b nonempty)

  erase-done :
      (h : Handle F) (k j : String) (ok : Bool)
      → (KvHandle.erase F h k).0 ≡ ok
      → lookup (KvHandle.erase F h k).1.kvdb j
        ≡ (if ok && str_eq k j then none else lookup h.kvdb j)
  erase-done h k j ok done = rw (lookup-erase F lookup L h k j, done) refl

  erase-missing :
      (h : Handle F) (k : String) → lookup h.kvdb k ≡ none → (KvHandle.erase F h k).0 ≡ false
  unfolding KvHandle.erase
  erase-missing h k gone = ground (arith, L.del_missing h.kvdb k gone)

  erase-open :
      (h : Handle F) (k : String)
      → h.initialized ≡ true
      → (KvHandle.erase F h k).1.initialized ≡ true
  unfolding KvHandle.erase
  erase-open h k ready = ground arith

  clear-done :
      (h : Handle F) (j : String)
      → (KvHandle.clear F h).0 ≡ true
      → lookup (KvHandle.clear F h).1.kvdb j ≡ none
  unfolding KvHandle.clear
  clear-done h j done = ground (arith, L.clean_done h.kvdb j)

  clear-open : (h : Handle F) → h.initialized ≡ true → (KvHandle.clear F h).1.initialized ≡ true
  unfolding KvHandle.clear
  clear-open h ready = ground arith

  has-lookup :
      (h : Handle F) (k : String) (o : Option (List ℕ))
      → h.initialized ≡ true
      → lookup h.kvdb k ≡ o
      → KvHandle.has F h k ≡ is_some o
  has-lookup h k none ready e = has_lem F lookup L h k none ready e
  has-lookup h k (some b) ready e = has_lem F lookup L h k (some b) ready e

  blob_fits :
      (s : FlashdbState F) (k : String) (b : List ℕ) (n : ℕ)
      → length b ≡ n
      → s.kv.initialized ≡ true
      → lookup s.kv.kvdb k ≡ some b
      → flashdb_get_blob F s k false n ≡ (true, b, n, s)
  unfolding flashdb_get_blob
  blob_fits s k b n len ready found =
      ground (arith, get_blob_found F lookup L s.kv k b [] ready found)

  pod_found :
      (s : FlashdbState F) (k : String) (b d : List ℕ) (n : ℕ)
      → length b ≡ n
      → s.kv.initialized ≡ true
      → lookup s.kv.kvdb k ≡ some b
      → (read_pod (object (flashdb_impl F) s) k n d).0 ≡ b
  pod_found s k b d n len ready found =
      ap (λ r. r.0)
        (read_pod_found (flashdb_impl F) s k b d n ready (blob_fits s k b n len ready found))

  read_found :
      (s : FlashdbState F) (k : String) (v : Value) (D : Defaults)
      → InRange v
      → s.kv.initialized ≡ true
      → lookup s.kv.kvdb k ≡ some (object_bytes v)
      → (read_value (flashdb_impl F) s k (kind v) D).0 ≡ v
  unfolding read_value
  read_found s k (i32 z) D r ready found =
      ap (λ p. i32 p.0) (get_i32_found F lookup L s.kv k z _ r ready found)
  read_found s k (u32 n) D r ready found =
      ap (λ p. u32 p.0) (get_u32_found F lookup L s.kv k n _ r found)
  read_found s k (u8 n) D r ready found =
      ap (λ p. u8 p.0) (get_u8_found F lookup L s.kv k n _ r found)
  read_found s k (boolean b) D r ready found =
      ap (λ p. boolean p.0) (get_bool_found F lookup L s.kv k b _ found)
  read_found s k (string t) D r ready found =
      ap (λ p. string p.0) (get_string_found F lookup L s.kv k t _ ready found)
  read_found s k (double d) D r ready found = ap double (pod_found s k d _ 8 r ready found)
  read_found s k (float d) D r ready found = ap float (pod_found s k d _ 4 r ready found)

  pod_missing :
      (s : FlashdbState F) (k : String) (d : List ℕ) (n : ℕ)
      → lookup s.kv.kvdb k ≡ none
      → (read_pod (object (flashdb_impl F) s) k n d).0 ≡ d
  unfolding read_pod flashdb_get_blob
  pod_missing s k d n gone = ground (arith, get_blob_missing F lookup L s.kv k gone [])

  pod_same :
      (s : FlashdbState F) (k : String) (d : List ℕ) (n : ℕ)
      → SameDb F s.kv (read_pod (object (flashdb_impl F) s) k n d).1.kv
  unfolding read_pod flashdb_get_blob
  pod_same s k d n = ground (arith, get_blob-same F s.kv k [])

  read_missing :
      (s : FlashdbState F) (k : String) (j : Kind) (D : Defaults)
      → lookup s.kv.kvdb k ≡ none
      → (read_value (flashdb_impl F) s k j D).0 ≡ default j D
  unfolding read_value
  read_missing s k i32_kind D gone = ap i32 (get_i32_missing F lookup L s.kv k gone _)
  read_missing s k u32_kind D gone = ap u32 (get_u32_missing F lookup L s.kv k gone _)
  read_missing s k u8_kind D gone = ap u8 (get_u8_missing F lookup L s.kv k gone _)
  read_missing s k boolean_kind D gone = ap boolean (get_bool_missing F lookup L s.kv k gone _)
  read_missing s k string_kind D gone = ap string (get_string_missing F lookup L s.kv k gone _)
  read_missing s k double_kind D gone = ap double (pod_missing s k _ 8 gone)
  read_missing s k float_kind D gone = ap float (pod_missing s k _ 4 gone)

  read_value-same :
      (s : FlashdbState F) (k : String) (j : Kind) (D : Defaults)
      → SameDb F s.kv (read_value (flashdb_impl F) s k j D).1.kv
  unfolding read_value
  read_value-same s k i32_kind D = get_i32-same F s.kv k _
  read_value-same s k u32_kind D = get_u32-same F s.kv k _
  read_value-same s k u8_kind D = get_u8-same F s.kv k _
  read_value-same s k boolean_kind D = get_bool-same F s.kv k _
  read_value-same s k string_kind D = get_string-same F s.kv k _
  read_value-same s k double_kind D = pod_same s k _ 8
  read_value-same s k float_kind D = pod_same s k _ 4

  pub flashdb_impl-Encoding :
      Encoding (flashdb_impl F) (List ℕ) (λ s. lookup s.kv.kvdb) object_bytes
  flashdb_impl-Encoding = record {
    write_done = λ s k j v r ready.
        rw (write_value-set_blob s k v)
          (set_blob-done s.kv k j (object_bytes v) (object_bytes-nonempty v r));
    write_other = λ s k j v r ready n.
        rw (write_value-set_blob s k v)
          (set_blob-other s.kv k j (object_bytes v) (object_bytes-nonempty v r) n);
    write_open = λ s k v ready.
        rw (write_value-set_blob s k v) (set_blob-open s.kv k (object_bytes v) ready);
    read_found = read_found;
    read_missing = λ s k j D ready. read_missing s k j D;
    read_same = λ s k i j D. ap (λ d. lookup d i) (read_value-same s k j D).0;
    read_open = λ s k j D ready. (read_value-same s k j D).1 ∙ ready;
    has_key = λ s k ready. has-lookup s.kv k _ ready refl;
    erase_done = λ s k j ready. erase-done s.kv k j true;
    erase_failed = λ s k j ready. erase-done s.kv k j false;
    erase_missing = λ s k ready. erase-missing s.kv k;
    erase_open = λ s k. erase-open s.kv k;
    erase_all_done = λ s j ready. clear-done s.kv j;
    erase_all_open = λ s. clear-open s.kv;
    commit_same = λ s j. refl;
    commit_open = λ s ready. ready;
  }
