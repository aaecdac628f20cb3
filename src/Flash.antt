-- ===== src/Flash.antt =====
-- FlashDB as include/KVHandle.hpp calls it. The library is a parameter: `FlashDb` has one function
-- for each call, over an unknown database state, and `FlashLaws` what its documentation promises.
pub mod Memory
use base_utilities_esp.Base.{
  ℕ, ◌≤◌, String, ◌≡◌, ◌≢◌, Bool, true, false, Option, none, some, List, [], str_eq, length,
  if◌then◌else◌,
}

-- fdb_err_t
pub data FdbErr : Type 0 where
  no_err erase_err read_err write_err part_not_found kv_name_err kv_name_exist : FdbErr
  saved_full init_failed : FdbErr

-- err == FDB_NO_ERR
abbrev pub is_ok : FdbErr → Bool
is_ok no_err = true
is_ok _ = false

-- `Db` is a database object with the flash behind it, `Part` a partition, `Node` an entry of the
-- list that `foreach` walks. A call that reads leaves the database as it was. `kv_get_len` has the
-- value of `*len` before and after the call. `kv_get_blob db key len` gives the error, the bytes put
-- into the buffer, and `*len` after the call.
pub record FlashDb : Type 1 where
  pub Db : Type 0
  pub Part : Type 0
  pub Node : Type 0
  pub kvdb_init : Db → String → Part → FdbErr × Db
  pub kvdb_deinit : Db → Db
  pub kv_get : Db → String → FdbErr
  pub kv_get_len : Db → String → ℕ → FdbErr × ℕ
  pub kv_get_blob : Db → String → ℕ → FdbErr × List ℕ × ℕ
  pub kv_set_blob : Db → String → List ℕ → FdbErr × Db
  pub kv_del : Db → String → FdbErr × Db
  pub kvdb_clean : Db → FdbErr × Db
  pub used_size : Db → ℕ
  pub part_size : Db → ℕ
  pub head_node : Db → Option Node
  pub next_node : Node → Option Node
  pub node_kv : Node → FdbErr × String × List ℕ

-- `lookup` is what the database holds. Nothing is assumed of a read into a buffer that is too small,
-- nor of a write of no bytes.
pub record FlashLaws (F : FlashDb) (lookup : F.Db → String → Option (List ℕ)) : Type 0 where
  pub get_found : (d : F.Db) (k : String) (b : List ℕ) → lookup d k ≡ some b → F.kv_get d k ≡ no_err
  pub get_missing : (d : F.Db) (k : String) → lookup d k ≡ none → is_ok (F.kv_get d k) ≡ false
  pub len_found :
      (d : F.Db) (k : String) (b : List ℕ) (n : ℕ)
      → lookup d k ≡ some b
      → F.kv_get_len d k n ≡ (no_err, length b)
  pub len_missing :
      (d : F.Db) (k : String) (n : ℕ) → lookup d k ≡ none → is_ok (F.kv_get_len d k n).0 ≡ false
  pub blob_found :
      (d : F.Db) (k : String) (b : List ℕ) (n : ℕ)
      → lookup d k ≡ some b
      → length b ≤ n
      → F.kv_get_blob d k n ≡ (no_err, b, length b)
  pub blob_missing :
      (d : F.Db) (k : String) (n : ℕ) → lookup d k ≡ none → is_ok (F.kv_get_blob d k n).0 ≡ false
  pub set_done :
      (d : F.Db) (k j : String) (b : List ℕ)
      → b ≢ []
      → is_ok (F.kv_set_blob d k b).0 ≡ true
      → lookup (F.kv_set_blob d k b).1 j ≡ (if str_eq k j then some b else lookup d j)
  pub set_failed :
      (d : F.Db) (k j : String) (b : List ℕ)
      → is_ok (F.kv_set_blob d k b).0 ≡ false
      → lookup (F.kv_set_blob d k b).1 j ≡ lookup d j
  pub del_done :
      (d : F.Db) (k j : String)
      → is_ok (F.kv_del d k).0 ≡ true
      → lookup (F.kv_del d k).1 j ≡ (if str_eq k j then none else lookup d j)
  pub del_failed :
      (d : F.Db) (k j : String)
      → is_ok (F.kv_del d k).0 ≡ false
      → lookup (F.kv_del d k).1 j ≡ lookup d j
  pub del_missing : (d : F.Db) (k : String) → lookup d k ≡ none → is_ok (F.kv_del d k).0 ≡ false
  pub clean_done :
      (d : F.Db) (j : String) → is_ok (F.kvdb_clean d).0 ≡ true → lookup (F.kvdb_clean d).1 j ≡ none
