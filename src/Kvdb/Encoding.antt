-- ===== src/Kvdb/Encoding.antt =====
-- What a backend of KVDB gives, by the map of encoded values that an object of it holds.
use base_utilities_esp.Base.{
  String, ◌≡◌, true, false, Option, none, some, str_eq, if◌then◌else◌, is_some,
}
use base_utilities_esp.KvHandle.Proxy.{Value, Kind, kind, InRange}
use base_utilities_esp.Kvdb.Impl.{ImplBase}
use base_utilities_esp.Kvdb.Calls.{Defaults, default, write_value, read_value}

-- `lookup` is what the object holds, and `encode` how it holds a value. All of it is about an object
-- that is open. A write that fails says nothing of its own key, nor a failed erase of all keys of
-- any key.
pub record Encoding (I : ImplBase) (Stored : Type 0) (lookup : I.State → String → Option Stored)
    (encode : Value → Stored) : Type 0 where
  pub write_done :
      (s : I.State) (k j : String) (v : Value)
      → InRange v
      → I.is_open s ≡ true
      → (write_value I s k v).0 ≡ true
      → lookup (write_value I s k v).1 j ≡ (if str_eq k j then some (encode v) else lookup s j)
  pub write_other :
      (s : I.State) (k j : String) (v : Value)
      → InRange v
      → I.is_open s ≡ true
      → str_eq k j ≡ false
      → lookup (write_value I s k v).1 j ≡ lookup s j
  pub write_open :
      (s : I.State) (k : String) (v : Value)
      → I.is_open s ≡ true
      → I.is_open (write_value I s k v).1 ≡ true
  pub read_found :
      (s : I.State) (k : String) (v : Value) (D : Defaults)
      → InRange v
      → I.is_open s ≡ true
      → lookup s k ≡ some (encode v)
      → (read_value I s k (kind v) D).0 ≡ v
  pub read_missing :
      (s : I.State) (k : String) (j : Kind) (D : Defaults)
      → I.is_open s ≡ true
      → lookup s k ≡ none
      → (read_value I s k j D).0 ≡ default j D
  pub read_same :
      (s : I.State) (k i : String) (j : Kind) (D : Defaults)
      → lookup (read_value I s k j D).1 i ≡ lookup s i
  pub read_open :
      (s : I.State) (k : String) (j : Kind) (D : Defaults)
      → I.is_open s ≡ true
      → I.is_open (read_value I s k j D).1 ≡ true
  pub has_key : (s : I.State) (k : String) → I.is_open s ≡ true → I.has s k ≡ is_some (lookup s k)
  pub erase_done :
      (s : I.State) (k j : String)
      → I.is_open s ≡ true
      → (I.erase s k).0 ≡ true
      → lookup (I.erase s k).1 j ≡ (if str_eq k j then none else lookup s j)
  pub erase_failed :
      (s : I.State) (k j : String)
      → I.is_open s ≡ true
      → (I.erase s k).0 ≡ false
      → lookup (I.erase s k).1 j ≡ lookup s j
  pub erase_missing :
      (s : I.State) (k : String) → I.is_open s ≡ true → lookup s k ≡ none → (I.erase s k).0 ≡ false
  pub erase_open :
      (s : I.State) (k : String) → I.is_open s ≡ true → I.is_open (I.erase s k).1 ≡ true
  pub erase_all_done :
      (s : I.State) (j : String)
      → I.is_open s ≡ true
      → (I.erase_all s).0 ≡ true
      → lookup (I.erase_all s).1 j ≡ none
  pub erase_all_open : (s : I.State) → I.is_open s ≡ true → I.is_open (I.erase_all s).1 ≡ true
  pub commit_same : (s : I.State) (j : String) → lookup (I.commit s).1 j ≡ lookup s j
  pub commit_open : (s : I.State) → I.is_open s ≡ true → I.is_open (I.commit s).1 ≡ true
