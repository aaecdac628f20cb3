-- ===== src/Kvdb/Impl.antt =====
-- KVDB::ImplBase as a record of its virtual methods, and the two classes that implement it.
use base_utilities_esp.Base.{
  ℕ, String, Bool, true, false, not, List, [], length, leb, ◌==◌, if◌then◌else◌, ℤ,
}
use base_utilities_esp.Flash.{FlashDb}
use base_utilities_esp.KvHandle
use base_utilities_esp.KvHandle.{Handle}
use base_utilities_esp.Nvs.{Nvs}

pub data Backend : Type 0 where
  nvs flashdb : Backend

-- A method takes the state of the object and returns its result and the new state. In `get_blob s
-- key null len`, `null` is whether `out` is a null pointer; it returns the result, the bytes put
-- into `out`, and `len` after the call.
pub record ImplBase : Type 1 where
  pub State : Type 0
  pub start : State → Bool × State
  pub close : State → State
  pub commit : State → Bool × State
  pub is_open : State → Bool
  pub has : State → String → Bool
  pub erase : State → String → Bool × State
  pub erase_all : State → Bool × State
  pub set_i32 : State → String → ℤ → Bool × State
  pub get_i32 : State → String → ℤ → ℤ × State
  pub set_u32 : State → String → ℕ → Bool × State
  pub get_u32 : State → String → ℕ → ℕ × State
  pub set_u8 : State → String → ℕ → Bool × State
  pub get_u8 : State → String → ℕ → ℕ × State
  pub set_bool : State → String → Bool → Bool × State
  pub get_bool : State → String → Bool → Bool × State
  pub set_string : State → String → List ℕ → Bool × State
  pub get_string : State → String → List ℕ → List ℕ × State
  pub set_blob : State → String → List ℕ → Bool × State
  pub get_blob : State → String → Bool → ℕ → Bool × List ℕ × ℕ × State
  pub available_size : State → ℕ
  pub used_size : State → ℕ
  pub backend_type : Backend

module _ (N : Nvs) where
  -- NVS has no bool: a bool is stored as a u8.
  unfoldable pub nvs_set_bool : N.State → String → Bool → Bool × N.State
  nvs_set_bool s key value = N.set_u8 s key (if value then 1 else 0)

  unfoldable pub nvs_get_bool : N.State → String → Bool → Bool
  nvs_get_bool s key default_val =
      let v : ℕ = N.get_u8 s key (if default_val then 1 else 0) in not (v == 0)

  unfoldable pub nvs_get_blob : N.State → String → Bool → ℕ → Bool × List ℕ × ℕ × N.State
  nvs_get_blob s key null len =
      let (ok, out, stored_len) = N.nvs_get_blob s key null len in
      if not ok then (false, out, len, s) else (true, out, stored_len, s)

  -- KVDB::NVSImpl. The sizes are those of ImplBase.
  abbrev pub nvs_impl : ImplBase
  nvs_impl = record {
    State = N.State;
    start = N.start;
    close = N.close;
    commit = N.commit;
    is_open = N.is_open;
    has = N.has;
    erase = N.erase;
    erase_all = N.erase_all;
    set_i32 = N.set_i32;
    get_i32 = λ s key default_val. (N.get_i32 s key default_val, s);
    set_u32 = N.set_u32;
    get_u32 = λ s key default_val. (N.get_u32 s key default_val, s);
    set_u8 = N.set_u8;
    get_u8 = λ s key default_val. (N.get_u8 s key default_val, s);
    set_bool = nvs_set_bool;
    get_bool = λ s key default_val. (nvs_get_bool s key default_val, s);
    set_string = N.set_string;
    get_string = λ s key default_val. (N.get_string s key default_val, s);
    set_blob = N.set_blob;
    get_blob = nvs_get_blob;
    available_size = λ s. 0;
    used_size = λ s. 0;
    backend_type = nvs;
  }

-- The fields of KVDB::FlashdbImpl.
pub record FlashdbState (F : FlashDb) : Type 0 where
  pub part : F.Part
  pub kv : Handle F

module _ (F : FlashDb) where
  abbrev pub with_kv {ℓ} : {A : Type ℓ} → FlashdbState F → A × Handle F → A × FlashdbState F
  with_kv s (a, h) = (a, record s { kv = h })

  unfoldable pub flashdb_get_blob :
      FlashdbState F → String → Bool → ℕ → Bool × List ℕ × ℕ × FlashdbState F
  flashdb_get_blob s key null len =
      let (ok, tmp, h) = KvHandle.get_blob F s.kv key [] in
      let s' : FlashdbState F = record s { kv = h } in
      if not ok
      then (false, [], len, s')
      else if leb (length tmp) len
      then (true, tmp, length tmp, s')
      else (false, [], length tmp, s')

  -- KVDB::FlashdbImpl. A commit has nothing to do.
  abbrev pub flashdb_impl : ImplBase
  flashdb_impl = record {
    State = FlashdbState F;
    start = λ s. with_kv s (KvHandle.init F s.kv s.part);
    close = λ s. record s { kv = KvHandle.deinit F s.kv };
    commit = λ s. (true, s);
    is_open = λ s. s.kv.initialized;
    has = λ s key. KvHandle.has F s.kv key;
    erase = λ s key. with_kv s (KvHandle.erase F s.kv key);
    erase_all = λ s. with_kv s (KvHandle.clear F s.kv);
    set_i32 = λ s key value. with_kv s (KvHandle.set_i32 F s.kv key value);
    get_i32 = λ s key default_val. with_kv s (KvHandle.get_i32 F s.kv key default_val);
    set_u32 = λ s key value. with_kv s (KvHandle.set_u32 F s.kv key value);
    get_u32 = λ s key default_val. with_kv s (KvHandle.get_u32 F s.kv key default_val);
    set_u8 = λ s key value. with_kv s (KvHandle.set_u8 F s.kv key value);
    get_u8 = λ s key default_val. with_kv s (KvHandle.get_u8 F s.kv key default_val);
    set_bool = λ s key value. with_kv s (KvHandle.set_bool F s.kv key value);
    get_bool = λ s key default_val. with_kv s (KvHandle.get_bool F s.kv key default_val);
    set_string = λ s key value. with_kv s (KvHandle.set_string F s.kv key value);
    get_string = λ s key default_val. with_kv s (KvHandle.get_string F s.kv key default_val);
    set_blob = λ s key bytes. with_kv s (KvHandle.set_blob F s.kv key bytes);
    get_blob = flashdb_get_blob;
    available_size = λ s. KvHandle.available_size F s.kv;
    used_size = λ s. KvHandle.used_size F s.kv;
    backend_type = flashdb;
  }
