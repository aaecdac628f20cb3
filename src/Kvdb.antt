-- ===== src/Kvdb.antt =====
-- include/KVDB.hpp: the class KVDB over one of two backends. A call through the null `m_impl` of an
-- object that was moved from is a fault: `none`. Each method returns its result and the new object.
pub mod Impl
pub mod Contract
pub mod Proxy
pub mod Blobs
pub mod Calls
pub mod Spec
pub mod Encoding
pub mod Refine
pub mod NvsEncoding
pub mod FlashdbEncoding
pub mod Backends
mod Tests
use base_utilities_esp.Base.{
  ℕ, String, Bool, true, false, not, Option, none, some, List, [], ◌==◌, if◌then◌else◌, ℤ,
}
use base_utilities_esp.Flash.{FlashDb}
use base_utilities_esp.KvHandle.{make, resize, overwrite}
use base_utilities_esp.Nvs.{Nvs, Mode, nvs_readwrite}
use Impl.{ImplBase, Backend, FlashdbState, nvs_impl, flashdb_impl}

-- `*m_impl`: a class that implements ImplBase and an object of it.
pub record Object : Type 1 where
  pub impl : ImplBase
  pub state : impl.State

-- The field `m_impl`.
abbrev pub Kvdb : Type 1
Kvdb = Option Object

-- The object after a method of `m_impl`, with what the method returned.
abbrev pub stored {ℓ} : {A : Type ℓ} → (o : Object) → A × o.impl.State → Option (A × Kvdb)
stored o (a, s) = some (a, some (record o { state = s }))

abbrev pub on {ℓ} : {A : Type ℓ} → Kvdb → ((o : Object) → A × o.impl.State) → Option (A × Kvdb)
on none method = none
on (some o) method = stored o (method o)

-- A `const` method that leaves the object as it is.
abbrev pub ask {ℓ} : {A : Type ℓ} → Kvdb → (Object → A) → Option A
ask none method = none
ask (some o) method = some (method o)

-- KVDB(ns_name, open_mode)
unfoldable pub make_nvs : (N : Nvs) → String → Mode → Kvdb
make_nvs N ns_name open_mode = some (record { impl = nvs_impl N; state = N.make ns_name open_mode })

-- KVDB(Backend::NVS, arg) and KVDB(Backend::Flashdb, arg)
unfoldable pub make_backend_nvs : (N : Nvs) → String → Kvdb
unfolding make_nvs
make_backend_nvs N arg = make_nvs N arg nvs_readwrite

unfoldable pub make_backend_flashdb : (F : FlashDb) → F.Db → F.Part → Kvdb
make_backend_flashdb F d arg =
    some (record { impl = flashdb_impl F; state = record { part = arg; kv = make F d } })

-- The move constructor, and move assignment: the two objects afterwards.
unfoldable pub move : Kvdb → Kvdb × Kvdb
move other = (other, none)

unfoldable pub move_assign : Kvdb → Kvdb → Kvdb × Kvdb
move_assign db other = (other, none)

unfoldable pub start : Kvdb → Option (Bool × Kvdb)
start db = on db λ o. o.impl.start o.state

unfoldable pub close : Kvdb → Option Kvdb
close none = none
close (some o) = some (some (record o { state = o.impl.close o.state }))

unfoldable pub commit : Kvdb → Option (Bool × Kvdb)
commit db = on db λ o. o.impl.commit o.state

unfoldable pub is_open : Kvdb → Option Bool
is_open db = ask db λ o. o.impl.is_open o.state

unfoldable pub has : Kvdb → String → Option Bool
has db key = ask db λ o. o.impl.has o.state key

unfoldable pub erase : Kvdb → String → Option (Bool × Kvdb)
erase db key = on db λ o. o.impl.erase o.state key

unfoldable pub erase_all : Kvdb → Option (Bool × Kvdb)
erase_all db = on db λ o. o.impl.erase_all o.state

unfoldable pub set_i32 : Kvdb → String → ℤ → Option (Bool × Kvdb)
set_i32 db key value = on db λ o. o.impl.set_i32 o.state key value

unfoldable pub get_i32 : Kvdb → String → ℤ → Option (ℤ × Kvdb)
get_i32 db key default_val = on db λ o. o.impl.get_i32 o.state key default_val

unfoldable pub set_u32 : Kvdb → String → ℕ → Option (Bool × Kvdb)
set_u32 db key value = on db λ o. o.impl.set_u32 o.state key value

unfoldable pub get_u32 : Kvdb → String → ℕ → Option (ℕ × Kvdb)
get_u32 db key default_val = on db λ o. o.impl.get_u32 o.state key default_val

unfoldable pub set_u8 : Kvdb → String → ℕ → Option (Bool × Kvdb)
set_u8 db key value = on db λ o. o.impl.set_u8 o.state key value

unfoldable pub get_u8 : Kvdb → String → ℕ → Option (ℕ × Kvdb)
get_u8 db key default_val = on db λ o. o.impl.get_u8 o.state key default_val

unfoldable pub set_bool : Kvdb → String → Bool → Option (Bool × Kvdb)
set_bool db key value = on db λ o. o.impl.set_bool o.state key value

unfoldable pub get_bool : Kvdb → String → Bool → Option (Bool × Kvdb)
get_bool db key default_val = on db λ o. o.impl.get_bool o.state key default_val

unfoldable pub set_string : Kvdb → String → List ℕ → Option (Bool × Kvdb)
set_string db key value = on db λ o. o.impl.set_string o.state key value

unfoldable pub get_string : Kvdb → String → List ℕ → Option (List ℕ × Kvdb)
get_string db key default_val = on db λ o. o.impl.get_string o.state key default_val

unfoldable pub set_blob : Kvdb → String → List ℕ → Option (Bool × Kvdb)
set_blob db key bytes = on db λ o. o.impl.set_blob o.state key bytes

unfoldable pub available_size : Kvdb → Option ℕ
available_size db = ask db λ o. o.impl.available_size o.state

unfoldable pub used_size : Kvdb → Option ℕ
used_size db = ask db λ o. o.impl.used_size o.state

unfoldable pub backend_type : Kvdb → Option Backend
backend_type db = ask db λ o. o.impl.backend_type

-- The last two lines of `get_blob(key, out)`, on a vector of `len` bytes.
unfoldable pub fill_blob : (o : Object) → String → List ℕ → ℕ → (Bool × List ℕ) × o.impl.State
fill_blob o key out len =
    let (ok, bytes, len', s) = o.impl.get_blob o.state key false len in
    ((ok, overwrite (resize len out) bytes), s)

unfoldable pub read_blob : (o : Object) → String → List ℕ → (Bool × List ℕ) × o.impl.State
unfolding fill_blob
read_blob o key out =
    let (ok, bytes, len, s) = o.impl.get_blob o.state key true 0 in
    if not ok then ((false, out), s) else fill_blob (record o { state = s }) key out len

-- `get_blob(const char*, std::vector<uint8_t>&)`: the result, and the vector after the call.
unfoldable pub get_blob : Kvdb → String → List ℕ → Option ((Bool × List ℕ) × Kvdb)
unfolding read_blob
get_blob db key out = on db λ o. read_blob o key out

-- `set<T>` and `get<T>` of a POD type, by the bytes of its objects; `size` is sizeof(T).
unfoldable pub set_pod : Kvdb → String → List ℕ → Option (Bool × Kvdb)
unfolding set_blob
set_pod db key object = set_blob db key object

unfoldable pub read_pod : (o : Object) → String → ℕ → List ℕ → List ℕ × o.impl.State
read_pod o key size default_val =
    if not (o.impl.is_open o.state)
    then (default_val, o.state)
    else let (ok, bytes, len, s) = o.impl.get_blob o.state key false size in
      if not ok
      then (default_val, s)
      else if not (len == size)
      then (default_val, s)
      else (bytes, s)

unfoldable pub get_pod : Kvdb → String → ℕ → List ℕ → Option (List ℕ × Kvdb)
unfolding read_pod
get_pod db key size default_val = on db λ o. read_pod o key size default_val
