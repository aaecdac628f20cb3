-- ===== src/Kvdb/Tests.antt =====
-- Runs of a KVDB over both backends, and the theorems at concrete inputs.
use base_utilities_esp.Base.{ℕ, ◌≡◌, refl, true, false, some, List, [], ◌∷◌, arith, negsuc}
use base_utilities_esp.Flash.{no_err}
use base_utilities_esp.Flash.Memory
use base_utilities_esp.Flash.Memory.{memory, memory-FlashLaws}
use base_utilities_esp.KvHandle
use base_utilities_esp.KvHandle.Proxy.{i32, i32_kind, string, string_kind, double, double_kind}
use base_utilities_esp.Nvs
use base_utilities_esp.Nvs.Memory as NvsMemory
use base_utilities_esp.Nvs.Memory.{Namespace, memory-NvsLaws, put}
use base_utilities_esp.Kvdb.Impl.{FlashdbState, nvs_impl, flashdb_impl}
use base_utilities_esp.Kvdb.Contract.{flashdb_impl-Contract, nvs_impl-Contract}
use base_utilities_esp.Kvdb.{Kvdb, get_blob, set_i32, set_string, set_pod, start, is_open}
use base_utilities_esp.Kvdb.Proxy.{
  object, store, assign, convert, convert-assign_of_Contract, convert-assign_backends,
}
use base_utilities_esp.Kvdb.Blobs.{get_blob_flashdb, get_blob_nvs, is_open-start}

abbrev state : FlashdbState memory
state = record {
  part = true;
  kv = record { kvdb = ("k", 1 ∷ 2 ∷ []) ∷ []; initialized = true; last_error = no_err };
}

abbrev opened : Kvdb
opened = some (object (flashdb_impl memory) state)

abbrev name : List ℕ
name = 104 ∷ 105 ∷ []

abbrev with_name : Kvdb
with_name = some (
    object (flashdb_impl memory)
      (record state { kv = record state.kv { kvdb = ("n", name) ∷ ("k", 1 ∷ 2 ∷ []) ∷ [] } }))

convert-assign_of_Contract_instance :
    (assign opened "n" (string name) ≡ some with_name)
    × (convert with_name "n" string_kind ≡ some (string name, with_name))
unfolding store set_string KvHandle.set_string Memory.without
convert-assign_of_Contract_instance =
    convert-assign_of_Contract (flashdb_impl memory)
      (flashdb_impl-Contract memory Memory.find memory-FlashLaws) state "n" (string name) with_name
      (λ e. cc) refl

get_blob_flashdb_example : get_blob opened "k" [] ≡ some ((false, []), opened)
unfolding Memory.find
get_blob_flashdb_example =
    get_blob_flashdb memory Memory.find memory-FlashLaws state "k" (1 ∷ 2 ∷ []) [] refl refl

abbrev space : Namespace
space = record { entries = ("k", Nvs.blob (1 ∷ 2 ∷ [])) ∷ []; is_open = true; writable = true }

get_blob_nvs_instance :
    get_blob (some (object (nvs_impl NvsMemory.memory) space)) "k" []
    ≡ some ((true, 1 ∷ 2 ∷ []), some (object (nvs_impl NvsMemory.memory) space))
unfolding NvsMemory.find
get_blob_nvs_instance =
    get_blob_nvs NvsMemory.memory NvsMemory.lookup memory-NvsLaws space "k" (1 ∷ 2 ∷ []) [] refl

abbrev fresh : FlashdbState memory
fresh = record state { kv = record state.kv { initialized = false } }

is_open-start_instance : is_open opened ≡ some true
unfolding start KvHandle.init
is_open-start_instance = is_open-start memory fresh true opened refl

abbrev with_i32 : Kvdb
with_i32 = some (
    object (nvs_impl NvsMemory.memory)
      (record space { entries = ("i", Nvs.i32 (negsuc 6)) ∷ space.entries }))

-- The assignment on the other backend.
assign_on_nvs :
    (assign (some (object (nvs_impl NvsMemory.memory) space)) "i" (i32 (negsuc 6)) ≡ some with_i32)
    × (convert with_i32 "i" i32_kind ≡ some (i32 (negsuc 6), with_i32))
unfolding store set_i32 put NvsMemory.without
assign_on_nvs =
    convert-assign_of_Contract (nvs_impl NvsMemory.memory)
      (nvs_impl-Contract NvsMemory.memory NvsMemory.lookup memory-NvsLaws) space "i"
      (i32 (negsuc 6)) with_i32 (omega arith) refl

-- A double, of which NVS keeps the bytes as a blob.
abbrev half : List ℕ
half = 0 ∷ 0 ∷ 0 ∷ 0 ∷ 0 ∷ 0 ∷ 224 ∷ 63 ∷ []

abbrev with_half : Kvdb
with_half = some (
    object (flashdb_impl memory)
      (record state { kv = record state.kv { kvdb = ("d", half) ∷ ("k", 1 ∷ 2 ∷ []) ∷ [] } }))

abbrev space_with_half : Kvdb
space_with_half = some (
    object (nvs_impl NvsMemory.memory)
      (record space { entries = ("d", Nvs.blob half) ∷ space.entries }))

convert-assign_backends_example :
    (assign opened "d" (double half) ≡ some with_half)
    × (convert with_half "d" double_kind ≡ some (double half, with_half))
    × (assign (some (object (nvs_impl NvsMemory.memory) space)) "d" (double half)
        ≡ some space_with_half)
    × (convert space_with_half "d" double_kind ≡ some (double half, space_with_half))
unfolding store set_pod KvHandle.set_blob Memory.without put NvsMemory.without
convert-assign_backends_example =
    convert-assign_backends memory Memory.find memory-FlashLaws NvsMemory.memory NvsMemory.lookup
      memory-NvsLaws state space "d" (double half) with_half space_with_half refl refl refl
