-- ===== src/Kvdb/Backends/Tests.antt =====
-- One sequence of calls on a KVDB over each backend in memory.
use base_utilities_esp.Base.{true, false, ◌≡◌, refl, ap, sym, ◌∙◌, some, List, [], ◌∷◌, pos}
use base_utilities_esp.Flash.{no_err}
use base_utilities_esp.Flash.Memory
use base_utilities_esp.Flash.Memory.{memory-FlashLaws}
use base_utilities_esp.KvHandle
use base_utilities_esp.KvHandle.Proxy.{boolean, boolean_kind}
use base_utilities_esp.Nvs
use base_utilities_esp.Nvs.Memory as NvsMemory
use base_utilities_esp.Nvs.Memory.{Namespace, memory-NvsLaws}
use base_utilities_esp.Nvs.MemoryMap.{memory-NvsMapLaws}
use base_utilities_esp.Kvdb.Impl.{FlashdbState, nvs_impl, flashdb_impl, nvs_set_bool, nvs_get_bool}
use base_utilities_esp.Kvdb.{
  set_i32, set_bool, set_string, get_i32, get_bool, get_string, has, erase,
}
use base_utilities_esp.Kvdb.Calls.{
  Defaults, Call, write, read, has_key, erase_key, Reply, done, value, present, run, fetch,
}
use base_utilities_esp.Kvdb.Spec.{Contents, missing}
use base_utilities_esp.Kvdb.Refine.{Answered, AllWrite, run-refines}
use base_utilities_esp.Kvdb.Proxy.{object, store}
use base_utilities_esp.Kvdb.NvsEncoding.{nvs_impl-Encoding, entry}
use base_utilities_esp.Kvdb.Backends.{
  open_replies, NvsHolds, FlashdbHolds, run-nvs, run-flashdb, run-backends,
}

abbrev zeros : Defaults
zeros = record {
  i32 = pos 0;
  u32 = 0;
  u8 = 0;
  boolean = true;
  string = [];
  double = [];
  float = [];
}

abbrev no_contents : Contents
no_contents = λ k. missing

abbrev calls : List Call
calls =
    write "b" (boolean false)
    ∷ read "b" boolean_kind zeros
    ∷ read "m" boolean_kind zeros
    ∷ erase_key "b"
    ∷ has_key "b"
    ∷ []

calls-AllWrite : AllWrite calls
calls-AllWrite = (tt, (tt, (tt, (tt, (tt, tt)))))

abbrev empty_nvs : Namespace
empty_nvs = record { entries = []; is_open = true; writable = true }

abbrev empty_flashdb : FlashdbState Memory.memory
empty_flashdb = record {
  part = true;
  kv = record { kvdb = []; initialized = true; last_error = no_err };
}

nvs_holds : NvsHolds NvsMemory.memory NvsMemory.lookup no_contents empty_nvs
unfolding NvsMemory.find
nvs_holds = (refl, λ j. refl)

flashdb_holds : FlashdbHolds Memory.memory Memory.find no_contents empty_flashdb
unfolding Memory.find
flashdb_holds = (refl, λ j. refl)

abbrev replies : List Reply
replies = done true ∷ value (boolean false) ∷ value (boolean true) ∷ done true ∷ present false ∷ []

nvs_replies : run (some (object (nvs_impl NvsMemory.memory) empty_nvs)) calls ≡ some replies
unfolding run base_utilities_esp.Kvdb.Calls.call fetch store set_bool get_bool has erase
    nvs_set_bool nvs_get_bool NvsMemory.put NvsMemory.remove NvsMemory.find NvsMemory.without
nvs_replies = refl

flashdb_replies :
    run (some (object (flashdb_impl Memory.memory) empty_flashdb)) calls ≡ some replies
unfolding run base_utilities_esp.Kvdb.Calls.call fetch store set_bool get_bool has erase Memory.find
    Memory.without KvHandle.set_bool KvHandle.set_blob KvHandle.get_bool KvHandle.has KvHandle.erase
    base_utilities_esp.Base.le_bytes base_utilities_esp.Base.le_value
flashdb_replies = refl

run-refines_on_memory :
    Answered no_contents calls (run (some (object (nvs_impl NvsMemory.memory) empty_nvs)) calls)
run-refines_on_memory =
    run-refines (nvs_impl NvsMemory.memory) Nvs.Entry NvsMemory.lookup entry
      (nvs_impl-Encoding NvsMemory.memory NvsMemory.lookup memory-NvsLaws memory-NvsMapLaws) calls
      no_contents empty_nvs calls-AllWrite nvs_holds

run-flashdb_example :
    Answered no_contents calls
      (run (some (object (flashdb_impl Memory.memory) empty_flashdb)) calls)
run-flashdb_example =
    run-flashdb Memory.memory Memory.find memory-FlashLaws calls no_contents empty_flashdb
      calls-AllWrite flashdb_holds

run-nvs_example :
    Answered no_contents calls (run (some (object (nvs_impl NvsMemory.memory) empty_nvs)) calls)
run-nvs_example =
    run-nvs NvsMemory.memory NvsMemory.lookup memory-NvsLaws memory-NvsMapLaws calls no_contents
      empty_nvs calls-AllWrite nvs_holds

run-backends_example :
    run (some (object (nvs_impl NvsMemory.memory) empty_nvs)) calls
    ≡ run (some (object (flashdb_impl Memory.memory) empty_flashdb)) calls
run-backends_example =
    run-backends NvsMemory.memory NvsMemory.lookup memory-NvsLaws memory-NvsMapLaws Memory.memory
      Memory.find memory-FlashLaws calls no_contents empty_nvs empty_flashdb calls-AllWrite
      nvs_holds flashdb_holds
      (ap (open_replies no_contents calls) nvs_replies
        ∙ sym (ap (open_replies no_contents calls) flashdb_replies))
