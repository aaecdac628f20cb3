-- ===== src/KvHandle/Tests.antt =====
-- Runs of a KVHandle over the database in memory, and the theorems at concrete inputs.
use base_utilities_esp.Base.{
  ℕ, ◌+◌, String, ◌≡◌, refl, true, false, ◌&&◌, Option, none, some, List, [], ◌∷◌, arith, str_eq,
  if◌then◌else◌, zero, suc, ◌<◌, ◌^◌, replicate, length-replicate, InI32, pos, negsuc, le_bytes,
  i32_bits,
}
use base_utilities_esp.Flash.{FlashDb, no_err}
use base_utilities_esp.Flash.Memory.{memory, memory-FlashLaws, find, without}
use base_utilities_esp.KvHandle.{
  Handle, make, init, set_i32, set_blob, set_string, get_i32, get_u32, get_u8, get_blob, erase,
  deinit, move, available_size, used_size,
}
use base_utilities_esp.KvHandle.Stored.{lookup-set_blob, lookup-erase, get_blob_found}
use base_utilities_esp.KvHandle.Proxy.{i32, i32_kind, store, assign, convert}
use base_utilities_esp.KvHandle.Typed.{convert-assign}
use base_utilities_esp.KvHandle.Ranges.{AreBytes, FillLaws, getters-range}
use base_utilities_esp.KvHandle.Foreach.{foreach, foreach_lem}
use base_utilities_esp.KvHandle.Lifecycle.{closed_refuses, available_size-add, deinit-move}

abbrev opened : Handle memory
opened = record { kvdb = []; initialized = true; last_error = no_err }

abbrev filled : Handle memory
filled = record opened { kvdb = ("b", 7 ∷ []) ∷ ("n", 1 ∷ 2 ∷ 0 ∷ 0 ∷ []) ∷ [] }

abbrev closed : Handle memory
closed = record filled { initialized = false }

-- A first `init`, two writes, and what is stored then.
run : Option (List ℕ)
unfolding init set_i32 set_string find without le_bytes i32_bits
run =
    find
      (set_string memory (set_i32 memory (init memory (make memory []) true).1 "a" (negsuc 1)).1 "b"
        (9 ∷ [])).1.kvdb
      "a"

run_lem : run ≡ some (254 ∷ 255 ∷ 255 ∷ 255 ∷ [])
unfolding run
run_lem = refl

convert-assign_example :
    convert memory (assign memory filled "n" (i32 (negsuc 4))) "n" i32_kind
    ≡ (i32 (negsuc 4), assign memory filled "n" (i32 (negsuc 4)))
unfolding store set_i32 le_bytes i32_bits
convert-assign_example =
    convert-assign memory find memory-FlashLaws filled "n" (i32 (negsuc 4)) (omega arith) refl

lookup-set_blob_instance : find (set_blob memory filled "a" (5 ∷ [])).1.kvdb "b" ≡ (
    if (set_blob memory filled "a" (5 ∷ [])).0 && str_eq "a" "b"
    then some (5 ∷ [])
    else find filled.kvdb "b")
lookup-set_blob_instance =
    lookup-set_blob memory find memory-FlashLaws filled "a" "b" (5 ∷ []) (λ e. cc)

get_blob_found_example : get_blob memory filled "b" [] ≡ (true, 7 ∷ [], filled)
unfolding find
get_blob_found_example =
    get_blob_found memory find memory-FlashLaws filled "b" (7 ∷ []) [] refl refl

lookup-erase_example :
    find (erase memory filled "b").1.kvdb "b"
    ≡ (if (erase memory filled "b").0 && str_eq "b" "b" then none else find filled.kvdb "b")
lookup-erase_example = lookup-erase memory find memory-FlashLaws filled "b" "b"

count : ℕ → String → List ℕ → ℕ
count n key value = n + 1

foreach_lem_example : foreach memory count 5 filled 0 ≡ some 2
unfolding count
foreach_lem_example =
    foreach_lem memory count 5 filled (filled.kvdb ∷ (("n", 1 ∷ 2 ∷ 0 ∷ 0 ∷ []) ∷ []) ∷ []) 0
      (refl, (refl, refl)) (omega arith)

available_size-add_instance : available_size memory filled + used_size memory filled ≡ 4096
available_size-add_instance = available_size-add memory filled refl (omega arith) (omega arith)

deinit-move_example :
    (deinit memory (move memory filled).1 ≡ (move memory filled).1)
    × ((move memory filled).0.kvdb ≡ filled.kvdb)
    × ((deinit memory (move memory filled).0).kvdb ≡ (deinit memory filled).kvdb)
    × ((deinit memory (move memory filled).0).initialized ≡ false)
deinit-move_example = deinit-move memory filled

closed_refuses_instance : get_blob memory closed "b" (3 ∷ []) ≡ (false, 3 ∷ [], closed)
closed_refuses_instance = (closed_refuses memory closed refl "b" (5 ∷ []) (3 ∷ []) [] (pos 0) 0).4

-- A flash that is erased: each read fills its buffer with 255.
abbrev erased : FlashDb
erased = record memory { kv_get_blob = λ d k n. (no_err, replicate n 255, n) }

AreBytes-replicate : (n : ℕ) → AreBytes (replicate n 255)
AreBytes-replicate zero = tt
AreBytes-replicate (suc n) = (omega arith, AreBytes-replicate n)

erased-FillLaws : FillLaws erased
erased-FillLaws = record {
  are_bytes = λ d k n. AreBytes-replicate n;
  fills = λ d k n done full. length-replicate n 255;
}

abbrev erased_handle : Handle erased
erased_handle = record { kvdb = []; initialized = true; last_error = no_err }

getters-range_instance :
    InI32 (get_i32 erased erased_handle "n" (pos 0)).0
    × ((get_u32 erased erased_handle "n" 0).0 < 2 ^ 32)
    × ((get_u8 erased erased_handle "n" 0).0 < 256)
getters-range_instance =
    getters-range erased erased-FillLaws erased_handle "n" (pos 0) 0 0 (omega arith) (omega arith)
      (omega arith)
