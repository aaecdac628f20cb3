-- ===== src/Flash/Memory.antt =====
-- A database in memory that keeps the laws of FlashDB; values of more than 64 bytes do not fit.
use base_utilities_esp.Base.{
  ℕ, ◌≤◌, String, ◌≡◌, refl, Bool, true, false, Option, none, some, List, [], ◌∷◌, arith, str_eq,
  eq_iff, ltb, length, take, if◌then◌else◌,
}
use base_utilities_esp.Flash.{
  FdbErr, no_err, part_not_found, kv_name_err, saved_full, is_ok, FlashDb, FlashLaws,
}

abbrev pub Entries : Type 0
Entries = List (String × List ℕ)

unfoldable pub find : Entries → String → Option (List ℕ)
find [] k = none
find ((j, v) ∷ d) k = if str_eq j k then some v else find d k

unfoldable pub without : Entries → String → Entries
without [] k = []
without ((j, v) ∷ d) k = let rest = without d k in if str_eq j k then rest else (j, v) ∷ rest

find-without :
    (d : Entries) (k j : String) → find (without d k) j ≡ (if str_eq k j then none else find d j)
unfolding find without
find-without [] k j = ground arith
find-without ((i, v) ∷ d) k j =
    ground (arith, find-without d k j, eq_iff i k, eq_iff i j, eq_iff k j)

abbrev mem_get : Option (List ℕ) → FdbErr
mem_get none = kv_name_err
mem_get (some b) = no_err

abbrev mem_len : Option (List ℕ) → ℕ → FdbErr × ℕ
mem_len none n = (kv_name_err, n)
mem_len (some b) n = (no_err, length b)

abbrev mem_blob : Option (List ℕ) → ℕ → FdbErr × List ℕ × ℕ
mem_blob none n = (kv_name_err, [], n)
mem_blob (some b) n = if ltb n (length b) then (no_err, take n b, n) else (no_err, b, length b)

abbrev mem_set : Entries → String → List ℕ → FdbErr × Entries
mem_set d k b = if ltb 64 (length b) then (saved_full, d) else (no_err, (k, b) ∷ without d k)

abbrev mem_del : Option (List ℕ) → Entries → String → FdbErr × Entries
mem_del none d k = (kv_name_err, d)
mem_del (some b) d k = (no_err, without d k)

abbrev mem_head : Entries → Option Entries
mem_head [] = none
mem_head (e ∷ d) = some (e ∷ d)

abbrev mem_next : Entries → Option Entries
mem_next [] = none
mem_next (e ∷ d) = mem_head d

abbrev mem_node : Entries → FdbErr × String × List ℕ
mem_node [] = (kv_name_err, "", [])
mem_node ((k, b) ∷ d) = (no_err, k, b)

abbrev pub memory : FlashDb
memory = record {
  Db = Entries;
  Part = Bool;
  Node = Entries;
  kvdb_init = λ d name part. (if part then no_err else part_not_found, d);
  kvdb_deinit = λ d. d;
  kv_get = λ d k. mem_get (find d k);
  kv_get_len = λ d k n. mem_len (find d k) n;
  kv_get_blob = λ d k n. mem_blob (find d k) n;
  kv_set_blob = mem_set;
  kv_del = λ d k. mem_del (find d k) d k;
  kvdb_clean = λ d. (no_err, []);
  used_size = λ d. length d;
  part_size = λ d. 4096;
  head_node = mem_head;
  next_node = mem_next;
  node_kv = mem_node;
}

blob_fits :
    (o : Option (List ℕ)) (b : List ℕ) (n : ℕ)
    → o ≡ some b
    → length b ≤ n
    → mem_blob o n ≡ (no_err, b, length b)
blob_fits o b n e h = ground arith

set_lookup :
    (d : Entries) (k j : String) (b : List ℕ)
    → is_ok (mem_set d k b).0 ≡ true
    → find (mem_set d k b).1 j ≡ (if str_eq k j then some b else find d j)
unfolding find
set_lookup d k j b h = ground (arith, find-without d k j)

set_unchanged :
    (d : Entries) (k j : String) (b : List ℕ)
    → is_ok (mem_set d k b).0 ≡ false
    → find (mem_set d k b).1 j ≡ find d j
set_unchanged d k j b h = ground arith

del_lookup :
    (o : Option (List ℕ)) (d : Entries) (k j : String)
    → is_ok (mem_del o d k).0 ≡ true
    → find (mem_del o d k).1 j ≡ (if str_eq k j then none else find d j)
del_lookup none d k j h = ground arith
del_lookup (some b) d k j h = find-without d k j

del_unchanged :
    (o : Option (List ℕ)) (d : Entries) (k j : String)
    → is_ok (mem_del o d k).0 ≡ false
    → find (mem_del o d k).1 j ≡ find d j
del_unchanged o d k j h = ground arith

pub memory-FlashLaws : FlashLaws memory find
memory-FlashLaws = record {
  get_found = λ d k b e. ground arith;
  get_missing = λ d k e. ground arith;
  len_found = λ d k b n e. ground arith;
  len_missing = λ d k n e. ground arith;
  blob_found = λ d k b n. blob_fits (find d k) b n;
  blob_missing = λ d k n e. ground arith;
  set_done = λ d k j b nonempty. set_lookup d k j b;
  set_failed = set_unchanged;
  del_done = λ d k j. del_lookup (find d k) d k j;
  del_failed = λ d k j. del_unchanged (find d k) d k j;
  del_missing = λ d k e. ground arith;
  clean_done = λ d j h. unfold find in refl;
}
