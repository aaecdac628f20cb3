-- ===== src/Nvs/MemoryMap.antt =====
-- The NVS namespace in memory keeps the laws about the entries as a whole.
use base_utilities_esp.Base.{
  String, ◌≡◌, refl, ap, true, false, none, List, [], ◌∷◌, arith, str_eq, eq_iff, if◌then◌else◌,
}
use base_utilities_esp.Nvs.{Entry, i32, u32, u8, text, blob}
use base_utilities_esp.Nvs.Map.{NvsMapLaws, set_entry}
use base_utilities_esp.Nvs.Memory.{
  Namespace, memory, lookup, find, without, put, remove, to_i32, to_u32, to_u8, to_text, to_blob,
}

find-without :
    (d : List (String × Entry)) (k j : String)
    → find (without d k) j ≡ (if str_eq k j then none else find d j)
unfolding find without
find-without [] k j = ground arith
find-without ((i, v) ∷ d) k j =
    ground (arith, find-without d k j, eq_iff i k, eq_iff i j, eq_iff k j)

put-other :
    (s : Namespace) (k j : String) (e : Entry)
    → str_eq k j ≡ false
    → lookup (put s k e).1 j ≡ lookup s j
unfolding put find
put-other s k j e n = ground (arith, find-without s.entries k j)

is_open-put :
    (s : Namespace) (k : String) (e : Entry) → s.is_open ≡ true → (put s k e).1.is_open ≡ true
unfolding put
is_open-put s k e o = ground arith

set_other :
    (s : Namespace) (k j : String) (e : Entry)
    → str_eq k j ≡ false
    → lookup (set_entry memory s k e).1 j ≡ lookup s j
set_other s k j (i32 z) n = put-other s k j (i32 z) n
set_other s k j (u32 x) n = put-other s k j (u32 x) n
set_other s k j (u8 x) n = put-other s k j (u8 x) n
set_other s k j (text t) n = put-other s k j (text t) n
set_other s k j (blob b) n = ground (arith, put-other s k j (blob b) n)

set_open :
    (s : Namespace) (k : String) (e : Entry)
    → s.is_open ≡ true
    → (set_entry memory s k e).1.is_open ≡ true
set_open s k (i32 z) o = is_open-put s k (i32 z) o
set_open s k (u32 n) o = is_open-put s k (u32 n) o
set_open s k (u8 n) o = is_open-put s k (u8 n) o
set_open s k (text t) o = is_open-put s k (text t) o
set_open s k (blob b) o = ground (arith, is_open-put s k (blob b) o)

remove-done :
    (s : Namespace) (k j : String)
    → (remove s k).0 ≡ true
    → lookup (remove s k).1 j ≡ (if str_eq k j then none else lookup s j)
unfolding remove
remove-done s k j e = ground (arith, find-without s.entries k j)

remove-failed :
    (s : Namespace) (k j : String) → (remove s k).0 ≡ false → lookup (remove s k).1 j ≡ lookup s j
unfolding remove
remove-failed s k j e = ground arith

remove-missing : (s : Namespace) (k : String) → lookup s k ≡ none → (remove s k).0 ≡ false
unfolding remove
remove-missing s k e = ground arith

is_open-remove : (s : Namespace) (k : String) → s.is_open ≡ true → (remove s k).1.is_open ≡ true
unfolding remove
is_open-remove s k e = ground arith

find-nil : (k : String) → find [] k ≡ none
unfolding find
find-nil k = refl

pub memory-NvsMapLaws : NvsMapLaws memory lookup
memory-NvsMapLaws = record {
  set_other = set_other;
  set_open = set_open;
  i32_missing = λ s k d e. ap (λ o. to_i32 o d) e;
  u32_missing = λ s k d e. ap (λ o. to_u32 o d) e;
  u8_missing = λ s k d e. ap (λ o. to_u8 o d) e;
  text_missing = λ s k d e. ap (λ o. to_text o d) e;
  blob_missing = λ s k n e. ap (λ o. (to_blob o false n).0) e;
  has_entry = λ s k o. refl;
  erase_done = remove-done;
  erase_failed = remove-failed;
  erase_missing = remove-missing;
  erase_open = is_open-remove;
  erase_all_done = λ s j e. ground (arith, find-nil j);
  erase_all_open = λ s e. ground arith;
  commit_same = λ s j. refl;
  commit_open = λ s e. e;
}
