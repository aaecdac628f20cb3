-- ===== src/Nvs/Memory.antt =====
-- An NVS namespace in memory that keeps the laws of NVS; no blob of more than 64 bytes fits.
use package.text.Mathlib.TextPositions.{eq_refl}
use base_utilities_esp.Base.{
  ℕ, String, ◌≡◌, ap, ◌∙◌, Bool, true, false, ◌&&◌, Option, none, some, List, [], ◌∷◌, arith,
  str_eq, ltb, length, is_some, if◌then◌else◌, ℤ,
}
use base_utilities_esp.Nvs.{
  Mode, nvs_readonly, nvs_readwrite, Entry, i32, u32, u8, text, blob, Nvs, NvsLaws,
}

pub record Namespace : Type 0 where
  pub entries : List (String × Entry)
  pub is_open : Bool
  pub writable : Bool

unfoldable pub find : List (String × Entry) → String → Option Entry
find [] k = none
find ((j, v) ∷ d) k = if str_eq j k then some v else find d k

abbrev pub lookup : Namespace → String → Option Entry
lookup s k = find s.entries k

unfoldable pub without : List (String × Entry) → String → List (String × Entry)
without [] k = []
without ((j, v) ∷ d) k = let rest = without d k in if str_eq j k then rest else (j, v) ∷ rest

unfoldable pub put : Namespace → String → Entry → Bool × Namespace
unfolding without
put s k e =
    if s.is_open && s.writable
    then (true, record s { entries = (k, e) ∷ without s.entries k })
    else (false, s)

unfoldable pub remove : Namespace → String → Bool × Namespace
unfolding without
remove s k =
    if s.is_open && is_some (lookup s k)
    then (true, record s { entries = without s.entries k })
    else (false, s)

put-find :
    (s : Namespace) (k : String) (e : Entry)
    → (put s k e).0 ≡ true
    → lookup (put s k e).1 k ≡ some e
unfolding put find
put-find s k e done = ground (arith, eq_refl k)

put-open :
    (s : Namespace) (k : String) (e : Entry) → (put s k e).0 ≡ true → (put s k e).1.is_open ≡ true
unfolding put
put-open s k e done = ground arith

abbrev pub to_i32 : Option Entry → ℤ → ℤ
to_i32 (some (i32 z)) d = z
to_i32 _ d = d

abbrev pub to_u32 : Option Entry → ℕ → ℕ
to_u32 (some (u32 n)) d = n
to_u32 _ d = d

abbrev pub to_u8 : Option Entry → ℕ → ℕ
to_u8 (some (u8 n)) d = n
to_u8 _ d = d

abbrev pub to_text : Option Entry → List ℕ → List ℕ
to_text (some (text t)) d = t
to_text _ d = d

abbrev pub to_blob : Option Entry → Bool → ℕ → Bool × List ℕ × ℕ
to_blob (some (blob b)) true n = (true, [], length b)
to_blob (some (blob b)) false n =
    if ltb n (length b) then (false, [], length b) else (true, b, length b)
to_blob _ null n = (false, [], n)

abbrev writes : Mode → Bool
writes nvs_readonly = false
writes nvs_readwrite = true

abbrev pub memory : Nvs
memory = record {
  State = Namespace;
  make = λ name mode. record { entries = []; is_open = false; writable = writes mode };
  start = λ s. (true, record s { is_open = true });
  close = λ s. record s { is_open = false };
  commit = λ s. (s.is_open, s);
  is_open = λ s. s.is_open;
  has = λ s k. is_some (lookup s k);
  erase = remove;
  erase_all = λ s. if s.is_open then (true, record s { entries = [] }) else (false, s);
  set_i32 = λ s k z. put s k (i32 z);
  get_i32 = λ s k d. to_i32 (lookup s k) d;
  set_u32 = λ s k n. put s k (u32 n);
  get_u32 = λ s k d. to_u32 (lookup s k) d;
  set_u8 = λ s k n. put s k (u8 n);
  get_u8 = λ s k d. to_u8 (lookup s k) d;
  set_string = λ s k t. put s k (text t);
  get_string = λ s k d. to_text (lookup s k) d;
  set_blob = λ s k b. if ltb 64 (length b) then (false, s) else put s k (blob b);
  nvs_get_blob = λ s k null n. to_blob (lookup s k) null n;
}

blob_found :
    (s : Namespace) (k : String) (b : List ℕ)
    → (memory.set_blob s k b).0 ≡ true
    → (lookup (memory.set_blob s k b).1 k ≡ some (blob b))
      × ((memory.set_blob s k b).1.is_open ≡ true)
blob_found s k b done = ground (arith, put-find s k (blob b), put-open s k (blob b))

whole_blob : (b : List ℕ) → to_blob (some (blob b)) false (length b) ≡ (true, b, length b)
whole_blob b = ground arith

pub memory-NvsLaws : NvsLaws memory lookup
memory-NvsLaws = record {
  i32_set = λ s k z. put-find s k (i32 z);
  u32_set = λ s k n. put-find s k (u32 n);
  u8_set = λ s k n. put-find s k (u8 n);
  text_set = λ s k t. put-find s k (text t);
  blob_set = λ s k b done. (blob_found s k b done).0;
  blob_open = λ s k b done. (blob_found s k b done).1;
  i32_get = λ s k z d e. ap (λ o. to_i32 o d) e;
  u32_get = λ s k n d e. ap (λ o. to_u32 o d) e;
  u8_get = λ s k n d e. ap (λ o. to_u8 o d) e;
  text_get = λ s k t d e. ap (λ o. to_text o d) e;
  blob_length = λ s k b n e. ap (λ o. to_blob o true n) e;
  blob_get = λ s k b e. ap (λ o. to_blob o false (length b)) e ∙ whole_blob b;
}
