-- ===== src/KvHandle/Typed.antt =====
-- Typed values written to a KVHandle and read back.
use text.Mathlib.TextPositions.{eq_refl}
use base_utilities_esp.Base.{
  ℕ, ◌^◌, ◌≤◌, ◌<◌, String, ◌≡◌, ◌≢◌, refl, ap, Bool, true, false, Option, some, List, [], arith,
  length, if◌then◌else◌, ℤ, InI32, le_bytes, i32_bits, i32_bits-lt, bits_i32-i32_bits,
  le_value-le_bytes, length-le_bytes,
}
use base_utilities_esp.Flash.{FlashDb, FlashLaws, no_err}
use base_utilities_esp.KvHandle.{
  Handle, set_blob, set_i32, set_u32, set_u8, set_bool, set_string, set_pod, get_blob, get_i32,
  get_u32, get_u8, get_bool, get_string, get_pod,
}
use base_utilities_esp.KvHandle.Stored.{resize-overwrite, lookup-set_blob, get_blob_found}
use base_utilities_esp.KvHandle.Proxy.{
  Value, i32, u32, u8, boolean, string, double, float, kind, InRange, store, assign, convert,
}

pub le_bytes-nonempty : (w n : ℕ) → 1 ≤ w → le_bytes w n ≢ []
le_bytes-nonempty w n h e = omega (arith, ap length e, length-le_bytes w n)

pub nonempty_of_length : (n : ℕ) (d : List ℕ) → length d ≡ n → 1 ≤ n → d ≢ []
nonempty_of_length n d e h p = omega (arith, ap length p)

module _ (F : FlashDb) (lookup : F.Db → String → Option (List ℕ)) (L : FlashLaws F lookup)
    (h : Handle F) (k : String) where
  -- What the scalar getters read: `length b` bytes into a buffer of that size.
  exact_read :
      (b : List ℕ) (n : ℕ)
      → lookup h.kvdb k ≡ some b
      → length b ≡ n
      → F.kv_get_blob h.kvdb k n ≡ (no_err, b, n)
  exact_read b n e len = rw (← len) (L.blob_found h.kvdb k b (length b) e (omega arith))

  pub get_i32_found :
      (z d : ℤ)
      → InI32 z
      → h.initialized ≡ true
      → lookup h.kvdb k ≡ some (le_bytes 4 (i32_bits z))
      → get_i32 F h k d ≡ (z, h)
  unfolding get_i32
  get_i32_found z d r ready e = rw (
    ready,
    get_i32,
    exact_read _ 4 e (length-le_bytes 4 (i32_bits z)),
    le_value-le_bytes 4 _ (i32_bits-lt z),
    bits_i32-i32_bits z r,
  )

  pub get_u32_found :
      (n d : ℕ) → n < 2 ^ 32 → lookup h.kvdb k ≡ some (le_bytes 4 n) → get_u32 F h k d ≡ (n, h)
  unfolding get_u32
  get_u32_found n d r e = rw (exact_read _ 4 e (length-le_bytes 4 n), le_value-le_bytes 4 n r)

  pub get_u8_found :
      (n d : ℕ) → n < 256 → lookup h.kvdb k ≡ some (le_bytes 1 n) → get_u8 F h k d ≡ (n, h)
  unfolding get_u8
  get_u8_found n d r e = rw (exact_read _ 1 e (length-le_bytes 1 n), le_value-le_bytes 1 n r)

  pub get_bool_found :
      (b d : Bool)
      → lookup h.kvdb k ≡ some (le_bytes 1 (if b then 1 else 0))
      → get_bool F h k d ≡ (b, h)
  unfolding get_bool
  get_bool_found true d e =
      rw (exact_read _ 1 e (length-le_bytes 1 1), le_value-le_bytes 1 1 (omega arith))
  get_bool_found false d e =
      rw (exact_read _ 1 e (length-le_bytes 1 0), le_value-le_bytes 1 0 (omega arith))

  pub get_string_found :
      (s d : List ℕ) → h.initialized ≡ true → lookup h.kvdb k ≡ some s → get_string F h k d ≡ (s, h)
  unfolding get_string
  get_string_found s d ready e = rw (
    ready,
    get_string,
    L.len_found h.kvdb k s 0 e,
    exact_read s (length s) e refl,
    resize-overwrite s,
  )

  pub get_pod_found :
      (b d : List ℕ) (n : ℕ)
      → length b ≡ n
      → h.initialized ≡ true
      → lookup h.kvdb k ≡ some b
      → get_pod F h k n d ≡ (b, h)
  unfolding get_pod
  get_pod_found b d n len ready e = ground (arith, exact_read b n e len)

  pub set_blob-ready :
      (b : List ℕ) → (set_blob F h k b).0 ≡ true → (set_blob F h k b).1.initialized ≡ true
  unfolding set_blob
  set_blob-ready b done = ground arith

  pub set_blob-stores :
      (b : List ℕ)
      → b ≢ []
      → (set_blob F h k b).0 ≡ true
      → lookup (set_blob F h k b).1.kvdb k ≡ some b
  set_blob-stores b nonempty done =
      rw (lookup-set_blob F lookup L h k k b nonempty, done, eq_refl k)

-- A getter after the setter of its type, if that reported success.
module _ (F : FlashDb) (lookup : F.Db → String → Option (List ℕ)) (L : FlashLaws F lookup)
    (h : Handle F) (k : String) where
  pub get_i32-set_i32 :
      (z d : ℤ)
      → InI32 z
      → (set_i32 F h k z).0 ≡ true
      → get_i32 F (set_i32 F h k z).1 k d ≡ (z, (set_i32 F h k z).1)
  unfolding set_i32
  get_i32-set_i32 z d r done =
      get_i32_found F lookup L _ k z d r (set_blob-ready F lookup L h k _ done)
        (set_blob-stores F lookup L h k _ (le_bytes-nonempty 4 _ (omega arith)) done)

  pub get_u32-set_u32 :
      (n d : ℕ)
      → n < 2 ^ 32
      → (set_u32 F h k n).0 ≡ true
      → get_u32 F (set_u32 F h k n).1 k d ≡ (n, (set_u32 F h k n).1)
  unfolding set_u32
  get_u32-set_u32 n d r done =
      get_u32_found F lookup L _ k n d r
        (set_blob-stores F lookup L h k _ (le_bytes-nonempty 4 n (omega arith)) done)

  pub get_u8-set_u8 :
      (n d : ℕ)
      → n < 256
      → (set_u8 F h k n).0 ≡ true
      → get_u8 F (set_u8 F h k n).1 k d ≡ (n, (set_u8 F h k n).1)
  unfolding set_u8
  get_u8-set_u8 n d r done =
      get_u8_found F lookup L _ k n d r
        (set_blob-stores F lookup L h k _ (le_bytes-nonempty 1 n (omega arith)) done)

  pub get_bool-set_bool :
      (b d : Bool)
      → (set_bool F h k b).0 ≡ true
      → get_bool F (set_bool F h k b).1 k d ≡ (b, (set_bool F h k b).1)
  unfolding set_bool
  get_bool-set_bool b d done =
      get_bool_found F lookup L _ k b d
        (set_blob-stores F lookup L h k _ (le_bytes-nonempty 1 _ (omega arith)) done)

  pub get_string-set_string :
      (s d : List ℕ)
      → s ≢ []
      → (set_string F h k s).0 ≡ true
      → get_string F (set_string F h k s).1 k d ≡ (s, (set_string F h k s).1)
  unfolding set_string
  get_string-set_string s d r done =
      get_string_found F lookup L _ k s d (set_blob-ready F lookup L h k s done)
        (set_blob-stores F lookup L h k s r done)

  pub get_pod-set_pod :
      (b d : List ℕ) (n : ℕ)
      → b ≢ []
      → length b ≡ n
      → (set_pod F h k b).0 ≡ true
      → get_pod F (set_pod F h k b).1 k n d ≡ (b, (set_pod F h k b).1)
  unfolding set_pod
  get_pod-set_pod b d n r len done =
      get_pod_found F lookup L _ k b d n len (set_blob-ready F lookup L h k b done)
        (set_blob-stores F lookup L h k b r done)

  pub get_blob-set_blob :
      (b out : List ℕ)
      → b ≢ []
      → (set_blob F h k b).0 ≡ true
      → ((set_blob F h k b).1.initialized ≡ true)
        × (get_blob F (set_blob F h k b).1 k out ≡ (true, b, (set_blob F h k b).1))
  get_blob-set_blob b out r done =
      let ready = set_blob-ready F lookup L h k b done in
      (ready, get_blob_found F lookup L _ k b out ready (set_blob-stores F lookup L h k b r done))

  -- If the setter behind `kv[key] = v` reports success, the conversion of `kv[key]` to the type of
  -- `v` gives `v`, for every type and every value of it but the empty string, and changes nothing.
  pub convert-assign :
      (v : Value)
      → InRange v
      → (store F h k v).0 ≡ true
      → convert F (assign F h k v) k (kind v) ≡ (v, assign F h k v)
  unfolding assign store convert
  convert-assign (i32 z) r done = cc (get_i32-set_i32 z _ r done)
  convert-assign (u32 n) r done = rw (get_u32-set_u32 n _ r done)
  convert-assign (u8 n) r done = rw (get_u8-set_u8 n _ r done)
  convert-assign (boolean b) r done = rw (get_bool-set_bool b _ done)
  convert-assign (string s) r done = rw (get_string-set_string s _ r done)
  convert-assign (double d) r done =
      rw (get_pod-set_pod d _ 8 (nonempty_of_length 8 d r (omega arith)) r done)
  convert-assign (float d) r done =
      rw (get_pod-set_pod d _ 4 (nonempty_of_length 4 d r (omega arith)) r done)
