-- ===== src/KvHandle/Reads.antt =====
-- The getters of KVHandle on a missing key, and that they write nothing but `m_last_error`.
use base_utilities_esp.Base.{ℕ, String, ◌≡◌, Bool, false, Option, none, List, arith, ℤ}
use base_utilities_esp.Flash.{FlashDb, FlashLaws}
use base_utilities_esp.KvHandle.{Handle, get_i32, get_u32, get_u8, get_bool, get_string, get_blob}

-- The two handles have the same database and are open or not alike.
abbrev pub SameDb : (F : FlashDb) → Handle F → Handle F → Type 0
SameDb F h h' = (h'.kvdb ≡ h.kvdb) × (h'.initialized ≡ h.initialized)

module _ (F : FlashDb) (h : Handle F) (k : String) where
  pub get_i32-same : (d : ℤ) → SameDb F h (get_i32 F h k d).1
  unfolding get_i32
  get_i32-same d = ground arith

  pub get_u32-same : (d : ℕ) → SameDb F h (get_u32 F h k d).1
  unfolding get_u32
  get_u32-same d = ground arith

  pub get_u8-same : (d : ℕ) → SameDb F h (get_u8 F h k d).1
  unfolding get_u8
  get_u8-same d = ground arith

  pub get_bool-same : (d : Bool) → SameDb F h (get_bool F h k d).1
  unfolding get_bool
  get_bool-same d = ground arith

  pub get_string-same : (d : List ℕ) → SameDb F h (get_string F h k d).1
  unfolding get_string
  get_string-same d = ground arith

  pub get_blob-same : (out : List ℕ) → SameDb F h (get_blob F h k out).2
  unfolding get_blob
  get_blob-same out = ground arith

module _ (F : FlashDb) (lookup : F.Db → String → Option (List ℕ)) (L : FlashLaws F lookup)
    (h : Handle F) (k : String) (gone : lookup h.kvdb k ≡ none) where
  pub get_i32_missing : (d : ℤ) → (get_i32 F h k d).0 ≡ d
  unfolding get_i32
  get_i32_missing d = ground (arith, L.blob_missing h.kvdb k 4 gone)

  pub get_u32_missing : (d : ℕ) → (get_u32 F h k d).0 ≡ d
  unfolding get_u32
  get_u32_missing d = ground (arith, L.blob_missing h.kvdb k 4 gone)

  pub get_u8_missing : (d : ℕ) → (get_u8 F h k d).0 ≡ d
  unfolding get_u8
  get_u8_missing d = ground (arith, L.blob_missing h.kvdb k 1 gone)

  pub get_bool_missing : (d : Bool) → (get_bool F h k d).0 ≡ d
  unfolding get_bool
  get_bool_missing d = ground (arith, L.blob_missing h.kvdb k 1 gone)

  pub get_string_missing : (d : List ℕ) → (get_string F h k d).0 ≡ d
  unfolding get_string
  get_string_missing d = ground (arith, L.len_missing h.kvdb k 0 gone)

  pub get_blob_missing : (out : List ℕ) → (get_blob F h k out).0 ≡ false
  unfolding get_blob
  get_blob_missing out = ground (arith, L.len_missing h.kvdb k 0 gone)
