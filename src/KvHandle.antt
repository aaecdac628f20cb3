-- ===== src/KvHandle.antt =====
-- include/KVHandle.hpp: the class KVHandle over FlashDB. A method returns its result and the new
-- handle; the getters are among them, since they write the mutable `m_last_error`. A value that was
-- read is what the call put into its buffer.
pub mod Stored
pub mod Proxy
pub mod Typed
pub mod Foreach
pub mod Lifecycle
pub mod Reads
pub mod Ranges
mod Tests
use base_utilities_esp.Base.{
  ℕ, zero, suc, ◌+◌, ◌-◌, ◌%◌, ◌^◌, String, Bool, true, false, ◌&&◌, Option, none, some, List, [],
  ◌∷◌, ◌++◌, length, take, replicate, ◌==◌, if◌then◌else◌, ℤ, le_bytes, le_value, i32_bits,
  bits_i32, is_empty, not,
}
use base_utilities_esp.Flash.{FdbErr, no_err, is_ok, FlashDb}

pub record Handle (F : FlashDb) : Type 0 where
  pub kvdb : F.Db
  pub initialized : Bool
  pub last_error : FdbErr

-- std::string::resize and std::vector::resize.
abbrev pub resize : ℕ → List ℕ → List ℕ
resize zero xs = []
resize (suc n) [] = 0 ∷ resize n []
resize (suc n) (x ∷ xs) = x ∷ resize n xs

-- A buffer after a call has put bytes at its front.
abbrev pub overwrite : List ℕ → List ℕ → List ℕ
overwrite [] bs = []
overwrite (x ∷ xs) [] = x ∷ xs
overwrite (x ∷ xs) (b ∷ bs) = b ∷ overwrite xs bs

module _ (F : FlashDb) where
  -- `KVHandle()`; the object that `m_kvdb` starts as is arbitrary.
  abbrev pub make : F.Db → Handle F
  make d = record { kvdb = d; initialized = false; last_error = no_err }

  -- `init(fdb_partition_t*)`
  unfoldable pub init : Handle F → F.Part → Bool × Handle F
  init h part =
      if h.initialized
      then (true, h)
      else let (err, d) = F.kvdb_init h.kvdb "kvdb" part in
        if is_ok err
        then (true, record h { kvdb = d; initialized = true })
        else (false, record h { kvdb = d })

  -- `init(fdb_kvdb_t*)`
  unfoldable pub init_existing : Handle F → F.Db → Bool × Handle F
  init_existing h existing =
      if h.initialized then (true, h) else (true, record h { kvdb = existing; initialized = true })

  unfoldable pub deinit : Handle F → Handle F
  deinit h =
      if h.initialized then record h { kvdb = F.kvdb_deinit h.kvdb; initialized = false } else h

  -- The move constructor: the new handle, and the one moved from.
  unfoldable pub move : Handle F → Handle F × Handle F
  move other =
      let h : Handle F = record {
        kvdb = other.kvdb;
        initialized = other.initialized;
        last_error = no_err;
      } in
      (h, record other { initialized = false })

  -- Move assignment between two handles; `same` is `this == &other`.
  unfoldable pub move_assign : Bool → Handle F → Handle F → Handle F × Handle F
  unfolding deinit
  move_assign same h other = if same then (h, other) else (
    record (deinit h) { kvdb = other.kvdb; initialized = other.initialized },
    record other { initialized = false },
  )

  unfoldable pub has : Handle F → String → Bool
  has h key = if h.initialized then is_ok (F.kv_get h.kvdb key) else false

  unfoldable pub erase : Handle F → String → Bool × Handle F
  erase h key =
      if not h.initialized
      then (false, h)
      else let (err, d) = F.kv_del h.kvdb key in
        (is_ok err, record h { kvdb = d; last_error = err })

  unfoldable pub clear : Handle F → Bool × Handle F
  clear h =
      if not h.initialized
      then (false, h)
      else let (err, d) = F.kvdb_clean h.kvdb in
        (is_ok err, record h { kvdb = d; last_error = err })

  unfoldable pub used_size : Handle F → ℕ
  used_size h = if h.initialized then F.used_size h.kvdb else 0

  -- The difference of two `size_t`, of 32 bits.
  unfoldable pub available_size : Handle F → ℕ
  available_size h =
      if h.initialized then (F.part_size h.kvdb + 2 ^ 32 - F.used_size h.kvdb) % 2 ^ 32 else 0

  unfoldable pub set_blob : Handle F → String → List ℕ → Bool × Handle F
  set_blob h key bytes =
      if not h.initialized
      then (false, h)
      else let (err, d) = F.kv_set_blob h.kvdb key bytes in
        (is_ok err, record h { kvdb = d; last_error = err })

  -- The last lines of `get_blob`, from the buffer of `len` bytes on.
  read_blob : Handle F → String → ℕ → Bool × List ℕ × Handle F
  read_blob h key len =
      let out : List ℕ = resize len [] in
      let (err, bytes, len') = F.kv_get_blob h.kvdb key len in
      if is_ok err
      then (true, resize len' (overwrite out bytes), h)
      else (false, out, record h { last_error = err })

  -- The result, the vector `out` after the call, and the handle.
  unfoldable pub get_blob : Handle F → String → List ℕ → Bool × List ℕ × Handle F
  unfolding read_blob
  get_blob h key out =
      if not h.initialized
      then (false, out, h)
      else let (err, len) = F.kv_get_len h.kvdb key 0 in
        if is_ok err then read_blob h key len else (false, out, record h { last_error = err })

  unfoldable pub set_i32 : Handle F → String → ℤ → Bool × Handle F
  unfolding set_blob
  set_i32 h key value = set_blob h key (le_bytes 4 (i32_bits value))

  unfoldable pub get_i32 : Handle F → String → ℤ → ℤ × Handle F
  get_i32 h key default_val =
      if not h.initialized
      then (default_val, h)
      else let (err, bytes, len) = F.kv_get_blob h.kvdb key 4 in
        if is_ok err && len == 4
        then (bits_i32 (le_value bytes), h)
        else (default_val, record h { last_error = err })

  unfoldable pub set_u32 : Handle F → String → ℕ → Bool × Handle F
  unfolding set_blob
  set_u32 h key value = set_blob h key (le_bytes 4 value)

  -- No test of `m_initialized`, here and in `get_u8` and `get_bool`.
  unfoldable pub get_u32 : Handle F → String → ℕ → ℕ × Handle F
  get_u32 h key default_val =
      let (err, bytes, len) = F.kv_get_blob h.kvdb key 4 in
      if is_ok err && len == 4
      then (le_value bytes, h)
      else (default_val, record h { last_error = err })

  unfoldable pub set_u8 : Handle F → String → ℕ → Bool × Handle F
  unfolding set_blob
  set_u8 h key value = set_blob h key (le_bytes 1 value)

  unfoldable pub get_u8 : Handle F → String → ℕ → ℕ × Handle F
  get_u8 h key default_val =
      let (err, bytes, len) = F.kv_get_blob h.kvdb key 1 in
      if is_ok err && len == 1
      then (le_value bytes, h)
      else (default_val, record h { last_error = err })

  unfoldable pub set_bool : Handle F → String → Bool → Bool × Handle F
  unfolding set_blob
  set_bool h key value = set_blob h key (le_bytes 1 (if value then 1 else 0))

  unfoldable pub get_bool : Handle F → String → Bool → Bool × Handle F
  get_bool h key default_val =
      let (err, bytes, len) = F.kv_get_blob h.kvdb key 1 in
      if is_ok err && len == 1
      then (not (le_value bytes == 0), h)
      else (default_val, record h { last_error = err })

  unfoldable pub set_string : Handle F → String → List ℕ → Bool × Handle F
  unfolding set_blob
  set_string h key value = set_blob h key value

  read_string : Handle F → String → List ℕ → ℕ → List ℕ × Handle F
  read_string h key default_val len =
      let (err, bytes, len') = F.kv_get_blob h.kvdb key len in
      if is_ok err
      then (resize len' (overwrite (resize len []) bytes), h)
      else (default_val, record h { last_error = err })

  unfoldable pub get_string : Handle F → String → List ℕ → List ℕ × Handle F
  unfolding read_string
  get_string h key default_val =
      if not h.initialized
      then (default_val, h)
      else let (err, len) = F.kv_get_len h.kvdb key 0 in
        if is_ok err
        then read_string h key default_val len
        else (default_val, record h { last_error = err })

  -- `set<T>` and `get<T>` of a POD type, by the bytes of its objects; `size` is sizeof(T).
  unfoldable pub set_pod : Handle F → String → List ℕ → Bool × Handle F
  unfolding set_blob
  set_pod h key object = set_blob h key object

  unfoldable pub get_pod : Handle F → String → ℕ → List ℕ → List ℕ × Handle F
  get_pod h key size default_val =
      if not h.initialized
      then (default_val, h)
      else let (err, bytes, len) = F.kv_get_blob h.kvdb key size in
        if is_ok err && len == size
        then (bytes, h)
        else (default_val, record h { last_error = err })
