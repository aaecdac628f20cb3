-- ===== src/Kvdb/Blobs.antt =====
-- KVDB::get_blob into a vector, which asks the backend for the length through a null pointer first,
-- and KVDB::open on the FlashDB backend.
use base_utilities_esp.Base.{
  ℕ, String, ◌≡◌, refl, sym, ap, subst, ◌∙◌, Bool, true, false, Option, some, List, [], ◌∷◌, arith,
  length, is_empty, if◌then◌else◌,
}
use base_utilities_esp.Flash.{FlashDb, FlashLaws}
use base_utilities_esp.KvHandle.{resize, overwrite}
use base_utilities_esp.KvHandle.Stored.{get_blob_found}
use base_utilities_esp.KvHandle.Lifecycle.{init_lem}
use base_utilities_esp.Nvs.{Nvs, Entry, blob, NvsLaws}
use base_utilities_esp.Kvdb.Impl.{
  nvs_impl, flashdb_impl, FlashdbState, nvs_get_blob, flashdb_get_blob,
}
use base_utilities_esp.Kvdb.{Kvdb, get_blob, start, is_open}
use base_utilities_esp.Kvdb.Proxy.{object, some_pair}

overwrite-resize : (b out : List ℕ) → overwrite (resize (length b) out) b ≡ b
overwrite-resize [] out = refl
overwrite-resize (x ∷ b) [] = ap (◌∷◌ x) (overwrite-resize b [])
overwrite-resize (x ∷ b) (y ∷ out) = ap (◌∷◌ x) (overwrite-resize b out)

module _ (F : FlashDb) (lookup : F.Db → String → Option (List ℕ)) (L : FlashLaws F lookup) where
  flashdb_get_blob_found :
      (s : FlashdbState F) (k : String) (null : Bool) (b : List ℕ)
      → s.kv.initialized ≡ true
      → lookup s.kv.kvdb k ≡ some b
      → flashdb_get_blob F s k null 0 ≡ (is_empty b, [], length b, s)
  unfolding flashdb_get_blob
  flashdb_get_blob_found s k null [] ready found =
      rw (get_blob_found F lookup L s.kv k [] [] ready found)
  flashdb_get_blob_found s k null (x ∷ b) ready found =
      ground (arith, get_blob_found F lookup L s.kv k (x ∷ b) [] ready found)

  -- With FlashDB behind it, `get_blob` into a vector of a blob that is stored reports success only
  -- if the blob is empty; any other blob is refused and the vector stays as it was.
  pub get_blob_flashdb :
      (s : FlashdbState F) (k : String) (b out : List ℕ)
      → s.kv.initialized ≡ true
      → lookup s.kv.kvdb k ≡ some b
      → get_blob (some (object (flashdb_impl F) s)) k out
        ≡ some ((is_empty b, if is_empty b then [] else out), some (object (flashdb_impl F) s))
  unfolding get_blob
  get_blob_flashdb s k [] out ready found = rw (
    flashdb_get_blob_found s k true [] ready found,
    flashdb_get_blob_found s k false [] ready found,
  )
  get_blob_flashdb s k (x ∷ b) out ready found =
      rw (flashdb_get_blob_found s k true (x ∷ b) ready found)

module _ (N : Nvs) (lookup : N.State → String → Option Entry) (L : NvsLaws N lookup) where
  -- With NVS behind it, `get_blob` of a blob that is stored gives the blob.
  pub get_blob_nvs :
      (s : N.State) (k : String) (b out : List ℕ)
      → lookup s k ≡ some (blob b)
      → get_blob (some (object (nvs_impl N) s)) k out
        ≡ some ((true, b), some (object (nvs_impl N) s))
  unfolding get_blob nvs_get_blob
  get_blob_nvs s k b out found =
      rw (L.blob_length s k b 0 found, L.blob_get s k b found, overwrite-resize b out)

-- KVDB::open on the FlashDB backend: whatever it reports, `is_open` reports the same afterwards.
pub is_open-start :
    (F : FlashDb) (s : FlashdbState F) (b : Bool) (db : Kvdb)
    → start (some (object (flashdb_impl F) s)) ≡ some (b, db)
    → is_open db ≡ some b
unfolding start is_open
is_open-start F s b db e =
    let (result, same) = some_pair e in
    subst (λ x. is_open x ≡ some b) same (ap some (sym (init_lem F s.kv s.part).0 ∙ result))
