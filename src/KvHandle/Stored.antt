-- ===== src/KvHandle/Stored.antt =====
-- What a KVHandle holds is a map from keys to bytes; each method that writes acts on that map.
use base_utilities_esp.Base.{
  ℕ, String, ◌≡◌, ◌≢◌, refl, ap, true, false, ◌&&◌, Option, none, some, List, [], ◌∷◌, arith,
  str_eq, length, if◌then◌else◌,
}
use base_utilities_esp.Flash.{FlashDb, FlashLaws}
use base_utilities_esp.KvHandle.{Handle, resize, overwrite, set_blob, erase, get_blob, has}

-- A buffer of the length of the value, filled by the value and cut to its length, is the value.
pub resize-overwrite : (b : List ℕ) → resize (length b) (overwrite (resize (length b) []) b) ≡ b
resize-overwrite [] = refl
resize-overwrite (x ∷ b) = ap (◌∷◌ x) (resize-overwrite b)

module _ (F : FlashDb) (lookup : F.Db → String → Option (List ℕ)) (L : FlashLaws F lookup) where
  -- A write of bytes on an open handle puts them under the key if it reports success, and changes
  -- nothing that is stored if it reports failure; on a handle that is not open it fails.
  pub lookup-set_blob :
      (h : Handle F) (k j : String) (b : List ℕ)
      → b ≢ []
      → lookup (set_blob F h k b).1.kvdb j
        ≡ (if (set_blob F h k b).0 && str_eq k j then some b else lookup h.kvdb j)
  unfolding set_blob
  lookup-set_blob h k j b nonempty =
      ground (arith, L.set_done h.kvdb k j b nonempty, L.set_failed h.kvdb k j b)

  pub lookup-erase :
      (h : Handle F) (k j : String)
      → lookup (erase F h k).1.kvdb j
        ≡ (if (erase F h k).0 && str_eq k j then none else lookup h.kvdb j)
  unfolding erase
  lookup-erase h k j = ground (arith, L.del_done h.kvdb k j, L.del_failed h.kvdb k j)

  -- `has` and `get_blob` on an open handle report exactly what is stored.
  pub has_lem :
      (h : Handle F) (k : String) (b : Option (List ℕ))
      → h.initialized ≡ true
      → lookup h.kvdb k ≡ b
      → has F h k ≡ (elim b [ none ↦ false | some x ↦ true ])
  unfolding has
  has_lem h k none ready e = ground (arith, L.get_missing h.kvdb k e)
  has_lem h k (some b) ready e = ground (arith, L.get_found h.kvdb k b e)

  pub get_blob_found :
      (h : Handle F) (k : String) (b out : List ℕ)
      → h.initialized ≡ true
      → lookup h.kvdb k ≡ some b
      → get_blob F h k out ≡ (true, b, h)
  unfolding get_blob
  get_blob_found h k b out ready e = rw (
    ready,
    get_blob,
    L.len_found h.kvdb k b 0 e,
    L.blob_found h.kvdb k b (length b) e (omega arith),
    resize-overwrite b,
  )
