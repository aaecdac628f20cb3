-- ===== src/Kvdb/Contract.antt =====
-- What KVDB needs of a backend, and that both classes that implement ImplBase give it.
use base_utilities_esp.Base.{
  ℕ, ◌^◌, ◌<◌, String, ◌≡◌, ◌≢◌, Bool, true, false, Option, List, [], arith, length, ℤ, InI32,
}
use base_utilities_esp.Flash.{FlashDb, FlashLaws}
use base_utilities_esp.KvHandle.Typed.{
  get_i32-set_i32, get_u32-set_u32, get_u8-set_u8, get_bool-set_bool, get_string-set_string,
  get_blob-set_blob,
}
use base_utilities_esp.Nvs.{Nvs, Entry, NvsLaws}
use base_utilities_esp.Kvdb.Impl.{
  ImplBase, nvs_impl, flashdb_impl, FlashdbState, nvs_set_bool, nvs_get_bool, nvs_get_blob,
  flashdb_get_blob,
}

-- A getter gives what the setter of its type was given, if that reported success, and leaves the
-- object as it was; `get_blob` does so into a buffer of the length of the blob.
pub record Contract (I : ImplBase) : Type 0 where
  pub i32_back :
      (s : I.State) (k : String) (z d : ℤ)
      → InI32 z
      → (I.set_i32 s k z).0 ≡ true
      → I.get_i32 (I.set_i32 s k z).1 k d ≡ (z, (I.set_i32 s k z).1)
  pub u32_back :
      (s : I.State) (k : String) (n d : ℕ)
      → n < 2 ^ 32
      → (I.set_u32 s k n).0 ≡ true
      → I.get_u32 (I.set_u32 s k n).1 k d ≡ (n, (I.set_u32 s k n).1)
  pub u8_back :
      (s : I.State) (k : String) (n d : ℕ)
      → n < 256
      → (I.set_u8 s k n).0 ≡ true
      → I.get_u8 (I.set_u8 s k n).1 k d ≡ (n, (I.set_u8 s k n).1)
  pub bool_back :
      (s : I.State) (k : String) (b d : Bool)
      → (I.set_bool s k b).0 ≡ true
      → I.get_bool (I.set_bool s k b).1 k d ≡ (b, (I.set_bool s k b).1)
  pub string_back :
      (s : I.State) (k : String) (t d : List ℕ)
      → t ≢ []
      → (I.set_string s k t).0 ≡ true
      → I.get_string (I.set_string s k t).1 k d ≡ (t, (I.set_string s k t).1)
  pub blob_back :
      (s : I.State) (k : String) (b : List ℕ)
      → b ≢ []
      → (I.set_blob s k b).0 ≡ true
      → (I.is_open (I.set_blob s k b).1 ≡ true)
        × (I.get_blob (I.set_blob s k b).1 k false (length b)
            ≡ (true, b, length b, (I.set_blob s k b).1))

module _ (F : FlashDb) (lookup : F.Db → String → Option (List ℕ)) (L : FlashLaws F lookup) where
  flashdb_blob_back :
      (s : FlashdbState F) (k : String) (b : List ℕ)
      → b ≢ []
      → ((flashdb_impl F).set_blob s k b).0 ≡ true
      → ((flashdb_impl F).is_open ((flashdb_impl F).set_blob s k b).1 ≡ true)
        × (flashdb_get_blob F ((flashdb_impl F).set_blob s k b).1 k false (length b)
            ≡ (true, b, length b, ((flashdb_impl F).set_blob s k b).1))
  unfolding flashdb_get_blob
  flashdb_blob_back s k b nonempty done =
      let back = get_blob-set_blob F lookup L s.kv k b [] nonempty done in
      (back.0, ground (arith, back.1))

  pub flashdb_impl-Contract : Contract (flashdb_impl F)
  flashdb_impl-Contract = record {
    i32_back = λ s k z d r done. rw (get_i32-set_i32 F lookup L s.kv k z d r done);
    u32_back = λ s k n d r done. rw (get_u32-set_u32 F lookup L s.kv k n d r done);
    u8_back = λ s k n d r done. rw (get_u8-set_u8 F lookup L s.kv k n d r done);
    bool_back = λ s k b d done. rw (get_bool-set_bool F lookup L s.kv k b d done);
    string_back = λ s k t d r done. rw (get_string-set_string F lookup L s.kv k t d r done);
    blob_back = flashdb_blob_back;
  }

module _ (N : Nvs) (lookup : N.State → String → Option Entry) (L : NvsLaws N lookup) where
  nvs_bool_back :
      (s : N.State) (k : String) (b d : Bool)
      → (nvs_set_bool N s k b).0 ≡ true
      → nvs_get_bool N (nvs_set_bool N s k b).1 k d ≡ b
  unfolding nvs_set_bool nvs_get_bool
  nvs_bool_back s k true d done = rw (L.u8_get _ k 1 _ (L.u8_set s k 1 done))
  nvs_bool_back s k false d done = rw (L.u8_get _ k 0 _ (L.u8_set s k 0 done))

  nvs_blob_back :
      (s : N.State) (k : String) (b : List ℕ)
      → (N.set_blob s k b).0 ≡ true
      → nvs_get_blob N (N.set_blob s k b).1 k false (length b)
        ≡ (true, b, length b, (N.set_blob s k b).1)
  unfolding nvs_get_blob
  nvs_blob_back s k b done = rw (L.blob_get _ k b (L.blob_set s k b done))

  pub nvs_impl-Contract : Contract (nvs_impl N)
  nvs_impl-Contract = record {
    i32_back = λ s k z d r done. rw (L.i32_get _ k z d (L.i32_set s k z done));
    u32_back = λ s k n d r done. rw (L.u32_get _ k n d (L.u32_set s k n done));
    u8_back = λ s k n d r done. rw (L.u8_get _ k n d (L.u8_set s k n done));
    bool_back = λ s k b d done. rw (nvs_bool_back s k b d done);
    string_back = λ s k t d r done. rw (L.text_get _ k t d (L.text_set s k t done));
    blob_back = λ s k b r done. (L.blob_open s k b done, nvs_blob_back s k b done);
  }
