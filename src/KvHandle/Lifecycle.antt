-- ===== src/KvHandle/Lifecycle.antt =====
-- Opening, closing and moving a KVHandle, and what its methods do while it is not open.
use base_utilities_esp.Base.{ℕ, ◌+◌, ◌^◌, ◌≤◌, ◌<◌, String, ◌≡◌, refl, true, false, List, arith, ℤ}
use base_utilities_esp.Flash.{FlashDb}
use base_utilities_esp.KvHandle.{
  Handle, init, deinit, move, has, erase, clear, used_size, available_size, set_blob, get_blob,
  get_string, get_i32, get_pod,
}

module _ (F : FlashDb) (h : Handle F) where
  -- On a handle that is not open, each method that tests for it reports failure or gives the default
  -- value, and the handle with its database stays as it was.
  pub closed_refuses :
      h.initialized ≡ false
      → (k : String) (b out dflt : List ℕ) (z : ℤ) (n : ℕ)
      → (has F h k ≡ false)
        × (erase F h k ≡ (false, h))
        × (clear F h ≡ (false, h))
        × (set_blob F h k b ≡ (false, h))
        × (get_blob F h k out ≡ (false, out, h))
        × (get_string F h k dflt ≡ (dflt, h))
        × (get_i32 F h k z ≡ (z, h))
        × (get_pod F h k n dflt ≡ (dflt, h))
        × (used_size F h ≡ 0)
        × (available_size F h ≡ 0)
        × (deinit F h ≡ h)
  unfolding has erase clear set_blob get_blob get_string get_i32 get_pod used_size available_size
      deinit
  closed_refuses closed k b out dflt z n =
      rw closed (refl, refl, refl, refl, refl, refl, refl, refl, refl, refl, refl)

  -- Free and used bytes of an open handle add up to the size of the partition, as long as the
  -- database uses no more than that and sizes fit a 32-bit `size_t`.
  pub available_size-add :
      h.initialized ≡ true
      → F.used_size h.kvdb ≤ F.part_size h.kvdb
      → F.part_size h.kvdb < 2 ^ 32
      → available_size F h + used_size F h ≡ F.part_size h.kvdb
  unfolding available_size used_size
  available_size-add ready fits small = ground arith

  -- After a move, the handle moved from can be destroyed and the database stays open; the new
  -- handle owns it: destroying that one does to the database what destroying the old one would have.
  pub deinit-move :
      (deinit F (move F h).1 ≡ (move F h).1)
      × ((move F h).0.kvdb ≡ h.kvdb)
      × ((deinit F (move F h).0).kvdb ≡ (deinit F h).kvdb)
      × ((deinit F (move F h).0).initialized ≡ false)
  unfolding deinit move
  deinit-move = ground arith

module _ (F : FlashDb) (h : Handle F) where
  -- `init` reports success exactly when the handle is open afterwards, and leaves an open handle as
  -- it was.
  pub init_lem :
      (part : F.Part)
      → ((init F h part).0 ≡ (init F h part).1.initialized)
        × (h.initialized ≡ true → (init F h part).1 ≡ h)
  unfolding init
  init_lem part = (ground arith, λ ready. rw (ready, init))
