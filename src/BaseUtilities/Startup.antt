-- ===== src/BaseUtilities/Startup.antt =====
-- What the start-up does to the flash and to the image that runs.
use base_utilities_esp.Base.{
  Bool, Option, true, false, not, ◌&&◌, if◌then◌else◌, ◌≡◌, refl, none, some, Bool-cases, inl, inr,
}
use base_utilities_esp.BaseUtilities.{
  act_on_state, mark_rollback_flag, is_esp_ok, Idf, wants_erase, checked, erase_and_init,
  init_nvs_flash,
}

-- Whether the state could be read and is that of an image to verify.
abbrev pub is_pending : Option Bool → Bool
is_pending none = false
is_pending (some pending) = pending

act_on_state_lem :
    (I : Idf) (w : I.World) (state : Option Bool)
    → act_on_state I state w ≡ (
        if is_pending state
        then (if I.verify_ota w then some (I.mark_valid w) else I.mark_invalid_and_reboot w)
        else some w)
unfolding act_on_state
act_on_state_lem I w none = refl
act_on_state_lem I w (some true) = refl
act_on_state_lem I w (some false) = refl

module _ (I : Idf) (w : I.World) where
  -- The flash is erased only after one of the two errors that ask for it; then, if the erasure
  -- succeeds, the result is that of the second try, and if not, the program aborts. In all other cases
  -- the result is that of the first try.
  pub init_nvs_flash_lem :
      let (err, w₁) = I.nvs_flash_init w in
      let (erased, w₂) = I.nvs_flash_erase w₁ in
      (wants_erase err ≡ false → init_nvs_flash I w ≡ some (is_esp_ok err, w₁))
      × (wants_erase err ≡ true → is_esp_ok erased ≡ false → init_nvs_flash I w ≡ none)
      × (wants_erase err ≡ true
          → is_esp_ok erased ≡ true
          → init_nvs_flash I w ≡ some (is_esp_ok (I.nvs_flash_init w₂).0, (I.nvs_flash_init w₂).1))
  unfolding init_nvs_flash erase_and_init checked
  init_nvs_flash_lem = (λ a. rw a refl, λ a b. rw (a, b) refl, λ a b. rw (a, b) refl)

  -- The image that runs is marked only with rollback enabled and not put off by the application, and only
  -- while it waits to be verified; it is then marked valid if the application verifies it, and else
  -- rolled back, which resets the device or fails. In all other cases nothing is done.
  pub mark_rollback_flag_lem :
      (enabled : Bool)
      → mark_rollback_flag I enabled w ≡ (
          if enabled && not (I.verify_rollback_later w) && is_pending (I.state_partition w)
          then (if I.verify_ota w then some (I.mark_valid w) else I.mark_invalid_and_reboot w)
          else some w)
  unfolding mark_rollback_flag
  mark_rollback_flag_lem false = refl
  mark_rollback_flag_lem true = elim (Bool-cases (I.verify_rollback_later w)) [
    | inl later ↦ rw later refl
    | inr now ↦ rw now (act_on_state_lem I w (I.state_partition w))
  ]
