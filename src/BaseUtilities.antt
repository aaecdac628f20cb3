-- ===== src/BaseUtilities.antt =====
-- src/BaseUtilities.cpp: start-up. An abort by ESP_ERROR_CHECK and a reset of the device are `none`:
-- what follows is not reached.
pub mod Startup
pub mod LogBox
mod Tests
use base_utilities_esp.Base.{
  ℕ, ◌/◌, ◌==◌, Bool, true, false, not, ◌&&◌, ◌||◌, Option, none, some, List, [], ◌∷◌,
  if◌then◌else◌, ◌>>=◌,
}

-- The errors that the code tells apart.
pub data EspErr : Type 0 where
  ok : EspErr
  nvs_no_free_pages : EspErr
  nvs_new_version_found : EspErr
  other_error : ℕ → EspErr

abbrev pub is_esp_ok : EspErr → Bool
is_esp_ok EspErr.ok = true
is_esp_ok e = false

-- ESP-IDF as the start-up calls it.
pub record Idf : Type 1 where
  pub World : Type 0
  pub nvs_flash_init : World → EspErr × World
  pub nvs_flash_erase : World → EspErr × World
  -- verifyRollbackLater and verifyOta, of the application.
  pub verify_rollback_later : World → Bool
  pub verify_ota : World → Bool
  -- esp_ota_get_state_partition of the running partition: whether it gives ESP_OK, and then whether
  -- the image is pending verification.
  pub state_partition : World → Option Bool
  pub mark_valid : World → World
  -- For `none` the device resets; else the call failed and returns.
  pub mark_invalid_and_reboot : World → Option World
  pub event_loop_create : World → EspErr × World
  pub handler_register : World → World

-- The errors after which the partition is erased.
abbrev pub wants_erase : EspErr → Bool
wants_erase EspErr.nvs_no_free_pages = true
wants_erase EspErr.nvs_new_version_found = true
wants_erase e = false

module _ (I : Idf) where
  -- ESP_ERROR_CHECK
  checked : EspErr × I.World → Option I.World
  checked (e, w) = if is_esp_ok e then some w else none

  erase_and_init : I.World → Option (Bool × I.World)
  unfolding checked
  erase_and_init w = do
    w₁ ← checked (I.nvs_flash_erase w)
    let (err, w₂) = I.nvs_flash_init w₁ in some (is_esp_ok err, w₂)

  unfoldable pub init_nvs_flash : I.World → Option (Bool × I.World)
  unfolding erase_and_init
  init_nvs_flash w =
      let (err, w₁) = I.nvs_flash_init w in
      if wants_erase err then erase_and_init w₁ else some (is_esp_ok err, w₁)

  -- `if (esp_ota_get_state_partition(…) == ESP_OK)`
  act_on_state : Option Bool → I.World → Option I.World
  act_on_state none w = some w
  act_on_state (some pending) w =
      if not pending
      then some w
      else if I.verify_ota w
      then some (I.mark_valid w)
      else I.mark_invalid_and_reboot w

  -- markRollbackFlag, by whether CONFIG_APP_ROLLBACK_ENABLE is defined.
  unfoldable pub mark_rollback_flag : Bool → I.World → Option I.World
  unfolding act_on_state
  mark_rollback_flag enabled w =
      if not enabled
      then some w
      else if I.verify_rollback_later w
      then some w
      else act_on_state (I.state_partition w) w

  -- init, which passes over the result of initNvsFlash.
  unfoldable pub init : Bool → I.World → Option I.World
  unfolding checked
  init enabled w = do
    w₁ ← mark_rollback_flag enabled w
    (ready, w₂) ← init_nvs_flash w₁
    w₃ ← checked (I.event_loop_create w₂)
    some (I.handler_register w₃)

  -- app_main; setup is the application's, start_loop_task is the call of xTaskCreate, whose result
  -- it passes over.
  unfoldable pub app_main :
      (setup : I.World → I.World) (start_loop_task : I.World → I.World)
      → Bool
      → I.World
      → Option I.World
  app_main setup start_loop_task enabled w = do
    w₁ ← init enabled w
    some (start_loop_task (setup w₁))

-- millis, of the microseconds that esp_timer_get_time gives.
unfoldable pub millis : ℕ → ℕ
millis microseconds = microseconds / 1000
