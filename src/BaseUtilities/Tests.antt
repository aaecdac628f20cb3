-- ===== src/BaseUtilities/Tests.antt =====
-- A box and a start-up, and the theorems on them.
use base_utilities_esp.Base.{
  not, ◌&&◌, ℕ, suc, true, false, ◌≡◌, ◌+◌, refl, none, some, [], ◌∷◌, ◌==◌, if◌then◌else◌,
}
use base_utilities_esp.BaseUtilities.{
  app_main, init, checked, erase_and_init, mark_rollback_flag, act_on_state, EspErr, Idf,
  wants_erase, init_nvs_flash,
}
use base_utilities_esp.BaseUtilities.Startup.{
  is_pending, mark_rollback_flag_lem, init_nvs_flash_lem,
}
use base_utilities_esp.BaseUtilities.LogBox.{
  log_box, box_inner_width, max_content_len, line_sep, content_row, title_row,
}

-- A flash without free pages until it was erased; the world counts the erasures.
abbrev worn : Idf
worn = record {
  World = ℕ;
  nvs_flash_init = λ w. (if w == 0 then EspErr.nvs_no_free_pages else EspErr.ok, w);
  nvs_flash_erase = λ w. (EspErr.ok, suc w);
  verify_rollback_later = λ w. false;
  verify_ota = λ w. true;
  state_partition = λ w. none;
  mark_valid = λ w. w;
  mark_invalid_and_reboot = λ w. none;
  event_loop_create = λ w. (EspErr.ok, w);
  handler_register = λ w. w;
}

init_nvs_flash_lem_instance :
    (wants_erase EspErr.nvs_no_free_pages ≡ false → init_nvs_flash worn 0 ≡ some (false, 0))
    × (wants_erase EspErr.nvs_no_free_pages ≡ true → true ≡ false → init_nvs_flash worn 0 ≡ none)
    × (wants_erase EspErr.nvs_no_free_pages ≡ true
        → true ≡ true
        → init_nvs_flash worn 0 ≡ some (true, 1))
init_nvs_flash_lem_instance = init_nvs_flash_lem worn 0

-- An image that waits to be verified, and is; the world is 1 once it was marked valid.
abbrev pending : Idf
pending = record worn { state_partition = λ w. some true; mark_valid = λ w. 1 }

mark_rollback_flag_lem_instance : mark_rollback_flag pending true 0 ≡ (
    if true && not (pending.verify_rollback_later 0) && is_pending (pending.state_partition 0)
    then (if pending.verify_ota 0
        then some (pending.mark_valid 0)
        else pending.mark_invalid_and_reboot 0)
    else some 0)
mark_rollback_flag_lem_instance = mark_rollback_flag_lem pending 0 true

-- A flash that stays full, with an event loop that can be created; setup and the loop task add to
-- the world.
abbrev full : Idf
full = record worn { nvs_flash_init = λ w. (EspErr.nvs_no_free_pages, w) }

-- It reaches the loop task after one erasure.
full_boots : app_main full (λ w. w + 10) (λ w. w + 100) false 0 ≡ some 111
unfolding app_main init init_nvs_flash erase_and_init checked mark_rollback_flag
full_boots = refl

-- An image that is not verified: the device resets, and setup is not reached.
abbrev refused : Idf
refused = record pending { verify_ota = λ w. false }

refused_resets : app_main refused (λ w. w + 10) (λ w. w + 100) true 0 ≡ none
unfolding app_main init mark_rollback_flag act_on_state
refused_resets = refl

-- A box for the line "ab" and the title "t".
small_box :
    log_box 3 3 (some (116 ∷ [])) ((97 ∷ 98 ∷ []) ∷ [])
    ≡ (43 ∷ 45 ∷ 45 ∷ 45 ∷ 45 ∷ 43 ∷ [])
      ∷ (124 ∷ 32 ∷ 116 ∷ 32 ∷ 32 ∷ 124 ∷ [])
      ∷ (43 ∷ 45 ∷ 45 ∷ 45 ∷ 45 ∷ 43 ∷ [])
      ∷ (124 ∷ 32 ∷ 97 ∷ 98 ∷ 32 ∷ 124 ∷ [])
      ∷ (43 ∷ 45 ∷ 45 ∷ 45 ∷ 45 ∷ 43 ∷ [])
      ∷ []
unfolding log_box box_inner_width max_content_len line_sep content_row title_row
small_box = refl
