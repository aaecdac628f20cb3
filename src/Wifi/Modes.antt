-- ===== src/Wifi/Modes.antt =====
-- The mode of WiFiClass, next to its station and access point and to the mode of the driver.
use base_utilities_esp.Base.{
  ℕ, Bool, false, ◌≡◌, refl, Option, none, some, List, is_some, ℤ, Option-cases, Bool-cases, inl,
  inr, if◌then◌else◌,
}
use base_utilities_esp.Wifi.Radio.{Mode, Radio as Net}
use base_utilities_esp.Wifi.{
  Wifi, begin, begin_sta, soft_ap, soft_ap_end, end, free_results, set_mode, get_mode,
}

-- The mode in which a station and an access point, each if it is there, can work.
abbrev pub mode_of : Option ℕ → Option ℕ → Mode
mode_of none none = Mode.null_mode
mode_of (some h) none = Mode.sta_mode
mode_of none (some k) = Mode.ap_mode
mode_of (some h) (some k) = Mode.apsta_mode

abbrev pub Fits : Wifi → Type 0
Fits s = s.mode ≡ mode_of s.sta s.ap

with_ap :
    (o : Option ℕ) (k : ℕ)
    → (if is_some o then Mode.apsta_mode else Mode.ap_mode) ≡ mode_of o (some k)
with_ap none k = refl
with_ap (some h) k = refl

without_ap : (o : Option ℕ) → (if is_some o then Mode.sta_mode else Mode.null_mode) ≡ mode_of o none
without_ap none = refl
without_ap (some h) = refl

module _ (N : Net) (s : Wifi) (w : N.World) where
  -- After an access point was started or stopped, after end, and after a station was begun where no
  -- access point is, the mode kept is the one that the station and the access point need.
  pub mode-objects :
      (ssid : List ℕ) (password : Option (List ℕ)) (channel max_connection : ℤ) (hidden : Bool)
      → Fits (soft_ap N s w ssid password channel hidden max_connection).0
        × Fits (soft_ap_end N s w).0
        × Fits (end N s w).0
        × (s.ap ≡ none → Fits (begin N s w ssid password).0)
  unfolding soft_ap soft_ap_end end begin begin_sta set_mode free_results
  mode-objects ssid password channel max_connection hidden = (
    with_ap s.sta _,
    without_ap s.sta,
    elim (Bool-cases (is_some s.scan_results)) [
      | inl held ↦ rw held refl
      | inr free ↦ rw free refl
    ],
    λ no_ap. rw no_ap refl,
  )

  -- Where esp_wifi_get_mode of a null pointer is an error, setMode leaves the driver as it is, and
  -- getMode then gives the mode that it would have given before, whatever mode was set.
  pub get_mode-set_mode :
      (mode : Mode)
      → N.null_get_mode_ok w ≡ false
      → let (t, v) = set_mode N s w mode in (v ≡ w) × ((get_mode N t v).0 ≡ (get_mode N s w).0)
  unfolding set_mode get_mode
  get_mode-set_mode mode refused = rw refused (
    refl,
    elim (Option-cases (N.get_mode w)) [
      | inl e ↦ rw (e, get_mode) refl
      | inr (m, e) ↦ rw (e, get_mode) refl
    ],
  )
