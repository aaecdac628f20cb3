-- ===== src/Wifi/Calls.antt =====
-- The methods of WiFiClass that change the object or the world.
use base_utilities_esp.Base.{ℕ, Bool, Option, List, ℤ}
use base_utilities_esp.Wifi.Radio.{Mode}

pub data Method : Type 0 where
  begin_only : Method
  begin : List ℕ → Option (List ℕ) → Method
  connect : Method
  connect_to : List ℕ → Option (List ℕ) → Method
  end : Method
  soft_ap : List ℕ → Option (List ℕ) → ℤ → Bool → ℤ → Method
  soft_ap_end : Method
  set_mode : Mode → Method
  get_mode : Method
  scan_networks : Bool → Method
  set_hostname : List ℕ → Method
  on_connected : Bool → Method
  on_disconnected : Bool → Method
