-- ===== src/Wifi/Radio.antt =====
-- What src/WiFi.cpp calls: the station and access point classes of espp, in deps/wifi, and the Wi-Fi
-- and network interface functions of ESP-IDF, which are not in the repository. A handle is a number.
use base_utilities_esp.Base.{ℕ, Bool, Option, List, ℤ}

-- wifi_mode_t
pub data Mode : Type 0 where
  null_mode : Mode
  sta_mode : Mode
  ap_mode : Mode
  apsta_mode : Mode

-- The fields of espp::WifiSta::Config and espp::WifiAp::Config that are set.
pub record StaConfig : Type 0 where
  pub ssid : List ℕ
  pub password : List ℕ
  pub auto_connect : Bool
  pub num_connect_retries : ℕ

pub record ApConfig : Type 0 where
  pub ssid : List ℕ
  pub password : List ℕ
  pub channel : ℤ
  pub max_number_of_stations : ℤ

-- wifi_ap_record_t
pub record ApRecord : Type 0 where
  pub ssid : List ℕ
  pub rssi : ℤ
  pub is_open : Bool
  pub primary : ℕ

-- esp_netif_ip_info_t, in network byte order.
pub record IpInfo : Type 0 where
  pub ip : ℕ
  pub netmask : ℕ
  pub gw : ℕ

pub record Radio : Type 1 where
  pub World : Type 0
  pub make_sta : World → StaConfig → ℕ × World
  pub delete_sta : World → ℕ → World
  pub sta_connect : World → ℕ → World
  pub sta_stop : World → ℕ → World
  pub sta_is_connected : World → ℕ → Bool
  pub sta_ssid : World → ℕ → List ℕ
  -- At most the given number of records.
  pub sta_scan : World → ℕ → (max_results : ℕ) → List ApRecord × World
  pub sta_netif : World → ℕ → ℕ
  pub sta_hostname : World → ℕ → List ℕ
  pub sta_set_hostname : World → ℕ → List ℕ → World
  pub make_ap : World → ApConfig → ℕ × World
  pub delete_ap : World → ℕ → World
  pub ap_stop : World → ℕ → World
  pub ap_stations : World → ℕ → ℕ
  pub ap_netif : World → ℕ → ℕ
  pub ap_hostname : World → ℕ → List ℕ
  pub ap_set_hostname : World → ℕ → List ℕ → World
  -- Whether esp_wifi_get_mode of a null pointer gives ESP_OK.
  pub null_get_mode_ok : World → Bool
  -- The results of calls that may not give ESP_OK.
  pub get_mode : World → Option Mode
  pub set_mode : World → Mode → World
  pub get_rssi : World → Option ℤ
  pub ip_info : World → ℕ → Option IpInfo
  pub dns_info : World → ℕ → (backup : Bool) → Option ℕ
  pub malloc_ok : World → ℕ → Bool
  pub ntohl : ℕ → ℕ
