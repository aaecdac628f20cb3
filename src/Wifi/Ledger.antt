-- ===== src/Wifi/Ledger.antt =====
-- A record of what WiFiClass has espp do with station and access point objects, and the objects that
-- are alive after it. What espp and the system answer is arbitrary.
use base_utilities_esp.Base.{
  ℕ, Bool, true, false, not, ◌&&◌, Option, List, [], ◌∷◌, ◌==◌, if◌then◌else◌, ℤ,
}
use base_utilities_esp.Wifi.Radio.{Mode, StaConfig, ApConfig, ApRecord, IpInfo, Radio as Net}

-- The calls that change something, on the object with the address.
pub data Act : Type 0 where
  make_sta : StaConfig → ℕ → Act
  delete_sta : ℕ → Act
  sta_connect : ℕ → Act
  sta_stop : ℕ → Act
  sta_scan : ℕ → Act
  sta_set_hostname : ℕ → List ℕ → Act
  make_ap : ApConfig → ℕ → Act
  delete_ap : ℕ → Act
  ap_stop : ℕ → Act
  ap_set_hostname : ℕ → List ℕ → Act
  set_mode : Mode → Act

-- What the calls return, by the acts before them, latest first.
pub record Answers : Type 0 where
  pub new_sta : List Act → ℕ
  pub new_ap : List Act → ℕ
  pub sta_is_connected : List Act → ℕ → Bool
  pub sta_ssid : List Act → ℕ → List ℕ
  pub sta_scan : List Act → ℕ → ℕ → List ApRecord
  pub sta_netif : List Act → ℕ → ℕ
  pub sta_hostname : List Act → ℕ → List ℕ
  pub ap_stations : List Act → ℕ → ℕ
  pub ap_netif : List Act → ℕ → ℕ
  pub ap_hostname : List Act → ℕ → List ℕ
  pub null_get_mode_ok : List Act → Bool
  pub get_mode : List Act → Option Mode
  pub get_rssi : List Act → Option ℤ
  pub ip_info : List Act → ℕ → Option IpInfo
  pub dns_info : List Act → ℕ → Bool → Option ℕ
  pub malloc_ok : List Act → ℕ → Bool
  pub ntohl : ℕ → ℕ

abbrev pub ledger : Answers → Net
ledger A = record {
  World = List Act;
  make_sta = λ w c. (A.new_sta w, Act.make_sta c (A.new_sta w) ∷ w);
  delete_sta = λ w h. Act.delete_sta h ∷ w;
  sta_connect = λ w h. Act.sta_connect h ∷ w;
  sta_stop = λ w h. Act.sta_stop h ∷ w;
  sta_is_connected = A.sta_is_connected;
  sta_ssid = A.sta_ssid;
  sta_scan = λ w h n. (A.sta_scan w h n, Act.sta_scan h ∷ w);
  sta_netif = A.sta_netif;
  sta_hostname = A.sta_hostname;
  sta_set_hostname = λ w h n. Act.sta_set_hostname h n ∷ w;
  make_ap = λ w c. (A.new_ap w, Act.make_ap c (A.new_ap w) ∷ w);
  delete_ap = λ w h. Act.delete_ap h ∷ w;
  ap_stop = λ w h. Act.ap_stop h ∷ w;
  ap_stations = A.ap_stations;
  ap_netif = A.ap_netif;
  ap_hostname = A.ap_hostname;
  ap_set_hostname = λ w h n. Act.ap_set_hostname h n ∷ w;
  null_get_mode_ok = A.null_get_mode_ok;
  get_mode = A.get_mode;
  set_mode = λ w m. Act.set_mode m ∷ w;
  get_rssi = A.get_rssi;
  ip_info = A.ip_info;
  dns_info = A.dns_info;
  malloc_ok = A.malloc_ok;
  ntohl = A.ntohl;
}

-- Whether a station, or an access point, lives at an address.
unfoldable pub sta_lives : ℕ → List Act → Bool
sta_lives h [] = false
sta_lives h (Act.make_sta c k ∷ w) = let before = sta_lives h w in if k == h then true else before
sta_lives h (Act.delete_sta k ∷ w) = let before = sta_lives h w in if k == h then false else before
sta_lives h (a ∷ w) = sta_lives h w

unfoldable pub ap_lives : ℕ → List Act → Bool
ap_lives h [] = false
ap_lives h (Act.make_ap c k ∷ w) = let before = ap_lives h w in if k == h then true else before
ap_lives h (Act.delete_ap k ∷ w) = let before = ap_lives h w in if k == h then false else before
ap_lives h (a ∷ w) = ap_lives h w

-- A call is on an object that lives, and a new object takes an address where none lives.
unfoldable pub permitted : Act → List Act → Bool
permitted (Act.make_sta c h) w = not (sta_lives h w)
permitted (Act.delete_sta h) w = sta_lives h w
permitted (Act.sta_connect h) w = sta_lives h w
permitted (Act.sta_stop h) w = sta_lives h w
permitted (Act.sta_scan h) w = sta_lives h w
permitted (Act.sta_set_hostname h n) w = sta_lives h w
permitted (Act.make_ap c h) w = not (ap_lives h w)
permitted (Act.delete_ap h) w = ap_lives h w
permitted (Act.ap_stop h) w = ap_lives h w
permitted (Act.ap_set_hostname h n) w = ap_lives h w
permitted (Act.set_mode m) w = true

unfoldable pub orderly : List Act → Bool
orderly [] = true
orderly (a ∷ w) = permitted a w && orderly w
