-- ===== src/Wifi/Tests.antt =====
-- A system with one station and two networks in reach, and the theorems on it.
use base_utilities_esp.Base.{◌≡◌, refl, true, false, none, some, [], ◌∷◌, ℤ, pos, negsuc, arith}
use base_utilities_esp.Wifi.Radio.{Mode, ApRecord, Radio as Net}
use base_utilities_esp.Wifi.{
  Wifi, make, begin, begin_sta, set_mode, get_mode, soft_ap, soft_ap_end, end, scan_networks,
  scanned, connect,
}
use base_utilities_esp.Wifi.Scanning.{element, scan_networks_lem}
use base_utilities_esp.Wifi.Modes.{Fits, mode-objects, get_mode-set_mode}
use base_utilities_esp.Wifi.Station.{
  no_station, rssi, ssid, local_ip, subnet_mask, gateway_ip, dns_ip, dns_ip_at, get_sta_netif,
}

abbrev home : ApRecord
home = record { ssid = 104 ∷ []; rssi = negsuc 49; is_open = false; primary = 6 }

abbrev cafe : ApRecord
cafe = record { ssid = 99 ∷ []; rssi = negsuc 69; is_open = true; primary = 11 }

-- The world is the mode of the driver.
abbrev net : Net
net = record {
  World = Mode;
  make_sta = λ w c. (1, w);
  delete_sta = λ w h. w;
  sta_connect = λ w h. w;
  sta_stop = λ w h. w;
  sta_is_connected = λ w h. true;
  sta_ssid = λ w h. 104 ∷ [];
  sta_scan = λ w h n. (home ∷ cafe ∷ [], w);
  sta_netif = λ w h. 3;
  sta_hostname = λ w h. [];
  sta_set_hostname = λ w h n. w;
  make_ap = λ w c. (2, w);
  delete_ap = λ w h. w;
  ap_stop = λ w h. w;
  ap_stations = λ w h. 0;
  ap_netif = λ w h. 4;
  ap_hostname = λ w h. [];
  ap_set_hostname = λ w h n. w;
  null_get_mode_ok = λ w. false;
  get_mode = λ w. some w;
  set_mode = λ w m. m;
  get_rssi = λ w. some (negsuc 49);
  ip_info = λ w n. none;
  dns_info = λ w n b. none;
  malloc_ok = λ w n. true;
  ntohl = λ n. n;
}

abbrev station : Wifi
station = record make { sta = some 1 }

scan_networks_lem_example :
    ((scan_networks net station Mode.sta_mode false).0 ≡ 2)
    × ((index : ℤ)
        → scanned (scan_networks net station Mode.sta_mode false).1 index
          ≡ some (element (home ∷ cafe ∷ []) index))
    × ((scan_networks net station Mode.sta_mode false).2 ≡ Mode.sta_mode)
scan_networks_lem_example = scan_networks_lem net station Mode.sta_mode false 1 refl (omega arith)

mode-objects_example :
    Fits (soft_ap net make Mode.null_mode (97 ∷ []) none (pos 1) false (pos 4)).0
    × Fits (soft_ap_end net make Mode.null_mode).0
    × Fits (end net make Mode.null_mode).0
    × (make.ap ≡ none → Fits (begin net make Mode.null_mode (97 ∷ []) none).0)
mode-objects_example = mode-objects net make Mode.null_mode (97 ∷ []) none (pos 1) (pos 4) false

get_mode-set_mode_instance :
    ((set_mode net station Mode.sta_mode Mode.ap_mode).1 ≡ Mode.sta_mode)
    × ((get_mode net
          (set_mode net station Mode.sta_mode Mode.ap_mode).0
          (set_mode net station Mode.sta_mode Mode.ap_mode).1).0
        ≡ (get_mode net station Mode.sta_mode).0)
get_mode-set_mode_instance = get_mode-set_mode net station Mode.sta_mode Mode.ap_mode refl

no_station_instance :
    (rssi net make Mode.ap_mode ≡ pos 0)
    × (ssid net make Mode.ap_mode ≡ [])
    × (local_ip net make Mode.ap_mode ≡ 0)
    × (subnet_mask net make Mode.ap_mode ≡ 0)
    × (gateway_ip net make Mode.ap_mode ≡ 0)
    × (dns_ip net make Mode.ap_mode ≡ 0)
    × (dns_ip_at net make Mode.ap_mode (pos 1) ≡ 0)
    × (get_sta_netif net make Mode.ap_mode ≡ none)
    × (connect net make Mode.ap_mode ≡ Mode.ap_mode)
    × (scan_networks net make Mode.ap_mode false ≡ (0, make, Mode.ap_mode))
no_station_instance = no_station net make Mode.ap_mode (pos 1) false refl

-- A station that is begun while an access point runs leaves the mode of a station alone, in which the
-- access point cannot work.
begin_over_ap :
    (begin net (record make { ap = some 2 }) Mode.ap_mode (97 ∷ []) none).0.mode ≡ Mode.sta_mode
unfolding begin begin_sta set_mode
begin_over_ap = refl
