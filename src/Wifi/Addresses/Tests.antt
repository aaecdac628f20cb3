-- ===== src/Wifi/Addresses/Tests.antt =====
-- A station with the address 192.168.4.1.
use base_utilities_esp.Base.{
  ℕ, ◌+◌, ◌*◌, ◌/◌, ◌%◌, ◌<◌, ◌≡◌, refl, true, false, some, none, [], pos, arith, le_value,
}
use base_utilities_esp.IpAddress.{from_bytes, get, to_string}
use base_utilities_esp.Wifi.Radio.{IpInfo, Radio as Net}
use base_utilities_esp.Wifi.{Wifi, make, handle_ip}
use base_utilities_esp.Wifi.Station.{local_ip}
use base_utilities_esp.Wifi.Ledger.{ledger}
use base_utilities_esp.Wifi.Addresses.{NetworkOrder, four_numbers, to_string-local_ip}

-- ntohl of a little-endian machine.
abbrev swap : ℕ → ℕ
swap n = from_bytes (n % 256) (n / 256 % 256) (n / 65536 % 256) (n / 16777216 % 256)

split_bytes :
    (a b c d : ℕ)
    → a < 256
    → b < 256
    → c < 256
    → d < 256
    → let n = a + 256 * (b + 256 * (c + 256 * (d + 256 * 0))) in
      (n % 256 ≡ a) × (n / 256 % 256 ≡ b) × (n / 65536 % 256 ≡ c) × (n / 16777216 % 256 ≡ d)
split_bytes a b c d ha hb hc hd = (omega arith, omega arith, omega arith, omega arith)

swap-NetworkOrder : NetworkOrder swap
unfolding le_value
swap-NetworkOrder a b c d ha hb hc hd =
    let (e, f, g, h) = split_bytes a b c d ha hb hc hd in rw (e, f, g, h) refl

abbrev info : IpInfo
info = record { ip = 17082560; netmask = 0; gw = 0 }

abbrev system : Net
system = ledger (record {
  new_sta = λ w. 0;
  new_ap = λ w. 0;
  sta_is_connected = λ w h. true;
  sta_ssid = λ w h. [];
  sta_scan = λ w h n. [];
  sta_netif = λ w h. 3;
  sta_hostname = λ w h. [];
  ap_stations = λ w h. 0;
  ap_netif = λ w h. 0;
  ap_hostname = λ w h. [];
  null_get_mode_ok = λ w. false;
  get_mode = λ w. none;
  get_rssi = λ w. none;
  ip_info = λ w n. some info;
  dns_info = λ w n b. none;
  malloc_ok = λ w n. true;
  ntohl = swap;
})

abbrev station : Wifi
station = record make { sta = some 0; connected_callback = true }

to_string-local_ip_example :
    (to_string (local_ip system station []) ≡ four_numbers 192 168 4 1)
    × (get (local_ip system station []) (pos 0) ≡ some 192)
    × (get (local_ip system station []) (pos 3) ≡ some 1)
    × ((handle_ip swap station 17082560).0 ≡ some (local_ip system station []))
unfolding le_value
to_string-local_ip_example =
    to_string-local_ip system swap-NetworkOrder station [] 0 info 192 168 4 1 (omega arith)
      (omega arith) (omega arith) (omega arith) refl refl refl refl refl
