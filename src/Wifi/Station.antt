-- ===== src/Wifi/Station.antt =====
-- The methods of WiFiClass that ask the station, the access point and their interfaces.
use base_utilities_esp.Base.{
  ℕ, Bool, true, false, not, ◌||◌, ◌≡◌, refl, Option, none, some, List, [], is_some, ◌==◌,
  Bool-cases, inl, inr, if◌then◌else◌, ℤ, pos, negsuc,
}
use base_utilities_esp.Wifi.Radio.{IpInfo, Radio as Net}
use base_utilities_esp.Wifi.{Wifi, connect, scan_networks}

module _ (N : Net) where
  unfoldable pub is_connected : Wifi → N.World → Bool
  is_connected s w = elim s.sta [ none ↦ s.connected | some h ↦ N.sta_is_connected w h ]

  unfoldable pub rssi : Wifi → N.World → ℤ
  rssi s w =
      if not (is_connected s w) || not (is_some s.sta)
      then pos 0
      else elim (N.get_rssi w) [ none ↦ pos 0 | some value ↦ value ]

  unfoldable pub ssid : Wifi → N.World → List ℕ
  ssid s w = elim s.sta [ none ↦ [] | some h ↦ N.sta_ssid w h ]

  -- A field of the interface's addresses, or 0.0.0.0.
  address : (IpInfo → ℕ) → Option IpInfo → ℕ
  address field none = 0
  address field (some info) = N.ntohl (field info)

  unfoldable pub local_ip : Wifi → N.World → ℕ
  unfolding address
  local_ip s w =
      if not (is_connected s w)
      then 0
      else elim s.sta [ none ↦ 0 | some h ↦ address (λ i. i.ip) (N.ip_info w (N.sta_netif w h)) ]

  unfoldable pub subnet_mask : Wifi → N.World → ℕ
  unfolding address
  subnet_mask s w = elim s.sta [
    | none ↦ 0
    | some h ↦ address (λ i. i.netmask) (N.ip_info w (N.sta_netif w h))
  ]

  unfoldable pub gateway_ip : Wifi → N.World → ℕ
  unfolding address
  gateway_ip s w = elim s.sta [
    | none ↦ 0
    | some h ↦ address (λ i. i.gw) (N.ip_info w (N.sta_netif w h))
  ]

  dns_address : Option ℕ → ℕ
  dns_address none = 0
  dns_address (some a) = N.ntohl a

  -- dnsIP()
  unfoldable pub dns_ip : Wifi → N.World → ℕ
  unfolding dns_address
  dns_ip s w = elim s.sta [ none ↦ 0 | some h ↦ dns_address (N.dns_info w (N.sta_netif w h) false) ]

  is_backup : ℤ → Bool
  is_backup (pos n) = not (n == 0)
  is_backup (negsuc n) = true

  -- dnsIP(index)
  unfoldable pub dns_ip_at : Wifi → N.World → ℤ → ℕ
  unfolding dns_address is_backup
  dns_ip_at s w index = elim s.sta [
    | none ↦ 0
    | some h ↦ dns_address (N.dns_info w (N.sta_netif w h) (is_backup index))
  ]

  unfoldable pub soft_ap_ip : Wifi → N.World → ℕ
  unfolding address
  soft_ap_ip s w = elim s.ap [
    | none ↦ 0
    | some h ↦ address (λ i. i.ip) (N.ip_info w (N.ap_netif w h))
  ]

  unfoldable pub soft_ap_get_station_num : Wifi → N.World → ℕ
  soft_ap_get_station_num s w = elim s.ap [ none ↦ 0 | some h ↦ N.ap_stations w h ]

  unfoldable pub get_sta_netif : Wifi → N.World → Option ℕ
  get_sta_netif s w = elim s.sta [ none ↦ none | some h ↦ some (N.sta_netif w h) ]

  unfoldable pub get_ap_netif : Wifi → N.World → Option ℕ
  get_ap_netif s w = elim s.ap [ none ↦ none | some h ↦ some (N.ap_netif w h) ]

  unfoldable pub get_hostname : Wifi → N.World → List ℕ
  get_hostname s w = elim s.sta [
    | none ↦ elim s.ap [ none ↦ [] | some h ↦ N.ap_hostname w h ]
    | some h ↦ N.sta_hostname w h
  ]

  unfoldable pub name_ap : Option ℕ → N.World → List ℕ → N.World
  name_ap none w hostname = w
  name_ap (some h) w hostname = N.ap_set_hostname w h hostname

  unfoldable pub name_sta : Option ℕ → N.World → List ℕ → N.World
  name_sta none w hostname = w
  name_sta (some h) w hostname = N.sta_set_hostname w h hostname

  -- Its result is thrown away.
  unfoldable pub set_hostname : Wifi → N.World → List ℕ → N.World
  unfolding name_ap name_sta
  set_hostname s w hostname = name_ap s.ap (name_sta s.sta w hostname) hostname

-- Without a station every question about it has its empty answer, whatever the system would say,
-- connect does nothing and a scan finds nothing and changes nothing.
pub no_station :
    (N : Net) (s : Wifi) (w : N.World) (index : ℤ) (async : Bool)
    → s.sta ≡ none
    → (rssi N s w ≡ pos 0)
      × (ssid N s w ≡ [])
      × (local_ip N s w ≡ 0)
      × (subnet_mask N s w ≡ 0)
      × (gateway_ip N s w ≡ 0)
      × (dns_ip N s w ≡ 0)
      × (dns_ip_at N s w index ≡ 0)
      × (get_sta_netif N s w ≡ none)
      × (connect N s w ≡ w)
      × (scan_networks N s w async ≡ (0, s, w))
unfolding rssi ssid local_ip subnet_mask gateway_ip dns_ip dns_ip_at get_sta_netif connect
    scan_networks
no_station N s w index async e = (
  elim (Bool-cases (is_connected N s w)) [ inl y ↦ rw (y, e) refl | inr n ↦ rw n refl ],
  rw e refl,
  elim (Bool-cases (is_connected N s w)) [ inl y ↦ rw (y, e) refl | inr n ↦ rw n refl ],
  rw e refl,
  rw e refl,
  rw e refl,
  rw e refl,
  rw e refl,
  rw e refl,
  rw e refl,
)
