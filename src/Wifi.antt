-- ===== src/Wifi.antt =====
-- src/WiFi.cpp: the class WiFiClass. A method takes the object and the world behind it and returns both,
-- with its result; a method that returns *this has no other.
pub mod Radio
pub mod Scanning
pub mod Modes
pub mod Station
pub mod Ledger
pub mod Calls
pub mod Objects
pub mod Lifetimes
pub mod Results
pub mod Addresses
mod Tests
use base_utilities_esp.Base.{
  ℕ, zero, suc, ◌*◌, ◌%◌, ◌^◌, ◌-◌, Bool, true, false, not, ◌&&◌, ◌||◌, Option, none, some, List,
  [], ◌∷◌, length, take, get_elem?, ltb, leb, ◌==◌, if◌then◌else◌, is_some, map_option, ℤ, pos,
  negsuc,
}
use Radio.{Mode, StaConfig, ApConfig, ApRecord, IpInfo, Radio as Net}

pub record Wifi : Type 0 where
  pub sta : Option ℕ
  pub ap : Option ℕ
  pub mode : Mode
  pub connected : Bool
  pub scan_results : Option (List ApRecord)
  pub scan_count : ℕ
  -- Whether a callback is set.
  pub connected_callback : Bool
  pub disconnected_callback : Bool

abbrev pub make : Wifi
make = record {
  sta = none;
  ap = none;
  mode = Mode.null_mode;
  connected = false;
  scan_results = none;
  scan_count = 0;
  connected_callback = false;
  disconnected_callback = false;
}

-- What a getter reads at an index: no record if its guard returns early, and `none`, a fault, if the
-- index that the guard lets through is outside of the array.
unfoldable pub scanned : Wifi → ℤ → Option (Option ApRecord)
scanned s (negsuc n) = some none
scanned s (pos index) = if leb s.scan_count index then some none else elim s.scan_results [
  | none ↦ some none
  | some records ↦ map_option some (get_elem? records index)
]

unfoldable pub get_ssid : Wifi → ℤ → Option (List ℕ)
get_ssid s index = map_option (λ o. elim o [ none ↦ [] | some r ↦ r.ssid ]) (scanned s index)

unfoldable pub get_rssi : Wifi → ℤ → Option ℤ
get_rssi s index = map_option (λ o. elim o [ none ↦ pos 0 | some r ↦ r.rssi ]) (scanned s index)

unfoldable pub get_encrypted : Wifi → ℤ → Option Bool
get_encrypted s index =
    map_option (λ o. elim o [ none ↦ false | some r ↦ not r.is_open ]) (scanned s index)

unfoldable pub get_channel : Wifi → ℤ → Option ℕ
get_channel s index = map_option (λ o. elim o [ none ↦ 0 | some r ↦ r.primary ]) (scanned s index)

-- `if (m_scan_results) { free(m_scan_results); … }`
unfoldable pub free_results : Wifi → Wifi
free_results s =
    if is_some s.scan_results then record s { scan_results = none; scan_count = 0 } else s

-- The address handed to a callback that is set, and the object.
unfoldable pub handle_ip : (ntohl : ℕ → ℕ) → Wifi → ℕ → Option ℕ × Wifi
handle_ip ntohl s addr =
    (if s.connected_callback then some (ntohl addr) else none, record s { connected = true })

-- Whether the callback ran, and the object.
unfoldable pub handle_disconnect : Wifi → Bool × Wifi
handle_disconnect s = (s.disconnected_callback, record s { connected = false })

unfoldable pub on_connected : Wifi → Bool → Wifi
on_connected s callback = record s { connected_callback = callback }

unfoldable pub on_disconnected : Wifi → Bool → Wifi
on_disconnected s callback = record s { disconnected_callback = callback }

module _ (N : Net) where
  unfoldable pub set_mode : Wifi → N.World → Mode → Wifi × N.World
  set_mode s w mode =
      (record s { mode = mode }, if N.null_get_mode_ok w then N.set_mode w mode else w)

  unfoldable pub get_mode : Wifi → N.World → Mode × Wifi
  get_mode s w = elim (N.get_mode w) [
    | none ↦ (Mode.null_mode, s)
    | some mode ↦ (mode, record s { mode = mode })
  ]

  -- The old object behind a unique_ptr is deleted when a new one takes its place.
  pub drop_sta : Option ℕ → N.World → N.World
  drop_sta none w = w
  drop_sta (some h) w = N.delete_sta w h

  pub drop_ap : Option ℕ → N.World → N.World
  drop_ap none w = w
  drop_ap (some h) w = N.delete_ap w h

  -- begin()
  unfoldable pub begin_sta : Wifi → Wifi
  begin_sta s = record s { mode = Mode.sta_mode }

  pub sta_config : List ℕ → Option (List ℕ) → StaConfig
  sta_config ssid password = record {
    ssid = ssid;
    password = elim password [ none ↦ [] | some p ↦ p ];
    auto_connect = false;
    num_connect_retries = 2 ^ 32 - 1;
  }

  -- begin(ssid, password)
  unfoldable pub begin : Wifi → N.World → List ℕ → Option (List ℕ) → Wifi × N.World
  unfolding drop_sta sta_config
  begin s w ssid password =
      let s₁ : Wifi = begin_sta s in
      let (h, w₁) = N.make_sta w (sta_config ssid password) in
      set_mode (record s₁ { sta = some h }) (drop_sta s₁.sta w₁) Mode.sta_mode

  pub connect_sta : Option ℕ → N.World → N.World
  connect_sta none w = w
  connect_sta (some h) w = if not (N.sta_is_connected w h) then N.sta_connect w h else w

  -- connect()
  unfoldable pub connect : Wifi → N.World → N.World
  unfolding connect_sta
  connect s w = connect_sta s.sta w

  -- connect(ssid, password)
  unfoldable pub connect_to : Wifi → N.World → List ℕ → Option (List ℕ) → Wifi × N.World
  connect_to s w ssid password = let (s₁, w₁) = begin s w ssid password in (s₁, connect s₁ w₁)

  -- `stop()` and `reset()` of a station and of an access point.
  pub stop_sta : Option ℕ → N.World → N.World
  stop_sta none w = w
  stop_sta (some h) w = N.delete_sta (N.sta_stop w h) h

  pub stop_ap : Option ℕ → N.World → N.World
  stop_ap none w = w
  stop_ap (some h) w = N.delete_ap (N.ap_stop w h) h

  unfoldable pub end : Wifi → N.World → Wifi × N.World
  unfolding stop_sta stop_ap
  end s w = (
    free_results (record s { sta = none; ap = none; connected = false; mode = Mode.null_mode }),
    stop_ap s.ap (stop_sta s.sta w),
  )

  -- The destructor. Its own test of the results comes after that of `end`; both pointers to the
  -- objects are null by then.
  unfoldable pub destroy : Wifi → N.World → Wifi × N.World
  destroy s w = let (s₁, w₁) = end s w in (free_results s₁, w₁)

  ap_config : List ℕ → Option (List ℕ) → ℤ → ℤ → ApConfig
  ap_config ssid password channel max_connection = record {
    ssid = ssid;
    password = elim password [ none ↦ [] | some p ↦ if leb 8 (length p) then p else [] ];
    channel = channel;
    max_number_of_stations = max_connection;
  }

  -- `hidden` is not used.
  unfoldable pub soft_ap : Wifi → N.World → List ℕ → Option (List ℕ) → ℤ → Bool → ℤ → Wifi × N.World
  unfolding drop_ap ap_config
  soft_ap s w ssid password channel hidden max_connection =
      let (h, w₁) = N.make_ap w (ap_config ssid password channel max_connection) in
      set_mode (record s { ap = some h }) (drop_ap s.ap w₁)
        (if is_some s.sta then Mode.apsta_mode else Mode.ap_mode)

  unfoldable pub soft_ap_end : Wifi → N.World → Wifi × N.World
  unfolding stop_ap
  soft_ap_end s w =
      set_mode (record s { ap = none }) (stop_ap s.ap w)
        (if is_some s.sta then Mode.sta_mode else Mode.null_mode)

  -- `scanNetworks` from the size of the scan on; m_scan_count is a uint16_t.
  pub keep_results : Wifi → N.World → List ApRecord → ℕ × Wifi
  keep_results s w results =
      let count : ℕ = length results % 2 ^ 16 in
      if count == 0
      then (0, record s { scan_count = count })
      else if not (N.malloc_ok w count)
      then (0, record s { scan_count = count; scan_results = none })
      else (count, record s { scan_count = count; scan_results = some (take count results) })

  pub scan_by : Option ℕ → Wifi → N.World → ℕ × Wifi × N.World
  unfolding keep_results
  scan_by none s w = (0, s, w)
  scan_by (some h) s w =
      let (results, w₁) = N.sta_scan w h 20 in
      let (count, s₁) = keep_results (free_results s) w₁ results in (count, s₁, w₁)

  -- `async` is not used.
  unfoldable pub scan_networks : Wifi → N.World → Bool → ℕ × Wifi × N.World
  unfolding scan_by
  scan_networks s w async = scan_by s.sta s w
