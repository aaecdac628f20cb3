-- ===== src/Wifi/Lifetimes/Tests.antt =====
-- A station that is begun twice, next to an access point, and the end of both.
use base_utilities_esp.Base.{
  ℕ, suc, List, ℤ, ◌+◌, ◌≤◌, ◌≡◌, refl, true, false, none, some, [], ◌∷◌, pos, arith, length, ltb,
}
use base_utilities_esp.Wifi.{
  Wifi, make, scanned, destroy, scan_networks, scan_by, keep_results, free_results, begin,
  begin_sta, set_mode, soft_ap, end, drop_sta, drop_ap, sta_config, connect, connect_to,
  connect_sta,
}
use base_utilities_esp.Wifi.Radio.{ApRecord}
use base_utilities_esp.Wifi.Scanning.{element}
use base_utilities_esp.Wifi.Results.{records, Reachable-scanned}
use base_utilities_esp.Wifi.Calls.{Method}
use base_utilities_esp.Wifi.Ledger.{Act, Answers, ledger, sta_lives, ap_lives}
use base_utilities_esp.Wifi.Objects.{NewLaws, Owned}
use base_utilities_esp.Wifi.Lifetimes.{run, Reachable, Reachable-Owned, begin-order}

-- A number above the addresses of all objects so far.
abbrev above : List Act → ℕ
above [] = 0
above (Act.make_sta c k ∷ w) = suc (k + above w)
above (Act.make_ap c k ∷ w) = suc (k + above w)
above (a ∷ w) = above w

sta_lives-above : (w : List Act) (h : ℕ) → above w ≤ h → sta_lives h w ≡ false
unfolding sta_lives
sta_lives-above [] h le = refl
sta_lives-above (Act.make_sta c k ∷ w) h le = ground (arith, sta_lives-above w h)
sta_lives-above (Act.make_ap c k ∷ w) h le = ground (arith, sta_lives-above w h)
sta_lives-above (a ∷ w) h le = ground (arith, sta_lives-above w h)

ap_lives-above : (w : List Act) (h : ℕ) → above w ≤ h → ap_lives h w ≡ false
unfolding ap_lives
ap_lives-above [] h le = refl
ap_lives-above (Act.make_sta c k ∷ w) h le = ground (arith, ap_lives-above w h)
ap_lives-above (Act.make_ap c k ∷ w) h le = ground (arith, ap_lives-above w h)
ap_lives-above (a ∷ w) h le = ground (arith, ap_lives-above w h)

abbrev espp : Answers
espp = record {
  new_sta = above;
  new_ap = above;
  sta_is_connected = λ w h. false;
  sta_ssid = λ w h. [];
  sta_scan = λ w h n. [];
  sta_netif = λ w h. 0;
  sta_hostname = λ w h. [];
  ap_stations = λ w h. 0;
  ap_netif = λ w h. 0;
  ap_hostname = λ w h. [];
  null_get_mode_ok = λ w. false;
  get_mode = λ w. none;
  get_rssi = λ w. none;
  ip_info = λ w n. none;
  dns_info = λ w n b. none;
  malloc_ok = λ w n. true;
  ntohl = λ n. n;
}

espp-NewLaws : NewLaws espp
espp-NewLaws = record {
  sta_fresh = λ w. sta_lives-above w (above w) (omega arith);
  ap_fresh = λ w. ap_lives-above w (above w) (omega arith);
}

abbrev one_station : Wifi × List Act
one_station = run espp (Method.connect_to (104 ∷ []) none) make []

abbrev and_ap : Wifi × List Act
and_ap = run espp (Method.soft_ap (97 ∷ []) none (pos 1) false (pos 4)) one_station.0 one_station.1

abbrev again : Wifi × List Act
again = run espp (Method.begin (99 ∷ []) none) and_ap.0 and_ap.1

again-Reachable : Reachable espp again.0 again.1
again-Reachable = Reachable.called (Method.begin (99 ∷ []) none) _ _ (
    Reachable.called (Method.soft_ap (97 ∷ []) none (pos 1) false (pos 4)) _ _
      (Reachable.called (Method.connect_to (104 ∷ []) none) _ _ Reachable.constructed))

again_lem : (again.0.sta ≡ some 3) × (again.0.ap ≡ some 1) × (length again.1 ≡ 5)
unfolding run begin begin_sta connect_to connect soft_ap set_mode drop_sta drop_ap connect_sta
again_lem = (refl, refl, refl)

Reachable-Owned_example :
    Owned again.0 again.1
    × (let (t, v) = end (ledger espp) again.0 again.1 in
        (h : ℕ) → (sta_lives h v ≡ false) × (ap_lives h v ≡ false))
Reachable-Owned_example = Reachable-Owned espp espp-NewLaws again.0 again.1 again-Reachable

begin-order_instance :
    let made = Act.make_sta (sta_config (ledger espp) (99 ∷ []) none) (above and_ap.1) ∷ and_ap.1 in
    let v = Act.delete_sta 0 ∷ made in (begin (ledger espp) and_ap.0 and_ap.1 (99 ∷ []) none).1 ≡ v
unfolding run begin begin_sta connect_to connect soft_ap set_mode drop_sta drop_ap connect_sta
begin-order_instance = begin-order espp and_ap.0 and_ap.1 (99 ∷ []) none 0 refl

-- A scan that finds one network, and one that is lost for want of memory after it.
abbrev network : ApRecord
network = record { ssid = 110 ∷ []; rssi = pos 0; is_open = true; primary = 6 }

abbrev busy : Answers
busy = record espp { sta_scan = λ w h n. network ∷ []; malloc_ok = λ w n. ltb (length w) 4 }

abbrev joined : Wifi × List Act
joined = run busy (Method.connect_to (104 ∷ []) none) make []

abbrev filled : Wifi × List Act
filled = run busy (Method.scan_networks false) joined.0 joined.1

abbrev refilled : Wifi × List Act
refilled = run busy (Method.scan_networks false) filled.0 filled.1

filled-Reachable : Reachable busy filled.0 filled.1
filled-Reachable =
    Reachable.called (Method.scan_networks false) _ _
      (Reachable.called (Method.connect_to (104 ∷ []) none) _ _ Reachable.constructed)

-- After the second scan the count is 1 and there is no array: the getters find nothing.
filled_lem :
    (scanned filled.0 (pos 0) ≡ some (some network))
    × (scanned filled.0 (pos 1) ≡ some none)
    × (refilled.0.scan_count ≡ 1)
    × (scanned refilled.0 (pos 0) ≡ some none)
unfolding run begin begin_sta connect_to connect set_mode drop_sta connect_sta scan_networks scan_by
    keep_results free_results scanned
filled_lem = (refl, refl, refl, refl)

Reachable-scanned_example :
    ((index : ℤ) → scanned filled.0 index ≡ some (element (records filled.0.scan_results) index))
    × ((rs : List ApRecord) → filled.0.scan_results ≡ some rs → length rs ≡ filled.0.scan_count)
    × (destroy (ledger busy) filled.0 filled.1 ≡ end (ledger busy) filled.0 filled.1)
Reachable-scanned_example = Reachable-scanned busy filled.0 filled.1 filled-Reachable
