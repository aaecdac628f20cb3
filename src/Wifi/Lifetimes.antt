-- ===== src/Wifi/Lifetimes.antt =====
-- The station and access point objects of WiFiClass over any history of its methods and events.
mod Tests
use base_utilities_esp.Base.{
  ℕ, ◌≡◌, refl, sym, ap, ◌∙◌, Bool, true, false, not, ◌&&◌, Option, none, some, List, [], ◌∷◌, ◌==◌,
  ==_iff, if◌then◌else◌, ℤ, arith, Bool-cases, Option-cases, inl, inr, is_some,
}
use base_utilities_esp.Wifi.Radio.{Mode, StaConfig, ApConfig, ApRecord}
use base_utilities_esp.Wifi.{
  Wifi, make, begin, begin_sta, connect, connect_to, end, soft_ap, soft_ap_end, set_mode, get_mode,
  scan_networks, free_results, handle_ip, handle_disconnect, on_connected, on_disconnected,
  drop_sta, drop_ap, stop_sta, stop_ap, connect_sta, scan_by, keep_results, sta_config, ap_config,
}
use base_utilities_esp.Wifi.Station.{set_hostname, name_ap, name_sta}
use base_utilities_esp.Wifi.Calls.{Method}
use base_utilities_esp.Wifi.Ledger.{Act, Answers, ledger, sta_lives, ap_lives, permitted, orderly}
use base_utilities_esp.Wifi.Objects.{
  NewLaws, holds, Owns, Owned, same, set_mode-Owns, new_sta-Owns, new_ap-Owns, stop_sta-Owns,
  stop_ap-Owns, connect_sta-Owns, name_sta-Owns, name_ap-Owns, free_results-same, keep_results-same,
}

-- The methods that change the object or the world.
unfoldable pub run : (A : Answers) → Method → Wifi → List Act → Wifi × List Act
run A Method.begin_only s w = (begin_sta (ledger A) s, w)
run A (Method.begin ssid password) s w = begin (ledger A) s w ssid password
run A Method.connect s w = (s, connect (ledger A) s w)
run A (Method.connect_to ssid password) s w = connect_to (ledger A) s w ssid password
run A Method.end s w = end (ledger A) s w
run A (Method.soft_ap ssid password channel hidden max) s w =
    soft_ap (ledger A) s w ssid password channel hidden max
run A Method.soft_ap_end s w = soft_ap_end (ledger A) s w
run A (Method.set_mode mode) s w = set_mode (ledger A) s w mode
run A Method.get_mode s w = ((get_mode (ledger A) s w).1, w)
run A (Method.scan_networks async) s w =
    let (count, t, v) = scan_networks (ledger A) s w async in (t, v)
run A (Method.set_hostname name) s w = (s, set_hostname (ledger A) s w name)
run A (Method.on_connected set) s w = (on_connected s set, w)
run A (Method.on_disconnected set) s w = (on_disconnected s set, w)

pub data Reachable (A : Answers) : Wifi → List Act → Type 0 where
  constructed : Reachable A make []
  called :
      (m : Method) (s : Wifi) (w : List Act)
      → Reachable A s w
      → Reachable A (run A m s w).0 (run A m s w).1
  got_ip :
      (addr : ℕ) (s : Wifi) (w : List Act)
      → Reachable A s w
      → Reachable A (handle_ip A.ntohl s addr).1 w
  lost_ip : (s : Wifi) (w : List Act) → Reachable A s w → Reachable A (handle_disconnect s).1 w

module _ (A : Answers) (L : NewLaws A) where
  scan_by-Owned :
      (o : Option ℕ) (s : Wifi) (w : List Act)
      → s.sta ≡ o
      → Owned s w
      → let (count, t, v) = scan_by (ledger A) o s w in Owned t v
  unfolding scan_by sta_lives ap_lives permitted orderly
  scan_by-Owned none s w e owns = owns
  scan_by-Owned (some k) s w e owns =
      let results = A.sta_scan w k 20 in
      let kept = keep_results-same A L (free_results s) (Act.sta_scan k ∷ w) results in
      let freed = free_results-same A L s in
      let lives : sta_lives k w ≡ true = owns.0 k ∙ ap (λ o. holds o k) e ∙ same k in
      rw (kept.0, kept.1, freed.0, freed.1) (owns.0, owns.1, rw (lives, owns.2) refl)

  begin-Owned :
      (s : Wifi) (w : List Act) (ssid : List ℕ) (password : Option (List ℕ))
      → Owned s w
      → let (t, v) = begin (ledger A) s w ssid password in Owned t v
  unfolding begin begin_sta
  begin-Owned s w ssid password owns =
      set_mode-Owns A L _ Mode.sta_mode _ (new_sta-Owns A L s.sta s.ap _ w owns)

  connect-Owned : (s : Wifi) (w : List Act) → Owned s w → Owned s (connect (ledger A) s w)
  unfolding connect
  connect-Owned s w owns = connect_sta-Owns A L s.sta s.ap w owns

  end-Owned :
      (s : Wifi) (w : List Act)
      → Owned s w
      → let (t, v) = end (ledger A) s w in Owned t v × (t.sta ≡ none) × (t.ap ≡ none)
  unfolding end
  end-Owned s w owns =
      let freed =
        free_results-same A L
          (record s { sta = none; ap = none; connected = false; mode = Mode.null_mode }) in
      (
        rw (freed.0, freed.1) (stop_ap-Owns A L none s.ap _ (stop_sta-Owns A L s.sta s.ap w owns)),
        freed.0,
        freed.1,
      )

  get_mode-Owned : (s : Wifi) (w : List Act) → Owned s w → Owned (get_mode (ledger A) s w).1 w
  unfolding get_mode
  get_mode-Owned s w owns = elim (Option-cases (A.get_mode w)) [
    | inl e ↦ rw (e, get_mode) owns
    | inr (m, e) ↦ rw (e, get_mode) owns
  ]

  run-Owned :
      (m : Method) (s : Wifi) (w : List Act) → Owned s w → Owned (run A m s w).0 (run A m s w).1
  unfolding run begin_sta connect_to soft_ap soft_ap_end get_mode scan_networks set_hostname
      on_connected on_disconnected
  run-Owned Method.begin_only s w owns = owns
  run-Owned (Method.begin ssid password) s w owns = begin-Owned s w ssid password owns
  run-Owned Method.connect s w owns = connect-Owned s w owns
  run-Owned (Method.connect_to ssid password) s w owns =
      connect-Owned _ _ (begin-Owned s w ssid password owns)
  run-Owned Method.end s w owns = (end-Owned s w owns).0
  run-Owned (Method.soft_ap ssid password channel hidden max) s w owns =
      set_mode-Owns A L _ _ _ (new_ap-Owns A L s.sta s.ap _ w owns)
  run-Owned Method.soft_ap_end s w owns =
      set_mode-Owns A L _ _ _ (stop_ap-Owns A L s.sta s.ap w owns)
  run-Owned (Method.set_mode mode) s w owns = set_mode-Owns A L s mode w owns
  run-Owned Method.get_mode s w owns = get_mode-Owned s w owns
  run-Owned (Method.scan_networks async) s w owns = scan_by-Owned s.sta s w refl owns
  run-Owned (Method.set_hostname name) s w owns =
      name_ap-Owns A L s.sta s.ap name _ (name_sta-Owns A L s.sta s.ap name w owns)
  run-Owned (Method.on_connected set) s w owns = owns
  run-Owned (Method.on_disconnected set) s w owns = owns

  history-Owned : (s : Wifi) (w : List Act) → Reachable A s w → Owned s w
  unfolding handle_ip handle_disconnect sta_lives ap_lives orderly
  history-Owned s w Reachable.constructed = (λ h. refl, λ h. refl, refl)
  history-Owned s w (Reachable.called m t v r) = run-Owned m t v (history-Owned t v r)
  history-Owned s w (Reachable.got_ip addr t v r) = history-Owned t v r
  history-Owned s w (Reachable.lost_ip t v r) = history-Owned t v r

  -- Whatever methods are called, whatever events come and whatever espp answers: the stations and
  -- access points that live are those that the object holds, so at most one of each; every call was
  -- on one that lived, so none was used after its end nor deleted twice; and after `end` none lives.
  pub Reachable-Owned :
      (s : Wifi) (w : List Act)
      → Reachable A s w
      → Owned s w
        × (let (t, v) = end (ledger A) s w in
            (h : ℕ) → (sta_lives h v ≡ false) × (ap_lives h v ≡ false))
  Reachable-Owned s w r =
      let owns = history-Owned s w r in
      let (owns', no_sta, no_ap) = end-Owned s w owns in
      (owns, λ h. (owns'.0 h ∙ ap (λ o. holds o h) no_sta, owns'.1 h ∙ ap (λ o. holds o h) no_ap))

-- `begin` on an object that has a station makes the new station while the old one still lives, and
-- deletes the old one after that, whatever espp answers.
pub begin-order :
    (A : Answers) (s : Wifi) (w : List Act) (ssid : List ℕ) (password : Option (List ℕ)) (k : ℕ)
    → s.sta ≡ some k
    → let made = Act.make_sta (sta_config (ledger A) ssid password) (A.new_sta w) ∷ w in
      let v = Act.delete_sta k ∷ made in
      (begin (ledger A) s w ssid password).1
      ≡ (if A.null_get_mode_ok v then Act.set_mode Mode.sta_mode ∷ v else v)
unfolding begin begin_sta set_mode drop_sta
begin-order A s w ssid password k e = rw e refl
