-- ===== src/Wifi/Results.antt =====
-- The array of scan results of WiFiClass over any history of its methods and events.
use native.Mathlib.Omega.{arith}
use base_utilities_esp.Base.{
  ℕ, ◌≡◌, refl, sym, ap, ◌∙◌, Option, none, some, List, [], ◌∷◌, ◌%◌, ◌^◌, ◌==◌, length,
  length-take, ℤ, Bool-cases, Option-cases, inl, inr,
}
use base_utilities_esp.Wifi.Radio.{ApRecord}
use base_utilities_esp.Wifi.{
  Wifi, begin, begin_sta, connect_to, end, destroy, soft_ap, soft_ap_end, set_mode, get_mode,
  scan_networks, free_results, handle_ip, handle_disconnect, on_connected, on_disconnected, scan_by,
  keep_results, scanned,
}
use base_utilities_esp.Wifi.Scanning.{element, element-nil, scanned-none, scanned-full}
use base_utilities_esp.Wifi.Calls.{Method}
use base_utilities_esp.Wifi.Ledger.{Act, Answers, ledger}
use base_utilities_esp.Wifi.Lifetimes.{run, Reachable}

-- The array, if there is one, has as many records as the count says.
abbrev Sized : Option (List ApRecord) → ℕ → Type 0
Sized results count = (rs : List ApRecord) → results ≡ some rs → length rs ≡ count

abbrev Counted : Wifi → Type 0
Counted s = Sized s.scan_results s.scan_count

-- The records that the object keeps.
abbrev pub records : Option (List ApRecord) → List ApRecord
records none = []
records (some rs) = rs

pub free_results-none : (s : Wifi) → (free_results s).scan_results ≡ none
unfolding free_results
free_results-none s = ground arith

free_results-idle : (s : Wifi) → s.scan_results ≡ none → free_results s ≡ s
unfolding free_results
free_results-idle s e = rw e refl

none-Sized : (results : Option (List ApRecord)) (count : ℕ) → results ≡ none → Sized results count
none-Sized results count e rs found = absurd (ground (arith, e, found))

scanned-Counted :
    (s : Wifi) (index : ℤ)
    → Counted s
    → scanned s index ≡ some (element (records s.scan_results) index)
scanned-Counted s index counted = elim (Option-cases s.scan_results) [
  | inl gone ↦
      scanned-none s index gone
      ∙ ap some (sym (ap (λ o. element (records o) index) gone ∙ element-nil index))
  | inr (rs, e) ↦
      scanned-full s rs index e (sym (counted rs e))
      ∙ ap (λ o. some (element (records o) index)) (sym e)
]

abbrev kept_length : Option (List ApRecord) → ℕ
kept_length none = 0
kept_length (some rs) = length rs

module _ (A : Answers) where
  keep_results-Counted :
      (s : Wifi) (w : List Act) (results : List ApRecord)
      → s.scan_results ≡ none
      → Counted (keep_results (ledger A) s w results).1
  unfolding keep_results
  keep_results-Counted s w results empty =
      let count : ℕ = length results % 2 ^ 16 in
      elim (Bool-cases (count == 0)) [
        | inl nothing ↦ rw nothing (none-Sized s.scan_results count empty)
        | inr some_found ↦ elim (Bool-cases (A.malloc_ok w count)) [
          | inr full ↦ rw (some_found, full) (none-Sized none count refl)
          | inl room ↦
              rw (some_found, room)
                (λ rs e. sym (ap kept_length e) ∙ length-take count results ∙ omega arith)
        ]
      ]

  scan_by-Counted :
      (o : Option ℕ) (s : Wifi) (w : List Act) → Counted s → Counted (scan_by (ledger A) o s w).1
  unfolding scan_by
  scan_by-Counted none s w counted = counted
  scan_by-Counted (some h) s w counted =
      keep_results-Counted (free_results s) (Act.sta_scan h ∷ w) (A.sta_scan w h 20)
        (free_results-none s)

  end-none : (s : Wifi) (w : List Act) → (end (ledger A) s w).0.scan_results ≡ none
  unfolding end
  end-none s w = free_results-none _

  run-Counted : (m : Method) (s : Wifi) (w : List Act) → Counted s → Counted (run A m s w).0
  unfolding run begin_sta begin set_mode connect_to soft_ap soft_ap_end get_mode scan_networks
      on_connected on_disconnected
  run-Counted Method.begin_only s w c = c
  run-Counted (Method.begin ssid password) s w c = c
  run-Counted Method.connect s w c = c
  run-Counted (Method.connect_to ssid password) s w c = c
  run-Counted Method.end s w c = none-Sized _ _ (end-none s w)
  run-Counted (Method.soft_ap ssid password channel hidden max) s w c = c
  run-Counted Method.soft_ap_end s w c = c
  run-Counted (Method.set_mode mode) s w c = c
  run-Counted Method.get_mode s w c = elim (Option-cases (A.get_mode w)) [
    | inl e ↦ rw (e, get_mode) c
    | inr (m, e) ↦ rw (e, get_mode) c
  ]
  run-Counted (Method.scan_networks async) s w c = scan_by-Counted s.sta s w c
  run-Counted (Method.set_hostname name) s w c = c
  run-Counted (Method.on_connected set) s w c = c
  run-Counted (Method.on_disconnected set) s w c = c

  history-Counted : (s : Wifi) (w : List Act) → Reachable A s w → Counted s
  unfolding handle_ip handle_disconnect
  history-Counted s w Reachable.constructed = none-Sized none 0 refl
  history-Counted s w (Reachable.called m t v r) = run-Counted m t v (history-Counted t v r)
  history-Counted s w (Reachable.got_ip addr t v r) = history-Counted t v r
  history-Counted s w (Reachable.lost_ip t v r) = history-Counted t v r

  -- Whatever methods are called, whatever events come and whatever espp answers, however many networks
  -- a scan finds: getSSID, getRSSI, getEncrypted and getChannel find the record at an index of the
  -- array and none at any other index, and read nothing outside of the array; the array has as many
  -- records as the count says; and the destructor does no more than `end`, so that the array is not
  -- freed twice.
  pub Reachable-scanned :
      (s : Wifi) (w : List Act)
      → Reachable A s w
      → ((index : ℤ) → scanned s index ≡ some (element (records s.scan_results) index))
        × ((rs : List ApRecord) → s.scan_results ≡ some rs → length rs ≡ s.scan_count)
        × (destroy (ledger A) s w ≡ end (ledger A) s w)
  unfolding destroy
  Reachable-scanned s w r =
      let counted = history-Counted s w r in
      (
        λ index. scanned-Counted s index counted,
        counted,
        ap (λ t. (t, (end (ledger A) s w).1))
            (free_results-idle (end (ledger A) s w).0 (end-none s w)),
      )
