-- ===== src/Wifi/Scanning.antt =====
-- Scans of WiFiClass and what the getters of their results give.
use base_utilities_esp.Base.{
  ℕ, zero, suc, ◌≤◌, ◌<◌, ◌%◌, ◌^◌, ◌==◌, leb, Bool, false, ◌≡◌, refl, sym, ap, map_option, subst,
  ◌∙◌, Option, none, some, List, [], ◌∷◌, length, take_all, get_elem?, if◌then◌else◌, ℤ, pos,
  negsuc, arith, Bool-cases, inl, inr,
}
use base_utilities_esp.Wifi.Radio.{ApRecord, Radio as Net}
use base_utilities_esp.Wifi.{Wifi, scanned, free_results, keep_results, scan_by, scan_networks}

abbrev pub element : List ApRecord → ℤ → Option ApRecord
element rs (pos i) = get_elem? rs i
element rs (negsuc n) = none

get_elem?-past : (rs : List ApRecord) (i : ℕ) → length rs ≤ i → get_elem? rs i ≡ none
get_elem?-past [] i h = refl
get_elem?-past (r ∷ rs) zero h = absurd (omega arith)
get_elem?-past (r ∷ rs) (suc i) h = get_elem?-past rs i (omega arith)

-- A read inside of the array.
inside_array :
    (rs : List ApRecord) (i : ℕ)
    → i < length rs
    → map_option some (get_elem? rs i) ≡ some (get_elem? rs i)
inside_array [] i h = absurd (omega arith)
inside_array (r ∷ rs) zero h = refl
inside_array (r ∷ rs) (suc i) h = inside_array rs i (omega arith)

pub scanned-full :
    (s : Wifi) (rs : List ApRecord) (index : ℤ)
    → s.scan_results ≡ some rs
    → s.scan_count ≡ length rs
    → scanned s index ≡ some (element rs index)
unfolding scanned
scanned-full s rs (negsuc n) e c = refl
scanned-full s rs (pos i) e c = elim (Bool-cases (leb s.scan_count i)) [
  | inl past ↦ rw (past, get_elem?-past rs i (ground (arith, c))) refl
  | inr inside ↦ rw (inside, e) (inside_array rs i (ground (arith, c)))
]

scan_results-free_results : (s : Wifi) → (free_results s).scan_results ≡ none
unfolding free_results
scan_results-free_results s = ground arith

pub scanned-none : (s : Wifi) (index : ℤ) → s.scan_results ≡ none → scanned s index ≡ some none
unfolding scanned
scanned-none s (negsuc n) e = refl
scanned-none s (pos i) e = elim (Bool-cases (leb s.scan_count i)) [
  | inl past ↦ rw past refl
  | inr inside ↦ rw (inside, e) refl
]

pub element-nil : (index : ℤ) → element [] index ≡ none
element-nil (pos i) = refl
element-nil (negsuc n) = refl

module _ (N : Net) where
  -- What is kept of the results of a scan.
  abbrev pub kept : N.World → List ApRecord → List ApRecord
  kept w results = if N.malloc_ok w (length results) then results else []

  keep_results_lem :
      (s : Wifi) (w : N.World) (results : List ApRecord)
      → s.scan_results ≡ none
      → length results < 2 ^ 16
      → let (count, t) = keep_results N s w results in
        (count ≡ length (kept w results))
        × ((index : ℤ) → scanned t index ≡ some (element (kept w results) index))
  unfolding keep_results
  keep_results_lem s w [] none_yet small = elim (Bool-cases (N.malloc_ok w 0)) [
    | inl room ↦
        rw room (refl, λ index. scanned-none _ index none_yet ∙ ap some (sym (element-nil index)))
    | inr full ↦
        rw full (refl, λ index. scanned-none _ index none_yet ∙ ap some (sym (element-nil index)))
  ]
  keep_results_lem s w (r ∷ rs) none_yet small =
      let fits : suc (length rs) % 65536 ≡ suc (length rs) = omega arith in
      let found : (suc (length rs) == 0) ≡ false = ground arith in
      elim (Bool-cases (N.malloc_ok w (suc (length rs)))) [
        | inl room ↦
            rw (fits, found, room, take_all (suc (length rs)) (r ∷ rs) (omega arith))
              (refl, λ index. scanned-full _ (r ∷ rs) index refl refl)
        | inr full ↦
            rw (fits, found, full)
              (refl, λ index. scanned-none _ index refl ∙ ap some (sym (element-nil index)))
      ]

  -- What a scan through the station `h` leaves.
  abbrev IsScan : N.World → ℕ → ℕ × Wifi × N.World → Type 0
  IsScan w h (count, t, v) =
      let (results, w₁) = N.sta_scan w h 20 in
      (count ≡ length (kept w₁ results))
      × ((index : ℤ) → scanned t index ≡ some (element (kept w₁ results) index))
      × (v ≡ w₁)

  -- A scan with a station that finds fewer than 2^16 networks reports how many of them it keeps, which
  -- are all if there is memory for them and else none; afterwards the getters find these networks at
  -- their indices, find none at any other index, and read nothing outside of the array, whatever was
  -- scanned before.
  pub scan_networks_lem :
      (s : Wifi) (w : N.World) (async : Bool) (h : ℕ)
      → s.sta ≡ some h
      → length (N.sta_scan w h 20).0 < 2 ^ 16
      → let (results, w₁) = N.sta_scan w h 20 in
        let (count, t, w₂) = scan_networks N s w async in
        (count ≡ length (kept w₁ results))
        × ((index : ℤ) → scanned t index ≡ some (element (kept w₁ results) index))
        × (w₂ ≡ w₁)
  unfolding scan_networks scan_by
  scan_networks_lem s w async h e small =
      let (results, w₁) = N.sta_scan w h 20 in
      let (count, guarded) =
        keep_results_lem (free_results s) w₁ results (scan_results-free_results s) small in
      subst (λ o. IsScan w h (scan_by N o s w)) (sym e) (count, guarded, refl)
