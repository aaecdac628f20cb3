-- ===== src/Wifi/Objects.antt =====
-- What the helpers of WiFiClass do with the station and the access point that it holds.
use base_utilities_esp.Base.{
  ℕ, ◌≡◌, refl, sym, ap, ◌∙◌, Bool, true, false, Option, none, some, List, ◌∷◌, ◌==◌, ==_iff, arith,
  Bool-cases, inl, inr,
}
use base_utilities_esp.Wifi.Radio.{Mode, StaConfig, ApConfig, ApRecord}
use base_utilities_esp.Wifi.{
  Wifi, set_mode, free_results, drop_sta, drop_ap, stop_sta, stop_ap, connect_sta, keep_results,
}
use base_utilities_esp.Wifi.Station.{name_ap, name_sta}
use base_utilities_esp.Wifi.Ledger.{Act, Answers, ledger, sta_lives, ap_lives, permitted, orderly}

-- `new` gives an address where no object lives.
pub record NewLaws (A : Answers) : Type 0 where
  pub sta_fresh : (w : List Act) → sta_lives (A.new_sta w) w ≡ false
  pub ap_fresh : (w : List Act) → ap_lives (A.new_ap w) w ≡ false

-- Whether the object has the address.
abbrev pub holds : Option ℕ → ℕ → Bool
holds none h = false
holds (some k) h = k == h

-- What lives is what the object holds, and every call so far was on an object that lived.
abbrev pub Owns : Option ℕ → Option ℕ → List Act → Type 0
Owns sta ap w =
    ((h : ℕ) → sta_lives h w ≡ holds sta h)
    × ((h : ℕ) → ap_lives h w ≡ holds ap h)
    × (orderly w ≡ true)

-- The same of a WiFiClass.
abbrev pub Owned : Wifi → List Act → Type 0
Owned s = Owns s.sta s.ap

pub same : (h : ℕ) → (h == h) ≡ true
same h = (==_iff h h).1 refl

module _ (A : Answers) (L : NewLaws A) where
  pub new_sta-Owns :
      (sta ap : Option ℕ) (c : StaConfig) (w : List Act)
      → Owns sta ap w
      → Owns (some (A.new_sta w)) ap (drop_sta (ledger A) sta (Act.make_sta c (A.new_sta w) ∷ w))
  unfolding drop_sta sta_lives ap_lives permitted orderly
  new_sta-Owns none ap c w (stas, aps, ok) =
      (λ h. ground (arith, stas h), aps, rw (L.sta_fresh w, ok) refl)
  new_sta-Owns (some k) ap c w (stas, aps, ok) =
      let apart : (k == A.new_sta w) ≡ false = sym (stas (A.new_sta w)) ∙ L.sta_fresh w in
      (λ h. ground (arith, stas h, apart), aps, ground (arith, stas k, same k, L.sta_fresh w, ok))

  pub new_ap-Owns :
      (sta ap : Option ℕ) (c : ApConfig) (w : List Act)
      → Owns sta ap w
      → Owns sta (some (A.new_ap w)) (drop_ap (ledger A) ap (Act.make_ap c (A.new_ap w) ∷ w))
  unfolding drop_ap sta_lives ap_lives permitted orderly
  new_ap-Owns sta none c w (stas, aps, ok) =
      (stas, λ h. ground (arith, aps h), rw (L.ap_fresh w, ok) refl)
  new_ap-Owns sta (some k) c w (stas, aps, ok) =
      let apart : (k == A.new_ap w) ≡ false = sym (aps (A.new_ap w)) ∙ L.ap_fresh w in
      (stas, λ h. ground (arith, aps h, apart), ground (arith, aps k, same k, L.ap_fresh w, ok))

  pub stop_sta-Owns :
      (sta ap : Option ℕ) (w : List Act) → Owns sta ap w → Owns none ap (stop_sta (ledger A) sta w)
  unfolding stop_sta sta_lives ap_lives permitted orderly
  stop_sta-Owns none ap w owns = owns
  stop_sta-Owns (some k) ap w (stas, aps, ok) =
      (λ h. ground (arith, stas h), aps, rw (stas k, same k, ok) refl)

  pub stop_ap-Owns :
      (sta ap : Option ℕ) (w : List Act) → Owns sta ap w → Owns sta none (stop_ap (ledger A) ap w)
  unfolding stop_ap sta_lives ap_lives permitted orderly
  stop_ap-Owns sta none w owns = owns
  stop_ap-Owns sta (some k) w (stas, aps, ok) =
      (stas, λ h. ground (arith, aps h), rw (aps k, same k, ok) refl)

  pub connect_sta-Owns :
      (sta ap : Option ℕ) (w : List Act)
      → Owns sta ap w
      → Owns sta ap (connect_sta (ledger A) sta w)
  unfolding connect_sta sta_lives ap_lives permitted orderly
  connect_sta-Owns none ap w owns = owns
  connect_sta-Owns (some k) ap w owns = elim (Bool-cases (A.sta_is_connected w k)) [
    | inl y ↦ rw y owns
    | inr n ↦ rw n (owns.0, owns.1, rw (owns.0 k, same k, owns.2) refl)
  ]

  pub name_sta-Owns :
      (sta ap : Option ℕ) (name : List ℕ) (w : List Act)
      → Owns sta ap w
      → Owns sta ap (name_sta (ledger A) sta w name)
  unfolding name_sta sta_lives ap_lives permitted orderly
  name_sta-Owns none ap name w owns = owns
  name_sta-Owns (some k) ap name w owns = (owns.0, owns.1, rw (owns.0 k, same k, owns.2) refl)

  pub name_ap-Owns :
      (sta ap : Option ℕ) (name : List ℕ) (w : List Act)
      → Owns sta ap w
      → Owns sta ap (name_ap (ledger A) ap w name)
  unfolding name_ap sta_lives ap_lives permitted orderly
  name_ap-Owns sta none name w owns = owns
  name_ap-Owns sta (some k) name w owns = (owns.0, owns.1, rw (owns.1 k, same k, owns.2) refl)

  pub set_mode-Owns :
      (s : Wifi) (m : Mode) (w : List Act)
      → Owned s w
      → let (t, v) = set_mode (ledger A) s w m in Owned t v
  unfolding set_mode sta_lives ap_lives permitted orderly
  set_mode-Owns s m w owns = elim (Bool-cases (A.null_get_mode_ok w)) [
    | inl y ↦ rw y owns
    | inr n ↦ rw n owns
  ]

  pub free_results-same : (s : Wifi) → ((free_results s).sta ≡ s.sta) × ((free_results s).ap ≡ s.ap)
  unfolding free_results
  free_results-same s = ground arith

  pub keep_results-same :
      (s : Wifi) (w : List Act) (results : List ApRecord)
      → ((keep_results (ledger A) s w results).1.sta ≡ s.sta)
        × ((keep_results (ledger A) s w results).1.ap ≡ s.ap)
  unfolding keep_results
  keep_results-same s w results = ground arith
