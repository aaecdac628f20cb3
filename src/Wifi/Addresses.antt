-- ===== src/Wifi/Addresses.antt =====
-- The address of a station from the network interface to the text of an IPAddress.
mod Tests
use base_utilities_esp.Base.{
  ℕ, ◌<◌, ◌≡◌, refl, sym, ap, ◌∙◌, Bool, true, false, Option, none, some, List, [], ◌∷◌, ◌++◌, pos,
  le_value, if◌then◌else◌,
}
use base_utilities_esp.IpAddress.{from_bytes, get, octet, dotted, to_string}
use base_utilities_esp.IpAddress.Scan.{decimal}
use base_utilities_esp.IpAddress.RoundTrip.{get-from_bytes, to_string-dotted}
use base_utilities_esp.Wifi.Radio.{IpInfo, Radio as Net}
use base_utilities_esp.Wifi.{Wifi, handle_ip}
use base_utilities_esp.Wifi.Station.{is_connected, local_ip}

-- The text of four bytes with dots between them.
abbrev pub four_numbers : (a b c d : ℕ) → List ℕ
four_numbers a b c d =
    decimal 10 a ++ 46 ∷ (decimal 10 b ++ 46 ∷ (decimal 10 c ++ 46 ∷ decimal 10 d))

some-inj : {x y : ℕ} → ◌≡◌ {A = Option ℕ} (some x) (some y) → x ≡ y
some-inj e = cc

-- The printed address has the bytes that it was made of, the first one first.
to_string-from_bytes :
    (a b c d : ℕ)
    → a < 256
    → b < 256
    → c < 256
    → d < 256
    → to_string (from_bytes a b c d) ≡ four_numbers a b c d
unfolding dotted get
to_string-from_bytes a b c d ha hb hc hd =
    let (first, second, third, fourth) = get-from_bytes a b c d ha hb hc hd in
    to_string-dotted (from_bytes a b c d)
    ∙ rw (some-inj first, some-inj second, some-inj third, some-inj fourth) refl

-- On a little-endian machine a word with the bytes a, b, c, d in memory, which is how ESP-IDF keeps the
-- address a.b.c.d, is given by ntohl as the number with a in the highest byte.
abbrev pub NetworkOrder : (ℕ → ℕ) → Type 0
NetworkOrder ntohl =
    (a b c d : ℕ)
    → a < 256
    → b < 256
    → c < 256
    → d < 256
    → ntohl (le_value (a ∷ b ∷ c ∷ d ∷ [])) ≡ from_bytes a b c d

module _ (N : Net) (order : NetworkOrder N.ntohl) where
  local_ip-found :
      (s : Wifi) (w : N.World) (h : ℕ) (info : IpInfo)
      → s.sta ≡ some h
      → N.sta_is_connected w h ≡ true
      → N.ip_info w (N.sta_netif w h) ≡ some info
      → local_ip N s w ≡ N.ntohl info.ip
  unfolding local_ip is_connected
  local_ip-found s w h info e up found = rw (e, up, found) refl

  -- On a connected station whose interface has the address a.b.c.d: localIP prints as a.b.c.d and has
  -- these bytes by the index operator, and the connected callback of the event with that address
  -- gets the same address.
  pub to_string-local_ip :
      (s : Wifi) (w : N.World) (h : ℕ) (info : IpInfo) (a b c d : ℕ)
      → a < 256
      → b < 256
      → c < 256
      → d < 256
      → s.sta ≡ some h
      → N.sta_is_connected w h ≡ true
      → N.ip_info w (N.sta_netif w h) ≡ some info
      → info.ip ≡ le_value (a ∷ b ∷ c ∷ d ∷ [])
      → s.connected_callback ≡ true
      → (to_string (local_ip N s w) ≡ four_numbers a b c d)
        × (get (local_ip N s w) (pos 0) ≡ some a)
        × (get (local_ip N s w) (pos 3) ≡ some d)
        × ((handle_ip N.ntohl s info.ip).0 ≡ some (local_ip N s w))
  unfolding handle_ip
  to_string-local_ip s w h info a b c d ha hb hc hd e up found bytes set =
      let shown = local_ip-found s w h info e up found in
      let value = shown ∙ ap N.ntohl bytes ∙ order a b c d ha hb hc hd in
      let parts = get-from_bytes a b c d ha hb hc hd in
      (
        ap to_string value ∙ to_string-from_bytes a b c d ha hb hc hd,
        ap (λ n. get n (pos 0)) value ∙ parts.0,
        ap (λ n. get n (pos 3)) value ∙ parts.3,
        ap (λ b. if b then some (N.ntohl info.ip) else none) set ∙ ap some (sym shown),
      )
