-- ===== src/IpAddress/Equality.antt =====
-- Equality of addresses, by the number, by the text and by the bytes.
use base_utilities_esp.Base.{ℕ, ◌^◌, ◌<◌, true, not, ◌≡◌, refl, sym, ap, ◌∙◌, ◌↔◌, ==_iff}
use base_utilities_esp.IpAddress.{equals, differs, to_string, from_string, from_raw}
use base_utilities_esp.IpAddress.RoundTrip.{from_string-to_string}

-- Two addresses are equal by operator== exactly when they print the same, operator!= is its negation,
-- and an address is read back from the text that is printed for it.
pub equals-to_string :
    (a b : ℕ)
    → a < 2 ^ 32
    → b < 2 ^ 32
    → ((equals a b ≡ true) ↔ (to_string a ≡ to_string b))
      × (differs a b ≡ not (equals a b))
      × (from_string (to_string (from_raw a)) ≡ a)
unfolding equals differs
equals-to_string a b ha hb = (
  (
    λ e. ap to_string ((==_iff a b).0 e),
    λ same.
        (==_iff a b).1
          (sym (from_string-to_string a ha) ∙ ap from_string same ∙ from_string-to_string b hb),
  ),
  refl,
  from_string-to_string a ha,
)
