-- ===== src/Uuid.antt =====
-- src/UUID.cpp: the class UUID. simple_uuid, vendored under deps, is a parameter: the bytes that it
-- writes from the start of its argument, and the state of its random numbers afterwards.
mod Tests
use base_utilities_esp.Base.{
  ℕ, zero, suc, ◌≤◌, ◌≡◌, ◌≢◌, refl, sym, ap, ◌∙◌, Bool, true, false, Option, none, some,
  map_option, List, [], ◌∷◌, ◌++◌, length, replicate, drop, leb, ◌==◌, if◌then◌else◌, arith,
  length-replicate, length-append, append_assoc, not, ◌&&◌,
}

pub record SimpleUuid : Type 1 where
  pub Seed : Type 0
  pub simple_uuid : Seed → List ℕ × Seed

-- A buffer after bytes were written from its start; writing past its end is undefined.
unfoldable pub write : List ℕ → List ℕ → Option (List ℕ)
write bytes buffer =
    if leb (length bytes) (length buffer) then some (bytes ++ drop (length bytes) buffer) else none

-- The bytes before the first NUL; without one the constructor of std::string reads past the end.
unfoldable pub c_string : List ℕ → Option (List ℕ)
c_string [] = none
c_string (c ∷ cs) = let more = c_string cs in if c == 0 then some [] else map_option (◌∷◌ c) more

abbrev pub bind_string : Option (List ℕ) → Option (List ℕ)
bind_string none = none
bind_string (some buffer) = c_string buffer

-- An array of n bytes without an initialiser.
abbrev pub uninitialised : ℕ → (ℕ → ℕ) → List ℕ
uninitialised zero garbage = []
uninitialised (suc n) garbage = garbage n ∷ uninitialised n garbage

module _ (U : SimpleUuid) where
  -- generate(buffer): the buffer afterwards.
  unfoldable pub generate_into : U.Seed → List ℕ → Option (List ℕ) × U.Seed
  unfolding write
  generate_into seed buffer = let (bytes, next) = U.simple_uuid seed in (write bytes buffer, next)

  -- generate(); `garbage` is what stands in the memory of `char buf[37]`, which is not initialised.
  unfoldable pub generate : U.Seed → (garbage : ℕ → ℕ) → Option (List ℕ) × U.Seed
  unfolding write c_string
  generate seed garbage =
      let buf : List ℕ = uninitialised 37 garbage in
      let (bytes, next) = U.simple_uuid seed in (bind_string (write bytes buf), next)

abbrev pub no_nul : List ℕ → Bool
no_nul [] = true
no_nul (c ∷ cs) = not (c == 0) && no_nul cs

-- simple_uuid writes a text of 36 characters, none of which is NUL, and a NUL.
pub record UuidLaws (U : SimpleUuid) (text : U.Seed → List ℕ) : Type 0 where
  pub length_text : (seed : U.Seed) → length (text seed) ≡ 36
  pub no_nul_text : (seed : U.Seed) → no_nul (text seed) ≡ true
  pub written : (seed : U.Seed) → (U.simple_uuid seed).0 ≡ text seed ++ 0 ∷ []

c_string-append : (t rest : List ℕ) → no_nul t ≡ true → c_string (t ++ 0 ∷ rest) ≡ some t
unfolding c_string
c_string-append [] rest h = refl
c_string-append (c ∷ t) rest h = ground (arith, c_string-append t rest)

write_fits :
    (t buffer : List ℕ)
    → length t ≡ 36
    → 37 ≤ length buffer
    → write (t ++ 0 ∷ []) buffer ≡ some (t ++ 0 ∷ drop 37 buffer)
unfolding write
write_fits t buffer len fits =
    rw (length-append t (0 ∷ []), len, append_assoc t (0 ∷ []) (drop 37 buffer)) (ground arith)

module _ (U : SimpleUuid) (text : U.Seed → List ℕ) (L : UuidLaws U text) where
  generate_into-fits :
      (seed : U.Seed) (buffer : List ℕ)
      → 37 ≤ length buffer
      → (generate_into U seed buffer).0 ≡ some (text seed ++ 0 ∷ drop 37 buffer)
  unfolding generate_into
  generate_into-fits seed buffer fits =
      ap (λ b. write b buffer) (L.written seed)
      ∙ write_fits (text seed) buffer (L.length_text seed) fits

  -- Whatever stands in the memory of its local buffer, generate() stays inside of the buffer and gives
  -- the 36 characters of the UUID and nothing else; generate(buffer) puts them and a NUL at the front
  -- of any buffer of 37 bytes or more, leaves the rest of it as it was, and the buffer holds the text
  -- that generate() gives.
  pub generate_lem :
      (seed : U.Seed) (garbage : ℕ → ℕ) (buffer : List ℕ)
      → 37 ≤ length buffer
      → ((generate U seed garbage).0 ≡ some (text seed))
        × ((generate_into U seed buffer).0 ≡ some (text seed ++ 0 ∷ drop 37 buffer))
        × (bind_string (generate_into U seed buffer).0 ≡ (generate U seed garbage).0)
  unfolding generate generate_into
  generate_lem seed garbage buffer fits =
      let filled = generate_into-fits seed buffer fits in
      let whole =
        ap bind_string (generate_into-fits seed (uninitialised 37 garbage) (omega arith))
        ∙ c_string-append (text seed) _ (L.no_nul_text seed) in
      let again = ap bind_string filled ∙ c_string-append (text seed) _ (L.no_nul_text seed) in
      (whole, filled, again ∙ sym whole)
