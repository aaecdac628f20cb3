-- ===== src/Uuid/Tests.antt =====
-- A UUID of 36 times the same character.
use base_utilities_esp.Base.{ℕ, ◌≡◌, refl, [], ◌∷◌, ◌++◌, replicate, some, arith}
use base_utilities_esp.Uuid.{
  SimpleUuid, UuidLaws, generate, generate_into, generate_lem, bind_string,
}

abbrev letters : SimpleUuid
letters = record { Seed = ℕ; simple_uuid = λ seed. (replicate 36 97 ++ 0 ∷ [], seed) }

letters-UuidLaws : UuidLaws letters (λ seed. replicate 36 97)
letters-UuidLaws = record {
  length_text = λ seed. refl;
  no_nul_text = λ seed. refl;
  written = λ seed. refl;
}

generate_lem_example :
    ((generate letters 5 (λ i. 1)).0 ≡ some (replicate 36 97))
    × ((generate_into letters 5 (replicate 40 2)).0 ≡ some (replicate 36 97 ++ 0 ∷ 2 ∷ 2 ∷ 2 ∷ []))
    × (bind_string (generate_into letters 5 (replicate 40 2)).0 ≡ (generate letters 5 (λ i. 1)).0)
generate_lem_example =
    generate_lem letters (λ seed. replicate 36 97) letters-UuidLaws 5 (λ i. 1) (replicate 40 2)
      (omega arith)
