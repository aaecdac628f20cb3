-- ===== src/Nvs/Map.antt =====
-- What the NVS documentation promises of the entries of an open namespace as a whole: which call
-- leaves which entries as they were, and what a missing key gives.
use base_utilities_esp.Base.{
  ℕ, String, ◌≡◌, Bool, true, false, Option, none, List, str_eq, if◌then◌else◌, ℤ, is_some,
}
use base_utilities_esp.Nvs.{Nvs, Entry, i32, u32, u8, text, blob}

-- The setter of a type of entry.
abbrev pub set_entry : (N : Nvs) → N.State → String → Entry → Bool × N.State
set_entry N s k (i32 z) = N.set_i32 s k z
set_entry N s k (u32 n) = N.set_u32 s k n
set_entry N s k (u8 n) = N.set_u8 s k n
set_entry N s k (text t) = N.set_string s k t
set_entry N s k (blob b) = N.set_blob s k b

pub record NvsMapLaws (N : Nvs) (lookup : N.State → String → Option Entry) : Type 0 where
  pub set_other :
      (s : N.State) (k j : String) (e : Entry)
      → str_eq k j ≡ false
      → lookup (set_entry N s k e).1 j ≡ lookup s j
  pub set_open :
      (s : N.State) (k : String) (e : Entry)
      → N.is_open s ≡ true
      → N.is_open (set_entry N s k e).1 ≡ true
  pub i32_missing : (s : N.State) (k : String) (d : ℤ) → lookup s k ≡ none → N.get_i32 s k d ≡ d
  pub u32_missing : (s : N.State) (k : String) (d : ℕ) → lookup s k ≡ none → N.get_u32 s k d ≡ d
  pub u8_missing : (s : N.State) (k : String) (d : ℕ) → lookup s k ≡ none → N.get_u8 s k d ≡ d
  pub text_missing :
      (s : N.State) (k : String) (d : List ℕ) → lookup s k ≡ none → N.get_string s k d ≡ d
  pub blob_missing :
      (s : N.State) (k : String) (n : ℕ)
      → lookup s k ≡ none
      → (N.nvs_get_blob s k false n).0 ≡ false
  pub has_entry : (s : N.State) (k : String) → N.is_open s ≡ true → N.has s k ≡ is_some (lookup s k)
  pub erase_done :
      (s : N.State) (k j : String)
      → (N.erase s k).0 ≡ true
      → lookup (N.erase s k).1 j ≡ (if str_eq k j then none else lookup s j)
  pub erase_failed :
      (s : N.State) (k j : String) → (N.erase s k).0 ≡ false → lookup (N.erase s k).1 j ≡ lookup s j
  pub erase_missing : (s : N.State) (k : String) → lookup s k ≡ none → (N.erase s k).0 ≡ false
  pub erase_open :
      (s : N.State) (k : String) → N.is_open s ≡ true → N.is_open (N.erase s k).1 ≡ true
  pub erase_all_done :
      (s : N.State) (j : String) → (N.erase_all s).0 ≡ true → lookup (N.erase_all s).1 j ≡ none
  pub erase_all_open : (s : N.State) → N.is_open s ≡ true → N.is_open (N.erase_all s).1 ≡ true
  pub commit_same : (s : N.State) (j : String) → lookup (N.commit s).1 j ≡ lookup s j
  pub commit_open : (s : N.State) → N.is_open s ≡ true → N.is_open (N.commit s).1 ≡ true
