-- ===== src/Nvs.antt =====
-- The class NVSHandle that include/KVDB.hpp includes and the repository does not hold, and
-- `nvs_get_blob` of ESP-IDF: a parameter, with what the NVS documentation promises as laws.
pub mod Memory
pub mod Map
pub mod MemoryMap
use base_utilities_esp.Base.{
  ℕ, String, ◌≡◌, Bool, true, false, Option, none, some, List, [], str_eq, length, if◌then◌else◌, ℤ,
}

-- nvs_open_mode_t
pub data Mode : Type 0 where
  nvs_readonly nvs_readwrite : Mode

-- What NVS keeps under a key has one of these types.
pub data Entry : Type 0 where
  i32 : ℤ → Entry
  u32 : ℕ → Entry
  u8 : ℕ → Entry
  text : List ℕ → Entry
  blob : List ℕ → Entry

-- `nvs_get_blob s key null len` gives whether it returned ESP_OK, the bytes put into the buffer, and
-- `*length` after the call; `null` is whether the buffer is a null pointer.
pub record Nvs : Type 1 where
  pub State : Type 0
  pub make : String → Mode → State
  pub start : State → Bool × State
  pub close : State → State
  pub commit : State → Bool × State
  pub is_open : State → Bool
  pub has : State → String → Bool
  pub erase : State → String → Bool × State
  pub erase_all : State → Bool × State
  pub set_i32 : State → String → ℤ → Bool × State
  pub get_i32 : State → String → ℤ → ℤ
  pub set_u32 : State → String → ℕ → Bool × State
  pub get_u32 : State → String → ℕ → ℕ
  pub set_u8 : State → String → ℕ → Bool × State
  pub get_u8 : State → String → ℕ → ℕ
  pub set_string : State → String → List ℕ → Bool × State
  pub get_string : State → String → List ℕ → List ℕ
  pub set_blob : State → String → List ℕ → Bool × State
  pub nvs_get_blob : State → String → Bool → ℕ → Bool × List ℕ × ℕ

-- A write that reports success is of an open handle and is what a read of the same type then finds.
-- With a null buffer `nvs_get_blob` gives the length of the blob; with one that is large enough it
-- gives the blob.
pub record NvsLaws (N : Nvs) (lookup : N.State → String → Option Entry) : Type 0 where
  pub i32_set :
      (s : N.State) (k : String) (z : ℤ)
      → (N.set_i32 s k z).0 ≡ true
      → lookup (N.set_i32 s k z).1 k ≡ some (i32 z)
  pub u32_set :
      (s : N.State) (k : String) (n : ℕ)
      → (N.set_u32 s k n).0 ≡ true
      → lookup (N.set_u32 s k n).1 k ≡ some (u32 n)
  pub u8_set :
      (s : N.State) (k : String) (n : ℕ)
      → (N.set_u8 s k n).0 ≡ true
      → lookup (N.set_u8 s k n).1 k ≡ some (u8 n)
  pub text_set :
      (s : N.State) (k : String) (t : List ℕ)
      → (N.set_string s k t).0 ≡ true
      → lookup (N.set_string s k t).1 k ≡ some (text t)
  pub blob_set :
      (s : N.State) (k : String) (b : List ℕ)
      → (N.set_blob s k b).0 ≡ true
      → lookup (N.set_blob s k b).1 k ≡ some (blob b)
  pub blob_open :
      (s : N.State) (k : String) (b : List ℕ)
      → (N.set_blob s k b).0 ≡ true
      → N.is_open (N.set_blob s k b).1 ≡ true
  pub i32_get :
      (s : N.State) (k : String) (z d : ℤ) → lookup s k ≡ some (i32 z) → N.get_i32 s k d ≡ z
  pub u32_get :
      (s : N.State) (k : String) (n d : ℕ) → lookup s k ≡ some (u32 n) → N.get_u32 s k d ≡ n
  pub u8_get : (s : N.State) (k : String) (n d : ℕ) → lookup s k ≡ some (u8 n) → N.get_u8 s k d ≡ n
  pub text_get :
      (s : N.State) (k : String) (t d : List ℕ)
      → lookup s k ≡ some (text t)
      → N.get_string s k d ≡ t
  pub blob_length :
      (s : N.State) (k : String) (b : List ℕ) (n : ℕ)
      → lookup s k ≡ some (blob b)
      → N.nvs_get_blob s k true n ≡ (true, [], length b)
  pub blob_get :
      (s : N.State) (k : String) (b : List ℕ)
      → lookup s k ≡ some (blob b)
      → N.nvs_get_blob s k false (length b) ≡ (true, b, length b)
