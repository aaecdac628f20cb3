-- ===== src/KvHandle/Proxy.antt =====
-- KVHandle::Proxy: `kv[key] = value` and the conversions of `kv[key]`, for each type of value.
use base_utilities_esp.Base.{
  ℕ, ◌^◌, ◌<◌, String, ◌≡◌, ◌≢◌, Bool, false, List, [], replicate, length, ℤ, pos, InI32,
}
use base_utilities_esp.Flash.{FlashDb}
use base_utilities_esp.KvHandle.{
  Handle, set_i32, set_u32, set_u8, set_bool, set_string, set_pod, get_i32, get_u32, get_u8,
  get_bool, get_string, get_pod,
}

-- The types that the proxy converts. A double or a float is the bytes of its object.
pub data Value : Type 0 where
  i32 : ℤ → Value
  u32 : ℕ → Value
  u8 : ℕ → Value
  boolean : Bool → Value
  string : List ℕ → Value
  double : List ℕ → Value
  float : List ℕ → Value

pub data Kind : Type 0 where
  i32_kind u32_kind u8_kind boolean_kind string_kind double_kind float_kind : Kind

abbrev pub kind : Value → Kind
kind (i32 z) = i32_kind
kind (u32 n) = u32_kind
kind (u8 n) = u8_kind
kind (boolean b) = boolean_kind
kind (string s) = string_kind
kind (double d) = double_kind
kind (float d) = float_kind

-- What the C++ type of a value allows. The empty string is left out: whether FlashDB stores it is
-- not documented.
abbrev pub InRange : Value → Type 0
InRange (i32 z) = InI32 z
InRange (u32 n) = n < 2 ^ 32
InRange (u8 n) = n < 256
InRange (boolean b) = Unit
InRange (string s) = s ≢ []
InRange (double d) = length d ≡ 8
InRange (float d) = length d ≡ 4

module _ (F : FlashDb) where
  -- The setter that `operator=` calls.
  unfoldable pub store : Handle F → String → Value → Bool × Handle F
  store h key (i32 z) = set_i32 F h key z
  store h key (u32 n) = set_u32 F h key n
  store h key (u8 n) = set_u8 F h key n
  store h key (boolean b) = set_bool F h key b
  store h key (string s) = set_string F h key s
  store h key (double d) = set_pod F h key d
  store h key (float d) = set_pod F h key d

  -- `operator=` drops what the setter returns.
  unfoldable pub assign : Handle F → String → Value → Handle F
  unfolding store
  assign h key v = (store h key v).1

  -- The conversion operators: the getters, with the default value of the type.
  unfoldable pub convert : Handle F → String → Kind → Value × Handle F
  convert h key i32_kind = let (v, h') = get_i32 F h key (pos 0) in (i32 v, h')
  convert h key u32_kind = let (v, h') = get_u32 F h key 0 in (u32 v, h')
  convert h key u8_kind = let (v, h') = get_u8 F h key 0 in (u8 v, h')
  convert h key boolean_kind = let (v, h') = get_bool F h key false in (boolean v, h')
  convert h key string_kind = let (v, h') = get_string F h key [] in (string v, h')
  convert h key double_kind = let (v, h') = get_pod F h key 8 (replicate 8 0) in (double v, h')
  convert h key float_kind = let (v, h') = get_pod F h key 4 (replicate 4 0) in (float v, h')
