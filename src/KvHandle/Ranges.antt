-- ===== src/KvHandle/Ranges.antt =====
-- The numbers that the getters of KVHandle give fit their C++ types, whatever the database holds.
use base_utilities_esp.Base.{
  ℕ, ◌^◌, ◌<◌, String, ◌≡◌, refl, true, List, [], ◌∷◌, arith, length, ltb, ℤ, InI32, le_value,
  bits_i32, Bool-cases, inl, inr, ◌&&◌, ◌==◌, ==_iff, Bool, false, subst,
}
use native.Mathlib.Nat.{pow-suc}
use base_utilities_esp.Flash.{FlashDb, is_ok}
use base_utilities_esp.KvHandle.{Handle, get_i32, get_u32, get_u8}

abbrev pub AreBytes : List ℕ → Type 0
AreBytes [] = Unit
AreBytes (b ∷ bs) = (b < 256) × AreBytes bs

-- A read that succeeds and fills the buffer has put bytes into it, as many as it has.
pub record FillLaws (F : FlashDb) : Type 0 where
  pub are_bytes : (d : F.Db) (k : String) (n : ℕ) → AreBytes (F.kv_get_blob d k n).1
  pub fills :
      (d : F.Db) (k : String) (n : ℕ)
      → is_ok (F.kv_get_blob d k n).0 ≡ true
      → (F.kv_get_blob d k n).2 ≡ n
      → length (F.kv_get_blob d k n).1 ≡ n

le_value-lt : (bs : List ℕ) → AreBytes bs → le_value bs < 256 ^ length bs
unfolding le_value
le_value-lt [] ok = omega arith
le_value-lt (b ∷ bs) (small, rest) =
    omega (arith, small, le_value-lt bs rest, pow-suc 256 (length bs))

bits_i32-InI32 : (n : ℕ) → n < 2 ^ 32 → InI32 (bits_i32 n)
unfolding bits_i32
bits_i32-InI32 n small = elim (Bool-cases (ltb n (2 ^ 31))) [
  | inl y ↦ rw y (ground (arith, y))
  | inr m ↦ rw m (ground (arith, m))
]

and-true : (a b : Bool) → (a && b) ≡ true → (a ≡ true) × (b ≡ true)
and-true true b e = (refl, e)
and-true false b e = absurd (ground arith)

module _ (F : FlashDb) (L : FillLaws F) (h : Handle F) (k : String) where
  read-lt :
      (n : ℕ)
      → (is_ok (F.kv_get_blob h.kvdb k n).0 && (F.kv_get_blob h.kvdb k n).2 == n) ≡ true
      → le_value (F.kv_get_blob h.kvdb k n).1 < 256 ^ n
  read-lt n ok =
      let (done, full) = and-true _ _ ok in
      let len = L.fills h.kvdb k n done ((==_iff _ n).0 full) in
      subst (λ m. le_value (F.kv_get_blob h.kvdb k n).1 < 256 ^ m) len
        (le_value-lt _ (L.are_bytes h.kvdb k n))

  get_u32-lt : (d : ℕ) → d < 2 ^ 32 → (get_u32 F h k d).0 < 2 ^ 32
  unfolding get_u32
  get_u32-lt d small =
      elim (Bool-cases (is_ok (F.kv_get_blob h.kvdb k 4).0 && (F.kv_get_blob h.kvdb k 4).2 == 4)) [
        | inl y ↦ rw y (read-lt 4 y)
        | inr n ↦ rw n small
      ]

  get_u8-lt : (d : ℕ) → d < 256 → (get_u8 F h k d).0 < 256
  unfolding get_u8
  get_u8-lt d small =
      elim (Bool-cases (is_ok (F.kv_get_blob h.kvdb k 1).0 && (F.kv_get_blob h.kvdb k 1).2 == 1)) [
        | inl y ↦ rw y (read-lt 1 y)
        | inr n ↦ rw n small
      ]

  get_i32-InI32 : (d : ℤ) → InI32 d → InI32 (get_i32 F h k d).0
  unfolding get_i32
  get_i32-InI32 d small = elim (Bool-cases h.initialized) [
    | inl ready ↦
        rw (ready, get_i32)
          (elim (Bool-cases
            (is_ok (F.kv_get_blob h.kvdb k 4).0 && (F.kv_get_blob h.kvdb k 4).2 == 4)) [
              | inl y ↦ rw y (bits_i32-InI32 _ (read-lt 4 y))
              | inr n ↦ rw n small
            ])
    | inr closed ↦ rw closed small
  ]

  -- Whatever the database holds, on an open or a closed handle: with a default value of its type each
  -- getter of a number gives a value of that type.
  pub getters-range :
      (z : ℤ) (n m : ℕ)
      → InI32 z
      → n < 2 ^ 32
      → m < 256
      → InI32 (get_i32 F h k z).0 × ((get_u32 F h k n).0 < 2 ^ 32) × ((get_u8 F h k m).0 < 256)
  getters-range z n m hz hn hm = (get_i32-InI32 z hz, get_u32-lt n hn, get_u8-lt m hm)
