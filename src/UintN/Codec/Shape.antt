-- ===== src/UintN/Codec/Shape.antt =====
-- `uintn-rs/src/lib.rs`: the bytes of a value, their number, and when they fit a field.
use normfs.Prelude.{
  ◌^◌, ◌≤◌, ◌<◌, ◌≡◌, ◌⊎◌, ℕ, sym, inl, inr, true, arith, ltb, length, All, IsByte, le_value,
  length-le_bytes, le_bytes-IsByte, le_value-le_bytes, le_value-lt,
}
use normfs.UBig.{UBig}
use native.Mathlib.Nat.{pow-le-pow_right}
use normfs.UintN.{UintN, u8, u16, u32, u64, u128, big, value, IsInRange, IsCanonical}
use normfs.UintN.Value.{IsCanonical-IsInRange}
use normfs.UintN.Codec.{size_in_bytes, value_bytes, can_fit, is_valid_data_size}

-- A statement about each size that `is_valid_data_size` accepts.
pub valid_sizes :
    (P : ℕ → Type 0)
    → P 1
    → P 2
    → P 4
    → P 8
    → P 16
    → (size : ℕ) → is_valid_data_size size ≡ true
    → P size
unfolding is_valid_data_size
valid_sizes P at1 at2 at4 at8 at16 size v = elim sizes [
  | inl e ↦ rw e at1
  | inr (inl e) ↦ rw e at2
  | inr (inr (inl e)) ↦ rw e at4
  | inr (inr (inr (inl e))) ↦ rw e at8
  | inr (inr (inr (inr e))) ↦ rw e at16
]
  where
    sizes : (size ≡ 1) ⊎ (size ≡ 2) ⊎ (size ≡ 4) ⊎ (size ≡ 8) ⊎ (size ≡ 16)
    sizes = ground arith

module _ {U : Type 0} ⦃b : UBig U⦄ where
  pub length-value_bytes : (x : UintN U) → length (value_bytes x) ≡ size_in_bytes x
  unfolding size_in_bytes
  length-value_bytes (u8 v) = length-le_bytes 1 v
  length-value_bytes (u16 v) = length-le_bytes 2 v
  length-value_bytes (u32 v) = length-le_bytes 4 v
  length-value_bytes (u64 v) = length-le_bytes 8 v
  length-value_bytes (u128 v) = length-le_bytes 16 v
  length-value_bytes (big v) = sym (b.length-to_be_bytes v)

  pub value_bytes-IsByte : (x : UintN U) → All IsByte (value_bytes x)
  value_bytes-IsByte (u8 v) = le_bytes-IsByte 1 v
  value_bytes-IsByte (u16 v) = le_bytes-IsByte 2 v
  value_bytes-IsByte (u32 v) = le_bytes-IsByte 4 v
  value_bytes-IsByte (u64 v) = le_bytes-IsByte 8 v
  value_bytes-IsByte (u128 v) = le_bytes-IsByte 16 v
  value_bytes-IsByte (big v) = b.to_le_bytes-IsByte v

  pub le_value-value_bytes : (x : UintN U) → IsInRange x → le_value (value_bytes x) ≡ value x
  unfolding value
  le_value-value_bytes (u8 v) h = le_value-le_bytes 1 v h
  le_value-value_bytes (u16 v) h = le_value-le_bytes 2 v h
  le_value-value_bytes (u32 v) h = le_value-le_bytes 4 v h
  le_value-value_bytes (u64 v) h = le_value-le_bytes 8 v h
  le_value-value_bytes (u128 v) h = le_value-le_bytes 16 v h
  le_value-value_bytes (big v) h = b.le_value-to_le_bytes v

  -- A value fits its own bytes.
  pub value-lt_size : (x : UintN U) → IsInRange x → value x < 256 ^ size_in_bytes x
  value-lt_size x h =
      rw (← le_value-value_bytes x h, ← length-value_bytes x)
        (le_value-lt (value_bytes x) (value_bytes-IsByte x))

  size_at :
      (x : UintN U)
      → IsCanonical x
      → (value x < 256 ^ 1 → size_in_bytes x ≤ 1)
        × (value x < 256 ^ 2 → size_in_bytes x ≤ 2)
        × (value x < 256 ^ 4 → size_in_bytes x ≤ 4)
        × (value x < 256 ^ 8 → size_in_bytes x ≤ 8)
        × (value x < 256 ^ 16 → size_in_bytes x ≤ 16)
  unfolding size_in_bytes value
  size_at (u8 v) h = omega arith
  size_at (big v) h = rw b.length-to_be_bytes (
    b.length-to_le_bytes 1 v,
    b.length-to_le_bytes 2 v,
    b.length-to_le_bytes 4 v,
    b.length-to_le_bytes 8 v,
    b.length-to_le_bytes 16 v,
  )
  size_at x h = omega arith

  -- In canonical form a value takes no more bytes than a field that can hold it.
  pub size_in_bytes-le :
      (x : UintN U) (size : ℕ)
      → IsCanonical x
      → is_valid_data_size size ≡ true
      → value x < 256 ^ size
      → size_in_bytes x ≤ size
  size_in_bytes-le x size h v lt =
      let (at1, at2, at4, at8, at16) = size_at x h in
      valid_sizes (λ n. value x < 256 ^ n → size_in_bytes x ≤ n) at1 at2 at4 at8 at16 size v lt

  -- For a value in canonical form and a size that a header allows, `can_fit` holds exactly
  -- if the number is below 256^size.
  pub can_fit_lem :
      (x : UintN U) (size : ℕ)
      → IsCanonical x
      → is_valid_data_size size ≡ true
      → can_fit x size ≡ ltb (value x) (256 ^ size)
  unfolding can_fit
  can_fit_lem x size h v = ground (
    arith,
    size_in_bytes-le x size h v,
    value-lt_size x (IsCanonical-IsInRange x h),
    λ (le : size_in_bytes x ≤ size). pow-le-pow_right {n = 256} (omega arith) le,
  )
