-- ===== src/UintN/Value.antt =====
-- `uintn-rs/src/lib.rs`: what the conversions do to the number that a value stands for.
use normfs.Prelude.{◌^◌, ◌<◌, ◌≡◌, ◌==◌, if◌then◌else◌, ℕ, refl, arith, ltb, ok, err}
use normfs.UBig.{UBig}
use normfs.UintN.{
  UintN, u8, u16, u32, u64, u128, big, value_too_large, to_u64, to_u128, to_ubig, value, is_zero,
  from_u16, from_u32, from_u64, from_u128, from_ubig, shrink_to_fit, IsInRange, IsCanonical,
  Represents, from_u8, IsNarrowest,
}

module _ {U : Type 0} ⦃b : UBig U⦄ where
  pub value-to_ubig : (x : UintN U) → b.value (to_ubig x) ≡ value x
  unfolding to_ubig value
  value-to_ubig (u8 a) = b.value-from a
  value-to_ubig (u16 a) = b.value-from a
  value-to_ubig (u32 a) = b.value-from a
  value-to_ubig (u64 a) = b.value-from a
  value-to_ubig (u128 a) = b.value-from a
  value-to_ubig (big a) = refl

  pub is_zero_lem : (x : UintN U) → is_zero x ≡ (value x == 0)
  unfolding is_zero value
  is_zero_lem (u8 a) = refl
  is_zero_lem (big a) = ground (arith, b.eq_lem a (b.from 0), b.value-from 0)
  is_zero_lem x = refl

  pub IsCanonical-IsInRange : (x : UintN U) → IsCanonical x → IsInRange x
  IsCanonical-IsInRange (u8 a) h = h
  IsCanonical-IsInRange (big a) h = tt
  IsCanonical-IsInRange x h = h.1

  -- For a payload in its variant's range, `to_u64` is the number where it is below 2^64, and else
  -- the error `ValueTooLarge`.
  pub to_u64_lem :
      (x : UintN U)
      → IsInRange x
      → to_u64 x ≡ (if ltb (value x) (2 ^ 64) then ok (value x) else err value_too_large)
  unfolding to_u64 value
  to_u64_lem (u8 a) h = ground arith
  to_u64_lem (big a) h = ground (arith, b.try_into_lem 64 a)
  to_u64_lem x h = ground arith

  pub to_u128_lem :
      (x : UintN U)
      → IsInRange x
      → to_u128 x ≡ (if ltb (value x) (2 ^ 128) then ok (value x) else err value_too_large)
  unfolding to_u128 value
  to_u128_lem (u8 a) h = ground arith
  to_u128_lem (big a) h = ground (arith, b.try_into_lem 128 a)
  to_u128_lem x h = ground arith

-- Each `From` keeps the number and takes its canonical form.
module _ (U : Type 0) ⦃b : UBig U⦄ where
  pub from_u8_lem : (v : ℕ) → v < 2 ^ 8 → Represents (from_u8 {U = U} v) v
  unfolding from_u8 value
  from_u8_lem v h = (refl, h)

  pub from_u16_lem : (v : ℕ) → v < 2 ^ 16 → Represents (from_u16 {U = U} v) v
  unfolding from_u16 value
  from_u16_lem v h = ground arith

  pub from_u32_lem : (v : ℕ) → v < 2 ^ 32 → Represents (from_u32 {U = U} v) v
  unfolding from_u32 value
  from_u32_lem v h = ground arith

  pub from_u64_lem : (v : ℕ) → v < 2 ^ 64 → Represents (from_u64 {U = U} v) v
  unfolding from_u64 value
  from_u64_lem v h = ground arith

  pub from_u128_lem : (v : ℕ) → v < 2 ^ 128 → Represents (from_u128 {U = U} v) v
  unfolding from_u128 value
  from_u128_lem v h = ground arith

module _ {U : Type 0} ⦃b : UBig U⦄ where
  -- `From<UBig>` picks the narrowest variant that holds the number.
  pub from_ubig-IsNarrowest :
      (v : U) → (value (from_ubig v) ≡ b.value v) × IsNarrowest (from_ubig v)
  unfolding from_ubig from_u128 value
  from_ubig-IsNarrowest v = ground (arith, b.try_into_lem 128 v)

  -- `From<UBig>` keeps the number, in canonical form.
  pub from_ubig_lem : (v : U) → Represents (from_ubig v) (b.value v)
  unfolding from_ubig value
  from_ubig_lem v = ground (arith, b.try_into_lem 128 v, from_u128_lem U (b.value v))

  from_ubig-to_ubig : (x : UintN U) → Represents (from_ubig (to_ubig x)) (value x)
  from_ubig-to_ubig x = rw (← value-to_ubig x) (from_ubig_lem (to_ubig x))

  -- For a payload in its variant's range, `shrink_to_fit` keeps the number and takes its
  -- canonical form.
  pub shrink_to_fit_lem : (x : UintN U) → IsInRange x → Represents (shrink_to_fit x) (value x)
  unfolding shrink_to_fit
  shrink_to_fit_lem (u8 a) h = (refl, h)
  shrink_to_fit_lem x h = from_ubig-to_ubig x
