-- ===== src/UintN/Arith/Difference.antt =====
-- `uintn-rs/src/lib.rs`: what `decrement`, `sub` and `rem` compute, and when they fail.
use normfs.Prelude.{◌-◌, ◌≤◌, ◌<◌, ◌≡◌, ◌≢◌, arith, err, Returns}
use normfs.UBig.{UBig}
use normfs.UintN.{
  UintN, u8, u16, u32, u64, u128, big, to_ubig, value, IsCanonical, Represents, from_u8, from_u16,
  from_u32, from_u64, from_u128, from_ubig, decrement_underflow,
}
use normfs.UintN.Value.{value-to_ubig, is_zero_lem, from_ubig_lem}
use normfs.UintN.Order.{cmp_lem, lt}
use normfs.UintN.Arith.{decrement, decrement_nonzero, sub, sub_nonzero}

module _ {U : Type 0} ⦃b : UBig U⦄ where
  big_difference :
      (x y : UintN U)
      → value y ≤ value x
      → Represents (from_ubig (b.sub (to_ubig x) (to_ubig y))) (value x - value y)
  big_difference x y h = ground (
    arith,
    from_ubig_lem (b.sub (to_ubig x) (to_ubig y)),
    b.value-sub (to_ubig x) (to_ubig y),
    value-to_ubig {U = U} x,
    value-to_ubig {U = U} y,
  )

  decrement_nonzero_lem :
      (x : UintN U)
      → IsCanonical x
      → value x ≢ 0
      → Returns (λ z. Represents z (value x - 1)) (decrement_nonzero x)
  unfolding decrement_nonzero value from_u8 from_u16 from_u32 from_u64 from_u128
  decrement_nonzero_lem (u8 v) h k = ground arith
  decrement_nonzero_lem (big v) h k =
      ground (arith, from_ubig_lem (b.sub v (b.from 1)), b.value-sub v (b.from 1), b.value-from 1)
  decrement_nonzero_lem x h k = ground arith

  -- For a value in canonical form other than zero, `decrement` returns the number less one
  -- in canonical form, without an error or a panic.
  pub decrement_lem :
      (x : UintN U)
      → IsCanonical x
      → value x ≢ 0
      → Returns (λ z. Represents z (value x - 1)) (decrement x)
  unfolding decrement
  decrement_lem x h k = ground (arith, is_zero_lem x, decrement_nonzero_lem x h k)

  pub decrement_underflow_lem : (x : UintN U) → value x ≡ 0 → decrement x ≡ err decrement_underflow
  unfolding decrement
  decrement_underflow_lem x k = ground (arith, is_zero_lem x)

  sub_nonzero_lem :
      (x y : UintN U)
      → IsCanonical x
      → IsCanonical y
      → value y ≤ value x
      → Returns (λ z. Represents z (value x - value y)) (sub_nonzero x y)
  unfolding sub_nonzero value from_u8 from_u16 from_u32 from_u64 from_u128 to_ubig
  sub_nonzero_lem (u8 a) (u8 c) h k le = ground arith
  sub_nonzero_lem (u16 a) (u8 c) h k le = ground arith
  sub_nonzero_lem (u32 a) (u8 c) h k le = ground arith
  sub_nonzero_lem (u64 a) (u8 c) h k le = ground arith
  sub_nonzero_lem (u128 a) (u8 c) h k le = ground arith
  sub_nonzero_lem (big a) (u8 c) h k le =
      ground (arith, cmp_lem (big a) (u8 c), big_difference (big a) (u8 c) le)
  sub_nonzero_lem x y h k le = ground (arith, cmp_lem x y, big_difference x y le)

  sub_nonzero_underflow :
      (x y : UintN U)
      → IsCanonical x
      → IsCanonical y
      → value x < value y
      → sub_nonzero x y ≡ err decrement_underflow
  unfolding sub_nonzero value
  sub_nonzero_underflow (u8 a) (u8 c) h k lt = ground arith
  sub_nonzero_underflow (u16 a) (u8 c) h k lt = ground arith
  sub_nonzero_underflow (u32 a) (u8 c) h k lt = ground arith
  sub_nonzero_underflow (u64 a) (u8 c) h k lt = ground arith
  sub_nonzero_underflow (u128 a) (u8 c) h k lt = ground arith
  sub_nonzero_underflow (big a) (u8 c) h k lt = ground (arith, cmp_lem (big a) (u8 c))
  sub_nonzero_underflow x y h k lt = ground (arith, cmp_lem x y)

  -- For values in canonical form with `y ≤ x`, `sub` returns the difference of the numbers
  -- in canonical form: no machine subtraction inside it panics.
  pub sub_lem :
      (x y : UintN U)
      → IsCanonical x
      → IsCanonical y
      → value y ≤ value x
      → Returns (λ z. Represents z (value x - value y)) (sub x y)
  unfolding sub
  sub_lem x y h k le = ground (arith, is_zero_lem y, sub_nonzero_lem x y h k le)

  -- For values in canonical form with `x < y`, `sub` is the underflow error.
  pub sub_underflow :
      (x y : UintN U)
      → IsCanonical x
      → IsCanonical y
      → value x < value y
      → sub x y ≡ err decrement_underflow
  unfolding sub
  sub_underflow x y h k lt = ground (arith, is_zero_lem y, sub_nonzero_underflow x y h k lt)
