-- ===== src/UintN/Arith/Sum.antt =====
-- `uintn-rs/src/lib.rs`: what `increment` and `add` compute.
use normfs.Prelude.{◌+◌, ◌≡◌, arith}
use normfs.UBig.{UBig}
use normfs.UintN.{
  UintN, u8, u16, u32, u64, u128, big, to_ubig, value, IsCanonical, Represents, from_u16, from_u32,
  from_u64, from_u128,
}
use normfs.UintN.Value.{value-to_ubig, is_zero_lem}
use normfs.UintN.Arith.{increment, add, add_nonzero}

module _ {U : Type 0} ⦃b : UBig U⦄ where
  -- For a value in canonical form, `increment` is that number plus one, again in canonical
  -- form: where a variant is full, it moves to the next one.
  pub increment_lem : (x : UintN U) → IsCanonical x → Represents (increment x) (value x + 1)
  unfolding increment value
  increment_lem (u8 v) h = ground arith
  increment_lem (u128 v) h =
      ground (arith, b.value-add (b.from v) (b.from 1), b.value-from v, b.value-from 1)
  increment_lem (big v) h = ground (arith, b.value-add v (b.from 1), b.value-from 1)
  increment_lem x h = ground arith

  -- The sum that the arms of `add` take on big numbers, in either order.
  big_sum : (x y : UintN U) → b.value (b.add (to_ubig x) (to_ubig y)) ≡ value x + value y
  big_sum x y = rw (b.value-add, value-to_ubig x, value-to_ubig y)

  add_nonzero_lem :
      (x y : UintN U)
      → IsCanonical x
      → IsCanonical y
      → Represents (add_nonzero x y) (value x + value y)
  unfolding add_nonzero value to_ubig from_u16 from_u32 from_u64 from_u128
  add_nonzero_lem (u8 a) (u8 c) h k = ground arith
  add_nonzero_lem (u16 a) (u8 c) h k = ground arith
  add_nonzero_lem (u32 a) (u8 c) h k = ground arith
  add_nonzero_lem (u64 a) (u8 c) h k = ground arith
  add_nonzero_lem (u128 a) (u8 c) h k = ground (arith, big_sum (u8 c) (u128 a))
  add_nonzero_lem (big a) (u8 c) h k = ground (arith, big_sum (big a) (u8 c))
  add_nonzero_lem x y h k = ground (arith, big_sum x y, big_sum y x)

  -- For two values in canonical form, `add` is the sum of the numbers in canonical
  -- form, for every pair of variants: no sum inside it overflows.
  pub add_lem :
      (x y : UintN U) → IsCanonical x → IsCanonical y → Represents (add x y) (value x + value y)
  unfolding add
  add_lem x y h k = ground (arith, is_zero_lem y, add_nonzero_lem x y h k)
