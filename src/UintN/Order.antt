-- ===== src/UintN/Order.antt =====
-- `uintn-rs/src/lib.rs`: `PartialEq`, `Ord` and `PartialOrd` of `UintN`.
use normfs.Prelude.{
  ℕ, ◌≡◌, compare, Ordering, Bool, false, ◌==◌, is_lt, is_gt, is_le, arith, ok, Outcome, refl,
}
use normfs.UBig.{UBig}
use normfs.UintN.Value.{value-to_ubig, to_u128_lem}
use normfs.UintN.{UintN, u8, u16, u32, u64, u128, big, Error, to_u128, to_ubig, value, IsInRange}

-- The comparison of two `to_u128`: an error on either side answers false.
eq_u128 : Outcome Error ℕ → Outcome Error ℕ → Bool
eq_u128 (ok b_val) (ok a_val) = a_val == b_val
eq_u128 _ _ = false

module _ {U : Type 0} ⦃b : UBig U⦄ where
  -- `PartialEq::eq`
  unfoldable pub eq : UintN U → UintN U → Bool
  unfolding eq_u128
  eq (u8 a) (u8 c) = a == c
  eq (u16 a) (u16 c) = a == c
  eq (u32 a) (u32 c) = a == c
  eq (u64 a) (u64 c) = a == c
  eq (u128 a) (u128 c) = a == c
  eq (big a) (big c) = b.eq a c
  eq (u8 a) (u16 c) = a == c
  eq (u8 a) (u32 c) = a == c
  eq (u8 a) (u64 c) = a == c
  eq (u8 a) (u128 c) = a == c
  eq (u16 a) (u8 c) = a == c
  eq (u16 a) (u32 c) = a == c
  eq (u16 a) (u64 c) = a == c
  eq (u16 a) (u128 c) = a == c
  eq (u32 a) (u8 c) = a == c
  eq (u32 a) (u16 c) = a == c
  eq (u32 a) (u64 c) = a == c
  eq (u32 a) (u128 c) = a == c
  eq (u64 a) (u8 c) = a == c
  eq (u64 a) (u16 c) = a == c
  eq (u64 a) (u32 c) = a == c
  eq (u64 a) (u128 c) = a == c
  eq (u128 a) (u8 c) = a == c
  eq (u128 a) (u16 c) = a == c
  eq (u128 a) (u32 c) = a == c
  eq (u128 a) (u64 c) = a == c
  eq x y = eq_u128 (to_u128 y) (to_u128 x)

  -- `Ord::cmp`
  unfoldable pub cmp : UintN U → UintN U → Ordering
  cmp (u8 a) (u8 c) = compare a c
  cmp (u8 a) (u16 c) = compare a c
  cmp (u8 a) (u32 c) = compare a c
  cmp (u8 a) (u64 c) = compare a c
  cmp (u8 a) (u128 c) = compare a c
  cmp (u16 a) (u8 c) = compare a c
  cmp (u16 a) (u16 c) = compare a c
  cmp (u16 a) (u32 c) = compare a c
  cmp (u16 a) (u64 c) = compare a c
  cmp (u16 a) (u128 c) = compare a c
  cmp (u32 a) (u8 c) = compare a c
  cmp (u32 a) (u16 c) = compare a c
  cmp (u32 a) (u32 c) = compare a c
  cmp (u32 a) (u64 c) = compare a c
  cmp (u32 a) (u128 c) = compare a c
  cmp (u64 a) (u8 c) = compare a c
  cmp (u64 a) (u16 c) = compare a c
  cmp (u64 a) (u32 c) = compare a c
  cmp (u64 a) (u64 c) = compare a c
  cmp (u64 a) (u128 c) = compare a c
  cmp (u128 a) (u8 c) = compare a c
  cmp (u128 a) (u16 c) = compare a c
  cmp (u128 a) (u32 c) = compare a c
  cmp (u128 a) (u64 c) = compare a c
  cmp (u128 a) (u128 c) = compare a c
  cmp x y = b.cmp (to_ubig x) (to_ubig y)

  -- `<`, `>` and `<=` by `PartialOrd`.
  abbrev pub lt : UintN U → UintN U → Bool
  lt x y = is_lt (cmp x y)

  abbrev pub gt : UintN U → UintN U → Bool
  gt x y = is_gt (cmp x y)

  abbrev pub le : UintN U → UintN U → Bool
  le x y = is_le (cmp x y)

  cmp-big : (x y : UintN U) → b.cmp (to_ubig x) (to_ubig y) ≡ compare (value x) (value y)
  cmp-big x y = rw (b.cmp_lem, value-to_ubig x, value-to_ubig y)

  -- The order of `cmp` is the order of the numbers, for every pair of variants.
  pub cmp_lem : (x y : UintN U) → cmp x y ≡ compare (value x) (value y)
  unfolding cmp value to_ubig
  cmp_lem (u8 a) (u8 c) = refl
  cmp_lem (u16 a) (u8 c) = refl
  cmp_lem (u32 a) (u8 c) = refl
  cmp_lem (u64 a) (u8 c) = refl
  cmp_lem (u128 a) (u8 c) = refl
  cmp_lem (big a) (u8 c) = cmp-big (big a) (u8 c)
  cmp_lem x y = ground (arith, cmp-big x y)

  -- For payloads in range `eq` is equality of the numbers, for every pair of variants.
  pub eq_lem : (x y : UintN U) → IsInRange x → IsInRange y → eq x y ≡ (value x == value y)
  unfolding eq value
  eq_lem (u8 a) (u8 c) hx hy = refl
  eq_lem (u16 a) (u8 c) hx hy = refl
  eq_lem (u32 a) (u8 c) hx hy = refl
  eq_lem (u64 a) (u8 c) hx hy = refl
  eq_lem (u128 a) (u8 c) hx hy = refl
  eq_lem (big a) (big c) hx hy = b.eq_lem a c
  eq_lem x y hx hy = ground (arith, to_u128_lem x hx, to_u128_lem y hy)
