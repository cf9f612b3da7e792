-- ===== src/UintN/Step/Range.antt =====
-- `uintn-rs/src/lib.rs`: what `middle`, `%`, `in_step` and `step_by` compute.
use normfs.Prelude.{
  ◌+◌, ◌-◌, ◌/◌, ◌%◌, ◌^◌, ◌≤◌, ◌<◌, ◌≡◌, ◌≢◌, ◌&&◌, ◌==◌, if◌then◌else◌, ℕ, Bool, true, arith, leb,
  ok, panic, Returns, Returns-eq,
}
use normfs.UintN.Arith.Difference.{sub_lem}
use normfs.UintN.Order.{cmp_lem}
use normfs.UBig.{UBig}
use native.Mathlib.Decide.{dec_lt}
use normfs.UintN.{
  is_zero, UintN, u8, u16, u32, u64, u128, big, to_ubig, from_ubig, from_u8, from_u16, from_u32,
  from_u128, value, IsCanonical, Represents, from_u64, IsNarrowest,
}
use normfs.UintN.Value.{
  value-to_ubig, is_zero_lem, from_ubig_lem, from_u64_lem, from_ubig-IsNarrowest,
}
use normfs.UintN.Arith.{sub}
use normfs.UintN.Arith.Sum.{add_lem}
use normfs.UintN.Step.{in_step, step_by, middle, rem, rem_nonzero}

-- The test of `in_step`: a step of 1 is always in step, and an id before `from` is not.
abbrev is_in_step : ℕ → ℕ → ℕ → Bool
is_in_step n from step = if step == 1 then true else leb from n && (n - from) % step == 0

mod_bound : (a c : ℕ) → c ≢ 0 → (a % c ≤ a) × (a % c < c)
mod_bound a c h = grind arith

module _ {U : Type 0} ⦃b : UBig U⦄ where
  big_middle :
      (x y : UintN U) → b.value (b.half (b.add (to_ubig x) (to_ubig y))) ≡ (value x + value y) / 2
  big_middle x y = rw (b.value-half, b.value-add, value-to_ubig x, value-to_ubig y)

  big_remainder :
      (x y : UintN U)
      → value y ≢ 0
      → Represents (from_ubig (b.rem (to_ubig x) (to_ubig y))) (value x % value y)
  big_remainder x y h = ground (
    arith,
    from_ubig_lem (b.rem (to_ubig x) (to_ubig y)),
    b.value-rem (to_ubig x) (to_ubig y),
    value-to_ubig {U = U} x,
    value-to_ubig {U = U} y,
  )

  rem_nonzero_lem :
      (x y : UintN U)
      → IsCanonical x
      → IsCanonical y
      → value y ≢ 0
      → Represents (rem_nonzero x y) (value x % value y)
  unfolding rem_nonzero value to_ubig from_u8 from_u16 from_u32 from_u64 from_u128
  rem_nonzero_lem (u8 a) (u8 c) h k nz = ground (arith, mod_bound a c)
  rem_nonzero_lem (u16 a) (u8 c) h k nz = ground (arith, mod_bound a c)
  rem_nonzero_lem (u32 a) (u8 c) h k nz = ground (arith, mod_bound a c)
  rem_nonzero_lem (u64 a) (u8 c) h k nz = ground (arith, mod_bound a c)
  rem_nonzero_lem (u128 a) (u8 c) h k nz = ground (arith, mod_bound a c)
  rem_nonzero_lem (big a) (big c) h k nz = big_remainder (big a) (big c) nz
  rem_nonzero_lem x y h k nz = ground (arith, big_remainder x y nz, mod_bound (value x) (value y))

  -- `%` panics on a zero divisor.
  pub rem_zero : (x y : UintN U) → value y ≡ 0 → rem x y ≡ panic
  unfolding rem
  rem_zero x y h = ground (arith, is_zero_lem y)

  -- For two values in canonical form and a divisor other than zero, `%` returns the
  -- remainder of the numbers in canonical form, without a panic.
  pub rem_lem :
      (x y : UintN U)
      → IsCanonical x
      → IsCanonical y
      → value y ≢ 0
      → Returns (λ z. Represents z (value x % value y)) (rem x y)
  unfolding rem
  rem_lem x y h k nz = ground (arith, is_zero_lem y, rem_nonzero_lem x y h k nz)

  -- `step_by` adds the step.
  pub step_by_lem :
      (x : UintN U) (step : ℕ)
      → IsCanonical x
      → step < 2 ^ 64
      → Represents (step_by x step) (value x + step)
  unfolding step_by
  step_by_lem x step h k =
      let (e, c) = from_u64_lem U step k in ground (arith, add_lem x (from_u64 step) h c, e)

  -- `middle` is the middle of the two numbers, rounded down, and canonical.
  pub middle_lem :
      (x y : UintN U)
      → IsCanonical x
      → IsCanonical y
      → Represents (middle x y) ((value x + value y) / 2)
  unfolding middle value to_ubig
  middle_lem (u8 a) (u8 c) h k = ground arith
  middle_lem (u16 a) (u16 c) h k = ground arith
  middle_lem (u32 a) (u32 c) h k = ground arith
  middle_lem (u64 a) (u64 c) h k = ground arith
  middle_lem (u128 a) (u128 c) h k = ground (
    arith,
    b.try_into_lem 128 (b.half (b.add (b.from a) (b.from c))),
    big_middle (u128 a) (u128 c),
  )
  middle_lem x y h k =
      ground (arith, from_ubig_lem (b.half (b.add (to_ubig x) (to_ubig y))), big_middle x y)

  -- For two canonical values, `middle` is the middle of the two numbers, rounded down, in the
  -- narrowest variant that holds it, a big number from 2^128 on only: no sum inside it overflows.
  pub middle-IsNarrowest :
      (x y : UintN U)
      → IsCanonical x
      → IsCanonical y
      → (value (middle x y) ≡ (value x + value y) / 2) × IsNarrowest (middle x y)
  unfolding middle value to_ubig
  middle-IsNarrowest (u8 a) (u8 c) h k = ground arith
  middle-IsNarrowest (u16 a) (u16 c) h k = ground arith
  middle-IsNarrowest (u32 a) (u32 c) h k = ground arith
  middle-IsNarrowest (u64 a) (u64 c) h k = ground arith
  middle-IsNarrowest (u128 a) (u128 c) h k = ground (
    arith,
    b.try_into_lem 128 (b.half (b.add (b.from a) (b.from c))),
    big_middle (u128 a) (u128 c),
  )
  middle-IsNarrowest x y h k =
      ground (arith, from_ubig-IsNarrowest (b.half (b.add (to_ubig x) (to_ubig y))), big_middle x y)

  -- `in_step` once the difference and its remainder are known.
  in_step_from :
      (x from : UintN U) (step : ℕ) {z w : UintN U}
      → value from ≤ value x
      → sub x from ≡ ok z
      → rem z (from_u64 step) ≡ ok w
      → in_step x from step ≡ ok (if step == 1 then true else is_zero w)
  unfolding in_step
  in_step_from x from step le e r = ground (arith, cmp_lem x from)

  -- For two values in canonical form and a step other than zero below 2^64, `in_step`
  -- returns without a panic: true with step 1 whatever the id, and else whether the id is at least
  -- `from` and away from it by a multiple of the step.
  pub in_step_lem :
      (x from : UintN U) (step : ℕ)
      → IsCanonical x
      → IsCanonical from
      → step ≢ 0
      → step < 2 ^ 64
      → in_step x from step ≡ ok (is_in_step (value x) (value from) step)
  in_step_lem x from step h k nz lt = elim (dec_lt (value x) (value from)) [
    | yes below ↦ unfold in_step in ground (arith, cmp_lem x from)
    | no above ↦
        let (z, e, rz) = Returns-eq _ (sub x from) (sub_lem x from h k (omega arith)) in
        let (vs, cs) = from_u64_lem U step lt in
        let (w, r, rw') = Returns-eq _ (rem z (from_u64 step)) (rem_lem z _ rz.1 cs (rw vs nz)) in
        ground (arith, in_step_from x from step (omega arith) e r, is_zero_lem w)
  ]

  -- For two values in canonical form with `from` at most the id, `in_step` with step zero
  -- panics.
  pub in_step_zero :
      (x from : UintN U)
      → IsCanonical x
      → IsCanonical from
      → value from ≤ value x
      → in_step x from 0 ≡ panic
  unfolding in_step
  in_step_zero x from h k le =
      let (z, e, rz) = Returns-eq _ (sub x from) (sub_lem x from h k le) in
      let (vs, cs) = from_u64_lem U 0 (omega arith) in
      ground (arith, e, cmp_lem x from, rem_zero z (from_u64 0) vs)
