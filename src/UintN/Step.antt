-- ===== src/UintN/Step.antt =====
-- `uintn-rs/src/lib.rs`: the middle of two values, the remainder, and steps through a range.
pub mod Range
use normfs.Prelude.{
  ℕ, ◌+◌, ◌/◌, ◌%◌, ◌^◌, Bool, true, false, none, some, ◌==◌, if◌then◌else◌, Outcome, ok, panic,
  ◌>>=◌, unwrap_or,
}
use normfs.UBig.{UBig}
use normfs.UintN
use normfs.UintN.{
  UintN, u8, u16, u32, u64, u128, big, Error, is_zero, to_ubig, from_u8, from_u16, from_u32,
  from_u64, from_u128, from_ubig,
}
use normfs.UintN.Order.{lt}
use normfs.UintN.Arith.{add, sub}

module _ {U : Type 0} ⦃b : UBig U⦄ where
  -- A sum of machine integers is taken at the next width, halved, and cast back.
  unfoldable pub middle : UintN U → UintN U → UintN U
  middle (u8 a) (u8 c) = u8 ((a + c) % 2 ^ 16 / 2 % 2 ^ 8)
  middle (u16 a) (u16 c) = u16 ((a + c) % 2 ^ 32 / 2 % 2 ^ 16)
  middle (u32 a) (u32 c) = u32 ((a + c) % 2 ^ 64 / 2 % 2 ^ 32)
  middle (u64 a) (u64 c) = u64 ((a + c) % 2 ^ 128 / 2 % 2 ^ 64)
  middle (u128 a) (u128 c) =
      let half = b.half (b.add (b.from a) (b.from c)) in
      elim (b.try_into 128 half) [ some val ↦ u128 val | none ↦ big half ]
  middle x y = from_ubig (b.half (b.add (to_ubig x) (to_ubig y)))

  -- The `match` of `rem`, after its guard.
  rem_nonzero : UintN U → UintN U → UintN U
  rem_nonzero (u8 a) (u8 c) = from_u8 (a % c)
  rem_nonzero (u16 a) (u16 c) = from_u16 (a % c)
  rem_nonzero (u16 a) (u8 c) = from_u16 (a % c)
  rem_nonzero (u32 a) (u32 c) = from_u32 (a % c)
  rem_nonzero (u32 a) (u16 c) = from_u32 (a % c)
  rem_nonzero (u32 a) (u8 c) = from_u32 (a % c)
  rem_nonzero (u64 a) (u64 c) = from_u64 (a % c)
  rem_nonzero (u64 a) (u32 c) = from_u64 (a % c)
  rem_nonzero (u64 a) (u16 c) = from_u64 (a % c)
  rem_nonzero (u64 a) (u8 c) = from_u64 (a % c)
  rem_nonzero (u128 a) (u128 c) = from_u128 (a % c)
  rem_nonzero (u128 a) (u64 c) = from_u128 (a % c)
  rem_nonzero (u128 a) (u32 c) = from_u128 (a % c)
  rem_nonzero (u128 a) (u16 c) = from_u128 (a % c)
  rem_nonzero (u128 a) (u8 c) = from_u128 (a % c)
  rem_nonzero (big a) (big c) = from_ubig (b.rem a c)
  rem_nonzero x y = from_ubig (b.rem (to_ubig x) (to_ubig y))

  unfoldable pub rem : UintN U → UintN U → Outcome Error (UintN U)
  unfolding rem_nonzero
  rem x y = if is_zero y then panic else ok (rem_nonzero x y)

  -- `step` is a `usize`, of 64 bits.
  unfoldable pub in_step : UintN U → UintN U → ℕ → Outcome Error Bool
  in_step x from step =
      if step == 1
      then ok true
      else if lt x from
      then ok false
      else do diff ← unwrap_or (sub x from) UintN.zero; r ← rem diff (from_u64 step); ok (is_zero r)

  unfoldable pub step_by : UintN U → ℕ → UintN U
  step_by x step = add x (from_u64 step)
