-- ===== src/UintN/Arith.antt =====
-- `uintn-rs/src/lib.rs`: increment, decrement, addition, subtraction, remainder and the middle of
-- two values. A `-` of machine integers below zero panics, as in a build with overflow checks.
pub mod Sum
pub mod Difference
use normfs.Prelude.{
  ℕ, ◌+◌, ◌-◌, ◌%◌, ◌^◌, none, some, leb, ◌==◌, if◌then◌else◌, Outcome, ok, err, panic, ◌>>=◌,
}
use normfs.UBig.{UBig}
use normfs.UintN.{
  UintN, u8, u16, u32, u64, u128, big, Error, decrement_underflow, checked_add, is_zero, to_ubig,
  from_u8, from_u16, from_u32, from_u64, from_u128, from_ubig,
}
use normfs.UintN.Order.{lt}

-- `a - b` on machine integers.
abbrev pub minus : ℕ → ℕ → Outcome Error ℕ
minus a c = if leb c a then ok (a - c) else panic

module _ {U : Type 0} ⦃b : UBig U⦄ where
  unfoldable pub increment : UintN U → UintN U
  increment (u8 v) = if v == 0xff then u16 256 else u8 (v + 1)
  increment (u16 v) = if v == 0xffff then u32 65536 else u16 (v + 1)
  increment (u32 v) = if v == 0xffff_ffff then u64 4294967296 else u32 (v + 1)
  increment (u64 v) = if v == 0xffff_ffff_ffff_ffff then u128 18446744073709551616 else u64 (v + 1)
  increment (u128 v) = if v == 2 ^ 128 - 1 then big (b.add (b.from v) (b.from 1)) else u128 (v + 1)
  increment (big v) = big (b.add v (b.from 1))

  -- The `match` of `decrement`, after its guard.
  decrement_nonzero : UintN U → Outcome Error (UintN U)
  decrement_nonzero (u8 v) = minus v 1 >>= λ d. ok (from_u8 d)
  decrement_nonzero (u16 v) = minus v 1 >>= λ d. ok (from_u16 d)
  decrement_nonzero (u32 v) = minus v 1 >>= λ d. ok (from_u32 d)
  decrement_nonzero (u64 v) = minus v 1 >>= λ d. ok (from_u64 d)
  decrement_nonzero (u128 v) = minus v 1 >>= λ d. ok (from_u128 d)
  decrement_nonzero (big v) = ok (from_ubig (b.sub v (b.from 1)))

  unfoldable pub decrement : UintN U → Outcome Error (UintN U)
  unfolding decrement_nonzero
  decrement x = if is_zero x then err decrement_underflow else decrement_nonzero x

  -- The arms that `add` shares between its two orders of operands: the sum at the wider width if it
  -- fits, and the next width's variant if not.
  abbrev add_16 : ℕ → ℕ → UintN U
  add_16 a c = elim (checked_add 16 a c) [ some r ↦ from_u16 r | none ↦ u32 ((a + c) % 2 ^ 32) ]

  abbrev add_32 : ℕ → ℕ → UintN U
  add_32 a c = elim (checked_add 32 a c) [ some r ↦ from_u32 r | none ↦ u64 ((a + c) % 2 ^ 64) ]

  abbrev add_64 : ℕ → ℕ → UintN U
  add_64 a c = elim (checked_add 64 a c) [ some r ↦ from_u64 r | none ↦ u128 ((a + c) % 2 ^ 128) ]

  abbrev add_128 : ℕ → ℕ → UintN U
  add_128 a c = elim (checked_add 128 a c) [
    | some r ↦ from_u128 r
    | none ↦ big (b.add (b.from a) (b.from c))
  ]

  -- The `match` of `add`, after its guard.
  add_nonzero : UintN U → UintN U → UintN U
  add_nonzero (u8 a) (u8 c) = elim (checked_add 8 a c) [
    | some r ↦ u8 r
    | none ↦ u16 ((a + c) % 2 ^ 16)
  ]
  add_nonzero (u8 a) (u16 c) = add_16 a c
  add_nonzero (u16 c) (u8 a) = add_16 a c
  add_nonzero (u8 a) (u32 c) = add_32 a c
  add_nonzero (u32 c) (u8 a) = add_32 a c
  add_nonzero (u8 a) (u64 c) = add_64 a c
  add_nonzero (u64 c) (u8 a) = add_64 a c
  add_nonzero (u8 a) (u128 c) = add_128 a c
  add_nonzero (u128 c) (u8 a) = add_128 a c
  add_nonzero (u16 a) (u16 c) = add_16 a c
  add_nonzero (u16 a) (u32 c) = add_32 a c
  add_nonzero (u32 c) (u16 a) = add_32 a c
  add_nonzero (u16 a) (u64 c) = add_64 a c
  add_nonzero (u64 c) (u16 a) = add_64 a c
  add_nonzero (u16 a) (u128 c) = add_128 a c
  add_nonzero (u128 c) (u16 a) = add_128 a c
  add_nonzero (u32 a) (u32 c) = add_32 a c
  add_nonzero (u32 a) (u64 c) = add_64 a c
  add_nonzero (u64 c) (u32 a) = add_64 a c
  add_nonzero (u32 a) (u128 c) = add_128 a c
  add_nonzero (u128 c) (u32 a) = add_128 a c
  add_nonzero (u64 a) (u64 c) = add_64 a c
  add_nonzero (u64 a) (u128 c) = add_128 a c
  add_nonzero (u128 c) (u64 a) = add_128 a c
  add_nonzero (u128 a) (u128 c) = add_128 a c
  add_nonzero x y = big (b.add (to_ubig x) (to_ubig y))

  unfoldable pub add : UintN U → UintN U → UintN U
  unfolding add_nonzero
  add x y = if is_zero y then x else add_nonzero x y

  -- `a >= b`, then the difference; an underflow is an error.
  abbrev checked_sub : (ℕ → UintN U) → ℕ → ℕ → Outcome Error (UintN U)
  checked_sub from a c = if leb c a then ok (from (a - c)) else err decrement_underflow

  -- The `match` of `sub`, after its guard.
  sub_nonzero : UintN U → UintN U → Outcome Error (UintN U)
  sub_nonzero (u8 a) (u8 c) = checked_sub from_u8 a c
  sub_nonzero (u16 a) (u8 c) = minus a c >>= λ d. ok (from_u16 d)
  sub_nonzero (u16 a) (u16 c) = checked_sub from_u16 a c
  sub_nonzero (u32 a) (u8 c) = minus a c >>= λ d. ok (from_u32 d)
  sub_nonzero (u32 a) (u16 c) = minus a c >>= λ d. ok (from_u32 d)
  sub_nonzero (u32 a) (u32 c) = checked_sub from_u32 a c
  sub_nonzero (u64 a) (u8 c) = minus a c >>= λ d. ok (from_u64 d)
  sub_nonzero (u64 a) (u16 c) = minus a c >>= λ d. ok (from_u64 d)
  sub_nonzero (u64 a) (u32 c) = minus a c >>= λ d. ok (from_u64 d)
  sub_nonzero (u64 a) (u64 c) = checked_sub from_u64 a c
  sub_nonzero (u128 a) (u8 c) = minus a c >>= λ d. ok (from_u128 d)
  sub_nonzero (u128 a) (u16 c) = minus a c >>= λ d. ok (from_u128 d)
  sub_nonzero (u128 a) (u32 c) = minus a c >>= λ d. ok (from_u128 d)
  sub_nonzero (u128 a) (u64 c) = minus a c >>= λ d. ok (from_u128 d)
  sub_nonzero (u128 a) (u128 c) = checked_sub from_u128 a c
  sub_nonzero x y =
      if lt x y then err decrement_underflow else ok (from_ubig (b.sub (to_ubig x) (to_ubig y)))

  unfoldable pub sub : UintN U → UintN U → Outcome Error (UintN U)
  unfolding sub_nonzero
  sub x y = if is_zero y then ok x else sub_nonzero x y
