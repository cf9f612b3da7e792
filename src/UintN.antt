-- ===== src/UintN.antt =====
-- `uintn-rs/src/lib.rs`: the integer that grows. The data type, its conversions, and the meaning of
-- a value. A cast to a wider integer keeps the number and is not written; a cast to a narrower one
-- is a remainder.
pub mod Value
pub mod Order
pub mod Arith
pub mod Step
pub mod Codec
pub mod Last
use normfs.Prelude.{
  ◌+◌, ◌%◌, ◌^◌, ◌≤◌, ◌<◌, ◌≡◌, ◌==◌, if◌then◌else◌, ℕ, Bool, true, false, Option, none, some, ltb,
  leb, Outcome, ok, err, ok_or,
}
use normfs.UBig.{UBig}

-- `U` is the type of the big numbers.
pub data UintN (U : Type 0) : Type 0 where
  u8 : ℕ → UintN U
  u16 : ℕ → UintN U
  u32 : ℕ → UintN U
  u64 : ℕ → UintN U
  u128 : ℕ → UintN U
  big : U → UintN U

pub data UintNType : Type 0 where
  t8 t16 t32 t64 t128 tbig : UintNType

-- `Error::Io` carries a message and is made from an operating-system error only.
pub data Error : Type 0 where
  value_too_large decrement_underflow slice_too_short invalid_uintn_size : Error
  invalid_hex_string io : Error

-- `checked_add` at `w` bits.
abbrev pub checked_add : ℕ → ℕ → ℕ → Option ℕ
checked_add w a b = if ltb (a + b) (2 ^ w) then some (a + b) else none

module _ {U : Type 0} where
  unfoldable pub zero : UintN U
  zero = u8 0

  unfoldable pub one : UintN U
  one = u8 1

  unfoldable pub get_type : UintN U → UintNType
  get_type (u8 v) = t8
  get_type (u16 v) = t16
  get_type (u32 v) = t32
  get_type (u64 v) = t64
  get_type (u128 v) = t128
  get_type (big v) = tbig

  -- The five `From` implementations at the machine integers.
  unfoldable pub from_u8 : ℕ → UintN U
  from_u8 v = u8 v

  unfoldable pub from_u16 : ℕ → UintN U
  from_u16 v = if leb v 0xff then u8 (v % 2 ^ 8) else u16 v

  unfoldable pub from_u32 : ℕ → UintN U
  from_u32 v =
      if leb v 0xff then u8 (v % 2 ^ 8) else if leb v 0xffff then u16 (v % 2 ^ 16) else u32 v

  unfoldable pub from_u64 : ℕ → UintN U
  from_u64 v =
      if leb v 0xff
      then u8 (v % 2 ^ 8)
      else if leb v 0xffff
      then u16 (v % 2 ^ 16)
      else if leb v 0xffff_ffff
      then u32 (v % 2 ^ 32)
      else u64 v

  unfoldable pub from_u128 : ℕ → UintN U
  from_u128 v =
      if leb v 0xff
      then u8 (v % 2 ^ 8)
      else if leb v 0xffff
      then u16 (v % 2 ^ 16)
      else if leb v 0xffff_ffff
      then u32 (v % 2 ^ 32)
      else if leb v 0xffff_ffff_ffff_ffff
      then u64 (v % 2 ^ 64)
      else u128 v

module _ {U : Type 0} ⦃b : UBig U⦄ where
  -- `From<UBig>`
  unfoldable pub from_ubig : U → UintN U
  unfolding from_u128
  from_ubig v = elim (b.try_into 128 v) [ some w ↦ from_u128 w | none ↦ big v ]

  unfoldable pub is_zero : UintN U → Bool
  is_zero (u8 v) = v == 0
  is_zero (u16 v) = v == 0
  is_zero (u32 v) = v == 0
  is_zero (u64 v) = v == 0
  is_zero (u128 v) = v == 0
  is_zero (big v) = b.eq v (b.from 0)

  unfoldable pub to_u64 : UintN U → Outcome Error ℕ
  to_u64 (u8 v) = ok v
  to_u64 (u16 v) = ok v
  to_u64 (u32 v) = ok v
  to_u64 (u64 v) = ok v
  to_u64 (u128 v) = if leb v 0xffff_ffff_ffff_ffff then ok (v % 2 ^ 64) else err value_too_large
  to_u64 (big v) = ok_or value_too_large (b.try_into 64 v)

  unfoldable pub to_u128 : UintN U → Outcome Error ℕ
  to_u128 (u8 v) = ok v
  to_u128 (u16 v) = ok v
  to_u128 (u32 v) = ok v
  to_u128 (u64 v) = ok v
  to_u128 (u128 v) = ok v
  to_u128 (big v) = ok_or value_too_large (b.try_into 128 v)

  unfoldable pub to_ubig : UintN U → U
  to_ubig (u8 v) = b.from v
  to_ubig (u16 v) = b.from v
  to_ubig (u32 v) = b.from v
  to_ubig (u64 v) = b.from v
  to_ubig (u128 v) = b.from v
  to_ubig (big v) = v

  unfoldable pub shrink_to_fit : UintN U → UintN U
  unfolding from_ubig to_ubig
  shrink_to_fit (u8 v) = u8 v
  shrink_to_fit n = from_ubig (to_ubig n)

  -- The number that a value stands for, whatever its variant.
  unfoldable pub value : UintN U → ℕ
  value (u8 v) = v
  value (u16 v) = v
  value (u32 v) = v
  value (u64 v) = v
  value (u128 v) = v
  value (big v) = b.value v

  -- The payload is a machine integer of the variant's width.
  abbrev pub IsInRange : UintN U → Type 0
  IsInRange (u8 v) = v < 2 ^ 8
  IsInRange (u16 v) = v < 2 ^ 16
  IsInRange (u32 v) = v < 2 ^ 32
  IsInRange (u64 v) = v < 2 ^ 64
  IsInRange (u128 v) = v < 2 ^ 128
  IsInRange (big v) = Unit {0}

  -- Canonical: besides, a machine integer has the narrowest width that holds it. A `big` may hold any
  -- number, as the codec reads one from any other count of bytes.
  abbrev pub IsCanonical : UintN U → Type 0
  IsCanonical (u8 v) = v < 2 ^ 8
  IsCanonical (u16 v) = (2 ^ 8 ≤ v) × (v < 2 ^ 16)
  IsCanonical (u32 v) = (2 ^ 16 ≤ v) × (v < 2 ^ 32)
  IsCanonical (u64 v) = (2 ^ 32 ≤ v) × (v < 2 ^ 64)
  IsCanonical (u128 v) = (2 ^ 64 ≤ v) × (v < 2 ^ 128)
  IsCanonical (big v) = Unit {0}

  -- The narrowest variant that holds the number: a `big` holds no number below 2^128.
  abbrev pub IsNarrowest : UintN U → Type 0
  IsNarrowest (u8 v) = v < 2 ^ 8
  IsNarrowest (u16 v) = (2 ^ 8 ≤ v) × (v < 2 ^ 16)
  IsNarrowest (u32 v) = (2 ^ 16 ≤ v) × (v < 2 ^ 32)
  IsNarrowest (u64 v) = (2 ^ 32 ≤ v) × (v < 2 ^ 64)
  IsNarrowest (u128 v) = (2 ^ 64 ≤ v) × (v < 2 ^ 128)
  IsNarrowest (big v) = 2 ^ 128 ≤ b.value v

  abbrev pub is_big : UintN U → Bool
  is_big (big v) = true
  is_big x = false

  -- The value stands for `n`, and is canonical.
  abbrev pub Represents : UintN U → ℕ → Type 0
  Represents x n = (value x ≡ n) × IsCanonical x
