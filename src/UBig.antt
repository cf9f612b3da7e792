-- ===== src/UBig.antt =====
-- `dashu_int::UBig`, the arbitrary-precision integers on which `uintn-rs/src/lib.rs` builds its last
-- variant. The crate is no part of the repository: its type and the operations that the code calls
-- are a record of operations, and what its documentation says of each is a law about `value`.
use normfs.Prelude.{
  ℕ, ◌+◌, ◌-◌, ◌/◌, ◌%◌, ◌^◌, ◌≤◌, ◌<◌, ◌≡◌, ◌≢◌, compare, Ordering, Bool, Option, none, some, List,
  length, All, ltb, ◌==◌, if◌then◌else◌, IsByte, le_value,
}

pub record UBig (U : Type 0) : Type 0 where
  -- The integer that a big number stands for.
  pub value : U → ℕ
  -- `UBig::from` on a machine integer, and `UBig::ZERO`.
  pub from : ℕ → U
  pub add : U → U → U
  -- `a - b`, which the crate defines for `b ≤ a` only.
  pub sub : U → U → U
  -- `a % b`, for `b` other than zero, and `a / 2`.
  pub rem : U → U → U
  pub half : U → U
  pub eq : U → U → Bool
  pub cmp : U → U → Ordering
  -- `try_into` at `u64` and `u128`.
  pub try_into : ℕ → U → Option ℕ
  pub to_le_bytes : U → List ℕ
  pub to_be_bytes : U → List ℕ
  pub from_le_bytes : List ℕ → U
  pub value-from : (n : ℕ) → value (from n) ≡ n
  pub value-add : (a b : U) → value (add a b) ≡ value a + value b
  pub value-sub : (a b : U) → value b ≤ value a → value (sub a b) ≡ value a - value b
  pub value-rem : (a b : U) → value b ≢ 0 → value (rem a b) ≡ value a % value b
  pub value-half : (a : U) → value (half a) ≡ value a / 2
  pub eq_lem : (a b : U) → eq a b ≡ (value a == value b)
  pub cmp_lem : (a b : U) → cmp a b ≡ compare (value a) (value b)
  pub try_into_lem :
      (w : ℕ) (a : U) → try_into w a ≡ (if ltb (value a) (2 ^ w) then some (value a) else none)
  -- The bytes have no zero at the high end: as many as the number needs.
  pub le_value-to_le_bytes : (a : U) → le_value (to_le_bytes a) ≡ value a
  pub to_le_bytes-IsByte : (a : U) → All IsByte (to_le_bytes a)
  pub length-to_le_bytes : (k : ℕ) (a : U) → value a < 256 ^ k → length (to_le_bytes a) ≤ k
  pub length-to_be_bytes : (a : U) → length (to_be_bytes a) ≡ length (to_le_bytes a)
  pub value-from_le_bytes : (bs : List ℕ) → value (from_le_bytes bs) ≡ le_value bs
