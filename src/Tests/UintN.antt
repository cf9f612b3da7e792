-- ===== src/Tests/UintN.antt =====
-- `uintn-rs/src/lib.rs` at concrete inputs.
use normfs.Prelude.{
  ◌+◌, ◌^◌, ◌≤◌, ◌≡◌, ◌↔◌, ◌∷◌, ◌++◌, [], ℕ, refl, false, List, arith, length, replicate, panic,
  Returns, le_value,
}
use normfs.UintN.Step.Range.{middle-IsNarrowest, in_step_zero}
use normfs.UintN.Step.{middle, in_step}
use normfs.UintN.Codec.RoundTrip.{read_from_slice_panics, read_from_slice-write_to_buffer}
use normfs.UintN.Codec.{read_from_slice, u64_at, write_to_buffer, size_in_bytes}
use normfs.UintN.{UintN, big, u16, u8, value, Represents, IsNarrowest, is_big}
use normfs.UintN.Arith.{increment}
use normfs.Tests.BigNat.{big_nat}

abbrev full_u8 : UintN ℕ
full_u8 = u8 255

abbrev ten_thousand : UintN ℕ
ten_thousand = u16 10_000

abbrev huge : UintN ℕ
huge = big (2 ^ 130)

increment_full : increment full_u8 ≡ u16 256
unfolding increment
increment_full = refl

middle-IsNarrowest_example :
    (value (middle full_u8 huge) ≡ 2 ^ 129 + 127) × IsNarrowest (middle full_u8 huge)
unfolding value
middle-IsNarrowest_example = middle-IsNarrowest full_u8 huge (omega arith) tt

in_step_zero_example : in_step ten_thousand full_u8 0 ≡ panic
unfolding value
in_step_zero_example = in_step_zero ten_thousand full_u8 (omega arith) (omega arith) (omega arith)

read_from_slice-write_to_buffer_example :
    Returns
      (λ r.
        Represents r.0 10_000 × (r.1 ≡ (write_to_buffer ten_thousand []).1) × (is_big r.0 ≡ false))
      (read_from_slice {U = ℕ} ((write_to_buffer ten_thousand []).0 ++ (7 ∷ [])))
unfolding value size_in_bytes
read_from_slice-write_to_buffer_example =
    read_from_slice-write_to_buffer ten_thousand (7 ∷ []) (omega arith)
      (unfold size_in_bytes in omega arith)

-- Eight bytes of 0xff: a length prefix of 2^64 - 1.
abbrev full_prefix : List ℕ
full_prefix = replicate 8 255

read_from_slice_panics_example :
    (read_from_slice {U = ℕ} full_prefix ≡ panic)
    ↔ ((8 ≤ length full_prefix) × (2 ^ 64 ≤ 8 + u64_at full_prefix 0))
read_from_slice_panics_example = read_from_slice_panics ℕ full_prefix

read_from_slice_at_full_prefix : read_from_slice {U = ℕ} full_prefix ≡ panic
unfolding read_from_slice u64_at le_value
read_from_slice_at_full_prefix = refl
