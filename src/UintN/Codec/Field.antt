-- ===== src/UintN/Codec/Field.antt =====
-- `uintn-rs/src/lib.rs`: values in fields of a fixed size, as the WAL entry headers hold them.
use normfs.Prelude.{
  ◌-◌, ◌^◌, ◌≤◌, ◌<◌, ◌≡◌, ◌∙◌, ◌++◌, [], ℕ, suc, true, List, append_assoc, arith, is_gt, length,
  replicate, All, length-append, length-replicate, All-append, ok, err, Returns, IsByte, le_value,
  le_value-append_zeros, zero,
}
use native.Mathlib.Nat.{pow-le-pow_right}
use native.Mathlib.Decide.{dec_lt}
use mathlib.Core.Path.{subst₂}
use normfs.UBig.{UBig}
use normfs.UintN.{UintN, to_ubig, value, value_too_large, IsCanonical, Represents, IsInRange}
use normfs.UintN.Value.{value-to_ubig, IsCanonical-IsInRange}
use normfs.UintN.Codec.{
  value_bytes, size_in_bytes, is_valid_data_size, read_value_from_slice, write_value_to_buffer,
  write_value_to_buffer_with_size,
}
use normfs.UintN.Codec.Shape.{
  valid_sizes, value-lt_size, size_in_bytes-le, length-value_bytes, le_value-value_bytes,
  value_bytes-IsByte,
}
use normfs.UintN.Codec.RoundTrip.{read_value_from_slice_lem}

zeros-IsByte : (n : ℕ) → All IsByte (replicate n 0)
zeros-IsByte zero = tt
zeros-IsByte (suc n) = (omega arith, zeros-IsByte n)

module _ {U : Type 0} ⦃b : UBig U⦄ where
  -- What `write_value_to_buffer_with_size` appends to a field of `size` bytes.
  abbrev pub padded_bytes : UintN U → ℕ → List ℕ
  padded_bytes x size = value_bytes x ++ replicate (size - size_in_bytes x) 0

  -- For a value in canonical form, a size that a header allows, and a number below 256^size,
  -- the write succeeds, reports `size`, and appends exactly `size` bytes that have the number as
  -- their little-endian value.
  pub write_value_to_buffer_with_size_lem :
      (x : UintN U) (buffer : List ℕ) (size : ℕ)
      → IsCanonical x
      → is_valid_data_size size ≡ true
      → value x < 256 ^ size
      → (write_value_to_buffer_with_size x buffer size ≡ ok (buffer ++ padded_bytes x size, size))
        × (length (padded_bytes x size) ≡ size)
        × (le_value (padded_bytes x size) ≡ value x)
        × All IsByte (padded_bytes x size)
  unfolding write_value_to_buffer_with_size write_value_to_buffer
  write_value_to_buffer_with_size_lem x buffer size h v lt =
      let zeros = replicate (size - size_in_bytes x) 0 in
      let fits = size_in_bytes-le x size h v lt in
      (
        ground (
          arith,
          fits,
          append_assoc buffer (value_bytes x) zeros,
          length-append buffer (value_bytes x),
          length-value_bytes x,
        ),
        ground (
          arith,
          fits,
          length-append (value_bytes x) zeros,
          length-replicate {A = ℕ} (size - size_in_bytes x) 0,
          length-value_bytes x,
        ),
        le_value-append_zeros (value_bytes x) (size - size_in_bytes x)
            ∙ le_value-value_bytes x (IsCanonical-IsInRange x h),
        All-append IsByte (value_bytes x) zeros (value_bytes-IsByte x)
            (zeros-IsByte (size - size_in_bytes x)),
      )

  gt_max : (x : UintN U) (m : ℕ) → m < value x → is_gt (b.cmp (to_ubig x) (b.from m)) ≡ true
  gt_max x m h =
      ground (arith, b.cmp_lem (to_ubig x) (b.from m), b.value-from m, value-to_ubig {U = U} x)

  narrow_field :
      (x : UintN U) (size : ℕ) → IsInRange x → 256 ^ size ≤ value x → size < size_in_bytes x
  narrow_field x size h le = elim (dec_lt size (size_in_bytes x)) [
    | yes lt ↦ lt
    | no ge ↦ absurd (
        omega (
          arith,
          value-lt_size x h,
          pow-le-pow_right {n = 256} (omega arith) {i = size_in_bytes x} {j = size} (omega arith),
        ))
  ]

  -- For a value in canonical form, a size that a header allows, and a number of 256^size or
  -- more, the write is the error `ValueTooLarge`.
  pub write_value_to_buffer_with_size_too_large :
      (x : UintN U) (buffer : List ℕ) (size : ℕ)
      → IsCanonical x
      → is_valid_data_size size ≡ true
      → 256 ^ size ≤ value x
      → write_value_to_buffer_with_size x buffer size ≡ err value_too_large
  unfolding write_value_to_buffer_with_size
  write_value_to_buffer_with_size_too_large x buffer size h v lt =
      valid_sizes
        (λ n.
          n < size_in_bytes x
          → 256 ^ n ≤ value x
          → write_value_to_buffer_with_size x buffer n ≡ err value_too_large)
        (λ l k. ground (arith, gt_max x 0xff)) (λ l k. ground (arith, gt_max x 0xffff))
        (λ l k. ground (arith, gt_max x 0xffff_ffff))
        (λ l k. ground (arith, gt_max x 0xffff_ffff_ffff_ffff))
        (λ l k. ground (arith, gt_max x (2 ^ 128 - 1))) size v
        (narrow_field x size (IsCanonical-IsInRange x h) lt) lt

  -- A field that `write_value_to_buffer_with_size` filled is read back as the number.
  pub read_value_from_slice-padded_bytes :
      (x : UintN U) (size : ℕ)
      → IsCanonical x
      → is_valid_data_size size ≡ true
      → value x < 256 ^ size
      → Returns
          (λ z. Represents z (value x))
          (read_value_from_slice {U = U} (padded_bytes x size) size)
  read_value_from_slice-padded_bytes x size h v lt =
      let (e, len, val, bytes) = write_value_to_buffer_with_size_lem x [] size h v lt in
      let read = read_value_from_slice_lem U (padded_bytes x size) bytes in
      subst₂
        (λ n m.
          Returns (λ z. Represents z m) (read_value_from_slice {U = U} (padded_bytes x size) n))
        len val read
