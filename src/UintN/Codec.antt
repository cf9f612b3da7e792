-- ===== src/UintN/Codec.antt =====
-- `uintn-rs/src/lib.rs`: reading and writing values as bytes. A `usize` has 64 bits; a slice and a
-- buffer are lists of bytes, and a function that appends to a buffer returns the new one.
pub mod Slices
pub mod Shape
pub mod RoundTrip
pub mod Field
use normfs.Prelude.{
  ◌+◌, ◌-◌, ◌^◌, ◌||◌, ◌∷◌, ◌++◌, ◌==◌, if◌then◌else◌, ◌>>=◌, [], ℕ, Bool, List, ltb, leb, is_gt,
  length, take, drop, replicate, Outcome, ok, err, panic, le_bytes, le_value,
}
use normfs.UBig.{UBig}
use normfs.UintN.{
  UintN, u8, u16, u32, u64, u128, big, Error, slice_too_short, value_too_large, invalid_uintn_size,
  to_ubig, from_u16, from_u32, from_u64, from_u128,
}

-- The little-endian `u64` at an offset of a slice that is long enough.
unfoldable pub u64_at : List ℕ → ℕ → ℕ
u64_at slice i = le_value (take 8 (drop i slice))

-- `matches!(size, 1 | 2 | 4 | 8 | 16)`
unfoldable pub is_valid_data_size : ℕ → Bool
is_valid_data_size size = size == 1 || size == 2 || size == 4 || size == 8 || size == 16

-- `data.try_into()` at an array of `n` bytes.
abbrev array : ℕ → List ℕ → Outcome Error (List ℕ)
array n slice = if length slice == n then ok slice else err slice_too_short

module _ {U : Type 0} ⦃b : UBig U⦄ where
  -- `data[0]` panics on an empty slice.
  abbrev first_byte : List ℕ → Outcome Error (UintN U)
  first_byte [] = panic
  first_byte (x ∷ xs) = ok (u8 x)

  unfoldable pub read_value_from_slice : List ℕ → ℕ → Outcome Error (UintN U)
  read_value_from_slice slice size =
      if ltb (length slice) size
      then err slice_too_short
      else if size == 0
      then ok (u8 0)
      else if size == 1
      then first_byte slice
      else if size == 2
      then (array 2 slice >>= λ a. ok (from_u16 (le_value a)))
      else if size == 4
      then (array 4 slice >>= λ a. ok (from_u32 (le_value a)))
      else if size == 8
      then (array 8 slice >>= λ a. ok (from_u64 (le_value a)))
      else if size == 16
      then (array 16 slice >>= λ a. ok (from_u128 (le_value a)))
      else ok (big (b.from_le_bytes slice))

  -- `bytes_read + len` panics where it passes 2^64: with overflow checks in the sum, and without
  -- them in the slice, whose end then lies before its start.
  unfoldable pub read_from_slice : List ℕ → Outcome Error (UintN U × ℕ)
  unfolding read_value_from_slice u64_at
  read_from_slice slice =
      if ltb (length slice) 8
      then err slice_too_short
      else let len = u64_at slice 0 in
        if leb (2 ^ 64) (8 + len)
        then panic
        else if ltb (length slice) (8 + len)
        then err slice_too_short
        else (read_value_from_slice (take len (drop 8 slice)) len >>= λ v. ok (v, 8 + len))

  unfoldable pub size_in_bytes : UintN U → ℕ
  size_in_bytes (u8 v) = 1
  size_in_bytes (u16 v) = 2
  size_in_bytes (u32 v) = 4
  size_in_bytes (u64 v) = 8
  size_in_bytes (u128 v) = 16
  size_in_bytes (big v) = length (b.to_be_bytes v)

  -- What `write_value_to_buffer` appends.
  abbrev pub value_bytes : UintN U → List ℕ
  value_bytes (u8 v) = le_bytes 1 v
  value_bytes (u16 v) = le_bytes 2 v
  value_bytes (u32 v) = le_bytes 4 v
  value_bytes (u64 v) = le_bytes 8 v
  value_bytes (u128 v) = le_bytes 16 v
  value_bytes (big v) = b.to_le_bytes v

  -- The new buffer, and how many bytes were appended.
  unfoldable pub write_value_to_buffer : UintN U → List ℕ → List ℕ × ℕ
  write_value_to_buffer x buffer =
      let after = buffer ++ value_bytes x in (after, length after - length buffer)

  unfoldable pub value_to_bytes : UintN U → List ℕ
  unfolding write_value_to_buffer
  value_to_bytes x = (write_value_to_buffer x []).0

  unfoldable pub write_to_buffer : UintN U → List ℕ → List ℕ × ℕ
  unfolding write_value_to_buffer size_in_bytes
  write_to_buffer x buffer =
      let (after, n) = write_value_to_buffer x (buffer ++ le_bytes 8 (size_in_bytes x)) in
      (after, 8 + n)

  -- `max_val`: the largest number of `size` bytes, for the sizes of machine integers.
  abbrev max_val : ℕ → Outcome Error U
  max_val size =
      if size == 1
      then ok (b.from 0xff)
      else if size == 2
      then ok (b.from 0xffff)
      else if size == 4
      then ok (b.from 0xffff_ffff)
      else if size == 8
      then ok (b.from 0xffff_ffff_ffff_ffff)
      else if size == 16
      then ok (b.from (2 ^ 128 - 1))
      else err invalid_uintn_size

  -- The check that the value fits, where its own bytes are more than `size`.
  abbrev check_fits : UintN U → ℕ → Outcome Error (Unit {0})
  check_fits x size =
      if ltb size (size_in_bytes x)
      then (max_val size >>= λ m.
          if is_gt (b.cmp (to_ubig x) m) then err value_too_large else ok tt)
      else ok tt

  -- The new buffer, and `size`. An error leaves the buffer as it was.
  unfoldable pub write_value_to_buffer_with_size : UintN U → List ℕ → ℕ → Outcome Error (List ℕ × ℕ)
  unfolding write_value_to_buffer size_in_bytes to_ubig
  write_value_to_buffer_with_size x buffer size = check_fits x size >>= λ _.
      let (after, written_len) = write_value_to_buffer x buffer in
      ok (after ++ replicate (size - written_len) 0, size)

  unfoldable pub can_fit : UintN U → ℕ → Bool
  unfolding size_in_bytes
  can_fit x num_bytes = leb (size_in_bytes x) num_bytes
