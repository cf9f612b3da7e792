-- ===== src/UintN/Codec/RoundTrip.antt =====
-- `uintn-rs/src/lib.rs`: the readers, and reading what the writers wrote.
use normfs.Prelude.{
  ◌+◌, ◌^◌, ◌≤◌, ◌<◌, ◌≡◌, ◌≢◌, ◌↔◌, ◌||◌, ◌∷◌, ◌++◌, ◌==◌, [], ℕ, sym, Bool, not, List,
  append_assoc, arith, length, take, drop, All, length-append, take-append, ok, panic, Returns,
  Returns-eq, IsByte, le_bytes, le_value, length-le_bytes, le_value-lt,
}
use normfs.UintN.Codec.Shape.{length-value_bytes, le_value-value_bytes, value_bytes-IsByte}
use normfs.UintN.Codec.Slices.{u64_at-le_bytes, drop-append_of_length}
use normfs.UBig.{UBig}
use normfs.UintN.{
  value, Represents, UintN, IsInRange, from_u16, is_big, from_u32, from_u64, from_u128,
}
use normfs.UintN.Value.{from_u16_lem, from_u32_lem, from_u64_lem, from_u128_lem}
use normfs.UintN.Codec.{
  read_value_from_slice, read_from_slice, u64_at, write_to_buffer, value_bytes,
  write_value_to_buffer, size_in_bytes,
}

-- The counts of bytes that are read as a big number.
abbrev pub is_big_size : ℕ → Bool
is_big_size size = not (size == 0 || size == 1 || size == 2 || size == 4 || size == 8 || size == 16)

module _ (U : Type 0) ⦃b : UBig U⦄ where
  -- A field that is read whole has the number of its bytes, in canonical form,
  -- and the read neither fails nor panics.
  pub read_value_from_slice_lem :
      (bs : List ℕ)
      → All IsByte bs
      → Returns (λ z. Represents z (le_value bs)) (read_value_from_slice {U = U} bs (length bs))
  unfolding read_value_from_slice value le_value
  read_value_from_slice_lem [] h = ground arith
  read_value_from_slice_lem (x ∷ []) h = ground arith
  read_value_from_slice_lem (x ∷ y ∷ bs) h = ground (
    arith,
    le_value-lt (x ∷ y ∷ bs) h,
    from_u16_lem U (le_value (x ∷ y ∷ bs)),
    from_u32_lem U (le_value (x ∷ y ∷ bs)),
    from_u64_lem U (le_value (x ∷ y ∷ bs)),
    from_u128_lem U (le_value (x ∷ y ∷ bs)),
    b.value-from_le_bytes (x ∷ y ∷ bs),
  )

  is_big-read_value_from_slice :
      (bs : List ℕ) (z : UintN U)
      → read_value_from_slice {U = U} bs (length bs) ≡ ok z
      → is_big z ≡ is_big_size (length bs)
  unfolding read_value_from_slice from_u16 from_u32 from_u64 from_u128
  is_big-read_value_from_slice [] z e = ground (arith, e)
  is_big-read_value_from_slice (x ∷ bs) z e = ground (arith, e)

  -- A length-prefixed field at the start of a slice is read with its length, whatever follows it.
  pub read_from_slice_lem :
      (bs rest : List ℕ)
      → All IsByte bs
      → 8 + length bs < 2 ^ 64
      → Returns
          (λ r.
            Represents r.0 (le_value bs)
            × (r.1 ≡ 8 + length bs)
            × (is_big r.0 ≡ is_big_size (length bs)))
          (read_from_slice {U = U} (le_bytes 8 (length bs) ++ (bs ++ rest)))
  unfolding read_from_slice
  read_from_slice_lem bs rest h lt =
      let front = le_bytes 8 (length bs) in
      let e = u64_at-le_bytes (length bs) (bs ++ rest) (omega arith) in
      let d = drop-append_of_length front (bs ++ rest) 8 (sym (length-le_bytes 8 (length bs))) in
      let (z, r, rz) =
        Returns-eq _ (read_value_from_slice {U = U} bs (length bs))
          (read_value_from_slice_lem bs h) in
      rw (e, d, take-append bs rest, r)
        (ground (
          arith,
          length-append front (bs ++ rest),
          length-append bs rest,
          length-le_bytes 8 (length bs),
          is_big-read_value_from_slice bs z r,
        ))

module _ {U : Type 0} ⦃b : UBig U⦄ where
  -- `write_to_buffer` appends the length and the bytes of the value, and counts them.
  pub write_to_buffer_lem :
      (x : UintN U) (buffer : List ℕ)
      → write_to_buffer x buffer
        ≡ (buffer ++ (le_bytes 8 (size_in_bytes x) ++ value_bytes x), 8 + size_in_bytes x)
  unfolding write_to_buffer write_value_to_buffer
  write_to_buffer_lem x buffer =
      let front = buffer ++ le_bytes 8 (size_in_bytes x) in
      ground (
        arith,
        append_assoc buffer (le_bytes 8 (size_in_bytes x)) (value_bytes x),
        length-append front (value_bytes x),
        length-value_bytes x,
      )

  -- A number behind its length in a `u64`.
  abbrev pub prefixed_bytes : UintN U → List ℕ
  prefixed_bytes x = le_bytes 8 (size_in_bytes x) ++ value_bytes x

  pub length-prefixed_bytes : (x : UintN U) → length (prefixed_bytes x) ≡ 8 + size_in_bytes x
  length-prefixed_bytes x = omega (
    arith,
    length-append (le_bytes 8 (size_in_bytes x)) (value_bytes x),
    length-le_bytes 8 (size_in_bytes x),
    length-value_bytes x,
  )

  pub read_from_slice-prefixed_bytes :
      (x : UintN U) (rest : List ℕ)
      → IsInRange x
      → 8 + size_in_bytes x < 2 ^ 64
      → Returns
          (λ r.
            Represents r.0 (value x)
            × (r.1 ≡ 8 + size_in_bytes x)
            × (is_big r.0 ≡ is_big_size (size_in_bytes x)))
          (read_from_slice {U = U} (prefixed_bytes x ++ rest))
  read_from_slice-prefixed_bytes x rest h lt =
      rw
        (
          append_assoc (le_bytes 8 (size_in_bytes x)) (value_bytes x) rest,
          ← length-value_bytes x,
          ← le_value-value_bytes x h,
        )
        (read_from_slice_lem U (value_bytes x) rest (value_bytes-IsByte x)
          (rw (length-value_bytes x) lt))

  -- For a value whose payload is in its variant's range and whose bytes can be counted in a
  -- `usize`, `read_from_slice` reads back the number that `write_to_buffer` wrote, and consumes the
  -- bytes that it counted, whatever follows them. The number comes back as the narrowest machine
  -- integer that holds it where its bytes are 0, 1, 2, 4, 8 or 16, and else as a big number.
  pub read_from_slice-write_to_buffer :
      (x : UintN U) (rest : List ℕ)
      → IsInRange x
      → 8 + size_in_bytes x < 2 ^ 64
      → Returns
          (λ r.
            Represents r.0 (value x)
            × (r.1 ≡ (write_to_buffer x []).1)
            × (is_big r.0 ≡ is_big_size (size_in_bytes x)))
          (read_from_slice {U = U} ((write_to_buffer x []).0 ++ rest))
  read_from_slice-write_to_buffer x rest h lt =
      rw (write_to_buffer_lem x []) (read_from_slice-prefixed_bytes x rest h lt)

module _ (U : Type 0) ⦃b : UBig U⦄ where
  read_value_from_slice-ne-panic :
      (slice : List ℕ) (size : ℕ) → read_value_from_slice {U = U} slice size ≢ panic
  unfolding read_value_from_slice
  read_value_from_slice-ne-panic [] size e = ground arith
  read_value_from_slice-ne-panic (x ∷ xs) size e = ground arith

  -- `read_from_slice` panics exactly on the slices of at least eight bytes whose length prefix and
  -- eight more bytes pass the range of a `usize`.
  pub read_from_slice_panics :
      (slice : List ℕ)
      → (read_from_slice {U = U} slice ≡ panic)
        ↔ ((8 ≤ length slice) × (2 ^ 64 ≤ 8 + u64_at slice 0))
  unfolding read_from_slice
  read_from_slice_panics slice =
      let len = u64_at slice 0 in
      let fine = read_value_from_slice-ne-panic (take len (drop 8 slice)) len in
      (λ e. ground (arith, fine), λ h. ground arith)
