-- ===== src/Store/Header/RoundTrip.antt =====
-- `normfs-store/src/header.rs`: the bytes of a store header, and reading them.
use normfs.Prelude.{
  ◌+◌, ◌^◌, ◌<◌, ◌≡◌, ◌∙◌, ◌++◌, [], ℕ, refl, sym, some, List, append_assoc, arith, drop, Returns,
  Returns-eq, drop-drop,
}
use normfs.UBig.{UBig}
use normfs.UintN.{value, IsInRange, Represents}
use normfs.UintN.Codec.{size_in_bytes, read_from_slice}
use normfs.UintN.Codec.RoundTrip.{
  prefixed_bytes, read_from_slice-prefixed_bytes, write_to_buffer_lem, length-prefixed_bytes,
}
use normfs.UintN.Codec.Slices.{
  three_fields, three_fields_lem, length-three_fields, drop-append_of_length,
}
use normfs.Types.{
  none_compression, gzip, xz, zstd, none_encryption, aes, CompressionType, EncryptionType,
  compression_try_from, compression_code, encryption_try_from, encryption_code,
}
use normfs.Store.Header.{
  StoreHeader, version_code, version_try_from, compression_type_from_u64, encryption_type_from_u64,
  from_bytes, write_to_bytes, size,
}

pub compression_round : (c : CompressionType) → compression_try_from (compression_code c) ≡ some c
unfolding compression_try_from compression_code
compression_round none_compression = refl
compression_round gzip = refl
compression_round xz = refl
compression_round zstd = refl

pub encryption_round : (c : EncryptionType) → encryption_try_from (encryption_code c) ≡ some c
unfolding encryption_try_from encryption_code
encryption_round none_encryption = refl
encryption_round aes = refl

codes_bound :
    (c : CompressionType) (e : EncryptionType)
    → (compression_code c < 2 ^ 64) × (encryption_code e < 2 ^ 64)
unfolding compression_code encryption_code
codes_bound c e = ground arith

module _ {U : Type 0} ⦃b : UBig U⦄ where
  -- The fields are machine integers, and the numbers' own bytes can be counted in a `usize`.
  pub record IsWritable (h : StoreHeader U) : Type 0 where
    pub before : IsInRange h.num_entries_before
    pub entries : IsInRange h.num_entries
    pub countable_before : 8 + size_in_bytes h.num_entries_before < 2 ^ 64
    pub countable : 8 + size_in_bytes h.num_entries < 2 ^ 64

  abbrev pub numbers : StoreHeader U → List ℕ → List ℕ
  numbers h rest = prefixed_bytes h.num_entries_before ++ (prefixed_bytes h.num_entries ++ rest)

  abbrev pub fields : StoreHeader U → List ℕ → List ℕ
  fields h rest =
      three_fields (version_code h.version) (compression_code h.compression)
        (encryption_code h.encryption) (numbers h rest)

  pub written :
      (h : StoreHeader U) (rest : List ℕ) → (write_to_bytes h []).0 ++ rest ≡ fields h rest
  unfolding write_to_bytes
  written h rest = simp (write_to_buffer_lem, append_assoc)

  drop_first :
      (h : StoreHeader U) (rest : List ℕ)
      → drop (8 + size_in_bytes h.num_entries_before) (numbers h rest)
        ≡ prefixed_bytes h.num_entries ++ rest
  drop_first h rest =
      drop-append_of_length (prefixed_bytes h.num_entries_before)
        (prefixed_bytes h.num_entries ++ rest) (8 + size_in_bytes h.num_entries_before)
        (sym (length-prefixed_bytes h.num_entries_before))

  -- For a header whose numbers are in their variants' ranges and countable in a `usize`, `from_bytes`
  -- reads back the header that `write_to_bytes` wrote, whatever follows it, and consumes the bytes that
  -- `size` counts; the two numbers come back in canonical form.
  pub from_bytes-written :
      (h : StoreHeader U) (rest : List ℕ)
      → IsWritable h
      → Returns
          (λ r.
            (r.0.version ≡ h.version)
            × (r.0.compression ≡ h.compression)
            × (r.0.encryption ≡ h.encryption)
            × Represents r.0.num_entries_before (value h.num_entries_before)
            × Represents r.0.num_entries (value h.num_entries)
            × (r.1 ≡ size h))
          (from_bytes {U = U} ((write_to_bytes h []).0 ++ rest))
  unfolding from_bytes size version_try_from version_code compression_type_from_u64
      encryption_type_from_u64
  from_bytes-written h rest w =
      let (c, e) = codes_bound h.compression h.encryption in
      let parts =
        three_fields_lem (version_code h.version) (compression_code h.compression)
          (encryption_code h.encryption) (numbers h rest) (ground arith) c e in
      let (x, ex, rx) = Returns-eq _ (read_from_slice {U = U} (numbers h rest)) (
        read_from_slice-prefixed_bytes h.num_entries_before (prefixed_bytes h.num_entries ++ rest)
          w.before w.countable_before) in
      let (y, ey, ry) =
        Returns-eq _ (read_from_slice {U = U} (prefixed_bytes h.num_entries ++ rest))
          (read_from_slice-prefixed_bytes h.num_entries rest w.entries w.countable) in
      let second : drop (24 + (8 + size_in_bytes h.num_entries_before)) (fields h rest)
          ≡ prefixed_bytes h.num_entries ++ rest =
        drop-drop 24 (8 + size_in_bytes h.num_entries_before) (fields h rest)
        ∙ rw parts.3 (drop_first h rest) in
      rw (written h rest) (
        ground (
          arith,
          parts,
          ex,
          rx,
          ey,
          ry,
          second,
          compression_round h.compression,
          encryption_round h.encryption,
          length-three_fields (version_code h.version) (compression_code h.compression)
              (encryption_code h.encryption) (numbers h rest),
        ))
