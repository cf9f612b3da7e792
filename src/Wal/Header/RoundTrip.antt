-- ===== src/Wal/Header/RoundTrip.antt =====
-- `normfs-wal/src/wal_header.rs`: the bytes that are written, and reading them.
use normfs.Prelude.{
  ◌+◌, ◌^◌, ◌<◌, ◌≡◌, ◌++◌, [], ℕ, List, append_assoc, arith, length, Returns, Returns-eq,
}
use normfs.UintN.Codec.RoundTrip.{
  prefixed_bytes, read_from_slice-prefixed_bytes, write_to_buffer_lem, length-prefixed_bytes,
  is_big_size,
}
use normfs.UintN.Codec.Slices.{three_fields, three_fields_lem, length-three_fields}
use normfs.UBig.{UBig}
use normfs.UintN.{value, IsInRange, Represents, is_big}
use normfs.UintN.Codec.{size_in_bytes, read_from_slice}
use normfs.Wal.Header.{WalHeader, from_bytes, write_to_bytes, size}

module _ {U : Type 0} ⦃b : UBig U⦄ where
  -- The bytes of a header: the version, the two sizes, and the number of entries before.
  abbrev pub header_bytes : WalHeader U → List ℕ
  header_bytes h =
      three_fields 0 h.data_size_bytes h.id_size_bytes (prefixed_bytes h.num_entries_before)

  -- The fields are machine integers, and the number's own bytes can be counted in a `usize`.
  pub record IsWritable (h : WalHeader U) : Type 0 where
    pub data_size : h.data_size_bytes < 2 ^ 64
    pub id_size : h.id_size_bytes < 2 ^ 64
    pub entries : IsInRange h.num_entries_before
    pub countable : 8 + size_in_bytes h.num_entries_before < 2 ^ 64

  -- `write_to_bytes` appends the bytes of the header, as many as it reports.
  pub write_to_bytes_lem :
      (h : WalHeader U) (dest : List ℕ)
      → (write_to_bytes h dest ≡ (dest ++ header_bytes h, size h))
        × (length (header_bytes h) ≡ size h)
  unfolding write_to_bytes size
  write_to_bytes_lem h dest = (
    simp (write_to_buffer_lem, append_assoc),
    omega (
      arith,
      length-three_fields 0 h.data_size_bytes h.id_size_bytes (prefixed_bytes h.num_entries_before),
      length-prefixed_bytes h.num_entries_before,
    ),
  )

  header_bytes-append :
      (h : WalHeader U) (rest : List ℕ)
      → header_bytes h ++ rest
        ≡ three_fields 0 h.data_size_bytes h.id_size_bytes
            (prefixed_bytes h.num_entries_before ++ rest)
  header_bytes-append h rest = simp append_assoc

  -- For a header whose fields are machine integers or a big number with countable bytes, `from_bytes`
  -- reads back the header that `write_to_bytes` wrote, whatever follows it, and consumes the bytes that
  -- `size` counts. The number of entries comes back as the narrowest machine integer that holds it where
  -- its bytes are 0, 1, 2, 4, 8 or 16, and else as a big number.
  pub from_bytes-write_to_bytes :
      (h : WalHeader U) (rest : List ℕ)
      → IsWritable h
      → Returns
          (λ r.
            (r.0.data_size_bytes ≡ h.data_size_bytes)
            × (r.0.id_size_bytes ≡ h.id_size_bytes)
            × Represents r.0.num_entries_before (value h.num_entries_before)
            × (r.1 ≡ size h)
            × (is_big r.0.num_entries_before ≡ is_big_size (size_in_bytes h.num_entries_before)))
          (from_bytes {U = U} ((write_to_bytes h []).0 ++ rest))
  unfolding from_bytes size
  from_bytes-write_to_bytes h rest w =
      let tail = prefixed_bytes h.num_entries_before ++ rest in
      let fields =
        three_fields_lem 0 h.data_size_bytes h.id_size_bytes tail (omega arith) w.data_size
          w.id_size in
      let (r, e, rr) =
        Returns-eq _ (read_from_slice {U = U} tail)
          (read_from_slice-prefixed_bytes h.num_entries_before rest w.entries w.countable) in
      rw ((write_to_bytes_lem h []).0, header_bytes-append h rest)
        (ground
          (arith, fields, e, rr, length-three_fields 0 h.data_size_bytes h.id_size_bytes tail))
