-- ===== src/Wal/Entry/RoundTrip.antt =====
-- `normfs-wal/src/wal_entry.rs`: the bytes that are written for an entry, and reading them.
use normfs.Prelude.{
  ◌+◌, ◌^◌, ◌≤◌, ◌<◌, ◌≡◌, ◌++◌, [], ℕ, sym, true, List, append-nil, append_assoc, arith, length,
  take, drop, length-append, ok, Returns, Returns-eq, le_bytes, length-le_bytes, drop-drop,
}
use normfs.UintN.Codec.Slices.{drop-append_of_length, u64_at-le_bytes, take-append_of_length}
use normfs.UintN.Codec.Field.{
  padded_bytes, read_value_from_slice-padded_bytes, write_value_to_buffer_with_size_lem,
}
use normfs.UBig.{UBig}
use normfs.UintN.{value, IsCanonical, Represents}
use normfs.UintN.Codec.{is_valid_data_size, u64_at, read_value_from_slice}
use normfs.Wal.Header.{WalHeader}
use normfs.Wal.Entry.{WalEntryHeader, from_bytes, write_to_bytes, size}

pub size_bound : (n : ℕ) → is_valid_data_size n ≡ true → n ≤ 16
unfolding is_valid_data_size
size_bound n h = ground arith

-- Two fields of given sizes between a version and a hash.
abbrev layout : List ℕ → List ℕ → ℕ → List ℕ → List ℕ
layout p r h rest = le_bytes 8 0 ++ (p ++ (r ++ (le_bytes 8 h ++ rest)))

-- Each part of the layout stands where `from_bytes` looks for it.
layout_lem :
    (p r : List ℕ) (h n m : ℕ) (rest : List ℕ)
    → n ≡ length p
    → m ≡ length r
    → h < 2 ^ 64
    → (u64_at (layout p r h rest) 0 ≡ 0)
      × (take n (drop 8 (layout p r h rest)) ≡ p)
      × (take m (drop (8 + n) (layout p r h rest)) ≡ r)
      × (u64_at (layout p r h rest) (8 + n + m) ≡ h)
unfolding u64_at
layout_lem p r h n m rest hn hm hh =
    let hash = le_bytes 8 h ++ rest in
    let front =
      drop-append_of_length (le_bytes 8 0) (p ++ (r ++ hash)) 8 (sym (length-le_bytes 8 0)) in
    let id = drop-append_of_length p (r ++ hash) n hn in
    let size = drop-append_of_length r hash m hm in
    (
      u64_at-le_bytes 0 (p ++ (r ++ hash)) (omega arith),
      rw (front, take-append_of_length p (r ++ hash) n hn),
      rw (drop-drop, front, id, take-append_of_length r hash m hm),
      rw
          (
            drop-drop (8 + n) m (layout p r h rest),
            drop-drop 8 n (layout p r h rest),
            front,
            id,
            size,
          )
          (u64_at-le_bytes h rest hh),
    )

length-layout :
    (p r : List ℕ) (h : ℕ) (rest : List ℕ)
    → length (layout p r h rest) ≡ 16 + length p + length r + length rest
unfolding le_bytes
length-layout p r h rest =
    omega
      (arith, length-append p (r ++ (le_bytes 8 h ++ rest)), length-append r (le_bytes 8 h ++ rest))

module _ {U : Type 0} ⦃b : UBig U⦄ where
  -- The bytes of an entry's header: the version, the two padded fields, and the hash.
  abbrev pub entry_bytes : WalEntryHeader U → WalHeader U → List ℕ
  entry_bytes e w =
      le_bytes 8 0
      ++ (padded_bytes e.entry_id w.id_size_bytes
          ++ (padded_bytes e.record_size w.data_size_bytes ++ le_bytes 8 e.xxhash))

  -- The sizes are those of machine integers, and both numbers fit their fields.
  pub record Fits (e : WalEntryHeader U) (w : WalHeader U) : Type 0 where
    pub id : IsCanonical e.entry_id
    pub id_size : is_valid_data_size w.id_size_bytes ≡ true
    pub id_fits : value e.entry_id < 256 ^ w.id_size_bytes
    pub record_size : IsCanonical e.record_size
    pub data_size : is_valid_data_size w.data_size_bytes ≡ true
    pub record_fits : value e.record_size < 256 ^ w.data_size_bytes
    pub hash : e.xxhash < 2 ^ 64

  length-padded_bytes :
      (e : WalEntryHeader U) (w : WalHeader U)
      → Fits e w
      → (w.id_size_bytes ≡ length (padded_bytes e.entry_id w.id_size_bytes))
        × (w.data_size_bytes ≡ length (padded_bytes e.record_size w.data_size_bytes))
  length-padded_bytes e w f = (
    sym
        (write_value_to_buffer_with_size_lem e.entry_id [] w.id_size_bytes f.id f.id_size
          f.id_fits).1,
    sym
        (write_value_to_buffer_with_size_lem e.record_size [] w.data_size_bytes f.record_size
          f.data_size f.record_fits).1,
  )

  entry_bytes-append :
      (e : WalEntryHeader U) (w : WalHeader U) (rest : List ℕ)
      → entry_bytes e w ++ rest
        ≡ layout
            (padded_bytes e.entry_id w.id_size_bytes)
            (padded_bytes e.record_size w.data_size_bytes)
            e.xxhash
            rest
  entry_bytes-append e w rest = simp append_assoc

  pub length-entry_bytes :
      (e : WalEntryHeader U) (w : WalHeader U)
      → Fits e w
      → length (entry_bytes e w) ≡ 16 + w.id_size_bytes + w.data_size_bytes
  length-entry_bytes e w f =
      rw (← append-nil (entry_bytes e w), entry_bytes-append e w [])
        (omega (
          arith,
          length-layout (padded_bytes e.entry_id w.id_size_bytes)
              (padded_bytes e.record_size w.data_size_bytes) e.xxhash [],
          length-padded_bytes e w f,
        ))

  bytes_in_order :
      (e : WalEntryHeader U) (dest : List ℕ) (w : WalHeader U)
      → (((dest ++ le_bytes 8 0) ++ padded_bytes e.entry_id w.id_size_bytes)
            ++ padded_bytes e.record_size w.data_size_bytes)
          ++ le_bytes 8 e.xxhash
        ≡ dest ++ entry_bytes e w
  bytes_in_order e dest w = simp append_assoc

  -- For numbers in canonical form that fit the fields of the file's header, with sizes
  -- that a header allows, `write_to_bytes` succeeds and appends the bytes of the entry's header, as
  -- many as `size` says.
  pub write_to_bytes_lem :
      (e : WalEntryHeader U) (dest : List ℕ) (w : WalHeader U)
      → Fits e w
      → (write_to_bytes e dest w ≡ (dest ++ entry_bytes e w, ok tt))
        × (size w ≡ ok (length (entry_bytes e w)))
  unfolding write_to_bytes size
  write_to_bytes_lem e dest w f =
      let id =
        write_value_to_buffer_with_size_lem e.entry_id (dest ++ le_bytes 8 0) w.id_size_bytes f.id
          f.id_size f.id_fits in
      let with_id = (dest ++ le_bytes 8 0) ++ padded_bytes e.entry_id w.id_size_bytes in
      let rec =
        write_value_to_buffer_with_size_lem e.record_size with_id w.data_size_bytes f.record_size
          f.data_size f.record_fits in
      (
        ground (arith, id, rec, bytes_in_order e dest w),
        ground (
          arith,
          length-entry_bytes e w f,
          size_bound w.id_size_bytes f.id_size,
          size_bound w.data_size_bytes f.data_size,
        ),
      )

  -- Under the same conditions `from_bytes` reads back the numbers and the hash from the bytes that
  -- `write_to_bytes` appends, whatever follows them.
  pub from_bytes-entry_bytes :
      (e : WalEntryHeader U) (rest : List ℕ) (w : WalHeader U)
      → Fits e w
      → Returns
          (λ r.
            Represents r.entry_id (value e.entry_id)
            × Represents r.record_size (value e.record_size)
            × (r.xxhash ≡ e.xxhash))
          (from_bytes {U = U} (entry_bytes e w ++ rest) w)
  unfolding from_bytes
  from_bytes-entry_bytes e rest w f =
      let p = padded_bytes e.entry_id w.id_size_bytes in
      let r = padded_bytes e.record_size w.data_size_bytes in
      let (np, nr) = length-padded_bytes e w f in
      let parts = layout_lem p r e.xxhash w.id_size_bytes w.data_size_bytes rest np nr f.hash in
      let (id, read_id, is_id) =
        Returns-eq _ (read_value_from_slice {U = U} p w.id_size_bytes) (
          read_value_from_slice-padded_bytes e.entry_id w.id_size_bytes f.id f.id_size f.id_fits) in
      let (record_size, read_size, is_size) =
        Returns-eq _ (read_value_from_slice {U = U} r w.data_size_bytes) (
          read_value_from_slice-padded_bytes e.record_size w.data_size_bytes f.record_size
            f.data_size f.record_fits) in
      rw (entry_bytes-append e w rest) (
        ground (
          arith,
          parts,
          read_id,
          is_id,
          read_size,
          is_size,
          length-layout p r e.xxhash rest,
          size_bound w.id_size_bytes f.id_size,
          size_bound w.data_size_bytes f.data_size,
          np,
          nr,
        ))
