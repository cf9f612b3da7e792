-- ===== src/Wal/Reader/Ends.antt =====
-- `normfs-wal/src/reader.rs`: `get_wal_range` and `get_wal_content` end.
use normfs.Prelude.{
  ◌+◌, ◌-◌, ◌<◌, ◌≡◌, ◌≢◌, ℕ, suc, ap, inl, inr, Option, none, some, List, arith, Option-cases,
  length, drop, length-drop, Outcome, ok, err, panic, zero, Outcome-cases,
}
use normfs.UBig.{UBig}
use normfs.UintN.{UintN}
use normfs.Wal.Header.{
  WalHeader, WalHeaderError, slice_too_short, unsupported_version, uintn, invalid_data_size_bytes,
  invalid_id_size_bytes,
}
use normfs.Wal.Header
use normfs.Wal.Entry
use normfs.Wal.Stream.{entry_from_reader, read_record, record_at}
use normfs.Wal.Stream.Headers.{header_lem}
use normfs.Wal.Stream.Shrink.{
  length-entry_from_reader, length-read_record, from_bytes-length, record_at-le,
}
use normfs.Wal.Reader.{
  Ids, range_loop, content_loop, get_wal_range, get_wal_content, contents, header_from_reader,
  header_or_empty,
}

header_or_empty-ok :
    {U : Type 0} ⦃b : UBig U⦄ {A : Type 0} (file_id : UintN U) (r : Outcome WalHeaderError A)
    (a : A)
    → header_or_empty file_id r ≡ ok a
    → r ≡ ok a
header_or_empty-ok file_id (ok x) a h = ground (arith, h)
header_or_empty-ok file_id (err slice_too_short) a h = ground (arith, h)
header_or_empty-ok file_id (err (unsupported_version v)) a h = ground (arith, h)
header_or_empty-ok file_id (err (invalid_data_size_bytes n)) a h = ground (arith, h)
header_or_empty-ok file_id (err (invalid_id_size_bytes n)) a h = ground (arith, h)
header_or_empty-ok file_id (err (uintn e)) a h = ground (arith, h)
header_or_empty-ok file_id panic a h = ground (arith, h)

module _ {U : Type 0} ⦃b : UBig U⦄ (xxh64 : List ℕ → ℕ) where
  range_loop_ends :
      (fuel : ℕ) (w : WalHeader U) (reader : List ℕ) (ids : Ids U)
      → length reader < fuel
      → range_loop xxh64 fuel w reader ids ≢ none
  unfolding range_loop
  range_loop_ends zero w reader ids h = absurd (omega arith)
  range_loop_ends (suc fuel) w reader (first_id, last_id) h =
      elim (Outcome-cases (entry_from_reader reader w)) [
        | inl e ↦ ground (arith, e)
        | inr (inl (x, e)) ↦ ground (arith, e)
        | inr (inr ((entry, reader1), e)) ↦
            let less = length-entry_from_reader reader reader1 w entry e in
            elim (Outcome-cases (read_record xxh64 entry reader1)) [
              | inl r ↦ ground (arith, e, r)
              | inr (inl (x, r)) ↦ ground (arith, e, r)
              | inr (inr ((bytes, reader2), r)) ↦
                  let less' = length-read_record xxh64 entry reader1 bytes reader2 r in
                  let again = λ (first : Option (UintN U)).
                    range_loop_ends fuel w reader2 (first, some entry.entry_id) (omega arith) in
                  elim (Option-cases first_id) [
                    | inl n ↦ ground (arith, e, r, n, again (some entry.entry_id))
                    | inr (id, s) ↦ ground (arith, e, r, s, again (some id))
                  ]
            ]
      ]

  content_loop_ends :
      (fuel : ℕ) (w : WalHeader U) (content : List ℕ) (cursor count : ℕ)
      → length content - cursor < fuel
      → content_loop xxh64 fuel w content cursor count ≢ none
  unfolding content_loop
  content_loop_ends zero w content cursor count h = absurd (omega arith)
  content_loop_ends (suc fuel) w content cursor count h =
      elim (Outcome-cases (Entry.from_bytes {U = U} (drop cursor content) w)) [
        | inl e ↦ ground (arith, e)
        | inr (inl (x, e)) ↦ ground (arith, e)
        | inr (inr (entry, e)) ↦
            let (n, s, least, fits) = from_bytes-length (drop cursor content) w entry e in
            let left = length-drop cursor content in
            elim (Outcome-cases (record_at xxh64 entry content (cursor + n))) [
              | inl r ↦ ground (arith, e, s, r)
              | inr (inl (x, r)) ↦ ground (arith, e, s, r)
              | inr (inr ((bytes, next), r)) ↦
                  let moved = record_at-le xxh64 entry content bytes (cursor + n) next r in
                  let again = content_loop_ends fuel w content next (count + 1) (omega arith) in
                  ground (arith, e, s, r, again)
            ]
      ]

  -- With more fuel than the file has bytes, `get_wal_range` and `get_wal_content` end, whatever the
  -- bytes are.
  pub file_reads_end :
      (fuel : ℕ) (content : List ℕ) (file_id : UintN U)
      → length content < fuel
      → (get_wal_range xxh64 fuel (contents content) file_id ≢ none)
        × (get_wal_content xxh64 fuel (contents content) file_id ≢ none)
  unfolding get_wal_range get_wal_content
  file_reads_end fuel content file_id h = (
    elim (Outcome-cases (header_or_empty file_id (header_from_reader {U = U} content))) [
      | inl p ↦ ground (arith, p)
      | inr (inl (e, p)) ↦ ground (arith, p)
      | inr (inr ((w, n, rest), p)) ↦
          let read =
            header_or_empty-ok file_id (header_from_reader {U = U} content) (w, n, rest) p in
          let (q, same, le) = header_lem content rest w n read in
          let ends =
            range_loop_ends fuel w rest (none, none)
              (omega (arith, ap length same, length-drop n content)) in
          ground (arith, p, ends)
    ],
    elim (Outcome-cases (Header.from_bytes {U = U} content)) [
      | inl p ↦ ground (arith, p)
      | inr (inl (e, p)) ↦ ground (arith, p)
      | inr (inr ((w, n), p)) ↦
          let ends = content_loop_ends fuel w content n 0 (omega arith) in ground (arith, p, ends)
    ],
  )
