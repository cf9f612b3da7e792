-- ===== src/Wal/RangeRead/Ends.antt =====
-- `normfs-wal/src/reader.rs`: the loops of the range reads end.
use normfs.Prelude.{
  ◌+◌, ◌-◌, ◌<◌, ◌≢◌, ℕ, suc, max, ap, inl, inr, Bool, Option, none, some, List, arith, length,
  drop, length-drop, zero, Outcome-cases,
}
use normfs.Wal.Stream.Headers.{header_lem}
use normfs.UBig.{UBig}
use normfs.UintN.{UintN}
use normfs.Types.{ReadEntry, DataSource}
use normfs.Wal.Header.{WalHeader}
use normfs.Wal.Header
use normfs.Wal.Entry
use normfs.Wal.Stream.{entry_from_reader, read_record}
use normfs.Wal.Stream.Shrink.{
  length-entry_from_reader, length-read_record, from_bytes-length, record_at-le,
}
use normfs.Wal.RangeRead.{
  Progress, file_loop, bytes_loop, offer, read_wal_file_range, read_wal_bytes_range, contents,
  header_from_reader, start_progress, record_at,
}

module _ {U W : Type 0} ⦃b : UBig U⦄ (is_closed : W → Bool) (send : ReadEntry U → W → Bool × W)
    (xxh64 : List ℕ → ℕ) (from_id : UintN U) (until_id : Option (UintN U)) (step : ℕ)
    (data_source : DataSource) where
  file_loop_ends :
      (fuel : ℕ) (w : WalHeader U) (reader : List ℕ) (p : Progress U) (world : W)
      → length reader < fuel
      → file_loop is_closed send xxh64 from_id until_id step data_source fuel w reader p world
        ≢ none
  unfolding file_loop
  file_loop_ends zero w reader p world h = absurd (omega arith)
  file_loop_ends (suc fuel) w reader p world h = elim (Outcome-cases (entry_from_reader reader w)) [
    | inl e ↦ ground (arith, e)
    | inr (inl (x, e)) ↦ ground (arith, e)
    | inr (inr ((entry, reader1), e)) ↦
        let less = length-entry_from_reader reader reader1 w entry e in
        elim (Outcome-cases (read_record xxh64 entry reader1)) [
          | inl r ↦ ground (arith, e, r)
          | inr (inl (x, r)) ↦ ground (arith, e, r)
          | inr (inr ((bytes, reader2), r)) ↦
              let less' = length-read_record xxh64 entry reader1 bytes reader2 r in
              let p1 : Progress U = record p { last_processed_id = some entry.entry_id } in
              let p2 : Progress U = record p1 { last_read_id = some entry.entry_id } in
              elim (Outcome-cases
                (offer send from_id until_id step data_source entry.entry_id bytes world)) [
                  | inl o ↦ ground (arith, e, r, o)
                  | inr (inl (x, o)) ↦ ground (arith, e, r, o)
                  | inr (inr ((v, world'), o)) ↦
                      let again = file_loop_ends fuel w reader2 p1 world' (omega arith) in
                      let again' = file_loop_ends fuel w reader2 p2 world' (omega arith) in
                      ground (arith, e, r, o, again, again')
                ]
        ]
  ]

  bytes_loop_ends :
      (fuel : ℕ) (w : WalHeader U) (content : List ℕ) (cursor : ℕ) (p : Progress U) (world : W)
      → length content - cursor < fuel
      → bytes_loop is_closed send xxh64 from_id until_id step data_source fuel w content cursor p
          world
        ≢ none
  unfolding bytes_loop
  bytes_loop_ends zero w content cursor p world h = absurd (omega arith)
  bytes_loop_ends (suc fuel) w content cursor p world h =
      elim (Outcome-cases (Entry.from_bytes {U = U} (drop cursor content) w)) [
        | inl e ↦ ground (arith, e)
        | inr (inl (x, e)) ↦ ground (arith, e)
        | inr (inr (entry, e)) ↦
            let (n, s, least, fits) = from_bytes-length (drop cursor content) w entry e in
            let left = length-drop cursor content in
            elim (Outcome-cases (record_at xxh64 entry content (cursor + n))) [
              | inl r ↦ ground (arith, e, s, r)
              | inr (inl (x, r)) ↦ ground (arith, e, s, r)
              | inr (inr ((bytes, next), r)) ↦
                  let moved = record_at-le xxh64 entry content bytes (cursor + n) next r in
                  let p1 : Progress U = record p { last_processed_id = some entry.entry_id } in
                  let p2 : Progress U = record p1 { last_read_id = some entry.entry_id } in
                  elim (Outcome-cases
                    (offer send from_id until_id step data_source entry.entry_id bytes world)) [
                      | inl o ↦ ground (arith, e, s, r, o)
                      | inr (inl (x, o)) ↦ ground (arith, e, s, r, o)
                      | inr (inr ((v, world'), o)) ↦
                          let again = bytes_loop_ends fuel w content next p1 world' (omega arith) in
                          let again' =
                            bytes_loop_ends fuel w content next p2 world' (omega arith) in
                          ground (arith, e, s, r, o, again, again')
                    ]
            ]
      ]

module _ {U W : Type 0} ⦃b : UBig U⦄ (is_closed : W → Bool) (send : ReadEntry U → W → Bool × W)
    (xxh64 : List ℕ → ℕ) where
  -- With more fuel than the file has bytes, `read_wal_file_range` and `read_wal_bytes_range` end,
  -- whatever the bytes, the range and the channel are.
  pub range_reads_end :
      (fuel : ℕ) (content : List ℕ) (from_id : UintN U) (until_id : Option (UintN U)) (step : ℕ)
      (data_source : DataSource) (world : W)
      → length content < fuel
      → (read_wal_file_range is_closed send xxh64 fuel
            (contents content)
            from_id
            until_id
            step
            data_source
            world
          ≢ none)
        × (read_wal_bytes_range is_closed send xxh64 fuel content from_id until_id step data_source
              world
            ≢ none)
  unfolding read_wal_file_range read_wal_bytes_range
  range_reads_end fuel content from_id until_id step data_source world h = (
    elim (Outcome-cases (header_from_reader {U = U} content)) [
      | inl p ↦ ground (arith, p)
      | inr (inl (e, p)) ↦ ground (arith, p)
      | inr (inr ((w, n, rest), p)) ↦
          let (q, same, le) = header_lem content rest w n p in
          let ends =
            file_loop_ends is_closed send xxh64 from_id until_id (max step 1) data_source fuel w
              rest (start_progress {U = U}) world
              (omega (arith, ap length same, length-drop n content)) in
          ground (arith, p, ends)
    ],
    elim (Outcome-cases (Header.from_bytes {U = U} content)) [
      | inl p ↦ ground (arith, p)
      | inr (inl (e, p)) ↦ ground (arith, p)
      | inr (inr ((w, n), p)) ↦
          let ends =
            bytes_loop_ends is_closed send xxh64 from_id until_id (max step 1) data_source fuel w
              content n (start_progress {U = U}) world (omega arith) in
          ground (arith, p, ends)
    ],
  )
