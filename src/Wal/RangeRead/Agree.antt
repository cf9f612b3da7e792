-- ===== src/Wal/RangeRead/Agree.antt =====
-- `normfs-wal/src/reader.rs`: the read of a range from a file and from its bytes.
use normfs.Prelude.{
  ◌+◌, ◌^◌, ◌≤◌, ◌<◌, ◌≡◌, if◌then◌else◌, ◌>>=◌, ℕ, suc, max, inl, inr, Bool, false, Option, none,
  some, List, arith, ltb, Bool-cases, Option-cases, length, drop, length-drop, Outcome, ok, err,
  panic, zero, drop-drop, Outcome-cases,
}
use native.Mathlib.Decide.{dec_lt}
use normfs.UBig.{UBig}
use normfs.UintN.{UintN, Error}
use normfs.Types.{ReadEntry, DataSource}
use normfs.Wal.Header.{WalHeader}
use normfs.Wal.Entry.{WalEntryHeader, WalEntryError}
use normfs.Wal.Entry
use normfs.Wal.Stream.Agree.{
  entry_from_reader_lem, SameRecord-cases, record_lem, from_bytes_short, size_cases, size-le,
  entry_from_reader_panics,
}
use normfs.Wal.Stream.Headers.{header_lem}
use normfs.Wal.Reader.{WalError}
use normfs.Wal.RangeRead.{
  skipped, sent, sent_last, refused, Progress, Exit, Verdict, offer, file_loop, bytes_loop, is_past,
  entry_from_reader, read_wal_file_range, read_wal_bytes_range, ReadRangeResult, contents,
  header_from_reader,
}

module _ {U W : Type 0} ⦃b : UBig U⦄ (is_closed : W → Bool) (send : ReadEntry U → W → Bool × W)
    (xxh64 : List ℕ → ℕ) (from_id : UintN U) (until_id : Option (UintN U)) (step : ℕ)
    (data_source : DataSource) where
  abbrev from_file :
      ℕ → WalHeader U → List ℕ → Progress U → W → Option (Outcome (WalError U) (Exit U × W))
  from_file = file_loop is_closed send xxh64 from_id until_id step data_source

  abbrev from_bytes :
      ℕ → WalHeader U → List ℕ → ℕ → Progress U → W → Option (Outcome (WalError U) (Exit U × W))
  from_bytes = bytes_loop is_closed send xxh64 from_id until_id step data_source

  abbrev offered : WalEntryHeader U → List ℕ → W → Outcome Error (Verdict × W)
  offered entry = offer send from_id until_id step data_source entry.entry_id

  abbrev Agree : ℕ → WalHeader U → List ℕ → Exit U × W → Type 0
  Agree fuel w content r =
      (cursor : ℕ) (p : Progress U) (world : W)
      → cursor ≤ length content
      → from_file fuel w (drop cursor content) p world ≡ some (ok r)
      → from_bytes fuel w content cursor p world ≡ some (ok r)

  -- One round of both loops, from an entry's header that was read.
  entry_agrees :
      (fuel : ℕ) (w : WalHeader U) (content : List ℕ) (cursor : ℕ) (p : Progress U) (world : W)
      (r : Exit U × W)
      → Agree fuel w content r
      → cursor ≤ length content
      → length content < 2 ^ 63
      → is_closed world ≡ false
      → (n : ℕ) → Entry.size w ≡ ok n
      → entry_from_reader (drop cursor content) w ≡ (
          if ltb (length (drop cursor content)) n
          then err WalEntryError.slice_too_short
          else (Entry.from_bytes (drop cursor content) w >>= λ e.
              ok (e, drop n (drop cursor content))))
      → (entry : WalEntryHeader U) → n ≤ length (drop cursor content)
      → Entry.from_bytes (drop cursor content) w ≡ ok entry
      → from_file (suc fuel) w (drop cursor content) p world ≡ some (ok r)
      → from_bytes (suc fuel) w content cursor p world ≡ some (ok r)
  unfolding file_loop bytes_loop
  entry_agrees fuel w content cursor p world r ih le small going n s read entry enough e h =
      let left = length-drop cursor content in
      elim (Bool-cases (is_past until_id entry.entry_id)) [
        | inl past ↦ ground (arith, h, going, read, left, e, past, size-le n w s)
        | inr inside ↦
            let p1 : Progress U = record p { last_processed_id = some entry.entry_id } in
            let after = record_lem xxh64 entry content (cursor + n) (omega (arith, left)) small in
            let skip = drop-drop cursor n content in
            elim (SameRecord-cases content _ _ after) [
              | inl q ↦ ground (arith, h, going, read, e, inside, q, skip)
              | inr (inl (q, q')) ↦
                  ground (arith, h, going, read, left, e, inside, q, q', skip, s, size-le n w s)
              | inr (inr (bytes, next, q, q', le')) ↦
                  elim (Outcome-cases (offered entry bytes world)) [
                    | inl o ↦ ground (arith, h, going, read, e, inside, q, skip, o)
                    | inr (inl (x, o)) ↦ ground (arith, h, going, read, e, inside, q, skip, o)
                    | inr (inr ((skipped, world'), o)) ↦ ground (
                      arith,
                      h,
                      going,
                      read,
                      left,
                      e,
                      inside,
                      q,
                      q',
                      skip,
                      s,
                      o,
                      size-le n w s,
                      ih next p1 world' le',
                    )
                    | inr (inr ((sent, world'), o)) ↦ ground (
                      arith,
                      h,
                      going,
                      read,
                      left,
                      e,
                      inside,
                      q,
                      q',
                      skip,
                      s,
                      o,
                      size-le n w s,
                      ih next (record p1 { last_read_id = some entry.entry_id }) world' le',
                    )
                    | inr (inr ((sent_last, world'), o)) ↦
                        ground
                          (arith, h, going, read, left, e, inside, q, q', skip, s, o, size-le n w s)
                    | inr (inr ((refused, world'), o)) ↦
                        ground
                          (arith, h, going, read, left, e, inside, q, q', skip, s, o, size-le n w s)
                  ]
            ]
      ]

  -- Where the loop over the file returns, the loop over the bytes returns the same.
  loops_agree :
      (fuel : ℕ) (w : WalHeader U) (content : List ℕ) (cursor : ℕ) (p : Progress U) (world : W)
      (r : Exit U × W)
      → cursor ≤ length content
      → length content < 2 ^ 63
      → from_file fuel w (drop cursor content) p world ≡ some (ok r)
      → from_bytes fuel w content cursor p world ≡ some (ok r)
  unfolding file_loop bytes_loop
  loops_agree zero w content cursor p world r le small h = ground (arith, h)
  loops_agree (suc fuel) w content cursor p world r le small h =
      let ih : Agree fuel w content r =
        λ next p' world' le' h'. loops_agree fuel w content next p' world' r le' small h' in
      let bs = drop cursor content in
      let left = length-drop cursor content in
      elim (Bool-cases (is_closed world)) [
        | inl stop ↦ ground (arith, h, stop)
        | inr going ↦ elim (size_cases w) [
          | inl overflow ↦ ground (arith, h, going, entry_from_reader_panics bs w (inl overflow))
          | inr (n, s) ↦ elim (dec_lt n (2 ^ 63)) [
            | no huge ↦
                ground (arith, h, going, entry_from_reader_panics bs w (inr (n, s, omega arith)))
            | yes fits ↦
                let read = entry_from_reader_lem n bs w s fits in
                elim (dec_lt (length bs) n) [
                  | yes short ↦
                      ground (
                        arith,
                        h,
                        going,
                        read,
                        left,
                        from_bytes_short n bs w s short,
                        size-le n w s,
                      )
                  | no enough ↦ elim (Outcome-cases (Entry.from_bytes {U = U} bs w)) [
                    | inl e ↦ ground (arith, h, going, read, e)
                    | inr (inl (x, e)) ↦ ground (arith, h, going, read, left, e, size-le n w s)
                    | inr (inr (entry, e)) ↦
                        entry_agrees fuel w content cursor p world r ih le small going n s read
                          entry (omega arith) e h
                  ]
                ]
          ]
        ]
      ]

module _ {U W : Type 0} ⦃b : UBig U⦄ (is_closed : W → Bool) (send : ReadEntry U → W → Bool × W)
    (xxh64 : List ℕ → ℕ) where
  -- On a file of less than 2^63 bytes: where `read_wal_file_range` returns a result, with what it sent,
  -- `read_wal_bytes_range` on the bytes of the file returns the same result and has sent the same.
  pub read_wal_bytes_range-read_wal_file_range :
      (fuel : ℕ) (content : List ℕ) (from_id : UintN U) (until_id : Option (UintN U)) (step : ℕ)
      (data_source : DataSource) (world : W) (r : ReadRangeResult U × W)
      → length content < 2 ^ 63
      → read_wal_file_range is_closed send xxh64 fuel
          (contents content)
          from_id
          until_id
          step
          data_source
          world
        ≡ some (ok r)
      → read_wal_bytes_range is_closed send xxh64 fuel content from_id until_id step data_source
          world
        ≡ some (ok r)
  unfolding read_wal_file_range read_wal_bytes_range
  read_wal_bytes_range-read_wal_file_range fuel content from_id until_id step data_source world r
        small h =
      elim (Outcome-cases (header_from_reader {U = U} content)) [
        | inl p ↦ ground (arith, h, p)
        | inr (inl (e, p)) ↦ ground (arith, h, p)
        | inr (inr ((w, n, rest), p)) ↦
            let (q, same, le) = header_lem content rest w n p in
            let start : Progress U = record { last_read_id = none; last_processed_id = none } in
            let looped =
              file_loop is_closed send xxh64 from_id until_id (max step 1) data_source fuel w rest
                start world in
            elim (Option-cases looped) [
              | inl o ↦ ground (arith, h, p, o)
              | inr (panic, o) ↦ ground (arith, h, p, o)
              | inr (err x, o) ↦ ground (arith, h, p, o)
              | inr (ok exit, o) ↦ ground (
                arith,
                h,
                p,
                q,
                o,
                loops_agree is_closed send xxh64 from_id until_id (max step 1) data_source fuel w
                    content n start world exit le small (rw same at o),
              )
            ]
      ]
