-- ===== src/Wal/RangeRead.antt =====
-- `normfs-wal/src/reader.rs`: `read_wal_file_range` and `read_wal_bytes_range`, which send the entries
-- of a range that are in step. The channel belongs to the caller: `is_closed` tests it, and `send`
-- answers false once it is closed.
pub mod Agree
pub mod Ends
use normfs.Prelude.{
  ◌+◌, ◌||◌, ◌==◌, if◌then◌else◌, ◌>>=◌, ℕ, suc, max, Bool, true, false, not, Option, none, some,
  List, ltb, length, drop, Outcome, ok, err, panic, zero,
}
use mathlib.Core.Option
use normfs.UBig.{UBig}
use normfs.UintN.{UintN, Error}
use normfs.UintN.Order.{lt, gt}
use normfs.UintN.Step.{in_step}
use normfs.Types.{ReadEntry, DataSource}
use normfs.Wal.Header.{WalHeader, WalHeaderError}
use normfs.Wal.Header
use normfs.Wal.Entry.{WalEntryHeader}
use normfs.Wal.Entry
use normfs.Wal.Stream.{header_from_reader, entry_from_reader, read_record, record_at}
use normfs.Wal.Reader.{
  WalError, File, contents, not_found, unreadable, wal_entry_error, wal_header_error, wal_not_found,
  io_error,
}

pub data ReadRangeResult (U : Type 0) : Type 0 where
  complete channel_closed : ReadRangeResult U
  partial_read : (last_read_id : Option (UintN U)) (last_id_in_file : UintN U) → ReadRangeResult U

-- What a loop has seen: the last entry sent, and the last one whose header was read.
pub record Progress (U : Type 0) : Type 0 where
  pub last_read_id : Option (UintN U)
  pub last_processed_id : Option (UintN U)

abbrev pub start_progress : {U : Type 0} → Progress U
start_progress = record { last_read_id = none; last_processed_id = none }

-- How a loop is left: the channel is closed, or it breaks, with `found_complete` or without.
pub data Exit (U : Type 0) : Type 0 where
  closed : Exit U
  broke : (found_complete : Bool) → Progress U → Exit U

-- What becomes of an entry that was read whole.
pub data Verdict : Type 0 where
  skipped sent sent_last refused : Verdict

module _ {U : Type 0} ⦃b : UBig U⦄ where
  -- The id lies past the end of the range, if it has one; and the id has reached it.
  unfoldable pub is_past : Option (UintN U) → UintN U → Bool
  is_past none id = false
  is_past (some until) id = gt id until

  unfoldable pub has_reached : Option (UintN U) → UintN U → Bool
  has_reached none id = false
  has_reached (some until) id = not (lt id until)

  -- The last lines of both functions.
  unfoldable pub conclude : UintN U → Option (UintN U) → Exit U → ReadRangeResult U
  conclude from_id until_id closed = channel_closed
  conclude from_id until_id (broke found_complete p) =
      if found_complete then complete else elim p.last_processed_id [
        | none ↦ partial_read p.last_read_id from_id
        | some id ↦ if has_reached until_id id then complete else partial_read p.last_read_id id
      ]

module _ {U W : Type 0} ⦃b : UBig U⦄ (send : ReadEntry U → W → Bool × W) where
  -- An entry that was read whole is sent if it is in the range and in step. `in_step` gives no error:
  -- it returns or, for a step of zero, panics.
  unfoldable pub offer :
      UintN U
      → Option (UintN U)
      → ℕ
      → DataSource
      → UintN U
      → List ℕ
      → W
      → Outcome Error (Verdict × W)
  offer from_id until_id step data_source id record_bytes w =
      if lt id from_id || is_past until_id id then ok (skipped, w) else do
        in_step' ← in_step id from_id step
        if not in_step'
            then ok (skipped, w)
            else let entry : ReadEntry U = record {
              id = id;
              contents = record_bytes;
              source = data_source;
            } in
              let (accepted, w') = send entry w in
              if not accepted
              then ok (refused, w')
              else if has_reached until_id id
              then ok (sent_last, w')
              else ok (sent, w')

module _ {U W : Type 0} ⦃b : UBig U⦄ (is_closed : W → Bool) (send : ReadEntry U → W → Bool × W)
    (xxh64 : List ℕ → ℕ) where
  module _ (from_id : UintN U) (until_id : Option (UintN U)) (step : ℕ)
      (data_source : DataSource) where
    -- The loop over an open file.
    unfoldable pub file_loop :
        ℕ → WalHeader U → List ℕ → Progress U → W → Option (Outcome (WalError U) (Exit U × W))
    file_loop zero wal_header reader p w = none
    file_loop (suc fuel) wal_header reader p w =
        if is_closed w then some (ok (closed, w)) else elim (entry_from_reader reader wal_header) [
          | panic ↦ some panic
          | err e ↦ some (ok (broke false p, w))
          | ok (entry_header, reader1) ↦
              let id = entry_header.entry_id in
              let p1 = record p { last_processed_id = some id } in
              if is_past until_id id
              then some (ok (broke true p1, w))
              else elim (read_record xxh64 entry_header reader1) [
                | panic ↦ some panic
                | err e ↦ some (ok (broke false p1, w))
                | ok (record_buffer, reader2) ↦
                    let read = record p1 { last_read_id = some id } in
                    elim (offer send from_id until_id step data_source id record_buffer w) [
                      | panic ↦ some panic
                      | err e ↦ some (err (wal_header_error (WalHeaderError.uintn e)))
                      | ok (skipped, w') ↦ file_loop fuel wal_header reader2 p1 w'
                      | ok (sent, w') ↦ file_loop fuel wal_header reader2 read w'
                      | ok (sent_last, w') ↦ some (ok (broke true read, w'))
                      | ok (refused, w') ↦ some (ok (closed, w'))
                    ]
              ]
        ]

    -- The loop over the bytes of a file.
    unfoldable pub bytes_loop :
        ℕ → WalHeader U → List ℕ → ℕ → Progress U → W → Option (Outcome (WalError U) (Exit U × W))
    bytes_loop zero wal_header content cursor p w = none
    bytes_loop (suc fuel) wal_header content cursor p w =
        if is_closed w
        then some (ok (closed, w))
        else if ltb (length content) cursor
        then some panic
        else if length (drop cursor content) == 0
        then some (ok (broke false p, w))
        else elim (Entry.from_bytes {U = U} (drop cursor content) wal_header) [
          | panic ↦ some panic
          | err e ↦ some (ok (broke false p, w))
          | ok entry_header ↦
              let id = entry_header.entry_id in
              let p1 = record p { last_processed_id = some id } in
              if is_past until_id id
              then some (ok (broke true p1, w))
              else elim (Entry.size wal_header) [
                | panic ↦ some panic
                | err e ↦ some (err (wal_entry_error e))
                | ok entry_header_size ↦
                    elim (record_at xxh64 entry_header content (cursor + entry_header_size)) [
                      | panic ↦ some panic
                      | err e ↦ some (ok (broke false p1, w))
                      | ok (record_buffer, next_cursor) ↦
                          let read = record p1 { last_read_id = some id } in
                          elim (offer send from_id until_id step data_source id record_buffer w) [
                            | panic ↦ some panic
                            | err e ↦ some (err (wal_header_error (WalHeaderError.uintn e)))
                            | ok (skipped, w') ↦
                                bytes_loop fuel wal_header content next_cursor p1 w'
                            | ok (sent, w') ↦ bytes_loop fuel wal_header content next_cursor read w'
                            | ok (sent_last, w') ↦ some (ok (broke true read, w'))
                            | ok (refused, w') ↦ some (ok (closed, w'))
                          ]
                    ]
              ]
        ]

  unfoldable pub read_wal_file_range :
      ℕ
      → File
      → UintN U
      → Option (UintN U)
      → ℕ
      → DataSource
      → W
      → Option (Outcome (WalError U) (ReadRangeResult U × W))
  read_wal_file_range fuel not_found from_id until_id step data_source w = some (err wal_not_found)
  read_wal_file_range fuel unreadable from_id until_id step data_source w = some (err io_error)
  read_wal_file_range fuel (contents bytes) from_id until_id step data_source w =
      if length bytes == 0
      then some (ok (partial_read none from_id, w))
      else elim (header_from_reader {U = U} bytes) [
        | panic ↦ some panic
        | err e ↦ some (err (wal_header_error e))
        | ok (wal_header, _, reader) ↦
            Option.map (λ r. r >>= λ (exit, w'). ok (conclude from_id until_id exit, w'))
              (file_loop from_id until_id (max step 1) data_source fuel wal_header reader
                start_progress w)
      ]

  unfoldable pub read_wal_bytes_range :
      ℕ
      → List ℕ
      → UintN U
      → Option (UintN U)
      → ℕ
      → DataSource
      → W
      → Option (Outcome (WalError U) (ReadRangeResult U × W))
  read_wal_bytes_range fuel content from_id until_id step data_source w =
      if length content == 0
      then some (ok (partial_read none from_id, w))
      else elim (Header.from_bytes {U = U} content) [
        | panic ↦ some panic
        | err WalHeaderError.slice_too_short ↦ some (ok (partial_read none from_id, w))
        | err e ↦ some (err (wal_header_error e))
        | ok (wal_header, header_size) ↦
            Option.map (λ r. r >>= λ (exit, w'). ok (conclude from_id until_id exit, w'))
              (bytes_loop from_id until_id (max step 1) data_source fuel wal_header content
                header_size start_progress w)
      ]
