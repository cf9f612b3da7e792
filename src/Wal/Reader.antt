-- ===== src/Wal/Reader.antt =====
-- `normfs-wal/src/reader.rs`, its errors of `errors.rs`: reading back a file of the log. The file
-- system belongs to the environment: a file is absent, cannot be read, or is its bytes. The loops have
-- fuel, and `none` means that it ran out; counters that only reach log lines are left out.
pub mod Ends
pub mod Log
pub mod Recovery
pub mod Span
use normfs.Prelude.{
  ◌+◌, ◌==◌, if◌then◌else◌, ◌>>=◌, ℕ, suc, Option, none, some, List, ltb, length, take, drop,
  Outcome, ok, err, panic, zero,
}
use normfs.UBig.{UBig}
use normfs.UintN.{UintN, from_u64}
use normfs.Wal.Header.{WalHeader, WalHeaderError}
use normfs.Wal.Header
use mathlib.Core.Option
use normfs.Wal.Entry.{WalEntryHeader, WalEntryError}
use normfs.Wal.Entry
use normfs.Wal.Stream.{header_from_reader, entry_from_reader, read_record, record_at}

pub data WalError (U : Type 0) : Type 0 where
  io_error send_error wal_not_found writer_not_found path_error : WalError U
  wal_header_error : WalHeaderError → WalError U
  wal_entry_error : WalEntryError → WalError U
  wal_empty : UintN U → WalError U

-- What opening a file and reading it gives.
pub data File : Type 0 where
  not_found unreadable : File
  contents : List ℕ → File

pub record WalContent (U : Type 0) : Type 0 where
  pub entries_before : UintN U
  pub num_entries : UintN U
  pub content : List ℕ

-- The first id and the last id so far.
abbrev pub Ids : Type 0 → Type 0
Ids U = Option (UintN U) × Option (UintN U)

module _ {U : Type 0} ⦃b : UBig U⦄ where
  -- The two ways in which a header that does not read is reported.
  abbrev pub header_or_empty {ℓ} :
      {A : Type ℓ} → UintN U → Outcome WalHeaderError A → Outcome (WalError U) A
  header_or_empty file_id (ok a) = ok a
  header_or_empty file_id (err WalHeaderError.slice_too_short) = err (wal_empty file_id)
  header_or_empty file_id (err e) = err (wal_header_error e)
  header_or_empty file_id panic = panic

  unfoldable pub read_wal_header : File → UintN U → Outcome (WalError U) (WalHeader U)
  read_wal_header not_found file_id = err wal_not_found
  read_wal_header unreadable file_id = err io_error
  read_wal_header (contents bytes) file_id =
      if length bytes == 0 then err (wal_empty file_id) else do
        (wal_header, _, _) ← header_or_empty file_id (header_from_reader (take 128 bytes))
        ok wal_header

  unfoldable pub get_wal_header : List ℕ → Outcome WalHeaderError (WalHeader U)
  get_wal_header content = do (header, _) ← Header.from_bytes content; ok header

  -- `first_id.and_then(|first| last_id.map(|last| (first, last)))`
  unfoldable pub id_range : Ids U → Option (UintN U × UintN U)
  id_range (some first_id, some last_id) = some (first_id, last_id)
  id_range ids = none

  module _ (xxh64 : List ℕ → ℕ) where
    -- The loop of `get_wal_range`.
    unfoldable pub range_loop :
        ℕ → WalHeader U → List ℕ → Ids U → Option (Outcome (WalError U) (Ids U))
    range_loop zero wal_header reader ids = none
    range_loop (suc fuel) wal_header reader (first_id, last_id) =
        elim (entry_from_reader reader wal_header) [
          | panic ↦ some panic
          | err e ↦ some (ok (first_id, last_id))
          | ok (entry_header, reader1) ↦
              let first_id' : Option (UintN U) = elim first_id [
                | none ↦ some entry_header.entry_id
                | some id ↦ some id
              ] in
              elim (read_record xxh64 entry_header reader1) [
                | panic ↦ some panic
                | err e ↦ some (ok (first_id', last_id))
                | ok (record_buffer, reader2) ↦
                    range_loop fuel wal_header reader2 (first_id', some entry_header.entry_id)
              ]
        ]

    unfoldable pub get_wal_range :
        ℕ
        → File
        → UintN U
        → Option (Outcome (WalError U) (WalHeader U × Option (UintN U × UintN U)))
    get_wal_range fuel not_found file_id = some (err wal_not_found)
    get_wal_range fuel unreadable file_id = some (err io_error)
    get_wal_range fuel (contents bytes) file_id =
        if length bytes == 0
        then some (err (wal_empty file_id))
        else elim (header_or_empty file_id (header_from_reader bytes)) [
          | panic ↦ some panic
          | err e ↦ some (err e)
          | ok (wal_header, _, reader) ↦
              Option.map (λ r. r >>= λ ids. ok (wal_header, id_range ids))
                (range_loop fuel wal_header reader (none, none))
        ]

    -- The loop of `get_wal_content`: how many entries are whole.
    unfoldable pub content_loop : ℕ → WalHeader U → List ℕ → ℕ → ℕ → Option (Outcome (WalError U) ℕ)
    content_loop zero wal_header content cursor num_entries = none
    content_loop (suc fuel) wal_header content cursor num_entries =
        if ltb (length content) cursor
        then some panic
        else if length (drop cursor content) == 0
        then some (ok num_entries)
        else elim (Entry.from_bytes {U = U} (drop cursor content) wal_header) [
          | panic ↦ some panic
          | err e ↦ some (ok num_entries)
          | ok entry_header ↦ elim (Entry.size wal_header) [
            | panic ↦ some panic
            | err e ↦ some (err (wal_entry_error e))
            | ok entry_header_size ↦
                elim (record_at xxh64 entry_header content (cursor + entry_header_size)) [
                  | panic ↦ some panic
                  | err e ↦ some (ok num_entries)
                  | ok (record_buffer, next_cursor) ↦
                      content_loop fuel wal_header content next_cursor (num_entries + 1)
                ]
          ]
        ]

    unfoldable pub get_wal_content :
        ℕ → File → UintN U → Option (Outcome (WalError U) (WalContent U))
    get_wal_content fuel not_found file_id = some (err wal_not_found)
    get_wal_content fuel unreadable file_id = some (err io_error)
    get_wal_content fuel (contents content) file_id =
        if length content == 0
        then some (err (wal_entry_error WalEntryError.slice_too_short))
        else elim (Header.from_bytes {U = U} content) [
          | panic ↦ some panic
          | err e ↦ some (err (wal_header_error e))
          | ok (wal_header, header_size) ↦
              Option.map
                (λ r. r >>= λ num_entries. ok (record {
                  entries_before = wal_header.num_entries_before;
                  num_entries = from_u64 num_entries;
                  content = content;
                }))
                (content_loop fuel wal_header content header_size 0)
        ]
