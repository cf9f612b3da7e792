-- ===== src/Wal/Stream.antt =====
-- The asynchronous readers of `normfs-wal/src/wal_header.rs` and `wal_entry.rs`, on the bytes of an
-- open file. A reader is the bytes that are left; the read of an open file fails at its end only.
-- `vec![0; n]` panics where `n` passes the largest allocation, and else the memory is there.
pub mod Agree
pub mod Headers
pub mod Shrink
use normfs.Prelude.{
  ◌+◌, ◌*◌, ◌^◌, ◌==◌, if◌then◌else◌, ◌>>=◌, ℕ, not, Option, none, some, List, ltb, leb, length,
  take, drop, Outcome, ok, err, panic, map_err, ok_or,
}
use normfs.UBig.{UBig}
use normfs.UintN.{UintN, from_u8, to_u64}
use normfs.UintN.Codec.{u64_at, read_value_from_slice}
use normfs.Wal.Header.{WalHeader, WalHeaderError, fixed_size}
use normfs.Wal.Header
use normfs.Wal.Entry.{WalEntryHeader, WalEntryError}
use normfs.Wal.Entry

-- `read_exact` into a buffer of `n` bytes: the bytes, and what is left.
unfoldable pub read_exact : ℕ → List ℕ → Option (List ℕ × List ℕ)
read_exact n reader = if ltb (length reader) n then none else some (take n reader, drop n reader)

-- `vec![0; n]`
unfoldable pub allocate {ℓ} : {E : Type 0} {A : Type ℓ} → ℕ → Outcome E A → Outcome E A
allocate n rest = if leb (2 ^ 63) n then panic else rest

module _ {U : Type 0} ⦃b : UBig U⦄ where
  -- `WalHeader::from_reader`, with what is left of the reader.
  unfoldable pub header_from_reader : List ℕ → Outcome WalHeaderError (WalHeader U × ℕ × List ℕ)
  header_from_reader reader = do
    (fixed_header_buf, reader1) ←
        ok_or WalHeaderError.slice_too_short (read_exact fixed_size reader)
    let version = u64_at fixed_header_buf 0
    if not (version == 0) then err (WalHeaderError.unsupported_version version) else do
      (len_buf, reader2) ← ok_or WalHeaderError.slice_too_short (read_exact 8 reader1)
      let len = u64_at len_buf 0
      if ltb (10 * 1024 * 1024) len then err WalHeaderError.slice_too_short else do
        (value_buf, reader3) ← ok_or WalHeaderError.slice_too_short (read_exact len reader2)
        num_entries_before ← map_err WalHeaderError.uintn (read_value_from_slice value_buf len)
        ok (
          record {
            data_size_bytes = u64_at fixed_header_buf 8;
            id_size_bytes = u64_at fixed_header_buf 16;
            num_entries_before = num_entries_before;
          },
          fixed_size + 8 + len,
          reader3,
        )

  -- `WalEntryHeader::from_reader`
  unfoldable pub entry_from_reader :
      List ℕ → WalHeader U → Outcome WalEntryError (WalEntryHeader U × List ℕ)
  entry_from_reader reader wal_header = do
    expected_size ← Entry.size wal_header
    allocate expected_size (do
      (buf, reader') ← ok_or WalEntryError.slice_too_short (read_exact expected_size reader)
      entry_header ← Entry.from_bytes buf wal_header
      ok (entry_header, reader'))

  -- The record behind an entry's header, as the loops over a file read it. An error is a `break`.
  unfoldable pub read_record :
      (xxh64 : List ℕ → ℕ) → WalEntryHeader U → List ℕ → Outcome (Unit {0}) (List ℕ × List ℕ)
  read_record xxh64 entry_header reader = do
    record_size ← map_err (λ e. tt) (to_u64 entry_header.record_size)
    allocate record_size (do
      (record_buffer, reader') ← ok_or tt (read_exact record_size reader)
      if xxh64 record_buffer == entry_header.xxhash then ok (record_buffer, reader') else err tt)

  -- The same behind a cursor into the bytes of a whole file. `cursor + record_size` panics where it
  -- passes 2^64.
  unfoldable pub record_at :
      (xxh64 : List ℕ → ℕ) → WalEntryHeader U → List ℕ → ℕ → Outcome (Unit {0}) (List ℕ × ℕ)
  record_at xxh64 entry_header content cursor = do
    record_size ← map_err (λ e. tt) (to_u64 entry_header.record_size)
    if leb (2 ^ 64) (cursor + record_size)
        then panic
        else if ltb (length content) (cursor + record_size)
        then err tt
        else let record_buffer = take record_size (drop cursor content) in
          if xxh64 record_buffer == entry_header.xxhash
          then ok (record_buffer, cursor + record_size)
          else err tt
