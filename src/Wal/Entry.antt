-- ===== src/Wal/Entry.antt =====
-- `normfs-wal/src/wal_entry.rs`: the header of one entry. Its two numbers stand in fields whose sizes
-- the header of the file gives. The hash, of the crate `xxhash_rust`, is a parameter of `new`.
pub mod RoundTrip
pub mod Capacity
use normfs.Prelude.{
  ◌+◌, ◌^◌, ◌++◌, ◌==◌, if◌then◌else◌, ◌>>=◌, ℕ, not, List, ltb, length, take, drop, Outcome, ok,
  err, panic, map_err, le_bytes,
}
use normfs.UBig.{UBig}
use normfs.UintN.{UintN, Error, from_u64}
use normfs.UintN.Codec.{u64_at, read_value_from_slice, write_value_to_buffer_with_size}
use normfs.Wal.Header.{WalHeader}

abbrev pub fixed_overhead : ℕ
fixed_overhead = 16

pub data WalEntryError : Type 0 where
  slice_too_short : WalEntryError
  uintn : Error → WalEntryError
  unsupported_version : ℕ → WalEntryError

pub record WalEntryHeader (U : Type 0) : Type 0 where
  pub entry_id : UintN U
  pub record_size : UintN U
  pub xxhash : ℕ

module _ {U : Type 0} ⦃b : UBig U⦄ where
  unfoldable pub new : (xxh64 : List ℕ → ℕ) → UintN U → List ℕ → WalEntryHeader U
  new xxh64 entry_id record_data = record {
    entry_id = entry_id;
    record_size = from_u64 (length record_data);
    xxhash = xxh64 record_data;
  }

  -- A sum of `usize` that passes 2^64 panics.
  unfoldable pub size : WalHeader U → Outcome WalEntryError ℕ
  size wal_header =
      let total = fixed_overhead + wal_header.id_size_bytes + wal_header.data_size_bytes in
      if ltb total (2 ^ 64) then ok total else panic

  -- The new buffer and the outcome: on an error the fields before it have been appended.
  unfoldable pub write_to_bytes :
      WalEntryHeader U → List ℕ → WalHeader U → List ℕ × Outcome Error (Unit {0})
  write_to_bytes e dest wal_header =
      let versioned = dest ++ le_bytes 8 0 in
      elim (write_value_to_buffer_with_size e.entry_id versioned wal_header.id_size_bytes) [
        | err x ↦ (versioned, err x)
        | panic ↦ (versioned, panic)
        | ok (with_id, _) ↦
            elim (write_value_to_buffer_with_size e.record_size with_id
              wal_header.data_size_bytes) [
                | err x ↦ (with_id, err x)
                | panic ↦ (with_id, panic)
                | ok (with_size, _) ↦ (with_size ++ le_bytes 8 e.xxhash, ok tt)
              ]
      ]

  unfoldable pub from_bytes : List ℕ → WalHeader U → Outcome WalEntryError (WalEntryHeader U)
  unfolding size
  from_bytes bytes wal_header = size wal_header >>= λ expected_size.
      let id_size = wal_header.id_size_bytes in
      let data_size = wal_header.data_size_bytes in
      if ltb (length bytes) expected_size
      then err slice_too_short
      else let version = u64_at bytes 0 in
        if not (version == 0) then err (unsupported_version version) else do
          entry_id ← map_err uintn (read_value_from_slice (take id_size (drop 8 bytes)) id_size)
          record_size ←
              map_err uintn
                (read_value_from_slice (take data_size (drop (8 + id_size) bytes)) data_size)
          ok (record {
            entry_id = entry_id;
            record_size = record_size;
            xxhash = u64_at bytes (8 + id_size + data_size);
          })
