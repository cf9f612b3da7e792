-- ===== src/Store/Worker.antt =====
-- `process_entry` of `normfs-store/src/writer.rs`: a finished file of the log becomes a store file. Whether
-- the store file can be written and renamed, and whether the file of the log can be deleted, belongs to the
-- environment. A panic leaves behind what was done before it.
pub mod Kept
use normfs.Prelude.{
  if◌then◌else◌, ℕ, Bool, false, Option, none, some, List, Outcome, ok, err, panic,
}
use normfs.UintN.{UintN, Error}
use normfs.Types.{CompressionType, EncryptionType}
use normfs.UBig.{UBig}
use normfs.Store.File.{CryptoContext, Compression, maybe_compress_and_encrypt, store_file_bytes}
use normfs.Store.Ranges.{Range, last_id_of, record_range}
use normfs.Wal.Reader.{WalError, WalContent}

-- What a call leaves behind: the store file, which is announced when it is there, the ranges that are
-- known, and whether the file of the log is deleted.
pub record Processed (K U : Type 0) : Type 0 where
  pub stored : Option (List ℕ)
  pub ranges : List (K × Range U)
  pub deleted : Bool

module _ {Q U K : Type 0} ⦃b : UBig U⦄ (crypto : CryptoContext Q U) (codecs : Compression)
    (same : Discrete K) where
  -- After the store file was written.
  abbrev pub complete :
      (can_delete : Bool)
      → K
      → List (K × Range U)
      → List ℕ
      → UintN U
      → Outcome Error (UintN U)
      → Processed K U
  complete can_delete key ranges bytes first_id (ok last_id) = record {
    stored = some bytes;
    ranges = record_range same key (first_id, last_id) ranges;
    deleted = can_delete;
  }
  complete can_delete key ranges bytes first_id (err e) = record {
    stored = some bytes;
    ranges = ranges;
    deleted = false;
  }
  complete can_delete key ranges bytes first_id panic = record {
    stored = some bytes;
    ranges = ranges;
    deleted = false;
  }

  abbrev pub untouched : List (K × Range U) → Processed K U
  untouched ranges = record { stored = none; ranges = ranges; deleted = false }

  unfoldable pub process_entry :
      CompressionType
      → EncryptionType
      → Q
      → UintN U
      → K
      → List (K × Range U)
      → (can_write can_delete : Bool) → Outcome (WalError U) (WalContent U)
      → Processed K U
  unfolding last_id_of record_range
  process_entry compression encryption queue file_id key ranges can_write can_delete (err e) =
      untouched ranges
  process_entry compression encryption queue file_id key ranges can_write can_delete panic =
      untouched ranges
  process_entry compression encryption queue file_id key ranges can_write can_delete (ok wal_data) =
      elim (maybe_compress_and_encrypt crypto codecs compression encryption queue file_id
        wal_data.content) [
          | none ↦ untouched ranges
          | some bytes ↦
              if can_write
              then complete can_delete key ranges
                  (store_file_bytes crypto codecs compression encryption wal_data bytes)
                  wal_data.entries_before (last_id_of wal_data)
              else untouched ranges
        ]
