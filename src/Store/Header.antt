-- ===== src/Store/Header.antt =====
-- `normfs-store/src/header.rs`: the header of a store file.
pub mod RoundTrip
use normfs.Prelude.{
  ◌+◌, ◌++◌, ◌==◌, if◌then◌else◌, ◌>>=◌, ℕ, Bool, true, false, List, ltb, length, drop, Outcome, ok,
  err, map_err, ok_or, le_bytes,
}
use normfs.UBig.{UBig}
use normfs.UintN.{UintN, Error}
use normfs.UintN.Codec.{size_in_bytes, u64_at, read_from_slice, write_to_buffer}
use normfs.Types.{
  CompressionType, EncryptionType, none_encryption, none_compression, compression_try_from,
  compression_code, encryption_try_from, encryption_code,
}

pub data StoreHeaderError : Type 0 where
  slice_too_short : StoreHeaderError
  uintn : Error → StoreHeaderError
  unsupported_version unsupported_compression unsupported_encryption : ℕ → StoreHeaderError
  unsupported_signature : ℕ → StoreHeaderError

pub data StoreHeaderVersion : Type 0 where
  v0 : StoreHeaderVersion

unfoldable pub version_try_from : ℕ → Outcome StoreHeaderError StoreHeaderVersion
version_try_from v = if v == 0 then ok v0 else err (unsupported_version v)

unfoldable pub version_code : StoreHeaderVersion → ℕ
version_code v0 = 0

unfoldable pub compression_type_from_u64 : ℕ → Outcome StoreHeaderError CompressionType
unfolding compression_try_from
compression_type_from_u64 v = ok_or (unsupported_compression v) (compression_try_from v)

unfoldable pub encryption_type_from_u64 : ℕ → Outcome StoreHeaderError EncryptionType
unfolding encryption_try_from
encryption_type_from_u64 v = ok_or (unsupported_encryption v) (encryption_try_from v)

pub record StoreHeader (U : Type 0) : Type 0 where
  pub version : StoreHeaderVersion
  pub compression : CompressionType
  pub encryption : EncryptionType
  pub num_entries_before : UintN U
  pub num_entries : UintN U

unfoldable pub new :
    {U : Type 0} → CompressionType → EncryptionType → UintN U → UintN U → StoreHeader U
new compression encryption num_entries_before num_entries = record {
  version = v0;
  compression = compression;
  encryption = encryption;
  num_entries_before = num_entries_before;
  num_entries = num_entries;
}

unfoldable pub is_encrypted : {U : Type 0} → StoreHeader U → Bool
is_encrypted h = elim h.encryption [ none_encryption ↦ false | _ ↦ true ]

unfoldable pub is_compressed : {U : Type 0} → StoreHeader U → Bool
is_compressed h = elim h.compression [ none_compression ↦ false | _ ↦ true ]

module _ {U : Type 0} ⦃b : UBig U⦄ where
  unfoldable pub from_bytes : List ℕ → Outcome StoreHeaderError (StoreHeader U × ℕ)
  unfolding version_try_from compression_type_from_u64 encryption_type_from_u64
  from_bytes bytes = if ltb (length bytes) 24 then err slice_too_short else do
    version ← version_try_from (u64_at bytes 0)
    compression ← compression_type_from_u64 (u64_at bytes 8)
    encryption ← encryption_type_from_u64 (u64_at bytes 16)
    (num_entries_before, bytes_read_before) ← map_err uintn (read_from_slice (drop 24 bytes))
    (num_entries, bytes_read_after) ←
        map_err uintn (read_from_slice (drop (24 + bytes_read_before) bytes))
    ok (
      record {
        version = version;
        compression = compression;
        encryption = encryption;
        num_entries_before = num_entries_before;
        num_entries = num_entries;
      },
      24 + bytes_read_before + bytes_read_after,
    )

  unfoldable pub size : StoreHeader U → ℕ
  size h = 24 + (8 + size_in_bytes h.num_entries_before) + (8 + size_in_bytes h.num_entries)

  -- The new buffer, and the size that is reported.
  unfoldable pub write_to_bytes : StoreHeader U → List ℕ → List ℕ × ℕ
  unfolding version_code compression_code encryption_code size
  write_to_bytes h dest =
      let fixed =
        ((dest ++ le_bytes 8 (version_code h.version))
          ++ le_bytes 8 (compression_code h.compression))
        ++ le_bytes 8 (encryption_code h.encryption) in
      let before = (write_to_buffer h.num_entries_before fixed).0 in
      ((write_to_buffer h.num_entries before).0, size h)
