-- ===== src/Types.antt =====
-- `normfs-types/src/lib.rs`: the types that the crates share.
use normfs.Prelude.{◌==◌, if◌then◌else◌, ℕ, Option, none, some, List}
use normfs.UintN.{UintN}

pub data DataSource : Type 0 where
  none_source cloud disk_store disk_wal memory : DataSource

pub record ReadEntry (U : Type 0) : Type 0 where
  pub id : UintN U
  pub contents : List ℕ
  pub source : DataSource

pub data CompressionType : Type 0 where
  none_compression gzip xz zstd : CompressionType

pub data EncryptionType : Type 0 where
  none_encryption aes : EncryptionType

-- `TryFrom<u64>` and `From` to `u64`; the error's text is not kept.
unfoldable pub compression_try_from : ℕ → Option CompressionType
compression_try_from v =
    if v == 0
    then some none_compression
    else if v == 1
    then some gzip
    else if v == 2
    then some xz
    else if v == 3
    then some zstd
    else none

unfoldable pub compression_code : CompressionType → ℕ
compression_code none_compression = 0
compression_code gzip = 1
compression_code xz = 2
compression_code zstd = 3

unfoldable pub encryption_try_from : ℕ → Option EncryptionType
encryption_try_from v = if v == 0 then some none_encryption else if v == 1 then some aes else none

unfoldable pub encryption_code : EncryptionType → ℕ
encryption_code none_encryption = 0
encryption_code aes = 1

pub data ReadPosition (U : Type 0) : Type 0 where
  absolute : UintN U → ReadPosition U
  shift_from_tail : UintN U → ReadPosition U
