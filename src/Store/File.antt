-- ===== src/Store/File.antt =====
-- `normfs-store/src/writer.rs`, `lib.rs` and `parser.rs`: a file of the log is compressed, encrypted,
-- signed and written to a store file, and taken out of it again. The cryptography and the compression
-- call other crates and are parameters; where they fail they answer `none`.
pub mod RoundTrip
use normfs.Prelude.{
  ◌≡◌, ◌&&◌, ◌++◌, if◌then◌else◌, ◌>>=◌, [], ℕ, Bool, true, Option, none, some, List, ltb, length,
  take, drop, Outcome, ok, err, panic, map_err, ok_or,
}
use normfs.Wal.Reader.{WalContent}
use normfs.Wal.Header.{WalHeader}
use normfs.Types.{CompressionType, EncryptionType}
use normfs.Store.Header.{StoreHeader}
use normfs.Store.Authentication.{FileAuthentication}
use normfs.Lookup.{StoreError}
use normfs.UintN.{UintN}
use normfs.UBig.{UBig}
use normfs.Wal.Reader
use normfs.Types.{none_compression, zstd, gzip, xz, none_encryption, aes}
use normfs.Store.Header
use normfs.Store.Authentication

-- `CryptoContext`: signatures, and encryption under a key and nonce of the queue and the file.
pub record CryptoContext (Q U : Type 0) : Type 0 where
  pub sign : List ℕ → List ℕ
  pub verify : List ℕ → List ℕ → Bool
  pub encrypt : Q → UintN U → List ℕ → Option (List ℕ × List ℕ)
  pub decrypt : Q → UintN U → List ℕ → List ℕ → Option (List ℕ)

-- `compression.rs`
pub record Compression : Type 0 where
  pub zstd_compress : List ℕ → Option (List ℕ)
  pub zstd_decompress : List ℕ → Option (List ℕ)
  pub xz_decompress : List ℕ → Option (List ℕ)

-- A signature has 64 bytes and is verified; the nonce has 12 bytes, and with it the ciphertext is
-- decrypted; what was compressed is decompressed.
pub record IsSound {Q U : Type 0} (crypto : CryptoContext Q U) (codecs : Compression) : Type 0 where
  pub length-sign : (bytes : List ℕ) → length (crypto.sign bytes) ≡ 64
  pub verify-sign : (bytes : List ℕ) → crypto.verify bytes (crypto.sign bytes) ≡ true
  pub decrypt-encrypt :
      (queue : Q) (file_id : UintN U) (bytes nonce ciphertext : List ℕ)
      → crypto.encrypt queue file_id bytes ≡ some (nonce, ciphertext)
      → (length nonce ≡ 12) × (crypto.decrypt queue file_id nonce ciphertext ≡ some bytes)
  pub decompress-compress :
      (bytes compressed : List ℕ)
      → codecs.zstd_compress bytes ≡ some compressed
      → codecs.zstd_decompress compressed ≡ some bytes

module _ {Q U : Type 0} ⦃b : UBig U⦄ (crypto : CryptoContext Q U) (codecs : Compression) where
  -- Only `Zstd` is written.
  abbrev pub compressed : CompressionType → List ℕ → Option (List ℕ)
  compressed none_compression bytes = some bytes
  compressed zstd bytes = codecs.zstd_compress bytes
  compressed gzip bytes = none
  compressed xz bytes = none

  abbrev joined : Option (List ℕ × List ℕ) → Option (List ℕ)
  joined none = none
  joined (some (nonce, ciphertext)) = some (nonce ++ ciphertext)

  abbrev pub encrypted : EncryptionType → Q → UintN U → List ℕ → Option (List ℕ)
  encrypted none_encryption queue file_id bytes = some bytes
  encrypted aes queue file_id bytes = joined (crypto.encrypt queue file_id bytes)

  unfoldable pub maybe_compress_and_encrypt :
      CompressionType → EncryptionType → Q → UintN U → List ℕ → Option (List ℕ)
  maybe_compress_and_encrypt compression encryption queue file_id bytes =
      elim (compressed compression bytes) [
        | none ↦ none
        | some to_process ↦ encrypted encryption queue file_id to_process
      ]

  -- What `write_store_file` writes: the signatures, the header, and the data.
  unfoldable pub store_file_bytes :
      CompressionType → EncryptionType → WalContent U → List ℕ → List ℕ
  store_file_bytes compression encryption wal_data bytes =
      let header_bytes =
        (Header.write_to_bytes
          (Header.new compression encryption wal_data.entries_before wal_data.num_entries) []).0 in
      let auth = Authentication.new (crypto.sign header_bytes) (crypto.sign bytes) in
      (Authentication.write_to_bytes auth []).0 ++ (header_bytes ++ bytes)

  -- The header of a store file, its bytes, and what follows. A slice out of range panics.
  abbrev pub Parts : Type 0
  Parts = FileAuthentication × StoreHeader U × List ℕ × List ℕ

  abbrev split : FileAuthentication → List ℕ → StoreHeader U × ℕ → Outcome (StoreError U) Parts
  split auth content_after_auth (header, header_size) =
      if ltb (length content_after_auth) header_size
      then panic
      else ok
          (auth, header, take header_size content_after_auth, drop header_size content_after_auth)

  unfoldable pub store_file_parts : List ℕ → Outcome (StoreError U) Parts
  store_file_parts content = map_err StoreError.header (Authentication.from_bytes content) >>= λ a.
      (map_err StoreError.header (Header.from_bytes (drop a.1 content)) >>= λ h.
      split a.0 (drop a.1 content) h)

  unfoldable pub check_signatures :
      (verify_signatures : Bool) → Parts → Outcome (StoreError U) (Unit {0})
  check_signatures verify_signatures (auth, header, header_bytes, content) =
      if verify_signatures
      then (if crypto.verify header_bytes auth.header_signature
            && crypto.verify content auth.content_signature
          then ok tt
          else err StoreError.signature_verification_failed)
      else ok tt

  unfoldable pub decrypted : Q → UintN U → StoreHeader U → List ℕ → Outcome (StoreError U) (List ℕ)
  decrypted queue file_id header content =
      if Header.is_encrypted header
      then (if ltb (length content) 12
          then err StoreError.decrypt
          else ok_or StoreError.decrypt
              (crypto.decrypt queue file_id (take 12 content) (drop 12 content)))
      else ok content

  -- Files of type `Gzip` are read as `Zstd`.
  abbrev decompress : CompressionType → List ℕ → Option (List ℕ)
  decompress none_compression bytes = some bytes
  decompress gzip bytes = codecs.zstd_decompress bytes
  decompress xz bytes = codecs.xz_decompress bytes
  decompress zstd bytes = codecs.zstd_decompress bytes

  unfoldable pub decompressed : StoreHeader U → List ℕ → Outcome (StoreError U) (List ℕ)
  decompressed header bytes =
      if Header.is_compressed header
      then ok_or StoreError.io (decompress header.compression bytes)
      else ok bytes

  unfoldable pub extract_wal_bytes :
      Q → UintN U → List ℕ → (verify_signatures : Bool) → Outcome (StoreError U) (List ℕ)
  unfolding store_file_parts check_signatures decrypted decompressed
  extract_wal_bytes queue file_id content verify_signatures = store_file_parts content >>= λ parts.
      (check_signatures verify_signatures parts >>= λ _.
      (decrypted queue file_id parts.1 parts.3 >>= λ bytes. decompressed parts.1 bytes))

  unfoldable pub extract_wal_header :
      Q → UintN U → List ℕ → (verify_signatures : Bool) → Outcome (StoreError U) (WalHeader U)
  unfolding extract_wal_bytes
  extract_wal_header queue file_id store_file_bytes verify_signatures =
      extract_wal_bytes queue file_id store_file_bytes verify_signatures >>= λ wal_bytes.
      map_err StoreError.wal_header_error (Reader.get_wal_header wal_bytes)
