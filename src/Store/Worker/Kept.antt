-- ===== src/Store/Worker/Kept.antt =====
-- `process_entry` of `normfs-store/src/writer.rs`: what a deleted file of the log held is in the store file.
use normfs.Prelude.{◌≡◌, ℕ, inl, inr, Bool, true, some, List, arith, Option-cases, ok}
use normfs.Store.File.{
  CryptoContext, Compression, IsSound, extract_wal_bytes, maybe_compress_and_encrypt,
  store_file_bytes,
}
use normfs.Store.File.RoundTrip.{header_for, extract_wal_bytes-store_file_bytes}
use normfs.Store.Header.RoundTrip.{IsWritable}
use normfs.Store.Worker.{process_entry, UBig, CompressionType, EncryptionType, UintN, WalContent}
use normfs.Store.Ranges.{Range}

module _ {Q U K : Type 0} ⦃b : UBig U⦄ (crypto : CryptoContext Q U) (codecs : Compression)
    (sound : IsSound crypto codecs) (same : Discrete K) where
  -- With sound cryptography and compression: when `process_entry` deletes the file of the log, of which the
  -- counts can be written into a header, then a store file was written from which `extract_wal_bytes`
  -- returns the bytes of the file of the log, whether signatures are verified or not.
  pub process_entry-extract_wal_bytes :
      (compression : CompressionType) (encryption : EncryptionType) (queue : Q) (file_id : UintN U)
      (key : K) (ranges : List (K × Range U)) (can_write can_delete : Bool)
      (wal_data : WalContent U) (verify_signatures : Bool)
      → IsWritable (header_for crypto codecs sound compression encryption wal_data)
      → (process_entry crypto codecs same compression encryption queue file_id key ranges can_write
          can_delete
          (ok wal_data)).deleted
        ≡ true
      → (bytes : List ℕ) × ((process_entry crypto codecs same compression encryption queue file_id
            key ranges can_write can_delete
            (ok wal_data)).stored
          ≡ some bytes)
        × (extract_wal_bytes crypto codecs queue file_id bytes verify_signatures
            ≡ ok wal_data.content)
  unfolding process_entry
  process_entry-extract_wal_bytes compression encryption queue file_id key ranges can_write
        can_delete wal_data verify_signatures w done =
      elim (Option-cases (
        maybe_compress_and_encrypt crypto codecs compression encryption queue file_id
          wal_data.content)) [
            | inl failed ↦ absurd (ground (arith, done, failed))
            | inr (bytes, made) ↦ (
              store_file_bytes crypto codecs compression encryption wal_data bytes,
              ground (arith, done, made),
              extract_wal_bytes-store_file_bytes crypto codecs sound compression encryption queue
                  file_id wal_data bytes verify_signatures made w,
            )
          ]
