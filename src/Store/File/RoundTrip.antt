-- ===== src/Store/File/RoundTrip.antt =====
-- `normfs-store/src/writer.rs` and `lib.rs`: what was written to a store file is taken out of it.
use normfs.Prelude.{
  ◌≡◌, ◌∙◌, ◌++◌, [], ℕ, refl, sym, ap, inl, inr, Bool, true, false, none, some, List, append-nil,
  arith, ltb, Option-cases, length, length-append, ok, Returns-eq, length-le_bytes,
}
use normfs.Store.File.{
  CryptoContext, Compression, IsSound, CompressionType, check_signatures, decompressed, decrypted,
  extract_wal_bytes, store_file_parts, EncryptionType, compressed, maybe_compress_and_encrypt,
  store_file_bytes, encrypted,
}
use normfs.Types.{compression_code, encryption_code}
use normfs.Store.Header.{StoreHeader, version_code}
use normfs.UBig.{UBig}
use normfs.Store.Header
use normfs.Wal.Reader.{WalContent}
use normfs.UintN.{UintN}
use normfs.Types.{none_compression, zstd, gzip, xz, none_encryption, aes}
use normfs.Store.Authentication
use normfs.Store.Header.RoundTrip.{written, numbers, IsWritable, from_bytes-written}
use normfs.Store.Authentication.{authentication_round_trip, FileAuthentication}
use normfs.UintN.Codec.Slices.{length-three_fields, drop-append_of_length, take-append_of_length}
use normfs.UintN.Codec.RoundTrip.{prefixed_bytes, length-prefixed_bytes}

pub length-authentication :
    (a : FileAuthentication)
    → length a.header_signature ≡ 64
    → length a.content_signature ≡ 64
    → length (Authentication.write_to_bytes a []).0 ≡ 152
unfolding Authentication.write_to_bytes
length-authentication a lh lc = simp (length-append, length-le_bytes, lh, lc) (omega arith)

module _ {U : Type 0} ⦃b : UBig U⦄ where
  pub length-header : (h : StoreHeader U) → length (Header.write_to_bytes h []).0 ≡ Header.size h
  unfolding Header.size
  length-header h =
      let e = written h [] in
      let n =
        length-three_fields (version_code h.version) (compression_code h.compression)
          (encryption_code h.encryption) (numbers h []) in
      rw (← append-nil (Header.write_to_bytes h []).0, e)
        (omega (
          arith,
          n,
          length-append (prefixed_bytes h.num_entries_before) (prefixed_bytes h.num_entries ++ []),
          length-append (prefixed_bytes h.num_entries) [],
          length-prefixed_bytes h.num_entries_before,
          length-prefixed_bytes h.num_entries,
        ))

module _ {Q U : Type 0} ⦃b : UBig U⦄ (crypto : CryptoContext Q U) (codecs : Compression)
    (sound : IsSound crypto codecs) where
  -- What `write_store_file` makes of the log's content.
  abbrev pub header_for : CompressionType → EncryptionType → WalContent U → StoreHeader U
  header_for compression encryption wal_data =
      Header.new compression encryption wal_data.entries_before wal_data.num_entries

  abbrev pub header_part : CompressionType → EncryptionType → WalContent U → List ℕ
  header_part compression encryption wal_data =
      (Header.write_to_bytes (header_for compression encryption wal_data) []).0

  -- The parts of a file that was written.
  abbrev HasParts :
      CompressionType → EncryptionType → WalContent U → List ℕ → StoreHeader U → Type 0
  HasParts compression encryption wal_data bytes header =
      let header_bytes = header_part compression encryption wal_data in
      store_file_parts crypto codecs
        (store_file_bytes crypto codecs compression encryption wal_data bytes)
      ≡ ok (
        Authentication.new (crypto.sign header_bytes) (crypto.sign bytes),
        header,
        header_bytes,
        bytes,
      )

  parts_lem :
      (compression : CompressionType) (encryption : EncryptionType) (wal_data : WalContent U)
      (bytes : List ℕ)
      → IsWritable (header_for compression encryption wal_data)
      → (header : StoreHeader U) × HasParts compression encryption wal_data bytes header
        × (header.compression ≡ compression)
        × (header.encryption ≡ encryption)
  unfolding store_file_parts store_file_bytes Authentication.new Header.new
  parts_lem compression encryption wal_data bytes w =
      let h = header_for compression encryption wal_data in
      let hb = header_part compression encryption wal_data in
      let a = Authentication.new (crypto.sign hb) (crypto.sign bytes) in
      let ab = (Authentication.write_to_bytes a []).0 in
      let lh = sound.length-sign hb in
      let lc = sound.length-sign bytes in
      let after =
        drop-append_of_length ab (hb ++ bytes) 152 (sym (length-authentication a lh lc)) in
      let (r, e, rr) =
        Returns-eq _ (Header.from_bytes {U = U} (hb ++ bytes)) (from_bytes-written h bytes w) in
      let n : r.1 ≡ length hb = rr.5 ∙ sym (length-header h) in
      let inside : ltb (length (hb ++ bytes)) r.1 ≡ false =
        ground (arith, n, length-append hb bytes) in
      (
        r.0,
        rw
            (
              authentication_round_trip a (hb ++ bytes) lh lc,
              after,
              e,
              inside,
              take-append_of_length hb bytes r.1 n,
              drop-append_of_length hb bytes r.1 n,
            )
            refl,
        rr.1,
        rr.2,
      )

  signed :
      (verify_signatures : Bool) (header : StoreHeader U) (hb bytes : List ℕ)
      → check_signatures crypto codecs verify_signatures
          (Authentication.new (crypto.sign hb) (crypto.sign bytes), header, hb, bytes)
        ≡ ok tt
  unfolding check_signatures Authentication.new
  signed true header hb bytes = rw (sound.verify-sign hb, sound.verify-sign bytes) refl
  signed false header hb bytes = refl

  opens :
      (encryption : EncryptionType) (queue : Q) (file_id : UintN U) (x bytes : List ℕ)
      (header : StoreHeader U)
      → encrypted crypto codecs encryption queue file_id x ≡ some bytes
      → header.encryption ≡ encryption
      → decrypted crypto codecs queue file_id header bytes ≡ ok x
  unfolding decrypted Header.is_encrypted
  opens none_encryption queue file_id x bytes header e same = ground (arith, e, same)
  opens aes queue file_id x bytes header e same =
      elim (Option-cases (crypto.encrypt queue file_id x)) [
        | inl failed ↦ absurd (ground (arith, e, failed))
        | inr ((nonce, ciphertext), made) ↦
            let (n, back) = sound.decrypt-encrypt queue file_id x nonce ciphertext made in
            let whole : bytes ≡ nonce ++ ciphertext = ground (arith, e, made) in
            let enough : ltb (length (nonce ++ ciphertext)) 12 ≡ false =
              ground (arith, n, length-append nonce ciphertext) in
            rw
              (
                whole,
                same,
                enough,
                take-append_of_length nonce ciphertext 12 (sym n),
                drop-append_of_length nonce ciphertext 12 (sym n),
                back,
              )
              refl
      ]

  unpacks :
      (compression : CompressionType) (x bytes : List ℕ) (header : StoreHeader U)
      → compressed crypto codecs compression bytes ≡ some x
      → header.compression ≡ compression
      → decompressed crypto codecs header x ≡ ok bytes
  unfolding decompressed Header.is_compressed
  unpacks none_compression x bytes header e same = ground (arith, e, same)
  unpacks zstd x bytes header e same = rw (same, sound.decompress-compress bytes x e) refl
  unpacks gzip x bytes header e same = absurd (ground (arith, e))
  unpacks xz x bytes header e same = absurd (ground (arith, e))

  -- With sound cryptography and compression: where the bytes of a log file could be compressed and
  -- encrypted, and the numbers of the header are machine integers or countable, `extract_wal_bytes`
  -- returns exactly those bytes from the store file that was written, whether signatures are verified
  -- or not.
  pub extract_wal_bytes-store_file_bytes :
      (compression : CompressionType) (encryption : EncryptionType) (queue : Q) (file_id : UintN U)
      (wal_data : WalContent U) (bytes : List ℕ) (verify_signatures : Bool)
      → maybe_compress_and_encrypt crypto codecs compression encryption queue file_id
          wal_data.content
        ≡ some bytes
      → IsWritable (header_for compression encryption wal_data)
      → extract_wal_bytes crypto codecs queue file_id
          (store_file_bytes crypto codecs compression encryption wal_data bytes)
          verify_signatures
        ≡ ok wal_data.content
  unfolding extract_wal_bytes maybe_compress_and_encrypt
  extract_wal_bytes-store_file_bytes compression encryption queue file_id wal_data bytes
        verify_signatures made w =
      let (header, parts, c, e) = parts_lem compression encryption wal_data bytes w in
      let hb = header_part compression encryption wal_data in
      elim (Option-cases (compressed crypto codecs compression wal_data.content)) [
        | inl failed ↦ absurd (ground (arith, made, failed))
        | inr (x, packed) ↦
            let sealed : encrypted crypto codecs encryption queue file_id x ≡ some bytes =
              ap
                (λ o. elim o [
                  | none ↦ none
                  | some to_process ↦ encrypted crypto codecs encryption queue file_id to_process
                ])
                (sym packed)
              ∙ made in
            rw
              (
                parts,
                signed verify_signatures header hb bytes,
                opens encryption queue file_id x bytes header sealed e,
                unpacks compression x wal_data.content header packed c,
              )
              refl
      ]
