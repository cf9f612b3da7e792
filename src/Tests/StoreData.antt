-- ===== src/Tests/StoreData.antt =====
-- `normfs-store/src/writer.rs`, `lib.rs` and `ranges.rs` at concrete inputs: signatures of zeros, a cipher
-- that only adds a nonce, and codecs that change nothing.
use normfs.Prelude.{
  ◌≡◌, ◌∷◌, ◌++◌, [], ℕ, refl, sym, true, none, some, List, arith, replicate, ok, Returns,
}
use normfs.UintN.Codec.{size_in_bytes}
use native.Mathlib.Decide.{ℕ_discrete}
use normfs.Tests.BigNat.{big_nat}
use normfs.Store.Header
use normfs.UintN.Arith.{add, sub}
use normfs.Store.Header.RoundTrip.{IsWritable}
use normfs.UintN
use normfs.UintN.{is_zero, u8, value}
use normfs.Types.{zstd, aes}
use normfs.Store.File.{
  CryptoContext, Compression, IsSound, extract_wal_bytes, store_file_bytes,
  maybe_compress_and_encrypt,
}
use normfs.Store.File.RoundTrip.{extract_wal_bytes-store_file_bytes, header_for}
use normfs.Store.Worker.{process_entry}
use normfs.Store.Worker.Kept.{process_entry-extract_wal_bytes}
use normfs.Store.Ranges.{last_id_of, read_range_from_fs}
use normfs.Store.Ranges.Agree.{read_range_from_fs-last_id_of, IsRange}
use normfs.Wal.Reader.{contents, WalContent}

abbrev crypto : CryptoContext ℕ ℕ
crypto = record {
  sign = λ bytes. replicate 64 0;
  verify = λ bytes signature. true;
  encrypt = λ queue file_id bytes. some (replicate 12 0, bytes);
  decrypt = λ queue file_id nonce ciphertext. some ciphertext;
}

abbrev codecs : Compression
codecs = record {
  zstd_compress = λ bytes. some bytes;
  zstd_decompress = λ bytes. some bytes;
  xz_decompress = λ bytes. none;
}

crypto-IsSound : IsSound crypto codecs
crypto-IsSound = record {
  length-sign = λ bytes. refl;
  verify-sign = λ bytes. refl;
  decrypt-encrypt = λ queue file_id bytes nonce ciphertext e. ground (arith, e);
  decompress-compress = λ bytes compressed e. sym e;
}

-- Two entries, behind five in the files before.
abbrev wal_data : WalContent ℕ
wal_data = record { entries_before = u8 5; num_entries = u8 2; content = 1 ∷ 2 ∷ 3 ∷ [] }

wal_data-IsWritable : IsWritable (header_for crypto codecs crypto-IsSound zstd aes wal_data)
unfolding size_in_bytes Header.new
wal_data-IsWritable = record {
  before = omega arith;
  entries = omega arith;
  countable_before = omega arith;
  countable = omega arith;
}

abbrev sealed : List ℕ
sealed = replicate 12 0 ++ (1 ∷ 2 ∷ 3 ∷ [])

extract_wal_bytes-store_file_bytes_example :
    extract_wal_bytes crypto codecs 7
      (u8 1)
      (store_file_bytes crypto codecs zstd aes wal_data sealed)
      true
    ≡ ok (1 ∷ 2 ∷ 3 ∷ [])
unfolding maybe_compress_and_encrypt
extract_wal_bytes-store_file_bytes_example =
    extract_wal_bytes-store_file_bytes crypto codecs crypto-IsSound zstd aes 7 (u8 1) wal_data
      sealed true refl wal_data-IsWritable

process_entry-extract_wal_bytes_example :
    (bytes : List ℕ) × ((process_entry crypto codecs ℕ_discrete zstd aes 7
        (u8 1)
        3
        []
        true
        true
        (ok wal_data)).stored
      ≡ some bytes)
    × (extract_wal_bytes crypto codecs 7 (u8 1) bytes true ≡ ok (1 ∷ 2 ∷ 3 ∷ []))
unfolding process_entry maybe_compress_and_encrypt last_id_of add sub is_zero UintN.one
process_entry-extract_wal_bytes_example =
    process_entry-extract_wal_bytes crypto codecs crypto-IsSound ℕ_discrete zstd aes 7 (u8 1) 3 []
      true true wal_data true wal_data-IsWritable refl

read_range_from_fs-last_id_of_example :
    Returns
      (λ last_id. Returns (IsRange crypto codecs crypto-IsSound ℕ_discrete 5 (value last_id)) (
        read_range_from_fs crypto true ℕ_discrete
          (contents (store_file_bytes crypto codecs zstd aes wal_data sealed))))
      (last_id_of wal_data)
unfolding value Header.size size_in_bytes Header.new
read_range_from_fs-last_id_of_example =
    read_range_from_fs-last_id_of crypto codecs crypto-IsSound ℕ_discrete zstd aes wal_data sealed
      true wal_data-IsWritable (omega arith) (omega arith) (omega arith) (omega arith)
