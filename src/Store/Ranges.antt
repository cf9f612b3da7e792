-- ===== src/Store/Ranges.antt =====
-- `normfs-store/src/ranges.rs`, and its use in `writer.rs`: the ids that a store file holds, from its
-- header or from the map of the ranges that are known. The key of a file, a text in the source, is a
-- parameter.
pub mod Agree
use normfs.Prelude.{
  ◌∷◌, if◌then◌else◌, ◌>>=◌, [], ℕ, Bool, not, Option, none, some, List, ltb, length, take, drop,
  Outcome, ok, err, panic, map_err,
}
use normfs.Store.Authentication.{FileAuthentication}
use normfs.Store.File.{CryptoContext}
use normfs.UintN.Arith.{sub, add}
use normfs.UintN.{UintN, Error, is_zero}
use normfs.UBig.{UBig}
use normfs.Store.Header.{StoreHeaderError, StoreHeader}
use normfs.Store.Header
use normfs.Store.Authentication
use normfs.UintN
use normfs.Wal.Reader.{File, WalContent, contents, not_found, unreadable}

pub data RangeStoreError : Type 0 where
  io path file_not_found signature_verification_failed : RangeStoreError
  header : StoreHeaderError → RangeStoreError
  uintn : Error → RangeStoreError

-- The first and the last id.
abbrev pub Range : Type 0 → Type 0
Range U = UintN U × UintN U

module _ {U K : Type 0} (same : Discrete K) where
  -- `HashMap::get` and `HashMap::insert` on the ranges.
  unfoldable pub known : K → List (K × Range U) → Option (Range U)
  known key [] = none
  known key ((k, range) ∷ ranges) =
      let rest = known key ranges in elim (same k key) [ yes e ↦ some range | no n ↦ rest ]

  unfoldable pub record_range : K → Range U → List (K × Range U) → List (K × Range U)
  record_range key range [] = (key, range) ∷ []
  record_range key range ((k, old) ∷ ranges) =
      let rest = record_range key range ranges in
      elim (same k key) [ yes e ↦ (k, range) ∷ ranges | no n ↦ (k, old) ∷ rest ]

module _ {Q U K : Type 0} ⦃b : UBig U⦄ (crypto : CryptoContext Q U) (verify_signatures : Bool)
    (same : Discrete K) where
  unfoldable pub range_of : StoreHeader U → Outcome RangeStoreError (Option (Range U))
  range_of h =
      if is_zero h.num_entries
      then ok none
      else (map_err RangeStoreError.uintn (sub h.num_entries UintN.one) >>= λ num_entries_minus_one.
          ok (some (h.num_entries_before, add h.num_entries_before num_entries_minus_one)))

  -- Only the signature of the header is verified. A slice out of range panics.
  unfoldable pub check_header : FileAuthentication → List ℕ → ℕ → Outcome RangeStoreError (Unit {0})
  check_header file_auth content_after_auth header_size =
      if not verify_signatures
      then ok tt
      else if ltb (length content_after_auth) header_size
      then panic
      else if crypto.verify (take header_size content_after_auth) file_auth.header_signature
      then ok tt
      else err signature_verification_failed

  unfoldable pub read_range_from_fs : File → Outcome RangeStoreError (Option (Range U))
  unfolding range_of check_header
  read_range_from_fs not_found = err file_not_found
  read_range_from_fs unreadable = err io
  read_range_from_fs (contents bytes) =
      let buffer = take 256 bytes in
      map_err RangeStoreError.header (Authentication.from_bytes buffer) >>= λ a.
      (map_err RangeStoreError.header (Header.from_bytes (drop a.1 buffer)) >>= λ h.
      (check_header a.0 (drop a.1 buffer) h.1 >>= λ _. range_of h.0))

  -- A range that was read is remembered; an absent file has none.
  abbrev pub remembered :
      K
      → List (K × Range U)
      → Outcome RangeStoreError (Option (Range U))
      → List (K × Range U) × Outcome RangeStoreError (Option (Range U))
  remembered key ranges (ok (some range)) = (record_range same key range ranges, ok (some range))
  remembered key ranges (ok none) = (ranges, ok none)
  remembered key ranges (err file_not_found) = (ranges, ok none)
  remembered key ranges (err e) = (ranges, err e)
  remembered key ranges panic = (ranges, panic)

  unfoldable pub get_range :
      K
      → File
      → List (K × Range U)
      → List (K × Range U) × Outcome RangeStoreError (Option (Range U))
  unfolding known record_range read_range_from_fs
  get_range key file ranges = elim (known same key ranges) [
    | some range ↦ (ranges, ok (some range))
    | none ↦ remembered key ranges (read_range_from_fs file)
  ]

-- The last id that `process_entry` of `writer.rs` records for a file.
unfoldable pub last_id_of : {U : Type 0} ⦃b : UBig U⦄ → WalContent U → Outcome Error (UintN U)
last_id_of wal_data = sub (add wal_data.entries_before wal_data.num_entries) UintN.one
