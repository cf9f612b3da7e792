-- ===== src/Store/Ranges/Agree.antt =====
-- `normfs-store/src/ranges.rs`: the range that is read from a store file that `writer.rs` wrote.
use normfs.Prelude.{
  ◌+◌, ◌-◌, ◌≤◌, ◌≡◌, ◌∙◌, ◌++◌, [], ℕ, refl, sym, ap, Bool, true, false, Option, none, some, List,
  arith, ltb, length, take, first, last, length-append, ok, Returns, Returns-eq,
}
use normfs.UintN.Codec.Slices.{drop-append_of_length, take-append_of_length}
use normfs.UintN.Value.{is_zero_lem}
use normfs.Types.{CompressionType, EncryptionType}
use normfs.Store.Header.{StoreHeader}
use normfs.UintN.{IsCanonical, value, Represents}
use normfs.Store.File.{CryptoContext, Compression, IsSound, store_file_bytes}
use normfs.Store.File.RoundTrip.{header_for, header_part, length-header, length-authentication}
use normfs.Store.Header.RoundTrip.{IsWritable, from_bytes-written}
use normfs.Store.Authentication.{authentication_round_trip}
use normfs.Store.Header
use normfs.Store.Authentication
use normfs.UintN
use normfs.UintN.Arith.{sub, add}
use normfs.UintN.Arith.Sum.{add_lem}
use normfs.UintN.Arith.Difference.{sub_lem}
use normfs.Wal.Reader.Log.{take-append_ge}
use normfs.Store.Ranges.{
  Range, last_id_of, range_of, check_header, read_range_from_fs, UBig, UintN, WalContent, contents,
}

-- What the first bytes of a longer text are, where they hold two parts of it.
take-parts :
    (first second third : List ℕ) (n : ℕ)
    → length first + length second ≤ n
    → take n (first ++ (second ++ third))
      ≡ first ++ (second ++ take (n - length first - length second) third)
take-parts first second third n le =
    take-append_ge first (second ++ third) n (length first) refl (omega (arith, le))
    ∙ ap (λ zs. first ++ zs)
        (take-append_ge second third (n - length first) (length second) refl (omega (arith, le)))

module _ {U : Type 0} ⦃b : UBig U⦄ where
  ends :
      (before entries : UintN U)
      → IsCanonical before
      → IsCanonical entries
      → 1 ≤ value entries
      → Returns
          (λ last. Represents last (value before + value entries - 1))
          (sub (add before entries) UintN.one)
  unfolding UintN.one value
  ends before entries h k one =
      let (s, c) = add_lem before entries h k in
      let (d, e, r) =
        Returns-eq _ (sub (add before entries) UintN.one)
          (sub_lem (add before entries) UintN.one c (omega arith) (omega (arith, s, one))) in
      rw e (ground (arith, r, s))

  module _ {Q K : Type 0} (crypto : CryptoContext Q U) (codecs : Compression)
      (sound : IsSound crypto codecs) (same : Discrete K) where
    -- The range of the ids of a file.
    abbrev pub IsRange : ℕ → ℕ → Option (Range U) → Type 0
    IsRange first last none = ⊥
    IsRange first last (some (first_id, last_id)) =
        (value first_id ≡ first) × Represents last_id last

    checked :
        (verify_signatures : Bool) (hb rest content : List ℕ) (n : ℕ)
        → n ≡ length hb
        → check_header crypto verify_signatures same
            (Authentication.new (crypto.sign hb) (crypto.sign content))
            (hb ++ rest)
            n
          ≡ ok tt
    unfolding check_header Authentication.new
    checked false hb rest content n e = refl
    checked true hb rest content n e =
        let inside : ltb (length (hb ++ rest)) n ≡ false =
          ground (arith, e, length-append hb rest) in
        rw (inside, take-append_of_length hb rest n e, sound.verify-sign hb) refl

    counted :
        (verify_signatures : Bool) (h : StoreHeader U)
        → IsCanonical h.num_entries_before
        → IsCanonical h.num_entries
        → 1 ≤ value h.num_entries
        → Returns
            (IsRange
              (value h.num_entries_before)
              (value h.num_entries_before + value h.num_entries - 1))
            (range_of crypto verify_signatures same h)
    unfolding range_of UintN.one value
    counted verify_signatures h c k one =
        let (d, e, r) =
          Returns-eq _ (sub h.num_entries UintN.one)
            (sub_lem h.num_entries UintN.one k (omega arith) (omega (arith, one))) in
        let (s, t) = add_lem h.num_entries_before d c r.1 in
        rw (e) (ground (arith, is_zero_lem h.num_entries, one, r, s, t))

    -- With sound cryptography, for a file whose header fits into the bytes that are read, and that holds an
    -- entry, with counts in canonical form: the range that `read_range_from_fs` finds in the store
    -- file that was written begins with the number of entries before the file and ends with the id that
    -- `process_entry` records as its last, whether signatures are verified or not.
    pub read_range_from_fs-last_id_of :
        (compression : CompressionType) (encryption : EncryptionType) (wal_data : WalContent U)
        (bytes : List ℕ) (verify_signatures : Bool)
        → IsWritable (header_for crypto codecs sound compression encryption wal_data)
        → Header.size (header_for crypto codecs sound compression encryption wal_data) ≤ 104
        → IsCanonical wal_data.entries_before
        → IsCanonical wal_data.num_entries
        → 1 ≤ value wal_data.num_entries
        → Returns
            (λ last_id. Returns (IsRange (value wal_data.entries_before) (value last_id)) (
              read_range_from_fs crypto verify_signatures same
                (contents (store_file_bytes crypto codecs compression encryption wal_data bytes))))
            (last_id_of wal_data)
    unfolding read_range_from_fs store_file_bytes last_id_of check_header Authentication.new
        Header.new
    read_range_from_fs-last_id_of compression encryption wal_data bytes verify_signatures w short h
          k one =
        let hb = header_part crypto codecs sound compression encryption wal_data in
        let a = Authentication.new (crypto.sign hb) (crypto.sign bytes) in
        let ab = (Authentication.write_to_bytes a []).0 in
        let lh = sound.length-sign hb in
        let lc = sound.length-sign bytes in
        let la = length-authentication a lh lc in
        let lb = length-header (header_for crypto codecs sound compression encryption wal_data) in
        let rest = take (256 - length ab - length hb) bytes in
        let (r, e, rr) = Returns-eq _ (Header.from_bytes {U = U} (hb ++ rest)) (
          from_bytes-written (header_for crypto codecs sound compression encryption wal_data) rest
            w) in
        let n : r.1 ≡ length hb = rr.5 ∙ sym lb in
        let (last, el, rl) =
          Returns-eq _ (sub (add wal_data.entries_before wal_data.num_entries) UintN.one)
            (ends wal_data.entries_before wal_data.num_entries h k one) in
        let found = counted verify_signatures r.0 rr.3.1 rr.4.1 (omega (arith, rr, one)) in
        rw
          (
            el,
            take-parts ab hb bytes 256 (omega (arith, la, lb, short)),
            authentication_round_trip a (hb ++ rest) lh lc,
            drop-append_of_length ab (hb ++ rest) 152 (sym la),
            e,
          )
          (ground (arith, checked verify_signatures hb rest bytes r.1 n, found, rl, rr))
