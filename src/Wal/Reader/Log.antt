-- ===== src/Wal/Reader/Log.antt =====
-- `normfs-wal/src/wal_entry.rs` and `reader.rs`: the log of a file, as `writer.rs` appends it, and
-- reading its next record.
use normfs.Prelude.{
  ◌+◌, ◌-◌, ◌^◌, ◌≤◌, ◌<◌, ◌≡◌, ◌⊎◌, ◌∷◌, ◌++◌, [], ℕ, suc, refl, sym, ap, inl, inr, List,
  append_assoc, arith, length, take, drop, length-append, length-take, length-drop, take-append,
  drop-append, ok, err, Returns-eq, zero, drop-drop,
}
use normfs.Wal.Stream.Agree.{from_bytes_short}
use normfs.UintN.Codec.Slices.{drop-append_of_length}
use normfs.Wal.Stream.{record_at}
use native.Mathlib.Decide.{dec_lt}
use normfs.UBig.{UBig}
use normfs.UintN.{UintN, to_u64, value, Represents}
use normfs.UintN.Value.{IsCanonical-IsInRange, from_u64_lem, to_u64_lem}
use normfs.Wal.Header.{WalHeader}
use normfs.Wal.Entry.{WalEntryHeader, WalEntryError, new}
use normfs.Wal.Entry
use normfs.Wal.Entry.RoundTrip.{
  entry_bytes, Fits, length-entry_bytes, from_bytes-entry_bytes, write_to_bytes_lem,
}

pub take-append_ge {ℓ} :
    {A : Type ℓ} (xs ys : List A) (k n : ℕ)
    → length xs ≡ n
    → n ≤ k
    → take k (xs ++ ys) ≡ xs ++ take (k - n) ys
take-append_ge [] ys k n e h = ap (λ m. take m ys) (omega (arith, e))
take-append_ge (x ∷ xs) ys zero n e h = absurd (omega (arith, e))
take-append_ge (x ∷ xs) ys (suc k) zero e h = absurd (omega (arith, e))
take-append_ge (x ∷ xs) ys (suc k) (suc n) e h =
    let again = take-append_ge xs ys k n (omega (arith, e)) (omega arith) in
    let same : suc k - suc n ≡ k - n = omega arith in rw same (ap (λ zs. x ∷ zs) again)

abbrev pub header_length : {U : Type 0} → WalHeader U → ℕ
header_length w = 16 + w.id_size_bytes + w.data_size_bytes

module _ {U : Type 0} ⦃b : UBig U⦄ (xxh64 : List ℕ → ℕ) where
  -- The bytes of an entry: its header and its data.
  abbrev pub record_bytes : WalHeader U → UintN U × List ℕ → List ℕ
  record_bytes w (id, bytes) = entry_bytes (new xxh64 id bytes) w ++ bytes

  abbrev pub log_bytes : WalHeader U → List (UintN U × List ℕ) → List ℕ
  log_bytes w [] = []
  log_bytes w (e ∷ es) = record_bytes w e ++ log_bytes w es

  -- The id and the size of the data fit the fields of the file, and the data can be allocated.
  abbrev pub EntryFits : WalHeader U → UintN U × List ℕ → Type 0
  EntryFits w (id, bytes) = Fits (new xxh64 id bytes) w × (length bytes < 2 ^ 63)

  -- What reading the header of an entry gives.
  abbrev pub ReadAs : UintN U × List ℕ → WalEntryHeader U → Type 0
  ReadAs (id, bytes) e =
      Represents e.entry_id (value id)
      × (to_u64 e.record_size ≡ ok (length bytes))
      × (e.xxhash ≡ xxh64 bytes)

  pub size_lem :
      (w : WalHeader U) (e : UintN U × List ℕ)
      → EntryFits w e
      → (Entry.size w ≡ ok (header_length w))
        × (length (record_bytes w e) ≡ header_length w + length e.1)
  size_lem w (id, bytes) (f, small) =
      let n = length-entry_bytes (new xxh64 id bytes) w f in
      (
        rw (← n) ((write_to_bytes_lem (new xxh64 id bytes) [] w f).1),
        omega (arith, n, length-append (entry_bytes (new xxh64 id bytes) w) bytes),
      )

  -- Behind its bytes, anything may stand.
  pub read_header :
      (w : WalHeader U) (e : UintN U × List ℕ) (rest : List ℕ)
      → EntryFits w e
      → (h : WalEntryHeader U) × (Entry.from_bytes (entry_bytes (new xxh64 e.0 e.1) w ++ rest) w
          ≡ ok h)
        × ReadAs e h
  unfolding new
  read_header w (id, bytes) rest (f, small) =
      let (h, q, same) =
        Returns-eq _ (Entry.from_bytes {U = U} (entry_bytes (new xxh64 id bytes) w ++ rest) w)
          (from_bytes-entry_bytes (new xxh64 id bytes) rest w f) in
      let (is_id, is_size, hash) = same in
      let sized = from_u64_lem U (length bytes) (omega arith) in
      let exact = to_u64_lem h.record_size (IsCanonical-IsInRange h.record_size is_size.1) in
      (h, q, (is_id, ground (arith, exact, is_size.0, sized.0), hash))

  -- At a cursor where an entry stands whole, the entry is read, and the cursor moves behind it.
  pub read_whole :
      (w : WalHeader U) (e : UintN U × List ℕ) (content rest : List ℕ) (cursor : ℕ)
      → EntryFits w e
      → length content < 2 ^ 63
      → drop cursor content ≡ record_bytes w e ++ rest
      → (h : WalEntryHeader U) × (next : ℕ) × (Entry.from_bytes (drop cursor content) w ≡ ok h)
        × (record_at xxh64 h content (cursor + header_length w) ≡ ok (e.1, next))
        × (drop next content ≡ rest)
        × ReadAs e h
  unfolding record_at
  read_whole w (id, bytes) content rest cursor f small stands =
      let header = entry_bytes (new xxh64 id bytes) w in
      let apart : drop cursor content ≡ header ++ (bytes ++ rest) =
        rw (stands, append_assoc header bytes rest) refl in
      let (h, q, same) = read_header w (id, bytes) (bytes ++ rest) f in
      let n = length-entry_bytes (new xxh64 id bytes) w f.0 in
      let behind : drop (cursor + header_length w) content ≡ bytes ++ rest =
        rw
          (
            drop-drop cursor (header_length w) content,
            apart,
            drop-append_of_length header (bytes ++ rest) (header_length w) (sym n),
          )
          refl in
      let last : drop (cursor + header_length w + length bytes) content ≡ rest =
        rw
          (
            drop-drop (cursor + header_length w) (length bytes) content,
            behind,
            drop-append bytes rest,
          )
          refl in
      let room = length-drop cursor content in
      let total = ap length apart in
      (
        h,
        cursor + header_length w + length bytes,
        rw apart q,
        ground (
          arith,
          same,
          behind,
          take-append bytes rest,
          room,
          total,
          n,
          length-append header (bytes ++ rest),
          length-append bytes rest,
        ),
        last,
        same,
      )

  -- Where an entry is torn off, its header does not parse, or its data is not there.
  pub read_torn :
      (w : WalHeader U) (e : UintN U × List ℕ) (content : List ℕ) (cursor k : ℕ)
      → EntryFits w e
      → length content < 2 ^ 63
      → k < length (record_bytes w e)
      → drop cursor content ≡ take k (record_bytes w e)
      → (Entry.from_bytes {U = U} (drop cursor content) w ≡ err WalEntryError.slice_too_short)
        ⊎ ((h : WalEntryHeader U) × (Entry.from_bytes (drop cursor content) w ≡ ok h)
            × (record_at xxh64 h content (cursor + header_length w) ≡ err tt)
            × ReadAs e h)
  unfolding record_at
  read_torn w (id, bytes) content cursor k f small torn stands =
      let header = entry_bytes (new xxh64 id bytes) w in
      let n = length-entry_bytes (new xxh64 id bytes) w f.0 in
      let (s, whole) = size_lem w (id, bytes) f in
      let left = ap length stands in
      let cut = length-take k (record_bytes w (id, bytes)) in
      elim (dec_lt k (header_length w)) [
        | yes short ↦ inl (
            from_bytes_short (header_length w) (drop cursor content) w s (omega (arith, left, cut)))
        | no parsed ↦
            let apart : drop cursor content ≡ header ++ take (k - header_length w) bytes =
              rw stands (take-append_ge header bytes k (header_length w) n (omega arith)) in
            let (h, q, same) = read_header w (id, bytes) (take (k - header_length w) bytes) f in
            inr (
              h,
              rw apart q,
              ground (arith, same, left, cut, whole, length-drop cursor content),
              same,
            )
      ]
