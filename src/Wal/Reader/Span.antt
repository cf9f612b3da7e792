-- ===== src/Wal/Reader/Span.antt =====
-- `normfs-wal/src/reader.rs`: the first and the last id of a file whose last entry was torn off.
use normfs.Prelude.{
  ◌+◌, ◌*◌, ◌^◌, ◌≤◌, ◌<◌, ◌≡◌, ◌≢◌, ◌⊎◌, ◌∷◌, ◌++◌, [], ℕ, suc, refl, ap, inl, inr, Option, none,
  some, List, append_assoc, arith, length, take, drop, All, length-append, length-drop, ok, err,
  panic, zero,
}
use normfs.UBig.{UBig}
use normfs.Wal.Entry.RoundTrip.{size_bound}
use normfs.Wal.Entry.{WalEntryError}
use normfs.Wal.Reader.{Ids, range_loop, id_range, get_wal_range, contents}
use normfs.Wal.Header
use normfs.Wal.Header.RoundTrip.{IsWritable}
use normfs.Wal.Reader.Recovery.{
  torn_file, header_of_file, log_bytes-resized, resized-All, resized-Fits, size_le,
}
use native.Mathlib.Decide.{dec_lt}
use normfs.UintN.{UintN, value, Represents}
use normfs.Wal.Header.{WalHeader}
use normfs.Wal.Entry.{WalEntryHeader}
use normfs.Wal.Stream.{allocate, read_exact, entry_from_reader, read_record}
use normfs.Wal.Stream.Agree.{entry_from_reader_lem, record_lem, SameRecord-cases}
use normfs.Wal.Stream.Headers.{header_fits}
use normfs.Wal.Reader.Log.{
  record_bytes, EntryFits, ReadAs, header_length, size_lem, read_whole, read_torn, log_bytes,
}

module _ {U : Type 0} ⦃b : UBig U⦄ (xxh64 : List ℕ → ℕ) where
  no_panic :
      (w : WalHeader U) (e : UintN U × List ℕ) (h : WalEntryHeader U) (reader : List ℕ)
      → ReadAs xxh64 e h
      → EntryFits xxh64 w e
      → read_record xxh64 h reader ≢ panic
  unfolding read_record allocate read_exact
  no_panic w (id, bytes) h reader (is_id, sized, hash) (f, small) p =
      ground (arith, p, sized, small)

  next_whole :
      (w : WalHeader U) (e : UintN U × List ℕ) (reader rest : List ℕ)
      → EntryFits xxh64 w e
      → length reader < 2 ^ 63
      → reader ≡ record_bytes xxh64 w e ++ rest
      → (h : WalEntryHeader U) × (reader1 : List ℕ) × (entry_from_reader reader w ≡ ok (h, reader1))
        × (read_record xxh64 h reader1 ≡ ok (e.1, rest))
        × Represents h.entry_id (value e.0)
  next_whole w e reader rest f small stands =
      let (s, whole) = size_lem xxh64 w e f in
      let (h, next, q, r, left, is_id) = read_whole xxh64 w e reader rest 0 f small stands in
      let total = ap length stands in
      let parts = length-append (record_bytes xxh64 w e) rest in
      let read =
        entry_from_reader_lem (header_length w) reader w s (omega (arith, whole, total, parts)) in
      let enough : header_length w ≤ length reader = omega (arith, whole, total, parts) in
      let after = record_lem xxh64 h reader (header_length w) enough small in
      (
        h,
        drop (header_length w) reader,
        ground (arith, read, q, enough),
        elim (SameRecord-cases reader _ _ after) [
          | inl p ↦ absurd (no_panic w e h (drop (header_length w) reader) is_id f p)
          | inr (inl (p, p')) ↦ ground (arith, r, p')
          | inr (inr (bytes, cursor, p, p', le')) ↦ ground (arith, r, p, p', left)
        ],
        is_id.0,
      )

  next_torn :
      (w : WalHeader U) (e : UintN U × List ℕ) (reader : List ℕ) (k : ℕ)
      → EntryFits xxh64 w e
      → length reader < 2 ^ 63
      → k < length (record_bytes xxh64 w e)
      → reader ≡ take k (record_bytes xxh64 w e)
      → ((x : WalEntryError) × (entry_from_reader {U = U} reader w ≡ err x))
        ⊎ ((h : WalEntryHeader U) × (reader1 : List ℕ) × (entry_from_reader reader w
              ≡ ok (h, reader1))
            × (read_record xxh64 h reader1 ≡ err tt))
  next_torn w e reader k f small torn stands =
      let (s, whole) = size_lem xxh64 w e f in
      let read = entry_from_reader_lem (header_length w) reader w s (
        omega (
          arith,
          size_bound w.id_size_bytes f.0.id_size,
          size_bound w.data_size_bytes f.0.data_size,
        )) in
      elim (read_torn xxh64 w e reader 0 k f small torn stands) [
        | inl q ↦ inl (WalEntryError.slice_too_short, ground (arith, read, q))
        | inr (h, q, r, same) ↦ elim (dec_lt (length reader) (header_length w)) [
          | yes short ↦ inl (WalEntryError.slice_too_short, ground (arith, read, q, short))
          | no enough ↦
              let after = record_lem xxh64 h reader (header_length w) (omega arith) small in
              inr (
                h,
                drop (header_length w) reader,
                ground (arith, read, q, enough),
                elim (SameRecord-cases reader _ _ after) [
                  | inl p ↦ absurd (no_panic w e h (drop (header_length w) reader) same f p)
                  | inr (inl (p, p')) ↦ p
                  | inr (inr (bytes, cursor, p, p', le')) ↦ ground (arith, r, p')
                ],
              )
        ]
      ]

  -- The id of the last entry of a log, `d` for none.
  abbrev pub last_of : UintN U → List (UintN U × List ℕ) → UintN U
  last_of d [] = d
  last_of d (e ∷ es) = last_of e.0 es

  range_loop_lem :
      (fuel : ℕ) (w : WalHeader U) (reader : List ℕ) (d first_id last_id : UintN U)
      (es : List (UintN U × List ℕ)) (e : UintN U × List ℕ) (k : ℕ)
      → All (EntryFits xxh64 w) es
      → EntryFits xxh64 w e
      → k < length (record_bytes xxh64 w e)
      → length reader < 2 ^ 63
      → reader ≡ log_bytes xxh64 w es ++ take k (record_bytes xxh64 w e)
      → length es < fuel
      → Represents last_id (value d)
      → (id : UintN U) × (range_loop xxh64 fuel w reader (some first_id, some last_id)
          ≡ some (ok (some first_id, some id)))
        × Represents id (value (last_of d es))
  unfolding range_loop
  range_loop_lem zero w reader d first_id last_id es e k fs f torn small stands enough is_last =
      absurd (omega arith)
  range_loop_lem (suc fuel) w reader d first_id last_id [] e k fs f torn small stands enough
        is_last =
      (
        last_id,
        elim (next_torn w e reader k f small torn stands) [
          | inl (x, q) ↦ ground (arith, q)
          | inr (h, reader1, q, r) ↦ ground (arith, q, r)
        ],
        is_last,
      )
  range_loop_lem (suc fuel) w reader d first_id last_id (x ∷ es) e k (fx, fs) f torn small stands
        enough is_last =
      let rest = log_bytes xxh64 w es ++ take k (record_bytes xxh64 w e) in
      let apart =
        append_assoc (record_bytes xxh64 w x) (log_bytes xxh64 w es)
          (take k (record_bytes xxh64 w e)) in
      let whole : reader ≡ record_bytes xxh64 w x ++ rest = rw stands apart in
      let (h, reader1, q, r, is_id) = next_whole w x reader rest fx small whole in
      let parts = length-append (record_bytes xxh64 w x) rest in
      let total = ap length whole in
      let (id, again, is) =
        range_loop_lem fuel w rest x.0 first_id h.entry_id es e k fs f torn
          (omega (arith, total, parts)) refl (omega arith) is_id in
      (id, ground (arith, q, r, again), is)

  -- What the ids of a log are: none for an empty log, else those of its first and its last entry.
  abbrev pub Spans : List (UintN U × List ℕ) → Option (UintN U × UintN U) → Type 0
  Spans [] r = r ≡ none
  Spans (e ∷ es) r =
      (first_id : UintN U) × (last_id : UintN U) × (r ≡ some (first_id, last_id))
      × Represents first_id (value e.0)
      × Represents last_id (value (last_of e.0 es))

  log-Spans :
      (fuel : ℕ) (w : WalHeader U) (reader : List ℕ) (es : List (UintN U × List ℕ))
      (e : UintN U × List ℕ) (k : ℕ)
      → All (EntryFits xxh64 w) es
      → EntryFits xxh64 w e
      → k < length (record_bytes xxh64 w e)
      → length reader < 2 ^ 63
      → reader ≡ log_bytes xxh64 w es ++ take k (record_bytes xxh64 w e)
      → length es < fuel
      → (ids : Ids U) × (range_loop xxh64 fuel w reader (none, none) ≡ some (ok ids))
        × Spans es (id_range ids)
  unfolding range_loop id_range
  log-Spans zero w reader es e k fs f torn small stands enough = absurd (omega arith)
  log-Spans (suc fuel) w reader [] e k fs f torn small stands enough =
      elim (next_torn w e reader k f small torn stands) [
        | inl (x, q) ↦ ((none, none), ground (arith, q), refl)
        | inr (h, reader1, q, r) ↦ ((some h.entry_id, none), ground (arith, q, r), refl)
      ]
  log-Spans (suc fuel) w reader (x ∷ es) e k (fx, fs) f torn small stands enough =
      let rest = log_bytes xxh64 w es ++ take k (record_bytes xxh64 w e) in
      let apart =
        append_assoc (record_bytes xxh64 w x) (log_bytes xxh64 w es)
          (take k (record_bytes xxh64 w e)) in
      let whole : reader ≡ record_bytes xxh64 w x ++ rest = rw stands apart in
      let (h, reader1, q, r, is_id) = next_whole w x reader rest fx small whole in
      let parts = length-append (record_bytes xxh64 w x) rest in
      let total = ap length whole in
      let (id, again, is) =
        range_loop_lem fuel w rest x.0 h.entry_id h.entry_id es e k fs f torn
          (omega (arith, total, parts)) refl (omega arith) is_id in
      ((some h.entry_id, some id), ground (arith, q, r, again), (h.entry_id, id, refl, is_id, is))

  -- In a file of less than 2^63 bytes that holds entries which fit its header, and of one more
  -- entry a part that is shorter than the entry, `get_wal_range` reads the header, and finds the
  -- ids of the first and of the last whole entry, or none where no entry is whole. The fuel is
  -- more than the number of entries, and the header is within the limit of 10 MiB.
  pub get_wal_range-log :
      (fuel : ℕ) (h : WalHeader U) (es : List (UintN U × List ℕ)) (e : UintN U × List ℕ) (k : ℕ)
      (file_id : UintN U)
      → IsWritable h
      → Header.size h ≤ 32 + 10 * 1024 * 1024
      → All (EntryFits xxh64 h) es
      → EntryFits xxh64 h e
      → k < length (record_bytes xxh64 h e)
      → length (torn_file xxh64 h es e k) < 2 ^ 63
      → length es < fuel
      → (v : UintN U) × (r : Option (UintN U × UintN U)) × (get_wal_range xxh64 fuel
            (contents (torn_file xxh64 h es e k))
            file_id
          ≡ some (ok (record h { num_entries_before = v }, r)))
        × Represents v (value h.num_entries_before)
        × Spans es r
  unfolding get_wal_range
  get_wal_range-log fuel h es e k file_id writable limit fs f torn small enough =
      let file = torn_file xxh64 h es e k in
      let rest = log_bytes xxh64 h es ++ take k (record_bytes xxh64 h e) in
      let (v, q, before, stands, inside) = header_of_file xxh64 h rest writable in
      let w = record h { num_entries_before = v } in
      let read = header_fits file w (Header.size h) q limit in
      let same = log_bytes-resized xxh64 h v es in
      let left = length-drop (Header.size h) file in
      let (ids, loop, spans) =
        log-Spans fuel w (drop (Header.size h) file) es e k (resized-All xxh64 h v es fs)
          (resized-Fits xxh64 h v e f) torn (omega (arith, left)) (rw (same, stands) refl) enough in
      (v, id_range ids, ground (arith, read, loop, inside, size_le xxh64 h), before, spans)
