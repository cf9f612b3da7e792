-- ===== src/Wal/Reader/Recovery.antt =====
-- `normfs-wal/src/reader.rs`: reading back a file whose last entry was torn off.
use normfs.Prelude.{
  ◌+◌, ◌^◌, ◌≤◌, ◌<◌, ◌≡◌, ◌∷◌, ◌++◌, [], ℕ, suc, refl, sym, ap, inl, inr, some, List, append_assoc,
  arith, length, take, drop, All, length-append, length-drop, ok, Returns-eq, zero,
}
use normfs.UBig.{UBig}
use normfs.Wal.Header.RoundTrip.{
  header_bytes, IsWritable, write_to_bytes_lem, from_bytes-write_to_bytes,
}
use normfs.Wal.Header
use normfs.UintN.Codec.Slices.{drop-append_of_length}
use normfs.UintN.{value, Represents}
use normfs.UintN.{UintN, from_u64}
use normfs.UintN.Value.{from_u64_lem}
use normfs.Wal.Header.{WalHeader}
use normfs.Wal.Stream.Shrink.{record_at-le}
use normfs.Wal.Reader.{content_loop, get_wal_content, contents, WalContent}
use normfs.Wal.Reader.Log.{
  record_bytes, log_bytes, EntryFits, header_length, size_lem, read_whole, read_torn,
}

module _ {U : Type 0} ⦃b : UBig U⦄ (xxh64 : List ℕ → ℕ) where
  content_loop_lem :
      (fuel : ℕ) (w : WalHeader U) (content : List ℕ) (cursor count : ℕ)
      (es : List (UintN U × List ℕ)) (e : UintN U × List ℕ) (k : ℕ)
      → All (EntryFits xxh64 w) es
      → EntryFits xxh64 w e
      → k < length (record_bytes xxh64 w e)
      → length content < 2 ^ 63
      → cursor ≤ length content
      → drop cursor content ≡ log_bytes xxh64 w es ++ take k (record_bytes xxh64 w e)
      → length es < fuel
      → content_loop xxh64 fuel w content cursor count ≡ some (ok (count + length es))
  unfolding content_loop
  content_loop_lem zero w content cursor count es e k fs f torn small le stands enough =
      absurd (omega arith)
  content_loop_lem (suc fuel) w content cursor count [] e k fs f torn small le stands enough =
      let (s, n) = size_lem xxh64 w e f in
      elim (read_torn xxh64 w e content cursor k f small torn stands) [
        | inl short ↦ ground (arith, short)
        | inr (h, q, gone, same) ↦ ground (arith, q, gone, s)
      ]
  content_loop_lem (suc fuel) w content cursor count (x ∷ es) e k (fx, fs) f torn small le stands
        enough =
      let rest = log_bytes xxh64 w es ++ take k (record_bytes xxh64 w e) in
      let apart =
        append_assoc (record_bytes xxh64 w x) (log_bytes xxh64 w es)
          (take k (record_bytes xxh64 w e)) in
      let (s, n) = size_lem xxh64 w x fx in
      let (h, next, q, r, behind, is_id) =
        read_whole xxh64 w x content rest cursor fx small (rw stands apart) in
      let (forth, inside) = record_at-le xxh64 h content x.1 (cursor + header_length w) next r in
      let again =
        content_loop_lem fuel w content next (count + 1) es e k fs f torn small inside behind
          (omega arith) in
      let total = ap length stands in
      let parts = length-append (record_bytes xxh64 w x) rest in
      ground (arith, s, q, r, again, n, total, apart, parts, length-drop cursor content)

  pub resized-Fits :
      (h : WalHeader U) (v : UintN U) (e : UintN U × List ℕ)
      → EntryFits xxh64 h e
      → EntryFits xxh64 (record h { num_entries_before = v }) e
  resized-Fits h v e (f, small) = (
    record {
      id = f.id;
      id_size = f.id_size;
      id_fits = f.id_fits;
      record_size = f.record_size;
      data_size = f.data_size;
      record_fits = f.record_fits;
      hash = f.hash;
    },
    small,
  )

  pub resized-All :
      (h : WalHeader U) (v : UintN U) (es : List (UintN U × List ℕ))
      → All (EntryFits xxh64 h) es
      → All (EntryFits xxh64 (record h { num_entries_before = v })) es
  resized-All h v [] fs = tt
  resized-All h v (e ∷ es) (f, fs) = (resized-Fits h v e f, resized-All h v es fs)

  pub log_bytes-resized :
      (h : WalHeader U) (v : UintN U) (es : List (UintN U × List ℕ))
      → log_bytes xxh64 (record h { num_entries_before = v }) es ≡ log_bytes xxh64 h es
  log_bytes-resized h v [] = refl
  log_bytes-resized h v (e ∷ es) =
      ap (λ bs. record_bytes xxh64 h e ++ bs) (log_bytes-resized h v es)

  length-log_bytes :
      (h : WalHeader U) (es : List (UintN U × List ℕ))
      → All (EntryFits xxh64 h) es
      → length es ≤ length (log_bytes xxh64 h es)
  length-log_bytes h [] fs = omega arith
  length-log_bytes h (e ∷ es) (f, fs) = omega (
    arith,
    (size_lem xxh64 h e f).1,
    length-log_bytes h es fs,
    length-append (record_bytes xxh64 h e) (log_bytes xxh64 h es),
  )

  pub size_le : (h : WalHeader U) → 32 ≤ Header.size h
  unfolding Header.size
  size_le h = omega arith

  -- The header of a file is read back, and the log stands behind it.
  pub header_of_file :
      (h : WalHeader U) (rest : List ℕ)
      → IsWritable h
      → (v : UintN U) × (Header.from_bytes (header_bytes h ++ rest)
          ≡ ok (record h { num_entries_before = v }, Header.size h))
        × Represents v (value h.num_entries_before)
        × (drop (Header.size h) (header_bytes h ++ rest) ≡ rest)
        × (Header.size h ≤ length (header_bytes h ++ rest))
  header_of_file h rest writable =
      let (written, n) = write_to_bytes_lem h [] in
      let ((w, m), q, same) =
        Returns-eq _ (Header.from_bytes {U = U} ((Header.write_to_bytes h []).0 ++ rest))
          (from_bytes-write_to_bytes h rest writable) in
      (
        w.num_entries_before,
        rw (← ap (λ r. r.0) written) (ground (arith, q, same)),
        same.2,
        drop-append_of_length (header_bytes h) rest (Header.size h) (sym n),
        omega (arith, n, length-append (header_bytes h) rest),
      )

  -- The bytes of a file: its header, the entries, and `k` bytes of one more entry.
  abbrev pub torn_file : WalHeader U → List (UintN U × List ℕ) → UintN U × List ℕ → ℕ → List ℕ
  torn_file h es e k = header_bytes h ++ (log_bytes xxh64 h es ++ take k (record_bytes xxh64 h e))

  -- In a file of less than 2^63 bytes that holds entries which fit its header, and of one more
  -- entry a part that is shorter than the entry, `get_wal_content` counts exactly the whole
  -- entries, given more fuel than there are entries, and returns all the bytes and the number of
  -- entries that came before the file.
  pub get_wal_content-log :
      (fuel : ℕ) (h : WalHeader U) (es : List (UintN U × List ℕ)) (e : UintN U × List ℕ) (k : ℕ)
      (file_id : UintN U)
      → IsWritable h
      → All (EntryFits xxh64 h) es
      → EntryFits xxh64 h e
      → k < length (record_bytes xxh64 h e)
      → length (torn_file h es e k) < 2 ^ 63
      → length es < fuel
      → (c : WalContent U) × (get_wal_content xxh64 fuel (contents (torn_file h es e k)) file_id
          ≡ some (ok c))
        × Represents c.entries_before (value h.num_entries_before)
        × Represents c.num_entries (length es)
        × (c.content ≡ torn_file h es e k)
  unfolding get_wal_content
  get_wal_content-log fuel h es e k file_id writable fs f torn small enough =
      let file = torn_file h es e k in
      let rest = log_bytes xxh64 h es ++ take k (record_bytes xxh64 h e) in
      let (v, q, before, stands, inside) = header_of_file h rest writable in
      let w = record h { num_entries_before = v } in
      let same = log_bytes-resized h v es in
      let loop =
        content_loop_lem fuel w file (Header.size h) 0 es e k (resized-All h v es fs)
          (resized-Fits h v e f) torn small inside (rw (same, stands) refl) enough in
      let least = length-log_bytes h es fs in
      let parts = length-append (log_bytes xxh64 h es) (take k (record_bytes xxh64 h e)) in
      let all = length-append (header_bytes h) rest in
      let c : WalContent U = record {
        entries_before = v;
        num_entries = from_u64 (length es);
        content = file;
      } in
      (
        c,
        ground (arith, q, loop, inside, size_le h),
        before,
        from_u64_lem U (length es) (omega (arith, least, parts, all)),
        refl,
      )
