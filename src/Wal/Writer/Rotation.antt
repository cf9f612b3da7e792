-- ===== src/Wal/Writer/Rotation.antt =====
-- `normfs-wal/src/writer.rs`: one entry is written, to the current file or to the next one.
use normfs.Prelude.{
  ◌+◌, ◌^◌, ◌<◌, ◌≡◌, ◌∙◌, ◌∷◌, ◌++◌, [], ℕ, suc, refl, sym, ap, true, some, List, map, append-nil,
  arith, length, last, length-append, All-append, ok,
}
use mathlib.Core.Path.{subst}
use normfs.Wal.Writer.{WriterState, next_header, wal_file, finished}
use normfs.Wal.AckFile.{AckFileWriter, Attempt}
use normfs.Wal.AckFile.Runs.{write-Holds, opened-Holds}
use normfs.Wal.AckFile.Closed.{close-IsWhole, IsWhole}
use normfs.Wal.AckFile.Holds.{Holds, last-same}
use normfs.Wal.AckFile.Attempts.{IsClean, Succeeds}
use normfs.Wal.Reader.Log.{EntryFits, record_bytes}
use normfs.Wal.Entry.Capacity.{can_hold_entry_writes, new-Fits}
use normfs.Wal.Header.RoundTrip.{header_bytes, write_to_bytes_lem}
use normfs.Wal.Buffer.Release.{IsCounted}
use normfs.UintN.{value}
use normfs.Wal.Writer.Capacity.{next_header_lem}
use normfs.Wal.Writer.Logged.{
  IsLogged, IsReliable, IsEntry, IsHeader, Begins, FileLog, all_items, all_items-append,
  all_items-left, item_acks, item_acks-append, writings, writings-append, bytes_of-writings,
  acks_of-writings, writings-HasBytes, file_bytes,
}
use normfs.Wal.Reader.Log.{record_bytes}
use normfs.Wal.Writer.Logged.{FileLog, IsHeader, IsLogged, IsReliable, IsEntry}
use normfs.Wal.Writer.{
  Disk, append_entry, Item, rotate, appended, moved, new_file_writer, file_settings, increment,
  left,
}
use normfs.Wal.Header.{WalHeader}
use normfs.UBig.{UBig}
use normfs.Wal.AckFile
use normfs.Wal.Header

map-append {ℓ κ} :
    {A : Type ℓ} {B : Type κ} (f : A → B) (xs ys : List A) → map f (xs ++ ys) ≡ map f xs ++ map f ys
map-append f [] ys = refl
map-append f (x ∷ xs) ys = rw (map-append f xs ys) refl

module _ {Q U : Type 0} ⦃b : UBig U⦄ (xxh64 : List ℕ → ℕ)
    (xxh64_bound : (bs : List ℕ) → xxh64 bs < 2 ^ 64) (q : Q) (base : ℕ) where
  held_fits :
      (header : WalHeader U) (entry : Item U)
      → IsHeader header
      → IsEntry entry
      → Header.can_hold_entry header entry.0 (length entry.1) ≡ true
      → EntryFits xxh64 header entry
  held_fits header (id, contents) k e held = (
    new-Fits xxh64 xxh64_bound header id contents k.id_size k.data_size e.id
        (omega (arith, e.small)) held,
    e.small,
  )

  -- The entry follows those that are there.
  abbrev pub after : Item U → WriterState Q U → WriterState Q U
  after entry s = appended xxh64 entry.0 (record_bytes xxh64 s.header entry) s

  pub append_entry_lem :
      (entry : Item U) (s : WriterState Q U)
      → IsHeader s.header
      → IsEntry entry
      → Header.can_hold_entry s.header entry.0 (length entry.1) ≡ true
      → append_entry xxh64 entry s ≡ (after entry s, ok tt)
  unfolding append_entry
  append_entry_lem (id, contents) s k e held =
      ap (λ r. finished xxh64 (id, contents) s r)
        (can_hold_entry_writes xxh64 xxh64_bound s.header id contents [] k.id_size k.data_size e.id
          (omega (arith, e.small)) held)

  pub append-IsCounted :
      (n : ℕ) (entries : List (Item U)) (entry : Item U)
      → IsCounted n entries
      → value entry.0 ≡ n + length entries
      → IsCounted n (entries ++ (entry ∷ []))
  append-IsCounted n [] entry h e = (omega (arith, e), tt)
  append-IsCounted n (x ∷ entries) entry h e =
      (h.0, append-IsCounted (suc n) entries entry h.1 (omega (arith, e)))

  Begins-append :
      (n : ℕ) (header : WalHeader U) (entries : List (Item U)) (entry : Item U)
      → Begins n header entries
      → value entry.0 ≡ n
      → Begins (suc n) header (entries ++ (entry ∷ []))
  Begins-append n header [] entry h e = h ∙ sym e
  Begins-append n header (x ∷ entries) entry h e = h

  after-Holds :
      (entries : List (Item U)) (entry : Item U) (s : WriterState Q U)
      → s.queue_id ≡ q
      → Holds (header_bytes s.header) (writings xxh64 q s.header entries) s.file_writer
      → Holds
          (header_bytes s.header)
          (writings xxh64 q s.header (entries ++ (entry ∷ [])))
          (after entry s).file_writer
  after-Holds entries entry s same h =
      let bytes = record_bytes xxh64 s.header entry in
      subst
        (λ k.
          Holds (header_bytes s.header) (writings xxh64 q s.header (entries ++ (entry ∷ [])))
            (AckFile.write k entry.0 bytes s.file_writer))
        (sym same)
        (rw (writings-append xxh64 q s.header entries (entry ∷ [])) (
          write-Holds (header_bytes s.header) (writings xxh64 q s.header entries) s.file_writer q
            entry.0 bytes h))

  pub after-IsLogged :
      (files : List (FileLog U)) (entries : List (Item U)) (n : ℕ) (entry : Item U)
      (s : WriterState Q U)
      → IsLogged xxh64 q base files entries n s
      → IsEntry entry
      → Header.can_hold_entry s.header entry.0 (length entry.1) ≡ true
      → value entry.0 ≡ n
      → IsLogged xxh64 q base files (entries ++ (entry ∷ [])) (suc n) (after entry s)
  unfolding AckFile.write
  after-IsLogged files entries n entry s l e held is_next = record {
    queue = l.queue;
    fsync = l.fsync;
    running = l.running;
    counted =
        rw (all_items-append files entries (entry ∷ []))
          (append-IsCounted base (all_items files entries) entry l.counted (is_next ∙ l.next));
    next =
        rw (all_items-append files entries (entry ∷ []))
          (omega (arith, l.next, length-append (all_items files entries) (entry ∷ [])));
    left_files = l.left_files;
    reported = l.reported;
    acknowledged = l.acknowledged;
    are_files = l.are_files;
    header = l.header;
    fit = All-append _ entries (entry ∷ []) l.fit (held_fits s.header entry l.header e held, tt);
    begins = Begins-append n s.header entries entry l.begins is_next;
    current = after-Holds entries entry s l.queue l.current;
  }

  -- The file that is current, with its entries.
  abbrev pub current_log : WriterState Q U → List (Item U) → FileLog U
  current_log s entries = record { file_id = s.file_id; header = s.header; entries = entries }

  abbrev next_writer : Item U → WriterState Q U → AckFileWriter Q U
  next_writer entry s =
      AckFile.opened (file_settings s.settings)
        (header_bytes (next_header s.header entry.0 (length entry.1)))

  module _ (disk : Disk U) where
    abbrev pub rotated : Item U → WriterState Q U → WriterState Q U
    rotated entry s = moved s.file_id (next_writer entry s) (left disk entry.0 (length entry.1) s)

    opens :
        (entry : Item U) (s : WriterState Q U)
        → disk.creates (increment s.file_id) ≡ true
        → new_file_writer {Q = Q} disk
            (increment s.file_id)
            (next_header s.header entry.0 (length entry.1))
            s.settings
          ≡ some (next_writer entry s)
    unfolding new_file_writer AckFile.new
    opens entry s creates =
        let bytes = (write_to_bytes_lem (next_header s.header entry.0 (length entry.1)) []).0 in
        rw (creates, bytes) refl

    pub rotate_lem :
        (entry : Item U) (s : WriterState Q U)
        → disk.creates (increment s.file_id) ≡ true
        → rotate disk entry.0 (length entry.1) s ≡ (rotated entry s, ok tt)
    unfolding rotate
    rotate_lem entry s creates = rw (rotate, opens entry s creates) refl

    -- Closing the current file leaves all of its entries in it.
    closes :
        (files : List (FileLog U)) (entries : List (Item U)) (n : ℕ) (s : WriterState Q U)
        → IsReliable s.settings.enable_fsync disk
        → IsLogged xxh64 q base files entries n s
        → IsWhole
            (header_bytes s.header)
            (writings xxh64 q s.header entries)
            (AckFile.close (disk.pending s.file_id) (disk.final s.file_id) s.file_writer)
    closes files entries n s good l =
        let clean = λ (io : ℕ → Attempt) (h : (k : ℕ) → IsClean s.settings.enable_fsync (io k)).
          subst (λ f. (k : ℕ) → IsClean f (io k)) (sym l.fsync) h in
        let r =
          close-IsWhole (header_bytes s.header) (writings xxh64 q s.header entries) s.file_writer
            (disk.pending s.file_id) (disk.final s.file_id) l.current
            (writings-HasBytes xxh64 q s.header entries l.fit) l.running
            (clean (disk.pending s.file_id) (good.pending s.file_id))
            (clean (disk.final s.file_id) (good.final s.file_id))
            (subst (λ f. Succeeds f (disk.final s.file_id)) (sym l.fsync)
              (good.succeeds s.file_id)) in
        r.0

    -- With the current file the files are all there, and their last entry has been acknowledged.
    pub one_more :
        (files : List (FileLog U)) (entries : List (Item U)) (n : ℕ) (s : WriterState Q U)
        → IsReliable s.settings.enable_fsync disk
        → IsLogged xxh64 q base files entries n s
        → let w = AckFile.close (disk.pending s.file_id) (disk.final s.file_id) s.file_writer in
          (s.left_files ++ ((s.file_id, w.file) ∷ [])
            ≡ map (file_bytes xxh64 q) (files ++ (current_log s entries ∷ [])))
          × (last (s.acknowledged ++ w.sent)
              ≡ last (item_acks q (all_items (files ++ (current_log s entries ∷ [])) [])))
    one_more files entries n s good l =
        let log = current_log s entries in
        let whole = closes files entries n s good l in
        let w = AckFile.close (disk.pending s.file_id) (disk.final s.file_id) s.file_writer in
        (
          rw
              (
                map-append (file_bytes xxh64 q) files (log ∷ []),
                l.left_files,
                whole.in_file,
                bytes_of-writings xxh64 q s.header entries,
              )
              refl,
          rw
              (
                all_items-left files log [],
                append-nil entries,
                all_items-append files [] entries,
                item_acks-append q (all_items files []) entries,
              )
              (last-same s.acknowledged w.sent (item_acks q (all_items files []))
                (item_acks q entries) l.acknowledged
                (whole.acknowledged ∙ ap last (acks_of-writings xxh64 q s.header entries))),
        )

    pub rotated-IsLogged :
        (files : List (FileLog U)) (entries : List (Item U)) (n : ℕ) (entry : Item U)
        (s : WriterState Q U)
        → IsReliable s.settings.enable_fsync disk
        → IsLogged xxh64 q base files entries n s
        → IsEntry entry
        → value entry.0 ≡ n
        → IsLogged xxh64 q base (files ++ (current_log s entries ∷ [])) [] n (rotated entry s)
    rotated-IsLogged files entries n entry s good l e is_next =
        let log = current_log s entries in
        let (there, told) = one_more files entries n s good l in
        let items : all_items (files ++ (log ∷ [])) [] ≡ all_items files entries =
          rw (all_items-left files log [], append-nil entries) refl in
        record {
          queue = l.queue;
          fsync = refl;
          running = refl;
          counted = rw items l.counted;
          next = rw items l.next;
          left_files = there;
          reported =
              rw
                (
                  map-append (λ f. f.file_id) s.wal_complete (wal_file s ∷ []),
                  map-append (λ f. f.file_id) files (log ∷ []),
                  l.reported,
                )
                refl;
          acknowledged = told;
          are_files =
              All-append _ files (log ∷ []) l.are_files ((l.header, l.fit, (n, l.begins)), tt);
          header = (next_header_lem s.header entry l.header e).0;
          fit = tt;
          begins = is_next;
          current = opened-Holds _ (file_settings s.settings);
        }
