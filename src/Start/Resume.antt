-- ===== src/Start/Resume.antt =====
-- `normfs/src/lib.rs` with `normfs-wal/src`: a queue that was closed goes on at the next start.
use normfs.Prelude.{
  ◌+◌, ◌*◌, ◌/◌, ◌^◌, ◌≤◌, ◌<◌, ◌≡◌, ◌∷◌, ◌==◌, if◌then◌else◌, [], ℕ, max, refl, true, false, none,
  some, List, append-nil, arith, length, All, ok,
}
use normfs.UintN.Value.{IsCanonical-IsInRange}
use normfs.Wal.Entry.RoundTrip.{size_bound}
use normfs.UintN.Arith.Sum.{increment_lem}
use normfs.Wal.Store.{start_writer, insert}
use normfs.Start.{
  Sources, start_queue, start_at, get_latest_file, get_file_end_all_sources, header_of, UintN,
  WalHeader,
}
use normfs.UintN.Arith.{increment}
use normfs.Wal.Reader.{contents}
use normfs.UintN.Codec.{is_valid_data_size, size_in_bytes}
use normfs.UintN.{IsCanonical, value, Represents}
use normfs.Wal.Buffer.{SortById, Item}
use normfs.UBig.{UBig}
use normfs.Wal.Header
use normfs.Wal.Writer
use mathlib.Core.Path.{subst}
use normfs.Mem
use normfs.Wal.Writer.{WriterState, Disk, WalSettings}
use normfs.Wal.Writer.Turns.{IsWriting}
use normfs.Wal.Writer.Files.{started, new-IsWriting}
use normfs.Wal.Writer.Logged.{FileLog, IsFile, IsHeader, file_bytes}
use normfs.Mem.Store.{MemStore, get}
use normfs.Wal.Store.{Directory, Writers, get_file_end}
use normfs.Start.Walk.{NothingIn, continue_queue-found}
use normfs.Wal.Reader.Span.{get_wal_range-log, last_of, Spans}
use normfs.Wal.Reader.Log.{EntryFits, log_bytes, size_lem}

module _ {Q U : Type 0} ⦃b : UBig U⦄ (xxh64 : List ℕ → ℕ) (q : Q) where
  -- The end of a file that a writer left, with more fuel than it has entries and a header within the
  -- limit of 10 MiB, is the id of its last entry.
  pub file-get_file_end :
      (fuel : ℕ) (dir : Directory U) (file : FileLog U) (entry : Item U) (rest : List (Item U))
      → IsFile xxh64 q file
      → file.entries ≡ entry ∷ rest
      → dir.file file.file_id ≡ contents (file_bytes xxh64 q file).1
      → Header.size file.header ≤ 32 + 10 * 1024 * 1024
      → length (file_bytes xxh64 q file).1 < 2 ^ 63
      → length file.entries < fuel
      → (last_id : UintN U) × Represents last_id (value (last_of xxh64 entry.0 rest))
        × (get_file_end xxh64 fuel dir file.file_id ≡ some (ok (some last_id)))
  unfolding get_file_end
  file-get_file_end fuel dir file entry rest (header, fit, begins) e there limit small enough =
      let first_fits = (subst (λ es. All (EntryFits xxh64 file.header) es) e fit).0 in
      let (v, r, read, before, spans) =
        get_wal_range-log xxh64 fuel file.header file.entries entry 0 file.file_id header.writable
          limit fit first_fits (omega (arith, (size_lem xxh64 file.header entry first_fits).1))
          (rw (append-nil (log_bytes xxh64 file.header file.entries)) small) enough in
      let (first_id, last_id, same, is_first, is_last) = subst (λ es. Spans xxh64 es r) e spans in
      let whole = append-nil (log_bytes xxh64 file.header file.entries) in
      (last_id, is_last, rw (there, ← whole, read, same) refl)

module _ {U : Type 0} ⦃b : UBig U⦄ where
  -- The sizes of the fields are those that a header allows.
  abbrev pub HasSizes : WalHeader U → Type 0
  HasSizes header =
      (is_valid_data_size header.id_size_bytes ≡ true)
      × (is_valid_data_size header.data_size_bytes ≡ true)

  next_IsHeader :
      (header : WalHeader U) (last_entry_id : UintN U)
      → HasSizes header
      → IsCanonical last_entry_id
      → 8 + size_in_bytes (increment last_entry_id) < 2 ^ 64
      → IsHeader (record header { num_entries_before = increment last_entry_id })
  next_IsHeader header last_entry_id sizes c countable = record {
    id_size = sizes.0;
    data_size = sizes.1;
    writable = record {
      data_size = omega (arith, size_bound header.data_size_bytes sizes.1);
      id_size = omega (arith, size_bound header.id_size_bytes sizes.0);
      entries = IsCanonical-IsInRange (increment last_entry_id) (increment_lem last_entry_id c).1;
      countable = countable;
    };
  }

first_key :
    {Q A : Type 0} (same : Discrete Q) (queue : Q) (x y : A)
    → elim (same queue queue) [ yes e ↦ x | no n ↦ y ] ≡ x
first_key same queue x y = elim (same queue queue) as (λ d. elim d [ yes e ↦ x | no n ↦ y ] ≡ x) [
  | yes e ↦ refl
  | no n ↦ absurd (n refl)
]

get_first :
    {Q V : Type 0} (same : Discrete Q) (queue : Q) (v : V) (m : List (Q × V))
    → get same queue ((queue, v) ∷ m) ≡ some v
unfolding get
get_first same queue v m = first_key same queue (some v) (get same queue m)

module _ {Q U W : Type 0} ⦃b : UBig U⦄ (xxh64 : List ℕ → ℕ)
    (xxh64_bound : (bs : List ℕ) → xxh64 bs < 2 ^ 64) (sort : SortById U) (same : Discrete Q)
    (disk : Disk U) (dir : Directory U) (sources : Sources U) where
  starts :
      (queue : Q) (settings : WalSettings) (writers : Writers Q U) (mem : MemStore Q U W)
      (file_id : UintN U) (header : WalHeader U) (last_entry_id : UintN U) (s : WriterState Q U)
      → dir.create_dir_all ≡ true
      → Writer.new disk queue file_id header settings (some last_entry_id) ≡ ok s
      → some (
          start_at same disk dir sources false queue settings writers mem
            (file_id, header, some last_entry_id))
        ≡ some (
            ok (
              some s,
              insert same queue (record { requests = []; receiving = true }) writers,
              Mem.Store.start_queue same queue (some last_entry_id) mem,
            ))
  unfolding start_writer start_at Mem.Store.start_queue
  starts queue settings writers mem file_id header last_entry_id s made opened =
      rw (made, opened) refl

  kept :
      (queue : Q) (last_entry_id : UintN U) (mem : MemStore Q U W)
      → get same queue mem.queues ≡ none
      → Mem.Store.get_last_id same queue (Mem.Store.start_queue same queue (some last_entry_id) mem)
        ≡ some (some last_entry_id)
  unfolding Mem.Store.start_queue Mem.Store.get_last_id Mem.new
  kept queue last_entry_id mem fresh =
      let fresh_store : Mem.Store.start_queue same queue (some last_entry_id) mem ≡ record mem {
        queues =
            (queue, Mem.new (some last_entry_id) (mem.max_memory_usage / max (length mem.queues) 1))
            ∷ mem.queues;
      } =
        rw (Mem.Store.start_queue, fresh) refl in
      rw (fresh_store, get_first) refl

  -- At a start, for a queue that is not in memory, whose last file with an entry is the one with the id
  -- `m`, and whose files can be created: the writer that is started has written nothing, and goes
  -- on with the id after the last one; the memory has the same last id, so that the next entry gets
  -- the id that the writer expects.
  pub start_queue-IsWriting :
      (fuel m : ℕ) (latest last_entry_id : UintN U) (queue : Q) (settings : WalSettings)
      (writers : Writers Q U) (mem : MemStore Q U W)
      → get_latest_file sources ≡ some latest
      → IsCanonical latest
      → 1 ≤ m
      → m ≤ value latest
      → value latest < fuel
      → NothingIn sources m (value latest)
      → ((id : UintN U)
          → IsCanonical id
          → value id ≡ m
          → (get_file_end_all_sources sources id ≡ some last_entry_id)
            × HasSizes (header_of sources id))
      → IsCanonical last_entry_id
      → 8 + size_in_bytes (increment last_entry_id) < 2 ^ 64
      → ((id : UintN U) → disk.creates id ≡ true)
      → dir.create_dir_all ≡ true
      → get same queue mem.queues ≡ none
      → (s : WriterState Q U) × (writers' : Writers Q U) × (mem' : MemStore Q U W) × (start_queue
            same disk dir sources fuel false queue settings writers mem
          ≡ some (ok (some s, writers', mem')))
        × IsWriting xxh64 xxh64_bound sort queue (value last_entry_id + 1) [] s
        × (Mem.Store.get_last_id same queue mem' ≡ some (some last_entry_id))
  unfolding start_queue
  start_queue-IsWriting fuel m latest last_entry_id queue settings writers mem is_latest c pos le
        enough nothing there c_last countable creates made fresh =
      let (id, is, r) =
        continue_queue-found sources fuel m latest last_entry_id is_latest c pos le enough nothing
          (λ i k e. (there i k e).0) in
      let header = record (header_of sources id) { num_entries_before = increment last_entry_id } in
      let file_id = if m == value latest then increment latest else latest in
      let k =
        next_IsHeader (header_of sources id) last_entry_id (there id is.1 is.0).1 c_last
          countable in
      let (opened, w) =
        new-IsWriting xxh64 xxh64_bound queue sort disk file_id header settings (some last_entry_id)
          (creates file_id) k c_last (increment_lem last_entry_id c_last).0 in
      let s =
        started xxh64 xxh64_bound queue sort disk file_id header settings (some last_entry_id) in
      (
        s,
        insert same queue (record { requests = []; receiving = true }) writers,
        Mem.Store.start_queue same queue (some last_entry_id) mem,
        rw r (starts queue settings writers mem file_id header last_entry_id s made opened),
        w,
        kept queue last_entry_id mem fresh,
      )
