-- ===== src/Wal/Writer/Files.antt =====
-- `normfs-wal/src/writer.rs`: the files that a writer leaves.
use normfs.Prelude.{
  ◌^◌, ◌<◌, ◌≡◌, ◌∷◌, ◌++◌, [], ℕ, refl, true, false, Option, List, map, append-nil, arith, last,
  All, All-append, ok,
}
use normfs.Wal.Header.RoundTrip.{header_bytes, write_to_bytes_lem}
use normfs.Wal.Writer.Served.{Served, Served-in_order}
use normfs.UintN.Last.{next_value, IsCanonicalOption}
use normfs.UintN.{value}
use normfs.Wal.Writer.Turns.{IsWriting}
use normfs.Wal.Writer.Logged.{
  FileLog, all_items, file_bytes, IsFile, item_acks, IsReliable, IsHeader, all_items-left,
}
use normfs.Wal.Writer.Rotation.{one_more, current_log}
use normfs.Wal.Buffer
use normfs.Wal.Buffer.Release.{IsCounted}
use normfs.Wal.Writer.Logged.{FileLog, IsFile, IsReliable, file_bytes}
use mathlib.Core.List.{Permᴰ}
use mathlib.Core.List.Permᴰ
use normfs.Wal.Writer
use normfs.Wal.AckFile
use normfs.Wal.Writer.{
  WriterState, Disk, UBig, Item, SortById, UintN, new_file_writer, WalHeader, WalSettings,
  file_settings,
}
use normfs.Wal.AckFile.{AckFileWriter, Attempt, Ack}
use normfs.Wal.AckFile.Runs.{opened-Holds}

module _ {Q U : Type 0} ⦃b : UBig U⦄ (xxh64 : List ℕ → ℕ)
    (xxh64_bound : (bs : List ℕ) → xxh64 bs < 2 ^ 64) (q : Q) where
  module _ (sort : SortById U) (disk : Disk U) where
    abbrev pub started : UintN U → WalHeader U → WalSettings → Option (UintN U) → WriterState Q U
    started file_id header settings last_entry_id = record {
      queue_id = q;
      file_id = file_id;
      header = header;
      settings = settings;
      file_writer = AckFile.opened (file_settings settings) (header_bytes header);
      has_written = false;
      buffer = record { pending = []; last_written_id = last_entry_id };
      wal_complete = [];
      left_files = [];
      acknowledged = [];
    }

    -- A new writer, on a file that can be created, has written nothing, from the id on that comes next.
    pub new-IsWriting :
        (file_id : UintN U) (header : WalHeader U) (settings : WalSettings)
        (last_entry_id : Option (UintN U))
        → disk.creates file_id ≡ true
        → IsHeader header
        → IsCanonicalOption last_entry_id
        → value header.num_entries_before ≡ next_value last_entry_id
        → let s = started file_id header settings last_entry_id in
          (Writer.new disk q file_id header settings last_entry_id ≡ ok s)
          × IsWriting xxh64 xxh64_bound sort q (next_value last_entry_id) [] s
    unfolding Writer.new new_file_writer AckFile.new normfs.Wal.Buffer.new
    new-IsWriting file_id header settings last_entry_id creates k c before = (
      rw (creates, (write_to_bytes_lem header []).0) refl,
      record {
        files = [];
        entries = [];
        logged = record {
          queue = refl;
          fsync = refl;
          running = refl;
          counted = tt;
          next = omega arith;
          left_files = refl;
          reported = refl;
          acknowledged = refl;
          are_files = tt;
          header = k;
          fit = tt;
          begins = before;
          current = opened-Holds (header_bytes header) (file_settings settings);
        };
        valid = record { last = c; items = tt };
        waiting = tt;
        parts = Permᴰ.refl [];
        served = Served.start;
      },
    )

  -- All the files that a writer leaves, once it is closed: headers and the entries that were written; the
  -- others still wait.
  pub record IsStored (base : ℕ) (arrived pending : List (Item U))
      (stored : List (UintN U × List ℕ)) (acknowledged : List (Ack Q U)) : Type 0 where
    pub files : List (FileLog U)
    pub left : stored ≡ map (file_bytes xxh64 q) files
    pub are_files : All (IsFile xxh64 q) files
    pub counted : IsCounted base (all_items files [])
    pub parts : Permᴰ arrived (all_items files [] ++ pending)
    pub served : Served base arrived (all_items files []) pending
    pub last_one : last acknowledged ≡ last (item_acks q (all_items files []))

  -- The files hold exactly the entries that arrived, and none waits.
  abbrev pub HoldsAll : List (Item U) → List (Item U) → List (UintN U × List ℕ) → Type 0
  HoldsAll arrived pending stored =
      (files : List (FileLog U)) × (stored ≡ map (file_bytes xxh64 q) files)
      × All (IsFile xxh64 q) files
      × (all_items files [] ≡ arrived)
      × (pending ≡ [])

  module _ (sort : SortById U) (disk : Disk U) (base : ℕ) where
    -- Where every file can be created and written: closing a writer that has served its arrivals, as it
    -- does from its start on, leaves files that each hold a
    -- header and the entries that fit it. Together the files hold, in order, what `Served` writes of the
    -- entries that arrived: their ids count up from the first on; an entry that arrived with the next id
    -- was written at once, and only it; any other arrival joined those that waited, and those whose ids
    -- then followed were written, until the ids that wait are all beyond the next one or the first of them
    -- is below it. The last entry in the files has been acknowledged. The other entries that arrived still
    -- wait, and closing does not write them.
    pub close-IsStored :
        (arrived : List (Item U)) (s : WriterState Q U)
        → IsReliable s.settings.enable_fsync disk
        → IsWriting xxh64 xxh64_bound sort q base arrived s
        → let s' = Writer.handle xxh64 sort disk Writer.close s in
          IsStored base arrived s'.buffer.pending
            (s'.left_files ++ ((s'.file_id, s'.file_writer.file) ∷ []))
            (s'.acknowledged ++ s'.file_writer.sent)
    unfolding Writer.handle
    close-IsStored arrived s good w =
        let l = w.logged in
        let file = current_log xxh64 xxh64_bound q base s w.entries in
        let n = next_value s.buffer.last_written_id in
        let (there, told) = one_more xxh64 xxh64_bound q base disk w.files w.entries n s good l in
        let items : all_items (w.files ++ (file ∷ [])) [] ≡ all_items w.files w.entries =
          rw (all_items-left w.files file [], append-nil w.entries) refl in
        record {
          files = w.files ++ (file ∷ []);
          left = there;
          are_files =
              All-append _ w.files (file ∷ []) l.are_files ((l.header, l.fit, (n, l.begins)), tt);
          counted = rw items l.counted;
          parts = rw items w.parts;
          served = rw items w.served;
          last_one = told;
        }

    -- Where every file can be created and written, for a writer that has served its arrivals, as it does
    -- from its start on: if the entries arrived in the order of their ids, from
    -- the first on without a gap, then closing the writer leaves files that hold all of them, in that
    -- order, each file a header and entries that fit it, and no entry waits.
    pub close_in_order :
        (arrived : List (Item U)) (s : WriterState Q U)
        → IsReliable s.settings.enable_fsync disk
        → IsWriting xxh64 xxh64_bound sort q base arrived s
        → IsCounted base arrived
        → let s' = Writer.handle xxh64 sort disk Writer.close s in
          HoldsAll arrived s'.buffer.pending
            (s'.left_files ++ ((s'.file_id, s'.file_writer.file) ∷ []))
    close_in_order arrived s good w h =
        let c = close-IsStored arrived s good w in
        let (all_there, none_waits) = Served-in_order base c.served h in
        (c.files, c.left, c.are_files, all_there, none_waits)
