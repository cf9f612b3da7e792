-- ===== src/Wal/Writer.antt =====
-- `normfs-wal/src/writer.rs`: the task that writes the entries of one queue, in the order of their
-- ids, and goes on to the next file where the current one is full or its fields are too narrow. What
-- the file system does belongs to the environment; the flushes of `ack_file_writer.rs` run between the
-- requests. The channel of the requests is a list.
pub mod Logged
pub mod Capacity
pub mod Rotation
pub mod Extends
pub mod Served
pub mod Turns
pub mod Files
pub mod Failed
use normfs.Prelude.{
  ◌&&◌, ◌||◌, ◌∷◌, ◌++◌, if◌then◌else◌, ◌>>=◌, [], ℕ, Bool, true, false, not, Option, none, some,
  List, length, Outcome, ok, err, panic, ok_or,
}
use normfs.Wal.Header.{WalHeader, WalHeaderError}
use normfs.Wal.Buffer.{SortById, Item, OrderedBuffer, entries_to_write}
use normfs.Wal.AckFile.{AckFileWriter, AckFileWriterSettings, Attempt, Ack}
use normfs.UintN.Arith.{increment}
use normfs.Wal.Reader.{WalError, io_error, wal_header_error}
use normfs.UintN.{UintN, Error}
use normfs.UBig.{UBig}
use normfs.Types.{EncryptionType, CompressionType}
use normfs.Wal.AckFile
use normfs.Wal.Header
use normfs.Wal.Buffer
use normfs.Wal.Entry

pub record WalSettings : Type 0 where
  pub max_file_size : ℕ
  pub write_buffer_size : ℕ
  pub enable_fsync : Bool
  pub encryption_type : EncryptionType
  pub compression_type : CompressionType

-- A file that has been completed.
pub record WalFile (Q U : Type 0) : Type 0 where
  pub queue_id : Q
  pub file_id : UintN U
  pub encryption_type : EncryptionType
  pub compression_type : CompressionType

pub data WriteRequest (U : Type 0) : Type 0 where
  enqueue : UintN U → List ℕ → WriteRequest U
  enqueue_batch : List (UintN U × List ℕ) → WriteRequest U
  close : WriteRequest U

-- The fields of the source, and what has gone out: the completed files that were reported, the
-- files that were left with their bytes, and the acknowledgements that they sent.
pub record WriterState (Q U : Type 0) : Type 0 where
  pub queue_id : Q
  pub file_id : UintN U
  pub header : WalHeader U
  pub settings : WalSettings
  pub file_writer : AckFileWriter Q U
  pub has_written : Bool
  pub buffer : OrderedBuffer U
  pub wal_complete : List (WalFile Q U)
  pub left_files : List (UintN U × List ℕ)
  pub acknowledged : List (Ack Q U)

-- Which files can be created, and the attempts to write when a file is closed.
pub record Disk (U : Type 0) : Type 0 where
  pub creates : UintN U → Bool
  pub pending : UintN U → ℕ → Attempt
  pub final : UintN U → ℕ → Attempt

-- A new state, and an error or not.
abbrev pub Result : Type 0 → Type 0 → Type 0
Result Q U = WriterState Q U × Outcome (WalError U) (Unit {0})

abbrev pub file_settings : WalSettings → AckFileWriterSettings
file_settings settings = record {
  max_buffer_size = settings.write_buffer_size;
  max_file_size = settings.max_file_size;
  fsync = settings.enable_fsync;
}

abbrev pub next_header : {U : Type 0} ⦃b : UBig U⦄ → WalHeader U → UintN U → ℕ → WalHeader U
next_header header next_entry_id next_data_size =
    record (Header.resize header next_entry_id next_data_size) {
      num_entries_before = next_entry_id;
    }

module _ {Q U : Type 0} ⦃b : UBig U⦄ where
  -- The operator `?`: the next operation where this one succeeded.
  abbrev pub and_then : Result Q U → (WriterState Q U → Result Q U) → Result Q U
  and_then (s, ok _) next = next s
  and_then (s, err e) next = (s, err e)
  and_then (s, panic) next = (s, panic)

  unfoldable pub new_file_writer :
      Disk U → UintN U → WalHeader U → WalSettings → Option (AckFileWriter Q U)
  new_file_writer disk file_id header settings =
      AckFile.new (disk.creates file_id) (file_settings settings)
        (Header.write_to_bytes header []).0

  unfoldable pub new :
      Disk U
      → Q
      → UintN U
      → WalHeader U
      → WalSettings
      → Option (UintN U)
      → Outcome (WalError U) (WriterState Q U)
  unfolding new_file_writer
  new disk queue_id file_id header settings last_entry_id = do
    file_writer ← ok_or io_error (new_file_writer disk file_id header settings)
    ok (record {
      queue_id = queue_id;
      file_id = file_id;
      header = header;
      settings = settings;
      file_writer = file_writer;
      has_written = false;
      buffer = Buffer.new last_entry_id;
      wal_complete = [];
      left_files = [];
      acknowledged = [];
    })

  abbrev pub wal_file : WriterState Q U → WalFile Q U
  wal_file s = record {
    queue_id = s.queue_id;
    file_id = s.file_id;
    encryption_type = s.settings.encryption_type;
    compression_type = s.settings.compression_type;
  }

  -- The state once the file is closed and the completion is reported.
  abbrev pub left : Disk U → UintN U → ℕ → WriterState Q U → WriterState Q U
  left disk next_entry_id next_data_size s = record s {
    file_writer = AckFile.close (disk.pending s.file_id) (disk.final s.file_id) s.file_writer;
    wal_complete = s.wal_complete ++ (wal_file s ∷ []);
    file_id = increment s.file_id;
    header = next_header s.header next_entry_id next_data_size;
  }

  -- The new file writer takes the place of the one before.
  abbrev pub moved : UintN U → AckFileWriter Q U → WriterState Q U → WriterState Q U
  moved old_file_id file_writer s = record s {
    file_writer = file_writer;
    has_written = false;
    left_files = s.left_files ++ ((old_file_id, s.file_writer.file) ∷ []);
    acknowledged = s.acknowledged ++ s.file_writer.sent;
  }

  unfoldable pub rotate : Disk U → UintN U → ℕ → WriterState Q U → Result Q U
  unfolding new_file_writer
  rotate disk next_entry_id next_data_size s =
      let s' = left disk next_entry_id next_data_size s in
      elim (new_file_writer disk s'.file_id s'.header s'.settings) [
        | none ↦ (s', err io_error)
        | some file_writer ↦ (moved s.file_id file_writer s', ok tt)
      ]

  module _ (xxh64 : List ℕ → ℕ) where
    abbrev pub appended : UintN U → List ℕ → WriterState Q U → WriterState Q U
    appended entry_id entry_buf s = record s {
      file_writer = AckFile.write s.queue_id entry_id entry_buf s.file_writer;
      has_written = true;
    }

    abbrev pub finished : Item U → WriterState Q U → List ℕ × Outcome Error (Unit {0}) → Result Q U
    finished (entry_id, contents) s (entry_buf, ok _) =
        (appended entry_id (entry_buf ++ contents) s, ok tt)
    finished entry s (entry_buf, err e) = (s, err (wal_header_error (WalHeaderError.uintn e)))
    finished entry s (entry_buf, panic) = (s, panic)

    -- The end of the loop's body in `write`.
    unfoldable pub append_entry : Item U → WriterState Q U → Result Q U
    append_entry (entry_id, contents) s =
        finished (entry_id, contents) s
          (Entry.write_to_bytes (Entry.new xxh64 entry_id contents) [] s.header)

    unfoldable pub needs_rotation : Item U → WriterState Q U → Bool
    needs_rotation (entry_id, contents) s =
        (s.has_written && not (AckFile.can_add (length contents) s.file_writer))
        || not (Header.can_hold_entry s.header entry_id (length contents))

    -- The body of the loop in `write`.
    unfoldable pub write_entry : Disk U → Item U → WriterState Q U → Result Q U
    unfolding needs_rotation rotate append_entry
    write_entry disk (entry_id, contents) s =
        if needs_rotation (entry_id, contents) s
        then and_then (rotate disk entry_id (length contents) s) (append_entry (entry_id, contents))
        else append_entry (entry_id, contents) s

    unfoldable pub write_entries : Disk U → List (Item U) → WriterState Q U → Result Q U
    unfolding write_entry
    write_entries disk [] s = (s, ok tt)
    write_entries disk (entry ∷ entries) s =
        and_then (write_entry disk entry s) (write_entries disk entries)

    module _ (sort : SortById U) where
      unfoldable pub write : Disk U → Item U → WriterState Q U → Result Q U
      unfolding write_entries
      write disk entry s =
          let (entries, buffer) = entries_to_write sort entry s.buffer in
          write_entries disk entries (record s { buffer = buffer })

      unfoldable pub write_batch : Disk U → List (Item U) → WriterState Q U → Result Q U
      unfolding write
      write_batch disk [] s = (s, ok tt)
      write_batch disk (entry ∷ entries) s =
          and_then (write disk entry s) (write_batch disk entries)

      -- One turn of the task's loop: errors are logged only. After `close` the loop ends.
      unfoldable pub handle : Disk U → WriteRequest U → WriterState Q U → WriterState Q U
      unfolding write write_batch
      handle disk (enqueue entry_id contents) s = (write disk (entry_id, contents) s).0
      handle disk (enqueue_batch entries) s = (write_batch disk entries s).0
      handle disk close s = record s {
        file_writer = AckFile.close (disk.pending s.file_id) (disk.final s.file_id) s.file_writer;
      }
