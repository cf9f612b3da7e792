-- ===== src/Wal/Store.antt =====
-- `normfs-wal/src/lib.rs`: the files of a queue, and the writers of the queues. The directory of a queue
-- belongs to the environment: what the searches of `uintn-rs/src/paths.rs` answer, and what each file
-- is. A writer is reached through its channel: the requests that were sent, and whether its task still
-- receives them. The spawned `process_old_files` is a function to what it sends.
use normfs.Prelude.{
  ◌∷◌, ◌++◌, if◌then◌else◌, ◌>>=◌, [], ℕ, Bool, true, Option, none, some, List, Outcome, ok, err,
  panic, map_err, is_some,
}
use normfs.UintN.Order.{lt}
use normfs.Wal.Header.{WalHeader}
use normfs.Wal.Reader.{
  File, WalError, WalContent, io_error, path_error, read_wal_header, writer_not_found,
  get_wal_content, send_error, get_wal_range,
}
use normfs.Types.{CompressionType, EncryptionType}
use normfs.Wal.Writer.{WriteRequest, WalFile, Disk, WalSettings, WriterState}
use normfs.UintN.{Error, UintN}
use normfs.UBig.{UBig}
use normfs.Wal.Writer
use normfs.Mem.Store.{get, set}
use mathlib.Core.Option
use normfs.Wal.Reader.{wal_empty, wal_not_found, contents, not_found, unreadable}

-- `uintn-rs/src/paths.rs`
pub data PathError : Type 0 where
  io no_files_found : PathError
  uintn : Error → PathError

pub record Directory (U : Type 0) : Type 0 where
  pub create_dir_all : Bool
  pub find_max_id : Outcome PathError (UintN U)
  pub find_min_id : Outcome PathError (UintN U)
  pub get_files_ids : Outcome PathError (List (UintN U))
  pub file : UintN U → File

module _ {U : Type 0} ⦃b : UBig U⦄ where
  -- `create_dir_all(…).await?`
  abbrev created : Directory U → Outcome (WalError U) (Unit {0})
  created dir = if dir.create_dir_all then ok tt else err io_error

  unfoldable pub find_last_file_id : Directory U → Outcome (WalError U) (UintN U)
  find_last_file_id dir = created dir >>= λ _. map_err (λ _. path_error) dir.find_max_id

  -- No files are no error.
  abbrev if_any : Outcome PathError (UintN U) → Outcome (WalError U) (Option (UintN U))
  if_any (ok id) = ok (some id)
  if_any (err no_files_found) = ok none
  if_any (err e) = err path_error
  if_any panic = panic

  unfoldable pub get_first_file_id : Directory U → Outcome (WalError U) (Option (UintN U))
  get_first_file_id dir = created dir >>= λ _. if_any dir.find_min_id

  unfoldable pub get_last_file_id : Directory U → Outcome (WalError U) (Option (UintN U))
  get_last_file_id dir = created dir >>= λ _. if_any dir.find_max_id

  -- Only the end of a range that was read; an empty or absent file has none.
  abbrev pub file_end :
      Outcome (WalError U) (WalHeader U × Option (UintN U × UintN U))
      → Outcome (WalError U) (Option (UintN U))
  file_end (ok (header, none)) = ok none
  file_end (ok (header, some (first_id, last_id))) = ok (some last_id)
  file_end (err (wal_empty id)) = ok none
  file_end (err wal_not_found) = ok none
  file_end (err e) = err e
  file_end panic = panic

  unfoldable pub get_file_end :
      (xxh64 : List ℕ → ℕ)
      → ℕ
      → Directory U
      → UintN U
      → Option (Outcome (WalError U) (Option (UintN U)))
  get_file_end xxh64 fuel dir file_id =
      Option.map file_end (get_wal_range xxh64 fuel (dir.file file_id) file_id)

  unfoldable pub get_wal_file_content :
      (xxh64 : List ℕ → ℕ)
      → ℕ
      → Directory U
      → UintN U
      → Option (Outcome (WalError U) (WalContent U))
  get_wal_file_content xxh64 fuel dir file_id =
      get_wal_content xxh64 fuel (dir.file file_id) file_id

  unfoldable pub get_entries_before : Directory U → UintN U → Outcome (WalError U) (UintN U)
  get_entries_before dir file_id = do
    header ← read_wal_header (dir.file file_id) file_id
    ok header.num_entries_before

  unfoldable pub get_queue_start : Directory U → Outcome (WalError U) (Option (UintN U))
  unfolding get_first_file_id get_entries_before
  get_queue_start dir = get_first_file_id dir >>= λ first_file_id. elim first_file_id [
    | none ↦ ok none
    | some file_id ↦ (get_entries_before dir file_id >>= λ before. ok (some before))
  ]

  abbrev pub if_there :
      Outcome (WalError U) (WalHeader U) → Outcome (WalError U) (Option (WalHeader U))
  if_there (ok header) = ok (some header)
  if_there (err wal_not_found) = ok none
  if_there (err e) = err e
  if_there panic = panic

  unfoldable pub get_file_header :
      Directory U → UintN U → Outcome (WalError U) (Option (WalHeader U))
  get_file_header dir file_id = if_there (read_wal_header (dir.file file_id) file_id)

  abbrev bytes_if_there : File → Outcome (WalError U) (Option (List ℕ))
  bytes_if_there (contents bytes) = ok (some bytes)
  bytes_if_there not_found = ok none
  bytes_if_there unreadable = err io_error

  unfoldable pub get_wal_bytes : Directory U → UintN U → Outcome (WalError U) (Option (List ℕ))
  get_wal_bytes dir file_id = bytes_if_there (dir.file file_id)

  -- The files below the current one, as they are listed.
  unfoldable pub old_files :
      {Q : Type 0}
      → Q
      → UintN U
      → CompressionType
      → EncryptionType
      → List (UintN U)
      → List (WalFile Q U)
  old_files queue current_file_id compression_type encryption_type [] = []
  old_files queue current_file_id compression_type encryption_type (id ∷ ids) =
      let rest = old_files queue current_file_id compression_type encryption_type ids in
      if lt id current_file_id
      then record {
        queue_id = queue;
        file_id = id;
        encryption_type = encryption_type;
        compression_type = compression_type;
      }
        ∷ rest
      else rest

  unfoldable pub process_old_files :
      {Q : Type 0}
      → Directory U
      → Q
      → UintN U
      → CompressionType
      → EncryptionType
      → Outcome (WalError U) (List (WalFile Q U))
  unfolding old_files
  process_old_files dir queue current_file_id compression_type encryption_type =
      map_err (λ _. path_error) dir.get_files_ids >>= λ file_ids.
      ok (old_files queue current_file_id compression_type encryption_type file_ids)

-- `WalWriter`: the sending end of the channel.
pub record WalWriter (U : Type 0) : Type 0 where
  pub requests : List (WriteRequest U)
  pub receiving : Bool

abbrev pub Writers : Type 0 → Type 0 → Type 0
Writers Q U = List (Q × WalWriter U)

-- `WalWriter::close`: the request is answered once the task has served it.
unfoldable pub close_writer :
    {U : Type 0} → WalWriter U → WalWriter U × Outcome (WalError U) (Unit {0})
close_writer writer =
    if writer.receiving
    then (record writer { requests = writer.requests ++ (Writer.close ∷ []) }, ok tt)
    else (writer, err send_error)

-- `WalStore::close`: all writers are taken out of the map and closed; the first error is returned.
unfoldable pub close_writers :
    {Q U : Type 0} → Writers Q U → Writers Q U × Outcome (WalError U) (Unit {0})
unfolding close_writer
close_writers [] = ([], ok tt)
close_writers ((queue, writer) ∷ writers) =
    let (writer', r) = close_writer writer in
    let (rest, r') = close_writers writers in ((queue, writer') ∷ rest, r >>= λ _. r')

module _ {Q U : Type 0} (same : Discrete Q) where
  unfoldable pub has_writer : Q → Writers Q U → Bool
  unfolding get
  has_writer queue writers = is_some (get same queue writers)

  -- `HashMap::insert`
  abbrev pub insert : Q → WalWriter U → Writers Q U → Writers Q U
  unfolding get set
  insert queue writer writers = elim (get same queue writers) [
    | some old ↦ set same queue writer writers
    | none ↦ (queue, writer) ∷ writers
  ]

  -- A request is sent to the writer of the queue.
  unfoldable pub send :
      Q → WriteRequest U → Writers Q U → Writers Q U × Outcome (WalError U) (Unit {0})
  unfolding get set
  send queue request writers = elim (get same queue writers) [
    | none ↦ (writers, err writer_not_found)
    | some writer ↦
        if writer.receiving
        then (
          set same queue (record writer { requests = writer.requests ++ (request ∷ []) }) writers,
          ok tt,
        )
        else (writers, err send_error)
  ]

  unfoldable pub enqueue :
      Q → UintN U → List ℕ → Writers Q U → Writers Q U × Outcome (WalError U) (Unit {0})
  unfolding send
  enqueue queue entry_id bs = send queue (Writer.enqueue entry_id bs)

  unfoldable pub enqueue_batch :
      Q → List (UintN U × List ℕ) → Writers Q U → Writers Q U × Outcome (WalError U) (Unit {0})
  unfolding send
  enqueue_batch queue entries = send queue (Writer.enqueue_batch entries)

  -- The task of the writer starts, and its channel replaces the one that was there.
  unfoldable pub start_writer :
      ⦃b : UBig U⦄
      → Disk U
      → Directory U
      → Q
      → UintN U
      → WalHeader U
      → WalSettings
      → Option (UintN U)
      → Writers Q U
      → Outcome (WalError U) (WriterState Q U × Writers Q U)
  unfolding Writer.new
  start_writer disk dir queue file_id header settings last_entry_id writers =
      if dir.create_dir_all
      then (Writer.new disk queue file_id header settings last_entry_id >>= λ s.
          ok (s, insert queue (record { requests = []; receiving = true }) writers))
      else err io_error
