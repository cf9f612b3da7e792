-- ===== src/Fsm.antt =====
-- `normfs/src/reader_fsm`: the states of a read, and what it asks of the memory, the store, the log and
-- the cloud. `W` is the world of the reader's channel and of the memory. The files answer the same during
-- one read, so that a prefetch gives what it finds when it is spawned. The queue and the channel,
-- which a state only hands on, are left out.
pub mod Handlers
pub mod Run
pub mod Prefetch
pub mod Keeps
use normfs.Prelude.{ℕ, Bool, true, false, Option, none, some, List, Outcome, ok, err, panic}
use normfs.UBig.{UBig}
use normfs.UintN.{UintN, Error}
use normfs.Types.{DataSource, disk_store, disk_wal, cloud}
use normfs.Mem.Read.{MemReadResult}
use normfs.Wal.Reader.{WalError}
use normfs.Wal.RangeRead.{ReadRangeResult}
use normfs.Lookup.{StoreError, LookupError}

-- `normfs-cloud/src/errors.rs`; the payloads are those of other crates but for two.
pub data CloudError (U : Type 0) : Type 0 where
  reqwest xml no_files_found io invalid_url : CloudError U
  uintn : Error → CloudError U
  store_header : StoreError U → CloudError U
  invalid_status_code : ℕ → CloudError U

-- `Error` of `normfs/src/lib.rs`
pub data FsError (U : Type 0) : Type 0 where
  wal : WalError U → FsError U
  store : StoreError U → FsError U
  cloud_error : CloudError U → FsError U
  io_error queue_not_found queue_empty not_found client_disconnected : FsError U

-- A file that was found, and where.
abbrev pub Fetched : Type 0
Fetched = Option (List ℕ × DataSource)

abbrev pub PrefetchHandle : Type 0 → Type 0
PrefetchHandle U = Option (Outcome (FsError U) Fetched)

pub record ReadContext (U : Type 0) : Type 0 where
  pub file_id : UintN U
  pub next_id : UintN U
  pub step : ℕ
  pub last_id : Option (UintN U)

pub data ReaderState (U : Type 0) : Type 0 where
  lookup_positive lookup_negative : (offset : UintN U) (limit : ℕ) → ReaderState U
  lookup_file : (start_id : UintN U) (end_id : Option (UintN U)) (step : ℕ) → ReaderState U
  read_file read_store read_wal read_s3 : ReadContext U → ReaderState U
  extract_wal_bytes : ReadContext U → (store_bytes : List ℕ) → DataSource → ReaderState U
  parse_wal_bytes :
      ReadContext U → (wal_bytes : List ℕ) → DataSource → PrefetchHandle U → ReaderState U
  read_next_file : (current_file : UintN U) → ReadContext U → PrefetchHandle U → ReaderState U
  subscribed completed : ReaderState U
  failed : FsError U → ReaderState U

unfoldable pub is_terminal : {U : Type 0} → ReaderState U → Bool
is_terminal completed = true
is_terminal (failed e) = true
is_terminal subscribed = true
is_terminal s = false

-- What the reader calls.
pub record Backends (U W : Type 0) : Type 0 where
  pub is_closed : W → Bool
  pub mem_read_full : UintN U → UintN U → ℕ → W → MemReadResult U × W
  pub mem_read_full_negative : UintN U → ℕ → ℕ → W → MemReadResult U × W
  pub mem_follow_full : UintN U → UintN U → ℕ → W → MemReadResult U × W
  pub mem_follow_full_negative : UintN U → ℕ → W → MemReadResult U × W
  pub mem_get_last_id : W → Option (Option (UintN U))
  pub find_file_with_s3 : UintN U → Outcome (LookupError U) (Option (UintN U))
  pub get_store_bytes : UintN U → Outcome (StoreError U) (Option (List ℕ))
  pub store_extract_wal_bytes :
      UintN U → List ℕ → (verify_signatures : Bool) → Outcome (StoreError U) (List ℕ)
  pub get_wal_bytes : UintN U → Outcome (WalError U) (Option (List ℕ))
  pub read_wal_content_range :
      List ℕ
      → UintN U
      → Option (UintN U)
      → ℕ
      → DataSource
      → W
      → W × Outcome (WalError U) (ReadRangeResult U)
  -- `get_store_bytes` of the cloud, if there is one.
  pub s3_downloader : Option (UintN U → Outcome (CloudError U) (Option (List ℕ)))

-- Bytes of a store file that was found, as the prefetch takes them: damaged bytes count as none.
unfoldable pub extracted :
    {U : Type 0} → Outcome (StoreError U) (List ℕ) → DataSource → Outcome (FsError U) Fetched
extracted (ok wal_bytes) source = ok (some (wal_bytes, source))
extracted (err e) source = ok none
extracted panic source = panic

module _ {U W : Type 0} (backends : Backends U W) where
  unfoldable pub prefetch_s3 : UintN U → Outcome (FsError U) Fetched
  prefetch_s3 file_id = elim backends.s3_downloader [
    | none ↦ ok none
    | some get_bytes ↦ elim (get_bytes file_id) [
      | panic ↦ panic
      | err e ↦ err (cloud_error e)
      | ok none ↦ ok none
      | ok (some store_bytes) ↦
          extracted (backends.store_extract_wal_bytes file_id store_bytes true) cloud
    ]
  ]

  unfoldable pub prefetch_wal : UintN U → Outcome (FsError U) Fetched
  prefetch_wal file_id = elim (backends.get_wal_bytes file_id) [
    | panic ↦ panic
    | err e ↦ err (wal e)
    | ok (some wal_bytes) ↦ ok (some (wal_bytes, disk_wal))
    | ok none ↦ prefetch_s3 file_id
  ]

  unfoldable pub prefetch_next_file : UintN U → Outcome (FsError U) Fetched
  prefetch_next_file file_id = elim (backends.get_store_bytes file_id) [
    | panic ↦ panic
    | err e ↦ err (store e)
    | ok (some store_bytes) ↦
        extracted (backends.store_extract_wal_bytes file_id store_bytes false) disk_store
    | ok none ↦ prefetch_wal file_id
  ]
