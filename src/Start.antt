-- ===== src/Start.antt =====
-- `normfs/src/lib.rs`: where a queue goes on at a start. The log and the store answer about the files of
-- the queue; an answer that is an error only reaches the log lines, and is `none` here. The loop has
-- fuel, and `none` means that it ran out.
pub mod Walk
pub mod Resume
use normfs.Prelude.{
  if◌then◌else◌, ◌>>=◌, ℕ, suc, Bool, true, false, Option, none, some, Outcome, ok, err, panic,
  map_err, zero,
}
use normfs.Mem
use mathlib.Core.Option
use normfs.Mem.Store.{MemStore}
use normfs.Wal.Store.{Directory, Writers, start_writer}
use normfs.Wal.Writer.{WriterState, Disk, WalSettings}
use normfs.Lookup.{StoreError}
use normfs.Fsm.{FsError}
use normfs.UintN.Arith.{decrement, increment}
use normfs.Wal.Header.{WalHeader}
use normfs.UintN.Order.{gt, eq}
use normfs.Fsm.{FsError, store}
use normfs.UintN.{UintN, one}
use normfs.UBig.{UBig}
use normfs.Wal.Header

-- What `WalStore` and `PersistStore` answer about the queue.
pub record Sources (U : Type 0) : Type 0 where
  pub wal_last_file_id : Option (UintN U)
  pub store_last_file_id : Option (UintN U)
  pub wal_file_end : UintN U → Option (Option (UintN U))
  pub store_file_end : UintN U → Option (Option (UintN U))
  pub wal_file_header : UintN U → Option (Option (WalHeader U))
  pub store_file_header : UintN U → Option (Option (WalHeader U))

-- The pattern `Ok(Some(…))`.
abbrev pub answered {ℓ} : {A : Type ℓ} → Option (Option A) → Option A
answered none = none
answered (some answer) = answer

abbrev pub otherwise {ℓ} : {A : Type ℓ} → Option A → Option A → Option A
otherwise none other = other
otherwise (some x) other = some x

-- Where to go on: the file, its header, and the last id that was written.
abbrev pub Continuation : Type 0 → Type 0
Continuation U = UintN U × WalHeader U × Option (UintN U)

module _ {U : Type 0} ⦃b : UBig U⦄ where
  abbrev pub larger : Option (UintN U) → Option (UintN U) → Option (UintN U)
  larger current none = current
  larger none (some id) = some id
  larger (some current_max) (some id) = some (if gt id current_max then id else current_max)

  module _ (sources : Sources U) where
    unfoldable pub get_latest_file : Option (UintN U)
    get_latest_file = larger (larger none sources.wal_last_file_id) sources.store_last_file_id

    unfoldable pub get_file_end_all_sources : UintN U → Option (UintN U)
    get_file_end_all_sources file_id =
        larger (larger none (answered (sources.wal_file_end file_id)))
          (answered (sources.store_file_end file_id))

    unfoldable pub get_file_header_all_sources : UintN U → Option (WalHeader U)
    get_file_header_all_sources file_id =
        otherwise (answered (sources.wal_file_header file_id))
          (answered (sources.store_file_header file_id))

    -- The header of the file with the last entry, or the default one.
    abbrev pub header_of : UintN U → WalHeader U
    header_of file_id = elim (get_file_header_all_sources file_id) [
      | none ↦ Header.default
      | some header ↦ header
    ]

    -- The file with the last entry was found.
    abbrev pub go_on : (latest_file_id current_file_id last_entry_id : UintN U) → Continuation U
    go_on latest_file_id current_file_id last_entry_id = (
      if eq current_file_id latest_file_id then increment latest_file_id else latest_file_id,
      record (header_of current_file_id) { num_entries_before = increment last_entry_id },
      some last_entry_id,
    )

    -- The loop of `continue_queue`.
    unfoldable pub walk_backward :
        ℕ
        → (latest_file_id current_file_id : UintN U) → Option (Outcome (FsError U) (Continuation U))
    unfolding get_file_end_all_sources get_file_header_all_sources
    walk_backward zero latest_file_id current_file_id = none
    walk_backward (suc fuel) latest_file_id current_file_id =
        elim (get_file_end_all_sources current_file_id) [
          | some last_entry_id ↦ some (ok (go_on latest_file_id current_file_id last_entry_id))
          | none ↦ elim (eq current_file_id one) [
            | true ↦ some (ok (one, Header.default, none))
            | false ↦ elim (decrement current_file_id) [
              | ok file_id ↦ walk_backward fuel latest_file_id file_id
              | err e ↦ some (err (FsError.store (StoreError.uintn e)))
              | panic ↦ some panic
            ]
          ]
        ]

    unfoldable pub continue_queue : ℕ → Option (Outcome (FsError U) (Continuation U))
    unfolding get_latest_file walk_backward
    continue_queue fuel = elim get_latest_file [
      | none ↦ some (ok (one, Header.default, none))
      | some latest_file_id ↦ walk_backward fuel latest_file_id latest_file_id
    ]

-- The writer that was started, if one was, the writers, and the memory.
abbrev pub Queues : Type 0 → Type 0 → Type 0 → Type 0
Queues Q U W = Option (WriterState Q U) × Writers Q U × MemStore Q U W

-- `NormFS::start_queue` for a queue that is to be read, or to be written as well. The disk monitor, and
-- `process_old_files`, a task of its own, are left out.
module _ {Q U W : Type 0} ⦃b : UBig U⦄ (same : Discrete Q) (disk : Disk U) (dir : Directory U)
    (sources : Sources U) where
  unfoldable pub start_at :
      (readonly : Bool)
      → Q
      → WalSettings
      → Writers Q U
      → MemStore Q U W
      → Continuation U
      → Outcome (FsError U) (Queues Q U W)
  unfolding start_writer Mem.Store.start_queue
  start_at readonly queue settings writers mem (file_id, header, last_entry_id) =
      let mem' = Mem.Store.start_queue same queue last_entry_id mem in
      if readonly then ok (none, writers, mem') else do
        (s, writers') ←
            map_err FsError.wal
              (start_writer same disk dir queue file_id header settings last_entry_id writers)
        ok (some s, writers', mem')

  unfoldable pub start_queue :
      ℕ
      → (readonly : Bool) → Q
      → WalSettings
      → Writers Q U
      → MemStore Q U W
      → Option (Outcome (FsError U) (Queues Q U W))
  unfolding continue_queue start_at
  start_queue fuel readonly queue settings writers mem =
      Option.map (λ place. place >>= start_at readonly queue settings writers mem)
        (continue_queue sources fuel)
