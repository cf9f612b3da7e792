-- ===== src/Lookup.antt =====
-- `normfs/src/lookup.rs`: the file that holds an id. The store of finished files, the log and the
-- cloud are an interface, which answers the same during one lookup. The loops have fuel, and `none`
-- means that it ran out.
pub mod Search
pub mod Find
pub mod Order
pub mod Located
pub mod Correct
pub mod Whole
pub mod Gaps
pub mod Ends
pub mod Rounds
pub mod Terminates
use normfs.Prelude.{
  if◌then◌else◌, ◌>>=◌, ℕ, suc, Bool, true, false, not, Option, none, some, Outcome, ok, err, panic,
  map_err, zero,
}
use normfs.UBig.{UBig}
use normfs.UintN.{UintN, Error}
use normfs.UintN.Order.{gt, le}
use normfs.UintN.Arith.{decrement}
use normfs.Wal.Header.{WalHeaderError}
use normfs.Store.Header.{StoreHeaderError}
use normfs.Wal.Reader.{WalError, wal_not_found, wal_empty}

-- `normfs-store/src/lib.rs`
pub data StoreError (U : Type 0) : Type 0 where
  io decrypt range_error path file_not_found signature_verification_failed : StoreError U
  header : StoreHeaderError → StoreError U
  wal_error : WalError U → StoreError U
  uintn : Error → StoreError U
  wal_header_error : WalHeaderError → StoreError U

pub data LookupError (U : Type 0) : Type 0 where
  store : StoreError U → LookupError U
  wal : WalError U → LookupError U

-- `CloudDownloader`; none is an error of either call, whose text only reaches the log.
pub record Cloud (U : Type 0) : Type 0 where
  pub find_min_id : Option (Option (UintN U))
  pub get_file_range : UintN U → Option (Option (UintN U × UintN U))

-- What `PersistStore` and `WalStore` answer about the queue, and the cloud, if there is one.
pub record Files (U : Type 0) : Type 0 where
  pub store_first_file_id : Outcome (StoreError U) (Option (UintN U))
  pub store_last_file_id : Outcome (StoreError U) (Option (UintN U))
  pub wal_first_file_id : Outcome (WalError U) (Option (UintN U))
  pub wal_last_file_id : Outcome (WalError U) (Option (UintN U))
  pub get_file_range : UintN U → Outcome (StoreError U) (Option (UintN U × UintN U))
  pub get_entries_before : UintN U → Outcome (WalError U) (UintN U)
  pub cloud_downloader : Option (Cloud U)

-- Where the range of a file was found, and what was found there.
pub data Place (U : Type 0) : Type 0 where
  in_store in_cloud : (start end : UintN U) → Place U
  in_wal : (start : UintN U) → Place U
  empty_file no_cloud not_in_cloud cloud_failed : Place U

-- A file with data: its id, its start, and its end where that is known.
abbrev pub ValidFile : Type 0 → Type 0
ValidFile U = UintN U × UintN U × Option (UintN U)

-- The variables of the loop of `binary_search`.
pub record Bounds (U : Type 0) : Type 0 where
  pub left_file_id : UintN U
  pub right_file_id : UintN U
  pub left_end : Option (UintN U)
  pub right_start : UintN U

-- How a round ends: with a return, or with the variables of the next one.
pub data Round (U : Type 0) : Type 0 where
  found : Option (UintN U) → Round U
  again : Bounds U → Round U

-- The two errors of the log at which a walk back goes on.
unfoldable pub has_no_data : {U : Type 0} → WalError U → Bool
has_no_data wal_not_found = true
has_no_data (wal_empty id) = true
has_no_data e = false

module _ {U : Type 0} ⦃b : UBig U⦄ where
  -- `Ord::min` and `Ord::max`
  unfoldable pub min_id : UintN U → UintN U → UintN U
  min_id x y = if gt x y then y else x

  unfoldable pub max_id : UintN U → UintN U → UintN U
  max_id x y = if gt x y then x else y

  unfoldable pub first_of :
      Option (UintN U) → Option (UintN U) → Option (UintN U) → Option (UintN U)
  first_of (some s) (some w) (some s3) = some (min_id (min_id s w) s3)
  first_of (some s) (some w) none = some (min_id s w)
  first_of (some s) none (some s3) = some (min_id s s3)
  first_of none (some w) (some s3) = some (min_id w s3)
  first_of (some s) none none = some s
  first_of none (some w) none = some w
  first_of none none (some s3) = some s3
  first_of none none none = none

  unfoldable pub last_of : Option (UintN U) → Option (UintN U) → Option (UintN U)
  last_of (some s) (some w) = some (max_id s w)
  last_of (some s) none = some s
  last_of none (some w) = some w
  last_of none none = none

  -- The id is at most the end, or after it, where the end is known.
  unfoldable pub is_within : UintN U → Option (UintN U) → Bool
  is_within id none = false
  is_within id (some end) = le id end

  unfoldable pub is_after : UintN U → Option (UintN U) → Bool
  is_after id none = false
  is_after id (some end) = gt id end

  module _ (files : Files U) where
    -- The cascade of the three places, which the source writes out for the first file, for a middle
    -- file and for the file after it. The range in the store is asked first.
    unfoldable pub cloud_place : UintN U → Place U
    cloud_place id = elim files.cloud_downloader [
      | none ↦ no_cloud
      | some cloud ↦ elim (cloud.get_file_range id) [
        | none ↦ cloud_failed
        | some none ↦ not_in_cloud
        | some (some (start, end)) ↦ in_cloud start end
      ]
    ]

    unfoldable pub place_behind :
        Option (UintN U × UintN U) → UintN U → Outcome (LookupError U) (Place U)
    place_behind (some (start, end)) id = ok (in_store start end)
    place_behind none id = elim (files.get_entries_before id) [
      | ok start ↦ ok (in_wal start)
      | err wal_not_found ↦ ok (cloud_place id)
      | err (wal_empty _) ↦ ok empty_file
      | err e ↦ err (wal e)
      | panic ↦ panic
    ]

    unfoldable pub place : UintN U → Outcome (LookupError U) (Place U)
    place id = do range ← map_err store (files.get_file_range id); place_behind range id

    unfoldable pub find_valid_file_backward :
        ℕ → UintN U → UintN U → Option (Outcome (LookupError U) (Option (ValidFile U)))
    find_valid_file_backward zero search_id min_file_id = none
    find_valid_file_backward (suc fuel) search_id min_file_id =
        elim (files.get_file_range search_id) [
          | panic ↦ some panic
          | err e ↦ some (err (store e))
          | ok (some (start, end)) ↦ some (ok (some (search_id, start, some end)))
          | ok none ↦ elim (files.get_entries_before search_id) [
            | panic ↦ some panic
            | ok start ↦ some (ok (some (search_id, start, none)))
            | err e ↦
                if not (has_no_data e)
                then some (err (wal e))
                else if le search_id min_file_id
                then some (ok none)
                else elim (decrement search_id) [
                  | panic ↦ some panic
                  | err e ↦ some (err (wal wal_not_found))
                  | ok id ↦ find_valid_file_backward fuel id min_file_id
                ]
          ]
        ]
