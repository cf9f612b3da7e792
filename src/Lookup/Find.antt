-- ===== src/Lookup/Find.antt =====
-- `normfs/src/lookup.rs`: `find_file_with_s3`.
use normfs.Prelude.{if◌then◌else◌, ◌>>=◌, ℕ, Option, none, some, Outcome, ok, err, panic, map_err}
use normfs.UBig.{UBig}
use normfs.UintN.{UintN}
use normfs.UintN.Order.{lt, gt}
use normfs.Wal.Reader.{wal_not_found}
use normfs.Lookup.{
  LookupError, Files, in_store, in_cloud, in_wal, empty_file, no_cloud, not_in_cloud, cloud_failed,
  store, wal, place_behind, find_valid_file_backward, is_within, is_after, first_of, last_of,
}
use normfs.Lookup.Search.{binary_search}

module _ {U : Type 0} ⦃b : UBig U⦄ (files : Files U) where
  -- `s3_first_id`; an error counts as none.
  unfoldable pub s3_first_id : Option (UintN U)
  s3_first_id = elim files.cloud_downloader [
    | none ↦ none
    | some cloud ↦ elim cloud.find_min_id [ none ↦ none | some id ↦ id ]
  ]

  -- The first and the last file id, if there are files.
  unfoldable pub file_ids : Outcome (LookupError U) (Option (UintN U × UintN U))
  file_ids = do
    store_first_id ← map_err store files.store_first_file_id
    store_last_id ← map_err store files.store_last_file_id
    wal_first_id ← map_err wal files.wal_first_file_id
    wal_last_id ← map_err wal files.wal_last_file_id
    ok (elim (first_of store_first_id wal_first_id s3_first_id) [
      | none ↦ none
      | some first_file_id ↦ elim (last_of store_last_id wal_last_id) [
        | none ↦ none
        | some last_file_id ↦ some (first_file_id, last_file_id)
      ]
    ])

  -- The start of the first file, and its end where that is known.
  unfoldable pub first_file :
      UintN U → UintN U → Outcome (LookupError U) (Option (UintN U × Option (UintN U)))
  first_file first_file_id last_file_id = do
    store_start_range ← map_err store (files.get_file_range first_file_id)
    _ ← map_err store (files.get_file_range last_file_id)
    p ← place_behind files store_start_range first_file_id
    elim p [
      | in_store start end ↦ ok (some (start, some end))
      | in_wal start ↦ ok (some (start, none))
      | in_cloud start end ↦ ok (some (start, some end))
      | not_in_cloud ↦ ok none
      | cloud_failed ↦ ok none
      | no_cloud ↦ err (wal wal_not_found)
      | empty_file ↦ ok none
    ]

  -- From the last file with data on.
  unfoldable pub find_from_last :
      ℕ
      → UintN U
      → UintN U
      → Option (UintN U)
      → UintN U × UintN U × Option (UintN U)
      → Option (Outcome (LookupError U) (Option (UintN U)))
  find_from_last fuel target_id first_file_id first_file_end
        (last_file_id, last_file_start, last_file_end) =
      if gt target_id last_file_start
      then some (ok (some last_file_id))
      else if is_after target_id last_file_end
      then some (ok none)
      else binary_search files fuel target_id (record {
        left_file_id = first_file_id;
        right_file_id = last_file_id;
        left_end = first_file_end;
        right_start = last_file_start;
      })

  unfoldable pub find_file_with_s3 :
      ℕ → UintN U → Option (Outcome (LookupError U) (Option (UintN U)))
  find_file_with_s3 fuel target_id = elim file_ids [
    | panic ↦ some panic
    | err e ↦ some (err e)
    | ok none ↦ some (ok none)
    | ok (some (first_file_id, last_file_id)) ↦ elim (first_file first_file_id last_file_id) [
      | panic ↦ some panic
      | err e ↦ some (err e)
      | ok none ↦ some (ok none)
      | ok (some (first_file_start, first_file_end)) ↦
          if lt target_id first_file_start
          then some (ok (some first_file_id))
          else if is_within target_id first_file_end
          then some (ok (some first_file_id))
          else elim (find_valid_file_backward files fuel last_file_id first_file_id) [
            | none ↦ none
            | some panic ↦ some panic
            | some (err e) ↦ some (err e)
            | some (ok none) ↦ some (ok none)
            | some (ok (some last_file)) ↦
                find_from_last fuel target_id first_file_id first_file_end last_file
          ]
    ]
  ]
