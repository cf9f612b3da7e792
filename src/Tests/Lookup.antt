-- ===== src/Tests/Lookup.antt =====
-- `normfs/src/lookup.rs` at a queue of four files, the first two in the store and the others in the
-- log, and at queues with gaps.
use normfs.Prelude.{
  ◌+◌, ◌*◌, ◌≡◌, ◌≢◌, ◌||◌, if◌then◌else◌, ℕ, refl, Option, none, some, arith, leb, ok, err,
}
use native.Mathlib.Decide.{dec_lt}
use normfs.Tests.BigNat.{big_nat}
use normfs.UintN.{is_zero, from_u8, UintN, u8, value}
use normfs.UintN.Order.{cmp}
use normfs.UintN.Arith.{increment, decrement}
use normfs.UintN.Step.{middle}
use normfs.Wal.Reader.{WalError, wal_not_found, wal_empty}
use normfs.Lookup.{
  Files, Cloud, Bounds, in_store, in_wal, place, place_behind, cloud_place, cloud_failed,
  find_valid_file_backward, first_of, last_of, min_id, max_id, has_no_data,
}
use normfs.Lookup.Find.{file_ids, s3_first_id, find_file_with_s3}
use normfs.Lookup.Search.{binary_search}
use normfs.Lookup.Order.{IsIn}
use normfs.Lookup.Located.{AllLocated}
use normfs.Lookup.Whole.{find_file_with_s3_lem}
use normfs.Lookup.Gaps.{binary_search-cloud_failed, binary_search-empty_file}
use normfs.Lookup.Terminates.{find_file_with_s3_ends}

-- The file `n` has the ids from `10 * n` to `10 * n + 9`.
abbrev start : ℕ → ℕ
start n = 10 * n

abbrev end : ℕ → ℕ
end n = 10 * n + 9

abbrev four_files : Files ℕ
four_files = record {
  store_first_file_id = ok (some (u8 1));
  store_last_file_id = ok (some (u8 2));
  wal_first_file_id = ok (some (u8 3));
  wal_last_file_id = ok (some (u8 4));
  get_file_range = λ id.
      ok (if leb (value id) 2 then some (u8 (start (value id)), u8 (end (value id))) else none);
  get_entries_before = λ id. ok (u8 (start (value id)));
  cloud_downloader = none;
}

four_files-IsIn : IsIn 1 4 start end 25 2
four_files-IsIn = record {
  least = omega arith;
  most = omega arith;
  from = omega arith;
  until = omega arith;
  filled = λ m lo hi. omega arith;
  sorted = λ m k lo h hi. omega arith;
}

four_files-AllLocated : AllLocated four_files 1 4 start end
unfolding place place_behind value
four_files-AllLocated id canonical lo hi = elim (dec_lt 2 (value id)) [
  | no store ↦ (in_store (u8 (start (value id))) (u8 (end (value id))), ground arith, (refl, refl))
  | yes wal ↦ (in_wal (u8 (start (value id))), ground arith, refl)
]

find_file_with_s3_lem_example :
    (id : UintN ℕ) × (find_file_with_s3 four_files 4 (u8 25) ≡ some (ok (some id))) × (value id ≡ 2)
unfolding value file_ids s3_first_id first_of last_of min_id max_id cmp place place_behind
find_file_with_s3_lem_example =
    find_file_with_s3_lem four_files start end (u8 1) (u8 4) (u8 25) 2 four_files-IsIn
      four_files-AllLocated 4 (in_wal (u8 40)) refl (omega arith) (omega arith) refl tt
      (omega arith)

four_files-cloud : (id : UintN ℕ) → place four_files id ≢ ok cloud_failed
unfolding place place_behind
four_files-cloud id h = elim (dec_lt 2 (value id)) [
  | no store ↦ ground (arith, h)
  | yes wal ↦ ground (arith, h)
]

find_file_with_s3_ends_example : find_file_with_s3 four_files 4 (u8 99) ≢ none
unfolding value file_ids s3_first_id first_of last_of min_id max_id cmp
find_file_with_s3_ends_example =
    find_file_with_s3_ends four_files (u8 99) (u8 1) (omega arith) four_files-cloud 4 (u8 4) refl
      (omega arith) (omega arith) (omega arith)

-- The files 1, 2 and 5 are in the store, and there is an empty file 3 in the log, or none.
abbrev with_gap : WalError ℕ → Option (Cloud ℕ) → Files ℕ
with_gap missing cloud = record {
  store_first_file_id = ok (some (u8 1));
  store_last_file_id = ok (some (u8 5));
  wal_first_file_id = ok none;
  wal_last_file_id = ok none;
  get_file_range = λ id. ok (
      if leb (value id) 2 || leb 5 (value id)
      then some (u8 (start (value id)), u8 (end (value id)))
      else none);
  get_entries_before = λ id. err missing;
  cloud_downloader = cloud;
}

abbrev bounds : Bounds ℕ
bounds = record {
  left_file_id = u8 1;
  right_file_id = u8 5;
  left_end = some (u8 19);
  right_start = u8 50;
}

-- The id 25 is in the file 2, and the search returns the file 1.
binary_search-empty_file_example :
    binary_search (with_gap (wal_empty (u8 3)) none) 2 (u8 25) bounds ≡ some (ok (some (u8 1)))
unfolding value place place_behind middle find_valid_file_backward has_no_data cmp decrement
    increment is_zero from_u8
binary_search-empty_file_example =
    binary_search-empty_file (with_gap (wal_empty (u8 3)) none) (u8 25) (u8 2) (u8 20) (u8 29)
      bounds 0 (omega arith) (omega arith) (omega arith) (omega arith) refl refl refl (omega arith)

abbrev broken_cloud : Cloud ℕ
broken_cloud = record { find_min_id = none; get_file_range = λ id. none }

binary_search-cloud_failed_example :
    binary_search (with_gap wal_not_found (some broken_cloud)) 1000 (u8 25) bounds ≡ none
unfolding value place place_behind cloud_place middle
binary_search-cloud_failed_example =
    binary_search-cloud_failed (with_gap wal_not_found (some broken_cloud)) (u8 25) bounds
      (omega arith) (omega arith) (omega arith) refl 1000
