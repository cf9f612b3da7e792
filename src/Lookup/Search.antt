-- ===== src/Lookup/Search.antt =====
-- `normfs/src/lookup.rs`: `binary_search`.
use normfs.Prelude.{if◌then◌else◌, ℕ, suc, Option, none, some, Outcome, ok, err, panic, zero}
use normfs.UBig.{UBig}
use normfs.UintN.{UintN}
use normfs.UintN.Order.{eq, lt, le}
use normfs.UintN.Arith.{increment}
use normfs.UintN.Step.{middle}
use normfs.Wal.Reader.{wal_not_found}
use normfs.Lookup.{
  LookupError, Files, in_store, in_cloud, in_wal, empty_file, no_cloud, not_in_cloud, cloud_failed,
  Bounds, Round, store, wal, found, again, file_not_found, place, find_valid_file_backward,
}

module _ {U : Type 0} ⦃b : UBig U⦄ where
  -- Which of two adjacent files it is.
  unfoldable pub adjacent : UintN U → Bounds U → UintN U
  adjacent target_id bounds = elim bounds.left_end [
    | none ↦ if lt target_id bounds.right_start then bounds.left_file_id else bounds.right_file_id
    | some left_end_val ↦
        if le target_id left_end_val then bounds.left_file_id else bounds.right_file_id
  ]

  -- The middle file's start is known, and its end is.
  unfoldable pub halve : UintN U → Bounds U → UintN U → UintN U → UintN U → Round U
  halve target_id bounds mid_file_id mid_start mid_end =
      if lt target_id mid_start
      then again (record bounds { right_file_id = mid_file_id; right_start = mid_start })
      else if le target_id mid_end
      then found (some mid_file_id)
      else again (record bounds { left_file_id = mid_file_id; left_end = some mid_end })

  module _ (files : Files U) where
    -- Its end is not known: the start of the next file decides.
    unfoldable pub ask_next :
        UintN U → Bounds U → UintN U → UintN U → Outcome (LookupError U) (Round U)
    ask_next target_id bounds mid_file_id next_mid =
        let decide : UintN U → Outcome (LookupError U) (Round U) = λ next_start.
          if lt target_id next_start
          then ok (found (some mid_file_id))
          else ok (again (record bounds { left_file_id = mid_file_id; left_end = none })) in
        elim (place files next_mid) [
          | panic ↦ panic
          | err e ↦ err e
          | ok (in_store start _) ↦ decide start
          | ok (in_wal start) ↦ decide start
          | ok (in_cloud start _) ↦ decide start
          | ok not_in_cloud ↦ err (store file_not_found)
          | ok cloud_failed ↦ ok (found (some mid_file_id))
          | ok no_cloud ↦ err (wal wal_not_found)
          | ok empty_file ↦ err (store file_not_found)
        ]

    unfoldable pub halve_open :
        UintN U → Bounds U → UintN U → UintN U → Outcome (LookupError U) (Round U)
    halve_open target_id bounds mid_file_id mid_start =
        let next_mid = increment mid_file_id in
        if lt target_id mid_start
        then ok (again (record bounds { right_file_id = mid_file_id; right_start = mid_start }))
        else if le next_mid bounds.right_file_id
        then ask_next target_id bounds mid_file_id next_mid
        else ok (found (some mid_file_id))

    -- The middle file has no data: the nearest file before it that has becomes the right one.
    unfoldable pub walk_back : ℕ → Bounds U → UintN U → Option (Outcome (LookupError U) (Round U))
    walk_back fuel bounds mid_file_id =
        elim (find_valid_file_backward files fuel mid_file_id (increment bounds.left_file_id)) [
          | none ↦ none
          | some panic ↦ some panic
          | some (err e) ↦ some (err e)
          | some (ok none) ↦ some (ok (found (some bounds.left_file_id)))
          | some (ok (some (valid_id, valid_start, valid_end))) ↦ some (
              ok (
                again (record bounds {
                  right_file_id = valid_id;
                  right_start = valid_start;
                  left_end = valid_end;
                })))
        ]

    -- A round of the loop. Where the cloud fails, `continue` begins the same round again.
    unfoldable pub round : ℕ → UintN U → Bounds U → Option (Outcome (LookupError U) (Round U))
    round fuel target_id bounds =
        let mid_file_id = middle bounds.left_file_id bounds.right_file_id in
        if eq bounds.left_file_id bounds.right_file_id
        then some (ok (found (some bounds.left_file_id)))
        else if eq (increment bounds.left_file_id) bounds.right_file_id
        then some (ok (found (some (adjacent target_id bounds))))
        else elim (place files mid_file_id) [
          | panic ↦ some panic
          | err e ↦ some (err e)
          | ok (in_store start end) ↦ some (ok (halve target_id bounds mid_file_id start end))
          | ok (in_cloud start end) ↦ some (ok (halve target_id bounds mid_file_id start end))
          | ok (in_wal start) ↦ some (halve_open target_id bounds mid_file_id start)
          | ok no_cloud ↦ walk_back fuel bounds mid_file_id
          | ok empty_file ↦ walk_back fuel bounds mid_file_id
          | ok not_in_cloud ↦ some (err (store file_not_found))
          | ok cloud_failed ↦ some (ok (again bounds))
        ]

    unfoldable pub binary_search :
        ℕ → UintN U → Bounds U → Option (Outcome (LookupError U) (Option (UintN U)))
    binary_search zero target_id bounds = none
    binary_search (suc fuel) target_id bounds = elim (round (suc fuel) target_id bounds) [
      | none ↦ none
      | some panic ↦ some panic
      | some (err e) ↦ some (err e)
      | some (ok (found id)) ↦ some (ok id)
      | some (ok (again bounds')) ↦ binary_search fuel target_id bounds'
    ]
