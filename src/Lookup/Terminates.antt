-- ===== src/Lookup/Terminates.antt =====
-- `normfs/src/lookup.rs`: `find_file_with_s3` ends.
use normfs.Prelude.{
  ◌-◌, ◌≤◌, ◌<◌, ◌≡◌, ◌≢◌, ℕ, inl, inr, Option, none, some, arith, Bool-cases, first, Outcome, ok,
  Outcome-cases,
}
use normfs.UBig.{UBig}
use normfs.UintN.{UintN, value, IsCanonical}
use normfs.UintN.Order.{lt, gt}
use normfs.Lookup.{Files, ValidFile, LookupError, cloud_failed, place, is_within, is_after}
use normfs.Lookup.Find.{file_ids, first_file, find_from_last, find_file_with_s3}
use normfs.Lookup.Ends.{FoundWithin, find_valid_file_backward_lem}
use normfs.Lookup.Rounds.{binary_search_ends}

module _ {U : Type 0} ⦃b : UBig U⦄ (files : Files U) (target_id first_id : UintN U)
    (canonical : IsCanonical first_id)
    (up : (id : UintN U) → place files id ≢ ok cloud_failed) where
  from_last_ends :
      (fuel hi : ℕ) (first_end : Option (UintN U))
      (walked : Outcome (LookupError U) (Option (ValidFile U))) (id s : UintN U)
      (e : Option (UintN U))
      → walked ≡ ok (some (id, s, e))
      → FoundWithin files (value first_id) hi walked
      → hi - value first_id < fuel
      → find_from_last files fuel target_id first_id first_end (id, s, e) ≢ none
  unfolding find_from_last
  from_last_ends fuel hi first_end walked id s e w inside enough =
      let inside' : FoundWithin files (value first_id) hi (ok (some (id, s, e))) = rw w at inside in
      let ends =
        binary_search_ends files target_id up fuel
          (record {
            left_file_id = first_id;
            right_file_id = id;
            left_end = first_end;
            right_start = s;
          })
          (canonical, inside'.0, inside'.1) (omega (arith, inside'.1, inside'.2)) in
      elim (Bool-cases (gt target_id s)) [
        | inl past ↦ ground (arith, past)
        | inr not_past ↦ elim (Bool-cases (is_after target_id e)) [
          | inl past ↦ ground (arith, not_past, past)
          | inr not_after ↦ ground (arith, not_past, not_after, ends)
        ]
      ]

  -- Where the cloud, if there is one, does not fail on a file, `find_file_with_s3` ends, whatever the
  -- files and the gaps between them are, given more fuel than the first and the last file id are apart.
  pub find_file_with_s3_ends :
      (fuel : ℕ) (last_id : UintN U)
      → file_ids files ≡ ok (some (first_id, last_id))
      → IsCanonical last_id
      → value first_id ≤ value last_id
      → value last_id - value first_id < fuel
      → find_file_with_s3 files fuel target_id ≢ none
  unfolding find_file_with_s3
  find_file_with_s3_ends fuel last_id ids canonical' le enough =
      let (walked, w, inside) =
        find_valid_file_backward_lem files fuel last_id first_id canonical' le enough in
      elim (Outcome-cases (first_file files first_id last_id)) [
        | inl o ↦ ground (arith, ids, o)
        | inr (inl (e, o)) ↦ ground (arith, ids, o)
        | inr (inr (none, o)) ↦ ground (arith, ids, o)
        | inr (inr (some (s, e), o)) ↦ elim (Bool-cases (lt target_id s)) [
          | inl early ↦ ground (arith, ids, o, early)
          | inr late ↦ elim (Bool-cases (is_within target_id e)) [
            | inl first ↦ ground (arith, ids, o, late, first)
            | inr behind ↦ elim (Outcome-cases walked) [
              | inl q ↦ ground (arith, ids, o, late, behind, w, q)
              | inr (inl (x, q)) ↦ ground (arith, ids, o, late, behind, w, q)
              | inr (inr (none, q)) ↦ ground (arith, ids, o, late, behind, w, q)
              | inr (inr (some (id, s', e'), q)) ↦ ground (
                arith,
                ids,
                o,
                late,
                behind,
                w,
                q,
                from_last_ends fuel (value last_id) e walked id s' e' q inside enough,
              )
            ]
          ]
        ]
      ]
