-- ===== src/Lookup/Gaps.antt =====
-- `normfs/src/lookup.rs`: the search where the cloud fails, and where a file has no data.
use normfs.Prelude.{◌+◌, ◌≤◌, ◌<◌, ◌≡◌, ◌==◌, ℕ, suc, refl, none, some, arith, ok, zero}
use normfs.UBig.{UBig}
use normfs.UintN.{UintN, value, IsCanonical}
use normfs.UintN.Value.{IsCanonical-IsInRange}
use normfs.UintN.Order.{eq, eq_lem, cmp_lem}
use normfs.UintN.Arith.{increment}
use normfs.UintN.Arith.Sum.{increment_lem}
use normfs.UintN.Step.{middle}
use normfs.Lookup.{Files, Bounds, cloud_failed, empty_file, place, find_valid_file_backward}
use normfs.Lookup.Search.{adjacent, walk_back, round, binary_search}

module _ {U : Type 0} ⦃b : UBig U⦄ where
  -- How the bounds of a round compare.
  pub compared :
      (l r : UintN U)
      → IsCanonical l
      → IsCanonical r
      → (eq l r ≡ (value l == value r)) × (eq (increment l) r ≡ (value l + 1 == value r))
  compared l r canonical canonical' =
      let (grown, next-canonical) = increment_lem l canonical in
      (
        eq_lem l r (IsCanonical-IsInRange l canonical) (IsCanonical-IsInRange r canonical'),
        rw (← grown) (
            eq_lem (increment l) r (IsCanonical-IsInRange (increment l) next-canonical)
              (IsCanonical-IsInRange r canonical')),
      )

module _ {U : Type 0} ⦃b : UBig U⦄ (files : Files U) where
  -- Where the cloud fails at the middle of bounds that are more than one apart, `binary_search` does
  -- not end: whatever the fuel, it runs out.
  pub binary_search-cloud_failed :
      (target_id : UintN U) (bounds : Bounds U)
      → IsCanonical bounds.left_file_id
      → IsCanonical bounds.right_file_id
      → value bounds.left_file_id + 1 < value bounds.right_file_id
      → place files (middle bounds.left_file_id bounds.right_file_id) ≡ ok cloud_failed
      → (fuel : ℕ) → binary_search files fuel target_id bounds ≡ none
  unfolding binary_search round
  binary_search-cloud_failed target_id bounds canonical canonical' far failed zero = refl
  binary_search-cloud_failed target_id bounds canonical canonical' far failed (suc fuel) =
      let (same, next) = compared bounds.left_file_id bounds.right_file_id canonical canonical' in
      let again =
        binary_search-cloud_failed target_id bounds canonical canonical' far failed fuel in
      ground (arith, same, next, failed, again)

  -- Where the middle file is empty and the walk back from it arrives at the file next to the left
  -- one, `binary_search` returns the left file for every id up to the end of the other file, also
  -- for an id that is in the other file.
  pub binary_search-empty_file :
      (target_id valid_id valid_start valid_end : UintN U) (bounds : Bounds U) (fuel : ℕ)
      → IsCanonical bounds.left_file_id
      → IsCanonical bounds.right_file_id
      → IsCanonical valid_id
      → value bounds.left_file_id + 1 < value bounds.right_file_id
      → place files (middle bounds.left_file_id bounds.right_file_id) ≡ ok empty_file
      → find_valid_file_backward files
          (suc (suc fuel))
          (middle bounds.left_file_id bounds.right_file_id)
          (increment bounds.left_file_id)
        ≡ some (ok (some (valid_id, valid_start, some valid_end)))
      → value valid_id ≡ value bounds.left_file_id + 1
      → value target_id ≤ value valid_end
      → binary_search files (suc (suc fuel)) target_id bounds ≡ some (ok (some bounds.left_file_id))
  unfolding binary_search round walk_back adjacent
  binary_search-empty_file target_id valid_id valid_start valid_end bounds fuel canonical canonical'
        valid-canonical far empty walked near within =
      let (same, next) = compared bounds.left_file_id bounds.right_file_id canonical canonical' in
      let (same', next') = compared bounds.left_file_id valid_id canonical valid-canonical in
      ground (arith, same, next, same', next', empty, walked, cmp_lem target_id valid_end)
