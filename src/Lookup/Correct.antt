-- ===== src/Lookup/Correct.antt =====
-- `normfs/src/lookup.rs`: the search returns the file that holds the id.
use normfs.Prelude.{
  ◌+◌, ◌-◌, ◌<◌, ◌≡◌, ◌⊎◌, ℕ, suc, refl, inl, inr, false, none, some, arith, ok, zero,
}
use native.Mathlib.Decide.{dec_lt}
use normfs.UBig.{UBig}
use normfs.UintN.{UintN, value, IsCanonical}
use normfs.UintN.Value.{IsCanonical-IsInRange}
use normfs.UintN.Order.{eq, eq_lem}
use normfs.UintN.Arith.{increment}
use normfs.UintN.Arith.Sum.{increment_lem}
use normfs.UintN.Step.{middle}
use normfs.UintN.Step.Range.{middle_lem}
use normfs.Lookup.{Files, Place, in_store, in_cloud, in_wal, Bounds, Round, found, again, place}
use normfs.Lookup.Search.{adjacent, halve, round, binary_search}
use normfs.Lookup.Order.{IsIn}
use normfs.Lookup.Located.{
  IsAt, AllLocated, Encloses, Good, adjacent_lem, halve_lem, halve_open_lem,
}

module _ {U : Type 0} ⦃b : UBig U⦄ (files : Files U) (first last : ℕ) (start end : ℕ → ℕ)
    (target_id : UintN U) (n : ℕ) (is_in : IsIn first last start end (value target_id) n)
    (located : AllLocated files first last start end) where
  abbrev Enclosed : Bounds U → Type 0
  Enclosed = Encloses files first last start end target_id n is_in located

  abbrev Progress : Bounds U → Round U → Type 0
  Progress = Good files first last start end target_id n is_in located

  -- The middle file halves the bounds, wherever it is.
  ask_mid :
      (fuel : ℕ) (bounds : Bounds U) (p : Place U)
      → Enclosed bounds
      → value bounds.left_file_id + 1 < value bounds.right_file_id
      → (mid : UintN U) → middle bounds.left_file_id bounds.right_file_id ≡ mid
      → IsCanonical mid
      → value bounds.left_file_id < value mid
      → value mid < value bounds.right_file_id
      → eq bounds.left_file_id bounds.right_file_id ≡ false
      → eq (increment bounds.left_file_id) bounds.right_file_id ≡ false
      → place files mid ≡ ok p
      → IsAt files start end (value mid) p
      → (r : Round U) × (round files fuel target_id bounds ≡ some (ok r)) × Progress bounds r
  unfolding round
  ask_mid fuel bounds (in_store s e) enc apart mid m canonical above below different far q at = (
    halve target_id bounds mid s e,
    ground (arith, m, different, far, q),
    halve_lem files first last start end target_id n is_in located bounds mid s e enc canonical
        above below at.0 at.1,
  )
  ask_mid fuel bounds (in_cloud s e) enc apart mid m canonical above below different far q at = (
    halve target_id bounds mid s e,
    ground (arith, m, different, far, q),
    halve_lem files first last start end target_id n is_in located bounds mid s e enc canonical
        above below at.0 at.1,
  )
  ask_mid fuel bounds (in_wal s) enc apart mid m canonical above below different far q at =
      let (r, o, good) =
        halve_open_lem files first last start end target_id n is_in located bounds mid s enc
          canonical above below at in
      (r, ground (arith, m, different, far, q, o), good)
  ask_mid fuel bounds p enc apart mid m canonical above below different far q at = absurd at

  round_lem :
      (fuel : ℕ) (bounds : Bounds U)
      → Enclosed bounds
      → (r : Round U) × (round files fuel target_id bounds ≡ some (ok r)) × Progress bounds r
  unfolding round
  round_lem fuel bounds enc =
      let l = bounds.left_file_id in
      let r = bounds.right_file_id in
      let (grown, next-canonical) = increment_lem l enc.left in
      let same =
        eq_lem l r (IsCanonical-IsInRange l enc.left) (IsCanonical-IsInRange r enc.right) in
      let next =
        eq_lem (increment l) r (IsCanonical-IsInRange (increment l) next-canonical)
          (IsCanonical-IsInRange r enc.right) in
      let order = enc.left_le in
      let order' = enc.le_right in
      elim (dec_lt (value l) (value r)) [
        | no equal ↦ (
          found (some l),
          ground (arith, same, equal, order, order'),
          omega (arith, order, order', equal),
        )
        | yes less ↦ elim (dec_lt (value l + 1) (value r)) [
          | no near ↦
              let touching : value l + 1 ≡ value r = omega arith in
              (
                found (some (adjacent target_id bounds)),
                ground (arith, same, next, touching, grown),
                adjacent_lem files first last start end target_id n is_in located bounds enc
                    touching,
              )
          | yes far ↦
              let (half, mid-canonical) = middle_lem l r enc.left enc.right in
              let mid = middle l r in
              let above : value l < value mid = omega (arith, half) in
              let below : value mid < value r = omega (arith, half) in
              let (p, q, at) =
                located mid mid-canonical (omega (arith, enc.lo)) (omega (arith, enc.hi)) in
              ask_mid fuel bounds p enc far mid refl mid-canonical above below
                (ground (arith, same, less)) (ground (arith, next, grown, far)) q at
        ]
      ]

  Progress-cases :
      (bounds : Bounds U) (r : Round U)
      → Progress bounds r
      → ((id : UintN U) × (r ≡ found (some id)) × (value id ≡ n))
        ⊎ ((next : Bounds U) × (r ≡ again next)
            × Enclosed next
            × (value next.right_file_id - value next.left_file_id
                < value bounds.right_file_id - value bounds.left_file_id))
  Progress-cases bounds (found none) good = absurd good
  Progress-cases bounds (found (some id)) good = inl (id, refl, good)
  Progress-cases bounds (again next) (enc, less) = inr (next, refl, enc, less)

  -- With more fuel than the bounds are apart, the search returns the file.
  pub binary_search_lem :
      (fuel : ℕ) (bounds : Bounds U)
      → Enclosed bounds
      → value bounds.right_file_id - value bounds.left_file_id < fuel
      → (id : UintN U) × (binary_search files fuel target_id bounds ≡ some (ok (some id)))
        × (value id ≡ n)
  unfolding binary_search
  binary_search_lem zero bounds enc h = absurd (omega arith)
  binary_search_lem (suc fuel) bounds enc h =
      let (r, q, good) = round_lem (suc fuel) bounds enc in
      elim (Progress-cases bounds r good) [
        | inl (id, is_found, same) ↦ (id, ground (arith, q, is_found), same)
        | inr (next, is_again, enc', less) ↦
            let (id, found_it, same) = binary_search_lem fuel next enc' (omega arith) in
            (id, ground (arith, q, is_again, found_it), same)
      ]
