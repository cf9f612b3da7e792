-- ===== src/Lookup/Rounds.antt =====
-- `normfs/src/lookup.rs`: every round of the search brings its bounds closer, and the search ends.
use normfs.Prelude.{
  ◌+◌, ◌-◌, ◌≤◌, ◌<◌, ◌≡◌, ◌≢◌, ◌⊎◌, if◌then◌else◌, ℕ, suc, refl, inl, inr, false, Option, none,
  some, arith, Bool-cases, Outcome, ok, err, panic, zero,
}
use normfs.UBig.{UBig}
use normfs.UintN.Order.{eq}
use normfs.UintN.Step.{middle}
use normfs.UintN.Arith.{increment}
use normfs.UintN.Arith.Sum.{increment_lem}
use normfs.UintN.Step.Range.{middle_lem}
use normfs.Lookup.Gaps.{compared}
use normfs.Lookup.{find_valid_file_backward, ValidFile, store, file_not_found}
use normfs.Lookup.Ends.{FoundWithin, find_valid_file_backward_lem}
use normfs.Lookup.Search.{adjacent, halve_open, walk_back, round, binary_search}
use normfs.UintN.{UintN, value, IsCanonical}
use normfs.UintN.Order.{lt, le}
use normfs.Lookup.{
  Files, LookupError, Place, Bounds, Round, found, again, place, in_store, in_cloud, in_wal,
  empty_file, no_cloud, not_in_cloud, cloud_failed,
}
use normfs.Lookup.Search.{halve, ask_next}

module _ {U : Type 0} ⦃b : UBig U⦄ where
  -- Bounds in order.
  abbrev pub IsOrdered : Bounds U → Type 0
  IsOrdered bounds =
      IsCanonical bounds.left_file_id
      × IsCanonical bounds.right_file_id
      × (value bounds.left_file_id ≤ value bounds.right_file_id)

  abbrev pub distance : Bounds U → ℕ
  distance bounds = value bounds.right_file_id - value bounds.left_file_id

  abbrev pub IsCloser : Bounds U → Outcome (LookupError U) (Round U) → Type 0
  IsCloser bounds (ok (again next)) = IsOrdered next × (distance next < distance bounds)
  IsCloser bounds r = Unit {0}

module _ {U : Type 0} ⦃b : UBig U⦄ (files : Files U) (target_id : UintN U) (bounds : Bounds U)
    (ordered : IsOrdered bounds) (mid : UintN U) (canonical : IsCanonical mid)
    (above : value bounds.left_file_id < value mid)
    (below : value mid < value bounds.right_file_id) where
  halve-IsCloser : (s e : UintN U) → IsCloser bounds (ok (halve target_id bounds mid s e))
  unfolding halve
  halve-IsCloser s e = elim (Bool-cases (lt target_id s)) [
    | inl early ↦
        let same : halve target_id bounds mid s e
            ≡ again (record bounds { right_file_id = mid; right_start = s }) =
          ground (arith, early) in
        rw same ((ordered.0, canonical, omega arith), omega arith)
    | inr late ↦ elim (Bool-cases (le target_id e)) [
      | inl inside ↦
          let same : halve target_id bounds mid s e ≡ found (some mid) =
            ground (arith, late, inside) in
          rw same tt
      | inr behind ↦
          let same : halve target_id bounds mid s e
              ≡ again (record bounds { left_file_id = mid; left_end = some e }) =
            ground (arith, late, behind) in
          rw same ((canonical, ordered.1, omega arith), omega arith)
    ]
  ]

  decided :
      (s : UintN U)
      → IsCloser bounds (
          if lt target_id s
          then ok (found (some mid))
          else ok (again (record bounds { left_file_id = mid; left_end = none })))
  decided s = elim (Bool-cases (lt target_id s)) [
    | inl early ↦ rw early tt
    | inr late ↦ rw late ((canonical, ordered.1, omega arith), omega arith)
  ]

  ask_next-IsCloser :
      (next : UintN U) (p : Outcome (LookupError U) (Place U))
      → place files next ≡ p
      → IsCloser bounds (ask_next files target_id bounds mid next)
  unfolding ask_next
  ask_next-IsCloser next (ok (in_store s e)) q = rw (ask_next, q) (decided s)
  ask_next-IsCloser next (ok (in_cloud s e)) q = rw (ask_next, q) (decided s)
  ask_next-IsCloser next (ok (in_wal s)) q = rw (ask_next, q) (decided s)
  ask_next-IsCloser next (ok empty_file) q = rw (ask_next, q) tt
  ask_next-IsCloser next (ok no_cloud) q = rw (ask_next, q) tt
  ask_next-IsCloser next (ok not_in_cloud) q = rw (ask_next, q) tt
  ask_next-IsCloser next (ok cloud_failed) q = rw (ask_next, q) tt
  ask_next-IsCloser next (err e) q = rw (ask_next, q) tt
  ask_next-IsCloser next panic q = rw (ask_next, q) tt

  halve_open-IsCloser : (s : UintN U) → IsCloser bounds (halve_open files target_id bounds mid s)
  unfolding halve_open
  halve_open-IsCloser s =
      let next = increment mid in
      elim (Bool-cases (lt target_id s)) [
        | inl early ↦
            let same : halve_open files target_id bounds mid s
                ≡ ok (again (record bounds { right_file_id = mid; right_start = s })) =
              ground (arith, early) in
            rw same ((ordered.0, canonical, omega arith), omega arith)
        | inr late ↦ elim (Bool-cases (le next bounds.right_file_id)) [
          | inl more ↦
              let same : halve_open files target_id bounds mid s
                  ≡ ask_next files target_id bounds mid next =
                ground (arith, late, more) in
              rw same (ask_next-IsCloser next (place files next) refl)
          | inr none_left ↦
              let same : halve_open files target_id bounds mid s ≡ ok (found (some mid)) =
                ground (arith, late, none_left) in
              rw same tt
        ]
      ]

  walked-IsCloser :
      (fuel : ℕ) (walked : Outcome (LookupError U) (Option (ValidFile U)))
      → find_valid_file_backward files fuel mid (increment bounds.left_file_id) ≡ some walked
      → FoundWithin files (value (increment bounds.left_file_id)) (value mid) walked
      → (r : Outcome (LookupError U) (Round U)) × (walk_back files fuel bounds mid ≡ some r)
        × IsCloser bounds r
  unfolding walk_back
  walked-IsCloser fuel (ok (some (id, s, e))) q (id-canonical, lo, hi) =
      let (grown, _) = increment_lem bounds.left_file_id ordered.0 in
      (
        ok (again (record bounds { right_file_id = id; right_start = s; left_end = e })),
        ground (arith, q),
        ((ordered.0, id-canonical, omega (arith, grown)), omega (arith, grown)),
      )
  walked-IsCloser fuel (ok none) q inside =
      (ok (found (some bounds.left_file_id)), ground (arith, q), tt)
  walked-IsCloser fuel (err e) q inside = (err e, ground (arith, q), tt)
  walked-IsCloser fuel panic q inside = (panic, ground (arith, q), tt)

  walk_back-IsCloser :
      (fuel : ℕ)
      → distance bounds < fuel
      → (r : Outcome (LookupError U) (Round U)) × (walk_back files fuel bounds mid ≡ some r)
        × IsCloser bounds r
  walk_back-IsCloser fuel enough =
      let (grown, _) = increment_lem bounds.left_file_id ordered.0 in
      let (walked, q, inside) =
        find_valid_file_backward_lem files fuel mid (increment bounds.left_file_id) canonical
          (omega (arith, grown)) (omega (arith, grown)) in
      walked-IsCloser fuel walked q inside

  ask_mid-IsCloser :
      (fuel : ℕ) (p : Outcome (LookupError U) (Place U))
      → middle bounds.left_file_id bounds.right_file_id ≡ mid
      → eq bounds.left_file_id bounds.right_file_id ≡ false
      → eq (increment bounds.left_file_id) bounds.right_file_id ≡ false
      → distance bounds < fuel
      → place files mid ≡ p
      → p ≢ ok cloud_failed
      → (r : Outcome (LookupError U) (Round U)) × (round files fuel target_id bounds ≡ some r)
        × IsCloser bounds r
  unfolding round
  ask_mid-IsCloser fuel (ok (in_store s e)) m different far enough q up = (
    ok (halve target_id bounds mid s e),
    ground (arith, m, different, far, q),
    halve-IsCloser s e,
  )
  ask_mid-IsCloser fuel (ok (in_cloud s e)) m different far enough q up = (
    ok (halve target_id bounds mid s e),
    ground (arith, m, different, far, q),
    halve-IsCloser s e,
  )
  ask_mid-IsCloser fuel (ok (in_wal s)) m different far enough q up = (
    halve_open files target_id bounds mid s,
    ground (arith, m, different, far, q),
    halve_open-IsCloser s,
  )
  ask_mid-IsCloser fuel (ok no_cloud) m different far enough q up =
      let (r, walked, closer) = walk_back-IsCloser fuel enough in
      (r, ground (arith, m, different, far, q, walked), closer)
  ask_mid-IsCloser fuel (ok empty_file) m different far enough q up =
      let (r, walked, closer) = walk_back-IsCloser fuel enough in
      (r, ground (arith, m, different, far, q, walked), closer)
  ask_mid-IsCloser fuel (ok not_in_cloud) m different far enough q up =
      (err (store file_not_found), ground (arith, m, different, far, q), tt)
  ask_mid-IsCloser fuel (ok cloud_failed) m different far enough q up = absurd (up refl)
  ask_mid-IsCloser fuel (err e) m different far enough q up =
      (err e, ground (arith, m, different, far, q), tt)
  ask_mid-IsCloser fuel panic m different far enough q up =
      (panic, ground (arith, m, different, far, q), tt)

module _ {U : Type 0} ⦃b : UBig U⦄ (files : Files U) (target_id : UintN U)
    (up : (id : UintN U) → place files id ≢ ok cloud_failed) where
  round-IsCloser :
      (fuel : ℕ) (bounds : Bounds U)
      → IsOrdered bounds
      → distance bounds < fuel
      → (r : Outcome (LookupError U) (Round U)) × (round files fuel target_id bounds ≡ some r)
        × IsCloser bounds r
  unfolding round
  round-IsCloser fuel bounds ordered enough =
      let l = bounds.left_file_id in
      let r = bounds.right_file_id in
      let (same, next) = compared l r ordered.0 ordered.1 in
      elim (Bool-cases (eq l r)) [
        | inl equal ↦ (ok (found (some l)), ground (arith, equal), tt)
        | inr different ↦ elim (Bool-cases (eq (increment l) r)) [
          | inl near ↦
              (ok (found (some (adjacent target_id bounds))), ground (arith, different, near), tt)
          | inr far ↦
              let (half, canonical) = middle_lem l r ordered.0 ordered.1 in
              let apart : value l + 1 < value r =
                ground (arith, same, next, different, far, ordered) in
              ask_mid-IsCloser files target_id bounds ordered (middle l r) canonical
                (omega (arith, half)) (omega (arith, half)) fuel (place files (middle l r)) refl
                different far enough refl (up (middle l r))
        ]
      ]

  IsCloser-cases :
      (bounds : Bounds U) (r : Outcome (LookupError U) (Round U))
      → IsCloser bounds r
      → ((e : LookupError U) × (r ≡ err e))
        ⊎ (r ≡ panic)
        ⊎ ((id : Option (UintN U)) × (r ≡ ok (found id)))
        ⊎ ((next : Bounds U) × (r ≡ ok (again next))
            × IsOrdered next
            × (distance next < distance bounds))
  IsCloser-cases bounds (err e) h = inl (e, refl)
  IsCloser-cases bounds panic h = inr (inl refl)
  IsCloser-cases bounds (ok (found id)) h = inr (inr (inl (id, refl)))
  IsCloser-cases bounds (ok (again next)) (ordered, less) =
      inr (inr (inr (next, refl, ordered, less)))

  -- Where the cloud does not fail, the search ends with more fuel than its bounds are apart.
  pub binary_search_ends :
      (fuel : ℕ) (bounds : Bounds U)
      → IsOrdered bounds
      → distance bounds < fuel
      → binary_search files fuel target_id bounds ≢ none
  unfolding binary_search
  binary_search_ends zero bounds ordered enough = absurd (omega arith)
  binary_search_ends (suc fuel) bounds ordered enough =
      let (r, q, closer) = round-IsCloser (suc fuel) bounds ordered enough in
      elim (IsCloser-cases bounds r closer) [
        | inl (e, h) ↦ ground (arith, q, h)
        | inr (inl h) ↦ ground (arith, q, h)
        | inr (inr (inl (id, h))) ↦ ground (arith, q, h)
        | inr (inr (inr (next, h, ordered', less))) ↦
            ground (arith, q, h, binary_search_ends fuel next ordered' (omega arith))
      ]
