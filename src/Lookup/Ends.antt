-- ===== src/Lookup/Ends.antt =====
-- `normfs/src/lookup.rs`: the lookup ends.
use normfs.Prelude.{
  ◌-◌, ◌≤◌, ◌<◌, ◌≡◌, ◌≢◌, ℕ, suc, inl, inr, Option, none, some, arith, Bool-cases, Outcome, ok,
  err, panic, Returns-eq, zero, Outcome-cases,
}
use native.Mathlib.Decide.{dec_lt}
use normfs.UBig.{UBig}
use normfs.UintN.{UintN, value, IsCanonical}
use normfs.UintN.Order.{cmp_lem}
use normfs.UintN.Arith.{decrement}
use normfs.UintN.Arith.Difference.{decrement_lem}
use normfs.Lookup.{store, wal, Files, ValidFile, LookupError, find_valid_file_backward, has_no_data}

module _ {U : Type 0} ⦃b : UBig U⦄ (files : Files U) where
  -- A file that a walk back finds lies between the bounds.
  abbrev pub FoundWithin : ℕ → ℕ → Outcome (LookupError U) (Option (ValidFile U)) → Type 0
  FoundWithin lo hi (ok (some (id, s, e))) = IsCanonical id × (lo ≤ value id) × (value id ≤ hi)
  FoundWithin lo hi r = Unit {0}

  FoundWithin-le :
      (lo hi hi' : ℕ) (r : Outcome (LookupError U) (Option (ValidFile U)))
      → hi ≤ hi'
      → FoundWithin lo hi r
      → FoundWithin lo hi' r
  FoundWithin-le lo hi hi' (ok (some (id, s, e))) le (canonical, above, below) =
      (canonical, above, omega arith)
  FoundWithin-le lo hi hi' (ok none) le h = tt
  FoundWithin-le lo hi hi' (err e) le h = tt
  FoundWithin-le lo hi hi' panic le h = tt

  pub find_valid_file_backward_lem :
      (fuel : ℕ) (id min_id : UintN U)
      → IsCanonical id
      → value min_id ≤ value id
      → value id - value min_id < fuel
      → (r : Outcome (LookupError U) (Option (ValidFile U))) × (find_valid_file_backward files fuel
            id min_id
          ≡ some r)
        × FoundWithin (value min_id) (value id) r
  unfolding find_valid_file_backward
  find_valid_file_backward_lem zero id min_id canonical le enough = absurd (omega arith)
  find_valid_file_backward_lem (suc fuel) id min_id canonical le enough =
      elim (Outcome-cases (files.get_file_range id)) [
        | inl o ↦ (panic, ground (arith, o), tt)
        | inr (inl (e, o)) ↦ (err (store e), ground (arith, o), tt)
        | inr (inr (some (start, end), o)) ↦
            (ok (some (id, start, some end)), ground (arith, o), (canonical, le, omega arith))
        | inr (inr (none, o)) ↦ elim (Outcome-cases (files.get_entries_before id)) [
          | inl q ↦ (panic, ground (arith, o, q), tt)
          | inr (inr (start, q)) ↦
              (ok (some (id, start, none)), ground (arith, o, q), (canonical, le, omega arith))
          | inr (inl (e, q)) ↦ elim (Bool-cases (has_no_data e)) [
            | inr other ↦ (err (wal e), ground (arith, o, q, other), tt)
            | inl absent ↦ elim (dec_lt (value min_id) (value id)) [
              | no least ↦ (ok none, ground (arith, o, q, absent, least, cmp_lem id min_id), tt)
              | yes more ↦
                  let positive : value id ≢ 0 = λ z. absurd (omega (arith, z)) in
                  let (next, d, (smaller, next-canonical)) =
                    Returns-eq _ (decrement id) (decrement_lem id canonical positive) in
                  let (r, again, inside) =
                    find_valid_file_backward_lem fuel next min_id next-canonical
                      (omega (arith, smaller)) (omega (arith, smaller)) in
                  (
                    r,
                    ground (arith, o, q, absent, more, cmp_lem id min_id, d, again),
                    FoundWithin-le (value min_id) (value next) (value id) r (omega (arith, smaller))
                        inside,
                  )
            ]
          ]
        ]
      ]
