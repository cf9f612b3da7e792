-- ===== src/Start/Walk.antt =====
-- `normfs/src/lib.rs`: what `continue_queue` finds.
use normfs.Prelude.{
  ◌+◌, ◌-◌, ◌≤◌, ◌<◌, ◌≡◌, ◌∙◌, ◌==◌, if◌then◌else◌, ℕ, suc, refl, true, false, none, some, arith,
  Outcome, ok, err, Returns-eq, zero,
}
use normfs.UintN.Value.{IsCanonical-IsInRange}
use normfs.UintN.{value, IsCanonical, IsInRange}
use normfs.Start.{
  Sources, UintN, continue_queue, walk_backward, get_latest_file, get_file_end_all_sources,
  decrement, go_on, increment, eq, header_of,
}
use normfs.UBig.{UBig}
use normfs.Wal.Header
use normfs.UintN
use normfs.UintN.{Represents}
use normfs.UintN.Order.{eq_lem}
use normfs.UintN.Arith.Difference.{decrement_lem}
use native.Mathlib.Decide.{dec_lt}
use normfs.UintN.{decrement_underflow}
use normfs.UintN.Arith.Difference.{decrement_underflow_lem}
use normfs.Fsm.{FsError}
use normfs.Lookup.{StoreError}
use normfs.Start.{Continuation}

module _ {U : Type 0} ⦃b : UBig U⦄ (sources : Sources U) where
  -- No entry is found in a file with an id above `m` and up to `n`.
  abbrev pub NothingIn : ℕ → ℕ → Type 0
  NothingIn m n =
      (id : UintN U)
      → IsCanonical id
      → m < value id
      → value id ≤ n
      → get_file_end_all_sources sources id ≡ none

  one_lem : (value (UintN.one {U = U}) ≡ 1) × IsInRange (UintN.one {U = U})
  unfolding value UintN.one
  one_lem = (refl, omega arith)

  -- One round where the file has no entry.
  step_back :
      (fuel : ℕ) (latest current : UintN U)
      → IsCanonical current
      → 1 < value current
      → get_file_end_all_sources sources current ≡ none
      → (before : UintN U) × Represents before (value current - 1)
        × (walk_backward sources (suc fuel) latest current
            ≡ walk_backward sources fuel latest before)
  unfolding walk_backward
  step_back fuel latest current c gt nothing =
      let (before, e, r) =
        Returns-eq _ (decrement current) (decrement_lem current c (omega (arith, gt))) in
      let same = eq_lem current UintN.one (IsCanonical-IsInRange current c) one_lem.1 in
      let other : eq current UintN.one ≡ false = ground (arith, same, gt, one_lem.0) in
      (before, r, rw (walk_backward, nothing, other, e) refl)

  finds :
      (fuel m : ℕ) (latest current last_entry_id : UintN U)
      → IsCanonical current
      → 1 ≤ m
      → m ≤ value current
      → value current < fuel + m
      → NothingIn m (value current)
      → ((id : UintN U)
          → IsCanonical id
          → value id ≡ m
          → get_file_end_all_sources sources id ≡ some last_entry_id)
      → (id : UintN U) × Represents id m
        × (walk_backward sources fuel latest current
            ≡ some (ok (go_on sources latest id last_entry_id)))
  unfolding walk_backward
  finds zero m latest current last_entry_id c pos le enough nothing there = absurd (omega arith)
  finds (suc fuel) m latest current last_entry_id c pos le enough nothing there =
      elim (dec_lt m (value current)) [
        | no at ↦
            let e : value current ≡ m = omega (arith, at, le) in
            (current, (e, c), rw (walk_backward, there current c e) refl)
        | yes above ↦
            let (before, r, same) =
              step_back fuel latest current c (omega (arith, above, pos))
                (nothing current c above (omega arith)) in
            let (id, is, found_there) =
              finds fuel m latest before last_entry_id r.1 pos (omega (arith, r.0, above))
                (omega (arith, r.0, enough, above))
                (λ id k lo hi. nothing id k lo (omega (arith, hi, r.0))) there in
            (id, is, same ∙ found_there)
      ]

  -- Where the latest file has the id `n`, and the last file up to it in which an entry is found has
  -- the id `m` and the last entry `last_entry_id`, with more fuel than `n`: the queue goes on in the
  -- file after the latest one if that is it, and else in the latest file itself, whether that is empty
  -- or its end could not be read; with the header of the file `m`, or the default one, and the number
  -- after the last entry.
  pub continue_queue-found :
      (fuel m : ℕ) (latest last_entry_id : UintN U)
      → get_latest_file sources ≡ some latest
      → IsCanonical latest
      → 1 ≤ m
      → m ≤ value latest
      → value latest < fuel
      → NothingIn m (value latest)
      → ((id : UintN U)
          → IsCanonical id
          → value id ≡ m
          → get_file_end_all_sources sources id ≡ some last_entry_id)
      → (id : UintN U) × Represents id m
        × (continue_queue sources fuel
            ≡ some (
                ok (
                  if m == value latest then increment latest else latest,
                  record (header_of sources id) { num_entries_before = increment last_entry_id },
                  some last_entry_id,
                )))
  unfolding continue_queue
  continue_queue-found fuel m latest last_entry_id is_latest c pos le enough nothing there =
      let (id, is, r) =
        finds fuel m latest latest last_entry_id c pos le (omega (arith, enough, pos)) nothing
          there in
      let same =
        eq_lem id latest (IsCanonical-IsInRange id is.1) (IsCanonical-IsInRange latest c) in
      (id, is, rw (continue_queue, is_latest, r, same, is.0) refl)

  nothing_left :
      (fuel : ℕ) (latest current : UintN U)
      → IsCanonical current
      → 1 ≤ value current
      → value current ≤ fuel
      → NothingIn 0 (value current)
      → walk_backward sources fuel latest current ≡ some (ok (UintN.one, Header.default, none))
  unfolding walk_backward
  nothing_left zero latest current c pos enough nothing = absurd (omega arith)
  nothing_left (suc fuel) latest current c pos enough nothing = elim (dec_lt 1 (value current)) [
    | no at ↦
        let none_here = nothing current c (omega (arith, pos)) (omega arith) in
        let same = eq_lem current UintN.one (IsCanonical-IsInRange current c) one_lem.1 in
        let first : eq current UintN.one ≡ true = ground (arith, same, at, pos, one_lem.0) in
        rw (walk_backward, none_here, first) refl
    | yes above ↦
        let (before, r, same) =
          step_back fuel latest current c above
            (nothing current c (omega (arith, pos)) (omega arith)) in
        same
        ∙ nothing_left fuel latest before r.1 (omega (arith, r.0, above))
            (omega (arith, r.0, enough, above))
            (λ id k lo hi. nothing id k lo (omega (arith, hi, r.0)))
  ]

  -- One round at file 0, where it has no entry.
  below_first :
      (fuel : ℕ) (latest current : UintN U)
      → IsCanonical current
      → value current ≡ 0
      → get_file_end_all_sources sources current ≡ none
      → walk_backward sources (suc fuel) latest current
        ≡ some (err (FsError.store (StoreError.uintn decrement_underflow)))
  unfolding walk_backward
  below_first fuel latest current c at_zero nothing =
      let same = eq_lem current UintN.one (IsCanonical-IsInRange current c) one_lem.1 in
      let other : eq current UintN.one ≡ false = ground (arith, same, at_zero, one_lem.0) in
      rw (walk_backward, nothing, other, decrement_underflow_lem current at_zero) refl

  -- What `continue_queue` returns where it finds no entry at all.
  abbrev pub without_entries : UintN U → Outcome (FsError U) (Continuation U)
  without_entries latest =
      if value latest == 0
      then err (FsError.store (StoreError.uintn decrement_underflow))
      else ok (UintN.one, Header.default, none)

  -- For a latest id in canonical form and more fuel than it, where no entry is found in the log or the
  -- store, neither in the latest file nor in a file from 1 up to it: the queue starts anew with the first
  -- file and no entry if the latest id is at least 1, and else, where it is 0, the call fails with the
  -- underflow error of `decrement`.
  pub continue_queue-anew :
      (fuel : ℕ) (latest : UintN U)
      → get_latest_file sources ≡ some latest
      → IsCanonical latest
      → value latest < fuel
      → get_file_end_all_sources sources latest ≡ none
      → NothingIn 0 (value latest)
      → continue_queue sources fuel ≡ some (without_entries latest)
  unfolding continue_queue
  continue_queue-anew zero latest is_latest c enough here nothing = absurd (omega (arith, enough))
  continue_queue-anew (suc fuel) latest is_latest c enough here nothing =
      elim (dec_lt 0 (value latest)) [
        | yes pos ↦
            let go_back =
              nothing_left (suc fuel) latest latest c (omega arith) (omega arith) nothing in
            let other : (value latest == 0) ≡ false = ground (arith, pos) in
            rw (continue_queue, is_latest, go_back, other) refl
        | no at ↦
            let at_zero : value latest ≡ 0 = omega arith in
            rw (continue_queue, is_latest, below_first fuel latest latest c at_zero here, at_zero)
              refl
      ]
