-- ===== src/Mem/FollowFull.antt =====
-- `normfs/src/mem/mod.rs`: `follow_full` on every branch.
use normfs.Prelude.{
  ◌+◌, ◌-◌, ◌^◌, ◌≤◌, ◌<◌, ◌≡◌, ◌==◌, if◌then◌else◌, [], ℕ, suc, ap, inl, inr, Bool, Option, none,
  some, List, arith, ltb, Option-cases, length,
}
use normfs.UBig.{UBig}
use normfs.UintN.{UintN, value, IsCanonical}
use normfs.UintN.Last.{next_value}
use normfs.UintN.Order.{cmp_lem}
use normfs.Types.{ReadEntry}
use normfs.Mem.{Entry, Inner, MemQueue}
use normfs.Mem.Invariant.{IsValid}
use normfs.Mem.Read.{MemReadResult, Item, fail}
use normfs.Mem.Selection.{wanted}
use normfs.Mem.ReadFull.{first_id-cases}
use normfs.Mem.ReadTail.{collect_from}
use normfs.Mem.Follow.{collect_all, find_follow, send_and_subscribe, follow_full}

module _ {U : Type 0} ⦃b : UBig U⦄ where
  -- What `follow_full` is to find where the last id is `l`: nothing to send in an empty memory, a
  -- failure where the start is before the entries in memory, and else the entries from the start on
  -- that are in step, in order.
  abbrev pub expected_follow : UintN U → ℕ → ℕ → List (Entry U) → Option (List (Item U))
  expected_follow start l step entries =
      if length entries == 0
      then some []
      else if ltb (value start) (l + 1 - length entries)
      then none
      else some (wanted (value start) l step entries)

  find_follow_lem :
      (fuel : ℕ) (start l : UintN U) (step : ℕ) (inner : Inner U)
      → IsValid inner
      → inner.last_id ≡ some l
      → IsCanonical start
      → 0 < step
      → step < 2 ^ 64
      → value l ≤ fuel
      → find_follow (suc fuel) start step inner
        ≡ some (expected_follow start (value l) step inner.entries)
  unfolding find_follow collect_all
  find_follow_lem fuel start l step inner v e hs pos small enough =
      let next : next_value inner.last_id ≡ value l + 1 = ap next_value e in
      let n = next_value inner.last_id - length inner.entries in
      let items =
        collect_from fuel l start step 0 n inner.entries v.consecutive
          (omega (arith, v.counted, next)) enough pos small hs in
      elim (first_id-cases n inner.first_id inner.entries v.consecutive v.first_in_memory) [
        | inl (no_first, nothing) ↦ ground (arith, no_first, nothing)
        | inr (f, has_first, vf, some_entries) ↦
            ground (arith, has_first, items, vf, next, cmp_lem start f)
      ]

module _ {U W : Type 0} ⦃b : UBig U⦄ (send try_send : ReadEntry U → W → Bool × W) where
  -- What is reported, and what becomes of the queue: a failure leaves it as it is.
  abbrev pub followed :
      UintN U → ℕ → Option (List (Item U)) → MemQueue U W → W → MemReadResult U × MemQueue U W × W
  followed from_id step none q w = (fail, q, w)
  followed from_id step (some items) q w =
      send_and_subscribe send try_send none from_id step items q w

  -- On a valid queue with a last id, for a start in canonical form, a step from 1 to
  -- 2^64 - 1, and fuel above the last id, `follow_full` returns: it fails where the start is before the
  -- entries in memory, and else it sends exactly the entries from the start on that are in step, in
  -- order, and then subscribes with the id of the last of them.
  pub follow_full_lem :
      (fuel : ℕ) (from_id start l : UintN U) (step : ℕ) (q : MemQueue U W) (w : W)
      → IsValid q.inner
      → q.inner.last_id ≡ some l
      → IsCanonical start
      → 0 < step
      → step < 2 ^ 64
      → value l ≤ fuel
      → follow_full send try_send (suc fuel) from_id start step q w
        ≡ some (followed from_id step (expected_follow start (value l) step q.inner.entries) q w)
  unfolding follow_full
  follow_full_lem fuel from_id start l step q w v e hs pos small enough =
      let found = find_follow_lem fuel start l step q.inner v e hs pos small enough in
      elim (Option-cases (expected_follow start (value l) step q.inner.entries)) [
        | inl n ↦ ground (arith, found, n)
        | inr (items, s) ↦ ground (arith, found, s)
      ]
