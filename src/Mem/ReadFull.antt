-- ===== src/Mem/ReadFull.antt =====
-- `normfs/src/mem/mod.rs`: `read_full` on every branch.
use normfs.Prelude.{
  ◌+◌, ◌-◌, ◌%◌, ◌^◌, ◌≤◌, ◌<◌, ◌≡◌, ◌⊎◌, ◌∙◌, ◌∷◌, if◌then◌else◌, [], ℕ, suc, refl, ap, inl, inr,
  Bool, Option, none, some, List, arith, ltb, leb, Option-cases, length, first,
}
use mathlib.Core.Option
use native.Mathlib.Nat.{zero-mod}
use normfs.UBig.{UBig}
use normfs.UintN.{UintN, value, IsCanonical}
use normfs.UintN.Order.{gt, cmp_lem}
use normfs.Types.{ReadEntry}
use normfs.Mem.{Entry, Inner, MemQueue}
use normfs.Mem.Invariant.{IsValid, IsConsecutive}
use normfs.UintN.Last.{next_value}
use normfs.Mem.Read.{
  skip_before, collect, Item, MemReadResult, succeed, fail, find_range, send_all, read_full,
}
use normfs.Mem.Range.{InStep}
use normfs.Mem.Selection.{wanted, IsBelow, skip_before_lem, collect_lem}

sub_self : (n : ℕ) → n - n ≡ 0
sub_self n = omega arith

module _ {U : Type 0} ⦃b : UBig U⦄ where
  IsConsecutive-IsBelow :
      (n fuel : ℕ) (es : List (Entry U))
      → IsConsecutive n es
      → n + length es ≤ fuel
      → IsBelow fuel es
  IsConsecutive-IsBelow n fuel [] h le = tt
  IsConsecutive-IsBelow n fuel (e ∷ es) h le =
      (omega (arith, h.0), IsConsecutive-IsBelow (suc n) fuel es h.1 (omega arith))

  -- Fuel for every inner loop of a read.
  collect-skip_before :
      (fuel : ℕ) (start end : UintN U) (step m : ℕ) (es : List (Entry U))
      → IsConsecutive m es
      → m + length es ≤ fuel
      → 0 < step
      → step < 2 ^ 64
      → IsCanonical start
      → collect (suc fuel) (λ c. gt c end) (λ n e. gt e.id end) step 0 start (skip_before start es)
        ≡ some (wanted (value start) (value end) step es)
  collect-skip_before fuel start end step m es h le pos small hs =
      let (k, c, below, after, same) =
        skip_before_lem start (value end) step m fuel es h (IsConsecutive-IsBelow m fuel es h le) in
      let at : InStep (value start) step (value start) = record {
        after = omega arith;
        in_step = ap (λ k. k % step) (sub_self (value start)) ∙ zero-mod step;
      } in
      collect_lem fuel end step 0 k (value start) start (skip_before start es) c below pos small hs
        at after (omega arith)
      ∙ ap some same

  -- The first id in memory is the first entry's, if there is one.
  pub first_id-cases :
      (n : ℕ) (o : Option (UintN U)) (es : List (Entry U))
      → IsConsecutive n es
      → o ≡ Option.map Entry.id (first es)
      → ((o ≡ none) × (length es ≡ 0))
        ⊎ ((f : UintN U) × (o ≡ some f) × (value f ≡ n) × (0 < length es))
  first_id-cases n o [] h e = inl (e, refl)
  first_id-cases n o (x ∷ xs) h e = inr (x.id, e, h.0.0, omega arith)

  -- What a read of a range is to find: nothing beyond the last id, a failure where the range begins
  -- before the entries in memory, and else the entries of the range that are in step.
  abbrev pub expected : UintN U → UintN U → ℕ → Inner U → MemReadResult U × List (Item U)
  expected start end step inner =
      let next = next_value inner.last_id in
      if leb next (value start)
      then (succeed, [])
      else if ltb (value start) (next - length inner.entries)
      then (fail, [])
      else (succeed, wanted (value start) (value end) step inner.entries)

  pub find_range_lem :
      (fuel : ℕ) (start end : UintN U) (step : ℕ) (inner : Inner U)
      → IsValid inner
      → IsCanonical start
      → 0 < step
      → step < 2 ^ 64
      → next_value inner.last_id ≤ fuel
      → find_range (suc fuel) start end step inner ≡ some (expected start end step inner)
  unfolding find_range
  find_range_lem fuel start end step inner v hs pos small enough =
      let n = next_value inner.last_id - length inner.entries in
      let found =
        collect-skip_before fuel start end step n inner.entries v.consecutive
          (omega (arith, v.counted)) pos small hs in
      elim (Option-cases inner.last_id) [
        | inl e ↦ rw e (ground arith)
        | inr (l, e) ↦
            elim (first_id-cases n inner.first_id inner.entries v.consecutive v.first_in_memory) [
              | inl (no_first, empty) ↦ ground (arith, e, no_first, empty, cmp_lem start l)
              | inr (f, has_first, vf, pos_len) ↦
                  ground (arith, e, has_first, vf, found, cmp_lem start l, cmp_lem start f)
            ]
      ]

module _ {U W : Type 0} ⦃b : UBig U⦄ (send : ReadEntry U → W → Bool × W) where
  -- On a valid queue, for a start in canonical form, a step from 1 to 2^64 - 1, and fuel
  -- above the last id, `read_full` returns: it reports what is expected of the range on every
  -- branch, and sends exactly the entries that are expected, in order, until the channel is closed.
  pub read_full_lem :
      (fuel : ℕ) (start end : UintN U) (step : ℕ) (q : MemQueue U W) (w : W)
      → IsValid q.inner
      → IsCanonical start
      → 0 < step
      → step < 2 ^ 64
      → next_value q.inner.last_id ≤ fuel
      → let (result, items) = expected start end step q.inner in
        read_full send (suc fuel) start end step q w ≡ some (result, (send_all send items w).1)
  unfolding read_full
  read_full_lem fuel start end step q w v hs pos small enough =
      rw (find_range_lem fuel start end step q.inner v hs pos small enough)
