-- ===== src/Mem/ReadTail.antt =====
-- `normfs/src/mem/mod.rs`: `read_full_negative` on every branch.
use normfs.Prelude.{
  ◌+◌, ◌-◌, ◌%◌, ◌^◌, ◌≤◌, ◌<◌, ◌≡◌, ◌∙◌, ◌&&◌, ◌∷◌, if◌then◌else◌, [], ℕ, suc, refl, ap, inl, inr,
  Bool, false, some, List, arith, ltb, leb, length, last, Returns-eq,
}
use native.Mathlib.Decide.{dec_lt}
use mathlib.Core.Path.{subst}
use native.Mathlib.Nat.{zero-mod}
use normfs.UBig.{UBig}
use normfs.UintN
use normfs.UintN.{UintN, value, IsCanonical, Represents}
use normfs.UintN.Last.{next_value, IsCanonicalOption}
use normfs.UintN.Order.{cmp_lem}
use normfs.UintN.Arith.{sub}
use normfs.UintN.Arith.Difference.{sub_lem}
use normfs.Types.{ReadEntry}
use normfs.Mem.{Entry, Inner, MemQueue}
use normfs.Mem.Invariant.{IsValid, IsConsecutive}
use normfs.Mem.Read.{
  skip_before, collect, Item, MemReadResult, succeed, fail, tail_start, find_tail, send_all,
  read_full_negative,
}
use normfs.Mem.Range.{InStep}
use normfs.Mem.Selection.{wanted, IsBelow, skip_before_lem}
use normfs.Mem.Tail.{limited, collect_tail_lem}
use normfs.Mem.ReadFull.{first_id-cases}

module _ {U : Type 0} ⦃b : UBig U⦄ where
  IsConsecutive-IsBelow_last :
      (n last fuel : ℕ) (es : List (Entry U))
      → IsConsecutive n es
      → n + length es ≤ last + 1
      → last ≤ fuel
      → IsBelow fuel es
  IsConsecutive-IsBelow_last n last fuel [] h le enough = tt
  IsConsecutive-IsBelow_last n last fuel (e ∷ es) h le enough =
      (omega (arith, h.0), IsConsecutive-IsBelow_last (suc n) last fuel es h.1 (omega arith) enough)

  -- The start is the last id less the offset, or zero.
  tail_start_lem :
      (offset l : UintN U)
      → IsCanonical offset
      → IsCanonical l
      → (start : UintN U) × (tail_start offset l ≡ some start)
        × Represents start (value l - value offset)
  unfolding tail_start UintN.zero value
  tail_start_lem offset l ho hl = elim (dec_lt (value l) (value offset)) [
    | yes beyond ↦ (UintN.zero, ground (arith, cmp_lem offset l), omega arith)
    | no within ↦
        let (z, e, r) = Returns-eq _ (sub l offset) (sub_lem l offset hl ho (omega arith)) in
        (z, ground (arith, cmp_lem offset l, e), r)
  ]

  pub collect_from :
      (fuel : ℕ) (l start : UintN U) (step limit m : ℕ) (es : List (Entry U))
      → IsConsecutive m es
      → m + length es ≤ value l + 1
      → value l ≤ fuel
      → 0 < step
      → step < 2 ^ 64
      → IsCanonical start
      → collect
          (suc fuel)
          (λ c. false)
          (λ n e. ltb 0 limit && leb limit n)
          step
          0
          start
          (skip_before start es)
        ≡ some (limited limit 0 (wanted (value start) (value l) step es))
  collect_from fuel l start step limit m es h le enough pos small hs =
      let below =
        λ (k : ℕ) (le' : value l ≤ k). IsConsecutive-IsBelow_last m (value l) k es h le le' in
      let (k, c, f, after, same) =
        skip_before_lem start (value l) step m fuel es h (below fuel enough) in
      let last =
        skip_before_lem start (value l) step m (value l) es h (below (value l) (omega arith)) in
      let at : InStep (value start) step (value start) = record {
        after = omega arith;
        in_step = ap (λ n. n % step) (self (value start)) ∙ zero-mod step;
      } in
      collect_tail_lem fuel (value l) limit step 0 k (value start) start (skip_before start es) c f
        last.2 pos small hs at after (omega arith)
      ∙ ap (λ xs. some (limited limit 0 xs)) same
    where
      self : (n : ℕ) → n - n ≡ 0
      self n = omega arith

  -- What a read from the tail reports for the entries that it found.
  abbrev found : UintN U → List (Item U) → MemReadResult U × List (Item U)
  found start [] = (record fail { start_id = some start }, [])
  found start (i ∷ is) = (record succeed { start_id = some start }, i ∷ is)

  -- What it is to find: a failure where the start is before the entries in memory or where nothing is
  -- found, and else at most `limit` entries from the start on that are in step, in order.
  abbrev pub expected_tail : UintN U → ℕ → ℕ → ℕ → List (Entry U) → MemReadResult U × List (Item U)
  expected_tail start last step limit entries =
      if ltb (value start) (last + 1 - length entries)
      then (record fail { start_id = some start }, [])
      else found start (limited limit 0 (wanted (value start) last step entries))

  found-eq :
      (start : UintN U) (xs : List (Item U))
      → found start xs ≡ elim xs [
        | [] ↦ (record fail { start_id = some start }, [])
        | i ∷ is ↦ (record succeed { start_id = some start }, i ∷ is)
      ]
  found-eq start [] = refl
  found-eq start (i ∷ is) = refl

  find_tail_lem :
      (fuel : ℕ) (offset l : UintN U) (step limit : ℕ) (inner : Inner U)
      → IsValid inner
      → inner.last_id ≡ some l
      → IsCanonical offset
      → IsCanonical l
      → 0 < step
      → step < 2 ^ 64
      → value l ≤ fuel
      → (start : UintN U) × Represents start (value l - value offset)
        × (find_tail (suc fuel) offset step limit inner
            ≡ some (expected_tail start (value l) step limit inner.entries))
  unfolding find_tail
  find_tail_lem fuel offset l step limit inner v e ho hl pos small enough =
      let (start, s, r) = tail_start_lem offset l ho hl in
      let next : next_value inner.last_id ≡ value l + 1 = ap next_value e in
      let n = next_value inner.last_id - length inner.entries in
      let items =
        collect_from fuel l start step limit n inner.entries v.consecutive
          (omega (arith, v.counted, next)) enough pos small r.1 in
      (
        start,
        r,
        elim (first_id-cases n inner.first_id inner.entries v.consecutive v.first_in_memory) [
          | inl (no_first, nothing) ↦ ground (arith, e, s, no_first, r, nothing)
          | inr (f, has_first, vf, some_entries) ↦
              let wanted_items =
                limited limit 0 (wanted (value start) (value l) step inner.entries) in
              ground (
                arith,
                e,
                s,
                has_first,
                items,
                r,
                vf,
                next,
                cmp_lem start f,
                found-eq start wanted_items,
              )
        ],
      )

module _ {U W : Type 0} ⦃b : UBig U⦄ (send : ReadEntry U → W → Bool × W) where
  -- What is reported once the entries are sent: a failure if the channel was closed.
  abbrev pub reported : MemReadResult U × List (Item U) → W → MemReadResult U × W
  reported (result, items) w =
      let (sent, w') = send_all send items w in
      (if sent then result else record result { success = false }, w')

  -- On a valid queue with a last id, for an offset in canonical form, a step from 1 to
  -- 2^64 - 1, and fuel above the last id, `read_full_negative` returns: the start is the last id less
  -- the offset, or zero; it fails where the start is before the entries in memory, where nothing is
  -- found, or where the channel is closed; and it sends the entries from the start on that are in step,
  -- in order, at most `limit` of them unless that is zero, until the channel is closed.
  pub read_full_negative_lem :
      (fuel : ℕ) (offset l : UintN U) (step limit : ℕ) (q : MemQueue U W) (w : W)
      → IsValid q.inner
      → q.inner.last_id ≡ some l
      → IsCanonical offset
      → 0 < step
      → step < 2 ^ 64
      → value l ≤ fuel
      → (start : UintN U) × Represents start (value l - value offset)
        × (read_full_negative send (suc fuel) offset step limit q w
            ≡ some (reported (expected_tail start (value l) step limit q.inner.entries) w))
  unfolding read_full_negative
  read_full_negative_lem fuel offset l step limit q w v e ho pos small enough =
      let hl : IsCanonical l = subst IsCanonicalOption e v.last in
      let (start, r, eq) =
        find_tail_lem fuel offset l step limit q.inner v e ho hl pos small enough in
      (start, r, rw eq refl)
