-- ===== src/Wal/Writer/Served.antt =====
-- `normfs-wal/src/writer.rs` and `writer_buffer.rs`: what the writer of a queue is to write, without
-- files, buffers and flushes.
use normfs.Prelude.{
  ◌+◌, ◌<◌, ◌≡◌, ◌≢◌, ◌⊎◌, ◌∙◌, ◌∷◌, ◌++◌, [], ℕ, suc, refl, sym, ap, List, arith, length, All,
  length-append,
}
use normfs.UBig.{UBig}
use native.Mathlib.Decide.{ℕ_discrete}
use mathlib.Core.List.{Permᴰ}
use mathlib.Core.Path.{subst}
use normfs.UintN.{value}
use normfs.Wal.Buffer.{OrderedBuffer, SortById, Item, entries_to_write}
use normfs.Wal.Buffer.Release.{IsValid, IsItem, IsCounted}
use normfs.Wal.Buffer.Writes.{
  entries_to_write_in_order, out_of_order, wait_for_order_lem, entries_to_write_lem,
}
use normfs.UintN.Last.{next_value}

module _ {U : Type 0} ⦃b : UBig U⦄ where
  -- No entry that waits can be released: the ids are all beyond the next one, or the first is below it.
  abbrev pub IsHeld : ℕ → List (Item U) → Type 0
  IsHeld next pending =
      All (λ x. next < value x.0) pending
      ⊎ ((x : Item U) × (xs : List (Item U)) × (pending ≡ x ∷ xs) × (value x.0 < next))

  -- The entries that arrived, those that were written, and those that wait, from the first id on. An entry
  -- whose id comes next is written at once, and nothing else. Any other entry joins those that wait, of which
  -- those whose ids then come next are written, until what waits is held.
  pub data Served (base : ℕ) : List (Item U) → List (Item U) → List (Item U) → Type 0 where
    start : Served base [] [] []
    in_order :
        (arrived written pending : List (Item U)) (entry : Item U)
        → Served base arrived written pending
        → value entry.0 ≡ base + length written
        → Served base (arrived ++ (entry ∷ [])) (written ++ (entry ∷ [])) pending
    waits :
        (arrived written pending ready pending' : List (Item U)) (entry : Item U)
        → Served base arrived written pending
        → value entry.0 ≢ base + length written
        → Permᴰ (pending ++ (entry ∷ [])) (ready ++ pending')
        → IsCounted (base + length written) ready
        → IsHeld (base + length (written ++ ready)) pending'
        → Served base (arrived ++ (entry ∷ [])) (written ++ ready) pending'

  -- The buffer serves an arrival so.
  pub entries_to_write-Served :
      (sort : SortById U) (base : ℕ) (arrived written : List (Item U)) (entry : Item U)
      (buffer : OrderedBuffer U)
      → IsValid buffer
      → IsItem entry
      → Served base arrived written buffer.pending
      → next_value buffer.last_written_id ≡ base + length written
      → let r = entries_to_write sort entry buffer in
        Served base (arrived ++ (entry ∷ [])) (written ++ r.0) r.1.pending
  entries_to_write-Served sort base arrived written entry buffer v h served next =
      elim (ℕ_discrete (value entry.0) (next_value buffer.last_written_id)) [
        | yes e ↦
            rw (entries_to_write_in_order sort entry buffer v h e)
              (in_order arrived written buffer.pending entry served (e ∙ next))
        | no e ↦
            let same = out_of_order sort entry buffer v h e in
            let (counted, moved_on, parts, valid) = entries_to_write_lem sort entry buffer v h in
            let r = entries_to_write sort entry buffer in
            let at : next_value r.1.last_written_id ≡ base + length (written ++ r.0) =
              omega (arith, moved_on, next, length-append written r.0) in
            let held = wait_for_order_lem sort entry buffer v h in
            waits arrived written buffer.pending r.0 r.1.pending entry served
              (λ k. e (k ∙ sym next)) parts (subst (λ n. IsCounted n r.0) next counted)
              (subst (λ n. IsHeld n r.1.pending) at
                (subst (λ x. IsHeld (next_value x.1.last_written_id) x.1.pending) (sym same) held))
      ]

  IsCounted-append :
      (n : ℕ) (xs : List (Item U)) (x : Item U)
      → IsCounted n (xs ++ (x ∷ []))
      → IsCounted n xs × (value x.0 ≡ n + length xs)
  IsCounted-append n [] x h = (tt, omega (arith, h))
  IsCounted-append n (y ∷ ys) x h =
      let (k, e) = IsCounted-append (suc n) ys x h.1 in ((h.0, k), omega (arith, e))

  -- Entries that arrive in the order of their ids, from the first on, are all written, and none waits.
  pub Served-in_order :
      (base : ℕ) {arrived written pending : List (Item U)}
      → Served base arrived written pending
      → IsCounted base arrived
      → (written ≡ arrived) × (pending ≡ [])
  Served-in_order base start h = (refl, refl)
  Served-in_order base (in_order arrived written pending entry served e) h =
      let (k, x) = IsCounted-append base arrived entry h in
      let (same, none_waits) = Served-in_order base served k in
      (ap (λ l. l ++ (entry ∷ [])) same, none_waits)
  Served-in_order base (waits arrived written pending ready pending' entry served e p c held) h =
      let (k, x) = IsCounted-append base arrived entry h in
      let (same, none_waits) = Served-in_order base served k in
      absurd (e (x ∙ ap (λ l. base + length l) (sym same)))
