-- ===== src/Wal/Buffer/Writes.antt =====
-- `normfs-wal/src/writer_buffer.rs` and `writer.rs`: which entries are written when one arrives.
use normfs.Prelude.{
  ◌+◌, ◌≤◌, ◌≡◌, ◌≢◌, ◌⊎◌, ◌∷◌, ◌++◌, [], ℕ, refl, false, Option, some, List, arith, length, All,
  All-append,
}
use normfs.UintN.Last.{next_value, IsCanonicalOption}
use mathlib.Core.List.{Permᴰ}
use mathlib.Core.List.Permᴰ
use mathlib.Core.Path.{subst}
use native.Mathlib.Decide.{ℕ_discrete, dec_lt}
use normfs.UBig.{UBig}
use normfs.UintN.{value, UintN}
use normfs.Wal.Buffer.{
  Item, OrderedBuffer, IsSorted, SortById, check_can_write, can_write, take_ready, wait_for_order,
  entries_to_write, is_next,
}
use normfs.Wal.Buffer.Release.{
  IsValid, take_ready_lem, IsCounted, IsItem, All-Permᴰ, IsWaiting, wait_for_order-eq,
  All-append_parts, IsBlocked, rest_cases, IsSorted-append, is_next_lem,
}

module _ {U : Type 0} ⦃b : UBig U⦄ where
  pub everywhere_at_most :
      (n m : ℕ) (xs : List (Item U))
      → n ≤ m
      → All (λ x. m ≤ value x.0) xs
      → All (λ x. n ≤ value x.0) xs
  everywhere_at_most n m [] h k = tt
  everywhere_at_most n m (x ∷ xs) h k = (omega (arith, k.0), everywhere_at_most n m xs h k.1)

module _ {U : Type 0} ⦃b : UBig U⦄ (s : SortById U) where
  abbrev arrived : Item U → OrderedBuffer U → List (Item U)
  arrived entry buffer = buffer.pending ++ (entry ∷ [])

  sorted_items :
      (entry : Item U) (buffer : OrderedBuffer U)
      → IsValid buffer
      → IsItem entry
      → All IsItem (s.sort (arrived entry buffer))
  sorted_items entry buffer v h =
      All-Permᴰ IsItem (s.sort-Permᴰ (arrived entry buffer))
        (All-append IsItem buffer.pending (entry ∷ []) v.items (h, tt))

  -- What was there and what arrives is written in order from the next id on, or stays.
  abbrev pub Writes : Item U → OrderedBuffer U → List (Item U) × OrderedBuffer U → Type 0
  Writes entry buffer r =
      IsCounted (next_value buffer.last_written_id) r.0
      × (next_value r.1.last_written_id ≡ next_value buffer.last_written_id + length r.0)
      × Permᴰ (buffer.pending ++ (entry ∷ [])) (r.0 ++ r.1.pending)
      × IsValid r.1

  wait_for_order-Writes :
      (entry : Item U) (buffer : OrderedBuffer U)
      → IsValid buffer
      → IsItem entry
      → Writes entry buffer (wait_for_order s entry buffer)
  wait_for_order-Writes entry buffer v h =
      let sorted = s.sort (arrived entry buffer) in
      let items = sorted_items entry buffer v h in
      let t = take_ready_lem buffer.last_written_id sorted v.last items in
      let r = take_ready buffer.last_written_id sorted in
      rw (wait_for_order-eq s entry buffer) (
        t.counted,
        t.next,
        subst (λ xs. Permᴰ (arrived entry buffer) xs) t.parts (s.sort-Permᴰ (arrived entry buffer)),
        record {
          last = t.last;
          items = (All-append_parts IsItem r.0 r.1 (subst (λ xs. All IsItem xs) t.parts items)).1;
        },
      )

  -- With ids in canonical form, after `wait_for_order` either every pending id is beyond
  -- the next one, so that nothing that could be written stays, or the first pending id is below the
  -- next one.
  pub wait_for_order_lem :
      (entry : Item U) (buffer : OrderedBuffer U)
      → IsValid buffer
      → IsItem entry
      → IsWaiting (wait_for_order s entry buffer).1 ⊎ IsBlocked (wait_for_order s entry buffer).1
  wait_for_order_lem entry buffer v h =
      let sorted = s.sort (arrived entry buffer) in
      let t = take_ready_lem buffer.last_written_id sorted v.last (sorted_items entry buffer v h) in
      let r = take_ready buffer.last_written_id sorted in
      rw (wait_for_order-eq s entry buffer) (
        rest_cases (next_value r.2) r.1
          (IsSorted-append r.0 r.1
            (subst (λ xs. IsSorted xs) t.parts (s.sort-IsSorted (arrived entry buffer))))
          t.stopped)

  -- With ids in canonical form, an entry whose id comes next is written alone, and what
  -- is pending stays as it is, whatever it is.
  pub entries_to_write_in_order :
      (entry : Item U) (buffer : OrderedBuffer U)
      → IsValid buffer
      → IsItem entry
      → value entry.0 ≡ next_value buffer.last_written_id
      → entries_to_write s entry buffer
        ≡ (entry ∷ [], record buffer { last_written_id = some entry.0 })
  unfolding entries_to_write can_write check_can_write
  entries_to_write_in_order entry buffer v h e =
      ground (arith, is_next_lem buffer.last_written_id entry.0 v.last h)

  pub out_of_order :
      (entry : Item U) (buffer : OrderedBuffer U)
      → IsValid buffer
      → IsItem entry
      → value entry.0 ≢ next_value buffer.last_written_id
      → entries_to_write s entry buffer ≡ wait_for_order s entry buffer
  unfolding entries_to_write can_write check_can_write
  out_of_order entry buffer v h e =
      ground (arith, is_next_lem buffer.last_written_id entry.0 v.last h)

  -- With ids in canonical form, whichever entry arrives: the ids to write count up from
  -- the one after the last, the last id moves on by as many, and what was pending and what arrived
  -- is to be written or pending, nothing twice and nothing lost.
  pub entries_to_write_lem :
      (entry : Item U) (buffer : OrderedBuffer U)
      → IsValid buffer
      → IsItem entry
      → Writes entry buffer (entries_to_write s entry buffer)
  entries_to_write_lem entry buffer v h =
      elim (ℕ_discrete (value entry.0) (next_value buffer.last_written_id)) [
        | yes e ↦ rw (entries_to_write_in_order entry buffer v h e) (
          (e, tt),
          omega (arith, e),
          Permᴰ.append_comm buffer.pending (entry ∷ []),
          record { last = h; items = v.items },
        )
        | no e ↦ rw (out_of_order entry buffer v h e) (wait_for_order-Writes entry buffer v h)
      ]

  take_ready-IsBlocked :
      (last_id : Option (UintN U)) (zs : List (Item U))
      → IsCanonicalOption last_id
      → All IsItem zs
      → IsSorted zs
      → ¬ All (λ z. next_value last_id ≤ value z.0) zs
      → ((take_ready last_id zs).0 ≡ [])
        × IsBlocked (record {
          pending = (take_ready last_id zs).1;
          last_written_id = (take_ready last_id zs).2;
        })
  unfolding take_ready
  take_ready-IsBlocked last_id [] h k o n = absurd (n tt)
  take_ready-IsBlocked last_id (z ∷ zs) h k o n = elim (dec_lt (value z.0) (next_value last_id)) [
    | no above ↦
        absurd (
          n (omega arith, everywhere_at_most (next_value last_id) (value z.0) zs (omega arith) o.0))
    | yes below ↦
        let other : is_next last_id z.0 ≡ false = ground (arith, is_next_lem last_id z.0 h k.0) in
        rw other (refl, (z, zs, refl, below))
  ]

  -- With ids in canonical form, where the first pending entry has an id below the next
  -- one, `wait_for_order` returns nothing, and the first pending entry still has such an id,
  -- whatever arrives.
  pub wait_for_order-IsBlocked :
      (entry : Item U) (buffer : OrderedBuffer U)
      → IsValid buffer
      → IsItem entry
      → IsBlocked buffer
      → ((wait_for_order s entry buffer).0 ≡ []) × IsBlocked (wait_for_order s entry buffer).1
  wait_for_order-IsBlocked entry buffer v h (x, xs, e, under) =
      let p = s.sort-Permᴰ (arrived entry buffer) in
      rw (wait_for_order-eq s entry buffer) (
        take_ready-IsBlocked buffer.last_written_id (s.sort (arrived entry buffer)) v.last
          (sorted_items entry buffer v h) (s.sort-IsSorted (arrived entry buffer))
          (λ above.
            let first =
              (subst
                (λ l. All (λ z. next_value buffer.last_written_id ≤ value z.0) (l ++ (entry ∷ [])))
                e (All-Permᴰ _ (Permᴰ.symm p) above)).0 in
            omega (arith, first, under)))
