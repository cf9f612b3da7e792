-- ===== src/Mem/Eviction.antt =====
-- `normfs/src/mem/mod.rs`: what `ack` and the clean-up remove from memory, and what they keep.
use normfs.Prelude.{
  ◌≤◌, ◌≡◌, ◌⊎◌, ◌∙◌, ◌∷◌, ◌++◌, [], ℕ, refl, sym, inl, inr, Option, none, some, List, arith,
  Bool-cases, take, drop, All, take-append-drop,
}
use normfs.UBig.{UBig}
use normfs.UintN.{UintN, value}
use normfs.UintN.Order.{gt, cmp_lem}
use normfs.Mem.{Entry, Inner, MemQueue, acked_prefix, remove_front, cleanup_unlocked}
use normfs.Mem.Write.{acknowledge, ack, raised}
use normfs.Mem.Invariant.{
  IsValid, cleanup_unlocked-IsValid, cleanup_unlocked_cases, last_id-cleanup_unlocked,
}

module _ {U : Type 0} ⦃b : UBig U⦄ where
  -- An id is at most the acknowledged one.
  abbrev pub IsAcked : Option (UintN U) → Entry U → Type 0
  IsAcked none e = ⊥
  IsAcked (some acked) e = value e.id ≤ value acked

  -- The entries of the first state are acknowledged ones and then the entries of the second.
  abbrev pub Evicts : Inner U → Inner U → Type 0
  Evicts before after =
      (removed : List (Entry U)) × (before.entries ≡ removed ++ after.entries)
      × All (IsAcked after.last_acked_id) removed

  take-acked_prefix :
      (acked : UintN U) (xs : List (Entry U))
      → All (IsAcked (some acked)) (take (acked_prefix acked xs) xs)
  unfolding acked_prefix
  take-acked_prefix acked [] = tt
  take-acked_prefix acked (x ∷ xs) = ground (arith, cmp_lem x.id acked, take-acked_prefix acked xs)

  acked_prefix-drop :
      (acked : UintN U) (xs : List (Entry U))
      → acked_prefix acked (drop (acked_prefix acked xs) xs) ≡ 0
  unfolding acked_prefix
  acked_prefix-drop acked [] = refl
  acked_prefix-drop acked (x ∷ xs) = ground (arith, acked_prefix-drop acked xs)

  -- Clean-up removes nothing that is not acknowledged, and only from the front.
  pub cleanup_unlocked-Evicts :
      (max_memory_usage : ℕ) (inner : Inner U)
      → Evicts inner (cleanup_unlocked max_memory_usage inner)
  unfolding remove_front
  cleanup_unlocked-Evicts max_memory_usage inner =
      cleanup_unlocked_cases (Evicts inner) max_memory_usage inner ([], refl, tt)
        (λ acked e.
          let k = acked_prefix acked inner.entries in
          (
            take k inner.entries,
            sym (take-append-drop k inner.entries),
            rw e (take-acked_prefix acked inner.entries),
          ))

  -- After it the memory is within its limit, or no acknowledged entry is left at the front.
  cleanup_unlocked_bound :
      (max_memory_usage : ℕ) (inner : Inner U) (acked : UintN U)
      → inner.last_acked_id ≡ some acked
      → ((cleanup_unlocked max_memory_usage inner).memory_usage ≤ max_memory_usage)
        ⊎ (acked_prefix acked (cleanup_unlocked max_memory_usage inner).entries ≡ 0)
  unfolding cleanup_unlocked remove_front
  cleanup_unlocked_bound max_memory_usage inner acked e =
      ground (arith, acked_prefix-drop acked inner.entries)

  -- An id covers the acknowledged one before, if there was one.
  abbrev pub Covers : UintN U → Option (UintN U) → Type 0
  Covers acked none = Unit {0}
  Covers acked (some old) = value old ≤ value acked

  raised_lem :
      (o : Option (UintN U)) (id : UintN U)
      → (acked : UintN U) × (raised o id ≡ some acked) × (value id ≤ value acked) × Covers acked o
  unfolding raised
  raised_lem none id = (id, refl, omega arith, tt)
  raised_lem (some old) id = elim (Bool-cases (gt id old)) [
    | inl more ↦ (id, rw more, omega arith, ground (arith, cmp_lem id old))
    | inr less ↦ (old, rw less, ground (arith, cmp_lem id old), omega arith)
  ]

module _ {U W : Type 0} ⦃b : UBig U⦄ where
  -- On a valid queue `ack` keeps it valid; the acknowledged id then covers the one given and the
  -- one before; only acknowledged entries have left memory, from the front; and the memory is
  -- within its limit or no acknowledged entry is left at the front.
  pub ack_lem :
      (id : UintN U) (q : MemQueue U W)
      → IsValid q.inner
      → IsValid (ack id q).inner
        × Evicts q.inner (ack id q).inner
        × ((acked : UintN U) × ((ack id q).inner.last_acked_id ≡ some acked)
            × (value id ≤ value acked)
            × Covers acked q.inner.last_acked_id
            × (((ack id q).inner.memory_usage ≤ q.max_memory_usage)
                ⊎ (acked_prefix acked (ack id q).inner.entries ≡ 0)))
  unfolding ack acknowledge
  ack_lem id q v =
      let max = q.max_memory_usage in
      let state : Inner U = record q.inner { last_acked_id = raised q.inner.last_acked_id id } in
      let valid : IsValid state = record {
        last = v.last;
        counted = v.counted;
        consecutive = v.consecutive;
        first_in_memory = v.first_in_memory;
        memory = v.memory;
      } in
      let (acked, e, new, old) = raised_lem q.inner.last_acked_id id in
      (
        cleanup_unlocked-IsValid max state valid,
        cleanup_unlocked-Evicts max state,
        (
          acked,
          (last_id-cleanup_unlocked max state).1 ∙ e,
          new,
          old,
          cleanup_unlocked_bound max state acked e,
        ),
      )
