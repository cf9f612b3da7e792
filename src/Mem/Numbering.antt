-- ===== src/Mem/Numbering.antt =====
-- `normfs/src/mem/mod.rs`: the ids that `enqueue` and `enqueue_batch` give, and the invariant.
use normfs.Prelude.{
  ◌+◌, ◌-◌, ◌≡◌, ◌∷◌, ◌++◌, [], ℕ, suc, refl, ap, Option, none, some, List, arith, length, first,
  last, length-append,
}
use mathlib.Core.Option
use mathlib.Core.Path.{subst}
use normfs.UBig.{UBig}
use normfs.UintN.{UintN, value, IsCanonical, Represents}
use normfs.UintN.Arith.{increment}
use normfs.UintN.Arith.Sum.{increment_lem}
use normfs.Mem.{Entry, Inner, total_size, next_id, cleanup_unlocked}
use normfs.Mem.Write.{push_entry, push_batch, number_from}
use normfs.Mem.Invariant.{
  IsValid, IsConsecutive, IsConsecutive-append, next_id_lem, total_size-append,
  cleanup_unlocked-IsValid, last_id-cleanup_unlocked,
}
use normfs.UintN.Last.{next_value}

module _ {U : Type 0} ⦃b : UBig U⦄ where
  IsConsecutive-last :
      (n : ℕ) (xs : List (Entry U)) {e : Entry U}
      → IsConsecutive n xs
      → last xs ≡ some e
      → (value e.id + 1 ≡ n + length xs) × IsCanonical e.id
  IsConsecutive-last n [] h l = cc
  IsConsecutive-last n (x ∷ []) h l = ground arith
  IsConsecutive-last n (x ∷ y ∷ xs) h l = ground (arith, IsConsecutive-last (suc n) (y ∷ xs) h.1 l)

  -- Entries that continue the numbering are appended.
  appended : List (Entry U) → UintN U → UintN U → ℕ → Inner U → Inner U
  appended added first_added last_added size inner = record inner {
    first_id = elim inner.first_id [ none ↦ some first_added | some f ↦ some f ];
    last_id = some last_added;
    entries = inner.entries ++ added;
    memory_usage = inner.memory_usage + size;
  }

  first-append :
      (o : Option (UintN U)) (xs ys : List (Entry U)) {e : Entry U}
      → o ≡ Option.map Entry.id (first xs)
      → first ys ≡ some e
      → ◌≡◌ {A = Option (UintN U)}
          (elim o [ none ↦ some e.id | some f ↦ some f ])
          (Option.map Entry.id (first (xs ++ ys)))
  first-append o [] ys h k = ground arith
  first-append o (x ∷ xs) ys h k = ground arith

  appended-IsValid :
      (added : List (Entry U)) (size : ℕ) (inner : Inner U) {e l : Entry U}
      → IsValid inner
      → IsConsecutive (next_value inner.last_id) added
      → first added ≡ some e
      → last added ≡ some l
      → size ≡ total_size added
      → IsValid (appended added e.id l.id size inner)
  unfolding appended
  appended-IsValid added size inner {e} {l} v c hf hl hs =
      let (vl, cl) = IsConsecutive-last (next_value inner.last_id) added c hl in
      let n = length-append inner.entries added in
      record {
        last = cl;
        counted = omega (arith, n, vl, v.counted);
        consecutive =
            subst (λ m. IsConsecutive m (inner.entries ++ added)) (omega (arith, n, vl, v.counted))
              (IsConsecutive-append (next_value inner.last_id - length inner.entries) inner.entries
                added v.consecutive
                (subst (λ m. IsConsecutive m added) (omega (arith, v.counted)) c));
        first_in_memory = first-append inner.first_id inner.entries added v.first_in_memory hf;
        memory = omega (arith, v.memory, hs, total_size-append inner.entries added);
      }

  -- `push_entry` keeps the invariant, and the next number is one more.
  pub push_entry-IsValid :
      (max_memory_usage : ℕ) (contents : List ℕ) (inner : Inner U)
      → IsValid inner
      → IsValid (push_entry max_memory_usage contents inner)
        × (next_value (push_entry max_memory_usage contents inner).last_id
            ≡ next_value inner.last_id + 1)
  unfolding push_entry appended total_size
  push_entry-IsValid max_memory_usage contents inner v =
      let e : Entry U = record { id = next_id inner.last_id; contents = contents } in
      let new = next_id_lem inner.last_id v.last in
      let state = appended (e ∷ []) e.id e.id (length contents) inner in
      (
        cleanup_unlocked-IsValid max_memory_usage state (
            appended-IsValid (e ∷ []) (length contents) inner {e = e} {l = e} v (new, tt) refl refl
              (omega arith)),
        ground (arith, last_id-cleanup_unlocked max_memory_usage state, new),
      )

  pub IsConsecutive-number_from :
      (id : UintN U) (n : ℕ) (batch : List (List ℕ))
      → Represents id n
      → IsConsecutive n (number_from id batch) × (length (number_from id batch) ≡ length batch)
  unfolding number_from
  IsConsecutive-number_from id n [] h = (tt, refl)
  IsConsecutive-number_from id n (x ∷ xs) h =
      let next : Represents (increment id) (suc n) = ground (arith, increment_lem id h.1) in
      let (c, l) = IsConsecutive-number_from (increment id) (suc n) xs next in ((h, c), ap suc l)

  number_from-last :
      (id : UintN U) (x : List ℕ) (xs : List (List ℕ))
      → (l : Entry U) × (last (number_from id (x ∷ xs)) ≡ some l)
  unfolding number_from
  number_from-last id x [] = (record { id = id; contents = x }, refl)
  number_from-last id x (y ∷ ys) = number_from-last (increment id) y ys

  push_batch-eq :
      (max_memory_usage : ℕ) (x : List ℕ) (xs : List (List ℕ)) (inner : Inner U) {l : Entry U}
      → last (number_from (next_id inner.last_id) (x ∷ xs)) ≡ some l
      → push_batch max_memory_usage (x ∷ xs) inner
        ≡ cleanup_unlocked max_memory_usage (
            appended
              (number_from (next_id inner.last_id) (x ∷ xs))
              (next_id inner.last_id)
              l.id
              (total_size (number_from (next_id inner.last_id) (x ∷ xs)))
              inner)
  unfolding push_batch appended
  push_batch-eq max_memory_usage x xs inner h = rw h

  first-number_from :
      (id : UintN U) (x : List ℕ) (xs : List (List ℕ))
      → first (number_from id (x ∷ xs)) ≡ some (record { id = id; contents = x })
  unfolding number_from
  first-number_from id x xs = refl

  -- `push_batch` keeps the invariant, and the next number grows by the length of the batch.
  pub push_batch-IsValid :
      (max_memory_usage : ℕ) (x : List ℕ) (xs : List (List ℕ)) (inner : Inner U)
      → IsValid inner
      → IsValid (push_batch max_memory_usage (x ∷ xs) inner)
        × (next_value (push_batch max_memory_usage (x ∷ xs) inner).last_id
            ≡ next_value inner.last_id + length (x ∷ xs))
  unfolding appended
  push_batch-IsValid max_memory_usage x xs inner v =
      let id = next_id inner.last_id in
      let n = next_value inner.last_id in
      let added = number_from id (x ∷ xs) in
      let (c, len) = IsConsecutive-number_from id n (x ∷ xs) (next_id_lem inner.last_id v.last) in
      let (l, hl) = number_from-last id x xs in
      let state = appended added id l.id (total_size added) inner in
      let valid =
        appended-IsValid added (total_size added) inner v c (first-number_from id x xs) hl refl in
      rw (push_batch-eq max_memory_usage x xs inner hl) (
        cleanup_unlocked-IsValid max_memory_usage state valid,
        ground (
          arith,
          last_id-cleanup_unlocked max_memory_usage state,
          IsConsecutive-last n added c hl,
          len,
        ),
      )
