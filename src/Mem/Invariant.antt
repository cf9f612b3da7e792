-- ===== src/Mem/Invariant.antt =====
-- `normfs/src/mem/mod.rs`: the invariant of a queue. The entries in memory are the last ones of the
-- queue, with consecutive ids, and the bookkeeping beside them is right.
use normfs.Prelude.{
  ◌+◌, ◌-◌, ◌≤◌, ◌≡◌, ◌∷◌, ◌++◌, [], ℕ, suc, refl, sym, ap, inl, inr, Option, none, some, List,
  arith, ltb, leb, Bool-cases, Option-cases, length, take, drop, first, length-drop,
  take-append-drop, zero,
}
use mathlib.Core.Option
use mathlib.Core.Path.{subst}
use native.Mathlib.Nat.{add-zero}
use normfs.UBig.{UBig}
use normfs.UintN
use normfs.UintN.{UintN, value, IsCanonical, Represents}
use normfs.UintN.Last.{IsCanonicalOption, next_value}
use normfs.UintN.Arith.Sum.{increment_lem}
use normfs.Mem.{Entry, Inner, total_size, next_id, acked_prefix, remove_front, cleanup_unlocked}

module _ {U : Type 0} ⦃b : UBig U⦄ where
  -- The ids count up from `n`.
  abbrev pub IsConsecutive : ℕ → List (Entry U) → Type 0
  IsConsecutive n [] = Unit {0}
  IsConsecutive n (e ∷ es) = Represents e.id n × IsConsecutive (suc n) es

  pub record IsValid (inner : Inner U) : Type 0 where
    pub last : IsCanonicalOption inner.last_id
    pub counted : length inner.entries ≤ next_value inner.last_id
    pub consecutive : IsConsecutive (next_value inner.last_id - length inner.entries) inner.entries
    pub first_in_memory : inner.first_id ≡ Option.map Entry.id (first inner.entries)
    pub memory : inner.memory_usage ≡ total_size inner.entries

  pub next_id_lem :
      (last_id : Option (UintN U))
      → IsCanonicalOption last_id
      → Represents (next_id last_id) (next_value last_id)
  unfolding next_id UintN.zero value
  next_id_lem none h = omega arith
  next_id_lem (some id) h = increment_lem id h

  pub IsConsecutive-append :
      (n : ℕ) (xs ys : List (Entry U))
      → IsConsecutive n xs
      → IsConsecutive (n + length xs) ys
      → IsConsecutive n (xs ++ ys)
  IsConsecutive-append n [] ys h k = subst (λ m. IsConsecutive m ys) (add-zero n) k
  IsConsecutive-append n (x ∷ xs) ys h k = (
    h.0,
    IsConsecutive-append (suc n) xs ys h.1 (subst (λ m. IsConsecutive m ys) (omega arith) k),
  )

  IsConsecutive-drop :
      (n k : ℕ) (xs : List (Entry U)) → IsConsecutive n xs → IsConsecutive (n + k) (drop k xs)
  IsConsecutive-drop n zero xs h = subst (λ m. IsConsecutive m xs) (sym (add-zero n)) h
  IsConsecutive-drop n (suc k) [] h = tt
  IsConsecutive-drop n (suc k) (x ∷ xs) h =
      subst (λ m. IsConsecutive m (drop k xs)) (omega arith) (IsConsecutive-drop (suc n) k xs h.1)

  pub total_size-append :
      (xs ys : List (Entry U)) → total_size (xs ++ ys) ≡ total_size xs + total_size ys
  unfolding total_size
  total_size-append [] ys = omega arith
  total_size-append (x ∷ xs) ys = omega (arith, total_size-append xs ys)

  acked_prefix-le : (acked : UintN U) (xs : List (Entry U)) → acked_prefix acked xs ≤ length xs
  unfolding acked_prefix
  acked_prefix-le acked [] = omega arith
  acked_prefix-le acked (x ∷ xs) = ground (arith, acked_prefix-le acked xs)

  -- Removing some entries at the front keeps the invariant.
  remove_front-IsValid :
      (k : ℕ) (inner : Inner U)
      → k ≤ length inner.entries
      → IsValid inner
      → IsValid (remove_front k inner)
  unfolding remove_front
  remove_front-IsValid k inner h v = record {
    last = v.last;
    counted = omega (arith, length-drop k inner.entries, v.counted);
    consecutive =
        subst (λ m. IsConsecutive m (drop k inner.entries))
          (omega (arith, length-drop k inner.entries, v.counted))
          (IsConsecutive-drop (next_value inner.last_id - length inner.entries) k inner.entries
            v.consecutive);
    first_in_memory = refl;
    memory = omega (
      arith,
      v.memory,
      total_size-append (take k inner.entries) (drop k inner.entries),
      ap total_size (take-append-drop k inner.entries),
    );
  }

  -- Clean-up leaves the state alone or removes the acknowledged entries at the front.
  pub cleanup_unlocked_cases :
      (P : Inner U → Type 0) (max_memory_usage : ℕ) (inner : Inner U)
      → P inner
      → ((acked : UintN U)
          → inner.last_acked_id ≡ some acked
          → P (remove_front (acked_prefix acked inner.entries) inner))
      → P (cleanup_unlocked max_memory_usage inner)
  unfolding cleanup_unlocked
  cleanup_unlocked_cases P max_memory_usage inner same removed =
      elim (Bool-cases (leb inner.memory_usage max_memory_usage)) [
        | inl fits ↦ rw fits same
        | inr over ↦ elim (Option-cases inner.last_acked_id) [
          | inl e ↦ rw (over, e) same
          | inr (acked, e) ↦ elim (Bool-cases (ltb 0 (acked_prefix acked inner.entries))) [
            | inl some_acked ↦ rw (over, e, some_acked) (removed acked e)
            | inr none_acked ↦ rw (over, e, none_acked) same
          ]
        ]
      ]

  pub cleanup_unlocked-IsValid :
      (max_memory_usage : ℕ) (inner : Inner U)
      → IsValid inner
      → IsValid (cleanup_unlocked max_memory_usage inner)
  cleanup_unlocked-IsValid max_memory_usage inner v =
      cleanup_unlocked_cases IsValid max_memory_usage inner v
        (λ acked e. remove_front-IsValid _ inner (acked_prefix-le acked inner.entries) v)

  -- Clean-up changes neither the last id nor the acknowledged one.
  pub last_id-cleanup_unlocked :
      (max_memory_usage : ℕ) (inner : Inner U)
      → ((cleanup_unlocked max_memory_usage inner).last_id ≡ inner.last_id)
        × ((cleanup_unlocked max_memory_usage inner).last_acked_id ≡ inner.last_acked_id)
  unfolding cleanup_unlocked remove_front
  last_id-cleanup_unlocked max_memory_usage inner = ground arith
