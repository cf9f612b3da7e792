-- ===== src/Mem/Queue.antt =====
-- `normfs/src/mem/mod.rs`: the operations of a queue, with its subscribers.
use normfs.Prelude.{◌+◌, ◌≡◌, ◌∷◌, [], ℕ, suc, refl, List, map, arith, length}
use normfs.UBig.{UBig}
use normfs.UintN.{UintN, Represents}
use normfs.Mem.{Entry, MemQueue, next_id, SubscriberCallback}
use normfs.Mem.Write.{
  push_entry, push_batch, number_from, enqueue, enqueue_batch, notify_subscribers, unsubscribe,
  unsubscribe_all, notify_all, notify_if_any,
}
use normfs.Mem.Invariant.{IsValid, IsConsecutive, next_id_lem}
use normfs.UintN.Last.{next_value}
use normfs.Mem.Numbering.{push_entry-IsValid, push_batch-IsValid, IsConsecutive-number_from}

module _ {U : Type 0} ⦃b : UBig U⦄ where
  -- The ids count up from `n`.
  abbrev pub IsNumbered : ℕ → List (UintN U) → Type 0
  IsNumbered n [] = Unit {0}
  IsNumbered n (id ∷ ids) = Represents id n × IsNumbered (suc n) ids

  IsNumbered-map :
      (n : ℕ) (es : List (Entry U)) → IsConsecutive n es → IsNumbered n (map Entry.id es)
  IsNumbered-map n [] h = tt
  IsNumbered-map n (e ∷ es) h = (h.0, IsNumbered-map (suc n) es h.1)

module _ {U W : Type 0} ⦃b : UBig U⦄ where
  inner-unsubscribe_all :
      (ids : List ℕ) (q : MemQueue U W) → (unsubscribe_all ids q).inner ≡ q.inner
  unfolding unsubscribe_all unsubscribe
  inner-unsubscribe_all [] q = refl
  inner-unsubscribe_all (id ∷ ids) q = inner-unsubscribe_all ids (unsubscribe id q)

  -- Callbacks do not touch the entries.
  inner-notify_subscribers :
      (entries : List (UintN U × List ℕ)) (q : MemQueue U W) (w : W)
      → (notify_subscribers entries q w).0.inner ≡ q.inner
  unfolding notify_subscribers
  inner-notify_subscribers entries q w =
      inner-unsubscribe_all (notify_all q.subscribers entries w).0 q

  inner-notify_if_any :
      (subscribers : List (ℕ × SubscriberCallback U W)) (entries : List (UintN U × List ℕ))
      (q : MemQueue U W) (w : W)
      → (notify_if_any subscribers entries q w).0.inner ≡ q.inner
  unfolding notify_if_any
  inner-notify_if_any [] entries q w = refl
  inner-notify_if_any (s ∷ ss) entries q w = inner-notify_subscribers entries q w

  enqueue-eq :
      (contents : List ℕ) (q : MemQueue U W) (w : W)
      → ((enqueue contents q w).0 ≡ next_id q.inner.last_id)
        × ((enqueue contents q w).1.inner ≡ push_entry q.max_memory_usage contents q.inner)
  unfolding enqueue
  enqueue-eq contents q w = (refl, inner-notify_if_any q.subscribers _ _ w)

  -- On a valid queue `enqueue` returns the number after the last one, and the next call returns the
  -- one after it; the queue stays valid: the entries in memory are the last ones, numbered without
  -- a gap, and the counted memory is theirs. Subscribers may do what they like.
  pub enqueue_lem :
      (contents : List ℕ) (q : MemQueue U W) (w : W)
      → IsValid q.inner
      → Represents (enqueue contents q w).0 (next_value q.inner.last_id)
        × IsValid (enqueue contents q w).1.inner
        × (next_value (enqueue contents q w).1.inner.last_id ≡ next_value q.inner.last_id + 1)
  enqueue_lem contents q w v =
      let (i, e) = enqueue-eq contents q w in
      let (valid, n) = push_entry-IsValid q.max_memory_usage contents q.inner v in
      rw (i, e) (next_id_lem q.inner.last_id v.last, valid, n)

  enqueue_batch-eq :
      (x : List ℕ) (xs : List (List ℕ)) (q : MemQueue U W) (w : W)
      → ((enqueue_batch (x ∷ xs) q w).0
          ≡ map Entry.id (number_from (next_id q.inner.last_id) (x ∷ xs)))
        × ((enqueue_batch (x ∷ xs) q w).1.inner ≡ push_batch q.max_memory_usage (x ∷ xs) q.inner)
  unfolding enqueue_batch
  enqueue_batch-eq x xs q w = (refl, inner-notify_if_any q.subscribers _ _ w)

  -- On a valid queue `enqueue_batch` numbers its entries without a gap from the number after the
  -- last one, the queue stays valid, and the next number grows by the length of the batch, also for
  -- an empty one.
  pub enqueue_batch_lem :
      (batch : List (List ℕ)) (q : MemQueue U W) (w : W)
      → IsValid q.inner
      → IsNumbered (next_value q.inner.last_id) (enqueue_batch batch q w).0
        × IsValid (enqueue_batch batch q w).1.inner
        × (next_value (enqueue_batch batch q w).1.inner.last_id
            ≡ next_value q.inner.last_id + length batch)
  enqueue_batch_lem [] q w v = unfold enqueue_batch in (tt, v, omega arith)
  enqueue_batch_lem (x ∷ xs) q w v =
      let (i, e) = enqueue_batch-eq x xs q w in
      let (valid, n) = push_batch-IsValid q.max_memory_usage x xs q.inner v in
      let (c, len) =
        IsConsecutive-number_from (next_id q.inner.last_id) (next_value q.inner.last_id) (x ∷ xs)
          (next_id_lem q.inner.last_id v.last) in
      rw (i, e) (IsNumbered-map (next_value q.inner.last_id) _ c, valid, n)
