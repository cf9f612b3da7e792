-- ===== src/Mem/Write.antt =====
-- `normfs/src/mem/mod.rs`: `enqueue`, `enqueue_batch`, `ack`, and the notification of subscribers.
use normfs.Prelude.{
  ◌+◌, ◌∷◌, ◌++◌, ◌==◌, if◌then◌else◌, [], ℕ, Option, none, some, List, map, length, last,
}
use normfs.UBig.{UBig}
use normfs.UintN.{UintN}
use normfs.UintN.Order.{gt}
use normfs.UintN.Arith.{increment}
use normfs.Mem.{
  total_size, Entry, Inner, MemQueue, SubscriberCallback, next_id, cleanup_unlocked, total_size,
}

-- `HashMap::remove` of one key.
remove {ℓ} : {A : Type ℓ} → ℕ → List (ℕ × A) → List (ℕ × A)
remove id [] = []
remove id ((j, c) ∷ m) = let rest = remove id m in if j == id then rest else (j, c) ∷ rest

module _ {U : Type 0} ⦃b : UBig U⦄ where
  -- What `enqueue` does under the lock.
  unfoldable pub push_entry : ℕ → List ℕ → Inner U → Inner U
  unfolding next_id cleanup_unlocked
  push_entry max_memory_usage contents inner =
      let id = next_id inner.last_id in
      cleanup_unlocked max_memory_usage (record inner {
        first_id = elim inner.first_id [ none ↦ some id | some f ↦ some f ];
        last_id = some id;
        entries = inner.entries ++ (record { id = id; contents = contents } ∷ []);
        memory_usage = inner.memory_usage + length contents;
      })

  -- The loop of `enqueue_batch`: the entries from an id on, each id one more than the last.
  unfoldable pub number_from : UintN U → List (List ℕ) → List (Entry U)
  number_from id [] = []
  number_from id (contents ∷ rest) =
      record { id = id; contents = contents } ∷ number_from (increment id) rest

  -- What `enqueue_batch` does under the lock, for a batch that is not empty.
  unfoldable pub push_batch : ℕ → List (List ℕ) → Inner U → Inner U
  push_batch max_memory_usage batch inner =
      let id = next_id inner.last_id in
      let added = number_from id batch in
      cleanup_unlocked max_memory_usage (record inner {
        first_id = elim inner.first_id [ none ↦ some id | some f ↦ some f ];
        last_id = elim (last added) [ none ↦ inner.last_id | some e ↦ some e.id ];
        entries = inner.entries ++ added;
        memory_usage = inner.memory_usage + total_size added;
      })

  -- The acknowledged id only grows.
  unfoldable pub raised : Option (UintN U) → UintN U → Option (UintN U)
  raised none id = some id
  raised (some acked) id = if gt id acked then some id else some acked

  unfoldable pub acknowledge : ℕ → UintN U → Inner U → Inner U
  acknowledge max_memory_usage id inner =
      cleanup_unlocked max_memory_usage
        (record inner { last_acked_id = raised inner.last_acked_id id })

module _ {U W : Type 0} ⦃b : UBig U⦄ where
  unfoldable pub subscribe : SubscriberCallback U W → MemQueue U W → ℕ × MemQueue U W
  subscribe callback q = (
    q.next_subscriber_id,
    record q {
      next_subscriber_id = q.next_subscriber_id + 1;
      subscribers = (q.next_subscriber_id, callback) ∷ q.subscribers;
    },
  )

  unfoldable pub unsubscribe : ℕ → MemQueue U W → MemQueue U W
  unfolding remove
  unsubscribe subscriber_id q = record q { subscribers = remove subscriber_id q.subscribers }

  -- Every callback sees the entries; those that answer false are to be removed.
  unfoldable pub notify_all :
      List (ℕ × SubscriberCallback U W) → List (UintN U × List ℕ) → W → List ℕ × W
  notify_all [] entries w = ([], w)
  notify_all ((id, callback) ∷ rest) entries w =
      let (keep, w') = callback entries w in
      let (to_remove, w'') = notify_all rest entries w' in
      (if keep then to_remove else id ∷ to_remove, w'')

  unfoldable pub unsubscribe_all : List ℕ → MemQueue U W → MemQueue U W
  unsubscribe_all [] q = q
  unsubscribe_all (id ∷ ids) q = unsubscribe_all ids (unsubscribe id q)

  unfoldable pub notify_subscribers : List (UintN U × List ℕ) → MemQueue U W → W → MemQueue U W × W
  unfolding notify_all unsubscribe_all
  notify_subscribers entries q w =
      let (to_remove, w') = notify_all q.subscribers entries w in (unsubscribe_all to_remove q, w')

  -- The callbacks run only if there were subscribers when the entries were pushed.
  unfoldable pub notify_if_any :
      List (ℕ × SubscriberCallback U W)
      → List (UintN U × List ℕ)
      → MemQueue U W
      → W
      → MemQueue U W × W
  notify_if_any [] entries q w = (q, w)
  notify_if_any (s ∷ ss) entries q w = notify_subscribers entries q w

  unfoldable pub enqueue : List ℕ → MemQueue U W → W → UintN U × MemQueue U W × W
  enqueue contents q w =
      let id = next_id q.inner.last_id in
      let q' = record q { inner = push_entry q.max_memory_usage contents q.inner } in
      let (q'', w') = notify_if_any q.subscribers ((id, contents) ∷ []) q' w in (id, q'', w')

  unfoldable pub enqueue_batch :
      List (List ℕ) → MemQueue U W → W → List (UintN U) × MemQueue U W × W
  enqueue_batch [] q w = ([], q, w)
  enqueue_batch (c ∷ cs) q w =
      let added = number_from (next_id q.inner.last_id) (c ∷ cs) in
      let q' = record q { inner = push_batch q.max_memory_usage (c ∷ cs) q.inner } in
      let (q'', w') = notify_if_any q.subscribers (map (λ e. (e.id, e.contents)) added) q' w in
      (map Entry.id added, q'', w')

  unfoldable pub ack : UintN U → MemQueue U W → MemQueue U W
  unfolding acknowledge
  ack id q = record q { inner = acknowledge q.max_memory_usage id q.inner }
