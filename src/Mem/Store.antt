-- ===== src/Mem/Store.antt =====
-- `normfs/src/mem/mod.rs`: `MemStore`, the memory queues by their ids. A queue is never removed, and
-- every call on it happens in the map. `none` is the panic of `expect("queue not setup")`.
use normfs.Prelude.{◌/◌, ◌∷◌, [], ℕ, max, Bool, Option, none, some, List, length}
use normfs.UBig.{UBig}
use normfs.UintN.{UintN}
use normfs.Types.{ReadEntry}
use normfs.Mem.{MemQueue, SubscriberCallback}
use normfs.Mem
use normfs.Mem.Write
use normfs.Mem.Read.{MemReadResult, fail}
use normfs.Mem.Read
use normfs.Mem.Follow
use mathlib.Core.Option

-- `Q` is the type of the queue ids, `W` the world of callbacks and channels.
pub record MemStore (Q U W : Type 0) : Type 0 where
  pub queues : List (Q × MemQueue U W)
  pub max_memory_usage : ℕ

unfoldable pub new : {Q U W : Type 0} → ℕ → MemStore Q U W
new max_memory_usage = record { queues = []; max_memory_usage = max_memory_usage }

-- `HashMap::get`, and the map after a call on one queue.
module _ {Q V : Type 0} (same : Discrete Q) where
  unfoldable pub get : Q → List (Q × V) → Option V
  get queue [] = none
  get queue ((k, v) ∷ m) =
      let rest = get queue m in elim (same k queue) [ yes e ↦ some v | no n ↦ rest ]

  unfoldable pub set : Q → V → List (Q × V) → List (Q × V)
  set queue v [] = []
  set queue v ((k, u) ∷ m) =
      let rest = set queue v m in elim (same k queue) [ yes e ↦ (k, v) ∷ m | no n ↦ (k, u) ∷ rest ]

module _ {Q U W : Type 0} ⦃b : UBig U⦄ (same : Discrete Q) where
  abbrev with_queue : Q → MemQueue U W → MemStore Q U W → MemStore Q U W
  with_queue queue q store = record store { queues = set same queue q store.queues }

  unfoldable pub start_queue : Q → Option (UintN U) → MemStore Q U W → MemStore Q U W
  unfolding get Mem.new
  start_queue queue last_id store = elim (get same queue store.queues) [
    | some q ↦ store
    | none ↦
        let queue_max_memory = store.max_memory_usage / max (length store.queues) 1 in
        record store { queues = (queue, Mem.new last_id queue_max_memory) ∷ store.queues }
  ]

  unfoldable pub enqueue : Q → List ℕ → MemStore Q U W → W → Option (UintN U × MemStore Q U W × W)
  unfolding get set Write.enqueue
  enqueue queue contents store w = elim (get same queue store.queues) [
    | none ↦ none
    | some q ↦
        let (id, q', w') = Write.enqueue contents q w in some (id, with_queue queue q' store, w')
  ]

  unfoldable pub enqueue_batch :
      Q → List (List ℕ) → MemStore Q U W → W → Option (List (UintN U) × MemStore Q U W × W)
  unfolding get set Write.enqueue_batch
  enqueue_batch queue batch store w = elim (get same queue store.queues) [
    | none ↦ none
    | some q ↦
        let (ids, q', w') = Write.enqueue_batch batch q w in
        some (ids, with_queue queue q' store, w')
  ]

  unfoldable pub get_last_id : Q → MemStore Q U W → Option (Option (UintN U))
  unfolding get
  get_last_id queue store = Option.map (λ q. q.inner.last_id) (get same queue store.queues)

  unfoldable pub ack : Q → UintN U → MemStore Q U W → MemStore Q U W
  unfolding get set Write.ack
  ack queue id store = elim (get same queue store.queues) [
    | none ↦ store
    | some q ↦ with_queue queue (Write.ack id q) store
  ]

  unfoldable pub subscribe : Q → SubscriberCallback U W → MemStore Q U W → Option ℕ × MemStore Q U W
  unfolding get set Write.subscribe
  subscribe queue callback store = elim (get same queue store.queues) [
    | none ↦ (none, store)
    | some q ↦
        let (subscriber_id, q') = Write.subscribe callback q in
        (some subscriber_id, with_queue queue q' store)
  ]

  unfoldable pub unsubscribe : Q → ℕ → MemStore Q U W → MemStore Q U W
  unfolding get set Write.unsubscribe
  unsubscribe queue subscriber_id store = elim (get same queue store.queues) [
    | none ↦ store
    | some q ↦ with_queue queue (Write.unsubscribe subscriber_id q) store
  ]

  module _ (send : ReadEntry U → W → Bool × W) where
    unfoldable pub read_full :
        ℕ → Q → UintN U → UintN U → ℕ → MemStore Q U W → W → Option (MemReadResult U × W)
    unfolding get Read.read_full
    read_full fuel queue start_id end_id step store w = elim (get same queue store.queues) [
      | none ↦ some (fail, w)
      | some q ↦ Read.read_full send fuel start_id end_id step q w
    ]

    unfoldable pub read_full_negative :
        ℕ → Q → UintN U → ℕ → ℕ → MemStore Q U W → W → Option (MemReadResult U × W)
    unfolding get Read.read_full_negative
    read_full_negative fuel queue offset step limit store w = elim (get same queue store.queues) [
      | none ↦ some (fail, w)
      | some q ↦ Read.read_full_negative send fuel offset step limit q w
    ]

  module _ (send try_send : ReadEntry U → W → Bool × W) where
    unfoldable pub follow_full :
        ℕ
        → Q
        → UintN U
        → UintN U
        → ℕ
        → MemStore Q U W
        → W
        → Option (MemReadResult U × MemStore Q U W × W)
    unfolding get set Follow.follow_full
    follow_full fuel queue from_id start_id step store w = elim (get same queue store.queues) [
      | none ↦ some (fail, store, w)
      | some q ↦
          Option.map (λ (result, q', w'). (result, with_queue queue q' store, w'))
            (Follow.follow_full send try_send fuel from_id start_id step q w)
    ]

    unfoldable pub follow_full_negative :
        ℕ → Q → UintN U → ℕ → MemStore Q U W → W → Option (MemReadResult U × MemStore Q U W × W)
    unfolding get set Follow.follow_full_negative
    follow_full_negative fuel queue offset step store w = elim (get same queue store.queues) [
      | none ↦ some (fail, store, w)
      | some q ↦
          Option.map (λ (result, q', w'). (result, with_queue queue q' store, w'))
            (Follow.follow_full_negative send try_send fuel offset step q w)
    ]
