-- ===== src/Mem/Reach.antt =====
-- `normfs/src/mem/mod.rs`: the states that the calls on a `MemStore` reach, and one call's effect on
-- the other queues.
use normfs.Prelude.{
  ◌+◌, ◌/◌, ◌≡◌, ◌≢◌, ◌∷◌, [], ℕ, max, refl, inl, inr, Option, some, List, arith, Option-cases,
  length, All,
}
use normfs.UBig.{UBig}
use normfs.UintN.{UintN, Represents}
use normfs.UintN.Last.{IsCanonicalOption, next_value}
use normfs.Mem.{Inner, MemQueue, SubscriberCallback, total_size}
use normfs.Mem
use normfs.Mem.Write
use normfs.Mem.Invariant.{IsValid}
use normfs.Mem.Queue.{enqueue_lem, enqueue_batch_lem}
use normfs.Mem.Eviction.{ack_lem}
use normfs.Mem.Store.{
  MemStore, get, set, start_queue, enqueue, enqueue_batch, ack, subscribe, unsubscribe,
}
use normfs.Mem.Store

module _ {Q V : Type 0} (same : Discrete Q) where
  get-set :
      (queue : Q) (v u : V) (m : List (Q × V))
      → get same queue m ≡ some v
      → get same queue (set same queue u m) ≡ some u
  unfolding get set
  get-set queue v u [] h = cc
  get-set queue v u ((k, x) ∷ m) h = ground (arith, get-set queue v u m)

  get-set_other :
      (queue other : Q) (u : V) (m : List (Q × V))
      → other ≢ queue
      → get same other (set same queue u m) ≡ get same other m
  unfolding get set
  get-set_other queue other u [] n = refl
  get-set_other queue other u ((k, x) ∷ m) n = ground (arith, get-set_other queue other u m n)

  get-All {ℓ} :
      (P : V → Type ℓ) (queue : Q) (v : V) (m : List (Q × V))
      → All (λ e. P e.1) m
      → get same queue m ≡ some v
      → P v
  unfolding get
  get-All P queue v [] h e = ground arith
  get-All P queue v ((k, x) ∷ m) h e = ground (arith, get-All P queue v m)

  set-All {ℓ} :
      (P : V → Type ℓ) (queue : Q) (u : V) (m : List (Q × V))
      → P u
      → All (λ e. P e.1) m
      → All (λ e. P e.1) (set same queue u m)
  unfolding set
  set-All P queue u [] p h = tt
  set-All P queue u ((k, x) ∷ m) p h = ground (arith, set-All P queue u m p h.1)

module _ {U W : Type 0} ⦃b : UBig U⦄ where
  abbrev pub IsValidQueue : MemQueue U W → Type 0
  IsValidQueue q = IsValid q.inner

pub new-IsValid :
    {U : Type 0} (W : Type 0) ⦃b : UBig U⦄ (last_id : Option (UintN U)) (limit : ℕ)
    → IsCanonicalOption last_id
    → IsValidQueue (Mem.new {U = U} {W = W} last_id limit)
unfolding Mem.new total_size
new-IsValid W last_id limit h = record {
  last = h;
  counted = omega arith;
  consecutive = tt;
  first_in_memory = refl;
  memory = refl;
}

module _ {Q U W : Type 0} ⦃b : UBig U⦄ (same : Discrete Q) where
  -- A call that changes the store. A queue starts with the last id that recovery found.
  pub data Step : MemStore Q U W → MemStore Q U W → Type 0 where
    started :
        {store : MemStore Q U W} (queue : Q) (last_id : Option (UintN U))
        → IsCanonicalOption last_id
        → Step store (start_queue same queue last_id store)
    enqueued :
        {store store' : MemStore Q U W} (queue : Q) (contents : List ℕ) (id : UintN U) (w w' : W)
        → enqueue same queue contents store w ≡ some (id, store', w')
        → Step store store'
    batched :
        {store store' : MemStore Q U W} (queue : Q) (batch : List (List ℕ)) (ids : List (UintN U))
        (w w' : W)
        → enqueue_batch same queue batch store w ≡ some (ids, store', w')
        → Step store store'
    acked :
        {store : MemStore Q U W} (queue : Q) (id : UintN U) → Step store (ack same queue id store)
    subscribed :
        {store : MemStore Q U W} (queue : Q) (callback : SubscriberCallback U W)
        → Step store (subscribe same queue callback store).1
    unsubscribed :
        {store : MemStore Q U W} (queue : Q) (subscriber_id : ℕ)
        → Step store (unsubscribe same queue subscriber_id store)

  -- The stores that calls reach from an empty one.
  pub data Reached : MemStore Q U W → Type 0 where
    empty : (max_memory_usage : ℕ) → Reached (Store.new max_memory_usage)
    step : {store store' : MemStore Q U W} → Reached store → Step store store' → Reached store'

  abbrev pub IsValidStore : MemStore Q U W → Type 0
  IsValidStore store = All (λ e. IsValidQueue e.1) store.queues

  set-IsValid :
      (queue : Q) (q : MemQueue U W) (store : MemStore Q U W)
      → IsValidQueue q
      → IsValidStore store
      → All (λ e. IsValidQueue e.1) (set same queue q store.queues)
  set-IsValid queue q store = set-All same IsValidQueue queue q store.queues

  get-IsValid :
      (queue : Q) (q : MemQueue U W) (store : MemStore Q U W)
      → IsValidStore store
      → get same queue store.queues ≡ some q
      → IsValidQueue q
  get-IsValid queue q store = get-All same IsValidQueue queue q store.queues

  -- Each call on a store of valid queues.
  Step-IsValidStore :
      {store store' : MemStore Q U W} → Step store store' → IsValidStore store → IsValidStore store'
  unfolding start_queue enqueue enqueue_batch ack subscribe unsubscribe Write.subscribe
      Write.unsubscribe
  Step-IsValidStore (started {store} queue last_id h) v =
      elim (Option-cases (get same queue store.queues)) [
        | inl e ↦
            rw (start_queue, e)
              (new-IsValid W last_id (store.max_memory_usage / max (length store.queues) 1) h, v)
        | inr (q, e) ↦ rw (start_queue, e) v
      ]
  Step-IsValidStore (enqueued {store} queue contents id w w' e) v =
      elim (Option-cases (get same queue store.queues)) [
        | inl g ↦ ground (arith, g)
        | inr (q, g) ↦
            let valid = (enqueue_lem contents q w (get-IsValid queue q store v g)).1 in
            ground (arith, g, set-IsValid queue (Write.enqueue contents q w).1 store valid v)
      ]
  Step-IsValidStore (batched {store} queue batch ids w w' e) v =
      elim (Option-cases (get same queue store.queues)) [
        | inl g ↦ ground (arith, g)
        | inr (q, g) ↦
            let valid = (enqueue_batch_lem batch q w (get-IsValid queue q store v g)).1 in
            ground (arith, g, set-IsValid queue (Write.enqueue_batch batch q w).1 store valid v)
      ]
  Step-IsValidStore (acked {store} queue id) v = elim (Option-cases (get same queue store.queues)) [
    | inl e ↦ rw (ack, e) v
    | inr (q, e) ↦
        rw (ack, e) (set-IsValid queue _ store (ack_lem id q (get-IsValid queue q store v e)).0 v)
  ]
  Step-IsValidStore (subscribed {store} queue callback) v =
      elim (Option-cases (get same queue store.queues)) [
        | inl e ↦ rw (subscribe, e) v
        | inr (q, e) ↦
            rw (subscribe, e) (set-IsValid queue _ store (get-IsValid queue q store v e) v)
      ]
  Step-IsValidStore (unsubscribed {store} queue subscriber_id) v =
      elim (Option-cases (get same queue store.queues)) [
        | inl e ↦ rw (unsubscribe, e) v
        | inr (q, e) ↦
            rw (unsubscribe, e) (set-IsValid queue _ store (get-IsValid queue q store v e) v)
      ]

  -- In every store that calls reach from an empty one, each queue being started with no last id or one
  -- in canonical form, each queue is valid.
  pub Reached-IsValidStore : {store : MemStore Q U W} → Reached store → IsValidStore store
  unfolding Store.new
  Reached-IsValidStore (empty max_memory_usage) = tt
  Reached-IsValidStore (step r s) = Step-IsValidStore s (Reached-IsValidStore r)

  -- On a queue that is set up and valid, `enqueue` returns the number after the queue's last one, the
  -- queue's next number grows by one, and no other queue changes.
  pub enqueue_in_store :
      (queue : Q) (q : MemQueue U W) (contents : List ℕ) (store : MemStore Q U W) (w : W)
      → get same queue store.queues ≡ some q
      → IsValidQueue q
      → (id : UintN U) × (store' : MemStore Q U W) × (w' : W) × (q' : MemQueue U W) × (enqueue same
            queue contents store w
          ≡ some (id, store', w'))
        × Represents id (next_value q.inner.last_id)
        × (get same queue store'.queues ≡ some q')
        × (next_value q'.inner.last_id ≡ next_value q.inner.last_id + 1)
        × ((other : Q) → other ≢ queue → get same other store'.queues ≡ get same other store.queues)
  unfolding enqueue
  enqueue_in_store queue q contents store w g v =
      let (id, q', w') = Write.enqueue contents q w in
      let (represents, valid, next) = enqueue_lem contents q w v in
      (
        id,
        record store { queues = set same queue q' store.queues },
        w',
        q',
        ground (arith, g),
        represents,
        get-set same queue q q' store.queues g,
        next,
        λ other n. get-set_other same queue other q' store.queues n,
      )
