-- ===== src/Mem/Follow.antt =====
-- `normfs/src/mem/mod.rs`: `follow_full` and `follow_full_negative`, which send the entries from an id
-- on and subscribe to those that come. Nothing is enqueued in between here: the source releases the
-- lock of the entries before it sends, and subscribes after. `try_send` fails on a full channel too.
use normfs.Prelude.{
  ◌||◌, ◌∷◌, if◌then◌else◌, [], ℕ, Bool, true, false, not, Option, none, some, List, last, ok,
}
use mathlib.Core.Option
use normfs.UBig.{UBig}
use normfs.UintN
use normfs.UintN.{UintN, from_u64}
use normfs.UintN.Order.{lt, le, eq}
use normfs.UintN.Arith.{add}
use normfs.UintN.Step.{in_step}
use normfs.Types.{ReadEntry, memory}
use normfs.Mem.{Inner, MemQueue, SubscriberCallback}
use normfs.Mem.Write.{subscribe}
use normfs.Mem.Read.{MemReadResult, Item, fail, collect, skip_before, tail_start, send_all}

module _ {U : Type 0} ⦃b : UBig U⦄ where
  -- The entries from the start on that are in step.
  unfoldable pub collect_all : ℕ → UintN U → ℕ → Inner U → Option (List (Item U))
  collect_all fuel start_id step inner =
      collect fuel (λ c. false) (λ count e. false) step 0 start_id
        (skip_before start_id inner.entries)

  -- What `follow_full` finds under the lock: the entries to send, or none, with which it fails.
  unfoldable pub find_follow : ℕ → UintN U → ℕ → Inner U → Option (Option (List (Item U)))
  find_follow fuel start_id step inner = elim inner.first_id [
    | none ↦ some (some [])
    | some mem_start_id ↦
        if lt start_id mem_start_id
        then some none
        else Option.map some (collect_all fuel start_id step inner)
  ]

  -- The id was sent already.
  unfoldable pub is_sent : Option (UintN U) → UintN U → Bool
  is_sent none id = false
  is_sent (some last_id) id = le id last_id

  -- A panic of `in_step`, which a step of zero brings, counts as out of step.
  unfoldable pub steps_to : UintN U → UintN U → ℕ → Bool
  steps_to id from_id step = elim (in_step id from_id step) [ ok answer ↦ answer | e ↦ false ]

module _ {U W : Type 0} ⦃b : UBig U⦄ (send try_send : ReadEntry U → W → Bool × W) where
  -- The callback of a subscription.
  unfoldable pub follow_callback : Option (UintN U) → UintN U → ℕ → SubscriberCallback U W
  follow_callback last_sent_id from_id step [] w = (true, w)
  follow_callback last_sent_id from_id step ((id, contents) ∷ entries) w =
      let entry : ReadEntry U = record { id = id; contents = contents; source = memory } in
      let (accepted, w') = try_send entry w in
      let rest = follow_callback last_sent_id from_id step entries w in
      let rest' = follow_callback last_sent_id from_id step entries w' in
      if is_sent last_sent_id id || not (steps_to id from_id step)
      then rest
      else if accepted
      then rest'
      else (false, w')

  unfoldable pub subscribe_from :
      Option (UintN U)
      → Option (UintN U)
      → UintN U
      → ℕ
      → MemQueue U W
      → MemReadResult U × MemQueue U W
  subscribe_from start_id last_sent_id from_id step q =
      let (subscription_id, q') = subscribe (follow_callback last_sent_id from_id step) q in
      (record { success = true; start_id = start_id; subscription_id = some subscription_id }, q')

  -- The end of both functions: the entries are sent, and the callback is inserted.
  unfoldable pub send_and_subscribe :
      Option (UintN U)
      → UintN U
      → ℕ
      → List (Item U)
      → MemQueue U W
      → W
      → MemReadResult U × MemQueue U W × W
  send_and_subscribe start_id from_id step items q w =
      let (sent, w') = send_all send items w in
      let (result, q') =
        subscribe_from start_id (Option.map (λ i. i.0) (last items)) from_id step q in
      if sent then (result, q', w') else (record fail { start_id = start_id }, q, w')

  unfoldable pub follow_full :
      ℕ → UintN U → UintN U → ℕ → MemQueue U W → W → Option (MemReadResult U × MemQueue U W × W)
  follow_full fuel from_id start_id step q w = elim (find_follow fuel start_id step q.inner) [
    | none ↦ none
    | some none ↦ some (fail, q, w)
    | some (some items) ↦ some (send_and_subscribe none from_id step items q w)
  ]

  unfoldable pub follow_full_negative :
      ℕ → UintN U → ℕ → MemQueue U W → W → Option (MemReadResult U × MemQueue U W × W)
  follow_full_negative fuel offset step q w =
      if eq offset UintN.zero
      then (let from_id : UintN U = elim q.inner.last_id [
        | none ↦ UintN.zero
        | some id ↦ add id (from_u64 1)
      ] in
          let (result, q') = subscribe_from (some from_id) q.inner.last_id from_id step q in
          some (result, q', w))
      else elim q.inner.last_id [
        | none ↦
            some
              (record { success = true; start_id = some UintN.zero; subscription_id = none }, q, w)
        | some last_id ↦ elim (tail_start offset last_id) [
          | none ↦ none
          | some start_id ↦ elim q.inner.first_id [
            | none ↦ some (record fail { start_id = some start_id }, q, w)
            | some mem_start_id ↦
                if lt start_id mem_start_id
                then some (record fail { start_id = some start_id }, q, w)
                else Option.map
                    (λ items. send_and_subscribe (some start_id) start_id step items q w)
                    (collect_all fuel start_id step q.inner)
          ]
        ]
      ]
