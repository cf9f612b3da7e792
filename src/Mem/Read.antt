-- ===== src/Mem/Read.antt =====
-- `normfs/src/mem/mod.rs`: reading a range of entries from memory. The inner `while` has fuel; `none`
-- means that it ran out. The channel belongs to the caller: `send` answers false once it is closed.
use normfs.Prelude.{
  ◌+◌, ◌&&◌, ◌∷◌, if◌then◌else◌, [], ℕ, suc, Bool, true, false, Option, none, some, List, ltb, leb,
  ok, err, panic, zero,
}
use mathlib.Core.Option
use normfs.UBig.{UBig}
use normfs.UintN
use normfs.UintN.{UintN, value, IsCanonical}
use normfs.UintN.Order.{lt, gt, eq}
use normfs.UintN.Arith.{sub}
use normfs.UintN.Step.{step_by}
use normfs.Types.{ReadEntry, memory}
use normfs.Mem.{Entry, Inner, MemQueue}

pub record MemReadResult (U : Type 0) : Type 0 where
  pub success : Bool
  pub start_id : Option (UintN U)
  pub subscription_id : Option ℕ

abbrev pub fail : {U : Type 0} → MemReadResult U
fail = record { success = false; start_id = none; subscription_id = none }

abbrev pub succeed : {U : Type 0} → MemReadResult U
succeed = record { success = true; start_id = none; subscription_id = none }

abbrev pub Item : Type 0 → Type 0
Item U = UintN U × List ℕ

module _ {U : Type 0} ⦃b : UBig U⦄ where
  -- `while current_id < target { current_id = current_id.step_by(step); … }`, which `read_full` also
  -- leaves once it is past the end of the range.
  unfoldable pub advance :
      ℕ → (past_end : UintN U → Bool) → UintN U → UintN U → ℕ → Option (UintN U)
  advance zero past_end current target step = none
  advance (suc fuel) past_end current target step =
      let next = step_by current step in
      let rest = advance fuel past_end next target step in
      if lt current target then (if past_end next then some next else rest) else some current

  -- The `for` loop: `stop` is its `break`, which sees how many entries are taken already.
  unfoldable pub collect :
      ℕ
      → (past_end : UintN U → Bool) → (stop : ℕ → Entry U → Bool) → ℕ
      → ℕ
      → UintN U
      → List (Entry U)
      → Option (List (Item U))
  collect fuel past_end stop step count current [] = some []
  collect fuel past_end stop step count current (e ∷ es) =
      let skipped = λ (c : UintN U). collect fuel past_end stop step count c es in
      let taken = λ (c : UintN U).
        Option.map (λ items. (e.id, e.contents) ∷ items)
          (collect fuel past_end stop step (count + 1) (step_by c step) es) in
      if stop count e then some [] else elim (advance fuel past_end current e.id step) [
        | none ↦ none
        | some c ↦ if eq c e.id then taken c else skipped c
      ]

  -- `skip_while(|e| e.id < start_id)`
  unfoldable pub skip_before : UintN U → List (Entry U) → List (Entry U)
  skip_before start [] = []
  skip_before start (e ∷ es) =
      let rest = skip_before start es in if lt e.id start then rest else e ∷ es

  -- What `read_full` finds under the lock: the result to report, and the entries to send.
  unfoldable pub find_range :
      ℕ → UintN U → UintN U → ℕ → Inner U → Option (MemReadResult U × List (Item U))
  find_range fuel start_id end_id step inner = elim inner.last_id [
    | none ↦ some (succeed, [])
    | some mem_last_id ↦
        if gt start_id mem_last_id then some (succeed, []) else elim inner.first_id [
          | none ↦ some (fail, [])
          | some mem_start_id ↦
              if lt start_id mem_start_id
              then some (fail, [])
              else Option.map (λ items. (succeed, items))
                  (collect fuel (λ c. gt c end_id) (λ count e. gt e.id end_id) step 0 start_id
                    (skip_before start_id inner.entries))
        ]
  ]

  -- `last_id - offset`, or zero where the queue is shorter. A panic of `sub` is none.
  unfoldable pub tail_start : UintN U → UintN U → Option (UintN U)
  tail_start offset last_id =
      if gt offset last_id
      then some UintN.zero
      else elim (sub last_id offset) [ ok id ↦ some id | err e ↦ some UintN.zero | panic ↦ none ]

  -- What `read_full_negative` finds under the lock.
  unfoldable pub find_tail :
      ℕ → UintN U → ℕ → ℕ → Inner U → Option (MemReadResult U × List (Item U))
  find_tail fuel offset step limit inner = elim inner.last_id [
    | none ↦ some (record succeed { start_id = some UintN.zero }, [])
    | some last_id ↦ elim (tail_start offset last_id) [
      | none ↦ none
      | some start_id ↦ elim inner.first_id [
        | none ↦ some (record fail { start_id = some start_id }, [])
        | some mem_start_id ↦
            if lt start_id mem_start_id
            then some (record fail { start_id = some start_id }, [])
            else Option.map
                (λ items. elim items [
                  | [] ↦ (record fail { start_id = some start_id }, [])
                  | i ∷ is ↦ (record succeed { start_id = some start_id }, i ∷ is)
                ])
                (collect fuel (λ c. false) (λ count e. ltb 0 limit && leb limit count) step 0
                  start_id (skip_before start_id inner.entries))
      ]
    ]
  ]

module _ {U W : Type 0} ⦃b : UBig U⦄ (send : ReadEntry U → W → Bool × W) where
  -- The entries are sent in order until the channel is closed; the answer is whether all went out.
  unfoldable pub send_all : List (Item U) → W → Bool × W
  send_all [] w = (true, w)
  send_all ((id, contents) ∷ items) w =
      let (accepted, w') = send (record { id = id; contents = contents; source = memory }) w in
      let rest = send_all items w' in if accepted then rest else (false, w')

  -- A closed channel does not make `read_full` fail.
  unfoldable pub read_full :
      ℕ → UintN U → UintN U → ℕ → MemQueue U W → W → Option (MemReadResult U × W)
  read_full fuel start_id end_id step q w =
      Option.map (λ found. (found.0, (send_all found.1 w).1))
        (find_range fuel start_id end_id step q.inner)

  -- A closed channel makes `read_full_negative` fail.
  unfoldable pub read_full_negative :
      ℕ → UintN U → ℕ → ℕ → MemQueue U W → W → Option (MemReadResult U × W)
  read_full_negative fuel offset step limit q w =
      Option.map
        (λ found.
          let (sent, w') = send_all found.1 w in
          (if sent then found.0 else record found.0 { success = false }, w'))
        (find_tail fuel offset step limit q.inner)
