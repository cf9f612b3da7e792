-- ===== src/Wal/Buffer.antt =====
-- `normfs-wal/src/writer_buffer.rs`, and its use in `normfs-wal/src/writer.rs`: entries that arrive
-- out of order wait until the ids before them are there. The field `queue_id` serves the log only.
pub mod Release
pub mod Writes
use normfs.Prelude.{
  ◌≤◌, ◌∷◌, ◌++◌, if◌then◌else◌, [], ℕ, Bool, true, false, Option, none, some, List, All,
}
use mathlib.Core.List.{Permᴰ}
use normfs.UBig.{UBig}
use normfs.UintN.{UintN, value, is_zero}
use normfs.UintN.Order.{eq}
use normfs.UintN.Arith.{increment}

-- An id and its data.
abbrev pub Item : Type 0 → Type 0
Item U = UintN U × List ℕ

pub record OrderedBuffer (U : Type 0) : Type 0 where
  pub pending : List (Item U)
  pub last_written_id : Option (UintN U)

unfoldable pub new : {U : Type 0} → Option (UintN U) → OrderedBuffer U
new last_id = record { pending = []; last_written_id = last_id }

module _ {U : Type 0} ⦃b : UBig U⦄ where
  -- Ids that do not go down.
  abbrev pub IsSorted : List (Item U) → Type 0
  IsSorted [] = Unit {0}
  IsSorted (x ∷ xs) = All (λ y. value x.0 ≤ value y.0) xs × IsSorted xs

-- `sort_unstable_by` on the ids: a permutation in order; the order of equal ids is not fixed.
pub record SortById (U : Type 0) ⦃b : UBig U⦄ : Type 0 where
  pub sort : List (Item U) → List (Item U)
  pub sort-Permᴰ : (xs : List (Item U)) → Permᴰ xs (sort xs)
  pub sort-IsSorted : (xs : List (Item U)) → IsSorted (sort xs)

module _ {U : Type 0} ⦃b : UBig U⦄ where
  -- An id is the one that comes next.
  unfoldable pub is_next : Option (UintN U) → UintN U → Bool
  is_next none id = is_zero id
  is_next (some last_id) id = eq id (increment last_id)

  unfoldable pub check_can_write : UintN U → OrderedBuffer U → Bool
  unfolding is_next
  check_can_write id buffer = is_next buffer.last_written_id id

  unfoldable pub can_write : UintN U → OrderedBuffer U → Bool × OrderedBuffer U
  unfolding check_can_write
  can_write id buffer =
      if check_can_write id buffer
      then (true, record buffer { last_written_id = some id })
      else (false, buffer)

  -- The loop of `wait_for_order`: what is ready, what stays, and the last id that is ready.
  unfoldable pub take_ready :
      Option (UintN U) → List (Item U) → List (Item U) × List (Item U) × Option (UintN U)
  take_ready last_id [] = ([], [], last_id)
  take_ready last_id ((id, contents) ∷ rest) =
      let more = take_ready (some id) rest in
      if is_next last_id id
      then ((id, contents) ∷ more.0, more.1, more.2)
      else ([], (id, contents) ∷ rest, last_id)

module _ {U : Type 0} ⦃b : UBig U⦄ (s : SortById U) where
  unfoldable pub wait_for_order : Item U → OrderedBuffer U → List (Item U) × OrderedBuffer U
  unfolding take_ready
  wait_for_order entry buffer =
      let sorted = s.sort (buffer.pending ++ (entry ∷ [])) in
      let (ready, pending, last_id) = take_ready buffer.last_written_id sorted in
      (ready, record { pending = pending; last_written_id = last_id })

  -- The entries that `WriterState::write` writes when one arrives.
  unfoldable pub entries_to_write : Item U → OrderedBuffer U → List (Item U) × OrderedBuffer U
  unfolding can_write wait_for_order
  entries_to_write entry buffer =
      let (accepted, buffer') = can_write entry.0 buffer in
      if accepted then (entry ∷ [], buffer') else wait_for_order entry buffer'
