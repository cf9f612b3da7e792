-- ===== src/Mem.antt =====
-- `normfs/src/mem/mod.rs`: the entries of a queue that are kept in memory. The locks are held for
-- the whole of each operation, so an operation is a function on the state. A callback and a channel
-- belong to the caller: they act on a world `W`. Sizes in memory do not reach 2^64.
pub mod Write
pub mod Read
pub mod Range
pub mod Selection
pub mod ReadFull
pub mod Tail
pub mod ReadTail
pub mod Follow
pub mod FollowFull
pub mod Invariant
pub mod Numbering
pub mod Queue
pub mod Eviction
pub mod Store
pub mod Reach
use normfs.Prelude.{
  ◌+◌, ◌-◌, ◌∷◌, if◌then◌else◌, [], ℕ, suc, Bool, Option, none, some, List, ltb, leb, length, take,
  drop, first,
}
use mathlib.Core.Option
use normfs.UBig.{UBig}
use normfs.UintN
use normfs.UintN.{UintN}
use normfs.UintN.Order.{le}
use normfs.UintN.Arith.{increment}

pub record Entry (U : Type 0) : Type 0 where
  pub id : UintN U
  pub contents : List ℕ

pub record Inner (U : Type 0) : Type 0 where
  pub entries : List (Entry U)
  pub last_id : Option (UintN U)
  pub first_id : Option (UintN U)
  pub last_acked_id : Option (UintN U)
  pub memory_usage : ℕ

-- `SubscriberCallback`: it sees the new entries, and says whether it stays subscribed.
abbrev pub SubscriberCallback : Type 0 → Type 0 → Type 0
SubscriberCallback U W = List (UintN U × List ℕ) → W → Bool × W

pub record MemQueue (U W : Type 0) : Type 0 where
  pub inner : Inner U
  pub max_memory_usage : ℕ
  pub subscribers : List (ℕ × SubscriberCallback U W)
  pub next_subscriber_id : ℕ

unfoldable pub new : {U W : Type 0} → Option (UintN U) → ℕ → MemQueue U W
new last_id max_memory_usage = record {
  inner = record {
    entries = [];
    last_id = last_id;
    first_id = none;
    last_acked_id = none;
    memory_usage = 0;
  };
  max_memory_usage = max_memory_usage;
  subscribers = [];
  next_subscriber_id = 0;
}

-- The sum of the sizes of some entries.
unfoldable pub total_size : {U : Type 0} → List (Entry U) → ℕ
total_size [] = 0
total_size (e ∷ es) = length e.contents + total_size es

-- `map_or(UintN::zero(), |id| id.increment())`
module _ {U : Type 0} ⦃b : UBig U⦄ where
  unfoldable pub next_id : Option (UintN U) → UintN U
  next_id none = UintN.zero
  next_id (some id) = increment id

  -- How many entries at the front are acknowledged.
  unfoldable pub acked_prefix : UintN U → List (Entry U) → ℕ
  acked_prefix acked [] = 0
  acked_prefix acked (e ∷ es) =
      let rest = acked_prefix acked es in if le e.id acked then suc rest else 0

  -- `drain(0..to_remove)` and what goes with it.
  unfoldable pub remove_front : ℕ → Inner U → Inner U
  unfolding total_size
  remove_front to_remove inner = record inner {
    entries = drop to_remove inner.entries;
    memory_usage = inner.memory_usage - total_size (take to_remove inner.entries);
    first_id = Option.map Entry.id (first (drop to_remove inner.entries));
  }

  unfoldable pub cleanup_unlocked : ℕ → Inner U → Inner U
  unfolding remove_front acked_prefix
  cleanup_unlocked max_memory_usage inner =
      if leb inner.memory_usage max_memory_usage then inner else elim inner.last_acked_id [
        | none ↦ inner
        | some acked ↦
            let to_remove = acked_prefix acked inner.entries in
            if ltb 0 to_remove then remove_front to_remove inner else inner
      ]
