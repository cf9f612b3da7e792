-- ===== src/Tests/Store.antt =====
-- `MemStore` of `normfs/src/mem/mod.rs` at concrete inputs; the queue ids are numbers here.
use normfs.Prelude.{ℕ, none, some, arith}
use native.Mathlib.Decide.{ℕ_discrete}
use normfs.Tests.BigNat.{big_nat}
use normfs.UintN.{u8}
use normfs.Mem.Store.{MemStore, start_queue, enqueue, get}
use normfs.Mem.Store
use normfs.Mem.Reach.{Reached, empty, step, started, IsValidStore, Reached-IsValidStore}

-- Queue 1 begins after entry 41, and queue 2 is new.
abbrev two_queues : MemStore ℕ ℕ (Unit {0})
two_queues =
    start_queue ℕ_discrete 2 none (start_queue ℕ_discrete 1 (some (u8 41)) (Store.new 1_000))

two_queues-Reached : Reached ℕ_discrete two_queues
two_queues-Reached =
    step (step (empty 1_000) (started 1 (some (u8 41)) (omega arith))) (started 2 none tt)

Reached-IsValidStore_example : IsValidStore ℕ_discrete two_queues
Reached-IsValidStore_example = Reached-IsValidStore ℕ_discrete two_queues-Reached
