-- ===== src/Tests/Mem.antt =====
-- `normfs/src/mem/mod.rs` at concrete inputs.
use normfs.Prelude.{
  ◌≤◌, ◌≡◌, ◌⊎◌, ◌∷◌, if◌then◌else◌, [], ℕ, refl, Bool, true, false, none, some, List, arith, ltb,
  length,
}
use normfs.Mem.Read.{read_full, succeed, send_all, read_full_negative}
use normfs.Mem.Selection.{wanted}
use normfs.Types.{ReadEntry}
use normfs.Mem.Write.{ack, enqueue_batch, enqueue}
use normfs.Tests.BigNat.{big_nat}
use normfs.UintN.{UintN, u8, value, Represents}
use normfs.Mem.{MemQueue, total_size, acked_prefix}
use normfs.Mem.Invariant.{IsValid}
use normfs.UintN.Last.{next_value}
use normfs.Mem.Queue.{enqueue_lem, enqueue_batch_lem, IsNumbered}
use normfs.Mem.Eviction.{ack_lem, Evicts, Covers}
use normfs.Mem.ReadFull.{read_full_lem}
use normfs.Mem.Follow.{follow_full}
use normfs.Mem.FollowFull.{follow_full_lem, followed}
use normfs.Mem.ReadTail.{read_full_negative_lem, reported, expected_tail}

-- Entries 4 to 6 are in memory, with 6 bytes of data; 4 bytes are the limit.
abbrev three_entries : MemQueue ℕ (List (ReadEntry ℕ))
three_entries = record {
  inner = record {
    entries =
        record { id = u8 4; contents = 1 ∷ [] }
        ∷ record { id = u8 5; contents = 2 ∷ 3 ∷ [] }
        ∷ record { id = u8 6; contents = 4 ∷ 5 ∷ 6 ∷ [] }
        ∷ [];
    last_id = some (u8 6);
    first_id = some (u8 4);
    last_acked_id = none;
    memory_usage = 6;
  };
  max_memory_usage = 4;
  subscribers = (0, λ entries w. (false, w)) ∷ [];
  next_subscriber_id = 1;
}

three_entries-IsValid : IsValid three_entries.inner
unfolding value total_size
three_entries-IsValid = record {
  last = omega arith;
  counted = omega arith;
  consecutive = ((refl, omega arith), ((refl, omega arith), ((refl, omega arith), tt)));
  first_in_memory = refl;
  memory = refl;
}

enqueue_lem_example :
    Represents (enqueue (7 ∷ []) three_entries []).0 7
    × IsValid (enqueue (7 ∷ []) three_entries []).1.inner
    × (next_value (enqueue (7 ∷ []) three_entries []).1.inner.last_id ≡ 8)
unfolding value
enqueue_lem_example = enqueue_lem (7 ∷ []) three_entries [] three_entries-IsValid

abbrev two_contents : List (List ℕ)
two_contents = (7 ∷ []) ∷ (8 ∷ []) ∷ []

enqueue_batch_lem_example :
    IsNumbered 7 (enqueue_batch two_contents three_entries []).0
    × IsValid (enqueue_batch two_contents three_entries []).1.inner
    × (next_value (enqueue_batch two_contents three_entries []).1.inner.last_id ≡ 9)
unfolding value
enqueue_batch_lem_example = enqueue_batch_lem two_contents three_entries [] three_entries-IsValid

ack_lem_example :
    IsValid (ack (u8 5) three_entries).inner
    × Evicts three_entries.inner (ack (u8 5) three_entries).inner
    × ((acked : UintN ℕ) × ((ack (u8 5) three_entries).inner.last_acked_id ≡ some acked)
        × (value {U = ℕ} (u8 5) ≤ value acked)
        × Covers acked none
        × (((ack (u8 5) three_entries).inner.memory_usage ≤ 4)
            ⊎ (acked_prefix acked (ack (u8 5) three_entries).inner.entries ≡ 0)))
ack_lem_example = ack_lem (u8 5) three_entries three_entries-IsValid

-- A channel that closes once it holds two entries.
abbrev bounded_send : ReadEntry ℕ → List (ReadEntry ℕ) → Bool × List (ReadEntry ℕ)
bounded_send e sent = if ltb (length sent) 2 then (true, e ∷ sent) else (false, sent)

read_full_lem_example :
    read_full bounded_send 8 (u8 4) (u8 6) 2 three_entries []
    ≡ some (succeed, (send_all bounded_send ((u8 4, 1 ∷ []) ∷ (u8 6, 4 ∷ 5 ∷ 6 ∷ []) ∷ []) []).1)
unfolding value wanted
read_full_lem_example =
    read_full_lem bounded_send 7 (u8 4) (u8 6) 2 three_entries [] three_entries-IsValid
      (omega arith) (omega arith) (omega arith) (omega arith)

read_full_negative_lem_example :
    (start : UintN ℕ) × Represents start 5
    × (read_full_negative bounded_send 7 (u8 1) 1 1 three_entries []
        ≡ some (reported bounded_send (expected_tail start 6 1 1 three_entries.inner.entries) []))
unfolding value
read_full_negative_lem_example =
    read_full_negative_lem bounded_send 6 (u8 1) (u8 6) 1 1 three_entries [] three_entries-IsValid
      refl (omega arith) (omega arith) (omega arith) (omega arith)

follow_full_lem_example :
    follow_full bounded_send bounded_send 7 (u8 5) (u8 5) 1 three_entries []
    ≡ some (
        followed bounded_send bounded_send
          (u8 5)
          1
          (some ((u8 5, 2 ∷ 3 ∷ []) ∷ (u8 6, 4 ∷ 5 ∷ 6 ∷ []) ∷ []))
          three_entries
          [])
unfolding value wanted
follow_full_lem_example =
    follow_full_lem bounded_send bounded_send 6 (u8 5) (u8 5) (u8 6) 1 three_entries []
      three_entries-IsValid refl (omega arith) (omega arith) (omega arith) (omega arith)
