-- ===== src/Tests/Writer.antt =====
-- `normfs-wal/src/ack_file_writer.rs` and `writer.rs` at concrete inputs.
use normfs.Prelude.{
  ◌^◌, ◌<◌, ◌≡◌, ◌∷◌, ◌++◌, [], ℕ, suc, refl, inl, Bool, true, false, none, List, arith, err, zero,
}
use normfs.Wal.AckFile.Runs.{Runs-Holds, Runs, opened-Holds, onward}
use normfs.Wal.Entry
use normfs.UintN.{from_u64}
use normfs.Wal.Reader.Log.{EntryFits}
use normfs.Wal.Reader.{io_error}
use normfs.Wal.Writer.Failed.{rotate_fails}
use normfs.Wal.Writer.Files.{IsStored, close-IsStored, close_in_order, HoldsAll, started}
use normfs.Wal.Header.{WalHeader}
use normfs.Wal.AckFile.Holds.{Written, Holds}
use normfs.Wal.AckFile.Attempts.{IsClean, sync_failed_writes_twice}
use normfs.UintN.Codec.{is_valid_data_size, size_in_bytes}
use normfs.UintN.{u8, value}
use normfs.UintN.Codec.{is_valid_data_size, size_in_bytes}
use normfs.Types.{aes, zstd}
use normfs.Wal.Buffer.{Item}
use normfs.Wal.AckFile.Runs.{Runs, Runs-Holds, writes, wakes, completes, here, onward, opened-Holds}
use normfs.Wal.AckFile.Holds.{Holds, Written}
use normfs.Wal.AckFile.Attempts.{IsClean, sync_failed_writes_twice}
use normfs.Wal.Writer.Logged.{IsReliable, IsHeader, IsEntry, FileLog}
use normfs.Wal.Writer.Turns
use normfs.Wal.Writer.Turns.{IsWriting, Turns-IsWriting, batches}
use normfs.Wal.Entry
use normfs.UintN.{from_u64}
use normfs.Wal.Reader.Log.{EntryFits}
use normfs.Wal.Reader.{io_error}
use normfs.Wal.Writer.Failed.{rotate_fails}
use normfs.Wal.Writer.Files.{
  IsStored, close-IsStored, close_in_order, HoldsAll, started, new-IsWriting,
}
use normfs.Tests.BigNat.{big_nat}
use normfs.Tests.Buffer.{by_insertion, item}
use normfs.Wal.AckFile
use normfs.Wal.Writer
use normfs.Wal.AckFile.{AckFileWriter, Attempt, written, AckFileWriterSettings}
use normfs.Wal.Writer.{WriterState, Disk, WalSettings}

-- The first `sync_all` fails, the second one succeeds.
abbrev once : ℕ → Attempt
once zero = written false
once (suc n) = written true

sync_failed_writes_twice_example :
    AckFile.write_attempts true once (1 ∷ 2 ∷ []) AckFile.max_retries 0 (7 ∷ [])
    ≡ (7 ∷ 1 ∷ 2 ∷ 1 ∷ 2 ∷ [], true)
sync_failed_writes_twice_example =
    sync_failed_writes_twice true once (1 ∷ 2 ∷ []) (7 ∷ []) refl refl refl

abbrev pub always : ℕ → Attempt
always n = written true

always-IsClean : (fsync : Bool) (k : ℕ) → IsClean fsync (always k)
unfolding AckFile.succeeded
always-IsClean true k = inl refl
always-IsClean false k = inl refl

abbrev small_file : AckFileWriterSettings
small_file = record { max_buffer_size = 100; max_file_size = 60; fsync = true }

abbrev empty_file : AckFileWriter ℕ ℕ
empty_file = AckFile.opened small_file (7 ∷ 7 ∷ [])

abbrev one_written : List (Written ℕ ℕ)
one_written = (3, u8 0, 5 ∷ 6 ∷ []) ∷ []

abbrev one_waits : AckFileWriter ℕ ℕ
one_waits = AckFile.write 3 (u8 0) (5 ∷ 6 ∷ []) empty_file

abbrev one_flushed : AckFileWriter ℕ ℕ
one_flushed = AckFile.complete_flush always (AckFile.wake_up AckFile.tick one_waits)

one_run : Runs empty_file one_written one_flushed
unfolding AckFile.is_ready AckFile.write
one_run = onward _ _ _ _ [] (writes empty_file 3 (u8 0) (5 ∷ 6 ∷ [])) (
    onward _ _ _ [] [] (wakes one_waits AckFile.tick refl)
      (onward _ _ _ [] [] (completes _ always (always-IsClean _)) (here one_flushed)))

Runs-Holds_example : Holds (7 ∷ 7 ∷ []) one_written one_flushed
Runs-Holds_example =
    Runs-Holds (7 ∷ 7 ∷ []) [] one_written empty_file one_flushed
      (opened-Holds (7 ∷ 7 ∷ []) small_file) one_run

abbrev pub disk : Disk ℕ
disk = record { creates = λ id. true; pending = λ id. always; final = λ id. always }

abbrev pub hash : List ℕ → ℕ
hash bytes = 9

pub hash_bound : (bs : List ℕ) → hash bs < 2 ^ 64
hash_bound bs = omega arith

disk-IsReliable : IsReliable true disk
unfolding AckFile.succeeded
disk-IsReliable = record {
  creates = λ id. refl;
  pending = λ id k. always-IsClean true k;
  final = λ id k. always-IsClean true k;
  succeeds = λ id. (0, omega arith, refl);
}

abbrev pub settings : WalSettings
settings = record {
  max_file_size = 60;
  write_buffer_size = 100;
  enable_fsync = true;
  encryption_type = aes;
  compression_type = zstd;
}

abbrev pub narrow : WalHeader ℕ
narrow = record { data_size_bytes = 1; id_size_bytes = 1; num_entries_before = u8 0 }

pub narrow-IsHeader : IsHeader narrow
unfolding is_valid_data_size size_in_bytes
narrow-IsHeader = record {
  id_size = refl;
  data_size = refl;
  writable = record {
    data_size = omega arith;
    id_size = omega arith;
    entries = omega arith;
    countable = omega arith;
  };
}

abbrev start : WriterState ℕ ℕ
start = started hash hash_bound 3 by_insertion disk (u8 0) narrow settings none

start-IsWriting : IsWriting hash hash_bound by_insertion 3 0 [] start
unfolding value
start-IsWriting =
    (new-IsWriting hash hash_bound 3 by_insertion disk (u8 0) narrow settings none refl
      narrow-IsHeader tt refl).1

item-IsEntry : (n : ℕ) → n < 256 → IsEntry (item n)
unfolding is_valid_data_size size_in_bytes
item-IsEntry n lt = record { id = omega (arith, lt); id_size = refl; small = omega arith }

-- Entry 1 comes before entry 0.
abbrev two_items : List (Item ℕ)
two_items = item 1 ∷ item 0 ∷ []

abbrev then_two : WriterState ℕ ℕ
then_two = Writer.handle hash by_insertion disk (Writer.enqueue_batch two_items) start

two_then-IsWriting :
    IsWriting hash hash_bound by_insertion 3 0 two_items then_two
    × (then_two.settings.enable_fsync ≡ true)
two_then-IsWriting =
    Turns-IsWriting hash hash_bound by_insertion 3 0 disk [] two_items start then_two
      disk-IsReliable start-IsWriting
      (item-IsEntry 1 (omega arith), (item-IsEntry 0 (omega arith), tt))
      (Turns.onward start then_two then_two two_items [] (batches start two_items)
        (Turns.here then_two))

close-IsStored_example :
    let s' = Writer.handle hash by_insertion disk Writer.close then_two in
    IsStored hash hash_bound 3 0 two_items s'.buffer.pending
      (s'.left_files ++ ((s'.file_id, s'.file_writer.file) ∷ []))
      (s'.acknowledged ++ s'.file_writer.sent)
close-IsStored_example =
    close-IsStored hash hash_bound 3 by_insertion disk 0 two_items then_two
      (rw two_then-IsWriting.1 disk-IsReliable) two_then-IsWriting.0

-- Entries 0 and 1, in the order of their ids.
abbrev in_order : List (Item ℕ)
in_order = item 0 ∷ item 1 ∷ []

abbrev then_in_order : WriterState ℕ ℕ
then_in_order = Writer.handle hash by_insertion disk (Writer.enqueue_batch in_order) start

in_order-IsWriting :
    IsWriting hash hash_bound by_insertion 3 0 in_order then_in_order
    × (then_in_order.settings.enable_fsync ≡ true)
in_order-IsWriting =
    Turns-IsWriting hash hash_bound by_insertion 3 0 disk [] in_order start then_in_order
      disk-IsReliable start-IsWriting
      (item-IsEntry 0 (omega arith), (item-IsEntry 1 (omega arith), tt))
      (Turns.onward start then_in_order then_in_order in_order [] (batches start in_order)
        (Turns.here then_in_order))

close_in_order_example :
    let s' = Writer.handle hash by_insertion disk Writer.close then_in_order in
    HoldsAll {Q = ℕ} hash hash_bound 3 in_order s'.buffer.pending
      (s'.left_files ++ ((s'.file_id, s'.file_writer.file) ∷ []))
unfolding value
close_in_order_example =
    close_in_order hash hash_bound 3 by_insertion disk 0 in_order then_in_order
      (rw in_order-IsWriting.1 disk-IsReliable) in_order-IsWriting.0 (refl, (refl, tt))

abbrev pub two_in_file : FileLog ℕ
two_in_file = record { file_id = u8 4; header = narrow; entries = item 0 ∷ item 1 ∷ [] }

pub item-EntryFits : (n : ℕ) → n < 256 → EntryFits hash narrow (item n)
unfolding is_valid_data_size Entry.new from_u64 value
item-EntryFits n lt = (
  record {
    id = omega (arith, lt);
    id_size = refl;
    id_fits = omega (arith, lt);
    record_size = omega arith;
    data_size = refl;
    record_fits = omega arith;
    hash = omega arith;
  },
  omega arith,
)

abbrev full_disk : Disk ℕ
full_disk = record disk { creates = λ id. false }

rotate_fails_example :
    let s' = Writer.left full_disk (u8 1) 4 start in
    (Writer.rotate full_disk (u8 1) 4 start ≡ (s', err io_error))
    × ((more : List (Written ℕ ℕ)) (w : AckFileWriter ℕ ℕ)
        → Runs s'.file_writer more w
        → w.file ≡ s'.file_writer.file)
rotate_fails_example = rotate_fails full_disk (u8 1) 4 start refl refl
