-- ===== src/Lib.antt =====
-- NormFS: a store of numbered queues of entries. This library models the parts of it that number,
-- encode, order and keep entries.
--
-- The program. A producer enqueues bytes into a queue. `MemQueue` (`normfs/src/mem/mod.rs`) gives each
-- entry the next id, keeps it in memory, calls the subscribers, and drops acknowledged entries once it
-- holds more than its limit. Ids are `UintN` (`uintn-rs/src/lib.rs`), integers that grow from 8 bits to
-- big numbers as needed. The writer of the write-ahead log writes each entry behind a `WalEntryHeader`
-- (`normfs-wal/src/wal_entry.rs`) into a file that begins with a `WalHeader`
-- (`normfs-wal/src/wal_header.rs`); that header gives the sizes of the two numbers in every entry's
-- header. Entries may reach the writer out of order: its `OrderedBuffer`
-- (`normfs-wal/src/writer_buffer.rs`) keeps them until the ids before them are there. A finished file
-- is compressed, encrypted and signed into a store file with a `StoreHeader`
-- (`normfs-store/src/header.rs`, `writer.rs`), and is then deleted from the log. The files of the
-- log are read back (`normfs-wal/src/reader.rs`) at a start, to find the ids that they hold, and for
-- readers, who ask for a range of ids. Which file holds an id is found by a search over the ids of the files
-- (`normfs/src/lookup.rs`), which may lie in the store, in the log or in the cloud.
--
-- The modules:
--   Prelude   helpers on lists, options, outcomes (`Outcome`: a result, an error or a panic) and bytes
--   UBig      the big numbers of the crate `dashu`: an interface of operations and documented laws
--   UintN     `uintn-rs/src/lib.rs`. The data type and the conversions are in UintN, the order in
--             UintN.Order, `add`, `sub`, `increment` and `decrement` in UintN.Arith, `middle`, `%`,
--             `in_step` and `step_by` in UintN.Step, and the byte codec in UintN.Codec
--   Types     `normfs-types/src/lib.rs`: the types that the other crates share
--   Wal       `normfs-wal/src`: the headers in Wal.Header and Wal.Entry; the order buffer, and the choice
--             of the entries to write in `WriterState::write` of `writer.rs`, in Wal.Buffer; the
--             asynchronous readers of both headers in Wal.Stream; `reader.rs` with the errors of
--             `errors.rs` in Wal.Reader, and its range reads in Wal.RangeRead; the file that is appended
--             to and its flushes, `ack_file_writer.rs`, in Wal.AckFile; the task that writes the entries of
--             a queue, `writer.rs`, in Wal.Writer, and what it is to write of the entries that arrive in
--             Wal.Writer.Served; the calls of `lib.rs` on the files and writers of the
--             queues in Wal.Store
--   Store     `normfs-store/src`: `header.rs`, the header of a store file, in Store.Header, and the signatures
--             in front of it in Store.Authentication; the content of a store file, `maybe_compress_and_encrypt`
--             of `writer.rs`, `extract_wal_bytes` of `lib.rs` and `parser.rs`, in Store.File; the ranges of
--             ids, `ranges.rs`, in Store.Ranges; `process_entry` of `writer.rs` in Store.Worker
--   Mem       `normfs/src/mem/mod.rs`. The state and the clean-up are in Mem, the operations that
--             change a queue in Mem.Write, the reads in Mem.Read, those that subscribe in Mem.Follow,
--             and `MemStore`, the map of the queues, in Mem.Store
--   Lookup    `normfs/src/lookup.rs`: the walk back to a file with data in Lookup, `binary_search` in
--             Lookup.Search, `find_file_with_s3` in Lookup.Find
--   Fsm       `normfs/src/reader_fsm`: the states of a read and its prefetch in Fsm, a function for each
--             handler in Fsm.Handlers, the transitions and the loop in Fsm.Run
--   Start     `normfs/src/lib.rs`: where a queue goes on at a start, and the start of its writer
--   Tests     the theorems at concrete inputs, with the natural numbers as big numbers
-- Functions and fields have the names of the source; a field or variable `data` is called `contents` or
-- `bs`. A method on `&mut self` is a function from a state to a state, and one that writes to a buffer
-- returns the longer buffer.
--
-- Numbers. A machine integer is a natural number below 2^w, and a cast to a narrower integer is a
-- remainder. An arithmetic overflow or underflow is a panic, as in a build with overflow checks, and so
-- is a slice out of range; `panic` is an outcome of its own. `usize` has 64 bits. The counters of bytes
-- in memory do not reach 2^64. `IsInRange` says that the payload of a `UintN` is an integer of the
-- variant's width. A value is in canonical form, `IsCanonical`, if besides a machine integer has the
-- narrowest width that holds the number; a big number is always in canonical form, also a small one, as
-- the codec reads one from three bytes. `IsNarrowest` asks that a big number is at least 2^128 as well.
--
-- Locks and tasks. A queue's lock is held while its entries change, so that an operation is one step.
-- `follow_full` and `follow_full_negative` release it before they send, and subscribe after that; they
-- are one step here nevertheless. The callbacks of subscribers and the channel of a reader belong to
-- the caller: they are functions on a world `W`, and nothing is assumed of them. Subscribers are
-- called in the order of a list where the source goes through a hash map, in no order.
-- `sort_unstable_by` is a parameter with its documented laws: a permutation, in order, with equal ids
-- in any order.
--
-- The writer of a file is a buffer and a task. The task's flush releases the lock of the buffer while it
-- writes, and is two steps, between which entries may be added. The attempts to write to a file, and
-- which files can be created, belong to the environment (`Attempt`, `Disk`). An attempt is clean if it
-- succeeds or leaves the file as it was; the theorems on what the files hold ask for clean attempts. A
-- request to the writer of a queue is one step, with flushes before and after it.
--
-- Fuel. The inner loop of the reads, `while current_id < entry.id`, ends because `step_by` grows the id
-- by a step of at least one; its model has fuel, and `none` says that it ran out. Fuel above the last id
-- of the queue is enough for the reads. With a step of zero the loop does not end. The loops over a file
-- of the log have fuel as well: every round takes an entry's header off the file, so that more fuel
-- than the file has bytes is enough.
-- A search over files has fuel above the distance of the first and the last file id, and the walk back at
-- a start has fuel above the latest file id.
--
-- Files. A file is absent, cannot be read, or is its bytes. A file that was opened is read without
-- errors up to its end. A buffer of 2^63 bytes or more cannot be allocated, which is a panic; a smaller
-- one can. The hash `xxh64` of a record is a parameter, of which nothing is assumed. The
-- lookup sees the store, the log and the cloud through `Files`, a record of what they answer; during one
-- lookup the answers do not change. A read sees the memory, the files and the channel through `Backends`.
-- A prefetch, a task of its own in the source, gives what it finds when it is spawned. Ids and names of
-- queues are left out.
--
-- Cryptography and compression call other crates. They are the parameters `CryptoContext` and
-- `Compression`, and `IsSound` says that a signature has 64 bytes and is verified, that a nonce has 12 bytes,
-- and that what was encrypted or compressed can be decrypted or decompressed.
--
-- Not modelled: logging and the text of errors, the file-system paths, the loops of the tasks that
-- write store files and their temporary files, the inside of compression and cryptography, the cloud,
-- the disk monitor, and the server.
pub mod Prelude
pub mod UBig
pub mod UintN
pub mod Types
pub mod Wal
pub mod Start
pub mod Store
pub mod Mem
pub mod Tests
pub mod Lookup
pub mod Fsm
