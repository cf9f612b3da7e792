-- ===== src/Tests/Start.antt =====
-- `normfs/src/lib.rs` at concrete inputs: the end of the latest file, 3, cannot be read, and file 2 ends
-- with entry 9.
use normfs.Prelude.{
  ◌≡◌, ◌≢◌, ◌∷◌, ◌==◌, if◌then◌else◌, [], ℕ, refl, true, false, Option, none, some, arith, ==_iff,
  ok,
}
use normfs.Wal.Writer.Logged.{file_bytes}
use normfs.Start.Resume.{file-get_file_end, start_queue-IsWriting}
use normfs.UintN.Arith.{increment}
use normfs.Start.Walk.{NothingIn, continue_queue-anew, continue_queue-found}
use normfs.UintN.Codec.{size_in_bytes, is_valid_data_size}
use normfs.Tests.BigNat.{big_nat}
use normfs.Tests.Buffer.{by_insertion, item}
use normfs.Tests.Writer.{
  hash, hash_bound, disk, settings, narrow, narrow-IsHeader, two_in_file, item-EntryFits,
}
use normfs.Wal.Header
use normfs.Wal.Writer.Turns.{IsWriting}
use normfs.UintN.Order.{cmp}
use normfs.Wal.Reader.{contents}
use normfs.Wal.Writer
use normfs.Mem
use normfs.UintN
use normfs.Wal.Entry
use normfs.UintN.{u8, value, UintN, IsCanonical, from_u64, Represents}
use normfs.Start.{
  start_queue, Sources, get_file_end_all_sources, get_latest_file, continue_queue,
  get_file_header_all_sources,
}
use normfs.Mem.Store.{MemStore, get}
use normfs.Wal.Store.{Directory, Writers, get_file_end}
use native.Mathlib.Decide.{ℕ_discrete}

abbrev only : ℕ → UintN ℕ → Option (UintN ℕ)
only n id = if value id == n then some (u8 9) else none

-- The log cannot be read above file 2; the store has no end for any file.
abbrev damaged : Sources ℕ
damaged = record {
  wal_last_file_id = some (u8 3);
  store_last_file_id = some (u8 2);
  wal_file_end = λ id. some (only 2 id);
  store_file_end = λ id. none;
  wal_file_header = λ id. some (some narrow);
  store_file_header = λ id. none;
}

end_only : (n : ℕ) (id : UintN ℕ) → value id ≢ n → only n id ≡ none
end_only n id h = ground (arith, ==_iff (value id) n, h)

damaged-NothingIn : NothingIn damaged 2 3
unfolding get_file_end_all_sources
damaged-NothingIn id c lo hi =
    let e : only 2 id ≡ none = end_only 2 id (omega (arith, lo)) in rw e refl

damaged_end :
    (id : UintN ℕ)
    → IsCanonical id
    → value id ≡ 2
    → get_file_end_all_sources damaged id ≡ some (u8 9)
unfolding get_file_end_all_sources
damaged_end id c e = rw e refl

continue_queue-found_example :
    (id : UintN ℕ) × Represents id 2
    × (continue_queue damaged 9
        ≡ some (ok (u8 3, record narrow { num_entries_before = u8 10 }, some (u8 9))))
unfolding get_latest_file value increment cmp get_file_header_all_sources
continue_queue-found_example =
    continue_queue-found damaged 9 2 (u8 3) (u8 9) refl (omega arith) (omega arith) (omega arith)
      (omega arith) damaged-NothingIn damaged_end

abbrev offloaded : Sources ℕ
offloaded = record damaged { wal_file_end = λ id. some none }

continue_queue-anew_example :
    continue_queue offloaded 9 ≡ some (ok (UintN.one, Header.default, none))
unfolding get_latest_file value get_file_end_all_sources cmp
continue_queue-anew_example =
    continue_queue-anew offloaded 9 (u8 3) refl (omega arith) (omega arith) refl
      (λ id c lo hi. refl)

abbrev directory : Directory ℕ
directory = record {
  create_dir_all = true;
  find_max_id = ok (u8 3);
  find_min_id = ok (u8 1);
  get_files_ids = ok (u8 1 ∷ u8 2 ∷ u8 3 ∷ []);
  file = λ id. contents (file_bytes {Q = ℕ} hash 3 two_in_file).1;
}

abbrev memory : MemStore ℕ ℕ ℕ
memory = record { queues = []; max_memory_usage = 1000 }

start_queue-IsWriting_example :
    (s : Writer.WriterState ℕ ℕ) × (writers' : Writers ℕ ℕ) × (mem' : MemStore ℕ ℕ ℕ) × (start_queue
        ℕ_discrete disk directory damaged 9 false 3 settings [] memory
      ≡ some (ok (some s, writers', mem')))
    × IsWriting hash hash_bound by_insertion 3 10 [] s
    × (Mem.Store.get_last_id ℕ_discrete 3 mem' ≡ some (some (u8 9)))
unfolding get_latest_file value increment cmp get_file_header_all_sources size_in_bytes
    is_valid_data_size get
start_queue-IsWriting_example =
    start_queue-IsWriting hash hash_bound by_insertion ℕ_discrete disk directory damaged 9 2 (u8 3)
      (u8 9) 3 settings [] memory refl (omega arith) (omega arith) (omega arith) (omega arith)
      damaged-NothingIn (λ id c e. (damaged_end id c e, (refl, refl))) (omega arith) (omega arith)
      (λ id. refl) refl refl

file-get_file_end_example :
    (last_id : UintN ℕ) × Represents last_id 1
    × (get_file_end hash 5 directory (u8 4) ≡ some (ok (some last_id)))
unfolding value normfs.Prelude.le_bytes Entry.new size_in_bytes from_u64 Header.size
file-get_file_end_example =
    file-get_file_end {Q = ℕ} hash 3 5 directory two_in_file (item 0) (item 1 ∷ [])
      (
        narrow-IsHeader,
        (item-EntryFits 0 (omega arith), (item-EntryFits 1 (omega arith), tt)),
        (0, refl),
      )
      refl refl (omega arith) (omega arith) (omega arith)
