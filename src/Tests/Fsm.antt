-- ===== src/Tests/Fsm.antt =====
-- `normfs/src/reader_fsm` at a queue of which only the file 1 is there, in the log.
use normfs.Prelude.{◌+◌, ◌≡◌, ◌∷◌, [], ℕ, refl, false, none, some, ok}
use normfs.Tests.BigNat.{big_nat}
use normfs.UintN.{u8}
use normfs.Types.{disk_wal}
use normfs.Mem.Read.{fail}
use normfs.Wal.RangeRead.{complete}
use normfs.Fsm.{
  Backends, ReadContext, prefetch_next_file, prefetch_wal, is_terminal, lookup_file, read_file,
  parse_wal_bytes,
}
use normfs.Fsm.Handlers.{handle_lookup_file}
use normfs.Fsm.Run.{transition, Reaches, here, onward}
use normfs.Fsm.Prefetch.{read_file-prefetch_next_file}
use normfs.Fsm.Keeps.{requested, lookup_file-keeps}

-- The world counts the files that were parsed.
abbrev one_file : Backends ℕ ℕ
one_file = record {
  is_closed = λ w. false;
  mem_read_full = λ from until step w. (fail, w);
  mem_read_full_negative = λ offset step limit w. (fail, w);
  mem_follow_full = λ id from step w. (fail, w);
  mem_follow_full_negative = λ offset step w. (fail, w);
  mem_get_last_id = λ w. none;
  find_file_with_s3 = λ id. ok (some (u8 1));
  get_store_bytes = λ id. ok none;
  store_extract_wal_bytes = λ id bytes verify. ok bytes;
  get_wal_bytes = λ id. ok (some (7 ∷ []));
  read_wal_content_range = λ bytes from until step source w. (w + 1, ok complete);
  s3_downloader = none;
}

abbrev ctx : ReadContext ℕ
ctx = record { file_id = u8 1; next_id = u8 4; step = 1; last_id = none }

read_file-prefetch_next_file_example :
    Reaches one_file 1 (read_file ctx) 0 (parse_wal_bytes ctx (7 ∷ []) disk_wal none) 0
unfolding prefetch_next_file prefetch_wal
read_file-prefetch_next_file_example = read_file-prefetch_next_file one_file 1 ctx 0 refl

lookup-Reaches : Reaches one_file 1 (lookup_file (u8 4) none 1) 0 (read_file ctx) 0
unfolding transition handle_lookup_file
lookup-Reaches = onward refl here

lookup_file-keeps_example : requested (read_file ctx) ≡ some (1, none)
unfolding is_terminal
lookup_file-keeps_example =
    lookup_file-keeps one_file 1 (u8 4) none 1 (read_file ctx) 0 0 lookup-Reaches refl
