-- ===== src/Tests/Reader.antt =====
-- `normfs-wal/src/reader.rs` at a small file: one whole entry, and five bytes of the next.
use normfs.Prelude.{
  ◌≡◌, ◌≢◌, ◌∷◌, ◌++◌, [], ℕ, refl, ap, Bool, true, false, Option, none, some, List, arith, length,
  ok, le_bytes, le_value,
}
use normfs.Tests.BigNat.{big_nat}
use normfs.Wal.RangeRead.{
  file_loop, is_past, offer, conclude, has_reached, partial_read, read_wal_file_range,
  read_wal_bytes_range,
}
use normfs.Wal.RangeRead.Ends.{range_reads_end}
use normfs.Wal.RangeRead.Agree.{read_wal_bytes_range-read_wal_file_range}
use normfs.Types.{ReadEntry, disk_wal}
use normfs.Wal.Stream.{header_from_reader, read_exact, entry_from_reader, allocate, read_record}
use normfs.UintN.Step.{in_step, rem}
use normfs.UintN.Arith.{sub}
use normfs.UintN.Order.{cmp}
use normfs.UintN.{
  to_u64, from_u128, from_u16, from_u32, from_u8, from_ubig, is_zero, zero, to_ubig, UintN, u8,
  value, Represents, from_u64,
}
use normfs.UintN.Codec.{u64_at, read_value_from_slice, size_in_bytes, is_valid_data_size}
use normfs.Wal.Header.{WalHeader}
use normfs.Wal.Header
use normfs.Wal.Header.RoundTrip.{IsWritable}
use normfs.Wal.Entry.{new}
use normfs.Wal.Entry
use normfs.Wal.Reader.{range_loop, id_range, WalContent, get_wal_range, get_wal_content, contents}
use normfs.Wal.Reader.Log.{EntryFits}
use normfs.Wal.Reader.Ends.{file_reads_end}
use normfs.Wal.Reader.Recovery.{torn_file, get_wal_content-log}
use normfs.Wal.Reader.Span.{Spans, get_wal_range-log}

abbrev header : WalHeader ℕ
header = record { data_size_bytes = 1; id_size_bytes = 1; num_entries_before = u8 3 }

-- The length of the data stands for its hash.
abbrev whole : UintN ℕ × List ℕ
whole = (u8 4, 7 ∷ 8 ∷ [])

abbrev torn : UintN ℕ × List ℕ
torn = (u8 5, 9 ∷ [])

header-IsWritable : IsWritable header
unfolding size_in_bytes
header-IsWritable = record {
  data_size = omega arith;
  id_size = omega arith;
  entries = omega arith;
  countable = omega arith;
}

whole-EntryFits : EntryFits {U = ℕ} length header whole
unfolding value is_valid_data_size new from_u64
whole-EntryFits = (
  record {
    id = omega arith;
    id_size = refl;
    id_fits = omega arith;
    record_size = omega arith;
    data_size = refl;
    record_fits = omega arith;
    hash = omega arith;
  },
  omega arith,
)

torn-EntryFits : EntryFits {U = ℕ} length header torn
unfolding value is_valid_data_size new from_u64
torn-EntryFits = (
  record {
    id = omega arith;
    id_size = refl;
    id_fits = omega arith;
    record_size = omega arith;
    data_size = refl;
    record_fits = omega arith;
    hash = omega arith;
  },
  omega arith,
)

abbrev file : List ℕ
file = torn_file {U = ℕ} length header (whole ∷ []) torn 5

-- Its bytes: the version, the two sizes, the number of entries before, the entry, and the rest.
abbrev field : ℕ → List ℕ
field n = n ∷ 0 ∷ 0 ∷ 0 ∷ 0 ∷ 0 ∷ 0 ∷ 0 ∷ []

abbrev bytes : List ℕ
bytes =
    field 0
    ++ (field 1
        ++ (field 1
            ++ (field 1
                ++ (3 ∷ (field 0 ++ (4 ∷ 2 ∷ (field 2 ++ (7 ∷ 8 ∷ 0 ∷ 0 ∷ 0 ∷ 0 ∷ 0 ∷ []))))))))

file-bytes : file ≡ bytes
unfolding le_bytes size_in_bytes value is_valid_data_size new from_u64 le_value to_ubig
file-bytes = refl

get_wal_content-log_example :
    (c : WalContent ℕ) × (get_wal_content length 2 (contents file) (u8 1) ≡ some (ok c))
    × Represents c.entries_before (value header.num_entries_before)
    × Represents c.num_entries 1
    × (c.content ≡ file)
unfolding le_bytes
get_wal_content-log_example =
    get_wal_content-log length 2 header (whole ∷ []) torn 5 (u8 1) header-IsWritable
      (whole-EntryFits, tt) torn-EntryFits (omega arith) (omega (arith, ap length file-bytes))
      (omega arith)

get_wal_range-log_example :
    (v : UintN ℕ) × (r : Option (UintN ℕ × UintN ℕ)) × (get_wal_range length 2
        (contents file)
        (u8 1)
      ≡ some (ok (record header { num_entries_before = v }, r)))
    × Represents v (value header.num_entries_before)
    × Spans length (whole ∷ []) r
unfolding le_bytes Header.size size_in_bytes
get_wal_range-log_example =
    get_wal_range-log length 2 header (whole ∷ []) torn 5 (u8 1) header-IsWritable (omega arith)
      (whole-EntryFits, tt) torn-EntryFits (omega arith) (omega (arith, ap length file-bytes))
      (omega arith)

file_reads_end_example :
    (get_wal_range {U = ℕ} length 59 (contents bytes) (u8 1) ≢ none)
    × (get_wal_content {U = ℕ} length 59 (contents bytes) (u8 1) ≢ none)
file_reads_end_example = file_reads_end length 59 bytes (u8 1) (omega arith)

-- The entry is read, and nothing of the next one.
range_of_file :
    get_wal_range {U = ℕ} length 2 (contents bytes) (u8 1) ≡ some (ok (header, some (u8 4, u8 4)))
unfolding get_wal_range range_loop id_range header_from_reader read_exact u64_at le_value
    read_value_from_slice entry_from_reader Entry.size allocate Entry.from_bytes read_record to_u64
range_of_file = refl

abbrev open_channel : List (ReadEntry ℕ) → Bool
open_channel sent = false

abbrev accept : ReadEntry ℕ → List (ReadEntry ℕ) → Bool × List (ReadEntry ℕ)
accept e sent = (true, e ∷ sent)

abbrev sent_entry : ReadEntry ℕ
sent_entry = record { id = u8 4; contents = 7 ∷ 8 ∷ []; source = disk_wal }

range_reads_end_example :
    (read_wal_file_range {U = ℕ} open_channel accept length 59
        (contents bytes)
        (u8 1)
        none
        1
        disk_wal
        []
      ≢ none)
    × (read_wal_bytes_range {U = ℕ} open_channel accept length 59 bytes (u8 1) none 1 disk_wal []
        ≢ none)
range_reads_end_example =
    range_reads_end open_channel accept length 59 bytes (u8 1) none 1 disk_wal [] (omega arith)

read_from_file :
    read_wal_file_range {U = ℕ} open_channel accept length 59
      (contents bytes)
      (u8 1)
      none
      1
      disk_wal
      []
    ≡ some (ok (partial_read (some (u8 4)) (u8 4), sent_entry ∷ []))
unfolding read_wal_file_range file_loop is_past offer cmp in_step sub rem from_u128 from_u16
    from_u32 from_u64 from_u8 from_ubig is_zero to_ubig zero conclude has_reached header_from_reader
    read_exact u64_at le_value read_value_from_slice entry_from_reader Entry.size allocate
    Entry.from_bytes read_record to_u64
read_from_file = refl

read_wal_bytes_range-read_wal_file_range_example :
    read_wal_bytes_range {U = ℕ} open_channel accept length 59 bytes (u8 1) none 1 disk_wal []
    ≡ some (ok (partial_read (some (u8 4)) (u8 4), sent_entry ∷ []))
read_wal_bytes_range-read_wal_file_range_example =
    read_wal_bytes_range-read_wal_file_range open_channel accept length 59 bytes (u8 1) none 1
      disk_wal [] (partial_read (some (u8 4)) (u8 4), sent_entry ∷ []) (omega arith) read_from_file
