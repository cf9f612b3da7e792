-- ===== src/Tests/Wal.antt =====
-- `normfs-wal/src` at concrete inputs.
use normfs.Prelude.{◌≡◌, ◌∷◌, ◌++◌, [], ℕ, refl, false, arith, Returns}
use normfs.UintN.Codec.{size_in_bytes}
use normfs.Tests.BigNat.{big_nat}
use normfs.UintN.{u8, u16, value, Represents, is_big}
use normfs.UintN.Codec.{size_in_bytes, is_valid_data_size}
use normfs.Wal.Header.{WalHeader, can_hold_entry, resize}
use normfs.Wal.Header
use normfs.Wal.Header.RoundTrip.{IsWritable, from_bytes-write_to_bytes}
use normfs.Wal.Entry.{WalEntryHeader}
use normfs.Wal.Entry.RoundTrip.{Fits}

-- The header of a file with 300 entries before it.
abbrev file_header : WalHeader ℕ
file_header = record { data_size_bytes = 2; id_size_bytes = 4; num_entries_before = u16 300 }

abbrev entry_301 : WalEntryHeader ℕ
entry_301 = record { entry_id = u16 301; record_size = u8 12; xxhash = 99 }

file_header-IsWritable : IsWritable file_header
unfolding size_in_bytes
file_header-IsWritable = record {
  data_size = omega arith;
  id_size = omega arith;
  entries = omega arith;
  countable = omega arith;
}

entry_301-Fits : Fits entry_301 file_header
unfolding value is_valid_data_size
entry_301-Fits = record {
  id = omega arith;
  id_size = refl;
  id_fits = omega arith;
  record_size = omega arith;
  data_size = refl;
  record_fits = omega arith;
  hash = omega arith;
}

from_bytes-write_to_bytes_example :
    Returns
      (λ r.
        (r.0.data_size_bytes ≡ 2)
        × (r.0.id_size_bytes ≡ 4)
        × Represents r.0.num_entries_before 300
        × (r.1 ≡ Header.size file_header)
        × (is_big r.0.num_entries_before ≡ false))
      (Header.from_bytes {U = ℕ} ((Header.write_to_bytes file_header []).0 ++ (1 ∷ [])))
unfolding value size_in_bytes
from_bytes-write_to_bytes_example =
    from_bytes-write_to_bytes file_header (1 ∷ []) file_header-IsWritable
