-- ===== src/Wal/Writer/Capacity.antt =====
-- `normfs-wal/src/writer.rs` with `wal_header.rs`: the header of the next file.
use normfs.Prelude.{◌^◌, ◌<◌, ◌≡◌, ◌∙◌, ℕ, max, refl, true, arith, length}
use normfs.Wal.Header.Capacity.{resize_lem}
use normfs.Wal.Entry.RoundTrip.{size_bound}
use normfs.UintN.Value.{IsCanonical-IsInRange}
use native.Mathlib.Decide.{dec_lt}
use normfs.UintN.{from_u64}
use normfs.Wal.Writer.Logged.{IsHeader, IsEntry}
use normfs.Wal.Writer.{next_header, Item}
use normfs.UintN.{UintN}
use normfs.Wal.Header.{WalHeader}
use normfs.UintN.Codec.{is_valid_data_size, size_in_bytes}
use normfs.UBig.{UBig}
use normfs.Wal.Header

valid_max :
    (m n : ℕ)
    → is_valid_data_size m ≡ true
    → is_valid_data_size n ≡ true
    → is_valid_data_size (max m n) ≡ true
valid_max m n hm hn = elim (dec_lt m n) [
  | yes lt ↦ let same : max m n ≡ n = omega (arith, lt) in rw same hn
  | no ge ↦ let same : max m n ≡ m = omega (arith, ge) in rw same hm
]

valid_size :
    (U : Type 0) ⦃b : UBig U⦄ (n : ℕ)
    → n < 2 ^ 64
    → is_valid_data_size (size_in_bytes (from_u64 {U = U} n)) ≡ true
unfolding is_valid_data_size size_in_bytes from_u64
valid_size U n lt = ground (arith, lt)

module _ {U : Type 0} ⦃b : UBig U⦄ where
  num_entries_before-free :
      (h : WalHeader U) (id : UintN U) (n : ℕ)
      → Header.can_hold_entry (next_header h id n) id n
        ≡ Header.can_hold_entry (Header.resize h id n) id n
  unfolding Header.can_hold_entry
  num_entries_before-free h id n = refl

  -- For an id and data that can be written, the header of the next file is one that can be written,
  -- and the file can hold the entry.
  pub next_header_lem :
      (h : WalHeader U) (entry : Item U)
      → IsHeader h
      → IsEntry entry
      → IsHeader (next_header h entry.0 (length entry.1))
        × (Header.can_hold_entry (next_header h entry.0 (length entry.1)) entry.0 (length entry.1)
            ≡ true)
  unfolding Header.resize
  next_header_lem h (id, contents) k e =
      let n = length contents in
      let size = from_u64 {U = U} n in
      let id_valid = e.id_size in
      let size_valid = valid_size U n (omega (arith, e.small)) in
      let ids = valid_max h.id_size_bytes (size_in_bytes id) k.id_size id_valid in
      let sizes = valid_max h.data_size_bytes (size_in_bytes size) k.data_size size_valid in
      (
        record {
          id_size = ids;
          data_size = sizes;
          writable = record {
            data_size = omega (arith, size_bound _ sizes);
            id_size = omega (arith, size_bound _ ids);
            entries = IsCanonical-IsInRange id e.id;
            countable = omega (arith, size_bound _ id_valid);
          };
        },
        num_entries_before-free h id n ∙ (resize_lem h id n).0,
      )
