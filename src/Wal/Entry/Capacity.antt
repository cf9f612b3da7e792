-- ===== src/Wal/Entry/Capacity.antt =====
-- `normfs-wal/src/wal_entry.rs` with `wal_header.rs`: entries that a file can hold.
use normfs.Prelude.{◌^◌, ◌<◌, ◌≡◌, ◌++◌, ℕ, true, List, arith, length, ok}
use normfs.UBig.{UBig}
use normfs.UintN.{UintN, from_u64, IsCanonical}
use normfs.UintN.Value.{from_u64_lem}
use normfs.UintN.Codec.{is_valid_data_size}
use normfs.UintN.Codec.Shape.{can_fit_lem}
use normfs.Wal.Header.{WalHeader, can_hold_entry}
use normfs.Wal.Entry.{WalEntryHeader, write_to_bytes}
use normfs.Wal.Entry
use normfs.Wal.Entry.RoundTrip.{Fits, entry_bytes, write_to_bytes_lem}

module _ {U : Type 0} ⦃b : UBig U⦄ (xxh64 : List ℕ → ℕ)
    (xxh64_bound : (bs : List ℕ) → xxh64 bs < 2 ^ 64) where
  pub new-Fits :
      (w : WalHeader U) (id : UintN U) (record_data : List ℕ)
      → is_valid_data_size w.id_size_bytes ≡ true
      → is_valid_data_size w.data_size_bytes ≡ true
      → IsCanonical id
      → length record_data < 2 ^ 64
      → can_hold_entry w id (length record_data) ≡ true
      → Fits (Entry.new xxh64 id record_data) w
  unfolding can_hold_entry Entry.new
  new-Fits w id record_data vi vd c small e =
      let (vs, cs) = from_u64_lem U (length record_data) small in
      let size = from_u64 {U = U} (length record_data) in
      let fit_id = can_fit_lem id w.id_size_bytes c vi in
      let fit_size = can_fit_lem size w.data_size_bytes cs vd in
      record {
        id = c;
        id_size = vi;
        id_fits = ground (arith, fit_id, e);
        record_size = cs;
        data_size = vd;
        record_fits = ground (arith, fit_size, e);
        hash = xxh64_bound record_data;
      }

  -- For a file's header with sizes that a header allows, an id in canonical form, and data whose
  -- length is a `u64`, with a hash of 64 bits: where `can_hold_entry` answers true, the header of the
  -- entry is written without an error.
  pub can_hold_entry_writes :
      (w : WalHeader U) (id : UintN U) (record_data dest : List ℕ)
      → is_valid_data_size w.id_size_bytes ≡ true
      → is_valid_data_size w.data_size_bytes ≡ true
      → IsCanonical id
      → length record_data < 2 ^ 64
      → can_hold_entry w id (length record_data) ≡ true
      → write_to_bytes (Entry.new xxh64 id record_data) dest w
        ≡ (dest ++ entry_bytes (Entry.new xxh64 id record_data) w, ok tt)
  can_hold_entry_writes w id record_data dest vi vd c small e =
      (write_to_bytes_lem (Entry.new xxh64 id record_data) dest w
        (new-Fits w id record_data vi vd c small e)).0
