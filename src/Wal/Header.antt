-- ===== src/Wal/Header.antt =====
-- `normfs-wal/src/wal_header.rs`: the header of a WAL file.
pub mod RoundTrip
pub mod Capacity
use normfs.Prelude.{
  ◌+◌, ◌&&◌, ◌++◌, ◌==◌, if◌then◌else◌, ◌>>=◌, ℕ, max, Bool, not, List, ltb, length, drop, Outcome,
  ok, err, map_err, le_bytes,
}
use normfs.UBig.{UBig}
use normfs.UintN.{UintN, Error, from_u64}
use normfs.UintN
use normfs.UintN.Codec.{
  size_in_bytes, can_fit, is_valid_data_size, u64_at, read_from_slice, write_to_buffer,
}

abbrev pub fixed_size : ℕ
fixed_size = 24

pub data WalHeaderError : Type 0 where
  slice_too_short : WalHeaderError
  invalid_data_size_bytes : ℕ → WalHeaderError
  invalid_id_size_bytes : ℕ → WalHeaderError
  uintn : Error → WalHeaderError
  unsupported_version : ℕ → WalHeaderError

pub record WalHeader (U : Type 0) : Type 0 where
  pub data_size_bytes : ℕ
  pub id_size_bytes : ℕ
  pub num_entries_before : UintN U

abbrev pub default : {U : Type 0} → WalHeader U
default = record { data_size_bytes = 8; id_size_bytes = 4; num_entries_before = UintN.zero }

module _ {U : Type 0} ⦃b : UBig U⦄ where
  unfoldable pub resize : WalHeader U → UintN U → ℕ → WalHeader U
  resize h entry_id data_size = record h {
    id_size_bytes = max h.id_size_bytes (size_in_bytes entry_id);
    data_size_bytes = max h.data_size_bytes (size_in_bytes (from_u64 {U = U} data_size));
  }

  unfoldable pub can_hold_entry : WalHeader U → UintN U → ℕ → Bool
  can_hold_entry h entry_id data_size =
      can_fit entry_id h.id_size_bytes && can_fit (from_u64 {U = U} data_size) h.data_size_bytes

  unfoldable pub new : ℕ → ℕ → UintN U → Outcome WalHeaderError (WalHeader U)
  new data_size_bytes id_size_bytes num_entries_before =
      if not (is_valid_data_size data_size_bytes)
      then err (invalid_data_size_bytes data_size_bytes)
      else if not (is_valid_data_size id_size_bytes)
      then err (invalid_id_size_bytes id_size_bytes)
      else ok (record {
        data_size_bytes = data_size_bytes;
        id_size_bytes = id_size_bytes;
        num_entries_before = num_entries_before;
      })

  unfoldable pub from_bytes : List ℕ → Outcome WalHeaderError (WalHeader U × ℕ)
  from_bytes bytes =
      if ltb (length bytes) fixed_size
      then err slice_too_short
      else let version = u64_at bytes 0 in
        if not (version == 0) then err (unsupported_version version) else do
          (num_entries_before, bytes_read) ← map_err uintn (read_from_slice (drop fixed_size bytes))
          ok (
            record {
              data_size_bytes = u64_at bytes 8;
              id_size_bytes = u64_at bytes 16;
              num_entries_before = num_entries_before;
            },
            fixed_size + bytes_read,
          )

  unfoldable pub size : WalHeader U → ℕ
  size h = fixed_size + 8 + size_in_bytes h.num_entries_before

  -- The new buffer, and the size that is reported.
  unfoldable pub write_to_bytes : WalHeader U → List ℕ → List ℕ × ℕ
  unfolding size
  write_to_bytes h dest =
      let fixed =
        ((dest ++ le_bytes 8 0) ++ le_bytes 8 h.data_size_bytes) ++ le_bytes 8 h.id_size_bytes in
      ((write_to_buffer h.num_entries_before fixed).0, size h)
