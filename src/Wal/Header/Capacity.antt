-- ===== src/Wal/Header/Capacity.antt =====
-- `normfs-wal/src/wal_header.rs`: which entries a file can hold, and the header of the next file.
use normfs.Prelude.{◌≤◌, ◌≡◌, ◌↔◌, ℕ, true, arith}
use normfs.UBig.{UBig}
use normfs.UintN.{UintN, from_u64}
use normfs.UintN.Codec.{can_fit, size_in_bytes}
use normfs.Wal.Header.{WalHeader, resize, can_hold_entry}

module _ {U : Type 0} ⦃b : UBig U⦄ where
  can_hold_entry_iff :
      (h : WalHeader U) (id : UintN U) (n : ℕ)
      → (can_hold_entry h id n ≡ true) ↔ (
          (size_in_bytes id ≤ h.id_size_bytes)
          × (size_in_bytes (from_u64 {U = U} n) ≤ h.data_size_bytes))
  unfolding can_hold_entry can_fit
  can_hold_entry_iff h id n = (λ e. ground arith, λ e. ground arith)

  -- The header of the next file can hold the entry that it was resized for, and every entry that the
  -- header before could hold.
  pub resize_lem :
      (h : WalHeader U) (id : UintN U) (n : ℕ)
      → (can_hold_entry (resize h id n) id n ≡ true)
        × ((other : UintN U) (m : ℕ)
            → can_hold_entry h other m ≡ true
            → can_hold_entry (resize h id n) other m ≡ true)
  unfolding resize
  resize_lem h id n = (
    (can_hold_entry_iff (resize h id n) id n).1 (omega arith, omega arith),
    λ other m e.
        let held = (can_hold_entry_iff h other m).0 e in
        (can_hold_entry_iff (resize h id n) other m).1 (omega (arith, held), omega (arith, held)),
  )
