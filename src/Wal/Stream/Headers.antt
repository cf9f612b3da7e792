-- ===== src/Wal/Stream/Headers.antt =====
-- `normfs-wal/src/wal_header.rs`: the header of an open file, and of the bytes of a file.
use normfs.Prelude.{
  ◌+◌, ◌*◌, ◌≤◌, ◌≡◌, ◌==◌, ℕ, refl, inl, inr, List, arith, Bool-cases, length, take, drop,
  length-drop, ok, drop-drop, Outcome-cases,
}
use native.Mathlib.Decide.{dec_lt}
use normfs.UBig.{UBig}
use normfs.UintN.Codec.{u64_at, read_from_slice, read_value_from_slice}
use normfs.Wal.Header.{WalHeader}
use normfs.Wal.Header
use normfs.Wal.Stream.{read_exact, header_from_reader}
use normfs.Wal.Stream.Agree.{u64_at-take}

module _ {U : Type 0} ⦃b : UBig U⦄ where
  -- A header that is read from an open file is the one that its bytes begin with.
  pub header_lem :
      (bs rest : List ℕ) (w : WalHeader U) (n : ℕ)
      → header_from_reader bs ≡ ok (w, n, rest)
      → (Header.from_bytes bs ≡ ok (w, n)) × (rest ≡ drop n bs) × (n ≤ length bs)
  unfolding header_from_reader read_exact Header.from_bytes read_from_slice
  header_lem bs rest w n h =
      let reader = drop 24 bs in
      let len = u64_at reader 0 in
      let version = u64_at-take 0 24 bs (omega arith) in
      let data_size = u64_at-take 8 24 bs (omega arith) in
      let id_size = u64_at-take 16 24 bs (omega arith) in
      let len_field = u64_at-take 0 8 reader (omega arith) in
      let left = length-drop 24 bs in
      let behind = length-drop 8 reader in
      elim (dec_lt (length bs) 24) [
        | yes short ↦ ground (arith, h)
        | no enough ↦ elim (Bool-cases (u64_at bs 0 == 0)) [
          | inr other ↦ ground (arith, h, version)
          | inl zero_version ↦ elim (dec_lt (length reader) 8) [
            | yes short ↦ ground (arith, h, version)
            | no enough' ↦ elim (dec_lt (10 * 1024 * 1024) len) [
              | yes large ↦ ground (arith, h, version, len_field)
              | no small ↦ elim (dec_lt (length (drop 8 reader)) len) [
                | yes short ↦ ground (arith, h, version, len_field)
                | no enough'' ↦
                    elim (Outcome-cases
                      (read_value_from_slice {U = U} (take len (drop 8 reader)) len)) [
                        | inl p ↦ ground (arith, h, version, len_field, p)
                        | inr (inl (e, p)) ↦ ground (arith, h, version, len_field, p)
                        | inr (inr (v, p)) ↦ ground (
                          arith,
                          h,
                          version,
                          data_size,
                          id_size,
                          len_field,
                          p,
                          left,
                          behind,
                          drop-drop 32 len bs,
                          drop-drop 24 8 bs,
                        )
                      ]
              ]
            ]
          ]
        ]
      ]

  -- A header that is parsed is read from an open file, if it is within the limit of the reader.
  pub header_fits :
      (bs : List ℕ) (w : WalHeader U) (n : ℕ)
      → Header.from_bytes bs ≡ ok (w, n)
      → n ≤ 32 + 10 * 1024 * 1024
      → header_from_reader bs ≡ ok (w, n, drop n bs)
  unfolding header_from_reader read_exact Header.from_bytes read_from_slice
  header_fits bs w n h le =
      let reader = drop 24 bs in
      let len = u64_at reader 0 in
      let version = u64_at-take 0 24 bs (omega arith) in
      let data_size = u64_at-take 8 24 bs (omega arith) in
      let id_size = u64_at-take 16 24 bs (omega arith) in
      let len_field = u64_at-take 0 8 reader (omega arith) in
      let behind = length-drop 8 reader in
      let skipped : drop (32 + len) bs ≡ drop len (drop 8 reader) =
        rw (drop-drop 32 len bs, drop-drop 24 8 bs) refl in
      elim (dec_lt (length bs) 24) [
        | yes short ↦ ground (arith, h)
        | no enough ↦ elim (Bool-cases (u64_at bs 0 == 0)) [
          | inr other ↦ ground (arith, h)
          | inl zero_version ↦ elim (dec_lt (length reader) 8) [
            | yes short ↦ ground (arith, h)
            | no enough' ↦ elim (dec_lt (length (drop 8 reader)) len) [
              | yes short ↦ ground (arith, h, behind)
              | no enough'' ↦
                  elim (Outcome-cases
                    (read_value_from_slice {U = U} (take len (drop 8 reader)) len)) [
                      | inl p ↦ ground (arith, h, behind, p)
                      | inr (inl (e, p)) ↦ ground (arith, h, behind, p)
                      | inr (inr (v, p)) ↦
                          let found : WalHeader U = record {
                            data_size_bytes = u64_at bs 8;
                            id_size_bytes = u64_at bs 16;
                            num_entries_before = v;
                          } in
                          let parsed : Header.from_bytes bs ≡ ok (found, 24 + (8 + len)) =
                            ground (arith, behind, p) in
                          let size : n ≡ 24 + (8 + len) = ground (arith, h, parsed) in
                          let read : header_from_reader bs
                              ≡ ok (found, 24 + 8 + len, drop len (drop 8 reader)) =
                            ground (arith, version, data_size, id_size, len_field, p, le, size) in
                          ground (arith, h, parsed, read, skipped)
                    ]
            ]
          ]
        ]
      ]
