-- ===== src/Wal/Stream/Shrink.antt =====
-- `normfs-wal/src`: every entry that is read takes bytes off the file.
use normfs.Prelude.{
  ◌≤◌, ◌<◌, ◌≡◌, ℕ, inl, inr, some, List, arith, length, take, length-drop, ok, Outcome-cases,
}
use native.Mathlib.Decide.{dec_lt}
use normfs.UBig.{UBig}
use normfs.UintN.{to_u64}
use normfs.Wal.Header.{WalHeader}
use normfs.Wal.Entry.{WalEntryHeader}
use normfs.Wal.Entry
use normfs.Wal.Stream.{read_exact, allocate, entry_from_reader, read_record, record_at}
use normfs.Wal.Stream.Agree.{size_cases, size-le, from_bytes_short}

length-read_exact :
    (n : ℕ) (reader bs rest : List ℕ)
    → read_exact n reader ≡ some (bs, rest)
    → length rest ≤ length reader
unfolding read_exact
length-read_exact n reader bs rest h = ground (arith, h, length-drop n reader)

module _ {U : Type 0} ⦃b : UBig U⦄ where
  pub length-entry_from_reader :
      (reader rest : List ℕ) (w : WalHeader U) (e : WalEntryHeader U)
      → entry_from_reader reader w ≡ ok (e, rest)
      → length rest < length reader
  unfolding entry_from_reader read_exact allocate
  length-entry_from_reader reader rest w e h = elim (size_cases w) [
    | inl s ↦ ground (arith, h, s)
    | inr (n, s) ↦ elim (Outcome-cases (Entry.from_bytes {U = U} (take n reader) w)) [
      | inl p ↦ ground (arith, h, s, p)
      | inr (inl (x, p)) ↦ ground (arith, h, s, p)
      | inr (inr (x, p)) ↦ ground (arith, h, s, p, length-drop n reader, size-le n w s)
    ]
  ]

  pub length-read_record :
      (xxh64 : List ℕ → ℕ) (e : WalEntryHeader U) (reader bs rest : List ℕ)
      → read_record xxh64 e reader ≡ ok (bs, rest)
      → length rest ≤ length reader
  unfolding read_record read_exact allocate
  length-read_record xxh64 e reader bs rest h = elim (Outcome-cases (to_u64 e.record_size)) [
    | inl p ↦ ground (arith, h, p)
    | inr (inl (x, p)) ↦ ground (arith, h, p)
    | inr (inr (n, p)) ↦ ground (arith, h, p, length-drop n reader)
  ]

  pub record_at-le :
      (xxh64 : List ℕ → ℕ) (e : WalEntryHeader U) (content bs : List ℕ) (cursor next : ℕ)
      → record_at xxh64 e content cursor ≡ ok (bs, next)
      → (cursor ≤ next) × (next ≤ length content)
  unfolding record_at
  record_at-le xxh64 e content bs cursor next h = elim (Outcome-cases (to_u64 e.record_size)) [
    | inl p ↦ ground (arith, h, p)
    | inr (inl (x, p)) ↦ ground (arith, h, p)
    | inr (inr (n, p)) ↦ ground (arith, h, p)
  ]

  -- An entry's header that was parsed was there.
  pub from_bytes-length :
      (bs : List ℕ) (w : WalHeader U) (e : WalEntryHeader U)
      → Entry.from_bytes bs w ≡ ok e
      → (n : ℕ) × (Entry.size w ≡ ok n) × (16 ≤ n) × (n ≤ length bs)
  from_bytes-length bs w e h = elim (size_cases w) [
    | inl s ↦ unfold Entry.from_bytes in ground (arith, h, s)
    | inr (n, s) ↦ elim (dec_lt (length bs) n) [
      | yes short ↦ ground (arith, h, from_bytes_short n bs w s short)
      | no enough ↦ (n, s, size-le n w s, omega arith)
    ]
  ]
