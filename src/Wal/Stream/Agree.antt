-- ===== src/Wal/Stream/Agree.antt =====
-- `normfs-wal/src`: reading from an open file and from the bytes of the whole file.
use normfs.Prelude.{
  ◌+◌, ◌^◌, ◌≤◌, ◌<◌, ◌≡◌, ◌⊎◌, ◌∷◌, if◌then◌else◌, ◌>>=◌, [], ℕ, suc, refl, sym, ap, inl, inr,
  List, arith, ltb, length, take, drop, length-take, length-drop, Outcome, ok, err, panic, zero,
  drop-drop, Outcome-cases,
}
use native.Mathlib.Decide.{dec_lt}
use normfs.UBig.{UBig}
use normfs.UintN.{to_u64}
use normfs.UintN.Codec.{u64_at}
use normfs.Wal.Header.{WalHeader}
use normfs.Wal.Entry.{WalEntryHeader, WalEntryError, fixed_overhead}
use normfs.Wal.Entry
use normfs.Wal.Stream.{read_exact, allocate, entry_from_reader, read_record, record_at}

-- A field inside the first `n` elements is a field of the whole list.
take-drop-take {ℓ} :
    {A : Type ℓ} (k i n : ℕ) (xs : List A)
    → i + k ≤ n
    → take k (drop i (take n xs)) ≡ take k (drop i xs)
take-drop-take k i zero [] h = refl
take-drop-take k i (suc n) [] h = refl
take-drop-take zero i n (x ∷ xs) h = refl
take-drop-take (suc k) i zero (x ∷ xs) h = absurd (omega arith)
take-drop-take (suc k) zero (suc n) (x ∷ xs) h =
    ap (λ ys. x ∷ ys) (take-drop-take k zero n xs (omega arith))
take-drop-take (suc k) (suc i) (suc n) (x ∷ xs) h = take-drop-take (suc k) i n xs (omega arith)

pub u64_at-take : (i n : ℕ) (bs : List ℕ) → i + 8 ≤ n → u64_at (take n bs) i ≡ u64_at bs i
unfolding u64_at
u64_at-take i n bs h = rw (take-drop-take 8 i n bs h) refl

-- A record that is read from an open file is the one at the cursor.
abbrev pub SameRecord :
    List ℕ → Outcome (Unit {0}) (List ℕ × List ℕ) → Outcome (Unit {0}) (List ℕ × ℕ) → Type 0
SameRecord content (ok (r, rest)) (ok (s, cursor)) =
    (r ≡ s) × (rest ≡ drop cursor content) × (cursor ≤ length content)
SameRecord content (err e) (err f) = Unit {0}
SameRecord content panic s = Unit {0}
SameRecord content r s = ⊥

pub SameRecord-cases :
    (content : List ℕ) (r : Outcome (Unit {0}) (List ℕ × List ℕ))
    (s : Outcome (Unit {0}) (List ℕ × ℕ))
    → SameRecord content r s
    → (r ≡ panic)
      ⊎ ((r ≡ err tt) × (s ≡ err tt))
      ⊎ ((record_bytes : List ℕ) × (cursor : ℕ) × (r ≡ ok (record_bytes, drop cursor content))
          × (s ≡ ok (record_bytes, cursor))
          × (cursor ≤ length content))
SameRecord-cases content panic s h = inl refl
SameRecord-cases content (err e) (err f) h = inr (inl (refl, refl))
SameRecord-cases content (ok (x, rest)) (ok (y, cursor)) (e, f, le) =
    inr (inr (x, cursor, ap (λ z. ok (x, z)) f, ap (λ z. ok (z, cursor)) (sym e), le))
SameRecord-cases content (err e) (ok s) h = absurd h
SameRecord-cases content (err e) panic h = absurd h
SameRecord-cases content (ok r) (err e) h = absurd h
SameRecord-cases content (ok r) panic h = absurd h

module _ {U : Type 0} ⦃b : UBig U⦄ where
  -- An entry's header is parsed from its own bytes.
  pub from_bytes-take :
      (n : ℕ) (bs : List ℕ) (w : WalHeader U)
      → Entry.size w ≡ ok n
      → n ≤ length bs
      → Entry.from_bytes {U = U} (take n bs) w ≡ Entry.from_bytes bs w
  unfolding Entry.from_bytes Entry.size
  from_bytes-take n bs w s le =
      let e : n ≡ 16 + w.id_size_bytes + w.data_size_bytes = ground arith in
      rw
        (
          u64_at-take 0 n bs (omega arith),
          u64_at-take (8 + w.id_size_bytes + w.data_size_bytes) n bs (omega arith),
          take-drop-take w.id_size_bytes 8 n bs (omega arith),
          take-drop-take w.data_size_bytes (8 + w.id_size_bytes) n bs (omega arith),
        )
        (ground (arith, length-take n bs))

  -- What is read from an open file, by what is parsed from its bytes.
  pub entry_from_reader_lem :
      (n : ℕ) (bs : List ℕ) (w : WalHeader U)
      → Entry.size w ≡ ok n
      → n < 2 ^ 63
      → entry_from_reader bs w ≡ (
          if ltb (length bs) n
          then err WalEntryError.slice_too_short
          else (Entry.from_bytes bs w >>= λ e. ok (e, drop n bs)))
  unfolding entry_from_reader read_exact allocate
  entry_from_reader_lem n bs w s small = elim (dec_lt (length bs) n) [
    | yes short ↦ rw s (ground arith)
    | no enough ↦ rw s (ground (arith, from_bytes-take n bs w s (omega arith)))
  ]

  -- The size of an entry's header is at least that of its fixed fields.
  pub size-le : (n : ℕ) (w : WalHeader U) → Entry.size w ≡ ok n → fixed_overhead ≤ n
  unfolding Entry.size
  size-le n w s = ground arith

  pub record_lem :
      (xxh64 : List ℕ → ℕ) (e : WalEntryHeader U) (content : List ℕ) (cursor : ℕ)
      → cursor ≤ length content
      → length content < 2 ^ 63
      → SameRecord content
          (read_record xxh64 e (drop cursor content))
          (record_at xxh64 e content cursor)
  unfolding read_record record_at read_exact allocate
  record_lem xxh64 e content cursor le small = elim (Outcome-cases (to_u64 e.record_size)) [
    | inl p ↦ rw p tt
    | inr (inl (x, p)) ↦ rw p tt
    | inr (inr (n, p)) ↦
        rw p (ground (arith, length-drop cursor content, drop-drop cursor n content))
  ]

  -- An entry's header does not parse from fewer bytes than it has.
  pub from_bytes_short :
      (n : ℕ) (bs : List ℕ) (w : WalHeader U)
      → Entry.size w ≡ ok n
      → length bs < n
      → Entry.from_bytes {U = U} bs w ≡ err WalEntryError.slice_too_short
  unfolding Entry.from_bytes
  from_bytes_short n bs w s short = rw s (ground arith)

  -- The size of an entry's header is no error.
  pub size_cases : (w : WalHeader U) → (Entry.size w ≡ panic) ⊎ ((n : ℕ) × (Entry.size w ≡ ok n))
  unfolding Entry.size
  size_cases w = elim (dec_lt (16 + w.id_size_bytes + w.data_size_bytes) (2 ^ 64)) [
    | yes fits ↦ inr (16 + w.id_size_bytes + w.data_size_bytes, ground arith)
    | no large ↦ inl (ground arith)
  ]

  -- An entry's header that is larger than any allocation is not read.
  pub entry_from_reader_panics :
      (bs : List ℕ) (w : WalHeader U)
      → (Entry.size w ≡ panic) ⊎ ((n : ℕ) × (Entry.size w ≡ ok n) × (2 ^ 63 ≤ n))
      → entry_from_reader bs w ≡ panic
  unfolding entry_from_reader allocate
  entry_from_reader_panics bs w (inl s) = ground (arith, s)
  entry_from_reader_panics bs w (inr (n, s, le)) = ground (arith, s)
