-- ===== src/Wal/AckFile/Holds.antt =====
-- `normfs-wal/src/ack_file_writer.rs`: the log that a writer holds: what is in the file, what is being
-- written, and what waits.
use normfs.Prelude.{
  ◌+◌, ◌≡◌, ◌∷◌, ◌++◌, [], ℕ, refl, inl, inr, Option, none, some, List, append_assoc, Option-cases,
  length, last,
}
use normfs.Wal.AckFile.{Ack, AckFileWriter, Batch}
use normfs.UintN.{UintN}

-- An entry as it was given to `write`.
abbrev pub Written : Type 0 → Type 0 → Type 0
Written Q U = Q × UintN U × List ℕ

abbrev or_else {ℓ} : {A : Type ℓ} → Option A → Option A → Option A
or_else none o = o
or_else (some x) o = some x

module _ {ℓ} {A : Type ℓ} where
  last-cons : (x : A) (xs : List A) → last (x ∷ xs) ≡ or_else (last xs) (some x)
  last-cons x [] = refl
  last-cons x (y ∷ xs) = elim (Option-cases (last xs)) [
    | inl e ↦ rw (last-cons y xs, e) refl
    | inr (z, e) ↦ rw (last-cons y xs, e) refl
  ]

  last-append : (xs ys : List A) → last (xs ++ ys) ≡ or_else (last ys) (last xs)
  last-append [] ys = elim (Option-cases (last ys)) [ inl e ↦ rw e refl | inr (z, e) ↦ rw e refl ]
  last-append (x ∷ xs) ys = elim (Option-cases (last ys)) [
    | inl e ↦ rw (last-cons x (xs ++ ys), last-append xs ys, e, last-cons x xs) refl
    | inr (z, e) ↦ rw (last-cons x (xs ++ ys), last-append xs ys, e) refl
  ]

  pub last-same :
      (xs ys us vs : List A)
      → last xs ≡ last us
      → last ys ≡ last vs
      → last (xs ++ ys) ≡ last (us ++ vs)
  last-same xs ys us vs e f = rw (last-append xs ys, last-append us vs, e, f) refl

module _ {Q U : Type 0} where
  abbrev pub bytes_of : List (Written Q U) → List ℕ
  bytes_of [] = []
  bytes_of ((queue_id, entry_id, entry) ∷ log) = entry ++ bytes_of log

  abbrev pub acks_of : List (Written Q U) → List (Ack Q U)
  acks_of [] = []
  acks_of ((queue_id, entry_id, entry) ∷ log) = (queue_id, entry_id) ∷ acks_of log

  pub bytes_of-append :
      (xs ys : List (Written Q U)) → bytes_of (xs ++ ys) ≡ bytes_of xs ++ bytes_of ys
  bytes_of-append [] ys = refl
  bytes_of-append (x ∷ xs) ys =
      rw (bytes_of-append xs ys, append_assoc x.2 (bytes_of xs) (bytes_of ys)) refl

  pub acks_of-append : (xs ys : List (Written Q U)) → acks_of (xs ++ ys) ≡ acks_of xs ++ acks_of ys
  acks_of-append [] ys = refl
  acks_of-append (x ∷ xs) ys = rw (acks_of-append xs ys) refl

  abbrev pub InFlight : List (Written Q U) → Option (Batch Q U) → Type 0
  InFlight flight none = flight ≡ []
  InFlight flight (some batch) =
      (batch.contents ≡ bytes_of flight) × (last batch.acks_to_send ≡ last (acks_of flight))

  -- The log, in order: what the file holds and was acknowledged, what is being written, what waits.
  pub record Holds (header : List ℕ) (log : List (Written Q U)) (w : AckFileWriter Q U)
      : Type 0 where
    pub durable : List (Written Q U)
    pub flight : List (Written Q U)
    pub waiting : List (Written Q U)
    pub parts : log ≡ durable ++ (flight ++ waiting)
    pub in_file : w.file ≡ header ++ bytes_of durable
    pub in_flight : InFlight flight w.flushing
    pub in_buffer : w.state.buffer ≡ bytes_of waiting
    pub acks : last w.state.acks ≡ last (acks_of waiting)
    pub acknowledged : last w.sent ≡ last (acks_of durable)
    pub current_size : w.state.current_size ≡ length header + length (bytes_of log)
