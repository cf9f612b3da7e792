-- ===== src/Wal/AckFile/Attempts.antt =====
-- `normfs-wal/src/ack_file_writer.rs`: the attempts of `flush_buffer` to write to the file.
use normfs.Prelude.{
  ◌+◌, ◌<◌, ◌≡◌, ◌⊎◌, ◌∙◌, ◌++◌, [], ℕ, suc, refl, inl, inr, Bool, true, false, List, append-nil,
  arith, Bool-cases, zero,
}
use normfs.Wal.AckFile.{Attempt, max_retries, succeeded, write_attempts, reached, written}

-- An attempt that succeeds, or that leaves the file as it was.
abbrev pub IsClean : Bool → Attempt → Type 0
IsClean fsync a = (succeeded fsync a ≡ true) ⊎ ((bytes : List ℕ) → reached a bytes ≡ [])

-- An attempt succeeds before `max_retries` of them have failed.
abbrev pub Succeeds : Bool → (ℕ → Attempt) → Type 0
Succeeds fsync io = (k : ℕ) × (k < max_retries) × (succeeded fsync (io k) ≡ true)

module _ (fsync : Bool) (io : ℕ → Attempt) (bytes : List ℕ) where
  attempt_lem :
      (left attempt : ℕ) (file : List ℕ)
      → IsClean fsync (io attempt)
      → (write_attempts fsync io bytes (suc left) attempt file ≡ (file ++ bytes, true))
        ⊎ ((write_attempts fsync io bytes (suc left) attempt file
              ≡ write_attempts fsync io bytes left (suc attempt) file)
            × (succeeded fsync (io attempt) ≡ false))
  unfolding write_attempts
  attempt_lem left attempt file clean = elim (Bool-cases (succeeded fsync (io attempt))) [
    | inl good ↦ inl (rw (write_attempts, good) refl)
    | inr bad ↦ elim clean [
      | inl good ↦ absurd (ground (arith, good, bad))
      | inr same ↦ inr (rw (write_attempts, bad, same bytes, append-nil file) refl, bad)
    ]
  ]

  -- Attempts that succeed or leave the file as it was: the bytes are appended once, or nothing is.
  pub write_attempts_lem :
      (left attempt : ℕ) (file : List ℕ)
      → ((k : ℕ) → IsClean fsync (io k))
      → (write_attempts fsync io bytes left attempt file ≡ (file ++ bytes, true))
        ⊎ (write_attempts fsync io bytes left attempt file ≡ (file, false))
  unfolding write_attempts
  write_attempts_lem zero attempt file clean = inr refl
  write_attempts_lem (suc left) attempt file clean =
      elim (attempt_lem left attempt file (clean attempt)) [
        | inl e ↦ inl e
        | inr (e, _) ↦ elim (write_attempts_lem left (suc attempt) file clean) [
          | inl f ↦ inl (e ∙ f)
          | inr f ↦ inr (e ∙ f)
        ]
      ]

  pub write_attempts_succeed :
      (left attempt k : ℕ) (file : List ℕ)
      → ((k : ℕ) → IsClean fsync (io k))
      → k < left
      → succeeded fsync (io (k + attempt)) ≡ true
      → write_attempts fsync io bytes left attempt file ≡ (file ++ bytes, true)
  write_attempts_succeed zero attempt k file clean lt good = absurd (omega (arith, lt))
  write_attempts_succeed (suc left) attempt zero file clean lt good =
      elim (attempt_lem left attempt file (clean attempt)) [
        | inl e ↦ e
        | inr (e, bad) ↦ absurd (ground (arith, good, bad))
      ]
  write_attempts_succeed (suc left) attempt (suc k) file clean lt good =
      elim (attempt_lem left attempt file (clean attempt)) [
        | inl e ↦ e
        | inr (e, _) ↦
            let same : suc k + attempt ≡ k + suc attempt = omega arith in
            let later : succeeded fsync (io (k + suc attempt)) ≡ true = rw (← same) good in
            e ∙ write_attempts_succeed left (suc attempt) k file clean (omega (arith, lt)) later
      ]

  second_write :
      (left attempt : ℕ) (file : List ℕ)
      → succeeded fsync (io attempt) ≡ false
      → succeeded fsync (io (suc attempt)) ≡ true
      → write_attempts fsync io bytes (suc (suc left)) attempt file
        ≡ ((file ++ reached (io attempt) bytes) ++ bytes, true)
  unfolding write_attempts
  second_write left attempt file bad good = rw (write_attempts, bad, good) refl

  -- With `fsync`, an attempt whose `sync_all` fails has written the bytes, and the next attempt
  -- writes them again: where the first attempt ends so and the second one succeeds, the file holds
  -- the bytes twice, and the write counts as successful.
  pub sync_failed_writes_twice :
      (file : List ℕ)
      → fsync ≡ true
      → io 0 ≡ written false
      → io 1 ≡ written true
      → write_attempts fsync io bytes max_retries 0 file ≡ ((file ++ bytes) ++ bytes, true)
  unfolding write_attempts succeeded reached
  sync_failed_writes_twice file sync one two =
      let bad : succeeded fsync (io 0) ≡ false = rw (one, sync) refl in
      let same : reached (io 0) bytes ≡ bytes = rw one refl in
      let good : succeeded fsync (io 1) ≡ true = rw (two, sync) refl in
      rw (second_write 998 0 file bad good, same) refl
