-- ===== src/Wal/AckFile/Closed.antt =====
-- `normfs-wal/src/ack_file_writer.rs`: what `close` leaves behind.
use normfs.Prelude.{
  ◌+◌, ◌<◌, ◌≡◌, ◌∙◌, ◌∷◌, ◌++◌, if◌then◌else◌, [], ℕ, refl, sym, ap, inl, inr, Bool, true, false,
  none, List, append-nil, append_assoc, arith, Option-cases, length, last, All, length-append,
  List-cases,
}
use normfs.Wal.AckFile.Holds.{acks_of-append, last-same}
use normfs.Wal.AckFile.Attempts.{Succeeds, write_attempts_succeed}
use normfs.Wal.AckFile.Runs.{AreClean, complete_flush-Holds, last_ack_lem}
use normfs.Wal.AckFile.{
  AckFileWriter, begin_flush, close, complete_flush, Attempt, Batch, write_attempts, finish_flush,
  max_retries, taken, last_ack, shut,
}
use normfs.Wal.AckFile.Holds.{Written, bytes_of, Holds, acks_of, InFlight, bytes_of-append}
use mathlib.Core.Path.{subst}

All-last {ℓ κ} : {A : Type ℓ} (P : A → Type κ) (xs ys : List A) → All P (xs ++ ys) → All P ys
All-last P [] ys h = h
All-last P (x ∷ xs) ys h = All-last P xs ys h.1

zero_right : (k : ℕ) → k + 0 ≡ k
zero_right k = omega arith

module _ {Q U : Type 0} where
  -- Entries of at least one byte.
  abbrev pub HasBytes : Written Q U → Type 0
  HasBytes (queue_id, entry_id, entry) = 0 < length entry

  no_bytes : (log : List (Written Q U)) → All HasBytes log → bytes_of log ≡ [] → log ≡ []
  no_bytes [] has e = refl
  no_bytes ((q, id, entry) ∷ log) has e =
      absurd (omega (arith, ap length e, length-append entry (bytes_of log), has.0))

  -- The file holds all of the log, and its last entry is the last one acknowledged.
  pub record IsWhole (header : List ℕ) (log : List (Written Q U)) (w : AckFileWriter Q U)
      : Type 0 where
    pub in_file : w.file ≡ header ++ bytes_of log
    pub acknowledged : last w.sent ≡ last (acks_of log)

  module _ (header : List ℕ) (log : List (Written Q U)) where
    landed :
        (w : AckFileWriter Q U)
        → (h : Holds header log w) → h.flight ≡ []
        → h.waiting ≡ []
        → IsWhole header log w
    landed w h none_left none_waits =
        let all : log ≡ h.durable = rw (h.parts, none_left, none_waits) (append-nil h.durable) in
        rw all (record { in_file = h.in_file; acknowledged = h.acknowledged })

    finish_flush_settles :
        (batch : Batch Q U) (r : List ℕ × Bool) (w : AckFileWriter Q U)
        → ((finish_flush batch r w).flushing ≡ none)
          × ((finish_flush batch r w).settings ≡ w.settings)
    finish_flush_settles batch (file, true) w = (refl, refl)
    finish_flush_settles batch (file, false) w = (refl, refl)

    pub settles :
        (w : AckFileWriter Q U) (io : ℕ → Attempt)
        → ((complete_flush io w).flushing ≡ none) × ((complete_flush io w).settings ≡ w.settings)
    unfolding complete_flush
    settles w io = elim (Option-cases w.flushing) [
      | inl e ↦ let same : complete_flush io w ≡ w = rw e refl in rw same (e, refl)
      | inr (batch, e) ↦
          let r = write_attempts w.settings.fsync io batch.contents max_retries 0 w.file in
          let same : complete_flush io w ≡ finish_flush batch r w = rw e refl in
          rw same (finish_flush_settles batch r w)
    ]

    last_flush :
        (w : AckFileWriter Q U) (io : ℕ → Attempt)
        → Holds header log w
        → All HasBytes log
        → w.flushing ≡ none
        → AreClean w io
        → Succeeds w.settings.fsync io
        → IsWhole header log (complete_flush io (begin_flush w))
    unfolding begin_flush complete_flush
    last_flush w io h has idle clean (k, lt, good) =
        let none_left : h.flight ≡ [] = subst (λ o. InFlight h.flight o) idle h.in_flight in
        elim (List-cases w.state.buffer) [
          | inl e ↦
              let same : complete_flush io (begin_flush w) ≡ w = rw (e, idle) refl in
              let waiting = All-last HasBytes h.flight h.waiting (
                All-last HasBytes h.durable (h.flight ++ h.waiting)
                  (subst (λ l. All HasBytes l) h.parts has)) in
              rw same (landed w h none_left (no_bytes h.waiting waiting (sym h.in_buffer ∙ e)))
          | inr (x, xs, e) ↦
              let begun : begin_flush w ≡ taken w = rw e refl in
              let done =
                write_attempts_succeed w.settings.fsync io w.state.buffer max_retries 0 k w.file
                  clean lt (rw (ap io (zero_right k)) good) in
              let same : complete_flush io (taken w) ≡ record (taken w) {
                file = w.file ++ w.state.buffer;
                sent = w.sent ++ last_ack w.state.acks;
                flushing = none;
              } =
                rw done refl in
              let all : log ≡ h.durable ++ h.waiting = rw (h.parts, none_left) refl in
              rw (begun, same)
                (record {
                  in_file =
                      rw
                        (
                          all,
                          bytes_of-append h.durable h.waiting,
                          h.in_file,
                          h.in_buffer,
                          append_assoc header (bytes_of h.durable) (bytes_of h.waiting),
                        )
                        refl;
                  acknowledged =
                      rw (all, acks_of-append h.durable h.waiting)
                        (last-same w.sent (last_ack w.state.acks) (acks_of h.durable)
                          (acks_of h.waiting) h.acknowledged
                          (last_ack_lem header w.state.acks ∙ h.acks));
                })
        ]

    -- Where every attempt succeeds or leaves the file as it was, and one of the final attempts
    -- succeeds: closing a writer that holds a log of entries of at least one byte leaves all of the
    -- log in the file, behind the header, with its last entry acknowledged, and ends the task.
    pub close-IsWhole :
        (w : AckFileWriter Q U) (pending final : ℕ → Attempt)
        → Holds header log w
        → All HasBytes log
        → w.running ≡ true
        → AreClean w pending
        → AreClean w final
        → Succeeds w.settings.fsync final
        → IsWhole header log (close pending final w) × ((close pending final w).running ≡ false)
    unfolding close
    close-IsWhole w pending final h has on clean clean_final good =
        let w1 = complete_flush pending w in
        let (idle, kept) = settles w pending in
        let l =
          last_flush w1 final (complete_flush-Holds header log w pending h clean) has idle
            (rw kept clean_final) (rw kept good) in
        let same : close pending final w ≡ shut pending final w =
          ap (λ on. if on then shut pending final w else w) on in
        rw same (record { in_file = l.in_file; acknowledged = l.acknowledged }, refl)
