-- ===== src/Wal/AckFile/Runs.antt =====
-- `normfs-wal/src/ack_file_writer.rs`: the calls of `write` between the steps of the task.
use normfs.Prelude.{
  ◌≡◌, ◌⊎◌, ◌∙◌, ◌∷◌, ◌++◌, [], ℕ, refl, sym, inl, inr, Bool, true, false, none, some, List,
  append-nil, append_assoc, arith, Option-cases, last, length-append, List-cases,
}
use mathlib.Core.Path.{subst}
use normfs.Wal.AckFile.Attempts.{IsClean, write_attempts_lem}
use normfs.Wal.AckFile.Holds.{
  Written, Holds, bytes_of-append, acks_of-append, last-same, bytes_of, InFlight, acks_of,
}
use normfs.Wal.AckFile.{
  AckFileWriter, begin_flush, complete_flush, write, Attempt, AckFileWriterSettings, UintN, Wake,
  is_ready, Ack, Batch, opened, taken, wake_up, write_attempts, finish_flush, last_ack, max_retries,
}

module _ {Q U : Type 0} where
  -- The outcomes of the attempts are clean for the settings of the writer.
  abbrev pub AreClean : AckFileWriter Q U → (ℕ → Attempt) → Type 0
  AreClean w io = (k : ℕ) → IsClean w.settings.fsync (io k)

  -- One step, with the entries that it gives to the writer.
  pub data Step : AckFileWriter Q U → List (Written Q U) → AckFileWriter Q U → Type 0 where
    writes :
        (w : AckFileWriter Q U) (queue_id : Q) (entry_id : UintN U) (entry : List ℕ)
        → Step w ((queue_id, entry_id, entry) ∷ []) (write queue_id entry_id entry w)
    wakes :
        (w : AckFileWriter Q U) (wake : Wake) → is_ready wake w ≡ true → Step w [] (wake_up wake w)
    completes :
        (w : AckFileWriter Q U) (io : ℕ → Attempt) → AreClean w io → Step w [] (complete_flush io w)

  -- Any number of steps.
  pub data Runs : AckFileWriter Q U → List (Written Q U) → AckFileWriter Q U → Type 0 where
    here : (w : AckFileWriter Q U) → Runs w [] w
    onward :
        (w w' w'' : AckFileWriter Q U) (more most : List (Written Q U))
        → Step w more w'
        → Runs w' most w''
        → Runs w (more ++ most) w''

  module _ (header : List ℕ) where
    pub opened-Holds :
        (settings : AckFileWriterSettings)
        → Holds header [] (opened {Q = Q} {U = U} settings header)
    opened-Holds settings = record {
      durable = [];
      flight = [];
      waiting = [];
      parts = refl;
      in_file = sym (append-nil header);
      in_flight = refl;
      in_buffer = refl;
      acks = refl;
      acknowledged = refl;
      current_size = omega arith;
    }

    pub write-Holds :
        (log : List (Written Q U)) (w : AckFileWriter Q U) (queue_id : Q) (entry_id : UintN U)
        (entry : List ℕ)
        → Holds header log w
        → Holds header (log ++ ((queue_id, entry_id, entry) ∷ [])) (write queue_id entry_id entry w)
    unfolding write
    write-Holds log w queue_id entry_id entry h =
        let one = (queue_id, entry_id, entry) ∷ [] in
        record {
          durable = h.durable;
          flight = h.flight;
          waiting = h.waiting ++ one;
          parts =
              rw
                (
                  h.parts,
                  append_assoc h.durable (h.flight ++ h.waiting) one,
                  append_assoc h.flight h.waiting one,
                )
                refl;
          in_file = h.in_file;
          in_flight = h.in_flight;
          in_buffer = rw (bytes_of-append h.waiting one, h.in_buffer, append-nil entry) refl;
          acks = rw (acks_of-append h.waiting one) (
              last-same w.state.acks ((queue_id, entry_id) ∷ []) (acks_of h.waiting)
                ((queue_id, entry_id) ∷ []) h.acks refl);
          acknowledged = h.acknowledged;
          current_size =
              rw (bytes_of-append log one, append-nil entry)
                (omega (arith, h.current_size, length-append (bytes_of log) entry));
        }

    pub last_ack_lem : (acks : List (Ack Q U)) → last (last_ack acks) ≡ last acks
    last_ack_lem acks = elim (Option-cases (last acks)) [
      | inl e ↦ rw e refl
      | inr (a, e) ↦ rw e refl
    ]

    taken-Holds :
        (log : List (Written Q U)) (w : AckFileWriter Q U)
        → Holds header log w
        → w.flushing ≡ none
        → Holds header log (taken w)
    taken-Holds log w h idle =
        let landed : h.flight ≡ [] = subst (λ o. InFlight h.flight o) idle h.in_flight in
        record {
          durable = h.durable;
          flight = h.waiting;
          waiting = [];
          parts = rw (h.parts, landed, append-nil h.waiting) refl;
          in_file = h.in_file;
          in_flight = (h.in_buffer, last_ack_lem w.state.acks ∙ h.acks);
          in_buffer = refl;
          acks = refl;
          acknowledged = h.acknowledged;
          current_size = h.current_size;
        }

    -- Nothing is being written: the buffer goes into flight.
    pub begin_flush-Holds :
        (log : List (Written Q U)) (w : AckFileWriter Q U)
        → Holds header log w
        → w.flushing ≡ none
        → Holds header log (begin_flush w)
    unfolding begin_flush
    begin_flush-Holds log w h idle = elim (List-cases w.state.buffer) [
      | inl e ↦ let same : begin_flush w ≡ w = rw e refl in rw same h
      | inr (x, xs, e) ↦
          let same : begin_flush w ≡ taken w = rw e refl in rw same (taken-Holds log w h idle)
    ]

    finish_flush-Holds :
        (log : List (Written Q U)) (w : AckFileWriter Q U) (batch : Batch Q U) (r : List ℕ × Bool)
        → Holds header log w
        → w.flushing ≡ some batch
        → (r ≡ (w.file ++ batch.contents, true)) ⊎ (r ≡ (w.file, false))
        → Holds header log (finish_flush batch r w)
    finish_flush-Holds log w batch r h busy (inl e) =
        let (bytes, ack) = subst (λ o. InFlight h.flight o) busy h.in_flight in
        rw e (record {
          durable = h.durable ++ h.flight;
          flight = [];
          waiting = h.waiting;
          parts = rw (h.parts, append_assoc h.durable h.flight h.waiting) refl;
          in_file =
              rw
                (
                  bytes_of-append h.durable h.flight,
                  h.in_file,
                  bytes,
                  append_assoc header (bytes_of h.durable) (bytes_of h.flight),
                )
                refl;
          in_flight = refl;
          in_buffer = h.in_buffer;
          acks = h.acks;
          acknowledged = rw (acks_of-append h.durable h.flight) (
              last-same w.sent batch.acks_to_send (acks_of h.durable) (acks_of h.flight)
                h.acknowledged ack);
          current_size = h.current_size;
        })
    finish_flush-Holds log w batch r h busy (inr e) =
        let (bytes, ack) = subst (λ o. InFlight h.flight o) busy h.in_flight in
        rw e (record {
          durable = h.durable;
          flight = [];
          waiting = h.flight ++ h.waiting;
          parts = h.parts;
          in_file = h.in_file;
          in_flight = refl;
          in_buffer = rw (bytes_of-append h.flight h.waiting, h.in_buffer, bytes) refl;
          acks = rw (acks_of-append h.flight h.waiting) (
              last-same batch.acks_to_send w.state.acks (acks_of h.flight) (acks_of h.waiting) ack
                h.acks);
          acknowledged = h.acknowledged;
          current_size = h.current_size;
        })

    pub complete_flush-Holds :
        (log : List (Written Q U)) (w : AckFileWriter Q U) (io : ℕ → Attempt)
        → Holds header log w
        → AreClean w io
        → Holds header log (complete_flush io w)
    unfolding complete_flush
    complete_flush-Holds log w io h clean = elim (Option-cases w.flushing) [
      | inl e ↦ let same : complete_flush io w ≡ w = rw e refl in rw same h
      | inr (batch, e) ↦
          let r = write_attempts w.settings.fsync io batch.contents max_retries 0 w.file in
          let same : complete_flush io w ≡ finish_flush batch r w = rw e refl in
          rw same (
            finish_flush-Holds log w batch r h e
              (write_attempts_lem w.settings.fsync io batch.contents max_retries 0 w.file clean))
    ]

    idle : (wake : Wake) (w : AckFileWriter Q U) → is_ready wake w ≡ true → w.flushing ≡ none
    unfolding is_ready
    idle Wake.full w ready = ground (arith, ready, Option-cases w.flushing)
    idle Wake.tick w ready = ground (arith, ready, Option-cases w.flushing)

    unmarked :
        (log : List (Written Q U)) (w : AckFileWriter Q U)
        → Holds header log w
        → Holds header log (record w { buffer_full = false })
    unmarked log w h = record {
      durable = h.durable;
      flight = h.flight;
      waiting = h.waiting;
      parts = h.parts;
      in_file = h.in_file;
      in_flight = h.in_flight;
      in_buffer = h.in_buffer;
      acks = h.acks;
      acknowledged = h.acknowledged;
      current_size = h.current_size;
    }

    Step-Holds :
        (log more : List (Written Q U)) (w w' : AckFileWriter Q U)
        → Holds header log w
        → Step w more w'
        → Holds header (log ++ more) w'
    unfolding is_ready wake_up
    Step-Holds log more w w' h (writes _ queue_id entry_id entry) =
        write-Holds log w queue_id entry_id entry h
    Step-Holds log more w w' h (wakes _ Wake.full ready) = rw (append-nil log) (
        begin_flush-Holds log (record w { buffer_full = false }) (unmarked log w h)
          (idle Wake.full w ready))
    Step-Holds log more w w' h (wakes _ Wake.tick ready) =
        rw (append-nil log) (begin_flush-Holds log w h (idle Wake.tick w ready))
    Step-Holds log more w w' h (completes _ io clean) =
        rw (append-nil log) (complete_flush-Holds log w io h clean)

    -- A writer that holds a log holds, after any calls of `write` and any steps of the task whose
    -- attempts succeed or leave the file as it was, the log followed by the entries written: the file
    -- holds its header and the first of them, the last one there is the last one acknowledged, and
    -- the rest waits in order; the size counts them all.
    pub Runs-Holds :
        (log more : List (Written Q U)) (w w' : AckFileWriter Q U)
        → Holds header log w
        → Runs w more w'
        → Holds header (log ++ more) w'
    Runs-Holds log more w w' h (here _) = rw (append-nil log) h
    Runs-Holds log more w w' h (onward _ w1 _ few most s r) =
        rw (← append_assoc log few most)
          (Runs-Holds (log ++ few) most w1 w' (Step-Holds log few w w1 h s) r)
