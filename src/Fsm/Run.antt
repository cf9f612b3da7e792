-- ===== src/Fsm/Run.antt =====
-- `normfs/src/reader_fsm/fsm.rs`: the transitions of a read, and its run.
use normfs.Prelude.{
  ◌≡◌, if◌then◌else◌, ℕ, suc, Bool, true, false, Option, none, some, Outcome, ok, err, panic, zero,
}
use normfs.UBig.{UBig}
use normfs.Types.{ReadPosition, absolute, shift_from_tail}
use normfs.Fsm.{
  FsError, Backends, ReaderState, client_disconnected, lookup_positive, lookup_negative,
  lookup_file, read_file, read_store, read_wal, read_s3, extract_wal_bytes, parse_wal_bytes,
  read_next_file, subscribed, completed, failed,
}
use normfs.Fsm.Handlers.{
  handle_lookup_positive, handle_lookup_negative, handle_lookup_file, handle_read_file,
  handle_read_store, handle_read_wal, handle_read_s3, handle_extract_wal_bytes,
  handle_parse_wal_bytes, handle_read_next_file,
}

module _ {U W : Type 0} ⦃b : UBig U⦄ (backends : Backends U W) where
  -- A terminal state is not passed to `transition`: `unreachable!` panics.
  unfoldable pub transition : ReaderState U → ℕ → W → W × Outcome (FsError U) (ReaderState U)
  transition (lookup_positive offset limit) step w =
      handle_lookup_positive backends offset limit step w
  transition (lookup_negative offset limit) step w =
      handle_lookup_negative backends offset limit step w
  transition (lookup_file start_id end_id step') step w =
      handle_lookup_file backends start_id end_id step' w
  transition (read_file ctx) step w = handle_read_file backends ctx w
  transition (read_store ctx) step w = handle_read_store backends ctx w
  transition (read_wal ctx) step w = handle_read_wal backends ctx w
  transition (read_s3 ctx) step w = handle_read_s3 backends ctx w
  transition (extract_wal_bytes ctx bytes source) step w =
      handle_extract_wal_bytes backends ctx bytes source w
  transition (parse_wal_bytes ctx bytes source _) step w =
      handle_parse_wal_bytes backends ctx bytes source w
  transition (read_next_file file ctx handle) step w =
      handle_read_next_file backends file ctx handle w
  transition s step w = (w, panic)

  -- The loop of `read`, with fuel.
  unfoldable pub run : ℕ → ReaderState U → ℕ → W → Option (W × Outcome (FsError U) Bool)
  run fuel completed step w = some (w, ok false)
  run fuel subscribed step w = some (w, ok true)
  run fuel (failed e) step w = some (w, err e)
  run zero s step w = none
  run (suc fuel) s step w =
      let (w', result) = transition s step w in
      elim result [
        | panic ↦ some (w', panic)
        | err e ↦ some (w', err e)
        | ok next ↦ run fuel next step w'
      ]

  unfoldable pub read : ℕ → ReadPosition U → ℕ → ℕ → W → Option (W × Outcome (FsError U) Bool)
  read fuel position limit step w =
      if backends.is_closed w then some (w, err client_disconnected) else elim position [
        | absolute offset ↦ run fuel (lookup_positive offset limit) step w
        | shift_from_tail offset ↦ run fuel (lookup_negative offset limit) step w
      ]

  -- The states that a read goes through.
  pub data Reaches (step : ℕ) : ReaderState U → W → ReaderState U → W → Type 0 where
    here : {s : ReaderState U} {w : W} → Reaches step s w s w
    onward :
        {s s' t : ReaderState U} {w w' v : W}
        → transition s step w ≡ (w', ok s')
        → Reaches step s' w' t v
        → Reaches step s w t v
