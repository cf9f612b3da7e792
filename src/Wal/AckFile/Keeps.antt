-- ===== src/Wal/AckFile/Keeps.antt =====
-- `normfs-wal/src/ack_file_writer.rs`: what the task leaves as it is.
use normfs.Prelude.{◌≡◌, ◌∙◌, ℕ, refl, inl, inr, Bool, true, false, List, Option-cases, List-cases}
use normfs.Wal.AckFile.{Wake}
use normfs.Wal.AckFile.Runs.{Step, Runs, writes, wakes, completes, here, onward}
use normfs.Wal.AckFile.Holds.{Written}
use normfs.Wal.AckFile.{
  AckFileWriter, Batch, begin_flush, complete_flush, Attempt, finish_flush, taken, write, wake_up,
  write_attempts, max_retries,
}

module _ {Q U : Type 0} where
  -- The settings are the same, and the task still runs.
  abbrev pub Keeps : AckFileWriter Q U → AckFileWriter Q U → Type 0
  Keeps w w' = (w'.settings ≡ w.settings) × (w'.running ≡ w.running)

  begin_flush-Keeps : (w : AckFileWriter Q U) → Keeps w (begin_flush w)
  unfolding begin_flush
  begin_flush-Keeps w = elim (List-cases w.state.buffer) [
    | inl e ↦ let same : begin_flush w ≡ w = rw e refl in rw same (refl, refl)
    | inr (x, xs, e) ↦ let same : begin_flush w ≡ taken w = rw e refl in rw same (refl, refl)
  ]

  finish_flush-Keeps :
      (batch : Batch Q U) (r : List ℕ × Bool) (w : AckFileWriter Q U)
      → Keeps w (finish_flush batch r w)
  finish_flush-Keeps batch (file, true) w = (refl, refl)
  finish_flush-Keeps batch (file, false) w = (refl, refl)

  complete_flush-Keeps : (w : AckFileWriter Q U) (io : ℕ → Attempt) → Keeps w (complete_flush io w)
  unfolding complete_flush
  complete_flush-Keeps w io = elim (Option-cases w.flushing) [
    | inl e ↦ let same : complete_flush io w ≡ w = rw e refl in rw same (refl, refl)
    | inr (batch, e) ↦
        let r = write_attempts w.settings.fsync io batch.contents max_retries 0 w.file in
        let same : complete_flush io w ≡ finish_flush batch r w = rw e refl in
        rw same (finish_flush-Keeps batch r w)
  ]

  Step-Keeps : (more : List (Written Q U)) (w w' : AckFileWriter Q U) → Step w more w' → Keeps w w'
  unfolding write wake_up
  Step-Keeps more w w' (writes _ queue_id entry_id entry) = (refl, refl)
  Step-Keeps more w w' (wakes _ Wake.full ready) =
      begin_flush-Keeps (record w { buffer_full = false })
  Step-Keeps more w w' (wakes _ Wake.tick ready) = begin_flush-Keeps w
  Step-Keeps more w w' (completes _ io clean) = complete_flush-Keeps w io

  pub Runs-Keeps :
      (more : List (Written Q U)) (w w' : AckFileWriter Q U) → Runs w more w' → Keeps w w'
  Runs-Keeps more w w' (here _) = (refl, refl)
  Runs-Keeps more w w' (onward _ w1 _ few most s r) =
      let (a, c) = Step-Keeps few w w1 s in let (d, e) = Runs-Keeps most w1 w' r in (d ∙ a, e ∙ c)
