-- ===== src/Wal/Writer/Failed.antt =====
-- `normfs-wal/src/writer.rs`: what follows when the next file cannot be created.
use normfs.Prelude.{◌≡◌, ◌∙◌, if◌then◌else◌, [], ℕ, refl, ap, true, false, none, List, arith, err}
use normfs.Wal.AckFile.Holds.{Written}
use normfs.Wal.AckFile
use normfs.Wal.AckFile.{AckFileWriter, Wake, Attempt}
use normfs.Wal.AckFile.Runs.{Step, Runs, writes, wakes, completes, here, onward}
use normfs.Wal.AckFile.Closed.{settles}
use normfs.Wal.Writer.{
  WriterState, Disk, rotate, left, new_file_writer, UBig, UintN, WalHeader, increment, WalSettings,
  io_error, next_header,
}

module _ {Q U : Type 0} where
  -- The task has ended, and nothing is being written.
  abbrev pub IsOver : AckFileWriter Q U → Type 0
  IsOver w = (w.running ≡ false) × (w.flushing ≡ none)

  not_ready : (w : AckFileWriter Q U) (wake : Wake) → IsOver w → AckFile.is_ready wake w ≡ false
  unfolding AckFile.is_ready
  not_ready w Wake.full over = ground (arith, over)
  not_ready w Wake.tick over = ground (arith, over)

  Step-IsOver :
      (more : List (Written Q U)) (w w' : AckFileWriter Q U)
      → IsOver w
      → Step w more w'
      → IsOver w' × (w'.file ≡ w.file)
  unfolding AckFile.write AckFile.complete_flush
  Step-IsOver more w w' over (writes _ queue_id entry_id entry) = (over, refl)
  Step-IsOver more w w' over (wakes _ wake ready) =
      absurd (ground (arith, not_ready w wake over, ready))
  Step-IsOver more w w' over (completes _ io clean) =
      let same : AckFile.complete_flush io w ≡ w = rw over.1 refl in rw same (over, refl)

  Runs-IsOver :
      (more : List (Written Q U)) (w w' : AckFileWriter Q U)
      → IsOver w
      → Runs w more w'
      → w'.file ≡ w.file
  Runs-IsOver more w w' over (here _) = refl
  Runs-IsOver more w w' over (onward _ w1 _ few most s r) =
      let (now, same) = Step-IsOver few w w1 over s in Runs-IsOver most w1 w' now r ∙ same

  close-IsOver :
      (w : AckFileWriter Q U) (pending final : ℕ → Attempt)
      → w.running ≡ true
      → IsOver (AckFile.close pending final w)
  unfolding AckFile.close
  close-IsOver w pending final on =
      let same : AckFile.close pending final w ≡ AckFile.shut pending final w =
        ap (λ on. if on then AckFile.shut pending final w else w) on in
      rw same
        (refl, (settles [] [] (AckFile.begin_flush (AckFile.complete_flush pending w)) final).0)

module _ {Q U : Type 0} ⦃b : UBig U⦄ (disk : Disk U) where
  fails :
      (file_id : UintN U) (header : WalHeader U) (settings : WalSettings)
      → disk.creates file_id ≡ false
      → new_file_writer {Q = Q} disk file_id header settings ≡ none
  unfolding new_file_writer AckFile.new
  fails file_id header settings no_file = rw no_file refl

  -- Where the next file cannot be created, `rotate` reports an error of the file system and leaves
  -- the closed writer in place: whatever is written to it from then on, and whatever its task does,
  -- nothing more reaches the file.
  pub rotate_fails :
      (entry_id : UintN U) (n : ℕ) (s : WriterState Q U)
      → disk.creates (increment s.file_id) ≡ false
      → s.file_writer.running ≡ true
      → let s' = left disk entry_id n s in
        (rotate disk entry_id n s ≡ (s', err io_error))
        × ((more : List (Written Q U)) (w : AckFileWriter Q U)
            → Runs s'.file_writer more w
            → w.file ≡ s'.file_writer.file)
  unfolding rotate
  rotate_fails entry_id n s no_file on =
      let none_there =
        fails (increment s.file_id) (next_header s.header entry_id n) s.settings no_file in
      (
        rw (rotate, none_there) refl,
        λ more w r.
            Runs-IsOver more _ w
              (close-IsOver s.file_writer (disk.pending s.file_id) (disk.final s.file_id) on) r,
      )
