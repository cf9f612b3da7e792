-- ===== src/Wal/Writer/Turns.antt =====
-- `normfs-wal/src/writer.rs`: the requests that a writer serves, with the flushes between them.
use normfs.Prelude.{
  ◌+◌, ◌^◌, ◌<◌, ◌≡◌, ◌∙◌, ◌∷◌, ◌++◌, [], ℕ, refl, sym, ap, Bool, List, append-nil, append_assoc,
  arith, length, All, All-append, ok,
}
use normfs.Wal.AckFile.Holds.{Holds}
use normfs.Wal.Writer
use normfs.Wal.Header.RoundTrip.{header_bytes}
use normfs.Wal.AckFile.Keeps.{Runs-Keeps}
use normfs.Wal.Writer.Extends.{write_entries-Extends}
use mathlib.Core.List.{Permᴰ}
use mathlib.Core.List.Permᴰ
use mathlib.Core.Path.{subst}
use normfs.Wal.Writer.{
  WriterState, UBig, SortById, Disk, Item, Result, write_batch, OrderedBuffer, and_then,
  entries_to_write, handle, enqueue, enqueue_batch,
}
use normfs.Wal.AckFile.{AckFileWriter}
use normfs.Wal.AckFile.Runs.{Runs, Runs-Holds}
use normfs.Wal.Buffer.Release.{IsValid, All-Permᴰ, All-append_parts}
use normfs.Wal.Buffer.Writes.{entries_to_write_lem}
use normfs.Wal.Writer.Logged.{IsLogged, IsReliable, IsEntry, FileLog, all_items, writings}
use normfs.Wal.Writer.Served.{Served, entries_to_write-Served}
use normfs.UintN.Last.{next_value}

module _ {Q U : Type 0} ⦃b : UBig U⦄ (xxh64 : List ℕ → ℕ)
    (xxh64_bound : (bs : List ℕ) → xxh64 bs < 2 ^ 64) (sort : SortById U) (q : Q) (base : ℕ) where
  -- The entries that arrived are those in the files, in order, and those that wait.
  pub record IsWriting (arrived : List (Item U)) (s : WriterState Q U) : Type 0 where
    pub files : List (FileLog U)
    pub entries : List (Item U)
    pub logged : IsLogged xxh64 q base files entries (next_value s.buffer.last_written_id) s
    pub valid : IsValid s.buffer
    pub waiting : All IsEntry s.buffer.pending
    pub parts : Permᴰ arrived (all_items files entries ++ s.buffer.pending)
    pub served : Served base arrived (all_items files entries) s.buffer.pending

  -- The operation succeeds, and the entries have arrived.
  abbrev pub Accepts : Bool → List (Item U) → Result Q U → Type 0
  Accepts fsync arrived r =
      (s : WriterState Q U) × (r ≡ (s, ok tt))
      × IsWriting arrived s
      × (s.settings.enable_fsync ≡ fsync)

  module _ (disk : Disk U) where
    rearranged :
        (xs ys zs pending arrived : List (Item U)) (entry : Item U)
        → Permᴰ arrived (xs ++ pending)
        → Permᴰ (pending ++ (entry ∷ [])) (ys ++ zs)
        → Permᴰ (arrived ++ (entry ∷ [])) ((xs ++ ys) ++ zs)
    rearranged xs ys zs pending arrived entry p r =
        subst (λ l. Permᴰ (arrived ++ (entry ∷ [])) l) (sym (append_assoc xs ys zs))
          (Permᴰ.trans
            (subst (λ l. Permᴰ (arrived ++ (entry ∷ [])) l) (append_assoc xs pending (entry ∷ []))
              (Permᴰ.append_right (entry ∷ []) p))
            (Permᴰ.append_left xs r))

    rebuffered :
        (files : List (FileLog U)) (entries : List (Item U)) (n : ℕ) (s : WriterState Q U)
        (buffer : OrderedBuffer U)
        → IsLogged xxh64 q base files entries n s
        → IsLogged xxh64 q base files entries n (record s { buffer = buffer })
    rebuffered files entries n s buffer l = record {
      queue = l.queue;
      fsync = l.fsync;
      running = l.running;
      counted = l.counted;
      next = l.next;
      left_files = l.left_files;
      reported = l.reported;
      acknowledged = l.acknowledged;
      are_files = l.are_files;
      header = l.header;
      fit = l.fit;
      begins = l.begins;
      current = l.current;
    }

    -- Where every file can be created and written: one more entry that arrives, whatever its id, is
    -- served without an error.
    pub write-Accepts :
        (arrived : List (Item U)) (entry : Item U) (s : WriterState Q U)
        → IsReliable s.settings.enable_fsync disk
        → IsWriting arrived s
        → IsEntry entry
        → Accepts s.settings.enable_fsync
            (arrived ++ (entry ∷ []))
            (Writer.write xxh64 sort disk entry s)
    unfolding Writer.write
    write-Accepts arrived entry s good w e =
        let r = entries_to_write sort entry s.buffer in
        let before = next_value s.buffer.last_written_id in
        let (counted, moved_on, parts, valid) =
          entries_to_write_lem sort entry s.buffer w.valid e.id in
        let (ready, waits) = All-append_parts IsEntry r.0 r.1.pending (
          All-Permᴰ IsEntry parts
            (All-append IsEntry s.buffer.pending (entry ∷ []) w.waiting (e, tt))) in
        let x =
          write_entries-Extends xxh64 xxh64_bound q base disk w.files w.entries r.0 before
            (record s { buffer = r.1 }) good (rebuffered w.files w.entries before s r.1 w.logged)
            ready counted in
        let written = all_items w.files w.entries in
        let serves =
          entries_to_write-Served sort base arrived written entry s.buffer w.valid e.id w.served
            (omega (arith, w.logged.next)) in
        let at : before + length r.0 ≡ next_value x.state.buffer.last_written_id =
          sym moved_on ∙ ap (λ b. next_value b.last_written_id) (sym x.buffer) in
        (
          x.state,
          x.result,
          record {
            files = x.to_files;
            entries = x.to_entries;
            logged =
                subst (λ n. IsLogged xxh64 q base x.to_files x.to_entries n x.state) at x.logged;
            valid = subst (λ b. IsValid b) (sym x.buffer) valid;
            waiting = subst (λ b. All IsEntry b.pending) (sym x.buffer) waits;
            parts =
                subst
                  (λ b.
                    Permᴰ (arrived ++ (entry ∷ []))
                      (all_items x.to_files x.to_entries ++ b.pending))
                  (sym x.buffer)
                  (rw x.items (
                    rearranged (all_items w.files w.entries) r.0 r.1.pending s.buffer.pending
                      arrived entry w.parts parts));
            served =
                subst
                  (λ b.
                    Served base (arrived ++ (entry ∷ [])) (all_items x.to_files x.to_entries)
                      b.pending)
                  (sym x.buffer) (rw x.items serves);
          },
          ap (λ t. t.enable_fsync) x.settings,
        )

    pub write_batch-Accepts :
        (arrived entries : List (Item U)) (s : WriterState Q U)
        → IsReliable s.settings.enable_fsync disk
        → IsWriting arrived s
        → All IsEntry entries
        → Accepts s.settings.enable_fsync
            (arrived ++ entries)
            (write_batch xxh64 sort disk entries s)
    unfolding write_batch
    write_batch-Accepts arrived [] s good w es = (s, refl, rw (append-nil arrived) w, refl)
    write_batch-Accepts arrived (entry ∷ entries) s good w es =
        let (s1, e1, w1, f1) = write-Accepts arrived entry s good w es.0 in
        let (s2, e2, w2, f2) =
          write_batch-Accepts (arrived ++ (entry ∷ [])) entries s1 (rw f1 good) w1 es.1 in
        (
          s2,
          ap (λ r. and_then r (write_batch xxh64 sort disk entries)) e1 ∙ e2,
          rw (← append_assoc arrived (entry ∷ []) entries) w2,
          f2 ∙ f1,
        )

    -- A request that is served, or steps of the task of the file writer.
    pub data Turn : WriterState Q U → List (Item U) → WriterState Q U → Type 0 where
      enqueues :
          (s : WriterState Q U) (entry : Item U)
          → Turn s (entry ∷ []) (handle xxh64 sort disk (enqueue entry.0 entry.1) s)
      batches :
          (s : WriterState Q U) (entries : List (Item U))
          → Turn s entries (handle xxh64 sort disk (enqueue_batch entries) s)
      flushes :
          (s : WriterState Q U) (w : AckFileWriter Q U)
          → Runs s.file_writer [] w
          → Turn s [] (record s { file_writer = w })

    pub data Turns : WriterState Q U → List (Item U) → WriterState Q U → Type 0 where
      here : (s : WriterState Q U) → Turns s [] s
      onward :
          (s s' s'' : WriterState Q U) (more most : List (Item U))
          → Turn s more s'
          → Turns s' most s''
          → Turns s (more ++ most) s''

    flushed :
        (arrived : List (Item U)) (s : WriterState Q U) (w : AckFileWriter Q U)
        → IsWriting arrived s
        → Runs s.file_writer [] w
        → IsWriting arrived (record s { file_writer = w })
    flushed arrived s w k r =
        let l = k.logged in
        let (same, still) = Runs-Keeps [] s.file_writer w r in
        let h =
          Runs-Holds (header_bytes s.header) (writings xxh64 q s.header k.entries) [] s.file_writer
            w l.current r in
        record {
          files = k.files;
          entries = k.entries;
          logged = record {
            queue = l.queue;
            fsync = ap (λ t. t.fsync) same ∙ l.fsync;
            running = still ∙ l.running;
            counted = l.counted;
            next = l.next;
            left_files = l.left_files;
            reported = l.reported;
            acknowledged = l.acknowledged;
            are_files = l.are_files;
            header = l.header;
            fit = l.fit;
            begins = l.begins;
            current =
                subst (λ log. Holds (header_bytes s.header) log w)
                  (append-nil (writings xxh64 q s.header k.entries)) h;
          };
          valid = k.valid;
          waiting = k.waiting;
          parts = k.parts;
          served = k.served;
        }

    Turn-IsWriting :
        (arrived more : List (Item U)) (s s' : WriterState Q U)
        → IsReliable s.settings.enable_fsync disk
        → IsWriting arrived s
        → All IsEntry more
        → Turn s more s'
        → IsWriting (arrived ++ more) s' × (s'.settings.enable_fsync ≡ s.settings.enable_fsync)
    unfolding handle
    Turn-IsWriting arrived more s s' good w es (enqueues _ entry) =
        let (s1, e, w1, f) = write-Accepts arrived entry s good w es.0 in
        let same : (Writer.write xxh64 sort disk entry s).0 ≡ s1 = ap (λ r. r.0) e in
        rw same (w1, f)
    Turn-IsWriting arrived more s s' good w es (batches _ entries) =
        let (s1, e, w1, f) = write_batch-Accepts arrived entries s good w es in
        let same : (write_batch xxh64 sort disk entries s).0 ≡ s1 = ap (λ r. r.0) e in
        rw same (w1, f)
    Turn-IsWriting arrived more s s' good w es (flushes _ fw r) =
        rw (append-nil arrived) (flushed arrived s fw w r, refl)

    pub Turns-IsWriting :
        (arrived more : List (Item U)) (s s' : WriterState Q U)
        → IsReliable s.settings.enable_fsync disk
        → IsWriting arrived s
        → All IsEntry more
        → Turns s more s'
        → IsWriting (arrived ++ more) s' × (s'.settings.enable_fsync ≡ s.settings.enable_fsync)
    Turns-IsWriting arrived more s s' good w es (here _) = (rw (append-nil arrived) w, refl)
    Turns-IsWriting arrived more s s' good w es (onward _ s1 _ few most t ts) =
        let (now, later) = All-append_parts IsEntry few most es in
        let (w1, f) = Turn-IsWriting arrived few s s1 good w now t in
        let (w2, g) = Turns-IsWriting (arrived ++ few) most s1 s' (rw f good) w1 later ts in
        (rw (← append_assoc arrived few most) w2, g ∙ f)
