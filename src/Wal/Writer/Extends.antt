-- ===== src/Wal/Writer/Extends.antt =====
-- `normfs-wal/src/writer.rs`: entries that are written one after the other, over as many files as
-- they need.
use normfs.Prelude.{
  ◌+◌, ◌^◌, ◌<◌, ◌≡◌, ◌∙◌, ◌∷◌, ◌++◌, [], ℕ, suc, refl, sym, ap, inl, inr, true, false, List,
  append-nil, append_assoc, arith, Bool-cases, length, All, ok,
}
use normfs.Wal.Header
use mathlib.Core.Path.{subst}
use normfs.Wal.Writer.{
  WriterState, UBig, Disk, Item, needs_rotation, Result, append_entry, write_entries, write_entry,
  and_then,
}
use normfs.Wal.Buffer.Release.{IsCounted}
use normfs.Wal.Writer.Logged.{
  IsLogged, IsReliable, IsEntry, FileLog, all_items, all_items-append, all_items-left,
}
use normfs.Wal.Writer.Rotation.{
  after, append_entry_lem, after-IsLogged, rotate_lem, rotated-IsLogged, rotated, current_log,
}
use normfs.UintN.{value}
use normfs.UintN.Arith.{increment}
use normfs.Wal.Writer.Capacity.{next_header_lem}

module _ {Q U : Type 0} ⦃b : UBig U⦄ (xxh64 : List ℕ → ℕ)
    (xxh64_bound : (bs : List ℕ) → xxh64 bs < 2 ^ 64) (q : Q) (base : ℕ) where
  -- The operation succeeds, and the files hold the new entries behind those that they held.
  pub record Extends (files : List (FileLog U)) (entries : List (Item U)) (n : ℕ)
      (s : WriterState Q U) (more : List (Item U)) (r : Result Q U) : Type 0 where
    pub to_files : List (FileLog U)
    pub to_entries : List (Item U)
    pub state : WriterState Q U
    pub result : r ≡ (state, ok tt)
    pub logged : IsLogged xxh64 q base to_files to_entries (n + length more) state
    pub items : all_items to_files to_entries ≡ all_items files entries ++ more
    pub buffer : state.buffer ≡ s.buffer
    pub settings : state.settings ≡ s.settings

  settled :
      (files : List (FileLog U)) (entries : List (Item U)) (n : ℕ) (s : WriterState Q U)
      (more : List (Item U)) (r : Result Q U) (file : FileLog U) (s' : WriterState Q U)
      → file.entries ≡ entries
      → s'.buffer ≡ s.buffer
      → s'.settings ≡ s.settings
      → Extends (files ++ (file ∷ [])) [] n s' more r
      → Extends files entries n s more r
  settled files entries n s more r file s' same same_buffer same_settings x = record {
    to_files = x.to_files;
    to_entries = x.to_entries;
    state = x.state;
    result = x.result;
    logged = x.logged;
    items = rw (x.items, all_items-left files file [], append-nil file.entries, same) refl;
    buffer = x.buffer ∙ same_buffer;
    settings = x.settings ∙ same_settings;
  }

  staying :
      (entry : Item U) (s : WriterState Q U)
      → needs_rotation xxh64 entry s ≡ false
      → Header.can_hold_entry s.header entry.0 (length entry.1) ≡ true
  unfolding needs_rotation
  staying entry s stay = ground (arith, stay)

  module _ (disk : Disk U) where
    stays :
        (files : List (FileLog U)) (entries : List (Item U)) (n : ℕ) (entry : Item U)
        (s : WriterState Q U)
        → IsLogged xxh64 q base files entries n s
        → IsEntry entry
        → value entry.0 ≡ n
        → Header.can_hold_entry s.header entry.0 (length entry.1) ≡ true
        → Extends files entries n s (entry ∷ []) (append_entry xxh64 entry s)
    stays files entries n entry s l e is_next held = record {
      to_files = files;
      to_entries = entries ++ (entry ∷ []);
      state = after xxh64 xxh64_bound q base entry s;
      result = append_entry_lem xxh64 xxh64_bound q base entry s l.header e held;
      logged =
          subst
            (λ m.
              IsLogged xxh64 q base files (entries ++ (entry ∷ [])) m
                (after xxh64 xxh64_bound q base entry s))
            (omega arith)
            (after-IsLogged xxh64 xxh64_bound q base files entries n entry s l e held is_next);
      items = all_items-append files entries (entry ∷ []);
      buffer = refl;
      settings = refl;
    }

    rotates :
        (files : List (FileLog U)) (entries : List (Item U)) (n : ℕ) (entry : Item U)
        (s : WriterState Q U)
        → IsReliable s.settings.enable_fsync disk
        → IsLogged xxh64 q base files entries n s
        → IsEntry entry
        → value entry.0 ≡ n
        → needs_rotation xxh64 entry s ≡ true
        → Extends files entries n s (entry ∷ []) (write_entry xxh64 disk entry s)
    unfolding write_entry
    rotates files entries n entry s good l e is_next full =
        let s' = rotated xxh64 xxh64_bound q base disk entry s in
        let rotation =
          rotate_lem xxh64 xxh64_bound q base disk entry s (good.creates (increment s.file_id)) in
        let file = current_log xxh64 xxh64_bound q base s entries in
        let same : write_entry xxh64 disk entry s ≡ append_entry xxh64 entry s' =
          rw (write_entry, full, rotation) refl in
        let held = (next_header_lem s.header entry l.header e).1 in
        let l' =
          rotated-IsLogged xxh64 xxh64_bound q base disk files entries n entry s good l e is_next in
        rw same (
          settled files entries n s (entry ∷ []) (append_entry xxh64 entry s') file s' refl refl
            refl (stays (files ++ (file ∷ [])) [] n entry s' l' e is_next held))

    -- For an entry that can be written, with the id that comes next, where every file can be created
    -- and written: the body of the loop succeeds and appends the entry, to the current file or to a
    -- new one.
    pub write_entry-Extends :
        (files : List (FileLog U)) (entries : List (Item U)) (n : ℕ) (entry : Item U)
        (s : WriterState Q U)
        → IsReliable s.settings.enable_fsync disk
        → IsLogged xxh64 q base files entries n s
        → IsEntry entry
        → value entry.0 ≡ n
        → Extends files entries n s (entry ∷ []) (write_entry xxh64 disk entry s)
    unfolding write_entry
    write_entry-Extends files entries n entry s good l e is_next =
        elim (Bool-cases (needs_rotation xxh64 entry s)) [
          | inl full ↦ rotates files entries n entry s good l e is_next full
          | inr fits ↦
              let same : write_entry xxh64 disk entry s ≡ append_entry xxh64 entry s =
                rw (write_entry, fits) refl in
              rw same (stays files entries n entry s l e is_next (staying entry s fits))
        ]

    pub write_entries-Extends :
        (files : List (FileLog U)) (entries more : List (Item U)) (n : ℕ) (s : WriterState Q U)
        → IsReliable s.settings.enable_fsync disk
        → IsLogged xxh64 q base files entries n s
        → All IsEntry more
        → IsCounted n more
        → Extends files entries n s more (write_entries xxh64 disk more s)
    unfolding write_entries
    write_entries-Extends files entries [] n s good l es counted = record {
      to_files = files;
      to_entries = entries;
      state = s;
      result = refl;
      logged = subst (λ m. IsLogged xxh64 q base files entries m s) (omega arith) l;
      items = sym (append-nil (all_items files entries));
      buffer = refl;
      settings = refl;
    }
    write_entries-Extends files entries (entry ∷ more) n s good l es counted =
        let x = write_entry-Extends files entries n entry s good l es.0 counted.0 in
        let moved_on =
          subst (λ m. IsLogged xxh64 q base x.to_files x.to_entries m x.state) (omega arith)
            x.logged in
        let y =
          write_entries-Extends x.to_files x.to_entries more (suc n) x.state (rw x.settings good)
            moved_on es.1 counted.1 in
        record {
          to_files = y.to_files;
          to_entries = y.to_entries;
          state = y.state;
          result = ap (λ r. and_then r (write_entries xxh64 disk more)) x.result ∙ y.result;
          logged =
              subst (λ m. IsLogged xxh64 q base y.to_files y.to_entries m y.state) (omega arith)
                y.logged;
          items =
              rw (y.items, x.items, append_assoc (all_items files entries) (entry ∷ []) more) refl;
          buffer = y.buffer ∙ x.buffer;
          settings = y.settings ∙ x.settings;
        }
