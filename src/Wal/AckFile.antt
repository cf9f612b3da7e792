-- ===== src/Wal/AckFile.antt =====
-- `normfs-wal/src/ack_file_writer.rs`: the file that the log is appended to. Entries gather in a
-- buffer; a task writes the buffer to the file and acknowledges the last entry of it. What the file
-- system does at each attempt belongs to the environment. `flush_buffer` is `begin_flush`, under the
-- lock of the state, and `complete_flush`, without it: a `write` may come between. The time between
-- two ticks and the pause between two attempts are left out.
pub mod Attempts
pub mod Holds
pub mod Runs
pub mod Closed
pub mod Keeps
use normfs.Prelude.{
  ◌+◌, ◌&&◌, ◌||◌, ◌∷◌, ◌++◌, if◌then◌else◌, [], ℕ, suc, Bool, true, false, not, Option, none, some,
  List, leb, length, take, last, zero, is_some,
}
use normfs.UintN.{UintN}

-- The queue and the id of an entry, to be acknowledged.
abbrev pub Ack : Type 0 → Type 0 → Type 0
Ack Q U = Q × UintN U

pub record AckFileWriterSettings : Type 0 where
  pub max_buffer_size : ℕ
  pub max_file_size : ℕ
  pub fsync : Bool

pub record WriterState (Q U : Type 0) : Type 0 where
  pub buffer : List ℕ
  pub acks : List (Ack Q U)
  pub current_size : ℕ

-- What `flush_buffer` has taken out of the state, and not yet written.
pub record Batch (Q U : Type 0) : Type 0 where
  pub contents : List ℕ
  pub acks_to_send : List (Ack Q U)

-- The writer with its task, the bytes of its file, and the acknowledgements that have been sent.
pub record AckFileWriter (Q U : Type 0) : Type 0 where
  pub settings : AckFileWriterSettings
  pub state : WriterState Q U
  pub file : List ℕ
  pub sent : List (Ack Q U)
  pub flushing : Option (Batch Q U)
  pub buffer_full : Bool
  pub running : Bool

-- One attempt: `write_all` fails after some bytes, or it succeeds and `sync_all` does so or not.
pub data Attempt : Type 0 where
  write_failed : ℕ → Attempt
  written : (synced : Bool) → Attempt

abbrev pub max_retries : ℕ
max_retries = 1000

unfoldable pub succeeded : (fsync : Bool) → Attempt → Bool
succeeded fsync (write_failed n) = false
succeeded fsync (written synced) = not fsync || synced

-- The bytes that an attempt brings to the file.
unfoldable pub reached : Attempt → List ℕ → List ℕ
reached (write_failed n) bytes = take n bytes
reached (written synced) bytes = bytes

-- The loop of `flush_buffer`: the attempts that are left, and the number of the next one.
unfoldable pub write_attempts : Bool → (ℕ → Attempt) → List ℕ → ℕ → ℕ → List ℕ → List ℕ × Bool
write_attempts fsync io bytes zero attempt file = (file, false)
write_attempts fsync io bytes (suc left) attempt file = elim (succeeded fsync (io attempt)) [
  | true ↦ (file ++ bytes, true)
  | false ↦ write_attempts fsync io bytes left (suc attempt) (file ++ reached (io attempt) bytes)
]

-- What the task waits for, besides the shutdown.
pub data Wake : Type 0 where
  full tick : Wake

module _ {Q U : Type 0} where
  abbrev pub opened : AckFileWriterSettings → List ℕ → AckFileWriter Q U
  opened settings header = record {
    settings = settings;
    state = record { buffer = []; acks = []; current_size = length header };
    file = header;
    sent = [];
    flushing = none;
    buffer_full = false;
    running = true;
  }

  -- `none` where the directory or the file cannot be made, or the header cannot be written.
  unfoldable pub new :
      (created : Bool) → AckFileWriterSettings → List ℕ → Option (AckFileWriter Q U)
  new created settings header = if created then some (opened settings header) else none

  unfoldable pub can_add : ℕ → AckFileWriter Q U → Bool
  can_add size w = leb (w.state.current_size + size) w.settings.max_file_size

  unfoldable pub write : Q → UintN U → List ℕ → AckFileWriter Q U → AckFileWriter Q U
  write queue_id entry_id entry w =
      let buffer = w.state.buffer ++ entry in
      record w {
        state = record {
          buffer = buffer;
          acks = w.state.acks ++ ((queue_id, entry_id) ∷ []);
          current_size = w.state.current_size + length entry;
        };
        buffer_full = w.buffer_full || leb w.settings.max_buffer_size (length buffer);
      }

  abbrev vec : Option (Ack Q U) → List (Ack Q U)
  vec none = []
  vec (some ack) = ack ∷ []

  -- The last acknowledgement stands for those before it.
  abbrev pub last_ack : List (Ack Q U) → List (Ack Q U)
  last_ack acks = vec (last acks)

  -- The buffer and the last acknowledgement leave the state.
  abbrev pub taken : AckFileWriter Q U → AckFileWriter Q U
  taken w = record w {
    state = record { buffer = []; acks = []; current_size = w.state.current_size };
    flushing = some (record { contents = w.state.buffer; acks_to_send = last_ack w.state.acks });
  }

  unfoldable pub begin_flush : AckFileWriter Q U → AckFileWriter Q U
  begin_flush w = elim w.state.buffer [ [] ↦ w | byte ∷ bytes ↦ taken w ]

  -- The acknowledgements are sent, or both go back in front of what has come since.
  abbrev pub finish_flush : Batch Q U → List ℕ × Bool → AckFileWriter Q U → AckFileWriter Q U
  finish_flush batch (file, true) w = record w {
    file = file;
    sent = w.sent ++ batch.acks_to_send;
    flushing = none;
  }
  finish_flush batch (file, false) w = record w {
    file = file;
    flushing = none;
    state = record {
      buffer = batch.contents ++ w.state.buffer;
      acks = batch.acks_to_send ++ w.state.acks;
      current_size = w.state.current_size;
    };
  }

  unfoldable pub complete_flush : (ℕ → Attempt) → AckFileWriter Q U → AckFileWriter Q U
  complete_flush io w = elim w.flushing [
    | none ↦ w
    | some batch ↦
        finish_flush batch (write_attempts w.settings.fsync io batch.contents max_retries 0 w.file)
          w
  ]

  unfoldable pub is_ready : Wake → AckFileWriter Q U → Bool
  is_ready full w = w.running && (not (is_some w.flushing) && w.buffer_full)
  is_ready tick w = w.running && not (is_some w.flushing)

  unfoldable pub wake_up : Wake → AckFileWriter Q U → AckFileWriter Q U
  wake_up full w = begin_flush (record w { buffer_full = false })
  wake_up tick w = begin_flush w

  -- The shutdown waits for the flush that is under way, flushes once more and ends the task.
  abbrev pub shut : (pending final : ℕ → Attempt) → AckFileWriter Q U → AckFileWriter Q U
  shut pending final w = record (complete_flush final (begin_flush (complete_flush pending w))) {
    running = false;
  }

  unfoldable pub close : (pending final : ℕ → Attempt) → AckFileWriter Q U → AckFileWriter Q U
  close pending final w = if w.running then shut pending final w else w
