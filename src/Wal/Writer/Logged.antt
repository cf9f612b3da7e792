-- ===== src/Wal/Writer/Logged.antt =====
-- `normfs-wal/src/writer.rs`: the files of a queue as logs of entries.
use normfs.Prelude.{
  ◌+◌, ◌^◌, ◌<◌, ◌≡◌, ◌∷◌, ◌++◌, [], ℕ, refl, Bool, true, List, map, append_assoc, arith, length,
  last, All,
}
use normfs.UintN.Codec.{size_in_bytes}
use normfs.Wal.AckFile.Holds.{Holds}
use normfs.Wal.Buffer.Release.{IsCounted}
use normfs.Wal.AckFile.Holds.{Written, acks_of, bytes_of}
use normfs.Wal.AckFile.Closed.{HasBytes}
use normfs.Wal.AckFile.Attempts.{IsClean, Succeeds}
use normfs.UintN.Codec.{is_valid_data_size}
use normfs.Wal.Writer.{Disk, Item, Ack, WriterState}
use normfs.Wal.Reader.Log.{EntryFits, log_bytes, record_bytes, size_lem}
use normfs.Wal.Header.RoundTrip.{header_bytes, IsWritable}
use normfs.Wal.Header.{WalHeader}
use normfs.UintN.{UintN, IsCanonical, value}
use normfs.UBig.{UBig}

-- A file, by its header and its entries.
pub record FileLog (U : Type 0) : Type 0 where
  pub file_id : UintN U
  pub header : WalHeader U
  pub entries : List (Item U)

-- The entries of the files that were left, and of the current one.
abbrev pub all_items : {U : Type 0} → List (FileLog U) → List (Item U) → List (Item U)
all_items [] entries = entries
all_items (file ∷ files) entries = file.entries ++ all_items files entries

pub all_items-append :
    {U : Type 0} (files : List (FileLog U)) (xs ys : List (Item U))
    → all_items files (xs ++ ys) ≡ all_items files xs ++ ys
all_items-append [] xs ys = refl
all_items-append (file ∷ files) xs ys =
    rw (all_items-append files xs ys, append_assoc file.entries (all_items files xs) ys) refl

pub all_items-left :
    {U : Type 0} (files : List (FileLog U)) (file : FileLog U) (xs : List (Item U))
    → all_items (files ++ (file ∷ [])) xs ≡ all_items files (file.entries ++ xs)
all_items-left [] file xs = refl
all_items-left (f ∷ files) file xs = rw (all_items-left files file xs) refl

-- The acknowledgements of entries.
abbrev pub item_acks : {Q U : Type 0} → Q → List (Item U) → List (Ack Q U)
item_acks q [] = []
item_acks q ((id, contents) ∷ items) = (q, id) ∷ item_acks q items

pub item_acks-append :
    {Q U : Type 0} (q : Q) (xs ys : List (Item U))
    → item_acks q (xs ++ ys) ≡ item_acks q xs ++ item_acks q ys
item_acks-append q [] ys = refl
item_acks-append q (x ∷ xs) ys = rw (item_acks-append q xs ys) refl

module _ {U : Type 0} ⦃b : UBig U⦄ where
  -- The number before the first entry is its id; where there is none, the id that comes next.
  abbrev pub Begins : ℕ → WalHeader U → List (Item U) → Type 0
  Begins n header [] = value header.num_entries_before ≡ n
  Begins n header (entry ∷ entries) = value header.num_entries_before ≡ value entry.0

  -- An id in canonical form, of a machine integer's size, and data that can be allocated.
  pub record IsEntry (entry : Item U) : Type 0 where
    pub id : IsCanonical entry.0
    pub id_size : is_valid_data_size (size_in_bytes entry.0) ≡ true
    pub small : length entry.1 < 2 ^ 63

  pub record IsHeader (header : WalHeader U) : Type 0 where
    pub id_size : is_valid_data_size header.id_size_bytes ≡ true
    pub data_size : is_valid_data_size header.data_size_bytes ≡ true
    pub writable : IsWritable header

  -- Every file can be created, the attempts to write succeed or leave the file as it was, and the
  -- last flush of each file succeeds in the end.
  pub record IsReliable (fsync : Bool) (disk : Disk U) : Type 0 where
    pub creates : (id : UintN U) → disk.creates id ≡ true
    pub pending : (id : UintN U) (k : ℕ) → IsClean fsync (disk.pending id k)
    pub final : (id : UintN U) (k : ℕ) → IsClean fsync (disk.final id k)
    pub succeeds : (id : UintN U) → Succeeds fsync (disk.final id)

module _ {Q U : Type 0} ⦃b : UBig U⦄ (xxh64 : List ℕ → ℕ) (q : Q) where
  -- What the writer of a file is given for its entries.
  abbrev pub writings : WalHeader U → List (Item U) → List (Written Q U)
  writings header [] = []
  writings header ((id, contents) ∷ items) =
      (q, id, record_bytes xxh64 header (id, contents)) ∷ writings header items

  pub writings-append :
      (header : WalHeader U) (xs ys : List (Item U))
      → writings header (xs ++ ys) ≡ writings header xs ++ writings header ys
  writings-append header [] ys = refl
  writings-append header (x ∷ xs) ys = rw (writings-append header xs ys) refl

  pub bytes_of-writings :
      (header : WalHeader U) (items : List (Item U))
      → bytes_of (writings header items) ≡ log_bytes xxh64 header items
  bytes_of-writings header [] = refl
  bytes_of-writings header (x ∷ xs) = rw (bytes_of-writings header xs) refl

  pub acks_of-writings :
      (header : WalHeader U) (items : List (Item U))
      → acks_of (writings header items) ≡ item_acks q items
  acks_of-writings header [] = refl
  acks_of-writings header (x ∷ xs) = rw (acks_of-writings header xs) refl

  pub writings-HasBytes :
      (header : WalHeader U) (items : List (Item U))
      → All (EntryFits xxh64 header) items
      → All HasBytes (writings header items)
  writings-HasBytes header [] fit = tt
  writings-HasBytes header (x ∷ xs) fit =
      (omega (arith, (size_lem xxh64 header x fit.0).1), writings-HasBytes header xs fit.1)

  -- A file's id and its bytes.
  abbrev pub file_bytes : FileLog U → UintN U × List ℕ
  file_bytes file =
      (file.file_id, header_bytes file.header ++ log_bytes xxh64 file.header file.entries)

  abbrev pub IsFile : FileLog U → Type 0
  IsFile file =
      IsHeader file.header
      × All (EntryFits xxh64 file.header) file.entries
      × ((n : ℕ) × Begins n file.header file.entries)

  -- The entries with the ids from `base` to below `n` stand in the files that were left and in the
  -- current one, each file a header and entries that fit it.
  pub record IsLogged (base : ℕ) (files : List (FileLog U)) (entries : List (Item U)) (n : ℕ)
      (s : WriterState Q U) : Type 0 where
    pub queue : s.queue_id ≡ q
    pub fsync : s.file_writer.settings.fsync ≡ s.settings.enable_fsync
    pub running : s.file_writer.running ≡ true
    pub counted : IsCounted base (all_items files entries)
    pub next : n ≡ base + length (all_items files entries)
    pub left_files : s.left_files ≡ map file_bytes files
    pub reported : map (λ f. f.file_id) s.wal_complete ≡ map (λ f. f.file_id) files
    pub acknowledged : last s.acknowledged ≡ last (item_acks q (all_items files []))
    pub are_files : All IsFile files
    pub header : IsHeader s.header
    pub fit : All (EntryFits xxh64 s.header) entries
    pub begins : Begins n s.header entries
    pub current : Holds (header_bytes s.header) (writings s.header entries) s.file_writer
