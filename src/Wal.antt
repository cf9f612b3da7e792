-- ===== src/Wal.antt =====
-- `normfs-wal/src`: the write-ahead log of a queue. Its file format is a header and then the entries.
pub mod AckFile
pub mod Writer
pub mod Store
pub mod Header
pub mod Entry
pub mod Buffer
pub mod Stream
pub mod Reader
pub mod RangeRead
