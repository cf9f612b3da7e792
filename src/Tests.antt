-- ===== src/Tests.antt =====
-- The theorems at concrete inputs, and runs of the code. The big numbers are the naturals here.
mod Start
mod Writer
mod BigNat
mod UintN
mod Wal
mod Mem
mod Buffer
mod Store
mod StoreData
mod Reader
mod Lookup
mod Fsm
