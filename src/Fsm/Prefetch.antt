-- ===== src/Fsm/Prefetch.antt =====
-- `normfs/src/reader_fsm/fsm.rs`: a prefetch finds what the states of the read find.
use normfs.Prelude.{
  ◌≡◌, ℕ, refl, inl, inr, true, false, Option, none, some, List, arith, Option-cases, Outcome, ok,
  err, panic,
}
use normfs.UBig.{UBig}
use normfs.Types.{DataSource}
use normfs.Lookup.{StoreError}
use normfs.Wal.Reader.{WalError}
use normfs.Types.{DataSource, disk_store, disk_wal, cloud}
use normfs.Fsm.Handlers.{handle_read_file, handle_read_store, handle_read_wal, is_cloud}
use normfs.Fsm.{
  prefetch_wal, wal, store, read_wal, read_store, read_file, CloudError, prefetch_s3,
  no_files_found, cloud_error, read_s3, FsError, Backends, ReadContext, ReaderState, Fetched,
  extracted, no_files_found, cloud_error, extract_wal_bytes, parse_wal_bytes, read_next_file,
  failed, StoreError, UintN, cloud, prefetch_next_file,
}
use normfs.Fsm.Handlers.{handle_extract_wal_bytes, is_cloud, handle_read_s3}
use normfs.Fsm.Run.{transition, Reaches, here, onward}

module _ {U W : Type 0} ⦃b : UBig U⦄ (backends : Backends U W) (step : ℕ) (ctx : ReadContext U)
    (w : W) where
  -- Where the read goes on, by what the prefetch of its file gives: to parse the same bytes, to the
  -- next file, or to a failure with the same error. Where the cloud has no files the prefetch is an error, and
  -- the read goes on to the next file. A panic is not compared.
  abbrev pub GoesOn : ReaderState U → Outcome (FsError U) Fetched → Type 0
  GoesOn s (ok (some (wal_bytes, source))) =
      Reaches backends step s w (parse_wal_bytes ctx wal_bytes source none) w
  GoesOn s (ok none) = Reaches backends step s w (read_next_file ctx.file_id ctx none) w
  GoesOn s (err (cloud_error no_files_found)) =
      Reaches backends step s w (read_next_file ctx.file_id ctx none) w
  GoesOn s (err e) = Reaches backends step s w (failed e) w
  GoesOn s panic = Unit {0}

  module _ (open_channel : backends.is_closed w ≡ false) where
    extract-GoesOn :
        (store_bytes : List ℕ) (source : DataSource) (r : Outcome (StoreError U) (List ℕ))
        → backends.store_extract_wal_bytes ctx.file_id store_bytes (is_cloud source) ≡ r
        → GoesOn (extract_wal_bytes ctx store_bytes source) (extracted r source)
    unfolding transition handle_extract_wal_bytes extracted
    extract-GoesOn store_bytes source (ok wal_bytes) q =
        onward (ground (arith, open_channel, q)) here
    extract-GoesOn store_bytes source (err e) q = onward (ground (arith, open_channel, q)) here
    extract-GoesOn store_bytes source panic q = tt

    -- A step in the same world puts a state before.
    before :
        (s s' : ReaderState U) (r : Outcome (FsError U) Fetched)
        → transition backends s step w ≡ (w, ok s')
        → GoesOn s' r
        → GoesOn s r
    before s s' (ok (some (bytes, source))) q h = onward q h
    before s s' (ok none) q h = onward q h
    before s s' (err (cloud_error no_files_found)) q h = onward q h
    before s s' (err e) q h = onward q h
    before s s' panic q h = tt

    s3-GoesOn :
        (get_bytes : UintN U → Outcome (CloudError U) (Option (List ℕ)))
        → backends.s3_downloader ≡ some get_bytes
        → (r : Outcome (CloudError U) (Option (List ℕ))) → get_bytes ctx.file_id ≡ r
        → GoesOn (read_s3 ctx) (prefetch_s3 backends ctx.file_id)
    unfolding transition handle_read_s3 prefetch_s3 is_cloud
    s3-GoesOn get_bytes o (ok (some bytes)) q =
        let found : prefetch_s3 backends ctx.file_id
            ≡ extracted (backends.store_extract_wal_bytes ctx.file_id bytes true) cloud =
          ground (arith, o, q) in
        rw found (
          before (read_s3 ctx) (extract_wal_bytes ctx bytes cloud) _
            (ground (arith, open_channel, o, q))
            (extract-GoesOn bytes cloud (backends.store_extract_wal_bytes ctx.file_id bytes true)
              refl))
    s3-GoesOn get_bytes o (ok none) q =
        let found : prefetch_s3 backends ctx.file_id ≡ ok none = ground (arith, o, q) in
        rw found (onward (ground (arith, open_channel, o, q)) here)
    s3-GoesOn get_bytes o panic q =
        let found : prefetch_s3 backends ctx.file_id ≡ panic = ground (arith, o, q) in rw found tt
    s3-GoesOn get_bytes o (err no_files_found) q =
        let found : prefetch_s3 backends ctx.file_id ≡ err (cloud_error no_files_found) =
          ground (arith, o, q) in
        rw found (onward (ground (arith, open_channel, o, q)) here)
    s3-GoesOn get_bytes o (err e) q =
        let found : prefetch_s3 backends ctx.file_id ≡ err (cloud_error e) = ground (arith, o, q) in
        rw found (onward (ground (arith, open_channel, o, q)) here)

    wal-GoesOn :
        (r : Outcome (WalError U) (Option (List ℕ)))
        → backends.get_wal_bytes ctx.file_id ≡ r
        → GoesOn (read_wal ctx) (prefetch_wal backends ctx.file_id)
    unfolding transition handle_read_wal prefetch_wal prefetch_s3
    wal-GoesOn (ok (some bytes)) q =
        let found : prefetch_wal backends ctx.file_id ≡ ok (some (bytes, disk_wal)) =
          ground (arith, q) in
        rw found (onward (ground (arith, open_channel, q)) here)
    wal-GoesOn panic q =
        let found : prefetch_wal backends ctx.file_id ≡ panic = ground (arith, q) in rw found tt
    wal-GoesOn (err e) q =
        let found : prefetch_wal backends ctx.file_id ≡ err (wal e) = ground (arith, q) in
        rw found (onward (ground (arith, open_channel, q)) here)
    wal-GoesOn (ok none) q = elim (Option-cases backends.s3_downloader) [
      | inl o ↦
          let found : prefetch_wal backends ctx.file_id ≡ ok none = ground (arith, q, o) in
          rw found (onward (ground (arith, open_channel, q, o)) here)
      | inr (get_bytes, o) ↦
          let found : prefetch_wal backends ctx.file_id ≡ prefetch_s3 backends ctx.file_id =
            ground (arith, q) in
          rw found (
            before (read_wal ctx) (read_s3 ctx) _ (ground (arith, open_channel, q, o))
              (s3-GoesOn get_bytes o (get_bytes ctx.file_id) refl))
    ]

    store-GoesOn :
        (r : Outcome (StoreError U) (Option (List ℕ)))
        → backends.get_store_bytes ctx.file_id ≡ r
        → GoesOn (read_store ctx) (prefetch_next_file backends ctx.file_id)
    unfolding transition handle_read_store prefetch_next_file is_cloud
    store-GoesOn (ok (some bytes)) q =
        let found : prefetch_next_file backends ctx.file_id
            ≡ extracted (backends.store_extract_wal_bytes ctx.file_id bytes false) disk_store =
          ground (arith, q) in
        rw found (
          before (read_store ctx) (extract_wal_bytes ctx bytes disk_store) _
            (ground (arith, open_channel, q))
            (extract-GoesOn bytes disk_store
              (backends.store_extract_wal_bytes ctx.file_id bytes false) refl))
    store-GoesOn panic q =
        let found : prefetch_next_file backends ctx.file_id ≡ panic = ground (arith, q) in
        rw found tt
    store-GoesOn (err e) q =
        let found : prefetch_next_file backends ctx.file_id ≡ err (store e) = ground (arith, q) in
        rw found (onward (ground (arith, open_channel, q)) here)
    store-GoesOn (ok none) q =
        let found : prefetch_next_file backends ctx.file_id ≡ prefetch_wal backends ctx.file_id =
          ground (arith, q) in
        rw found (
          before (read_store ctx) (read_wal ctx) _ (ground (arith, open_channel, q))
            (wal-GoesOn (backends.get_wal_bytes ctx.file_id) refl))

    -- On an open channel the states of a read of a file, from `read_file` on, go where the prefetch of
    -- that file says: they parse the same bytes from the same source, go on to the next file, or
    -- fail with the same error; but where the cloud has no files, which the prefetch gives as an
    -- error, they go on to the next file.
    pub read_file-prefetch_next_file :
        GoesOn (read_file ctx) (prefetch_next_file backends ctx.file_id)
    unfolding transition handle_read_file
    read_file-prefetch_next_file =
        before (read_file ctx) (read_store ctx) _ (ground (arith, open_channel))
          (store-GoesOn (backends.get_store_bytes ctx.file_id) refl)
