-- ===== src/Fsm/Handlers.antt =====
-- `normfs/src/reader_fsm/fsm.rs`: a handler per state, and the run of a read. A handler takes a world and
-- gives one, with the next state or an error.
use normfs.Prelude.{
  ◌-◌, ◌*◌, ◌^◌, ◌&&◌, ◌==◌, if◌then◌else◌, ◌>>=◌, ℕ, Bool, true, false, Option, none, some, List,
  leb, Outcome, ok, err, panic, is_some,
}
use normfs.UBig.{UBig}
use normfs.UintN.{UintN, from_u64}
use normfs.UintN.Order.{lt, gt}
use normfs.UintN.Arith.{add, increment}
use normfs.Types.{DataSource, disk_store, disk_wal, cloud}
use normfs.Wal.RangeRead.{complete, channel_closed, partial_read}
use normfs.Fsm.{
  FsError, Backends, ReadContext, ReaderState, PrefetchHandle, prefetch_next_file,
  client_disconnected, queue_not_found, not_found, io_error, wal, store, cloud_error,
  no_files_found, lookup_file, read_file, read_store, read_wal, read_s3, extract_wal_bytes,
  parse_wal_bytes, read_next_file, subscribed, completed, failed,
}

-- A closed channel fails the read before anything else.
abbrev pub unless_closed :
    {U W : Type 0}
    → Backends U W
    → W
    → W × Outcome (FsError U) (ReaderState U)
    → W × Outcome (FsError U) (ReaderState U)
unless_closed backends w rest =
    if backends.is_closed w then (w, ok (failed client_disconnected)) else rest

-- `matches!(data_source, DataSource::Cloud)`
unfoldable pub is_cloud : DataSource → Bool
is_cloud cloud = true
is_cloud source = false

module _ {U W : Type 0} ⦃b : UBig U⦄ (backends : Backends U W) where
  -- `start_id + (limit - 1) * step` for a limit other than zero; the product of `u64` may pass 2^64,
  -- which is a panic.
  unfoldable pub end_of : UintN U → ℕ → ℕ → Outcome (FsError U) (UintN U)
  end_of start_id limit step =
      if leb (2 ^ 64) ((limit - 1) * step)
      then panic
      else ok (add start_id (from_u64 ((limit - 1) * step)))

  unfoldable pub handle_lookup_positive :
      UintN U → ℕ → ℕ → W → W × Outcome (FsError U) (ReaderState U)
  handle_lookup_positive start_id limit step w = unless_closed backends w (
      if limit == 0
      then (let (result, w') = backends.mem_follow_full start_id start_id step w in
          if result.success && is_some result.subscription_id
          then (w', ok subscribed)
          else (w', ok (lookup_file start_id none step)))
      else elim (end_of start_id limit step) [
        | panic ↦ (w, panic)
        | err e ↦ (w, err e)
        | ok end_id ↦
            let (result, w') = backends.mem_read_full start_id end_id step w in
            if result.success
            then (w', ok completed)
            else (w', ok (lookup_file start_id (some end_id) step))
      ])

  unfoldable pub handle_lookup_negative :
      UintN U → ℕ → ℕ → W → W × Outcome (FsError U) (ReaderState U)
  handle_lookup_negative offset limit step w = unless_closed backends w (
      if limit == 0
      then (let (result, w') = backends.mem_follow_full_negative offset step w in
          if result.success && is_some result.subscription_id
          then (w', ok subscribed)
          else elim result.start_id [
            | none ↦ (w', err queue_not_found)
            | some start_id ↦ (w', ok (lookup_file start_id none step))
          ])
      else (let (result, w') = backends.mem_read_full_negative offset step limit w in
          if result.success then (w', ok completed) else elim result.start_id [
            | none ↦ (w', err queue_not_found)
            | some start_id ↦ (
              w',
              end_of start_id limit step >>= λ end_id. ok (lookup_file start_id (some end_id) step),
            )
          ]))

  unfoldable pub handle_lookup_file :
      UintN U → Option (UintN U) → ℕ → W → W × Outcome (FsError U) (ReaderState U)
  handle_lookup_file start_id end_id step w =
      unless_closed backends w (elim (backends.find_file_with_s3 start_id) [
        | panic ↦ (w, panic)
        | err e ↦ (w, ok (failed not_found))
        | ok none ↦ (w, ok (failed queue_not_found))
        | ok (some file_id) ↦ (
          w,
          ok (
              read_file
                (record { file_id = file_id; next_id = start_id; step = step; last_id = end_id })),
        )
      ])

  unfoldable pub handle_read_file : ReadContext U → W → W × Outcome (FsError U) (ReaderState U)
  handle_read_file ctx w = unless_closed backends w (w, ok (read_store ctx))

  unfoldable pub handle_read_store : ReadContext U → W → W × Outcome (FsError U) (ReaderState U)
  handle_read_store ctx w = unless_closed backends w (elim (backends.get_store_bytes ctx.file_id) [
    | panic ↦ (w, panic)
    | err e ↦ (w, ok (failed (store e)))
    | ok none ↦ (w, ok (read_wal ctx))
    | ok (some store_bytes) ↦ (w, ok (extract_wal_bytes ctx store_bytes disk_store))
  ])

  unfoldable pub handle_read_wal : ReadContext U → W → W × Outcome (FsError U) (ReaderState U)
  handle_read_wal ctx w = unless_closed backends w (elim (backends.get_wal_bytes ctx.file_id) [
    | panic ↦ (w, panic)
    | err e ↦ (w, ok (failed (wal e)))
    | ok (some wal_bytes) ↦ (w, ok (parse_wal_bytes ctx wal_bytes disk_wal none))
    | ok none ↦
        if is_some backends.s3_downloader
        then (w, ok (read_s3 ctx))
        else (w, ok (read_next_file ctx.file_id ctx none))
  ])

  unfoldable pub handle_read_s3 : ReadContext U → W → W × Outcome (FsError U) (ReaderState U)
  handle_read_s3 ctx w = unless_closed backends w (elim backends.s3_downloader [
    | none ↦ (w, ok (failed not_found))
    | some get_bytes ↦ elim (get_bytes ctx.file_id) [
      | panic ↦ (w, panic)
      | ok (some store_bytes) ↦ (w, ok (extract_wal_bytes ctx store_bytes cloud))
      | ok none ↦ (w, ok (read_next_file ctx.file_id ctx none))
      | err no_files_found ↦ (w, ok (read_next_file ctx.file_id ctx none))
      | err e ↦ (w, ok (failed (cloud_error e)))
    ]
  ])

  unfoldable pub handle_extract_wal_bytes :
      ReadContext U → List ℕ → DataSource → W → W × Outcome (FsError U) (ReaderState U)
  handle_extract_wal_bytes ctx store_bytes source w =
      unless_closed backends w
        (elim (backends.store_extract_wal_bytes ctx.file_id store_bytes (is_cloud source)) [
          | panic ↦ (w, panic)
          | err e ↦ (w, ok (read_next_file ctx.file_id ctx none))
          | ok wal_bytes ↦ (w, ok (parse_wal_bytes ctx wal_bytes source none))
        ])

  -- The next file is fetched ahead in a sequential read that does not end in this one.
  unfoldable pub should_prefetch : ReadContext U → Bool
  should_prefetch ctx =
      ctx.step == 1 && elim ctx.last_id [ none ↦ true | some last_id ↦ lt ctx.next_id last_id ]

  unfoldable pub handle_parse_wal_bytes :
      ReadContext U → List ℕ → DataSource → W → W × Outcome (FsError U) (ReaderState U)
  handle_parse_wal_bytes ctx wal_bytes source w = unless_closed backends w (
      let prefetch_handle : PrefetchHandle U =
        if should_prefetch ctx
        then some (prefetch_next_file backends (increment ctx.file_id))
        else none in
      let (w', result) =
        backends.read_wal_content_range wal_bytes ctx.next_id ctx.last_id ctx.step source w in
      elim result [
        | panic ↦ (w', panic)
        | err e ↦ (w', ok (read_next_file ctx.file_id ctx prefetch_handle))
        | ok complete ↦ (w', ok completed)
        | ok channel_closed ↦ (w', ok (failed client_disconnected))
        | ok (partial_read last_read_id last_id_in_file) ↦
            let new_next_id : UintN U = elim last_read_id [
              | none ↦ ctx.next_id
              | some last_read ↦ add last_read (from_u64 ctx.step)
            ] in
            (
              w',
              ok (
                  read_next_file ctx.file_id (record ctx { next_id = new_next_id })
                    prefetch_handle),
            )
      ])

  -- The last part of `handle_read_next_file`: the next file, prefetched or not.
  unfoldable pub next_file :
      UintN U → ReadContext U → PrefetchHandle U → Outcome (FsError U) (ReaderState U)
  next_file next_file_id ctx none = ok (read_file (record ctx { file_id = next_file_id }))
  next_file next_file_id ctx (some (ok (some (wal_bytes, source)))) =
      ok (parse_wal_bytes (record ctx { file_id = next_file_id }) wal_bytes source none)
  next_file next_file_id ctx (some (ok none)) = ok (read_next_file next_file_id ctx none)
  next_file next_file_id ctx (some (err e)) = ok (failed e)
  next_file next_file_id ctx (some panic) = ok (failed io_error)

  -- The queue ends before the id that is asked for next.
  unfoldable pub is_past_queue : UintN U → W → Bool
  is_past_queue next_id w = elim (backends.mem_get_last_id w) [
    | some (some queue_last_id) ↦ gt next_id queue_last_id
    | some none ↦ false
    | none ↦ false
  ]

  unfoldable pub handle_read_next_file :
      UintN U → ReadContext U → PrefetchHandle U → W → W × Outcome (FsError U) (ReaderState U)
  handle_read_next_file current_file ctx prefetch_handle w =
      let go_on = next_file (increment current_file) ctx prefetch_handle in
      unless_closed backends w (
        if is_past_queue ctx.next_id w then (w, ok completed) else elim ctx.last_id [
          | some end_id ↦
              let (result, w') = backends.mem_read_full ctx.next_id end_id ctx.step w in
              if result.success then (w', ok completed) else (w', go_on)
          | none ↦
              let (result, w') = backends.mem_follow_full ctx.next_id ctx.next_id ctx.step w in
              if result.success && is_some result.subscription_id
              then (w', ok subscribed)
              else (w', go_on)
        ])
