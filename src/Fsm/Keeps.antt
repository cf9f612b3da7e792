-- ===== src/Fsm/Keeps.antt =====
-- `normfs/src/reader_fsm/fsm.rs`: what a read keeps from its lookup on.
use normfs.Prelude.{
  ◌≡◌, ℕ, refl, inl, inr, true, false, Option, none, some, arith, Bool-cases, ok, err, panic,
  Outcome-cases,
}
use normfs.UBig.{UBig}
use normfs.UintN.{UintN}
use normfs.UintN.Arith.{increment}
use normfs.Fsm.{
  failed, completed, subscribed, Backends, ReadContext, ReaderState, is_terminal, lookup_file,
  read_file, read_store, read_wal, read_s3, extract_wal_bytes, parse_wal_bytes, read_next_file,
  PrefetchHandle,
}
use normfs.Fsm.Handlers.{
  handle_lookup_file, handle_read_file, handle_read_store, handle_read_wal, handle_read_s3,
  handle_extract_wal_bytes, handle_parse_wal_bytes, handle_read_next_file, next_file,
}
use normfs.Fsm.Run.{transition, Reaches, here, onward}

-- The step and the end of the range that a state reads.
abbrev pub requested : {U : Type 0} → ReaderState U → Option (ℕ × Option (UintN U))
requested (lookup_file start_id end_id step) = some (step, end_id)
requested (read_file ctx) = some (ctx.step, ctx.last_id)
requested (read_store ctx) = some (ctx.step, ctx.last_id)
requested (read_wal ctx) = some (ctx.step, ctx.last_id)
requested (read_s3 ctx) = some (ctx.step, ctx.last_id)
requested (extract_wal_bytes ctx bytes source) = some (ctx.step, ctx.last_id)
requested (parse_wal_bytes ctx bytes source handle) = some (ctx.step, ctx.last_id)
requested (read_next_file file ctx handle) = some (ctx.step, ctx.last_id)
requested s = none

module _ {U W : Type 0} ⦃b : UBig U⦄ (backends : Backends U W) (step : ℕ) where
  next_file-keeps :
      (id : UintN U) (ctx : ReadContext U) (handle : PrefetchHandle U) (s : ReaderState U)
      → next_file backends id ctx handle ≡ ok s
      → is_terminal s ≡ false
      → requested s ≡ some (ctx.step, ctx.last_id)
  unfolding next_file is_terminal
  next_file-keeps id ctx none s h t = ground (arith, h, t)
  next_file-keeps id ctx (some (ok none)) s h t = ground (arith, h, t)
  next_file-keeps id ctx (some (ok (some (bytes, source)))) s h t = ground (arith, h, t)
  next_file-keeps id ctx (some (err e)) s h t = ground (arith, h, t)
  next_file-keeps id ctx (some panic) s h t = ground (arith, h, t)

  transition-keeps :
      (s s' : ReaderState U) (w w' : W) (r : ℕ × Option (UintN U))
      → requested s ≡ some r
      → transition backends s step w ≡ (w', ok s')
      → is_terminal s' ≡ false
      → requested s' ≡ some r
  unfolding transition is_terminal handle_lookup_file handle_read_file handle_read_store
      handle_read_wal handle_read_s3 handle_extract_wal_bytes handle_parse_wal_bytes
      handle_read_next_file
  transition-keeps (lookup_file start_id end_id n) s' w w' r q h t = ground (arith, q, h, t)
  transition-keeps (read_file ctx) s' w w' r q h t = ground (arith, q, h, t)
  transition-keeps (read_store ctx) s' w w' r q h t = ground (arith, q, h, t)
  transition-keeps (read_wal ctx) s' w w' r q h t = ground (arith, q, h, t)
  transition-keeps (read_s3 ctx) s' w w' r q h t = ground (arith, q, h, t)
  transition-keeps (extract_wal_bytes ctx bytes source) s' w w' r q h t = ground (arith, q, h, t)
  transition-keeps (parse_wal_bytes ctx bytes source handle) s' w w' r q h t =
      ground (arith, q, h, t)
  transition-keeps (read_next_file file ctx handle) s' w w' r q h t =
      elim (Outcome-cases (next_file backends (increment file) ctx handle)) [
        | inl n ↦ ground (arith, q, h, t, n)
        | inr (inl (e, n)) ↦ ground (arith, q, h, t, n)
        | inr (inr (next, n)) ↦ elim (Bool-cases (is_terminal next)) [
          | inl over ↦ ground (arith, q, h, t, n, over)
          | inr going ↦
              ground (arith, q, h, t, n, next_file-keeps (increment file) ctx handle next n going)
        ]
      ]
  transition-keeps s s' w w' r q h t = ground (arith, q, h, t)

  terminal_stays :
      (s t : ReaderState U) (w v : W)
      → is_terminal s ≡ true
      → Reaches backends step s w t v
      → is_terminal t ≡ true
  unfolding is_terminal transition
  terminal_stays completed t w v over here = refl
  terminal_stays subscribed t w v over here = refl
  terminal_stays (failed e) t w v over here = refl
  terminal_stays completed t w v over (onward h more) = ground (arith, h)
  terminal_stays subscribed t w v over (onward h more) = ground (arith, h)
  terminal_stays (failed e) t w v over (onward h more) = ground (arith, h)
  terminal_stays s t w v over more = ground (arith, over)

  Reaches-keeps :
      (s t : ReaderState U) (w v : W) (r : ℕ × Option (UintN U))
      → Reaches backends step s w t v
      → requested s ≡ some r
      → is_terminal t ≡ false
      → requested t ≡ some r
  Reaches-keeps s t w v r here q open_end = q
  Reaches-keeps s t w v r (onward {s' = s'} {w' = w'} h more) q going =
      elim (Bool-cases (is_terminal s')) [
        | inl over ↦ ground (arith, going, terminal_stays s' t w' v over more)
        | inr on ↦ Reaches-keeps s' t w' v r more (transition-keeps s s' w w' r q h on) going
      ]

  -- From the lookup of a file on, every state that a read reaches before its end has the step and the
  -- end of the range that were asked for, whatever the files, the memory and the channel give.
  pub lookup_file-keeps :
      (start_id : UintN U) (end_id : Option (UintN U)) (n : ℕ) (t : ReaderState U) (w v : W)
      → Reaches backends step (lookup_file start_id end_id n) w t v
      → is_terminal t ≡ false
      → requested t ≡ some (n, end_id)
  lookup_file-keeps start_id end_id n t w v reached going =
      Reaches-keeps (lookup_file start_id end_id n) t w v (n, end_id) reached refl going
