-- ===== src/Nbd/Handling.antt =====
-- The handlers of internal/nbd/transmission.go.
use go_fs.Base.{
  ℕ, ◌+◌, ◌-◌, ◌/◌, ◌^◌, ◌⊎◌, inl, inr, Bool, not, ◌&&◌, ◌||◌, Option, none, some, List, [], ◌∷◌,
  ◌++◌, ltb, leb, ◌==◌, if◌then◌else◌,
}
use go_fs.Base.Text.{Bytes, codes}
use go_fs.Nbd.{
  cmd_read, cmd_write, cmd_flush, cmd_trim, cmd_cache, cmd_write_zeroes, cmd_block_status, err_perm,
  err_invalid, err_no_space, err_not_sup, max_block, Failure, Extent, Image, Request, Transmission,
  flag, errno, simple_reply, fail_reply, data_reply, block_status_reply,
}

-- What the requests of a connection change: the image, the bytes counted for the session, and the
-- replies in the order they go out.
pub record Progress (img : Image) : Type 0 where
  pub image : img.State
  pub read : ℕ
  pub written : ℕ
  pub sent : List Bytes

-- The request lies within the disk.
abbrev pub inside : Transmission → Request → Bool
inside t req = leb req.offset t.size && leb req.len (t.size - req.offset)

module _ (img : Image) (t : Transmission) (req : Request) where
  open img use {read_at, write_at, sync, punch_hole, zero_range, extents}

  abbrev pub send : Bytes → Progress img → Progress img
  send reply s = record s { sent = s.sent ++ reply ∷ [] }

  abbrev pub fail : ℕ → Bytes → Progress img → Progress img
  fail code message s = send (fail_reply t req code message) s

  unfoldable pub write_failed : Failure → Progress img → Progress img
  write_failed e s =
      if errno e == err_no_space
      then fail (errno e) (codes "there is no space left on the filesystem of the disk") s
      else fail (errno e) (codes "the disk cannot be written") s

  unfoldable pub done : Progress img → Option Failure → Progress img
  done s none = send (simple_reply req.cookie 0 []) s
  done s (some e) = write_failed e s

  -- `done(req, fua(req))`.
  unfoldable pub done_fua : Progress img → Progress img
  unfolding done
  done_fua s =
      if flag 0 req
      then done (record s { image = (sync s.image).0 }) (sync s.image).1
      else done s none

  unfoldable pub read_end : Progress img → Failure ⊎ Bytes → Progress img
  read_end s (inl e) = fail (errno e) (codes "the disk cannot be read") s
  read_end s (inr bs) = send (data_reply t req bs) (record s { read = s.read + req.len })

  unfoldable pub handle_read : Progress img → Progress img
  unfolding read_end
  handle_read s =
      if ltb max_block req.len
      then fail err_invalid (codes "the read is larger than the largest block the server takes") s
      else if not (inside t req)
      then fail err_invalid (codes "the read reaches beyond the end of the disk") s
      else read_end s (read_at s.image req.len req.offset)

  -- The guards of the commands that change the disk; `code` is what a range beyond its end fails
  -- with.
  unfoldable pub guarded : ℕ → Bytes → Progress img → Progress img → Progress img
  guarded code message s next =
      if not t.writable
      then fail err_perm (codes "the disk is attached read-only") s
      else if not (inside t req)
      then fail code message s
      else next

  unfoldable pub write_end : Progress img → Option Failure → Progress img
  unfolding done_fua write_failed
  write_end s (some e) = write_failed e s
  write_end s none = done_fua (record s { written = s.written + req.len })

  unfoldable pub handle_write : Progress img → Progress img
  unfolding guarded write_end
  handle_write s = guarded err_no_space (codes "the write reaches beyond the end of the disk") s (
      write_end (record s { image = (write_at s.image req.payload req.offset).0 })
        (write_at s.image req.payload req.offset).1)

  unfoldable pub flush_end : Progress img → Option Failure → Progress img
  unfolding done write_failed
  flush_end s (some e) = write_failed e s
  flush_end s none = done s none

  unfoldable pub handle_flush : Progress img → Progress img
  unfolding flush_end done
  handle_flush s =
      if t.writable
      then flush_end (record s { image = (sync s.image).0 }) (sync s.image).1
      else done s none

  unfoldable pub trim_end : Progress img → Option Failure → Progress img
  unfolding done_fua write_failed
  trim_end s none = done_fua s
  trim_end s (some e) = if not e.unsupported then write_failed e s else done_fua s

  unfoldable pub handle_trim : Progress img → Progress img
  unfolding guarded trim_end
  handle_trim s = guarded err_invalid (codes "the trim reaches beyond the end of the disk") s (
      trim_end (record s { image = (punch_hole s.image req.offset req.len).0 })
        (punch_hole s.image req.offset req.len).1)

  abbrev pub too_slow : Progress img → Progress img
  too_slow s = fail err_not_sup (codes "zeros cannot be written faster than by writing them") s

  -- What follows `zero` of the source: nothing where it has answered a failure.
  unfoldable pub zero_end : Progress img → Option Failure → Progress img
  unfolding done_fua write_failed
  zero_end s (some e) = write_failed e s
  zero_end s none = done_fua s

  unfoldable pub zero_written : Progress img → Progress img
  unfolding zero_end
  zero_written s =
      zero_end (record s { image = (zero_range s.image req.offset req.len).0 })
        (zero_range s.image req.offset req.len).1

  unfoldable pub zero_punched : Progress img → Option Failure → Progress img
  unfolding zero_end zero_written
  zero_punched s none = zero_end s none
  zero_punched s (some e) =
      if e.unsupported
      then (if flag 4 req then too_slow s else zero_written s)
      else zero_end s (some e)

  unfoldable pub zero_request : Progress img → Progress img
  unfolding zero_written zero_punched
  zero_request s =
      if flag 4 req && (flag 1 req || not t.hole_punching)
      then too_slow s
      else if not (flag 1 req)
      then zero_punched (record s { image = (punch_hole s.image req.offset req.len).0 })
          (punch_hole s.image req.offset req.len).1
      else zero_written s

  unfoldable pub handle_write_zeroes : Progress img → Progress img
  unfolding guarded zero_request
  handle_write_zeroes s =
      guarded err_no_space (codes "the write reaches beyond the end of the disk") s (zero_request s)

  unfoldable pub handle_cache : Progress img → Progress img
  unfolding done
  handle_cache s =
      if not (inside t req)
      then fail err_invalid (codes "the range reaches beyond the end of the disk") s
      else done s none

  unfoldable pub status_end : Progress img → Failure ⊎ List Extent → Progress img
  status_end s (inl e) = fail (errno e) (codes "the extents cannot be read") s
  status_end s (inr es) = send (block_status_reply req es) s

  unfoldable pub handle_block_status : Progress img → Progress img
  unfolding status_end
  handle_block_status s =
      if not t.structured || not t.meta_base
      then fail err_invalid (codes "no metadata context was selected") s
      else if (req.len == 0) || not (inside t req)
      then fail err_invalid (codes "the range is empty or reaches beyond the end of the disk") s
      else status_end s (extents s.image req.offset req.len)

  unfoldable pub command : Progress img → Progress img
  unfolding handle_read handle_write handle_flush handle_trim handle_write_zeroes handle_cache
      handle_block_status
  command s =
      if req.kind == cmd_read
      then handle_read s
      else if req.kind == cmd_write
      then handle_write s
      else if req.kind == cmd_flush
      then handle_flush s
      else if req.kind == cmd_trim
      then handle_trim s
      else if req.kind == cmd_write_zeroes
      then handle_write_zeroes s
      else if req.kind == cmd_cache
      then handle_cache s
      else if req.kind == cmd_block_status
      then handle_block_status s
      else fail err_invalid (codes "the server does not know the command") s

  -- `handle`: the five known flags are the lowest.
  unfoldable pub handle : Progress img → Progress img
  unfolding command
  handle s =
      if not (req.flags / 2 ^ 5 == 0)
      then fail err_invalid (codes "the request has unknown flags") s
      else command s
