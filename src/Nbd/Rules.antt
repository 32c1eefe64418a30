-- ===== src/Nbd/Rules.antt =====
-- Rules for the handlers of internal/nbd/transmission.go: what holds of their result, by what holds
-- as they answer.
use go_fs.Base.{
  if-either, ℕ, ◌+◌, ◌/◌, ◌^◌, ◌≤◌, ◌≡◌, refl, ◌⊎◌, inl, inr, true, false, not, ◌&&◌, ◌||◌, Option,
  none, some, List, [], arith, ltb, ◌==◌, ==_iff,
}
use go_fs.Base.Text.{Bytes}
use go_fs.Nbd.{
  cmd_read, cmd_write, cmd_flush, cmd_trim, cmd_cache, cmd_write_zeroes, cmd_block_status,
  err_no_space, max_block, Failure, Extent, Image, Request, Transmission, flag, errno, simple_reply,
}
use go_fs.Cryptomator.{put_big_endian}
use go_fs.Nbd.Handling.{
  Progress, inside, send, fail, write_failed, done, done_fua, read_end, handle_read, guarded,
  write_end, handle_write, flush_end, handle_flush, trim_end, handle_trim, zero_end, zero_written,
  zero_punched, zero_request, handle_write_zeroes, handle_cache, status_end, handle_block_status,
  command, handle,
}
use go_fs.Nbd.Replies.{cookie_field, data_reply-cookie, block_status-cookie}
use go_fs.Nbd.Errors.{Error, errno-Error, err_perm-Error, err_not_sup-Error, err_invalid-Error}

pub inside_only :
    (t : Transmission) (req : Request) → not (inside t req) ≡ false → req.offset + req.len ≤ t.size
inside_only t req h = ground arith

module _ (img : Image) (t : Transmission) (req : Request) where
  open img use {sync, punch_hole, zero_range, read_at, extents}

  -- `Weak` is what a refusal needs, and `Strong` what the answer of success needs, for `P` of the result.
  pub record Rules (Weak Strong P : Progress img → Type 0) : Type 0 where
    pub weaken : (s : Progress img) → Strong s → Weak s
    pub refuse :
        (code : ℕ) (message : Bytes) (s : Progress img)
        → Error code
        → Weak s
        → P (fail img t req code message s)
    pub succeed :
        (s : Progress img) → Strong s → P (send img t req (simple_reply req.cookie 0 []) s)
    pub synced : (s : Progress img) → Strong s → Strong (record s { image = (sync s.image).0 })
    pub counted : (s : Progress img) (n : ℕ) → Strong s → Strong (record s { written = n })

  module _ (Weak Strong P : Progress img → Type 0) (rules : Rules Weak Strong P) where
    write_failed-rule : (e : Failure) (s : Progress img) → Weak s → P (write_failed img t req e s)
    unfolding write_failed
    write_failed-rule e s w =
        if-either P (errno e == err_no_space) _ _ (λ q. rules.refuse _ _ s (errno-Error e) w)
          (λ q. rules.refuse _ _ s (errno-Error e) w)

    done-rule : (s : Progress img) (r : Option Failure) → Strong s → P (done img t req s r)
    unfolding done
    done-rule s none h = rules.succeed s h
    done-rule s (some e) h = write_failed-rule e s (rules.weaken s h)

    done_fua-rule : (s : Progress img) → Strong s → P (done_fua img t req s)
    unfolding done_fua
    done_fua-rule s h =
        if-either P (flag 0 req) _ _
          (λ q. done-rule (record s { image = (sync s.image).0 }) _ (rules.synced s h))
          (λ q. done-rule s none h)

    pub guarded-rule :
        (code : ℕ) (message : Bytes) (s next : Progress img)
        → Error code
        → Weak s
        → (t.writable ≡ true → req.offset + req.len ≤ t.size → P next)
        → P (guarded img t req code message s next)
    unfolding guarded
    guarded-rule code message s next e w go =
        if-either P (not t.writable) _ _ (λ q. rules.refuse _ _ s err_perm-Error w)
          (λ q.
            if-either P (not (inside t req)) _ _ (λ p. rules.refuse code message s e w)
              (λ p. go (ground arith) (inside_only t req p)))

    pub write_end-rule :
        (s : Progress img) (r : Option Failure)
        → Weak s
        → (r ≡ none → Strong s)
        → P (write_end img t req s r)
    unfolding write_end
    write_end-rule s none w h = done_fua-rule _ (rules.counted s _ (h refl))
    write_end-rule s (some e) w h = write_failed-rule e s w

    flush_end-rule :
        (s : Progress img) (r : Option Failure) → Strong s → P (flush_end img t req s r)
    unfolding flush_end
    flush_end-rule s none h = done-rule s none h
    flush_end-rule s (some e) h = write_failed-rule e s (rules.weaken s h)

    handle_flush-rule : (s : Progress img) → Strong s → P (handle_flush img t req s)
    unfolding handle_flush
    handle_flush-rule s h =
        if-either P t.writable _ _
          (λ q. flush_end-rule (record s { image = (sync s.image).0 }) _ (rules.synced s h))
          (λ q. done-rule s none h)

    pub trim_end-rule :
        (s : Progress img) (r : Option Failure) → Strong s → P (trim_end img t req s r)
    unfolding trim_end
    trim_end-rule s none h = done_fua-rule s h
    trim_end-rule s (some e) h =
        if-either P (not e.unsupported) _ _ (λ q. write_failed-rule e s (rules.weaken s h))
          (λ q. done_fua-rule s h)

    zero_end-rule :
        (s : Progress img) (r : Option Failure)
        → Weak s
        → (r ≡ none → Strong s)
        → P (zero_end img t req s r)
    unfolding zero_end
    zero_end-rule s none w h = done_fua-rule s (h refl)
    zero_end-rule s (some e) w h = write_failed-rule e s w

    abbrev pub zeroed : Progress img → Progress img
    zeroed s = record s { image = (zero_range s.image req.offset req.len).0 }

    abbrev pub punched : Progress img → Progress img
    punched s = record s { image = (punch_hole s.image req.offset req.len).0 }

    -- What zeroing the range from this state needs.
    abbrev pub Zeroes : Progress img → Type 0
    Zeroes s =
        Weak (zeroed s) × ((zero_range s.image req.offset req.len).1 ≡ none → Strong (zeroed s))

    zero_written-rule : (s : Progress img) → Zeroes s → P (zero_written img t req s)
    unfolding zero_written
    zero_written-rule s (w, h) = zero_end-rule (zeroed s) _ w h

    zero_punched-rule :
        (s : Progress img) (r : Option Failure)
        → Weak s
        → (r ≡ none → Strong s)
        → Zeroes s
        → P (zero_punched img t req s r)
    unfolding zero_punched
    zero_punched-rule s none w h z = zero_end-rule s none w h
    zero_punched-rule s (some e) w h z =
        if-either P e.unsupported _ _
          (λ q.
            if-either P (flag 4 req) _ _ (λ q. rules.refuse _ _ s err_not_sup-Error w)
              (λ q. zero_written-rule s z))
          (λ q. zero_end-rule s (some e) w h)

    pub zero_request-rule :
        (s : Progress img)
        → Weak s
        → Weak (punched s)
        → ((punch_hole s.image req.offset req.len).1 ≡ none → Strong (punched s))
        → Zeroes s
        → Zeroes (punched s)
        → P (zero_request img t req s)
    unfolding zero_request
    zero_request-rule s w w' h z z' =
        if-either P (flag 4 req && (flag 1 req || not t.hole_punching)) _ _
          (λ q. rules.refuse _ _ s err_not_sup-Error w)
          (λ q.
            if-either P (not (flag 1 req)) _ _ (λ q. zero_punched-rule (punched s) _ w' h z')
              (λ q. zero_written-rule s z))

    -- The answers that only other commands than a write have.
    pub record Reports : Type 0 where
      pub report :
          (reply : Bytes) (s : Progress img)
          → cookie_field reply ≡ put_big_endian 8 req.cookie
          → Weak s
          → P (send img t req reply s)
      pub read_counted : (s : Progress img) (n : ℕ) → Weak s → Weak (record s { read = n })

    module _ (reports : Reports) where
      read_end-rule : (s : Progress img) (r : Failure ⊎ Bytes) → Weak s → P (read_end img t req s r)
      unfolding read_end
      read_end-rule s (inl e) w = rules.refuse _ _ s (errno-Error e) w
      read_end-rule s (inr bs) w =
          reports.report _ _ (data_reply-cookie t req bs) (reports.read_counted s _ w)

      handle_read-rule : (s : Progress img) → Weak s → P (handle_read img t req s)
      unfolding handle_read
      handle_read-rule s w =
          if-either P (ltb max_block req.len) _ _ (λ q. rules.refuse _ _ s err_invalid-Error w)
            (λ q.
              if-either P (not (inside t req)) _ _ (λ q. rules.refuse _ _ s err_invalid-Error w)
                (λ q. read_end-rule s (read_at s.image req.len req.offset) w))

      status_end-rule :
          (s : Progress img) (r : Failure ⊎ List Extent) → Weak s → P (status_end img t req s r)
      unfolding status_end
      status_end-rule s (inl e) w = rules.refuse _ _ s (errno-Error e) w
      status_end-rule s (inr es) w = reports.report _ _ (block_status-cookie req es) w

      handle_block_status-rule : (s : Progress img) → Weak s → P (handle_block_status img t req s)
      unfolding handle_block_status
      handle_block_status-rule s w =
          if-either P (not t.structured || not t.meta_base) _ _
            (λ q. rules.refuse _ _ s err_invalid-Error w)
            (λ q.
              if-either P ((req.len == 0) || not (inside t req)) _ _
                (λ q. rules.refuse _ _ s err_invalid-Error w)
                (λ q. status_end-rule s (extents s.image req.offset req.len) w))

      handle_cache-rule : (s : Progress img) → Strong s → P (handle_cache img t req s)
      unfolding handle_cache
      handle_cache-rule s h =
          if-either P (not (inside t req)) _ _
            (λ q. rules.refuse _ _ s err_invalid-Error (rules.weaken s h)) (λ q. done-rule s none h)

      -- Any request, by its effect on the disk where it is a write, a trim or a write of zeros.
      pub handle-rule :
          (s : Progress img)
          → Strong s
          → (req.kind ≡ cmd_write → P (handle_write img t req s))
          → P (handle_trim img t req s)
          → P (handle_write_zeroes img t req s)
          → P (handle img t req s)
      unfolding handle command
      handle-rule s h write trim zeroes =
          let w = rules.weaken s h in
          if-either P (not (req.flags / 2 ^ 5 == 0)) _ _
            (λ q. rules.refuse _ _ s err_invalid-Error w)
            (λ q.
              if-either P (req.kind == cmd_read) _ _ (λ q. handle_read-rule s w)
                (λ q.
                  if-either P (req.kind == cmd_write) _ _ (λ q. write ((==_iff _ _).0 q))
                    (λ q.
                      if-either P (req.kind == cmd_flush) _ _ (λ q. handle_flush-rule s h)
                        (λ q.
                          if-either P (req.kind == cmd_trim) _ _ (λ q. trim)
                            (λ q.
                              if-either P (req.kind == cmd_write_zeroes) _ _ (λ q. zeroes)
                                (λ q.
                                  if-either P (req.kind == cmd_cache) _ _
                                    (λ q. handle_cache-rule s h)
                                    (λ q.
                                      if-either P (req.kind == cmd_block_status) _ _
                                        (λ q. handle_block_status-rule s w)
                                        (λ q. rules.refuse _ _ s err_invalid-Error w))))))))
