-- ===== src/Nbd/Storing.antt =====
-- What a write that internal/nbd/transmission.go answered with success has stored.
use mathlib.Core.Bool.{true≢false}
use go_fs.Base.{
  if-either, ℕ, ◌+◌, ◌/◌, ◌^◌, ◌≤◌, ◌≡◌, refl, sym, ap, ◌∙◌, true, not, List, [], ◌∷◌, ◌++◌, arith,
  ◌==◌, ==_iff, length, replicate,
}
use go_fs.Base.Text.{Bytes, bytes_eq_iff}
use go_fs.Nbd.{
  cmd_read, cmd_write, cmd_flush, cmd_trim, cmd_write_zeroes, range, Image, Request, Transmission,
  simple_reply, fail_reply,
}
use go_fs.Cryptomator.{put_big_endian}
use go_fs.Nbd.Handling.{Progress, inside, fail, handle_write, handle_write_zeroes, command, handle}
use go_fs.Nbd.Errors.{
  simple_reply-code, Error, err_no_space-Error, err_invalid-Error, snoc-injective, intended, Writes,
  fail_reply-simple,
}
use go_fs.Nbd.Rules.{Rules, guarded-rule, write_end-rule, zero_request-rule}

within_inside :
    (t : Transmission) (req : Request) → req.offset + req.len ≤ t.size → inside t req ≡ true
within_inside t req h = ground arith

module _ (img : Image) (t : Transmission) (req : Request) (writes_data : Writes req)
    (before : List Bytes) (bs : Bytes) where
  open img use {
    State, content, write_at, sync, punch_hole, zero_range, writes, punches, zeroes, write_within,
    punch_within, sync_keeps,
  }

  -- Success was answered only with the bytes stored.
  abbrev pub Stored : Progress img → Type 0
  Stored s =
      s.sent ≡ before ++ simple_reply req.cookie 0 [] ∷ []
      → (inside t req ≡ true) × (range req.offset req.len (content s.image) ≡ bs)

  abbrev There : Progress img → Type 0
  There s = range req.offset req.len (content s.image) ≡ bs

  fail-Stored :
      (code : ℕ) (message : Bytes) (s : Progress img)
      → s.sent ≡ before
      → Error code
      → Stored (fail img t req code message s)
  fail-Stored code message s e h ok =
      let same : fail_reply t req code message ≡ simple_reply req.cookie 0 [] =
        snoc-injective before _ _
          (ap (λ z. z ++ fail_reply t req code message ∷ []) (sym e) ∙ ok) in
      let codes_same : put_big_endian 4 code ≡ put_big_endian 4 0 =
        sym (simple_reply-code req.cookie code [])
        ∙ (ap (range 4 4) (sym (fail_reply-simple t req code message writes_data) ∙ same)
            ∙ simple_reply-code req.cookie 0 []) in
      absurd (true≢false (sym ((bytes_eq_iff _ _).1 codes_same) ∙ h))

  Sure : Progress img → Type 0
  Sure s = (s.sent ≡ before) × (inside t req ≡ true) × There s

  rules : Rules img t req (λ s. s.sent ≡ before) Sure Stored
  unfolding Sure
  rules = record {
    weaken = λ s h. h.0;
    refuse = λ code message s e h. fail-Stored code message s h e;
    succeed = λ s h ok. (h.1, h.2);
    synced = λ s h. (h.0, h.1, ap (range req.offset req.len) (sync_keeps s.image) ∙ h.2);
    counted = λ s n h. h;
  }

  module _ (s : Progress img) (h : s.sent ≡ before) (room : length (content s.image) ≡ t.size)
      (is : bs ≡ intended req) where
    write-Stored :
        req.kind ≡ cmd_write → length req.payload ≡ req.len → Stored (handle_write img t req s)
    unfolding handle_write Sure
    write-Stored e l = guarded-rule img t req _ _ _ rules _ _ s _ err_no_space-Error h (λ w f.
        write_end-rule img t req _ _ _ rules
          (record s { image = (write_at s.image req.payload req.offset).0 }) _ h
          (λ q. (
            h,
            within_inside t req f,
            ap (λ n. range req.offset n (content (write_at s.image req.payload req.offset).0))
                  (sym l)
                ∙ (writes s.image req.payload req.offset (omega (arith, f, l, room)) q
                    ∙ sym (
                        is
                        ∙ if-either (λ z. z ≡ req.payload) (req.kind == cmd_write) _ _ (λ p. refl)
                            (λ p. absurd (ground arith)))),
          )))

    write_zeroes-Stored : req.kind ≡ cmd_write_zeroes → Stored (handle_write_zeroes img t req s)
    unfolding handle_write_zeroes Sure
    write_zeroes-Stored e =
        let zeros : bs ≡ replicate req.len 0 =
          is
          ∙ if-either (λ z. z ≡ replicate req.len 0) (req.kind == cmd_write) _ _
              (λ p. absurd (ground arith)) (λ p. refl) in
        guarded-rule img t req _ _ _ rules _ _ s _ err_no_space-Error h (λ w f.
          let fits = within_inside t req f in
          let r : req.offset + req.len ≤ length (content s.image) = omega (arith, f, room) in
          let hole = (punch_hole s.image req.offset req.len).0 in
          zero_request-rule img t req _ _ _ rules s h h
            (λ q. (h, fits, punches s.image req.offset req.len r q ∙ sym zeros))
            (h, λ q. (h, fits, zeroes s.image req.offset req.len r q ∙ sym zeros))
            (
              h,
              λ q. (
                h,
                fits,
                zeroes hole req.offset req.len
                      (omega (arith, (punch_within s.image req.offset req.len r).0, r)) q
                    ∙ sym zeros,
              ),
            ))

    command-Stored :
        (req.kind ≡ cmd_write → length req.payload ≡ req.len) → Stored (command img t req s)
    unfolding command
    command-Stored full =
        if-either Stored (req.kind == cmd_read) _ _ (λ q. absurd (ground arith))
          (λ q.
            if-either Stored (req.kind == cmd_write) _ _
              (λ p. write-Stored ((==_iff _ _).0 p) (full ((==_iff _ _).0 p)))
              (λ w.
                if-either Stored (req.kind == cmd_flush) _ _ (λ p. absurd (ground arith))
                  (λ q.
                    if-either Stored (req.kind == cmd_trim) _ _ (λ p. absurd (ground arith))
                      (λ q.
                        if-either Stored (req.kind == cmd_write_zeroes) _ _
                          (λ p. write_zeroes-Stored ((==_iff _ _).0 p))
                          (λ z. absurd (ground arith))))))

  pub handle-Stored :
      (s : Progress img)
      → s.sent ≡ before
      → length (content s.image) ≡ t.size
      → bs ≡ intended req
      → (req.kind ≡ cmd_write → length req.payload ≡ req.len)
      → Stored (handle img t req s)
  unfolding handle
  handle-Stored s h room is full =
      if-either Stored (not (req.flags / 2 ^ 5 == 0)) _ _
        (λ q. fail-Stored _ _ s h err_invalid-Error) (λ q. command-Stored s h room is full)
