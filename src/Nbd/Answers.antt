-- ===== src/Nbd/Answers.antt =====
-- The replies to the commands of internal/nbd/transmission.go.
use go_fs.Base.{ℕ, ◌≡◌, refl, ap, List, [], ◌∷◌, ◌++◌}
use go_fs.Base.Text.{Bytes}
use go_fs.Nbd.{Image, Request, Transmission}
use go_fs.Cryptomator.{put_big_endian}
use go_fs.Nbd.Handling.{Progress, send, handle_write, handle_trim, handle_write_zeroes, handle}
use go_fs.Nbd.Replies.{cookie_field, Answered, simple_reply-cookie, fail_reply-cookie}
use go_fs.Nbd.Errors.{Error, err_no_space-Error, err_invalid-Error}
use go_fs.Nbd.Rules.{
  Rules, guarded-rule, write_end-rule, trim_end-rule, zero_request-rule, Reports, handle-rule,
}

module _ (img : Image) (t : Transmission) (req : Request) where
  -- Nothing has gone out since `before`.
  abbrev Silent : List Bytes → Progress img → Type 0
  Silent before s = s.sent ≡ before

  abbrev After : List Bytes → Progress img → Type 0
  After before s = Answered req before s.sent

  reply_next :
      (before : List Bytes) (reply : Bytes) (s : Progress img)
      → cookie_field reply ≡ put_big_endian 8 req.cookie
      → Silent before s
      → After before (send img t req reply s)
  reply_next before reply s c e = (reply, ap (λ z. z ++ reply ∷ []) e, c)

  rules : (before : List Bytes) → Rules img t req (Silent before) (Silent before) (After before)
  rules before = record {
    weaken = λ s e. e;
    refuse = λ code message s _ e. reply_next before _ s (fail_reply-cookie t req code message) e;
    succeed = λ s e. reply_next before _ s (simple_reply-cookie req.cookie 0 []) e;
    synced = λ s e. e;
    counted = λ s n e. e;
  }

  reports :
      (before : List Bytes)
      → Reports img t req (Silent before) (Silent before) (After before) (rules before)
  reports before = record {
    report = λ reply s c e. reply_next before reply s c e;
    read_counted = λ s n e. e;
  }

  -- Whatever the request and however the image answers, exactly one reply goes out, behind those
  -- that went out before, and it carries the cookie of the request.
  pub handle-answers : (s : Progress img) → Answered req s.sent (handle img t req s).sent
  unfolding handle_write handle_trim handle_write_zeroes
  handle-answers s =
      let b = s.sent in
      let Q = Silent b in
      let P = After b in
      let go = λ (code : ℕ) (message : Bytes) (next : Progress img) (c : Error code) (h : P next).
        guarded-rule img t req Q Q P (rules b) code message s next c refl (λ w f. h) in
      handle-rule img t req Q Q P (rules b) (reports b) s refl
        (λ k.
          go _ _ _ err_no_space-Error
            (write_end-rule img t req Q Q P (rules b) _ _ refl (λ q. refl)))
        (go _ _ _ err_invalid-Error (trim_end-rule img t req Q Q P (rules b) _ _ refl))
        (go _ _ _ err_no_space-Error (
          zero_request-rule img t req Q Q P (rules b) s refl refl (λ q. refl) (refl, λ q. refl)
            (refl, λ q. refl)))
