-- ===== src/Tftp/Options/Answers.antt =====
-- What internal/tftp/options.go confirms to the client.
use go_fs.Base.{
  ℕ, ◌^◌, ◌<◌, ◌≡◌, refl, inl, inr, Bool, true, false, Option, none, some, [], ◌∷◌, ◌++◌, arith,
  if◌then◌else◌, Option-cases, All, All-append,
}
use go_fs.Base.Text.{Bytes}
use go_fs.Base.Decimal.{itoa, number-itoa, all_digits-itoa, length-itoa, length-itoa-pos}
use go_fs.Tftp.Packet.{Request, find_option}
use go_fs.Tftp.Options.{
  Limits, Negotiated, requested, parse_numeric, answer_blksize, answer_window, window_key,
  negotiate_window, answer_timeout, tell_size, hear_size, negotiate_tsize, unnegotiated, negotiate,
  blksize, timeout_key, tsize,
}

-- A number that the server confirms is one that its own parser reads.
pub parse_numeric-itoa : (n : ℕ) → n < 10 ^ 15 → parse_numeric (itoa n) ≡ some n
unfolding parse_numeric
parse_numeric-itoa n h =
    ground
      (arith, number-itoa n (omega arith), all_digits-itoa n, length-itoa 14 n, length-itoa-pos n)

-- The request holds an option of this key.
abbrev pub Asks : Request → Bytes → Type 0
Asks req key = (v : Bytes) × (find_option req.options key ≡ some v)

abbrev AllAsked : Request → Negotiated → Type 0
AllAsked req r = All (λ opt. Asks req opt.key) r.acked

requested-Asks : (req : Request) (key : Bytes) (n : ℕ) → requested req key ≡ some n → Asks req key
unfolding requested
requested-Asks req key n h = ground arith

module _ (req : Request) where
  if-AllAsked :
      (c : Bool) (x y : Negotiated)
      → AllAsked req x
      → AllAsked req y
      → AllAsked req (if c then x else y)
  if-AllAsked true x y hx hy = hx
  if-AllAsked false x y hx hy = hy

  confirm-AllAsked :
      (r : Negotiated) (key value : Bytes)
      → AllAsked req r
      → Asks req key
      → All (λ opt. Asks req opt.key) (r.acked ++ record { key = key; value = value } ∷ [])
  confirm-AllAsked r key value h a =
      All-append (λ opt. Asks req opt.key) r.acked (record { key = key; value = value } ∷ []) h
        (a, tt)

  answer_blksize-AllAsked :
      (n : Option ℕ) (limit : ℕ) (r : Negotiated)
      → requested req blksize ≡ n
      → AllAsked req r
      → AllAsked req (answer_blksize n limit r)
  unfolding answer_blksize
  answer_blksize-AllAsked none limit r e h = h
  answer_blksize-AllAsked (some n) limit r e h =
      if-AllAsked _ _ _ (confirm-AllAsked r blksize _ h (requested-Asks req blksize n e)) h

  answer_window-AllAsked :
      (n : Option ℕ) (key : Bytes) (limit : ℕ) (r : Negotiated)
      → requested req key ≡ n
      → AllAsked req r
      → AllAsked req (answer_window n key limit r)
  unfolding answer_window
  answer_window-AllAsked none key limit r e h = h
  answer_window-AllAsked (some n) key limit r e h =
      if-AllAsked _ _ _ (confirm-AllAsked r key _ h (requested-Asks req key n e)) h

  negotiate_window-AllAsked :
      (cfg : Limits) (for_read : Bool) (r : Negotiated)
      → AllAsked req r
      → AllAsked req (negotiate_window req cfg for_read r)
  unfolding negotiate_window
  negotiate_window-AllAsked cfg false r h = h
  negotiate_window-AllAsked cfg true r h = elim (Option-cases (window_key req)) [
    | inl e ↦ rw (e, negotiate_window) h
    | inr (key, e) ↦
        rw (e, negotiate_window)
          (answer_window-AllAsked (requested req key) key cfg.max_window_size r refl h)
  ]

  answer_timeout-AllAsked :
      (n : Option ℕ) (limit : ℕ) (r : Negotiated)
      → requested req timeout_key ≡ n
      → AllAsked req r
      → AllAsked req (answer_timeout n limit r)
  unfolding answer_timeout
  answer_timeout-AllAsked none limit r e h = h
  answer_timeout-AllAsked (some n) limit r e h =
      if-AllAsked _ _ _ (confirm-AllAsked r timeout_key _ h (requested-Asks req timeout_key n e)) h

  tell_size-AllAsked :
      (size : Option ℕ) (mode : Bytes) (r : Negotiated)
      → Asks req tsize
      → AllAsked req r
      → AllAsked req (tell_size size mode r)
  unfolding tell_size
  tell_size-AllAsked none mode r a h = h
  tell_size-AllAsked (some size) mode r a h = if-AllAsked _ _ _ h (confirm-AllAsked r tsize _ h a)

  hear_size-AllAsked :
      (n : Option ℕ) (r : Negotiated)
      → Asks req tsize
      → AllAsked req r
      → AllAsked req (hear_size n r)
  unfolding hear_size
  hear_size-AllAsked none r a h = h
  hear_size-AllAsked (some n) r a h = confirm-AllAsked r tsize _ h a

  negotiate_tsize-AllAsked :
      (for_read : Bool) (size : Option ℕ) (r : Negotiated)
      → AllAsked req r
      → AllAsked req (negotiate_tsize req for_read size r)
  unfolding negotiate_tsize
  negotiate_tsize-AllAsked for_read size r h = elim (Option-cases (find_option req.options tsize)) [
    | inl e ↦ rw (e, negotiate_tsize) h
    | inr (v, e) ↦
        rw (e, negotiate_tsize)
          (if-AllAsked for_read _ _ (tell_size-AllAsked size req.mode r (v, e) h)
            (hear_size-AllAsked _ r (v, e) h))
  ]

  -- Nothing is confirmed to the client that it did not ask for.
  pub negotiate-asked :
      (cfg : Limits) (for_read : Bool) (file_size : Option ℕ)
      → All (λ opt. Asks req opt.key) (negotiate req cfg for_read file_size).acked
  unfolding negotiate
  negotiate-asked cfg for_read file_size = negotiate_tsize-AllAsked for_read file_size _ (
      answer_timeout-AllAsked _ _ _ refl (
        negotiate_window-AllAsked cfg for_read _
          (answer_blksize-AllAsked _ _ (unnegotiated cfg) refl tt)))
