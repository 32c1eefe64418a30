-- ===== src/Nbd/Errors.antt =====
-- The error codes in the replies of internal/nbd/transmission.go.
use mathlib.Core.List.{head-eq_of_cons-eq}
use go_fs.Base.{
  if-either, ℕ, ◌≡◌, refl, sym, ap, ◌∙◌, ◌⊎◌, inl, inr, false, List, [], ◌∷◌, ◌++◌, append_assoc,
  arith, ◌==◌, if◌then◌else◌, length, drop, replicate, drop-length-append,
}
use go_fs.Base.Text.{Bytes, bytes_eq}
use go_fs.Nbd.{
  simple_magic, cmd_write, cmd_write_zeroes, err_perm, err_invalid, err_no_space, err_not_sup,
  Failure, range, Request, Transmission, errno, simple_reply, fail_reply,
}
use go_fs.Cryptomator.{put_big_endian}
use go_fs.Nbd.Replies.{length-put, cut}

pub simple_reply-code :
    (cookie code : ℕ) (bs : Bytes) → range 4 4 (simple_reply cookie code bs) ≡ put_big_endian 4 code
unfolding simple_reply
simple_reply-code cookie code bs =
    cut (put_big_endian 4 simple_magic) (put_big_endian 4 code) (put_big_endian 8 cookie ++ bs)
      (simple_reply cookie code bs) 4 4 (simp (append_assoc)) (length-put 4 simple_magic)
      (length-put 4 code)

-- The four bytes of an error are not those of success.
abbrev pub Error : ℕ → Type 0
Error code = bytes_eq (put_big_endian 4 code) (put_big_endian 4 0) ≡ false

pub errno-Error : (e : Failure) → Error (errno e)
unfolding errno put_big_endian bytes_eq
errno-Error e =
    if-either Error e.disk_full _ _ (λ q. refl)
      (λ q. if-either Error e.permission _ _ (λ q. refl) (λ q. refl))

pub err_perm-Error : Error err_perm
unfolding put_big_endian bytes_eq
err_perm-Error = refl

pub err_no_space-Error : Error err_no_space
unfolding put_big_endian bytes_eq
err_no_space-Error = refl

pub err_not_sup-Error : Error err_not_sup
unfolding put_big_endian bytes_eq
err_not_sup-Error = refl

pub err_invalid-Error : Error err_invalid
unfolding put_big_endian bytes_eq
err_invalid-Error = refl

pub snoc-injective : (xs : List Bytes) (x y : Bytes) → xs ++ x ∷ [] ≡ xs ++ y ∷ [] → x ≡ y
snoc-injective xs x y e = head-eq_of_cons-eq (
    sym (drop-length-append xs (x ∷ []))
    ∙ (ap (drop (length xs)) e ∙ drop-length-append xs (y ∷ [])))

-- What a write of either kind is to store.
abbrev pub intended : Request → Bytes
intended req = if req.kind == cmd_write then req.payload else replicate req.len 0

abbrev pub Writes : Request → Type 0
Writes req = (req.kind ≡ cmd_write) ⊎ (req.kind ≡ cmd_write_zeroes)

pub fail_reply-simple :
    (t : Transmission) (req : Request) (code : ℕ) (message : Bytes)
    → Writes req
    → fail_reply t req code message ≡ simple_reply req.cookie code []
unfolding fail_reply
fail_reply-simple t req code message (inl e) = rw (e) ground arith
fail_reply-simple t req code message (inr e) = rw (e) ground arith
