-- ===== src/Nbd/Replies.antt =====
-- The bytes of the replies of internal/nbd/transmission.go.
use go_fs.Base.{
  ℕ, zero, suc, ◌+◌, ◌/◌, ◌%◌, ◌≡◌, refl, sym, ap, ◌∙◌, List, [], ◌∷◌, ◌++◌, append_assoc, arith,
  length, take, length-append, take-length-append, drop-length-append,
}
use go_fs.Base.Text.{Bytes}
use go_fs.Nbd.{
  simple_magic, structured_magic, reply_flag_done, reply_type_error, reply_type_none,
  reply_type_offset_data, Extent, range, Request, Transmission, simple_reply, chunk_reply,
  fail_reply, data_reply, block_status_reply,
}
use go_fs.Cryptomator.{put_big_endian}

pub length-put : (k n : ℕ) → length (put_big_endian k n) ≡ k
unfolding put_big_endian
length-put zero n = refl
length-put (suc k) n =
    omega
      (arith, length-append (put_big_endian k (n / 256)) ((n % 256) ∷ []), length-put k (n / 256))

pub cut :
    (xs ys zs w : Bytes) (n k : ℕ)
    → w ≡ xs ++ (ys ++ zs)
    → length xs ≡ n
    → length ys ≡ k
    → range n k w ≡ ys
cut xs ys zs w n k e p q =
    (λ i. range (sym p i) (sym q i) (e i))
    ∙ (ap (take (length ys)) (drop-length-append xs (ys ++ zs)) ∙ take-length-append ys zs)

-- The field of a reply in which the client looks for the cookie of its request.
abbrev pub cookie_field : Bytes → Bytes
cookie_field reply = range 8 8 reply

-- The reply to `req` is the next that goes out, and the only one.
abbrev pub Answered : Request → List Bytes → List Bytes → Type 0
Answered req before after =
    (reply : Bytes) × (after ≡ before ++ reply ∷ [])
    × (cookie_field reply ≡ put_big_endian 8 req.cookie)

pub simple_reply-cookie :
    (cookie code : ℕ) (bs : Bytes)
    → cookie_field (simple_reply cookie code bs) ≡ put_big_endian 8 cookie
unfolding simple_reply
simple_reply-cookie cookie code bs =
    let m = put_big_endian 4 simple_magic in
    let c = put_big_endian 4 code in
    let k = put_big_endian 8 cookie in
    cut (m ++ c) k bs ((m ++ (c ++ k)) ++ bs) 8 8
      (append_assoc m (c ++ k) bs
        ∙ (ap (λ z. m ++ z) (append_assoc c k bs) ∙ sym (append_assoc m c (k ++ bs))))
      (length-append m c ∙ omega (arith, length-put 4 simple_magic, length-put 4 code))
      (length-put 8 cookie)

pub chunk_reply-cookie :
    (cookie flags kind : ℕ) (head bs : Bytes)
    → cookie_field (chunk_reply cookie flags kind head bs) ≡ put_big_endian 8 cookie
unfolding chunk_reply
chunk_reply-cookie cookie flags kind head bs =
    let m = put_big_endian 4 structured_magic in
    let f = put_big_endian 2 flags ++ put_big_endian 2 kind in
    let k = put_big_endian 8 cookie in
    let n = put_big_endian 4 (length head + length bs) in
    cut (m ++ f) k (n ++ (head ++ bs)) (((m ++ (f ++ (k ++ n))) ++ head) ++ bs) 8 8
      (simp (append_assoc))
      (length-append m f
        ∙ omega (
          arith,
          length-put 4 structured_magic,
          length-append (put_big_endian 2 flags) (put_big_endian 2 kind),
          length-put 2 flags,
          length-put 2 kind,
        ))
      (length-put 8 cookie)

pub fail_reply-cookie :
    (t : Transmission) (req : Request) (code : ℕ) (message : Bytes)
    → cookie_field (fail_reply t req code message) ≡ put_big_endian 8 req.cookie
unfolding fail_reply
fail_reply-cookie t req code message = ground (
  arith,
  simple_reply-cookie req.cookie code [],
  chunk_reply-cookie req.cookie reply_flag_done reply_type_error
      (put_big_endian 4 code ++ (put_big_endian 2 (length message) ++ message)) [],
)

pub data_reply-cookie :
    (t : Transmission) (req : Request) (bs : Bytes)
    → cookie_field (data_reply t req bs) ≡ put_big_endian 8 req.cookie
unfolding data_reply
data_reply-cookie t req bs = ground (
  arith,
  simple_reply-cookie req.cookie 0 bs,
  chunk_reply-cookie req.cookie reply_flag_done reply_type_none [] [],
  chunk_reply-cookie req.cookie reply_flag_done reply_type_offset_data (put_big_endian 8 req.offset)
      bs,
)

pub block_status-cookie :
    (req : Request) (es : List Extent)
    → cookie_field (block_status_reply req es) ≡ put_big_endian 8 req.cookie
unfolding block_status_reply
block_status-cookie req es = chunk_reply-cookie req.cookie _ _ _ _
