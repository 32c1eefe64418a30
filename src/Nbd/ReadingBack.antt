-- ===== src/Nbd/ReadingBack.antt =====
-- Reading back what internal/nbd/transmission.go has written.
use mathlib.Core.Bool.{true≢false}
use go_fs.Base.{
  if-either, ◌-◌, ◌/◌, ◌^◌, ◌≤◌, ◌<◌, ◌≡◌, refl, sym, ap, ◌∙◌, ◌⊎◌, inl, inr, true, not, ◌&&◌, [],
  ◌∷◌, ◌++◌, arith, ltb, leb, ◌==◌, length,
}
use go_fs.Base.Text.{Bytes, codes}
use go_fs.Nbd.{
  cmd_read, cmd_write, max_block, Failure, range, Image, Request, Transmission, errno, simple_reply,
  fail_reply, data_reply,
}
use go_fs.Nbd.Handling.{Progress, inside, read_end, handle_read, command, handle}
use go_fs.Nbd.Errors.{intended, Writes}
use go_fs.Nbd.Storing.{handle-Stored}

-- A read within the disk, of a size that the server takes, is answered with what is there, or with the
-- error of the image.
module _ (img : Image) (t : Transmission) (r : Request) (s : Progress img) where
  open img use {content, read_at, reads}

  abbrev pub ReadsBack : Bytes → Type 0
  ReadsBack bs =
      ((handle img t r s).sent ≡ s.sent ++ data_reply t r bs ∷ [])
      ⊎ ((e : Failure) × (read_at s.image r.len r.offset ≡ inl e)
          × ((handle img t r s).sent
              ≡ s.sent ++ fail_reply t r (errno e) (codes "the disk cannot be read") ∷ []))

  abbrev AsRead : Progress img → Type 0
  AsRead z = z ≡ read_end img t r s (read_at s.image r.len r.offset)

  handle-read_end :
      r.kind ≡ cmd_read
      → r.flags < 2 ^ 5
      → r.len ≤ max_block
      → inside t r ≡ true
      → handle img t r s ≡ read_end img t r s (read_at s.image r.len r.offset)
  unfolding handle command handle_read
  handle-read_end k f l fits =
      if-either AsRead (not (r.flags / 2 ^ 5 == 0)) _ _ (λ q. absurd (ground arith))
        (λ q.
          if-either AsRead (r.kind == cmd_read) _ _
            (λ p.
              if-either AsRead (ltb max_block r.len) _ _ (λ p. absurd (ground arith))
                (λ p.
                  if-either AsRead (not (inside t r)) _ _
                    (λ p. absurd (true≢false (sym p ∙ ap not fits))) (λ p. refl)))
            (λ p. absurd (ground arith)))

  handle-ReadsBack :
      (bs : Bytes)
      → handle img t r s ≡ read_end img t r s (read_at s.image r.len r.offset)
      → range r.offset r.len (content s.image) ≡ bs
      → (answer : Failure ⊎ Bytes) → read_at s.image r.len r.offset ≡ answer
      → ReadsBack bs
  unfolding read_end
  handle-ReadsBack bs h there (inl e) q =
      inr (e, q, ap (λ z. z.sent) (h ∙ ap (read_end img t r s) q))
  handle-ReadsBack bs h there (inr b) q = inl (
      ap (λ z. z.sent) (h ∙ ap (read_end img t r s) q)
      ∙ ap (λ z. s.sent ++ data_reply t r z ∷ []) (reads s.image r.len r.offset b q ∙ there))

-- On an image of the size of the export, take a write, or a write of zeros, with a payload of the
-- length that it names, that `handle` answered with success, whatever flags it had and however the
-- image answered. A read of the same range that follows, with known flags and no larger than the
-- largest block, is answered with the bytes written, or with the error that the image reports.
pub written-ReadsBack :
    (img : Image) (t : Transmission) (w r : Request) (s : Progress img)
    → length (img.content s.image) ≡ t.size
    → Writes w
    → (w.kind ≡ cmd_write → length w.payload ≡ w.len)
    → (handle img t w s).sent ≡ s.sent ++ simple_reply w.cookie 0 [] ∷ []
    → r.kind ≡ cmd_read
    → r.flags < 2 ^ 5
    → r.len ≤ max_block
    → r.offset ≡ w.offset
    → r.len ≡ w.len
    → ReadsBack img t r (handle img t w s) (intended w)
written-ReadsBack img t w r s room kind full ok k f l o n =
    let (fits, there) = handle-Stored img t w kind s.sent (intended w) s refl room refl full ok in
    let s' = handle img t w s in
    handle-ReadsBack img t r s' (intended w)
      (handle-read_end img t r s' k f l
        ((λ i. leb (o i) t.size && leb (n i) (t.size - o i)) ∙ fits))
      ((λ i. range (o i) (n i) (img.content s'.image)) ∙ there)
      (img.read_at s'.image r.len r.offset) refl
