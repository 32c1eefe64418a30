-- ===== src/Tftp/Netascii/Writing.antt =====
-- `netasciiWriter` of internal/tftp/netascii.go: what a client's netascii stream leaves in the
-- destination, whatever the blocks that it arrives in.
use go_fs.Base.{
  ℕ, ◌≡◌, refl, sym, ap, ◌∙◌, inl, inr, Bool, true, false, List, [], ◌∷◌, ◌++◌, append-nil,
  append_assoc, arith, if◌then◌else◌, Bool-cases, Option-cases,
}
use go_fs.Base.Text.{Bytes}
use go_fs.Tftp.Streams.{Writer}
use go_fs.Tftp.Netascii.{
  cr, decode_byte, decode, NetasciiWriter, write_out, netascii_write, flush, new_netascii_writer,
}
use go_fs.Tftp.Netascii.Wire.{wire, host_lines, expand, expand_all}

-- Decoding in two blocks is decoding in one.
pub decode-append :
    (pending : Bool) (xs ys : Bytes)
    → decode pending (xs ++ ys) ≡ (
      (decode pending xs).0 ++ (decode (decode pending xs).1 ys).0,
      (decode (decode pending xs).1 ys).1,
    )
unfolding decode
decode-append pending [] ys = refl
decode-append pending (x ∷ xs) ys =
    let (out, pending') = decode_byte pending x in
    rw (decode-append pending' xs ys) (
      ap (λ t. (t, (decode (decode pending' xs).1 ys).1))
        (sym (append_assoc out (decode pending' xs).0 _)))

decode-expand :
    (b : ℕ) (bs : Bytes)
    → decode false (expand b ++ bs) ≡ (b ∷ (decode false bs).0, (decode false bs).1)
unfolding decode decode_byte expand
decode-expand b bs = ground arith

decode-expand_all : (bs : Bytes) → decode false (expand_all bs) ≡ (bs, false)
unfolding expand_all decode
decode-expand_all [] = refl
decode-expand_all (b ∷ bs) = decode-expand b (expand_all bs) ∙ rw (decode-expand_all bs)

-- Decoding the netascii form of a file gives its bytes back with every CR LF as LF, and leaves
-- no carriage return pending.
pub decode-wire : (bs : Bytes) → decode false (wire bs) ≡ (host_lines bs, false)
unfolding wire
decode-wire bs = decode-expand_all (host_lines bs)

-- The bytes that a whole stream stands for, the pending carriage return flushed.
pub decoded : Bool → Bytes → Bytes
decoded pending bs = let (out, last) = decode pending bs in if last then out ++ cr ∷ [] else out

decoded-wire : (bs : Bytes) → decoded false (wire bs) ≡ host_lines bs
unfolding decoded
decoded-wire bs = rw decode-wire

decoded-append :
    (pending : Bool) (xs ys : Bytes)
    → decoded pending (xs ++ ys) ≡ (decode pending xs).0 ++ decoded (decode pending xs).1 ys
unfolding decoded
decoded-append pending xs ys = ground (
  arith,
  decode-append pending xs ys,
  append_assoc (decode pending xs).0 (decode (decode pending xs).1 ys).0 (cr ∷ []),
)

abbrev pub concat : List Bytes → Bytes
concat [] = []
concat (b ∷ bs) = b ++ concat bs

module _ (w : Writer) where
  open w use {State, content, write, write_appends}

  -- The blocks of an upload, one `Write` each, and the `Flush` at the end. The flag says whether
  -- every call went through.
  unfoldable pub write_all : NetasciiWriter w → List Bytes → NetasciiWriter w × Bool
  write_all t [] = flush w t
  write_all t (b ∷ bs) =
      let (t', done) = netascii_write w t b in
      let rest = write_all t' bs in if done then rest else (t', false)

  write_out-content :
      (t : NetasciiWriter w) (out : Bytes)
      → (write_out w t out).1 ≡ true
      → (content (write_out w t out).0.dst ≡ content t.dst ++ out)
        × ((write_out w t out).0.pending_cr ≡ t.pending_cr)
  unfolding write_out
  write_out-content t [] h = (sym (append-nil _), refl)
  write_out-content t (b ∷ out) h = elim (Option-cases (write t.dst (b ∷ out))) [
    | inl e ↦ absurd (ground arith)
    | inr (dst, e) ↦ rw (e, write_out) (write_appends t.dst dst (b ∷ out) e, refl)
  ]

  netascii_write-content :
      (t : NetasciiWriter w) (p : Bytes)
      → (netascii_write w t p).1 ≡ true
      → (content (netascii_write w t p).0.dst ≡ content t.dst ++ (decode t.pending_cr p).0)
        × ((netascii_write w t p).0.pending_cr ≡ (decode t.pending_cr p).1)
  unfolding netascii_write
  netascii_write-content t p h =
      let (out, pending) = decode t.pending_cr p in
      write_out-content (record t { pending_cr = pending }) out h

  flush-content :
      (t : NetasciiWriter w)
      → (flush w t).1 ≡ true
      → content (flush w t).0.dst ≡ content t.dst ++ decoded t.pending_cr []
  unfolding flush decoded decode
  flush-content t h =
      let out = write_out-content (record t { pending_cr = false }) (cr ∷ []) in
      ground (arith, out, append-nil (content t.dst))

  -- Where every call goes through, the destination has grown by what the stream stands for,
  -- wherever the blocks are cut.
  pub write_all-content :
      (t : NetasciiWriter w) (blocks : List Bytes)
      → (write_all t blocks).1 ≡ true
      → content (write_all t blocks).0.dst ≡ content t.dst ++ decoded t.pending_cr (concat blocks)
  unfolding write_all
  write_all-content t [] h = flush-content t h
  write_all-content t (b ∷ bs) h = elim (Bool-cases (netascii_write w t b).1) [
    | inl done ↦
        let t' = (netascii_write w t b).0 in
        let one = netascii_write-content t b done in
        rw done (
          write_all-content t' bs (rw done at h)
          ∙ rw (one.0, one.1) (append_assoc (content t.dst) _ _)
          ∙ ap (λ x. content t.dst ++ x) (sym (decoded-append t.pending_cr b (concat bs))))
    | inr stopped ↦ absurd (ground arith)
  ]

  -- An upload of the netascii form of a file, in whatever blocks, stores the file with every
  -- CR LF as LF, if every write goes through.
  pub write_all-wire :
      (dst : State) (bs : Bytes) (blocks : List Bytes)
      → concat blocks ≡ wire bs
      → (write_all (new_netascii_writer w dst) blocks).1 ≡ true
      → content (write_all (new_netascii_writer w dst) blocks).0.dst ≡ content dst ++ host_lines bs
  write_all-wire dst bs blocks e h =
      write_all-content (new_netascii_writer w dst) blocks h
      ∙ ap (λ x. content dst ++ x) (ap (decoded false) e ∙ decoded-wire bs)
