-- ===== src/Tftp/Netascii/Reading.antt =====
-- `netasciiReader.Read` of internal/tftp/netascii.go as a stream: the netascii form of the file,
-- whatever the chunks of the source and the sizes of the buffers.
use go_fs.Base.{
  ℕ, ◌≤◌, ◌<◌, ◌≡◌, refl, sym, ap, ◌∙◌, ◌≢◌, inl, inr, Bool, true, false, some, List, [], ◌∷◌, ◌++◌,
  append-nil, append_assoc, arith, if◌then◌else◌, Bool-cases, length, take, drop, take-append-drop,
  length-take,
}
use go_fs.Base.Text.{Bytes}
use go_fs.Tftp.Streams.{read, end, broken, Reader, drain, drain-remaining}
use go_fs.Tftp.Netascii.{
  NetasciiReader, Chunk, ReadError, encode, append_byte, close_stream, fill, hand_out,
  netascii_read, new_netascii_reader,
}
use go_fs.Tftp.Netascii.Wire.{wire, owed, encode-owed, close_stream-owed}

-- The bytes of the file: up to the end, or up to a failure.
abbrev pub contents : List Chunk → Bytes
contents [] = []
contents (c ∷ cs) = elim c.error [ ReadError.nil ↦ c.bytes ++ contents cs | _ ↦ c.bytes ]

-- What the reader has still to hand out.
abbrev pub netascii_remaining : NetasciiReader → Bytes
netascii_remaining r = r.out ++ (if r.eof then [] else owed r.pending_cr (contents r.src))

encode-src : (bs : Bytes) (r : NetasciiReader) → (encode r bs).src ≡ r.src
unfolding encode append_byte
encode-src [] r = refl
encode-src (b ∷ bs) r = encode-src bs (append_byte r b)

encode-eof : (bs : Bytes) (r : NetasciiReader) → (encode r bs).eof ≡ r.eof
unfolding encode append_byte
encode-eof [] r = refl
encode-eof (b ∷ bs) r = encode-eof bs (append_byte r b)

close_stream-eof : (r : NetasciiReader) → (close_stream r).eof ≡ true
unfolding close_stream
close_stream-eof r = ground arith

close_stream-remaining :
    (r : NetasciiReader) → netascii_remaining (close_stream r) ≡ r.out ++ owed r.pending_cr []
close_stream-remaining r = rw (close_stream-eof r) (append-nil _ ∙ close_stream-owed r)

-- Encoding a chunk of an open stream hands nothing out and loses nothing.
encode-remaining :
    (r : NetasciiReader) (bs : Bytes) (l : List Chunk)
    → r.eof ≡ false
    → netascii_remaining (encode (record r { src = l }) bs)
      ≡ r.out ++ owed r.pending_cr (bs ++ contents l)
encode-remaining r bs l h =
    let r' = record r { src = l } in
    rw (encode-eof bs r' ∙ h, encode-src bs r') (encode-owed bs r' (contents l))

close_stream-encode :
    (r : NetasciiReader) (bs : Bytes) (l : List Chunk)
    → netascii_remaining (close_stream (encode (record r { src = l }) bs))
      ≡ r.out ++ owed r.pending_cr bs
close_stream-encode r bs l =
    close_stream-remaining _
    ∙ encode-owed bs (record r { src = l }) []
    ∙ ap (λ t. r.out ++ owed r.pending_cr t) (append-nil bs)

fill-remaining :
    (l : List Chunk) (r : NetasciiReader)
    → r.src ≡ l
    → (fill l r).1 ≡ false
    → netascii_remaining (fill l r).0 ≡ netascii_remaining r
unfolding fill
fill-remaining [] r e h = ground (arith, close_stream-remaining (record r { src = [] }))
fill-remaining (c ∷ l) r e h = ground (
  arith,
  close_stream-encode r c.bytes l,
  encode-remaining r c.bytes l,
  encode-src c.bytes (record r { src = l }),
  fill-remaining l (encode (record r { src = l }) c.bytes),
)

-- The loop stops with nothing to hand out only at the end of the stream.
fill-eof :
    (l : List Chunk) (r : NetasciiReader)
    → (fill l r).1 ≡ false
    → (fill l r).0.out ≡ []
    → (fill l r).0.eof ≡ true
unfolding fill close_stream
fill-eof [] r h e = ground arith
fill-eof (c ∷ l) r h e = ground (arith, fill-eof l (encode (record r { src = l }) c.bytes))

-- One `Read` hands out the front of what remains.
hand_out-remaining :
    (r : NetasciiReader) (n : ℕ) (out bs : Bytes)
    → r.out ≡ out
    → (hand_out r n out).1 ≡ read bs
    → netascii_remaining r ≡ bs ++ netascii_remaining (hand_out r n out).0
unfolding hand_out
hand_out-remaining r n [] bs e h = cc
hand_out-remaining r n (b ∷ out) bs e h =
    let rest = if r.eof then [] else owed r.pending_cr (contents r.src) in
    let taken : take n (b ∷ out) ≡ bs = ground arith in
    ap (λ t. t ++ rest) (e ∙ sym (take-append-drop n (b ∷ out)))
    ∙ append_assoc (take n (b ∷ out)) (drop n (b ∷ out)) rest
    ∙ ap (λ t. t ++ (drop n (b ∷ out) ++ rest)) taken

hand_out_size :
    (r : NetasciiReader) (n : ℕ) (out bs : Bytes)
    → (hand_out r n out).1 ≡ read bs
    → (length bs ≤ n) × (0 < n → 0 < length bs)
unfolding hand_out
hand_out_size r n [] bs h = cc
hand_out_size r n (b ∷ out) bs h = ground (arith, length-take n (b ∷ out))

hand_out-end :
    (r : NetasciiReader) (n : ℕ) (out : Bytes)
    → (hand_out r n out).1 ≡ end
    → (hand_out r n out).0 ≡ r × (out ≡ [])
unfolding hand_out
hand_out-end r n [] h = (refl, refl)
hand_out-end r n (b ∷ out) h = cc

pub netascii_read-next :
    (r : NetasciiReader) (n : ℕ) (bs : Bytes)
    → (netascii_read r n).1 ≡ read bs
    → netascii_remaining r ≡ bs ++ netascii_remaining (netascii_read r n).0
unfolding netascii_read
netascii_read-next r n bs h =
    let r' = (fill r.src r).0 in
    elim (Bool-cases (fill r.src r).1) [
      | inl stopped ↦ absurd (ground arith)
      | inr on ↦ rw on (
          sym (fill-remaining r.src r refl on)
          ∙ hand_out-remaining r' n r'.out bs refl (rw on at h))
    ]

pub netascii_read_size :
    (r : NetasciiReader) (n : ℕ) (bs : Bytes)
    → (netascii_read r n).1 ≡ read bs
    → (length bs ≤ n) × (0 < n → 0 < length bs)
unfolding netascii_read
netascii_read_size r n bs h =
    ground (arith, hand_out_size (fill r.src r).0 n (fill r.src r).0.out bs)

pub netascii_read-end :
    (r : NetasciiReader) (n : ℕ)
    → (netascii_read r n).1 ≡ end
    → (netascii_remaining r ≡ []) × (netascii_remaining (netascii_read r n).0 ≡ [])
unfolding netascii_read
netascii_read-end r n h =
    let r' = (fill r.src r).0 in
    ground (arith, fill-remaining r.src r refl, fill-eof r.src r, hand_out-end r' n r'.out)

-- The netascii reader behind the interface that the transfers read from.
abbrev pub netascii : Reader
netascii = record {
  State = NetasciiReader;
  remaining = netascii_remaining;
  next = netascii_read;
  next_read = netascii_read-next;
  next_fits = λ r n bs h. (netascii_read_size r n bs h).0;
  next_some = λ r n bs h. (netascii_read_size r n bs h).1;
  next_end = netascii_read-end;
}

-- No `Read` of the source fails.
abbrev pub is_whole : List Chunk → Bool
is_whole [] = true
is_whole (c ∷ cs) = elim c.error [ ReadError.failed ↦ false | _ ↦ is_whole cs ]

fill-is_whole :
    (l : List Chunk) (r : NetasciiReader)
    → r.src ≡ l
    → is_whole l ≡ true
    → (is_whole (fill l r).0.src ≡ true) × ((fill l r).1 ≡ false)
unfolding fill close_stream
fill-is_whole [] r e w = ground arith
fill-is_whole (c ∷ l) r e w = ground (
  arith,
  encode-src c.bytes (record r { src = l }),
  fill-is_whole l (encode (record r { src = l }) c.bytes),
)

hand_out-src :
    (r : NetasciiReader) (n : ℕ) (out : Bytes)
    → ((hand_out r n out).0.src ≡ r.src) × ((hand_out r n out).1 ≢ broken)
unfolding hand_out
hand_out-src r n [] = ground arith
hand_out-src r n (b ∷ out) = ground arith

netascii_read-is_whole :
    (r : NetasciiReader) (n : ℕ)
    → is_whole r.src ≡ true
    → (is_whole (netascii_read r n).0.src ≡ true) × ((netascii_read r n).1 ≢ broken)
unfolding netascii_read
netascii_read-is_whole r n w =
    let r' = (fill r.src r).0 in
    ground (arith, fill-is_whole r.src r refl, hand_out-src r' n r'.out)

-- Reading a netascii transfer to its end gives the netascii form of the file, however the file
-- comes in chunks and whatever the size of the buffer, in at most one call for each byte and one
-- for the end, while no read of the file fails.
pub drain-wire :
    (src : List Chunk) (n fuel : ℕ)
    → is_whole src ≡ true
    → 0 < n
    → length (wire (contents src)) < fuel
    → drain netascii fuel n (new_netascii_reader src) ≡ some (wire (contents src))
unfolding owed
drain-wire src n fuel w pos enough =
    drain-remaining netascii (λ r. is_whole r.src ≡ true) n pos (λ r. netascii_read-is_whole r n)
      fuel (new_netascii_reader src) w enough
