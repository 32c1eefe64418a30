-- ===== src/Tftp/Netascii.antt =====
-- internal/tftp/netascii.go: the conversion of line endings on the way to and from the wire.
-- A byte slice is a list of numbers. What successive `Read`s of the wrapped reader return is a
-- list, after which that reader keeps answering `io.EOF`.
pub mod Wire
pub mod Reading
pub mod Writing
use go_fs.Base.{
  ℕ, zero, suc, ◌+◌, ◌-◌, ◌*◌, ◌/◌, ◌%◌, ◌^◌, ◌≤◌, ◌<◌, min, max, ◌≡◌, refl, sym, ap, ◌∙◌, subst,
  ◌≢◌, ◌↔◌, ◌⊎◌, inl, inr, Bool, true, false, not, ◌&&◌, ◌||◌, Option, none, some, List, [], ◌∷◌,
  ◌++◌, map, append-nil, append_assoc, arith, ltb, leb, ◌==◌, if◌then◌else◌, ltb→lt, lt→ltb, ==_iff,
  Bool-cases, Option-cases, length, get_elem?, take, drop, replicate, length-append,
  take-append-drop, length-take, length-drop, All, All-append,
}
use go_fs.Tftp.Streams.{ReadResult, read, end, broken, Reader, Writer}
use go_fs.Base.Text.{Bytes, codes, bytes_eq, bytes_eq_iff, bytes_eq_refl}

abbrev pub cr : ℕ
cr = 0x0D

abbrev pub lf : ℕ
lf = 0x0A

abbrev pub nul : ℕ
nul = 0x00

-- What the wrapped reader says beside the bytes of one `Read`.
pub data ReadError : Type 0 where
  nil eof failed : ReadError

pub record Chunk : Type 0 where
  pub bytes : Bytes
  pub error : ReadError

-- `netasciiReader`. The buffer `in` is only the space that a `Read` of `src` fills.
pub record NetasciiReader : Type 0 where
  pub src : List Chunk
  pub out : Bytes
  pub pending_cr : Bool
  pub eof : Bool

abbrev pub new_netascii_reader : List Chunk → NetasciiReader
new_netascii_reader src = record { src = src; out = []; pending_cr = false; eof = false }

-- The body of the loop of `encode`, for one byte: what it appends to `out`, and `pendingCR`.
pub encode_byte : Bool → ℕ → Bytes × Bool
encode_byte pending b =
    if pending
    then (if b == lf
        then (lf ∷ [], false)
        else if b == cr
        then (nul ∷ cr ∷ [], true)
        else (nul ∷ b ∷ [], false))
    else if b == cr
    then (cr ∷ [], true)
    else if b == lf
    then (cr ∷ lf ∷ [], false)
    else (b ∷ [], false)

append_byte : NetasciiReader → ℕ → NetasciiReader
append_byte r b =
    let (bs, pending) = encode_byte r.pending_cr b in
    record r { out = r.out ++ bs; pending_cr = pending }

pub encode : NetasciiReader → Bytes → NetasciiReader
encode r [] = r
encode r (b ∷ chunk) = encode (append_byte r b) chunk

-- `if err == io.EOF`: the stream has ended, and a pending carriage return is completed.
pub close_stream : NetasciiReader → NetasciiReader
close_stream r =
    if r.pending_cr
    then record r { eof = true; pending_cr = false; out = r.out ++ nul ∷ [] }
    else record r { eof = true }

-- The loop of `Read`: it reads on while nothing is there to hand out. The flag says whether it
-- returned the error of `src`.
pub fill : List Chunk → NetasciiReader → NetasciiReader × Bool
fill [] r =
    if r.eof
    then (r, false)
    else elim r.out [ [] ↦ (close_stream (record r { src = [] }), false) | _ ∷ _ ↦ (r, false) ]
fill (c ∷ rest) r =
    let more = fill rest in
    if r.eof then (r, false) else elim r.out [
      | [] ↦
          let r' = encode (record r { src = rest }) c.bytes in
          elim c.error [
            | ReadError.nil ↦ more r'
            | ReadError.eof ↦ (close_stream r', false)
            | ReadError.failed ↦ (r', true)
          ]
      | _ ∷ _ ↦ (r, false)
    ]

-- What `Read` does behind the loop.
hand_out : NetasciiReader → ℕ → Bytes → NetasciiReader × ReadResult
hand_out r n [] = (r, end)
hand_out r n (b ∷ out) = (record r { out = drop n (b ∷ out) }, read (take n (b ∷ out)))

-- `Read(p)` with `len(p)` = `n`.
pub netascii_read : NetasciiReader → ℕ → NetasciiReader × ReadResult
netascii_read r n =
    let (r', stopped) = fill r.src r in if stopped then (r', broken) else hand_out r' n r'.out

-- The body of the loop of `Write`, for one byte: what it appends to `out`, and `pendingCR`.
unfoldable pub decode_byte : Bool → ℕ → Bytes × Bool
decode_byte pending b =
    if pending
    then (if b == lf
        then (lf ∷ [], false)
        else if b == nul
        then (cr ∷ [], false)
        else if b == cr
        then (cr ∷ [], true)
        else (cr ∷ b ∷ [], false))
    else if b == cr
    then ([], true)
    else (b ∷ [], false)

-- The loop of `Write`: `out`, and `pendingCR` behind it.
unfoldable pub decode : Bool → Bytes → Bytes × Bool
decode pending [] = ([], pending)
decode pending (b ∷ p) =
    let (out, pending') = decode_byte pending b in
    let (rest, last) = decode pending' p in (out ++ rest, last)

-- `netasciiWriter`, in front of the writer `w`.
module _ (w : Writer) where
  open w use {State, write}

  pub record NetasciiWriter : Type 0 where
    pub dst : State
    pub pending_cr : Bool

  abbrev pub new_netascii_writer : State → NetasciiWriter
  new_netascii_writer dst = record { dst = dst; pending_cr = false }

  -- `if len(out) > 0 { w.dst.Write(out) }`; the flag says whether the write went through.
  unfoldable pub write_out : NetasciiWriter → Bytes → NetasciiWriter × Bool
  write_out t [] = (t, true)
  write_out t (b ∷ out) = elim (write t.dst (b ∷ out)) [
    | none ↦ (t, false)
    | some dst ↦ (record t { dst = dst }, true)
  ]

  -- `Write(p)`, which reports all of `p` as consumed when it returns no error.
  unfoldable pub netascii_write : NetasciiWriter → Bytes → NetasciiWriter × Bool
  netascii_write t p =
      let (out, pending) = decode t.pending_cr p in
      write_out (record t { pending_cr = pending }) out

  unfoldable pub flush : NetasciiWriter → NetasciiWriter × Bool
  flush t =
      if t.pending_cr then write_out (record t { pending_cr = false }) (cr ∷ []) else (t, true)
