-- ===== src/Tftp/Download.antt =====
-- internal/tftp/read.go: a read transfer, by windows of blocks (RFC 7440). The file, netascii or
-- not, is a `Reader`. The packets that `send` hands to the socket are kept in `wire`, the oldest
-- first; the counters for the log records are left out where nothing reads them.
pub mod Blocks
pub mod Filling
pub mod Sending
pub mod Delivery
pub mod Keeping
pub mod Acknowledging
pub mod Completion
pub mod Truncation
pub mod Running
pub mod Serving
pub mod Handshaking
use go_fs.Base.{
  ℕ, zero, suc, ◌+◌, ◌-◌, ◌*◌, ◌/◌, ◌%◌, ◌^◌, ◌≤◌, ◌<◌, min, max, ◌≡◌, refl, sym, ap, ◌∙◌, subst,
  ◌≢◌, ◌↔◌, ◌⊎◌, inl, inr, Bool, true, false, not, ◌&&◌, ◌||◌, Option, none, some, List, [], ◌∷◌,
  ◌++◌, map, append-nil, append_assoc, arith, ltb, leb, ◌==◌, if◌then◌else◌, ltb→lt, lt→ltb, ==_iff,
  Bool-cases, Option-cases, length, get_elem?, take, drop, replicate, length-append,
  take-append-drop, length-take, length-drop, All, All-append,
}
use go_fs.Base.Text.{Bytes, codes, bytes_eq, bytes_eq_iff, bytes_eq_refl}
use go_fs.Tftp.Streams.{Reader, ReadResult, read, end, broken}
use go_fs.Tftp.Packet.{encode_data, encode_error, err_not_defined}

-- `io.ReadFull` with room for `n` bytes: what it read, and whether it stopped on an error that is
-- not the end of the file. Each `Read` of a non-empty buffer gives a byte at least.
module _ (r : Reader) where
  open r use {State, next}

  unfoldable pub read_full : ℕ → ℕ → State → State × Bytes × Bool
  read_full zero n s = (s, [], false)
  read_full (suc fuel) n s =
      let s' = (next s n).0 in
      let more = λ (bs : Bytes). read_full fuel (n - length bs) s' in
      if n == 0 then (s, [], false) else elim (next s n).1 [
        | ReadResult.read bs ↦ ((more bs).0, bs ++ (more bs).1, (more bs).2)
        | ReadResult.end ↦ (s', [], false)
        | ReadResult.broken ↦ (s', [], true)
      ]

  pub record Download : Type 0 where
    pub src : State
    pub block_size : ℕ
    pub window_size : ℕ
    pub window_base : ℕ
    pub chunks : List Bytes
    pub sent_count : ℕ
    pub last_chunk_length : ℕ
    pub blocks_sent : ℕ
    pub new_blocks : ℕ
    pub resent_blocks : ℕ
    pub pending_resend : Bool
    pub stream_ended : Bool
    pub completed : Bool
    pub wire : List Bytes

-- What `readChunk` returns: a block, `nil`, or an error.
pub data ChunkResult : Type 0 where
  chunk : Bytes → ChunkResult
  no_chunk : ChunkResult
  read_error : ChunkResult

unfoldable pub chunk_of : Bytes → Bool → ChunkResult
chunk_of [] true = read_error
chunk_of [] false = no_chunk
chunk_of (b ∷ bs) failed = chunk (b ∷ bs)

abbrev pub last_length : List Bytes → ℕ
last_length [] = 0
last_length (c ∷ []) = length c
last_length (c ∷ d ∷ cs) = last_length (d ∷ cs)

module _ (r : Reader) where
  open r use {State}

  unfoldable pub read_chunk : State → ℕ → State × ChunkResult
  unfolding chunk_of
  read_chunk s block_size =
      let (s', bs, failed) = read_full r block_size block_size s in (s', chunk_of bs failed)

  -- One round of the loop of `sendWindow`, for the chunk number `i`.
  unfoldable pub send_chunk : ℕ → ℕ → Bytes → Download r → Download r
  send_chunk i already c t =
      let fresh = leb already i in
      record t {
        wire = t.wire ++ encode_data ((t.window_base + 1 + i) % 2 ^ 16) c ∷ [];
        blocks_sent = t.blocks_sent + 1;
        resent_blocks = if fresh then t.resent_blocks else t.resent_blocks + 1;
        new_blocks = if fresh then t.new_blocks + 1 else t.new_blocks;
      }

  -- The loop of `sendWindow` over the chunks from number `i` on.
  unfoldable pub send_chunks : ℕ → ℕ → List Bytes → Download r → Download r
  send_chunks i already [] t = t
  send_chunks i already (c ∷ cs) t = send_chunks (suc i) already cs (send_chunk i already c t)

  -- `sendWindow(resend)`; it is called with a chunk in the window.
  unfoldable pub send_window : Bool → Download r → Download r
  send_window resend t =
      let first = if resend then 0 else t.sent_count in
      let t' = send_chunks first t.sent_count (drop first t.chunks) t in
      record t' { sent_count = length t.chunks; last_chunk_length = last_length t.chunks }

  unfoldable pub complete : Download r → Download r
  complete t = record t { completed = true }

  -- The loop of `fillAndSend`, which reports whether a read failed. Each round but the last one
  -- adds a chunk, so `window_size` rounds are enough.
  unfoldable pub top_up : ℕ → Download r → Download r × Bool
  top_up zero t = (t, false)
  top_up (suc fuel) t =
      let (s, res) = read_chunk t.src t.block_size in
      let more = λ (c : Bytes). top_up fuel (record t { src = s; chunks = t.chunks ++ c ∷ [] }) in
      if ltb (length t.chunks) t.window_size && not t.stream_ended
      then elim res [
        | chunk c ↦ more c
        | no_chunk ↦ (record t { src = s; stream_ended = true }, false)
        | read_error ↦ (
          record t {
            src = s;
            wire = t.wire ++ encode_error err_not_defined (codes "Read error") ∷ [];
          },
          true,
        )
      ]
      else (t, false)

  -- What `fillAndSend` does once the window is topped up.
  unfoldable pub send_or_end : Download r → List Bytes → Download r × Bool
  send_or_end t [] =
      if t.blocks_sent == 0 || t.last_chunk_length == t.block_size
      then (send_window false (record t { chunks = [] ∷ [] }), true)
      else (complete t, false)
  send_or_end t (c ∷ cs) =
      (send_window t.pending_resend (record t { pending_resend = false }), true)

  -- `fillAndSend`, which reports whether the transfer goes on.
  unfoldable pub fill_and_send : Download r → Download r × Bool
  unfolding send_or_end
  fill_and_send t =
      let (t', failed) = top_up t.window_size t in
      if failed then (t', false) else send_or_end t' t'.chunks

  -- `int(block - uint16(t.windowBase))`
  abbrev pub acked_count : ℕ → Download r → ℕ
  acked_count block t = (block + 2 ^ 16 - t.window_base % 2 ^ 16) % 2 ^ 16

  -- `ack(block)`, which reports whether the transfer is over.
  unfoldable pub ack : ℕ → Download r → Download r × Bool
  ack block t =
      let acked = acked_count block t in
      if acked == 0 || ltb (length t.chunks) acked
      then (t, false)
      -- `chunks[acked-1]` is the last of `chunks[:acked]`
      else if ltb (last_length (take acked t.chunks)) t.block_size
      then (complete t, true)
      else let (t', on) = fill_and_send (record t {
        pending_resend = ltb acked (length t.chunks) && leb t.resent_blocks t.new_blocks;
        window_base = (t.window_base + acked) % 2 ^ 64;
        chunks = drop acked t.chunks;
        sent_count = t.sent_count - acked;
      }) in
        (t', not on)

  abbrev pub new_download : State → ℕ → ℕ → Download r
  new_download src block_size window_size = record {
    src = src;
    block_size = block_size;
    window_size = window_size;
    window_base = 0;
    chunks = [];
    sent_count = 0;
    last_chunk_length = 0;
    blocks_sent = 0;
    new_blocks = 0;
    resent_blocks = 0;
    pending_resend = false;
    stream_ended = false;
    completed = false;
    wire = [];
  }
