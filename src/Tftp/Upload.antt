-- ===== src/Tftp/Upload.antt =====
-- internal/tftp/write.go: a write transfer. The packets handed to the socket are kept in `wire`, the
-- oldest first; reads of the socket are the events of `Await`. The renaming of the temporary file onto
-- the destination is the result `stored_as`; the log and the chmod are left out.
pub mod Receiving
pub mod Delivery
pub mod Order
mod Tests
use go_fs.Base.{
  ℕ, zero, suc, ◌+◌, ◌-◌, ◌*◌, ◌/◌, ◌%◌, ◌^◌, ◌≤◌, ◌<◌, min, max, ◌≡◌, refl, sym, ap, ◌∙◌, subst,
  ◌≢◌, ◌↔◌, ◌⊎◌, inl, inr, Bool, true, false, not, ◌&&◌, ◌||◌, Option, none, some, List, [], ◌∷◌,
  ◌++◌, map, append-nil, append_assoc, arith, ltb, leb, ◌==◌, if◌then◌else◌, ltb→lt, lt→ltb, ==_iff,
  Bool-cases, Option-cases, List-cases, length, get_elem?, take, drop, replicate, length-append,
  take-append-drop, length-take, length-drop, take-length-append, take_all, drop_all,
  drop-length-append, All, All-append,
}
use go_fs.Base.Text.{Bytes, codes, bytes_eq, bytes_eq_iff, bytes_eq_refl, is_empty}
use go_fs.Base.Decimal.{itoa}
use go_fs.Tftp.Sinks.{Sink}
use go_fs.Tftp.Packet.{
  Setting, encode_ack, encode_oack, encode_error, op_data, op_error, err_disk_full,
  err_illegal_operation, err_unknown_tid, uint16,
}
use go_fs.Tftp.Await.{
  Event, timed_out, past_deadline, shutting_down, failed, from_other, from_peer, Sent, resent,
  to_other, to_peer, Awaited, received, await_packet,
}

-- Whether `file.Close` and `os.Rename` succeed.
pub record Closing : Type 0 where
  pub closes : Bool
  pub renames : Bool

-- Where the loop of `run` stands behind a packet: `continue`, the return behind `finish`, whose flag
-- is `t.completed`, or an early return.
pub data Progress : Type 0 where
  go_on : Progress
  finishes : Bool → Progress
  aborts : Progress

-- What is left of a transfer: the upload under the name of the destination, or nothing, the temporary
-- file removed.
pub data Ending : Type 0 where
  stored_as : Bytes → Ending
  removed : Ending
  -- The events are used up, and it still waits.
  waits : Ending

unfoldable pub too_big : ℕ → Bytes
too_big limit = codes "File exceeds the maximum of " ++ (itoa limit ++ codes " bytes")

module _ (k : Sink) where
  open k use {State, put, finished, stored}

  -- `writeTransfer`; the block count is a uint32, and a `max_file_size` of 0 is none.
  pub record Upload : Type 0 where
    pub sink : State
    pub block_size : ℕ
    pub retries : ℕ
    pub acked : List Setting
    pub max_file_size : ℕ
    pub expected_block : ℕ
    pub bytes_written : ℕ
    pub wire : List Sent

  -- `t.send`
  abbrev pub send : Bytes → Upload → Upload
  send packet t = record t { wire = t.wire ++ to_peer packet ∷ [] }

  -- `encodeACK(uint16(t.expectedBlock - 1))`
  abbrev pub last_ack : Upload → Bytes
  last_ack t = encode_ack ((t.expected_block + (2 ^ 32 - 1)) % 2 ^ 32 % 2 ^ 16)

  abbrev pub has_options : List Setting → Bool
  has_options [] = false
  has_options (o ∷ os) = true

  -- The packet of the function `resend` of `await`.
  unfoldable pub resend_packet : Upload → Bytes
  resend_packet t =
      if t.expected_block == 1 && has_options t.acked then encode_oack t.acked else last_ack t

  -- What `awaitPacket` sent, with the packet of `resend` in its places.
  unfoldable pub settle : Bytes → List Sent → List Sent
  settle packet [] = []
  settle packet (resent ∷ sent) = to_peer packet ∷ settle packet sent
  settle packet (to_other p ∷ sent) = to_other p ∷ settle packet sent
  settle packet (to_peer p ∷ sent) = to_peer p ∷ settle packet sent

  -- `finish`, up to `dally`.
  unfoldable pub finish : Closing → Upload → Upload × Progress
  finish fs t =
      let t' = record t { sink = finished t.sink } in
      if not fs.closes
      then (send (encode_error err_disk_full (codes "Write error")) t', finishes false)
      else if not fs.renames
      then (send (encode_error err_disk_full (codes "Write error")) t', finishes false)
      else (send (last_ack t') t', finishes true)

  -- The data of a block in its turn.
  unfoldable pub accept : Closing → ℕ → Bytes → Upload → Upload × Progress
  unfolding finish too_big
  accept fs block bs t =
      if ltb 0 t.max_file_size && ltb t.max_file_size (t.bytes_written + length bs)
      then (send (encode_error err_disk_full (too_big t.max_file_size)) t, aborts)
      else elim (put t.sink bs) [
        | none ↦ (send (encode_error err_disk_full (codes "Write error")) t, aborts)
        | some s ↦
            let t' = record t {
              sink = s;
              bytes_written = t.bytes_written + length bs;
              expected_block = (t.expected_block + 1) % 2 ^ 32;
            } in
            if ltb (length bs) t.block_size
            then finish fs t'
            else (send (encode_ack block) t', go_on)
      ]

  -- The body of the loop of `run`, for one packet of the client.
  unfoldable pub receive : Closing → Bytes → Upload → Upload × Progress
  unfolding accept
  receive fs (a ∷ b ∷ c ∷ d ∷ bs) t =
      let block = uint16 c d in
      if uint16 a b == op_error
      then (t, aborts)
      else if not (uint16 a b == op_data)
      then (send (encode_error err_illegal_operation (codes "Illegal TFTP operation")) t, aborts)
      else if not (block == t.expected_block % 2 ^ 16)
      then (send (last_ack t) t, go_on)
      else accept fs block bs t
  receive fs _ t = (t, go_on)

  -- One packet while it dallies, and whether it goes on.
  unfoldable pub dally_packet : Bytes → Upload → Upload × Bool
  dally_packet (a ∷ b ∷ c ∷ d ∷ bs) t =
      if uint16 a b == op_error
      then (t, false)
      else if uint16 a b == op_data
      then (send (last_ack t) t, true)
      else (t, true)
  dally_packet _ t = (t, true)

  -- `dally`: a read that fails or times out ends it.
  unfoldable pub dally : List Event → Upload → Upload
  unfolding dally_packet
  dally (from_other p ∷ events) t = dally events (record t {
    wire = t.wire ++ to_other (encode_error err_unknown_tid (codes "Unknown transfer ID")) ∷ [];
  })
  dally (from_peer p ∷ events) t =
      let (t', on) = dally_packet p t in let rest = dally events t' in if on then rest else t'
  dally _ t = t

  -- The return of `run` behind `finish`, with the deferred `cleanup`.
  unfoldable pub conclude : Bool → List Event → Upload → Upload × Ending
  conclude true later t = (dally later t, stored_as (stored t.sink))
  conclude false later t = (t, removed)

  -- The body of the loop of `run` behind `await`; `rest` is what the loop does next.
  unfoldable pub respond :
      (List Event → Upload → Upload × Ending)
      → Closing
      → Upload
      → List Sent × Awaited
      → Upload × Ending
  unfolding conclude
  respond rest fs t (sent, result) =
      let t' = record t { wire = t.wire ++ settle (resend_packet t) sent } in
      elim result [
        | received msg later ↦
            let (t'', progress) = receive fs msg t' in
            elim progress [
              | go_on ↦ rest later t''
              | finishes completed ↦ conclude completed later t''
              | aborts ↦ (t'', removed)
            ]
        | Awaited.shut_down ↦ (t', removed)
        | Awaited.too_long ↦ (t', removed)
        | Awaited.broken ↦ (t', removed)
        | Awaited.gave_up ↦ (t', removed)
        | Awaited.waiting ↦ (t', waits)
      ]

  -- The loop of `run`; each round but the last takes an event.
  unfoldable pub serve : ℕ → Closing → List Event → Upload → Upload × Ending
  unfolding respond
  serve zero fs events t = (t, waits)
  serve (suc fuel) fs events t = respond (serve fuel fs) fs t (await_packet t.retries 0 events)

  -- The first packet of `run`.
  unfoldable pub greet : Upload → Upload
  greet t = if has_options t.acked then send (encode_oack t.acked) t else send (encode_ack 0) t

  unfoldable pub run : Closing → List Event → Upload → Upload × Ending
  unfolding greet
  run fs events t = serve (suc (length events)) fs events (greet t)

  -- `startWrite` makes it of what `negotiate` agreed to.
  abbrev pub new_upload : State → ℕ → ℕ → List Setting → ℕ → Upload
  new_upload sink block_size retries acked max_file_size = record {
    sink = sink;
    block_size = block_size;
    retries = retries;
    acked = acked;
    max_file_size = max_file_size;
    expected_block = 1;
    bytes_written = 0;
    wire = [];
  }
