-- ===== src/Tftp/Download/Running.antt =====
-- internal/tftp/read.go: `run` and `handshake`, over the events of the socket. What is sent to the
-- client is, in this order, the packets of the handshake, those of the window, which the transfer
-- keeps, and what ends it; packets to other addresses are left to `Await`.
use go_fs.Base.{
  ℕ, zero, suc, Bool, true, false, not, List, [], ◌∷◌, ◌++◌, ◌==◌, if◌then◌else◌, length,
}
use go_fs.Base.Text.{Bytes, codes}
use go_fs.Tftp.Streams.{Reader}
use go_fs.Tftp.Packet.{
  Setting, encode_oack, encode_error, op_ack, op_error, err_illegal_operation, uint16,
}
use go_fs.Tftp.Await.{Event, Sent, resent, to_other, to_peer, Awaited, received, await_packet}
use go_fs.Tftp.Download.{Download, send_window, fill_and_send, ack}

abbrev pub illegal : Bytes
illegal = encode_error err_illegal_operation (codes "Illegal TFTP operation")

-- What an awaited packet comes to in `handshake`.
pub data Answer : Type 0 where
  agrees : Answer
  again : Answer
  rejects : List Bytes → Answer

unfoldable pub answer : Bytes → Answer
answer (a ∷ b ∷ c ∷ d ∷ bs) =
    if uint16 a b == op_error
    then rejects []
    else if not (uint16 a b == op_ack)
    then rejects (illegal ∷ [])
    else if uint16 c d == 0
    then agrees
    else again
answer _ = again

-- How `handshake` ends: agreed, with the events still to come, failed, or waiting as the events are
-- used up.
pub data Shaken : Type 0 where
  agreed : List Event → Shaken
  failed_to : Shaken
  shaking : Shaken

-- What goes to the client while `handshake` awaits a packet; each resend is the packet given.
unfoldable pub heard : Bytes → List Sent → List Bytes
heard oack [] = []
heard oack (resent ∷ sent) = oack ∷ heard oack sent
heard oack (to_other p ∷ sent) = heard oack sent
heard oack (to_peer p ∷ sent) = p ∷ heard oack sent

unfoldable pub proceed_as :
    (List Event → List Bytes × Shaken) → List Event → Answer → List Bytes × Shaken
proceed_as rest later agrees = ([], agreed later)
proceed_as rest later again = rest later
proceed_as rest later (rejects packets) = (packets, failed_to)

-- The body of the loop of `handshake`.
unfoldable pub shake_on :
    (List Event → List Bytes × Shaken) → Bytes → List Sent × Awaited → List Bytes × Shaken
unfolding answer heard proceed_as
shake_on rest oack (sent, result) =
    let log = heard oack sent in
    elim result [
      | received msg later ↦
          let (more, end) = proceed_as rest later (answer msg) in (log ++ more, end)
      | Awaited.shut_down ↦ (log, failed_to)
      | Awaited.too_long ↦ (log, failed_to)
      | Awaited.broken ↦ (log, failed_to)
      | Awaited.gave_up ↦ (log, failed_to)
      | Awaited.waiting ↦ (log, shaking)
    ]

-- The loop of `handshake`; each round but the last takes an event.
unfoldable pub shake : ℕ → ℕ → Bytes → List Event → List Bytes × Shaken
unfolding shake_on
shake zero retries oack events = ([], shaking)
shake (suc fuel) retries oack events =
    shake_on (shake fuel retries oack) oack (await_packet retries 0 events)

-- `handshake`
unfoldable pub handshake : ℕ → List Setting → List Event → List Bytes × Shaken
unfolding shake
handshake retries acked events =
    let oack = encode_oack acked in
    let (log, end) = shake (suc (length events)) retries oack events in (oack ∷ log, end)

-- Where the loop of `run` stands behind a packet: it goes on, or it ends, with the last packets.
pub data Course : Type 0 where
  goes_on : Course
  ends : List Bytes → Course

module _ (r : Reader) where
  -- What `run` leaves: the transfer, what was sent behind its windows, and whether it still waits as
  -- the events are used up.
  pub record Outcome : Type 0 where
    pub greeting : List Bytes
    pub transfer : Download r
    pub farewell : List Bytes
    pub waits : Bool

  -- The resends while `run` awaits a packet.
  unfoldable pub resend_all : List Sent → Download r → Download r
  resend_all [] t = t
  resend_all (resent ∷ sent) t = resend_all sent (send_window r true t)
  resend_all (to_other p ∷ sent) t = resend_all sent t
  resend_all (to_peer p ∷ sent) t = resend_all sent t

  -- The error that `awaitPacket` ends with, if any.
  unfoldable pub last_words : List Sent → List Bytes
  last_words [] = []
  last_words (resent ∷ sent) = last_words sent
  last_words (to_other p ∷ sent) = last_words sent
  last_words (to_peer p ∷ sent) = p ∷ last_words sent

  abbrev pub course : Bool → Course
  course over = if over then ends [] else goes_on

  -- The body of the loop of `run`, for one packet of the client.
  unfoldable pub take_packet : Bytes → Download r → Download r × Course
  take_packet (a ∷ b ∷ c ∷ d ∷ bs) t =
      if uint16 a b == op_error
      then (t, ends [])
      else if not (uint16 a b == op_ack)
      then (t, ends (illegal ∷ []))
      else ((ack r (uint16 c d) t).0, course (ack r (uint16 c d) t).1)
  take_packet _ t = (t, goes_on)

  abbrev pub ended : List Bytes → Bool → Download r → Outcome
  ended farewell waits t = record {
    greeting = [];
    transfer = t;
    farewell = farewell;
    waits = waits;
  }

  unfoldable pub continue_with :
      (List Event → Download r → Outcome) → List Event → Download r × Course → Outcome
  continue_with rest later (t, goes_on) = rest later t
  continue_with rest later (t, ends packets) = ended packets false t

  -- The body of the loop of `run` behind `await`; `rest` is what the loop does next.
  unfoldable pub serve_on :
      (List Event → Download r → Outcome) → Download r → List Sent × Awaited → Outcome
  unfolding resend_all last_words take_packet continue_with
  serve_on rest t (sent, result) =
      let t' = resend_all sent t in
      elim result [
        | received msg later ↦ continue_with rest later (take_packet msg t')
        | Awaited.shut_down ↦ ended (last_words sent) false t'
        | Awaited.too_long ↦ ended (last_words sent) false t'
        | Awaited.broken ↦ ended (last_words sent) false t'
        | Awaited.gave_up ↦ ended (last_words sent) false t'
        | Awaited.waiting ↦ ended [] true t'
      ]

  -- The loop of `run`; each round but the last takes an event.
  unfoldable pub serve : ℕ → ℕ → List Event → Download r → Outcome
  unfolding serve_on
  serve zero retries events t = ended [] true t
  serve (suc fuel) retries events t =
      serve_on (serve fuel retries) t (await_packet retries 0 events)

  -- `run` behind the handshake.
  unfoldable pub serve_first : ℕ → List Event → Download r → Outcome
  unfolding serve
  serve_first retries events t =
      let (t', on) = fill_and_send r t in
      if on then serve (suc (length events)) retries events t' else ended [] false t'

  unfoldable pub run_on : ℕ → Download r → List Bytes × Shaken → Outcome
  unfolding serve_first
  run_on retries t (log, agreed later) = record (serve_first retries later t) { greeting = log }
  run_on retries t (log, failed_to) = record (ended [] false t) { greeting = log }
  run_on retries t (log, shaking) = record (ended [] true t) { greeting = log }

  -- `run`, for the options that were agreed to.
  unfoldable pub run : ℕ → List Setting → List Event → Download r → Outcome
  unfolding run_on serve_first handshake
  run retries [] events t = serve_first retries events t
  run retries (o ∷ os) events t = run_on retries t (handshake retries (o ∷ os) events)
