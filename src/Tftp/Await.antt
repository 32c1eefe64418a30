-- ===== src/Tftp/Await.antt =====
-- internal/tftp/read.go: awaitPacket, which waits for the next packet of the client. What each read of
-- the socket comes to is an event, and the code runs over the list of them.
pub mod Patience
pub mod Hearing
mod Tests
use go_fs.Base.{
  ℕ, zero, suc, ◌+◌, ◌-◌, ◌*◌, ◌/◌, ◌%◌, ◌^◌, ◌≤◌, ◌<◌, min, max, ◌≡◌, refl, sym, ap, ◌∙◌, subst,
  ◌≢◌, ◌↔◌, ◌⊎◌, inl, inr, Bool, true, false, not, ◌&&◌, ◌||◌, Option, none, some, List, [], ◌∷◌,
  ◌++◌, map, append-nil, append_assoc, arith, ltb, leb, ◌==◌, if◌then◌else◌, ltb→lt, lt→ltb, ==_iff,
  Bool-cases, Option-cases, List-cases, length, get_elem?, take, drop, replicate, length-append,
  take-append-drop, length-take, length-drop, take-length-append, take_all, drop_all,
  drop-length-append, All, All-append,
}
use go_fs.Base.Text.{Bytes, codes, bytes_eq, bytes_eq_iff, bytes_eq_refl, is_empty}
use go_fs.Tftp.Packet.{encode_error, err_not_defined, err_unknown_tid}

-- A read that timed out, also past the hard deadline or during a shutdown, one that failed, and a
-- packet of another address or of the client.
pub data Event : Type 0 where
  timed_out past_deadline shutting_down failed : Event
  from_other from_peer : Bytes → Event

-- What is sent meanwhile: the caller's resend, and packets to another address or to the client.
pub data Sent : Type 0 where
  resent : Sent
  to_other to_peer : Bytes → Sent

pub data Awaited : Type 0 where
  -- The packet, and the events that are still to come.
  received : Bytes → List Event → Awaited
  shut_down too_long broken gave_up : Awaited
  -- The events are used up, and it still waits.
  waiting : Awaited

abbrev pub after_sending : Sent → List Sent × Awaited → List Sent × Awaited
after_sending s (sent, result) = (s ∷ sent, result)

-- From the attempt of this number on.
unfoldable pub await_packet : ℕ → ℕ → List Event → List Sent × Awaited
await_packet retries attempt [] = ([], waiting)
await_packet retries attempt (timed_out ∷ events) =
    let next = after_sending resent (await_packet retries (attempt + 1) events) in
    if ltb attempt retries then next else ([], gave_up)
await_packet retries attempt (past_deadline ∷ events) =
    (to_peer (encode_error err_not_defined (codes "Transfer took too long")) ∷ [], too_long)
await_packet retries attempt (shutting_down ∷ events) = ([], shut_down)
await_packet retries attempt (failed ∷ events) = ([], broken)
await_packet retries attempt (from_other packet ∷ events) =
    after_sending (to_other (encode_error err_unknown_tid (codes "Unknown transfer ID")))
      (await_packet retries attempt events)
await_packet retries attempt (from_peer packet ∷ events) = ([], received packet events)
