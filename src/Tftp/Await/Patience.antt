-- ===== src/Tftp/Await/Patience.antt =====
-- How long awaitPacket of internal/tftp/read.go waits.
use go_fs.Base.{ℕ, suc, ◌+◌, ◌≤◌, ◌≡◌, refl, ap, List, [], ◌∷◌, ◌++◌, arith, lt→ltb}
use go_fs.Base.Text.{Bytes, codes}
use go_fs.Tftp.Packet.{encode_error, err_unknown_tid}
use go_fs.Tftp.Await.{
  Event, timed_out, from_other, from_peer, Sent, resent, to_other, received, gave_up, after_sending,
  await_packet,
}

-- What is no answer: silence, and packets of others.
pub data Noise : Type 0 where
  silence : Noise
  stray : Bytes → Noise

abbrev pub event : Noise → Event
event silence = timed_out
event (stray packet) = from_other packet

abbrev pub events : List Noise → List Event
events [] = []
events (n ∷ noise) = event n ∷ events noise

abbrev pub silences : List Noise → ℕ
silences [] = 0
silences (silence ∷ noise) = suc (silences noise)
silences (stray packet ∷ noise) = silences noise

-- Each silence is met with the resend, and each stray packet with an error to its sender.
abbrev pub replies : List Noise → List Sent
replies [] = []
replies (silence ∷ noise) = resent ∷ replies noise
replies (stray packet ∷ noise) =
    to_other (encode_error err_unknown_tid (codes "Unknown transfer ID")) ∷ replies noise

pub answered :
    (retries attempt : ℕ) (noise : List Noise) (packet : Bytes) (later : List Event)
    → attempt + silences noise ≤ retries
    → await_packet retries attempt (events noise ++ (from_peer packet ∷ later))
      ≡ (replies noise, received packet later)
unfolding await_packet
answered retries attempt [] packet later h = refl
answered retries attempt (silence ∷ noise) packet later h =
    let ih = answered retries (attempt + 1) noise packet later (omega (arith, h)) in
    rw (lt→ltb attempt retries (omega (arith, h))) (ap (after_sending resent) ih)
answered retries attempt (stray p ∷ noise) packet later h =
    ap (after_sending (to_other (encode_error err_unknown_tid (codes "Unknown transfer ID"))))
      (answered retries attempt noise packet later h)

unanswered :
    (retries attempt : ℕ) (noise : List Noise) (later : List Event)
    → attempt + silences noise ≡ retries
    → await_packet retries attempt (events noise ++ (timed_out ∷ later)) ≡ (replies noise, gave_up)
unfolding await_packet
unanswered retries attempt [] later h = ground arith
unanswered retries attempt (silence ∷ noise) later h =
    let ih = unanswered retries (attempt + 1) noise later (omega (arith, h)) in
    rw (lt→ltb attempt retries (omega (arith, h))) (ap (after_sending resent) ih)
unanswered retries attempt (stray p ∷ noise) later h =
    ap (after_sending (to_other (encode_error err_unknown_tid (codes "Unknown transfer ID"))))
      (unanswered retries attempt noise later h)

-- A packet of the client that comes after no more silences than there are retries is received, and
-- where there are as many silences as retries, one more makes the transfer give up. Up to then
-- each silence is met with one resend, and each packet of another address with an error to it,
-- which uses up no attempt.
pub await_packet-patience :
    (retries : ℕ) (noise : List Noise) (packet : Bytes) (later : List Event) (more : List Noise)
    → silences noise ≤ retries
    → silences more ≡ retries
    → (await_packet retries 0 (events noise ++ (from_peer packet ∷ later))
        ≡ (replies noise, received packet later))
      × (await_packet retries 0 (events more ++ (timed_out ∷ later)) ≡ (replies more, gave_up))
await_packet-patience retries noise packet later more h k = (
  answered retries 0 noise packet later (omega (arith, h)),
  unanswered retries 0 more later (omega (arith, k)),
)
