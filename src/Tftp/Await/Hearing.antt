-- ===== src/Tftp/Await/Hearing.antt =====
-- What awaitPacket of internal/tftp/read.go comes to where the client falls silent in the end.
use go_fs.Base.{
  ℕ, zero, suc, ◌+◌, ◌≤◌, ◌<◌, ◌≡◌, refl, ap, inl, inr, Bool, true, false, List, [], ◌∷◌, ◌++◌,
  arith, ltb, ltb→lt, Bool-cases, replicate,
}
use go_fs.Base.Text.{Bytes}
use go_fs.Tftp.Await.{
  Event, timed_out, past_deadline, shutting_down, failed, from_other, from_peer, Awaited, received,
  await_packet,
}

-- `n` reads that time out.
abbrev pub silence : ℕ → List Event
silence n = replicate n timed_out

abbrev pub stops : Awaited → Bool
stops (received msg later) = false
stops Awaited.waiting = false
stops _ = true

-- Either a packet of the client is received, with the events behind it to come, or the wait is over.
pub data Hears (evs : List Event) (n : ℕ) : Awaited → Type 0 where
  hears :
      (before later : List Event) (msg : Bytes)
      → evs ≡ before ++ from_peer msg ∷ later
      → Hears evs n (received msg (later ++ silence n))
  stopped : (a : Awaited) → stops a ≡ true → Hears evs n a

Hears-cons :
    (e : Event) (evs : List Event) (n : ℕ) (a : Awaited) → Hears evs n a → Hears (e ∷ evs) n a
Hears-cons e evs n _ (hears before later msg q) = hears (e ∷ before) later msg (ap (◌∷◌ e) q)
Hears-cons e evs n a (stopped _ s) = stopped a s

await_silence :
    (retries attempt n : ℕ)
    → attempt ≤ retries
    → retries < attempt + n
    → stops (await_packet retries attempt (silence n)).1 ≡ true
unfolding await_packet
await_silence retries attempt zero h k = absurd (omega arith)
await_silence retries attempt (suc n) h k = elim (Bool-cases (ltb attempt retries)) [
  | inl more ↦ rw (more) (
      await_silence retries (attempt + 1) n (omega (arith, ltb→lt attempt retries more))
        (omega arith))
  | inr last ↦ rw (last) refl
]

pub await_packet-Hears :
    (retries attempt n : ℕ) (evs : List Event)
    → attempt ≤ retries
    → retries < n
    → Hears evs n (await_packet retries attempt (evs ++ silence n)).1
unfolding await_packet
await_packet-Hears retries attempt n [] h k =
    stopped _ (await_silence retries attempt n h (omega arith))
await_packet-Hears retries attempt n (timed_out ∷ evs) h k =
    elim (Bool-cases (ltb attempt retries)) [
      | inl more ↦ rw (more) (
          Hears-cons timed_out evs n _ (
            await_packet-Hears retries (attempt + 1) n evs
              (omega (arith, ltb→lt attempt retries more)) k))
      | inr last ↦ rw (last) (stopped _ refl)
    ]
await_packet-Hears retries attempt n (past_deadline ∷ evs) h k = stopped _ refl
await_packet-Hears retries attempt n (shutting_down ∷ evs) h k = stopped _ refl
await_packet-Hears retries attempt n (failed ∷ evs) h k = stopped _ refl
await_packet-Hears retries attempt n (from_other p ∷ evs) h k =
    Hears-cons (from_other p) evs n _ (await_packet-Hears retries attempt n evs h k)
await_packet-Hears retries attempt n (from_peer p ∷ evs) h k = hears [] evs p refl
