-- ===== src/Tftp/Download/Handshaking.antt =====
-- `run` of internal/tftp/read.go as a whole, with the handshake where options were agreed to.
use go_fs.Base.{
  ℕ, zero, suc, ◌^◌, ◌<◌, ◌≡◌, refl, sym, ap, ◌∙◌, ◌≢◌, inl, inr, List, [], ◌∷◌, ◌++◌, append_assoc,
  arith, length, length-append,
}
use go_fs.Base.Text.{Bytes}
use go_fs.Tftp.Streams.{Reader, broken}
use go_fs.Tftp.Packet.{Setting, encode_oack}
use go_fs.Tftp.Await.{Event, from_peer, Sent, Awaited, received, await_packet}
use go_fs.Tftp.Await.Hearing.{silence, Hears, hears, stopped, await_packet-Hears}
use go_fs.Tftp.Download.{new_download}
use go_fs.Tftp.Download.Blocks.{blocks}
use go_fs.Tftp.Download.Running.{
  Answer, agrees, again, rejects, answer, Shaken, agreed, failed_to, proceed_as, shake_on, shake,
  handshake, run, run_on,
}
use go_fs.Tftp.Download.Serving.{AcksLast, Served, serve_first-Served}

-- The handshake has come to an end, with the last `m` silences still ahead where it was agreed.
data Shook (evs : List Event) (m : ℕ) : Shaken → Type 0 where
  shook :
      (before later : List Event)
      → evs ≡ before ++ later
      → Shook evs m (agreed (later ++ silence m))
  unshaken : Shook evs m failed_to

Shook-behind :
    (before later evs : List Event) (m : ℕ) (end : Shaken)
    → evs ≡ before ++ later
    → Shook later m end
    → Shook evs m end
Shook-behind before later evs m _ e (shook xs ys q) =
    shook (before ++ xs) ys (e ∙ (ap (λ z. before ++ z) q ∙ sym (append_assoc before xs ys)))
Shook-behind before later evs m _ e unshaken = unshaken

AcksLast-later :
    (count : ℕ) (before later evs : List Event)
    → evs ≡ before ++ later
    → AcksLast count later
    → AcksLast count evs
AcksLast-later count before later evs e (xs, ys, msg, q, h) = (
  before ++ xs,
  ys,
  msg,
  e ∙ (ap (λ z. before ++ z) q ∙ sym (append_assoc before xs (from_peer msg ∷ ys))),
  h,
)

module _ (retries m : ℕ) (oack : Bytes) (silent : retries < m) where
  proceed_as-Shook :
      (rest : List Event → List Bytes × Shaken) (evs before later : List Event) (msg : Bytes)
      (a : Answer)
      → evs ≡ before ++ from_peer msg ∷ later
      → Shook later m (rest (later ++ silence m)).1
      → Shook evs m (proceed_as rest (later ++ silence m) a).1
  unfolding proceed_as
  proceed_as-Shook rest evs before later msg agrees e h =
      shook (before ++ from_peer msg ∷ []) later
        (e ∙ sym (append_assoc before (from_peer msg ∷ []) later))
  proceed_as-Shook rest evs before later msg again e h =
      Shook-behind (before ++ from_peer msg ∷ []) later evs m _
        (e ∙ sym (append_assoc before (from_peer msg ∷ []) later)) h
  proceed_as-Shook rest evs before later msg (rejects packets) e h = unshaken

  shake_on-Shook :
      (rest : List Event → List Bytes × Shaken) (evs : List Event) (sent : List Sent)
      (result : Awaited)
      → Hears evs m result
      → ((later : List Event)
          → length later < length evs
          → Shook later m (rest (later ++ silence m)).1)
      → Shook evs m (shake_on rest oack (sent, result)).1
  unfolding shake_on
  shake_on-Shook rest evs sent _ (hears before later msg e) go =
      proceed_as-Shook rest evs before later msg (answer msg) e
        (go later (omega (arith, ap length e, length-append before (from_peer msg ∷ later))))
  shake_on-Shook rest evs sent (received msg later) (stopped _ s) go = absurd cc
  shake_on-Shook rest evs sent Awaited.shut_down (stopped _ s) go = unshaken
  shake_on-Shook rest evs sent Awaited.too_long (stopped _ s) go = unshaken
  shake_on-Shook rest evs sent Awaited.broken (stopped _ s) go = unshaken
  shake_on-Shook rest evs sent Awaited.gave_up (stopped _ s) go = unshaken
  shake_on-Shook rest evs sent Awaited.waiting (stopped _ s) go = absurd cc

  shake-Shook :
      (fuel : ℕ) (evs : List Event)
      → length evs < fuel
      → Shook evs m (shake fuel retries oack (evs ++ silence m)).1
  unfolding shake
  shake-Shook zero evs h = absurd (omega arith)
  shake-Shook (suc fuel) evs h =
      let (sent, result) = await_packet retries 0 (evs ++ silence m) in
      shake_on-Shook (shake fuel retries oack) evs sent result
        (await_packet-Hears retries 0 m evs (omega arith) silent)
        (λ later k. shake-Shook fuel later (omega arith))

module _ (r : Reader) (Good : r.State → Type 0)
    (keep : (s : r.State) (n : ℕ) → Good s → Good (r.next s n).0 × ((r.next s n).1 ≢ broken))
    (file : Bytes) (n : ℕ) (small : length (blocks n file) < 2 ^ 64) (retries m window_size : ℕ)
    (src : r.State) (silent : retries < m) (pos : 0 < n) (room : 0 < window_size) (good : Good src)
    (whole : r.remaining src ≡ file) where
  run_on-Served :
      (evs : List Event) (log : List Bytes) (end : Shaken)
      → Shook evs m end
      → Served r Good keep file n small evs
          (run_on r retries (new_download r src n window_size) (log, end))
  unfolding run_on
  run_on-Served evs log _ (shook before later e) =
      let (over, wire, done) =
        serve_first-Served r Good keep file n small retries m silent later src window_size pos room
          good whole in
      (
        over,
        wire,
        elim done [
          | inl h ↦ inl h
          | inr h ↦ inr (AcksLast-later (length (blocks n file)) before later evs e h)
        ],
      )
  run_on-Served evs log _ unshaken = (refl, tt, inl refl)

  -- Take a download of a file that is read without an error, in fewer than 2^64 blocks, with options or
  -- without, and any events of the socket that end in more silences than there are retries. The run
  -- ends. Every packet that its windows carried is a block of the file under its number, repeated ones
  -- included. It is reported as completed only if a packet of the client acknowledged the last block,
  -- by the low 16 bits of its number.
  pub run-Served :
      (acked : List Setting) (evs : List Event)
      → Served r Good keep file n small evs
          (run r retries acked (evs ++ silence m) (new_download r src n window_size))
  unfolding run handshake
  run-Served [] evs =
      serve_first-Served r Good keep file n small retries m silent evs src window_size pos room good
        whole
  run-Served (o ∷ os) evs = run_on-Served evs _ _ (
      shake-Shook retries m (encode_oack (o ∷ os)) silent (suc (length (evs ++ silence m))) evs
        (omega (arith, length-append evs (silence m))))
