-- ===== src/Tftp/Download/Serving.antt =====
-- Whole downloads of internal/tftp/read.go, to any client that falls silent in the end.
use go_fs.Base.{
  ℕ, zero, suc, ◌+◌, ◌-◌, ◌%◌, ◌^◌, ◌<◌, ◌≡◌, refl, sym, ap, ◌∙◌, subst, ◌≢◌, ◌⊎◌, inl, inr, Bool,
  true, false, not, ◌&&◌, ◌||◌, List, [], ◌∷◌, ◌++◌, append_assoc, arith, ltb, ◌==◌, ==_iff, length,
  take, length-append, All,
}
use go_fs.Base.Text.{Bytes}
use go_fs.Base.{if-either}
use go_fs.Tftp.Streams.{Reader, broken}
use go_fs.Tftp.Packet.{op_ack, op_error, uint16}
use go_fs.Tftp.Await.{
  Event, from_peer, Sent, resent, to_other, to_peer, Awaited, received, await_packet,
}
use go_fs.Tftp.Await.Hearing.{silence, Hears, hears, stopped, await_packet-Hears}
use go_fs.Tftp.Download.{
  Download, last_length, send_window, fill_and_send, complete, acked_count, ack, new_download,
}
use go_fs.Tftp.Download.Blocks.{blocks}
use go_fs.Tftp.Download.Sending.{IsBlock}
use go_fs.Tftp.Download.Delivery.{Waiting, send_window-Waiting, start-Waiting}
use go_fs.Tftp.Download.Acknowledging.{ack-Acked}
use go_fs.Tftp.Download.Keeping.{send_window-Keeps, fill_and_send-Keeps}
use go_fs.Tftp.Download.Running.{
  Course, goes_on, ends, Outcome, resend_all, last_words, course, take_packet, ended, continue_with,
  serve_on, serve, serve_first, illegal,
}

-- An ACK packet with the number of the last of `count` blocks, in 16 bits.
unfoldable pub acks : ℕ → Bytes → Bool
acks count (a ∷ b ∷ c ∷ d ∷ bs) = (uint16 a b == op_ack) && (uint16 c d % 2 ^ 16 == count % 2 ^ 16)
acks count _ = false

-- Among the events is a packet of the client that acknowledges the last block.
abbrev pub AcksLast : ℕ → List Event → Type 0
AcksLast count evs =
    (before later : List Event) × (msg : Bytes) × (evs ≡ before ++ from_peer msg ∷ later)
    × (acks count msg ≡ true)

AcksLast-behind :
    (count : ℕ) (before later evs : List Event) (msg : Bytes)
    → evs ≡ before ++ from_peer msg ∷ later
    → AcksLast count later
    → AcksLast count evs
AcksLast-behind count before later evs msg e (xs, ys, last, q, h) = (
  before ++ from_peer msg ∷ xs,
  ys,
  last,
  e
      ∙ (ap (λ z. before ++ from_peer msg ∷ z) q
          ∙ sym (append_assoc before (from_peer msg ∷ xs) (from_peer last ∷ ys))),
  h,
)

acked_number :
    (block base count : ℕ)
    → base + (block + 2 ^ 16 - base % 2 ^ 16) % 2 ^ 16 ≡ count
    → block % 2 ^ 16 ≡ count % 2 ^ 16
acked_number block base count h = omega arith

ack-block_size :
    (r : Reader) (block : ℕ) (t : Download r) → (ack r block t).0.block_size ≡ t.block_size
unfolding ack complete
ack-block_size r block t =
    let P = λ (z : Download r × Bool). z.0.block_size ≡ t.block_size in
    if-either P (acked_count r block t == 0 || ltb (length t.chunks) (acked_count r block t)) _ _
      (λ q. refl)
      (λ q.
        if-either P (ltb (last_length (take (acked_count r block t) t.chunks)) t.block_size) _ _
          (λ q. refl) (λ q. (fill_and_send-Keeps r _).block_size))

module _ (r : Reader) (Good : r.State → Type 0)
    (keep : (s : r.State) (n : ℕ) → Good s → Good (r.next s n).0 × ((r.next s n).1 ≢ broken))
    (file : Bytes) (n : ℕ) (small : length (blocks n file) < 2 ^ 64) where
  Live : Download r → Type 0
  Live t = Waiting r Good keep file t × (t.block_size ≡ n)

  abbrev OfFile : Download r → Type 0
  OfFile t = All (IsBlock (blocks n file)) t.wire

  -- The run is over, all that the windows carried are blocks of the file, and it is complete only if
  -- the last one was acknowledged.
  abbrev pub Served : List Event → Outcome r → Type 0
  Served evs o =
      (o.waits ≡ false)
      × OfFile o.transfer
      × ((o.transfer.completed ≡ false) ⊎ AcksLast (length (blocks n file)) evs)

  Live-OfFile : (t : Download r) → Live t → OfFile t
  unfolding Live
  Live-OfFile t (v, e) = subst (λ k. All (IsBlock (blocks k file)) t.wire) e v.wire

  ended-Served :
      (evs : List Event) (packets : List Bytes) (t : Download r)
      → Live t
      → Served evs (ended r packets false t)
  unfolding Live
  ended-Served evs packets t l = (refl, Live-OfFile t l, inl l.0.unfinished)

  send_window-Live : (t : Download r) → Live t → Live (send_window r true t)
  unfolding Live
  send_window-Live t (v, e) = (
    send_window-Waiting r Good keep file true t v.done v.left v.unfinished v.pos v.room v.whole
        v.window v.base (omega (arith, v.sent)) v.some_chunk v.fits (inl v.started) v.wire,
    (send_window-Keeps r true t).block_size ∙ e,
  )

  resend_all-Live : (sent : List Sent) (t : Download r) → Live t → Live (resend_all r sent t)
  unfolding resend_all
  resend_all-Live [] t l = l
  resend_all-Live (resent ∷ sent) t l = resend_all-Live sent _ (send_window-Live t l)
  resend_all-Live (to_other p ∷ sent) t l = resend_all-Live sent t l
  resend_all-Live (to_peer p ∷ sent) t l = resend_all-Live sent t l

  -- What a packet of the client leaves.
  abbrev Taken : Bytes → Download r × Course → Type 0
  Taken msg (t, c) =
      ((c ≡ goes_on) × Live t)
      ⊎ ((packets : List Bytes) × (c ≡ ends packets)
          × OfFile t
          × ((t.completed ≡ false) ⊎ (acks (length (blocks n file)) msg ≡ true)))

  stays :
      (msg : Bytes) (packets : List Bytes) (t : Download r) → Live t → Taken msg (t, ends packets)
  unfolding Live
  stays msg packets t l = inr (packets, refl, Live-OfFile t l, inl l.0.unfinished)

  ack-Taken :
      (a b c d : ℕ) (bs : Bytes) (t : Download r)
      → uint16 a b ≡ op_ack
      → Live t
      → Taken (a ∷ b ∷ c ∷ d ∷ bs) ((ack r (uint16 c d) t).0, course r (ack r (uint16 c d) t).1)
  unfolding Live acks
  ack-Taken a b c d bs t is (v, e) =
      elim (ack-Acked r Good keep file (uint16 c d) t v
        (subst (λ k. length (blocks k file) < 2 ^ 64) (sym e) small)) [
          | inl (useless, same) ↦
              inl (ap (λ z. course r z.1) same, subst (λ z. Live z.0) (sym same) (v, e))
          | inr (inl (p, h, before, on, g)) ↦ inl (ap (course r) on, (g.waits, g.block_size ∙ e))
          | inr (inr (p, h, last, over, f)) ↦ inr (
            [],
            ap (course r) over,
            subst (λ k. All (IsBlock (blocks k file)) (ack r (uint16 c d) t).0.wire) e f.wire,
            inr (λ i.
                (==_iff (uint16 a b) op_ack).1 is i
                && (==_iff (uint16 c d % 2 ^ 16) _).1
                    (acked_number (uint16 c d) t.window_base _
                      (last ∙ ap (λ k. length (blocks k file)) e))
                    i),
          )
        ]

  take_packet-Taken : (msg : Bytes) (t : Download r) → Live t → Taken msg (take_packet r msg t)
  unfolding take_packet
  take_packet-Taken (a ∷ b ∷ c ∷ d ∷ bs) t l =
      if-either (Taken (a ∷ b ∷ c ∷ d ∷ bs)) (uint16 a b == op_error) _ _ (λ q. stays _ [] t l)
        (λ q.
          if-either (Taken (a ∷ b ∷ c ∷ d ∷ bs)) (not (uint16 a b == op_ack)) _ _
            (λ q. stays _ (illegal ∷ []) t l) (λ q. ack-Taken a b c d bs t (ground arith) l))
  take_packet-Taken [] t l = inl (refl, l)
  take_packet-Taken (a ∷ []) t l = inl (refl, l)
  take_packet-Taken (a ∷ b ∷ []) t l = inl (refl, l)
  take_packet-Taken (a ∷ b ∷ c ∷ []) t l = inl (refl, l)

  module _ (retries m : ℕ) (silent : retries < m) where
    -- The loop goes on in the same way, behind the packet.
    continue_with-Served :
        (rest : List Event → Download r → Outcome r) (evs before later : List Event) (msg : Bytes)
        (z : Download r × Course)
        → evs ≡ before ++ from_peer msg ∷ later
        → Taken msg z
        → ((t : Download r) → Live t → Served later (rest (later ++ silence m) t))
        → Served evs (continue_with r rest (later ++ silence m) z)
    unfolding continue_with
    continue_with-Served rest evs before later msg (t, goes_on) e (inl (c, l)) go =
        let (over, wire, done) = go t l in
        (
          over,
          wire,
          elim done [
            | inl h ↦ inl h
            | inr h ↦ inr (AcksLast-behind (length (blocks n file)) before later evs msg e h)
          ],
        )
    continue_with-Served rest evs before later msg (t, goes_on) e (inr (packets, c, wire, done))
          go =
        absurd cc
    continue_with-Served rest evs before later msg (t, ends packets) e (inl (c, l)) go = absurd cc
    continue_with-Served rest evs before later msg (t, ends packets) e (inr (_, c, wire, done)) go =
        (refl, wire, elim done [ inl h ↦ inl h | inr h ↦ inr (before, later, msg, e, h) ])

    serve_on-Served :
        (rest : List Event → Download r → Outcome r) (evs : List Event) (t : Download r)
        (sent : List Sent) (result : Awaited)
        → Hears evs m result
        → Live t
        → ((later : List Event)
            → length later < length evs
            → (t' : Download r) → Live t'
            → Served later (rest (later ++ silence m) t'))
        → Served evs (serve_on r rest t (sent, result))
    unfolding serve_on
    serve_on-Served rest evs t sent _ (hears before later msg e) l go =
        continue_with-Served rest evs before later msg _ e
          (take_packet-Taken msg (resend_all r sent t) (resend_all-Live sent t l))
          (go later (omega (arith, ap length e, length-append before (from_peer msg ∷ later))))
    serve_on-Served rest evs t sent (received msg later) (stopped _ s) l go = absurd cc
    serve_on-Served rest evs t sent Awaited.shut_down (stopped _ s) l go =
        ended-Served evs (last_words r sent) _ (resend_all-Live sent t l)
    serve_on-Served rest evs t sent Awaited.too_long (stopped _ s) l go =
        ended-Served evs (last_words r sent) _ (resend_all-Live sent t l)
    serve_on-Served rest evs t sent Awaited.broken (stopped _ s) l go =
        ended-Served evs (last_words r sent) _ (resend_all-Live sent t l)
    serve_on-Served rest evs t sent Awaited.gave_up (stopped _ s) l go =
        ended-Served evs (last_words r sent) _ (resend_all-Live sent t l)
    serve_on-Served rest evs t sent Awaited.waiting (stopped _ s) l go = absurd cc

    serve-Served :
        (fuel : ℕ) (evs : List Event) (t : Download r)
        → length evs < fuel
        → Live t
        → Served evs (serve r fuel retries (evs ++ silence m) t)
    unfolding serve
    serve-Served zero evs t h l = absurd (omega arith)
    serve-Served (suc fuel) evs t h l =
        let (sent, result) = await_packet retries 0 (evs ++ silence m) in
        serve_on-Served (serve r fuel retries) evs t sent result
          (await_packet-Hears retries 0 m evs (omega arith) silent) l
          (λ later k t' l'. serve-Served fuel later t' (omega arith) l')

    pub serve_first-Served :
        (evs : List Event) (src : r.State) (window_size : ℕ)
        → 0 < n
        → 0 < window_size
        → Good src
        → r.remaining src ≡ file
        → Served evs (serve_first r retries (evs ++ silence m) (new_download r src n window_size))
    unfolding serve_first Live
    serve_first-Served evs src window_size pos room g e =
        let t = new_download r src n window_size in
        let (on, v) = start-Waiting r Good keep file src n window_size pos room g e in
        rw (on) (
          serve-Served (suc (length (evs ++ silence m))) evs (fill_and_send r t).0
            (omega (arith, length-append evs (silence m)))
            (v, (fill_and_send-Keeps r t).block_size))
