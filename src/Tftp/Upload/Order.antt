-- ===== src/Tftp/Upload/Order.antt =====
-- What a completed upload of internal/tftp/write.go can hold, whatever the client sends.
use go_fs.Base.{
  ℕ, zero, suc, ◌+◌, ◌%◌, ◌^◌, ◌≤◌, ◌<◌, ◌≡◌, refl, sym, ap, ◌∙◌, subst, ◌≢◌, ◌⊎◌, inl, inr, Bool,
  true, false, ◌&&◌, some, List, [], ◌∷◌, ◌++◌, arith, ltb, ◌==◌, ltb→lt, ==_iff, Bool-cases,
  Option-cases, length,
}
use go_fs.Base.Text.{Bytes}
use go_fs.Tftp.Sinks.{Sink, put_all}
use go_fs.Tftp.Packet.{Setting, encode_ack, op_data, op_error, uint16}
use go_fs.Tftp.Await.{
  Event, timed_out, past_deadline, shutting_down, failed, from_other, from_peer, Sent, to_peer,
  Awaited, received, await_packet,
}
use go_fs.Tftp.Upload.Delivery.{
  total, fits, taken, acknowledge, accept-taken, put_all-step, proceed,
}
use go_fs.Tftp.Upload.{
  Closing, Progress, go_on, aborts, stored_as, Upload, send, last_ack, resend_packet, settle,
  finish, accept, receive, conclude, respond, serve, greet, run, new_upload,
}

-- The packets of the client among the events.
abbrev pub packets : List Event → List Bytes
packets [] = []
packets (from_peer p ∷ events) = p ∷ packets events
packets (timed_out ∷ events) = packets events
packets (past_deadline ∷ events) = packets events
packets (shutting_down ∷ events) = packets events
packets (failed ∷ events) = packets events
packets (from_other p ∷ events) = packets events

-- A receiver that takes the blocks of the packets in order, from number `e` on: each is a DATA packet
-- with the number of its block, all but the last have `n` bytes at least, and packets may be passed over.
pub data InOrder (n : ℕ) : ℕ → List Bytes → List Bytes → Type 0 where
  pass :
      (e : ℕ) (p : Bytes) (chunks ps : List Bytes)
      → InOrder n e chunks ps
      → InOrder n e chunks (p ∷ ps)
  take_last :
      (e a b c d : ℕ) (bs : Bytes) (ps : List Bytes)
      → uint16 a b ≡ op_data
      → uint16 c d ≡ e % 2 ^ 16
      → length bs < n
      → InOrder n e (bs ∷ []) ((a ∷ b ∷ c ∷ d ∷ bs) ∷ ps)
  take_block :
      (e a b c d : ℕ) (bs : Bytes) (chunks ps : List Bytes)
      → uint16 a b ≡ op_data
      → uint16 c d ≡ e % 2 ^ 16
      → n ≤ length bs
      → InOrder n ((e + 1) % 2 ^ 32) chunks ps
      → InOrder n e (bs ∷ chunks) ((a ∷ b ∷ c ∷ d ∷ bs) ∷ ps)

-- What a wait receives is the first packet of the client.
received-packets :
    (retries attempt : ℕ) (events : List Event) (msg : Bytes) (later : List Event)
    → (await_packet retries attempt events).1 ≡ received msg later
    → packets events ≡ msg ∷ packets later
unfolding await_packet
received-packets retries attempt [] msg later h = cc
received-packets retries attempt (timed_out ∷ events) msg later h =
    elim (Bool-cases (ltb attempt retries)) [
      | inl e ↦ received-packets retries (attempt + 1) events msg later (rw (e) at h)
      | inr e ↦ absurd (ground arith)
    ]
received-packets retries attempt (past_deadline ∷ events) msg later h = cc
received-packets retries attempt (shutting_down ∷ events) msg later h = cc
received-packets retries attempt (failed ∷ events) msg later h = cc
received-packets retries attempt (from_other p ∷ events) msg later h =
    received-packets retries attempt events msg later h
received-packets retries attempt (from_peer p ∷ events) msg later h = ground arith

Awaited-cases :
    (w : Awaited)
    → ((msg : Bytes) × (later : List Event) × (w ≡ received msg later))
      ⊎ ((msg : Bytes) (later : List Event) → w ≢ received msg later)
Awaited-cases (received msg later) = inl (msg, later, refl)
Awaited-cases Awaited.shut_down = inr (λ m l e. cc)
Awaited-cases Awaited.too_long = inr (λ m l e. cc)
Awaited-cases Awaited.broken = inr (λ m l e. cc)
Awaited-cases Awaited.gave_up = inr (λ m l e. cc)
Awaited-cases Awaited.waiting = inr (λ m l e. cc)

le_of : (m n : ℕ) → ltb m n ≡ false → n ≤ m
le_of m n h = ground arith

module _ (k : Sink) where
  open k use {State, put, finished, stored}

  -- A packet moves nothing on, ends the transfer without the file, or holds the next block.
  receive-cases :
      (fs : Closing) (msg : Bytes) (t : Upload k)
      → ((w : List Sent) × (receive k fs msg t ≡ (record t { wire = w }, go_on)))
        ⊎ (((receive k fs msg t).1 ≡ aborts)
            ⊎ ((a : ℕ) × (b : ℕ) × (c : ℕ) × (d : ℕ) × (bs : Bytes) × (msg ≡ a ∷ b ∷ c ∷ d ∷ bs)
                × (uint16 a b ≡ op_data)
                × (uint16 c d ≡ t.expected_block % 2 ^ 16)
                × (receive k fs msg t ≡ accept k fs (uint16 c d) bs t)))
  unfolding receive
  receive-cases fs [] t = inl (t.wire, refl)
  receive-cases fs (a ∷ []) t = inl (t.wire, refl)
  receive-cases fs (a ∷ b ∷ []) t = inl (t.wire, refl)
  receive-cases fs (a ∷ b ∷ c ∷ []) t = inl (t.wire, refl)
  receive-cases fs (a ∷ b ∷ c ∷ d ∷ bs) t = elim (Bool-cases (uint16 a b == op_error)) [
    | inl e ↦ inr (inl (rw (e) refl))
    | inr e ↦ elim (Bool-cases (uint16 a b == op_data)) [
      | inr n ↦ inr (inl (rw (e) (rw (n) refl)))
      | inl y ↦ elim (Bool-cases (uint16 c d == t.expected_block % 2 ^ 16)) [
        | inr m ↦ inl (t.wire ++ to_peer (last_ack k t) ∷ [], rw (e) (rw (y) (rw (m) refl)))
        | inl z ↦ inr (
            inr (
              a,
              b,
              c,
              d,
              bs,
              refl,
              (==_iff _ _).0 y,
              (==_iff _ _).0 z,
              rw (e) (rw (y) (rw (z) refl)),
            ))
      ]
    ]
  ]

  accept-cases :
      (fs : Closing) (block : ℕ) (bs : Bytes) (t : Upload k)
      → ((accept k fs block bs t).1 ≡ aborts)
        ⊎ ((s : State) × (fits t.max_file_size (t.bytes_written + length bs) ≡ true)
            × (put t.sink bs ≡ some s)
            × (accept k fs block bs t
                ≡ acknowledge k fs block (taken k s bs t) (ltb (length bs) t.block_size)))
  unfolding accept fits
  accept-cases fs block bs t =
      elim (Bool-cases
        (ltb 0 t.max_file_size && ltb t.max_file_size (t.bytes_written + length bs))) [
          | inl e ↦ inl (rw (e, accept) refl)
          | inr e ↦ elim (Option-cases (put t.sink bs)) [
            | inl n ↦ inl (rw (e, accept) (rw (n) refl))
            | inr (s, p) ↦ inr (s, ground arith, p, accept-taken k fs block bs t s (ground arith) p)
          ]
        ]

  abbrev heard : List Sent → Upload k → Upload k
  heard sent t = record t { wire = t.wire ++ settle k (resend_packet k t) sent }

  respond-received :
      (fuel : ℕ) (fs : Closing) (t : Upload k) (sent : List Sent) (w : Awaited) (msg : Bytes)
      (later : List Event)
      → w ≡ received msg later
      → respond k (serve k fuel fs) fs t (sent, w)
        ≡ proceed k fuel fs later (receive k fs msg (heard sent t))
  unfolding respond
  respond-received fuel fs t sent w msg later e =
      ap (λ v. respond k (serve k fuel fs) fs t (sent, v)) e

  respond-stored :
      (fuel : ℕ) (fs : Closing) (t : Upload k) (sent : List Sent) (w : Awaited) (content : Bytes)
      → (respond k (serve k fuel fs) fs t (sent, w)).1 ≡ stored_as content
      → (msg : Bytes) × (later : List Event) × (w ≡ received msg later)
  unfolding respond
  respond-stored fuel fs t sent (received msg later) content h = (msg, later, refl)
  respond-stored fuel fs t sent Awaited.shut_down content h = absurd cc
  respond-stored fuel fs t sent Awaited.too_long content h = absurd cc
  respond-stored fuel fs t sent Awaited.broken content h = absurd cc
  respond-stored fuel fs t sent Awaited.gave_up content h = absurd cc
  respond-stored fuel fs t sent Awaited.waiting content h = absurd cc

  finish-stored :
      (fuel : ℕ) (fs : Closing) (later : List Event) (t : Upload k) (content : Bytes)
      → (proceed k fuel fs later (finish k fs t)).1 ≡ stored_as content
      → (fs.closes ≡ true) × (fs.renames ≡ true) × (content ≡ stored (finished t.sink))
  unfolding finish conclude
  finish-stored fuel fs later t content h = elim (Bool-cases fs.closes) [
    | inr n ↦ absurd (ground arith)
    | inl c ↦ elim (Bool-cases fs.renames) [
      | inr n ↦ absurd (ground arith)
      | inl r ↦ (c, r, ground arith)
    ]
  ]

  -- What is known of an upload that ends under the name of the destination.
  abbrev pub Kept : Closing → ℕ → Upload k → List Bytes → Bytes → Type 0
  Kept fs e t ps content =
      (chunks : List Bytes) × (s : State) × InOrder t.block_size e chunks ps
      × (put_all k t.sink chunks ≡ some s)
      × (fits t.max_file_size (t.bytes_written + total chunks) ≡ true)
      × (content ≡ stored (finished s))
      × (fs.closes ≡ true)
      × (fs.renames ≡ true)

  put_all-one : (s s' : State) (c : Bytes) → put s c ≡ some s' → put_all k s (c ∷ []) ≡ some s'
  unfolding put_all
  put_all-one s s' c p = rw (p, put_all) refl

  proceed-aborts :
      (fuel : ℕ) (fs : Closing) (later : List Event) (r : Upload k × Progress) (content : Bytes)
      → r.1 ≡ aborts
      → (proceed k fuel fs later r).1 ≢ stored_as content
  proceed-aborts fuel fs later r content a h = ground arith

  last-Kept :
      (fuel e a b c d : ℕ) (fs : Closing) (bs : Bytes) (t : Upload k) (later : List Event)
      (s : State) (content : Bytes)
      → uint16 a b ≡ op_data
      → uint16 c d ≡ e % 2 ^ 16
      → fits t.max_file_size (t.bytes_written + length bs) ≡ true
      → put t.sink bs ≡ some s
      → length bs < t.block_size
      → (proceed k fuel fs later (finish k fs (taken k s bs t))).1 ≡ stored_as content
      → Kept fs e t ((a ∷ b ∷ c ∷ d ∷ bs) ∷ packets later) content
  last-Kept fuel e a b c d fs bs t later s content o n f p l h =
      let (cl, re, q) = finish-stored fuel fs later (taken k s bs t) content h in
      (
        bs ∷ [],
        s,
        take_last e a b c d bs (packets later) o n l,
        put_all-one t.sink s bs p,
        subst (λ z. fits t.max_file_size z ≡ true) (omega arith) f,
        q,
        cl,
        re,
      )

  next-Kept :
      (e a b c d : ℕ) (fs : Closing) (bs : Bytes) (t : Upload k) (ps : List Bytes) (s : State)
      (content : Bytes)
      → uint16 a b ≡ op_data
      → uint16 c d ≡ e % 2 ^ 16
      → put t.sink bs ≡ some s
      → t.block_size ≤ length bs
      → Kept fs ((e + 1) % 2 ^ 32) (taken k s bs t) ps content
      → Kept fs e t ((a ∷ b ∷ c ∷ d ∷ bs) ∷ ps) content
  next-Kept e a b c d fs bs t ps s content o n p l (chunks, s', i, q, f, y, cl, re) = (
    bs ∷ chunks,
    s',
    take_block e a b c d bs chunks ps o n l i,
    put_all-step k t.sink s s' bs chunks p q,
    subst (λ v. fits t.max_file_size v ≡ true) (omega arith) f,
    y,
    cl,
    re,
  )

  pass-Kept :
      (e : ℕ) (fs : Closing) (t : Upload k) (p : Bytes) (ps : List Bytes) (content : Bytes)
      → Kept fs e t ps content
      → Kept fs e t (p ∷ ps) content
  pass-Kept e fs t p ps content (chunks, s, i, q, f, y, cl, re) =
      (chunks, s, pass e p chunks ps i, q, f, y, cl, re)

  Follows : ℕ → Closing → ℕ → List Event → Bytes → Type 0
  Follows fuel fs e later content =
      (t : Upload k)
      → t.expected_block ≡ e
      → (serve k fuel fs later t).1 ≡ stored_as content
      → Kept fs e t (packets later) content

  data-Kept :
      (fuel e a b c d : ℕ) (fs : Closing) (bs : Bytes) (t : Upload k) (later : List Event)
      (content : Bytes)
      → Follows fuel fs ((e + 1) % 2 ^ 32) later content
      → t.expected_block ≡ e
      → uint16 a b ≡ op_data
      → uint16 c d ≡ e % 2 ^ 16
      → (proceed k fuel fs later (accept k fs (uint16 c d) bs t)).1 ≡ stored_as content
      → Kept fs e t ((a ∷ b ∷ c ∷ d ∷ bs) ∷ packets later) content
  unfolding Follows
  data-Kept fuel e a b c d fs bs t later content ih x o n h =
      elim (accept-cases fs (uint16 c d) bs t) [
        | inl z ↦ absurd (proceed-aborts fuel fs later _ content z h)
        | inr (s, f, p, r) ↦
            let g = ap (λ z. (proceed k fuel fs later z).1) (sym r) ∙ h in
            let at = λ (v : Bool).
              (proceed k fuel fs later (acknowledge k fs (uint16 c d) (taken k s bs t) v)).1 in
            elim (Bool-cases (ltb (length bs) t.block_size)) [
              | inl l ↦
                  last-Kept fuel e a b c d fs bs t later s content o n f p (ltb→lt _ _ l)
                    (sym (ap at l) ∙ g)
              | inr l ↦
                  let t' = send k (encode_ack (uint16 c d)) (taken k s bs t) in
                  next-Kept e a b c d fs bs t (packets later) s content o n p (le_of _ _ l)
                    (ih t' (ap (λ v. (v + 1) % 2 ^ 32) x) (sym (ap at l) ∙ g))
            ]
      ]

  serve-Kept :
      (fuel e : ℕ) (fs : Closing) (evs : List Event) (content : Bytes)
      → Follows fuel fs e evs content
  unfolding serve Follows
  serve-Kept zero e fs evs content t x h = absurd cc
  serve-Kept (suc fuel) e fs evs content t x h =
      let (sent, w) = await_packet t.retries 0 evs in
      let (msg, later, q) = respond-stored fuel fs t sent w content h in
      let t' = heard sent t in
      let g = ap (λ z. z.1) (sym (respond-received fuel fs t sent w msg later q)) ∙ h in
      let back = λ (z : Kept fs e t' (msg ∷ packets later) content).
        subst (λ ps. Kept fs e t ps content) (sym (received-packets t.retries 0 evs msg later q))
          z in
      elim (receive-cases fs msg t') [
        | inl (v, r) ↦ back (
            pass-Kept e fs t' msg (packets later) content (
              serve-Kept fuel e fs later content (record t' { wire = v }) x
                (ap (λ z. (proceed k fuel fs later z).1) (sym r) ∙ g)))
        | inr (inl z) ↦ absurd (proceed-aborts fuel fs later _ content z g)
        | inr (inr (a, b, c, d, bs, m, o, n, r)) ↦ back (
            subst (λ p. Kept fs e t' (p ∷ packets later) content) (sym m)
              (data-Kept fuel e a b c d fs bs t' later content
                (serve-Kept fuel ((e + 1) % 2 ^ 32) fs later content) x o
                (n ∙ ap (λ v. v % 2 ^ 16) x) (ap (λ z. (proceed k fuel fs later z).1) (sym r) ∙ g)))
      ]

  -- When an upload ends under the name of the destination, the file holds exactly the data that a
  -- receiver in order takes from the packets of the client, each block once and in its place, the
  -- last one short; it is no larger than the limit, and it was closed and renamed. All else leaves
  -- nothing there.
  pub run-InOrder :
      (fs : Closing) (sink : State) (block_size retries limit : ℕ) (acked : List Setting)
      (evs : List Event) (content : Bytes)
      → (run k fs evs (new_upload k sink block_size retries acked limit)).1 ≡ stored_as content
      → (chunks : List Bytes) × (s : State) × InOrder block_size 1 chunks (packets evs)
        × (put_all k sink chunks ≡ some s)
        × (fits limit (0 + total chunks) ≡ true)
        × (content ≡ stored (finished s))
        × (fs.closes ≡ true)
        × (fs.renames ≡ true)
  unfolding run greet Follows
  run-InOrder fs sink n retries limit [] evs content h =
      serve-Kept (suc (length evs)) 1 fs evs content _ refl h
  run-InOrder fs sink n retries limit (o ∷ os) evs content h =
      serve-Kept (suc (length evs)) 1 fs evs content _ refl h
