-- ===== src/Tftp/Upload/Delivery.antt =====
-- Whole uploads of internal/tftp/write.go, from a client that sends its blocks in order.
use go_fs.Base.{
  ℕ, zero, suc, ◌+◌, ◌%◌, ◌^◌, ◌≤◌, ◌<◌, ◌≡◌, refl, ap, ◌∙◌, subst, inl, inr, Bool, true, false,
  ◌&&◌, ◌||◌, some, List, [], ◌∷◌, ◌++◌, arith, ltb, leb, ◌==◌, if◌then◌else◌, lt→ltb, Bool-cases,
  Option-cases, length, length-append,
}
use go_fs.Base.Text.{Bytes}
use go_fs.Tftp.Sinks.{Sink, put_all}
use go_fs.Tftp.Packet.{Setting, encode_ack, encode_oack, encode_data}
use go_fs.Tftp.Await.{Event, from_peer}
use go_fs.Tftp.Upload.{
  Closing, Progress, go_on, finishes, aborts, Ending, stored_as, removed, Upload, send,
  resend_packet, settle, finish, accept, receive, conclude, respond, serve, greet, run, new_upload,
}
use go_fs.Tftp.Await.Patience.{Noise, events, silences, replies, answered}
use go_fs.Tftp.Upload.Receiving.{is_useless, useless_reply, receive-useless, receive-data}

abbrev pub total : List Bytes → ℕ
total [] = 0
total (c ∷ cs) = length c + total cs

-- A limit of 0 is none.
unfoldable pub fits : ℕ → ℕ → Bool
fits limit size = limit == 0 || leb size limit

-- What the socket reads of a client that sends the blocks from number `e` on, each of `n` bytes and
-- the last one shorter. In between stand silences, no more than the retries before a packet, packets
-- of other addresses, and duplicates, late blocks and short packets of the client.
pub data Delivers (n retries : ℕ) : ℕ → List Bytes → List Event → Type 0 where
  last_block :
      (e : ℕ) (c : Bytes) (noise : List Noise) (later : List Event)
      → silences noise ≤ retries
      → length c < n
      → Delivers n retries e
          (c ∷ [])
          (events noise ++ (from_peer (encode_data (e % 2 ^ 16) c) ∷ later))
  next_block :
      (e : ℕ) (c : Bytes) (cs : List Bytes) (noise : List Noise) (later : List Event)
      → silences noise ≤ retries
      → length c ≡ n
      → Delivers n retries ((e + 1) % 2 ^ 32) cs later
      → Delivers n retries e
          (c ∷ cs)
          (events noise ++ (from_peer (encode_data (e % 2 ^ 16) c) ∷ later))
  useless_packet :
      (e : ℕ) (cs : List Bytes) (noise : List Noise) (packet : Bytes) (later : List Event)
      → silences noise ≤ retries
      → is_useless e packet ≡ true
      → Delivers n retries e cs later
      → Delivers n retries e cs (events noise ++ (from_peer packet ∷ later))

pub fits_less : (limit m n : ℕ) → fits limit m ≡ true → n ≤ m → fits limit n ≡ true
unfolding fits
fits_less limit m n f l = ground arith

ltb_not : (m n : ℕ) → m ≡ n → ltb m n ≡ false
ltb_not m n e = ground arith

module _ (k : Sink) where
  open k use {State, put, finished, stored}

  abbrev pub hear : List Noise → Upload k → Upload k
  hear noise t = record t { wire = t.wire ++ settle k (resend_packet k t) (replies noise) }

  abbrev pub proceed : ℕ → Closing → List Event → Upload k × Progress → Upload k × Ending
  proceed fuel fs later (t, progress) = elim progress [
    | go_on ↦ serve k fuel fs later t
    | finishes completed ↦ conclude k completed later t
    | aborts ↦ (t, removed)
  ]

  pub serve_packet :
      (fuel : ℕ) (fs : Closing) (noise : List Noise) (msg : Bytes) (later : List Event)
      (t : Upload k)
      → silences noise ≤ t.retries
      → serve k (suc fuel) fs (events noise ++ (from_peer msg ∷ later)) t
        ≡ proceed fuel fs later (receive k fs msg (hear noise t))
  unfolding serve respond
  serve_packet fuel fs noise msg later t h =
      ap (respond k (serve k fuel fs) fs t)
        (answered t.retries 0 noise msg later (omega (arith, h)))

  -- A block in its turn that the limit has room for and the sink takes.
  abbrev pub taken : State → Bytes → Upload k → Upload k
  taken s bs t = record t {
    sink = s;
    bytes_written = t.bytes_written + length bs;
    expected_block = (t.expected_block + 1) % 2 ^ 32;
  }

  abbrev pub acknowledge : Closing → ℕ → Upload k → Bool → Upload k × Progress
  acknowledge fs block t last = if last then finish k fs t else (send k (encode_ack block) t, go_on)

  pub accept-taken :
      (fs : Closing) (block : ℕ) (bs : Bytes) (t : Upload k) (s : State)
      → fits t.max_file_size (t.bytes_written + length bs) ≡ true
      → put t.sink bs ≡ some s
      → accept k fs block bs t ≡ acknowledge fs block (taken s bs t) (ltb (length bs) t.block_size)
  unfolding accept fits
  accept-taken fs block bs t s f p =
      elim (Bool-cases
        (ltb 0 t.max_file_size && ltb t.max_file_size (t.bytes_written + length bs))) [
          | inl e ↦ absurd (ground arith)
          | inr e ↦ rw (e, accept) (rw (p) refl)
        ]

  serve_useless :
      (fuel : ℕ) (fs : Closing) (noise : List Noise) (msg : Bytes) (later : List Event)
      (t : Upload k)
      → silences noise ≤ t.retries
      → is_useless t.expected_block msg ≡ true
      → serve k (suc fuel) fs (events noise ++ (from_peer msg ∷ later)) t
        ≡ serve k fuel fs later (record (hear noise t) {
          wire = (hear noise t).wire ++ useless_reply k msg (hear noise t);
        })
  serve_useless fuel fs noise msg later t h u =
      serve_packet fuel fs noise msg later t h
      ∙ ap (proceed fuel fs later) (receive-useless k fs msg (hear noise t) u)

  serve_block :
      (fuel e : ℕ) (fs : Closing) (noise : List Noise) (bs : Bytes) (later : List Event)
      (t : Upload k) (s : State)
      → t.expected_block ≡ e
      → silences noise ≤ t.retries
      → fits t.max_file_size (t.bytes_written + length bs) ≡ true
      → put t.sink bs ≡ some s
      → serve k (suc fuel) fs (events noise ++ (from_peer (encode_data (e % 2 ^ 16) bs) ∷ later)) t
        ≡ proceed fuel fs later
            (acknowledge fs (e % 2 ^ 16) (taken s bs (hear noise t)) (ltb (length bs) t.block_size))
  serve_block fuel e fs noise bs later t s x h f p =
      serve_packet fuel fs noise _ later t h
      ∙ ap (proceed fuel fs later) (
          subst
            (λ b.
              receive k fs (encode_data (b % 2 ^ 16) bs) (hear noise t)
              ≡ accept k fs (b % 2 ^ 16) bs (hear noise t))
            x (receive-data k fs bs (hear noise t))
          ∙ accept-taken fs _ bs (hear noise t) s f p)

  finish-conclude :
      (fuel : ℕ) (fs : Closing) (later : List Event) (t : Upload k)
      → fs.closes ≡ true
      → fs.renames ≡ true
      → (proceed fuel fs later (finish k fs t)).1 ≡ stored_as (stored (finished t.sink))
  unfolding finish conclude
  finish-conclude fuel fs later t c r = rw (c) (rw (r) refl)

  put_all-nil : (s t : State) → put_all k s [] ≡ some t → s ≡ t
  unfolding put_all
  put_all-nil s t h = ground arith

  put_all-cons :
      (s t : State) (c : Bytes) (cs : List Bytes)
      → put_all k s (c ∷ cs) ≡ some t
      → (s' : State) × ((put s c ≡ some s') × (put_all k s' cs ≡ some t))
  unfolding put_all
  put_all-cons s t c cs h = elim (Option-cases (put s c)) [
    | inl e ↦ absurd (ground arith)
    | inr (s', e) ↦ (s', (e, rw (e, put_all) at h))
  ]

  later_shorter :
      (fuel : ℕ) (noise : List Noise) (msg : Bytes) (later : List Event)
      → length (events noise ++ (from_peer msg ∷ later)) < suc fuel
      → length later < fuel
  later_shorter fuel noise msg later h =
      omega (arith, h, length-append (events noise) (from_peer msg ∷ later))

  pub put_all-step :
      (s s' t : State) (c : Bytes) (cs : List Bytes)
      → put s c ≡ some s'
      → put_all k s' cs ≡ some t
      → put_all k s (c ∷ cs) ≡ some t
  unfolding put_all
  put_all-step s s' t c cs p h = rw (p, put_all) h

  pub deliver :
      (fuel e : ℕ) (fs : Closing) (t : Upload k) (chunks : List Bytes) (evs : List Event)
      (s : State)
      → Delivers t.block_size t.retries e chunks evs
      → t.expected_block ≡ e
      → fs.closes ≡ true
      → fs.renames ≡ true
      → length evs < fuel
      → fits t.max_file_size (t.bytes_written + total chunks) ≡ true
      → put_all k t.sink chunks ≡ some s
      → (serve k fuel fs evs t).1 ≡ stored_as (stored (finished s))
  deliver zero e fs t chunks evs s d x c r m f p = absurd (omega (arith, m))
  deliver (suc fuel) e fs t _ _ s (last_block _ bs noise later q l) x c r m f p =
      let (s', (p', h)) = put_all-cons t.sink s bs [] p in
      ap (λ z. z.1)
        (serve_block fuel e fs noise bs later t s' x q (fits_less _ _ _ f (omega arith)) p'
          ∙ ap
              (λ b.
                proceed fuel fs later (acknowledge fs (e % 2 ^ 16) (taken s' bs (hear noise t)) b))
              (lt→ltb _ _ l))
      ∙ (finish-conclude fuel fs later (taken s' bs (hear noise t)) c r
          ∙ ap (λ z. stored_as (stored (finished z))) (put_all-nil s' s h))
  deliver (suc fuel) e fs t _ _ s (next_block _ bs cs noise later q l d) x c r m f p =
      let (s', (p', h)) = put_all-cons t.sink s bs cs p in
      let t' = send k (encode_ack (e % 2 ^ 16)) (taken s' bs (hear noise t)) in
      ap (λ z. z.1)
        (serve_block fuel e fs noise bs later t s' x q (fits_less _ _ _ f (omega arith)) p'
          ∙ ap
              (λ b.
                proceed fuel fs later (acknowledge fs (e % 2 ^ 16) (taken s' bs (hear noise t)) b))
              (ltb_not _ _ l))
      ∙ deliver fuel ((e + 1) % 2 ^ 32) fs t' cs later s d (ap (λ b. (b + 1) % 2 ^ 32) x) c r
          (later_shorter fuel noise _ later m)
          (subst (λ z. fits t.max_file_size z ≡ true) (omega arith) f) h
  deliver (suc fuel) e fs t cs _ s (useless_packet _ _ noise packet later q u d) x c r m f p =
      ap (λ z. z.1) (serve_useless fuel fs noise packet later t q (rw (x) u))
      ∙ deliver fuel e fs _ cs later s d x c r (later_shorter fuel noise packet later m) f p

  -- An upload whose client sends its blocks in order, with silences, packets of other addresses and
  -- repeated or late blocks in between, and stops behind the last of them, ends with all of its
  -- blocks, and nothing else, under the name of the destination, provided that the limit on the size
  -- has room for them, the sink takes them, and the file is closed and renamed.
  pub upload_completes :
      (fs : Closing) (sink s : State) (block_size retries limit : ℕ) (acked : List Setting)
      (chunks : List Bytes) (evs : List Event)
      → Delivers block_size retries 1 chunks evs
      → fs.closes ≡ true
      → fs.renames ≡ true
      → fits limit (total chunks) ≡ true
      → put_all k sink chunks ≡ some s
      → (run k fs evs (new_upload k sink block_size retries acked limit)).1
        ≡ stored_as (stored (finished s))
  unfolding run greet
  upload_completes fs sink s n retries limit acked chunks evs d c r f p =
      let f' = fits_less limit (total chunks) (0 + total chunks) f (omega arith) in
      elim acked
        as (λ os.
          (serve k (suc (length evs)) fs evs (greet k (new_upload k sink n retries os limit))).1
          ≡ stored_as (stored (finished s))) [
            | [] ↦
                deliver (suc (length evs)) 1 fs
                  (send k (encode_ack 0) (new_upload k sink n retries [] limit)) chunks evs s d refl
                  c r (omega arith) f' p
            | o ∷ os ↦
                deliver (suc (length evs)) 1 fs
                  (send k (encode_oack (o ∷ os)) (new_upload k sink n retries (o ∷ os) limit))
                  chunks evs s d refl c r (omega arith) f' p
          ]
