-- ===== src/Tftp/Download/Delivery.antt =====
-- What the windowed transfer of internal/tftp/read.go delivers, as long as no read of the file
-- fails: the blocks of the file, in order, each under its number, until the last is acknowledged.
use go_fs.Base.{
  ℕ, ◌≤◌, ◌<◌, ◌≡◌, refl, sym, ap, ◌∙◌, subst, ◌≢◌, ◌⊎◌, inl, inr, Bool, true, false, ◌||◌, List,
  [], ◌∷◌, ◌++◌, arith, ◌==◌, if◌then◌else◌, lt→ltb, length, All,
}
use go_fs.Base.Text.{Bytes}
use go_fs.Tftp.Streams.{Reader, broken}
use go_fs.Tftp.Download.{
  Download, last_length, top_up, send_window, send_or_end, fill_and_send, new_download,
}
use go_fs.Tftp.Download.Blocks.{blocks, blocks_short}
use go_fs.Tftp.Download.Filling.{is_short, Window, todo, top_up-ToppedUp}
use go_fs.Tftp.Download.Sending.{IsBlock, send_window-SentWindow}

no_chunks : (cs : List Bytes) → length cs ≤ 0 → cs ≡ []
no_chunks [] h = refl
no_chunks (c ∷ cs) h = absurd (omega arith)

module _ (r : Reader) (Good : r.State → Type 0)
    (keep : (s : r.State) (n : ℕ) → Good s → Good (r.next s n).0 × ((r.next s n).1 ≢ broken))
    (file : Bytes) where
  open r use {State, remaining}

  -- The transfer as `fillAndSend` finds it: `done` blocks are acknowledged, and `left` is what
  -- the window and the file still hold.
  pub record Ready (t : Download r) (done left : List Bytes) : Type 0 where
    pub unfinished : t.completed ≡ false
    pub pos : 0 < t.block_size
    pub room : 0 < t.window_size
    pub whole : blocks t.block_size file ≡ done ++ left
    pub window : Window r Good keep t.block_size left t.chunks t.src t.stream_ended
    pub base : length done ≡ t.window_base
    pub sent : t.sent_count ≤ length t.chunks
    pub fits : length t.chunks ≤ t.window_size
    pub begun : (0 < t.blocks_sent) ⊎ (t.sent_count ≡ 0)
    pub tail : t.chunks ≡ [] → (t.blocks_sent ≡ 0) ⊎ (t.last_chunk_length ≡ t.block_size)
    pub wire : All (IsBlock (blocks t.block_size file)) t.wire

  -- The transfer as it waits for the client.
  pub record Waiting (t : Download r) : Type 0 where
    pub done : List Bytes
    pub left : List Bytes
    pub unfinished : t.completed ≡ false
    pub pos : 0 < t.block_size
    pub room : 0 < t.window_size
    pub whole : blocks t.block_size file ≡ done ++ left
    pub window : Window r Good keep t.block_size left t.chunks t.src t.stream_ended
    pub base : length done ≡ t.window_base
    pub some_chunk : 0 < length t.chunks
    pub sent : t.sent_count ≡ length t.chunks
    pub last : t.last_chunk_length ≡ last_length t.chunks
    pub started : 0 < t.blocks_sent
    pub fits : length t.chunks ≤ t.window_size
    pub wire : All (IsBlock (blocks t.block_size file)) t.wire

  -- Sending the window of a transfer with a chunk in it.
  pub send_window-Waiting :
      (resend : Bool) (t : Download r) (done left : List Bytes)
      → t.completed ≡ false
      → 0 < t.block_size
      → 0 < t.window_size
      → blocks t.block_size file ≡ done ++ left
      → Window r Good keep t.block_size left t.chunks t.src t.stream_ended
      → length done ≡ t.window_base
      → t.sent_count ≤ length t.chunks
      → 0 < length t.chunks
      → length t.chunks ≤ t.window_size
      → (0 < t.blocks_sent) ⊎ (t.sent_count ≡ 0)
      → All (IsBlock (blocks t.block_size file)) t.wire
      → Waiting (send_window r resend t)
  send_window-Waiting resend t done left going pos room whole w base le one fits began wire =
      let s =
        send_window-SentWindow r (blocks t.block_size file) resend t done
          (todo r Good keep t.block_size t.chunks t.src) (whole ∙ ap (λ x. done ++ x) w.covers) base
          le wire in
      let t' = send_window r resend t in
      let begun : 0 < t'.blocks_sent = ground (arith, s.counted, s.began) in
      subst Waiting (sym s.rest) (record {
        done = done;
        left = left;
        unfinished = going;
        pos = pos;
        room = room;
        whole = whole;
        window = w;
        base = base;
        some_chunk = one;
        sent = refl;
        last = refl;
        started = begun;
        fits = fits;
        wire = s.wire;
      })

  -- The empty block at the end of a file that fills its blocks.
  Window-empty :
      (n : ℕ) (left : List Bytes) (s : State) (b : Bool)
      → 0 < n
      → Window r Good keep n left [] s b
      → remaining s ≡ []
      → Window r Good keep n left ([] ∷ []) s b
  unfolding is_short
  Window-empty n left s b pos w e = record {
    good = w.good;
    covers =
        w.covers
        ∙ ap (blocks n) e
        ∙ blocks_short n [] pos
        ∙ ap (λ x. ([] ∷ []) ++ (if x then [] else blocks n (remaining s))) (sym (lt→ltb 0 n pos));
    drained = λ _. e;
    ended = λ _. e;
  }

  send_or_end-Waiting :
      (t : Download r) (done left : List Bytes) (s : State) (cs : List Bytes) (b : Bool)
      → Ready t done left
      → Window r Good keep t.block_size left cs s b
      → length t.chunks ≤ length cs
      → length cs ≤ t.window_size
      → (0 < length cs) ⊎ (remaining s ≡ [])
      → ((send_or_end r (record t { src = s; chunks = cs; stream_ended = b }) cs).1 ≡ true)
        × Waiting (send_or_end r (record t { src = s; chunks = cs; stream_ended = b }) cs).0
  unfolding send_or_end
  send_or_end-Waiting t done left s [] b y w grown fits some_left =
      let none_left : t.chunks ≡ [] = no_chunks t.chunks grown in
      let test : (t.blocks_sent == 0 || t.last_chunk_length == t.block_size) ≡ true =
        ground (arith, y.tail none_left) in
      let e : remaining s ≡ [] = elim some_left [ inl p ↦ absurd (omega arith) | inr e ↦ e ] in
      rw test (
        refl,
        send_window-Waiting false (record t { src = s; chunks = [] ∷ []; stream_ended = b }) done
            left y.unfinished y.pos y.room y.whole (Window-empty t.block_size left s b y.pos w e)
            y.base (omega (arith, y.sent)) (omega arith) y.room y.begun y.wire,
      )
  send_or_end-Waiting t done left s (c ∷ cs) b y w grown fits some_left = (
    refl,
    send_window-Waiting t.pending_resend
        (record t { src = s; chunks = c ∷ cs; stream_ended = b; pending_resend = false }) done left
        y.unfinished y.pos y.room y.whole w y.base (omega (arith, y.sent)) (omega arith) fits
        y.begun y.wire,
  )

  pub fill_and_send-Waiting :
      (t : Download r) (done left : List Bytes)
      → Ready t done left
      → ((fill_and_send r t).1 ≡ true) × Waiting (fill_and_send r t).0
  unfolding fill_and_send
  fill_and_send-Waiting t done left y =
      let u = top_up-ToppedUp r Good keep left t.window_size t y.pos y.window in
      let t' = (top_up r t.window_size t).0 in
      rw u.sound (
        subst
          (λ (x : Download r).
            ((send_or_end r x t'.chunks).1 ≡ true) × Waiting (send_or_end r x t'.chunks).0)
          (sym u.rest)
          (send_or_end-Waiting t done left t'.src t'.chunks t'.stream_ended y u.window u.grown
            (omega (arith, u.within, y.fits)) (u.filled y.room y.room)))

  -- A transfer starts with the first window on the wire and the client to answer.
  pub start-Waiting :
      (src : State) (block_size window_size : ℕ)
      → 0 < block_size
      → 0 < window_size
      → Good src
      → remaining src ≡ file
      → ((fill_and_send r (new_download r src block_size window_size)).1 ≡ true)
        × Waiting (fill_and_send r (new_download r src block_size window_size)).0
  unfolding is_short
  start-Waiting src block_size window_size pos room g e =
      fill_and_send-Waiting (new_download r src block_size window_size) [] (blocks block_size file)
        (record {
          unfinished = refl;
          pos = pos;
          room = room;
          whole = refl;
          window = record {
            good = g;
            covers = ap (blocks block_size) (sym e);
            drained = λ h. cc;
            ended = λ h. cc;
          };
          base = refl;
          sent = omega arith;
          fits = omega arith;
          begun = inr refl;
          tail = λ _. inl refl;
          wire = tt;
        })
