-- ===== src/Tftp/Download/Filling.antt =====
-- The window of internal/tftp/read.go holds the next blocks of the file, as long as no read of it
-- fails.
use go_fs.Base.{
  ℕ, zero, suc, ◌-◌, ◌≤◌, ◌<◌, max, ◌≡◌, refl, sym, ap, ◌∙◌, ◌≢◌, ◌⊎◌, inl, inr, Bool, true, false,
  not, ◌&&◌, List, [], ◌∷◌, ◌++◌, append-nil, append_assoc, arith, ltb, ◌==◌, if◌then◌else◌,
  Bool-cases, length, length-append,
}
use go_fs.Base.Text.{Bytes}
use go_fs.Tftp.Streams.{Reader, broken, ReadResult-cases}
use go_fs.Tftp.Download.{
  read_full, Download, chunk, no_chunk, chunk_of, read_chunk, last_length, top_up,
}
use go_fs.Tftp.Download.Blocks.{blocks, blocks_short, blocks_full}

-- The last chunk is shorter than a block.
unfoldable pub is_short : ℕ → List Bytes → Bool
is_short n [] = false
is_short n (c ∷ cs) = ltb (last_length (c ∷ cs)) n

last_length-concat : (cs : List Bytes) (c : Bytes) → last_length (cs ++ c ∷ []) ≡ length c
last_length-concat [] c = refl
last_length-concat (d ∷ []) c = refl
last_length-concat (d ∷ e ∷ cs) c = last_length-concat (e ∷ cs) c

is_short-concat :
    (n : ℕ) (cs : List Bytes) (c : Bytes) → is_short n (cs ++ c ∷ []) ≡ ltb (length c) n
unfolding is_short
is_short-concat n [] c = refl
is_short-concat n (d ∷ cs) c = ap (λ l. ltb l n) (last_length-concat (d ∷ cs) c)

full_after :
    {P : Type 0} (n : ℕ) (bs tail : Bytes)
    → length bs ≤ n
    → (length tail ≡ n - length bs) ⊎ ((length tail < n - length bs) × P)
    → (length (bs ++ tail) ≡ n) ⊎ ((length (bs ++ tail) < n) × P)
full_after n bs tail fits (inl e) = inl (omega (arith, length-append bs tail))
full_after n bs tail fits (inr (l, p)) = inr (omega (arith, length-append bs tail), p)

within_step :
    (size : ℕ) (cs : List Bytes) (c : Bytes) (n : ℕ)
    → length cs < size
    → n ≤ max size (length (cs ++ c ∷ []))
    → n ≤ max size (length cs)
within_step size cs c n h l = omega (arith, length-append cs (c ∷ []))

stopped :
    (cs : List Bytes) (size : ℕ) (ended : Bool) (left : Bytes)
    → 0 < size
    → (ltb (length cs) size && not ended) ≡ false
    → (ended ≡ true → left ≡ [])
    → (0 < length cs) ⊎ (left ≡ [])
stopped cs size true left p stop e = inr (e refl)
stopped cs size false left p stop e = inl (ground arith)

module _ (r : Reader) (Good : r.State → Type 0)
    (keep : (s : r.State) (n : ℕ) → Good s → Good (r.next s n).0 × ((r.next s n).1 ≢ broken)) where
  open r use {State, remaining, next, next_read, next_fits, next_some, next_end}

  -- A read in full of `n` bytes from `s` that left `s'`.
  record FullRead (n : ℕ) (s s' : State) (bs : Bytes) (failed : Bool) : Type 0 where
    sound : failed ≡ false
    good : Good s'
    front : remaining s ≡ bs ++ remaining s'
    full : (length bs ≡ n) ⊎ ((length bs < n) × (remaining s' ≡ []))

  read_full-FullRead :
      (fuel n : ℕ) (s : State)
      → n ≤ fuel
      → Good s
      → FullRead n s (read_full r fuel n s).0 (read_full r fuel n s).1 (read_full r fuel n s).2
  unfolding read_full
  read_full-FullRead zero n s h g = record {
    sound = refl;
    good = g;
    front = refl;
    full = inl (omega arith);
  }
  read_full-FullRead (suc fuel) n s h g = elim (Bool-cases (n == 0)) [
    | inl z ↦ rw z (record { sound = refl; good = g; front = refl; full = inl (ground arith) })
    | inr nz ↦ elim (ReadResult-cases (next s n).1) [
      | inl (bs, e) ↦
          let s' = (next s n).0 in
          let fits = next_fits s n bs e in
          let some_read = next_some s n bs e (ground arith) in
          let rest = read_full-FullRead fuel (n - length bs) s' (omega arith) (keep s n g).0 in
          let tail = (read_full r fuel (n - length bs) s').1 in
          rw (nz, e)
            (record {
              sound = rest.sound;
              good = rest.good;
              front = next_read s n bs e ∙ rw rest.front (sym (append_assoc bs tail _));
              full = full_after n bs tail fits rest.full;
            })
      | inr (inl e) ↦
          rw (nz, e)
            (record {
              sound = refl;
              good = (keep s n g).0;
              front = (next_end s n e).0 ∙ sym (next_end s n e).1;
              full = inr (ground arith, (next_end s n e).1);
            })
      | inr (inr e) ↦ absurd ((keep s n g).1 e)
    ]
  ]

  chunk_of-cases :
      (n : ℕ) (s s' : State) (bs : Bytes) (failed : Bool)
      → FullRead n s s' bs failed
      → ((c : Bytes) × (chunk_of bs failed ≡ chunk c) × FullRead n s s' c false × (0 < length c))
        ⊎ ((chunk_of bs failed ≡ no_chunk) × FullRead n s s' [] false)
  unfolding chunk_of
  chunk_of-cases n s s' bs true f = absurd (ground (arith, f.sound))
  chunk_of-cases n s s' [] false f = inr (refl, f)
  chunk_of-cases n s s' (b ∷ bs) false f = inl (b ∷ bs, refl, f, omega arith)

  drained_after :
      (n : ℕ) (s s' : State) (c : Bytes)
      → FullRead n s s' c false
      → ltb (length c) n ≡ true
      → remaining s' ≡ []
  drained_after n s s' c f h = elim f.full [ inl e ↦ absurd (ground arith) | inr (l, e) ↦ e ]

  nothing_left : (n : ℕ) (s s' : State) → 0 < n → FullRead n s s' [] false → remaining s' ≡ []
  nothing_left n s s' pos f = elim f.full [ inl e ↦ absurd (omega arith) | inr (l, e) ↦ e ]

  read_chunk-cases :
      (s : State) (n : ℕ)
      → Good s
      → 0 < n
      → ((c : Bytes) × ((read_chunk r s n).1 ≡ chunk c)
          × FullRead n s (read_chunk r s n).0 c false
          × (0 < length c))
        ⊎ (((read_chunk r s n).1 ≡ no_chunk) × FullRead n s (read_chunk r s n).0 [] false)
  unfolding read_chunk
  read_chunk-cases s n g pos =
      let f = read_full-FullRead n n s (omega arith) g in
      let (s', bs, failed) = read_full r n n s in chunk_of-cases n s s' bs failed f

  -- What is still to come behind the chunks of the window.
  abbrev pub todo : ℕ → List Bytes → State → List Bytes
  todo n cs s = if is_short n cs then [] else blocks n (remaining s)

  -- The window holds the first of the blocks `whole`, and the file the others.
  pub record Window (n : ℕ) (whole cs : List Bytes) (s : State) (stream_ended : Bool) : Type 0 where
    pub good : Good s
    pub covers : whole ≡ cs ++ todo n cs s
    pub drained : is_short n cs ≡ true → remaining s ≡ []
    pub ended : stream_ended ≡ true → remaining s ≡ []

  -- A read in full is the first block of what remained.
  blocks-FullRead :
      (n : ℕ) (s s' : State) (c : Bytes)
      → 0 < n
      → FullRead n s s' c false
      → blocks n (remaining s) ≡ c ∷ (if ltb (length c) n then [] else blocks n (remaining s'))
  blocks-FullRead n s s' c pos f = elim f.full [
    | inl e ↦
        ap (blocks n) f.front ∙ blocks_full n c (remaining s') pos e ∙ ap (◌∷◌ c) (ground arith)
    | inr (l, e) ↦
        ap (blocks n) (f.front ∙ ap (λ t. c ++ t) e ∙ append-nil c)
        ∙ blocks_short n c l
        ∙ ap (◌∷◌ c) (ground arith)
  ]

  Window-not_short :
      (n : ℕ) (whole cs : List Bytes) (s s' : State) (b : Bool) (c : Bytes)
      → Window n whole cs s b
      → FullRead n s s' c false
      → 0 < length c
      → is_short n cs ≡ false
  Window-not_short n whole cs s s' b c w f some_read = elim (Bool-cases (is_short n cs)) [
    | inl e ↦
        let l = ap length (sym (w.drained e) ∙ f.front) in
        absurd (omega (arith, length-append c (remaining s')))
    | inr e ↦ e
  ]

  Window-chunk :
      (n : ℕ) (whole cs : List Bytes) (s s' : State) (b : Bool) (c : Bytes)
      → 0 < n
      → Window n whole cs s b
      → FullRead n s s' c false
      → 0 < length c
      → Window n whole (cs ++ c ∷ []) s' false
  Window-chunk n whole cs s s' b c pos w f some_read =
      let open_end = Window-not_short n whole cs s s' b c w f some_read in
      let short = is_short-concat n cs c in
      record {
        good = f.good;
        covers =
            w.covers
            ∙ ap (λ t. cs ++ (if t then [] else blocks n (remaining s))) open_end
            ∙ ap (λ t. cs ++ t) (blocks-FullRead n s s' c pos f)
            ∙ sym (append_assoc cs (c ∷ []) _)
            ∙ ap (λ t. (cs ++ c ∷ []) ++ (if t then [] else blocks n (remaining s'))) (sym short);
        drained = λ e. drained_after n s s' c f (sym short ∙ e);
        ended = λ e. cc;
      }

  Window-end :
      (n : ℕ) (whole cs : List Bytes) (s s' : State) (b : Bool)
      → Window n whole cs s b
      → FullRead n s s' [] false
      → 0 < n
      → Window n whole cs s' true
  Window-end n whole cs s s' b w f pos =
      let e = nothing_left n s s' pos f in
      record {
        good = f.good;
        covers = w.covers ∙ ap (λ t. cs ++ (if is_short n cs then [] else blocks n t)) f.front;
        drained = λ _. e;
        ended = λ _. e;
      }

  -- What `fillAndSend` leaves of the transfer after `fuel` rounds of its loop.
  pub record ToppedUp (whole : List Bytes) (fuel : ℕ) (t t' : Download r) (failed : Bool)
      : Type 0 where
    pub sound : failed ≡ false
    pub window : Window t.block_size whole t'.chunks t'.src t'.stream_ended
    pub rest : t' ≡ record t { src = t'.src; chunks = t'.chunks; stream_ended = t'.stream_ended }
    pub within : length t'.chunks ≤ max t.window_size (length t.chunks)
    pub grown : length t.chunks ≤ length t'.chunks
    pub filled : 0 < fuel → 0 < t.window_size → (0 < length t'.chunks) ⊎ (remaining t'.src ≡ [])

  pub top_up-ToppedUp :
      (whole : List Bytes) (fuel : ℕ) (t : Download r)
      → 0 < t.block_size
      → Window t.block_size whole t.chunks t.src t.stream_ended
      → ToppedUp whole fuel t (top_up r fuel t).0 (top_up r fuel t).1
  unfolding top_up
  top_up-ToppedUp whole zero t pos w = record {
    sound = refl;
    window = w;
    rest = refl;
    within = omega arith;
    grown = omega arith;
    filled = λ p _. absurd (omega arith);
  }
  top_up-ToppedUp whole (suc fuel) t pos w =
      elim (Bool-cases (ltb (length t.chunks) t.window_size && not t.stream_ended)) [
        | inr stop ↦ rw stop (record {
          sound = refl;
          window = w;
          rest = refl;
          within = omega arith;
          grown = omega arith;
          filled =
              λ _ p. stopped t.chunks t.window_size t.stream_ended (remaining t.src) p stop w.ended;
        })
        | inl go ↦ elim (read_chunk-cases t.src t.block_size w.good pos) [
          | inl (c, e, f, some_read) ↦
              let s = (read_chunk r t.src t.block_size).0 in
              let w' =
                Window-chunk t.block_size whole t.chunks t.src s t.stream_ended c pos w f
                  some_read in
              let open_end : t.stream_ended ≡ false = ground arith in
              let ih =
                top_up-ToppedUp whole fuel (record t { src = s; chunks = t.chunks ++ c ∷ [] }) pos
                  (rw open_end w') in
              rw (go, e)
                (record {
                  sound = ih.sound;
                  window = ih.window;
                  rest = ih.rest;
                  within = within_step t.window_size t.chunks c _ (ground arith) ih.within;
                  grown = omega (arith, ih.grown, length-append t.chunks (c ∷ []));
                  filled = λ _ _. inl (omega (arith, ih.grown, length-append t.chunks (c ∷ [])));
                })
          | inr (e, f) ↦
              rw (go, e)
                (record {
                  sound = refl;
                  window = Window-end t.block_size whole t.chunks t.src _ t.stream_ended w f pos;
                  rest = refl;
                  within = omega arith;
                  grown = omega arith;
                  filled = λ _ _. inr (nothing_left t.block_size t.src _ pos f);
                })
        ]
      ]
