-- ===== src/Tftp/Download/Acknowledging.antt =====
-- What an acknowledgement does to the transfer of internal/tftp/read.go.
use go_fs.Base.{
  ℕ, zero, suc, ◌+◌, ◌-◌, ◌%◌, ◌^◌, ◌≤◌, ◌<◌, ◌≡◌, refl, sym, ap, ◌∙◌, subst, ◌≢◌, ◌⊎◌, inl, inr,
  Bool, true, false, not, ◌&&◌, ◌||◌, List, [], ◌∷◌, ◌++◌, append-nil, append_assoc, arith, ltb,
  leb, ◌==◌, if◌then◌else◌, ltb→lt, lt→ltb, Bool-cases, length, take, drop, length-append,
  take-append-drop, length-take, length-drop, take_all, drop_all, All,
}
use go_fs.Base.Text.{Bytes}
use go_fs.Tftp.Streams.{Reader, broken}
use go_fs.Tftp.Download.{Download, last_length, complete, acked_count, ack}
use go_fs.Tftp.Download.Blocks.{blocks, Shape, Shape-blocks, Shape-middle}
use go_fs.Tftp.Download.Filling.{is_short, todo}
use go_fs.Tftp.Download.Sending.{IsBlock, regroup}
use go_fs.Tftp.Download.Keeping.{fill_and_send-Keeps}
use go_fs.Tftp.Download.Delivery.{Ready, Waiting, fill_and_send-Waiting}

is_short-drop : (n k : ℕ) (cs : List Bytes) → k < length cs → is_short n (drop k cs) ≡ is_short n cs
unfolding is_short
is_short-drop n k [] h = elim h [ ]
is_short-drop n zero (c ∷ cs) h = refl
is_short-drop n (suc k) (c ∷ []) h = absurd (omega arith)
is_short-drop n (suc k) (c ∷ d ∷ cs) h = is_short-drop n k (d ∷ cs) (omega arith)

is_short_full : (n : ℕ) (cs : List Bytes) → last_length cs ≡ n → is_short n cs ≡ false
unfolding is_short
is_short_full n [] e = refl
is_short_full n (c ∷ cs) e = ground arith

-- Taking full blocks off the front leaves the end of the window as it was.
is_short_behind :
    (n k : ℕ) (cs : List Bytes)
    → k ≤ length cs
    → last_length (take k cs) ≡ n
    → is_short n (drop k cs) ≡ is_short n cs
unfolding is_short
is_short_behind n k cs h e = elim (Bool-cases (ltb k (length cs))) [
  | inl lt ↦ is_short-drop n k cs (ltb→lt k (length cs) lt)
  | inr ge ↦
      let all : length cs ≤ k = ground arith in
      ap (is_short n) (drop_all k cs all)
      ∙ sym (is_short_full n cs (ap last_length (sym (take_all k cs all)) ∙ e))
]

last_length-all :
    (cs : List Bytes) (k : ℕ) → drop k cs ≡ [] → last_length cs ≡ last_length (take k cs)
last_length-all cs k e =
    ap last_length
      (sym (take-append-drop k cs) ∙ ap (λ x. take k cs ++ x) e ∙ append-nil (take k cs))

length-positive : (cs : List Bytes) → cs ≢ [] → 0 < length cs
length-positive [] ne = absurd (ne refl)
length-positive (c ∷ cs) ne = omega arith

take-ne-nil : (k : ℕ) (cs : List Bytes) → 0 < k → k ≤ length cs → take k cs ≢ []
take-ne-nil k cs p h e = omega (arith, ap length e, length-take k cs)

module _ (r : Reader) (Good : r.State → Type 0)
    (keep : (s : r.State) (n : ℕ) → Good s → Good (r.next s n).0 × ((r.next s n).1 ≢ broken))
    (file : Bytes) where
  open r use {State, remaining}

  -- The transfer waits behind the block number `k` of its window.
  pub record Advanced (k : ℕ) (t t' : Download r) : Type 0 where
    pub waits : Waiting r Good keep file t'
    pub window_base : t'.window_base ≡ t.window_base + k
    pub block_size : t'.block_size ≡ t.block_size
    pub window_size : t'.window_size ≡ t.window_size

  -- The transfer is over.
  pub record Finished (t t' : Download r) : Type 0 where
    pub completed : t'.completed ≡ true
    pub wire : All (IsBlock (blocks t.block_size file)) t'.wire

  -- Behind full blocks, the window holds what is left.
  acked-Ready :
      (t : Download r) (k : ℕ) (resend : Bool) (v : Waiting r Good keep file t)
      → 0 < k
      → k ≤ length t.chunks
      → last_length (take k t.chunks) ≡ t.block_size
      → t.window_base + k < 2 ^ 64
      → Ready r Good keep file
          (record t {
            pending_resend = resend;
            window_base = (t.window_base + k) % 2 ^ 64;
            chunks = drop k t.chunks;
            sent_count = t.sent_count - k;
          })
          (v.done ++ take k t.chunks)
          (drop k t.chunks ++ todo r Good keep t.block_size t.chunks t.src)
  acked-Ready t k resend v p h full small =
      let same = is_short_behind t.block_size k t.chunks h full in
      record {
        unfinished = v.unfinished;
        pos = v.pos;
        room = v.room;
        whole =
            v.whole
            ∙ ap (λ x. v.done ++ x) v.window.covers
            ∙ regroup k v.done t.chunks (todo r Good keep t.block_size t.chunks t.src);
        window = record {
          good = v.window.good;
          covers =
              ap (λ x. drop k t.chunks ++ (if x then [] else blocks t.block_size (remaining t.src)))
                (sym same);
          drained = λ e. v.window.drained (sym same ∙ e);
          ended = v.window.ended;
        };
        base =
            omega (arith, length-append v.done (take k t.chunks), length-take k t.chunks, v.base);
        sent = omega (arith, length-drop k t.chunks, v.sent);
        fits = omega (arith, length-drop k t.chunks, v.fits);
        begun = inl v.started;
        tail = λ e. inr (v.last ∙ last_length-all t.chunks k e ∙ full);
        wire = v.wire;
      }

  -- The file, cut at the block that is acknowledged.
  whole_at :
      (t : Download r) (k : ℕ) (v : Waiting r Good keep file t)
      → blocks t.block_size file
        ≡ v.done
          ++ (take k t.chunks ++ (drop k t.chunks ++ todo r Good keep t.block_size t.chunks t.src))
  whole_at t k v =
      v.whole
      ∙ ap (λ x. v.done ++ x) v.window.covers
      ∙ regroup k v.done t.chunks (todo r Good keep t.block_size t.chunks t.src)
      ∙ append_assoc v.done (take k t.chunks) _

  pub acked-le :
      (t : Download r) (k : ℕ) (v : Waiting r Good keep file t)
      → k ≤ length t.chunks
      → t.window_base + k ≤ length (blocks t.block_size file)
  acked-le t k v h =
      let rest = drop k t.chunks ++ todo r Good keep t.block_size t.chunks t.src in
      omega (
        arith,
        ap length (whole_at t k v),
        length-append v.done (take k t.chunks ++ rest),
        length-append (take k t.chunks) rest,
        length-take k t.chunks,
        v.base,
      )

  -- With nothing left behind it, the acknowledged block is the last one.
  acked_last :
      (t : Download r) (k : ℕ) (v : Waiting r Good keep file t)
      → k ≤ length t.chunks
      → drop k t.chunks ++ todo r Good keep t.block_size t.chunks t.src ≡ []
      → t.window_base + k ≡ length (blocks t.block_size file)
  acked_last t k v h e =
      let rest = drop k t.chunks ++ todo r Good keep t.block_size t.chunks t.src in
      omega (
        arith,
        ap length (whole_at t k v),
        length-append v.done (take k t.chunks ++ rest),
        ap length e,
        length-append (take k t.chunks) rest,
        length-take k t.chunks,
        v.base,
      )

  -- With something left behind it, the acknowledged block is not the last one.
  acked-lt :
      (t : Download r) (k : ℕ) (v : Waiting r Good keep file t)
      → k ≤ length t.chunks
      → drop k t.chunks ++ todo r Good keep t.block_size t.chunks t.src ≢ []
      → t.window_base + k < length (blocks t.block_size file)
  acked-lt t k v h ne =
      let rest = drop k t.chunks ++ todo r Good keep t.block_size t.chunks t.src in
      let some_left = length-positive rest ne in
      omega (
        arith,
        ap length (whole_at t k v),
        length-append v.done (take k t.chunks ++ rest),
        length-append (take k t.chunks) rest,
        length-take k t.chunks,
        some_left,
        v.base,
      )

  -- What an acknowledgement that counts `k` blocks does.
  abbrev pub Acked : ℕ → Download r → Download r × Bool → Type 0
  Acked k t res =
      (((k ≡ 0) ⊎ (length t.chunks < k)) × (res ≡ (t, false)))
      ⊎ (((0 < k)
            × (k ≤ length t.chunks)
            × (t.window_base + k < length (blocks t.block_size file))
            × (res.1 ≡ false)
            × Advanced k t res.0)
          ⊎ ((0 < k)
              × (k ≤ length t.chunks)
              × (t.window_base + k ≡ length (blocks t.block_size file))
              × (res.1 ≡ true)
              × Finished t res.0))

  pub ack-Acked :
      (block : ℕ) (t : Download r)
      → Waiting r Good keep file t
      → length (blocks t.block_size file) < 2 ^ 64
      → Acked (acked_count r block t) t (ack r block t)
  unfolding ack complete
  ack-Acked block t v small =
      let k = acked_count r block t in
      elim (Bool-cases (k == 0 || ltb (length t.chunks) k)) [
        | inl stale ↦
            let useless : (k ≡ 0) ⊎ (length t.chunks < k) = ground arith in
            rw stale (inl (useless, refl))
        | inr fresh ↦
            let p : 0 < k = ground arith in
            let h : k ≤ length t.chunks = ground arith in
            let n = t.block_size in
            let rest = drop k t.chunks ++ todo r Good keep n t.chunks t.src in
            let shape = subst (Shape n) (whole_at t k v) (Shape-blocks n file v.pos) in
            elim (Shape-middle n v.done (take k t.chunks) rest shape (take-ne-nil k t.chunks p h)) [
              | inl (short, e) ↦
                  rw (fresh, lt→ltb (last_length (take k t.chunks)) n short)
                    (inr (
                      inr (
                        p,
                        h,
                        acked_last t k v h e,
                        refl,
                        record { completed = refl; wire = v.wire },
                      )))
              | inr (full, left) ↦
                  let test : ltb (last_length (take k t.chunks)) n ≡ false = ground arith in
                  let resend = ltb k (length t.chunks) && leb t.resent_blocks t.new_blocks in
                  let y = acked-Ready t k resend v p h full (omega (arith, acked-le t k v h)) in
                  let f = fill_and_send-Waiting r Good keep file _ _ _ y in
                  let same = fill_and_send-Keeps r _ in
                  rw (fresh, test)
                    (inr (
                      inl (
                        p,
                        h,
                        acked-lt t k v h left,
                        ap not f.0,
                        record {
                          waits = f.1;
                          window_base = same.window_base ∙ omega (arith, acked-le t k v h);
                          block_size = same.block_size;
                          window_size = same.window_size;
                        },
                      )))
            ]
      ]

  -- Take a transfer in order, of a file of fewer than 2^64 blocks that is read without an error, and
  -- an acknowledgement with the 16-bit number of the block k places behind the last acknowledged
  -- one, for any k below 2^16. Where k is 0 or lies beyond the window, nothing changes. Where the
  -- block is in the window and not the last of the file, the transfer goes on in order, and then
  -- waits behind exactly that block. Where it is in the window and the last of the file, the
  -- transfer is over and completed.
  pub ack-Waiting :
      (k : ℕ) (t : Download r)
      → k < 2 ^ 16
      → Waiting r Good keep file t
      → length (blocks t.block_size file) < 2 ^ 64
      → Acked k t (ack r ((t.window_base + k) % 2 ^ 16) t)
  ack-Waiting k t h v small =
      let block = (t.window_base + k) % 2 ^ 16 in
      let count : acked_count r block t ≡ k = omega arith in
      subst (λ j. Acked j t (ack r block t)) count (ack-Acked block t v small)
