-- ===== src/Tftp/Download/Keeping.antt =====
-- What filling and sending a window leaves as it is, in internal/tftp/read.go.
use go_fs.Base.{
  ℕ, zero, suc, ◌≡◌, refl, ◌∙◌, ◌⊎◌, inl, inr, Bool, true, false, not, ◌&&◌, ◌||◌, List, [], ◌∷◌,
  ◌++◌, ltb, ◌==◌, if◌then◌else◌, Bool-cases, length, drop,
}
use go_fs.Base.Text.{Bytes}
use go_fs.Tftp.Streams.{Reader}
use go_fs.Tftp.Download.{
  Download, ChunkResult, chunk, no_chunk, read_error, read_chunk, top_up, send_chunk, send_chunks,
  send_window, send_or_end, fill_and_send, complete,
}

ChunkResult-cases :
    (res : ChunkResult) → ((c : Bytes) × (res ≡ chunk c)) ⊎ ((res ≡ no_chunk) ⊎ (res ≡ read_error))
ChunkResult-cases (chunk c) = inl (c, refl)
ChunkResult-cases no_chunk = inr (inl refl)
ChunkResult-cases read_error = inr (inr refl)

module _ (r : Reader) where
  -- What no window changes.
  pub record Keeps (t t' : Download r) : Type 0 where
    pub block_size : t'.block_size ≡ t.block_size
    pub window_size : t'.window_size ≡ t.window_size
    pub window_base : t'.window_base ≡ t.window_base

  Keeps-refl : (t : Download r) → Keeps t t
  Keeps-refl t = record { block_size = refl; window_size = refl; window_base = refl }

  Keeps-trans : (t u v : Download r) → Keeps t u → Keeps u v → Keeps t v
  Keeps-trans t u v k l = record {
    block_size = l.block_size ∙ k.block_size;
    window_size = l.window_size ∙ k.window_size;
    window_base = l.window_base ∙ k.window_base;
  }

  top_up-Keeps : (fuel : ℕ) (t : Download r) → Keeps t (top_up r fuel t).0
  unfolding top_up
  top_up-Keeps zero t = Keeps-refl t
  top_up-Keeps (suc fuel) t =
      let s = (read_chunk r t.src t.block_size).0 in
      elim (Bool-cases (ltb (length t.chunks) t.window_size && not t.stream_ended)) [
        | inr stop ↦ rw stop (Keeps-refl t)
        | inl go ↦ elim (ChunkResult-cases (read_chunk r t.src t.block_size).1) [
          | inl (c, e) ↦
              let ih = top_up-Keeps fuel (record t { src = s; chunks = t.chunks ++ c ∷ [] }) in
              rw (go, e)
                (record {
                  block_size = ih.block_size;
                  window_size = ih.window_size;
                  window_base = ih.window_base;
                })
          | inr (inl e) ↦
              rw (go, e) (record { block_size = refl; window_size = refl; window_base = refl })
          | inr (inr e) ↦
              rw (go, e) (record { block_size = refl; window_size = refl; window_base = refl })
        ]
      ]

  send_chunks-Keeps :
      (cs : List Bytes) (i already : ℕ) (t : Download r) → Keeps t (send_chunks r i already cs t)
  unfolding send_chunks send_chunk
  send_chunks-Keeps [] i already t = Keeps-refl t
  send_chunks-Keeps (c ∷ cs) i already t =
      let ih = send_chunks-Keeps cs (suc i) already (send_chunk r i already c t) in
      record {
        block_size = ih.block_size;
        window_size = ih.window_size;
        window_base = ih.window_base;
      }

  pub send_window-Keeps : (resend : Bool) (t : Download r) → Keeps t (send_window r resend t)
  unfolding send_window
  send_window-Keeps resend t =
      let first = if resend then 0 else t.sent_count in
      let k = send_chunks-Keeps (drop first t.chunks) first t.sent_count t in
      record { block_size = k.block_size; window_size = k.window_size; window_base = k.window_base }

  if-Keeps :
      (b : Bool) (t : Download r) (x y : Download r × Bool)
      → Keeps t x.0
      → Keeps t y.0
      → Keeps t (if b then x else y).0
  if-Keeps true t x y kx ky = kx
  if-Keeps false t x y kx ky = ky

  send_or_end-Keeps : (t : Download r) (cs : List Bytes) → Keeps t (send_or_end r t cs).0
  unfolding send_or_end complete
  send_or_end-Keeps t [] =
      let u = record t { chunks = [] ∷ [] } in
      let k = send_window-Keeps false u in
      if-Keeps (t.blocks_sent == 0 || t.last_chunk_length == t.block_size) t
        (send_window r false u, true) (complete r t, false)
        (record {
          block_size = k.block_size;
          window_size = k.window_size;
          window_base = k.window_base;
        })
        (record { block_size = refl; window_size = refl; window_base = refl })
  send_or_end-Keeps t (c ∷ cs) =
      let k = send_window-Keeps t.pending_resend (record t { pending_resend = false }) in
      record { block_size = k.block_size; window_size = k.window_size; window_base = k.window_base }

  pub fill_and_send-Keeps : (t : Download r) → Keeps t (fill_and_send r t).0
  unfolding fill_and_send
  fill_and_send-Keeps t =
      let t' = (top_up r t.window_size t).0 in
      let k = top_up-Keeps t.window_size t in
      if-Keeps (top_up r t.window_size t).1 t (t', false) (send_or_end r t' t'.chunks) k
        (Keeps-trans t t' _ k (send_or_end-Keeps t' t'.chunks))
