-- ===== src/Tftp/Download/Completion.antt =====
-- A client that acknowledges every window in full ends the transfer of internal/tftp/read.go.
use go_fs.Base.{
  ℕ, zero, suc, ◌+◌, ◌%◌, ◌^◌, ◌≤◌, ◌<◌, ◌≡◌, refl, ap, subst, ◌≢◌, inl, inr, true, Option, none,
  some, arith, if◌then◌else◌, length, All,
}
use go_fs.Base.Text.{Bytes}
use go_fs.Tftp.Streams.{Reader, broken}
use go_fs.Tftp.Download.{Download, fill_and_send, ack, new_download}
use go_fs.Tftp.Download.Blocks.{blocks}
use go_fs.Tftp.Download.Sending.{IsBlock}
use go_fs.Tftp.Download.Delivery.{Waiting, start-Waiting}
use go_fs.Tftp.Download.Keeping.{fill_and_send-Keeps}
use go_fs.Tftp.Download.Acknowledging.{acked-le, ack-Waiting}

module _ (r : Reader) where
  -- A client that answers the last block of the window, until the transfer is over.
  unfoldable pub drive : ℕ → Download r → Option (Download r)
  drive zero t = none
  drive (suc fuel) t =
      let (t', over) = ack r ((t.window_base + length t.chunks) % 2 ^ 16) t in
      let rest = drive fuel t' in if over then some t' else rest

-- The transfer over a window below 2^16 blocks, of a file of fewer than 2^64 blocks.
module _ (r : Reader) (Good : r.State → Type 0)
    (keep : (s : r.State) (n : ℕ) → Good s → Good (r.next s n).0 × ((r.next s n).1 ≢ broken))
    (file : Bytes) where
  drive-Waiting :
      (fuel : ℕ) (t : Download r)
      → Waiting r Good keep file t
      → t.window_size < 2 ^ 16
      → length (blocks t.block_size file) < 2 ^ 64
      → length (blocks t.block_size file) ≤ fuel + t.window_base
      → (t' : Download r) × (drive r fuel t ≡ some t')
        × (t'.completed ≡ true)
        × All (IsBlock (blocks t.block_size file)) t'.wire
  unfolding drive
  drive-Waiting zero t v w small enough =
      absurd
        (omega (arith, acked-le r Good keep file t (length t.chunks) v (omega arith), v.some_chunk))
  drive-Waiting (suc fuel) t v w small enough =
      let block = (t.window_base + length t.chunks) % 2 ^ 16 in
      elim (ack-Waiting r Good keep file (length t.chunks) t (omega (arith, v.fits)) v small) [
        | inl (useless, same) ↦ absurd (ground (arith, v.some_chunk))
        | inr (inr (p, h, last, over, f)) ↦ ((ack r block t).0, rw over refl, f.completed, f.wire)
        | inr (inl (p, h, before, on, g)) ↦
            let same = ap (λ n. length (blocks n file)) g.block_size in
            let ih =
              drive-Waiting fuel (ack r block t).0 g.waits (omega (arith, g.window_size))
                (omega (arith, same)) (omega (arith, same, g.window_base, v.some_chunk)) in
            let wire = subst (λ n. All (IsBlock (blocks n file)) ih.0.wire) g.block_size ih.3 in
            rw on (ih.0, ih.1, ih.2, wire)
      ]

  -- Take a download of a file of fewer than 2^64 blocks that is read without an error, in a window
  -- below 2^16 blocks, to a client that acknowledges the last block of every window. It ends,
  -- completed, after at most as many acknowledgements as the file has blocks, and every packet sent
  -- is a block of the file under its number.
  pub download_completes :
      (src : r.State) (block_size window_size : ℕ)
      → 0 < block_size
      → 0 < window_size
      → window_size < 2 ^ 16
      → Good src
      → r.remaining src ≡ file
      → length (blocks block_size file) < 2 ^ 64
      → (t' : Download r) × (drive r
            (length (blocks block_size file))
            (fill_and_send r (new_download r src block_size window_size)).0
          ≡ some t')
        × (t'.completed ≡ true)
        × All (IsBlock (blocks block_size file)) t'.wire
  download_completes src block_size window_size pos room w g e small =
      let t = (fill_and_send r (new_download r src block_size window_size)).0 in
      let k = fill_and_send-Keeps r (new_download r src block_size window_size) in
      let v = (start-Waiting r Good keep file src block_size window_size pos room g e).1 in
      let same = ap (λ n. length (blocks n file)) k.block_size in
      let d =
        drive-Waiting (length (blocks block_size file)) t v (omega (arith, k.window_size))
          (omega (arith, same)) (omega (arith, same)) in
      (d.0, d.1, d.2, subst (λ n. All (IsBlock (blocks n file)) d.0.wire) k.block_size d.3)
