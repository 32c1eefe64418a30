-- ===== src/Tftp/Download/Truncation.antt =====
-- A read of the file that fails inside a block, in internal/tftp/read.go.
use go_fs.Base.{
  ℕ, zero, suc, ◌+◌, ◌-◌, ◌%◌, ◌^◌, ◌≤◌, ◌<◌, ◌≡◌, refl, ap, Bool, true, false, [], ◌∷◌, ◌++◌,
  append-nil, arith, ◌==◌, lt→ltb, length,
}
use go_fs.Base.Text.{Bytes}
use go_fs.Tftp.Streams.{Reader, read, broken}
use go_fs.Tftp.Packet.{encode_data}
use go_fs.Tftp.Download.{
  Download, chunk, read_full, chunk_of, read_chunk, top_up, send_chunk, send_chunks, send_window,
  send_or_end, fill_and_send, complete, acked_count, ack,
}

chunk_of_some : (bs : Bytes) (failed : Bool) → 0 < length bs → chunk_of bs failed ≡ chunk bs
unfolding chunk_of
chunk_of_some [] failed p = absurd (omega arith)
chunk_of_some (b ∷ bs) failed p = refl

-- A lock-step transfer, between two blocks of the file: no block waits for an answer.
abbrev pub lock_step : (r : Reader) → Download r → r.State → ℕ → Download r
lock_step r t s n = record t {
  src = s;
  block_size = n;
  window_size = 1;
  chunks = [];
  sent_count = 0;
  pending_resend = false;
  stream_ended = false;
}

-- The transfer with the part of a block in its window.
abbrev pub part_sent : (r : Reader) → Download r → r.State → ℕ → Bytes → Download r
part_sent r t s n bs = record (lock_step r t s n) {
  src = (read_chunk r s n).0;
  chunks = bs ∷ [];
  sent_count = 1;
  last_chunk_length = length bs;
  blocks_sent = t.blocks_sent + 1;
  new_blocks = t.new_blocks + 1;
  wire = t.wire ++ encode_data ((t.window_base + 1) % 2 ^ 16) bs ∷ [];
}

module _ (r : Reader) (t : Download r) (s : r.State) (n : ℕ) (bs : Bytes)
    (first : (r.next s n).1 ≡ read bs) (some_read : 0 < length bs) (part : length bs < n)
    (second : (r.next (r.next s n).0 (n - length bs)).1 ≡ broken) where
  read_full_part :
      (fuel : ℕ)
      → 2 ≤ fuel
      → read_full r fuel n s ≡ ((r.next (r.next s n).0 (n - length bs)).0, bs, true)
  unfolding read_full
  read_full_part zero h = absurd (omega arith)
  read_full_part (suc zero) h = absurd (omega arith)
  read_full_part (suc (suc fuel)) h =
      let s' = (r.next (r.next s n).0 (n - length bs)).0 in
      let z : (n == 0) ≡ false = ground arith in
      let z' : (n - length bs == 0) ≡ false = ground arith in
      rw (z, first) (rw (z', second) (λ i. (s', append-nil bs i, true)))

  read_chunk_part : (read_chunk r s n).1 ≡ chunk bs
  unfolding read_chunk
  read_chunk_part = rw (read_full_part n (omega arith)) (chunk_of_some bs true some_read)

  fill_and_send_part : fill_and_send r (lock_step r t s n) ≡ (part_sent r t s n bs, true)
  unfolding fill_and_send top_up send_or_end send_window send_chunks send_chunk
  fill_and_send_part =
      let number : t.window_base + 1 + 0 ≡ t.window_base + 1 = omega arith in
      rw (read_chunk_part) (
        ap
          (λ b. (
            record (part_sent r t s n bs) { wire = t.wire ++ encode_data (b % 2 ^ 16) bs ∷ [] },
            true,
          ))
          number)

  -- In a transfer with a window of one block, at any block of it: where a read of the file gives
  -- a part of the block and the next one fails, the part is sent as if it were the last block of
  -- the file, and the acknowledgement of it completes the transfer, with nothing else sent.
  pub truncated_completes :
      (fill_and_send r (lock_step r t s n) ≡ (part_sent r t s n bs, true))
      × ((ack r ((t.window_base + 1) % 2 ^ 16) (part_sent r t s n bs)).1 ≡ true)
      × ((ack r ((t.window_base + 1) % 2 ^ 16) (part_sent r t s n bs)).0.completed ≡ true)
      × ((ack r ((t.window_base + 1) % 2 ^ 16) (part_sent r t s n bs)).0.wire
          ≡ t.wire ++ encode_data ((t.window_base + 1) % 2 ^ 16) bs ∷ [])
  unfolding ack complete
  truncated_completes =
      let one : acked_count r ((t.window_base + 1) % 2 ^ 16) (part_sent r t s n bs) ≡ 1 =
        omega arith in
      let short = lt→ltb (length bs) n part in
      (fill_and_send_part, rw (one, short) refl, rw (one, short) refl, rw (one, short) refl)
