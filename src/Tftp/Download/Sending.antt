-- ===== src/Tftp/Download/Sending.antt =====
-- The packets that `sendWindow` of internal/tftp/read.go puts on the wire.
use go_fs.Base.{
  ℕ, suc, ◌+◌, ◌%◌, ◌^◌, ◌≤◌, ◌<◌, ◌≡◌, refl, sym, ap, ◌∙◌, Bool, some, List, [], ◌∷◌, ◌++◌,
  append_assoc, arith, if◌then◌else◌, length, get_elem?, take, drop, length-append,
  take-append-drop, length-take, length-drop, All, All-append,
}
use go_fs.Base.Text.{Bytes}
use go_fs.Tftp.Streams.{Reader}
use go_fs.Tftp.Packet.{encode_data}
use go_fs.Tftp.Download.{Download, last_length, send_chunk, send_chunks, send_window}

-- The packet is the DATA packet of a block, under the low 16 bits of its number, from 1 on.
pub record IsBlock (whole : List Bytes) (packet : Bytes) : Type 0 where
  pub index : ℕ
  pub payload : Bytes
  pub stands : get_elem? whole index ≡ some payload
  pub packet_is : packet ≡ encode_data ((index + 1) % 2 ^ 16) payload

get_elem?-append : (xs ys : List Bytes) (c : Bytes) → get_elem? (xs ++ c ∷ ys) (length xs) ≡ some c
get_elem?-append [] ys c = refl
get_elem?-append (x ∷ xs) ys c = get_elem?-append xs ys c

pub regroup :
    (k : ℕ) (done cs post : List Bytes)
    → done ++ (cs ++ post) ≡ (done ++ take k cs) ++ (drop k cs ++ post)
regroup k done cs post =
    ap (λ x. done ++ (x ++ post)) (sym (take-append-drop k cs))
    ∙ ap (λ x. done ++ x) (append_assoc (take k cs) (drop k cs) post)
    ∙ sym (append_assoc done (take k cs) (drop k cs ++ post))

module _ (r : Reader) (whole : List Bytes) where
  pub record Sent (cs : List Bytes) (t t' : Download r) : Type 0 where
    pub rest : t' ≡ record t {
      wire = t'.wire;
      blocks_sent = t'.blocks_sent;
      resent_blocks = t'.resent_blocks;
      new_blocks = t'.new_blocks;
    }
    pub wire : All (IsBlock whole) t'.wire
    pub counted : t'.blocks_sent ≡ t.blocks_sent + length cs

  send_chunks-Sent :
      (cs pre post : List Bytes) (i already : ℕ) (t : Download r)
      → whole ≡ pre ++ (cs ++ post)
      → length pre ≡ t.window_base + i
      → All (IsBlock whole) t.wire
      → Sent cs t (send_chunks r i already cs t)
  unfolding send_chunks send_chunk
  send_chunks-Sent [] pre post i already t e l w = record {
    rest = refl;
    wire = w;
    counted = omega arith;
  }
  send_chunks-Sent (c ∷ cs) pre post i already t e l w =
      let packet : IsBlock whole (encode_data ((t.window_base + 1 + i) % 2 ^ 16) c) = record {
        index = length pre;
        payload = c;
        stands = ap (λ b. get_elem? b (length pre)) e ∙ get_elem?-append pre (cs ++ post) c;
        packet_is = ap (λ k. encode_data (k % 2 ^ 16) c) (omega arith);
      } in
      let ih =
        send_chunks-Sent cs (pre ++ c ∷ []) post (suc i) already (send_chunk r i already c t)
          (e ∙ sym (append_assoc pre (c ∷ []) (cs ++ post)))
          (omega (arith, length-append pre (c ∷ [])))
          (All-append (IsBlock whole) t.wire _ w (packet, tt)) in
      record { rest = ih.rest; wire = ih.wire; counted = omega (arith, ih.counted) }

  -- What `sendWindow` does to the transfer.
  pub record SentWindow (t t' : Download r) : Type 0 where
    pub rest : t' ≡ record t {
      wire = t'.wire;
      blocks_sent = t'.blocks_sent;
      resent_blocks = t'.resent_blocks;
      new_blocks = t'.new_blocks;
      sent_count = length t.chunks;
      last_chunk_length = last_length t.chunks;
    }
    pub wire : All (IsBlock whole) t'.wire
    pub counted : t.blocks_sent ≤ t'.blocks_sent
    pub began : t.sent_count < length t.chunks → 0 < t'.blocks_sent

  pub send_window-SentWindow :
      (resend : Bool) (t : Download r) (done post : List Bytes)
      → whole ≡ done ++ (t.chunks ++ post)
      → length done ≡ t.window_base
      → t.sent_count ≤ length t.chunks
      → All (IsBlock whole) t.wire
      → SentWindow t (send_window r resend t)
  unfolding send_window
  send_window-SentWindow resend t done post e l h w =
      let first = if resend then 0 else t.sent_count in
      let le : first ≤ length t.chunks = ground arith in
      let behind : first ≤ t.sent_count = ground arith in
      let sent =
        send_chunks-Sent (drop first t.chunks) (done ++ take first t.chunks) post first t.sent_count
          t (e ∙ regroup first done t.chunks post)
          (omega (arith, length-append done (take first t.chunks), length-take first t.chunks)) w in
      record {
        rest =
            ap
              (λ (x : Download r). record x {
                sent_count = length t.chunks;
                last_chunk_length = last_length t.chunks;
              })
              sent.rest;
        wire = sent.wire;
        counted = omega (arith, sent.counted);
        began = λ p. omega (arith, sent.counted, length-drop first t.chunks);
      }
