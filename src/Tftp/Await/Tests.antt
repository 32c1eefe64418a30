-- ===== src/Tftp/Await/Tests.antt =====
-- The wait of internal/tftp/read.go over some events.
use go_fs.Base.{◌≡◌, [], ◌∷◌, arith}
use go_fs.Tftp.Packet.{encode_ack}
use go_fs.Tftp.Await.{timed_out, from_other, from_peer, resent, received, gave_up, await_packet}
use go_fs.Tftp.Await.Patience.{silence, stray, replies, await_packet-patience}

await_packet-patience_example :
    (await_packet 1 0 (timed_out ∷ (from_other [] ∷ (from_peer (encode_ack 1) ∷ [])))
      ≡ (replies (silence ∷ (stray [] ∷ [])), received (encode_ack 1) []))
    × (await_packet 1 0 (timed_out ∷ (timed_out ∷ [])) ≡ (resent ∷ [], gave_up))
await_packet-patience_example =
    await_packet-patience 1 (silence ∷ (stray [] ∷ [])) (encode_ack 1) [] (silence ∷ [])
      (omega arith) (omega arith)
