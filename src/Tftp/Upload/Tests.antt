-- ===== src/Tftp/Upload/Tests.antt =====
-- An upload of internal/tftp/write.go, packet by packet.
use go_fs.Base.{◌+◌, ◌≡◌, refl, true, some, List, [], ◌∷◌, arith}
use go_fs.Base.Text.{Bytes, codes}
use go_fs.Tftp.Sinks.{put_all}
use go_fs.Tftp.Packet.{encode_data}
use go_fs.Tftp.Await.{Event, timed_out, from_other, from_peer}
use go_fs.Tftp.Upload.{Closing, stored_as, Upload, run, new_upload}
use go_fs.Tftp.Streams.{disk, disk_write}
use go_fs.Tftp.Sinks.{octet_sink}
use go_fs.Tftp.Await.Patience.{silence, stray}
use go_fs.Tftp.Upload.Receiving.{is_useless}
use go_fs.Tftp.Upload.Delivery.{
  Delivers, last_block, next_block, useless_packet, total, fits, upload_completes,
}
use go_fs.Tftp.Upload.Order.{InOrder, packets, run-InOrder}

abbrev ok : Closing
ok = record { closes = true; renames = true }

-- Two blocks of 8 bytes at most; the first is sent twice, behind a silence and a stray packet.
abbrev chunks : List Bytes
chunks = codes "12345678" ∷ codes "end" ∷ []

abbrev first_block : Bytes
first_block = encode_data 1 (codes "12345678")

abbrev letters : List Event
letters =
    timed_out
    ∷ from_other []
    ∷ from_peer first_block
    ∷ from_peer first_block
    ∷ from_peer (encode_data 2 (codes "end"))
    ∷ []

second_useless : is_useless 2 first_block ≡ true
unfolding is_useless encode_data
second_useless = refl

letters-Delivers : Delivers 8 1 1 chunks letters
letters-Delivers =
    next_block 1 (codes "12345678") _ (silence ∷ stray [] ∷ []) _ (omega arith) refl (
      useless_packet 2 _ [] first_block _ (omega arith) second_useless
        (last_block 2 (codes "end") [] [] (omega arith) (omega arith)))

abbrev begun_upload : Upload (octet_sink disk)
begun_upload = new_upload (octet_sink disk) ([], 100) 8 1 [] 20

chunks-taken : put_all (octet_sink disk) ([], 100) chunks ≡ some (codes "12345678end", 89)
unfolding put_all disk_write
chunks-taken = refl

chunks_fit : fits 20 (total chunks) ≡ true
unfolding fits
chunks_fit = refl

upload_completes_example :
    (run (octet_sink disk) ok letters begun_upload).1 ≡ stored_as (codes "12345678end")
upload_completes_example =
    upload_completes (octet_sink disk) ok ([], 100) (codes "12345678end", 89) 8 1 20 [] chunks
      letters letters-Delivers refl refl chunks_fit chunks-taken

run-InOrder_example :
    (chunks : List Bytes) × (s : (octet_sink disk).State) × InOrder 8 1 chunks (packets letters)
    × (put_all (octet_sink disk) ([], 100) chunks ≡ some s)
    × (fits 20 (0 + total chunks) ≡ true)
    × (codes "12345678end" ≡ (octet_sink disk).stored ((octet_sink disk).finished s))
    × (true ≡ true)
    × (true ≡ true)
run-InOrder_example =
    run-InOrder (octet_sink disk) ok ([], 100) 8 1 20 [] letters (codes "12345678end")
      upload_completes_example
