-- ===== src/Tftp/Tests.antt =====
-- Tests of the TFTP modules, and their theorems at concrete inputs.
use go_fs.Base.{
  ℕ, zero, suc, ◌+◌, ◌*◌, ◌%◌, ◌^◌, ◌≤◌, ◌<◌, ◌≡◌, refl, ◌↔◌, true, none, some, List, [], ◌∷◌, ◌++◌,
  arith, length, take, All,
}
use go_fs.Base.Text.{Bytes, codes, bytes_eq}
use go_fs.Base.Decimal.{all_digits, is_digit, number, itoa}
use go_fs.Tftp.Streams.{
  Reader, ReadResult, read, end, broken, memory, memory_whole, next_bytes, disk, disk_write, drain,
}
use go_fs.Tftp.Netascii.{
  Chunk, ReadError, new_netascii_reader, new_netascii_writer, netascii_write, flush, decode,
  decode_byte, write_out,
}
use go_fs.Tftp.Netascii.Wire.{wire, host_lines}
use go_fs.Tftp.Netascii.Reading.{contents, netascii, drain-wire}
use go_fs.Tftp.Netascii.Writing.{write_all, write_all-wire}
use go_fs.Tftp.Packet.{
  Setting, Request, parse_request, encode_options, encode_data, find_option, to_lower, lower_rune,
}
use go_fs.Tftp.Packet.Layout.{zeros, parse_request-layout, parse_request-refused}
use go_fs.Tftp.Options.{
  Limits, negotiate, blksize, second, requested, answer_blksize, negotiate_window, window_key,
  answer_timeout, negotiate_tsize, tell_size, parse_numeric,
}
use go_fs.Tftp.Options.Answers.{Asks, negotiate-asked}
use go_fs.Tftp.Options.Agreement.{Agrees, negotiate-Agrees}
use go_fs.Tftp.Download.{
  Download, new_download, fill_and_send, ack, top_up, read_chunk, read_full, chunk_of, send_or_end,
  send_window, send_chunks, send_chunk, complete,
}
use go_fs.Tftp.Download.Running.{
  Outcome, run, serve_first, serve, serve_on, resend_all, take_packet, continue_with,
}
use go_fs.Tftp.Download.Serving.{Served}
use go_fs.Tftp.Download.Handshaking.{run-Served}
use go_fs.Tftp.Await.{Event, timed_out, from_other, from_peer, await_packet}
use go_fs.Tftp.Await.Hearing.{silence}
use go_fs.Tftp.Download.Blocks.{blocks}
use go_fs.Tftp.Download.Sending.{IsBlock}
use go_fs.Tftp.Download.Delivery.{start-Waiting}
use go_fs.Tftp.Download.Acknowledging.{Acked, ack-Waiting}
use go_fs.Tftp.Download.Completion.{drive, download_completes}
use go_fs.Tftp.Download.Truncation.{lock_step, part_sent, truncated_completes}

-- "a\r", "\n\rb": a line ending and a lone carriage return, cut inside the first.
abbrev source : List Chunk
source =
    record { bytes = codes "a\r"; error = ReadError.nil }
    ∷ record { bytes = codes "\n\rb"; error = ReadError.eof }
    ∷ []

wire_source : wire (contents source) ≡ b'a' ∷ 13 ∷ 10 ∷ 13 ∷ 0 ∷ b'b' ∷ []
unfolding wire
wire_source = refl

drain-wire_example : drain netascii 9 2 (new_netascii_reader source) ≡ some (wire (contents source))
unfolding wire
drain-wire_example = drain-wire source 2 9 refl (omega arith) (omega arith)

write_all-wire_example :
    (write_all disk
      (new_netascii_writer disk (codes "x", 100))
      ((13 ∷ []) ∷ (0 ∷ b'b' ∷ []) ∷ [])).0.dst.0
    ≡ codes "x" ++ host_lines (13 ∷ b'b' ∷ [])
unfolding wire write_all netascii_write write_out decode decode_byte flush disk_write
write_all-wire_example =
    write_all-wire disk (codes "x", 100) (13 ∷ b'b' ∷ []) ((13 ∷ []) ∷ (0 ∷ b'b' ∷ []) ∷ []) refl
      refl

abbrev boot_options : List Setting
boot_options =
    record { key = blksize; value = codes "1468" }
    ∷ record { key = codes "tsize"; value = codes "0" }
    ∷ []

parse_request-layout_example :
    parse_request
      (0 ∷ 1 ∷ (codes "a/b" ++ (0 ∷ (codes "OCTET" ++ (0 ∷ encode_options boot_options)))))
    ≡ some
        (record { filename = codes "a/b"; mode = to_lower (codes "OCTET"); options = boot_options })
unfolding lower_rune
parse_request-layout_example =
    parse_request-layout 0 1 (codes "a/b") (codes "OCTET") boot_options (omega arith) (omega arith)
      (omega arith)

parse_request-refused_example :
    (parse_request (0 ∷ 1 ∷ b'a' ∷ 0 ∷ b'o' ∷ []) ≡ none) ↔ (zeros (b'a' ∷ 0 ∷ b'o' ∷ []) < 2)
parse_request-refused_example = parse_request-refused (0 ∷ 1 ∷ b'a' ∷ 0 ∷ b'o' ∷ [])

abbrev boot : Request
boot = record { filename = codes "a/b"; mode = codes "octet"; options = boot_options }

abbrev usual : Limits
usual = record {
  timeout = 5 * second;
  max_timeout = 60 * second;
  retries = 5;
  max_block_size = 1428;
  max_window_size = 16;
}

-- 1468 is capped at 1428, and the size is told.
negotiate-boot :
    (negotiate boot usual true (some 70000)).acked
    ≡ record { key = blksize; value = codes "1428" }
      ∷ record { key = codes "tsize"; value = codes "70000" }
      ∷ []
unfolding negotiate requested answer_blksize negotiate_window window_key answer_timeout
    negotiate_tsize tell_size find_option bytes_eq parse_numeric all_digits is_digit number itoa
negotiate-boot = refl

-- The client asks for nothing, and the limit is below the default.
block_size-default :
    (negotiate
      (record { filename = codes "a"; mode = codes "octet"; options = [] })
      (record usual { max_block_size = 100 })
      true
      none).block_size
    ≡ 512
unfolding negotiate requested answer_blksize negotiate_window window_key answer_timeout
    negotiate_tsize find_option
block_size-default = refl

negotiate-asked_example :
    All (λ opt. Asks boot opt.key) (negotiate boot usual true (some 70000)).acked
negotiate-asked_example = negotiate-asked boot usual true (some 70000)

negotiate-Agrees_example : Agrees usual (negotiate boot usual true (some 70000))
negotiate-Agrees_example = negotiate-Agrees boot usual true (some 70000)

-- A file of five bytes in blocks of two.
abbrev five : Bytes
five = 1 ∷ 2 ∷ 3 ∷ 4 ∷ 5 ∷ []

abbrev started : Download memory
started = (fill_and_send memory (new_download memory five 2 2)).0

started_wire : started.wire ≡ encode_data 1 (1 ∷ 2 ∷ []) ∷ encode_data 2 (3 ∷ 4 ∷ []) ∷ []
unfolding fill_and_send top_up read_chunk read_full chunk_of send_or_end send_window send_chunks
    send_chunk next_bytes
started_wire = refl

blocks-five : blocks 2 five ≡ (1 ∷ 2 ∷ []) ∷ (3 ∷ 4 ∷ []) ∷ (5 ∷ []) ∷ []
unfolding blocks
blocks-five = refl

-- The last block of the window is acknowledged.
ack-Waiting_example :
    Acked memory (λ _. Unit) memory_whole five 2 started (ack memory ((0 + 2) % 2 ^ 16) started)
unfolding blocks fill_and_send top_up read_chunk read_full chunk_of send_or_end send_window
    send_chunks send_chunk next_bytes
ack-Waiting_example =
    ack-Waiting memory (λ _. Unit) memory_whole five 2 started (omega arith)
      (start-Waiting memory (λ _. Unit) memory_whole five five 2 2 (omega arith) (omega arith) tt
        refl).1
      (omega arith)

download_completes_example :
    (t : Download memory) × (drive memory (length (blocks 2 five)) started ≡ some t)
    × (t.completed ≡ true)
    × All (IsBlock (blocks 2 five)) t.wire
unfolding blocks
download_completes_example =
    download_completes memory (λ _. Unit) memory_whole five five 2 2 (omega arith) (omega arith)
      (omega arith) tt refl (omega arith)

-- The client takes part of the first window, asks again, and acknowledges the rest.
abbrev client_events : List Event
client_events =
    from_peer (0 ∷ 4 ∷ 0 ∷ 1 ∷ [])
    ∷ timed_out
    ∷ from_other (9 ∷ [])
    ∷ from_peer (0 ∷ 4 ∷ 0 ∷ 2 ∷ [])
    ∷ from_peer (0 ∷ 4 ∷ 0 ∷ 3 ∷ [])
    ∷ []

abbrev conversation : Outcome memory
conversation = run memory 1 [] (client_events ++ silence 2) (new_download memory five 2 2)

conversation-completed : conversation.transfer.completed ≡ true
unfolding run serve_first serve serve_on resend_all take_packet continue_with await_packet
    fill_and_send top_up read_chunk read_full chunk_of send_or_end send_window send_chunks
    send_chunk next_bytes ack complete
conversation-completed = refl

five_small : length (blocks 2 five) < 2 ^ 64
unfolding blocks
five_small = omega arith

run-Served_example :
    Served memory
      (λ _. Unit)
      memory_whole
      five
      2
      five_small
      (from_peer (0 ∷ 4 ∷ 0 ∷ 0 ∷ []) ∷ client_events)
      (run memory 1 boot_options
        ((from_peer (0 ∷ 4 ∷ 0 ∷ 0 ∷ []) ∷ client_events) ++ silence 2)
        (new_download memory five 2 2))
run-Served_example =
    run-Served memory (λ _. Unit) memory_whole five 2 five_small 1 2 2 five (omega arith)
      (omega arith) (omega arith) tt refl boot_options
      (from_peer (0 ∷ 4 ∷ 0 ∷ 0 ∷ []) ∷ client_events)

-- A file of two full blocks in a window of four: the empty block that ends it waits for an answer.
stalled_wire :
    (fill_and_send memory (new_download memory (1 ∷ 2 ∷ 3 ∷ 4 ∷ []) 2 4)).0.wire
    ≡ encode_data 1 (1 ∷ 2 ∷ []) ∷ encode_data 2 (3 ∷ 4 ∷ []) ∷ []
unfolding fill_and_send top_up read_chunk read_full chunk_of send_or_end send_window send_chunks
    send_chunk next_bytes
stalled_wire = refl

-- A disk that gives one byte, and then an error for the rest.
abbrev flaky_next : Bytes → ℕ → Bytes × ReadResult
flaky_next [] n = ([], broken)
flaky_next (b ∷ bs) zero = (b ∷ bs, read [])
flaky_next (b ∷ bs) (suc n) = ([], read (b ∷ []))

flaky_read :
    (s : Bytes) (n : ℕ) (bs : Bytes)
    → (flaky_next s n).1 ≡ read bs
    → take 1 s ≡ bs ++ take 1 (flaky_next s n).0
flaky_read [] n bs h = cc
flaky_read (b ∷ s) zero bs h = ground arith
flaky_read (b ∷ s) (suc n) bs h = ground arith

flaky_size :
    (s : Bytes) (n : ℕ) (bs : Bytes)
    → (flaky_next s n).1 ≡ read bs
    → (length bs ≤ n) × (0 < n → 0 < length bs)
flaky_size [] n bs h = cc
flaky_size (b ∷ s) zero bs h = ground arith
flaky_size (b ∷ s) (suc n) bs h = ground arith

flaky_end :
    (s : Bytes) (n : ℕ)
    → (flaky_next s n).1 ≡ end
    → (take 1 s ≡ []) × (take 1 (flaky_next s n).0 ≡ [])
flaky_end [] n h = cc
flaky_end (b ∷ s) zero h = cc
flaky_end (b ∷ s) (suc n) h = cc

abbrev flaky : Reader
flaky = record {
  State = Bytes;
  remaining = take 1;
  next = flaky_next;
  next_read = flaky_read;
  next_fits = λ s n bs h. (flaky_size s n bs h).0;
  next_some = λ s n bs h. (flaky_size s n bs h).1;
  next_end = flaky_end;
}

-- A transfer whose first block is acknowledged.
abbrev begun : Download flaky
begun = record (new_download flaky five 4 1) {
  window_base = 1;
  last_chunk_length = 4;
  blocks_sent = 1;
  new_blocks = 1;
  wire = encode_data 1 (9 ∷ 9 ∷ 9 ∷ 9 ∷ []) ∷ [];
}

-- Its second block, with one byte of it read.
truncated_completes_example :
    (fill_and_send flaky (lock_step flaky begun five 4)
      ≡ (part_sent flaky begun five 4 (1 ∷ []), true))
    × ((ack flaky 2 (part_sent flaky begun five 4 (1 ∷ []))).1 ≡ true)
    × ((ack flaky 2 (part_sent flaky begun five 4 (1 ∷ []))).0.completed ≡ true)
    × ((ack flaky 2 (part_sent flaky begun five 4 (1 ∷ []))).0.wire
        ≡ encode_data 1 (9 ∷ 9 ∷ 9 ∷ 9 ∷ []) ∷ encode_data 2 (1 ∷ []) ∷ [])
truncated_completes_example =
    truncated_completes flaky begun five 4 (1 ∷ []) refl (omega arith) (omega arith) refl
