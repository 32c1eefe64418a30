-- ===== src/Cryptomator/Tests.antt =====
-- A vault file of internal/cryptomator/content.go with small chunks.
use go_fs.Base.{
  ℕ, ◌+◌, ◌-◌, ◌≡◌, refl, ap, ◌∙◌, ◌↔◌, true, false, Option, none, some, List, [], ◌∷◌, ◌++◌, arith,
  length, take, drop, replicate, length-append, take-length-append,
}
use go_fs.Base.Text.{Bytes, codes, is_empty}
use go_fs.Cryptomator.{
  tag_size, ciphertext_size, cleartext_size, Aead, Vault, new_header, put_big_endian, aad,
  sealed_chunk, VaultWriter, flush_chunk, write_loop, vault_write, vault_close, new_writer,
  VaultReader, new_reader,
}
use go_fs.Tftp.Streams.{disk, disk_write}
use go_fs.Base.Integers.{negsuc}
use go_fs.Cryptomator.{clear_parts, read_at, open_header, vault_read, chunk_at, load, loaded}
use go_fs.Cryptomator.Chunks.{joined}
use go_fs.Cryptomator.Seeking.{
  seek, seek_to, moved, call, call_all, reads, seeks, vault_random_access,
}
use go_fs.Cryptomator.Sizes.{cleartext_size-ciphertext_size}
use go_fs.Cryptomator.Closing.{write_each}
use go_fs.Cryptomator.RoundTrip.{read_whole, vault_roundtrip}

-- A seal that hides nothing, with a tag of zeros.
abbrev sealing : Bytes → Bytes → Bytes → Bytes
sealing nonce plain bound = plain ++ replicate 16 0

abbrev unsealing : Bytes → Bytes → Bytes → Option Bytes
unsealing nonce sealed bound = some (take (length sealed - 16) sealed)

unsealing-sealing :
    (nonce plain bound : Bytes) → unsealing nonce (sealing nonce plain bound) bound ≡ some plain
unsealing-sealing nonce plain bound =
    let size : length (plain ++ replicate 16 0) - 16 ≡ length plain =
      omega (arith, length-append plain (replicate 16 0)) in
    ap (λ n. some (take n (plain ++ replicate 16 0))) size
    ∙ ap some (take-length-append plain (replicate 16 0))

length-sealing :
    (nonce plain bound : Bytes) → length (sealing nonce plain bound) ≡ length plain + tag_size
length-sealing nonce plain bound = length-append plain (replicate 16 0)

abbrev clear_aead : Aead
clear_aead = record {
  seal = sealing;
  unseal = unsealing;
  unseal_seal = unsealing-sealing;
  seal_size = length-sealing;
}

abbrev vault : Vault
vault = record { gcm = clear_aead; keyed = λ k. clear_aead }

abbrev twelve : ℕ → Bytes
twelve j = replicate 12 j

abbrev content_key : Bytes
content_key = replicate 32 1

abbrev first_writer : VaultWriter disk 4 twelve
first_writer = record {
  sink = ((new_header vault (twelve 7) content_key).1, 932);
  header = (new_header vault (twelve 7) content_key).0;
  buf = [];
  index = 0;
  failed = false;
}

first_writer-new :
    new_writer disk 4 twelve vault (twelve 7) content_key ([], 1000) ≡ some first_writer
unfolding new_writer new_header disk_write
first_writer-new = refl

abbrev pieces : List Bytes
pieces = codes "hello" ∷ codes "wo" ∷ []

closes_fine : (vault_close disk 4 twelve (write_each disk 4 twelve pieces first_writer)).1 ≡ true
unfolding vault_close vault_write write_loop flush_chunk sealed_chunk aad put_big_endian disk_write
    is_empty new_header
closes_fine = refl

abbrev vault_file : Bytes
vault_file = (vault_close disk 4 twelve (write_each disk 4 twelve pieces first_writer)).0.sink.0

vault_roundtrip_example :
    (r : VaultReader) × (new_reader 4 vault vault_file (length vault_file) ≡ some r)
    × (r.size ≡ 7)
    × (read_whole 4 20 3 r ≡ some (codes "hellowo"))
vault_roundtrip_example =
    vault_roundtrip 4 twelve vault (twelve 7) content_key disk ([], 1000) first_writer pieces 3 20
      (omega arith) (λ j. refl) refl refl refl first_writer-new closes_fine (omega arith)
      (omega arith)

abbrev first_open : VaultReader
first_open = record {
  file = vault_file;
  header = (new_header vault (twelve 7) content_key).0;
  size = 7;
  offset = 0;
  cached = none;
}

opens_fine : new_reader 4 vault vault_file (length vault_file) ≡ some first_open
unfolding new_reader cleartext_size clear_parts read_at open_header new_header vault_close
    vault_write write_loop flush_chunk sealed_chunk aad put_big_endian disk_write is_empty
opens_fine = refl

-- A read, a seek before the start, which fails, and a seek to two bytes before the end.
vault_random_access_example :
    read_whole 4 20 3
      (seek (call_all 4 (reads 3 ∷ seeks (negsuc 8) 1 ∷ []) first_open) (negsuc 1) 2).0
    ≡ some (drop 5 (joined pieces))
unfolding seek seek_to moved call_all call vault_read chunk_at load loaded read_at ciphertext_size
    vault_close vault_write write_loop flush_chunk sealed_chunk aad put_big_endian disk_write
    is_empty new_header
vault_random_access_example =
    vault_random_access 4 twelve vault (twelve 7) content_key disk ([], 1000) first_writer pieces
      first_open (reads 3 ∷ seeks (negsuc 8) 1 ∷ []) (negsuc 1) 2 5 3 20 (omega arith) (λ j. refl)
      refl refl refl first_writer-new closes_fine opens_fine refl (omega arith) (omega arith)

cleartext_size-ciphertext_size_example :
    (cleartext_size 32768 (68 + 32796 + 30) ≡ some 32770)
    ↔ (68 + 32796 + 30 ≡ ciphertext_size 32768 32770)
cleartext_size-ciphertext_size_example =
    cleartext_size-ciphertext_size 32768 (68 + 32796 + 30) 32770 (omega arith)
