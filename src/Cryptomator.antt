-- ===== src/Cryptomator.antt =====
-- internal/cryptomator/content.go: the content of a file of a vault, a header and sealed chunks. AES-GCM
-- is a parameter, with what it promises as laws, and so are the random nonces; `rand.Read` and the
-- making of a key return no error. The functions take ChunkSize as an argument. Offsets and sizes are
-- natural numbers, below 2^63.
pub mod Sizes
pub mod Chunks
pub mod Writing
pub mod Closing
pub mod Offsets
pub mod Locating
pub mod Reading
pub mod RoundTrip
pub mod Seeking
mod Tests
use go_fs.Base.{
  ℕ, zero, suc, ◌+◌, ◌-◌, ◌*◌, ◌/◌, ◌%◌, ◌^◌, ◌≤◌, ◌<◌, min, max, ◌≡◌, refl, sym, ap, ◌∙◌, subst,
  ◌≢◌, ◌↔◌, ◌⊎◌, inl, inr, Bool, true, false, not, ◌&&◌, ◌||◌, Option, none, some, List, [], ◌∷◌,
  ◌++◌, map, append-nil, append_assoc, arith, ltb, leb, ◌==◌, if◌then◌else◌, ltb→lt, lt→ltb, ==_iff,
  Bool-cases, Option-cases, List-cases, length, get_elem?, take, drop, replicate, length-append,
  take-append-drop, length-take, length-drop, take-length-append, take_all, drop_all,
  drop-length-append, All, All-append,
}
use go_fs.Base.Text.{Bytes, codes, bytes_eq, bytes_eq_iff, bytes_eq_refl, is_empty}
use go_fs.Tftp.Streams.{Writer, ReadResult, read, end, broken}

abbrev pub nonce_size : ℕ
nonce_size = 12

abbrev pub tag_size : ℕ
tag_size = 16

abbrev pub key_size : ℕ
key_size = 32

abbrev pub header_size : ℕ
header_size = 68

abbrev pub chunk_size : ℕ
chunk_size = 32 * 1024

abbrev pub chunk_overhead : ℕ
chunk_overhead = 28

-- `CiphertextSize`, for a size that is not negative.
unfoldable pub ciphertext_size : ℕ → ℕ → ℕ
ciphertext_size chunk size = header_size + size + (size + chunk - 1) / chunk * chunk_overhead

-- `CleartextSize`, for the whole chunks and what is left; -1 is `none`.
unfoldable pub clear_parts : ℕ → ℕ → ℕ → Option ℕ
clear_parts chunk full rest =
    if ltb 0 rest && leb rest chunk_overhead
    then none
    else some (full * chunk + (if ltb 0 rest then rest - chunk_overhead else 0))

unfoldable pub cleartext_size : ℕ → ℕ → Option ℕ
unfolding clear_parts
cleartext_size chunk size =
    let body = size - header_size in
    if ltb size header_size
    then none
    else clear_parts chunk (body / (chunk + chunk_overhead)) (body % (chunk + chunk_overhead))

-- `cipher.AEAD` of AES-GCM: `seal nonce plaintext bound` is what `Seal` appends.
pub record Aead : Type 0 where
  pub seal : Bytes → Bytes → Bytes → Bytes
  pub unseal : Bytes → Bytes → Bytes → Option Bytes
  pub unseal_seal :
      (nonce plain bound : Bytes) → unseal nonce (seal nonce plain bound) bound ≡ some plain
  pub seal_size :
      (nonce plain bound : Bytes) → length (seal nonce plain bound) ≡ length plain + tag_size

-- `v.gcm()`, and `h.keyed` for a key of the content.
pub record Vault : Type 0 where
  pub gcm : Aead
  pub keyed : Bytes → Aead

pub record Header : Type 0 where
  pub nonce : Bytes
  pub key : Aead

-- `newHeader`, for the nonce and the key that `rand.Read` drew.
unfoldable pub new_header : Vault → Bytes → Bytes → Header × Bytes
new_header v nonce content_key = (
  record { nonce = nonce; key = v.keyed content_key },
  nonce ++ v.gcm.seal nonce (replicate 8 0xFF ++ content_key) [],
)

unfoldable pub open_header : Vault → Bytes → Option Header
open_header v b =
    if not (length b == header_size)
    then none
    else elim (v.gcm.unseal (take nonce_size b) (drop nonce_size b) []) [
      | none ↦ none
      | some payload ↦ some (record { nonce = take nonce_size b; key = v.keyed (drop 8 payload) })
    ]

-- `binary.BigEndian.PutUint64`, with the number of the bytes that are left to write.
unfoldable pub put_big_endian : ℕ → ℕ → Bytes
put_big_endian zero n = []
put_big_endian (suc bytes) n = put_big_endian bytes (n / 256) ++ (n % 256) ∷ []

unfoldable pub aad : Header → ℕ → Bytes
aad h chunk = put_big_endian 8 chunk ++ h.nonce

-- A chunk as it stands in the file: the nonce that was drawn for it, and what is sealed with it.
unfoldable pub sealed_chunk : Header → (ℕ → Bytes) → ℕ → Bytes → Bytes
sealed_chunk h drawn i plain = drawn i ++ h.key.seal (drawn i) plain (aad h i)

-- `Writer`, on a writer; `drawn` are the random nonces, by the number of the chunk.
module _ (out : Writer) (chunk : ℕ) (drawn : ℕ → Bytes) where
  open out use {State, write}

  pub record VaultWriter : Type 0 where
    pub sink : State
    pub header : Header
    pub buf : Bytes
    pub index : ℕ
    -- `w.err != nil`
    pub failed : Bool

  -- `flush`, and `w.err` set to its error as its callers do.
  unfoldable pub flush_chunk : VaultWriter → VaultWriter
  unfolding sealed_chunk
  flush_chunk w = elim (write w.sink (sealed_chunk w.header drawn w.index w.buf)) [
    | none ↦ record w { buf = []; index = w.index + 1; failed = true }
    | some s ↦ record w { sink = s; buf = []; index = w.index + 1 }
  ]

  -- The loop of `Write`. A round takes a byte, or flushes a buffer that was full, which only the
  -- first one can meet.
  unfoldable pub write_loop : ℕ → Bytes → VaultWriter → VaultWriter
  unfolding flush_chunk
  write_loop zero p w = w
  write_loop (suc fuel) p w =
      let n = min (chunk - length w.buf) (length p) in
      let w' = record w { buf = w.buf ++ take n p } in
      let flushed = flush_chunk w' in
      let on = write_loop fuel (drop n p) w' in
      let on_flushed = write_loop fuel (drop n p) flushed in
      if is_empty p
      then w
      else if length w'.buf == chunk && not (is_empty (drop n p))
      then (if flushed.failed then flushed else on_flushed)
      else on

  -- `Write`, less the count of the bytes, which is that of `p` where there is no error.
  unfoldable pub vault_write : Bytes → VaultWriter → VaultWriter
  unfolding write_loop
  vault_write p w = if w.failed then w else write_loop (suc (suc (length p))) p w

  -- `Close`, and whether it returns no error.
  unfoldable pub vault_close : VaultWriter → VaultWriter × Bool
  unfolding flush_chunk
  vault_close w =
      let w' = if not w.failed && not (is_empty w.buf) then flush_chunk w else w in
      (record w' { failed = true }, not w'.failed)

  -- `NewWriter`
  unfoldable pub new_writer : Vault → Bytes → Bytes → State → Option VaultWriter
  unfolding new_header
  new_writer v nonce content_key s =
      let (h, sealed) = new_header v nonce content_key in
      elim (write s sealed) [
        | none ↦ none
        | some s' ↦ some (record { sink = s'; header = h; buf = []; index = 0; failed = false })
      ]

-- `Reader`, on a file with this content; `cached` is the chunk that was read last, by its number.
pub record VaultReader : Type 0 where
  pub file : Bytes
  pub header : Header
  pub size : ℕ
  pub offset : ℕ
  pub cached : Option (ℕ × Bytes)

-- `Seek` and `io.ReadFull`: `none` where the file ends before.
unfoldable pub read_at : Bytes → ℕ → ℕ → Option Bytes
read_at file at n = if leb n (length (drop at file)) then some (take n (drop at file)) else none

-- What `load` comes to: the cleartext of a chunk, a file that ends before, or a chunk that cannot be
-- unsealed, which also drops the cached one.
pub data Loaded : Type 0 where
  plain_chunk : Bytes → Loaded
  cut_short damaged : Loaded

unfoldable pub loaded : Option Bytes → Loaded
loaded none = damaged
loaded (some plain) = plain_chunk plain

unfoldable pub load : ℕ → VaultReader → ℕ → Loaded
unfolding ciphertext_size read_at loaded
load chunk r i =
    let at = header_size + i * (chunk + chunk_overhead) in
    let n = min (chunk + chunk_overhead) (ciphertext_size chunk r.size - at) in
    elim (read_at r.file at n) [
      | none ↦ cut_short
      | some raw ↦
          loaded (r.header.key.unseal (take nonce_size raw) (drop nonce_size raw) (aad r.header i))
    ]

-- The chunk of this number, from the cache where it is there.
unfoldable pub chunk_at : ℕ → VaultReader → ℕ → Loaded
unfolding load
chunk_at chunk r i = elim r.cached [
  | none ↦ load chunk r i
  | some (j, plain) ↦ if j == i then plain_chunk plain else load chunk r i
]

-- `Read(p)` with `len(p)` = `n`.
unfoldable pub vault_read : ℕ → VaultReader → ℕ → VaultReader × ReadResult
unfolding chunk_at
vault_read chunk r n =
    let i = r.offset / chunk in
    if leb r.size r.offset then (r, end) else elim (chunk_at chunk r i) [
      | cut_short ↦ (r, broken)
      | damaged ↦ (record r { cached = none }, broken)
      | plain_chunk plain ↦
          let bs = take n (drop (r.offset - i * chunk) plain) in
          (record r { offset = r.offset + length bs; cached = some (i, plain) }, read bs)
    ]

-- `NewReader`
unfoldable pub new_reader : ℕ → Vault → Bytes → ℕ → Option VaultReader
unfolding cleartext_size read_at open_header
new_reader chunk v file size = elim (cleartext_size chunk size) [
  | none ↦ none
  | some clear ↦ elim (read_at file 0 header_size) [
    | none ↦ none
    | some b ↦ elim (open_header v b) [
      | none ↦ none
      | some h ↦ some (record { file = file; header = h; size = clear; offset = 0; cached = none })
    ]
  ]
]
