-- ===== src/Cryptomator/RoundTrip.antt =====
-- A file of internal/cryptomator/content.go, written and read back.
use go_fs.Base.{
  ℕ, zero, suc, ◌≤◌, ◌<◌, ◌≡◌, refl, sym, ap, ◌∙◌, ◌≢◌, ◌⊎◌, inl, inr, true, Option, none, some,
  List, [], ◌++◌, arith, leb, ==_iff, Bool-cases, length, take, drop, replicate, length-append,
  length-drop, take-length-append, drop_all, drop-length-append,
}
use go_fs.Base.Text.{Bytes}
use go_fs.Tftp.Streams.{Writer, ReadResult, Reader, read, end, broken}
use go_fs.Cryptomator.{
  nonce_size, header_size, cleartext_size, Vault, Header, new_header, open_header, VaultWriter,
  vault_close, new_writer, VaultReader, read_at, vault_read, new_reader,
}
use mathlib.Core.Option.{some-injective, none-ne-some}
use mathlib.Core.Option
use go_fs.Tftp.Streams.{drain, drain-remaining}
use go_fs.Cryptomator.Chunks.{joined, sealed_all, Shape}
use go_fs.Cryptomator.Sizes.{size_back}
use go_fs.Cryptomator.Closing.{write_each, written-Stored}
use go_fs.Cryptomator.Reading.{
  Good, Opened, length-file, at_end, read_inside, read-Good, read_at-front,
}

abbrev pub payload : ReadResult → Bytes
payload (read bs) = bs
payload end = []
payload broken = []

end_broken : end ≡ broken → ⊥
end_broken e = cc

read_broken : (bs : Bytes) → read bs ≡ broken → ⊥
read_broken bs e = cc

end_read : (bs : Bytes) → end ≡ read bs → ⊥
end_read bs e = cc

abbrev pub read_with : Option Bytes → ReadResult → Option Bytes
read_with rest (read bs) = Option.map (λ t. bs ++ t) rest
read_with rest end = some []
read_with rest broken = none

-- A client that reads with room for `n` bytes until the end, over the reader of the vault.
unfoldable pub read_whole : ℕ → ℕ → ℕ → VaultReader → Option Bytes
read_whole chunk zero n r = none
read_whole chunk (suc fuel) n r =
    let rest = read_whole chunk fuel n (vault_read chunk r n).0 in
    read_with rest (vault_read chunk r n).1

module _ (chunk : ℕ) (h : Header) (drawn : ℕ → Bytes) (head : Bytes) (cs : List Bytes)
    (pos : 0 < chunk) (head_size : length head ≡ header_size)
    (drawn_size : (j : ℕ) → length (drawn j) ≡ nonce_size) (shape : Shape chunk cs) where
  abbrev pub File : Type 0
  File = Opened chunk h drawn head cs pos head_size drawn_size shape

  abbrev pub ahead : File → Bytes
  ahead (r, good) = drop r.offset (joined cs)

  abbrev pub step_on : File → ℕ → File × ReadResult
  step_on (r, good) n = (
    (
      (vault_read chunk r n).0,
      read-Good chunk h drawn head cs pos head_size drawn_size shape r n good,
    ),
    (vault_read chunk r n).1,
  )

  -- What a read comes to.
  read_either :
      (s : File) (n : ℕ)
      → (((step_on s n).1 ≡ end) × (ahead s ≡ []) × (ahead (step_on s n).0 ≡ []))
        ⊎ ((bs : Bytes) × ((step_on s n).1 ≡ read bs)
            × (ahead s ≡ bs ++ ahead (step_on s n).0)
            × (length bs ≤ n)
            × ((n ≡ 0) ⊎ (0 < length bs)))
  read_either (r, good) n = elim (Bool-cases (leb r.size r.offset)) [
    | inl b ↦
        let e = at_end chunk h drawn head cs pos head_size drawn_size shape r n b in
        let none_left = drop_all r.offset (joined cs) (ground (arith, b, good.2)) in
        inl (ap (λ z. z.1) e, none_left, ap (λ z. drop z.0.offset (joined cs)) e ∙ none_left)
    | inr b ↦
        let inside : r.offset < length (joined cs) = ground (arith, b, good.2) in
        let (bs, i, plain, e, g, text, most, least) =
          read_inside chunk h drawn head cs pos head_size drawn_size shape r n good inside in
        inr (
          bs,
          ap (λ z. z.1) e,
          text ∙ ap (λ z. bs ++ drop z.0.offset (joined cs)) (sym e),
          most,
          least,
        )
  ]

  pub next_read :
      (s : File) (n : ℕ) (bs : Bytes)
      → (step_on s n).1 ≡ read bs
      → ahead s ≡ bs ++ ahead (step_on s n).0
  next_read s n bs e = elim (read_either s n) [
    | inl (f, a, b) ↦ absurd (end_read bs (sym f ∙ e))
    | inr (bs', f, a, b, c) ↦ a ∙ ap (λ z. payload z ++ ahead (step_on s n).0) (sym f ∙ e)
  ]

  pub next_fits : (s : File) (n : ℕ) (bs : Bytes) → (step_on s n).1 ≡ read bs → length bs ≤ n
  next_fits s n bs e = elim (read_either s n) [
    | inl (f, a, b) ↦ absurd (end_read bs (sym f ∙ e))
    | inr (bs', f, a, b, c) ↦ omega (arith, b, ap (λ z. length (payload z)) (sym f ∙ e))
  ]

  pub next_some :
      (s : File) (n : ℕ) (bs : Bytes) → (step_on s n).1 ≡ read bs → 0 < n → 0 < length bs
  next_some s n bs e p = elim (read_either s n) [
    | inl (f, a, b) ↦ absurd (end_read bs (sym f ∙ e))
    | inr (bs', f, a, b, c) ↦ elim c [
      | inl z ↦ absurd (omega (arith, z, p))
      | inr l ↦ omega (arith, l, ap (λ z. length (payload z)) (sym f ∙ e))
    ]
  ]

  pub next_end :
      (s : File) (n : ℕ) → (step_on s n).1 ≡ end → (ahead s ≡ []) × (ahead (step_on s n).0 ≡ [])
  next_end s n e = elim (read_either s n) [
    | inl (f, a, b) ↦ (a, b)
    | inr (bs, f, a, b, c) ↦ absurd (end_read bs (sym e ∙ f))
  ]

  -- The reader of the vault is a reader of the cleartext.
  abbrev pub cleartext : Reader
  cleartext = record {
    State = File;
    remaining = ahead;
    next = step_on;
    next_read = next_read;
    next_fits = next_fits;
    next_some = next_some;
    next_end = next_end;
  }

  read_whole-drain :
      (fuel n : ℕ) (r : VaultReader)
      (good : Good chunk h drawn head cs pos head_size drawn_size shape r)
      → read_whole chunk fuel n r ≡ drain cleartext fuel n (r, good)
  unfolding read_whole drain
  read_whole-drain zero n r good = refl
  read_whole-drain (suc fuel) n r good =
      ap (λ rest. read_with rest (vault_read chunk r n).1)
        (read_whole-drain fuel n (vault_read chunk r n).0
          (read-Good chunk h drawn head cs pos head_size drawn_size shape r n good))

  not_broken : (s : File) (n : ℕ) → (step_on s n).1 ≢ broken
  not_broken s n e = elim (read_either s n) [
    | inl (f, a, b) ↦ end_broken (sym f ∙ e)
    | inr (bs, f, a, b, c) ↦ read_broken bs (sym f ∙ e)
  ]

  pub read_whole-Good :
      (fuel n : ℕ) (r : VaultReader)
      → Good chunk h drawn head cs pos head_size drawn_size shape r
      → 0 < n
      → length (joined cs) < fuel
      → read_whole chunk fuel n r ≡ some (drop r.offset (joined cs))
  read_whole-Good fuel n r good p m =
      read_whole-drain fuel n r good
      ∙ drain-remaining cleartext (λ s. Unit {0}) n p (λ s u. (tt, not_broken s n)) fuel (r, good)
          tt (omega (arith, length-drop r.offset (joined cs), m))

open_unsealed :
    (v : Vault) (b content : Bytes)
    → length b ≡ header_size
    → v.gcm.unseal (take nonce_size b) (drop nonce_size b) [] ≡ some content
    → open_header v b ≡ some (record { nonce = take nonce_size b; key = v.keyed (drop 8 content) })
unfolding open_header
open_unsealed v b content l e = rw ((==_iff (length b) header_size).1 l, open_header) (rw (e) refl)

length-new_header :
    (v : Vault) (nonce content_key : Bytes)
    → length nonce ≡ nonce_size
    → length content_key ≡ 32
    → length (new_header v nonce content_key).1 ≡ header_size
unfolding new_header
length-new_header v nonce content_key l k =
    let content = replicate 8 0xFF ++ content_key in
    omega (
      arith,
      length-append nonce (v.gcm.seal nonce content []),
      v.gcm.seal_size nonce content [],
      l,
      k,
    )

open_header-new_header :
    (v : Vault) (nonce content_key : Bytes)
    → length nonce ≡ nonce_size
    → length content_key ≡ 32
    → open_header v (new_header v nonce content_key).1 ≡ some (new_header v nonce content_key).0
unfolding new_header
open_header-new_header v nonce content_key l k =
    let content = replicate 8 0xFF ++ content_key in
    let sealed = v.gcm.seal nonce content [] in
    let front = ap (λ m. take m (nonce ++ sealed)) (sym l) ∙ take-length-append nonce sealed in
    let back = ap (λ m. drop m (nonce ++ sealed)) (sym l) ∙ drop-length-append nonce sealed in
    open_unsealed v (nonce ++ sealed) content (length-new_header v nonce content_key l k) (
      ap (λ z. v.gcm.unseal z (drop nonce_size (nonce ++ sealed)) []) front
      ∙ (ap (λ z. v.gcm.unseal nonce z []) back ∙ v.gcm.unseal_seal nonce content []))
    ∙ ap (λ z. some (record { nonce = z; key = v.keyed content_key })) front

-- Opening a file of which the size, the header and its key are known.
new_reader-opened :
    (chunk : ℕ) (v : Vault) (whole head : Bytes) (h : Header) (size : ℕ)
    → cleartext_size chunk (length whole) ≡ some size
    → read_at whole 0 header_size ≡ some head
    → open_header v head ≡ some h
    → new_reader chunk v whole (length whole)
      ≡ some (record { file = whole; header = h; size = size; offset = 0; cached = none })
unfolding new_reader
new_reader-opened chunk v whole head h size e f g = rw (e, new_reader) (rw (f) (rw (g) refl))

-- Opening what was written and closed without an error: the reader of it, which stands at its start.
module _ (chunk : ℕ) (drawn : ℕ → Bytes) (v : Vault) (nonce content_key : Bytes) (out : Writer)
    (s : out.State) (w : VaultWriter out chunk drawn) (ps : List Bytes) (pos : 0 < chunk)
    (drawn_size : (j : ℕ) → length (drawn j) ≡ nonce_size)
    (nonce_length : length nonce ≡ nonce_size) (key_length : length content_key ≡ 32) where
  abbrev pub whole : Bytes
  whole = out.content (vault_close out chunk drawn (write_each out chunk drawn ps w)).0.sink

  abbrev pub head : Bytes
  head = (new_header v nonce content_key).1

  pub head_size : length head ≡ header_size
  head_size = length-new_header v nonce content_key nonce_length key_length

  abbrev pub first_reader : VaultReader
  first_reader = record {
    file = whole;
    header = (new_header v nonce content_key).0;
    size = length (joined ps);
    offset = 0;
    cached = none;
  }

  -- A reader of the file, wherever it stands.
  pub record Reads (r : VaultReader) : Type 0 where
    pub cs : List Bytes
    pub shape : Shape chunk cs
    pub plain : joined ps ≡ joined cs
    pub good :
        Good chunk (new_header v nonce content_key).0 drawn head cs pos head_size drawn_size shape r

  pub vault_opened :
      out.content s ≡ []
      → new_writer out chunk drawn v nonce content_key s ≡ some w
      → (vault_close out chunk drawn (write_each out chunk drawn ps w)).1 ≡ true
      → (new_reader chunk v whole (length whole) ≡ some first_reader) × Reads first_reader
  vault_opened empty e ok =
      let (cs, shape, plain, stored) =
        written-Stored out chunk drawn v nonce content_key s w ps pos e ok in
      let h = (new_header v nonce content_key).0 in
      let is_file = stored ∙ ap (λ z. (z ++ head) ++ sealed_all h drawn 0 cs) empty in
      let size =
        ap (λ z. cleartext_size chunk (length z)) is_file
        ∙ (ap (cleartext_size chunk)
              (length-file chunk h drawn head cs pos head_size drawn_size shape)
            ∙ (size_back chunk (length (joined cs)) pos ∙ ap (λ z. some (length z)) (sym plain))) in
      let first =
        ap (λ z. read_at z 0 header_size) is_file
        ∙ (ap (read_at _ 0) (sym head_size)
            ∙ read_at-front _ 0 head (sealed_all h drawn 0 cs) refl) in
      (
        new_reader-opened chunk v whole head h (length (joined ps)) size first
            (open_header-new_header v nonce content_key nonce_length key_length),
        record {
          cs = cs;
          shape = shape;
          plain = plain;
          good = (is_file, refl, ap length plain, λ j c x. absurd (none-ne-some (j, c) x));
        },
      )

  pub read_whole-Reads :
      (fuel n : ℕ) (r : VaultReader)
      → Reads r
      → 0 < n
      → length (joined ps) < fuel
      → read_whole chunk fuel n r ≡ some (drop r.offset (joined ps))
  read_whole-Reads fuel n r g p m =
      read_whole-Good chunk (new_header v nonce content_key).0 drawn head g.cs pos head_size
        drawn_size g.shape fuel n r g.good p (omega (arith, m, ap length g.plain))
      ∙ ap (λ z. some (drop r.offset z)) (sym g.plain)

  pub vault_read-Reads : (r : VaultReader) (n : ℕ) → Reads r → Reads (vault_read chunk r n).0
  vault_read-Reads r n g = record {
    cs = g.cs;
    shape = g.shape;
    plain = g.plain;
    good =
        read-Good chunk (new_header v nonce content_key).0 drawn head g.cs pos head_size drawn_size
          g.shape r n g.good;
  }

-- A file of the vault that was written in any pieces and closed without an error is opened with its
-- size, and a client that reads to the end in steps of any size reads exactly what was written,
-- whatever the size of a chunk, given a nonce of 12 bytes for each chunk and a key of 32, and an
-- AES-GCM that opens what it sealed.
pub vault_roundtrip :
    (chunk : ℕ) (drawn : ℕ → Bytes) (v : Vault) (nonce content_key : Bytes) (out : Writer)
    (s : out.State) (w : VaultWriter out chunk drawn) (ps : List Bytes) (n fuel : ℕ)
    → 0 < chunk
    → ((j : ℕ) → length (drawn j) ≡ nonce_size)
    → length nonce ≡ nonce_size
    → length content_key ≡ 32
    → out.content s ≡ []
    → new_writer out chunk drawn v nonce content_key s ≡ some w
    → (vault_close out chunk drawn (write_each out chunk drawn ps w)).1 ≡ true
    → 0 < n
    → length (joined ps) < fuel
    → (r : VaultReader) × (new_reader chunk v
          (out.content (vault_close out chunk drawn (write_each out chunk drawn ps w)).0.sink)
          (length
            (out.content (vault_close out chunk drawn (write_each out chunk drawn ps w)).0.sink))
        ≡ some r)
      × (r.size ≡ length (joined ps))
      × (read_whole chunk fuel n r ≡ some (joined ps))
vault_roundtrip chunk drawn v nonce content_key out s w ps n fuel pos drawn_size l k empty e ok p
      m =
    let (opens, g) =
      vault_opened chunk drawn v nonce content_key out s w ps pos drawn_size l k empty e ok in
    let r = first_reader chunk drawn v nonce content_key out s w ps pos drawn_size l k in
    (
      r,
      opens,
      refl,
      read_whole-Reads chunk drawn v nonce content_key out s w ps pos drawn_size l k fuel n r g p m,
    )
