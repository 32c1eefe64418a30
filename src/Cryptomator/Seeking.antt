-- ===== src/Cryptomator/Seeking.antt =====
-- Seek of internal/cryptomator/content.go, and reads from anywhere.
use go_fs.Base.{
  if-either, ℕ, ◌+◌, ◌-◌, ◌<◌, ◌≡◌, refl, sym, ap, ◌∙◌, subst, ◌⊎◌, inl, inr, true, Option, none,
  some, List, [], ◌∷◌, ltb, ◌==◌, if◌then◌else◌, length, drop,
}
use go_fs.Base.Text.{Bytes}
use go_fs.Tftp.Streams.{Writer}
use go_fs.Cryptomator.{
  nonce_size, Vault, VaultWriter, vault_close, new_writer, VaultReader, vault_read, new_reader,
}
use mathlib.Core.Option.{some-injective, none-ne-some}
use go_fs.Base.Integers.{ℤ, pos, negsuc}
use go_fs.Cryptomator.Chunks.{joined}
use go_fs.Cryptomator.Closing.{write_each}
use go_fs.Cryptomator.RoundTrip.{
  read_whole, Reads, vault_opened, read_whole-Reads, vault_read-Reads,
}

abbrev pub seek_start : ℕ
seek_start = 0

abbrev pub seek_current : ℕ
seek_current = 1

abbrev pub seek_end : ℕ
seek_end = 2

-- `offset += n`. The sum of an int64 above 2^63 - 1 turns negative there, and is then refused; sums that
-- large are not modelled.
unfoldable pub moved : ℤ → ℕ → ℤ
moved (pos m) n = pos (m + n)
moved (negsuc m) n = if ltb m n then pos (n - (m + 1)) else negsuc (m - n)

-- The end of `Seek`, with the offset that it returns or an error.
unfoldable pub seek_to : VaultReader → ℤ → VaultReader × Option ℕ
seek_to r (pos n) = (record r { offset = n }, some n)
seek_to r (negsuc n) = (r, none)

-- `Seek(offset, whence)`
unfoldable pub seek : VaultReader → ℤ → ℕ → VaultReader × Option ℕ
unfolding moved seek_to
seek r offset whence =
    if whence == seek_start
    then seek_to r offset
    else if whence == seek_current
    then seek_to r (moved offset r.offset)
    else if whence == seek_end
    then seek_to r (moved offset r.size)
    else (r, none)

-- The calls of a client of the reader.
pub data Call : Type 0 where
  reads : ℕ → Call
  seeks : ℤ → ℕ → Call

unfoldable pub call : ℕ → Call → VaultReader → VaultReader
call chunk (reads n) r = (vault_read chunk r n).0
call chunk (seeks offset whence) r = (seek r offset whence).0

unfoldable pub call_all : ℕ → List Call → VaultReader → VaultReader
call_all chunk [] r = r
call_all chunk (c ∷ cs) r = call_all chunk cs (call chunk c r)

-- A seek moves to the offset that it returns, or nowhere.
abbrev Moves : VaultReader → VaultReader × Option ℕ → Type 0
Moves r z = (z ≡ (r, none)) ⊎ ((p : ℕ) × (z ≡ (record r { offset = p }, some p)))

seek_to-Moves : (r : VaultReader) (offset : ℤ) → Moves r (seek_to r offset)
unfolding seek_to
seek_to-Moves r (pos n) = inr (n, refl)
seek_to-Moves r (negsuc n) = inl refl

seek-Moves : (r : VaultReader) (offset : ℤ) (whence : ℕ) → Moves r (seek r offset whence)
unfolding seek
seek-Moves r offset whence =
    if-either (Moves r) (whence == seek_start) _ _ (λ q. seek_to-Moves r offset)
      (λ q.
        if-either (Moves r) (whence == seek_current) _ _
          (λ q. seek_to-Moves r (moved offset r.offset))
          (λ q.
            if-either (Moves r) (whence == seek_end) _ _
              (λ q. seek_to-Moves r (moved offset r.size)) (λ q. inl refl)))

seek-offset :
    (r : VaultReader) (offset : ℤ) (whence p : ℕ)
    → (seek r offset whence).1 ≡ some p
    → (seek r offset whence).0.offset ≡ p
seek-offset r offset whence p h = elim (seek-Moves r offset whence) [
  | inl e ↦ absurd (none-ne-some p (sym (ap (λ z. z.1) e) ∙ h))
  | inr (q, e) ↦ ap (λ z. z.0.offset) e ∙ some-injective q p (sym (ap (λ z. z.1) e) ∙ h)
]

module _ (chunk : ℕ) (drawn : ℕ → Bytes) (v : Vault) (nonce content_key : Bytes) (out : Writer)
    (s : out.State) (w : VaultWriter out chunk drawn) (ps : List Bytes) (start : 0 < chunk)
    (drawn_size : (j : ℕ) → length (drawn j) ≡ nonce_size)
    (nonce_length : length nonce ≡ nonce_size) (key_length : length content_key ≡ 32) where
  abbrev Open : VaultReader → Type 0
  Open r =
      Reads chunk drawn v nonce content_key out s w ps start drawn_size nonce_length key_length r

  seek-Reads : (r : VaultReader) (offset : ℤ) (whence : ℕ) → Open r → Open (seek r offset whence).0
  seek-Reads r offset whence g = elim (seek-Moves r offset whence) [
    | inl e ↦ subst Open (sym (ap (λ z. z.0) e)) g
    | inr (q, e) ↦
        subst Open (sym (ap (λ z. z.0) e))
          (record { cs = g.cs; shape = g.shape; plain = g.plain; good = g.good })
  ]

  call_all-Reads : (cs : List Call) (r : VaultReader) → Open r → Open (call_all chunk cs r)
  unfolding call_all call
  call_all-Reads [] r g = g
  call_all-Reads (reads n ∷ cs) r g = call_all-Reads cs _ (
      vault_read-Reads chunk drawn v nonce content_key out s w ps start drawn_size nonce_length
        key_length r n g)
  call_all-Reads (seeks offset whence ∷ cs) r g = call_all-Reads cs _ (seek-Reads r offset whence g)

-- A file of the vault that was written in any pieces and closed without an error is opened. Whatever a
-- client has read of it and where it has moved to, failed calls included, a Seek that returns an offset
-- has moved there: the client that then reads to the end, in steps of any size, reads what was written
-- from that offset on, and nothing where it lies behind the end. The sizes and AES-GCM are as for
-- vault_roundtrip.
pub vault_random_access :
    (chunk : ℕ) (drawn : ℕ → Bytes) (v : Vault) (nonce content_key : Bytes) (out : Writer)
    (s : out.State) (w : VaultWriter out chunk drawn) (ps : List Bytes) (r : VaultReader)
    (calls : List Call) (offset : ℤ) (whence p n fuel : ℕ)
    → 0 < chunk
    → ((j : ℕ) → length (drawn j) ≡ nonce_size)
    → length nonce ≡ nonce_size
    → length content_key ≡ 32
    → out.content s ≡ []
    → new_writer out chunk drawn v nonce content_key s ≡ some w
    → (vault_close out chunk drawn (write_each out chunk drawn ps w)).1 ≡ true
    → new_reader chunk v
        (out.content (vault_close out chunk drawn (write_each out chunk drawn ps w)).0.sink)
        (length
          (out.content (vault_close out chunk drawn (write_each out chunk drawn ps w)).0.sink))
      ≡ some r
    → (seek (call_all chunk calls r) offset whence).1 ≡ some p
    → 0 < n
    → length (joined ps) < fuel
    → read_whole chunk fuel n (seek (call_all chunk calls r) offset whence).0
      ≡ some (drop p (joined ps))
vault_random_access chunk drawn v nonce content_key out s w ps r calls offset whence p n fuel start
      drawn_size l k empty e ok opens h some_room m =
    let (first, g) =
      vault_opened chunk drawn v nonce content_key out s w ps start drawn_size l k empty e ok in
    let g' =
      seek-Reads chunk drawn v nonce content_key out s w ps start drawn_size l k
        (call_all chunk calls r) offset whence
        (call_all-Reads chunk drawn v nonce content_key out s w ps start drawn_size l k calls r (
          subst (Reads chunk drawn v nonce content_key out s w ps start drawn_size l k)
            (some-injective _ r (sym first ∙ opens)) g)) in
    read_whole-Reads chunk drawn v nonce content_key out s w ps start drawn_size l k fuel n _ g'
      some_room m
    ∙ ap (λ z. some (drop z (joined ps))) (seek-offset (call_all chunk calls r) offset whence p h)
