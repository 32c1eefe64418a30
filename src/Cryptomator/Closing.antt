-- ===== src/Cryptomator/Closing.antt =====
-- What the Writer of internal/cryptomator/content.go leaves in the file.
use mathlib.Core.Option.{none-ne-some, some-injective}
use mathlib.Core.Bool.{true≢false}
use go_fs.Base.{
  ℕ, suc, ◌≤◌, ◌<◌, ◌≡◌, refl, sym, ap, ◌∙◌, subst, inl, inr, Bool, true, false, not, ◌&&◌, some,
  List, [], ◌∷◌, ◌++◌, append-nil, append_assoc, arith, if◌then◌else◌, Bool-cases, Option-cases,
  List-cases, length,
}
use go_fs.Base.Text.{Bytes, is_empty}
use go_fs.Tftp.Streams.{Writer}
use go_fs.Cryptomator.{
  Vault, Header, new_header, VaultWriter, flush_chunk, write_loop, vault_write, vault_close,
  new_writer,
}
use go_fs.Cryptomator.Chunks.{joined, joined-append, sealed_all, Shape, Shape-AllFull, Shape-snoc}
use go_fs.Cryptomator.Writing.{Holds, flush-write, flush-content, write_loop-Holds}

zero_least : (n : ℕ) → 0 ≤ n
zero_least n = omega arith

refuted : (b : Bool) → not b ≡ true → b ≡ false
refuted b h = ground arith

module _ (out : Writer) (chunk : ℕ) (drawn : ℕ → Bytes) where
  open out use {State, write, content, write_appends}

  -- One `Write` after the other.
  abbrev pub write_each : List Bytes → VaultWriter out chunk drawn → VaultWriter out chunk drawn
  write_each [] w = w
  write_each (p ∷ ps) w = write_each ps (vault_write out chunk drawn p w)

  stays_failed :
      (ps : List Bytes) (w : VaultWriter out chunk drawn) → w.failed ≡ true → write_each ps w ≡ w
  unfolding vault_write
  stays_failed [] w f = refl
  stays_failed (p ∷ ps) w f =
      let same : vault_write out chunk drawn p w ≡ w = rw (f) refl in
      ap (write_each ps) same ∙ stays_failed ps w f

  vault_write-Holds :
      (h : Header) (before p plain : Bytes) (w : VaultWriter out chunk drawn)
      → 0 < chunk
      → w.failed ≡ false
      → Holds out chunk drawn h before plain w
      → (vault_write out chunk drawn p w).failed ≡ false
      → Holds out chunk drawn h before (plain ++ p) (vault_write out chunk drawn p w)
  unfolding vault_write
  vault_write-Holds h before p plain w pos f k ok =
      let same : vault_write out chunk drawn p w
          ≡ write_loop out chunk drawn (suc (suc (length p))) p w =
        rw (f) refl in
      subst (Holds out chunk drawn h before (plain ++ p)) (sym same) (
        write_loop-Holds out chunk drawn h before (suc (suc (length p))) p plain w pos f k
          (omega arith) (λ e. omega arith) (sym (ap (λ z. z.failed) same) ∙ ok))

  write_each-Holds :
      (h : Header) (before plain : Bytes) (ps : List Bytes) (w : VaultWriter out chunk drawn)
      → 0 < chunk
      → w.failed ≡ false
      → Holds out chunk drawn h before plain w
      → (write_each ps w).failed ≡ false
      → Holds out chunk drawn h before (plain ++ joined ps) (write_each ps w)
  write_each-Holds h before plain [] w pos f k ok =
      subst (λ z. Holds out chunk drawn h before z w) (sym (append-nil plain)) k
  write_each-Holds h before plain (p ∷ ps) w pos f k ok =
      let w' = vault_write out chunk drawn p w in
      elim (Bool-cases w'.failed) [
        | inl b ↦ absurd (true≢false (sym (ap (λ z. z.failed) (stays_failed ps w' b) ∙ b) ∙ ok))
        | inr b ↦
            subst (λ z. Holds out chunk drawn h before z (write_each ps w'))
              (append_assoc plain p (joined ps))
              (write_each-Holds h before (plain ++ p) ps w' pos b
                (vault_write-Holds h before p plain w pos f k b) ok)
      ]

  -- What is in the file at the end.
  abbrev pub Stored : Header → Bytes → Bytes → VaultWriter out chunk drawn → Type 0
  Stored h before plain w =
      (cs : List Bytes) × Shape chunk cs
      × (plain ≡ joined cs)
      × (content w.sink ≡ before ++ sealed_all h drawn 0 cs)

  close_fine :
      (w : VaultWriter out chunk drawn)
      → (vault_close out chunk drawn w).1 ≡ true
      → w.failed ≡ false
  unfolding vault_close
  close_fine w ok = ground arith

  close-Stored :
      (h : Header) (before plain : Bytes) (w : VaultWriter out chunk drawn)
      → 0 < chunk
      → Holds out chunk drawn h before plain w
      → (vault_close out chunk drawn w).1 ≡ true
      → Stored h before plain (vault_close out chunk drawn w).0
  unfolding vault_close is_empty
  close-Stored h before plain w pos (cs, all, e, n, c, l, k) ok = elim (Bool-cases w.failed) [
    | inl f ↦ absurd (ground arith)
    | inr f ↦ elim (List-cases w.buf) [
      | inl z ↦
          let same : (if not w.failed && not (is_empty w.buf)
                then flush_chunk out chunk drawn w
                else w)
              ≡ w =
            rw (f) (rw (z) refl) in
          (
            cs,
            Shape-AllFull chunk cs pos all,
            e ∙ (ap (λ b. joined cs ++ b) z ∙ append-nil (joined cs)),
            ap (λ v. content v.sink) same ∙ c,
          )
      | inr (x, rest, z) ↦
          let same : (if not w.failed && not (is_empty w.buf)
                then flush_chunk out chunk drawn w
                else w)
              ≡ flush_chunk out chunk drawn w =
            rw (f) (rw (z) refl) in
          let b = refuted _ (sym (ap (λ v. not v.failed) same) ∙ ok) in
          let (s, q, is) = flush-write out chunk drawn w b in
          let some_left = ap length z in
          (
            cs ++ w.buf ∷ [],
            Shape-snoc chunk cs w.buf all (omega (arith, some_left)) l,
            e
                ∙ (ap (λ y. joined cs ++ y) (sym (append-nil w.buf))
                    ∙ sym (joined-append cs (w.buf ∷ []))),
            ap (λ v. content v.sink) (same ∙ is)
                ∙ flush-content out chunk drawn h before w s cs n c k q,
          )
    ]
  ]

  new_writer-Holds :
      (v : Vault) (nonce content_key : Bytes) (s : State) (w : VaultWriter out chunk drawn)
      → new_writer out chunk drawn v nonce content_key s ≡ some w
      → Holds out chunk drawn
          (new_header v nonce content_key).0
          (content s ++ (new_header v nonce content_key).1)
          []
          w
        × (w.failed ≡ false)
  unfolding new_writer sealed_all
  new_writer-Holds v nonce content_key s w e =
      elim (Option-cases (write s (new_header v nonce content_key).1)) [
        | inl n ↦ absurd (none-ne-some w (sym (rw (n, new_writer) refl) ∙ e))
        | inr (s', q) ↦
            let is = some-injective _ _ (sym (rw (q, new_writer) refl) ∙ e) in
            (
              subst
                  (Holds out chunk drawn (new_header v nonce content_key).0
                    (content s ++ (new_header v nonce content_key).1) [])
                  is
                  (
                    [],
                    tt,
                    refl,
                    refl,
                    write_appends s s' _ q ∙ sym (append-nil _),
                    zero_least chunk,
                    refl,
                  ),
              sym (ap (λ z. z.failed) is),
            )
      ]

  -- A file that was written in any pieces and closed without an error holds its header and the
  -- sealed chunks of what was written, whole ones and a last one.
  pub written-Stored :
      (v : Vault) (nonce content_key : Bytes) (s : State) (w : VaultWriter out chunk drawn)
      (ps : List Bytes)
      → 0 < chunk
      → new_writer out chunk drawn v nonce content_key s ≡ some w
      → (vault_close out chunk drawn (write_each ps w)).1 ≡ true
      → Stored
          (new_header v nonce content_key).0
          (content s ++ (new_header v nonce content_key).1)
          (joined ps)
          (vault_close out chunk drawn (write_each ps w)).0
  written-Stored v nonce content_key s w ps pos e ok =
      let (k, f) = new_writer-Holds v nonce content_key s w e in
      close-Stored _ _ (joined ps) (write_each ps w) pos
        (write_each-Holds _ _ [] ps w pos f k (close_fine (write_each ps w) ok)) ok
