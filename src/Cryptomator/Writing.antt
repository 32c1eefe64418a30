-- ===== src/Cryptomator/Writing.antt =====
-- How the Writer of internal/cryptomator/content.go fills and flushes its buffer.
use mathlib.Core.Bool.{true≢false}
use go_fs.Base.{
  ℕ, zero, suc, ◌+◌, ◌-◌, ◌≤◌, ◌<◌, min, ◌≡◌, refl, sym, ap, ◌∙◌, subst, inl, inr, Bool, true,
  false, ◌&&◌, some, List, [], ◌∷◌, ◌++◌, append-nil, append_assoc, arith, ◌==◌, if◌then◌else◌,
  ==_iff, Bool-cases, Option-cases, List-cases, length, take, drop, length-append, take-append-drop,
  length-take, length-drop, All-append,
}
use go_fs.Base.Text.{Bytes, is_empty}
use go_fs.Tftp.Streams.{Writer}
use go_fs.Cryptomator.{Header, sealed_chunk, VaultWriter, flush_chunk, write_loop}
use go_fs.Cryptomator.Chunks.{joined, joined-append, sealed_all, sealed_all-snoc, AllFull}

if_and_false {ℓ} : {A : Type ℓ} (b : Bool) (x y : A) → (if b && false then x else y) ≡ y
if_and_false true x y = refl
if_and_false false x y = refl

module _ (out : Writer) (chunk : ℕ) (drawn : ℕ → Bytes) where
  open out use {State, write, content, write_appends}

  -- `plain` has been written: whole chunks are in the file behind what was there before, and the
  -- rest is in the buffer.
  abbrev pub Holds : Header → Bytes → Bytes → VaultWriter out chunk drawn → Type 0
  Holds h before plain w =
      (cs : List Bytes) × AllFull chunk cs
      × (plain ≡ joined cs ++ w.buf)
      × (length cs ≡ w.index)
      × (content w.sink ≡ before ++ sealed_all h drawn 0 cs)
      × (length w.buf ≤ chunk)
      × (w.header ≡ h)

  pub flush-write :
      (w : VaultWriter out chunk drawn)
      → (flush_chunk out chunk drawn w).failed ≡ false
      → (s : State) × (write w.sink (sealed_chunk w.header drawn w.index w.buf) ≡ some s)
        × (flush_chunk out chunk drawn w ≡ record w { sink = s; buf = []; index = w.index + 1 })
  unfolding flush_chunk
  flush-write w h = elim (Option-cases (write w.sink (sealed_chunk w.header drawn w.index w.buf))) [
    | inl e ↦ absurd (ground arith)
    | inr (s, e) ↦ (s, e, rw (e, flush_chunk) refl)
  ]

  -- What a flush adds to the file.
  pub flush-content :
      (h : Header) (before : Bytes) (w : VaultWriter out chunk drawn) (s : State) (cs : List Bytes)
      → length cs ≡ w.index
      → content w.sink ≡ before ++ sealed_all h drawn 0 cs
      → w.header ≡ h
      → write w.sink (sealed_chunk w.header drawn w.index w.buf) ≡ some s
      → content s ≡ before ++ sealed_all h drawn 0 (cs ++ w.buf ∷ [])
  flush-content h before w s cs n c e q =
      write_appends w.sink s _ q
      ∙ (ap (λ z. z ++ sealed_chunk w.header drawn w.index w.buf) c
          ∙ (append_assoc before (sealed_all h drawn 0 cs) _
              ∙ ap (λ z. before ++ z)
                  ((λ i. sealed_all h drawn 0 cs ++ sealed_chunk (e i) drawn (sym n i) w.buf)
                    ∙ sym (sealed_all-snoc h drawn cs w.buf))))

  flush-Holds :
      (h : Header) (before plain : Bytes) (w : VaultWriter out chunk drawn)
      → length w.buf ≡ chunk
      → (flush_chunk out chunk drawn w).failed ≡ false
      → Holds h before plain w
      → Holds h before plain (flush_chunk out chunk drawn w)
  flush-Holds h before plain w full ok (cs, all, p, n, c, l, e) =
      let (s, q, is) = flush-write w ok in
      subst (Holds h before plain) (sym is) (
        cs ++ w.buf ∷ [],
        All-append _ cs (w.buf ∷ []) all (full, tt),
        p
            ∙ (ap (λ z. joined cs ++ z) (sym (append-nil w.buf))
                ∙ (sym (joined-append cs (w.buf ∷ [])) ∙ sym (append-nil _))),
        length-append cs (w.buf ∷ []) ∙ omega (arith, n),
        flush-content h before w s cs n c e q,
        omega arith,
        e,
      )

  abbrev pub room : VaultWriter out chunk drawn → Bytes → ℕ
  room w p = min (chunk - length w.buf) (length p)

  abbrev pub filled : VaultWriter out chunk drawn → Bytes → VaultWriter out chunk drawn
  filled w p = record w { buf = w.buf ++ take (room w p) p }

  pub loop_nil :
      (fuel : ℕ) (w : VaultWriter out chunk drawn) → write_loop out chunk drawn fuel [] w ≡ w
  unfolding write_loop is_empty
  loop_nil zero w = refl
  loop_nil (suc fuel) w = refl

  -- A round that leaves nothing to write.
  loop_last :
      (fuel c : ℕ) (p : Bytes) (w : VaultWriter out chunk drawn)
      → drop (room w (c ∷ p)) (c ∷ p) ≡ []
      → write_loop out chunk drawn (suc fuel) (c ∷ p) w ≡ filled w (c ∷ p)
  unfolding write_loop is_empty
  loop_last fuel c p w e =
      rw (e, write_loop)
        (if_and_false (length (filled w (c ∷ p)).buf == chunk) _ _
          ∙ loop_nil fuel (filled w (c ∷ p)))

  -- A round that fills the buffer, and flushes it.
  loop_flush :
      (fuel c d : ℕ) (p q : Bytes) (w : VaultWriter out chunk drawn)
      → drop (room w (c ∷ p)) (c ∷ p) ≡ d ∷ q
      → length (filled w (c ∷ p)).buf ≡ chunk
      → write_loop out chunk drawn (suc fuel) (c ∷ p) w ≡ (
          if (flush_chunk out chunk drawn (filled w (c ∷ p))).failed
          then flush_chunk out chunk drawn (filled w (c ∷ p))
          else write_loop out chunk drawn fuel
              (d ∷ q)
              (flush_chunk out chunk drawn (filled w (c ∷ p))))
  unfolding write_loop is_empty
  loop_flush fuel c d p q w e l =
      rw (e, write_loop) (rw ((==_iff (length (filled w (c ∷ p)).buf) chunk).1 l) refl)

  filled-Holds :
      (h : Header) (before plain p : Bytes) (w : VaultWriter out chunk drawn)
      → Holds h before plain w
      → Holds h before (plain ++ take (room w p) p) (filled w p)
  filled-Holds h before plain p w (cs, all, e, n, c, l, k) = (
    cs,
    all,
    ap (λ z. z ++ take (room w p) p) e ∙ append_assoc (joined cs) w.buf (take (room w p) p),
    n,
    c,
    omega (arith, l, length-append w.buf (take (room w p) p), length-take (room w p) p),
    k,
  )

  -- What is left is shorter, or the buffer was full.
  shorter :
      (fuel c d : ℕ) (p q : Bytes) (w : VaultWriter out chunk drawn)
      → length (c ∷ p) < suc fuel
      → (length w.buf ≡ chunk → length (c ∷ p) + 1 < suc fuel)
      → length w.buf ≤ chunk
      → length (d ∷ q) ≡ length (c ∷ p) - room w (c ∷ p)
      → length (d ∷ q) < fuel
  shorter fuel c d p q w m m' l e = elim (Bool-cases (length w.buf == chunk)) [
    | inl b ↦ let i = m' ((==_iff (length w.buf) chunk).0 b) in omega (arith, i, e)
    | inr b ↦ ground arith
  ]

  pub write_loop-Holds :
      (h : Header) (before : Bytes) (fuel : ℕ) (p plain : Bytes) (w : VaultWriter out chunk drawn)
      → 0 < chunk
      → w.failed ≡ false
      → Holds h before plain w
      → length p < fuel
      → (length w.buf ≡ chunk → length p + 1 < fuel)
      → (write_loop out chunk drawn fuel p w).failed ≡ false
      → Holds h before (plain ++ p) (write_loop out chunk drawn fuel p w)
  write_loop-Holds h before fuel [] plain w pos f k m m' ok =
      subst (Holds h before (plain ++ [])) (sym (loop_nil fuel w))
        (subst (λ z. Holds h before z w) (sym (append-nil plain)) k)
  write_loop-Holds h before zero (c ∷ p) plain w pos f k m m' ok = absurd (omega (arith, m))
  write_loop-Holds h before (suc fuel) (c ∷ p) plain w pos f k m m' ok =
      let n = room w (c ∷ p) in
      let t = take-append-drop n (c ∷ p) in
      let k' = filled-Holds h before plain (c ∷ p) w k in
      elim (List-cases (drop n (c ∷ p))) [
        | inl e ↦
            let whole =
              sym (append-nil (take n (c ∷ p))) ∙ (ap (λ z. take n (c ∷ p) ++ z) (sym e) ∙ t) in
            subst (Holds h before (plain ++ (c ∷ p))) (sym (loop_last fuel c p w e))
              (subst (λ z. Holds h before (plain ++ z) (filled w (c ∷ p))) whole k')
        | inr (d, q, e) ↦
            let (cs, all, pe, ni, ci, bl, hk) = k in
            let v = filled w (c ∷ p) in
            let u = flush_chunk out chunk drawn v in
            let left = sym (ap length e) ∙ length-drop n (c ∷ p) in
            let full : length v.buf ≡ chunk =
              omega
                (arith, bl, left, length-append w.buf (take n (c ∷ p)), length-take n (c ∷ p)) in
            let pick = λ (b : Bool). if b then u else write_loop out chunk drawn fuel (d ∷ q) u in
            let eq = loop_flush fuel c d p q w e full in
            elim (Bool-cases u.failed) [
              | inl b ↦ absurd (true≢false (sym (ap (λ z. z.failed) (eq ∙ ap pick b) ∙ b) ∙ ok))
              | inr b ↦
                  let eq' = eq ∙ ap pick b in
                  let empty = ap (λ z. length z.buf) (flush-write v b).2 in
                  let text =
                    append_assoc plain (take n (c ∷ p)) (d ∷ q)
                    ∙ ap (λ z. plain ++ z) (ap (λ z. take n (c ∷ p) ++ z) (sym e) ∙ t) in
                  subst (Holds h before (plain ++ (c ∷ p))) (sym eq') (
                    subst (λ z. Holds h before z (write_loop out chunk drawn fuel (d ∷ q) u)) text
                      (write_loop-Holds h before fuel (d ∷ q) (plain ++ take n (c ∷ p)) u pos b
                        (flush-Holds h before _ v full b k') (shorter fuel c d p q w m m' bl left)
                        (λ z. absurd (omega (arith, z, empty, pos)))
                        (sym (ap (λ z. z.failed) eq') ∙ ok)))
            ]
      ]
