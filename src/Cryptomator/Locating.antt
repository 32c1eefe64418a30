-- ===== src/Cryptomator/Locating.antt =====
-- Where the chunks of a file of internal/cryptomator/content.go stand.
use go_fs.Base.{
  ℕ, suc, ◌+◌, ◌-◌, ◌*◌, ◌/◌, ◌≤◌, ◌<◌, ◌≡◌, refl, ap, ◌∙◌, ◌⊎◌, inl, inr, List, [], ◌∷◌, ◌++◌,
  arith, ltb, Bool-cases, length, length-append,
}
use go_fs.Base.Text.{Bytes}
use go_fs.Cryptomator.{
  nonce_size, header_size, chunk_overhead, ciphertext_size, Header, aad, sealed_chunk,
}
use go_fs.Cryptomator.Chunks.{joined, sealed_all, Shape}
use go_fs.Cryptomator.Sizes.{quotient}

pub length-sealed_chunk :
    (h : Header) (drawn : ℕ → Bytes) (i : ℕ) (c : Bytes)
    → length (drawn i) ≡ nonce_size
    → length (sealed_chunk h drawn i c) ≡ length c + chunk_overhead
unfolding sealed_chunk
length-sealed_chunk h drawn i c l = omega (
  arith,
  length-append (drawn i) (h.key.seal (drawn i) c (aad h i)),
  h.key.seal_size (drawn i) c (aad h i),
  l,
)

pub length-sealed_all :
    (h : Header) (drawn : ℕ → Bytes) (i : ℕ) (cs : List Bytes)
    → ((j : ℕ) → length (drawn j) ≡ nonce_size)
    → length (sealed_all h drawn i cs) ≡ length (joined cs) + length cs * chunk_overhead
unfolding sealed_all
length-sealed_all h drawn i [] l = omega arith
length-sealed_all h drawn i (c ∷ cs) l = omega (
  arith,
  length-append (sealed_chunk h drawn i c) (sealed_all h drawn (suc i) cs),
  length-append c (joined cs),
  length-sealed_chunk h drawn i c (l i),
  length-sealed_all h drawn (suc i) cs l,
)

-- As many chunks as the size calls for.
Shape-size :
    (chunk : ℕ) (c : Bytes) (cs : List Bytes)
    → Shape chunk (c ∷ cs)
    → (r : ℕ) × (r < chunk) × (length (joined (c ∷ cs)) + chunk - 1 ≡ length (c ∷ cs) * chunk + r)
Shape-size chunk c [] s = (length c - 1, omega (arith, s), omega (arith, s, length-append c []))
Shape-size chunk c (d ∷ cs) s =
    let (r, l, e) = Shape-size chunk d cs s.1 in
    (r, l, grind (arith, e, s.0, length-append c (joined (d ∷ cs)), l))

pub ciphertext_size-Shape :
    (chunk : ℕ) (cs : List Bytes)
    → 0 < chunk
    → Shape chunk cs
    → ciphertext_size chunk (length (joined cs))
      ≡ header_size + length (joined cs) + length cs * chunk_overhead
unfolding ciphertext_size
ciphertext_size-Shape chunk [] pos s =
    let none_left : 0 + chunk - 1 ≡ 0 * chunk + (chunk - 1) = omega arith in
    let e : (0 + chunk - 1) / chunk ≡ 0 =
      ap (λ n. n / chunk) none_left ∙ quotient 0 chunk (chunk - 1) (omega (arith, pos)) in
    ap (λ n. header_size + 0 + n * chunk_overhead) e
ciphertext_size-Shape chunk (c ∷ cs) pos s =
    let (r, l, e) = Shape-size chunk c cs s in
    ap (λ n. header_size + length (joined (c ∷ cs)) + n * chunk_overhead)
      (ap (λ n. n / chunk) e ∙ quotient (length (c ∷ cs)) chunk r l)

-- The chunk that an offset falls into.
abbrev pub Located : ℕ → List Bytes → ℕ → Type 0
Located chunk cs o =
    (xs : List Bytes) × (c : Bytes) × (ys : List Bytes) × (cs ≡ xs ++ (c ∷ ys))
    × (length (joined xs) ≡ length xs * chunk)
    × (length xs * chunk ≤ o)
    × (o < length xs * chunk + length c)
    × (length c ≤ chunk)
    × ((ys ≡ []) ⊎ (length c ≡ chunk))

pub locate :
    (chunk : ℕ) (cs : List Bytes) (o : ℕ)
    → Shape chunk cs
    → o < length (joined cs)
    → Located chunk cs o
locate chunk [] o s l = absurd (omega (arith, l))
locate chunk (c ∷ []) o s l =
    ([], c, [], refl, omega arith, omega arith, omega (arith, l, length-append c []), s.1, inl refl)
locate chunk (c ∷ d ∷ cs) o s l = elim (Bool-cases (ltb o chunk)) [
  | inl b ↦ (
    [],
    c,
    d ∷ cs,
    refl,
    omega arith,
    omega arith,
    ground (arith, b, s.0),
    omega (arith, s.0),
    inr s.0,
  )
  | inr b ↦
      let total = length-append c (joined (d ∷ cs)) in
      let (xs, c', ys, e, m, p, q, f, t) =
        locate chunk (d ∷ cs) (o - chunk) s.1 (ground (arith, total, s.0, l)) in
      (
        c ∷ xs,
        c',
        ys,
        ap (◌∷◌ c) e,
        grind (arith, length-append c (joined xs), s.0, m),
        grind (arith, p, b),
        grind (arith, q, b),
        f,
        t,
      )
]
