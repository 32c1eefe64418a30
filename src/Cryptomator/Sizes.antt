-- ===== src/Cryptomator/Sizes.antt =====
-- The sizes of internal/cryptomator/content.go.
use go_fs.Base.{
  ℕ, ◌+◌, ◌-◌, ◌*◌, ◌/◌, ◌%◌, ◌≤◌, ◌<◌, ◌≡◌, refl, sym, ap, ◌∙◌, ◌↔◌, inl, inr, false, some, arith,
  ltb, leb, ltb→lt, Bool-cases,
}
use native.Mathlib.Nat.{
  mul-add-div_right, div-eq_of_lt, div-add-mod', mod-lt, mul-add-mod_self_right, mod-eq_of_lt,
}
use go_fs.Cryptomator.{header_size, chunk_overhead, ciphertext_size, cleartext_size, clear_parts}

-- A number with its quotient and rest by a divisor.
pub parts : (n d : ℕ) → 0 < d → (q : ℕ) × (r : ℕ) × (n ≡ q * d + r) × (r < d)
parts n d p = (n / d, n % d, sym (div-add-mod' n d), mod-lt n p)

pub quotient : (q d r : ℕ) → r < d → (q * d + r) / d ≡ q
quotient q d r l = mul-add-div_right (omega (arith, l)) q r ∙ omega (arith, div-eq_of_lt l)

remainder : (q d r : ℕ) → r < d → (q * d + r) % d ≡ r
remainder q d r l = mul-add-mod_self_right q d r ∙ mod-eq_of_lt l

up_whole : (chunk q : ℕ) → 0 < chunk → (q * chunk + 0 + chunk - 1) / chunk ≡ q
up_whole chunk q p =
    let e : q * chunk + 0 + chunk - 1 ≡ q * chunk + (chunk - 1) = omega (arith, p) in
    ap (λ n. n / chunk) e ∙ quotient q chunk (chunk - 1) (omega (arith, p))

up_part : (chunk q r : ℕ) → r < chunk → 0 < r → (q * chunk + r + chunk - 1) / chunk ≡ q + 1
up_part chunk q r l p =
    let e : q * chunk + r + chunk - 1 ≡ (q + 1) * chunk + (r - 1) = grind (arith, p) in
    ap (λ n. n / chunk) e ∙ quotient (q + 1) chunk (r - 1) (omega (arith, l))

-- The size of a file by its whole chunks and the rest.
ciphertext_whole :
    (chunk q : ℕ)
    → 0 < chunk
    → ciphertext_size chunk (q * chunk + 0) ≡ header_size + (q * (chunk + chunk_overhead) + 0)
unfolding ciphertext_size
ciphertext_whole chunk q p =
    ap (λ n. header_size + (q * chunk + 0) + n * chunk_overhead) (up_whole chunk q p) ∙ grind arith

ciphertext_part :
    (chunk q r : ℕ)
    → r < chunk
    → 0 < r
    → ciphertext_size chunk (q * chunk + r)
      ≡ header_size + (q * (chunk + chunk_overhead) + (r + chunk_overhead))
unfolding ciphertext_size
ciphertext_part chunk q r l p =
    ap (λ n. header_size + (q * chunk + r) + n * chunk_overhead) (up_part chunk q r l p)
    ∙ grind arith

pub cleartext_parts :
    (chunk q t : ℕ)
    → t < chunk + chunk_overhead
    → cleartext_size chunk (header_size + (q * (chunk + chunk_overhead) + t))
      ≡ clear_parts chunk q t
unfolding cleartext_size
cleartext_parts chunk q t l =
    let body = header_size + (q * (chunk + chunk_overhead) + t) - header_size in
    let e : body ≡ q * (chunk + chunk_overhead) + t = omega arith in
    let f = ap (λ n. n / (chunk + chunk_overhead)) e ∙ quotient q (chunk + chunk_overhead) t l in
    let g = ap (λ n. n % (chunk + chunk_overhead)) e ∙ remainder q (chunk + chunk_overhead) t l in
    let long : ltb (header_size + (q * (chunk + chunk_overhead) + t)) header_size ≡ false =
      ground arith in
    rw (long, cleartext_size) (λ i. clear_parts chunk (f i) (g i))

ltb_not : (m n : ℕ) → n ≤ m → ltb m n ≡ false
ltb_not m n l = ground arith

clear_whole : (chunk q : ℕ) → clear_parts chunk q 0 ≡ some (q * chunk + 0)
unfolding clear_parts
clear_whole chunk q = refl

clear_part :
    (chunk q r : ℕ) → 0 < r → clear_parts chunk q (r + chunk_overhead) ≡ some (q * chunk + r)
unfolding clear_parts
clear_part chunk q r p = ground arith

-- A file of each size has one length, from which the size is read back.
pub size_back : (chunk n : ℕ) → 0 < chunk → cleartext_size chunk (ciphertext_size chunk n) ≡ some n
size_back chunk n p =
    let (q, r, e, l) = parts n chunk p in
    elim (Bool-cases (ltb 0 r)) [
      | inl b ↦
          let pos = ltb→lt 0 r b in
          ap (cleartext_size chunk) (ap (ciphertext_size chunk) e ∙ ciphertext_part chunk q r l pos)
          ∙ (cleartext_parts chunk q (r + chunk_overhead) (omega (arith, l))
              ∙ (clear_part chunk q r pos ∙ ap some (sym e)))
      | inr b ↦
          let z : n ≡ q * chunk + 0 = ground arith in
          ap (cleartext_size chunk) (ap (ciphertext_size chunk) z ∙ ciphertext_whole chunk q p)
          ∙ (cleartext_parts chunk q 0 (omega (arith, p)) ∙ (clear_whole chunk q ∙ ap some (sym z)))
    ]

clear_parts-size :
    (chunk q t n : ℕ)
    → 0 < chunk
    → t < chunk + chunk_overhead
    → clear_parts chunk q t ≡ some n
    → header_size + (q * (chunk + chunk_overhead) + t) ≡ ciphertext_size chunk n
unfolding clear_parts
clear_parts-size chunk q t n p l e = elim (Bool-cases (ltb 0 t)) [
  | inr b ↦
      let z : t ≡ 0 = ground arith in
      let m : n ≡ q * chunk + 0 = ground arith in
      ap (λ v. header_size + (q * (chunk + chunk_overhead) + v)) z
      ∙ (sym (ciphertext_whole chunk q p) ∙ ap (ciphertext_size chunk) (sym m))
  | inl b ↦ elim (Bool-cases (leb t chunk_overhead)) [
    | inl c ↦ absurd (ground arith)
    | inr c ↦
        let r = t - chunk_overhead in
        let m : n ≡ q * chunk + r = ground arith in
        let z : t ≡ r + chunk_overhead = ground arith in
        ap (λ v. header_size + (q * (chunk + chunk_overhead) + v)) z
        ∙ (sym (ciphertext_part chunk q r (ground arith) (ground arith))
            ∙ ap (ciphertext_size chunk) (sym m))
  ]
]

cleartext_only :
    (chunk len size : ℕ)
    → 0 < chunk
    → cleartext_size chunk len ≡ some size
    → len ≡ ciphertext_size chunk size
unfolding cleartext_size
cleartext_only chunk len size p e = elim (Bool-cases (ltb len header_size)) [
  | inl b ↦ absurd (ground arith)
  | inr b ↦
      let body = len - header_size in
      let d = chunk + chunk_overhead in
      let whole : len ≡ header_size + (body / d * d + body % d) =
        ground (arith, div-add-mod' body d) in
      whole
      ∙ clear_parts-size chunk (body / d) (body % d) size p (mod-lt body (omega arith))
          (rw (b) at e)
]

-- CleartextSize gives a size for exactly the lengths that CiphertextSize gives for it, whatever the
-- size of a chunk, and nothing for any other length.
pub cleartext_size-ciphertext_size :
    (chunk len size : ℕ)
    → 0 < chunk
    → (cleartext_size chunk len ≡ some size) ↔ (len ≡ ciphertext_size chunk size)
cleartext_size-ciphertext_size chunk len size p =
    (cleartext_only chunk len size p, λ e. ap (cleartext_size chunk) e ∙ size_back chunk size p)
