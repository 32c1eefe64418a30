-- ===== src/Cryptomator/Chunks.antt =====
-- The sealed chunks of a file of internal/cryptomator/content.go.
use go_fs.Base.{
  ℕ, suc, ◌+◌, ◌≤◌, ◌<◌, ◌≡◌, refl, sym, ap, ◌∙◌, List, [], ◌∷◌, ◌++◌, append-nil, append_assoc,
  arith, length, All,
}
use go_fs.Base.Text.{Bytes}
use go_fs.Cryptomator.{Header, sealed_chunk}

abbrev pub joined : List Bytes → Bytes
joined [] = []
joined (c ∷ cs) = c ++ joined cs

pub joined-append : (xs ys : List Bytes) → joined (xs ++ ys) ≡ joined xs ++ joined ys
joined-append [] ys = refl
joined-append (x ∷ xs) ys =
    ap (λ z. x ++ z) (joined-append xs ys) ∙ sym (append_assoc x (joined xs) (joined ys))

-- The chunks of this cleartext, from number `i` on.
unfoldable pub sealed_all : Header → (ℕ → Bytes) → ℕ → List Bytes → Bytes
sealed_all h drawn i [] = []
sealed_all h drawn i (c ∷ cs) = sealed_chunk h drawn i c ++ sealed_all h drawn (suc i) cs

pub sealed_all-append :
    (h : Header) (drawn : ℕ → Bytes) (i : ℕ) (xs ys : List Bytes)
    → sealed_all h drawn i (xs ++ ys)
      ≡ sealed_all h drawn i xs ++ sealed_all h drawn (i + length xs) ys
unfolding sealed_all
sealed_all-append h drawn i [] ys = ap (λ n. sealed_all h drawn n ys) (omega arith)
sealed_all-append h drawn i (x ∷ xs) ys =
    let tail = sealed_all-append h drawn (suc i) xs ys in
    let n : suc i + length xs ≡ i + length (x ∷ xs) = omega arith in
    ap (λ z. sealed_chunk h drawn i x ++ z)
      (tail ∙ ap (λ m. sealed_all h drawn (suc i) xs ++ sealed_all h drawn m ys) n)
    ∙ sym (append_assoc (sealed_chunk h drawn i x) (sealed_all h drawn (suc i) xs) _)

pub sealed_all-snoc :
    (h : Header) (drawn : ℕ → Bytes) (cs : List Bytes) (c : Bytes)
    → sealed_all h drawn 0 (cs ++ c ∷ [])
      ≡ sealed_all h drawn 0 cs ++ sealed_chunk h drawn (length cs) c
unfolding sealed_all
sealed_all-snoc h drawn cs c =
    let zeroth : 0 + length cs ≡ length cs = omega arith in
    sealed_all-append h drawn 0 cs (c ∷ [])
    ∙ ap (λ z. sealed_all h drawn 0 cs ++ z)
        (append-nil _ ∙ ap (λ n. sealed_chunk h drawn n c) zeroth)

abbrev pub AllFull : ℕ → List Bytes → Type 0
AllFull chunk = All (λ c. length c ≡ chunk)

-- Whole chunks and a last one, which is no longer than they are.
abbrev pub Shape : ℕ → List Bytes → Type 0
Shape chunk [] = Unit
Shape chunk (c ∷ []) = (0 < length c) × (length c ≤ chunk)
Shape chunk (c ∷ d ∷ cs) = (length c ≡ chunk) × Shape chunk (d ∷ cs)

pub Shape-AllFull : (chunk : ℕ) (cs : List Bytes) → 0 < chunk → AllFull chunk cs → Shape chunk cs
Shape-AllFull chunk [] pos h = tt
Shape-AllFull chunk (c ∷ []) pos h = (omega (arith, h.0), omega (arith, h.0))
Shape-AllFull chunk (c ∷ d ∷ cs) pos h = (h.0, Shape-AllFull chunk (d ∷ cs) pos h.1)

pub Shape-snoc :
    (chunk : ℕ) (cs : List Bytes) (b : Bytes)
    → AllFull chunk cs
    → 0 < length b
    → length b ≤ chunk
    → Shape chunk (cs ++ b ∷ [])
Shape-snoc chunk [] b h p l = (p, l)
Shape-snoc chunk (c ∷ []) b h p l = (h.0, (p, l))
Shape-snoc chunk (c ∷ d ∷ cs) b h p l = (h.0, Shape-snoc chunk (d ∷ cs) b h.1 p l)
