-- ===== src/Cryptomator/Offsets.antt =====
-- Byte strings behind an offset, for internal/cryptomator/content.go.
use go_fs.Base.{
  ℕ, zero, suc, ◌+◌, ◌≤◌, ◌<◌, ◌≡◌, refl, sym, ap, ◌∙◌, ◌⊎◌, inl, inr, List, [], ◌∷◌, ◌++◌,
  append_assoc, arith, length, take, drop, take-append-drop, length-take, drop-length-append,
}
use go_fs.Base.Text.{Bytes}
use go_fs.Cryptomator.Chunks.{joined}

abbrev no_bytes : Bytes
no_bytes = []

drop-nil : (n : ℕ) → drop n no_bytes ≡ no_bytes
drop-nil zero = refl
drop-nil (suc n) = refl

add_suc : (a b : ℕ) → suc a + b ≡ suc (a + b)
add_suc a b = omega arith

drop-drop : (a b : ℕ) (bs : Bytes) → drop (a + b) bs ≡ drop b (drop a bs)
drop-drop zero b bs = ap (λ n. drop n bs) (omega arith)
drop-drop (suc a) b [] = drop-nil (suc a + b) ∙ sym (drop-nil b)
drop-drop (suc a) b (c ∷ bs) = ap (λ n. drop n (c ∷ bs)) (add_suc a b) ∙ drop-drop a b bs

drop_inside : (n : ℕ) (xs ys : Bytes) → n ≤ length xs → drop n (xs ++ ys) ≡ drop n xs ++ ys
drop_inside zero xs ys l = refl
drop_inside (suc n) [] ys l = absurd (omega (arith, l))
drop_inside (suc n) (x ∷ xs) ys l = drop_inside n xs ys (omega (arith, l))

pub drop_behind :
    (o : ℕ) (whole front rest : Bytes)
    → drop o whole ≡ front ++ rest
    → drop (o + length front) whole ≡ rest
drop_behind o whole front rest e =
    drop-drop o (length front) whole ∙ (ap (drop (length front)) e ∙ drop-length-append front rest)

-- What stands behind an offset inside a chunk.
pub drop-joined :
    (xs : List Bytes) (c : Bytes) (ys : List Bytes) (at : ℕ)
    → at ≤ length c
    → drop (length (joined xs) + at) (joined xs ++ joined (c ∷ ys)) ≡ drop at c ++ joined ys
drop-joined xs c ys at l =
    drop-drop (length (joined xs)) at _
    ∙ (ap (drop at) (drop-length-append (joined xs) (c ++ joined ys))
        ∙ drop_inside at c (joined ys) l)

pub split_read : (n : ℕ) (c rest : Bytes) → c ++ rest ≡ take n c ++ (drop n c ++ rest)
split_read n c rest =
    ap (λ z. z ++ rest) (sym (take-append-drop n c)) ∙ append_assoc (take n c) (drop n c) rest

pub some_taken : (n : ℕ) (bs : Bytes) → 0 < length bs → (n ≡ 0) ⊎ (0 < length (take n bs))
some_taken zero bs l = inl refl
some_taken (suc n) bs l = inr (omega (arith, length-take (suc n) bs, l))
