-- ===== src/Tftp/Download/Blocks.antt =====
-- The blocks that RFC 1350 cuts a file into: all of one size, and a shorter one, empty perhaps,
-- at the end.
use go_fs.Base.{
  ℕ, zero, suc, ◌≤◌, ◌<◌, ◌≡◌, refl, ◌≢◌, ◌⊎◌, inl, inr, List, [], ◌∷◌, ◌++◌, arith, ltb,
  if◌then◌else◌, ltb→lt, Bool-cases, length, take, drop, length-append, length-take, length-drop,
  take-length-append, drop-length-append,
}
use go_fs.Tftp.Download.{last_length}
use go_fs.Base.Text.{Bytes}

blocks_onto : ℕ → ℕ → Bytes → List Bytes
blocks_onto zero n bs = []
blocks_onto (suc fuel) n bs =
    let rest = blocks_onto fuel n (drop n bs) in
    if ltb (length bs) n then bs ∷ [] else take n bs ∷ rest

-- Every block but the last takes a byte at least.
unfoldable pub blocks : ℕ → Bytes → List Bytes
unfolding blocks_onto
blocks n bs = blocks_onto (suc (length bs)) n bs

blocks_onto-fuel :
    (fuel fuel' n : ℕ) (bs : Bytes)
    → 0 < n
    → length bs < fuel
    → length bs < fuel'
    → blocks_onto fuel n bs ≡ blocks_onto fuel' n bs
unfolding blocks_onto
blocks_onto-fuel zero fuel' n bs pos h h' = absurd (omega arith)
blocks_onto-fuel (suc fuel) zero n bs pos h h' = absurd (omega arith)
blocks_onto-fuel (suc fuel) (suc fuel') n bs pos h h' =
    ground (arith, length-drop n bs, blocks_onto-fuel fuel fuel' n (drop n bs))

pub blocks_short : (n : ℕ) (bs : Bytes) → length bs < n → blocks n bs ≡ bs ∷ []
unfolding blocks
blocks_short n bs h = ground arith

pub blocks_full :
    (n : ℕ) (c bs : Bytes) → 0 < n → length c ≡ n → blocks n (c ++ bs) ≡ c ∷ blocks n bs
unfolding blocks
blocks_full n c bs pos h = ground (
  arith,
  length-append c bs,
  rw h at (take-length-append c bs),
  rw h at (drop-length-append c bs),
  blocks_onto-fuel (length (c ++ bs)) (suc (length bs)) n bs pos,
)

-- All full but the last one, which is short.
abbrev pub Shape : ℕ → List Bytes → Type 0
Shape n [] = ⊥
Shape n (c ∷ []) = length c < n
Shape n (c ∷ d ∷ cs) = (length c ≡ n) × Shape n (d ∷ cs)

Shape-cons : (n : ℕ) (c : Bytes) (cs : List Bytes) → length c ≡ n → Shape n cs → Shape n (c ∷ cs)
Shape-cons n c [] e s = absurd s
Shape-cons n c (d ∷ cs) e s = (e, s)

Shape-blocks_onto :
    (fuel n : ℕ) (bs : Bytes) → 0 < n → length bs < fuel → Shape n (blocks_onto fuel n bs)
unfolding blocks_onto
Shape-blocks_onto zero n bs pos h = absurd (omega arith)
Shape-blocks_onto (suc fuel) n bs pos h = elim (Bool-cases (ltb (length bs) n)) [
  | inl e ↦ rw e (ltb→lt (length bs) n e)
  | inr e ↦
      let le : n ≤ length bs = ground arith in
      rw e (
        Shape-cons n (take n bs) _ (omega (arith, length-take n bs))
          (Shape-blocks_onto fuel n (drop n bs) pos (omega (arith, length-drop n bs))))
]

pub Shape-blocks : (n : ℕ) (bs : Bytes) → 0 < n → Shape n (blocks n bs)
unfolding blocks
Shape-blocks n bs pos = Shape-blocks_onto (suc (length bs)) n bs pos (omega arith)

-- In a run of blocks, one that is short is the last, and one that is not is full.
pub Shape-middle :
    (n : ℕ) (xs ys zs : List Bytes)
    → Shape n (xs ++ (ys ++ zs))
    → ys ≢ []
    → ((last_length ys < n) × (zs ≡ [])) ⊎ ((last_length ys ≡ n) × (zs ≢ []))
Shape-middle n [] [] zs s ne = absurd (ne refl)
Shape-middle n [] (y ∷ []) [] s ne = inl (s, refl)
Shape-middle n [] (y ∷ []) (z ∷ zs) s ne = inr (s.0, λ e. cc)
Shape-middle n [] (y ∷ y' ∷ ys) zs s ne = Shape-middle n [] (y' ∷ ys) zs s.1 (λ e. cc)
Shape-middle n (x ∷ []) [] zs s ne = absurd (ne refl)
Shape-middle n (x ∷ []) (y ∷ ys) zs s ne = Shape-middle n [] (y ∷ ys) zs s.1 ne
Shape-middle n (x ∷ x' ∷ xs) ys zs s ne = Shape-middle n (x' ∷ xs) ys zs s.1 ne
