-- ===== src/Vfs/Within.antt =====
-- The test `within` of internal/vfs/vfs.go, on the names of a path.
use mathlib.Core.List.{head-eq_of_cons-eq, tail-eq_of_cons-eq}
use go_fs.Base.{
  ◌≡◌, refl, sym, ap, ◌∙◌, ◌↔◌, inl, inr, true, List, [], ◌∷◌, ◌++◌, append-nil, append_assoc,
  arith, ==_iff, Bool-cases,
}
use go_fs.Base.Text.{Bytes, bytes_eq, bytes_eq_iff, is_empty}
use go_fs.Vfs.Paths.{slash, split, join, has_prefix, clean_segments}
use go_fs.Vfs.{Root, within}
use go_fs.Vfs.Paths.Cleaning.{
  is_name, AllNames, AllNames-free, path_of, split-slash, split-path_of, clean_segments-names,
}
use go_fs.Vfs.Paths.Splitting.{split-join, join-append}

has_prefix-append : (p t : Bytes) → has_prefix (p ++ t) p ≡ true
unfolding has_prefix
has_prefix-append [] [] = refl
has_prefix-append [] (c ∷ t) = refl
has_prefix-append (c ∷ p) t = ground (arith, has_prefix-append p t)

pub has_prefix-rest : (s p : Bytes) → has_prefix s p ≡ true → (t : Bytes) × (s ≡ p ++ t)
unfolding has_prefix
has_prefix-rest s [] h = (s, refl)
has_prefix-rest [] (c ∷ p) h = absurd cc
has_prefix-rest (d ∷ s) (c ∷ p) h =
    let (t, e) = has_prefix-rest s p (ground arith) in
    (t, ap (◌∷◌ d) e ∙ ap (λ z. z ∷ (p ++ t)) ((==_iff d c).0 (ground arith)))

path_of-injective :
    (ws vs : List Bytes) → AllNames ws → AllNames vs → path_of ws ≡ path_of vs → ws ≡ vs
path_of-injective ws vs h k e =
    sym (split-path_of ws [] h ∙ clean_segments-names true ws [] h)
    ∙ (ap (λ z. clean_segments true (split z) []) e
        ∙ (split-path_of vs [] k ∙ clean_segments-names true vs [] k))

split-names :
    (w : Bytes) (ws : List Bytes) → AllNames (w ∷ ws) → split (path_of (w ∷ ws)) ≡ [] ∷ w ∷ ws
unfolding split
split-names w ws h = ap (◌∷◌ []) (split-join w ws (AllNames-free (w ∷ ws) h))

split-behind :
    (rs : List Bytes) (b : Bytes) (bs : List Bytes) (t : Bytes)
    → AllNames (b ∷ bs)
    → path_of rs ≡ (path_of (b ∷ bs) ++ slash ∷ []) ++ t
    → split (path_of rs) ≡ [] ∷ b ∷ (bs ++ split t)
split-behind rs b bs t k e =
    ap split (e ∙ append_assoc (path_of (b ∷ bs)) (slash ∷ []) t)
    ∙ (split-slash (path_of (b ∷ bs)) t ∙ ap (λ z. z ++ split t) (split-names b bs k))

not_name : (b : Bytes) → [] ≡ b → is_name b ≡ true → ⊥
unfolding is_name is_empty
not_name b e h = ground (arith, e)

names_behind :
    (rs : List Bytes) (b : Bytes) (bs : List Bytes) (t : Bytes)
    → AllNames rs
    → AllNames (b ∷ bs)
    → path_of rs ≡ (path_of (b ∷ bs) ++ slash ∷ []) ++ t
    → rs ≡ (b ∷ bs) ++ split t
unfolding split join
names_behind [] b bs t h k e =
    absurd (not_name b (head-eq_of_cons-eq (tail-eq_of_cons-eq (split-behind [] b bs t k e))) k.0.1)
names_behind (r ∷ rs) b bs t h k e =
    tail-eq_of_cons-eq (sym (split-names r rs h) ∙ split-behind (r ∷ rs) b bs t k e)

within_only :
    (r : Root) (b : Bytes) (bs rs : List Bytes)
    → r.base ≡ path_of (b ∷ bs)
    → AllNames (b ∷ bs)
    → AllNames rs
    → within r (path_of rs) ≡ true
    → (more : List Bytes) × (rs ≡ (b ∷ bs) ++ more)
unfolding within
within_only r b bs rs e h k w = elim (Bool-cases (bytes_eq (path_of rs) r.base)) [
  | inl q ↦ (
    [],
    path_of-injective rs (b ∷ bs) k h ((bytes_eq_iff _ _).0 q ∙ e) ∙ sym (append-nil (b ∷ bs)),
  )
  | inr q ↦
      let (t, p) = has_prefix-rest (path_of rs) (r.base ++ slash ∷ []) (rw (q) at w) in
      (split t, names_behind rs b bs t k h (p ∙ ap (λ z. (z ++ slash ∷ []) ++ t) e))
]

base_behind :
    (b : Bytes) (bs : List Bytes) (m : Bytes) (ms : List Bytes)
    → path_of ((b ∷ bs) ++ (m ∷ ms)) ≡ (path_of (b ∷ bs) ++ slash ∷ []) ++ join (m ∷ ms)
base_behind b bs m ms =
    ap (◌∷◌ slash) (join-append b bs m ms)
    ∙ sym (append_assoc (path_of (b ∷ bs)) (slash ∷ []) (join (m ∷ ms)))

within_all :
    (r : Root) (b : Bytes) (bs rs more : List Bytes)
    → r.base ≡ path_of (b ∷ bs)
    → rs ≡ (b ∷ bs) ++ more
    → within r (path_of rs) ≡ true
unfolding within
within_all r b bs rs [] e q =
    let same = ap path_of (q ∙ append-nil (b ∷ bs)) ∙ sym e in
    rw ((bytes_eq_iff (path_of rs) r.base).1 same) refl
within_all r b bs rs (m ∷ ms) e q =
    let p =
      ap path_of q
      ∙ (base_behind b bs m ms ∙ ap (λ z. (z ++ slash ∷ []) ++ join (m ∷ ms)) (sym e)) in
    ground (
      arith,
      ap (λ z. has_prefix z (r.base ++ slash ∷ [])) p
          ∙ has_prefix-append (r.base ++ slash ∷ []) (join (m ∷ ms)),
    )

-- The test on the texts is one on the names: a folder that only shares the beginning of its name with
-- the base is not within it.
pub within-names :
    (r : Root) (b : Bytes) (bs rs : List Bytes)
    → r.base ≡ path_of (b ∷ bs)
    → AllNames (b ∷ bs)
    → AllNames rs
    → (within r (path_of rs) ≡ true) ↔ ((more : List Bytes) × (rs ≡ (b ∷ bs) ++ more))
unfolding within
within-names r b bs rs e h k =
    (within_only r b bs rs e h k, λ (more, q). within_all r b bs rs more e q)
