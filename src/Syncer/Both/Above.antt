-- ===== src/Syncer/Both/Above.antt =====
-- Folders above a path, as `keep` of internal/syncer/plan.go climbs them.
use go_fs.Base.{
  ℕ, zero, suc, ◌+◌, ◌<◌, ◌≡◌, refl, sym, ap, ◌∙◌, subst, ◌⊎◌, inl, inr, true, false, List, [], ◌∷◌,
  ◌++◌, append-nil, append_assoc, arith, Bool-cases, List-cases, length, length-append, All-append,
}
use go_fs.Base.Text.{Bytes, bytes_eq, bytes_eq_iff, is_empty}
use go_fs.Vfs.Paths.{slash, dot, split, join, has_prefix, dir, clean, clean_segments, path_text}
use go_fs.Vfs.Paths.Splitting.{slash_free, split-join, join-append}
use go_fs.Vfs.Paths.Cleaning.{
  is_name, AllNames, AllNames-free, split-slash, clean_segments-append, clean_segments-names,
  cut_slash-free, cut_slash-word,
}
use go_fs.Syncer.Plan.{slashes}
use go_fs.Syncer.Both.{above, has}

not_rooted :
    (w : Bytes) (ws : List Bytes)
    → AllNames (w ∷ ws)
    → has_prefix (join (w ∷ ws) ++ slash ∷ []) (slash ∷ []) ≡ false
unfolding has_prefix join is_name is_empty slash_free
not_rooted [] ws h = absurd (ground arith)
not_rooted (c ∷ w) [] h = ground arith
not_rooted (c ∷ w) (v ∷ ws) h = ground arith

clean-relative :
    (w : Bytes) (ws : List Bytes)
    → AllNames (w ∷ ws)
    → clean (join (w ∷ ws) ++ slash ∷ []) ≡ join (w ∷ ws)
unfolding clean split clean_segments is_empty
clean-relative w ws h =
    let s = join (w ∷ ws) ++ slash ∷ [] in
    let segments =
      clean_segments-append false (split (join (w ∷ ws))) (split []) []
      ∙ (ap (λ z. clean_segments false z []) (split-join w ws (AllNames-free (w ∷ ws) h))
          ∙ clean_segments-names false (w ∷ ws) [] h) in
    ap (λ r. path_text r (clean_segments r (split s) [])) (not_rooted w ws h)
    ∙ ap (path_text false)
        (ap (λ z. clean_segments false z []) (split-slash (join (w ∷ ws)) []) ∙ segments)

pub dir-one : (w : Bytes) → slash_free w ≡ true → dir w ≡ dot
unfolding dir clean split clean_segments has_prefix is_empty
dir-one w h = rw (cut_slash-free w h, dir) refl

pub dir-more :
    (w : Bytes) (ws : List Bytes) (v : Bytes)
    → AllNames (w ∷ ws)
    → slash_free v ≡ true
    → dir (join ((w ∷ ws) ++ v ∷ [])) ≡ join (w ∷ ws)
unfolding dir join
dir-more w ws v h f =
    ap dir (join-append w ws v [])
    ∙ rw (cut_slash-word (join (w ∷ ws)) v f, dir) (clean-relative w ws h)

slashes-append : (s t : Bytes) → slashes (s ++ t) ≡ slashes s + slashes t
unfolding slashes
slashes-append [] t = omega arith
slashes-append (c ∷ s) t = ground (arith, slashes-append s t)

slashes-free : (s : Bytes) → slash_free s ≡ true → slashes s ≡ 0
unfolding slashes slash_free
slashes-free [] h = refl
slashes-free (c ∷ s) h = ground (arith, slashes-free s)

pub slashes-join :
    (w : Bytes) (ws : List Bytes) → AllNames (w ∷ ws) → slashes (join (w ∷ ws)) ≡ length ws
unfolding join slashes
slashes-join w [] h = slashes-free w h.0.0
slashes-join w (v ∷ ws) h =
    let rest = slashes-join v ws h.1 in
    let front = slashes-free w h.0.0 in
    let whole = slashes-append w (slash ∷ join (v ∷ ws)) in omega (arith, rest, front, whole)

-- A list of names, from its end.
pub snoc_view :
    (w : Bytes) (ws : List Bytes)
    → AllNames (w ∷ ws)
    → (front : List Bytes) × (v : Bytes) × (w ∷ ws ≡ front ++ v ∷ [])
      × AllNames front
      × (slash_free v ≡ true)
snoc_view w [] h = ([], w, refl, tt, h.0.0)
snoc_view w (v ∷ ws) h =
    let (front, u, e, k, f) = snoc_view v ws h.1 in (w ∷ front, u, ap (◌∷◌ w) e, (h.0, k), f)

not_dot : (w : Bytes) (ws : List Bytes) → AllNames (w ∷ ws) → bytes_eq (join (w ∷ ws)) dot ≡ false
unfolding join is_name is_empty bytes_eq
not_dot [] ws h = absurd (ground arith)
not_dot (c ∷ w) [] h = ground arith
not_dot (c ∷ []) (v ∷ ws) h = ground arith
not_dot (c ∷ d ∷ w) (v ∷ ws) h = ground arith

above_stop : (fuel : ℕ) (rel : Bytes) → dir rel ≡ dot → above (suc fuel) rel ≡ []
unfolding above
above_stop fuel rel e = rw ((bytes_eq_iff (dir rel) dot).1 e) refl

above_step :
    (fuel : ℕ) (rel folder : Bytes)
    → dir rel ≡ folder
    → bytes_eq folder dot ≡ false
    → above (suc fuel) rel ≡ folder ∷ above fuel folder
unfolding above
above_step fuel rel folder e n = rw (ap (λ z. bytes_eq z dot) e ∙ n) (ap (λ z. z ∷ above fuel z) e)

dir_word : (v : Bytes) → slash_free v ≡ true → dir (join (v ∷ [])) ≡ dot
unfolding join
dir_word v f = dir-one v f

pub false_has : (a : Bytes) → has a [] ≡ true → ⊥
unfolding has
false_has a h = cc

pub has_first :
    (a r : Bytes) (rs : List Bytes) → has a (r ∷ rs) ≡ true → (a ≡ r) ⊎ (has a rs ≡ true)
unfolding has
has_first a r rs h = elim (Bool-cases (bytes_eq a r)) [
  | inl e ↦ inl ((bytes_eq_iff a r).0 e)
  | inr e ↦ inr (rw (e) at h)
]

has_head : (a r : Bytes) (rs : List Bytes) → a ≡ r → has a (r ∷ rs) ≡ true
unfolding has
has_head a r rs e = rw ((bytes_eq_iff a r).1 e) refl

has_tail : (a r : Bytes) (rs : List Bytes) → has a rs ≡ true → has a (r ∷ rs) ≡ true
unfolding has
has_tail a r rs h = ground (arith, h)

-- The folders above a path have fewer slashes than it has.
pub above-slashes :
    (fuel : ℕ) (w : Bytes) (ws : List Bytes) (a : Bytes)
    → AllNames (w ∷ ws)
    → has a (above fuel (join (w ∷ ws))) ≡ true
    → slashes a < slashes (join (w ∷ ws))
unfolding above has
above-slashes zero w ws a h t = absurd cc
above-slashes (suc fuel) w ws a h t =
    let (front, v, e, k, f) = snoc_view w ws h in
    let size = ap length e ∙ length-append front (v ∷ []) in
    elim (List-cases front) [
      | inl n ↦
          let alone = ap join (e ∙ ap (λ z. z ++ v ∷ []) n) in
          let none_above =
            ap (above (suc fuel)) alone ∙ above_stop fuel (join (v ∷ [])) (dir_word v f) in
          absurd (false_has a (sym (ap (has a) none_above) ∙ t))
      | inr (u, us, n) ↦
          let names = subst AllNames n k in
          let whole = ap join (e ∙ ap (λ z. z ++ v ∷ []) n) in
          let step =
            ap (above (suc fuel)) whole
            ∙ above_step fuel (join ((u ∷ us) ++ v ∷ [])) (join (u ∷ us)) (dir-more u us v names f)
                (not_dot u us names) in
          let count = slashes-join w ws h in
          let count' = slashes-join u us names in
          elim (has_first a (join (u ∷ us)) (above fuel (join (u ∷ us)))
            (sym (ap (has a) step) ∙ t)) [
              | inl y ↦ omega (arith, ap slashes y, count, count', size, ap length n)
              | inr y ↦
                  omega (arith, above-slashes fuel u us a names y, count, count', size, ap length n)
            ]
    ]

-- A path with more names behind those of a folder has the folder above it.
pub above-has :
    (fuel : ℕ) (v : Bytes) (vs : List Bytes) (u : Bytes) (us : List Bytes)
    → AllNames (v ∷ vs)
    → AllNames (u ∷ us)
    → length us < fuel
    → has (join (v ∷ vs)) (above fuel (join ((v ∷ vs) ++ (u ∷ us)))) ≡ true
unfolding has
above-has zero v vs u us h k l = absurd (omega (arith, l))
above-has (suc fuel) v vs u us h k l =
    let (front, x, e, names, f) = snoc_view u us k in
    let size = ap length e ∙ length-append front (x ∷ []) in
    let all = All-append _ (v ∷ vs) front h names in
    let whole =
      ap (λ z. join ((v ∷ vs) ++ z)) e ∙ ap join (sym (append_assoc (v ∷ vs) front (x ∷ []))) in
    let step =
      ap (above (suc fuel)) whole
      ∙ above_step fuel (join (((v ∷ vs) ++ front) ++ x ∷ [])) (join ((v ∷ vs) ++ front))
          (dir-more v (vs ++ front) x all f) (not_dot v (vs ++ front) all) in
    ap (has (join (v ∷ vs))) step ∙ elim (List-cases front) [
      | inl n ↦
          has_head (join (v ∷ vs)) (join ((v ∷ vs) ++ front)) _
            (ap join (sym (append-nil (v ∷ vs)) ∙ ap (λ z. (v ∷ vs) ++ z) (sym n)))
      | inr (y, ys, n) ↦ has_tail (join (v ∷ vs)) (join ((v ∷ vs) ++ front)) _ (
          subst (λ z. has (join (v ∷ vs)) (above fuel (join ((v ∷ vs) ++ z))) ≡ true) (sym n)
            (above-has fuel v vs y ys h (subst AllNames n names)
              (omega (arith, l, size, ap length n))))
    ]
