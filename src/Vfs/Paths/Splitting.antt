-- ===== src/Vfs/Paths/Splitting.antt =====
-- Segments of paths, as internal/vfs splits and joins them.
use go_fs.Base.{
  ℕ, ◌≡◌, refl, sym, ap, ◌∙◌, inl, inr, Bool, true, false, not, ◌&&◌, List, [], ◌∷◌, ◌++◌,
  append_assoc, arith, ◌==◌, ==_iff, Bool-cases, All,
}
use go_fs.Base.Text.{Bytes}
use go_fs.Vfs.Paths.{slash, push, split, join}

-- No slash inside.
unfoldable pub slash_free : Bytes → Bool
slash_free [] = true
slash_free (c ∷ s) = not (c == slash) && slash_free s

abbrev pub AllFree : List Bytes → Type 0
AllFree = All (λ w. slash_free w ≡ true)

pub split-cons : (s : Bytes) → (w : Bytes) × (ws : List Bytes) × (split s ≡ w ∷ ws)
unfolding split push
split-cons [] = ([], [], refl)
split-cons (c ∷ s) = elim (Bool-cases (c == slash)) [
  | inl e ↦ ([], split s, rw (e) refl)
  | inr e ↦ let (w, ws, q) = split-cons s in (c ∷ w, ws, rw (e) (rw (q) refl))
]

push-free : (c : ℕ) (ws : List Bytes) → (c == slash) ≡ false → AllFree ws → AllFree (push c ws)
unfolding push slash_free
push-free c [] e h = (rw (e) refl, tt)
push-free c (w ∷ ws) e h = (rw (e) h.0, h.1)

pub split-free : (s : Bytes) → AllFree (split s)
unfolding split slash_free
split-free [] = (refl, tt)
split-free (c ∷ s) = elim (Bool-cases (c == slash)) [
  | inl e ↦ rw (e) (refl, split-free s)
  | inr e ↦ rw (e) (push-free c (split s) e (split-free s))
]

split-word : (w : Bytes) → slash_free w ≡ true → split w ≡ w ∷ []
unfolding split push slash_free
split-word [] h = refl
split-word (c ∷ w) h = ground (arith, split-word w)

split-word-slash : (w s : Bytes) → slash_free w ≡ true → split (w ++ (slash ∷ s)) ≡ w ∷ split s
unfolding split push slash_free
split-word-slash [] s h = refl
split-word-slash (c ∷ w) s h = ground (arith, split-word-slash w s)

pub split-join : (w : Bytes) (ws : List Bytes) → AllFree (w ∷ ws) → split (join (w ∷ ws)) ≡ w ∷ ws
unfolding join
split-join w [] h = split-word w h.0
split-join w (v ∷ ws) h = split-word-slash w (join (v ∷ ws)) h.0 ∙ ap (◌∷◌ w) (split-join v ws h.1)

pub split-join-slash :
    (w : Bytes) (ws : List Bytes) (s : Bytes)
    → AllFree (w ∷ ws)
    → split (join (w ∷ ws) ++ (slash ∷ s)) ≡ (w ∷ ws) ++ split s
unfolding join
split-join-slash w [] s h = split-word-slash w s h.0
split-join-slash w (v ∷ ws) s h =
    ap split (append_assoc w (slash ∷ join (v ∷ ws)) (slash ∷ s))
    ∙ (split-word-slash w (join (v ∷ ws) ++ (slash ∷ s)) h.0
        ∙ ap (◌∷◌ w) (split-join-slash v ws s h.1))

join-push : (c : ℕ) (w : Bytes) (ws : List Bytes) → join (push c (w ∷ ws)) ≡ c ∷ join (w ∷ ws)
unfolding push join
join-push c w [] = refl
join-push c w (v ∷ ws) = refl

-- The segments give the text back.
pub join-split : (s : Bytes) → join (split s) ≡ s
unfolding split push join
join-split [] = refl
join-split (c ∷ s) =
    let (w, ws, q) = split-cons s in
    let ih = sym (ap join q) ∙ join-split s in
    elim (Bool-cases (c == slash)) [
      | inl e ↦ rw (e) (rw (q) (rw (ih) (ap (λ z. z ∷ s) (sym ((==_iff c slash).0 e)))))
      | inr e ↦ rw (e) (rw (q) (join-push c w ws ∙ ap (◌∷◌ c) ih))
    ]

pub join-append :
    (w : Bytes) (ws : List Bytes) (v : Bytes) (vs : List Bytes)
    → join ((w ∷ ws) ++ (v ∷ vs)) ≡ join (w ∷ ws) ++ (slash ∷ join (v ∷ vs))
unfolding join
join-append w [] v vs = refl
join-append w (u ∷ ws) v vs =
    ap (λ t. w ++ (slash ∷ t)) (join-append u ws v vs)
    ∙ sym (append_assoc w (slash ∷ join (u ∷ ws)) (slash ∷ join (v ∷ vs)))
