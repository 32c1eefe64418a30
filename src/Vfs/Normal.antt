-- ===== src/Vfs/Normal.antt =====
-- What Normalize of internal/vfs/vfs.go returns.
use mathlib.Core.List.{head-eq_of_cons-eq, tail-eq_of_cons-eq}
use mathlib.Core.Option.{none-ne-some}
use mathlib.Core.Bool.{true≢false}
use go_fs.Base.{
  ℕ, suc, ◌+◌, ◌<◌, ◌≡◌, refl, sym, ap, ◌∙◌, subst, ◌↔◌, inl, inr, true, false, ◌||◌, none, some,
  List, [], ◌∷◌, ◌++◌, append-nil, append_assoc, arith, if◌then◌else◌, Bool-cases, Option-cases,
  List-cases, length, length-append, All-append,
}
use go_fs.Base.Text.{Bytes, bytes_eq, is_empty}
use go_fs.Vfs.Paths.{slash, dot, dot_dot, split, join, has_prefix, drop_last}
use go_fs.Vfs.{walk, raw_path, normalize}
use go_fs.Vfs.Paths.Cleaning.{is_name, AllNames, AllNames-free, drop_last-names}
use go_fs.Vfs.Paths.Splitting.{AllFree, split-free, split-join}

walk-names : (ws stack : List Bytes) → AllNames ws → walk ws stack ≡ some (stack ++ ws)
unfolding walk is_name
walk-names [] stack h = ap some (sym (append-nil stack))
walk-names (w ∷ ws) stack h =
    ground (arith, walk-names ws (stack ++ w ∷ []), append_assoc stack (w ∷ []) ws)

-- What one segment does: nothing, a climb from the root, a step up, or a step down.
data StepOf (w : Bytes) (ws stack : List Bytes) : Type 0 where
  skips :
      is_name w ≡ false
      → bytes_eq w dot_dot ≡ false
      → walk (w ∷ ws) stack ≡ walk ws stack
      → StepOf w ws stack
  climbs :
      is_name w ≡ false
      → bytes_eq w dot_dot ≡ true
      → stack ≡ []
      → walk (w ∷ ws) stack ≡ none
      → StepOf w ws stack
  goes_up :
      (v : Bytes) (vs : List Bytes)
      → is_name w ≡ false
      → bytes_eq w dot_dot ≡ true
      → stack ≡ v ∷ vs
      → walk (w ∷ ws) stack ≡ walk ws (drop_last (v ∷ vs))
      → StepOf w ws stack
  goes_down :
      is_name w ≡ true
      → bytes_eq w dot_dot ≡ false
      → walk (w ∷ ws) stack ≡ walk ws (stack ++ w ∷ [])
      → StepOf w ws stack

no_dots : (w : Bytes) → (is_empty w || bytes_eq w dot) ≡ true → bytes_eq w dot_dot ≡ false
unfolding bytes_eq is_empty
no_dots [] h = refl
no_dots (c ∷ []) h = ground arith
no_dots (c ∷ d ∷ []) h = ground arith
no_dots (c ∷ d ∷ e ∷ w) h = ground arith

step_of : (w : Bytes) (ws stack : List Bytes) → StepOf w ws stack
unfolding walk is_name
step_of w ws stack = elim (Bool-cases (is_empty w || bytes_eq w dot)) [
  | inl a ↦ skips (ground (arith, a)) (no_dots w a) (rw (a) refl)
  | inr a ↦ elim (Bool-cases (bytes_eq w dot_dot)) [
    | inr b ↦ goes_down (ground (arith, a, b)) b (rw (a) (rw (b) refl))
    | inl b ↦ elim (List-cases stack) [
      | inl n ↦ climbs (ground (arith, b)) b n (rw (a) (rw (b) (rw (n) refl)))
      | inr (v, vs, n) ↦
          goes_up v vs (ground (arith, b)) b n
            (rw (a) (rw (b) (rw (n) (ap (λ z. walk ws (drop_last z)) n))))
    ]
  ]
]

walk-nil : (stack out : List Bytes) → walk [] stack ≡ some out → stack ≡ out
unfolding walk
walk-nil stack out e = ground arith

walk-AllNames :
    (ws stack out : List Bytes)
    → AllFree ws
    → AllNames stack
    → walk ws stack ≡ some out
    → AllNames out
walk-AllNames [] stack out f h e = subst AllNames (walk-nil stack out e) h
walk-AllNames (w ∷ ws) stack out f h e = elim (step_of w ws stack) [
  | skips n d q ↦ walk-AllNames ws stack out f.1 h (sym q ∙ e)
  | climbs n d s q ↦ absurd (ground arith)
  | goes_up v vs n d s q ↦
      walk-AllNames ws (drop_last (v ∷ vs)) out f.1 (drop_last-names (v ∷ vs) (subst AllNames s h))
        (sym q ∙ e)
  | goes_down n d q ↦
      walk-AllNames ws (stack ++ w ∷ []) out f.1 (All-append _ stack (w ∷ []) h ((f.0, n), tt))
        (sym q ∙ e)
]

abbrev pub names : List Bytes → ℕ
names [] = 0
names (w ∷ ws) = if is_name w then suc (names ws) else names ws

abbrev pub ups : List Bytes → ℕ
ups [] = 0
ups (w ∷ ws) = if bytes_eq w dot_dot then suc (ups ws) else ups ws

-- Some first segments hold more ".." than names.
abbrev pub ClimbsFrom : ℕ → List Bytes → Type 0
ClimbsFrom depth ws =
    (xs : List Bytes) × (ys : List Bytes) × (ws ≡ xs ++ ys) × (depth + names xs < ups xs)

length-drop_last :
    (v : Bytes) (vs : List Bytes) → suc (length (drop_last (v ∷ vs))) ≡ length (v ∷ vs)
length-drop_last v [] = refl
length-drop_last v (w ∷ vs) = omega (arith, length-drop_last w vs)

climbs_later :
    (w : Bytes) (ws : List Bytes) (m n : ℕ)
    → ((xs : List Bytes) → m + names xs < ups xs → n + names (w ∷ xs) < ups (w ∷ xs))
    → ClimbsFrom m ws
    → ClimbsFrom n (w ∷ ws)
climbs_later w ws m n f (xs, ys, e, l) = (w ∷ xs, ys, ap (◌∷◌ w) e, f xs l)

climbs_sooner :
    (w : Bytes) (ws : List Bytes) (m n : ℕ)
    → ((xs : List Bytes) → n + names (w ∷ xs) < ups (w ∷ xs) → m + names xs < ups xs)
    → ClimbsFrom n (w ∷ ws)
    → ClimbsFrom m ws
climbs_sooner w ws m n f ([], ys, e, l) = absurd (omega (arith, l))
climbs_sooner w ws m n f (x ∷ xs, ys, e, l) = (
  xs,
  ys,
  tail-eq_of_cons-eq e,
  f xs (subst (λ z. n + names (z ∷ xs) < ups (z ∷ xs)) (sym (head-eq_of_cons-eq e)) l),
)

nil_climbs : (n : ℕ) → ClimbsFrom n [] → ⊥
nil_climbs n ([], ys, e, l) = omega (arith, l)
nil_climbs n (x ∷ xs, ys, e, l) = cc

walk-climbs : (ws stack : List Bytes) → (walk ws stack ≡ none) ↔ ClimbsFrom (length stack) ws
unfolding walk
walk-climbs [] stack = (λ e. absurd cc, λ c. absurd (nil_climbs (length stack) c))
walk-climbs (w ∷ ws) stack = elim (step_of w ws stack) [
  | skips n d q ↦
      let ih = walk-climbs ws stack in
      (
        λ e.
            climbs_later w ws (length stack) (length stack) (λ xs l. rw (n) (rw (d) l))
              (ih.0 (sym q ∙ e)),
        λ c.
            q
            ∙ ih.1 (
                climbs_sooner w ws (length stack) (length stack) (λ xs l. rw (d) at (rw (n) at l))
                  c),
      )
  | climbs n d s q ↦ (λ e. (w ∷ [], ws, refl, rw (n) (rw (d) (rw (s) (omega arith)))), λ c. q)
  | goes_up v vs n d s q ↦
      let up = drop_last (v ∷ vs) in
      let ih = walk-climbs ws up in
      let k = ap length s ∙ sym (length-drop_last v vs) in
      (
        λ e.
            climbs_later w ws (length up) (length stack)
              (λ xs l. rw (n) (rw (d) (omega (arith, l, k)))) (ih.0 (sym q ∙ e)),
        λ c.
            q
            ∙ ih.1 (
                climbs_sooner w ws (length up) (length stack)
                  (λ xs l. let l' = rw (d) at (rw (n) at l) in omega (arith, l', k)) c),
      )
  | goes_down n d q ↦
      let down = stack ++ w ∷ [] in
      let ih = walk-climbs ws down in
      let k = length-append stack (w ∷ []) in
      (
        λ e.
            climbs_later w ws (length down) (length stack)
              (λ xs l. rw (n) (rw (d) (omega (arith, l, k)))) (ih.0 (sym q ∙ e)),
        λ c.
            q
            ∙ ih.1 (
                climbs_sooner w ws (length down) (length stack)
                  (λ xs l. let l' = rw (d) at (rw (n) at l) in omega (arith, l', k)) c),
      )
]

-- Names of segments of one path, cleaned up.
walked :
    (cwd arg : Bytes) (stack : List Bytes)
    → walk (split (raw_path cwd arg)) [] ≡ some stack
    → AllNames stack
walked cwd arg stack e = walk-AllNames (split (raw_path cwd arg)) [] stack (split-free _) tt e

-- A slash and names with slashes between them walks to these names.
pub walk-path : (ws : List Bytes) → AllNames ws → walk (split (slash ∷ join ws)) [] ≡ some ws
unfolding split walk join is_empty
walk-path [] h = refl
walk-path (w ∷ ws) h =
    ap (λ z. walk z []) (split-join w ws (AllNames-free (w ∷ ws) h)) ∙ walk-names (w ∷ ws) [] h

normalized_to :
    (cwd arg : Bytes) (stack : List Bytes)
    → walk (split (raw_path cwd arg)) [] ≡ some stack
    → normalize cwd arg ≡ (slash ∷ join stack, false)
unfolding normalize
normalized_to cwd arg stack e = rw (e, normalize) refl

normalize_refused :
    (cwd arg : Bytes)
    → walk (split (raw_path cwd arg)) [] ≡ none
    → normalize cwd arg ≡ (slash ∷ [], true)
unfolding normalize
normalize_refused cwd arg e = rw (e, normalize) refl

pub normalize_path :
    (cwd : Bytes) (ws : List Bytes)
    → AllNames ws
    → normalize cwd (slash ∷ join ws) ≡ (slash ∷ join ws, false)
unfolding has_prefix
normalize_path cwd ws h = normalized_to cwd (slash ∷ join ws) ws (walk-path ws h)

-- A path that does not climb above the root is normalized to a slash and names with slashes between
-- them, no "", "." or ".." among the names, and normalizing that again, from any folder, changes nothing.
pub normalize-AllNames :
    (cwd cwd' arg : Bytes)
    → (normalize cwd arg).1 ≡ false
    → (ws : List Bytes) × AllNames ws
      × ((normalize cwd arg).0 ≡ slash ∷ join ws)
      × (normalize cwd' (normalize cwd arg).0 ≡ normalize cwd arg)
normalize-AllNames cwd cwd' arg h = elim (Option-cases (walk (split (raw_path cwd arg)) [])) [
  | inl e ↦ absurd (true≢false (sym (ap (λ z. z.1) (normalize_refused cwd arg e)) ∙ h))
  | inr (stack, e) ↦
      let names = walked cwd arg stack e in
      let is = normalized_to cwd arg stack e in
      (
        stack,
        names,
        ap (λ z. z.0) is,
        ap (λ z. normalize cwd' z.0) is ∙ (normalize_path cwd' stack names ∙ sym is),
      )
]

-- A path is refused as one that climbs exactly when some segments in front of it hold more ".." than
-- names, a relative path taken below the working directory; and exactly then the whole answer is the
-- root, refused.
pub normalize-climbs :
    (cwd arg : Bytes)
    → (((normalize cwd arg).1 ≡ true) ↔ ClimbsFrom 0 (split (raw_path cwd arg)))
      × ((normalize cwd arg ≡ (slash ∷ [], true)) ↔ ClimbsFrom 0 (split (raw_path cwd arg)))
normalize-climbs cwd arg =
    let k = walk-climbs (split (raw_path cwd arg)) [] in
    elim (Option-cases (walk (split (raw_path cwd arg)) [])) [
      | inl e ↦
          let is = normalize_refused cwd arg e in
          ((λ h. k.0 e, λ c. ap (λ z. z.1) is), (λ h. k.0 e, λ c. is))
      | inr (stack, e) ↦
          let stays = ap (λ z. z.1) (normalized_to cwd arg stack e) in
          (
            (
              λ h. absurd (true≢false (sym h ∙ stays)),
              λ c. absurd (none-ne-some _ (sym (k.1 c) ∙ e)),
            ),
            (
              λ h. absurd (true≢false (sym (ap (λ z. z.1) h) ∙ stays)),
              λ c. absurd (none-ne-some _ (sym (k.1 c) ∙ e)),
            ),
          )
    ]
