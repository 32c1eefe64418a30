-- ===== src/Vfs/Real.antt =====
-- How resolveReal of internal/vfs/vfs.go follows links.
use go_fs.Base.{
  ℕ, zero, suc, ◌≤◌, ◌<◌, ◌≡◌, refl, sym, ap, ◌∙◌, subst, ◌⊎◌, inl, inr, true, false, none, some,
  List, [], ◌∷◌, ◌++◌, arith, ltb, ltb→lt, Bool-cases, Option-cases, length, take, drop,
  length-append, take_all, drop_all,
}
use go_fs.Base.Text.{Bytes, bytes_eq, bytes_eq_iff, bytes_eq_refl, is_empty}
use go_fs.Vfs.Paths.{slash, join, reverse, clean, join_paths, dir, base_name}
use go_fs.Vfs.{System, resolve_from, resolve_real}
use go_fs.Vfs.Paths.Cleaning.{
  is_name, AllNames, path_of, dir-last, dir-root, base_name-last, clean-AllNames,
}
use go_fs.Vfs.Paths.Splitting.{slash_free}

-- What is left of the path behind the part that exists is put behind its real path.
abbrev pub behind : Bytes → List Bytes → Bytes
behind real [] = real
behind real (w ∷ ws) = join_paths (real ∷ (w ∷ ws))

-- No path of more than `n` of these names can be followed.
FailsAbove : System → List Bytes → ℕ → Type 0
FailsAbove sys ws n =
    (k : ℕ) → n < k → k ≤ length ws → sys.eval_symlinks (path_of (take k ws)) ≡ none

-- The answer for the path of these names: the closest ancestor that exists, or the path itself,
-- followed, with the names behind it; the path as it is where not even the root exists.
abbrev pub Closest : System → List Bytes → Bytes → Type 0
Closest sys ws answer =
    ((n : ℕ) × (real : Bytes) × (n ≤ length ws)
      × (sys.eval_symlinks (path_of (take n ws)) ≡ some real)
      × ((k : ℕ) → n < k → k ≤ length ws → sys.eval_symlinks (path_of (take k ws)) ≡ none)
      × (answer ≡ behind real (drop n ws)))
    ⊎ (((k : ℕ) → k ≤ length ws → sys.eval_symlinks (path_of (take k ws)) ≡ none)
        × (answer ≡ path_of ws))

take-suc :
    (ws : List Bytes) (n : ℕ)
    → AllNames ws
    → suc n ≤ length ws
    → (c : ℕ) × (w : Bytes) × (take (suc n) ws ≡ take n ws ++ (c ∷ w) ∷ [])
      × (drop n ws ≡ (c ∷ w) ∷ drop (suc n) ws)
      × (slash_free (c ∷ w) ≡ true)
unfolding is_name is_empty
take-suc [] n h l = absurd (omega (arith, l))
take-suc ([] ∷ ws) zero h l = absurd (ground arith)
take-suc ((c ∷ w) ∷ ws) zero h l = (c, w, refl, refl, h.0.0)
take-suc (v ∷ ws) (suc n) h l =
    let (c, w, t, d, f) = take-suc ws n h.1 (omega (arith, l)) in (c, w, ap (◌∷◌ v) t, d, f)

take-AllNames : (ws : List Bytes) (n : ℕ) → AllNames ws → AllNames (take n ws)
take-AllNames ws zero h = tt
take-AllNames [] (suc n) h = tt
take-AllNames (w ∷ ws) (suc n) h = (h.0, take-AllNames ws n h.1)

reverse-snoc : (ws : List Bytes) (w : Bytes) → reverse (ws ++ w ∷ []) ≡ w ∷ reverse ws
reverse-snoc [] w = refl
reverse-snoc (v ∷ ws) w = ap (λ z. z ++ v ∷ []) (reverse-snoc ws w)

join-longer :
    (ws : List Bytes) (c : ℕ) (w : Bytes) → length (join ws) < length (join (ws ++ (c ∷ w) ∷ []))
unfolding join
join-longer [] c w = omega arith
join-longer (v ∷ []) c w = omega (arith, length-append v (slash ∷ c ∷ w))
join-longer (v ∷ u ∷ ws) c w = omega (
  arith,
  join-longer (u ∷ ws) c w,
  length-append v (slash ∷ join (u ∷ ws)),
  length-append v (slash ∷ join ((u ∷ ws) ++ (c ∷ w) ∷ [])),
)

bytes_eq_shorter : (a b : Bytes) → length a < length b → bytes_eq a b ≡ false
bytes_eq_shorter a b l = elim (Bool-cases (bytes_eq a b)) [
  | inl e ↦ absurd (omega (arith, l, ap length ((bytes_eq_iff a b).0 e)))
  | inr e ↦ e
]

behind-snoc :
    (real : Bytes) (ws : List Bytes) (w : Bytes)
    → behind real (ws ++ w ∷ []) ≡ join_paths (real ∷ (ws ++ w ∷ []))
behind-snoc real [] w = refl
behind-snoc real (v ∷ ws) w = refl

-- One round of the loop.
resolve_found :
    (sys : System) (target : Bytes) (fuel : ℕ) (current real : Bytes) (missing : List Bytes)
    → sys.eval_symlinks current ≡ some real
    → resolve_from sys target (suc fuel) current missing ≡ behind real (reverse missing)
unfolding resolve_from
resolve_found sys target fuel current real [] e = rw (e, resolve_from) refl
resolve_found sys target fuel current real (m ∷ ms) e =
    rw (e, resolve_from) (sym (behind-snoc real (reverse ms) m))

resolve_on :
    (sys : System) (target : Bytes) (fuel : ℕ) (current : Bytes) (missing : List Bytes)
    → sys.eval_symlinks current ≡ none
    → bytes_eq (dir current) current ≡ false
    → resolve_from sys target (suc fuel) current missing
      ≡ resolve_from sys target fuel (dir current) (missing ++ base_name current ∷ [])
unfolding resolve_from
resolve_on sys target fuel current missing e d = rw (e, resolve_from) (rw (d) refl)

resolve_nowhere :
    (sys : System) (target : Bytes) (fuel : ℕ) (current : Bytes) (missing : List Bytes)
    → sys.eval_symlinks current ≡ none
    → bytes_eq (dir current) current ≡ true
    → resolve_from sys target (suc fuel) current missing ≡ clean target
unfolding resolve_from
resolve_nowhere sys target fuel current missing e d = rw (e, resolve_from) (rw (d) refl)

-- The round for the first `n` names of a path that ends with a slash or a name.
resolve_up :
    (sys : System) (target : Bytes) (fuel : ℕ) (ws : List Bytes) (n : ℕ) (missing : List Bytes)
    → AllNames ws
    → suc n ≤ length ws
    → reverse missing ≡ drop (suc n) ws
    → sys.eval_symlinks (path_of (take (suc n) ws)) ≡ none
    → (missing' : List Bytes) × (reverse missing' ≡ drop n ws)
      × (resolve_from sys target (suc fuel) (path_of (take (suc n) ws)) missing
          ≡ resolve_from sys target fuel (path_of (take n ws)) missing')
resolve_up sys target fuel ws n missing h l r e =
    let (c, w, t, d, f) = take-suc ws n h l in
    let names = take-AllNames ws n h in
    let p = ap path_of t in
    let up = ap dir p ∙ dir-last (take n ws) (c ∷ w) names f in
    let name = ap base_name p ∙ base_name-last (take n ws) c w names f in
    let differ =
      (ap (λ z. bytes_eq z (path_of (take (suc n) ws))) up
        ∙ (ap (bytes_eq (path_of (take n ws))) p
            ∙ bytes_eq_shorter _ _ (omega (arith, join-longer (take n ws) c w)))) in
    (
      missing ++ base_name (path_of (take (suc n) ws)) ∷ [],
      reverse-snoc missing _ ∙ (ap (λ z. z ∷ reverse missing) name ∙ (ap (◌∷◌ (c ∷ w)) r ∙ sym d)),
      resolve_on sys target fuel _ missing e differ
          ∙ ap
              (λ z.
                resolve_from sys target fuel z
                  (missing ++ base_name (path_of (take (suc n) ws)) ∷ []))
              up,
    )

fails_from :
    (sys : System) (ws : List Bytes) (n : ℕ)
    → FailsAbove sys ws n
    → sys.eval_symlinks (path_of (take n ws)) ≡ none
    → (k : ℕ) → n ≤ k
    → k ≤ length ws
    → sys.eval_symlinks (path_of (take k ws)) ≡ none
unfolding FailsAbove
fails_from sys ws n a e k l m = elim (Bool-cases (ltb n k)) [
  | inl b ↦ a k (ltb→lt n k b) m
  | inr b ↦ subst (λ i. sys.eval_symlinks (path_of (take i ws)) ≡ none) (ground arith) e
]

-- The path of the first names does not exist: the root is the end, else the loop goes on above.
further :
    (sys : System) (target : Bytes) (fuel : ℕ) (ws : List Bytes) (n : ℕ) (missing : List Bytes)
    → AllNames ws
    → n ≤ length ws
    → n < suc fuel
    → reverse missing ≡ drop n ws
    → clean target ≡ path_of ws
    → FailsAbove sys ws n
    → sys.eval_symlinks (path_of (take n ws)) ≡ none
    → ((n' : ℕ) (missing' : List Bytes)
        → AllNames ws
        → n' ≤ length ws
        → n' < fuel
        → reverse missing' ≡ drop n' ws
        → clean target ≡ path_of ws
        → FailsAbove sys ws n'
        → Closest sys ws (resolve_from sys target fuel (path_of (take n' ws)) missing'))
    → Closest sys ws (resolve_from sys target (suc fuel) (path_of (take n ws)) missing)
unfolding FailsAbove
further sys target fuel ws zero missing h l m r c a e ih = inr (
  λ k q. fails_from sys ws 0 a e k (omega arith) q,
  resolve_nowhere sys target fuel (path_of []) missing e
        (ap (λ z. bytes_eq z (path_of [])) dir-root ∙ bytes_eq_refl _)
      ∙ c,
)
further sys target fuel ws (suc n) missing h l m r c a e ih =
    let (missing', r', q) = resolve_up sys target fuel ws n missing h l r e in
    subst (Closest sys ws) (sym q) (
      ih n missing' h (omega (arith, l)) (omega (arith, m)) r' c
        (λ k p s. fails_from sys ws (suc n) a e k (omega (arith, p)) s))

resolve_from-Closest :
    (sys : System) (target : Bytes) (fuel : ℕ) (ws : List Bytes) (n : ℕ) (missing : List Bytes)
    → AllNames ws
    → n ≤ length ws
    → n < fuel
    → reverse missing ≡ drop n ws
    → clean target ≡ path_of ws
    → FailsAbove sys ws n
    → Closest sys ws (resolve_from sys target fuel (path_of (take n ws)) missing)
unfolding FailsAbove
resolve_from-Closest sys target zero ws n missing h l m r c a = absurd (omega (arith, m))
resolve_from-Closest sys target (suc fuel) ws n missing h l m r c a =
    elim (Option-cases (sys.eval_symlinks (path_of (take n ws)))) [
      | inr (real, e) ↦
          inl
            (n, real, l, e, a, resolve_found sys target fuel _ real missing e ∙ ap (behind real) r)
      | inl e ↦
          further sys target fuel ws n missing h l m r c a e
            (resolve_from-Closest sys target fuel ws)
    ]

length-join : (ws : List Bytes) → AllNames ws → length ws ≤ length (join ws)
unfolding join is_name is_empty
length-join [] h = omega arith
length-join ([] ∷ ws) h = absurd (ground arith)
length-join ((c ∷ w) ∷ []) h = omega arith
length-join ((c ∷ w) ∷ v ∷ ws) h =
    omega (arith, length-join (v ∷ ws) h.1, length-append (c ∷ w) (slash ∷ join (v ∷ ws)))

pub resolve_real-names :
    (sys : System) (target : Bytes) (ws : List Bytes)
    → AllNames ws
    → clean target ≡ path_of ws
    → Closest sys ws (resolve_real sys target)
unfolding resolve_real FailsAbove
resolve_real-names sys target ws h c =
    let whole = take_all (length ws) ws (omega arith) in
    subst (Closest sys ws)
      (ap (λ z. resolve_from sys target (suc (length (clean target))) z [])
        (ap path_of whole ∙ sym c))
      (resolve_from-Closest sys target (suc (length (clean target))) ws (length ws) [] h
        (omega arith) (omega (arith, ap length c, length-join ws h))
        (sym (drop_all (length ws) ws (omega arith))) c (λ k p q. absurd (omega (arith, p, q))))

-- The loop always ends within its rounds, and for every absolute path, cleaned to names, it answers
-- with the real path of the closest ancestor that exists, or of the path itself, and the names behind
-- that one; where nothing on the way exists, with the cleaned path.
pub resolve_real-Closest :
    (sys : System) (s : Bytes)
    → (ws : List Bytes) × AllNames ws
      × (clean (slash ∷ s) ≡ path_of ws)
      × Closest sys ws (resolve_real sys (slash ∷ s))
resolve_real-Closest sys s =
    let (ws, h, c) = clean-AllNames s in (ws, h, c, resolve_real-names sys (slash ∷ s) ws h c)
