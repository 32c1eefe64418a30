-- ===== src/Vfs/Paths/Cleaning.antt =====
-- filepath.Clean, Dir, Base and Join, as internal/vfs uses them, on a slash and names.
use go_fs.Base.{
  ℕ, ◌≡◌, refl, sym, ap, ◌∙◌, inl, inr, Bool, true, false, not, ◌&&◌, ◌||◌, none, some, List, [],
  ◌∷◌, ◌++◌, append-nil, append_assoc, arith, ◌==◌, if◌then◌else◌, Bool-cases, All, All-append,
}
use go_fs.Base.Text.{Bytes, bytes_eq, is_empty}
use go_fs.Vfs.Paths.{
  slash, dot, dot_dot, push, split, join, has_prefix, drop_last, ends_with_name, clean_segments,
  clean, skip_empty, join_paths, cut_slash, dir, trim_slashes, last_part, base_name,
}
use go_fs.Vfs.Paths.Splitting.{slash_free, AllFree, split-free, split-join, split-cons, join-append}

-- A segment that is a name: not empty, "." or "..".
unfoldable pub is_name : Bytes → Bool
is_name w = not (is_empty w) && not (bytes_eq w dot) && not (bytes_eq w dot_dot)

-- Names with no slash in them.
abbrev pub AllNames : List Bytes → Type 0
AllNames = All (λ w. (slash_free w ≡ true) × (is_name w ≡ true))

pub AllNames-free : (ws : List Bytes) → AllNames ws → AllFree ws
AllNames-free [] h = tt
AllNames-free (w ∷ ws) h = (h.0.0, AllNames-free ws h.1)

pub drop_last-names : (ws : List Bytes) → AllNames ws → AllNames (drop_last ws)
drop_last-names [] h = tt
drop_last-names (w ∷ []) h = tt
drop_last-names (w ∷ v ∷ ws) h = (h.0, drop_last-names (v ∷ ws) h.1)

-- The absolute path of these names.
abbrev pub path_of : List Bytes → Bytes
path_of ws = slash ∷ join ws

pub split-slash : (s t : Bytes) → split (s ++ (slash ∷ t)) ≡ split s ++ split t
unfolding split push
split-slash [] t = refl
split-slash (c ∷ s) t = elim (Bool-cases (c == slash)) [
  | inl e ↦ rw (e) (ap (◌∷◌ []) (split-slash s t))
  | inr e ↦
      let (w, ws, q) = split-cons s in
      rw (e) (rw (q) (ap (push c) (split-slash s t ∙ ap (λ z. z ++ split t) q)))
]

pub split-path_of :
    (ws out : List Bytes)
    → AllNames ws
    → clean_segments true (split (path_of ws)) out ≡ clean_segments true ws out
unfolding split join clean_segments is_empty
split-path_of [] out h = refl
split-path_of (w ∷ ws) out h =
    ap (λ z. clean_segments true z out) (split-join w ws (AllNames-free (w ∷ ws) h))

pub clean_segments-append :
    (r : Bool) (xs ys out : List Bytes)
    → clean_segments r (xs ++ ys) out ≡ clean_segments r ys (clean_segments r xs out)
unfolding clean_segments
clean_segments-append r [] ys out = refl
clean_segments-append r (x ∷ xs) ys out = clean_segments-append r xs ys _

pub clean_segments-names :
    (r : Bool) (ws out : List Bytes) → AllNames ws → clean_segments r ws out ≡ out ++ ws
unfolding clean_segments is_name
clean_segments-names r [] out h = sym (append-nil out)
clean_segments-names r (w ∷ ws) out h =
    ground (arith, clean_segments-names r ws (out ++ w ∷ []), append_assoc out (w ∷ []) ws)

clean-rooted :
    (s : Bytes) → clean (slash ∷ s) ≡ path_of (clean_segments true (split (slash ∷ s)) [])
unfolding clean has_prefix
clean-rooted s = refl

pub clean-path_of : (ws : List Bytes) → AllNames ws → clean (path_of ws) ≡ path_of ws
clean-path_of ws h =
    clean-rooted (join ws) ∙ ap path_of (split-path_of ws [] h ∙ clean_segments-names true ws [] h)

-- A path, a slash, and a path behind it.
pub clean-slash :
    (ws vs : List Bytes) (t : Bytes)
    → AllNames ws
    → clean_segments true (split t) ws ≡ vs
    → clean (path_of ws ++ (slash ∷ t)) ≡ path_of vs
clean-slash ws vs t h e =
    clean-rooted (join ws ++ (slash ∷ t))
    ∙ ap path_of (
        ap (λ z. clean_segments true z []) (split-slash (path_of ws) t)
        ∙ (clean_segments-append true (split (path_of ws)) (split t) []
            ∙ (ap (clean_segments true (split t))
                  (split-path_of ws [] h ∙ clean_segments-names true ws [] h)
                ∙ e)))

clean_trailing : (ws : List Bytes) → AllNames ws → clean (path_of ws ++ slash ∷ []) ≡ path_of ws
unfolding split clean_segments is_empty
clean_trailing ws h = clean-slash ws ws [] h refl

pub join_paths-names :
    (ws : List Bytes) (v : Bytes) (vs : List Bytes)
    → AllNames ws
    → AllNames (v ∷ vs)
    → join_paths (path_of ws ∷ (v ∷ vs)) ≡ path_of (ws ++ (v ∷ vs))
unfolding join_paths skip_empty join
join_paths-names ws v vs h k = clean-slash ws (ws ++ (v ∷ vs)) (join (v ∷ vs)) h (
    ap (λ z. clean_segments true z ws) (split-join v vs (AllNames-free (v ∷ vs) k))
    ∙ clean_segments-names true (v ∷ vs) ws k)

-- A path is put behind another one as an absolute path, as Resolve does.
pub join_paths-two :
    (ws vs : List Bytes)
    → AllNames ws
    → AllNames vs
    → join_paths (path_of ws ∷ path_of vs ∷ []) ≡ path_of (ws ++ vs)
unfolding join_paths skip_empty join
join_paths-two ws vs h k =
    clean-slash ws (ws ++ vs) (path_of vs) h
      (split-path_of vs ws k ∙ clean_segments-names true vs ws k)

pub cut_slash-free : (w : Bytes) → slash_free w ≡ true → cut_slash w ≡ none
unfolding cut_slash slash_free
cut_slash-free [] h = refl
cut_slash-free (c ∷ w) h = ground (arith, cut_slash-free w)

pub cut_slash-word :
    (s w : Bytes) → slash_free w ≡ true → cut_slash (s ++ (slash ∷ w)) ≡ some (s ++ slash ∷ [], w)
unfolding cut_slash
cut_slash-word [] w h = rw (cut_slash-free w h, cut_slash) refl
cut_slash-word (c ∷ s) w h = rw (cut_slash-word s w h, cut_slash) refl

trim-word : (c : ℕ) (w : Bytes) → slash_free (c ∷ w) ≡ true → trim_slashes (c ∷ w) ≡ c ∷ w
unfolding trim_slashes slash_free
trim-word c [] h = ground arith
trim-word c (d ∷ w) h = rw (trim-word d w (ground arith), trim_slashes) refl

trim-behind :
    (s : Bytes) (c : ℕ) (w : Bytes)
    → slash_free (c ∷ w) ≡ true
    → trim_slashes (s ++ (c ∷ w)) ≡ s ++ (c ∷ w)
unfolding trim_slashes
trim-behind [] c w h = trim-word c w h
trim-behind (d ∷ []) c w h = rw (trim-word c w h, trim_slashes) refl
trim-behind (d ∷ e ∷ s) c w h = rw (trim-behind (e ∷ s) c w h, trim_slashes) refl

trim_slash :
    (s : Bytes) (c : ℕ) (w : Bytes)
    → slash_free (c ∷ w) ≡ true
    → trim_slashes (s ++ (slash ∷ c ∷ w)) ≡ s ++ (slash ∷ c ∷ w)
trim_slash s c w f =
    ap trim_slashes (sym (append_assoc s (slash ∷ []) (c ∷ w)))
    ∙ (trim-behind (s ++ slash ∷ []) c w f ∙ append_assoc s (slash ∷ []) (c ∷ w))

-- A path whose last name is `w` is a path up to a slash, and `w`.
path_of-last :
    (ws : List Bytes) (w : Bytes)
    → AllNames ws
    → (s : Bytes) × (path_of (ws ++ w ∷ []) ≡ s ++ (slash ∷ w))
      × (clean (s ++ slash ∷ []) ≡ path_of ws)
unfolding join
path_of-last [] w h = ([], refl, clean-path_of [] tt)
path_of-last (v ∷ ws) w h =
    (path_of (v ∷ ws), ap (◌∷◌ slash) (join-append v ws w []), clean_trailing (v ∷ ws) h)

pub dir-last :
    (ws : List Bytes) (w : Bytes)
    → AllNames ws
    → slash_free w ≡ true
    → dir (path_of (ws ++ w ∷ [])) ≡ path_of ws
unfolding dir
dir-last ws w h f =
    let (s, e, c) = path_of-last ws w h in ap dir e ∙ (rw (cut_slash-word s w f, dir) c)

pub dir-root : dir (path_of []) ≡ path_of []
unfolding dir cut_slash clean split push has_prefix join clean_segments is_empty
dir-root = refl

base_of :
    (s : Bytes) (c : ℕ) (w : Bytes)
    → slash_free (c ∷ w) ≡ true
    → base_name (s ++ (slash ∷ c ∷ w)) ≡ c ∷ w
unfolding base_name last_part
base_of [] c w f =
    rw (trim-behind (slash ∷ []) c w f, base_name)
      (rw (cut_slash-word [] (c ∷ w) f, last_part) refl)
base_of (d ∷ s) c w f =
    rw (trim_slash (d ∷ s) c w f, base_name) (rw (cut_slash-word (d ∷ s) (c ∷ w) f, last_part) refl)

pub base_name-last :
    (ws : List Bytes) (c : ℕ) (w : Bytes)
    → AllNames ws
    → slash_free (c ∷ w) ≡ true
    → base_name (path_of (ws ++ (c ∷ w) ∷ [])) ≡ c ∷ w
unfolding base_name
base_name-last ws c w h f =
    let (s, e, q) = path_of-last ws (c ∷ w) h in ap base_name e ∙ base_of s c w f

name_of :
    (w : Bytes)
    → (is_empty w || bytes_eq w dot) ≡ false
    → bytes_eq w dot_dot ≡ false
    → is_name w ≡ true
unfolding is_name
name_of w a b = ground arith

clean_step :
    (w : Bytes) (out : List Bytes)
    → slash_free w ≡ true
    → AllNames out
    → AllNames (
        if is_empty w || bytes_eq w dot
        then out
        else if bytes_eq w dot_dot
        then (if ends_with_name out then drop_last out else out)
        else out ++ w ∷ [])
clean_step w out f h = elim (Bool-cases (is_empty w || bytes_eq w dot)) [
  | inl a ↦ rw (a) h
  | inr a ↦ elim (Bool-cases (bytes_eq w dot_dot)) [
    | inl b ↦ elim (Bool-cases (ends_with_name out)) [
      | inl c ↦ rw (a) (rw (b) (rw (c) (drop_last-names out h)))
      | inr c ↦ rw (a) (rw (b) (rw (c) h))
    ]
    | inr b ↦ rw (a) (rw (b) (All-append _ out (w ∷ []) h ((f, name_of w a b), tt)))
  ]
]

clean_segments-AllNames :
    (ws out : List Bytes) → AllFree ws → AllNames out → AllNames (clean_segments true ws out)
unfolding clean_segments
clean_segments-AllNames [] out f h = h
clean_segments-AllNames (w ∷ ws) out f h = clean_segments-AllNames ws _ f.1 (clean_step w out f.0 h)

-- What an absolute path is cleaned to.
pub clean-AllNames :
    (s : Bytes) → (ws : List Bytes) × AllNames ws × (clean (slash ∷ s) ≡ path_of ws)
clean-AllNames s = (
  clean_segments true (split (slash ∷ s)) [],
  clean_segments-AllNames (split (slash ∷ s)) [] (split-free (slash ∷ s)) tt,
  clean-rooted s,
)
