-- ===== src/Vfs/Paths.antt =====
-- What internal/vfs uses of Go's strings and path/filepath, for a slash as the separator. A path is
-- the list of its bytes.
pub mod Splitting
pub mod Cleaning
use go_fs.Base.{
  ℕ, zero, suc, ◌+◌, ◌-◌, ◌*◌, ◌/◌, ◌%◌, ◌^◌, ◌≤◌, ◌<◌, min, max, ◌≡◌, refl, sym, ap, ◌∙◌, subst,
  ◌≢◌, ◌↔◌, ◌⊎◌, inl, inr, Bool, true, false, not, ◌&&◌, ◌||◌, Option, none, some, List, [], ◌∷◌,
  ◌++◌, map, append-nil, append_assoc, arith, ltb, leb, ◌==◌, if◌then◌else◌, ltb→lt, lt→ltb, ==_iff,
  Bool-cases, Option-cases, List-cases, length, get_elem?, take, drop, replicate, length-append,
  take-append-drop, length-take, length-drop, take-length-append, take_all, drop_all,
  drop-length-append, All, All-append,
}
use go_fs.Base.Text.{Bytes, codes, bytes_eq, bytes_eq_iff, bytes_eq_refl, is_empty}

abbrev pub slash : ℕ
slash = 0x2F

abbrev pub dot : Bytes
dot = 0x2E ∷ []

abbrev pub dot_dot : Bytes
dot_dot = 0x2E ∷ 0x2E ∷ []

-- The byte goes in front of the first segment.
unfoldable pub push : ℕ → List Bytes → List Bytes
push c [] = (c ∷ []) ∷ []
push c (w ∷ ws) = (c ∷ w) ∷ ws

-- `strings.Split(s, "/")`
unfoldable pub split : Bytes → List Bytes
unfolding push
split [] = [] ∷ []
split (c ∷ s) = let rest = split s in if c == slash then [] ∷ rest else push c rest

-- `strings.Join(segments, "/")`
unfoldable pub join : List Bytes → Bytes
join [] = []
join (w ∷ []) = w
join (w ∷ v ∷ ws) = w ++ (slash ∷ join (v ∷ ws))

-- `strings.HasPrefix(s, prefix)`
unfoldable pub has_prefix : Bytes → Bytes → Bool
has_prefix s [] = true
has_prefix [] (p ∷ prefix) = false
has_prefix (c ∷ s) (p ∷ prefix) = c == p && has_prefix s prefix

abbrev pub reverse : List Bytes → List Bytes
reverse [] = []
reverse (w ∷ ws) = reverse ws ++ w ∷ []

-- All but the last.
abbrev pub drop_last : List Bytes → List Bytes
drop_last [] = []
drop_last (w ∷ []) = []
drop_last (w ∷ v ∷ ws) = w ∷ drop_last (v ∷ ws)

-- The last of them is a name, not "..", which a relative path may start with.
unfoldable pub ends_with_name : List Bytes → Bool
ends_with_name [] = false
ends_with_name (w ∷ []) = not (bytes_eq w dot_dot)
ends_with_name (w ∷ v ∷ ws) = ends_with_name (v ∷ ws)

-- The segments that are left of a path when it is cleaned.
unfoldable pub clean_segments : Bool → List Bytes → List Bytes → List Bytes
unfolding ends_with_name
clean_segments rooted [] out = out
clean_segments rooted (w ∷ ws) out = clean_segments rooted ws (
    if is_empty w || bytes_eq w dot
    then out
    else if bytes_eq w dot_dot
    then (if ends_with_name out then drop_last out else if rooted then out else out ++ w ∷ [])
    else out ++ w ∷ [])

abbrev pub path_text : Bool → List Bytes → Bytes
path_text true out = slash ∷ join out
path_text false [] = dot
path_text false (w ∷ ws) = join (w ∷ ws)

-- `filepath.Clean(path)`
unfoldable pub clean : Bytes → Bytes
unfolding clean_segments has_prefix
clean path =
    let rooted = has_prefix path (slash ∷ []) in
    path_text rooted (clean_segments rooted (split path) [])

-- `filepath.Join(elements...)`, which skips the empty elements in front.
unfoldable pub skip_empty : List Bytes → List Bytes
skip_empty [] = []
skip_empty ([] ∷ ws) = skip_empty ws
skip_empty ((c ∷ w) ∷ ws) = (c ∷ w) ∷ ws

unfoldable pub join_paths : List Bytes → Bytes
unfolding skip_empty
join_paths elements = elim (skip_empty elements) [ [] ↦ [] | w ∷ ws ↦ clean (join (w ∷ ws)) ]

-- A path up to and with its last slash, and what stands behind.
unfoldable pub cut_slash : Bytes → Option (Bytes × Bytes)
cut_slash [] = none
cut_slash (c ∷ s) = elim (cut_slash s) [
  | some (a, b) ↦ some (c ∷ a, b)
  | none ↦ if c == slash then some (c ∷ [], s) else none
]

-- `filepath.Dir(path)`
unfoldable pub dir : Bytes → Bytes
unfolding cut_slash
dir path = elim (cut_slash path) [ none ↦ clean [] | some (a, b) ↦ clean a ]

-- The trailing slashes taken off.
unfoldable pub trim_slashes : Bytes → Bytes
trim_slashes [] = []
trim_slashes (c ∷ s) = elim (trim_slashes s) [
  | [] ↦ if c == slash then [] else c ∷ []
  | d ∷ t ↦ c ∷ d ∷ t
]

unfoldable pub last_part : Bytes → Bytes
last_part s = elim (cut_slash s) [ none ↦ s | some (a, b) ↦ b ]

-- `filepath.Base(path)`
unfoldable pub base_name : Bytes → Bytes
unfolding trim_slashes last_part
base_name [] = dot
base_name (c ∷ s) = elim (trim_slashes (c ∷ s)) [ [] ↦ slash ∷ [] | d ∷ t ↦ last_part (d ∷ t) ]
