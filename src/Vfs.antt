-- ===== src/Vfs.antt =====
-- internal/vfs/vfs.go: paths of clients confined to a base folder. The file system is a parameter.
pub mod Paths
pub mod Normal
pub mod Real
pub mod Within
pub mod Confined
mod Tests
use go_fs.Base.{
  ℕ, zero, suc, ◌+◌, ◌-◌, ◌*◌, ◌/◌, ◌%◌, ◌^◌, ◌≤◌, ◌<◌, min, max, ◌≡◌, refl, sym, ap, ◌∙◌, subst,
  ◌≢◌, ◌↔◌, ◌⊎◌, inl, inr, Bool, true, false, not, ◌&&◌, ◌||◌, Option, none, some, List, [], ◌∷◌,
  ◌++◌, map, append-nil, append_assoc, arith, ltb, leb, ◌==◌, if◌then◌else◌, ltb→lt, lt→ltb, ==_iff,
  Bool-cases, Option-cases, List-cases, length, get_elem?, take, drop, replicate, length-append,
  take-append-drop, length-take, length-drop, take-length-append, take_all, drop_all,
  drop-length-append, All, All-append,
}
use go_fs.Base.Text.{Bytes, codes, bytes_eq, bytes_eq_iff, bytes_eq_refl, is_empty}
use go_fs.Vfs.Paths.{
  slash, dot, dot_dot, push, split, join, has_prefix, reverse, drop_last, ends_with_name,
  clean_segments, path_text, clean, skip_empty, join_paths, cut_slash, dir, trim_slashes, last_part,
  base_name,
}

-- What the code asks of the operating system and the platform.
pub record System : Type 0 where
  -- `filepath.EvalSymlinks`, `none` where it returns an error
  pub eval_symlinks : Bytes → Option Bytes
  -- `strings.EqualFold`
  pub equal_fold : Bytes → Bytes → Bool
  -- `runtime.GOOS == "windows"`
  pub on_windows : Bool

pub record Root : Type 0 where
  pub base : Bytes
  pub folds : Bool
  pub reserved : Bytes

abbrev pub reserved_name : Bytes
reserved_name = codes ".go-fs"

pub record Target : Type 0 where
  pub virtual : Bytes
  pub path : Bytes
  pub valid : Bool

-- The loop of `Normalize`; `none` is the return for a path that climbs.
unfoldable pub walk : List Bytes → List Bytes → Option (List Bytes)
walk [] stack = some stack
walk (w ∷ ws) stack =
    let skipped = walk ws stack in
    let popped = walk ws (drop_last stack) in
    let pushed = walk ws (stack ++ w ∷ []) in
    if is_empty w || bytes_eq w dot
    then skipped
    else if bytes_eq w dot_dot
    then elim stack [ [] ↦ none | v ∷ vs ↦ popped ]
    else pushed

abbrev pub raw_path : Bytes → Bytes → Bytes
raw_path cwd arg = if has_prefix arg (slash ∷ []) then arg else cwd ++ (slash ∷ arg)

-- `Normalize`: the path, and whether it tried to climb above the root.
unfoldable pub normalize : Bytes → Bytes → Bytes × Bool
normalize cwd arg = elim (walk (split (raw_path cwd arg)) []) [
  | none ↦ (slash ∷ [], true)
  | some stack ↦ (slash ∷ join stack, false)
]

-- The bytes of `\` and `:`.
unfoldable pub contains_any : Bytes → Bool
contains_any [] = false
contains_any (c ∷ s) = c == 0x5C || c == 0x3A || contains_any s

-- `strings.HasSuffix` for a suffix of one byte.
unfoldable pub ends_with : ℕ → Bytes → Bool
ends_with c [] = false
ends_with c (d ∷ []) = c == d
ends_with c (d ∷ e ∷ s) = ends_with c (e ∷ s)

unfoldable pub segment_allowed : Bytes → Bool → Bool
segment_allowed segment windows =
    if not windows
    then true
    else if contains_any segment
    then false
    else not (ends_with 0x2E segment) && not (ends_with 0x20 segment)

unfoldable pub all_allowed : List Bytes → Bool → Bool
all_allowed [] windows = true
all_allowed (w ∷ ws) windows = segment_allowed w windows && all_allowed ws windows

unfoldable pub segments_allowed : System → Bytes → Bool
segments_allowed sys virtual = all_allowed (split virtual) sys.on_windows

unfoldable pub within : Root → Bytes → Bool
within r resolved = bytes_eq resolved r.base || has_prefix resolved (r.base ++ slash ∷ [])

-- `resolved[len(r.reserved):]` is empty or goes on in the folder.
unfoldable pub in_folder : Bytes → Bool
in_folder [] = true
in_folder (c ∷ rest) = c == slash

unfoldable pub is_reserved : System → Root → Bytes → Bool
is_reserved sys r resolved =
    let n = length r.reserved in
    if is_empty r.reserved || ltb (length resolved) n
    then false
    else if not (in_folder (drop n resolved))
    then false
    else if r.folds
    then sys.equal_fold (take n resolved) r.reserved
    else bytes_eq (take n resolved) r.reserved

unfoldable pub same_name : System → Root → Bytes → Bytes → Bool
same_name sys r a b = if r.folds then sys.equal_fold a b else bytes_eq a b

-- `strings.TrimPrefix(virtual, "/")`
unfoldable pub trim_root : Bytes → Bytes
trim_root [] = []
trim_root (c ∷ s) = if c == slash then s else c ∷ s

-- The part in front of the first slash.
unfoldable pub first_part : Bytes → Bytes
first_part [] = []
first_part (c ∷ s) = if c == slash then [] else c ∷ first_part s

unfoldable pub spells_reserved : System → Root → Bytes → Bool
spells_reserved sys r virtual =
    if not (bytes_eq r.reserved (join_paths (r.base ∷ reserved_name ∷ [])))
    then false
    else same_name sys r (first_part (trim_root virtual)) reserved_name

-- The loop of `resolveReal`. Each round that goes on makes the path shorter, so its length and one
-- are rounds enough; out of fuel, it answers as for the root.
unfoldable pub resolve_from : System → Bytes → ℕ → Bytes → List Bytes → Bytes
resolve_from sys target zero current missing = clean target
resolve_from sys target (suc fuel) current missing =
    let parent = dir current in
    let rest = resolve_from sys target fuel parent (missing ++ base_name current ∷ []) in
    elim (sys.eval_symlinks current) [
      | some real ↦ elim missing [ [] ↦ real | m ∷ ms ↦ join_paths (real ∷ reverse (m ∷ ms)) ]
      | none ↦ if bytes_eq parent current then clean target else rest
    ]

unfoldable pub resolve_real : System → Bytes → Bytes
resolve_real sys target =
    let current = clean target in resolve_from sys target (suc (length current)) current []

-- `Contains`
unfoldable pub contains : System → Root → Bytes → Bool
contains sys r os_path = within r (resolve_real sys os_path)

-- `Reserved`
unfoldable pub path_reserved : System → Root → Bytes → Bool
path_reserved sys r os_path = is_reserved sys r (resolve_real sys os_path)

-- `Resolve`; `filepath.FromSlash` changes nothing where the separator is a slash.
unfoldable pub resolve : System → Root → Bytes → Bytes → Target
resolve sys r cwd arg =
    let (virtual, escaped) = normalize cwd arg in
    let os_path = join_paths (r.base ∷ virtual ∷ []) in
    let resolved = resolve_real sys os_path in
    record {
      virtual = virtual;
      path = os_path;
      valid =
          not escaped
          && segments_allowed sys virtual
          && within r resolved
          && not (spells_reserved sys r virtual)
          && not (is_reserved sys r resolved);
    }

pub record DirEntry : Type 0 where
  pub name : Bytes
  pub is_symlink : Bool

-- `Hides`
unfoldable pub hides : System → Root → Bytes → DirEntry → Bool
hides sys r folder entry =
    if is_empty r.reserved
    then false
    else if not entry.is_symlink && not (same_name sys r entry.name reserved_name)
    then false
    else path_reserved sys r (join_paths (folder ∷ entry.name ∷ []))

-- The loop of `ReadFolder` over what `os.ReadDir` lists.
unfoldable pub shown : System → Root → Bytes → List DirEntry → List DirEntry
shown sys r folder [] = []
shown sys r folder (e ∷ entries) =
    let rest = shown sys r folder entries in if hides sys r folder e then rest else e ∷ rest

-- `IsRoot`
unfoldable pub is_root : Target → Bool
is_root t = bytes_eq t.virtual (slash ∷ [])

-- `AsFolder`
unfoldable pub as_folder : Bytes → Bytes
unfolding ends_with
as_folder virtual = if ends_with slash virtual then virtual else virtual ++ slash ∷ []
