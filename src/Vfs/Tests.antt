-- ===== src/Vfs/Tests.antt =====
-- Paths of internal/vfs/vfs.go, resolved.
use mathlib.Core.Option.{none-ne-some, some-injective}
use go_fs.Base.{
  ◌≡◌, refl, sym, ◌∙◌, ◌↔◌, inl, inr, true, false, ◌||◌, Option, none, some, List, [], ◌∷◌, ◌++◌,
  if◌then◌else◌, Bool-cases,
}
use go_fs.Base.Text.{Bytes, codes, bytes_eq, is_empty}
use go_fs.Vfs.Paths.{
  slash, push, split, join, has_prefix, ends_with_name, clean_segments, clean, skip_empty,
  join_paths, cut_slash, dir, trim_slashes, last_part, base_name,
}
use go_fs.Vfs.{
  System, Root, walk, raw_path, normalize, segment_allowed, all_allowed, segments_allowed, within,
  in_folder, is_reserved, same_name, trim_root, first_part, spells_reserved, resolve_from,
  resolve_real, resolve, path_reserved,
}
use go_fs.Vfs.Paths.Splitting.{slash_free}
use go_fs.Vfs.Paths.Cleaning.{is_name, AllNames, path_of}
use go_fs.Vfs.Normal.{ClimbsFrom, normalize-AllNames, normalize-climbs}
use go_fs.Vfs.Real.{Closest, resolve_real-Closest}
use go_fs.Vfs.Confined.{Follows, Leads, HasNoLinks, resolve-confined, resolve_plain}

abbrev home : Bytes
home = codes "/a"

abbrev there : Bytes
there = codes "../b/./c"

there_stays : (normalize home there).1 ≡ false
unfolding normalize walk split push has_prefix is_empty bytes_eq
there_stays = refl

normalize-AllNames_example :
    (ws : List Bytes) × AllNames ws
    × ((normalize home there).0 ≡ path_of ws)
    × (normalize [] (normalize home there).0 ≡ normalize home there)
normalize-AllNames_example = normalize-AllNames home [] there there_stays

normalize-climbs_example :
    (((normalize home (codes "../../b")).1 ≡ true)
      ↔ ClimbsFrom 0 (split (raw_path home (codes "../../b"))))
    × ((normalize home (codes "../../b") ≡ (slash ∷ [], true))
        ↔ ClimbsFrom 0 (split (raw_path home (codes "../../b"))))
normalize-climbs_example = normalize-climbs home (codes "../../b")

-- A served folder with a link in it to a folder beside the link.
linked : Bytes → Option Bytes
linked p =
    if bytes_eq p (codes "/srv/link")
    then some (codes "/srv/docs")
    else if bytes_eq p (codes "/srv")
    then some (codes "/srv")
    else none

abbrev with_link : System
with_link = record { eval_symlinks = linked; equal_fold = bytes_eq; on_windows = false }

-- The same without the link.
unlinked : Bytes → Option Bytes
unlinked p =
    if bytes_eq p (codes "/") || (bytes_eq p (codes "/srv") || bytes_eq p (codes "/srv/docs"))
    then some p
    else none

abbrev without_link : System
without_link = record { eval_symlinks = unlinked; equal_fold = bytes_eq; on_windows = false }

abbrev served : Root
served = record { base = codes "/srv"; folds = false; reserved = codes "/srv/.go-fs" }

srv-name : AllNames (codes "srv" ∷ [])
unfolding slash_free is_name is_empty bytes_eq
srv-name = ((refl, refl), tt)

docs-names : AllNames (codes "srv" ∷ codes "docs" ∷ [])
unfolding slash_free is_name is_empty bytes_eq
docs-names = ((refl, refl), ((refl, refl), tt))

srv_base : codes "/srv" ≡ path_of (codes "srv" ∷ [])
unfolding join
srv_base = refl

docs_path : codes "/srv/docs" ≡ path_of (codes "srv" ∷ codes "docs" ∷ [])
unfolding join
docs_path = refl

with_link-Follows : Follows with_link
unfolding linked
with_link-Follows ws real h e = elim (Bool-cases (bytes_eq (path_of ws) (codes "/srv/link"))) [
  | inl a ↦ (
    codes "srv" ∷ codes "docs" ∷ [],
    docs-names,
    some-injective _ _ (sym e ∙ rw (a) refl) ∙ docs_path,
  )
  | inr a ↦ elim (Bool-cases (bytes_eq (path_of ws) (codes "/srv"))) [
    | inl b ↦
        (codes "srv" ∷ [], srv-name, some-injective _ _ (sym e ∙ rw (a) (rw (b) refl)) ∙ srv_base)
    | inr b ↦ absurd (none-ne-some _ (sym (rw (a) (rw (b) refl)) ∙ e))
  ]
]

without_link-HasNoLinks : HasNoLinks without_link
unfolding unlinked
without_link-HasNoLinks ws h =
    elim (Bool-cases (
      bytes_eq (path_of ws) (codes "/")
      || (bytes_eq (path_of ws) (codes "/srv") || bytes_eq (path_of ws) (codes "/srv/docs")))) [
        | inl a ↦ inl (rw (a) refl)
        | inr a ↦ inr (rw (a) refl)
      ]

resolve_real-Closest_example :
    (ws : List Bytes) × AllNames ws
    × (clean (codes "/srv/link/x") ≡ path_of ws)
    × Closest with_link ws (resolve_real with_link (codes "/srv/link/x"))
resolve_real-Closest_example = resolve_real-Closest with_link (codes "srv/link/x")

link_valid : (resolve with_link served home (codes "/link/x")).valid ≡ true
unfolding resolve normalize walk split push has_prefix is_empty bytes_eq join_paths skip_empty clean
    clean_segments ends_with_name join resolve_real resolve_from dir cut_slash base_name
    trim_slashes last_part segments_allowed all_allowed segment_allowed within spells_reserved
    same_name trim_root first_part is_reserved in_folder linked
link_valid = refl

resolve-confined_example :
    (ws : List Bytes) × (more : List Bytes) × AllNames ws
    × ((normalize home (codes "/link/x")).1 ≡ false)
    × ((resolve with_link served home (codes "/link/x")).virtual ≡ path_of ws)
    × ((resolve with_link served home (codes "/link/x")).path ≡ path_of ((codes "srv" ∷ []) ++ ws))
    × (resolve_real with_link (resolve with_link served home (codes "/link/x")).path
        ≡ path_of ((codes "srv" ∷ []) ++ more))
    × Leads with_link ((codes "srv" ∷ []) ++ ws) ((codes "srv" ∷ []) ++ more)
    × (path_reserved with_link served (resolve with_link served home (codes "/link/x")).path
        ≡ false)
resolve-confined_example =
    resolve-confined with_link served (codes "srv") [] home (codes "/link/x") with_link-Follows
      srv_base srv-name link_valid

resolve_plain_example : ((resolve without_link served home (codes ".go-fs/x")).valid ≡ true) ↔ (
    ((normalize home (codes ".go-fs/x")).1 ≡ false)
    × (spells_reserved without_link served (normalize home (codes ".go-fs/x")).0 ≡ false)
    × (is_reserved without_link served (resolve without_link served home (codes ".go-fs/x")).path
        ≡ false))
resolve_plain_example =
    resolve_plain without_link served (codes "srv") [] home (codes ".go-fs/x")
      without_link-HasNoLinks refl srv_base srv-name
