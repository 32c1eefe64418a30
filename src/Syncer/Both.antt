-- ===== src/Syncer/Both.antt =====
-- internal/syncer/plan.go: what a run both ways does. The three listings are those of one side, of the
-- other, and of the run before; `kept` is the list of the folders that the code keeps in a map.
pub mod Folders
pub mod Above
pub mod Sorting
pub mod Removal
pub mod Sparing
mod Tests
use go_fs.Base.{
  ℕ, zero, suc, ◌+◌, ◌-◌, ◌*◌, ◌/◌, ◌%◌, ◌^◌, ◌≤◌, ◌<◌, min, max, ◌≡◌, refl, sym, ap, ◌∙◌, subst,
  ◌≢◌, ◌↔◌, ◌⊎◌, inl, inr, Bool, true, false, not, ◌&&◌, ◌||◌, Option, none, some, List, [], ◌∷◌,
  ◌++◌, map, append-nil, append_assoc, arith, ltb, leb, ◌==◌, if◌then◌else◌, ltb→lt, lt→ltb, ==_iff,
  Bool-cases, Option-cases, List-cases, length, get_elem?, take, drop, replicate, length-append,
  take-append-drop, length-take, length-drop, take-length-append, take_all, drop_all,
  drop-length-append, All, All-append,
}
use go_fs.Base.Text.{Bytes, codes, bytes_eq, bytes_eq_iff, bytes_eq_refl, is_empty}
use go_fs.Base.Text.{bytes_leb}
use go_fs.Vfs.Paths.{dot, dir}
use go_fs.Syncer.Plan.{
  Entry, Listing, window, same_kind, same, Step, Plan, empty_plan, find, sorted_paths, is_found,
  deepest_first, order,
}

-- What planBoth has planned, the folders that something is kept in, and the folders to decide on.
pub record Both : Type 0 where
  pub plan : Plan
  pub kept : List Bytes
  pub folders : List Bytes

-- The loop of `keep`; each folder is shorter than what is in it.
unfoldable pub above : ℕ → Bytes → List Bytes
above zero rel = []
above (suc fuel) rel =
    let folder = dir rel in
    let rest = above fuel folder in if bytes_eq folder dot then [] else folder ∷ rest

-- `keep(rel)`
unfoldable pub keep : Bytes → Both → Both
unfolding above
keep rel b = record b { kept = above (length rel) rel ++ b.kept }

-- `kept[rel]`
unfoldable pub has : Bytes → List Bytes → Bool
has rel [] = false
has rel (r ∷ rels) = bytes_eq rel r || has rel rels

unfoldable pub copy : Bytes → Bool → Entry → Both → Both
copy rel to_remote e b = record b {
  plan = record b.plan {
    copies = b.plan.copies ++ record { path = rel; remote = to_remote; entry = e } ∷ [];
  };
}

unfoldable pub remove_file : Bytes → Bool → Entry → Both → Both
remove_file rel on_remote e b = record b {
  plan = record b.plan {
    removes = b.plan.removes ++ record { path = rel; remote = on_remote; entry = e } ∷ [];
  };
}

unfoldable pub in_line : Bytes → Entry → Both → Both
in_line rel e b = record b { plan = record b.plan { insync = b.plan.insync ++ (rel, e) ∷ [] } }

unfoldable pub clash : Bytes → Both → Both
clash rel b = record b { plan = record b.plan { clashes = b.plan.clashes ++ rel ∷ [] } }

unfoldable pub conflict : Bytes → Both → Both
conflict rel b = record b { plan = record b.plan { conflicts = b.plan.conflicts ++ rel ∷ [] } }

-- `known && same(e, s)`
unfoldable pub unchanged : Entry → Option Entry → Bool
unchanged e none = false
unchanged e (some s) = same e s

-- The inner switch, for a file that differs.
unfoldable pub plan_differing : Bytes → Entry → Entry → Option Entry → Both → Both
unfolding copy conflict unchanged
plan_differing rel l r s b =
    let local_changed = not (unchanged l s) in
    let remote_changed = not (unchanged r s) in
    let b' = if is_found s then conflict rel b else b in
    if local_changed && not remote_changed
    then copy rel true l b
    else if remote_changed && not local_changed
    then copy rel false r b
    else if ltb (l.mod_time + window) r.mod_time
    then copy rel false r b'
    else copy rel true l b'

-- A file that one side alone has, which is copied to the other or removed.
unfoldable pub plan_alone : Bytes → Bool → Bool → Entry → Option Entry → Both → Both
unfolding remove_file copy keep
plan_alone rel del to_remote e s b =
    if del && unchanged e s
    then remove_file rel (not to_remote) e b
    else copy rel to_remote e (keep rel b)

unfoldable pub decide_later : Bytes → Both → Both
decide_later rel b = record b { folders = b.folders ++ rel ∷ [] }

-- The body of the first loop, for what the listings say of a path.
unfoldable pub plan_path : Bytes → Bool → Option Entry → Option Entry → Option Entry → Both → Both
unfolding plan_differing plan_alone decide_later in_line clash keep
plan_path rel del (some l) (some r) s b =
    if not (same_kind l.dir r.dir)
    then keep rel (clash rel b)
    else if l.dir || r.dir
    then decide_later rel b
    else if same l r
    then in_line rel l (keep rel b)
    else plan_differing rel l r s (keep rel b)
plan_path rel del (some l) none s b =
    if l.dir then decide_later rel b else plan_alone rel del true l s b
plan_path rel del none (some r) s b =
    if r.dir then decide_later rel b else plan_alone rel del false r s b
plan_path rel del none none s b = b

unfoldable pub plan_paths : Listing → Listing → Listing → Bool → List Bytes → Both → Both
unfolding plan_path
plan_paths local remote last del [] b = b
plan_paths local remote last del (rel ∷ rels) b =
    plan_paths local remote last del rels
      (plan_path rel del (find rel local) (find rel remote) (find rel last) b)

abbrev pub folder_entry : Entry
folder_entry = record { size = 0; mod_time = 0; dir = true }

unfoldable pub make_folder : Bytes → Bool → Both → Both
make_folder rel to_remote b = record b {
  plan = record b.plan {
    mkdirs = b.plan.mkdirs ++ record { path = rel; remote = to_remote; entry = folder_entry } ∷ [];
  };
}

unfoldable pub remove_folder : Bytes → Bool → Both → Both
remove_folder rel on_remote b = record b {
  plan = record b.plan {
    rmdirs = b.plan.rmdirs ++ record { path = rel; remote = on_remote; entry = folder_entry } ∷ [];
  };
}

-- The body of the second loop; the flags say which listings have the folder.
unfoldable pub plan_folder : Bytes → Bool → Bool → Bool → Bool → Both → Both
unfolding make_folder remove_folder in_line keep has
plan_folder rel del on_local on_remote known b =
    if on_local && on_remote
    then keep rel (in_line rel folder_entry b)
    else if has rel b.kept || not del || not known
    then keep rel (make_folder rel on_local b)
    else remove_folder rel on_remote b

unfoldable pub plan_folders : Listing → Listing → Listing → Bool → List Bytes → Both → Both
unfolding plan_folder
plan_folders local remote last del [] b = b
plan_folders local remote last del (rel ∷ rels) b = plan_folders local remote last del rels (
    plan_folder rel del (is_found (find rel local)) (is_found (find rel remote))
      (is_found (find rel last)) b)

unfoldable pub insert_deepest : Bytes → List Bytes → List Bytes
insert_deepest rel [] = rel ∷ []
insert_deepest rel (r ∷ rels) =
    let rest = insert_deepest rel rels in if deepest_first rel r then rel ∷ (r ∷ rels) else r ∷ rest

unfoldable pub sort_deepest : List Bytes → List Bytes
unfolding insert_deepest
sort_deepest [] = []
sort_deepest (rel ∷ rels) = insert_deepest rel (sort_deepest rels)

unfoldable pub plan_both : Listing → Listing → Listing → Bool → Plan
unfolding plan_paths plan_folders sort_deepest
plan_both local remote last del =
    let start : Both = record { plan = empty_plan; kept = []; folders = [] } in
    let b = plan_paths local remote last del (sorted_paths (local ++ remote)) start in
    order (plan_folders local remote last del (sort_deepest b.folders) b).plan
