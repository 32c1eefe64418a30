-- ===== src/Syncer/Plan.antt =====
-- internal/syncer/plan.go: what a run one way does. A listing is the list of its entries, each path
-- once, and a time is nanoseconds.
pub mod OneWay
pub mod Alignment
use go_fs.Base.{
  ℕ, zero, suc, ◌+◌, ◌-◌, ◌*◌, ◌/◌, ◌%◌, ◌^◌, ◌≤◌, ◌<◌, min, max, ◌≡◌, refl, sym, ap, ◌∙◌, subst,
  ◌≢◌, ◌↔◌, ◌⊎◌, inl, inr, Bool, true, false, not, ◌&&◌, ◌||◌, Option, none, some, List, [], ◌∷◌,
  ◌++◌, map, append-nil, append_assoc, arith, ltb, leb, ◌==◌, if◌then◌else◌, ltb→lt, lt→ltb, ==_iff,
  Bool-cases, Option-cases, List-cases, length, get_elem?, take, drop, replicate, length-append,
  take-append-drop, length-take, length-drop, take-length-append, take_all, drop_all,
  drop-length-append, All, All-append,
}
use go_fs.Base.Text.{Bytes, codes, bytes_eq, bytes_eq_iff, bytes_eq_refl, is_empty, bytes_leb}

pub record Entry : Type 0 where
  pub size : ℕ
  pub mod_time : ℕ
  pub dir : Bool

abbrev pub zero_entry : Entry
zero_entry = record { size = 0; mod_time = 0; dir = false }

abbrev pub Listing : Type 0
Listing = List (Bytes × Entry)

abbrev pub window : ℕ
window = 10 ^ 9

unfoldable pub same_kind : Bool → Bool → Bool
same_kind true b = b
same_kind false b = not b

unfoldable pub same : Entry → Entry → Bool
unfolding same_kind
same a b =
    if a.dir || b.dir
    then same_kind a.dir b.dir
    else a.size == b.size
      && leb a.mod_time (b.mod_time + window)
      && leb b.mod_time (a.mod_time + window)

pub record Step : Type 0 where
  pub path : Bytes
  pub remote : Bool
  pub entry : Entry

pub record Plan : Type 0 where
  pub mkdirs : List Step
  pub copies : List Step
  pub removes : List Step
  pub rmdirs : List Step
  pub clashes : List Bytes
  pub conflicts : List Bytes
  pub insync : Listing

abbrev pub empty_plan : Plan
empty_plan = record {
  mkdirs = [];
  copies = [];
  removes = [];
  rmdirs = [];
  clashes = [];
  conflicts = [];
  insync = [];
}

unfoldable pub find : Bytes → Listing → Option Entry
find rel [] = none
find rel ((r, e) ∷ listing) = if bytes_eq rel r then some e else find rel listing

-- The paths of one listing, each once, in order, as planOneWay asks for them.
unfoldable pub add_path : Bytes → List Bytes → List Bytes
add_path rel [] = rel ∷ []
add_path rel (r ∷ rels) =
    let rest = add_path rel rels in
    if bytes_eq rel r then r ∷ rels else if bytes_leb rel r then rel ∷ (r ∷ rels) else r ∷ rest

unfoldable pub sorted_paths : Listing → List Bytes
unfolding add_path
sorted_paths [] = []
sorted_paths ((r, e) ∷ listing) = add_path r (sorted_paths listing)

-- What a path of the source comes to, in front of what the paths behind it come to.
unfoldable pub plan_missing : Bytes → Bool → Entry → Plan → Plan
plan_missing rel to_remote s p =
    if s.dir
    then record p { mkdirs = record { path = rel; remote = to_remote; entry = s } ∷ p.mkdirs }
    else record p { copies = record { path = rel; remote = to_remote; entry = s } ∷ p.copies }

unfoldable pub plan_there : Bytes → Bool → Entry → Entry → Plan → Plan
unfolding same_kind
plan_there rel to_remote s d p =
    if not (same_kind s.dir d.dir)
    then record p { clashes = rel ∷ p.clashes }
    else if not s.dir && not (same s d)
    then record p { copies = record { path = rel; remote = to_remote; entry = s } ∷ p.copies }
    else record p { insync = (rel, s) ∷ p.insync }

unfoldable pub plan_source : Bytes → Bool → Entry → Option Entry → Plan → Plan
plan_source rel to_remote s none p = plan_missing rel to_remote s p
plan_source rel to_remote s (some d) p = plan_there rel to_remote s d p

unfoldable pub entry_at : Bytes → Listing → Entry
entry_at rel listing = elim (find rel listing) [ some e ↦ e | none ↦ zero_entry ]

-- The first loop, in front of what the second one plans.
unfoldable pub plan_sources : Listing → Listing → Bool → List Bytes → Plan → Plan
unfolding plan_source entry_at
plan_sources src dst to_remote [] p = p
plan_sources src dst to_remote (rel ∷ rels) p =
    plan_source rel to_remote (entry_at rel src) (find rel dst)
      (plan_sources src dst to_remote rels p)

unfoldable pub plan_extra : Bytes → Bool → Entry → Plan → Plan
plan_extra rel to_remote d p =
    if d.dir
    then record p { rmdirs = record { path = rel; remote = to_remote; entry = d } ∷ p.rmdirs }
    else record p { removes = record { path = rel; remote = to_remote; entry = d } ∷ p.removes }

unfoldable pub is_found : Option Entry → Bool
is_found none = false
is_found (some e) = true

-- The second loop.
unfoldable pub plan_removals : Listing → Listing → Bool → Bool → List Bytes → Plan
unfolding plan_extra is_found
plan_removals src dst to_remote del [] = empty_plan
plan_removals src dst to_remote del (rel ∷ rels) =
    let rest = plan_removals src dst to_remote del rels in
    if is_found (find rel src) || not del
    then rest
    else plan_extra rel to_remote (entry_at rel dst) rest

unfoldable pub slashes : Bytes → ℕ
slashes [] = 0
slashes (c ∷ s) = if c == b'/' then suc (slashes s) else slashes s

-- `deepestFirst(a, b) <= 0`
unfoldable pub deepest_first : Bytes → Bytes → Bool
unfolding slashes
deepest_first a b = if slashes a == slashes b then bytes_leb a b else ltb (slashes b) (slashes a)

unfoldable pub insert_step : (Bytes → Bytes → Bool) → Step → List Step → List Step
insert_step before s [] = s ∷ []
insert_step before s (t ∷ steps) =
    let rest = insert_step before s steps in
    if before s.path t.path then s ∷ (t ∷ steps) else t ∷ rest

unfoldable pub sort_steps : (Bytes → Bytes → Bool) → List Step → List Step
unfolding insert_step
sort_steps before [] = []
sort_steps before (s ∷ steps) = insert_step before s (sort_steps before steps)

unfoldable pub order : Plan → Plan
unfolding sort_steps deepest_first
order p = record p {
  mkdirs = sort_steps (λ a b. deepest_first b a) p.mkdirs;
  rmdirs = sort_steps deepest_first p.rmdirs;
}

unfoldable pub plan_one_way : Listing → Listing → Bool → Bool → Plan
unfolding order plan_sources plan_removals sorted_paths
plan_one_way src dst to_remote del = order (
    plan_sources src dst to_remote (sorted_paths src)
      (plan_removals src dst to_remote del (sorted_paths dst)))
