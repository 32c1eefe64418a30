-- ===== src/Syncer/Plan/OneWay.antt =====
-- internal/syncer/plan.go: which steps a plan one way has for a path, by what the sides have at it.
use go_fs.Base.{
  ◌≡◌, refl, sym, ap, ◌∙◌, Bool, true, false, not, ◌&&◌, ◌||◌, Option, none, some, List, [], ◌∷◌,
  arith,
}
use go_fs.Base.Text.{Bytes, bytes_eq, bytes_eq_iff}
use go_fs.Syncer.Plan.{
  Entry, Listing, same_kind, same, Step, Plan, find, add_path, sorted_paths, plan_missing,
  plan_there, plan_source, entry_at, plan_sources, is_found, insert_step, sort_steps,
}

-- A step for this path with the property g.
unfoldable pub any_at : Bytes → (Step → Bool) → List Step → Bool
any_at rel g [] = false
any_at rel g (s ∷ steps) = bytes_eq rel s.path && g s || any_at rel g steps

unfoldable pub has_path : Bytes → List Bytes → Bool
has_path rel [] = false
has_path rel (r ∷ rels) = bytes_eq rel r || has_path rel rels

-- What a path calls for, by the entries of the source and of the destination.
abbrev pub calls_for_folder : Option Entry → Option Entry → Bool
calls_for_folder (some s) none = s.dir
calls_for_folder (some s) (some d) = false
calls_for_folder none d = false

abbrev pub calls_for_copy : Option Entry → Option Entry → Bool
calls_for_copy (some s) none = not s.dir
calls_for_copy (some s) (some d) = not s.dir && not d.dir && not (same s d)
calls_for_copy none d = false

abbrev pub clashing : Option Entry → Option Entry → Bool
clashing (some s) (some d) = not (same_kind s.dir d.dir)
clashing (some s) none = false
clashing none d = false

abbrev pub calls_for_removal : Bool → Option Entry → Option Entry → Bool
calls_for_removal del none (some d) = del && not d.dir
calls_for_removal del none none = false
calls_for_removal del (some s) d = false

abbrev pub calls_for_rmdir : Bool → Option Entry → Option Entry → Bool
calls_for_rmdir del none (some d) = del && d.dir
calls_for_rmdir del none none = false
calls_for_rmdir del (some s) d = false

-- A path is in the paths of a listing exactly when the listing has it.
has_path-add_path :
    (rel r : Bytes) (rels : List Bytes)
    → has_path rel (add_path r rels) ≡ (bytes_eq rel r || has_path rel rels)
unfolding has_path add_path
has_path-add_path rel r [] = refl
has_path-add_path rel r (q ∷ rels) = ground (arith, has_path-add_path rel r rels, bytes_eq_iff r q)

pub has_path-sorted_paths :
    (rel : Bytes) (listing : Listing)
    → has_path rel (sorted_paths listing) ≡ is_found (find rel listing)
unfolding sorted_paths find is_found
has_path-sorted_paths rel [] = unfold has_path in refl
has_path-sorted_paths rel ((r, e) ∷ listing) =
    ground
      (arith, has_path-sorted_paths rel listing, has_path-add_path rel r (sorted_paths listing))

any_at-insert_step :
    (rel : Bytes) (g : Step → Bool) (before : Bytes → Bytes → Bool) (s : Step) (steps : List Step)
    → any_at rel g (insert_step before s steps) ≡ (bytes_eq rel s.path && g s || any_at rel g steps)
unfolding any_at insert_step
any_at-insert_step rel g before s [] = refl
any_at-insert_step rel g before s (t ∷ steps) =
    ground (arith, any_at-insert_step rel g before s steps)

pub any_at-sort_steps :
    (rel : Bytes) (g : Step → Bool) (before : Bytes → Bytes → Bool) (steps : List Step)
    → any_at rel g (sort_steps before steps) ≡ any_at rel g steps
unfolding sort_steps any_at
any_at-sort_steps rel g before [] = refl
any_at-sort_steps rel g before (s ∷ steps) =
    any_at-insert_step rel g before s (sort_steps before steps)
    ∙ ap (λ b. bytes_eq rel s.path && g s || b) (any_at-sort_steps rel g before steps)

-- One round of a loop over paths, in front of the rest.
pub round_before :
    (b h now f x y z : Bool)
    → (b ≡ true → now ≡ f)
    → x ≡ (b && now || y)
    → y ≡ (h && f || z)
    → x ≡ ((b || h) && f || z)
round_before true h now f x y z e p q = ground (arith, e refl)
round_before false h now f x y z e p q = ground arith

module _ (src dst : Listing) (to_remote : Bool) (rel : Bytes) (g : Step → Bool) where
  abbrev step : Bytes → Entry → Step
  step r e = record { path = r; remote = to_remote; entry = e }

  -- What is expected of a step for a path.
  abbrev folder_at : Bytes → Bool
  folder_at r = calls_for_folder (some (entry_at r src)) (find r dst) && g (step r (entry_at r src))

  abbrev copy_at : Bytes → Bool
  copy_at r = calls_for_copy (some (entry_at r src)) (find r dst) && g (step r (entry_at r src))

  abbrev clash_at : Bytes → Bool
  clash_at r = clashing (some (entry_at r src)) (find r dst)

  source_mkdirs :
      (r : Bytes) (e : Entry) (o : Option Entry) (p : Plan)
      → any_at rel g (plan_source r to_remote e o p).mkdirs
        ≡ (bytes_eq rel r && (calls_for_folder (some e) o && g (step r e)) || any_at rel g p.mkdirs)
  unfolding plan_source plan_missing plan_there any_at
  source_mkdirs r e none p = ground arith
  source_mkdirs r e (some d) p = ground arith

  source_copies :
      (r : Bytes) (e : Entry) (o : Option Entry) (p : Plan)
      → any_at rel g (plan_source r to_remote e o p).copies
        ≡ (bytes_eq rel r && (calls_for_copy (some e) o && g (step r e)) || any_at rel g p.copies)
  unfolding plan_source plan_missing plan_there any_at same_kind
  source_copies r e none p = ground arith
  source_copies r e (some d) p = ground arith

  source_clashes :
      (r : Bytes) (e : Entry) (o : Option Entry) (p : Plan)
      → has_path rel (plan_source r to_remote e o p).clashes
        ≡ (bytes_eq rel r && clashing (some e) o || has_path rel p.clashes)
  unfolding plan_source plan_missing plan_there has_path
  source_clashes r e none p = ground arith
  source_clashes r e (some d) p = ground arith

  source_rest :
      (r : Bytes) (e : Entry) (o : Option Entry) (p : Plan)
      → ((plan_source r to_remote e o p).removes ≡ p.removes)
        × ((plan_source r to_remote e o p).rmdirs ≡ p.rmdirs)
  unfolding plan_source plan_missing plan_there
  source_rest r e none p = (ground arith, ground arith)
  source_rest r e (some d) p = (ground arith, ground arith)

  same_path : (F : Bytes → Bool) (r : Bytes) → bytes_eq rel r ≡ true → F r ≡ F rel
  same_path F r e = ap F (sym ((bytes_eq_iff rel r).0 e))

  pub sources_mkdirs :
      (rels : List Bytes) (p : Plan)
      → any_at rel g (plan_sources src dst to_remote rels p).mkdirs
        ≡ (has_path rel rels && folder_at rel || any_at rel g p.mkdirs)
  unfolding plan_sources has_path
  sources_mkdirs [] p = refl
  sources_mkdirs (r ∷ rels) p =
      round_before (bytes_eq rel r) (has_path rel rels) (folder_at r) (folder_at rel)
        (any_at rel g (plan_sources src dst to_remote (r ∷ rels) p).mkdirs)
        (any_at rel g (plan_sources src dst to_remote rels p).mkdirs) (any_at rel g p.mkdirs)
        (same_path folder_at r)
        (source_mkdirs r (entry_at r src) (find r dst) (plan_sources src dst to_remote rels p))
        (sources_mkdirs rels p)

  pub sources_copies :
      (rels : List Bytes) (p : Plan)
      → any_at rel g (plan_sources src dst to_remote rels p).copies
        ≡ (has_path rel rels && copy_at rel || any_at rel g p.copies)
  unfolding plan_sources has_path
  sources_copies [] p = refl
  sources_copies (r ∷ rels) p =
      round_before (bytes_eq rel r) (has_path rel rels) (copy_at r) (copy_at rel)
        (any_at rel g (plan_sources src dst to_remote (r ∷ rels) p).copies)
        (any_at rel g (plan_sources src dst to_remote rels p).copies) (any_at rel g p.copies)
        (same_path copy_at r)
        (source_copies r (entry_at r src) (find r dst) (plan_sources src dst to_remote rels p))
        (sources_copies rels p)

  pub sources_clashes :
      (rels : List Bytes) (p : Plan)
      → has_path rel (plan_sources src dst to_remote rels p).clashes
        ≡ (has_path rel rels && clash_at rel || has_path rel p.clashes)
  unfolding plan_sources has_path
  sources_clashes [] p = refl
  sources_clashes (r ∷ rels) p =
      round_before (bytes_eq rel r) (has_path rel rels) (clash_at r) (clash_at rel)
        (has_path rel (plan_sources src dst to_remote (r ∷ rels) p).clashes)
        (has_path rel (plan_sources src dst to_remote rels p).clashes) (has_path rel p.clashes)
        (same_path clash_at r)
        (source_clashes r (entry_at r src) (find r dst) (plan_sources src dst to_remote rels p))
        (sources_clashes rels p)

  pub sources_rest :
      (rels : List Bytes) (p : Plan)
      → ((plan_sources src dst to_remote rels p).removes ≡ p.removes)
        × ((plan_sources src dst to_remote rels p).rmdirs ≡ p.rmdirs)
  unfolding plan_sources
  sources_rest [] p = (refl, refl)
  sources_rest (r ∷ rels) p =
      let now =
        source_rest r (entry_at r src) (find r dst) (plan_sources src dst to_remote rels p) in
      let ih = sources_rest rels p in (now.0 ∙ ih.0, now.1 ∙ ih.1)
