-- ===== src/Syncer/Plan/Alignment.antt =====
-- internal/syncer/plan.go: a plan one way, path by path.
use go_fs.Base.{
  ◌≡◌, refl, sym, ap, ◌∙◌, inl, inr, Bool, true, false, ◌&&◌, ◌||◌, Option, none, some, List, [],
  ◌∷◌, arith, Option-cases,
}
use go_fs.Base.Text.{Bytes, bytes_eq, bytes_eq_iff}
use go_fs.Syncer.Plan.{
  Entry, Listing, Step, find, sorted_paths, entry_at, plan_sources, plan_extra, is_found,
  plan_removals, deepest_first, sort_steps, order, plan_one_way,
}
use go_fs.Syncer.Plan.OneWay.{
  any_at, has_path, calls_for_folder, calls_for_copy, clashing, calls_for_removal, calls_for_rmdir,
  has_path-sorted_paths, any_at-sort_steps, round_before, sources_mkdirs, sources_copies,
  sources_clashes, sources_rest,
}

module _ (src dst : Listing) (to_remote del : Bool) (rel : Bytes) (g : Step → Bool) where
  abbrev extra_file : Bytes → Bool
  extra_file r =
      calls_for_removal del (find r src) (some (entry_at r dst))
      && g (record { path = r; remote = to_remote; entry = entry_at r dst })

  abbrev extra_folder : Bytes → Bool
  extra_folder r =
      calls_for_rmdir del (find r src) (some (entry_at r dst))
      && g (record { path = r; remote = to_remote; entry = entry_at r dst })

  same_path : (F : Bytes → Bool) (r : Bytes) → bytes_eq rel r ≡ true → F r ≡ F rel
  same_path F r e = ap F (sym ((bytes_eq_iff rel r).0 e))

  removal_round :
      (r : Bytes) (rels : List Bytes)
      → any_at rel g (plan_removals src dst to_remote del (r ∷ rels)).removes ≡ (
          bytes_eq rel r && extra_file r
          || any_at rel g (plan_removals src dst to_remote del rels).removes)
  unfolding plan_removals plan_extra is_found any_at
  removal_round r rels = elim (Option-cases (find r src)) [
    | inl e ↦ ground (arith, e)
    | inr (s, e) ↦ ground (arith, e)
  ]

  rmdir_round :
      (r : Bytes) (rels : List Bytes)
      → any_at rel g (plan_removals src dst to_remote del (r ∷ rels)).rmdirs ≡ (
          bytes_eq rel r && extra_folder r
          || any_at rel g (plan_removals src dst to_remote del rels).rmdirs)
  unfolding plan_removals plan_extra is_found any_at
  rmdir_round r rels = elim (Option-cases (find r src)) [
    | inl e ↦ ground (arith, e)
    | inr (s, e) ↦ ground (arith, e)
  ]

  removals_removes :
      (rels : List Bytes)
      → any_at rel g (plan_removals src dst to_remote del rels).removes
        ≡ (has_path rel rels && extra_file rel || false)
  unfolding has_path
  removals_removes [] = unfold plan_removals any_at in refl
  removals_removes (r ∷ rels) =
      round_before (bytes_eq rel r) (has_path rel rels) (extra_file r) (extra_file rel)
        (any_at rel g (plan_removals src dst to_remote del (r ∷ rels)).removes)
        (any_at rel g (plan_removals src dst to_remote del rels).removes) false
        (same_path extra_file r) (removal_round r rels) (removals_removes rels)

  removals_rmdirs :
      (rels : List Bytes)
      → any_at rel g (plan_removals src dst to_remote del rels).rmdirs
        ≡ (has_path rel rels && extra_folder rel || false)
  unfolding has_path
  removals_rmdirs [] = unfold plan_removals any_at in refl
  removals_rmdirs (r ∷ rels) =
      round_before (bytes_eq rel r) (has_path rel rels) (extra_folder r) (extra_folder rel)
        (any_at rel g (plan_removals src dst to_remote del (r ∷ rels)).rmdirs)
        (any_at rel g (plan_removals src dst to_remote del rels).rmdirs) false
        (same_path extra_folder r) (rmdir_round r rels) (removals_rmdirs rels)

removals_rest :
    (src dst : Listing) (to_remote del : Bool) (rels : List Bytes)
    → ((plan_removals src dst to_remote del rels).mkdirs ≡ [])
      × ((plan_removals src dst to_remote del rels).copies ≡ [])
      × ((plan_removals src dst to_remote del rels).clashes ≡ [])
unfolding plan_removals plan_extra
removals_rest src dst to_remote del [] = (refl, refl, refl)
removals_rest src dst to_remote del (r ∷ rels) =
    let ih = removals_rest src dst to_remote del rels in (ground arith, ground arith, ground arith)

-- The step that a path gets.
abbrev pub step_to : Bytes → Bool → Listing → Step
step_to rel to_remote listing = record {
  path = rel;
  remote = to_remote;
  entry = entry_at rel listing;
}

entry_at-found :
    (rel : Bytes) (listing : Listing) (e : Entry)
    → find rel listing ≡ some e
    → entry_at rel listing ≡ e
unfolding entry_at
entry_at-found rel listing e h = rw (h, entry_at) refl

-- What a loop over the paths of a listing makes of one path.
looped :
    (rel : Bytes) (listing : Listing) (F : Option Entry → Bool) (b x : Bool)
    → F none ≡ false
    → x ≡ (has_path rel (sorted_paths listing) && (F (some (entry_at rel listing)) && b) || false)
    → x ≡ (F (find rel listing) && b)
looped rel listing F b x z h =
    let paths = has_path-sorted_paths rel listing in
    elim (Option-cases (find rel listing)) [
      | inl e ↦
          let f : has_path rel (sorted_paths listing) ≡ false =
            paths ∙ rw e (unfold is_found in refl) in
          let n : F (find rel listing) ≡ false = ap F e ∙ z in ground (arith, f, n, h)
      | inr (s, e) ↦
          let f : has_path rel (sorted_paths listing) ≡ true =
            paths ∙ rw e (unfold is_found in refl) in
          let n : F (some (entry_at rel listing)) ≡ F (find rel listing) =
            ap F (ap some (entry_at-found rel listing s e) ∙ sym e) in
          ground (arith, f, n, h)
    ]

none_at :
    (rel : Bytes) (g : Step → Bool) (steps : List Step) → steps ≡ [] → any_at rel g steps ≡ false
unfolding any_at
none_at rel g steps h = rw h refl

no_path : (rel : Bytes) (rels : List Bytes) → rels ≡ [] → has_path rel rels ≡ false
unfolding has_path
no_path rel rels h = rw h refl

-- A plan one way has for each path exactly what the two sides call for there: a folder that the
-- destination lacks is made, a file that it lacks or has otherwise is copied, what only it has is
-- removed where that is asked for, and a clash is a file against a folder. Each step is on the side
-- asked for, with the entry of the side it is about, and no path has another step.
pub plan_one_way-aligned :
    (src dst : Listing) (to_remote del : Bool) (rel : Bytes) (g : Step → Bool)
    → (any_at rel g (plan_one_way src dst to_remote del).mkdirs
        ≡ (calls_for_folder (find rel src) (find rel dst) && g (step_to rel to_remote src)))
      × (any_at rel g (plan_one_way src dst to_remote del).copies
          ≡ (calls_for_copy (find rel src) (find rel dst) && g (step_to rel to_remote src)))
      × (any_at rel g (plan_one_way src dst to_remote del).removes
          ≡ (calls_for_removal del (find rel src) (find rel dst) && g (step_to rel to_remote dst)))
      × (any_at rel g (plan_one_way src dst to_remote del).rmdirs
          ≡ (calls_for_rmdir del (find rel src) (find rel dst) && g (step_to rel to_remote dst)))
      × (has_path rel (plan_one_way src dst to_remote del).clashes
          ≡ clashing (find rel src) (find rel dst))
unfolding plan_one_way order
plan_one_way-aligned src dst to_remote del rel g =
    let extra = plan_removals src dst to_remote del (sorted_paths dst) in
    let p = plan_sources src dst to_remote (sorted_paths src) extra in
    let none_left = removals_rest src dst to_remote del (sorted_paths dst) in
    let kept = sources_rest src dst to_remote rel g (sorted_paths src) extra in
    (
      looped rel src (λ o. calls_for_folder o (find rel dst)) (g (step_to rel to_remote src))
          (any_at rel g (sort_steps (λ a b. deepest_first b a) p.mkdirs)) refl
          (any_at-sort_steps rel g (λ a b. deepest_first b a) p.mkdirs
            ∙ sources_mkdirs src dst to_remote rel g (sorted_paths src) extra
            ∙ rw (none_at rel g extra.mkdirs (none_left.0)) refl),
      looped rel src (λ o. calls_for_copy o (find rel dst)) (g (step_to rel to_remote src))
          (any_at rel g p.copies) refl
          (sources_copies src dst to_remote rel g (sorted_paths src) extra
            ∙ rw (none_at rel g extra.copies (none_left.1)) refl),
      looped rel dst (λ o. calls_for_removal del (find rel src) o) (g (step_to rel to_remote dst))
          (any_at rel g p.removes) (no_removal (find rel src))
          (ap (any_at rel g) (kept.0)
            ∙ removals_removes src dst to_remote del rel g (sorted_paths dst)),
      looped rel dst (λ o. calls_for_rmdir del (find rel src) o) (g (step_to rel to_remote dst))
          (any_at rel g (sort_steps deepest_first p.rmdirs)) (no_rmdir (find rel src))
          (any_at-sort_steps rel g deepest_first p.rmdirs
            ∙ ap (any_at rel g) (kept.1)
            ∙ removals_rmdirs src dst to_remote del rel g (sorted_paths dst)),
      clash_only (clashing (find rel src) (find rel dst)) (has_path rel p.clashes) (
          looped rel src (λ o. clashing o (find rel dst)) true (has_path rel p.clashes) refl
            (sources_clashes src dst to_remote rel g (sorted_paths src) extra
              ∙ rw (no_path rel extra.clashes (none_left.2)) (clash_and rel src dst))),
    )
  where
    no_removal : (o : Option Entry) → calls_for_removal del o none ≡ false
    no_removal none = refl
    no_removal (some s) = refl

    no_rmdir : (o : Option Entry) → calls_for_rmdir del o none ≡ false
    no_rmdir none = refl
    no_rmdir (some s) = refl

    clash_only : (c x : Bool) → x ≡ (c && true) → x ≡ c
    clash_only c x h = ground arith

    clash_and :
        (rel : Bytes) (src dst : Listing)
        → (has_path rel (sorted_paths src) && clashing (some (entry_at rel src)) (find rel dst)
            || false)
          ≡ (has_path rel (sorted_paths src)
                && (clashing (some (entry_at rel src)) (find rel dst) && true)
              || false)
    clash_and rel src dst = ground arith
