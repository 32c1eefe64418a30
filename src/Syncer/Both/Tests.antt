-- ===== src/Syncer/Both/Tests.antt =====
-- A run both ways of internal/syncer/plan.go, with a folder that one side lost.
use go_fs.Base.{◌≡◌, refl, true, false, [], ◌∷◌}
use go_fs.Base.Text.{codes, bytes_eq, is_empty}
use go_fs.Vfs.Paths.{
  split, join, push, has_prefix, dir, clean, clean_segments, cut_slash, ends_with_name,
}
use go_fs.Vfs.Paths.Splitting.{slash_free}
use go_fs.Vfs.Paths.Cleaning.{is_name}
use go_fs.Base.Text.{bytes_leb}
use go_fs.Syncer.Plan.{
  Entry, Listing, same, same_kind, find, add_path, sorted_paths, is_found, slashes, deepest_first,
  insert_step, sort_steps, order,
}
use go_fs.Syncer.Both.{
  above, keep, has, copy, remove_file, in_line, unchanged, plan_differing, plan_alone, decide_later,
  plan_path, plan_paths, make_folder, remove_folder, plan_folder, plan_folders, insert_deepest,
  sort_deepest, plan_both,
}
use go_fs.Syncer.Both.Folders.{stays, removes_folder}
use go_fs.Syncer.Both.Removal.{IsPath}
use go_fs.Syncer.Both.Sparing.{plan_both-spares}

abbrev folder : Entry
folder = record { size = 0; mod_time = 0; dir = true }

abbrev note : Entry
note = record { size = 1; mod_time = 5; dir = false }

-- The other side lost "b" and what was in it; "a" has a new file.
abbrev near : Listing
near = (codes "a", folder) ∷ (codes "a/n", note) ∷ (codes "b", folder) ∷ (codes "b/o", note) ∷ []

abbrev far : Listing
far = []

abbrev before : Listing
before = (codes "a", folder) ∷ (codes "b", folder) ∷ (codes "b/o", note) ∷ []

a-IsPath : IsPath (codes "a")
unfolding join slash_free is_name is_empty bytes_eq
a-IsPath = (codes "a", [], ((refl, refl), tt), refl)

b-IsPath : IsPath (codes "b")
unfolding join slash_free is_name is_empty bytes_eq
b-IsPath = (codes "b", [], ((refl, refl), tt), refl)

an-IsPath : IsPath (codes "a/n")
unfolding join slash_free is_name is_empty bytes_eq
an-IsPath = (codes "a", codes "n" ∷ [], ((refl, refl), ((refl, refl), tt)), refl)

bo-IsPath : IsPath (codes "b/o")
unfolding join slash_free is_name is_empty bytes_eq
bo-IsPath = (codes "b", codes "o" ∷ [], ((refl, refl), ((refl, refl), tt)), refl)

b_goes : removes_folder (codes "b") (plan_both near far before true) ≡ true
unfolding plan_both plan_paths plan_folders plan_path plan_folder plan_alone plan_differing
    decide_later make_folder remove_folder in_line keep copy remove_file has above dir clean split
    push has_prefix clean_segments cut_slash ends_with_name join sorted_paths add_path find bytes_eq
    bytes_leb is_empty is_found sort_deepest insert_deepest deepest_first slashes order sort_steps
    insert_step same same_kind unchanged
b_goes = refl

an_stays : stays (codes "a/n") (plan_both near far before true) ≡ true
unfolding plan_both plan_paths plan_folders plan_path plan_folder plan_alone plan_differing
    decide_later make_folder remove_folder in_line keep copy remove_file has above dir clean split
    push has_prefix clean_segments cut_slash ends_with_name join sorted_paths add_path find bytes_eq
    bytes_leb is_empty is_found sort_deepest insert_deepest deepest_first slashes order sort_steps
    insert_step same same_kind unchanged
an_stays = refl

plan_both-spares_example : has_prefix (codes "a/n") (codes "b/") ≡ false
plan_both-spares_example =
    plan_both-spares near far before true (codes "b") (codes "a/n")
      (a-IsPath, (an-IsPath, (b-IsPath, (bo-IsPath, tt)))) tt b-IsPath an-IsPath b_goes an_stays
