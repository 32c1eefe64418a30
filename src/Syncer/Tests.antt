-- ===== src/Syncer/Tests.antt =====
-- A plan one way of internal/syncer/plan.go for two small folders.
use go_fs.Base.{◌≡◌, refl, Bool, true, false, ◌&&◌, [], ◌∷◌}
use go_fs.Base.Text.{Bytes, codes, bytes_eq, bytes_leb}
use go_fs.Syncer.Plan.{
  Listing, Step, find, add_path, sorted_paths, plan_missing, plan_source, entry_at, plan_sources,
  plan_extra, is_found, plan_removals, order, plan_one_way,
}
use go_fs.Syncer.Plan.OneWay.{
  any_at, has_path, calls_for_folder, calls_for_copy, clashing, calls_for_removal, calls_for_rmdir,
}
use go_fs.Syncer.Plan.Alignment.{step_to, plan_one_way-aligned}

abbrev song : Bytes
song = codes "music/a.mp3"

abbrev here : Listing
here =
    (codes "music", record { size = 0; mod_time = 0; dir = true })
    ∷ ((song, record { size = 5; mod_time = 100; dir = false }) ∷ [])

abbrev there : Listing
there = (codes "old.txt", record { size = 3; mod_time = 100; dir = false }) ∷ []

abbrev to_there : Step → Bool
to_there s = s.remote

plan_one_way-aligned_example :
    (any_at song to_there (plan_one_way here there true true).mkdirs
      ≡ (calls_for_folder (find song here) (find song there) && to_there (step_to song true here)))
    × (any_at song to_there (plan_one_way here there true true).copies
        ≡ (calls_for_copy (find song here) (find song there) && to_there (step_to song true here)))
    × (any_at song to_there (plan_one_way here there true true).removes ≡ (
        calls_for_removal true (find song here) (find song there)
        && to_there (step_to song true there)))
    × (any_at song to_there (plan_one_way here there true true).rmdirs ≡ (
        calls_for_rmdir true (find song here) (find song there)
        && to_there (step_to song true there)))
    × (has_path song (plan_one_way here there true true).clashes
        ≡ clashing (find song here) (find song there))
plan_one_way-aligned_example = plan_one_way-aligned here there true true song to_there

copied : any_at song to_there (plan_one_way here there true true).copies ≡ true
unfolding any_at plan_one_way order plan_sources plan_source plan_missing plan_removals plan_extra
    sorted_paths add_path bytes_eq bytes_leb find entry_at is_found
copied = refl
