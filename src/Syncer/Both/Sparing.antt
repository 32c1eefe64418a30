-- ===== src/Syncer/Both/Sparing.antt =====
-- The folders that planBoth of internal/syncer/plan.go removes, and what it keeps.
use go_fs.Base.{
  ◌≤◌, ◌≡◌, sym, ap, ◌∙◌, subst, ◌⊎◌, inl, inr, Bool, true, false, ◌||◌, List, [], ◌∷◌, ◌++◌,
  append_assoc, arith, Bool-cases, length, length-append, All, All-append,
}
use go_fs.Base.Text.{Bytes, bytes_eq}
use mathlib.Core.Bool.{true≢false}
use go_fs.Base.Text.{bytes_leb}
use go_fs.Vfs.Paths.{slash, join, split, has_prefix}
use go_fs.Vfs.Paths.Splitting.{split-join, split-join-slash, split-cons}
use go_fs.Vfs.Paths.Cleaning.{AllNames, AllNames-free}
use go_fs.Syncer.Plan.{
  Listing, Plan, empty_plan, sorted_paths, add_path, deepest_first, order, slashes,
}
use go_fs.Syncer.Both.{Both, above, has, plan_paths, plan_folders, sort_deepest, plan_both}
use go_fs.Syncer.Both.Folders.{paths_of, keys_of, stays, removes_folder, plan_paths-Covered}
use go_fs.Syncer.Both.Above.{above-has, has_first, false_has, slashes-join}
use go_fs.Vfs.Within.{has_prefix-rest}
use go_fs.Syncer.Both.Sorting.{has_self, has_later, sort-Deepest, sort-has, sort_steps-has}
use go_fs.Syncer.Both.Removal.{IsPath, Sound, plan_folders-Sound}

add_path-has :
    (q r : Bytes) (rels : List Bytes)
    → has q (add_path r rels) ≡ true
    → (q ≡ r) ⊎ (has q rels ≡ true)
unfolding add_path
add_path-has q r [] h = has_first q r [] h
add_path-has q r (s ∷ rels) h = elim (Bool-cases (bytes_eq r s)) [
  | inl x ↦ inr (rw (x) at h)
  | inr x ↦ elim (Bool-cases (bytes_leb r s)) [
    | inl y ↦ has_first q r (s ∷ rels) (rw (y) at (rw (x) at h))
    | inr y ↦ elim (has_first q s (add_path r rels) (rw (y) at (rw (x) at h))) [
      | inl e ↦ inr (subst (λ z. has z (s ∷ rels) ≡ true) (sym e) (has_self s rels))
      | inr z ↦ elim (add_path-has q r rels z) [
        | inl e ↦ inl e
        | inr e ↦ inr (has_later q s rels e)
      ]
    ]
  ]
]

-- A listing of paths.
abbrev pub AllPaths : Listing → Type 0
AllPaths = All (λ x. IsPath x.0)

sorted_paths-IsPath :
    (listing : Listing) (q : Bytes)
    → AllPaths listing
    → has q (sorted_paths listing) ≡ true
    → IsPath q
unfolding sorted_paths
sorted_paths-IsPath [] q paths h = absurd (false_has q h)
sorted_paths-IsPath ((r, e) ∷ listing) q paths h =
    elim (add_path-has q r (sorted_paths listing) h) [
      | inl x ↦ subst IsPath (sym x) paths.0
      | inr x ↦ sorted_paths-IsPath listing q paths.1 x
    ]

nothing_stays : (q : Bytes) → stays q empty_plan ≡ true → ⊥
unfolding has
nothing_stays q h = cc

-- Both loops, in front of the sorting of the steps.
loops-Sound :
    (local remote old : Listing) (del : Bool)
    → AllPaths local
    → AllPaths remote
    → Sound
        (plan_folders local remote old del
          (sort_deepest
            (plan_paths local remote old del
              (sorted_paths (local ++ remote))
              (record { plan = empty_plan; kept = []; folders = [] })).folders)
          (plan_paths local remote old del
            (sorted_paths (local ++ remote))
            (record { plan = empty_plan; kept = []; folders = [] })))
        []
loops-Sound local remote old del paths paths' =
    let start : Both = record { plan = empty_plan; kept = []; folders = [] } in
    let rels = sorted_paths (local ++ remote) in
    let b = plan_paths local remote old del rels start in
    let (all, rm, fo) =
      plan_paths-Covered local remote old del rels start (λ q h. absurd (nothing_stays q h)) in
    let none_gone = λ (rel : Bytes) (h : removes_folder rel b.plan ≡ true).
      false_has rel (sym (ap (λ z. has rel (paths_of z)) rm) ∙ h) in
    let from_listing : (d : Bytes) → has d (sort_deepest b.folders) ≡ true → IsPath d = λ d h.
      elim (fo d (sort-has d b.folders h)) [
        | inl x ↦ absurd (false_has d x)
        | inr x ↦ sorted_paths-IsPath (local ++ remote) d (All-append _ local remote paths paths') x
      ] in
    plan_folders-Sound local remote old del (sort_deepest b.folders) b from_listing
      (sort-Deepest b.folders)
      (all, λ rel h. absurd (none_gone rel h), λ rel h. absurd (none_gone rel h))

order-stays : (q : Bytes) (p : Plan) → stays q (order p) ≡ stays q p
unfolding order
order-stays q p =
    ap (λ z. has q (paths_of p.copies) || (z || (has q (keys_of p.insync) || has q p.clashes)))
      (sort_steps-has (λ a b. deepest_first b a) q p.mkdirs)

order-removes_folder : (q : Bytes) (p : Plan) → removes_folder q (order p) ≡ removes_folder q p
unfolding order
order-removes_folder q p = sort_steps-has deepest_first q p.rmdirs

All_behind : (xs ys : List Bytes) → AllNames (xs ++ ys) → AllNames ys
All_behind [] ys h = h
All_behind (x ∷ xs) ys h = All_behind xs ys h.1

slashes-length : (s : Bytes) → slashes s ≤ length s
unfolding slashes
slashes-length [] = omega arith
slashes-length (c ∷ s) = ground (arith, slashes-length s)

-- A path that goes on behind a folder has the folder above it.
inside-above :
    (rel q : Bytes)
    → IsPath rel
    → IsPath q
    → has_prefix q (rel ++ slash ∷ []) ≡ true
    → has rel (above (length q) q) ≡ true
inside-above rel q (v, vs, names, e) (w, ws, names', e') h =
    let (t, p) = has_prefix-rest q (rel ++ slash ∷ []) h in
    let (u, us, s) = split-cons t in
    let text =
      sym e'
      ∙ (p ∙ (ap (λ z. (z ++ slash ∷ []) ++ t) e ∙ append_assoc (join (v ∷ vs)) (slash ∷ []) t)) in
    let parts =
      sym (split-join w ws (AllNames-free (w ∷ ws) names'))
      ∙ (ap split text
          ∙ (split-join-slash v vs t (AllNames-free (v ∷ vs) names) ∙ ap (λ z. (v ∷ vs) ++ z) s)) in
    let rest = All_behind (v ∷ vs) (u ∷ us) (subst AllNames parts names') in
    let count = ap length parts ∙ length-append (v ∷ vs) (u ∷ us) in
    let deep = slashes-join w ws names' in
    let here = e' ∙ ap join parts in
    subst (λ z. has z (above (length q) q) ≡ true) (sym e)
      (subst (λ z. has (join (v ∷ vs)) (above (length q) z) ≡ true) (sym here)
        (above-has (length q) v vs u us names rest
          (omega (arith, count, deep, slashes-length q, ap slashes e'))))

-- A run both ways never removes a folder that something below stays in: no path that the plan copies,
-- makes, finds in line or leaves as a clash goes on behind a folder that the plan removes, whatever the
-- listings of paths and the snapshot of the last run say.
pub plan_both-spares :
    (local remote old : Listing) (del : Bool) (rel q : Bytes)
    → AllPaths local
    → AllPaths remote
    → IsPath rel
    → IsPath q
    → removes_folder rel (plan_both local remote old del) ≡ true
    → stays q (plan_both local remote old del) ≡ true
    → has_prefix q (rel ++ slash ∷ []) ≡ false
unfolding plan_both
plan_both-spares local remote old del rel q paths paths' is is' gone here =
    let (all, apart, deep) = loops-Sound local remote old del paths paths' in
    elim (Bool-cases (has_prefix q (rel ++ slash ∷ []))) [
      | inr x ↦ x
      | inl x ↦
          let covered = all q (sym (order-stays q _) ∙ here) rel (inside-above rel q is is' x) in
          absurd (true≢false (sym covered ∙ apart rel (sym (order-removes_folder rel _) ∙ gone)))
    ]
