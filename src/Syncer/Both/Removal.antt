-- ===== src/Syncer/Both/Removal.antt =====
-- The second loop of planBoth of internal/syncer/plan.go.
use go_fs.Base.{
  ◌≤◌, ◌≡◌, refl, sym, ap, ◌∙◌, subst, ◌⊎◌, inl, inr, Bool, true, false, not, ◌&&◌, ◌||◌, List, [],
  ◌∷◌, arith, if◌then◌else◌, Bool-cases, length,
}
use go_fs.Base.Text.{Bytes}
use go_fs.Vfs.Paths.{join}
use go_fs.Vfs.Paths.Cleaning.{AllNames}
use go_fs.Syncer.Plan.{Listing, same, find, is_found, slashes}
use go_fs.Syncer.Both.{
  Both, above, keep, has, in_line, folder_entry, make_folder, remove_folder, plan_folder,
  plan_folders,
}
use go_fs.Syncer.Both.Folders.{
  AllCovered, paths_of, stays, removes_folder, paths_of-append, has-append, has-one, grows,
  keep-Covered, keep-more, in_line-stays, make_folder-stays,
}
use go_fs.Syncer.Both.Above.{above-slashes}
use go_fs.Syncer.Both.Sorting.{NoDeeper, Deepest, has_self, has_later}

-- A path of names with slashes between them.
abbrev pub IsPath : Bytes → Type 0
IsPath rel = (w : Bytes) × (ws : List Bytes) × AllNames (w ∷ ws) × (rel ≡ join (w ∷ ws))

-- Where the second loop stands, in front of the folders `ds`.
abbrev pub Sound : Both → List Bytes → Type 0
Sound b ds =
    AllCovered b
    × ((rel : Bytes) → removes_folder rel b.plan ≡ true → has rel b.kept ≡ false)
    × ((rel : Bytes) → removes_folder rel b.plan ≡ true → NoDeeper rel ds)

not_above :
    (rel d : Bytes) → IsPath d → slashes d ≤ slashes rel → has rel (above (length d) d) ≡ false
not_above rel d (w, ws, names, e) l = elim (Bool-cases (has rel (above (length d) d))) [
  | inr x ↦ x
  | inl x ↦
      let less =
        above-slashes (length d) w ws rel names
          (subst (λ z. has rel (above (length d) z) ≡ true) e x) in
      absurd (omega (arith, less, l, ap slashes e))
]

-- A folder that is kept, with all above it.
kept-Sound :
    (d : Bytes) (ds : List Bytes) (b b' : Both)
    → IsPath d
    → ((q : Bytes) → stays q (keep d b').plan ≡ true → (stays q b.plan ≡ true) ⊎ (q ≡ d))
    → b'.plan.rmdirs ≡ b.plan.rmdirs
    → b'.kept ≡ b.kept
    → Sound b (d ∷ ds)
    → Sound (keep d b') ds
unfolding keep
kept-Sound d ds b b' path new rm same (all, apart, deep) = (
  grows d b (keep d b') all new (λ a h. keep-more d b' a (ap (has a) same ∙ h)) (keep-Covered d b'),
  λ rel h.
      let h' = sym (ap (λ z. has rel (paths_of z)) rm) ∙ h in
      let one = not_above rel d path (deep rel h' d (has_self d ds)) in
      let two = ap (has rel) same ∙ apart rel h' in
      has-append rel (above (length d) d) b'.kept ∙ rw (one) two,
  λ rel h q y.
      let h' = sym (ap (λ z. has rel (paths_of z)) rm) ∙ h in deep rel h' q (has_later q d ds y),
)

-- A folder that is removed.
removed-Sound :
    (d : Bytes) (ds : List Bytes) (on : Bool) (b : Both)
    → NoDeeper d ds
    → has d b.kept ≡ false
    → Sound b (d ∷ ds)
    → Sound (remove_folder d on b) ds
unfolding remove_folder
removed-Sound d ds on b last free (all, apart, deep) =
    let p =
      paths_of-append b.plan.rmdirs (record { path = d; remote = on; entry = folder_entry } ∷ []) in
    let old_or_new = λ (rel : Bytes) (h : removes_folder rel (remove_folder d on b).plan ≡ true).
      has-one rel d (paths_of b.plan.rmdirs) (sym (ap (has rel) p) ∙ h) in
    (
      all,
      λ rel h. elim (old_or_new rel h) [
        | inl y ↦ apart rel y
        | inr e ↦ ap (λ z. has z b.kept) e ∙ free
      ],
      λ rel h q y. elim (old_or_new rel h) [
        | inl z ↦ deep rel z q (has_later q d ds y)
        | inr e ↦ subst (λ z. slashes q ≤ slashes z) (sym e) (last q y)
      ],
    )

either-Sound :
    (ds : List Bytes) (x y : Both) (c : Bool)
    → (c ≡ true → Sound x ds)
    → (c ≡ false → Sound y ds)
    → Sound (if c then x else y) ds
either-Sound ds x y true f g = f refl
either-Sound ds x y false f g = g refl

first_false : (a b c : Bool) → (a || b || c) ≡ false → a ≡ false
first_false a b c h = ground arith

plan_folder-Sound :
    (d : Bytes) (ds : List Bytes) (del l r known : Bool) (b : Both)
    → IsPath d
    → NoDeeper d ds
    → Sound b (d ∷ ds)
    → Sound (plan_folder d del l r known b) ds
unfolding plan_folder in_line make_folder
plan_folder-Sound d ds del l r known b path last k =
    either-Sound ds _ _ (l && r)
      (λ x.
        kept-Sound d ds b (in_line d folder_entry b) path (in_line-stays d folder_entry b) refl refl
          k)
      (λ x.
        either-Sound ds _ _ (has d b.kept || not del || not known)
          (λ y. kept-Sound d ds b (make_folder d l b) path (make_folder-stays d l b) refl refl k)
          (λ y. removed-Sound d ds r b last (first_false (has d b.kept) (not del) (not known) y) k))

pub plan_folders-Sound :
    (local remote old : Listing) (del : Bool) (ds : List Bytes) (b : Both)
    → ((d : Bytes) → has d ds ≡ true → IsPath d)
    → Deepest ds
    → Sound b ds
    → Sound (plan_folders local remote old del ds b) []
unfolding plan_folders
plan_folders-Sound local remote old del [] b paths deepest k = k
plan_folders-Sound local remote old del (d ∷ ds) b paths deepest k =
    plan_folders-Sound local remote old del ds _ (λ e h. paths e (has_later e d ds h)) deepest.1
      (plan_folder-Sound d ds del (is_found (find d local)) (is_found (find d remote))
        (is_found (find d old)) b (paths d (has_self d ds)) deepest.0 k)
