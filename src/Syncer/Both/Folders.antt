-- ===== src/Syncer/Both/Folders.antt =====
-- The folders that planBoth of internal/syncer/plan.go removes hold nothing that stays.
use go_fs.Base.{
  ◌+◌, ◌≡◌, refl, sym, ap, ◌∙◌, subst, ◌⊎◌, inl, inr, Bool, true, false, not, ◌&&◌, ◌||◌, Option,
  none, some, List, [], ◌∷◌, ◌++◌, arith, ltb, if◌then◌else◌, Bool-cases, length,
}
use go_fs.Base.Text.{Bytes, bytes_eq, bytes_eq_iff}
use go_fs.Syncer.Plan.{Entry, Listing, window, same_kind, same, Step, Plan, find, is_found}
use go_fs.Syncer.Both.{
  Both, above, keep, has, copy, remove_file, in_line, clash, conflict, unchanged, plan_differing,
  plan_alone, decide_later, folder_entry, plan_path, plan_paths, make_folder,
}

pub has-append : (q : Bytes) (xs ys : List Bytes) → has q (xs ++ ys) ≡ (has q xs || has q ys)
unfolding has
has-append q [] ys = refl
has-append q (x ∷ xs) ys = ground (arith, has-append q xs ys)

-- Every folder that `q` is in is kept.
abbrev pub Covered : List Bytes → Bytes → Type 0
Covered kept q = (a : Bytes) → has a (above (length q) q) ≡ true → has a kept ≡ true

abbrev pub paths_of : List Step → List Bytes
paths_of [] = []
paths_of (s ∷ steps) = s.path ∷ paths_of steps

abbrev pub keys_of : Listing → List Bytes
keys_of [] = []
keys_of ((r, e) ∷ listing) = r ∷ keys_of listing

-- What a plan leaves, copies or makes.
abbrev pub stays : Bytes → Plan → Bool
stays q p =
    has q (paths_of p.copies)
    || (has q (paths_of p.mkdirs) || (has q (keys_of p.insync) || has q p.clashes))

-- What a plan removes.
abbrev pub removes_folder : Bytes → Plan → Bool
removes_folder q p = has q (paths_of p.rmdirs)

-- All that stays has its folders kept, and no folder is removed yet.
abbrev pub AllCovered : Both → Type 0
AllCovered b = (q : Bytes) → stays q b.plan ≡ true → Covered b.kept q

pub paths_of-append : (xs ys : List Step) → paths_of (xs ++ ys) ≡ paths_of xs ++ paths_of ys
paths_of-append [] ys = refl
paths_of-append (x ∷ xs) ys = ap (◌∷◌ x.path) (paths_of-append xs ys)

keys_of-append : (xs ys : Listing) → keys_of (xs ++ ys) ≡ keys_of xs ++ keys_of ys
keys_of-append [] ys = refl
keys_of-append ((r, e) ∷ xs) ys = ap (◌∷◌ r) (keys_of-append xs ys)

pub has-one :
    (q r : Bytes) (xs : List Bytes) → has q (xs ++ r ∷ []) ≡ true → (has q xs ≡ true) ⊎ (q ≡ r)
unfolding has
has-one q r [] h = inr ((bytes_eq_iff q r).0 (ground arith))
has-one q r (x ∷ xs) h = elim (Bool-cases (bytes_eq q x)) [
  | inl e ↦ inl (rw (e) refl)
  | inr e ↦ elim (has-one q r xs (rw (e) at h)) [ inl y ↦ inl (rw (e) y) | inr y ↦ inr y ]
]

-- A step on the plan that adds at most `rel` to what stays, with its folders kept, keeps all covered.
pub grows :
    (rel : Bytes) (b b' : Both)
    → AllCovered b
    → ((q : Bytes) → stays q b'.plan ≡ true → (stays q b.plan ≡ true) ⊎ (q ≡ rel))
    → ((a : Bytes) → has a b.kept ≡ true → has a b'.kept ≡ true)
    → Covered b'.kept rel
    → AllCovered b'
grows rel b b' all new more cover q s a h = elim (new q s) [
  | inl old ↦ more a (all q old a h)
  | inr e ↦ cover a (subst (λ z. has a (above (length z) z) ≡ true) e h)
]

pub or_cases : (a b : Bool) → (a || b) ≡ true → (a ≡ true) ⊎ (b ≡ true)
or_cases true b h = inl refl
or_cases false b h = inr h

pub keep-Covered : (rel : Bytes) (b : Both) → Covered (keep rel b).kept rel
unfolding keep
keep-Covered rel b a h = ground (arith, h, has-append a (above (length rel) rel) b.kept)

pub keep-more :
    (rel : Bytes) (b : Both) (a : Bytes) → has a b.kept ≡ true → has a (keep rel b).kept ≡ true
unfolding keep
keep-more rel b a h = ground (arith, h, has-append a (above (length rel) rel) b.kept)

copy-stays :
    (rel : Bytes) (to : Bool) (e : Entry) (b : Both) (q : Bytes)
    → stays q (copy rel to e b).plan ≡ true
    → (stays q b.plan ≡ true) ⊎ (q ≡ rel)
unfolding copy
copy-stays rel to e b q h =
    let p = paths_of-append b.plan.copies (record { path = rel; remote = to; entry = e } ∷ []) in
    elim (or_cases _ _ h) [
      | inr y ↦ inl (ground (arith, y))
      | inl y ↦ elim (has-one q rel (paths_of b.plan.copies) (sym (ap (has q) p) ∙ y)) [
        | inl z ↦ inl (rw (z) refl)
        | inr z ↦ inr z
      ]
    ]

pub in_line-stays :
    (rel : Bytes) (e : Entry) (b : Both) (q : Bytes)
    → stays q (in_line rel e b).plan ≡ true
    → (stays q b.plan ≡ true) ⊎ (q ≡ rel)
unfolding in_line
in_line-stays rel e b q h =
    let p = keys_of-append b.plan.insync ((rel, e) ∷ []) in
    let copied = has q (paths_of b.plan.copies) in
    let made = has q (paths_of b.plan.mkdirs) in
    elim (or_cases copied _ h) [
      | inl y ↦ inl (rw (y) refl)
      | inr y ↦ elim (or_cases made _ y) [
        | inl z ↦ inl (ground (arith, z))
        | inr z ↦
            elim (or_cases (has q (keys_of (b.plan.insync ++ (rel, e) ∷ []))) (has q b.plan.clashes)
              z) [
                | inr w ↦ inl (ground (arith, w))
                | inl w ↦ elim (has-one q rel (keys_of b.plan.insync) (sym (ap (has q) p) ∙ w)) [
                  | inl v ↦ inl (ground (arith, v))
                  | inr v ↦ inr v
                ]
              ]
      ]
    ]

clash-stays :
    (rel : Bytes) (b : Both) (q : Bytes)
    → stays q (clash rel b).plan ≡ true
    → (stays q b.plan ≡ true) ⊎ (q ≡ rel)
unfolding clash
clash-stays rel b q h = elim (or_cases (has q (paths_of b.plan.copies)) _ h) [
  | inl y ↦ inl (rw (y) refl)
  | inr y ↦ elim (or_cases (has q (paths_of b.plan.mkdirs)) _ y) [
    | inl z ↦ inl (ground (arith, z))
    | inr z ↦
        elim (or_cases (has q (keys_of b.plan.insync)) (has q (b.plan.clashes ++ rel ∷ [])) z) [
          | inl w ↦ inl (ground (arith, w))
          | inr w ↦ elim (has-one q rel b.plan.clashes w) [
            | inl v ↦ inl (ground (arith, v))
            | inr v ↦ inr v
          ]
        ]
  ]
]

pub make_folder-stays :
    (rel : Bytes) (to : Bool) (b : Both) (q : Bytes)
    → stays q (make_folder rel to b).plan ≡ true
    → (stays q b.plan ≡ true) ⊎ (q ≡ rel)
unfolding make_folder
make_folder-stays rel to b q h =
    let p =
      paths_of-append b.plan.mkdirs
        (record { path = rel; remote = to; entry = folder_entry } ∷ []) in
    elim (or_cases (has q (paths_of b.plan.copies)) _ h) [
      | inl y ↦ inl (rw (y) refl)
      | inr y ↦ elim (or_cases _ (has q (keys_of b.plan.insync) || has q b.plan.clashes) y) [
        | inr z ↦ inl (ground (arith, z))
        | inl z ↦ elim (has-one q rel (paths_of b.plan.mkdirs) (sym (ap (has q) p) ∙ z)) [
          | inl v ↦ inl (ground (arith, v))
          | inr v ↦ inr v
        ]
      ]
    ]

-- A step of the first loop for `rel`: what stays is covered if it was, nothing is removed, and at
-- most `rel` is left to the second loop.
abbrev Fine : Bytes → Both → Both → Type 0
Fine rel b b' =
    (AllCovered b → AllCovered b')
    × (b'.plan.rmdirs ≡ b.plan.rmdirs)
    × ((q : Bytes) → has q b'.folders ≡ true → (has q b.folders ≡ true) ⊎ (q ≡ rel))

copy-Fine :
    (rel : Bytes) (to : Bool) (e : Entry) (b : Both) → Fine rel b (copy rel to e (keep rel b))
unfolding copy keep
copy-Fine rel to e b = (
  λ all.
      grows rel b (copy rel to e (keep rel b)) all (copy-stays rel to e b) (keep-more rel b)
        (keep-Covered rel b),
  refl,
  λ q h. inl h,
)

in_line-Fine : (rel : Bytes) (e : Entry) (b : Both) → Fine rel b (in_line rel e (keep rel b))
unfolding in_line keep
in_line-Fine rel e b = (
  λ all.
      grows rel b (in_line rel e (keep rel b)) all (in_line-stays rel e b) (keep-more rel b)
        (keep-Covered rel b),
  refl,
  λ q h. inl h,
)

clash-Fine : (rel : Bytes) (b : Both) → Fine rel b (keep rel (clash rel b))
unfolding clash keep
clash-Fine rel b = (
  λ all.
      grows rel b (keep rel (clash rel b)) all (clash-stays rel b) (keep-more rel b)
        (keep-Covered rel b),
  refl,
  λ q h. inl h,
)

conflict-Fine :
    (rel : Bytes) (to : Bool) (e : Entry) (b : Both)
    → Fine rel b (copy rel to e (conflict rel (keep rel b)))
unfolding copy keep conflict
conflict-Fine rel to e b = copy-Fine rel to e b

either-Fine :
    (rel : Bytes) (b x y : Both) (c : Bool)
    → Fine rel b x
    → Fine rel b y
    → Fine rel b (if c then x else y)
either-Fine rel b x y true f g = f
either-Fine rel b x y false f g = g

copied-Fine :
    (rel : Bytes) (to : Bool) (e : Entry) (s : Option Entry) (b : Both)
    → Fine rel b (copy rel to e (if is_found s then conflict rel (keep rel b) else keep rel b))
unfolding is_found
copied-Fine rel to e none b = copy-Fine rel to e b
copied-Fine rel to e (some old) b = conflict-Fine rel to e b

differing-Fine :
    (rel : Bytes) (l r : Entry) (s : Option Entry) (b : Both)
    → Fine rel b (plan_differing rel l r s (keep rel b))
unfolding plan_differing
differing-Fine rel l r s b =
    either-Fine rel b _ _ (not (unchanged l s) && not (not (unchanged r s)))
      (copy-Fine rel true l b)
      (either-Fine rel b _ _ (not (unchanged r s) && not (not (unchanged l s)))
        (copy-Fine rel false r b)
        (either-Fine rel b _ _ (ltb (l.mod_time + window) r.mod_time) (copied-Fine rel false r s b)
          (copied-Fine rel true l s b)))

later-Fine : (rel : Bytes) (b : Both) → Fine rel b (decide_later rel b)
unfolding decide_later
later-Fine rel b = (λ all. all, refl, λ q h. has-one q rel b.folders h)

remove-Fine : (rel : Bytes) (on : Bool) (e : Entry) (b : Both) → Fine rel b (remove_file rel on e b)
unfolding remove_file
remove-Fine rel on e b = (λ all. all, refl, λ q h. inl h)

alone-Fine :
    (rel : Bytes) (del to : Bool) (e : Entry) (s : Option Entry) (b : Both)
    → Fine rel b (plan_alone rel del to e s b)
unfolding plan_alone
alone-Fine rel del to e s b =
    either-Fine rel b _ _ (del && unchanged e s) (remove-Fine rel (not to) e b)
      (copy-Fine rel to e b)

plan_path-Fine :
    (rel : Bytes) (del : Bool) (l r s : Option Entry) (b : Both)
    → Fine rel b (plan_path rel del l r s b)
unfolding plan_path
plan_path-Fine rel del (some l) (some r) s b =
    either-Fine rel b _ _ (not (same_kind l.dir r.dir)) (clash-Fine rel b) (
      either-Fine rel b _ _ (l.dir || r.dir) (later-Fine rel b)
        (either-Fine rel b _ _ (same l r) (in_line-Fine rel l b) (differing-Fine rel l r s b)))
plan_path-Fine rel del (some l) none s b =
    either-Fine rel b _ _ l.dir (later-Fine rel b) (alone-Fine rel del true l s b)
plan_path-Fine rel del none (some r) s b =
    either-Fine rel b _ _ r.dir (later-Fine rel b) (alone-Fine rel del false r s b)
plan_path-Fine rel del none none s b = (λ all. all, refl, λ q h. inl h)

-- After the first loop all that stays is covered, no folder is removed, and the folders that are left
-- to the second loop are paths that were planned.
pub plan_paths-Covered :
    (local remote last : Listing) (del : Bool) (rels : List Bytes) (b : Both)
    → AllCovered b
    → AllCovered (plan_paths local remote last del rels b)
      × ((plan_paths local remote last del rels b).plan.rmdirs ≡ b.plan.rmdirs)
      × ((q : Bytes)
          → has q (plan_paths local remote last del rels b).folders ≡ true
          → (has q b.folders ≡ true) ⊎ (has q rels ≡ true))
unfolding plan_paths has
plan_paths-Covered local remote last del [] b all = (all, refl, λ q h. inl h)
plan_paths-Covered local remote last del (rel ∷ rels) b all =
    let fine = plan_path-Fine rel del (find rel local) (find rel remote) (find rel last) b in
    let b' = plan_path rel del (find rel local) (find rel remote) (find rel last) b in
    let (all', rm, fo) = plan_paths-Covered local remote last del rels b' (fine.0 all) in
    (
      all',
      rm ∙ fine.1,
      λ q h. elim (fo q h) [
        | inr y ↦ inr (ground (arith, y))
        | inl y ↦ elim (fine.2 q y) [
          | inl z ↦ inl z
          | inr z ↦ inr (rw ((bytes_eq_iff q rel).1 z) refl)
        ]
      ],
    )
