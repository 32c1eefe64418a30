-- ===== src/Syncer/Both/Sorting.antt =====
-- The orders of internal/syncer/plan.go: the deepest folder first.
use go_fs.Base.{
  ◌≤◌, ◌≡◌, refl, sym, ap, ◌∙◌, subst, ◌⊎◌, inl, inr, Bool, true, false, ◌||◌, List, [], ◌∷◌, arith,
  Bool-cases,
}
use go_fs.Base.Text.{Bytes, bytes_eq, bytes_eq_iff, bytes_eq_refl}
use go_fs.Syncer.Plan.{Step, deepest_first, slashes, insert_step, sort_steps}
use go_fs.Syncer.Both.{has, insert_deepest, sort_deepest}
use go_fs.Syncer.Both.Folders.{paths_of}
use go_fs.Syncer.Both.Above.{has_first, false_has}

-- Nothing of the list is deeper than `rel`.
abbrev pub NoDeeper : Bytes → List Bytes → Type 0
NoDeeper rel ds = (d : Bytes) → has d ds ≡ true → slashes d ≤ slashes rel

abbrev pub Deepest : List Bytes → Type 0
Deepest [] = Unit
Deepest (d ∷ ds) = NoDeeper d ds × Deepest ds

pub has_self : (d : Bytes) (ds : List Bytes) → has d (d ∷ ds) ≡ true
unfolding has
has_self d ds = rw (bytes_eq_refl d) refl

pub has_later : (q d : Bytes) (ds : List Bytes) → has q ds ≡ true → has q (d ∷ ds) ≡ true
unfolding has
has_later q d ds h = ground (arith, h)

deepest_first-total :
    (a b : Bytes)
    → (deepest_first a b ≡ true → slashes b ≤ slashes a)
      × (deepest_first a b ≡ false → slashes a ≤ slashes b)
unfolding deepest_first
deepest_first-total a b = (λ h. ground arith, λ h. ground arith)

insert-has :
    (q d : Bytes) (ds : List Bytes)
    → has q (insert_deepest d ds) ≡ true
    → (q ≡ d) ⊎ (has q ds ≡ true)
unfolding insert_deepest has
insert-has q d [] h = inl ((bytes_eq_iff q d).0 (ground arith))
insert-has q d (e ∷ ds) h = elim (Bool-cases (deepest_first d e)) [
  | inl x ↦ has_first q d (e ∷ ds) (rw (x) at h)
  | inr x ↦ elim (has_first q e (insert_deepest d ds) (rw (x) at h)) [
    | inl y ↦ inr (subst (λ z. has z (e ∷ ds) ≡ true) (sym y) (has_self e ds))
    | inr y ↦ elim (insert-has q d ds y) [ inl z ↦ inl z | inr z ↦ inr (has_later q e ds z) ]
  ]
]

no_deeper :
    (r e : Bytes) (ds : List Bytes) → slashes e ≤ slashes r → NoDeeper e ds → NoDeeper r (e ∷ ds)
no_deeper r e ds l h q x = elim (has_first q e ds x) [
  | inl y ↦ omega (arith, l, ap slashes y)
  | inr y ↦ omega (arith, l, h q y)
]

insert-Deepest : (d : Bytes) (ds : List Bytes) → Deepest ds → Deepest (insert_deepest d ds)
unfolding insert_deepest
insert-Deepest d [] h = (λ q x. absurd (false_has q x), tt)
insert-Deepest d (e ∷ ds) h = elim (Bool-cases (deepest_first d e)) [
  | inl x ↦ rw (x) (no_deeper d e ds ((deepest_first-total d e).0 x) h.0, h)
  | inr x ↦ rw (x) (
    λ q y. elim (insert-has q d ds y) [
      | inl z ↦ omega (arith, ap slashes z, (deepest_first-total d e).1 x)
      | inr z ↦ h.0 q z
    ],
    insert-Deepest d ds h.1,
  )
]

pub sort-Deepest : (ds : List Bytes) → Deepest (sort_deepest ds)
unfolding sort_deepest
sort-Deepest [] = tt
sort-Deepest (d ∷ ds) = insert-Deepest d (sort_deepest ds) (sort-Deepest ds)

pub sort-has : (q : Bytes) (ds : List Bytes) → has q (sort_deepest ds) ≡ true → has q ds ≡ true
unfolding sort_deepest
sort-has q [] h = h
sort-has q (d ∷ ds) h = elim (insert-has q d (sort_deepest ds) h) [
  | inl e ↦ subst (λ z. has z (d ∷ ds) ≡ true) (sym e) (has_self d ds)
  | inr y ↦ has_later q d ds (sort-has q ds y)
]

swap_or : (a b c : Bool) → (a || (b || c)) ≡ (b || (a || c))
swap_or a b c = ground arith

-- The order of the steps changes none of them.
insert_step-has :
    (f : Bytes → Bytes → Bool) (q : Bytes) (s : Step) (steps : List Step)
    → has q (paths_of (insert_step f s steps)) ≡ has q (s.path ∷ paths_of steps)
unfolding insert_step has
insert_step-has f q s [] = refl
insert_step-has f q s (t ∷ steps) = elim (Bool-cases (f s.path t.path)) [
  | inl x ↦ rw (x) refl
  | inr x ↦ rw (x) (
      ap (λ z. bytes_eq q t.path || z) (insert_step-has f q s steps)
      ∙ swap_or (bytes_eq q t.path) (bytes_eq q s.path) (has q (paths_of steps)))
]

pub sort_steps-has :
    (f : Bytes → Bytes → Bool) (q : Bytes) (steps : List Step)
    → has q (paths_of (sort_steps f steps)) ≡ has q (paths_of steps)
unfolding sort_steps has
sort_steps-has f q [] = refl
sort_steps-has f q (s ∷ steps) =
    insert_step-has f q s (sort_steps f steps)
    ∙ ap (λ z. bytes_eq q s.path || z) (sort_steps-has f q steps)
