-- ===== src/Vfs/Confined.antt =====
-- What Resolve of internal/vfs/vfs.go lets through.
use mathlib.Core.Option.{none-ne-some, some-injective}
use go_fs.Base.{
  ℕ, zero, suc, ◌≤◌, ◌<◌, ◌≡◌, refl, sym, ap, ◌∙◌, subst, length, ◌↔◌, ◌⊎◌, inl, inr, Bool, true,
  false, not, ◌&&◌, none, some, List, [], ◌∷◌, ◌++◌, append-nil, arith, take, drop,
  take-append-drop, All-append,
}
use go_fs.Base.Text.{Bytes}
use go_fs.Vfs.Paths.{split, join_paths}
use go_fs.Vfs.{
  System, Root, normalize, segment_allowed, all_allowed, segments_allowed, within, is_reserved,
  spells_reserved, resolve_real, resolve, path_reserved,
}
use go_fs.Vfs.Paths.Cleaning.{AllNames, path_of, clean-path_of, join_paths-two, join_paths-names}
use go_fs.Vfs.Normal.{normalize-AllNames}
use go_fs.Vfs.Real.{behind, resolve_real-names}
use go_fs.Vfs.Within.{within-names}

-- The file system as it is documented: the real path of an absolute path is absolute and clean.
abbrev pub Follows : System → Type 0
Follows sys =
    (ws : List Bytes) (real : Bytes)
    → AllNames ws
    → sys.eval_symlinks (path_of ws) ≡ some real
    → (rs : List Bytes) × AllNames rs × (real ≡ path_of rs)

take-AllNames : (ws : List Bytes) (n : ℕ) → AllNames ws → AllNames (take n ws)
take-AllNames ws zero h = tt
take-AllNames [] (suc n) h = tt
take-AllNames (w ∷ ws) (suc n) h = (h.0, take-AllNames ws n h.1)

drop-AllNames : (ws : List Bytes) (n : ℕ) → AllNames ws → AllNames (drop n ws)
drop-AllNames ws zero h = h
drop-AllNames [] (suc n) h = tt
drop-AllNames (w ∷ ws) (suc n) h = drop-AllNames ws n h.1

behind-names :
    (rs ws : List Bytes) → AllNames rs → AllNames ws → behind (path_of rs) ws ≡ path_of (rs ++ ws)
behind-names rs [] h k = ap path_of (sym (append-nil rs))
behind-names rs (w ∷ ws) h k = join_paths-names rs w ws h k

tests_passed :
    (escaped allowed inside spelled reserved : Bool)
    → (not escaped && allowed && inside && not spelled && not reserved) ≡ true
    → (escaped ≡ false) × (inside ≡ true) × (spelled ≡ false) × (reserved ≡ false)
tests_passed escaped allowed inside spelled reserved h =
    (ground arith, ground arith, ground arith, ground arith)

-- What the first `n` names of a path lead to, where no more of them can be followed: the real path
-- of these, with the other names of the path behind it as they are.
abbrev pub LeadsTo : System → List Bytes → ℕ → List Bytes → Type 0
LeadsTo sys ws n there =
    (rs : List Bytes) × (n ≤ length ws)
    × (sys.eval_symlinks (path_of (take n ws)) ≡ some (path_of rs))
    × ((k : ℕ) → n < k → k ≤ length ws → sys.eval_symlinks (path_of (take k ws)) ≡ none)
    × (there ≡ rs ++ drop n ws)

-- No part of the path can be followed.
abbrev pub LeadsNowhere : System → List Bytes → Type 0
LeadsNowhere sys ws = (k : ℕ) → k ≤ length ws → sys.eval_symlinks (path_of (take k ws)) ≡ none

-- Where the names of a path lead, by the links of the system.
abbrev pub Leads : System → List Bytes → List Bytes → Type 0
Leads sys ws there = ((n : ℕ) × LeadsTo sys ws n there) ⊎ (LeadsNowhere sys ws × (there ≡ ws))

resolve_real-Leads :
    (sys : System) (ws : List Bytes)
    → Follows sys
    → AllNames ws
    → (there : List Bytes) × AllNames there
      × (resolve_real sys (path_of ws) ≡ path_of there)
      × Leads sys ws there
resolve_real-Leads sys ws law h =
    elim (resolve_real-names sys (path_of ws) ws h (clean-path_of ws h)) [
      | inl (n, real, l, e, a, q) ↦
          let (rs, k, p) = law (take n ws) real (take-AllNames ws n h) e in
          let d = drop-AllNames ws n h in
          (
            rs ++ drop n ws,
            All-append _ rs (drop n ws) k d,
            q ∙ (ap (λ z. behind z (drop n ws)) p ∙ behind-names rs (drop n ws) k d),
            inl (n, (rs, l, e ∙ ap some p, a, refl)),
          )
      | inr (a, q) ↦ (ws, h, q, inr (a, refl))
    ]

-- The base is a clean absolute path below the root, and real paths are clean and absolute. A path
-- that Resolve lets through does not climb; its location is the base with the names of the
-- path that the client sees. Take as much of that location as the system can follow, from the
-- root on: its real path, with the remaining names behind it as they are, is the base or lies
-- below it by whole names, and is not in the reserved folder. The remaining names are those that
-- are missing or that the system cannot follow: a link that leads to a missing file counts as a
-- missing name, so where such a link points is not restricted.
pub resolve-confined :
    (sys : System) (r : Root) (b : Bytes) (bs : List Bytes) (cwd arg : Bytes)
    → Follows sys
    → r.base ≡ path_of (b ∷ bs)
    → AllNames (b ∷ bs)
    → (resolve sys r cwd arg).valid ≡ true
    → (ws : List Bytes) × (more : List Bytes) × AllNames ws
      × ((normalize cwd arg).1 ≡ false)
      × ((resolve sys r cwd arg).virtual ≡ path_of ws)
      × ((resolve sys r cwd arg).path ≡ path_of ((b ∷ bs) ++ ws))
      × (resolve_real sys (resolve sys r cwd arg).path ≡ path_of ((b ∷ bs) ++ more))
      × Leads sys ((b ∷ bs) ++ ws) ((b ∷ bs) ++ more)
      × (path_reserved sys r (resolve sys r cwd arg).path ≡ false)
unfolding resolve path_reserved
resolve-confined sys r b bs cwd arg law e h v =
    let virtual = (normalize cwd arg).0 in
    let real = resolve_real sys (join_paths (r.base ∷ virtual ∷ [])) in
    let (stays, inside, unnamed, unreserved) =
      tests_passed (normalize cwd arg).1 (segments_allowed sys virtual) (within r real)
        (spells_reserved sys r virtual) (is_reserved sys r real) v in
    let (ws, names, is, again) = normalize-AllNames cwd cwd arg stays in
    let here =
      ap (λ z. join_paths (r.base ∷ z ∷ [])) is
      ∙ (ap (λ z. join_paths (z ∷ path_of ws ∷ [])) e ∙ join_paths-two (b ∷ bs) ws h names) in
    let (rs, k, q, leads) =
      resolve_real-Leads sys ((b ∷ bs) ++ ws) law (All-append _ (b ∷ bs) ws h names) in
    let there = ap (resolve_real sys) here ∙ q in
    let (more, m) = (within-names r b bs rs e h k).0 (sym (ap (within r) there) ∙ inside) in
    (
      ws,
      more,
      names,
      stays,
      is,
      here,
      there ∙ ap path_of m,
      subst (Leads sys ((b ∷ bs) ++ ws)) m leads,
      unreserved,
    )

-- No links: an absolute, clean path that exists is its own real path.
abbrev pub HasNoLinks : System → Type 0
HasNoLinks sys =
    (ws : List Bytes)
    → AllNames ws
    → (sys.eval_symlinks (path_of ws) ≡ some (path_of ws)) ⊎ (sys.eval_symlinks (path_of ws) ≡ none)

resolve_real_plain :
    (sys : System) (ws : List Bytes)
    → HasNoLinks sys
    → AllNames ws
    → resolve_real sys (path_of ws) ≡ path_of ws
resolve_real_plain sys ws law h =
    elim (resolve_real-names sys (path_of ws) ws h (clean-path_of ws h)) [
      | inr (a, q) ↦ q
      | inl (n, real, l, e, a, q) ↦ elim (law (take n ws) (take-AllNames ws n h)) [
        | inr x ↦ absurd (none-ne-some _ (sym x ∙ e))
        | inl x ↦
            q
            ∙ (ap (λ z. behind z (drop n ws)) (some-injective _ _ (sym e ∙ x))
                ∙ (behind-names (take n ws) (drop n ws) (take-AllNames ws n h)
                      (drop-AllNames ws n h)
                    ∙ ap path_of (take-append-drop n ws)))
      ]
    ]

all_allowed-elsewhere : (ws : List Bytes) → all_allowed ws false ≡ true
unfolding all_allowed segment_allowed
all_allowed-elsewhere [] = refl
all_allowed-elsewhere (w ∷ ws) = all_allowed-elsewhere ws

tests_pass :
    (escaped allowed inside spelled reserved : Bool)
    → escaped ≡ false
    → allowed ≡ true
    → inside ≡ true
    → spelled ≡ false
    → reserved ≡ false
    → (not escaped && allowed && inside && not spelled && not reserved) ≡ true
tests_pass escaped allowed inside spelled reserved e a i n o = ground arith

-- A path that does not climb is its own real path, and within the base.
plain_place :
    (sys : System) (r : Root) (b : Bytes) (bs : List Bytes) (cwd arg : Bytes)
    → HasNoLinks sys
    → r.base ≡ path_of (b ∷ bs)
    → AllNames (b ∷ bs)
    → (normalize cwd arg).1 ≡ false
    → (resolve_real sys (join_paths (r.base ∷ (normalize cwd arg).0 ∷ []))
        ≡ join_paths (r.base ∷ (normalize cwd arg).0 ∷ []))
      × (within r (join_paths (r.base ∷ (normalize cwd arg).0 ∷ [])) ≡ true)
plain_place sys r b bs cwd arg law e h stays =
    let (ws, names, is, again) = normalize-AllNames cwd cwd arg stays in
    let all = All-append _ (b ∷ bs) ws h names in
    let here =
      ap (λ z. join_paths (r.base ∷ z ∷ [])) is
      ∙ (ap (λ z. join_paths (z ∷ path_of ws ∷ [])) e ∙ join_paths-two (b ∷ bs) ws h names) in
    (
      ap (resolve_real sys) here ∙ (resolve_real_plain sys ((b ∷ bs) ++ ws) law all ∙ sym here),
      ap (within r) here ∙ (within-names r b bs ((b ∷ bs) ++ ws) e h all).1 (ws, refl),
    )

-- The base is a clean absolute path below the root. Where there are no links, that is, where every
-- clean absolute path that exists is its own real path, and outside Windows, a path is let through
-- exactly when it does not climb and neither its name nor its location is the reserved folder's.
pub resolve_plain :
    (sys : System) (r : Root) (b : Bytes) (bs : List Bytes) (cwd arg : Bytes)
    → HasNoLinks sys
    → sys.on_windows ≡ false
    → r.base ≡ path_of (b ∷ bs)
    → AllNames (b ∷ bs)
    → ((resolve sys r cwd arg).valid ≡ true) ↔ (
        ((normalize cwd arg).1 ≡ false)
        × (spells_reserved sys r (normalize cwd arg).0 ≡ false)
        × (is_reserved sys r (resolve sys r cwd arg).path ≡ false))
unfolding resolve segments_allowed
resolve_plain sys r b bs cwd arg law win e h =
    let virtual = (normalize cwd arg).0 in
    let place = join_paths (r.base ∷ virtual ∷ []) in
    let allowed = ap (all_allowed (split virtual)) win ∙ all_allowed-elsewhere (split virtual) in
    (
      λ v.
          let (stays, inside, unnamed, open_) =
            tests_passed (normalize cwd arg).1 (segments_allowed sys virtual)
              (within r (resolve_real sys place)) (spells_reserved sys r virtual)
              (is_reserved sys r (resolve_real sys place)) v in
          let (real, in_base) = plain_place sys r b bs cwd arg law e h stays in
          (stays, unnamed, sym (ap (is_reserved sys r) real) ∙ open_),
      λ (stays, unnamed, open_).
          let (real, in_base) = plain_place sys r b bs cwd arg law e h stays in
          tests_pass _ _ _ _ _ stays allowed (ap (within r) real ∙ in_base) unnamed
            (ap (is_reserved sys r) real ∙ open_),
    )
