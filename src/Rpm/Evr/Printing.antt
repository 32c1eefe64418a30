-- ===== src/Rpm/Evr/Printing.antt =====
-- internal/rpm/version.go: the text of an Evr, read back.
use go_fs.Base.{
  ℕ, ◌≡◌, refl, inl, inr, Bool, true, false, not, ◌&&◌, none, some, [], ◌∷◌, ◌++◌, append_assoc,
  arith, ◌==◌, if◌then◌else◌, Bool-cases,
}
use go_fs.Base.Text.{Bytes, bytes_eq_iff, is_empty}
use go_fs.Base.Integers.{ℤ, pos, negsuc, int_ltb}
use go_fs.Rpm.Version.{equal}
use go_fs.Rpm.Version.Order.{vercmp_refl}
use go_fs.Rpm.Evr.{
  Evr, cut_first, cut_last, split_epoch, split_release, parse_evr, has_epoch, evr_string, or_zero,
  parse_int, or_next, compare_releases, compare_evr,
}

unfoldable pub lacks : ℕ → Bytes → Bool
lacks c [] = true
lacks c (x ∷ s) = not (x == c) && lacks c s

lacks-append : (c : ℕ) (x y : Bytes) → lacks c x ≡ true → lacks c y ≡ true → lacks c (x ++ y) ≡ true
unfolding lacks
lacks-append c [] y h k = k
lacks-append c (b ∷ x) y h k = ground (arith, lacks-append c x y)

cut_first-lacks : (c : ℕ) (x : Bytes) → lacks c x ≡ true → cut_first c x ≡ none
unfolding cut_first lacks
cut_first-lacks c [] h = refl
cut_first-lacks c (b ∷ x) h = ground (arith, cut_first-lacks c x)

cut_first-at : (c : ℕ) (x y : Bytes) → lacks c x ≡ true → cut_first c (x ++ (c ∷ y)) ≡ some (x, y)
unfolding cut_first lacks
cut_first-at c [] y h = ground arith
cut_first-at c (b ∷ x) y h = ground (arith, cut_first-at c x y)

cut_last-lacks : (c : ℕ) (x : Bytes) → lacks c x ≡ true → cut_last c x ≡ none
unfolding cut_last lacks
cut_last-lacks c [] h = refl
cut_last-lacks c (b ∷ x) h = ground (arith, cut_last-lacks c x)

cut_last-at : (c : ℕ) (x y : Bytes) → lacks c y ≡ true → cut_last c (x ++ (c ∷ y)) ≡ some (x, y)
unfolding cut_last
cut_last-at c [] y h = ground (arith, cut_last-lacks c y)
cut_last-at c (b ∷ x) y h = ground (arith, cut_last-at c x y)

-- An Evr that its text shows: the separators stand in no part where they would be read as such.
abbrev pub IsWritable : Evr → Type 0
IsWritable v =
    (lacks b':' v.epoch ≡ true)
    × (lacks b'-' v.release ≡ true)
    × (has_epoch v ≡ false → lacks b':' (v.version ++ (b'-' ∷ v.release)) ≡ true)
    × (is_empty v.release ≡ true → lacks b'-' v.version ≡ true)

unfoldable pub shown_epoch : Evr → Bytes
shown_epoch v = if has_epoch v then v.epoch else []

shown : Bytes → Bytes → Bytes
shown version release = if is_empty release then version else version ++ (b'-' ∷ release)

split-shown :
    (version release : Bytes)
    → lacks b'-' release ≡ true
    → (is_empty release ≡ true → lacks b'-' version ≡ true)
    → split_release (shown version release) ≡ (version, release)
unfolding split_release shown is_empty
split-shown version [] h k = rw (cut_last-lacks b'-' version (k refl), split_release) refl
split-shown version (c ∷ release) h k =
    rw (cut_last-at b'-' version (c ∷ release) h, split_release) refl

lacks-shown :
    (version release : Bytes)
    → lacks b':' (version ++ (b'-' ∷ release)) ≡ true
    → lacks b':' (shown version release) ≡ true
unfolding shown is_empty lacks
lacks-shown [] [] h = refl
lacks-shown (c ∷ version) [] h = ground (arith, lacks-shown version [])
lacks-shown version (c ∷ release) h = h

string-shown :
    (v : Evr)
    → evr_string v ≡ (
        if has_epoch v
        then v.epoch ++ (b':' ∷ shown v.version v.release)
        else shown v.version v.release)
unfolding evr_string shown
string-shown v = elim (Bool-cases (has_epoch v)) [
  | inl e ↦ elim (Bool-cases (is_empty v.release)) [
    | inl r ↦ ground arith
    | inr r ↦ rw (e, r) (append_assoc v.epoch (b':' ∷ v.version) (b'-' ∷ v.release))
  ]
  | inr e ↦ ground arith
]

split-string :
    (v : Evr)
    → IsWritable v
    → split_epoch (evr_string v) ≡ (shown_epoch v, shown v.version v.release)
unfolding split_epoch shown_epoch
split-string v w = elim (Bool-cases (has_epoch v)) [
  | inl e ↦
      let s = string-shown v in
      ground (arith, s, cut_first-at b':' v.epoch (shown v.version v.release) w.0)
  | inr e ↦
      let s = string-shown v in
      ground (
        arith,
        s,
        cut_first-lacks b':' (shown v.version v.release) (lacks-shown v.version v.release (w.2 e)),
      )
]

parse-string :
    (v : Evr)
    → IsWritable v
    → parse_evr (evr_string v)
      ≡ record { epoch = shown_epoch v; version = v.version; release = v.release }
unfolding parse_evr
parse-string v w = rw (split-string v w) (rw (split-shown v.version v.release w.1 w.3) refl)

int_ltb_irrefl : (z : ℤ) → int_ltb z z ≡ false
unfolding int_ltb
int_ltb_irrefl (pos n) = ground arith
int_ltb_irrefl (negsuc n) = ground arith

or_zero-shown : (v : Evr) → or_zero (shown_epoch v) ≡ or_zero v.epoch
unfolding shown_epoch has_epoch or_zero is_empty
or_zero-shown v = ground (arith, bytes_eq_iff v.epoch (b'0' ∷ []))

same_releases : (v : Evr) → or_next (some equal) (compare_releases v v) ≡ some equal
unfolding compare_releases or_next
same_releases v = ground (arith, vercmp_refl v.release)

-- An Evr none of whose parts holds a separator where it would be read as such is read back from its
-- text with its version and its release, and with its epoch unless that is 0, and what is read
-- compares as equal to it.
pub parse_evr-evr_string :
    (v : Evr)
    → IsWritable v
    → (parse_evr (evr_string v)
        ≡ record { epoch = shown_epoch v; version = v.version; release = v.release })
      × (compare_evr (parse_evr (evr_string v)) v ≡ some equal)
unfolding compare_evr
parse_evr-evr_string v w = (
  parse-string v w,
  rw
      (
        parse-string v w,
        or_zero-shown v,
        int_ltb_irrefl (parse_int (or_zero v.epoch)),
        vercmp_refl v.version,
      )
      (same_releases v),
)
