-- ===== src/Rpm/Evr.antt =====
-- internal/rpm/version.go: epoch, version and release of a package. The field `Version` of the source
-- is `version`; an int64 is an integer ℤ.
pub mod Order
pub mod Printing
use go_fs.Base.{
  ℕ, zero, suc, ◌+◌, ◌-◌, ◌*◌, ◌/◌, ◌%◌, ◌^◌, ◌≤◌, ◌<◌, min, max, ◌≡◌, refl, sym, ap, ◌∙◌, subst,
  ◌≢◌, ◌↔◌, ◌⊎◌, inl, inr, Bool, true, false, not, ◌&&◌, ◌||◌, Option, none, some, List, [], ◌∷◌,
  ◌++◌, map, append-nil, append_assoc, arith, ltb, leb, ◌==◌, if◌then◌else◌, ltb→lt, lt→ltb, ==_iff,
  Bool-cases, Option-cases, length, get_elem?, take, drop, replicate, length-append,
  take-append-drop, length-take, length-drop, take-length-append, take_all, drop_all,
  drop-length-append, All, All-append,
}
use go_fs.Base.Text.{Bytes, codes, bytes_eq, bytes_eq_iff, bytes_eq_refl, is_empty}
use mathlib.Core.Option
use go_fs.Base.Integers.{ℤ, pos, negsuc, negated, int_ltb}
use go_fs.Base.Decimal.{is_digit}
use go_fs.Rpm.Version.{Sign, less, equal, greater, vercmp}

pub record Evr : Type 0 where
  pub epoch : Bytes
  pub version : Bytes
  pub release : Bytes

-- `strings.IndexByte`: what stands before the first c and behind it.
unfoldable pub cut_first : ℕ → Bytes → Option (Bytes × Bytes)
cut_first c [] = none
cut_first c (x ∷ s) =
    if x == c then some ([], s) else Option.map (λ p. (x ∷ p.0, p.1)) (cut_first c s)

-- `strings.LastIndexByte`, in the same way.
unfoldable pub cut_last : ℕ → Bytes → Option (Bytes × Bytes)
cut_last c [] = none
cut_last c (x ∷ s) = elim (cut_last c s) [
  | some p ↦ some (x ∷ p.0, p.1)
  | none ↦ if x == c then some ([], s) else none
]

-- The epoch of a text, and the rest.
unfoldable pub split_epoch : Bytes → Bytes × Bytes
unfolding cut_first
split_epoch s = elim (cut_first b':' s) [ some p ↦ p | none ↦ ([], s) ]

unfoldable pub split_release : Bytes → Bytes × Bytes
unfolding cut_last
split_release s = elim (cut_last b'-' s) [ some p ↦ p | none ↦ (s, []) ]

unfoldable pub parse_evr : Bytes → Evr
unfolding split_epoch split_release
parse_evr s =
    let e = split_epoch s in
    let v = split_release (e.1) in record { epoch = e.0; version = v.0; release = v.1 }

-- `v.Epoch != "" && v.Epoch != "0"`
unfoldable pub has_epoch : Evr → Bool
has_epoch v = not (is_empty v.epoch) && not (bytes_eq v.epoch (b'0' ∷ []))

unfoldable pub evr_string : Evr → Bytes
unfolding has_epoch
evr_string v =
    let s = if has_epoch v then v.epoch ++ (b':' ∷ v.version) else v.version in
    if is_empty v.release then s else s ++ (b'-' ∷ v.release)

unfoldable pub or_zero : Bytes → Bytes
or_zero s = if is_empty s then b'0' ∷ [] else s

-- The digits of `strconv.ParseUint(s, 10, 64)` behind those that wrote n: the value and whether an
-- error other than a range error stopped it, which makes it `none`. The first digit that leaves 64
-- bits stops it with the largest number.
unfoldable pub parse_uint : ℕ → Bytes → Option ℕ
parse_uint n [] = some n
parse_uint n (c ∷ s) =
    let more = parse_uint (n * 10 + (c - b'0')) s in
    if not (is_digit c)
    then none
    else if leb (2 ^ 64) (n * 10 + (c - b'0'))
    then some (2 ^ 64 - 1)
    else more

-- `strconv.ParseInt(s, 10, 64)` with its error left aside: 0 on bad syntax, and the nearest int64
-- where the value is out of range.
unfoldable pub parse_magnitude : Bytes → Option ℕ
parse_magnitude [] = none
parse_magnitude (c ∷ s) = parse_uint 0 (c ∷ s)

unfoldable pub clamp_positive : Option ℕ → ℤ
clamp_positive none = pos 0
clamp_positive (some n) = pos (min n (2 ^ 63 - 1))

unfoldable pub clamp_negative : Option ℕ → ℤ
clamp_negative none = pos 0
clamp_negative (some n) = negated (min n (2 ^ 63))

unfoldable pub parse_int : Bytes → ℤ
unfolding parse_magnitude clamp_positive clamp_negative
parse_int [] = pos 0
parse_int (c ∷ s) =
    if c == b'-'
    then clamp_negative (parse_magnitude s)
    else if c == b'+'
    then clamp_positive (parse_magnitude s)
    else clamp_positive (parse_magnitude (c ∷ s))

-- The release, where it is compared.
unfoldable pub compare_releases : Evr → Evr → Option Sign
compare_releases a b =
    if is_empty a.release || is_empty b.release then some equal else vercmp a.release b.release

-- The next comparison decides where this one finds no difference.
unfoldable pub or_next : Option Sign → Option Sign → Option Sign
or_next (some equal) next = next
or_next (some less) next = some less
or_next (some greater) next = some greater
or_next none next = none

unfoldable pub compare_evr : Evr → Evr → Option Sign
unfolding compare_releases or_next
compare_evr a b =
    let ea = parse_int (or_zero a.epoch) in
    let eb = parse_int (or_zero b.epoch) in
    if int_ltb ea eb
    then some less
    else if int_ltb eb ea
    then some greater
    else or_next (vercmp a.version b.version) (compare_releases a b)
