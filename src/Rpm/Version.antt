-- ===== src/Rpm/Version.antt =====
-- internal/rpm/version.go: versions of packages, and their order. Strings are lists of bytes. The
-- `int` of a comparison is a `Sign`.
pub mod Tokens
pub mod Comparing
pub mod Composing
pub mod Order
pub mod Numbers
use go_fs.Base.{
  ℕ, zero, suc, ◌+◌, ◌-◌, ◌*◌, ◌/◌, ◌%◌, ◌^◌, ◌≤◌, ◌<◌, min, max, ◌≡◌, refl, sym, ap, ◌∙◌, subst,
  ◌≢◌, ◌↔◌, ◌⊎◌, inl, inr, Bool, true, false, not, ◌&&◌, ◌||◌, Option, none, some, List, [], ◌∷◌,
  ◌++◌, map, append-nil, append_assoc, arith, ltb, leb, ◌==◌, if◌then◌else◌, ltb→lt, lt→ltb, ==_iff,
  Bool-cases, Option-cases, length, get_elem?, take, drop, replicate, length-append,
  take-append-drop, length-take, length-drop, take-length-append, take_all, drop_all,
  drop-length-append, All, All-append,
}
use go_fs.Base.Text.{Bytes, codes, bytes_eq, bytes_eq_iff, bytes_eq_refl, is_empty}
use go_fs.Base.Decimal.{is_digit}

pub data Sign : Type 0 where
  less equal greater : Sign

-- `strings.Compare`
unfoldable pub compare_bytes : Bytes → Bytes → Sign
compare_bytes [] [] = equal
compare_bytes [] (y ∷ ys) = less
compare_bytes (x ∷ xs) [] = greater
compare_bytes (x ∷ xs) (y ∷ ys) =
    if ltb x y then less else if ltb y x then greater else compare_bytes xs ys

unfoldable pub is_alpha : ℕ → Bool
is_alpha c = leb b'a' c && leb c b'z' || leb b'A' c && leb c b'Z'

unfoldable pub is_alnum : ℕ → Bool
unfolding is_digit is_alpha
is_alnum c = is_digit c || is_alpha c

-- Separators are skipped, but not the tilde and the caret.
unfoldable pub skip : Bytes → Bytes
skip [] = []
skip (c ∷ s) =
    let rest = skip s in
    if not (is_alnum c) && not (c == b'~') && not (c == b'^') then rest else c ∷ s

-- `len(s) > 0 && s[0] == c`
unfoldable pub leads : ℕ → Bytes → Bool
leads c [] = false
leads c (x ∷ s) = x == c

unfoldable pub tail : Bytes → Bytes
tail [] = []
tail (c ∷ s) = s

-- The run at the front of a string, and what stands behind it.
unfoldable pub take_run : (ℕ → Bool) → Bytes → Bytes
take_run run [] = []
take_run run (c ∷ s) = let rest = take_run run s in if run c then c ∷ rest else []

unfoldable pub drop_run : (ℕ → Bool) → Bytes → Bytes
drop_run run [] = []
drop_run run (c ∷ s) = let rest = drop_run run s in if run c then rest else c ∷ s

-- `strings.TrimLeft(s, "0")`
unfoldable pub trim_zeros : Bytes → Bytes
trim_zeros [] = []
trim_zeros (c ∷ s) = let rest = trim_zeros s in if c == b'0' then rest else c ∷ s

-- Two runs of the same kind.
unfoldable pub compare_runs : Bool → Bytes → Bytes → Sign
compare_runs false one two = compare_bytes one two
compare_runs true one two =
    let one' = trim_zeros one in
    let two' = trim_zeros two in
    if ltb (length two') (length one')
    then greater
    else if ltb (length one') (length two')
    then less
    else compare_bytes one' two'

unfoldable pub starts_numeric : Bytes → Bool
starts_numeric [] = false
starts_numeric (c ∷ s) = is_digit c

-- The `switch` behind the loop.
unfoldable pub compare_ends : Bytes → Bytes → Sign
compare_ends [] [] = equal
compare_ends [] (c ∷ b) = less
compare_ends (c ∷ a) b = greater

-- The rest of the loop goes on where the runs are equal.
unfoldable pub go_on : Sign → Option Sign → Option Sign
go_on equal rest = rest
go_on less rest = some less
go_on greater rest = some greater

-- One round of the loop, behind the separators; `again` is the rounds that follow.
unfoldable pub vercmp_round : (Bytes → Bytes → Option Sign) → Bytes → Bytes → Option Sign
vercmp_round again a b =
    if leads b'~' a || leads b'~' b
    then (if not (leads b'~' a)
        then some greater
        else if not (leads b'~' b)
        then some less
        else again (tail a) (tail b))
    else if leads b'^' a || leads b'^' b
    then (if is_empty a
        then some less
        else if is_empty b
        then some greater
        else if not (leads b'^' a)
        then some greater
        else if not (leads b'^' b)
        then some less
        else again (tail a) (tail b))
    else if is_empty a || is_empty b
    then some (compare_ends a b)
    else let numeric = starts_numeric a in
      let run = if numeric then is_digit else is_alpha in
      let one = take_run run a in
      let two = take_run run b in
      if is_empty two
      then some (if numeric then greater else less)
      else go_on (compare_runs numeric one two) (again (drop_run run a) (drop_run run b))

-- The loop. `none` is out of fuel: every round that goes on takes a byte of each side.
unfoldable pub vercmp_loop : ℕ → Bytes → Bytes → Option Sign
vercmp_loop zero a b = none
vercmp_loop (suc fuel) a b =
    if is_empty a && is_empty b
    then some (compare_ends a b)
    else vercmp_round (vercmp_loop fuel) (skip a) (skip b)

unfoldable pub vercmp : Bytes → Bytes → Option Sign
vercmp a b = if bytes_eq a b then some equal else vercmp_loop (suc (length a + length b)) a b
