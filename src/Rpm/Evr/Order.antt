-- ===== src/Rpm/Evr/Order.antt =====
-- internal/rpm/version.go: the order of Evrs.
use go_fs.Base.{◌≡◌, refl, sym, ap, ◌∙◌, false, ◌||◌, some, arith, if◌then◌else◌}
use mathlib.Core.Path.{ap₂}
use go_fs.Base.Integers.{ℤ, pos, negsuc, int_ltb}
use go_fs.Base.Text.{is_empty}
use go_fs.Rpm.Version.{Sign, less, equal, greater}
use go_fs.Rpm.Version.Tokens.{tokens, flip, then_by, compare_tokens}
use go_fs.Rpm.Version.Comparing.{vercmp-tokens}
use go_fs.Rpm.Version.Composing.{Composed, then_by-Composed}
use go_fs.Rpm.Version.Order.{compare_tokens-flip, compare_tokens-Composed, flip-then_by}
use go_fs.Rpm.Evr.{Evr, or_zero, parse_int, or_next, compare_releases, compare_evr}

compare_ints : ℤ → ℤ → Sign
compare_ints x y = if int_ltb x y then less else if int_ltb y x then greater else equal

compare_ints-flip : (x y : ℤ) → compare_ints y x ≡ flip (compare_ints x y)
unfolding compare_ints int_ltb flip
compare_ints-flip (pos m) (pos n) = ground arith
compare_ints-flip (pos m) (negsuc n) = ground arith
compare_ints-flip (negsuc m) (pos n) = ground arith
compare_ints-flip (negsuc m) (negsuc n) = ground arith

compare_ints-Composed :
    (x y z : ℤ) → Composed (compare_ints x y) (compare_ints y z) (compare_ints x z)
unfolding compare_ints int_ltb
compare_ints-Composed (pos m) (pos n) (pos k) = ground arith
compare_ints-Composed (pos m) (pos n) (negsuc k) = ground arith
compare_ints-Composed (pos m) (negsuc n) (pos k) = ground arith
compare_ints-Composed (pos m) (negsuc n) (negsuc k) = ground arith
compare_ints-Composed (negsuc m) (pos n) (pos k) = ground arith
compare_ints-Composed (negsuc m) (pos n) (negsuc k) = ground arith
compare_ints-Composed (negsuc m) (negsuc n) (pos k) = ground arith
compare_ints-Composed (negsuc m) (negsuc n) (negsuc k) = ground arith

epoch_of : Evr → ℤ
epoch_of v = parse_int (or_zero v.epoch)

of_releases : Evr → Evr → Sign
of_releases a b =
    if is_empty a.release || is_empty b.release
    then equal
    else compare_tokens (tokens a.release) (tokens b.release)

within : Evr → Evr → Sign
within a b = then_by (compare_tokens (tokens a.version) (tokens b.version)) (of_releases a b)

-- Epoch, then version, then release.
ordered : Evr → Evr → Sign
ordered a b = then_by (compare_ints (epoch_of a) (epoch_of b)) (within a b)

releases-flip : (a b : Evr) → flip (of_releases a b) ≡ of_releases b a
unfolding of_releases flip
releases-flip a b = ground (arith, compare_tokens-flip (tokens a.release) (tokens b.release))

releases-Composed :
    (a b c : Evr)
    → (is_empty a.release || is_empty b.release || is_empty c.release) ≡ false
    → Composed (of_releases a b) (of_releases b c) (of_releases a c)
unfolding of_releases
releases-Composed a b c h =
    ground (arith, compare_tokens-Composed (tokens a.release) (tokens b.release) (tokens c.release))

compare_releases-ordered : (a b : Evr) → compare_releases a b ≡ some (of_releases a b)
unfolding compare_releases of_releases
compare_releases-ordered a b = ground (arith, vercmp-tokens a.release b.release)

or_next-then_by : (s t : Sign) → or_next (some s) (some t) ≡ some (then_by s t)
unfolding or_next
or_next-then_by less t = refl
or_next-then_by equal t = refl
or_next-then_by greater t = refl

compare-ordered : (a b : Evr) → compare_evr a b ≡ some (ordered a b)
unfolding compare_evr ordered within epoch_of compare_ints
compare-ordered a b =
    rw (compare_releases-ordered a b, vercmp-tokens a.version b.version)
      (ground (
        arith,
        or_next-then_by (compare_tokens (tokens a.version) (tokens b.version)) (of_releases a b),
      ))

ordered-flip : (a b : Evr) → ordered b a ≡ flip (ordered a b)
unfolding ordered within
ordered-flip a b = sym (
    flip-then_by (compare_ints (epoch_of a) (epoch_of b)) (within a b)
    ∙ ap₂ then_by (sym (compare_ints-flip (epoch_of a) (epoch_of b))) (
        flip-then_by (compare_tokens (tokens a.version) (tokens b.version)) (of_releases a b)
        ∙ ap₂ then_by (sym (compare_tokens-flip (tokens a.version) (tokens b.version)))
            (releases-flip a b)))

ordered-Composed :
    (a b c : Evr)
    → (is_empty a.release || is_empty b.release || is_empty c.release) ≡ false
    → Composed (ordered a b) (ordered b c) (ordered a c)
unfolding ordered of_releases within
ordered-Composed a b c h =
    then_by-Composed (compare_ints (epoch_of a) (epoch_of b)) (within a b)
      (compare_ints (epoch_of b) (epoch_of c)) (within b c) (compare_ints (epoch_of a) (epoch_of c))
      (within a c) (compare_ints-Composed (epoch_of a) (epoch_of b) (epoch_of c))
      (then_by-Composed (compare_tokens (tokens a.version) (tokens b.version)) (of_releases a b)
        (compare_tokens (tokens b.version) (tokens c.version)) (of_releases b c)
        (compare_tokens (tokens a.version) (tokens c.version)) (of_releases a c)
        (compare_tokens-Composed (tokens a.version) (tokens b.version) (tokens c.version))
        (releases-Composed a b c h))

-- Two Evrs have an order, and the opposite one where they are exchanged.
pub compare_evr-flip :
    (a b : Evr) → (s : Sign) × (compare_evr a b ≡ some s) × (compare_evr b a ≡ some (flip s))
compare_evr-flip a b =
    (ordered a b, compare-ordered a b, compare-ordered b a ∙ ap some (ordered-flip a b))

-- Among Evrs with a release the order is transitive, as that of versions is.
pub compare_evr_order :
    (a b c : Evr)
    → (is_empty a.release || is_empty b.release || is_empty c.release) ≡ false
    → (s t r : Sign) × (compare_evr a b ≡ some s)
      × (compare_evr b c ≡ some t)
      × (compare_evr a c ≡ some r)
      × Composed s t r
compare_evr_order a b c h = (
  ordered a b,
  ordered b c,
  ordered a c,
  compare-ordered a b,
  compare-ordered b c,
  compare-ordered a c,
  ordered-Composed a b c h,
)
