-- ===== src/Rpm/Version/Order.antt =====
-- The comparison of internal/rpm/version.go is an order.
use go_fs.Base.{◌≡◌, refl, sym, ap, ◌∙◌, Bool, true, false, some, List, [], ◌∷◌, arith}
use go_fs.Base.Text.{Bytes}
use go_fs.Rpm.Version.{Sign, less, equal, greater, compare_bytes, trim_zeros, compare_runs, vercmp}
use go_fs.Rpm.Version.Tokens.{
  Token, tilde, caret, letters, number, tokens, compare_token, compare_end, flip, then_by,
  compare_tokens,
}
use go_fs.Rpm.Version.Composing.{
  Composed, then_by-Composed, compare_token-Composed, end-between, end-before, end-after,
  around_end, after_end,
}
use go_fs.Rpm.Version.Comparing.{compare_tokens_refl, vercmp-tokens}

compare_bytes-flip : (x y : Bytes) → compare_bytes y x ≡ flip (compare_bytes x y)
unfolding compare_bytes flip
compare_bytes-flip [] [] = refl
compare_bytes-flip [] (d ∷ y) = refl
compare_bytes-flip (c ∷ x) [] = refl
compare_bytes-flip (c ∷ x) (d ∷ y) = ground (arith, compare_bytes-flip x y)

compare_runs-flip :
    (kind : Bool) (x y : Bytes) → compare_runs kind y x ≡ flip (compare_runs kind x y)
unfolding compare_runs flip
compare_runs-flip false x y = compare_bytes-flip x y
compare_runs-flip true x y = ground (arith, compare_bytes-flip (trim_zeros x) (trim_zeros y))

compare_token-flip : (t u : Token) → compare_token u t ≡ flip (compare_token t u)
unfolding compare_token flip
compare_token-flip (letters x) (letters y) = compare_runs-flip false x y
compare_token-flip (number x) (number y) = compare_runs-flip true x y
compare_token-flip tilde tilde = refl
compare_token-flip tilde caret = refl
compare_token-flip tilde (letters y) = refl
compare_token-flip tilde (number y) = refl
compare_token-flip caret tilde = refl
compare_token-flip caret caret = refl
compare_token-flip caret (letters y) = refl
compare_token-flip caret (number y) = refl
compare_token-flip (letters x) tilde = refl
compare_token-flip (letters x) caret = refl
compare_token-flip (letters x) (number y) = refl
compare_token-flip (number x) tilde = refl
compare_token-flip (number x) caret = refl
compare_token-flip (number x) (letters y) = refl

pub flip-then_by : (s t : Sign) → flip (then_by s t) ≡ then_by (flip s) (flip t)
unfolding flip
flip-then_by less t = refl
flip-then_by equal t = refl
flip-then_by greater t = refl

flip-flip : (s : Sign) → flip (flip s) ≡ s
unfolding flip
flip-flip less = refl
flip-flip equal = refl
flip-flip greater = refl

pub compare_tokens-flip : (ts us : List Token) → compare_tokens us ts ≡ flip (compare_tokens ts us)
unfolding compare_tokens
compare_tokens-flip [] [] = unfold flip in refl
compare_tokens-flip [] (u ∷ us) = refl
compare_tokens-flip (t ∷ ts) [] = sym (flip-flip (compare_end t))
compare_tokens-flip (t ∷ ts) (u ∷ us) =
    rw
      (
        flip-then_by (compare_token t u) (compare_tokens ts us),
        compare_token-flip t u,
        compare_tokens-flip ts us,
      )
      refl

pub compare_tokens-Composed :
    (ts us vs : List Token)
    → Composed (compare_tokens ts us) (compare_tokens us vs) (compare_tokens ts vs)
unfolding compare_tokens
compare_tokens-Composed [] [] vs = refl
compare_tokens-Composed [] (u ∷ us) [] = around_end u
compare_tokens-Composed [] (u ∷ us) (v ∷ vs) = end-before u v (compare_tokens us vs)
compare_tokens-Composed (t ∷ ts) [] [] = after_end t
compare_tokens-Composed (t ∷ ts) [] (v ∷ vs) = end-between t v (compare_tokens ts vs)
compare_tokens-Composed (t ∷ ts) (u ∷ us) [] = end-after t u (compare_tokens ts us)
compare_tokens-Composed (t ∷ ts) (u ∷ us) (v ∷ vs) =
    then_by-Composed (compare_token t u) (compare_tokens ts us) (compare_token u v)
      (compare_tokens us vs) (compare_token t v) (compare_tokens ts vs)
      (compare_token-Composed t u v) (compare_tokens-Composed ts us vs)

pub vercmp_refl : (a : Bytes) → vercmp a a ≡ some equal
vercmp_refl a = vercmp-tokens a a ∙ ap some (compare_tokens_refl (tokens a))

-- vercmp is an order: it always ends, with equal on one version and the opposite sign on exchanged
-- versions, and it is transitive: less than something not greater is less, greater than something
-- not less is greater, and what is equal to a version compares as it does.
pub vercmp_order :
    (a b c : Bytes)
    → (s t r : Sign) × (vercmp a b ≡ some s)
      × (vercmp b c ≡ some t)
      × (vercmp a c ≡ some r)
      × (vercmp a a ≡ some equal)
      × (vercmp b a ≡ some (flip s))
      × Composed s t r
vercmp_order a b c = (
  compare_tokens (tokens a) (tokens b),
  compare_tokens (tokens b) (tokens c),
  compare_tokens (tokens a) (tokens c),
  vercmp-tokens a b,
  vercmp-tokens b c,
  vercmp-tokens a c,
  vercmp_refl a,
  vercmp-tokens b a ∙ ap some (compare_tokens-flip (tokens a) (tokens b)),
  compare_tokens-Composed (tokens a) (tokens b) (tokens c),
)
