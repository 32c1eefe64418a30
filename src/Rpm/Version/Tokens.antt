-- ===== src/Rpm/Version/Tokens.antt =====
-- The order of internal/rpm/version.go by an independent description: a version is the list of its
-- tokens, and versions are compared token by token.
use go_fs.Base.{ℕ, zero, suc, true, false, List, [], ◌∷◌, ◌==◌, if◌then◌else◌, length}
use go_fs.Base.Text.{Bytes}
use go_fs.Base.Decimal.{is_digit}
use go_fs.Rpm.Version.{Sign, less, equal, greater, is_alpha, skip, take_run, drop_run, compare_runs}

pub data Token : Type 0 where
  tilde caret : Token
  letters number : Bytes → Token

-- The token at the front of a string that begins with none of the separators, and the rest.
unfoldable pub tokens_from : (Bytes → List Token) → Bytes → List Token
tokens_from more [] = []
tokens_from more (c ∷ s) =
    if c == b'~'
    then tilde ∷ more s
    else if c == b'^'
    then caret ∷ more s
    else if is_digit c
    then number (take_run is_digit (c ∷ s)) ∷ more (drop_run is_digit (c ∷ s))
    else letters (take_run is_alpha (c ∷ s)) ∷ more (drop_run is_alpha (c ∷ s))

unfoldable pub tokens_onto : ℕ → Bytes → List Token
tokens_onto zero s = []
tokens_onto (suc fuel) s = tokens_from (tokens_onto fuel) (skip s)

unfoldable pub tokens : Bytes → List Token
unfolding tokens_onto tokens_from
tokens s = tokens_onto (suc (length s)) s

-- Tilde, end, caret, letters, number, in this order.
unfoldable pub compare_token : Token → Token → Sign
compare_token tilde tilde = equal
compare_token tilde u = less
compare_token caret tilde = greater
compare_token caret caret = equal
compare_token caret u = less
compare_token (letters x) tilde = greater
compare_token (letters x) caret = greater
compare_token (letters x) (letters y) = compare_runs false x y
compare_token (letters x) (number y) = less
compare_token (number x) (number y) = compare_runs true x y
compare_token (number x) u = greater

unfoldable pub compare_end : Token → Sign
compare_end tilde = greater
compare_end u = less

unfoldable pub flip : Sign → Sign
flip less = greater
flip equal = equal
flip greater = less

abbrev pub then_by : Sign → Sign → Sign
then_by less rest = less
then_by equal rest = rest
then_by greater rest = greater

unfoldable pub compare_tokens : List Token → List Token → Sign
compare_tokens [] [] = equal
compare_tokens [] (u ∷ us) = compare_end u
compare_tokens (t ∷ ts) [] = flip (compare_end t)
compare_tokens (t ∷ ts) (u ∷ us) = then_by (compare_token t u) (compare_tokens ts us)
