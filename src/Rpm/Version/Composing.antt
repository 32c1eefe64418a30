-- ===== src/Rpm/Version/Composing.antt =====
-- Comparisons of internal/rpm/version.go put one behind the other: the cases of transitivity.
use go_fs.Base.{◌≡◌, refl, Bool, true, false, [], ◌∷◌, arith}
use go_fs.Base.Text.{Bytes}
use go_fs.Rpm.Version.{Sign, less, equal, greater, compare_bytes, trim_zeros, compare_runs}
use go_fs.Rpm.Version.Tokens.{
  Token, tilde, caret, letters, number, compare_token, compare_end, flip, then_by,
}

-- The comparison of x and z, where that of x and y is s and that of y and z is t.
abbrev pub Composed : Sign → Sign → Sign → Type 0
Composed less less r = r ≡ less
Composed less equal r = r ≡ less
Composed less greater r = Unit
Composed equal t r = r ≡ t
Composed greater greater r = r ≡ greater
Composed greater equal r = r ≡ greater
Composed greater less r = Unit

compare_bytes-Composed :
    (x y z : Bytes) → Composed (compare_bytes x y) (compare_bytes y z) (compare_bytes x z)
unfolding compare_bytes
compare_bytes-Composed [] [] z = refl
compare_bytes-Composed [] (d ∷ y) [] = tt
compare_bytes-Composed [] (d ∷ y) (e ∷ z) = ground arith
compare_bytes-Composed (c ∷ x) [] [] = refl
compare_bytes-Composed (c ∷ x) [] (e ∷ z) = tt
compare_bytes-Composed (c ∷ x) (d ∷ y) [] = ground arith
compare_bytes-Composed (c ∷ x) (d ∷ y) (e ∷ z) = ground (arith, compare_bytes-Composed x y z)

pub compare_runs-Composed :
    (kind : Bool) (x y z : Bytes)
    → Composed (compare_runs kind x y) (compare_runs kind y z) (compare_runs kind x z)
unfolding compare_runs
compare_runs-Composed false x y z = compare_bytes-Composed x y z
compare_runs-Composed true x y z =
    ground (arith, compare_bytes-Composed (trim_zeros x) (trim_zeros y) (trim_zeros z))

pub compare_token-Composed :
    (t u v : Token) → Composed (compare_token t u) (compare_token u v) (compare_token t v)
unfolding compare_token
compare_token-Composed tilde tilde v = refl
compare_token-Composed tilde caret tilde = tt
compare_token-Composed tilde caret caret = refl
compare_token-Composed tilde caret (letters z) = refl
compare_token-Composed tilde caret (number z) = refl
compare_token-Composed tilde (letters y) tilde = tt
compare_token-Composed tilde (letters y) caret = tt
compare_token-Composed tilde (letters y) (letters z) = ground arith
compare_token-Composed tilde (letters y) (number z) = refl
compare_token-Composed tilde (number y) tilde = tt
compare_token-Composed tilde (number y) caret = tt
compare_token-Composed tilde (number y) (letters z) = tt
compare_token-Composed tilde (number y) (number z) = ground arith
compare_token-Composed caret tilde tilde = refl
compare_token-Composed caret tilde caret = tt
compare_token-Composed caret tilde (letters z) = tt
compare_token-Composed caret tilde (number z) = tt
compare_token-Composed caret caret v = refl
compare_token-Composed caret (letters y) tilde = tt
compare_token-Composed caret (letters y) caret = tt
compare_token-Composed caret (letters y) (letters z) = ground arith
compare_token-Composed caret (letters y) (number z) = refl
compare_token-Composed caret (number y) tilde = tt
compare_token-Composed caret (number y) caret = tt
compare_token-Composed caret (number y) (letters z) = tt
compare_token-Composed caret (number y) (number z) = ground arith
compare_token-Composed (letters x) tilde tilde = refl
compare_token-Composed (letters x) tilde caret = tt
compare_token-Composed (letters x) tilde (letters z) = tt
compare_token-Composed (letters x) tilde (number z) = tt
compare_token-Composed (letters x) caret tilde = refl
compare_token-Composed (letters x) caret caret = refl
compare_token-Composed (letters x) caret (letters z) = tt
compare_token-Composed (letters x) caret (number z) = tt
compare_token-Composed (letters x) (letters y) tilde = ground arith
compare_token-Composed (letters x) (letters y) caret = ground arith
compare_token-Composed (letters x) (letters y) (letters z) = compare_runs-Composed false x y z
compare_token-Composed (letters x) (letters y) (number z) = ground arith
compare_token-Composed (letters x) (number y) tilde = tt
compare_token-Composed (letters x) (number y) caret = tt
compare_token-Composed (letters x) (number y) (letters z) = tt
compare_token-Composed (letters x) (number y) (number z) = ground arith
compare_token-Composed (number x) tilde tilde = refl
compare_token-Composed (number x) tilde caret = tt
compare_token-Composed (number x) tilde (letters z) = tt
compare_token-Composed (number x) tilde (number z) = tt
compare_token-Composed (number x) caret tilde = refl
compare_token-Composed (number x) caret caret = refl
compare_token-Composed (number x) caret (letters z) = tt
compare_token-Composed (number x) caret (number z) = tt
compare_token-Composed (number x) (letters y) tilde = refl
compare_token-Composed (number x) (letters y) caret = refl
compare_token-Composed (number x) (letters y) (letters z) = ground arith
compare_token-Composed (number x) (letters y) (number z) = tt
compare_token-Composed (number x) (number y) tilde = ground arith
compare_token-Composed (number x) (number y) caret = ground arith
compare_token-Composed (number x) (number y) (letters z) = ground arith
compare_token-Composed (number x) (number y) (number z) = compare_runs-Composed true x y z

pub then_by-Composed :
    (s s' t t' r r' : Sign)
    → Composed s t r
    → Composed s' t' r'
    → Composed (then_by s s') (then_by t t') (then_by r r')
then_by-Composed less s' less t' r r' p q = rw p refl
then_by-Composed less s' equal t' r r' p q = rw p (after_less t')
  where
    after_less : (t' : Sign) → Composed less t' less
    after_less less = refl
    after_less equal = refl
    after_less greater = tt
then_by-Composed less s' greater t' r r' p q = tt
then_by-Composed equal s' less t' r r' p q = rw p (before_less s')
  where
    before_less : (s' : Sign) → Composed s' less less
    before_less less = refl
    before_less equal = refl
    before_less greater = tt
then_by-Composed equal s' equal t' r r' p q = rw p q
then_by-Composed equal s' greater t' r r' p q = rw p (before_greater s')
  where
    before_greater : (s' : Sign) → Composed s' greater greater
    before_greater less = tt
    before_greater equal = refl
    before_greater greater = refl
then_by-Composed greater s' less t' r r' p q = tt
then_by-Composed greater s' equal t' r r' p q = rw p (after_greater t')
  where
    after_greater : (t' : Sign) → Composed greater t' greater
    after_greater less = tt
    after_greater equal = refl
    after_greater greater = refl
then_by-Composed greater s' greater t' r r' p q = rw p refl

-- The end of a version among its tokens.
pub end-between :
    (t v : Token) (r : Sign)
    → Composed (flip (compare_end t)) (compare_end v) (then_by (compare_token t v) r)
unfolding flip compare_end compare_token
end-between tilde tilde r = tt
end-between tilde caret r = refl
end-between tilde (letters y) r = refl
end-between tilde (number y) r = refl
end-between caret tilde r = refl
end-between caret caret r = tt
end-between caret (letters y) r = tt
end-between caret (number y) r = tt
end-between (letters x) tilde r = refl
end-between (letters x) caret r = tt
end-between (letters x) (letters y) r = tt
end-between (letters x) (number y) r = tt
end-between (number x) tilde r = refl
end-between (number x) caret r = tt
end-between (number x) (letters y) r = tt
end-between (number x) (number y) r = tt

pub end-before :
    (u v : Token) (r : Sign)
    → Composed (compare_end u) (then_by (compare_token u v) r) (compare_end v)
unfolding compare_end compare_token compare_runs compare_bytes
end-before tilde tilde r = ground arith
end-before tilde caret r = tt
end-before tilde (letters y) r = tt
end-before tilde (number y) r = tt
end-before caret tilde r = tt
end-before caret caret r = ground arith
end-before caret (letters y) r = refl
end-before caret (number y) r = refl
end-before (letters x) tilde r = tt
end-before (letters x) caret r = tt
end-before (letters x) (letters y) r = ground arith
end-before (letters x) (number y) r = refl
end-before (number x) tilde r = tt
end-before (number x) caret r = tt
end-before (number x) (letters y) r = tt
end-before (number x) (number y) r = ground arith

pub end-after :
    (t u : Token) (r : Sign)
    → Composed (then_by (compare_token t u) r) (flip (compare_end u)) (flip (compare_end t))
unfolding compare_end compare_token flip
end-after tilde tilde r = ground arith
end-after tilde caret r = tt
end-after tilde (letters y) r = tt
end-after tilde (number y) r = tt
end-after caret tilde r = tt
end-after caret caret r = ground arith
end-after caret (letters y) r = tt
end-after caret (number y) r = tt
end-after (letters x) tilde r = tt
end-after (letters x) caret r = refl
end-after (letters x) (letters y) r = ground arith
end-after (letters x) (number y) r = tt
end-after (number x) tilde r = tt
end-after (number x) caret r = refl
end-after (number x) (letters y) r = refl
end-after (number x) (number y) r = ground arith

pub around_end : (u : Token) → Composed (compare_end u) (flip (compare_end u)) equal
unfolding compare_end flip
around_end tilde = tt
around_end caret = tt
around_end (letters x) = tt
around_end (number x) = tt

pub after_end : (t : Token) → Composed (flip (compare_end t)) equal (flip (compare_end t))
unfolding compare_end flip
after_end tilde = refl
after_end caret = refl
after_end (letters x) = refl
after_end (number x) = refl
