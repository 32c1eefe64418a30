-- ===== src/Rpm/Version/Comparing.antt =====
-- The comparison of internal/rpm/version.go is that of the tokens.
use go_fs.Base.{
  ℕ, zero, suc, ◌+◌, ◌≤◌, ◌<◌, ◌≡◌, refl, sym, ap, ◌∙◌, ◌⊎◌, inl, inr, Bool, true, false, not, ◌&&◌,
  Option, some, List, [], ◌∷◌, arith, ◌==◌, Bool-cases, length,
}
use go_fs.Base.Text.{Bytes, bytes_eq, bytes_eq_iff, is_empty}
use go_fs.Base.Decimal.{is_digit}
use go_fs.Rpm.Version.{
  Sign, equal, compare_bytes, is_alpha, is_alnum, skip, leads, tail, take_run, drop_run, trim_zeros,
  compare_runs, starts_numeric, compare_ends, go_on, vercmp_round, vercmp_loop, vercmp,
}
use go_fs.Rpm.Version.Tokens.{
  Token, tilde, caret, letters, number, tokens_from, tokens_onto, tokens, compare_token,
  compare_end, flip, then_by, compare_tokens,
}

length-drop_run : (run : ℕ → Bool) (s : Bytes) → length (drop_run run s) ≤ length s
unfolding drop_run
length-drop_run run [] = omega arith
length-drop_run run (c ∷ s) = ground (arith, length-drop_run run s)

length-skip : (s : Bytes) → length (skip s) ≤ length s
unfolding skip
length-skip [] = omega arith
length-skip (c ∷ s) = ground (arith, length-skip s)

-- A string that starts with no separator.
abbrev IsSkipped : Bytes → Type 0
IsSkipped [] = Unit
IsSkipped (c ∷ s) = (not (is_alnum c) && not (c == b'~') && not (c == b'^')) ≡ false

skip-IsSkipped : (s : Bytes) → IsSkipped (skip s)
unfolding skip
skip-IsSkipped [] = tt
skip-IsSkipped (c ∷ s) =
    elim (Bool-cases (not (is_alnum c) && not (c == b'~') && not (c == b'^'))) [
      | inl e ↦ rw e (skip-IsSkipped s)
      | inr e ↦ rw e e
    ]

-- What the first byte behind the separators can be.
abbrev Tilde : ℕ → Type 0
Tilde c = (c == b'~') ≡ true

abbrev Caret : ℕ → Type 0
Caret c = ((c == b'~') ≡ false) × ((c == b'^') ≡ true)

abbrev Digit : ℕ → Type 0
Digit c = ((c == b'~') ≡ false) × ((c == b'^') ≡ false) × (is_digit c ≡ true) × (is_alpha c ≡ false)

abbrev Letter : ℕ → Type 0
Letter c =
    ((c == b'~') ≡ false) × ((c == b'^') ≡ false) × (is_digit c ≡ false) × (is_alpha c ≡ true)

digit_not_alpha : (c : ℕ) → is_digit c ≡ true → is_alpha c ≡ false
unfolding is_digit is_alpha
digit_not_alpha c h = ground arith

head_cases :
    (c : ℕ)
    → (not (is_alnum c) && not (c == b'~') && not (c == b'^')) ≡ false
    → Tilde c ⊎ (Caret c ⊎ (Digit c ⊎ Letter c))
unfolding is_alnum
head_cases c h = elim (Bool-cases (c == b'~')) [
  | inl t ↦ inl t
  | inr t ↦ elim (Bool-cases (c == b'^')) [
    | inl u ↦ inr (inl (t, u))
    | inr u ↦ elim (Bool-cases (is_digit c)) [
      | inl v ↦ inr (inr (inl (t, u, v, digit_not_alpha c v)))
      | inr v ↦ inr (inr (inr (t, u, v, ground arith)))
    ]
  ]
]

run_front :
    (run : ℕ → Bool) (c : ℕ) (s : Bytes)
    → run c ≡ true
    → (take_run run (c ∷ s) ≡ c ∷ take_run run s) × (drop_run run (c ∷ s) ≡ drop_run run s)
unfolding take_run drop_run
run_front run c s h = rw h (refl, refl)

run_none : (run : ℕ → Bool) (c : ℕ) (s : Bytes) → run c ≡ false → take_run run (c ∷ s) ≡ []
unfolding take_run
run_none run c s h = rw h refl

-- A run of one kind on both sides.
runs_on :
    (again : Bytes → Bytes → Option Sign) (more : Bytes → List Token) (kind : Bool)
    (x y a b : Bytes)
    → again a b ≡ some (compare_tokens (more a) (more b))
    → go_on (compare_runs kind x y) (again a b)
      ≡ some (then_by (compare_runs kind x y) (compare_tokens (more a) (more b)))
unfolding go_on
runs_on again more kind x y a b h = ground arith

module _ (again : Bytes → Bytes → Option Sign) (more : Bytes → List Token) where
  -- The next rounds agree with the tokens of what is left, wherever it is shorter.
  abbrev Agrees : ℕ → Type 0
  Agrees n = (a b : Bytes) → length a < n → again a b ≡ some (compare_tokens (more a) (more b))

  round-tokens :
      (a b : Bytes)
      → IsSkipped a
      → IsSkipped b
      → Agrees (length a)
      → vercmp_round again a b ≡ some (compare_tokens (tokens_from more a) (tokens_from more b))
  unfolding vercmp_round tokens_from compare_tokens compare_token compare_end flip leads is_empty
      tail starts_numeric compare_ends
  round-tokens [] [] p q ih = refl
  round-tokens [] (d ∷ b) p q ih = ground arith
  round-tokens (c ∷ a) [] p q ih = ground arith
  round-tokens (c ∷ a) (d ∷ b) p q ih = elim (head_cases c p) [
    | inl k ↦ elim (head_cases d q) [
      | inl l ↦ ground (arith, ih a b)
      | inr (inl l) ↦ ground arith
      | inr (inr (inl l)) ↦ ground arith
      | inr (inr (inr l)) ↦ ground arith
    ]
    | inr (inl k) ↦ elim (head_cases d q) [
      | inl l ↦ ground arith
      | inr (inl l) ↦ ground (arith, ih a b)
      | inr (inr (inl l)) ↦ ground arith
      | inr (inr (inr l)) ↦ ground arith
    ]
    | inr (inr (inl k)) ↦ elim (head_cases d q) [
      | inl l ↦ ground arith
      | inr (inl l) ↦ ground arith
      | inr (inr (inl l)) ↦
          let fa = run_front is_digit c a k.2 in
          let fb = run_front is_digit d b l.2 in
          let ih' =
            ih (drop_run is_digit (c ∷ a)) (drop_run is_digit (d ∷ b))
              (omega (arith, ap length fa.1, length-drop_run is_digit a)) in
          ground (
            arith,
            fb.0,
            runs_on again more true (take_run is_digit (c ∷ a)) (take_run is_digit (d ∷ b))
                (drop_run is_digit (c ∷ a)) (drop_run is_digit (d ∷ b)) ih',
          )
      | inr (inr (inr l)) ↦ ground (arith, run_none is_digit d b l.2)
    ]
    | inr (inr (inr k)) ↦ elim (head_cases d q) [
      | inl l ↦ ground arith
      | inr (inl l) ↦ ground arith
      | inr (inr (inl l)) ↦ ground (arith, run_none is_alpha d b l.3)
      | inr (inr (inr l)) ↦
          let fa = run_front is_alpha c a k.3 in
          let fb = run_front is_alpha d b l.3 in
          let ih' =
            ih (drop_run is_alpha (c ∷ a)) (drop_run is_alpha (d ∷ b))
              (omega (arith, ap length fa.1, length-drop_run is_alpha a)) in
          ground (
            arith,
            fb.0,
            runs_on again more false (take_run is_alpha (c ∷ a)) (take_run is_alpha (d ∷ b))
                (drop_run is_alpha (c ∷ a)) (drop_run is_alpha (d ∷ b)) ih',
          )
    ]
  ]

loop-tokens :
    (n : ℕ) (a b : Bytes)
    → length a < n
    → vercmp_loop n a b ≡ some (compare_tokens (tokens_onto n a) (tokens_onto n b))
unfolding vercmp_loop tokens_onto
loop-tokens zero a b h = ground arith
loop-tokens (suc n) a b h = elim (Bool-cases (is_empty a && is_empty b)) [
  | inl e ↦ rw e (both_empty n a b e)
  | inr e ↦ rw e (
      round-tokens (vercmp_loop n) (tokens_onto n) (skip a) (skip b) (skip-IsSkipped a)
        (skip-IsSkipped b) (λ x y l. loop-tokens n x y (omega (arith, length-skip a, h, l))))
]
  where
    both_empty :
        (n : ℕ) (a b : Bytes)
        → (is_empty a && is_empty b) ≡ true
        → some (compare_ends a b)
          ≡ some (compare_tokens (tokens_onto (suc n) a) (tokens_onto (suc n) b))
    both_empty n [] [] e = unfold is_empty compare_ends skip tokens_from compare_tokens in refl
    both_empty n [] (c ∷ b) e = unfold is_empty in cc
    both_empty n (c ∷ a) b e = unfold is_empty in cc

tokens_from-more :
    (more more' : Bytes → List Token) (s : Bytes)
    → IsSkipped s
    → ((x : Bytes) → length x < length s → more x ≡ more' x)
    → tokens_from more s ≡ tokens_from more' s
unfolding tokens_from
tokens_from-more more more' [] p h = refl
tokens_from-more more more' (c ∷ s) p h = elim (head_cases c p) [
  | inl k ↦ ground (arith, h s)
  | inr (inl k) ↦ ground (arith, h s)
  | inr (inr (inl k)) ↦
      let e = run_front is_digit c s k.2 in
      ground (
        arith,
        h (drop_run is_digit (c ∷ s)) (omega (arith, ap length e.1, length-drop_run is_digit s)),
      )
  | inr (inr (inr k)) ↦
      let e = run_front is_alpha c s k.3 in
      ground (
        arith,
        h (drop_run is_alpha (c ∷ s)) (omega (arith, ap length e.1, length-drop_run is_alpha s)),
      )
]

-- Any fuel above the length gives the same tokens.
tokens_onto-fuel :
    (n m : ℕ) (s : Bytes) → length s < n → length s < m → tokens_onto n s ≡ tokens_onto m s
unfolding tokens_onto
tokens_onto-fuel zero m s h k = ground arith
tokens_onto-fuel (suc n) zero s h k = ground arith
tokens_onto-fuel (suc n) (suc m) s h k =
    tokens_from-more (tokens_onto n) (tokens_onto m) (skip s) (skip-IsSkipped s) (λ x l.
      tokens_onto-fuel n m x (omega (arith, length-skip s, h, l))
        (omega (arith, length-skip s, k, l)))

compare_bytes_refl : (x : Bytes) → compare_bytes x x ≡ equal
unfolding compare_bytes
compare_bytes_refl [] = refl
compare_bytes_refl (c ∷ x) = ground (arith, compare_bytes_refl x)

compare_runs_refl : (kind : Bool) (x : Bytes) → compare_runs kind x x ≡ equal
unfolding compare_runs
compare_runs_refl false x = compare_bytes_refl x
compare_runs_refl true x = ground (arith, compare_bytes_refl (trim_zeros x))

compare_token_refl : (t : Token) → compare_token t t ≡ equal
unfolding compare_token
compare_token_refl tilde = refl
compare_token_refl caret = refl
compare_token_refl (letters x) = compare_runs_refl false x
compare_token_refl (number x) = compare_runs_refl true x

pub compare_tokens_refl : (ts : List Token) → compare_tokens ts ts ≡ equal
unfolding compare_tokens
compare_tokens_refl [] = refl
compare_tokens_refl (t ∷ ts) = rw (compare_token_refl t) (compare_tokens_refl ts)

-- The comparison of two versions ends, and is that of their tokens.
pub vercmp-tokens : (a b : Bytes) → vercmp a b ≡ some (compare_tokens (tokens a) (tokens b))
unfolding vercmp tokens
vercmp-tokens a b =
    let n = suc (length a + length b) in
    let fa = tokens_onto-fuel n (suc (length a)) a (omega arith) (omega arith) in
    let fb = tokens_onto-fuel n (suc (length b)) b (omega arith) (omega arith) in
    elim (Bool-cases (bytes_eq a b)) [
      | inl e ↦ rw e (
          rw ((bytes_eq_iff a b).0 e)
            (ap some (sym (compare_tokens_refl (tokens_onto (suc (length b)) b)))))
      | inr e ↦ rw e (loop-tokens n a b (omega arith) ∙ rw (fa, fb) refl)
    ]
