-- ===== src/Rpm/Version/Numbers.antt =====
-- The runs of digits of internal/rpm/version.go are compared as the numbers they write.
use go_fs.Base.{
  ℕ, zero, suc, ◌+◌, ◌-◌, ◌*◌, ◌^◌, ◌≤◌, ◌<◌, ◌≡◌, refl, ap, ◌∙◌, true, [], ◌∷◌, arith, ltb,
  if◌then◌else◌, length,
}
use go_fs.Base.Text.{Bytes}
use go_fs.Rpm.Version.{Sign, less, equal, greater, compare_bytes, trim_zeros, compare_runs}
use native.Mathlib.Nat.{pow-suc, mul-le-mul_right}
use go_fs.Base.Decimal.{is_digit, all_digits, number}

pub compare_numbers : ℕ → ℕ → Sign
compare_numbers m n = if ltb m n then less else if ltb n m then greater else equal

number-trim_zeros : (x : Bytes) → number 0 (trim_zeros x) ≡ number 0 x
unfolding number trim_zeros
number-trim_zeros [] = refl
number-trim_zeros (c ∷ x) = ground (arith, number-trim_zeros x)

all_digits-trim_zeros : (x : Bytes) → all_digits x ≡ true → all_digits (trim_zeros x) ≡ true
unfolding all_digits trim_zeros
all_digits-trim_zeros [] h = h
all_digits-trim_zeros (c ∷ x) h = ground (arith, all_digits-trim_zeros x)

scaled : (n c : ℕ) (x : Bytes) → n * 10 ^ length (c ∷ x) ≡ n * 10 * 10 ^ length x
scaled n c x = ap (λ (k : ℕ). n * k) (pow-suc 10 (length x)) ∙ omega arith

-- Digits behind a number n give one from n * 10 ^ k on, and below (n + 1) * 10 ^ k.
number-least : (n : ℕ) (x : Bytes) → n * 10 ^ length x ≤ number n x
unfolding number
number-least n [] = omega arith
number-least n (c ∷ x) =
    let step =
      mul-le-mul_right {m = n * 10} {n = n * 10 + (c - b'0')} (10 ^ length x) (omega arith) in
    omega (arith, number-least (n * 10 + (c - b'0')) x, scaled n c x, step)

number-bound : (n : ℕ) (x : Bytes) → all_digits x ≡ true → number n x < suc n * 10 ^ length x
unfolding number all_digits is_digit
number-bound n [] h = omega arith
number-bound n (c ∷ x) h =
    let digit : c - b'0' ≤ 9 = ground arith in
    let step =
      mul-le-mul_right {m = suc (n * 10 + (c - b'0'))} {n = n * 10 + 10} (10 ^ length x)
        (omega arith) in
    let rest : all_digits x ≡ true = ground arith in
    omega (arith, number-bound (n * 10 + (c - b'0')) x rest, scaled (suc n) c x, step)

pow_mono : (k m : ℕ) → k ≤ m → 10 ^ k ≤ 10 ^ m
pow_mono zero zero h = omega arith
pow_mono zero (suc m) h = omega (arith, pow_mono zero m, pow-suc 10 m)
pow_mono (suc k) zero h = omega (arith, h)
pow_mono (suc k) (suc m) h = omega (arith, pow_mono k m, pow-suc 10 m, pow-suc 10 k)

-- Of digits behind two numbers of which one is less, as many on each side, one is less.
number-lt :
    (n m : ℕ) (x y : Bytes)
    → all_digits x ≡ true
    → length x ≡ length y
    → n < m
    → number n x < number m y
number-lt n m x y hx l h =
    let step = mul-le-mul_right {m = suc n} {n = m} (10 ^ length y) h in
    omega (arith, number-bound n x hx, number-least m y, step, ap (λ (k : ℕ). suc n * 10 ^ k) l)

-- As many digits on each side: their order is that of the numbers.
same_length :
    (n : ℕ) (x y : Bytes)
    → all_digits x ≡ true
    → all_digits y ≡ true
    → length x ≡ length y
    → compare_bytes x y ≡ compare_numbers (number n x) (number n y)
unfolding compare_bytes number compare_numbers all_digits is_digit
same_length n [] [] hx hy l = ground arith
same_length n [] (d ∷ y) hx hy l = ground arith
same_length n (c ∷ x) [] hx hy l = ground arith
same_length n (c ∷ x) (d ∷ y) hx hy l = ground (
  arith,
  same_length (n * 10 + (c - b'0')) x y,
  number-lt (n * 10 + (c - b'0')) (n * 10 + (d - b'0')) x y,
  number-lt (n * 10 + (d - b'0')) (n * 10 + (c - b'0')) y x,
)

-- The first digit of a run with its zeros trimmed.
trim_zeros-least :
    (x : Bytes)
    → all_digits x ≡ true
    → 0 < length (trim_zeros x)
    → 10 ^ (length (trim_zeros x) - 1) ≤ number 0 x
unfolding trim_zeros number all_digits is_digit
trim_zeros-least [] h l = omega (arith, l)
trim_zeros-least (c ∷ x) h l = ground (
  arith,
  trim_zeros-least x,
  number-least (c - b'0') x,
  mul-le-mul_right {m = 1} {n = c - b'0'} (10 ^ length x),
)

longer_run :
    (x y : Bytes)
    → all_digits x ≡ true
    → all_digits y ≡ true
    → length (trim_zeros y) < length (trim_zeros x)
    → number 0 y < number 0 x
longer_run x y hx hy l =
    let bound = number-bound 0 (trim_zeros y) (all_digits-trim_zeros y hy) in
    let mono = pow_mono (length (trim_zeros y)) (length (trim_zeros x) - 1) (omega arith) in
    omega (arith, bound, number-trim_zeros y, mono, trim_zeros-least x hx (omega arith))

-- Runs of digits of any length, leading zeros included, are compared as the numbers they write.
pub compare_runs-numbers :
    (x y : Bytes)
    → all_digits x ≡ true
    → all_digits y ≡ true
    → compare_runs true x y ≡ compare_numbers (number 0 x) (number 0 y)
unfolding compare_runs compare_numbers
compare_runs-numbers x y hx hy = ground (
  arith,
  longer_run x y hx hy,
  longer_run y x hy hx,
  same_length 0 (trim_zeros x) (trim_zeros y) (all_digits-trim_zeros x hx)
      (all_digits-trim_zeros y hy),
  number-trim_zeros x,
  number-trim_zeros y,
)
