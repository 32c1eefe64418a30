-- ===== src/Base/Decimal.antt =====
-- Decimal numbers as text: `strconv.Itoa` and `strconv.FormatInt(n, 10)` on numbers that an int64
-- holds, which have at most 19 digits, and the value of a run of digits.
use Prim.Native.Nat.{ℕ, zero, suc, ◌+◌, ◌-◌, ◌*◌, ◌/◌, ◌%◌, ◌^◌, ◌≤◌, ◌<◌}
use mathlib.Core.Path.{◌≡◌, refl}
use mathlib.Core.Bool.{Bool, true, ◌&&◌}
use mathlib.Core.List.{[], ◌∷◌}
use native.Mathlib.Omega.{arith}
use native.Mathlib.Nat.{pow-suc}
use go_fs.Base.Tests.{leb, ltb, if◌then◌else◌}
use go_fs.Base.Lists.{length}
use go_fs.Base.Text.{Bytes}

unfoldable pub is_digit : ℕ → Bool
is_digit c = leb b'0' c && leb c b'9'

unfoldable pub all_digits : Bytes → Bool
all_digits [] = true
all_digits (c ∷ s) = is_digit c && all_digits s

digits_onto : ℕ → ℕ → Bytes → Bytes
digits_onto zero n rest = rest
digits_onto (suc fuel) n rest =
    let more = digits_onto fuel (n / 10) ((b'0' + n % 10) ∷ rest) in
    if ltb n 10 then (b'0' + n) ∷ rest else more

unfoldable pub itoa : ℕ → Bytes
unfolding digits_onto
itoa n = digits_onto 20 n []

-- `strconv.ParseInt(s, 10, 64)` on digits that do not overflow.
unfoldable pub number : ℕ → Bytes → ℕ
number n [] = n
number n (c ∷ s) = number (n * 10 + (c - b'0')) s

pow_ten : (n k : ℕ) → n < 10 ^ suc k → n / 10 < 10 ^ k
pow_ten n k h = omega (arith, pow-suc 10 k)

number-digits_onto :
    (fuel n : ℕ) (rest : Bytes) → n < 10 ^ fuel → number 0 (digits_onto fuel n rest) ≡ number n rest
unfolding number digits_onto
number-digits_onto zero n rest h = let e : n ≡ 0 = omega arith in rw e
number-digits_onto (suc fuel) n rest h =
    ground (arith, pow_ten n fuel, number-digits_onto fuel (n / 10) ((b'0' + n % 10) ∷ rest))

pub number-itoa : (n : ℕ) → n < 10 ^ 20 → number 0 (itoa n) ≡ n
unfolding itoa number
number-itoa n h = number-digits_onto 20 n [] h

all_digits-digits_onto :
    (fuel n : ℕ) (rest : Bytes)
    → all_digits rest ≡ true
    → all_digits (digits_onto fuel n rest) ≡ true
unfolding all_digits is_digit digits_onto
all_digits-digits_onto zero n rest h = h
all_digits-digits_onto (suc fuel) n rest h =
    ground (arith, all_digits-digits_onto fuel (n / 10) ((b'0' + n % 10) ∷ rest))

pub all_digits-itoa : (n : ℕ) → all_digits (itoa n) ≡ true
unfolding itoa all_digits
all_digits-itoa n = all_digits-digits_onto 20 n [] refl

length-digits_onto :
    (fuel k n : ℕ) (rest : Bytes)
    → n < 10 ^ suc k
    → length (digits_onto fuel n rest) ≤ suc k + length rest
unfolding digits_onto
length-digits_onto zero k n rest h = omega arith
length-digits_onto (suc fuel) zero n rest h = ground arith
length-digits_onto (suc fuel) (suc k) n rest h =
    ground (arith, pow_ten n (suc k), length-digits_onto fuel k (n / 10) ((b'0' + n % 10) ∷ rest))

pub length-itoa : (k n : ℕ) → n < 10 ^ suc k → length (itoa n) ≤ suc k
unfolding itoa
length-itoa k n h = omega (arith, length-digits_onto 20 k n [] h)

length-digits_onto-lt :
    (fuel n : ℕ) (rest : Bytes) → length rest < length (digits_onto (suc fuel) n rest)
unfolding digits_onto
length-digits_onto-lt zero n rest = ground arith
length-digits_onto-lt (suc fuel) n rest =
    ground (arith, length-digits_onto-lt fuel (n / 10) ((b'0' + n % 10) ∷ rest))

pub length-itoa-pos : (n : ℕ) → 0 < length (itoa n)
unfolding itoa
length-itoa-pos n = length-digits_onto-lt 19 n []
