-- ===== src/Rpm/Tests.antt =====
-- The versions of internal/rpm/version.go at concrete texts.
use go_fs.Base.{◌≡◌, refl, [], true, some}
use go_fs.Base.Text.{Bytes, codes, bytes_eq, is_empty}
use go_fs.Base.Decimal.{all_digits, is_digit, number}
use go_fs.Rpm.Version.{
  Sign, less, equal, greater, vercmp, vercmp_loop, vercmp_round, skip, leads, tail, take_run,
  drop_run, compare_runs, compare_bytes, trim_zeros, starts_numeric, compare_ends, go_on, is_alnum,
  is_alpha,
}
use go_fs.Rpm.Version.Tokens.{tokens, compare_tokens, flip}
use go_fs.Rpm.Version.Comparing.{vercmp-tokens}
use go_fs.Rpm.Version.Composing.{Composed}
use go_fs.Rpm.Version.Order.{vercmp_order}
use go_fs.Rpm.Version.Numbers.{compare_numbers, compare_runs-numbers}
use go_fs.Rpm.Evr.{Evr, parse_evr, evr_string, compare_evr, has_epoch}
use go_fs.Rpm.Evr.Printing.{lacks, shown_epoch, parse_evr-evr_string}
use go_fs.Rpm.Evr.Order.{compare_evr_order}

abbrev candidate : Bytes
candidate = codes "1.0~rc1"

abbrev released : Bytes
released = codes "1.0"

abbrev patched : Bytes
patched = codes "1.0^git2"

abbrev later : Bytes
later = codes "1.010"

candidate_before : vercmp candidate released ≡ some less
unfolding vercmp vercmp_loop vercmp_round skip leads is_empty tail take_run drop_run compare_runs
    compare_bytes trim_zeros starts_numeric compare_ends go_on is_alnum is_alpha is_digit bytes_eq
candidate_before = refl

patched_after : vercmp patched released ≡ some greater
unfolding vercmp vercmp_loop vercmp_round skip leads is_empty tail take_run drop_run compare_runs
    compare_bytes trim_zeros starts_numeric compare_ends go_on is_alnum is_alpha is_digit bytes_eq
patched_after = refl

vercmp-tokens_example :
    vercmp candidate patched ≡ some (compare_tokens (tokens candidate) (tokens patched))
vercmp-tokens_example = vercmp-tokens candidate patched

vercmp_order_example :
    (s t r : Sign) × (vercmp candidate released ≡ some s)
    × (vercmp released patched ≡ some t)
    × (vercmp candidate patched ≡ some r)
    × (vercmp candidate candidate ≡ some equal)
    × (vercmp released candidate ≡ some (flip s))
    × Composed s t r
vercmp_order_example = vercmp_order candidate released patched

compare_runs-numbers_example :
    compare_runs true (codes "010") (codes "9")
    ≡ compare_numbers (number 0 (codes "010")) (number 0 (codes "9"))
unfolding all_digits is_digit
compare_runs-numbers_example = compare_runs-numbers (codes "010") (codes "9") refl refl

abbrev kernel : Evr
kernel = record { epoch = codes "2"; version = codes "6.12.0"; release = codes "55.el10" }

abbrev older : Evr
older = record { epoch = []; version = codes "6.13.1"; release = codes "1.el10" }

parse_evr-evr_string_example :
    (parse_evr (evr_string kernel)
      ≡ record { epoch = shown_epoch kernel; version = codes "6.12.0"; release = codes "55.el10" })
    × (compare_evr (parse_evr (evr_string kernel)) kernel ≡ some equal)
unfolding lacks has_epoch is_empty bytes_eq
parse_evr-evr_string_example = parse_evr-evr_string kernel (refl, refl, (λ e. cc), (λ e. cc))

compare_evr_order_example :
    (s t r : Sign) × (compare_evr older kernel ≡ some s)
    × (compare_evr kernel kernel ≡ some t)
    × (compare_evr older kernel ≡ some r)
    × Composed s t r
unfolding is_empty
compare_evr_order_example = compare_evr_order older kernel kernel refl
