-- ===== src/Httpd/Tests.antt =====
-- The login lock of internal/httpd/throttle.go at concrete addresses and times.
use go_fs.Base.{ℕ, ◌≤◌, ◌≡◌, refl, true, false, some, [], ◌∷◌, length, arith}
use go_fs.Base.Text.{Bytes, codes, bytes_eq}
use go_fs.Httpd.Throttle.{LoginTracker, max_tracked, lookup, locked, failed}
use go_fs.Httpd.Throttle.Counting.{run, within, run-locks}
use go_fs.Httpd.Throttle.Size.{failed-bounded}

abbrev guesser : Bytes
guesser = codes "192.0.2.7"

abbrev lockout : ℕ
lockout = 300

abbrev others : LoginTracker
others = record {
  clients = (codes "192.0.2.8", record { failures = 2; since = 900; locked_until = 0 }) ∷ [];
  swept = 0;
}

run-locks_example :
    ((run others guesser 3 lockout (1000 ∷ (1010 ∷ (1030 ∷ [])))).1 ≡ false ∷ (false ∷ (true ∷ [])))
    × (locked ((run others guesser 3 lockout (1000 ∷ (1010 ∷ (1030 ∷ [])))).0) guesser 1100
        ≡ some 230)
unfolding lookup bytes_eq within
run-locks_example = run-locks others guesser lockout 1000 (1010 ∷ (1030 ∷ [])) 1100 refl refl

failed-bounded_example : length ((failed others guesser 3 lockout 1000).0).clients ≤ max_tracked
failed-bounded_example = failed-bounded others guesser 3 lockout 1000 (omega arith)
