-- ===== src/Httpd/Throttle/Counting.antt =====
-- When internal/httpd/throttle.go locks an address out.
use go_fs.Base.{
  ℕ, suc, ◌+◌, ◌-◌, ◌≤◌, ◌<◌, ◌≡◌, refl, ap, ◌∙◌, Bool, true, false, ◌&&◌, none, some, List, [],
  ◌∷◌, ◌++◌, arith, ltb, leb, ◌==◌, if◌then◌else◌, lt→ltb, length, replicate,
}
use go_fs.Base.Text.{Bytes, bytes_eq, bytes_eq_iff, bytes_eq_refl}
use go_fs.Httpd.Throttle.{
  LoginRecord, Clients, LoginTracker, lookup, put, locked, in_window, count_failure, tidied,
  store_failure, fail_known, failed,
}

lookup-put :
    (a b : Bytes) (r : LoginRecord) (c : Clients)
    → lookup b (put a r c) ≡ (if bytes_eq a b then some r else lookup b c)
unfolding lookup put
lookup-put a b r [] = refl
lookup-put a b r ((d, q) ∷ c) = ground (
  arith,
  lookup-put a b r c,
  bytes_eq_iff d a,
  bytes_eq_iff d b,
  bytes_eq_iff a b,
  bytes_eq_iff a a,
)

lookup-put-same : (a : Bytes) (r : LoginRecord) (c : Clients) → lookup a (put a r c) ≡ some r
lookup-put-same a r c = rw (lookup-put a a r c, bytes_eq_refl a) refl

-- The failures of one address at the given times, and which of them locked it.
unfoldable pub run : LoginTracker → Bytes → ℕ → ℕ → List ℕ → LoginTracker × List Bool
run t address attempts lockout [] = (t, [])
run t address attempts lockout (now ∷ times) =
    let f = failed t address attempts lockout now in
    let rest = run (f.0) address attempts lockout times in (rest.0, f.1 ∷ rest.1)

-- Times that a window opened at `since` holds.
unfoldable pub within : ℕ → ℕ → List ℕ → Bool
within since lockout [] = true
within since lockout (now ∷ times) = leb now (since + lockout) && within since lockout times

abbrev pub last_of : ℕ → List ℕ → ℕ
last_of now [] = now
last_of now (n ∷ times) = last_of n times

not_zero : (n : ℕ) → (suc n == 0) ≡ false
not_zero n = ground arith

failed-known :
    (t : LoginTracker) (address : Bytes) (r : LoginRecord) (attempts lockout now : ℕ)
    → lookup address t.clients ≡ some r
    → failed t address (suc attempts) lockout now
      ≡ fail_known t address r (suc attempts) now lockout
unfolding failed
failed-known t address r attempts lockout now h = rw (h, not_zero attempts) refl

failed-unknown :
    (t : LoginTracker) (address : Bytes) (attempts lockout now : ℕ)
    → lookup address t.clients ≡ none
    → failed t address (suc attempts) lockout now
      ≡ fail_known
          (tidied t now lockout)
          address
          (record { failures = 0; since = now; locked_until = 0 })
          (suc attempts)
          now
          lockout
unfolding failed
failed-unknown t address attempts lockout now h = rw (h, not_zero attempts) refl

-- A failure that is one of too few is counted.
fail-counted :
    (t : LoginTracker) (address : Bytes) (k since u attempts lockout now : ℕ)
    → lookup address t.clients ≡ some (record { failures = k; since = since; locked_until = u })
    → now ≤ since + lockout
    → k + 1 < suc attempts
    → (failed t address (suc attempts) lockout now ≡ (
      record {
        clients =
            put address (record { failures = k + 1; since = since; locked_until = u }) t.clients;
        swept = t.swept;
      },
      false,
    ))
unfolding fail_known store_failure count_failure in_window
fail-counted t address k since u attempts lockout now h w l =
    failed-known t address (record { failures = k; since = since; locked_until = u }) attempts
      lockout now h
    ∙ rw (open_window, too_few) refl
  where
    open_window : ltb (since + lockout) now ≡ false
    open_window = ground arith

    too_few : ltb (k + 1) (suc attempts) ≡ true
    too_few = lt→ltb (k + 1) (suc attempts) l

-- The last one that is allowed locks the address.
fail-locks :
    (t : LoginTracker) (address : Bytes) (k since u attempts lockout now : ℕ)
    → lookup address t.clients ≡ some (record { failures = k; since = since; locked_until = u })
    → now ≤ since + lockout
    → k + 1 ≡ suc attempts
    → (failed t address (suc attempts) lockout now ≡ (
      record {
        clients =
            put address
              (record { failures = 0; since = now; locked_until = now + lockout })
              t.clients;
        swept = t.swept;
      },
      true,
    ))
unfolding fail_known store_failure count_failure in_window
fail-locks t address k since u attempts lockout now h w l =
    failed-known t address (record { failures = k; since = since; locked_until = u }) attempts
      lockout now h
    ∙ rw (open_window, enough) refl
  where
    open_window : ltb (since + lockout) now ≡ false
    open_window = ground arith

    enough : ltb (k + 1) (suc attempts) ≡ false
    enough = ground arith

-- The first failure of an address that is not tracked.
fail-first :
    (t : LoginTracker) (address : Bytes) (attempts lockout now : ℕ)
    → lookup address t.clients ≡ none
    → (failed t address (suc (suc attempts)) lockout now ≡ (
      record {
        clients =
            put address
              (record { failures = 1; since = now; locked_until = 0 })
              (tidied t now lockout).clients;
        swept = (tidied t now lockout).swept;
      },
      false,
    ))
unfolding fail_known store_failure count_failure in_window
fail-first t address attempts lockout now h =
    failed-unknown t address (suc attempts) lockout now h ∙ rw (open_window, too_few) refl
  where
    open_window : ltb (now + lockout) now ≡ false
    open_window = ground arith

    too_few : ltb 1 (suc (suc attempts)) ≡ true
    too_few = ground arith

fail-only :
    (t : LoginTracker) (address : Bytes) (lockout now : ℕ)
    → lookup address t.clients ≡ none
    → (failed t address 1 lockout now ≡ (
      record {
        clients =
            put address
              (record { failures = 0; since = now; locked_until = now + lockout })
              (tidied t now lockout).clients;
        swept = (tidied t now lockout).swept;
      },
      true,
    ))
unfolding fail_known store_failure count_failure in_window
fail-only t address lockout now h =
    failed-unknown t address 0 lockout now h ∙ rw (open_window now) refl
  where
    open_window : (now : ℕ) → ltb (now + lockout) now ≡ false
    open_window now = ground arith

-- What the failures have come to when the address is locked.
abbrev Locked : Bytes → ℕ → ℕ → List ℕ → LoginTracker × List Bool → Type 0
Locked address lockout now more f =
    ((f.1) ≡ replicate (length more) false ++ (true ∷ []))
    × (lookup address (f.0).clients
        ≡ some (record {
          failures = 0;
          since = last_of now more;
          locked_until = last_of now more + lockout;
        }))

run-known :
    (t : LoginTracker) (address : Bytes) (k since u attempts lockout now : ℕ) (more : List ℕ)
    → lookup address t.clients ≡ some (record { failures = k; since = since; locked_until = u })
    → within since lockout (now ∷ more) ≡ true
    → k + length (now ∷ more) ≡ suc attempts
    → Locked address lockout now more (run t address (suc attempts) lockout (now ∷ more))
unfolding run within
run-known t address k since u attempts lockout now [] h w l =
    let r : LoginRecord = record { failures = 0; since = now; locked_until = now + lockout } in
    rw (fail-locks t address k since u attempts lockout now h (ground arith) l)
      (refl, lookup-put-same address r t.clients)
run-known t address k since u attempts lockout now (n ∷ more) h w l =
    let r : LoginRecord = record { failures = k + 1; since = since; locked_until = u } in
    let t' : LoginTracker = record { clients = put address r t.clients; swept = t.swept } in
    let ih =
      run-known t' address (k + 1) since u attempts lockout n more
        (lookup-put-same address r t.clients) (ground arith) (omega (arith, l)) in
    rw (fail-counted t address k since u attempts lockout now h (ground arith) (omega (arith, l)))
      (ap (λ bs. false ∷ bs) (ih.0), ih.1)

run-unknown :
    (t : LoginTracker) (address : Bytes) (lockout now : ℕ) (more : List ℕ)
    → lookup address t.clients ≡ none
    → within now lockout more ≡ true
    → Locked address lockout now more (run t address (length (now ∷ more)) lockout (now ∷ more))
unfolding run
run-unknown t address lockout now [] h w =
    let r : LoginRecord = record { failures = 0; since = now; locked_until = now + lockout } in
    rw (fail-only t address lockout now h)
      (refl, lookup-put-same address r (tidied t now lockout).clients)
run-unknown t address lockout now (n ∷ more) h w =
    let r : LoginRecord = record { failures = 1; since = now; locked_until = 0 } in
    let t' : LoginTracker = record {
      clients = put address r (tidied t now lockout).clients;
      swept = (tidied t now lockout).swept;
    } in
    let ih =
      run-known t' address 1 now 0 (length (n ∷ more)) lockout n more
        (lookup-put-same address r (tidied t now lockout).clients) w (omega arith) in
    rw (fail-first t address (length more) lockout now h) (ap (λ bs. false ∷ bs) (ih.0), ih.1)

locked-until :
    (t : LoginTracker) (address : Bytes) (r : LoginRecord) (now : ℕ)
    → lookup address t.clients ≡ some r
    → locked t address now ≡ (if leb r.locked_until now then none else some (r.locked_until - now))
unfolding locked
locked-until t address r now h = rw (h, locked) refl

-- Wrong passwords from an address that is not tracked, as many as loginAttempts and all inside the
-- lockout time of the first: the last of them locks the address and none before it does, and the
-- address is then refused for the lockout time from the last on, and no longer.
pub run-locks :
    (t : LoginTracker) (address : Bytes) (lockout now : ℕ) (more : List ℕ) (later : ℕ)
    → lookup address t.clients ≡ none
    → within now lockout more ≡ true
    → (((run t address (length (now ∷ more)) lockout (now ∷ more)).1)
        ≡ replicate (length more) false ++ (true ∷ []))
      × (locked ((run t address (length (now ∷ more)) lockout (now ∷ more)).0) address later ≡ (
          if leb (last_of now more + lockout) later
          then none
          else some (last_of now more + lockout - later)))
run-locks t address lockout now more later h w =
    let l = run-unknown t address lockout now more h w in
    (
      l.0,
      locked-until ((run t address (length (now ∷ more)) lockout (now ∷ more)).0) address
          (record {
            failures = 0;
            since = last_of now more;
            locked_until = last_of now more + lockout;
          })
          later (l.1),
    )
