-- ===== src/Httpd/Throttle/Size.antt =====
-- How many addresses internal/httpd/throttle.go tracks.
use go_fs.Base.{
  ℕ, suc, ◌+◌, ◌-◌, ◌≤◌, ◌<◌, ◌≡◌, refl, inl, inr, Bool, true, false, not, ◌&&◌, ◌||◌, some, List,
  [], ◌∷◌, arith, ltb, leb, ◌==◌, if◌then◌else◌, ltb→lt, Bool-cases, Option-cases, length, take,
}
use go_fs.Base.Text.{Bytes, bytes_eq, bytes_eq_refl}
use go_fs.Httpd.Throttle.{
  evict_above, sweep_every, max_tracked, LoginRecord, Clients, LoginTracker, lookup, put, remove,
  sweep, insert_aged, aged, remove_all, shed, evict, in_window, count_failure, tidied,
  store_failure, fail_known, failed,
}

length-put : (a : Bytes) (r : LoginRecord) (c : Clients) → length (put a r c) ≤ length c + 1
unfolding put
length-put a r [] = omega arith
length-put a r ((b, q) ∷ c) = ground (arith, length-put a r c)

-- A known address takes no more room.
length-put-known :
    (a : Bytes) (r q : LoginRecord) (c : Clients)
    → lookup a c ≡ some q
    → length (put a r c) ≡ length c
unfolding put lookup
length-put-known a r q [] h = ground arith
length-put-known a r q ((b, p) ∷ c) h = ground (arith, length-put-known a r q c)

length-remove : (a : Bytes) (c : Clients) → length (remove a c) ≤ length c
unfolding remove
length-remove a [] = omega arith
length-remove a ((b, q) ∷ c) = ground (arith, length-remove a c)

has_address : Bytes → Clients → Bool
has_address a [] = false
has_address a ((b, q) ∷ c) = bytes_eq b a || has_address a c

length-remove-has :
    (a : Bytes) (c : Clients) → has_address a c ≡ true → length (remove a c) < length c
unfolding remove has_address
length-remove-has a [] h = ground arith
length-remove-has a ((b, q) ∷ c) h = ground (arith, length-remove-has a c, length-remove a c)

length-remove_all : (xs : List (Bytes × ℕ)) (c : Clients) → length (remove_all xs c) ≤ length c
unfolding remove_all
length-remove_all [] c = omega arith
length-remove_all (x ∷ xs) c =
    omega (arith, length-remove_all xs (remove (x.0) c), length-remove (x.0) c)

length-sweep : (now lockout : ℕ) (c : Clients) → length (sweep now lockout c) ≤ length c
unfolding sweep
length-sweep now lockout [] = omega arith
length-sweep now lockout ((a, r) ∷ c) = ground (arith, length-sweep now lockout c)

-- The oldest record is one of the map.
first_is_tracked : List (Bytes × ℕ) → Clients → Bool
first_is_tracked [] c = false
first_is_tracked (x ∷ xs) c = has_address (x.0) c

first-here :
    (x : Bytes × ℕ) (r : LoginRecord) (c : Clients) → has_address (x.0) ((x.0, r) ∷ c) ≡ true
unfolding has_address
first-here x r c = rw (bytes_eq_refl (x.0)) refl

insert_aged-first :
    (x y : Bytes × ℕ) (ys : List (Bytes × ℕ)) (r : LoginRecord) (c : Clients)
    → first_is_tracked (y ∷ ys) c ≡ true
    → first_is_tracked (insert_aged x (y ∷ ys)) ((x.0, r) ∷ c) ≡ true
unfolding insert_aged first_is_tracked
insert_aged-first x y ys r c h = elim (Bool-cases (ltb (y.1) (x.1))) [
  | inl e ↦ rw e (unfold has_address in ground arith)
  | inr e ↦ rw e (first-here x r c)
]

aged-first :
    (a : Bytes) (r : LoginRecord) (c : Clients)
    → first_is_tracked (aged ((a, r) ∷ c)) ((a, r) ∷ c) ≡ true
unfolding aged
aged-first a r [] = unfold insert_aged first_is_tracked in first-here (a, r.since) r []
aged-first a r ((b, q) ∷ c) = go (aged ((b, q) ∷ c)) (aged-first b q c)
  where
    go :
        (ys : List (Bytes × ℕ))
        → first_is_tracked ys ((b, q) ∷ c) ≡ true
        → first_is_tracked (insert_aged (a, r.since) ys) ((a, r) ∷ ((b, q) ∷ c)) ≡ true
    go [] h = unfold first_is_tracked in cc
    go (y ∷ ys) h = insert_aged-first (a, r.since) y ys r ((b, q) ∷ c) h

-- Dropping a batch of the oldest, at least one, leaves fewer.
length-remove_some :
    (n : ℕ) (xs : List (Bytes × ℕ)) (c : Clients)
    → first_is_tracked xs c ≡ true
    → length (remove_all (take (suc n) xs) c) < length c
unfolding first_is_tracked remove_all
length-remove_some n [] c h = ground arith
length-remove_some n (x ∷ xs) c h =
    omega (arith, length-remove_all (take n xs) (remove (x.0) c), length-remove-has (x.0) c h)

length-remove_oldest :
    (n : ℕ) (c : Clients) → 0 < length c → length (remove_all (take (suc n) (aged c)) c) < length c
length-remove_oldest n [] h = omega (arith, h)
length-remove_oldest n ((a, r) ∷ c) h =
    length-remove_some n (aged ((a, r) ∷ c)) ((a, r) ∷ c) (aged-first a r c)

not_less : (m n : ℕ) → ltb m n ≡ false → n ≤ m
not_less m n h = ground arith

-- Shedding leaves room below any bound that is not exceeded.
shed_below :
    (m n : ℕ) (c : Clients)
    → 0 < m
    → length c ≤ m
    → length (if ltb (length c) m then c else remove_all (take (suc n) (aged c)) c) < m
shed_below m n c p h = elim (Bool-cases (ltb (length c) m)) [
  | inl e ↦ rw e (ltb→lt (length c) m e)
  | inr e ↦
      rw e (omega (arith, length-remove_oldest n c (omega (arith, not_less (length c) m e, p)), h))
]

length-shed : (c : Clients) → length c ≤ max_tracked → length (shed c) < max_tracked
unfolding shed
length-shed c h = shed_below max_tracked 8191 c (omega arith) h

-- Where the map is full, the eviction makes room, and it never grows it.
length-evict :
    (t : LoginTracker) (now lockout : ℕ)
    → length t.clients ≤ max_tracked
    → length (evict t now lockout).clients < max_tracked
unfolding evict
length-evict t now lockout h =
    elim (Bool-cases
      (not (leb max_tracked (length t.clients)) && ltb (now - t.swept) sweep_every)) [
        | inl e ↦ rw e (not_full max_tracked (length t.clients) (ltb (now - t.swept) sweep_every) e)
        | inr e ↦ rw e (
            length-shed (sweep now lockout t.clients)
              (omega (arith, length-sweep now lockout t.clients, h)))
      ]
  where
    not_full : (m n : ℕ) (b : Bool) → (not (leb m n) && b) ≡ true → n < m
    not_full m n b e = ground arith

length-tidied :
    (t : LoginTracker) (now lockout : ℕ)
    → length t.clients ≤ max_tracked
    → length (tidied t now lockout).clients < max_tracked
unfolding tidied
length-tidied t now lockout h = elim (Bool-cases (leb evict_above (length t.clients))) [
  | inl e ↦ rw e (length-evict t now lockout h)
  | inr e ↦ rw e (omega (arith, small evict_above (length t.clients) e))
]
  where
    small : (m n : ℕ) → leb m n ≡ false → n < m
    small m n e = ground arith

length-fail_known :
    (t : LoginTracker) (address : Bytes) (r : LoginRecord) (attempts now lockout : ℕ)
    → length ((fail_known t address r attempts now lockout).0).clients ≤ length t.clients + 1
unfolding fail_known store_failure
length-fail_known t address r attempts now lockout =
    length-put address ((count_failure (in_window r now lockout) attempts now lockout).0) t.clients

length-fail_known-same :
    (t : LoginTracker) (address : Bytes) (r q : LoginRecord) (attempts now lockout : ℕ)
    → lookup address t.clients ≡ some q
    → length ((fail_known t address r attempts now lockout).0).clients ≡ length t.clients
unfolding fail_known store_failure
length-fail_known-same t address r q attempts now lockout h =
    length-put-known address ((count_failure (in_window r now lockout) attempts now lockout).0) q
      t.clients h

-- A wrong password never makes the tracker hold more addresses than maxTracked, whatever addresses
-- it comes from.
pub failed-bounded :
    (t : LoginTracker) (address : Bytes) (attempts lockout now : ℕ)
    → length t.clients ≤ max_tracked
    → length ((failed t address attempts lockout now).0).clients ≤ max_tracked
unfolding failed
failed-bounded t address attempts lockout now h = elim (Bool-cases (attempts == 0)) [
  | inl e ↦ rw e h
  | inr e ↦ elim (Option-cases (lookup address t.clients)) [
    | inl n ↦
        rw (e, n)
          (omega (
            arith,
            length-fail_known (tidied t now lockout) address
                (record { failures = 0; since = now; locked_until = 0 }) attempts now lockout,
            length-tidied t now lockout h,
          ))
    | inr (r, k) ↦
        rw (e, k) (omega (arith, length-fail_known-same t address r r attempts now lockout k, h))
  ]
]
