-- ===== src/Httpd/Throttle.antt =====
-- internal/httpd/throttle.go: wrong passwords counted per address. Times are nanoseconds, the zero time
-- is 0, and `now` is an argument. A map is the list of its entries in the order it is walked in.
pub mod Counting
pub mod Size
use go_fs.Base.{
  ℕ, zero, suc, ◌+◌, ◌-◌, ◌*◌, ◌/◌, ◌%◌, ◌^◌, ◌≤◌, ◌<◌, min, max, ◌≡◌, refl, sym, ap, ◌∙◌, subst,
  ◌≢◌, ◌↔◌, ◌⊎◌, inl, inr, Bool, true, false, not, ◌&&◌, ◌||◌, Option, none, some, List, [], ◌∷◌,
  ◌++◌, map, append-nil, append_assoc, arith, ltb, leb, ◌==◌, if◌then◌else◌, ltb→lt, lt→ltb, ==_iff,
  Bool-cases, Option-cases, List-cases, length, get_elem?, take, drop, replicate, length-append,
  take-append-drop, length-take, length-drop, take-length-append, take_all, drop_all,
  drop-length-append, All, All-append,
}
use go_fs.Base.Text.{Bytes, codes, bytes_eq, bytes_eq_iff, bytes_eq_refl, is_empty}

abbrev pub evict_above : ℕ
evict_above = 1024

abbrev pub sweep_every : ℕ
sweep_every = 60 * 10 ^ 9

abbrev pub max_tracked : ℕ
max_tracked = 65536

abbrev pub shed_batch : ℕ
shed_batch = max_tracked / 8

pub record LoginRecord : Type 0 where
  pub failures : ℕ
  pub since : ℕ
  pub locked_until : ℕ

abbrev pub Clients : Type 0
Clients = List (Bytes × LoginRecord)

pub record LoginTracker : Type 0 where
  pub clients : Clients
  pub swept : ℕ

abbrev pub new_login_tracker : LoginTracker
new_login_tracker = record { clients = []; swept = 0 }

unfoldable pub lookup : Bytes → Clients → Option LoginRecord
lookup a [] = none
lookup a ((b, r) ∷ clients) = if bytes_eq b a then some r else lookup a clients

unfoldable pub put : Bytes → LoginRecord → Clients → Clients
put a r [] = (a, r) ∷ []
put a r ((b, q) ∷ clients) =
    let rest = put a r clients in if bytes_eq b a then (b, r) ∷ clients else (b, q) ∷ rest

unfoldable pub remove : Bytes → Clients → Clients
remove a [] = []
remove a ((b, q) ∷ clients) =
    let rest = remove a clients in if bytes_eq b a then rest else (b, q) ∷ rest

-- How much longer an address is refused.
unfoldable pub locked : LoginTracker → Bytes → ℕ → Option ℕ
unfolding lookup
locked t address now = elim (lookup address t.clients) [
  | none ↦ none
  | some r ↦ if leb r.locked_until now then none else some (r.locked_until - now)
]

-- A record that says nothing any more.
unfoldable pub is_stale : ℕ → ℕ → LoginRecord → Bool
is_stale now lockout r = leb r.locked_until now && ltb (r.since + lockout) now

unfoldable pub sweep : ℕ → ℕ → Clients → Clients
sweep now lockout [] = []
sweep now lockout ((a, r) ∷ clients) =
    let rest = sweep now lockout clients in if is_stale now lockout r then rest else (a, r) ∷ rest

-- `sort.Slice` by since; the order of equal ones is left open by the source.
unfoldable pub insert_aged : Bytes × ℕ → List (Bytes × ℕ) → List (Bytes × ℕ)
insert_aged x [] = x ∷ []
insert_aged x (y ∷ ys) =
    let rest = insert_aged x ys in if ltb (y.1) (x.1) then y ∷ rest else x ∷ (y ∷ ys)

unfoldable pub aged : Clients → List (Bytes × ℕ)
unfolding insert_aged
aged [] = []
aged ((a, r) ∷ clients) = insert_aged (a, r.since) (aged clients)

unfoldable pub remove_all : List (Bytes × ℕ) → Clients → Clients
unfolding remove
remove_all [] clients = clients
remove_all (x ∷ xs) clients = remove_all xs (remove (x.0) clients)

unfoldable pub shed : Clients → Clients
unfolding remove_all aged
shed clients =
    if ltb (length clients) max_tracked
    then clients
    else remove_all (take shed_batch (aged clients)) clients

unfoldable pub evict : LoginTracker → ℕ → ℕ → LoginTracker
unfolding sweep shed
evict t now lockout =
    if not (leb max_tracked (length t.clients)) && ltb (now - t.swept) sweep_every
    then t
    else record { clients = shed (sweep now lockout t.clients); swept = now }

-- A record whose window has closed starts a new one.
unfoldable pub in_window : LoginRecord → ℕ → ℕ → LoginRecord
in_window r now lockout =
    if ltb (r.since + lockout) now
    then record { failures = 0; since = now; locked_until = r.locked_until }
    else r

-- One more failure, and whether it locks the address.
unfoldable pub count_failure : LoginRecord → ℕ → ℕ → ℕ → LoginRecord × Bool
count_failure r attempts now lockout =
    if ltb (r.failures + 1) attempts
    then (
      record { failures = r.failures + 1; since = r.since; locked_until = r.locked_until },
      false,
    )
    else (record { failures = 0; since = now; locked_until = now + lockout }, true)

unfoldable pub tidied : LoginTracker → ℕ → ℕ → LoginTracker
unfolding evict
tidied t now lockout = if leb evict_above (length t.clients) then evict t now lockout else t

unfoldable pub store_failure : LoginTracker → Bytes → LoginRecord × Bool → LoginTracker × Bool
unfolding put
store_failure t address (r, locks) =
    (record { clients = put address r t.clients; swept = t.swept }, locks)

unfoldable pub fail_known : LoginTracker → Bytes → LoginRecord → ℕ → ℕ → ℕ → LoginTracker × Bool
unfolding count_failure in_window store_failure
fail_known t address r attempts now lockout =
    store_failure t address (count_failure (in_window r now lockout) attempts now lockout)

unfoldable pub failed : LoginTracker → Bytes → ℕ → ℕ → ℕ → LoginTracker × Bool
unfolding fail_known tidied lookup
failed t address attempts lockout now =
    if attempts == 0 then (t, false) else elim (lookup address t.clients) [
      | some r ↦ fail_known t address r attempts now lockout
      | none ↦
          fail_known (tidied t now lockout) address
            (record { failures = 0; since = now; locked_until = 0 }) attempts now lockout
    ]

unfoldable pub clear : LoginTracker → Bytes → LoginTracker
unfolding remove
clear t address = record { clients = remove address t.clients; swept = t.swept }
