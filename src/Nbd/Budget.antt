-- ===== src/Nbd/Budget.antt =====
-- `budget` of internal/nbd/image.go, and the loop of `transmit` of internal/nbd/transmission.go as
-- steps of its reader and its workers.
pub mod Accounts
use go_fs.Base.{
  ℕ, zero, suc, ◌+◌, ◌-◌, ◌*◌, ◌/◌, ◌%◌, ◌^◌, ◌≤◌, ◌<◌, min, max, ◌≡◌, refl, sym, ap, ◌∙◌, subst,
  ◌≢◌, ◌↔◌, ◌⊎◌, inl, inr, Bool, true, false, not, ◌&&◌, ◌||◌, Option, none, some, List, [], ◌∷◌,
  ◌++◌, map, append-nil, append_assoc, arith, ltb, leb, ◌==◌, if◌then◌else◌, ltb→lt, lt→ltb, ==_iff,
  Bool-cases, Option-cases, List-cases, length, get_elem?, take, drop, replicate, length-append,
  take-append-drop, length-take, length-drop, take-length-append, take_all, drop_all,
  drop-length-append, All, All-append,
}
use go_fs.Base.Text.{Bytes, codes, bytes_eq, bytes_eq_iff, bytes_eq_refl, is_empty}
use go_fs.Nbd.{cmd_read, cmd_write, max_block, Request}

abbrev pub cmd_disc : ℕ
cmd_disc = 2

abbrev pub max_in_flight : ℕ
max_in_flight = 16

abbrev pub in_flight_bytes : ℕ
in_flight_bytes = 64 * 2 ^ 20

pub record Budget : Type 0 where
  pub free : ℕ
  pub total : ℕ
  pub closed : Bool

unfoldable pub new_budget : ℕ → Budget
new_budget total = record { free = total; total = total; closed = false }

-- What `acquire` does at a moment: it waits on, it reports the budget closed, or it takes the bytes.
pub data Grant : Type 0 where
  waiting : Grant
  refused : Grant
  granted : Budget → Grant

unfoldable pub acquire : Budget → ℕ → Grant
acquire b n =
    if b.closed
    then refused
    else if ltb b.free (min n b.total)
    then waiting
    else granted (record b { free = b.free - min n b.total })

unfoldable pub release : Budget → ℕ → Budget
release b n = record b { free = b.free + min n b.total }

unfoldable pub close : Budget → Budget
close b = record b { closed = true }

-- What the reader does with a request: it ends the connection, waits for the budget, or goes on with
-- what the request holds of the budget.
pub data Admission : Type 0 where
  ends : Admission
  waits : Admission
  admitted : Budget → ℕ → Admission

unfoldable pub admission : ℕ → Grant → Admission
admission n waiting = waits
admission n refused = ends
admission n (granted b) = admitted b n

unfoldable pub admit : Budget → Request → Admission
unfolding acquire admission
admit b req =
    if req.kind == cmd_disc
    then ends
    else if req.kind == cmd_write
    then (if ltb max_block req.len then ends else admission req.len (acquire b req.len))
    else if (req.kind == cmd_read) && leb req.len max_block
    then admission req.len (acquire b req.len)
    else admitted b 0

-- The requests of a connection: whether more are read, the one that was read and waits for its
-- payload or a slot, the slots taken, and what each running request holds of the budget.
pub record Traffic : Type 0 where
  pub money : Budget
  pub reading : Bool
  pub pending : Option ℕ
  pub slots : ℕ
  pub running : List ℕ

unfoldable pub new_traffic : Traffic
unfolding new_budget
new_traffic = record {
  money = new_budget in_flight_bytes;
  reading = true;
  pending = none;
  slots = 0;
  running = [];
}

-- The deferred calls of a worker run in the order `release`, then the slot.
pub data Step : Traffic → Traffic → Type 0 where
  read_request :
      (c : Traffic) (req : Request) (b : Budget) (n : ℕ)
      → c.reading ≡ true
      → c.pending ≡ none
      → admit c.money req ≡ admitted b n
      → Step c (record c { money = b; pending = some n })
  start_worker :
      (c : Traffic) (n : ℕ)
      → c.pending ≡ some n
      → c.slots < max_in_flight
      → Step c (record c { pending = none; slots = c.slots + 1; running = n ∷ c.running })
  lose_payload :
      (c : Traffic) (n : ℕ)
      → c.pending ≡ some n
      → Step c (record c { money = close (release c.money n); reading = false; pending = none })
  stop_reading :
      (c : Traffic)
      → c.reading ≡ true
      → c.pending ≡ none
      → Step c (record c { money = close c.money; reading = false })
  give_back :
      (c : Traffic) (before after : List ℕ) (n : ℕ)
      → c.running ≡ before ++ n ∷ after
      → Step c (record c { money = release c.money n; running = before ++ after })
  free_slot : (c : Traffic) → length c.running < c.slots → Step c (record c { slots = c.slots - 1 })

pub data Reachable : Traffic → Type 0 where
  begin : Reachable new_traffic
  next : (c d : Traffic) → Reachable c → Step c d → Reachable d
