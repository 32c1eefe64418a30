-- ===== src/Nbd/Budget/Accounts.antt =====
-- What the requests in flight of internal/nbd/transmission.go hold of the budget.
use go_fs.Base.{
  ℕ, ◌+◌, ◌-◌, ◌≤◌, min, ◌≡◌, refl, ap, ◌∙◌, subst, ◌≢◌, inl, inr, true, false, ◌||◌, Option, none,
  some, List, [], ◌∷◌, ◌++◌, arith, ◌==◌, if◌then◌else◌, Bool-cases, length, length-append,
}
use go_fs.Nbd.{cmd_read, cmd_write, max_block, Request}
use go_fs.Nbd.Budget.{
  cmd_disc, max_in_flight, in_flight_bytes, Budget, new_budget, Grant, waiting, refused, granted,
  acquire, release, close, admitted, admission, admit, Traffic, new_traffic, Step, read_request,
  start_worker, lose_payload, stop_reading, give_back, free_slot, Reachable, begin, next,
}

-- What requests hold of a budget of `total` bytes.
unfoldable pub held : ℕ → List ℕ → ℕ
held total [] = 0
held total (n ∷ ns) = min n total + held total ns

unfoldable pub held_pending : ℕ → Option ℕ → ℕ
held_pending total none = 0
held_pending total (some n) = min n total

held-middle :
    (total n : ℕ) (xs ys : List ℕ) → held total (xs ++ n ∷ ys) ≡ min n total + held total (xs ++ ys)
unfolding held
held-middle total n [] ys = refl
held-middle total n (x ∷ xs) ys = omega (arith, held-middle total n xs ys)

length-middle : (n : ℕ) (xs ys : List ℕ) → length (xs ++ n ∷ ys) ≡ length (xs ++ ys) + 1
length-middle n xs ys = omega (arith, length-append xs (n ∷ ys), length-append xs ys)

-- A granted budget has given up what was asked of it.
record Accounts (c : Traffic) : Type 0 where
  balance :
      c.money.free + (held_pending in_flight_bytes c.pending + held in_flight_bytes c.running)
      ≡ in_flight_bytes
  capacity : c.money.total ≡ in_flight_bytes
  workers : length c.running ≤ c.slots
  bounded : c.slots ≤ max_in_flight
  open_while_reading : c.reading ≡ true → c.money.closed ≡ false

acquire-taken :
    (b d : Budget) (n : ℕ)
    → acquire b n ≡ granted d
    → (b.free ≡ d.free + min n b.total) × (d.total ≡ b.total) × (d.closed ≡ b.closed)
unfolding acquire
acquire-taken b d n h = ground arith

admission-granted :
    (g : Grant) (d : Budget) (n m : ℕ) → admission n g ≡ admitted d m → (g ≡ granted d) × (n ≡ m)
unfolding admission
admission-granted waiting d n m h = absurd cc
admission-granted refused d n m h = absurd cc
admission-granted (granted b) d n m h = (cc, cc)

admission-taken :
    (b d : Budget) (n m : ℕ)
    → admission n (acquire b n) ≡ admitted d m
    → (b.free ≡ d.free + min m b.total) × (d.total ≡ b.total) × (d.closed ≡ b.closed)
admission-taken b d n m h =
    let (p, q) = admission-granted (acquire b n) d n m h in
    subst (λ k. (b.free ≡ d.free + min k b.total) × (d.total ≡ b.total) × (d.closed ≡ b.closed)) q
      (acquire-taken b d n p)

admit-taken :
    (b d : Budget) (req : Request) (n : ℕ)
    → admit b req ≡ admitted d n
    → (b.free ≡ d.free + min n b.total) × (d.total ≡ b.total) × (d.closed ≡ b.closed)
unfolding admit
admit-taken b d req n h = ground (arith, admission-taken b d req.len n)

step-Accounts : (c d : Traffic) → Step c d → Accounts c → Accounts d
unfolding held held_pending release close
step-Accounts c d (read_request _ req b n r p e) a =
    let (x, y, z) = admit-taken c.money b req n e in
    record {
      balance =
          omega (arith, x, ap (min n) a.capacity, ap (held_pending in_flight_bytes) p, a.balance);
      capacity = y ∙ a.capacity;
      workers = a.workers;
      bounded = a.bounded;
      open_while_reading = λ q. z ∙ a.open_while_reading q;
    }
step-Accounts c d (start_worker _ n p s) a = record {
  balance = omega (arith, ap (held_pending in_flight_bytes) p, a.balance);
  capacity = a.capacity;
  workers = omega (arith, a.workers);
  bounded = omega (arith, a.bounded);
  open_while_reading = a.open_while_reading;
}
step-Accounts c d (lose_payload _ n p) a = record {
  balance = omega (arith, ap (min n) a.capacity, ap (held_pending in_flight_bytes) p, a.balance);
  capacity = a.capacity;
  workers = a.workers;
  bounded = a.bounded;
  open_while_reading = λ q. absurd cc;
}
step-Accounts c d (stop_reading _ r p) a = record {
  balance = a.balance;
  capacity = a.capacity;
  workers = a.workers;
  bounded = a.bounded;
  open_while_reading = λ q. absurd cc;
}
step-Accounts c d (give_back _ before after n e) a = record {
  balance = omega (
    arith,
    ap (min n) a.capacity,
    ap (held in_flight_bytes) e,
    held-middle in_flight_bytes n before after,
    a.balance,
  );
  capacity = a.capacity;
  workers = omega (arith, ap length e, length-middle n before after, a.workers);
  bounded = a.bounded;
  open_while_reading = a.open_while_reading;
}
step-Accounts c d (free_slot _ s) a = record {
  balance = a.balance;
  capacity = a.capacity;
  workers = omega arith;
  bounded = omega (arith, a.bounded);
  open_while_reading = a.open_while_reading;
}

reachable-Accounts : (c : Traffic) → Reachable c → Accounts c
unfolding new_traffic new_budget held held_pending
reachable-Accounts _ begin = record {
  balance = refl;
  capacity = refl;
  workers = omega arith;
  bounded = omega arith;
  open_while_reading = λ q. refl;
}
reachable-Accounts d (next c _ r s) = step-Accounts c d s (reachable-Accounts c r)

-- In every state that the reader and the workers of a connection reach, the bytes that are free and
-- those that the requests in flight hold are together the 64 MiB of the connection, and no more than
-- 16 requests run.
pub Reachable-balance :
    (c : Traffic)
    → Reachable c
    → (c.money.free + (held_pending in_flight_bytes c.pending + held in_flight_bytes c.running)
        ≡ in_flight_bytes)
      × (length c.running ≤ max_in_flight)
Reachable-balance c r =
    let a = reachable-Accounts c r in (a.balance, omega (arith, a.workers, a.bounded))

-- What a request of a size that the server takes holds of the budget.
abbrev pub share : Request → ℕ
share req = if (req.kind == cmd_write) || (req.kind == cmd_read) then req.len else 0

acquire-idle :
    (b : Budget) (n : ℕ)
    → b.closed ≡ false
    → b.free ≡ in_flight_bytes
    → b.total ≡ in_flight_bytes
    → acquire b n ≡ granted (record b { free = b.free - min n b.total })
unfolding acquire
acquire-idle b n c f t = ground arith

admit-grants :
    (b d : Budget) (req : Request)
    → acquire b req.len ≡ granted d
    → req.kind ≢ cmd_disc
    → req.len ≤ max_block
    → (x : Budget) × (admit b req ≡ admitted x (share req))
unfolding admit admission
admit-grants b d req h k l = elim (Bool-cases ((req.kind == cmd_write) || (req.kind == cmd_read))) [
  | inl q ↦
      let held : admission req.len (acquire b req.len) ≡ admitted d req.len =
        ap (admission req.len) h in
      (d, ground (arith, held, k))
  | inr q ↦ (b, ground (arith, k))
]

-- A connection that still reads and has nothing in flight takes every request but the one that ends
-- it at once, where its length is no more than the largest block: the reader never waits for a
-- budget that no one gives back.
pub idle-admits :
    (c : Traffic) (req : Request)
    → Reachable c
    → c.reading ≡ true
    → c.pending ≡ none
    → c.running ≡ []
    → req.kind ≢ cmd_disc
    → req.len ≤ max_block
    → (b : Budget) × (admit c.money req ≡ admitted b (share req))
unfolding held held_pending
idle-admits c req r going p idle k l =
    let a = reachable-Accounts c r in
    let free : c.money.free ≡ in_flight_bytes =
      omega
        (arith, a.balance, ap (held_pending in_flight_bytes) p, ap (held in_flight_bytes) idle) in
    admit-grants c.money _ req
      (acquire-idle c.money req.len (a.open_while_reading going) free a.capacity) k l
