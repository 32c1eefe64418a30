-- ===== src/Disks/Locks/Leases.antt =====
-- The leases that are held, and the entry of internal/disks/locks.go that they make together.
use go_fs.Base.{
  ℕ, ◌≡◌, refl, sym, ap, ◌∙◌, inl, inr, Bool, true, false, not, ◌&&◌, Option, none, some, List, [],
  ◌∷◌, ◌++◌, append_assoc, arith, ◌==◌, if◌then◌else◌, Bool-cases, Option-cases, List-cases, length,
}
use go_fs.Base.Text.{Bytes, bytes_eq, bytes_eq_refl, is_empty}
use go_fs.Disks.Locks.{
  Session, Demand, as_reader, as_writer, as_hold, as_exclusive, Lease, Entry, no_readers, no_writer,
  unhindered, judge_exclusive, judge_writer, judge_hold, judge_demand, judge, take_lease,
}

abbrev pub readers_of : Demand → List Session
readers_of (as_reader s) = s ∷ []
readers_of (as_writer s) = []
readers_of as_hold = []
readers_of (as_exclusive why) = []

abbrev pub writers_of : Demand → List Session
writers_of (as_reader s) = []
writers_of (as_writer s) = s ∷ []
writers_of as_hold = []
writers_of (as_exclusive why) = []

abbrev pub holds_of : Demand → List ℕ
holds_of (as_reader s) = []
holds_of (as_writer s) = []
holds_of as_hold = 1 ∷ []
holds_of (as_exclusive why) = []

abbrev pub exclusives_of : Demand → List Bytes
exclusives_of (as_reader s) = []
exclusives_of (as_writer s) = []
exclusives_of as_hold = []
exclusives_of (as_exclusive why) = why ∷ []

abbrev pub seqs_of : Demand → List ℕ
seqs_of (as_reader s) = s.seq ∷ []
seqs_of (as_writer s) = s.seq ∷ []
seqs_of as_hold = []
seqs_of (as_exclusive why) = []

-- What the leases of one image hold together.
unfoldable pub gather : {A : Type 0} → (Demand → List A) → Bytes → List Lease → List A
gather f k [] = []
gather f k (l ∷ ls) = if bytes_eq k l.key then f l.demand ++ gather f k ls else gather f k ls

unfoldable pub seqs : List Lease → List ℕ
seqs [] = []
seqs (l ∷ ls) = seqs_of l.demand ++ seqs ls

unfoldable pub absent : ℕ → List ℕ → Bool
absent n [] = true
absent n (m ∷ ms) = not (m == n) && absent n ms

unfoldable pub distinct : List ℕ → Bool
distinct [] = true
distinct (n ∷ ns) = absent n ns && distinct ns

unfoldable pub all_absent : List ℕ → List ℕ → Bool
all_absent [] ms = true
all_absent (n ∷ ns) ms = absent n ms && all_absent ns ms

abbrev pub as_list : Option Session → List Session
as_list none = []
as_list (some s) = s ∷ []

-- The entry of an image is what its leases make of it, and they get along.
pub record Fits (ls : List Lease) (k : Bytes) (e : Entry) : Type 0 where
  pub reads : gather readers_of k ls ≡ e.readers
  pub writes : gather writers_of k ls ≡ as_list e.writer
  pub held : length (gather holds_of k ls) ≡ e.holds
  pub locked : gather exclusives_of k ls ≡ (if is_empty e.exclusive then [] else e.exclusive ∷ [])
  pub still : no_writer e.writer ≡ false → e.holds ≡ 0
  pub unwritten : is_empty e.exclusive ≡ false → e.writer ≡ none
  pub unread : is_empty e.exclusive ≡ false → e.readers ≡ []
  pub unheld : is_empty e.exclusive ≡ false → e.holds ≡ 0

module _ {A : Type 0} (f : Demand → List A) where
  pub gather-append :
      (k : Bytes) (xs ys : List Lease) → gather f k (xs ++ ys) ≡ gather f k xs ++ gather f k ys
  unfolding gather
  gather-append k [] ys = refl
  gather-append k (l ∷ xs) ys = elim (Bool-cases (bytes_eq k l.key)) [
    | inl e ↦ rw e (
        ap (λ t. f l.demand ++ t) (gather-append k xs ys)
        ∙ sym (append_assoc (f l.demand) (gather f k xs) (gather f k ys)))
    | inr e ↦ rw e (gather-append k xs ys)
  ]

  pub gather-here :
      (k : Bytes) (l : Lease) (ls : List Lease)
      → bytes_eq k l.key ≡ true
      → gather f k (l ∷ ls) ≡ f l.demand ++ gather f k ls
  unfolding gather
  gather-here k l ls e = rw e refl

  pub gather-elsewhere :
      (k : Bytes) (l : Lease) (ls : List Lease)
      → bytes_eq k l.key ≡ false
      → gather f k (l ∷ ls) ≡ gather f k ls
  unfolding gather
  gather-elsewhere k l ls e = rw e refl

-- An exclusive lease is for something.
unfoldable pub has_reason : Demand → Bool
has_reason (as_reader s) = true
has_reason (as_writer s) = true
has_reason as_hold = true
has_reason (as_exclusive why) = not (is_empty why)

clear_writer :
    (e : Entry) (s : Session)
    → judge e (as_writer s) ≡ unhindered
    → (e.writer ≡ none) × (e.holds ≡ 0)
unfolding judge judge_demand judge_writer
clear_writer e s h = elim (Option-cases e.writer) [
  | inl p ↦ (p, ground arith)
  | inr (w, p) ↦ ground arith
]

clear_hold : (e : Entry) → judge e as_hold ≡ unhindered → e.writer ≡ none
unfolding judge judge_demand judge_hold
clear_hold e h = elim (Option-cases e.writer) [ inl p ↦ p | inr (w, p) ↦ ground arith ]

clear_exclusive :
    (e : Entry) (why : Bytes)
    → judge e (as_exclusive why) ≡ unhindered
    → (e.writer ≡ none) × (e.readers ≡ []) × (e.holds ≡ 0)
unfolding judge judge_demand judge_exclusive no_readers
clear_exclusive e why h = elim (Option-cases e.writer) [
  | inl p ↦ elim (List-cases e.readers) [
    | inl q ↦ (p, q, ground arith)
    | inr (s, t, q) ↦ ground arith
  ]
  | inr (w, p) ↦ ground arith
]

-- A demand that nothing is in the way of fits among the leases.
module _ (ls : List Lease) (k : Bytes) (e : Entry) (w : Fits ls k e) where
  here :
      {A : Type 0} (f : Demand → List A) (d : Demand)
      → gather f k (record { key = k; demand = d } ∷ ls) ≡ f d ++ gather f k ls
  here f d = gather-here f k (record { key = k; demand = d }) ls (bytes_eq_refl k)

  open_entry : (d : Demand) → judge e d ≡ unhindered → is_empty e.exclusive ≡ true
  unfolding judge
  open_entry d h = ground arith

  pub take_lease-Fits :
      (d : Demand)
      → judge e d ≡ unhindered
      → has_reason d ≡ true
      → Fits (record { key = k; demand = d } ∷ ls) k (take_lease e d)
  unfolding take_lease has_reason
  take_lease-Fits (as_reader s) h n =
      let o = open_entry (as_reader s) h in
      record {
        reads = here readers_of (as_reader s) ∙ ap (λ t. s ∷ t) w.reads;
        writes = here writers_of (as_reader s) ∙ w.writes;
        held = ap length (here holds_of (as_reader s)) ∙ w.held;
        locked = here exclusives_of (as_reader s) ∙ w.locked;
        still = w.still;
        unwritten = λ p. cc;
        unread = λ p. cc;
        unheld = λ p. cc;
      }
  take_lease-Fits (as_writer s) h n =
      let o = open_entry (as_writer s) h in
      let c = clear_writer e s h in
      record {
        reads = here readers_of (as_writer s) ∙ w.reads;
        writes = here writers_of (as_writer s) ∙ ap (λ t. s ∷ t) (w.writes ∙ ap as_list c.0);
        held = ap length (here holds_of (as_writer s)) ∙ w.held;
        locked = here exclusives_of (as_writer s) ∙ w.locked;
        still = λ p. c.1;
        unwritten = λ p. cc;
        unread = λ p. cc;
        unheld = λ p. cc;
      }
  take_lease-Fits as_hold h n =
      let o = open_entry as_hold h in
      let c = clear_hold e h in
      record {
        reads = here readers_of as_hold ∙ w.reads;
        writes = here writers_of as_hold ∙ w.writes;
        held = omega (arith, ap length (here holds_of as_hold), w.held);
        locked = here exclusives_of as_hold ∙ w.locked;
        still = unfold no_writer in λ p. ground arith;
        unwritten = λ p. cc;
        unread = λ p. cc;
        unheld = λ p. cc;
      }
  take_lease-Fits (as_exclusive why) h n =
      let o = open_entry (as_exclusive why) h in
      let c = clear_exclusive e why h in
      record {
        reads = here readers_of (as_exclusive why) ∙ w.reads;
        writes = here writers_of (as_exclusive why) ∙ w.writes;
        held = ap length (here holds_of (as_exclusive why)) ∙ w.held;
        locked = ground (arith, here exclusives_of (as_exclusive why), w.locked);
        still = λ p. c.2;
        unwritten = λ p. c.0;
        unread = λ p. c.1;
        unheld = λ p. c.2;
      }
