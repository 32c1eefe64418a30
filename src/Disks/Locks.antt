-- ===== src/Disks/Locks.antt =====
-- internal/disks/locks.go: who may use a disk image. A session is a value, and the pointer to it its
-- `seq`, which NewSession makes different for each. The mode of a lease, its session and what it is
-- for are one value, a Demand, as every caller gives a session with Reader and Writer and none
-- otherwise. Random ids are arguments. `acquire` is one round of the loop of the source: a takeover
-- closes the session in the way, and the next round comes when that session is released.
pub mod Leases
pub mod Keeping
pub mod Releasing
pub mod Worlds
pub mod Compatible
pub mod Granting
use go_fs.Base.{
  ℕ, zero, suc, ◌+◌, ◌-◌, ◌*◌, ◌/◌, ◌%◌, ◌^◌, ◌≤◌, ◌<◌, min, max, ◌≡◌, refl, sym, ap, ◌∙◌, subst,
  ◌≢◌, ◌↔◌, ◌⊎◌, inl, inr, Bool, true, false, not, ◌&&◌, ◌||◌, Option, none, some, List, [], ◌∷◌,
  ◌++◌, map, append-nil, append_assoc, arith, ltb, leb, ◌==◌, if◌then◌else◌, ltb→lt, lt→ltb, ==_iff,
  Bool-cases, Option-cases, length, get_elem?, take, drop, replicate, length-append,
  take-append-drop, length-take, length-drop, take-length-append, take_all, drop_all,
  drop-length-append, All, All-append,
}
use go_fs.Base.Text.{Bytes, codes, bytes_eq, bytes_eq_iff, bytes_eq_refl, is_empty, bytes_leb}

pub record Session : Type 0 where
  pub id : Bytes
  pub account : Bytes
  pub client : Bytes
  pub fingerprint : Bytes
  pub seq : ℕ

pub data Demand : Type 0 where
  as_reader as_writer : Session → Demand
  as_hold : Demand
  as_exclusive : Bytes → Demand

pub record Lease : Type 0 where
  pub key : Bytes
  pub demand : Demand

pub record BusyError : Type 0 where
  pub name : Bytes
  pub reason : Bytes

pub record Entry : Type 0 where
  pub writer : Option Session
  pub readers : List Session
  pub holds : ℕ
  pub exclusive : Bytes

abbrev pub no_entry : Entry
no_entry = record { writer = none; readers = []; holds = 0; exclusive = [] }

-- The entries, the sessions by their id, and the sessions whose `released` is closed.
pub record Registry : Type 0 where
  pub entries : Bytes → Option Entry
  pub by_id : List (Bytes × Session)
  pub released : List ℕ

abbrev pub new_registry : Registry
new_registry = record { entries = λ k. none; by_id = []; released = [] }

unfoldable pub put : Bytes → Option Entry → (Bytes → Option Entry) → Bytes → Option Entry
put k e m j = if bytes_eq j k then e else m j

unfoldable pub no_readers : List Session → Bool
no_readers [] = true
no_readers (s ∷ readers) = false

unfoldable pub no_writer : Option Session → Bool
no_writer none = true
no_writer (some s) = false

-- `entry.empty`
unfoldable pub is_free : Entry → Bool
is_free e = no_writer e.writer && no_readers e.readers && e.holds == 0 && is_empty e.exclusive

unfoldable pub found : Option Entry → Entry
found none = no_entry
found (some e) = e

unfoldable pub entry_of : Registry → Bytes → Entry
unfolding found
entry_of r key = found (r.entries key)

unfoldable pub by : Session → Bytes
by s = codes "by " ++ (s.account ++ (codes " from " ++ s.client))

-- `sort.Strings`
unfoldable pub insert_text : Bytes → List Bytes → List Bytes
insert_text s [] = s ∷ []
insert_text s (t ∷ ts) =
    let rest = insert_text s ts in if bytes_leb s t then s ∷ (t ∷ ts) else t ∷ rest

unfoldable pub sorted_names : List Session → List Bytes
sorted_names [] = []
sorted_names (s ∷ readers) =
    insert_text (s.account ++ (codes " from " ++ s.client)) (sorted_names readers)

unfoldable pub join : List Bytes → Bytes
join [] = []
join (s ∷ []) = s
join (s ∷ (t ∷ ts)) = s ++ (codes ", " ++ join (t ∷ ts))

unfoldable pub by_all : List Session → Bytes
by_all readers = codes "by " ++ join (sorted_names readers)

-- What the `switch` of acquire finds: nothing in the way, a refusal, or a session to take over from.
pub data Verdict : Type 0 where
  unhindered : Verdict
  refusal : Bytes → Verdict
  victim : Session → Verdict

unfoldable pub judge_exclusive : Entry → Option Session → Verdict
judge_exclusive e (some w) = refusal (codes "is attached read-write " ++ by w)
judge_exclusive e none =
    if not (no_readers e.readers)
    then refusal (codes "is attached read-only " ++ by_all e.readers)
    else if ltb 0 e.holds
    then refusal (codes "is being downloaded or cloned")
    else unhindered

unfoldable pub judge_writer : Entry → Session → Option Session → Verdict
judge_writer e s (some w) =
    if not (is_empty s.fingerprint) && bytes_eq w.fingerprint s.fingerprint
    then victim w
    else refusal (codes "is attached read-write " ++ by w)
judge_writer e s none =
    if ltb 0 e.holds then refusal (codes "is being downloaded or cloned") else unhindered

unfoldable pub judge_hold : Option Session → Verdict
judge_hold (some w) = refusal (codes "is attached read-write " ++ by w)
judge_hold none = unhindered

unfoldable pub judge_demand : Entry → Demand → Verdict
judge_demand e (as_exclusive why) = judge_exclusive e e.writer
judge_demand e (as_writer s) = judge_writer e s e.writer
judge_demand e as_hold = judge_hold e.writer
judge_demand e (as_reader s) = unhindered

unfoldable pub judge : Entry → Demand → Verdict
judge e d =
    if not (is_empty e.exclusive) then refusal (codes "is " ++ e.exclusive) else judge_demand e d

-- `switch mode` behind the checks.
unfoldable pub take_lease : Entry → Demand → Entry
take_lease e (as_reader s) = record {
  writer = e.writer;
  readers = s ∷ e.readers;
  holds = e.holds;
  exclusive = e.exclusive;
}
take_lease e (as_writer s) = record {
  writer = some s;
  readers = e.readers;
  holds = e.holds;
  exclusive = e.exclusive;
}
take_lease e as_hold = record {
  writer = e.writer;
  readers = e.readers;
  holds = e.holds + 1;
  exclusive = e.exclusive;
}
take_lease e (as_exclusive why) = record {
  writer = e.writer;
  readers = e.readers;
  holds = e.holds;
  exclusive = why;
}

abbrev pub with_id : Bytes → Session → Session
with_id id s = record {
  id = id;
  account = s.account;
  client = s.client;
  fingerprint = s.fingerprint;
  seq = s.seq;
}

-- `session.ID = newID()`
unfoldable pub named : Bytes → Demand → Demand
named id (as_reader s) = as_reader (with_id id s)
named id (as_writer s) = as_writer (with_id id s)
named id as_hold = as_hold
named id (as_exclusive why) = as_exclusive why

unfoldable pub enter : Demand → List (Bytes × Session) → List (Bytes × Session)
enter (as_reader s) sessions = (s.id, s) ∷ sessions
enter (as_writer s) sessions = (s.id, s) ∷ sessions
enter as_hold sessions = sessions
enter (as_exclusive why) sessions = sessions

pub data Outcome : Type 0 where
  granted : Lease → Registry → Outcome
  refused : BusyError → Registry → Outcome
  takes_over : Session → Registry → Outcome

unfoldable pub with_entry : Registry → Bytes → Option Entry → Registry
unfolding put
with_entry r key e = record {
  entries = put key e r.entries;
  by_id = r.by_id;
  released = r.released;
}

unfoldable pub decide : Registry → Bytes → Bytes → Demand → Entry → Verdict → Outcome
unfolding with_entry
decide r key name d e unhindered =
    granted (record { key = key; demand = d })
      (record {
        entries = put key (some (take_lease e d)) r.entries;
        by_id = enter d r.by_id;
        released = r.released;
      })
decide r key name d e (refusal why) =
    refused (record { name = name; reason = why })
      (with_entry r key (if is_free e then none else some e))
decide r key name d e (victim w) = takes_over w (with_entry r key (some e))

unfoldable pub acquire : Registry → Bytes → Bytes → Demand → Bytes → Outcome
unfolding decide named entry_of judge
acquire r key name d id =
    decide r key name (named id d) (entry_of r key) (judge (entry_of r key) (named id d))

unfoldable pub leave : ℕ → List Session → List Session
leave n [] = []
leave n (s ∷ sessions) = let rest = leave n sessions in if s.seq == n then rest else s ∷ rest

unfoldable pub let_go_writer : Option Session → ℕ → Option Session
let_go_writer none n = none
let_go_writer (some w) n = if w.seq == n then none else some w

-- Only an image that is held is let go of, so `holds` is above 0 where it is lowered.
unfoldable pub drop_lease : Entry → Demand → Entry
drop_lease e (as_reader s) = record {
  writer = e.writer;
  readers = leave s.seq e.readers;
  holds = e.holds;
  exclusive = e.exclusive;
}
drop_lease e (as_writer s) = record {
  writer = let_go_writer e.writer s.seq;
  readers = e.readers;
  holds = e.holds;
  exclusive = e.exclusive;
}
drop_lease e as_hold = record {
  writer = e.writer;
  readers = e.readers;
  holds = e.holds - 1;
  exclusive = e.exclusive;
}
drop_lease e (as_exclusive why) = record {
  writer = e.writer;
  readers = e.readers;
  holds = e.holds;
  exclusive = [];
}

unfoldable pub drop_id : Bytes → List (Bytes × Session) → List (Bytes × Session)
drop_id id [] = []
drop_id id ((i, s) ∷ sessions) =
    let rest = drop_id id sessions in if bytes_eq i id then rest else (i, s) ∷ rest

unfoldable pub forget : Demand → List (Bytes × Session) → List (Bytes × Session)
forget (as_reader s) sessions = drop_id s.id sessions
forget (as_writer s) sessions = drop_id s.id sessions
forget as_hold sessions = sessions
forget (as_exclusive why) sessions = sessions

unfoldable pub let_go : Demand → List ℕ → List ℕ
let_go (as_reader s) released = s.seq ∷ released
let_go (as_writer s) released = s.seq ∷ released
let_go as_hold released = released
let_go (as_exclusive why) released = released

unfoldable pub kept : Entry → Option Entry
kept e = if is_free e then none else some e

unfoldable pub after_release : Option Entry → Demand → Option Entry
after_release none d = none
after_release (some e) d = kept (drop_lease e d)

unfoldable pub release : Registry → Lease → Registry
unfolding put after_release forget let_go
release r l = record {
  entries = put l.key (after_release (r.entries l.key) l.demand) r.entries;
  by_id = forget l.demand r.by_id;
  released = let_go l.demand r.released;
}

-- `bySeq`
unfoldable pub insert_seq : Session → List Session → List Session
insert_seq s [] = s ∷ []
insert_seq s (t ∷ ts) =
    let rest = insert_seq s ts in if ltb t.seq s.seq then t ∷ rest else s ∷ (t ∷ ts)

unfoldable pub by_seq : List Session → List Session
by_seq [] = []
by_seq (s ∷ sessions) = insert_seq s (by_seq sessions)

unfoldable pub holders : Option Session → List Session → List Session
holders none readers = readers
holders (some w) readers = w ∷ readers

-- What List reports of an image: its sessions, what it is locked for, and its holds.
unfoldable pub state : Registry → Bytes → List Session × Bytes × ℕ
unfolding by_seq entry_of holders
state r key = let e = entry_of r key in (by_seq (holders e.writer e.readers), e.exclusive, e.holds)

unfoldable pub sessions_of : List (Bytes × Session) → List Session
sessions_of [] = []
sessions_of ((id, s) ∷ more) = s ∷ sessions_of more

unfoldable pub sessions : Registry → List Session
unfolding by_seq sessions_of
sessions r = by_seq (sessions_of r.by_id)

-- The work in progress on staging files, by kind and key; `work` has no entry that is 0 or less.
unfoldable pub work_key : Bytes → Bytes → Bytes
work_key kind key = kind ++ (codes "/" ++ key)

unfoldable pub begin_work : (Bytes → ℕ) → Bytes → Bytes → Bytes → ℕ
unfolding work_key
begin_work work kind key j = if bytes_eq j (work_key kind key) then work j + 1 else work j

unfoldable pub end_work : (Bytes → ℕ) → Bytes → Bytes → Bytes → ℕ
unfolding work_key
end_work work kind key j = if bytes_eq j (work_key kind key) then work j - 1 else work j

unfoldable pub working : (Bytes → ℕ) → Bytes → Bytes → Bool
unfolding work_key
working work kind key = ltb 0 (work (work_key kind key))
