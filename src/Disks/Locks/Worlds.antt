-- ===== src/Disks/Locks/Worlds.antt =====
-- The registry of internal/disks/locks.go in use: leases are taken, refused and released in any order,
-- each under the mutex of the registry, and each lease is released once, as its `once` sees to.
use go_fs.Base.{
  ℕ, ◌≡◌, refl, sym, ap, ◌∙◌, subst, inl, inr, Bool, true, false, Option, some, List, [], ◌∷◌, ◌++◌,
  arith, if◌then◌else◌, Bool-cases, length,
}
use go_fs.Base.Text.{Bytes, bytes_eq, bytes_eq_iff, is_empty}
use go_fs.Disks.Locks.{
  Session, Demand, as_reader, as_writer, as_hold, as_exclusive, Lease, Entry, Registry,
  new_registry, put, is_free, found, entry_of, Verdict, unhindered, refusal, victim, judge,
  take_lease, named, enter, Outcome, granted, refused, takes_over, with_entry, decide, acquire,
  forget, let_go, kept, after_release, release,
}
use go_fs.Disks.Locks.Leases.{
  readers_of, writers_of, holds_of, exclusives_of, seqs_of, gather, seqs, distinct, all_absent,
  Fits, gather-elsewhere, has_reason, take_lease-Fits,
}
use go_fs.Disks.Locks.Keeping.{
  seqs-append, found-kept, found-after_release, gather-others, seqs-middle, distinct-middle,
}
use go_fs.Disks.Locks.Releasing.{drop_lease-Fits}

-- The registry, and the leases that are held.
pub record World : Type 0 where
  pub registry : Registry
  pub leases : List Lease

-- A session that is not one of those that hold a lease: NewSession makes each its own.
unfoldable pub is_new : Demand → List Lease → Bool
is_new d ls = all_absent (seqs_of d) (seqs ls)

abbrev pub registry_after : Outcome → Registry
registry_after (granted l r) = r
registry_after (refused b r) = r
registry_after (takes_over s r) = r

abbrev pub leases_after : List Lease → Outcome → List Lease
leases_after ls (granted l r) = l ∷ ls
leases_after ls (refused b r) = ls
leases_after ls (takes_over s r) = ls

-- One round of acquire, whatever comes of it, or the release of a lease that is held.
pub data Step : World → World → Type 0 where
  acquire_step :
      (r : Registry) (ls : List Lease) (key name : Bytes) (d : Demand) (id : Bytes) (w : World)
      → has_reason d ≡ true
      → is_new d ls ≡ true
      → w ≡ record {
        registry = registry_after (acquire r key name d id);
        leases = leases_after ls (acquire r key name d id);
      }
      → Step (record { registry = r; leases = ls }) w
  release_step :
      (r : Registry) (xs ys : List Lease) (l : Lease) (w w' : World)
      → w ≡ record { registry = r; leases = xs ++ (l ∷ ys) }
      → w' ≡ record { registry = release r l; leases = xs ++ ys }
      → Step w w'

pub data Reachable : World → Type 0 where
  at_start : Reachable (record { registry = new_registry; leases = [] })
  next : (w w' : World) → Reachable w → Step w w' → Reachable w'

-- Each entry fits the leases of its image, and the sessions differ.
pub record Sound (r : Registry) (ls : List Lease) : Type 0 where
  pub fits : (k : Bytes) → Fits ls k (entry_of r k)
  pub differ : distinct (seqs ls) ≡ true

entry_of-put :
    (r : Registry) (k : Bytes) (o : Option Entry) (ids : List (Bytes × Session)) (gone : List ℕ)
    (j : Bytes)
    → entry_of (record { entries = put k o r.entries; by_id = ids; released = gone }) j
      ≡ (if bytes_eq j k then found o else entry_of r j)
unfolding entry_of put
entry_of-put r k o ids gone j = ground arith

-- Leases that make nothing of another image leave its entry.
Fits-elsewhere :
    (xs ls : List Lease) (k : Bytes) (e : Entry)
    → (gather readers_of k xs ≡ gather readers_of k ls)
    → (gather writers_of k xs ≡ gather writers_of k ls)
    → (gather holds_of k xs ≡ gather holds_of k ls)
    → (gather exclusives_of k xs ≡ gather exclusives_of k ls)
    → Fits ls k e
    → Fits xs k e
Fits-elsewhere xs ls k e a b c d w = record {
  reads = a ∙ w.reads;
  writes = b ∙ w.writes;
  held = ap length c ∙ w.held;
  locked = d ∙ w.locked;
  still = w.still;
  unwritten = w.unwritten;
  unread = w.unread;
  unheld = w.unheld;
}

-- The image that an operation is about, and the others.
Fits-all :
    (r : Registry) (ls xs : List Lease) (key : Bytes) (o : Option Entry)
    (ids : List (Bytes × Session)) (gone : List ℕ)
    → Fits xs key (found o)
    → ((k : Bytes) → bytes_eq k key ≡ false → Fits xs k (entry_of r k))
    → (k : Bytes)
    → Fits xs k
        (entry_of (record { entries = put key o r.entries; by_id = ids; released = gone }) k)
Fits-all r ls xs key o ids gone h others k = elim (Bool-cases (bytes_eq k key)) [
  | inl e ↦
      let q : k ≡ key = (bytes_eq_iff k key).0 e in rw (entry_of-put r key o ids gone k, e) (rw q h)
  | inr e ↦ rw (entry_of-put r key o ids gone k, e) (others k e)
]

named-has_reason : (id : Bytes) (d : Demand) → has_reason (named id d) ≡ has_reason d
unfolding named has_reason
named-has_reason id (as_reader s) = refl
named-has_reason id (as_writer s) = refl
named-has_reason id as_hold = refl
named-has_reason id (as_exclusive why) = refl

named-is_new : (id : Bytes) (d : Demand) (ls : List Lease) → is_new (named id d) ls ≡ is_new d ls
unfolding named is_new
named-is_new id (as_reader s) ls = refl
named-is_new id (as_writer s) ls = refl
named-is_new id as_hold ls = refl
named-is_new id (as_exclusive why) ls = refl

distinct-new :
    (key : Bytes) (d : Demand) (ls : List Lease)
    → is_new d ls ≡ true
    → distinct (seqs ls) ≡ true
    → distinct (seqs (record { key = key; demand = d } ∷ ls)) ≡ true
unfolding is_new all_absent seqs distinct
distinct-new key (as_reader s) ls h k = ground arith
distinct-new key (as_writer s) ls h k = ground arith
distinct-new key as_hold ls h k = k
distinct-new key (as_exclusive why) ls h k = k

decide-Sound :
    (r : Registry) (ls : List Lease) (key name : Bytes) (d : Demand) (v : Verdict)
    → Sound r ls
    → judge (entry_of r key) d ≡ v
    → has_reason d ≡ true
    → is_new d ls ≡ true
    → Sound
        (registry_after (decide r key name d (entry_of r key) v))
        (leases_after ls (decide r key name d (entry_of r key) v))
unfolding decide with_entry is_free kept
decide-Sound r ls key name d unhindered w j h n =
    let l : Lease = record { key = key; demand = d } in
    record {
      fits =
          Fits-all r ls (l ∷ ls) key (some (take_lease (entry_of r key) d)) (enter d r.by_id)
            r.released (unfold found in take_lease-Fits ls key (entry_of r key) (w.fits key) d j h)
            (λ k e.
              Fits-elsewhere (l ∷ ls) ls k (entry_of r k) (gather-elsewhere readers_of k l ls e)
                (gather-elsewhere writers_of k l ls e) (gather-elsewhere holds_of k l ls e)
                (gather-elsewhere exclusives_of k l ls e) (w.fits k));
      differ = distinct-new key d ls n w.differ;
    }
decide-Sound r ls key name d (refusal why) w j h n = record {
  fits =
      Fits-all r ls ls key (kept (entry_of r key)) r.by_id r.released
        (rw (found-kept (entry_of r key)) (w.fits key)) (λ k e. w.fits k);
  differ = w.differ;
}
decide-Sound r ls key name d (victim s) w j h n = record {
  fits =
      Fits-all r ls ls key (some (entry_of r key)) r.by_id r.released (unfold found in w.fits key)
        (λ k e. w.fits k);
  differ = w.differ;
}

pub acquire-Sound :
    (r : Registry) (ls : List Lease) (key name : Bytes) (d : Demand) (id : Bytes)
    → Sound r ls
    → has_reason d ≡ true
    → is_new d ls ≡ true
    → Sound (registry_after (acquire r key name d id)) (leases_after ls (acquire r key name d id))
unfolding acquire
acquire-Sound r ls key name d id w h n =
    decide-Sound r ls key name (named id d) (judge (entry_of r key) (named id d)) w refl
      (named-has_reason id d ∙ h) (named-is_new id d ls ∙ n)

distinct-drop :
    (d : Demand) (ns ms : List ℕ)
    → distinct (ns ++ (seqs_of d ++ ms)) ≡ true
    → distinct (ns ++ ms) ≡ true
distinct-drop (as_reader s) ns ms h = (distinct-middle s.seq ns ms h).2
distinct-drop (as_writer s) ns ms h = (distinct-middle s.seq ns ms h).2
distinct-drop as_hold ns ms h = h
distinct-drop (as_exclusive why) ns ms h = h

pub release-Sound :
    (r : Registry) (xs ys : List Lease) (l : Lease)
    → Sound r (xs ++ (l ∷ ys))
    → Sound (release r l) (xs ++ ys)
unfolding release
release-Sound r xs ys l w = record {
  fits =
      Fits-all r (xs ++ (l ∷ ys)) (xs ++ ys) l.key (after_release (r.entries l.key) l.demand)
        (forget l.demand r.by_id) (let_go l.demand r.released)
        (rw (found-after_release (r.entries l.key) l.demand) (
          drop_lease-Fits xs ys l.key (found (r.entries l.key)) l.demand
            (unfold entry_of in w.fits l.key) w.differ))
        (λ k e.
          Fits-elsewhere (xs ++ ys) (xs ++ (l ∷ ys)) k (entry_of r k)
            (gather-others readers_of xs ys l k e) (gather-others writers_of xs ys l k e)
            (gather-others holds_of xs ys l k e) (gather-others exclusives_of xs ys l k e)
            (w.fits k));
  differ =
      ap distinct (seqs-append xs ys)
      ∙ distinct-drop l.demand (seqs xs) (seqs ys)
          (sym (ap distinct (seqs-middle xs ys l)) ∙ w.differ);
}

start-Sound : Sound new_registry []
unfolding entry_of found gather is_empty
start-Sound = record {
  fits = λ k. record {
    reads = refl;
    writes = refl;
    held = refl;
    locked = refl;
    still = λ p. refl;
    unwritten = λ p. refl;
    unread = λ p. refl;
    unheld = λ p. refl;
  };
  differ = unfold seqs distinct in refl;
}

Step-Sound : (w w' : World) → Step w w' → Sound w.registry w.leases → Sound w'.registry w'.leases
Step-Sound _ _ (acquire_step r ls key name d id w' h n e) s =
    subst (λ (t : World). Sound t.registry t.leases) (sym e)
      (acquire-Sound r ls key name d id s h n)
Step-Sound _ _ (release_step r xs ys l w w' p e) s =
    subst (λ (t : World). Sound t.registry t.leases) (sym e)
      (release-Sound r xs ys l (subst (λ (t : World). Sound t.registry t.leases) p s))

pub Reachable-Sound : (w : World) → Reachable w → Sound w.registry w.leases
Reachable-Sound _ at_start = start-Sound
Reachable-Sound _ (next w w' r s) = Step-Sound w w' s (Reachable-Sound w r)
