-- ===== src/Disks/Locks/Releasing.antt =====
-- An entry of internal/disks/locks.go fits the leases that are left when one is released.
use go_fs.Base.{
  ℕ, ◌≡◌, refl, sym, ap, ◌∙◌, true, false, Option, none, some, List, [], ◌∷◌, ◌++◌, arith, length,
  length-append,
}
use go_fs.Base.Text.{Bytes, is_empty}
use go_fs.Disks.Locks.{
  Session, Demand, as_reader, as_writer, as_hold, as_exclusive, Lease, Entry, no_writer, leave,
  let_go_writer, drop_lease,
}
use go_fs.Disks.Locks.Leases.{
  readers_of, writers_of, holds_of, exclusives_of, gather, seqs, absent, distinct, Fits,
  gather-append,
}
use go_fs.Disks.Locks.Keeping.{
  gather-middle, gather-unmoved, leave-append, leave-absent, seqs-middle, distinct-middle, single,
  single_reason,
}

module _ (xs ys : List Lease) (k : Bytes) (e : Entry) where
  abbrev with_lease : Demand → List Lease
  with_lease d = xs ++ (record { key = k; demand = d } ∷ ys)

  middle :
      {A : Type 0} (f : Demand → List A) (d : Demand)
      → gather f k (with_lease d) ≡ gather f k xs ++ (f d ++ gather f k ys)
  middle f d = gather-middle f xs ys (record { key = k; demand = d })

  unmoved :
      {A : Type 0} (f : Demand → List A) (d : Demand)
      → f d ≡ []
      → gather f k (xs ++ ys) ≡ gather f k (with_lease d)
  unmoved f d h = gather-unmoved f xs ys (record { key = k; demand = d }) h

  drop_reader :
      (s : Session)
      → Fits (with_lease (as_reader s)) k e
      → absent s.seq (seqs xs) ≡ true
      → absent s.seq (seqs ys) ≡ true
      → Fits (xs ++ ys) k (drop_lease e (as_reader s))
  unfolding drop_lease
  drop_reader s w a b =
      let d = as_reader s in
      record {
        reads =
            gather-append readers_of k xs ys
            ∙ sym (ap (leave s.seq) (sym w.reads ∙ middle readers_of d) ∙ readers_left s a b);
        writes = unmoved writers_of d refl ∙ w.writes;
        held = ap length (unmoved holds_of d refl) ∙ w.held;
        locked = unmoved exclusives_of d refl ∙ w.locked;
        still = w.still;
        unwritten = w.unwritten;
        unread = λ p. ap (leave s.seq) (w.unread p) ∙ leave_none s.seq;
        unheld = w.unheld;
      }
    where
      leave_none : (n : ℕ) → leave n [] ≡ []
      leave_none n = unfold leave in refl

      readers_left :
          (s : Session)
          → absent s.seq (seqs xs) ≡ true
          → absent s.seq (seqs ys) ≡ true
          → leave s.seq (gather readers_of k xs ++ (s ∷ gather readers_of k ys))
            ≡ gather readers_of k xs ++ gather readers_of k ys
      readers_left s a b =
          leave-append s.seq (gather readers_of k xs) (s ∷ gather readers_of k ys)
          ∙ unfold leave in ground (arith, leave-absent s.seq k xs a, leave-absent s.seq k ys b)

  drop_writer :
      (s : Session)
      → Fits (with_lease (as_writer s)) k e
      → Fits (xs ++ ys) k (drop_lease e (as_writer s))
  unfolding drop_lease
  drop_writer s w =
      let d = as_writer s in
      let o =
        single (gather writers_of k xs) (gather writers_of k ys) s e.writer
          (sym (middle writers_of d) ∙ w.writes) in
      let gone : let_go_writer e.writer s.seq ≡ none =
        ap (λ t. let_go_writer t s.seq) (o.2) ∙ leaves s in
      record {
        reads = unmoved readers_of d refl ∙ w.reads;
        writes = gather-append writers_of k xs ys ∙ rw (gone, o.0, o.1) refl;
        held = ap length (unmoved holds_of d refl) ∙ w.held;
        locked = unmoved exclusives_of d refl ∙ w.locked;
        still = λ p. absurd_writer (let_go_writer e.writer s.seq) gone p;
        unwritten = λ p. gone;
        unread = w.unread;
        unheld = w.unheld;
      }
    where
      leaves : (s : Session) → let_go_writer (some s) s.seq ≡ none
      leaves s = unfold let_go_writer in ground arith

      absurd_writer : (t : Option Session) → t ≡ none → no_writer t ≡ false → e.holds ≡ 0
      absurd_writer t g p = unfold no_writer in ground arith

  drop_hold : Fits (with_lease as_hold) k e → Fits (xs ++ ys) k (drop_lease e as_hold)
  unfolding drop_lease
  drop_hold w = record {
    reads = unmoved readers_of as_hold refl ∙ w.reads;
    writes = unmoved writers_of as_hold refl ∙ w.writes;
    held = omega (
      arith,
      ap length (gather-append holds_of k xs ys),
      ap length (middle holds_of as_hold),
      length-append (gather holds_of k xs) (gather holds_of k ys),
      length-append (gather holds_of k xs) (1 ∷ gather holds_of k ys),
      w.held,
    );
    locked = unmoved exclusives_of as_hold refl ∙ w.locked;
    still = λ p. omega (arith, w.still p);
    unwritten = w.unwritten;
    unread = w.unread;
    unheld = λ p. omega (arith, w.unheld p);
  }

  drop_exclusive :
      (why : Bytes)
      → Fits (with_lease (as_exclusive why)) k e
      → Fits (xs ++ ys) k (drop_lease e (as_exclusive why))
  unfolding drop_lease is_empty
  drop_exclusive why w =
      let d = as_exclusive why in
      let o =
        single_reason (gather exclusives_of k xs) (gather exclusives_of k ys) why e.exclusive
          (sym (middle exclusives_of d) ∙ w.locked) in
      record {
        reads = unmoved readers_of d refl ∙ w.reads;
        writes = unmoved writers_of d refl ∙ w.writes;
        held = ap length (unmoved holds_of d refl) ∙ w.held;
        locked = gather-append exclusives_of k xs ys ∙ rw (o.0, o.1) refl;
        still = w.still;
        unwritten = λ p. cc;
        unread = λ p. cc;
        unheld = λ p. cc;
      }

pub drop_lease-Fits :
    (xs ys : List Lease) (k : Bytes) (e : Entry) (d : Demand)
    → Fits (xs ++ (record { key = k; demand = d } ∷ ys)) k e
    → distinct (seqs (xs ++ (record { key = k; demand = d } ∷ ys))) ≡ true
    → Fits (xs ++ ys) k (drop_lease e d)
drop_lease-Fits xs ys k e (as_reader s) w h =
    let m =
      distinct-middle s.seq (seqs xs) (seqs ys)
        (sym (ap distinct (seqs-middle xs ys (record { key = k; demand = as_reader s }))) ∙ h) in
    drop_reader xs ys k e s w (m.0) (m.1)
drop_lease-Fits xs ys k e (as_writer s) w h = drop_writer xs ys k e s w
drop_lease-Fits xs ys k e as_hold w h = drop_hold xs ys k e w
drop_lease-Fits xs ys k e (as_exclusive why) w h = drop_exclusive xs ys k e why w
