-- ===== src/Disks/Locks/Keeping.antt =====
-- Releases of internal/disks/locks.go, from among the leases that are held.
use go_fs.Base.{
  ℕ, ◌≡◌, refl, sym, ap, ◌∙◌, inl, inr, Bool, true, false, ◌&&◌, Option, none, some, List, [], ◌∷◌,
  ◌++◌, append_assoc, arith, if◌then◌else◌, Option-cases, List-cases,
}
use go_fs.Base.Text.{Bytes, bytes_eq, bytes_eq_refl, is_empty}
use go_fs.Disks.Locks.{
  Session, Demand, as_reader, as_writer, as_hold, as_exclusive, Lease, Entry, no_entry, no_readers,
  no_writer, is_free, found, leave, let_go_writer, drop_lease, kept, after_release,
}
use go_fs.Disks.Locks.Leases.{
  readers_of, seqs_of, gather, seqs, absent, distinct, as_list, gather-append, gather-here,
  gather-elsewhere,
}

-- What found makes of an entry that is kept only while something holds it.
pub found-kept : (e : Entry) → found (kept e) ≡ e
unfolding found kept is_free no_writer no_readers is_empty
found-kept e = elim (Option-cases e.writer) [
  | inl p ↦ elim (List-cases e.readers) [
    | inl q ↦ elim (List-cases e.exclusive) [
      | inl r ↦ ground (arith, p, q, r)
      | inr (c, t, r) ↦ ground (arith, p, q, r)
    ]
    | inr (s, t, q) ↦ ground (arith, p, q)
  ]
  | inr (w, p) ↦ ground (arith, p)
]

drop_lease-no_entry : (d : Demand) → drop_lease no_entry d ≡ no_entry
unfolding drop_lease leave let_go_writer
drop_lease-no_entry (as_reader s) = refl
drop_lease-no_entry (as_writer s) = refl
drop_lease-no_entry as_hold = refl
drop_lease-no_entry (as_exclusive why) = refl

pub found-after_release :
    (o : Option Entry) (d : Demand) → found (after_release o d) ≡ drop_lease (found o) d
unfolding after_release found
found-after_release none d = sym (drop_lease-no_entry d)
found-after_release (some e) d = found-kept (drop_lease e d)

pub leave-append : (n : ℕ) (xs ys : List Session) → leave n (xs ++ ys) ≡ leave n xs ++ leave n ys
unfolding leave
leave-append n [] ys = refl
leave-append n (s ∷ xs) ys = ground (arith, leave-append n xs ys)

pub absent-append : (n : ℕ) (xs ys : List ℕ) → absent n (xs ++ ys) ≡ (absent n xs && absent n ys)
unfolding absent
absent-append n [] ys = refl
absent-append n (x ∷ xs) ys = ground (arith, absent-append n xs ys)

leave-front :
    (n : ℕ) (d : Demand) (b : Bool) (rest : List Session)
    → absent n (seqs_of d) ≡ true
    → leave n rest ≡ rest
    → leave n (if b then readers_of d ++ rest else rest)
      ≡ (if b then readers_of d ++ rest else rest)
unfolding leave absent
leave-front n d false rest h ih = ih
leave-front n (as_reader s) true rest h ih = ground arith
leave-front n (as_writer s) true rest h ih = ih
leave-front n as_hold true rest h ih = ih
leave-front n (as_exclusive why) true rest h ih = ih

-- A session that holds none of the leases is not among the readers.
pub leave-absent :
    (n : ℕ) (k : Bytes) (ls : List Lease)
    → absent n (seqs ls) ≡ true
    → leave n (gather readers_of k ls) ≡ gather readers_of k ls
unfolding gather seqs
leave-absent n k [] h = unfold leave in refl
leave-absent n k (l ∷ ls) h =
    let a = absent-append n (seqs_of l.demand) (seqs ls) in
    leave-front n l.demand (bytes_eq k l.key) (gather readers_of k ls) (ground arith)
      (leave-absent n k ls (ground arith))

pub seqs-append : (xs ys : List Lease) → seqs (xs ++ ys) ≡ seqs xs ++ seqs ys
unfolding seqs
seqs-append [] ys = refl
seqs-append (l ∷ xs) ys =
    ap (λ t. seqs_of l.demand ++ t) (seqs-append xs ys)
    ∙ sym (append_assoc (seqs_of l.demand) (seqs xs) (seqs ys))

-- One of distinct numbers is not among the others.
pub distinct-middle :
    (n : ℕ) (xs ys : List ℕ)
    → distinct (xs ++ (n ∷ ys)) ≡ true
    → (absent n xs ≡ true) × (absent n ys ≡ true) × (distinct (xs ++ ys) ≡ true)
unfolding distinct absent
distinct-middle n [] ys h = ground arith
distinct-middle n (x ∷ xs) ys h =
    ground (arith, distinct-middle n xs ys, absent-append x xs (n ∷ ys), absent-append x xs ys)

pub seqs-middle :
    (xs ys : List Lease) (l : Lease)
    → seqs (xs ++ (l ∷ ys)) ≡ seqs xs ++ (seqs_of l.demand ++ seqs ys)
unfolding seqs
seqs-middle xs ys l = seqs-append xs (l ∷ ys)

module _ {A : Type 0} (f : Demand → List A) (xs ys : List Lease) (l : Lease) where
  pub gather-middle :
      gather f l.key (xs ++ (l ∷ ys)) ≡ gather f l.key xs ++ (f l.demand ++ gather f l.key ys)
  gather-middle =
      gather-append f l.key xs (l ∷ ys)
      ∙ ap (λ t. gather f l.key xs ++ t) (gather-here f l.key l ys (bytes_eq_refl l.key))

  -- What does not count l is what it was.
  pub gather-unmoved : f l.demand ≡ [] → gather f l.key (xs ++ ys) ≡ gather f l.key (xs ++ (l ∷ ys))
  gather-unmoved e =
      gather-append f l.key xs ys
      ∙ sym (gather-middle ∙ ap (λ t. gather f l.key xs ++ (t ++ gather f l.key ys)) e)

  pub gather-others :
      (k : Bytes) → bytes_eq k l.key ≡ false → gather f k (xs ++ ys) ≡ gather f k (xs ++ (l ∷ ys))
  gather-others k e =
      gather-append f k xs ys
      ∙ sym (
          gather-append f k xs (l ∷ ys)
          ∙ ap (λ t. gather f k xs ++ t) (gather-elsewhere f k l ys e))

pub single :
    (A B : List Session) (s : Session) (o : Option Session)
    → A ++ (s ∷ B) ≡ as_list o
    → (A ≡ []) × (B ≡ []) × (o ≡ some s)
single [] [] s none h = ground arith
single [] [] s (some t) h = ground arith
single [] (b ∷ B) s none h = ground arith
single [] (b ∷ B) s (some t) h = ground arith
single (a ∷ []) B s none h = ground arith
single (a ∷ []) B s (some t) h = ground arith
single (a ∷ (a' ∷ A)) B s none h = ground arith
single (a ∷ (a' ∷ A)) B s (some t) h = ground arith

pub single_reason :
    (A B : List Bytes) (s o : Bytes)
    → A ++ (s ∷ B) ≡ (if is_empty o then [] else o ∷ [])
    → (A ≡ []) × (B ≡ [])
unfolding is_empty
single_reason A B s [] h = elim (List-cases A) [
  | inl p ↦ ground (arith, p)
  | inr (a, t, p) ↦ ground (arith, p)
]
single_reason A B s (c ∷ o) h = elim (List-cases A) [
  | inl p ↦ elim (List-cases B) [ inl q ↦ (p, q) | inr (b, t, q) ↦ ground (arith, p, q) ]
  | inr (a, [], p) ↦ ground (arith, p)
  | inr (a, b ∷ t, p) ↦ ground (arith, p)
]
