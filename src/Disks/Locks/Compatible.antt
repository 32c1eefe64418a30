-- ===== src/Disks/Locks/Compatible.antt =====
-- Which leases of internal/disks/locks.go may be held together, by a table of the modes.
use go_fs.Base.{
  ℕ, ◌≡◌, refl, sym, inl, inr, Bool, true, false, ◌&&◌, none, List, [], ◌∷◌, ◌++◌, arith, ◌==◌,
  if◌then◌else◌, Bool-cases, Option-cases, List-cases, length,
}
use go_fs.Base.Text.{Bytes, bytes_eq, is_empty}
use go_fs.Disks.Locks.{
  Session, Demand, as_reader, as_writer, as_hold, as_exclusive, Lease, Entry, no_readers, no_writer,
  Verdict, unhindered, refusal, victim, judge_exclusive, judge_writer, judge_hold, judge_demand,
  judge, Outcome, granted, refused, takes_over,
}
use go_fs.Disks.Locks.Leases.{
  readers_of, writers_of, holds_of, exclusives_of, gather, as_list, Fits, gather-here,
  gather-elsewhere,
}

-- Readers go with all but an exclusive lease, holds with readers and holds, and a writer with readers.
abbrev pub compatible : Demand → Demand → Bool
compatible (as_reader s) (as_exclusive why) = false
compatible (as_reader s) (as_reader t) = true
compatible (as_reader s) (as_writer t) = true
compatible (as_reader s) as_hold = true
compatible (as_writer s) (as_reader t) = true
compatible (as_writer s) (as_writer t) = false
compatible (as_writer s) as_hold = false
compatible (as_writer s) (as_exclusive why) = false
compatible as_hold (as_reader t) = true
compatible as_hold (as_writer t) = false
compatible as_hold as_hold = true
compatible as_hold (as_exclusive why) = false
compatible (as_exclusive why) d = false

-- A demand for an image goes with every lease that is held on it.
unfoldable pub welcome : Bytes → Demand → List Lease → Bool
welcome key d [] = true
welcome key d (l ∷ ls) =
    (if bytes_eq key l.key then compatible d l.demand else true) && welcome key d ls

-- Every lease goes with the others of its image.
unfoldable pub all_compatible : List Lease → Bool
unfolding welcome
all_compatible [] = true
all_compatible (l ∷ ls) = welcome l.key l.demand ls && all_compatible ls

unfoldable pub is_granted : Outcome → Bool
is_granted (granted l r) = true
is_granted (refused b r) = false
is_granted (takes_over s r) = false

unfoldable pub is_clear : Verdict → Bool
is_clear unhindered = true
is_clear (refusal why) = false
is_clear (victim s) = false

-- What so many leases of each mode leave free: x exclusive ones, w of writers, h holds, n of readers.
unfoldable pub free_count : Demand → ℕ → ℕ → ℕ → ℕ → Bool
free_count (as_reader s) x w h n = x == 0
free_count (as_writer s) x w h n = x == 0 && w == 0 && h == 0
free_count as_hold x w h n = x == 0 && w == 0
free_count (as_exclusive why) x w h n = x == 0 && w == 0 && h == 0 && n == 0

unfoldable pub free_of : Bytes → Demand → List Lease → Bool
unfolding free_count
free_of k d ls =
    free_count d (length (gather exclusives_of k ls)) (length (gather writers_of k ls))
      (length (gather holds_of k ls)) (length (gather readers_of k ls))

free_count-more :
    (d d' : Demand) (xs : List Bytes) (ws : List Session) (hs : List ℕ) (ns : List Session)
    → free_count d
        (length (exclusives_of d' ++ xs))
        (length (writers_of d' ++ ws))
        (length (holds_of d' ++ hs))
        (length (readers_of d' ++ ns))
      ≡ (compatible d d' && free_count d (length xs) (length ws) (length hs) (length ns))
unfolding free_count
free_count-more (as_reader s) (as_reader t) xs ws hs ns = ground arith
free_count-more (as_reader s) (as_writer t) xs ws hs ns = ground arith
free_count-more (as_reader s) as_hold xs ws hs ns = ground arith
free_count-more (as_reader s) (as_exclusive because) xs ws hs ns = ground arith
free_count-more (as_writer s) (as_reader t) xs ws hs ns = ground arith
free_count-more (as_writer s) (as_writer t) xs ws hs ns = ground arith
free_count-more (as_writer s) as_hold xs ws hs ns = ground arith
free_count-more (as_writer s) (as_exclusive because) xs ws hs ns = ground arith
free_count-more as_hold (as_reader t) xs ws hs ns = ground arith
free_count-more as_hold (as_writer t) xs ws hs ns = ground arith
free_count-more as_hold as_hold xs ws hs ns = ground arith
free_count-more as_hold (as_exclusive because) xs ws hs ns = ground arith
free_count-more (as_exclusive why) (as_reader t) xs ws hs ns = ground arith
free_count-more (as_exclusive why) (as_writer t) xs ws hs ns = ground arith
free_count-more (as_exclusive why) as_hold xs ws hs ns = ground arith
free_count-more (as_exclusive why) (as_exclusive because) xs ws hs ns = ground arith

free_of-here :
    (k : Bytes) (d : Demand) (l : Lease) (ls : List Lease)
    → bytes_eq k l.key ≡ true
    → free_of k d (l ∷ ls) ≡ (compatible d l.demand && free_of k d ls)
unfolding free_of
free_of-here k d l ls e =
    rw
      (
        gather-here exclusives_of k l ls e,
        gather-here writers_of k l ls e,
        gather-here holds_of k l ls e,
        gather-here readers_of k l ls e,
      )
      (free_count-more d l.demand (gather exclusives_of k ls) (gather writers_of k ls)
        (gather holds_of k ls) (gather readers_of k ls))

free_of-elsewhere :
    (k : Bytes) (d : Demand) (l : Lease) (ls : List Lease)
    → bytes_eq k l.key ≡ false
    → free_of k d (l ∷ ls) ≡ free_of k d ls
unfolding free_of
free_of-elsewhere k d l ls e =
    rw
      (
        gather-elsewhere exclusives_of k l ls e,
        gather-elsewhere writers_of k l ls e,
        gather-elsewhere holds_of k l ls e,
        gather-elsewhere readers_of k l ls e,
      )
      refl

pub welcome-free_of : (k : Bytes) (d : Demand) (ls : List Lease) → welcome k d ls ≡ free_of k d ls
unfolding welcome
welcome-free_of k (as_reader s) [] = unfold free_of free_count gather in refl
welcome-free_of k (as_writer s) [] = unfold free_of free_count gather in refl
welcome-free_of k as_hold [] = unfold free_of free_count gather in refl
welcome-free_of k (as_exclusive why) [] = unfold free_of free_count gather in refl
welcome-free_of k d (l ∷ ls) = elim (Bool-cases (bytes_eq k l.key)) [
  | inl e ↦ rw (e, welcome-free_of k d ls) (sym (free_of-here k d l ls e))
  | inr e ↦ rw (e, welcome-free_of k d ls) (sym (free_of-elsewhere k d l ls e))
]

locked_count : (o : Bytes) → (length (if is_empty o then [] else o ∷ []) == 0) ≡ is_empty o
unfolding is_empty
locked_count [] = refl
locked_count (c ∷ o) = refl

judge-free_count :
    (e : Entry) (d : Demand)
    → (no_writer e.writer ≡ false → e.holds ≡ 0)
    → (is_empty e.exclusive ≡ false → e.writer ≡ none)
    → is_clear (judge e d)
      ≡ free_count d
          (length (if is_empty e.exclusive then [] else e.exclusive ∷ []))
          (length (as_list e.writer))
          e.holds
          (length e.readers)
unfolding judge judge_demand judge_exclusive judge_writer judge_hold is_clear no_readers free_count
judge-free_count e (as_reader s) p q = ground (arith, locked_count e.exclusive)
judge-free_count e (as_writer s) p q = elim (Option-cases e.writer) [
  | inl o ↦ ground (arith, locked_count e.exclusive, o)
  | inr (t, o) ↦ ground (arith, locked_count e.exclusive, o)
]
judge-free_count e as_hold p q = elim (Option-cases e.writer) [
  | inl o ↦ ground (arith, locked_count e.exclusive, o)
  | inr (t, o) ↦ ground (arith, locked_count e.exclusive, o)
]
judge-free_count e (as_exclusive why) p q = elim (Option-cases e.writer) [
  | inl o ↦ elim (List-cases e.readers) [
    | inl r ↦ ground (arith, locked_count e.exclusive, o, r)
    | inr (x, t, r) ↦ ground (arith, locked_count e.exclusive, o, r)
  ]
  | inr (t, o) ↦ ground (arith, locked_count e.exclusive, o)
]

pub judge-free_of :
    (ls : List Lease) (k : Bytes) (e : Entry) (d : Demand)
    → Fits ls k e
    → is_clear (judge e d) ≡ free_of k d ls
unfolding free_of
judge-free_of ls k e d w =
    rw (w.locked, w.writes, w.held, w.reads) (judge-free_count e d w.still w.unwritten)
