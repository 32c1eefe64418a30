-- ===== src/Disks/Locks/Granting.antt =====
-- When internal/disks/locks.go grants a lease, and which are held together.
use go_fs.Base.{
  ◌≡◌, refl, sym, ◌∙◌, subst, Bool, true, ◌&&◌, List, [], ◌∷◌, ◌++◌, arith, if◌then◌else◌,
}
use go_fs.Base.Text.{Bytes, bytes_eq}
use go_fs.Disks.Locks.{
  Demand, as_reader, as_writer, as_hold, as_exclusive, Lease, Entry, Registry, entry_of, Verdict,
  unhindered, refusal, victim, judge, named, decide, acquire,
}
use mathlib.Core.Path.{ap₂}
use go_fs.Disks.Locks.Worlds.{
  World, Step, acquire_step, release_step, Reachable, at_start, next, leases_after, Sound,
  Reachable-Sound,
}
use go_fs.Disks.Locks.Compatible.{
  compatible, welcome, all_compatible, is_granted, is_clear, judge-free_of, welcome-free_of,
}

named-welcome :
    (key : Bytes) (d : Demand) (id : Bytes) (ls : List Lease)
    → welcome key (named id d) ls ≡ welcome key d ls
unfolding named welcome
named-welcome key (as_reader s) id [] = refl
named-welcome key (as_writer s) id [] = refl
named-welcome key as_hold id [] = refl
named-welcome key (as_exclusive why) id [] = refl
named-welcome key d id (l ∷ ls) =
    ap₂ (λ (a b : Bool). (if bytes_eq key l.key then a else true) && b) (same d l.demand)
      (named-welcome key d id ls)
  where
    same : (d d' : Demand) → compatible (named id d) d' ≡ compatible d d'
    same (as_reader s) d' = refl
    same (as_writer s) d' = refl
    same as_hold d' = refl
    same (as_exclusive why) d' = refl

decide-is_granted :
    (r : Registry) (key name : Bytes) (d : Demand) (e : Entry) (v : Verdict)
    → is_granted (decide r key name d e v) ≡ is_clear v
unfolding is_granted is_clear decide
decide-is_granted r key name d e unhindered = refl
decide-is_granted r key name d e (refusal why) = refl
decide-is_granted r key name d e (victim s) = refl

acquire-free :
    (r : Registry) (ls : List Lease) (key name : Bytes) (d : Demand) (id : Bytes)
    → Sound r ls
    → is_granted (acquire r key name d id) ≡ welcome key (named id d) ls
unfolding acquire
acquire-free r ls key name d id s =
    decide-is_granted r key name (named id d) (entry_of r key) (judge (entry_of r key) (named id d))
    ∙ judge-free_of ls key (entry_of r key) (named id d) (s.fits key)
    ∙ sym (welcome-free_of key (named id d) ls)

-- However the leases came and went, a lease is granted exactly when every lease that is held on the
-- image is compatible with it.
pub acquire-welcome :
    (w : World) (key name : Bytes) (d : Demand) (id : Bytes)
    → Reachable w
    → is_granted (acquire w.registry key name d id) ≡ welcome key d w.leases
acquire-welcome w key name d id r =
    acquire-free w.registry w.leases key name d id (Reachable-Sound w r)
    ∙ named-welcome key d id w.leases

welcome-append :
    (k : Bytes) (d : Demand) (xs ys : List Lease)
    → welcome k d (xs ++ ys) ≡ (welcome k d xs && welcome k d ys)
unfolding welcome
welcome-append k d [] ys = refl
welcome-append k d (l ∷ xs) ys = ground (arith, welcome-append k d xs ys)

all_compatible-without :
    (xs ys : List Lease) (l : Lease)
    → all_compatible (xs ++ (l ∷ ys)) ≡ true
    → all_compatible (xs ++ ys) ≡ true
unfolding all_compatible
all_compatible-without [] ys l h = ground arith
all_compatible-without (x ∷ xs) ys l h = ground (
  arith,
  all_compatible-without xs ys l,
  welcome-append x.key x.demand xs (l ∷ ys),
  welcome-append x.key x.demand xs ys,
  welcome_cons x.key x.demand,
)
  where
    welcome_cons :
        (k : Bytes) (d : Demand)
        → welcome k d (l ∷ ys)
          ≡ ((if bytes_eq k l.key then compatible d l.demand else true) && welcome k d ys)
    welcome_cons k d = unfold welcome in refl

decide-compatible :
    (r : Registry) (ls : List Lease) (key name : Bytes) (d : Demand) (e : Entry) (v : Verdict)
    → is_granted (decide r key name d e v) ≡ welcome key d ls
    → all_compatible ls ≡ true
    → all_compatible (leases_after ls (decide r key name d e v)) ≡ true
unfolding decide is_granted all_compatible
decide-compatible r ls key name d e unhindered h c = ground arith
decide-compatible r ls key name d e (refusal why) h c = c
decide-compatible r ls key name d e (victim s) h c = c

acquire-compatible :
    (r : Registry) (ls : List Lease) (key name : Bytes) (d : Demand) (id : Bytes)
    → Sound r ls
    → all_compatible ls ≡ true
    → all_compatible (leases_after ls (acquire r key name d id)) ≡ true
acquire-compatible r ls key name d id s c =
    let f = acquire-free r ls key name d id s in
    unfold acquire in
    decide-compatible r ls key name (named id d) (entry_of r key)
      (judge (entry_of r key) (named id d)) f c

-- However the leases came and went, every two that are held on one image are compatible: at most one
-- writer and then no hold, and nothing beside an exclusive lease.
pub Reachable-compatible : (w : World) → Reachable w → all_compatible w.leases ≡ true
Reachable-compatible _ at_start = unfold all_compatible in refl
Reachable-compatible _ (next w w' r s) =
    Step-compatible w w' s (Reachable-Sound w r) (Reachable-compatible w r)
  where
    Step-compatible :
        (w w' : World)
        → Step w w'
        → Sound w.registry w.leases
        → all_compatible w.leases ≡ true
        → all_compatible w'.leases ≡ true
    Step-compatible _ _ (acquire_step r ls key name d id w' h n e) s c =
        subst (λ (t : World). all_compatible t.leases ≡ true) (sym e)
          (acquire-compatible r ls key name d id s c)
    Step-compatible _ _ (release_step r xs ys l w w' p e) s c =
        subst (λ (t : World). all_compatible t.leases ≡ true) (sym e)
          (all_compatible-without xs ys l
            (subst (λ (t : World). all_compatible t.leases ≡ true) p c))
