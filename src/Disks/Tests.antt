-- ===== src/Disks/Tests.antt =====
-- The locks of internal/disks/locks.go at concrete sessions.
use go_fs.Base.{◌≡◌, refl, true, []}
use go_fs.Base.Text.{Bytes, codes, is_empty}
use go_fs.Disks.Locks.{
  Session, Demand, as_reader, as_writer, as_hold, new_registry, acquire, judge, judge_demand,
  judge_writer, entry_of, found, decide, named,
}
use go_fs.Disks.Locks.Leases.{has_reason, seqs, all_absent, absent}
use go_fs.Disks.Locks.Worlds.{
  World, acquire_step, Reachable, at_start, next, is_new, registry_after, leases_after,
}
use go_fs.Disks.Locks.Compatible.{welcome, all_compatible, is_granted}
use go_fs.Disks.Locks.Granting.{acquire-welcome, Reachable-compatible}

abbrev vm : Session
vm = record {
  id = [];
  account = codes "vm";
  client = codes "10.0.0.5";
  fingerprint = codes "ab12";
  seq = 1;
}

abbrev viewer : Session
viewer = record {
  id = [];
  account = codes "backup";
  client = codes "10.0.0.6";
  fingerprint = codes "cd34";
  seq = 2;
}

abbrev empty_world : World
empty_world = record { registry = new_registry; leases = [] }

abbrev disk : Bytes
disk = codes "root.img"

after : World → Demand → Bytes → World
after w d id = record {
  registry = registry_after (acquire w.registry disk disk d id);
  leases = leases_after w.leases (acquire w.registry disk disk d id);
}

attached : World
attached = after (after empty_world (as_writer vm) (codes "id1")) (as_reader viewer) (codes "id2")

attached-Reachable : Reachable attached
unfolding attached after has_reason is_new all_absent seqs absent acquire judge judge_demand
    judge_writer entry_of found decide named is_empty
attached-Reachable =
    next (after empty_world (as_writer vm) (codes "id1")) attached
      (next empty_world (after empty_world (as_writer vm) (codes "id1")) at_start (
        acquire_step new_registry [] disk disk (as_writer vm) (codes "id1")
          (after empty_world (as_writer vm) (codes "id1")) refl refl refl))
      (acquire_step (after empty_world (as_writer vm) (codes "id1")).registry
        (after empty_world (as_writer vm) (codes "id1")).leases disk disk (as_reader viewer)
        (codes "id2") attached refl refl refl)

acquire-welcome_example :
    is_granted (acquire attached.registry disk disk as_hold (codes "id3"))
    ≡ welcome disk as_hold attached.leases
acquire-welcome_example =
    acquire-welcome attached disk disk as_hold (codes "id3") attached-Reachable

Reachable-compatible_example : all_compatible attached.leases ≡ true
Reachable-compatible_example = Reachable-compatible attached attached-Reachable
