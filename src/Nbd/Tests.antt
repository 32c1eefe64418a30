-- ===== src/Nbd/Tests.antt =====
-- Requests to a disk of ten bytes in memory.
use go_fs.Base.{◌+◌, ◌≤◌, ◌≡◌, refl, inl, true, false, none, some, [], ◌∷◌, ◌++◌, arith, replicate}
use go_fs.Base.Text.{codes}
use go_fs.Nbd.{Request, Transmission, simple_reply, fail_reply}
use go_fs.Nbd.Handling.{
  Progress, done, done_fua, guarded, write_end, handle_write, handle_trim, command, handle,
}
use go_fs.Nbd.Memory.{splice, memory}
use go_fs.Nbd.Budget.{
  Budget, Traffic, new_traffic, new_budget, admit, admission, acquire, admitted, in_flight_bytes,
  max_in_flight, read_request, start_worker, Reachable, begin, next,
}
use go_fs.Nbd.Budget.Accounts.{held, held_pending, share, Reachable-balance, idle-admits}
use go_fs.Nbd.Replies.{Answered}
use go_fs.Nbd.Answers.{handle-answers}
use go_fs.Nbd.Confined.{Confined, handle-Confined}
use go_fs.Nbd.ReadingBack.{ReadsBack, written-ReadsBack}

abbrev attached : Transmission
attached = record {
  structured = true;
  meta_base = true;
  writable = true;
  size = 10;
  hole_punching = true;
}

abbrev fresh : Progress memory
fresh = record { image = replicate 10 7; read = 0; written = 0; sent = [] }

-- Three bytes at 4, to be on stable storage.
abbrev put_three : Request
put_three = record { flags = 1; kind = 1; cookie = 300; offset = 4; len = 3; payload = codes "abc" }

abbrev get_three : Request
get_three = record { flags = 0; kind = 0; cookie = 301; offset = 4; len = 3; payload = [] }

abbrev beyond : Request
beyond = record { flags = 0; kind = 4; cookie = 302; offset = 8; len = 3; payload = [] }

beyond_refused : (handle memory attached beyond fresh).sent ≡ simple_reply 302 22 [] ∷ []
unfolding handle command handle_trim guarded fail_reply
beyond_refused = refl

handle-answers_example : Answered put_three [] (handle memory attached put_three fresh).sent
handle-answers_example = handle-answers memory attached put_three fresh

handle-Confined_example :
    Confined memory attached put_three
      (replicate 10 7)
      (handle memory attached put_three fresh).image
handle-Confined_example = handle-Confined memory attached put_three fresh refl (λ q. refl)

stored :
    (handle memory attached put_three fresh).image ≡ replicate 4 7 ++ (codes "abc" ++ replicate 3 7)
unfolding handle command handle_write guarded write_end done_fua done splice
stored = refl

succeeded : (handle memory attached put_three fresh).sent ≡ [] ++ simple_reply 300 0 [] ∷ []
unfolding handle command handle_write guarded write_end done_fua done
succeeded = refl

written-ReadsBack_example :
    ReadsBack memory attached get_three (handle memory attached put_three fresh) (codes "abc")
written-ReadsBack_example =
    written-ReadsBack memory attached put_three get_three fresh refl (inl refl) (λ q. refl)
      succeeded refl (omega arith) (omega arith) refl refl

-- A connection that runs one write.
abbrev after_read : Budget
after_read = record { free = 67108861; total = 67108864; closed = false }

abbrev write_read : Traffic
write_read = record {
  money = after_read;
  reading = true;
  pending = some 3;
  slots = 0;
  running = [];
}

abbrev write_runs : Traffic
write_runs = record {
  money = after_read;
  reading = true;
  pending = none;
  slots = 1;
  running = 3 ∷ [];
}

write_runs-Reachable : Reachable write_runs
unfolding new_traffic new_budget admit admission acquire
write_runs-Reachable =
    next write_read write_runs
      (next new_traffic write_read begin
        (read_request new_traffic put_three after_read 3 refl refl refl))
      (start_worker write_read 3 refl (omega arith))

Reachable-balance_example :
    (67108861 + (held_pending in_flight_bytes none + held in_flight_bytes (3 ∷ []))
      ≡ in_flight_bytes)
    × (1 ≤ max_in_flight)
Reachable-balance_example = Reachable-balance write_runs write_runs-Reachable

idle-admits_example :
    (b : Budget) × (admit new_traffic.money put_three ≡ admitted b (share put_three))
unfolding new_traffic
idle-admits_example =
    idle-admits new_traffic put_three begin refl refl refl (omega arith) (omega arith)
