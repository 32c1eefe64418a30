-- ===== src/Tftp/Server/Tests.antt =====
-- The slots of internal/tftp/server.go at concrete requests.
use go_fs.Base.{
  ◌++◌, ◌≡◌, ◌≤◌, refl, true, false, none, some, [], ◌∷◌, length, if◌then◌else◌, arith,
}
use go_fs.Base.Text.{Bytes, codes, bytes_eq}
use go_fs.Tftp.Packet.{parse_request, cut_zero, to_lower, lower_rune, Request}
use go_fs.Tftp.Server.{
  Config, Server, new_server, Admission, set_active, set_host, admitted, reserve, admit_locked,
  admit, begin, Answer, turned_away, release,
}
use go_fs.Tftp.Server.Counting.{count_host, clients_differ, keys}
use go_fs.Tftp.Server.Slots.{World, with_current, admit_step, begin_step, Reachable, at_start, next}
use go_fs.Tftp.Server.Limits.{Reachable-limits}
use go_fs.Tftp.Server.Handlers.{
  missing, regular, Files, dispatch, dispatch_request, handle_write, write_admitted, write_target,
  fail, exists,
}
use go_fs.Tftp.Server.Handling.{SameSlots, dispatch-SameSlots}

abbrev one_each : Config
one_each = record {
  max_connections = 2;
  max_connections_per_host = 1;
  allow_read = true;
  allow_write = true;
  allow_overwrite = false;
  allow_create_directory = false;
  max_file_size = 0;
}

abbrev boot_file : Request
boot_file = record { filename = codes "pxelinux.0"; mode = codes "octet"; options = [] }

abbrev phone : Bytes
phone = codes "10.0.0.9:4711"

abbrev phone_host : Bytes
phone_host = codes "10.0.0.9"

abbrev slot : Admission
slot = record { key = 1; client = phone; host = phone_host }

abbrev serving : Server
serving = record {
  transfers = [];
  active_clients = set_active phone true (λ c. false);
  host_transfers = set_host phone_host 1 (λ h. 0);
  pending = 1;
  last_key = 1;
  shutdown = false;
}

abbrev running_world : World
running_world = record { server = begin serving slot; current = none; running = slot ∷ [] }

admits : admit one_each new_server boot_file phone phone_host ≡ admitted slot serving
unfolding admit admit_locked reserve bytes_eq
admits = refl

running-Reachable : Reachable 2 1 running_world
running-Reachable =
    next (record { server = serving; current = some slot; running = [] }) running_world
      (next (record { server = new_server; current = none; running = [] })
        (record { server = serving; current = some slot; running = [] }) at_start
        (admit_step one_each new_server serving [] boot_file phone phone_host slot (omega arith)
          (omega arith) admits))
      (begin_step serving [] slot)

Reachable-limits_example :
    (length (with_current running_world.current running_world.running) ≤ 2)
    × ((h : Bytes) → count_host h (with_current running_world.current running_world.running) ≤ 1)
    × (clients_differ (with_current running_world.current running_world.running) ≡ true)
    × ((h : Bytes)
        → running_world.server.host_transfers h
          ≡ count_host h (with_current running_world.current running_world.running))
    × (running_world.server.transfers ≡ keys running_world.running)
    × (running_world.server.pending ≤ length (with_current running_world.current []))
Reachable-limits_example = Reachable-limits 2 1 running_world running-Reachable

-- The second request is admitted, then the transfer of the first one ends: its release also counts
-- down the requests that are not begun, though the second one is not.
abbrev phone2 : Bytes
phone2 = codes "10.0.0.8:4711"

abbrev phone2_host : Bytes
phone2_host = codes "10.0.0.8"

abbrev slot2 : Admission
slot2 = record { key = 2; client = phone2; host = phone2_host }

unfoldable server_after : Answer → Server
server_after (admitted a s) = s
server_after (turned_away packets) = new_server

second_pending :
    (admit one_each (begin serving slot) boot_file phone2 phone2_host
      ≡ admitted slot2 (server_after (reserve (begin serving slot) phone2 phone2_host)))
    × ((server_after (reserve (begin serving slot) phone2 phone2_host)).pending ≡ 1)
    × ((release (server_after (reserve (begin serving slot) phone2 phone2_host)) slot).pending ≡ 0)
unfolding admit admit_locked reserve begin bytes_eq release server_after
second_pending = (refl, refl, refl)

-- A folder with one file, which nobody may replace.
abbrev one_file : Files
one_file = record {
  resolve = λ name. some name;
  stat = λ path. if bytes_eq path (codes "pxelinux.0") then regular else missing;
  open_file = λ path. true;
  folder_of = λ path. [];
  make_folders = λ path. true;
  create_temp = λ path. true;
  socket = true;
}

-- A write request for the file that is there: its layout on the wire, as RFC 1350 has it.
abbrev upload : Bytes
upload = 0 ∷ (2 ∷ (codes "pxelinux.0" ++ (0 ∷ (codes "octet" ++ (0 ∷ [])))))

dispatch-SameSlots_example :
    SameSlots new_server ((dispatch one_each one_file new_server upload phone phone_host).server)
unfolding dispatch dispatch_request handle_write write_admitted write_target admit admit_locked
    reserve bytes_eq fail exists parse_request cut_zero to_lower lower_rune
dispatch-SameSlots_example =
    dispatch-SameSlots 2 1 one_each one_file new_server [] upload phone phone_host at_start refl
