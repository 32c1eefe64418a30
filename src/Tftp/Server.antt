-- ===== src/Tftp/Server.antt =====
-- internal/tftp/server.go: which requests get a transfer. The keys of a client and of its host are
-- texts; a map that is only looked up in is a function, with 0 or false for what it lacks. A file
-- system and the transfer socket are parameters, and a handler gives the packets that it sends.
pub mod Counting
pub mod Slots
pub mod Limits
pub mod Handling
mod Tests
pub mod Handlers
use go_fs.Base.{
  ℕ, zero, suc, ◌+◌, ◌-◌, ◌*◌, ◌/◌, ◌%◌, ◌^◌, ◌≤◌, ◌<◌, min, max, ◌≡◌, refl, sym, ap, ◌∙◌, subst,
  ◌≢◌, ◌↔◌, ◌⊎◌, inl, inr, Bool, true, false, not, ◌&&◌, ◌||◌, Option, none, some, List, [], ◌∷◌,
  ◌++◌, map, append-nil, append_assoc, arith, ltb, leb, ◌==◌, if◌then◌else◌, ltb→lt, lt→ltb, ==_iff,
  Bool-cases, Option-cases, List-cases, length, get_elem?, take, drop, replicate, length-append,
  take-append-drop, length-take, length-drop, take-length-append, take_all, drop_all,
  drop-length-append, All, All-append,
}
use go_fs.Base.Text.{Bytes, codes, bytes_eq, bytes_eq_iff, bytes_eq_refl, is_empty}
use go_fs.Tftp.Packet.{
  Request, Setting, find_option, encode_error, err_not_defined, err_illegal_operation,
  err_disk_full,
}
use go_fs.Tftp.Options.{mode_octet, mode_netascii, tsize, parse_numeric}

abbrev pub err_file_not_found : ℕ
err_file_not_found = 1

abbrev pub err_access_violation : ℕ
err_access_violation = 2

abbrev pub err_file_exists : ℕ
err_file_exists = 6

abbrev pub max_filename_length : ℕ
max_filename_length = 255

-- The part of the configuration that the handlers read.
pub record Config : Type 0 where
  pub max_connections : ℕ
  pub max_connections_per_host : ℕ
  pub allow_read : Bool
  pub allow_write : Bool
  pub allow_overwrite : Bool
  pub allow_create_directory : Bool
  pub max_file_size : ℕ

pub record Server : Type 0 where
  pub transfers : List ℕ
  pub active_clients : Bytes → Bool
  pub host_transfers : Bytes → ℕ
  pub pending : ℕ
  pub last_key : ℕ
  pub shutdown : Bool

abbrev pub new_server : Server
new_server = record {
  transfers = [];
  active_clients = λ c. false;
  host_transfers = λ h. 0;
  pending = 0;
  last_key = 0;
  shutdown = false;
}

-- A reserved transfer slot.
pub record Admission : Type 0 where
  pub key : ℕ
  pub client : Bytes
  pub host : Bytes

-- `strings.Map` of control characters to nothing.
unfoldable pub sanitize : Bytes → Bytes
sanitize [] = []
sanitize (c ∷ s) =
    let rest = sanitize s in if ltb c 32 || leb 127 c && leb c 159 then rest else c ∷ rest

unfoldable pub set_active : Bytes → Bool → (Bytes → Bool) → Bytes → Bool
set_active c b active d = if bytes_eq d c then b else active d

unfoldable pub set_host : Bytes → ℕ → (Bytes → ℕ) → Bytes → ℕ
set_host h n hosts i = if bytes_eq i h then n else hosts i

-- What admit answers: a slot, or a refusal with the packets it sends.
pub data Answer : Type 0 where
  admitted : Admission → Server → Answer
  turned_away : List Bytes → Answer

unfoldable pub reserve : Server → Bytes → Bytes → Answer
unfolding set_active set_host
reserve s client host =
    admitted (record { key = s.last_key + 1; client = client; host = host })
      (record {
        transfers = s.transfers;
        active_clients = set_active client true s.active_clients;
        host_transfers = set_host host (s.host_transfers host + 1) s.host_transfers;
        pending = s.pending + 1;
        last_key = s.last_key + 1;
        shutdown = s.shutdown;
      })

-- The part of admit that holds the mutex.
unfoldable pub admit_locked : Config → Server → Bytes → Bytes → Answer
unfolding reserve
admit_locked cfg s client host =
    if s.shutdown
    then turned_away []
    else if s.active_clients client
    then turned_away []
    else if leb cfg.max_connections (length s.transfers + s.pending)
    then turned_away (encode_error err_not_defined (codes "Server busy") ∷ [])
    else if leb cfg.max_connections_per_host (s.host_transfers host)
    then turned_away (encode_error err_not_defined (codes "Server busy") ∷ [])
    else reserve s client host

unfoldable pub admit : Config → Server → Request → Bytes → Bytes → Answer
unfolding admit_locked sanitize
admit cfg s req client host =
    if leb (length req.filename) 0 || ltb max_filename_length (length req.filename)
    then turned_away (encode_error err_illegal_operation (codes "Filename too long") ∷ [])
    else if not (bytes_eq req.mode mode_octet) && not (bytes_eq req.mode mode_netascii)
    then turned_away (
        encode_error err_illegal_operation (codes "Unsupported transfer mode " ++ sanitize req.mode)
        ∷ [])
    else admit_locked cfg s client host

unfoldable pub without : ℕ → List ℕ → List ℕ
without key [] = []
without key (k ∷ keys) = let rest = without key keys in if k == key then rest else k ∷ rest

unfoldable pub release : Server → Admission → Server
unfolding without set_active set_host
release s a = if not (s.active_clients a.client) then s else record {
  transfers = without a.key s.transfers;
  active_clients = set_active a.client false s.active_clients;
  host_transfers = set_host a.host (s.host_transfers a.host - 1) s.host_transfers;
  pending = s.pending - 1;
  last_key = s.last_key;
  shutdown = s.shutdown;
}

unfoldable pub begin : Server → Admission → Server
begin s a = record {
  transfers = a.key ∷ s.transfers;
  active_clients = s.active_clients;
  host_transfers = s.host_transfers;
  pending = s.pending - 1;
  last_key = s.last_key;
  shutdown = s.shutdown;
}

-- Shutdown: a second one does nothing.
unfoldable pub shut : Server → Server
shut s = record {
  transfers = s.transfers;
  active_clients = s.active_clients;
  host_transfers = s.host_transfers;
  pending = s.pending;
  last_key = s.last_key;
  shutdown = true;
}
