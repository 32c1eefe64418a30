-- ===== src/Tftp/Server/Handlers.antt =====
-- internal/tftp/server.go: handleRead and handleWrite. The file system and the transfer socket are
-- parameters, and a handler gives the packets that it sends to the client.
use go_fs.Base.{
  ◌||◌, length, ◌+◌, ◌==◌, ◌*◌, ℕ, Bool, true, false, not, ◌&&◌, Option, none, some, List, [], ◌∷◌,
  ◌++◌, ltb, if◌then◌else◌,
}
use go_fs.Base.Text.{Bytes, codes}
use go_fs.Base.Decimal.{itoa}
use go_fs.Tftp.Packet.{
  op_rrq, op_wrq, parse_request, err_illegal_operation, Request, find_option, encode_error,
  err_not_defined, err_disk_full,
}
use go_fs.Tftp.Options.{tsize, parse_numeric}
use go_fs.Tftp.Server.{
  Config, Server, Admission, Answer, admitted, turned_away, admit, release, begin,
  err_file_not_found, err_access_violation, err_file_exists,
}

-- What `os.Stat` says of a path.
pub data Kind : Type 0 where
  missing folder regular special : Kind

-- `vfs.Root.Resolve`, and what the system calls of the handlers answer.
pub record Files : Type 0 where
  pub resolve : Bytes → Option Bytes
  pub stat : Bytes → Kind
  pub open_file : Bytes → Bool
  pub folder_of : Bytes → Bytes
  pub make_folders : Bytes → Bool
  pub create_temp : Bytes → Bool
  pub socket : Bool

-- What a handler leaves: the server, the packets to the client, and the transfer that it started.
pub record Handled : Type 0 where
  pub server : Server
  pub packets : List Bytes
  pub started : Option Admission

unfoldable pub fail : Server → Admission → ℕ → Bytes → Handled
unfolding release
fail s slot code message = record {
  server = release s slot;
  packets = encode_error code message ∷ [];
  started = none;
}

-- startRead and startWrite, as far as the server's state goes.
unfoldable pub start : Server → Admission → Bool → Handled
unfolding fail begin
start s slot socket =
    if socket
    then record { server = begin s slot; packets = []; started = some slot }
    else fail s slot err_not_defined (codes "Internal error")

unfoldable pub is_regular : Kind → Bool
is_regular regular = true
is_regular missing = false
is_regular folder = false
is_regular special = false

unfoldable pub read_target : Files → Server → Admission → Option Bytes → Handled
unfolding start is_regular
read_target files s slot none = fail s slot err_access_violation (codes "Access violation")
read_target files s slot (some path) =
    if not (is_regular (files.stat path))
    then fail s slot err_file_not_found (codes "File not found")
    else if not (files.open_file path)
    then fail s slot err_access_violation (codes "Access violation")
    else start s slot files.socket

unfoldable pub read_admitted : Files → Request → Server → Answer → Handled
unfolding read_target
read_admitted files req s (turned_away packets) = record {
  server = s;
  packets = packets;
  started = none;
}
read_admitted files req s (admitted slot s') =
    read_target files s' slot (files.resolve req.filename)

unfoldable pub handle_read : Config → Files → Server → Request → Bytes → Bytes → Handled
unfolding admit read_admitted
handle_read cfg files s req client host =
    if not cfg.allow_read
    then record {
      server = s;
      packets = encode_error err_access_violation (codes "Access violation") ∷ [];
      started = none;
    }
    else read_admitted files req s (admit cfg s req client host)

-- A size announced that is above the limit, where there is one.
unfoldable pub too_large : Config → Option Bytes → Bool
too_large cfg none = false
too_large cfg (some value) = elim (parse_numeric value) [
  | none ↦ false
  | some announced ↦ ltb cfg.max_file_size announced
]

unfoldable pub exists : Kind → Bool
exists missing = false
exists folder = true
exists regular = true
exists special = true

unfoldable pub is_folder : Kind → Bool
is_folder missing = false
is_folder folder = true
is_folder regular = false
is_folder special = false

unfoldable pub write_folder : Config → Files → Server → Admission → Bytes → Handled
unfolding start is_folder
write_folder cfg files s slot dir =
    if not (is_folder (files.stat dir)) && not cfg.allow_create_directory
    then fail s slot err_access_violation (codes "Access violation")
    else if not (is_folder (files.stat dir)) && not (files.make_folders dir)
    then fail s slot err_access_violation (codes "Access violation")
    else if not (files.create_temp dir)
    then fail s slot err_access_violation (codes "Access violation")
    else start s slot files.socket

unfoldable pub write_target : Config → Files → Server → Admission → Option Bytes → Handled
unfolding write_folder exists
write_target cfg files s slot none = fail s slot err_access_violation (codes "Access violation")
write_target cfg files s slot (some path) =
    if exists (files.stat path) && not cfg.allow_overwrite
    then fail s slot err_file_exists (codes "File already exists")
    else write_folder cfg files s slot (files.folder_of path)

unfoldable pub write_admitted : Config → Files → Request → Server → Answer → Handled
unfolding write_target too_large
write_admitted cfg files req s (turned_away packets) = record {
  server = s;
  packets = packets;
  started = none;
}
write_admitted cfg files req s (admitted slot s') =
    if ltb 0 cfg.max_file_size && too_large cfg (find_option req.options tsize)
    then fail s' slot err_disk_full
        (codes "File exceeds the maximum of " ++ (itoa cfg.max_file_size ++ codes " bytes"))
    else write_target cfg files s' slot (files.resolve req.filename)

unfoldable pub handle_write : Config → Files → Server → Request → Bytes → Bytes → Handled
unfolding write_admitted
handle_write cfg files s req client host =
    if not cfg.allow_write
    then record {
      server = s;
      packets = encode_error err_access_violation (codes "Access violation") ∷ [];
      started = none;
    }
    else write_admitted cfg files req s (admit cfg s req client host)

abbrev pub opcode_of : Bytes → ℕ
opcode_of [] = 0
opcode_of (hi ∷ []) = 0
opcode_of (hi ∷ (lo ∷ msg)) = hi * 256 + lo

unfoldable pub dispatch_request :
    Config → Files → Server → ℕ → Option Request → Bytes → Bytes → Handled
unfolding handle_read handle_write
dispatch_request cfg files s op none client host = record {
  server = s;
  packets = encode_error err_illegal_operation (codes "Malformed request") ∷ [];
  started = none;
}
dispatch_request cfg files s op (some req) client host =
    if op == op_rrq
    then handle_read cfg files s req client host
    else handle_write cfg files s req client host

-- A datagram on the request socket. One that is neither RRQ nor WRQ is dropped.
unfoldable pub dispatch : Config → Files → Server → Bytes → Bytes → Bytes → Handled
unfolding dispatch_request
dispatch cfg files s msg client host =
    if ltb (length msg) 2
    then record { server = s; packets = []; started = none }
    else if opcode_of msg == op_rrq || opcode_of msg == op_wrq
    then dispatch_request cfg files s (opcode_of msg) (parse_request msg) client host
    else record { server = s; packets = []; started = none }
