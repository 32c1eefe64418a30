-- ===== src/Tftp/Server/Handling.antt =====
-- internal/tftp/server.go: a request that gets no transfer leaves no slot behind.
use go_fs.Base.{
  ltb, length, ◌||◌, ◌==◌, ℕ, ◌+◌, ◌-◌, ◌≡◌, refl, sym, ap, ◌∙◌, subst, ◌⊎◌, inl, inr, Bool, true,
  false, not, Option, none, some, List, [], ◌∷◌, arith, if◌then◌else◌,
}
use go_fs.Base.Text.{Bytes, codes, bytes_eq_iff, bytes_eq_refl}
use go_fs.Tftp.Server.{
  Config, Server, Admission, set_active, set_host, Answer, admitted, turned_away, reserve, admit,
  without, release, err_access_violation,
}
use go_fs.Tftp.Packet.{Request, encode_error, parse_request, op_rrq, op_wrq}
use go_fs.Tftp.Server.Counting.{without-lacks}
use go_fs.Tftp.Server.Slots.{Reachable, keys_upto-lacks}
use go_fs.Tftp.Server.Limits.{Reachable-Sound, admit-Rightly}
use go_fs.Tftp.Server.Handlers.{
  Files, Handled, fail, start, read_target, read_admitted, handle_read, write_folder, write_target,
  write_admitted, handle_write, dispatch, dispatch_request, opcode_of,
}

-- A handler that starts nothing has released the slot.
start-releases :
    (s : Server) (slot : Admission) (socket : Bool)
    → (start s slot socket).started ≡ none
    → (start s slot socket).server ≡ release s slot
unfolding start fail
start-releases s slot true h = ground arith
start-releases s slot false h = refl

read_target-releases :
    (files : Files) (s : Server) (slot : Admission) (path : Option Bytes)
    → (read_target files s slot path).started ≡ none
    → (read_target files s slot path).server ≡ release s slot
unfolding read_target fail
read_target-releases files s slot none h = refl
read_target-releases files s slot (some path) h = ground (arith, start-releases s slot files.socket)

write_folder-releases :
    (cfg : Config) (files : Files) (s : Server) (slot : Admission) (dir : Bytes)
    → (write_folder cfg files s slot dir).started ≡ none
    → (write_folder cfg files s slot dir).server ≡ release s slot
unfolding write_folder fail
write_folder-releases cfg files s slot dir h = ground (arith, start-releases s slot files.socket)

write_target-releases :
    (cfg : Config) (files : Files) (s : Server) (slot : Admission) (path : Option Bytes)
    → (write_target cfg files s slot path).started ≡ none
    → (write_target cfg files s slot path).server ≡ release s slot
unfolding write_target fail
write_target-releases cfg files s slot none h = refl
write_target-releases cfg files s slot (some path) h =
    ground (arith, write_folder-releases cfg files s slot (files.folder_of path))

-- The same slots, whatever numbers were given out.
abbrev pub SameSlots : Server → Server → Type 0
SameSlots s s' =
    (s'.transfers ≡ s.transfers)
    × ((c : Bytes) → s'.active_clients c ≡ s.active_clients c)
    × ((h : Bytes) → s'.host_transfers h ≡ s.host_transfers h)
    × (s'.pending ≡ s.pending)

abbrev given : Answer → Server → Server
given (admitted a s') s = release s' a
given (turned_away packets) s = s

reserve-release :
    (s : Server) (client host : Bytes)
    → s.active_clients client ≡ false
    → without (s.last_key + 1) s.transfers ≡ s.transfers
    → SameSlots s (given (reserve s client host) s)
unfolding reserve release
reserve-release s client host f w =
    rw (now_active client s.active_clients)
      (w, (λ c. clients_back c), (λ h. hosts_back h), omega arith)
  where
    now_active : (c : Bytes) (active : Bytes → Bool) → set_active c true active c ≡ true
    now_active c active = unfold set_active in ground (arith, bytes_eq_refl c)

    clients_back :
        (c : Bytes)
        → set_active client false (set_active client true s.active_clients) c ≡ s.active_clients c
    clients_back c = unfold set_active in ground (arith, bytes_eq_iff c client)

    hosts_back :
        (h : Bytes)
        → set_host host
            (set_host host (s.host_transfers host + 1) s.host_transfers host - 1)
            (set_host host (s.host_transfers host + 1) s.host_transfers)
            h
          ≡ s.host_transfers h
    hosts_back h = unfold set_host in ground (arith, bytes_eq_iff h host, bytes_eq_refl host)

-- The slot that admit gave goes back whole.
admit-release :
    (m p : ℕ) (cfg : Config) (s : Server) (running : List Admission) (req : Request)
    (client host : Bytes) (a : Admission) (s' : Server)
    → Reachable m p (record { server = s; current = none; running = running })
    → admit cfg s req client host ≡ admitted a s'
    → SameSlots s (release s' a)
admit-release m p cfg s running req client host a s' r e =
    let g = admit-Rightly cfg s req client host a s' e in
    let k = Reachable-Sound m p (record { server = s; current = none; running = running }) r in
    let lacks = (keys_upto-lacks s.last_key running k.knows.upto).0 in
    let unmoved : without (s.last_key + 1) s.transfers ≡ s.transfers =
      ap (without (s.last_key + 1)) k.runs
      ∙ without-lacks (s.last_key + 1) running lacks
      ∙ sym k.runs in
    subst (λ (w : Answer). SameSlots s (given w s)) (g.3)
      (reserve-release s client host (g.0) unmoved)

no_change : (s : Server) → SameSlots s s
no_change s = (refl, (λ c. refl), (λ h. refl), refl)

Answer-cases :
    (w : Answer)
    → ((packets : List Bytes) × (w ≡ turned_away packets))
      ⊎ ((a : Admission) × (s : Server) × (w ≡ admitted a s))
Answer-cases (turned_away packets) = inl (packets, refl)
Answer-cases (admitted a s) = inr (a, s, refl)

read_admitted-SameSlots :
    (files : Files) (req : Request) (s : Server) (w : Answer)
    → ((a : Admission) (s' : Server) → w ≡ admitted a s' → SameSlots s (release s' a))
    → (read_admitted files req s w).started ≡ none
    → SameSlots s ((read_admitted files req s w).server)
unfolding read_admitted
read_admitted-SameSlots files req s (turned_away packets) k h = no_change s
read_admitted-SameSlots files req s (admitted a s') k h =
    subst (SameSlots s) (sym (read_target-releases files s' a (files.resolve req.filename) h))
      (k a s' refl)

write_admitted-SameSlots :
    (cfg : Config) (files : Files) (req : Request) (s : Server) (w : Answer)
    → ((a : Admission) (s' : Server) → w ≡ admitted a s' → SameSlots s (release s' a))
    → (write_admitted cfg files req s w).started ≡ none
    → SameSlots s ((write_admitted cfg files req s w).server)
unfolding write_admitted
write_admitted-SameSlots cfg files req s (turned_away packets) k h = no_change s
write_admitted-SameSlots cfg files req s (admitted a s') k h =
    subst (SameSlots s) (sym released) (k a s' refl)
  where
    released : (write_admitted cfg files req s (admitted a s')).server ≡ release s' a
    released =
        unfold fail in
        ground (arith, write_target-releases cfg files s' a (files.resolve req.filename), h)

no_access : List Bytes
no_access = encode_error err_access_violation (codes "Access violation") ∷ []

unless_off :
    (s : Server) (on : Bool) (x y : Handled)
    → SameSlots s x.server
    → (y.started ≡ none → SameSlots s y.server)
    → (if not on then x else y).started ≡ none
    → SameSlots s (if not on then x else y).server
unless_off s true x y p q h = q h
unless_off s false x y p q h = p

-- Between requests, with no transfer that ends meanwhile: a read request that starts no transfer, be it
-- refused by the configuration, for want of a slot, or by the file system after a slot was
-- reserved, leaves the slots, the counts of each host and the pending requests as they were.
pub handle_read-SameSlots :
    (m p : ℕ) (cfg : Config) (files : Files) (s : Server) (running : List Admission) (req : Request)
    (client host : Bytes)
    → Reachable m p (record { server = s; current = none; running = running })
    → (handle_read cfg files s req client host).started ≡ none
    → SameSlots s ((handle_read cfg files s req client host).server)
unfolding handle_read no_access
handle_read-SameSlots m p cfg files s running req client host r h =
    unless_off s cfg.allow_read (record { server = s; packets = no_access; started = none })
      (read_admitted files req s (admit cfg s req client host)) (no_change s)
      (read_admitted-SameSlots files req s (admit cfg s req client host)
        (λ a s' e. admit-release m p cfg s running req client host a s' r e))
      h

-- Between requests, with no transfer that ends meanwhile: a write request that starts no transfer, be it
-- refused by the configuration, for want of a slot, or by the file system after a slot was
-- reserved, leaves the slots, the counts of each host and the pending requests as they were.
pub handle_write-SameSlots :
    (m p : ℕ) (cfg : Config) (files : Files) (s : Server) (running : List Admission) (req : Request)
    (client host : Bytes)
    → Reachable m p (record { server = s; current = none; running = running })
    → (handle_write cfg files s req client host).started ≡ none
    → SameSlots s ((handle_write cfg files s req client host).server)
unfolding handle_write no_access
handle_write-SameSlots m p cfg files s running req client host r h =
    unless_off s cfg.allow_write (record { server = s; packets = no_access; started = none })
      (write_admitted cfg files req s (admit cfg s req client host)) (no_change s)
      (write_admitted-SameSlots cfg files req s (admit cfg s req client host)
        (λ a s' e. admit-release m p cfg s running req client host a s' r e))
      h

request-SameSlots :
    (m p : ℕ) (cfg : Config) (files : Files) (s : Server) (running : List Admission) (op : ℕ)
    (req : Option Request) (client host : Bytes)
    → Reachable m p (record { server = s; current = none; running = running })
    → (dispatch_request cfg files s op req client host).started ≡ none
    → SameSlots s ((dispatch_request cfg files s op req client host).server)
unfolding dispatch_request
request-SameSlots m p cfg files s running op none client host r h = no_change s
request-SameSlots m p cfg files s running op (some req) client host r h =
    either (op == op_rrq) (handle_read cfg files s req client host)
      (handle_write cfg files s req client host)
      (handle_read-SameSlots m p cfg files s running req client host r)
      (handle_write-SameSlots m p cfg files s running req client host r) h
  where
    either :
        (b : Bool) (x y : Handled)
        → (x.started ≡ none → SameSlots s x.server)
        → (y.started ≡ none → SameSlots s y.server)
        → (if b then x else y).started ≡ none
        → SameSlots s (if b then x else y).server
    either true x y f g k = f k
    either false x y f g k = g k

-- Between requests, with no transfer that ends meanwhile: any datagram that starts no transfer
-- leaves the slots, the counts of each host and the pending requests as they were, be it no request,
-- malformed, refused, or given up after a slot was reserved.
pub dispatch-SameSlots :
    (m p : ℕ) (cfg : Config) (files : Files) (s : Server) (running : List Admission)
    (msg client host : Bytes)
    → Reachable m p (record { server = s; current = none; running = running })
    → (dispatch cfg files s msg client host).started ≡ none
    → SameSlots s ((dispatch cfg files s msg client host).server)
unfolding dispatch
dispatch-SameSlots m p cfg files s running msg client host r h =
    three (ltb (length msg) 2) (opcode_of msg == op_rrq || opcode_of msg == op_wrq)
      (dispatch_request cfg files s (opcode_of msg) (parse_request msg) client host)
      (request-SameSlots m p cfg files s running (opcode_of msg) (parse_request msg) client host r)
      h
  where
    three :
        (a b : Bool) (x : Handled)
        → (x.started ≡ none → SameSlots s x.server)
        → (if a
            then record { server = s; packets = []; started = none }
            else if b
            then x
            else record { server = s; packets = []; started = none }).started
          ≡ none
        → SameSlots s
            (if a
              then record { server = s; packets = []; started = none }
              else if b
              then x
              else record { server = s; packets = []; started = none }).server
    three true b x f k = no_change s
    three false true x f k = f k
    three false false x f k = no_change s
