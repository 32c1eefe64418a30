-- ===== src/Tftp/Server/Limits.antt =====
-- The limits of internal/tftp/server.go hold over any run.
use go_fs.Base.{
  ℕ, suc, ◌+◌, ◌-◌, ◌≤◌, ◌<◌, ◌≡◌, refl, sym, ap, ◌∙◌, subst, true, false, Option, none, some, List,
  [], ◌∷◌, ◌++◌, arith, length,
}
use go_fs.Base.Text.{Bytes, bytes_eq_iff, bytes_eq_refl}
use go_fs.Tftp.Server.{
  Config, Server, new_server, Admission, set_active, set_host, Answer, admitted, turned_away,
  reserve, admit_locked, admit, without, release, begin, shut,
}
use go_fs.Tftp.Packet.{Request}
use go_fs.Tftp.Server.Counting.{
  count_host, holds_slot, clients_differ, holds_slot-middle, keys, lacks_key, keys_differ,
  without-middle, without-lacks,
}
use go_fs.Tftp.Server.Slots.{
  World, with_current, Step, admit_step, begin_step, give_up_step, finish_step, shut_step,
  Reachable, at_start, next, keys_upto, keys_upto-lacks, Knows, release-Knows,
}

-- What a slot that admit gives says of the server.
abbrev pub Rightly : Config → Server → Bytes → Bytes → Admission → Server → Type 0
Rightly cfg s client host a s' =
    (s.active_clients client ≡ false)
    × (length s.transfers + s.pending < cfg.max_connections)
    × (s.host_transfers host < cfg.max_connections_per_host)
    × (reserve s client host ≡ admitted a s')

admit_locked-Rightly :
    (cfg : Config) (s : Server) (client host : Bytes) (a : Admission) (s' : Server)
    → admit_locked cfg s client host ≡ admitted a s'
    → Rightly cfg s client host a s'
unfolding admit_locked
admit_locked-Rightly cfg s client host a s' h =
    (ground arith, ground arith, ground arith, ground arith)

pub admit-Rightly :
    (cfg : Config) (s : Server) (req : Request) (client host : Bytes) (a : Admission) (s' : Server)
    → admit cfg s req client host ≡ admitted a s'
    → Rightly cfg s client host a s'
unfolding admit
admit-Rightly cfg s req client host a s' h =
    admit_locked-Rightly cfg s client host a s' (ground arith)

length-keys : (held : List Admission) → length (keys held) ≡ length held
unfolding keys
length-keys [] = refl
length-keys (a ∷ held) = ap suc (length-keys held)

-- The slots that the server knows of, with the running transfers and the request at hand.
pub record Sound (m p : ℕ) (w : World) : Type 0 where
  pub knows : Knows m p w.server (with_current w.current w.running)
  pub runs : w.server.transfers ≡ keys w.running
  pub waits : w.server.pending ≤ length (with_current w.current [])

abbrev slot_of : Answer → Admission → Admission
slot_of (admitted a s) b = a
slot_of (turned_away packets) b = b

abbrev server_of : Answer → Server → Server
server_of (admitted a s) r = s
server_of (turned_away packets) r = r

-- The server and the slot of a reservation.
abbrev new_slot : Server → Bytes → Bytes → Admission
new_slot s client host = record { key = s.last_key + 1; client = client; host = host }

abbrev with_slot : Server → Bytes → Bytes → Server
with_slot s client host = record {
  transfers = s.transfers;
  active_clients = set_active client true s.active_clients;
  host_transfers = set_host host (s.host_transfers host + 1) s.host_transfers;
  pending = s.pending + 1;
  last_key = s.last_key + 1;
  shutdown = s.shutdown;
}

with_slot-Sound :
    (m p : ℕ) (s : Server) (running : List Admission) (client host : Bytes)
    → Sound m p (record { server = s; current = none; running = running })
    → s.active_clients client ≡ false
    → length s.transfers + s.pending < m
    → s.host_transfers host < p
    → Sound m p (record {
      server = with_slot s client host;
      current = some (new_slot s client host);
      running = running;
    })
with_slot-Sound m p s running client host k f g h =
    let n = k.knows in
    record {
      knows = record {
        clients =
            λ c. unfold set_active holds_slot in ground (arith, n.clients c, bytes_eq_iff c client);
        hosts = λ i.
            unfold set_host count_host in
            ground (arith, n.hosts i, n.hosts host, bytes_eq_iff i host);
        differ = unfold clients_differ in ground (arith, n.clients client, n.differ);
        unlike =
            unfold keys_differ in
            ground (arith, keys_upto-lacks s.last_key running, n.upto, n.unlike);
        upto = unfold keys_upto in ground (arith, keys_upto-lacks s.last_key running, n.upto);
        within = omega (arith, length-keys running, ap length k.runs, g);
        within_host = λ i.
            unfold count_host in ground (arith, n.within_host i, n.hosts host, bytes_eq_iff i host);
      };
      runs = k.runs;
      waits = omega (arith, k.waits);
    }

reserve-Sound :
    (m p : ℕ) (s : Server) (running : List Admission) (client host : Bytes) (a : Admission)
    (s' : Server)
    → Sound m p (record { server = s; current = none; running = running })
    → s.active_clients client ≡ false
    → length s.transfers + s.pending < m
    → s.host_transfers host < p
    → reserve s client host ≡ admitted a s'
    → Sound m p (record { server = s'; current = some a; running = running })
unfolding reserve
reserve-Sound m p s running client host a s' k f g h e =
    subst
      (λ (w : Answer).
        Sound m p
          (record { server = server_of w s; current = some (slot_of w a); running = running }))
      e (with_slot-Sound m p s running client host k f g h)

release-rest :
    (s : Server) (a : Admission)
    → s.active_clients a.client ≡ true
    → ((release s a).transfers ≡ without a.key s.transfers)
      × ((release s a).pending ≡ s.pending - 1)
unfolding release
release-rest s a e = rw e (refl, refl)

active_held :
    (m p : ℕ) (s : Server) (xs ys : List Admission) (a : Admission)
    → Knows m p s (xs ++ (a ∷ ys))
    → s.active_clients a.client ≡ true
active_held m p s xs ys a k =
    k.clients a.client ∙ holds_slot-middle a.client xs ys a ∙ rw (bytes_eq_refl a.client) refl

keys_differ-rest :
    (a : Admission) (running : List Admission)
    → keys_differ (a ∷ running) ≡ true
    → (lacks_key a.key running ≡ true) × (keys_differ running ≡ true)
unfolding keys_differ
keys_differ-rest a running h = (ground arith, ground arith)

-- A slot that is given back, of the request at hand or of a running transfer.
give_up-Sound :
    (m p : ℕ) (s : Server) (running : List Admission) (a : Admission)
    → Sound m p (record { server = s; current = some a; running = running })
    → Sound m p (record { server = release s a; current = none; running = running })
give_up-Sound m p s running a k =
    let r = release-rest s a (active_held m p s [] running a k.knows) in
    record {
      knows = release-Knows m p s [] running a k.knows;
      runs =
          r.0
          ∙ ap (without a.key) k.runs
          ∙ without-lacks a.key running ((keys_differ-rest a running k.knows.unlike).0);
      waits = omega (arith, r.1, k.waits);
    }

finish-Sound :
    (m p : ℕ) (s : Server) (current : Option Admission) (xs ys : List Admission) (a : Admission)
    → Sound m p (record { server = s; current = current; running = xs ++ (a ∷ ys) })
    → Sound m p (record { server = release s a; current = current; running = xs ++ ys })
finish-Sound m p s none xs ys a k =
    let r = release-rest s a (active_held m p s xs ys a k.knows) in
    record {
      knows = release-Knows m p s xs ys a k.knows;
      runs = r.0 ∙ ap (without a.key) k.runs ∙ (without-middle xs ys a k.knows.unlike).0;
      waits = omega (arith, r.1, k.waits);
    }
finish-Sound m p s (some b) xs ys a k =
    let r = release-rest s a (active_held m p s (b ∷ xs) ys a k.knows) in
    record {
      knows = release-Knows m p s (b ∷ xs) ys a k.knows;
      runs =
          r.0
          ∙ ap (without a.key) k.runs
          ∙ (without-middle xs ys a ((keys_differ-rest b (xs ++ (a ∷ ys)) k.knows.unlike).1)).0;
      waits = omega (arith, r.1, k.waits);
    }

begin-Sound :
    (m p : ℕ) (s : Server) (running : List Admission) (a : Admission)
    → Sound m p (record { server = s; current = some a; running = running })
    → Sound m p (record { server = begin s a; current = none; running = a ∷ running })
unfolding begin keys
begin-Sound m p s running a k =
    let n = k.knows in
    record {
      knows = record {
        clients = n.clients;
        hosts = n.hosts;
        differ = n.differ;
        unlike = n.unlike;
        upto = n.upto;
        within = n.within;
        within_host = n.within_host;
      };
      runs = ap (λ t. a.key ∷ t) k.runs;
      waits = omega (arith, k.waits);
    }

shut-Sound :
    (m p : ℕ) (s : Server) (current : Option Admission) (running : List Admission)
    → Sound m p (record { server = s; current = current; running = running })
    → Sound m p (record { server = shut s; current = current; running = running })
unfolding shut
shut-Sound m p s current running k =
    let n = k.knows in
    record {
      knows = record {
        clients = n.clients;
        hosts = n.hosts;
        differ = n.differ;
        unlike = n.unlike;
        upto = n.upto;
        within = n.within;
        within_host = n.within_host;
      };
      runs = k.runs;
      waits = k.waits;
    }

start-Sound : (m p : ℕ) → Sound m p (record { server = new_server; current = none; running = [] })
unfolding holds_slot count_host clients_differ keys_differ keys_upto keys
start-Sound m p = record {
  knows = record {
    clients = λ c. refl;
    hosts = λ h. refl;
    differ = refl;
    unlike = refl;
    upto = refl;
    within = omega arith;
    within_host = λ h. omega arith;
  };
  runs = refl;
  waits = omega arith;
}

Step-Sound : (m p : ℕ) (w w' : World) → Step m p w w' → Sound m p w → Sound m p w'
Step-Sound m p _ _ (admit_step cfg s s' running req client host a hm hp e) k =
    let r = admit-Rightly cfg s req client host a s' e in
    reserve-Sound m p s running client host a s' k (r.0) (omega (arith, r.1, hm))
      (omega (arith, r.2, hp)) (r.3)
Step-Sound m p _ _ (begin_step s running a) k = begin-Sound m p s running a k
Step-Sound m p _ _ (give_up_step s running a) k = give_up-Sound m p s running a k
Step-Sound m p _ _ (finish_step s current xs ys a w w' e e') k =
    subst (Sound m p) (sym e') (finish-Sound m p s current xs ys a (subst (Sound m p) e k))
Step-Sound m p _ _ (shut_step s current running) k = shut-Sound m p s current running k

pub Reachable-Sound : (m p : ℕ) (w : World) → Reachable m p w → Sound m p w
Reachable-Sound m p _ at_start = start-Sound m p
Reachable-Sound m p _ (next w w' r s) = Step-Sound m p w w' s (Reachable-Sound m p w r)

-- Whatever the order in which requests are admitted, begun and given up and transfers end, with
-- limits of at most m transfers and p of a host in force: at most m slots are held and at most p by
-- one host, no client holds two, and the server counts the slots of each host and the running
-- transfers as they are. Its count of the requests that are not begun is at most the one at hand; it
-- may be lower.
pub Reachable-limits :
    (m p : ℕ) (w : World)
    → Reachable m p w
    → (length (with_current w.current w.running) ≤ m)
      × ((h : Bytes) → count_host h (with_current w.current w.running) ≤ p)
      × (clients_differ (with_current w.current w.running) ≡ true)
      × ((h : Bytes) → w.server.host_transfers h ≡ count_host h (with_current w.current w.running))
      × (w.server.transfers ≡ keys w.running)
      × (w.server.pending ≤ length (with_current w.current []))
Reachable-limits m p w r =
    let k = Reachable-Sound m p w r in
    (k.knows.within, k.knows.within_host, k.knows.differ, k.knows.hosts, k.runs, k.waits)
