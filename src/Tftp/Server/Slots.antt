-- ===== src/Tftp/Server/Slots.antt =====
-- The slots of internal/tftp/server.go over any run: the serve loop handles a request at a time, and
-- transfers end, each under the mutex of the server, at any moment in between.
use go_fs.Base.{
  ℕ, ◌+◌, ◌≤◌, ◌≡◌, refl, ◌∙◌, Bool, true, ◌&&◌, Option, none, some, List, [], ◌∷◌, ◌++◌, arith,
  leb, length, length-append,
}
use go_fs.Base.Text.{Bytes, bytes_eq_iff, bytes_eq_refl}
use go_fs.Tftp.Server.{
  Config, Server, new_server, Admission, set_active, set_host, admitted, admit, release, begin,
  shut,
}
use go_fs.Tftp.Packet.{Request}
use go_fs.Tftp.Server.Counting.{
  count_host, holds_slot, clients_differ, count_host-middle, holds_slot-middle,
  clients_differ-middle, lacks_key, keys_differ, without-middle,
}

-- The server, the slot of the request that is being handled, and the slots of the running transfers.
pub record World : Type 0 where
  pub server : Server
  pub current : Option Admission
  pub running : List Admission

abbrev pub with_current : Option Admission → List Admission → List Admission
with_current none running = running
with_current (some a) running = a ∷ running

-- The limits are those of the configuration in force at each request, which a reload may change: at
-- most m and p.
pub data Step (m p : ℕ) : World → World → Type 0 where
  admit_step :
      (cfg : Config) (s s' : Server) (running : List Admission) (req : Request)
      (client host : Bytes) (a : Admission)
      → cfg.max_connections ≤ m
      → cfg.max_connections_per_host ≤ p
      → admit cfg s req client host ≡ admitted a s'
      → Step m p
          (record { server = s; current = none; running = running })
          (record { server = s'; current = some a; running = running })
  begin_step :
      (s : Server) (running : List Admission) (a : Admission)
      → Step m p
          (record { server = s; current = some a; running = running })
          (record { server = begin s a; current = none; running = a ∷ running })
  give_up_step :
      (s : Server) (running : List Admission) (a : Admission)
      → Step m p
          (record { server = s; current = some a; running = running })
          (record { server = release s a; current = none; running = running })
  finish_step :
      (s : Server) (current : Option Admission) (xs ys : List Admission) (a : Admission)
      (w w' : World)
      → w ≡ record { server = s; current = current; running = xs ++ (a ∷ ys) }
      → w' ≡ record { server = release s a; current = current; running = xs ++ ys }
      → Step m p w w'
  shut_step :
      (s : Server) (current : Option Admission) (running : List Admission)
      → Step m p
          (record { server = s; current = current; running = running })
          (record { server = shut s; current = current; running = running })

pub data Reachable (m p : ℕ) : World → Type 0 where
  at_start : Reachable m p (record { server = new_server; current = none; running = [] })
  next : (w w' : World) → Reachable m p w → Step m p w w' → Reachable m p w'

unfoldable pub keys_upto : ℕ → List Admission → Bool
keys_upto n [] = true
keys_upto n (a ∷ held) = leb a.key n && keys_upto n held

keys_upto-middle :
    (n : ℕ) (xs ys : List Admission) (a : Admission)
    → keys_upto n (xs ++ (a ∷ ys)) ≡ true
    → keys_upto n (xs ++ ys) ≡ true
unfolding keys_upto
keys_upto-middle n [] ys a h = ground arith
keys_upto-middle n (x ∷ xs) ys a h = ground (arith, keys_upto-middle n xs ys a)

pub keys_upto-lacks :
    (n : ℕ) (held : List Admission)
    → keys_upto n held ≡ true
    → (lacks_key (n + 1) held ≡ true) × (keys_upto (n + 1) held ≡ true)
unfolding keys_upto lacks_key
keys_upto-lacks n [] h = ground arith
keys_upto-lacks n (a ∷ held) h = ground (arith, keys_upto-lacks n held)

-- What the server knows of the slots that are held, and the limits.
pub record Knows (m p : ℕ) (s : Server) (held : List Admission) : Type 0 where
  pub clients : (c : Bytes) → s.active_clients c ≡ holds_slot c held
  pub hosts : (h : Bytes) → s.host_transfers h ≡ count_host h held
  pub differ : clients_differ held ≡ true
  pub unlike : keys_differ held ≡ true
  pub upto : keys_upto s.last_key held ≡ true
  pub within : length held ≤ m
  pub within_host : (h : Bytes) → count_host h held ≤ p

-- Fewer slots, none of a client or host that the others lack.
pub release-Knows :
    (m p : ℕ) (s : Server) (xs ys : List Admission) (a : Admission)
    → Knows m p s (xs ++ (a ∷ ys))
    → Knows m p (release s a) (xs ++ ys)
unfolding release
release-Knows m p s xs ys a k =
    let held : s.active_clients a.client ≡ true =
      k.clients a.client ∙ holds_slot-middle a.client xs ys a ∙ rw (bytes_eq_refl a.client) refl in
    rw held (record {
      clients = λ c.
          unfold set_active in
          ground (
            arith,
            k.clients c,
            holds_slot-middle c xs ys a,
            bytes_eq_iff c a.client,
            clients_differ-middle xs ys a k.differ,
          );
      hosts = λ h.
          unfold set_host in
          ground (
            arith,
            k.hosts h,
            k.hosts a.host,
            count_host-middle h xs ys a,
            count_host-middle a.host xs ys a,
            bytes_eq_iff h a.host,
            bytes_eq_refl a.host,
          );
      differ = (clients_differ-middle xs ys a k.differ).1;
      unlike = (without-middle xs ys a k.unlike).1;
      upto = keys_upto-middle s.last_key xs ys a k.upto;
      within = omega (arith, length-append xs (a ∷ ys), length-append xs ys, k.within);
      within_host = λ h. ground (arith, k.within_host h, count_host-middle h xs ys a);
    })
