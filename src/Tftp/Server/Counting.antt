-- ===== src/Tftp/Server/Counting.antt =====
-- The slots of internal/tftp/server.go that are held, counted by client and by host.
use go_fs.Base.{
  ℕ, suc, ◌≡◌, refl, Bool, true, false, not, ◌&&◌, ◌||◌, List, [], ◌∷◌, ◌++◌, arith, ◌==◌,
  if◌then◌else◌,
}
use go_fs.Base.Text.{Bytes, bytes_eq, bytes_eq_iff}
use go_fs.Tftp.Server.{Admission, without}

unfoldable pub count_host : Bytes → List Admission → ℕ
count_host h [] = 0
count_host h (a ∷ held) = if bytes_eq h a.host then suc (count_host h held) else count_host h held

unfoldable pub holds_slot : Bytes → List Admission → Bool
holds_slot c [] = false
holds_slot c (a ∷ held) = bytes_eq c a.client || holds_slot c held

unfoldable pub clients_differ : List Admission → Bool
clients_differ [] = true
clients_differ (a ∷ held) = not (holds_slot a.client held) && clients_differ held

pub count_host-middle :
    (h : Bytes) (xs ys : List Admission) (a : Admission)
    → count_host h (xs ++ (a ∷ ys))
      ≡ (if bytes_eq h a.host then suc (count_host h (xs ++ ys)) else count_host h (xs ++ ys))
unfolding count_host
count_host-middle h [] ys a = refl
count_host-middle h (x ∷ xs) ys a = ground (arith, count_host-middle h xs ys a)

pub holds_slot-middle :
    (c : Bytes) (xs ys : List Admission) (a : Admission)
    → holds_slot c (xs ++ (a ∷ ys)) ≡ (bytes_eq c a.client || holds_slot c (xs ++ ys))
unfolding holds_slot
holds_slot-middle c [] ys a = refl
holds_slot-middle c (x ∷ xs) ys a = ground (arith, holds_slot-middle c xs ys a)

-- Where the clients differ, that of one slot holds none of the others.
pub clients_differ-middle :
    (xs ys : List Admission) (a : Admission)
    → clients_differ (xs ++ (a ∷ ys)) ≡ true
    → (holds_slot a.client (xs ++ ys) ≡ false) × (clients_differ (xs ++ ys) ≡ true)
unfolding clients_differ holds_slot
clients_differ-middle [] ys a h = ground arith
clients_differ-middle (x ∷ xs) ys a h = ground (
  arith,
  clients_differ-middle xs ys a,
  holds_slot-middle x.client xs ys a,
  bytes_eq_iff x.client a.client,
  bytes_eq_iff a.client x.client,
)

-- The keys of the running transfers.
unfoldable pub keys : List Admission → List ℕ
keys [] = []
keys (a ∷ running) = a.key ∷ keys running

-- No key stands twice among slots.
unfoldable pub lacks_key : ℕ → List Admission → Bool
lacks_key k [] = true
lacks_key k (a ∷ running) = not (a.key == k) && lacks_key k running

unfoldable pub keys_differ : List Admission → Bool
keys_differ [] = true
keys_differ (a ∷ running) = lacks_key a.key running && keys_differ running

lacks_key-middle :
    (k : ℕ) (xs ys : List Admission) (a : Admission)
    → lacks_key k (xs ++ (a ∷ ys)) ≡ (not (a.key == k) && lacks_key k (xs ++ ys))
unfolding lacks_key
lacks_key-middle k [] ys a = refl
lacks_key-middle k (x ∷ xs) ys a = ground (arith, lacks_key-middle k xs ys a)

pub without-lacks :
    (k : ℕ) (held : List Admission) → lacks_key k held ≡ true → without k (keys held) ≡ keys held
unfolding without lacks_key keys
without-lacks k [] h = refl
without-lacks k (a ∷ held) h = ground (arith, without-lacks k held)

-- The key of one slot leaves with it, and with no other.
pub without-middle :
    (xs ys : List Admission) (a : Admission)
    → keys_differ (xs ++ (a ∷ ys)) ≡ true
    → (without a.key (keys (xs ++ (a ∷ ys))) ≡ keys (xs ++ ys)) × (keys_differ (xs ++ ys) ≡ true)
unfolding without keys keys_differ
without-middle [] ys a h = ground (arith, without-lacks a.key ys)
without-middle (x ∷ xs) ys a h =
    ground (arith, without-middle xs ys a, lacks_key-middle x.key xs ys a)
