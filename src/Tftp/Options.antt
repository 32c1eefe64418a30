-- ===== src/Tftp/Options.antt =====
-- internal/tftp/options.go: the negotiation of RFC 2347 options. Durations are counted in
-- nanoseconds, as `time.Duration` does; the size of a file that is not known (-1) is `none`.
pub mod Bounds
pub mod Answers
pub mod Agreement
use go_fs.Base.{
  ℕ, zero, suc, ◌+◌, ◌-◌, ◌*◌, ◌/◌, ◌%◌, ◌^◌, ◌≤◌, ◌<◌, min, max, ◌≡◌, refl, sym, ap, ◌∙◌, subst,
  ◌≢◌, ◌↔◌, ◌⊎◌, inl, inr, Bool, true, false, not, ◌&&◌, ◌||◌, Option, none, some, List, [], ◌∷◌,
  ◌++◌, map, append-nil, append_assoc, arith, ltb, leb, ◌==◌, if◌then◌else◌, ltb→lt, lt→ltb, ==_iff,
  Bool-cases, Option-cases, length, get_elem?, take, drop, replicate, length-append,
  take-append-drop, length-take, length-drop, All, All-append,
}
use go_fs.Base.Text.{Bytes, codes, bytes_eq, bytes_eq_iff, bytes_eq_refl}
use go_fs.Base.Decimal.{all_digits, itoa, number}
use go_fs.Tftp.Packet.{
  Setting, Request, find_option, default_block_size, min_block_size, max_protocol_block_size,
}

abbrev pub second : ℕ
second = 1_000_000_000

-- `decimalOnly` is `^\d{1,15}$`, and `ParseInt` has no error on what it lets through.
unfoldable pub parse_numeric : Bytes → Option ℕ
parse_numeric value =
    if leb 1 (length value) && leb (length value) 15 && all_digits value
    then some (number 0 value)
    else none

pub record Limits : Type 0 where
  pub timeout : ℕ
  pub max_timeout : ℕ
  pub retries : ℕ
  pub max_block_size : ℕ
  pub max_window_size : ℕ

pub record Negotiated : Type 0 where
  pub block_size : ℕ
  pub window_size : ℕ
  pub timeout : ℕ
  pub acked : List Setting
  pub announced_size : Option ℕ

abbrev pub blksize : Bytes
blksize = codes "blksize"

abbrev pub windowsize : Bytes
windowsize = codes "windowsize"

abbrev pub wndsize : Bytes
wndsize = codes "wndsize"

abbrev pub timeout_key : Bytes
timeout_key = codes "timeout"

abbrev pub tsize : Bytes
tsize = codes "tsize"

abbrev pub mode_netascii : Bytes
mode_netascii = codes "netascii"

abbrev pub mode_octet : Bytes
mode_octet = codes "octet"

-- The number that the request gives for an option, where it gives one.
unfoldable pub requested : Request → Bytes → Option ℕ
requested req key = elim (find_option req.options key) [
  | none ↦ none
  | some value ↦ parse_numeric value
]

abbrev confirm : Negotiated → Bytes → ℕ → List Setting
confirm r key value = r.acked ++ record { key = key; value = itoa value } ∷ []

unfoldable pub answer_blksize : Option ℕ → ℕ → Negotiated → Negotiated
answer_blksize none limit r = r
answer_blksize (some n) limit r =
    if leb min_block_size n
    then record r { block_size = min n limit; acked = confirm r blksize (min n limit) }
    else r

unfoldable pub answer_window : Option ℕ → Bytes → ℕ → Negotiated → Negotiated
answer_window none key limit r = r
answer_window (some n) key limit r =
    if leb 1 n
    then record r { window_size = min n limit; acked = confirm r key (min n limit) }
    else r

-- The key that the client spells the window by; `none` is the empty key.
unfoldable pub window_key : Request → Option Bytes
window_key req = elim (find_option req.options windowsize) [
  | some value ↦ some windowsize
  | none ↦ elim (find_option req.options wndsize) [ some value ↦ some wndsize | none ↦ none ]
]

unfoldable pub negotiate_window : Request → Limits → Bool → Negotiated → Negotiated
negotiate_window req cfg for_read r =
    if for_read
    then elim (window_key req) [
      | none ↦ r
      | some key ↦ answer_window (requested req key) key cfg.max_window_size r
    ]
    else r

unfoldable pub answer_timeout : Option ℕ → ℕ → Negotiated → Negotiated
answer_timeout none limit r = r
answer_timeout (some n) limit r =
    if leb 1 n && leb n limit
    then record r { timeout = n * second; acked = confirm r timeout_key n }
    else r

abbrev pub timeout_limit : Limits → ℕ
timeout_limit cfg = let limit = cfg.max_timeout / second in if ltb 255 limit then 255 else limit

-- The answer of a read: the size on disk, where it is the size on the wire.
unfoldable pub tell_size : Option ℕ → Bytes → Negotiated → Negotiated
tell_size none mode r = r
tell_size (some size) mode r =
    if bytes_eq mode mode_netascii then r else record r { acked = confirm r tsize size }

-- The answer of a write: the size that the client announces.
unfoldable pub hear_size : Option ℕ → Negotiated → Negotiated
hear_size none r = r
hear_size (some n) r = record r { announced_size = some n; acked = confirm r tsize n }

unfoldable pub negotiate_tsize : Request → Bool → Option ℕ → Negotiated → Negotiated
negotiate_tsize req for_read file_size r = elim (find_option req.options tsize) [
  | none ↦ r
  | some value ↦
      if for_read then tell_size file_size req.mode r else hear_size (parse_numeric value) r
]

abbrev pub unnegotiated : Limits → Negotiated
unnegotiated cfg = record {
  block_size = default_block_size;
  window_size = 1;
  timeout = cfg.timeout;
  acked = [];
  announced_size = none;
}

abbrev pub block_limit : Limits → ℕ
block_limit cfg = min cfg.max_block_size max_protocol_block_size

unfoldable pub negotiate : Request → Limits → Bool → Option ℕ → Negotiated
negotiate req cfg for_read file_size =
    let r1 = answer_blksize (requested req blksize) (block_limit cfg) (unnegotiated cfg) in
    let r2 = negotiate_window req cfg for_read r1 in
    let r3 = answer_timeout (requested req timeout_key) (timeout_limit cfg) r2 in
    negotiate_tsize req for_read file_size r3
