-- ===== src/Nbd.antt =====
-- internal/nbd/transmission.go and proto.go: one request of the transmission phase of an NBD
-- connection, and its reply. The image is a parameter, the interface `image` of image.go with what
-- it promises as laws. A reply is what is written to the connection that takes it; a connection
-- that does not is closed. What is logged is left out.
pub mod Handling
pub mod Replies
pub mod Rules
pub mod Answers
pub mod Errors
pub mod Storing
pub mod ReadingBack
pub mod Confined
pub mod Memory
pub mod Budget
mod Tests
use go_fs.Base.{
  ℕ, zero, suc, ◌+◌, ◌-◌, ◌*◌, ◌/◌, ◌%◌, ◌^◌, ◌≤◌, ◌<◌, min, max, ◌≡◌, refl, sym, ap, ◌∙◌, subst,
  ◌≢◌, ◌↔◌, ◌⊎◌, inl, inr, Bool, true, false, not, ◌&&◌, ◌||◌, Option, none, some, List, [], ◌∷◌,
  ◌++◌, map, append-nil, append_assoc, arith, ltb, leb, ◌==◌, if◌then◌else◌, ltb→lt, lt→ltb, ==_iff,
  Bool-cases, Option-cases, List-cases, length, get_elem?, take, drop, replicate, length-append,
  take-append-drop, length-take, length-drop, take-length-append, take_all, drop_all,
  drop-length-append, All, All-append,
}
use go_fs.Base.Text.{Bytes, codes, bytes_eq, bytes_eq_iff, bytes_eq_refl, is_empty}
use go_fs.Cryptomator.{put_big_endian}

abbrev pub simple_magic : ℕ
simple_magic = 0x67446698

abbrev pub structured_magic : ℕ
structured_magic = 0x668e33ef

abbrev pub cmd_read : ℕ
cmd_read = 0

abbrev pub cmd_write : ℕ
cmd_write = 1

abbrev pub cmd_flush : ℕ
cmd_flush = 3

abbrev pub cmd_trim : ℕ
cmd_trim = 4

abbrev pub cmd_cache : ℕ
cmd_cache = 5

abbrev pub cmd_write_zeroes : ℕ
cmd_write_zeroes = 6

abbrev pub cmd_block_status : ℕ
cmd_block_status = 7

abbrev pub reply_flag_done : ℕ
reply_flag_done = 1

abbrev pub reply_type_none : ℕ
reply_type_none = 0

abbrev pub reply_type_offset_data : ℕ
reply_type_offset_data = 1

abbrev pub reply_type_block_status : ℕ
reply_type_block_status = 5

abbrev pub reply_type_error : ℕ
reply_type_error = 2 ^ 15 + 1

abbrev pub err_perm : ℕ
err_perm = 1

abbrev pub err_io : ℕ
err_io = 5

abbrev pub err_invalid : ℕ
err_invalid = 22

abbrev pub err_no_space : ℕ
err_no_space = 28

abbrev pub err_not_sup : ℕ
err_not_sup = 95

abbrev pub context_base_id : ℕ
context_base_id = 1

abbrev pub state_hole : ℕ
state_hole = 1

abbrev pub state_zero : ℕ
state_zero = 2

abbrev pub max_block : ℕ
max_block = 32 * 2 ^ 20

abbrev pub max_extents : ℕ
max_extents = 2 ^ 16

-- What an error is: `diskFull`, and `errors.Is` of `fs.ErrPermission` and `sparse.ErrUnsupported`.
pub record Failure : Type 0 where
  pub disk_full : Bool
  pub permission : Bool
  pub unsupported : Bool

pub record Extent : Type 0 where
  pub offset : ℕ
  pub len : ℕ
  pub hole : Bool

-- Only the `n` bytes at `off` differ.
abbrev pub Changes : ℕ → ℕ → Bytes → Bytes → Type 0
Changes off n before after =
    (length after ≡ length before)
    × (take off after ≡ take off before)
    × (drop (off + n) after ≡ drop (off + n) before)

abbrev pub range : ℕ → ℕ → Bytes → Bytes
range off n bs = take n (drop off bs)

-- The interface `image`. `Failure ⊎` and `Option Failure` are the errors.
pub record Image : Type 1 where
  pub State : Type 0
  pub content : State → Bytes
  pub read_at : State → ℕ → ℕ → Failure ⊎ Bytes
  pub write_at : State → Bytes → ℕ → State × Option Failure
  pub sync : State → State × Option Failure
  pub punch_hole : State → ℕ → ℕ → State × Option Failure
  pub zero_range : State → ℕ → ℕ → State × Option Failure
  pub extents : State → ℕ → ℕ → Failure ⊎ List Extent
  pub reads :
      (s : State) (n off : ℕ) (bs : Bytes) → read_at s n off ≡ inr bs → bs ≡ range off n (content s)
  pub write_within :
      (s : State) (bs : Bytes) (off : ℕ)
      → off + length bs ≤ length (content s)
      → Changes off (length bs) (content s) (content (write_at s bs off).0)
  pub writes :
      (s : State) (bs : Bytes) (off : ℕ)
      → off + length bs ≤ length (content s)
      → (write_at s bs off).1 ≡ none
      → range off (length bs) (content (write_at s bs off).0) ≡ bs
  pub sync_keeps : (s : State) → content (sync s).0 ≡ content s
  pub punch_within :
      (s : State) (off n : ℕ)
      → off + n ≤ length (content s)
      → Changes off n (content s) (content (punch_hole s off n).0)
  pub punches :
      (s : State) (off n : ℕ)
      → off + n ≤ length (content s)
      → (punch_hole s off n).1 ≡ none
      → range off n (content (punch_hole s off n).0) ≡ replicate n 0
  pub zero_within :
      (s : State) (off n : ℕ)
      → off + n ≤ length (content s)
      → Changes off n (content s) (content (zero_range s off n).0)
  pub zeroes :
      (s : State) (off n : ℕ)
      → off + n ≤ length (content s)
      → (zero_range s off n).1 ≡ none
      → range off n (content (zero_range s off n).0) ≡ replicate n 0

-- `request`, without the share of the budget.
pub record Request : Type 0 where
  pub flags : ℕ
  pub kind : ℕ
  pub cookie : ℕ
  pub offset : ℕ
  pub len : ℕ
  pub payload : Bytes

-- What the workers share of the connection and the export; `hole_punching` is `sparse.HolePunching`.
pub record Transmission : Type 0 where
  pub structured : Bool
  pub meta_base : Bool
  pub writable : Bool
  pub size : ℕ
  pub hole_punching : Bool

-- Bit `k` of the flags of a request.
abbrev pub flag : ℕ → Request → Bool
flag k req = req.flags / 2 ^ k % 2 == 1

unfoldable pub errno : Failure → ℕ
errno e = if e.disk_full then err_no_space else if e.permission then err_perm else err_io

unfoldable pub simple_reply : ℕ → ℕ → Bytes → Bytes
simple_reply cookie code bs =
    (put_big_endian 4 simple_magic ++ (put_big_endian 4 code ++ put_big_endian 8 cookie)) ++ bs

unfoldable pub chunk_reply : ℕ → ℕ → ℕ → Bytes → Bytes → Bytes
chunk_reply cookie flags kind head bs =
    ((put_big_endian 4 structured_magic
        ++ ((put_big_endian 2 flags ++ put_big_endian 2 kind)
            ++ (put_big_endian 8 cookie ++ put_big_endian 4 (length head + length bs))))
      ++ head)
    ++ bs

unfoldable pub fail_reply : Transmission → Request → ℕ → Bytes → Bytes
fail_reply t req code message =
    if t.structured && ((req.kind == cmd_read) || (req.kind == cmd_block_status))
    then chunk_reply req.cookie reply_flag_done reply_type_error
        (put_big_endian 4 code ++ (put_big_endian 2 (length message) ++ message)) []
    else simple_reply req.cookie code []

unfoldable pub data_reply : Transmission → Request → Bytes → Bytes
data_reply t req bs =
    if not t.structured
    then simple_reply req.cookie 0 bs
    else if length bs == 0
    then chunk_reply req.cookie reply_flag_done reply_type_none [] []
    else chunk_reply req.cookie reply_flag_done reply_type_offset_data (put_big_endian 8 req.offset)
        bs

unfoldable pub extent_bytes : List Extent → Bytes
extent_bytes [] = []
extent_bytes (e ∷ es) =
    put_big_endian 4 e.len
    ++ (put_big_endian 4 (if e.hole then state_hole + state_zero else 0) ++ extent_bytes es)

unfoldable pub reported : Request → List Extent → List Extent
reported req es = take max_extents (if flag 3 req && ltb 1 (length es) then take 1 es else es)

unfoldable pub block_status_reply : Request → List Extent → Bytes
block_status_reply req es =
    chunk_reply req.cookie reply_flag_done reply_type_block_status
      (put_big_endian 4 context_base_id ++ extent_bytes (reported req es)) []
