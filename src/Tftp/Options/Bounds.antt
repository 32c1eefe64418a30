-- ===== src/Tftp/Options/Bounds.antt =====
-- The values that internal/tftp/options.go settles on stay within the protocol and the limits.
use go_fs.Base.{min, leb, if◌then◌else◌, ℕ, ◌*◌, ◌≤◌, ◌≡◌, ◌⊎◌, Bool, false, none, some}
use go_fs.Tftp.Packet.{Request, default_block_size, min_block_size}
use go_fs.Tftp.Options.{second, Limits, Negotiated, requested, block_limit, blksize}

-- The limits that the configuration lets through.
pub record IsSound (cfg : Limits) : Type 0 where
  pub block : min_block_size ≤ cfg.max_block_size
  pub window : 1 ≤ cfg.max_window_size

pub record InBounds (cfg : Limits) (for_read : Bool) (r : Negotiated) : Type 0 where
  pub block_min : min_block_size ≤ r.block_size
  pub block_max : (r.block_size ≡ default_block_size) ⊎ (r.block_size ≤ block_limit cfg)
  pub window_min : 1 ≤ r.window_size
  pub window_max : r.window_size ≤ cfg.max_window_size
  pub window_write : for_read ≡ false → r.window_size ≡ 1
  pub timeout_max :
      (r.timeout ≡ cfg.timeout)
      ⊎ ((second ≤ r.timeout) × (r.timeout ≤ 255 * second) × (r.timeout ≤ cfg.max_timeout))

-- The block size in force: the default where the client gives no number of 8 or more, whatever the
-- configured maximum, else the number that it gives, cut to the limit.
abbrev pub block_size_for : Request → Limits → ℕ
block_size_for req cfg = elim (requested req blksize) [
  | none ↦ default_block_size
  | some n ↦ if leb min_block_size n then min n (block_limit cfg) else default_block_size
]
