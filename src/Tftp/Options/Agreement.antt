-- ===== src/Tftp/Options/Agreement.antt =====
-- Client and server agree after internal/tftp/options.go: the values in force are the ones
-- confirmed, and the defaults where nothing is.
use go_fs.Base.{
  ℕ, ◌*◌, ◌/◌, min, ◌≡◌, refl, ◌⊎◌, inl, inr, Bool, true, false, Option, none, some, List, [], ◌∷◌,
  ◌++◌, arith, if◌then◌else◌, Option-cases,
}
use go_fs.Base.Text.{Bytes, bytes_eq}
use go_fs.Base.Decimal.{itoa}
use go_fs.Tftp.Packet.{Setting, Request, find_option, default_block_size}
use go_fs.Tftp.Options.{
  second, Limits, Negotiated, requested, parse_numeric, answer_blksize, answer_window, window_key,
  negotiate_window, answer_timeout, timeout_limit, tell_size, hear_size, negotiate_tsize,
  unnegotiated, block_limit, negotiate, blksize, timeout_key, tsize, windowsize, wndsize,
}

-- The value that a list of confirmations gives an option, or the number in force without one.
pub told : List Setting → Bytes → ℕ → Bytes
told acked key default = elim (find_option acked key) [ none ↦ itoa default | some v ↦ v ]

-- The window goes by either of two keys.
pub told_window : List Setting → Bytes
unfolding told
told_window acked = elim (find_option acked windowsize) [ none ↦ told acked wndsize 1 | some v ↦ v ]

pub record Agrees (cfg : Limits) (r : Negotiated) : Type 0 where
  pub block : told r.acked blksize default_block_size ≡ itoa r.block_size
  pub window : told_window r.acked ≡ itoa r.window_size
  pub timeout : told r.acked timeout_key (cfg.timeout / second) ≡ itoa (r.timeout / second)

find_option-concat :
    (xs : List Setting) (k v key : Bytes)
    → find_option (xs ++ record { key = k; value = v } ∷ []) key ≡ elim (find_option xs key) [
      | none ↦ if bytes_eq k key then some v else none
      | some w ↦ some w
    ]
unfolding find_option
find_option-concat [] k v key = ground arith
find_option-concat (x ∷ xs) k v key = ground (arith, find_option-concat xs k v key)

seconds : (n : ℕ) → n * second / second ≡ n
seconds n = omega arith

-- No answer to any of these keys stands in the list yet.
abbrev Fresh : Bytes → Negotiated → Type 0
Fresh key r = find_option r.acked key ≡ none

module _ (cfg : Limits) (r : Negotiated) (a : Agrees cfg r) where
  answer_blksize-Agrees :
      (n : Option ℕ) (limit : ℕ) → Fresh blksize r → Agrees cfg (answer_blksize n limit r)
  unfolding answer_blksize told told_window bytes_eq
  answer_blksize-Agrees none limit f = a
  answer_blksize-Agrees (some n) limit f =
      let v = itoa (min n limit) in
      ground (
        arith,
        find_option-concat r.acked blksize v blksize,
        find_option-concat r.acked blksize v windowsize,
        find_option-concat r.acked blksize v wndsize,
        find_option-concat r.acked blksize v timeout_key,
      )

  answer_timeout-Agrees :
      (n : Option ℕ) (limit : ℕ) → Fresh timeout_key r → Agrees cfg (answer_timeout n limit r)
  unfolding answer_timeout told told_window bytes_eq
  answer_timeout-Agrees none limit f = a
  answer_timeout-Agrees (some n) limit f = ground (
    arith,
    find_option-concat r.acked timeout_key (itoa n) blksize,
    find_option-concat r.acked timeout_key (itoa n) windowsize,
    find_option-concat r.acked timeout_key (itoa n) wndsize,
    find_option-concat r.acked timeout_key (itoa n) timeout_key,
    seconds n,
  )

  tsize-Agrees :
      (n : ℕ) (announced : Option ℕ)
      → Agrees cfg (record r {
        announced_size = announced;
        acked = r.acked ++ record { key = tsize; value = itoa n } ∷ [];
      })
  unfolding told told_window bytes_eq
  tsize-Agrees n announced = ground (
    arith,
    find_option-concat r.acked tsize (itoa n) blksize,
    find_option-concat r.acked tsize (itoa n) windowsize,
    find_option-concat r.acked tsize (itoa n) wndsize,
    find_option-concat r.acked tsize (itoa n) timeout_key,
  )

  if-Agrees :
      (c : Bool) (x y : Negotiated) → Agrees cfg x → Agrees cfg y → Agrees cfg (if c then x else y)
  if-Agrees true x y hx hy = hx
  if-Agrees false x y hx hy = hy

  tell_size-Agrees : (size : Option ℕ) (mode : Bytes) → Agrees cfg (tell_size size mode r)
  unfolding tell_size
  tell_size-Agrees none mode = a
  tell_size-Agrees (some n) mode = if-Agrees _ _ _ a (tsize-Agrees n r.announced_size)

  hear_size-Agrees : (n : Option ℕ) → Agrees cfg (hear_size n r)
  unfolding hear_size
  hear_size-Agrees none = a
  hear_size-Agrees (some n) = tsize-Agrees n (some n)

  negotiate_tsize-Agrees :
      (req : Request) (for_read : Bool) (size : Option ℕ)
      → Agrees cfg (negotiate_tsize req for_read size r)
  unfolding negotiate_tsize
  negotiate_tsize-Agrees req for_read size = elim (Option-cases (find_option req.options tsize)) [
    | inl e ↦ rw (e, negotiate_tsize) a
    | inr (v, e) ↦
        rw (e, negotiate_tsize)
          (if-Agrees for_read _ _ (tell_size-Agrees size req.mode)
            (hear_size-Agrees (parse_numeric v)))
  ]

  answer_window-Agrees :
      (n : Option ℕ) (key : Bytes) (limit : ℕ)
      → (key ≡ windowsize) ⊎ (key ≡ wndsize)
      → Fresh windowsize r
      → Fresh wndsize r
      → Agrees cfg (answer_window n key limit r)
  unfolding answer_window told told_window bytes_eq
  answer_window-Agrees none key limit k f g = a
  answer_window-Agrees (some n) key limit k f g =
      let v = itoa (min n limit) in
      ground (
        arith,
        find_option-concat r.acked windowsize v blksize,
        find_option-concat r.acked windowsize v windowsize,
        find_option-concat r.acked windowsize v wndsize,
        find_option-concat r.acked windowsize v timeout_key,
        find_option-concat r.acked wndsize v blksize,
        find_option-concat r.acked wndsize v windowsize,
        find_option-concat r.acked wndsize v wndsize,
        find_option-concat r.acked wndsize v timeout_key,
      )

window_key-cases :
    (req : Request) (key : Bytes) → window_key req ≡ some key → (key ≡ windowsize) ⊎ (key ≡ wndsize)
unfolding window_key
window_key-cases req key h = ground arith

negotiate_window-Agrees :
    (cfg : Limits) (r : Negotiated) (req : Request) (for_read : Bool)
    → Agrees cfg r
    → Fresh windowsize r
    → Fresh wndsize r
    → Agrees cfg (negotiate_window req cfg for_read r)
unfolding negotiate_window
negotiate_window-Agrees cfg r req false a f g = a
negotiate_window-Agrees cfg r req true a f g = elim (Option-cases (window_key req)) [
  | inl e ↦ rw (e, negotiate_window) a
  | inr (key, e) ↦
      rw (e, negotiate_window)
        (answer_window-Agrees cfg r a (requested req key) key cfg.max_window_size
          (window_key-cases req key e) f g)
]

answer_blksize-Fresh :
    (key : Bytes) (r : Negotiated) (n : Option ℕ) (limit : ℕ)
    → bytes_eq blksize key ≡ false
    → Fresh key r
    → Fresh key (answer_blksize n limit r)
unfolding answer_blksize
answer_blksize-Fresh key r none limit ne f = f
answer_blksize-Fresh key r (some n) limit ne f =
    ground (arith, find_option-concat r.acked blksize (itoa (min n limit)) key)

answer_window-Fresh :
    (r : Negotiated) (n : Option ℕ) (key : Bytes) (limit : ℕ)
    → (key ≡ windowsize) ⊎ (key ≡ wndsize)
    → Fresh timeout_key r
    → Fresh timeout_key (answer_window n key limit r)
unfolding answer_window bytes_eq
answer_window-Fresh r none key limit k f = f
answer_window-Fresh r (some n) key limit k f = ground (
  arith,
  find_option-concat r.acked windowsize (itoa (min n limit)) timeout_key,
  find_option-concat r.acked wndsize (itoa (min n limit)) timeout_key,
)

negotiate_window-Fresh :
    (req : Request) (cfg : Limits) (for_read : Bool) (r : Negotiated)
    → Fresh timeout_key r
    → Fresh timeout_key (negotiate_window req cfg for_read r)
unfolding negotiate_window
negotiate_window-Fresh req cfg false r f = f
negotiate_window-Fresh req cfg true r f = elim (Option-cases (window_key req)) [
  | inl e ↦ rw (e, negotiate_window) f
  | inr (key, e) ↦
      rw (e, negotiate_window)
        (answer_window-Fresh r (requested req key) key cfg.max_window_size
          (window_key-cases req key e) f)
]

unnegotiated-Agrees : (cfg : Limits) → Agrees cfg (unnegotiated cfg)
unfolding told told_window find_option
unnegotiated-Agrees cfg = record { block = refl; window = refl; timeout = refl }

-- The block size, the window and the timeout in force are what the confirmations say, in decimal;
-- without a confirmation they are 512, 1 and the configured timeout in whole seconds.
pub negotiate-Agrees :
    (req : Request) (cfg : Limits) (for_read : Bool) (file_size : Option ℕ)
    → Agrees cfg (negotiate req cfg for_read file_size)
unfolding negotiate bytes_eq find_option
negotiate-Agrees req cfg for_read file_size =
    let r1 = answer_blksize (requested req blksize) (block_limit cfg) (unnegotiated cfg) in
    let r2 = negotiate_window req cfg for_read r1 in
    let fresh = λ (key : Bytes) (ne : bytes_eq blksize key ≡ false).
      answer_blksize-Fresh key (unnegotiated cfg) (requested req blksize) (block_limit cfg) ne
        refl in
    let a1 =
      answer_blksize-Agrees cfg (unnegotiated cfg) (unnegotiated-Agrees cfg) (requested req blksize)
        (block_limit cfg) refl in
    let a2 =
      negotiate_window-Agrees cfg r1 req for_read a1 (fresh windowsize refl) (fresh wndsize refl) in
    let f2 = negotiate_window-Fresh req cfg for_read r1 (fresh timeout_key refl) in
    let a3 = answer_timeout-Agrees cfg r2 a2 (requested req timeout_key) (timeout_limit cfg) f2 in
    negotiate_tsize-Agrees cfg _ a3 req for_read file_size
