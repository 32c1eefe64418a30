-- ===== src/Tftp/Streams.antt =====
-- Go's io.Reader and io.Writer, as the transfers of internal/tftp meet them: the served file, or
-- the netascii conversion in front of it. They are parameters of the transfers, with the
-- documented behaviour as laws.
use mathlib.Core.Option
use go_fs.Base.{
  ℕ, zero, suc, ◌-◌, ◌≤◌, ◌<◌, ◌≡◌, refl, sym, ap, ◌≢◌, ◌⊎◌, inl, inr, Option, none, some, [], ◌∷◌,
  ◌++◌, arith, ltb, if◌then◌else◌, length, take, drop, length-append, take-append-drop, length-take,
}
use go_fs.Base.Text.{Bytes}

-- What one `Read` returns: the bytes copied out, the end of the stream, or an error.
pub data ReadResult : Type 0 where
  read : Bytes → ReadResult
  end : ReadResult
  broken : ReadResult

pub record Reader : Type 1 where
  pub State : Type 0
  -- what is still to be read
  pub remaining : State → Bytes
  pub next : State → ℕ → State × ReadResult
  pub next_read :
      (s : State) (n : ℕ) (bs : Bytes)
      → (next s n).1 ≡ read bs
      → remaining s ≡ bs ++ remaining (next s n).0
  pub next_fits : (s : State) (n : ℕ) (bs : Bytes) → (next s n).1 ≡ read bs → length bs ≤ n
  pub next_some : (s : State) (n : ℕ) (bs : Bytes) → (next s n).1 ≡ read bs → 0 < n → 0 < length bs
  pub next_end :
      (s : State) (n : ℕ) → (next s n).1 ≡ end → (remaining s ≡ []) × (remaining (next s n).0 ≡ [])

pub record Writer : Type 1 where
  pub State : Type 0
  pub content : State → Bytes
  -- `none` is a write that returned an error
  pub write : State → Bytes → Option State
  pub write_appends : (s t : State) (bs : Bytes) → write s bs ≡ some t → content t ≡ content s ++ bs

-- A file in memory.
unfoldable pub next_bytes : Bytes → ℕ → Bytes × ReadResult
next_bytes [] n = ([], end)
next_bytes (b ∷ bs) n = (drop n (b ∷ bs), read (take n (b ∷ bs)))

pub memory_read :
    (s : Bytes) (n : ℕ) (bs : Bytes) → (next_bytes s n).1 ≡ read bs → s ≡ bs ++ (next_bytes s n).0
unfolding next_bytes
memory_read [] n bs h = cc
memory_read (b ∷ s) n bs h = ground (arith, take-append-drop n (b ∷ s))

pub memory_fits : (s : Bytes) (n : ℕ) (bs : Bytes) → (next_bytes s n).1 ≡ read bs → length bs ≤ n
unfolding next_bytes
memory_fits [] n bs h = cc
memory_fits (b ∷ s) n bs h = ground (arith, length-take n (b ∷ s))

pub memory_some :
    (s : Bytes) (n : ℕ) (bs : Bytes) → (next_bytes s n).1 ≡ read bs → 0 < n → 0 < length bs
unfolding next_bytes
memory_some [] n bs h p = cc
memory_some (b ∷ s) n bs h p = ground (arith, length-take n (b ∷ s))

pub memory_end :
    (s : Bytes) (n : ℕ) → (next_bytes s n).1 ≡ end → (s ≡ []) × ((next_bytes s n).0 ≡ [])
unfolding next_bytes
memory_end [] n h = (refl, refl)
memory_end (b ∷ s) n h = cc

abbrev pub memory : Reader
memory = record {
  State = Bytes;
  remaining = λ s. s;
  next = next_bytes;
  next_read = memory_read;
  next_fits = memory_fits;
  next_some = memory_some;
  next_end = memory_end;
}

-- A disk with room for `room` bytes more.
abbrev pub Disk : Type 0
Disk = Bytes × ℕ

unfoldable pub disk_write : Disk → Bytes → Option Disk
disk_write (bs, room) more =
    if ltb room (length more) then none else some (bs ++ more, room - length more)

pub disk_appends : (s t : Disk) (bs : Bytes) → disk_write s bs ≡ some t → t.0 ≡ s.0 ++ bs
unfolding disk_write
disk_appends (s, room) (t, room') bs h = ground arith

abbrev pub disk : Writer
disk = record { State = Disk; content = λ s. s.0; write = disk_write; write_appends = disk_appends }

pub ReadResult-cases :
    (res : ReadResult) → ((bs : Bytes) × (res ≡ read bs)) ⊎ ((res ≡ end) ⊎ (res ≡ broken))
ReadResult-cases (read bs) = inl (bs, refl)
ReadResult-cases end = inr (inl refl)
ReadResult-cases broken = inr (inr refl)

-- A client of a reader that calls `Read` with room for `n` bytes until the end.
module _ (r : Reader) where
  open r use {State, remaining, next, next_read, next_some, next_end}

  abbrev drain_with : Option Bytes → ReadResult → Option Bytes
  drain_with rest (read bs) = Option.map (λ t. bs ++ t) rest
  drain_with rest end = some []
  drain_with rest broken = none

  unfoldable pub drain : ℕ → ℕ → State → Option Bytes
  drain zero n s = none
  drain (suc fuel) n s = let rest = drain fuel n (next s n).0 in drain_with rest (next s n).1

  -- While no call breaks, the client gets all that remains, once.
  pub drain-remaining :
      (Good : State → Type 0) (n : ℕ)
      → 0 < n
      → ((s : State) → Good s → Good (next s n).0 × ((next s n).1 ≢ broken))
      → (fuel : ℕ) (s : State) → Good s
      → length (remaining s) < fuel
      → drain fuel n s ≡ some (remaining s)
  unfolding drain
  drain-remaining Good n pos keep zero s g h = absurd (omega arith)
  drain-remaining Good n pos keep (suc fuel) s g h =
      let s' = (next s n).0 in
      elim (ReadResult-cases (next s n).1) [
        | inl (bs, e) ↦
            let ih = drain-remaining Good n pos keep fuel s' (keep s g).0 (
              omega (
                arith,
                ap length (next_read s n bs e),
                length-append bs (remaining s'),
                next_some s n bs e pos,
              )) in
            rw (e, drain_with, ih) (ap some (sym (next_read s n bs e)))
        | inr (inl e) ↦ rw (e, drain_with) (ap some (sym (next_end s n e).0))
        | inr (inr e) ↦ absurd ((keep s g).1 e)
      ]

pub memory_whole : (s : Bytes) (n : ℕ) → Unit {0} → Unit {0} × ((next_bytes s n).1 ≢ broken)
unfolding next_bytes
memory_whole [] n g = (tt, λ e. cc)
memory_whole (b ∷ s) n g = (tt, λ e. cc)
