-- ===== src/Nbd/Memory.antt =====
-- A disk in memory: an image for internal/nbd/transmission.go that never fails.
use go_fs.Base.{
  ℕ, zero, suc, ◌+◌, ◌≤◌, ◌≡◌, refl, sym, ap, ◌∙◌, subst, ◌⊎◌, inr, false, none, [], ◌∷◌, ◌++◌,
  append_assoc, arith, length, take, drop, replicate, length-append, length-take, length-drop,
  take-length-append, drop-length-append,
}
use go_fs.Base.Text.{Bytes}
use go_fs.Nbd.{Failure, Changes, range, Image}
use go_fs.Nbd.Replies.{cut}

unfoldable pub splice : Bytes → Bytes → ℕ → Bytes
splice d bs off = take off d ++ (bs ++ drop (off + length bs) d)

module _ (d bs : Bytes) (off : ℕ) (h : off + length bs ≤ length d) where
  start : length (take off d) ≡ off
  start = ground (arith, length-take off d)

  whole : off + length bs ≡ length (take off d ++ bs)
  whole = omega (arith, start, length-append (take off d) bs)

  pub splice-Changes : Changes off (length bs) d (splice d bs off)
  unfolding splice
  splice-Changes =
      let rest = drop (off + length bs) d in
      (
        length-append (take off d) (bs ++ rest)
            ∙ omega (arith, start, h, length-append bs rest, length-drop (off + length bs) d),
        ap (λ n. take n (take off d ++ (bs ++ rest))) (sym start)
            ∙ take-length-append (take off d) (bs ++ rest),
        (λ i. drop (whole i) (sym (append_assoc (take off d) bs rest) i))
            ∙ drop-length-append (take off d ++ bs) rest,
      )

  pub splice-range : range off (length bs) (splice d bs off) ≡ bs
  unfolding splice
  splice-range =
      cut (take off d) bs (drop (off + length bs) d) (splice d bs off) off (length bs) refl start
        refl

abbrev pub zeros : ℕ → Bytes
zeros n = replicate n 0

length-zeros : (n : ℕ) → length (zeros n) ≡ n
length-zeros zero = refl
length-zeros (suc n) = omega (arith, length-zeros n)

pub zeros-Changes :
    (d : Bytes) (off n : ℕ) → off + n ≤ length d → Changes off n d (splice d (zeros n) off)
zeros-Changes d off n h =
    subst (λ k. Changes off k d (splice d (zeros n) off)) (length-zeros n)
      (splice-Changes d (zeros n) off (omega (arith, length-zeros n, h)))

pub zeros-range :
    (d : Bytes) (off n : ℕ) → off + n ≤ length d → range off n (splice d (zeros n) off) ≡ zeros n
zeros-range d off n h =
    ap (λ k. range off k (splice d (zeros n) off)) (sym (length-zeros n))
    ∙ splice-range d (zeros n) off (omega (arith, length-zeros n, h))

abbrev pub memory_read : Bytes → ℕ → ℕ → Failure ⊎ Bytes
memory_read d n off = inr (range off n d)

pub memory_reads :
    (d : Bytes) (n off : ℕ) (bs : Bytes) → memory_read d n off ≡ inr bs → bs ≡ range off n d
memory_reads d n off bs e = cc

abbrev pub memory : Image
memory = record {
  State = Bytes;
  content = λ d. d;
  read_at = memory_read;
  write_at = λ d bs off. (splice d bs off, none);
  sync = λ d. (d, none);
  punch_hole = λ d off n. (splice d (zeros n) off, none);
  zero_range = λ d off n. (splice d (zeros n) off, none);
  extents = λ d off n. inr (record { offset = off; len = n; hole = false } ∷ []);
  reads = memory_reads;
  write_within = λ d bs off h. splice-Changes d bs off h;
  writes = λ d bs off h q. splice-range d bs off h;
  sync_keeps = λ d. refl;
  punch_within = zeros-Changes;
  punches = λ d off n h q. zeros-range d off n h;
  zero_within = zeros-Changes;
  zeroes = λ d off n h q. zeros-range d off n h;
}
