-- ===== src/Tftp/Packet/Layout.antt =====
-- Requests and option acknowledgements of internal/tftp/packet.go read back.
use mathlib.Core.Path.{ap₂}
use go_fs.Base.{
  ℕ, zero, suc, ◌+◌, ◌*◌, ◌≤◌, ◌<◌, ◌≡◌, refl, ap, ◌∙◌, ◌↔◌, ◌⊎◌, inl, inr, none, some, List, [],
  ◌∷◌, ◌++◌, arith, ◌==◌, if◌then◌else◌, Bool-cases, length, take, drop, length-append,
  take-length-append, All,
}
use go_fs.Base.Text.{Bytes}
use go_fs.Tftp.Packet.{
  Setting, index_zero, lower_rune, to_lower, cut_zero, parse_options, parse_request, text_bytes,
  encode_options,
}

-- A text with no zero byte, ASCII only.
abbrev pub IsPlain : Bytes → Type 0
IsPlain = All (λ c. (0 < c) × (c < 128))

-- A byte string with no zero byte.
abbrev pub IsZeroFree : Bytes → Type 0
IsZeroFree = All (λ c. 0 < c)

-- A text that `ToLower` keeps.
abbrev pub IsLower : Bytes → Type 0
IsLower = All (λ c. (0 < c) × (c < 128) × (lower_rune c ≡ c))

index_zero-append : (s rest : Bytes) → IsZeroFree s → index_zero (s ++ 0 ∷ rest) ≡ some (length s)
unfolding index_zero
index_zero-append [] rest h = refl
index_zero-append (c ∷ s) rest h = ground (arith, index_zero-append s rest h.1)

drop_behind : (s : Bytes) (c : ℕ) (t : Bytes) → drop (suc (length s)) (s ++ c ∷ t) ≡ t
drop_behind [] c t = refl
drop_behind (x ∷ s) c t = drop_behind s c t

pub cut_zero-append : (s rest : Bytes) → IsZeroFree s → cut_zero (s ++ 0 ∷ rest) ≡ some (s, rest)
unfolding cut_zero
cut_zero-append s rest h =
    rw (index_zero-append s rest h, cut_zero)
      (ap some (λ i. (take-length-append s (0 ∷ rest) i, drop_behind s 0 rest i)))

text_bytes-ascii : (s : Bytes) → IsPlain s → text_bytes s ≡ s
unfolding text_bytes
text_bytes-ascii [] h = refl
text_bytes-ascii (c ∷ s) h = ground (arith, text_bytes-ascii s h.1)

IsPlain-IsZeroFree : (s : Bytes) → IsPlain s → IsZeroFree s
IsPlain-IsZeroFree [] h = tt
IsPlain-IsZeroFree (c ∷ s) h = (h.0.0, IsPlain-IsZeroFree s h.1)

IsLower-IsPlain : (s : Bytes) → IsLower s → IsPlain s
IsLower-IsPlain [] h = tt
IsLower-IsPlain (c ∷ s) h = ((h.0.0, h.0.1), IsLower-IsPlain s h.1)

to_lower-IsLower : (s : Bytes) → IsLower s → to_lower s ≡ s
unfolding to_lower
to_lower-IsLower [] h = refl
to_lower-IsLower (c ∷ s) h = ground (arith, to_lower-IsLower s h.1)

-- An option as a server or a client writes it.
abbrev pub IsCanonical : Setting → Type 0
IsCanonical opt = IsLower opt.key × IsPlain opt.value

parse_options_step :
    (fuel : ℕ) (body key body' value body'' : Bytes)
    → cut_zero body ≡ some (key, body')
    → cut_zero body' ≡ some (value, body'')
    → parse_options (suc fuel) body
      ≡ record { key = to_lower key; value = value } ∷ parse_options fuel body''
unfolding parse_options
parse_options_step fuel body key body' value body'' p q = rw (p, parse_options) (rw (q))

parse_options-nil : (fuel : ℕ) → parse_options fuel [] ≡ []
unfolding parse_options cut_zero
parse_options-nil zero = refl
parse_options-nil (suc fuel) = refl

parse_options-encode :
    (options : List Setting) (fuel : ℕ)
    → All IsCanonical options
    → length options ≤ fuel
    → parse_options fuel (encode_options options) ≡ options
unfolding encode_options
parse_options-encode [] fuel h l = parse_options-nil fuel
parse_options-encode (opt ∷ options) zero h l = absurd (omega arith)
parse_options-encode (opt ∷ options) (suc fuel) h l =
    let key = IsLower-IsPlain opt.key h.0.0 in
    let behind = opt.value ++ (0 ∷ encode_options options) in
    rw (text_bytes-ascii opt.key key, text_bytes-ascii opt.value h.0.1)
      (parse_options_step fuel _ _ _ _ _
          (cut_zero-append opt.key behind (IsPlain-IsZeroFree opt.key key))
          (cut_zero-append opt.value (encode_options options) (IsPlain-IsZeroFree opt.value h.0.1))
        ∙ ap₂ (λ k os. record { key = k; value = opt.value } ∷ os) (to_lower-IsLower opt.key h.0.0)
            (parse_options-encode options fuel h.1 (omega arith)))

length-encode_options :
    (options : List Setting) → 2 * length options ≤ length (encode_options options)
unfolding encode_options
length-encode_options [] = omega arith
length-encode_options (opt ∷ options) = omega (
  arith,
  length-encode_options options,
  length-append (text_bytes opt.key) (0 ∷ (text_bytes opt.value ++ (0 ∷ encode_options options))),
  length-append (text_bytes opt.value) (0 ∷ encode_options options),
)

-- A request in the layout of RFC 1350 and RFC 2347: whatever the opcode, the file name comes back
-- byte for byte, the mode in lower case, and the options in order, the one written out by
-- `encodeOACK`.
pub parse_request-layout :
    (hi lo : ℕ) (filename mode : Bytes) (options : List Setting)
    → IsZeroFree filename
    → IsZeroFree mode
    → All IsCanonical options
    → parse_request (hi ∷ lo ∷ (filename ++ (0 ∷ (mode ++ (0 ∷ encode_options options)))))
      ≡ some (record { filename = filename; mode = to_lower mode; options = options })
unfolding parse_request
parse_request-layout hi lo filename mode options f m h =
    rw (cut_zero-append filename _ f, parse_request)
      (rw (cut_zero-append mode (encode_options options) m) (
        ap (λ os. some (record { filename = filename; mode = to_lower mode; options = os }))
          (parse_options-encode options _ h (omega (arith, length-encode_options options)))))

abbrev pub zeros : Bytes → ℕ
zeros [] = 0
zeros (c ∷ b) = (if c == 0 then 1 else 0) + zeros b

index_zero-cases :
    (b : Bytes)
    → ((index_zero b ≡ none) × (zeros b ≡ 0))
      ⊎ ((i : ℕ) × (index_zero b ≡ some i) × (zeros b ≡ 1 + zeros (drop (suc i) b)))
unfolding index_zero
index_zero-cases [] = inl (refl, refl)
index_zero-cases (c ∷ b) = elim (Bool-cases (c == 0)) [
  | inl e ↦ inr (0, ground arith, ground arith)
  | inr e ↦ elim (index_zero-cases b) [
    | inl (n, z) ↦ inl (ground arith, ground arith)
    | inr (i, n, z) ↦ inr (suc i, ground arith, ground arith)
  ]
]

cut_zero-cases :
    (body : Bytes)
    → ((cut_zero body ≡ none) × (zeros body ≡ 0))
      ⊎ ((s : Bytes) × (rest : Bytes) × (cut_zero body ≡ some (s, rest))
          × (zeros body ≡ 1 + zeros rest))
unfolding cut_zero
cut_zero-cases body = elim (index_zero-cases body) [
  | inl (n, z) ↦ inl (rw (n, cut_zero) refl, z)
  | inr (i, n, z) ↦ inr (take i body, drop (suc i) body, rw (n, cut_zero) refl, z)
]

-- A packet is refused exactly when fewer than two zero bytes follow the opcode.
pub parse_request-refused : (msg : Bytes) → (parse_request msg ≡ none) ↔ (zeros (drop 2 msg) < 2)
unfolding parse_request
parse_request-refused msg = elim (cut_zero-cases (drop 2 msg)) [
  | inl (e, z) ↦ rw (e, parse_request) (λ _. omega arith, λ _. refl)
  | inr (s, rest, e, z) ↦ elim (cut_zero-cases rest) [
    | inl (e', z') ↦ rw (e, parse_request) (rw e' (λ _. omega arith, λ _. refl))
    | inr (s', rest', e', z') ↦ rw (e, parse_request) (rw e' (λ h. cc, λ h. absurd (omega arith)))
  ]
]
