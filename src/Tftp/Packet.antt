-- ===== src/Tftp/Packet.antt =====
-- internal/tftp/packet.go: the packets on the wire. A Go string that `latin1` decoded is a list of
-- code points below 256; a file name is the list of its bytes.
pub mod Layout
use go_fs.Base.{
  ℕ, zero, suc, ◌+◌, ◌-◌, ◌*◌, ◌/◌, ◌%◌, ◌^◌, ◌≤◌, ◌<◌, min, max, ◌≡◌, refl, sym, ap, ◌∙◌, subst,
  ◌≢◌, ◌↔◌, ◌⊎◌, inl, inr, Bool, true, false, not, ◌&&◌, ◌||◌, Option, none, some, List, [], ◌∷◌,
  ◌++◌, map, append-nil, append_assoc, arith, ltb, leb, ◌==◌, if◌then◌else◌, ltb→lt, lt→ltb, ==_iff,
  Bool-cases, Option-cases, length, get_elem?, take, drop, replicate, length-append,
  take-append-drop, length-take, length-drop, All, All-append,
}
use go_fs.Base.Text.{Bytes, codes, bytes_eq, bytes_eq_iff, bytes_eq_refl}

abbrev pub op_rrq : ℕ
op_rrq = 1

abbrev pub op_wrq : ℕ
op_wrq = 2

abbrev pub op_data : ℕ
op_data = 3

abbrev pub op_ack : ℕ
op_ack = 4

abbrev pub op_error : ℕ
op_error = 5

abbrev pub op_oack : ℕ
op_oack = 6

abbrev pub err_not_defined : ℕ
err_not_defined = 0

abbrev pub err_disk_full : ℕ
err_disk_full = 3

abbrev pub err_illegal_operation : ℕ
err_illegal_operation = 4

abbrev pub err_unknown_tid : ℕ
err_unknown_tid = 5

abbrev pub default_block_size : ℕ
default_block_size = 512

abbrev pub min_block_size : ℕ
min_block_size = 8

abbrev pub max_protocol_block_size : ℕ
max_protocol_block_size = 65464

-- `option` of the source.
pub record Setting : Type 0 where
  pub key : Bytes
  pub value : Bytes

pub record Request : Type 0 where
  pub filename : Bytes
  pub mode : Bytes
  pub options : List Setting

-- `req.option(key)`, on the options of a request.
unfoldable pub find_option : List Setting → Bytes → Option Bytes
find_option [] key = none
find_option (opt ∷ options) key =
    if bytes_eq opt.key key then some opt.value else find_option options key

-- -1 is `none`.
unfoldable pub index_zero : Bytes → Option ℕ
index_zero [] = none
index_zero (c ∷ b) =
    if c == 0 then some 0 else elim (index_zero b) [ none ↦ none | some i ↦ some (suc i) ]

-- `strings.ToLower` on one code point below 256.
unfoldable pub lower_rune : ℕ → ℕ
lower_rune c =
    if leb b'A' c && leb c b'Z'
    then c + 32
    else if leb 0xC0 c && leb c 0xDE && not (c == 0xD7)
    then c + 32
    else c

unfoldable pub to_lower : Bytes → Bytes
to_lower = map lower_rune

-- The bytes up to the next zero, and those behind it.
unfoldable pub cut_zero : Bytes → Option (Bytes × Bytes)
unfolding index_zero
cut_zero body = elim (index_zero body) [
  | none ↦ none
  | some i ↦ some (take i body, drop (suc i) body)
]

-- The loop of `parseRequest` over the options. It leaves off at the first pair that is cut short.
unfoldable pub parse_options : ℕ → Bytes → List Setting
parse_options zero body = []
parse_options (suc fuel) body = elim (cut_zero body) [
  | none ↦ []
  | some (key, body') ↦ elim (cut_zero body') [
    | none ↦ []
    | some (value, body'') ↦
        record { key = to_lower key; value = value } ∷ parse_options fuel body''
  ]
]

-- `parseRequest`; every pair of options takes two bytes at least.
unfoldable pub parse_request : Bytes → Option Request
parse_request msg = elim (cut_zero (drop 2 msg)) [
  | none ↦ none
  | some (filename, body) ↦ elim (cut_zero body) [
    | none ↦ none
    | some (mode, rest) ↦ some (record {
      filename = filename;
      mode = to_lower mode;
      options = parse_options (length rest) rest;
    })
  ]
]

-- `binary.BigEndian` on a `uint16`.
abbrev pub put_uint16 : ℕ → Bytes
put_uint16 v = (v / 256 % 256) ∷ (v % 256) ∷ []

abbrev pub uint16 : ℕ → ℕ → ℕ
uint16 hi lo = hi * 256 + lo

unfoldable pub encode_data : ℕ → Bytes → Bytes
encode_data block payload = put_uint16 op_data ++ (put_uint16 block ++ payload)

pub encode_ack : ℕ → Bytes
encode_ack block = put_uint16 op_ack ++ put_uint16 block

-- The UTF-8 form of a code point below 256.
unfoldable pub utf8 : ℕ → Bytes
utf8 c = if ltb c 0x80 then c ∷ [] else (0xC0 + c / 64) ∷ (0x80 + c % 64) ∷ []

unfoldable pub text_bytes : Bytes → Bytes
unfolding utf8
text_bytes [] = []
text_bytes (c ∷ s) = utf8 c ++ text_bytes s

unfoldable pub encode_options : List Setting → Bytes
encode_options [] = []
encode_options (opt ∷ options) =
    text_bytes opt.key ++ (0 ∷ (text_bytes opt.value ++ (0 ∷ encode_options options)))

pub encode_oack : List Setting → Bytes
encode_oack options = put_uint16 op_oack ++ encode_options options

pub encode_error : ℕ → Bytes → Bytes
encode_error code message =
    put_uint16 op_error ++ (put_uint16 code ++ (text_bytes message ++ (0 ∷ [])))
