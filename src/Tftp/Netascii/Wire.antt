-- ===== src/Tftp/Netascii/Wire.antt =====
-- What the encoder of internal/tftp/netascii.go puts on the wire, by an independent description:
-- host line endings are first brought to a lone line feed, then each byte is written out.
use go_fs.Base.{
  ℕ, ◌≡◌, refl, ap, ◌∙◌, Bool, true, false, ◌&&◌, [], ◌∷◌, ◌++◌, append-nil, append_assoc, arith,
  ◌==◌, if◌then◌else◌, drop,
}
use go_fs.Base.Text.{Bytes}
use go_fs.Tftp.Netascii.{
  cr, lf, nul, NetasciiReader, encode_byte, append_byte, encode, close_stream,
}

pub begins_lf : Bytes → Bool
begins_lf [] = false
begins_lf (b ∷ bs) = b == lf

-- CR LF becomes LF; all else stays.
unfoldable pub host_lines : Bytes → Bytes
unfolding begins_lf
host_lines [] = []
host_lines (b ∷ bs) = let rest = host_lines bs in if b == cr && begins_lf bs then rest else b ∷ rest

unfoldable pub expand : ℕ → Bytes
expand b = if b == cr then cr ∷ nul ∷ [] else if b == lf then cr ∷ lf ∷ [] else b ∷ []

unfoldable pub expand_all : Bytes → Bytes
unfolding expand
expand_all [] = []
expand_all (b ∷ bs) = expand b ++ expand_all bs

-- The netascii representation of a whole file.
unfoldable pub wire : Bytes → Bytes
unfolding host_lines expand_all
wire bs = expand_all (host_lines bs)

-- What the encoder still owes for `bs` when a carriage return is pending or not.
unfoldable pub owed : Bool → Bytes → Bytes
owed false bs = wire bs
owed true bs = if begins_lf bs then drop 1 (wire bs) else nul ∷ wire bs

encode_byte-owed :
    (pending : Bool) (b : ℕ) (bs : Bytes)
    → (encode_byte pending b).0 ++ owed (encode_byte pending b).1 bs ≡ owed pending (b ∷ bs)
unfolding encode_byte owed wire
encode_byte-owed true b [] = ground arith
encode_byte-owed true b (c ∷ bs) = ground arith
encode_byte-owed false b [] = ground arith
encode_byte-owed false b (c ∷ bs) = ground arith

-- Encoding `xs` leaves the rest of the stream to be written as if `xs ++ ys` stood in one chunk.
pub encode-owed :
    (xs : Bytes) (r : NetasciiReader) (ys : Bytes)
    → (encode r xs).out ++ owed (encode r xs).pending_cr ys ≡ r.out ++ owed r.pending_cr (xs ++ ys)
unfolding encode append_byte
encode-owed [] r ys = refl
encode-owed (x ∷ xs) r ys =
    encode-owed xs (append_byte r x) ys
    ∙ append_assoc r.out (encode_byte r.pending_cr x).0 _
    ∙ ap (λ t. r.out ++ t) (encode_byte-owed r.pending_cr x (xs ++ ys))

-- At the end of the stream everything owed is in `out`.
pub close_stream-owed : (r : NetasciiReader) → (close_stream r).out ≡ r.out ++ owed r.pending_cr []
unfolding close_stream owed wire
close_stream-owed r = ground (arith, append-nil r.out)
