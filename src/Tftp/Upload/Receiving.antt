-- ===== src/Tftp/Upload/Receiving.antt =====
-- What one packet of the client does to an upload of internal/tftp/write.go.
use go_fs.Base.{
  ℕ, ◌/◌, ◌%◌, ◌^◌, ◌≡◌, refl, Bool, true, not, ◌&&◌, List, [], ◌∷◌, ◌++◌, append-nil, arith, ◌==◌,
}
use go_fs.Base.Text.{Bytes}
use go_fs.Tftp.Sinks.{Sink}
use go_fs.Tftp.Packet.{encode_data, op_data, uint16}
use go_fs.Tftp.Await.{Sent, to_peer}
use go_fs.Tftp.Upload.{Closing, go_on, Upload, last_ack, accept, receive}

pub uint16_wrap : (v : ℕ) → uint16 (v % 2 ^ 16 / 256 % 256) (v % 2 ^ 16 % 256) ≡ v % 2 ^ 16
uint16_wrap v = ground arith

-- A packet that moves nothing on: too short for a header, or a block that is not the next one.
unfoldable pub is_useless : ℕ → Bytes → Bool
is_useless expected (a ∷ b ∷ c ∷ d ∷ bs) =
    uint16 a b == op_data && not (uint16 c d == expected % 2 ^ 16)
is_useless expected _ = true

module _ (k : Sink) where
  open k use {State, put, finished, stored}

  -- It is met with the acknowledgement of the last block, or with nothing.
  unfoldable pub useless_reply : Bytes → Upload k → List Sent
  useless_reply (a ∷ b ∷ c ∷ d ∷ bs) t = to_peer (last_ack k t) ∷ []
  useless_reply _ t = []

  pub receive-useless :
      (fs : Closing) (msg : Bytes) (t : Upload k)
      → is_useless t.expected_block msg ≡ true
      → receive k fs msg t ≡ (record t { wire = t.wire ++ useless_reply msg t }, go_on)
  unfolding is_useless receive useless_reply
  receive-useless fs [] t h = rw (append-nil t.wire) refl
  receive-useless fs (a ∷ []) t h = rw (append-nil t.wire) refl
  receive-useless fs (a ∷ b ∷ []) t h = rw (append-nil t.wire) refl
  receive-useless fs (a ∷ b ∷ c ∷ []) t h = rw (append-nil t.wire) refl
  receive-useless fs (a ∷ b ∷ c ∷ d ∷ bs) t h = ground arith

  -- The block of this number with the data.
  pub receive-data :
      (fs : Closing) (bs : Bytes) (t : Upload k)
      → receive k fs (encode_data (t.expected_block % 2 ^ 16) bs) t
        ≡ accept k fs (t.expected_block % 2 ^ 16) bs t
  unfolding receive encode_data
  receive-data fs bs t = rw (uint16_wrap t.expected_block) (ground arith)
