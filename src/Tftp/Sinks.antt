-- ===== src/Tftp/Sinks.antt =====
-- What a write transfer of internal/tftp/write.go writes into: the temporary file, or the netascii
-- conversion in front of it.
use go_fs.Base.{Option, none, some, List, [], ◌∷◌, if◌then◌else◌}
use go_fs.Base.Text.{Bytes}
use go_fs.Tftp.Streams.{Writer}
use go_fs.Tftp.Netascii.{NetasciiWriter, netascii_write, flush}

pub record Sink : Type 1 where
  pub State : Type 0
  -- `none` is a write that returned an error
  pub put : State → Bytes → Option State
  -- the flush in front of `file.Close`, whose error is only logged
  pub finished : State → State
  -- the bytes of the temporary file
  pub stored : State → Bytes

-- One `Write` for each block.
module _ (k : Sink) where
  open k use {State, put}

  unfoldable pub put_all : State → List Bytes → Option State
  put_all s [] = some s
  put_all s (c ∷ cs) = elim (put s c) [ none ↦ none | some s' ↦ put_all s' cs ]

abbrev pub octet_sink : Writer → Sink
octet_sink w = record { State = w.State; put = w.write; finished = λ s. s; stored = w.content }

unfoldable pub netascii_put : (w : Writer) → NetasciiWriter w → Bytes → Option (NetasciiWriter w)
netascii_put w t p = let (t', done) = netascii_write w t p in if done then some t' else none

abbrev pub netascii_sink : Writer → Sink
netascii_sink w = record {
  State = NetasciiWriter w;
  put = netascii_put w;
  finished = λ t. (flush w t).0;
  stored = λ t. w.content t.dst;
}
