-- ===== src/Bridge/Writer.antt =====
-- The writer task of `connect_io`, crates/ssh-proxy/src/bridge.rs: batches until the channel is empty
-- or a batch fails. The channel is what the handles have queued.
pub mod Drained
use ssh_proxy.Base.{ℕ, zero, suc, Result, List, [], ◌∷◌, err, ok}
use ssh_proxy.Wire.Frame.{Frame}
use ssh_proxy.Wire.Sink.{Peer, Sink}
use ssh_proxy.Wire.Batch.{FrameWriteBatchStats, write_frame_batch}
use ssh_proxy.Wire.Cursor.{FrameError}
use ssh_proxy.Bridge.State.{BridgeMetrics, record_write_batch, record_write_failure}

pub record WriterTask : Type 0 where
  pub channel : List Frame
  pub metrics : BridgeMetrics
  pub sink : Sink

-- The `match` on a batch; at its `break` the receiver is dropped, with what was queued.
abbrev pub settle :
    BridgeMetrics → Sink × Result FrameError (FrameWriteBatchStats × List Frame) → WriterTask
settle m (s, ok (stats, rest)) = record {
  channel = rest;
  metrics = record_write_batch stats m;
  sink = s;
}
settle m (s, err e) = record { channel = []; metrics = record_write_failure m; sink = s }

-- Each round takes a frame at least: as many rounds as there are frames are enough.
unfoldable pub writer_task : Peer → ℕ → WriterTask → WriterTask
writer_task peer zero w = w
writer_task peer (suc n) w = elim w.channel [
  | [] ↦ w
  | frame ∷ rx ↦ writer_task peer n (settle w.metrics (write_frame_batch peer frame rx w.sink))
]
