-- ===== src/Bridge/Connection.antt =====
-- A whole connection: a writer task at one end, the reader loop of a bridge at the other
-- (crates/ssh-proxy/src/bridge.rs over crates/ssh-proxy-protocol/src/protocol.rs).
use ssh_proxy.Base.{
  ℕ, suc, ◌≡◌, Bool, true, false, List, [], ◌++◌, map, some, ok, All, length, arith,
}
use ssh_proxy.Base.Table.{lookup}
use ssh_proxy.Wire.Frame.{Frame, IsTyped}
use ssh_proxy.Wire.Reader.{read_frames}
use ssh_proxy.Wire.RoundTrip.{read_frames-EncodesAll}
use ssh_proxy.Wire.Sink.{Peer}
use ssh_proxy.Wire.Sink.Sends.{IsUnwilling}
use ssh_proxy.Wire.Batch.Total.{Fits}
use ssh_proxy.Bridge.State.{BridgeInner, BridgeMetrics}
use ssh_proxy.Bridge.Reader.{Delivery, taken, reader_loop}
use ssh_proxy.Bridge.Writer.{WriterTask, writer_task}
use ssh_proxy.Bridge.Writer.Drained.{writer_task-IsDrained}
use ssh_proxy.Bridge.Runs.{Reaches}
use ssh_proxy.Bridge.Streams.{received, incoming}
use ssh_proxy.Bridge.Streams.Order.{reader_loop-received}

-- Rounds in which every receiver takes what it is given.
abbrev pub prompt : List Frame → List (Delivery × Bool × Frame)
prompt fs = map (λ f. (taken, true, f)) fs

-- The task at the start of a connection.
abbrev pub queued : List Frame → BridgeMetrics → ℕ → WriterTask
queued fs metrics calls = record {
  channel = fs;
  metrics = metrics;
  sink = record { out = []; calls = calls };
}

-- Frames that are queued at one end of a new connection reach a bridge at the other end, if they
-- have numbers in range, texts in UTF-8 and encodings within the limit, and if no write is
-- refused or takes nothing and the flushes succeed: they are read back in order and unchanged,
-- however the octets are taken and arrive, and the receiver of an open stream, if all receivers
-- take what they are given, gets the payloads of this stream in their order, up to the frame that
-- closes it.
pub writer_task-reader_loop :
    (peer : Peer) (sizes : ℕ → ℕ → ℕ) (fs : List Frame) (metrics : BridgeMetrics) (calls : ℕ)
    (id ch : ℕ) (s : BridgeInner)
    → ¬ IsUnwilling peer
    → peer.flushes ≡ true
    → All IsTyped fs
    → All Fits fs
    → Reaches s
    → lookup id s.tcp_streams ≡ some ch
    → let wire = (writer_task peer (length fs) (queued fs metrics calls)).sink.out in
      (read_frames (suc (length fs)) sizes (record { ahead = wire; broken = false }) ≡ ok fs)
      × (received ch (reader_loop (prompt fs) s).tcp_queue
          ≡ received ch s.tcp_queue ++ incoming id (prompt fs))
writer_task-reader_loop peer sizes fs metrics calls id ch s willing flushes typed fits r e =
    let d =
      writer_task-IsDrained peer willing flushes (length fs) (queued fs metrics calls) (omega arith)
        fits in
    (
      rw d.sent
          (read_frames-EncodesAll (suc (length fs)) sizes fs d.wire typed d.encodes (omega arith)),
      reader_loop-received id ch (prompt fs) s r e,
    )
