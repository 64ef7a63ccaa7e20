-- ===== src/Bridge/State.antt =====
-- `BridgeInner` of crates/ssh-proxy/src/bridge.rs. A channel stands for its sender: each new channel
-- takes the next handle, and what was sent into one is kept in the state.
use ssh_proxy.Base.{ℕ, ◌+◌, ◌%◌, ◌++◌, Bool, List, [], ◌∷◌, if◌then◌else◌, length}
use ssh_proxy.Base.Table.{Table, remove}
use ssh_proxy.Wire.Bytes.{Bytes, u32_mod, usize_mod}
use ssh_proxy.Wire.Frame.{Frame, chunk}
use ssh_proxy.Wire.Batch.{FrameWriteBatchStats}

pub record UdpDatagram : Type 0 where
  pub host : Bytes
  pub port : ℕ
  pub payload : Bytes

-- What goes through a oneshot of `pending_tcp`: `Ok(())` or `Err(message)`.
pub data Reply : Type 0 where
  opened : Reply
  refused : Bytes → Reply

pub record BridgeMetrics : Type 0 where
  pub frame_write_batches : ℕ
  pub frame_write_flushes : ℕ
  pub frame_write_frames : ℕ
  pub frame_write_data_frames : ℕ
  pub frame_write_data_bytes : ℕ
  pub frame_write_vectored_writes : ℕ
  pub frame_write_failures : ℕ
  pub frame_read_frames : ℕ
  pub frame_read_data_frames : ℕ
  pub frame_read_data_bytes : ℕ
  pub tcp_stream_backpressure_timeouts : ℕ
  pub udp_assoc_backpressure_timeouts : ℕ

pub record BridgeInner : Type 0 where
  pub next_id : ℕ
  pub pending_tcp : Table ℕ
  pub tcp_streams : Table ℕ
  pub udp_streams : Table ℕ
  pub metrics : BridgeMetrics
  -- The next handle of a channel.
  pub channels : ℕ
  -- What the writer task was given.
  pub sent : List Frame
  -- What the oneshots were given, newest first.
  pub replies : List (ℕ × Reply)
  -- What the stream channels were given, oldest first.
  pub tcp_queue : List (ℕ × Bytes)
  pub udp_queue : List (ℕ × UdpDatagram)

abbrev pub default_metrics : BridgeMetrics
default_metrics = record {
  frame_write_batches = 0;
  frame_write_flushes = 0;
  frame_write_frames = 0;
  frame_write_data_frames = 0;
  frame_write_data_bytes = 0;
  frame_write_vectored_writes = 0;
  frame_write_failures = 0;
  frame_read_frames = 0;
  frame_read_data_frames = 0;
  frame_read_data_bytes = 0;
  tcp_stream_backpressure_timeouts = 0;
  udp_assoc_backpressure_timeouts = 0;
}

-- The tables that `connect_io` starts with.
unfoldable pub connect_io : BridgeInner
connect_io = record {
  next_id = 1;
  pending_tcp = [];
  tcp_streams = [];
  udp_streams = [];
  metrics = default_metrics;
  channels = 0;
  sent = [];
  replies = [];
  tcp_queue = [];
  udp_queue = [];
}

-- `fetch_add` on an `AtomicU64`: it wraps.
abbrev pub fetch_add : ℕ → ℕ → ℕ
fetch_add counter n = (counter + n) % usize_mod

unfoldable pub record_write_batch : FrameWriteBatchStats → BridgeMetrics → BridgeMetrics
record_write_batch t m = record m {
  frame_write_batches = fetch_add m.frame_write_batches 1;
  frame_write_flushes = fetch_add m.frame_write_flushes t.flushes;
  frame_write_frames = fetch_add m.frame_write_frames t.frames_written;
  frame_write_data_frames = fetch_add m.frame_write_data_frames t.data_frames_written;
  frame_write_data_bytes = fetch_add m.frame_write_data_bytes t.data_bytes_written;
  frame_write_vectored_writes = fetch_add m.frame_write_vectored_writes t.vectored_writes;
}

unfoldable pub record_write_failure : BridgeMetrics → BridgeMetrics
record_write_failure m = record m { frame_write_failures = fetch_add m.frame_write_failures 1 }

unfoldable pub record_read_frame : Frame → BridgeMetrics → BridgeMetrics
record_read_frame (chunk id payload) m = record m {
  frame_read_frames = fetch_add m.frame_read_frames 1;
  frame_read_data_frames = fetch_add m.frame_read_data_frames 1;
  frame_read_data_bytes = fetch_add m.frame_read_data_bytes (length payload);
}
record_read_frame _ m = record m { frame_read_frames = fetch_add m.frame_read_frames 1 }

abbrev pub record_tcp_backpressure_timeout : BridgeMetrics → BridgeMetrics
record_tcp_backpressure_timeout m = record m {
  tcp_stream_backpressure_timeouts = fetch_add m.tcp_stream_backpressure_timeouts 1;
}

abbrev pub record_udp_backpressure_timeout : BridgeMetrics → BridgeMetrics
record_udp_backpressure_timeout m = record m {
  udp_assoc_backpressure_timeouts = fetch_add m.udp_assoc_backpressure_timeouts 1;
}

-- `writer.send(frame)` with its result dropped; `up` says whether the writer task still runs.
unfoldable pub send : Bool → Frame → BridgeInner → BridgeInner
send up f s = if up then record s { sent = s.sent ++ f ∷ [] } else s

-- `next_id.fetch_add(1)` on an `AtomicU32`.
abbrev pub next : ℕ → ℕ
next id = (id + 1) % u32_mod

abbrev pub drop_tcp : ℕ → BridgeInner → BridgeInner
drop_tcp id s = record s { tcp_streams = remove id s.tcp_streams }

abbrev pub drop_udp : ℕ → BridgeInner → BridgeInner
drop_udp id s = record s { udp_streams = remove id s.udp_streams }

abbrev pub drop_open : ℕ → BridgeInner → BridgeInner
drop_open id s = record s {
  pending_tcp = remove id s.pending_tcp;
  tcp_streams = remove id s.tcp_streams;
}
