-- ===== src/Bridge/Metrics.antt =====
-- The metrics of a bridge for the status, and those of several bridges together:
-- crates/ssh-proxy/src/bridge.rs. A sum wraps around as `u64` does.
use ssh_proxy.Base.{ℕ, ◌+◌, ◌%◌}
use ssh_proxy.Wire.Bytes.{u64_mod}
use ssh_proxy.Bridge.State.{BridgeMetrics}

pub record BridgeMetricsSnapshot : Type 0 where
  pub frame_write_batches : ℕ
  pub frame_write_flushes : ℕ
  pub frame_write_frames : ℕ
  pub frame_write_data_frames : ℕ
  pub frame_write_data_bytes : ℕ
  pub frame_write_vectored_writes : ℕ
  pub frame_write_failures : ℕ
  pub frame_read_frames : ℕ
  pub frame_read_data_frames : ℕ
  pub frame_read_data_bytes : ℕ
  pub tcp_stream_backpressure_timeouts : ℕ
  pub udp_assoc_backpressure_timeouts : ℕ

abbrev pub snapshot : BridgeMetrics → BridgeMetricsSnapshot
snapshot m = record {
  frame_write_batches = m.frame_write_batches;
  frame_write_flushes = m.frame_write_flushes;
  frame_write_frames = m.frame_write_frames;
  frame_write_data_frames = m.frame_write_data_frames;
  frame_write_data_bytes = m.frame_write_data_bytes;
  frame_write_vectored_writes = m.frame_write_vectored_writes;
  frame_write_failures = m.frame_write_failures;
  frame_read_frames = m.frame_read_frames;
  frame_read_data_frames = m.frame_read_data_frames;
  frame_read_data_bytes = m.frame_read_data_bytes;
  tcp_stream_backpressure_timeouts = m.tcp_stream_backpressure_timeouts;
  udp_assoc_backpressure_timeouts = m.udp_assoc_backpressure_timeouts;
}

abbrev sum : ℕ → ℕ → ℕ
sum a b = (a + b) % u64_mod

unfoldable pub merge : BridgeMetricsSnapshot → BridgeMetricsSnapshot → BridgeMetricsSnapshot
merge m n = record {
  frame_write_batches = sum m.frame_write_batches n.frame_write_batches;
  frame_write_flushes = sum m.frame_write_flushes n.frame_write_flushes;
  frame_write_frames = sum m.frame_write_frames n.frame_write_frames;
  frame_write_data_frames = sum m.frame_write_data_frames n.frame_write_data_frames;
  frame_write_data_bytes = sum m.frame_write_data_bytes n.frame_write_data_bytes;
  frame_write_vectored_writes = sum m.frame_write_vectored_writes n.frame_write_vectored_writes;
  frame_write_failures = sum m.frame_write_failures n.frame_write_failures;
  frame_read_frames = sum m.frame_read_frames n.frame_read_frames;
  frame_read_data_frames = sum m.frame_read_data_frames n.frame_read_data_frames;
  frame_read_data_bytes = sum m.frame_read_data_bytes n.frame_read_data_bytes;
  tcp_stream_backpressure_timeouts =
      sum m.tcp_stream_backpressure_timeouts n.tcp_stream_backpressure_timeouts;
  udp_assoc_backpressure_timeouts =
      sum m.udp_assoc_backpressure_timeouts n.udp_assoc_backpressure_timeouts;
}
