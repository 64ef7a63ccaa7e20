-- ===== src/Quic/Pool.antt =====
-- The load of a QUIC connection and what holds a route back: crates/ssh-proxy/src/quic_native/pool.rs.
use ssh_proxy.Base.{ℕ, ◌+◌, ◌*◌, ◌-◌, Bool, ◌||◌, ltb, if◌then◌else◌, min}
use ssh_proxy.Wire.Bytes.{Bytes, ascii, u64_mod}

-- `saturating_add` and `saturating_mul` on 64 bits.
abbrev pub saturating_add : ℕ → ℕ → ℕ
saturating_add a b = min (a + b) (u64_mod - 1)

abbrev pub saturating_mul : ℕ → ℕ → ℕ
saturating_mul a b = min (a * b) (u64_mod - 1)

unfoldable pub quic_worker_score : ℕ → ℕ → ℕ → ℕ → ℕ → Bool → ℕ
quic_worker_score active_flows stream_open_failures last_open_latency_ms backpressure_timeouts
      resets control_degraded =
    saturating_add
      (saturating_add
        (saturating_add
          (saturating_add
            (saturating_add (saturating_mul active_flows 10000)
              (saturating_mul stream_open_failures 1000))
            (saturating_mul backpressure_timeouts 2000))
          (saturating_mul resets 1500))
        (min last_open_latency_ms 5000))
      (if control_degraded then 1000000 else 0)

abbrev pub quic_profile_next_bottleneck : Bool → ℕ → ℕ → ℕ → ℕ → ℕ → Bytes
quic_profile_next_bottleneck control_degraded quic_backpressure_timeouts quic_copy_failures
      quic_copy_duration_samples quic_stream_open_failures quic_header_write_failures =
    if control_degraded
    then ascii "control_stream"
    else if ltb 0 quic_backpressure_timeouts
    then ascii "slow_consumers"
    else if ltb 0 quic_copy_failures || ltb 0 quic_copy_duration_samples
    then ascii "application_copy"
    else if ltb 0 quic_stream_open_failures || ltb 0 quic_header_write_failures
    then ascii "window_sizing"
    else ascii "udp_path_or_congestion"

abbrev pub quic_connection_pool_mode : ℕ → Bytes
quic_connection_pool_mode pool_size =
    if ltb 1 pool_size then ascii "workload-aware-pool" else ascii "single-connection"
