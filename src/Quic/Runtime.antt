-- ===== src/Quic/Runtime.antt =====
-- The pool of QUIC connections of a route and the counters of its streams:
-- crates/ssh-proxy/src/quic_native/runtime.rs, with runtime/stream.rs and runtime/worker_metrics.rs. The
-- counters are atomics of 64 bits that wrap around; latencies are given in
-- milliseconds, and the samples of latencies that only the status shows are left out.
pub mod Flows
pub mod Counts
pub mod Balance
pub mod Selection
use ssh_proxy.Base.{
  ℕ, zero, suc, ◌+◌, ◌-◌, ◌%◌, Bool, true, false, List, [], ◌∷◌, Option, none, some, leb, length,
  get_elem?, if◌then◌else◌,
}
use ssh_proxy.Wire.Bytes.{Bytes, ascii, u64_mod}
use ssh_proxy.Quic.Pool.{quic_worker_score}

pub record ConnectionWorker : Type 0 where
  pub active_quic_flows : ℕ
  pub opened_quic_flows : ℕ
  pub stream_open_failures : ℕ
  pub last_stream_open_latency_ms : ℕ
  pub quic_flow_graceful_closes : ℕ
  pub quic_flow_resets : ℕ
  pub quic_backpressure_timeouts : ℕ
  pub control_degraded : Bool

abbrev pub new_worker : ConnectionWorker
new_worker = record {
  active_quic_flows = 0;
  opened_quic_flows = 0;
  stream_open_failures = 0;
  last_stream_open_latency_ms = 0;
  quic_flow_graceful_closes = 0;
  quic_flow_resets = 0;
  quic_backpressure_timeouts = 0;
  control_degraded = false;
}

-- `fetch_add(1)`, and `fetch_update` with `checked_sub(1)`.
abbrev pub fetch_inc : ℕ → ℕ
fetch_inc n = (n + 1) % u64_mod

abbrev pub checked_dec : ℕ → ℕ
checked_dec n = n - 1

abbrev pub score : ConnectionWorker → ℕ
score w =
    quic_worker_score w.active_quic_flows w.stream_open_failures w.last_stream_open_latency_ms
      w.quic_backpressure_timeouts w.quic_flow_resets w.control_degraded

abbrev pub record_open_success : ℕ → ConnectionWorker → ConnectionWorker
record_open_success latency w = record w {
  opened_quic_flows = fetch_inc w.opened_quic_flows;
  last_stream_open_latency_ms = latency;
}

abbrev pub record_open_failure : ConnectionWorker → ConnectionWorker
record_open_failure w = record w { stream_open_failures = fetch_inc w.stream_open_failures }

abbrev pub record_flow_opened : ConnectionWorker → ConnectionWorker
record_flow_opened w = record w { active_quic_flows = fetch_inc w.active_quic_flows }

abbrev pub record_flow_closed : Bool → ConnectionWorker → ConnectionWorker
record_flow_closed true w = record w {
  active_quic_flows = checked_dec w.active_quic_flows;
  quic_flow_resets = fetch_inc w.quic_flow_resets;
}
record_flow_closed false w = record w {
  active_quic_flows = checked_dec w.active_quic_flows;
  quic_flow_graceful_closes = fetch_inc w.quic_flow_graceful_closes;
}

abbrev pub record_backpressure_timeout : ConnectionWorker → ConnectionWorker
record_backpressure_timeout w = record w {
  quic_backpressure_timeouts = fetch_inc w.quic_backpressure_timeouts;
}

abbrev pub mark_control_degraded : ConnectionWorker → ConnectionWorker
mark_control_degraded w = record w { control_degraded = true }

pub record State : Type 0 where
  pub workers : List ConnectionWorker
  pub next_worker : ℕ
  pub next_stream_id : ℕ
  pub active_quic_flows : ℕ
  pub quic_stream_open_failures : ℕ
  pub quic_header_write_failures : ℕ
  pub quic_backpressure_timeouts : ℕ
  pub quic_flow_graceful_closes : ℕ
  pub quic_flow_resets : ℕ
  pub last_error : Option Bytes

abbrev pub connected : List ConnectionWorker → Option Bytes → State
connected workers last_error = record {
  workers = workers;
  next_worker = 0;
  next_stream_id = 1;
  active_quic_flows = 0;
  quic_stream_open_failures = 0;
  quic_header_write_failures = 0;
  quic_backpressure_timeouts = 0;
  quic_flow_graceful_closes = 0;
  quic_flow_resets = 0;
  last_error = last_error;
}

-- What is done to the worker with a number.
unfoldable pub update :
    ℕ → (ConnectionWorker → ConnectionWorker) → List ConnectionWorker → List ConnectionWorker
update i f [] = []
update zero f (w ∷ ws) = f w ∷ ws
update (suc i) f (w ∷ ws) = w ∷ update i f ws

abbrev pub on_worker : ℕ → (ConnectionWorker → ConnectionWorker) → State → State
on_worker i f s = record s { workers = update i f s.workers }

-- The best candidate, by its score and its number: the first of the lowest scores.
abbrev pub better : Option (ℕ × ℕ) → ℕ → ℕ → Option (ℕ × ℕ)
better none score i = some (score, i)
better (some (best_score, best)) score i =
    if leb best_score score then some (best_score, best) else some (score, i)

abbrev pub candidate_of : Option ConnectionWorker → ℕ → Option (ℕ × ℕ) → Option (ℕ × ℕ)
candidate_of none i best = best
candidate_of (some w) i best = better best (score w) i

abbrev pub candidate : List ConnectionWorker → ℕ → Option (ℕ × ℕ) → Option (ℕ × ℕ)
candidate ws i best = candidate_of (get_elem? ws i) i best

-- The loop of `select_worker`, with the number of candidates that are left.
unfoldable pub scan : List ConnectionWorker → ℕ → ℕ → ℕ → Option (ℕ × ℕ) → Option (ℕ × ℕ)
scan ws next zero offset best = best
scan ws next (suc k) offset best =
    scan ws next k (offset + 1) (candidate ws ((next + offset) % u64_mod % length ws) best)

abbrev number_of : Option (ℕ × ℕ) → Option ℕ
number_of none = some 0
number_of (some (best_score, i)) = some i

abbrev pub select_among : List ConnectionWorker → State → State × Option ℕ
select_among [] s = (s, none)
select_among (w ∷ []) s = (s, some 0)
select_among (w ∷ w' ∷ ws) s = (
  record s { next_worker = fetch_inc s.next_worker },
  number_of (scan (w ∷ w' ∷ ws) s.next_worker (length (w ∷ w' ∷ ws)) 0 none),
)

-- The number of the worker, none if there are none.
unfoldable pub select_worker : State → State × Option ℕ
unfolding scan
select_worker s = select_among s.workers s

-- The connection opens a stream after so many milliseconds, or refuses one.
pub data OpenBi : Type 0 where
  opened : ℕ → OpenBi
  refused : Bytes → OpenBi

-- `open_stream` from the worker that is selected up to the header.
unfoldable pub open_begin : ℕ → OpenBi → State → State
unfolding update
open_begin i (opened latency) s =
    on_worker i (λ w. record_flow_opened (record_open_success latency w))
      (record s {
        active_quic_flows = fetch_inc s.active_quic_flows;
        next_stream_id = fetch_inc s.next_stream_id;
      })
open_begin i (refused error) s = on_worker i record_open_failure (record s {
  quic_stream_open_failures = fetch_inc s.quic_stream_open_failures;
  last_error = some error;
})

pub data HeaderWrite : Type 0 where
  written timed_out : HeaderWrite
  write_failed : Bytes → HeaderWrite

abbrev header_failed : ℕ → Bytes → State → State
header_failed i error s = on_worker i (record_flow_closed true) (record s {
  active_quic_flows = (s.active_quic_flows + (u64_mod - 1)) % u64_mod;
  quic_header_write_failures = fetch_inc s.quic_header_write_failures;
  last_error = some error;
})

abbrev pub header_timed_out : ℕ → State → State
header_timed_out i s =
    on_worker i record_backpressure_timeout
      (record s { quic_backpressure_timeouts = fetch_inc s.quic_backpressure_timeouts })

-- The rest of `open_stream`.
unfoldable pub open_finish : ℕ → HeaderWrite → State → State
unfolding update
open_finish i written s = record s { last_error = none }
open_finish i (write_failed error) s = header_failed i error s
open_finish i timed_out s =
    header_failed i (ascii "QUIC-native flow header write timed out after 120s")
      (header_timed_out i s)

pub record Stream : Type 0 where
  pub worker : ℕ
  pub closed : Bool

abbrev pub count_close : Bool → State → State
count_close true s = record s { quic_flow_resets = fetch_inc s.quic_flow_resets }
count_close false s = record s { quic_flow_graceful_closes = fetch_inc s.quic_flow_graceful_closes }

-- What `finish`, `reset` and `drop` do to a stream that is not closed yet.
abbrev pub close_once : Bool → Stream → State → Stream × State
close_once reset t s = if t.closed then (t, s) else (
  record t { closed = true },
  count_close reset (on_worker t.worker (record_flow_closed reset) s),
)

-- `Stream::reset` with true, and `Stream::finish`, up to the drop of its stream, with false.
unfoldable pub close_stream : Bool → Stream → State → Stream × State
unfolding update
close_stream reset t s = close_once reset t s

-- `Drop`.
unfoldable pub drop_stream : Stream → State → State
unfolding update
drop_stream t s =
    let s' = (close_once true t s).1 in
    record s' { active_quic_flows = checked_dec s'.active_quic_flows }
