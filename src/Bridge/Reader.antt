-- ===== src/Bridge/Reader.antt =====
-- `reader_loop` of crates/ssh-proxy/src/bridge.rs, and the end of the connection.
use ssh_proxy.Base.{ℕ, ◌++◌, Bool, List, [], ◌∷◌, none, some, if◌then◌else◌}
use ssh_proxy.Base.Table.{Table, lookup, remove}
use ssh_proxy.Wire.Bytes.{Bytes, ascii}
use ssh_proxy.Wire.Frame.{Frame, open_tcp, open_tcp_result, chunk, close, udp_packet, log}
use ssh_proxy.Bridge.State.{
  BridgeInner, UdpDatagram, Reply, opened, refused, record_read_frame,
  record_tcp_backpressure_timeout, record_udp_backpressure_timeout, send, drop_tcp, drop_udp,
}

-- How a send into a stream's channel ends: within the time, with the receiver gone, or too late.
pub data Delivery : Type 0 where
  taken receiver_gone too_late : Delivery

-- `if let Some(tx) = pending.remove(&id) { tx.send(reply) }`.
unfoldable pub answer : ℕ → Reply → BridgeInner → BridgeInner
answer id reply s = elim (lookup id s.pending_tcp) [
  | none ↦ s
  | some tx ↦ record s { pending_tcp = remove id s.pending_tcp; replies = (tx, reply) ∷ s.replies }
]

unfoldable pub tcp_deliver : Delivery → Bool → ℕ → ℕ → Bytes → BridgeInner → BridgeInner
unfolding send
tcp_deliver taken up id tx payload s = record s { tcp_queue = s.tcp_queue ++ (tx, payload) ∷ [] }
tcp_deliver receiver_gone up id tx payload s = drop_tcp id s
tcp_deliver too_late up id tx payload s =
    send up (close id (ascii "local receiver backpressure timed out after 30s")) (record s {
      metrics = record_tcp_backpressure_timeout s.metrics;
      tcp_streams = remove id s.tcp_streams;
    })

unfoldable pub udp_deliver : Delivery → Bool → ℕ → ℕ → UdpDatagram → BridgeInner → BridgeInner
unfolding send
udp_deliver taken up id tx d s = record s { udp_queue = s.udp_queue ++ (tx, d) ∷ [] }
udp_deliver receiver_gone up id tx d s = drop_udp id s
udp_deliver too_late up id tx d s =
    send up (close id (ascii "local UDP receiver backpressure timed out after 10s")) (record s {
      metrics = record_udp_backpressure_timeout s.metrics;
      udp_streams = remove id s.udp_streams;
    })

-- The `match` of the loop.
unfoldable pub dispatch : Delivery → Bool → Frame → BridgeInner → BridgeInner
unfolding answer tcp_deliver udp_deliver
dispatch d up (open_tcp_result id accepted message) s =
    answer id (if accepted then opened else refused message) s
dispatch d up (chunk id payload) s = elim (lookup id s.tcp_streams) [
  | none ↦ s
  | some tx ↦ tcp_deliver d up id tx payload s
]
dispatch d up (udp_packet id host port payload) s = elim (lookup id s.udp_streams) [
  | none ↦ s
  | some tx ↦ udp_deliver d up id tx (record { host = host; port = port; payload = payload }) s
]
dispatch d up (close id reason) s = answer id (refused reason) (drop_udp id (drop_tcp id s))
dispatch d up (log message) s = s
dispatch d up (open_tcp id host port egress_proxy) s = s

-- One round of the loop.
unfoldable pub handle_frame : Delivery → Bool → Frame → BridgeInner → BridgeInner
unfolding dispatch record_read_frame
handle_frame d up f s = dispatch d up f (record s { metrics = record_read_frame f s.metrics })

-- The rounds, each with what the runtime made of it.
unfoldable pub reader_loop : List (Delivery × Bool × Frame) → BridgeInner → BridgeInner
reader_loop [] s = s
reader_loop ((d, up, f) ∷ rest) s = reader_loop rest (handle_frame d up f s)

unfoldable pub refuse_all : Table ℕ → List (ℕ × Reply) → List (ℕ × Reply)
refuse_all [] replies = replies
refuse_all ((id, tx) ∷ m) replies =
    refuse_all m ((tx, refused (ascii "remote bridge closed")) ∷ replies)

-- The lifecycle task, when the reader has ended.
unfoldable pub shut_down : BridgeInner → BridgeInner
unfolding refuse_all
shut_down s = record s {
  pending_tcp = [];
  tcp_streams = [];
  udp_streams = [];
  replies = refuse_all s.pending_tcp s.replies;
}
