-- ===== src/Bridge/Open.antt =====
-- `BridgeHandle` of crates/ssh-proxy/src/bridge.rs: what the proxy side calls.
use ssh_proxy.Base.{ℕ, ◌+◌, Bool, true, false, Option, Result, ok, err, if◌then◌else◌}
use ssh_proxy.Base.Table.{insert}
use ssh_proxy.Wire.Bytes.{Bytes, ascii}
use ssh_proxy.Wire.Frame.{open_tcp, chunk, close, udp_packet, log}
use ssh_proxy.Bridge.State.{
  BridgeInner, UdpDatagram, Reply, opened, refused, send, next, drop_tcp, drop_udp, drop_open,
}

pub data BridgeError : Type 0 where
  bridge_unavailable bridge_closed open_timed_out send_failed : BridgeError
  remote_message : Bytes → BridgeError

-- What `open_tcp` holds while it waits: the stream id and the two channels.
pub record Opening : Type 0 where
  pub id : ℕ
  pub pending : ℕ
  pub stream : ℕ

pub data Await : Type 0 where
  replied : Reply → Await
  sender_dropped : Await
  timed_out : Await

-- The two inserts of `open_tcp`.
abbrev pub enter : BridgeInner → BridgeInner
enter s = record s {
  next_id = next s.next_id;
  pending_tcp = insert s.next_id s.channels s.pending_tcp;
  tcp_streams = insert s.next_id (s.channels + 1) s.tcp_streams;
  channels = s.channels + 2;
}

-- `open_tcp` up to its wait.
unfoldable pub open_begin :
    Bool → Bytes → ℕ → Option Bytes → BridgeInner → BridgeInner × Result BridgeError Opening
unfolding send
open_begin true host port egress_proxy s = (
  send true (open_tcp s.next_id host port egress_proxy) (enter s),
  ok (record { id = s.next_id; pending = s.channels; stream = s.channels + 1 }),
)
open_begin false host port egress_proxy s = (drop_open s.next_id (enter s), err bridge_unavailable)

-- `open_tcp` behind its wait.
unfoldable pub open_finish :
    Await → Opening → BridgeInner → BridgeInner × Result BridgeError Opening
open_finish (replied opened) o s = (s, ok o)
open_finish (replied (refused message)) o s = (drop_open o.id s, err (remote_message message))
open_finish sender_dropped o s = (s, err bridge_closed)
open_finish timed_out o s = (drop_open o.id s, err open_timed_out)

unfoldable pub send_data :
    Bool → ℕ → Bytes → BridgeInner → BridgeInner × Result BridgeError (Unit {0})
unfolding send
send_data up id payload s =
    if up then (send true (chunk id payload) s, ok tt) else (s, err send_failed)

unfoldable pub close_tcp : Bool → ℕ → Bytes → BridgeInner → BridgeInner
unfolding send
close_tcp up id reason s = drop_tcp id (send up (close id reason) s)

unfoldable pub register_udp : BridgeInner → BridgeInner × ℕ × ℕ
register_udp s = (
  record s {
    next_id = next s.next_id;
    udp_streams = insert s.next_id s.channels s.udp_streams;
    channels = s.channels + 1;
  },
  s.next_id,
  s.channels,
)

unfoldable pub send_udp :
    Bool → ℕ → UdpDatagram → BridgeInner → BridgeInner × Result BridgeError (Unit {0})
unfolding send
send_udp up id d s =
    if up
    then (send true (udp_packet id d.host d.port d.payload) s, ok tt)
    else (s, err send_failed)

unfoldable pub unregister_udp : Bool → ℕ → BridgeInner → BridgeInner
unfolding send
unregister_udp up id s = send up (close id (ascii "udp association closed")) (drop_udp id s)

unfoldable pub send_log : Bool → Bytes → BridgeInner → BridgeInner
unfolding send
send_log up message s = send up (log message) s
