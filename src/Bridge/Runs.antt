-- ===== src/Bridge/Runs.antt =====
-- The states that a bridge reaches: its handlers in any order (crates/ssh-proxy/src/bridge.rs).
use ssh_proxy.Base.{ℕ, Bool, true, false, Option}
use ssh_proxy.Wire.Bytes.{Bytes}
use ssh_proxy.Wire.Frame.{Frame, log}
use ssh_proxy.Bridge.State.{BridgeInner, UdpDatagram, connect_io, send}
use ssh_proxy.Bridge.Open.{
  Await, Opening, open_begin, open_finish, send_data, close_tcp, register_udp, send_udp,
  unregister_udp, send_log,
}
use ssh_proxy.Bridge.Reader.{Delivery, handle_frame, shut_down}
use ssh_proxy.Bridge.Invariant.{IsLinked, connect_io-IsLinked, send-IsLinked}
use ssh_proxy.Bridge.Calls.{
  open_begin-IsLinked, open_finish-IsLinked, close_tcp-IsLinked, register_udp-IsLinked,
  unregister_udp-IsLinked, handle_frame-IsLinked, shut_down-IsLinked,
}

pub data Reaches : BridgeInner → Type 0 where
  connects : Reaches connect_io
  begins :
      (up : Bool) (host : Bytes) (port : ℕ) (egress_proxy : Option Bytes) {s : BridgeInner}
      → Reaches s
      → Reaches (open_begin up host port egress_proxy s).0
  finishes : (a : Await) (o : Opening) {s : BridgeInner} → Reaches s → Reaches (open_finish a o s).0
  sends_data :
      (up : Bool) (id : ℕ) (payload : Bytes) {s : BridgeInner}
      → Reaches s
      → Reaches (send_data up id payload s).0
  closes :
      (up : Bool) (id : ℕ) (reason : Bytes) {s : BridgeInner}
      → Reaches s
      → Reaches (close_tcp up id reason s)
  registers : {s : BridgeInner} → Reaches s → Reaches (register_udp s).0
  sends_udp :
      (up : Bool) (id : ℕ) (d : UdpDatagram) {s : BridgeInner}
      → Reaches s
      → Reaches (send_udp up id d s).0
  unregisters :
      (up : Bool) (id : ℕ) {s : BridgeInner} → Reaches s → Reaches (unregister_udp up id s)
  logs :
      (up : Bool) (message : Bytes) {s : BridgeInner} → Reaches s → Reaches (send_log up message s)
  reads :
      (d : Delivery) (up : Bool) (f : Frame) {s : BridgeInner}
      → Reaches s
      → Reaches (handle_frame d up f s)
  shuts_down : {s : BridgeInner} → Reaches s → Reaches (shut_down s)

-- In every state that a bridge reaches, no channel stands under two stream ids, and no oneshot is
-- both waiting and answered, or answered twice.
pub Reaches-IsLinked : {s : BridgeInner} → Reaches s → IsLinked s
unfolding send_data send_udp send_log send
Reaches-IsLinked connects = connect_io-IsLinked
Reaches-IsLinked (begins up host port egress_proxy {s} r) =
    open_begin-IsLinked up host port egress_proxy s (Reaches-IsLinked r)
Reaches-IsLinked (finishes a o {s} r) = open_finish-IsLinked a o s (Reaches-IsLinked r)
Reaches-IsLinked (sends_data true id payload r) = Reaches-IsLinked r
Reaches-IsLinked (sends_data false id payload r) = Reaches-IsLinked r
Reaches-IsLinked (closes up id reason {s} r) =
    close_tcp-IsLinked up id reason s (Reaches-IsLinked r)
Reaches-IsLinked (registers {s} r) = register_udp-IsLinked s (Reaches-IsLinked r)
Reaches-IsLinked (sends_udp true id d r) = Reaches-IsLinked r
Reaches-IsLinked (sends_udp false id d r) = Reaches-IsLinked r
Reaches-IsLinked (unregisters up id {s} r) = unregister_udp-IsLinked up id s (Reaches-IsLinked r)
Reaches-IsLinked (logs up message {s} r) = send-IsLinked up (log message) s (Reaches-IsLinked r)
Reaches-IsLinked (reads d up f {s} r) = handle_frame-IsLinked d up f s (Reaches-IsLinked r)
Reaches-IsLinked (shuts_down {s} r) = shut_down-IsLinked s (Reaches-IsLinked r)
