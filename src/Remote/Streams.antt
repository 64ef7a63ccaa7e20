-- ===== src/Remote/Streams.antt =====
-- What the target of one stream is given of the frames that reach the remote end:
-- crates/ssh-proxy/src/remote.rs.
pub mod Order
use ssh_proxy.Base.{
  ℕ, ◌+◌, ◌≤◌, ◌≡◌, ◌++◌, ◌==◌, refl, ◌∙◌, Bool, true, false, List, [], ◌∷◌, Option, none, some,
  Option-cases, inl, inr, arith, if◌then◌else◌,
}
use ssh_proxy.Base.Table.{Table, lookup, insert, remove}
use ssh_proxy.Wire.Bytes.{Bytes}
use ssh_proxy.Wire.Frame.{Frame, open_tcp, open_tcp_result, chunk, close, udp_packet, log}
use ssh_proxy.Bridge.State.{UdpDatagram}
use ssh_proxy.Bridge.Reader.{Delivery, taken, receiver_gone, too_late}
use ssh_proxy.Bridge.Streams
use ssh_proxy.Remote.State.{Transport, tcp_deliver, udp_deliver, associate, dispatch}
use ssh_proxy.Remote.Tasks.{
  open_failed, open_connected, relay_read, relay_ended, udp_bind_failed, udp_received,
}
use ssh_proxy.Remote.Events.{
  Event, arrives, open_fails, connects, target_sends, copy_ends, bind_fails, datagram_comes, step,
}

-- What an event does to the table of the TCP streams and to their channels.
pub data Effect : Type 0 where
  keeps : Effect
  cuts puts : ℕ → Effect
  gives : Delivery → ℕ → Bytes → Effect

abbrev pub frame_effect : Delivery → Frame → Effect
frame_effect d (chunk id payload) = gives d id payload
frame_effect d (close id reason) = cuts id
frame_effect d (open_tcp id host port egress_proxy) = keeps
frame_effect d (open_tcp_result id accepted message) = keeps
frame_effect d (udp_packet id host port payload) = keeps
frame_effect d (log message) = keeps

abbrev pub effect : Event → Effect
effect (arrives d up f) = frame_effect d f
effect (connects up id) = puts id
effect (copy_ends up id) = cuts id
effect (open_fails up id message) = keeps
effect (target_sends up id payload) = keeps
effect (bind_fails up id reason) = keeps
effect (datagram_comes up id d) = keeps

abbrev pub ends_at : ℕ → ℕ → List Bytes → List Bytes
ends_at id i later = if i == id then [] else later

abbrev pub seen : ℕ → Effect → List Bytes → List Bytes
seen id keeps later = later
seen id (cuts i) later = ends_at id i later
seen id (puts i) later = ends_at id i later
seen id (gives d i payload) later = if i == id then Streams.arrives d payload later else later

-- The payloads that the frames bring for a stream: up to the close frame, to the end of the copy, to
-- another stream under the same id, or to the first payload that is not taken.
unfoldable pub client_sends : ℕ → List Event → List Bytes
client_sends id [] = []
client_sends id (e ∷ events) = seen id (effect e) (client_sends id events)

abbrev pub Part : Type 0
Part = Table ℕ × List (ℕ × Bytes)

abbrev pub delivered : Delivery → ℕ → Bytes → Option ℕ → Part → Part
delivered d i payload none (m, q) = (m, q)
delivered taken i payload (some tx) (m, q) = (m, q ++ (tx, payload) ∷ [])
delivered receiver_gone i payload (some tx) (m, q) = (remove i m, q)
delivered too_late i payload (some tx) (m, q) = (remove i m, q)

abbrev pub moved : Effect → ℕ → Part → Part
moved keeps n p = p
moved (cuts i) n (m, q) = (remove i m, q)
moved (puts i) n (m, q) = (insert i n m, q)
moved (gives d i payload) n (m, q) = delivered d i payload (lookup i m) (m, q)

-- The part of the state that the TCP streams live in, and the counter of the channels.
abbrev pub Moves : Effect → Transport → Transport → Type 0
Moves e s s' =
    (s'.tcp_streams ≡ (moved e s.channels (s.tcp_streams, s.tcp_queue)).0)
    × (s'.tcp_queue ≡ (moved e s.channels (s.tcp_streams, s.tcp_queue)).1)
    × (s.channels ≤ s'.channels)

tcp_deliver-Moves :
    (d : Delivery) (up : Bool) (id tx : ℕ) (payload : Bytes) (s : Transport)
    → lookup id s.tcp_streams ≡ some tx
    → Moves (gives d id payload) s (tcp_deliver d up id tx payload s)
unfolding tcp_deliver
tcp_deliver-Moves taken up id tx payload s e = rw e (refl, refl, omega arith)
tcp_deliver-Moves receiver_gone up id tx payload s e = rw e (refl, refl, omega arith)
tcp_deliver-Moves too_late true id tx payload s e = rw e (refl, refl, omega arith)
tcp_deliver-Moves too_late false id tx payload s e = rw e (refl, refl, omega arith)

udp_deliver-Moves :
    (d : Delivery) (up : Bool) (id tx : ℕ) (datagram : UdpDatagram) (s : Transport)
    → Moves keeps s (udp_deliver d up id tx datagram s)
unfolding udp_deliver
udp_deliver-Moves taken up id tx datagram s = (refl, refl, omega arith)
udp_deliver-Moves receiver_gone up id tx datagram s = (refl, refl, omega arith)
udp_deliver-Moves too_late true id tx datagram s = (refl, refl, omega arith)
udp_deliver-Moves too_late false id tx datagram s = (refl, refl, omega arith)

associate-Moves : (id : ℕ) (s : Transport) → Moves keeps s (associate id s).0
unfolding associate
associate-Moves id s = elim (Option-cases (lookup id s.udp_streams)) [
  | inl e ↦ rw (e, associate) (refl, refl, omega arith)
  | inr (tx, e) ↦ rw (e, associate) (refl, refl, omega arith)
]

keeps_trans : (s s' s'' : Transport) → Moves keeps s s' → Moves keeps s' s'' → Moves keeps s s''
keeps_trans s s' s'' (m, q, n) (m', q', n') = (m' ∙ m, q' ∙ q, omega arith)

chunk-Moves :
    (proxy : Option Bytes) (d : Delivery) (up : Bool) (id : ℕ) (payload : Bytes) (s : Transport)
    → Moves (gives d id payload) s (dispatch proxy d up (chunk id payload) s)
unfolding dispatch
chunk-Moves proxy d up id payload s = elim (Option-cases (lookup id s.tcp_streams)) [
  | inl e ↦ rw (e, dispatch) (refl, refl, omega arith)
  | inr (tx, e) ↦ rw (e, dispatch) (rw e at (tcp_deliver-Moves d up id tx payload s e))
]

dispatch-Moves :
    (proxy : Option Bytes) (d : Delivery) (up : Bool) (f : Frame) (s : Transport)
    → Moves (frame_effect d f) s (dispatch proxy d up f s)
unfolding dispatch
dispatch-Moves proxy d up (open_tcp id host port egress_proxy) s = (refl, refl, omega arith)
dispatch-Moves proxy d up (open_tcp_result id accepted message) s = (refl, refl, omega arith)
dispatch-Moves proxy d up (chunk id payload) s = chunk-Moves proxy d up id payload s
dispatch-Moves proxy d up (close id reason) s = (refl, refl, omega arith)
dispatch-Moves proxy d up (udp_packet id host port payload) s =
    keeps_trans s (associate id s).0 (dispatch proxy d up (udp_packet id host port payload) s)
      (associate-Moves id s)
      (udp_deliver-Moves d up id (associate id s).1
        (record { host = host; port = port; payload = payload }) (associate id s).0)
dispatch-Moves proxy d up (log message) s = (refl, refl, omega arith)

pub step-Moves :
    (proxy : Option Bytes) (e : Event) (s : Transport) → Moves (effect e) s (step proxy e s)
unfolding step open_connected relay_read relay_ended udp_bind_failed udp_received open_failed
step-Moves proxy (arrives d up f) s = dispatch-Moves proxy d up f s
step-Moves proxy (open_fails true id message) s = (refl, refl, omega arith)
step-Moves proxy (open_fails false id message) s = (refl, refl, omega arith)
step-Moves proxy (connects true id) s = (refl, refl, omega arith)
step-Moves proxy (connects false id) s = (refl, refl, omega arith)
step-Moves proxy (target_sends true id payload) s = (refl, refl, omega arith)
step-Moves proxy (target_sends false id payload) s = (refl, refl, omega arith)
step-Moves proxy (copy_ends true id) s = (refl, refl, omega arith)
step-Moves proxy (copy_ends false id) s = (refl, refl, omega arith)
step-Moves proxy (bind_fails true id reason) s = (refl, refl, omega arith)
step-Moves proxy (bind_fails false id reason) s = (refl, refl, omega arith)
step-Moves proxy (datagram_comes true id d) s = (refl, refl, omega arith)
step-Moves proxy (datagram_comes false id d) s = (refl, refl, omega arith)
