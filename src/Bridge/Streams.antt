-- ===== src/Bridge/Streams.antt =====
-- What the receiver of one stream sees of the frames that a bridge reads: `reader_loop` of
-- crates/ssh-proxy/src/bridge.rs.
pub mod Gone
pub mod Order
use ssh_proxy.Base.{
  ℕ, ◌+◌, ◌≤◌, ◌≡◌, ◌++◌, ◌==◌, refl, sym, ap, ◌∙◌, Bool, true, false, Bool-cases, List, [], ◌∷◌,
  Option, none, some, Option-cases, inl, inr, arith, if◌then◌else◌, append-nil, append_assoc,
}
use ssh_proxy.Base.Table.{
  Table, lookup, remove, uses, uses-remove_le, uses-remove_found, lookup-remove, lookup_of_apart,
  IsDrawn,
}
use ssh_proxy.Wire.Bytes.{Bytes}
use ssh_proxy.Wire.Frame.{Frame, open_tcp, open_tcp_result, chunk, close, udp_packet, log}
use ssh_proxy.Bridge.State.{
  BridgeInner, UdpDatagram, Reply, opened, refused, record_read_frame, send, drop_tcp, drop_udp,
}
use ssh_proxy.Bridge.Reader.{
  Delivery, taken, receiver_gone, too_late, answer, tcp_deliver, udp_deliver, dispatch,
  handle_frame, reader_loop,
}

-- What a channel was given, in order.
unfoldable pub received : ℕ → List (ℕ × Bytes) → List Bytes
received ch [] = []
received ch ((tx, payload) ∷ q) =
    let rest = received ch q in if tx == ch then payload ∷ rest else rest

-- A chunk reaches the receiver, or is the first that is lost.
abbrev pub arrives : Delivery → Bytes → List Bytes → List Bytes
arrives taken payload later = payload ∷ later
arrives receiver_gone payload later = []
arrives too_late payload later = []

-- What the frames carry for a stream, until it is closed or its receiver fails.
unfoldable pub incoming : ℕ → List (Delivery × Bool × Frame) → List Bytes
incoming id [] = []
incoming id ((d, up, chunk i payload) ∷ rest) =
    let later = incoming id rest in if i == id then arrives d payload later else later
incoming id ((d, up, close i reason) ∷ rest) =
    let later = incoming id rest in if i == id then [] else later
incoming id ((d, up, open_tcp i host port egress_proxy) ∷ rest) = incoming id rest
incoming id ((d, up, open_tcp_result i accepted message) ∷ rest) = incoming id rest
incoming id ((d, up, udp_packet i host port payload) ∷ rest) = incoming id rest
incoming id ((d, up, log message) ∷ rest) = incoming id rest

pub received-append :
    (ch tx : ℕ) (payload : Bytes) (q : List (ℕ × Bytes))
    → received ch (q ++ (tx, payload) ∷ []) ≡ received ch q ++ received ch ((tx, payload) ∷ [])
unfolding received
received-append ch tx payload [] = refl
received-append ch tx payload ((t, p) ∷ q) = ground (arith, received-append ch tx payload q)

-- The part of the state that the streams live in.
abbrev pub Holds : Table ℕ → List (ℕ × Bytes) → BridgeInner → Type 0
Holds m q s = (s.tcp_streams ≡ m) × (s.tcp_queue ≡ q)

pub answer-Holds :
    (id : ℕ) (reply : Reply) (s : BridgeInner) → Holds s.tcp_streams s.tcp_queue (answer id reply s)
unfolding answer
answer-Holds id reply s = elim (Option-cases (lookup id s.pending_tcp)) [
  | inl e ↦ rw (e, answer) (refl, refl)
  | inr (tx, e) ↦ rw (e, answer) (refl, refl)
]

udp_deliver-Holds :
    (d : Delivery) (up : Bool) (id tx : ℕ) (datagram : UdpDatagram) (s : BridgeInner)
    → Holds s.tcp_streams s.tcp_queue (udp_deliver d up id tx datagram s)
unfolding udp_deliver send
udp_deliver-Holds taken up id tx datagram s = (refl, refl)
udp_deliver-Holds receiver_gone up id tx datagram s = (refl, refl)
udp_deliver-Holds too_late true id tx datagram s = (refl, refl)
udp_deliver-Holds too_late false id tx datagram s = (refl, refl)

pub udp_packet-Holds :
    (d : Delivery) (up : Bool) (i : ℕ) (host : Bytes) (port : ℕ) (payload : Bytes) (s : BridgeInner)
    → Holds s.tcp_streams s.tcp_queue (handle_frame d up (udp_packet i host port payload) s)
unfolding handle_frame dispatch
udp_packet-Holds d up i host port payload s = elim (Option-cases (lookup i s.udp_streams)) [
  | inl e ↦ rw (e, dispatch) (refl, refl)
  | inr (tx, e) ↦ rw (e, dispatch) (udp_deliver-Holds d up i tx _ _)
]

pub open_tcp_result-Holds :
    (d : Delivery) (up accepted : Bool) (i : ℕ) (message : Bytes) (s : BridgeInner)
    → Holds s.tcp_streams s.tcp_queue (handle_frame d up (open_tcp_result i accepted message) s)
unfolding handle_frame dispatch
open_tcp_result-Holds d up accepted i message s =
    answer-Holds i (if accepted then opened else refused message) _

pub close-Holds :
    (d : Delivery) (up : Bool) (i : ℕ) (reason : Bytes) (s : BridgeInner)
    → Holds (remove i s.tcp_streams) s.tcp_queue (handle_frame d up (close i reason) s)
unfolding handle_frame dispatch
close-Holds d up i reason s = answer-Holds i (refused reason) _

pub unknown-Holds :
    (d : Delivery) (up : Bool) (i : ℕ) (payload : Bytes) (s : BridgeInner)
    → lookup i s.tcp_streams ≡ none
    → Holds s.tcp_streams s.tcp_queue (handle_frame d up (chunk i payload) s)
unfolding handle_frame dispatch
unknown-Holds d up i payload s e = rw (e, dispatch) (refl, refl)

pub taken-Holds :
    (up : Bool) (i tx : ℕ) (payload : Bytes) (s : BridgeInner)
    → lookup i s.tcp_streams ≡ some tx
    → Holds s.tcp_streams
        (s.tcp_queue ++ (tx, payload) ∷ [])
        (handle_frame taken up (chunk i payload) s)
unfolding handle_frame dispatch tcp_deliver
taken-Holds up i tx payload s e = rw (e, dispatch) (refl, refl)

pub receiver_gone-Holds :
    (up : Bool) (i tx : ℕ) (payload : Bytes) (s : BridgeInner)
    → lookup i s.tcp_streams ≡ some tx
    → Holds (remove i s.tcp_streams) s.tcp_queue (handle_frame receiver_gone up (chunk i payload) s)
unfolding handle_frame dispatch tcp_deliver
receiver_gone-Holds up i tx payload s e = rw (e, dispatch) (refl, refl)

pub too_late-Holds :
    (up : Bool) (i tx : ℕ) (payload : Bytes) (s : BridgeInner)
    → lookup i s.tcp_streams ≡ some tx
    → Holds (remove i s.tcp_streams) s.tcp_queue (handle_frame too_late up (chunk i payload) s)
unfolding handle_frame dispatch tcp_deliver send
too_late-Holds true i tx payload s e = rw (e, dispatch) (refl, refl)
too_late-Holds false i tx payload s e = rw (e, dispatch) (refl, refl)

pub log-Holds :
    (d : Delivery) (up : Bool) (message : Bytes) (s : BridgeInner)
    → Holds s.tcp_streams s.tcp_queue (handle_frame d up (log message) s)
unfolding handle_frame dispatch
log-Holds d up message s = (refl, refl)

pub open_tcp-Holds :
    (d : Delivery) (up : Bool) (i : ℕ) (host : Bytes) (port : ℕ) (egress_proxy : Option Bytes)
    (s : BridgeInner)
    → Holds s.tcp_streams s.tcp_queue (handle_frame d up (open_tcp i host port egress_proxy) s)
unfolding handle_frame dispatch
open_tcp-Holds d up i host port egress_proxy s = (refl, refl)
