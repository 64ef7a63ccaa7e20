-- ===== src/Bridge/Calls.antt =====
-- Every call of the handle, every frame that is read and the end of the connection keep the tables
-- of the bridge sound (crates/ssh-proxy/src/bridge.rs).
use ssh_proxy.Base.{
  ℕ, ◌+◌, ◌≡◌, Bool, true, false, List, [], ◌∷◌, arith, Option, if◌then◌else◌, Option-cases, inl,
  inr,
}
use ssh_proxy.Base.Table.{
  Table, lookup, uses, uses-remove_le, uses-remove_found, uses-insert_le, IsDrawn-mono, IsDrawn-nil,
  IsDrawn-insert,
}
use ssh_proxy.Wire.Bytes.{Bytes, ascii}
use ssh_proxy.Wire.Frame.{Frame, open_tcp, open_tcp_result, chunk, close, udp_packet, log}
use ssh_proxy.Bridge.State.{
  BridgeInner, UdpDatagram, Reply, opened, refused, record_read_frame, send, drop_tcp, drop_udp,
}
use ssh_proxy.Bridge.Open.{
  Opening, Await, replied, sender_dropped, timed_out, enter, open_begin, open_finish, close_tcp,
  register_udp, unregister_udp,
}
use ssh_proxy.Bridge.Reader.{
  Delivery, taken, receiver_gone, too_late, answer, tcp_deliver, udp_deliver, dispatch,
  handle_frame, refuse_all, shut_down,
}
use ssh_proxy.Bridge.Invariant.{
  answers, IsLinked, drop_tcp-IsLinked, drop_udp-IsLinked, drop_open-IsLinked, send-IsLinked,
}

-- The tables of `open_tcp` before the frame is sent.
entered-IsLinked : (s : BridgeInner) → IsLinked s → IsLinked (enter s)
entered-IsLinked s (o, t, u, r) = (
  record {
    once = λ h.
        ground (arith, uses-insert_le s.next_id s.channels h s.pending_tcp, o.once h, o.fresh h);
    fresh = λ h le. ground (arith, uses-insert_le s.next_id s.channels h s.pending_tcp, o.fresh h);
  },
  IsDrawn-insert s.next_id (s.channels + 1) (s.channels + 2) s.tcp_streams (omega arith)
      (IsDrawn-mono s.channels (s.channels + 1) s.tcp_streams (omega arith) t),
  IsDrawn-mono s.channels (s.channels + 2) s.udp_streams (omega arith) u,
  omega arith,
)

pub open_begin-IsLinked :
    (up : Bool) (host : Bytes) (port : ℕ) (egress_proxy : Option Bytes) (s : BridgeInner)
    → IsLinked s
    → IsLinked (open_begin up host port egress_proxy s).0
unfolding open_begin send
open_begin-IsLinked true host port egress_proxy s l = entered-IsLinked s l
open_begin-IsLinked false host port egress_proxy s l =
    drop_open-IsLinked s.next_id (enter s) (entered-IsLinked s l)

pub open_finish-IsLinked :
    (a : Await) (o : Opening) (s : BridgeInner) → IsLinked s → IsLinked (open_finish a o s).0
unfolding open_finish
open_finish-IsLinked (replied opened) o s l = l
open_finish-IsLinked (replied (refused message)) o s l = drop_open-IsLinked o.id s l
open_finish-IsLinked sender_dropped o s l = l
open_finish-IsLinked timed_out o s l = drop_open-IsLinked o.id s l

pub close_tcp-IsLinked :
    (up : Bool) (id : ℕ) (reason : Bytes) (s : BridgeInner)
    → IsLinked s
    → IsLinked (close_tcp up id reason s)
unfolding close_tcp
close_tcp-IsLinked up id reason s l =
    drop_tcp-IsLinked id (send up (close id reason) s) (send-IsLinked up (close id reason) s l)

pub register_udp-IsLinked : (s : BridgeInner) → IsLinked s → IsLinked (register_udp s).0
unfolding register_udp
register_udp-IsLinked s (o, t, u, r) = (
  record { once = o.once; fresh = λ h le. o.fresh h (omega arith) },
  IsDrawn-mono s.channels (s.channels + 1) s.tcp_streams (omega arith) t,
  IsDrawn-insert s.next_id s.channels (s.channels + 1) s.udp_streams (omega arith) u,
  omega arith,
)

pub unregister_udp-IsLinked :
    (up : Bool) (id : ℕ) (s : BridgeInner) → IsLinked s → IsLinked (unregister_udp up id s)
unfolding unregister_udp
unregister_udp-IsLinked up id s l = send-IsLinked up _ (drop_udp id s) (drop_udp-IsLinked id s l)

pub answer-IsLinked :
    (id : ℕ) (reply : Reply) (s : BridgeInner) → IsLinked s → IsLinked (answer id reply s)
unfolding answer answers
answer-IsLinked id reply s (o, t, u, r) = elim (Option-cases (lookup id s.pending_tcp)) [
  | inl e ↦ rw (e, answer) (o, t, u, r)
  | inr (tx, e) ↦
      rw (e, answer)
        (
          record {
            once = λ h. ground (
              arith,
              uses-remove_found id h s.pending_tcp,
              uses-remove_le id h s.pending_tcp,
              o.once h,
            );
            fresh = λ h le. ground (
              arith,
              uses-remove_found id h s.pending_tcp,
              uses-remove_le id h s.pending_tcp,
              o.fresh h,
            );
          },
          t,
          u,
          r,
        )
]

tcp_deliver-IsLinked :
    (d : Delivery) (up : Bool) (id tx : ℕ) (payload : Bytes) (s : BridgeInner)
    → IsLinked s
    → IsLinked (tcp_deliver d up id tx payload s)
unfolding tcp_deliver
tcp_deliver-IsLinked taken up id tx payload s l = l
tcp_deliver-IsLinked receiver_gone up id tx payload s l = drop_tcp-IsLinked id s l
tcp_deliver-IsLinked too_late true id tx payload s l = drop_tcp-IsLinked id s l
tcp_deliver-IsLinked too_late false id tx payload s l = drop_tcp-IsLinked id s l

udp_deliver-IsLinked :
    (d : Delivery) (up : Bool) (id tx : ℕ) (datagram : UdpDatagram) (s : BridgeInner)
    → IsLinked s
    → IsLinked (udp_deliver d up id tx datagram s)
unfolding udp_deliver
udp_deliver-IsLinked taken up id tx datagram s l = l
udp_deliver-IsLinked receiver_gone up id tx datagram s l = drop_udp-IsLinked id s l
udp_deliver-IsLinked too_late true id tx datagram s l = drop_udp-IsLinked id s l
udp_deliver-IsLinked too_late false id tx datagram s l = drop_udp-IsLinked id s l

dispatch-IsLinked :
    (d : Delivery) (up : Bool) (f : Frame) (s : BridgeInner)
    → IsLinked s
    → IsLinked (dispatch d up f s)
unfolding dispatch
dispatch-IsLinked d up (open_tcp_result id accepted message) s l =
    answer-IsLinked id (if accepted then opened else refused message) s l
dispatch-IsLinked d up (chunk id payload) s l = elim (Option-cases (lookup id s.tcp_streams)) [
  | inl e ↦ rw (e, dispatch) l
  | inr (tx, e) ↦ rw (e, dispatch) (tcp_deliver-IsLinked d up id tx payload s l)
]
dispatch-IsLinked d up (udp_packet id host port payload) s l =
    elim (Option-cases (lookup id s.udp_streams)) [
      | inl e ↦ rw (e, dispatch) l
      | inr (tx, e) ↦
          rw (e, dispatch)
            (udp_deliver-IsLinked d up id tx
              (record { host = host; port = port; payload = payload }) s l)
    ]
dispatch-IsLinked d up (close id reason) s l =
    answer-IsLinked id (refused reason) (drop_udp id (drop_tcp id s))
      (drop_udp-IsLinked id (drop_tcp id s) (drop_tcp-IsLinked id s l))
dispatch-IsLinked d up (log message) s l = l
dispatch-IsLinked d up (open_tcp id host port egress_proxy) s l = l

pub handle_frame-IsLinked :
    (d : Delivery) (up : Bool) (f : Frame) (s : BridgeInner)
    → IsLinked s
    → IsLinked (handle_frame d up f s)
unfolding handle_frame
handle_frame-IsLinked d up f s l =
    dispatch-IsLinked d up f (record s { metrics = record_read_frame f s.metrics }) l

pub answers-refuse_all :
    (h : ℕ) (m : Table ℕ) (replies : List (ℕ × Reply))
    → answers h (refuse_all m replies) ≡ uses h m + answers h replies
unfolding answers refuse_all uses
answers-refuse_all h [] replies = omega arith
answers-refuse_all h ((id, tx) ∷ m) replies =
    ground (arith, answers-refuse_all h m ((tx, refused (ascii "remote bridge closed")) ∷ replies))

pub shut_down-IsLinked : (s : BridgeInner) → IsLinked s → IsLinked (shut_down s)
unfolding shut_down uses
shut_down-IsLinked s (o, t, u, r) = (
  record {
    once = λ h. omega (arith, answers-refuse_all h s.pending_tcp s.replies, o.once h);
    fresh = λ h le. omega (arith, answers-refuse_all h s.pending_tcp s.replies, o.fresh h le);
  },
  IsDrawn-nil s.channels,
  IsDrawn-nil s.channels,
  r,
)
