-- ===== src/Remote/Invariant.antt =====
-- Whatever happens at the remote end of crates/ssh-proxy/src/remote.rs, a channel belongs to one stream.
use ssh_proxy.Base.{
  ℕ, ◌+◌, ◌≤◌, ◌≡◌, ◌++◌, ◌==◌, Bool, true, false, List, [], ◌∷◌, Option, Option-cases, inl, inr,
  arith, if◌then◌else◌,
}
use ssh_proxy.Base.Table.{lookup, insert, uses, uses-remove_le, uses-insert_le}
use ssh_proxy.Wire.Bytes.{Bytes}
use ssh_proxy.Wire.Frame.{Frame, open_tcp, open_tcp_result, chunk, close, udp_packet, log}
use ssh_proxy.Bridge.State.{UdpDatagram}
use ssh_proxy.Bridge.Reader.{Delivery, taken, receiver_gone, too_late}
use ssh_proxy.Remote.State.{
  Transport, run_transport, send, tcp_deliver, udp_deliver, associate, dispatch,
}
use ssh_proxy.Remote.Tasks.{
  open_failed, open_connected, relay_read, relay_ended, udp_bind_failed, udp_received,
}
use ssh_proxy.Remote.Events.{
  Event, arrives, open_fails, connects, target_sends, copy_ends, bind_fails, datagram_comes, step,
  run,
}

-- How many entries of both tables lead to a channel.
abbrev pub holders : ℕ → Transport → ℕ
holders h s = uses h s.tcp_streams + uses h s.udp_streams

pub record IsSound (s : Transport) : Type 0 where
  pub apart : (h : ℕ) → holders h s ≤ 1
  pub fresh : (h : ℕ) → s.channels ≤ h → holders h s ≡ 0

-- No more entries than before, but for so many that lead to the next channel.
abbrev Draws : ℕ → Transport → Transport → Type 0
Draws k s s' =
    ((h : ℕ) → holders h s' ≤ (if s.channels == h then k else 0) + holders h s)
    × (k + s.channels ≤ s'.channels)

IsSound-Draws : (k : ℕ) (s s' : Transport) → k ≤ 1 → Draws k s s' → IsSound s → IsSound s'
IsSound-Draws k s s' le (d, n) i = record {
  apart = λ h. ground (arith, d h, i.apart h, i.fresh h);
  fresh = λ h low. ground (arith, d h, i.fresh h);
}

same_Draws : (s : Transport) → Draws 0 s s
same_Draws s = (λ h. ground arith, omega arith)

tcp_deliver-Draws :
    (d : Delivery) (up : Bool) (id tx : ℕ) (payload : Bytes) (s : Transport)
    → Draws 0 s (tcp_deliver d up id tx payload s)
unfolding tcp_deliver
tcp_deliver-Draws taken up id tx payload s = (λ h. ground arith, omega arith)
tcp_deliver-Draws receiver_gone up id tx payload s =
    (λ h. ground (arith, uses-remove_le id h s.tcp_streams), omega arith)
tcp_deliver-Draws too_late true id tx payload s =
    (λ h. ground (arith, uses-remove_le id h s.tcp_streams), omega arith)
tcp_deliver-Draws too_late false id tx payload s =
    (λ h. ground (arith, uses-remove_le id h s.tcp_streams), omega arith)

udp_deliver-Draws :
    (d : Delivery) (up : Bool) (id tx : ℕ) (datagram : UdpDatagram) (s : Transport)
    → Draws 0 s (udp_deliver d up id tx datagram s)
unfolding udp_deliver
udp_deliver-Draws taken up id tx datagram s = (λ h. ground arith, omega arith)
udp_deliver-Draws receiver_gone up id tx datagram s =
    (λ h. ground (arith, uses-remove_le id h s.udp_streams), omega arith)
udp_deliver-Draws too_late true id tx datagram s =
    (λ h. ground (arith, uses-remove_le id h s.udp_streams), omega arith)
udp_deliver-Draws too_late false id tx datagram s =
    (λ h. ground (arith, uses-remove_le id h s.udp_streams), omega arith)

associate-IsSound : (id : ℕ) (s : Transport) → IsSound s → IsSound (associate id s).0
unfolding associate
associate-IsSound id s i = elim (Option-cases (lookup id s.udp_streams)) [
  | inl e ↦
      rw (e, associate)
        (IsSound-Draws 1 s
          (record s {
            udp_streams = insert id s.channels s.udp_streams;
            channels = s.channels + 1;
            assocs = s.assocs ++ (id, s.channels) ∷ [];
          })
          (omega arith)
          (λ h. ground (arith, uses-insert_le id s.channels h s.udp_streams), omega arith) i)
  | inr (tx, e) ↦ rw (e, associate) i
]

chunk-Draws :
    (proxy : Option Bytes) (d : Delivery) (up : Bool) (id : ℕ) (payload : Bytes) (s : Transport)
    → Draws 0 s (dispatch proxy d up (chunk id payload) s)
unfolding dispatch
chunk-Draws proxy d up id payload s = elim (Option-cases (lookup id s.tcp_streams)) [
  | inl e ↦ rw (e, dispatch) (same_Draws s)
  | inr (tx, e) ↦ rw (e, dispatch) (tcp_deliver-Draws d up id tx payload s)
]

dispatch-IsSound :
    (proxy : Option Bytes) (d : Delivery) (up : Bool) (f : Frame) (s : Transport)
    → IsSound s
    → IsSound (dispatch proxy d up f s)
unfolding dispatch
dispatch-IsSound proxy d up (open_tcp id host port egress_proxy) s i = record {
  apart = i.apart;
  fresh = i.fresh;
}
dispatch-IsSound proxy d up (open_tcp_result id accepted message) s i = i
dispatch-IsSound proxy d up (chunk id payload) s i =
    IsSound-Draws 0 s (dispatch proxy d up (chunk id payload) s) (omega arith)
      (chunk-Draws proxy d up id payload s) i
dispatch-IsSound proxy d up (close id reason) s i =
    IsSound-Draws 0 s (dispatch proxy d up (close id reason) s) (omega arith)
      (
        λ h. ground (arith, uses-remove_le id h s.tcp_streams, uses-remove_le id h s.udp_streams),
        omega arith,
      )
      i
dispatch-IsSound proxy d up (udp_packet id host port payload) s i =
    IsSound-Draws 0 (associate id s).0 (dispatch proxy d up (udp_packet id host port payload) s)
      (omega arith)
      (udp_deliver-Draws d up id (associate id s).1
        (record { host = host; port = port; payload = payload }) (associate id s).0)
      (associate-IsSound id s i)
dispatch-IsSound proxy d up (log message) s i = i

open_connected-Draws : (up : Bool) (id : ℕ) (s : Transport) → Draws 1 s (open_connected up id s)
unfolding open_connected
open_connected-Draws true id s =
    (λ h. ground (arith, uses-insert_le id s.channels h s.tcp_streams), omega arith)
open_connected-Draws false id s =
    (λ h. ground (arith, uses-insert_le id s.channels h s.tcp_streams), omega arith)

relay_ended-Draws : (up : Bool) (id : ℕ) (s : Transport) → Draws 0 s (relay_ended up id s)
unfolding relay_ended
relay_ended-Draws true id s = (λ h. ground (arith, uses-remove_le id h s.tcp_streams), omega arith)
relay_ended-Draws false id s = (λ h. ground (arith, uses-remove_le id h s.tcp_streams), omega arith)

sends-IsSound : (up : Bool) (f : Frame) (s : Transport) → IsSound s → IsSound (send up f s)
sends-IsSound true f s i = record { apart = i.apart; fresh = i.fresh }
sends-IsSound false f s i = i

step-IsSound :
    (proxy : Option Bytes) (e : Event) (s : Transport) → IsSound s → IsSound (step proxy e s)
unfolding step relay_read udp_bind_failed udp_received open_failed
step-IsSound proxy (arrives d up f) s i = dispatch-IsSound proxy d up f s i
step-IsSound proxy (open_fails up id message) s i = sends-IsSound up _ s i
step-IsSound proxy (connects up id) s i =
    IsSound-Draws 1 s (open_connected up id s) (omega arith) (open_connected-Draws up id s) i
step-IsSound proxy (target_sends up id payload) s i = sends-IsSound up _ s i
step-IsSound proxy (copy_ends up id) s i =
    IsSound-Draws 0 s (relay_ended up id s) (omega arith) (relay_ended-Draws up id s) i
step-IsSound proxy (bind_fails up id reason) s i = sends-IsSound up _ s i
step-IsSound proxy (datagram_comes up id d) s i = sends-IsSound up _ s i

run-IsSound :
    (proxy : Option Bytes) (events : List Event) (s : Transport)
    → IsSound s
    → IsSound (run proxy events s)
unfolding run
run-IsSound proxy [] s i = i
run-IsSound proxy (e ∷ events) s i =
    run-IsSound proxy events (step proxy e s) (step-IsSound proxy e s i)

-- Whatever happens at the remote end, no channel stands under two stream ids, of TCP or UDP, and the
-- channels that are still to come stand under none.
pub reached-IsSound :
    (proxy : Option Bytes) (events : List Event) → IsSound (run proxy events run_transport)
unfolding uses
reached-IsSound proxy events =
    run-IsSound proxy events run_transport
      (record { apart = λ h. omega arith; fresh = λ h low. omega arith })
