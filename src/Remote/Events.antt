-- ===== src/Remote/Events.antt =====
-- What happens at the remote end of crates/ssh-proxy/src/remote.rs, in any order: frames arrive, and the
-- tasks of the streams take their steps.
use ssh_proxy.Base.{ℕ, Bool, List, [], ◌∷◌, Option}
use ssh_proxy.Wire.Bytes.{Bytes}
use ssh_proxy.Wire.Frame.{Frame}
use ssh_proxy.Bridge.State.{UdpDatagram}
use ssh_proxy.Bridge.Reader.{Delivery}
use ssh_proxy.Remote.State.{Transport, dispatch}
use ssh_proxy.Remote.Tasks.{
  open_failed, open_connected, relay_read, relay_ended, udp_bind_failed, udp_received,
}

pub data Event : Type 0 where
  arrives : Delivery → Bool → Frame → Event
  open_fails : Bool → ℕ → Bytes → Event
  connects : Bool → ℕ → Event
  target_sends : Bool → ℕ → Bytes → Event
  copy_ends : Bool → ℕ → Event
  bind_fails : Bool → ℕ → Bytes → Event
  datagram_comes : Bool → ℕ → UdpDatagram → Event

module _ (default_egress_proxy : Option Bytes) where
  unfoldable pub step : Event → Transport → Transport
  step (arrives d up f) s = dispatch default_egress_proxy d up f s
  step (open_fails up id message) s = open_failed up id message s
  step (connects up id) s = open_connected up id s
  step (target_sends up id payload) s = relay_read up id payload s
  step (copy_ends up id) s = relay_ended up id s
  step (bind_fails up id reason) s = udp_bind_failed up id reason s
  step (datagram_comes up id d) s = udp_received up id d s

  unfoldable pub run : List Event → Transport → Transport
  run [] s = s
  run (e ∷ events) s = run events (step e s)
