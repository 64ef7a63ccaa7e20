-- ===== src/Route/RemoteUse.antt =====
-- How a remote node reaches the local peer: crates/ssh-proxy-route/src/remote_use.rs. The type of
-- addresses, their printer and their loopback test are arguments.
pub mod Reachable
use Prim.Native.String.{String, ◌++◌}
use ssh_proxy.Base.{Bool, Option, none, some, Result, ok, err, if◌then◌else◌}

pub data RemoteUseConnectMode : Type 0 where
  auto direct reverse_link : RemoteUseConnectMode

pub data RemoteUsePlan (Addr : Type 0) : Type 0 where
  direct : Addr → RemoteUsePlan Addr
  reverse_link : RemoteUsePlan Addr

pub record RemoteUseDecision (Addr : Type 0) : Type 0 where
  pub plan : RemoteUsePlan Addr
  pub fallback_reason : Option String

pub record RemoteUseInput (Addr : Type 0) : Type 0 where
  pub connect_mode : RemoteUseConnectMode
  pub local_peer : Option Addr
  pub daemon_transport_listen : Option Addr

module _ {Addr : Type 0} (display : Addr → String) (is_loopback : Addr → Bool) where
  abbrev local_peer_of : Option Addr → Option Addr → Result String Addr
  local_peer_of (some addr) daemon_transport_listen = ok addr
  local_peer_of none none =
      err
        "--direction remote-uses-local needs --local-peer or [daemon].transport_listen; run `ssh_proxy daemon install --scope system --elevate` first"
  local_peer_of none (some addr) =
      if is_loopback addr
      then err (
          "local daemon transport "
          ++ display addr
          ++ " is loopback-only; pass --local-peer <reachable-ip:port>, or use a public/TLS/QUIC relay route when this machine is behind NAT")
      else ok addr

  unfoldable pub resolve_remote_use_local_peer : RemoteUseInput Addr → Result String Addr
  resolve_remote_use_local_peer i = local_peer_of i.local_peer i.daemon_transport_listen

  abbrev decision : RemoteUsePlan Addr → Option String → Result String (RemoteUseDecision Addr)
  decision plan fallback_reason = ok (record { plan = plan; fallback_reason = fallback_reason })

  abbrev direct_only : Result String Addr → Result String (RemoteUseDecision Addr)
  direct_only (ok addr) = decision (direct addr) none
  direct_only (err e) = err e

  abbrev direct_first : Result String Addr → Result String (RemoteUseDecision Addr)
  direct_first (ok addr) = decision (direct addr) none
  direct_first (err e) = decision reverse_link (some e)

  abbrev decide_by :
      RemoteUseConnectMode → Result String Addr → Result String (RemoteUseDecision Addr)
  decide_by reverse_link peer = decision reverse_link (some "--connect-mode reverse-link requested")
  decide_by direct peer = direct_only peer
  decide_by auto peer = direct_first peer

  unfoldable pub decide_remote_use : RemoteUseInput Addr → Result String (RemoteUseDecision Addr)
  unfolding resolve_remote_use_local_peer
  decide_remote_use i = decide_by i.connect_mode (resolve_remote_use_local_peer i)
