-- ===== src/Route/Decision.antt =====
-- Which transport a route takes: `transport_selection_policy` of
-- crates/ssh-proxy-route/src/decision.rs. Socket addresses belong to the standard library's parser and
-- printer: their type and their `Display` are arguments.
pub mod Chain
pub mod Trust
use Prim.Native.String.{String, ◌++◌}
use ssh_proxy.Base.{
  Bool, true, false, ◌&&◌, ◌||◌, Option, none, some, or_option, is_some, unwrap_or, Result, ok, err,
  if◌then◌else◌, ◌>>=◌,
}
use ssh_proxy.Route.Mode.{
  TransportMode, auto, ssh_native, quic, tls_tcp, plain_tcp, tcp, is_auto, is_exec,
  remote_transport_name, parse_transport_mode,
}

pub record TransportSelection : Type 0 where
  pub transport : TransportMode
  pub source : String
  pub reason : String

pub record ConnectionDecision : Type 0 where
  pub selected_transport : String
  pub source : String
  pub reason : String
  pub endpoint : Option String
  pub requires_external_ssh : Bool

abbrev pub from_transport : TransportMode → String → String → ConnectionDecision
from_transport transport source reason = record {
  selected_transport = remote_transport_name transport;
  source = source;
  reason = reason;
  endpoint = none;
  requires_external_ssh = is_exec transport;
}

pub record PeerReadinessInput : Type 0 where
  pub has_remote_path : Bool
  pub has_control_endpoint : Bool
  pub has_transport : Bool
  pub has_tls_transport : Bool
  pub has_quic_transport : Bool

abbrev pub persistent_peer_ready : PeerReadinessInput → Bool
persistent_peer_ready i =
    i.has_remote_path
    && i.has_control_endpoint
    && (i.has_transport || i.has_tls_transport || i.has_quic_transport)

abbrev pub direct_endpoint_for_peer :
    {Addr : Type 0} → Option Addr → Option Addr → Option Addr → Option Addr
direct_endpoint_for_peer transport tls_transport quic_transport =
    or_option (or_option tls_transport quic_transport) transport

pub record TransportSelectionPolicyInput (Addr : Type 0) : Type 0 where
  pub requested_transport : TransportMode
  pub profile_remote_transport : Option String
  pub defaults_remote_transport : Option String
  pub remote_quic : Option Addr
  pub remote_tls : Option Addr
  pub allow_plain_tcp : Bool
  pub cli_allow_plain_tcp : Bool
  pub profile_allow_plain_tcp : Option Bool
  pub defaults_allow_plain_tcp : Option Bool
  pub tcp_target_present : Bool
  pub remote_side_listens : Bool
  pub persistent_peer_ready : Bool

-- `flag == Some(true)`.
abbrev is_some_true : Option Bool → Bool
is_some_true (some b) = b
is_some_true none = false

abbrev selection : TransportMode → String → String → Result String TransportSelection
selection transport source reason =
    ok (record { transport = transport; source = source; reason = reason })

abbrev plain_tcp_selection_reason : String → String
plain_tcp_selection_reason source =
    "plain TCP peer transport is enabled by " ++ source
    ++ "; use only for lab or private trusted links"

abbrev select_plain_tcp : String → Result String TransportSelection
select_plain_tcp source = selection plain_tcp source (plain_tcp_selection_reason source)

module _ {Addr : Type 0} where
  abbrev plain_tcp_auto_source : TransportSelectionPolicyInput Addr → Option String
  plain_tcp_auto_source i =
      if i.cli_allow_plain_tcp
      then some "cli"
      else if is_some_true i.profile_allow_plain_tcp
      then some "profile"
      else if is_some_true i.defaults_allow_plain_tcp
      then some "benchmark-tuned default"
      else none

  abbrev workload : TransportSelectionPolicyInput Addr → String
  workload i =
      if i.tcp_target_present
      then "fixed --tcp-target route"
      else if i.remote_side_listens
      then "remote-owned proxy route"
      else "SOCKS/HTTP proxy route"

  -- The policy from its last step to its first, each with the rest of the function behind it.
  unfoldable pub from_ssh : TransportSelectionPolicyInput Addr → Result String TransportSelection
  from_ssh i = selection ssh_native "topology" (
      "no reachable direct peer transport is configured for this "
      ++ workload i
      ++ "; using ssh-native direct-tcpip as the SSH-only simple egress default")

  unfoldable pub from_peer : TransportSelectionPolicyInput Addr → Result String TransportSelection
  unfolding from_ssh
  from_peer i =
      if i.persistent_peer_ready
      then selection tcp "peer-default"
          "persistent remote peer is recorded; using SPX over Rust SSH direct-tcpip to the peer transport"
      else from_ssh i

  unfoldable pub from_plain_tcp :
      TransportSelectionPolicyInput Addr → Result String TransportSelection
  unfolding from_peer
  from_plain_tcp i =
      if i.allow_plain_tcp
      then select_plain_tcp (unwrap_or (plain_tcp_auto_source i) "cli")
      else from_peer i

  unfoldable pub from_default_mode :
      TransportSelectionPolicyInput Addr → TransportMode → Result String TransportSelection
  unfolding from_plain_tcp
  from_default_mode i auto = from_plain_tcp i
  from_default_mode i plain_tcp =
      if i.allow_plain_tcp
      then select_plain_tcp (unwrap_or (plain_tcp_auto_source i) "benchmark-tuned default")
      else from_plain_tcp i
  from_default_mode i transport =
      selection transport "defaults" "selected by [defaults].remote_transport"

  unfoldable pub from_defaults :
      TransportSelectionPolicyInput Addr → Option String → Result String TransportSelection
  unfolding from_plain_tcp from_default_mode
  from_defaults i none = from_plain_tcp i
  from_defaults i (some value) = parse_transport_mode value >>= from_default_mode i

module _ {Addr : Type 0} (display : Addr → String) where
  unfoldable pub from_quic :
      TransportSelectionPolicyInput Addr → Option Addr → Result String TransportSelection
  unfolding from_defaults
  from_quic i none = from_defaults i i.defaults_remote_transport
  from_quic i (some addr) = selection quic "topology" (
      "direct QUIC peer endpoint "
      ++ display addr
      ++ " is configured; framed QUIC is selected while quic-native remains opt-in")

  unfoldable pub from_tls :
      TransportSelectionPolicyInput Addr → Option Addr → Result String TransportSelection
  unfolding from_quic
  from_tls i none = from_quic i i.remote_quic
  from_tls i (some addr) = selection tls_tcp "topology" (
      "direct TLS/TCP peer endpoint "
      ++ display addr
      ++ " is configured; TLS is the production direct default")

  unfoldable pub from_profile_mode :
      TransportSelectionPolicyInput Addr → TransportMode → Result String TransportSelection
  unfolding from_tls
  from_profile_mode i transport =
      if is_auto transport
      then from_tls i i.remote_tls
      else selection transport "profile" "selected by target profile remote_transport"

  unfoldable pub from_profile :
      TransportSelectionPolicyInput Addr → Option String → Result String TransportSelection
  unfolding from_tls from_profile_mode
  from_profile i none = from_tls i i.remote_tls
  from_profile i (some value) = parse_transport_mode value >>= from_profile_mode i

  unfoldable pub transport_selection_policy :
      TransportSelectionPolicyInput Addr → Result String TransportSelection
  unfolding from_profile
  transport_selection_policy i =
      if is_auto i.requested_transport
      then from_profile i i.profile_remote_transport
      else selection i.requested_transport "cli"
          ("selected by --remote-transport " ++ remote_transport_name i.requested_transport)
