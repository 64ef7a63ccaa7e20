-- ===== src/Route/Tests.antt =====
-- The route decisions at concrete inputs.
use Prim.Native.String.{String}
use ssh_proxy.Base.{Bool, ◌≡◌, ◌⊎◌, refl, true, false, [], ◌∷◌, none, some, ok}
use ssh_proxy.Route.Mode.{auto, plain_tcp, parse_transport_mode}
use ssh_proxy.Route.Decision.{
  TransportSelection, TransportSelectionPolicyInput, transport_selection_policy,
}
use ssh_proxy.Route.Decision.Chain.{Chooses, configured, transport_selection_policy-Chooses}
use ssh_proxy.Route.Decision.Trust.{Asked, NoOther, transport_selection_policy-PlainOnlyIf}
use ssh_proxy.Route.Preflight.{RouteProbeResult, RoutePreflightInput}
use text.Mathlib.Text.{◌==◌}
use ssh_proxy.Route.RemoteUse.{
  RemoteUseConnectMode, RemoteUsePlan, RemoteUseInput, decide_remote_use,
}
use ssh_proxy.Route.RemoteUse.Reachable.{Reachable, decide_remote_use-Reachable}
use ssh_proxy.Route.Pool.{RoutePoolSizingInput}

-- An address stands for itself.
abbrev show : String → String
show addr = addr

-- The default is plain TCP, and it is allowed.
abbrev lab : TransportSelectionPolicyInput String
lab = record {
  requested_transport = auto;
  profile_remote_transport = some "Auto";
  defaults_remote_transport = some "PLAIN-tcp";
  remote_quic = none;
  remote_tls = none;
  allow_plain_tcp = true;
  cli_allow_plain_tcp = false;
  profile_allow_plain_tcp = none;
  defaults_allow_plain_tcp = some true;
  tcp_target_present = false;
  remote_side_listens = false;
  persistent_peer_ready = true;
}

abbrev lab_selection : TransportSelection
lab_selection = record {
  transport = plain_tcp;
  source = "benchmark-tuned default";
  reason =
      "plain TCP peer transport is enabled by benchmark-tuned default; use only for lab or private trusted links";
}

lab_selected : transport_selection_policy show lab ≡ ok lab_selection
unfolding transport_selection_policy parse_transport_mode
lab_selected = refl

transport_selection_policy-Chooses_example : Chooses (transport_selection_policy show lab) plain_tcp
unfolding configured parse_transport_mode
transport_selection_policy-Chooses_example =
    transport_selection_policy-Chooses show lab (some auto) (some plain_tcp) refl refl

transport_selection_policy-PlainOnlyIf_example : Asked lab ⊎ NoOther lab
transport_selection_policy-PlainOnlyIf_example =
    transport_selection_policy-PlainOnlyIf show lab lab_selection lab_selected refl

-- The profile asks for TLS by another of its names.
abbrev profiled : TransportSelectionPolicyInput String
profiled = record lab { profile_remote_transport = some "tls_tcp" }

abbrev failed_tls : RouteProbeResult
failed_tls = record {
  protocol = "tls-tcp";
  endpoint = some "192.0.2.1:9";
  reachable = some false;
  status = "connect-failed";
  message = "connection refused";
}

abbrev probes : RoutePreflightInput
probes = record { timeout_ms = 1500; results = failed_tls ∷ [] }

abbrev sizing : RoutePoolSizingInput
sizing = record {
  has_tcp_target = false;
  command_transport_pool_size = none;
  profile_transport_pool_size = some 0;
  default_transport_pool_size = some 9;
  command_ssh_session_pool_size = none;
  profile_ssh_session_pool_size = none;
  default_ssh_session_pool_size = some 7;
  command_workload_hint = none;
  profile_workload_hint = none;
  default_workload_hint = none;
}

-- The daemon listens where the remote node can reach it.
abbrev exposed : RemoteUseInput String
exposed = record {
  connect_mode = RemoteUseConnectMode.auto;
  local_peer = none;
  daemon_transport_listen = some "192.0.2.8:19080";
}

abbrev loops : String → Bool
loops addr = addr == "127.0.0.1:19080"

decide_remote_use-Reachable_example : Reachable show loops exposed "192.0.2.8:19080"
unfolding decide_remote_use
decide_remote_use-Reachable_example =
    decide_remote_use-Reachable show loops exposed
      (record { plan = RemoteUsePlan.direct "192.0.2.8:19080"; fallback_reason = none })
      "192.0.2.8:19080" refl refl
