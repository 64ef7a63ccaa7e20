-- ===== src/Route/Preflight.antt =====
-- The probe of the direct transports before a route starts, and the fallback to SSH:
-- crates/ssh-proxy-route/src/preflight.rs. Where the code keeps a probe's JSON, the probe stands.
pub mod Fallback
use Prim.Native.String.{String}
use text.Mathlib.Text.{◌==◌}
use ssh_proxy.Base.{
  ℕ, Bool, true, false, not, ◌&&◌, ◌||◌, List, [], ◌∷◌, Option, none, some, is_some, ltb, length,
  filter, if◌then◌else◌,
}
use ssh_proxy.Route.Text.{one_of}
use ssh_proxy.Route.Mode.{TransportMode, ssh_native, is_auto, some_one_of}

pub record RouteProbeResult : Type 0 where
  pub protocol : String
  pub endpoint : Option String
  pub reachable : Option Bool
  pub status : String
  pub message : String

abbrev pub is_direct_probe_protocol : String → Bool
is_direct_probe_protocol protocol = one_of protocol ("quic" ∷ "tls-tcp" ∷ "plain-tcp" ∷ [])

abbrev is_some_false : Option Bool → Bool
is_some_false (some b) = not b
is_some_false none = false

abbrev is_some_true : Option Bool → Bool
is_some_true (some b) = b
is_some_true none = false

abbrev pub direct_failed : RouteProbeResult → Bool
direct_failed r = is_direct_probe_protocol r.protocol && is_some_false r.reachable

abbrev pub direct_reachable : RouteProbeResult → Bool
direct_reachable r = is_direct_probe_protocol r.protocol && is_some_true r.reachable

pub record RoutePreflightInput : Type 0 where
  pub timeout_ms : ℕ
  pub results : List RouteProbeResult

pub record RoutePreflightDecision : Type 0 where
  pub timeout_ms : ℕ
  pub results : List RouteProbeResult
  pub candidate_failures : List RouteProbeResult
  pub recommended_fallback : Option String
  pub selected_reason : String
  pub repair_hint : String

abbrev pub candidate_failures : List RouteProbeResult → List RouteProbeResult
candidate_failures results = filter direct_failed results

unfoldable pub decide_route_preflight : RoutePreflightInput → RoutePreflightDecision
decide_route_preflight i =
    let failures = candidate_failures i.results in
    let direct_failures = length failures in
    let direct_successes = length (filter direct_reachable i.results) in
    let recommended_fallback =
      if ltb 0 direct_failures && not (ltb 0 direct_successes) then some "ssh-native" else none in
    record {
      timeout_ms = i.timeout_ms;
      results = i.results;
      candidate_failures = failures;
      recommended_fallback = recommended_fallback;
      selected_reason =
          if is_some recommended_fallback
          then "all probed direct peer transports failed; SSH fallback is recommended before starting the route"
          else if ltb 0 direct_successes
          then "at least one direct peer transport was reachable before route start"
          else "no failing direct peer transport was observed before route start";
      repair_hint =
          if is_some recommended_fallback
          then "use ssh-native fallback, or publish a peer endpoint reachable from this client"
          else if not (ltb 0 direct_failures)
          then "none"
          else "publish a reachable peer endpoint, adjust firewall/NAT, or switch to an SSH fallback transport";
    }

pub record RouteFallbackInput : Type 0 where
  pub recommended_fallback : Option String
  pub current_transport : TransportMode
  pub selection_source : Option String

pub record RouteFallbackDecision : Type 0 where
  pub selected_transport : Option TransportMode
  pub selection_source : Option String
  pub selection_reason : Option String
  pub next_action : Option String

-- `RouteFallbackDecision::none()`.
abbrev pub no_fallback : RouteFallbackDecision
no_fallback = record {
  selected_transport = none;
  selection_source = none;
  selection_reason = none;
  next_action = none;
}

abbrev pub fallback_to_ssh : RouteFallbackDecision
fallback_to_ssh = record {
  selected_transport = some ssh_native;
  selection_source = some "route-preflight";
  selection_reason =
      some "direct private transport preflight failed; selected SSH native direct-tcpip fallback";
  next_action = some "using ssh-native fallback; no user action required";
}

abbrev may_override : TransportMode → Option String → Bool
may_override current_transport selection_source =
    is_auto current_transport
    || some_one_of selection_source ("topology" ∷ "benchmark-tuned default" ∷ [])

abbrev fall_back : RouteFallbackInput → Option String → RouteFallbackDecision
fall_back i none = no_fallback
fall_back i (some recommended) =
    if not (may_override i.current_transport i.selection_source)
    then no_fallback
    else if not (recommended == "ssh-native") && not (recommended == "ssh-direct-tcpip")
    then no_fallback
    else fallback_to_ssh

unfoldable pub decide_route_fallback : RouteFallbackInput → RouteFallbackDecision
decide_route_fallback i = fall_back i i.recommended_fallback
