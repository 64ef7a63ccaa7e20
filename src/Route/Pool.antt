-- ===== src/Route/Pool.antt =====
-- How many connections a route keeps: crates/ssh-proxy-route/src/policy.rs, with `WorkloadHint` of
-- crates/ssh-proxy-core/src/model.rs.
pub mod Sizes
use Prim.Native.String.{String, ◌++◌}
use ssh_proxy.Base.{
  ℕ, Bool, true, false, Option, none, some, or_option, unwrap_or, ltb, ◌==◌, max, min,
  if◌then◌else◌,
}
use ssh_proxy.Route.Text.{decimal}

pub data WorkloadHint : Type 0 where
  large concurrent mixed : WorkloadHint

pub record RoutePoolSizingInput : Type 0 where
  pub has_tcp_target : Bool
  pub command_transport_pool_size : Option ℕ
  pub profile_transport_pool_size : Option ℕ
  pub default_transport_pool_size : Option ℕ
  pub command_ssh_session_pool_size : Option ℕ
  pub profile_ssh_session_pool_size : Option ℕ
  pub default_ssh_session_pool_size : Option ℕ
  pub command_workload_hint : Option WorkloadHint
  pub profile_workload_hint : Option WorkloadHint
  pub default_workload_hint : Option WorkloadHint

pub record RouteTransportPoolPolicy : Type 0 where
  pub size : ℕ
  pub source : String
  pub reason : String
  pub pool_policy : String
  pub workload_hint : WorkloadHint

pub record RouteSshSessionPoolPolicy : Type 0 where
  pub size : ℕ
  pub source : String
  pub reason : String
  pub warning : Option String

abbrev pub pool_policy_name : WorkloadHint → String
pool_policy_name large = "large"
pool_policy_name concurrent = "concurrent"
pool_policy_name mixed = "mixed"

abbrev pool_reason : String → ℕ → ℕ → String
pool_reason source requested effective =
    if requested == effective
    then "loaded from " ++ source
    else "loaded from " ++ source ++ "; clamped to minimum 1"

abbrev pub ssh_session_pool_warning : ℕ → Option String
ssh_session_pool_warning size =
    if ltb 2 size
    then some
        "ssh-native session pools above 2 can lose to handshake and scheduling overhead; benchmark before relying on this explicit value"
    else none

abbrev pub workload_hint_policy : RoutePoolSizingInput → WorkloadHint
workload_hint_policy i =
    unwrap_or
      (or_option (or_option i.command_workload_hint i.profile_workload_hint)
        i.default_workload_hint)
      (if i.has_tcp_target then large else concurrent)

abbrev pub implicit_transport_pool_size : Bool → WorkloadHint → ℕ
implicit_transport_pool_size has_tcp_target large = 1
implicit_transport_pool_size has_tcp_target concurrent = if has_tcp_target then 1 else 4
implicit_transport_pool_size has_tcp_target mixed = if has_tcp_target then 1 else 4

abbrev implicit_transport_pool_reason : Bool → WorkloadHint → String
implicit_transport_pool_reason true large =
    "pool_policy=large: implicit single-worker default for fixed --tcp-target routes"
implicit_transport_pool_reason true hint =
    "pool_policy="
    ++ pool_policy_name hint
    ++ ": fixed --tcp-target routes stay at pool=1 unless --transport-pool-size is explicit"
implicit_transport_pool_reason false large =
    "pool_policy=large: single-worker default favors one large transfer"
implicit_transport_pool_reason false concurrent =
    "pool_policy=concurrent: implicit pool=4 default for multi-flow SOCKS/HTTP proxy routes"
implicit_transport_pool_reason false mixed =
    "pool_policy=mixed: implicit pool=4 default balances large and concurrent proxy traffic"

abbrev explicit_transport_pool :
    RoutePoolSizingInput → String → String → ℕ → RouteTransportPoolPolicy
explicit_transport_pool i source setting value = record {
  size = max value 1;
  source = source;
  reason = pool_reason setting value (max value 1);
  pool_policy = "explicit";
  workload_hint = workload_hint_policy i;
}

abbrev implicit_transport_pool : RoutePoolSizingInput → WorkloadHint → RouteTransportPoolPolicy
implicit_transport_pool i hint = record {
  size = implicit_transport_pool_size i.has_tcp_target hint;
  source = "implicit";
  reason = implicit_transport_pool_reason i.has_tcp_target hint;
  pool_policy = pool_policy_name hint;
  workload_hint = hint;
}

-- The three early returns, on the three settings.
abbrev pub transport_pool_of :
    RoutePoolSizingInput → Option ℕ → Option ℕ → Option ℕ → RouteTransportPoolPolicy
transport_pool_of i (some value) profile default =
    explicit_transport_pool i "command-line" "--transport-pool-size" value
transport_pool_of i none (some value) default =
    explicit_transport_pool i "profile" "target profile transport_pool_size" value
transport_pool_of i none none (some value) =
    explicit_transport_pool i "defaults" "[defaults].transport_pool_size" value
transport_pool_of i none none none = implicit_transport_pool i (workload_hint_policy i)

unfoldable pub plan_transport_pool : RoutePoolSizingInput → RouteTransportPoolPolicy
plan_transport_pool i =
    transport_pool_of i i.command_transport_pool_size i.profile_transport_pool_size
      i.default_transport_pool_size

abbrev pub implicit_ssh_session_pool_size : Bool → ℕ
implicit_ssh_session_pool_size has_tcp_target = if has_tcp_target then 1 else 2

abbrev implicit_ssh_session_pool_reason : Bool → String
implicit_ssh_session_pool_reason has_tcp_target =
    if has_tcp_target
    then "implicit ssh-native single-session default for fixed --tcp-target routes"
    else "implicit ssh-native two-session default for multi-flow SOCKS/HTTP proxy routes"

abbrev explicit_ssh_session_pool : String → String → ℕ → RouteSshSessionPoolPolicy
explicit_ssh_session_pool source setting value = record {
  size = max value 1;
  source = source;
  reason = pool_reason setting value (max value 1);
  warning = ssh_session_pool_warning (max value 1);
}

abbrev default_ssh_session_pool : ℕ → RouteSshSessionPoolPolicy
default_ssh_session_pool value =
    let requested = max value 1 in
    let size = min requested 2 in
    record {
      size = size;
      source = "defaults";
      reason =
          if requested == size
          then pool_reason "[defaults].ssh_session_pool_size" value size
          else "loaded from [defaults].ssh_session_pool_size="
            ++ decimal value
            ++ "; capped to pool=2 because only command-line/profile benchmark experiments may exceed the implicit-safe ssh-native range";
      warning =
          if ltb size requested
          then some
              "ssh-native defaults above 2 are not auto-selected; use --ssh-session-pool-size or a target profile for explicit benchmark experiments"
          else ssh_session_pool_warning size;
    }

abbrev pub ssh_session_pool_of : Bool → Option ℕ → Option ℕ → Option ℕ → RouteSshSessionPoolPolicy
ssh_session_pool_of has_tcp_target (some value) profile default =
    explicit_ssh_session_pool "command-line" "--ssh-session-pool-size" value
ssh_session_pool_of has_tcp_target none (some value) default =
    explicit_ssh_session_pool "profile" "target profile ssh_session_pool_size" value
ssh_session_pool_of has_tcp_target none none (some value) = default_ssh_session_pool value
ssh_session_pool_of has_tcp_target none none none = record {
  size = implicit_ssh_session_pool_size has_tcp_target;
  source = "implicit";
  reason = implicit_ssh_session_pool_reason has_tcp_target;
  warning = none;
}

unfoldable pub plan_ssh_session_pool : RoutePoolSizingInput → RouteSshSessionPoolPolicy
plan_ssh_session_pool i =
    ssh_session_pool_of i.has_tcp_target i.command_ssh_session_pool_size
      i.profile_ssh_session_pool_size i.default_ssh_session_pool_size
