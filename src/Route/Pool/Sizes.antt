-- ===== src/Route/Pool/Sizes.antt =====
-- The sizes of the pools: crates/ssh-proxy-route/src/policy.rs.
use ssh_proxy.Base.{
  ℕ, ◌≤◌, ◌≡◌, refl, Bool, true, false, Option, none, some, or_option, unwrap_or, is_some, max, ltb,
  arith,
}
use ssh_proxy.Route.Pool.{
  WorkloadHint, large, concurrent, mixed, RoutePoolSizingInput, RouteTransportPoolPolicy,
  RouteSshSessionPoolPolicy, implicit_transport_pool_size, workload_hint_policy, transport_pool_of,
  plan_transport_pool, ssh_session_pool_of, plan_ssh_session_pool,
}

-- The setting that counts: the command line's before the profile's before the default.
abbrev pub setting : Option ℕ → Option ℕ → Option ℕ → Option ℕ
setting command profile default = or_option (or_option command profile) default

-- A size that is set counts, from 1 on; without one, the workload decides.
abbrev pub transport_size : Option ℕ → Bool → WorkloadHint → ℕ
transport_size (some value) has_tcp_target hint = max value 1
transport_size none has_tcp_target hint = implicit_transport_pool_size has_tcp_target hint

size_ge_1 : (b : Bool) (hint : WorkloadHint) → 1 ≤ implicit_transport_pool_size b hint
size_ge_1 b large = omega arith
size_ge_1 true concurrent = omega arith
size_ge_1 false concurrent = omega arith
size_ge_1 true mixed = omega arith
size_ge_1 false mixed = omega arith

implicit_size_le_4 : (b : Bool) (hint : WorkloadHint) → implicit_transport_pool_size b hint ≤ 4
implicit_size_le_4 b large = omega arith
implicit_size_le_4 true concurrent = omega arith
implicit_size_le_4 false concurrent = omega arith
implicit_size_le_4 true mixed = omega arith
implicit_size_le_4 false mixed = omega arith

abbrev pub IsTransportSize : RoutePoolSizingInput → Option ℕ → RouteTransportPoolPolicy → Type 0
IsTransportSize i s p =
    (1 ≤ p.size)
    × (p.size ≤ max 4 (unwrap_or s 0))
    × (p.size ≡ transport_size s i.has_tcp_target (workload_hint_policy i))

transport_pool_of-IsTransportSize :
    (i : RoutePoolSizingInput) (command profile default : Option ℕ)
    → IsTransportSize i
        (setting command profile default)
        (transport_pool_of i command profile default)
transport_pool_of-IsTransportSize i (some value) profile default = (omega arith, omega arith, refl)
transport_pool_of-IsTransportSize i none (some value) default = (omega arith, omega arith, refl)
transport_pool_of-IsTransportSize i none none (some value) = (omega arith, omega arith, refl)
transport_pool_of-IsTransportSize i none none none =
    let le = implicit_size_le_4 i.has_tcp_target (workload_hint_policy i) in
    (size_ge_1 i.has_tcp_target (workload_hint_policy i), omega (arith, le), refl)

-- A pool of transports has one connection at least, and four at most unless more are set. Its size is
-- the setting that counts (the command line's before the profile's before the default), raised to 1 if
-- it is 0; where nothing is set it is what the workload asks for.
plan_transport_pool-IsTransportSize :
    (i : RoutePoolSizingInput)
    → let s =
        setting i.command_transport_pool_size i.profile_transport_pool_size
          i.default_transport_pool_size in
      IsTransportSize i s (plan_transport_pool i)
unfolding plan_transport_pool
plan_transport_pool-IsTransportSize i =
    transport_pool_of-IsTransportSize i i.command_transport_pool_size i.profile_transport_pool_size
      i.default_transport_pool_size

-- `explicit` is what the command line or the profile sets, `s` the setting that counts.
abbrev pub IsSessionSize : Option ℕ → Option ℕ → RouteSshSessionPoolPolicy → Type 0
IsSessionSize explicit s p =
    (1 ≤ p.size)
    × (p.size ≤ max 2 (unwrap_or explicit 0))
    × (is_some p.warning ≡ ltb 2 (unwrap_or s 0))

ssh_session_pool_of-IsSessionSize :
    (b : Bool) (command profile default : Option ℕ)
    → IsSessionSize
        (or_option command profile)
        (setting command profile default)
        (ssh_session_pool_of b command profile default)
ssh_session_pool_of-IsSessionSize b (some value) profile default =
    (omega arith, omega arith, ground arith)
ssh_session_pool_of-IsSessionSize b none (some value) default =
    (omega arith, omega arith, ground arith)
ssh_session_pool_of-IsSessionSize b none none (some value) =
    (omega arith, omega arith, ground arith)
ssh_session_pool_of-IsSessionSize true none none none = (omega arith, omega arith, refl)
ssh_session_pool_of-IsSessionSize false none none none = (omega arith, omega arith, refl)

-- A pool of SSH sessions has one session at least. More than two come only from the command line or
-- from the profile, never from a default. There is a warning exactly if the setting that counts is
-- above two.
plan_ssh_session_pool-IsSessionSize :
    (i : RoutePoolSizingInput)
    → let explicit = or_option i.command_ssh_session_pool_size i.profile_ssh_session_pool_size in
      IsSessionSize explicit
        (or_option explicit i.default_ssh_session_pool_size)
        (plan_ssh_session_pool i)
unfolding plan_ssh_session_pool
plan_ssh_session_pool-IsSessionSize i =
    ssh_session_pool_of-IsSessionSize i.has_tcp_target i.command_ssh_session_pool_size
      i.profile_ssh_session_pool_size i.default_ssh_session_pool_size
