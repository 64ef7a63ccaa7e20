-- ===== src/Route/Preflight/Fallback.antt =====
-- When a preflight moves a route to SSH: crates/ssh-proxy-route/src/preflight.rs and decision.rs.
use Prim.Native.String.{String}
use ssh_proxy.Base.{ℕ, ◌≡◌, ◌⊎◌, Bool, true, false, List, Option, some, ok, get_elem?}
use ssh_proxy.Route.Mode.{TransportMode, is_auto, parse_transport_mode}
use ssh_proxy.Route.Decision.{TransportSelection, TransportSelectionPolicyInput}
use ssh_proxy.Route.Preflight.{RouteFallbackInput}

module _ {A : Type 0} (p : A → Bool) where
  -- An element of the list passes the test.
  abbrev pub Some : List A → Type 0
  Some xs = (k : ℕ) × (x : A) × (get_elem? xs k ≡ some x) × (p x ≡ true)

-- The user asked for a transport, on the command line or in the profile.
abbrev pub IsExplicit : {Addr : Type 0} → TransportSelectionPolicyInput Addr → Type 0
IsExplicit i =
    (is_auto i.requested_transport ≡ false)
    ⊎ ((value : String) × (t : TransportMode) × (i.profile_remote_transport ≡ some value)
        × (parse_transport_mode value ≡ ok t)
        × (is_auto t ≡ false))

abbrev pub fallback_input : Option String → TransportSelection → RouteFallbackInput
fallback_input recommended s = record {
  recommended_fallback = recommended;
  current_transport = s.transport;
  selection_source = some s.source;
}
