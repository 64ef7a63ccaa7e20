-- ===== src/Route/Conflict/Tests.antt =====
-- The conflicts and the status of routes at concrete inputs.
use ssh_proxy.Base.{◌≡◌, ◌↔◌, refl, true, List, [], ◌∷◌, none, some, All}
use ssh_proxy.Wire.Bytes.{Bytes, ascii}
use ssh_proxy.Daemon.Json.{Json, text, texts, object, end, field}
use ssh_proxy.Route.Conflict.{
  RouteConflictRoute, RouteConflictInput, available, listener_reserved, route_specs_match_values,
  decide_route_conflict,
}
use ssh_proxy.Route.Status.{
  RouteStats, default_route_stats, readiness_phase, readiness_action, from_stats,
}
use ssh_proxy.Route.Conflict.Free.{IsFree, decide_route_conflict_iff}

abbrev reverse_spec : List Bytes → Json
reverse_spec identity = object (
    field (ascii "direction") (text (ascii "reverse")) (
      field (ascii "reverse")
        (object (
          field (ascii "identity") (texts identity)
            (field (ascii "target") (text (ascii "edge")) end)))
        end))

-- The keys that were found do not count.
identity_is_ignored :
    route_specs_match_values (reverse_spec []) (reverse_spec (ascii "id_rsa" ∷ [])) ≡ true
unfolding route_specs_match_values
identity_is_ignored = refl

abbrev running_route : RouteConflictRoute
running_route = record {
  id = ascii "route-a";
  direction = ascii "forward";
  listen = some (ascii "127.0.0.1:18080");
  peer = some (ascii "edge-a");
  spec = reverse_spec [];
}

abbrev other_route : RouteConflictInput
other_route = record {
  id = some (ascii "route-b");
  direction = ascii "forward";
  listen = ascii "127.0.0.1:18080";
  peer = some (ascii "edge-b");
  spec = reverse_spec [];
}

listener_is_taken :
    decide_route_conflict (running_route ∷ []) other_route ≡ listener_reserved (ascii "route-a")
unfolding decide_route_conflict
listener_is_taken = refl

decide_route_conflict_iff_example :
    (decide_route_conflict (running_route ∷ []) other_route ≡ available)
    ↔ All (IsFree other_route) (running_route ∷ [])
decide_route_conflict_iff_example = decide_route_conflict_iff (running_route ∷ []) other_route

abbrev failed_stats : RouteStats
failed_stats = record (default_route_stats 10) { state = ascii "failed" }

-- The phases of readiness, with what is to be done.
failed_is_restarted :
    ((from_stats (ascii "route-1") none failed_stats).phase ≡ ascii "failed")
    × ((from_stats (ascii "route-1") none failed_stats).next_action ≡ ascii "restart-route")
unfolding readiness_phase readiness_action
failed_is_restarted = (refl, refl)

started_waits :
    (from_stats (ascii "route-1") none (default_route_stats 10)).next_action ≡ ascii "wait"
unfolding readiness_phase readiness_action
started_waits = refl
