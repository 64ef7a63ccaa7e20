-- ===== src/Route/Conflict.antt =====
-- Whether a route can be started beside those that there are: crates/ssh-proxy-route/src/conflict.rs. Texts
-- are octets.
pub mod Free
pub mod Tests
use ssh_proxy.Base.{Bool, true, false, ◌&&◌, ◌||◌, List, [], ◌∷◌, Option, none, some, if◌then◌else◌}
use ssh_proxy.Wire.Bytes.{Bytes, ascii}
use ssh_proxy.Http.Text.{equal, eq_ignore_ascii_case}
use ssh_proxy.Daemon.Json.{
  Json, null, flag, number, text, texts, object, Fields, end, field, same_json,
}

pub record RouteConflictRoute : Type 0 where
  pub id : Bytes
  pub direction : Bytes
  pub listen : Option Bytes
  pub peer : Option Bytes
  pub spec : Json

pub record RouteConflictInput : Type 0 where
  pub id : Option Bytes
  pub direction : Bytes
  pub listen : Bytes
  pub peer : Option Bytes
  pub spec : Json

pub data RouteConflictDecision : Type 0 where
  available : RouteConflictDecision
  reuse_existing different_spec listener_reserved : Bytes → RouteConflictDecision

-- `Map::remove`, and what `get_mut` does to the object under a key.
unfoldable pub remove : Bytes → Fields → Fields
unfolding equal
remove key end = end
remove key (field k v rest) =
    let rest' = remove key rest in if equal k key then rest' else field k v rest'

abbrev pub without_identity : Json → Json
without_identity (object fields) = object (remove (ascii "identity") fields)
without_identity value = value

unfoldable pub in_reverse : Fields → Fields
unfolding equal remove
in_reverse end = end
in_reverse (field k v rest) =
    if equal k (ascii "reverse")
    then field k (without_identity v) rest
    else field k v (in_reverse rest)

-- Whether the direction of a specification is `reverse`.
abbrev pub is_reverse_value : Json → Bool
is_reverse_value (text t) = eq_ignore_ascii_case t (ascii "reverse")
is_reverse_value _ = false

unfoldable pub has_reverse : Fields → Bool
unfolding equal eq_ignore_ascii_case
has_reverse end = false
has_reverse (field k v rest) =
    if equal k (ascii "direction") then is_reverse_value v else has_reverse rest

unfoldable pub normalized_route_spec : Json → Json
unfolding in_reverse has_reverse
normalized_route_spec (object fields) =
    if has_reverse fields then object (in_reverse fields) else object fields
normalized_route_spec value = value

unfoldable pub route_specs_match_values : Json → Json → Bool
unfolding normalized_route_spec same_json
route_specs_match_values left right =
    same_json (normalized_route_spec left) (normalized_route_spec right)

-- `==` on an optional text.
abbrev pub equal? : Option Bytes → Bytes → Bool
equal? none t = false
equal? (some s) t = equal s t

abbrev pub peer_matches : Option Bytes → Option Bytes → Bool
peer_matches none peer = true
peer_matches (some peer) theirs = equal? theirs peer

abbrev pub same_peer : Option Bytes → Option Bytes → Bool
same_peer none theirs = false
same_peer (some peer) theirs = equal? theirs peer

unfoldable pub route_matches : RouteConflictRoute → RouteConflictInput → Bool
unfolding equal route_specs_match_values
route_matches route candidate =
    equal route.direction candidate.direction
    && equal? route.listen candidate.listen
    && peer_matches candidate.peer route.peer
    && route_specs_match_values route.spec candidate.spec

unfoldable pub route_reserves_listener : RouteConflictRoute → RouteConflictInput → Bool
unfolding equal
route_reserves_listener route candidate =
    equal route.direction candidate.direction
    && equal? route.listen candidate.listen
    && (equal candidate.direction (ascii "forward") || same_peer candidate.peer route.peer)

-- `iter().find`.
abbrev pub find : (RouteConflictRoute → Bool) → List RouteConflictRoute → Option RouteConflictRoute
find p [] = none
find p (r ∷ rs) = if p r then some r else find p rs

abbrev pub has_id : Bytes → RouteConflictRoute → Bool
has_id id route = equal route.id id

abbrev pub by_id : List RouteConflictRoute → Option Bytes → Option RouteConflictRoute
by_id existing none = none
by_id existing (some id) = find (has_id id) existing

abbrev pub reserved : Option RouteConflictRoute → RouteConflictDecision
reserved none = available
reserved (some route) = listener_reserved route.id

abbrev pub decided :
    RouteConflictInput
    → Option RouteConflictRoute
    → Option RouteConflictRoute
    → RouteConflictDecision
decided candidate (some route) reserving =
    if route_matches route candidate then reuse_existing route.id else different_spec route.id
decided candidate none reserving = reserved reserving

unfoldable pub decide_route_conflict :
    List RouteConflictRoute → RouteConflictInput → RouteConflictDecision
unfolding route_matches route_reserves_listener equal
decide_route_conflict existing candidate =
    decided candidate (by_id existing candidate.id)
      (find (λ route. route_reserves_listener route candidate) existing)
