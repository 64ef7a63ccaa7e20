-- ===== src/Route/Mode.antt =====
-- Transport modes, their names and what is said of them: `TransportMode` of
-- crates/ssh-proxy-core/src/model.rs and crates/ssh-proxy-route/src/decision.rs. A JSON value here is
-- a text or `Value::Null`: an optional text.
pub mod Names
use Prim.Native.String.{String, ◌++◌}
use ssh_proxy.Base.{
  Bool, true, false, ◌&&◌, ◌||◌, List, [], ◌∷◌, Option, none, some, Result, ok, err, if◌then◌else◌,
}
use ssh_proxy.Route.Text.{one_of, to_ascii_lowercase}

pub data TransportMode : Type 0 where
  auto ssh_native quic_native quic tls_tcp plain_tcp exec tcp : TransportMode

-- `mode == TransportMode::Auto`.
abbrev pub is_auto : TransportMode → Bool
is_auto auto = true
is_auto _ = false

-- `matches!(transport, TransportMode::Exec)`.
abbrev pub is_exec : TransportMode → Bool
is_exec exec = true
is_exec _ = false

abbrev pub remote_transport_name : TransportMode → String
remote_transport_name auto = "auto"
remote_transport_name ssh_native = "ssh-native"
remote_transport_name quic_native = "quic-native"
remote_transport_name quic = "quic"
remote_transport_name tls_tcp = "tls-tcp"
remote_transport_name plain_tcp = "plain-tcp"
remote_transport_name exec = "ssh-exec"
remote_transport_name tcp = "ssh-direct-tcpip"

abbrev pub direct_transport_policy : TransportMode → Option String
direct_transport_policy tls_tcp = some "production_direct"
direct_transport_policy plain_tcp = some "lab_baseline"
direct_transport_policy quic = some "experimental"
direct_transport_policy quic_native = some "experimental"
direct_transport_policy _ = none

abbrev pub is_tls : TransportMode → Bool
is_tls tls_tcp = true
is_tls _ = false

abbrev client_auth : Bool → Bool → String
client_auth true true = "mutual_tls"
client_auth false false = "server_auth"
client_auth _ _ = "invalid_client_auth_config"

abbrev pub tls_peer_auth_mode : TransportMode → Bool → Bool → Option String
tls_peer_auth_mode transport has_client_cert has_client_key =
    if is_tls transport then some (client_auth has_client_cert has_client_key) else none

abbrev pub ssh_mode_name : TransportMode → Option String
ssh_mode_name ssh_native = some "native-direct-tcpip"
ssh_mode_name tcp = some "spx-over-ssh-direct"
ssh_mode_name exec = some "ssh-exec-helper"
ssh_mode_name _ = none

abbrev explicit_reason : TransportMode → Option String
explicit_reason ssh_native = some "explicit_user_choice"
explicit_reason tcp = some "explicit_user_choice"
explicit_reason exec = some "explicit_user_choice"
explicit_reason _ = none

abbrev default_reason : TransportMode → Option String
default_reason ssh_native = some "simple_egress"
default_reason tcp = some "daemon_policy_required"
default_reason exec = some "ssh_exec_compatibility"
default_reason _ = none

-- `matches!(source, Some(a | b | ...))`.
abbrev pub some_one_of : Option String → List String → Bool
some_one_of none ts = false
some_one_of (some s) ts = one_of s ts

abbrev pub ssh_data_plane_reason : TransportMode → Option String → Option String
ssh_data_plane_reason transport selection_source =
    if some_one_of selection_source ("cli" ∷ "profile" ∷ [])
    then explicit_reason transport
    else default_reason transport

-- The `match` of `parse_transport_mode` on the lower-case text.
unfoldable pub parse_lower : String → Result String TransportMode
parse_lower v =
    if one_of v ("auto" ∷ [])
    then ok auto
    else if one_of v ("quic-native" ∷ "quic_native" ∷ "native-quic" ∷ "native_quic" ∷ [])
    then ok quic_native
    else if one_of v ("ssh-native" ∷ "ssh_native" ∷ "native-ssh" ∷ "native_ssh" ∷ [])
    then ok ssh_native
    else if one_of v ("quic" ∷ [])
    then ok quic
    else if one_of v ("tls-tcp" ∷ "tls_tcp" ∷ "tls" ∷ [])
    then ok tls_tcp
    else if one_of v ("plain-tcp" ∷ "plain_tcp" ∷ "tcp-plain" ∷ "direct-tcp" ∷ "direct_tcp" ∷ [])
    then ok plain_tcp
    else if one_of v ("exec" ∷ [])
    then ok exec
    else if one_of v ("tcp" ∷ [])
    then ok tcp
    else err v

-- The error carries the text that its message quotes.
unfoldable pub parse_transport_mode : String → Result String TransportMode
unfolding parse_lower to_ascii_lowercase
parse_transport_mode value = parse_lower (to_ascii_lowercase value)
