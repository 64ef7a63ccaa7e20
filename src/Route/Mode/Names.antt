-- ===== src/Route/Mode/Names.antt =====
-- Which names of transports are read back: `remote_transport_name` and `parse_transport_mode` of
-- crates/ssh-proxy-route/src/decision.rs.
use Prim.Native.String.{String}
use ssh_proxy.Base.{◌≡◌, refl, Result, ok, err}
use ssh_proxy.Route.Mode.{
  TransportMode, auto, ssh_native, quic_native, quic, tls_tcp, plain_tcp, exec, tcp,
  remote_transport_name, parse_transport_mode,
}

-- What a name reads as.
abbrev pub read_back : TransportMode → Result String TransportMode
read_back exec = err "ssh-exec"
read_back tcp = err "ssh-direct-tcpip"
read_back t = ok t

-- The printed name of a transport is parsed to this transport, but for two: the names that are
-- printed for `Exec` and `Tcp` are rejected.
parse_transport_mode-remote_transport_name :
    (t : TransportMode) → parse_transport_mode (remote_transport_name t) ≡ read_back t
unfolding parse_transport_mode
parse_transport_mode-remote_transport_name auto = refl
parse_transport_mode-remote_transport_name ssh_native = refl
parse_transport_mode-remote_transport_name quic_native = refl
parse_transport_mode-remote_transport_name quic = refl
parse_transport_mode-remote_transport_name tls_tcp = refl
parse_transport_mode-remote_transport_name plain_tcp = refl
parse_transport_mode-remote_transport_name exec = refl
parse_transport_mode-remote_transport_name tcp = refl
