-- ===== src/Remote/Egress/Upstream.antt =====
-- An upstream proxy that is a proxy of this program: what the remote end writes to it, and how it takes
-- the answer (crates/ssh-proxy/src/remote/egress.rs, crates/ssh-proxy-transport/src/proxy).
use ssh_proxy.Base.{
  ℕ, ◌%◌, ◌<◌, ◌≤◌, ◌≡◌, refl, sym, ap, ◌∙◌, true, [], ◌∷◌, ◌++◌, ok, ltb-false_of_le, length,
  length-append, append_assoc, append-nil, arith,
}
use ssh_proxy.Wire.Bytes.{Bytes, u16_mod, u16_be, is_utf8}
use ssh_proxy.Socks.{
  IpAddr, v4, v6, SocketAddr, connect, succeeded, reply, address_octets, end_of_stream,
  negotiate_no_auth, read_request,
}
use ssh_proxy.Socks.Requests.{
  split-append, negotiate_no_auth-greeting, domain, request_octets, read_request-request_octets,
}
use ssh_proxy.Http.Text.{equal}
use ssh_proxy.Remote.Egress.{greeting, accepted, socks5_request, socks5_handshake}

-- An address has four octets, or sixteen.
abbrev pub IsAddr : IpAddr → Type 0
IsAddr (v4 octets) = length octets ≡ 4
IsAddr (v6 octets) = length octets ≡ 16

accepted-address :
    (ip : IpAddr) (port : ℕ) (tunnel : Bytes)
    → IsAddr ip
    → accepted (5 ∷ 0 ∷ 0 ∷ (address_octets ip ++ (u16_be port ++ tunnel))) ≡ ok tunnel
accepted-address (v4 octets) port tunnel h =
    rw
      (
        ← append_assoc octets (u16_be port) tunnel,
        split-append end_of_stream 6 (octets ++ u16_be port) tunnel
            (omega (arith, length-append octets (u16_be port))),
      )
      refl
accepted-address (v6 octets) port tunnel h =
    rw
      (
        ← append_assoc octets (u16_be port) tunnel,
        split-append end_of_stream 18 (octets ++ u16_be port) tunnel
            (omega (arith, length-append octets (u16_be port))),
      )
      refl

socks5_handshake-agreed :
    (host : Bytes) (port : ℕ) (s : Bytes)
    → length host ≤ 255
    → socks5_handshake host port (5 ∷ 0 ∷ s) ≡ (greeting ++ socks5_request host port, accepted s)
unfolding socks5_handshake equal
socks5_handshake-agreed host port s l =
    rw (split-append end_of_stream 2 (5 ∷ 0 ∷ []) s refl, ltb-false_of_le 255 (length host) l) refl

socks5_request-octets :
    (host : Bytes) (port : ℕ)
    → length host ≤ 255
    → socks5_request host port ≡ request_octets connect (domain host) port
socks5_request-octets host port l =
    let e : length host % 256 ≡ length host = omega arith in rw e refl

-- The host that is named goes through the proxy: a SOCKS5 front reads, of what the remote end
-- writes, first the method, which it accepts, and then a request to connect to that host and port,
-- with nothing behind it; and the remote end, given the answers of the front, finds the tunnel in
-- the stream. The name is in UTF-8 and has at most 255 octets, the port is in range, and the
-- address in the answer has four or sixteen octets.
pub socks5_handshake-read_request :
    (show_ip : IpAddr → Bytes) (host : Bytes) (port : ℕ) (addr : SocketAddr) (tunnel : Bytes)
    → is_utf8 host ≡ true
    → length host ≤ 255
    → port < u16_mod
    → IsAddr addr.ip
    → let (sent, result) =
        socks5_handshake host port ((5 ∷ 0 ∷ []) ++ (reply succeeded addr ++ tunnel)) in
      (sent ≡ greeting ++ socks5_request host port)
      × (negotiate_no_auth sent ≡ (5 ∷ 0 ∷ [], ok (socks5_request host port)))
      × (read_request show_ip (socks5_request host port)
          ≡ ok (record { command = connect; host = host; port = port }, []))
      × (result ≡ ok tunnel)
socks5_handshake-read_request show_ip host port addr tunnel u l p a =
    let replied = append_assoc (address_octets addr.ip) (u16_be addr.port) tunnel in
    rw
      (
        replied,
        socks5_handshake-agreed host port
            (5 ∷ 0 ∷ 0 ∷ (address_octets addr.ip ++ (u16_be addr.port ++ tunnel))) l,
      )
      (
        refl,
        negotiate_no_auth-greeting (0 ∷ []) (socks5_request host port),
        rw (socks5_request-octets host port l) (
            ap (read_request show_ip) (sym (append-nil (request_octets connect (domain host) port)))
            ∙ read_request-request_octets show_ip connect (domain host) port [] u p),
        accepted-address addr.ip addr.port tunnel a,
      )
