-- ===== src/Remote/Tests.antt =====
-- Ways to a target: the cases of crates/ssh-proxy/src/remote/egress.rs and of
-- crates/ssh-proxy/src/remote/egress/proxy_endpoint.rs.
use ssh_proxy.Base.{◌≡◌, refl, true, false, [], ◌∷◌, ◌++◌, some, ok, err, arith, if◌then◌else◌}
use ssh_proxy.Wire.Bytes.{Bytes, ascii, is_utf8}
use ssh_proxy.Socks.{
  IpAddr, v4, v6, SocketAddr, connect, succeeded, reply, negotiate_no_auth, read_request,
}
use ssh_proxy.Http.Text.{has}
use ssh_proxy.Http.Request
use ssh_proxy.Http.Request.{read_from}
use ssh_proxy.Http.Request.Connect.{at_end, ahead_of}
use ssh_proxy.Http.Authority.{invalid_bracketed, invalid_port}
use ssh_proxy.Remote.Egress.{
  missing_host, endpoint, via_socks5, parse_proxy_endpoint, greeting, socks5_request,
  socks5_handshake, connect_request, http_handshake, host_port, connect_tcp,
}
use ssh_proxy.Remote.Egress.Upstream.{socks5_handshake-read_request}
use ssh_proxy.Remote.Egress.Tunnel.{read_from-connect_request}

with_path :
    parse_proxy_endpoint (ascii "user:pass@proxy.local:3128/path?x=1") 8080
    ≡ ok (record { host = ascii "proxy.local"; port = 3128 })
unfolding parse_proxy_endpoint
with_path = refl

bracketed_endpoint :
    parse_proxy_endpoint (ascii "[::1]:1080/") 8080
    ≡ ok (record { host = ascii "::1"; port = 1080 })
unfolding parse_proxy_endpoint
bracketed_endpoint = refl

no_host : parse_proxy_endpoint (ascii ":1080") 8080 ≡ err missing_host
unfolding parse_proxy_endpoint
no_host = refl

open_bracket : parse_proxy_endpoint (ascii "[::1") 8080 ≡ err (endpoint invalid_bracketed)
unfolding parse_proxy_endpoint
open_bracket = refl

no_number : parse_proxy_endpoint (ascii "proxy.local:abc") 8080 ≡ err (endpoint invalid_port)
unfolding parse_proxy_endpoint
no_number = refl

by_socks :
    connect_tcp (some (ascii "socks5h://10.0.0.1"))
    ≡ ok (via_socks5 (record { host = ascii "10.0.0.1"; port = 1080 }))
unfolding connect_tcp
by_socks = refl

abbrev any_ip : IpAddr → Bytes
any_ip (v4 octets) = octets
any_ip (v6 octets) = octets

abbrev anywhere : SocketAddr
anywhere = record { ip = v4 (0 ∷ 0 ∷ 0 ∷ 0 ∷ []); port = 0 }

name_is_text : is_utf8 (ascii "example.com") ≡ true
unfolding is_utf8
name_is_text = refl

socks5_handshake-read_request_example :
    let (sent, result) =
      socks5_handshake
        (ascii "example.com")
        9443
        ((5 ∷ 0 ∷ []) ++ (reply succeeded anywhere ++ ascii "ready")) in
    (sent ≡ greeting ++ socks5_request (ascii "example.com") 9443)
    × (negotiate_no_auth sent ≡ (5 ∷ 0 ∷ [], ok (socks5_request (ascii "example.com") 9443)))
    × (read_request any_ip (socks5_request (ascii "example.com") 9443)
        ≡ ok (record { command = connect; host = ascii "example.com"; port = 9443 }, []))
    × (result ≡ ok (ascii "ready"))
socks5_handshake-read_request_example =
    socks5_handshake-read_request any_ip (ascii "example.com") 9443 anywhere (ascii "ready")
      name_is_text (omega arith) (omega arith) refl

read_from-connect_request_example :
    read_from (λ k. 3) (ahead_of (connect_request (ascii "example.com") 8443))
    ≡ ok (
      if has b':' (ascii "example.com")
          then Request.connect (host_port (ascii "example.com") 8443) 443
          else Request.connect (ascii "example.com") 8443,
      at_end,
    )
read_from-connect_request_example =
    read_from-connect_request (λ k. 3) b'e' (ascii "xample.com") 8443 (ground arith)
      (λ e. omega (arith, e)) (omega arith) (omega arith)

-- The answer of a proxy leaves the tunnel in the stream.
established :
    http_handshake (record {
      ahead = ascii "HTTP/1.1 200 OK" ++ (13 ∷ 10 ∷ 13 ∷ 10 ∷ ascii "ready");
      broken = false;
    })
    ≡ ok (record { ahead = ascii "ready"; broken = false })
unfolding http_handshake
established = refl
