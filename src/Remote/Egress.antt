-- ===== src/Remote/Egress.antt =====
-- How the remote end reaches a target: crates/ssh-proxy/src/remote/egress.rs, with
-- crates/ssh-proxy/src/remote/egress/proxy_endpoint.rs. What the upstream proxy answers is an
-- argument, and so are the resolver and the operating system's answers to `connect`.
pub mod Upstream
pub mod Tunnel
use ssh_proxy.Base.{
  ℕ, zero, suc, ◌+◌, ◌-◌, ◌%◌, Bool, true, false, not, ◌||◌, ◌&&◌, List, [], ◌∷◌, ◌++◌, Option,
  none, some, Result, ok, err, ◌>>=◌, ◌>>◌, ensure, ok_or, ltb, ◌==◌, if◌then◌else◌, length, take,
  drop, or_option,
}
use ssh_proxy.Wire.Bytes.{Bytes, ascii, u16_be}
use ssh_proxy.Wire.Source.{Source}
use ssh_proxy.Socks.{IpAddr, v4, v6, SocketAddr, split, end_of_stream, SocksError}
use ssh_proxy.Http.Text.{before, rsplit_once, strip_prefix, starts_with, equal}
use ssh_proxy.Http.Text.Numbers.{show_uint}
use ssh_proxy.Http.Headers.{blank_line}
use ssh_proxy.Http.Authority.{AuthorityError, bracketed, plain}

pub data EgressError : Type 0 where
  no_resolved_addresses no_auth_rejected host_name_too_long connect_refused : EgressError
  connect_reply address_type : ℕ → EgressError
  failed_to_connect : List SocketAddr → EgressError
  unsupported_scheme : Bytes → EgressError
  reply_ends reply_broken missing_host : EgressError
  endpoint : AuthorityError → EgressError

-- proxy_endpoint.rs

pub record ProxyEndpoint : Type 0 where
  pub host : Bytes
  pub port : ℕ

abbrev is_authority_end : ℕ → Bool
is_authority_end b = (b == b'/') || (b == b'?') || (b == b'#')

-- What stands behind the last at sign.
abbrev behind_user : Bytes → Option (Bytes × Bytes) → Bytes
behind_user authority none = authority
behind_user authority (some (user, rest)) = rest

abbrev named : Result AuthorityError (Bytes × ℕ) → Result EgressError ProxyEndpoint
named (err e) = err (endpoint e)
named (ok ([], port)) = err missing_host
named (ok (b ∷ host, port)) = ok (record { host = b ∷ host; port = port })

unfoldable pub endpoint_of : Bytes → ℕ → Result EgressError ProxyEndpoint
unfolding bracketed plain
endpoint_of [] default_port = err missing_host
endpoint_of (c ∷ authority) default_port =
    if c == b'['
    then named (bracketed default_port authority)
    else named (plain default_port (c ∷ authority))

unfoldable pub parse_proxy_endpoint : Bytes → ℕ → Result EgressError ProxyEndpoint
unfolding before rsplit_once endpoint_of
parse_proxy_endpoint value default_port =
    let authority = before is_authority_end value in
    endpoint_of (behind_user authority (rsplit_once b'@' authority)) default_port

-- The direct way

pub data Attempt : Type 0 where
  connected refused timed_out : Attempt

abbrev is_v4 : SocketAddr → Bool
is_v4 a = elim a.ip [ v4 octets ↦ true | v6 octets ↦ false ]

abbrev same_ip : IpAddr → IpAddr → Bool
same_ip (v4 a) (v4 b) = equal a b
same_ip (v6 a) (v6 b) = equal a b
same_ip _ _ = false

abbrev same_addr : SocketAddr → SocketAddr → Bool
same_addr a b = same_ip a.ip b.ip && (a.port == b.port)

-- `sort_by_key` keeps the order of equal keys: the IPv4 addresses, and the others behind them.
unfoldable pub v4_first : List SocketAddr → List SocketAddr → List SocketAddr
v4_first [] later = later
v4_first (a ∷ addrs) later =
    let front = v4_first addrs later in if is_v4 a then a ∷ front else front

unfoldable pub others : List SocketAddr → List SocketAddr
others [] = []
others (a ∷ addrs) = let rest = others addrs in if is_v4 a then rest else a ∷ rest

abbrev pub sort_by_family : List SocketAddr → List SocketAddr
sort_by_family addrs = v4_first addrs (others addrs)

-- `dedup`: of equal neighbours the first is kept.
unfoldable pub dedup_behind : SocketAddr → List SocketAddr → List SocketAddr
unfolding equal
dedup_behind a [] = []
dedup_behind a (b ∷ addrs) =
    let same = dedup_behind a addrs in
    let new = b ∷ dedup_behind b addrs in if same_addr a b then same else new

unfoldable pub dedup : List SocketAddr → List SocketAddr
unfolding dedup_behind
dedup [] = []
dedup (a ∷ addrs) = a ∷ dedup_behind a addrs

module _ (connect : SocketAddr → Attempt) where
  -- The first address that is connected to, or the ones that were tried.
  unfoldable pub try_all : List SocketAddr → List SocketAddr → Result EgressError SocketAddr
  try_all tried [] = err (failed_to_connect tried)
  try_all tried (a ∷ addrs) =
      let rest = try_all (tried ++ a ∷ []) addrs in
      elim (connect a) [ connected ↦ ok a | refused ↦ rest | timed_out ↦ rest ]

  abbrev try_some : List SocketAddr → Result EgressError SocketAddr
  try_some [] = err no_resolved_addresses
  try_some (a ∷ addrs) = try_all [] (a ∷ addrs)

  unfoldable pub connect_direct_tcp : List SocketAddr → Result EgressError SocketAddr
  unfolding try_all v4_first others dedup
  connect_direct_tcp resolved = try_some (dedup (sort_by_family resolved))

-- An upstream HTTP proxy

abbrev pub crlf : Bytes
crlf = b'\r' ∷ b'\n' ∷ []

abbrev pub host_port : Bytes → ℕ → Bytes
host_port host port = host ++ b':' ∷ show_uint port

abbrev pub connect_line : Bytes → ℕ → Bytes
connect_line host port = ascii "CONNECT " ++ (host_port host port ++ ascii " HTTP/1.1")

abbrev pub host_line : Bytes → ℕ → Bytes
host_line host port = ascii "Host: " ++ host_port host port

-- What is written to the proxy.
unfoldable pub connect_request : Bytes → ℕ → Bytes
connect_request host port =
    connect_line host port ++ (crlf ++ (host_line host port ++ (crlf ++ crlf)))

unfoldable pub ends_with : Bytes → Bytes → Bool
unfolding equal
ends_with s t = equal (drop (length t - length s) t) s

abbrev is_success : Bytes → Bool
is_success response =
    starts_with (ascii "HTTP/1.1 2") response || starts_with (ascii "HTTP/1.0 2") response

-- The answer, octet by octet and at most so many: up to its blank line, or all there is.
unfoldable pub read_response : ℕ → Bytes → Bytes → Bool → Result EgressError (Bytes × Bytes)
unfolding ends_with
read_response zero response ahead broken = ok (response, ahead)
read_response (suc room) response [] broken = if broken then err reply_broken else ok (response, [])
read_response (suc room) response (b ∷ ahead) broken =
    let more = read_response room (response ++ b ∷ []) ahead broken in
    if ends_with blank_line (response ++ b ∷ []) then ok (response ++ b ∷ [], ahead) else more

-- The handshake: what stands in the stream behind it.
unfoldable pub http_handshake : Source → Result EgressError Source
unfolding read_response starts_with
http_handshake s = do
  (response, rest) ← read_response 8192 [] s.ahead s.broken
  ensure (is_success response) connect_refused
  ok (record s { ahead = rest })

-- An upstream SOCKS5 proxy

abbrev taken : Result SocksError (Bytes × Bytes) → Result EgressError (Bytes × Bytes)
taken (err e) = err reply_ends
taken (ok r) = ok r

-- `read_exact`.
abbrev read_exact : ℕ → Bytes → Result EgressError (Bytes × Bytes)
read_exact n s = taken (split end_of_stream n s)

abbrev skip : ℕ → Bytes → Result EgressError Bytes
skip n s = do (skipped, rest) ← read_exact n s; ok rest

abbrev skip_name : Bytes → Result EgressError Bytes
skip_name [] = err reply_ends
skip_name (len ∷ s) = skip (len + 2) s

abbrev skip_address : ℕ → Bytes → Result EgressError Bytes
skip_address ty s =
    if ty == 1
    then skip 6 s
    else if ty == 3
    then skip_name s
    else if ty == 4
    then skip 18 s
    else err (address_type ty)

abbrev pub greeting : Bytes
greeting = 5 ∷ 1 ∷ 0 ∷ []

abbrev pub socks5_request : Bytes → ℕ → Bytes
socks5_request host port = 5 ∷ 1 ∷ 0 ∷ 3 ∷ length host % 256 ∷ host ++ u16_be port

-- The four octets in front of the address.
abbrev pub accepted : Bytes → Result EgressError Bytes
accepted (version ∷ code ∷ reserved ∷ ty ∷ s) =
    if not (version == 5) || not (code == 0) then err (connect_reply code) else skip_address ty s
accepted _ = err reply_ends

abbrev agreed : Bytes → Bool
agreed method = equal method (5 ∷ 0 ∷ [])

-- What follows the answer to the greeting.
abbrev request_with :
    Bytes → ℕ → Result EgressError (Bytes × Bytes) → Bytes × Result EgressError Bytes
request_with host port (err e) = (greeting, err e)
request_with host port (ok (method, s)) =
    if not (agreed method)
    then (greeting, err no_auth_rejected)
    else if ltb 255 (length host)
    then (greeting, err host_name_too_long)
    else (greeting ++ socks5_request host port, accepted s)

-- What is written to the proxy, and the stream behind its answers.
unfoldable pub socks5_handshake : Bytes → ℕ → Bytes → Bytes × Result EgressError Bytes
unfolding split equal
socks5_handshake host port s = request_with host port (read_exact 2 s)

-- Which way is taken for a target.
pub data Way : Type 0 where
  direct : Way
  via_http via_socks5 : ProxyEndpoint → Way

abbrev http_way : Bytes → Result EgressError Way
http_way addr = parse_proxy_endpoint addr 8080 >>= λ e. ok (via_http e)

abbrev socks_way : Bytes → Option Bytes → Result EgressError Way
socks_way proxy none = err (unsupported_scheme proxy)
socks_way proxy (some addr) = parse_proxy_endpoint addr 1080 >>= λ e. ok (via_socks5 e)

abbrev upstream_way : Bytes → Option Bytes → Option Bytes → Result EgressError Way
upstream_way proxy (some addr) socks = http_way addr
upstream_way proxy none socks = socks_way proxy socks

unfoldable pub connect_via_upstream_proxy : Bytes → Result EgressError Way
unfolding strip_prefix parse_proxy_endpoint
connect_via_upstream_proxy proxy =
    upstream_way proxy (strip_prefix (ascii "http://") proxy)
      (or_option (strip_prefix (ascii "socks5h://") proxy) (strip_prefix (ascii "socks5://") proxy))

unfoldable pub connect_tcp : Option Bytes → Result EgressError Way
unfolding connect_via_upstream_proxy
connect_tcp none = ok direct
connect_tcp (some proxy) = connect_via_upstream_proxy proxy
