-- ===== src/Socks.antt =====
-- SOCKS5 of crates/ssh-proxy-transport/src/proxy/socks5.rs: the negotiation, the request, the reply
-- and the UDP packets. A text is its octets. Rust's parser and printer of IP addresses are an argument.
pub mod Requests
pub mod Datagrams
pub mod Tests
use ssh_proxy.Base.{
  ℕ, ◌+◌, ◌≡◌, Bool, true, false, not, ◌&&◌, ◌||◌, List, [], ◌∷◌, ◌++◌, Option, none, some, Result,
  ok, err, ◌>>=◌, ◌>>◌, ensure, ltb, leb, ◌==◌, length, take, drop, if◌then◌else◌,
}
use ssh_proxy.Wire.Bytes.{Bytes, u16_be, from_be, is_utf8}

pub data SocksError : Type 0 where
  end_of_stream no_auth_not_offered not_utf8 invalid_udp_packet fragmented : SocksError
  truncated_ipv4 truncated_domain_length truncated_domain_name truncated_ipv6 : SocksError
  truncated_udp_port hostname_too_long : SocksError
  invalid_version invalid_request_version unsupported_command invalid_reserved : ℕ → SocksError
  unsupported_address_type : ℕ → SocksError

pub data Command : Type 0 where
  connect bind udp_associate : Command

pub data Reply : Type 0 where
  succeeded host_unreachable command_not_supported : Reply

-- An address by its octets: four, or sixteen.
pub data IpAddr : Type 0 where
  v4 v6 : Bytes → IpAddr

pub record SocketAddr : Type 0 where
  pub ip : IpAddr
  pub port : ℕ

pub record Request : Type 0 where
  pub command : Command
  pub host : Bytes
  pub port : ℕ

pub record UdpPacket : Type 0 where
  pub host : Bytes
  pub port : ℕ
  pub payload : Bytes

-- `bytes.get(pos..pos + n)` with the position behind it, or `read_exact`.
unfoldable pub split : SocksError → ℕ → Bytes → Result SocksError (Bytes × Bytes)
split e n s = if leb n (length s) then ok (take n s, drop n s) else err e

-- One octet of the stream.
abbrev pub read_u8 : Bytes → Result SocksError (ℕ × Bytes)
read_u8 [] = err end_of_stream
read_u8 (b ∷ s) = ok (b, s)

abbrev pub contains : ℕ → Bytes → Bool
contains x [] = false
contains x (b ∷ s) = (b == x) || contains x s

-- The client's part of the negotiation: the methods, and what follows.
unfoldable pub read_methods : Bytes → Result SocksError (Bytes × Bytes)
unfolding split
read_methods s = do
  (version, s₁) ← read_u8 s
  ensure (version == 5) (invalid_version version)
  (methods_len, s₂) ← read_u8 s₁
  split end_of_stream methods_len s₂

abbrev select_method : Result SocksError (Bytes × Bytes) → Bytes × Result SocksError Bytes
select_method (err e) = ([], err e)
select_method (ok (methods, s)) =
    if contains 0 methods then (5 ∷ 0 ∷ [], ok s) else (5 ∷ 0xff ∷ [], err no_auth_not_offered)

-- What is written, and the stream behind the negotiation.
unfoldable pub negotiate_no_auth : Bytes → Bytes × Result SocksError Bytes
unfolding read_methods
negotiate_no_auth s = select_method (read_methods s)

abbrev pub command_octet : Command → ℕ
command_octet connect = 1
command_octet bind = 2
command_octet udp_associate = 3

abbrev read_command : ℕ → Result SocksError Command
read_command c =
    if c == 1
    then ok connect
    else if c == 2
    then ok bind
    else if c == 3
    then ok udp_associate
    else err (unsupported_command c)

abbrev utf8_text : Bytes → Result SocksError Bytes
utf8_text name = if is_utf8 name then ok name else err not_utf8

abbrev pub address_octets : IpAddr → Bytes
address_octets (v4 octets) = 1 ∷ octets
address_octets (v6 octets) = 4 ∷ octets

abbrev reply_octet : Reply → ℕ
reply_octet succeeded = 0
reply_octet host_unreachable = 4
reply_octet command_not_supported = 7

-- What is written.
abbrev pub reply : Reply → SocketAddr → Bytes
reply r addr = 5 ∷ reply_octet r ∷ 0 ∷ address_octets addr.ip ++ u16_be addr.port

module _ (show_ip : IpAddr → Bytes) where
  -- `read_addr` behind the octet of the address type.
  unfoldable pub read_addr_of : ℕ → Bytes → Result SocksError (Bytes × Bytes)
  unfolding split
  read_addr_of ty s =
      if ty == 1
      then (do (octets, rest) ← split end_of_stream 4 s; ok (show_ip (v4 octets), rest))
      else if ty == 3
      then (do
        (len, s₁) ← read_u8 s
        (name, rest) ← split end_of_stream len s₁
        host ← utf8_text name
        ok (host, rest))
      else if ty == 4
      then (do (octets, rest) ← split end_of_stream 16 s; ok (show_ip (v6 octets), rest))
      else err (unsupported_address_type ty)

  unfoldable pub read_addr : Bytes → Result SocksError (Bytes × Bytes)
  unfolding read_addr_of
  read_addr s = read_u8 s >>= λ (ty, s₁). read_addr_of ty s₁

  -- `Request::read_from`: the request, and what follows it.
  unfoldable pub read_request : Bytes → Result SocksError (Request × Bytes)
  unfolding read_addr split
  read_request s = do
    (version, s₁) ← read_u8 s
    ensure (version == 5) (invalid_request_version version)
    (c, s₂) ← read_u8 s₁
    command ← read_command c
    (reserved, s₃) ← read_u8 s₂
    ensure (reserved == 0) (invalid_reserved reserved)
    (host, s₄) ← read_addr s₃
    (port, rest) ← split end_of_stream 2 s₄
    ok (record { command = command; host = host; port = from_be 0 port }, rest)

  -- The host of a datagram, and what follows.
  unfoldable pub parse_host : ℕ → Bytes → Result SocksError (Bytes × Bytes)
  unfolding split
  parse_host ty s =
      if ty == 1
      then (do (octets, rest) ← split truncated_ipv4 4 s; ok (show_ip (v4 octets), rest))
      else if ty == 3
      then (do
        (len, s₁) ← split truncated_domain_length 1 s
        (name, rest) ← split truncated_domain_name (from_be 0 len) s₁
        host ← utf8_text name
        ok (host, rest))
      else if ty == 4
      then (do (octets, rest) ← split truncated_ipv6 16 s; ok (show_ip (v6 octets), rest))
      else err (unsupported_address_type ty)

  unfoldable pub parse_target : ℕ → Bytes → Result SocksError UdpPacket
  unfolding parse_host split
  parse_target ty s = do
    (host, s₁) ← parse_host ty s
    (port, rest) ← split truncated_udp_port 2 s₁
    ok (record { host = host; port = from_be 0 port; payload = rest })

  unfoldable pub parse_udp_packet : Bytes → Result SocksError UdpPacket
  unfolding parse_target
  parse_udp_packet (a ∷ b ∷ frag ∷ ty ∷ s) =
      if not (a == 0 && b == 0)
      then err invalid_udp_packet
      else if not (frag == 0)
      then err fragmented
      else parse_target ty s
  parse_udp_packet _ = err invalid_udp_packet

module _ (parse_ip : Bytes → Option IpAddr) where
  abbrev host_octets : Option IpAddr → Bytes → Result SocksError Bytes
  host_octets (some ip) host = ok (address_octets ip)
  host_octets none host =
      if ltb 255 (length host) then err hostname_too_long else ok (3 ∷ length host ∷ host)

  unfoldable pub build_udp_packet : Bytes → ℕ → Bytes → Result SocksError Bytes
  build_udp_packet host port payload = do
    target ← host_octets (parse_ip host) host
    ok (0 ∷ 0 ∷ 0 ∷ target ++ (u16_be port ++ payload))
