-- ===== src/Socks/Datagrams.antt =====
-- UDP packets: crates/ssh-proxy-transport/src/proxy/socks5.rs.
use ssh_proxy.Base.{
  ℕ, ◌<◌, ◌≡◌, refl, sym, true, Bool-cases, inl, inr, [], ◌∷◌, ◌++◌, Option, none, some,
  Option-cases, ok, ◌>>=◌, ltb, length, arith,
}
use ssh_proxy.Wire.Bytes.{Bytes, u16_mod, u16_be, from_be, from_be-u16_be, is_utf8}
use ssh_proxy.Socks.{
  truncated_ipv4, truncated_ipv6, truncated_domain_length, truncated_domain_name,
  truncated_udp_port, IpAddr, v4, v6, split, address_octets, parse_host, parse_target,
  parse_udp_packet, build_udp_packet,
}
use ssh_proxy.Socks.Requests.{
  split-append, Destination, address, domain, destination_octets, IsDestination, destination_host,
}

from_be_octet : (n : ℕ) → from_be 0 (n ∷ []) ≡ n
unfolding from_be
from_be_octet n = omega arith

module _ (show_ip : IpAddr → Bytes) where
  parse_host-destination_octets :
      (d : Destination) (rest : Bytes)
      → IsDestination d
      → parse_udp_packet show_ip (0 ∷ 0 ∷ 0 ∷ destination_octets d ++ rest) ≡ (
          split truncated_udp_port 2 rest >>= λ (port, payload).
          ok (record {
            host = destination_host show_ip d;
            port = from_be 0 port;
            payload = payload;
          }))
  unfolding parse_udp_packet parse_target parse_host
  parse_host-destination_octets (address (v4 octets)) rest h =
      rw (split-append truncated_ipv4 4 octets rest h) refl
  parse_host-destination_octets (address (v6 octets)) rest h =
      rw (split-append truncated_ipv6 16 octets rest h) refl
  parse_host-destination_octets (domain name) rest h =
      rw
        (
          split-append truncated_domain_length 1 (length name ∷ []) (name ++ rest) refl,
          from_be_octet (length name),
          split-append truncated_domain_name (length name) name rest refl,
          h,
        )
        refl

  parse_udp_packet-octets :
      (d : Destination) (port : ℕ) (payload : Bytes)
      → IsDestination d
      → port < u16_mod
      → parse_udp_packet show_ip (0 ∷ 0 ∷ 0 ∷ destination_octets d ++ (u16_be port ++ payload))
        ≡ ok (record { host = destination_host show_ip d; port = port; payload = payload })
  parse_udp_packet-octets d port payload h lt =
      rw
        (
          parse_host-destination_octets d (u16_be port ++ payload) h,
          split-append truncated_udp_port 2 (u16_be port) payload refl,
          from_be-u16_be port lt,
        )
        refl

-- What the parser takes an address for has four octets, or sixteen.
abbrev pub ParsesIps : (Bytes → Option IpAddr) → Type 0
ParsesIps parse_ip = (s : Bytes) (ip : IpAddr) → parse_ip s ≡ some ip → IsDestination (address ip)

module _ (parse_ip : Bytes → Option IpAddr) (show_ip : IpAddr → Bytes) where
  -- Where a host leads: to the address that it is the text of, or to the name.
  abbrev leads_to : Option IpAddr → Bytes → Destination
  leads_to (some ip) host = address ip
  leads_to none host = domain host

  -- The host as the other end sees it: an address as it is printed, a name as it is.
  abbrev pub shown : Bytes → Bytes
  shown host = destination_host show_ip (leads_to (parse_ip host) host)

  -- A packet that was built is parsed to its port, its payload and its host, which is an address as it
  -- is printed or a name unchanged; the host is UTF-8, and the parser of addresses gives four or
  -- sixteen octets.
  pub parse_udp_packet-build_udp_packet :
      (host packet : Bytes) (port : ℕ) (payload : Bytes)
      → ParsesIps parse_ip
      → is_utf8 host ≡ true
      → port < u16_mod
      → build_udp_packet parse_ip host port payload ≡ ok packet
      → parse_udp_packet show_ip packet
        ≡ ok (record { host = shown host; port = port; payload = payload })
  unfolding build_udp_packet
  parse_udp_packet-build_udp_packet host packet port payload parses utf8 lt e =
      elim (Option-cases (parse_ip host)) [
        | inr (ip, found) ↦
            let built : 0 ∷ 0 ∷ 0 ∷ address_octets ip ++ (u16_be port ++ payload) ≡ packet =
              cc (rw found at e) in
            rw (found, sym built)
              (parse_udp_packet-octets show_ip (address ip) port payload (parses host ip found) lt)
        | inl named ↦ elim (Bool-cases (ltb 255 (length host))) [
          | inl long ↦ cc (rw (named, long) at e)
          | inr short ↦
              let built : 0 ∷ 0 ∷ 0 ∷ 3 ∷ length host ∷ host ++ (u16_be port ++ payload) ≡ packet =
                cc (rw (named, short) at e) in
              rw (named, sym built)
                (parse_udp_packet-octets show_ip (domain host) port payload utf8 lt)
        ]
      ]
