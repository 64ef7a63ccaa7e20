-- ===== src/Socks/Requests.antt =====
-- What a SOCKS client sends is read back: crates/ssh-proxy-transport/src/proxy/socks5.rs.
use ssh_proxy.Base.{
  append_assoc, ℕ, ◌<◌, ◌≡◌, refl, sym, true, [], ◌∷◌, ◌++◌, ok, err, ◌>>=◌, le→leb, length,
  length-append, take-append_self, drop-append_self, if◌then◌else◌, arith,
}
use ssh_proxy.Wire.Bytes.{Bytes, u16_mod, u16_be, from_be, from_be-u16_be, is_utf8}
use ssh_proxy.Socks.{
  Request, SocksError, end_of_stream, no_auth_not_offered, Command, connect, bind, udp_associate,
  IpAddr, v4, v6, split, contains, read_methods, negotiate_no_auth, command_octet, address_octets,
  read_addr, read_addr_of, read_request,
}

-- What stands in front is split off.
pub split-append :
    (e : SocksError) (n : ℕ) (xs ys : Bytes) → length xs ≡ n → split e n (xs ++ ys) ≡ ok (xs, ys)
unfolding split
split-append e n xs ys h =
    rw
      (
        sym h,
        le→leb (length xs) (length (xs ++ ys)) (omega (arith, length-append xs ys)),
        take-append_self xs ys,
        drop-append_self xs ys,
      )
      refl

-- A greeting with the method 0 is answered by 5, 0, and the rest of the stream is left to be read; one
-- without it is answered by 5, 255, and refused.
pub negotiate_no_auth-greeting :
    (methods rest : Bytes)
    → negotiate_no_auth (5 ∷ length methods ∷ methods ++ rest) ≡ (
        if contains 0 methods
        then (5 ∷ 0 ∷ [], ok rest)
        else (5 ∷ 255 ∷ [], err no_auth_not_offered))
unfolding negotiate_no_auth read_methods
negotiate_no_auth-greeting methods rest =
    rw (split-append end_of_stream (length methods) methods rest refl) refl

-- The destination of a request, as RFC 1928 has it.
pub data Destination : Type 0 where
  address : IpAddr → Destination
  domain : Bytes → Destination

abbrev pub destination_octets : Destination → Bytes
destination_octets (address ip) = address_octets ip
destination_octets (domain name) = 3 ∷ length name ∷ name

-- Four octets, or sixteen; a name in UTF-8.
abbrev pub IsDestination : Destination → Type 0
IsDestination (address (v4 octets)) = length octets ≡ 4
IsDestination (address (v6 octets)) = length octets ≡ 16
IsDestination (domain name) = is_utf8 name ≡ true

abbrev pub request_octets : Command → Destination → ℕ → Bytes
request_octets c d port = 5 ∷ command_octet c ∷ 0 ∷ destination_octets d ++ u16_be port

module _ (show_ip : IpAddr → Bytes) where
  abbrev pub destination_host : Destination → Bytes
  destination_host (address ip) = show_ip ip
  destination_host (domain name) = name

  read_addr-destination_octets :
      (d : Destination) (rest : Bytes)
      → IsDestination d
      → read_addr show_ip (destination_octets d ++ rest) ≡ ok (destination_host d, rest)
  unfolding read_addr read_addr_of
  read_addr-destination_octets (address (v4 octets)) rest h =
      rw (split-append end_of_stream 4 octets rest h) refl
  read_addr-destination_octets (address (v6 octets)) rest h =
      rw (split-append end_of_stream 16 octets rest h) refl
  read_addr-destination_octets (domain name) rest h =
      rw (split-append end_of_stream (length name) name rest refl, h) refl

  read_rest :
      (c : Command) (d : Destination) (port : ℕ) (rest : Bytes)
      → IsDestination d
      → port < u16_mod
      → (read_addr show_ip (destination_octets d ++ (u16_be port ++ rest)) >>= λ (host, s).
          split end_of_stream 2 s >>= λ (p, t).
          let r : Request × Bytes = (record { command = c; host = host; port = from_be 0 p }, t) in
          ok r)
        ≡ ok (record { command = c; host = destination_host d; port = port }, rest)
  read_rest c d port rest h lt =
      rw
        (
          read_addr-destination_octets d (u16_be port ++ rest) h,
          split-append end_of_stream 2 (u16_be port) rest refl,
          from_be-u16_be port lt,
        )
        refl

  -- A request that is laid out as RFC 1928 has it is read with its command, its host and its port, and
  -- the octets behind it are left in the stream.
  pub read_request-request_octets :
      (c : Command) (d : Destination) (port : ℕ) (rest : Bytes)
      → IsDestination d
      → port < u16_mod
      → read_request show_ip (request_octets c d port ++ rest)
        ≡ ok (record { command = c; host = destination_host d; port = port }, rest)
  unfolding read_request
  read_request-request_octets connect d port rest h lt =
      rw (append_assoc (destination_octets d) (u16_be port) rest)
        (read_rest connect d port rest h lt)
  read_request-request_octets bind d port rest h lt =
      rw (append_assoc (destination_octets d) (u16_be port) rest) (read_rest bind d port rest h lt)
  read_request-request_octets udp_associate d port rest h lt =
      rw (append_assoc (destination_octets d) (u16_be port) rest)
        (read_rest udp_associate d port rest h lt)
