-- ===== src/Socks/Tests.antt =====
-- SOCKS messages, and the theorems on them at concrete inputs.
use ssh_proxy.Base.{◌≡◌, refl, ◌==◌, [], ◌∷◌, Option, none, some, ok, arith, if◌then◌else◌}
use ssh_proxy.Wire.Bytes.{Bytes, is_utf8}
use ssh_proxy.Socks.{IpAddr, v4, v6, parse_udp_packet, build_udp_packet}
use ssh_proxy.Socks.Datagrams.{ParsesIps, parse_udp_packet-build_udp_packet}

-- A parser that knows the text "lo" of one address.
abbrev local_ip : Bytes → Option IpAddr
local_ip (a ∷ b ∷ []) =
    if a == 0x6c then (if b == 0x6f then some (v4 (127 ∷ 0 ∷ 0 ∷ 1 ∷ [])) else none) else none
local_ip _ = none

abbrev show_local : IpAddr → Bytes
show_local ip = 0x6c ∷ 0x6f ∷ []

local_ip-ParsesIps : ParsesIps local_ip
local_ip-ParsesIps [] ip e = cc
local_ip-ParsesIps (a ∷ []) ip e = cc
local_ip-ParsesIps (a ∷ b ∷ c ∷ s) ip e = cc
local_ip-ParsesIps (a ∷ b ∷ []) (v4 octets) e = ground arith
local_ip-ParsesIps (a ∷ b ∷ []) (v6 octets) e = ground arith

abbrev name : Bytes
name = 0x68 ∷ 0x69 ∷ []

parse_udp_packet-build_udp_packet_example :
    parse_udp_packet show_local (0 ∷ 0 ∷ 0 ∷ 3 ∷ 2 ∷ 0x68 ∷ 0x69 ∷ 1 ∷ 187 ∷ 7 ∷ [])
    ≡ ok (record { host = name; port = 443; payload = 7 ∷ [] })
unfolding build_udp_packet is_utf8
parse_udp_packet-build_udp_packet_example =
    parse_udp_packet-build_udp_packet local_ip show_local name
      (0 ∷ 0 ∷ 0 ∷ 3 ∷ 2 ∷ 0x68 ∷ 0x69 ∷ 1 ∷ 187 ∷ 7 ∷ []) 443 (7 ∷ []) local_ip-ParsesIps refl
      (omega arith) refl
