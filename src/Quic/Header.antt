-- ===== src/Quic/Header.antt =====
-- The header of a native QUIC stream: crates/ssh-proxy/src/quic_native/stream_header.rs. Its cursor is the
-- code of the frame protocol's with messages of its own, and a read of eight octets: Wire/Cursor.
pub mod Written
pub mod ReadBack
use ssh_proxy.Base.{
  ℕ, ◌+◌, ◌%◌, ◌/◌, Bool, not, List, [], ◌∷◌, ◌++◌, Option, none, some, Result, ok, err, ◌>>=◌,
  ◌>>◌, ensure, ltb, leb, ◌==◌, if◌then◌else◌, length, take, drop,
}
use ssh_proxy.Wire.Bytes.{Bytes, ascii, u16_mod, u16_be, u32_be, u64_be, from_be}
use ssh_proxy.Wire.Cursor.{
  FrameError, Cursor, new, read_bytes, read_u8, read_u16, read_u32, read_string, ensure_empty,
}
use ssh_proxy.Core.Control.{same_octets}

abbrev pub stream_header_magic : Bytes
stream_header_magic = ascii "QNT1"

abbrev pub stream_header_version : ℕ
stream_header_version = 1

abbrev pub max_stream_header : ℕ
max_stream_header = 65536

pub data TargetKind : Type 0 where
  tcp_connect fixed_tcp : TargetKind

pub record StreamTarget : Type 0 where
  pub kind : TargetKind
  pub host : Bytes
  pub port : ℕ

pub record StreamHeader : Type 0 where
  pub route_id : Bytes
  pub stream_id : ℕ
  pub target : StreamTarget
  pub egress_proxy : Option Bytes
  pub flags : ℕ

pub data HeaderError : Type 0 where
  header_truncated invalid_magic payload_truncated string_too_long : HeaderError
  unsupported_version header_too_large unknown_target_kind invalid_egress_marker : ℕ → HeaderError
  cursor_failed : FrameError → HeaderError

abbrev pub to_wire : TargetKind → ℕ
to_wire tcp_connect = 1
to_wire fixed_tcp = 2

unfoldable pub from_wire : ℕ → Result HeaderError TargetKind
from_wire value =
    if value == 1
    then ok tcp_connect
    else if value == 2
    then ok fixed_tcp
    else err (unknown_target_kind value)

-- What `write_string` appends.
unfoldable pub header_string : Bytes → Result HeaderError Bytes
header_string value = do
  ensure (leb (length value) 65535) string_too_long
  ok (u16_be (length value % u16_mod) ++ value)

unfoldable pub egress_field : Option Bytes → Result HeaderError Bytes
unfolding header_string
egress_field none = ok (0 ∷ [])
egress_field (some proxy) = do proxy_octets ← header_string proxy; ok (1 ∷ proxy_octets)

-- The body, from the flags on.
unfoldable pub header_body : StreamHeader → Result HeaderError Bytes
unfolding header_string egress_field
header_body h = do
  route ← header_string h.route_id
  host ← header_string h.target.host
  egress ← egress_field h.egress_proxy
  ok (
      u32_be h.flags
      ++ (u64_be h.stream_id
          ++ (to_wire h.target.kind ∷ route ++ (host ++ (u16_be h.target.port ++ egress)))))

unfoldable pub encode : StreamHeader → Result HeaderError Bytes
unfolding header_body
encode h = do
  body ← header_body h
  ensure (not (ltb max_stream_header (length body))) (header_too_large (length body))
  ok (
      stream_header_magic
      ++ (u16_be stream_header_version ++ (u16_be (length body % u16_mod) ++ body)))

abbrev pub egress_len : Option Bytes → ℕ
egress_len none = 0
egress_len (some proxy) = 2 + length proxy

abbrev pub encoded_capacity_hint : StreamHeader → ℕ
encoded_capacity_hint h =
    8
    + 4
    + 8
    + 1
    + 2
    + length h.route_id
    + 2
    + length h.target.host
    + 2
    + 1
    + egress_len h.egress_proxy

-- A read of the cursor, with the file's messages.
abbrev pub via : {A : Type 0} → Result FrameError A → Result HeaderError A
via (ok x) = ok x
via (err e) = err (cursor_failed e)

unfoldable pub read_u64 : Cursor → Result FrameError (ℕ × Cursor)
read_u64 c = do (bytes, c') ← read_bytes c 8; ok (from_be 0 bytes, c')

unfoldable pub read_egress : ℕ → Cursor → Result HeaderError (Option Bytes × Cursor)
read_egress marker c =
    if marker == 0
    then ok (none, c)
    else if marker == 1
    then (do (proxy, c') ← via (read_string c); ok (some proxy, c'))
    else err (invalid_egress_marker marker)

unfoldable pub decode_body : Bytes → Result HeaderError StreamHeader
decode_body body = do
  (flags, c₁) ← via (read_u32 (new body))
  (stream_id, c₂) ← via (read_u64 c₁)
  (kind_octet, c₃) ← via (read_u8 c₂)
  kind ← from_wire kind_octet
  (route_id, c₄) ← via (read_string c₃)
  (host, c₅) ← via (read_string c₄)
  (port, c₆) ← via (read_u16 c₅)
  (marker, c₇) ← via (read_u8 c₆)
  (egress_proxy, c₈) ← read_egress marker c₇
  via (ensure_empty c₈)
  ok record {
    route_id = route_id;
    stream_id = stream_id;
    target = record { kind = kind; host = host; port = port };
    egress_proxy = egress_proxy;
    flags = flags;
  }

-- The header, and how many octets it takes.
unfoldable pub decode : Bytes → Result HeaderError (StreamHeader × ℕ)
unfolding same_octets from_be
decode bytes = do
  ensure (not (ltb (length bytes) 8)) header_truncated
  ensure (same_octets (take 4 bytes) stream_header_magic) invalid_magic
  let version = from_be 0 (take 2 (drop 4 bytes))
  ensure (version == stream_header_version) (unsupported_version version)
  let body_len = from_be 0 (take 2 (drop 6 bytes))
  ensure (not (ltb max_stream_header body_len)) (header_too_large body_len)
  ensure (leb (8 + body_len) (length bytes)) payload_truncated
  h ← decode_body (take body_len (drop 8 bytes))
  ok (h, 8 + body_len)
