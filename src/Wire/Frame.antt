-- ===== src/Wire/Frame.antt =====
-- `Frame`, its payload encoder and its decoder: crates/ssh-proxy-protocol/src/protocol.rs.
pub mod Payload
pub mod Sound
pub mod Size
use ssh_proxy.Base.{
  ℕ, ◌+◌, ◌%◌, ◌<◌, Bool, true, false, not, [], ◌∷◌, ◌++◌, Option, none, some, Result, ok, err,
  ◌>>=◌, ◌>>◌, ensure, leb, ◌==◌, if◌then◌else◌, length, All,
}
use ssh_proxy.Wire.Bytes.{Bytes, u16_mod, u32_mod, u16_be, u32_be, IsText, IsByte}
use ssh_proxy.Wire.Cursor.{
  FrameError, string_too_long, unknown_frame_type, Cursor, new, read_u8, read_u16, read_u32,
  read_bytes, read_string, is_empty, ensure_empty,
}

abbrev pub max_frame : ℕ
max_frame = 16777216

-- The nine octets in front of a payload, and a payload behind them.
abbrev pub frame_header : ℕ → ℕ → ℕ → Bytes
frame_header ty id len = ty ∷ (u32_be id ++ u32_be (len % u32_mod))

abbrev pub framed : ℕ → ℕ → Bytes → Bytes
framed ty id payload = frame_header ty id (length payload) ++ payload

pub data Frame : Type 0 where
  open_tcp : (id : ℕ) (host : Bytes) (port : ℕ) (egress_proxy : Option Bytes) → Frame
  open_tcp_result : (id : ℕ) (accepted : Bool) (message : Bytes) → Frame
  chunk : (id : ℕ) (payload : Bytes) → Frame
  close : (id : ℕ) (reason : Bytes) → Frame
  udp_packet : (id : ℕ) (host : Bytes) (port : ℕ) (payload : Bytes) → Frame
  log : (message : Bytes) → Frame

-- `write_string`: what it appends to `out`.
unfoldable pub write_string : Bytes → Bytes → Result FrameError Bytes
write_string out value = do
  ensure (leb (length value) 65535) string_too_long
  ok (out ++ (u16_be (length value % u16_mod) ++ value))

pub flag : Bool → ℕ
flag true = 1
flag false = 0

abbrev write_proxy : Bytes → Option Bytes → Result FrameError Bytes
write_proxy out (some proxy) = write_string (out ++ 1 ∷ []) proxy
write_proxy out none = ok (out ++ 0 ∷ [])

-- The frame type, the stream id and the payload.
unfoldable pub encode_into : Frame → Result FrameError (ℕ × ℕ × Bytes)
unfolding flag
encode_into (open_tcp id host port egress_proxy) = do
  out ← write_string [] host
  out ← write_proxy (out ++ u16_be port) egress_proxy
  ok (1, id, out)
encode_into (open_tcp_result id accepted message) = do
  out ← write_string (flag accepted ∷ []) message
  ok (2, id, out)
encode_into (chunk id payload) = ok (3, id, payload)
encode_into (close id reason) = do out ← write_string [] reason; ok (4, id, out)
encode_into (udp_packet id host port payload) = do
  out ← write_string [] host
  ok (5, id, out ++ (u16_be port ++ (u32_be (length payload % u32_mod) ++ payload)))
encode_into (log message) = do out ← write_string [] message; ok (6, 0, out)

pub encoded_payload_capacity : Frame → ℕ
encoded_payload_capacity (open_tcp id host port (some proxy)) =
    2 + length host + 2 + 1 + (2 + length proxy)
encoded_payload_capacity (open_tcp id host port none) = 2 + length host + 2 + 1 + 0
encoded_payload_capacity (open_tcp_result id accepted message) = 1 + 2 + length message
encoded_payload_capacity (chunk id payload) = length payload
encoded_payload_capacity (close id reason) = 2 + length reason
encoded_payload_capacity (udp_packet id host port payload) =
    2 + length host + 2 + 4 + length payload
encoded_payload_capacity (log message) = 2 + length message

-- The flag, and the text that follows a flag other than 0.
read_flagged_proxy : Cursor → Result FrameError (Option Bytes × Cursor)
read_flagged_proxy c = do
  (present, c₁) ← read_u8 c
  let text = read_string c₁ >>= λ (proxy, c₂). ok (some proxy, c₂)
  if present == 0 then ok (none, c₁) else text

-- An empty rest is no proxy.
read_proxy : Cursor → Result FrameError (Option Bytes × Cursor)
unfolding read_flagged_proxy
read_proxy c = if is_empty c then ok (none, c) else read_flagged_proxy c

decode_open_tcp : ℕ → Cursor → Result FrameError Frame
unfolding read_proxy
decode_open_tcp id c = do
  (host, c₁) ← read_string c
  (port, c₂) ← read_u16 c₁
  (egress_proxy, c₃) ← read_proxy c₂
  ensure_empty c₃
  ok (open_tcp id host port egress_proxy)

decode_open_tcp_result : ℕ → Cursor → Result FrameError Frame
decode_open_tcp_result id c = do
  (accepted, c₁) ← read_u8 c
  (message, c₂) ← read_string c₁
  ensure_empty c₂
  ok (open_tcp_result id (not (accepted == 0)) message)

decode_close : ℕ → Cursor → Result FrameError Frame
decode_close id c = do (reason, c₁) ← read_string c; ensure_empty c₁; ok (close id reason)

decode_udp_packet : ℕ → Cursor → Result FrameError Frame
decode_udp_packet id c = do
  (host, c₁) ← read_string c
  (port, c₂) ← read_u16 c₁
  (len, c₃) ← read_u32 c₂
  (payload, c₄) ← read_bytes c₃ len
  ensure_empty c₄
  ok (udp_packet id host port payload)

decode_log : Cursor → Result FrameError Frame
decode_log c = do (message, c₁) ← read_string c; ensure_empty c₁; ok (log message)

unfoldable pub decode : ℕ → ℕ → Bytes → Result FrameError Frame
unfolding decode_open_tcp decode_open_tcp_result decode_close decode_udp_packet decode_log
decode ty id payload =
    let c = new payload in
    if ty == 1
    then decode_open_tcp id c
    else if ty == 2
    then decode_open_tcp_result id c
    else if ty == 3
    then ok (chunk id payload)
    else if ty == 4
    then decode_close id c
    else if ty == 5
    then decode_udp_packet id c
    else if ty == 6
    then decode_log c
    else err (unknown_frame_type ty)

abbrev pub IsProxy : Option Bytes → Type 0
IsProxy none = Unit {0}
IsProxy (some proxy) = IsText proxy

-- What the types of the Rust fields promise: `u32`, `u16`, `String`, `Vec<u8>`.
abbrev pub IsTyped : Frame → Type 0
IsTyped (open_tcp id host port egress_proxy) =
    (id < u32_mod) × IsText host × (port < u16_mod) × IsProxy egress_proxy
IsTyped (open_tcp_result id accepted message) = (id < u32_mod) × IsText message
IsTyped (chunk id payload) = (id < u32_mod) × All IsByte payload
IsTyped (close id reason) = (id < u32_mod) × IsText reason
IsTyped (udp_packet id host port payload) =
    (id < u32_mod) × IsText host × (port < u16_mod) × All IsByte payload
IsTyped (log message) = IsText message
