-- ===== src/Wire/Frame/Size.antt =====
-- The size of an encoding, and which frames have one.
use ssh_proxy.Base.{
  ℕ, ◌%◌, ◌<◌, ◌≡◌, ◌↔◌, refl, ap, [], ◌∷◌, ◌++◌, none, some, ok, le→leb, length, length-append,
  append-nil, arith,
}
use ssh_proxy.Wire.Bytes.{Bytes, u16_mod, u16_be, u32_be, u32_mod}
use ssh_proxy.Wire.Frame.{
  Frame, open_tcp, open_tcp_result, chunk, close, udp_packet, log, write_string, encode_into,
  encoded_payload_capacity, flag,
}
use ssh_proxy.Wire.Frame.Payload.{Writes, encode_into-Writes, IsShort}

Writes-capacity :
    (f : Frame) (w : ℕ × ℕ × Bytes) → Writes f w → length w.2 ≡ encoded_payload_capacity f
unfolding encoded_payload_capacity
Writes-capacity (open_tcp id host port none) w (n, m, q) =
    omega (arith, ap (λ x. length x.2) q, length-append host (u16_be port ++ 0 ∷ []))
Writes-capacity (open_tcp id host port (some proxy)) w (n, m, q) = omega (
  arith,
  ap (λ x. length x.2) q,
  length-append host (u16_be port ++ (1 ∷ (u16_be (length proxy) ++ (proxy ++ [])))),
  ap length (append-nil proxy),
)
Writes-capacity (open_tcp_result id accepted message) w (n, q) =
    omega (arith, ap (λ x. length x.2) q, ap length (append-nil message))
Writes-capacity (chunk id payload) w q = ap (λ x. length x.2) q
Writes-capacity (close id reason) w (n, q) =
    omega (arith, ap (λ x. length x.2) q, ap length (append-nil reason))
Writes-capacity (udp_packet id host port payload) w (n, q) = omega (
  arith,
  ap (λ x. length x.2) q,
  length-append host (u16_be port ++ (u32_be (length payload % u32_mod) ++ (payload ++ []))),
  ap length (append-nil payload),
)
Writes-capacity (log message) w (n, q) =
    omega (arith, ap (λ x. length x.2) q, ap length (append-nil message))

-- The capacity that the writer reserves is exactly the size of the payload.
length-encode_into :
    (f : Frame) (ty id : ℕ) (payload : Bytes)
    → encode_into f ≡ ok (ty, id, payload)
    → length payload ≡ encoded_payload_capacity f
length-encode_into f ty id payload e =
    Writes-capacity f (ty, id, payload) (encode_into-Writes f (ty, id, payload) e)

-- Every text of the frame has a length of 16 bits.
abbrev pub HasShortTexts : Frame → Type 0
HasShortTexts (open_tcp id host port egress_proxy) = (length host < u16_mod) × IsShort egress_proxy
HasShortTexts (open_tcp_result id accepted message) = length message < u16_mod
HasShortTexts (chunk id payload) = Unit {0}
HasShortTexts (close id reason) = length reason < u16_mod
HasShortTexts (udp_packet id host port payload) = length host < u16_mod
HasShortTexts (log message) = length message < u16_mod

Encoded : Frame → Type 0
Encoded f = (w : ℕ × ℕ × Bytes) × (encode_into f ≡ ok w)

write_string_short :
    (out value : Bytes) → length value < u16_mod → (w : Bytes) × (write_string out value ≡ ok w)
unfolding write_string
write_string_short out value h = (
  out ++ (u16_be (length value % u16_mod) ++ value),
  rw (le→leb (length value) 65535 (omega arith)),
)

encode_into_short : (f : Frame) → HasShortTexts f → Encoded f
unfolding Encoded encode_into
encode_into_short (open_tcp id host port none) (h, k) =
    let (w, e) = write_string_short [] host h in ((1, id, (w ++ u16_be port) ++ 0 ∷ []), rw e)
encode_into_short (open_tcp id host port (some proxy)) (h, k) =
    let (w, e) = write_string_short [] host h in
    let (v, e') = write_string_short ((w ++ u16_be port) ++ 1 ∷ []) proxy k in
    ((1, id, v), rw (e, e'))
encode_into_short (open_tcp_result id accepted message) h =
    let (w, e) = write_string_short (flag accepted ∷ []) message h in ((2, id, w), rw e)
encode_into_short (chunk id payload) h = ((3, id, payload), refl)
encode_into_short (close id reason) h =
    let (w, e) = write_string_short [] reason h in ((4, id, w), rw e)
encode_into_short (udp_packet id host port payload) h =
    let (w, e) = write_string_short [] host h in
    ((5, id, w ++ (u16_be port ++ (u32_be (length payload % u32_mod) ++ payload))), rw e)
encode_into_short (log message) h =
    let (w, e) = write_string_short [] message h in ((6, 0, w), rw e)

Encoded-short : (f : Frame) → Encoded f → HasShortTexts f
unfolding Encoded
Encoded-short (open_tcp id host port x) (w, e) =
    let (h, k, _) = encode_into-Writes (open_tcp id host port x) w e in (h, k)
Encoded-short (open_tcp_result id accepted message) (w, e) =
    (encode_into-Writes (open_tcp_result id accepted message) w e).0
Encoded-short (chunk id payload) (w, e) = tt
Encoded-short (close id reason) (w, e) = (encode_into-Writes (close id reason) w e).0
Encoded-short (udp_packet id host port payload) (w, e) =
    (encode_into-Writes (udp_packet id host port payload) w e).0
Encoded-short (log message) (w, e) = (encode_into-Writes (log message) w e).0

-- A frame has an encoding exactly when all its texts have lengths of 16 bits.
pub encode_into_iff : (f : Frame) → ((w : ℕ × ℕ × Bytes) × (encode_into f ≡ ok w)) ↔ HasShortTexts f
unfolding Encoded
encode_into_iff f = (Encoded-short f, encode_into_short f)
