-- ===== src/Quic/Header/ReadBack.antt =====
-- Stream headers are read back: crates/ssh-proxy/src/quic_native/stream_header.rs.
use ssh_proxy.Base.{
  ℕ, ◌+◌, ◌%◌, ◌<◌, ◌≡◌, refl, ap, true, false, [], ◌∷◌, ◌++◌, Option, none, some, ok, err, ◌>>=◌,
  ◌∙◌, arith, leb, ltb, le→leb, length, length-append, take, take-append_self,
}
use ssh_proxy.Wire.Bytes.{
  Bytes, u16_mod, u32_mod, u64_mod, usize_mod, u16_be, u32_be, u64_be, from_be, from_be-u16_be,
  from_be-u64_be, IsText,
}
use ssh_proxy.Wire.Cursor.{Cursor, new, read_u8, payload_truncated, read_bytes, read_u32}
use ssh_proxy.Wire.Cursor.Reads.{
  Sees, advance, new-Sees, advance-Sees, read_bytes-Sees, read_u8-Sees, read_u16-Sees,
  read_u32-Sees, read_string-Sees, read_string-advance, ensure_empty-Sees,
}
use ssh_proxy.Wire.Frame.Payload.{proxy_wire, IsShort}
use ssh_proxy.Quic.Header.{
  TargetKind, tcp_connect, fixed_tcp, StreamHeader, cursor_failed, to_wire, from_wire, read_u64,
  read_egress, decode_body, decode,
}
use ssh_proxy.Quic.Header.Written.{HasShortTexts, body_of, enclosed}

abbrev IsOptionalText : Option Bytes → Type 0
IsOptionalText none = Unit {0}
IsOptionalText (some proxy) = IsText proxy

-- The numbers and texts of a header in Rust: flags in 32 bits, the stream id in 64, the port in 16, and
-- texts in UTF-8.
pub record IsHeader (h : StreamHeader) : Type 0 where
  pub flags_of : h.flags < u32_mod
  pub id_of : h.stream_id < u64_mod
  pub port_of : h.target.port < u16_mod
  pub route_of : IsText h.route_id
  pub host_of : IsText h.target.host
  pub egress_of : IsOptionalText h.egress_proxy

from_wire-to_wire : (k : TargetKind) → from_wire (to_wire k) ≡ ok k
unfolding from_wire
from_wire-to_wire tcp_connect = refl
from_wire-to_wire fixed_tcp = refl

read_u64-Sees :
    (c : Cursor) (n : ℕ) (rest : Bytes)
    → n < u64_mod
    → Sees c (u64_be n ++ rest)
    → read_u64 c ≡ ok (n, advance c 8)
unfolding read_u64
read_u64-Sees c n rest b h =
    rw (read_bytes-Sees c (u64_be n) rest h) (ap (λ v. ok (v, advance c 8)) (from_be-u64_be n b))

-- The end of the body: the marker, the proxy, and nothing behind it.
read_egress-Sees :
    (c : Cursor) (proxy : Option Bytes)
    → IsShort proxy
    → IsOptionalText proxy
    → Sees c (proxy_wire proxy)
    → (marker : ℕ) × (c' : Cursor) × (read_u8 c ≡ ok (marker, advance c 1))
      × (read_egress marker (advance c 1) ≡ ok (proxy, c'))
      × Sees c' []
unfolding read_egress
read_egress-Sees c none n t h =
    (0, advance c 1, read_u8-Sees c 0 [] h, refl, advance-Sees c (0 ∷ []) [] h)
read_egress-Sees c (some proxy) n t h =
    let octets = u16_be (length proxy) ++ (proxy ++ []) in
    let h₁ = advance-Sees c (1 ∷ []) octets h in
    (
      1,
      advance (advance (advance c 1) 2) (length proxy),
      read_u8-Sees c 1 octets h,
      rw (read_string-Sees (advance c 1) proxy [] n t h₁) refl,
      read_string-advance (advance c 1) proxy [] h₁,
    )

pub decode_body-body_of :
    (h : StreamHeader)
    → IsHeader h
    → HasShortTexts h
    → length (body_of h) < usize_mod
    → decode_body (body_of h) ≡ ok h
unfolding decode_body
decode_body-body_of h w s small =
    let kind = to_wire h.target.kind in
    let r₆ : Bytes = proxy_wire h.egress_proxy in
    let r₅ : Bytes = u16_be h.target.port ++ r₆ in
    let r₄ : Bytes = u16_be (length h.target.host) ++ (h.target.host ++ r₅) in
    let r₃ : Bytes = u16_be (length h.route_id) ++ (h.route_id ++ r₄) in
    let r₂ : Bytes = kind ∷ r₃ in
    let r₁ : Bytes = u64_be h.stream_id ++ r₂ in
    let c₀ : Cursor = new (body_of h) in
    let c₁ : Cursor = advance c₀ 4 in
    let c₂ : Cursor = advance c₁ 8 in
    let c₃ : Cursor = advance c₂ 1 in
    let c₄ : Cursor = advance (advance c₃ 2) (length h.route_id) in
    let c₅ : Cursor = advance (advance c₄ 2) (length h.target.host) in
    let c₆ : Cursor = advance c₅ 2 in
    let h₀ : Sees c₀ (u32_be h.flags ++ r₁) = new-Sees (body_of h) small in
    let h₁ : Sees c₁ r₁ = advance-Sees c₀ (u32_be h.flags) r₁ h₀ in
    let h₂ : Sees c₂ r₂ = advance-Sees c₁ (u64_be h.stream_id) r₂ h₁ in
    let h₃ : Sees c₃ r₃ = advance-Sees c₂ (kind ∷ []) r₃ h₂ in
    let h₄ : Sees c₄ r₄ = read_string-advance c₃ h.route_id r₄ h₃ in
    let h₅ : Sees c₅ r₅ = read_string-advance c₄ h.target.host r₅ h₄ in
    let h₆ : Sees c₆ r₆ = advance-Sees c₅ (u16_be h.target.port) r₆ h₅ in
    let (marker, c₈, e₆, e₇, h₈) = read_egress-Sees c₆ h.egress_proxy s.egress w.egress_of h₆ in
    rw (read_u32-Sees c₀ h.flags r₁ w.flags_of h₀) (
      rw (read_u64-Sees c₁ h.stream_id r₂ w.id_of h₁) (
        rw (read_u8-Sees c₂ kind r₃ h₂) (
          rw (from_wire-to_wire h.target.kind) (
            rw (read_string-Sees c₃ h.route_id r₄ s.route w.route_of h₃) (
              rw (read_string-Sees c₄ h.target.host r₅ s.host w.host_of h₄) (
                rw (read_u16-Sees c₅ h.target.port r₆ w.port_of h₅)
                  (rw e₆ (rw e₇ (rw (ensure_empty-Sees c₈ h₈))))))))))

-- What the decoder makes of an enclosed body: it takes as many octets as the 16 bits of the length say.
pub decode-enclosed :
    (body rest : Bytes)
    → let n = length body % u16_mod in
      decode (enclosed body ++ rest) ≡ (decode_body (take n (body ++ rest)) >>= λ h. ok (h, 8 + n))
unfolding decode
decode-enclosed body rest =
    let n = length body % u16_mod in
    let size : from_be 0 (u16_be n) ≡ n = from_be-u16_be n (omega arith) in
    let within : leb (8 + n) (length (enclosed body ++ rest)) ≡ true =
      le→leb (8 + n) (length (enclosed body ++ rest)) (omega (arith, length-append body rest)) in
    let fits : ltb 65536 n ≡ false = ground arith in
    let long : ltb (length (enclosed body ++ rest)) 8 ≡ false = ground arith in
    rw (size, fits, within, long) refl

pub nothing_decodes : decode_body [] ≡ err (cursor_failed payload_truncated)
unfolding decode_body read_u32 read_bytes new
nothing_decodes = refl

pub decode-enclosed_short :
    (h : StreamHeader) (body rest : Bytes)
    → decode_body body ≡ ok h
    → length body < u16_mod
    → decode (enclosed body ++ rest) ≡ ok (h, length (enclosed body))
decode-enclosed_short h body rest e short =
    let n : length body % u16_mod ≡ length body = omega arith in
    let size : 8 + length body ≡ length (enclosed body) = omega arith in
    decode-enclosed body rest ∙ rw (n, take-append_self body rest, e) (ap (λ k. ok (h, k)) size)
