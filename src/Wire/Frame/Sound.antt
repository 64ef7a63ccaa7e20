-- ===== src/Wire/Frame/Sound.antt =====
-- What the decoder returns fits the types of the frame's fields.
use ssh_proxy.Base.{ℕ, ◌<◌, ◌≡◌, ◌==◌, Option, none, some, ok, All, Bool-cases, inl, inr, >>=-eq-ok}
use mathlib.Core.Bool.{not}
use ssh_proxy.Wire.Bytes.{Bytes, IsByte, u32_mod}
use ssh_proxy.Wire.Cursor.{
  Cursor, new, read_u8, read_u16, read_u32, read_bytes, read_string, is_empty, ensure_empty,
}
use ssh_proxy.Wire.Frame.{
  Frame, open_tcp, open_tcp_result, chunk, close, udp_packet, log, read_proxy, read_flagged_proxy,
  decode_open_tcp, decode_open_tcp_result, decode_close, decode_udp_packet, decode_log, decode,
  IsProxy, IsTyped,
}
use ssh_proxy.Wire.Cursor.Typed.{
  read_u8_typed, read_u16_typed, read_u32_typed, read_bytes_typed, read_string_typed,
}

module _ (id : ℕ) (known : id < u32_mod) (c : Cursor) (octets : All IsByte c.bytes) where
  decode_close-IsTyped : (f : Frame) → decode_close id c ≡ ok f → IsTyped f
  unfolding decode_close
  decode_close-IsTyped f e =
      let (s, e₁, e₂) = >>=-eq-ok (read_string c) _ e in
      let (t, _) = read_string_typed c s.1 octets s.0 e₁ in
      let (_, _, e₃) = >>=-eq-ok (ensure_empty s.1) _ e₂ in
      let made : f ≡ close id s.0 = cc e₃ in rw made (known, t)

  decode_log-IsTyped : (f : Frame) → decode_log c ≡ ok f → IsTyped f
  unfolding decode_log
  decode_log-IsTyped f e =
      let (s, e₁, e₂) = >>=-eq-ok (read_string c) _ e in
      let (t, _) = read_string_typed c s.1 octets s.0 e₁ in
      let (_, _, e₃) = >>=-eq-ok (ensure_empty s.1) _ e₂ in
      let made : f ≡ log s.0 = cc e₃ in rw made t

  decode_open_tcp_result-IsTyped : (f : Frame) → decode_open_tcp_result id c ≡ ok f → IsTyped f
  unfolding decode_open_tcp_result
  decode_open_tcp_result-IsTyped f e =
      let (b, e₀, e') = >>=-eq-ok (read_u8 c) _ e in
      let octets₁ = read_u8_typed c b.1 octets b.0 e₀ in
      let (s, e₁, e₂) = >>=-eq-ok (read_string b.1) _ e' in
      let (t, _) = read_string_typed b.1 s.1 octets₁ s.0 e₁ in
      let (_, _, e₃) = >>=-eq-ok (ensure_empty s.1) _ e₂ in
      let made : f ≡ open_tcp_result id (not (b.0 == 0)) s.0 = cc e₃ in rw made (known, t)

  decode_udp_packet-IsTyped : (f : Frame) → decode_udp_packet id c ≡ ok f → IsTyped f
  unfolding decode_udp_packet
  decode_udp_packet-IsTyped f e =
      let (h, e₁, e₂) = >>=-eq-ok (read_string c) _ e in
      let (t, octets₁) = read_string_typed c h.1 octets h.0 e₁ in
      let (p, e₃, e₄) = >>=-eq-ok (read_u16 h.1) _ e₂ in
      let (pt, octets₂) = read_u16_typed h.1 p.1 octets₁ p.0 e₃ in
      let (l, e₅, e₆) = >>=-eq-ok (read_u32 p.1) _ e₄ in
      let (_, octets₃) = read_u32_typed p.1 l.1 octets₂ l.0 e₅ in
      let (d, e₇, e₈) = >>=-eq-ok (read_bytes l.1 l.0) _ e₆ in
      let (dt, _) = read_bytes_typed l.1 d.1 octets₃ l.0 d.0 e₇ in
      let (_, _, e₉) = >>=-eq-ok (ensure_empty d.1) _ e₈ in
      let made : f ≡ udp_packet id h.0 p.0 d.0 = cc e₉ in rw made (known, t, pt, dt)

read_flagged_proxy-IsProxy :
    (c c' : Cursor) (x : Option Bytes)
    → All IsByte c.bytes
    → read_flagged_proxy c ≡ ok (x, c')
    → IsProxy x
unfolding read_flagged_proxy
read_flagged_proxy-IsProxy c c' x octets e =
    let (b, e₁, e₂) = >>=-eq-ok (read_u8 c) _ e in
    let octets₁ = read_u8_typed c b.1 octets b.0 e₁ in
    elim (Bool-cases (b.0 == 0)) [
      | inl absent ↦ let made : x ≡ none = cc (rw absent at e₂) in rw made tt
      | inr present ↦
          let (s, e₃, e₄) = >>=-eq-ok (read_string b.1) _ (rw present at e₂) in
          let (t, _) = read_string_typed b.1 s.1 octets₁ s.0 e₃ in
          let made : x ≡ some s.0 = cc e₄ in rw made t
    ]

read_proxy-IsProxy :
    (c c' : Cursor) (x : Option Bytes) → All IsByte c.bytes → read_proxy c ≡ ok (x, c') → IsProxy x
unfolding read_proxy
read_proxy-IsProxy c c' x octets e = elim (Bool-cases (is_empty c)) [
  | inl done ↦ let made : x ≡ none = cc (rw done at e) in rw made tt
  | inr more ↦ read_flagged_proxy-IsProxy c c' x octets (rw more at e)
]

decode_open_tcp-IsTyped :
    (id : ℕ) (c : Cursor) (f : Frame)
    → id < u32_mod
    → All IsByte c.bytes
    → decode_open_tcp id c ≡ ok f
    → IsTyped f
unfolding decode_open_tcp
decode_open_tcp-IsTyped id c f known octets e =
    let (h, e₁, e₂) = >>=-eq-ok (read_string c) _ e in
    let (t, octets₁) = read_string_typed c h.1 octets h.0 e₁ in
    let (p, e₃, e₄) = >>=-eq-ok (read_u16 h.1) _ e₂ in
    let (pt, octets₂) = read_u16_typed h.1 p.1 octets₁ p.0 e₃ in
    let (x, e₅, e₆) = >>=-eq-ok (read_proxy p.1) _ e₄ in
    let xt = read_proxy-IsProxy p.1 x.1 x.0 octets₂ e₅ in
    let (_, _, e₇) = >>=-eq-ok (ensure_empty x.1) _ e₆ in
    let made : f ≡ open_tcp id h.0 p.0 x.0 = cc e₇ in rw made (known, t, pt, xt)

-- A successful decode of octets, under a stream id of 32 bits, is a frame whose texts are UTF-8 and
-- whose numbers are in range.
pub decode-IsTyped :
    (ty id : ℕ) (payload : Bytes) (f : Frame)
    → id < u32_mod
    → All IsByte payload
    → decode ty id payload ≡ ok f
    → IsTyped f
unfolding decode new
decode-IsTyped ty id payload f known octets e = elim (Bool-cases (ty == 1)) [
  | inl a ↦ decode_open_tcp-IsTyped id _ f known octets (rw a at e)
  | inr a ↦ elim (Bool-cases (ty == 2)) [
    | inl b ↦ decode_open_tcp_result-IsTyped id known _ octets f (rw (a, b) at e)
    | inr b ↦ elim (Bool-cases (ty == 3)) [
      | inl d ↦ let made : f ≡ chunk id payload = cc (rw (a, b, d) at e) in rw made (known, octets)
      | inr d ↦ elim (Bool-cases (ty == 4)) [
        | inl g ↦ decode_close-IsTyped id known _ octets f (rw (a, b, d, g) at e)
        | inr g ↦ elim (Bool-cases (ty == 5)) [
          | inl h ↦ decode_udp_packet-IsTyped id known _ octets f (rw (a, b, d, g, h) at e)
          | inr h ↦ elim (Bool-cases (ty == 6)) [
            | inl i ↦ decode_log-IsTyped id known _ octets f (rw (a, b, d, g, h, i) at e)
            | inr i ↦ cc (rw (a, b, d, g, h, i) at e)
          ]
        ]
      ]
    ]
  ]
]
