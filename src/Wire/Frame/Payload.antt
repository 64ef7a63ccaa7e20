-- ===== src/Wire/Frame/Payload.antt =====
-- The decoder reads back the payload of every kind of frame.
use native.Mathlib.Nat.{mod-eq_of_lt}
use ssh_proxy.Base.{
  ℕ, ◌%◌, ◌<◌, ◌≤◌, ◌≡◌, refl, ap, ◌∙◌, Bool, true, false, not, ◌==◌, [], ◌∷◌, ◌++◌, Option, none,
  some, ok, arith, leb, leb→le, length, length-append, append-nil, append_assoc, Bool-cases, inl,
  inr, >>=-eq-ok,
}
use ssh_proxy.Wire.Bytes.{Bytes, u16_mod, u32_mod, u16_be, u32_be, IsText}
use ssh_proxy.Wire.Cursor.{Cursor, new}
use ssh_proxy.Wire.Cursor.Reads.{
  Sees, advance, new-Sees, advance-Sees, read_bytes-Sees, read_u8-Sees, read_u16-Sees,
  read_u32-Sees, read_string-Sees, read_string-advance, is_empty-Sees_cons, ensure_empty-Sees,
}
use ssh_proxy.Wire.Frame.{
  Frame, open_tcp, open_tcp_result, chunk, close, udp_packet, log, write_string, flag, encode_into,
  read_proxy, decode_open_tcp, decode_open_tcp_result, decode_close, decode_udp_packet, decode_log,
  decode, IsProxy, IsTyped, max_frame,
}

-- A text that `write_string` accepts has a length of 16 bits, and is written behind it.
pub write_string-eq-ok :
    (out value written : Bytes)
    → write_string out value ≡ ok written
    → (length value < u16_mod) × (written ≡ out ++ (u16_be (length value) ++ value))
unfolding write_string
write_string-eq-ok out value written e = elim (Bool-cases (leb (length value) 65535)) [
  | inl short ↦
      let lt : length value < u16_mod = omega (arith, leb→le _ _ short) in
      (lt, ground (arith, e, short, mod-eq_of_lt lt))
  | inr long ↦ absurd (ground (arith, e, long))
]

not-flag : (b : Bool) → not (flag b == 0) ≡ b
unfolding flag
not-flag true = refl
not-flag false = refl

-- The tail of an `open_tcp` payload, as `encode_into` writes it.
abbrev pub proxy_wire : Option Bytes → Bytes
proxy_wire none = 0 ∷ []
proxy_wire (some proxy) = 1 ∷ (u16_be (length proxy) ++ (proxy ++ []))

abbrev pub IsShort : Option Bytes → Type 0
IsShort none = Unit {0}
IsShort (some proxy) = length proxy < u16_mod

module _ (c : Cursor) where
  decode_close-Sees :
      (id : ℕ) (reason : Bytes)
      → length reason < u16_mod
      → IsText reason
      → Sees c (u16_be (length reason) ++ (reason ++ []))
      → decode_close id c ≡ ok (close id reason)
  unfolding decode_close
  decode_close-Sees id reason n t h =
      rw (read_string-Sees c reason [] n t h)
        (rw (ensure_empty-Sees _ (read_string-advance c reason [] h)))

  decode_log-Sees :
      (message : Bytes)
      → length message < u16_mod
      → IsText message
      → Sees c (u16_be (length message) ++ (message ++ []))
      → decode_log c ≡ ok (log message)
  unfolding decode_log
  decode_log-Sees message n t h =
      rw (read_string-Sees c message [] n t h)
        (rw (ensure_empty-Sees _ (read_string-advance c message [] h)))

  decode_open_tcp_result-Sees :
      (id : ℕ) (accepted : Bool) (message : Bytes)
      → length message < u16_mod
      → IsText message
      → Sees c (flag accepted ∷ (u16_be (length message) ++ (message ++ [])))
      → decode_open_tcp_result id c ≡ ok (open_tcp_result id accepted message)
  unfolding decode_open_tcp_result
  decode_open_tcp_result-Sees id accepted message n t h =
      let rest : Bytes = u16_be (length message) ++ (message ++ []) in
      let h' : Sees (advance c 1) rest = advance-Sees c (flag accepted ∷ []) rest h in
      rw (read_u8-Sees c (flag accepted) rest h) (
        rw (read_string-Sees (advance c 1) message [] n t h') (
          rw (ensure_empty-Sees _ (read_string-advance (advance c 1) message [] h'))
            (ap (λ b. ok (open_tcp_result id b message)) (not-flag accepted))))

  decode_udp_packet-Sees :
      (id : ℕ) (host : Bytes) (port : ℕ) (payload : Bytes)
      → length host < u16_mod
      → IsText host
      → port < u16_mod
      → length payload < u32_mod
      → Sees c (
          u16_be (length host)
          ++ (host ++ (u16_be port ++ (u32_be (length payload) ++ (payload ++ [])))))
      → decode_udp_packet id c ≡ ok (udp_packet id host port payload)
  unfolding decode_udp_packet
  decode_udp_packet-Sees id host port payload n t p l h =
      let r₃ : Bytes = payload ++ [] in
      let r₂ : Bytes = u32_be (length payload) ++ r₃ in
      let r₁ : Bytes = u16_be port ++ r₂ in
      let c₁ : Cursor = advance (advance c 2) (length host) in
      let h₁ : Sees c₁ r₁ = read_string-advance c host r₁ h in
      let h₂ : Sees (advance c₁ 2) r₂ = advance-Sees c₁ (u16_be port) r₂ h₁ in
      let c₃ : Cursor = advance (advance c₁ 2) 4 in
      let h₃ : Sees c₃ r₃ = advance-Sees (advance c₁ 2) (u32_be (length payload)) r₃ h₂ in
      rw (read_string-Sees c host r₁ n t h) (
        rw (read_u16-Sees c₁ port r₂ p h₁) (
          rw (read_u32-Sees (advance c₁ 2) (length payload) r₃ l h₂) (
            rw (read_bytes-Sees c₃ payload [] h₃)
              (rw (ensure_empty-Sees _ (advance-Sees c₃ payload [] h₃))))))

  read_proxy-Sees :
      (egress_proxy : Option Bytes)
      → IsShort egress_proxy
      → IsProxy egress_proxy
      → Sees c (proxy_wire egress_proxy)
      → (c' : Cursor) × (read_proxy c ≡ ok (egress_proxy, c')) × Sees c' []
  unfolding read_proxy
  read_proxy-Sees none n t h = (
    advance c 1,
    rw (is_empty-Sees_cons c 0 [] h) (rw (read_u8-Sees c 0 [] h)),
    advance-Sees c (0 ∷ []) [] h,
  )
  read_proxy-Sees (some proxy) n t h =
      let rest : Bytes = u16_be (length proxy) ++ (proxy ++ []) in
      let h₁ : Sees (advance c 1) rest = advance-Sees c (1 ∷ []) rest h in
      (
        advance (advance (advance c 1) 2) (length proxy),
        rw (is_empty-Sees_cons c 1 rest h)
            (rw (read_u8-Sees c 1 rest h) (rw (read_string-Sees (advance c 1) proxy [] n t h₁))),
        read_string-advance (advance c 1) proxy [] h₁,
      )

module _ (c : Cursor) where
  decode_open_tcp-Sees :
      (id : ℕ) (host : Bytes) (port : ℕ) (egress_proxy : Option Bytes)
      → length host < u16_mod
      → IsText host
      → port < u16_mod
      → IsShort egress_proxy
      → IsProxy egress_proxy
      → Sees c (u16_be (length host) ++ (host ++ (u16_be port ++ proxy_wire egress_proxy)))
      → decode_open_tcp id c ≡ ok (open_tcp id host port egress_proxy)
  unfolding decode_open_tcp
  decode_open_tcp-Sees id host port egress_proxy n t p ns ts h =
      let r₂ : Bytes = proxy_wire egress_proxy in
      let r₁ : Bytes = u16_be port ++ r₂ in
      let c₁ : Cursor = advance (advance c 2) (length host) in
      let h₁ : Sees c₁ r₁ = read_string-advance c host r₁ h in
      let h₂ : Sees (advance c₁ 2) r₂ = advance-Sees c₁ (u16_be port) r₂ h₁ in
      let (c₃, e₃, h₃) = read_proxy-Sees (advance c₁ 2) egress_proxy ns ts h₂ in
      rw (read_string-Sees c host r₁ n t h)
        (rw (read_u16-Sees c₁ port r₂ p h₁) (rw e₃ (rw (ensure_empty-Sees c₃ h₃))))

-- What a successful encoding wrote, for each kind of frame.
abbrev pub Writes : Frame → ℕ × ℕ × Bytes → Type 0
Writes (open_tcp id host port egress_proxy) w =
    (length host < u16_mod)
    × IsShort egress_proxy
    × (w ≡ (1, id, u16_be (length host) ++ (host ++ (u16_be port ++ proxy_wire egress_proxy))))
Writes (open_tcp_result id accepted message) w =
    (length message < u16_mod)
    × (w ≡ (2, id, flag accepted ∷ (u16_be (length message) ++ (message ++ []))))
Writes (chunk id payload) w = w ≡ (3, id, payload)
Writes (close id reason) w =
    (length reason < u16_mod) × (w ≡ (4, id, u16_be (length reason) ++ (reason ++ [])))
Writes (udp_packet id host port payload) w =
    (length host < u16_mod)
    × (w ≡ (
      5,
      id,
      u16_be (length host)
          ++ (host ++ (u16_be port ++ (u32_be (length payload % u32_mod) ++ (payload ++ [])))),
    ))
Writes (log message) w =
    (length message < u16_mod) × (w ≡ (6, 0, u16_be (length message) ++ (message ++ [])))

pub encode_into-Writes : (f : Frame) (w : ℕ × ℕ × Bytes) → encode_into f ≡ ok w → Writes f w
unfolding encode_into
encode_into-Writes (open_tcp id host port none) w e =
    let (out, e₁, e₂) = >>=-eq-ok (write_string [] host) _ e in
    let (n, q) = write_string-eq-ok [] host out e₁ in
    (n, tt, cc (rw q at e₂, append_assoc host (u16_be port) (0 ∷ [])))
encode_into-Writes (open_tcp id host port (some proxy)) w e =
    let (out, e₁, e₂) = >>=-eq-ok (write_string [] host) _ e in
    let (n, q) = write_string-eq-ok [] host out e₁ in
    let (all, e₃, e₄) = >>=-eq-ok (write_string ((out ++ u16_be port) ++ 1 ∷ []) proxy) _ e₂ in
    let (m, r) = write_string-eq-ok _ proxy all e₃ in
    let tail : Bytes = u16_be (length proxy) ++ proxy in
    (
      n,
      m,
      cc (
        e₄,
        r ∙ ap (λ o. ((o ++ u16_be port) ++ 1 ∷ []) ++ tail) q,
        append_assoc (host ++ u16_be port) (1 ∷ []) tail,
        append_assoc host (u16_be port) (1 ∷ tail),
        append-nil proxy,
      ),
    )
encode_into-Writes (open_tcp_result id accepted message) w e =
    let (out, e₁, e₂) = >>=-eq-ok (write_string (flag accepted ∷ []) message) _ e in
    let (n, q) = write_string-eq-ok _ message out e₁ in (n, cc (e₂, q, append-nil message))
encode_into-Writes (chunk id payload) w e = cc
encode_into-Writes (close id reason) w e =
    let (out, e₁, e₂) = >>=-eq-ok (write_string [] reason) _ e in
    let (n, q) = write_string-eq-ok _ reason out e₁ in (n, cc (e₂, q, append-nil reason))
encode_into-Writes (udp_packet id host port payload) w e =
    let (out, e₁, e₂) = >>=-eq-ok (write_string [] host) _ e in
    let (n, q) = write_string-eq-ok _ host out e₁ in (n, cc (rw q at e₂, append-nil payload))
encode_into-Writes (log message) w e =
    let (out, e₁, e₂) = >>=-eq-ok (write_string [] message) _ e in
    let (n, q) = write_string-eq-ok _ message out e₁ in (n, cc (e₂, q, append-nil message))

new-Sees_of_le : (v w : ℕ × ℕ × Bytes) → v ≡ w → length v.2 ≤ max_frame → Sees (new w.2) w.2
new-Sees_of_le v w q l = new-Sees w.2 (omega (arith, ap (λ x. length x.2) q))

decode-Writes :
    (f : Frame) (w : ℕ × ℕ × Bytes)
    → IsTyped f
    → Writes f w
    → length w.2 ≤ max_frame
    → decode w.0 w.1 w.2 ≡ ok f
unfolding decode
decode-Writes (open_tcp id host port egress_proxy) w t (n, m, q) l =
    rw q (decode_open_tcp-Sees _ id host port egress_proxy n t.1 t.2 m t.3 (new-Sees_of_le w _ q l))
decode-Writes (open_tcp_result id accepted message) w t (n, q) l =
    rw q (decode_open_tcp_result-Sees _ id accepted message n t.1 (new-Sees_of_le w _ q l))
decode-Writes (chunk id payload) w t q l = rw q
decode-Writes (close id reason) w t (n, q) l =
    rw q (decode_close-Sees _ id reason n t.1 (new-Sees_of_le w _ q l))
decode-Writes (udp_packet id host port payload) w t (n, q) l =
    let sized : Bytes = u32_be (length payload % u32_mod) ++ (payload ++ []) in
    let short : length payload < u32_mod = omega (
      arith,
      ap (λ x. length x.2) q,
      length-append host (u16_be port ++ sized),
      ap length (append-nil payload),
    ) in
    let q' = rw (mod-eq_of_lt short) at q in
    rw q' (decode_udp_packet-Sees _ id host port payload n t.1 t.2 short (new-Sees_of_le w _ q' l))
decode-Writes (log message) w t (n, q) l =
    rw q (decode_log-Sees _ message n t (new-Sees_of_le w _ q l))

-- The payload of an encoded frame is decoded to that frame, if its numbers are in range, its texts
-- are UTF-8 and the payload is within the limit that the writer and the reader keep.
pub decode-encode_into :
    (f : Frame) (ty id : ℕ) (payload : Bytes)
    → IsTyped f
    → encode_into f ≡ ok (ty, id, payload)
    → length payload ≤ max_frame
    → decode ty id payload ≡ ok f
decode-encode_into f ty id payload t e l =
    decode-Writes f (ty, id, payload) t (encode_into-Writes f (ty, id, payload) e) l

pub decode_chunk : (id : ℕ) (payload : Bytes) → decode 3 id payload ≡ ok (chunk id payload)
unfolding decode
decode_chunk id payload = refl

Writes-id : (f : Frame) (w : ℕ × ℕ × Bytes) → IsTyped f → Writes f w → w.1 < u32_mod
Writes-id (open_tcp id host port egress_proxy) w t h = rw h.2 t.0
Writes-id (open_tcp_result id accepted message) w t h = rw h.1 t.0
Writes-id (chunk id payload) w t h = rw h t.0
Writes-id (close id reason) w t h = rw h.1 t.0
Writes-id (udp_packet id host port payload) w t h = rw h.1 t.0
Writes-id (log message) w t h = rw h.1 (omega arith)

pub encode_into-id :
    (f : Frame) (ty id : ℕ) (payload : Bytes)
    → IsTyped f
    → encode_into f ≡ ok (ty, id, payload)
    → id < u32_mod
encode_into-id f ty id payload t e =
    Writes-id f (ty, id, payload) t (encode_into-Writes f (ty, id, payload) e)

pub encode_into_chunk :
    (id : ℕ) (payload : Bytes) → encode_into (chunk id payload) ≡ ok (3, id, payload)
unfolding encode_into
encode_into_chunk id payload = refl
