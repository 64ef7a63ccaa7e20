-- ===== src/Quic/Header/Written.antt =====
-- The octets of a stream header that is encoded: crates/ssh-proxy/src/quic_native/stream_header.rs.
use mathlib.Core.Path.{subst}
use native.Mathlib.Nat.{mod-eq_of_lt}
use ssh_proxy.Base.{
  ◌+◌, ◌%◌, ◌<◌, ◌≤◌, ◌≡◌, refl, Bool, true, false, not, [], ◌∷◌, ◌++◌, Option, none, some, ok,
  arith, leb, ltb, leb→le, length, length-append, append-nil, Bool-cases, inl, inr, >>=-eq-ok,
  ensure,
}
use ssh_proxy.Wire.Bytes.{Bytes, u16_mod, u16_be, u32_be, u64_be}
use ssh_proxy.Wire.Frame.Payload.{proxy_wire, IsShort}
use ssh_proxy.Quic.Header.{
  StreamHeader, header_too_large, stream_header_magic, max_stream_header, stream_header_version,
  to_wire, header_string, egress_field, header_body, encode, egress_len, encoded_capacity_hint,
}

-- A guard that was passed.
ensure-eq-ok : {E : Type 0} (b : Bool) (e : E) {u : Unit {0}} → ensure b e ≡ ok u → b ≡ true
ensure-eq-ok true e h = refl
ensure-eq-ok false e h = cc

header_string-eq-ok :
    (s o : Bytes) → header_string s ≡ ok o → (length s < u16_mod) × (o ≡ u16_be (length s) ++ s)
unfolding header_string
header_string-eq-ok s o e = elim (Bool-cases (leb (length s) 65535)) [
  | inl short ↦
      let lt : length s < u16_mod = omega (arith, leb→le _ _ short) in
      (lt, ground (arith, e, short, mod-eq_of_lt lt))
  | inr long ↦ absurd (ground (arith, e, long))
]

egress_field-eq-ok :
    (proxy : Option Bytes) (o : Bytes)
    → egress_field proxy ≡ ok o
    → IsShort proxy × (o ≡ proxy_wire proxy)
unfolding egress_field
egress_field-eq-ok none o e = (tt, cc)
egress_field-eq-ok (some proxy) o e =
    let (text, read, rest) = >>=-eq-ok (header_string proxy) (λ t. ok (1 ∷ t)) e in
    let (short, eq) = header_string-eq-ok proxy text read in
    (short, cc (rest, eq, append-nil proxy))

-- The body of a header with texts that are short enough.
abbrev pub body_of : StreamHeader → Bytes
body_of h =
    u32_be h.flags
    ++ (u64_be h.stream_id
        ++ (to_wire h.target.kind ∷ u16_be (length h.route_id)
            ++ (h.route_id
                ++ (u16_be (length h.target.host)
                    ++ (h.target.host ++ (u16_be h.target.port ++ proxy_wire h.egress_proxy))))))

pub record HasShortTexts (h : StreamHeader) : Type 0 where
  pub route : length h.route_id < u16_mod
  pub host : length h.target.host < u16_mod
  pub egress : IsShort h.egress_proxy

header_body-eq-ok :
    (h : StreamHeader) (o : Bytes) → header_body h ≡ ok o → HasShortTexts h × (o ≡ body_of h)
unfolding header_body
header_body-eq-ok h o e =
    let (route, e₁, r₁) = >>=-eq-ok (header_string h.route_id) _ e in
    let (host, e₂, r₂) = >>=-eq-ok (header_string h.target.host) _ r₁ in
    let (egress, e₃, r₃) = >>=-eq-ok (egress_field h.egress_proxy) _ r₂ in
    let (short₁, eq₁) = header_string-eq-ok h.route_id route e₁ in
    let (short₂, eq₂) = header_string-eq-ok h.target.host host e₂ in
    let (short₃, eq₃) = egress_field-eq-ok h.egress_proxy egress e₃ in
    (record { route = short₁; host = short₂; egress = short₃ }, cc (rw (eq₁, eq₂, eq₃) at r₃))

-- What stands around a body: the magic, the version and the length of the body in 16 bits.
abbrev pub enclosed : Bytes → Bytes
enclosed body =
    stream_header_magic
    ++ (u16_be stream_header_version ++ (u16_be (length body % u16_mod) ++ body))

-- The texts of an encoded header are short, and its body is within the limit.
pub record IsWritten (h : StreamHeader) (octets : Bytes) : Type 0 where
  pub texts : HasShortTexts h
  pub laid_out : (length (body_of h) ≤ max_stream_header) × (octets ≡ enclosed (body_of h))

pub encode-IsWritten : (h : StreamHeader) (o : Bytes) → encode h ≡ ok o → IsWritten h o
unfolding encode
encode-IsWritten h o e =
    let (body, e₁, r₁) = >>=-eq-ok (header_body h) _ e in
    let (short, eq) = header_body-eq-ok h body e₁ in
    let (passed, e₂, r₂) =
      >>=-eq-ok
        (ensure (not (ltb max_stream_header (length body))) (header_too_large (length body))) _
        r₁ in
    let fits : length body ≤ max_stream_header = let g = ensure-eq-ok _ _ e₂ in ground (arith, g) in
    let whole : o ≡ enclosed body = cc (r₂) in
    record {
      texts = short;
      laid_out = subst (λ b. (length b ≤ max_stream_header) × (o ≡ enclosed b)) eq (fits, whole);
    }

length-proxy_wire : (proxy : Option Bytes) → length (proxy_wire proxy) ≡ 1 + egress_len proxy
length-proxy_wire none = refl
length-proxy_wire (some proxy) = omega (arith, length-append proxy [])

pub length-body_of : (h : StreamHeader) → 8 + length (body_of h) ≡ encoded_capacity_hint h
length-body_of h =
    let last = u16_be h.target.port ++ proxy_wire h.egress_proxy in
    let host = h.target.host ++ last in
    omega (
      arith,
      length-append h.route_id (u16_be (length h.target.host) ++ host),
      length-append h.target.host last,
      length-proxy_wire h.egress_proxy,
    )

-- The capacity that is reserved for a header is exactly its size.
pub length-encode :
    (h : StreamHeader) (o : Bytes) → encode h ≡ ok o → length o ≡ encoded_capacity_hint h
length-encode h o e = rw ((encode-IsWritten h o e).laid_out.1) (omega (arith, length-body_of h))
