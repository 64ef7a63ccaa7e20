-- ===== src/Quic/Flow/Whole.antt =====
-- A flow header that was written is read: crates/ssh-proxy/src/quic_native/flow.rs.
use mathlib.Core.Path.{subst}
use ssh_proxy.Base.{
  ◌%◌, ◌<◌, ◌≡◌, refl, sym, ap, ◌∙◌, true, false, Bool-cases, [], ◌++◌, Result, ok, err, ◌>>=◌,
  ◌>>◌, ensure, leb, ltb, le→leb, ◌==◌, length, take, drop, ◌⊎◌, inl, inr, arith, length-append,
  append-nil, take-append_self, drop-append_self,
}
use ssh_proxy.Wire.Bytes.{Bytes, u16_mod, u16_be, from_be, from_be-u16_be}
use ssh_proxy.Wire.Cursor.{payload_truncated}
use ssh_proxy.Quic.Header.{
  StreamHeader, cursor_failed, encode, encoded_capacity_hint, decode, decode_body,
}
use ssh_proxy.Quic.Header.Written.{body_of, enclosed, encode-IsWritten, length-body_of}
use ssh_proxy.Quic.Header.ReadBack.{
  IsHeader, decode_body-body_of, decode-enclosed, nothing_decodes, decode-enclosed_short,
}
use ssh_proxy.Quic.Flow.{
  FlowError, header_failed, consumed_other, through, write_flow_header, read_flow_header,
}

-- The eight octets in front of a body.
abbrev front : Bytes → Bytes
front body = take 8 (enclosed body)

-- What is done with the octets of a header, and with those behind them.
unfoldable finish : Bytes → Bytes → Result FlowError (StreamHeader × Bytes)
finish octets rest = through (decode octets) >>= λ r.
    ensure (r.1 == length octets) (consumed_other (r.1)) >> ok (r.0, rest)

read_enclosed :
    (body rest : Bytes)
    → let n = length body % u16_mod in
      read_flow_header (enclosed body ++ rest)
      ≡ finish (front body ++ take n (body ++ rest)) (drop n (body ++ rest))
unfolding read_flow_header finish
read_enclosed body rest =
    let n = length body % u16_mod in
    let size : from_be 0 (u16_be n) ≡ n = from_be-u16_be n (omega arith) in
    let here : leb 8 (length (enclosed body ++ rest)) ≡ true = ground arith in
    let within : leb n (length (body ++ rest)) ≡ true =
      le→leb n (length (body ++ rest)) (omega (arith, length-append body rest)) in
    let fits : ltb 65536 n ≡ false = ground arith in rw (here, size, fits, within) refl

finished :
    (h : StreamHeader) (octets rest : Bytes)
    → decode octets ≡ ok (h, length octets)
    → finish octets rest ≡ ok (h, rest)
unfolding finish
finished h octets rest e =
    let itself : (length octets == length octets) ≡ true = ground arith in rw (e, itself) refl

read_enclosed_short :
    (h : StreamHeader) (body rest : Bytes)
    → decode_body body ≡ ok h
    → length body < u16_mod
    → read_flow_header (enclosed body ++ rest) ≡ ok (h, rest)
read_enclosed_short h body rest e short =
    let m = length body % u16_mod in
    let n : m ≡ length body = omega arith in
    let taken : take m (body ++ rest) ≡ body =
      ap (λ k. take k (body ++ rest)) n ∙ take-append_self body rest in
    let left : drop m (body ++ rest) ≡ rest =
      ap (λ k. drop k (body ++ rest)) n ∙ drop-append_self body rest in
    let again : decode (enclosed body) ≡ ok (h, length (enclosed body)) =
      subst (λ s. decode s ≡ ok (h, length (enclosed body))) (append-nil (enclosed body))
        (decode-enclosed_short h body [] e short) in
    read_enclosed body rest
    ∙ ap (λ s. finish (front body ++ s) (drop m (body ++ rest))) taken
    ∙ ap (finish (enclosed body)) left
    ∙ finished h (enclosed body) rest again

-- The length of a body of 65536 octets is written as 0.
read_enclosed_wrapped :
    (body rest : Bytes)
    → length body ≡ u16_mod
    → read_flow_header (enclosed body ++ rest)
      ≡ err (header_failed (cursor_failed payload_truncated))
unfolding finish
read_enclosed_wrapped body rest long =
    let n : length body % u16_mod ≡ 0 = omega arith in
    let empty : decode (enclosed []) ≡ err (cursor_failed payload_truncated) =
      decode-enclosed [] [] ∙ rw nothing_decodes refl in
    read_enclosed body rest ∙ rw (n, empty) refl

through-eq-ok : {A : Type 0} (r : Result _ A) {a : A} → through r ≡ ok a → r ≡ ok a
through-eq-ok (ok x) e = cc e
through-eq-ok (err x) e = cc e

-- A flow header that was written is read back, with what follows it left in the stream, if it has at most
-- 65543 octets; the one size above that the writer still accepts, 65544 octets, is refused as truncated.
-- The numbers of the header are in range and its texts in UTF-8.
pub read_flow_header-write_flow_header :
    (h : StreamHeader) (o rest : Bytes)
    → IsHeader h
    → write_flow_header h ≡ ok o
    → ((encoded_capacity_hint h < 65544) × (read_flow_header (o ++ rest) ≡ ok (h, rest)))
      ⊎ ((encoded_capacity_hint h ≡ 65544)
          × (read_flow_header (o ++ rest) ≡ err (header_failed (cursor_failed payload_truncated))))
unfolding write_flow_header
read_flow_header-write_flow_header h o rest w e =
    let t = encode-IsWritten h o (through-eq-ok (encode h) e) in
    let size = length-body_of h in
    let o_is = sym (t.laid_out.1) in
    elim (Bool-cases (ltb (length (body_of h)) u16_mod)) [
      | inl short ↦
          let small : length (body_of h) < u16_mod = ground (arith, short) in
          let read = decode_body-body_of h w t.texts (omega arith) in
          inl (
            omega arith,
            subst (λ s. read_flow_header (s ++ rest) ≡ ok (h, rest)) o_is
                (read_enclosed_short h (body_of h) rest read small),
          )
      | inr long ↦
          let same : length (body_of h) ≡ u16_mod = let l = t.laid_out.0 in ground (arith, long) in
          inr (
            omega arith,
            subst
                (λ s.
                  read_flow_header (s ++ rest)
                  ≡ err (header_failed (cursor_failed payload_truncated)))
                o_is (read_enclosed_wrapped (body_of h) rest same),
          )
    ]
