-- ===== src/Wire/Reader/Framed.antt =====
-- What the reader makes of a framed payload at the front of a connection.
use native.Mathlib.Nat.{sub-zero}
use ssh_proxy.Base.{
  ℕ, ◌%◌, ◌≤◌, ◌<◌, ◌≡◌, ap, ◌∙◌, Bool, ◌++◌, [], some, ok, ◌>>=◌, ◌==◌, if◌then◌else◌, le→leb,
  ltb-false_of_le, length, length-append, take-append_self, drop-append_self, Bool-cases, ==_iff,
  inl, inr, arith,
}
use ssh_proxy.Wire.Bytes.{Bytes, u32_mod, u32_be, from_be, from_be-u32_be}
use ssh_proxy.Wire.Frame.{
  Frame, chunk, decode, max_frame, frame_header, framed, IsTyped, encode_into,
}
use ssh_proxy.Wire.Frame.Payload.{decode-encode_into, decode_chunk, encode_into-id}
use ssh_proxy.Wire.Source.{Source, read_exact}
use ssh_proxy.Wire.Source.Chunks.{fetch, read_chunks-fetch}
use ssh_proxy.Wire.Reader.{read_data_frame, read_structured_frame, some_frame, read_body, read_from}

read_exact-append :
    (xs ys : Bytes) (broken : Bool)
    → read_exact (length xs) (record { ahead = xs ++ ys; broken = broken })
      ≡ ok (xs, record { ahead = ys; broken = broken })
unfolding read_exact
read_exact-append xs ys broken = rw (
  le→leb (length xs) (length (xs ++ ys)) (omega (arith, length-append xs ys)),
  take-append_self xs ys,
  drop-append_self xs ys,
)

fetch-append_self :
    (xs ys : Bytes) (broken : Bool)
    → fetch (length xs) [] (record { ahead = xs ++ ys; broken = broken })
      ≡ ok (xs, record { ahead = ys; broken = broken })
unfolding fetch
fetch-append_self xs ys broken = rw (
  le→leb (length xs) (length (xs ++ ys)) (omega (arith, length-append xs ys)),
  take-append_self xs ys,
  drop-append_self xs ys,
)

read_data_frame-framed :
    (sizes : ℕ → ℕ) (id : ℕ) (payload rest : Bytes) (broken : Bool)
    → read_data_frame sizes id
        (length payload)
        (record { ahead = payload ++ rest; broken = broken })
      ≡ ok (chunk id payload, record { ahead = rest; broken = broken })
unfolding read_data_frame
read_data_frame-framed sizes id payload rest broken =
    rw
      (read_chunks-fetch (length payload) sizes 0 (length payload) []
        (record { ahead = payload ++ rest; broken = broken }) (omega arith) (omega arith))
      (rw (sub-zero (length payload), fetch-append_self payload rest broken))

read_structured_frame-framed :
    (ty id : ℕ) (payload rest : Bytes) (broken : Bool)
    → read_structured_frame ty id
        (length payload)
        (record { ahead = payload ++ rest; broken = broken })
      ≡ (decode ty id payload >>= λ f. ok (f, record { ahead = rest; broken = broken }))
unfolding read_structured_frame
read_structured_frame-framed ty id payload rest broken =
    rw (read_exact-append payload rest broken, read_structured_frame)

header_len :
    (payload : Bytes)
    → length payload ≤ max_frame
    → from_be 0 (u32_be (length payload % u32_mod)) ≡ length payload
header_len payload h = from_be-u32_be (length payload % u32_mod) (omega arith) ∙ omega arith

dispatch :
    (sizes : ℕ → ℕ) (ty id : ℕ) (payload rest : Bytes) (broken : Bool)
    → let s : Source = record { ahead = payload ++ rest; broken = broken } in
      (if ty == 3
        then read_data_frame sizes id (length payload) s
        else read_structured_frame ty id (length payload) s)
      ≡ (decode ty id payload >>= λ f. ok (f, record { ahead = rest; broken = broken }))
dispatch sizes ty id payload rest broken = elim (Bool-cases (ty == 3)) [
  | inl data_frame ↦
      let three : ty ≡ 3 = (==_iff ty 3).0 data_frame in
      rw (three, decode_chunk id payload) (read_data_frame-framed sizes id payload rest broken)
  | inr other ↦ rw other (read_structured_frame-framed ty id payload rest broken)
]

read_from-framed :
    (sizes : ℕ → ℕ) (ty id : ℕ) (payload rest : Bytes) (broken : Bool)
    → id < u32_mod
    → length payload ≤ max_frame
    → read_from sizes (record { ahead = framed ty id payload ++ rest; broken = broken })
      ≡ some_frame (decode ty id payload >>= λ f. ok (f, record { ahead = rest; broken = broken }))
unfolding read_from read_body
read_from-framed sizes ty id payload rest broken i l =
    rw (read_exact-append (frame_header ty id (length payload)) (payload ++ rest) broken, read_from)
      (rw (from_be-u32_be id i, header_len payload l, ltb-false_of_le max_frame (length payload) l)
        (ap some_frame (dispatch sizes ty id payload rest broken)))

-- A frame that was encoded and framed is read back, and what follows it stays ahead.
pub read_from-encode_into :
    (sizes : ℕ → ℕ) (f : Frame) (ty id : ℕ) (payload rest : Bytes) (broken : Bool)
    → IsTyped f
    → encode_into f ≡ ok (ty, id, payload)
    → length payload ≤ max_frame
    → read_from sizes (record { ahead = framed ty id payload ++ rest; broken = broken })
      ≡ ok (some f, record { ahead = rest; broken = broken })
read_from-encode_into sizes f ty id payload rest broken t e l = rw (
  read_from-framed sizes ty id payload rest broken (encode_into-id f ty id payload t e) l,
  decode-encode_into f ty id payload t e l,
)
