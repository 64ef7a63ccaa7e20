-- ===== src/Quic/Flow.antt =====
-- The header in front of a flow: crates/ssh-proxy/src/quic_native/flow.rs. A writer is the octets that it is
-- given, a reader the octets that are still to come and an end.
pub mod Whole
use ssh_proxy.Base.{
  ℕ, ◌+◌, ◌<◌, ◌≡◌, refl, ap, ◌∙◌, not, [], ◌∷◌, ◌++◌, Result, ok, err, ◌>>=◌, ◌>>◌, ensure, leb,
  ltb, ◌==◌, if◌then◌else◌, length, take, drop, ◌⊎◌, inl, inr, arith, length-append,
  take-append-drop, take-append_self, drop-append_self, take-add,
}
use ssh_proxy.Wire.Bytes.{Bytes, from_be}
use ssh_proxy.Wire.Cursor.{payload_truncated}
use ssh_proxy.Quic.Header.{
  StreamHeader, HeaderError, cursor_failed, max_stream_header, encode, encoded_capacity_hint,
  decode,
}

pub data FlowError : Type 0 where
  prefix_unread body_unread : FlowError
  flow_header_too_large consumed_other : ℕ → FlowError
  header_failed : HeaderError → FlowError

abbrev pub through : {A : Type 0} → Result HeaderError A → Result FlowError A
through (ok x) = ok x
through (err e) = err (header_failed e)

-- `read_exact`.
unfoldable pub read_flow : FlowError → ℕ → Bytes → Result FlowError (Bytes × Bytes)
read_flow e n s = if leb n (length s) then ok (take n s, drop n s) else err e

unfoldable pub write_flow_header : StreamHeader → Result FlowError Bytes
write_flow_header h = through (encode h)

-- The header, and what follows it.
unfoldable pub read_flow_header : Bytes → Result FlowError (StreamHeader × Bytes)
unfolding read_flow
read_flow_header s = do
  (prefix, s₁) ← read_flow prefix_unread 8 s
  let body_len = from_be 0 (take 2 (drop 6 prefix))
  ensure (not (ltb max_stream_header body_len)) (flow_header_too_large body_len)
  (body, rest) ← read_flow body_unread body_len s₁
  (header, consumed) ← through (decode (prefix ++ body))
  ensure (consumed == length (prefix ++ body)) (consumed_other consumed)
  ok (header, rest)
