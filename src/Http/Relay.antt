-- ===== src/Http/Relay.antt =====
-- How the response to a forwarded request reaches the client, chunk by chunk:
-- `write_http_forward_response_chunk` and its loop in crates/ssh-proxy/src/socks/relay.rs.
pub mod Whole
use ssh_proxy.Base.{
  ℕ, zero, suc, ◌+◌, ◌-◌, Bool, true, false, List, [], ◌∷◌, ◌++◌, Option, none, some, Result, ok,
  err, ◌>>=◌, ltb, ◌==◌, if◌then◌else◌, length, take, drop, min,
}
use ssh_proxy.Wire.Bytes.{Bytes}
use ssh_proxy.Http.Headers.{http_header_end}
use ssh_proxy.Http.Request.{HttpError}
use ssh_proxy.Http.Response.{
  HttpResponseBodyMode, content_length, chunked, close_delimited, no_body,
  rewrite_response_head_for_proxy_close,
}

pub data RelayError : Type 0 where
  headers_too_large : RelayError
  bad_head : HttpError → RelayError

pub data HttpForwardResponseState : Type 0 where
  reading_head : Bytes → HttpForwardResponseState
  counted : ℕ → HttpForwardResponseState
  in_chunks until_close done : HttpForwardResponseState

unfoldable pub from_body_mode : HttpResponseBodyMode → HttpForwardResponseState
from_body_mode (content_length length) = if length == 0 then done else counted length
from_body_mode no_body = done
from_body_mode chunked = in_chunks
from_body_mode close_delimited = until_close

abbrev pub is_done : HttpForwardResponseState → Bool
is_done done = true
is_done _ = false

abbrev pub header_limit : ℕ
header_limit = 65536

-- The state behind a chunk, and what is written to the client.
abbrev pub Written : Type 0
Written = HttpForwardResponseState × Bytes

unfoldable pub write_http_forward_body_chunk : HttpForwardResponseState → Bytes → Written
write_http_forward_body_chunk (counted remaining) chunk =
    let n = min (length chunk) remaining in
    (if remaining - n == 0 then done else counted (remaining - n), take n chunk)
write_http_forward_body_chunk in_chunks chunk = (in_chunks, chunk)
write_http_forward_body_chunk until_close chunk = (until_close, chunk)
write_http_forward_body_chunk (reading_head buffer) chunk = (reading_head buffer, [])
write_http_forward_body_chunk done chunk = (done, [])

abbrev pub head_first : Bytes → Written → Written
head_first head (state, out) = (state, head ++ out)

-- The head in its new form, with what came behind it.
abbrev pub begin_body :
    Bytes → Result HttpError (Bytes × HttpResponseBodyMode) → Result RelayError Written
begin_body body (err e) = err (bad_head e)
begin_body body (ok (head, mode)) =
    ok (head_first head (write_http_forward_body_chunk (from_body_mode mode) body))

abbrev pub cut_head : Bytes → Option ℕ → Result RelayError Written
cut_head buffer none = ok (reading_head buffer, [])
cut_head buffer (some header_end) =
    begin_body (drop header_end buffer)
      (rewrite_response_head_for_proxy_close (take header_end buffer))

unfoldable pub write_http_forward_response_chunk :
    HttpForwardResponseState → Bytes → Result RelayError Written
unfolding write_http_forward_body_chunk from_body_mode http_header_end
    rewrite_response_head_for_proxy_close
write_http_forward_response_chunk (reading_head buffer) chunk =
    if ltb header_limit (length (buffer ++ chunk))
    then err headers_too_large
    else cut_head (buffer ++ chunk) (http_header_end (buffer ++ chunk))
write_http_forward_response_chunk done chunk = ok (done, [])
write_http_forward_response_chunk state chunk = ok (write_http_forward_body_chunk state chunk)

abbrev pub out_first : Bytes → Result RelayError Bytes → Result RelayError Bytes
out_first out (err e) = err e
out_first out (ok rest) = ok (out ++ rest)

-- The loop over the chunks that the stream brings until it is closed.
unfoldable pub relay_http_forward_spx_response :
    HttpForwardResponseState → List Bytes → Result RelayError Bytes
unfolding write_http_forward_response_chunk
relay_http_forward_spx_response state [] = ok []
relay_http_forward_spx_response state (chunk ∷ chunks) = do
  (state', out) ← write_http_forward_response_chunk state chunk
  let rest = out_first out (relay_http_forward_spx_response state' chunks)
  if is_done state' then ok out else rest
