-- ===== src/Http/Request.antt =====
-- `HttpRequest::read_from` of crates/ssh-proxy-transport/src/proxy/http.rs.
pub mod Forwarded
pub mod Connect
pub mod Gathered
use ssh_proxy.Base.{
  ℕ, zero, suc, ◌+◌, List, [], ◌∷◌, ◌++◌, is_some, Result, ok, err, ◌>>=◌, ◌>>◌, ensure, ok_or, ltb,
  ◌==◌, if◌then◌else◌, length, take, drop, min,
}
use ssh_proxy.Wire.Bytes.{Bytes, ascii, is_utf8}
use ssh_proxy.Wire.Source.{Source}
use ssh_proxy.Http.Text.{split_crlf, split_whitespace, starts_with, eq_ignore_ascii_case}
use ssh_proxy.Http.Text.Lines.{crlf, unlines}
use ssh_proxy.Http.Authority.{AuthorityError, parse_host_port, parse_absolute_http_target}
use ssh_proxy.Http.Headers.{header_lines, kept_lines, first_line, http_header_end}

pub data HttpError : Type 0 where
  read_failed closed_before_headers headers_too_large missing_terminator not_utf8 : HttpError
  missing_method missing_target missing_version invalid_request_line : HttpError
  only_absolute_form stuck : HttpError
  missing_response_version invalid_response_line missing_status invalid_status : HttpError
  authority : AuthorityError → HttpError

pub data HttpRequestKind : Type 0 where
  connect : Bytes → ℕ → HttpRequestKind
  forward : Bytes → ℕ → Bytes → HttpRequestKind

-- `stream.read(&mut buf)` into 1024 octets, of which `1 + size` are ready.
abbrev pub read : ℕ → Source → Bytes × Source
read size s =
    let n = min 1024 (min (suc size) (length s.ahead)) in
    (take n s.ahead, record s { ahead = drop n s.ahead })

-- The loop: until the header is complete. `sizes k` is how much the k-th read finds ready.
unfoldable pub gather :
    (fuel : ℕ) (sizes : ℕ → ℕ) (k : ℕ) (bytes : Bytes) (s : Source)
    → Result HttpError (Bytes × Source)
unfolding http_header_end
gather zero sizes k bytes s = err stuck
gather (suc fuel) sizes k bytes s =
    let (buf, s') = read (sizes k) s in
    let bytes' = bytes ++ buf in
    let more = gather fuel sizes (k + 1) bytes' s' in
    if length s.ahead == 0
    then err (if s.broken then read_failed else closed_before_headers)
    else if is_some (http_header_end bytes')
    then ok (bytes', s')
    else if ltb 65536 (length bytes')
    then err headers_too_large
    else more

abbrev pub checked : Bytes → Bytes → Bytes → Result HttpError (Bytes × Bytes × Bytes)
checked method target version =
    if starts_with (ascii "HTTP/") version
    then ok (method, target, version)
    else err invalid_request_line

abbrev pub request_parts : List Bytes → Result HttpError (Bytes × Bytes × Bytes)
request_parts [] = err missing_method
request_parts (method ∷ []) = err missing_target
request_parts (method ∷ target ∷ []) = err missing_version
request_parts (method ∷ target ∷ version ∷ []) = checked method target version
request_parts (method ∷ target ∷ version ∷ part ∷ parts) = err invalid_request_line

abbrev pub connect_to : Result AuthorityError (Bytes × ℕ) → Result HttpError HttpRequestKind
connect_to (err e) = err (authority e)
connect_to (ok (host, port)) = ok (connect host port)

abbrev pub request_line : Bytes → Bytes → Bytes → Bytes
request_line method path version = method ++ (b' ' ∷ (path ++ b' ' ∷ version))

abbrev pub close_line : Bytes
close_line = ascii "connection: close"

-- The request as it goes to the server.
abbrev pub rewritten : Bytes → List Bytes → Bytes → Bytes
rewritten first lines body =
    unlines (first ∷ kept_lines lines) ++ (close_line ++ (crlf ++ (crlf ++ body)))

abbrev pub request_kind :
    List Bytes → Bytes → Bytes × Bytes × Bytes → Result HttpError HttpRequestKind
request_kind lines body (method, target, version) =
    if eq_ignore_ascii_case method (ascii "CONNECT")
    then connect_to (parse_host_port target 443)
    else (do
      t ← ok_or (parse_absolute_http_target target) only_absolute_form
      ok (forward t.host t.port (rewritten (request_line method t.path version) lines body)))

-- What is made of the header, and of the octets that were read behind it.
unfoldable pub parse_head : Bytes → Bytes → Result HttpError HttpRequestKind
parse_head headers body = do
  ensure (is_utf8 headers) not_utf8
  parts ← request_parts (split_whitespace (first_line (split_crlf headers)))
  request_kind (header_lines headers) body parts

unfoldable pub parse_request : Bytes → Result HttpError HttpRequestKind
parse_request bytes = do
  header_end ← ok_or (http_header_end bytes) missing_terminator
  parse_head (take header_end bytes) (drop header_end bytes)

-- The request, and the stream behind what was read.
unfoldable pub read_from : (ℕ → ℕ) → Source → Result HttpError (HttpRequestKind × Source)
read_from sizes s = do
  (bytes, s') ← gather (suc (length s.ahead)) sizes 0 [] s
  kind ← parse_request bytes
  ok (kind, s')
