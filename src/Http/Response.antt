-- ===== src/Http/Response.antt =====
-- `rewrite_response_head_for_proxy_close` of crates/ssh-proxy-transport/src/proxy/http.rs.
pub mod Kept
use ssh_proxy.Base.{
  ℕ, Bool, true, false, ◌||◌, ◌&&◌, List, [], ◌∷◌, ◌++◌, Option, none, some, Result, ok, err, ◌>>=◌,
  ◌>>◌, ensure, ok_or, ltb, leb, ◌==◌, if◌then◌else◌, length,
}
use ssh_proxy.Wire.Bytes.{Bytes, ascii, u16_mod, usize_mod, is_utf8}
use ssh_proxy.Http.Text.{
  split_crlf, split_whitespace, split_on, trim, starts_with, eq_ignore_ascii_case, parse_uint,
}
use ssh_proxy.Http.Text.Lines.{crlf}
use ssh_proxy.Http.Text.Numbers.{show_uint}
use ssh_proxy.Http.Headers.{split_header, header_lines, first_line}
use ssh_proxy.Http.Request.{
  HttpError, not_utf8, missing_response_version, invalid_response_line, missing_status,
  invalid_status, rewritten,
}

pub data HttpResponseBodyMode : Type 0 where
  content_length : ℕ → HttpResponseBodyMode
  chunked close_delimited no_body : HttpResponseBodyMode

abbrev status_of : List Bytes → Result HttpError ℕ
status_of [] = err missing_status
status_of (part ∷ parts) = ok_or (parse_uint u16_mod part) invalid_status

abbrev status_parts : List Bytes → Result HttpError ℕ
status_parts [] = err missing_response_version
status_parts (version ∷ parts) =
    if starts_with (ascii "HTTP/") version then status_of parts else err invalid_response_line

unfoldable pub parse_response_status : Bytes → Result HttpError ℕ
unfolding split_whitespace starts_with parse_uint
parse_response_status status_line = status_parts (split_whitespace status_line)

abbrev pub response_status_has_no_body : ℕ → Bool
response_status_has_no_body status =
    (leb 100 status && ltb status 200) || (status == 204) || (status == 304)

-- What the header lines say of the body: the length of the first `content-length` that is a number,
-- and whether a `transfer-encoding` says chunked.
pub record Framing : Type 0 where
  pub length : Option ℕ
  pub chunks : Bool

unfoldable pub has_chunked : List Bytes → Bool
unfolding trim eq_ignore_ascii_case
has_chunked [] = false
has_chunked (token ∷ tokens) =
    eq_ignore_ascii_case (trim token) (ascii "chunked") || has_chunked tokens

abbrev first_length : Option ℕ → Bytes → Option ℕ
first_length (some n) value = some n
first_length none value = parse_uint usize_mod value

abbrev note_header : Framing → Option (Bytes × Bytes) → Framing
note_header f none = f
note_header f (some (name, value)) =
    if eq_ignore_ascii_case name (ascii "content-length")
    then record f { length = first_length f.length value }
    else if eq_ignore_ascii_case name (ascii "transfer-encoding")
        && has_chunked (split_on b',' value)
    then record f { chunks = true }
    else f

unfoldable pub framing_from : Framing → List Bytes → Framing
unfolding split_header eq_ignore_ascii_case parse_uint has_chunked split_on
framing_from f [] = f
framing_from f (line ∷ lines) = framing_from (note_header f (split_header line)) lines

abbrev length_mode : Option ℕ → HttpResponseBodyMode
length_mode (some n) = content_length n
length_mode none = close_delimited

abbrev pub body_mode : ℕ → Framing → HttpResponseBodyMode
body_mode status f =
    if response_status_has_no_body status
    then no_body
    else if f.chunks
    then chunked
    else length_mode f.length

abbrev pub no_framing : Framing
no_framing = record { length = none; chunks = false }

unfoldable pub rewrite_response_head_for_proxy_close :
    Bytes → Result HttpError (Bytes × HttpResponseBodyMode)
unfolding parse_response_status framing_from header_lines split_crlf
rewrite_response_head_for_proxy_close head = do
  ensure (is_utf8 head) not_utf8
  status ← parse_response_status (first_line (split_crlf head))
  ok (
    rewritten (first_line (split_crlf head)) (header_lines head) [],
    body_mode status (framing_from no_framing (header_lines head)),
  )

-- What `write_http_error` writes.
unfoldable pub http_error : ℕ → Bytes → Bytes
unfolding show_uint
http_error status reason =
    let body = show_uint status ++ (b' ' ∷ reason ++ b'\n' ∷ []) in
    ascii "HTTP/1.1 "
    ++ (show_uint status
        ++ (b' '
            ∷ (reason
                ++ (crlf
                    ++ (ascii "content-length: "
                        ++ (show_uint (length body)
                            ++ (crlf
                                ++ (ascii "connection: close" ++ (crlf ++ (crlf ++ body))))))))))
