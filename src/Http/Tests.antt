-- ===== src/Http/Tests.antt =====
-- Messages, read and rewritten: the cases of crates/ssh-proxy-transport/tests/http_proxy.rs.
use ssh_proxy.Base.{
  ◌≡◌, refl, true, false, [], ◌∷◌, ◌++◌, ok, err, List, arith, is_some, length, ◌≤◌,
}
use ssh_proxy.Wire.Bytes.{Bytes, ascii, is_utf8}
use ssh_proxy.Http.Text.{
  concat, split_crlf, split_whitespace, trim, starts_with, eq_ignore_ascii_case,
}
use ssh_proxy.Http.Text.Lines.{crlf, unlines}
use ssh_proxy.Http.Authority.{parse_host_port, parse_absolute_http_target, invalid_suffix}
use ssh_proxy.Http.Headers.{header_lines, kept_lines, http_header_end}
use ssh_proxy.Http.Request.{
  closed_before_headers, only_absolute_form, invalid_request_line, forward, gather, parse_head,
  parse_request, read_from,
}
use ssh_proxy.Http.Request.Forwarded.{IsForwarded, parse_request-IsForwarded}
use ssh_proxy.Http.Response.{http_error}
use ssh_proxy.Http.Relay.{reading_head, relay_http_forward_spx_response, header_limit}
use ssh_proxy.Http.Relay.Whole.{response_of, relay_http_forward_spx_response-chunks}

abbrev lines : List Bytes → Bytes
lines [] = crlf
lines (l ∷ ls) = l ++ (crlf ++ lines ls)

abbrev get_request : Bytes
get_request =
    lines (
      ascii "GET http://example.com:8080?q=1 HTTP/1.1"
      ∷ ascii "Host: example.com"
      ∷ ascii "Connection: keep-alive, X-Trace"
      ∷ ascii "x-trace: 7"
      ∷ ascii "Proxy-Authorization: secret"
      ∷ [])
    ++ ascii "body"

abbrev forwarded_request : Bytes
forwarded_request =
    lines (ascii "GET /?q=1 HTTP/1.1" ∷ ascii "Host: example.com" ∷ ascii "connection: close" ∷ [])
    ++ ascii "body"

get_forwarded :
    parse_request get_request ≡ ok (forward (ascii "example.com") 8080 forwarded_request)
unfolding parse_request parse_head is_utf8 split_crlf split_whitespace starts_with
    eq_ignore_ascii_case parse_absolute_http_target header_lines kept_lines unlines http_header_end
get_forwarded = refl

parse_request-IsForwarded_example :
    IsForwarded get_request (ascii "example.com") 8080 forwarded_request
parse_request-IsForwarded_example =
    parse_request-IsForwarded get_request (ascii "example.com") 8080 forwarded_request get_forwarded

origin_form : parse_request (lines (ascii "GET / HTTP/1.1" ∷ [])) ≡ err only_absolute_form
unfolding parse_request parse_head is_utf8 split_crlf split_whitespace starts_with
    eq_ignore_ascii_case parse_absolute_http_target http_header_end
origin_form = refl

four_words : parse_request (lines (ascii "GET / x HTTP/1.1" ∷ [])) ≡ err invalid_request_line
unfolding parse_request parse_head is_utf8 split_crlf split_whitespace http_header_end
four_words = refl

cut_short :
    read_from (λ k. 3) (record { ahead = ascii "GET /"; broken = false })
    ≡ err closed_before_headers
unfolding read_from gather
cut_short = refl

bracketed_host : parse_host_port (ascii "[::1]:8080") 80 ≡ ok (ascii "::1", 8080)
unfolding parse_host_port
bracketed_host = refl

bracketed_suffix : parse_host_port (ascii "[::1]8080") 80 ≡ err invalid_suffix
unfolding parse_host_port
bracketed_suffix = refl

plus_port : parse_host_port (ascii "h:+80") 443 ≡ ok (ascii "h", 80)
unfolding parse_host_port
plus_port = refl

wide_space : trim (0xe2 ∷ 0x80 ∷ 0x83 ∷ ascii "a b" ++ 0xc2 ∷ 0xa0 ∷ []) ≡ ascii "a b"
unfolding trim
wide_space = refl

abbrev response_head : Bytes
response_head =
    lines (ascii "HTTP/1.1 200 OK" ∷ ascii "Content-Length: 5" ∷ ascii "Keep-Alive: timeout=5" ∷ [])

abbrev closed_head : Bytes
closed_head =
    lines (ascii "HTTP/1.1 200 OK" ∷ ascii "Content-Length: 5" ∷ ascii "connection: close" ∷ [])

has_header : is_some (http_header_end (concat (response_head ∷ []))) ≡ true
unfolding http_header_end concat
has_header = refl

has_room : length (concat (response_head ∷ [])) ≤ header_limit
unfolding concat
has_room = omega arith

relay_http_forward_spx_response-chunks_example :
    relay_http_forward_spx_response
      (reading_head [])
      (response_head ∷ ascii "he" ∷ ascii "llo and more" ∷ [])
    ≡ response_of (concat (response_head ∷ ascii "he" ∷ ascii "llo and more" ∷ []))
relay_http_forward_spx_response-chunks_example =
    relay_http_forward_spx_response-chunks (response_head ∷ [])
      (ascii "he" ∷ ascii "llo and more" ∷ []) has_header has_room

five_octets :
    relay_http_forward_spx_response
      (reading_head [])
      (response_head ∷ ascii "he" ∷ ascii "llo and more" ∷ [])
    ≡ ok (closed_head ++ ascii "hello")
unfolding relay_http_forward_spx_response is_utf8 kept_lines unlines
five_octets = refl

-- The answer behind an interim response is not relayed.
interim :
    relay_http_forward_spx_response
      (reading_head [])
      (lines (ascii "HTTP/1.1 100 Continue" ∷ []) ∷ response_head ∷ ascii "hello" ∷ [])
    ≡ ok (lines (ascii "HTTP/1.1 100 Continue" ∷ ascii "connection: close" ∷ []))
unfolding relay_http_forward_spx_response is_utf8 kept_lines unlines
interim = refl

bad_gateway :
    http_error 502 (ascii "Bad Gateway")
    ≡ lines (
        ascii "HTTP/1.1 502 Bad Gateway"
        ∷ ascii "content-length: 16"
        ∷ ascii "connection: close"
        ∷ [])
      ++ (ascii "502 Bad Gateway" ++ b'\n' ∷ [])
unfolding http_error
bad_gateway = refl
