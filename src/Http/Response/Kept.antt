-- ===== src/Http/Response/Kept.antt =====
-- What a response says when its head was rewritten: crates/ssh-proxy-transport/src/proxy/http.rs.
use ssh_proxy.Base.{ℕ, ◌≡◌, [], ◌∷◌, ◌++◌, ok}
use ssh_proxy.Wire.Bytes.{Bytes}
use ssh_proxy.Http.Text.{split_crlf}
use ssh_proxy.Http.Headers.{header_lines, kept_lines, first_line}
use ssh_proxy.Http.Request.{close_line}
use ssh_proxy.Http.Request.Forwarded.{IsSplit}
use ssh_proxy.Http.Response.{
  HttpResponseBodyMode, parse_response_status, framing_from, no_framing, body_mode,
}

-- What a head that is accepted is turned into.
pub record IsKept (head out : Bytes) (mode : HttpResponseBodyMode) : Type 0 where
  pub status : ℕ
  pub status_is : parse_response_status (first_line (split_crlf head)) ≡ ok status
  pub mode_is : mode ≡ body_mode status (framing_from no_framing (header_lines head))
  pub split :
      IsSplit out
        (first_line (split_crlf head))
        (kept_lines (header_lines head) ++ close_line ∷ [])
        []
