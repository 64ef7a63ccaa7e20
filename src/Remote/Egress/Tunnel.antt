-- ===== src/Remote/Egress/Tunnel.antt =====
-- An upstream HTTP proxy that is a proxy of this program: what it reads of the CONNECT request of the
-- remote end (crates/ssh-proxy/src/remote/egress.rs, crates/ssh-proxy-transport/src/proxy/http.rs).
use ssh_proxy.Base.{
  ℕ, ◌<◌, ◌≤◌, ◌≡◌, ◌≢◌, refl, sym, ap, ◌∙◌, false, Bool-cases, inl, inr, [], ◌∷◌, ◌++◌, none, some,
  ok, ◌==◌, if◌then◌else◌, length, length-append, append_assoc, All, All-append, arith,
}
use ssh_proxy.Wire.Bytes.{Bytes, ascii, u16_mod, is_utf8_of_ascii}
use ssh_proxy.Http.Text.{
  has, rsplit_once, split_crlf, split_whitespace, starts_with, eq_ignore_ascii_case,
}
use ssh_proxy.Http.Text.Lines.{unlines, split_crlf-line, HasNoReturn, IsLine-of_HasNoReturn}
use ssh_proxy.Http.Text.Words.{IsVisible, split_whitespace-space, split_whitespace-last}
use ssh_proxy.Http.Text.Numbers.{
  IsDigit, show_uint, show_uint-IsDigit, show_uint-length, parse_uint-show_uint,
}
use ssh_proxy.Http.Authority.{parse_host_port, plain}
use ssh_proxy.Http.Headers.{first_line, http_header_end}
use ssh_proxy.Http.Headers.Ends.{http_header_end-unlines}
use ssh_proxy.Http.Request.{HttpRequestKind, connect, parse_head, read_from}
use ssh_proxy.Http.Request.Connect.{at_end, ahead_of, read_from-whole}
use ssh_proxy.Remote.Egress.{crlf, host_port, connect_line, host_line, connect_request}

rsplit_once-none : (s : Bytes) → All IsDigit s → rsplit_once b':' s ≡ none
unfolding rsplit_once
rsplit_once-none [] h = refl
rsplit_once-none (b ∷ s) h = rw (rsplit_once-none s h.1) (ground (arith, h.0))

rsplit_once-last :
    (xs s : Bytes) → rsplit_once b':' s ≡ none → rsplit_once b':' (xs ++ b':' ∷ s) ≡ some (xs, s)
unfolding rsplit_once
rsplit_once-last [] s h = rw h refl
rsplit_once-last (x ∷ xs) s h = rw (rsplit_once-last xs s h) refl

-- A colon in the host hides the port.
abbrev pub reached : Bytes → ℕ → HttpRequestKind
reached host port = if has b':' host then connect (host_port host port) 443 else connect host port

plain-host_port :
    (host : Bytes) (port : ℕ)
    → port < u16_mod
    → plain 443 (host_port host port)
      ≡ ok (if has b':' host then (host_port host port, 443) else (host, port))
unfolding plain
plain-host_port host port p =
    rw
      (
        rsplit_once-last host (show_uint port)
            (rsplit_once-none (show_uint port) (show_uint-IsDigit port)),
        parse_uint-show_uint u16_mod port p,
      )
      (elim (Bool-cases (has b':' host)) [ inl e ↦ rw e refl | inr e ↦ rw e refl ])

digits-IsVisible : (s : Bytes) → All IsDigit s → All IsVisible s
digits-IsVisible [] h = tt
digits-IsVisible (b ∷ s) h = (omega (arith, h.0), digits-IsVisible s h.1)

host_port-IsVisible :
    (host : Bytes) (port : ℕ) → All IsVisible host → All IsVisible (host_port host port)
host_port-IsVisible host port h =
    All-append IsVisible host (b':' ∷ show_uint port) h
      (omega arith, digits-IsVisible (show_uint port) (show_uint-IsDigit port))

-- Printed ASCII or a space.
abbrev IsPrinted : ℕ → Type 0
IsPrinted b = (32 ≤ b) × (b ≤ 126)

visible-IsPrinted : (s : Bytes) → All IsVisible s → All IsPrinted s
visible-IsPrinted [] h = tt
visible-IsPrinted (b ∷ s) h = (omega (arith, h.0), visible-IsPrinted s h.1)

printed-HasNoReturn : (s : Bytes) → All IsPrinted s → HasNoReturn s
printed-HasNoReturn [] h = tt
printed-HasNoReturn (b ∷ s) h = ((λ e. omega (arith, h.0, e)), printed-HasNoReturn s h.1)

printed-IsLow : (s : Bytes) → All IsPrinted s → All (λ b. b < 0x80) s
printed-IsLow [] h = tt
printed-IsLow (b ∷ s) h = (omega (arith, h.0), printed-IsLow s h.1)

connect_line-IsPrinted :
    (host : Bytes) (port : ℕ) → All IsVisible host → All IsPrinted (connect_line host port)
connect_line-IsPrinted host port h =
    All-append IsPrinted (ascii "CONNECT ") (host_port host port ++ ascii " HTTP/1.1")
      (ground arith)
      (All-append IsPrinted (host_port host port) (ascii " HTTP/1.1")
        (visible-IsPrinted (host_port host port) (host_port-IsVisible host port h)) (ground arith))

host_line-IsPrinted :
    (host : Bytes) (port : ℕ) → All IsVisible host → All IsPrinted (host_line host port)
host_line-IsPrinted host port h =
    All-append IsPrinted (ascii "Host: ") (host_port host port) (ground arith)
      (visible-IsPrinted (host_port host port) (host_port-IsVisible host port h))

connect_request-low :
    (host : Bytes) (port : ℕ) → All IsVisible host → All (λ b. b < 0x80) (connect_request host port)
unfolding connect_request
connect_request-low host port h =
    All-append (λ b. b < 0x80) (connect_line host port)
      (crlf ++ (host_line host port ++ (crlf ++ crlf)))
      (printed-IsLow (connect_line host port) (connect_line-IsPrinted host port h))
      (All-append (λ b. b < 0x80) crlf (host_line host port ++ (crlf ++ crlf)) (ground arith)
        (All-append (λ b. b < 0x80) (host_line host port) (crlf ++ crlf)
          (printed-IsLow (host_line host port) (host_line-IsPrinted host port h)) (ground arith)))

connect_request-lines :
    (host : Bytes) (port : ℕ)
    → unlines (connect_line host port ∷ host_line host port ∷ []) ++ crlf
      ≡ connect_request host port
unfolding connect_request unlines
connect_request-lines host port =
    append_assoc (connect_line host port) (crlf ++ (host_line host port ++ crlf)) crlf
    ∙ ap (λ t. connect_line host port ++ (crlf ++ t)) (append_assoc (host_line host port) crlf crlf)

connect_request-ends :
    (host : Bytes) (port : ℕ)
    → All IsVisible host
    → http_header_end (connect_request host port) ≡ some (length (connect_request host port))
connect_request-ends host port h =
    let ls = unlines (connect_line host port ∷ host_line host port ∷ []) in
    let e =
      http_header_end-unlines (connect_line host port) (host_line host port ∷ []) []
        (IsLine-of_HasNoReturn (connect_line host port)
          (printed-HasNoReturn (connect_line host port) (connect_line-IsPrinted host port h)))
        (
          (
            (λ z. cc z),
            IsLine-of_HasNoReturn (host_line host port)
                (printed-HasNoReturn (host_line host port) (host_line-IsPrinted host port h)),
          ),
          tt,
        ) in
    rw (← connect_request-lines host port) (e ∙ ap some (sym (length-append ls crlf)))

connect_line-words :
    (b : ℕ) (v : Bytes) (port : ℕ)
    → All IsVisible (b ∷ v)
    → split_whitespace (connect_line (b ∷ v) port)
      ≡ ascii "CONNECT" ∷ host_port (b ∷ v) port ∷ ascii "HTTP/1.1" ∷ []
connect_line-words b v port h =
    split_whitespace-space b'C' (ascii "ONNECT") (host_port (b ∷ v) port ++ ascii " HTTP/1.1")
      (ground arith)
    ∙ ap (λ t. ascii "CONNECT" ∷ t)
        (split_whitespace-space b (v ++ b':' ∷ show_uint port) (ascii "HTTP/1.1")
            (host_port-IsVisible (b ∷ v) port h)
          ∙ ap (λ t. host_port (b ∷ v) port ∷ t)
              (split_whitespace-last b'H' (ascii "TTP/1.1") (ground arith)))

parse_host_port-host_port :
    (b : ℕ) (v : Bytes) (port : ℕ)
    → b ≢ b'['
    → port < u16_mod
    → parse_host_port (host_port (b ∷ v) port) 443
      ≡ ok (if has b':' (b ∷ v) then (host_port (b ∷ v) port, 443) else (b ∷ v, port))
unfolding parse_host_port
parse_host_port-host_port b v port ne p =
    let plainly : (b == b'[') ≡ false = ground arith in rw plainly (plain-host_port (b ∷ v) port p)

connect_request-first :
    (host : Bytes) (port : ℕ)
    → All IsVisible host
    → first_line (split_crlf (connect_request host port)) ≡ connect_line host port
unfolding connect_request
connect_request-first host port h = ap first_line (
    split_crlf-line (connect_line host port) (host_line host port ++ (crlf ++ crlf)) (
      IsLine-of_HasNoReturn (connect_line host port)
        (printed-HasNoReturn (connect_line host port) (connect_line-IsPrinted host port h))))

parse_head-connect_request :
    (b : ℕ) (v : Bytes) (port : ℕ)
    → All IsVisible (b ∷ v)
    → b ≢ b'['
    → port < u16_mod
    → parse_head (connect_request (b ∷ v) port) [] ≡ ok (reached (b ∷ v) port)
unfolding parse_head starts_with eq_ignore_ascii_case
parse_head-connect_request b v port h ne p =
    let host = b ∷ v in
    let w = connect_request host port in
    rw
      (
        is_utf8_of_ascii w (connect_request-low host port h),
        connect_request-first host port h,
        connect_line-words b v port h,
        parse_host_port-host_port b v port ne p,
      )
      (elim (Bool-cases (has b':' host)) [ inl e ↦ rw e refl | inr e ↦ rw e refl ])

connect_request-fits :
    (host : Bytes) (port : ℕ)
    → port < u16_mod
    → length host ≤ 30000
    → length (connect_request host port) ≤ 65536
unfolding connect_request
connect_request-fits host port p l = omega (
  arith,
  length-append (connect_line host port) (crlf ++ (host_line host port ++ (crlf ++ crlf))),
  length-append (host_port host port) (ascii " HTTP/1.1"),
  length-append (host_line host port) (crlf ++ crlf),
  length-append host (b':' ∷ show_uint port),
  show_uint-length port p,
)

-- A proxy that is sent the CONNECT request of the remote end reads it, however it arrives, as a request
-- to connect to that host and port, with nothing left in the stream; but a host with a colon in it
-- it reads as a host that goes on to the end of the port, at port 443. The host is of visible ASCII,
-- not empty, does not start with a bracket and is at most 30000 octets long; the port is in range.
pub read_from-connect_request :
    (sizes : ℕ → ℕ) (b : ℕ) (v : Bytes) (port : ℕ)
    → All IsVisible (b ∷ v)
    → b ≢ b'['
    → length (b ∷ v) ≤ 30000
    → port < u16_mod
    → read_from sizes (ahead_of (connect_request (b ∷ v) port))
      ≡ ok (
        if has b':' (b ∷ v) then connect (host_port (b ∷ v) port) 443 else connect (b ∷ v) port,
        at_end,
      )
read_from-connect_request sizes b v port h ne l p =
    read_from-whole sizes (connect_request (b ∷ v) port) (reached (b ∷ v) port)
      (connect_request-ends (b ∷ v) port h) (connect_request-fits (b ∷ v) port p l)
      (parse_head-connect_request b v port h ne p)
