-- ===== src/Http/Request/Forwarded.antt =====
-- What a rewritten message says: crates/ssh-proxy-transport/src/proxy/http.rs.
use mathlib.Core.Path.{subst}
use ssh_proxy.Base.{
  ℕ, ◌+◌, ◌≡◌, ◌≢◌, refl, sym, ap, ◌∙◌, Bool, Bool-cases, inl, inr, List, [], ◌∷◌, ◌++◌, Option,
  none, some, Option-cases, Result, ok, err, ok_or, ensure, >>=-eq-ok, ◌==◌, All, All-append,
  append_assoc, length, length-append, take, drop, drop-append_self, arith,
}
use ssh_proxy.Wire.Bytes.{Bytes, ascii, is_utf8}
use ssh_proxy.Http.Text.{
  split_crlf, split_whitespace, starts_with, strip_prefix, onward, before, eq_ignore_ascii_case,
}
use ssh_proxy.Http.Text.Lines.{
  IsLine, crlf, unlines, split_crlf-unlines, HasNoReturn, IsLine-of_HasNoReturn,
}
use ssh_proxy.Http.Text.Words.{split_whitespace-All}
use ssh_proxy.Http.Authority.{
  AuthorityError, AbsoluteTarget, rooted, absolute_of, parse_host_port, is_path_start,
  parse_absolute_http_target,
}
use ssh_proxy.Http.Headers.{header_lines, kept_lines, first_line, http_header_end}
use ssh_proxy.Http.Headers.Ends.{
  IsHeaderLine, header_lines-IsLine, http_header_end-unlines, header_lines-unlines,
  header_lines-All, kept_lines-All,
}
use ssh_proxy.Http.Request.{
  HttpError, forward, missing_terminator, not_utf8, connect_to, checked, request_parts,
  request_line, close_line, rewritten, request_kind, parse_head, parse_request,
}

unlines-append :
    (ls ms : List Bytes) (s : Bytes) → unlines (ls ++ ms) ++ s ≡ unlines ls ++ (unlines ms ++ s)
unfolding unlines
unlines-append [] ms s = refl
unlines-append (l ∷ ls) ms s =
    append_assoc l (crlf ++ unlines (ls ++ ms)) s
    ∙ ap (λ t. l ++ (crlf ++ t)) (unlines-append ls ms s)
    ∙ sym (append_assoc l (crlf ++ unlines ls) (unlines ms ++ s))

-- The message with its lines in one list.
rewritten_lines :
    (first : Bytes) (lines : List Bytes) (body : Bytes)
    → rewritten first lines body
      ≡ unlines (first ∷ (kept_lines lines ++ close_line ∷ [])) ++ (crlf ++ body)
unfolding unlines
rewritten_lines first lines body =
    ap (λ t. unlines (first ∷ kept_lines lines) ++ t)
      (sym (append_assoc close_line crlf (crlf ++ body)))
    ∙ sym (unlines-append (first ∷ kept_lines lines) (close_line ∷ []) (crlf ++ body))

-- Where a message ends its header, what its lines are, and what stands behind.
pub record IsSplit (message first : Bytes) (lines : List Bytes) (body : Bytes) : Type 0 where
  pub end : ℕ
  pub ends : http_header_end message ≡ some end
  pub starts : first_line (split_crlf message) ≡ first
  pub lines_are : header_lines message ≡ lines
  pub body_is : drop end message ≡ body

IsSplit-unlines :
    (first : Bytes) (ls : List Bytes) (body : Bytes)
    → IsLine first
    → All IsHeaderLine ls
    → IsSplit (unlines (first ∷ ls) ++ (crlf ++ body)) first ls body
IsSplit-unlines first ls body h hs = record {
  end = length (unlines (first ∷ ls)) + 2;
  ends = http_header_end-unlines first ls body h hs;
  starts =
      ap first_line (split_crlf-unlines (first ∷ ls) (crlf ++ body) (h, header_lines-IsLine ls hs));
  lines_are = header_lines-unlines first ls body h hs;
  body_is =
      ap (λ n. drop n (unlines (first ∷ ls) ++ (crlf ++ body)))
        (sym (length-append (unlines (first ∷ ls)) crlf))
      ∙ ap (drop (length (unlines (first ∷ ls) ++ crlf)))
          (sym (append_assoc (unlines (first ∷ ls)) crlf body))
      ∙ drop-append_self (unlines (first ∷ ls) ++ crlf) body;
}

pub rewritten-IsSplit :
    (first : Bytes) (lines : List Bytes) (body : Bytes)
    → IsLine first
    → All IsHeaderLine lines
    → IsSplit (rewritten first lines body) first (kept_lines lines ++ close_line ∷ []) body
rewritten-IsSplit first lines body h hs = rw (rewritten_lines first lines body) (
    IsSplit-unlines first (kept_lines lines ++ close_line ∷ []) body h (
      All-append IsHeaderLine (kept_lines lines) (close_line ∷ []) (kept_lines-All lines hs)
        ((ground arith, ground arith), tt)))

-- The parts of a request line have no carriage return, nor has the path of a target.
strip_prefix-HasNoReturn :
    (p s rest : Bytes) → strip_prefix p s ≡ some rest → HasNoReturn s → HasNoReturn rest
unfolding strip_prefix
strip_prefix-HasNoReturn [] s rest e h = let same : s ≡ rest = cc e in rw (← same) h
strip_prefix-HasNoReturn (c ∷ p) [] rest e h = cc e
strip_prefix-HasNoReturn (c ∷ p) (b ∷ s) rest e h =
    ground (arith, strip_prefix-HasNoReturn p s rest, e, h)

onward-HasNoReturn : (p : ℕ → Bool) (s : Bytes) → HasNoReturn s → HasNoReturn (onward p s)
unfolding onward
onward-HasNoReturn p [] h = tt
onward-HasNoReturn p (b ∷ s) h = elim (Bool-cases (p b)) [
  | inl e ↦ rw e h
  | inr e ↦ rw e (onward-HasNoReturn p s h.1)
]

rooted-HasNoReturn : (s : Bytes) → HasNoReturn s → HasNoReturn (rooted s)
rooted-HasNoReturn [] h = ground arith
rooted-HasNoReturn (c ∷ s) h = elim (Bool-cases (c == b'?')) [
  | inl e ↦ rw e ((λ k. omega (arith, k)), h)
  | inr e ↦ rw e h
]

absolute_of-path :
    (path : Bytes) (r : Result AuthorityError (Bytes × ℕ)) (t : AbsoluteTarget)
    → absolute_of path r ≡ some t
    → path ≡ t.path
absolute_of-path path (err x) t e = cc e
absolute_of-path path (ok (host, port)) t e = cc e

path-HasNoReturn :
    (target : Bytes) (t : AbsoluteTarget)
    → parse_absolute_http_target target ≡ some t
    → HasNoReturn target
    → HasNoReturn t.path
unfolding parse_absolute_http_target
path-HasNoReturn target t e h = elim (Option-cases (strip_prefix (ascii "http://") target)) [
  | inl stuck ↦ absurd (cc (rw stuck at e))
  | inr (rest, found) ↦
      rw
        (← absolute_of-path (rooted (onward is_path_start rest))
          (parse_host_port (before is_path_start rest) 80) t (rw found at e))
        (rooted-HasNoReturn (onward is_path_start rest) (
          onward-HasNoReturn is_path_start rest
            (strip_prefix-HasNoReturn (ascii "http://") target rest found h)))
]

request_line-IsLine :
    (method path version : Bytes)
    → HasNoReturn method
    → HasNoReturn path
    → HasNoReturn version
    → IsLine (request_line method path version)
request_line-IsLine method path version m p v =
    IsLine-of_HasNoReturn (request_line method path version) (
      All-append (λ b. b ≢ b'\r') method (b' ' ∷ (path ++ b' ' ∷ version)) m
        (
          (λ k. omega (arith, k)),
          All-append (λ b. b ≢ b'\r') path (b' ' ∷ version) p ((λ k. omega (arith, k)), v),
        ))

checked-All : (a b c m t v : Bytes) → checked a b c ≡ ok (m, t, v) → (a ≡ m) × (b ≡ t) × (c ≡ v)
unfolding starts_with
checked-All a b c m t v e = elim (Bool-cases (starts_with (ascii "HTTP/") c)) [
  | inl h ↦ (cc (rw h at e), cc (rw h at e), cc (rw h at e))
  | inr h ↦ absurd (cc (rw h at e))
]

-- A request line that is accepted has three words.
request_parts-words :
    (ws : List Bytes) (m t v : Bytes) → request_parts ws ≡ ok (m, t, v) → ws ≡ m ∷ t ∷ v ∷ []
request_parts-words [] m t v e = cc e
request_parts-words (a ∷ []) m t v e = cc e
request_parts-words (a ∷ b ∷ []) m t v e = cc e
request_parts-words (a ∷ b ∷ c ∷ []) m t v e =
    let (p, q, r) = checked-All a b c m t v e in rw (p, q, r) refl
request_parts-words (a ∷ b ∷ c ∷ d ∷ ds) m t v e = cc e

words-HasNoReturn :
    (s m t v : Bytes)
    → split_whitespace s ≡ m ∷ t ∷ v ∷ []
    → HasNoReturn m × HasNoReturn t × HasNoReturn v
words-HasNoReturn s m t v e =
    let h : All HasNoReturn (m ∷ t ∷ v ∷ []) = subst (All HasNoReturn) e (split_whitespace-All s) in
    (h.0, h.1.0, h.1.1.0)

connect_to-ne-forward :
    (r : Result AuthorityError (Bytes × ℕ)) (host : Bytes) (port : ℕ) (request : Bytes)
    → connect_to r ≡ ok (forward host port request)
    → ⊥
connect_to-ne-forward (err x) host port request e = cc e
connect_to-ne-forward (ok (h, p)) host port request e = cc e

-- A request that is forwarded has an absolute target.
request_kind-forward :
    (lines : List Bytes) (body method target version : Bytes) (host : Bytes) (port : ℕ)
    (request : Bytes)
    → request_kind lines body (method, target, version) ≡ ok (forward host port request)
    → (t : AbsoluteTarget) × (parse_absolute_http_target target ≡ some t)
      × (rewritten (request_line method t.path version) lines body ≡ request)
      × (t.host ≡ host)
      × (t.port ≡ port)
request_kind-forward lines body method target version host port request e =
    elim (Bool-cases (eq_ignore_ascii_case method (ascii "CONNECT"))) [
      | inl h ↦
          absurd (connect_to-ne-forward (parse_host_port target 443) host port request (rw h at e))
      | inr h ↦ elim (Option-cases (parse_absolute_http_target target)) [
        | inl n ↦ absurd (cc (rw n at (rw h at e)))
        | inr (t, n) ↦ let k = rw n at (rw h at e) in (t, n, cc k, cc k, cc k)
      ]
    ]

-- What a request that is forwarded comes from, and what it says.
pub record IsForwarded (bytes host : Bytes) (port : ℕ) (request : Bytes) : Type 0 where
  pub end : ℕ
  pub method : Bytes
  pub text : Bytes
  pub version : Bytes
  pub target : AbsoluteTarget
  pub ends : http_header_end bytes ≡ some end
  pub words_are :
      split_whitespace (first_line (split_crlf (take end bytes))) ≡ method ∷ text ∷ version ∷ []
  pub target_is : parse_absolute_http_target text ≡ some target
  pub host_is : target.host ≡ host
  pub port_is : target.port ≡ port
  pub split :
      IsSplit request
        (request_line method target.path version)
        (kept_lines (header_lines (take end bytes)) ++ close_line ∷ [])
        (drop end bytes)

ok_or-ok : (o : Option ℕ) (x : HttpError) (n : ℕ) → ok_or o x ≡ ok n → o ≡ some n
ok_or-ok none x n e = cc e
ok_or-ok (some m) x n e = cc e

parts-IsForwarded :
    (bytes host : Bytes) (port : ℕ) (request : Bytes) (end : ℕ) (method text version : Bytes)
    → http_header_end bytes ≡ some end
    → split_whitespace (first_line (split_crlf (take end bytes))) ≡ method ∷ text ∷ version ∷ []
    → request_kind (header_lines (take end bytes)) (drop end bytes) (method, text, version)
      ≡ ok (forward host port request)
    → IsForwarded bytes host port request
parts-IsForwarded bytes host port request end method text version h e k =
    let headers = take end bytes in
    let (hm, ht, hv) = words-HasNoReturn (first_line (split_crlf headers)) method text version e in
    let (t, found, same, eh, ep) =
      request_kind-forward (header_lines headers) (drop end bytes) method text version host port
        request k in
    record {
      end = end;
      method = method;
      text = text;
      version = version;
      target = t;
      ends = h;
      words_are = e;
      target_is = found;
      host_is = eh;
      port_is = ep;
      split =
          subst
            (λ r.
              IsSplit r (request_line method t.path version)
                (kept_lines (header_lines headers) ++ close_line ∷ []) (drop end bytes))
            same
            (rewritten-IsSplit (request_line method t.path version) (header_lines headers)
              (drop end bytes)
              (request_line-IsLine method t.path version hm (path-HasNoReturn text t found ht) hv)
              (header_lines-All headers));
    }

-- A request that is forwarded has its header end where its blank line stands; the request line
-- there has the method, the path of the absolute target and the version; the header lines are those
-- that the client sent, in their order, without the ones that a proxy keeps to itself or that a
-- connection header names, with `connection: close` behind them; what the client sent behind its
-- header follows.
pub parse_request-IsForwarded :
    (bytes host : Bytes) (port : ℕ) (request : Bytes)
    → parse_request bytes ≡ ok (forward host port request)
    → IsForwarded bytes host port request
unfolding parse_request parse_head
parse_request-IsForwarded bytes host port request e =
    let (end, e₁, e₂) = >>=-eq-ok (ok_or (http_header_end bytes) missing_terminator) _ e in
    let (_, _, e₃) = >>=-eq-ok (ensure (is_utf8 (take end bytes)) not_utf8) _ e₂ in
    let ((method, text, version), e₄, e₅) =
      >>=-eq-ok (request_parts (split_whitespace (first_line (split_crlf (take end bytes))))) _
        e₃ in
    parts-IsForwarded bytes host port request end method text version
      (ok_or-ok (http_header_end bytes) missing_terminator end e₁)
      (request_parts-words (split_whitespace (first_line (split_crlf (take end bytes)))) method text
        version e₄)
      e₅
