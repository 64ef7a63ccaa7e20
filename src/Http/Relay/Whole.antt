-- ===== src/Http/Relay/Whole.antt =====
-- A response that comes in chunks is relayed as if it came at once:
-- crates/ssh-proxy/src/socks/relay.rs.
use ssh_proxy.Base.{
  ℕ, ◌-◌, ◌≤◌, ◌<◌, ◌≡◌, refl, sym, ap, ◌∙◌, true, Bool-cases, inl, inr, List, [], ◌∷◌, ◌++◌,
  Option, none, some, is_some, Option-cases, Result, ok, err, ◌>>=◌, ltb, ltb→lt, ltb-false_of_le,
  ◌==◌, if◌then◌else◌, length, length-append, take, drop, min, take_of_le, take-append_ge,
  take-append_le, drop-append_le, append_assoc, append-nil, arith,
}
use ssh_proxy.Wire.Bytes.{Bytes}
use ssh_proxy.Http.Text.{concat}
use ssh_proxy.Http.Headers.{http_header_end}
use ssh_proxy.Http.Headers.Ends.{http_header_end-append}
use ssh_proxy.Http.Request.{HttpError}
use ssh_proxy.Http.Response.{
  HttpResponseBodyMode, content_length, chunked, close_delimited, no_body,
  rewrite_response_head_for_proxy_close,
}
use ssh_proxy.Http.Relay.{
  RelayError, bad_head, HttpForwardResponseState, reading_head, counted, in_chunks, until_close,
  done, is_done, from_body_mode, header_limit, Written, write_http_forward_body_chunk, head_first,
  cut_head, write_http_forward_response_chunk, out_first, relay_http_forward_spx_response,
}

-- The head is behind.
abbrev InBody : HttpForwardResponseState → Type 0
InBody (reading_head buffer) = ⊥
InBody _ = Unit

from_body_mode-InBody : (mode : HttpResponseBodyMode) → InBody (from_body_mode mode)
unfolding from_body_mode
from_body_mode-InBody mode = ground arith

next-InBody :
    (state : HttpForwardResponseState) (chunk : Bytes)
    → InBody state
    → InBody (write_http_forward_body_chunk state chunk).0
unfolding write_http_forward_body_chunk
next-InBody (counted n) chunk h = ground arith
next-InBody in_chunks chunk h = tt
next-InBody until_close chunk h = tt
next-InBody done chunk h = tt
next-InBody (reading_head buffer) chunk h = absurd h

take-min : (n : ℕ) (z : Bytes) → take (min (length z) n) z ≡ take n z
take-min n z = elim (Bool-cases (ltb (length z) n)) [
  | inl h ↦
      let e : min (length z) n ≡ length z = ground (arith, h) in
      rw (e, take_of_le (length z) z (omega arith), take_of_le n z (ground (arith, h))) refl
  | inr h ↦ let e : min (length z) n ≡ n = ground (arith, h) in rw e refl
]

counted_short :
    (n : ℕ) (x : Bytes)
    → length x < n
    → write_http_forward_body_chunk (counted n) x ≡ (counted (n - length x), x)
unfolding write_http_forward_body_chunk
counted_short n x h =
    let e : min (length x) n ≡ length x = omega arith in
    rw (e, take_of_le (length x) x (omega arith)) (ground arith)

counted_full :
    (n : ℕ) (x : Bytes)
    → n ≤ length x
    → write_http_forward_body_chunk (counted n) x ≡ (done, take n x)
unfolding write_http_forward_body_chunk
counted_full n x h = let e : min (length x) n ≡ n = omega arith in rw e (ground arith)

-- Once it is done, nothing is written.
IsDone-out :
    (state : HttpForwardResponseState) (y : Bytes)
    → is_done state ≡ true
    → (write_http_forward_body_chunk state y).1 ≡ []
unfolding write_http_forward_body_chunk
IsDone-out done y h = refl
IsDone-out (counted n) y h = absurd (cc h)
IsDone-out in_chunks y h = absurd (cc h)
IsDone-out until_close y h = absurd (cc h)
IsDone-out (reading_head buffer) y h = refl

counted_out : (n : ℕ) (x : Bytes) → (write_http_forward_body_chunk (counted n) x).1 ≡ take n x
unfolding write_http_forward_body_chunk
counted_out n x = take-min n x

counted-append :
    (n : ℕ) (x y : Bytes)
    → (write_http_forward_body_chunk (counted n) (x ++ y)).1
      ≡ (write_http_forward_body_chunk (counted n) x).1
        ++ (write_http_forward_body_chunk (write_http_forward_body_chunk (counted n) x).0 y).1
counted-append n x y = elim (Bool-cases (ltb (length x) n)) [
  | inl h ↦
      rw
        (
          counted_short n x (ltb→lt (length x) n h),
          counted_out n (x ++ y),
          counted_out (n - length x) y,
        )
        (take-append_ge n x y (ground (arith, h)))
  | inr h ↦
      rw
        (
          counted_full n x (ground (arith, h)),
          counted_out n (x ++ y),
          IsDone-out done y refl,
          append-nil (take n x),
        )
        (take-append_le n x y (ground (arith, h)))
]

-- Two pieces of a body are written as one.
body-append :
    (state : HttpForwardResponseState) (x y : Bytes)
    → (write_http_forward_body_chunk state (x ++ y)).1
      ≡ (write_http_forward_body_chunk state x).1
        ++ (write_http_forward_body_chunk (write_http_forward_body_chunk state x).0 y).1
unfolding write_http_forward_body_chunk
body-append (counted n) x y = counted-append n x y
body-append in_chunks x y = refl
body-append until_close x y = refl
body-append done x y = refl
body-append (reading_head buffer) x y = refl

chunk_of_body :
    (state : HttpForwardResponseState) (chunk : Bytes)
    → InBody state
    → write_http_forward_response_chunk state chunk ≡ ok (write_http_forward_body_chunk state chunk)
unfolding write_http_forward_response_chunk write_http_forward_body_chunk
chunk_of_body (counted n) chunk h = refl
chunk_of_body in_chunks chunk h = refl
chunk_of_body until_close chunk h = refl
chunk_of_body done chunk h = refl
chunk_of_body (reading_head buffer) chunk h = absurd h

take_nil : (n : ℕ) → take {A = ℕ} n [] ≡ []
take_nil n = take_of_le n [] (omega arith)

no_body_out : (state : HttpForwardResponseState) → (write_http_forward_body_chunk state []).1 ≡ []
unfolding write_http_forward_body_chunk
no_body_out (counted n) = take_nil (min 0 n)
no_body_out in_chunks = refl
no_body_out until_close = refl
no_body_out done = refl
no_body_out (reading_head buffer) = refl

body_relayed :
    (chunks : List Bytes) (state : HttpForwardResponseState)
    → InBody state
    → relay_http_forward_spx_response state chunks
      ≡ ok (write_http_forward_body_chunk state (concat chunks)).1
unfolding relay_http_forward_spx_response concat
body_relayed [] state h = ap ok (sym (no_body_out state))
body_relayed (c ∷ cs) state h =
    let w = write_http_forward_body_chunk state c in
    rw
      (
        chunk_of_body state c h,
        body-append state c (concat cs),
        body_relayed cs w.0 (next-InBody state c h),
      )
      (elim (Bool-cases (is_done w.0)) [
        | inl d ↦ rw (d, IsDone-out w.0 (concat cs) d, append-nil w.1) refl
        | inr n ↦ rw n refl
      ])

-- What a body is, told from its mode.
abbrev pub body_of : HttpResponseBodyMode → Bytes → Bytes
body_of (content_length n) body = take n body
body_of chunked body = body
body_of close_delimited body = body
body_of no_body body = []

abbrev message_of :
    Bytes → Result HttpError (Bytes × HttpResponseBodyMode) → Result RelayError Bytes
message_of body (err e) = err (bad_head e)
message_of body (ok (head, mode)) = ok (head ++ body_of mode body)

abbrev pub cut_message : Bytes → Option ℕ → Result RelayError Bytes
cut_message response none = ok []
cut_message response (some end) =
    message_of (drop end response) (rewrite_response_head_for_proxy_close (take end response))

-- The response that the client is meant to get: the rewritten head, and as much of what stands behind
-- it as the body has.
unfoldable pub response_of : Bytes → Result RelayError Bytes
response_of response = cut_message response (http_header_end response)

write_http_forward_body_chunk-body_of :
    (mode : HttpResponseBodyMode) (body : Bytes)
    → (write_http_forward_body_chunk (from_body_mode mode) body).1 ≡ body_of mode body
unfolding write_http_forward_body_chunk from_body_mode
write_http_forward_body_chunk-body_of (content_length n) body = elim (Bool-cases (n == 0)) [
  | inl e ↦ let z : n ≡ 0 = ground (arith, e) in rw (e, z) refl
  | inr e ↦ rw e (take-min n body)
]
write_http_forward_body_chunk-body_of chunked body = refl
write_http_forward_body_chunk-body_of close_delimited body = refl
write_http_forward_body_chunk-body_of no_body body = refl

-- What the loop makes of a chunk.
abbrev rest_of : Result RelayError Written → List Bytes → Result RelayError Bytes
rest_of r chunks = r >>= λ (state', out).
    let rest = out_first out (relay_http_forward_spx_response state' chunks) in
    if is_done state' then ok out else rest

head_done :
    (head body : Bytes) (mode : HttpResponseBodyMode) (chunks : List Bytes)
    → rest_of
        (ok (head_first head (write_http_forward_body_chunk (from_body_mode mode) body)))
        chunks
      ≡ ok (head ++ (write_http_forward_body_chunk (from_body_mode mode) (body ++ concat chunks)).1)
head_done head body mode chunks =
    let st = from_body_mode mode in
    let w = write_http_forward_body_chunk st body in
    rw
      (
        body-append st body (concat chunks),
        body_relayed chunks w.0 (next-InBody st body (from_body_mode-InBody mode)),
        ← append_assoc head w.1 (write_http_forward_body_chunk w.0 (concat chunks)).1,
      )
      (elim (Bool-cases (is_done w.0)) [
        | inl d ↦ rw (d, IsDone-out w.0 (concat chunks) d, append-nil (head ++ w.1)) refl
        | inr n ↦ rw n refl
      ])

begun :
    (b : Bytes) (e : ℕ) (chunks : List Bytes) (r : Result HttpError (Bytes × HttpResponseBodyMode))
    → e ≤ length b
    → rewrite_response_head_for_proxy_close (take e b) ≡ r
    → rest_of (cut_head b (some e)) chunks ≡ cut_message (b ++ concat chunks) (some e)
begun b e chunks (err x) h k = rw (take-append_le e b (concat chunks) h, k) refl
begun b e chunks (ok (head, mode)) h k =
    rw (take-append_le e b (concat chunks) h, drop-append_le e b (concat chunks) h, k)
      (head_done head (drop e b) mode chunks
        ∙ ap (λ t. ok (head ++ t))
            (write_http_forward_body_chunk-body_of mode (drop e b ++ concat chunks)))

out_first-nil : (r : Result RelayError Bytes) → out_first [] r ≡ r
out_first-nil (err e) = refl
out_first-nil (ok out) = refl

response_of_end :
    (response : Bytes) (end : ℕ)
    → http_header_end response ≡ some end
    → cut_message response (some end) ≡ response_of response
unfolding response_of
response_of_end response end e = rw e refl

head_relayed :
    (front back : List Bytes) (buf : Bytes)
    → http_header_end buf ≡ none
    → is_some (http_header_end (buf ++ concat front)) ≡ true
    → length (buf ++ concat front) ≤ header_limit
    → relay_http_forward_spx_response (reading_head buf) (front ++ back)
      ≡ response_of (buf ++ concat (front ++ back))
unfolding relay_http_forward_spx_response write_http_forward_response_chunk response_of concat
head_relayed [] back buf e h l = absurd (cc (rw (append-nil buf, e) at h))
head_relayed (c ∷ cs) back buf e h l =
    let b = buf ++ c in
    let joined = append_assoc buf c (concat cs) in
    let shorter : length b ≤ header_limit =
      omega (arith, length-append b (concat cs), rw (← joined) at l) in
    rw (ltb-false_of_le header_limit (length b) shorter) (elim (Option-cases (http_header_end b)) [
      | inl n ↦ rw n (
          out_first-nil (relay_http_forward_spx_response (reading_head b) (cs ++ back))
          ∙ head_relayed cs back b n (rw (← joined) at h) (rw (← joined) at l)
          ∙ ap response_of (append_assoc buf c (concat (cs ++ back))))
      | inr (end, f) ↦
          let (_, within, still) = http_header_end-append b (concat (cs ++ back)) end f in
          rw f (
            begun b end (cs ++ back) (rewrite_response_head_for_proxy_close (take end b)) within
              refl
            ∙ response_of_end (b ++ concat (cs ++ back)) end still
            ∙ ap response_of (append_assoc buf c (concat (cs ++ back))))
    ])

-- However a response is cut into chunks, if those in front have its header and are within the limit
-- together, the client gets the rewritten head and behind it what the mode of the body says of all
-- that came: so many octets, all, or none; or the relay fails as the head does.
pub relay_http_forward_spx_response-chunks :
    (front back : List Bytes)
    → is_some (http_header_end (concat front)) ≡ true
    → length (concat front) ≤ header_limit
    → relay_http_forward_spx_response (reading_head []) (front ++ back)
      ≡ response_of (concat (front ++ back))
unfolding http_header_end
relay_http_forward_spx_response-chunks front back h l = head_relayed front back [] refl h l
