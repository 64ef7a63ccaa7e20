-- ===== src/Http/Request/Gathered.antt =====
-- The loop that gathers a request has rounds enough: crates/ssh-proxy-transport/src/proxy/http.rs.
use ssh_proxy.Base.{
  ℕ, zero, suc, ◌+◌, ◌<◌, ◌≡◌, ◌≢◌, refl, true, false, Bool, Result, ok, is_some, if◌then◌else◌,
  ◌++◌, err, ltb, ◌==◌, length, length-drop, min, arith,
}
use ssh_proxy.Wire.Bytes.{Bytes}
use ssh_proxy.Wire.Source.{Source}
use ssh_proxy.Http.Headers.{http_header_end}
use ssh_proxy.Http.Request.{
  HttpError, stuck, read_failed, closed_before_headers, headers_too_large, read, gather,
}

-- What a round does with what it has read.
round_ends :
    (at_end broken complete long : Bool) (now more : Result HttpError (Bytes × Source))
    (r : Bytes × Source)
    → now ≡ ok r
    → (at_end ≡ false → more ≢ err stuck)
    → (if at_end
        then err (if broken then read_failed else closed_before_headers)
        else if complete
        then now
        else if long
        then err headers_too_large
        else more)
      ≢ err stuck
round_ends true true complete long now more r n h e = absurd (cc e)
round_ends true false complete long now more r n h e = absurd (cc e)
round_ends false broken true long now more r n h e = absurd (cc (e, n))
round_ends false broken false true now more r n h e = absurd (cc e)
round_ends false broken false false now more r n h e = h refl e

-- Each round takes an octet at least, or ends the loop: with more rounds than octets ahead, the loop never
-- runs out of them.
pub gather-ends :
    (fuel : ℕ) (sizes : ℕ → ℕ) (k : ℕ) (bytes : Bytes) (s : Source)
    → length s.ahead < fuel
    → gather fuel sizes k bytes s ≢ err stuck
unfolding gather
gather-ends zero sizes k bytes s h = absurd (omega (arith, h))
gather-ends (suc fuel) sizes k bytes s h =
    let r = read (sizes k) s in
    let bytes' = bytes ++ r.0 in
    round_ends (length s.ahead == 0) s.broken (is_some (http_header_end bytes'))
      (ltb 65536 (length bytes')) (ok (bytes', r.1)) (gather fuel sizes (k + 1) bytes' (r.1))
      (bytes', r.1) refl
      (λ some_left. gather-ends fuel sizes (k + 1) bytes' (r.1) (
        ground (
          arith,
          h,
          some_left,
          length-drop (min 1024 (min (suc (sizes k)) (length s.ahead))) s.ahead,
        )))
