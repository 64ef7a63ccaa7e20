-- ===== src/Http/Request/Connect.antt =====
-- A request that ends with its header is gathered whole, however it arrives:
-- crates/ssh-proxy-transport/src/proxy/http.rs.
use ssh_proxy.Base.{
  ℕ, zero, suc, ◌+◌, ◌<◌, ◌≤◌, ◌≡◌, ◌≢◌, ◌⊎◌, refl, sym, ap, ◌∙◌, false, [], ◌∷◌, ◌++◌, none, some,
  Option-cases, inl, inr, ok, ltb, ltb-false_of_le, ◌==◌, length, length-append, take, drop,
  length-drop, take-append-drop, min, append_assoc, append-nil, arith, take_of_le, drop_of_le,
}
use ssh_proxy.Wire.Bytes.{Bytes}
use ssh_proxy.Wire.Source.{Source}
use ssh_proxy.Http.Headers.{http_header_end}
use ssh_proxy.Http.Headers.Ends.{http_header_end-append}
use ssh_proxy.Http.Request.{HttpRequestKind, gather, parse_head, parse_request, read_from}

abbrev pub at_end : Source
at_end = record { ahead = []; broken = false }

abbrev pub ahead_of : Bytes → Source
ahead_of s = record { ahead = s; broken = false }

long_of_ne_nil : (y : Bytes) → y ≢ [] → 1 ≤ length y
long_of_ne_nil [] h = absurd (h refl)
long_of_ne_nil (b ∷ y) h = omega arith

-- A part of the request has no end of a header.
unended :
    (w x y : Bytes)
    → http_header_end w ≡ some (length w)
    → x ++ y ≡ w
    → y ≢ []
    → http_header_end x ≡ none
unended w x y e s ne = elim (Option-cases (http_header_end x)) [
  | inl n ↦ n
  | inr (k, f) ↦
      let (_, high, same) = http_header_end-append x y k f in
      let whole : k ≡ length w = cc (ap http_header_end s, e, same) in
      let sum : length w ≡ length x + length y = ap length (sym s) ∙ length-append x y in
      absurd (omega (arith, long_of_ne_nil y ne))
]

nil-cases : (y : Bytes) → (y ≡ []) ⊎ (y ≢ [])
nil-cases [] = inl refl
nil-cases (b ∷ y) = inr (λ e. cc e)

gather_whole :
    (fuel : ℕ) (sizes : ℕ → ℕ) (k : ℕ) (w got rest : Bytes)
    → http_header_end w ≡ some (length w)
    → got ++ rest ≡ w
    → length w ≤ 65536
    → length rest < fuel
    → rest ≢ []
    → gather fuel sizes k got (ahead_of rest) ≡ ok (w, at_end)
unfolding gather
gather_whole zero sizes k w got rest e s l h ne = absurd (omega arith)
gather_whole (suc fuel) sizes k w got rest e s l h ne =
    let n = min 1024 (min (suc (sizes k)) (length rest)) in
    let buf = take n rest in
    let rest' = drop n rest in
    let long = long_of_ne_nil rest ne in
    let some_ready : (length rest == 0) ≡ false = ground (arith, long) in
    let whole : (got ++ buf) ++ rest' ≡ w =
      append_assoc got buf rest' ∙ ap (λ t. got ++ t) (take-append-drop n rest) ∙ s in
    elim (nil-cases rest') [
      | inl z ↦
          let all : got ++ buf ≡ w =
            sym (append-nil (got ++ buf)) ∙ ap (λ t. (got ++ buf) ++ t) (sym z) ∙ whole in
          rw (some_ready, all, e, z) refl
      | inr more ↦
          let fits : ltb 65536 (length (got ++ buf)) ≡ false =
            ltb-false_of_le 65536 (length (got ++ buf))
              (omega (arith, length-append (got ++ buf) rest', ap length whole)) in
          rw (some_ready, unended w (got ++ buf) rest' e whole more, fits)
            (gather_whole fuel sizes (k + 1) w (got ++ buf) rest' e whole l
              (omega (arith, length-drop n rest)) more)
    ]

parse_request-whole :
    (w : Bytes) → http_header_end w ≡ some (length w) → parse_request w ≡ parse_head w []
unfolding parse_request
parse_request-whole w e =
    rw (e, take_of_le (length w) w (omega arith), drop_of_le (length w) w (omega arith)) refl

-- A request that ends with its header is read as what its header says.
pub read_from-whole :
    (sizes : ℕ → ℕ) (w : Bytes) (kind : HttpRequestKind)
    → http_header_end w ≡ some (length w)
    → length w ≤ 65536
    → parse_head w [] ≡ ok kind
    → read_from sizes (ahead_of w) ≡ ok (kind, at_end)
unfolding read_from
read_from-whole sizes w kind e l p =
    let (long, _, _) = http_header_end-append w [] (length w) e in
    rw
      (
        gather_whole (suc (length w)) sizes 0 w [] w e refl l (omega arith)
            (λ z. absurd (omega (arith, ap length z, long))),
        parse_request-whole w e,
        p,
      )
      refl
