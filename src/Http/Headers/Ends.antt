-- ===== src/Http/Headers/Ends.antt =====
-- Where the header of a message ends that was put together from lines.
use ssh_proxy.Base.{
  ℕ, suc, ◌+◌, ◌≡◌, ◌≢◌, refl, sym, ap, ◌∙◌, true, not, Bool, Bool-cases, inl, inr, List, [], ◌∷◌,
  ◌++◌, Option, some, none, ◌≤◌, filter, All, append_assoc, length, length-append, arith,
}
use ssh_proxy.Wire.Bytes.{Bytes}
use ssh_proxy.Http.Text.{split_crlf, starts_with}
use ssh_proxy.Http.Text.Lines.{
  IsLine, crlf, unlines, split_crlf-line, split_crlf-unlines, split_crlf-All,
}
use ssh_proxy.Http.Headers.{
  blank_line, should_skip_forward_header, connection_header_tokens, until_empty, behind_first,
  header_lines, kept_lines, after, http_header_end,
}

-- A header line: neither empty nor broken.
abbrev pub IsHeaderLine : Bytes → Type 0
IsHeaderLine l = (l ≢ []) × IsLine l

skip_line :
    (l t : Bytes) (n : ℕ)
    → IsLine l
    → http_header_end (crlf ++ t) ≡ some n
    → http_header_end (l ++ (crlf ++ t)) ≡ some (length l + n)
unfolding http_header_end starts_with
skip_line [] t n h e = e ∙ ap some (omega arith)
skip_line (b ∷ []) t n h e = ground (arith, e)
skip_line (b ∷ c ∷ l) t n (ne, h) e = ground (arith, ne, skip_line (c ∷ l) t n h e)

-- A break in front of a header line does not end the header.
skip_break :
    (l t : Bytes) (n : ℕ)
    → IsHeaderLine l
    → http_header_end (l ++ (crlf ++ t)) ≡ some n
    → http_header_end (crlf ++ (l ++ (crlf ++ t))) ≡ some (n + 2)
unfolding http_header_end starts_with
skip_break [] t n (ne, h) e = absurd (ne refl)
skip_break (b ∷ []) t n (ne, h) e = ground (arith, e)
skip_break (b ∷ c ∷ l) t n (ne, h) e = ground (arith, h.0, e)

blank_line-end : (body : Bytes) → http_header_end (crlf ++ (crlf ++ body)) ≡ some 4
unfolding http_header_end starts_with
blank_line-end body = refl

-- The header ends behind the blank line that stands behind the last line.
pub http_header_end-unlines :
    (first : Bytes) (ls : List Bytes) (body : Bytes)
    → IsLine first
    → All IsHeaderLine ls
    → http_header_end (unlines (first ∷ ls) ++ (crlf ++ body))
      ≡ some (length (unlines (first ∷ ls)) + 2)
unfolding unlines
http_header_end-unlines first [] body h hs =
    rw (append_assoc first crlf (crlf ++ body), length-append first crlf)
      (skip_line first (crlf ++ body) 4 h (blank_line-end body) ∙ ap some (omega arith))
http_header_end-unlines first (l ∷ ls) body h (hl, hs) =
    let m = length (unlines (l ∷ ls)) + 2 in
    let t = unlines ls ++ (crlf ++ body) in
    let shape = append_assoc l (crlf ++ unlines ls) (crlf ++ body) in
    let e = ap http_header_end (sym shape) ∙ http_header_end-unlines l ls body hl.1 hs in
    ap http_header_end (append_assoc first (crlf ++ unlines (l ∷ ls)) (crlf ++ body))
    ∙ skip_line first (unlines (l ∷ ls) ++ (crlf ++ body)) (m + 2) h
        (ap (λ w. http_header_end (crlf ++ w)) shape ∙ skip_break l t m hl e)
    ∙ ap some (omega (arith, length-append first (crlf ++ unlines (l ∷ ls))))

until_empty-append :
    (ls rest : List Bytes) → All IsHeaderLine ls → until_empty (ls ++ [] ∷ rest) ≡ ls
unfolding until_empty
until_empty-append [] rest h = refl
until_empty-append ([] ∷ ls) rest h = absurd (h.0.0 refl)
until_empty-append ((b ∷ l) ∷ ls) rest h = ap (λ t. (b ∷ l) ∷ t) (until_empty-append ls rest h.1)

pub header_lines-IsLine : (ls : List Bytes) → All IsHeaderLine ls → All IsLine ls
header_lines-IsLine [] h = tt
header_lines-IsLine (l ∷ ls) h = (h.0.1, header_lines-IsLine ls h.1)

-- The lines are read back.
pub header_lines-unlines :
    (first : Bytes) (ls : List Bytes) (body : Bytes)
    → IsLine first
    → All IsHeaderLine ls
    → header_lines (unlines (first ∷ ls) ++ (crlf ++ body)) ≡ ls
unfolding header_lines
header_lines-unlines first ls body h hs =
    ap (λ t. until_empty (behind_first t))
      (split_crlf-unlines (first ∷ ls) (crlf ++ body) (h, header_lines-IsLine ls hs))
    ∙ ap (λ t. until_empty (ls ++ t)) (split_crlf-line [] body tt)
    ∙ until_empty-append ls (split_crlf body) hs

until_empty-All : (ls : List Bytes) → All IsLine ls → All IsHeaderLine (until_empty ls)
unfolding until_empty
until_empty-All [] h = tt
until_empty-All ([] ∷ ls) h = tt
until_empty-All ((b ∷ l) ∷ ls) h = ((λ e. cc e, h.0), until_empty-All ls h.1)

behind_first-All : (ls : List Bytes) → All IsLine ls → All IsLine (behind_first ls)
behind_first-All [] h = tt
behind_first-All (l ∷ ls) h = h.1

-- What is read as the lines of a header are header lines.
pub header_lines-All : (message : Bytes) → All IsHeaderLine (header_lines message)
unfolding header_lines
header_lines-All message =
    until_empty-All (behind_first (split_crlf message))
      (behind_first-All (split_crlf message) (split_crlf-All message))

filter-All :
    (p : Bytes → Bool) (ls : List Bytes) → All IsHeaderLine ls → All IsHeaderLine (filter p ls)
filter-All p [] h = tt
filter-All p (l ∷ ls) h = elim (Bool-cases (p l)) [
  | inl e ↦ rw e (h.0, filter-All p ls h.1)
  | inr e ↦ rw e (filter-All p ls h.1)
]

pub kept_lines-All : (ls : List Bytes) → All IsHeaderLine ls → All IsHeaderLine (kept_lines ls)
unfolding kept_lines
kept_lines-All ls h =
    filter-All (λ line. not (should_skip_forward_header (connection_header_tokens ls) line)) ls h

starts_with-append :
    (s t : Bytes) → 4 ≤ length s → starts_with blank_line (s ++ t) ≡ starts_with blank_line s
unfolding starts_with
starts_with-append [] t h = absurd (omega arith)
starts_with-append (a ∷ []) t h = absurd (omega arith)
starts_with-append (a ∷ b ∷ []) t h = absurd (omega arith)
starts_with-append (a ∷ b ∷ c ∷ []) t h = absurd (omega arith)
starts_with-append (a ∷ b ∷ c ∷ d ∷ s) t h = refl

starts_with_short : (s : Bytes) → starts_with blank_line s ≡ true → 4 ≤ length s
unfolding starts_with
starts_with_short [] e = absurd (cc e)
starts_with_short (a ∷ []) e = ground (arith, e)
starts_with_short (a ∷ b ∷ []) e = ground (arith, e)
starts_with_short (a ∷ b ∷ c ∷ []) e = ground (arith, e)
starts_with_short (a ∷ b ∷ c ∷ d ∷ s) e = omega arith

after-inv : (o : Option ℕ) (n : ℕ) → after o ≡ some n → (m : ℕ) × (o ≡ some m) × (suc m ≡ n)
after-inv none n e = absurd (cc e)
after-inv (some m) n e = (m, refl, cc e)

-- A header that has come to its end stays as it is, whatever else comes.
pub http_header_end-append :
    (s t : Bytes) (n : ℕ)
    → http_header_end s ≡ some n
    → (4 ≤ n) × (n ≤ length s) × (http_header_end (s ++ t) ≡ some n)
unfolding http_header_end
http_header_end-append [] t n e = absurd (cc e)
http_header_end-append (b ∷ s) t n e = elim (Bool-cases (starts_with blank_line (b ∷ s))) [
  | inl h ↦
      let long = starts_with_short (b ∷ s) h in
      let four : 4 ≡ n = cc (rw h at e) in
      (omega arith, omega arith, rw (starts_with-append (b ∷ s) t long, h) (ap some four))
  | inr h ↦
      let (m, later, next) = after-inv (http_header_end s) n (rw h at e) in
      let (low, high, same) = http_header_end-append s t m later in
      (
        omega arith,
        omega arith,
        rw (starts_with-append (b ∷ s) t (omega arith), h, same) (ap some next),
      )
]
