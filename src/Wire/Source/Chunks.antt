-- ===== src/Wire/Source/Chunks.antt =====
-- The chunked read of a data payload against a read of the whole.
use ssh_proxy.Base.{
  ℕ, zero, suc, ◌+◌, ◌-◌, ◌≤◌, ◌<◌, ◌≡◌, refl, ap, ◌∙◌, Bool, true, false, ◌==◌, [], ◌∷◌, ◌++◌,
  Result, ok, err, leb, ltb, if◌then◌else◌, length, length-append, length-take, length-drop, take,
  drop, take-add, drop-add, append_assoc, append-nil, min, arith, Bool-cases, inl, inr, lt→ltb,
  ltb→lt, ltb-false_of_le, le→leb,
}
use ssh_proxy.Wire.Bytes.{Bytes}
use ssh_proxy.Wire.Cursor.{FrameError, payload_read, payload_early_eof}
use ssh_proxy.Wire.Source.{Source, read_buf, read_chunks}

-- `need` octets at once, behind those that were got, or the error that the end of the connection
-- gives.
unfoldable pub fetch : ℕ → Bytes → Source → Result FrameError (Bytes × Source)
fetch need got s =
    if leb need (length s.ahead)
    then ok (got ++ take need s.ahead, record s { ahead = drop need s.ahead })
    else err (if s.broken then payload_read else payload_early_eof)

take_all : (xs : Bytes) → take (length xs) xs ≡ xs
take_all [] = refl
take_all (x ∷ xs) = ap (λ t. x ∷ t) (take_all xs)

leb-drop :
    (n m : ℕ) (xs : Bytes) → n ≤ length xs → leb m (length (drop n xs)) ≡ leb (n + m) (length xs)
leb-drop n m xs h = ground (arith, length-drop n xs)

fetch-add :
    (n m : ℕ) (got : Bytes) (s : Source)
    → n ≤ length s.ahead
    → fetch m (got ++ take n s.ahead) (record s { ahead = drop n s.ahead }) ≡ fetch (n + m) got s
unfolding fetch
fetch-add n m got s h = rw (
  append_assoc got (take n s.ahead) (take m (drop n s.ahead)),
  take-add n m s.ahead,
  ← drop-add n m s.ahead,
  leb-drop n m s.ahead h,
)

-- With enough octets got, nothing more is read.
fetch_done :
    (len : ℕ) (got : Bytes) (s : Source)
    → length got ≡ len
    → ok (take len got, s) ≡ fetch (len - length got) got s
unfolding fetch
fetch_done len got s e =
    let none_left : len - length got ≡ 0 = omega arith in
    rw (none_left, append-nil got, ← e, take_all got) (rw (le→leb 0 (length s.ahead) (omega arith)))

take_nil : (n : ℕ) → take {A = ℕ} n [] ≡ []
take_nil zero = refl
take_nil (suc n) = refl

drop_nil : (n : ℕ) → drop {A = ℕ} n [] ≡ []
drop_nil zero = refl
drop_nil (suc n) = refl

-- A read takes something where something is ahead.
read_buf_some :
    (remaining size : ℕ) (s : Source)
    → 0 < length s.ahead
    → let n = min remaining (min (suc size) (length s.ahead)) in
      read_buf remaining size s ≡ ok (take n s.ahead, record s { ahead = drop n s.ahead })
unfolding read_buf
read_buf_some remaining size s h = ground arith

read_buf_end :
    (remaining size : ℕ) (broken : Bool)
    → read_buf remaining size (record { ahead = []; broken = broken })
      ≡ (if broken then err payload_read else ok ([], record { ahead = []; broken = broken }))
unfolding read_buf
read_buf_end remaining size true = refl
read_buf_end remaining size false =
    let n : ℕ = min remaining (min (suc size) 0) in rw (take_nil n, drop_nil n)

fetch_end :
    (need : ℕ) (got : Bytes) (broken : Bool)
    → 0 < need
    → fetch need got (record { ahead = []; broken = broken })
      ≡ err (if broken then payload_read else payload_early_eof)
unfolding fetch
fetch_end need got broken h = ground arith

abbrev Agrees : ℕ → Type 0
Agrees fuel =
    (sizes : ℕ → ℕ) (k len : ℕ) (got : Bytes) (s : Source)
    → length got ≤ len
    → len - length got ≤ fuel
    → read_chunks fuel sizes k len got s ≡ fetch (len - length got) got s

-- The rest of a round that took `n` octets.
round_some :
    (fuel : ℕ) (ih : Agrees fuel) (sizes : ℕ → ℕ) (k len : ℕ) (got : Bytes) (s : Source) (n : ℕ)
    → 0 < n
    → n ≤ length s.ahead
    → length got + n ≤ len
    → len - length got ≤ suc fuel
    → elim (length (take n s.ahead) == 0) [
      | true ↦ err payload_early_eof
      | false ↦
          read_chunks fuel sizes
            (k + 1)
            len
            (got ++ take n s.ahead)
            (record s { ahead = drop n s.ahead })
    ]
      ≡ fetch (len - length got) got s
round_some fuel ih sizes k len got s n pos fits room b =
    let taken : length (take n s.ahead) ≡ n = omega (arith, length-take n s.ahead) in
    let some_read : (length (take n s.ahead) == 0) ≡ false = ground (arith, taken) in
    let got' : Bytes = got ++ take n s.ahead in
    let grown : length got' ≡ length got + n =
      omega (arith, taken, length-append got (take n s.ahead)) in
    let left : ℕ = len - length got' in
    let need : n + left ≡ len - length got = omega (arith, grown) in
    rw some_read (
      ih sizes (k + 1) len got' (record s { ahead = drop n s.ahead }) (omega (arith, grown))
        (omega (arith, grown))
      ∙ fetch-add n left got s fits
      ∙ ap (λ m. fetch m got s) need)

round :
    (fuel : ℕ) (ih : Agrees fuel) (sizes : ℕ → ℕ) (k len : ℕ) (got xs : Bytes) (broken : Bool)
    → length got < len
    → len - length got ≤ suc fuel
    → read_chunks (suc fuel) sizes k len got (record { ahead = xs; broken = broken })
      ≡ fetch (len - length got) got (record { ahead = xs; broken = broken })
unfolding read_chunks
round fuel ih sizes k len got [] true a b =
    rw (lt→ltb (length got) len a, read_buf_end (len - length got) (sizes k) true)
      (rw (fetch_end (len - length got) got true (omega arith)))
round fuel ih sizes k len got [] false a b =
    rw (lt→ltb (length got) len a, read_buf_end (len - length got) (sizes k) false)
      (rw (fetch_end (len - length got) got false (omega arith)))
round fuel ih sizes k len got (x ∷ xs) broken a b =
    let s : Source = record { ahead = x ∷ xs; broken = broken } in
    let need : ℕ = len - length got in
    let n : ℕ = min need (min (suc (sizes k)) (length s.ahead)) in
    rw (lt→ltb (length got) len a, read_buf_some need (sizes k) s (omega arith))
      (round_some fuel ih sizes k len got s n (omega arith) (omega arith) (omega arith) b)

-- However the payload arrives in pieces, the loop returns what a read of the whole would return.
-- So it ends, with `stuck` on no input.
pub read_chunks-fetch :
    (fuel : ℕ) (sizes : ℕ → ℕ) (k len : ℕ) (got : Bytes) (s : Source)
    → length got ≤ len
    → len - length got ≤ fuel
    → read_chunks fuel sizes k len got s ≡ fetch (len - length got) got s
unfolding read_chunks
read_chunks-fetch zero sizes k len got s a b =
    rw (ltb-false_of_le (length got) len (omega arith)) (fetch_done len got s (omega arith))
read_chunks-fetch (suc fuel) sizes k len got s a b = elim (Bool-cases (ltb (length got) len)) [
  | inr done ↦ rw done (fetch_done len got s (ground arith))
  | inl more ↦
      round fuel (read_chunks-fetch fuel) sizes k len got s.ahead s.broken (ltb→lt _ _ more) b
]
