-- ===== src/Http/Text/Words.antt =====
-- The words of a text: no octet of a word is a line break, and visible words are found whole.
use ssh_proxy.Base.{
  ℕ, ◌≤◌, ◌≡◌, ◌≢◌, refl, sym, ap, ◌∙◌, false, Bool-cases, inl, inr, List, [], ◌∷◌, ◌++◌,
  append-nil, append_assoc, All, All-append, arith,
}
use ssh_proxy.Wire.Bytes.{Bytes}
use ssh_proxy.Http.Text.{join, chars, is_whitespace, add_word, words_from, split_whitespace}
use ssh_proxy.Http.Text.Lines.{HasNoReturn}

-- One octet, or none that is ASCII.
IsChar : Bytes → Type 0
IsChar [] = Unit
IsChar (b ∷ []) = Unit
IsChar (b ∷ c ∷ ch) = (0x80 ≤ b) × All (λ d. 0x80 ≤ d) (c ∷ ch)

join-IsChar : (b : ℕ) (cs : List Bytes) → All IsChar cs → All IsChar (join b cs)
unfolding IsChar
join-IsChar b [] h = (tt, tt)
join-IsChar b ([] ∷ cs) h = (tt, (tt, h.1))
join-IsChar b ((c ∷ []) ∷ cs) h = ground arith
join-IsChar b ((c ∷ d ∷ ch) ∷ cs) h = ground arith

chars-IsChar : (s : Bytes) → All IsChar (chars s)
unfolding chars
chars-IsChar [] = tt
chars-IsChar (b ∷ s) = join-IsChar b (chars s) (chars-IsChar s)

high-HasNoReturn : (s : Bytes) → All (λ d. 0x80 ≤ d) s → HasNoReturn s
high-HasNoReturn [] h = tt
high-HasNoReturn (b ∷ s) h = (omega arith, high-HasNoReturn s h.1)

char-HasNoReturn : (c : Bytes) → IsChar c → is_whitespace c ≡ false → HasNoReturn c
unfolding IsChar is_whitespace
char-HasNoReturn [] h e = tt
char-HasNoReturn (b ∷ []) h e = ground arith
char-HasNoReturn (b ∷ c ∷ ch) h e = (omega arith, high-HasNoReturn (c ∷ ch) h.1)

add_word-All :
    (w : Bytes) (ws : List Bytes)
    → HasNoReturn w
    → All HasNoReturn ws
    → All HasNoReturn (add_word w ws)
add_word-All [] ws h k = k
add_word-All (b ∷ w) ws h k = (h, k)

words_from-All :
    (w : Bytes) (cs : List Bytes)
    → HasNoReturn w
    → All IsChar cs
    → All HasNoReturn (words_from w cs)
unfolding words_from
words_from-All w [] h k = add_word-All w [] h tt
words_from-All w (c ∷ cs) h k = elim (Bool-cases (is_whitespace c)) [
  | inl e ↦ rw e (add_word-All w (words_from [] cs) h (words_from-All [] cs tt k.1))
  | inr e ↦ rw e (
      words_from-All (w ++ c) cs (All-append (λ b. b ≢ b'\r') w c h (char-HasNoReturn c k.0 e)) k.1)
]

pub split_whitespace-All : (s : Bytes) → All HasNoReturn (split_whitespace s)
unfolding split_whitespace
split_whitespace-All s = words_from-All [] (chars s) tt (chars-IsChar s)

-- Printed ASCII.
abbrev pub IsVisible : ℕ → Type 0
IsVisible b = (33 ≤ b) × (b ≤ 126)

join-low : (b : ℕ) (cs : List Bytes) → b ≤ 126 → join b cs ≡ (b ∷ []) ∷ cs
join-low b [] h = refl
join-low b ([] ∷ cs) h = refl
join-low b ((c ∷ ch) ∷ cs) h = ground arith

words_from-visible :
    (w v s : Bytes)
    → All IsVisible v
    → words_from w (chars (v ++ s)) ≡ words_from (w ++ v) (chars s)
unfolding words_from chars is_whitespace
words_from-visible w [] s h = rw append-nil refl
words_from-visible w (b ∷ v) s h =
    rw (join-low b (chars (v ++ s)) (omega (arith, h.0)))
      (ground (arith, h.0, words_from-visible (w ++ b ∷ []) v s h.1, append_assoc w (b ∷ []) v))

words_from-space :
    (b : ℕ) (v s : Bytes)
    → words_from (b ∷ v) (chars (b' ' ∷ s)) ≡ (b ∷ v) ∷ words_from [] (chars s)
unfolding words_from chars is_whitespace
words_from-space b v s = rw (join-low b' ' (chars s) (omega arith)) refl

-- A visible word, and the words behind the space.
pub split_whitespace-space :
    (b : ℕ) (v s : Bytes)
    → All IsVisible (b ∷ v)
    → split_whitespace ((b ∷ v) ++ b' ' ∷ s) ≡ (b ∷ v) ∷ split_whitespace s
unfolding split_whitespace
split_whitespace-space b v s h = words_from-visible [] (b ∷ v) (b' ' ∷ s) h ∙ words_from-space b v s

pub split_whitespace-last :
    (b : ℕ) (v : Bytes) → All IsVisible (b ∷ v) → split_whitespace (b ∷ v) ≡ (b ∷ v) ∷ []
unfolding split_whitespace words_from chars
split_whitespace-last b v h =
    ap split_whitespace (sym (append-nil (b ∷ v))) ∙ words_from-visible [] (b ∷ v) [] h
