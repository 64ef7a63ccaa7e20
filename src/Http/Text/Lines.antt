-- ===== src/Http/Text/Lines.antt =====
-- Lines that end with a carriage return and a line feed, cut and put together.
use ssh_proxy.Base.{
  ℕ, ◌≡◌, ◌≢◌, refl, ap, ◌∙◌, false, ◌&&◌, Bool-cases, inl, inr, List, [], ◌∷◌, ◌++◌, append_assoc,
  ◌==◌, All, arith,
}
use ssh_proxy.Wire.Bytes.{Bytes}
use ssh_proxy.Http.Text.{attach, split_crlf}

-- No line feed follows a carriage return.
abbrev pub IsLine : Bytes → Type 0
IsLine [] = Unit
IsLine (b ∷ []) = Unit
IsLine (b ∷ c ∷ l) = (((b == b'\r') && (c == b'\n')) ≡ false) × IsLine (c ∷ l)

abbrev pub crlf : Bytes
crlf = b'\r' ∷ b'\n' ∷ []

attach-All : (b : ℕ) (ls : List Bytes) → All IsLine ls → All IsLine (attach b ls)
attach-All b [] h = (tt, tt)
attach-All b ([] ∷ ls) h = (tt, h.1)
attach-All b ((c ∷ []) ∷ ls) h = ground arith
attach-All b ((c ∷ d ∷ l) ∷ ls) h = ground arith

pub split_crlf-All : (s : Bytes) → All IsLine (split_crlf s)
unfolding split_crlf
split_crlf-All [] = (tt, tt)
split_crlf-All (b ∷ s) = attach-All b (split_crlf s) (split_crlf-All s)

abbrev IsBroken : List Bytes → Type 0
IsBroken ls = attach b'\r' (attach b'\n' ls) ≡ [] ∷ ls

attach-IsBroken : (b : ℕ) (ls : List Bytes) → IsBroken (attach b ls)
attach-IsBroken b [] = refl
attach-IsBroken b ([] ∷ ls) = refl
attach-IsBroken b ((c ∷ l) ∷ ls) = elim (Bool-cases ((b == b'\r') && (c == b'\n'))) [
  | inl e ↦ rw e refl
  | inr e ↦ rw e refl
]

split_crlf-IsBroken : (s : Bytes) → IsBroken (split_crlf s)
unfolding split_crlf
split_crlf-IsBroken [] = refl
split_crlf-IsBroken (b ∷ s) = attach-IsBroken b (split_crlf s)

-- A line is cut off at its break.
pub split_crlf-line : (l s : Bytes) → IsLine l → split_crlf (l ++ (crlf ++ s)) ≡ l ∷ split_crlf s
unfolding split_crlf
split_crlf-line [] s h = split_crlf-IsBroken s
split_crlf-line (b ∷ []) s h = rw (split_crlf-IsBroken s) refl
split_crlf-line (b ∷ c ∷ l) s (e, h) = rw (split_crlf-line (c ∷ l) s h, e) refl

-- Lines, each with its break.
unfoldable pub unlines : List Bytes → Bytes
unlines [] = []
unlines (l ∷ ls) = l ++ (crlf ++ unlines ls)

pub split_crlf-unlines :
    (ls : List Bytes) (s : Bytes)
    → All IsLine ls
    → split_crlf (unlines ls ++ s) ≡ ls ++ split_crlf s
unfolding unlines
split_crlf-unlines [] s h = refl
split_crlf-unlines (l ∷ ls) s h =
    ap split_crlf (append_assoc l (crlf ++ unlines ls) s)
    ∙ split_crlf-line l (unlines ls ++ s) h.0
    ∙ ap (λ t. l ∷ t) (split_crlf-unlines ls s h.1)

-- A text in which no octet is a carriage return.
abbrev pub HasNoReturn : Bytes → Type 0
HasNoReturn s = All (λ b. b ≢ b'\r') s

pub IsLine-of_HasNoReturn : (s : Bytes) → HasNoReturn s → IsLine s
IsLine-of_HasNoReturn [] h = tt
IsLine-of_HasNoReturn (b ∷ []) h = tt
IsLine-of_HasNoReturn (b ∷ c ∷ s) h = (ground arith, IsLine-of_HasNoReturn (c ∷ s) h.1)
