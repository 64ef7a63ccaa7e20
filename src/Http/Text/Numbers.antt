-- ===== src/Http/Text/Numbers.antt =====
-- Rust's `Display` of an unsigned integer, and how `parse` reads it back.
use ssh_proxy.Base.{
  ℕ, zero, suc, ◌+◌, ◌-◌, ◌*◌, ◌/◌, ◌%◌, ◌<◌, ◌≤◌, ◌≡◌, ap, ◌∙◌, true, Bool-cases, inl, inr, [],
  ◌∷◌, ◌++◌, some, ltb, if◌then◌else◌, arith, lt→ltb, ltb→lt, All, All-append, length,
  length-append,
}
use ssh_proxy.Wire.Bytes.{Bytes}
use ssh_proxy.Http.Text.{parse_uint, digits_from}

unfoldable pub show_from : ℕ → ℕ → Bytes
show_from zero n = []
show_from (suc fuel) n =
    let rest = show_from fuel (n / 10) in
    if ltb n 10 then (b'0' + n) ∷ [] else rest ++ (b'0' + n % 10) ∷ []

-- `format!("{n}")`.
unfoldable pub show_uint : ℕ → Bytes
unfolding show_from
show_uint n = show_from (suc n) n

abbrev pub IsDigit : ℕ → Type 0
IsDigit b = (b'0' ≤ b) × (b ≤ b'9')

show_from-IsDigit : (fuel n : ℕ) → All IsDigit (show_from fuel n)
unfolding show_from
show_from-IsDigit zero n = tt
show_from-IsDigit (suc fuel) n = elim (Bool-cases (ltb n 10)) [
  | inl e ↦ rw e (omega (arith, ltb→lt n 10 e))
  | inr e ↦ rw e (
      All-append IsDigit (show_from fuel (n / 10)) ((b'0' + n % 10) ∷ [])
        (show_from-IsDigit fuel (n / 10)) (omega arith))
]

digits_from-append :
    (acc d : ℕ) (s : Bytes)
    → All IsDigit s
    → d < 10
    → (v : ℕ) → digits_from acc s ≡ some v
    → digits_from acc (s ++ (b'0' + d) ∷ []) ≡ some (v * 10 + d)
unfolding digits_from
digits_from-append acc d [] h lt v e = ground arith
digits_from-append acc d (b ∷ s) h lt v e =
    ground (arith, digits_from-append (acc * 10 + (b - b'0')) d s h.1 lt v)

-- What was not below ten has a quotient that needs less fuel.
digits_from-show_from : (fuel n : ℕ) → n < fuel → digits_from 0 (show_from fuel n) ≡ some n
unfolding digits_from show_from
digits_from-show_from zero n h = absurd (omega arith)
digits_from-show_from (suc fuel) n h = elim (Bool-cases (ltb n 10)) [
  | inl e ↦ rw e (ground arith)
  | inr e ↦ rw e (
      digits_from-append 0 (n % 10) (show_from fuel (n / 10)) (show_from-IsDigit fuel (n / 10))
        (omega arith) (n / 10) (digits_from-show_from fuel (n / 10) (ground arith))
      ∙ ap some (omega arith))
]

-- A printed number starts with a digit.
abbrev Leads : Bytes → Type 0
Leads [] = ⊥
Leads (b ∷ s) = IsDigit b

Leads-append : (s : Bytes) (b : ℕ) → All IsDigit s → IsDigit b → Leads (s ++ b ∷ [])
Leads-append [] b h k = k
Leads-append (c ∷ s) b h k = h.0

show_uint-Leads : (n : ℕ) → Leads (show_uint n)
unfolding show_uint show_from
show_uint-Leads n = elim (Bool-cases (ltb n 10)) [
  | inl e ↦ rw e (omega (arith, ltb→lt n 10 e))
  | inr e ↦ rw e (
      Leads-append (show_from n (n / 10)) (b'0' + n % 10) (show_from-IsDigit n (n / 10))
        (omega arith))
]

digits_of_Leads :
    (bound n : ℕ) (s : Bytes)
    → Leads s
    → digits_from 0 s ≡ some n
    → n < bound
    → parse_uint bound s ≡ some n
unfolding parse_uint
digits_of_Leads bound n [] l e h = absurd l
digits_of_Leads bound n (b ∷ s) l e h = ground (arith, e, lt→ltb n bound h)

pub show_uint-IsDigit : (n : ℕ) → All IsDigit (show_uint n)
unfolding show_uint
show_uint-IsDigit n = show_from-IsDigit (suc n) n

pub parse_uint-show_uint : (bound n : ℕ) → n < bound → parse_uint bound (show_uint n) ≡ some n
unfolding show_uint
parse_uint-show_uint bound n h =
    digits_of_Leads bound n (show_uint n) (show_uint-Leads n)
      (digits_from-show_from (suc n) n (omega arith)) h

abbrev pow10 : ℕ → ℕ
pow10 zero = 1
pow10 (suc k) = 10 * pow10 k

show_from-length : (k fuel n : ℕ) → n < pow10 (suc k) → length (show_from fuel n) ≤ suc k
unfolding show_from
show_from-length k zero n h = omega arith
show_from-length zero (suc fuel) n h =
    let low : ltb n 10 ≡ true = ground (arith, h) in rw low (omega arith)
show_from-length (suc k) (suc fuel) n h = elim (Bool-cases (ltb n 10)) [
  | inl e ↦ rw e (omega arith)
  | inr e ↦ rw e (
      omega (
        arith,
        length-append (show_from fuel (n / 10)) ((b'0' + n % 10) ∷ []),
        show_from-length k fuel (n / 10) (omega (arith, h)),
      ))
]

-- A port has at most five digits.
pub show_uint-length : (n : ℕ) → n < 65536 → length (show_uint n) ≤ 5
unfolding show_uint
show_uint-length n h = show_from-length 4 (suc n) n (omega (arith, h))
