-- ===== src/Route/Text.antt =====
-- What the route decisions use of Rust's texts: `==`, `matches!` on literals, `to_ascii_lowercase`
-- and the decimal `Display` of a number.
use Prim.Native.Char.{Char, code}
use Prim.Native.String.{String, ◌++◌}
use text.Mathlib.Text.{◌==◌}
use ssh_proxy.Base.{
  ℕ, zero, suc, ◌/◌, ◌%◌, ◌≡◌, refl, Bool, false, ◌||◌, List, [], ◌∷◌, Option, none, some, ltb,
  get_elem?, unwrap_or, if◌then◌else◌,
}
use ssh_proxy.Base.Table.{Table, lookup}

-- `matches!(s, "a" | "b" | ...)`.
abbrev pub one_of : String → List String → Bool
one_of s [] = false
one_of s (t ∷ ts) = (s == t) || one_of s ts

lower_case : Table Char
lower_case =
    (0x41, "a")
    ∷ (0x42, "b")
    ∷ (0x43, "c")
    ∷ (0x44, "d")
    ∷ (0x45, "e")
    ∷ (0x46, "f")
    ∷ (0x47, "g")
    ∷ (0x48, "h")
    ∷ (0x49, "i")
    ∷ (0x4a, "j")
    ∷ (0x4b, "k")
    ∷ (0x4c, "l")
    ∷ (0x4d, "m")
    ∷ (0x4e, "n")
    ∷ (0x4f, "o")
    ∷ (0x50, "p")
    ∷ (0x51, "q")
    ∷ (0x52, "r")
    ∷ (0x53, "s")
    ∷ (0x54, "t")
    ∷ (0x55, "u")
    ∷ (0x56, "v")
    ∷ (0x57, "w")
    ∷ (0x58, "x")
    ∷ (0x59, "y")
    ∷ (0x5a, "z")
    ∷ []

abbrev or_same : Option Char → Char → Char
or_same (some d) c = d
or_same none c = c

unfoldable pub to_ascii_lowercase : String → String
unfolding lower_case lookup
to_ascii_lowercase String.[] = String.[]
to_ascii_lowercase (String.◌∷◌ c s) =
    String.◌∷◌ (or_same (lookup (code c) lower_case) c) (to_ascii_lowercase s)

abbrev digits : List String
digits = "0" ∷ "1" ∷ "2" ∷ "3" ∷ "4" ∷ "5" ∷ "6" ∷ "7" ∷ "8" ∷ "9" ∷ []

abbrev digit : ℕ → String
digit n = unwrap_or (get_elem? digits n) ""

-- As many rounds as the number itself are enough.
decimal_digits : ℕ → ℕ → String → String
decimal_digits zero n acc = digit n ++ acc
decimal_digits (suc fuel) n acc =
    let more = decimal_digits fuel (n / 10) (digit (n % 10) ++ acc) in
    if ltb n 10 then digit n ++ acc else more

unfoldable pub decimal : ℕ → String
unfolding decimal_digits
decimal n = decimal_digits n n ""

decimal_1080 : decimal 1080 ≡ "1080"
unfolding decimal
decimal_1080 = refl

lowercase_tls : to_ascii_lowercase "TLS-Tcp" ≡ "tls-tcp"
unfolding to_ascii_lowercase
lowercase_tls = refl
