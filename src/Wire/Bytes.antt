-- ===== src/Wire/Bytes.antt =====
-- Octets, big-endian numbers (`to_be_bytes`, `from_be_bytes`) and `String::from_utf8`, the parts of
-- Rust's standard library that crates/ssh-proxy-protocol/src/protocol.rs works with.
use Prim.Native.Char.{code}
use Prim.Native.String.{String}
use ssh_proxy.Base.{
  ℕ, ◌+◌, ◌*◌, ◌/◌, ◌%◌, ◌<◌, ◌≡◌, refl, Bool, true, false, ◌&&◌, List, [], ◌∷◌, Option, none, some,
  arith, ltb, leb, ◌==◌, if◌then◌else◌, All,
}

abbrev pub Bytes : Type 0
Bytes = List ℕ

abbrev pub u8_mod : ℕ
u8_mod = 256

abbrev pub u16_mod : ℕ
u16_mod = 65536

abbrev pub u32_mod : ℕ
u32_mod = 4294967296

abbrev pub u64_mod : ℕ
u64_mod = 18446744073709551616

abbrev pub usize_mod : ℕ
usize_mod = 18446744073709551616

-- The octets of an ASCII text.
abbrev pub ascii : String → Bytes
ascii String.[] = []
ascii (String.◌∷◌ c s) = code c ∷ ascii s

abbrev pub IsByte : ℕ → Type 0
IsByte b = b < u8_mod

abbrev pub u16_be : ℕ → Bytes
u16_be n = n / 256 % 256 ∷ n % 256 ∷ []

abbrev pub u32_be : ℕ → Bytes
u32_be n = n / 16777216 % 256 ∷ n / 65536 % 256 ∷ n / 256 % 256 ∷ n % 256 ∷ []

abbrev pub u64_be : ℕ → Bytes
u64_be n =
    n / 72057594037927936 % 256
    ∷ n / 281474976710656 % 256
    ∷ n / 1099511627776 % 256
    ∷ n / 4294967296 % 256
    ∷ u32_be n

-- The value of a slice of octets, first octet first.
unfoldable pub from_be : ℕ → Bytes → ℕ
from_be acc [] = acc
from_be acc (b ∷ bs) = from_be (acc * 256 + b) bs

pub from_be-u16_be : (n : ℕ) → n < u16_mod → from_be 0 (u16_be n) ≡ n
unfolding from_be
from_be-u16_be n h = omega arith

pub from_be-u32_be : (n : ℕ) → n < u32_mod → from_be 0 (u32_be n) ≡ n
unfolding from_be
from_be-u32_be n h = omega arith

pub from_be-u64_be : (n : ℕ) → n < u64_mod → from_be 0 (u64_be n) ≡ n
unfolding from_be
from_be-u64_be n h = omega arith

pub u16_be-IsByte : (n : ℕ) → All IsByte (u16_be n)
u16_be-IsByte n = omega arith

pub u32_be-IsByte : (n : ℕ) → All IsByte (u32_be n)
u32_be-IsByte n = omega arith

-- The octets that may follow a lead octet, as closed ranges; `none` for no lead octet.
abbrev Range : Type 0
Range = ℕ × ℕ

abbrev cont : Range
cont = (0x80, 0xbf)

utf8_tail : ℕ → Option (List Range)
utf8_tail b =
    if ltb b 0x80
    then some []
    else if ltb b 0xc2
    then none
    else if ltb b 0xe0
    then some (cont ∷ [])
    else if b == 0xe0
    then some ((0xa0, 0xbf) ∷ cont ∷ [])
    else if b == 0xed
    then some ((0x80, 0x9f) ∷ cont ∷ [])
    else if ltb b 0xf0
    then some (cont ∷ cont ∷ [])
    else if b == 0xf0
    then some ((0x90, 0xbf) ∷ cont ∷ cont ∷ [])
    else if ltb b 0xf4
    then some (cont ∷ cont ∷ cont ∷ [])
    else if b == 0xf4
    then some ((0x80, 0x8f) ∷ cont ∷ cont ∷ [])
    else none

-- Whether the rest of a text is well formed, with the ranges that the current character waits for.
utf8_from : List Range → Bytes → Bool
utf8_from [] [] = true
utf8_from (r ∷ rs) [] = false
utf8_from [] (b ∷ bs) = elim (utf8_tail b) [ none ↦ false | some rs ↦ utf8_from rs bs ]
utf8_from ((lo, hi) ∷ rs) (b ∷ bs) = leb lo b && leb b hi && utf8_from rs bs

unfoldable pub is_utf8 : Bytes → Bool
unfolding utf8_from utf8_tail
is_utf8 bs = utf8_from [] bs

-- A Rust `String`, as the octets that it is stored in.
abbrev pub IsText : Bytes → Type 0
IsText s = All IsByte s × (is_utf8 s ≡ true)

utf8_from_of_ascii : (s : Bytes) → All (λ b. b < 0x80) s → utf8_from [] s ≡ true
unfolding utf8_from utf8_tail
utf8_from_of_ascii [] h = refl
utf8_from_of_ascii (b ∷ s) h =
    let low : utf8_tail b ≡ some [] = ground (arith, h.0) in
    rw (low, utf8_from) (utf8_from_of_ascii s h.1)

-- ASCII is UTF-8.
pub is_utf8_of_ascii : (s : Bytes) → All (λ b. b < 0x80) s → is_utf8 s ≡ true
unfolding is_utf8
is_utf8_of_ascii s h = utf8_from_of_ascii s h
