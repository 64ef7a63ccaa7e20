-- ===== src/Http/Text.antt =====
-- The operations on `str` that crates/ssh-proxy-transport/src/proxy/http.rs and
-- crates/ssh-proxy/src/remote/egress/proxy_endpoint.rs use, on the octets of a text.
pub mod Words
pub mod Lines
pub mod Numbers
use ssh_proxy.Base.{
  ℕ, ◌+◌, ◌-◌, ◌*◌, Bool, true, false, ◌&&◌, ◌||◌, List, [], ◌∷◌, ◌++◌, Option, none, some, leb,
  ltb, ◌==◌, if◌then◌else◌,
}
use ssh_proxy.Wire.Bytes.{Bytes}

unfoldable pub equal : Bytes → Bytes → Bool
equal [] [] = true
equal [] (d ∷ t) = false
equal (c ∷ s) [] = false
equal (c ∷ s) (d ∷ t) = (c == d) && equal s t

abbrev pub lower : ℕ → ℕ
lower b = if leb b'A' b && leb b b'Z' then b + 32 else b

abbrev pub to_ascii_lowercase : Bytes → Bytes
to_ascii_lowercase [] = []
to_ascii_lowercase (b ∷ s) = lower b ∷ to_ascii_lowercase s

unfoldable pub eq_ignore_ascii_case : Bytes → Bytes → Bool
unfolding equal
eq_ignore_ascii_case s t = equal (to_ascii_lowercase s) (to_ascii_lowercase t)

-- `strip_prefix`.
unfoldable pub strip_prefix : Bytes → Bytes → Option Bytes
strip_prefix [] s = some s
strip_prefix (p ∷ ps) [] = none
strip_prefix (p ∷ ps) (b ∷ s) = if p == b then strip_prefix ps s else none

unfoldable pub starts_with : Bytes → Bytes → Bool
starts_with [] s = true
starts_with (p ∷ ps) [] = false
starts_with (p ∷ ps) (b ∷ s) = (p == b) && starts_with ps s

abbrev pub is_nil : Bytes → Bool
is_nil [] = true
is_nil (b ∷ s) = false

unfoldable pub has : ℕ → Bytes → Bool
has c [] = false
has c (b ∷ s) = (b == c) || has c s

-- The text in front of the first octet that passes a test, and the text from there on: `find` with
-- the two slices that it gives.
unfoldable pub before : (ℕ → Bool) → Bytes → Bytes
before p [] = []
before p (b ∷ s) = let rest = before p s in if p b then [] else b ∷ rest

unfoldable pub onward : (ℕ → Bool) → Bytes → Bytes
onward p [] = []
onward p (b ∷ s) = let rest = onward p s in if p b then b ∷ s else rest

abbrev pub keep_first : ℕ → Option (Bytes × Bytes) → Option (Bytes × Bytes)
keep_first b none = none
keep_first b (some (x, y)) = some (b ∷ x, y)

unfoldable pub split_once : ℕ → Bytes → Option (Bytes × Bytes)
split_once c [] = none
split_once c (b ∷ s) =
    let later = keep_first b (split_once c s) in if b == c then some ([], s) else later

-- The last place counts: an octet is looked at only when no later one is found.
abbrev pub or_here : ℕ → ℕ → Bytes → Option (Bytes × Bytes) → Option (Bytes × Bytes)
or_here c b s (some (x, y)) = some (b ∷ x, y)
or_here c b s none = if b == c then some ([], s) else none

unfoldable pub rsplit_once : ℕ → Bytes → Option (Bytes × Bytes)
rsplit_once c [] = none
rsplit_once c (b ∷ s) = or_here c b s (rsplit_once c s)

-- `split(c)` for one octet.
abbrev put_first : ℕ → List Bytes → List Bytes
put_first b [] = (b ∷ []) ∷ []
put_first b (part ∷ parts) = (b ∷ part) ∷ parts

unfoldable pub split_on : ℕ → Bytes → List Bytes
split_on c [] = [] ∷ []
split_on c (b ∷ s) = let rest = split_on c s in if b == c then [] ∷ rest else put_first b rest

-- `split("\r\n")`: a line break cannot overlap another, so the lines are joined from the right.
abbrev pub attach : ℕ → List Bytes → List Bytes
attach b [] = (b ∷ []) ∷ []
attach b ([] ∷ ls) = (b ∷ []) ∷ ls
attach b ((c ∷ l) ∷ ls) = if (b == b'\r') && (c == b'\n') then [] ∷ l ∷ ls else (b ∷ c ∷ l) ∷ ls

unfoldable pub split_crlf : Bytes → List Bytes
split_crlf [] = [] ∷ []
split_crlf (b ∷ s) = attach b (split_crlf s)

-- The characters of a text, each as its octets: a continuation octet belongs to the one before it,
-- and an ASCII octet stands alone.
abbrev pub is_continuation : ℕ → Bool
is_continuation b = leb 0x80 b && leb b 0xbf

abbrev pub join : ℕ → List Bytes → List Bytes
join b [] = (b ∷ []) ∷ []
join b ([] ∷ cs) = (b ∷ []) ∷ [] ∷ cs
join b ((c ∷ ch) ∷ cs) =
    if leb 0x80 b && is_continuation c then (b ∷ c ∷ ch) ∷ cs else (b ∷ []) ∷ (c ∷ ch) ∷ cs

unfoldable pub chars : Bytes → List Bytes
chars [] = []
chars (b ∷ s) = join b (chars s)

unfoldable pub concat : List Bytes → Bytes
concat [] = []
concat (c ∷ cs) = c ++ concat cs

-- `char::is_whitespace`: Unicode's White_Space.
unfoldable pub is_whitespace : Bytes → Bool
is_whitespace (a ∷ []) = (leb 9 a && leb a 13) || (a == 32)
is_whitespace (a ∷ b ∷ []) = (a == 0xc2) && ((b == 0x85) || (b == 0xa0))
is_whitespace (a ∷ b ∷ c ∷ []) =
    (a == 0xe1) && (b == 0x9a) && (c == 0x80)
    || (a == 0xe2)
      && (b == 0x80)
      && ((leb 0x80 c && leb c 0x8a) || (c == 0xa8) || (c == 0xa9) || (c == 0xaf))
    || (a == 0xe2) && (b == 0x81) && (c == 0x9f)
    || (a == 0xe3) && (b == 0x80) && (c == 0x80)
is_whitespace _ = false

unfoldable pub trim_start : List Bytes → List Bytes
unfolding is_whitespace
trim_start [] = []
trim_start (c ∷ cs) = let rest = trim_start cs in if is_whitespace c then rest else c ∷ cs

-- White space with nothing behind it goes.
abbrev drop_white : Bytes → List Bytes → List Bytes
drop_white c [] = if is_whitespace c then [] else c ∷ []
drop_white c (d ∷ ds) = c ∷ d ∷ ds

unfoldable pub trim_end : List Bytes → List Bytes
unfolding is_whitespace
trim_end [] = []
trim_end (c ∷ cs) = drop_white c (trim_end cs)

unfoldable pub trim : Bytes → Bytes
unfolding trim_start trim_end concat chars
trim s = concat (trim_end (trim_start (chars s)))

-- `split_whitespace`: the word that is read, and the words behind it.
abbrev pub add_word : Bytes → List Bytes → List Bytes
add_word [] ws = ws
add_word (b ∷ w) ws = (b ∷ w) ∷ ws

unfoldable pub words_from : Bytes → List Bytes → List Bytes
unfolding is_whitespace
words_from w [] = add_word w []
words_from w (c ∷ cs) =
    let parted = add_word w (words_from [] cs) in
    let longer = words_from (w ++ c) cs in if is_whitespace c then parted else longer

unfoldable pub split_whitespace : Bytes → List Bytes
unfolding words_from chars
split_whitespace s = words_from [] (chars s)

-- `parse` of an unsigned integer type with so many values: an optional plus sign, and digits.
unfoldable pub digits_from : ℕ → Bytes → Option ℕ
digits_from acc [] = some acc
digits_from acc (b ∷ s) =
    let rest = digits_from (acc * 10 + (b - b'0')) s in
    if leb b'0' b && leb b b'9' then rest else none

abbrev bounded : ℕ → Option ℕ → Option ℕ
bounded bound none = none
bounded bound (some n) = if ltb n bound then some n else none

abbrev digits_of : Bytes → Option ℕ
digits_of [] = none
digits_of (b ∷ s) = digits_from 0 (b ∷ s)

abbrev unsigned : Bytes → Bytes
unsigned [] = []
unsigned (b ∷ s) = if b == b'+' then s else b ∷ s

unfoldable pub parse_uint : ℕ → Bytes → Option ℕ
unfolding digits_from
parse_uint bound s = bounded bound (digits_of (unsigned s))
