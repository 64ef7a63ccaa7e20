-- ===== src/Http/Headers.antt =====
-- Header lines, and which of them a proxy must not pass on:
-- crates/ssh-proxy-transport/src/proxy/http.rs.
pub mod Ends
use ssh_proxy.Base.{
  ℕ, suc, Bool, false, not, ◌||◌, List, [], ◌∷◌, ◌++◌, Option, none, some, filter, if◌then◌else◌,
}
use ssh_proxy.Wire.Bytes.{Bytes, ascii}
use ssh_proxy.Http.Text.{
  starts_with, split_once, split_on, split_crlf, trim, eq_ignore_ascii_case, to_ascii_lowercase,
}

unfoldable pub split_header : Bytes → Option (Bytes × Bytes)
unfolding split_once trim
split_header line = elim (split_once b':' line) [
  | none ↦ none
  | some (name, value) ↦ some (trim name, trim value)
]

-- `iter().any(..)`.
unfoldable pub named_in : Bytes → List Bytes → Bool
unfolding eq_ignore_ascii_case
named_in name [] = false
named_in name (h ∷ hs) = eq_ignore_ascii_case name h || named_in name hs

abbrev pub hop_by_hop : List Bytes
hop_by_hop =
    ascii "connection"
    ∷ ascii "keep-alive"
    ∷ ascii "proxy-authenticate"
    ∷ ascii "proxy-authorization"
    ∷ ascii "proxy-connection"
    ∷ ascii "te"
    ∷ ascii "trailer"
    ∷ ascii "upgrade"
    ∷ []

abbrev pub is_static_hop_by_hop_header : Bytes → Bool
is_static_hop_by_hop_header name = named_in name hop_by_hop

-- The tokens of one value: trimmed, not empty, in lower case.
abbrev add_token : Bytes → List Bytes → List Bytes
add_token [] tokens = tokens
add_token (b ∷ t) tokens = to_ascii_lowercase (b ∷ t) ∷ tokens

unfoldable pub tokens_of : List Bytes → List Bytes
unfolding trim
tokens_of [] = []
tokens_of (part ∷ parts) = add_token (trim part) (tokens_of parts)

abbrev header_tokens : Option (Bytes × Bytes) → List Bytes
header_tokens none = []
header_tokens (some (name, value)) =
    if eq_ignore_ascii_case name (ascii "connection") then tokens_of (split_on b',' value) else []

unfoldable pub connection_header_tokens : List Bytes → List Bytes
unfolding split_header eq_ignore_ascii_case tokens_of split_on
connection_header_tokens [] = []
connection_header_tokens (line ∷ lines) =
    header_tokens (split_header line) ++ connection_header_tokens lines

unfoldable pub should_skip_forward_header : List Bytes → Bytes → Bool
unfolding split_header named_in
should_skip_forward_header connection_tokens line = elim (split_header line) [
  | none ↦ false
  | some (name, value) ↦ is_static_hop_by_hop_header name || named_in name connection_tokens
]

-- `take_while(|line| !line.is_empty())`.
unfoldable pub until_empty : List Bytes → List Bytes
until_empty [] = []
until_empty ([] ∷ lines) = []
until_empty ((b ∷ l) ∷ lines) = (b ∷ l) ∷ until_empty lines

abbrev pub behind_first : List Bytes → List Bytes
behind_first [] = []
behind_first (first ∷ lines) = lines

abbrev pub first_line : List Bytes → Bytes
first_line [] = []
first_line (first ∷ lines) = first

-- The header lines of a message, behind its first line.
unfoldable pub header_lines : Bytes → List Bytes
unfolding until_empty split_crlf
header_lines message = until_empty (behind_first (split_crlf message))

-- The lines that are passed on.
unfoldable pub kept_lines : List Bytes → List Bytes
unfolding should_skip_forward_header connection_header_tokens
kept_lines lines =
    filter (λ line. not (should_skip_forward_header (connection_header_tokens lines) line)) lines

abbrev pub blank_line : Bytes
blank_line = b'\r' ∷ b'\n' ∷ b'\r' ∷ b'\n' ∷ []

abbrev pub after : Option ℕ → Option ℕ
after none = none
after (some n) = some (suc n)

-- The place behind the first blank line.
unfoldable pub http_header_end : Bytes → Option ℕ
unfolding starts_with
http_header_end [] = none
http_header_end (b ∷ s) =
    let later = after (http_header_end s) in
    if starts_with blank_line (b ∷ s) then some 4 else later
