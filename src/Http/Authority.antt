-- ===== src/Http/Authority.antt =====
-- `parse_host_port` and `parse_absolute_http_target` of crates/ssh-proxy-transport/src/proxy/http.rs.
use ssh_proxy.Base.{
  ℕ, Bool, ◌||◌, [], ◌∷◌, Option, none, some, Result, ok, err, ◌>>=◌, ok_or, ◌==◌, if◌then◌else◌,
}
use ssh_proxy.Wire.Bytes.{Bytes, ascii, u16_mod}
use ssh_proxy.Http.Text.{has, before, onward, strip_prefix, split_once, rsplit_once, parse_uint}

pub data AuthorityError : Type 0 where
  empty_authority invalid_bracketed invalid_port invalid_suffix : AuthorityError

abbrev Authority : Type 0
Authority = Result AuthorityError (Bytes × ℕ)

abbrev parse_port : Bytes → Bytes → Authority
parse_port host digits = do port ← ok_or (parse_uint u16_mod digits) invalid_port; ok (host, port)

-- What stands behind the closing bracket.
abbrev suffix : ℕ → Bytes → Bytes → Authority
suffix default_port host [] = ok (host, default_port)
suffix default_port host (c ∷ tail) = if c == b':' then parse_port host tail else err invalid_suffix

unfoldable pub bracketed : ℕ → Bytes → Authority
unfolding split_once parse_uint
bracketed default_port rest = elim (split_once b']' rest) [
  | none ↦ err invalid_bracketed
  | some (host, tail) ↦ suffix default_port host tail
]

-- A colon in the host means an address without brackets, and no port.
abbrev plain_of : ℕ → Bytes → Option (Bytes × Bytes) → Authority
plain_of default_port authority none = ok (authority, default_port)
plain_of default_port authority (some (host, digits)) =
    if has b':' host then ok (authority, default_port) else parse_port host digits

unfoldable pub plain : ℕ → Bytes → Authority
unfolding rsplit_once has parse_uint
plain default_port authority = plain_of default_port authority (rsplit_once b':' authority)

unfoldable pub parse_host_port : Bytes → ℕ → Authority
unfolding bracketed plain
parse_host_port [] default_port = err empty_authority
parse_host_port (c ∷ authority) default_port =
    if c == b'[' then bracketed default_port authority else plain default_port (c ∷ authority)

pub record AbsoluteTarget : Type 0 where
  pub host : Bytes
  pub port : ℕ
  pub path : Bytes

abbrev pub is_path_start : ℕ → Bool
is_path_start b = (b == b'/') || (b == b'?')

-- `find(['/', '?'])`, with "/" when there is no path.
abbrev pub rooted : Bytes → Bytes
rooted [] = b'/' ∷ []
rooted (c ∷ path) = if c == b'?' then b'/' ∷ c ∷ path else c ∷ path

abbrev pub absolute_of : Bytes → Authority → Option AbsoluteTarget
absolute_of path (err e) = none
absolute_of path (ok (host, port)) = some (record { host = host; port = port; path = path })

unfoldable pub parse_absolute_http_target : Bytes → Option AbsoluteTarget
unfolding strip_prefix before onward parse_host_port
parse_absolute_http_target target = elim (strip_prefix (ascii "http://") target) [
  | none ↦ none
  | some rest ↦
      absolute_of (rooted (onward is_path_start rest))
        (parse_host_port (before is_path_start rest) 80)
]
