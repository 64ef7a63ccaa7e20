-- ===== src/Daemon/Keys.antt =====
-- The keys of a proxy session and the URL of its remote end:
-- crates/ssh-proxy-daemon/src/session_spec.rs, on the octets of a text.
pub mod Sanitized
use ssh_proxy.Base.{
  ℕ, Bool, true, false, ◌&&◌, ◌||◌, List, [], ◌∷◌, ◌++◌, Option, none, some, leb, ◌==◌,
  if◌then◌else◌, take,
}
use ssh_proxy.Wire.Bytes.{Bytes, ascii}
use ssh_proxy.Http.Text.{chars, lower, before, onward, rsplit_once, strip_prefix}
use ssh_proxy.Http.Text.Numbers.{show_uint}

abbrev pub is_key_octet : ℕ → Bool
is_key_octet b =
    (leb b'0' b && leb b b'9')
    || (leb b'a' b && leb b b'z')
    || (leb b'A' b && leb b b'Z')
    || (b == b'-')
    || (b == b'_')

-- What becomes of one character.
abbrev pub key_octet : Bytes → ℕ
key_octet (b ∷ []) = if is_key_octet b then lower b else b'-'
key_octet _ = b'-'

unfoldable pub normalized : List Bytes → Bytes
normalized [] = []
normalized (c ∷ cs) = key_octet c ∷ normalized cs

unfoldable pub trim_front : Bytes → Bytes
trim_front [] = []
trim_front (b ∷ s) = let rest = trim_front s in if b == b'-' then rest else b ∷ s

abbrev pub drop_dash : ℕ → Bytes → Bytes
drop_dash b [] = if b == b'-' then [] else b ∷ []
drop_dash b (c ∷ s) = b ∷ c ∷ s

unfoldable pub trim_back : Bytes → Bytes
trim_back [] = []
trim_back (b ∷ s) = drop_dash b (trim_back s)

abbrev pub or_default : Bytes → Bytes
or_default [] = ascii "default"
or_default (b ∷ s) = b ∷ s

-- `trim_matches('-')`, and 64 characters at most.
unfoldable pub sanitize_key : Bytes → Bytes
unfolding chars normalized trim_front trim_back
sanitize_key key = or_default (take 64 (trim_back (trim_front (normalized (chars key)))))

abbrev pub route_id_for_key : Bytes → Bytes
route_id_for_key key = ascii "v3-" ++ sanitize_key key

abbrev pub job_id_for_key : Bytes → Bytes
job_id_for_key key = ascii "proxy:" ++ sanitize_key key

abbrev pub session_id_for_key : Bytes → Bytes
session_id_for_key key = ascii "session:" ++ sanitize_key key

-- `split_once` for a text.
abbrev pub add_front : ℕ → Option (Bytes × Bytes) → Option (Bytes × Bytes)
add_front b none = none
add_front b (some (x, y)) = some (b ∷ x, y)

abbrev here_or : Option Bytes → Option (Bytes × Bytes) → Option (Bytes × Bytes)
here_or (some rest) later = some ([], rest)
here_or none later = later

unfoldable pub split_once_text : Bytes → Bytes → Option (Bytes × Bytes)
unfolding strip_prefix
split_once_text p [] = here_or (strip_prefix p []) none
split_once_text p (b ∷ s) = here_or (strip_prefix p (b ∷ s)) (add_front b (split_once_text p s))

abbrev is_slash : ℕ → Bool
is_slash b = b == b'/'

abbrev user_of : Option (Bytes × Bytes) → Bytes
user_of none = []
user_of (some (user, host)) = user ++ b'@' ∷ []

abbrev url_at : Bytes → Bytes → ℕ → Bytes → Bytes
url_at rest bind port user = user ++ (bind ++ (b':' ∷ show_uint port ++ onward is_slash rest))

unfoldable pub proxy_url_for_remote : Bytes → Bytes → ℕ → Bytes
unfolding split_once_text before onward rsplit_once show_uint
proxy_url_for_remote local_proxy remote_bind remote_port =
    elim (split_once_text (ascii "://") local_proxy) [
      | none ↦ ascii "http://" ++ (remote_bind ++ b':' ∷ show_uint remote_port)
      | some (scheme, rest) ↦
          scheme
          ++ (ascii "://"
              ++ url_at rest remote_bind remote_port
                  (user_of (rsplit_once b'@' (before is_slash rest))))
    ]
