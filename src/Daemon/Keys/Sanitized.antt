-- ===== src/Daemon/Keys/Sanitized.antt =====
-- What a sanitized key is made of: crates/ssh-proxy-daemon/src/session_spec.rs.
use ssh_proxy.Base.{
  ℕ, ◌≤◌, ◌≡◌, ◌⊎◌, inl, inr, refl, Bool-cases, false, List, [], ◌∷◌, ◌==◌, All, All-take, take,
  length, length-take, arith,
}
use ssh_proxy.Wire.Bytes.{Bytes}
use ssh_proxy.Http.Text.{chars}
use ssh_proxy.Daemon.Keys.{
  key_octet, normalized, trim_front, drop_dash, trim_back, or_default, sanitize_key,
}

-- A digit, a small letter, a dash or an underscore.
abbrev pub IsKeyOctet : ℕ → Type 0
IsKeyOctet b = ((b'0' ≤ b) × (b ≤ b'9')) ⊎ (((b'a' ≤ b) × (b ≤ b'z')) ⊎ ((b ≡ b'-') ⊎ (b ≡ b'_')))

key_octet-IsKeyOctet : (c : Bytes) → IsKeyOctet (key_octet c)
key_octet-IsKeyOctet [] = ground arith
key_octet-IsKeyOctet (b ∷ []) = ground arith
key_octet-IsKeyOctet (b ∷ c ∷ cs) = ground arith

normalized-All : (cs : List Bytes) → All IsKeyOctet (normalized cs)
unfolding normalized
normalized-All [] = tt
normalized-All (c ∷ cs) = (key_octet-IsKeyOctet c, normalized-All cs)

trim_front-All : (s : Bytes) → All IsKeyOctet s → All IsKeyOctet (trim_front s)
unfolding trim_front
trim_front-All [] h = tt
trim_front-All (b ∷ s) h = elim (Bool-cases (b == b'-')) [
  | inl e ↦ rw e (trim_front-All s h.1)
  | inr e ↦ rw e h
]

abbrev pub StartsPlain : Bytes → Type 0
StartsPlain [] = Unit
StartsPlain (b ∷ s) = (b == b'-') ≡ false

trim_front-StartsPlain : (s : Bytes) → StartsPlain (trim_front s)
unfolding trim_front
trim_front-StartsPlain [] = tt
trim_front-StartsPlain (b ∷ s) = elim (Bool-cases (b == b'-')) [
  | inl e ↦ rw e (trim_front-StartsPlain s)
  | inr e ↦ rw e (ground (arith, e))
]

drop_dash-All :
    (b : ℕ) (s : Bytes) → IsKeyOctet b → All IsKeyOctet s → All IsKeyOctet (drop_dash b s)
drop_dash-All b [] h k = elim (Bool-cases (b == b'-')) [ inl e ↦ rw e tt | inr e ↦ rw e (h, tt) ]
drop_dash-All b (c ∷ s) h k = (h, k)

drop_dash-StartsPlain : (b : ℕ) (s : Bytes) → (b == b'-') ≡ false → StartsPlain (drop_dash b s)
drop_dash-StartsPlain b [] h = rw h (ground (arith, h))
drop_dash-StartsPlain b (c ∷ s) h = h

trim_back-All : (s : Bytes) → All IsKeyOctet s → All IsKeyOctet (trim_back s)
unfolding trim_back
trim_back-All [] h = tt
trim_back-All (b ∷ s) h = drop_dash-All b (trim_back s) h.0 (trim_back-All s h.1)

trim_back-StartsPlain : (s : Bytes) → StartsPlain s → StartsPlain (trim_back s)
unfolding trim_back
trim_back-StartsPlain [] h = tt
trim_back-StartsPlain (b ∷ s) h = drop_dash-StartsPlain b (trim_back s) h

take-StartsPlain : (s : Bytes) → StartsPlain s → StartsPlain (take 64 s)
take-StartsPlain [] h = tt
take-StartsPlain (b ∷ s) h = h

pub record IsSanitized (key : Bytes) : Type 0 where
  pub octets : All IsKeyOctet key
  pub starts : StartsPlain key
  pub long : 1 ≤ length key
  pub short : length key ≤ 64

or_default-IsSanitized :
    (s : Bytes) → All IsKeyOctet s → StartsPlain s → length s ≤ 64 → IsSanitized (or_default s)
or_default-IsSanitized [] h k l = record {
  octets = ground arith;
  starts = refl;
  long = omega arith;
  short = omega arith;
}
or_default-IsSanitized (b ∷ s) h k l = record {
  octets = h;
  starts = k;
  long = omega arith;
  short = l;
}

-- Whatever key a session is given, its ids end in digits, small letters, dashes and underscores: one at
-- least and 64 at most, of which the first is no dash.
pub sanitize_key-IsSanitized : (key : Bytes) → IsSanitized (sanitize_key key)
unfolding sanitize_key
sanitize_key-IsSanitized key =
    let n = normalized (chars key) in
    let s = trim_back (trim_front n) in
    or_default-IsSanitized (take 64 s)
      (All-take IsKeyOctet 64 s
        (trim_back-All (trim_front n) (trim_front-All n (normalized-All (chars key)))))
      (take-StartsPlain s (trim_back-StartsPlain (trim_front n) (trim_front-StartsPlain n)))
      (omega (arith, length-take 64 s))
