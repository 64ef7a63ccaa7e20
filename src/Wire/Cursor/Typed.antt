-- ===== src/Wire/Cursor/Typed.antt =====
-- What the reads of the cursor return, over a payload of octets.
use ssh_proxy.Base.{
  ℕ, ◌<◌, ◌≡◌, [], ◌∷◌, ok, ok_or, get_elem?, take, drop, All, All-take, All-drop, Bool-cases, inl,
  inr, >>=-eq-ok, arith,
}
use ssh_proxy.Wire.Bytes.{Bytes, IsByte, IsText, u16_mod, u32_mod, from_be, is_utf8}
use ssh_proxy.Wire.Cursor.{
  payload_truncated, Cursor, read_u8, read_u16, read_u32, read_bytes, read_string,
}

from_be-u16 : (xs : Bytes) → All IsByte xs → from_be 0 (take 2 xs) < u16_mod
unfolding from_be
from_be-u16 [] h = omega arith
from_be-u16 (a ∷ []) h = omega arith
from_be-u16 (a ∷ b ∷ xs) h = omega arith

from_be-u32 : (xs : Bytes) → All IsByte xs → from_be 0 (take 4 xs) < u32_mod
unfolding from_be
from_be-u32 [] h = omega arith
from_be-u32 (a ∷ []) h = omega arith
from_be-u32 (a ∷ b ∷ []) h = omega arith
from_be-u32 (a ∷ b ∷ c ∷ []) h = omega arith
from_be-u32 (a ∷ b ∷ c ∷ d ∷ xs) h = omega arith

pub read_bytes-eq-ok :
    (c : Cursor) (n : ℕ) (s : Bytes) (c' : Cursor)
    → read_bytes c n ≡ ok (s, c')
    → (s ≡ take n (drop c.pos c.bytes)) × (c'.bytes ≡ c.bytes)
unfolding read_bytes
read_bytes-eq-ok c n s c' e = ground arith

module _ (c c' : Cursor) (octets : All IsByte c.bytes) where
  pub read_u8_typed : (n : ℕ) → read_u8 c ≡ ok (n, c') → All IsByte c'.bytes
  unfolding read_u8
  read_u8_typed n e =
      let (v, _, e') = >>=-eq-ok (ok_or (get_elem? c.bytes c.pos) payload_truncated) _ e in
      let same : c'.bytes ≡ c.bytes = cc e' in rw same octets

  pub read_bytes_typed :
      (n : ℕ) (s : Bytes) → read_bytes c n ≡ ok (s, c') → All IsByte s × All IsByte c'.bytes
  read_bytes_typed n s e =
      let (q, same) = read_bytes-eq-ok c n s c' e in
      (rw q (All-take IsByte n _ (All-drop IsByte c.pos c.bytes octets)), rw same octets)

  pub read_u16_typed : (n : ℕ) → read_u16 c ≡ ok (n, c') → (n < u16_mod) × All IsByte c'.bytes
  unfolding read_u16
  read_u16_typed n e =
      let (v, e₁, e₂) = >>=-eq-ok (read_bytes c 2) _ e in
      let (q, same) = read_bytes-eq-ok c 2 v.0 v.1 e₁ in
      let value : n ≡ from_be 0 v.0 = cc e₂ in
      let place : c'.bytes ≡ v.1.bytes = cc e₂ in
      (
        rw (value, q) (from_be-u16 (drop c.pos c.bytes) (All-drop IsByte c.pos c.bytes octets)),
        rw (place, same) octets,
      )

  pub read_u32_typed : (n : ℕ) → read_u32 c ≡ ok (n, c') → (n < u32_mod) × All IsByte c'.bytes
  unfolding read_u32
  read_u32_typed n e =
      let (v, e₁, e₂) = >>=-eq-ok (read_bytes c 4) _ e in
      let (q, same) = read_bytes-eq-ok c 4 v.0 v.1 e₁ in
      let value : n ≡ from_be 0 v.0 = cc e₂ in
      let place : c'.bytes ≡ v.1.bytes = cc e₂ in
      (
        rw (value, q) (from_be-u32 (drop c.pos c.bytes) (All-drop IsByte c.pos c.bytes octets)),
        rw (place, same) octets,
      )

module _ (c c' : Cursor) (octets : All IsByte c.bytes) where
  pub read_string_typed : (s : Bytes) → read_string c ≡ ok (s, c') → IsText s × All IsByte c'.bytes
  unfolding read_string
  read_string_typed s e =
      let (n, e₁, e₂) = >>=-eq-ok (read_u16 c) _ e in
      let (_, octets₁) = read_u16_typed c n.1 octets n.0 e₁ in
      let (v, e₃, e₄) = >>=-eq-ok (read_bytes n.1 n.0) _ e₂ in
      let (bs, octets₂) = read_bytes_typed n.1 v.1 octets₁ n.0 v.0 e₃ in
      elim (Bool-cases (is_utf8 v.0)) [
        | inl good ↦
            let e₅ = rw good at e₄ in
            let value : s ≡ v.0 = cc e₅ in
            let place : c'.bytes ≡ v.1.bytes = cc e₅ in
            ((rw value bs, rw value good), rw place octets₂)
        | inr bad ↦ cc (rw bad at e₄)
      ]
