-- ===== src/Wire/Cursor/Reads.antt =====
-- What each read of the cursor takes, when the payload goes on as the writer wrote it.
use ssh_proxy.Base.{
  ℕ, zero, suc, ◌+◌, ◌<◌, ◌≡◌, refl, ap, ◌∙◌, true, false, [], ◌∷◌, ◌++◌, some, ok, arith, lt→ltb,
  le→leb, length, length-append, get_elem?, drop, take-append_self, drop-append_self, drop-add,
}
use ssh_proxy.Wire.Bytes.{
  Bytes, u16_mod, u32_mod, usize_mod, u16_be, u32_be, from_be-u16_be, from_be-u32_be, IsText,
}
use ssh_proxy.Wire.Cursor.{
  Cursor, new, read_u8, read_u16, read_u32, read_bytes, read_string, is_empty, ensure_empty,
}

pub record Sees (c : Cursor) (rest : Bytes) : Type 0 where
  pub ahead : drop c.pos c.bytes ≡ rest
  pub within : c.pos + length rest ≡ length c.bytes
  pub bounded : length c.bytes < usize_mod

abbrev pub advance : Cursor → ℕ → Cursor
advance c n = record c { pos = c.pos + n }

pub new-Sees : (bytes : Bytes) → length bytes < usize_mod → Sees (new bytes) bytes
unfolding new
new-Sees bytes h = record { ahead = refl; within = omega arith; bounded = h }

pub advance-Sees :
    (c : Cursor) (s rest : Bytes) → Sees c (s ++ rest) → Sees (advance c (length s)) rest
advance-Sees c s rest h = record {
  ahead =
      drop-add c.pos (length s) c.bytes ∙ ap (drop (length s)) h.ahead ∙ drop-append_self s rest;
  within = omega (arith, h.within, length-append s rest);
  bounded = h.bounded;
}

pub read_bytes-Sees :
    (c : Cursor) (s rest : Bytes)
    → Sees c (s ++ rest)
    → read_bytes c (length s) ≡ ok (s, advance c (length s))
unfolding read_bytes
read_bytes-Sees c s rest h =
    rw
      (lt→ltb (c.pos + length s) usize_mod
        (omega (arith, h.within, h.bounded, length-append s rest)))
      (rw
        (le→leb (c.pos + length s) (length c.bytes) (omega (arith, h.within, length-append s rest)))
        (rw (h.ahead, take-append_self s rest) refl))

pub read_u8-Sees :
    (c : Cursor) (b : ℕ) (rest : Bytes) → Sees c (b ∷ rest) → read_u8 c ≡ ok (b, advance c 1)
unfolding read_u8
read_u8-Sees c b rest h = rw (get_elem?-drop c.pos c.bytes h.ahead)
  where
    get_elem?-drop : (p : ℕ) (xs : Bytes) → drop p xs ≡ b ∷ rest → get_elem? xs p ≡ some b
    get_elem?-drop zero [] e = cc
    get_elem?-drop zero (x ∷ xs) e = cc
    get_elem?-drop (suc p) [] e = cc
    get_elem?-drop (suc p) (x ∷ xs) e = get_elem?-drop p xs e

pub read_u16-Sees :
    (c : Cursor) (n : ℕ) (rest : Bytes)
    → n < u16_mod
    → Sees c (u16_be n ++ rest)
    → read_u16 c ≡ ok (n, advance c 2)
unfolding read_u16
read_u16-Sees c n rest b h =
    rw (read_bytes-Sees c (u16_be n) rest h) (ap (λ v. ok (v, advance c 2)) (from_be-u16_be n b))

pub read_u32-Sees :
    (c : Cursor) (n : ℕ) (rest : Bytes)
    → n < u32_mod
    → Sees c (u32_be n ++ rest)
    → read_u32 c ≡ ok (n, advance c 4)
unfolding read_u32
read_u32-Sees c n rest b h =
    rw (read_bytes-Sees c (u32_be n) rest h) (ap (λ v. ok (v, advance c 4)) (from_be-u32_be n b))

pub read_string-Sees :
    (c : Cursor) (s rest : Bytes)
    → length s < u16_mod
    → IsText s
    → Sees c (u16_be (length s) ++ (s ++ rest))
    → read_string c ≡ ok (s, advance (advance c 2) (length s))
unfolding read_string
read_string-Sees c s rest b t h =
    let h' = advance-Sees c (u16_be (length s)) (s ++ rest) h in
    rw (read_u16-Sees c (length s) (s ++ rest) b h)
      (rw (read_bytes-Sees (advance c 2) s rest h') (rw t.1))

pub is_empty-Sees : (c : Cursor) → Sees c [] → is_empty c ≡ true
unfolding is_empty
is_empty-Sees c h = ground (arith, h.within)

pub is_empty-Sees_cons :
    (c : Cursor) (b : ℕ) (rest : Bytes) → Sees c (b ∷ rest) → is_empty c ≡ false
unfolding is_empty
is_empty-Sees_cons c b rest h = ground (arith, h.within)

pub ensure_empty-Sees : (c : Cursor) → Sees c [] → ensure_empty c ≡ ok tt
unfolding ensure_empty
ensure_empty-Sees c h = rw (is_empty-Sees c h)

-- Where the cursor stands behind a text.
pub read_string-advance :
    (c : Cursor) (s rest : Bytes)
    → Sees c (u16_be (length s) ++ (s ++ rest))
    → Sees (advance (advance c 2) (length s)) rest
read_string-advance c s rest h =
    advance-Sees (advance c 2) s rest (advance-Sees c (u16_be (length s)) (s ++ rest) h)
