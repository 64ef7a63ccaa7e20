-- ===== src/Daemon/Json.antt =====
-- The values of serde_json that are compared: of the arrays those of texts, of the numbers the natural ones.
-- `==` of two values is `==` field by field.
use ssh_proxy.Base.{ℕ, ◌≡◌, refl, ap, Bool, true, false, not, ◌&&◌, List, [], ◌∷◌, ◌==◌, arith}
use ssh_proxy.Wire.Bytes.{Bytes}
use ssh_proxy.Http.Text.{equal}

mutual
  pub data Json : Type 0 where
    null : Json
    flag : Bool → Json
    number : ℕ → Json
    text : Bytes → Json
    texts : List Bytes → Json
    object : Fields → Json

  pub data Fields : Type 0 where
    end : Fields
    field : Bytes → Json → Fields → Fields

abbrev pub same_flag : Bool → Bool → Bool
same_flag true b = b
same_flag false b = not b

unfoldable pub same_texts : List Bytes → List Bytes → Bool
unfolding equal
same_texts [] [] = true
same_texts (x ∷ xs) (y ∷ ys) = equal x y && same_texts xs ys
same_texts [] (y ∷ ys) = false
same_texts (x ∷ xs) [] = false

unfoldable mutual
  unfolding same_texts equal

  pub same_json : Json → Json → Bool
  same_json null null = true
  same_json (flag x) (flag y) = same_flag x y
  same_json (number x) (number y) = x == y
  same_json (text x) (text y) = equal x y
  same_json (texts x) (texts y) = same_texts x y
  same_json (object x) (object y) = same_fields x y
  same_json _ _ = false

  pub same_fields : Fields → Fields → Bool
  same_fields end end = true
  same_fields (field k x f) (field l y g) = equal k l && same_json x y && same_fields f g
  same_fields _ _ = false

pub both : (a b : Bool) → (a && b) ≡ true → (a ≡ true) × (b ≡ true)
both true b e = (refl, e)
both false b e = absurd (cc e)

pub equal_sound : (s t : Bytes) → equal s t ≡ true → s ≡ t
unfolding equal
equal_sound [] [] e = refl
equal_sound [] (d ∷ t) e = absurd (cc e)
equal_sound (c ∷ s) [] e = absurd (cc e)
equal_sound (c ∷ s) (d ∷ t) e =
    let (p, q) = both (c == d) (equal s t) e in
    let same : c ≡ d = ground (arith, p) in cc (same, equal_sound s t q)

same_flag_sound : (x y : Bool) → same_flag x y ≡ true → x ≡ y
same_flag_sound true true e = refl
same_flag_sound true false e = absurd (cc e)
same_flag_sound false true e = absurd (cc e)
same_flag_sound false false e = refl

same_texts_sound : (xs ys : List Bytes) → same_texts xs ys ≡ true → xs ≡ ys
unfolding same_texts
same_texts_sound [] [] e = refl
same_texts_sound [] (y ∷ ys) e = absurd (cc e)
same_texts_sound (x ∷ xs) [] e = absurd (cc e)
same_texts_sound (x ∷ xs) (y ∷ ys) e =
    let (p, q) = both (equal x y) (same_texts xs ys) e in
    cc (equal_sound x y p, same_texts_sound xs ys q)

mutual
  unfolding same_json

  pub same_json_sound : (x y : Json) → same_json x y ≡ true → x ≡ y
  same_json_sound null null e = refl
  same_json_sound (flag x) (flag y) e = ap flag (same_flag_sound x y e)
  same_json_sound (number x) (number y) e = let same : x ≡ y = ground (arith, e) in ap number same
  same_json_sound (text x) (text y) e = ap text (equal_sound x y e)
  same_json_sound (texts x) (texts y) e = ap texts (same_texts_sound x y e)
  same_json_sound (object x) (object y) e = ap object (same_fields_sound x y e)
  same_json_sound x y e = absurd (ground (arith, e))

  same_fields_sound : (x y : Fields) → same_fields x y ≡ true → x ≡ y
  same_fields_sound end end e = refl
  same_fields_sound (field k x f) (field l y g) e =
      let (p, q) = both (equal k l && same_json x y) (same_fields f g) e in
      let (p', q') = both (equal k l) (same_json x y) p in
      cc (equal_sound k l p', same_json_sound x y q', same_fields_sound f g q)
  same_fields_sound x y e = absurd (ground (arith, e))
