-- ===== src/Base/Outcome.antt =====
-- Rust's `Result<A, E>` and `Option<A>`: the `?` operator as bind, and the adaptors that are used.
use mathlib.Core.Bool.{Bool, true, false}
use mathlib.Core.Path.{◌≡◌, refl}
use mathlib.Core.Option.{Option, none, some}

pub data Result {ℓ κ} (E : Type ℓ) (A : Type κ) : Type (ℓ ⊔ κ) where
  err : E → Result E A
  ok : A → Result E A

module _ {ℓ κ} {E : Type ℓ} {B : Type κ} where
  infixl 5 ◌>>=◌ ◌>>◌
  -- `?`: an error returns at once.
  abbrev pub ◌>>=◌ {μ} : {A : Type μ} → Result E A → (A → Result E B) → Result E B
  err x >>= next = err x
  ok value >>= next = next value

  abbrev pub ◌>>◌ : Result E (Unit {0}) → Result E B → Result E B
  step >> next = step >>= λ _. next

  -- A bind that succeeds has a first step that does.
  pub >>=-eq-ok {μ} :
      {A : Type μ} (r : Result E A) (next : A → Result E B) {b : B}
      → (r >>= next) ≡ ok b
      → (a : A) × (r ≡ ok a) × (next a ≡ ok b)
  >>=-eq-ok (err x) next e = cc
  >>=-eq-ok (ok value) next e = (value, refl, e)

module _ {ℓ} {E : Type ℓ} where
  -- `if !b { bail!(x) }`.
  abbrev pub ensure : Bool → E → Result E (Unit {0})
  ensure b x = elim b [ false ↦ err x | true ↦ ok tt ]

  -- `ok_or_else`.
  abbrev pub ok_or {κ} : {A : Type κ} → Option A → E → Result E A
  ok_or (some a) x = ok a
  ok_or none x = err x

module _ {ℓ} {A : Type ℓ} where
  abbrev pub unwrap_or : Option A → A → A
  unwrap_or (some a) d = a
  unwrap_or none d = d

  -- `Option::or`.
  abbrev pub or_option : Option A → Option A → Option A
  or_option (some a) o = some a
  or_option none o = o

  abbrev pub is_some : Option A → Bool
  is_some (some a) = true
  is_some none = false
