-- ===== src/Base/Table.antt =====
-- A hash map from numbers, as an association list.
use ssh_proxy.Base.Tests.{◌==◌, if◌then◌else◌}
use Prim.Native.Nat.{ℕ, ◌+◌, ◌≤◌, ◌<◌}
use mathlib.Core.Path.{◌≡◌}
use mathlib.Core.Option.{Option, none, some}
use mathlib.Core.List.{List, [], ◌∷◌}
use native.Mathlib.Omega.{arith}

abbrev pub Table {ℓ} : Type ℓ → Type ℓ
Table V = List (ℕ × V)

module _ {ℓ} {V : Type ℓ} where
  unfoldable pub lookup : ℕ → Table V → Option V
  lookup k [] = none
  lookup k ((j, v) ∷ m) = if j == k then some v else lookup k m

  unfoldable pub remove : ℕ → Table V → Table V
  remove k [] = []
  remove k ((j, v) ∷ m) = let rest = remove k m in if j == k then rest else (j, v) ∷ rest

  -- An entry that was there is replaced.
  unfoldable pub insert : ℕ → V → Table V → Table V
  unfolding remove
  insert k v m = (k, v) ∷ remove k m

  pub lookup-remove :
      (k j : ℕ) (m : Table V) → lookup j (remove k m) ≡ (if k == j then none else lookup j m)
  unfolding lookup remove
  lookup-remove k j [] = ground arith
  lookup-remove k j ((i, v) ∷ m) = ground (arith, lookup-remove k j m)

  pub lookup-insert :
      (k j : ℕ) (v : V) (m : Table V)
      → lookup j (insert k v m) ≡ (if k == j then some v else lookup j m)
  unfolding lookup insert
  lookup-insert k j v m = ground (arith, lookup-remove k j m)

-- Handles: how many entries of a table hold a value.
unfoldable pub uses : ℕ → Table ℕ → ℕ
uses h [] = 0
uses h ((j, v) ∷ m) = (if v == h then 1 else 0) + uses h m

abbrev pub IsFresh : ℕ → Table ℕ → Type 0
IsFresh n m = (h : ℕ) → n ≤ h → uses h m ≡ 0

abbrev pub IsApart : Table ℕ → Type 0
IsApart m = (h : ℕ) → uses h m ≤ 1

pub uses-remove_le : (k h : ℕ) (m : Table ℕ) → uses h (remove k m) ≤ uses h m
unfolding uses remove
uses-remove_le k h [] = omega arith
uses-remove_le k h ((j, v) ∷ m) = ground (arith, uses-remove_le k h m)

-- The entry that is found is among those counted, and a removal gives its value back.
pub uses-remove_found :
    (k h : ℕ) (m : Table ℕ) → lookup k m ≡ some h → uses h (remove k m) + 1 ≤ uses h m
unfolding uses remove lookup
uses-remove_found k h [] e = cc
uses-remove_found k h ((j, v) ∷ m) e = ground (arith, uses-remove_found k h m, uses-remove_le k h m)

pub uses-insert_le :
    (k v h : ℕ) (m : Table ℕ) → uses h (insert k v m) ≤ (if v == h then 1 else 0) + uses h m
unfolding uses insert
uses-insert_le k v h m = ground (arith, uses-remove_le k h m)

-- A table of handles that were drawn from a counter: no handle stands twice.
pub record IsDrawn (n : ℕ) (m : Table ℕ) : Type 0 where
  pub apart : IsApart m
  pub fresh : IsFresh n m

pub IsDrawn-nil : (n : ℕ) → IsDrawn n []
unfolding uses
IsDrawn-nil n = record { apart = λ h. omega arith; fresh = λ h le. omega arith }

pub IsDrawn-remove : (k n : ℕ) (m : Table ℕ) → IsDrawn n m → IsDrawn n (remove k m)
IsDrawn-remove k n m d = record {
  apart = λ h. omega (arith, uses-remove_le k h m, d.apart h);
  fresh = λ h le. omega (arith, uses-remove_le k h m, d.fresh h le);
}

pub IsDrawn-mono : (n n' : ℕ) (m : Table ℕ) → n ≤ n' → IsDrawn n m → IsDrawn n' m
IsDrawn-mono n n' m le d = record { apart = d.apart; fresh = λ h le'. d.fresh h (omega arith) }

-- A new handle is not among the others.
pub IsDrawn-insert : (k n n' : ℕ) (m : Table ℕ) → n < n' → IsDrawn n m → IsDrawn n' (insert k n m)
IsDrawn-insert k n n' m lt d = record {
  apart = λ h. ground (arith, uses-insert_le k n h m, d.fresh h, d.apart h);
  fresh = λ h le. ground (arith, uses-insert_le k n h m, d.fresh h);
}

-- A value that one entry holds is found under no other key.
pub lookup_of_apart :
    (i j h : ℕ) (m : Table ℕ) → uses h m ≤ 1 → lookup i m ≡ some h → lookup j m ≡ some h → i ≡ j
lookup_of_apart i j h m a e e' =
    ground
      (arith, uses-remove_found i h m e, uses-remove_found j h (remove i m), lookup-remove i j m)

-- A table that has lost one key and kept all else.
abbrev pub IsCut {ℓ} : {V : Type ℓ} → ℕ → Table V → Table V → Type ℓ
IsCut k m m' = (j : ℕ) → lookup j m' ≡ (if k == j then none else lookup j m)

module _ {ℓ} {V : Type ℓ} where
  pub remove-IsCut : (k : ℕ) (m : Table V) → IsCut k m (remove k m)
  remove-IsCut k m j = lookup-remove k j m

  pub remove-insert-IsCut : (k : ℕ) (v : V) (m : Table V) → IsCut k m (remove k (insert k v m))
  remove-insert-IsCut k v m j =
      ground (arith, lookup-remove k j (insert k v m), lookup-insert k j v m)

  pub IsCut-of_none : (k : ℕ) (m : Table V) → lookup k m ≡ none → IsCut k m m
  IsCut-of_none k m e j = ground (arith, e)
