-- ===== src/Prelude/Lists.antt =====
-- Lists measured by the native numbers, and the list operations of Rust's iterators that the
-- source uses. No part of the source is modelled here.
use Prim.Native.Nat.{ℕ, zero, suc, ◌+◌, ◌≤◌}
use mathlib.Core.Path.{◌≡◌}
use mathlib.Core.Bool.{Bool, true, false}
use mathlib.Core.List.{List, [], ◌∷◌, ◌++◌}
use mathlib.Core.Option.{Option, none, some}
use native.Mathlib.Omega.{arith}
use joycast.Prelude.Tests.{if◌then◌else◌}

module _ {ℓ} {A : Type ℓ} where
  abbrev pub length : List A → ℕ
  length [] = 0
  length (x ∷ xs) = suc (length xs)

  abbrev pub get_elem? : List A → ℕ → Option A
  get_elem? [] i = none
  get_elem? (x ∷ xs) zero = some x
  get_elem? (x ∷ xs) (suc i) = get_elem? xs i

  abbrev pub is_empty : List A → Bool
  is_empty [] = true
  is_empty (x ∷ xs) = false

  pub length-append : (xs ys : List A) → length (xs ++ ys) ≡ length xs + length ys
  length-append [] ys = omega arith
  length-append (x ∷ xs) ys = omega (arith, length-append xs ys)

module _ {ℓ} {A : Type ℓ} (p : A → Bool) where
  -- `iter().find(p)`
  unfoldable pub find : List A → Option A
  find [] = none
  find (x ∷ xs) = if p x then some x else find xs

  -- `retain(p)` of a vector, `filter(p)` of an iterator
  unfoldable pub retain : List A → List A
  retain [] = []
  retain (x ∷ xs) = let rest = retain xs in if p x then x ∷ rest else rest

module _ {ℓ} {A : Type ℓ} (p : A → Bool) where
  pub find-holds : (xs : List A) (x : A) → find p xs ≡ some x → p x ≡ true
  unfolding find
  find-holds (y ∷ ys) x h = ground (arith, find-holds ys x)
  find-holds [] x h = ground arith

  pub length-retain-le : (xs : List A) → length (retain p xs) ≤ length xs
  unfolding retain
  length-retain-le [] = omega arith
  length-retain-le (x ∷ xs) = ground (arith, length-retain-le xs)
