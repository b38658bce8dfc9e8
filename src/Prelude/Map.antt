-- ===== src/Prelude/Map.antt =====
-- `std::collections::HashMap` as an association list. The order of the list has no meaning: where
-- the source iterates, the order is a parameter, `Order`.
pub mod Laws
pub mod Search
pub mod Values
use Prim.Native.Nat.{ℕ, ◌+◌}
use Prim.Native.String.{String}
use mathlib.Core.Path.{◌≡◌, refl}
use mathlib.Core.Logic.{◌↔◌}
use mathlib.Core.Bool.{Bool, true, false}
use mathlib.Core.Option.{Option, none, some}
use mathlib.Core.List.{List, [], ◌∷◌, map, filter_map, Perm}
use text.Mathlib.Text.{◌==◌ as str_eq}
use text.Mathlib.TextEquality.{eq_iff}
use joycast.Prelude.Tests.{if◌then◌else◌}
use joycast.Prelude.Lists.{find}

pub record Eq (K : Type 0) : Type 0 where
  pub beq : K → K → Bool
  pub beq_iff : (a b : K) → (beq a b ≡ true) ↔ (a ≡ b)

infix 50 ◌==◌
abbrev pub ◌==◌ : {K : Type 0} ⦃e : Eq K⦄ → K → K → Bool
◌==◌ ⦃e⦄ = e.beq

instance abbrev pub string_eq : Eq String
string_eq = record { beq = str_eq; beq_iff = eq_iff }

pub eq_self : {K : Type 0} ⦃e : Eq K⦄ (k : K) → (k == k) ≡ true
eq_self ⦃e⦄ k = (e.beq_iff k k).1 refl

abbrev pub Map : Type 0 → Type 0 → Type 0
Map K V = List (K × V)

abbrev pub is_some {ℓ} : {V : Type ℓ} → Option V → Bool
is_some none = false
is_some (some v) = true

module _ {K : Type 0} ⦃e : Eq K⦄ {V : Type 0} where
  unfoldable pub get : Map K V → K → Option V
  get [] k = none
  get ((j, v) ∷ m) k = if j == k then some v else get m k

  unfoldable pub contains_key : Map K V → K → Bool
  contains_key m k = is_some (get m k)

  unfoldable pub remove : Map K V → K → Map K V
  remove [] k = []
  remove ((j, v) ∷ m) k = let rest = remove m k in if j == k then rest else (j, v) ∷ rest

  unfoldable pub insert : Map K V → K → V → Map K V
  insert m k v = (k, v) ∷ remove m k

  -- `if let Some(v) = m.get_mut(&k) { *v = f(v) }`
  unfoldable pub modify : Map K V → K → (V → V) → Map K V
  modify [] k f = []
  modify ((j, v) ∷ m) k f = if j == k then (j, f v) ∷ m else (j, v) ∷ modify m k f

  -- `retain` on keys and values
  unfoldable pub retain_entries : (V → Bool) → Map K V → Map K V
  retain_entries p [] = []
  retain_entries p ((j, v) ∷ m) =
      let rest = retain_entries p m in if p v then (j, v) ∷ rest else rest

  -- `values().filter(p).count()`
  unfoldable pub count_values : (V → Bool) → Map K V → ℕ
  count_values p [] = 0
  count_values p ((j, v) ∷ m) = (if p v then 1 else 0) + count_values p m

abbrev pub keys : {K V : Type 0} → Map K V → List K
keys = map λ entry. entry.0

-- The order in which a map hands out its keys: any, but each key once.
pub record Order : Type 0 where
  pub arrange : List String → List String
  pub arrange_perm : (ks : List String) → Perm (arrange ks) ks

-- `keys().find(p)`
unfoldable pub find_key : {V : Type 0} → Order → (String → Bool) → Map String V → Option String
find_key order p m = find p (order.arrange (keys m))

-- `values().collect()`, in the order of the keys
unfoldable pub values : {V : Type 0} → Order → Map String V → List V
values order m = filter_map (get m) (order.arrange (keys m))
