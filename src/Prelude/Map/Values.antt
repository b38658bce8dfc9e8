-- ===== src/Prelude/Map/Values.antt =====
-- The values of a map, in whatever order the map hands out its keys.
use mathlib.Core.List.{filter_map}
use mathlib.Core.List.{Perm}
use mathlib.Core.List.Perm
use Prim.Native.String.{String}
use mathlib.Core.Path.{◌≡◌, refl, subst}
use mathlib.Core.Bool.{false}
use mathlib.Core.Option.{some}
use mathlib.Core.List.{List, [], ◌∷◌, map}
use native.Mathlib.Omega.{arith}
use text.Mathlib.TextEquality.{eq_iff}
use text.Mathlib.TextPositions.{eq_refl}
use joycast.Prelude.Map.{string_eq, Map, get, contains_key, keys, Order, values}
use joycast.Prelude.Map.Laws.{Distinct}

abbrev pub entry_values : {K V : Type 0} → Map K V → List V
entry_values = map λ entry. entry.1

module _ {V : Type 0} where
  -- every key of the first map reads the same in the second
  abbrev Agree : Map String V → Map String V → Type 0
  Agree [] m = Unit
  Agree ((k, v) ∷ l) m = (get m k ≡ some v) × Agree l m

  filter_map-keys : (l m : Map String V) → Agree l m → filter_map (get m) (keys l) ≡ entry_values l
  unfolding filter_map
  filter_map-keys [] m a = refl
  filter_map-keys ((k, v) ∷ l) m a = ground (arith, filter_map-keys l m a.1)

  Agree-cons :
      (l m : Map String V) (k : String) (v : V)
      → contains_key l k ≡ false
      → Agree l m
      → Agree l ((k, v) ∷ m)
  unfolding get contains_key
  Agree-cons [] m k v c a = tt
  Agree-cons ((j, w) ∷ l) m k v c a =
      (ground (arith, eq_iff k j, eq_iff j k), Agree-cons l m k v (ground arith) a.1)

  Agree-self : (m : Map String V) → Distinct m → Agree m m
  unfolding get
  Agree-self [] d = tt
  Agree-self ((k, v) ∷ m) d = (ground (arith, eq_refl k), Agree-cons m m k v d.0 (Agree-self m d.1))

  -- Each value comes once, in some order.
  pub values-perm :
      (order : Order) (m : Map String V) → Distinct m → Perm (values order m) (entry_values m)
  unfolding values
  values-perm order m d =
      subst (λ (l : List V). Perm (filter_map (get m) (order.arrange (keys m))) l)
        (filter_map-keys m m (Agree-self m d))
        (Perm.filter_map (get m) (order.arrange_perm (keys m)))
