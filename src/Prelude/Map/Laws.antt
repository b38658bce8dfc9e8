-- ===== src/Prelude/Map/Laws.antt =====
-- The laws of the association lists of Prelude/Map.antt.
use mathlib.Core.Path.{◌≡◌, refl}
use mathlib.Core.Bool.{Bool, true, false}
use mathlib.Core.Option.{Option, none, some}
use mathlib.Core.List.{[], ◌∷◌}
use native.Mathlib.Omega.{arith}
use joycast.Prelude.Tests.{if◌then◌else◌}
use joycast.Prelude.Map.{
  Eq, ◌==◌, eq_self, Map, get, contains_key, remove, insert, modify, retain_entries,
}

-- `Option::filter`
abbrev pub keep : {V : Type 0} → (V → Bool) → Option V → Option V
keep p none = none
keep p (some v) = if p v then some v else none

module _ {K : Type 0} ⦃e : Eq K⦄ {V : Type 0} where
  pub get-remove : (m : Map K V) (k j : K) → get (remove m k) j ≡ (if k == j then none else get m j)
  unfolding get remove
  get-remove [] k j = ground arith
  get-remove ((i, v) ∷ m) k j =
      ground (arith, get-remove m k j, e.beq_iff i k, e.beq_iff i j, e.beq_iff k j)

  pub get-insert :
      (m : Map K V) (k j : K) (v : V) → get (insert m k v) j ≡ (if k == j then some v else get m j)
  unfolding get insert
  get-insert m k j v = ground (arith, get-remove m k j)

  pub get-modify :
      (m : Map K V) (k j : K) (f : V → V)
      → get (modify m k f) j
        ≡ (if k == j then elim (get m j) [ none ↦ none | some v ↦ some (f v) ] else get m j)
  unfolding get modify
  get-modify [] k j f = ground arith
  get-modify ((i, v) ∷ m) k j f =
      ground (arith, get-modify m k j f, e.beq_iff i k, e.beq_iff i j, e.beq_iff k j)

  pub contains_key-remove :
      (m : Map K V) (k j : K)
      → contains_key (remove m k) j ≡ (if k == j then false else contains_key m j)
  unfolding contains_key
  contains_key-remove m k j = ground (arith, get-remove m k j)

  pub contains_key-insert :
      (m : Map K V) (k j : K) (v : V)
      → contains_key (insert m k v) j ≡ (if k == j then true else contains_key m j)
  unfolding contains_key
  contains_key-insert m k j v = ground (arith, get-insert m k j v)

  pub contains_key-modify :
      (m : Map K V) (k j : K) (f : V → V) → contains_key (modify m k f) j ≡ contains_key m j
  unfolding contains_key
  contains_key-modify m k j f = ground (arith, get-modify m k j f)

  -- No key stands twice.
  abbrev pub Distinct : Map K V → Type 0
  Distinct [] = Unit
  Distinct ((k, v) ∷ m) = (contains_key m k ≡ false) × Distinct m

  pub remove-Distinct : (m : Map K V) (k : K) → Distinct m → Distinct (remove m k)
  unfolding remove
  remove-Distinct [] k d = tt
  remove-Distinct ((j, v) ∷ m) k d =
      ground (arith, remove-Distinct m k d.1, contains_key-remove m k j)

  pub insert-Distinct : (m : Map K V) (k : K) (v : V) → Distinct m → Distinct (insert m k v)
  unfolding insert
  insert-Distinct m k v d =
      (ground (arith, contains_key-remove m k k, eq_self k), remove-Distinct m k d)

  pub modify-Distinct : (m : Map K V) (k : K) (f : V → V) → Distinct m → Distinct (modify m k f)
  unfolding modify
  modify-Distinct [] k f d = tt
  modify-Distinct ((j, v) ∷ m) k f d =
      ground (arith, modify-Distinct m k f d.1, contains_key-modify m k j f)

  pub contains_key-retain_entries :
      (p : V → Bool) (m : Map K V) (k : K)
      → contains_key m k ≡ false
      → contains_key (retain_entries p m) k ≡ false
  unfolding contains_key get retain_entries
  contains_key-retain_entries p [] k h = refl
  contains_key-retain_entries p ((j, v) ∷ m) k h = ground (arith, contains_key-retain_entries p m k)

  pub retain_entries-Distinct :
      (p : V → Bool) (m : Map K V) → Distinct m → Distinct (retain_entries p m)
  unfolding retain_entries
  retain_entries-Distinct p [] d = tt
  retain_entries-Distinct p ((j, v) ∷ m) d =
      ground (arith, retain_entries-Distinct p m d.1, contains_key-retain_entries p m j)

  pub get-retain_entries :
      (p : V → Bool) (m : Map K V) (k : K)
      → Distinct m
      → get (retain_entries p m) k ≡ keep p (get m k)
  unfolding get retain_entries contains_key
  get-retain_entries p [] k d = refl
  get-retain_entries p ((j, v) ∷ m) k d =
      ground (arith, get-retain_entries p m k d.1, e.beq_iff j k)
