-- ===== src/Prelude/Map/Search.antt =====
-- Searches through the keys of a map, in whatever order the map hands them out.
use mathlib.Core.List.{Mem, mem-cons, not-mem-nil}
use mathlib.Core.List.Perm
use mathlib.Core.Logic.Or
use Prim.Native.String.{String}
use mathlib.Core.Path.{◌≡◌, sym}
use mathlib.Core.Logic.{inl, inr}
use mathlib.Core.Bool.{Bool, true, false, false≢true}
use mathlib.Core.Option.{none, some}
use mathlib.Core.List.{List, [], ◌∷◌}
use native.Mathlib.Omega.{arith}
use text.Mathlib.TextEquality.{eq_iff}
use joycast.Prelude.Tests.{Bool-cases}
use joycast.Prelude.Lists.{find, find-holds}
use joycast.Prelude.Map.{◌==◌, string_eq, Map, get, contains_key, keys, Order, find_key}

Bool-set : IsSet Bool
Bool-set = hlevel

find-mem : (p : String → Bool) (xs : List String) (x : String) → find p xs ≡ some x → Mem x xs
unfolding find
find-mem p [] x h = cc
find-mem p (y ∷ ys) x h = elim (Bool-cases (p y)) [
  | inl hit ↦ mem-cons.1 (Or.inl (ground arith))
  | inr miss ↦ mem-cons.1 (Or.inr (find-mem p ys x (ground arith)))
]

find-misses :
    (p : String → Bool) (xs : List String) (x : String) → find p xs ≡ none → Mem x xs → p x ≡ false
unfolding find
find-misses p [] x h m = absurd (not-mem-nil m)
find-misses p (y ∷ ys) x h m =
    Or.elim (Bool-set (p x) false) (mem-cons.0 m) (λ e. ground arith)
      (λ t. find-misses p ys x (ground arith) t)

module _ {V : Type 0} where
  mem-keys : (m : Map String V) (k : String) → Mem k (keys m) → contains_key m k ≡ true
  unfolding contains_key get
  mem-keys [] k h = absurd (not-mem-nil h)
  mem-keys ((j, v) ∷ m) k h =
      Or.elim (Bool-set _ true) (mem-cons.0 h) (λ e. ground (arith, eq_iff j k))
        (λ t. ground (arith, mem-keys m k t))

  keys-mem : (m : Map String V) (k : String) → contains_key m k ≡ true → Mem k (keys m)
  unfolding contains_key get
  keys-mem [] k h = absurd (false≢true h)
  keys-mem ((j, v) ∷ m) k h = elim (Bool-cases (j == k)) [
    | inl hit ↦ mem-cons.1 (Or.inl (sym ((eq_iff j k).0 hit)))
    | inr miss ↦ mem-cons.1 (Or.inr (keys-mem m k (ground arith)))
  ]

  -- A key that the search finds passes the test and is in the map.
  pub find_key-holds :
      (order : Order) (p : String → Bool) (m : Map String V) (k : String)
      → find_key order p m ≡ some k
      → (p k ≡ true) × (contains_key m k ≡ true)
  unfolding find_key
  find_key-holds order p m k h = (
    find-holds p _ k h,
    mem-keys m k ((Perm.mem_iff (order.arrange_perm _)).0 (find-mem p _ k h)),
  )

  -- A search that finds nothing has tried every key of the map.
  pub find_key-misses :
      (order : Order) (p : String → Bool) (m : Map String V) (k : String)
      → find_key order p m ≡ none
      → contains_key m k ≡ true
      → p k ≡ false
  unfolding find_key
  find_key-misses order p m k h c =
      find-misses p _ k h ((Perm.mem_iff (order.arrange_perm _)).1 (keys-mem m k c))
