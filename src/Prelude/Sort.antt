-- ===== src/Prelude/Sort.antt =====
-- `slice::sort_by` with `cmp` on a text that each item carries: stable, written as an insertion
-- sort.
use mathlib.Core.List.{List, [], ◌∷◌, ◌++◌, Perm, perm_middle, append-nil}
use mathlib.Core.List.Perm
use Prim.Native.Nat.{ℕ, Ordering, compare as compare_ℕ}
use Prim.Native.Char.{code}
use Prim.Native.String.{String, compare, then as then_by}
use Prim.Native.String.compare
use mathlib.Core.Path.{◌≡◌, sym, ◌∙◌, ap, ap₂, subst}
use mathlib.Core.Bool.{Bool, true, false}
use native.Mathlib.Omega.{arith}
use text.Mathlib.Text.{is_le}
use joycast.Prelude.Tests.{if◌then◌else◌, Bool-cases}
use mathlib.Core.Logic.{inl, inr}

-- `a <= b` on texts
abbrev pub text_le : String → String → Bool
text_le a b = is_le (compare a b)

flip : Ordering → Ordering
flip Ordering.lt = Ordering.gt
flip Ordering.eq = Ordering.eq
flip Ordering.gt = Ordering.lt

flip-then_by : (o p : Ordering) → flip (then_by o p) ≡ then_by (flip o) (flip p)
unfolding flip
flip-then_by o p = ground arith

compare_ℕ-flip : (a b : ℕ) → compare_ℕ b a ≡ flip (compare_ℕ a b)
unfolding flip
compare_ℕ-flip a b = ground arith

compare-flip : (s t : String) → compare t s ≡ flip (compare s t)
unfolding flip
compare-flip String.[] String.[] = compare.nil-nil ∙ sym (ap flip compare.nil-nil)
compare-flip String.[] (String.◌∷◌ d t) =
    compare.cons-nil d t ∙ sym (ap flip (compare.nil-cons d t))
compare-flip (String.◌∷◌ c s) String.[] =
    compare.nil-cons c s ∙ sym (ap flip (compare.cons-nil c s))
compare-flip (String.◌∷◌ c s) (String.◌∷◌ d t) =
    compare.cons-cons d c t s
    ∙ ap₂ then_by (compare_ℕ-flip (code c) (code d)) (compare-flip s t)
    ∙ sym (flip-then_by (compare_ℕ (code c) (code d)) (compare s t))
    ∙ sym (ap flip (compare.cons-cons c d s t))

le_of_flip : (o p : Ordering) → p ≡ flip o → is_le o ≡ false → is_le p ≡ true
unfolding flip
le_of_flip o p e h = ground arith

pub text_le_total : (s t : String) → text_le s t ≡ false → text_le t s ≡ true
text_le_total s t = le_of_flip (compare s t) (compare t s) (compare-flip s t)

module _ {A : Type 0} (key : A → String) where
  unfoldable pub insert_sorted : A → List A → List A
  insert_sorted x [] = x ∷ []
  insert_sorted x (y ∷ ys) = if text_le (key y) (key x) then y ∷ insert_sorted x ys else x ∷ y ∷ ys

  -- The items from the left, each behind those that are not greater.
  unfoldable pub insert_each : List A → List A → List A
  unfolding insert_sorted
  insert_each [] done = done
  insert_each (x ∷ xs) done = insert_each xs (insert_sorted x done)

  unfoldable pub sort_by : List A → List A
  unfolding insert_each
  sort_by xs = insert_each xs []

  abbrev pub AtLeast : String → List A → Type 0
  AtLeast k [] = Unit
  AtLeast k (x ∷ xs) = (text_le k (key x) ≡ true) × AtLeast k xs

  -- Each neighbour is at most the next.
  abbrev pub IsSorted : List A → Type 0
  IsSorted [] = Unit
  IsSorted (x ∷ []) = Unit
  IsSorted (x ∷ y ∷ ys) = (text_le (key x) (key y) ≡ true) × IsSorted (y ∷ ys)

  insert_sorted-perm : (x : A) (ys : List A) → Perm (insert_sorted x ys) (x ∷ ys)
  unfolding insert_sorted
  insert_sorted-perm x [] = Perm.refl (x ∷ [])
  insert_sorted-perm x (y ∷ ys) = elim (Bool-cases (text_le (key y) (key x))) [
    | inl h ↦ rw h (Perm.trans (Perm.cons y (insert_sorted-perm x ys)) (Perm.swap x y ys))
    | inr h ↦ rw h (Perm.refl (x ∷ y ∷ ys))
  ]

  insert_each-perm : (xs done : List A) → Perm (insert_each xs done) (xs ++ done)
  unfolding insert_each
  insert_each-perm [] done = Perm.refl done
  insert_each-perm (x ∷ xs) done =
      Perm.trans (insert_each-perm xs (insert_sorted x done))
        (Perm.trans (Perm.append_left xs (insert_sorted-perm x done)) (perm_middle xs done))

  -- Sorting loses and invents no item.
  pub sort_by-perm : (xs : List A) → Perm (sort_by xs) xs
  unfolding sort_by
  sort_by-perm xs =
      subst (λ (ys : List A). Perm (insert_each xs []) ys) (append-nil xs) (insert_each-perm xs [])

  insert_sorted-IsSorted : (x : A) (ys : List A) → IsSorted ys → IsSorted (insert_sorted x ys)
  unfolding insert_sorted
  insert_sorted-IsSorted x [] h = tt
  insert_sorted-IsSorted x (y ∷ []) h = ground (arith, text_le_total (key y) (key x))
  insert_sorted-IsSorted x (y ∷ z ∷ zs) h =
      ground (arith, text_le_total (key y) (key x), insert_sorted-IsSorted x (z ∷ zs) h.1)

  insert_each-IsSorted : (xs done : List A) → IsSorted done → IsSorted (insert_each xs done)
  unfolding insert_each
  insert_each-IsSorted [] done h = h
  insert_each-IsSorted (x ∷ xs) done h =
      insert_each-IsSorted xs (insert_sorted x done) (insert_sorted-IsSorted x done h)

  pub sort_by-IsSorted : (xs : List A) → IsSorted (sort_by xs)
  unfolding sort_by
  sort_by-IsSorted xs = insert_each-IsSorted xs [] tt

-- every item passes the test
abbrev pub AllPass : {A : Type 0} → (A → Bool) → List A → Type 0
AllPass p [] = Unit
AllPass p (x ∷ xs) = (p x ≡ true) × AllPass p xs

module _ {A : Type 0} (key : A → String) (p : A → Bool) where
  insert_sorted-AllPass :
      (x : A) (ys : List A) → p x ≡ true → AllPass p ys → AllPass p (insert_sorted key x ys)
  unfolding insert_sorted
  insert_sorted-AllPass x [] h a = (h, tt)
  insert_sorted-AllPass x (y ∷ ys) h a = ground (arith, insert_sorted-AllPass x ys h a.1)

  insert_each-AllPass :
      (xs done : List A) → AllPass p xs → AllPass p done → AllPass p (insert_each key xs done)
  unfolding insert_each
  insert_each-AllPass [] done a b = b
  insert_each-AllPass (x ∷ xs) done a b =
      insert_each-AllPass xs (insert_sorted key x done) a.1 (insert_sorted-AllPass x done a.0 b)

  pub sort_by-AllPass : (xs : List A) → AllPass p xs → AllPass p (sort_by key xs)
  unfolding sort_by
  sort_by-AllPass xs a = insert_each-AllPass xs [] a tt
