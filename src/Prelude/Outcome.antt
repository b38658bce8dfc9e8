-- ===== src/Prelude/Outcome.antt =====
-- `anyhow::Result`: an error is the text of its outermost message, which is what `Display` prints.
use Prim.Native.String.{String}
use mathlib.Core.Path.{◌≡◌, refl}
use mathlib.Core.Logic.{◌⊎◌, inl, inr}

pub data Result {κ} (T : Type κ) : Type κ where
  ok : (value : T) → Result T
  err : (message : String) → Result T

-- the operator `?`: the rest of a body runs on the value, or not at all
infixl 5 ◌>>=◌ ◌>>◌
abbrev pub ◌>>=◌ {κ μ} : {T : Type κ} {U : Type μ} → Result T → (T → Result U) → Result U
err message >>= rest = err message
ok value >>= rest = rest value

-- the same for a statement that returns nothing
abbrev pub ◌>>◌ {μ} : {U : Type μ} (first : Result (Unit {0})) (rest : Result U) → Result U
first >> rest = first >>= λ done. rest

-- `.context(message)` and `.with_context(|| message)`
abbrev pub with_context {ℓ} : {A : Type ℓ} → Result A → String → Result A
with_context (ok a) message = ok a
with_context (err e) message = err message

pub Result-cases {ℓ} :
    {A : Type ℓ} (r : Result A) → ((a : A) × (r ≡ ok a)) ⊎ ((e : String) × (r ≡ err e))
Result-cases (ok a) = inl (a, refl)
Result-cases (err e) = inr (e, refl)

-- A third-party serialiser: what it writes, it reads back.
pub record Codec (A B : Type 0) : Type 0 where
  pub encode : A → Result B
  pub decode : B → Result A
  pub decode-encode : (a : A) (b : B) → encode a ≡ ok b → decode b ≡ ok a

-- A chain that succeeds has steps that succeed.
pub >>=-eq-ok {κ μ} :
    {T : Type κ} {U : Type μ} (first : Result T) (rest : T → Result U) {u : U}
    → (first >>= rest) ≡ ok u
    → (t : T) × (first ≡ ok t) × (rest t ≡ ok u)
>>=-eq-ok (err message) rest done = cc
>>=-eq-ok (ok value) rest done = (value, refl, done)
