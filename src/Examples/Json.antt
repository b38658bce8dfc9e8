-- ===== src/Examples/Json.antt =====
-- A serialiser of trust data that knows six values, each by a letter, and refuses the others.
use text.Mathlib.TextEquality.{eq_iff}
use joycast.Prelude.{
  String, ◌≡◌, refl, sym, ap, ◌∙◌, inl, inr, Bool-cases, Bool, true, false, ◌&&◌, [], ◌∷◌,
  if◌then◌else◌, arith,
}
use joycast.Prelude.Outcome.{Result, ok, err, Codec}
use joycast.Prelude.Map.{Map, string_eq, ◌==◌}
use joycast.Trust.{PendingClientInfo, ApprovedClientInfo, TrustData, no_trust}

abbrev pending_beq : PendingClientInfo → PendingClientInfo → Bool
pending_beq a b =
    a.client_id == b.client_id
    && a.hostname == b.hostname
    && a.device_name == b.device_name
    && a.transport == b.transport
    && a.first_seen == b.first_seen

abbrev approved_beq : ApprovedClientInfo → ApprovedClientInfo → Bool
approved_beq a b =
    a.client_id == b.client_id
    && a.hostname == b.hostname
    && a.device_name == b.device_name
    && a.approved_at == b.approved_at

pending_beq-eq : (a b : PendingClientInfo) → pending_beq a b ≡ true → a ≡ b
pending_beq-eq a b h = ground (
  arith,
  eq_iff a.client_id b.client_id,
  eq_iff a.hostname b.hostname,
  eq_iff a.device_name b.device_name,
  eq_iff a.transport b.transport,
  eq_iff a.first_seen b.first_seen,
)

approved_beq-eq : (a b : ApprovedClientInfo) → approved_beq a b ≡ true → a ≡ b
approved_beq-eq a b h = ground (
  arith,
  eq_iff a.client_id b.client_id,
  eq_iff a.hostname b.hostname,
  eq_iff a.device_name b.device_name,
  eq_iff a.approved_at b.approved_at,
)

module _ {V : Type 0} (beq : V → V → Bool) where
  abbrev map_beq : Map String V → Map String V → Bool
  map_beq [] [] = true
  map_beq ((j, v) ∷ m) ((k, w) ∷ n) = j == k && beq v w && map_beq m n
  map_beq _ _ = false

  map_beq-eq :
      ((v w : V) → beq v w ≡ true → v ≡ w) → (m n : Map String V) → map_beq m n ≡ true → m ≡ n
  map_beq-eq eq [] [] h = refl
  map_beq-eq eq [] (_ ∷ n) h = ground arith
  map_beq-eq eq (_ ∷ m) [] h = ground arith
  map_beq-eq eq ((j, v) ∷ m) ((k, w) ∷ n) h = ground (arith, eq_iff j k, eq v w, map_beq-eq eq m n)

abbrev trust_beq : TrustData → TrustData → Bool
trust_beq a b =
    map_beq approved_beq a.approved b.approved && map_beq pending_beq a.pending b.pending

trust_beq-eq : (a b : TrustData) → trust_beq a b ≡ true → a ≡ b
trust_beq-eq a b h = ground (
  arith,
  map_beq-eq approved_beq approved_beq-eq a.approved b.approved,
  map_beq-eq pending_beq pending_beq-eq a.pending b.pending,
)

abbrev pub deck : PendingClientInfo
deck = record {
  client_id = "c0ffee";
  hostname = "deck";
  device_name = "Pad";
  transport = "Direct UDP";
  first_seen = "2026-01-01";
}

abbrev pub deck_ok : ApprovedClientInfo
deck_ok = record {
  client_id = "c0ffee";
  hostname = "deck";
  device_name = "Pad";
  approved_at = "2026-01-02";
}

abbrev pub couch : PendingClientInfo
couch = record {
  client_id = "beef";
  hostname = "couch";
  device_name = "Stick";
  transport = "Iroh P2P";
  first_seen = "2026-01-03";
}

-- `deck` waits; `deck` is approved; `couch` waits too, beside each of these
abbrev pub waiting : TrustData
waiting = record { approved = []; pending = ("c0ffee", deck) ∷ [] }

abbrev pub approved_one : TrustData
approved_one = record { approved = ("c0ffee", deck_ok) ∷ []; pending = [] }

abbrev pub both_waiting : TrustData
both_waiting = record { approved = []; pending = ("beef", couch) ∷ ("c0ffee", deck) ∷ [] }

abbrev pub mixed : TrustData
mixed = record { approved = ("c0ffee", deck_ok) ∷ []; pending = ("beef", couch) ∷ [] }

abbrev pub couch_ok : ApprovedClientInfo
couch_ok = record {
  client_id = "beef";
  hostname = "couch";
  device_name = "Stick";
  approved_at = "2026-01-05";
}

abbrev pub both_approved : TrustData
both_approved = record { approved = ("beef", couch_ok) ∷ ("c0ffee", deck_ok) ∷ []; pending = [] }

unfoldable pub encode : TrustData → Result String
encode d =
    if trust_beq d no_trust
    then ok "n"
    else if trust_beq d waiting
    then ok "w"
    else if trust_beq d approved_one
    then ok "a"
    else if trust_beq d both_waiting
    then ok "b"
    else if trust_beq d mixed
    then ok "m"
    else if trust_beq d both_approved
    then ok "c"
    else err "unknown data"

unfoldable pub decode : String → Result TrustData
decode text =
    if text == "n"
    then ok no_trust
    else if text == "w"
    then ok waiting
    else if text == "a"
    then ok approved_one
    else if text == "b"
    then ok both_waiting
    else if text == "m"
    then ok mixed
    else if text == "c"
    then ok both_approved
    else err "unknown text"

no_text : (text : String) → Path (Result String) (err "unknown data") (ok text) → ⊥
no_text text h = ground arith

known :
    (d s : TrustData) (letter text : String)
    → trust_beq d s ≡ true
    → decode letter ≡ ok s
    → Path (Result String) (ok letter) (ok text)
    → decode text ≡ ok d
known d s letter text e k h =
    let same : letter ≡ text = ground arith in
    let all : s ≡ d = sym (trust_beq-eq d s e) in
    ap decode (sym same) ∙ k ∙ ap (λ (x : TrustData). ok x) all

pub decode-encode : (d : TrustData) (text : String) → encode d ≡ ok text → decode text ≡ ok d
unfolding encode decode
decode-encode d text h = elim (Bool-cases (trust_beq d no_trust)) [
  | inl e ↦ known d no_trust "n" text e refl (rw (e, encode) at h)
  | inr n ↦ elim (Bool-cases (trust_beq d waiting)) [
    | inl e ↦ known d waiting "w" text e refl (rw (n, e, encode) at h)
    | inr w ↦ elim (Bool-cases (trust_beq d approved_one)) [
      | inl e ↦ known d approved_one "a" text e refl (rw (n, w, e, encode) at h)
      | inr a ↦ elim (Bool-cases (trust_beq d both_waiting)) [
        | inl e ↦ known d both_waiting "b" text e refl (rw (n, w, a, e, encode) at h)
        | inr b ↦ elim (Bool-cases (trust_beq d mixed)) [
          | inl e ↦ known d mixed "m" text e refl (rw (n, w, a, b, e, encode) at h)
          | inr m ↦ elim (Bool-cases (trust_beq d both_approved)) [
            | inl e ↦ known d both_approved "c" text e refl (rw (n, w, a, b, m, e, encode) at h)
            | inr c ↦ absurd (no_text text (rw (n, w, a, b, m, c, encode) at h))
          ]
        ]
      ]
    ]
  ]
]

abbrev pub json : Codec TrustData String
json = record { encode = encode; decode = decode; decode-encode = decode-encode }
