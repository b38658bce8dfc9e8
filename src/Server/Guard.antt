-- ===== src/Server/Guard.antt =====
-- What every task of the server can rely on: who is approved, and whose sessions are in the table.
use text.Mathlib.TextEquality.{eq_iff}
use joycast.Prelude.{String, ◌≡◌, sym, ap, ◌∙◌, subst, true, arith, inl, inr, Bool-cases}
use joycast.Prelude.Outcome.{Codec}
use joycast.Prelude.Map.{string_eq, ◌==◌, get, contains_key}
use joycast.Prelude.Map.Laws.{Distinct, contains_key-insert, contains_key-remove}
use joycast.Trust.{TrustData, approval_of, move_approved}
use joycast.Trust.Consistency.{IsConsistent, IsConsistent-Closed}
use joycast.Trust.Invariant.{Closed, Holds}
use joycast.Protocol.{HandshakePayload}
use joycast.Server.{Server, Sessions, Moment, session_key}
use joycast.Server.Reaction.{Point, consult}
use joycast.Server.Reaction.Kept.{PointHolds, consult-Holds, consult-PointHolds, consult-sessions}

-- every approved client satisfies `L`
abbrev pub Within : (String → Type 0) → TrustData → Type 0
Within L d = (j : String) → contains_key d.approved j ≡ true → L j

-- consistent, and every approved client satisfies `L`
pub record IsLicensed (L : String → Type 0) (d : TrustData) : Type 0 where
  pub consistent : IsConsistent d
  pub within : Within L d

module _ (L : String → Type 0) where
  pub IsLicensed-Closed : Closed (IsLicensed L) L
  unfolding contains_key get move_approved
  IsLicensed-Closed =
      let base = IsConsistent-Closed L in
      record {
        nothing = record { consistent = base.nothing; within = λ j h. absurd (ground arith) };
        requests = λ p d h new. record {
          consistent = base.requests p d h.consistent new;
          within = h.within;
        };
        grants = λ id now p d h e l. record {
          consistent = base.grants id now p d h.consistent e l;
          within = λ j c. elim (Bool-cases (id == j)) [
            | inl same ↦ subst L (ground (arith, eq_iff id j)) l
            | inr other ↦
                h.within j (ground (arith, contains_key-insert d.approved id j (approval_of p now)))
          ];
        };
        withdraws = λ id d h. record {
          consistent = base.withdraws id d h.consistent;
          within = λ j c. h.within j (ground (arith, contains_key-remove d.approved id j));
        };
      }

  -- the key of a session that a client with `L` asked for
  abbrev pub IsGranted : String → Type 0
  IsGranted k = (p : HandshakePayload) × (session_key p ≡ k) × L p.client_id

-- The shared state of the server: its trust data, in memory and in every file, is licensed, and each
-- session is one that a client with `L` asked for.
pub record IsGuarded (json : Codec TrustData String) (L : String → Type 0) (s : Server)
    : Type 0 where
  pub trust : Holds json (IsLicensed L) s.files s.trust
  pub sessions : (k : String) → contains_key s.sessions k ≡ true → IsGranted L k
  pub distinct : Distinct s.sessions

module _ (json : Codec TrustData String) (L : String → Type 0) where
  -- A piece of a reaction that both listeners have keeps this, and what the task knows.
  pub consult-IsGuarded :
      (transport : String) (m : Moment) (p : HandshakePayload) (point : Point) (s : Server)
      → PointHolds (IsLicensed L) L p point
      → IsGuarded json L s
      → let after = consult json transport m p point s in
        IsGuarded json L after.1 × PointHolds (IsLicensed L) L p after.0
  consult-IsGuarded transport m p point s k g =
      let same = consult-sessions json transport m p point s in
      (
        record {
          trust = consult-Holds json (IsLicensed-Closed L) transport m p point s k g.trust;
          sessions = λ x c. g.sessions x (sym (ap (λ (t : Sessions). contains_key t x) same) ∙ c);
          distinct = subst (λ (t : Sessions). Distinct t) (sym same) g.distinct;
        },
        consult-PointHolds json (IsLicensed-Closed L) (λ d id h. h.within id) transport m p point s
            k g.trust,
      )
