-- ===== src/Server/Reaction/Kept.antt =====
-- What the pieces of a reaction keep, whatever comes between them.
use joycast.Prelude.{String, ◌≡◌, refl, true, Option, none, some, arith, inl, inr, Bool-cases}
use joycast.Prelude.Outcome.{Codec}
use joycast.Prelude.Map.{string_eq, contains_key}
use joycast.Trust.{TrustData, reload}
use joycast.Trust.Disk.{stored, current, reload_lem}
use joycast.Trust.Invariant.{Closed, Holds, record_pending-Holds}
use joycast.Protocol.{HandshakePayload}
use joycast.Server.{Server, Moment}
use joycast.Server.Reaction.{
  Point, checking, loading, deciding, admitting, reviewing, reloading, registering, answering, done,
  remember, request, consult,
}

-- What a task has read from the file has `P`, and a client that it is about to admit has `L`.
abbrev pub PointHolds : (TrustData → Type 0) → (String → Type 0) → HandshakePayload → Point → Type 0
PointHolds P L p (loading d) = (x : TrustData) → d ≡ some x → P x
PointHolds P L p (reloading d) = (x : TrustData) → d ≡ some x → P x
PointHolds P L p admitting = L p.client_id
PointHolds P L p _ = Unit {0}

module _ (json : Codec TrustData String) where
  -- The two halves of `reload`, with nothing in between.
  pub remember-stored :
      (s : Server)
      → remember (stored json s.files s.trust.store_path) s.trust ≡ reload json s.files s.trust
  unfolding remember current
  remember-stored s = rw (reload_lem json s.files s.trust) (ground arith)

  pub consult-sessions :
      (transport : String) (m : Moment) (p : HandshakePayload) (point : Point) (s : Server)
      → (consult json transport m p point s).1.sessions ≡ s.sessions
  unfolding consult
  consult-sessions transport m p checking s = refl
  consult-sessions transport m p (loading d) s = refl
  consult-sessions transport m p deciding s = refl
  consult-sessions transport m p reviewing s = refl
  consult-sessions transport m p (reloading d) s = refl
  consult-sessions transport m p registering s = refl
  consult-sessions transport m p admitting s = refl
  consult-sessions transport m p answering s = refl
  consult-sessions transport m p done s = refl

  module _ {P : TrustData → Type 0} {L : String → Type 0} (closed : Closed P L) where
    remember-Holds :
        (s : Server) (d : Option TrustData)
        → ((x : TrustData) → d ≡ some x → P x)
        → Holds json P s.files s.trust
        → Holds json P s.files (remember d s.trust)
    unfolding remember
    remember-Holds s (some d) k h = record { memory = k d refl; files = h.files }
    remember-Holds s none k h = h

    pub consult-Holds :
        (transport : String) (m : Moment) (p : HandshakePayload) (point : Point) (s : Server)
        → PointHolds P L p point
        → Holds json P s.files s.trust
        → let after = (consult json transport m p point s).1 in Holds json P after.files after.trust
    unfolding consult
    consult-Holds transport m p checking s k h = h
    consult-Holds transport m p (loading d) s k h = remember-Holds s d k h
    consult-Holds transport m p deciding s k h = h
    consult-Holds transport m p reviewing s k h = h
    consult-Holds transport m p (reloading d) s k h = remember-Holds s d k h
    consult-Holds transport m p registering s k h =
        record_pending-Holds json closed (request transport m p) s.files s.trust h
    consult-Holds transport m p admitting s k h = h
    consult-Holds transport m p answering s k h = h
    consult-Holds transport m p done s k h = h

    pub consult-PointHolds :
        ((d : TrustData) (id : String) → P d → contains_key d.approved id ≡ true → L id)
        → (transport : String) (m : Moment) (p : HandshakePayload) (point : Point) (s : Server)
        → PointHolds P L p point
        → Holds json P s.files s.trust
        → PointHolds P L p (consult json transport m p point s).0
    unfolding consult
    consult-PointHolds sound transport m p checking s k h = h.files s.trust.store_path
    consult-PointHolds sound transport m p (loading d) s k h = tt
    consult-PointHolds sound transport m p deciding s k h =
        elim (Bool-cases (contains_key s.trust.memory.approved p.client_id)) [
          | inl there ↦ rw there (sound s.trust.memory p.client_id h.memory there)
          | inr absent ↦ rw absent tt
        ]
    consult-PointHolds sound transport m p reviewing s k h = h.files s.trust.store_path
    consult-PointHolds sound transport m p (reloading d) s k h = tt
    consult-PointHolds sound transport m p registering s k h = tt
    consult-PointHolds sound transport m p admitting s k h = k
    consult-PointHolds sound transport m p answering s k h = tt
    consult-PointHolds sound transport m p done s k h = tt
