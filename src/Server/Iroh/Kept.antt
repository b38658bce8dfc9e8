-- ===== src/Server/Iroh/Kept.antt =====
-- What every step of an Iroh connection keeps: a property of the trust data that the trust store
-- keeps, and the keys of the table distinct.
use joycast.Prelude.{String, ◌≡◌, refl, sym, ap, subst, subst₂, arith, inl, inr, Bool-cases}
use joycast.Prelude.Outcome.{Result, ok, err, Codec, Result-cases}
use joycast.Prelude.Map.{string_eq, contains_key}
use joycast.Prelude.Map.Laws.{Distinct, modify-Distinct}
use joycast.Trust.{TrustData, is_approved}
use joycast.Trust.Invariant.{Closed, Holds, register_pending-Holds, is_approved-Holds}
use joycast.Protocol.{Message, handshake, events, ping, pong, HandshakePayload}
use joycast.Server.{Server, Moment, Sessions, session_key, create_session, touch, play}
use joycast.Server.Session.{create_session-Creates}
use joycast.Server.Iroh.{
  Phase, greeting, streaming, closed, Iroh, Input, write, write_anyway, enter, turn_away, checked,
  on_handshake, on_greeting, on_stream, on_read, step,
}

pub write_server :
    (i : Input) (msg : Message) (next : Phase) (c : Iroh) → (write i msg next c).server ≡ c.server
unfolding write
write_server i msg next c = ground arith

write_anyway_server :
    (i : Input) (msg : Message) (next : Phase) (c : Iroh)
    → (write_anyway i msg next c).server ≡ c.server
unfolding write_anyway
write_anyway_server i msg next c = ground arith

-- What `enter` leaves of the shared state: the same but for the sessions.
pub enter_trust :
    (m : Moment) (i : Input) (p : HandshakePayload) (c : Iroh)
    → ((enter m i p c).server.files ≡ c.server.files)
      × ((enter m i p c).server.trust ≡ c.server.trust)
unfolding enter write write_anyway
enter_trust m i p c = ground arith

pub enter-Distinct :
    (m : Moment) (i : Input) (p : HandshakePayload) (c : Iroh)
    → Distinct c.server.sessions
    → Distinct (enter m i p c).server.sessions
unfolding enter
enter-Distinct m i p c d = elim (Bool-cases (contains_key c.server.sessions (session_key p))) [
  | inl there ↦ rw there (
      subst (λ (s : Server). Distinct s.sessions) (sym (write_server i _ _ _))
        (modify-Distinct c.server.sessions (session_key p) (touch m) d))
  | inr fresh ↦ elim (Result-cases (create_session m p c.server.sessions)) [
    | inl (sessions, e) ↦
        rw (fresh, enter, e)
          (subst (λ (s : Server). Distinct s.sessions) (sym (write_server i _ _ _))
            ((create_session-Creates m p c.server.sessions sessions e).distinct d))
    | inr (x, e) ↦
        rw (fresh, enter, e)
          (subst (λ (s : Server). Distinct s.sessions) (sym (write_anyway_server i _ _ _)) d)
  ]
]

module _ (json : Codec TrustData String) where
  turn_away_server :
      (m : Moment) (i : Input) (p : HandshakePayload) (c : Iroh)
      → (turn_away json m i p c).server.sessions ≡ c.server.sessions
  unfolding turn_away
  turn_away_server m i p c = ap (λ (s : Server). s.sessions) (write_server i _ _ _)

  on_handshake-Distinct :
      (m : Moment) (i : Input) (p : HandshakePayload) (c : Iroh)
      → Distinct c.server.sessions
      → Distinct (on_handshake json m i p c).server.sessions
  unfolding on_handshake checked
  on_handshake-Distinct m i p c d =
      elim (Bool-cases (is_approved json p.client_id c.server.files c.server.trust).0) [
        | inl entry ↦ rw entry (enter-Distinct m i p (checked json p c) d)
        | inr barred ↦ rw barred (
            subst (λ (s : Sessions). Distinct s) (sym (turn_away_server m i p (checked json p c)))
              d)
      ]

  on_stream-Distinct :
      (m : Moment) (i : Input) (key : String) (msg : Message) (c : Iroh)
      → Distinct c.server.sessions
      → Distinct (on_stream json m i key msg c).server.sessions
  unfolding on_stream
  on_stream-Distinct m i key (events batch) c d =
      elim (Bool-cases (contains_key c.server.sessions key)) [
        | inl there ↦ rw there (modify-Distinct c.server.sessions key (play m batch) d)
        | inr gone ↦ rw gone d
      ]
  on_stream-Distinct m i key ping c d = elim (Bool-cases (contains_key c.server.sessions key)) [
    | inl there ↦ rw there (
        subst (λ (s : Server). Distinct s.sessions) (sym (write_server i _ _ _))
          (modify-Distinct c.server.sessions key (touch m) d))
    | inr gone ↦ rw gone d
  ]
  on_stream-Distinct m i key _ c d = d

  pub on_read-Distinct :
      (debug : Message → String) (m : Moment) (i : Input) (ph : Phase) (r : Result Message)
      (c : Iroh)
      → Distinct c.server.sessions
      → Distinct (on_read json debug m i ph r c).server.sessions
  unfolding on_read on_greeting
  on_read-Distinct debug m i greeting (ok (handshake p)) c d = on_handshake-Distinct m i p c d
  on_read-Distinct debug m i greeting (ok ping) c d =
      subst (λ (s : Server). Distinct s.sessions) (sym (write_server i pong greeting c)) d
  on_read-Distinct debug m i greeting (ok _) c d = d
  on_read-Distinct debug m i greeting (err _) c d = d
  on_read-Distinct debug m i (streaming key) (ok msg) c d = on_stream-Distinct m i key msg c d
  on_read-Distinct debug m i (streaming key) (err _) c d = d
  on_read-Distinct debug m i (closed r) _ c d = d

  pub step-Distinct :
      (debug : Message → String) (m : Moment) (i : Input) (c : Iroh)
      → Distinct c.server.sessions
      → Distinct (step json debug m i c).server.sessions
  unfolding step
  step-Distinct debug m i c d = on_read-Distinct debug m i c.phase i.read c d

  on_stream_trust :
      (m : Moment) (i : Input) (key : String) (msg : Message) (c : Iroh)
      → ((on_stream json m i key msg c).server.files ≡ c.server.files)
        × ((on_stream json m i key msg c).server.trust ≡ c.server.trust)
  unfolding on_stream write
  on_stream_trust m i key (events batch) c = ground arith
  on_stream_trust m i key ping c = ground arith
  on_stream_trust m i key _ c = (refl, refl)

  module _ {P : TrustData → Type 0} {L : String → Type 0} (kept : Closed P L) where
    on_handshake-Holds :
        (m : Moment) (i : Input) (p : HandshakePayload) (c : Iroh)
        → Holds json P c.server.files c.server.trust
        → let after = (on_handshake json m i p c).server in Holds json P after.files after.trust
    unfolding on_handshake checked turn_away
    on_handshake-Holds m i p c h =
        let seen = is_approved-Holds json kept p.client_id c.server.files c.server.trust h in
        elim (Bool-cases (is_approved json p.client_id c.server.files c.server.trust).0) [
          | inl entry ↦
              let (f, t) = enter_trust m i p (checked json p c) in
              rw entry (subst₂ (Holds json P) (sym f) (sym t) seen)
          | inr barred ↦ rw barred (
              subst (λ (x : Server). Holds json P x.files x.trust) (sym (write_server i _ _ _))
                (register_pending-Holds json kept p.client_id p.client_hostname p.metadata.name
                  "Iroh P2P" m.utc c.server.files _ seen))
        ]

    pub on_read-Holds :
        (debug : Message → String) (m : Moment) (i : Input) (ph : Phase) (r : Result Message)
        (c : Iroh)
        → Holds json P c.server.files c.server.trust
        → let after = (on_read json debug m i ph r c).server in Holds json P after.files after.trust
    unfolding on_read on_greeting
    on_read-Holds debug m i greeting (ok (handshake p)) c h = on_handshake-Holds m i p c h
    on_read-Holds debug m i greeting (ok ping) c h =
        subst (λ (x : Server). Holds json P x.files x.trust) (sym (write_server i pong greeting c))
          h
    on_read-Holds debug m i greeting (ok _) c h = h
    on_read-Holds debug m i greeting (err _) c h = h
    on_read-Holds debug m i (streaming key) (ok msg) c h =
        let (f, t) = on_stream_trust m i key msg c in subst₂ (Holds json P) (sym f) (sym t) h
    on_read-Holds debug m i (streaming key) (err _) c h = h
    on_read-Holds debug m i (closed r) _ c h = h

    pub step-Holds :
        (debug : Message → String) (m : Moment) (i : Input) (c : Iroh)
        → Holds json P c.server.files c.server.trust
        → let after = (step json debug m i c).server in Holds json P after.files after.trust
    unfolding step
    step-Holds debug m i c h = on_read-Holds debug m i c.phase i.read c h
