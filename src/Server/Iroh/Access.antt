-- ===== src/Server/Iroh/Access.antt =====
-- Who gets a session over Iroh, who does not, and what the handler's phases allow.
use text.Mathlib.TextEquality.{eq_iff}
use joycast.Prelude.{String, ◌≡◌, refl, sym, ap, ◌∙◌, true, false, arith, ◌⊎◌, inl, inr, Bool-cases}
use joycast.Prelude.Outcome.{Result, ok, err, Codec, Result-cases}
use joycast.Prelude.Map.{string_eq, contains_key}
use joycast.Prelude.Map.Laws.{contains_key-modify}
use joycast.Trust.{TrustData, is_approved}
use joycast.Protocol.{Message, handshake, events, ping, HandshakePayload}
use joycast.Server.{Moment, Sessions, session_key, create_session, touch, play}
use joycast.Server.Session.{create_session-Creates}
use joycast.Server.Iroh.{
  Phase, greeting, streaming, closed, Iroh, Input, write, write_anyway, enter, turn_away, checked,
  on_handshake, on_greeting, on_stream, on_read, step,
}

module _ (m : Moment) (i : Input) (p : HandshakePayload) (c : Iroh) (k : String) where
  pub enter-keys :
      contains_key (enter m i p c).server.sessions k ≡ true
      → (contains_key c.server.sessions k ≡ true) ⊎ (session_key p ≡ k)
  unfolding enter contains_key write write_anyway
  enter-keys h = elim (Bool-cases (contains_key c.server.sessions (session_key p))) [
    | inl there ↦
        inl (ground (arith, contains_key-modify c.server.sessions (session_key p) k (touch m)))
    | inr fresh ↦ elim (Result-cases (create_session m p c.server.sessions)) [
      | inl (sessions, e) ↦
          let made = create_session-Creates m p c.server.sessions sessions e in
          ground (arith, made.all_keys k, eq_iff (session_key p) k)
      | inr (e, x) ↦ inl (ground arith)
    ]
  ]

module _ (json : Codec TrustData String) where
  abbrev pub Entitled : Iroh → Input → String → Type 0
  Entitled c i k =
      (p : HandshakePayload) × (i.read ≡ ok (handshake p))
      × (c.phase ≡ greeting)
      × (session_key p ≡ k)
      × ((is_approved json p.client_id c.server.files c.server.trust).0 ≡ true)

  sessions-turn_away :
      (m : Moment) (i : Input) (p : HandshakePayload) (c : Iroh)
      → (turn_away json m i p c).server.sessions ≡ c.server.sessions
  unfolding turn_away write
  sessions-turn_away m i p c = ground arith

  write-closed :
      (i : Input) (msg : Message) (r : Result (Unit {0})) (c : Iroh)
      → (r' : Result (Unit {0})) × ((write i msg (closed r) c).phase ≡ closed r')
  unfolding write
  write-closed i msg r c = elim (Result-cases (i.write msg)) [
    | inl (u, e) ↦ (r, ground arith)
    | inr (x, e) ↦ (err x, ground arith)
  ]

  on_handshake-keys :
      (m : Moment) (i : Input) (p : HandshakePayload) (c : Iroh) (k : String)
      → contains_key (on_handshake json m i p c).server.sessions k ≡ true
      → (contains_key c.server.sessions k ≡ true)
        ⊎ ((session_key p ≡ k)
            × ((is_approved json p.client_id c.server.files c.server.trust).0 ≡ true))
  unfolding on_handshake checked
  on_handshake-keys m i p c k h =
      elim (Bool-cases (is_approved json p.client_id c.server.files c.server.trust).0) [
        | inl entry ↦ elim (enter-keys m i p (checked json p c) k (ground arith)) [
          | inl old ↦ inl old
          | inr new ↦ inr (new, entry)
        ]
        | inr barred ↦ inl (
            ground (
              arith,
              ap (λ (s : Sessions). contains_key s k) (sessions-turn_away m i p (checked json p c)),
            ))
      ]

  on_stream-keys :
      (m : Moment) (i : Input) (key : String) (msg : Message) (c : Iroh) (k : String)
      → contains_key (on_stream json m i key msg c).server.sessions k
        ≡ contains_key c.server.sessions k
  unfolding on_stream write
  on_stream-keys m i key (events batch) c k =
      ground (arith, contains_key-modify c.server.sessions key k (play m batch))
  on_stream-keys m i key ping c k =
      ground (arith, contains_key-modify c.server.sessions key k (touch m))
  on_stream-keys m i key _ c k = refl

  pub on_read-Entitled :
      (debug : Message → String) (m : Moment) (i : Input) (ph : Phase) (r : Result Message)
      (c : Iroh) (k : String)
      → c.phase ≡ ph
      → i.read ≡ r
      → contains_key (on_read json debug m i ph r c).server.sessions k ≡ true
      → (contains_key c.server.sessions k ≡ true) ⊎ Entitled c i k
  unfolding on_read on_greeting write
  on_read-Entitled debug m i greeting (ok (handshake p)) c k e x h =
      elim (on_handshake-keys m i p c k h) [
        | inl old ↦ inl old
        | inr new ↦ inr (p, x, e, new.0, new.1)
      ]
  on_read-Entitled debug m i greeting (ok ping) c k e x h = inl (ground arith)
  on_read-Entitled debug m i greeting (ok _) c k e x h = inl h
  on_read-Entitled debug m i greeting (err _) c k e x h = inl h
  on_read-Entitled debug m i (streaming key) (ok msg) c k e x h =
      inl (sym (on_stream-keys m i key msg c k) ∙ h)
  on_read-Entitled debug m i (streaming key) (err _) c k e x h = inl h
  on_read-Entitled debug m i (closed r) _ c k e x h = inl h

  -- A session appears only for a handshake that comes first on its connection, under that
  -- handshake's key, and only if the trust store approves its client.
  pub step-Entitled :
      (debug : Message → String) (m : Moment) (i : Input) (c : Iroh) (k : String)
      → contains_key (step json debug m i c).server.sessions k ≡ true
      → (contains_key c.server.sessions k ≡ true) ⊎ Entitled c i k
  unfolding step
  step-Entitled debug m i c k h = on_read-Entitled debug m i c.phase i.read c k refl refl h

  -- The handshake of a client that is not approved changes no session, and ends the connection.
  pub turns_away :
      (m : Moment) (i : Input) (p : HandshakePayload) (c : Iroh)
      → (is_approved json p.client_id c.server.files c.server.trust).0 ≡ false
      → ((on_handshake json m i p c).server.sessions ≡ c.server.sessions)
        × ((r : Result (Unit {0})) × ((on_handshake json m i p c).phase ≡ closed r))
  unfolding on_handshake turn_away checked
  turns_away m i p c h = rw h (sessions-turn_away m i p (checked json p c), write-closed i _ _ _)

  -- A connection that has ended stays as it is, whatever arrives.
  pub step_closed :
      (debug : Message → String) (m : Moment) (i : Input) (c : Iroh) (r : Result (Unit {0}))
      → c.phase ≡ closed r
      → step json debug m i c ≡ c
  unfolding step on_read
  step_closed debug m i c r h = ground arith
