-- ===== src/Server/Udp/Access.antt =====
-- Who gets a session over Direct UDP, and who does not.
use text.Mathlib.TextEquality.{eq_iff}
use joycast.Prelude.{
  String, ◌≡◌, sym, ap, ◌∙◌, true, false, none, arith, ◌⊎◌, inl, inr, Bool-cases, Option-cases,
}
use joycast.Prelude.Outcome.{ok, err, Codec, Result-cases}
use joycast.Prelude.Map.{Map, string_eq, get, contains_key, modify, eq_self}
use joycast.Prelude.Map.Laws.{get-remove, contains_key-modify}
use joycast.Trust.{TrustData, is_approved}
use joycast.Transport.{SocketAddr, socket_addr_eq}
use joycast.Protocol.{Message, handshake, events, ping, pong, HandshakePayload, Wire}
use joycast.Server.{Server, Moment, Sessions, session_key, create_session, touch, play}
use joycast.Server.Session.{create_session-Creates}
use joycast.Server.Udp.{
  Udp, send, refuse, received, bind_session, admit, hold, on_handshake, on_events, on_ping, pinged,
  on_message,
}

module _ (wire : Wire) (json : Codec TrustData String) where
  pub server-send :
      (src : SocketAddr) (msg : Message) (udp : Udp)
      → (send wire json src msg udp).server ≡ udp.server
  unfolding send
  server-send src msg udp = ground arith

  pub bound-send :
      (src : SocketAddr) (msg : Message) (udp : Udp)
      → (send wire json src msg udp).client_sessions ≡ udp.client_sessions
  unfolding send
  bound-send src msg udp = ground arith

  pub sessions-send :
      (src : SocketAddr) (msg : Message) (udp : Udp)
      → (send wire json src msg udp).server.sessions ≡ udp.server.sessions
  sessions-send src msg udp = ap (λ (s : Server). s.sessions) (server-send src msg udp)

  sessions-bind_session :
      (m : Moment) (src : SocketAddr) (p : HandshakePayload) (sessions : Sessions) (udp : Udp)
      → (bind_session wire json m src p sessions udp).server.sessions ≡ sessions
  unfolding bind_session
  sessions-bind_session m src p sessions udp = sessions-send src _ _

  pub sessions-hold :
      (m : Moment) (src : SocketAddr) (p : HandshakePayload) (udp : Udp)
      → (hold wire json m src p udp).server.sessions ≡ udp.server.sessions
  unfolding hold
  sessions-hold m src p udp = sessions-send src _ _

  -- The three outcomes for an approved client: its session is there and is used again, or is made, or
  -- cannot be made.
  pub data Admission (m : Moment) (src : SocketAddr) (p : HandshakePayload) (udp after : Udp)
      : Type 0 where
    reused :
        contains_key udp.server.sessions (session_key p) ≡ true
        → after
          ≡ bind_session wire json m src p
              (modify udp.server.sessions (session_key p) (touch m))
              udp
        → Admission m src p udp after
    created :
        (sessions : Sessions)
        → contains_key udp.server.sessions (session_key p) ≡ false
        → create_session m p udp.server.sessions ≡ ok sessions
        → after ≡ bind_session wire json m src p sessions udp
        → Admission m src p udp after
    refused :
        (e : String)
        → contains_key udp.server.sessions (session_key p) ≡ false
        → create_session m p udp.server.sessions ≡ err e
        → after ≡ refuse wire json m src e udp
        → Admission m src p udp after

  pub admit_cases :
      (m : Moment) (src : SocketAddr) (p : HandshakePayload) (udp : Udp)
      → Admission m src p udp (admit wire json m src p udp)
  unfolding admit
  admit_cases m src p udp = elim (Bool-cases (contains_key udp.server.sessions (session_key p))) [
    | inl there ↦ reused there (ground arith)
    | inr fresh ↦ elim (Result-cases (create_session m p udp.server.sessions)) [
      | inl (sessions, e) ↦ created sessions fresh e (ground arith)
      | inr (e, x) ↦ refused e fresh x (ground arith)
    ]
  ]

  pub bound-keys :
      (m : Moment) (src : SocketAddr) (p : HandshakePayload) (sessions : Sessions) (udp after : Udp)
      → after ≡ bind_session wire json m src p sessions udp
      → after.server.sessions ≡ sessions
  bound-keys m src p sessions udp after e =
      ap (λ (u : Udp). u.server.sessions) e ∙ sessions-bind_session m src p sessions udp

  pub Admission-keys :
      {m : Moment} {src : SocketAddr} {p : HandshakePayload} {udp after : Udp} (k : String)
      → Admission m src p udp after
      → contains_key after.server.sessions k ≡ true
      → (contains_key udp.server.sessions k ≡ true) ⊎ (session_key p ≡ k)
  unfolding contains_key refuse
  Admission-keys {m} {src} {p} {udp} {after} k (reused there e) h =
      let same = bound-keys m src p _ udp after e in
      inl (
        sym (
          ap (λ (s : Sessions). contains_key s k) same
          ∙ contains_key-modify udp.server.sessions (session_key p) k (touch m))
        ∙ h)
  Admission-keys {m} {src} {p} {udp} {after} k (created sessions fresh c e) h =
      let made = create_session-Creates m p udp.server.sessions sessions c in
      let same = ap (λ (s : Sessions). contains_key s k) (bound-keys m src p _ udp after e) in
      ground (arith, same, made.all_keys k, eq_iff (session_key p) k)
  Admission-keys {m} {src} {p} {udp} {after} k (refused x fresh c e) h =
      let same = ap (λ (u : Udp). u.server.sessions) e ∙ sessions-send src _ udp in
      inl (sym (ap (λ (s : Sessions). contains_key s k) same) ∙ h)

  abbrev pub Entitled : Udp → Message → String → Type 0
  Entitled udp (handshake p) k =
      (session_key p ≡ k)
      × ((is_approved json p.client_id udp.server.files udp.server.trust).0 ≡ true)
  Entitled udp _ k = ⊥

  -- A session appears only for a handshake, under that handshake's key, and only if the trust store
  -- approves its client.
  pub on_message-Entitled :
      (m : Moment) (src : SocketAddr) (msg : Message) (udp : Udp) (k : String)
      → contains_key (on_message wire json m src msg udp).server.sessions k ≡ true
      → (contains_key udp.server.sessions k ≡ true) ⊎ Entitled udp msg k
  unfolding on_message on_handshake on_events on_ping received
  on_message-Entitled m src (handshake p) udp k h =
      elim (Bool-cases (is_approved json p.client_id udp.server.files udp.server.trust).0) [
        | inl entry ↦
            elim (Admission-keys k (admit_cases m src p (received wire json src p udp))
              (ground arith)) [ inl old ↦ inl old | inr new ↦ inr (new, entry) ]
        | inr barred ↦ inl (
            ground (
              arith,
              ap (λ (s : Sessions). contains_key s k)
                  (sessions-hold m src p (received wire json src p udp)),
            ))
      ]
  on_message-Entitled m src (events batch) udp k h =
      elim (Option-cases (get udp.client_sessions src)) [
        | inl e ↦ inl (ground arith)
        | inr (key, e) ↦
            inl (ground (arith, contains_key-modify udp.server.sessions key k (play m batch)))
      ]
  on_message-Entitled m src ping udp k h =
      let sent =
        ap (λ (s : Sessions). contains_key s k)
          (sessions-send src pong (pinged wire json m src udp)) in
      elim (Option-cases (get udp.client_sessions src)) [
        | inl e ↦ inl (ground (arith, sent))
        | inr (key, e) ↦
            inl (ground (arith, sent, contains_key-modify udp.server.sessions key k (touch m)))
      ]
  on_message-Entitled m src _ udp k h = inl h

  -- A client that is not approved changes nothing of the sessions, and its address is bound to
  -- none.
  pub on_handshake_barred :
      (m : Moment) (src : SocketAddr) (p : HandshakePayload) (udp : Udp)
      → (is_approved json p.client_id udp.server.files udp.server.trust).0 ≡ false
      → ((on_handshake wire json m src p udp).server.sessions ≡ udp.server.sessions)
        × (get (on_handshake wire json m src p udp).client_sessions src ≡ none)
  unfolding on_handshake received hold
  on_handshake_barred m src p udp h =
      let gone = get-remove udp.client_sessions src src ∙ rw (eq_self src) in
      rw h (
        sessions-hold m src p (received wire json src p udp),
        ap (λ (b : Map SocketAddr String). get b src) (bound-send src _ _) ∙ gone,
      )
