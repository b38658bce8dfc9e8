-- ===== src/Server/Udp/Kept.antt =====
-- What every message over Direct UDP keeps: a property of the trust data that the trust store keeps,
-- and the keys of the table distinct. And which addresses become bound.
use joycast.Prelude.{
  String, ◌≡◌, sym, ap, ◌∙◌, subst, subst₂, some, List, arith, ◌⊎◌, inl, inr, Bool-cases,
  Option-cases,
}
use joycast.Prelude.Outcome.{Codec}
use joycast.Prelude.Map.{Map, string_eq, get}
use joycast.Prelude.Map.Laws.{Distinct, modify-Distinct, get-insert, get-remove}
use joycast.Trust.{TrustData, is_approved}
use joycast.Trust.Invariant.{Closed, Holds, register_pending-Holds, is_approved-Holds}
use joycast.Transport.{SocketAddr, socket_addr_eq}
use joycast.Protocol.{Message, handshake, events, ping, pong, HandshakePayload, EventWire, Wire}
use joycast.Server.{Server, Moment, Sessions, session_key, touch, play}
use joycast.Server.Session.{create_session-Creates}
use joycast.Server.Udp.{
  Udp, send, refuse, received, bind_session, admit, hold, on_handshake, on_events, on_ping, pinged,
  on_message,
}
use joycast.Server.Udp.Access.{
  Entitled, Admission, reused, created, refused, admit_cases, server-send, bound-send,
  sessions-send, bound-keys, sessions-hold,
}

module _ (wire : Wire) (json : Codec TrustData String) where
  pub admit_trust :
      (m : Moment) (src : SocketAddr) (p : HandshakePayload) (udp : Udp)
      → ((admit wire json m src p udp).server.files ≡ udp.server.files)
        × ((admit wire json m src p udp).server.trust ≡ udp.server.trust)
  unfolding admit bind_session refuse send
  admit_trust m src p udp = ground arith

  pub Admission-Distinct :
      {m : Moment} {src : SocketAddr} {p : HandshakePayload} {udp after : Udp}
      → Admission wire json m src p udp after
      → Distinct udp.server.sessions
      → Distinct after.server.sessions
  unfolding refuse
  Admission-Distinct {m} {src} {p} {udp} {after} (reused there e) d =
      subst (λ (s : Sessions). Distinct s) (sym (bound-keys wire json m src p _ udp after e))
        (modify-Distinct udp.server.sessions (session_key p) (touch m) d)
  Admission-Distinct {m} {src} {p} {udp} {after} (created sessions fresh c e) d =
      subst (λ (s : Sessions). Distinct s) (sym (bound-keys wire json m src p sessions udp after e))
        ((create_session-Creates m p udp.server.sessions sessions c).distinct d)
  Admission-Distinct {m} {src} {p} {udp} {after} (refused x fresh c e) d =
      subst (λ (s : Sessions). Distinct s)
        (sym (ap (λ (u : Udp). u.server.sessions) e ∙ sessions-send wire json src _ udp)) d

  pub admit_bound :
      (m : Moment) (src : SocketAddr) (p : HandshakePayload) (udp : Udp) (a : SocketAddr)
      (k : String)
      → get (admit wire json m src p udp).client_sessions a ≡ some k
      → (get udp.client_sessions a ≡ some k) ⊎ (session_key p ≡ k)
  unfolding admit bind_session refuse send
  admit_bound m src p udp a k h =
      ground (arith, get-insert udp.client_sessions src a (session_key p))

  on_events_trust :
      (m : Moment) (src : SocketAddr) (batch : List EventWire) (udp : Udp)
      → ((on_events wire json m src batch udp).server.files ≡ udp.server.files)
        × ((on_events wire json m src batch udp).server.trust ≡ udp.server.trust)
  unfolding on_events
  on_events_trust m src batch udp = ground arith

  on_events_bound :
      (m : Moment) (src : SocketAddr) (batch : List EventWire) (udp : Udp)
      → (on_events wire json m src batch udp).client_sessions ≡ udp.client_sessions
  unfolding on_events
  on_events_bound m src batch udp = ground arith

  on_events-Distinct :
      (m : Moment) (src : SocketAddr) (batch : List EventWire) (udp : Udp)
      → Distinct udp.server.sessions
      → Distinct (on_events wire json m src batch udp).server.sessions
  unfolding on_events
  on_events-Distinct m src batch udp d = elim (Option-cases (get udp.client_sessions src)) [
    | inl e ↦ rw (e, on_events) d
    | inr (key, e) ↦ rw (e, on_events) (modify-Distinct udp.server.sessions key (play m batch) d)
  ]

  on_ping_trust :
      (m : Moment) (src : SocketAddr) (udp : Udp)
      → ((on_ping wire json m src udp).server.files ≡ udp.server.files)
        × ((on_ping wire json m src udp).server.trust ≡ udp.server.trust)
  unfolding on_ping send
  on_ping_trust m src udp = ground arith

  on_ping_bound :
      (m : Moment) (src : SocketAddr) (udp : Udp)
      → (on_ping wire json m src udp).client_sessions ≡ udp.client_sessions
  unfolding on_ping send
  on_ping_bound m src udp = ground arith

  pinged-Distinct :
      (m : Moment) (src : SocketAddr) (udp : Udp)
      → Distinct udp.server.sessions
      → Distinct (pinged wire json m src udp).server.sessions
  unfolding pinged
  pinged-Distinct m src udp d = elim (Option-cases (get udp.client_sessions src)) [
    | inl e ↦ rw (e, pinged) d
    | inr (key, e) ↦ rw (e, pinged) (modify-Distinct udp.server.sessions key (touch m) d)
  ]

  on_ping-Distinct :
      (m : Moment) (src : SocketAddr) (udp : Udp)
      → Distinct udp.server.sessions
      → Distinct (on_ping wire json m src udp).server.sessions
  unfolding on_ping
  on_ping-Distinct m src udp d =
      subst (λ (s : Sessions). Distinct s)
        (sym (sessions-send wire json src pong (pinged wire json m src udp)))
        (pinged-Distinct m src udp d)

  module _ {P : TrustData → Type 0} {L : String → Type 0} (closed : Closed P L) where
    on_handshake-Holds :
        (m : Moment) (src : SocketAddr) (p : HandshakePayload) (udp : Udp)
        → Holds json P udp.server.files udp.server.trust
        → let after = (on_handshake wire json m src p udp).server in
          Holds json P after.files after.trust
    unfolding on_handshake received hold
    on_handshake-Holds m src p udp h =
        let seen = is_approved-Holds json closed p.client_id udp.server.files udp.server.trust h in
        elim (Bool-cases (is_approved json p.client_id udp.server.files udp.server.trust).0) [
          | inl entry ↦
              let (f, t) = admit_trust m src p (received wire json src p udp) in
              rw entry (subst₂ (Holds json P) (sym f) (sym t) seen)
          | inr barred ↦ rw barred (
              subst (λ (x : Server). Holds json P x.files x.trust)
                (sym (server-send wire json src _ _))
                (register_pending-Holds json closed p.client_id p.client_hostname p.metadata.name
                  "Direct UDP" m.utc udp.server.files _ seen))
        ]

    pub on_message-Holds :
        (m : Moment) (src : SocketAddr) (msg : Message) (udp : Udp)
        → Holds json P udp.server.files udp.server.trust
        → let after = (on_message wire json m src msg udp).server in
          Holds json P after.files after.trust
    unfolding on_message
    on_message-Holds m src (handshake p) udp h = on_handshake-Holds m src p udp h
    on_message-Holds m src (events batch) udp h =
        let (f, t) = on_events_trust m src batch udp in subst₂ (Holds json P) (sym f) (sym t) h
    on_message-Holds m src ping udp h =
        let (f, t) = on_ping_trust m src udp in subst₂ (Holds json P) (sym f) (sym t) h
    on_message-Holds m src _ udp h = h

  pub on_message-Distinct :
      (m : Moment) (src : SocketAddr) (msg : Message) (udp : Udp)
      → Distinct udp.server.sessions
      → Distinct (on_message wire json m src msg udp).server.sessions
  unfolding on_message on_handshake received
  on_message-Distinct m src (handshake p) udp d =
      elim (Bool-cases (is_approved json p.client_id udp.server.files udp.server.trust).0) [
        | inl entry ↦
            rw entry
              (Admission-Distinct (admit_cases wire json m src p (received wire json src p udp)) d)
        | inr barred ↦ rw barred (
            subst (λ (s : Sessions). Distinct s)
              (sym (sessions-hold wire json m src p (received wire json src p udp))) d)
      ]
  on_message-Distinct m src (events batch) udp d = on_events-Distinct m src batch udp d
  on_message-Distinct m src ping udp d = on_ping-Distinct m src udp d
  on_message-Distinct m src _ udp d = d

  pub bound-hold :
      (m : Moment) (src : SocketAddr) (p : HandshakePayload) (udp : Udp)
      → (hold wire json m src p udp).client_sessions ≡ udp.client_sessions
  unfolding hold
  bound-hold m src p udp = bound-send wire json src _ _

  -- An address becomes bound only to the session of a handshake that was let in.
  pub on_message_bound :
      (m : Moment) (src : SocketAddr) (msg : Message) (udp : Udp) (a : SocketAddr) (k : String)
      → get (on_message wire json m src msg udp).client_sessions a ≡ some k
      → (get udp.client_sessions a ≡ some k) ⊎ Entitled wire json udp msg k
  unfolding on_message on_handshake received
  on_message_bound m src (handshake p) udp a k h =
      let here = received wire json src p udp in
      elim (Bool-cases (is_approved json p.client_id udp.server.files udp.server.trust).0) [
        | inl entry ↦ elim (admit_bound m src p here a k (ground arith)) [
          | inl old ↦ inl (ground (arith, get-remove udp.client_sessions src a))
          | inr new ↦ inr (new, entry)
        ]
        | inr barred ↦ inl (
            ground (
              arith,
              get-remove udp.client_sessions src a,
              ap (λ (b : Map SocketAddr String). get b a) (bound-hold m src p here),
            ))
      ]
  on_message_bound m src (events batch) udp a k h =
      inl (sym (ap (λ (b : Map SocketAddr String). get b a) (on_events_bound m src batch udp)) ∙ h)
  on_message_bound m src ping udp a k h =
      inl (sym (ap (λ (b : Map SocketAddr String). get b a) (on_ping_bound m src udp)) ∙ h)
  on_message_bound m src _ udp a k h = inl h
