-- ===== src/Server/Udp/Alive/Messages.antt =====
-- What one message over Direct UDP leaves of the session of an address: the client's own, or another's.
use joycast.Prelude.{
  ℕ, ◌≤◌, String, ◌≡◌, ◌≢◌, refl, sym, ap, ◌∙◌, subst, false, some, List, arith, inl, inr,
  Bool-cases, Option-cases,
}
use joycast.Prelude.Outcome.{Codec}
use joycast.Prelude.Map.{Map, string_eq, get, remove}
use joycast.Prelude.Map.Laws.{Distinct, get-insert, get-remove}
use joycast.Trust.{TrustData, is_approved}
use joycast.Transport.{SocketAddr, socket_addr_eq}
use joycast.Protocol.{
  Message, handshake, handshake_ack, events, ping, pong, HandshakePayload, EventWire, Wire,
}
use joycast.Device.Output.{DeviceSetup}
use joycast.Server.{Moment, Sessions, session_key, touch, play}
use joycast.Server.Alive.{
  Lasts, touch-Refreshes, play-Refreshes, modify-Lasts_now, modify-Lasts, create_session-Lasts,
}
use joycast.Server.Udp.{
  Udp, send, refuse, received, bind_session, admit, on_handshake, on_events, on_ping, pinged,
  on_message,
}
use joycast.Server.Udp.Access.{
  Admission, reused, created, refused, admit_cases, bound-keys, sessions-send, bound-send,
  sessions-hold,
}
use joycast.Server.Udp.Kept.{on_message-Distinct, bound-hold}

-- what a client sends in its main loop
abbrev pub IsPlay : Message → Type 0
IsPlay (events batch) = Unit {0}
IsPlay ping = Unit {0}
IsPlay _ = ⊥

module _ (wire : Wire) (json : Codec TrustData String) where
  module _ (src : SocketAddr) (key : String) (d : DeviceSetup) where
    -- The address is bound to the session under this key, which lasts.
    pub record IsKept (t : ℕ) (udp : Udp) : Type 0 where
      pub bound : get udp.client_sessions src ≡ some key
      pub lasts : Lasts key t d udp.server.sessions
      pub distinct : Distinct udp.server.sessions

    pinged-IsKept :
        (m : Moment) (t : ℕ) (udp : Udp)
        → IsKept t udp
        → (get (pinged wire json m src udp).client_sessions src ≡ some key)
          × Lasts key m.instant d (pinged wire json m src udp).server.sessions
    unfolding pinged
    pinged-IsKept m t udp v =
        rw (v.bound, pinged)
          (
            v.bound,
            modify-Lasts_now key d m (touch m) t udp.server.sessions (touch-Refreshes m) v.lasts,
          )

    pub own-IsKept :
        (m : Moment) (msg : Message) (t : ℕ) (udp : Udp)
        → IsPlay msg
        → IsKept t udp
        → IsKept m.instant (on_message wire json m src msg udp)
    unfolding on_message on_events on_ping pinged
    own-IsKept m (events batch) t udp p v = record {
      bound = rw (v.bound, on_events) v.bound;
      lasts =
          rw (v.bound, on_events)
            (modify-Lasts_now key d m (play m batch) t udp.server.sessions (play-Refreshes m batch)
              v.lasts);
      distinct = on_message-Distinct wire json m src (events batch) udp v.distinct;
    }
    own-IsKept m ping t udp p v =
        let (bound, lasts) = pinged-IsKept m t udp v in
        let there = pinged wire json m src udp in
        record {
          bound =
              ap (λ (b : Map SocketAddr String). get b src) (bound-send wire json src pong there)
              ∙ bound;
          lasts =
              subst (λ (s : Sessions). Lasts key m.instant d s)
                (sym (sessions-send wire json src pong there)) lasts;
          distinct = on_message-Distinct wire json m src ping udp v.distinct;
        }
    own-IsKept m (handshake q) t udp p v = absurd p
    own-IsKept m (handshake_ack st host text) t udp p v = absurd p
    own-IsKept m pong t udp p v = absurd p

    Admission-Lasts :
        {m : Moment} {a : SocketAddr} {p : HandshakePayload} {udp next : Udp} (t : ℕ)
        → t ≤ m.instant
        → Admission wire json m a p udp next
        → Lasts key t d udp.server.sessions
        → Lasts key t d next.server.sessions
    unfolding refuse
    Admission-Lasts {m} {a} {p} {udp} {next} t h (reused there e) v =
        subst (λ (s : Sessions). Lasts key t d s) (sym (bound-keys wire json m a p _ udp next e))
          (modify-Lasts key d m (session_key p) (touch m) t udp.server.sessions (touch-Refreshes m)
            h v)
    Admission-Lasts {m} {a} {p} {udp} {next} t h (created made absent c e) v =
        subst (λ (s : Sessions). Lasts key t d s) (sym (bound-keys wire json m a p made udp next e))
          (create_session-Lasts key d m p t udp.server.sessions made absent c v)
    Admission-Lasts {m} {a} {p} {udp} {next} t h (refused x absent c e) v =
        subst (λ (s : Sessions). Lasts key t d s)
          (sym (ap (λ (u : Udp). u.server.sessions) e ∙ sessions-send wire json a _ udp)) v

    admit_other :
        (m : Moment) (a : SocketAddr) (p : HandshakePayload) (udp : Udp)
        → socket_addr_eq.beq a src ≡ false
        → get (admit wire json m a p udp).client_sessions src ≡ get udp.client_sessions src
    unfolding admit bind_session refuse send
    admit_other m a p udp other =
        ground (arith, get-insert udp.client_sessions a src (session_key p))

    -- what another client's message leaves of these
    abbrev Spares : ℕ → Udp → Udp → Type 0
    Spares t udp next =
        (get next.client_sessions src ≡ get udp.client_sessions src)
        × Lasts key t d next.server.sessions

    other_handshake :
        (m : Moment) (a : SocketAddr) (p : HandshakePayload) (t : ℕ) (udp : Udp)
        → socket_addr_eq.beq a src ≡ false
        → t ≤ m.instant
        → Lasts key t d udp.server.sessions
        → Spares t udp (on_handshake wire json m a p udp)
    unfolding on_handshake received
    other_handshake m a p t udp other h v =
        let here = received wire json a p udp in
        let cut : get (remove udp.client_sessions a) src ≡ get udp.client_sessions src =
          ground (arith, get-remove udp.client_sessions a src) in
        elim (Bool-cases (is_approved json p.client_id udp.server.files udp.server.trust).0) [
          | inl entry ↦ rw entry (
            admit_other m a p here other ∙ cut,
            Admission-Lasts t h (admit_cases wire json m a p here) v,
          )
          | inr barred ↦ rw barred (
            ap (λ (b : Map SocketAddr String). get b src) (bound-hold wire json m a p here) ∙ cut,
            subst (λ (s : Sessions). Lasts key t d s) (sym (sessions-hold wire json m a p here)) v,
          )
        ]

    other_events :
        (m : Moment) (a : SocketAddr) (batch : List EventWire) (t : ℕ) (udp : Udp)
        → t ≤ m.instant
        → Lasts key t d udp.server.sessions
        → Spares t udp (on_events wire json m a batch udp)
    unfolding on_events
    other_events m a batch t udp h v = elim (Option-cases (get udp.client_sessions a)) [
      | inl e ↦ rw (e, on_events) (refl, v)
      | inr (k, e) ↦
          rw (e, on_events)
            (
              refl,
              modify-Lasts key d m k (play m batch) t udp.server.sessions (play-Refreshes m batch) h
                  v,
            )
    ]

    other_pinged :
        (m : Moment) (a : SocketAddr) (t : ℕ) (udp : Udp)
        → t ≤ m.instant
        → Lasts key t d udp.server.sessions
        → Spares t udp (pinged wire json m a udp)
    unfolding pinged
    other_pinged m a t udp h v = elim (Option-cases (get udp.client_sessions a)) [
      | inl e ↦ rw (e, pinged) (refl, v)
      | inr (k, e) ↦
          rw (e, pinged)
            (refl, modify-Lasts key d m k (touch m) t udp.server.sessions (touch-Refreshes m) h v)
    ]

    other_message :
        (m : Moment) (a : SocketAddr) (msg : Message) (t : ℕ) (udp : Udp)
        → socket_addr_eq.beq a src ≡ false
        → t ≤ m.instant
        → Lasts key t d udp.server.sessions
        → Spares t udp (on_message wire json m a msg udp)
    unfolding on_message on_ping
    other_message m a (handshake p) t udp other h v = other_handshake m a p t udp other h v
    other_message m a (events batch) t udp other h v = other_events m a batch t udp h v
    other_message m a ping t udp other h v =
        let (same, lasts) = other_pinged m a t udp h v in
        let there = pinged wire json m a udp in
        (
          ap (λ (b : Map SocketAddr String). get b src) (bound-send wire json a pong there) ∙ same,
          subst (λ (s : Sessions). Lasts key t d s) (sym (sessions-send wire json a pong there))
              lasts,
        )
    other_message m a (handshake_ack st host text) t udp other h v = (refl, v)
    other_message m a pong t udp other h v = (refl, v)

    pub other-IsKept :
        (m : Moment) (a : SocketAddr) (msg : Message) (t : ℕ) (udp : Udp)
        → a ≢ src
        → t ≤ m.instant
        → IsKept t udp
        → IsKept t (on_message wire json m a msg udp)
    other-IsKept m a msg t udp other h v =
        let differ : socket_addr_eq.beq a src ≡ false =
          elim (Bool-cases (socket_addr_eq.beq a src)) [
            | inl same ↦ absurd (other ((socket_addr_eq.beq_iff a src).0 same))
            | inr differs ↦ differs
          ] in
        let (bound, lasts) = other_message m a msg t udp differ h v.lasts in
        record {
          bound = bound ∙ v.bound;
          lasts = lasts;
          distinct = on_message-Distinct wire json m a msg udp v.distinct;
        }
