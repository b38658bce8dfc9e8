-- ===== src/Server/Udp/Served.antt =====
-- What an approved client gets over Direct UDP.
use joycast.Prelude.{String, ◌≡◌, refl, sym, ap, subst, ◌∙◌, true, some, arith, ◌⊎◌, inl, inr}
use joycast.Prelude.Outcome.{ok, Codec}
use joycast.Prelude.Map.{Map, string_eq, get, contains_key, modify, eq_self}
use joycast.Prelude.Map.Laws.{get-insert, get-modify}
use joycast.Trust.{TrustData, is_approved}
use joycast.Trust.Approval.{get_of_contains}
use joycast.Transport.{SocketAddr, socket_addr_eq}
use joycast.Protocol.{handshake, HandshakePayload, Wire}
use joycast.Server.{Moment, Sessions, SessionEntry, session_key, create_session, touch}
use joycast.Server.Session.{create_session-Creates}
use joycast.Server.Udp.{Udp, bind_session, received, on_handshake, on_message}
use joycast.Server.Udp.Access.{reused, created, refused, admit_cases, bound-keys, bound-send}

-- The session is there, or its virtual device can be made.
abbrev pub IsReady : Moment → HandshakePayload → Sessions → Type 0
IsReady m p sessions =
    (contains_key sessions (session_key p) ≡ true)
    ⊎ ((made : Sessions) × (create_session m p sessions ≡ ok made))

-- the session of the handshake, active now
abbrev pub IsActive : Moment → HandshakePayload → Sessions → Type 0
IsActive m p sessions =
    (s : SessionEntry) × (get sessions (session_key p) ≡ some s) × (s.last_active ≡ m.instant)

pub touched-IsActive :
    (m : Moment) (p : HandshakePayload) (sessions : Sessions)
    → contains_key sessions (session_key p) ≡ true
    → IsActive m p (modify sessions (session_key p) (touch m))
unfolding touch
touched-IsActive m p sessions there =
    let (s, e) = get_of_contains sessions (session_key p) there in
    (
      touch m s,
      ground (
        arith,
        get-modify sessions (session_key p) (session_key p) (touch m),
        eq_self (session_key p),
      ),
      refl,
    )

pub created-IsActive :
    (m : Moment) (p : HandshakePayload) (sessions made : Sessions)
    → create_session m p sessions ≡ ok made
    → IsActive m p made
created-IsActive m p sessions made e =
    let c = create_session-Creates m p sessions made e in (c.entry, c.found, c.active)

module _ (wire : Wire) (json : Codec TrustData String) where
  -- the address is bound to the session of the handshake, which is active now
  abbrev pub IsServed : Moment → SocketAddr → HandshakePayload → Udp → Type 0
  IsServed m src p udp =
      (get udp.client_sessions src ≡ some (session_key p)) × IsActive m p udp.server.sessions

  bind_session-IsServed :
      (m : Moment) (src : SocketAddr) (p : HandshakePayload) (sessions : Sessions) (udp after : Udp)
      → after ≡ bind_session wire json m src p sessions udp
      → IsActive m p sessions
      → IsServed m src p after
  unfolding bind_session
  bind_session-IsServed m src p sessions udp after e active =
      let same = bound-keys wire json m src p sessions udp after e in
      (
        ap (λ (u : Udp). get u.client_sessions src) e
            ∙ (ap (λ (b : Map SocketAddr String). get b src) (bound-send wire json src _ _)
                ∙ ground
                    (arith, get-insert udp.client_sessions src src (session_key p), eq_self src)),
        subst (IsActive m p) (sym same) active,
      )

  -- A handshake of an approved client, whose session is there or whose virtual device can be made,
  -- is served: after it, the address is bound to the session of the handshake, which is in the
  -- table and active now.
  pub on_message-IsServed :
      (m : Moment) (src : SocketAddr) (p : HandshakePayload) (udp : Udp)
      → (is_approved json p.client_id udp.server.files udp.server.trust).0 ≡ true
      → IsReady m p udp.server.sessions
      → IsServed m src p (on_message wire json m src (handshake p) udp)
  unfolding on_message on_handshake received
  on_message-IsServed m src p udp a ready =
      let before = received wire json src p udp in
      rw (a, on_handshake)
        (elim (admit_cases wire json m src p before) [
          | reused there e ↦
              bind_session-IsServed m src p _ before _ e
                (touched-IsActive m p udp.server.sessions there)
          | created sessions fresh c e ↦
              bind_session-IsServed m src p sessions before _ e
                (created-IsActive m p udp.server.sessions sessions c)
          | refused x fresh c e ↦ elim ready [
            | inl there ↦ absurd (ground arith)
            | inr (made, k) ↦ absurd (ground arith)
          ]
        ])
