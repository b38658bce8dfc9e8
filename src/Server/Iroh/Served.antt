-- ===== src/Server/Iroh/Served.antt =====
-- What an approved client gets over Iroh.
use mathlib.Core.List.{◌++◌}
use joycast.Prelude.{
  String, ◌≡◌, refl, sym, subst, true, List, [], ◌∷◌, arith, inl, inr, Bool-cases,
}
use joycast.Prelude.Outcome.{Result, ok, Codec}
use joycast.Prelude.Map.{string_eq, contains_key}
use joycast.Trust.{TrustData, is_approved}
use joycast.Protocol.{Message, handshake, handshake_ack, approved, HandshakePayload}
use joycast.Server.{Moment, Sessions, session_key}
use joycast.Server.Udp.Served.{IsReady, IsActive, touched-IsActive, created-IsActive}
use joycast.Server.Iroh.{
  Iroh, Input, Phase, greeting, streaming, write, enter, with_sessions, checked, on_handshake,
  on_greeting, on_read, step,
}

-- The handler serves the session of the handshake, which is active now, and has written the approval
-- after all that it wrote before.
abbrev pub IsStreaming : Moment → HandshakePayload → List Message → Iroh → Type 0
IsStreaming m p sent c =
    (c.phase ≡ streaming (session_key p))
    × IsActive m p c.server.sessions
    × (text : String) × (c.sent ≡ sent ++ handshake_ack approved m.hostname text ∷ [])

write-IsStreaming :
    (m : Moment) (input : Input) (p : HandshakePayload) (text : String) (sessions : Sessions)
    (c : Iroh)
    → ((answer : Message) → input.write answer ≡ ok tt)
    → IsActive m p sessions
    → IsStreaming m p c.sent (
        write input
          (handshake_ack approved m.hostname text)
          (streaming (session_key p))
          (with_sessions c sessions))
unfolding write
write-IsStreaming m input p text sessions c takes active =
    rw (takes (handshake_ack approved m.hostname text), write) (refl, active, text, refl)

enter-IsStreaming :
    (m : Moment) (input : Input) (p : HandshakePayload) (c : Iroh)
    → ((answer : Message) → input.write answer ≡ ok tt)
    → IsReady m p c.server.sessions
    → IsStreaming m p c.sent (enter m input p c)
unfolding enter
enter-IsStreaming m input p c takes ready =
    elim (Bool-cases (contains_key c.server.sessions (session_key p))) [
      | inl there ↦
          rw (there, enter)
            (write-IsStreaming m input p _ _ c takes (touched-IsActive m p c.server.sessions there))
      | inr absent ↦ elim ready [
        | inl there ↦ absurd (ground arith)
        | inr (made, e) ↦
            rw (absent, e, enter)
              (write-IsStreaming m input p _ made c takes
                (created-IsActive m p c.server.sessions made e))
      ]
    ]

module _ (json : Codec TrustData String) where
  -- A handshake of an approved client that comes first on its connection, and whose session is
  -- there or whose virtual device can be made, is served, if the handler can write: it has written
  -- the approval, and is in its main loop on the session of the handshake, which is in the table
  -- and active now.
  pub step-IsStreaming :
      (debug : Message → String) (m : Moment) (input : Input) (p : HandshakePayload) (c : Iroh)
      → c.phase ≡ greeting
      → input.read ≡ ok (handshake p)
      → ((answer : Message) → input.write answer ≡ ok tt)
      → (is_approved json p.client_id c.server.files c.server.trust).0 ≡ true
      → IsReady m p c.server.sessions
      → IsStreaming m p c.sent (step json debug m input c)
  unfolding step on_read on_greeting checked on_handshake
  step-IsStreaming debug m input p c ph read takes a ready =
      let entered : IsStreaming m p c.sent (on_handshake json m input p c) =
        rw (a, on_handshake) (enter-IsStreaming m input p (checked json p c) takes ready) in
      subst
        (λ (x : Result Message). IsStreaming m p c.sent (on_read json debug m input c.phase x c))
        (sym read)
        (subst
          (λ (x : Phase).
            IsStreaming m p c.sent (on_read json debug m input x (ok (handshake p)) c))
          (sym ph) entered)
