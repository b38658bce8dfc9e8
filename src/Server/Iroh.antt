-- ===== src/Server/Iroh.antt =====
-- `handle_iroh_client` of src/server.rs: one connection, a frame at a time. The end of the function
-- is the phase `closed` with its result; `send.finish()` and the pauses before the end are left out.
pub mod Access
pub mod Kept
pub mod Served
pub mod Serve
pub mod Turns
pub mod Enrolment
pub mod Replay
use Prim.Native.String.{◌++◌}
use mathlib.Core.List.{◌++◌ as append}
use joycast.Prelude.{ℕ, String, Option, none, some, List, [], ◌∷◌, if◌then◌else◌}
use joycast.Prelude.Outcome.{Result, ok, err, Codec}
use joycast.Prelude.Map.{Map, string_eq, get, contains_key, modify}
use joycast.Trust.{TrustData, is_approved, register_pending}
use joycast.Protocol.{
  Message, handshake, handshake_ack, events, ping, pong, AckStatus, approved, pending_approval,
  rejected, HandshakePayload, EventWire,
}
use joycast.Server.{Server, Moment, Sessions, session_key, create_session, touch, play}

pub data Phase : Type 0 where
  -- before the handshake
  greeting : Phase
  -- the main event loop, with its `session_key`
  streaming : String → Phase
  closed : Result (Unit {0}) → Phase

-- A connection: the shared state, where its handler stands, and the messages written to it.
pub record Iroh : Type 0 where
  pub server : Server
  pub phase : Phase
  pub sent : List Message

-- What one step of the handler meets: the message or error that `read_frame` returns, and the answer
-- of `write_frame` to whatever the step writes.
pub record Input : Type 0 where
  pub read : Result Message
  pub write : Message → Result (Unit {0})

abbrev ack : AckStatus → Moment → String → Message
ack status m message = handshake_ack status m.hostname message

-- `write_frame(&mut send, &message).await?`, and then `next`
unfoldable pub write : Input → Message → Phase → Iroh → Iroh
write input message next c = elim (input.write message) [
  | ok u ↦ record c { phase = next; sent = append c.sent (message ∷ []) }
  | err e ↦ record c { phase = closed (err e) }
]

-- the same, where the result is dropped
unfoldable pub write_anyway : Input → Message → Phase → Iroh → Iroh
write_anyway input message next c = elim (input.write message) [
  | ok u ↦ record c { phase = next; sent = append c.sent (message ∷ []) }
  | err e ↦ record c { phase = next }
]

abbrev pub with_sessions : Iroh → Sessions → Iroh
with_sessions c sessions = record c { server = record c.server { sessions = sessions } }

-- step 3 of the handler: the session is used again or made
unfoldable pub enter : Moment → Input → HandshakePayload → Iroh → Iroh
enter m input payload c =
    let sessions = c.server.sessions in
    let key = session_key payload in
    if contains_key sessions key
    then write input (ack approved m "Connection authorized (reused existing virtual device)")
        (streaming key) (with_sessions c (modify sessions key (touch m)))
    else elim (create_session m payload sessions) [
      | ok sessions' ↦
          write input (ack approved m "Connection authorized") (streaming key)
            (with_sessions c sessions')
      | err e ↦
          write_anyway input (ack rejected m ("Failed to create virtual device: " ++ e))
            (closed (err e)) c
    ]

module _ (json : Codec TrustData String) where
  -- the end of step 2: the request is recorded and the connection ends
  unfoldable pub turn_away : Moment → Input → HandshakePayload → Iroh → Iroh
  turn_away m input payload c =
      let (files, trust) =
        register_pending json payload.client_id payload.client_hostname payload.metadata.name
          "Iroh P2P" m.utc c.server.files c.server.trust in
      write input
        (ack pending_approval m (
          "Connection pending authorization on server. Run 'joycast server approve "
          ++ payload.client_id ++ "' to authorize."))
        (closed (ok tt)) (record c { server = record c.server { files = files; trust = trust } })

  -- the trust data is read again
  unfoldable pub checked : HandshakePayload → Iroh → Iroh
  checked payload c = record c {
    server = record c.server {
      trust = (is_approved json payload.client_id c.server.files c.server.trust).1;
    };
  }

  -- steps 2 and 3, on the handshake
  unfoldable pub on_handshake : Moment → Input → HandshakePayload → Iroh → Iroh
  on_handshake m input payload c =
      if (is_approved json payload.client_id c.server.files c.server.trust).0
      then enter m input payload (checked payload c)
      else turn_away m input payload (checked payload c)

  -- step 1: a round of the loop that waits for the handshake; `debug` is the derived `Debug`
  unfoldable pub on_greeting : (Message → String) → Moment → Input → Message → Iroh → Iroh
  on_greeting debug m input (handshake payload) c = on_handshake m input payload c
  on_greeting debug m input ping c = write input pong greeting c
  on_greeting debug m input other c = record c {
    phase = closed (err ("Expected Handshake message, got: " ++ debug other));
  }

  -- step 4: a round of the main event loop
  unfoldable pub on_stream : Moment → Input → String → Message → Iroh → Iroh
  on_stream m input key (events batch) c =
      if contains_key c.server.sessions key
      then with_sessions c (modify c.server.sessions key (play m batch))
      else record c { phase = closed (ok tt) }
  on_stream m input key ping c =
      if contains_key c.server.sessions key
      then write input pong (streaming key)
          (with_sessions c (modify c.server.sessions key (touch m)))
      else record c { phase = closed (ok tt) }
  on_stream m input key _ c = c

  -- a frame, or the error of reading one, in each phase
  unfoldable pub on_read :
      (Message → String) → Moment → Input → Phase → Result Message → Iroh → Iroh
  on_read debug m input greeting (ok message) c = on_greeting debug m input message c
  on_read debug m input greeting (err e) c = record c { phase = closed (err e) }
  on_read debug m input (streaming key) (ok message) c = on_stream m input key message c
  on_read debug m input (streaming key) (err e) c = record c { phase = closed (ok tt) }
  on_read debug m input (closed r) _ c = c

  -- one step of the handler
  unfoldable pub step : (Message → String) → Moment → Input → Iroh → Iroh
  step debug m input c = on_read debug m input c.phase input.read c

  -- a run of the handler
  unfoldable pub steps : (Message → String) → List (Moment × Input) → Iroh → Iroh
  steps debug [] c = c
  steps debug ((m, input) ∷ rest) c = steps debug rest (step debug m input c)
