-- ===== src/Server/Iroh/Turns.antt =====
-- `handle_iroh_client` of src/server.rs, a piece of its body at a time, where Iroh has the reaction to
-- a whole frame.
pub mod Uninterrupted
pub mod Guard
use joycast.Prelude.{String}
use joycast.Prelude.Outcome.{Result, ok, err, Codec}
use Prim.Native.String.{◌++◌}
use joycast.Trust.{TrustData}
use joycast.Protocol.{Message, handshake, handshake_ack, pending_approval, HandshakePayload}
use joycast.Server.{Moment}
use joycast.Server.Reaction.{
  Point, checking, loading, deciding, admitting, reviewing, reloading, registering, answering, done,
  consult,
}
use joycast.Server.Iroh.{Iroh, Input, Phase, greeting, closed, write, enter, on_read}

-- The handler waits for a frame, or is in the middle of its steps 2 and 3.
pub data Task : Type 0 where
  waiting : Task
  reacting : HandshakePayload → Point → Task

module _ (json : Codec TrustData String) where
  -- the next piece of steps 2 and 3
  unfoldable pub advance : Moment → Input → HandshakePayload → Point → Iroh → Point × Iroh
  advance m input payload admitting c = (done, enter m input payload c)
  advance m input payload answering c = (
    done,
    write input
        (handshake_ack pending_approval m.hostname (
          "Connection pending authorization on server. Run 'joycast server approve "
          ++ payload.client_id ++ "' to authorize."))
        (closed (ok tt)) c,
  )
  advance m input payload point c =
      let (next, server) = consult json "Iroh P2P" m payload point c.server in
      (next, record c { server = server })

  -- where a task is at this point
  unfoldable pub at : HandshakePayload → Point → Task
  at payload done = waiting
  at payload point = reacting payload point

  -- a frame arrives, or reading it fails: all but a first handshake are dealt with under one lock
  unfoldable pub receive :
      (Message → String) → Moment → Input → Phase → Result Message → Iroh → Task × Iroh
  receive debug m input greeting (ok (handshake payload)) c = (reacting payload checking, c)
  receive debug m input phase read c = (waiting, on_read json debug m input phase read c)

  -- one turn of the task; `input` is what it reads, if it waits
  unfoldable pub turn : (Message → String) → Moment → Input → Task × Iroh → Task × Iroh
  turn debug m input (waiting, c) = receive debug m input c.phase input.read c
  turn debug m input (reacting payload point, c) =
      let (next, c') = advance m input payload point c in (at payload next, c')
